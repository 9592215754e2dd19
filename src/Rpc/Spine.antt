-- ===== src/Rpc/Spine.antt =====
-- core/net/topologyServer_spine.go: the service of a spine controller.
use horus_controller.Topology.AddLeaf.{add_leaf_to_spine}
use horus_controller.Topology.RemoveLeaf.{remove_leaf}
use horus_controller.Topology.AddServer.{add_server_to_leaf}
use horus_controller.Topology.RemoveServer.{remove_server}
use horus_controller.GoMap.{values}
use horus_controller.Prelude.Words.{u16}
use horus_controller.Prelude.{
  ℕ, ◌&&◌, Option, none, some, List, [], ◌∷◌, if◌then◌else◌, Outcome, ◌>>=◌, Result, returned, ok,
  err, number_key,
}
use horus_controller.Info.{LeafInfo, ServerInfo, VcInfo, Status, ok_status, failed, faild}
use horus_controller.Node.{leaf, server}
use horus_controller.Messages.{ServerFailedMessage, vc_update_add, vc_update_rem}
use horus_controller.Topology.State.{get_node}
use horus_controller.Rpc.State.{Channels, RpcServer, ◌◂◌}
use horus_controller.Vc.{new_vc, is_some, VcError}
use horus_controller.VcManager.{get_vc, add_vc, remove_vc, detach_server, detach_leaf}

-- The index that the spine gave the leaf goes with the message.
unfoldable pub add_leaf : LeafInfo → RpcServer → Outcome (RpcServer × Status)
add_leaf info s = do
  r ← add_leaf_to_spine info s.topology
  let t = r.0
  let s' = record s { topology = t }
  elim r.1 [
    | err e ↦ returned (s', failed)
    | ok a ↦ elim (t.nodes a).parent [
      | none ↦ returned (s', failed)
      | some spine ↦
          let c = s.out in
          let told = record info { index = (t.nodes a).index } in
          returned (
            record s' {
              out = record c { new_leaves = c.new_leaves ◂ record { leaf = told; dst = some a } };
            },
            ok_status,
          )
    ]
  ]

-- The messages that FailLeaf sends: the leaves with new indices, where there are any, and the leaf.
unfoldable pub announce_failed_leaf : LeafInfo → List ℕ → ℕ → Channels → Channels
announce_failed_leaf info updated a c = record c {
  updated_leaves = elim updated [
    | [] ↦ c.updated_leaves
    | x ∷ xs ↦ c.updated_leaves ◂ record { leaves = x ∷ xs }
  ];
  failed_leaves = c.failed_leaves ◂ record { leaf = info; dsts = a ∷ [] };
}

unfoldable pub fail_leaf : LeafInfo → RpcServer → Outcome (RpcServer × Status)
unfolding announce_failed_leaf
fail_leaf info s = do
  let t = s.topology
  let lid = u16 info.id
  found ← get_node lid leaf t
  elim found [
    | none ↦ returned (s, faild)
    | some a ↦ do
      let told = record info { index = (t.nodes a).index }
      d ← detach_leaf lid t s.vcm
      r ← remove_leaf lid t
      let s' = record s { topology = r.0; vcm = d.0 }
      returned (
          if is_some r.1 && d.1
          then (record s' { out = announce_failed_leaf told r.2 a s.out }, ok_status)
          else (s', faild))
  ]

unfoldable pub add_server : ServerInfo → RpcServer → Outcome (RpcServer × Status)
add_server info s = do
  r ← add_server_to_leaf info (u16 info.leaf_id) s.topology
  let t = r.0
  let s' = record s { topology = t }
  elim r.1 [
    | err e ↦ returned (s', failed)
    | ok a ↦ elim (t.nodes a).parent [
      | none ↦ returned (s', failed)
      | some l ↦ elim (t.nodes l).parent [
        | none ↦ returned (s', failed)
        | some spine ↦
            let c = s.out in
            returned (
              record s' {
                out = record c {
                  new_servers = c.new_servers ◂ record { server = info; dst = some l };
                };
              },
              ok_status,
            )
      ]
    ]
  ]

-- `[]*model.Node{server.Parent}`: the leaf, which a server of the topology has.
abbrev pub one_node : Option ℕ → List ℕ
one_node none = []
one_node (some a) = a ∷ []

unfoldable pub fail_server : ServerInfo → RpcServer → Outcome (RpcServer × Status)
fail_server info s = do
  let t = s.topology
  let sid = u16 info.id
  found ← get_node sid server t
  elim found [
    | none ↦ returned (s, faild)
    | some a ↦ do
      d ← detach_server sid t s.vcm
      r ← remove_server sid t
      let s' = record s { topology = r.0; vcm = d.0 }
      let c = s.out
      let message : ServerFailedMessage = record {
        server = info;
        dsts = one_node (r.0.nodes a).parent;
      }
      returned (
          if r.1 && d.1
          then (
            record s' { out = record c { failed_servers = c.failed_servers ◂ message } },
            ok_status,
          )
          else (s', faild))
  ]

unfoldable pub add_vc_rpc : VcInfo → RpcServer → RpcServer × Result VcError (Unit {0})
add_vc_rpc info s = elim (new_vc info s.topology) [
  | err e ↦ (s, err e)
  | ok vc ↦
      let r = add_vc vc s.topology s.vcm in
      elim r.1 [
        | err e ↦ (record s { vcm = r.0 }, err e)
        | ok _ ↦
            let c = s.out in
            (
              record s {
                vcm = r.0;
                out = record c {
                  new_vcs = c.new_vcs ◂ record {
                    vc_info = info;
                    update_type = vc_update_add;
                    dsts = values vc.leaves;
                  };
                };
              },
              ok tt,
            )
      ]
]

unfoldable pub remove_vc_rpc : VcInfo → RpcServer → RpcServer × Result VcError (Unit {0})
remove_vc_rpc info s = elim (get_vc (u16 info.id) s.vcm) [
  | none ↦ (s, err (VcError.no_vc (u16 info.id)))
  | some o ↦
      let c = s.out in
      (
        record s {
          vcm = (remove_vc o s.topology s.vcm).0;
          out = record c {
            new_vcs = c.new_vcs ◂ record {
              vc_info = info;
              update_type = vc_update_rem;
              dsts = values (s.vcm.objects o).leaves;
            };
          };
        },
        ok tt,
      )
]
