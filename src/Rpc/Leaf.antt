-- ===== src/Rpc/Leaf.antt =====
-- core/net/topologyServer_leaf.go: the service of a leaf controller.
use horus_controller.Topology.AddServer.{add_server_to_leaf}
use horus_controller.Topology.RemoveServer.{remove_server}
use horus_controller.GoMap.{load, values}
use horus_controller.Prelude.Words.{u16}
use horus_controller.Prelude.{
  ℕ, Option, none, some, List, [], ◌∷◌, Outcome, ◌>>=◌, Result, returned, ok, err, number_key,
}
use horus_controller.Info.{
  LeafInfo, ServerInfo, VcInfo, Status, ok_status, failed, faild, not_supported,
}
use horus_controller.Node.{write, server}
use horus_controller.Messages.{vc_update_add, vc_update_rem}
use horus_controller.Topology.State.{get_node}
use horus_controller.Rpc.State.{Channels, RpcServer, ◌◂◌}
use horus_controller.Vc.{new_vc, VcError}
use horus_controller.VcManager.{get_vc, add_vc, remove_vc, detach_server}

unfoldable pub add_leaf : LeafInfo → RpcServer → RpcServer × Status
add_leaf info s = (s, not_supported)

-- Another leaf has failed, and this one takes its new index; none is the error "leaf doesn't exist".
unfoldable pub fail_leaf : LeafInfo → RpcServer → RpcServer × Option Status
fail_leaf info s =
    let t = s.topology in
    elim (load (u16 info.id) t.leaves) [
      | none ↦ (s, none)
      | some a ↦ (
        record s {
          topology = record t {
            nodes = write a (record (t.nodes a) { index = u16 info.index }) t.nodes;
          };
        },
        some ok_status,
      )
    ]

unfoldable pub add_server : ServerInfo → RpcServer → Outcome (RpcServer × Status)
add_server info s = do
  r ← add_server_to_leaf info (u16 info.leaf_id) s.topology
  let t = r.0
  let s' = record s { topology = t }
  elim r.1 [
    | err e ↦ returned (s', failed)
    | ok a ↦ elim (t.nodes a).parent [
      | none ↦ returned (s', failed)
      | some l ↦ elim (t.nodes l).parent [
        | none ↦ returned (s', failed)
        | some spine ↦
            let c = s.out in
            returned (
              record s' {
                out = record c {
                  new_servers = c.new_servers ◂ record { server = info; dst = some l };
                };
              },
              ok_status,
            )
      ]
    ]
  ]

-- The servers with new worker IDs go to the bus, where there are any.
abbrev pub send_updated : List ℕ → Channels → Channels
send_updated [] c = c
send_updated (a ∷ rest) c = record c { updated_servers = c.updated_servers ◂ (a ∷ rest) }

unfoldable pub fail_server : ServerInfo → RpcServer → Outcome (RpcServer × Status)
fail_server info s = do
  let t = s.topology
  found ← get_node (u16 info.id) server t
  elim found [
    | none ↦ returned (s, faild)
    | some a ↦ do
      let sid = (t.nodes a).id
      d ← detach_server sid t s.vcm
      r ← remove_server sid t
      returned (record s { topology = r.0; vcm = d.0; out = send_updated r.2 s.out }, ok_status)
  ]

unfoldable pub add_vc_rpc : VcInfo → RpcServer → RpcServer × Result VcError (Unit {0})
add_vc_rpc info s = elim (new_vc info s.topology) [
  | err e ↦ (s, err e)
  | ok vc ↦
      let r = add_vc vc s.topology s.vcm in
      elim r.1 [
        | err e ↦ (record s { vcm = r.0 }, err e)
        | ok _ ↦
            let c = s.out in
            (
              record s {
                vcm = r.0;
                out = record c {
                  new_vcs =
                      c.new_vcs ◂ record { vc_info = info; update_type = vc_update_add; dsts = [] };
                };
              },
              ok tt,
            )
      ]
]

unfoldable pub remove_vc_rpc : VcInfo → RpcServer → RpcServer × Result VcError (Unit {0})
remove_vc_rpc info s = elim (get_vc (u16 info.id) s.vcm) [
  | none ↦ (s, err (VcError.no_vc (u16 info.id)))
  | some o ↦
      let c = s.out in
      (
        record s {
          vcm = (remove_vc o s.topology s.vcm).0;
          out = record c {
            new_vcs = c.new_vcs ◂ record {
              vc_info = info;
              update_type = vc_update_rem;
              dsts = values (s.vcm.objects o).spines;
            };
          };
        },
        ok tt,
      )
]
