-- ===== src/Rpc/Central.antt =====
-- core/net/topologyServer_central.go: the service of the central controller.
use horus_controller.Topology.Encode.{encode_to_topo_info, encode_to_topo_info_at_leaf}
use horus_controller.Topology.AddLeaf.{add_leaf_to_spine}
use horus_controller.Topology.RemoveLeaf.{remove_leaf}
use horus_controller.Topology.AddServer.{add_server_to_leaf}
use horus_controller.Topology.RemoveServer.{remove_server}
use horus_controller.GoMap.{load, store, values}
use horus_controller.Prelude.Words.{u16}
use horus_controller.Prelude.{
  ℕ, Bool, true, false, ◌&&◌, Option, none, some, List, [], ◌∷◌, map, nat_beq, if◌then◌else◌,
  Outcome, ◌>>=◌, Result, returned, ok, err, number_key,
}
use horus_controller.Info.{
  TopoInfo, LeafInfo, ServerInfo, VcInfo, VcServerInfo, Status, ok_status, failed, faild,
}
use horus_controller.Node.{Node, NodeMap, leaf, server}
use horus_controller.Messages.{vc_update_add, vc_update_rem}
use horus_controller.Topology.State.{get_node, Topology}
use horus_controller.Rpc.State.{Channels, RpcServer, ◌◂◌}
use horus_controller.Vc.{new_vc, is_some, VirtualCluster, VcError}
use horus_controller.VcManager.{
  list_at, ids_of, get_vcs, get_vc, add_vc, remove_vc, detach_server, detach_leaf, VcManager,
}

unfoldable pub get_topology : RpcServer → Outcome TopoInfo
get_topology s = encode_to_topo_info s.topology

-- none is the error "couldn't return TopoInfo for leaf".
unfoldable pub get_topology_at_leaf : LeafInfo → RpcServer → Outcome (Option TopoInfo)
get_topology_at_leaf info s = encode_to_topo_info_at_leaf info s.topology

unfoldable pub add_leaf : LeafInfo → RpcServer → Outcome (RpcServer × Status)
add_leaf info s = do
  r ← add_leaf_to_spine info s.topology
  let t = r.0
  let s' = record s { topology = t }
  elim r.1 [
    | err e ↦ returned (s', failed)
    | ok a ↦ elim (t.nodes a).parent [
      | none ↦ returned (s', failed)
      | some spine ↦
          let c = s.out in
          returned (
            record s' {
              out = record c {
                enabled_ports =
                    c.enabled_ports
                    ◂ record { port = (t.nodes a).ds_port }
                    ◂ record { port = (t.nodes a).us_port };
                new_leaves = c.new_leaves ◂ record { leaf = info; dst = some spine };
              };
            },
            ok_status,
          )
    ]
  ]

-- `for spineId, spine := range vc.Spines.Internal() { spinesMap.Store(spineId, spine) }`
unfoldable pub store_all : NodeMap → NodeMap → NodeMap
store_all [] into = into
store_all ((k, a) ∷ m) into = store_all m (store k a into)

-- The spines of all the clusters in a list.
unfoldable pub spines_of : List ℕ → VcManager → NodeMap → NodeMap
unfolding store_all
spines_of [] m into = into
spines_of (o ∷ os) m into = spines_of os m (store_all (m.objects o).spines into)

abbrev pub store_parent : Option ℕ → Topology → NodeMap → NodeMap
store_parent none t into = into
store_parent (some p) t into = store (t.nodes p).id p into

-- The messages of a failed leaf: its two ports, then those of its servers.
unfoldable pub disable_all : List ℕ → Topology → Channels → Channels
disable_all [] t c = c
disable_all (a ∷ rest) t c =
    disable_all rest t
      (record c { disabled_ports = c.disabled_ports ◂ record { port = (t.nodes a).port } })

-- The messages that FailLeaf sends once the leaf `a` is out of the topology `t`.
unfoldable pub announce_failed_leaf :
    LeafInfo → List ℕ → NodeMap → ℕ → Topology → Channels → Channels
unfolding disable_all
announce_failed_leaf info servers spines a t c =
    let own = record c {
      disabled_ports =
          c.disabled_ports
          ◂ record { port = (t.nodes a).ds_port }
          ◂ record { port = (t.nodes a).us_port };
    } in
    let all = disable_all servers t own in
    record all { failed_leaves = all.failed_leaves ◂ record { leaf = info; dsts = values spines } }

unfoldable pub fail_leaf : LeafInfo → RpcServer → Outcome (RpcServer × Status)
unfolding spines_of announce_failed_leaf
fail_leaf info s = do
  let t = s.topology
  let lid = u16 info.id
  found ← get_node lid leaf t
  elim found [
    | none ↦ returned (s, faild)
    | some a ↦ do
      let spines =
          store_parent (t.nodes a).parent t (spines_of (list_at lid s.vcm.leaf_vcs) s.vcm [])
      let servers = (t.nodes a).children
      d ← detach_leaf lid t s.vcm
      r ← remove_leaf lid t
      let s' = record s { topology = r.0; vcm = d.0 }
      returned (
          if is_some r.1 && d.1
          then (record s' { out = announce_failed_leaf info servers spines a r.0 s.out }, ok_status)
          else (s', faild))
  ]

unfoldable pub add_server : ServerInfo → RpcServer → Outcome (RpcServer × Status)
add_server info s = do
  r ← add_server_to_leaf info (u16 info.leaf_id) s.topology
  let t = r.0
  let s' = record s { topology = t }
  elim r.1 [
    | err e ↦ returned (s', failed)
    | ok a ↦ elim (t.nodes a).parent [
      | none ↦ returned (s', failed)
      | some l ↦ elim (t.nodes l).parent [
        | none ↦ returned (s', failed)
        | some spine ↦
            let c = s.out in
            returned (
              record s' {
                out = record c {
                  enabled_ports = c.enabled_ports ◂ record { port = (t.nodes a).port };
                  new_servers = c.new_servers ◂ record { server = info; dst = some spine };
                };
              },
              ok_status,
            )
      ]
    ]
  ]

-- The spine above the leaf of the server, where both are there.
abbrev pub grandparent : Node → Topology → Option ℕ
grandparent n t = elim n.parent [ none ↦ none | some l ↦ (t.nodes l).parent ]

-- The messages that FailServer sends once the server `a` is out of the topology `t`.
unfoldable pub announce_failed_server : ServerInfo → NodeMap → ℕ → Topology → Channels → Channels
announce_failed_server info spines a t c = record c {
  disabled_ports = c.disabled_ports ◂ record { port = (t.nodes a).port };
  failed_servers = c.failed_servers ◂ record { server = info; dsts = values spines };
}

unfoldable pub fail_server : ServerInfo → RpcServer → Outcome (RpcServer × Status)
unfolding spines_of announce_failed_server
fail_server info s = do
  let t = s.topology
  let sid = u16 info.id
  found ← get_node sid server t
  elim found [
    | none ↦ returned (s, faild)
    | some a ↦ do
      let spines =
          store_parent (grandparent (t.nodes a) t) t
            (spines_of (list_at sid s.vcm.server_vcs) s.vcm [])
      d ← detach_server sid t s.vcm
      r ← remove_server sid t
      let s' = record s { topology = r.0; vcm = d.0 }
      returned (
          if r.1 && d.1
          then (record s' { out = announce_failed_server info spines a r.0 s.out }, ok_status)
          else (s', ok_status))
  ]

-- One entry of the answers of GetVCs and GetVCsOfLeaf, for the servers that a test selects.
unfoldable pub select_servers : (ℕ → Bool) → Topology → List ℕ → List VcServerInfo
select_servers p t [] = []
select_servers p t (a ∷ rest) =
    let others = select_servers p t rest in
    if p a then record { id = (t.nodes a).id; workers_ids = [] } ∷ others else others

unfoldable pub vc_info_of : (ℕ → Bool) → Topology → VirtualCluster → VcInfo
unfolding select_servers
vc_info_of p t vc = record {
  id = vc.cluster_id;
  spines = ids_of vc.spines t;
  servers = select_servers p t (values vc.servers);
}

unfoldable pub get_vcs_rpc : RpcServer → List VcInfo
unfolding vc_info_of get_vcs
get_vcs_rpc s = map (λ o. vc_info_of (λ _. true) s.topology (s.vcm.objects o)) (get_vcs s.vcm)

-- Is the server on the leaf with the ID?
abbrev pub on_leaf : Topology → ℕ → ℕ → Bool
on_leaf t lid a = elim (t.nodes a).parent [ none ↦ false | some l ↦ nat_beq (t.nodes l).id lid ]

-- The answer is an error where the leaf is not there or has never had a cluster.
unfoldable pub get_vcs_of_leaf_rpc : LeafInfo → RpcServer → Option (List VcInfo)
unfolding vc_info_of
get_vcs_of_leaf_rpc info s = elim (load (u16 info.id) s.vcm.leaf_vcs) [
  | none ↦ none
  | some os ↦ elim (load (u16 info.id) s.topology.leaves) [
    | none ↦ none
    | some l ↦ some (
        map
          (λ o.
            vc_info_of (on_leaf s.topology (s.topology.nodes l).id) s.topology (s.vcm.objects o))
          os)
  ]
]

-- The answer of AddVC and RemoveVC: the error, or the state with the message.
unfoldable pub add_vc_rpc : VcInfo → RpcServer → RpcServer × Result VcError (Unit {0})
add_vc_rpc info s = elim (new_vc info s.topology) [
  | err e ↦ (s, err e)
  | ok vc ↦
      let r = add_vc vc s.topology s.vcm in
      elim r.1 [
        | err e ↦ (record s { vcm = r.0 }, err e)
        | ok _ ↦
            let c = s.out in
            (
              record s {
                vcm = r.0;
                out = record c {
                  new_vcs = c.new_vcs ◂ record {
                    vc_info = info;
                    update_type = vc_update_add;
                    dsts = values vc.spines;
                  };
                };
              },
              ok tt,
            )
      ]
]

unfoldable pub remove_vc_rpc : VcInfo → RpcServer → RpcServer × Result VcError (Unit {0})
remove_vc_rpc info s = elim (get_vc (u16 info.id) s.vcm) [
  | none ↦ (s, err (VcError.no_vc (u16 info.id)))
  | some o ↦
      let c = s.out in
      (
        record s {
          vcm = (remove_vc o s.topology s.vcm).0;
          out = record c {
            new_vcs = c.new_vcs ◂ record {
              vc_info = info;
              update_type = vc_update_rem;
              dsts = values (s.vcm.objects o).spines;
            };
          };
        },
        ok tt,
      )
]
