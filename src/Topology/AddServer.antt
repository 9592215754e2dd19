-- ===== src/Topology/AddServer.antt =====
-- core/model/topology.go: AddServerToLeaf.
use horus_controller.Prelude.{
  number_key, ◌>>=◌, ℕ, ◌+◌, none, some, [], ◌∷◌, ◌++◌, Outcome, returned, deref, Result, ok, err,
  ltb, if◌then◌else◌,
}
use horus_controller.Prelude.Words.{u16, add16, sub16}
use horus_controller.GoMap.{store}
use horus_controller.Info.{ServerInfo}
use horus_controller.Node.{Node, leaf, server, new_server, write}
use horus_controller.Asic.{PortRef, AsicRegistry}
use horus_controller.Topology.State.{
  Topology, TopoError, no_leaf, server_exists, server_mismatched, find_port, or_fatal, get_node,
}
use horus_controller.Topology.AddLeaf.{points_to}

-- The first worker ID that a new server of the leaf is given.
abbrev pub next_worker_id : Node → ℕ
next_worker_id n = if ltb 0 n.last_worker_id then add16 n.last_worker_id 1 else 0

unfoldable pub attach_server : ServerInfo → PortRef → ℕ → Topology → Topology
unfolding new_server
attach_server info port parent t =
    let id = u16 info.id in
    let first = next_worker_id (t.nodes parent) in
    let last = sub16 (add16 first (u16 info.workers_count)) 1 in
    let fresh = new_server info.address id port in
    record t {
      nodes =
          write t.next
            (record fresh { parent = some parent; first_worker_id = first; last_worker_id = last })
            (write parent
              (record (t.nodes parent) {
                children = (t.nodes parent).children ++ t.next ∷ [];
                first_worker_id = 0;
                last_worker_id = last;
              })
              t.nodes);
      next = t.next + 1;
      servers = store id t.next t.servers;
    }

-- The port of the new server, on the ASIC of its leaf.
unfoldable pub server_port : ServerInfo → Node → AsicRegistry → Outcome PortRef
server_port info parent registry = do
  asic ← deref parent.asic
  port_info ← deref info.port
  or_fatal (find_port asic port_info.id registry)

unfoldable pub add_server_to_leaf :
    ServerInfo → ℕ → Topology → Outcome (Topology × Result TopoError ℕ)
unfolding attach_server server_port
add_server_to_leaf info leaf_id t = do
  found_leaf ← get_node leaf_id leaf t
  existing ← get_node (u16 info.id) server t
  elim found_leaf [
    | none ↦ returned (t, err (no_leaf leaf_id))
    | some parent ↦ elim existing [
      | some old ↦ returned (
        t,
        err (
            if points_to (t.nodes old).parent parent
            then server_exists info.id
            else server_mismatched info.id),
      )
      | none ↦ do
        port ← server_port info (t.nodes parent) t.asic_registry
        returned (attach_server info port parent t, ok t.next)
    ]
  ]
