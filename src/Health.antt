-- ===== src/Health.antt =====
-- core/leafHealthManager.go: the health of the servers of a leaf. Time is a number, read by
-- `time.Now()`, and enters as an argument.
pub mod Overdue
use horus_controller.Topology.RemoveServer.{remove_server}
use horus_controller.GoMap.{load, store, delete, values}
use horus_controller.Prelude.{
  ℕ, ◌-◌, Bool, true, false, ◌&&◌, Option, none, some, List, [], ◌∷◌, ◌++◌, leb, if◌then◌else◌,
  Outcome, ◌>>=◌, returned, number_key,
}
use horus_controller.Node.{write, Node, Nodes, NodeMap}
use horus_controller.Topology.State.{Topology}
use horus_controller.VcManager.{detach_server, VcManager}

-- OnNodePingRecv: a ping of a server that the leaf does not know is dropped.
unfoldable pub on_node_ping_recv : ℕ → ℕ → Topology → Topology
on_node_ping_recv now server_id t = elim (load server_id t.servers) [
  | none ↦ t
  | some a ↦ record t {
    nodes =
        write a (record (t.nodes a) { last_ping_time = now; healthy = true; ready = true }) t.nodes;
  }
]

-- Has the server failed by now?
abbrev pub has_failed : ℕ → ℕ → Node → Bool
has_failed now timeout n = leb timeout (now - n.last_ping_time) && (n.healthy && n.ready)

-- The loop over the servers of the leaf: the failed ones are marked and collected.
unfoldable pub mark_failed : ℕ → ℕ → List ℕ → Nodes → List ℕ → Nodes × List ℕ
mark_failed now timeout [] nodes failed = (nodes, failed)
mark_failed now timeout (a ∷ rest) nodes failed =
    let gone = has_failed now timeout (nodes a) in
    mark_failed now timeout rest
      (if gone then write a (record (nodes a) { healthy = false; ready = false }) nodes else nodes)
      (if gone then failed ++ a ∷ [] else failed)

abbrev pub store_nodes : List ℕ → Topology → NodeMap → NodeMap
store_nodes [] t m = m
store_nodes (a ∷ rest) t m = store_nodes rest t (store (t.nodes a).id a m)

-- The loop of processFailedNodes: each failed server leaves the clusters and the topology.
unfoldable pub remove_failed :
    List ℕ → Topology → VcManager → NodeMap → Outcome (Topology × VcManager × NodeMap)
remove_failed [] t m updated = returned (t, m, updated)
remove_failed (a ∷ rest) t m updated = do
  let sid = (t.nodes a).id
  d ← detach_server sid t m
  r ← remove_server sid t
  remove_failed rest r.0 d.0 (store_nodes r.2 r.0 (delete sid updated))

-- One round of processNodes for the leaf `l`: the last part is the message to the bus, if any.
unfoldable pub process_nodes :
    ℕ → ℕ → ℕ → Topology → VcManager → Outcome (Topology × VcManager × Option (List ℕ))
unfolding mark_failed remove_failed
process_nodes now timeout l t m = do
  let marked = mark_failed now timeout (t.nodes l).children t.nodes []
  r ← remove_failed marked.1 (record t { nodes = marked.0 }) m []
  let out = values r.2
  returned (r.0, r.1, elim out [ [] ↦ none | x ∷ xs ↦ some (x ∷ xs) ])
