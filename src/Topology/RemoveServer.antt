-- ===== src/Topology/RemoveServer.antt =====
-- core/model/topology.go: RemoveServer.
pub mod Loop
pub mod Layout
pub mod Effect
use horus_controller.Prelude.{
  number_key, ◌>>=◌, ℕ, ◌+◌, Option, none, some, Bool, true, false, List, [], ◌∷◌, ◌++◌, Outcome,
  returned, deref, nat_beq, if◌then◌else◌, remove_at,
}
use horus_controller.Prelude.Words.{add16, sub16}
use horus_controller.GoMap.{delete}
use horus_controller.Node.{Node, Nodes, server, write}
use horus_controller.Topology.State.{Topology, get_node}

-- The variables of the loop over the children of the leaf; `removed_idx` is -1 at first.
pub record Renumbering : Type 0 where
  pub nodes : Nodes
  pub worker_id : ℕ
  pub removed_idx : Option ℕ
  pub updated : List ℕ

-- The number of workers of a server, as the code computes it in uint16.
abbrev pub workers_count : Node → ℕ
workers_count n = add16 (sub16 n.last_worker_id n.first_worker_id) 1

-- The body of the loop, at the child `a` with position `idx`.
unfoldable pub visit : ℕ → ℕ → ℕ → Renumbering → Renumbering
visit server_id idx a s =
    if nat_beq (s.nodes a).id server_id
    then record s { removed_idx = some idx }
    else let next_id = add16 s.worker_id (workers_count (s.nodes a)) in
      record s {
        nodes =
            write a
              (record (s.nodes a) {
                first_worker_id = s.worker_id;
                last_worker_id = sub16 next_id 1;
              })
              s.nodes;
        worker_id = next_id;
        updated = elim s.removed_idx [ none ↦ s.updated | some _ ↦ s.updated ++ a ∷ [] ];
      }

unfoldable pub renumber : ℕ → ℕ → List ℕ → Renumbering → Renumbering
unfolding visit
renumber server_id idx [] s = s
renumber server_id idx (a ∷ rest) s = renumber server_id (idx + 1) rest (visit server_id idx a s)

-- The writes below the loop.
unfoldable pub detach_child : ℕ → ℕ → ℕ → Renumbering → Topology → Topology
detach_child server_id parent idx s t = record t {
  nodes =
      write parent
        (record (s.nodes parent) {
          first_worker_id = 0;
          last_worker_id = if nat_beq s.worker_id 0 then 0 else sub16 s.worker_id 1;
          children = remove_at idx (s.nodes parent).children;
        })
        s.nodes;
  servers = delete server_id t.servers;
}

-- Was the server there, and which servers have new worker IDs?
unfoldable pub remove_server : ℕ → Topology → Outcome (Topology × Bool × List ℕ)
unfolding renumber detach_child
remove_server server_id t = do
  found ← get_node server_id server t
  elim found [
    | none ↦ returned (t, false, [])
    | some a ↦ do
      parent ← deref (t.nodes a).parent
      let s =
          renumber server_id 0 (t.nodes parent).children
            (record { nodes = t.nodes; worker_id = 0; removed_idx = none; updated = [] })
      idx ← deref s.removed_idx
      returned (detach_child server_id parent idx s t, true, s.updated)
  ]
