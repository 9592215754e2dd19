-- ===== src/Topology/RemoveLeaf.antt =====
-- core/model/topology.go: RemoveLeaf and ClearLeaves.
pub mod Empty
pub mod Reindex
pub mod Effect
pub mod Drop
use horus_controller.Prelude.{
  number_key, ◌>>=◌, ℕ, zero, suc, ◌+◌, Option, none, some, Bool, true, false, List, [], ◌∷◌, ◌++◌,
  Outcome, returned, crashed, hung, deref, nat_beq, if◌then◌else◌, remove_at, length, ltb,
}
use horus_controller.Prelude.Words.{sub16}
use horus_controller.GoMap.{delete, values}
use horus_controller.Node.{Nodes, leaf, write}
use horus_controller.Topology.State.{Topology, get_node}
use horus_controller.Topology.RemoveServer.{remove_server}

-- `for len(leaf.Children) > 0 { s.RemoveServer(leaf.Children[0].ID) }`
unfoldable pub remove_children : ℕ → ℕ → Topology → Outcome Topology
remove_children zero a t = hung
remove_children (suc fuel) a t = elim (t.nodes a).children [
  | [] ↦ returned t
  | c ∷ cs ↦ do removed ← remove_server (t.nodes c).id t; remove_children fuel a removed.0
]

-- The variables of the loop over the children of the spine.
pub record Reindexing : Type 0 where
  pub nodes : Nodes
  pub removed_idx : ℕ
  pub include : Bool
  pub updated : List ℕ

unfoldable pub visit_leaf : ℕ → ℕ → ℕ → Reindexing → Reindexing
visit_leaf leaf_id idx a s =
    if nat_beq (s.nodes a).id leaf_id
    then record s { removed_idx = idx; include = true }
    else if s.include
    then record s {
      nodes = write a (record (s.nodes a) { index = sub16 (s.nodes a).index 1 }) s.nodes;
      updated = s.updated ++ a ∷ [];
    }
    else s

unfoldable pub reindex : ℕ → ℕ → List ℕ → Reindexing → Reindexing
unfolding visit_leaf
reindex leaf_id idx [] s = s
reindex leaf_id idx (a ∷ rest) s = reindex leaf_id (idx + 1) rest (visit_leaf leaf_id idx a s)

-- The writes below the loop; the slice expression panics on an index past the end.
unfoldable pub detach_leaf_child : ℕ → ℕ → Reindexing → Topology → Outcome Topology
detach_leaf_child leaf_id parent s t =
    if ltb s.removed_idx (length (s.nodes parent).children)
    then returned (record t {
      nodes =
          write parent
            (record (s.nodes parent) {
              children = remove_at s.removed_idx (s.nodes parent).children;
            })
            s.nodes;
      leaves = delete leaf_id t.leaves;
    })
    else crashed

-- The position of the removed leaf (-1 where there is none), and the leaves with new indices. The
-- loop that empties the leaf has fuel for one round more than the leaf has children.
unfoldable pub remove_leaf : ℕ → Topology → Outcome (Topology × Option ℕ × List ℕ)
unfolding reindex detach_leaf_child
remove_leaf leaf_id t = do
  found ← get_node leaf_id leaf t
  elim found [
    | none ↦ returned (t, none, [])
    | some a ↦ do
      emptied ← remove_children (suc (length (t.nodes a).children)) a t
      parent ← deref (emptied.nodes a).parent
      let s =
          reindex leaf_id 0 (emptied.nodes parent).children
            (record { nodes = emptied.nodes; removed_idx = 0; include = false; updated = [] })
      t' ← detach_leaf_child leaf_id parent s emptied
      returned (t', some s.removed_idx, s.updated)
  ]

unfoldable pub clear_children : List ℕ → Nodes → Nodes
clear_children [] nodes = nodes
clear_children (a ∷ rest) nodes =
    clear_children rest (write a (record (nodes a) { children = [] }) nodes)

unfoldable pub clear_leaves : Topology → Topology
unfolding clear_children
clear_leaves t = record t {
  nodes = clear_children (values t.spines) t.nodes;
  leaves = [];
  servers = [];
}
