-- ===== src/SpineBus.antt =====
-- ctrl_mgr/spineBus.go: the event loop of a spine controller. A new leaf with no servers waits until
-- its first server comes, and only then the data plane hears of it.
pub mod Pending
use horus_controller.Prelude.Words.{u16}
use horus_controller.Prelude.{
  ℕ, Bool, true, false, not, none, some, List, [], ◌∷◌, ◌++◌, nat_beq, if◌then◌else◌, Outcome,
  ◌>>=◌, deref, returned, number_key,
}
use horus_controller.GoMap.{load, store, delete, GoMap}
use horus_controller.Node.{leaf, server}
use horus_controller.Info.{LeafInfo, ServerInfo}
use horus_controller.Topology.State.{get_node, Topology}

-- `cp.OnLeafChange(leafID, index, added)`
pub record LeafChange : Type 0 where
  pub leaf_id : ℕ
  pub index : ℕ
  pub added : Bool

-- The topology is that of the RPC server, and is never nil here.
pub record SpineBus : Type 0 where
  pub topology : Topology
  pub pending_leaves : GoMap ℕ ℕ
  pub leaf_changes : List LeafChange

unfoldable pub on_failed_leaf : LeafInfo → SpineBus → SpineBus
on_failed_leaf info bus = record bus {
  leaf_changes =
      bus.leaf_changes ++ record { leaf_id = info.id; index = info.index; added = false } ∷ [];
}

unfoldable pub on_new_leaf : LeafInfo → SpineBus → Outcome SpineBus
on_new_leaf info bus = do
  found ← get_node (u16 info.id) leaf bus.topology
  a ← deref found
  elim (bus.topology.nodes a).children [
    | [] ↦ returned (record bus { pending_leaves = store (u16 info.id) 1 bus.pending_leaves })
    | _ ∷ _ ↦ returned (record bus {
      leaf_changes =
          bus.leaf_changes ++ record { leaf_id = info.id; index = info.index; added = true } ∷ [];
    })
  ]

-- `bus.pending_leaves[id] != 0`: a missing key reads as 0.
abbrev pub is_pending : ℕ → SpineBus → Bool
is_pending id bus = elim (load id bus.pending_leaves) [ none ↦ false | some n ↦ not (nat_beq n 0) ]

unfoldable pub on_new_server : ServerInfo → SpineBus → Outcome SpineBus
on_new_server info bus = do
  found ← get_node (u16 info.id) server bus.topology
  a ← deref found
  l ← deref (bus.topology.nodes a).parent
  let parent = bus.topology.nodes l
  returned (
      if is_pending parent.id bus
      then record bus {
        leaf_changes =
            bus.leaf_changes
            ++ record { leaf_id = parent.id; index = parent.index; added = true } ∷ [];
        pending_leaves = delete parent.id bus.pending_leaves;
      }
      else bus)
