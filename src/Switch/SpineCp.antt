-- ===== src/Switch/SpineCp.antt =====
-- ctrl_mgr/cp.go: the handlers of a spine, in both versions of the data plane.
pub mod Indexed
pub mod Added
pub mod Entries
pub mod Tracked
use horus_controller.Switch.Spine.{
  exact, vc_key, spine_init_all, spine_leaf_change_all, init_indices, adjust_leaf_writes,
  index_leaves, slot_writes, unit_of,
}
use horus_controller.Switch.{SwitchClient, bytes_data, Write, insert, put, run_writes}
use horus_controller.Topology.State.{Topology}
use horus_controller.Node.{Nodes}
use horus_controller.Prelude.{
  ℕ, ◌-◌, String, Bool, ◌||◌, Option, none, some, List, [], ◌∷◌, Outcome, returned, ◌>>=◌, deref,
  nat_beq, if◌then◌else◌, get_elem?, length,
}

-- The value of a register that a read returns: zero with an error, which the code drops.
abbrev pub value_or_zero : Option ℕ → ℕ
value_or_zero none = 0
value_or_zero (some v) = v

-- The loop over the leaves in BfrtSpineCP_V2.Init.
abbrev pub unit_writes_v2 : Nodes → List ℕ → List Write
unit_writes_v2 nodes [] = []
unit_writes_v2 nodes (a ∷ rest) =
    insert "pipe_spine.SpineIngress.set_queue_len_unit_1"
      (exact "horus_md.low_ds_id" (nodes a).id ∷ vc_key ∷ [])
      "SpineIngress.act_set_queue_len_unit_1"
      (bytes_data "cluster_unit" (unit_of nodes (nodes a)) ∷ [])
    ∷ unit_writes_v2 nodes rest

abbrev pub leaf_id_map_1 : String
leaf_id_map_1 = "pipe_spine.SpineIngress.leaf_id_map_1"

abbrev pub leaf_id_map_2 : String
leaf_id_map_2 = "pipe_spine.SpineIngress.leaf_id_map_2"

abbrev pub queue_len_list_low : String
queue_len_list_low = "pipe_spine.SpineIngress.queue_len_list_low"

abbrev pub queue_len_list_high : String
queue_len_list_high = "pipe_spine.SpineIngress.queue_len_list_high"

-- Init gets a pointer to the spine that may be nil; OnLeafChange gets the index of the leaf as well,
-- which it only logs.
module _ (c : SwitchClient) where
  open c use {State, read_register}

  unfoldable pub spine_init_v1 : Topology → List ℕ → Option ℕ → State → Outcome State
  unfolding spine_init_all run_writes
  spine_init_v1 t clients spine s = do
    a ← deref spine
    s1 ← spine_init_all c t clients a s
    let kids = (t.nodes a).children
    s2 ← run_writes c (init_indices t.nodes 0 kids) s1
    s3 ←
        run_writes c
          (insert "pipe_spine.SpineIngress.get_cluster_num_valid_leafs" (vc_key ∷ [])
              "SpineIngress.act_get_cluster_num_valid_leafs"
              (bytes_data "num_leafs" (length kids) ∷ [])
            ∷ [])
          s2
    run_writes c (adjust_leaf_writes 31 2) s3

  unfoldable pub spine_leaf_change_v1 : Topology → ℕ → ℕ → Bool → State → Outcome State
  unfolding spine_leaf_change_all run_writes
  spine_leaf_change_v1 t spine leaf_id added s = do
    s1 ← spine_leaf_change_all c t leaf_id added s
    let kids = (t.nodes spine).children
    s2 ← run_writes c (index_leaves t.nodes kids) s1
    run_writes c (slot_writes (length kids)) s2

  unfoldable pub spine_init_v2 : Topology → List ℕ → Option ℕ → State → Outcome State
  unfolding spine_init_all run_writes
  spine_init_v2 t clients spine s = do
    a ← deref spine
    s1 ← spine_init_all c t clients a s
    let kids = (t.nodes a).children
    s2 ← run_writes c (unit_writes_v2 t.nodes kids) s1
    best ← deref (get_elem? kids 0)
    s3 ← run_writes c (put leaf_id_map_1 0 (t.nodes best).id ∷ []) s2
    second ← deref (get_elem? kids (length kids - 1))
    run_writes c
        (put leaf_id_map_2 0 (t.nodes second).id
          ∷ put queue_len_list_low 0 1
          ∷ put queue_len_list_high 0 1
          ∷ [])
        s3

  -- The writes below the early return: the failed leaf is one of the two that are tracked.
  unfoldable pub replace_tracked : Topology → ℕ → ℕ → ℕ → ℕ → ℕ → State → Outcome State
  unfolding run_writes
  replace_tracked t spine leaf_id id1 id2 high s = do
    s1 ←
        run_writes c
          (if nat_beq id1 leaf_id
            then put leaf_id_map_1 0 id2 ∷ put queue_len_list_low 0 high ∷ []
            else [])
          s
    s2 ← run_writes c (put queue_len_list_high 0 100 ∷ []) s1
    alive ← deref (get_elem? (t.nodes spine).children 0)
    run_writes c (put leaf_id_map_2 0 (t.nodes alive).id ∷ []) s2

  -- The block under `if !added`.
  unfoldable pub leaf_failed_v2 : Topology → ℕ → ℕ → State → Outcome State
  unfolding replace_tracked
  leaf_failed_v2 t spine leaf_id s =
      let id1 = value_or_zero (read_register leaf_id_map_1 0 s) in
      let id2 = value_or_zero (read_register leaf_id_map_2 0 s) in
      let high = value_or_zero (read_register queue_len_list_high 0 s) in
      if nat_beq leaf_id id1 || nat_beq leaf_id id2
      then replace_tracked t spine leaf_id id1 id2 high s
      else returned s

  unfoldable pub spine_leaf_change_v2 : Topology → ℕ → ℕ → Bool → State → Outcome State
  unfolding spine_leaf_change_all leaf_failed_v2
  spine_leaf_change_v2 t spine leaf_id added s = do
    s1 ← spine_leaf_change_all c t leaf_id added s
    if added then returned s1 else leaf_failed_v2 t spine leaf_id s1
