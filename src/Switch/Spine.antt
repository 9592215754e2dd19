-- ===== src/Switch/Spine.antt =====
-- ctrl_mgr/cp.go: the tables and registers of the switch of a spine, in both versions of the data plane.
use horus_controller.Switch.Workers.{dev_port, count_workers, qlen_unit, numbered}
use horus_controller.Switch.{
  SwitchClient, KeyField, bytes_data, Write, upsert, insert, put, run_writes,
}
use horus_controller.Topology.State.{Topology, get_node}
use horus_controller.Node.{Node, Nodes, leaf}
use horus_controller.Prelude.{
  ℕ, zero, suc, ◌+◌, ◌^◌, String, Bool, List, [], ◌∷◌, ◌++◌, Outcome, returned, ◌>>=◌, deref, leb,
  if◌then◌else◌, length,
}
use horus_controller.Prelude.Words.{u16}

-- `MakeExactKey`
abbrev pub exact : String → ℕ → KeyField
exact name value = record { name = name; value = value }

abbrev pub spine_forward : ℕ → ℕ → Write
spine_forward id port =
    insert "pipe_spine.SpineIngress.forward_horus_switch_dst" (exact "hdr.horus.dst_id" id ∷ [])
      "SpineIngress.act_forward_horus" (bytes_data "port" port ∷ [])

-- The clusters are all in the pool 0: `var vcID uint64 = 0`.
abbrev pub vc_key : KeyField
vc_key = exact "hdr.horus.pool_id" 0

module _ (c : SwitchClient) where
  open c use {State, read_register}

  -- The body of the loop over the leaves in SpineCPInitAllVer.
  unfoldable pub spine_init_leaf : Topology → ℕ → Node → State → Outcome State
  unfolding run_writes dev_port
  spine_init_leaf t i n s = do
    s1 ←
        run_writes c
          (put "pipe_spine.SpineIngress.idle_list" i n.id
            ∷ put "pipe_spine.SpineIngress.idle_list_idx_mapping" n.id i
            ∷ [])
          s
    port ← dev_port t n.ds_port
    run_writes c (spine_forward n.id port ∷ []) s1

  unfoldable pub spine_init_leaves : Topology → ℕ → List ℕ → State → Outcome State
  unfolding spine_init_leaf
  spine_init_leaves t i [] s = returned s
  spine_init_leaves t i (a ∷ rest) s = do
    s1 ← spine_init_leaf t i (t.nodes a) s
    spine_init_leaves t (i + 1) rest s1

  -- The loop over the clients.
  unfoldable pub spine_init_clients : Topology → List ℕ → State → Outcome State
  unfolding run_writes dev_port
  spine_init_clients t [] s = returned s
  spine_init_clients t (a ∷ rest) s = do
    port ← dev_port t (t.nodes a).port
    s1 ← run_writes c (spine_forward (t.nodes a).id port ∷ []) s
    spine_init_clients t rest s1

  -- SpineCPInitAllVer. `clients` are the nodes of the map in the order of its range.
  unfoldable pub spine_init_all : Topology → List ℕ → ℕ → State → Outcome State
  unfolding spine_init_leaves spine_init_clients run_writes
  spine_init_all t clients spine s = do
    s1 ← spine_init_leaves t 0 (t.nodes spine).children s
    s2 ←
        run_writes c
          (put "pipe_spine.SpineIngress.idle_count" 0 (length (t.nodes spine).children) ∷ []) s1
    spine_init_clients t clients s2

  -- SpineCPOnLeafChangeAllVer.
  unfoldable pub spine_leaf_change_all : Topology → ℕ → Bool → State → Outcome State
  unfolding run_writes dev_port
  spine_leaf_change_all t leaf_id added s =
      if added
      then (do
        found ← get_node (u16 leaf_id) leaf t
        a ← deref found
        port ← dev_port t (t.nodes a).ds_port
        run_writes c
            (upsert "pipe_spine.SpineIngress.forward_horus_switch_dst"
                (exact "hdr.horus.dst_id" leaf_id ∷ []) "SpineIngress.act_forward_horus"
                (bytes_data "port" port ∷ [])
              ∷ [])
            s)
      else returned s

-- The entries of a leaf in BfrtSpineCP_V1.Init; `unit` is the unit of its queue lengths.
abbrev pub init_index_writes : ℕ → ℕ → ℕ → List Write
init_index_writes i id unit =
    insert "pipe_spine.SpineIngress.set_queue_len_unit_1"
      (exact "horus_md.random_id_1" id ∷ vc_key ∷ []) "SpineIngress.act_set_queue_len_unit_1"
      (bytes_data "cluster_unit" unit ∷ [])
    ∷ insert "pipe_spine.SpineIngress.set_queue_len_unit_2"
        (exact "horus_md.random_id_2" id ∷ vc_key ∷ []) "SpineIngress.act_set_queue_len_unit_2"
        (bytes_data "cluster_unit" unit ∷ [])
    ∷ insert "pipe_spine.SpineIngress.set_queue_len_unit_resub"
        (exact "horus_md.selected_ds_index" id ∷ vc_key ∷ [])
        "SpineIngress.act_set_queue_len_unit_resub" (bytes_data "cluster_unit" unit ∷ [])
    ∷ insert "pipe_spine.SpineIngress.get_rand_leaf_id_1"
        (exact "horus_md.random_ds_index_1" i ∷ vc_key ∷ []) "SpineIngress.act_get_rand_leaf_id_1"
        (bytes_data "leaf_id" id ∷ [])
    ∷ insert "pipe_spine.SpineIngress.get_rand_leaf_id_2"
        (exact "horus_md.random_ds_index_2" i ∷ vc_key ∷ []) "SpineIngress.act_get_rand_leaf_id_2"
        (bytes_data "leaf_id" id ∷ [])
    ∷ insert "pipe_spine.SpineIngress.get_switch_index" (vc_key ∷ exact "hdr.horus.src_id" id ∷ [])
        "SpineIngress.act_get_switch_index" (bytes_data "switch_index" i ∷ [])
    ∷ []

-- The unit of the queue lengths of a leaf.
abbrev pub unit_of : Nodes → Node → ℕ
unit_of nodes n = qlen_unit (count_workers nodes n.children 0)

-- The loop over the leaves in BfrtSpineCP_V1.Init.
abbrev pub init_indices : Nodes → ℕ → List ℕ → List Write
init_indices nodes i [] = []
init_indices nodes i (a ∷ rest) =
    init_index_writes i (nodes a).id (unit_of nodes (nodes a)) ++ init_indices nodes (i + 1) rest

-- `math.Ceil(math.Log2(float64(i)))`: the least number of bits from `bits` on, on fuel.
abbrev pub bits_from : ℕ → ℕ → ℕ → ℕ
bits_from zero bits i = bits
bits_from (suc fuel) bits i =
    let more = bits_from fuel (suc bits) i in if leb i (2 ^ bits) then bits else more

-- The loop of BfrtSpineCP_V1.InitRandomAdjustTables: `n` rounds from `i` on.
abbrev pub adjust_leaf_writes : ℕ → ℕ → List Write
adjust_leaf_writes zero i = []
adjust_leaf_writes (suc n) i =
    insert "pipe_spine.SpineIngress.adjust_random_range_sq_leafs"
      (exact "horus_md.cluster_num_valid_queue_signals" i ∷ [])
      (numbered "SpineIngress.adjust_random_leaf_index_" (bits_from 6 0 i)) []
    ∷ adjust_leaf_writes n (suc i)

-- The entries of a leaf in BfrtSpineCP_V1.OnLeafChange.
abbrev pub index_writes : Node → List Write
index_writes n =
    upsert "pipe_spine.SpineIngress.get_switch_index" (vc_key ∷ exact "hdr.horus.src_id" n.id ∷ [])
      "SpineIngress.act_get_switch_index" (bytes_data "switch_index" n.index ∷ [])
    ∷ upsert "pipe_spine.SpineIngress.get_rand_leaf_id_1"
        (exact "horus_md.random_ds_index_1" n.index ∷ vc_key ∷ [])
        "SpineIngress.act_get_rand_leaf_id_1" (bytes_data "leaf_id" n.id ∷ [])
    ∷ upsert "pipe_spine.SpineIngress.get_rand_leaf_id_2"
        (exact "horus_md.random_ds_index_2" n.index ∷ vc_key ∷ [])
        "SpineIngress.act_get_rand_leaf_id_2" (bytes_data "leaf_id" n.id ∷ [])
    ∷ []

abbrev pub index_leaves : Nodes → List ℕ → List Write
index_leaves nodes [] = []
index_leaves nodes (a ∷ rest) = index_writes (nodes a) ++ index_leaves nodes rest

-- `uint64(n - 1)` of an `int`.
abbrev pub last_slot : ℕ → ℕ
last_slot zero = 18446744073709551615
last_slot (suc n) = n

-- What BfrtSpineCP_V1.OnLeafChange writes below its loop, for a spine with `n` leaves.
abbrev pub slot_writes : ℕ → List Write
slot_writes n =
    upsert "pipe_spine.SpineIngress.get_cluster_num_valid_leafs" (vc_key ∷ [])
      "SpineIngress.act_get_cluster_num_valid_leafs" (bytes_data "num_leafs" n ∷ [])
    ∷ put "pipe_spine.SpineIngress.queue_len_list_1" (last_slot n) 0
    ∷ put "pipe_spine.SpineIngress.queue_len_list_2" (last_slot n) 0
    ∷ put "pipe_spine.SpineIngress.deferred_queue_len_list_1" (last_slot n) 0
    ∷ put "pipe_spine.SpineIngress.deferred_queue_len_list_2" (last_slot n) 0
    ∷ []
