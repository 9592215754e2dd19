-- ===== src/Switch/SpineCp/Indexed.antt =====
-- The tables between the leaves of a spine and their indices (ctrl_mgr/cp.go, the first version of the
-- data plane).
use horus_controller.Switch.SpineCp.Entries.{
  leaf_port_table, leaf_port_kept, switch_index, rand_leaf_1, rand_leaf_2, num_valid_leafs, src_key,
  rand_key_1, rand_key_2, index_entry, leaf_entry_1, leaf_entry_2, index_after, leaf_after_1,
  leaf_after_2, IsIndexed-index_of, index_of-injective,
}
use horus_controller.Topology.RemoveLeaf.Effect.{remove_leaf_lem}
use horus_controller.Topology.Valid.{parent_at, IsValid}
use horus_controller.Topology.State.{Topology}
use horus_controller.Topology.RemoveLeaf.{remove_leaf}
use horus_controller.Switch.SpineCp.{spine_leaf_change_v1}
use horus_controller.GoMap.{load}
use horus_controller.Topology.Indices.{IsIndexed-without, IsIndexed}
use horus_controller.Switch.Writes.{Fits, run_writes_lem}
use horus_controller.Switch.Spine.{
  spine_leaf_change_all, last_slot, slot_writes, vc_key, index_leaves,
}
use horus_controller.Switch.{
  SwitchClient, run_writes, KeyField, SwitchEntry, table_entry, bytes_data,
}
use horus_controller.Node.{Nodes}
use horus_controller.Prelude.{
  false, without, length-without, after, ◌≤◌, ◌<◌, sym, ap, ◌∙◌, arith, length, index_of,
  index_of-lt, returned, ℕ, ◌≡◌, String, true, Option, some, List, [], ◌∷◌, elem, ◌>>=◌, number_key,
  text_key,
}

module _ (c : SwitchClient) where
  open c use {State, read_table_entry, register_size}

  -- The registers have a cell for each of `n` leaves.
  pub record HasSlots (n : ℕ) : Type 0 where
    pub low_1 : last_slot n < register_size "pipe_spine.SpineIngress.queue_len_list_1"
    pub low_2 : last_slot n < register_size "pipe_spine.SpineIngress.queue_len_list_2"
    pub deferred_1 : last_slot n < register_size "pipe_spine.SpineIngress.deferred_queue_len_list_1"
    pub deferred_2 : last_slot n < register_size "pipe_spine.SpineIngress.deferred_queue_len_list_2"

  -- The tables number the leaves `kids` of a spine by their positions: from the ID of a leaf to its
  -- position, from the position to the ID, and their count.
  pub record IsTabled (nodes : Nodes) (kids : List ℕ) (s : State) : Type 0 where
    pub index_at :
        (a : ℕ)
        → elem a kids ≡ true
        → read_table_entry switch_index (src_key (nodes a).id) s
          ≡ some (index_entry (nodes a).id (index_of a kids))
    pub id_at_1 :
        (a : ℕ)
        → elem a kids ≡ true
        → read_table_entry rand_leaf_1 (rand_key_1 (index_of a kids)) s
          ≡ some (leaf_entry_1 (index_of a kids) (nodes a).id)
    pub id_at_2 :
        (a : ℕ)
        → elem a kids ≡ true
        → read_table_entry rand_leaf_2 (rand_key_2 (index_of a kids)) s
          ≡ some (leaf_entry_2 (index_of a kids) (nodes a).id)
    pub count_eq :
        read_table_entry num_valid_leafs (vc_key ∷ []) s
        ≡ some (
            table_entry num_valid_leafs
              (vc_key ∷ [])
              "SpineIngress.act_get_cluster_num_valid_leafs"
              (bytes_data "num_leafs" (length kids) ∷ []))

  index_leaves-Fits :
      (nodes : Nodes) (xs : List ℕ) (read : String → List KeyField → Option SwitchEntry)
      → Fits c (index_leaves nodes xs) read
  index_leaves-Fits nodes [] read = tt
  index_leaves-Fits nodes (x ∷ xs) read = (tt, (tt, (tt, index_leaves-Fits nodes xs _)))

  -- The writes below SpineCPOnLeafChangeAllVer.
  pub index_writes_lem :
      (nodes : Nodes) (kids : List ℕ) (s : State)
      → IsIndexed nodes 0 kids
      → length kids ≤ 65536
      → ((a b : ℕ) → elem a kids ≡ true → elem b kids ≡ true → (nodes a).id ≡ (nodes b).id → a ≡ b)
      → HasSlots (length kids)
      → (s' : State) × ((run_writes c (index_leaves nodes kids) s
            >>= run_writes c (slot_writes (length kids)))
          ≡ returned s')
        × IsTabled nodes kids s'
        × ((ls : List KeyField)
            → read_table_entry leaf_port_table ls s' ≡ read_table_entry leaf_port_table ls s)
  index_writes_lem nodes kids s x small inj slots =
      let (s1, ran1, w1) =
        run_writes_lem c (index_leaves nodes kids) s (index_leaves-Fits nodes kids _) in
      let (s2, ran2, w2) =
        run_writes_lem c (slot_writes (length kids)) s1
          (tt, (slots.low_1, (slots.low_2, (slots.deferred_1, (slots.deferred_2, tt))))) in
      (
        s2,
        ap (λ m. m >>= run_writes c (slot_writes (length kids))) ran1 ∙ ran2,
        record {
          index_at = λ a m.
              w2.entries switch_index (src_key (nodes a).id)
              ∙ w1.entries switch_index (src_key (nodes a).id)
              ∙ index_after nodes a kids _ (λ b n e. inj b a n m e)
              ∙ ground (arith, place a m);
          id_at_1 = λ a m. rw (sym (place a m)) (
              w2.entries rand_leaf_1 (rand_key_1 (nodes a).index)
              ∙ w1.entries rand_leaf_1 (rand_key_1 (nodes a).index)
              ∙ leaf_after_1 nodes a kids _ (λ b n e. same a b m n e)
              ∙ ground arith);
          id_at_2 = λ a m. rw (sym (place a m)) (
              w2.entries rand_leaf_2 (rand_key_2 (nodes a).index)
              ∙ w1.entries rand_leaf_2 (rand_key_2 (nodes a).index)
              ∙ leaf_after_2 nodes a kids _ (λ b n e. same a b m n e)
              ∙ ground arith);
          count_eq = w2.entries num_valid_leafs (vc_key ∷ []);
        },
        λ ls.
            w2.entries leaf_port_table ls
            ∙ w1.entries leaf_port_table ls
            ∙ leaf_port_kept nodes kids ls _,
      )
    where
      place : (a : ℕ) → elem a kids ≡ true → (nodes a).index ≡ index_of a kids
      place a m = omega (arith, IsIndexed-index_of nodes 0 a kids x m, index_of-lt a kids m)

      same :
          (a b : ℕ)
          → elem a kids ≡ true
          → elem b kids ≡ true
          → (nodes b).index ≡ (nodes a).index
          → b ≡ a
      same a b m n e = index_of-injective b a kids n m (sym (place b n) ∙ e ∙ place a m)

  -- After RemoveLeaf of a leaf of a well-formed topology whose leaves, at most 2^16 of them, have
  -- their positions as indices, OnLeafChange of version 1 returns at the spine, if the registers of
  -- the queue lengths have a cell for the last of the remaining leaves. The switch then numbers these
  -- leaves by their positions: the table from the ID of a leaf to its index and the two tables from
  -- the index to the ID are inverse to each other, and the number of leaves is right.
  pub leaf_failed_tables :
      (lid a : ℕ) (t : Topology) (s : State)
      → IsValid t
      → load lid t.leaves ≡ some a
      → IsIndexed t.nodes 0 (t.nodes (parent_at (t.nodes a))).children
      → length (t.nodes (parent_at (t.nodes a))).children ≤ 65536
      → HasSlots (length (without a (t.nodes (parent_at (t.nodes a))).children))
      → let p = parent_at (t.nodes a) in
        (t' : Topology) × (answer : Option ℕ × List ℕ) × (remove_leaf lid t
          ≡ returned (t', answer.0, answer.1))
        × ((t'.nodes p).children ≡ without a (t.nodes p).children)
        × (s' : State) × (spine_leaf_change_v1 c t' p lid false s ≡ returned s')
        × IsTabled t'.nodes (t'.nodes p).children s'
  unfolding spine_leaf_change_v1 spine_leaf_change_all
  leaf_failed_tables lid a t s v h x small slots =
      let p = parent_at (t.nodes a) in
      let l = v.leaves_ok lid a h in
      let distinct = (v.spines_ok _ _ l.known).distinct in
      let (t', ran, d) = remove_leaf_lem lid a t v h in
      let kids = without a (t.nodes p).children in
      let inside : (b : ℕ) → elem b kids ≡ true → load (t'.nodes b).id t'.leaves ≡ some b = λ b m.
        (d.valid.spine_children (t.nodes p).id p b (rw d.spines_eq l.known)
          (rw d.children_eq m)).known in
      let (s', wrote, tabled, kept) =
        index_writes_lem t'.nodes kids s
          (IsIndexed-without t.nodes t'.nodes 0 a (t.nodes p).children distinct l.listed d.index_eq
            x)
          (omega (arith, length-without a (t.nodes p).children distinct l.listed))
          (λ b b' m m' e. ground (arith, inside b m, inside b' m', e)) slots in
      (
        t',
        (some (index_of a (t.nodes p).children), after a (t.nodes p).children),
        ran,
        d.children_eq,
        s',
        rw d.children_eq wrote,
        rw d.children_eq tabled,
      )
