-- ===== src/Switch/Leaf/Tracked.antt =====
-- The two workers that version 2 of a leaf tracks (ctrl_mgr/cp.go: BfrtLeafCP_V2.OnServerChange).
use horus_controller.Switch.Leaf.Forward.{IsServed, forward_table, dst_key}
use horus_controller.Switch.Leaf.Handlers.{retrack_workers}
use horus_controller.Switch.Writes.{run_writes_lem}
use horus_controller.Switch.{SwitchClient, put}
use horus_controller.Topology.State.{Topology}
use horus_controller.Prelude.{
  ℕ, ◌≡◌, ◌≢◌, ◌∙◌, ◌<◌, ◌-◌, refl, some, List, [], ◌∷◌, get_elem?, length, arith, returned,
  crashed,
}

pub not_empty : (xs : List ℕ) → xs ≢ [] → (x : ℕ) × (rest : List ℕ) × (xs ≡ x ∷ rest)
not_empty [] h = absurd (h refl)
not_empty (x ∷ rest) h = (x, rest, refl)

last_there : (x : ℕ) (xs : List ℕ) → (y : ℕ) × (get_elem? (x ∷ xs) (length (x ∷ xs) - 1) ≡ some y)
last_there x [] = (x, refl)
last_there x (z ∷ xs) = let (y, e) = last_there z xs in (y, ground (arith, e))

module _ (c : SwitchClient) where
  open c use {State, register_size}

  -- The registers of the two tracked workers have the cell.
  pub record HasTracking (cell : ℕ) : Type 0 where
    pub first : cell < register_size "pipe_leaf.LeafIngress.worker_id_map_1"
    pub second : cell < register_size "pipe_leaf.LeafIngress.worker_id_map_2"
    pub low : cell < register_size "pipe_leaf.LeafIngress.queue_len_list_low"
    pub high : cell < register_size "pipe_leaf.LeafIngress.queue_len_list_high"

  -- With a server left, two of its workers are tracked and the entries stay.
  pub retrack-IsServed :
      (t : Topology) (l id : ℕ) (port mac : ℕ → ℕ) (kids : List ℕ) (s : State)
      → (t.nodes l).children ≢ []
      → HasTracking (t.nodes l).id
      → IsServed c t.nodes id port mac kids s
      → (s' : State) × (retrack_workers c t l s ≡ returned s')
        × IsServed c t.nodes id port mac kids s'
  unfolding retrack_workers
  retrack-IsServed t l id port mac kids s some_there cells served =
      let n = t.nodes l in
      let (x, xs, e) = not_empty n.children some_there in
      let (y, at) = last_there x xs in
      let (s1, ran1, w1) =
        run_writes_lem c
          (put "pipe_leaf.LeafIngress.worker_id_map_1" n.id (t.nodes x).first_worker_id ∷ []) s
          (cells.first, tt) in
      let (s2, ran2, w2) =
        run_writes_lem c
          (put "pipe_leaf.LeafIngress.worker_id_map_2" n.id (t.nodes y).last_worker_id
            ∷ put "pipe_leaf.LeafIngress.queue_len_list_low" n.id 100
            ∷ put "pipe_leaf.LeafIngress.queue_len_list_high" n.id 100
            ∷ [])
          s1 (cells.second, (cells.low, (cells.high, tt))) in
      (
        s2,
        ground (arith, e, at, ran1, ran2),
        λ a wid m o.
            w2.entries forward_table (dst_key id wid)
            ∙ w1.entries forward_table (dst_key id wid)
            ∙ served a wid m o,
      )

  -- With no server left, the first child is out of range.
  pub retrack_crashes :
      (t : Topology) (l : ℕ) (s : State)
      → (t.nodes l).children ≡ []
      → retrack_workers c t l s ≡ crashed
  unfolding retrack_workers
  retrack_crashes t l s e = ground (arith, e)
