-- ===== src/Switch/SpineCp/Tracked.antt =====
-- The two leaves that the second version of the data plane tracks (ctrl_mgr/cp.go).
use horus_controller.Switch.Writes.{Fits, run_writes_lem}
use horus_controller.Switch.SpineCp.{
  spine_leaf_change_v2, leaf_failed_v2, replace_tracked, leaf_id_map_1, leaf_id_map_2,
  queue_len_list_low, queue_len_list_high, value_or_zero,
}
use horus_controller.Switch.Spine.{spine_leaf_change_all}
use horus_controller.Switch.{SwitchClient, Write, put}
use horus_controller.Topology.State.{Topology}
use horus_controller.Prelude.{
  ◌||◌, ℕ, ◌<◌, ◌≡◌, ◌≢◌, ◌↔◌, ◌∙◌, inl, inr, arith, false, some, List, [], ◌∷◌, if◌then◌else◌,
  nat_beq, Bool-cases, returned,
}

module _ (c : SwitchClient) where
  open c use {State, read_register, register_size}

  -- The registers have a cell for the pool 0.
  pub record HasPool : Type 0 where
    pub map_1 : 0 < register_size leaf_id_map_1
    pub map_2 : 0 < register_size leaf_id_map_2
    pub low : 0 < register_size queue_len_list_low
    pub high : 0 < register_size queue_len_list_high

  -- What the registers hold behind the writes.
  record Replaced (id i1 i2 high kid : ℕ) (s s' : State) : Type 0 where
    map_1 :
        read_register leaf_id_map_1 0 s'
        ≡ (if nat_beq i1 id then some i2 else read_register leaf_id_map_1 0 s)
    map_2 : read_register leaf_id_map_2 0 s' ≡ some kid
    low :
        read_register queue_len_list_low 0 s'
        ≡ (if nat_beq i1 id then some high else read_register queue_len_list_low 0 s)
    high_eq : read_register queue_len_list_high 0 s' ≡ some 100

  replace_tracked_lem :
      (t : Topology) (p id i1 i2 high kid : ℕ) (rest : List ℕ) (s : State)
      → (t.nodes p).children ≡ kid ∷ rest
      → HasPool
      → (s' : State) × (replace_tracked c t p id i1 i2 high s ≡ returned s')
        × Replaced id i1 i2 high (t.nodes kid).id s s'
  unfolding replace_tracked
  replace_tracked_lem t p id i1 i2 high kid rest s k room =
      let first : List Write =
        if nat_beq i1 id then put leaf_id_map_1 0 i2 ∷ put queue_len_list_low 0 high ∷ [] else [] in
      let fits : Fits c first (λ u ls. c.read_table_entry u ls s) =
        elim (Bool-cases (nat_beq i1 id)) [
          | inl e ↦ rw e (room.map_1, (room.low, tt))
          | inr e ↦ rw e tt
        ] in
      let (s1, ran1, w1) = run_writes_lem c first s fits in
      let (s2, ran2, w2) =
        run_writes_lem c (put queue_len_list_high 0 100 ∷ []) s1 (room.high, tt) in
      let (s3, ran3, w3) =
        run_writes_lem c (put leaf_id_map_2 0 (t.nodes kid).id ∷ []) s2 (room.map_2, tt) in
      (
        s3,
        ground (arith, ran1, ran2, ran3),
        record {
          map_1 =
              w3.registers leaf_id_map_1 0
              ∙ w2.registers leaf_id_map_1 0
              ∙ w1.registers leaf_id_map_1 0
              ∙ ground arith;
          map_2 = w3.registers leaf_id_map_2 0;
          low =
              w3.registers queue_len_list_low 0
              ∙ w2.registers queue_len_list_low 0
              ∙ w1.registers queue_len_list_low 0
              ∙ ground arith;
          high_eq = w3.registers queue_len_list_high 0 ∙ w2.registers queue_len_list_high 0;
        },
      )

  -- OnLeafChange of version 2 after the failure of a leaf, at a spine whose first remaining leaf is
  -- another one, returns if the registers have a cell for the pool and hold two IDs. The second
  -- register does not hold the failed leaf then, and the first holds it exactly if both had held it.
  pub failed_leaf_tracked_iff :
      (t : Topology) (p id i1 i2 kid : ℕ) (rest : List ℕ) (s : State)
      → (t.nodes p).children ≡ kid ∷ rest
      → (t.nodes kid).id ≢ id
      → HasPool
      → read_register leaf_id_map_1 0 s ≡ some i1
      → read_register leaf_id_map_2 0 s ≡ some i2
      → (s' : State) × (spine_leaf_change_v2 c t p id false s ≡ returned s')
        × ((read_register leaf_id_map_1 0 s' ≡ some id) ↔ ((i1 ≡ id) × (i2 ≡ id)))
        × (read_register leaf_id_map_2 0 s' ≢ some id)
  unfolding spine_leaf_change_v2 spine_leaf_change_all leaf_failed_v2
  failed_leaf_tracked_iff t p id i1 i2 kid rest s k other room r1 r2 =
      elim (Bool-cases (nat_beq id i1 || nat_beq id i2)) [
        | inl e ↦
            let (s', ran, d) =
              replace_tracked_lem t p id i1 i2
                (value_or_zero (read_register queue_len_list_high 0 s)) kid rest s k room in
            (s', ground (arith, ran), ground (arith, d), ground (arith, d))
        | inr e ↦ (s, ground arith, ground arith, ground arith)
      ]
