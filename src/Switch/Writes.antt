-- ===== src/Switch/Writes.antt =====
-- What a sequence of writes to a switch leaves behind (ctrl_mgr/cp.go).
use horus_controller.Switch.{
  update_or_insert, SwitchClient, KeyField, SwitchEntry, table_entry, same_place, Write, upsert,
  insert, put, run_write, run_writes,
}
use horus_controller.Prelude.{
  Outcome-cases, ap, ℕ, String, ◌≡◌, ◌<◌, inl, inr, ◌&&◌, Option, none, some, List, [], ◌∷◌, ◌++◌,
  arith, nat_beq, if◌then◌else◌, ◌==◌, returned, Option-cases, number_key, text_key, refl, ◌∙◌,
  ◌>>=◌,
}

-- The entry of a place behind the writes, where `old` is the entry before them.
abbrev pub entry_after :
    List Write → String → List KeyField → Option SwitchEntry → Option SwitchEntry
entry_after [] u ls old = old
entry_after (upsert t ks a ds ∷ ws) u ls old =
    entry_after ws u ls (if same_place t ks u ls then some (table_entry t ks a ds) else old)
entry_after (insert t ks a ds ∷ ws) u ls old =
    entry_after ws u ls (if same_place t ks u ls then some (table_entry t ks a ds) else old)
entry_after (put r i v ∷ ws) u ls old = entry_after ws u ls old

-- The same for a register.
abbrev pub value_after : List Write → String → ℕ → Option ℕ → Option ℕ
value_after [] q j old = old
value_after (upsert t ks a ds ∷ ws) q j old = value_after ws q j old
value_after (insert t ks a ds ∷ ws) q j old = value_after ws q j old
value_after (put r i v ∷ ws) q j old =
    value_after ws q j (if r == q && nat_beq i j then some v else old)

entry_after-cons :
    (w : Write) (ws : List Write) (u : String) (ls : List KeyField) (old : Option SwitchEntry)
    → entry_after ws u ls (entry_after (w ∷ []) u ls old) ≡ entry_after (w ∷ ws) u ls old
entry_after-cons (upsert t ks a ds) ws u ls old = refl
entry_after-cons (insert t ks a ds) ws u ls old = refl
entry_after-cons (put r i v) ws u ls old = refl

value_after-cons :
    (w : Write) (ws : List Write) (q : String) (j : ℕ) (old : Option ℕ)
    → value_after ws q j (value_after (w ∷ []) q j old) ≡ value_after (w ∷ ws) q j old
value_after-cons (upsert t ks a ds) ws q j old = refl
value_after-cons (insert t ks a ds) ws q j old = refl
value_after-cons (put r i v) ws q j old = refl

module _ (c : SwitchClient) where
  open c use {State, read_table_entry, read_register, register_size}

  -- The registers are large enough, and no write inserts an entry that is already there; `read` is
  -- what the tables hold before the writes.
  abbrev pub Fits : List Write → (String → List KeyField → Option SwitchEntry) → Type 0
  Fits [] read = Unit
  Fits (w ∷ ws) read =
      (elim w [
        | upsert t ks a ds ↦ Unit
        | insert t ks a ds ↦ read t ks ≡ none
        | put r i v ↦ i < register_size r
      ])
      × Fits ws (λ u ls. entry_after (w ∷ []) u ls (read u ls))

  -- What the writes have done.
  pub record Wrote (ws : List Write) (s s' : State) : Type 0 where
    pub entries :
        (u : String) (ls : List KeyField)
        → read_table_entry u ls s' ≡ entry_after ws u ls (read_table_entry u ls s)
    pub registers :
        (q : String) (j : ℕ) → read_register q j s' ≡ value_after ws q j (read_register q j s)

  run_write_lem :
      (w : Write) (s : State) (read : String → List KeyField → Option SwitchEntry)
      → ((u : String) (ls : List KeyField) → read_table_entry u ls s ≡ read u ls)
      → Fits (w ∷ []) read
      → (s' : State) × (run_write c w s ≡ returned s') × Wrote (w ∷ []) s s'
  unfolding run_write update_or_insert
  run_write_lem (upsert t ks a ds) s read h f = elim (Option-cases (read_table_entry t ks s)) [
    | inl e ↦
        let (s', ran) = c.insert_ok t ks a ds s e in
        (
          s',
          ground (arith, ran),
          record {
            entries = c.insert_law t ks a ds s s' ran;
            registers = c.insert_frame t ks a ds s s' ran;
          },
        )
    | inr (old, e) ↦
        let (s', ran) = c.modify_ok t ks a ds old s e in
        (
          s',
          ground (arith, ran),
          record {
            entries = c.modify_law t ks a ds s s' ran;
            registers = c.modify_frame t ks a ds s s' ran;
          },
        )
  ]
  run_write_lem (insert t ks a ds) s read h f =
      let (s', ran) = c.insert_ok t ks a ds s (h t ks ∙ f.0) in
      (
        s',
        ground (arith, ran),
        record {
          entries = c.insert_law t ks a ds s s' ran;
          registers = c.insert_frame t ks a ds s s' ran;
        },
      )
  run_write_lem (put r i v) s read h f =
      let (s', ran) = c.register_ok r i v s f.0 in
      (
        s',
        ground (arith, ran),
        record {
          entries = c.register_frame r i v s s' ran;
          registers = c.register_law r i v s s' ran;
        },
      )

  run_writes_from :
      (ws : List Write) (s : State) (read : String → List KeyField → Option SwitchEntry)
      → ((u : String) (ls : List KeyField) → read_table_entry u ls s ≡ read u ls)
      → Fits ws read
      → (s' : State) × (run_writes c ws s ≡ returned s') × Wrote ws s s'
  unfolding run_writes
  run_writes_from [] s read h f =
      (s, refl, record { entries = λ u ls. refl; registers = λ q j. refl })
  run_writes_from (w ∷ ws) s read h f =
      let (s1, ran1, w1) = run_write_lem w s read h (f.0, tt) in
      let (s2, ran2, w2) =
        run_writes_from ws s1 (λ u ls. entry_after (w ∷ []) u ls (read u ls))
          (λ u ls. w1.entries u ls ∙ ap (entry_after (w ∷ []) u ls) (h u ls)) f.1 in
      (
        s2,
        ap (λ m. m >>= run_writes c ws) ran1 ∙ ran2,
        record {
          entries = λ u ls.
              w2.entries u ls
              ∙ ap (entry_after ws u ls) (w1.entries u ls)
              ∙ entry_after-cons w ws u ls (read_table_entry u ls s);
          registers = λ q j.
              w2.registers q j
              ∙ ap (value_after ws q j) (w1.registers q j)
              ∙ value_after-cons w ws q j (read_register q j s);
        },
      )

  -- Writes that fit do not fail.
  pub run_writes_lem :
      (ws : List Write) (s : State)
      → Fits ws (λ u ls. read_table_entry u ls s)
      → (s' : State) × (run_writes c ws s ≡ returned s') × Wrote ws s s'
  run_writes_lem ws s f = run_writes_from ws s (λ u ls. read_table_entry u ls s) (λ u ls. refl) f

pub entry_after-append :
    (ws vs : List Write) (u : String) (ls : List KeyField) (old : Option SwitchEntry)
    → entry_after (ws ++ vs) u ls old ≡ entry_after vs u ls (entry_after ws u ls old)
entry_after-append [] vs u ls old = refl
entry_after-append (upsert t ks a ds ∷ ws) vs u ls old = entry_after-append ws vs u ls _
entry_after-append (insert t ks a ds ∷ ws) vs u ls old = entry_after-append ws vs u ls _
entry_after-append (put r i v ∷ ws) vs u ls old = entry_after-append ws vs u ls old

pub run_writes-append :
    (c : SwitchClient) (ws vs : List Write) (s : c.State)
    → run_writes c (ws ++ vs) s ≡ (run_writes c ws s >>= run_writes c vs)
unfolding run_writes
run_writes-append c [] vs s = refl
run_writes-append c (w ∷ ws) vs s = elim (Outcome-cases (run_write c w s)) [
  | inl (u, ran) ↦ ground (arith, ran, run_writes-append c ws vs u)
  | inr (inl e) ↦ ground (arith, e)
  | inr (inr e) ↦ ground (arith, e)
]
