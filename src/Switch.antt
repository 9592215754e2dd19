-- ===== src/Switch.antt =====
-- ctrl_mgr/cp.go: the tables and registers of a switch, as the controllers fill them. The client of the
-- switch driver (bfrt-go-client) is not part of the repository, and enters by the interface below.
pub mod Mac
pub mod Writes
pub mod Workers
pub mod Leaf
pub mod Spine
pub mod SpineCp
pub mod Manager
use horus_controller.Prelude.{
  ℕ, String, ◌≡◌, Bool, true, false, ◌&&◌, Option, none, some, List, [], ◌∷◌, nat_beq,
  if◌then◌else◌, ◌==◌, Outcome, ◌>>=◌, ◌<◌, returned, crashed, number_key, text_key,
}

-- `MakeExactKey` of a uint64.
pub record KeyField : Type 0 where
  pub name : String
  pub value : ℕ

-- `MakeBytesData`, `MakeStrData` and `MakeBoolData`.
pub data DataField : Type 0 where
  bytes_data : String → ℕ → DataField
  str_data : String → String → DataField
  bool_data : String → Bool → DataField

-- `NewTableEntry` (table, keys, action, data) and `NewRegisterEntry` (register, index, value).
pub data SwitchEntry : Type 0 where
  table_entry : String → List KeyField → String → List DataField → SwitchEntry
  register_entry : String → ℕ → ℕ → SwitchEntry

abbrev pub same_keys : List KeyField → List KeyField → Bool
same_keys [] [] = true
same_keys (j ∷ js) (k ∷ ks) = (j.name == k.name && nat_beq j.value k.value) && same_keys js ks
same_keys _ _ = false

-- Is it the same entry of the same table?
abbrev pub same_place : String → List KeyField → String → List KeyField → Bool
same_place t ks u ls = t == u && same_keys ks ls

-- The calls of the client. An error of a write is none; a read of a table returns nil (none) where
-- there is no entry. A write changes the place that it names and no other; a new entry can be
-- inserted, an entry that is there can be modified, and a register can be written below its size.
pub record SwitchClient : Type 1 where
  pub State : Type 0
  pub insert_table_entry : SwitchEntry → State → Option State
  pub modify_table_entry : SwitchEntry → State → Option State
  pub read_table_entry : String → List KeyField → State → Option SwitchEntry
  pub read_register : String → ℕ → State → Option ℕ
  pub register_size : String → ℕ
  pub insert_ok :
      (t : String) (ks : List KeyField) (a : String) (ds : List DataField) (s : State)
      → read_table_entry t ks s ≡ none
      → (s' : State) × (insert_table_entry (table_entry t ks a ds) s ≡ some s')
  pub modify_ok :
      (t : String) (ks : List KeyField) (a : String) (ds : List DataField) (e : SwitchEntry)
      (s : State)
      → read_table_entry t ks s ≡ some e
      → (s' : State) × (modify_table_entry (table_entry t ks a ds) s ≡ some s')
  pub register_ok :
      (r : String) (i v : ℕ) (s : State)
      → i < register_size r
      → (s' : State) × (insert_table_entry (register_entry r i v) s ≡ some s')
  pub insert_law :
      (t : String) (ks : List KeyField) (a : String) (ds : List DataField) (s s' : State)
      → insert_table_entry (table_entry t ks a ds) s ≡ some s'
      → (u : String) (ls : List KeyField)
      → read_table_entry u ls s'
        ≡ (if same_place t ks u ls then some (table_entry t ks a ds) else read_table_entry u ls s)
  pub modify_law :
      (t : String) (ks : List KeyField) (a : String) (ds : List DataField) (s s' : State)
      → modify_table_entry (table_entry t ks a ds) s ≡ some s'
      → (u : String) (ls : List KeyField)
      → read_table_entry u ls s'
        ≡ (if same_place t ks u ls then some (table_entry t ks a ds) else read_table_entry u ls s)
  pub register_law :
      (r : String) (i v : ℕ) (s s' : State)
      → insert_table_entry (register_entry r i v) s ≡ some s'
      → (q : String) (j : ℕ)
      → read_register q j s' ≡ (if r == q && nat_beq i j then some v else read_register q j s)
  pub insert_frame :
      (t : String) (ks : List KeyField) (a : String) (ds : List DataField) (s s' : State)
      → insert_table_entry (table_entry t ks a ds) s ≡ some s'
      → (q : String) (j : ℕ) → read_register q j s' ≡ read_register q j s
  pub modify_frame :
      (t : String) (ks : List KeyField) (a : String) (ds : List DataField) (s s' : State)
      → modify_table_entry (table_entry t ks a ds) s ≡ some s'
      → (q : String) (j : ℕ) → read_register q j s' ≡ read_register q j s
  pub register_frame :
      (r : String) (i v : ℕ) (s s' : State)
      → insert_table_entry (register_entry r i v) s ≡ some s'
      → (u : String) (ls : List KeyField) → read_table_entry u ls s' ≡ read_table_entry u ls s

-- `if err != nil { logrus.Fatal(...) }`
abbrev pub or_exit {ℓ} : {A : Type ℓ} → Option A → Outcome A
or_exit none = crashed
or_exit (some s) = returned s

-- A write, whose error is followed by `logrus.Fatal`: by updateOrInsert, by InsertTableEntry of a
-- table entry, and by InsertTableEntry of a register entry.
pub data Write : Type 0 where
  upsert : String → List KeyField → String → List DataField → Write
  insert : String → List KeyField → String → List DataField → Write
  put : String → ℕ → ℕ → Write

module _ (c : SwitchClient) where
  open c use {State, insert_table_entry, modify_table_entry, read_table_entry}

  -- none is the error of the write.
  unfoldable pub update_or_insert :
      String → List KeyField → String → List DataField → State → Option State
  update_or_insert t ks a ds s = elim (read_table_entry t ks s) [
    | some e ↦ modify_table_entry (table_entry t ks a ds) s
    | none ↦ insert_table_entry (table_entry t ks a ds) s
  ]

  unfoldable pub run_write : Write → State → Outcome State
  unfolding update_or_insert
  run_write (upsert t ks a ds) s = or_exit (update_or_insert t ks a ds s)
  run_write (insert t ks a ds) s = or_exit (insert_table_entry (table_entry t ks a ds) s)
  run_write (put r i v) s = or_exit (insert_table_entry (register_entry r i v) s)

  -- One write after the other.
  unfoldable pub run_writes : List Write → State → Outcome State
  unfolding run_write
  run_writes [] s = returned s
  run_writes (w ∷ ws) s = run_write w s >>= run_writes ws
