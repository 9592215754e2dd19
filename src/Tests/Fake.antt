-- ===== src/Tests/Fake.antt =====
-- A switch client on functions: tables and registers are memories of what was written.
use horus_controller.Switch.{
  KeyField, SwitchClient, SwitchEntry, register_entry, same_place, table_entry, DataField,
}
use horus_controller.Prelude.{
  ◌<◌, ℕ, ◌≡◌, sym, ap, inl, inr, arith, String, ◌&&◌, Option, none, some, List, ltb, nat_beq,
  if◌then◌else◌, ◌==◌, Option-cases, Bool-cases, number_key, text_key,
}

pub record Memory : Type 0 where
  pub tables : String → List KeyField → Option SwitchEntry
  pub registers : String → ℕ → Option ℕ

abbrev pub with_entry : String → List KeyField → SwitchEntry → Memory → Memory
with_entry t ks e s = record s {
  tables = λ u ls. if same_place t ks u ls then some e else s.tables u ls;
}

abbrev pub with_value : String → ℕ → ℕ → Memory → Memory
with_value r i v s = record s {
  registers = λ q j. if r == q && nat_beq i j then some v else s.registers q j;
}

abbrev pub insert_memory : SwitchEntry → Memory → Option Memory
insert_memory (table_entry t ks a ds) s = elim (s.tables t ks) [
  | none ↦ some (with_entry t ks (table_entry t ks a ds) s)
  | some e ↦ none
]
insert_memory (register_entry r i v) s = if ltb i 100000 then some (with_value r i v s) else none

abbrev pub modify_memory : SwitchEntry → Memory → Option Memory
modify_memory (table_entry t ks a ds) s = elim (s.tables t ks) [
  | none ↦ none
  | some e ↦ some (with_entry t ks (table_entry t ks a ds) s)
]
modify_memory (register_entry r i v) s = none

pub inserted :
    (t : String) (ks : List KeyField) (a : String) (ds : List DataField) (s s' : Memory)
    → insert_memory (table_entry t ks a ds) s ≡ some s'
    → with_entry t ks (table_entry t ks a ds) s ≡ s'
inserted t ks a ds s s' h = elim (Option-cases (s.tables t ks)) [
  | inl e ↦ ground (arith, h, e)
  | inr (old, e) ↦ ground (arith, h, e)
]

pub modified :
    (t : String) (ks : List KeyField) (a : String) (ds : List DataField) (s s' : Memory)
    → modify_memory (table_entry t ks a ds) s ≡ some s'
    → with_entry t ks (table_entry t ks a ds) s ≡ s'
modified t ks a ds s s' h = elim (Option-cases (s.tables t ks)) [
  | inl e ↦ ground (arith, h, e)
  | inr (old, e) ↦ ground (arith, h, e)
]

pub put_value :
    (r : String) (i v : ℕ) (s s' : Memory)
    → insert_memory (register_entry r i v) s ≡ some s'
    → with_value r i v s ≡ s'
put_value r i v s s' h = elim (Bool-cases (ltb i 100000)) [
  | inl e ↦ ground (arith, h, e)
  | inr e ↦ ground (arith, h, e)
]

pub insert_works :
    (t : String) (ks : List KeyField) (a : String) (ds : List DataField) (s : Memory)
    → s.tables t ks ≡ none
    → insert_memory (table_entry t ks a ds) s ≡ some (with_entry t ks (table_entry t ks a ds) s)
insert_works t ks a ds s h = ground (arith, h)

pub modify_works :
    (t : String) (ks : List KeyField) (a : String) (ds : List DataField) (e : SwitchEntry)
    (s : Memory)
    → s.tables t ks ≡ some e
    → modify_memory (table_entry t ks a ds) s ≡ some (with_entry t ks (table_entry t ks a ds) s)
modify_works t ks a ds e s h = ground (arith, h)

pub put_works :
    (r : String) (i v : ℕ) (s : Memory)
    → i < 100000
    → insert_memory (register_entry r i v) s ≡ some (with_value r i v s)
put_works r i v s h = ground (arith, h)

abbrev pub fake : SwitchClient
fake = record {
  State = Memory;
  insert_table_entry = insert_memory;
  modify_table_entry = modify_memory;
  read_table_entry = λ t ks s. s.tables t ks;
  read_register = λ r i s. s.registers r i;
  register_size = λ r. 100000;
  insert_ok =
      λ t ks a ds s h. (with_entry t ks (table_entry t ks a ds) s, insert_works t ks a ds s h);
  modify_ok =
      λ t ks a ds e s h. (with_entry t ks (table_entry t ks a ds) s, modify_works t ks a ds e s h);
  register_ok = λ r i v s h. (with_value r i v s, put_works r i v s h);
  insert_law = λ t ks a ds s s' h u ls. ap (λ m. m.tables u ls) (sym (inserted t ks a ds s s' h));
  modify_law = λ t ks a ds s s' h u ls. ap (λ m. m.tables u ls) (sym (modified t ks a ds s s' h));
  register_law = λ r i v s s' h q j. ap (λ m. m.registers q j) (sym (put_value r i v s s' h));
  insert_frame =
      λ t ks a ds s s' h q j. ap (λ m. m.registers q j) (sym (inserted t ks a ds s s' h));
  modify_frame =
      λ t ks a ds s s' h q j. ap (λ m. m.registers q j) (sym (modified t ks a ds s s' h));
  register_frame = λ r i v s s' h u ls. ap (λ m. m.tables u ls) (sym (put_value r i v s s' h));
}

-- A switch with nothing in it.
abbrev pub empty_switch : Memory
empty_switch = record { tables = λ t ks. none; registers = λ r i. none }
