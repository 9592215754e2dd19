-- ===== src/Switch/Leaf/Idle.antt =====
-- The idle list of a leaf gets its new workers (ctrl_mgr/cp.go: OnServerChangeAllVer), and the tables
-- stay as they are.
use horus_controller.Switch.Leaf.Forward.{IsFinite}
use horus_controller.Switch.Leaf.{add_idle, add_idle_servers, add_to_idle_list, worker_index}
use horus_controller.Switch.Workers.{workers_from}
use horus_controller.Switch.Workers.Loop.{each_worker_lem}
use horus_controller.Switch.Writes.{run_writes_lem}
use horus_controller.Switch.{KeyField, SwitchClient, put}
use horus_controller.Topology.State.{Topology}
use horus_controller.Prelude.{
  ap, ◌%◌, ℕ, zero, suc, ◌+◌, ◌-◌, ◌≤◌, ◌≡◌, refl, ◌∙◌, arith, String, true, some, List, [], ◌∷◌,
  elem, returned, ◌>>=◌,
}

abbrev pub idle_list : String
idle_list = "pipe_leaf.LeafIngress.idle_list"

abbrev pub idle_count : String
idle_count = "pipe_leaf.LeafIngress.idle_count"

module _ (c : SwitchClient) where
  open c use {State, read_register, read_table_entry, register_size}

  -- The tables are the same.
  abbrev pub SameTables : State → State → Type 0
  SameTables s s' =
      (u : String) (ls : List KeyField) → read_table_entry u ls s' ≡ read_table_entry u ls s

  add_workers_lem :
      (leaf_id n wid : ℕ) (s : State × ℕ)
      → 65536 ≤ register_size idle_list
      → (r : State × ℕ) × (workers_from n wid (add_idle c leaf_id) s ≡ returned r)
        × SameTables s.0 r.0
  unfolding workers_from add_idle
  add_workers_lem leaf_id zero wid s room = (s, refl, λ u ls. refl)
  add_workers_lem leaf_id (suc n) wid s room =
      let (s1, ran1, w1) =
        run_writes_lem c (put idle_list (worker_index leaf_id wid) s.1 ∷ []) s.0
          (omega (arith, room), tt) in
      let (r, ran, same) =
        add_workers_lem leaf_id n (suc wid) (s1, (s.1 + 1) % 18446744073709551616) room in
      (r, ground (arith, ran1, ran), λ u ls. same u ls ∙ w1.entries u ls)

  add_servers_lem :
      (t : Topology) (leaf_id : ℕ) (xs : List ℕ) (s : State × ℕ)
      → 65536 ≤ register_size idle_list
      → ((a : ℕ) → elem a xs ≡ true → IsFinite (t.nodes a))
      → (r : State × ℕ) × (add_idle_servers c t leaf_id xs s ≡ returned r) × SameTables s.0 r.0
  unfolding add_idle_servers
  add_servers_lem t leaf_id [] s room fin = (s, refl, λ u ls. refl)
  add_servers_lem t leaf_id (x ∷ xs) s room fin =
      let n = t.nodes x in
      let finite : IsFinite n = fin x (ground arith) in
      let (s1, ran1, same1) =
        add_workers_lem leaf_id (n.last_worker_id + 1 - n.first_worker_id) n.first_worker_id s
          room in
      let (r, ran, same) = add_servers_lem t leaf_id xs s1 room (λ a m. fin a (ground arith)) in
      let loop =
        each_worker_lem n.first_worker_id n.last_worker_id (add_idle c leaf_id) s finite.0
          finite.1 in
      (
        r,
        ap (λ m. m >>= add_idle_servers c t leaf_id xs) (loop ∙ ran1) ∙ ran,
        λ u ls. same u ls ∙ same1 u ls,
      )

  pub add_to_idle_list_lem :
      (t : Topology) (leaf_id count : ℕ) (xs : List ℕ) (s : State)
      → 65536 ≤ register_size idle_list
      → ((a : ℕ) → elem a xs ≡ true → IsFinite (t.nodes a))
      → read_register idle_count leaf_id s ≡ some count
      → (s' : State) × (add_to_idle_list c t leaf_id xs s ≡ returned s') × SameTables s s'
  unfolding add_to_idle_list
  add_to_idle_list_lem t leaf_id count xs s room fin known =
      let (r, ran, same) = add_servers_lem t leaf_id xs (s, count) room fin in
      (r.0, ground (arith, known, ran), same)
