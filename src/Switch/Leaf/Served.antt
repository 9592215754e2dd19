-- ===== src/Switch/Leaf/Served.antt =====
-- The worker IDs of a leaf and the servers that its switch sends them to (ctrl_mgr/cp.go, after
-- core/model/topology.go: RemoveServer).
use horus_controller.Switch.Leaf.Forward.{
  server_values, IsServed, IsKnown, server_after, server_writes, server_writes-Fits, servers_run,
  forward_table, dst_key, forward_entry,
}
use horus_controller.Switch.Leaf.{add_to_idle_list, server_change_all, set_num_valid, set_unit}
use horus_controller.Switch.Workers.{count_workers, qlen_unit}
use horus_controller.Switch.Writes.{run_writes_lem}
use horus_controller.Switch.{SwitchClient}
use horus_controller.Topology.Numbering.Owners.{owns}
use horus_controller.Topology.State.{Topology}
use horus_controller.Prelude.{
  String, Bool, if◌then◌else◌, ℕ, ◌≡◌, ◌∙◌, arith, true, false, some, List, [], ◌∷◌, elem, returned,
}

module _ (c : SwitchClient) where
  open c use {State, read_table_entry, read_register}

  -- The part of OnServerChangeAllVer that forwards the workers of the updated servers.
  pub server_change-IsServed :
      (t : Topology) (l : ℕ) (port mac : ℕ → ℕ) (kids updated : List ℕ) (added : Bool) (s : State)
      → ((a : ℕ) → elem a kids ≡ true → IsKnown c t port mac a)
      → ((a : ℕ) → elem a updated ≡ true → elem a kids ≡ true)
      → ((a b wid : ℕ)
          → elem a kids ≡ true
          → elem b kids ≡ true
          → owns (t.nodes a) wid ≡ true
          → owns (t.nodes b) wid ≡ true
          → a ≡ b)
      → ((a wid : ℕ)
          → elem a kids ≡ true
          → elem a updated ≡ false
          → owns (t.nodes a) wid ≡ true
          → read_table_entry forward_table (dst_key (t.nodes l).id wid) s
            ≡ some (forward_entry (t.nodes l).id wid (port a) (mac a)))
      → (s' : State) × (server_change_all c t l updated added s
          ≡ (if added then add_to_idle_list c t (t.nodes l).id updated s' else returned s'))
        × IsServed c t.nodes (t.nodes l).id port mac kids s'
        × ((q : String) (j : ℕ) → read_register q j s' ≡ read_register q j s)
  unfolding server_change_all
  server_change-IsServed t l port mac kids updated added s known inside unique before =
      let n = t.nodes l in
      let count = count_workers t.nodes n.children 0 in
      let first = set_num_valid n.id count 2 ∷ set_unit n.id (qlen_unit count) ∷ [] in
      let second = server_writes t.nodes n.id port mac updated in
      let (s1, ran1, w1) = run_writes_lem c first s (tt, (tt, tt)) in
      let (s2, ran2, w2) =
        run_writes_lem c second s1 (server_writes-Fits c t.nodes n.id port mac updated _) in
      let run = servers_run c t n.id port mac updated s1 (λ a m. known a (inside a m)) in
      (
        s2,
        ground (arith, ran1, run, ran2),
        λ a wid m o.
            w2.entries forward_table (dst_key n.id wid)
            ∙ server_after t.nodes n.id port mac a wid updated _
                (λ b k. (known b (inside b k)).finite) (λ b k p. unique b a wid (inside b k) m p o)
                o (ground (arith, (known a m).finite))
            ∙ ground (arith, w1.entries forward_table (dst_key n.id wid), before a wid m),
        λ q j.
            w2.registers q j ∙ server_values t.nodes n.id port mac updated q j _ ∙ w1.registers q j,
      )
