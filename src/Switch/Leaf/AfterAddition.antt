-- ===== src/Switch/Leaf/AfterAddition.antt =====
-- AddServerToLeaf (core/model/topology.go) and then OnServerChange (ctrl_mgr/cp.go) at the switch of the
-- leaf.
use horus_controller.Ports.{new_port}
use horus_controller.Node.{Nodes, new_server}
use horus_controller.Switch.Leaf.Forward.{forward_table, dst_key, IsKnown, IsServed}
use horus_controller.Switch.Leaf.Idle.{add_to_idle_list_lem, idle_count, idle_list}
use horus_controller.Switch.Leaf.Served.{server_change-IsServed}
use horus_controller.Switch.Leaf.{server_change_all}
use horus_controller.Switch.Mac.{mac_data}
use horus_controller.Switch.Workers.{dev_port}
use horus_controller.Switch.{SwitchClient}
use horus_controller.Topology.Numbering.Unique.{laid_out_bounds, laid_out_unique}
use horus_controller.Topology.Numbering.Ownership.{All-congr, sum_of-congr}
use horus_controller.Topology.Numbering.Owners.{end_of-sum, sum_of}
use horus_controller.Topology.Numbering.Add.{
  attach_server-IsNumbered, fresh_range, kids_eq, old_kid,
}
use horus_controller.Topology.Numbering.{IsNumbered, counts_of, total_of}
use horus_controller.Topology.RemoveServer.{workers_count}
use horus_controller.Switch.Leaf.AfterRemoval.{dev_port-congr}
use mathlib.Core.Path.{subst}
use horus_controller.Topology.AddServer.{add_server_to_leaf, attach_server, server_port}
use horus_controller.Topology.Cases.{add_server_attached}
use horus_controller.Topology.Valid.{IsValid}
use horus_controller.Topology.State.{Topology}
use horus_controller.Info.{ServerInfo}
use horus_controller.Asic.{PortRef}
use horus_controller.GoMap.{load}
use horus_controller.Prelude.Words.{u16}
use horus_controller.Prelude.{
  refl, inl, inr, nat_beq, Bool-cases, ℕ, ◌+◌, ◌<◌, ◌≤◌, ◌≡◌, ◌≢◌, sym, ap, ◌∙◌, arith, true, none,
  some, List, [], ◌∷◌, ◌++◌, elem, elem-append, All, ok, returned, number_key, text_key,
}

All-append :
    (f : ℕ → ℕ) (b : ℕ) (xs : List ℕ)
    → All (λ x. 0 < f x) xs
    → 0 < f b
    → All (λ x. 0 < f x) (xs ++ b ∷ [])
All-append f b [] p h = (h, tt)
All-append f b (x ∷ xs) p h = (p.0, All-append f b xs p.1 h)

sum_of-append : (f : ℕ → ℕ) (b : ℕ) (xs : List ℕ) → sum_of f (xs ++ b ∷ []) ≡ sum_of f xs + f b
sum_of-append f b [] = omega arith
sum_of-append f b (x ∷ xs) = omega (arith, sum_of-append f b xs)

module _ (info : ServerInfo) (leaf_id l : ℕ) (p : PortRef) (t : Topology) (v : IsValid t)
    (at_leaf : load leaf_id t.leaves ≡ some l) where
  abbrev old : List ℕ
  old = (t.nodes l).children

  abbrev kids : List ℕ
  kids = old ++ t.next ∷ []

  abbrev after_nodes : Nodes
  after_nodes = (attach_server info p l t).nodes

  -- The servers that were there are the same.
  kept : (b : ℕ) → elem b old ≡ true → t.nodes b ≡ after_nodes b
  kept = old_kid info p leaf_id l t v at_leaf

  not_one_worker :
      sum_of (counts_of t.nodes) old < 65536
      → sum_of (counts_of t.nodes) old ≢ 1
      → total_of t.nodes l ≢ 1
  not_one_worker few h e = h (omega (arith, end_of-sum (counts_of t.nodes) 0 old (omega arith), e))

  -- The sizes of all servers behind the addition.
  sizes_after :
      IsNumbered t.nodes l
      → total_of t.nodes l ≢ 1
      → All (λ b. 0 < counts_of t.nodes b) old
      → 0 < u16 info.workers_count
      → sum_of (counts_of t.nodes) old + u16 info.workers_count < 65536
      → All (λ b. 0 < counts_of after_nodes b) kids
        × (0 + sum_of (counts_of after_nodes) kids < 65536)
  sizes_after n many some_workers positive few =
      let same : (b : ℕ) → elem b old ≡ true → counts_of t.nodes b ≡ counts_of after_nodes b =
        λ b m. ap workers_count (kept b m) in
      let size = (fresh_range info p leaf_id l t v at_leaf n many).1 in
      (
        All-append (counts_of after_nodes) t.next old
            (All-congr (counts_of t.nodes) (counts_of after_nodes) old same some_workers)
            (omega (arith, size)),
        omega (
          arith,
          sum_of-append (counts_of after_nodes) t.next old,
          sum_of-congr (counts_of t.nodes) (counts_of after_nodes) old same,
          size,
        ),
      )

  -- The ports and MAC addresses of all servers behind the addition.
  known_after :
      (port mac : ℕ → ℕ)
      → ((b : ℕ)
          → elem b old ≡ true
          → (mac_data (t.nodes b).address ≡ returned (mac b))
            × (dev_port t (t.nodes b).port ≡ returned (port b)))
      → mac_data info.address ≡ returned (mac t.next)
      → dev_port t (some p) ≡ returned (port t.next)
      → (b : ℕ) → elem b kids ≡ true
      → (mac_data (after_nodes b).address ≡ returned (mac b))
        × (dev_port (attach_server info p l t) (after_nodes b).port ≡ returned (port b))
  known_after port mac known new_mac new_port b m =
      let t' = attach_server info p l t in
      let registry : t'.asic_registry ≡ t.asic_registry = unfold attach_server in refl in
      let fresh : ((t'.nodes t.next).address ≡ info.address) × ((t'.nodes t.next).port ≡ some p) =
        unfold attach_server in unfold new_server in ground arith in
      let moved : (x : ℕ) → dev_port t' (t'.nodes x).port ≡ dev_port t (t'.nodes x).port =
        λ x. dev_port-congr t t' (t'.nodes x).port registry in
      elim (Bool-cases (nat_beq t.next b)) [
        | inl e ↦
            let at_next : t.next ≡ b = ground arith in
            (
              subst (λ x. mac_data (t'.nodes x).address ≡ returned (mac x)) at_next
                  (ap mac_data fresh.0 ∙ new_mac),
              subst (λ x. dev_port t' (t'.nodes x).port ≡ returned (port x)) at_next
                  (moved t.next ∙ ap (dev_port t) fresh.1 ∙ new_port),
            )
        | inr e ↦
            let at_old : elem b old ≡ true = ground (arith, elem-append b t.next old) in
            (
              ap (λ x. mac_data x.address) (sym (kept b at_old)) ∙ (known b at_old).0,
              moved b ∙ ap (λ x. dev_port t x.port) (sym (kept b at_old)) ∙ (known b at_old).1,
            )
      ]

module _ (c : SwitchClient) where
  open c use {State, read_register, register_size}

  -- AddServerToLeaf of a new server with workers, and then OnServerChange with that server at the
  -- switch of its leaf, return, and every worker ID of the servers of the leaf leads to the port and the
  -- MAC address of the server that owns it, if this held before. The leaf must be numbered, with a
  -- worker for each server, not exactly one worker in all, and fewer than 2^16 with the new ones; the
  -- servers must have known ports and MAC addresses, and the switch a count of idle workers and an
  -- idle list for all worker indices.
  pub server_added-IsServed :
      (info : ServerInfo) (leaf_id l count : ℕ) (p : PortRef) (port mac : ℕ → ℕ) (t : Topology)
      (s : State)
      → IsValid t
      → load leaf_id t.leaves ≡ some l
      → load (u16 info.id) t.servers ≡ none
      → server_port info (t.nodes l) t.asic_registry ≡ returned p
      → IsNumbered t.nodes l
      → All (λ b. 0 < counts_of t.nodes b) (t.nodes l).children
      → 0 < u16 info.workers_count
      → sum_of (counts_of t.nodes) (t.nodes l).children + u16 info.workers_count < 65536
      → sum_of (counts_of t.nodes) (t.nodes l).children ≢ 1
      → ((b : ℕ)
          → elem b (t.nodes l).children ≡ true
          → (mac_data (t.nodes b).address ≡ returned (mac b))
            × (dev_port t (t.nodes b).port ≡ returned (port b)))
      → mac_data info.address ≡ returned (mac t.next)
      → dev_port t (some p) ≡ returned (port t.next)
      → 65536 ≤ register_size idle_list
      → read_register idle_count leaf_id s ≡ some count
      → IsServed c t.nodes leaf_id port mac (t.nodes l).children s
      → (t' : Topology) × (add_server_to_leaf info leaf_id t ≡ returned (t', ok t.next))
        × (s' : State) × (server_change_all c t' l (t.next ∷ []) true s ≡ returned s')
        × IsServed c t'.nodes leaf_id port mac (t'.nodes l).children s'
  server_added-IsServed info leaf_id l count p port mac t s v h absent found numbered some_workers
        positive few not_one known new_mac new_port room known_count served =
      let t' = attach_server info p l t in
      let many = not_one_worker info leaf_id l p t v h (omega arith) not_one in
      let children = kids_eq info p leaf_id l t v h in
      let (each, sum) =
        sizes_after info leaf_id l p t v h numbered many some_workers positive few in
      let laid_out =
        rw children at (attach_server-IsNumbered info p leaf_id l t v h numbered many).laid_out in
      let leaf_id_eq : (t'.nodes l).id ≡ leaf_id =
        unfold attach_server in ground (arith, v.leaves_ok leaf_id l h) in
      let known' : (b : ℕ) → elem b (kids info leaf_id l p t v h) ≡ true → IsKnown c t' port mac b =
        λ b m.
          let (mac_eq, port_eq) =
            known_after info leaf_id l p t v h port mac known new_mac new_port b m in
          record {
            mac_eq = mac_eq;
            port_eq = port_eq;
            finite =
                laid_out_bounds t'.nodes (counts_of t'.nodes) 0 b (kids info leaf_id l p t v h)
                  laid_out each sum m;
          } in
      let (s1, ran1, served1, registers) =
        server_change-IsServed c t' l port mac (kids info leaf_id l p t v h) (t.next ∷ []) true s
          known' (λ b m. ground (arith, elem-append b t.next (t.nodes l).children))
          (λ b b' wid m m' o o'.
            laid_out_unique t'.nodes (counts_of t'.nodes) wid b b' (kids info leaf_id l p t v h)
              laid_out each (omega (arith, sum)) m m' o o')
          (λ b wid m front o.
            let at_old : elem b (t.nodes l).children ≡ true =
              ground (arith, elem-append b t.next (t.nodes l).children) in
            rw leaf_id_eq (served b wid at_old (rw (kept info leaf_id l p t v h b at_old) o))) in
      let (s2, ran2, tables) =
        add_to_idle_list_lem c t' (t'.nodes l).id count (t.next ∷ []) s1 room
          (λ b m. (known' b (ground (arith, elem-append b t.next (t.nodes l).children))).finite)
          (registers idle_count (t'.nodes l).id ∙ rw leaf_id_eq known_count) in
      (
        t',
        add_server_attached info leaf_id l p t h absent found,
        s2,
        ran1 ∙ ran2,
        λ b wid m o.
            tables forward_table (dst_key leaf_id wid)
            ∙ (rw leaf_id_eq at served1 b wid (rw children at m) o),
      )
