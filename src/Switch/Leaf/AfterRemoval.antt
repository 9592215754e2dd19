-- ===== src/Switch/Leaf/AfterRemoval.antt =====
-- RemoveServer (core/model/topology.go) and then OnServerChange (ctrl_mgr/cp.go) at the switch of the leaf.
use horus_controller.Switch.Leaf.Forward.{IsKnown, IsServed}
use horus_controller.Switch.Leaf.Served.{server_change-IsServed}
use mathlib.Core.Path.{subst}
use horus_controller.Switch.Leaf.Tracked.{HasTracking, retrack-IsServed, retrack_crashes}
use horus_controller.Switch.Leaf.Handlers.{server_change_v1, server_change_v2}
use horus_controller.Switch.Leaf.{server_change_all}
use horus_controller.Switch.Mac.{mac_data}
use horus_controller.Switch.Workers.{dev_port}
use horus_controller.Switch.{SwitchClient}
use horus_controller.Topology.Numbering.Unique.{laid_out_kept, laid_out_unique, laid_out_bounds}
use horus_controller.Topology.Numbering.Remove.{removed-IsLaidOut}
use horus_controller.Topology.Numbering.Owners.{sum_of}
use horus_controller.Topology.Numbering.{IsNumbered, counts_of}
use horus_controller.Topology.RemoveServer.Effect.{
  removed-children, removed-ports_of, removed, removed-frame, remove_server-removed, siblings,
  siblings-IsDistinct,
}
use horus_controller.Topology.RemoveServer.{remove_server, detach_child}
use horus_controller.Topology.Valid.{IsValid, parent_at}
use horus_controller.Topology.State.{Topology}
use horus_controller.Asic.{PortRef}
use horus_controller.GoMap.{load}
use horus_controller.Prelude.{
  ◌⊎◌, ◌≢◌, sym, crashed, ap, ◌∙◌, ℕ, ◌+◌, ◌<◌, ◌≤◌, ◌≡◌, refl, inl, inr, arith, true, false,
  Option, some, List, [], ◌∷◌, nat_beq, elem, elem-without, All, IsDistinct, without, after,
  Bool-cases, returned, number_key, text_key,
}

pub dev_port-congr :
    (t t' : Topology) (p : Option PortRef)
    → t'.asic_registry ≡ t.asic_registry
    → dev_port t' p ≡ dev_port t p
unfolding dev_port
dev_port-congr t t' p e = rw e refl

after-without :
    (a b : ℕ) (xs : List ℕ)
    → IsDistinct xs
    → elem b (after a xs) ≡ true
    → elem b (without a xs) ≡ true
after-without a b [] d m = cc
after-without a b (x ∷ xs) d m = ground (arith, after-without a b xs, elem-without a b xs)

All-without :
    (f : ℕ → ℕ) (a : ℕ) (xs : List ℕ) → All (λ c. 0 < f c) xs → All (λ c. 0 < f c) (without a xs)
All-without f a [] p = tt
All-without f a (x ∷ xs) p = elim (Bool-cases (nat_beq x a)) [
  | inl e ↦ rw e (All-without f a xs p.1)
  | inr e ↦ rw e (p.0, All-without f a xs p.1)
]

sum_of-without : (f : ℕ → ℕ) (a : ℕ) (xs : List ℕ) → sum_of f (without a xs) ≤ sum_of f xs
sum_of-without f a [] = omega arith
sum_of-without f a (x ∷ xs) = ground (arith, sum_of-without f a xs)

list_cases : (xs : List ℕ) → (xs ≡ []) ⊎ (xs ≢ [])
list_cases [] = inl refl
list_cases (x ∷ xs) = inr (λ e. absurd (ground (arith, e)))

module _ (c : SwitchClient) where
  open c use {State}

  -- The part that both versions share.
  failed-IsServed :
      (sid a : ℕ) (port mac : ℕ → ℕ) (t : Topology) (s : State)
      → IsValid t
      → load sid t.servers ≡ some a
      → IsNumbered t.nodes (parent_at (t.nodes a))
      → All (λ b. 0 < counts_of t.nodes b) (siblings a t)
      → sum_of (counts_of t.nodes) (siblings a t) < 65536
      → ((b : ℕ)
          → elem b (siblings a t) ≡ true
          → (mac_data (t.nodes b).address ≡ returned (mac b))
            × (dev_port t (t.nodes b).port ≡ returned (port b)))
      → IsServed c t.nodes (t.nodes (parent_at (t.nodes a))).id port mac (siblings a t) s
      → let l = parent_at (t.nodes a) in
        (t' : Topology) × (updated : List ℕ) × (remove_server sid t ≡ returned (t', true, updated))
        × (s' : State) × (server_change_all c t' l updated false s ≡ returned s')
        × IsServed c t'.nodes (t.nodes l).id port mac (t'.nodes l).children s'
        × ((t'.nodes l).id ≡ (t.nodes l).id)
  failed-IsServed sid a port mac t s v h numbered some_workers few known served =
      let l = parent_at (t.nodes a) in
      let t' = removed sid a t in
      let kids = without a (siblings a t) in
      let laid_out = removed-IsLaidOut sid a t v h in
      let each = All-without (counts_of t.nodes) a (siblings a t) some_workers in
      let total : 0 + sum_of (counts_of t.nodes) kids < 65536 =
        omega (arith, few, sum_of-without (counts_of t.nodes) a (siblings a t)) in
      let distinct = siblings-IsDistinct sid a t v h in
      let registry : t'.asic_registry ≡ t.asic_registry =
        unfold removed in unfold detach_child in refl in
      let children : (t'.nodes l).children ≡ kids =
        ground (arith, removed-children sid a t v h l) in
      let leaf_id : (t'.nodes l).id ≡ (t.nodes l).id = (removed-frame sid a t v h l).0 in
      let inside : (b : ℕ) → elem b kids ≡ true → elem b (siblings a t) ≡ true =
        λ b m. ground (arith, elem-without a b (siblings a t)) in
      let known' : (b : ℕ) → elem b kids ≡ true → IsKnown c t' port mac b = λ b m. record {
        mac_eq = ground (arith, removed-frame sid a t v h b, known b (inside b m));
        port_eq =
            dev_port-congr t t' (t'.nodes b).port registry
            ∙ ap (λ q. dev_port t q.0) (removed-ports_of sid a t v h b)
            ∙ (known b (inside b m)).1;
        finite = laid_out_bounds t'.nodes (counts_of t.nodes) 0 b kids laid_out each total m;
      } in
      let (s', ran, good, registers) =
        server_change-IsServed c t' l port mac kids (after a (siblings a t)) false s known'
          (λ b m. after-without a b (siblings a t) distinct m)
          (λ b b' wid m m' o o'.
            laid_out_unique t'.nodes (counts_of t.nodes) wid b b' kids laid_out each
              (omega (arith, total)) m m' o o')
          (λ b wid m front o.
            let kept =
              laid_out_kept t.nodes t'.nodes (counts_of t.nodes) (counts_of t.nodes) 0 a b
                (siblings a t) distinct numbered.laid_out laid_out (λ x k. refl) m front in
            rw leaf_id (served b wid (inside b m) (ground (arith, kept, o)))) in
      (
        t',
        after a (siblings a t),
        remove_server-removed sid a t v h,
        s',
        ran,
        λ b wid m o. rw leaf_id at good b wid (rw children at m) o,
        leaf_id,
      )

  -- RemoveServer of a server of a well-formed topology returns, and then OnServerChange at the switch of
  -- its leaf with the servers that RemoveServer reports: in version 1 it returns, and every worker
  -- ID of the remaining servers leads to the port and the MAC address of the server that owns it
  -- now; version 2 does the same where a server remains, and ends the process where none does. The
  -- worker IDs must lead to their servers before, the leaf be numbered, with a worker for each
  -- server and fewer than 2^16 in all, the servers have known ports and MAC addresses, and the
  -- registers of version 2 a cell for the leaf.
  pub server_failed-IsServed :
      (sid a : ℕ) (port mac : ℕ → ℕ) (t : Topology) (s : State)
      → IsValid t
      → load sid t.servers ≡ some a
      → IsNumbered t.nodes (parent_at (t.nodes a))
      → All (λ b. 0 < counts_of t.nodes b) (siblings a t)
      → sum_of (counts_of t.nodes) (siblings a t) < 65536
      → ((b : ℕ)
          → elem b (siblings a t) ≡ true
          → (mac_data (t.nodes b).address ≡ returned (mac b))
            × (dev_port t (t.nodes b).port ≡ returned (port b)))
      → HasTracking c (t.nodes (parent_at (t.nodes a))).id
      → IsServed c t.nodes (t.nodes (parent_at (t.nodes a))).id port mac (siblings a t) s
      → let l = parent_at (t.nodes a) in
        (t' : Topology) × (updated : List ℕ) × (remove_server sid t ≡ returned (t', true, updated))
        × ((s1 : State) × (server_change_v1 c t' l updated false s ≡ returned s1)
            × IsServed c t'.nodes (t.nodes l).id port mac (t'.nodes l).children s1)
        × ((((t'.nodes l).children ≡ []) × (server_change_v2 c t' l updated false s ≡ crashed))
            ⊎ ((s2 : State) × (server_change_v2 c t' l updated false s ≡ returned s2)
                × IsServed c t'.nodes (t.nodes l).id port mac (t'.nodes l).children s2))
  unfolding server_change_v1 server_change_v2
  server_failed-IsServed sid a port mac t s v h numbered some_workers few known cells served =
      let l = parent_at (t.nodes a) in
      let (t', updated, removed_ok, s1, ran, good, same) =
        failed-IsServed sid a port mac t s v h numbered some_workers few known served in
      (
        t',
        updated,
        removed_ok,
        (s1, ran, good),
        elim (list_cases (t'.nodes l).children) [
          | inl none_left ↦
              inl (none_left, ground (arith, ran, retrack_crashes c t' l s1 none_left))
          | inr some_left ↦
              let (s2, ran2, good2) =
                retrack-IsServed c t' l (t.nodes l).id port mac (t'.nodes l).children s1 some_left
                  (subst (HasTracking c) (sym same) cells) good in
              inr (s2, ground (arith, ran, ran2), good2)
        ],
      )
