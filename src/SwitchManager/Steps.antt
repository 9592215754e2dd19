-- ===== src/SwitchManager/Steps.antt =====
-- The switch manager over time (ctrl_mgr/manager.go: Run, ctrl_mgr/asic.go): the handler of a failed leaf
-- sleeps for a second, in which the end point goes on with its packets.
use horus_controller.SwitchManager.Packets.{Delivered, read_lem, read-Unchanged, forward-Unchanged}
use horus_controller.SwitchManager.Serving.{ingress_of, ctrl_at, IsServing}
use horus_controller.SwitchManager.Leaves.{on_new_leaf-IsServing, new_switch_manager-IsServing}
use horus_controller.SwitchManager.Removal.{
  IsClosing, IsClosing-known, IsClosing-open, IsRunning, Unchanged-IsRunning,
  on_failed_leaf-IsRunning, drop_leaf-IsServing,
}
use horus_controller.Packet.{HorusPacket}
use horus_controller.Info.{LeafInfo, TopoInfo}
use horus_controller.Controller.{Answer, fetch_topology}
use horus_controller.Prelude.Words.{u16}
use horus_controller.GoMap.{load}
use mathlib.Core.Path.{subst}
use horus_controller.Prelude.{
  ap, Bool-cases, inl, inr, arith, Option-cases, Outcome-cases, ℕ, ◌⊎◌, ◌≡◌, ◌∙◌, refl, sym, Bool,
  true, false, Option, none, some, List, IsDistinct, Outcome, returned, crashed, nat_beq,
  number_key,
}
use horus_controller.SwitchManager.{
  LeafController, SwitchManager, read, send_to, forward, on_new_leaf, on_failed_leaf, drop_leaf,
  new_switch_manager,
}

-- The manager, and what the handler of a failed leaf goes on with when it wakes up.
pub record Run : Type 0 where
  pub manager : SwitchManager
  pub closing : Option (ℕ × LeafController)

abbrev pub start : List ℕ → Run
start ids = record { manager = new_switch_manager ids; closing = none }

module _ (create_full_horus_packet : HorusPacket → Option (List ℕ))
    (parse : List ℕ → Option HorusPacket) where
  -- A step: a packet from the switch or one to the switch, at any time; a failed leaf, or a new leaf
  -- whose ID no controller has, while no handler sleeps; and the end of the handler that sleeps.
  pub data Step (r : Run) : Run → Type 0 where
    packet :
        {m' : SwitchManager} (pkt : List ℕ)
        → read create_full_horus_packet parse pkt r.manager ≡ returned m'
        → Step r (record r { manager = m' })
    forwarded : (ch : ℕ) → Step r (record r { manager = forward ch r.manager })
    leaf_failed :
        {m' : SwitchManager} {closing : Option (ℕ × LeafController)} (info : LeafInfo)
        → r.closing ≡ none
        → on_failed_leaf create_full_horus_packet parse info r.manager ≡ returned (m', closing)
        → Step r (record { manager = m'; closing = closing })
    leaf_gone :
        (i : ℕ) (c : LeafController)
        → r.closing ≡ some (i, c)
        → Step r (record {
          manager = drop_leaf create_full_horus_packet parse i c r.manager;
          closing = none;
        })
    leaf_came :
        {m' : SwitchManager} (info : LeafInfo) (answer : Answer TopoInfo)
        → r.closing ≡ none
        → ctrl_at (u16 info.id) r.manager.leaves ≡ none
        → on_new_leaf info answer r.manager ≡ returned m'
        → Step r (record r { manager = m' })

  pub data Reach (r : Run) : Run → Type 0 where
    here : Reach r r
    next : {r' r'' : Run} → Reach r r' → Step r' r'' → Reach r r''

  returned_eq : {A : Type 0} {o : Outcome A} {a b : A} → o ≡ returned a → o ≡ returned b → a ≡ b
  returned_eq h k = cc

  came-IsServing :
      (info : LeafInfo) (answer : Answer TopoInfo) (m m' : SwitchManager)
      → IsServing m
      → ctrl_at (u16 info.id) m.leaves ≡ none
      → on_new_leaf info answer m ≡ returned m'
      → IsServing m'
  unfolding on_new_leaf
  came-IsServing info answer m m' s absent h = elim (Option-cases info.asic) [
    | inl e ↦ absurd (ground (arith, e, h))
    | inr (asic, e) ↦ elim (Outcome-cases (fetch_topology (u16 info.id) answer)) [
      | inr bad ↦ absurd (ground (arith, e, h, bad))
      | inl (t, fetched) ↦
          let r = on_new_leaf-IsServing info asic answer t m s e absent fetched in
          subst IsServing (returned_eq (unfold on_new_leaf in r.1) h) r.2
    ]
  ]

  failed-IsRunning :
      (info : LeafInfo) (m m' : SwitchManager) (closing : Option (ℕ × LeafController))
      → IsServing m
      → on_failed_leaf create_full_horus_packet parse info m ≡ returned (m', closing)
      → IsRunning m' closing
  failed-IsRunning info m m' closing s h =
      let (m1, closing1, ran, running) =
        on_failed_leaf-IsRunning create_full_horus_packet parse info m s in
      subst (λ (x : SwitchManager × Option (ℕ × LeafController)). IsRunning x.0 x.1)
        (returned_eq ran h) running

  Step-IsRunning :
      {r r' : Run} → Step r r' → IsRunning r.manager r.closing → IsRunning r'.manager r'.closing
  Step-IsRunning {r} (packet {m'} pkt h) s =
      Unchanged-IsRunning r.closing
        (read-Unchanged create_full_horus_packet parse pkt r.manager m' h) s
  Step-IsRunning {r} (forwarded ch) s =
      Unchanged-IsRunning r.closing (forward-Unchanged ch r.manager) s
  Step-IsRunning {r} (leaf_failed {m'} {closing} info idle h) s =
      failed-IsRunning info r.manager m' closing (subst (IsRunning r.manager) idle s) h
  Step-IsRunning {r} (leaf_gone i c e) s =
      drop_leaf-IsServing create_full_horus_packet parse i c r.manager
        (subst (IsRunning r.manager) e s)
  Step-IsRunning {r} (leaf_came {m'} info answer idle absent h) s =
      subst (IsRunning m') (sym idle)
        (came-IsServing info answer r.manager m' (subst (IsRunning r.manager) idle s) absent h)

  pub Reach-IsRunning :
      {r r' : Run} → Reach r r' → IsRunning r.manager r.closing → IsRunning r'.manager r'.closing
  Reach-IsRunning here s = s
  Reach-IsRunning (next r step) s = Step-IsRunning step (Reach-IsRunning r s)

  -- Is the packet for the leaf whose controller is shut down?
  abbrev pub is_closing : List ℕ → Option (ℕ × LeafController) → Bool
  is_closing pkt none = false
  is_closing pkt (some (i, c)) = elim (parse pkt) [ none ↦ false | some p ↦ nat_beq p.dst_id c.id ]

  -- What `read` makes of a packet: it is delivered, unless the controller of its leaf is shut down and
  -- not out of the map yet, which ends the process.
  abbrev pub IsHandled : List ℕ → Run → Type 0
  IsHandled pkt r =
      ((is_closing pkt r.closing ≡ false)
        × ((m' : SwitchManager) × Delivered create_full_horus_packet parse pkt r.manager m'))
      ⊎ ((is_closing pkt r.closing ≡ true)
          × (read create_full_horus_packet parse pkt r.manager ≡ crashed))

  closed_crashes :
      (pkt : List ℕ) (m : SwitchManager) (i : ℕ) (c : LeafController)
      → IsClosing m i c
      → is_closing pkt (some (i, c)) ≡ true
      → read create_full_horus_packet parse pkt m ≡ crashed
  unfolding read send_to
  closed_crashes pkt m i c k e = elim (Option-cases (parse pkt)) [
    | inl none_there ↦ absurd (ground (arith, e, none_there))
    | inr (p, said) ↦
        let same : p.dst_id ≡ c.id = ground (arith, e, said) in
        let at : load p.dst_id m.leaf_ingress ≡ some c.asic_ingress =
          ap (λ x. load x m.leaf_ingress) same
          ∙ ap (load c.id) k.shut.same_ingress
          ∙ k.serving.known c.id
          ∙ ap ingress_of k.listed in
        ground (arith, said, at, k.shut.closed_iff c.asic_ingress)
  ]

  running-IsHandled :
      (pkt : List ℕ) (m : SwitchManager) (closing : Option (ℕ × LeafController))
      → IsRunning m closing
      → IsHandled pkt (record { manager = m; closing = closing })
  running-IsHandled pkt m none s = inl (
    refl,
    read_lem create_full_horus_packet parse pkt m s.known
        (λ p c e found. (s.serving p.dst_id c found).ingress_open),
  )
  running-IsHandled pkt m (some (i, c)) k = elim (Bool-cases (is_closing pkt (some (i, c)))) [
    | inl e ↦ inr (e, closed_crashes pkt m i c k e)
    | inr e ↦ inl (
      e,
      read_lem create_full_horus_packet parse pkt m (IsClosing-known m i c k) (λ p d said found.
          IsClosing-open m i c k p.dst_id d
            (ground (arith, ap (λ cs. ctrl_at p.dst_id cs) k.shut.same_leaves, found))
            (ground (arith, said, e))),
    )
  ]

  -- The manager of leaves with different IDs, after any sequence of packets, of failed leaves, each with
  -- a second before its controller is out of the map, and of new leaves whose IDs no controller has:
  -- whatever packet the switch sends, `read` returns, and the packet is in the channel of the
  -- controller to whose leaf it is addressed and in no other, unless that controller is the one
  -- that is shut down and not out of the map yet, where the process ends.
  pub read-IsHandled :
      (ids : List ℕ) (r : Run) (pkt : List ℕ)
      → IsDistinct ids
      → Reach (start ids) r
      → IsHandled pkt r
  read-IsHandled ids r pkt own reached =
      running-IsHandled pkt r.manager r.closing
        (Reach-IsRunning reached (new_switch_manager-IsServing ids own))
