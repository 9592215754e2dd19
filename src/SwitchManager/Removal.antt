-- ===== src/SwitchManager/Removal.antt =====
-- A failed leaf at the switch manager (ctrl_mgr/manager.go): its controller is shut down, a second passes,
-- and the controller is taken out of the list and of the maps.
use horus_controller.SwitchManager.{read, on_failed_leaf}
use horus_controller.Info.{LeafInfo}
use horus_controller.Prelude.Words.{u16}
use horus_controller.SwitchManager.Lookup.{find_leaf-absent, find_leaf-found, position}
use horus_controller.SwitchManager.Packets.{send_to_open, Unchanged, Unchanged-IsServing}
use horus_controller.SwitchManager.Serving.{ingress_of, ctrl_at, HasOwnIds, IsServing}
use horus_controller.SwitchManager.Lookup.{ctrl_at-remove_at, HasOwnIds-remove_at}
use horus_controller.GoMap.{load, load-delete}
use mathlib.Core.Path.{subst}
use horus_controller.Packet.{pkt_type_idle_remove, HorusPacket}
use horus_controller.LeafBus.{idle_packet}
use horus_controller.Prelude.{
  crashed, sym, ap, ◌∙◌, none, some, arith, remove_at, ℕ, ◌+◌, ◌≡◌, refl, inl, inr, true, false,
  Option, List, [], ◌∷◌, ◌++◌, nat_beq, if◌then◌else◌, Option-cases, returned, number_key,
}
use horus_controller.SwitchManager.{
  send_to, remove_leaf_ctrl, drop_leaf, LeafController, SwitchManager, set_channel, close, shutdown,
  shutdown_bus,
}

close_open :
    (ch : ℕ) (m : SwitchManager)
    → (m.channels ch).closed ≡ false
    → close ch m
      ≡ returned (record m {
        channels = set_channel ch (record (m.channels ch) { closed = true }) m.channels;
      })
unfolding close
close_open ch m h = rw h refl

-- The state after the shutdown of a controller: its two channels are closed, and no other.
pub record ShutDown (m m' : SwitchManager) (c : LeafController) : Type 0 where
  pub same_leaves : m'.leaves ≡ m.leaves
  pub same_next : m'.next ≡ m.next
  pub same_ingress : m'.leaf_ingress ≡ m.leaf_ingress
  pub cleaned_eq : m'.cleaned ≡ m.cleaned ++ c.id ∷ []
  pub closed_iff :
      (ch : ℕ)
      → (m'.channels ch).closed ≡ (
          if nat_beq c.asic_ingress ch
          then true
          else (if nat_beq c.asic_egress ch then true else (m.channels ch).closed))

-- The manager in the second behind the shutdown of a controller.
pub record IsClosing (m : SwitchManager) (i : ℕ) (c : LeafController) : Type 0 where
  pub before : SwitchManager
  pub serving : IsServing before
  pub listed : ctrl_at c.id before.leaves ≡ some c
  pub place_eq : i ≡ position c.id before.leaves
  pub shut : ShutDown before m c

pub IsClosing-known :
    (m : SwitchManager) (i : ℕ) (c : LeafController)
    → IsClosing m i c
    → (k : ℕ) → load k m.leaf_ingress ≡ ingress_of (ctrl_at k m.leaves)
IsClosing-known m i c w k =
    ap (load k) w.shut.same_ingress
    ∙ w.serving.known k
    ∙ ap (λ cs. ingress_of (ctrl_at k cs)) (sym w.shut.same_leaves)

-- The channels of the other controllers are open.
pub IsClosing-open :
    (m : SwitchManager) (i : ℕ) (c : LeafController) (w : IsClosing m i c) (k : ℕ)
    (d : LeafController)
    → ctrl_at k w.before.leaves ≡ some d
    → nat_beq k c.id ≡ false
    → (m.channels d.asic_ingress).closed ≡ false
IsClosing-open m i c w k d found other =
    let at = w.serving.serving k d found in
    let gone = w.serving.serving c.id c w.listed in
    let apart = w.serving.apart k c.id d c found w.listed in
    ground (arith, at, gone, apart, other, w.shut.closed_iff d.asic_ingress)

abbrev pub IsRunning : SwitchManager → Option (ℕ × LeafController) → Type 0
IsRunning m none = IsServing m
IsRunning m (some (i, c)) = IsClosing m i c

pub Unchanged-IsRunning :
    {m m' : SwitchManager} (closing : Option (ℕ × LeafController))
    → Unchanged m m'
    → IsRunning m closing
    → IsRunning m' closing
Unchanged-IsRunning none u s = Unchanged-IsServing u s
Unchanged-IsRunning (some (i, c)) u k = record {
  before = k.before;
  serving = k.serving;
  listed = k.listed;
  place_eq = k.place_eq;
  shut = record {
    same_leaves = u.same_leaves ∙ k.shut.same_leaves;
    same_next = u.same_next ∙ k.shut.same_next;
    same_ingress = u.same_ingress ∙ k.shut.same_ingress;
    cleaned_eq = u.same_cleaned ∙ k.shut.cleaned_eq;
    closed_iff = λ ch. u.same_closed ch ∙ k.shut.closed_iff ch;
  };
}

-- The state after the packet and cp.Cleanup: every channel is open or closed as before.
record Told (m m' : SwitchManager) (c : LeafController) : Type 0 where
  same_leaves : m'.leaves ≡ m.leaves
  same_next : m'.next ≡ m.next
  same_ingress : m'.leaf_ingress ≡ m.leaf_ingress
  cleaned_eq : m'.cleaned ≡ m.cleaned ++ c.id ∷ []
  same_closed : (ch : ℕ) → (m'.channels ch).closed ≡ (m.channels ch).closed

module _ (create_full_horus_packet : HorusPacket → Option (List ℕ))
    (parse : List ℕ → Option HorusPacket) where
  shutdown_bus_lem :
      (c : LeafController) (m : SwitchManager)
      → (m.channels c.asic_egress).closed ≡ false
      → (m' : SwitchManager) × (shutdown_bus create_full_horus_packet parse c m ≡ returned m')
        × Told m m' c
  unfolding shutdown_bus
  shutdown_bus_lem c m egress =
      elim (Option-cases (create_full_horus_packet (idle_packet pkt_type_idle_remove c.id))) [
        | inl e ↦ (
          record m { cleaned = m.cleaned ++ c.id ∷ [] },
          ground (arith, e),
          record {
            same_leaves = refl;
            same_next = refl;
            same_ingress = refl;
            cleaned_eq = refl;
            same_closed = λ ch. refl;
          },
        )
        | inr (pkt, e) ↦
            let old = m.channels c.asic_egress in
            let queued =
              set_channel c.asic_egress (record old { queue = old.queue ++ pkt ∷ [] }) m.channels in
            (
              record m { channels = queued; cleaned = m.cleaned ++ c.id ∷ [] },
              ground (arith, e, send_to_open c.asic_egress pkt m),
              record {
                same_leaves = refl;
                same_next = refl;
                same_ingress = refl;
                cleaned_eq = refl;
                same_closed = λ ch. ground arith;
              },
            )
      ]

  pub shutdown_lem :
      (c : LeafController) (m : SwitchManager)
      → (m.channels c.asic_ingress).closed ≡ false
      → (m.channels c.asic_egress).closed ≡ false
      → c.asic_egress ≡ c.asic_ingress + 1
      → (m' : SwitchManager) × (shutdown create_full_horus_packet parse c m ≡ returned m')
        × ShutDown m m' c
  unfolding shutdown
  shutdown_lem c m ingress egress paired =
      let (m1, bus, told) = shutdown_bus_lem c m egress in
      let shut = λ (ch : ℕ) (x : SwitchManager).
        set_channel ch (record (x.channels ch) { closed = true }) x.channels in
      let m2 = record m1 { channels = shut c.asic_egress m1 } in
      let m3 = record m2 { channels = shut c.asic_ingress m2 } in
      let first = close_open c.asic_egress m1 (told.same_closed c.asic_egress ∙ egress) in
      let second = close_open c.asic_ingress m2 (ground (arith, told.same_closed c.asic_ingress)) in
      (
        m3,
        ground (arith, bus, first, second),
        record {
          same_leaves = told.same_leaves;
          same_next = told.same_next;
          same_ingress = told.same_ingress;
          cleaned_eq = told.cleaned_eq;
          closed_iff = λ ch. ground (arith, told.same_closed ch);
        },
      )

  -- A shut down controller that is taken out leaves the manager in good order.
  dropped-IsServing :
      (id : ℕ) (c : LeafController) (m m' : SwitchManager)
      → IsServing m
      → ctrl_at id m.leaves ≡ some c
      → ShutDown m m' c
      → IsServing (drop_leaf create_full_horus_packet parse (position id m.leaves) c m')
  unfolding drop_leaf remove_leaf_ctrl
  dropped-IsServing id c m m' s h shut =
      let cs = remove_at (position id m.leaves) m.leaves in
      let same : remove_at (position id m.leaves) m'.leaves ≡ cs =
        ap (remove_at (position id m.leaves)) shut.same_leaves in
      let left : (k : ℕ)
          → ctrl_at k (remove_at (position id m.leaves) m'.leaves)
            ≡ (if nat_beq id k then none else ctrl_at k m.leaves) =
        λ k. ap (ctrl_at k) same ∙ ctrl_at-remove_at id k m.leaves c s.own_ids h in
      let gone = s.serving id c h in
      record {
        own_ids = subst HasOwnIds (sym same) (HasOwnIds-remove_at id m.leaves c s.own_ids h);
        next_even = ground (arith, s.next_even, shut.same_next);
        known = λ k.
            ground (
              arith,
              left k,
              s.known k,
              gone,
              shut.same_ingress,
              load-delete c.id k m'.leaf_ingress,
            );
        serving = λ k d i.
            let old = s.serving k d (ground (arith, left k)) in
            let other = s.apart id k c d h (ground (arith, left k)) in
            record {
              id_eq = old.id_eq;
              paired = old.paired;
              even = old.even;
              allocated = ground (arith, old, shut.same_next);
              ingress_open =
                  ground (arith, left k, gone, old, other, shut.closed_iff d.asic_ingress);
              egress_open = ground (arith, left k, gone, old, other, shut.closed_iff d.asic_egress);
            };
        apart = λ j k d e i l. s.apart j k d e (ground (arith, left j)) (ground (arith, left k));
      }

  -- The handler shuts the controller of the failed leaf down, if there is one.
  pub on_failed_leaf-IsRunning :
      (info : LeafInfo) (m : SwitchManager)
      → IsServing m
      → (m' : SwitchManager) × (closing : Option (ℕ × LeafController)) × (on_failed_leaf
            create_full_horus_packet parse info m
          ≡ returned (m', closing))
        × IsRunning m' closing
  unfolding on_failed_leaf
  on_failed_leaf-IsRunning info m s = elim (Option-cases (ctrl_at (u16 info.id) m.leaves)) [
    | inl absent ↦
        (m, none, ground (arith, find_leaf-absent (u16 info.id) m.leaves 0 none absent), s)
    | inr (c, h) ↦
        let id = u16 info.id in
        let at = s.serving id c h in
        let (m', stopped, shut) = shutdown_lem c m at.ingress_open at.egress_open at.paired in
        (
          m',
          some (position id m.leaves, c),
          ground (arith, find_leaf-found id m.leaves c 0 none s.own_ids h, stopped),
          record {
            before = m;
            serving = s;
            listed = subst (λ k. ctrl_at k m.leaves ≡ some c) (sym at.id_eq) h;
            place_eq = ap (λ k. position k m.leaves) (sym at.id_eq);
            shut = shut;
          },
        )
  ]

  pub drop_leaf-IsServing :
      (i : ℕ) (c : LeafController) (m : SwitchManager)
      → IsClosing m i c
      → IsServing (drop_leaf create_full_horus_packet parse i c m)
  drop_leaf-IsServing i c m k =
      subst (λ j. IsServing (drop_leaf create_full_horus_packet parse j c m)) (sym k.place_eq)
        (dropped-IsServing c.id c k.before m k.serving k.listed k.shut)

  -- A packet for a failed leaf that the end point reads in the second behind the shutdown of its
  -- controller ends the process: the channel is closed, and the map still has it.
  pub read_while_closing :
      (pkt : List ℕ) (p : HorusPacket) (c : LeafController) (m : SwitchManager)
      → IsServing m
      → parse pkt ≡ some p
      → ctrl_at p.dst_id m.leaves ≡ some c
      → (m' : SwitchManager) × (shutdown create_full_horus_packet parse c m ≡ returned m')
        × (read create_full_horus_packet parse pkt m' ≡ crashed)
  unfolding read send_to
  read_while_closing pkt p c m s e h =
      let at = s.serving p.dst_id c h in
      let (m', stopped, shut) = shutdown_lem c m at.ingress_open at.egress_open at.paired in
      (
        m',
        stopped,
        ground (arith, e, h, s.known p.dst_id, shut.same_ingress, shut.closed_iff c.asic_ingress),
      )
