-- ===== src/SwitchManager/Packets.antt =====
-- Packets between the CPU port of the switch and the leaf controllers (ctrl_mgr/asic.go: read).
use horus_controller.SwitchManager.Serving.{ingress_of, ctrl_at, IsServing, IsServing-channels}
use horus_controller.Packet.{HorusPacket}
use mathlib.Core.Path.{subst}
use horus_controller.GoMap.{load}
use horus_controller.Prelude.{
  sym, ◌∙◌, Bool-cases, returned_inj, ℕ, ◌≡◌, refl, inl, inr, Bool, false, Option, none, some, List,
  [], ◌∷◌, ◌++◌, arith, nat_beq, if◌then◌else◌, Option-cases, returned, number_key,
}
use horus_controller.SwitchManager.{
  LeafController, SwitchManager, set_channel, read, send_to, forward,
}

-- All but what the channels and the queue to the switch hold is the same.
pub record Unchanged (m m' : SwitchManager) : Type 0 where
  pub same_leaves : m'.leaves ≡ m.leaves
  pub same_next : m'.next ≡ m.next
  pub same_ingress : m'.leaf_ingress ≡ m.leaf_ingress
  pub same_cleaned : m'.cleaned ≡ m.cleaned
  pub same_closed : (ch : ℕ) → (m'.channels ch).closed ≡ (m.channels ch).closed

Unchanged-refl : (m : SwitchManager) → Unchanged m m
Unchanged-refl m = record {
  same_leaves = refl;
  same_next = refl;
  same_ingress = refl;
  same_cleaned = refl;
  same_closed = λ ch. refl;
}

pub Unchanged-IsServing : {m m' : SwitchManager} → Unchanged m m' → IsServing m → IsServing m'
Unchanged-IsServing {m} {m'} u s =
    IsServing-channels m m' s u.same_leaves u.same_next u.same_ingress u.same_closed

pub send_to_open :
    (ch : ℕ) (message : List ℕ) (m : SwitchManager)
    → (m.channels ch).closed ≡ false
    → send_to ch message m
      ≡ returned (record m {
        channels =
            set_channel ch
              (record (m.channels ch) { queue = (m.channels ch).queue ++ message ∷ [] })
              m.channels;
      })
unfolding send_to
send_to_open ch message m h = rw h refl

send_to-Unchanged :
    (ch : ℕ) (message : List ℕ) (m m' : SwitchManager)
    → send_to ch message m ≡ returned m'
    → Unchanged m m'
unfolding send_to
send_to-Unchanged ch message m m' h = elim (Bool-cases (m.channels ch).closed) [
  | inl e ↦ absurd (ground (arith, e, h))
  | inr e ↦ subst (Unchanged m) (returned_inj (sym (send_to_open ch message m e) ∙ h)) (record {
    same_leaves = refl;
    same_next = refl;
    same_ingress = refl;
    same_cleaned = refl;
    same_closed = λ ch'. ground arith;
  })
]

module _ (create_full_horus_packet : HorusPacket → Option (List ℕ))
    (parse : List ℕ → Option HorusPacket) where
  -- Is the channel that of the listed controller to which the packet is addressed?
  abbrev pub is_for : List ℕ → List LeafController → ℕ → Bool
  is_for pkt leaves ch = elim (parse pkt) [
    | none ↦ false
    | some p ↦ elim (ctrl_at p.dst_id leaves) [ none ↦ false | some c ↦ nat_beq c.asic_ingress ch ]
  ]

  -- What `read` makes of a packet.
  pub record Delivered (pkt : List ℕ) (m m' : SwitchManager) : Type 0 where
    pub returns : read create_full_horus_packet parse pkt m ≡ returned m'
    pub queued :
        (ch : ℕ)
        → (m'.channels ch).queue ≡ (
            if is_for pkt m.leaves ch
            then (m.channels ch).queue ++ pkt ∷ []
            else (m.channels ch).queue)

  -- The map has the channels of the controllers, and that of the addressed one is open.
  pub read_lem :
      (pkt : List ℕ) (m : SwitchManager)
      → ((k : ℕ) → load k m.leaf_ingress ≡ ingress_of (ctrl_at k m.leaves))
      → ((p : HorusPacket) (c : LeafController)
          → parse pkt ≡ some p
          → ctrl_at p.dst_id m.leaves ≡ some c
          → (m.channels c.asic_ingress).closed ≡ false)
      → (m' : SwitchManager) × Delivered pkt m m'
  unfolding read
  read_lem pkt m known is_open = elim (Option-cases (parse pkt)) [
    | inl e ↦ (m, record { returns = ground (arith, e); queued = λ ch. ground (arith, e) })
    | inr (p, e) ↦ elim (Option-cases (ctrl_at p.dst_id m.leaves)) [
      | inl absent ↦ (
        m,
        record {
          returns = ground (arith, e, absent, known p.dst_id);
          queued = λ ch. ground (arith, e, absent);
        },
      )
      | inr (c, found) ↦
          let at = is_open p c e found in
          let queue = (m.channels c.asic_ingress).queue in
          let m' = record m {
            channels =
                set_channel c.asic_ingress
                  (record (m.channels c.asic_ingress) { queue = queue ++ pkt ∷ [] }) m.channels;
          } in
          (
            m',
            record {
              returns =
                  ground (arith, e, found, known p.dst_id, send_to_open c.asic_ingress pkt m at);
              queued = λ ch. ground (arith, e, found);
            },
          )
    ]
  ]

  -- Whatever the packet, `read` changes what the channels hold and nothing else.
  pub read-Unchanged :
      (pkt : List ℕ) (m m' : SwitchManager)
      → read create_full_horus_packet parse pkt m ≡ returned m'
      → Unchanged m m'
  unfolding read
  read-Unchanged pkt m m' h = elim (Option-cases (parse pkt)) [
    | inl e ↦ subst (Unchanged m) (returned_inj (ground (arith, e))) (Unchanged-refl m)
    | inr (p, e) ↦ elim (Option-cases (load p.dst_id m.leaf_ingress)) [
      | inl absent ↦
          subst (Unchanged m) (returned_inj (ground (arith, e, absent))) (Unchanged-refl m)
      | inr (ch, found) ↦ send_to-Unchanged ch pkt m m' (ground (arith, e, found))
    ]
  ]

pub forward-Unchanged : (ch : ℕ) (m : SwitchManager) → Unchanged m (forward ch m)
unfolding forward
forward-Unchanged ch m = record {
  same_leaves = ground arith;
  same_next = ground arith;
  same_ingress = ground arith;
  same_cleaned = ground arith;
  same_closed = λ ch'. ground arith;
}
