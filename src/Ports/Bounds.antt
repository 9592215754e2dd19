-- ===== src/Ports/Bounds.antt =====
-- The specs that expandPortSpec (core/model/port.go) returns.
use mathlib.Core.Path.{subst}
use horus_controller.Ports.Spec.{
  atoi, expand_lanes, expand_port_spec, magnitude, negated, negative, new_port_spec, one_lane,
  positive, split_slash, to_u64, trim_left, trim_right, ℤ,
}
use horus_controller.Switch.Mac.{codes}
use horus_controller.Asic.{PortSpec}
use horus_controller.Prelude.{
  ℕ, zero, suc, ◌<◌, ◌≤◌, ◌≡◌, refl, ◌⊎◌, inl, inr, arith, String, Option, none, some, List, [],
  ◌∷◌, leb, ltb, nat_beq, All, length, Bool-cases, Option-cases,
}

-- As NewPortSpec makes it, in uint64, with one of the four lanes of the cage.
abbrev pub IsLane : ℕ → PortSpec → Type 0
IsLane cage spec = (new_port_spec spec.cage spec.lane ≡ spec) × (spec.cage ≡ cage) × (spec.lane ≤ 3)

positive-lt : (o : Option ℕ) (n : ℤ) → positive o ≡ some n → to_u64 n < 18446744073709551616
positive-lt none n h = cc
positive-lt (some k) n h = elim (Bool-cases (ltb k 9223372036854775808)) [
  | inl e ↦
      let same : ℤ.pos k ≡ n = ground (arith, h, e) in
      subst (λ i. to_u64 i < 18446744073709551616) same (ground arith)
  | inr e ↦ ground (arith, h, e)
]

to_u64-negated : (k : ℕ) → to_u64 (negated k) < 18446744073709551616
to_u64-negated zero = omega arith
to_u64-negated (suc k) = omega arith

negative-lt : (o : Option ℕ) (n : ℤ) → negative o ≡ some n → to_u64 n < 18446744073709551616
negative-lt none n h = cc
negative-lt (some k) n h = elim (Bool-cases (leb k 9223372036854775808)) [
  | inl e ↦
      let same : negated k ≡ n = ground (arith, h, e) in
      subst (λ i. to_u64 i < 18446744073709551616) same (to_u64-negated k)
  | inr e ↦ ground (arith, h, e)
]

atoi-lt : (xs : List ℕ) (n : ℤ) → atoi xs ≡ some n → to_u64 n < 18446744073709551616
unfolding atoi
atoi-lt [] n h = cc
atoi-lt (x ∷ xs) n h = elim (Bool-cases (nat_beq x 45)) [
  | inl e ↦ negative-lt (magnitude xs) n (ground (arith, e, h))
  | inr e ↦ elim (Bool-cases (nat_beq x 43)) [
    | inl f ↦ positive-lt (magnitude xs) n (ground (arith, e, f, h))
    | inr f ↦ positive-lt (magnitude (x ∷ xs)) n (ground (arith, e, f, h))
  ]
]

-- Specs of the lanes of one cage, one of them or all four.
abbrev pub AreLanes : ℕ → List PortSpec → Type 0
AreLanes cage specs = All (IsLane cage) specs × ((length specs ≡ 1) ⊎ (length specs ≡ 4))

one_lane-AreLanes :
    (cage : ℕ) (o : Option ℤ) (specs : List PortSpec)
    → one_lane cage o ≡ some specs
    → AreLanes cage specs
unfolding new_port_spec
one_lane-AreLanes cage none specs h = cc
one_lane-AreLanes cage (some (ℤ.negsuc n)) specs h = cc
one_lane-AreLanes cage (some (ℤ.pos lane)) specs h = elim (Bool-cases (leb lane 3)) [
  | inl e ↦
      let same : new_port_spec cage lane ∷ [] ≡ specs = ground (arith, h, e) in
      subst (AreLanes cage) same (((refl, refl, ground (arith, e)), tt), inl refl)
  | inr e ↦ ground (arith, h, e)
]

expand_lanes-AreLanes :
    (cage : ℕ) (lane : List ℕ) (specs : List PortSpec)
    → expand_lanes cage lane ≡ some specs
    → AreLanes cage specs
unfolding new_port_spec atoi
expand_lanes-AreLanes cage [] specs h = one_lane-AreLanes cage (atoi []) specs h
expand_lanes-AreLanes cage (x ∷ y ∷ ys) specs h = one_lane-AreLanes cage (atoi (x ∷ y ∷ ys)) specs h
expand_lanes-AreLanes cage (x ∷ []) specs h = elim (Bool-cases (nat_beq x 45)) [
  | inl e ↦
      let same : new_port_spec cage 0
            ∷ new_port_spec cage 1
            ∷ new_port_spec cage 2
            ∷ new_port_spec cage 3
            ∷ []
          ≡ specs =
        ground (arith, h, e) in
      subst (AreLanes cage) same (
        (
          (refl, refl, omega arith),
          ((refl, refl, omega arith), ((refl, refl, omega arith), ((refl, refl, omega arith), tt))),
        ),
        inr refl,
      )
  | inr e ↦ one_lane-AreLanes cage (atoi (x ∷ [])) specs (ground (arith, h, e))
]

-- Where expandPortSpec returns no error, it returns one or four specs, each as NewPortSpec makes it and
-- with a lane from 0 to 3, all of the same cage, which is in uint64.
pub expand_port_spec-AreLanes :
    (text : String) (specs : List PortSpec)
    → expand_port_spec text ≡ some specs
    → (cage : ℕ) × AreLanes cage specs × (cage < 18446744073709551616)
unfolding expand_port_spec
expand_port_spec-AreLanes text specs h =
    from_parts (split_slash (trim_left (trim_right (codes text)))) h
  where
    from_parts :
        (parts : List ℕ × List (List ℕ))
        → elim parts.1 [
          | [] ↦ none
          | lane ∷ more ↦ elim more [
            | _ ∷ _ ↦ none
            | [] ↦ elim (atoi parts.0) [ none ↦ none | some n ↦ expand_lanes (to_u64 n) lane ]
          ]
        ]
          ≡ some specs
        → (cage : ℕ) × AreLanes cage specs × (cage < 18446744073709551616)
    from_parts (cage, []) k = cc
    from_parts (cage, lane ∷ b ∷ bs) k = cc
    from_parts (cage, lane ∷ []) k = elim (Option-cases (atoi cage)) [
      | inl e ↦ ground (arith, e, k)
      | inr (n, e) ↦ (
        to_u64 n,
        expand_lanes-AreLanes (to_u64 n) lane specs (ground (arith, e, k)),
        atoi-lt cage n e,
      )
    ]
