-- ===== src/SwitchManager/Serving.antt =====
-- The switch manager in good order (ctrl_mgr/manager.go, ctrl_mgr/asic.go): every leaf controller gets the
-- packets of its leaf.
use horus_controller.GoMap.{load}
use mathlib.Core.Path.{subst}
use horus_controller.Prelude.{
  ℕ, ◌+◌, ◌%◌, ◌<◌, ◌≡◌, sym, false, Option, none, some, List, [], ◌∷◌, arith, nat_beq,
  if◌then◌else◌, number_key,
}
use horus_controller.SwitchManager.{LeafController, SwitchManager}

-- The first controller of an ID.
abbrev pub ctrl_at : ℕ → List LeafController → Option LeafController
ctrl_at k [] = none
ctrl_at k (c ∷ cs) = let rest = ctrl_at k cs in if nat_beq c.id k then some c else rest

abbrev pub ingress_of : Option LeafController → Option ℕ
ingress_of none = none
ingress_of (some c) = some c.asic_ingress

-- No ID stands twice.
abbrev pub HasOwnIds : List LeafController → Type 0
HasOwnIds [] = Unit
HasOwnIds (c ∷ cs) = (ctrl_at c.id cs ≡ none) × HasOwnIds cs

-- The controller with the ID `k`: its two channels were made together, and are open.
pub record ServingAt (m : SwitchManager) (k : ℕ) (c : LeafController) : Type 0 where
  pub id_eq : c.id ≡ k
  pub paired : c.asic_egress ≡ c.asic_ingress + 1
  pub even : c.asic_ingress % 2 ≡ 0
  pub allocated : c.asic_egress < m.next
  pub ingress_open : (m.channels c.asic_ingress).closed ≡ false
  pub egress_open : (m.channels c.asic_egress).closed ≡ false

pub record IsServing (m : SwitchManager) : Type 0 where
  pub own_ids : HasOwnIds m.leaves
  pub next_even : m.next % 2 ≡ 0
  pub known : (k : ℕ) → load k m.leaf_ingress ≡ ingress_of (ctrl_at k m.leaves)
  pub serving : (k : ℕ) (c : LeafController) → ctrl_at k m.leaves ≡ some c → ServingAt m k c
  pub apart :
      (j k : ℕ) (c d : LeafController)
      → ctrl_at j m.leaves ≡ some c
      → ctrl_at k m.leaves ≡ some d
      → c.asic_ingress ≡ d.asic_ingress
      → j ≡ k

-- What a channel holds does not matter.
module _ (m m' : SwitchManager) (s : IsServing m) (same_leaves : m'.leaves ≡ m.leaves)
    (same_next : m'.next ≡ m.next) (same_ingress : m'.leaf_ingress ≡ m.leaf_ingress)
    (same_closed : (ch : ℕ) → (m'.channels ch).closed ≡ (m.channels ch).closed) where
  pub IsServing-channels : IsServing m'
  IsServing-channels = record {
    own_ids = subst HasOwnIds (sym same_leaves) s.own_ids;
    next_even = ground (arith, s.next_even, same_next);
    known = λ k. ground (arith, s.known k, same_ingress, same_leaves);
    serving = λ k c h. ground (
      arith,
      s.serving k c,
      same_leaves,
      same_next,
      same_closed c.asic_ingress,
      same_closed c.asic_egress,
    );
    apart = λ j k c d h i e.
        s.apart j k c d (ground (arith, same_leaves)) (ground (arith, same_leaves)) e;
  }
