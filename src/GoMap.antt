-- ===== src/GoMap.antt =====
-- Go maps behind a mutex (NodeMap, vcMap, vcListMap, AsicMap, PortMap, PortConfigMap, ByteChanMap):
-- association lists. A range over a map goes in the order of the list, and Go leaves that order open.
use horus_controller.Prelude.{
  ◌≡◌, refl, Option, none, some, List, [], ◌∷◌, arith, Key, ◌==◌, if◌then◌else◌,
}

abbrev pub GoMap {ℓ κ} : Type ℓ → Type κ → Type (ℓ ⊔ κ)
GoMap K V = List (K × V)

module _ {ℓ κ} {K : Type ℓ} {V : Type κ} ⦃e : Key K⦄ where
  -- `value, ok := m[key]`
  unfoldable pub load : K → GoMap K V → Option V
  load k [] = none
  load k ((j, v) ∷ m) = let rest = load k m in if j == k then some v else rest

  -- `m[key] = value`
  unfoldable pub store : K → V → GoMap K V → GoMap K V
  store k v [] = (k, v) ∷ []
  store k v ((j, w) ∷ m) = let rest = store k v m in if j == k then (k, v) ∷ m else (j, w) ∷ rest

  -- `delete(m, key)`
  unfoldable pub delete : K → GoMap K V → GoMap K V
  delete k [] = []
  delete k ((j, v) ∷ m) = let rest = delete k m in if j == k then rest else (j, v) ∷ rest

-- The values, in the order of a range.
unfoldable pub values {ℓ κ} : {K : Type ℓ} {V : Type κ} → GoMap K V → List V
values [] = []
values ((k, v) ∷ m) = v ∷ values m

module _ {ℓ κ} {K : Type ℓ} {V : Type κ} ⦃e : Key K⦄ where
  pub load-store :
      (k j : K) (v : V) (m : GoMap K V)
      → load j (store k v m) ≡ (if k == j then some v else load j m)
  unfolding load store
  load-store k j v [] = refl
  load-store k j v ((i, w) ∷ m) =
      ground (arith, load-store k j v m, e.same_iff i k, e.same_iff k j, e.same_iff i j)

  pub load-delete :
      (k j : K) (m : GoMap K V) → load j (delete k m) ≡ (if k == j then none else load j m)
  unfolding load delete
  load-delete k j [] = ground arith
  load-delete k j ((i, w) ∷ m) =
      ground (arith, load-delete k j m, e.same_iff i k, e.same_iff k j, e.same_iff i j)

pub ruleset map_laws = (load-store, load-delete)

pub load-store_self {ℓ κ} :
    {K : Type ℓ} {V : Type κ} ⦃e : Key K⦄ (k : K) (v : V) (m : GoMap K V)
    → load k (store k v m) ≡ some v
load-store_self ⦃e⦄ k v m = ground (arith, load-store k k v m, e.same_iff k k)
