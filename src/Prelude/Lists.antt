-- ===== src/Prelude/Lists.antt =====
-- Lists measured and indexed by native numbers, and lists of addresses.
use Prim.Native.Nat.{◌<◌, ℕ, zero, suc, ◌+◌}
use mathlib.Core.Path.{◌≡◌, refl}
use mathlib.Core.Logic.{inl, inr}
use mathlib.Core.Bool.{Bool, true, false}
use mathlib.Core.List.{List, [], ◌∷◌, ◌++◌}
use mathlib.Core.Option.{Option, none, some}
use native.Mathlib.Omega.{arith}
use horus_controller.Prelude.Tests.{nat_beq, if◌then◌else◌, Bool-cases}

module _ {ℓ} {A : Type ℓ} where
  abbrev pub length : List A → ℕ
  length [] = 0
  length (x ∷ xs) = suc (length xs)

  abbrev pub get_elem? : List A → ℕ → Option A
  get_elem? [] i = none
  get_elem? (x ∷ xs) zero = some x
  get_elem? (x ∷ xs) (suc i) = get_elem? xs i

  abbrev pub take : ℕ → List A → List A
  take zero xs = []
  take (suc n) [] = []
  take (suc n) (x ∷ xs) = x ∷ take n xs

  abbrev pub drop : ℕ → List A → List A
  drop zero xs = xs
  drop (suc n) [] = []
  drop (suc n) (x ∷ xs) = drop n xs

  pub length-append : (xs ys : List A) → length (xs ++ ys) ≡ length xs + length ys
  length-append [] ys = omega arith
  length-append (x ∷ xs) ys = omega (arith, length-append xs ys)

-- A predicate of every element.
abbrev pub All {ℓ κ} : {A : Type ℓ} → (A → Type κ) → List A → Type κ
All P [] = Unit
All P (x ∷ xs) = P x × All P xs

-- Is the address in the list?
abbrev pub elem : ℕ → List ℕ → Bool
elem a [] = false
elem a (x ∷ xs) = let rest = elem a xs in if nat_beq x a then true else rest

-- No address stands twice.
abbrev pub IsDistinct : List ℕ → Type 0
IsDistinct [] = Unit
IsDistinct (x ∷ xs) = (elem x xs ≡ false) × IsDistinct xs

-- The list without an address.
abbrev pub without : ℕ → List ℕ → List ℕ
without a [] = []
without a (x ∷ xs) = let rest = without a xs in if nat_beq x a then rest else x ∷ rest

pub elem-without :
    (a b : ℕ) (xs : List ℕ) → elem b (without a xs) ≡ (if nat_beq a b then false else elem b xs)
elem-without a b [] = ground arith
elem-without a b (x ∷ xs) = ground (arith, elem-without a b xs)

pub elem-append :
    (a b : ℕ) (xs : List ℕ) → elem a (xs ++ b ∷ []) ≡ (if nat_beq b a then true else elem a xs)
elem-append a b [] = ground arith
elem-append a b (x ∷ xs) = ground (arith, elem-append a b xs)

pub IsDistinct-append :
    (b : ℕ) (xs : List ℕ) → IsDistinct xs → elem b xs ≡ false → IsDistinct (xs ++ b ∷ [])
IsDistinct-append b [] d h = (refl, tt)
IsDistinct-append b (x ∷ xs) d h =
    (ground (arith, elem-append x b xs), IsDistinct-append b xs d.1 (ground arith))

pub IsDistinct-without : (a : ℕ) (xs : List ℕ) → IsDistinct xs → IsDistinct (without a xs)
IsDistinct-without a [] d = tt
IsDistinct-without a (x ∷ xs) d = ground (arith, elem-without a x xs, IsDistinct-without a xs d.1)

pub without_absent : (a : ℕ) (xs : List ℕ) → elem a xs ≡ false → without a xs ≡ xs
without_absent a [] h = refl
without_absent a (x ∷ xs) h = ground (arith, without_absent a xs)

pub length-without :
    (a : ℕ) (xs : List ℕ)
    → IsDistinct xs
    → elem a xs ≡ true
    → suc (length (without a xs)) ≡ length xs
length-without a [] d h = cc
length-without a (x ∷ xs) d h = elim (Bool-cases (nat_beq x a)) [
  | inl e ↦ ground (arith, without_absent a xs)
  | inr e ↦ ground (arith, length-without a xs d.1)
]

-- `append(xs[:i], xs[i+1:]...)`
abbrev pub remove_at {ℓ} : {A : Type ℓ} → ℕ → List A → List A
remove_at i [] = []
remove_at zero (x ∷ xs) = xs
remove_at (suc i) (x ∷ xs) = x ∷ remove_at i xs

-- Does a test hold of some element? (The loops that return at the first match.)
abbrev pub any {ℓ} : {A : Type ℓ} → (A → Bool) → List A → Bool
any p [] = false
any p (x ∷ xs) = let rest = any p xs in if p x then true else rest

-- The position of an address that is in the list.
abbrev pub index_of : ℕ → List ℕ → ℕ
index_of a [] = 0
index_of a (x ∷ xs) = let rest = index_of a xs in if nat_beq x a then 0 else suc rest

-- The addresses behind one.
abbrev pub after : ℕ → List ℕ → List ℕ
after a [] = []
after a (x ∷ xs) = let rest = after a xs in if nat_beq x a then xs else rest

pub remove_at-index_of :
    (a : ℕ) (xs : List ℕ)
    → IsDistinct xs
    → elem a xs ≡ true
    → remove_at (index_of a xs) xs ≡ without a xs
remove_at-index_of a [] d h = cc
remove_at-index_of a (x ∷ xs) d h = elim (Bool-cases (nat_beq x a)) [
  | inl e ↦ ground (arith, without_absent a xs)
  | inr e ↦ ground (arith, remove_at-index_of a xs d.1)
]

pub index_of-lt : (a : ℕ) (xs : List ℕ) → elem a xs ≡ true → index_of a xs < length xs
index_of-lt a [] h = cc
index_of-lt a (x ∷ xs) h = ground (arith, index_of-lt a xs)

pub elem-concat :
    (a : ℕ) (xs ys : List ℕ) → elem a (xs ++ ys) ≡ (if elem a xs then true else elem a ys)
elem-concat a [] ys = refl
elem-concat a (x ∷ xs) ys = ground (arith, elem-concat a xs ys)

-- The parts of a list in which nothing stands twice.
pub IsDistinct-parts :
    (xs ys : List ℕ)
    → IsDistinct (xs ++ ys)
    → IsDistinct xs × IsDistinct ys × ((a : ℕ) → elem a ys ≡ true → elem a xs ≡ false)
IsDistinct-parts [] ys d = (tt, d, λ a h. refl)
IsDistinct-parts (x ∷ xs) ys d =
    let r = IsDistinct-parts xs ys d.1 in
    (
      (ground (arith, d.0, elem-concat x xs ys), r.0),
      r.1,
      λ a h. ground (arith, d.0, elem-concat x xs ys, r.2 a h),
    )
