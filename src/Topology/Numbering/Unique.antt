-- ===== src/Topology/Numbering/Unique.antt =====
-- Consecutive ranges do not overlap, and those in front of a removed server stay (core/model/topology.go:
-- RemoveServer).
use horus_controller.Topology.Numbering.Owners.{owners, owners_lem, owns, sum_of}
use horus_controller.Topology.RemoveServer.Layout.{IsLaidOut}
use horus_controller.Node.{Nodes}
use mathlib.Core.Path.{subst}
use horus_controller.Prelude.Words.{add16}
use horus_controller.Prelude.{
  sym, ℕ, ◌+◌, ◌<◌, ◌≤◌, ◌≡◌, inl, inr, true, false, List, [], ◌∷◌, arith, nat_beq, elem, All,
  IsDistinct, without, after, without_absent, Bool-cases,
}

owners-pos :
    (nodes : Nodes) (wid a : ℕ) (xs : List ℕ)
    → elem a xs ≡ true
    → owns (nodes a) wid ≡ true
    → 0 < owners nodes wid xs
owners-pos nodes wid a [] m o = cc
owners-pos nodes wid a (x ∷ xs) m o = elim (Bool-cases (nat_beq x a)) [
  | inl e ↦ let same : x ≡ a = ground arith in rw same (ground arith)
  | inr e ↦ ground (arith, owners-pos nodes wid a xs)
]

owners_unique :
    (nodes : Nodes) (wid a b : ℕ) (xs : List ℕ)
    → owners nodes wid xs ≤ 1
    → elem a xs ≡ true
    → elem b xs ≡ true
    → owns (nodes a) wid ≡ true
    → owns (nodes b) wid ≡ true
    → a ≡ b
owners_unique nodes wid a b [] few m n o p = cc
owners_unique nodes wid a b (x ∷ xs) few m n o p = elim (Bool-cases (nat_beq x a)) [
  | inl e ↦ elim (Bool-cases (nat_beq x b)) [
    | inl f ↦ ground arith
    | inr f ↦
        let same : x ≡ a = ground arith in
        let o' : owns (nodes x) wid ≡ true = rw same o in ground (arith, owners-pos nodes wid b xs)
  ]
  | inr e ↦ elim (Bool-cases (nat_beq x b)) [
    | inl f ↦
        let same : x ≡ b = ground arith in
        let o' : owns (nodes x) wid ≡ true = rw same p in ground (arith, owners-pos nodes wid a xs)
    | inr f ↦ owners_unique nodes wid a b xs (ground arith) (ground arith) (ground arith) o p
  ]
]

-- No two servers of consecutive ranges own the same worker ID.
pub laid_out_unique :
    (nodes : Nodes) (counts : ℕ → ℕ) (wid a b : ℕ) (xs : List ℕ)
    → IsLaidOut nodes counts 0 xs
    → All (λ c. 0 < counts c) xs
    → sum_of counts xs < 65536
    → elem a xs ≡ true
    → elem b xs ≡ true
    → owns (nodes a) wid ≡ true
    → owns (nodes b) wid ≡ true
    → a ≡ b
laid_out_unique nodes counts wid a b xs l p few m n o q =
    owners_unique nodes wid a b xs
      (ground (arith, owners_lem nodes counts wid 0 xs l p (omega arith))) m n o q

pub laid_out_bounds :
    (nodes : Nodes) (counts : ℕ → ℕ) (w a : ℕ) (xs : List ℕ)
    → IsLaidOut nodes counts w xs
    → All (λ c. 0 < counts c) xs
    → w + sum_of counts xs < 65536
    → elem a xs ≡ true
    → ((nodes a).first_worker_id < 65536) × ((nodes a).last_worker_id < 65535)
laid_out_bounds nodes counts w a [] l p few m = cc
laid_out_bounds nodes counts w a (x ∷ xs) l p few m = elim (Bool-cases (nat_beq x a)) [
  | inl e ↦
      let same : x ≡ a = ground arith in
      subst (λ y. ((nodes y).first_worker_id < 65536) × ((nodes y).last_worker_id < 65535)) same
        (omega (arith, l.0, p.0), omega (arith, l.1, p.0))
  | inr e ↦
      laid_out_bounds nodes counts (add16 w (counts x)) a xs l.2 p.1 (omega arith) (ground arith)
]

-- The servers in front of a removed one keep their worker IDs.
pub laid_out_kept :
    (m n : Nodes) (f g : ℕ → ℕ) (w a b : ℕ) (xs : List ℕ)
    → IsDistinct xs
    → IsLaidOut m f w xs
    → IsLaidOut n g w (without a xs)
    → ((c : ℕ) → elem c (without a xs) ≡ true → f c ≡ g c)
    → elem b (without a xs) ≡ true
    → elem b (after a xs) ≡ false
    → ((n b).first_worker_id ≡ (m b).first_worker_id)
      × ((n b).last_worker_id ≡ (m b).last_worker_id)
laid_out_kept m n f g w a b [] d l k same inside front = cc
laid_out_kept m n f g w a b (x ∷ xs) d l k same inside front = elim (Bool-cases (nat_beq x a)) [
  | inl e ↦
      let rest : without a xs ≡ xs = without_absent a xs (ground arith) in ground (arith, rest)
  | inr e ↦
      let k' : IsLaidOut n g w (x ∷ without a xs) = rw e at k in
      let at_x : f x ≡ g x = same x (ground arith) in
      let rest : IsLaidOut n g (add16 w (f x)) (without a xs) =
        subst (λ j. IsLaidOut n g (add16 w j) (without a xs)) (sym at_x) k'.2 in
      elim (Bool-cases (nat_beq x b)) [
        | inl h ↦
            let same_b : x ≡ b = ground arith in
            subst
              (λ y.
                ((n y).first_worker_id ≡ (m y).first_worker_id)
                × ((n y).last_worker_id ≡ (m y).last_worker_id))
              same_b (ground (arith, l.0, l.1, k'.0, k'.1, at_x))
        | inr h ↦
            laid_out_kept m n f g (add16 w (f x)) a b xs d.1 l.2 rest (λ c j. same c (ground arith))
              (ground arith) (ground arith)
      ]
]
