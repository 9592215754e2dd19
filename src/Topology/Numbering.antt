-- ===== src/Topology/Numbering.antt =====
-- The numbering of the workers of a leaf (core/model/topology.go: RemoveServer, AddServerToLeaf).
pub mod Owners
pub mod Remove
pub mod Add
pub mod Ownership
pub mod Unique
use horus_controller.Prelude.Words.{add16, sub16}
use mathlib.Core.Path.{subst}
use horus_controller.Prelude.{
  ◌<◌, inl, inr, nat_beq, Bool-cases, ℕ, ◌≡◌, refl, ◌⊎◌, true, List, [], ◌∷◌, arith, elem,
}
use horus_controller.Node.{Nodes}
use horus_controller.Topology.RemoveServer.{workers_count}
use horus_controller.Topology.RemoveServer.Layout.{IsLaidOut, end_of}

-- The sizes of the servers as a heap has them.
abbrev pub counts_of : Nodes → ℕ → ℕ
counts_of nodes c = workers_count (nodes c)

-- The number of workers of a leaf, in uint16.
abbrev pub total_of : Nodes → ℕ → ℕ
total_of nodes l = end_of (counts_of nodes) 0 (nodes l).children

-- The servers of a leaf have consecutive ranges from 0 on, and the leaf records the last worker.
-- (A leaf with no workers has 0 or 65535 there: the code writes one or the other.)
pub record IsNumbered (nodes : Nodes) (l : ℕ) : Type 0 where
  pub laid_out : IsLaidOut nodes (counts_of nodes) 0 (nodes l).children
  pub last_eq :
      ((nodes l).last_worker_id ≡ sub16 (total_of nodes l) 1)
      ⊎ ((total_of nodes l ≡ 0) × ((nodes l).last_worker_id ≡ 0))

-- The numbering depends only on the worker IDs of the servers in the list.
pub IsLaidOut-congr :
    (m n : Nodes) (f g : ℕ → ℕ) (w : ℕ) (xs : List ℕ)
    → ((c : ℕ) → elem c xs ≡ true → (m c ≡ n c) × (f c ≡ g c))
    → IsLaidOut m f w xs
    → IsLaidOut n g w xs
IsLaidOut-congr m n f g w [] h l = tt
IsLaidOut-congr m n f g w (x ∷ xs) h l =
    let e : (m x ≡ n x) × (f x ≡ g x) = h x (ground arith) in
    let rest = IsLaidOut-congr m n f g (add16 w (f x)) xs (λ c k. h c (ground arith)) l.2 in
    (ground (arith, e), ground (arith, e), subst (λ k. IsLaidOut n g (add16 w k) xs) e.1 rest)

pub end_of-congr :
    (f g : ℕ → ℕ) (w : ℕ) (xs : List ℕ)
    → ((c : ℕ) → elem c xs ≡ true → f c ≡ g c)
    → end_of f w xs ≡ end_of g w xs
end_of-congr f g w [] h = refl
end_of-congr f g w (x ∷ xs) h =
    let e : f x ≡ g x = h x (ground arith) in
    rw e (end_of-congr f g (add16 w (g x)) xs (λ c k. h c (ground arith)))

-- In consecutive ranges each server has the size that the list says.
pub laid_out-counts :
    (nodes : Nodes) (counts : ℕ → ℕ) (w c : ℕ) (xs : List ℕ)
    → ((x : ℕ) → counts x < 65536)
    → w < 65536
    → IsLaidOut nodes counts w xs
    → elem c xs ≡ true
    → counts_of nodes c ≡ counts c
laid_out-counts nodes counts w c [] b h l m = cc
laid_out-counts nodes counts w c (x ∷ xs) b h l m = elim (Bool-cases (nat_beq x c)) [
  | inl e ↦
      let same : x ≡ c = ground arith in
      subst (λ y. counts_of nodes y ≡ counts y) same (sized (l.0) (l.1) (b x))
  | inr e ↦
      laid_out-counts nodes counts (add16 w (counts x)) c xs b (omega arith) l.2 (ground arith)
]
  where
    sized :
        (nodes x).first_worker_id ≡ w
        → (nodes x).last_worker_id ≡ sub16 (add16 w (counts x)) 1
        → counts x < 65536
        → counts_of nodes x ≡ counts x
    sized f g k = omega arith

pub counts_of-lt : (nodes : Nodes) (x : ℕ) → counts_of nodes x < 65536
counts_of-lt nodes x = omega arith
