-- ===== src/Topology/RemoveServer/Layout.antt =====
-- The worker IDs after the loop of RemoveServer (core/model/topology.go).
use mathlib.Core.Path.{subst}
use horus_controller.Prelude.Words.{add16, sub16}
use horus_controller.Prelude.{
  inl, inr, nat_beq, Bool-cases, ℕ, ◌+◌, ◌≡◌, refl, ◌∙◌, true, List, [], ◌∷◌, arith, elem,
  IsDistinct, without,
}
use horus_controller.Node.{Nodes}
use horus_controller.Topology.RemoveServer.{Renumbering, visit, renumber, workers_count}
use horus_controller.Topology.RemoveServer.Loop.{Names, Names-visit, renumber_outside}

-- The servers have consecutive ranges of worker IDs in uint16, of the given sizes, from `w` on.
abbrev pub IsLaidOut : Nodes → (ℕ → ℕ) → ℕ → List ℕ → Type 0
IsLaidOut nodes counts w [] = Unit
IsLaidOut nodes counts w (x ∷ xs) =
    ((nodes x).first_worker_id ≡ w)
    × ((nodes x).last_worker_id ≡ sub16 (add16 w (counts x)) 1)
    × IsLaidOut nodes counts (add16 w (counts x)) xs

-- The first worker ID behind the ranges.
abbrev pub end_of : (ℕ → ℕ) → ℕ → List ℕ → ℕ
end_of counts w [] = w
end_of counts w (x ∷ xs) = end_of counts (add16 w (counts x)) xs

-- The list holds the sizes of the servers as they stand.
abbrev pub HasCounts : Nodes → (ℕ → ℕ) → List ℕ → Type 0
HasCounts nodes counts xs = (c : ℕ) → elem c xs ≡ true → workers_count (nodes c) ≡ counts c

HasCounts-visit :
    (sid idx x : ℕ) (counts : ℕ → ℕ) (xs : List ℕ) (s : Renumbering)
    → IsDistinct (x ∷ xs)
    → HasCounts s.nodes counts (x ∷ xs)
    → HasCounts (visit sid idx x s).nodes counts xs
unfolding visit
HasCounts-visit sid idx x counts xs s d h c m = ground (arith, h c)

pub renumber-IsLaidOut :
    (sid idx a : ℕ) (counts : ℕ → ℕ) (xs : List ℕ) (s : Renumbering)
    → IsDistinct xs
    → Names s.nodes sid a xs
    → HasCounts s.nodes counts xs
    → IsLaidOut (renumber sid idx xs s).nodes counts s.worker_id (without a xs)
unfolding renumber
renumber-IsLaidOut sid idx a counts [] s d h n = tt
renumber-IsLaidOut sid idx a counts (x ∷ xs) s d h n =
    let rest =
      renumber-IsLaidOut sid (idx + 1) a counts xs (visit sid idx x s) d.1
        (Names-visit sid idx a x xs s h) (HasCounts-visit sid idx x counts xs s d n) in
    let same = renumber_outside sid (idx + 1) x xs (visit sid idx x s) d.0 in
    elim (Bool-cases (nat_beq x a)) [
      | inl e ↦ rw e (
          subst
            (λ w.
              IsLaidOut (renumber sid (idx + 1) xs (visit sid idx x s)).nodes counts w
                (without a xs))
            (unfold visit in ground (arith, h x)) rest)
      | inr e ↦
          let next : (visit sid idx x s).worker_id ≡ add16 s.worker_id (counts x) =
            unfold visit in ground (arith, h x, n x) in
          rw e (
            (rw same (unfold visit in ground (arith, h x))),
            (rw same (unfold visit in ground (arith, h x, n x))),
            subst
                (λ w.
                  IsLaidOut (renumber sid (idx + 1) xs (visit sid idx x s)).nodes counts w
                    (without a xs))
                next rest,
          )
    ]

pub renumber-worker_id :
    (sid idx a : ℕ) (counts : ℕ → ℕ) (xs : List ℕ) (s : Renumbering)
    → IsDistinct xs
    → Names s.nodes sid a xs
    → HasCounts s.nodes counts xs
    → (renumber sid idx xs s).worker_id ≡ end_of counts s.worker_id (without a xs)
unfolding renumber
renumber-worker_id sid idx a counts [] s d h n = refl
renumber-worker_id sid idx a counts (x ∷ xs) s d h n =
    renumber-worker_id sid (idx + 1) a counts xs (visit sid idx x s) d.1
      (Names-visit sid idx a x xs s h) (HasCounts-visit sid idx x counts xs s d n)
    ∙ (unfold visit in ground (arith, h x, n x))
