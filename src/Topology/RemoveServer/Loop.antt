-- ===== src/Topology/RemoveServer/Loop.antt =====
-- The loop of RemoveServer (core/model/topology.go): what it leaves alone, the position that it
-- finds, and the list of updated servers.
use horus_controller.Prelude.{
  inl, inr, Bool-cases, ℕ, ◌+◌, ◌≡◌, refl, sym, ap, ◌∙◌, true, false, none, some, List, [], ◌∷◌,
  ◌++◌, arith, nat_beq, if◌then◌else◌, elem, IsDistinct, index_of, after,
}
use mathlib.Core.List.{append_assoc, append-nil}
use horus_controller.Node.{Node, Nodes}
use horus_controller.Topology.RemoveServer.{Renumbering, visit, renumber}

-- A node without its worker IDs.
abbrev pub without_ids : Node → Node
without_ids n = record n { first_worker_id = 0; last_worker_id = 0 }

visit-frame :
    (sid idx a b : ℕ) (s : Renumbering)
    → without_ids ((visit sid idx a s).nodes b) ≡ without_ids (s.nodes b)
unfolding visit
visit-frame sid idx a b s = ground arith

-- Only worker IDs change.
pub renumber-frame :
    (sid idx b : ℕ) (xs : List ℕ) (s : Renumbering)
    → without_ids ((renumber sid idx xs s).nodes b) ≡ without_ids (s.nodes b)
unfolding renumber
renumber-frame sid idx b [] s = refl
renumber-frame sid idx b (x ∷ xs) s =
    renumber-frame sid (idx + 1) b xs (visit sid idx x s) ∙ visit-frame sid idx x b s

visit_outside :
    (sid idx a b : ℕ) (s : Renumbering)
    → nat_beq a b ≡ false
    → (visit sid idx a s).nodes b ≡ s.nodes b
unfolding visit
visit_outside sid idx a b s h = ground arith

-- Nodes that are not in the list do not change at all.
pub renumber_outside :
    (sid idx b : ℕ) (xs : List ℕ) (s : Renumbering)
    → elem b xs ≡ false
    → (renumber sid idx xs s).nodes b ≡ s.nodes b
unfolding renumber
renumber_outside sid idx b [] s h = refl
renumber_outside sid idx b (x ∷ xs) s h =
    renumber_outside sid (idx + 1) b xs (visit sid idx x s) (ground arith)
    ∙ visit_outside sid idx x b s (ground arith)

-- Among the addresses of the list, `a` is the one whose node has the ID.
abbrev pub Names : Nodes → ℕ → ℕ → List ℕ → Type 0
Names nodes sid a xs = (c : ℕ) → elem c xs ≡ true → nat_beq (nodes c).id sid ≡ nat_beq c a

pub Names-visit :
    (sid idx a x : ℕ) (xs : List ℕ) (s : Renumbering)
    → Names s.nodes sid a (x ∷ xs)
    → Names (visit sid idx x s).nodes sid a xs
Names-visit sid idx a x xs s h c m =
    ground (arith, h c, ap (λ (n : Node). n.id) (visit-frame sid idx x c s))

pub renumber-removed_idx :
    (sid idx a : ℕ) (xs : List ℕ) (s : Renumbering)
    → IsDistinct xs
    → Names s.nodes sid a xs
    → (renumber sid idx xs s).removed_idx
      ≡ (if elem a xs then some (idx + index_of a xs) else s.removed_idx)
unfolding renumber
renumber-removed_idx sid idx a [] s d h = refl
renumber-removed_idx sid idx a (x ∷ xs) s d h =
    renumber-removed_idx sid (idx + 1) a xs (visit sid idx x s) d.1 (Names-visit sid idx a x xs s h)
    ∙ (unfold visit in ground (arith, h x))

-- Once the position is known, every further server of the list is reported.
reported_all :
    (sid idx a i : ℕ) (xs : List ℕ) (s : Renumbering)
    → elem a xs ≡ false
    → Names s.nodes sid a xs
    → s.removed_idx ≡ some i
    → (renumber sid idx xs s).updated ≡ s.updated ++ xs
unfolding renumber
reported_all sid idx a i [] s m h r = sym (append-nil s.updated)
reported_all sid idx a i (x ∷ xs) s m h r =
    reported_all sid (idx + 1) a i xs (visit sid idx x s) (ground arith)
      (Names-visit sid idx a x xs s h) (unfold visit in ground (arith, h x))
    ∙ (ap (λ u. u ++ xs) (unfold visit in ground (arith, h x)) ∙ append_assoc s.updated (x ∷ []) xs)

pub renumber-updated :
    (sid idx a : ℕ) (xs : List ℕ) (s : Renumbering)
    → IsDistinct xs
    → elem a xs ≡ true
    → Names s.nodes sid a xs
    → s.removed_idx ≡ none
    → (renumber sid idx xs s).updated ≡ s.updated ++ after a xs
unfolding renumber
renumber-updated sid idx a [] s d m h r = cc
renumber-updated sid idx a (x ∷ xs) s d m h r = elim (Bool-cases (nat_beq x a)) [
  | inl e ↦
      let absent : elem a xs ≡ false = ground arith in
      rw e (
        reported_all sid (idx + 1) a idx xs (visit sid idx x s) absent
          (Names-visit sid idx a x xs s h) (unfold visit in ground (arith, h x))
        ∙ ap (λ u. u ++ xs) (unfold visit in ground (arith, h x)))
  | inr e ↦ rw e (
      renumber-updated sid (idx + 1) a xs (visit sid idx x s) d.1 (ground arith)
        (Names-visit sid idx a x xs s h) (unfold visit in ground (arith, h x))
      ∙ ap (λ u. u ++ after a xs) (unfold visit in ground (arith, h x)))
]
