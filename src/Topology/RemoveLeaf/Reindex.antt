-- ===== src/Topology/RemoveLeaf/Reindex.antt =====
-- The loop of RemoveLeaf (core/model/topology.go) over the children of the spine.
use horus_controller.Topology.RemoveServer.Loop.{Names}
use horus_controller.Prelude.Words.{sub16}
use mathlib.Core.List.{append-nil, append_assoc}
use horus_controller.Prelude.{
  ℕ, ◌+◌, ◌≡◌, refl, sym, ap, ◌∙◌, inl, inr, Bool, true, false, List, [], ◌∷◌, ◌++◌, arith, nat_beq,
  if◌then◌else◌, Bool-cases, elem, IsDistinct, index_of, after,
}
use horus_controller.Node.{Node}
use horus_controller.Topology.RemoveLeaf.{Reindexing, visit_leaf, reindex}

-- A node without its index.
abbrev pub without_index : Node → Node
without_index n = record n { index = 0 }

visit_leaf-frame :
    (lid idx a b : ℕ) (s : Reindexing)
    → without_index ((visit_leaf lid idx a s).nodes b) ≡ without_index (s.nodes b)
unfolding visit_leaf
visit_leaf-frame lid idx a b s = ground arith

-- Only indices change.
pub reindex-frame :
    (lid idx b : ℕ) (xs : List ℕ) (s : Reindexing)
    → without_index ((reindex lid idx xs s).nodes b) ≡ without_index (s.nodes b)
unfolding reindex
reindex-frame lid idx b [] s = refl
reindex-frame lid idx b (x ∷ xs) s =
    reindex-frame lid (idx + 1) b xs (visit_leaf lid idx x s) ∙ visit_leaf-frame lid idx x b s

Names-visit_leaf :
    (lid idx a x : ℕ) (xs : List ℕ) (s : Reindexing)
    → Names s.nodes lid a (x ∷ xs)
    → Names (visit_leaf lid idx x s).nodes lid a xs
Names-visit_leaf lid idx a x xs s h c m =
    ground (arith, h c, ap (λ (n : Node). n.id) (visit_leaf-frame lid idx x c s))

pub reindex-removed_idx :
    (lid idx a : ℕ) (xs : List ℕ) (s : Reindexing)
    → IsDistinct xs
    → Names s.nodes lid a xs
    → (reindex lid idx xs s).removed_idx
      ≡ (if elem a xs then idx + index_of a xs else s.removed_idx)
unfolding reindex
reindex-removed_idx lid idx a [] s d h = refl
reindex-removed_idx lid idx a (x ∷ xs) s d h =
    reindex-removed_idx lid (idx + 1) a xs (visit_leaf lid idx x s) d.1
      (Names-visit_leaf lid idx a x xs s h)
    ∙ ground (arith, h x)

-- The new index of the node `b`, where `seen` tells that the removed leaf is already behind.
abbrev pub shifted : Bool → ℕ → ℕ → List ℕ → ℕ → ℕ
shifted seen a b xs old =
    if seen
    then (if elem b xs then sub16 old 1 else old)
    else (if elem b (after a xs) then sub16 old 1 else old)

pub reindex_outside :
    (lid idx b : ℕ) (xs : List ℕ) (s : Reindexing)
    → elem b xs ≡ false
    → (reindex lid idx xs s).nodes b ≡ s.nodes b
unfolding reindex
reindex_outside lid idx b [] s h = refl
reindex_outside lid idx b (x ∷ xs) s h =
    reindex_outside lid (idx + 1) b xs (visit_leaf lid idx x s) (ground arith) ∙ ground arith

-- Behind the removed leaf every index goes down by one, and every leaf is reported.
reindex_seen :
    (lid idx a b : ℕ) (xs : List ℕ) (s : Reindexing)
    → IsDistinct xs
    → elem a xs ≡ false
    → Names s.nodes lid a xs
    → s.include ≡ true
    → ((reindex lid idx xs s).updated ≡ s.updated ++ xs)
      × (((reindex lid idx xs s).nodes b).index
          ≡ (if elem b xs then sub16 (s.nodes b).index 1 else (s.nodes b).index))
unfolding reindex
reindex_seen lid idx a b [] s d m h r = (sym (append-nil s.updated), refl)
reindex_seen lid idx a b (x ∷ xs) s d m h r =
    let ih =
      reindex_seen lid (idx + 1) a b xs (visit_leaf lid idx x s) d.1 (ground arith)
        (Names-visit_leaf lid idx a x xs s h) (ground (arith, h x)) in
    (
      ih.0 ∙ (ap (λ u. u ++ xs) (ground (arith, h x)) ∙ append_assoc s.updated (x ∷ []) xs),
      ih.1 ∙ ground (arith, h x),
    )

pub reindex_lem :
    (lid idx a b : ℕ) (xs : List ℕ) (s : Reindexing)
    → IsDistinct xs
    → elem a xs ≡ true
    → Names s.nodes lid a xs
    → s.include ≡ false
    → ((reindex lid idx xs s).updated ≡ s.updated ++ after a xs)
      × (((reindex lid idx xs s).nodes b).index
          ≡ (if elem b (after a xs) then sub16 (s.nodes b).index 1 else (s.nodes b).index))
unfolding reindex
reindex_lem lid idx a b [] s d m h r = cc
reindex_lem lid idx a b (x ∷ xs) s d m h r = elim (Bool-cases (nat_beq x a)) [
  | inl e ↦
      let seen =
        reindex_seen lid (idx + 1) a b xs (visit_leaf lid idx x s) d.1 (ground arith)
          (Names-visit_leaf lid idx a x xs s h) (ground (arith, h x)) in
      rw e (seen.0 ∙ ap (λ u. u ++ xs) (ground (arith, h x)), seen.1 ∙ ground (arith, h x))
  | inr e ↦
      let ih =
        reindex_lem lid (idx + 1) a b xs (visit_leaf lid idx x s) d.1 (ground arith)
          (Names-visit_leaf lid idx a x xs s h) (ground (arith, h x)) in
      rw e (ih.0 ∙ ap (λ u. u ++ after a xs) (ground (arith, h x)), ih.1 ∙ ground (arith, h x))
]
