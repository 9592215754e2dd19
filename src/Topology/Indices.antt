-- ===== src/Topology/Indices.antt =====
-- The index of a leaf is its position among the leaves of its spine (core/model/topology.go:
-- AddLeafToSpine, RemoveLeaf).
use horus_controller.Topology.RemoveLeaf.Effect.{remove_leaf_lem}
use horus_controller.Topology.Valid.{parent_at, IsValid}
use horus_controller.Topology.Cases.{add_leaf_attached}
use horus_controller.Topology.AddLeaf.{attach_leaf, add_leaf_to_spine, same_address, leaf_ports}
use horus_controller.Topology.RemoveLeaf.{remove_leaf}
use horus_controller.Asic.{PortRef}
use horus_controller.GoMap.{load}
use horus_controller.Prelude.Words.{u16, sub16}
use horus_controller.Prelude.{
  none, false, any, ℕ, suc, ◌+◌, ◌≡◌, sym, ◌∙◌, inl, inr, true, Option, some, List, [], ◌∷◌, ◌++◌,
  arith, nat_beq, if◌then◌else◌, Bool-cases, length, elem, IsDistinct, without, without_absent,
  index_of, after, returned, ok, number_key,
}
use horus_controller.Info.{LeafInfo}
use horus_controller.Node.{Nodes}
use horus_controller.Topology.State.{Topology}

-- The leaves have consecutive indices from `i` on, in uint16.
abbrev pub IsIndexed : Nodes → ℕ → List ℕ → Type 0
IsIndexed nodes i [] = Unit
IsIndexed nodes i (x ∷ xs) = ((nodes x).index ≡ u16 i) × IsIndexed nodes (suc i) xs

IsIndexed-congr :
    (m n : Nodes) (i : ℕ) (xs : List ℕ)
    → ((c : ℕ) → elem c xs ≡ true → (m c).index ≡ (n c).index)
    → IsIndexed m i xs
    → IsIndexed n i xs
IsIndexed-congr m n i [] h p = tt
IsIndexed-congr m n i (x ∷ xs) h p =
    (sym (h x (ground arith)) ∙ p.0, IsIndexed-congr m n (suc i) xs (λ c k. h c (ground arith)) p.1)

IsIndexed-append :
    (nodes : Nodes) (i b : ℕ) (xs : List ℕ)
    → IsIndexed nodes i xs
    → (nodes b).index ≡ u16 (i + length xs)
    → IsIndexed nodes i (xs ++ b ∷ [])
IsIndexed-append nodes i b [] p e = (ground arith, tt)
IsIndexed-append nodes i b (x ∷ xs) p e =
    (p.0, IsIndexed-append nodes (suc i) b xs p.1 (omega arith))

-- Lowering every index by one closes the gap.
IsIndexed-shift :
    (m n : Nodes) (i : ℕ) (xs : List ℕ)
    → ((c : ℕ) → elem c xs ≡ true → (n c).index ≡ sub16 (m c).index 1)
    → IsIndexed m (suc i) xs
    → IsIndexed n i xs
IsIndexed-shift m n i [] h p = tt
IsIndexed-shift m n i (x ∷ xs) h p = (
  omega (arith, h x (ground arith)),
  IsIndexed-shift m n (suc i) xs (λ c k. h c (ground arith)) p.1,
)

after-elem : (a c : ℕ) (xs : List ℕ) → elem c (after a xs) ≡ true → elem c xs ≡ true
after-elem a c [] h = h
after-elem a c (x ∷ xs) h = ground (arith, after-elem a c xs)

pub IsIndexed-without :
    (m n : Nodes) (i a : ℕ) (xs : List ℕ)
    → IsDistinct xs
    → elem a xs ≡ true
    → ((c : ℕ) → (n c).index ≡ (if elem c (after a xs) then sub16 (m c).index 1 else (m c).index))
    → IsIndexed m i xs
    → IsIndexed n i (without a xs)
IsIndexed-without m n i a [] d e h p = cc
IsIndexed-without m n i a (x ∷ xs) d e h p = elim (Bool-cases (nat_beq x a)) [
  | inl same ↦
      let rest : without a xs ≡ xs = without_absent a xs (ground arith) in
      rw (same, rest) (IsIndexed-shift m n i xs (λ c k. ground (arith, h c)) p.1)
  | inr other ↦ rw other (
    ground (arith, h x, p, after-elem a x xs),
    IsIndexed-without m n (suc i) a xs d.1 (ground arith) (λ c. ground (arith, h c)) p.1,
  )
]

-- AddLeafToSpine of a new leaf with its own address and known ports returns it as the last leaf of
-- the spine, and its index is the next one: the indices stay consecutive from 0 on, in uint16.
pub add_leaf_to_spine-IsIndexed :
    (info : LeafInfo) (p : ℕ) (ports : PortRef × PortRef) (t : Topology)
    → IsValid t
    → load (u16 info.spine_id) t.spines ≡ some p
    → load (u16 info.id) t.leaves ≡ none
    → any (same_address t.nodes info) (t.nodes p).children ≡ false
    → leaf_ports info t.asic_registry ≡ returned ports
    → IsIndexed t.nodes 0 (t.nodes p).children
    → (t' : Topology) × (add_leaf_to_spine info t ≡ returned (t', ok t.next))
      × IsIndexed t'.nodes 0 (t'.nodes p).children
      × ((t'.nodes p).children ≡ (t.nodes p).children ++ t.next ∷ [])
add_leaf_to_spine-IsIndexed info p ports t v h absent free found x = (
  attach_leaf info ports.0 ports.1 p t,
  add_leaf_attached info p ports t h absent free found,
  rw kids (
      IsIndexed-append (attach_leaf info ports.0 ports.1 p t).nodes 0 t.next (t.nodes p).children
        (IsIndexed-congr t.nodes (attach_leaf info ports.0 ports.1 p t).nodes 0 (t.nodes p).children
          kid x)
        (unfold attach_leaf in ground arith)),
  kids,
)
  where
    kid :
        (c : ℕ)
        → elem c (t.nodes p).children ≡ true
        → (t.nodes c).index ≡ ((attach_leaf info ports.0 ports.1 p t).nodes c).index
    kid c m =
        let k = v.spine_children (u16 info.spine_id) p c h m in
        unfold attach_leaf in ground (arith, v.leaves_ok _ _ k.known, v.spines_ok _ _ h)

    kids :
        ((attach_leaf info ports.0 ports.1 p t).nodes p).children
        ≡ (t.nodes p).children ++ t.next ∷ []
    kids = unfold attach_leaf in ground (arith, v.spines_ok _ _ h)

-- RemoveLeaf of a leaf of a well-formed topology returns, and keeps the indices of the leaves of its
-- spine consecutive from 0 on.
pub remove_leaf-IsIndexed :
    (lid a : ℕ) (t : Topology)
    → IsValid t
    → load lid t.leaves ≡ some a
    → IsIndexed t.nodes 0 (t.nodes (parent_at (t.nodes a))).children
    → (t' : Topology) × (answer : Option ℕ × List ℕ) × (remove_leaf lid t
        ≡ returned (t', answer.0, answer.1))
      × IsIndexed t'.nodes 0 (t'.nodes (parent_at (t.nodes a))).children
remove_leaf-IsIndexed lid a t v h x =
    let l = v.leaves_ok lid a h in
    let (t', ran, d) = remove_leaf_lem lid a t v h in
    let p = parent_at (t.nodes a) in
    (
      t',
      (some (index_of a (t.nodes p).children), after a (t.nodes p).children),
      ran,
      rw d.children_eq (
          IsIndexed-without t.nodes t'.nodes 0 a (t.nodes p).children
            (v.spines_ok _ _ l.known).distinct l.listed d.index_eq x),
    )
