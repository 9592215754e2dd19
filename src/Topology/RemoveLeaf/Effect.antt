-- ===== src/Topology/RemoveLeaf/Effect.antt =====
-- What RemoveLeaf (core/model/topology.go) does to a well-formed topology.
use horus_controller.Node.{ports_of}
use horus_controller.Topology.RemoveLeaf.Drop.{
  dropped-ports_of, dropped, spine_kids, detach_leaf_child_lem, dropped-frame, dropped-index,
  dropped-IsValid,
}
use horus_controller.Topology.RemoveLeaf.Empty.{remove_children_lem}
use horus_controller.Topology.Valid.{parent_at, IsValid}
use horus_controller.Topology.RemoveLeaf.{remove_leaf}
use horus_controller.GoMap.{load-delete, load}
use horus_controller.Prelude.Words.{sub16}
use horus_controller.Prelude.{
  ◌∙◌, ℕ, suc, ◌≡◌, true, false, none, some, arith, if◌then◌else◌, length, elem, without, index_of,
  after, returned, number_key,
}
use horus_controller.Topology.State.{Topology}

-- What RemoveLeaf promises, where `p` is the spine of the leaf `a`.
pub record LeafRemoved (lid a p : ℕ) (t t' : Topology) : Type 0 where
  pub valid : IsValid t'
  pub gone : load lid t'.leaves ≡ none
  pub children_eq : (t'.nodes p).children ≡ without a (t.nodes p).children
  pub index_eq :
      (b : ℕ)
      → (t'.nodes b).index ≡ (
          if elem b (after a (t.nodes p).children)
          then sub16 (t.nodes b).index 1
          else (t.nodes b).index)
  pub spines_eq : t'.spines ≡ t.spines
  pub id_eq : (b : ℕ) → (t'.nodes b).id ≡ (t.nodes b).id
  pub ports_eq : (b : ℕ) → ports_of (t'.nodes b) ≡ ports_of (t.nodes b)
  pub servers_gone :
      (c : ℕ) → elem c (t.nodes a).children ≡ true → load (t.nodes c).id t'.servers ≡ none
  pub servers_kept :
      (j c : ℕ)
      → elem c (t.nodes a).children ≡ false
      → load j t.servers ≡ some c
      → load j t'.servers ≡ some c

-- RemoveLeaf of a leaf of a well-formed topology returns, so the loop that empties the leaf ends:
-- it leaves a well-formed topology without the leaf and without all its servers, keeps the servers
-- of other leaves and the ports of all nodes, takes the leaf from its spine, lowers by one the
-- indices of exactly the leaves behind it, and answers with the position of the leaf and those
-- leaves.
pub remove_leaf_lem :
    (lid a : ℕ) (t : Topology)
    → IsValid t
    → load lid t.leaves ≡ some a
    → let p = parent_at (t.nodes a) in
      let kids = (t.nodes p).children in
      (t' : Topology) × (remove_leaf lid t ≡ returned (t', some (index_of a kids), after a kids))
      × LeafRemoved lid a p t t'
unfolding remove_leaf
remove_leaf_lem lid a t v h =
    let l = v.leaves_ok lid a h in
    let (e, ran, d) =
      remove_children_lem (suc (length (t.nodes a).children)) lid a t v h (omega arith) in
    let at_leaf : load lid e.leaves ≡ some a = rw d.leaves_eq h in
    let kids : spine_kids a e ≡ spine_kids a t =
      ground
        (arith, l, v.spines_ok _ _ l.known, d.parent_eq a, d.children_eq (parent_at (t.nodes a))) in
    let drop = detach_leaf_child_lem lid a e d.valid at_leaf in
    (
      dropped lid a e,
      ground (arith, ran, drop, kids, d.parent_eq a, l),
      record {
        valid = dropped-IsValid lid a e d.valid at_leaf d.no_children;
        gone = unfold dropped in ground (arith, load-delete lid lid e.leaves);
        children_eq = ground (
          arith,
          dropped-frame lid a e d.valid at_leaf (parent_at (t.nodes a)),
          kids,
          d.parent_eq a,
        );
        index_eq = λ b. ground (arith, dropped-index lid a e d.valid at_leaf b, kids, d.index_eq b);
        spines_eq = unfold dropped in d.spines_eq;
        id_eq = λ b. (dropped-frame lid a e d.valid at_leaf b).0 ∙ d.id_eq b;
        ports_eq = λ b. dropped-ports_of lid a e d.valid at_leaf b ∙ d.ports_eq b;
        servers_gone = λ c m. unfold dropped in d.servers_gone c m;
        servers_kept = λ j c m s. unfold dropped in d.servers_kept j c m s;
      },
    )
