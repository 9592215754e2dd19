-- ===== src/Topology/RemoveLeaf/Drop.antt =====
-- The second half of RemoveLeaf (core/model/topology.go): a leaf with no servers is taken from its spine.
use horus_controller.Node.{ports_of, write}
use horus_controller.Topology.RemoveServer.Loop.{Names}
use horus_controller.Topology.RemoveLeaf.Reindex.{reindex-frame, reindex-removed_idx, reindex_lem}
use horus_controller.GoMap.{load, delete, load-delete}
use horus_controller.Prelude.Words.{sub16}
use horus_controller.Prelude.{
  ℕ, ◌≡◌, refl, inl, inr, true, false, some, List, [], arith, nat_beq, if◌then◌else◌, Bool-cases,
  elem, IsDistinct, without, elem-without, IsDistinct-without, index_of, after, remove_at-index_of,
  index_of-lt, returned, number_key,
}
use horus_controller.Topology.State.{Topology}
use horus_controller.Topology.RemoveLeaf.{Reindexing, reindex, detach_leaf_child}
use horus_controller.Topology.Valid.{
  IsValid, ServerAt, LeafAt, SpineAt, ServerChild, LeafChild, parent_at,
}

abbrev pub spine_kids : ℕ → Topology → List ℕ
spine_kids a t = (t.nodes (parent_at (t.nodes a))).children

abbrev pub reindex_start : Topology → Reindexing
reindex_start t = record { nodes = t.nodes; removed_idx = 0; include = false; updated = [] }

-- The topology without the leaf `a`.
unfoldable pub dropped : ℕ → ℕ → Topology → Topology
dropped lid a t =
    let p = parent_at (t.nodes a) in
    let s = reindex lid 0 (spine_kids a t) (reindex_start t) in
    record t {
      nodes = write p (record (s.nodes p) { children = without a (t.nodes p).children }) s.nodes;
      leaves = delete lid t.leaves;
    }

module _ (lid a : ℕ) (t : Topology) (v : IsValid t) (at_leaf : load lid t.leaves ≡ some a) where
  pub kids-IsDistinct : IsDistinct (spine_kids a t)
  kids-IsDistinct = (v.spines_ok _ _ (v.leaves_ok lid a at_leaf).known).distinct

  pub kids-Names : Names t.nodes lid a (spine_kids a t)
  kids-Names c m =
      let s = v.leaves_ok lid a at_leaf in
      let k = v.spine_children _ _ c s.known m in ground (arith, s, k, at_leaf)

  spine_not_kid : elem (parent_at (t.nodes a)) (spine_kids a t) ≡ false
  spine_not_kid = elim (Bool-cases (elem (parent_at (t.nodes a)) (spine_kids a t))) [
    | inr e ↦ e
    | inl e ↦
        let s = v.spines_ok _ _ (v.leaves_ok lid a at_leaf).known in
        let k = v.spine_children _ _ _ (v.leaves_ok lid a at_leaf).known e in
        cc (s.type_eq, (v.leaves_ok _ _ k.known).type_eq)
  ]

  pub detach_leaf_child_lem :
      let s = reindex lid 0 (spine_kids a t) (reindex_start t) in
      (detach_leaf_child lid (parent_at (t.nodes a)) s t ≡ returned (dropped lid a t))
      × (s.removed_idx ≡ index_of a (spine_kids a t))
      × (s.updated ≡ after a (spine_kids a t))
  unfolding detach_leaf_child dropped
  detach_leaf_child_lem =
      let s = v.leaves_ok lid a at_leaf in
      let i =
        reindex-removed_idx lid 0 a (spine_kids a t) (reindex_start t) kids-IsDistinct kids-Names in
      let u =
        reindex_lem lid 0 a 0 (spine_kids a t) (reindex_start t) kids-IsDistinct s.listed kids-Names
          refl in
      let f = reindex-frame lid 0 (parent_at (t.nodes a)) (spine_kids a t) (reindex_start t) in
      (
        ground (
          arith,
          i,
          s,
          f,
          index_of-lt a (spine_kids a t),
          remove_at-index_of a (spine_kids a t) kids-IsDistinct s.listed,
        ),
        ground (arith, i, s),
        u.0,
      )

  pub dropped-frame :
      (b : ℕ)
      → let n = (dropped lid a t).nodes b in
        (n.id ≡ (t.nodes b).id)
        × (n.node_type ≡ (t.nodes b).node_type)
        × (n.parent ≡ (t.nodes b).parent)
        × (n.children ≡ (
            if nat_beq (parent_at (t.nodes a)) b
            then without a (t.nodes b).children
            else (t.nodes b).children))
  unfolding dropped
  dropped-frame b = ground (arith, reindex-frame lid 0 b (spine_kids a t) (reindex_start t))

  pub dropped-ports_of : (b : ℕ) → ports_of ((dropped lid a t).nodes b) ≡ ports_of (t.nodes b)
  unfolding dropped
  dropped-ports_of b = ground (arith, reindex-frame lid 0 b (spine_kids a t) (reindex_start t))

  pub dropped-index :
      (b : ℕ)
      → ((dropped lid a t).nodes b).index ≡ (
          if elem b (after a (spine_kids a t))
          then sub16 (t.nodes b).index 1
          else (t.nodes b).index)
  unfolding dropped
  dropped-index b =
      let s = v.leaves_ok lid a at_leaf in
      ground (
        arith,
        reindex_lem lid 0 a b (spine_kids a t) (reindex_start t) kids-IsDistinct s.listed kids-Names
            refl,
      )

  maps :
      ((dropped lid a t).servers ≡ t.servers)
      × ((dropped lid a t).leaves ≡ delete lid t.leaves)
      × ((dropped lid a t).spines ≡ t.spines)
      × ((dropped lid a t).next ≡ t.next)
  unfolding dropped
  maps = (refl, refl, refl, refl)

  -- Of a leaf with no servers, what is left is well formed.
  module _ (empty : (t.nodes a).children ≡ []) where
    servers_ok :
        (j b : ℕ) → load j (dropped lid a t).servers ≡ some b → ServerAt (dropped lid a t) j b
    servers_ok j b h =
        let s = v.servers_ok j b (ground (arith, maps)) in
        let l = v.leaves_ok lid a at_leaf in
        let l' = v.leaves_ok _ _ s.known in
        ground (
          arith,
          maps,
          s,
          l,
          l',
          empty,
          dropped-frame b,
          dropped-frame (parent_at (t.nodes b)),
          v.spines_ok _ _ l.known,
          load-delete lid (t.nodes (parent_at (t.nodes b))).id t.leaves,
        )

    leaves_ok : (j b : ℕ) → load j (dropped lid a t).leaves ≡ some b → LeafAt (dropped lid a t) j b
    leaves_ok j b h =
        let old : (load j t.leaves ≡ some b) × (nat_beq lid j ≡ false) =
          ground (arith, maps, load-delete lid j t.leaves) in
        let l = v.leaves_ok j b old.0 in
        let l' = v.leaves_ok lid a at_leaf in
        ground (
          arith,
          maps,
          l,
          l',
          dropped-frame b,
          dropped-frame (parent_at (t.nodes b)),
          v.spines_ok _ _ l'.known,
          elem-without a b (t.nodes (parent_at (t.nodes b))).children,
        )

    spines_ok : (j b : ℕ) → load j (dropped lid a t).spines ≡ some b → SpineAt (dropped lid a t) j b
    spines_ok j b h =
        let s = v.spines_ok j b (ground (arith, maps)) in
        ground (arith, maps, s, dropped-frame b, IsDistinct-without a (t.nodes b).children)

    leaf_children :
        (j b c : ℕ)
        → load j (dropped lid a t).leaves ≡ some b
        → elem c ((dropped lid a t).nodes b).children ≡ true
        → ServerChild (dropped lid a t) b c
    leaf_children j b c h m =
        let old : (load j t.leaves ≡ some b) × (nat_beq lid j ≡ false) =
          ground (arith, maps, load-delete lid j t.leaves) in
        let l = v.leaves_ok j b old.0 in
        let l' = v.leaves_ok lid a at_leaf in
        let mem : elem c (t.nodes b).children ≡ true =
          ground (arith, l, dropped-frame b, v.spines_ok _ _ l'.known) in
        ground (arith, maps, v.leaf_children j b c old.0 mem, dropped-frame c)

    spine_children :
        (j b c : ℕ)
        → load j (dropped lid a t).spines ≡ some b
        → elem c ((dropped lid a t).nodes b).children ≡ true
        → LeafChild (dropped lid a t) b c
    spine_children j b c h m =
        let old : load j t.spines ≡ some b = ground (arith, maps) in
        let l' = v.leaves_ok lid a at_leaf in
        let mem : elem c (t.nodes b).children ≡ true =
          ground (arith, dropped-frame b, elem-without a c (t.nodes b).children) in
        let k = v.spine_children j b c old mem in
        ground (
          arith,
          maps,
          k,
          l',
          at_leaf,
          dropped-frame c,
          dropped-frame b,
          elem-without a c (t.nodes b).children,
          load-delete lid (t.nodes c).id t.leaves,
        )

    pub dropped-IsValid : IsValid (dropped lid a t)
    dropped-IsValid = record {
      servers_ok = servers_ok;
      leaves_ok = leaves_ok;
      spines_ok = spines_ok;
      leaf_children = leaf_children;
      spine_children = spine_children;
    }
