-- ===== src/Topology/Valid/NewLeaf.antt =====
-- A new leaf in a well-formed topology (core/model/topology.go: AddLeafToSpine, NewDCNFromTopoInfo).
use horus_controller.Topology.Valid.NewServer.{Extended, NewChild}
use horus_controller.Topology.Valid.{
  parent_at, ServerAt, LeafAt, SpineAt, ServerChild, LeafChild, IsValid,
}
use horus_controller.Topology.State.{Topology}
use horus_controller.GoMap.{load, store, load-store}
use horus_controller.Node.{write, Node, leaf}
use horus_controller.Prelude.{
  ℕ, ◌+◌, ◌≡◌, inl, inr, true, false, none, some, [], arith, nat_beq, Bool-cases, elem, elem-append,
  IsDistinct-append, number_key,
}

-- The leaf `n` with the ID `id` is put at `next`, and its spine `p` becomes `q`.
abbrev pub with_new_leaf : Node → Node → ℕ → ℕ → Topology → Topology
with_new_leaf n q id p t = record t {
  nodes = write t.next n (write p q t.nodes);
  next = t.next + 1;
  leaves = store id t.next t.leaves;
}

module _ (n q : Node) (id k p : ℕ) (t : Topology) (v : IsValid t)
    (at_spine : load k t.spines ≡ some p) (absent : load id t.leaves ≡ none)
    (child : NewChild id p leaf n) (extended : Extended t p q) (childless : n.children ≡ []) where
  servers_ok : (j a : ℕ) → load j t.servers ≡ some a → ServerAt (with_new_leaf n q id p t) j a
  servers_ok j a h =
      let s = v.servers_ok j a h in
      let l = v.leaves_ok _ _ s.known in
      ground (
        arith,
        s,
        l,
        v.spines_ok k p at_spine,
        load-store id (t.nodes (parent_at (t.nodes a))).id t.next t.leaves,
      )

  leaves_ok :
      (j a : ℕ)
      → load j (with_new_leaf n q id p t).leaves ≡ some a
      → LeafAt (with_new_leaf n q id p t) j a
  leaves_ok j a h = elim (Bool-cases (nat_beq id j)) [
    | inl e ↦ ground (
      arith,
      v.spines_ok k p at_spine,
      load-store id j t.next t.leaves,
      elem-append t.next t.next (t.nodes p).children,
    )
    | inr e ↦
        let l = v.leaves_ok j a (ground (arith, load-store id j t.next t.leaves)) in
        ground (
          arith,
          l,
          v.spines_ok k p at_spine,
          v.spines_ok _ _ l.known,
          elem-append a t.next (t.nodes p).children,
        )
  ]

  spines_ok : (j a : ℕ) → load j t.spines ≡ some a → SpineAt (with_new_leaf n q id p t) j a
  spines_ok j a h =
      let s = v.spines_ok j a h in
      ground (
        arith,
        s,
        v.spines_ok k p at_spine,
        IsDistinct-append t.next (t.nodes p).children (v.spines_ok k p at_spine).distinct fresh,
      )
    where
      fresh : elem t.next (t.nodes p).children ≡ false
      fresh = elim (Bool-cases (elem t.next (t.nodes p).children)) [
        | inr e ↦ e
        | inl e ↦
            let c = v.spine_children k p t.next at_spine e in
            absurd (omega (arith, (v.leaves_ok _ _ c.known).allocated))
      ]

  leaf_children :
      (j a c : ℕ)
      → load j (with_new_leaf n q id p t).leaves ≡ some a
      → elem c ((with_new_leaf n q id p t).nodes a).children ≡ true
      → ServerChild (with_new_leaf n q id p t) a c
  leaf_children j a c h m = elim (Bool-cases (nat_beq id j)) [
    | inl e ↦ ground (arith, load-store id j t.next t.leaves)
    | inr e ↦
        let old : load j t.leaves ≡ some a = ground (arith, load-store id j t.next t.leaves) in
        let l = v.leaves_ok j a old in
        let in_old : elem c (t.nodes a).children ≡ true =
          ground (arith, l, v.spines_ok k p at_spine) in
        let s = v.leaf_children j a c old in_old in
        ground (arith, s, v.servers_ok _ _ s.known, v.spines_ok k p at_spine)
  ]

  spine_children :
      (j a c : ℕ)
      → load j t.spines ≡ some a
      → elem c ((with_new_leaf n q id p t).nodes a).children ≡ true
      → LeafChild (with_new_leaf n q id p t) a c
  spine_children j a c h m = ground (
    arith,
    v.spine_children j a c h,
    v.spines_ok j a h,
    v.spines_ok k p at_spine,
    elem-append c t.next (t.nodes p).children,
    v.leaves_ok (t.nodes c).id c,
    load-store id (t.nodes c).id t.next t.leaves,
    load-store id id t.next t.leaves,
  )

  pub with_new_leaf-IsValid : IsValid (with_new_leaf n q id p t)
  with_new_leaf-IsValid = record {
    servers_ok = servers_ok;
    leaves_ok = leaves_ok;
    spines_ok = spines_ok;
    leaf_children = leaf_children;
    spine_children = spine_children;
  }
