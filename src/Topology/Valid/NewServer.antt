-- ===== src/Topology/Valid/NewServer.antt =====
-- A new server in a well-formed topology (core/model/topology.go: AddServerToLeaf, NewDCNFromTopoInfo).
use horus_controller.Topology.Valid.{ServerAt, LeafAt, SpineAt, ServerChild, LeafChild, IsValid}
use horus_controller.Topology.State.{Topology}
use horus_controller.GoMap.{load, store, load-store}
use horus_controller.Node.{write, NodeType, Node, server}
use horus_controller.Prelude.{
  ℕ, ◌+◌, ◌≡◌, inl, inr, true, false, none, some, [], ◌∷◌, ◌++◌, arith, nat_beq, Bool-cases, elem,
  elem-append, IsDistinct-append, number_key,
}

-- The server `n` with the ID `id` is put at `next`, and its leaf `p` becomes `q`.
abbrev pub with_new_server : Node → Node → ℕ → ℕ → Topology → Topology
with_new_server n q id p t = record t {
  nodes = write t.next n (write p q t.nodes);
  next = t.next + 1;
  servers = store id t.next t.servers;
}

-- What the changed parent of a new node must be.
pub record Extended (t : Topology) (p : ℕ) (q : Node) : Type 0 where
  pub id_eq : q.id ≡ (t.nodes p).id
  pub type_eq : q.node_type ≡ (t.nodes p).node_type
  pub parent_eq : q.parent ≡ (t.nodes p).parent
  pub children_eq : q.children ≡ (t.nodes p).children ++ t.next ∷ []

-- What the new node must be.
pub record NewChild (id p : ℕ) (type : NodeType) (n : Node) : Type 0 where
  pub id_eq : n.id ≡ id
  pub type_eq : n.node_type ≡ type
  pub parent_eq : n.parent ≡ some p

module _ (n q : Node) (id k p : ℕ) (t : Topology) (v : IsValid t)
    (at_leaf : load k t.leaves ≡ some p) (absent : load id t.servers ≡ none)
    (child : NewChild id p server n) (extended : Extended t p q) where
  abbrev new : Topology
  new = with_new_server n q id p t

  fresh : elem t.next (t.nodes p).children ≡ false
  fresh = elim (Bool-cases (elem t.next (t.nodes p).children)) [
    | inr e ↦ e
    | inl e ↦
        let c = v.leaf_children k p t.next at_leaf e in
        absurd (omega (arith, (v.servers_ok _ _ c.known).allocated))
  ]

  servers_ok : (j a : ℕ) → load j new.servers ≡ some a → ServerAt new j a
  servers_ok j a h = elim (Bool-cases (nat_beq id j)) [
    | inl e ↦ ground (
      arith,
      v.leaves_ok k p at_leaf,
      load-store id j t.next t.servers,
      elem-append t.next t.next (t.nodes p).children,
    )
    | inr e ↦
        let s = v.servers_ok j a (ground (arith, load-store id j t.next t.servers)) in
        ground (
          arith,
          s,
          v.leaves_ok k p at_leaf,
          v.leaves_ok _ _ s.known,
          elem-append a t.next (t.nodes p).children,
        )
  ]

  leaves_ok : (j a : ℕ) → load j t.leaves ≡ some a → LeafAt new j a
  leaves_ok j a h =
      let l = v.leaves_ok j a h in
      ground (
        arith,
        l,
        v.leaves_ok k p at_leaf,
        v.spines_ok _ _ l.known,
        IsDistinct-append t.next (t.nodes p).children (v.leaves_ok k p at_leaf).distinct fresh,
      )

  spines_ok : (j a : ℕ) → load j t.spines ≡ some a → SpineAt new j a
  spines_ok j a h = ground (arith, v.spines_ok j a h, v.leaves_ok k p at_leaf)

  leaf_children :
      (j a c : ℕ)
      → load j t.leaves ≡ some a
      → elem c (new.nodes a).children ≡ true
      → ServerChild new a c
  leaf_children j a c h m = ground (
    arith,
    v.leaf_children j a c h,
    v.leaves_ok j a h,
    v.leaves_ok k p at_leaf,
    elem-append c t.next (t.nodes p).children,
    v.servers_ok (t.nodes c).id c,
    load-store id (t.nodes c).id t.next t.servers,
    load-store id id t.next t.servers,
  )

  spine_children :
      (j a c : ℕ)
      → load j t.spines ≡ some a
      → elem c (new.nodes a).children ≡ true
      → LeafChild new a c
  spine_children j a c h m =
      let old : elem c (t.nodes a).children ≡ true =
        ground (arith, v.spines_ok j a h, v.leaves_ok k p at_leaf) in
      let s = v.spine_children j a c h old in
      ground (arith, s, v.leaves_ok _ _ s.known, v.leaves_ok k p at_leaf)

  pub with_new_server-IsValid : IsValid new
  with_new_server-IsValid = record {
    servers_ok = servers_ok;
    leaves_ok = leaves_ok;
    spines_ok = spines_ok;
    leaf_children = leaf_children;
    spine_children = spine_children;
  }
