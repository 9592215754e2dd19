-- ===== src/Topology/Valid/NewSpine.antt =====
-- A new spine, and new worker IDs, in a well-formed topology (core/model/topology.go: NewDCNFromTopoInfo).
use horus_controller.Topology.Valid.{
  parent_at, ServerAt, LeafAt, SpineAt, ServerChild, LeafChild, IsValid,
}
use horus_controller.Topology.State.{Topology}
use horus_controller.GoMap.{load, store, load-store}
use horus_controller.Prelude.{
  ℕ, ◌+◌, ◌≡◌, inl, inr, true, none, some, [], arith, nat_beq, Bool-cases, elem, number_key,
}
use horus_controller.Node.{Node, spine, core, write}

-- The spine `n` with the ID `id` is put at `next`, and the root `p` becomes `q`.
abbrev pub with_new_spine : Node → Node → ℕ → ℕ → Topology → Topology
with_new_spine n q id p t = record t {
  nodes = write t.next n (write p q t.nodes);
  next = t.next + 1;
  spines = store id t.next t.spines;
}

module _ (n q : Node) (id p : ℕ) (t : Topology) (v : IsValid t)
    (at_root : (t.nodes p).node_type ≡ core) (absent : load id t.spines ≡ none) (id_eq : n.id ≡ id)
    (type_eq : n.node_type ≡ spine) (childless : n.children ≡ []) where
  abbrev new : Topology
  new = with_new_spine n q id p t

  servers_ok : (j a : ℕ) → load j t.servers ≡ some a → ServerAt new j a
  servers_ok j a h = let s = v.servers_ok j a h in ground (arith, s, v.leaves_ok _ _ s.known)

  leaves_ok : (j a : ℕ) → load j t.leaves ≡ some a → LeafAt new j a
  leaves_ok j a h =
      let l = v.leaves_ok j a h in
      ground (
        arith,
        l,
        v.spines_ok _ _ l.known,
        load-store id (t.nodes (parent_at (t.nodes a))).id t.next t.spines,
      )

  spines_ok : (j a : ℕ) → load j new.spines ≡ some a → SpineAt new j a
  spines_ok j a h = ground (arith, v.spines_ok j a, load-store id j t.next t.spines)

  leaf_children :
      (j a c : ℕ)
      → load j t.leaves ≡ some a
      → elem c (new.nodes a).children ≡ true
      → ServerChild new a c
  leaf_children j a c h m =
      let l = v.leaves_ok j a h in
      let s = v.leaf_children j a c h (ground (arith, l)) in
      ground (arith, s, v.servers_ok _ _ s.known)

  spine_children :
      (j a c : ℕ)
      → load j new.spines ≡ some a
      → elem c (new.nodes a).children ≡ true
      → LeafChild new a c
  spine_children j a c h m = elim (Bool-cases (nat_beq id j)) [
    | inl e ↦ ground (arith, load-store id j t.next t.spines)
    | inr e ↦
        let old : load j t.spines ≡ some a = ground (arith, load-store id j t.next t.spines) in
        let s = v.spine_children j a c old (ground (arith, v.spines_ok j a old)) in
        ground (arith, s, v.leaves_ok _ _ s.known)
  ]

  pub with_new_spine-IsValid : IsValid new
  with_new_spine-IsValid = record {
    servers_ok = servers_ok;
    leaves_ok = leaves_ok;
    spines_ok = spines_ok;
    leaf_children = leaf_children;
    spine_children = spine_children;
  }

-- A node with another last worker.
abbrev pub with_last_worker : ℕ → ℕ → Topology → Topology
with_last_worker l w t = record t {
  nodes = write l (record (t.nodes l) { last_worker_id = w }) t.nodes;
}

pub with_last_worker-IsValid :
    (l w : ℕ) (t : Topology) → IsValid t → IsValid (with_last_worker l w t)
with_last_worker-IsValid l w t v = record {
  servers_ok = λ j a h. let s = v.servers_ok j a h in ground (arith, s, v.leaves_ok _ _ s.known);
  leaves_ok = λ j a h. let s = v.leaves_ok j a h in ground (arith, s, v.spines_ok _ _ s.known);
  spines_ok = λ j a h. ground (arith, v.spines_ok j a h);
  leaf_children = λ j a c h m. let s = v.leaf_children j a c h (ground arith) in ground (arith, s);
  spine_children =
      λ j a c h m. let s = v.spine_children j a c h (ground arith) in ground (arith, s);
}
