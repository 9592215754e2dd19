-- ===== src/Topology/Valid/Removed.antt =====
-- RemoveServer (core/model/topology.go) keeps a topology well formed.
use horus_controller.GoMap.{load, delete, load-delete}
use horus_controller.Prelude.{
  ℕ, ◌≡◌, refl, inl, inr, Bool, true, false, some, List, [], arith, nat_beq, Option-cases, elem,
  elem-without, IsDistinct-without, after, returned, number_key,
}
use horus_controller.Topology.State.{Topology}
use horus_controller.Topology.RemoveServer.{remove_server}
use horus_controller.Topology.RemoveServer.Effect.{
  siblings, removed, remove_server-removed, removed-children, removed-frame,
}
use horus_controller.Topology.Valid.{
  IsValid, ServerAt, LeafAt, SpineAt, ServerChild, LeafChild, parent_at,
}

module _ (sid a : ℕ) (t : Topology) (v : IsValid t) (at_server : load sid t.servers ≡ some a) where
  abbrev new : Topology
  new = removed sid a t

  same_maps :
      (new.servers ≡ delete sid t.servers)
      × (new.leaves ≡ t.leaves)
      × (new.spines ≡ t.spines)
      × (new.next ≡ t.next)
  unfolding removed
  same_maps = (refl, refl, refl, refl)

  leaves_ok : (j b : ℕ) → load j new.leaves ≡ some b → LeafAt new j b
  leaves_ok j b h =
      let l = v.leaves_ok j b (ground (arith, same_maps)) in
      let s = v.servers_ok sid a at_server in
      ground (
        arith,
        same_maps,
        l,
        s,
        removed-frame sid a t v at_server b,
        removed-children sid a t v at_server b,
        removed-frame sid a t v at_server (parent_at (t.nodes b)),
        removed-children sid a t v at_server (parent_at (t.nodes b)),
        v.leaves_ok _ _ s.known,
        v.spines_ok _ _ l.known,
        IsDistinct-without a (t.nodes b).children,
      )

  spines_ok : (j b : ℕ) → load j new.spines ≡ some b → SpineAt new j b
  spines_ok j b h =
      let l = v.spines_ok j b (ground (arith, same_maps)) in
      let s = v.servers_ok sid a at_server in
      ground (
        arith,
        same_maps,
        l,
        removed-frame sid a t v at_server b,
        removed-children sid a t v at_server b,
        v.leaves_ok _ _ s.known,
      )

  servers_ok : (j b : ℕ) → load j new.servers ≡ some b → ServerAt new j b
  servers_ok j b h =
      let old : (load j t.servers ≡ some b) × (nat_beq sid j ≡ false) =
        ground (arith, same_maps, load-delete sid j t.servers) in
      let s = v.servers_ok j b old.0 in
      let s' = v.servers_ok sid a at_server in
      ground (
        arith,
        same_maps,
        old,
        s,
        s',
        removed-frame sid a t v at_server b,
        removed-frame sid a t v at_server (parent_at (t.nodes b)),
        removed-children sid a t v at_server (parent_at (t.nodes b)),
        elem-without a b (t.nodes (parent_at (t.nodes b))).children,
      )

  leaf_children :
      (j b c : ℕ)
      → load j new.leaves ≡ some b
      → elem c (new.nodes b).children ≡ true
      → ServerChild new b c
  leaf_children j b c h m =
      let old : load j t.leaves ≡ some b = ground (arith, same_maps) in
      let mem : elem c (t.nodes b).children ≡ true =
        ground
          (arith, removed-children sid a t v at_server b, elem-without a c (t.nodes b).children) in
      let k = v.leaf_children j b c old mem in
      let s = v.servers_ok sid a at_server in
      ground (
        arith,
        same_maps,
        k,
        s,
        at_server,
        removed-frame sid a t v at_server c,
        removed-children sid a t v at_server b,
        elem-without a c (t.nodes b).children,
        load-delete sid (t.nodes c).id t.servers,
      )

  spine_children :
      (j b c : ℕ)
      → load j new.spines ≡ some b
      → elem c (new.nodes b).children ≡ true
      → LeafChild new b c
  spine_children j b c h m =
      let old : load j t.spines ≡ some b = ground (arith, same_maps) in
      let s = v.servers_ok sid a at_server in
      let mem : elem c (t.nodes b).children ≡ true =
        ground
          (arith, removed-children sid a t v at_server b, elem-without a c (t.nodes b).children) in
      ground (arith, same_maps, v.spine_children j b c old mem, removed-frame sid a t v at_server c)

  pub removed-IsValid : IsValid new
  removed-IsValid = record {
    servers_ok = servers_ok;
    leaves_ok = leaves_ok;
    spines_ok = spines_ok;
    leaf_children = leaf_children;
    spine_children = spine_children;
  }

-- RemoveServer returns on every well-formed topology, and leaves a well-formed one.
pub remove_server-IsValid :
    (sid : ℕ) (t : Topology)
    → IsValid t
    → (t' : Topology) × (answer : Bool × List ℕ) × (remove_server sid t
        ≡ returned (t', answer.0, answer.1))
      × IsValid t'
unfolding remove_server
remove_server-IsValid sid t v = elim (Option-cases (load sid t.servers)) [
  | inl e ↦ (t, (false, []), ground arith, v)
  | inr (a, e) ↦ (
    removed sid a t,
    (true, after a (siblings a t)),
    remove_server-removed sid a t v e,
    removed-IsValid sid a t v e,
  )
]
