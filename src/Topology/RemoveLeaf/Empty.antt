-- ===== src/Topology/RemoveLeaf/Empty.antt =====
-- The loop of RemoveLeaf (core/model/topology.go) that removes the servers of the leaf: it ends, one
-- round for each server.
use horus_controller.Node.{ports_of}
use horus_controller.Topology.Valid.Removed.{removed-IsValid}
use horus_controller.Topology.RemoveLeaf.{remove_children}
use horus_controller.Topology.RemoveServer.Effect.{
  removed-ports_of, removed, remove_server-removed, removed-children, removed-frame,
}
use horus_controller.Topology.Valid.{ServerChild, IsValid}
use horus_controller.GoMap.{delete, load, load-delete}
use horus_controller.Prelude.{
  zero, suc, ◌<◌, refl, ◌⊎◌, inl, inr, if◌then◌else◌, Bool-cases, length, without, elem-without,
  length-without, returned, ℕ, ◌≡◌, ◌∙◌, true, false, none, some, List, [], ◌∷◌, arith, nat_beq,
  elem, number_key,
}
use horus_controller.Topology.State.{Topology}

-- What the loop leaves alone, and what it reaches.
pub record Emptied (a : ℕ) (t t' : Topology) : Type 0 where
  pub valid : IsValid t'
  pub no_children : (t'.nodes a).children ≡ []
  pub leaves_eq : t'.leaves ≡ t.leaves
  pub spines_eq : t'.spines ≡ t.spines
  pub id_eq : (b : ℕ) → (t'.nodes b).id ≡ (t.nodes b).id
  pub parent_eq : (b : ℕ) → (t'.nodes b).parent ≡ (t.nodes b).parent
  pub index_eq : (b : ℕ) → (t'.nodes b).index ≡ (t.nodes b).index
  pub children_eq : (b : ℕ) → nat_beq a b ≡ false → (t'.nodes b).children ≡ (t.nodes b).children
  pub servers_gone :
      (c : ℕ) → elem c (t.nodes a).children ≡ true → load (t.nodes c).id t'.servers ≡ none
  pub servers_kept :
      (j c : ℕ)
      → elem c (t.nodes a).children ≡ false
      → load j t.servers ≡ some c
      → load j t'.servers ≡ some c
  pub ports_eq : (b : ℕ) → ports_of (t'.nodes b) ≡ ports_of (t.nodes b)
  pub servers_none : (j : ℕ) → load j t.servers ≡ none → load j t'.servers ≡ none

module _ (k a c : ℕ) (cs : List ℕ) (t t' : Topology) (v : IsValid t) (h : load k t.leaves ≡ some a)
    (e : (t.nodes a).children ≡ c ∷ cs) where
  head_child : ServerChild t a c
  head_child = v.leaf_children k a c h (ground arith)

  abbrev round : Topology
  round = removed (t.nodes c).id c t

  round-frame :
      (b : ℕ)
      → ((round.nodes b).id ≡ (t.nodes b).id)
        × ((round.nodes b).parent ≡ (t.nodes b).parent)
        × ((round.nodes b).index ≡ (t.nodes b).index)
  round-frame b = ground (arith, removed-frame (t.nodes c).id c t v head_child.known b)

  round-children :
      (b : ℕ)
      → (round.nodes b).children
        ≡ (if nat_beq a b then without c (t.nodes b).children else (t.nodes b).children)
  round-children b =
      ground (arith, removed-children (t.nodes c).id c t v head_child.known b, head_child)

  round-length : suc (length (round.nodes a).children) ≡ length (t.nodes a).children
  round-length =
      let l = v.leaves_ok k a h in
      ground
        (arith, round-children a, length-without c (t.nodes a).children l.distinct (ground arith))

  round-servers : round.servers ≡ delete (t.nodes c).id t.servers
  unfolding removed
  round-servers = refl

  round-maps : (round.leaves ≡ t.leaves) × (round.spines ≡ t.spines)
  unfolding removed
  round-maps = (refl, refl)

  round-gone :
      (b : ℕ)
      → Emptied a round t'
      → elem b (t.nodes a).children ≡ true
      → load (t.nodes b).id t'.servers ≡ none
  round-gone b r m = elim (Bool-cases (nat_beq c b)) [
    | inl s ↦
        r.servers_none (t.nodes b).id
          (ground (arith, round-servers, load-delete (t.nodes c).id (t.nodes b).id t.servers))
    | inr n ↦
        let still =
          r.servers_gone b
            (ground (arith, round-children a, elem-without c b (t.nodes a).children)) in
        rw (round-frame b).0 at still
  ]

  round-kept :
      (j b : ℕ)
      → Emptied a round t'
      → elem b (t.nodes a).children ≡ false
      → load j t.servers ≡ some b
      → load j t'.servers ≡ some b
  round-kept j b r m s =
      r.servers_kept j b (ground (arith, round-children a, elem-without c b (t.nodes a).children)) (
        ground (
          arith,
          round-servers,
          load-delete (t.nodes c).id j t.servers,
          head_child,
          v.servers_ok j b s,
        ))

  round-Emptied : Emptied a round t' → Emptied a t t'
  round-Emptied r = record {
    valid = r.valid;
    no_children = r.no_children;
    leaves_eq = r.leaves_eq ∙ round-maps.0;
    spines_eq = r.spines_eq ∙ round-maps.1;
    id_eq = λ b. r.id_eq b ∙ (round-frame b).0;
    parent_eq = λ b. r.parent_eq b ∙ (round-frame b).1;
    index_eq = λ b. r.index_eq b ∙ (round-frame b).2;
    ports_eq = λ b. r.ports_eq b ∙ removed-ports_of (t.nodes c).id c t v head_child.known b;
    children_eq = λ b n. r.children_eq b n ∙ ground (arith, round-children b);
    servers_gone = λ b m. round-gone b r m;
    servers_kept = λ j b m s. round-kept j b r m s;
    servers_none = λ j n.
        r.servers_none j (ground (arith, round-servers, load-delete (t.nodes c).id j t.servers));
  }

-- With no servers left the loop has reached its end.
Emptied-refl : (a : ℕ) (t : Topology) → IsValid t → (t.nodes a).children ≡ [] → Emptied a t t
Emptied-refl a t v e = record {
  valid = v;
  no_children = e;
  leaves_eq = refl;
  spines_eq = refl;
  id_eq = λ b. refl;
  parent_eq = λ b. refl;
  index_eq = λ b. refl;
  children_eq = λ b n. refl;
  ports_eq = λ b. refl;
  servers_gone = λ c m. ground arith;
  servers_kept = λ j c m s. s;
  servers_none = λ j n. n;
}

list_cases : (xs : List ℕ) → (xs ≡ []) ⊎ ((c : ℕ) × (cs : List ℕ) × (xs ≡ c ∷ cs))
list_cases [] = inl refl
list_cases (c ∷ cs) = inr (c, cs, refl)

-- With fuel above the number of servers the loop ends.
pub remove_children_lem :
    (fuel k a : ℕ) (t : Topology)
    → IsValid t
    → load k t.leaves ≡ some a
    → length (t.nodes a).children < fuel
    → (t' : Topology) × (remove_children fuel a t ≡ returned t') × Emptied a t t'
unfolding remove_children
remove_children_lem zero k a t v h b = absurd (omega arith)
remove_children_lem (suc fuel) k a t v h b = elim (list_cases (t.nodes a).children) [
  | inl e ↦ (t, ground arith, Emptied-refl a t v e)
  | inr (c, cs, e) ↦
      let s = head_child k a c cs t t v h e in
      let rest =
        remove_children_lem fuel k a (removed (t.nodes c).id c t)
          (removed-IsValid (t.nodes c).id c t v s.known)
          (ground (arith, round-maps k a c cs t t v h e))
          (omega (arith, round-length k a c cs t t v h e)) in
      (
        rest.0,
        ground (arith, remove_server-removed (t.nodes c).id c t v s.known, rest.1),
        round-Emptied k a c cs t rest.0 v h e rest.2,
      )
]
