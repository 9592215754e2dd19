-- ===== src/Topology/Build/Growth.antt =====
-- What the loops of NewDCNFromTopoInfo (core/model/topology.go) leave alone.
use horus_controller.Topology.Valid.NewSpine.{with_last_worker}
use horus_controller.Topology.Build.{put_child}
use horus_controller.Topology.State.{Topology}
use horus_controller.Info.{ServerInfo, LeafInfo, SpineInfo}
use horus_controller.Node.{Node, NodeMap}
use horus_controller.GoMap.{store, load-store, load}
use horus_controller.Prelude.Words.{u16}
use horus_controller.Prelude.{
  ℕ, ◌≤◌, ◌<◌, ◌≡◌, refl, ◌∙◌, true, false, none, List, [], ◌∷◌, ◌++◌, arith, elem, IsDistinct,
  elem-concat, IsDistinct-parts, number_key,
}

-- The IDs under which the parts of a message are stored.
abbrev pub server_ids : List ServerInfo → List ℕ
server_ids [] = []
server_ids (i ∷ is) = u16 i.id ∷ server_ids is

abbrev pub leaf_ids : List LeafInfo → List ℕ
leaf_ids [] = []
leaf_ids (i ∷ is) = u16 i.id ∷ leaf_ids is

abbrev pub spine_ids : List SpineInfo → List ℕ
spine_ids [] = []
spine_ids (i ∷ is) = u16 i.id ∷ spine_ids is

-- The servers of some leaves.
abbrev pub servers_below : List LeafInfo → List ℕ
servers_below [] = []
servers_below (i ∷ is) = server_ids i.servers ++ servers_below is

-- The leaves, and the servers, of some spines.
abbrev pub all_leaves : List SpineInfo → List ℕ
all_leaves [] = []
all_leaves (i ∷ is) = leaf_ids i.leaves ++ all_leaves is

abbrev pub all_servers : List SpineInfo → List ℕ
all_servers [] = []
all_servers (i ∷ is) = servers_below i.leaves ++ all_servers is

-- No ID stands twice, and none is in the map yet.
pub record AreFresh (ids : List ℕ) (m : NodeMap) : Type 0 where
  pub distinct : IsDistinct ids
  pub absent : (j : ℕ) → elem j ids ≡ true → load j m ≡ none

-- The later topology has the older nodes with their types, and at most these new IDs.
pub record Grown (t t' : Topology) (servers leaves spines : List ℕ) : Type 0 where
  pub root_eq : t'.root ≡ t.root
  pub registry_eq : t'.asic_registry ≡ t.asic_registry
  pub next_le : t.next ≤ t'.next
  pub type_kept : (c : ℕ) → c < t.next → (t'.nodes c).node_type ≡ (t.nodes c).node_type
  pub servers_kept : (j : ℕ) → elem j servers ≡ false → load j t'.servers ≡ load j t.servers
  pub leaves_kept : (j : ℕ) → elem j leaves ≡ false → load j t'.leaves ≡ load j t.leaves
  pub spines_kept : (j : ℕ) → elem j spines ≡ false → load j t'.spines ≡ load j t.spines

pub Grown-refl : (t : Topology) → Grown t t [] [] []
Grown-refl t = record {
  root_eq = refl;
  registry_eq = refl;
  next_le = omega arith;
  type_kept = λ c h. refl;
  servers_kept = λ j h. refl;
  leaves_kept = λ j h. refl;
  spines_kept = λ j h. refl;
}

pub Grown-trans :
    (t t' t'' : Topology) (s1 s2 l1 l2 p1 p2 : List ℕ)
    → Grown t t' s1 l1 p1
    → Grown t' t'' s2 l2 p2
    → Grown t t'' (s1 ++ s2) (l1 ++ l2) (p1 ++ p2)
Grown-trans t t' t'' s1 s2 l1 l2 p1 p2 g h = record {
  root_eq = h.root_eq ∙ g.root_eq;
  registry_eq = h.registry_eq ∙ g.registry_eq;
  next_le = omega (arith, g.next_le, h.next_le);
  type_kept = λ c k. h.type_kept c (omega (arith, g.next_le)) ∙ g.type_kept c k;
  servers_kept = λ j k. ground (arith, g.servers_kept j, h.servers_kept j, elem-concat j s1 s2);
  leaves_kept = λ j k. ground (arith, g.leaves_kept j, h.leaves_kept j, elem-concat j l1 l2);
  spines_kept = λ j k. ground (arith, g.spines_kept j, h.spines_kept j, elem-concat j p1 p2);
}

-- The first IDs are new, and once they are stored, so are the others.
pub AreFresh-first : (xs ys : List ℕ) (m : NodeMap) → AreFresh (xs ++ ys) m → AreFresh xs m
AreFresh-first xs ys m f = record {
  distinct = (IsDistinct-parts xs ys f.distinct).0;
  absent = λ j h. f.absent j (ground (arith, elem-concat j xs ys));
}

pub AreFresh-rest :
    (xs ys : List ℕ) (m m' : NodeMap)
    → AreFresh (xs ++ ys) m
    → ((j : ℕ) → elem j xs ≡ false → load j m' ≡ load j m)
    → AreFresh ys m'
AreFresh-rest xs ys m m' f kept =
    let parts = IsDistinct-parts xs ys f.distinct in
    record {
      distinct = parts.1;
      absent = λ j h. ground (arith, kept j, parts.2 j h, f.absent j, elem-concat j xs ys);
    }

-- A new server.
pub put_server-Grown :
    (n : Node) (id l : ℕ) (t : Topology)
    → Grown t
        (let put = put_child n l t in record put { servers = store id t.next put.servers })
        (id ∷ [])
        []
        []
put_server-Grown n id l t = record {
  root_eq = refl;
  registry_eq = refl;
  next_le = omega arith;
  type_kept = λ c k. ground arith;
  servers_kept = λ j k. ground (arith, load-store id j t.next t.servers);
  leaves_kept = λ j k. refl;
  spines_kept = λ j k. refl;
}

-- A new leaf with its servers.
pub leaf-Grown :
    (n : Node) (id l s last : ℕ) (servers : List ℕ) (t b : Topology)
    → Grown (put_child n s t) b servers [] []
    → b.leaves ≡ t.leaves
    → Grown t
        (with_last_worker l last (record b { leaves = store id l b.leaves }))
        servers
        (id ∷ [])
        []
leaf-Grown n id l s last servers t b g same = record {
  root_eq = g.root_eq;
  registry_eq = g.registry_eq;
  next_le = omega (arith, g.next_le);
  type_kept = λ c k. ground (arith, g.type_kept c);
  servers_kept = g.servers_kept;
  leaves_kept = λ j k. rw same (ground (arith, load-store id j l t.leaves));
  spines_kept = g.spines_kept;
}
