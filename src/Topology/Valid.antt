-- ===== src/Topology/Valid.antt =====
-- The well-formedness of a topology (core/model/topology.go, core/model/node.go): the maps, the
-- parents and the lists of children describe the same tree.
pub mod NewServer
pub mod NewLeaf
pub mod NewSpine
pub mod AttachLeaf
pub mod AttachServer
pub mod Removed
use horus_controller.Prelude.{ℕ, ◌<◌, ◌≡◌, none, some, true, elem, IsDistinct, number_key}
use horus_controller.GoMap.{load}
use horus_controller.Node.{Node, server, leaf, spine}
use horus_controller.Topology.State.{Topology}

-- The parent of a node that has one.
abbrev pub parent_at : Node → ℕ
parent_at n = elim n.parent [ none ↦ 0 | some p ↦ p ]

-- What holds of the node `a` that the map of servers has under `k`.
pub record ServerAt (t : Topology) (k a : ℕ) : Type 0 where
  pub id_eq : (t.nodes a).id ≡ k
  pub type_eq : (t.nodes a).node_type ≡ server
  pub allocated : a < t.next
  pub parent_eq : (t.nodes a).parent ≡ some (parent_at (t.nodes a))
  pub known : load (t.nodes (parent_at (t.nodes a))).id t.leaves ≡ some (parent_at (t.nodes a))
  pub listed : elem a (t.nodes (parent_at (t.nodes a))).children ≡ true

-- What holds of the node that the map of leaves has under `k`.
pub record LeafAt (t : Topology) (k a : ℕ) : Type 0 where
  pub id_eq : (t.nodes a).id ≡ k
  pub type_eq : (t.nodes a).node_type ≡ leaf
  pub allocated : a < t.next
  pub parent_eq : (t.nodes a).parent ≡ some (parent_at (t.nodes a))
  pub known : load (t.nodes (parent_at (t.nodes a))).id t.spines ≡ some (parent_at (t.nodes a))
  pub listed : elem a (t.nodes (parent_at (t.nodes a))).children ≡ true
  pub distinct : IsDistinct (t.nodes a).children

pub record SpineAt (t : Topology) (k a : ℕ) : Type 0 where
  pub id_eq : (t.nodes a).id ≡ k
  pub type_eq : (t.nodes a).node_type ≡ spine
  pub allocated : a < t.next
  pub distinct : IsDistinct (t.nodes a).children

-- The child `c` of a leaf is a server of the map and points back.
pub record ServerChild (t : Topology) (parent c : ℕ) : Type 0 where
  pub known : load (t.nodes c).id t.servers ≡ some c
  pub parent_eq : (t.nodes c).parent ≡ some parent

-- The child `c` of a spine is a leaf of the map and points back.
pub record LeafChild (t : Topology) (parent c : ℕ) : Type 0 where
  pub known : load (t.nodes c).id t.leaves ≡ some c
  pub parent_eq : (t.nodes c).parent ≡ some parent

pub record IsValid (t : Topology) : Type 0 where
  pub servers_ok : (k a : ℕ) → load k t.servers ≡ some a → ServerAt t k a
  pub leaves_ok : (k a : ℕ) → load k t.leaves ≡ some a → LeafAt t k a
  pub spines_ok : (k a : ℕ) → load k t.spines ≡ some a → SpineAt t k a
  pub leaf_children :
      (k a c : ℕ)
      → load k t.leaves ≡ some a
      → elem c (t.nodes a).children ≡ true
      → ServerChild t a c
  pub spine_children :
      (k a c : ℕ) → load k t.spines ≡ some a → elem c (t.nodes a).children ≡ true → LeafChild t a c
