-- ===== src/Topology/Valid/AttachLeaf.antt =====
-- AddLeafToSpine (core/model/topology.go) keeps a topology well formed.
use horus_controller.Topology.Valid.NewLeaf.{with_new_leaf-IsValid}
use horus_controller.Prelude.{returned, Result, ℕ, ◌≡◌, none, some, number_key, inl, inr}
use horus_controller.Prelude.Words.{u16}
use horus_controller.GoMap.{load}
use horus_controller.Info.{LeafInfo}
use horus_controller.Asic.{PortRef}
use horus_controller.Topology.State.{Topology, TopoError}
use horus_controller.Topology.AddLeaf.{attach_leaf, add_leaf_to_spine}
use mathlib.Core.Path.{subst, sym, refl}
use horus_controller.Topology.Cases.{add_leaf_cases}
use horus_controller.Topology.Valid.{IsValid}

pub attach_leaf-IsValid :
    (info : LeafInfo) (ds us : PortRef) (k p : ℕ) (t : Topology)
    → IsValid t
    → load k t.spines ≡ some p
    → load (u16 info.id) t.leaves ≡ none
    → IsValid (attach_leaf info ds us p t)
unfolding attach_leaf
attach_leaf-IsValid info ds us k p t v h absent =
    with_new_leaf-IsValid _ _ (u16 info.id) k p t v h absent
      (record { id_eq = refl; type_eq = refl; parent_eq = refl })
      (record { id_eq = refl; type_eq = refl; parent_eq = refl; children_eq = refl }) refl

-- AddLeafToSpine keeps the topology well formed, whether it adds the leaf or returns an error.
pub add_leaf_to_spine-IsValid :
    (info : LeafInfo) (t t' : Topology) (r : Result TopoError ℕ)
    → IsValid t
    → add_leaf_to_spine info t ≡ returned (t', r)
    → IsValid t'
add_leaf_to_spine-IsValid info t t' r v h = elim (add_leaf_cases info t t' r h) [
  | inl same ↦ subst IsValid (sym same.state_eq) v
  | inr added ↦ subst IsValid (sym added.state_eq) (
      attach_leaf-IsValid info added.ports.0 added.ports.1 _ added.parent t v added.spine_known
        added.leaf_absent)
]
