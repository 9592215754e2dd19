-- ===== src/Topology/Valid/AttachServer.antt =====
-- AddServerToLeaf (core/model/topology.go) keeps a topology well formed.
use horus_controller.Topology.Valid.NewServer.{with_new_server-IsValid}
use horus_controller.Prelude.{returned, Result, ℕ, ◌≡◌, none, some, number_key, inl, inr}
use horus_controller.Prelude.Words.{u16}
use horus_controller.GoMap.{load}
use horus_controller.Info.{ServerInfo}
use horus_controller.Asic.{PortRef}
use horus_controller.Topology.State.{Topology, TopoError}
use horus_controller.Topology.AddServer.{attach_server, add_server_to_leaf}
use mathlib.Core.Path.{subst, sym, refl}
use horus_controller.Topology.Cases.{add_server_cases}
use horus_controller.Topology.Valid.{IsValid}

pub attach_server-IsValid :
    (info : ServerInfo) (port : PortRef) (k p : ℕ) (t : Topology)
    → IsValid t
    → load k t.leaves ≡ some p
    → load (u16 info.id) t.servers ≡ none
    → IsValid (attach_server info port p t)
unfolding attach_server
attach_server-IsValid info port k p t v h absent =
    with_new_server-IsValid _ _ (u16 info.id) k p t v h absent
      (record { id_eq = refl; type_eq = refl; parent_eq = refl })
      (record { id_eq = refl; type_eq = refl; parent_eq = refl; children_eq = refl })

-- AddServerToLeaf keeps the topology well formed, whether it adds the server or returns an error.
pub add_server_to_leaf-IsValid :
    (info : ServerInfo) (leaf_id : ℕ) (t t' : Topology) (r : Result TopoError ℕ)
    → IsValid t
    → add_server_to_leaf info leaf_id t ≡ returned (t', r)
    → IsValid t'
add_server_to_leaf-IsValid info leaf_id t t' r v h = elim (add_server_cases info leaf_id t t' r h) [
  | inl same ↦ subst IsValid (sym same.state_eq) v
  | inr added ↦ subst IsValid (sym added.state_eq) (
      attach_server-IsValid info added.port _ added.parent t v added.leaf_known added.server_absent)
]
