-- ===== src/Controller.antt =====
-- ctrl_mgr/controller.go: how a leaf or spine controller gets its copy of the topology and its clusters.
-- The answers of the central controller come through core/net/rpc_endpoint_leaf.go and
-- core/net/rpc_endpoint_spine.go.
use horus_controller.Vc.{new_vc}
pub mod Clusters
pub mod Start
use horus_controller.Topology.Build.{new_dcn}
use horus_controller.Topology.State.{Topology}
use horus_controller.VcManager.{VcManager, add_vc}
use horus_controller.Info.{TopoInfo, VcInfo}
use horus_controller.Ports.{new_asic_registry_from_info}
use horus_controller.GoMap.{load}
use horus_controller.Prelude.{
  ◌>>=◌, ℕ, List, [], ◌∷◌, Outcome, deref, returned, crashed, ok, err, number_key,
}

-- How a call to the central controller ends: with no connection, with an error, or with an answer.
pub data Answer (A : Type 0) : Type 0 where
  no_connection rpc_failed : Answer A
  answered : A → Answer A

-- NewDCNFromTopoInfo with its registry; a nil message ends the process.
unfoldable pub topology_from : Answer TopoInfo → Outcome Topology
topology_from no_connection = crashed
topology_from rpc_failed = crashed
topology_from (answered info) = do
  registry ← new_asic_registry_from_info info.asics info.port_config
  new_dcn info registry

-- FetchTopology of the leaf with an ID, which must be in the message.
unfoldable pub fetch_topology : ℕ → Answer TopoInfo → Outcome Topology
unfolding topology_from
fetch_topology id answer = do t ← topology_from answer; l ← deref (load id t.leaves); returned t

-- The loop over the clusters: those that are refused are logged.
unfoldable pub add_clusters : List VcInfo → Topology → VcManager → VcManager
add_clusters [] t m = m
add_clusters (info ∷ infos) t m =
    add_clusters infos t (elim (new_vc info t) [ err e ↦ m | ok vc ↦ (add_vc vc t m).0 ])

-- FetchVCs of a leaf: an error of the call reads as no clusters.
unfoldable pub fetch_leaf_vcs : Answer (List VcInfo) → Topology → VcManager → VcManager
unfolding add_clusters
fetch_leaf_vcs no_connection t m = m
fetch_leaf_vcs rpc_failed t m = m
fetch_leaf_vcs (answered infos) t m = add_clusters infos t m

-- The same in Start of a spine: an error of the call is a nil answer, which ends the process.
unfoldable pub fetch_spine_vcs : Answer (List VcInfo) → Topology → VcManager → Outcome VcManager
unfolding add_clusters
fetch_spine_vcs no_connection t m = returned m
fetch_spine_vcs rpc_failed t m = crashed
fetch_spine_vcs (answered infos) t m = returned (add_clusters infos t m)
