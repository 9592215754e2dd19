-- ===== src/Controller/Start.antt =====
-- ctrl_mgr/controller.go: StartBare of a leaf controller, up to the start of its goroutines.
pub mod Served
use horus_controller.Switch.Leaf.Handlers.{leaf_init_v1, leaf_init_v2}
use horus_controller.Switch.{SwitchClient}
use horus_controller.Controller.{Answer, fetch_topology, fetch_leaf_vcs}
use horus_controller.Info.{TopoInfo, VcInfo}
use horus_controller.VcManager.{VcManager}
use horus_controller.Topology.State.{Topology, get_node}
use horus_controller.GoMap.{values}
use horus_controller.Node.{leaf}
use horus_controller.Prelude.{
  ◌>>=◌, ◌==◌, ℕ, String, Option, List, [], Outcome, returned, crashed, if◌then◌else◌, number_key,
  text_key,
}

-- NewVCManager: there are no clusters.
abbrev pub no_clusters : VcManager
no_clusters = record {
  objects = λ o. record { cluster_id = 0; spines = []; leaves = []; servers = [] };
  next = 0;
  vcs = [];
  server_vcs = [];
  leaf_vcs = [];
}

module _ (c : SwitchClient) where
  open c use {State}

  -- The control plane that the configuration names, and its Init; the fake one writes nothing.
  unfoldable pub init_leaf_cp : String → List ℕ → Topology → Option ℕ → State → Outcome State
  unfolding leaf_init_v1 leaf_init_v2 values
  init_leaf_cp api spines t l s =
      if api == "fake"
      then returned s
      else (if api == "v1"
          then leaf_init_v1 c t (values t.spines) (values t.clients) spines l s
          else (if api == "v2"
              then leaf_init_v2 c t (values t.spines) (values t.clients) spines l s
              else crashed))

  -- StartBare, with the topology fetched.
  unfoldable pub start_bare :
      String
      → List ℕ
      → ℕ
      → Answer TopoInfo
      → Answer (List VcInfo)
      → State
      → Outcome (Topology × VcManager × State)
  unfolding fetch_topology fetch_leaf_vcs init_leaf_cp
  start_bare api spines id topo vcs s = do
    t ← fetch_topology id topo
    let m = fetch_leaf_vcs vcs t no_clusters
    l ← get_node id leaf t
    s' ← init_leaf_cp api spines t l s
    returned (t, m, s')
