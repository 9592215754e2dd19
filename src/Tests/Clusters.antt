-- ===== src/Tests/Clusters.antt =====
-- Virtual clusters over the topology of Fixture.
use horus_controller.Rpc.Reindexed.{fail_leaf_reindexed}
use horus_controller.Rpc.Spine
use horus_controller.Topology.RemoveLeaf.Effect.{LeafRemoved}
use horus_controller.Rpc.Told.{fail_leaf_told}
use horus_controller.VcManager.Consistent.{
  IsConsistent, add_vc-IsConsistent, remove_vc-IsConsistent,
}
use horus_controller.Rpc.State.{RpcServer}
use horus_controller.Rpc.Untold.{fail_server_untold}
use horus_controller.Rpc.Central
use horus_controller.Topology.RemoveServer.Effect
use horus_controller.Tests.Fixture.{up_port, fixture, fixture-IsValid}
use horus_controller.Prelude.{
  some, ℕ, ◌≡◌, refl, false, none, [], ◌∷◌, arith, returned, ok, elem, number_key, text_key,
}
use horus_controller.GoMap.{store, delete, load}
use horus_controller.Info.{LeafInfo, ServerInfo, VcInfo, ok_status}
use horus_controller.Vc.{add_spines, add_servers, VirtualCluster, new_vc}
use horus_controller.VcManager.{list_at, add_vc, remove_vc, VcManager}

-- A cluster of the spine and of a server of each leaf.
abbrev cluster_info : VcInfo
cluster_info = record {
  id = 9;
  spines = 1 ∷ [];
  servers = record { id = 40; workers_ids = [] } ∷ record { id = 42; workers_ids = [] } ∷ [];
}

abbrev cluster : VirtualCluster
cluster = record {
  cluster_id = 9;
  spines = (1, 1) ∷ [];
  leaves = (20, 2) ∷ (21, 3) ∷ [];
  servers = (40, 4) ∷ (42, 6) ∷ [];
}

abbrev no_cluster : VirtualCluster
no_cluster = record { cluster_id = 0; spines = []; leaves = []; servers = [] }

abbrev pub no_clusters : VcManager
no_clusters = record {
  objects = λ o. no_cluster;
  next = 0;
  vcs = [];
  server_vcs = [];
  leaf_vcs = [];
}

no_clusters-IsConsistent : IsConsistent fixture no_clusters
unfolding load
no_clusters-IsConsistent = record {
  registered = λ k o h. ground arith;
  server_lists = λ s o. ground arith;
  leaf_lists = λ l o. ground arith;
  server_distinct = λ s. tt;
  leaf_distinct = λ l. tt;
}

cluster_made : new_vc cluster_info fixture ≡ ok cluster
unfolding new_vc add_spines add_servers load store delete
cluster_made = refl

add_vc-IsConsistent_example : IsConsistent fixture (add_vc cluster fixture no_clusters).0
add_vc-IsConsistent_example =
    add_vc-IsConsistent cluster_info cluster fixture no_clusters no_clusters-IsConsistent
      cluster_made

abbrev one_cluster : VcManager
one_cluster = (add_vc cluster fixture no_clusters).0

remove_vc-IsConsistent_example :
    IsConsistent fixture (remove_vc 0 fixture one_cluster).0
    × (load (one_cluster.objects 0).cluster_id (remove_vc 0 fixture one_cluster).0.vcs ≡ none)
    × ((s : ℕ) → elem 0 (list_at s (remove_vc 0 fixture one_cluster).0.server_vcs) ≡ false)
    × ((l : ℕ) → elem 0 (list_at l (remove_vc 0 fixture one_cluster).0.leaf_vcs) ≡ false)
remove_vc-IsConsistent_example =
    remove_vc-IsConsistent 0 fixture one_cluster add_vc-IsConsistent_one
      (unfold add_vc in unfold load in unfold store in refl)
  where
    add_vc-IsConsistent_one : IsConsistent fixture one_cluster
    add_vc-IsConsistent_one =
        add_vc-IsConsistent cluster_info cluster fixture no_clusters no_clusters-IsConsistent
          cluster_made

abbrev failed_info : ServerInfo
failed_info = record { id = 40; address = ""; workers_count = 2; leaf_id = 20; port = none }

abbrev pub central : RpcServer
central = record {
  topology = fixture;
  vcm = no_clusters;
  out = record {
    failed_leaves = [];
    failed_servers = [];
    new_leaves = [];
    new_servers = [];
    enabled_ports = [];
    disabled_ports = [];
    new_vcs = [];
    updated_leaves = [];
    updated_servers = [];
  };
}

fail_server_untold_example :
    (s' : RpcServer) × (Central.fail_server failed_info central ≡ returned (s', ok_status))
    × (s'.out ≡ central.out)
    × (load 40 s'.topology.servers ≡ none)
    × (s'.topology ≡ Effect.removed 40 4 fixture)
fail_server_untold_example =
    fail_server_untold failed_info 4 central fixture-IsValid (unfold load in refl)
      (unfold load in refl)

abbrev failed_leaf : LeafInfo
failed_leaf = record {
  id = 20;
  index = 0;
  address = "";
  mgmt_address = "";
  servers = [];
  spine_id = 1;
  asic = none;
  ds_port = none;
  us_port = none;
}

fail_leaf_told_example :
    (s' : RpcServer) × (Central.fail_leaf failed_leaf central ≡ returned (s', ok_status))
    × LeafRemoved 20 2 1 fixture s'.topology
    × (s'.out ≡ (
        let c = central.out in
        record c {
          failed_leaves = record { leaf = failed_leaf; dsts = 1 ∷ [] } ∷ [];
          disabled_ports =
              record { port = some up_port }
              ∷ record { port = some up_port }
              ∷ record { port = some up_port }
              ∷ record { port = some up_port }
              ∷ [];
        }))
fail_leaf_told_example =
    fail_leaf_told failed_leaf 2 central fixture-IsValid (unfold load in refl) (unfold load in refl)

fail_leaf_reindexed_example :
    (s' : RpcServer) × (Spine.fail_leaf failed_leaf central ≡ returned (s', ok_status))
    × LeafRemoved 20 2 1 fixture s'.topology
    × (s'.out ≡ (
        let c = central.out in
        record c {
          updated_leaves = record { leaves = 3 ∷ [] } ∷ [];
          failed_leaves = record { leaf = failed_leaf; dsts = 2 ∷ [] } ∷ [];
        }))
fail_leaf_reindexed_example =
    fail_leaf_reindexed failed_leaf 2 central fixture-IsValid (unfold load in refl)
      (unfold load in refl)
