-- ===== src/Controller/Start/Served.antt =====
-- What a leaf controller has when it has started (ctrl_mgr/controller.go: StartBare).
use horus_controller.Topology.Numbering.Unique.{laid_out_unique}
use horus_controller.Topology.Numbering.Owners.{owns, sum_of}
use horus_controller.Topology.Valid.{parent_at, IsValid}
use horus_controller.Topology.Numbering.{counts_of, IsNumbered}
use horus_controller.Switch.Leaf.Start.{HasCells, leaf_init-IsServed}
use horus_controller.VcManager.{VcManager}
use horus_controller.Controller.Start.{init_leaf_cp, start_bare, no_clusters}
use horus_controller.Switch.Workers.{dev_port}
use horus_controller.Controller.Clusters.{add_clusters-IsConsistent}
use horus_controller.Controller.{
  fetch_topology, Answer, no_connection, rpc_failed, answered, fetch_leaf_vcs,
}
use horus_controller.VcManager.Consistent.{IsConsistent}
use horus_controller.Info.{TopoInfo, VcInfo}
use horus_controller.Topology.State.{Topology}
use horus_controller.Switch.Leaf.Handlers.{leaf_init_v1, leaf_init_v2}
use horus_controller.Switch.Leaf.Forward.{IsKnown, IsServed, forward_table, dst_key}
use horus_controller.Switch.Leaf.{worker_index, node_ids, leaf_init_all}
use horus_controller.Switch.Writes.{run_writes_lem}
use horus_controller.Switch.{SwitchClient, put}
use horus_controller.GoMap.{values, load}
use horus_controller.Switch.Leaf.Tracked.{HasTracking, not_empty}
use horus_controller.Prelude.{
  String, ◌⊎◌, inl, inr, true, false, ◌&&◌, ◌++◌, nat_beq, All, elem, ◌≡◌, ◌≢◌, ◌∙◌, ◌<◌, refl, ℕ,
  List, [], ◌∷◌, arith, some, returned, number_key, text_key,
}

no_clusters-IsConsistent : (t : Topology) → IsConsistent t no_clusters
unfolding load
no_clusters-IsConsistent t = record {
  registered = λ k o h. absurd (ground (arith, h));
  server_lists = λ s o. refl;
  leaf_lists = λ l o. refl;
  server_distinct = λ s. tt;
  leaf_distinct = λ l. tt;
}

fetched-IsConsistent :
    (vcs : Answer (List VcInfo)) (t : Topology) → IsConsistent t (fetch_leaf_vcs vcs t no_clusters)
unfolding fetch_leaf_vcs
fetched-IsConsistent no_connection t = no_clusters-IsConsistent t
fetched-IsConsistent rpc_failed t = no_clusters-IsConsistent t
fetched-IsConsistent (answered infos) t =
    add_clusters-IsConsistent infos t no_clusters (no_clusters-IsConsistent t)

module _ (c : SwitchClient) where
  open c use {State}

  init_v2-IsServed :
      (t : Topology) (ups clients spines : List ℕ) (l : ℕ) (port mac : ℕ → ℕ) (s s1 : State)
      → (t.nodes l).children ≢ []
      → HasTracking c (t.nodes l).index
      → leaf_init_all c t ups clients spines l s ≡ returned s1
      → IsServed c t.nodes (t.nodes l).id port mac (t.nodes l).children s1
      → (s' : State) × (leaf_init_v2 c t ups clients spines (some l) s ≡ returned s')
        × IsServed c t.nodes (t.nodes l).id port mac (t.nodes l).children s'
  unfolding leaf_init_v2
  init_v2-IsServed t ups clients spines l port mac s s1 some_there cells ran served =
      let n = t.nodes l in
      let (x, xs, kids) = not_empty n.children some_there in
      let (s', ran', w) =
        run_writes_lem c
          (put "pipe_leaf.LeafIngress.worker_id_map_1" n.index (t.nodes x).first_worker_id
            ∷ put "pipe_leaf.LeafIngress.worker_id_map_2" n.index (t.nodes x).last_worker_id
            ∷ put "pipe_leaf.LeafIngress.queue_len_list_low" n.index 1
            ∷ put "pipe_leaf.LeafIngress.queue_len_list_high" n.index 1
            ∷ [])
          s1 (cells.first, (cells.second, (cells.low, (cells.high, tt)))) in
      (
        s',
        ground (arith, ran, kids, ran'),
        λ a wid m o. w.entries forward_table (dst_key n.id wid) ∙ served a wid m o,
      )

  -- StartBare of a leaf controller of either version, whose fetched topology is well formed and has the leaf
  -- with consecutive worker IDs, fewer than 2^16 of them and one or more for each server: it
  -- returns, the lists of the clusters are in step with them, and every worker ID of the leaf leads
  -- to the port and the MAC address of the server that owns it.
  pub start_bare-IsServed :
      (api : String) (first : ℕ) (rest : List ℕ) (id l up : ℕ) (topo : Answer TopoInfo)
      (vcs : Answer (List VcInfo)) (t : Topology) (port mac : ℕ → ℕ) (s : State)
      → (api ≡ "v1")
        ⊎ ((api ≡ "v2") × ((t.nodes l).children ≢ []) × HasTracking c (t.nodes l).index)
      → fetch_topology id topo ≡ returned t
      → IsValid t
      → load id t.leaves ≡ some l
      → IsNumbered t.nodes l
      → All (λ a. 0 < counts_of t.nodes a) (t.nodes l).children
      → sum_of (counts_of t.nodes) (t.nodes l).children < 65536
      → dev_port t (t.nodes l).us_port ≡ returned up
      → ((a : ℕ) → elem a (t.nodes l).children ≡ true → IsKnown c t port mac a)
      → ((a wid uid : ℕ)
          → elem a (t.nodes l).children ≡ true
          → owns (t.nodes a) wid ≡ true
          → elem uid (node_ids t.nodes (values t.spines) ++ node_ids t.nodes (values t.clients))
            ≡ true
          → (nat_beq uid (worker_index (t.nodes l).id wid)
              && nat_beq (t.nodes l).index (t.nodes l).id)
            ≡ false)
      → HasCells c (t.nodes l).id
      → (m : VcManager) × (s' : State) × (start_bare c api (first ∷ rest) id topo vcs s
          ≡ returned (t, m, s'))
        × IsConsistent t m
        × IsServed c t.nodes (t.nodes l).id port mac (t.nodes l).children s'
  unfolding start_bare init_leaf_cp leaf_init_v1
  start_bare-IsServed api first rest id l up topo vcs t port mac s version fetched v at_leaf
        numbered some_workers few at_up known free cells =
      let old = v.leaves_ok id l at_leaf in
      let (s1, ran, served) =
        leaf_init-IsServed c t (values t.spines) (values t.clients) first rest l
          (parent_at (t.nodes l)) up port mac s old.parent_eq at_up known
          (λ a b wid m n o p.
            laid_out_unique t.nodes (counts_of t.nodes) wid a b (t.nodes l).children
              numbered.laid_out some_workers few m n o p)
          free cells in
      elim version [
        | inl v1 ↦ (
          fetch_leaf_vcs vcs t no_clusters,
          s1,
          rw (v1, fetched) (rw at_leaf (rw ran refl)),
          fetched-IsConsistent vcs t,
          served,
        )
        | inr (v2, kids, tracking) ↦
            let (s2, ran2, served2) =
              init_v2-IsServed t (values t.spines) (values t.clients) (first ∷ rest) l port mac s s1
                kids tracking ran served in
            (
              fetch_leaf_vcs vcs t no_clusters,
              s2,
              rw (v2, fetched) (rw at_leaf (rw ran2 refl)),
              fetched-IsConsistent vcs t,
              served2,
            )
      ]
