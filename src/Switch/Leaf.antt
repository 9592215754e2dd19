-- ===== src/Switch/Leaf.antt =====
-- ctrl_mgr/cp.go: the tables and registers of the switch of a leaf, in both versions of the data plane.
pub mod Forward
pub mod Handlers
pub mod Tracked
pub mod Served
pub mod Start
pub mod StartWrites
pub mod Idle
pub mod AfterRemoval
pub mod AfterAddition
use horus_controller.Switch.Mac.{mac_data}
use horus_controller.Switch.Workers.{dev_port, count_workers, qlen_unit, each_worker, worker_fuel}
use horus_controller.Switch.Spine.{exact}
use horus_controller.Switch.{
  SwitchClient, bytes_data, str_data, bool_data, Write, upsert, put, run_writes,
}
use horus_controller.Topology.State.{Topology}
use horus_controller.Node.{Node, Nodes}
use horus_controller.Prelude.{
  ◌%◌, ℕ, suc, zero, ◌+◌, ◌*◌, Bool, true, List, [], ◌∷◌, ◌++◌, Outcome, returned, ◌>>=◌, deref,
  ltb, if◌then◌else◌, get_elem?, length,
}
use horus_controller.Prelude.Words.{u16, add16}

-- `leaf.ID*model.MAX_VCLUSTER_WORKERS + wid`
abbrev pub worker_index : ℕ → ℕ → ℕ
worker_index leaf_id wid = add16 (u16 (leaf_id * 16)) wid

abbrev pub leaf_forward : ℕ → ℕ → ℕ → ℕ → Write
leaf_forward dst pool port mac =
    upsert "pipe_leaf.LeafIngress.forward_horus_switch_dst"
      (exact "hdr.horus.dst_id" dst ∷ exact "hdr.horus.pool_id" pool ∷ [])
      "LeafIngress.act_forward_horus" (bytes_data "port" port ∷ bytes_data "dst_mac" mac ∷ [])

abbrev pub mirror : ℕ → ℕ → Write
mirror key port = upsert "$mirror.cfg" (exact "$sid" key ∷ []) "$normal" (
    str_data "$direction" "INGRESS"
    ∷ bytes_data "$ucast_egress_port" port
    ∷ bool_data "$ucast_egress_port_valid" true
    ∷ bool_data "$session_enable" true
    ∷ [])

abbrev pub set_num_valid : ℕ → ℕ → ℕ → Write
set_num_valid pool workers spines =
    upsert "pipe_leaf.LeafIngress.get_cluster_num_valid" (exact "hdr.horus.pool_id" pool ∷ [])
      "LeafIngress.act_get_cluster_num_valid"
      (bytes_data "num_ds_elements" workers ∷ bytes_data "num_us_elements" spines ∷ [])

abbrev pub set_unit : ℕ → ℕ → Write
set_unit pool unit =
    upsert "pipe_leaf.LeafIngress.set_queue_len_unit" (exact "hdr.horus.pool_id" pool ∷ [])
      "LeafIngress.act_set_queue_len_unit" (bytes_data "cluster_unit" unit ∷ [])

-- `n` entries for the spines, from `i` on; all have the first spine of the configuration.
abbrev pub spine_dst_writes : ℕ → ℕ → ℕ → ℕ → List Write
spine_dst_writes zero i pool spine_id = []
spine_dst_writes (suc n) i pool spine_id =
    upsert "pipe_leaf.LeafIngress.get_spine_dst_id"
      (exact "horus_md.random_id_1" i ∷ exact "hdr.horus.pool_id" pool ∷ [])
      "LeafIngress.act_get_spine_dst_id" (bytes_data "spine_dst_id" spine_id ∷ [])
    ∷ spine_dst_writes n (suc i) pool spine_id

abbrev pub node_ids : Nodes → List ℕ → List ℕ
node_ids nodes [] = []
node_ids nodes (a ∷ rest) = (nodes a).id ∷ node_ids nodes rest

module _ (c : SwitchClient) where
  open c use {State, read_register}

  -- The entry of the worker `wid` of a server.
  unfoldable pub forward_worker : Topology → ℕ → Node → ℕ → State → Outcome State
  unfolding mac_data dev_port run_writes
  forward_worker t leaf_id server wid s = do
    mac ← mac_data server.address
    port ← dev_port t server.port
    run_writes c (leaf_forward (worker_index leaf_id wid) leaf_id port mac ∷ []) s

  -- The body of the loop over the workers in LeafCPInitAllVer.
  unfoldable pub init_worker : Topology → ℕ → Node → ℕ → State → Outcome State
  unfolding forward_worker run_writes
  init_worker t leaf_id server wid s = do
    let index = worker_index leaf_id wid
    s1 ← run_writes c (put "pipe_leaf.LeafIngress.idle_list" index index ∷ []) s
    forward_worker t leaf_id server wid s1

  -- The loop over the servers in LeafCPInitAllVer.
  unfoldable pub init_workers : Topology → ℕ → List ℕ → State → Outcome State
  unfolding each_worker init_worker
  init_workers t leaf_id [] s = returned s
  init_workers t leaf_id (a ∷ rest) s = do
    let n = t.nodes a
    s1 ← each_worker worker_fuel n.first_worker_id n.last_worker_id (init_worker t leaf_id n) s
    init_workers t leaf_id rest s1

  -- The loop over the spines and clients in LeafCPInitAllVer.
  unfoldable pub init_upstream : Topology → Node → List ℕ → State → Outcome State
  unfolding dev_port run_writes
  init_upstream t n [] s = returned s
  init_upstream t n (uid ∷ uids) s = do
    port ← dev_port t n.us_port
    s1 ← run_writes c (mirror (uid + n.index) port ∷ leaf_forward uid n.index port 100 ∷ []) s
    init_upstream t n uids s1

  -- LeafCPInitAllVer. `spines` are the IDs of the spines of the configuration; `ups` and `clients` are
  -- the nodes of the two maps in the order of their ranges.
  unfoldable pub leaf_init_all : Topology → List ℕ → List ℕ → List ℕ → ℕ → State → Outcome State
  unfolding init_workers init_upstream count_workers qlen_unit run_writes
  leaf_init_all t ups clients spines a s = do
    let n = t.nodes a
    parent ← deref n.parent
    s1 ← init_workers t n.id n.children s
    let count = count_workers t.nodes n.children 0
    s2 ← init_upstream t n (node_ids t.nodes ups ++ node_ids t.nodes clients) s1
    let num_spines = if ltb (length spines) 2 then 2 else length spines
    s3 ←
        run_writes c
          (put "pipe_leaf.LeafIngress.idle_count" n.id count
            ∷ set_num_valid n.id count num_spines
            ∷ [])
          s2
    first ← deref (get_elem? spines 0)
    run_writes c
        (spine_dst_writes num_spines 0 n.id first
          ++ set_unit n.id (qlen_unit count)
            ∷ put "pipe_leaf.LeafIngress.linked_iq_sched" n.id (t.nodes parent).id
            ∷ put "pipe_leaf.LeafIngress.linked_sq_sched" n.id (t.nodes parent).id
            ∷ [])
        s3

  -- The loop over the updated servers in OnServerChangeAllVer.
  unfoldable pub forward_servers : Topology → ℕ → List ℕ → State → Outcome State
  unfolding each_worker forward_worker
  forward_servers t leaf_id [] s = returned s
  forward_servers t leaf_id (a ∷ rest) s = do
    let n = t.nodes a
    s1 ← each_worker worker_fuel n.first_worker_id n.last_worker_id (forward_worker t leaf_id n) s
    forward_servers t leaf_id rest s1

  -- The body of the second loop: a new worker in the idle list. The count is a uint64.
  unfoldable pub add_idle : ℕ → ℕ → State × ℕ → Outcome (State × ℕ)
  unfolding run_writes
  add_idle leaf_id wid (s, count) = do
    s1 ←
        run_writes c (put "pipe_leaf.LeafIngress.idle_list" (worker_index leaf_id wid) count ∷ []) s
    returned (s1, (count + 1) % 18446744073709551616)

  unfoldable pub add_idle_servers : Topology → ℕ → List ℕ → State × ℕ → Outcome (State × ℕ)
  unfolding each_worker add_idle
  add_idle_servers t leaf_id [] s = returned s
  add_idle_servers t leaf_id (a ∷ rest) s = do
    let n = t.nodes a
    s1 ← each_worker worker_fuel n.first_worker_id n.last_worker_id (add_idle leaf_id) s
    add_idle_servers t leaf_id rest s1

  -- The block under `if added`. The entry with the new count is made, and not written.
  unfoldable pub add_to_idle_list : Topology → ℕ → List ℕ → State → Outcome State
  unfolding add_idle_servers
  add_to_idle_list t leaf_id updated s = do
    count ← deref (read_register "pipe_leaf.LeafIngress.idle_count" leaf_id s)
    done ← add_idle_servers t leaf_id updated (s, count)
    returned done.0

  -- OnServerChangeAllVer of the leaf `a`.
  unfoldable pub server_change_all : Topology → ℕ → List ℕ → Bool → State → Outcome State
  unfolding forward_servers add_to_idle_list count_workers qlen_unit run_writes
  server_change_all t a updated added s = do
    let n = t.nodes a
    let count = count_workers t.nodes n.children 0
    s1 ← run_writes c (set_num_valid n.id count 2 ∷ set_unit n.id (qlen_unit count) ∷ []) s
    s2 ← forward_servers t n.id updated s1
    if added then add_to_idle_list t n.id updated s2 else returned s2
