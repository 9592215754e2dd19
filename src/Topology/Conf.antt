-- ===== src/Topology/Conf.antt =====
-- core/model/topology.go: NewDCNFromConf, by which the central controller makes its topology from the
-- configuration of core/model/config.go. The registry of ASICs is given, as in Topology.Build.
pub mod Agrees
use horus_controller.Topology.Build.{no_topology, put_child}
use horus_controller.Topology.State.{Topology, find_asic, find_port, or_fatal}
use horus_controller.Node.{new_node, new_client, new_spine}
use horus_controller.Asic.{AsicRegistry}
use horus_controller.GoMap.{store}
use horus_controller.Prelude.Words.{add16, sub16}
use horus_controller.Node.{new_server, new_leaf, write, core}
use horus_controller.Prelude.{
  ℕ, ◌+◌, String, List, [], ◌∷◌, get_elem?, Outcome, deref, returned, number_key, ◌>>=◌,
}

pub record ClientConfig : Type 0 where
  pub id : ℕ  -- uint16
  pub port : String
  pub asic : String

pub record SpineConfig : Type 0 where
  pub id : ℕ  -- uint16
  pub address : String
  pub leaf_ids : List ℕ
  pub asic : String

pub record LeafConfig : Type 0 where
  pub id : ℕ  -- uint16
  pub index : ℕ  -- uint16
  pub address : String
  pub mgmt_address : String
  pub server_ids : List ℕ
  pub asic : String
  pub us_port : String
  pub ds_port : String

pub record ServerConfig : Type 0 where
  pub id : ℕ  -- uint16
  pub port : String
  pub address : String
  pub workers_count : ℕ  -- uint16

pub record TopoConfig : Type 0 where
  pub clients : List ClientConfig
  pub spines : List SpineConfig
  pub leaves : List LeafConfig
  pub servers : List ServerConfig

module _ (cfg : TopoConfig) where
  -- The loop over the servers of the leaf `l`. A server is named by its place in the configuration.
  unfoldable pub conf_servers : String → ℕ → List ℕ → ℕ → Topology → Outcome (Topology × ℕ)
  unfolding new_server
  conf_servers asic l [] w t = returned (t, w)
  conf_servers asic l (server_id ∷ server_ids) w t = do
    conf ← deref (get_elem? cfg.servers server_id)
    port ← or_fatal (find_port asic conf.port t.asic_registry)
    let fresh = new_server conf.address conf.id port
    let next = add16 w conf.workers_count
    let t' = put_child (record fresh { first_worker_id = w; last_worker_id = sub16 next 1 }) l t
    conf_servers asic l server_ids next (record t' { servers = store conf.id t.next t'.servers })

  -- The body of the loop over the leaves of the spine `s`, with the configuration of the leaf.
  unfoldable pub conf_leaf : ℕ → LeafConfig → Topology → Outcome Topology
  unfolding conf_servers new_leaf
  conf_leaf s conf t = do
    ds ← or_fatal (find_port conf.asic conf.ds_port t.asic_registry)
    us ← or_fatal (find_port conf.asic conf.us_port t.asic_registry)
    let l = t.next
    let fresh = new_leaf conf.address conf.mgmt_address conf.id ds us
    let t' = put_child (record fresh { index = conf.index; first_worker_id = 0 }) s t
    built ← conf_servers conf.asic l conf.server_ids 0 t'
    let b = built.0
    returned (record b {
      nodes = write l (record (b.nodes l) { last_worker_id = sub16 built.1 1 }) b.nodes;
      leaves = store conf.id l b.leaves;
    })

  unfoldable pub conf_leaves : ℕ → List ℕ → Topology → Outcome Topology
  unfolding conf_leaf
  conf_leaves s [] t = returned t
  conf_leaves s (leaf_id ∷ leaf_ids) t = do
    conf ← deref (get_elem? cfg.leaves leaf_id)
    t' ← conf_leaf s conf t
    conf_leaves s leaf_ids t'

  -- The loop over the spines.
  unfoldable pub conf_spines : List SpineConfig → Topology → Outcome Topology
  unfolding conf_leaves new_spine
  conf_spines [] t = returned t
  conf_spines (conf ∷ confs) t = do
    asic ← or_fatal (find_asic conf.asic t.asic_registry)
    let s = t.next
    let t' = put_child (new_spine conf.address conf.id asic.id) t.root t
    built ← conf_leaves s conf.leaf_ids (record t' { spines = store conf.id s t'.spines })
    conf_spines confs built

-- The loop over the clients.
unfoldable pub conf_clients : List ClientConfig → Topology → Outcome Topology
unfolding new_client
conf_clients [] t = returned t
conf_clients (conf ∷ confs) t = do
  port ← or_fatal (find_port conf.asic conf.port t.asic_registry)
  let a = t.next
  conf_clients confs (record t {
    nodes = write a (new_client conf.id port) t.nodes;
    next = a + 1;
    clients = store conf.id a t.clients;
  })

unfoldable pub new_dcn_from_conf : TopoConfig → AsicRegistry → Outcome Topology
unfolding conf_clients conf_spines new_node
new_dcn_from_conf cfg registry = do
  with_clients ← conf_clients cfg.clients (no_topology registry)
  let root = with_clients.next
  conf_spines cfg cfg.spines (record with_clients {
    nodes = write root (new_node "" "" 0 0 core) with_clients.nodes;
    next = root + 1;
    root = root;
    cores = store 0 root with_clients.cores;
  })
