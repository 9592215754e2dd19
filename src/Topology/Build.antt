-- ===== src/Topology/Build.antt =====
-- core/model/topology.go: NewDCNFromTopoInfo, by which a controller makes its topology from the message
-- of the central controller. The registry of ASICs is given.
pub mod Servers
pub mod Leaf
pub mod Growth
pub mod WellFormed
pub mod Whole
use horus_controller.Prelude.{
  ℕ, ◌+◌, String, some, List, [], ◌∷◌, ◌++◌, Outcome, ◌>>=◌, deref, returned, number_key, text_key,
}
use horus_controller.Prelude.Words.{u16, add16, sub16}
use horus_controller.GoMap.{store}
use horus_controller.Info.{ClientInfo, LeafInfo, ServerInfo, SpineInfo, TopoInfo}
use horus_controller.Asic.{AsicRegistry}
use horus_controller.Node.{Node, core, new_client, new_leaf, new_node, new_server, new_spine, write}
use horus_controller.Topology.State.{Topology, find_asic, find_port, or_fatal}

-- A new node at `next`, the last child of its parent.
abbrev pub put_child : Node → ℕ → Topology → Topology
put_child n parent t = record t {
  nodes =
      write t.next (record n { parent = some parent })
        (write parent
          (record (t.nodes parent) { children = (t.nodes parent).children ++ t.next ∷ [] })
          t.nodes);
  next = t.next + 1;
}

-- The loop over the servers of the leaf `l`: the topology, and the worker ID behind the last one.
unfoldable pub build_servers : String → ℕ → List ServerInfo → ℕ → Topology → Outcome (Topology × ℕ)
unfolding new_server
build_servers asic l [] w t = returned (t, w)
build_servers asic l (info ∷ infos) w t = do
  port_info ← deref info.port
  port ← or_fatal (find_port asic port_info.id t.asic_registry)
  let fresh = new_server info.address (u16 info.id) port
  let next = add16 w (u16 info.workers_count)
  let t' = put_child (record fresh { first_worker_id = w; last_worker_id = sub16 next 1 }) l t
  build_servers asic l infos next (record t' { servers = store (u16 info.id) t.next t'.servers })

-- The body of the loop over the leaves of the spine `s`.
unfoldable pub build_leaf : ℕ → LeafInfo → Topology → Outcome Topology
unfolding build_servers new_leaf
build_leaf s info t = do
  asic ← deref info.asic
  ds_info ← deref info.ds_port
  us_info ← deref info.us_port
  ds ← or_fatal (find_port asic.id ds_info.id t.asic_registry)
  us ← or_fatal (find_port asic.id us_info.id t.asic_registry)
  let l = t.next
  let fresh = new_leaf info.address info.mgmt_address (u16 info.id) ds us
  let t' = put_child (record fresh { index = u16 info.index; first_worker_id = 0 }) s t
  built ← build_servers asic.id l info.servers 0 t'
  let b = built.0
  returned (record b {
    nodes = write l (record (b.nodes l) { last_worker_id = sub16 built.1 1 }) b.nodes;
    leaves = store (u16 info.id) l b.leaves;
  })

unfoldable pub build_leaves : ℕ → List LeafInfo → Topology → Outcome Topology
unfolding build_leaf
build_leaves s [] t = returned t
build_leaves s (info ∷ infos) t = do t' ← build_leaf s info t; build_leaves s infos t'

-- The loop over the spines.
unfoldable pub build_spines : List SpineInfo → Topology → Outcome Topology
unfolding build_leaves new_spine
build_spines [] t = returned t
build_spines (info ∷ infos) t = do
  asic_info ← deref info.asic
  asic ← or_fatal (find_asic asic_info.id t.asic_registry)
  let s = t.next
  let t' = put_child (new_spine info.address (u16 info.id) asic.id) t.root t
  built ← build_leaves s info.leaves (record t' { spines = store (u16 info.id) s t'.spines })
  build_spines infos built

-- The loop over the clients, which have no parent.
unfoldable pub build_clients : List ClientInfo → Topology → Outcome Topology
unfolding new_client
build_clients [] t = returned t
build_clients (info ∷ infos) t = do
  port_info ← deref info.port
  asic_info ← deref info.asic
  port ← or_fatal (find_port asic_info.id port_info.id t.asic_registry)
  let a = t.next
  build_clients infos (record t {
    nodes = write a (new_client (u16 info.id) port) t.nodes;
    next = a + 1;
    clients = store (u16 info.id) a t.clients;
  })

abbrev pub nobody : Node
nobody = new_node "" "" 0 0 core

-- The maps are empty, and no node is made.
abbrev pub no_topology : AsicRegistry → Topology
no_topology registry = record {
  nodes = λ a. nobody;
  next = 0;
  root = 0;
  clients = [];
  servers = [];
  leaves = [];
  spines = [];
  cores = [];
  asic_registry = registry;
}

-- The root of the tree is made behind the clients.
unfoldable pub new_dcn : TopoInfo → AsicRegistry → Outcome Topology
unfolding build_clients build_spines new_node
new_dcn info registry = do
  with_clients ← build_clients info.clients (no_topology registry)
  let root = with_clients.next
  build_spines info.spines (record with_clients {
    nodes = write root (new_node "" "" 0 0 core) with_clients.nodes;
    next = root + 1;
    root = root;
    cores = store 0 root with_clients.cores;
  })
