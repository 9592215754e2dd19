-- ===== src/Topology/Encode.antt =====
-- core/model/topology.go: EncodeToTopoInfo and EncodeToTopoInfoAtLeaf, by which the central controller
-- hands the topology to the others, with the encoders of core/model/asic.go and core/model/port.go.
pub mod Restricted
use horus_controller.Prelude.{
  ℕ, String, Option, none, some, List, [], ◌∷◌, map, ltb, if◌then◌else◌, ◌==◌, Outcome, ◌>>=◌,
  deref, returned, number_key, text_key,
}
use horus_controller.Prelude.Words.{u16, u32, add16, sub16}
use horus_controller.GoMap.{load, values}
use horus_controller.Info.{
  AsicInfo, ClientInfo, LeafInfo, PortConfigInfo, PortInfo, ServerInfo, SpineInfo, TopoInfo,
}
use horus_controller.Asic.{Asic, AsicRegistry, Port, PortConfig}
use horus_controller.Node.{Node, Nodes}
use horus_controller.Topology.State.{Topology}

abbrev pub config_info : PortConfig → PortConfigInfo
config_info c = record { id = c.id; speed = c.speed; fec = c.fec; an = c.an }

unfoldable pub port_to_info : Port → PortInfo
port_to_info p = record {
  id = p.spec.id;
  cage = u32 p.spec.cage;
  lane = u32 p.spec.lane;
  dev_port = p.dev_port;
  port_config = some (config_info p.config);
}

unfoldable pub asic_to_info : Asic → AsicInfo
unfolding port_to_info
asic_to_info a = record {
  id = a.id;
  program = a.program;
  device_id = u32 a.device_id;
  pipe_id = u32 a.pipe_id;
  ctrl_address = a.ctrl_address;
  ctrl_api = a.ctrl_api;
  ports_info = map port_to_info (values a.port_registry.port_map);
}

-- The loop breaks after the first ASIC, whose configurations stand for those of all.
unfoldable pub encode_to_port_config_info : AsicRegistry → List PortConfigInfo
encode_to_port_config_info registry = elim (values registry.asic_map) [
  | [] ↦ []
  | asic ∷ _ ↦ map config_info (values asic.port_registry.config_map)
]

unfoldable pub encode_to_asic_info : AsicRegistry → List AsicInfo
unfolding asic_to_info
encode_to_asic_info registry = map asic_to_info (values registry.asic_map)

unfoldable pub get_asic_info : String → List AsicInfo → Option AsicInfo
get_asic_info id [] = none
get_asic_info id (a ∷ rest) =
    let later = get_asic_info id rest in if a.id == id then some a else later

-- The inner loop of getPortInfo.
unfoldable pub port_in : String → List PortInfo → Option PortInfo
port_in id [] = none
port_in id (p ∷ rest) = let later = port_in id rest in if p.id == id then some p else later

unfoldable pub get_port_info : String → String → List AsicInfo → Option PortInfo
unfolding port_in
get_port_info asic id [] = none
get_port_info asic id (a ∷ rest) =
    let later = get_port_info asic id rest in
    if a.id == asic
    then elim (port_in id a.ports_info) [ none ↦ later | some p ↦ some p ]
    else later

-- A client with no port is a nil dereference.
unfoldable pub get_client_info : List AsicInfo → Nodes → List ℕ → Outcome (List ClientInfo)
unfolding get_asic_info get_port_info
get_client_info asics nodes [] = returned []
get_client_info asics nodes (a ∷ rest) = do
  port ← deref (nodes a).port
  infos ← get_client_info asics nodes rest
  returned (
      record {
        id = (nodes a).id;
        address = (nodes a).address;
        asic = get_asic_info port.asic asics;
        port = get_port_info port.asic port.spec asics;
      }
      ∷ infos)

-- The number of workers that the message says.
unfoldable pub encoded_count : Node → ℕ
encoded_count n =
    if ltb n.first_worker_id n.last_worker_id
    then add16 (sub16 n.last_worker_id n.first_worker_id) 1
    else 0

-- The loop over the servers of a leaf; the ID of the leaf stays 0 in the message.
unfoldable pub encode_servers : String → List AsicInfo → Nodes → List ℕ → Outcome (List ServerInfo)
unfolding get_port_info encoded_count
encode_servers asic asics nodes [] = returned []
encode_servers asic asics nodes (a ∷ rest) = do
  port ← deref (nodes a).port
  infos ← encode_servers asic asics nodes rest
  returned (
      record {
        id = (nodes a).id;
        address = (nodes a).address;
        workers_count = encoded_count (nodes a);
        leaf_id = 0;
        port = get_port_info asic port.spec asics;
      }
      ∷ infos)

-- The message of a leaf of the spine with the ID.
unfoldable pub encode_leaf : ℕ → List AsicInfo → Nodes → ℕ → Outcome LeafInfo
unfolding get_asic_info get_port_info encode_servers
encode_leaf spine_id asics nodes a = do
  let n = nodes a
  ds ← deref n.ds_port
  us ← deref n.us_port
  servers ← encode_servers ds.asic asics nodes n.children
  returned (record {
    id = n.id;
    index = n.index;
    address = n.address;
    mgmt_address = n.mgmt_address;
    servers = servers;
    spine_id = spine_id;
    asic = get_asic_info ds.asic asics;
    ds_port = get_port_info ds.asic ds.spec asics;
    us_port = get_port_info ds.asic us.spec asics;
  })

unfoldable pub encode_leaves : ℕ → List AsicInfo → Nodes → List ℕ → Outcome (List LeafInfo)
unfolding encode_leaf
encode_leaves spine_id asics nodes [] = returned []
encode_leaves spine_id asics nodes (a ∷ rest) = do
  info ← encode_leaf spine_id asics nodes a
  infos ← encode_leaves spine_id asics nodes rest
  returned (info ∷ infos)

-- The loop over the spines.
unfoldable pub encode_spines : List AsicInfo → Nodes → List ℕ → Outcome (List SpineInfo)
unfolding encode_leaves
encode_spines asics nodes [] = returned []
encode_spines asics nodes (a ∷ rest) = do
  let n = nodes a
  asic ← deref n.asic
  leaves ← encode_leaves n.id asics nodes n.children
  infos ← encode_spines asics nodes rest
  returned (
      record { id = n.id; address = n.address; leaves = leaves; asic = get_asic_info asic asics }
      ∷ infos)

unfoldable pub encode_to_topo_info : Topology → Outcome TopoInfo
unfolding encode_spines get_client_info
encode_to_topo_info t = do
  let asics = encode_to_asic_info t.asic_registry
  clients ← get_client_info asics t.nodes (values t.clients)
  spines ← encode_spines asics t.nodes (values t.spines)
  returned (record {
    spines = spines;
    clients = clients;
    asics = asics;
    port_config = encode_to_port_config_info t.asic_registry;
  })

-- The answer is nil where the leaf is not there or has no spine.
unfoldable pub encode_to_topo_info_at_leaf : LeafInfo → Topology → Outcome (Option TopoInfo)
unfolding encode_leaf get_client_info
encode_to_topo_info_at_leaf info t = do
  let asics = encode_to_asic_info t.asic_registry
  clients ← get_client_info asics t.nodes (values t.clients)
  elim (load (u16 info.id) t.leaves) [
    | none ↦ returned none
    | some a ↦ elim (t.nodes a).parent [
      | none ↦ returned none
      | some p ↦ do
        s ← deref (load (t.nodes p).id t.spines)
        let n = t.nodes s
        asic ← deref n.asic
        leaf ← encode_leaf n.id asics t.nodes a
        returned (
            some (record {
              spines =
                  record {
                    id = n.id;
                    address = n.address;
                    leaves = leaf ∷ [];
                    asic = get_asic_info asic asics;
                  }
                  ∷ [];
              clients = clients;
              asics = asics;
              port_config = encode_to_port_config_info t.asic_registry;
            }))
    ]
  ]
