-- ===== src/Node.antt =====
-- core/model/node.go: the nodes of the topology tree. A `*Node` is an address of the heap `Nodes`.
use horus_controller.Prelude.{
  ℕ, String, Option, none, some, Bool, false, List, [], nat_beq, if◌then◌else◌,
}
use horus_controller.GoMap.{GoMap}
use horus_controller.Asic.{PortRef}

pub data NodeType : Type 0 where
  server leaf spine core client : NodeType

pub record Node : Type 0 where
  pub address : String
  pub mgmt_address : String
  pub id : ℕ  -- uint16
  pub port_id : ℕ  -- uint16
  pub node_type : NodeType
  pub parent : Option ℕ
  pub children : List ℕ
  pub asic : Option String
  pub port : Option PortRef
  pub ds_port : Option PortRef
  pub us_port : Option PortRef
  pub first_worker_id : ℕ  -- uint16
  pub last_worker_id : ℕ  -- uint16
  pub index : ℕ  -- uint16
  pub last_ping_time : ℕ
  pub healthy : Bool
  pub ready : Bool

unfoldable pub new_node : String → String → ℕ → ℕ → NodeType → Node
new_node address mgmt_address id port_id node_type = record {
  address = address;
  mgmt_address = mgmt_address;
  id = id;
  port_id = port_id;
  node_type = node_type;
  parent = none;
  children = [];
  asic = none;
  port = none;
  ds_port = none;
  us_port = none;
  first_worker_id = 0;
  last_worker_id = 0;
  index = 0;
  last_ping_time = 0;
  healthy = false;
  ready = false;
}

unfoldable pub new_client : ℕ → PortRef → Node
unfolding new_node
new_client id port =
    let n = new_node "" "" id 0 NodeType.client in
    record n { asic = some port.asic; port = some port }

unfoldable pub new_leaf : String → String → ℕ → PortRef → PortRef → Node
unfolding new_node
new_leaf address mgmt_address id ds_port us_port =
    let n = new_node address mgmt_address id 0 NodeType.leaf in
    record n { asic = some ds_port.asic; ds_port = some ds_port; us_port = some us_port }

unfoldable pub new_server : String → ℕ → PortRef → Node
unfolding new_node
new_server address id port =
    let n = new_node address "" id 0 NodeType.server in
    record n { asic = some port.asic; port = some port }

unfoldable pub new_spine : String → ℕ → String → Node
unfolding new_node
new_spine address id asic =
    let n = new_node address "" id 0 NodeType.spine in record n { asic = some asic }

-- The ports of a node: its own, and those of a leaf.
abbrev pub ports_of : Node → Option PortRef × Option PortRef × Option PortRef
ports_of n = (n.port, n.ds_port, n.us_port)

-- The node objects: every address has one, and those not yet handed out are never read.
abbrev pub Nodes : Type 0
Nodes = ℕ → Node

-- A write through a pointer.
abbrev pub write : ℕ → Node → Nodes → Nodes
write a n nodes b = if nat_beq a b then n else nodes b

-- IDs to nodes (uint16 keys).
abbrev pub NodeMap : Type 0
NodeMap = GoMap ℕ ℕ
