-- ===== src/Tests/Fixture.antt =====
-- A topology with one spine, a leaf with two servers and a leaf with one.
use horus_controller.Topology.Valid.{IsValid}
use horus_controller.Prelude.{
  ℕ, zero, suc, false, Option, none, some, List, [], ◌∷◌, arith, text_key, number_key,
}
use horus_controller.GoMap.{load}
use horus_controller.Asic.{AsicRegistry, Port, PortConfig, PortRef}
use horus_controller.Node.{Node, NodeType}
use horus_controller.Topology.State.{Topology}

abbrev pub up_port : PortRef
up_port = record { asic = "sw"; spec = "1/0" }

abbrev pub config : PortConfig
config = record { id = "c"; speed = "BF_SPEED_100G"; fec = "BF_FEC_TYP_NONE"; an = "PM_AN_DEFAULT" }

abbrev pub port : Port
port = record {
  spec = record { id = "1/0"; cage = 1; lane = 0 };
  dev_port = 8;
  config = config;
  asic = "sw";
}

abbrev pub registry : AsicRegistry
registry = record {
  asic_map =
      (
        "sw",
        record {
          id = "sw";
          program = "p";
          device_id = 0;
          pipe_id = 0;
          ctrl_address = "";
          ctrl_api = "v2";
          port_registry = record { config_map = ("c", config) ∷ []; port_map = ("1/0", port) ∷ [] };
        },
      )
      ∷ [];
}

abbrev pub plain : ℕ → NodeType → Option ℕ → List ℕ → Node
plain id node_type parent children = record {
  address = "";
  mgmt_address = "";
  id = id;
  port_id = 0;
  node_type = node_type;
  parent = parent;
  children = children;
  asic = some "sw";
  port = some up_port;
  ds_port = some up_port;
  us_port = some up_port;
  first_worker_id = 0;
  last_worker_id = 0;
  index = 0;
  last_ping_time = 0;
  healthy = false;
  ready = false;
}

-- Addresses: 0 the core, 1 the spine, 2 and 3 the leaves, 4, 5 and 6 the servers.
abbrev pub fixture_nodes : ℕ → Node
fixture_nodes zero = plain 0 NodeType.core none (1 ∷ [])
fixture_nodes (suc zero) = plain 1 NodeType.spine (some 0) (2 ∷ 3 ∷ [])
fixture_nodes (suc (suc zero)) =
    let n = plain 20 NodeType.leaf (some 1) (4 ∷ 5 ∷ []) in record n { last_worker_id = 4 }
fixture_nodes (suc (suc (suc zero))) =
    let n = plain 21 NodeType.leaf (some 1) (6 ∷ []) in record n { index = 1 }
fixture_nodes (suc (suc (suc (suc zero)))) =
    let n = plain 40 NodeType.server (some 2) [] in record n { last_worker_id = 1 }
fixture_nodes (suc (suc (suc (suc (suc zero))))) =
    let n = plain 41 NodeType.server (some 2) [] in
    record n { first_worker_id = 2; last_worker_id = 4 }
fixture_nodes (suc (suc (suc (suc (suc (suc n)))))) = plain 42 NodeType.server (some 3) []

abbrev pub fixture : Topology
fixture = record {
  nodes = fixture_nodes;
  next = 7;
  root = 0;
  clients = [];
  servers = (40, 4) ∷ (41, 5) ∷ (42, 6) ∷ [];
  leaves = (20, 2) ∷ (21, 3) ∷ [];
  spines = (1, 1) ∷ [];
  cores = (0, 0) ∷ [];
  asic_registry = registry;
}

pub fixture-IsValid : IsValid fixture
unfolding load
fixture-IsValid = record {
  servers_ok = λ k a h. ground arith;
  leaves_ok = λ k a h. ground arith;
  spines_ok = λ k a h. ground arith;
  leaf_children = λ k a c h m. ground arith;
  spine_children = λ k a c h m. ground arith;
}
