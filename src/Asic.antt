-- ===== src/Asic.antt =====
-- core/model/asic.go and core/model/port.go: ASICs, their ports, and the registry of both.
use horus_controller.Prelude.{ℕ, String}
use horus_controller.GoMap.{GoMap}

pub record PortConfig : Type 0 where
  pub id : String
  pub speed : String
  pub fec : String
  pub an : String

pub record PortSpec : Type 0 where
  pub id : String
  pub cage : ℕ  -- uint64
  pub lane : ℕ  -- uint64

-- The pointer to the ASIC is its ID, the key under which the registry holds it.
pub record Port : Type 0 where
  pub spec : PortSpec
  pub dev_port : ℕ  -- uint64
  pub config : PortConfig
  pub asic : String

pub record PortRegistry : Type 0 where
  pub config_map : GoMap String PortConfig
  pub port_map : GoMap String Port

pub record Asic : Type 0 where
  pub id : String
  pub program : String
  pub device_id : ℕ  -- uint
  pub pipe_id : ℕ  -- uint
  pub ctrl_address : String
  pub ctrl_api : String
  pub port_registry : PortRegistry

pub record AsicRegistry : Type 0 where
  pub asic_map : GoMap String Asic

-- A pointer to a port of the registry: a registry never replaces a port, so the pair of its keys
-- stands for the pointer.
pub record PortRef : Type 0 where
  pub asic : String
  pub spec : String
