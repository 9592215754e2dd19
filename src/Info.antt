-- ===== src/Info.antt =====
-- The messages of protobuf/message.proto. A field that holds a message is nil where it is absent.
use horus_controller.Prelude.{ℕ, String, Option, List}

pub record PortConfigInfo : Type 0 where
  pub id : String
  pub speed : String
  pub fec : String
  pub an : String

pub record PortInfo : Type 0 where
  pub id : String
  pub cage : ℕ  -- uint32
  pub lane : ℕ  -- uint32
  pub dev_port : ℕ  -- uint64
  pub port_config : Option PortConfigInfo

pub record AsicInfo : Type 0 where
  pub id : String
  pub program : String
  pub device_id : ℕ  -- uint32
  pub pipe_id : ℕ  -- uint32
  pub ctrl_address : String
  pub ctrl_api : String
  pub ports_info : List PortInfo

pub record ClientInfo : Type 0 where
  pub id : ℕ  -- uint32
  pub address : String
  pub asic : Option AsicInfo
  pub port : Option PortInfo

pub record ServerInfo : Type 0 where
  pub id : ℕ  -- uint32
  pub address : String
  pub workers_count : ℕ  -- uint32
  pub leaf_id : ℕ  -- uint32
  pub port : Option PortInfo

pub record LeafInfo : Type 0 where
  pub id : ℕ  -- uint32
  pub index : ℕ  -- uint32
  pub address : String
  pub mgmt_address : String
  pub servers : List ServerInfo
  pub spine_id : ℕ  -- uint32
  pub asic : Option AsicInfo
  pub ds_port : Option PortInfo
  pub us_port : Option PortInfo

pub record SpineInfo : Type 0 where
  pub id : ℕ  -- uint32
  pub address : String
  pub leaves : List LeafInfo
  pub asic : Option AsicInfo

pub record TopoInfo : Type 0 where
  pub spines : List SpineInfo
  pub clients : List ClientInfo
  pub asics : List AsicInfo
  pub port_config : List PortConfigInfo

pub record VcServerInfo : Type 0 where
  pub id : ℕ  -- uint32
  pub workers_ids : List ℕ

pub record VcInfo : Type 0 where
  pub id : ℕ  -- uint32
  pub spines : List ℕ
  pub servers : List VcServerInfo

pub data Status : Type 0 where
  ok_status failed faild not_supported : Status
