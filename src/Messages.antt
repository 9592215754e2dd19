-- ===== src/Messages.antt =====
-- core/net/messages.go: what the RPC servers hand to the buses. A node or port is a pointer.
use horus_controller.Prelude.{ℕ, Option, List}
use horus_controller.Info.{LeafInfo, ServerInfo, VcInfo}
use horus_controller.Asic.{PortRef}

pub data VcUpdateType : Type 0 where
  vc_update_add vc_update_rem : VcUpdateType

pub record LeafUpdatedMessage : Type 0 where
  pub leaves : List ℕ

pub record LeafFailedMessage : Type 0 where
  pub leaf : LeafInfo
  pub dsts : List ℕ

pub record ServerFailedMessage : Type 0 where
  pub server : ServerInfo
  pub dsts : List ℕ

pub record ServerAddedMessage : Type 0 where
  pub server : ServerInfo
  pub dst : Option ℕ

pub record LeafAddedMessage : Type 0 where
  pub leaf : LeafInfo
  pub dst : Option ℕ

pub record PortMessage : Type 0 where
  pub port : Option PortRef

pub record VcUpdatedMessage : Type 0 where
  pub vc_info : VcInfo
  pub update_type : VcUpdateType
  pub dsts : List ℕ
