-- ===== src/Rpc/State.antt =====
-- What the handlers of core/net/topologyServer_*.go read and write: the topology, the clusters and
-- the channels. A send appends to the list of its channel; the channels are buffered, and a send
-- that would block is not modelled.
use horus_controller.Messages.{
  LeafFailedMessage, ServerFailedMessage, LeafAddedMessage, ServerAddedMessage, PortMessage,
  VcUpdatedMessage, LeafUpdatedMessage,
}
use horus_controller.Topology.State.{Topology}
use horus_controller.VcManager.{VcManager}
use horus_controller.Prelude.{List, [], ◌∷◌, ◌++◌, ℕ}

pub record Channels : Type 0 where
  pub failed_leaves : List LeafFailedMessage
  pub failed_servers : List ServerFailedMessage
  pub new_leaves : List LeafAddedMessage
  pub new_servers : List ServerAddedMessage
  pub enabled_ports : List PortMessage
  pub disabled_ports : List PortMessage
  pub new_vcs : List VcUpdatedMessage
  pub updated_leaves : List LeafUpdatedMessage
  pub updated_servers : List (List ℕ)

pub record RpcServer : Type 0 where
  pub topology : Topology
  pub vcm : VcManager
  pub out : Channels

-- `ch <- message`
infixl 60 ◌◂◌
abbrev pub ◌◂◌ {ℓ} : {A : Type ℓ} → List A → A → List A
ch ◂ message = ch ++ message ∷ []
