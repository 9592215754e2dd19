-- ===== src/Rpc.antt =====
-- The RPC servers (core/net/topologyServer_*.go): the central controller, a spine, a leaf and the
-- switch manager answer the same service on their own copies of the topology.
pub mod State
pub mod Central
pub mod Spine
pub mod Leaf
pub mod Manager
pub mod Untold
pub mod Told
pub mod Reindexed
