-- ===== src/Topology.antt =====
-- core/model/topology.go: the topology, the lookups in it, and the calls that change it.
pub mod State
pub mod AddLeaf
pub mod AddServer
pub mod RemoveServer
pub mod RemoveLeaf
pub mod Cases
pub mod Errors
pub mod Valid
pub mod Numbering
pub mod Indices
pub mod Encode
pub mod Build
pub mod Conf
