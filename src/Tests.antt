-- ===== src/Tests.antt =====
-- The theorems applied to small topologies.
mod Fixture
mod Topologies
mod Clusters
mod Buses
mod Messages
mod Fake
mod Switches
mod Ports
mod Managers
mod Endpoints
mod Configurations
mod Copies
mod SwitchPorts
mod Sizes
