-- ===== src/Lib.antt =====
-- Horus is a two-layer scheduler of microsecond tasks in data-center switches. Its control plane, the
-- Go program of this repository, keeps a tree of spines, leaves and servers, hands out worker IDs to
-- servers and indices to leaves, and groups servers into virtual clusters. A central controller, a
-- controller for each spine and one for each leaf have a copy of the tree each, and change it by the
-- same calls when a client or a neighbour tells them by RPC that a leaf or server has come or failed.
--
-- The parts, from the state up:
-- - core/model/node.go, asic.go, port.go, protobuf/message.proto: Node, Asic and Info have the data.
--   A `*Node` is an address (a number) of the heap `Nodes` of the topology, so that aliases see each
--   other's writes; a new node is put at `next`. A pointer to an ASIC or port is its key in the
--   registry. GoMap has the maps; a range over a map follows the list, an order that Go leaves open.
-- - core/model/port.go and asic.go: Ports has the registries, from the configuration (NewPortRegistry,
--   NewAsicRegistry) and from the messages of another controller, Ports.Spec expandPortSpec on the
--   characters of a text. A text becomes the list of its codes; `strings.ToUpper` is written out as far
--   as a key of the maps can come out. Ports.Reread and Ports.Made join the two ways, Ports.Bounds has
--   the bounds of the specs.
-- - core/model/topology.go: Topology.State (FindPort, FindAsic, GetNode), Topology.AddLeaf
--   (AddLeafToSpine), Topology.AddServer (AddServerToLeaf), Topology.RemoveServer and
--   Topology.RemoveLeaf (with ClearLeaves). Topology.Valid says what a well-formed tree is,
--   Topology.Numbering what a leaf with consecutive worker IDs is, Topology.Indices the same of the
--   leaves of a spine. Topology.Cases has the two ways in which an addition can end. Topology.Encode has
--   EncodeToTopoInfo and EncodeToTopoInfoAtLeaf, Topology.Build has NewDCNFromTopoInfo and Topology.Conf
--   NewDCNFromConf, which take the registry of ASICs as given; Topology.Build.Whole has the conditions
--   under which a message makes a well-formed topology.
-- - core/model/vc.go and core/vcManager.go: Vc and VcManager. The manager has lists of clusters for each
--   server and each leaf; VcManager.Consistent says that they are in step with the clusters.
-- - core/net/messages.go and core/net/topologyServer_*.go: Messages and Rpc. A handler takes the
--   topology, the clusters and the channels, and returns them with its answer; a send appends to the
--   list of its channel.
-- - core/net/rpc_endpoint_*.go: Endpoint, the clients by which a controller hands the messages of its
--   service on: Endpoint.Central to the spines, Endpoint.Spine to the switch managers and the leaves. A
--   call that is made is put in a list. Copies joins the services and the clients: what the copies of
--   the tree say of a leaf (its view) stays the same when a server is added from the central
--   controller down, and a leaf starts with the view of the central controller (Copies.Fetched),
--   but for servers of one worker (Copies.Sizes).
-- - ctrl_mgr/controller.go: Controller, how a controller fetches its topology and its clusters, and
--   Controller.Start, the start of a leaf controller (StartBare).
-- - ctrl_mgr/manager.go and asic.go: SwitchManager, the leaf controllers of a switch and the end point
--   that hands them their packets. A channel is an object that may be closed. SwitchManager.Serving
--   says what a manager in good order is, SwitchManager.Steps has its runs, in which the handler of a
--   failed leaf sleeps while packets go on.
-- - core/net/horus_pkt.go: Packet, the header of the packets that the leaf bus sends.
-- - ctrl_mgr/leafBus.go, ctrl_mgr/spineBus.go and ctrl_central/bus.go: LeafBus, SpineBus and CentralBus
--   have one function for each event of the loops, and record the calls of the data plane.
-- - ctrl_mgr/cp.go: Switch, the writes to the tables and registers of a switch. SwitchClient is the
--   interface of the switch driver, with its laws; a write is a value of Write, and a handler runs its
--   writes in the order of the code, with `logrus.Fatal` on an error. Switch.Workers has the loop over
--   the worker IDs of a server, Switch.Mac `net.ParseMAC`, Switch.Spine and Switch.SpineCp the spines in
--   both versions of the data plane, Switch.Leaf the leaves (LeafCPInitAllVer, OnServerChangeAllVer) and
--   Switch.Leaf.Handlers their versions, Switch.Manager the manager. The theorems join the tables to
--   the tree: Switch.Leaf.AfterRemoval to RemoveServer, Switch.Leaf.AfterAddition to AddServerToLeaf,
--   Switch.SpineCp.Indexed to RemoveLeaf, Switch.SpineCp.Added to AddLeafToSpine.
-- - ctrl_central/cp.go: CentralCp, the control planes of the central controller, which turn the ports of
--   the switches on and off. The client of bfrt-go-client is the interface Bfrt; what
--   is taken of it stands in the theorem.
-- - core/leafHealthManager.go: Health, the pings and one round of the loop that finds silent servers.
--
-- Conventions. A field of type uint16 is a native number below 2^16, and every operation on it is taken
-- mod 2^16 (Prelude.Words). A nil dereference, an index out of range and `logrus.Fatal` end the process:
-- the outcome `crashed`. The loop of RemoveLeaf that removes servers until none is left runs on fuel,
-- one more than the leaf has servers, and each round removes one; `hung` is the outcome of a loop that
-- outruns its fuel. The loop over the worker IDs counts in uint16 and runs on fuel 65537, one round
-- for every uint16 and the last test. Locks do not appear: an operation runs as a whole, and the
-- goroutines of a bus run one after the other. The handler of a failed leaf in the switch manager is in
-- two parts, before and behind its sleep.
--
-- The switch driver is not in the repository. What the theorems rely on are the laws of SwitchClient: a
-- read returns what was written last, a new entry can be inserted, an entry that is there can be
-- modified, and a register can be written below its size. A read of a register that fails gives 0.
--
-- gRPC, its connection pools and the network are not in the repository either. Endpoint.Network says
-- whether a pool has a connection and whether a call comes back with an error, with no law; a pool is
-- the address that it dials. Controller.Answer has the ways in which a call for data ends.
--
-- Not modelled: the log output of the monitors of ctrl_mgr/cp.go and its stubs for tests; listeners and
-- sockets (core/net/*_sock_client.go); reading of the configuration files; the start of goroutines and
-- the set-up of a spine controller (ctrl_mgr/manager.go, controller.go, cmd). gopacket's buffer and the
-- packets around the Horus header are parameters, with the laws that gopacket documents.
pub mod Prelude
pub mod GoMap
pub mod Info
pub mod Asic
pub mod Ports
pub mod Node
pub mod Topology
pub mod Vc
pub mod VcManager
pub mod Messages
pub mod Rpc
pub mod Packet
pub mod Endpoint
pub mod Copies
pub mod LeafBus
pub mod Controller
pub mod SwitchManager
pub mod SpineBus
pub mod CentralBus
pub mod CentralCp
pub mod Health
pub mod Switch
mod Tests
