-- ===== src/Topology/State.antt =====
-- core/model/topology.go: the state of the topology and the lookups in it.
use horus_controller.Prelude.{
  number_key, text_key, ◌>>=◌, ℕ, String, Option, none, some, Outcome, returned, crashed, deref,
  Result, ok, err,
}
use horus_controller.GoMap.{load}
use horus_controller.Asic.{Asic, AsicRegistry, PortRef}
use horus_controller.Node.{NodeType, Nodes, NodeMap, server, leaf, spine, core, client}

-- The topology with the heap of its nodes: `next` is the first address not yet handed out.
pub record Topology : Type 0 where
  pub nodes : Nodes
  pub next : ℕ
  pub root : ℕ
  pub clients : NodeMap
  pub servers : NodeMap
  pub leaves : NodeMap
  pub spines : NodeMap
  pub cores : NodeMap
  pub asic_registry : AsicRegistry

-- The errors that the calls return.
pub data TopoError : Type 0 where
  no_asic : String → TopoError
  no_port : String → String → TopoError
  no_spine : ℕ → TopoError
  no_leaf : ℕ → TopoError
  leaf_exists : ℕ → TopoError
  leaf_mismatched : ℕ → TopoError
  address_used : String → String → TopoError
  server_exists : ℕ → TopoError
  server_mismatched : ℕ → TopoError

unfoldable pub find_asic : String → AsicRegistry → Result TopoError Asic
find_asic asic registry = elim (load asic registry.asic_map) [
  | some found ↦ ok found
  | none ↦ err (no_asic asic)
]

unfoldable pub find_port : String → String → AsicRegistry → Result TopoError PortRef
unfolding find_asic
find_port asic spec registry = elim (find_asic asic registry) [
  | err e ↦ err e
  | ok found ↦ elim (load spec found.port_registry.port_map) [
    | some port ↦ ok (record { asic = port.asic; spec = port.spec.id })
    | none ↦ err (no_port asic spec)
  ]
]

-- `logrus.Fatal` on an error.
abbrev pub or_fatal : {A : Type 0} → Result TopoError A → Outcome A
or_fatal (ok a) = returned a
or_fatal (err e) = crashed

-- The map that holds the nodes of a type; nil for a core.
abbrev pub map_of : NodeType → Topology → Option NodeMap
map_of server t = some t.servers
map_of leaf t = some t.leaves
map_of spine t = some t.spines
map_of client t = some t.clients
map_of core t = none

abbrev pub get_node : ℕ → NodeType → Topology → Outcome (Option ℕ)
get_node id node_type t = do nodes ← deref (map_of node_type t); returned (load id nodes)
