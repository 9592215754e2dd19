-- ===== src/Topology/Cases.antt =====
-- How AddLeafToSpine and AddServerToLeaf (core/model/topology.go) end: with an error and the topology as it was, or
-- with a new node.
use horus_controller.Prelude.{
  is_err, ℕ, ◌≡◌, none, some, true, false, number_key, arith, returned, Result, ok, Option-cases,
  Outcome-cases, Bool-cases, ◌⊎◌, inl, inr, any,
}
use horus_controller.Prelude.Words.{u16}
use horus_controller.GoMap.{load}
use horus_controller.Info.{LeafInfo, ServerInfo}
use horus_controller.Asic.{PortRef}
use horus_controller.Topology.State.{Topology, TopoError}
use horus_controller.Topology.AddLeaf.{attach_leaf, leaf_ports, add_leaf_to_spine, same_address}
use horus_controller.Topology.AddServer.{attach_server, server_port, add_server_to_leaf}

-- A new leaf: the spine is there, the leaf is not, no sibling has its address, the ports are found.
pub record LeafAdded (info : LeafInfo) (t t' : Topology) (r : Result TopoError ℕ) : Type 0 where
  pub parent : ℕ
  pub ports : PortRef × PortRef
  pub spine_known : load (u16 info.spine_id) t.spines ≡ some parent
  pub leaf_absent : load (u16 info.id) t.leaves ≡ none
  pub address_free : any (same_address t.nodes info) (t.nodes parent).children ≡ false
  pub ports_found : leaf_ports info t.asic_registry ≡ returned ports
  pub state_eq : t' ≡ attach_leaf info ports.0 ports.1 parent t
  pub result_eq : r ≡ ok t.next

pub record Refused (t t' : Topology) (r : Result TopoError ℕ) : Type 0 where
  pub state_eq : t' ≡ t
  pub result_eq : is_err r ≡ true

pub add_leaf_cases :
    (info : LeafInfo) (t t' : Topology) (r : Result TopoError ℕ)
    → add_leaf_to_spine info t ≡ returned (t', r)
    → Refused t t' r ⊎ LeafAdded info t t' r
unfolding add_leaf_to_spine
add_leaf_cases info t t' r h = elim (Option-cases (load (u16 info.spine_id) t.spines)) [
  | inl e ↦ inl (record { state_eq = ground arith; result_eq = ground arith })
  | inr (p, ep) ↦ elim (Option-cases (load (u16 info.id) t.leaves)) [
    | inr (old, eo) ↦ inl (record { state_eq = ground arith; result_eq = ground arith })
    | inl eo ↦ elim (Bool-cases (any (same_address t.nodes info) (t.nodes p).children)) [
      | inl ea ↦ inl (record { state_eq = ground arith; result_eq = ground arith })
      | inr ea ↦ elim (Outcome-cases (leaf_ports info t.asic_registry)) [
        | inl (ports, el) ↦ inr (record {
          parent = p;
          ports = ports;
          spine_known = ep;
          leaf_absent = eo;
          address_free = ea;
          ports_found = el;
          state_eq = ground arith;
          result_eq = ground arith;
        })
        | inr bad ↦ absurd (ground arith)
      ]
    ]
  ]
]

-- A new server: the leaf is there, the server is not, the port is found.
pub record ServerAdded (info : ServerInfo) (leaf_id : ℕ) (t t' : Topology) (r : Result TopoError ℕ)
    : Type 0 where
  pub parent : ℕ
  pub port : PortRef
  pub leaf_known : load leaf_id t.leaves ≡ some parent
  pub server_absent : load (u16 info.id) t.servers ≡ none
  pub port_found : server_port info (t.nodes parent) t.asic_registry ≡ returned port
  pub state_eq : t' ≡ attach_server info port parent t
  pub result_eq : r ≡ ok t.next

pub add_server_cases :
    (info : ServerInfo) (leaf_id : ℕ) (t t' : Topology) (r : Result TopoError ℕ)
    → add_server_to_leaf info leaf_id t ≡ returned (t', r)
    → Refused t t' r ⊎ ServerAdded info leaf_id t t' r
unfolding add_server_to_leaf
add_server_cases info leaf_id t t' r h = elim (Option-cases (load leaf_id t.leaves)) [
  | inl e ↦ inl (record { state_eq = ground arith; result_eq = ground arith })
  | inr (p, ep) ↦ elim (Option-cases (load (u16 info.id) t.servers)) [
    | inr (old, eo) ↦ inl (record { state_eq = ground arith; result_eq = ground arith })
    | inl eo ↦ elim (Outcome-cases (server_port info (t.nodes p) t.asic_registry)) [
      | inl (port, el) ↦ inr (record {
        parent = p;
        port = port;
        leaf_known = ep;
        server_absent = eo;
        port_found = el;
        state_eq = ground arith;
        result_eq = ground arith;
      })
      | inr bad ↦ absurd (ground arith)
    ]
  ]
]

-- Where the conditions hold, the node is added.
pub add_leaf_attached :
    (info : LeafInfo) (p : ℕ) (ports : PortRef × PortRef) (t : Topology)
    → load (u16 info.spine_id) t.spines ≡ some p
    → load (u16 info.id) t.leaves ≡ none
    → any (same_address t.nodes info) (t.nodes p).children ≡ false
    → leaf_ports info t.asic_registry ≡ returned ports
    → add_leaf_to_spine info t ≡ returned (attach_leaf info ports.0 ports.1 p t, ok t.next)
unfolding add_leaf_to_spine
add_leaf_attached info p ports t h absent free found = ground arith

pub add_server_attached :
    (info : ServerInfo) (leaf_id l : ℕ) (port : PortRef) (t : Topology)
    → load leaf_id t.leaves ≡ some l
    → load (u16 info.id) t.servers ≡ none
    → server_port info (t.nodes l) t.asic_registry ≡ returned port
    → add_server_to_leaf info leaf_id t ≡ returned (attach_server info port l t, ok t.next)
unfolding add_server_to_leaf
add_server_attached info leaf_id l port t h absent found = ground arith
