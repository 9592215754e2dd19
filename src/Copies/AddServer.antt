-- ===== src/Copies/AddServer.antt =====
-- A server that is added at the central controller is added in the copies of its spine and its leaf too
-- (core/net/topologyServer_*.go, core/net/rpc_endpoint_*.go).
use horus_controller.Rpc.State.{◌◂◌, Channels, RpcServer}
use horus_controller.Topology.Valid.{IsValid}
use horus_controller.Topology.Cases.{add_server_attached}
use horus_controller.Topology.State.{Topology}
use horus_controller.Topology.AddServer.{attach_server, server_port, add_server_to_leaf}
use horus_controller.Copies.Extend.{leaf_view-attach_server}
use horus_controller.Copies.{leaf_view}
use horus_controller.Info.{ok_status, ServerInfo}
use horus_controller.Asic.{PortRef}
use horus_controller.GoMap.{load}
use horus_controller.Prelude.Words.{u16}
use horus_controller.Prelude.{ℕ, ◌≡◌, none, some, arith, returned, ok, number_key, text_key}
use horus_controller.Rpc.Central.{add_server as add_at_central}
use horus_controller.Rpc.Spine.{add_server as add_at_spine}
use horus_controller.Rpc.Leaf.{add_server as add_at_leaf}
use horus_controller.Copies.Extend.{extended}

-- A copy of the tree in which a new server can be added to the leaf at `l`, below the spine at `p`.
pub record CanAdd (info : ServerInfo) (t : Topology) (l p : ℕ) : Type 0 where
  pub port : PortRef
  pub valid : IsValid t
  pub leaf_known : load (u16 info.leaf_id) t.leaves ≡ some l
  pub parent_eq : (t.nodes l).parent ≡ some p
  pub server_absent : load (u16 info.id) t.servers ≡ none
  pub port_found : server_port info (t.nodes l) t.asic_registry ≡ returned port

module _ (info : ServerInfo) (t : Topology) (l p : ℕ) (can : CanAdd info t l p) where
  -- The copy with the server.
  abbrev pub with_server : Topology
  with_server = attach_server info can.port l t

  pub with_server_added :
      add_server_to_leaf info (u16 info.leaf_id) t ≡ returned (with_server, ok t.next)
  with_server_added =
      add_server_attached info (u16 info.leaf_id) l can.port t can.leaf_known can.server_absent
        can.port_found

  -- The new server points to the leaf, and the leaf and the spine stay what they are.
  pub with_server_parents :
      ((with_server.nodes t.next).parent ≡ some l)
      × ((with_server.nodes l).parent ≡ some p)
      × ((with_server.nodes l).address ≡ (t.nodes l).address)
      × ((with_server.nodes p).id ≡ (t.nodes p).id)
      × ((with_server.nodes t.next).port ≡ some can.port)
  unfolding attach_server
  with_server_parents =
      let old = can.valid.leaves_ok (u16 info.leaf_id) l can.leaf_known in
      let above = can.valid.spines_ok _ _ old.known in ground (arith, old, above, can.parent_eq)

  pub with_server-view : leaf_view with_server.nodes l ≡ extended info (leaf_view t.nodes l)
  with_server-view =
      leaf_view-attach_server info can.port (u16 info.leaf_id) l t can.valid can.leaf_known

-- The controllers that hear of the server, with the addresses of the leaf and the spine in their copies.
module _ (info : ServerInfo) (l p : ℕ) (s : RpcServer) (can : CanAdd info s.topology l p) where
  abbrev t' : Topology
  t' = with_server info s.topology l p can

  abbrev c : Channels
  c = s.out

  -- The central controller turns the port on and tells the spine.
  pub central_added :
      add_at_central info s
      ≡ returned (
        record s {
          topology = t';
          out = record c {
            enabled_ports = c.enabled_ports ◂ record { port = some can.port };
            new_servers = c.new_servers ◂ record { server = info; dst = some p };
          };
        },
        ok_status,
      )
  unfolding add_at_central
  central_added =
      let parents = with_server_parents info s.topology l p can in
      ground (arith, with_server_added info s.topology l p can, parents)

  -- The spine tells the leaf.
  pub spine_added :
      add_at_spine info s
      ≡ returned (
        record s {
          topology = t';
          out = record c { new_servers = c.new_servers ◂ record { server = info; dst = some l } };
        },
        ok_status,
      )
  unfolding add_at_spine
  spine_added =
      let parents = with_server_parents info s.topology l p can in
      ground (arith, with_server_added info s.topology l p can, parents)

  -- The leaf tells its bus.
  pub leaf_added :
      add_at_leaf info s
      ≡ returned (
        record s {
          topology = t';
          out = record c { new_servers = c.new_servers ◂ record { server = info; dst = some l } };
        },
        ok_status,
      )
  unfolding add_at_leaf
  leaf_added =
      let parents = with_server_parents info s.topology l p can in
      ground (arith, with_server_added info s.topology l p can, parents)
