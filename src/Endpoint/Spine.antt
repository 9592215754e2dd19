-- ===== src/Endpoint/Spine.antt =====
-- core/net/rpc_endpoint_spine.go: the client of a spine controller, which calls the switch managers and
-- the leaves, and hands every message on to the bus of the controller.
pub mod Managers
use horus_controller.Prelude.{number_key, text_key}
use horus_controller.Topology.State.{Topology}
use horus_controller.Endpoint.Central.{vc_call}
use horus_controller.Rpc.State.{◌◂◌, Channels}
use horus_controller.Info.{LeafInfo, VcServerInfo, VcInfo}
use horus_controller.Messages.{
  LeafUpdatedMessage, LeafFailedMessage, ServerFailedMessage, ServerAddedMessage, LeafAddedMessage,
  VcUpdatedMessage,
}
use horus_controller.Node.{Node, Nodes}
use horus_controller.GoMap.{GoMap, load, store, values}
use horus_controller.Prelude.Words.{u16}
use horus_controller.Prelude.{ℕ, String, Option, none, some, List, [], ◌∷◌, nat_beq, if◌then◌else◌}
use horus_controller.Endpoint.{no_node, no_pool, Sent, SendError, Network, call_on, Call}

-- The pools by the addresses of the managers and of the leaves, the calls made, and the channels of
-- the bus.
pub record SpineEndpoint : Type 0 where
  pub mg_pools : GoMap String String
  pub leaf_pools : GoMap String String
  pub sent : List Sent
  pub out : Channels

-- A message that the loop receives from the RPC server.
pub data SpineEvent : Type 0 where
  updated_leaves : LeafUpdatedMessage → SpineEvent
  failed_leaf : LeafFailedMessage → SpineEvent
  failed_server : ServerFailedMessage → SpineEvent
  new_leaf : LeafAddedMessage → SpineEvent
  new_server : ServerAddedMessage → SpineEvent
  new_vc : VcUpdatedMessage → SpineEvent

-- A pool for an address that has none.
abbrev pub ensure_pool : String → GoMap String String → GoMap String String
ensure_pool address pools = elim (load address pools) [
  | none ↦ store address address pools
  | some old ↦ pools
]

-- The loops of createMgrConnPool and createLeafConnPool over the leaves of the topology.
unfoldable pub create_mgr_pools : List ℕ → Nodes → GoMap String String → GoMap String String
create_mgr_pools [] nodes pools = pools
create_mgr_pools (a ∷ rest) nodes pools =
    create_mgr_pools rest nodes (ensure_pool (nodes a).mgmt_address pools)

unfoldable pub create_leaf_pools : List ℕ → Nodes → GoMap String String → GoMap String String
create_leaf_pools [] nodes pools = pools
create_leaf_pools (a ∷ rest) nodes pools =
    create_leaf_pools rest nodes (ensure_pool (nodes a).address pools)

-- The message that tells a leaf its new index.
abbrev pub index_info : Node → LeafInfo
index_info n = record {
  id = n.id;
  index = n.index;
  address = "";
  mgmt_address = "";
  servers = [];
  spine_id = 0;
  asic = none;
  ds_port = none;
  us_port = none;
}

-- The servers of a cluster that stand below the leaf with an ID.
unfoldable pub servers_below : Topology → ℕ → List VcServerInfo → List VcServerInfo
servers_below t leaf_id [] = []
servers_below t leaf_id (info ∷ infos) =
    let rest = servers_below t leaf_id infos in
    elim (load (u16 info.id) t.servers) [
      | none ↦ rest
      | some a ↦ elim (t.nodes a).parent [
        | none ↦ rest
        | some l ↦
            if nat_beq (t.nodes l).id leaf_id
            then record { id = (t.nodes a).id; workers_ids = [] } ∷ rest
            else rest
      ]
    ]

-- `Dsts[0]`; a nil list stands for no receiver.
abbrev pub first : List ℕ → Option ℕ
first [] = none
first (a ∷ rest) = some a

module _ (net : Network) (t : Topology) where
  -- A call on the pool of an address.
  unfoldable pub send_on : Option String → Call → SpineEndpoint → SpineEndpoint × Option SendError
  send_on none call e = (e, some no_pool)
  send_on (some address) call e =
      let r = call_on net address call e.sent in (record e { sent = r.0 }, r.1)

  -- To the leaf at an address.
  unfoldable pub send_to_leaf : Call → ℕ → SpineEndpoint → SpineEndpoint × Option SendError
  unfolding send_on
  send_to_leaf call a e = send_on (load (t.nodes a).address e.leaf_pools) call e

  -- To the manager of the leaf at an address.
  unfoldable pub send_to_manager : Call → ℕ → SpineEndpoint → SpineEndpoint × Option SendError
  unfolding send_on
  send_to_manager call a e = send_on (load (t.nodes a).mgmt_address e.mg_pools) call e

  -- The receiver of a message may be nil.
  unfoldable pub to_leaf : Option ℕ → Call → SpineEndpoint → SpineEndpoint × Option SendError
  unfolding send_to_leaf
  to_leaf none call e = (e, some no_node)
  to_leaf (some a) call e = send_to_leaf call a e

  unfoldable pub to_manager : Option ℕ → Call → SpineEndpoint → SpineEndpoint × Option SendError
  unfolding send_to_manager
  to_manager none call e = (e, some no_node)
  to_manager (some a) call e = send_to_manager call a e

  unfoldable pub send_leaf_failed :
      LeafFailedMessage → SpineEndpoint → SpineEndpoint × Option SendError
  unfolding to_manager
  send_leaf_failed m e = to_manager (first m.dsts) (Call.fail_leaf m.leaf) e

  unfoldable pub send_server_failed :
      ServerFailedMessage → SpineEndpoint → SpineEndpoint × Option SendError
  unfolding to_leaf
  send_server_failed m e = to_leaf (first m.dsts) (Call.fail_server m.server) e

  unfoldable pub send_leaf_added :
      LeafAddedMessage → SpineEndpoint → SpineEndpoint × Option SendError
  unfolding to_manager
  send_leaf_added m e = to_manager m.dst (Call.add_leaf m.leaf) e

  unfoldable pub send_server_added :
      ServerAddedMessage → SpineEndpoint → SpineEndpoint × Option SendError
  unfolding to_leaf
  send_server_added m e = to_leaf m.dst (Call.add_server m.server) e

  -- The loop over the leaves with new indices; errors are logged.
  unfoldable pub send_leaf_updates : List ℕ → SpineEndpoint → SpineEndpoint
  unfolding send_to_leaf
  send_leaf_updates [] e = e
  send_leaf_updates (a ∷ rest) e =
      send_leaf_updates rest (send_to_leaf (Call.fail_leaf (index_info (t.nodes a))) a e).0

  -- What a leaf is told of a cluster: its own servers.
  abbrev pub vc_for_leaf : VcInfo → ℕ → VcInfo
  vc_for_leaf info a = record {
    id = info.id;
    spines = info.spines;
    servers = servers_below t (t.nodes a).id info.servers;
  }

  -- The loop of broadcastAddVCToLeaves, which stops at the first error.
  unfoldable pub send_vc_to_leaves :
      VcUpdatedMessage → List ℕ → SpineEndpoint → SpineEndpoint × Option SendError
  unfolding send_to_leaf servers_below
  send_vc_to_leaves m [] e = (e, none)
  send_vc_to_leaves m (a ∷ rest) e =
      let r = send_to_leaf (vc_call m.update_type (vc_for_leaf m.vc_info a)) a e in
      let others = send_vc_to_leaves m rest r.0 in
      elim r.1 [ none ↦ others | some error ↦ (r.0, some error) ]

  -- No receiver at all is an error.
  unfoldable pub send_vc :
      VcUpdatedMessage → List ℕ → SpineEndpoint → SpineEndpoint × Option SendError
  unfolding send_vc_to_leaves
  send_vc m [] e = (e, some no_node)
  send_vc m (a ∷ rest) e = send_vc_to_leaves m (a ∷ rest) e

  unfoldable pub broadcast_add_vc_to_leaves :
      VcUpdatedMessage → SpineEndpoint → SpineEndpoint × Option SendError
  unfolding send_vc
  broadcast_add_vc_to_leaves m e = send_vc m m.dsts e

  -- One round of `processEvents`; errors are logged, and the bus is told in any case.
  unfoldable pub process : SpineEvent → SpineEndpoint → SpineEndpoint
  unfolding send_leaf_updates send_leaf_failed send_server_failed send_leaf_added send_server_added
      broadcast_add_vc_to_leaves create_leaf_pools
  process (updated_leaves m) e = send_leaf_updates m.leaves e
  process (failed_leaf m) e =
      let e' = (send_leaf_failed m e).0 in
      let c = e'.out in
      record e' {
        out = record c { failed_leaves = c.failed_leaves ◂ record { leaf = m.leaf; dsts = [] } };
      }
  process (failed_server m) e =
      let e' = (send_server_failed m e).0 in
      let c = e'.out in
      record e' {
        out = record c {
          failed_servers = c.failed_servers ◂ record { server = m.server; dsts = [] };
        };
      }
  process (new_leaf m) e =
      let pools = create_leaf_pools (values t.leaves) t.nodes e.leaf_pools in
      let e' = (send_leaf_added m (record e { leaf_pools = pools })).0 in
      let c = e'.out in record e' { out = record c { new_leaves = c.new_leaves ◂ m } }
  process (new_server m) e =
      let e' = (send_server_added m e).0 in
      let c = e'.out in record e' { out = record c { new_servers = c.new_servers ◂ m } }
  process (new_vc m) e =
      let e' = (broadcast_add_vc_to_leaves m e).0 in
      let c = e'.out in record e' { out = record c { new_vcs = c.new_vcs ◂ m } }
