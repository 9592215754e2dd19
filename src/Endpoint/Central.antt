-- ===== src/Endpoint/Central.antt =====
-- core/net/rpc_endpoint_central.go: the client of the central controller, which calls the spines.
use horus_controller.Prelude.{number_key}
use horus_controller.Topology.State.{Topology}
use horus_controller.Info.{VcInfo}
use horus_controller.Messages.{
  vc_update_add, vc_update_rem, VcUpdateType, LeafFailedMessage, ServerFailedMessage,
  ServerAddedMessage, LeafAddedMessage, VcUpdatedMessage,
}
use horus_controller.GoMap.{GoMap, load, store}
use horus_controller.Prelude.{ℕ, String, Option, none, some, List, [], ◌∷◌}
use horus_controller.Node.{Nodes}
use horus_controller.Endpoint.{no_node, no_pool, Sent, SendError, Network, call_on, Call}

-- The connection pools by the IDs of the spines, and the calls made.
pub record CentralEndpoint : Type 0 where
  pub spine_pools : GoMap ℕ String
  pub sent : List Sent

-- The loop of `Start`: a pool for every spine of the topology.
unfoldable pub create_spine_pools : List ℕ → Nodes → GoMap ℕ String → GoMap ℕ String
create_spine_pools [] nodes pools = pools
create_spine_pools (a ∷ rest) nodes pools =
    create_spine_pools rest nodes (store (nodes a).id (nodes a).address pools)

-- A message that the loop receives.
pub data CentralEvent : Type 0 where
  failed_leaf : LeafFailedMessage → CentralEvent
  failed_server : ServerFailedMessage → CentralEvent
  new_leaf : LeafAddedMessage → CentralEvent
  new_server : ServerAddedMessage → CentralEvent
  new_vc : VcUpdatedMessage → CentralEvent

-- AddVC or RemoveVC.
abbrev pub vc_call : VcUpdateType → VcInfo → Call
vc_call vc_update_add info = Call.add_vc info
vc_call vc_update_rem info = Call.remove_vc info

module _ (net : Network) (t : Topology) where
  -- A call to the spine at an address: sendFailedLeafEvent, sendFailedServerEvent, and the part of the
  -- others below the test for nil.
  unfoldable pub send_to_spine : Call → ℕ → CentralEndpoint → CentralEndpoint × Option SendError
  send_to_spine call a e = elim (load (t.nodes a).id e.spine_pools) [
    | none ↦ (e, some no_pool)
    | some address ↦ let r = call_on net address call e.sent in (record e { sent = r.0 }, r.1)
  ]

  -- sendAddLeafEvent and sendAddServerEvent: the spine may be nil.
  unfoldable pub send_to_dst :
      Call → Option ℕ → CentralEndpoint → CentralEndpoint × Option SendError
  unfolding send_to_spine
  send_to_dst call none e = (e, some no_node)
  send_to_dst call (some a) e = send_to_spine call a e

  -- The loop over the spines, which stops at the first error.
  unfoldable pub send_until_error :
      Call → List ℕ → CentralEndpoint → CentralEndpoint × Option SendError
  unfolding send_to_spine
  send_until_error call [] e = (e, none)
  send_until_error call (a ∷ rest) e =
      let r = send_to_spine call a e in
      let others = send_until_error call rest r.0 in
      elim r.1 [ none ↦ others | some error ↦ (r.0, some error) ]

  unfoldable pub broadcast_add_vc_to_spines :
      VcUpdatedMessage → CentralEndpoint → CentralEndpoint × Option SendError
  unfolding send_until_error
  broadcast_add_vc_to_spines message e = elim message.dsts [
    | [] ↦ (e, some no_node)
    | a ∷ rest ↦ send_until_error (vc_call message.update_type message.vc_info) (a ∷ rest) e
  ]

  -- The loop over the spines that goes on after an error, which is logged.
  unfoldable pub send_to_all : Call → List ℕ → CentralEndpoint → CentralEndpoint
  unfolding send_to_spine
  send_to_all call [] e = e
  send_to_all call (a ∷ rest) e = send_to_all call rest (send_to_spine call a e).0

  -- One round of `processEvents`; errors are logged.
  unfoldable pub process : CentralEvent → CentralEndpoint → CentralEndpoint
  unfolding send_to_all send_to_dst broadcast_add_vc_to_spines
  process (failed_leaf m) e = send_to_all (Call.fail_leaf m.leaf) m.dsts e
  process (failed_server m) e = send_to_all (Call.fail_server m.server) m.dsts e
  process (new_leaf m) e = (send_to_dst (Call.add_leaf m.leaf) m.dst e).0
  process (new_server m) e = (send_to_dst (Call.add_server m.server) m.dst e).0
  process (new_vc m) e = (broadcast_add_vc_to_spines m e).0
