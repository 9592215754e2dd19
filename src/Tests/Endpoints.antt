-- ===== src/Tests/Endpoints.antt =====
-- The clients between the controllers.
use horus_controller.Node.{write}
use horus_controller.Tests.Fixture.{fixture}
use horus_controller.Topology.State.{Topology}
use horus_controller.Copies.Everywhere.{AddedEverywhere, add_server_everywhere}
use horus_controller.Copies.AddServer.{CanAdd}
use horus_controller.Endpoint.Central.{CentralEndpoint}
use horus_controller.Tests.Fixture.{up_port, fixture-IsValid}
use horus_controller.Messages.{LeafAddedMessage}
use horus_controller.Rpc.State.{◌◂◌, RpcServer}
use horus_controller.GoMap.{load, values}
use horus_controller.Prelude.{
  List, ◌≡◌, refl, false, some, [], ◌∷◌, if◌then◌else◌, number_key, text_key,
}
use horus_controller.Tests.Topologies.{new_server_info, new_leaf_info, found_port}
use horus_controller.Tests.Clusters.{central}
use horus_controller.Endpoint.Spine.{SpineEndpoint, SpineEvent, process}
use horus_controller.Endpoint.Spine.Managers.{has_manager, manager_called_lem, start, run}
use horus_controller.Endpoint.{Network, Call}

-- A network in which every call comes back.
abbrev reliable : Network
reliable = record { unreachable = λ sent address. false; refused = λ sent made. false }

can_add : CanAdd new_server_info fixture 2 1
can_add = record {
  port = up_port;
  valid = fixture-IsValid;
  leaf_known = unfold load in refl;
  parent_eq = refl;
  server_absent = unfold load in refl;
  port_found = found_port 2 refl;
}

abbrev to_spines : CentralEndpoint
to_spines = record { spine_pools = (1, "spine") ∷ []; sent = [] }

abbrev to_leaves : SpineEndpoint
to_leaves = record { mg_pools = []; leaf_pools = ("", "leaf") ∷ []; sent = []; out = central.out }

add_server_everywhere_example :
    (c' s' l' : RpcServer) × AddedEverywhere reliable new_server_info central central central
      to_spines to_leaves c' s' l' 2 2 2 1 "spine" "leaf"
add_server_everywhere_example =
    add_server_everywhere reliable new_server_info central central central to_spines to_leaves 2 2 2
      1 1 1 "spine" "leaf" can_add can_add can_add (unfold load in refl) (unfold load in refl) refl
      refl refl refl

-- Leaf 20 below another switch manager.
abbrev moved : Topology
moved = record fixture {
  nodes = write 2 (record (fixture.nodes 2) { mgmt_address = "m2" }) fixture.nodes;
}

abbrev earlier : List (Topology × SpineEvent)
earlier = (fixture, SpineEvent.updated_leaves (record { leaves = 3 ∷ [] })) ∷ []

manager_called_lem_example :
    let e = run reliable earlier (start fixture central.out) in
    let message : LeafAddedMessage = record { leaf = new_leaf_info; dst = some 2 } in
    let e' = process reliable moved (SpineEvent.new_leaf message) e in
    (e'.sent ≡ (
      if has_manager "m2" fixture.nodes (values fixture.leaves)
      then e.sent ◂ record { address = "m2"; call = Call.add_leaf new_leaf_info }
      else e.sent))
    × (e'.out.new_leaves ≡ e.out.new_leaves ◂ message)
manager_called_lem_example =
    manager_called_lem reliable fixture moved central.out earlier new_leaf_info 2 refl
