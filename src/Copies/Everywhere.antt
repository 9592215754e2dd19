-- ===== src/Copies/Everywhere.antt =====
-- AddServer from the central controller down to the leaf (core/net/topologyServer_*.go,
-- core/net/rpc_endpoint_*.go).
use horus_controller.Copies.Extend.{extended}
use horus_controller.Topology.State.{Topology}
use horus_controller.Copies.AddServer.{
  CanAdd, with_server_parents, with_server-view, central_added, spine_added, leaf_added,
}
use horus_controller.Copies.{leaf_view}
use horus_controller.Info.{ServerInfo, ok_status}
use horus_controller.Messages.{ServerAddedMessage}
use horus_controller.Rpc.State.{◌◂◌, RpcServer}
use horus_controller.GoMap.{load}
use horus_controller.Prelude.{
  ℕ, String, ◌≡◌, refl, sym, ap, ◌∙◌, false, some, arith, returned, number_key, text_key,
}
use horus_controller.Endpoint.{Network, call_on, Call}
use horus_controller.Rpc.Central.{add_server as add_at_central}
use horus_controller.Rpc.Spine.{add_server as add_at_spine}
use horus_controller.Rpc.Leaf.{add_server as add_at_leaf}
use horus_controller.Endpoint.Central.{send_to_spine, send_to_dst, process as central_process}
use horus_controller.Endpoint.Spine.{
  to_leaf, send_on, send_to_leaf, send_server_added, process as spine_process,
}
use horus_controller.Endpoint.Central.{CentralEvent, CentralEndpoint}
use horus_controller.Endpoint.Spine.{SpineEvent, SpineEndpoint}

-- The message of a new server below `dst`.
abbrev pub about : ServerInfo → ℕ → ServerAddedMessage
about info dst = record { server = info; dst = some dst }

-- What comes out of AddServer at the three controllers and of the two clients between them.
pub record AddedEverywhere (net : Network) (info : ServerInfo) (c s l : RpcServer)
    (to_spines : CentralEndpoint) (to_leaves : SpineEndpoint) (c' s' l' : RpcServer)
    (at_c at_s at_l spine_c : ℕ) (spine_address leaf_address : String) : Type 0 where
  pub central_ok : add_at_central info c ≡ returned (c', ok_status)
  pub central_tells : c'.out.new_servers ≡ c.out.new_servers ◂ about info spine_c
  pub spine_called :
      (central_process net c'.topology
        (CentralEvent.new_server (about info spine_c))
        to_spines).sent
      ≡ to_spines.sent ◂ record { address = spine_address; call = Call.add_server info }
  pub spine_ok : add_at_spine info s ≡ returned (s', ok_status)
  pub spine_tells : s'.out.new_servers ≡ s.out.new_servers ◂ about info at_s
  pub leaf_called :
      (spine_process net s'.topology (SpineEvent.new_server (about info at_s)) to_leaves).sent
      ≡ to_leaves.sent ◂ record { address = leaf_address; call = Call.add_server info }
  pub leaf_ok : add_at_leaf info l ≡ returned (l', ok_status)
  pub leaf_tells : l'.out.new_servers ≡ l.out.new_servers ◂ about info at_l
  pub same_at_spine : leaf_view s'.topology.nodes at_s ≡ leaf_view c'.topology.nodes at_c
  pub same_at_leaf : leaf_view l'.topology.nodes at_l ≡ leaf_view c'.topology.nodes at_c

module _ (net : Network) (info : ServerInfo) where
  pub spine_is_called :
      (t : Topology) (a : ℕ) (address : String) (e : CentralEndpoint)
      → load (t.nodes a).id e.spine_pools ≡ some address
      → net.unreachable e.sent address ≡ false
      → (central_process net t (CentralEvent.new_server (about info a)) e).sent
        ≡ e.sent ◂ record { address = address; call = Call.add_server info }
  unfolding central_process send_to_dst send_to_spine call_on
  spine_is_called t a address e h k = ground arith

  pub leaf_is_called :
      (t : Topology) (a : ℕ) (address : String) (e : SpineEndpoint)
      → load (t.nodes a).address e.leaf_pools ≡ some address
      → net.unreachable e.sent address ≡ false
      → (spine_process net t (SpineEvent.new_server (about info a)) e).sent
        ≡ e.sent ◂ record { address = address; call = Call.add_server info }
  unfolding spine_process send_server_added to_leaf send_to_leaf send_on call_on
  leaf_is_called t a address e h k = ground arith

-- AddServer of a new server at the central controller, whose message its client passes to the spine,
-- and the client of the spine to the leaf, with AddServer at each of them: all three answer OK, and
-- if their copies agreed on the servers of the leaf and their worker IDs, they agree on them with the
-- new server. The server must be new and its leaf and port known in each copy, and the pools of the
-- spine and the leaf must be there and have a connection.
pub add_server_everywhere :
    (net : Network) (info : ServerInfo) (c s l : RpcServer) (to_spines : CentralEndpoint)
    (to_leaves : SpineEndpoint) (at_c at_s at_l spine_c spine_s spine_l : ℕ)
    (spine_address leaf_address : String)
    → CanAdd info c.topology at_c spine_c
    → CanAdd info s.topology at_s spine_s
    → CanAdd info l.topology at_l spine_l
    → load (c.topology.nodes spine_c).id to_spines.spine_pools ≡ some spine_address
    → load (s.topology.nodes at_s).address to_leaves.leaf_pools ≡ some leaf_address
    → net.unreachable to_spines.sent spine_address ≡ false
    → net.unreachable to_leaves.sent leaf_address ≡ false
    → leaf_view s.topology.nodes at_s ≡ leaf_view c.topology.nodes at_c
    → leaf_view l.topology.nodes at_l ≡ leaf_view c.topology.nodes at_c
    → (c' s' l' : RpcServer) × AddedEverywhere net info c s l to_spines to_leaves c' s' l' at_c at_s
        at_l spine_c spine_address leaf_address
add_server_everywhere net info c s l to_spines to_leaves at_c at_s at_l spine_c spine_s spine_l
      spine_address leaf_address can_c can_s can_l pool_c pool_s up_c up_s same_s same_l =
    let added_c = central_added info at_c spine_c c can_c in
    let added_s = spine_added info at_s spine_s s can_s in
    let added_l = leaf_added info at_l spine_l l can_l in
    let parents_c = with_server_parents info c.topology at_c spine_c can_c in
    let parents_s = with_server_parents info s.topology at_s spine_s can_s in
    let view_c = with_server-view info c.topology at_c spine_c can_c in
    let view_s = with_server-view info s.topology at_s spine_s can_s in
    let view_l = with_server-view info l.topology at_l spine_l can_l in
    (
      _,
      _,
      _,
      record {
        central_ok = added_c;
        central_tells = refl;
        spine_called =
            spine_is_called net info _ spine_c spine_address to_spines
              (ap (λ k. load k to_spines.spine_pools) parents_c.3 ∙ pool_c) up_c;
        spine_ok = added_s;
        spine_tells = refl;
        leaf_called =
            leaf_is_called net info _ at_s leaf_address to_leaves
              (ap (λ k. load k to_leaves.leaf_pools) parents_s.2 ∙ pool_s) up_s;
        leaf_ok = added_l;
        leaf_tells = refl;
        same_at_spine = view_s ∙ ap (extended info) same_s ∙ sym view_c;
        same_at_leaf = view_l ∙ ap (extended info) same_l ∙ sym view_c;
      },
    )
