-- ===== src/Tests/Copies.antt =====
-- The copy of the fixture that its leaf with two servers fetches, and the start of its controller.
use mathlib.Core.Path.{subst}
use horus_controller.Topology.Numbering.Owners.{owns}
use horus_controller.Switch.Leaf.{node_ids, worker_index}
use horus_controller.VcManager.{VcManager}
use horus_controller.VcManager.Consistent.{IsConsistent}
use horus_controller.Controller.Start.{start_bare}
use horus_controller.Controller.Start.Served.{start_bare-IsServed}
use horus_controller.Tests.Fake.{fake, Memory, empty_switch}
use horus_controller.Switch.Leaf.Forward.{IsKnown, IsServed}
use horus_controller.Switch.Mac.{mac_data, parse_mac, separated}
use horus_controller.Switch.Workers.{dev_port}
use horus_controller.Ports.Spec.{new_port_spec}
use horus_controller.Topology.Valid.{IsValid}
use horus_controller.Copies.Fetched.{fetched_view}
use horus_controller.Copies.{leaf_view}
use horus_controller.Topology.Build.{
  new_dcn, build_clients, build_spines, build_leaves, build_leaf, build_servers,
}
use horus_controller.Controller.{no_connection, topology_from, answered, fetch_topology}
use horus_controller.Ports.{new_asic_registry_from_info}
use horus_controller.Topology.Build.Whole.{IsSound, new_dcn-IsValid}
use horus_controller.Topology.State.{Topology, find_asic, find_port}
use horus_controller.Topology.Encode.{
  encode_to_asic_info, encode_to_port_config_info, get_client_info, encode_servers, encode_leaf,
  encode_to_topo_info_at_leaf,
}
use horus_controller.Info.{LeafInfo, TopoInfo}
use horus_controller.Asic.{AsicRegistry}
use horus_controller.GoMap.{load, values}
use horus_controller.Tests.Fixture.{up_port, fixture_nodes, fixture}
use horus_controller.Prelude.{
  false, ◌++◌, ◌&&◌, inr, elem, sym, ◌∙◌, true, ◌∷◌, nat_beq, Bool-cases, returned_inj, inl, ℕ,
  arith, ◌≡◌, refl, none, some, [], returned, number_key, text_key,
}

abbrev asked : LeafInfo
asked = record {
  id = 20;
  index = 0;
  address = "";
  mgmt_address = "";
  servers = [];
  spine_id = 0;
  asic = none;
  ds_port = none;
  us_port = none;
}

-- The fixture, with a MAC address at every node.
abbrev addressed : Topology
addressed = record fixture {
  nodes = λ a. record (fixture_nodes a) { address = "02:00:00:00:00:0B" };
}

addressed-IsValid : IsValid addressed
unfolding load
addressed-IsValid = record {
  servers_ok = λ k a h. ground arith;
  leaves_ok = λ k a h. ground arith;
  spines_ok = λ k a h. ground arith;
  leaf_children = λ k a c h m. ground arith;
  spine_children = λ k a c h m. ground arith;
}

part : (m : TopoInfo) × (encode_to_topo_info_at_leaf asked addressed ≡ returned (some m))
unfolding encode_to_topo_info_at_leaf encode_leaf encode_servers get_client_info values load
part = (_, refl)

read :
    (r : AsicRegistry) × (new_asic_registry_from_info part.0.asics part.0.port_config ≡ returned r)
unfolding part new_asic_registry_from_info encode_to_asic_info encode_to_port_config_info
read = (_, refl)

part-IsSound : IsSound read.0 part.0
unfolding new_port_spec read part find_asic load find_port encode_to_asic_info
    encode_to_port_config_info new_asic_registry_from_info
part-IsSound = record {
  clients_ok = tt;
  spines_ok = (
    record {
      named = _;
      found = _;
      named_eq = refl;
      found_eq = refl;
      leaves_ok = (
        record {
          asic = _;
          asic_eq = refl;
          ds_ok = record { named = _; found = up_port; named_eq = refl; found_eq = refl };
          us_ok = record { named = _; found = up_port; named_eq = refl; found_eq = refl };
          servers_ok = (
            record { named = _; found = up_port; named_eq = refl; found_eq = refl },
            (record { named = _; found = up_port; named_eq = refl; found_eq = refl }, tt),
          );
        },
        tt,
      );
    },
    tt,
  );
  server_ids_distinct = (refl, (refl, tt));
  leaf_ids_distinct = (refl, tt);
  spine_ids_distinct = (refl, tt);
}

fetched_view_example :
    (t' : Topology) × (l' : ℕ) × (fetch_topology 20 (answered part.0) ≡ returned t')
    × IsValid t'
    × (load 20 t'.leaves ≡ some l')
    × (leaf_view t'.nodes l' ≡ leaf_view addressed.nodes 2)
fetched_view_example =
    fetched_view asked 2 addressed part.0 read.0 addressed-IsValid (unfold load in refl)
      (record { laid_out = (refl, refl, (refl, refl, tt)); last_eq = inl refl }) (omega arith)
      (
        record { ordered = omega arith; last_small = omega arith; id_small = omega arith },
        (record { ordered = omega arith; last_small = omega arith; id_small = omega arith }, tt),
      )
      part.1 read.1 part-IsSound

-- What the leaf makes of the message: the leaf is the node 2, and its servers are 3 and 4.
fetched : (t : Topology) × (fetch_topology 20 (answered part.0) ≡ returned t)
unfolding new_port_spec part read fetch_topology topology_from new_dcn build_clients build_spines
    build_leaves build_leaf build_servers find_asic find_port load
fetched = (_, refl)

-- Both servers have the MAC address of the nodes and the port of the fixture.
started-IsKnown :
    (a : ℕ) → elem a (3 ∷ 4 ∷ []) ≡ true → IsKnown fake fetched.0 (λ b. 8) (λ b. 2199023255563) a
unfolding fetched mac_data parse_mac separated dev_port load
started-IsKnown a m = elim (Bool-cases (nat_beq 3 a)) [
  | inl e ↦
      let same : 3 ≡ a = ground arith in
      subst (IsKnown fake fetched.0 (λ b. 8) (λ b. 2199023255563)) same
        (record { mac_eq = refl; port_eq = refl; finite = (omega arith, omega arith) })
  | inr e ↦
      let same : 4 ≡ a = ground arith in
      subst (IsKnown fake fetched.0 (λ b. 8) (λ b. 2199023255563)) same
        (record { mac_eq = refl; port_eq = refl; finite = (omega arith, omega arith) })
]

built : new_dcn part.0 read.0 ≡ returned fetched.0
unfolding fetched part read new_port_spec fetch_topology topology_from new_dcn build_clients
    build_spines build_leaves build_leaf build_servers find_asic find_port load
built = refl

fetched-IsValid : IsValid fetched.0
fetched-IsValid =
    let (t', ran, valid) = new_dcn-IsValid part.0 read.0 part-IsSound in
    subst IsValid (returned_inj (sym ran ∙ built)) valid

started_up : dev_port fetched.0 (fetched.0.nodes 2).us_port ≡ returned 8
unfolding fetched dev_port load
started_up = refl

started_free :
    (a wid uid : ℕ)
    → elem a (fetched.0.nodes 2).children ≡ true
    → owns (fetched.0.nodes a) wid ≡ true
    → elem uid (
        node_ids fetched.0.nodes (values fetched.0.spines)
        ++ node_ids fetched.0.nodes (values fetched.0.clients))
      ≡ true
    → (nat_beq uid (worker_index (fetched.0.nodes 2).id wid)
        && nat_beq (fetched.0.nodes 2).index (fetched.0.nodes 2).id)
      ≡ false
unfolding fetched values
started_free a wid uid m o k = ground (arith, k)

start_bare-IsServed_example :
    (m : VcManager) × (s' : Memory) × (start_bare fake "v2"
        (1 ∷ [])
        20
        (answered part.0)
        no_connection
        empty_switch
      ≡ returned (fetched.0, m, s'))
    × IsConsistent fetched.0 m
    × IsServed fake fetched.0.nodes
        (fetched.0.nodes 2).id
        (λ b. 8)
        (λ b. 2199023255563)
        (fetched.0.nodes 2).children
        s'
unfolding fetched load
start_bare-IsServed_example =
    start_bare-IsServed fake "v2" 1 [] 20 2 8 (answered part.0) no_connection fetched.0 (λ b. 8)
      (λ b. 2199023255563) empty_switch
      (inr (
        refl,
        λ e. absurd (ground (arith, e)),
        record { first = omega arith; second = omega arith; low = omega arith; high = omega arith },
      ))
      fetched.1 fetched-IsValid refl
      (record { laid_out = (refl, refl, (refl, refl, tt)); last_eq = inl refl })
      (omega arith, (omega arith, tt)) (omega arith) started_up started-IsKnown started_free
      (record { list = omega arith; count = omega arith; iq = omega arith; sq = omega arith })
