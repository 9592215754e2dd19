-- ===== src/Tests/Sizes.antt =====
-- The copy of the fixture that its leaf with one server, of one worker, fetches.
use horus_controller.Copies.Sizes.{fetched_sizes}
use horus_controller.Topology.Numbering.{counts_of}
use horus_controller.Ports.Spec.{new_port_spec}
use horus_controller.Controller.{answered, fetch_topology}
use horus_controller.Ports.{new_asic_registry_from_info}
use horus_controller.Topology.Build.Whole.{IsSound}
use horus_controller.Topology.State.{Topology, find_asic, find_port}
use horus_controller.Topology.Encode.{
  encode_to_asic_info, encode_to_port_config_info, get_client_info, encode_servers, encode_leaf,
  encode_to_topo_info_at_leaf,
}
use horus_controller.Info.{LeafInfo, TopoInfo}
use horus_controller.Asic.{AsicRegistry}
use horus_controller.GoMap.{load, values}
use horus_controller.Tests.Fixture.{fixture-IsValid, up_port, fixture}
use horus_controller.Prelude.{
  map, ◌∷◌, ℕ, arith, ◌≡◌, refl, none, some, [], returned, number_key, text_key,
}

abbrev asked : LeafInfo
asked = record {
  id = 21;
  index = 0;
  address = "";
  mgmt_address = "";
  servers = [];
  spine_id = 0;
  asic = none;
  ds_port = none;
  us_port = none;
}

part : (m : TopoInfo) × (encode_to_topo_info_at_leaf asked fixture ≡ returned (some m))
unfolding encode_to_topo_info_at_leaf encode_leaf encode_servers get_client_info values load
part = (_, refl)

read :
    (r : AsicRegistry) × (new_asic_registry_from_info part.0.asics part.0.port_config ≡ returned r)
unfolding part new_asic_registry_from_info encode_to_asic_info encode_to_port_config_info
read = (_, refl)

part-IsSound : IsSound read.0 part.0
unfolding new_port_spec read part find_asic load find_port encode_to_asic_info
    encode_to_port_config_info new_asic_registry_from_info
part-IsSound = record {
  clients_ok = tt;
  spines_ok = (
    record {
      named = _;
      found = _;
      named_eq = refl;
      found_eq = refl;
      leaves_ok = (
        record {
          asic = _;
          asic_eq = refl;
          ds_ok = record { named = _; found = up_port; named_eq = refl; found_eq = refl };
          us_ok = record { named = _; found = up_port; named_eq = refl; found_eq = refl };
          servers_ok =
              (record { named = _; found = up_port; named_eq = refl; found_eq = refl }, tt);
        },
        tt,
      );
    },
    tt,
  );
  server_ids_distinct = (refl, tt);
  leaf_ids_distinct = (refl, tt);
  spine_ids_distinct = (refl, tt);
}

fetched_sizes_example :
    (t' : Topology) × (l' : ℕ) × (fetch_topology 21 (answered part.0) ≡ returned t')
    × (load 21 t'.leaves ≡ some l')
    × (map (counts_of t'.nodes) (t'.nodes l').children ≡ 0 ∷ [])
fetched_sizes_example =
    fetched_sizes asked 3 fixture part.0 read.0 fixture-IsValid (unfold load in refl)
      (record { ordered = omega arith; small = omega arith }, tt) part.1 read.1 part-IsSound
