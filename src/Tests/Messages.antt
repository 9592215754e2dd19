-- ===== src/Tests/Messages.antt =====
-- The messages of a topology.
use horus_controller.Topology.Encode.Restricted.{CutDown, encode_to_topo_info_at_leaf_lem}
use horus_controller.Topology.Encode.{
  get_client_info, encode_servers, encode_leaf, encode_leaves, encode_spines, encode_to_topo_info,
  encode_to_topo_info_at_leaf,
}
use horus_controller.Tests.Fixture.{fixture, fixture-IsValid}
use horus_controller.Prelude.{◌≡◌, refl, some, none, [], returned, number_key, text_key}
use horus_controller.GoMap.{load, values}
use horus_controller.Info.{LeafInfo, TopoInfo}

abbrev asked : LeafInfo
asked = record {
  id = 20;
  index = 0;
  address = "";
  mgmt_address = "";
  servers = [];
  spine_id = 0;
  asic = none;
  ds_port = none;
  us_port = none;
}

whole : (m : TopoInfo) × (encode_to_topo_info fixture ≡ returned m)
unfolding encode_to_topo_info encode_spines encode_leaves encode_leaf encode_servers get_client_info
    values
whole = (_, refl)

encode_to_topo_info_at_leaf_lem_example :
    (part : TopoInfo) × (encode_to_topo_info_at_leaf asked fixture ≡ returned (some part))
    × CutDown 20 part whole.0
encode_to_topo_info_at_leaf_lem_example =
    encode_to_topo_info_at_leaf_lem asked 2 fixture whole.0 fixture-IsValid (unfold load in refl)
      whole.1
