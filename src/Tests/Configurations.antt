-- ===== src/Tests/Configurations.antt =====
-- A configuration with one spine, one leaf and two servers, and the message that says the same.
use horus_controller.Topology.Build.Leaf.{HasPort}
use horus_controller.Topology.Build.Whole.{IsSound, new_dcn-IsValid}
use horus_controller.Topology.Conf.Agrees.{
  port_named, client_said, spines_said, IsUint16, new_dcn_from_conf-eq,
}
use horus_controller.Topology.Valid.{IsValid}
use horus_controller.Topology.State.{Topology, find_asic, find_port}
use horus_controller.Topology.Conf.{TopoConfig, new_dcn_from_conf}
use horus_controller.Info.{SpineInfo, TopoInfo}
use horus_controller.GoMap.{load}
use horus_controller.Tests.Fixture.{registry, up_port}
use horus_controller.Topology.Build.{new_dcn}
use horus_controller.Prelude.{
  ◌≡◌, refl, some, List, [], ◌∷◌, map, arith, returned, number_key, text_key,
}

abbrev small : TopoConfig
small = record {
  clients = record { id = 110; port = "1/0"; asic = "sw" } ∷ [];
  spines = record { id = 1; address = "s"; leaf_ids = 0 ∷ []; asic = "sw" } ∷ [];
  leaves =
      record {
        id = 20;
        index = 0;
        address = "a";
        mgmt_address = "m";
        server_ids = 0 ∷ 1 ∷ [];
        asic = "sw";
        us_port = "1/0";
        ds_port = "1/0";
      }
      ∷ [];
  servers =
      record { id = 40; port = "1/0"; address = "x"; workers_count = 2 }
      ∷ record { id = 41; port = "1/0"; address = "y"; workers_count = 3 }
      ∷ [];
}

small-IsUint16 : IsUint16 small
small-IsUint16 = record {
  servers = omega arith;
  leaves = omega arith;
  spines = omega arith;
  clients = omega arith;
}

small_spines : (spines : List SpineInfo) × (spines_said small small.spines ≡ some spines)
small_spines = (_, refl)

abbrev said : TopoInfo
said = record {
  spines = small_spines.0;
  clients = map client_said small.clients;
  asics = [];
  port_config = [];
}

new_dcn_from_conf-eq_example : new_dcn_from_conf small registry ≡ new_dcn said registry
new_dcn_from_conf-eq_example =
    new_dcn_from_conf-eq small small_spines.0 registry [] [] small-IsUint16 small_spines.1

port_known : HasPort "sw" registry (port_named "1/0")
unfolding find_port find_asic load
port_known = record { named = _; found = up_port; named_eq = refl; found_eq = refl }

said-IsSound : IsSound registry said
unfolding find_asic load small_spines
said-IsSound = record {
  clients_ok = (record { asic = _; asic_eq = refl; port_ok = port_known }, tt);
  spines_ok = (
    record {
      named = _;
      found = _;
      named_eq = refl;
      found_eq = refl;
      leaves_ok = (
        record {
          asic = _;
          asic_eq = refl;
          ds_ok = port_known;
          us_ok = port_known;
          servers_ok = (port_known, (port_known, tt));
        },
        tt,
      );
    },
    tt,
  );
  server_ids_distinct = (refl, (refl, tt));
  leaf_ids_distinct = (refl, tt);
  spine_ids_distinct = (refl, tt);
}

new_dcn-IsValid_example : (t : Topology) × (new_dcn said registry ≡ returned t) × IsValid t
new_dcn-IsValid_example = new_dcn-IsValid said registry said-IsSound
