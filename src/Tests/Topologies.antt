-- ===== src/Tests/Topologies.antt =====
-- Leaves and servers that come and go in the topology of Fixture.
use horus_controller.Topology.Errors.{add_server_refused_iff}
use horus_controller.Topology.State.{TopoError}
use horus_controller.Prelude.Words.{u16}
use horus_controller.Topology.Valid.AttachLeaf.{add_leaf_to_spine-IsValid}
use horus_controller.Topology.Valid.AttachServer.{add_server_to_leaf-IsValid}
use horus_controller.Topology.Numbering.Add.{add_server-IsNumbered, add_server_overlap}
use horus_controller.Topology.Cases.{add_leaf_attached, add_server_attached}
use horus_controller.Topology.AddLeaf.{attach_leaf, leaf_ports, add_leaf_to_spine}
use horus_controller.Topology.AddServer.{attach_server, server_port, add_server_to_leaf}
use horus_controller.Topology.Numbering.{counts_of, IsNumbered}
use horus_controller.Info.{PortInfo, AsicInfo, ServerInfo, LeafInfo}
use horus_controller.Topology.Valid.Removed.{remove_server-IsValid}
use horus_controller.Topology.Numbering.Ownership.{remove_server-owners}
use horus_controller.Topology.RemoveLeaf.Effect.{LeafRemoved, remove_leaf_lem}
use horus_controller.Topology.Indices.{
  add_leaf_to_spine-IsIndexed, IsIndexed, remove_leaf-IsIndexed,
}
use horus_controller.Topology.RemoveLeaf.{remove_leaf}
use horus_controller.Tests.Fixture.{up_port, fixture, fixture-IsValid}
use horus_controller.Prelude.{
  ◌↔◌, ◌⊎◌, err, inl, none, ok, ℕ, ◌≡◌, refl, true, some, Option, Bool, List, [], ◌∷◌, arith,
  returned, number_key, text_key,
}
use horus_controller.Topology.Numbering.Owners.{owners, owns}
use horus_controller.GoMap.{load}
use horus_controller.Topology.State.{find_asic, find_port, Topology}
use horus_controller.Topology.Valid.{IsValid}
use horus_controller.Topology.RemoveServer.{remove_server}
use horus_controller.Topology.Numbering.Remove.{ServerRemoved, remove_server_lem}

remove_server_lem_example :
    (t' : Topology) × (updated : List ℕ) × (remove_server 40 fixture ≡ returned (t', true, updated))
    × ServerRemoved 40 4 2 fixture t' updated
remove_server_lem_example = remove_server_lem 40 4 fixture fixture-IsValid (unfold load in refl)

remove_leaf_lem_example :
    (t' : Topology) × (remove_leaf 20 fixture ≡ returned (t', some 0, 3 ∷ []))
    × LeafRemoved 20 2 1 fixture t'
remove_leaf_lem_example = remove_leaf_lem 20 2 fixture fixture-IsValid (unfold load in refl)

remove_server-owners_example :
    (t' : Topology) × (updated : List ℕ) × (remove_server 40 fixture ≡ returned (t', true, updated))
    × (owners t'.nodes 2 (t'.nodes 2).children ≡ 1)
remove_server-owners_example =
    remove_server-owners 40 4 2 fixture fixture-IsValid (unfold load in refl) (omega arith, tt)
      (omega arith)

remove_server-IsValid_example :
    (t' : Topology) × (answer : Bool × List ℕ) × (remove_server 41 fixture
      ≡ returned (t', answer.0, answer.1))
    × IsValid t'
remove_server-IsValid_example = remove_server-IsValid 41 fixture fixture-IsValid

remove_leaf-IsIndexed_example :
    (t' : Topology) × (answer : Option ℕ × List ℕ) × (remove_leaf 20 fixture
      ≡ returned (t', answer.0, answer.1))
    × IsIndexed t'.nodes 0 (t'.nodes 1).children
remove_leaf-IsIndexed_example =
    remove_leaf-IsIndexed 20 2 fixture fixture-IsValid (unfold load in refl) (refl, (refl, tt))

abbrev port_info : PortInfo
port_info = record { id = "1/0"; cage = 1; lane = 0; dev_port = 8; port_config = none }

abbrev asic_info : AsicInfo
asic_info = record {
  id = "sw";
  program = "p";
  device_id = 0;
  pipe_id = 0;
  ctrl_address = "";
  ctrl_api = "v2";
  ports_info = [];
}

-- A new server with three workers.
abbrev pub new_server_info : ServerInfo
new_server_info = record {
  id = 43;
  address = "b";
  workers_count = 3;
  leaf_id = 20;
  port = some port_info;
}

abbrev pub new_leaf_info : LeafInfo
new_leaf_info = record {
  id = 22;
  index = 0;
  address = "b";
  mgmt_address = "m";
  servers = [];
  spine_id = 1;
  asic = some asic_info;
  ds_port = some port_info;
  us_port = some port_info;
}

-- Five workers on the first leaf, one on the second.
leaf20-IsNumbered : IsNumbered fixture.nodes 2
leaf20-IsNumbered = record { laid_out = (refl, refl, (refl, refl, tt)); last_eq = inl refl }

leaf21-IsNumbered : IsNumbered fixture.nodes 3
leaf21-IsNumbered = record { laid_out = (refl, refl, tt); last_eq = inl refl }

pub found_port :
    (l : ℕ)
    → (fixture.nodes l).asic ≡ some "sw"
    → server_port new_server_info (fixture.nodes l) fixture.asic_registry ≡ returned up_port
unfolding server_port find_port find_asic load
found_port l h = rw h refl

add_server-IsNumbered_example :
    (t' : Topology) × (add_server_to_leaf new_server_info 20 fixture ≡ returned (t', ok 7))
    × IsNumbered t'.nodes 2
    × ((t'.nodes 2).children ≡ 4 ∷ 5 ∷ 7 ∷ [])
    × (counts_of t'.nodes 7 ≡ 3)
add_server-IsNumbered_example =
    add_server-IsNumbered new_server_info 20 2 up_port fixture fixture-IsValid (unfold load in refl)
      (unfold load in refl) (found_port 2 refl) leaf20-IsNumbered (λ e. omega (arith, e))

add_server_overlap_example :
    (t' : Topology) × (add_server_to_leaf new_server_info 21 fixture ≡ returned (t', ok 7))
    × ((t'.nodes 3).children ≡ 6 ∷ 7 ∷ [])
    × (owns (t'.nodes 6) 0 ≡ true)
    × (owns (t'.nodes 7) 0 ≡ true)
add_server_overlap_example =
    add_server_overlap new_server_info 21 3 6 up_port fixture fixture-IsValid (unfold load in refl)
      (unfold load in refl) (found_port 3 refl) leaf21-IsNumbered refl refl (omega arith)

add_leaf_to_spine-IsIndexed_example :
    (t' : Topology) × (add_leaf_to_spine new_leaf_info fixture ≡ returned (t', ok 7))
    × IsIndexed t'.nodes 0 (t'.nodes 1).children
    × ((t'.nodes 1).children ≡ 2 ∷ 3 ∷ 7 ∷ [])
add_leaf_to_spine-IsIndexed_example =
    add_leaf_to_spine-IsIndexed new_leaf_info 1 (up_port, up_port) fixture fixture-IsValid
      (unfold load in refl) (unfold load in refl) refl
      (unfold leaf_ports in unfold find_port in unfold find_asic in unfold load in refl)
      (refl, (refl, tt))

add_leaf_to_spine-IsValid_example : IsValid (attach_leaf new_leaf_info up_port up_port 1 fixture)
add_leaf_to_spine-IsValid_example =
    add_leaf_to_spine-IsValid new_leaf_info fixture
      (attach_leaf new_leaf_info up_port up_port 1 fixture) (ok 7) fixture-IsValid
      (add_leaf_attached new_leaf_info 1 (up_port, up_port) fixture (unfold load in refl)
        (unfold load in refl) refl
        (unfold leaf_ports in unfold find_port in unfold find_asic in unfold load in refl))

add_server_to_leaf-IsValid_example : IsValid (attach_server new_server_info up_port 2 fixture)
add_server_to_leaf-IsValid_example =
    add_server_to_leaf-IsValid new_server_info 20 fixture
      (attach_server new_server_info up_port 2 fixture) (ok 7) fixture-IsValid
      (add_server_attached new_server_info 20 2 up_port fixture (unfold load in refl)
        (unfold load in refl) (found_port 2 refl))

add_server_refused_iff_example :
    ((e : TopoError) × (add_server_to_leaf new_server_info 99 fixture ≡ returned (fixture, err e)))
    ↔ ((load 99 fixture.leaves ≡ none)
        ⊎ ((a : ℕ) × (load (u16 new_server_info.id) fixture.servers ≡ some a)))
add_server_refused_iff_example = add_server_refused_iff new_server_info 99 fixture
