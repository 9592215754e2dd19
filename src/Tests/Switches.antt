-- ===== src/Tests/Switches.antt =====
-- The switches of the topology of Fixture, with a client on functions.
use horus_controller.Switch.SpineCp.Entries.{leaf_port_entry, leaf_port_table}
use horus_controller.Switch.SpineCp.Added.{leaf_added_tables}
use horus_controller.Topology.AddLeaf.{add_leaf_to_spine, leaf_ports}
use horus_controller.Switch.Spine.{exact}
use horus_controller.Tests.Topologies.{new_leaf_info}
use horus_controller.Switch.Leaf.Forward.{IsFinite}
use horus_controller.Topology.Numbering.{counts_of}
use horus_controller.Topology.Numbering.Unique.{laid_out_unique}
use horus_controller.Topology.State.{find_asic, find_port}
use horus_controller.Topology.AddServer.{add_server_to_leaf, server_port}
use horus_controller.Info.{ServerInfo}
use horus_controller.Switch.Leaf.AfterAddition.{server_added-IsServed}
use horus_controller.Topology.Numbering.Owners.{owns}
use horus_controller.Switch.Mac.{separated, parse_mac, mac_data}
use horus_controller.Tests.Fake.{Memory, empty_switch, fake}
use horus_controller.Tests.Fixture.{up_port, fixture, fixture-IsValid, fixture_nodes}
use horus_controller.Switch.Leaf.AfterRemoval.{server_failed-IsServed}
use horus_controller.Switch.Leaf.Forward.{forward_table, dst_key, IsServed, forward_entry}
use horus_controller.Switch.Leaf.{worker_index, server_change_all}
use horus_controller.Switch.SpineCp.Indexed.{IsTabled, leaf_failed_tables}
use horus_controller.Switch.SpineCp.Tracked.{failed_leaf_tracked_iff}
use horus_controller.Switch.SpineCp.{
  leaf_id_map_1, leaf_id_map_2, spine_leaf_change_v1, spine_leaf_change_v2,
}
use horus_controller.Switch.Workers.Loop.{each_worker_lem, each_worker_endless}
use horus_controller.Switch.Workers.{dev_port, each_worker, worker_fuel, workers_from}
use horus_controller.Topology.RemoveLeaf.{remove_leaf}
use horus_controller.Topology.RemoveServer.{remove_server}
use horus_controller.Topology.State.{Topology}
use horus_controller.Topology.Valid.{IsValid}
use horus_controller.Node.{Node}
use mathlib.Core.Path.{subst}
use horus_controller.GoMap.{load}
use horus_controller.Switch.Leaf.Handlers.{server_change_v1, server_change_v2}
use horus_controller.Prelude.{
  ◌⊎◌, crashed, inr, nat_beq, Bool-cases, elem, ◌+◌, ◌==◌, ℕ, zero, suc, ◌-◌, ◌≡◌, ◌≢◌, ◌↔◌, refl,
  inl, arith, true, false, Option, none, some, List, [], ◌∷◌, ltb, if◌then◌else◌, Outcome, ok,
  returned, hung, number_key, text_key,
}

leaf_failed_tables_example :
    (t' : Topology) × (answer : Option ℕ × List ℕ) × (remove_leaf 20 fixture
      ≡ returned (t', answer.0, answer.1))
    × ((t'.nodes 1).children ≡ 3 ∷ [])
    × (s' : Memory) × (spine_leaf_change_v1 fake t' 1 20 false empty_switch ≡ returned s')
    × IsTabled fake t'.nodes (t'.nodes 1).children s'
leaf_failed_tables_example =
    leaf_failed_tables fake 20 2 fixture empty_switch fixture-IsValid (unfold load in refl)
      (refl, (refl, tt)) (omega arith)
      (record {
        low_1 = omega arith;
        low_2 = omega arith;
        deferred_1 = omega arith;
        deferred_2 = omega arith;
      })

leaf_added_tables_example :
    (t' : Topology) × (add_leaf_to_spine new_leaf_info fixture ≡ returned (t', ok 7))
    × (s' : Memory) × (spine_leaf_change_v1 fake t' 1 new_leaf_info.id true empty_switch
        ≡ returned s')
    × IsTabled fake t'.nodes (t'.nodes 1).children s'
    × (s'.tables leaf_port_table (exact "hdr.horus.dst_id" new_leaf_info.id ∷ [])
        ≡ some (leaf_port_entry new_leaf_info.id 8))
leaf_added_tables_example =
    leaf_added_tables fake new_leaf_info 1 8 (up_port, up_port) fixture empty_switch fixture-IsValid
      (unfold load in refl) (unfold load in refl) refl
      (unfold leaf_ports in unfold find_port in unfold find_asic in unfold load in refl)
      (unfold dev_port in unfold load in refl) (refl, (refl, tt)) (omega arith)
      (record {
        low_1 = omega arith;
        low_2 = omega arith;
        deferred_1 = omega arith;
        deferred_2 = omega arith;
      })

-- The servers with the IDs 40 and 41 have addresses of their own.
abbrev mac_nodes : ℕ → Node
mac_nodes (suc (suc (suc (suc zero)))) = record (fixture_nodes 4) { address = "02:00:00:00:00:0a" }
mac_nodes n = record (fixture_nodes n) { address = "02:00:00:00:00:0B" }

abbrev mac_fixture : Topology
mac_fixture = record fixture { nodes = mac_nodes }

mac_fixture-IsValid : IsValid mac_fixture
unfolding load
mac_fixture-IsValid = record {
  servers_ok = λ k a h. ground arith;
  leaves_ok = λ k a h. ground arith;
  spines_ok = λ k a h. ground arith;
  leaf_children = λ k a c h m. ground arith;
  spine_children = λ k a c h m. ground arith;
}

abbrev mac_of : ℕ → ℕ
mac_of (suc (suc (suc (suc zero)))) = 2199023255562
mac_of n = 2199023255563

-- A switch that sends the worker IDs 0 and 1 to the first server, and the others to the second.
abbrev served_switch : Memory
served_switch = record {
  tables = λ t ks. elim ks [
    | [] ↦ none
    | k ∷ rest ↦ some (
        forward_entry 20 (k.value - 320) 8
          (if ltb k.value 322 then 2199023255562 else 2199023255563))
  ];
  registers = λ r i. none;
}

-- The two servers of the leaf.
first_two : (P : ℕ → Type 0) → P 4 → P 5 → (a : ℕ) → elem a (4 ∷ 5 ∷ []) ≡ true → P a
first_two P p q a m = elim (Bool-cases (nat_beq 4 a)) [
  | inl e ↦ let same : 4 ≡ a = ground arith in subst P same p
  | inr e ↦ let same : 5 ≡ a = ground arith in subst P same q
]

mac_known :
    (b : ℕ) → elem b (4 ∷ 5 ∷ []) ≡ true → mac_data (mac_nodes b).address ≡ returned (mac_of b)
unfolding mac_data parse_mac separated
mac_known = first_two (λ b. mac_data (mac_nodes b).address ≡ returned (mac_of b)) refl refl

port_known :
    (b : ℕ) → elem b (4 ∷ 5 ∷ []) ≡ true → dev_port mac_fixture (mac_nodes b).port ≡ returned 8
unfolding dev_port load
port_known = first_two (λ b. dev_port mac_fixture (mac_nodes b).port ≡ returned 8) refl refl

served_switch-IsServed : IsServed fake mac_nodes 20 (λ a. 8) mac_of (4 ∷ 5 ∷ []) served_switch
served_switch-IsServed a wid m =
    first_two
      (λ b.
        owns (mac_nodes b) wid ≡ true
        → served_switch.tables forward_table (dst_key 20 wid)
          ≡ some (forward_entry 20 wid 8 (mac_of b)))
      (λ o. let at : worker_index 20 wid ≡ 320 + wid = ground (arith, o) in ground (arith, at, o))
      (λ o. let at : worker_index 20 wid ≡ 320 + wid = ground (arith, o) in ground (arith, at, o)) a
      m

up_known : dev_port mac_fixture (some up_port) ≡ returned 8
unfolding dev_port load
up_known = refl

mac_new : mac_data "02:00:00:00:00:0B" ≡ returned 2199023255563
unfolding mac_data parse_mac separated
mac_new = refl

mac_nodes-IsFinite : (b : ℕ) → elem b (4 ∷ 5 ∷ []) ≡ true → IsFinite (mac_nodes b)
mac_nodes-IsFinite =
    first_two (λ b. IsFinite (mac_nodes b)) (omega arith, omega arith) (omega arith, omega arith)

one_owner :
    (a b wid : ℕ)
    → elem a (4 ∷ 5 ∷ []) ≡ true
    → elem b (4 ∷ 5 ∷ []) ≡ true
    → owns (mac_nodes a) wid ≡ true
    → owns (mac_nodes b) wid ≡ true
    → a ≡ b
one_owner a b wid m n o p =
    laid_out_unique mac_nodes (counts_of mac_nodes) wid a b (4 ∷ 5 ∷ [])
      (refl, refl, (refl, refl, tt)) (omega arith, (omega arith, tt)) (omega arith) m n o p

-- The same switch, with a count of idle workers.
abbrev counting_switch : Memory
counting_switch = record served_switch { registers = λ r i. some 5 }

server_failed-IsServed_example :
    (t' : Topology) × (updated : List ℕ) × (remove_server 40 mac_fixture
      ≡ returned (t', true, updated))
    × ((s1 : Memory) × (server_change_v1 fake t' 2 updated false served_switch ≡ returned s1)
        × IsServed fake t'.nodes 20 (λ a. 8) mac_of (t'.nodes 2).children s1)
    × ((((t'.nodes 2).children ≡ [])
          × (server_change_v2 fake t' 2 updated false served_switch ≡ crashed))
        ⊎ ((s2 : Memory) × (server_change_v2 fake t' 2 updated false served_switch ≡ returned s2)
            × IsServed fake t'.nodes 20 (λ a. 8) mac_of (t'.nodes 2).children s2))
server_failed-IsServed_example =
    server_failed-IsServed fake 40 4 (λ a. 8) mac_of mac_fixture served_switch mac_fixture-IsValid
      (unfold load in refl)
      (record { laid_out = (refl, refl, (refl, refl, tt)); last_eq = inl refl })
      (omega arith, (omega arith, tt)) (omega arith) (λ b m. (mac_known b m, port_known b m))
      (record { first = omega arith; second = omega arith; low = omega arith; high = omega arith })
      served_switch-IsServed

-- The third server comes to the leaf.
abbrev third_server : ServerInfo
third_server = record {
  id = 43;
  address = "02:00:00:00:00:0B";
  workers_count = 2;
  leaf_id = 20;
  port = some (record { id = "1/0"; cage = 1; lane = 0; dev_port = 8; port_config = none });
}

server_added-IsServed_example :
    (t' : Topology) × (add_server_to_leaf third_server 20 mac_fixture ≡ returned (t', ok 7))
    × (s' : Memory) × (server_change_all fake t' 2 (7 ∷ []) true counting_switch ≡ returned s')
    × IsServed fake t'.nodes 20 (λ a. 8) mac_of (t'.nodes 2).children s'
server_added-IsServed_example =
    server_added-IsServed fake third_server 20 2 5 up_port (λ a. 8) mac_of mac_fixture
      counting_switch mac_fixture-IsValid (unfold load in refl) (unfold load in refl)
      (unfold server_port in unfold find_port in unfold find_asic in unfold load in refl)
      (record { laid_out = (refl, refl, (refl, refl, tt)); last_eq = inl refl })
      (omega arith, (omega arith, tt)) (omega arith) (omega arith) (λ e. omega (arith, e))
      (λ b m. (mac_known b m, port_known b m)) mac_new up_known (omega arith) refl
      served_switch-IsServed

abbrev tracking_switch : Memory
tracking_switch = record {
  tables = λ t ks. none;
  registers = λ r i. if r == leaf_id_map_1 then some 21 else some 20;
}

abbrev i1 : ℕ
i1 = 21

abbrev i2 : ℕ
i2 = 20

failed_leaf_tracked_iff_example :
    (s' : Memory) × (spine_leaf_change_v2 fake fixture 1 21 false tracking_switch ≡ returned s')
    × ((s'.registers leaf_id_map_1 0 ≡ some 21) ↔ ((i1 ≡ 21) × (i2 ≡ 21)))
    × (s'.registers leaf_id_map_2 0 ≢ some 21)
failed_leaf_tracked_iff_example =
    failed_leaf_tracked_iff fake fixture 1 21 21 20 2 (3 ∷ []) tracking_switch refl
      (λ e. omega (arith, e))
      (record { map_1 = omega arith; map_2 = omega arith; low = omega arith; high = omega arith })
      refl refl

-- A body that adds up the worker IDs.
abbrev add_up : ℕ → ℕ → Outcome ℕ
add_up wid total = returned (total + wid)

each_worker_lem_example : each_worker worker_fuel 2 4 add_up 0 ≡ workers_from 3 2 add_up 0
each_worker_lem_example = each_worker_lem 2 4 add_up 0 (omega arith) (omega arith)

each_worker_endless_example : each_worker 100000 0 65535 add_up 0 ≡ hung
each_worker_endless_example =
    each_worker_endless 100000 0 add_up 0 (omega arith) (λ wid total. (total + wid, refl))
