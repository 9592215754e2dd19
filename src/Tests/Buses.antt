-- ===== src/Tests/Buses.antt =====
-- The buses, packets and health checks.
use horus_controller.Health.Overdue.{marked, mark_failed_lem}
use horus_controller.SpineBus.Pending.{additions}
use horus_controller.Packet.RoundTrip.{padded}
use horus_controller.SpineBus.{on_new_server}
use horus_controller.Packet.RoundTrip.{decode-serialize}
use horus_controller.SpineBus.Pending.{empty_leaf_once}
use horus_controller.SpineBus.{SpineBus, on_new_leaf}
use horus_controller.Health.{mark_failed}
use horus_controller.Tests.Fixture.{fixture, plain}
use horus_controller.Prelude.{
  elem, Option, nat_beq, if◌then◌else◌, ℕ, ◌≡◌, refl, true, none, some, List, [], ◌∷◌, ◌++◌, arith,
  returned, number_key, text_key,
}
use horus_controller.GoMap.{load}
use horus_controller.Info.{ServerInfo, LeafInfo}
use horus_controller.Node.{Node, write, Node, leaf, server}
use horus_controller.Topology.State.{Topology}
use horus_controller.Packet.{
  header, zeros, serialize_to, decode_from_bytes, SerializeBuffer, HorusPacket,
}

prepend_room :
    (b xs : List ℕ) (fill : List ℕ → List ℕ)
    → ◌≡◌ {A = Option (List ℕ → List ℕ)} (some (λ ys. ys ++ b)) (some fill)
    → fill xs ≡ xs ++ b
prepend_room b xs fill h = ground arith

append_room :
    (b xs : List ℕ) (fill : List ℕ → List ℕ)
    → ◌≡◌ {A = Option (List ℕ → List ℕ)} (some (λ ys. b ++ ys)) (some fill)
    → fill xs ≡ b ++ xs
append_room b xs fill h = ground arith

-- A buffer that always has room.
abbrev byte_list : SerializeBuffer
byte_list = record {
  Buffer = List ℕ;
  bytes = λ b. b;
  prepend_bytes = λ n b. some (λ xs. xs ++ b);
  append_bytes = λ n b. some (λ xs. b ++ xs);
  prepend_law = λ n b fill xs h k. prepend_room b xs fill h;
  append_law = λ n b fill xs h k. append_room b xs fill h;
}

abbrev packet : HorusPacket
packet = record { pkt_type = 12; cluster_id = 1; src_id = 2; dst_id = 259; q_len = 0; seq_num = 0 }

decode-serialize_example :
    decode_from_bytes (header packet ++ padded (7 ∷ 8 ∷ []))
    ≡ some (record {
      packet = record {
        pkt_type = 12;
        cluster_id = 256;
        src_id = 512;
        dst_id = 769;
        q_len = 0;
        seq_num = 0;
      };
      contents = header packet;
      payload = 8 ∷ zeros 37;
    })
decode-serialize_example =
    decode-serialize byte_list packet (7 ∷ 8 ∷ []) (header packet ++ padded (7 ∷ 8 ∷ []))
      (unfold serialize_to in unfold header in refl)

-- Two servers that were healthy and ready: the second was heard of at 8, the first never.
abbrev pinged : ℕ → Node
pinged a =
    let n = plain a server none [] in
    record n { healthy = true; ready = true; last_ping_time = if nat_beq a 5 then 8 else 0 }

mark_failed_lem_example :
    let r = mark_failed 10 5 (4 ∷ 5 ∷ []) pinged [] in
    (r.1 ≡ 4 ∷ []) × ((c : ℕ) → r.0 c ≡ (if elem c (4 ∷ []) then marked (pinged c) else pinged c))
mark_failed_lem_example =
    mark_failed_lem 10 5 (4 ∷ 5 ∷ []) pinged [] (omega arith) (refl, (refl, tt))

-- The topology before and after the servers of leaf 20 come.
abbrev before : Topology
before = record fixture { nodes = write 2 (plain 20 leaf (some 1) []) fixture.nodes }

abbrev bus : SpineBus
bus = record { topology = before; pending_leaves = []; leaf_changes = [] }

abbrev leaf_info : LeafInfo
leaf_info = record {
  id = 20;
  index = 0;
  address = "";
  mgmt_address = "";
  servers = [];
  spine_id = 1;
  asic = none;
  ds_port = none;
  us_port = none;
}

abbrev server_info : ℕ → ServerInfo
server_info i = record { id = i; address = ""; workers_count = 1; leaf_id = 20; port = none }

empty_leaf_once_example :
    (bus1 bus2 bus3 : SpineBus) × (on_new_leaf leaf_info bus ≡ returned bus1)
    × (bus1.leaf_changes ≡ [])
    × (on_new_server (server_info 40) (record bus1 { topology = fixture }) ≡ returned bus2)
    × (bus2.leaf_changes ≡ record { leaf_id = 20; index = 0; added = true } ∷ [])
    × (additions 20 bus2.leaf_changes ≡ 1)
    × (on_new_server (server_info 41) bus2 ≡ returned bus3)
    × (bus3 ≡ bus2)
empty_leaf_once_example =
    empty_leaf_once leaf_info (server_info 40) (server_info 41) 2 4 5 bus fixture (omega arith)
      (unfold load in refl) refl (unfold load in refl) refl (unfold load in refl) refl refl
