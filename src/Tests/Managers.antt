-- ===== src/Tests/Managers.antt =====
-- The switch manager with two leaves.
use horus_controller.SwitchManager.{forward, shutdown, read}
use horus_controller.SwitchManager.Serving.{IsServing}
use horus_controller.SwitchManager.Leaves.{new_switch_manager-IsServing}
use horus_controller.SwitchManager.Removal.{read_while_closing, on_failed_leaf-IsRunning}
use horus_controller.Packet.{HorusPacket}
use horus_controller.Info.{LeafInfo}
use horus_controller.Prelude.{
  ◌≡◌, returned, crashed, ℕ, refl, Option, none, some, List, [], ◌∷◌, number_key,
}
use horus_controller.SwitchManager.{LeafController, SwitchManager, new_switch_manager}
use horus_controller.SwitchManager.Steps.{
  read-IsHandled, IsHandled, Run, start, Reach, here, next, forwarded, leaf_failed,
}

-- Packets are lists that start with the leaf.
abbrev create_packet : HorusPacket → Option (List ℕ)
create_packet p = some (p.dst_id ∷ p.pkt_type ∷ [])

abbrev parse_packet : List ℕ → Option HorusPacket
parse_packet [] = none
parse_packet (d ∷ rest) =
    some (record { pkt_type = 11; cluster_id = 0; src_id = 40; dst_id = d; q_len = 0; seq_num = 0 })

abbrev two_leaves : SwitchManager
two_leaves = new_switch_manager (20 ∷ 21 ∷ [])

abbrev lost_leaf : LeafInfo
lost_leaf = record {
  id = 20;
  index = 0;
  address = "";
  mgmt_address = "";
  servers = [];
  spine_id = 1;
  asic = none;
  ds_port = none;
  us_port = none;
}

two_leaves-IsServing : IsServing two_leaves
two_leaves-IsServing = new_switch_manager-IsServing (20 ∷ 21 ∷ []) (refl, (refl, tt))

-- The manager while the controller of leaf 20, which has failed, is shut down, and its last packet has
-- gone out.
one_closing : (r : Run) × Reach create_packet parse_packet (start (20 ∷ 21 ∷ [])) r
one_closing =
    let f =
      on_failed_leaf-IsRunning create_packet parse_packet lost_leaf two_leaves
        two_leaves-IsServing in
    (
      record { manager = forward 1 f.0; closing = f.1 },
      next (next here (leaf_failed lost_leaf refl f.2)) (forwarded 1),
    )

read-IsHandled_example : IsHandled create_packet parse_packet (21 ∷ 7 ∷ []) one_closing.0
read-IsHandled_example =
    read-IsHandled create_packet parse_packet (20 ∷ 21 ∷ []) one_closing.0 (21 ∷ 7 ∷ [])
      (refl, (refl, tt)) one_closing.1

abbrev leaf_20 : LeafController
leaf_20 = record { id = 20; asic_ingress = 0; asic_egress = 1 }

read_while_closing_example :
    (m' : SwitchManager) × (shutdown create_packet parse_packet leaf_20 two_leaves ≡ returned m')
    × (read create_packet parse_packet (20 ∷ 7 ∷ []) m' ≡ crashed)
unfolding new_switch_manager
read_while_closing_example =
    read_while_closing create_packet parse_packet (20 ∷ 7 ∷ [])
      (record { pkt_type = 11; cluster_id = 0; src_id = 40; dst_id = 20; q_len = 0; seq_num = 0 })
      leaf_20 two_leaves two_leaves-IsServing refl refl
