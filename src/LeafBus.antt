-- ===== src/LeafBus.antt =====
-- ctrl_mgr/leafBus.go: the event loop of a leaf controller. An event of its select is a value, and a
-- handler returns the new state; the handlers run one after the other.
use horus_controller.GoMap.{load}
use horus_controller.Prelude.Words.{u16, add16}
use horus_controller.Prelude.{
  ℕ, ◌*◌, Bool, true, false, Option, none, some, List, [], ◌∷◌, ◌++◌, map, nat_beq, if◌then◌else◌,
  Outcome, ◌>>=◌, deref, returned, number_key,
}
use horus_controller.Node.{Node, leaf}
use horus_controller.Messages.{ServerAddedMessage}
use horus_controller.Packet.{
  pkt_type_idle_signal, pkt_type_idle_remove, pkt_type_keep_alive, pkt_type_worker_id, HorusPacket,
}
use horus_controller.Topology.State.{get_node, Topology}

-- `model.MAX_VCLUSTER_WORKERS`
abbrev pub max_vcluster_workers : ℕ
max_vcluster_workers = 16

-- A call of `cp.OnServerChange`, with the nodes (nil where the lookup failed), or of `cp.Cleanup`.
pub data CpCall : Type 0 where
  on_server_change : List (Option ℕ) → Bool → CpCall
  cleanup : ℕ → CpCall

pub record LeafBus : Type 0 where
  pub ctrl_id : ℕ  -- uint16
  pub topology : Topology
  pub cp_calls : List CpCall
  pub asic_egress : List (List ℕ)

-- `uint16(leaf.Index)*model.MAX_VCLUSTER_WORKERS + server.FirstWorkerID`
abbrev pub first_dst_id : ℕ → ℕ → ℕ
first_dst_id index first = add16 (u16 (index * max_vcluster_workers)) first

-- The packet that tells the spine of idle workers, or that there are none.
abbrev pub idle_packet : ℕ → ℕ → HorusPacket
idle_packet pkt_type ctrl_id = record {
  pkt_type = pkt_type;
  cluster_id = 0;
  src_id = ctrl_id;
  dst_id = 100;
  q_len = 0;
  seq_num = 0;
}

-- The packet that tells a server its first worker.
abbrev pub worker_id_packet : Node → Node → HorusPacket
worker_id_packet l s = record {
  pkt_type = pkt_type_worker_id;
  cluster_id = l.index;
  src_id = l.index;
  dst_id = first_dst_id l.index s.first_worker_id;
  q_len = first_dst_id l.index s.first_worker_id;
  seq_num = 0;
}

-- What the loop takes from gopacket: `CreateFullHorusPacket` (none is its error) and the parse of a
-- packet from the ASIC (none where there is no Horus layer).
module _ (create_full_horus_packet : HorusPacket → Option (List ℕ))
    (parse : List ℕ → Option HorusPacket) where
  -- `if err == nil { e.asicEgress <- pktBytes }`
  unfoldable pub send : HorusPacket → LeafBus → LeafBus
  send p bus = elim (create_full_horus_packet p) [
    | none ↦ bus
    | some pkt ↦ record bus { asic_egress = bus.asic_egress ++ pkt ∷ [] }
  ]

  -- A message about a new server from the RPC.
  unfoldable pub on_new_server : ServerAddedMessage → LeafBus → LeafBus
  unfolding send
  on_new_server message bus =
      let node = load (u16 message.server.id) bus.topology.servers in
      send (idle_packet pkt_type_idle_signal bus.ctrl_id)
        (record bus { cp_calls = bus.cp_calls ++ on_server_change (node ∷ []) true ∷ [] })

  -- The loop over the servers with new worker IDs; `leaf` is nil where the lookup failed.
  unfoldable pub send_worker_ids : Option ℕ → List ℕ → LeafBus → Outcome LeafBus
  unfolding send
  send_worker_ids found [] bus = returned bus
  send_worker_ids found (a ∷ rest) bus = do
    l ← deref found
    send_worker_ids found rest
        (send (worker_id_packet (bus.topology.nodes l) (bus.topology.nodes a)) bus)

  -- A message about updated servers from the health manager or the RPC.
  unfoldable pub on_updated_servers : List ℕ → LeafBus → Outcome LeafBus
  unfolding send_worker_ids
  on_updated_servers updated bus = do
    found ← get_node bus.ctrl_id leaf bus.topology
    send_worker_ids found updated (elim found [
      | none ↦ bus
      | some _ ↦ record bus {
        cp_calls = bus.cp_calls ++ on_server_change (map some updated) false ∷ [];
      }
    ])

  -- The node whose ping a packet from the ASIC is.
  unfoldable pub ping_of : List ℕ → Option ℕ
  ping_of pkt = elim (parse pkt) [
    | none ↦ none
    | some p ↦ if nat_beq p.pkt_type pkt_type_keep_alive then some p.src_id else none
  ]

  unfoldable pub shutdown : LeafBus → LeafBus
  unfolding send
  shutdown bus =
      let told = send (idle_packet pkt_type_idle_remove bus.ctrl_id) bus in
      record told { cp_calls = told.cp_calls ++ cleanup bus.ctrl_id ∷ [] }
