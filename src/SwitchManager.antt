-- ===== src/SwitchManager.antt =====
-- ctrl_mgr/asic.go and ctrl_mgr/manager.go: the switch manager, with the leaf controllers of a switch and
-- the end point that shares the switch's CPU port among them.
pub mod Serving
pub mod Steps
pub mod Removal
pub mod Leaves
pub mod Packets
pub mod Lookup
use horus_controller.Packet.{pkt_type_idle_remove, HorusPacket}
use horus_controller.LeafBus.{idle_packet}
use horus_controller.Info.{LeafInfo, TopoInfo}
use horus_controller.Controller.{Answer, fetch_topology}
use horus_controller.GoMap.{GoMap, load, store, delete}
use horus_controller.Prelude.Words.{u16}
use horus_controller.Prelude.{
  ◌>>=◌, ℕ, suc, ◌+◌, Bool, true, false, Option, none, some, List, [], ◌∷◌, ◌++◌, nat_beq,
  if◌then◌else◌, remove_at, Outcome, deref, returned, crashed, number_key,
}

-- A `chan []byte`: what was sent and not received yet, and whether it is closed. The buffers are
-- large, and a send that would block is not modelled.
pub record Channel : Type 0 where
  pub queue : List (List ℕ)
  pub closed : Bool

abbrev pub open_channel : Channel
open_channel = record { queue = []; closed = false }

-- The channels are objects, which the controllers and the maps share: their addresses.
abbrev pub ByteChannels : Type 0
ByteChannels = ℕ → Channel

-- The part of a leaf controller that the manager uses.
pub record LeafController : Type 0 where
  pub id : ℕ  -- uint16
  pub asic_ingress : ℕ
  pub asic_egress : ℕ

-- The manager with its end point: `agg_egress` is what the egress channels of the leaves hand on,
-- `started` and `cleaned` are the leaves whose StartBare and cp.Cleanup were called, in order.
pub record SwitchManager : Type 0 where
  pub channels : ByteChannels
  pub next : ℕ
  pub leaves : List LeafController
  pub leaf_ingress : GoMap ℕ ℕ
  pub leaf_egress : GoMap ℕ ℕ
  pub agg_egress : List (List ℕ)
  pub started : List ℕ
  pub cleaned : List ℕ

abbrev pub set_channel : ℕ → Channel → ByteChannels → ByteChannels
set_channel ch c channels b = if nat_beq ch b then c else channels b

-- `ch <- message`: a send on a closed channel ends the process.
unfoldable pub send_to : ℕ → List ℕ → SwitchManager → Outcome SwitchManager
send_to ch message m =
    let c = m.channels ch in
    if c.closed
    then crashed
    else returned (record m {
      channels = set_channel ch (record c { queue = c.queue ++ message ∷ [] }) m.channels;
    })

-- `close(ch)`: a second close ends the process.
unfoldable pub close : ℕ → SwitchManager → Outcome SwitchManager
close ch m =
    let c = m.channels ch in
    if c.closed
    then crashed
    else returned (record m { channels = set_channel ch (record c { closed = true }) m.channels })

-- NewBareLeafController: two new channels.
unfoldable pub new_bare_leaf_controller : ℕ → SwitchManager → SwitchManager × LeafController
new_bare_leaf_controller id m = (
  record m {
    channels = set_channel m.next open_channel (set_channel (m.next + 1) open_channel m.channels);
    next = m.next + 2;
  },
  record { id = id; asic_ingress = m.next; asic_egress = m.next + 1 },
)

unfoldable pub add_leaf_ctrl : LeafController → SwitchManager → SwitchManager
add_leaf_ctrl c m = record m {
  leaf_ingress = store c.id c.asic_ingress m.leaf_ingress;
  leaf_egress = store c.id c.asic_egress m.leaf_egress;
}

unfoldable pub remove_leaf_ctrl : LeafController → SwitchManager → SwitchManager
remove_leaf_ctrl c m = record m {
  leaf_ingress = delete c.id m.leaf_ingress;
  leaf_egress = delete c.id m.leaf_egress;
}

-- The handler of a new leaf, with the answer of the central controller to FetchTopology, which
-- returns only if the leaf is in the topology.
unfoldable pub on_new_leaf : LeafInfo → Answer TopoInfo → SwitchManager → Outcome SwitchManager
unfolding new_bare_leaf_controller add_leaf_ctrl
on_new_leaf info answer m = do
  asic ← deref info.asic
  let id = u16 info.id
  let r = new_bare_leaf_controller id m
  t ← fetch_topology id answer
  let m' = add_leaf_ctrl r.1 r.0
  returned (record m' { leaves = m'.leaves ++ r.1 ∷ []; started = m'.started ++ id ∷ [] })

-- The loop that looks for the failed leaf; the last one of the ID is taken.
unfoldable pub find_leaf :
    ℕ → List LeafController → ℕ → Option (ℕ × LeafController) → Option (ℕ × LeafController)
find_leaf id [] i found = found
find_leaf id (c ∷ cs) i found =
    find_leaf id cs (suc i) (if nat_beq c.id id then some (i, c) else found)

-- The part of the end point and of the controllers that takes from gopacket: the bytes of a packet
-- (none is its error) and the Horus layer of a packet from the ASIC (none where there is none).
module _ (create_full_horus_packet : HorusPacket → Option (List ℕ))
    (parse : List ℕ → Option HorusPacket) where
  -- Shutdown of the bus: the packet that removes the idle leaf, and cp.Cleanup.
  unfoldable pub shutdown_bus : LeafController → SwitchManager → Outcome SwitchManager
  unfolding send_to
  shutdown_bus c m = do
    told ← elim (create_full_horus_packet (idle_packet pkt_type_idle_remove c.id)) [
      | none ↦ returned m
      | some pkt ↦ send_to c.asic_egress pkt m
    ]
    returned (record told { cleaned = told.cleaned ++ c.id ∷ [] })

  -- Shutdown of a leaf controller, whose bus is there. The signals that end its goroutines, and the
  -- channel of its health manager, are left out.
  unfoldable pub shutdown : LeafController → SwitchManager → Outcome SwitchManager
  unfolding shutdown_bus close
  shutdown c m = do
    told ← shutdown_bus c m
    closed ← close c.asic_egress told
    close c.asic_ingress closed

  -- The handler of a failed leaf, up to the second that it sleeps, without a lock: the position and
  -- the controller with which it goes on.
  unfoldable pub on_failed_leaf :
      LeafInfo → SwitchManager → Outcome (SwitchManager × Option (ℕ × LeafController))
  unfolding find_leaf shutdown
  on_failed_leaf info m = elim (find_leaf (u16 info.id) m.leaves 0 none) [
    | none ↦ returned (m, none)
    | some (i, c) ↦ do m' ← shutdown c m; returned (m', some (i, c))
  ]

  -- What it does behind the second.
  unfoldable pub drop_leaf : ℕ → LeafController → SwitchManager → SwitchManager
  unfolding remove_leaf_ctrl
  drop_leaf i c m = let m' = remove_leaf_ctrl c m in record m' { leaves = remove_at i m'.leaves }

  -- One round of `read`: a packet from the ASIC goes to the controller of its leaf, if there is one.
  unfoldable pub read : List ℕ → SwitchManager → Outcome SwitchManager
  unfolding send_to
  read pkt m = elim (parse pkt) [
    | none ↦ returned m
    | some p ↦ elim (load p.dst_id m.leaf_ingress) [
      | none ↦ returned m
      | some ch ↦ send_to ch pkt m
    ]
  ]

-- One round of the goroutine that AddLeafCtrl starts for an egress channel.
unfoldable pub forward : ℕ → SwitchManager → SwitchManager
forward ch m =
    let c = m.channels ch in
    elim c.queue [
      | [] ↦ m
      | pkt ∷ rest ↦ record m {
        channels = set_channel ch (record c { queue = rest }) m.channels;
        agg_egress = m.agg_egress ++ pkt ∷ [];
      }
    ]

-- The leaves of the configuration: NewSwitchManager makes their controllers, and NewAsicEndPoint adds
-- them to its maps.
unfoldable pub configured : List ℕ → SwitchManager → SwitchManager
unfolding new_bare_leaf_controller add_leaf_ctrl
configured [] m = m
configured (id ∷ ids) m =
    let r = new_bare_leaf_controller id m in
    let m' = add_leaf_ctrl r.1 r.0 in configured ids (record m' { leaves = m'.leaves ++ r.1 ∷ [] })

abbrev pub no_leaves : SwitchManager
no_leaves = record {
  channels = λ ch. open_channel;
  next = 0;
  leaves = [];
  leaf_ingress = [];
  leaf_egress = [];
  agg_egress = [];
  started = [];
  cleaned = [];
}

unfoldable pub new_switch_manager : List ℕ → SwitchManager
unfolding configured
new_switch_manager ids = configured ids no_leaves
