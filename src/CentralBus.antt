-- ===== src/CentralBus.antt =====
-- ctrl_central/bus.go: the event loop of the central controller, which turns ports on and off. The
-- control planes are those of ctrl_central/cp.go, one for each ASIC.
use horus_controller.Prelude.{
  String, Option, none, some, List, [], ◌∷◌, ◌++◌, if◌then◌else◌, ◌==◌, Outcome, ◌>>=◌, deref,
  returned, text_key,
}
use horus_controller.Messages.{PortMessage}
use horus_controller.Asic.{PortRef}

-- `cp.BringPortUp(port)` and `cp.TakePortDown(port)` of the control plane of an ASIC.
pub data PortCall : Type 0 where
  bring_port_up take_port_down : String → PortRef → PortCall

-- `getCP`: the control planes are given by the names of their ASICs.
unfoldable pub get_cp : String → List String → Option String
get_cp asic [] = none
get_cp asic (cp ∷ cps) = let rest = get_cp asic cps in if cp == asic then some cp else rest

-- A nil message or port is only logged; a port of an ASIC with no control plane is a nil call.
unfoldable pub on_port :
    (String → PortRef → PortCall)
    → Option PortMessage
    → List String
    → List PortCall
    → Outcome (List PortCall)
unfolding get_cp
on_port call none cps calls = returned calls
on_port call (some message) cps calls = elim message.port [
  | none ↦ returned calls
  | some port ↦ do cp ← deref (get_cp port.asic cps); returned (calls ++ call cp port ∷ [])
]

abbrev pub on_enabled_port :
    Option PortMessage → List String → List PortCall → Outcome (List PortCall)
on_enabled_port = on_port bring_port_up

abbrev pub on_disabled_port :
    Option PortMessage → List String → List PortCall → Outcome (List PortCall)
on_disabled_port = on_port take_port_down
