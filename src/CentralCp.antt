-- ===== src/CentralCp.antt =====
-- ctrl_central/cp.go and the control planes of ctrl_central/controller.go: the ports of the switches.
-- The client of a switch is that of bfrt-go-client, an interface.
pub mod Enabled
use horus_controller.Ports.{set_dev_port, AsicSettings}
use horus_controller.Asic.{Asic, AsicRegistry, Port, PortRef}
use horus_controller.GoMap.{GoMap, load, store}
use horus_controller.Prelude.Words.{u32}
use horus_controller.Prelude.{
  true, false, ◌++◌, ◌==◌, ◌>>=◌, ℕ, String, Bool, Option, none, some, List, [], ◌∷◌, if◌then◌else◌,
  Outcome, deref, returned, crashed, text_key,
}

-- What NewClient is given for an ASIC.
pub record Client : Type 0 where
  pub device_id : ℕ  -- uint32
  pub pipe_id : ℕ  -- uint32
  pub ctrl_address : String
  pub program : String

abbrev pub client_of : Asic → Client
client_of asic = record {
  device_id = u32 asic.device_id;
  pipe_id = u32 asic.pipe_id;
  ctrl_address = asic.ctrl_address;
  program = asic.program;
}

-- `client.EnablePort(devPort, speed, fec, an)` and `client.DisablePort(devPort)`.
pub data PortOp : Type 0 where
  enable_port : Client → ℕ → String → String → String → PortOp
  disable_port : Client → ℕ → PortOp

-- The client library: the port of the device for a cage and a lane, if there is one, and whether a call
-- behind the calls so far ends without an error.
pub record Bfrt : Type 0 where
  pub get_dev_port : Client → ℕ → ℕ → Option ℕ
  pub accepts : PortOp → List PortOp → Bool

-- The registry of the topology, which the control planes share, and the calls of the clients so far.
pub record PortState : Type 0 where
  pub registry : AsicRegistry
  pub ops : List PortOp

-- FakeCentralizedCP, and BfrtCentralizedCP with its clientMap.
pub data Cp : Type 0 where
  fake : String → Cp
  bfrt : String → GoMap String Client → Cp

abbrev pub asic_of : Cp → String
asic_of (fake asic) = asic
asic_of (bfrt asic clients) = asic

-- `logrus.Fatal` where a call ends with an error.
abbrev pub or_exit : Bool → Outcome {0} Unit
or_exit true = returned tt
or_exit false = crashed

-- The loop over the ports of an ASIC: a port keeps a device port that it has, and an error of a call
-- ends the process.
unfoldable pub init_asic_ports :
    Bfrt → Client → GoMap String Port → List PortOp → Outcome (GoMap String Port × List PortOp)
unfolding set_dev_port
init_asic_ports b c [] ops = returned ([], ops)
init_asic_ports b c ((k, p) ∷ ps) ops = do
  dev ← deref (b.get_dev_port c p.spec.cage p.spec.lane)
  let op = enable_port c dev p.config.speed p.config.fec p.config.an
  accepted ← or_exit (b.accepts op ops)
  (ps', ops') ← init_asic_ports b c ps (ops ++ op ∷ [])
  returned ((k, set_dev_port dev p) ∷ ps', ops')

-- The loop over the ASICs of the registry.
unfoldable pub init_asics :
    Bfrt
    → GoMap String Asic
    → GoMap String Client
    → List PortOp
    → Outcome (GoMap String Asic × GoMap String Client × List PortOp)
unfolding init_asic_ports
init_asics b [] clients ops = returned ([], clients, ops)
init_asics b ((k, asic) ∷ asics) clients ops = do
  let c = client_of asic
  (ports, ops') ← init_asic_ports b c asic.port_registry.port_map ops
  (asics', clients', ops'') ← init_asics b asics (store asic.id c clients) ops'
  returned (
    (k, record asic { port_registry = record asic.port_registry { port_map = ports } }) ∷ asics',
    clients',
    ops'',
  )

-- `cp.InitPorts()`.
unfoldable pub init_ports : Bfrt → Cp → PortState → Outcome (Cp × PortState)
unfolding init_asics
init_ports b (fake asic) s = returned (fake asic, s)
init_ports b (bfrt asic clients) s = do
  (asics, clients', ops) ← init_asics b s.registry.asic_map clients s.ops
  returned (bfrt asic clients', record { registry = record { asic_map = asics }; ops = ops })

-- The errors of BringPortUp and TakePortDown: a nil port, an ASIC with no client, and an error of the
-- client.
pub data PortError : Type 0 where
  invalid_port client_not_found client_error : PortError

abbrev pub call_client : Bfrt → PortOp → PortState → Option PortError × PortState
call_client b op s =
    (if b.accepts op s.ops then none else some client_error, record s { ops = s.ops ++ op ∷ [] })

-- The port and the ASIC behind a pointer to a port.
unfoldable pub port_behind : PortRef → AsicRegistry → Outcome (Asic × Port)
port_behind ref registry = do
  asic ← deref (load ref.asic registry.asic_map)
  port ← deref (load ref.spec asic.port_registry.port_map)
  returned (asic, port)

-- `cp.BringPortUp(port)`: every port of a registry has its ASIC.
unfoldable pub bring_port_up :
    Bfrt → Cp → Option PortRef → PortState → Outcome (Option PortError × PortState)
unfolding port_behind
bring_port_up b cp none s = returned (some invalid_port, s)
bring_port_up b (fake asic) (some ref) s = returned (none, s)
bring_port_up b (bfrt asic clients) (some ref) s = do
  (owner, port) ← port_behind ref s.registry
  elim (load owner.id clients) [
    | none ↦ returned (some client_not_found, s)
    | some c ↦ returned (
        call_client b
          (enable_port c (u32 port.dev_port) port.config.speed port.config.fec port.config.an) s)
  ]

-- `cp.TakePortDown(port)`; the fake looks at no ASIC.
unfoldable pub take_port_down :
    Bfrt → Cp → Option PortRef → PortState → Outcome (Option PortError × PortState)
unfolding port_behind
take_port_down b cp none s = returned (some invalid_port, s)
take_port_down b (fake asic) (some ref) s = returned (none, s)
take_port_down b (bfrt asic clients) (some ref) s = do
  (owner, port) ← port_behind ref s.registry
  elim (load owner.id clients) [
    | none ↦ returned (some client_not_found, s)
    | some c ↦ returned (call_client b (disable_port c (u32 port.dev_port)) s)
  ]

-- NewCentralController makes a control plane for each ASIC of the configuration.
unfoldable pub make_cps : List AsicSettings → Outcome (List Cp)
make_cps [] = returned []
make_cps (cfg ∷ cfgs) = do
  cp ←
      (if cfg.ctrl_api == "fake"
        then returned (fake cfg.id)
        else (if cfg.ctrl_api == "bfrt" then returned (bfrt cfg.id []) else crashed))
  cps ← make_cps cfgs
  returned (cp ∷ cps)

-- Run: every control plane initialises its ports.
unfoldable pub run_cps : Bfrt → List Cp → PortState → Outcome (List Cp × PortState)
unfolding init_ports
run_cps b [] s = returned ([], s)
run_cps b (cp ∷ cps) s = do
  (cp', s') ← init_ports b cp s
  (cps', s'') ← run_cps b cps s'
  returned (cp' ∷ cps', s'')
