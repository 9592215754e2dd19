-- ===== src/Tests/SwitchPorts.antt =====
-- The port of the fixture, with no device port yet, brought up.
use horus_controller.CentralCp.{
  Bfrt, Cp, bfrt, enable_port, PortState, client_of, init_ports, bring_port_up, port_behind,
}
use horus_controller.CentralCp.Enabled.{dev_port_set, IsKnown, brought_up}
use horus_controller.Tests.Fixture.{up_port, port, config}
use horus_controller.Asic.{Asic, Port}
use horus_controller.GoMap.{load}
use horus_controller.Prelude.{
  ◌≡◌, ◌++◌, ◌+◌, ◌*◌, refl, true, none, some, [], ◌∷◌, arith, returned, text_key,
}

-- A switch whose device ports are numbered by cage and lane.
abbrev device : Bfrt
device = record { get_dev_port = λ c cage lane. some (cage * 4 + lane); accepts = λ op ops. true }

-- NewPort leaves the device port 0.
abbrev fresh_port : Port
fresh_port = record port { dev_port = 0 }

abbrev sw : Asic
sw = record {
  id = "sw";
  program = "p";
  device_id = 0;
  pipe_id = 0;
  ctrl_address = "";
  ctrl_api = "v2";
  port_registry = record { config_map = ("c", config) ∷ []; port_map = ("1/0", fresh_port) ∷ [] };
}

abbrev before : PortState
before = record { registry = record { asic_map = ("sw", sw) ∷ [] }; ops = [] }

brought_up_example :
    (known : IsKnown device (client_of sw) fresh_port) × (cp : Cp) × (s' : PortState) × (init_ports
        device
        (bfrt "sw" [])
        before
      ≡ returned (cp, s'))
    × (bring_port_up device cp (some up_port) s'
        ≡ returned (
          none,
          record s' {
            ops =
                s'.ops
                ++ enable_port
                    (client_of sw)
                    (dev_port_set known.0 fresh_port)
                    port.config.speed
                    port.config.fec
                    port.config.an
                  ∷ [];
          },
        ))
brought_up_example =
    brought_up device "sw" before up_port sw fresh_port (λ c dev speed fec an ops. refl)
      (((_, refl, omega arith), tt), tt) ((refl, unfold load in refl), tt)
      (unfold port_behind load in refl)
