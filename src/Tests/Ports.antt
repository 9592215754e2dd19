-- ===== src/Tests/Ports.antt =====
-- The registry of ports of Fixture.
use horus_controller.Ports.Bounds.{AreLanes, expand_port_spec-AreLanes}
use horus_controller.Ports.Made.{new_asic_reread, SpecOk}
use horus_controller.Ports.{new_asic, AsicSettings, PortGroup}
use horus_controller.Ports.Spec.{expand_specs}
use horus_controller.Ports.{new_port_registry_from_info, PortSettings}
use horus_controller.Ports.Spec.{atoi, expand_port_spec, new_port_spec}
use horus_controller.Topology.Encode.{asic_to_info, config_info}
use horus_controller.Asic.{PortRegistry}
use horus_controller.GoMap.{load, values}
use horus_controller.Prelude.{
  ℕ, ◌<◌, List, All, ◌≡◌, refl, arith, String, none, some, [], ◌∷◌, map, returned, text_key,
  number_key,
}

abbrev settings : PortSettings
settings = record { id = "c"; speed = "100g"; fec = "None"; an = "auto" }

abbrev cfg : AsicSettings
cfg = record {
  id = "sw";
  program = "p";
  device_id = 0;
  pipe_id = 0;
  ctrl_address = "";
  ctrl_api = "v2";
}

abbrev groups : List PortGroup
groups = record { specs = "1/0" ∷ "2/-" ∷ []; config = "c"; asic = "sw" } ∷ []

specs_known : All (λ g. All SpecOk (expand_specs g.specs)) groups
unfolding expand_specs expand_port_spec atoi new_port_spec
specs_known = (
  (
    (refl, omega arith, omega arith),
    (
      (refl, omega arith, omega arith),
      (
        (refl, omega arith, omega arith),
        ((refl, omega arith, omega arith), ((refl, omega arith, omega arith), tt)),
      ),
    ),
  ),
  tt,
)

new_asic_reread_example :
    let a = new_asic cfg (settings ∷ []) groups in
    (pr : PortRegistry) × (new_port_registry_from_info a.id
        (asic_to_info a)
        (map config_info (values a.port_registry.config_map))
      ≡ returned pr)
    × ((k : String) → load k pr.config_map ≡ load k a.port_registry.config_map)
    × ((k : String) → load k pr.port_map ≡ load k a.port_registry.port_map)
new_asic_reread_example = new_asic_reread cfg (settings ∷ []) groups specs_known

-- A spec with a lane, one with all four, and two that are refused.
one_lane_of : expand_port_spec " 12/3" ≡ some (new_port_spec 12 3 ∷ [])
unfolding expand_port_spec atoi
one_lane_of = refl

all_lanes_of :
    expand_port_spec "7/-"
    ≡ some (new_port_spec 7 0 ∷ new_port_spec 7 1 ∷ new_port_spec 7 2 ∷ new_port_spec 7 3 ∷ [])
unfolding expand_port_spec atoi
all_lanes_of = refl

no_lane_of : expand_port_spec "7/4" ≡ none
unfolding expand_port_spec atoi
no_lane_of = refl

two_slashes_of : expand_port_spec "7/1/2" ≡ none
unfolding expand_port_spec atoi
two_slashes_of = refl

expand_port_spec-AreLanes_example :
    (cage : ℕ) × AreLanes cage (new_port_spec 12 3 ∷ []) × (cage < 18446744073709551616)
expand_port_spec-AreLanes_example =
    expand_port_spec-AreLanes " 12/3" (new_port_spec 12 3 ∷ []) one_lane_of
