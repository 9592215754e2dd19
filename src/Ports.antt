-- ===== src/Ports.antt =====
-- core/model/port.go, core/model/asic.go, core/model/config.go: the registries of ASICs and ports, from the
-- configuration and from the messages of another controller.
pub mod Spec
pub mod Reread
pub mod Made
pub mod Bounds
use horus_controller.Ports.Spec.{expand_specs, new_port_spec}
use horus_controller.Switch.Mac.{codes}
use horus_controller.Asic.{Asic, AsicRegistry, Port, PortConfig, PortRegistry, PortSpec}
use horus_controller.Info.{AsicInfo, PortConfigInfo, PortInfo}
use horus_controller.GoMap.{GoMap, load, store}
use horus_controller.Prelude.{
  ℕ, ◌-◌, String, Bool, true, false, ◌&&◌, Option, none, some, List, [], ◌∷◌, map, leb, nat_beq,
  if◌then◌else◌, Key, ◌==◌, Outcome, ◌>>=◌, deref, returned, number_key, text_key,
}

-- `portConfig`, `asicConfig` and `portGroup` of the configuration.
pub record PortSettings : Type 0 where
  pub id : String
  pub speed : String
  pub fec : String
  pub an : String

pub record AsicSettings : Type 0 where
  pub id : String
  pub program : String
  pub device_id : ℕ  -- uint
  pub pipe_id : ℕ  -- uint
  pub ctrl_address : String
  pub ctrl_api : String

pub record PortGroup : Type 0 where
  pub specs : List String
  pub config : String
  pub asic : String

abbrev pub bf_speed_set : List (String × String)
bf_speed_set =
    ("BF_SPEED_1G", "BF_SPEED_1G")
    ∷ ("BF_SPEED_10G", "BF_SPEED_10G")
    ∷ ("BF_SPEED_25G", "BF_SPEED_25G")
    ∷ ("BF_SPEED_40G", "BF_SPEED_40G")
    ∷ ("BF_SPEED_50G", "BF_SPEED_50G")
    ∷ ("BF_SPEED_100G", "BF_SPEED_100G")
    ∷ ("BF_SPEED_200G", "BF_SPEED_200G")
    ∷ ("BF_SPEED_400G", "BF_SPEED_400G")
    ∷ []

abbrev pub bf_fec_set : List (String × String)
bf_fec_set =
    ("BF_FEC_TYP_NONE", "BF_FEC_TYP_NONE")
    ∷ ("BF_FEC_TYP_FIRECODE", "BF_FEC_TYP_FIRECODE")
    ∷ ("BF_FEC_TYP_REED_SOLOMON", "BF_FEC_TYP_REED_SOLOMON")
    ∷ []

abbrev pub bf_an_set : List (String × String)
bf_an_set =
    ("PM_AN_DEFAULT", "PM_AN_DEFAULT")
    ∷ ("PM_AN_FORCE_ENABLE", "PM_AN_FORCE_ENABLE")
    ∷ ("PM_AN_FORCE_DISABLE", "PM_AN_FORCE_DISABLE")
    ∷ []

abbrev pub bf_speed_map : List (String × String)
bf_speed_map =
    ("1G", "BF_SPEED_1G")
    ∷ ("10G", "BF_SPEED_10G")
    ∷ ("25G", "BF_SPEED_25G")
    ∷ ("40G", "BF_SPEED_40G")
    ∷ ("50G", "BF_SPEED_50G")
    ∷ ("100G", "BF_SPEED_100G")
    ∷ ("200G", "BF_SPEED_200G")
    ∷ ("400G", "BF_SPEED_400G")
    ∷ []

abbrev pub bf_fec_map : List (String × String)
bf_fec_map =
    ("NONE", "BF_FEC_TYP_NONE")
    ∷ ("FC", "BF_FEC_TYP_FIRECODE")
    ∷ ("RS", "BF_FEC_TYP_REED_SOLOMON")
    ∷ []

abbrev pub bf_an_map : List (String × String)
bf_an_map =
    ("AUTO", "PM_AN_DEFAULT")
    ∷ ("ENABLED", "PM_AN_FORCE_ENABLE")
    ∷ ("DISABLED", "PM_AN_FORCE_DISABLE")
    ∷ []

-- `unicode.ToUpper` as far as a key of the maps can come out: the letters a to z, and the two
-- other characters whose upper case is in ASCII, the dotless i and the long s.
abbrev pub upper : ℕ → ℕ
upper x =
    if leb 97 x && leb x 122
    then x - 32
    else (if nat_beq x 305 then 73 else (if nat_beq x 383 then 83 else x))

abbrev pub to_upper : String → List ℕ
to_upper text = map upper (codes text)

abbrev pub same_codes : List ℕ → List ℕ → Bool
same_codes [] [] = true
same_codes (x ∷ xs) (y ∷ ys) = nat_beq x y && same_codes xs ys
same_codes _ _ = false

-- A map of strings at a key that is given by its characters.
unfoldable pub find : List ℕ → List (String × String) → Option String
find key [] = none
find key ((k, v) ∷ m) = let rest = find key m in if same_codes key (codes k) then some v else rest

-- The three names, if each is found.
unfoldable pub names :
    PortSettings
    → List (String × String)
    → List (String × String)
    → List (String × String)
    → Option (String × String × String)
unfolding find
names cfg speeds fecs ans = elim (find (to_upper cfg.speed) speeds) [
  | none ↦ none
  | some speed ↦ elim (find (to_upper cfg.fec) fecs) [
    | none ↦ none
    | some fec ↦ elim (find (to_upper cfg.an) ans) [ none ↦ none | some an ↦ some (speed, fec, an) ]
  ]
]

abbrev pub or_else {ℓ} : {A : Type ℓ} → Option A → Option A → Option A
or_else none y = y
or_else (some x) y = some x

-- none is the error.
unfoldable pub new_port_config : PortSettings → Option PortConfig
unfolding names
new_port_config cfg =
    elim (or_else (names cfg bf_speed_set bf_fec_set bf_an_set)
      (names cfg bf_speed_map bf_fec_map bf_an_map)) [
        | none ↦ none
        | some (speed, fec, an) ↦
            if cfg.id == ""
            then none
            else some (record { id = cfg.id; speed = speed; fec = fec; an = an })
      ]

-- A new key is stored, one that is there is kept.
abbrev pub store_new {ℓ κ} : {K : Type ℓ} {V : Type κ} ⦃e : Key K⦄ → K → V → GoMap K V → GoMap K V
store_new k v m = elim (load k m) [ none ↦ store k v m | some old ↦ m ]

-- The loop over the port configurations.
unfoldable pub add_configs : List PortSettings → GoMap String PortConfig → GoMap String PortConfig
unfolding new_port_config load store
add_configs [] m = m
add_configs (cfg ∷ rest) m = elim (new_port_config cfg) [
  | none ↦ add_configs rest m
  | some c ↦ add_configs rest (store_new c.id c m)
]

unfoldable pub new_port : String → PortSpec → PortConfig → Port
new_port asic spec config = record { spec = spec; dev_port = 0; config = config; asic = asic }

unfoldable pub set_dev_port : ℕ → Port → Port
set_dev_port n p = if nat_beq p.dev_port 0 then record p { dev_port = n } else p

-- The loop over the ports of a message. A port without a configuration is a nil dereference.
unfoldable pub add_port_infos :
    String
    → GoMap String PortConfig
    → List PortInfo
    → GoMap String Port
    → Outcome (GoMap String Port)
unfolding new_port set_dev_port load store
add_port_infos asic configs [] m = returned m
add_port_infos asic configs (info ∷ rest) m = do
  cfg ← deref info.port_config
  elim (load cfg.id configs) [
    | none ↦ add_port_infos asic configs rest m
    | some c ↦
        let spec = new_port_spec info.cage info.lane in
        add_port_infos asic configs rest
          (store_new spec.id (set_dev_port info.dev_port (new_port asic spec c)) m)
  ]

abbrev pub settings_of : PortConfigInfo → PortSettings
settings_of c = record { id = c.id; speed = c.speed; fec = c.fec; an = c.an }

unfoldable pub new_port_registry_from_info :
    String → AsicInfo → List PortConfigInfo → Outcome PortRegistry
unfolding add_configs add_port_infos
new_port_registry_from_info asic info port_configs = do
  let configs = add_configs (map settings_of port_configs) []
  ports ← add_port_infos asic configs info.ports_info []
  returned (record { config_map = configs; port_map = ports })

-- The loop over the specs of a port group.
unfoldable pub add_specs :
    String → PortConfig → List PortSpec → GoMap String Port → GoMap String Port
unfolding new_port load store
add_specs asic c [] m = m
add_specs asic c (spec ∷ rest) m =
    add_specs asic c rest (store_new spec.id (new_port asic spec c) m)

-- The loop over the port groups.
unfoldable pub add_groups :
    String → GoMap String PortConfig → List PortGroup → GoMap String Port → GoMap String Port
unfolding add_specs expand_specs load
add_groups asic configs [] m = m
add_groups asic configs (g ∷ rest) m = elim (load g.config configs) [
  | none ↦ add_groups asic configs rest m
  | some c ↦ add_groups asic configs rest (add_specs asic c (expand_specs g.specs) m)
]

unfoldable pub new_port_registry : String → List PortSettings → List PortGroup → PortRegistry
unfolding add_configs add_groups
new_port_registry asic port_configs groups =
    let configs = add_configs port_configs [] in
    record { config_map = configs; port_map = add_groups asic configs groups [] }

unfoldable pub new_asic : AsicSettings → List PortSettings → List PortGroup → Asic
unfolding new_port_registry
new_asic cfg port_configs groups = record {
  id = cfg.id;
  program = cfg.program;
  device_id = cfg.device_id;
  pipe_id = cfg.pipe_id;
  ctrl_address = cfg.ctrl_address;
  ctrl_api = cfg.ctrl_api;
  port_registry = new_port_registry cfg.id port_configs groups;
}

unfoldable pub new_asic_from_info : AsicInfo → List PortConfigInfo → Outcome Asic
unfolding new_port_registry_from_info
new_asic_from_info info port_configs = do
  registry ← new_port_registry_from_info info.id info port_configs
  returned (record {
    id = info.id;
    program = info.program;
    device_id = info.device_id;
    pipe_id = info.pipe_id;
    ctrl_address = info.ctrl_address;
    ctrl_api = info.ctrl_api;
    port_registry = registry;
  })

abbrev pub filter_port_group : String → List PortGroup → List PortGroup
filter_port_group asic [] = []
filter_port_group asic (g ∷ rest) =
    let kept = filter_port_group asic rest in if g.asic == asic then g ∷ kept else kept

-- The loop over the ASICs of the configuration.
unfoldable pub add_asics :
    List AsicSettings → List PortSettings → List PortGroup → GoMap String Asic → GoMap String Asic
unfolding new_asic load store
add_asics [] port_configs groups m = m
add_asics (cfg ∷ rest) port_configs groups m =
    add_asics rest port_configs groups
      (store_new cfg.id (new_asic cfg port_configs (filter_port_group cfg.id groups)) m)

unfoldable pub new_asic_registry :
    List AsicSettings → List PortSettings → List PortGroup → AsicRegistry
unfolding add_asics
new_asic_registry cfgs port_configs groups = record {
  asic_map = add_asics cfgs port_configs groups [];
}

-- The loop over the ASICs of a message.
unfoldable pub add_asic_infos :
    List AsicInfo → List PortConfigInfo → GoMap String Asic → Outcome (GoMap String Asic)
unfolding new_asic_from_info load store
add_asic_infos [] port_configs m = returned m
add_asic_infos (info ∷ rest) port_configs m = do
  asic ← new_asic_from_info info port_configs
  add_asic_infos rest port_configs (store_new info.id asic m)

unfoldable pub new_asic_registry_from_info :
    List AsicInfo → List PortConfigInfo → Outcome AsicRegistry
unfolding add_asic_infos
new_asic_registry_from_info infos port_configs = do
  asics ← add_asic_infos infos port_configs []
  returned (record { asic_map = asics })
