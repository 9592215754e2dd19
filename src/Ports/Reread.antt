-- ===== src/Ports/Reread.antt =====
-- A registry of ports that is encoded and read by another controller (core/model/port.go:
-- NewPortRegistryFromInfo, after core/model/asic.go: ToInfo and EncodeToPortConfigInfo).
use horus_controller.Prelude.Words.{u32}
use horus_controller.Ports.Spec.{new_port_spec}
use horus_controller.GoMap.{GoMap, load, values, load-store}
use horus_controller.Topology.Encode.{asic_to_info, port_to_info, config_info}
use horus_controller.Asic.{PortRegistry, Asic, Port, PortConfig}
use mathlib.Core.Path.{subst}
use horus_controller.Switch.Mac.{codes}
use mathlib.Core.Path.{subst}
use horus_controller.Ports.{
  new_port_registry_from_info, new_port, set_dev_port, store_new, add_configs, add_port_infos,
  or_else, bf_speed_map, bf_fec_map, bf_an_map, new_port_config, settings_of, bf_an_set, bf_fec_set,
  bf_speed_set, find, names, PortSettings, same_codes, to_upper,
}
use horus_controller.Prelude.{
  ◌<◌, none, map, if◌then◌else◌, returned, false, ◌==◌, refl, ap, ◌∙◌, Option-cases, ℕ, ◌≡◌, inl,
  inr, arith, String, some, List, [], ◌∷◌, All, Bool-cases, number_key, text_key,
}

-- What a map of strings gives is one of its values.
find-All :
    (P : String → Type 0) (key : List ℕ) (m : List (String × String)) (v : String)
    → All (λ e. P e.1) m
    → find key m ≡ some v
    → P v
unfolding find
find-All P key [] v p h = cc
find-All P key ((k, w) ∷ m) v p h = elim (Bool-cases (same_codes key (codes k))) [
  | inl e ↦ let same : w ≡ v = ground (arith, e, h) in subst P same p.0
  | inr e ↦ find-All P key m v p.1 (ground (arith, e, h))
]

-- A name that the code accepts as it is.
abbrev IsIn : List (String × String) → String → Type 0
IsIn table v = find (to_upper v) table ≡ some v

names-IsIn :
    (cfg : PortSettings) (speeds fecs ans : List (String × String)) (speed fec an : String)
    → All (λ e. IsIn bf_speed_set e.1) speeds
    → All (λ e. IsIn bf_fec_set e.1) fecs
    → All (λ e. IsIn bf_an_set e.1) ans
    → names cfg speeds fecs ans ≡ some (speed, fec, an)
    → IsIn bf_speed_set speed × IsIn bf_fec_set fec × IsIn bf_an_set an
unfolding names
names-IsIn cfg speeds fecs ans speed fec an p q r h =
    elim (Option-cases (find (to_upper cfg.speed) speeds)) [
      | inl e ↦ ground (arith, e, h)
      | inr (a, ea) ↦ elim (Option-cases (find (to_upper cfg.fec) fecs)) [
        | inl e ↦ ground (arith, e, ea, h)
        | inr (b, eb) ↦ elim (Option-cases (find (to_upper cfg.an) ans)) [
          | inl e ↦ ground (arith, e, ea, eb, h)
          | inr (d, ed) ↦
              let same : (a ≡ speed) × (b ≡ fec) × (d ≡ an) = ground (arith, ea, eb, ed, h) in
              (
                find-All (IsIn bf_speed_set) _ speeds speed p (ea ∙ ap some same.0),
                find-All (IsIn bf_fec_set) _ fecs fec q (eb ∙ ap some same.1),
                find-All (IsIn bf_an_set) _ ans an r (ed ∙ ap some same.2),
              )
        ]
      ]
    ]

-- What the sets and the maps have as values is in the sets.
speeds-IsIn :
    All (λ e. IsIn bf_speed_set e.1) bf_speed_set × All (λ e. IsIn bf_speed_set e.1) bf_speed_map
unfolding find
speeds-IsIn = (
  (refl, (refl, (refl, (refl, (refl, (refl, (refl, (refl, tt)))))))),
  (refl, (refl, (refl, (refl, (refl, (refl, (refl, (refl, tt)))))))),
)

fecs-IsIn : All (λ e. IsIn bf_fec_set e.1) bf_fec_set × All (λ e. IsIn bf_fec_set e.1) bf_fec_map
unfolding find
fecs-IsIn = ((refl, (refl, (refl, tt))), (refl, (refl, (refl, tt))))

ans-IsIn : All (λ e. IsIn bf_an_set e.1) bf_an_set × All (λ e. IsIn bf_an_set e.1) bf_an_map
unfolding find
ans-IsIn = ((refl, (refl, (refl, tt))), (refl, (refl, (refl, tt))))

-- A configuration that is read back as it is.
abbrev pub IsRead : PortConfig → Type 0
IsRead c = new_port_config (settings_of (config_info c)) ≡ some c

again-IsRead :
    (c : PortConfig)
    → IsIn bf_speed_set c.speed × IsIn bf_fec_set c.fec × IsIn bf_an_set c.an
    → (c.id == "") ≡ false
    → IsRead c
unfolding new_port_config names
again-IsRead c (p, q, r) h = ground (arith, p, q, r, h)

made_by :
    (cfg : PortSettings) (c : PortConfig) (speed fec an : String)
    → or_else
        (names cfg bf_speed_set bf_fec_set bf_an_set)
        (names cfg bf_speed_map bf_fec_map bf_an_map)
      ≡ some (speed, fec, an)
    → new_port_config cfg ≡ some c
    → ((c.id == "") ≡ false) × (speed ≡ c.speed) × (fec ≡ c.fec) × (an ≡ c.an)
unfolding new_port_config
made_by cfg c speed fec an e h = elim (Bool-cases (cfg.id == "")) [
  | inl empty ↦ ground (arith, e, h, empty)
  | inr named ↦ ground (arith, e, h, named)
]

-- A port configuration that NewPortConfig returns is accepted again with the names that it has then.
pub new_port_config-IsRead :
    (cfg : PortSettings) (c : PortConfig) → new_port_config cfg ≡ some c → IsRead c
unfolding new_port_config
new_port_config-IsRead cfg c h = elim (Option-cases (names cfg bf_speed_set bf_fec_set bf_an_set)) [
  | inr ((speed, fec, an), e) ↦
      let known =
        names-IsIn cfg bf_speed_set bf_fec_set bf_an_set speed fec an speeds-IsIn.0 fecs-IsIn.0
          ans-IsIn.0 e in
      let (named, a, b, d) = made_by cfg c speed fec an (ground (arith, e)) h in
      again-IsRead c
        (
          subst (IsIn bf_speed_set) a known.0,
          subst (IsIn bf_fec_set) b known.1,
          subst (IsIn bf_an_set) d known.2,
        )
        named
  | inl none_found ↦ elim (Option-cases (names cfg bf_speed_map bf_fec_map bf_an_map)) [
    | inl e ↦ ground (arith, none_found, e, h)
    | inr ((speed, fec, an), e) ↦
        let known =
          names-IsIn cfg bf_speed_map bf_fec_map bf_an_map speed fec an speeds-IsIn.1 fecs-IsIn.1
            ans-IsIn.1 e in
        let (named, a, b, d) = made_by cfg c speed fec an (ground (arith, e, none_found)) h in
        again-IsRead c
          (
            subst (IsIn bf_speed_set) a known.0,
            subst (IsIn bf_fec_set) b known.1,
            subst (IsIn bf_an_set) d known.2,
          )
          named
  ]
]

-- The registry `configs` of configurations lists each under its ID, as it is read back.
abbrev pub ConfigsOk : GoMap String PortConfig → Type 0
ConfigsOk m = All (λ e. (e.0 ≡ e.1.id) × IsRead e.1) m

-- The ports of an ASIC are listed by the IDs of their specs, with configurations of the registry.
pub record PortOk (asic : String) (configs : GoMap String PortConfig) (k : String) (p : Port)
    : Type 0 where
  pub key_eq : k ≡ p.spec.id
  pub cage_lt : p.spec.cage < 4294967296
  pub lane_lt : p.spec.lane < 4294967296
  pub spec_eq : new_port_spec p.spec.cage p.spec.lane ≡ p.spec
  pub config_known : load p.config.id configs ≡ some p.config
  pub asic_eq : p.asic ≡ asic

load-store_new :
    {V : Type 0} (k j : String) (v : V) (m : GoMap String V)
    → load j (store_new k v m) ≡ or_else (load j m) (if k == j then some v else none)
load-store_new k j v m = elim (Option-cases (load k m)) [
  | inl e ↦ ground (arith, e, load-store k j v m, text_key.same_iff k j)
  | inr (old, e) ↦ ground (arith, e, text_key.same_iff k j)
]

add_configs_lem :
    (m old : GoMap String PortConfig) (k : String)
    → ConfigsOk m
    → load k (add_configs (map settings_of (map config_info (values m))) old)
      ≡ or_else (load k old) (load k m)
unfolding add_configs values load
add_configs_lem [] old k good = elim (Option-cases (load k old)) [
  | inl e ↦ ground (arith, e)
  | inr (c, e) ↦ ground (arith, e)
]
add_configs_lem ((j, c) ∷ m) old k good =
    let read : new_port_config (settings_of (config_info c)) ≡ some c = good.0.1 in
    let ih = add_configs_lem m (store_new c.id c old) k good.1 in
    let stored = load-store_new c.id k c old in
    let named : j ≡ c.id = good.0.0 in
    elim (Option-cases (load k old)) [
      | inl e ↦ ground (arith, e, read, ih, stored, named)
      | inr (d, e) ↦ ground (arith, e, read, ih, stored)
    ]

add_port_infos_lem :
    (asic : String) (configs configs' : GoMap String PortConfig) (m old : GoMap String Port)
    → ((k : String) → load k configs' ≡ load k configs)
    → All (λ e. PortOk asic configs e.0 e.1) m
    → (m' : GoMap String Port) × (add_port_infos asic configs' (map port_to_info (values m)) old
        ≡ returned m')
      × ((k : String) → load k m' ≡ or_else (load k old) (load k m))
unfolding add_port_infos values load port_to_info
add_port_infos_lem asic configs configs' [] old same good = (
  old,
  refl,
  λ k. elim (Option-cases (load k old)) [
    | inl e ↦ ground (arith, e)
    | inr (q, e) ↦ ground (arith, e)
  ],
)
add_port_infos_lem asic configs configs' ((j, p) ∷ m) old same good =
    let spec = new_port_spec (u32 p.spec.cage) (u32 p.spec.lane) in
    let same_spec : spec ≡ p.spec = ground (arith, good.0) in
    let made = set_dev_port p.dev_port (new_port asic spec p.config) in
    let same_port : made ≡ p = ground (arith, same_spec, good.0) in
    let (m', ran, loads) =
      add_port_infos_lem asic configs configs' m (store_new spec.id made old) same good.1 in
    let stored = λ (k : String). load-store_new spec.id k made old in
    (
      m',
      ground (arith, same p.config.id, good.0, ran),
      λ k. elim (Option-cases (load k old)) [
        | inl e ↦ ground (arith, e, loads k, stored k, same_spec, same_port, good.0)
        | inr (q, e) ↦ ground (arith, e, loads k, stored k)
      ],
    )

-- The registry of an ASIC, encoded by EncodeToPortConfigInfo and ToInfo and read by
-- NewPortRegistryFromInfo, comes out the same: NewPortRegistryFromInfo returns, and finds the same
-- configuration and the same port under every ID. The configurations must be such as NewPortConfig
-- returns, and they and the ports listed under their IDs, with cages and lanes in uint32.
pub reread_port_registry :
    (a : Asic)
    → ConfigsOk a.port_registry.config_map
    → All (λ e. PortOk a.id a.port_registry.config_map e.0 e.1) a.port_registry.port_map
    → (pr : PortRegistry) × (new_port_registry_from_info a.id
          (asic_to_info a)
          (map config_info (values a.port_registry.config_map))
        ≡ returned pr)
      × ((k : String) → load k pr.config_map ≡ load k a.port_registry.config_map)
      × ((k : String) → load k pr.port_map ≡ load k a.port_registry.port_map)
unfolding new_port_registry_from_info asic_to_info
reread_port_registry a good_configs good_ports =
    let old = a.port_registry in
    let configs = add_configs (map settings_of (map config_info (values old.config_map))) [] in
    let same : (k : String) → load k configs ≡ load k old.config_map =
      λ k. add_configs_lem old.config_map [] k good_configs ∙ (unfold load in refl) in
    let (ports, ran, loads) =
      add_port_infos_lem a.id old.config_map configs old.port_map [] same good_ports in
    (
      record { config_map = configs; port_map = ports },
      ground (arith, ran),
      same,
      λ k. loads k ∙ (unfold load in refl),
    )
