-- ===== src/Ports/Made.antt =====
-- A registry of ports made from the configuration (core/model/port.go: NewPortRegistry, expandPortSpec;
-- core/model/asic.go: NewAsic).
use mathlib.Core.Path.{subst}
use horus_controller.Ports.Reread.{
  ConfigsOk, IsRead, new_port_config-IsRead, PortOk, reread_port_registry,
}
use horus_controller.Ports.{
  add_configs, add_groups, add_specs, AsicSettings, new_asic, new_port, new_port_config,
  new_port_registry, new_port_registry_from_info, PortGroup, PortSettings, store_new,
}
use horus_controller.Ports.Spec.{expand_specs, new_port_spec}
use horus_controller.Topology.Encode.{asic_to_info, config_info}
use horus_controller.Asic.{PortConfig, PortRegistry, PortSpec, Port}
use horus_controller.GoMap.{GoMap, load, store, values}
use horus_controller.Prelude.{
  ◌<◌, ◌≡◌, refl, sym, ap, ◌∙◌, inl, inr, arith, String, some, List, [], ◌∷◌, map, ◌==◌, All,
  Bool-cases, Option-cases, returned, number_key, text_key,
}

All-store :
    {V : Type 0} (P : String × V → Type 0) (k : String) (v : V) (m : GoMap String V)
    → P (k, v)
    → All P m
    → All P (store k v m)
unfolding store
All-store P k v [] p q = (p, tt)
All-store P k v ((j, w) ∷ m) p q = elim (Bool-cases (j == k)) [
  | inl e ↦ rw e (p, q.1)
  | inr e ↦ rw e (q.0, All-store P k v m p q.1)
]

All-store_new :
    {V : Type 0} (P : String × V → Type 0) (k : String) (v : V) (m : GoMap String V)
    → P (k, v)
    → All P m
    → All P (store_new k v m)
All-store_new P k v m p q = elim (Option-cases (load k m)) [
  | inl e ↦
      let eq : store_new k v m ≡ store k v m = ground (arith, e) in
      subst (All P) (sym eq) (All-store P k v m p q)
  | inr (old, e) ↦ let eq : store_new k v m ≡ m = ground (arith, e) in subst (All P) (sym eq) q
]

add_configs-ConfigsOk :
    (cfgs : List PortSettings) (m : GoMap String PortConfig)
    → ConfigsOk m
    → ConfigsOk (add_configs cfgs m)
unfolding add_configs
add_configs-ConfigsOk [] m q = q
add_configs-ConfigsOk (cfg ∷ rest) m q = elim (Option-cases (new_port_config cfg)) [
  | inl e ↦
      let eq : add_configs (cfg ∷ rest) m ≡ add_configs rest m = ground (arith, e) in
      subst ConfigsOk (sym eq) (add_configs-ConfigsOk rest m q)
  | inr (c, e) ↦
      let eq : add_configs (cfg ∷ rest) m ≡ add_configs rest (store_new c.id c m) =
        ground (arith, e) in
      subst ConfigsOk (sym eq) (
        add_configs-ConfigsOk rest (store_new c.id c m) (
          All-store_new (λ x. (x.0 ≡ x.1.id) × IsRead x.1) c.id c m
            (refl, new_port_config-IsRead cfg c e) q))
]

-- A spec as NewPortSpec makes it, whose numbers are in uint32.
abbrev pub SpecOk : PortSpec → Type 0
SpecOk spec =
    (new_port_spec spec.cage spec.lane ≡ spec) × (spec.cage < 4294967296) × (spec.lane < 4294967296)

add_specs-PortOk :
    (asic : String) (configs : GoMap String PortConfig) (c : PortConfig) (specs : List PortSpec)
    (m : GoMap String Port)
    → load c.id configs ≡ some c
    → All SpecOk specs
    → All (λ e. PortOk asic configs e.0 e.1) m
    → All (λ e. PortOk asic configs e.0 e.1) (add_specs asic c specs m)
unfolding add_specs
add_specs-PortOk asic configs c [] m h s q = q
add_specs-PortOk asic configs c (spec ∷ rest) m h s q =
    add_specs-PortOk asic configs c rest (store_new spec.id (new_port asic spec c) m) h s.1 (
      All-store_new (λ e. PortOk asic configs e.0 e.1) spec.id (new_port asic spec c) m
        (unfold new_port in
          record {
            key_eq = refl;
            cage_lt = s.0.1;
            lane_lt = s.0.2;
            spec_eq = s.0.0;
            config_known = h;
            asic_eq = refl;
          })
        q)

-- What a map of configurations has is under its ID.
load-ConfigsOk :
    (k : String) (c : PortConfig) (m : GoMap String PortConfig)
    → ConfigsOk m
    → load k m ≡ some c
    → k ≡ c.id
unfolding load
load-ConfigsOk k c [] q h = cc
load-ConfigsOk k c ((j, d) ∷ m) q h = elim (Bool-cases (j == k)) [
  | inl e ↦ ground (arith, e, h, q.0.0, text_key.same_iff j k)
  | inr e ↦ load-ConfigsOk k c m q.1 (ground (arith, e, h))
]

add_groups-PortOk :
    (asic : String) (configs : GoMap String PortConfig) (groups : List PortGroup)
    (m : GoMap String Port)
    → ConfigsOk configs
    → All (λ g. All SpecOk (expand_specs g.specs)) groups
    → All (λ e. PortOk asic configs e.0 e.1) m
    → All (λ e. PortOk asic configs e.0 e.1) (add_groups asic configs groups m)
unfolding add_groups
add_groups-PortOk asic configs [] m h s q = q
add_groups-PortOk asic configs (g ∷ rest) m h s q = elim (Option-cases (load g.config configs)) [
  | inl e ↦
      let eq : add_groups asic configs (g ∷ rest) m ≡ add_groups asic configs rest m =
        ground (arith, e) in
      subst (All (λ x. PortOk asic configs x.0 x.1)) (sym eq)
        (add_groups-PortOk asic configs rest m h s.1 q)
  | inr (c, e) ↦
      let known : load c.id configs ≡ some c =
        ap (λ k. load k configs) (sym (load-ConfigsOk g.config c configs h e)) ∙ e in
      let next = add_specs asic c (expand_specs g.specs) m in
      let eq : add_groups asic configs (g ∷ rest) m ≡ add_groups asic configs rest next =
        ground (arith, e) in
      subst (All (λ x. PortOk asic configs x.0 x.1)) (sym eq) (
        add_groups-PortOk asic configs rest next h s.1
          (add_specs-PortOk asic configs c (expand_specs g.specs) m known s.0 q))
]

-- An ASIC that NewAsic makes from the configuration, encoded by EncodeToPortConfigInfo and ToInfo and
-- read by NewPortRegistryFromInfo: this returns, and finds the same configuration and the same port
-- under every ID, if the specs of the groups expand to cages in uint32.
pub new_asic_reread :
    (cfg : AsicSettings) (configs : List PortSettings) (groups : List PortGroup)
    → All (λ g. All SpecOk (expand_specs g.specs)) groups
    → let a = new_asic cfg configs groups in
      (pr : PortRegistry) × (new_port_registry_from_info a.id
          (asic_to_info a)
          (map config_info (values a.port_registry.config_map))
        ≡ returned pr)
      × ((k : String) → load k pr.config_map ≡ load k a.port_registry.config_map)
      × ((k : String) → load k pr.port_map ≡ load k a.port_registry.port_map)
unfolding new_asic new_port_registry
new_asic_reread cfg configs groups s =
    let good = add_configs-ConfigsOk configs [] tt in
    reread_port_registry (new_asic cfg configs groups) good
      (add_groups-PortOk cfg.id (add_configs configs []) groups [] good s tt)
