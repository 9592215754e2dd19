-- ===== src/Topology/Conf/Agrees.antt =====
-- NewDCNFromConf and NewDCNFromTopoInfo (core/model/topology.go) make the same topology from a configuration
-- and from the message that says the same.
use horus_controller.Asic.{AsicRegistry}
use horus_controller.Prelude.Words.{u16}
use horus_controller.Topology.Build.{
  build_leaves, build_spines, build_clients, new_dcn, build_leaf, build_servers,
}
use horus_controller.Topology.State.{find_asic, find_port, or_fatal, Topology}
use horus_controller.Topology.Conf.{
  conf_leaves, conf_spines, conf_clients, new_dcn_from_conf, conf_leaf, ClientConfig, SpineConfig,
  LeafConfig, ServerConfig, TopoConfig, conf_servers,
}
use horus_controller.Info.{
  PortConfigInfo, PortInfo, AsicInfo, ClientInfo, ServerInfo, LeafInfo, SpineInfo,
}
use mathlib.Core.Path.{subst}
use horus_controller.Prelude.{
  ◌∙◌, map, bind_first, refl, inl, inr, Option-cases, bind_congr, ℕ, zero, suc, ◌<◌, String, ◌≡◌,
  Option, none, some, List, [], ◌∷◌, arith, get_elem?, All, number_key,
}

-- The parts of a message that name an ASIC or a port: only the ID is read.
abbrev pub asic_named : String → Option AsicInfo
asic_named id = some (record {
  id = id;
  program = "";
  device_id = 0;
  pipe_id = 0;
  ctrl_address = "";
  ctrl_api = "";
  ports_info = [];
})

abbrev pub port_named : String → Option PortInfo
port_named id = some (record { id = id; cage = 0; lane = 0; dev_port = 0; port_config = none })

abbrev pub server_said : ServerConfig → ServerInfo
server_said conf = record {
  id = conf.id;
  address = conf.address;
  workers_count = conf.workers_count;
  leaf_id = 0;
  port = port_named conf.port;
}

abbrev pub client_said : ClientConfig → ClientInfo
client_said conf = record {
  id = conf.id;
  address = "";
  asic = asic_named conf.asic;
  port = port_named conf.port;
}

-- The entries at some places of a list, where all the places are there.
abbrev pub at_places {ℓ κ} :
    {A : Type ℓ} {B : Type κ} → (A → Option B) → List A → List ℕ → Option (List B)
at_places f xs [] = some []
at_places f xs (i ∷ is) = elim (get_elem? xs i) [
  | none ↦ none
  | some x ↦ elim (f x) [
    | none ↦ none
    | some y ↦ elim (at_places f xs is) [ none ↦ none | some ys ↦ some (y ∷ ys) ]
  ]
]

module _ (cfg : TopoConfig) where
  -- The message of a leaf or spine of the configuration, where every place that it names is there.
  abbrev pub leaf_said : LeafConfig → Option LeafInfo
  leaf_said conf = elim (at_places (λ s. some (server_said s)) cfg.servers conf.server_ids) [
    | none ↦ none
    | some servers ↦ some (record {
      id = conf.id;
      index = conf.index;
      address = conf.address;
      mgmt_address = conf.mgmt_address;
      servers = servers;
      spine_id = 0;
      asic = asic_named conf.asic;
      ds_port = port_named conf.ds_port;
      us_port = port_named conf.us_port;
    })
  ]

  abbrev pub spine_said : SpineConfig → Option SpineInfo
  spine_said conf = elim (at_places leaf_said cfg.leaves conf.leaf_ids) [
    | none ↦ none
    | some leaves ↦ some (record {
      id = conf.id;
      address = conf.address;
      leaves = leaves;
      asic = asic_named conf.asic;
    })
  ]

  abbrev pub spines_said : List SpineConfig → Option (List SpineInfo)
  spines_said [] = some []
  spines_said (conf ∷ confs) = elim (spine_said conf) [
    | none ↦ none
    | some info ↦ elim (spines_said confs) [ none ↦ none | some infos ↦ some (info ∷ infos) ]
  ]

  -- The IDs and the other numbers of the configuration are uint16.
  pub record IsUint16 : Type 0 where
    pub servers : All (λ c. (c.id < 65536) × (c.workers_count < 65536)) cfg.servers
    pub leaves : All (λ c. (c.id < 65536) × (c.index < 65536)) cfg.leaves
    pub spines : All (λ c. c.id < 65536) cfg.spines
    pub clients : All (λ c. c.id < 65536) cfg.clients

pub at_place {ℓ κ} :
    {A : Type ℓ} (P : A → Type κ) (xs : List A) (i : ℕ) (x : A)
    → All P xs
    → get_elem? xs i ≡ some x
    → P x
at_place P [] i x h e = cc
at_place P (y ∷ ys) zero x h e = subst P (ground (arith, e)) h.0
at_place P (y ∷ ys) (suc i) x h e = at_place P ys i x h.1 e

-- The first of the entries, and the others.
pub record Places {ℓ κ} {A : Type ℓ} {B : Type κ} (f : A → Option B) (xs : List A) (i : ℕ)
    (is : List ℕ) (ys : List B) : Type (ℓ ⊔ κ) where
  pub entry : A
  pub image : B
  pub images : List B
  pub entry_eq : get_elem? xs i ≡ some entry
  pub image_eq : f entry ≡ some image
  pub images_eq : at_places f xs is ≡ some images
  pub list_eq : ys ≡ image ∷ images

pub at_places-cons {ℓ κ} :
    {A : Type ℓ} {B : Type κ} (f : A → Option B) (xs : List A) (i : ℕ) (is : List ℕ) (ys : List B)
    → at_places f xs (i ∷ is) ≡ some ys
    → Places f xs i is ys
at_places-cons f xs i is ys h = elim (Option-cases (get_elem? xs i)) [
  | inl e ↦ absurd (ground (arith, e, h))
  | inr (x, e) ↦ elim (Option-cases (f x)) [
    | inl e' ↦ absurd (ground (arith, e, e', h))
    | inr (y, e') ↦ elim (Option-cases (at_places f xs is)) [
      | inl e'' ↦ absurd (ground (arith, e, e', e'', h))
      | inr (rest, e'') ↦ record {
        entry = x;
        image = y;
        images = rest;
        entry_eq = e;
        image_eq = e';
        images_eq = e'';
        list_eq = ground (arith, e, e', e'', h);
      }
    ]
  ]
]

module _ (cfg : TopoConfig) (words : IsUint16 cfg) where
  conf_servers-eq :
      (asic : String) (l : ℕ) (ids : List ℕ) (infos : List ServerInfo) (w : ℕ) (t : Topology)
      → at_places (λ s. some (server_said s)) cfg.servers ids ≡ some infos
      → conf_servers cfg asic l ids w t ≡ build_servers asic l infos w t
  unfolding conf_servers build_servers
  conf_servers-eq asic l [] infos w t h = let e : infos ≡ [] = ground (arith, h) in rw e refl
  conf_servers-eq asic l (i ∷ is) infos w t h =
      let p = at_places-cons (λ s. some (server_said s)) cfg.servers i is infos h in
      let small = at_place _ cfg.servers i p.entry words.servers p.entry_eq in
      let id_eq : u16 p.entry.id ≡ p.entry.id = omega (arith, small) in
      let count_eq : u16 p.entry.workers_count ≡ p.entry.workers_count = omega (arith, small) in
      let list_eq : infos ≡ server_said p.entry ∷ p.images =
        ground (arith, p.list_eq, p.image_eq) in
      rw (list_eq, p.entry_eq, id_eq, count_eq)
        (bind_congr (or_fatal (find_port asic p.entry.port t.asic_registry)) _ _
          (λ port. conf_servers-eq asic l is p.images _ _ p.images_eq))

  conf_leaf-eq :
      (s : ℕ) (conf : LeafConfig) (info : LeafInfo) (t : Topology)
      → (conf.id < 65536) × (conf.index < 65536)
      → leaf_said cfg conf ≡ some info
      → conf_leaf cfg s conf t ≡ build_leaf s info t
  unfolding conf_leaf build_leaf
  conf_leaf-eq s conf info t small h =
      elim (Option-cases (at_places (λ s. some (server_said s)) cfg.servers conf.server_ids)) [
        | inl e ↦ absurd (ground (arith, e, h))
        | inr (servers, e) ↦
            let info_eq : info ≡ record {
              id = conf.id;
              index = conf.index;
              address = conf.address;
              mgmt_address = conf.mgmt_address;
              servers = servers;
              spine_id = 0;
              asic = asic_named conf.asic;
              ds_port = port_named conf.ds_port;
              us_port = port_named conf.us_port;
            } =
              ground (arith, e, h) in
            let id_eq : u16 conf.id ≡ conf.id = omega (arith, small) in
            let index_eq : u16 conf.index ≡ conf.index = omega (arith, small) in
            rw (info_eq, id_eq, index_eq)
              (bind_congr (or_fatal (find_port conf.asic conf.ds_port t.asic_registry)) _ _ (λ ds.
                bind_congr (or_fatal (find_port conf.asic conf.us_port t.asic_registry)) _ _ (λ us.
                  bind_first _ _ _
                    (conf_servers-eq conf.asic t.next conf.server_ids servers 0 _ e))))
      ]

  conf_leaves-eq :
      (s : ℕ) (ids : List ℕ) (infos : List LeafInfo) (t : Topology)
      → at_places (leaf_said cfg) cfg.leaves ids ≡ some infos
      → conf_leaves cfg s ids t ≡ build_leaves s infos t
  unfolding conf_leaves build_leaves
  conf_leaves-eq s [] infos t h = let e : infos ≡ [] = ground (arith, h) in rw e refl
  conf_leaves-eq s (i ∷ is) infos t h =
      let p = at_places-cons (leaf_said cfg) cfg.leaves i is infos h in
      let small = at_place _ cfg.leaves i p.entry words.leaves p.entry_eq in
      rw (p.list_eq, p.entry_eq, conf_leaf-eq s p.entry p.image t small p.image_eq)
        (bind_congr (build_leaf s p.image t) _ _
          (λ t'. conf_leaves-eq s is p.images t' p.images_eq))

  conf_spines-eq :
      (confs : List SpineConfig) (infos : List SpineInfo) (t : Topology)
      → All (λ c. c.id < 65536) confs
      → spines_said cfg confs ≡ some infos
      → conf_spines cfg confs t ≡ build_spines infos t
  unfolding conf_spines build_spines
  conf_spines-eq [] infos t small h = let e : infos ≡ [] = ground (arith, h) in rw e refl
  conf_spines-eq (conf ∷ confs) infos t small h =
      elim (Option-cases (at_places (leaf_said cfg) cfg.leaves conf.leaf_ids)) [
        | inl e ↦ absurd (ground (arith, e, h))
        | inr (leaves, e) ↦ elim (Option-cases (spines_said cfg confs)) [
          | inl e' ↦ absurd (ground (arith, e, e', h))
          | inr (rest, e') ↦
              let list_eq : infos
                  ≡ record {
                    id = conf.id;
                    address = conf.address;
                    leaves = leaves;
                    asic = asic_named conf.asic;
                  }
                    ∷ rest =
                ground (arith, e, e', h) in
              let id_eq : u16 conf.id ≡ conf.id = omega (arith, small.0) in
              rw (list_eq, id_eq)
                (bind_congr (or_fatal (find_asic conf.asic t.asic_registry)) _ _ (λ asic.
                  bind_first _ _ _ (conf_leaves-eq t.next conf.leaf_ids leaves _ e)
                  ∙ bind_congr (build_leaves t.next leaves _) _ _
                      (λ built. conf_spines-eq confs rest built small.1 e')))
        ]
      ]

conf_clients-eq :
    (confs : List ClientConfig) (t : Topology)
    → All (λ c. c.id < 65536) confs
    → conf_clients confs t ≡ build_clients (map client_said confs) t
unfolding conf_clients build_clients
conf_clients-eq [] t small = refl
conf_clients-eq (conf ∷ confs) t small =
    let id_eq : u16 conf.id ≡ conf.id = omega (arith, small.0) in
    rw id_eq (
      bind_congr (or_fatal (find_port conf.asic conf.port t.asic_registry)) _ _
        (λ port. conf_clients-eq confs _ small.1))

-- A configuration whose numbers are uint16 and whose places are all there: NewDCNFromConf ends as
-- NewDCNFromTopoInfo does with the message that says the same, with the same topology or both with the
-- end of the process.
pub new_dcn_from_conf-eq :
    (cfg : TopoConfig) (spines : List SpineInfo) (registry : AsicRegistry) (asics : List AsicInfo)
    (port_config : List PortConfigInfo)
    → IsUint16 cfg
    → spines_said cfg cfg.spines ≡ some spines
    → new_dcn_from_conf cfg registry
      ≡ new_dcn
          (record {
            spines = spines;
            clients = map client_said cfg.clients;
            asics = asics;
            port_config = port_config;
          })
          registry
unfolding new_dcn_from_conf new_dcn
new_dcn_from_conf-eq cfg spines registry asics port_config words h =
    bind_first _ _ _ (conf_clients-eq cfg.clients _ words.clients)
    ∙ bind_congr (build_clients (map client_said cfg.clients) _) _ _
        (λ t. conf_spines-eq cfg words cfg.spines spines _ words.spines h)
