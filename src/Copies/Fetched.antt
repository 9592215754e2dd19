-- ===== src/Copies/Fetched.antt =====
-- The copy that a leaf fetches from the central controller (ctrl_mgr/controller.go: FetchTopology,
-- core/net/topologyServer_central.go: GetTopologyAtLeaf).
use horus_controller.Topology.Build.Leaf.{HasPorts, LeafBuilt, build_leaf_lem}
use horus_controller.Topology.Build.Whole.{HasAsic, IsSound, new_dcn-IsValid}
use horus_controller.Topology.Numbering.{total_of, IsNumbered}
use horus_controller.Copies.Rebuilt.{HasRange, rebuilt_view}
use horus_controller.Copies.{leaf_view}
use horus_controller.Controller.{answered, topology_from, fetch_topology}
use horus_controller.Ports.{new_asic_registry_from_info}
use mathlib.Core.Path.{subst}
use horus_controller.Topology.Encode.Restricted.{leaf_id_lem}
use horus_controller.Node.{new_spine}
use horus_controller.Topology.Valid.{parent_at, IsValid}
use horus_controller.Topology.State.{find_asic, find_port, or_fatal, Topology}
use horus_controller.Topology.Encode.{
  encode_to_asic_info, get_client_info, encode_leaf, encode_to_topo_info_at_leaf,
}
use horus_controller.Info.{ClientInfo, AsicInfo, LeafInfo, SpineInfo, TopoInfo}
use horus_controller.Asic.{AsicRegistry}
use horus_controller.GoMap.{store, load, values}
use horus_controller.Prelude.Words.{u16}
use horus_controller.Prelude.{
  sym, ap, ◌∙◌, ◌≢◌, refl, Option, none, arith, All, returned_inj, ℕ, ◌<◌, ◌≡◌, some, List, [], ◌∷◌,
  deref, >>=-returned, returned, number_key, text_key,
}
use horus_controller.Topology.Build.{
  put_child, build_clients, no_topology, build_leaf, build_leaves, build_spines, new_dcn,
}

-- The message for a leaf has one spine with that leaf.
pub record OneLeaf (t : Topology) (l : ℕ) (message : TopoInfo) : Type 0 where
  pub spine_id : ℕ
  pub asics : List AsicInfo
  pub spine : SpineInfo
  pub leaf : LeafInfo
  pub encoded : encode_leaf spine_id asics t.nodes l ≡ returned leaf
  pub spines_eq : message.spines ≡ spine ∷ []
  pub leaves_eq : spine.leaves ≡ leaf ∷ []

abbrev spines_in : Option TopoInfo → List SpineInfo
spines_in none = []
spines_in (some message) = message.spines

one_leaf :
    (info : LeafInfo) (l : ℕ) (t : Topology) (message : TopoInfo)
    → IsValid t
    → load (u16 info.id) t.leaves ≡ some l
    → encode_to_topo_info_at_leaf info t ≡ returned (some message)
    → OneLeaf t l message
unfolding encode_to_topo_info_at_leaf
one_leaf info l t message v at_leaf h =
    let old = v.leaves_ok (u16 info.id) l at_leaf in
    let (clients, _, h1) =
      >>=-returned
        (get_client_info (encode_to_asic_info t.asic_registry) t.nodes (values t.clients)) _ h in
    let h2 = rw (at_leaf, old.parent_eq, old.known) at h1 in
    let (asic, _, h3) = >>=-returned (deref (t.nodes (parent_at (t.nodes l))).asic) _ h2 in
    let (leaf, made, h4) = >>=-returned (encode_leaf _ _ t.nodes l) _ h3 in
    record {
      spine_id = (t.nodes (parent_at (t.nodes l))).id;
      asics = encode_to_asic_info t.asic_registry;
      spine = _;
      leaf = leaf;
      encoded = made;
      spines_eq = ap spines_in (returned_inj (sym h4));
      leaves_eq = refl;
    }

clients_registry :
    (infos : List ClientInfo) (t t' : Topology)
    → build_clients infos t ≡ returned t'
    → t'.asic_registry ≡ t.asic_registry
unfolding build_clients
clients_registry [] t t' h = ap (λ (x : Topology). x.asic_registry) (sym (returned_inj h))
clients_registry (info ∷ infos) t t' h =
    let (port_info, _, h1) = >>=-returned (deref info.port) _ h in
    let (asic_info, _, h2) = >>=-returned (deref info.asic) _ h1 in
    let (port, _, h3) =
      >>=-returned (or_fatal (find_port asic_info.id port_info.id t.asic_registry)) _ h2 in
    clients_registry infos _ t' h3

one_built :
    (s : ℕ) (leaf : LeafInfo) (infos : List LeafInfo) (t t' : Topology)
    → infos ≡ leaf ∷ []
    → build_leaves s infos t ≡ returned t'
    → build_leaf s leaf t ≡ returned t'
unfolding build_leaves
one_built s leaf infos t t' one h =
    let alone : build_leaves s (leaf ∷ []) t ≡ returned t' =
      ap (λ is. build_leaves s is t) (sym one) ∙ h in
    let (t1, made, h1) = >>=-returned (build_leaf s leaf t) _ alone in made ∙ h1

one_spine :
    (spine : SpineInfo) (leaf : LeafInfo) (infos : List SpineInfo) (t t' : Topology)
    → infos ≡ spine ∷ []
    → spine.leaves ≡ leaf ∷ []
    → build_spines infos t ≡ returned t'
    → (s : ℕ) × (t0 : Topology) × (s < t0.next)
      × (t0.asic_registry ≡ t.asic_registry)
      × (build_leaf s leaf t0 ≡ returned t')
unfolding build_spines
one_spine spine leaf infos t t' one lone h =
    let alone : build_spines (spine ∷ []) t ≡ returned t' =
      ap (λ is. build_spines is t) (sym one) ∙ h in
    let (asic_info, _, h1) = >>=-returned (deref spine.asic) _ alone in
    let (asic, _, h2) = >>=-returned (or_fatal (find_asic asic_info.id t.asic_registry)) _ h1 in
    let put = put_child (new_spine spine.address (u16 spine.id) asic.id) t.root t in
    let t0 : Topology = record put { spines = store (u16 spine.id) t.next put.spines } in
    let (built, made, h3) = >>=-returned (build_leaves t.next spine.leaves t0) _ h2 in
    (t.next, t0, omega arith, refl, one_built t.next leaf spine.leaves t0 t' lone (made ∙ h3))

-- The topology of a message with one leaf is what NewDCNFromTopoInfo makes of the leaf at last.
built_leaf :
    (message : TopoInfo) (spine : SpineInfo) (leaf : LeafInfo) (registry : AsicRegistry)
    (t' : Topology)
    → message.spines ≡ spine ∷ []
    → spine.leaves ≡ leaf ∷ []
    → new_dcn message registry ≡ returned t'
    → (s : ℕ) × (t0 : Topology) × (s < t0.next)
      × (t0.asic_registry ≡ registry)
      × (build_leaf s leaf t0 ≡ returned t')
unfolding new_dcn
built_leaf message spine leaf registry t' one lone h =
    let (t1, clients, h1) =
      >>=-returned (build_clients message.clients (no_topology registry)) _ h in
    let (s, t0, lt, same, made) = one_spine spine leaf message.spines _ t' one lone h1 in
    (s, t0, lt, same ∙ clients_registry message.clients (no_topology registry) t1 clients, made)

leaf_ports :
    (registry : AsicRegistry) (leaf : LeafInfo) (spine : SpineInfo) (t0 : Topology)
    (message : TopoInfo)
    → message.spines ≡ spine ∷ []
    → spine.leaves ≡ leaf ∷ []
    → t0.asic_registry ≡ registry
    → IsSound registry message
    → HasPorts t0.asic_registry leaf
leaf_ports registry leaf spine t0 message one lone same sound =
    let has = subst (All (λ s. HasAsic registry s)) one sound.spines_ok in
    let has_leaf = subst (All (λ l. HasPorts registry l)) lone has.0.leaves_ok in
    subst (λ r. HasPorts r leaf) (sym same) has_leaf.0

-- The leaf of a fetched topology, with the message that it was made of.
pub record LeafFetched (t t' : Topology) (l l' key : ℕ) : Type 0 where
  pub spine_id : ℕ
  pub asics : List AsicInfo
  pub leaf : LeafInfo
  pub parent : ℕ
  pub before : Topology
  pub valid : IsValid t'
  pub known : load key t'.leaves ≡ some l'
  pub encoded : encode_leaf spine_id asics t.nodes l ≡ returned leaf
  pub built : LeafBuilt parent l' leaf before t'

pub fetched_built :
    (info : LeafInfo) (l : ℕ) (t : Topology) (message : TopoInfo) (registry : AsicRegistry)
    → IsValid t
    → load (u16 info.id) t.leaves ≡ some l
    → encode_to_topo_info_at_leaf info t ≡ returned (some message)
    → new_asic_registry_from_info message.asics message.port_config ≡ returned registry
    → IsSound registry message
    → (t' : Topology) × (l' : ℕ) × (fetch_topology (u16 info.id) (answered message) ≡ returned t')
      × LeafFetched t t' l l' (u16 info.id)
unfolding fetch_topology topology_from
fetched_built info l t message registry v at_leaf told made sound =
    let one = one_leaf info l t message v at_leaf told in
    let (t', whole, valid) = new_dcn-IsValid message registry sound in
    let (s, t0, lt, same, ran) =
      built_leaf message one.spine one.leaf registry t' one.spines_eq one.leaves_eq whole in
    let ports : HasPorts t0.asic_registry one.leaf =
      leaf_ports registry one.leaf one.spine t0 message one.spines_eq one.leaves_eq same sound in
    let (t'', ran', built) = build_leaf_lem s one.leaf t0 lt ports in
    let ends = returned_inj (sym ran' ∙ ran) in
    let built' : LeafBuilt s t0.next one.leaf t0 t' =
      subst (λ x. LeafBuilt s t0.next one.leaf t0 x) ends built in
    let key : u16 one.leaf.id ≡ u16 info.id =
      ap u16 (
        leaf_id_lem one.spine_id l one.asics t.nodes one.leaf one.encoded
        ∙ (v.leaves_ok (u16 info.id) l at_leaf).id_eq)
      ∙ ground arith in
    let known : load (u16 info.id) t'.leaves ≡ some t0.next =
      subst (λ k. load k t'.leaves ≡ some t0.next) key built'.known in
    (
      t',
      t0.next,
      ground (arith, made, whole, known),
      record {
        spine_id = one.spine_id;
        asics = one.asics;
        leaf = one.leaf;
        parent = s;
        before = t0;
        valid = valid;
        known = known;
        encoded = one.encoded;
        built = built';
      },
    )

-- A leaf that fetches the topology from the central controller gets a well-formed copy with itself, and
-- the copy has the servers of the leaf with the IDs and worker IDs that they have there. The
-- topology of the central controller must be well formed, the leaf numbered and with workers, each
-- of its servers with two or more, and the message sound for the registry that it makes.
pub fetched_view :
    (info : LeafInfo) (l : ℕ) (t : Topology) (message : TopoInfo) (registry : AsicRegistry)
    → IsValid t
    → load (u16 info.id) t.leaves ≡ some l
    → IsNumbered t.nodes l
    → total_of t.nodes l ≢ 0
    → All (λ x. HasRange (t.nodes x)) (t.nodes l).children
    → encode_to_topo_info_at_leaf info t ≡ returned (some message)
    → new_asic_registry_from_info message.asics message.port_config ≡ returned registry
    → IsSound registry message
    → (t' : Topology) × (l' : ℕ) × (fetch_topology (u16 info.id) (answered message) ≡ returned t')
      × IsValid t'
      × (load (u16 info.id) t'.leaves ≡ some l')
      × (leaf_view t'.nodes l' ≡ leaf_view t.nodes l)
fetched_view info l t message registry v at_leaf numbered some_workers ranges told made sound =
    let (t', l', ran, f) = fetched_built info l t message registry v at_leaf told made sound in
    (
      t',
      l',
      ran,
      f.valid,
      f.known,
      rebuilt_view t t' l l' f.parent f.spine_id f.asics f.leaf f.before numbered some_workers
          ranges f.encoded f.built,
    )
