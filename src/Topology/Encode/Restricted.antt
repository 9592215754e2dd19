-- ===== src/Topology/Encode/Restricted.antt =====
-- EncodeToTopoInfoAtLeaf is EncodeToTopoInfo, cut down to the leaf (core/model/topology.go).
use horus_controller.Topology.Valid.{parent_at, IsValid}
use horus_controller.Topology.State.{Topology}
use horus_controller.Prelude.Words.{u16}
use mathlib.Core.Path.{subst}
use horus_controller.Prelude.{
  refl, sym, ap, deref, >>=-returned, ℕ, ◌≡◌, inl, inr, true, some, List, [], ◌∷◌, ◌++◌, arith,
  nat_beq, Bool-cases, elem, returned, number_key, text_key, String,
}
use horus_controller.GoMap.{load, values}
use horus_controller.Info.{AsicInfo, LeafInfo, SpineInfo, TopoInfo}
use horus_controller.Node.{Nodes}
use horus_controller.Topology.Encode.{
  encode_to_port_config_info, encode_to_asic_info, get_client_info, encode_servers,
  encode_to_topo_info, encode_to_topo_info_at_leaf, encode_leaf, encode_leaves, encode_spines,
  get_asic_info,
}

-- The value stands in the list.
abbrev pub IsPart {ℓ} : {A : Type ℓ} → A → List A → Type ℓ
IsPart {A = A} x xs = (before after : List A) × (xs ≡ before ++ x ∷ after)

IsPart-later {ℓ} : {A : Type ℓ} (x y : A) (xs : List A) → IsPart x xs → IsPart x (y ∷ xs)
IsPart-later x y xs p = (y ∷ p.0, p.1, ap (λ l. y ∷ l) p.2)

elem-values : (k a : ℕ) (m : List (ℕ × ℕ)) → load k m ≡ some a → elem a (values m) ≡ true
unfolding load values
elem-values k a [] h = ground arith
elem-values k a ((j, b) ∷ m) h = ground (arith, elem-values k a m)

-- A leaf of the list has been encoded, and its message is among those of the list.
encode_leaves-IsPart :
    (id a : ℕ) (asics : List AsicInfo) (nodes : Nodes) (xs : List ℕ) (infos : List LeafInfo)
    → encode_leaves id asics nodes xs ≡ returned infos
    → elem a xs ≡ true
    → (info : LeafInfo) × (encode_leaf id asics nodes a ≡ returned info) × IsPart info infos
unfolding encode_leaves
encode_leaves-IsPart id a asics nodes [] infos h m = cc
encode_leaves-IsPart id a asics nodes (x ∷ xs) infos h m =
    let (info, one, h') = >>=-returned (encode_leaf id asics nodes x) _ h in
    let (rest, more, h'') = >>=-returned (encode_leaves id asics nodes xs) _ h' in
    let e : infos ≡ info ∷ rest = ground arith in
    elim (Bool-cases (nat_beq x a)) [
      | inl same ↦
          let s : x ≡ a = ground arith in
          (info, subst (λ y. encode_leaf id asics nodes y ≡ returned info) s one, ([], rest, e))
      | inr other ↦
          let (i, enc, p) = encode_leaves-IsPart id a asics nodes xs rest more (ground arith) in
          (i, enc, subst (IsPart i) (sym e) (IsPart-later i info rest p))
    ]

-- The message of a spine with the given leaves.
abbrev pub spine_info : List AsicInfo → Nodes → ℕ → String → List LeafInfo → SpineInfo
spine_info asics nodes s asic leaves = record {
  id = (nodes s).id;
  address = (nodes s).address;
  leaves = leaves;
  asic = get_asic_info asic asics;
}

encode_spines-IsPart :
    (s : ℕ) (asics : List AsicInfo) (nodes : Nodes) (xs : List ℕ) (infos : List SpineInfo)
    → encode_spines asics nodes xs ≡ returned infos
    → elem s xs ≡ true
    → (asic : String) × (leaves : List LeafInfo) × ((nodes s).asic ≡ some asic)
      × (encode_leaves (nodes s).id asics nodes (nodes s).children ≡ returned leaves)
      × IsPart (spine_info asics nodes s asic leaves) infos
unfolding encode_spines
encode_spines-IsPart s asics nodes [] infos h m = cc
encode_spines-IsPart s asics nodes (x ∷ xs) infos h m =
    let (asic, known, h1) = >>=-returned (deref (nodes x).asic) _ h in
    let (leaves, one, h2) =
      >>=-returned (encode_leaves (nodes x).id asics nodes (nodes x).children) _ h1 in
    let (rest, more, h3) = >>=-returned (encode_spines asics nodes xs) _ h2 in
    let e : infos ≡ spine_info asics nodes x asic leaves ∷ rest = ground arith in
    let k : (nodes x).asic ≡ some asic = ground arith in
    elim (Bool-cases (nat_beq x s)) [
      | inl same ↦
          let i : x ≡ s = ground arith in
          subst
            (λ y.
              (asic : String) × (leaves : List LeafInfo) × ((nodes y).asic ≡ some asic)
              × (encode_leaves (nodes y).id asics nodes (nodes y).children ≡ returned leaves)
              × IsPart (spine_info asics nodes y asic leaves) infos)
            i (asic, leaves, k, one, ([], rest, e))
      | inr other ↦
          let (asic', leaves', k', enc, p) =
            encode_spines-IsPart s asics nodes xs rest more (ground arith) in
          (asic', leaves', k', enc, subst (IsPart _) (sym e) (IsPart-later _ _ rest p))
    ]

-- What a leaf is told is what the whole message says of it.
pub record CutDown (id : ℕ) (part whole : TopoInfo) : Type 0 where
  pub asics_eq : part.asics ≡ whole.asics
  pub clients_eq : part.clients ≡ whole.clients
  pub config_eq : part.port_config ≡ whole.port_config
  pub spine : SpineInfo
  pub leaf : LeafInfo
  pub spine_in : IsPart spine whole.spines
  pub leaf_in : IsPart leaf spine.leaves
  pub leaf_id : leaf.id ≡ id
  pub spines_eq : part.spines ≡ record spine { leaves = leaf ∷ [] } ∷ []

pub leaf_id_lem :
    (id a : ℕ) (asics : List AsicInfo) (nodes : Nodes) (info : LeafInfo)
    → encode_leaf id asics nodes a ≡ returned info
    → info.id ≡ (nodes a).id
unfolding encode_leaf
leaf_id_lem id a asics nodes info h =
    let (ds, one, h1) = >>=-returned (deref (nodes a).ds_port) _ h in
    let (us, two, h2) = >>=-returned (deref (nodes a).us_port) _ h1 in
    let (servers, three, h3) =
      >>=-returned (encode_servers ds.asic asics nodes (nodes a).children) _ h2 in
    ground arith

-- Where EncodeToTopoInfo of a well-formed topology returns a message, EncodeToTopoInfoAtLeaf of one
-- of its leaves returns one too: the same ASICs, clients and port configurations, and one spine with
-- one leaf, which are that spine and that leaf of the whole message.
pub encode_to_topo_info_at_leaf_lem :
    (info : LeafInfo) (a : ℕ) (t : Topology) (whole : TopoInfo)
    → IsValid t
    → load (u16 info.id) t.leaves ≡ some a
    → encode_to_topo_info t ≡ returned whole
    → (part : TopoInfo) × (encode_to_topo_info_at_leaf info t ≡ returned (some part))
      × CutDown (u16 info.id) part whole
unfolding encode_to_topo_info encode_to_topo_info_at_leaf
encode_to_topo_info_at_leaf_lem info a t whole v at_leaf h =
    let asics = encode_to_asic_info t.asic_registry in
    let l = v.leaves_ok (u16 info.id) a at_leaf in
    let p = parent_at (t.nodes a) in
    let (clients, one, h1) = >>=-returned (get_client_info asics t.nodes (values t.clients)) _ h in
    let (spines, two, h2) = >>=-returned (encode_spines asics t.nodes (values t.spines)) _ h1 in
    let (asic, leaves, known, enc, spine_in) =
      encode_spines-IsPart p asics t.nodes (values t.spines) spines two
        (elem-values (t.nodes p).id p t.spines l.known) in
    let (leaf, enc_leaf, leaf_in) =
      encode_leaves-IsPart (t.nodes p).id a asics t.nodes (t.nodes p).children leaves enc
        l.listed in
    let w : whole ≡ record {
      spines = spines;
      clients = clients;
      asics = asics;
      port_config = encode_to_port_config_info t.asic_registry;
    } =
      ground arith in
    let part : TopoInfo = record {
      spines = spine_info asics t.nodes p asic (leaf ∷ []) ∷ [];
      clients = clients;
      asics = asics;
      port_config = encode_to_port_config_info t.asic_registry;
    } in
    (
      part,
      ground (arith, l, one, known, enc_leaf),
      record {
        asics_eq = ground arith;
        clients_eq = ground arith;
        config_eq = ground arith;
        spine = spine_info asics t.nodes p asic leaves;
        leaf = leaf;
        spine_in =
            subst (λ u. IsPart (spine_info asics t.nodes p asic leaves) u.spines) (sym w) spine_in;
        leaf_in = leaf_in;
        leaf_id = ground (arith, leaf_id_lem _ a asics t.nodes leaf enc_leaf, l);
        spines_eq = refl;
      },
    )
