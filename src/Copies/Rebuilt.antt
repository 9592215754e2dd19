-- ===== src/Copies/Rebuilt.antt =====
-- The servers of a leaf in a message (core/model/topology.go: EncodeToTopoInfo) and in the copy that is made of it
-- (NewDCNFromTopoInfo).
use horus_controller.Topology.Build.Leaf.{LeafBuilt}
use horus_controller.Topology.State.{Topology}
use horus_controller.Topology.Build.Servers.{IsBuilt}
use horus_controller.Topology.RemoveServer.Layout.{IsLaidOut, end_of}
use horus_controller.Topology.Encode.{encode_leaf, encoded_count, encode_servers}
use horus_controller.Topology.Numbering.{total_of, IsNumbered, counts_of}
use horus_controller.Copies.{leaf_view, view_servers}
use horus_controller.Info.{LeafInfo, AsicInfo, ServerInfo}
use horus_controller.Node.{Node, Nodes}
use horus_controller.Prelude.Words.{sub16, add16}
use mathlib.Core.Path.{subst}
use horus_controller.Topology.Build.Servers.{fresh}
use horus_controller.Prelude.{
  sym, ap, ◌∙◌, ◌≢◌, inl, inr, ℕ, ◌+◌, ◌<◌, String, ◌≡◌, refl, List, [], ◌∷◌, arith, All, deref,
  >>=-returned, returned_inj, returned, number_key,
}

-- The messages of some servers say their IDs and their sizes.
abbrev pub AreEncoded : Nodes → List ℕ → List ServerInfo → Type 0
AreEncoded nodes [] [] = Unit
AreEncoded nodes [] (i ∷ is) = ⊥
AreEncoded nodes (x ∷ xs) [] = ⊥
AreEncoded nodes (x ∷ xs) (i ∷ is) =
    (i.id ≡ (nodes x).id) × (i.workers_count ≡ encoded_count (nodes x)) × AreEncoded nodes xs is

pub encode_servers-AreEncoded :
    (asic : String) (asics : List AsicInfo) (nodes : Nodes) (xs : List ℕ) (infos : List ServerInfo)
    → encode_servers asic asics nodes xs ≡ returned infos
    → AreEncoded nodes xs infos
unfolding encode_servers
encode_servers-AreEncoded asic asics nodes [] infos h =
    subst (AreEncoded nodes []) (returned_inj h) tt
encode_servers-AreEncoded asic asics nodes (x ∷ xs) infos h =
    let (port, _, h1) = >>=-returned (deref (nodes x).port) _ h in
    let (rest, made, h2) = >>=-returned (encode_servers asic asics nodes xs) _ h1 in
    subst (AreEncoded nodes (x ∷ xs)) (returned_inj h2)
      (refl, refl, encode_servers-AreEncoded asic asics nodes xs rest made)

-- The server has two workers or more, and its numbers are uint16.
pub record HasRange (n : Node) : Type 0 where
  pub ordered : n.first_worker_id < n.last_worker_id
  pub last_small : n.last_worker_id < 65536
  pub id_small : n.id < 65536

pub rebuilt_servers :
    (m n : Nodes) (w a : ℕ) (xs : List ℕ) (infos : List ServerInfo)
    → IsLaidOut m (counts_of m) w xs
    → All (λ x. HasRange (m x)) xs
    → AreEncoded m xs infos
    → IsBuilt n a infos
    → IsLaidOut n (counts_of n) w (fresh a infos)
    → (view_servers n (fresh a infos) ≡ view_servers m xs)
      × (end_of (counts_of n) w (fresh a infos) ≡ end_of (counts_of m) w xs)
unfolding encoded_count
rebuilt_servers m n w a [] [] l r e b k = (refl, refl)
rebuilt_servers m n w a [] (i ∷ is) l r e b k = absurd e
rebuilt_servers m n w a (x ∷ xs) [] l r e b k = absurd e
rebuilt_servers m n w a (x ∷ xs) (i ∷ is) l r e b k =
    let range = r.0 in
    let count : counts_of n a ≡ counts_of m x = ground (arith, b.1, e.1, range) in
    let id_eq : (n a).id ≡ (m x).id = ground (arith, b.0, e.0, range) in
    let ih =
      rebuilt_servers m n (add16 w (counts_of m x)) (a + 1) xs is l.2 r.1 e.2 b.2
        (subst (λ c. IsLaidOut n (counts_of n) (add16 w c) (fresh (a + 1) is)) count k.2) in
    (
      ground (arith, ih.0, l.0, l.1, k.0, k.1, count, id_eq),
      ap (λ c. end_of (counts_of n) (add16 w c) (fresh (a + 1) is)) count ∙ ih.1,
    )

last_of :
    (m n : Nodes) (l l' : ℕ)
    → IsNumbered m l
    → IsNumbered n l'
    → total_of n l' ≡ total_of m l
    → total_of m l ≢ 0
    → (n l').last_worker_id ≡ (m l).last_worker_id
last_of m n l l' a b total some_workers = elim a.last_eq [
  | inr none_there ↦ absurd (some_workers none_there.0)
  | inl e ↦ elim b.last_eq [
    | inr none_there ↦ absurd (some_workers (sym total ∙ none_there.0))
    | inl e' ↦ e' ∙ ap (λ x. sub16 x 1) total ∙ sym e
  ]
]

-- A numbered leaf with workers is rebuilt with the view that it has.
pub rebuilt_view :
    (t t' : Topology) (l l' s : ℕ) (spine_id : ℕ) (asics : List AsicInfo) (info : LeafInfo)
    (t0 : Topology)
    → IsNumbered t.nodes l
    → total_of t.nodes l ≢ 0
    → All (λ x. HasRange (t.nodes x)) (t.nodes l).children
    → encode_leaf spine_id asics t.nodes l ≡ returned info
    → LeafBuilt s l' info t0 t'
    → leaf_view t'.nodes l' ≡ leaf_view t.nodes l
unfolding encode_leaf
rebuilt_view t t' l l' s spine_id asics info t0 numbered some_workers ranges encoded built =
    let n = t.nodes l in
    let (ds, _, e1) = >>=-returned (deref n.ds_port) _ encoded in
    let (us, _, e2) = >>=-returned (deref n.us_port) _ e1 in
    let (servers, made, e3) = >>=-returned (encode_servers ds.asic asics t.nodes n.children) _ e2 in
    let same : info.servers ≡ servers = ap (λ (i : LeafInfo). i.servers) (sym (returned_inj e3)) in
    let kids : (t'.nodes l').children ≡ fresh (l' + 1) servers =
      built.children_eq ∙ ap (fresh (l' + 1)) same in
    let r =
      rebuilt_servers t.nodes t'.nodes 0 (l' + 1) n.children servers numbered.laid_out ranges
        (encode_servers-AreEncoded ds.asic asics t.nodes n.children servers made)
        (subst (IsBuilt t'.nodes (l' + 1)) same built.built)
        (subst (IsLaidOut t'.nodes (counts_of t'.nodes) 0) kids built.numbered.laid_out) in
    let total : total_of t'.nodes l' ≡ total_of t.nodes l =
      ap (end_of (counts_of t'.nodes) 0) kids ∙ r.1 in
    let views : view_servers t'.nodes (t'.nodes l').children ≡ view_servers t.nodes n.children =
      ap (view_servers t'.nodes) kids ∙ r.0 in
    ground (arith, views, last_of t.nodes t'.nodes l l' numbered built.numbered total some_workers)
