-- ===== src/Copies/Sizes.antt =====
-- The sizes of the servers in the copy that a leaf fetches (core/model/topology.go: EncodeToTopoInfo,
-- NewDCNFromTopoInfo).
use horus_controller.Copies.Fetched.{fetched_built}
use horus_controller.Copies.Rebuilt.{AreEncoded, encode_servers-AreEncoded}
use horus_controller.Controller.{answered, fetch_topology}
use horus_controller.Ports.{new_asic_registry_from_info}
use horus_controller.Topology.Build.Servers.{fresh, IsBuilt}
use horus_controller.Topology.Build.Whole.{IsSound}
use horus_controller.Topology.Encode.{
  encode_leaf, encode_servers, encoded_count, encode_to_topo_info_at_leaf,
}
use horus_controller.Topology.Numbering.{counts_of}
use horus_controller.Topology.RemoveServer.{workers_count}
use horus_controller.Topology.State.{Topology}
use horus_controller.Topology.Valid.{IsValid}
use horus_controller.Info.{LeafInfo, ServerInfo, TopoInfo}
use horus_controller.Asic.{AsicRegistry}
use horus_controller.Node.{Node, Nodes}
use horus_controller.GoMap.{load}
use horus_controller.Prelude.Words.{u16}
use mathlib.Core.Path.{subst}
use horus_controller.Prelude.{
  ℕ, ◌+◌, ◌<◌, ◌≤◌, ◌≡◌, ◌∙◌, refl, sym, ap, some, List, [], ◌∷◌, map, All, arith, nat_beq, deref,
  >>=-returned, returned, returned_inj, if◌then◌else◌, number_key,
}

-- The worker IDs of the server are a range of uint16.
pub record HasWorkers (n : Node) : Type 0 where
  pub ordered : n.first_worker_id ≤ n.last_worker_id
  pub small : n.last_worker_id < 65536

-- The workers of a server that a message keeps: a server with one worker loses it.
abbrev pub kept_count : Node → ℕ
kept_count n = if nat_beq n.first_worker_id n.last_worker_id then 0 else workers_count n

kept_count_lem : (n : Node) → HasWorkers n → u16 (encoded_count n) ≡ kept_count n
unfolding encoded_count
kept_count_lem n h = ground (arith, h)

built_sizes :
    (m n : Nodes) (a : ℕ) (xs : List ℕ) (infos : List ServerInfo)
    → All (λ x. HasWorkers (m x)) xs
    → AreEncoded m xs infos
    → IsBuilt n a infos
    → map (counts_of n) (fresh a infos) ≡ map (λ x. kept_count (m x)) xs
built_sizes m n a [] [] r e b = refl
built_sizes m n a [] (i ∷ is) r e b = absurd e
built_sizes m n a (x ∷ xs) [] r e b = absurd e
built_sizes m n a (x ∷ xs) (i ∷ is) r e b =
    let size : counts_of n a ≡ kept_count (m x) = b.1 ∙ ap u16 e.1 ∙ kept_count_lem (m x) r.0 in
    let rest = built_sizes m n (a + 1) xs is r.1 e.2 b.2 in
    ap (λ k. k ∷ map (counts_of n) (fresh (a + 1) is)) size ∙ ap (λ l. kept_count (m x) ∷ l) rest

-- A leaf that fetches the topology from the central controller gets a copy with itself, whose servers
-- have, one by one, as many workers as they have at the central controller, but for those that have
-- exactly one, which have none in the copy. The topology must be well formed, the worker IDs of each
-- server of the leaf a range of uint16, and the message sound for the registry that is made of it.
pub fetched_sizes :
    (info : LeafInfo) (l : ℕ) (t : Topology) (message : TopoInfo) (registry : AsicRegistry)
    → IsValid t
    → load (u16 info.id) t.leaves ≡ some l
    → All (λ x. HasWorkers (t.nodes x)) (t.nodes l).children
    → encode_to_topo_info_at_leaf info t ≡ returned (some message)
    → new_asic_registry_from_info message.asics message.port_config ≡ returned registry
    → IsSound registry message
    → (t' : Topology) × (l' : ℕ) × (fetch_topology (u16 info.id) (answered message) ≡ returned t')
      × (load (u16 info.id) t'.leaves ≡ some l')
      × (map (counts_of t'.nodes) (t'.nodes l').children
          ≡ map (λ x. kept_count (t.nodes x)) (t.nodes l).children)
unfolding encode_leaf
fetched_sizes info l t message registry v at_leaf workers told made sound =
    let (t', l', ran, f) = fetched_built info l t message registry v at_leaf told made sound in
    let n = t.nodes l in
    let (ds, _, e1) = >>=-returned (deref n.ds_port) _ f.encoded in
    let (us, _, e2) = >>=-returned (deref n.us_port) _ e1 in
    let (servers, said, e3) =
      >>=-returned (encode_servers ds.asic f.asics t.nodes n.children) _ e2 in
    let same : f.leaf.servers ≡ servers =
      ap (λ (i : LeafInfo). i.servers) (sym (returned_inj e3)) in
    let built : IsBuilt t'.nodes (l' + 1) servers =
      subst (IsBuilt t'.nodes (l' + 1)) same f.built.built in
    (
      t',
      l',
      ran,
      f.known,
      ap (map (counts_of t'.nodes)) (f.built.children_eq ∙ ap (fresh (l' + 1)) same)
          ∙ built_sizes t.nodes t'.nodes (l' + 1) n.children servers workers
              (encode_servers-AreEncoded ds.asic f.asics t.nodes n.children servers said) built,
    )
