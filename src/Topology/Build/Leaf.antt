-- ===== src/Topology/Build/Leaf.antt =====
-- A leaf that NewDCNFromTopoInfo has built (core/model/topology.go).
use horus_controller.Node.{write}
use horus_controller.Topology.Build.Servers.{
  fresh, IsBuilt, IsBuilt-congr, elem-fresh, build_servers_lem,
}
use horus_controller.Topology.RemoveServer.{workers_count}
use horus_controller.Topology.Numbering.{end_of-congr, counts_of, IsLaidOut-congr, IsNumbered}
use horus_controller.Node.{new_leaf, new_server}
use horus_controller.GoMap.{load, load-store, store}
use horus_controller.Prelude.{
  ap, inl, ◌+◌, ◌≤◌, ◌<◌, true, ◌++◌, arith, elem, Option, ℕ, ◌≡◌, refl, List, [], ◌∷◌, returned,
  number_key, text_key, some, String, All, ok,
}
use horus_controller.Prelude.Words.{u16, add16, sub16}
use horus_controller.Info.{ServerInfo, LeafInfo, PortInfo, AsicInfo}
use horus_controller.Asic.{AsicRegistry, PortRef}
use horus_controller.Topology.State.{Topology, find_port}
use horus_controller.Topology.Build.{build_leaf, put_child, build_servers}

-- The message names a port of the ASIC.
pub record HasPort (asic : String) (registry : AsicRegistry) (port : Option PortInfo) : Type 0 where
  pub named : PortInfo
  pub found : PortRef
  pub named_eq : port ≡ some named
  pub found_eq : find_port asic named.id registry ≡ ok found

-- The leaf and its servers have ports of one ASIC.
pub record HasPorts (registry : AsicRegistry) (info : LeafInfo) : Type 0 where
  pub asic : AsicInfo
  pub asic_eq : info.asic ≡ some asic
  pub ds_ok : HasPort asic.id registry info.ds_port
  pub us_ok : HasPort asic.id registry info.us_port
  pub servers_ok : All (λ s. HasPort asic.id registry s.port) info.servers

build_servers_returns :
    (asic : String) (l w : ℕ) (infos : List ServerInfo) (t : Topology)
    → All (λ s. HasPort asic t.asic_registry s.port) infos
    → (r : Topology × ℕ) × (build_servers asic l infos w t ≡ returned r)
unfolding build_servers
build_servers_returns asic l w [] t p = ((t, w), refl)
build_servers_returns asic l w (info ∷ infos) t p =
    let (port, rest) = p in
    let n = new_server info.address (u16 info.id) port.found in
    let next = add16 w (u16 info.workers_count) in
    let put = put_child (record n { first_worker_id = w; last_worker_id = sub16 next 1 }) l t in
    let t1 : Topology = record put { servers = store (u16 info.id) t.next put.servers } in
    let (r, ran) = build_servers_returns asic l next infos t1 rest in
    (r, rw (port.named_eq, port.found_eq) ran)

-- What the message of a leaf becomes: the leaf is the node `l`, a child of the spine `s`.
pub record LeafBuilt (s l : ℕ) (info : LeafInfo) (t t' : Topology) : Type 0 where
  pub listed : (t'.nodes s).children ≡ (t.nodes s).children ++ l ∷ []
  pub known : load (u16 info.id) t'.leaves ≡ some l
  pub index_eq : (t'.nodes l).index ≡ u16 info.index
  pub children_eq : (t'.nodes l).children ≡ fresh (l + 1) info.servers
  pub built : IsBuilt t'.nodes (l + 1) info.servers
  pub numbered : IsNumbered t'.nodes l

-- NewDCNFromTopoInfo of a leaf whose ports are known: the leaf is a new child of its spine with the
-- index of the message, its servers are its children in the order of the message with the IDs and
-- the sizes that the message asks for (mod 2^16), and their worker IDs are consecutive from 0 on.
pub build_leaf_lem :
    (s : ℕ) (info : LeafInfo) (t : Topology)
    → s < t.next
    → HasPorts t.asic_registry info
    → (t' : Topology) × (build_leaf s info t ≡ returned t') × LeafBuilt s t.next info t t'
unfolding build_leaf
build_leaf_lem s info t k p =
    let l = t.next in
    let n = new_leaf info.address info.mgmt_address (u16 info.id) p.ds_ok.found p.us_ok.found in
    let t1 = put_child (record n { index = u16 info.index; first_worker_id = 0 }) s t in
    let (r, ran) = build_servers_returns p.asic.id l 0 info.servers t1 p.servers_ok in
    let b =
      build_servers_lem p.asic.id l 0 r.1 info.servers t1 r.0 (omega arith) (omega arith) ran in
    let nodes = write l (record (r.0.nodes l) { last_worker_id = sub16 r.1 1 }) r.0.nodes in
    let same : (c : ℕ) → l + 1 ≤ c → r.0.nodes c ≡ nodes c = λ c le. ground arith in
    let kid : (c : ℕ) → elem c (fresh (l + 1) info.servers) ≡ true → r.0.nodes c ≡ nodes c =
      λ c m. same c (elem-fresh (l + 1) c info.servers m) in
    let kids : (nodes l).children ≡ fresh (l + 1) info.servers = ground (arith, b.children_eq) in
    let total =
      end_of-congr (counts_of r.0.nodes) (counts_of nodes) 0 (fresh (l + 1) info.servers)
        (λ c m. ap workers_count (kid c m)) in
    let t' : Topology =
      (let u = r.0 in record u { nodes = nodes; leaves = store (u16 info.id) l u.leaves }) in
    (
      t',
      ground (arith, p.asic_eq, p.ds_ok, p.us_ok, ran),
      record {
        listed = ground (arith, b.older_eq s);
        known = ground (arith, load-store (u16 info.id) (u16 info.id) l r.0.leaves);
        index_eq = ground (arith, b.index_eq l);
        children_eq = kids;
        built = IsBuilt-congr r.0.nodes nodes (l + 1) info.servers same b.built;
        numbered = record {
          laid_out = rw kids (
              IsLaidOut-congr r.0.nodes nodes (counts_of r.0.nodes) (counts_of nodes) 0
                (fresh (l + 1) info.servers) (λ c m. (kid c m, ap workers_count (kid c m)))
                b.laid_out);
          last_eq = inl (rw kids (ground (arith, b.end_eq, total)));
        };
      },
    )
