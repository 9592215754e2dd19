-- ===== src/Topology/Build/Whole.antt =====
-- NewDCNFromTopoInfo (core/model/topology.go) of a whole message: it returns, and the topology is well formed.
use horus_controller.Topology.Valid.NewSpine.{with_new_spine, with_new_spine-IsValid}
use horus_controller.Topology.Build.Leaf.{HasPort, HasPorts, build_leaf_lem}
use horus_controller.Topology.Build.WellFormed.{leaves-IsValid, leaf-IsValid}
use horus_controller.Topology.Valid.{IsValid}
use horus_controller.Topology.State.{Topology, find_asic}
use horus_controller.Info.{AsicInfo, ClientInfo, LeafInfo, SpineInfo, TopoInfo}
use horus_controller.Asic.{Asic, AsicRegistry}
use horus_controller.GoMap.{load-store, load-store_self, load, store}
use horus_controller.Prelude.Words.{u16}
use mathlib.Core.Path.{subst}
use horus_controller.Prelude.{
  ap, true, false, ◌++◌, elem, ℕ, ◌+◌, ◌<◌, ◌≡◌, refl, sym, ◌∙◌, some, List, [], ◌∷◌, arith, All,
  IsDistinct, returned, ok, number_key, text_key,
}
use horus_controller.Topology.Build.{
  no_topology, build_spines, new_dcn, build_leaves, build_clients,
}
use horus_controller.Topology.Build.Growth.{
  server_ids, leaf_ids, spine_ids, all_leaves, all_servers, AreFresh, AreFresh-first, AreFresh-rest,
  servers_below,
}
use horus_controller.Node.{NodeMap, core, Node, new_node, new_spine, new_client, write}

-- The ASIC and the port of a client.
pub record HasClientPort (registry : AsicRegistry) (info : ClientInfo) : Type 0 where
  pub asic : AsicInfo
  pub asic_eq : info.asic ≡ some asic
  pub port_ok : HasPort asic.id registry info.port

-- The ASIC of a spine, and the ports of its leaves and their servers.
pub record HasAsic (registry : AsicRegistry) (info : SpineInfo) : Type 0 where
  pub named : AsicInfo
  pub found : Asic
  pub named_eq : info.asic ≡ some named
  pub found_eq : find_asic named.id registry ≡ ok found
  pub leaves_ok : All (λ l. HasPorts registry l) info.leaves

-- A message whose IDs are all different and whose ASICs and ports are in the registry.
pub record IsSound (registry : AsicRegistry) (info : TopoInfo) : Type 0 where
  pub clients_ok : All (λ c. HasClientPort registry c) info.clients
  pub spines_ok : All (λ s. HasAsic registry s) info.spines
  pub server_ids_distinct : IsDistinct (all_servers info.spines)
  pub leaf_ids_distinct : IsDistinct (all_leaves info.spines)
  pub spine_ids_distinct : IsDistinct (spine_ids info.spines)

-- The clients are in none of the maps of the tree.
record OnlyClients (t t' : Topology) : Type 0 where
  servers_eq : t'.servers ≡ t.servers
  leaves_eq : t'.leaves ≡ t.leaves
  spines_eq : t'.spines ≡ t.spines
  registry_eq : t'.asic_registry ≡ t.asic_registry

clients_return :
    (infos : List ClientInfo) (t : Topology)
    → All (λ c. HasClientPort t.asic_registry c) infos
    → (t' : Topology) × (build_clients infos t ≡ returned t') × OnlyClients t t'
unfolding build_clients
clients_return [] t p =
    (t, refl, record { servers_eq = refl; leaves_eq = refl; spines_eq = refl; registry_eq = refl })
clients_return (info ∷ infos) t p =
    let (has, rest) = p in
    let port = has.port_ok in
    let (t', ran, only) =
      clients_return infos
        (record t {
          nodes = write t.next (new_client (u16 info.id) port.found) t.nodes;
          next = t.next + 1;
          clients = store (u16 info.id) t.next t.clients;
        })
        rest in
    (
      t',
      rw (port.named_eq, has.asic_eq, port.found_eq) ran,
      record {
        servers_eq = only.servers_eq;
        leaves_eq = only.leaves_eq;
        spines_eq = only.spines_eq;
        registry_eq = only.registry_eq;
      },
    )

leaves_return :
    (k s : ℕ) (infos : List LeafInfo) (t : Topology)
    → IsValid t
    → load k t.spines ≡ some s
    → s < t.next
    → AreFresh (servers_below infos) t.servers
    → AreFresh (leaf_ids infos) t.leaves
    → All (λ l. HasPorts t.asic_registry l) infos
    → (t' : Topology) × (build_leaves s infos t ≡ returned t')
unfolding build_leaves
leaves_return k s [] t v h lt f g p = (t, refl)
leaves_return k s (info ∷ infos) t v h lt f g p =
    let (t1, made, built) = build_leaf_lem s info t lt p.0 in
    let own = server_ids info.servers in
    let one =
      leaf-IsValid k s info t t1 v h lt (AreFresh-first own (servers_below infos) t.servers f)
        (g.absent (u16 info.id) (ground arith)) made in
    let step = one.1 in
    let (t', rest) =
      leaves_return k s infos t1 one.0 (step.spines_kept k refl ∙ h) (omega (arith, step.next_le))
        (AreFresh-rest own (servers_below infos) t.servers t1.servers f step.servers_kept)
        (AreFresh-rest (u16 info.id ∷ []) (leaf_ids infos) t.leaves t1.leaves g step.leaves_kept)
        (subst (λ r. All (λ l. HasPorts r l) infos) (sym step.registry_eq) p.1) in
    (t', rw made rest)

first_elem : (id : ℕ) (ids : List ℕ) → elem id (id ∷ ids) ≡ true
first_elem id ids = ground arith

other_spine :
    (id j : ℕ) (t : Topology)
    → elem j (id ∷ []) ≡ false
    → load j (store id t.next t.spines) ≡ load j t.spines
other_spine id j t e = ground (arith, load-store id j t.next t.spines)

root_type :
    (n q : Node) (id : ℕ) (t : Topology)
    → q.node_type ≡ core
    → t.root < t.next
    → ((with_new_spine n q id t.root t).nodes t.root).node_type ≡ core
root_type n q id t h lt = ground arith

no_nodes-IsValid : (t : Topology) → t.servers ≡ [] → t.leaves ≡ [] → t.spines ≡ [] → IsValid t
unfolding load
no_nodes-IsValid t s l p = record {
  servers_ok = λ k a h. absurd (ground (arith, s, h));
  leaves_ok = λ k a h. absurd (ground (arith, l, h));
  spines_ok = λ k a h. absurd (ground (arith, p, h));
  leaf_children = λ k a c h m. absurd (ground (arith, l, h));
  spine_children = λ k a c h m. absurd (ground (arith, p, h));
}

all_fresh : (ids : List ℕ) (m : NodeMap) → IsDistinct ids → m ≡ [] → AreFresh ids m
unfolding load
all_fresh ids m d e = record { distinct = d; absent = λ j h. rw e refl }

-- The loop over the spines returns, with a well-formed topology.
spines_return :
    (infos : List SpineInfo) (t : Topology)
    → IsValid t
    → (t.nodes t.root).node_type ≡ core
    → t.root < t.next
    → AreFresh (all_servers infos) t.servers
    → AreFresh (all_leaves infos) t.leaves
    → AreFresh (spine_ids infos) t.spines
    → All (λ s. HasAsic t.asic_registry s) infos
    → (t' : Topology) × (build_spines infos t ≡ returned t') × IsValid t'
unfolding build_spines new_spine
spines_return [] t v at_root lt f g h p = (t, refl, v)
spines_return (info ∷ infos) t v at_root lt f g h p =
    let has = p.0 in
    let id = u16 info.id in
    let n = new_spine info.address id has.found.id in
    let q = record (t.nodes t.root) { children = (t.nodes t.root).children ++ t.next ∷ [] } in
    let t1 = with_new_spine (record n { parent = some t.root }) q id t.root t in
    let v1 : IsValid t1 =
      with_new_spine-IsValid (record n { parent = some t.root }) q id t.root t v at_root
        (h.absent id (first_elem id (spine_ids infos))) refl refl refl in
    let own = servers_below info.leaves in
    let mine = leaf_ids info.leaves in
    let known = load-store_self id t.next t.spines in
    let fresh_servers = AreFresh-first own (all_servers infos) t.servers f in
    let fresh_leaves = AreFresh-first mine (all_leaves infos) t.leaves g in
    let (t2, made) =
      leaves_return id t.next info.leaves t1 v1 known (omega arith) fresh_servers fresh_leaves
        has.leaves_ok in
    let (v2, b) =
      leaves-IsValid id t.next info.leaves t1 t2 v1 known (omega arith) fresh_servers fresh_leaves
        made in
    let (t', rest, valid) =
      spines_return infos t2 v2
        (ap (λ r. (t2.nodes r).node_type) b.root_eq
          ∙ b.type_kept t.root (omega arith)
          ∙ root_type (record n { parent = some t.root }) q id t at_root lt)
        (omega (arith, b.root_eq, b.next_le, lt))
        (AreFresh-rest own (all_servers infos) t.servers t2.servers f b.servers_kept)
        (AreFresh-rest mine (all_leaves infos) t.leaves t2.leaves g b.leaves_kept)
        (AreFresh-rest (id ∷ []) (spine_ids infos) t.spines t2.spines h
          (λ j e. b.spines_kept j refl ∙ other_spine id j t e))
        (subst (λ r. All (λ s. HasAsic r s) infos) (sym b.registry_eq) p.1) in
    (t', rw (has.named_eq, has.found_eq, made) rest, valid)

-- NewDCNFromTopoInfo of a message whose server, leaf and spine IDs are all different and whose ASICs and
-- ports are in the registry returns, and the topology is well formed.
pub new_dcn-IsValid :
    (info : TopoInfo) (registry : AsicRegistry)
    → IsSound registry info
    → (t : Topology) × (new_dcn info registry ≡ returned t) × IsValid t
unfolding new_dcn new_node
new_dcn-IsValid info registry s =
    let (t1, ran, only) = clients_return info.clients (no_topology registry) s.clients_ok in
    let t2 : Topology = record t1 {
      nodes = write t1.next (new_node "" "" 0 0 core) t1.nodes;
      next = t1.next + 1;
      root = t1.next;
      cores = store 0 t1.next t1.cores;
    } in
    let (t', built, valid) =
      spines_return info.spines t2
        (no_nodes-IsValid t2 only.servers_eq only.leaves_eq only.spines_eq) (ground arith)
        (omega arith)
        (all_fresh (all_servers info.spines) t1.servers s.server_ids_distinct only.servers_eq)
        (all_fresh (all_leaves info.spines) t1.leaves s.leaf_ids_distinct only.leaves_eq)
        (all_fresh (spine_ids info.spines) t1.spines s.spine_ids_distinct only.spines_eq)
        (subst (λ r. All (λ x. HasAsic r x) info.spines) (sym only.registry_eq) s.spines_ok) in
    (t', rw ran built, valid)
