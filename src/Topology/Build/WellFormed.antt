-- ===== src/Topology/Build/WellFormed.antt =====
-- NewDCNFromTopoInfo (core/model/topology.go) makes a well-formed topology.
use horus_controller.Topology.Build.Servers.{build_servers_lem}
use horus_controller.Topology.Valid.NewLeaf.{with_new_leaf-IsValid}
use horus_controller.Topology.Valid.NewSpine.{with_last_worker, with_last_worker-IsValid}
use horus_controller.Topology.Valid.NewServer.{with_new_server-IsValid}
use horus_controller.Topology.Valid.{IsValid}
use horus_controller.Topology.Build.{build_leaves, build_leaf, put_child, build_servers}
use horus_controller.Topology.State.{Topology, find_port, or_fatal}
use horus_controller.Info.{LeafInfo, ServerInfo}
use horus_controller.Node.{NodeMap}
use horus_controller.GoMap.{load-store_self, load, store}
use horus_controller.Prelude.Words.{u16, add16, sub16}
use mathlib.Core.Path.{subst}
use horus_controller.Node.{new_server, new_leaf}
use horus_controller.Topology.Build.Growth.{put_server-Grown, leaf-Grown, servers_below}
use horus_controller.Prelude.{
  returned_inj, ◌∙◌, none, ◌++◌, ℕ, ◌<◌, String, ◌≡◌, refl, some, List, [], ◌∷◌, arith, deref,
  >>=-returned, returned, number_key, text_key,
}
use horus_controller.Topology.Build.Growth.{
  leaf_ids, AreFresh-first, server_ids, AreFresh, Grown, Grown-refl, Grown-trans, AreFresh-rest,
}

-- The loop over the servers of the leaf `l`, which is not in the map of leaves yet: with the leaf in
-- the map, the topology is well formed.
pub servers-IsValid :
    (asic : String) (k l w : ℕ) (infos : List ServerInfo) (m : NodeMap) (t t' : Topology) (w' : ℕ)
    → IsValid (record t { leaves = m })
    → load k m ≡ some l
    → l < t.next
    → AreFresh (server_ids infos) t.servers
    → build_servers asic l infos w t ≡ returned (t', w')
    → IsValid (record t' { leaves = m }) × Grown t t' (server_ids infos) [] []
unfolding build_servers new_server
servers-IsValid asic k l w [] m t t' w' v h lt f r =
    let e : t ≡ t' = ground arith in
    (
      subst (λ (x : Topology). IsValid (record x { leaves = m })) e v,
      subst (λ x. Grown t x [] [] []) e (Grown-refl t),
    )
servers-IsValid asic k l w (info ∷ infos) m t t' w' v h lt f r =
    let id = u16 info.id in
    let (port_info, one, r1) = >>=-returned (deref info.port) _ r in
    let (port, two, r2) =
      >>=-returned (or_fatal (find_port asic port_info.id t.asic_registry)) _ r1 in
    let next = add16 w (u16 info.workers_count) in
    let n = record (new_server info.address id port) {
      first_worker_id = w;
      last_worker_id = sub16 next 1;
    } in
    let put = put_child n l t in
    let t1 : Topology = record put { servers = store id t.next put.servers } in
    let absent = f.absent id (ground arith) in
    let v1 : IsValid (record t1 { leaves = m }) =
      with_new_server-IsValid (record n { parent = some l })
        (record (t.nodes l) { children = (t.nodes l).children ++ t.next ∷ [] }) id k l
        (record t { leaves = m }) v h absent
        (record { id_eq = refl; type_eq = refl; parent_eq = refl })
        (record { id_eq = refl; type_eq = refl; parent_eq = refl; children_eq = refl }) in
    let step = put_server-Grown n id l t in
    let ih =
      servers-IsValid asic k l next infos m t1 t' w' v1 h (omega arith)
        (AreFresh-rest (id ∷ []) (server_ids infos) t.servers t1.servers f step.servers_kept) r2 in
    (ih.0, Grown-trans t t1 t' (id ∷ []) (server_ids infos) [] [] [] [] step ih.1)

-- The body of the loop over the leaves of the spine `s`.
pub leaf-IsValid :
    (k s : ℕ) (info : LeafInfo) (t t' : Topology)
    → IsValid t
    → load k t.spines ≡ some s
    → s < t.next
    → AreFresh (server_ids info.servers) t.servers
    → load (u16 info.id) t.leaves ≡ none
    → build_leaf s info t ≡ returned t'
    → IsValid t' × Grown t t' (server_ids info.servers) (u16 info.id ∷ []) []
unfolding build_leaf new_leaf
leaf-IsValid k s info t t' v h lt f absent r =
    let (asic, _, r1) = >>=-returned (deref info.asic) _ r in
    let (ds_info, _, r2) = >>=-returned (deref info.ds_port) _ r1 in
    let (us_info, _, r3) = >>=-returned (deref info.us_port) _ r2 in
    let (ds, _, r4) = >>=-returned (or_fatal (find_port asic.id ds_info.id t.asic_registry)) _ r3 in
    let (us, _, r5) = >>=-returned (or_fatal (find_port asic.id us_info.id t.asic_registry)) _ r4 in
    let id = u16 info.id in
    let fresh = new_leaf info.address info.mgmt_address id ds us in
    let n = record fresh { index = u16 info.index; first_worker_id = 0 } in
    let t1 = put_child n s t in
    let m = store id t.next t.leaves in
    let (built, made, r6) = >>=-returned (build_servers asic.id t.next info.servers 0 t1) _ r5 in
    let v1 : IsValid (record t1 { leaves = m }) =
      with_new_leaf-IsValid (record n { parent = some s })
        (record (t.nodes s) { children = (t.nodes s).children ++ t.next ∷ [] }) id k s t v h absent
        (record { id_eq = refl; type_eq = refl; parent_eq = refl })
        (record { id_eq = refl; type_eq = refl; parent_eq = refl; children_eq = refl }) refl in
    let servers =
      servers-IsValid asic.id id t.next 0 info.servers m t1 built.0 built.1 v1
        (load-store_self id t.next t.leaves) (omega arith) f made in
    let same : built.0.leaves ≡ t.leaves =
      (build_servers_lem asic.id t.next 0 built.1 info.servers t1 built.0 (omega arith)
        (omega arith) made).leaves_eq in
    let last = sub16 built.1 1 in
    let ends = returned_inj r6 in
    let grown = leaf-Grown n id t.next s last (server_ids info.servers) t built.0 servers.1 same in
    let valid : IsValid (
        with_last_worker t.next last (record built.0 { leaves = store id t.next built.0.leaves })) =
      rw same (with_last_worker-IsValid t.next last (record built.0 { leaves = m }) servers.0) in
    (
      subst IsValid ends valid,
      subst (λ x. Grown t x (server_ids info.servers) (id ∷ []) []) ends grown,
    )

-- The loop over the leaves of the spine `s`.
pub leaves-IsValid :
    (k s : ℕ) (infos : List LeafInfo) (t t' : Topology)
    → IsValid t
    → load k t.spines ≡ some s
    → s < t.next
    → AreFresh (servers_below infos) t.servers
    → AreFresh (leaf_ids infos) t.leaves
    → build_leaves s infos t ≡ returned t'
    → IsValid t' × Grown t t' (servers_below infos) (leaf_ids infos) []
unfolding build_leaves
leaves-IsValid k s [] t t' v h lt f g r =
    let e : t ≡ t' = ground arith in
    (subst IsValid e v, subst (λ x. Grown t x [] [] []) e (Grown-refl t))
leaves-IsValid k s (info ∷ infos) t t' v h lt f g r =
    let (t1, made, r1) = >>=-returned (build_leaf s info t) _ r in
    let own = server_ids info.servers in
    let one =
      leaf-IsValid k s info t t1 v h lt (AreFresh-first own (servers_below infos) t.servers f)
        (g.absent (u16 info.id) (ground arith)) made in
    let step = one.1 in
    let rest =
      leaves-IsValid k s infos t1 t' one.0 (step.spines_kept k refl ∙ h)
        (omega (arith, step.next_le))
        (AreFresh-rest own (servers_below infos) t.servers t1.servers f step.servers_kept)
        (AreFresh-rest (u16 info.id ∷ []) (leaf_ids infos) t.leaves t1.leaves g step.leaves_kept)
        r1 in
    (
      rest.0,
      Grown-trans t t1 t' own (servers_below infos) (u16 info.id ∷ []) (leaf_ids infos) [] [] step
          rest.1,
    )
