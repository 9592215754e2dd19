-- ===== src/Rpc/Told.antt =====
-- FailLeaf of the central controller (core/net/topologyServer_central.go): whom it tells.
use horus_controller.VcManager.Answers.{detach_leaf_unlisted}
use mathlib.Core.Path.{ap₂}
use horus_controller.GoMap.{values, store}
use mathlib.Core.List.{append-nil, append_assoc}
use horus_controller.Prelude.{
  sym, ap, ℕ, ◌≡◌, ◌∙◌, some, List, [], ◌∷◌, ◌++◌, map, arith, returned, number_key,
}
use horus_controller.Prelude.Words.{u16}
use horus_controller.GoMap.{load, delete}
use horus_controller.Info.{LeafInfo, ok_status}
use horus_controller.Messages.{PortMessage}
use horus_controller.Node.{NodeMap, ports_of, Nodes}
use horus_controller.Topology.State.{Topology}
use horus_controller.Topology.Valid.{IsValid, parent_at}
use horus_controller.Topology.RemoveLeaf.Effect.{LeafRemoved, remove_leaf_lem}
use horus_controller.VcManager.{VcManager, list_at}
use horus_controller.Rpc.State.{Channels, RpcServer}
use horus_controller.Rpc.Central.{
  fail_leaf, disable_all, announce_failed_leaf, spines_of, store_parent,
}

-- The messages that turn off the ports of the servers.
abbrev pub server_ports : Nodes → List ℕ → List PortMessage
server_ports nodes = map (λ a. record { port = (nodes a).port })

disable_all_lem :
    (xs : List ℕ) (t t' : Topology) (c : Channels)
    → ((b : ℕ) → ports_of (t'.nodes b) ≡ ports_of (t.nodes b))
    → disable_all xs t' c
      ≡ record c { disabled_ports = c.disabled_ports ++ server_ports t.nodes xs }
unfolding disable_all
disable_all_lem [] t t' c h =
    ap (λ l. record c { disabled_ports = l }) (sym (append-nil c.disabled_ports))
disable_all_lem (x ∷ xs) t t' c h =
    let off : List PortMessage = c.disabled_ports ++ record { port = (t'.nodes x).port } ∷ [] in
    let same : (t'.nodes x).port ≡ (t.nodes x).port = ground (arith, h x) in
    disable_all_lem xs t t' (record c { disabled_ports = off }) h
    ∙ ap (λ l. record c { disabled_ports = l })
        (append_assoc c.disabled_ports (record { port = (t'.nodes x).port } ∷ [])
            (server_ports t.nodes xs)
          ∙ ap (λ p. c.disabled_ports ++ record { port = p } ∷ server_ports t.nodes xs) same)

-- Two more ports and a list behind them.
two_more :
    {A : Type 0} (xs ys : List A) (d d' u u' : A)
    → d' ≡ d
    → u' ≡ u
    → ((xs ++ d' ∷ []) ++ u' ∷ []) ++ ys ≡ xs ++ d ∷ u ∷ ys
two_more xs ys d d' u u' e f =
    append_assoc (xs ++ d' ∷ []) (u' ∷ []) ys
    ∙ (append_assoc xs (d' ∷ []) (u' ∷ ys) ∙ ap₂ (λ x y. xs ++ x ∷ y ∷ ys) e f)

announce_failed_leaf_lem :
    (info : LeafInfo) (xs : List ℕ) (spines : NodeMap) (a p : ℕ) (t t' : Topology) (c : Channels)
    → ((b : ℕ) → ports_of (t'.nodes b) ≡ ports_of (t.nodes b))
    → values spines ≡ p ∷ []
    → announce_failed_leaf info xs spines a t' c ≡ record c {
      failed_leaves = c.failed_leaves ++ record { leaf = info; dsts = p ∷ [] } ∷ [];
      disabled_ports =
          c.disabled_ports
          ++ record { port = (t.nodes a).ds_port }
            ∷ record { port = (t.nodes a).us_port }
            ∷ server_ports t.nodes xs;
    }
unfolding announce_failed_leaf
announce_failed_leaf_lem info xs spines a p t t' c h one =
    let ds : PortMessage = record { port = (t.nodes a).ds_port } in
    let us : PortMessage = record { port = (t.nodes a).us_port } in
    let ds' : PortMessage = record { port = (t'.nodes a).ds_port } in
    let us' : PortMessage = record { port = (t'.nodes a).us_port } in
    let own : Channels = record c { disabled_ports = (c.disabled_ports ++ ds' ∷ []) ++ us' ∷ [] } in
    let told : List ℕ → Channels → Channels = λ dsts k. record k {
      failed_leaves = k.failed_leaves ++ record { leaf = info; dsts = dsts } ∷ [];
    } in
    let ports =
      two_more c.disabled_ports (server_ports t.nodes xs) ds ds' us us'
        (ap (λ q. record { port = q.1 }) (h a)) (ap (λ q. record { port = q.2 }) (h a)) in
    ap₂ told one (disable_all_lem xs t t' own h)
    ∙ ap (λ l. told (p ∷ []) (record c { disabled_ports = l })) ports

-- FailLeaf of a leaf of a well-formed topology that is in no cluster answers OK: the leaf and its
-- servers are out of the topology, the spine of the leaf alone is told that it failed, and the two ports
-- of the leaf and those of its servers are disabled, in this order, and nothing else is sent.
pub fail_leaf_told :
    (info : LeafInfo) (a : ℕ) (s : RpcServer)
    → IsValid s.topology
    → load (u16 info.id) s.topology.leaves ≡ some a
    → list_at (u16 info.id) s.vcm.leaf_vcs ≡ []
    → let t = s.topology in
      let c = s.out in
      let n = t.nodes a in
      let p = parent_at n in
      (s' : RpcServer) × (fail_leaf info s ≡ returned (s', ok_status))
      × LeafRemoved (u16 info.id) a p t s'.topology
      × (s'.out ≡ record c {
        failed_leaves = c.failed_leaves ++ record { leaf = info; dsts = p ∷ [] } ∷ [];
        disabled_ports =
            c.disabled_ports
            ++ record { port = n.ds_port }
              ∷ record { port = n.us_port }
              ∷ server_ports t.nodes n.children;
      })
unfolding fail_leaf announce_failed_leaf spines_of
fail_leaf_told info a s v h unlisted =
    let t = s.topology in
    let lid = u16 info.id in
    let l = v.leaves_ok lid a h in
    let p = parent_at (t.nodes a) in
    let (t', ran, d) = remove_leaf_lem lid a t v h in
    let freed = detach_leaf_unlisted lid t s.vcm unlisted in
    let spines = store_parent (t.nodes a).parent t [] in
    let out = announce_failed_leaf info (t.nodes a).children spines a t' s.out in
    let m : VcManager = (let u = s.vcm in record u { leaf_vcs = delete lid u.leaf_vcs }) in
    (
      record s { topology = t'; vcm = m; out = out },
      ground (arith, ran, freed, unlisted),
      d,
      announce_failed_leaf_lem info (t.nodes a).children spines a p t t' s.out d.ports_eq
          (unfold values in unfold store in ground (arith, l.parent_eq)),
    )
