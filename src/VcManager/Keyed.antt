-- ===== src/VcManager/Keyed.antt =====
-- The node maps of a cluster (core/model/vc.go): each node stands under its own ID, once.
use horus_controller.VcManager.{ids_of}
use horus_controller.GoMap.{load, store, delete, values, load-store, load-delete}
use horus_controller.Prelude.Words.{u16}
use mathlib.Core.Path.{subst}
use horus_controller.Prelude.{
  ℕ, ◌≡◌, refl, inl, inr, none, List, [], ◌∷◌, arith, Option-cases, elem, IsDistinct, Result, ok,
  err, number_key,
}
use horus_controller.Info.{VcInfo, VcServerInfo}
use horus_controller.Node.{Nodes, NodeMap}
use horus_controller.Topology.State.{Topology}
use horus_controller.Vc.{is_some, VirtualCluster, VcError, add_spines, add_servers, new_vc}

abbrev pub IsKeyed : Nodes → NodeMap → Type 0
IsKeyed nodes [] = Unit
IsKeyed nodes ((k, a) ∷ m) = ((nodes a).id ≡ k) × (load k m ≡ none) × IsKeyed nodes m

pub store-IsKeyed :
    (nodes : Nodes) (k a : ℕ) (m : NodeMap)
    → (nodes a).id ≡ k
    → IsKeyed nodes m
    → IsKeyed nodes (store k a m)
unfolding store load
store-IsKeyed nodes k a [] e h = (e, refl, tt)
store-IsKeyed nodes k a ((j, b) ∷ m) e h =
    ground (arith, store-IsKeyed nodes k a m e h.2, load-store k j a m)

pub delete-IsKeyed :
    (nodes : Nodes) (k : ℕ) (m : NodeMap) → IsKeyed nodes m → IsKeyed nodes (delete k m)
unfolding delete
delete-IsKeyed nodes k [] h = tt
delete-IsKeyed nodes k ((j, b) ∷ m) h =
    ground (arith, delete-IsKeyed nodes k m h.2, load-delete k j m)

pub elem-ids_of :
    (j : ℕ) (t : Topology) (m : NodeMap)
    → IsKeyed t.nodes m
    → elem j (ids_of m t) ≡ is_some (load j m)
unfolding load values
elem-ids_of j t [] h = refl
elem-ids_of j t ((k, a) ∷ m) h = ground (arith, elem-ids_of j t m h.2)

pub ids_of-IsDistinct : (t : Topology) (m : NodeMap) → IsKeyed t.nodes m → IsDistinct (ids_of m t)
unfolding values
ids_of-IsDistinct t [] h = tt
ids_of-IsDistinct t ((k, a) ∷ m) h =
    (ground (arith, elem-ids_of k t m h.2, h), ids_of-IsDistinct t m h.2)

-- All three maps of a cluster.
pub record IsKeyedVc (nodes : Nodes) (vc : VirtualCluster) : Type 0 where
  pub spines : IsKeyed nodes vc.spines
  pub leaves : IsKeyed nodes vc.leaves
  pub servers : IsKeyed nodes vc.servers

add_spines-IsKeyedVc :
    (ids : List ℕ) (t : Topology) (vc vc' : VirtualCluster)
    → IsKeyedVc t.nodes vc
    → add_spines ids t vc ≡ ok vc'
    → IsKeyedVc t.nodes vc'
unfolding add_spines
add_spines-IsKeyedVc [] t vc vc' h e = subst (IsKeyedVc t.nodes) (ground arith) h
add_spines-IsKeyedVc (id ∷ ids) t vc vc' h e = elim (Option-cases (load (u16 id) t.spines)) [
  | inl none_there ↦ ground arith
  | inr (a, there) ↦
      add_spines-IsKeyedVc ids t (record vc { spines = store (t.nodes a).id a vc.spines }) vc'
        (record {
          spines = store-IsKeyed t.nodes (t.nodes a).id a vc.spines refl h.spines;
          leaves = h.leaves;
          servers = h.servers;
        })
        (ground arith)
]

add_servers-IsKeyedVc :
    (infos : List VcServerInfo) (t : Topology) (vc vc' : VirtualCluster)
    → IsKeyedVc t.nodes vc
    → add_servers infos t vc ≡ ok vc'
    → IsKeyedVc t.nodes vc'
unfolding add_servers
add_servers-IsKeyedVc [] t vc vc' h e = subst (IsKeyedVc t.nodes) (ground arith) h
add_servers-IsKeyedVc (info ∷ infos) t vc vc' h e =
    elim (Option-cases (load (u16 info.id) t.servers)) [
      | inl none_there ↦ ground arith
      | inr (a, there) ↦ elim (Option-cases (t.nodes a).parent) [
        | inl no_parent ↦ ground arith
        | inr (l, up) ↦
            add_servers-IsKeyedVc infos t
              (record vc {
                leaves = store (t.nodes l).id l vc.leaves;
                servers = store (t.nodes a).id a vc.servers;
              })
              vc'
              (record {
                spines = h.spines;
                leaves = store-IsKeyed t.nodes (t.nodes l).id l vc.leaves refl h.leaves;
                servers = store-IsKeyed t.nodes (t.nodes a).id a vc.servers refl h.servers;
              })
              (ground arith)
      ]
    ]

pub new_vc-IsKeyedVc :
    (info : VcInfo) (t : Topology) (vc : VirtualCluster)
    → new_vc info t ≡ ok vc
    → IsKeyedVc t.nodes vc
unfolding new_vc
new_vc-IsKeyedVc info t vc e = keyed (add_spines info.spines t empty) refl e
  where
    empty : VirtualCluster
    empty = record { cluster_id = u16 info.id; spines = []; leaves = []; servers = [] }

    finish : Result VcError VirtualCluster → Result VcError VirtualCluster
    finish r = elim r [ err x ↦ err x | ok mid ↦ add_servers info.servers t mid ]

    keyed :
        (r : Result VcError VirtualCluster)
        → add_spines info.spines t empty ≡ r
        → finish r ≡ ok vc
        → IsKeyedVc t.nodes vc
    keyed (err x) p q = cc
    keyed (ok mid) p q =
        add_servers-IsKeyedVc info.servers t mid vc
          (add_spines-IsKeyedVc info.spines t empty mid
            (record { spines = tt; leaves = tt; servers = tt }) p)
          q
