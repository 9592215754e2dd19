-- ===== src/Vc.antt =====
-- core/model/vc.go: virtual clusters.
use horus_controller.GoMap.{load, store, delete}
use horus_controller.Prelude.Words.{u16}
use horus_controller.Prelude.{
  ℕ, Bool, true, false, ◌&&◌, ◌||◌, not, Option, none, some, List, [], ◌∷◌, ◌++◌, nat_beq,
  if◌then◌else◌, any, Outcome, ◌>>=◌, deref, Result, returned, ok, err, number_key,
}
use horus_controller.Info.{VcInfo, VcServerInfo}
use horus_controller.Node.{Nodes, NodeMap}
use horus_controller.Topology.State.{Topology}

pub record VirtualCluster : Type 0 where
  pub cluster_id : ℕ  -- uint16
  pub spines : NodeMap
  pub leaves : NodeMap
  pub servers : NodeMap

pub data VcError : Type 0 where
  no_spine : ℕ → VcError
  no_leaf : VcError
  no_server : ℕ → VcError
  vc_exists : ℕ → VcError
  no_vc : ℕ → VcError

-- The loop over the spines of the configuration.
unfoldable pub add_spines : List ℕ → Topology → VirtualCluster → Result VcError VirtualCluster
add_spines [] t vc = ok vc
add_spines (id ∷ ids) t vc = elim (load (u16 id) t.spines) [
  | none ↦ err (no_spine id)
  | some a ↦ add_spines ids t (record vc { spines = store (t.nodes a).id a vc.spines })
]

-- The loop over the servers of the configuration.
unfoldable pub add_servers :
    List VcServerInfo → Topology → VirtualCluster → Result VcError VirtualCluster
add_servers [] t vc = ok vc
add_servers (info ∷ infos) t vc = elim (load (u16 info.id) t.servers) [
  | none ↦ err (no_server info.id)
  | some a ↦ elim (t.nodes a).parent [
    | none ↦ err no_leaf
    | some l ↦ add_servers infos t (record vc {
      leaves = store (t.nodes l).id l vc.leaves;
      servers = store (t.nodes a).id a vc.servers;
    })
  ]
]

unfoldable pub new_vc : VcInfo → Topology → Result VcError VirtualCluster
unfolding add_spines add_servers
new_vc info t =
    elim (add_spines info.spines t
      (record { cluster_id = u16 info.id; spines = []; leaves = []; servers = [] })) [
        | err e ↦ err e
        | ok vc ↦ add_servers info.servers t vc
      ]

abbrev pub is_some {ℓ} : {A : Type ℓ} → Option A → Bool
is_some none = false
is_some (some a) = true

-- Does the leaf have another server in the cluster?
abbrev pub has_other_child : ℕ → VirtualCluster → Nodes → List ℕ → Bool
has_other_child sid vc nodes =
    any (λ s. not (nat_beq (nodes s).id sid) && is_some (load (nodes s).id vc.servers))

-- Is the server detached, and has its leaf no other server in the cluster?
unfoldable pub vc_detach_server :
    ℕ → Nodes → VirtualCluster → Outcome (VirtualCluster × Bool × Bool)
vc_detach_server sid nodes vc = elim (load sid vc.servers) [
  | none ↦ returned (vc, false, false)
  | some a ↦ do
    l ← deref (nodes a).parent
    let other = has_other_child sid vc nodes (nodes l).children
    returned (record vc { servers = delete sid vc.servers }, true, not other)
]

-- The loop over the servers of a leaf: the cluster, whether a call said that the leaf is empty, and
-- the servers that were in the cluster.
unfoldable pub vc_detach_servers :
    List ℕ → Nodes → VirtualCluster → Bool → List ℕ → Outcome (VirtualCluster × Bool × List ℕ)
unfolding vc_detach_server
vc_detach_servers [] nodes vc detached out = returned (vc, detached, out)
vc_detach_servers (a ∷ rest) nodes vc detached out = do
  r ← vc_detach_server (nodes a).id nodes vc
  vc_detach_servers rest nodes r.0 (detached || r.2) (if r.1 then out ++ a ∷ [] else out)

unfoldable pub vc_detach_leaf :
    ℕ → Nodes → VirtualCluster → Outcome (VirtualCluster × Bool × List ℕ)
unfolding vc_detach_servers
vc_detach_leaf lid nodes vc = elim (load lid vc.leaves) [
  | none ↦ returned (vc, false, [])
  | some l ↦ do
    r ← vc_detach_servers (nodes l).children nodes vc false []
    let vc' = r.0
    returned (record vc' { leaves = delete (nodes l).id vc'.leaves }, r.1, r.2)
]
