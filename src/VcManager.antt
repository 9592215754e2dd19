-- ===== src/VcManager.antt =====
-- core/vcManager.go: the virtual clusters of the system, and the lists of those of each server and
-- of each leaf. A `*VirtualCluster` is an address of the heap `objects`.
pub mod Keyed
pub mod Lists
pub mod Consistent
pub mod Answers
use horus_controller.Prelude.{
  ℕ, ◌+◌, Bool, true, false, ◌&&◌, ◌||◌, Option, none, some, List, [], ◌∷◌, ◌++◌, map, nat_beq,
  if◌then◌else◌, Outcome, ◌>>=◌, deref, Result, returned, ok, err, number_key,
}
use horus_controller.Node.{NodeMap}
use horus_controller.GoMap.{load, store, delete, values, GoMap}
use horus_controller.Topology.State.{Topology}
use horus_controller.Vc.{is_some, vc_detach_server, vc_detach_leaf, VirtualCluster, VcError}

pub record VcManager : Type 0 where
  pub objects : ℕ → VirtualCluster
  pub next : ℕ
  pub vcs : GoMap ℕ ℕ
  pub server_vcs : GoMap ℕ (List ℕ)
  pub leaf_vcs : GoMap ℕ (List ℕ)

abbrev pub put : ℕ → VirtualCluster → (ℕ → VirtualCluster) → ℕ → VirtualCluster
put o vc objects b = if nat_beq o b then vc else objects b

-- A missing key of a map of slices reads as the empty slice.
abbrev pub list_at : ℕ → GoMap ℕ (List ℕ) → List ℕ
list_at k m = elim (load k m) [ none ↦ [] | some l ↦ l ]

unfoldable pub append_to_list : ℕ → ℕ → GoMap ℕ (List ℕ) → GoMap ℕ (List ℕ)
append_to_list k o m = store k (list_at k m ++ o ∷ []) m

-- The list without its first cluster of the ID.
unfoldable pub drop_first : ℕ → (ℕ → VirtualCluster) → List ℕ → List ℕ
drop_first id objects [] = []
drop_first id objects (o ∷ rest) =
    let kept = drop_first id objects rest in
    if nat_beq (objects o).cluster_id id then rest else o ∷ kept

unfoldable pub remove_from_list : ℕ → ℕ → (ℕ → VirtualCluster) → GoMap ℕ (List ℕ) → GoMap ℕ (List ℕ)
unfolding drop_first
remove_from_list k id objects m = elim (load k m) [
  | none ↦ m
  | some l ↦ store k (drop_first id objects l) m
]

-- The loops of AddVC and RemoveVC over the nodes of the cluster, by their IDs.
unfoldable pub append_to_lists : List ℕ → ℕ → GoMap ℕ (List ℕ) → GoMap ℕ (List ℕ)
unfolding append_to_list
append_to_lists [] o m = m
append_to_lists (id ∷ ids) o m = append_to_lists ids o (append_to_list id o m)

unfoldable pub remove_from_lists :
    List ℕ → ℕ → (ℕ → VirtualCluster) → GoMap ℕ (List ℕ) → GoMap ℕ (List ℕ)
unfolding remove_from_list
remove_from_lists [] id objects m = m
remove_from_lists (k ∷ ks) id objects m =
    remove_from_lists ks id objects (remove_from_list k id objects m)

abbrev pub ids_of : NodeMap → Topology → List ℕ
ids_of m t = map (λ a. (t.nodes a).id) (values m)

unfoldable pub get_vcs : VcManager → List ℕ
get_vcs m = values m.vcs

abbrev pub get_vc : ℕ → VcManager → Option ℕ
get_vc id m = load id m.vcs

abbrev pub get_vcs_of_server : ℕ → VcManager → Option (List ℕ)
get_vcs_of_server sid m = load sid m.server_vcs

abbrev pub get_vcs_of_leaf : ℕ → VcManager → Option (List ℕ)
get_vcs_of_leaf lid m = load lid m.leaf_vcs

-- AddVC of a cluster that NewVC has just made: it is put at `next`.
unfoldable pub add_vc : VirtualCluster → Topology → VcManager → VcManager × Result VcError ℕ
unfolding append_to_lists
add_vc vc t m = elim (load vc.cluster_id m.vcs) [
  | some _ ↦ (m, err (VcError.vc_exists vc.cluster_id))
  | none ↦ (
    record {
      objects = put m.next vc m.objects;
      next = m.next + 1;
      vcs = store vc.cluster_id m.next m.vcs;
      server_vcs = append_to_lists (ids_of vc.servers t) m.next m.server_vcs;
      leaf_vcs = append_to_lists (ids_of vc.leaves t) m.next m.leaf_vcs;
    },
    ok m.next,
  )
]

unfoldable pub remove_vc : ℕ → Topology → VcManager → VcManager × Result VcError (Unit {0})
unfolding remove_from_lists
remove_vc o t m =
    let vc = m.objects o in
    elim (load vc.cluster_id m.vcs) [
      | none ↦ (m, err (VcError.no_vc vc.cluster_id))
      | some _ ↦ (
        record m {
          vcs = delete vc.cluster_id m.vcs;
          server_vcs = remove_from_lists (ids_of vc.servers t) vc.cluster_id m.objects m.server_vcs;
          leaf_vcs = remove_from_lists (ids_of vc.leaves t) vc.cluster_id m.objects m.leaf_vcs;
        },
        ok tt,
      )
    ]

-- `if len(vc.Servers.Internal()) == 0 { vcm.RemoveVC(vc) }`
unfoldable pub remove_if_empty : ℕ → Topology → VcManager → VcManager
unfolding remove_vc
remove_if_empty o t m = elim (m.objects o).servers [ [] ↦ (remove_vc o t m).0 | _ ∷ _ ↦ m ]

-- The leaf of the server leaves the cluster; nil pointers are followed only where the code does.
unfoldable pub drop_leaf_of : ℕ → ℕ → Bool → Topology → VcManager → Outcome VcManager
unfolding remove_from_list
drop_leaf_of sid o false t m = returned m
drop_leaf_of sid o true t m = do
  a ← deref (load sid t.servers)
  elim (t.nodes a).parent [
    | none ↦ returned m
    | some l ↦
        let vc = m.objects o in
        let lid = (t.nodes l).id in
        returned (record m {
          objects = put o (record vc { leaves = delete lid vc.leaves }) m.objects;
          leaf_vcs = remove_from_list lid vc.cluster_id m.objects m.leaf_vcs;
        })
  ]

-- The body of the loop of DetachServer; `detached` is none until the first round.
unfoldable pub detach_server_from :
    ℕ → Topology → ℕ → Option Bool → VcManager → Outcome (VcManager × Option Bool)
unfolding drop_leaf_of remove_if_empty
detach_server_from sid t o detached m = do
  r ← vc_detach_server sid t.nodes (m.objects o)
  m' ← drop_leaf_of sid o r.2 t (record m { objects = put o r.0 m.objects })
  returned
      (remove_if_empty o t m', some (elim detached [ none ↦ r.1 | some before ↦ before && r.1 ]))

unfoldable pub detach_server_loop :
    ℕ → Topology → List ℕ → Option Bool → VcManager → Outcome (VcManager × Option Bool)
unfolding detach_server_from
detach_server_loop sid t [] detached m = returned (m, detached)
detach_server_loop sid t (o ∷ os) detached m = do
  r ← detach_server_from sid t o detached m
  detach_server_loop sid t os r.1 r.0

abbrev pub or_false : Option Bool → Bool
or_false none = false
or_false (some b) = b

-- DetachServer. The loop ranges over the slice as it is at the start: the rounds change the lists
-- of other nodes only, since the cluster no longer has the server when RemoveVC runs.
unfoldable pub detach_server : ℕ → Topology → VcManager → Outcome (VcManager × Bool)
unfolding detach_server_loop
detach_server sid t m = do
  r ← detach_server_loop sid t (list_at sid m.server_vcs) none m
  let m' = r.0
  returned (
    record m' { server_vcs = delete sid m'.server_vcs },
    elim (load sid m.server_vcs) [ none ↦ false | some _ ↦ or_false r.1 ],
  )

-- The body of the loop of DetachLeaf.
unfoldable pub detach_leaf_from : ℕ → Topology → ℕ → Bool → VcManager → Outcome (VcManager × Bool)
unfolding remove_if_empty remove_from_lists
detach_leaf_from lid t o detached m = do
  r ← vc_detach_leaf lid t.nodes (m.objects o)
  let objects = put o r.0 m.objects
  let m' = record m {
    objects = objects;
    server_vcs =
        remove_from_lists (map (λ a. (t.nodes a).id) r.2) (m.objects o).cluster_id objects
          m.server_vcs;
  }
  returned (remove_if_empty o t m', detached && r.1)

unfoldable pub detach_leaf_loop :
    ℕ → Topology → List ℕ → Bool → VcManager → Outcome (VcManager × Bool)
unfolding detach_leaf_from
detach_leaf_loop lid t [] detached m = returned (m, detached)
detach_leaf_loop lid t (o ∷ os) detached m = do
  r ← detach_leaf_from lid t o detached m
  detach_leaf_loop lid t os r.1 r.0

unfoldable pub detach_leaf : ℕ → Topology → VcManager → Outcome (VcManager × Bool)
unfolding detach_leaf_loop
detach_leaf lid t m = do
  r ← detach_leaf_loop lid t (list_at lid m.leaf_vcs) true m
  let m' = r.0
  returned (record m' { leaf_vcs = delete lid m'.leaf_vcs }, is_some (load lid m.leaf_vcs) || r.1)
