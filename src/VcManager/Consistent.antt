-- ===== src/VcManager/Consistent.antt =====
-- AddVC and RemoveVC (core/vcManager.go) keep the lists of clusters in step with the clusters.
use horus_controller.VcManager.Lists.{
  list_at-append_to_lists, list_at-remove_from_lists, drop_first-without,
}
use horus_controller.VcManager.Keyed.{elem-ids_of, ids_of-IsDistinct, IsKeyedVc, new_vc-IsKeyedVc}
use horus_controller.Topology.AddLeaf.{points_to}
use horus_controller.VcManager.{VcManager, list_at, ids_of, add_vc, remove_vc}
use horus_controller.Info.{VcInfo}
use mathlib.Core.Path.{subst}
use horus_controller.Prelude.{
  ℕ, ◌<◌, ◌≡◌, inl, inr, Bool, true, false, ◌&&◌, none, some, arith, nat_beq, if◌then◌else◌,
  Bool-cases, Option-cases, elem, IsDistinct, without, elem-without, elem-append, IsDistinct-append,
  IsDistinct-without, ok, number_key,
}
use horus_controller.GoMap.{load, delete, load-store, load-delete}
use horus_controller.Node.{NodeMap}
use horus_controller.Topology.State.{Topology}
use horus_controller.Vc.{new_vc, is_some, VirtualCluster}

-- Is the object the one that the manager has under its cluster ID?
abbrev pub is_registered : VcManager → ℕ → Bool
is_registered m o = points_to (load (m.objects o).cluster_id m.vcs) o

-- Is the node with the ID in a map of the cluster?
abbrev pub has : ℕ → NodeMap → Bool
has id m = is_some (load id m)

pub record RegisteredAt (t : Topology) (m : VcManager) (k o : ℕ) : Type 0 where
  pub allocated : o < m.next
  pub id_eq : (m.objects o).cluster_id ≡ k
  pub keyed : IsKeyedVc t.nodes (m.objects o)

-- A cluster stands in the list of a server or leaf exactly if it is registered and has that node.
pub record IsConsistent (t : Topology) (m : VcManager) : Type 0 where
  pub registered : (k o : ℕ) → load k m.vcs ≡ some o → RegisteredAt t m k o
  pub server_lists :
      (s o : ℕ)
      → elem o (list_at s m.server_vcs) ≡ (is_registered m o && has s (m.objects o).servers)
  pub leaf_lists :
      (l o : ℕ) → elem o (list_at l m.leaf_vcs) ≡ (is_registered m o && has l (m.objects o).leaves)
  pub server_distinct : (s : ℕ) → IsDistinct (list_at s m.server_vcs)
  pub leaf_distinct : (l : ℕ) → IsDistinct (list_at l m.leaf_vcs)

module _ (vc : VirtualCluster) (t : Topology) (m : VcManager) (c : IsConsistent t m)
    (keyed : IsKeyedVc t.nodes vc) (absent : load vc.cluster_id m.vcs ≡ none) where
  abbrev added : VcManager
  added = (add_vc vc t m).0

  not_registered : is_registered m m.next ≡ false
  not_registered = elim (Bool-cases (is_registered m m.next)) [
    | inr e ↦ e
    | inl e ↦ absurd (ground (arith, c.registered (m.objects m.next).cluster_id m.next))
  ]

  added-registered : (k o : ℕ) → load k added.vcs ≡ some o → RegisteredAt t added k o
  unfolding add_vc
  added-registered k o h =
      ground (arith, absent, keyed, c.registered k o, load-store vc.cluster_id k m.next m.vcs)

  added-server_lists :
      (s o : ℕ)
      → elem o (list_at s added.server_vcs)
        ≡ (is_registered added o && has s (added.objects o).servers)
  unfolding add_vc
  added-server_lists s o = ground (
    arith,
    absent,
    not_registered,
    c.server_lists s o,
    elem-ids_of s t vc.servers keyed.servers,
    list_at-append_to_lists s m.next (ids_of vc.servers t) m.server_vcs
        (ids_of-IsDistinct t vc.servers keyed.servers),
    elem-append o m.next (list_at s m.server_vcs),
    load-store vc.cluster_id (m.objects o).cluster_id m.next m.vcs,
    load-store vc.cluster_id vc.cluster_id m.next m.vcs,
  )

  added-leaf_lists :
      (l o : ℕ)
      → elem o (list_at l added.leaf_vcs)
        ≡ (is_registered added o && has l (added.objects o).leaves)
  unfolding add_vc
  added-leaf_lists s o = ground (
    arith,
    absent,
    not_registered,
    c.leaf_lists s o,
    elem-ids_of s t vc.leaves keyed.leaves,
    list_at-append_to_lists s m.next (ids_of vc.leaves t) m.leaf_vcs
        (ids_of-IsDistinct t vc.leaves keyed.leaves),
    elem-append o m.next (list_at s m.leaf_vcs),
    load-store vc.cluster_id (m.objects o).cluster_id m.next m.vcs,
    load-store vc.cluster_id vc.cluster_id m.next m.vcs,
  )

  added-server-IsDistinct : (s : ℕ) → IsDistinct (list_at s added.server_vcs)
  unfolding add_vc
  added-server-IsDistinct s = ground (
    arith,
    absent,
    c.server_distinct s,
    c.server_lists s m.next,
    not_registered,
    list_at-append_to_lists s m.next (ids_of vc.servers t) m.server_vcs
        (ids_of-IsDistinct t vc.servers keyed.servers),
    IsDistinct-append m.next (list_at s m.server_vcs),
  )

  added-leaf-IsDistinct : (s : ℕ) → IsDistinct (list_at s added.leaf_vcs)
  unfolding add_vc
  added-leaf-IsDistinct s = ground (
    arith,
    absent,
    c.leaf_distinct s,
    c.leaf_lists s m.next,
    not_registered,
    list_at-append_to_lists s m.next (ids_of vc.leaves t) m.leaf_vcs
        (ids_of-IsDistinct t vc.leaves keyed.leaves),
    IsDistinct-append m.next (list_at s m.leaf_vcs),
  )

  added-IsConsistent : IsConsistent t added
  added-IsConsistent = record {
    registered = added-registered;
    server_lists = added-server_lists;
    leaf_lists = added-leaf_lists;
    server_distinct = added-server-IsDistinct;
    leaf_distinct = added-leaf-IsDistinct;
  }

-- AddVC of a cluster made by NewVC keeps the lists in step with the clusters, also where it refuses.
pub add_vc-IsConsistent :
    (info : VcInfo) (vc : VirtualCluster) (t : Topology) (m : VcManager)
    → IsConsistent t m
    → new_vc info t ≡ ok vc
    → IsConsistent t (add_vc vc t m).0
add_vc-IsConsistent info vc t m c made = elim (Option-cases (load vc.cluster_id m.vcs)) [
  | inl e ↦ added-IsConsistent vc t m c (new_vc-IsKeyedVc info t vc made) e
  | inr (o, e) ↦ subst (IsConsistent t) {x = m} (unfold add_vc in ground arith) c
]

module _ (o : ℕ) (t : Topology) (m : VcManager) (c : IsConsistent t m)
    (is_in : load (m.objects o).cluster_id m.vcs ≡ some o) where
  abbrev left : VcManager
  left = (remove_vc o t m).0

  abbrev id : ℕ
  id = (m.objects o).cluster_id

  keyed_o : IsKeyedVc t.nodes (m.objects o)
  keyed_o = (c.registered id o is_in).keyed

  only_one : (x : ℕ) → is_registered m x ≡ true → nat_beq (m.objects x).cluster_id id ≡ nat_beq x o
  only_one x r = ground (arith, is_in)

  server_list :
      (s : ℕ)
      → list_at s left.server_vcs ≡ (
          if has s (m.objects o).servers
          then without o (list_at s m.server_vcs)
          else list_at s m.server_vcs)
  unfolding remove_vc
  server_list s = ground (
    arith,
    is_in,
    elem-ids_of s t (m.objects o).servers keyed_o.servers,
    list_at-remove_from_lists s id m.objects (ids_of (m.objects o).servers t) m.server_vcs
        (ids_of-IsDistinct t (m.objects o).servers keyed_o.servers),
    drop_first-without id o m.objects (list_at s m.server_vcs) (c.server_distinct s)
        (λ x h. only_one x (ground (arith, c.server_lists s x))),
  )

  leaf_list :
      (s : ℕ)
      → list_at s left.leaf_vcs ≡ (
          if has s (m.objects o).leaves
          then without o (list_at s m.leaf_vcs)
          else list_at s m.leaf_vcs)
  unfolding remove_vc
  leaf_list s = ground (
    arith,
    is_in,
    elem-ids_of s t (m.objects o).leaves keyed_o.leaves,
    list_at-remove_from_lists s id m.objects (ids_of (m.objects o).leaves t) m.leaf_vcs
        (ids_of-IsDistinct t (m.objects o).leaves keyed_o.leaves),
    drop_first-without id o m.objects (list_at s m.leaf_vcs) (c.leaf_distinct s)
        (λ x h. only_one x (ground (arith, c.leaf_lists s x))),
  )

  left_parts : (left.objects ≡ m.objects) × (left.next ≡ m.next) × (left.vcs ≡ delete id m.vcs)
  unfolding remove_vc
  left_parts = (ground (arith, is_in), ground (arith, is_in), ground (arith, is_in))

  left-registered_eq :
      (x : ℕ) → is_registered left x ≡ (if nat_beq o x then false else is_registered m x)
  left-registered_eq x =
      ground (arith, is_in, left_parts, load-delete id (m.objects x).cluster_id m.vcs, only_one x)

  left-IsConsistent : IsConsistent t left
  left-IsConsistent = record {
    registered = λ k x h. ground (arith, left_parts, load-delete id k m.vcs, c.registered k x);
    server_lists = λ s x. ground (
      arith,
      left_parts,
      server_list s,
      left-registered_eq x,
      c.server_lists s x,
      elem-without o x (list_at s m.server_vcs),
    );
    leaf_lists = λ s x. ground (
      arith,
      left_parts,
      leaf_list s,
      left-registered_eq x,
      c.leaf_lists s x,
      elem-without o x (list_at s m.leaf_vcs),
    );
    server_distinct = λ s. ground (
      arith,
      server_list s,
      c.server_distinct s,
      IsDistinct-without o (list_at s m.server_vcs) (c.server_distinct s),
    );
    leaf_distinct = λ s. ground (
      arith,
      leaf_list s,
      c.leaf_distinct s,
      IsDistinct-without o (list_at s m.leaf_vcs) (c.leaf_distinct s),
    );
  }

-- RemoveVC of a registered cluster keeps the lists in step with the clusters, and the cluster is in
-- no list any more.
pub remove_vc-IsConsistent :
    (o : ℕ) (t : Topology) (m : VcManager)
    → IsConsistent t m
    → load (m.objects o).cluster_id m.vcs ≡ some o
    → IsConsistent t (remove_vc o t m).0
      × (load (m.objects o).cluster_id (remove_vc o t m).0.vcs ≡ none)
      × ((s : ℕ) → elem o (list_at s (remove_vc o t m).0.server_vcs) ≡ false)
      × ((l : ℕ) → elem o (list_at l (remove_vc o t m).0.leaf_vcs) ≡ false)
remove_vc-IsConsistent o t m c is_in =
    let d = left-IsConsistent o t m c is_in in
    (
      d,
      ground (
        arith,
        left_parts o t m c is_in,
        load-delete (m.objects o).cluster_id (m.objects o).cluster_id m.vcs,
      ),
      (λ s. ground (arith, d.server_lists s o, left-registered_eq o t m c is_in o)),
      (λ l. ground (arith, d.leaf_lists l o, left-registered_eq o t m c is_in o)),
    )
