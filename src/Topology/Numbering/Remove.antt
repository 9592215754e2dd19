-- ===== src/Topology/Numbering/Remove.antt =====
-- RemoveServer (core/model/topology.go) renumbers the workers of the leaf from 0 on.
use horus_controller.Topology.RemoveServer.{remove_server}
use horus_controller.GoMap.{load-delete, load}
use horus_controller.Prelude.Words.{sub16}
use horus_controller.Prelude.{
  sym, none, List, after, returned, ℕ, ◌≡◌, refl, true, some, arith, nat_beq, if◌then◌else◌, elem,
  without, elem-without, number_key,
}
use horus_controller.Topology.State.{Topology}
use horus_controller.Topology.Valid.{IsValid, parent_at}
use horus_controller.Topology.RemoveServer.Layout.{
  IsLaidOut, end_of, renumber-IsLaidOut, renumber-worker_id,
}
use horus_controller.Topology.RemoveServer.Effect.{
  remove_server-removed, removed-children, removed, siblings, loop_start, loop_end,
  siblings-IsDistinct, siblings-Names, not_own_child,
}
use horus_controller.Topology.Numbering.{
  IsNumbered, end_of-congr, laid_out-counts, counts_of-lt, counts_of, IsLaidOut-congr,
}

module _ (sid a : ℕ) (t : Topology) (v : IsValid t) (at_server : load sid t.servers ≡ some a) where
  removed-at_kept :
      (c : ℕ)
      → elem c (without a (siblings a t)) ≡ true
      → (loop_end sid a t).nodes c ≡ (removed sid a t).nodes c
  unfolding removed
  removed-at_kept c m =
      ground (arith, not_own_child sid a t v at_server, elem-without a c (siblings a t))

  -- The ranges are consecutive from 0 on, each as long as it was.
  pub removed-IsLaidOut :
      IsLaidOut (removed sid a t).nodes (counts_of t.nodes) 0 (without a (siblings a t))
  removed-IsLaidOut =
      IsLaidOut-congr (loop_end sid a t).nodes (removed sid a t).nodes (counts_of t.nodes)
        (counts_of t.nodes) 0 (without a (siblings a t)) (λ c m. (removed-at_kept c m, refl))
        (renumber-IsLaidOut sid 0 a (counts_of t.nodes) (siblings a t) (loop_start t)
          (siblings-IsDistinct sid a t v at_server) (siblings-Names sid a t v at_server)
          (λ c m. refl))

  pub removed-last_worker_id :
      let total = end_of (counts_of t.nodes) 0 (without a (siblings a t)) in
      ((removed sid a t).nodes (parent_at (t.nodes a))).last_worker_id
      ≡ (if nat_beq total 0 then 0 else sub16 total 1)
  unfolding removed
  removed-last_worker_id = ground (
    arith,
    renumber-worker_id sid 0 a (counts_of t.nodes) (siblings a t) (loop_start t)
        (siblings-IsDistinct sid a t v at_server) (siblings-Names sid a t v at_server)
        (λ c m. refl),
  )

  removed-counts :
      (c : ℕ)
      → elem c (without a (siblings a t)) ≡ true
      → counts_of t.nodes c ≡ counts_of (removed sid a t).nodes c
  removed-counts c m = sym (
      laid_out-counts (removed sid a t).nodes (counts_of t.nodes) 0 c (without a (siblings a t))
        (counts_of-lt t.nodes) (omega arith) removed-IsLaidOut m)

  removed-kids :
      ((removed sid a t).nodes (parent_at (t.nodes a))).children ≡ without a (siblings a t)
  removed-kids = ground (arith, removed-children sid a t v at_server (parent_at (t.nodes a)))

  pub removed-IsNumbered : IsNumbered (removed sid a t).nodes (parent_at (t.nodes a))
  removed-IsNumbered = record {
    laid_out = rw removed-kids (
        IsLaidOut-congr (removed sid a t).nodes (removed sid a t).nodes (counts_of t.nodes)
          (counts_of (removed sid a t).nodes) 0 (without a (siblings a t))
          (λ c m. (refl, removed-counts c m)) removed-IsLaidOut);
    last_eq = rw removed-kids (
        ground (
          arith,
          removed-last_worker_id,
          end_of-congr (counts_of t.nodes) (counts_of (removed sid a t).nodes) 0
              (without a (siblings a t)) removed-counts,
        ));
  }

-- What RemoveServer promises of the leaf `l` of the server `a`.
pub record ServerRemoved (sid a l : ℕ) (t t' : Topology) (updated : List ℕ) : Type 0 where
  pub gone : load sid t'.servers ≡ none
  pub children_eq : (t'.nodes l).children ≡ without a (t.nodes l).children
  pub numbered : IsNumbered t'.nodes l
  pub sizes_kept :
      (c : ℕ) → elem c (t'.nodes l).children ≡ true → counts_of t'.nodes c ≡ counts_of t.nodes c
  pub updated_eq : updated ≡ after a (t.nodes l).children

-- RemoveServer of a server of a well-formed topology returns: the server is gone from the map and
-- from its leaf, whose other servers keep their sizes and have consecutive worker IDs from 0 on,
-- whatever their numbering was before, and the servers behind it are reported.
pub remove_server_lem :
    (sid a : ℕ) (t : Topology)
    → IsValid t
    → load sid t.servers ≡ some a
    → (t' : Topology) × (updated : List ℕ) × (remove_server sid t ≡ returned (t', true, updated))
      × ServerRemoved sid a (parent_at (t.nodes a)) t t' updated
remove_server_lem sid a t v h = (
  removed sid a t,
  after a (siblings a t),
  remove_server-removed sid a t v h,
  record {
    gone = unfold removed in ground (arith, load-delete sid sid t.servers);
    children_eq = removed-kids sid a t v h;
    numbered = removed-IsNumbered sid a t v h;
    sizes_kept = λ c m. sym (removed-counts sid a t v h c (rw (removed-kids sid a t v h) at m));
    updated_eq = refl;
  },
)
