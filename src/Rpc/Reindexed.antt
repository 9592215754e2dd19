-- ===== src/Rpc/Reindexed.antt =====
-- FailLeaf of a spine controller (core/net/topologyServer_spine.go): whom it tells.
use mathlib.Core.List.{append-nil}
use horus_controller.Rpc.Spine
use horus_controller.Rpc.Spine.{fail_leaf}
use horus_controller.Prelude.{
  sym, ℕ, ◌≡◌, refl, some, List, [], ◌∷◌, ◌++◌, arith, returned, after, number_key,
}
use horus_controller.Prelude.Words.{u16}
use horus_controller.GoMap.{load, delete}
use horus_controller.Info.{LeafInfo, ok_status}
use horus_controller.Messages.{LeafUpdatedMessage}
use horus_controller.Topology.Valid.{IsValid, parent_at}
use horus_controller.Topology.RemoveLeaf.Effect.{LeafRemoved, remove_leaf_lem}
use horus_controller.VcManager.{VcManager, list_at}
use horus_controller.VcManager.Answers.{detach_leaf_unlisted}
use horus_controller.Rpc.State.{RpcServer}

-- The message about the leaves with new indices, where there are any.
abbrev pub about : List ℕ → List LeafUpdatedMessage
about [] = []
about (x ∷ xs) = record { leaves = x ∷ xs } ∷ []

with_message :
    (xs : List ℕ) (ms : List LeafUpdatedMessage)
    → (elim xs [ [] ↦ ms | y ∷ ys ↦ ms ++ record { leaves = y ∷ ys } ∷ [] ]) ≡ ms ++ about xs
with_message [] ms = sym (append-nil ms)
with_message (x ∷ xs) ms = refl

-- FailLeaf at a spine, of a leaf of a well-formed topology that is in no cluster, answers OK: the leaf
-- and its servers are out of the topology, one message names exactly the leaves behind it, whose
-- indices are one lower now (no message where there are none), the failed leaf is announced with the
-- index that it had, and nothing else is sent.
pub fail_leaf_reindexed :
    (info : LeafInfo) (a : ℕ) (s : RpcServer)
    → IsValid s.topology
    → load (u16 info.id) s.topology.leaves ≡ some a
    → list_at (u16 info.id) s.vcm.leaf_vcs ≡ []
    → let t = s.topology in
      let c = s.out in
      let p = parent_at (t.nodes a) in
      (s' : RpcServer) × (fail_leaf info s ≡ returned (s', ok_status))
      × LeafRemoved (u16 info.id) a p t s'.topology
      × (s'.out ≡ record c {
        updated_leaves = c.updated_leaves ++ about (after a (t.nodes p).children);
        failed_leaves =
            c.failed_leaves
            ++ record { leaf = record info { index = (t.nodes a).index }; dsts = a ∷ [] } ∷ [];
      })
unfolding fail_leaf
fail_leaf_reindexed info a s v h unlisted =
    let t = s.topology in
    let lid = u16 info.id in
    let behind = after a (t.nodes (parent_at (t.nodes a))).children in
    let (t', ran, d) = remove_leaf_lem lid a t v h in
    let freed = detach_leaf_unlisted lid t s.vcm unlisted in
    let told = record info { index = (t.nodes a).index } in
    let m : VcManager = (let u = s.vcm in record u { leaf_vcs = delete lid u.leaf_vcs }) in
    (
      record s { topology = t'; vcm = m; out = Spine.announce_failed_leaf told behind a s.out },
      ground (arith, ran, freed),
      d,
      unfold Spine.announce_failed_leaf in ground (arith, with_message behind s.out.updated_leaves),
    )
