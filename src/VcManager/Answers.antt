-- ===== src/VcManager/Answers.antt =====
-- What DetachServer and DetachLeaf (core/vcManager.go) answer.
use horus_controller.VcManager.{VcManager, list_at, detach_server, detach_leaf_loop, detach_leaf}
use horus_controller.GoMap.{load, delete}
use horus_controller.Prelude.{
  ℕ, ◌≡◌, inl, inr, Bool, true, false, [], arith, Option-cases, Outcome-cases, returned, number_key,
}
use horus_controller.Topology.State.{Topology}

-- DetachLeaf answers true whenever it returns, also where no cluster had the leaf.
pub detach_leaf_answer :
    (lid : ℕ) (t : Topology) (m m' : VcManager) (b : Bool)
    → detach_leaf lid t m ≡ returned (m', b)
    → b ≡ true
unfolding detach_leaf detach_leaf_loop
detach_leaf_answer lid t m m' b h = elim (Option-cases (load lid m.leaf_vcs)) [
  | inl e ↦ ground arith
  | inr (os, e) ↦ elim (Outcome-cases (detach_leaf_loop lid t os true m)) [
    | inl (r, ran) ↦ ground arith
    | inr bad ↦ absurd (ground arith)
  ]
]

-- DetachServer of a server that is in no cluster answers false and changes no cluster.
pub detach_server_unlisted :
    (sid : ℕ) (t : Topology) (m : VcManager)
    → list_at sid m.server_vcs ≡ []
    → detach_server sid t m ≡ returned (record m { server_vcs = delete sid m.server_vcs }, false)
unfolding detach_server
detach_server_unlisted sid t m h = elim (Option-cases (load sid m.server_vcs)) [
  | inl e ↦ ground arith
  | inr (os, e) ↦ ground arith
]

-- DetachLeaf of a leaf that is in no cluster answers true and changes no cluster.
pub detach_leaf_unlisted :
    (lid : ℕ) (t : Topology) (m : VcManager)
    → list_at lid m.leaf_vcs ≡ []
    → detach_leaf lid t m ≡ returned (record m { leaf_vcs = delete lid m.leaf_vcs }, true)
unfolding detach_leaf
detach_leaf_unlisted lid t m h = elim (Option-cases (load lid m.leaf_vcs)) [
  | inl e ↦ ground arith
  | inr (os, e) ↦ ground arith
]
