-- ===== src/Topology/Errors.antt =====
-- When AddServerToLeaf (core/model/topology.go) returns an error.
use horus_controller.Topology.AddLeaf.{points_to}
use horus_controller.Topology.AddServer.{server_port, add_server_to_leaf}
use horus_controller.Topology.State.{no_leaf, server_exists, server_mismatched, Topology, TopoError}
use horus_controller.Info.{ServerInfo}
use horus_controller.GoMap.{load}
use horus_controller.Prelude.Words.{u16}
use horus_controller.Prelude.{
  arith, if◌then◌else◌, Outcome-cases, ℕ, ◌≡◌, ◌↔◌, ◌⊎◌, inl, inr, none, some, err, Option-cases,
  returned, number_key,
}

not_refused :
    (info : ServerInfo) (leaf_id l : ℕ) (t : Topology) (e : TopoError)
    → load leaf_id t.leaves ≡ some l
    → load (u16 info.id) t.servers ≡ none
    → ¬ (add_server_to_leaf info leaf_id t ≡ returned (t, err e))
unfolding add_server_to_leaf
not_refused info leaf_id l t e h k r =
    elim (Outcome-cases (server_port info (t.nodes l) t.asic_registry)) [
      | inl (p, f) ↦ ground (arith, h, k, r, f)
      | inr (inl f) ↦ ground (arith, h, k, r, f)
      | inr (inr f) ↦ ground (arith, h, k, r, f)
    ]

-- AddServerToLeaf returns an error, with the topology as it was, exactly if the leaf is not there or
-- the server is already there.
pub add_server_refused_iff :
    (info : ServerInfo) (leaf_id : ℕ) (t : Topology)
    → ((e : TopoError) × (add_server_to_leaf info leaf_id t ≡ returned (t, err e)))
      ↔ ((load leaf_id t.leaves ≡ none) ⊎ ((a : ℕ) × (load (u16 info.id) t.servers ≡ some a)))
unfolding add_server_to_leaf
add_server_refused_iff info leaf_id t = elim (Option-cases (load leaf_id t.leaves)) [
  | inl e ↦ (λ p. inl e, λ q. (no_leaf leaf_id, ground (arith, e)))
  | inr (l, e) ↦ elim (Option-cases (load (u16 info.id) t.servers)) [
    | inr (a, f) ↦ (
      λ p. inr (a, f),
      λ q. (
        if points_to (t.nodes a).parent l then server_exists info.id else server_mismatched info.id,
        ground (arith, e, f),
      ),
    )
    | inl f ↦ (
      λ p. absurd (not_refused info leaf_id l t p.0 e f p.1),
      λ q. elim q [
        | inl h ↦ absurd (ground (arith, e, h))
        | inr h ↦ absurd (ground (arith, f, h.1))
      ],
    )
  ]
]
