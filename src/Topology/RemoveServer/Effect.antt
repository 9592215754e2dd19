-- ===== src/Topology/RemoveServer/Effect.antt =====
-- What RemoveServer (core/model/topology.go) does to a well-formed topology.
use horus_controller.Node.{ports_of}
use horus_controller.GoMap.{load}
use horus_controller.Prelude.{
  ℕ, ◌≡◌, refl, inl, inr, true, false, none, some, List, [], arith, nat_beq, if◌then◌else◌,
  Bool-cases, elem, IsDistinct, without, index_of, after, remove_at-index_of, returned, number_key,
}
use horus_controller.Topology.State.{Topology}
use horus_controller.Topology.Valid.{IsValid, parent_at}
use horus_controller.Topology.RemoveServer.{Renumbering, renumber, detach_child, remove_server}
use horus_controller.Topology.RemoveServer.Loop.{
  Names, renumber-frame, renumber-removed_idx, renumber-updated, renumber_outside,
}

-- The children of the leaf of a server.
abbrev pub siblings : ℕ → Topology → List ℕ
siblings a t = (t.nodes (parent_at (t.nodes a))).children

-- The variables of the loop when it starts and when it ends.
abbrev pub loop_start : Topology → Renumbering
loop_start t = record { nodes = t.nodes; worker_id = 0; removed_idx = none; updated = [] }

abbrev pub loop_end : ℕ → ℕ → Topology → Renumbering
loop_end sid a t = renumber sid 0 (siblings a t) (loop_start t)

-- The topology after the removal of the server `a`.
unfoldable pub removed : ℕ → ℕ → Topology → Topology
unfolding detach_child
removed sid a t =
    detach_child sid (parent_at (t.nodes a)) (index_of a (siblings a t)) (loop_end sid a t) t

module _ (sid a : ℕ) (t : Topology) (v : IsValid t) (at_server : load sid t.servers ≡ some a) where
  pub siblings-IsDistinct : IsDistinct (siblings a t)
  siblings-IsDistinct = (v.leaves_ok _ _ (v.servers_ok sid a at_server).known).distinct

  pub siblings-Names : Names t.nodes sid a (siblings a t)
  siblings-Names c m =
      let s = v.servers_ok sid a at_server in
      let k = v.leaf_children _ _ c s.known m in ground (arith, s, k, at_server)

  pub not_own_child : elem (parent_at (t.nodes a)) (siblings a t) ≡ false
  not_own_child = elim (Bool-cases (elem (parent_at (t.nodes a)) (siblings a t))) [
    | inr e ↦ e
    | inl e ↦
        let l = v.leaves_ok _ _ (v.servers_ok sid a at_server).known in
        let k = v.leaf_children _ _ _ (v.servers_ok sid a at_server).known e in
        cc (l.type_eq, (v.servers_ok _ _ k.known).type_eq)
  ]

  -- It returns, finds the server, and reports the servers behind it.
  pub remove_server-removed :
      remove_server sid t ≡ returned (removed sid a t, true, after a (siblings a t))
  unfolding remove_server removed
  remove_server-removed =
      let s = v.servers_ok sid a at_server in
      ground (
        arith,
        s,
        renumber-removed_idx sid 0 a (siblings a t) (loop_start t) siblings-IsDistinct
            siblings-Names,
        renumber-updated sid 0 a (siblings a t) (loop_start t) siblings-IsDistinct s.listed
            siblings-Names refl,
      )

  pub removed-children :
      (b : ℕ)
      → ((removed sid a t).nodes b).children ≡ (
          if nat_beq (parent_at (t.nodes a)) b
          then without a (t.nodes b).children
          else (t.nodes b).children)
  unfolding removed
  removed-children b =
      let s = v.servers_ok sid a at_server in
      ground (
        arith,
        s,
        renumber-frame sid 0 b (siblings a t) (loop_start t),
        remove_at-index_of a (siblings a t) siblings-IsDistinct s.listed,
      )

  -- Names, parents, ports and indices stay.
  pub removed-frame :
      (b : ℕ)
      → let n = (removed sid a t).nodes b in
        (n.id ≡ (t.nodes b).id)
        × (n.node_type ≡ (t.nodes b).node_type)
        × (n.parent ≡ (t.nodes b).parent)
        × (n.index ≡ (t.nodes b).index)
        × (n.address ≡ (t.nodes b).address)
        × (n.asic ≡ (t.nodes b).asic)
  unfolding removed
  removed-frame b = ground (arith, renumber-frame sid 0 b (siblings a t) (loop_start t))

  pub removed-ports_of : (b : ℕ) → ports_of ((removed sid a t).nodes b) ≡ ports_of (t.nodes b)
  unfolding removed
  removed-ports_of b = ground (arith, renumber-frame sid 0 b (siblings a t) (loop_start t))

  -- Nodes elsewhere in the tree do not change at all.
  pub removed_elsewhere :
      (b : ℕ)
      → nat_beq (parent_at (t.nodes a)) b ≡ false
      → elem b (siblings a t) ≡ false
      → (removed sid a t).nodes b ≡ t.nodes b
  unfolding removed
  removed_elsewhere b h m = ground (arith, renumber_outside sid 0 b (siblings a t) (loop_start t) m)
