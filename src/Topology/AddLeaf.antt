-- ===== src/Topology/AddLeaf.antt =====
-- core/model/topology.go: AddLeafToSpine.
use text.Mathlib.Text.{◌==◌ as str_eq}
use horus_controller.Prelude.{
  number_key, ◌>>=◌, ℕ, ◌+◌, Option, none, some, Bool, ◌&&◌, [], ◌∷◌, ◌++◌, Outcome, returned,
  deref, Result, ok, err, nat_beq, if◌then◌else◌, any, length,
}
use horus_controller.Prelude.Words.{u16}
use horus_controller.GoMap.{store}
use horus_controller.Info.{LeafInfo}
use horus_controller.Node.{Nodes, leaf, spine, new_leaf, write}
use horus_controller.Asic.{PortRef, AsicRegistry}
use horus_controller.Topology.State.{
  Topology, TopoError, no_spine, leaf_exists, leaf_mismatched, address_used, find_port, or_fatal,
  get_node,
}

-- Is a pointer the one given? (`leaf.Parent == spine`)
abbrev pub points_to : Option ℕ → ℕ → Bool
points_to none a = Bool.false
points_to (some b) a = nat_beq b a

-- Does a leaf of the spine have the manager and the address of the new one?
abbrev pub same_address : Nodes → LeafInfo → ℕ → Bool
same_address nodes info other =
    str_eq (nodes other).mgmt_address info.mgmt_address && str_eq (nodes other).address info.address

-- The part below "All checks passed": a new node at `next`, the last child of the spine.
unfoldable pub attach_leaf : LeafInfo → PortRef → PortRef → ℕ → Topology → Topology
unfolding new_leaf
attach_leaf info ds us parent t =
    let id = u16 info.id in
    let fresh = new_leaf info.address info.mgmt_address id ds us in
    let siblings = (t.nodes parent).children in
    record t {
      nodes =
          write t.next
            (record fresh {
              parent = some parent;
              index = u16 (length siblings);
              first_worker_id = 0;
              last_worker_id = 0;
            })
            (write parent (record (t.nodes parent) { children = siblings ++ t.next ∷ [] }) t.nodes);
      next = t.next + 1;
      leaves = store id t.next t.leaves;
    }

-- The ports of the new leaf; a port or an ASIC that is not there ends the process.
unfoldable pub leaf_ports : LeafInfo → AsicRegistry → Outcome (PortRef × PortRef)
leaf_ports info registry = do
  asic ← deref info.asic
  ds_info ← deref info.ds_port
  us_info ← deref info.us_port
  ds ← or_fatal (find_port asic.id ds_info.id registry)
  us ← or_fatal (find_port asic.id us_info.id registry)
  returned (ds, us)

unfoldable pub add_leaf_to_spine : LeafInfo → Topology → Outcome (Topology × Result TopoError ℕ)
unfolding attach_leaf leaf_ports
add_leaf_to_spine info t = do
  found_spine ← get_node (u16 info.spine_id) spine t
  found_leaf ← get_node (u16 info.id) leaf t
  elim found_spine [
    | none ↦ returned (t, err (no_spine (u16 info.spine_id)))
    | some parent ↦ elim found_leaf [
      | some old ↦ returned (
        t,
        err (
            if points_to (t.nodes old).parent parent
            then leaf_exists (u16 info.id)
            else leaf_mismatched (u16 info.id)),
      )
      | none ↦
          if any (same_address t.nodes info) (t.nodes parent).children
          then returned (t, err (address_used info.address info.mgmt_address))
          else do
            ports ← leaf_ports info t.asic_registry
            returned (attach_leaf info ports.0 ports.1 parent t, ok t.next)
    ]
  ]
