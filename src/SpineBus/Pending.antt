-- ===== src/SpineBus/Pending.antt =====
-- The pending leaves of the spine bus (ctrl_mgr/spineBus.go).
use horus_controller.GoMap.{load, store, delete, load-store, load-delete}
use horus_controller.Prelude.Words.{u16}
use horus_controller.Prelude.{
  ℕ, suc, ◌+◌, ◌<◌, ◌≡◌, refl, true, ◌&&◌, some, List, [], ◌∷◌, ◌++◌, arith, nat_beq, if◌then◌else◌,
  returned, number_key,
}
use horus_controller.Info.{LeafInfo, ServerInfo}
use horus_controller.Topology.State.{Topology}
use horus_controller.SpineBus.{SpineBus, LeafChange, on_new_leaf, on_new_server}

-- How often the data plane was told that the leaf was added.
abbrev pub additions : ℕ → List LeafChange → ℕ
additions id [] = 0
additions id (c ∷ cs) =
    let rest = additions id cs in if c.added && nat_beq c.leaf_id id then suc rest else rest

additions-append :
    (id : ℕ) (cs : List LeafChange) (c : LeafChange)
    → additions id (cs ++ c ∷ [])
      ≡ additions id cs + (if c.added && nat_beq c.leaf_id id then 1 else 0)
additions-append id [] c = ground arith
additions-append id (x ∷ cs) c = ground (arith, additions-append id cs c)

-- A leaf that comes with no servers is announced to the data plane exactly once: not when it comes,
-- and once its first server comes, with the index that it has then; a further server of the leaf
-- announces nothing.
pub empty_leaf_once :
    (info : LeafInfo) (first second : ServerInfo) (a b c : ℕ) (bus : SpineBus) (t' : Topology)
    → info.id < 65536
    → load info.id bus.topology.leaves ≡ some a
    → (bus.topology.nodes a).children ≡ []
    → load (u16 first.id) t'.servers ≡ some b
    → (t'.nodes b).parent ≡ some a
    → load (u16 second.id) t'.servers ≡ some c
    → (t'.nodes c).parent ≡ some a
    → (t'.nodes a).id ≡ info.id
    → (bus1 bus2 bus3 : SpineBus) × (on_new_leaf info bus ≡ returned bus1)
      × (bus1.leaf_changes ≡ bus.leaf_changes)
      × (on_new_server first (record bus1 { topology = t' }) ≡ returned bus2)
      × (bus2.leaf_changes
          ≡ bus.leaf_changes
            ++ record { leaf_id = info.id; index = (t'.nodes a).index; added = true } ∷ [])
      × (additions info.id bus2.leaf_changes ≡ additions info.id bus.leaf_changes + 1)
      × (on_new_server second bus2 ≡ returned bus3)
      × (bus3 ≡ bus2)
unfolding on_new_leaf on_new_server
empty_leaf_once info first second a b c bus t' small at_leaf empty at_first up at_second up' same =
    let id : u16 info.id ≡ info.id = omega arith in
    let change : LeafChange = record {
      leaf_id = info.id;
      index = (t'.nodes a).index;
      added = true;
    } in
    let bus1 : SpineBus = record bus { pending_leaves = store info.id 1 bus.pending_leaves } in
    let bus2 : SpineBus = record bus {
      topology = t';
      leaf_changes = bus.leaf_changes ++ change ∷ [];
      pending_leaves = delete info.id (store info.id 1 bus.pending_leaves);
    } in
    let stored = load-store info.id info.id 1 bus.pending_leaves in
    let gone = load-delete info.id info.id (store info.id 1 bus.pending_leaves) in
    (
      bus1,
      bus2,
      bus2,
      ground (arith, id),
      refl,
      ground (arith, stored, same),
      refl,
      ground (arith, additions-append info.id bus.leaf_changes change),
      ground (arith, gone, same),
      refl,
    )
