-- ===== src/Switch/SpineCp/Added.antt =====
-- AddLeafToSpine (core/model/topology.go) and then OnLeafChange (ctrl_mgr/cp.go) at the switch of the
-- spine, in the first version of the data plane.
use mathlib.Core.Path.{subst}
use horus_controller.Switch.SpineCp.Entries.{leaf_port_entry, leaf_port_table}
use horus_controller.Switch.SpineCp.Indexed.{HasSlots, index_writes_lem, IsTabled}
use horus_controller.Switch.SpineCp.{spine_leaf_change_v1}
use horus_controller.Switch.Spine.{exact, spine_leaf_change_all}
use horus_controller.Switch.Leaf.AfterRemoval.{dev_port-congr}
use horus_controller.Switch.Workers.{dev_port}
use horus_controller.Switch.Writes.{run_writes_lem}
use horus_controller.Switch.{bytes_data, SwitchClient, upsert}
use horus_controller.Topology.AddLeaf.{add_leaf_to_spine, attach_leaf, leaf_ports, same_address}
use horus_controller.Topology.Cases.{add_leaf_attached}
use horus_controller.Topology.Indices.{add_leaf_to_spine-IsIndexed, IsIndexed}
use horus_controller.Topology.Valid.AttachLeaf.{add_leaf_to_spine-IsValid}
use horus_controller.Topology.Valid.{IsValid}
use horus_controller.Topology.State.{Topology}
use horus_controller.Node.{new_leaf}
use horus_controller.Info.{LeafInfo}
use horus_controller.Asic.{PortRef}
use horus_controller.GoMap.{load, load-store}
use horus_controller.Prelude.Words.{u16}
use horus_controller.Prelude.{
  ℕ, ◌≤◌, ◌≡◌, refl, ap, ◌∙◌, arith, true, false, some, none, [], ◌∷◌, ◌++◌, any, elem, length, ok,
  returned, number_key, text_key,
}

-- What the topology has of the new leaf.
record NewLeaf (info : LeafInfo) (p : ℕ) (ds : PortRef) (t t' : Topology) : Type 0 where
  listed : load (u16 info.id) t'.leaves ≡ some t.next
  ds_port_eq : (t'.nodes t.next).ds_port ≡ some ds
  registry_eq : t'.asic_registry ≡ t.asic_registry
  spine_kept : load (u16 info.spine_id) t'.spines ≡ load (u16 info.spine_id) t.spines

attach_leaf-NewLeaf :
    (info : LeafInfo) (p : ℕ) (ds us : PortRef) (t : Topology)
    → NewLeaf info p ds t (attach_leaf info ds us p t)
unfolding attach_leaf new_leaf
attach_leaf-NewLeaf info p ds us t = record {
  listed = ground (arith, load-store (u16 info.id) (u16 info.id) t.next t.leaves);
  ds_port_eq = ground arith;
  registry_eq = refl;
  spine_kept = refl;
}

-- AddLeafToSpine of a new leaf with its own address and known ports, on a well-formed topology whose
-- leaves have their positions as indices, and then OnLeafChange of version 1 return, for at most 2^16
-- leaves and registers of queue lengths with a cell for the last of them. The switch then numbers the
-- leaves of the spine by their positions, both ways, and sends packets for the new leaf to its
-- downstream port.
pub leaf_added_tables :
    (c : SwitchClient) (info : LeafInfo) (p port : ℕ) (ports : PortRef × PortRef) (t : Topology)
    (s : c.State)
    → IsValid t
    → load (u16 info.spine_id) t.spines ≡ some p
    → load (u16 info.id) t.leaves ≡ none
    → any (same_address t.nodes info) (t.nodes p).children ≡ false
    → leaf_ports info t.asic_registry ≡ returned ports
    → dev_port t (some ports.0) ≡ returned port
    → IsIndexed t.nodes 0 (t.nodes p).children
    → length ((t.nodes p).children ++ t.next ∷ []) ≤ 65536
    → HasSlots c (length ((t.nodes p).children ++ t.next ∷ []))
    → (t' : Topology) × (add_leaf_to_spine info t ≡ returned (t', ok t.next))
      × (s' : c.State) × (spine_leaf_change_v1 c t' p info.id true s ≡ returned s')
      × IsTabled c t'.nodes (t'.nodes p).children s'
      × (c.read_table_entry leaf_port_table (exact "hdr.horus.dst_id" info.id ∷ []) s'
          ≡ some (leaf_port_entry info.id port))
unfolding spine_leaf_change_v1 spine_leaf_change_all
leaf_added_tables c info p port ports t s v h absent free found at_port x small slots =
    let (t', ran, indexed, children) =
      add_leaf_to_spine-IsIndexed info p ports t v h absent free found x in
    let same : attach_leaf info ports.0 ports.1 p t ≡ t' =
      ground (arith, ran, add_leaf_attached info p ports t h absent free found) in
    let d = subst (NewLeaf info p ports.0 t) same (attach_leaf-NewLeaf info p ports.0 ports.1 t) in
    let v' = add_leaf_to_spine-IsValid info t t' (ok t.next) v ran in
    let inside : (b : ℕ)
        → elem b (t'.nodes p).children ≡ true
        → load (t'.nodes b).id t'.leaves ≡ some b =
      λ b m. (v'.spine_children (u16 info.spine_id) p b (d.spine_kept ∙ h) m).known in
    let at_port' : dev_port t' (t'.nodes t.next).ds_port ≡ returned port =
      dev_port-congr t t' (t'.nodes t.next).ds_port d.registry_eq
      ∙ ap (dev_port t) d.ds_port_eq
      ∙ at_port in
    let (s1, ran1, w1) =
      run_writes_lem c
        (upsert leaf_port_table (exact "hdr.horus.dst_id" info.id ∷ [])
            "SpineIngress.act_forward_horus" (bytes_data "port" port ∷ [])
          ∷ [])
        s (tt, tt) in
    let (s2, ran2, tabled, kept) =
      index_writes_lem c t'.nodes (t'.nodes p).children s1 indexed (rw children small)
        (λ b b' m m' e. ground (arith, inside b m, inside b' m', e)) (rw children slots) in
    (
      t',
      ran,
      s2,
      ground (arith, d.listed, at_port', ran1, ran2),
      tabled,
      kept (exact "hdr.horus.dst_id" info.id ∷ [])
          ∙ w1.entries leaf_port_table (exact "hdr.horus.dst_id" info.id ∷ [])
          ∙ ground arith,
    )
