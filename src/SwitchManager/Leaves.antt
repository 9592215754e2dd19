-- ===== src/SwitchManager/Leaves.antt =====
-- New and failed leaves at the switch manager (ctrl_mgr/manager.go).
use horus_controller.Topology.State.{Topology}
use horus_controller.SwitchManager.{on_new_leaf, configured}
use horus_controller.Info.{AsicInfo, LeafInfo, TopoInfo}
use horus_controller.Controller.{Answer, fetch_topology}
use horus_controller.Prelude.Words.{u16}
use horus_controller.SwitchManager.Serving.{ServingAt, ctrl_at, HasOwnIds, IsServing}
use horus_controller.GoMap.{load, store, load-store}
use mathlib.Core.Path.{subst}
use horus_controller.Prelude.{
  refl, inl, inr, true, List, Bool-cases, elem, IsDistinct, returned, ℕ, ◌+◌, ◌≡◌, sym, ap, ◌∙◌,
  none, some, [], ◌∷◌, ◌++◌, arith, nat_beq, if◌then◌else◌, number_key,
}
use horus_controller.SwitchManager.{
  ByteChannels, add_leaf_ctrl, no_leaves, new_switch_manager, LeafController, SwitchManager,
  new_bare_leaf_controller,
}
use horus_controller.SwitchManager.Lookup.{ctrl_at-append, HasOwnIds-append}

-- A leaf controller that was just made is in good order.
pub added-IsServing :
    (id : ℕ) (m m' : SwitchManager)
    → IsServing m
    → ctrl_at id m.leaves ≡ none
    → m'.channels ≡ (new_bare_leaf_controller id m).0.channels
    → m'.next ≡ m.next + 2
    → m'.leaves ≡ m.leaves ++ (new_bare_leaf_controller id m).1 ∷ []
    → m'.leaf_ingress ≡ store id m.next m.leaf_ingress
    → IsServing m'
unfolding new_bare_leaf_controller
added-IsServing id m m' s absent channels_eq next_eq leaves_eq ingress_eq =
    let c : LeafController = (new_bare_leaf_controller id m).1 in
    let found : (k : ℕ)
        → ctrl_at k m'.leaves ≡ (if nat_beq id k then some c else ctrl_at k m.leaves) =
      λ k. ap (ctrl_at k) leaves_eq ∙ ctrl_at-append k m.leaves c absent in
    let at : (ch : ℕ)
        → (m'.channels ch).closed ≡ ((new_bare_leaf_controller id m).0.channels ch).closed =
      λ ch. ap (λ (f : ByteChannels). (f ch).closed) channels_eq in
    let serving : (k : ℕ) (d : LeafController) → ctrl_at k m'.leaves ≡ some d → ServingAt m' k d =
      λ k d h. elim (Bool-cases (nat_beq id k)) [
        | inl e ↦ record {
          id_eq = ground (arith, found k);
          paired = ground (arith, found k);
          even = ground (arith, found k, s.next_even);
          allocated = ground (arith, found k, next_eq);
          ingress_open = ground (arith, found k, at d.asic_ingress);
          egress_open = ground (arith, found k, at d.asic_egress);
        }
        | inr e ↦
            let old = s.serving k d (ground (arith, found k)) in
            record {
              id_eq = old.id_eq;
              paired = old.paired;
              even = old.even;
              allocated = ground (arith, old, next_eq);
              ingress_open = ground (arith, old, at d.asic_ingress);
              egress_open = ground (arith, old, at d.asic_egress);
            }
      ] in
    record {
      own_ids = subst HasOwnIds (sym leaves_eq) (HasOwnIds-append m.leaves c s.own_ids absent);
      next_even = ground (arith, s.next_even, next_eq);
      known = λ k.
          ground (arith, s.known k, found k, ingress_eq, load-store id k m.next m.leaf_ingress);
      serving = serving;
      apart = λ j k d e h i same.
          ground (arith, found j, found k, s.apart j k d e, s.serving j d, s.serving k e);
    }

-- The handler of a new leaf, whose ID no controller has and which the central controller knows.
pub on_new_leaf-IsServing :
    (info : LeafInfo) (asic : AsicInfo) (answer : Answer TopoInfo) (t : Topology)
    (m : SwitchManager)
    → IsServing m
    → info.asic ≡ some asic
    → ctrl_at (u16 info.id) m.leaves ≡ none
    → fetch_topology (u16 info.id) answer ≡ returned t
    → (m' : SwitchManager) × (on_new_leaf info answer m ≡ returned m')
      × IsServing m'
      × (ctrl_at (u16 info.id) m'.leaves ≡ some (new_bare_leaf_controller (u16 info.id) m).1)
unfolding on_new_leaf new_bare_leaf_controller add_leaf_ctrl
on_new_leaf-IsServing info asic answer t m s h absent fetched =
    let r = new_bare_leaf_controller (u16 info.id) m in
    let m' = add_leaf_ctrl r.1 r.0 in
    (
      record m' { leaves = m'.leaves ++ r.1 ∷ []; started = m'.started ++ u16 info.id ∷ [] },
      ground (arith, h, fetched),
      added-IsServing (u16 info.id) m _ s absent refl refl refl refl,
      ground (arith, ctrl_at-append (u16 info.id) m.leaves r.1 absent),
    )

-- The leaves of the configuration.
pub configured-IsServing :
    (ids : List ℕ) (m : SwitchManager)
    → IsServing m
    → IsDistinct ids
    → ((id : ℕ) → elem id ids ≡ true → ctrl_at id m.leaves ≡ none)
    → IsServing (configured ids m)
unfolding configured new_bare_leaf_controller add_leaf_ctrl
configured-IsServing [] m s own absent = s
configured-IsServing (id ∷ ids) m s own absent =
    let r = new_bare_leaf_controller id m in
    let here = absent id (ground arith) in
    configured-IsServing ids _ (added-IsServing id m _ s here refl refl refl refl) own.1
      (λ k h. ground (arith, ctrl_at-append k m.leaves r.1 here, absent k, own))

pub new_switch_manager-IsServing :
    (ids : List ℕ) → IsDistinct ids → IsServing (new_switch_manager ids)
unfolding new_switch_manager load
new_switch_manager-IsServing ids own =
    configured-IsServing ids no_leaves
      (record {
        own_ids = tt;
        next_even = refl;
        known = λ k. refl;
        serving = λ k c h. absurd (ground arith);
        apart = λ j k c d h i e. absurd (ground arith);
      })
      own (λ id h. refl)
