-- ===== src/Endpoint/Spine/Managers.antt =====
-- The switch managers that a spine controller calls (core/net/rpc_endpoint_spine.go): their pools are made
-- once, in Start.
use horus_controller.Info.{LeafInfo}
use horus_controller.Endpoint.Central.{vc_call}
use horus_controller.Topology.State.{Topology}
use horus_controller.Rpc.State.{◌◂◌, Channels}
use horus_controller.Messages.{LeafAddedMessage, VcUpdatedMessage}
use horus_controller.Node.{Nodes}
use horus_controller.GoMap.{GoMap, load, values, load-store}
use horus_controller.Prelude.{
  inl, inr, Option-cases, if◌then◌else◌, ap, ℕ, String, ◌≡◌, refl, ◌∙◌, Bool, false, Option, none,
  some, List, [], ◌∷◌, arith, any, number_key, text_key,
}
use horus_controller.Endpoint.Spine.{
  to_leaf, to_manager, send_vc, first, send_to_manager, send_leaf_failed, send_server_failed,
  send_leaf_added, send_server_added, vc_for_leaf, broadcast_add_vc_to_leaves, SpineEndpoint,
  SpineEvent, ensure_pool, create_mgr_pools, create_leaf_pools, process, send_on, send_to_leaf,
  send_leaf_updates, send_vc_to_leaves,
}
use horus_controller.Endpoint.{call_on, Network, Call}
use horus_controller.Endpoint.Spine.{first}
use text.Mathlib.TextEquality.{eq_iff}
use text.Mathlib.Text.{◌==◌ as str_eq}

-- The part of Start before the goroutines.
unfoldable pub start : Topology → Channels → SpineEndpoint
start t out = record {
  mg_pools = create_mgr_pools (values t.leaves) t.nodes [];
  leaf_pools = create_leaf_pools (values t.leaves) t.nodes [];
  sent = [];
  out = out;
}

-- Rounds of the loop, each with the topology at that time.
unfoldable pub run : Network → List (Topology × SpineEvent) → SpineEndpoint → SpineEndpoint
run net [] e = e
run net ((t, event) ∷ rest) e = run net rest (process net t event e)

-- Does a leaf of the list have the manager?
abbrev pub has_manager : String → Nodes → List ℕ → Bool
has_manager address nodes = any (λ a. str_eq (nodes a).mgmt_address address)

-- Every pool dials the address that is its key.
abbrev pub IsKeyed : GoMap String String → Type 0
IsKeyed pools = (k v : String) → load k pools ≡ some v → v ≡ k

ensure_pool-IsKeyed :
    (address : String) (pools : GoMap String String)
    → IsKeyed pools
    → IsKeyed (ensure_pool address pools)
ensure_pool-IsKeyed address pools keyed k v =
    ground (arith, keyed k v, load-store address k address pools, eq_iff address k)

-- There is a pool exactly for the managers of the leaves.
pub load-create_mgr_pools :
    (address : String) (xs : List ℕ) (nodes : Nodes) (pools : GoMap String String)
    → IsKeyed pools
    → load address (create_mgr_pools xs nodes pools)
      ≡ (if has_manager address nodes xs then some address else load address pools)
unfolding create_mgr_pools
load-create_mgr_pools address [] nodes pools keyed = refl
load-create_mgr_pools address (a ∷ xs) nodes pools keyed =
    let own = (nodes a).mgmt_address in
    let rest =
      load-create_mgr_pools address xs nodes (ensure_pool own pools)
        (ensure_pool-IsKeyed own pools keyed) in
    elim (Option-cases (load own pools)) [
      | inl e ↦ ground (arith, rest, eq_iff own address, load-store own address own pools)
      | inr (old, e) ↦ ground (arith, rest, keyed own old e, eq_iff own address)
    ]

module _ (net : Network) (t : Topology) where
  pub send_on-mg_pools :
      (address : Option String) (call : Call) (e : SpineEndpoint)
      → (send_on net t address call e).0.mg_pools ≡ e.mg_pools
  unfolding send_on
  send_on-mg_pools none call e = refl
  send_on-mg_pools (some address) call e = refl

  pub send_to_leaf-mg_pools :
      (call : Call) (a : ℕ) (e : SpineEndpoint)
      → (send_to_leaf net t call a e).0.mg_pools ≡ e.mg_pools
  unfolding send_to_leaf
  send_to_leaf-mg_pools call a e = send_on-mg_pools _ call e

  pub updates-mg_pools :
      (xs : List ℕ) (e : SpineEndpoint) → (send_leaf_updates net t xs e).mg_pools ≡ e.mg_pools
  unfolding send_leaf_updates
  updates-mg_pools [] e = refl
  updates-mg_pools (a ∷ xs) e = updates-mg_pools xs _ ∙ send_to_leaf-mg_pools _ a e

  pub vcs-mg_pools :
      (m : VcUpdatedMessage) (xs : List ℕ) (e : SpineEndpoint)
      → (send_vc_to_leaves net t m xs e).0.mg_pools ≡ e.mg_pools
  unfolding send_vc_to_leaves
  vcs-mg_pools m [] e = refl
  vcs-mg_pools m (a ∷ xs) e =
      let call = vc_call m.update_type (vc_for_leaf net t m.vc_info a) in
      ground
        (arith, send_to_leaf-mg_pools call a e, vcs-mg_pools m xs (send_to_leaf net t call a e).0)

  to_leaf-mg_pools :
      (dst : Option ℕ) (call : Call) (e : SpineEndpoint)
      → (to_leaf net t dst call e).0.mg_pools ≡ e.mg_pools
  unfolding to_leaf
  to_leaf-mg_pools none call e = refl
  to_leaf-mg_pools (some a) call e = send_to_leaf-mg_pools call a e

  to_manager-mg_pools :
      (dst : Option ℕ) (call : Call) (e : SpineEndpoint)
      → (to_manager net t dst call e).0.mg_pools ≡ e.mg_pools
  unfolding to_manager send_to_manager
  to_manager-mg_pools none call e = refl
  to_manager-mg_pools (some a) call e = send_on-mg_pools _ call e

  send_vc-mg_pools :
      (m : VcUpdatedMessage) (xs : List ℕ) (e : SpineEndpoint)
      → (send_vc net t m xs e).0.mg_pools ≡ e.mg_pools
  unfolding send_vc
  send_vc-mg_pools m [] e = refl
  send_vc-mg_pools m (a ∷ xs) e = vcs-mg_pools m (a ∷ xs) e

  -- No round of the loop makes or drops a pool of a manager.
  pub process-mg_pools :
      (event : SpineEvent) (e : SpineEndpoint) → (process net t event e).mg_pools ≡ e.mg_pools
  unfolding process send_leaf_failed send_server_failed send_leaf_added send_server_added
      broadcast_add_vc_to_leaves
  process-mg_pools (SpineEvent.updated_leaves m) e = updates-mg_pools m.leaves e
  process-mg_pools (SpineEvent.failed_leaf m) e = to_manager-mg_pools (first m.dsts) _ e
  process-mg_pools (SpineEvent.failed_server m) e = to_leaf-mg_pools (first m.dsts) _ e
  process-mg_pools (SpineEvent.new_leaf m) e = to_manager-mg_pools m.dst _ _
  process-mg_pools (SpineEvent.new_server m) e = to_leaf-mg_pools m.dst _ e
  process-mg_pools (SpineEvent.new_vc m) e = send_vc-mg_pools m m.dsts e

pub run-mg_pools :
    (net : Network) (events : List (Topology × SpineEvent)) (e : SpineEndpoint)
    → (run net events e).mg_pools ≡ e.mg_pools
unfolding run
run-mg_pools net [] e = refl
run-mg_pools net ((t, event) ∷ rest) e =
    run-mg_pools net rest (process net t event e) ∙ process-mg_pools net t event e

-- A leaf that comes to a running spine, whatever happened since the start, if the pools have a
-- connection: its manager is called exactly if it had a leaf at the start, and the bus is told of the
-- leaf in both cases.
pub manager_called_lem :
    (net : Network) (t0 t : Topology) (out : Channels) (events : List (Topology × SpineEvent))
    (info : LeafInfo) (a : ℕ)
    → net.unreachable (run net events (start t0 out)).sent (t.nodes a).mgmt_address ≡ false
    → let e = run net events (start t0 out) in
      let message : LeafAddedMessage = record { leaf = info; dst = some a } in
      let e' = process net t (SpineEvent.new_leaf message) e in
      let address = (t.nodes a).mgmt_address in
      (e'.sent ≡ (
        if has_manager address t0.nodes (values t0.leaves)
        then e.sent ◂ record { address = address; call = Call.add_leaf info }
        else e.sent))
      × (e'.out.new_leaves ≡ e.out.new_leaves ◂ message)
unfolding process send_leaf_added to_manager send_to_manager send_on call_on start load
manager_called_lem net t0 t out events info a up =
    let e = run net events (start t0 out) in
    let address = (t.nodes a).mgmt_address in
    let pool : load address e.mg_pools
        ≡ (if has_manager address t0.nodes (values t0.leaves) then some address else none) =
      ap (load address) (run-mg_pools net events (start t0 out))
      ∙ load-create_mgr_pools address (values t0.leaves) t0.nodes []
          (λ k v h. absurd (ground arith)) in
    (ground (arith, pool, up), ground (arith, pool, up))
