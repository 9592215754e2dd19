-- ===== src/Switch/Leaf/Handlers.antt =====
-- ctrl_mgr/cp.go: the handlers of a leaf, in both versions of the data plane.
use horus_controller.Switch.Leaf.{leaf_init_all, server_change_all}
use horus_controller.Switch.{SwitchClient, put, run_writes}
use horus_controller.Topology.State.{Topology}
use horus_controller.Prelude.{
  ℕ, ◌-◌, Option, Bool, List, [], ◌∷◌, Outcome, returned, ◌>>=◌, deref, if◌then◌else◌, get_elem?,
  length,
}

-- INVALID_VAL_16bit
abbrev pub invalid_val_16bit : ℕ
invalid_val_16bit = 32767

module _ (c : SwitchClient) where
  open c use {State}

  -- The pointer to the leaf may be nil.
  unfoldable pub leaf_init_v1 :
      Topology → List ℕ → List ℕ → List ℕ → Option ℕ → State → Outcome State
  unfolding leaf_init_all
  leaf_init_v1 t ups clients spines leaf s = do
    a ← deref leaf
    leaf_init_all c t ups clients spines a s

  unfoldable pub leaf_init_v2 :
      Topology → List ℕ → List ℕ → List ℕ → Option ℕ → State → Outcome State
  unfolding leaf_init_all run_writes
  leaf_init_v2 t ups clients spines leaf s = do
    a ← deref leaf
    s1 ← leaf_init_all c t ups clients spines a s
    let n = t.nodes a
    first ← deref (get_elem? n.children 0)
    run_writes c
        (put "pipe_leaf.LeafIngress.worker_id_map_1" n.index (t.nodes first).first_worker_id
          ∷ put "pipe_leaf.LeafIngress.worker_id_map_2" n.index (t.nodes first).last_worker_id
          ∷ put "pipe_leaf.LeafIngress.queue_len_list_low" n.index 1
          ∷ put "pipe_leaf.LeafIngress.queue_len_list_high" n.index 1
          ∷ [])
        s1

  -- The block under `if !added` in OnServerChange of version 2.
  unfoldable pub retrack_workers : Topology → ℕ → State → Outcome State
  unfolding run_writes
  retrack_workers t a s = do
    let n = t.nodes a
    first ← deref (get_elem? n.children 0)
    s1 ←
        run_writes c
          (put "pipe_leaf.LeafIngress.worker_id_map_1" n.id (t.nodes first).first_worker_id ∷ []) s
    last ← deref (get_elem? n.children (length n.children - 1))
    run_writes c
        (put "pipe_leaf.LeafIngress.worker_id_map_2" n.id (t.nodes last).last_worker_id
          ∷ put "pipe_leaf.LeafIngress.queue_len_list_low" n.id 100
          ∷ put "pipe_leaf.LeafIngress.queue_len_list_high" n.id 100
          ∷ [])
        s1

  unfoldable pub server_change_v1 : Topology → ℕ → List ℕ → Bool → State → Outcome State
  unfolding server_change_all
  server_change_v1 t a updated added s = server_change_all c t a updated added s

  unfoldable pub server_change_v2 : Topology → ℕ → List ℕ → Bool → State → Outcome State
  unfolding server_change_all retrack_workers
  server_change_v2 t a updated added s = do
    s1 ← server_change_all c t a updated added s
    if added then returned s1 else retrack_workers t a s1

  -- Cleanup is the same in both versions.
  unfoldable pub cleanup : ℕ → State → Outcome State
  unfolding run_writes
  cleanup leaf_id s =
      run_writes c
        (put "pipe_leaf.LeafIngress.linked_iq_sched" leaf_id invalid_val_16bit
          ∷ put "pipe_leaf.LeafIngress.linked_sq_sched" leaf_id invalid_val_16bit
          ∷ put "pipe_leaf.LeafIngress.aggregate_queue_len_list" leaf_id 0
          ∷ [])
        s
