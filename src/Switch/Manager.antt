-- ===== src/Switch/Manager.antt =====
-- ctrl_mgr/cp.go: the tables that the manager of a switch fills, and the counters that it reads.
use horus_controller.Switch.SpineCp.{value_or_zero}
use horus_controller.Switch.Spine.{exact}
use horus_controller.Switch.Workers.{numbered}
use horus_controller.Switch.{SwitchClient, Write, insert, run_writes}
use horus_controller.Prelude.{ℕ, zero, suc, ◌+◌, ◌%◌, ◌^◌, List, [], ◌∷◌, Outcome}

-- Addition of uint64.
abbrev pub add64 : ℕ → ℕ → ℕ
add64 a b = (a + b) % 18446744073709551616

-- The loop of BfrtManagerCP_V1.InitRandomAdjustTables: `n` rounds from `i` on.
abbrev pub adjust_worker_writes : ℕ → ℕ → List Write
adjust_worker_writes zero i = []
adjust_worker_writes (suc n) i =
    insert "pipe_leaf.LeafIngress.adjust_random_range_ds"
      (exact "horus_md.cluster_num_valid_ds" (2 ^ i) ∷ [])
      (numbered "LeafIngress.adjust_random_worker_range_" i) []
    ∷ insert "pipe_leaf.LeafIngress.adjust_random_range_us"
        (exact "horus_md.cluster_num_valid_us" (2 ^ i) ∷ [])
        (numbered "LeafIngress.adjust_random_worker_range_" i) []
    ∷ adjust_worker_writes n (suc i)

-- The loop of BfrtManagerCP_V2.InitRandomAdjustTables.
abbrev pub adjust_upstream_writes : ℕ → ℕ → List Write
adjust_upstream_writes zero i = []
adjust_upstream_writes (suc n) i =
    insert "pipe_leaf.LeafIngress.adjust_random_range_us"
      (exact "horus_md.cluster_num_valid_us" (2 ^ i) ∷ [])
      (numbered "LeafIngress.adjust_random_worker_range_" i) []
    ∷ adjust_upstream_writes n (suc i)

pub record StatsObject : Type 0 where
  pub total_task_count : ℕ
  pub total_resub_leaf : ℕ
  pub total_msg_idle : ℕ
  pub total_msg_load : ℕ
  pub total_state_update_messages : ℕ

module _ (c : SwitchClient) where
  open c use {State, read_register}

  -- Init of the manager, in both versions.
  unfoldable pub manager_init_v1 : State → Outcome State
  unfolding run_writes
  manager_init_v1 s = run_writes c (adjust_worker_writes 5 1) s

  unfoldable pub manager_init_v2 : State → Outcome State
  unfolding run_writes
  manager_init_v2 s = run_writes c (adjust_upstream_writes 5 1) s

  -- The loop of fetchStats over the four emulated leaves: `n` rounds from `i` on.
  unfoldable pub add_stats : ℕ → ℕ → State → StatsObject → StatsObject
  add_stats zero i s stats = stats
  add_stats (suc n) i s stats = add_stats n (suc i) s (record stats {
    total_resub_leaf =
        add64 stats.total_resub_leaf
          (value_or_zero (read_register "pipe_leaf.LeafIngress.stat_count_resub" i s));
    total_msg_load =
        add64 stats.total_msg_load
          (value_or_zero (read_register "pipe_leaf.LeafIngress.stat_count_load_signal" i s));
    total_msg_idle =
        add64 stats.total_msg_idle
          (value_or_zero (read_register "pipe_leaf.LeafIngress.stat_count_idle_signal" i s));
  })

  unfoldable pub fetch_stats : State → StatsObject
  unfolding add_stats
  fetch_stats s =
      let stats = add_stats 4 0 s (record {
        total_task_count = 0;
        total_resub_leaf = 0;
        total_msg_idle = 0;
        total_msg_load = 0;
        total_state_update_messages = 0;
      }) in
      record stats {
        total_task_count =
            value_or_zero (read_register "pipe_leaf.LeafIngress.stat_count_task" 0 s);
        total_state_update_messages = add64 stats.total_msg_idle stats.total_msg_load;
      }
