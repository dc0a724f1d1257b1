-- ===== src/Scheduler.antt =====
-- nanovllm/engine/scheduler.py: the queues of requests and the two phases of a step. The parent holds
-- the state; the children hold the operations, and below them their theorems.
--
-- A request is in one of the queues `waiting`, `running` and `pending_restores`, or in the hands of
-- the operation that took it out. An operation that changes a request writes it back to its queue.
-- The flight recorder is switched off (`trace is None`). `clock` gives the successive readings of
-- the clock, and `ticks` counts those made.
pub mod Cancel
pub mod Restores
pub mod Preempt
pub mod Decode
pub mod Room
pub mod Prefill
pub mod Step
pub mod Sound
pub mod Hands
pub mod Batch
pub mod Transfers
pub mod Finish
pub mod Launch
pub mod Enough
pub mod Rounds
pub mod Progress
pub mod Candidates
pub mod Ends
pub mod Resumes
pub mod Admits
pub mod Stepping
use Prim.Native.String.{String}
use nano_vllm_qos.Prelude.{
  ℕ, ◌+◌, ◌≤◌, Bool, true, false, Option, none, some, List, [], ◌∷◌, ◌++◌, Result, ok, ◌>>=◌, ◌&&◌,
  length, if◌then◌else◌, ◌==◌,
}
use nano_vllm_qos.Scalar.{Scalar}
use nano_vllm_qos.Request.{RequestMetrics}
use nano_vllm_qos.Sequence.{Sequence, mark_arrived}
use nano_vllm_qos.BlockManager.{BlockManager, PrefixIndex}
use nano_vllm_qos.Policy.{
  SchedulingPolicy, fcfs, pals, PolicyKind, fcfs_kind, pals_kind, ExecutionTimeEstimator, Budgets,
  budget_ms, observe,
}
use nano_vllm_qos.Reclaim.{KvReclaimPolicy}
use nano_vllm_qos.Queues.{keep_seqs, has_table, no_seqs}

pub data CompressionPolicy : Type 0 where
  no_policy sink_recent query_aware : CompressionPolicy

-- What the constructor takes from the configuration; `eos` is `none` for -1.
pub record SchedulerOptions (F : Type 0) : Type 0 where
  pub max_num_seqs : ℕ
  pub max_num_active_seqs : Option ℕ
  pub kv_admission_lookahead : ℕ
  pub max_num_batched_tokens : ℕ
  pub eos : Option ℕ
  pub block_size : ℕ
  pub policy_kind : PolicyKind
  pub budgets : Budgets F
  pub kv_reclaim_policy : KvReclaimPolicy F
  pub kv_reclaim_target_free_blocks : ℕ
  pub kv_compression_policy : CompressionPolicy
  pub kv_compression_sink_blocks : ℕ
  pub kv_compression_recent_blocks : ℕ
  pub kv_compression_importance_blocks : ℕ
  pub kv_compression_query_tokens : ℕ
  pub kv_compression_trigger_free_ratio : F

pub record PendingRestore (F : Type 0) : Type 0 where
  pub sequence : Sequence F
  pub total_cached_blocks : ℕ
  pub restored_blocks : ℕ

pub record Counters : Type 0 where
  pub kv_admission_deferred_checks : ℕ
  pub kv_reclaim_events : ℕ
  pub kv_reclaim_requested_blocks : ℕ
  pub kv_reclaim_freed_blocks : ℕ
  pub kv_reclaim_retained_blocks : ℕ
  pub kv_reclaim_invalidated_tokens : ℕ
  pub kv_reclaim_forced_fallbacks : ℕ
  pub kv_compression_events : ℕ
  pub kv_compression_dropped_blocks : ℕ
  pub kv_compression_freed_blocks : ℕ
  pub kv_compression_dropped_tokens : ℕ
  pub remote_restore_started : ℕ
  pub remote_restore_completed : ℕ
  pub remote_restore_failed : ℕ
  pub cancelled_requests : ℕ

-- What the scheduler calls of the restore service (remote_restore.py). A transfer goes by the number
-- of its request. `submit_restore` gives the text of the exception if it raises.
pub record RestoreService (F : Type 0) : Type 1 where
  pub Service : Type 0
  pub Page : Type 0
  pub plan_restore : Service → Sequence F → ℕ → F → Result (Service × Option (List Page))
  pub submit_restore : Service → ℕ → List Page → List ℕ → Service × Option String
  pub is_done : Service → ℕ → Bool
  pub cancel_waiters : Service → ℕ → Service

pub record Scheduler (F Index Service : Type 0) : Type 0 where
  pub options : SchedulerOptions F
  pub block_manager : BlockManager Index
  pub waiting : List (Sequence F)
  pub running : List (Sequence F)
  pub ticks : ℕ
  pub step_id : ℕ
  pub estimator : ExecutionTimeEstimator F
  pub completed_metrics : List (RequestMetrics F)
  pub remote_restore_service : Option Service
  pub pending_restores : List (PendingRestore F)
  pub counters : Counters

abbrev no_pending : {F : Type 0} → List (PendingRestore F) → Bool
no_pending [] = true
no_pending (p ∷ ps) = false

abbrev last_metrics : {F : Type 0} → ℕ → List (RequestMetrics F) → Option (RequestMetrics F)
last_metrics i [] = none
last_metrics i (x ∷ xs) = elim (last_metrics i xs) [
  | some y ↦ some y
  | none ↦ if x.seq_id == i then some x else none
]

module _ {F I V : Type 0} where
  -- The policy shares its estimator with the scheduler.
  abbrev pub policy : Scheduler F I V → SchedulingPolicy F
  policy m = elim m.options.policy_kind [
    | fcfs_kind ↦ fcfs
    | pals_kind ↦ pals m.estimator m.options.budgets
  ]

  abbrev pub with_blocks : Scheduler F I V → BlockManager I → Scheduler F I V
  with_blocks m blocks = record m { block_manager = blocks }

  abbrev pub with_waiting : Scheduler F I V → List (Sequence F) → Scheduler F I V
  with_waiting m waiting = record m { waiting = waiting }

  abbrev pub with_running : Scheduler F I V → List (Sequence F) → Scheduler F I V
  with_running m running = record m { running = running }

  -- After one more reading of the clock.
  abbrev pub tick : Scheduler F I V → Scheduler F I V
  tick m = record m { ticks = m.ticks + 1 }

  unfoldable pub is_finished : Scheduler F I V → Bool
  is_finished m = no_seqs m.waiting && no_seqs m.running && no_pending m.pending_restores

  unfoldable pub resident_count : Scheduler F I V → ℕ
  resident_count m =
      length m.running + length m.pending_restores + length (keep_seqs has_table m.waiting)

  -- `clock` gives the readings of the clock.
  unfoldable pub add : (ℕ → F) → Scheduler F I V → Sequence F → Scheduler F I V
  add clock m s = with_waiting (tick m) (m.waiting ++ mark_arrived s m.step_id (clock m.ticks) ∷ [])

  -- The dictionary `metrics_by_seq_id` holds the last of the completed metrics of each number.
  unfoldable pub request_metrics : Scheduler F I V → ℕ → Option (RequestMetrics F)
  request_metrics m i = last_metrics i m.completed_metrics

module _ (S : Scalar) {I V : Type 0} where
  -- `policy.budget_ms`, which the base class answers with `None`
  unfoldable pub policy_budget_ms : Scheduler S.F I V → Sequence S.F → S.F → Result (Option S.F)
  policy_budget_ms m s now = elim (policy m) [
    | fcfs ↦ ok none
    | pals e b ↦ budget_ms S e b s m.step_id now >>= λ budget. ok (some budget)
  ]

  unfoldable pub observe_execution : Scheduler S.F I V → Bool → ℕ → S.F → Scheduler S.F I V
  observe_execution m is_prefill num_tokens elapsed_ms = record m {
    estimator = observe S m.estimator is_prefill num_tokens elapsed_ms;
  }
