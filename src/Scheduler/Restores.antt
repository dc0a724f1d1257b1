-- ===== src/Scheduler/Restores.antt =====
-- nanovllm/engine/scheduler.py: the start and the end of a remote restore.
use Prim.Native.String.{String}
use nano_vllm_qos.Prelude.{
  ℕ, ◌+◌, ◌*◌, Bool, true, false, Option, none, some, List, [], ◌∷◌, ◌++◌, Result, ok, Error,
  or_raise, ◌>>=◌, if◌then◌else◌, length, drop,
}
use nano_vllm_qos.Scalar.{Scalar}
use nano_vllm_qos.Sequence.{Sequence}
use nano_vllm_qos.Sequence.Restore
use nano_vllm_qos.Sequence.Restore.{begin_remote_restore, finish_remote_restore}
use nano_vllm_qos.BlockManager.{PrefixIndex}
use nano_vllm_qos.BlockManager.Allocate.{reserve_restore, commit_restored_prefix}
use nano_vllm_qos.BlockManager.Release.{abort_restore}
use nano_vllm_qos.Queues.{remove_seq, update_seq}
use nano_vllm_qos.Scheduler.{Scheduler, PendingRestore, RestoreService, with_blocks, tick}
use nano_vllm_qos.Scheduler.Cancel.{find_pending, remove_pending, put_pending, cancel_transfer}

module _ (S : Scalar) (P : PrefixIndex) (R : RestoreService S.F) (xxh64 : List ℕ → ℕ)
    (clock : ℕ → S.F) where
  abbrev pub Engine : Type 0
  Engine = Scheduler S.F P.Index R.Service

  abbrev pub pended : Sequence S.F → ℕ → ℕ → PendingRestore S.F
  pended s total_cached_blocks restored_blocks = record {
    sequence = s;
    total_cached_blocks = total_cached_blocks;
    restored_blocks = restored_blocks;
  }

  -- The transfer is under way: the request moves to the pending restores.
  abbrev pub submitted : Engine → R.Service → Sequence S.F → ℕ → ℕ → Engine
  submitted m v s total_cached_blocks restored_blocks = record m {
    waiting = remove_seq s.seq_id m.waiting;
    remote_restore_service = some v;
    pending_restores =
        put_pending (pended s total_cached_blocks restored_blocks) m.pending_restores;
    counters = record (m.counters) {
      remote_restore_started = m.counters.remote_restore_started + 1;
    };
  }

  -- The transfer could not be submitted: the request waits on, without pages.
  unfoldable pub abandon : Engine → R.Service → Sequence S.F → S.F → String → Result Engine
  abandon m v s now error = do
    (blocks, s') ← abort_restore m.block_manager s
    s'' ← Restore.fail_remote_restore S s' now error
    ok (record m {
      block_manager = blocks;
      waiting = update_seq s'' m.waiting;
      remote_restore_service = some v;
      counters = record (m.counters) {
        remote_restore_failed = m.counters.remote_restore_failed + 1;
      };
    })

  -- The pages of a planned restore are reserved, and their transfer is submitted.
  unfoldable pub launch :
      Engine → R.Service → Sequence S.F → ℕ → List R.Page → S.F → Result (Engine × Bool)
  unfolding abandon
  launch m v s local_cached_blocks candidate now = do
    (blocks, s', block_ids) ←
        reserve_restore P xxh64 m.block_manager s local_cached_blocks (length candidate)
    let pages = drop local_cached_blocks candidate
    s'' ← begin_remote_restore s' now
    let (v', failure) = R.submit_restore v s.seq_id pages block_ids
    elim failure [
      | none ↦ ok (submitted (with_blocks m blocks) v' s'' (length candidate) (length pages), true)
      | some error ↦ abandon (with_blocks m blocks) v' s'' now error >>= λ m'. ok (m', false)
    ]

  -- The service has planned, or has found nothing worth its transfer.
  unfoldable pub launch_found :
      Engine → R.Service → Option (List R.Page) → Sequence S.F → ℕ → S.F → Result (Engine × Bool)
  launch_found m v none s local_cached_blocks now =
      ok (record m { remote_restore_service = some v }, false)
  launch_found m v (some pages) s local_cached_blocks now =
      launch m v s local_cached_blocks pages now

  -- Without a service, or after an attempt, there is no restore.
  unfoldable pub start_with :
      Engine → Option R.Service → Bool → Sequence S.F → ℕ → S.F → Result (Engine × Bool)
  start_with m none attempted s local_cached_blocks now = ok (m, false)
  start_with m (some v) true s local_cached_blocks now = ok (m, false)
  start_with m (some v) false s local_cached_blocks now = do
    (v', candidate) ← R.plan_restore v s local_cached_blocks m.estimator.prefill_ms_per_token
    launch_found m v' candidate s local_cached_blocks now

  -- `_start_remote_restore`, for a waiting request
  unfoldable pub start_remote_restore : Engine → Sequence S.F → ℕ → S.F → Result (Engine × Bool)
  start_remote_restore m s local_cached_blocks now =
      start_with m m.remote_restore_service s.remote_restore_attempted s local_cached_blocks now

  abbrev ready : Option R.Service → List (PendingRestore S.F) → List (PendingRestore S.F)
  ready none ps = []
  ready (some v) [] = []
  ready (some v) (p ∷ ps) =
      if R.is_done v p.sequence.seq_id then p ∷ ready (some v) ps else ready (some v) ps

  unfoldable pub ready_remote_restores : Engine → List (PendingRestore S.F)
  ready_remote_restores m = ready m.remote_restore_service m.pending_restores

  unfoldable pub complete_remote_restore : Engine → ℕ → Result Engine
  complete_remote_restore m i = do
    p ← or_raise (find_pending i m.pending_restores) Error.key_error
    (blocks, s) ← commit_restored_prefix P xxh64 m.block_manager p.sequence p.total_cached_blocks
    s' ← finish_remote_restore S s (clock m.ticks) (p.restored_blocks * m.options.block_size)
    ok (record (tick m) {
      block_manager = blocks;
      pending_restores = remove_pending i m.pending_restores;
      waiting = m.waiting ++ s' ∷ [];
      counters = record (m.counters) {
        remote_restore_completed = m.counters.remote_restore_completed + 1;
      };
    })

  unfoldable pub fail_remote_restore : Engine → ℕ → String → Result Engine
  fail_remote_restore m i error = do
    p ← or_raise (find_pending i m.pending_restores) Error.key_error
    (blocks, s) ← abort_restore m.block_manager p.sequence
    s' ← Restore.fail_remote_restore S s (clock m.ticks) error
    ok (record (tick m) {
      block_manager = blocks;
      pending_restores = remove_pending i m.pending_restores;
      remote_restore_service = cancel_transfer R m.remote_restore_service i;
      waiting = s' ∷ m.waiting;
      counters = record (m.counters) {
        remote_restore_failed = m.counters.remote_restore_failed + 1;
      };
    })
