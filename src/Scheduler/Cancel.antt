-- ===== src/Scheduler/Cancel.antt =====
-- nanovllm/engine/scheduler.py: `cancel`.
use nano_vllm_qos.Prelude.{
  ℕ, ◌+◌, Option, none, some, List, [], ◌∷◌, Result, ok, ◌>>=◌, if◌then◌else◌, ◌==◌,
}
use nano_vllm_qos.Prelude.Dict
use nano_vllm_qos.Sequence
use nano_vllm_qos.Sequence.{Sequence}
use nano_vllm_qos.BlockManager.{BlockManager}
use nano_vllm_qos.BlockManager.Release.{abort_restore}
use nano_vllm_qos.Queues.{find_seq, remove_seq}
use nano_vllm_qos.Scheduler.{
  Scheduler, PendingRestore, RestoreService, with_waiting, with_running, tick,
}

module _ {F : Type 0} where
  unfoldable pub find_pending : ℕ → List (PendingRestore F) → Option (PendingRestore F)
  find_pending i [] = none
  find_pending i (p ∷ ps) = if p.sequence.seq_id == i then some p else find_pending i ps

  unfoldable pub remove_pending : ℕ → List (PendingRestore F) → List (PendingRestore F)
  remove_pending i [] = []
  remove_pending i (p ∷ ps) = if p.sequence.seq_id == i then ps else p ∷ remove_pending i ps

  -- `pending_restores[seq_id] = state`
  unfoldable pub put_pending : PendingRestore F → List (PendingRestore F) → List (PendingRestore F)
  put_pending q [] = q ∷ []
  put_pending q (p ∷ ps) =
      if p.sequence.seq_id == q.sequence.seq_id then q ∷ ps else p ∷ put_pending q ps

  -- The waiters of a transfer are cancelled.
  unfoldable pub cancel_transfer : (R : RestoreService F) → Option R.Service → ℕ → Option R.Service
  cancel_transfer R none i = none
  cancel_transfer R (some v) i = some (R.cancel_waiters v i)

module _ {F : Type 0} (R : RestoreService F) {I : Type 0} where
  -- The request, taken out of the queue in which it is.
  unfoldable pub take_out :
      Scheduler F I R.Service → ℕ → Option (Sequence F × Scheduler F I R.Service)
  take_out m i = elim (find_seq i m.waiting) [
    | some s ↦ some (s, with_waiting m (remove_seq i m.waiting))
    | none ↦ elim (find_seq i m.running) [
      | some s ↦ some (s, with_running m (remove_seq i m.running))
      | none ↦ elim (find_pending i m.pending_restores) [
        | some p ↦ some (
          p.sequence,
          record m {
            pending_restores = remove_pending i m.pending_restores;
            remote_restore_service = cancel_transfer R m.remote_restore_service i;
          },
        )
        | none ↦ none
      ]
    ]
  ]

  abbrev pub forget_plans : BlockManager I → ℕ → BlockManager I
  forget_plans blocks i = record blocks {
    pending_matches = Dict.remove i blocks.pending_matches;
    pending_resume_matches = Dict.remove i blocks.pending_resume_matches;
  }

  -- The cancelled request is returned too. `abort_restore` has the same body as the call made here:
  -- it deallocates what has a table.
  unfoldable pub cancel_taken :
      (ℕ → F)
      → Scheduler F I R.Service
      → Sequence F
      → ℕ
      → Result (Scheduler F I R.Service × Sequence F)
  cancel_taken clock m s i = do
    (blocks, s') ← abort_restore (forget_plans m.block_manager i) s
    ok (
      record (tick m) {
        block_manager = blocks;
        counters = record (m.counters) { cancelled_requests = m.counters.cancelled_requests + 1 };
      },
      Sequence.cancel (record s' { num_scheduled_tokens = 0 }) (clock m.ticks),
    )

  -- `cancel`; `none` stands for the answer `False`.
  unfoldable pub cancel :
      (ℕ → F) → Scheduler F I R.Service → ℕ → Result (Scheduler F I R.Service × Option (Sequence F))
  unfolding cancel_taken
  cancel clock m i = elim (take_out m i) [
    | none ↦ ok (m, none)
    | some (s, m') ↦ cancel_taken clock m' s i >>= λ r. ok (r.0, some (r.1))
  ]
