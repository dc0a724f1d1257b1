-- ===== src/Scheduler/Room.antt =====
-- nanovllm/engine/scheduler.py: `_ensure_resume_capacity`. The loop counts its rounds: `none` says
-- that the count ran out.
use nano_vllm_qos.Prelude.{
  ℕ, zero, suc, ◌+◌, Bool, true, false, not, ◌&&◌, Option, none, some, List, [], ◌∷◌, Result, ok,
  Error, or_raise, ◌>>=◌, ◌==◌,
}
use nano_vllm_qos.Scalar.{Scalar}
use nano_vllm_qos.Sequence.{Sequence}
use nano_vllm_qos.BlockManager.{PrefixIndex}
use nano_vllm_qos.BlockManager.Resume.{can_resume}
use nano_vllm_qos.Policy.{Key}
use nano_vllm_qos.Policy.Select.{select_min, higher}
use nano_vllm_qos.Reclaim.{recompute_all, plan}
use nano_vllm_qos.Queues.{find_seq, update_seq, keep_seqs, has_table, no_seqs}
use nano_vllm_qos.Scheduler.{Scheduler, with_blocks, policy_budget_ms}
use nano_vllm_qos.Scheduler.Preempt.{apply_kv_reclaim}

-- The other requests that hold pages.
abbrev pub others_with_table : {F : Type 0} → ℕ → List (Sequence F) → List (Sequence F)
others_with_table i ss = keep_seqs (λ s. not (s.seq_id == i) && has_table s) ss

abbrev budget_or_zero : (S : Scalar) → Option S.F → S.F
budget_or_zero S none = S.of_ℕ 0
budget_or_zero S (some b) = b

abbrev pub first_max : (S : Scalar) → List (Key S.F × Sequence S.F) → Option (Sequence S.F)
first_max S [] = none
first_max S (k ∷ ks) = some ((select_min (higher S) k ks).1)

module _ (S : Scalar) (P : PrefixIndex) (xxh64 : List ℕ → ℕ) {V : Type 0} where
  -- `reclaim_order`. A policy answers all requests with a budget or none, so where it gives none, the
  -- infinity of the source may be any constant.
  unfoldable pub reclaim_keys :
      Scheduler S.F P.Index V → S.F → List (Sequence S.F) → Result (List (Key S.F × Sequence S.F))
  reclaim_keys m now [] = ok []
  reclaim_keys m now (s ∷ ss) = do
    budget ← policy_budget_ms S m s now
    rest ← reclaim_keys m now ss
    ok (
        (
          record {
            budget = budget_or_zero S budget;
            arrival_step = s.arrival_step;
            seq_id = s.seq_id;
          },
          s,
        )
        ∷ rest)

  -- A waiting request is reclaimed whole, under the recompute policy.
  unfoldable pub reclaim_waiting :
      Scheduler S.F P.Index V → S.F → Sequence S.F → Result (Scheduler S.F P.Index V)
  reclaim_waiting m now s = do
    budget ← policy_budget_ms S m s now
    (m', s', freed) ← apply_kv_reclaim S m s (plan S recompute_all s budget 1)
    ok (record m' {
      waiting = update_seq s' m'.waiting;
      counters = record (m'.counters) {
        kv_reclaim_forced_fallbacks = m'.counters.kv_reclaim_forced_fallbacks + 1;
      };
    })

  -- `max(candidates, key=reclaim_order)`, which is then reclaimed
  unfoldable pub reclaim_last :
      Scheduler S.F P.Index V → S.F → List (Sequence S.F) → Result (Scheduler S.F P.Index V)
  unfolding reclaim_keys
  reclaim_last m now candidates = do
    keys ← reclaim_keys m now candidates
    victim ← or_raise (first_max S keys) Error.value_error
    s ← or_raise (find_seq victim.seq_id m.waiting) Error.value_error
    reclaim_waiting m now s

  -- `return can_resume(seq)`
  unfoldable pub check_resume :
      Scheduler S.F P.Index V → Sequence S.F → Result (Scheduler S.F P.Index V × Bool)
  check_resume m s = do
    (blocks, fits) ← can_resume P xxh64 m.block_manager s
    ok (with_blocks m blocks, fits)

  -- `_ensure_resume_capacity` for the waiting request of number `i`
  unfoldable pub ensure_resume_capacity :
      ℕ → Scheduler S.F P.Index V → S.F → ℕ → Result (Option (Scheduler S.F P.Index V × Bool))
  ensure_resume_capacity zero m now i = ok none
  ensure_resume_capacity (suc rounds) m now i = do
    s ← or_raise (find_seq i m.waiting) Error.value_error
    elim (has_table s) [
      | false ↦ check_resume m s >>= λ r. ok (some r)
      | true ↦ do
        (m', fits) ← check_resume m s
        elim fits [
          | true ↦ check_resume m' s >>= λ r. ok (some r)
          | false ↦ elim (no_seqs (others_with_table i m'.waiting)) [
            | false ↦ reclaim_last m' now (others_with_table i m'.waiting) >>= λ m''.
                ensure_resume_capacity rounds m'' now i
            | true ↦ elim (no_seqs m'.running) [
              | false ↦ ok (some (m', false))
              | true ↦ reclaim_waiting m' now s >>= λ m''. ensure_resume_capacity rounds m'' now i
            ]
          ]
        ]
    ]
