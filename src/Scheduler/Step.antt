-- ===== src/Scheduler/Step.antt =====
-- nanovllm/engine/scheduler.py: `schedule`, `_schedule_once` and `postprocess`.
use nano_vllm_qos.Prelude.{
  ℕ, suc, ◌+◌, ◌*◌, Bool, true, false, not, ◌&&◌, ◌||◌, Option, none, some, List, [], ◌∷◌, ◌++◌,
  Result, ok, Error, or_raise, ◌>>=◌, ◌==◌, if◌then◌else◌, ltb, length,
}
use nano_vllm_qos.Scalar.{Scalar}
use nano_vllm_qos.Sequence.{
  Sequence, SequenceStatus, record_recomputed_tokens, append_token, mark_finished,
  num_completion_tokens,
}
use nano_vllm_qos.Sequence.Metrics
use nano_vllm_qos.BlockManager.{PrefixIndex}
use nano_vllm_qos.BlockManager.Allocate.{hash_blocks}
use nano_vllm_qos.BlockManager.Release.{deallocate}
use nano_vllm_qos.Policy.Select.{should_schedule_prefill}
use nano_vllm_qos.Queues.{find_seq, remove_seq, update_seq}
use nano_vllm_qos.Scheduler.{RestoreService, policy, with_waiting, with_running, with_blocks, tick}
use nano_vllm_qos.Scheduler.Restores.{Engine}
use nano_vllm_qos.Scheduler.Decode.{decode_phase}
use nano_vllm_qos.Scheduler.Prefill.{Prefilling, prefill_loop, no_ids}

module _ (S : Scalar) (P : PrefixIndex) (R : RestoreService S.F) (xxh64 : List ℕ → ℕ)
    (clock : ℕ → S.F) where
  abbrev pub start_prefill : Engine S P R xxh64 clock → Prefilling (Engine S P R xxh64 clock)
  start_prefill m = record {
    engine = m;
    scheduled = [];
    num_batched_tokens = 0;
    budget_deferred = [];
    resident_progress_only = false;
  }

  -- Enough for a restore or a loss of pages of each waiting request, and for an admission and a
  -- deferral for each place in the batch.
  abbrev pub prefill_rounds : Engine S P R xxh64 clock → ℕ
  prefill_rounds m = suc (suc (length m.waiting + length m.waiting + 5 * m.options.max_num_seqs))

  unfoldable pub prefill_phase :
      Bool → S.F → Engine S P R xxh64 clock → Result (Engine S P R xxh64 clock × List ℕ)
  prefill_phase due now m = elim due [
    | false ↦ ok (m, [])
    | true ↦ do
      done ← prefill_loop S P R xxh64 clock (prefill_rounds m) now (start_prefill m)
      t ← or_raise done Error.out_of_rounds
      ok (t.engine, t.scheduled)
  ]

  -- The batch and `is_prefill`, or `none` where the source answers `None`.
  unfoldable pub schedule_once :
      Engine S P R xxh64 clock → Result (Engine S P R xxh64 clock × Option (List ℕ × Bool))
  schedule_once m = do
    let now = clock m.ticks
    let m₁ = record (tick m) { step_id = m.step_id + 1 }
    due ← should_schedule_prefill S (policy m₁) m₁.waiting m₁.running m₁.step_id now
    (m₂, scheduled) ← prefill_phase due now m₁
    elim (no_ids scheduled) [
      | false ↦ ok (m₂, some (scheduled, true))
      | true ↦ decode_phase S P clock now m₂
    ]

  unfoldable pub schedule :
      Engine S P R xxh64 clock → Result (Engine S P R xxh64 clock × List ℕ × Bool)
  schedule m = do
    (m₁, first) ← schedule_once m
    elim first [
      | some (batch, is_prefill) ↦ ok (m₁, batch, is_prefill)
      | none ↦ do
        (m₂, second) ← schedule_once m₁
        (batch, is_prefill) ← or_raise second Error.runtime_error
        ok (m₂, batch, is_prefill)
    ]

  -- A scheduled request is in `running`, or still in `waiting` after a part of its prompt.
  unfoldable pub find_scheduled : Engine S P R xxh64 clock → ℕ → Result (Sequence S.F)
  find_scheduled m i = elim (find_seq i m.running) [
    | some s ↦ ok s
    | none ↦ or_raise (find_seq i m.waiting) Error.value_error
  ]

  abbrev pub put_scheduled : Engine S P R xxh64 clock → Sequence S.F → Engine S P R xxh64 clock
  put_scheduled m s = elim (find_seq s.seq_id m.running) [
    | some old ↦ with_running m (update_seq s m.running)
    | none ↦ with_waiting m (update_seq s m.waiting)
  ]

  -- The tokens of the batch are computed now.
  abbrev pub computed : Sequence S.F → Bool → Sequence S.F
  computed s is_prefill =
      let t = if is_prefill then record_recomputed_tokens s s.num_scheduled_tokens else s in
      record t {
        num_cached_tokens = t.num_cached_tokens + t.num_scheduled_tokens;
        num_physical_cached_tokens = t.num_physical_cached_tokens + t.num_scheduled_tokens;
        num_scheduled_tokens = 0;
      }

  abbrev is_eos : Option ℕ → ℕ → Bool
  is_eos none token_id = false
  is_eos (some eos) token_id = token_id == eos

  abbrev pub ends : Engine S P R xxh64 clock → Sequence S.F → ℕ → Bool
  ends m s token_id =
      not s.ignore_eos && is_eos m.options.eos token_id || num_completion_tokens s == s.max_tokens

  -- A finished request leaves `running`, and its metrics are kept.
  unfoldable pub finish :
      Engine S P R xxh64 clock → Sequence S.F → S.F → Result (Engine S P R xxh64 clock)
  finish m s now = do
    let s' = mark_finished (record s { status = SequenceStatus.finished }) now
    (blocks, s'') ← deallocate m.block_manager s'
    old ← or_raise (find_seq s.seq_id m.running) Error.value_error
    metrics ← Metrics.metrics S s''
    ok (record m {
      block_manager = blocks;
      running = remove_seq s.seq_id m.running;
      completed_metrics = m.completed_metrics ++ metrics ∷ [];
    })

  -- The body of the loop for one request and its token.
  unfoldable pub accept :
      Engine S P R xxh64 clock → S.F → Bool → ℕ → ℕ → Result (Engine S P R xxh64 clock)
  unfolding finish
  accept m now is_prefill i token_id = do
    s ← find_scheduled m i
    blocks ← hash_blocks P xxh64 m.block_manager s
    let m' = with_blocks m blocks
    let s' = computed s is_prefill
    let s'' = append_token s' token_id now
    if is_prefill && ltb s'.num_cached_tokens s'.num_tokens
        then ok (put_scheduled m' s')
        else (if ends m' s'' token_id then finish m' s'' now else ok (put_scheduled m' s''))

  unfoldable pub accept_all :
      Engine S P R xxh64 clock → S.F → Bool → List ℕ → List ℕ → Result (Engine S P R xxh64 clock)
  accept_all m now is_prefill [] tokens = ok m
  accept_all m now is_prefill (i ∷ is) [] = ok m
  accept_all m now is_prefill (i ∷ is) (t ∷ ts) = do
    m' ← accept m now is_prefill i t
    accept_all m' now is_prefill is ts

  unfoldable pub postprocess :
      Engine S P R xxh64 clock → List ℕ → List ℕ → Bool → Result (Engine S P R xxh64 clock)
  postprocess m seqs token_ids is_prefill =
      accept_all (tick m) (clock m.ticks) is_prefill seqs token_ids
