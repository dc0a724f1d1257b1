-- ===== src/Sequence/Metrics.antt =====
-- nanovllm/engine/sequence.py: `Sequence.metrics`, the record of a finished request.
use nano_vllm_qos.Prelude.{
  ℕ, ◌-◌, Bool, Option, none, some, Result, ok, Error, or_raise, ◌>>=◌, ltb, if◌then◌else◌,
}
use nano_vllm_qos.Scalar.{Scalar}
use nano_vllm_qos.Request.{RequestMetrics}
use nano_vllm_qos.Sequence.{Sequence, num_completion_tokens}

module _ (S : Scalar) where
  -- Truth of an optional float, as Python reads it: neither `None` nor 0.
  abbrev truthy : Option S.F → Option S.F
  truthy none = none
  truthy (some x) =
      if S.le x (S.of_ℕ 0) then (if S.le (S.of_ℕ 0) x then none else some x) else some x

  abbrev or_else : Option S.F → S.F → S.F
  or_else none d = d
  or_else (some x) d = x

  -- `(value <= slo) if slo is there else None`
  abbrev met : S.F → Option S.F → Option Bool
  met value none = none
  met value (some slo) = some (S.le value slo)

  abbrev met_if : Option S.F → Option S.F → Option Bool
  met_if none slo = none
  met_if (some value) slo = met value slo

  -- `(end - start) * 1000.0`
  abbrev elapsed_ms : S.F → S.F → S.F
  elapsed_ms end start = S.mul (S.sub end start) (S.of_ℕ 1000)

  -- The mean time of a token after the first.
  abbrev time_per_token : ℕ → S.F → S.F → Option S.F
  time_per_token completion e2e_ms ttft_ms =
      if ltb 1 completion
      then some (S.div (S.sub e2e_ms ttft_ms) (S.of_ℕ (completion - 1)))
      else none

  unfoldable pub metrics : Sequence S.F → Result (RequestMetrics S.F)
  metrics s = do
    arrival_time ← or_raise s.arrival_time Error.runtime_error
    first_token_time ← or_raise s.first_token_time Error.runtime_error
    finished_time ← or_raise s.finished_time Error.runtime_error
    let scheduled_time = or_else (truthy s.first_scheduled_time) first_token_time
    let ttft_ms = elapsed_ms first_token_time arrival_time
    let e2e_ms = elapsed_ms finished_time arrival_time
    let tpot_ms = time_per_token (num_completion_tokens s) e2e_ms ttft_ms
    ok (record {
      seq_id = s.seq_id;
      request_class = s.qos.request_class;
      priority = s.qos.priority;
      prompt_tokens = s.num_prompt_tokens;
      completion_tokens = num_completion_tokens s;
      queue_ms = elapsed_ms scheduled_time arrival_time;
      ttft_ms = ttft_ms;
      tpot_ms = tpot_ms;
      e2e_ms = e2e_ms;
      preemptions = s.preemption_count;
      kv_reclaim_events = s.kv_reclaim_events;
      kv_reclaimed_blocks = s.kv_reclaimed_blocks;
      kv_retained_blocks = s.kv_retained_blocks;
      kv_invalidated_tokens = s.kv_invalidated_tokens;
      kv_recomputed_tokens = s.kv_recomputed_tokens;
      kv_compression_events = s.kv_compression_events;
      kv_compression_dropped_blocks = s.kv_compression_dropped_blocks;
      kv_compression_dropped_tokens = s.kv_compression_dropped_tokens;
      kv_restore_wait_ms = s.remote_restore_wait_ms;
      kv_restored_tokens = s.remote_restored_tokens;
      kv_restore_failures = s.remote_restore_failures;
      ttft_slo_ms = s.qos.ttft_slo_ms;
      tpot_slo_ms = s.qos.tpot_slo_ms;
      e2e_slo_ms = s.qos.e2e_slo_ms;
      ttft_slo_met = met ttft_ms (truthy s.qos.ttft_slo_ms);
      tpot_slo_met = met_if tpot_ms s.qos.tpot_slo_ms;
      e2e_slo_met = met e2e_ms (truthy s.qos.e2e_slo_ms);
    })
