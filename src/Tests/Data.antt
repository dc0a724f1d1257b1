-- ===== src/Tests/Data.antt =====
-- The request that the tests share.
use nano_vllm_qos.Prelude.{ℕ, refl, true, false, none, some, [], ◌∷◌, arith}
use nano_vllm_qos.Prelude.Int.{pos}
use nano_vllm_qos.Request.{RequestQoS}
use nano_vllm_qos.Sequence.{Sequence, SequenceStatus}
use nano_vllm_qos.Sequence.Laws.{IsWellFormed}

abbrev pub best_effort : RequestQoS ℕ
best_effort = record {
  priority = pos 1;
  ttft_slo_ms = none;
  tpot_slo_ms = none;
  e2e_slo_ms = some 900;
  request_class = "best_effort";
}

-- Nine tokens in blocks of four; no page yet.
abbrev pub request : Sequence ℕ
request = record {
  block_size = 4;
  seq_id = 7;
  status = SequenceStatus.waiting;
  token_ids = 1 ∷ 2 ∷ 3 ∷ 4 ∷ 5 ∷ 6 ∷ 7 ∷ 8 ∷ 9 ∷ [];
  last_token = 9;
  num_tokens = 9;
  num_prompt_tokens = 8;
  num_cached_tokens = 0;
  num_physical_cached_tokens = 0;
  num_scheduled_tokens = 0;
  is_prefill = true;
  block_table = [];
  kv_block_logical_indices = [];
  temperature = 1;
  max_tokens = 16;
  ignore_eos = false;
  qos = best_effort;
  arrival_time = some 5;
  arrival_step = 1;
  first_scheduled_time = none;
  first_token_time = none;
  finished_time = none;
  preemption_count = 0;
  kv_reclaim_events = 0;
  kv_reclaimed_blocks = 0;
  kv_retained_blocks = 0;
  kv_invalidated_tokens = 0;
  kv_recomputed_tokens = 0;
  pending_preemption_recompute_tokens = 0;
  kv_compressed = false;
  kv_compression_events = 0;
  kv_compression_dropped_blocks = 0;
  kv_compression_dropped_tokens = 0;
  last_budget_ms = none;
  remote_restore_attempted = false;
  remote_restore_started_time = none;
  remote_restore_completed_time = none;
  remote_restore_wait_ms = 0;
  remote_restored_tokens = 0;
  remote_restore_failures = 0;
  remote_restore_error = none;
}

pub request-IsWellFormed : IsWellFormed request
request-IsWellFormed = record {
  sized = omega arith;
  counted = refl;
  prompt_first = omega arith;
  last_is_last = refl;
}
