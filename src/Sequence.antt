-- ===== src/Sequence.antt =====
-- nanovllm/engine/sequence.py: a request as the engine carries it. `F` is the type of times and of
-- the other floats. `block_size` is the class attribute `Sequence.block_size`.
pub mod Restore
pub mod Transport
pub mod Metrics
pub mod Laws
use Prim.Native.String.{String}
use nano_vllm_qos.Prelude.{
  ℕ, zero, suc, ◌+◌, ◌-◌, ◌*◌, ◌/◌, min, max, Bool, true, false, Option, none, some, List, [], ◌∷◌,
  ◌++◌, Result, ok, Error, guard, or_raise, ◌>>◌, ◌>>=◌, ltb, leb, not, ◌||◌, if◌then◌else◌, length,
  take, drop,
}
use nano_vllm_qos.Prelude.Int.{ℤ, sub_ℕ}
use nano_vllm_qos.Request.{RequestQoS}

pub data SequenceStatus : Type 0 where
  waiting waiting_for_kv running finished cancelled : SequenceStatus

pub record SamplingParams (F : Type 0) : Type 0 where
  pub temperature : F
  pub max_tokens : ℕ
  pub ignore_eos : Bool

pub record Sequence (F : Type 0) : Type 0 where
  pub block_size : ℕ
  pub seq_id : ℕ
  pub status : SequenceStatus
  pub token_ids : List ℕ
  pub last_token : ℕ
  pub num_tokens : ℕ
  pub num_prompt_tokens : ℕ
  pub num_cached_tokens : ℕ
  pub num_physical_cached_tokens : ℕ
  pub num_scheduled_tokens : ℕ
  pub is_prefill : Bool
  pub block_table : List ℕ
  pub kv_block_logical_indices : List ℕ
  pub temperature : F
  pub max_tokens : ℕ
  pub ignore_eos : Bool
  pub qos : RequestQoS F
  pub arrival_time : Option F
  pub arrival_step : ℕ
  pub first_scheduled_time : Option F
  pub first_token_time : Option F
  pub finished_time : Option F
  pub preemption_count : ℕ
  pub kv_reclaim_events : ℕ
  pub kv_reclaimed_blocks : ℕ
  pub kv_retained_blocks : ℕ
  pub kv_invalidated_tokens : ℕ
  pub kv_recomputed_tokens : ℕ
  pub pending_preemption_recompute_tokens : ℕ
  pub kv_compressed : Bool
  pub kv_compression_events : ℕ
  pub kv_compression_dropped_blocks : ℕ
  pub kv_compression_dropped_tokens : ℕ
  pub last_budget_ms : Option F
  pub remote_restore_attempted : Bool
  pub remote_restore_started_time : Option F
  pub remote_restore_completed_time : Option F
  pub remote_restore_wait_ms : F
  pub remote_restored_tokens : ℕ
  pub remote_restore_failures : ℕ
  pub remote_restore_error : Option String

abbrev pub last : List ℕ → Option ℕ
last [] = none
last (x ∷ []) = some x
last (x ∷ y ∷ xs) = last (y ∷ xs)

-- The constructor. `counter` is the next value of `Sequence.counter`, `zero_ms` the float 0.0; an
-- empty prompt has no last token.
unfoldable pub init :
    {F : Type 0} (counter block_size : ℕ) (zero_ms : F) (token_ids : List ℕ)
    → SamplingParams F
    → RequestQoS F
    → Option F
    → Result (Sequence F)
init counter block_size zero_ms token_ids params qos arrival_time = do
  last_token ← or_raise (last token_ids) Error.index_error
  ok (record {
    block_size = block_size;
    seq_id = counter;
    status = SequenceStatus.waiting;
    token_ids = token_ids;
    last_token = last_token;
    num_tokens = length token_ids;
    num_prompt_tokens = length token_ids;
    num_cached_tokens = 0;
    num_physical_cached_tokens = 0;
    num_scheduled_tokens = 0;
    is_prefill = true;
    block_table = [];
    kv_block_logical_indices = [];
    temperature = params.temperature;
    max_tokens = params.max_tokens;
    ignore_eos = params.ignore_eos;
    qos = qos;
    arrival_time = arrival_time;
    arrival_step = 0;
    first_scheduled_time = none;
    first_token_time = none;
    finished_time = none;
    preemption_count = 0;
    kv_reclaim_events = 0;
    kv_reclaimed_blocks = 0;
    kv_retained_blocks = 0;
    kv_invalidated_tokens = 0;
    kv_recomputed_tokens = 0;
    pending_preemption_recompute_tokens = 0;
    kv_compressed = false;
    kv_compression_events = 0;
    kv_compression_dropped_blocks = 0;
    kv_compression_dropped_tokens = 0;
    last_budget_ms = none;
    remote_restore_attempted = false;
    remote_restore_started_time = none;
    remote_restore_completed_time = none;
    remote_restore_wait_ms = zero_ms;
    remote_restored_tokens = 0;
    remote_restore_failures = 0;
    remote_restore_error = none;
  })

-- `token_ids[i*block_size : (i+1)*block_size]`
unfoldable pub slice_block : ℕ → List ℕ → ℕ → List ℕ
slice_block size tokens i = take size (drop (i * size) tokens)

module _ {F : Type 0} where
  abbrev pub is_terminal : Sequence F → Bool
  is_terminal s = elim s.status [
    | SequenceStatus.finished ↦ true
    | SequenceStatus.cancelled ↦ true
    | _ ↦ false
  ]

  -- `num_tokens` never falls below `num_prompt_tokens` (`IsWellFormed`), so no difference is cut.
  abbrev pub num_completion_tokens : Sequence F → ℕ
  num_completion_tokens s = s.num_tokens - s.num_prompt_tokens

  abbrev pub prompt_token_ids : Sequence F → List ℕ
  prompt_token_ids s = take s.num_prompt_tokens s.token_ids

  abbrev pub completion_token_ids : Sequence F → List ℕ
  completion_token_ids s = drop s.num_prompt_tokens s.token_ids

  abbrev pub num_blocks : Sequence F → ℕ
  num_blocks s = (s.num_tokens + s.block_size - 1) / s.block_size

  abbrev pub last_block_num_tokens : Sequence F → ℤ
  last_block_num_tokens s = sub_ℕ (s.num_tokens + s.block_size) (num_blocks s * s.block_size)

  abbrev pub attention_context_tokens : Sequence F → ℕ
  attention_context_tokens s = s.num_physical_cached_tokens + 1

  unfoldable pub block : Sequence F → ℕ → Result (List ℕ)
  block s i = do
    guard (ltb i (num_blocks s)) Error.assertion_error
    ok (slice_block s.block_size s.token_ids i)

  unfoldable pub mark_arrived : Sequence F → ℕ → F → Sequence F
  mark_arrived s step now = record s {
    arrival_step = step;
    arrival_time = elim s.arrival_time [ none ↦ some now | some t ↦ some t ];
  }

  unfoldable pub mark_scheduled : Sequence F → F → Sequence F
  mark_scheduled s now = record s {
    first_scheduled_time = elim s.first_scheduled_time [ none ↦ some now | some t ↦ some t ];
  }

  -- `now` stands for the argument, or for the clock where the caller gives none.
  unfoldable pub append_token : Sequence F → ℕ → F → Sequence F
  append_token s token_id now = record s {
    token_ids = s.token_ids ++ token_id ∷ [];
    last_token = token_id;
    num_tokens = s.num_tokens + 1;
    first_token_time = elim s.first_token_time [ none ↦ some now | some t ↦ some t ];
  }

  unfoldable pub mark_finished : Sequence F → F → Sequence F
  mark_finished s now = record s { finished_time = some now }

  unfoldable pub record_kv_reclaim : Sequence F → ℕ → ℕ → ℕ → Sequence F
  record_kv_reclaim s reclaimed_blocks retained_blocks invalidated_tokens = record s {
    kv_reclaim_events = s.kv_reclaim_events + 1;
    kv_reclaimed_blocks = s.kv_reclaimed_blocks + reclaimed_blocks;
    kv_retained_blocks = s.kv_retained_blocks + retained_blocks;
    kv_invalidated_tokens = s.kv_invalidated_tokens + invalidated_tokens;
    pending_preemption_recompute_tokens =
        s.pending_preemption_recompute_tokens + invalidated_tokens;
  }

  unfoldable pub record_recomputed_tokens : Sequence F → ℕ → Sequence F
  record_recomputed_tokens s scheduled_tokens =
      let recomputed = min scheduled_tokens s.pending_preemption_recompute_tokens in
      record s {
        kv_recomputed_tokens = s.kv_recomputed_tokens + recomputed;
        pending_preemption_recompute_tokens = s.pending_preemption_recompute_tokens - recomputed;
      }

  -- `max(0, pending - reused)` is the difference on ℕ.
  unfoldable pub record_reused_tokens : Sequence F → ℕ → Sequence F
  record_reused_tokens s reused_tokens = record s {
    pending_preemption_recompute_tokens = s.pending_preemption_recompute_tokens - reused_tokens;
  }

  unfoldable pub record_kv_compression : Sequence F → ℕ → ℕ → Sequence F
  record_kv_compression s dropped_blocks dropped_tokens = record s {
    kv_compressed = true;
    kv_compression_events = s.kv_compression_events + 1;
    kv_compression_dropped_blocks = s.kv_compression_dropped_blocks + dropped_blocks;
    kv_compression_dropped_tokens = s.kv_compression_dropped_tokens + dropped_tokens;
  }

  unfoldable pub cancel : Sequence F → F → Sequence F
  cancel s now =
      if is_terminal s
      then s
      else record s { status = SequenceStatus.cancelled; finished_time = some now }
