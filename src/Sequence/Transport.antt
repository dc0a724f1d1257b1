-- ===== src/Sequence/Transport.antt =====
-- nanovllm/engine/sequence.py: `__getstate__` and `__setstate__`, by which a request reaches the
-- tensor-parallel workers. A prefill step carries all tokens, a decode step the last one alone.
use nano_vllm_qos.Prelude.{ℕ, Bool, List, [], Result, ok, Error, or_raise, ◌>>=◌, if◌then◌else◌}
use nano_vllm_qos.Sequence.{Sequence, last}

pub data LastState : Type 0 where
  tokens : List ℕ → LastState
  token : ℕ → LastState

pub record WireState : Type 0 where
  pub num_tokens : ℕ
  pub num_prompt_tokens : ℕ
  pub num_cached_tokens : ℕ
  pub num_physical_cached_tokens : ℕ
  pub num_scheduled_tokens : ℕ
  pub block_table : List ℕ
  pub kv_block_logical_indices : List ℕ
  pub kv_compressed : Bool
  pub last_state : LastState

-- What `__setstate__` sets on the blank object of the other process.
pub record WireSequence : Type 0 where
  pub num_tokens : ℕ
  pub num_prompt_tokens : ℕ
  pub num_cached_tokens : ℕ
  pub num_physical_cached_tokens : ℕ
  pub num_scheduled_tokens : ℕ
  pub block_table : List ℕ
  pub kv_block_logical_indices : List ℕ
  pub kv_compressed : Bool
  pub token_ids : List ℕ
  pub last_token : ℕ

unfoldable pub get_state : {F : Type 0} → Sequence F → WireState
get_state s = record {
  num_tokens = s.num_tokens;
  num_prompt_tokens = s.num_prompt_tokens;
  num_cached_tokens = s.num_cached_tokens;
  num_physical_cached_tokens = s.num_physical_cached_tokens;
  num_scheduled_tokens = s.num_scheduled_tokens;
  block_table = s.block_table;
  kv_block_logical_indices = s.kv_block_logical_indices;
  kv_compressed = s.kv_compressed;
  last_state = if s.is_prefill then LastState.tokens s.token_ids else LastState.token s.last_token;
}

-- The object with the given tokens, the other fields from the state.
wire : WireState → List ℕ → ℕ → WireSequence
wire w token_ids last_token = record {
  num_tokens = w.num_tokens;
  num_prompt_tokens = w.num_prompt_tokens;
  num_cached_tokens = w.num_cached_tokens;
  num_physical_cached_tokens = w.num_physical_cached_tokens;
  num_scheduled_tokens = w.num_scheduled_tokens;
  block_table = w.block_table;
  kv_block_logical_indices = w.kv_block_logical_indices;
  kv_compressed = w.kv_compressed;
  token_ids = token_ids;
  last_token = last_token;
}

unfoldable pub set_state : WireState → Result WireSequence
unfolding wire
set_state w = elim w.last_state [
  | LastState.tokens ts ↦ do t ← or_raise (last ts) Error.index_error; ok (wire w ts t)
  | LastState.token t ↦ ok (wire w [] t)
]
