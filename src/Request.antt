-- ===== src/Request.antt =====
-- nanovllm/engine/qos.py: the service objectives of a request, and the metrics of a finished one.
use Prim.Native.String.{String}
use nano_vllm_qos.Prelude.{
  ℕ, Bool, true, false, Option, none, some, Result, Error, guard, ◌>>◌, not,
}
use nano_vllm_qos.Prelude.Int.{ℤ, pos, ltb_ℤ}
use nano_vllm_qos.Scalar.{Scalar, lt}

pub record RequestQoS (F : Type 0) : Type 0 where
  pub priority : ℤ
  pub ttft_slo_ms : Option F
  pub tpot_slo_ms : Option F
  pub e2e_slo_ms : Option F
  pub request_class : String

-- `x is not None and x <= 0`, negated
abbrev pub positive_or_none : (S : Scalar) → Option S.F → Bool
positive_or_none S none = true
positive_or_none S (some x) = lt S (S.of_ℕ 0) x

abbrev pub nonempty : String → Bool
nonempty String.[] = false
nonempty (String.◌∷◌ c s) = true

-- `RequestQoS.__post_init__`
unfoldable pub check_qos : (S : Scalar) → RequestQoS S.F → Result (Unit {0})
check_qos S q = do
  guard (not (ltb_ℤ q.priority (pos 0))) Error.value_error
  guard (positive_or_none S q.ttft_slo_ms) Error.value_error
  guard (positive_or_none S q.tpot_slo_ms) Error.value_error
  guard (positive_or_none S q.e2e_slo_ms) Error.value_error
  guard (nonempty q.request_class) Error.value_error

pub record RequestMetrics (F : Type 0) : Type 0 where
  pub seq_id : ℕ
  pub request_class : String
  pub priority : ℤ
  pub prompt_tokens : ℕ
  pub completion_tokens : ℕ
  pub queue_ms : F
  pub ttft_ms : F
  pub tpot_ms : Option F
  pub e2e_ms : F
  pub preemptions : ℕ
  pub kv_reclaim_events : ℕ
  pub kv_reclaimed_blocks : ℕ
  pub kv_retained_blocks : ℕ
  pub kv_invalidated_tokens : ℕ
  pub kv_recomputed_tokens : ℕ
  pub kv_compression_events : ℕ
  pub kv_compression_dropped_blocks : ℕ
  pub kv_compression_dropped_tokens : ℕ
  pub kv_restore_wait_ms : F
  pub kv_restored_tokens : ℕ
  pub kv_restore_failures : ℕ
  pub ttft_slo_ms : Option F
  pub tpot_slo_ms : Option F
  pub e2e_slo_ms : Option F
  pub ttft_slo_met : Option Bool
  pub tpot_slo_met : Option Bool
  pub e2e_slo_met : Option Bool
