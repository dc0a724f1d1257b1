-- ===== src/Config.antt =====
-- nanovllm/config.py: the options that its constructor tests, with the names of the options that
-- choose a component as constructors. A Boolean option is not tested and not here.
use Prim.Native.String.{String}
use nano_vllm_qos.Prelude.{
  ℕ, ◌*◌, ◌%◌, ◌≡◌, min, Bool, true, false, ◌&&◌, Option, none, some, Result, ok, Error, guard,
  ◌>>◌, arith, ltb, leb, ◌==◌, subst,
}
use nano_vllm_qos.Scalar.{Scalar, lt}
use nano_vllm_qos.Request.{nonempty}
use nano_vllm_qos.Policy.{ExecutionTimeEstimator, check_estimator}
use nano_vllm_qos.Reclaim.{KvReclaimPolicy, by_slo, make_ratios}
use nano_vllm_qos.Planner.{StorageTierProfile, check_profile}

unfoldable pub effective_context_window : ℕ → ℕ → ℕ → Result ℕ
effective_context_window max_model_len num_blocks block_size = do
  guard (ltb 0 max_model_len && ltb 0 num_blocks && ltb 0 block_size) Error.value_error
  ok (min max_model_len (num_blocks * block_size))

pub data Choice : Type 0 where
  hash radix fcfs pals cached full recompute slo_aware no_compression sink_recent query_aware
        other :
      Choice

pub record Config (F : Type 0) : Type 0 where
  pub max_num_active_seqs : Option ℕ
  pub max_model_len : ℕ
  pub requested_max_model_len : ℕ
  pub tensor_parallel_size : ℕ
  pub kvcache_block_size : ℕ
  pub num_kvcache_blocks_override : Option ℕ
  pub prefix_cache_backend : Choice
  pub scheduling_policy : Choice
  pub metrics_summary_mode : Choice
  pub qos_best_effort_slo_ms : F
  pub qos_priority_boost_ms : F
  pub qos_aging_ms_per_step : F
  pub qos_prefill_ms_per_token : F
  pub qos_decode_ms_per_token : F
  pub qos_ewma_alpha : F
  pub kv_reclaim_policy : Choice
  pub kv_reclaim_min_keep_ratio : F
  pub kv_reclaim_max_keep_ratio : F
  pub kv_reclaim_budget_scale_ms : F
  pub kv_reclaim_target_free_blocks : ℕ
  pub kv_compression_policy : Choice
  pub kv_compression_sink_blocks : ℕ
  pub kv_compression_recent_blocks : ℕ
  pub kv_compression_importance_blocks : ℕ
  pub kv_compression_query_tokens : ℕ
  pub kv_compression_trigger_free_ratio : F
  pub kv_cache_model_revision : String
  pub remote_kv_bandwidth_gbps : F
  pub remote_kv_fixed_latency_ms : F
  pub remote_kv_congestion_multiplier : F
  pub remote_kv_min_prefix_blocks : ℕ
  pub remote_kv_catalog_timeout_s : F

-- `x is None or x > 0`
abbrev pub none_or_positive : Option ℕ → Bool
none_or_positive none = true
none_or_positive (some n) = ltb 0 n

abbrev is_backend : Choice → Bool
is_backend c = elim c [ hash ↦ true | radix ↦ true | _ ↦ false ]

abbrev is_scheduling_policy : Choice → Bool
is_scheduling_policy c = elim c [ fcfs ↦ true | pals ↦ true | _ ↦ false ]

abbrev is_summary_mode : Choice → Bool
is_summary_mode c = elim c [ cached ↦ true | full ↦ true | _ ↦ false ]

abbrev is_reclaim_policy : Choice → Bool
is_reclaim_policy c = elim c [ recompute ↦ true | slo_aware ↦ true | _ ↦ false ]

abbrev is_compression_policy : Choice → Bool
is_compression_policy c = elim c [
  | no_compression ↦ true
  | sink_recent ↦ true
  | query_aware ↦ true
  | _ ↦ false
]

module _ (S : Scalar) where
  abbrev positive : S.F → Bool
  positive x = lt S (S.of_ℕ 0) x

  abbrev at_least : ℕ → S.F → Bool
  at_least n x = S.le (S.of_ℕ n) x

  -- The assertions on sizes and on the choice of components.
  unfoldable pub check_engine : Config S.F → Bool → Result (Unit {0})
  check_engine c model_is_dir = do
    guard model_is_dir Error.assertion_error
    guard (none_or_positive c.max_num_active_seqs) Error.assertion_error
    guard (c.kvcache_block_size % 256 == 0) Error.assertion_error
    guard (none_or_positive c.num_kvcache_blocks_override) Error.assertion_error
    guard (is_backend c.prefix_cache_backend) Error.assertion_error
    guard (leb 1 c.tensor_parallel_size && leb c.tensor_parallel_size 8) Error.assertion_error
    guard (is_scheduling_policy c.scheduling_policy) Error.assertion_error
    guard (is_summary_mode c.metrics_summary_mode) Error.assertion_error

  -- Those on the service objectives.
  unfoldable pub check_objectives : Config S.F → Result (Unit {0})
  check_objectives c = do
    guard (positive c.qos_best_effort_slo_ms) Error.assertion_error
    guard (at_least 0 c.qos_priority_boost_ms) Error.assertion_error
    guard (at_least 0 c.qos_aging_ms_per_step) Error.assertion_error
    guard (positive c.qos_prefill_ms_per_token) Error.assertion_error
    guard (positive c.qos_decode_ms_per_token) Error.assertion_error
    guard (positive c.qos_ewma_alpha && S.le c.qos_ewma_alpha (S.of_ℕ 1)) Error.assertion_error

  -- Those on reclaim and compression.
  unfoldable pub check_reclaim : Config S.F → Result (Unit {0})
  check_reclaim c = do
    guard (is_reclaim_policy c.kv_reclaim_policy) Error.assertion_error
    guard
        (at_least 0 c.kv_reclaim_min_keep_ratio
          && (S.le c.kv_reclaim_min_keep_ratio c.kv_reclaim_max_keep_ratio
              && S.le c.kv_reclaim_max_keep_ratio (S.of_ℕ 1)))
        Error.assertion_error
    guard (positive c.kv_reclaim_budget_scale_ms) Error.assertion_error
    guard (leb 1 c.kv_reclaim_target_free_blocks) Error.assertion_error
    guard (is_compression_policy c.kv_compression_policy) Error.assertion_error
    guard (leb 1 c.kv_compression_sink_blocks) Error.assertion_error
    guard (leb 1 c.kv_compression_recent_blocks) Error.assertion_error
    guard (leb 1 c.kv_compression_importance_blocks) Error.assertion_error
    guard (leb 1 c.kv_compression_query_tokens) Error.assertion_error
    guard
        (at_least 0 c.kv_compression_trigger_free_ratio
          && S.le c.kv_compression_trigger_free_ratio (S.of_ℕ 1))
        Error.assertion_error

  -- Those on the remote cache.
  unfoldable pub check_remote : Config S.F → Result (Unit {0})
  check_remote c = do
    guard (nonempty c.kv_cache_model_revision) Error.assertion_error
    guard (positive c.remote_kv_bandwidth_gbps) Error.assertion_error
    guard (at_least 0 c.remote_kv_fixed_latency_ms) Error.assertion_error
    guard (at_least 1 c.remote_kv_congestion_multiplier) Error.assertion_error
    guard (leb 1 c.remote_kv_min_prefix_blocks) Error.assertion_error
    guard (positive c.remote_kv_catalog_timeout_s) Error.assertion_error

  -- The lengths that the constructor sets.
  abbrev accepted : Config S.F → ℕ → Config S.F
  accepted c max_position_embeddings = record c {
    requested_max_model_len = c.max_model_len;
    max_model_len = min c.max_model_len max_position_embeddings;
  }

  -- `__post_init__`: the directory test and the model's own limit come from outside.
  unfoldable pub post_init : Config S.F → Bool → ℕ → Result (Config S.F)
  post_init c model_is_dir max_position_embeddings = do
    check_engine c model_is_dir
    check_objectives c
    check_reclaim c
    check_remote c
    ok (accepted c max_position_embeddings)

  abbrev pub estimator_of : Config S.F → ExecutionTimeEstimator S.F
  estimator_of c = record {
    prefill_ms_per_token = c.qos_prefill_ms_per_token;
    decode_ms_per_token = c.qos_decode_ms_per_token;
    alpha = c.qos_ewma_alpha;
  }

  abbrev pub profile_of : Config S.F → StorageTierProfile S.F
  profile_of c = record {
    bandwidth_gbps = c.remote_kv_bandwidth_gbps;
    fixed_latency_ms = c.remote_kv_fixed_latency_ms;
    congestion_multiplier = c.remote_kv_congestion_multiplier;
  }

  objectives_lem :
      (c : Config S.F) → check_objectives c ≡ ok tt → check_estimator S (estimator_of c) ≡ ok tt
  unfolding check_objectives check_estimator
  objectives_lem c h = ground arith

  remote_lem : (c : Config S.F) → check_remote c ≡ ok tt → check_profile S (profile_of c) ≡ ok tt
  unfolding check_remote check_profile
  remote_lem c h = ground arith

  reclaim_lem :
      (c : Config S.F)
      → check_reclaim c ≡ ok tt
      → (p : KvReclaimPolicy S.F) × (make_ratios S c.kv_reclaim_min_keep_ratio
            c.kv_reclaim_max_keep_ratio c.kv_reclaim_budget_scale_ms
          ≡ ok p)
  unfolding check_reclaim make_ratios
  reclaim_lem c h = (
    by_slo (record {
      min_keep_ratio = c.kv_reclaim_min_keep_ratio;
      max_keep_ratio = c.kv_reclaim_max_keep_ratio;
      budget_scale_ms = c.kv_reclaim_budget_scale_ms;
    }),
    ground arith,
  )

  -- With the options of an accepted configuration, the constructors of the components that read them
  -- do not raise: the execution time estimator, the reclaim policy and the profile of the remote tier.
  pub post_init_lem :
      (c : Config S.F) (model_is_dir : Bool) (n : ℕ) (d : Config S.F)
      → post_init c model_is_dir n ≡ ok d
      → (check_estimator S (estimator_of d) ≡ ok tt)
        × (check_profile S (profile_of d) ≡ ok tt)
        × ((p : KvReclaimPolicy S.F) × (make_ratios S d.kv_reclaim_min_keep_ratio
                d.kv_reclaim_max_keep_ratio d.kv_reclaim_budget_scale_ms
              ≡ ok p))
  unfolding post_init
  post_init_lem c model_is_dir n d h =
      let objectives : check_objectives c ≡ ok tt = ground arith in
      let reclaim : check_reclaim c ≡ ok tt = ground arith in
      let remote : check_remote c ≡ ok tt = ground arith in
      let same : accepted c n ≡ d = ground arith in
      subst
        (λ d.
          (check_estimator S (estimator_of d) ≡ ok tt)
          × (check_profile S (profile_of d) ≡ ok tt)
          × ((p : KvReclaimPolicy S.F) × (make_ratios S d.kv_reclaim_min_keep_ratio
                  d.kv_reclaim_max_keep_ratio d.kv_reclaim_budget_scale_ms
                ≡ ok p)))
        same (objectives_lem c objectives, remote_lem c remote, reclaim_lem c reclaim)
