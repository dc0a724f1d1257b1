-- ===== src/Tests/Planning.antt =====
-- The transfer planner, the flight recorder, the catalog's records and the options at concrete inputs.
use nano_vllm_qos.Prelude.{ℕ, ◌≡◌, refl, true, Option, none, some, List, [], ◌∷◌, ok, arith, leb}
use nano_vllm_qos.Scalar.{whole, whole_order}
use nano_vllm_qos.Planner.{
  CacheTier, gpu, cpu, mooncake, KvTransferPlanner, KvAccessPlan, plan_access, recompute_plan,
}
use nano_vllm_qos.Planner.Best.{IsComplete, plan_access_lem}
use nano_vllm_qos.Catalog.{
  CatalogPageRecord, CatalogPrefixRecord, check_prefix, fits_uint32, check_prefix_lem,
}
use nano_vllm_qos.Catalog
use nano_vllm_qos.Planner
use nano_vllm_qos.Policy.Select
use nano_vllm_qos.Policy.{check_estimator}
use nano_vllm_qos.Planner.{check_profile}
use nano_vllm_qos.Reclaim.{KvReclaimPolicy, make_ratios}
use nano_vllm_qos.Config
use nano_vllm_qos.Config.{Config, Choice, post_init, estimator_of, profile_of, post_init_lem}
use nano_vllm_qos.Trace.{
  SchedulerTrace, start, record_event, IsBounded, HasRoom, start-IsBounded, record_event-IsBounded,
}

abbrev planner : KvTransferPlanner ℕ
planner = record {
  geometry = record { num_layers = 2; num_kv_heads = 2; head_dim = 4; dtype_bytes = 2 };
  tier_profiles =
      λ tier. some (record { bandwidth_gbps = 1; fixed_latency_ms = 3; congestion_multiplier = 1 });
}

abbrev tiers : List (CacheTier × ℕ)
tiers = (gpu, 4) ∷ (cpu, 6) ∷ (mooncake, 8) ∷ []

-- The transfer from the remote store covers most, and wins.
plan_tiers :
    (p : KvAccessPlan ℕ) × (plan_access whole planner 9 4 tiers 5 ≡ ok p)
    × (p.restored_tokens ≡ 4)
    × (p.recomputed_tokens ≡ 1)
unfolding plan_access nano_vllm_qos.Planner.candidates nano_vllm_qos.Planner.candidate
    nano_vllm_qos.Policy.Select.select_min nano_vllm_qos.Planner.plan_lt recompute_plan
    nano_vllm_qos.Planner.restore_plan nano_vllm_qos.Planner.transfer_time_ms
plan_tiers = (_, refl, refl, refl)

plan_access_lem_example :
    (p : KvAccessPlan ℕ) × (plan_access whole planner 9 4 tiers 5 ≡ ok p)
    × IsComplete (planner.geometry) 9 4 p
    × (leb p.total_ms ((recompute_plan whole 9 4 5).total_ms) ≡ true)
plan_access_lem_example =
    plan_access_lem whole whole_order planner 9 4 tiers 5 (omega arith) refl
      (omega arith, (omega arith, (omega arith, tt)))

-- Every event takes as many bytes as it says.
abbrev event_size : ℕ → Option ℕ
event_size n = some n

abbrev recorder : SchedulerTrace ℕ
recorder = start 10 2 1 3 100

record_event-IsBounded_example :
    let t' = record_event event_size recorder 7 true true in
    IsBounded event_size 10 t' × HasRoom event_size t'
unfolding start
record_event-IsBounded_example =
    record_event-IsBounded event_size recorder 7 true true
      (start-IsBounded event_size 10 2 1 3 100 (omega arith)) (omega arith)

-- A prefix of two blocks of two tokens.
abbrev page : ℕ → CatalogPageRecord
page i = record { object_key = "k"; identity_digest = "d"; tp_rank = 0; page_index = i }

abbrev prefix_record : CatalogPrefixRecord
prefix_record = record {
  block_keys = (3 ∷ 4 ∷ []) ∷ (5 ∷ 6 ∷ []) ∷ [];
  pages = page 0 ∷ page 1 ∷ [];
}

prefix_accepted : check_prefix prefix_record ≡ ok tt
unfolding check_prefix nano_vllm_qos.Catalog.check_pages
prefix_accepted = refl

abbrev config : Config ℕ
config = record {
  max_num_active_seqs = none;
  max_model_len = 40960;
  requested_max_model_len = 0;
  tensor_parallel_size = 1;
  kvcache_block_size = 256;
  num_kvcache_blocks_override = none;
  prefix_cache_backend = Choice.hash;
  scheduling_policy = Choice.fcfs;
  metrics_summary_mode = Choice.cached;
  qos_best_effort_slo_ms = 60000;
  qos_priority_boost_ms = 50;
  qos_aging_ms_per_step = 1;
  qos_prefill_ms_per_token = 1;
  qos_decode_ms_per_token = 5;
  qos_ewma_alpha = 1;
  kv_reclaim_policy = Choice.slo_aware;
  kv_reclaim_min_keep_ratio = 0;
  kv_reclaim_max_keep_ratio = 1;
  kv_reclaim_budget_scale_ms = 1000;
  kv_reclaim_target_free_blocks = 2;
  kv_compression_policy = Choice.no_compression;
  kv_compression_sink_blocks = 1;
  kv_compression_recent_blocks = 8;
  kv_compression_importance_blocks = 2;
  kv_compression_query_tokens = 64;
  kv_compression_trigger_free_ratio = 0;
  kv_cache_model_revision = "local";
  remote_kv_bandwidth_gbps = 12;
  remote_kv_fixed_latency_ms = 1;
  remote_kv_congestion_multiplier = 1;
  remote_kv_min_prefix_blocks = 1;
  remote_kv_catalog_timeout_s = 10;
}

abbrev accepted_config : Config ℕ
accepted_config = record config { requested_max_model_len = 40960; max_model_len = 32768 }

config_accepted : post_init whole config true 32768 ≡ ok accepted_config
unfolding post_init nano_vllm_qos.Config.check_engine nano_vllm_qos.Config.check_objectives
    nano_vllm_qos.Config.check_reclaim nano_vllm_qos.Config.check_remote
config_accepted = refl

post_init_lem_example :
    (check_estimator whole (estimator_of whole accepted_config) ≡ ok tt)
    × (check_profile whole (profile_of whole accepted_config) ≡ ok tt)
    × ((p : KvReclaimPolicy ℕ) × (make_ratios whole 0 1 1000 ≡ ok p))
post_init_lem_example = post_init_lem whole config true 32768 accepted_config config_accepted
