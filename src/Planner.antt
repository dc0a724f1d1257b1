-- ===== src/Planner.antt =====
-- nanovllm/engine/hierarchical_cache.py: the plan by which a request gets the KV of its prefix, from
-- the device, by a transfer from another tier, or by recomputation. Token counts are natural numbers,
-- so the tests of the source for negative ones have no case here.
pub mod Best
use nano_vllm_qos.Prelude.{
  ℕ, ◌+◌, ◌-◌, ◌*◌, Bool, true, false, Option, none, some, List, [], ◌∷◌, Result, ok, Error, guard,
  ◌>>=◌, ◌>>◌, if◌then◌else◌, ltb, leb, ◌==◌, ◌&&◌, ◌||◌,
}
use nano_vllm_qos.Scalar.{Scalar, lt}
use nano_vllm_qos.Policy.Select.{select_min}

pub data CacheTier : Type 0 where
  gpu cpu mooncake : CacheTier

pub data Action : Type 0 where
  local recompute restore : Action

pub record KvCacheGeometry : Type 0 where
  pub num_layers : ℕ
  pub num_kv_heads : ℕ
  pub head_dim : ℕ
  pub dtype_bytes : ℕ

-- `KVCacheGeometry.__post_init__`
unfoldable pub check_geometry : KvCacheGeometry → Result (Unit {0})
check_geometry g =
    guard (ltb 0 g.num_layers && ltb 0 g.num_kv_heads && ltb 0 g.head_dim && ltb 0 g.dtype_bytes)
      Error.value_error

abbrev pub bytes_per_token : KvCacheGeometry → ℕ
bytes_per_token g = 2 * g.num_layers * g.num_kv_heads * g.head_dim * g.dtype_bytes

abbrev pub size_bytes : KvCacheGeometry → ℕ → ℕ
size_bytes g num_tokens = bytes_per_token g * num_tokens

pub record StorageTierProfile (F : Type 0) : Type 0 where
  pub bandwidth_gbps : F
  pub fixed_latency_ms : F
  pub congestion_multiplier : F

pub record KvAccessPlan (F : Type 0) : Type 0 where
  pub action : Action
  pub source_tier : CacheTier
  pub local_cached_tokens : ℕ
  pub source_cached_tokens : ℕ
  pub restored_tokens : ℕ
  pub recomputed_tokens : ℕ
  pub transfer_bytes : ℕ
  pub transfer_ms : F
  pub recompute_ms : F
  pub total_ms : F

-- `tier_profiles.get` is a function.
pub record KvTransferPlanner (F : Type 0) : Type 0 where
  pub geometry : KvCacheGeometry
  pub tier_profiles : CacheTier → Option (StorageTierProfile F)

abbrev pub is_gpu : CacheTier → Bool
is_gpu gpu = true
is_gpu cpu = false
is_gpu mooncake = false

module _ (S : Scalar) where
  -- `StorageTierProfile.__post_init__`
  unfoldable pub check_profile : StorageTierProfile S.F → Result (Unit {0})
  check_profile p = do
    guard (lt S (S.of_ℕ 0) p.bandwidth_gbps) Error.value_error
    guard (S.le (S.of_ℕ 0) p.fixed_latency_ms) Error.value_error
    guard (S.le (S.of_ℕ 1) p.congestion_multiplier) Error.value_error

  unfoldable pub transfer_time_ms : StorageTierProfile S.F → ℕ → S.F
  transfer_time_ms p bytes =
      let wire_ms =
        S.mul (S.div (S.of_ℕ bytes) (S.mul p.bandwidth_gbps (S.of_ℕ 1000000000))) (S.of_ℕ 1000) in
      S.add p.fixed_latency_ms (S.mul wire_ms p.congestion_multiplier)

  unfoldable pub recompute_plan : ℕ → ℕ → S.F → KvAccessPlan S.F
  recompute_plan total_tokens local_cached_tokens prefill_ms_per_token =
      let recomputed_tokens = total_tokens - local_cached_tokens in
      let recompute_ms = S.mul (S.of_ℕ recomputed_tokens) prefill_ms_per_token in
      record {
        action = if recomputed_tokens == 0 then local else recompute;
        source_tier = gpu;
        local_cached_tokens = local_cached_tokens;
        source_cached_tokens = local_cached_tokens;
        restored_tokens = 0;
        recomputed_tokens = recomputed_tokens;
        transfer_bytes = 0;
        transfer_ms = S.of_ℕ 0;
        recompute_ms = recompute_ms;
        total_ms = recompute_ms;
      }

  -- The plan that restores from a tier.
  unfoldable pub restore_plan :
      KvCacheGeometry → StorageTierProfile S.F → CacheTier → ℕ → ℕ → ℕ → S.F → KvAccessPlan S.F
  restore_plan g profile tier source_cached_tokens total_tokens local_cached_tokens prefill =
      let restored_tokens = source_cached_tokens - local_cached_tokens in
      let transfer_bytes = size_bytes g restored_tokens in
      let transfer_ms = transfer_time_ms profile transfer_bytes in
      let recomputed_tokens = total_tokens - source_cached_tokens in
      let recompute_ms = S.mul (S.of_ℕ recomputed_tokens) prefill in
      record {
        action = restore;
        source_tier = tier;
        local_cached_tokens = local_cached_tokens;
        source_cached_tokens = source_cached_tokens;
        restored_tokens = restored_tokens;
        recomputed_tokens = recomputed_tokens;
        transfer_bytes = transfer_bytes;
        transfer_ms = transfer_ms;
        recompute_ms = recompute_ms;
        total_ms = S.add transfer_ms recompute_ms;
      }

  -- The plans that one entry of `cached_tokens_by_tier` adds.
  unfoldable pub candidate :
      KvTransferPlanner S.F → ℕ → ℕ → S.F → CacheTier → ℕ → Result (List (KvAccessPlan S.F))
  candidate q total_tokens local_cached_tokens prefill tier source_cached_tokens =
      if is_gpu tier || leb source_cached_tokens local_cached_tokens then ok [] else (do
        guard (leb source_cached_tokens total_tokens) Error.value_error
        elim (q.tier_profiles tier) [
          | none ↦ ok []
          | some profile ↦ ok (
              restore_plan q.geometry profile tier source_cached_tokens total_tokens
                local_cached_tokens prefill
              ∷ [])
        ])

  abbrev pub with_candidate :
      List (KvAccessPlan S.F) → List (KvAccessPlan S.F) → List (KvAccessPlan S.F)
  with_candidate [] rest = rest
  with_candidate (p ∷ ps) rest = p ∷ rest

  unfoldable pub candidates :
      KvTransferPlanner S.F → ℕ → ℕ → S.F → List (CacheTier × ℕ) → Result (List (KvAccessPlan S.F))
  candidates q total_tokens local_cached_tokens prefill [] = ok []
  candidates q total_tokens local_cached_tokens prefill ((tier, source) ∷ tiers) = do
    here ← candidate q total_tokens local_cached_tokens prefill tier source
    rest ← candidates q total_tokens local_cached_tokens prefill tiers
    ok (with_candidate here rest)

  -- `<` of `(total_ms, transfer_bytes, -source_cached_tokens)`
  unfoldable pub plan_lt : KvAccessPlan S.F → KvAccessPlan S.F → Bool
  plan_lt a b =
      if S.le b.total_ms a.total_ms
      then S.le a.total_ms b.total_ms
        && (ltb a.transfer_bytes b.transfer_bytes
            || a.transfer_bytes == b.transfer_bytes
              && ltb b.source_cached_tokens a.source_cached_tokens)
      else true

  unfoldable pub plan_access :
      KvTransferPlanner S.F → ℕ → ℕ → List (CacheTier × ℕ) → S.F → Result (KvAccessPlan S.F)
  plan_access q total_tokens local_cached_tokens cached_tokens_by_tier prefill = do
    guard (leb local_cached_tokens total_tokens) Error.value_error
    guard (lt S (S.of_ℕ 0) prefill) Error.value_error
    rest ← candidates q total_tokens local_cached_tokens prefill cached_tokens_by_tier
    ok (select_min plan_lt (recompute_plan total_tokens local_cached_tokens prefill) rest)
