-- ===== src/Reclaim.antt =====
-- nanovllm/engine/kv_reclaim.py: how much KV a preempted request keeps.
use nano_vllm_qos.Prelude.{
  ℕ, ◌+◌, ◌-◌, ◌*◌, ◌/◌, ◌≤◌, ◌<◌, ◌≡◌, min, not, ◌&&◌, Option, none, some, Result, ok, err, Error,
  guard, ◌>>◌, arith, if◌then◌else◌, length,
}
use nano_vllm_qos.Prelude.Int.{ℤ, pos, pos_part, ltb_ℤ}
use nano_vllm_qos.Scalar.{Scalar}
use nano_vllm_qos.Sequence.{Sequence}

pub data PolicyName : Type 0 where
  recompute slo_aware : PolicyName

pub record KvReclaimDecision (F : Type 0) : Type 0 where
  pub policy : PolicyName
  pub budget_ms : Option F
  pub urgency : F
  pub owned_blocks : ℕ
  pub cached_blocks : ℕ
  pub keep_blocks : ℕ
  pub reclaim_blocks : ℕ
  pub invalidated_tokens : ℕ

pub record Ratios (F : Type 0) : Type 0 where
  pub min_keep_ratio : F
  pub max_keep_ratio : F
  pub budget_scale_ms : F

-- `KVReclaimPolicy` and its subclass `SLOAwareKVReclaimPolicy`
pub data KvReclaimPolicy (F : Type 0) : Type 0 where
  recompute_all : KvReclaimPolicy F
  by_slo : Ratios F → KvReclaimPolicy F

whole_blocks : (k n size : ℕ) → 0 < size → k ≤ n / size → k * size ≤ n
whole_blocks k n size h e = grind arith

module _ {F : Type 0} where
  -- `_decision`. The wish may be negative; `max(0, min(...))` cuts it.
  unfoldable pub decision : PolicyName → Sequence F → Option F → F → ℕ → ℤ → KvReclaimDecision F
  decision name s budget_ms urgency cached_blocks wish =
      let owned = length s.block_table in
      let keep = min (pos_part wish) (min cached_blocks owned) in
      record {
        policy = name;
        budget_ms = budget_ms;
        urgency = urgency;
        owned_blocks = owned;
        cached_blocks = cached_blocks;
        keep_blocks = keep;
        reclaim_blocks = owned - keep;
        invalidated_tokens = s.num_cached_tokens - keep * s.block_size;
      }

  decision_sound :
      (name : PolicyName) (s : Sequence F) (budget_ms : Option F) (urgency : F) (wish : ℤ)
      → 0 < s.block_size
      → let d = decision name s budget_ms urgency (s.num_cached_tokens / s.block_size) wish in
        (d.keep_blocks ≤ length s.block_table)
        × (d.keep_blocks * s.block_size ≤ s.num_cached_tokens)
        × (d.keep_blocks + d.reclaim_blocks ≡ length s.block_table)
        × (d.keep_blocks * s.block_size + d.invalidated_tokens ≡ s.num_cached_tokens)
        × (d.keep_blocks ≤ pos_part wish)
  unfolding decision
  decision_sound name s budget_ms urgency wish h =
      let keep =
        min (pos_part wish) (min (s.num_cached_tokens / s.block_size) (length s.block_table)) in
      let fits = whole_blocks keep s.num_cached_tokens s.block_size h (omega arith) in
      (omega arith, fits, omega arith, omega (arith, fits), omega arith)

-- min of two integers, the second not negative
abbrev pub min_ℤ : ℤ → ℕ → ℤ
min_ℤ a b = if ltb_ℤ (pos b) a then pos b else a

min_ℤ-le : (a : ℤ) (b : ℕ) → pos_part (min_ℤ a b) ≤ b
min_ℤ-le a b = ground arith

module _ (S : Scalar) where
  -- `SLOAwareKVReclaimPolicy.__init__`
  unfoldable pub make_ratios : S.F → S.F → S.F → Result (KvReclaimPolicy S.F)
  make_ratios min_keep max_keep scale = do
    guard (S.le (S.of_ℕ 0) min_keep && (S.le min_keep max_keep && S.le max_keep (S.of_ℕ 1)))
        Error.value_error
    guard (not (S.le scale (S.of_ℕ 0))) Error.value_error
    ok (
        by_slo (record {
          min_keep_ratio = min_keep;
          max_keep_ratio = max_keep;
          budget_scale_ms = scale;
        }))

  -- `create_kv_reclaim_policy`; `none` is an unknown name.
  unfoldable pub create_kv_reclaim_policy :
      Option PolicyName → S.F → S.F → S.F → Result (KvReclaimPolicy S.F)
  unfolding make_ratios
  create_kv_reclaim_policy none min_keep max_keep scale = err Error.value_error
  create_kv_reclaim_policy (some recompute) min_keep max_keep scale = ok recompute_all
  create_kv_reclaim_policy (some slo_aware) min_keep max_keep scale =
      make_ratios min_keep max_keep scale

  urgency_of : Ratios S.F → Option S.F → S.F
  urgency_of r none = S.of_ℕ 0
  urgency_of r (some budget) =
      if S.le budget (S.of_ℕ 0)
      then S.of_ℕ 1
      else S.div (S.of_ℕ 1) (S.add (S.of_ℕ 1) (S.div budget r.budget_scale_ms))

  abbrev slo_plan : Ratios S.F → Sequence S.F → Option S.F → ℕ → KvReclaimDecision S.F
  slo_plan r s budget_ms min_reclaim_blocks =
      let cached = s.num_cached_tokens / s.block_size in
      let urgency = urgency_of r budget_ms in
      let keep_ratio =
        S.add r.min_keep_ratio (S.mul (S.sub r.max_keep_ratio r.min_keep_ratio) urgency) in
      let desired_keep = S.floor (S.mul (S.of_ℕ cached) keep_ratio) in
      let max_keep = length s.block_table - min_reclaim_blocks in
      decision PolicyName.slo_aware s budget_ms urgency cached (min_ℤ desired_keep max_keep)

  unfoldable pub plan : KvReclaimPolicy S.F → Sequence S.F → Option S.F → ℕ → KvReclaimDecision S.F
  unfolding urgency_of
  plan recompute_all s budget_ms min_reclaim_blocks =
      decision PolicyName.recompute s budget_ms (S.of_ℕ 0) (s.num_cached_tokens / s.block_size)
        (pos 0)
  plan (by_slo r) s budget_ms min_reclaim_blocks = slo_plan r s budget_ms min_reclaim_blocks

  -- Both policies plan what `reclaim_suffix` accepts: the kept prefix lies within the table and
  -- within the computed tokens, and the numbers of the decision add up. The SLO-aware policy, asked
  -- for no more than the table holds, gives up at least `min_reclaim` blocks, for every budget and
  -- every value that the float arithmetic may take; so does the recompute policy.
  pub plan_sound :
      (p : KvReclaimPolicy S.F) (s : Sequence S.F) (budget_ms : Option S.F) (min_reclaim : ℕ)
      → 0 < s.block_size
      → let d = plan p s budget_ms min_reclaim in
        (d.keep_blocks ≤ length s.block_table)
        × (d.keep_blocks * s.block_size ≤ s.num_cached_tokens)
        × (d.keep_blocks + d.reclaim_blocks ≡ length s.block_table)
        × (d.keep_blocks * s.block_size + d.invalidated_tokens ≡ s.num_cached_tokens)
        × (min_reclaim ≤ length s.block_table → min_reclaim ≤ d.reclaim_blocks)
  unfolding plan decision
  plan_sound recompute_all s budget_ms min_reclaim h =
      let (within, computed, blocks, tokens, _) =
        decision_sound PolicyName.recompute s budget_ms (S.of_ℕ 0) (pos 0) h in
      (within, computed, blocks, tokens, λ k. omega arith)
  plan_sound (by_slo r) s budget_ms min_reclaim h =
      let urgency = urgency_of r budget_ms in
      let wish =
        min_ℤ
          (S.floor (
            S.mul (S.of_ℕ (s.num_cached_tokens / s.block_size))
              (S.add r.min_keep_ratio (S.mul (S.sub r.max_keep_ratio r.min_keep_ratio) urgency))))
          (length s.block_table - min_reclaim) in
      let (within, computed, blocks, tokens, wished) =
        decision_sound PolicyName.slo_aware s budget_ms urgency wish h in
      (
        within,
        computed,
        blocks,
        tokens,
        λ k. omega (
          arith,
          wished,
          blocks,
          min_ℤ-le
              (S.floor (
                S.mul (S.of_ℕ (s.num_cached_tokens / s.block_size)) (
                  S.add r.min_keep_ratio
                    (S.mul (S.sub r.max_keep_ratio r.min_keep_ratio) urgency))))
              (length s.block_table - min_reclaim),
        ),
      )
