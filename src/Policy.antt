-- ===== src/Policy.antt =====
-- nanovllm/engine/qos.py: the estimates of execution time and the two scheduling policies.
pub mod Select
use nano_vllm_qos.Prelude.{
  ℕ, zero, suc, ◌+◌, ◌-◌, ◌*◌, ◌/◌, ◌%◌, ◌≤◌, ◌<◌, ◌≡◌, ◌≢◌, refl, min, max, Bool, true, false, not,
  ◌||◌, ◌&&◌, Option, none, some, List, [], ◌∷◌, ◌++◌, Result, ok, err, Error, guard, or_raise,
  ◌>>=◌, ◌>>◌, arith, if◌then◌else◌, ◌==◌, ltb, leb, length, get_elem?, elem, erase, reverse, count,
  count-append, count-erase, length-erase, length-append, Option-cases, Bool-cases, ◌⊎◌, inl, inr,
  ◌∙◌, subst, take, drop, >>=-eq-ok, result_total, Result-cases, le→leb, lt→ltb, ap, sym, ==_iff,
  ap₂, count-reverse, length-reverse, append-nil, map,
}
use nano_vllm_qos.Prelude.Int.{ℤ, pos, negsuc}
use nano_vllm_qos.Scalar.{Scalar, lt, max_of}
use nano_vllm_qos.Sequence.{Sequence, num_completion_tokens}

pub record ExecutionTimeEstimator (F : Type 0) : Type 0 where
  pub prefill_ms_per_token : F
  pub decode_ms_per_token : F
  pub alpha : F

pub record Budgets (F : Type 0) : Type 0 where
  pub best_effort_slo_ms : F
  pub priority_boost_ms : F
  pub aging_ms_per_step : F

-- `FCFSPolicy`, and `PriorityAwareLatencyBudgetPolicy` with its estimator
pub data SchedulingPolicy (F : Type 0) : Type 0 where
  fcfs : SchedulingPolicy F
  pals : ExecutionTimeEstimator F → Budgets F → SchedulingPolicy F

-- The order of two requests by `(budget_ms, arrival_step, seq_id)`.
pub record Key (F : Type 0) : Type 0 where
  pub budget : F
  pub arrival_step : ℕ
  pub seq_id : ℕ

module _ (S : Scalar) where
  -- `<` of two tuples
  unfoldable pub key_lt : Key S.F → Key S.F → Bool
  key_lt a b =
      if S.le b.budget a.budget
      then S.le a.budget b.budget
        && (ltb a.arrival_step b.arrival_step
            || a.arrival_step == b.arrival_step && ltb a.seq_id b.seq_id)
      else true

  -- `ExecutionTimeEstimator.__post_init__`
  unfoldable pub check_estimator : ExecutionTimeEstimator S.F → Result (Unit {0})
  check_estimator e = do
    guard (lt S (S.of_ℕ 0) e.prefill_ms_per_token && lt S (S.of_ℕ 0) e.decode_ms_per_token)
        Error.value_error
    guard (lt S (S.of_ℕ 0) e.alpha && S.le e.alpha (S.of_ℕ 1)) Error.value_error

  -- `alpha * sample + (1.0 - alpha) * old`
  abbrev smooth : S.F → S.F → S.F → S.F
  smooth alpha sample old = S.add (S.mul alpha sample) (S.mul (S.sub (S.of_ℕ 1) alpha) old)

  unfoldable pub observe : ExecutionTimeEstimator S.F → Bool → ℕ → S.F → ExecutionTimeEstimator S.F
  observe e is_prefill num_tokens elapsed_ms =
      let sample = S.div elapsed_ms (S.of_ℕ num_tokens) in
      if num_tokens == 0 || S.le elapsed_ms (S.of_ℕ 0)
      then e
      else (if is_prefill
          then record e { prefill_ms_per_token = smooth e.alpha sample e.prefill_ms_per_token }
          else record e { decode_ms_per_token = smooth e.alpha sample e.decode_ms_per_token })

  unfoldable pub remaining_prefill_ms : ExecutionTimeEstimator S.F → Sequence S.F → S.F
  remaining_prefill_ms e s =
      S.mul (S.of_ℕ (s.num_tokens - s.num_cached_tokens)) e.prefill_ms_per_token

  unfoldable pub remaining_decode_ms : ExecutionTimeEstimator S.F → Sequence S.F → S.F
  remaining_decode_ms e s =
      S.mul (S.of_ℕ (s.max_tokens - num_completion_tokens s)) e.decode_ms_per_token

  -- `_remaining_to_finish_ms`
  unfoldable pub remaining_to_finish_ms : ExecutionTimeEstimator S.F → Sequence S.F → S.F
  unfolding remaining_prefill_ms
  remaining_to_finish_ms e s =
      let decode_tokens = s.max_tokens - num_completion_tokens s in
      if s.is_prefill
      then S.add (S.add (S.of_ℕ 0) (remaining_prefill_ms e s))
          (S.mul (S.of_ℕ (decode_tokens - 1)) e.decode_ms_per_token)
      else S.add (S.of_ℕ 0) (S.mul (S.of_ℕ decode_tokens) e.decode_ms_per_token)

  -- `min` of a non-empty list, the first of equal ones
  abbrev min_of : S.F → List S.F → S.F
  min_of best [] = best
  min_of best (x ∷ xs) = min_of (if S.le best x then best else x) xs

  -- The budget until the next token: for the first token, or for one after it.
  next_token_budget : ExecutionTimeEstimator S.F → Sequence S.F → S.F → S.F → Option S.F
  unfolding remaining_prefill_ms
  next_token_budget e s arrival_time elapsed_ms = elim s.first_token_time [
    | none ↦ elim s.qos.ttft_slo_ms [
      | none ↦ none
      | some slo ↦ some (S.sub (S.sub slo elapsed_ms) (remaining_prefill_ms e s))
    ]
    | some first ↦ elim s.qos.tpot_slo_ms [
      | none ↦ none
      | some slo ↦
          let actual_ttft_ms = S.mul (S.sub first arrival_time) (S.of_ℕ 1000) in
          let target = S.add actual_ttft_ms (S.mul (S.of_ℕ (num_completion_tokens s)) slo) in
          let remaining =
            if s.is_prefill then remaining_prefill_ms e s else e.decode_ms_per_token in
          some (S.sub (S.sub target elapsed_ms) remaining)
    ]
  ]

  end_to_end_budget : ExecutionTimeEstimator S.F → Sequence S.F → S.F → Option S.F
  unfolding remaining_to_finish_ms
  end_to_end_budget e s elapsed_ms = elim s.qos.e2e_slo_ms [
    | none ↦ none
    | some slo ↦ some (S.sub (S.sub slo elapsed_ms) (remaining_to_finish_ms e s))
  ]

  -- `_raw_budget_ms`
  unfoldable pub raw_budget_ms :
      ExecutionTimeEstimator S.F → Budgets S.F → Sequence S.F → S.F → S.F → S.F
  unfolding next_token_budget end_to_end_budget remaining_to_finish_ms
  raw_budget_ms e b s arrival_time elapsed_ms =
      elim (next_token_budget e s arrival_time elapsed_ms) [
        | none ↦ elim (end_to_end_budget e s elapsed_ms) [
          | none ↦ S.sub (S.sub b.best_effort_slo_ms elapsed_ms) (remaining_to_finish_ms e s)
          | some total ↦ total
        ]
        | some token ↦ elim (end_to_end_budget e s elapsed_ms) [
          | none ↦ token
          | some total ↦ min_of token (total ∷ [])
        ]
      ]

  -- A priority as a float; it is not negative (`check_qos`).
  abbrev of_priority : ℤ → S.F
  of_priority (pos n) = S.of_ℕ n
  of_priority (negsuc n) = S.sub (S.of_ℕ 0) (S.of_ℕ (suc n))

  -- `budget_ms`. The arrival time is set by `mark_arrived`; without one the source raises.
  unfoldable pub budget_ms :
      ExecutionTimeEstimator S.F → Budgets S.F → Sequence S.F → ℕ → S.F → Result S.F
  unfolding raw_budget_ms
  budget_ms e b s step now = do
    arrival_time ← or_raise s.arrival_time Error.runtime_error
    let elapsed_ms = max_of S (S.of_ℕ 0) (S.mul (S.sub now arrival_time) (S.of_ℕ 1000))
    let priority_credit = S.mul (of_priority s.qos.priority) b.priority_boost_ms
    let aging_credit = S.mul (S.of_ℕ (step - s.arrival_step)) b.aging_ms_per_step
    ok (S.sub (S.sub (raw_budget_ms e b s arrival_time elapsed_ms) priority_credit) aging_credit)

-- `create_policy`; `none` is an unknown name.
pub data PolicyKind : Type 0 where
  fcfs_kind pals_kind : PolicyKind

unfoldable pub create_policy :
    {F : Type 0}
    → Option PolicyKind
    → ExecutionTimeEstimator F
    → Budgets F
    → Result (SchedulingPolicy F)
create_policy none estimator config = err Error.value_error
create_policy (some fcfs_kind) estimator config = ok fcfs
create_policy (some pals_kind) estimator config = ok (pals estimator config)
