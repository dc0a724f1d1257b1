-- ===== src/Tests/Requests.antt =====
-- Requests, policies and admission at concrete inputs.
use nano_vllm_qos.Prelude.{
  ℕ, ◌+◌, ◌-◌, ◌*◌, ◌≤◌, ◌<◌, ◌≡◌, ◌≢◌, refl, none, some, List, [], ◌∷◌, ok, err, Error, ◌>>=◌,
  arith, get_elem?,
}
use nano_vllm_qos.Scalar.{whole, whole_order}
use nano_vllm_qos.Admission.{growth_pages, growth_pages_lem}
use nano_vllm_qos.Policy.{ExecutionTimeEstimator, Budgets, pals, budget_ms}
use nano_vllm_qos.Policy.Select.{All, Computes, NotAfter, select, select_lowest}
use nano_vllm_qos.Reclaim.{KvReclaimPolicy, by_slo, plan, plan_sound}
use nano_vllm_qos.Sequence.{
  Sequence, SequenceStatus, record_kv_reclaim, record_recomputed_tokens, record_reused_tokens,
}
use nano_vllm_qos.Sequence.Laws.{received, set_state-get_state, IsAccounted, record-IsAccounted}
use nano_vllm_qos.Sequence.Restore.{
  begin_remote_restore, finish_remote_restore, fail_remote_restore, status_of, restore_cycle,
}
use nano_vllm_qos.Sequence.Transport.{get_state, set_state}
use nano_vllm_qos.Tests.Data.{request, request-IsWellFormed}

set_state-get_state_example : set_state (get_state request) ≡ ok (received request)
set_state-get_state_example = set_state-get_state request request-IsWellFormed

record-IsAccounted_example :
    IsAccounted (record_kv_reclaim request 2 1 4)
    × IsAccounted (record_recomputed_tokens request 2)
    × IsAccounted (record_reused_tokens request 2)
record-IsAccounted_example = record-IsAccounted request 2 1 4 (omega arith)

restore_cycle_example :
    let begun = begin_remote_restore request 3 in
    let finished = begun >>= λ t. finish_remote_restore whole t 9 4 in
    let failed = begun >>= λ t. fail_remote_restore whole t 9 "TimeoutError: late" in
    (status_of whole begun ≡ some SequenceStatus.waiting_for_kv)
    × (status_of whole finished ≡ some SequenceStatus.waiting)
    × (status_of whole failed ≡ some SequenceStatus.waiting)
    × ((finished >>= λ u. finish_remote_restore whole u 9 4) ≡ err Error.runtime_error)
    × ((finished >>= λ u. fail_remote_restore whole u 9 "TimeoutError: late")
        ≡ err Error.runtime_error)
    × ((failed >>= λ v. finish_remote_restore whole v 9 4) ≡ err Error.runtime_error)
    × ((failed >>= λ v. fail_remote_restore whole v 9 "TimeoutError: late")
        ≡ err Error.runtime_error)
restore_cycle_example = restore_cycle whole request 3 9 4 "TimeoutError: late" refl (omega arith)

abbrev slo_policy : KvReclaimPolicy ℕ
slo_policy = by_slo (record { min_keep_ratio = 0; max_keep_ratio = 1; budget_scale_ms = 1000 })

abbrev preempted : Sequence ℕ
preempted = record request { block_table = 3 ∷ 1 ∷ 2 ∷ []; num_cached_tokens = 9 }

plan_sound_example :
    let d = plan whole slo_policy preempted none 1 in
    (d.keep_blocks ≤ 3)
    × (d.keep_blocks * 4 ≤ 9)
    × (d.keep_blocks + d.reclaim_blocks ≡ 3)
    × (d.keep_blocks * 4 + d.invalidated_tokens ≡ 9)
    × (1 ≤ 3 → 1 ≤ d.reclaim_blocks)
plan_sound_example = plan_sound whole slo_policy preempted none 1 (omega arith)

growth_pages_lem_example :
    (9 + 4 ≤ (3 + growth_pages 9 3 4 4) * 4)
    × (0 < growth_pages 9 3 4 4 → (3 + growth_pages 9 3 4 4 - 1) * 4 < 9 + 4)
growth_pages_lem_example = growth_pages_lem 9 3 4 4 (omega arith)

abbrev estimator : ExecutionTimeEstimator ℕ
estimator = record { prefill_ms_per_token = 1; decode_ms_per_token = 5; alpha = 1 }

abbrev budgets : Budgets ℕ
budgets = record { best_effort_slo_ms = 60000; priority_boost_ms = 50; aging_ms_per_step = 1 }

abbrev later_request : Sequence ℕ
later_request = record request { seq_id = 8; arrival_step = 2 }

abbrev candidates : List (Sequence ℕ)
candidates = request ∷ later_request ∷ []

some_candidates : candidates ≢ []
some_candidates e = absurd (ground arith)

budgets_computed : All (Computes whole estimator budgets 2 5) candidates
unfolding budget_ms
budgets_computed = ((770, refl), ((771, refl), tt))

select_lowest_example :
    (s : Sequence ℕ) × (i : ℕ) × (budget : ℕ) × (select whole
        (pals estimator budgets)
        candidates
        2
        5
      ≡ ok s)
    × (get_elem? candidates i ≡ some s)
    × (budget_ms whole estimator budgets s 2 5 ≡ ok budget)
    × All (NotAfter whole estimator budgets 2 5 s budget) candidates
select_lowest_example =
    select_lowest whole estimator budgets 2 5 whole_order candidates some_candidates
      budgets_computed
