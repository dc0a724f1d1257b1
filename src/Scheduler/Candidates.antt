-- ===== src/Scheduler/Candidates.antt =====
-- nanovllm/engine/scheduler.py: which request a round of the prefill loop looks at.
use nano_vllm_qos.Prelude.{
  ℕ, zero, suc, ◌+◌, ◌-◌, ◌*◌, ◌<◌, ◌≤◌, ◌≡◌, refl, Bool, true, false, not, ◌&&◌, Option, none,
  some, List, [], ◌∷◌, ok, Error, or_raise, arith, if◌then◌else◌, ◌==◌, ltb, leb, elem, length,
  Bool-cases, Option-cases, inl, inr, ap, sym, subst, ◌∙◌, ◌>>=◌,
}
use nano_vllm_qos.Prelude.Ensures.{
  Ensures, Ensures-pure, Ensures-if, Ensures-bind, Ensures-then, Ensures-raise,
}
use nano_vllm_qos.Scalar.{Scalar}
use nano_vllm_qos.Sequence.{Sequence}
use nano_vllm_qos.BlockManager.{PrefixIndex}
use nano_vllm_qos.Policy.{
  SchedulingPolicy, Key, fcfs, pals, ExecutionTimeEstimator, Budgets, budget_ms,
}
use nano_vllm_qos.Policy.Select.{All, select, keyed, pick, first, lower, should_schedule_prefill}
use nano_vllm_qos.Queues.{find_seq, has_table, no_seqs, keep_seqs}
use nano_vllm_qos.Scheduler.{Scheduler, RestoreService, policy}
use nano_vllm_qos.Scheduler.Enough.{All-map, finds_itself, keep_seqs-All, select_min-mem}
use nano_vllm_qos.Scheduler.Prefill.{
  Prefilling, no_ids, skip_deferred, keep_resident, eligible, at_limit,
}
use nano_vllm_qos.Scheduler.Sound.{IsSound}

-- What a policy selects is one of the candidates.
module _ (S : Scalar) (Q : Sequence S.F → Type 0) where
  first-All : (ss : List (Sequence S.F)) → All Q ss → Ensures Q (first S ss)
  first-All [] h = Ensures-raise
  first-All (s ∷ ss) h = Ensures-pure h.0

  keyed-All :
      (e : ExecutionTimeEstimator S.F) (b : Budgets S.F) (step : ℕ) (now : S.F)
      (ss : List (Sequence S.F))
      → All Q ss
      → Ensures (All (λ y. Q (y.1))) (keyed S e b step now ss)
  unfolding keyed
  keyed-All e b step now [] h = Ensures-pure tt
  keyed-All e b step now (s ∷ ss) h = Ensures-bind (budget_ms S e b s step now) _ (λ budget _.
      Ensures-then _ (keyed S e b step now ss) _ (keyed-All e b step now ss h.1)
        (λ rest k. Ensures-pure (h.0, k)))

  pick-All :
      (ks : List (Key S.F × Sequence S.F))
      → All (λ y. Q (y.1)) ks
      → Ensures (λ y. Q (y.1)) (pick S (lower S) ks)
  pick-All [] h = Ensures-raise
  pick-All (k ∷ ks) h = Ensures-pure (select_min-mem (lower S) (λ y. Q (y.1)) k ks h.0 h.1)

  pub select-All :
      (p : SchedulingPolicy S.F) (ss : List (Sequence S.F)) (step : ℕ) (now : S.F)
      → All Q ss
      → Ensures Q (select S p ss step now)
  unfolding select
  select-All fcfs ss step now h = first-All ss h
  select-All (pals e b) ss step now h =
      Ensures-then _ (keyed S e b step now ss) _ (keyed-All e b step now ss h)
        (λ ks k. Ensures-then _ (pick S (lower S) ks) _ (pick-All ks k) (λ best l. Ensures-pure l))

abbrev pub AllOf : {A : Type 0} → (A → Type 0) → Option (List A) → Type 0
AllOf P none = Unit
AllOf P (some xs) = All P xs

module _ (S : Scalar) (P : PrefixIndex) (R : RestoreService S.F) (xxh64 : List ℕ → ℕ)
    (clock : ℕ → S.F) where
  abbrev pub Machine : Type 0
  Machine = Scheduler S.F P.Index R.Service

  -- The request may be looked at: it is in the queue, it is not deferred, and it holds pages where
  -- only such requests go on.
  abbrev pub Fit : Prefilling Machine → Sequence S.F → Type 0
  Fit t s =
      (find_seq s.seq_id t.engine.waiting ≡ some s)
      × (elem s.seq_id t.budget_deferred ≡ false)
      × (t.resident_progress_only ≡ true → has_table s ≡ true)

  either :
      (Q : Sequence S.F → Type 0) (b : Bool) (xs ys : List (Sequence S.F))
      → (b ≡ true → All Q xs)
      → (b ≡ false → All Q ys)
      → All Q (if b then xs else ys)
  either Q true xs ys h k = h refl
  either Q false xs ys h k = k refl

  deferred_none : (i : ℕ) (is : List ℕ) → no_ids is ≡ true → elem i is ≡ false
  unfolding nano_vllm_qos.Prelude.count
  deferred_none i [] e = refl
  deferred_none i (j ∷ is) e = absurd (ground arith)

  due_or_none :
      (Q : Sequence S.F → Type 0) (due : Bool) (ss : List (Sequence S.F))
      → All Q ss
      → Ensures (AllOf Q) (ok (if due then some ss else none))
  due_or_none Q true ss h = Ensures-pure h
  due_or_none Q false ss h = Ensures-pure tt

  skip_deferred-All :
      (Q : Sequence S.F → Type 0) (t : Prefilling Machine) (now : S.F) (ss : List (Sequence S.F))
      → All Q ss
      → Ensures
          (AllOf (λ s. Q s × (elem s.seq_id t.budget_deferred ≡ false)))
          (skip_deferred S P R xxh64 clock t now ss)
  unfolding skip_deferred
  skip_deferred-All Q t now ss h =
      let rest = keep_seqs (λ s. not (elem s.seq_id t.budget_deferred)) ss in
      let chosen : All (λ s. Q s × (elem s.seq_id t.budget_deferred ≡ false)) rest =
        All-map rest (λ s k. (k.0, ground (arith, k.1)))
          (keep_seqs-All Q (λ s. not (elem s.seq_id t.budget_deferred)) ss h) in
      Ensures-if (no_ids t.budget_deferred) _ _
        (λ e. Ensures-pure (All-map ss (λ s k. (k, deferred_none s.seq_id t.budget_deferred e)) h))
        (λ _.
          Ensures-if (no_seqs rest) _ _ (λ _. Ensures-pure tt)
            (λ _.
              Ensures-bind
                (should_schedule_prefill S (policy t.engine) rest t.engine.running t.engine.step_id
                  now)
                _ (λ due _. due_or_none _ due rest chosen)))

  keep_resident-All :
      (Q : Sequence S.F → Type 0) (t : Prefilling Machine) (now : S.F) (ss : List (Sequence S.F))
      → All Q ss
      → Ensures (AllOf Q) (keep_resident S P R xxh64 clock t now ss)
  unfolding keep_resident
  keep_resident-All Q t now ss h =
      Ensures-if (at_limit S P R xxh64 clock t.engine) _ _
        (λ _.
          Ensures-bind
            (should_schedule_prefill S (policy t.engine) (keep_seqs has_table ss) t.engine.running
              t.engine.step_id now)
            _
            (λ due _.
              due_or_none Q due (keep_seqs has_table ss)
                (All-map (keep_seqs has_table ss) (λ s k. k.0) (keep_seqs-All Q has_table ss h))))
        (λ _. Ensures-pure h)

  pub eligible-All :
      (t : Prefilling Machine) (now : S.F)
      → IsSound t.engine []
      → Ensures (AllOf (Fit t)) (eligible S P R xxh64 clock t now)
  unfolding eligible
  eligible-All t now h =
      let waiting = t.engine.waiting in
      let Q : Sequence S.F → Type 0 = λ s.
        (find_seq s.seq_id waiting ≡ some s)
        × (t.resident_progress_only ≡ true → has_table s ≡ true) in
      let found = finds_itself waiting (λ i. let d = h.distinct i in omega (arith, d)) in
      let residents : All Q (keep_seqs has_table waiting) =
        All-map (keep_seqs has_table waiting) (λ s k. (k.0, λ _. k.1))
          (keep_seqs-All (λ s. find_seq s.seq_id waiting ≡ some s) has_table waiting found) in
      let from : All Q (if t.resident_progress_only then keep_seqs has_table waiting else waiting) =
        either Q t.resident_progress_only (keep_seqs has_table waiting) waiting (λ on. residents)
          (λ off. All-map waiting (λ s k. (k, λ on. absurd (ground arith))) found) in
      Ensures-if (t.resident_progress_only && no_seqs (keep_seqs has_table waiting)) _ _
        (λ _. Ensures-pure tt)
        (λ _.
          Ensures-then _
            (skip_deferred S P R xxh64 clock t now
              (if t.resident_progress_only then keep_seqs has_table waiting else waiting))
            _ (skip_deferred-All Q t now _ from) (λ rest k. after rest k))
    where
      after :
          (rest : Option (List (Sequence S.F)))
          → AllOf
              (λ s.
                ((find_seq s.seq_id t.engine.waiting ≡ some s)
                  × (t.resident_progress_only ≡ true → has_table s ≡ true))
                × (elem s.seq_id t.budget_deferred ≡ false))
              rest
          → Ensures
              (AllOf (Fit t))
              (elim rest [ none ↦ ok none | some ss ↦ keep_resident S P R xxh64 clock t now ss ])
      after none k = Ensures-pure tt
      after (some ss) k =
          keep_resident-All (Fit t) t now ss (All-map ss (λ s q. (q.0.0, q.1, q.0.1)) k)
