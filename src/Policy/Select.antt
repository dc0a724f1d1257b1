-- ===== src/Policy/Select.antt =====
-- nanovllm/engine/qos.py: which request the policies select.
use nano_vllm_qos.Prelude.{
  ℕ, zero, suc, ◌<◌, ◌≤◌, ◌⊎◌, ltb, ◌≡◌, ◌≢◌, refl, Bool, true, false, Option, none, some, List, [],
  ◌∷◌, Result, ok, err, Error, ◌>>=◌, arith, if◌then◌else◌, get_elem?, Bool-cases, inl, inr, subst,
}
use nano_vllm_qos.Scalar.{Scalar, Order}
use nano_vllm_qos.Sequence.{Sequence}
use nano_vllm_qos.Policy.{
  SchedulingPolicy, fcfs, pals, ExecutionTimeEstimator, Budgets, Key, key_lt, budget_ms,
}

-- `min` with a key: the first entry that no later one is below. `below` is the strict order.
module _ {ℓ} {A : Type ℓ} (below : A → A → Bool) where
  unfoldable pub select_min : A → List A → A
  select_min best [] = best
  select_min best (x ∷ xs) = select_min (if below x best then x else best) xs

module _ (S : Scalar) where
  -- Each request with its key; the first budget that cannot be computed raises.
  unfoldable pub keyed :
      ExecutionTimeEstimator S.F
      → Budgets S.F
      → ℕ
      → S.F
      → List (Sequence S.F)
      → Result (List (Key S.F × Sequence S.F))
  keyed e b step now [] = ok []
  keyed e b step now (s ∷ ss) = do
    budget ← budget_ms S e b s step now
    rest ← keyed e b step now ss
    ok ((record { budget = budget; arrival_step = s.arrival_step; seq_id = s.seq_id }, s) ∷ rest)

  abbrev pub lower : Key S.F × Sequence S.F → Key S.F × Sequence S.F → Bool
  lower a b = key_lt S a.0 b.0

  abbrev pub higher : Key S.F × Sequence S.F → Key S.F × Sequence S.F → Bool
  higher a b = key_lt S b.0 a.0

  abbrev pub pick :
      (Key S.F × Sequence S.F → Key S.F × Sequence S.F → Bool)
      → List (Key S.F × Sequence S.F)
      → Result (Key S.F × Sequence S.F)
  pick below [] = err Error.value_error
  pick below (x ∷ xs) = ok (select_min below x xs)

  abbrev pub first : List (Sequence S.F) → Result (Sequence S.F)
  first [] = err Error.index_error
  first (s ∷ ss) = ok s

  abbrev last? : List (Sequence S.F) → Option (Sequence S.F)
  last? [] = none
  last? (s ∷ []) = some s
  last? (s ∷ t ∷ ss) = last? (t ∷ ss)

  -- `select_waiting`, and `select_running`, whose code is the same in both policies
  unfoldable pub select :
      SchedulingPolicy S.F → List (Sequence S.F) → ℕ → S.F → Result (Sequence S.F)
  select fcfs seqs step now = first seqs
  select (pals e b) seqs step now = do
    ks ← keyed e b step now seqs
    best ← pick lower ks
    ok (best.1)

  unfoldable pub select_preemption_victim :
      SchedulingPolicy S.F → List (Sequence S.F) → ℕ → S.F → Result (Option (Sequence S.F))
  select_preemption_victim fcfs running step now = ok (last? running)
  select_preemption_victim (pals e b) [] step now = ok none
  select_preemption_victim (pals e b) (s ∷ ss) step now = do
    ks ← keyed e b step now (s ∷ ss)
    best ← pick higher ks
    ok (some (best.1))

  unfoldable pub should_schedule_prefill :
      SchedulingPolicy S.F → List (Sequence S.F) → List (Sequence S.F) → ℕ → S.F → Result Bool
  should_schedule_prefill p [] running step now = ok false
  should_schedule_prefill fcfs (s ∷ ss) running step now = ok true
  should_schedule_prefill (pals e b) (s ∷ ss) [] step now = ok true
  should_schedule_prefill (pals e b) (s ∷ ss) (r ∷ rs) step now = do
    waiting_seq ← select (pals e b) (s ∷ ss) step now
    running_seq ← select (pals e b) (r ∷ rs) step now
    waiting_budget ← budget_ms S e b waiting_seq step now
    running_budget ← budget_ms S e b running_seq step now
    ok (S.le waiting_budget running_budget)

-- Every entry of the list passes the test.
abbrev pub All {ℓ} : {A : Type ℓ} → (A → Type 0) → List A → Type 0
All P [] = Unit
All P (x ∷ xs) = P x × All P xs

module _ (S : Scalar) (o : Order S) where
  key_lt_trans :
      (a b c : Key S.F) → key_lt S b a ≡ false → key_lt S c b ≡ false → key_lt S c a ≡ false
  unfolding key_lt
  key_lt_trans a b c h k = ground (
    arith,
    o.le_total a.budget b.budget,
    o.le_total b.budget c.budget,
    o.le_total a.budget c.budget,
    o.le_trans a.budget b.budget c.budget,
    o.le_trans c.budget b.budget a.budget,
    o.le_trans b.budget c.budget a.budget,
    o.le_trans c.budget a.budget b.budget,
    o.le_trans b.budget a.budget c.budget,
    o.le_trans a.budget c.budget b.budget,
  )

  key_lt_self : (a : Key S.F) → key_lt S a a ≡ false
  unfolding key_lt
  key_lt_self a = ground (arith, o.le_total a.budget a.budget)

  key_lt_asym : (a b : Key S.F) → key_lt S a b ≡ true → key_lt S b a ≡ false
  unfolding key_lt
  key_lt_asym a b h = ground (arith, o.le_total a.budget b.budget)

module _ {A : Type 0} (below : A → A → Bool)
    (below_trans : (a b c : A) → below b a ≡ false → below c b ≡ false → below c a ≡ false)
    (below_asym : (a b : A) → below a b ≡ true → below b a ≡ false)
    (below_self : (a : A) → below a a ≡ false) where
  -- No entry is below the selected one.
  pub select_min-All :
      (best : A) (xs : List A) → All (λ y. below y (select_min below best xs) ≡ false) (best ∷ xs)
  unfolding select_min
  select_min-All best [] = (below_self best, tt)
  select_min-All best (x ∷ xs) = elim (Bool-cases (below x best)) [
    | inl low ↦
        let (here, rest) = select_min-All x xs in
        let same : select_min below x xs ≡ select_min below best (x ∷ xs) = rw low in
        subst (λ r. All (λ y. below y r ≡ false) (best ∷ x ∷ xs)) same
          (below_trans _ x best here (below_asym x best low), (here, rest))
    | inr high ↦
        let (here, rest) = select_min-All best xs in
        let same : select_min below best xs ≡ select_min below best (x ∷ xs) = rw high in
        subst (λ r. All (λ y. below y r ≡ false) (best ∷ x ∷ xs)) same
          (here, (below_trans _ best x here high, rest))
  ]

select_min-mem {ℓ} :
    {A : Type ℓ} (below : A → A → Bool) (best : A) (xs : List A)
    → (i : ℕ) × (get_elem? (best ∷ xs) i ≡ some (select_min below best xs))
unfolding select_min
select_min-mem below best [] = (0, refl)
select_min-mem below best (x ∷ xs) = elim (Bool-cases (below x best)) [
  | inl low ↦ let (i, found) = select_min-mem below x xs in (suc i, rw low found)
  | inr high ↦ later high (select_min-mem below best xs)
]
  where
    later :
        below x best ≡ false
        → (i : ℕ) × (get_elem? (best ∷ xs) i ≡ some (select_min below best xs))
        → (i : ℕ) × (get_elem? (best ∷ x ∷ xs) i
            ≡ some (select_min below (if below x best then x else best) xs))
    later high (zero, found) = (0, rw high found)
    later high (suc i, found) = (suc (suc i), rw high found)

module _ (S : Scalar) (e : ExecutionTimeEstimator S.F) (b : Budgets S.F) (step : ℕ)
    (now : S.F) where
  -- The budget of a request can be computed.
  abbrev pub Computes : Sequence S.F → Type 0
  Computes t = (budget : S.F) × (budget_ms S e b t step now ≡ ok budget)

  -- The keys belong to the requests, one by one.
  abbrev Keyed : List (Sequence S.F) → List (Key S.F × Sequence S.F) → Type 0
  Keyed [] [] = Unit
  Keyed [] (y ∷ ks) = ⊥
  Keyed (t ∷ ts) [] = ⊥
  Keyed (t ∷ ts) ((k, u) ∷ ks) =
      (u ≡ t)
      × (budget_ms S e b t step now ≡ ok k.budget)
      × (k.arrival_step ≡ t.arrival_step)
      × (k.seq_id ≡ t.seq_id)
      × Keyed ts ks

  keyed_total :
      (ts : List (Sequence S.F))
      → All Computes ts
      → (ks : List (Key S.F × Sequence S.F)) × (keyed S e b step now ts ≡ ok ks) × Keyed ts ks
  unfolding keyed
  keyed_total [] h = ([], refl, tt)
  keyed_total (t ∷ ts) h =
      let (budget, own) = h.0 in
      let (ks, run, rel) = keyed_total ts h.1 in
      (
        (record { budget = budget; arrival_step = t.arrival_step; seq_id = t.seq_id }, t) ∷ ks,
        rw (own, run) refl,
        (refl, own, refl, refl, rel),
      )

  -- `s`, whose budget is `budget`, does not come after `t`: its budget is below that of `t`, or not
  -- above it, and then it arrived in an earlier step, or in the same one with at most the number of `t`.
  abbrev pub NotAfter : Sequence S.F → S.F → Sequence S.F → Type 0
  NotAfter s budget t =
      (other : S.F) × (budget_ms S e b t step now ≡ ok other)
      × ((S.le other budget ≡ false)
          ⊎ (S.le budget other ≡ true)
            × ((s.arrival_step < t.arrival_step)
                ⊎ (s.arrival_step ≡ t.arrival_step) × (s.seq_id ≤ t.seq_id)))

  -- What the keys say of the requests.
  Keyed-get :
      (ts : List (Sequence S.F)) (ks : List (Key S.F × Sequence S.F)) (i : ℕ) {k : Key S.F}
      {s : Sequence S.F}
      → Keyed ts ks
      → get_elem? ks i ≡ some (k, s)
      → (get_elem? ts i ≡ some s)
        × (budget_ms S e b s step now ≡ ok k.budget)
        × (k.arrival_step ≡ s.arrival_step)
        × (k.seq_id ≡ s.seq_id)
  Keyed-get [] [] i rel found = absurd (ground arith)
  Keyed-get [] (y ∷ ks) i rel found = absurd rel
  Keyed-get (t ∷ ts) [] i rel found = absurd rel
  Keyed-get (t ∷ ts) ((k', u) ∷ ks) zero rel found = ground (arith, rel)
  Keyed-get (t ∷ ts) (y ∷ ks) (suc i) rel found = Keyed-get ts ks i rel.4 found

  not_below :
      (o : Order S) (s t : Sequence S.F) (k k' : Key S.F)
      → key_lt S k' k ≡ false
      → k.arrival_step ≡ s.arrival_step
      → k.seq_id ≡ s.seq_id
      → k'.arrival_step ≡ t.arrival_step
      → k'.seq_id ≡ t.seq_id
      → (S.le k'.budget k.budget ≡ false)
        ⊎ (S.le k.budget k'.budget ≡ true)
          × ((s.arrival_step < t.arrival_step)
              ⊎ (s.arrival_step ≡ t.arrival_step) × (s.seq_id ≤ t.seq_id))
  unfolding key_lt
  not_below o s t k k' h sa si ta ti = elim (Bool-cases (S.le k'.budget k.budget)) [
    | inr above ↦ inl above
    | inl below ↦
        let other : S.le k.budget k'.budget ≡ true = ground arith in
        inr (
          other,
          elim (Bool-cases (ltb s.arrival_step t.arrival_step)) [
            | inl early ↦ inl (ground (arith, early))
            | inr late ↦ inr (ground arith, ground arith)
          ],
        )
  ]

  Keyed-All :
      (o : Order S) (s : Sequence S.F) (k : Key S.F)
      → k.arrival_step ≡ s.arrival_step
      → k.seq_id ≡ s.seq_id
      → (ts : List (Sequence S.F)) (ks : List (Key S.F × Sequence S.F)) → Keyed ts ks
      → All (λ y. key_lt S y.0 k ≡ false) ks
      → All (NotAfter s k.budget) ts
  Keyed-All o s k sa si [] [] rel h = tt
  Keyed-All o s k sa si [] (y ∷ ks) rel h = absurd rel
  Keyed-All o s k sa si (t ∷ ts) [] rel h = absurd rel
  Keyed-All o s k sa si (t ∷ ts) ((k', u) ∷ ks) rel h = (
    (k'.budget, rel.1, not_below o s t k k' h.0 sa si rel.2 rel.3),
    Keyed-All o s k sa si ts ks rel.4 h.1,
  )

  lowest :
      (o : Order S) (t : Sequence S.F) (ts : List (Sequence S.F))
      (ks : List (Key S.F × Sequence S.F))
      → keyed S e b step now (t ∷ ts) ≡ ok ks
      → Keyed (t ∷ ts) ks
      → (s : Sequence S.F) × (i : ℕ) × (budget : S.F) × (select S (pals e b) (t ∷ ts) step now
          ≡ ok s)
        × (get_elem? (t ∷ ts) i ≡ some s)
        × (budget_ms S e b s step now ≡ ok budget)
        × All (NotAfter s budget) (t ∷ ts)
  unfolding select
  lowest o t ts [] run rel = absurd rel
  lowest o t ts (x ∷ xs) run rel =
      let (k, s) = select_min (lower S) x xs in
      let (i, found) = select_min-mem (lower S) x xs in
      let (place, own, sa, si) = Keyed-get (t ∷ ts) (x ∷ xs) i rel found in
      (
        s,
        i,
        k.budget,
        rw run refl,
        place,
        own,
        Keyed-All o s k sa si (t ∷ ts) (x ∷ xs) rel (
            select_min-All (lower S) (λ p q r. key_lt_trans S o p.0 q.0 r.0)
              (λ p q. key_lt_asym S o p.0 q.0) (λ p. key_lt_self S o p.0) x xs),
      )

  -- Where there is a candidate and every candidate's budget can be computed, the latency-budget policy
  -- selects a request, to prefill or to decode, that is one of the candidates and comes after no
  -- candidate in the order by budget, arrival step and number.
  pub select_lowest :
      (o : Order S) (seqs : List (Sequence S.F))
      → seqs ≢ []
      → All Computes seqs
      → (s : Sequence S.F) × (i : ℕ) × (budget : S.F) × (select S (pals e b) seqs step now ≡ ok s)
        × (get_elem? seqs i ≡ some s)
        × (budget_ms S e b s step now ≡ ok budget)
        × All (NotAfter s budget) seqs
  select_lowest o [] some_left h = absurd (some_left refl)
  select_lowest o (t ∷ ts) some_left h =
      let (ks, run, rel) = keyed_total (t ∷ ts) h in lowest o t ts ks run rel
