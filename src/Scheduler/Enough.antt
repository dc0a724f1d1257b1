-- ===== src/Scheduler/Enough.antt =====
-- nanovllm/engine/scheduler.py: the loop of `_ensure_resume_capacity` ends, since every round takes
-- the pages of a waiting request.
use nano_vllm_qos.Prelude.{
  ℕ, zero, suc, ◌+◌, ◌<◌, ◌≤◌, ◌≡◌, refl, Bool, true, false, not, ◌&&◌, Option, none, some, List,
  [], ◌∷◌, ok, Error, or_raise, arith, if◌then◌else◌, ◌==◌, leb, length, take, drop, reverse, ◌*◌,
  Bool-cases, inl, inr, ap, sym, subst, ◌∙◌, guard, ◌⊎◌,
}
use nano_vllm_qos.Prelude.Ensures.{
  Ensures, Ensures-map, Ensures-and, Ensures-pure, Ensures-bind, Ensures-then, or_raise-some,
}
use nano_vllm_qos.Scalar.{Scalar}
use nano_vllm_qos.Sequence.{Sequence, record_kv_reclaim}
use nano_vllm_qos.BlockManager.{BlockManager, PrefixIndex}
use nano_vllm_qos.BlockManager.Pool.{release_all}
use nano_vllm_qos.BlockManager.Release.{forget_resume, reclaim_suffix}
use nano_vllm_qos.BlockManager.Resume.{can_resume}
use nano_vllm_qos.Policy.{Key}
use nano_vllm_qos.Policy.Select.{All, select_min, higher}
use nano_vllm_qos.Queues.{
  find_seq, update_seq, keep_seqs, has_table, no_seqs, total, total-remove_seq, total-update_seq,
  length-update_seq,
}
use nano_vllm_qos.Reclaim.{recompute_all, plan, decision, KvReclaimDecision}
use nano_vllm_qos.Scheduler.{Scheduler, policy_budget_ms}
use nano_vllm_qos.Scheduler.Preempt.{apply_kv_reclaim}
use nano_vllm_qos.Scheduler.Resumes.{
  itself, check_resume-Keeps, reclaim_waiting-Keeps, reclaim_last-Keeps,
}
use nano_vllm_qos.Scheduler.Room.{
  others_with_table, first_max, reclaim_keys, reclaim_waiting, reclaim_last, check_resume,
  ensure_resume_capacity,
}
use nano_vllm_qos.Scheduler.Sound.{IsSound, is_named}

-- Whether a request holds pages, as a number.
abbrev pub holds : {F : Type 0} → Sequence F → ℕ
holds s = if has_table s then 1 else 0

-- The options are the same, no request has joined the queue, and at most `n` more hold pages.
abbrev pub Slack : {F I V : Type 0} → ℕ → Scheduler F I V → Scheduler F I V → Type 0
Slack n m m' =
    (m'.options ≡ m.options)
    × (length m'.waiting ≤ length m.waiting)
    × (total holds m'.waiting ≤ total holds m.waiting + n)

-- Either nothing has changed in the queue, or fewer requests hold pages.
abbrev pub Eased : {F I V : Type 0} → Scheduler F I V → Scheduler F I V → Type 0
Eased m m' =
    Slack 0 m m' × ((m'.waiting ≡ m.waiting) ⊎ (total holds m'.waiting < total holds m.waiting))

-- One request more is without pages.
abbrev Taken : {F I V : Type 0} → Scheduler F I V → Scheduler F I V → Type 0
Taken m m' =
    (m'.options ≡ m.options)
    × (length m'.waiting ≤ length m.waiting)
    × (total holds m'.waiting + 1 ≡ total holds m.waiting)

pub All-map {ℓ} :
    {A : Type ℓ} {P Q : A → Type 0} (xs : List A) → ((x : A) → P x → Q x) → All P xs → All Q xs
All-map [] f h = tt
All-map (x ∷ xs) f h = (f x h.0, All-map xs f h.1)

module _ {F : Type 0} where
  pub holds-le : (ss : List (Sequence F)) → total holds ss ≤ length ss
  unfolding total
  holds-le [] = omega arith
  holds-le (s ∷ ss) = ground (arith, holds-le ss)

  -- Where no two requests have the same number, a request is found by its number.
  pub finds_itself :
      (ss : List (Sequence F))
      → ((i : ℕ) → total (is_named i) ss ≤ 1)
      → All (λ s. find_seq s.seq_id ss ≡ some s) ss
  unfolding total find_seq
  finds_itself [] distinct = tt
  finds_itself (x ∷ xs) distinct = (
    ground arith,
    All-map xs
        (λ s e. elim (Bool-cases (x.seq_id == s.seq_id)) [
          | inr other ↦ rw other e
          | inl same ↦
              let d = distinct s.seq_id in
              let one : is_named s.seq_id s ≡ 1 = ground arith in
              let also : is_named s.seq_id x ≡ 1 = rw same refl in
              absurd
                (omega (arith, d, one, also, total-remove_seq (is_named s.seq_id) s.seq_id xs s e))
        ])
        (finds_itself xs (λ i. let d = distinct i in omega (arith, d))),
  )

  pub keep_seqs-All :
      (P : Sequence F → Type 0) (test : Sequence F → Bool) (ss : List (Sequence F))
      → All P ss
      → All (λ s. P s × (test s ≡ true)) (keep_seqs test ss)
  unfolding keep_seqs
  keep_seqs-All P test [] h = tt
  keep_seqs-All P test (s ∷ ss) h = elim (Bool-cases (test s)) [
    | inl e ↦ rw e ((h.0, e), keep_seqs-All P test ss h.1)
    | inr e ↦ rw e (keep_seqs-All P test ss h.1)
  ]

pub select_min-mem {ℓ} :
    {A : Type ℓ} (below : A → A → Bool) (P : A → Type 0) (best : A) (xs : List A)
    → P best
    → All P xs
    → P (select_min below best xs)
unfolding select_min
select_min-mem below P best [] h k = h
select_min-mem below P best (x ∷ xs) h k = elim (Bool-cases (below x best)) [
  | inl e ↦ rw e (select_min-mem below P x xs k.0 k.1)
  | inr e ↦ rw e (select_min-mem below P best xs h k.1)
]

take_none : (n : ℕ) (xs : List ℕ) → n ≡ 0 → take n xs ≡ []
take_none n xs e = rw e refl

module _ (S : Scalar) where
  first_max-All :
      (Q : Sequence S.F → Type 0) (keys : List (Key S.F × Sequence S.F)) (v : Sequence S.F)
      → All (λ y. Q (y.1)) keys
      → first_max S keys ≡ some v
      → Q v
  first_max-All Q [] v h e = absurd (ground arith)
  first_max-All Q (k ∷ ks) v h e =
      let same : (select_min (higher S) k ks).1 ≡ v = ground arith in
      subst Q same (select_min-mem (higher S) (λ y. Q (y.1)) k ks h.0 h.1)

  nothing_kept :
      (s : Sequence S.F) (budget : Option S.F) → (plan S recompute_all s budget 1).keep_blocks ≡ 0
  unfolding plan decision
  nothing_kept s budget = ground arith

  reclaim_suffix-Bare :
      {I : Type 0} (m : BlockManager I) (s : Sequence S.F) (keep : ℕ)
      → keep ≡ 0
      → Ensures (λ r. (has_table (r.1) ≡ false) × (r.1.seq_id ≡ s.seq_id)) (reclaim_suffix m s keep)
  unfolding reclaim_suffix
  reclaim_suffix-Bare m s keep none_kept =
      Ensures-bind (guard (leb keep (length s.block_table)) Error.value_error) _ (λ _ _.
        Ensures-bind (guard (leb (keep * m.block_size) s.num_cached_tokens) Error.value_error) _
          (λ _ _.
            Ensures-bind (release_all (forget_resume m s) (reverse (drop keep s.block_table))) _
              (λ m' _. Ensures-pure (rw (take_none keep s.block_table none_kept) refl, refl))))

module _ (S : Scalar) (P : PrefixIndex) (xxh64 : List ℕ → ℕ) {V : Type 0} where
  reclaim_keys-All :
      (Q : Sequence S.F → Type 0) (m : Scheduler S.F P.Index V) (now : S.F)
      (ss : List (Sequence S.F))
      → All Q ss
      → Ensures (All (λ y. Q (y.1))) (reclaim_keys S P xxh64 m now ss)
  unfolding reclaim_keys
  reclaim_keys-All Q m now [] h = Ensures-pure tt
  reclaim_keys-All Q m now (s ∷ ss) h = Ensures-bind (policy_budget_ms S m s now) _ (λ budget _.
      Ensures-then _ (reclaim_keys S P xxh64 m now ss) _ (reclaim_keys-All Q m now ss h.1)
        (λ rest k. Ensures-pure (h.0, k)))

  -- A request that is reclaimed whole holds no page.
  apply-Bare :
      (m : Scheduler S.F P.Index V) (s : Sequence S.F) (d : KvReclaimDecision S.F)
      → d.keep_blocks ≡ 0
      → Ensures
          (λ x.
            (has_table (x.1) ≡ false)
            × (x.1.seq_id ≡ s.seq_id)
            × (x.0.waiting ≡ m.waiting)
            × (x.0.options ≡ m.options))
          (apply_kv_reclaim S m s d)
  unfolding apply_kv_reclaim record_kv_reclaim
  apply-Bare m s d none_kept =
      Ensures-then _ (reclaim_suffix m.block_manager s d.keep_blocks) _
        (reclaim_suffix-Bare S m.block_manager s d.keep_blocks none_kept)
        (λ r k. Ensures-pure (k.0, k.1, refl, refl))

  reclaim_waiting-Fewer :
      (m : Scheduler S.F P.Index V) (now : S.F) (s : Sequence S.F)
      → find_seq s.seq_id m.waiting ≡ some s
      → has_table s ≡ true
      → Ensures (Taken m) (reclaim_waiting S P xxh64 m now s)
  unfolding reclaim_waiting
  reclaim_waiting-Fewer m now s there held =
      Ensures-bind (policy_budget_ms S m s now) _ (λ budget _.
        Ensures-then _ (apply_kv_reclaim S m s (plan S recompute_all s budget 1)) _
          (apply-Bare m s (plan S recompute_all s budget 1) (nothing_kept S s budget))
          (λ x k. Ensures-pure (
            k.3,
            subst (λ ss. length (update_seq x.1 ss) ≤ length m.waiting) (sym k.2)
                (omega (arith, length-update_seq x.1 m.waiting)),
            fewer x.0 x.1 k.0 k.1 k.2,
          )))
    where
      fewer :
          (m' : Scheduler S.F P.Index V) (s' : Sequence S.F)
          → has_table s' ≡ false
          → s'.seq_id ≡ s.seq_id
          → m'.waiting ≡ m.waiting
          → total holds (update_seq s' m'.waiting) + 1 ≡ total holds m.waiting
      fewer m' s' bare same queue =
          let here : find_seq s'.seq_id m.waiting ≡ some s =
            ap (λ j. find_seq j m.waiting) same ∙ there in
          let one : holds s ≡ 1 = rw held refl in
          let nought : holds s' ≡ 0 = rw bare refl in
          rw queue (omega (arith, one, nought, total-update_seq holds s' m.waiting s here))

  reclaim_last-Fewer :
      (m : Scheduler S.F P.Index V) (now : S.F) (i : ℕ)
      → IsSound m []
      → Ensures (Taken m) (reclaim_last S P xxh64 m now (others_with_table i m.waiting))
  unfolding reclaim_last
  reclaim_last-Fewer m now i h =
      let Q : Sequence S.F → Type 0 = λ s.
        (find_seq s.seq_id m.waiting ≡ some s) × ((not (s.seq_id == i) && has_table s) ≡ true) in
      let candidates : All Q (others_with_table i m.waiting) =
        keep_seqs-All (λ s. find_seq s.seq_id m.waiting ≡ some s)
          (λ s. not (s.seq_id == i) && has_table s) m.waiting
          (finds_itself m.waiting (λ j. let d = h.distinct j in omega (arith, d))) in
      Ensures-then _ (reclaim_keys S P xxh64 m now (others_with_table i m.waiting)) _
        (reclaim_keys-All Q m now (others_with_table i m.waiting) candidates)
        (λ keys all. Ensures-bind (or_raise (first_max S keys) Error.value_error) _ (λ victim e.
          let (there, test) =
            first_max-All S Q keys victim all
              (or_raise-some (first_max S keys) Error.value_error e) in
          Ensures-bind (or_raise (find_seq victim.seq_id m.waiting) Error.value_error) _ (λ s f.
            let found = or_raise-some (find_seq victim.seq_id m.waiting) Error.value_error f in
            let same : victim ≡ s = ground (arith, there, found) in
            reclaim_waiting-Fewer m now s (itself victim.seq_id m.waiting s found)
              (subst (λ t. has_table t ≡ true) same (ground (arith, test))))))

  abbrev pub Ended : Scheduler S.F P.Index V → Option (Scheduler S.F P.Index V × Bool) → Type 0
  Ended m none = ⊥
  Ended m (some r) = Eased m r.0

  check_resume-Same :
      (m : Scheduler S.F P.Index V) (s : Sequence S.F)
      → Ensures
          (λ r. (r.0.options ≡ m.options) × (r.0.waiting ≡ m.waiting))
          (check_resume S P xxh64 m s)
  unfolding check_resume
  check_resume-Same m s =
      Ensures-bind (can_resume P xxh64 m.block_manager s) _ (λ r _. Ensures-pure (refl, refl))

  later-Eased :
      (m m' : Scheduler S.F P.Index V)
      → m'.options ≡ m.options
      → m'.waiting ≡ m.waiting
      → Eased m m'
  later-Eased m m' e q = ((e, omega (arith, ap length q), omega (arith, ap (total holds) q)), inl q)

  check_resume-Eased :
      (m : Scheduler S.F P.Index V) (s : Sequence S.F)
      → Ensures (λ r. Eased m r.0) (check_resume S P xxh64 m s)
  check_resume-Eased m s =
      Ensures-map (check_resume S P xxh64 m s) (check_resume-Same m s)
        (λ r k. later-Eased m r.0 k.0 k.1)

  later-Taken :
      (m n m' : Scheduler S.F P.Index V)
      → n.options ≡ m.options
      → n.waiting ≡ m.waiting
      → Taken n m'
      → Taken m m'
  later-Taken m n m' e q k =
      (k.0 ∙ e, omega (arith, k.1, ap length q), omega (arith, k.2, ap (total holds) q))

  -- What follows a round.
  later :
      (m m' : Scheduler S.F P.Index V) (r : Option (Scheduler S.F P.Index V × Bool))
      → Taken m m'
      → Ended m' r
      → Ended m r
  later m m' none k h = absurd h
  later m m' (some r) k h = (
    (h.0.0 ∙ k.0, omega (arith, h.0.1, k.1), omega (arith, h.0.2, k.2)),
    inr (omega (arith, h.0.2, k.2)),
  )

  pub ensure_resume_capacity-Ended :
      (rounds : ℕ) (m : Scheduler S.F P.Index V) (now : S.F) (i : ℕ)
      → IsSound m []
      → total holds m.waiting < rounds
      → Ensures (Ended m) (ensure_resume_capacity S P xxh64 rounds m now i)
  unfolding ensure_resume_capacity
  ensure_resume_capacity-Ended zero m now i h fuel = absurd (omega arith)
  ensure_resume_capacity-Ended (suc rounds) m now i h fuel =
      Ensures-bind (or_raise (find_seq i m.waiting) Error.value_error) _ (λ s e.
        let found = or_raise-some (find_seq i m.waiting) Error.value_error e in
        let there = itself i m.waiting s found in
        elim (Bool-cases (has_table s)) [
          | inr bare ↦ rw bare (
              Ensures-then _ (check_resume S P xxh64 m s) _ (check_resume-Eased m s)
                (λ r k. Ensures-pure k))
          | inl held ↦ rw held (
              Ensures-then _ (check_resume S P xxh64 m s) _
                (Ensures-and (check_resume S P xxh64 m s) (check_resume-Keeps S P xxh64 m s there h)
                  (check_resume-Same m s))
                (λ r both.
                  let k = both.0 in
                  let same = both.1 in
                  let left_over = later-Eased m r.0 same.0 same.1 in
                  let here = ap (find_seq s.seq_id) k.1 ∙ there in
                  let left : total holds r.0.waiting < suc rounds =
                    subst (λ ss. total holds ss < suc rounds) (sym k.1) fuel in
                  elim (Bool-cases r.1) [
                    | inl fits ↦ rw fits (
                        Ensures-then _ (check_resume S P xxh64 r.0 s) _ (check_resume-Same r.0 s)
                          (λ q l. Ensures-pure (later-Eased m q.0 (l.0 ∙ same.0) (l.1 ∙ same.1))))
                    | inr short ↦
                        rw short (elim (Bool-cases (no_seqs (others_with_table i r.0.waiting))) [
                          | inr some_hold ↦ rw some_hold (
                              Ensures-then _
                                (reclaim_last S P xxh64 r.0 now (others_with_table i r.0.waiting)) _
                                (Ensures-and
                                  (reclaim_last S P xxh64 r.0 now (others_with_table i r.0.waiting))
                                  (reclaim_last-Keeps S P xxh64 r.0 now
                                    (others_with_table i r.0.waiting) k.0)
                                  (reclaim_last-Fewer r.0 now i k.0))
                                (λ m' l.
                                  Ensures-map (ensure_resume_capacity S P xxh64 rounds m' now i)
                                    (ensure_resume_capacity-Ended rounds m' now i l.0
                                      (omega (arith, l.1.2, left)))
                                    (λ x. later m m' x (later-Taken m r.0 m' same.0 same.1 l.1))))
                          | inl none_hold ↦ rw none_hold (elim (Bool-cases (no_seqs r.0.running)) [
                            | inr some_run ↦ rw some_run (Ensures-pure left_over)
                            | inl none_run ↦ rw none_run (
                                Ensures-then _ (reclaim_waiting S P xxh64 r.0 now s) _
                                  (Ensures-and (reclaim_waiting S P xxh64 r.0 now s)
                                    (reclaim_waiting-Keeps S P xxh64 r.0 now s here k.0)
                                    (reclaim_waiting-Fewer r.0 now s here held))
                                  (λ m' l.
                                    Ensures-map (ensure_resume_capacity S P xxh64 rounds m' now i)
                                      (ensure_resume_capacity-Ended rounds m' now i l.0
                                        (omega (arith, l.1.2, left)))
                                      (λ x. later m m' x (later-Taken m r.0 m' same.0 same.1 l.1))))
                          ])
                        ])
                  ]))
        ])

  -- On a sound scheduler, with more rounds than requests waiting, the loop that makes room for a
  -- request that resumes never answers that its rounds ran out.
  pub ensure_resume_capacity-returns :
      (rounds : ℕ) (m : Scheduler S.F P.Index V) (now : S.F) (i : ℕ)
      → IsSound m []
      → length m.waiting < rounds
      → ¬ (ensure_resume_capacity S P xxh64 rounds m now i ≡ ok none)
  ensure_resume_capacity-returns rounds m now i h fuel e =
      (ensure_resume_capacity-Ended rounds m now i h (omega (arith, fuel, holds-le m.waiting))).at _
        e
