-- ===== src/Planner/Best.antt =====
-- The plan of the transfer planner: complete, and no slower than recomputation.
use nano_vllm_qos.Prelude.{
  ℕ, ◌+◌, ◌*◌, ◌≤◌, ◌≡◌, refl, Bool, true, false, List, [], ◌∷◌, ok, arith, Bool-cases,
  Option-cases, inl, inr, leb, le→leb, ◌||◌,
}
use nano_vllm_qos.Scalar.{Scalar, Order, lt}
use nano_vllm_qos.Policy.Select.{select_min, select_min-All, All}
use nano_vllm_qos.Planner.{
  CacheTier, KvCacheGeometry, KvAccessPlan, KvTransferPlanner, bytes_per_token, recompute_plan,
  restore_plan, is_gpu, candidate, with_candidate, candidates, plan_lt, plan_access,
}

-- The tokens of a plan: those on the device, those to restore and those to recompute are all.
pub record IsComplete {F : Type 0} (g : KvCacheGeometry) (total local : ℕ) (p : KvAccessPlan F)
    : Type 0 where
  pub on_device : p.local_cached_tokens ≡ local
  pub everything : local + p.restored_tokens + p.recomputed_tokens ≡ total
  pub source : p.source_cached_tokens ≡ local + p.restored_tokens
  pub bytes : p.transfer_bytes ≡ bytes_per_token g * p.restored_tokens

module _ {A : Type 0} (below : A → A → Bool) (P : A → Type 0) where
  pub select_min_keeps : (best : A) (xs : List A) → P best → All P xs → P (select_min below best xs)
  unfolding select_min
  select_min_keeps best [] h hs = h
  select_min_keeps best (x ∷ xs) h (k, ks) = elim (Bool-cases (below x best)) [
    | inl low ↦ rw low (select_min_keeps x xs k ks)
    | inr high ↦ rw high (select_min_keeps best xs h ks)
  ]

module _ (S : Scalar) (o : Order S) where
  plan_lt_trans :
      (a b c : KvAccessPlan S.F)
      → plan_lt S b a ≡ false
      → plan_lt S c b ≡ false
      → plan_lt S c a ≡ false
  unfolding plan_lt
  plan_lt_trans a b c h k = ground (
    arith,
    o.le_total a.total_ms b.total_ms,
    o.le_total b.total_ms c.total_ms,
    o.le_total a.total_ms c.total_ms,
    o.le_trans a.total_ms b.total_ms c.total_ms,
    o.le_trans c.total_ms b.total_ms a.total_ms,
    o.le_trans b.total_ms c.total_ms a.total_ms,
    o.le_trans c.total_ms a.total_ms b.total_ms,
    o.le_trans b.total_ms a.total_ms c.total_ms,
    o.le_trans a.total_ms c.total_ms b.total_ms,
  )

  plan_lt_asym : (a b : KvAccessPlan S.F) → plan_lt S a b ≡ true → plan_lt S b a ≡ false
  unfolding plan_lt
  plan_lt_asym a b h = ground (arith, o.le_total a.total_ms b.total_ms)

  plan_lt_self : (a : KvAccessPlan S.F) → plan_lt S a a ≡ false
  unfolding plan_lt
  plan_lt_self a = ground (arith, o.le_total a.total_ms a.total_ms)

  no_slower : (a b : KvAccessPlan S.F) → plan_lt S a b ≡ false → S.le b.total_ms a.total_ms ≡ true
  unfolding plan_lt
  no_slower a b h = ground arith

module _ (S : Scalar) (q : KvTransferPlanner S.F) (total local : ℕ) (prefill : S.F) where
  recompute_plan-IsComplete :
      local ≤ total → IsComplete q.geometry total local (recompute_plan S total local prefill)
  unfolding recompute_plan
  recompute_plan-IsComplete h = record {
    on_device = refl;
    everything = omega arith;
    source = omega arith;
    bytes = omega arith;
  }

  -- An entry that is no longer than the request adds complete plans only.
  candidate_total :
      (tier : CacheTier) (source : ℕ)
      → source ≤ total
      → (ps : List (KvAccessPlan S.F)) × (candidate S q total local prefill tier source ≡ ok ps)
        × All (IsComplete q.geometry total local) ps
  unfolding candidate restore_plan
  candidate_total tier source h = elim (Bool-cases (is_gpu tier || leb source local)) [
    | inl skipped ↦ ([], rw skipped refl, tt)
    | inr longer ↦ elim (Option-cases (q.tier_profiles tier)) [
      | inl unknown ↦ ([], rw longer (rw (le→leb source total h) (rw unknown refl)), tt)
      | inr (profile, known) ↦ (
        restore_plan S q.geometry profile tier source total local prefill ∷ [],
        rw longer (rw (le→leb source total h) (rw known refl)),
        (
          record {
            on_device = refl;
            everything = ground arith;
            source = ground arith;
            bytes = refl;
          },
          tt,
        ),
      )
    ]
  ]

  with_candidate-All :
      (here : List (KvAccessPlan S.F))
      → All (IsComplete q.geometry total local) here
      → (rest : List (KvAccessPlan S.F)) → All (IsComplete q.geometry total local) rest
      → All (IsComplete q.geometry total local) (with_candidate S here rest)
  with_candidate-All [] h rest hs = hs
  with_candidate-All (p ∷ ps) h rest hs = (h.0, hs)

  candidates_total :
      (tiers : List (CacheTier × ℕ))
      → All (λ t. t.1 ≤ total) tiers
      → (ps : List (KvAccessPlan S.F)) × (candidates S q total local prefill tiers ≡ ok ps)
        × All (IsComplete q.geometry total local) ps
  unfolding candidates
  candidates_total [] h = ([], refl, tt)
  candidates_total ((tier, source) ∷ tiers) (h, hs) =
      let (here, e, complete) = candidate_total tier source h in
      let (rest, e', completes) = candidates_total tiers hs in
      (
        with_candidate S here rest,
        rw e (rw e' refl),
        with_candidate-All here complete rest completes,
      )

module _ (S : Scalar) (o : Order S) where
  -- For a request of `total` tokens of which the device holds `local`, with a positive prefill cost
  -- and no tier that claims more tokens than the request has, the planner does not raise. The plan
  -- covers every token once: on the device, restored or recomputed, the source holding the first two.
  -- It transfers the bytes of the restored tokens, and is estimated to take no longer than
  -- recomputing them.
  pub plan_access_lem :
      (q : KvTransferPlanner S.F) (total local : ℕ) (tiers : List (CacheTier × ℕ)) (prefill : S.F)
      → local ≤ total
      → lt S (S.of_ℕ 0) prefill ≡ true
      → All (λ t. t.1 ≤ total) tiers
      → (p : KvAccessPlan S.F) × (plan_access S q total local tiers prefill ≡ ok p)
        × IsComplete q.geometry total local p
        × (S.le p.total_ms ((recompute_plan S total local prefill).total_ms) ≡ true)
  unfolding plan_access
  plan_access_lem q total local tiers prefill h positive within =
      let base = recompute_plan S total local prefill in
      let (ps, e, complete) = candidates_total S q total local prefill tiers within in
      let (first, _) =
        select_min-All (plan_lt S) (plan_lt_trans S o) (plan_lt_asym S o) (plan_lt_self S o) base
          ps in
      (
        select_min (plan_lt S) base ps,
        rw (le→leb local total h) (rw positive (rw e refl)),
        select_min_keeps (plan_lt S) (IsComplete q.geometry total local) base ps
            (recompute_plan-IsComplete S q total local prefill h) complete,
        no_slower S o base (select_min (plan_lt S) base ps) first,
      )
