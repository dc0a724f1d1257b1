-- ===== src/Remote/Offer.antt =====
-- nanovllm/engine/remote_restore.py: what `plan_restore` offers.
use nano_vllm_qos.Prelude.{
  ℕ, zero, suc, ◌+◌, ◌-◌, ◌*◌, ◌/◌, ◌≤◌, ◌<◌, ◌≡◌, refl, true, false, ◌&&◌, Option, none, some,
  List, [], ◌∷◌, ok, Error, guard, arith, ltb, leb, length, take, length-take, Bool-cases,
  Option-cases, ◌⊎◌, inl, inr, ap,
}
use nano_vllm_qos.Prelude.Ensures.{Ensures, Ensures-bind, Ensures-if, Ensures-pure, Ensures-then}
use nano_vllm_qos.Scalar.{Scalar, Order, lt}
use nano_vllm_qos.Policy.Select.{All}
use nano_vllm_qos.Sequence.{Sequence, num_blocks, block, slice_block}
use nano_vllm_qos.BlockManager.Lookup.{block_keys}
use nano_vllm_qos.Planner.{
  mooncake, KvAccessPlan, KvTransferPlanner, plan_access, recompute_plan, restore_plan, candidates,
  candidate, with_candidate, plan_lt,
}
use nano_vllm_qos.Planner.Best.{plan_access_lem, select_min_keeps}
use nano_vllm_qos.Radix.{BlockKey}
use nano_vllm_qos.Radix.Lookup.{match_keys_lem}
use nano_vllm_qos.Remote.{RemotePageDescriptor, RemotePrefixCatalog}
use nano_vllm_qos.Remote.Consistent.{IsConsistent}
use nano_vllm_qos.Remote.Match.{match_pages-IsConsistent}
use nano_vllm_qos.Remote.Restore.{
  RemoteRestoreCandidate, is_restore, is_mooncake, offer, weigh, plan_restore,
}

module _ (S : Scalar) where
  -- A plan that restores uses all that the one tier has.
  abbrev IsWhole : ℕ → KvAccessPlan S.F → Type 0
  IsWhole source p = (is_restore p.action ≡ false) ⊎ (p.source_cached_tokens ≡ source)

  candidate-IsWhole :
      (planner : KvTransferPlanner S.F) (total local source : ℕ) (prefill : S.F)
      → Ensures (All (IsWhole source)) (candidate S planner total local prefill mooncake source)
  unfolding candidate restore_plan
  candidate-IsWhole planner total local source prefill =
      Ensures-if (leb source local) _ _ (λ _. Ensures-pure tt)
        (λ _. Ensures-bind (guard (leb source total) Error.value_error) _ (λ _ _.
          elim (Option-cases (planner.tier_profiles mooncake)) [
            | inl missing ↦ rw missing (Ensures-pure tt)
            | inr (profile, held) ↦ rw held (Ensures-pure (inr refl, tt))
          ]))

  with_candidate-IsWhole :
      (source : ℕ) (here : List (KvAccessPlan S.F))
      → All (IsWhole source) here
      → All (IsWhole source) (with_candidate S here [])
  with_candidate-IsWhole source [] w = w
  with_candidate-IsWhole source (p ∷ ps) (k, w) = (k, tt)

  one_tier :
      (planner : KvTransferPlanner S.F) (total local source : ℕ) (prefill : S.F)
      → Ensures
          (IsWhole source)
          (plan_access S planner total local ((mooncake, source) ∷ []) prefill)
  unfolding plan_access candidates recompute_plan
  one_tier planner total local source prefill =
      Ensures-bind (guard (leb local total) Error.value_error) _ (λ _ _.
        Ensures-bind (guard (lt S (S.of_ℕ 0) prefill) Error.value_error) _ (λ _ _.
          Ensures-then (All (IsWhole source)) _ _
            (Ensures-then (All (IsWhole source)) _ _
              (candidate-IsWhole planner total local source prefill)
              (λ here w. Ensures-pure (with_candidate-IsWhole source here w)))
            (λ rest w. Ensures-pure (
              select_min_keeps (plan_lt S) (IsWhole source) (recompute_plan S total local prefill)
                rest (inl (ground arith)) w))))

  block_keys-ok :
      (s : Sequence S.F) (i n : ℕ)
      → i + n ≤ num_blocks s
      → (keys : List BlockKey) × (block_keys s i n ≡ ok keys) × (length keys ≡ n)
  unfolding block_keys block
  block_keys-ok s i zero h = ([], refl, refl)
  block_keys-ok s i (suc n) h =
      let (keys, run, many) = block_keys-ok s (suc i) n (omega arith) in
      let within : ltb i (num_blocks s) ≡ true = ground arith in
      (slice_block s.block_size s.token_ids i ∷ keys, rw (within, run) refl, ap suc many)

-- What a restore that is worth its cost offers: more pages than the device holds, and no more than
-- the request has blocks before the last one.
abbrev pub IsOffer : {F : Type 0} → ℕ → Sequence F → Option (RemoteRestoreCandidate F) → Type 0
IsOffer local s none = Unit
IsOffer local s (some r) = (local < length r.pages) × (length r.pages ≤ num_blocks s - 1)

pages_fit : (k n size : ℕ) → 0 < size → k ≤ (n + size - 1) / size - 1 → k * size ≤ n
pages_fit zero n size h k = omega arith
pages_fit (suc i) n size h k = grind arith

all_taken :
    (size tokens : ℕ) (pages : List RemotePageDescriptor)
    → 0 < size
    → tokens ≡ length pages * size
    → length (take (tokens / size) pages) ≡ length pages
all_taken size tokens pages h e =
    let whole : tokens / size ≡ length pages = grind arith in
    rw (length-take (tokens / size) pages) (omega (arith, whole))

module _ (S : Scalar) (o : Order S) where
  chosen :
      (source : ℕ) (p : KvAccessPlan S.F)
      → is_restore p.action ≡ true
      → IsWhole S source p
      → p.source_cached_tokens ≡ source
  chosen source p r (inl h) = absurd (ground arith)
  chosen source p r (inr e) = e

  weigh-IsOffer :
      (planner : Option (KvTransferPlanner S.F)) (s : Sequence S.F) (local : ℕ) (prefill : S.F)
      (pages : List RemotePageDescriptor)
      → 0 < s.block_size
      → local < length pages
      → length pages ≤ num_blocks s - 1
      → lt S (S.of_ℕ 0) prefill ≡ true
      → (found : Option (RemoteRestoreCandidate S.F)) × (weigh S planner s local prefill pages
          ≡ ok found)
        × IsOffer local s found
  unfolding weigh
  weigh-IsOffer none s local prefill pages sized more fits positive = (some _, refl, (more, fits))
  weigh-IsOffer (some planner) s local prefill pages sized more fits positive =
      let size = s.block_size in
      let source = length pages * size in
      let (p, run, complete, faster) =
        plan_access_lem S o planner s.num_tokens (local * size) ((mooncake, source) ∷ []) prefill
          (pages_fit local s.num_tokens size sized (omega arith)) positive
          (pages_fit (length pages) s.num_tokens size sized fits, tt) in
      let whole = (one_tier S planner s.num_tokens (local * size) source prefill).at p run in
      elim (Bool-cases (is_restore p.action && is_mooncake p.source_tier)) [
        | inr kept ↦ (none, rw (run, kept) refl, tt)
        | inl used ↦
            let restores : is_restore p.action ≡ true = ground (arith, used) in
            let many : length (take (p.source_cached_tokens / size) pages) ≡ length pages =
              all_taken size p.source_cached_tokens pages sized (chosen source p restores whole) in
            (
              some (offer p pages size),
              rw (run, used) refl,
              (omega (arith, many), omega (arith, many)),
            )
      ]

  -- If the descriptors of the catalog are those of the handles in its index, the request has blocks of
  -- at least one token and the prefill cost is positive, then `plan_restore` does not raise. The
  -- descriptors of the catalog that it leaves are those of the handles in its index, and if it offers a
  -- restore, that has more pages than the blocks that the device holds and no more than the request
  -- has before its last block.
  pub plan_restore-IsOffer :
      (planner : Option (KvTransferPlanner S.F)) (c : RemotePrefixCatalog) (s : Sequence S.F)
      (local : ℕ) (prefill : S.F)
      → IsConsistent c
      → 0 < s.block_size
      → lt S (S.of_ℕ 0) prefill ≡ true
      → (c' : RemotePrefixCatalog) × (found : Option (RemoteRestoreCandidate S.F)) × (plan_restore S
            planner c s local prefill
          ≡ ok (c', found))
        × IsConsistent c'
        × IsOffer local s found
  unfolding plan_restore
  plan_restore-IsOffer planner c s local prefill k sized positive =
      let (keys, sliced, many) = block_keys-ok S s 0 (num_blocks s - 1) (omega arith) in
      let ((c', pages), matched, length_matched, kept) = match_pages-IsConsistent c keys k in
      let (at, bounded, maximal, same) = match_keys_lem c.index keys 0 [] in
      elim (Bool-cases (leb (length pages) local)) [
        | inl few ↦ (c', none, rw (sliced, matched, few) refl, kept, tt)
        | inr more ↦
            let (found, run, fair) =
              weigh-IsOffer planner s local prefill pages sized (ground (arith, more))
                (omega (arith, bounded, many, length_matched)) positive in
            (c', found, rw (sliced, matched, more, run) refl, kept, fair)
      ]
