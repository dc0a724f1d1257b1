-- ===== src/Admission.antt =====
-- nanovllm/engine/kv_admission.py: pages held back for the running requests of no lower priority.
use nano_vllm_qos.Prelude.{
  ℕ, ◌+◌, ◌-◌, ◌*◌, ◌/◌, ◌≤◌, ◌<◌, ◌≡◌, min, List, [], ◌∷◌, arith, if◌then◌else◌, ltb, length,
}
use nano_vllm_qos.Prelude.Int.{ltb_ℤ}
use nano_vllm_qos.Sequence.{Sequence, num_blocks, num_completion_tokens}

-- `growth_pages`
unfoldable pub growth_pages : ℕ → ℕ → ℕ → ℕ → ℕ
growth_pages cached_tokens owned_pages future_tokens block_size =
    (cached_tokens + future_tokens + block_size - 1) / block_size - owned_pages

module _ {F : Type 0} where
  -- The pages that a running request may need within the horizon.
  unfoldable pub running_reserve : ℕ → ℕ → Sequence F → ℕ
  running_reserve horizon block_size s =
      let pending_prefill = if ltb 0 s.num_scheduled_tokens then 1 else 0 in
      let remaining = s.max_tokens - num_completion_tokens s - pending_prefill in
      growth_pages (s.num_physical_cached_tokens + s.num_scheduled_tokens) (length s.block_table)
        (min horizon remaining) block_size

  running_total : Sequence F → ℕ → ℕ → List (Sequence F) → ℕ
  running_total candidate horizon block_size [] = 0
  running_total candidate horizon block_size (s ∷ running) =
      (if ltb_ℤ s.qos.priority candidate.qos.priority
        then 0
        else running_reserve horizon block_size s)
      + running_total candidate horizon block_size running

  -- `priority_reserve_pages`
  unfoldable pub priority_reserve_pages : Sequence F → List (Sequence F) → ℕ → ℕ → ℕ
  unfolding running_total
  priority_reserve_pages candidate running horizon block_size =
      let remaining = candidate.max_tokens - num_completion_tokens candidate - 1 in
      running_total candidate horizon block_size running
      + growth_pages candidate.num_tokens (num_blocks candidate) (min horizon remaining) block_size

mul_bound : (total pages more size : ℕ) → total ≤ pages * size → pages ≤ more → total ≤ more * size
mul_bound total pages more size h k = grind arith

enough_pages :
    (total owned pages size : ℕ) → total ≤ pages * size → total ≤ (owned + (pages - owned)) * size
enough_pages total owned pages size h =
    mul_bound total pages (owned + (pages - owned)) size h (omega arith)

no_spare_page :
    (total owned pages size : ℕ)
    → (pages - 1) * size < total
    → 0 < pages - owned
    → (owned + (pages - owned) - 1) * size < total
no_spare_page total owned pages size h k =
    let same : owned + (pages - owned) ≡ pages = omega arith in rw same h

-- The pages that a request owns and those that the reserve adds are just enough for its tokens: they
-- hold the cached and the future tokens, and with a page less they would not, unless the request
-- owns more already.
pub growth_pages_lem :
    (cached owned future size : ℕ)
    → 0 < size
    → (cached + future ≤ (owned + growth_pages cached owned future size) * size)
      × (0 < growth_pages cached owned future size
          → (owned + growth_pages cached owned future size - 1) * size < cached + future)
unfolding growth_pages
growth_pages_lem cached owned future size h =
    let total = cached + future in
    let pages = (total + size - 1) / size in
    let covers : total ≤ pages * size = grind arith in
    let tight : 0 < pages → (pages - 1) * size < total = λ k. grind arith in
    (
      enough_pages total owned pages size covers,
      λ k. no_spare_page total owned pages size (tight (omega arith)) k,
    )
