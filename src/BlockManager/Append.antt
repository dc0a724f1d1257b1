-- ===== src/BlockManager/Append.antt =====
-- A decode step takes at most one page.
use nano_vllm_qos.Prelude.{
  ℕ, suc, ◌+◌, ◌-◌, ◌*◌, ◌/◌, ◌%◌, ◌==◌, ◌<◌, ◌≡◌, refl, true, List, [], ◌∷◌, ◌++◌, ok, arith,
  if◌then◌else◌, length, count, count-append, Bool-cases, inl, inr, sym, append-nil,
}
use nano_vllm_qos.Sequence.{Sequence, num_blocks}
use nano_vllm_qos.BlockManager.{BlockManager, PrefixIndex}
use nano_vllm_qos.BlockManager.Accounts.{allocate_block-Moves, allocate_block_total}
use nano_vllm_qos.BlockManager.Correct.{Accounts}
use nano_vllm_qos.BlockManager.Invariant.{ref_of}
use nano_vllm_qos.BlockManager.Resume.{can_append, may_append, needs_page}

-- `n / b` from the quotient and the rest.
quotient : (b q r : ℕ) → r < b → (q * b + r) / b ≡ q
quotient b q r h = grind arith

-- A new block begins with the first token, and then where `n % b` is 1 (`n` tokens, blocks of `b`).
new_block :
    (n b : ℕ)
    → 1 < b
    → 0 < n
    → (if n % b == 1 then 1 else 0) + (n - 1 + b - 1) / b ≡ (n + b - 1) / b
new_block n b h k =
    let q = n / b in
    let r = n % b in
    let whole : n ≡ q * b + r = grind arith in
    let small : r < b = grind arith in
    elim (Bool-cases (r == 1)) [
      | inl due ↦
          let one : r ≡ 1 = ground (arith, due) in
          let before : n - 1 + b - 1 ≡ q * b + (b - 1) = omega (arith, whole, one, h) in
          let after : n + b - 1 ≡ suc q * b + 0 = grind arith in
          rw (due, before, after)
            (omega (
              arith,
              quotient b q (b - 1) (omega (arith, h)),
              quotient b (suc q) 0 (omega (arith, h)),
            ))
      | inr full ↦ elim (Bool-cases (r == 0)) [
        | inl last ↦
            let nought : r ≡ 0 = ground (arith, last) in
            let before : n - 1 + b - 1 ≡ q * b + (b - 2) = omega (arith, whole, nought, h, k) in
            let after : n + b - 1 ≡ q * b + (b - 1) = omega (arith, whole, nought, h) in
            rw (full, before, after)
              (omega (
                arith,
                quotient b q (b - 2) (omega (arith, h)),
                quotient b q (b - 1) (omega (arith, h)),
              ))
        | inr within ↦
            let more : 1 < r = ground (arith, full, within) in
            let before : n - 1 + b - 1 ≡ suc q * b + (r - 2) = grind arith in
            let after : n + b - 1 ≡ suc q * b + (r - 1) = grind arith in
            rw (full, before, after)
              (omega (
                arith,
                quotient b (suc q) (r - 2) (omega (arith, small)),
                quotient b (suc q) (r - 1) (omega (arith, small)),
              ))
      ]
    ]

module _ {F : Type 0} (P : PrefixIndex) (m : BlockManager P.Index) (s : Sequence F)
    (others : ℕ → ℕ) where
  -- For blocks of more than one token and a request with a token, where `can_append` says so,
  -- `may_append` does not raise and keeps the account. The pages that it adds to the table are as many
  -- as the blocks that the last token adds to those of the tokens before it, and had no owner before.
  pub may_append_lem :
      1 < m.block_size
      → 0 < s.num_tokens
      → Accounts m s others
      → can_append P m s ≡ true
      → (m' : BlockManager P.Index) × (s' : Sequence F) × (pages : List ℕ) × (may_append P m s
          ≡ ok (m', s'))
        × Accounts m' s' others
        × (s'.block_table ≡ s.block_table ++ pages)
        × (length pages + (s.num_tokens - 1 + m.block_size - 1) / m.block_size
            ≡ (s.num_tokens + m.block_size - 1) / m.block_size)
        × ((b : ℕ) → 0 < count b pages → ref_of m.blocks b ≡ 0)
  unfolding may_append can_append count
  may_append_lem wide some_token a h =
      let blocks = new_block s.num_tokens m.block_size wide some_token in
      elim (Bool-cases (needs_page P m s)) [
        | inr full ↦ (
          m,
          s,
          [],
          rw full,
          a,
          sym (append-nil s.block_table),
          ground (arith, blocks, full),
          λ b k. absurd (omega arith),
        )
        | inl due ↦
            let (m', b, e) = allocate_block_total P m a.consistent (ground arith) in
            let (p, idle, less) = allocate_block-Moves P m b a.consistent e in
            (
              m',
              record s {
                block_table = s.block_table ++ b ∷ [];
                kv_block_logical_indices = s.kv_block_logical_indices ++ (num_blocks s - 1) ∷ [];
              },
              b ∷ [],
              rw (due, e),
              record {
                consistent = p.consistent;
                counted = λ c.
                    ground (arith, p.refs c, a.counted c, count-append c s.block_table (b ∷ []));
              },
              refl,
              ground (arith, blocks, due),
              λ c k. ground (arith, idle),
            )
      ]
