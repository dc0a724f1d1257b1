-- ===== src/BlockManager/Match.antt =====
-- What a lookup in the prefix cache finds.
use nano_vllm_qos.Prelude.{
  ℕ, zero, suc, ◌≤◌, ◌≡◌, refl, true, Option, some, List, [], ◌∷◌, ok, arith, length, get_elem?,
  Option-cases, Bool-cases, inl, inr, ◌∙◌, Result-cases, ap, sym,
}
use nano_vllm_qos.Prelude.Dict
use nano_vllm_qos.Sequence.{Sequence, block}
use nano_vllm_qos.BlockManager.{BlockManager, Block}
use nano_vllm_qos.BlockManager.Lookup.{match_hashes, same_tokens, compute_hash}

pub same_tokens_sound : (xs ys : List ℕ) → same_tokens xs ys ≡ true → xs ≡ ys
unfolding same_tokens
same_tokens_sound [] [] e = refl
same_tokens_sound [] (y ∷ ys) e = absurd (ground arith)
same_tokens_sound (x ∷ xs) [] e = absurd (ground arith)
same_tokens_sound (x ∷ xs) (y ∷ ys) e = ground (arith, same_tokens_sound xs ys)

module _ {F I : Type 0} (m : BlockManager I) (s : Sequence F) where
  -- Position by position, from block `i` of the request on: the block found is in the pool, and the
  -- tokens that it holds are those of the request's block.
  abbrev pub Holds : ℕ → List ℕ → Type 0
  Holds i [] = Unit
  Holds i (b ∷ bs) =
      ((x : Block) × (get_elem? m.blocks b ≡ some x) × (block s i ≡ ok x.token_ids))
      × Holds (suc i) bs

  -- Every block that the hash lookup returns holds exactly the tokens of the request's block at its
  -- position, whatever the digest is, and the lookup returns at most `n` blocks.
  pub match_hashes-Holds :
      (xxh64 : List ℕ → ℕ) (i n : ℕ) (h : Option ℕ) (matched : List ℕ)
      → match_hashes xxh64 m s i n h ≡ ok matched
      → Holds i matched × (length matched ≤ n)
  unfolding match_hashes
  match_hashes-Holds xxh64 i zero h [] e = (tt, omega arith)
  match_hashes-Holds xxh64 i zero h (b ∷ bs) e = absurd (ground arith)
  match_hashes-Holds xxh64 i (suc n) h [] e = (tt, omega arith)
  match_hashes-Holds xxh64 i (suc n) h (b ∷ bs) e = elim (Result-cases (block s i)) [
    | inr (f, bad) ↦ absurd (ground arith)
    | inl (token_ids, here) ↦
        let h' = compute_hash xxh64 token_ids h in
        elim (Option-cases (Dict.get h' m.hash_to_block_id)) [
          | inl miss ↦ absurd (ground arith)
          | inr (c, hit) ↦ elim (Option-cases (get_elem? m.blocks c)) [
            | inl missing ↦ absurd (ground arith)
            | inr (x, found) ↦ elim (Bool-cases (same_tokens x.token_ids token_ids)) [
              | inr other ↦ absurd (ground arith)
              | inl same ↦ elim (Result-cases (match_hashes xxh64 m s (suc i) n (some h'))) [
                | inr (f, bad) ↦ absurd (ground arith)
                | inl (rest, more) ↦
                    let e' : c ∷ rest ≡ b ∷ bs = ground arith in
                    let same_b : c ≡ b = cc in
                    let same_bs : rest ≡ bs = cc in
                    let (holds, short) =
                      match_hashes-Holds xxh64 (suc i) n (some h') bs (more ∙ ap ok same_bs) in
                    (
                      (
                        (
                          x,
                          rw (← same_b) found,
                          here ∙ ap ok (sym (same_tokens_sound x.token_ids token_ids same)),
                        ),
                        holds,
                      ),
                      omega (arith, short),
                    )
              ]
            ]
          ]
        ]
  ]
