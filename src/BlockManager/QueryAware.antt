-- ===== src/BlockManager/QueryAware.antt =====
-- nanovllm/engine/block_manager.py: `compress_query_aware`, which keeps, besides the first and the
-- last pages, the middle pages that share the rarest tokens with the end of the prompt.
use nano_vllm_qos.Prelude.{
  ℕ, ◌+◌, ◌-◌, refl, Bool, true, List, [], ◌∷◌, Result, ok, Error, guard, or_raise, ◌>>=◌, ◌>>◌,
  if◌then◌else◌, ltb, leb, ◌&&◌, ◌||◌, length, get_elem?, elem, take, drop, min, max,
}
use nano_vllm_qos.Scalar.{Scalar}
use nano_vllm_qos.Sequence.{Sequence, block, prompt_token_ids}
use nano_vllm_qos.BlockManager.{BlockManager, range_from}
use nano_vllm_qos.Prelude.Ensures.{Ensures, Ensures-pure, Ensures-if, Ensures-bind}
use nano_vllm_qos.BlockManager.Correct.{Accounts}
use nano_vllm_qos.BlockManager.Keeps.{Kept, compress_keep_positions-Keeps}
use nano_vllm_qos.BlockManager.Release.{Compression, no_compression, compress_keep_positions}

-- `set(xs)`, in the order of first occurrence from the end
unfoldable pub distinct : List ℕ → List ℕ
distinct [] = []
distinct (x ∷ xs) = let rest = distinct xs in if elem x rest then rest else x ∷ rest

-- The number of candidate pages that hold the token.
unfoldable pub document_frequency : List (ℕ × List ℕ) → ℕ → ℕ
document_frequency [] t = 0
document_frequency ((i, tokens) ∷ pages) t =
    (if elem t tokens then 1 else 0) + document_frequency pages t

module _ {F : Type 0} where
  -- The candidate positions, each with the set of tokens of its block.
  unfoldable pub candidate_tokens : Sequence F → List ℕ → Result (List (ℕ × List ℕ))
  unfolding distinct
  candidate_tokens s [] = ok []
  candidate_tokens s (i ∷ positions) = do
    logical_index ← or_raise (get_elem? s.kv_block_logical_indices i) Error.index_error
    tokens ← block s logical_index
    rest ← candidate_tokens s positions
    ok ((i, distinct tokens) ∷ rest)

module _ (S : Scalar) where
  -- The sum of `1.0 / document_frequency[t]` over the tokens that the query has too.
  unfoldable pub score : List (ℕ × List ℕ) → List ℕ → List ℕ → S.F
  unfolding document_frequency
  score pages query_ids [] = S.of_ℕ 0
  score pages query_ids (t ∷ tokens) =
      let rest = score pages query_ids tokens in
      if elem t query_ids
      then S.add rest (S.div (S.of_ℕ 1) (S.of_ℕ (document_frequency pages t)))
      else rest

  abbrev scores : List (ℕ × List ℕ) → List ℕ → List (ℕ × List ℕ) → List (S.F × ℕ)
  scores pages query_ids [] = []
  scores pages query_ids ((i, tokens) ∷ rest) =
      (score pages query_ids tokens, i) ∷ scores pages query_ids rest

  -- `sorted(scored, reverse=True)`, by insertion
  abbrev ahead : S.F × ℕ → S.F × ℕ → Bool
  ahead a b = if S.le a.0 b.0 then S.le b.0 a.0 && ltb b.1 a.1 else true

  unfoldable pub insert_scored : S.F × ℕ → List (S.F × ℕ) → List (S.F × ℕ)
  insert_scored a [] = a ∷ []
  insert_scored a (b ∷ bs) = if ahead a b then a ∷ b ∷ bs else b ∷ insert_scored a bs

  unfoldable pub sort_scored : List (S.F × ℕ) → List (S.F × ℕ)
  unfolding insert_scored
  sort_scored [] = []
  sort_scored (a ∷ bs) = insert_scored a (sort_scored bs)

  abbrev positions_of : List (S.F × ℕ) → List ℕ
  positions_of [] = []
  positions_of ((score, i) ∷ rest) = i ∷ positions_of rest

  unfoldable pub compress_query_aware :
      {I : Type 0}
      → BlockManager I
      → Sequence S.F
      → ℕ
      → ℕ
      → ℕ
      → ℕ
      → Result (BlockManager I × Sequence S.F × Compression)
  compress_query_aware m s sink_blocks recent_blocks importance_blocks query_tokens = do
    guard (leb 1 importance_blocks && leb 1 query_tokens) Error.value_error
    let n = length s.block_table
    if leb n (sink_blocks + recent_blocks + importance_blocks)
        then ok (m, s, no_compression)
        else (do
          let sink = min sink_blocks n
          let recent_start = max sink (n - recent_blocks)
          let prompt = prompt_token_ids s
          let query_ids = distinct (drop (length prompt - query_tokens) prompt)
          pages ← candidate_tokens s (range_from sink (recent_start - sink))
          let ranked = sort_scored (scores pages query_ids pages)
          let important = positions_of (take importance_blocks ranked)
          compress_keep_positions m s (λ i. ltb i sink || leb recent_start i || elem i important))

-- Whatever the scores are, the account of the pool is kept.
module _ (S : Scalar) {I : Type 0} (m : BlockManager I) (s : Sequence S.F) (others : ℕ → ℕ) where
  pub compress_query_aware-Keeps :
      (sink recent importance query : ℕ)
      → Accounts m s others
      → Ensures
          (λ r. Kept s others r.0 r.1)
          (compress_query_aware S m s sink recent importance query)
  unfolding compress_query_aware
  compress_query_aware-Keeps sink recent importance query a =
      let n = length s.block_table in
      Ensures-bind (guard (leb 1 importance && leb 1 query) Error.value_error) _ (λ _ _.
        Ensures-if (leb n (sink + recent + importance)) _ _ (λ _. Ensures-pure (a, refl))
          (λ _.
            Ensures-bind
              (candidate_tokens s
                (range_from (min sink n) (max (min sink n) (n - recent) - min sink n)))
              _ (λ pages _. compress_keep_positions-Keeps m s others a _)))
