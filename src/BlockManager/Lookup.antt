-- ===== src/BlockManager/Lookup.antt =====
-- `compute_hash`, `_lookup_cached_blocks`, `cached_prefix_blocks`.
use nano_vllm_qos.Prelude.{
  ℕ, zero, suc, ◌+◌, ◌-◌, ◌/◌, ◌%◌, Bool, true, false, Option, none, some, List, [], ◌∷◌, ◌++◌,
  Result, ok, Error, or_raise, ◌>>=◌, ◌==◌, ◌&&◌, length, get_elem?,
}
use nano_vllm_qos.Prelude.Dict
use nano_vllm_qos.Sequence.{Sequence, num_blocks, block}
use nano_vllm_qos.BlockManager.{BlockManager, PrefixIndex}

-- `n.to_bytes(k, "little")`
unfoldable pub to_bytes : ℕ → ℕ → List ℕ
to_bytes zero n = []
to_bytes (suc k) n = n % 256 ∷ to_bytes k (n / 256)

-- `np.array(token_ids).tobytes()`: 8 bytes for each token.
unfoldable pub token_bytes : List ℕ → List ℕ
unfolding to_bytes
token_bytes [] = []
token_bytes (t ∷ ts) = to_bytes 8 t ++ token_bytes ts

prefix_bytes : Option ℕ → List ℕ
unfolding to_bytes
prefix_bytes none = []
prefix_bytes (some h) = to_bytes 8 h

-- `BlockManager.compute_hash`; `xxh64` is the digest of xxhash over the bytes that it is fed.
unfoldable pub compute_hash : (List ℕ → ℕ) → List ℕ → Option ℕ → ℕ
unfolding prefix_bytes token_bytes
compute_hash xxh64 token_ids prefix = xxh64 (prefix_bytes prefix ++ token_bytes token_ids)

-- `==` of two token lists
unfoldable pub same_tokens : List ℕ → List ℕ → Bool
same_tokens [] [] = true
same_tokens (x ∷ xs) (y ∷ ys) = x == y && same_tokens xs ys
same_tokens _ _ = false

module _ {F : Type 0} where
  -- `[tuple(seq.block(i)) for i in range(start, start + n)]`
  unfoldable pub block_keys : Sequence F → ℕ → ℕ → Result (List (List ℕ))
  block_keys s start zero = ok []
  block_keys s start (suc n) = do
    key ← block s start
    keys ← block_keys s (suc start) n
    ok (key ∷ keys)

module _ {F I : Type 0} (xxh64 : List ℕ → ℕ) (m : BlockManager I) (s : Sequence F) where
  -- The loop of the hash back end, from block `i` with `n` blocks to go and the hash so far.
  unfoldable pub match_hashes : ℕ → ℕ → Option ℕ → Result (List ℕ)
  match_hashes i zero h = ok []
  match_hashes i (suc n) h = do
    token_ids ← block s i
    let h' = compute_hash xxh64 token_ids h
    elim (Dict.get h' m.hash_to_block_id) [
      | none ↦ ok []
      | some block_id ↦ do
        found ← or_raise (get_elem? m.blocks block_id) Error.index_error
        elim (same_tokens found.token_ids token_ids) [
          | false ↦ ok []
          | true ↦ do rest ← match_hashes (suc i) n (some h'); ok (block_id ∷ rest)
        ]
    ]

-- The counters of a lookup that found `matched`.
abbrev pub counted : {I : Type 0} → BlockManager I → ℕ → List ℕ → BlockManager I
counted m queried matched = record m {
  cache_lookups = m.cache_lookups + 1;
  cache_queried_blocks = m.cache_queried_blocks + queried;
  cache_hit_blocks = m.cache_hit_blocks + length matched;
}

module _ {F : Type 0} (P : PrefixIndex) (xxh64 : List ℕ → ℕ) where
  -- `_lookup_cached_blocks`. The last block is never looked up.
  unfoldable pub lookup_cached_blocks :
      BlockManager P.Index → Sequence F → Result (BlockManager P.Index × List ℕ)
  lookup_cached_blocks m s = elim m.radix_cache [
    | none ↦ do
      matched ← match_hashes xxh64 m s 0 (num_blocks s - 1) none
      ok (counted m (num_blocks s - 1) matched, matched)
    | some index ↦ do
      keys ← block_keys s 0 (num_blocks s - 1)
      let (index', matched) = P.match_keys index keys
      ok (counted (record m { radix_cache = some index' }) (num_blocks s - 1) matched, matched)
  ]

  unfoldable pub cached_prefix_blocks :
      BlockManager P.Index → Sequence F → Result (BlockManager P.Index × ℕ)
  cached_prefix_blocks m s = do (m', matched) ← lookup_cached_blocks m s; ok (m', length matched)
