-- ===== src/BlockManager/Labels.antt =====
-- Entering blocks into the prefix cache changes what the blocks say, and no reference to them.
use nano_vllm_qos.Prelude.{
  ℕ, zero, suc, ◌+◌, ◌-◌, ◌/◌, ◌≡◌, refl, ◌||◌, Option, none, some, List, Error, guard, or_raise,
  arith, ltb, ◌==◌, length, take, get_elem?, set, length-set, Option-cases, inl, inr, ◌∙◌,
}
use nano_vllm_qos.Prelude.Ensures.{
  Ensures, Ensures-pure, Ensures-if, Ensures-bind, Ensures-then, or_raise-some,
}
use nano_vllm_qos.Sequence.{Sequence, num_blocks, block}
use nano_vllm_qos.BlockManager.{BlockManager, Block, PrefixIndex, update}
use nano_vllm_qos.BlockManager.Invariant.{ref_of, ref_of-get, ref_of-set}
use nano_vllm_qos.BlockManager.Correct.{Accounts}
use nano_vllm_qos.BlockManager.Lookup.{compute_hash, block_keys}
use nano_vllm_qos.BlockManager.Allocate.{
  relabel, rehash, index_blocks, commit_restored_prefix, hash_blocks, previous_hash,
}

module _ {F I : Type 0} (s t : Sequence F) (others : ℕ → ℕ) where
  -- A block with another hash and other tokens has the references that it had.
  relabelled :
      (m m' : BlockManager I) (b : ℕ) (x : Block) (hash : Option ℕ) (token_ids : List ℕ)
      → get_elem? m.blocks b ≡ some x
      → m'.blocks ≡ set m.blocks b (update x hash token_ids)
      → m'.free_block_ids ≡ m.free_block_ids
      → m'.used_block_ids ≡ m.used_block_ids
      → Accounts m t others
      → Accounts m' t others
  relabelled m m' b x hash token_ids found blocks free used a =
      let refs : (c : ℕ) → ref_of m'.blocks c ≡ ref_of m.blocks c = λ c. rw blocks (
        ground (
          arith,
          ref_of-get m.blocks b found,
          ref_of-set m.blocks b c (update x hash token_ids),
        )) in
      let size : length m'.blocks ≡ length m.blocks =
        rw blocks (length-set m.blocks b (update x hash token_ids)) in
      record {
        consistent = record {
          used = λ c. rw (used, refs c) (a.consistent.used c);
          free = λ c. rw (free, size, refs c) (a.consistent.free c);
          total = rw (free, used, size) a.consistent.total;
        };
        counted = λ c. refs c ∙ a.counted c;
      }

  relabel-Keeps :
      (i n : ℕ) (m : BlockManager I)
      → Accounts m t others
      → Ensures (λ m'. Accounts m' t others) (relabel s i n m)
  unfolding relabel
  relabel-Keeps i zero m a = Ensures-pure a
  relabel-Keeps i (suc n) m a =
      Ensures-bind (or_raise (get_elem? s.block_table i) Error.index_error) _ (λ b _.
        Ensures-bind (or_raise (get_elem? m.blocks b) Error.index_error) _ (λ x found.
          Ensures-bind (block s i) _ (λ token_ids _.
            relabel-Keeps (suc i) n _
              (relabelled m _ b x none token_ids (or_raise-some _ _ found) refl refl refl a))))

  rehash-Keeps :
      (xxh64 : List ℕ → ℕ) (i n : ℕ) (h : Option ℕ) (m : BlockManager I)
      → Accounts m t others
      → Ensures (λ m'. Accounts m' t others) (rehash s xxh64 i n h m)
  unfolding rehash
  rehash-Keeps xxh64 i zero h m a = Ensures-pure a
  rehash-Keeps xxh64 i (suc n) h m a =
      Ensures-bind (or_raise (get_elem? s.block_table i) Error.index_error) _ (λ b _.
        Ensures-bind (or_raise (get_elem? m.blocks b) Error.index_error) _ (λ x found.
          Ensures-bind (block s i) _ (λ token_ids _.
            let h' = compute_hash xxh64 token_ids h in
            rehash-Keeps xxh64 (suc i) n (some h') _
              (relabelled m _ b x (some h') token_ids (or_raise-some _ _ found) refl refl refl a))))

module _ {F : Type 0} (P : PrefixIndex) (xxh64 : List ℕ → ℕ) (m : BlockManager P.Index)
    (s : Sequence F) (others : ℕ → ℕ) (a : Accounts m s others) where
  index_blocks-Keeps :
      (index : P.Index) (i j : ℕ)
      → Ensures (λ m'. Accounts m' s others) (index_blocks P xxh64 m s index i j)
  unfolding index_blocks
  index_blocks-Keeps index i j =
      Ensures-then _ (relabel s i (j - i) m) _ (relabel-Keeps s s others i (j - i) m a) (λ m' h.
        Ensures-bind (block_keys s 0 j) _ (λ keys _.
          Ensures-bind (P.insert index keys (take j s.block_table)) _ (λ index' _.
            Ensures-pure (record {
              consistent = record {
                used = h.consistent.used;
                free = h.consistent.free;
                total = h.consistent.total;
              };
              counted = h.counted;
            }))))

  pub hash_blocks-Keeps : Ensures (λ m'. Accounts m' s others) (hash_blocks P xxh64 m s)
  unfolding hash_blocks
  hash_blocks-Keeps =
      let i = s.num_cached_tokens / m.block_size in
      let j = (s.num_cached_tokens + s.num_scheduled_tokens) / m.block_size in
      Ensures-if (s.kv_compressed || i == j) _ _ (λ _. Ensures-pure a)
        (λ _. elim (Option-cases m.radix_cache) [
          | inl hash ↦ rw hash (
              Ensures-bind (previous_hash P xxh64 m s i) _
                (λ h _. rehash-Keeps s s others xxh64 i (j - i) h m a))
          | inr (index, radix) ↦ rw radix (index_blocks-Keeps index i j)
        ])

  commit_index :
      (i n : ℕ)
      → Ensures
          (λ m'. Accounts m' s others)
          (elim m.radix_cache [
            | none ↦ rehash s xxh64 0 n none m
            | some index ↦ index_blocks P xxh64 m s index i n
          ])
  commit_index i n = elim (Option-cases m.radix_cache) [
    | inl hash ↦ rw hash (rehash-Keeps s s others xxh64 0 n none m a)
    | inr (index, radix) ↦ rw radix (index_blocks-Keeps index i n)
  ]

  pub commit_restored_prefix-Keeps :
      (n : ℕ)
      → Ensures
          (λ r. Accounts r.0 r.1 others × (r.1.seq_id ≡ s.seq_id))
          (commit_restored_prefix P xxh64 m s n)
  unfolding commit_restored_prefix
  commit_restored_prefix-Keeps n =
      let i = s.num_cached_tokens / m.block_size in
      Ensures-bind (guard (ltb i n) Error.value_error) _ (λ _ _.
        Ensures-bind (guard (ltb n (num_blocks s)) Error.value_error) _ (λ _ _.
          Ensures-bind (guard (length s.block_table == num_blocks s) Error.runtime_error) _ (λ _ _.
            Ensures-then (λ m'. Accounts m' s others)
              (elim m.radix_cache [
                | none ↦ rehash s xxh64 0 n none m
                | some index ↦ index_blocks P xxh64 m s index i n
              ])
              _ (commit_index i n)
              (λ m' h.
                Ensures-pure (record { consistent = h.consistent; counted = h.counted }, refl)))))
