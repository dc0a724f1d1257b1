-- ===== src/BlockManager/Release.antt =====
-- `deallocate`, `abort_restore`, `reclaim_suffix`, `_compress_keep_positions` and
-- `compress_sink_recent`.
use nano_vllm_qos.Prelude.{
  ℕ, suc, ◌+◌, ◌-◌, ◌*◌, min, max, Bool, true, false, List, [], ◌∷◌, Result, ok, Error, guard,
  ◌>>=◌, ◌>>◌, if◌then◌else◌, ltb, leb, length, take, drop, reverse, ◌&&◌, ◌||◌, not,
}
use nano_vllm_qos.Prelude.Dict
use nano_vllm_qos.Sequence.{Sequence}
use nano_vllm_qos.BlockManager.{BlockManager}
use nano_vllm_qos.BlockManager.Allocate.{is_empty}
use nano_vllm_qos.BlockManager.Pool.{release_all}

-- The entries at the positions that pass the test, in a list that begins at position `i`.
unfoldable pub keep_at : (ℕ → Bool) → ℕ → List ℕ → List ℕ
keep_at keep i [] = []
keep_at keep i (x ∷ xs) = if keep i then x ∷ keep_at keep (suc i) xs else keep_at keep (suc i) xs

-- What a compression reports: blocks dropped, blocks freed, tokens dropped.
pub record Compression : Type 0 where
  pub dropped_blocks : ℕ
  pub freed_blocks : ℕ
  pub dropped_tokens : ℕ

abbrev pub no_compression : Compression
no_compression = record { dropped_blocks = 0; freed_blocks = 0; dropped_tokens = 0 }

-- The positions that stay: the first `sink` and the last `recent` of `n`.
unfoldable pub keeps_sink_recent : ℕ → ℕ → ℕ → ℕ → Bool
keeps_sink_recent sink recent n i = ltb i sink || leb (max sink (n - recent)) i

module _ {F I : Type 0} where
  abbrev pub forget_resume : BlockManager I → Sequence F → BlockManager I
  forget_resume m s = record m {
    pending_resume_matches = Dict.remove s.seq_id m.pending_resume_matches;
  }

  unfoldable pub deallocate : BlockManager I → Sequence F → Result (BlockManager I × Sequence F)
  deallocate m s = do
    m' ← release_all (forget_resume m s) (reverse s.block_table)
    ok (
      m',
      record s {
        num_cached_tokens = 0;
        num_physical_cached_tokens = 0;
        kv_compressed = false;
        block_table = [];
        kv_block_logical_indices = [];
      },
    )

  unfoldable pub abort_restore : BlockManager I → Sequence F → Result (BlockManager I × Sequence F)
  abort_restore m s = if is_empty s.block_table then ok (m, s) else deallocate m s

  -- The blocks that `reclaim_suffix` gave back to the free list are returned too.
  unfoldable pub reclaim_suffix :
      BlockManager I → Sequence F → ℕ → Result (BlockManager I × Sequence F × ℕ)
  reclaim_suffix m s keep_blocks = do
    guard (leb keep_blocks (length s.block_table)) Error.value_error
    guard (leb (keep_blocks * m.block_size) s.num_cached_tokens) Error.value_error
    m' ← release_all (forget_resume m s) (reverse (drop keep_blocks s.block_table))
    ok (
      m',
      record s {
        block_table = take keep_blocks s.block_table;
        kv_block_logical_indices = take keep_blocks s.kv_block_logical_indices;
        num_cached_tokens = keep_blocks * m.block_size;
        num_physical_cached_tokens = keep_blocks * m.block_size;
      },
      length m'.free_block_ids - length m.free_block_ids,
    )

  -- `_compress_keep_positions`
  unfoldable pub compress_keep_positions :
      BlockManager I → Sequence F → (ℕ → Bool) → Result (BlockManager I × Sequence F × Compression)
  compress_keep_positions m s keep =
      let dropped = keep_at (λ i. not (keep i)) 0 s.block_table in
      let dropped_tokens = min (length dropped * m.block_size) s.num_physical_cached_tokens in
      if is_empty dropped then ok (m, s, no_compression) else (do
        m' ← release_all m (reverse dropped)
        ok (
          m',
          record s {
            block_table = keep_at keep 0 s.block_table;
            kv_block_logical_indices = keep_at keep 0 s.kv_block_logical_indices;
            num_physical_cached_tokens = s.num_physical_cached_tokens - dropped_tokens;
            kv_compressed = true;
          },
          record {
            dropped_blocks = length dropped;
            freed_blocks = length m'.free_block_ids - length m.free_block_ids;
            dropped_tokens = dropped_tokens;
          },
        ))

  unfoldable pub compress_sink_recent :
      BlockManager I → Sequence F → ℕ → ℕ → Result (BlockManager I × Sequence F × Compression)
  compress_sink_recent m s sink_blocks recent_blocks = do
    guard (leb 1 sink_blocks && leb 1 recent_blocks) Error.value_error
    let n = length s.block_table
    if leb n (sink_blocks + recent_blocks) || leb (n - recent_blocks) sink_blocks
        then ok (m, s, no_compression)
        else compress_keep_positions m s (keeps_sink_recent sink_blocks recent_blocks n)
