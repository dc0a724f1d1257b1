-- ===== src/BlockManager/Correct.antt =====
-- The operations of the block manager keep the account of the pool, succeed where they were promised
-- to, and change the request as they should. `others` counts the references that the tables of the
-- other requests hold.
use nano_vllm_qos.Prelude.{
  ℕ, ◌+◌, ◌-◌, ◌*◌, ◌≤◌, ◌≡◌, refl, false, List, [], ok, arith, length, reverse, count,
  length-reverse, length-drop, take, drop, le→leb, count-take-drop, count-reverse,
}
use nano_vllm_qos.Prelude.Dict
use nano_vllm_qos.Sequence.{Sequence}
use nano_vllm_qos.BlockManager.{BlockManager}
use nano_vllm_qos.BlockManager.Invariant.{ref_of, Consistent}
use nano_vllm_qos.BlockManager.Accounts.{
  Moves, nothing, refs_in, release_all-free, release_all-Moves, release_all_total,
}
use nano_vllm_qos.BlockManager.Pool.{release_all}
use nano_vllm_qos.BlockManager.Release.{deallocate, reclaim_suffix}

-- The pool is consistent, and its reference counts are what the request's table and the other
-- tables hold.
pub record Accounts {F I : Type 0} (m : BlockManager I) (s : Sequence F) (others : ℕ → ℕ)
    : Type 0 where
  pub consistent : Consistent m
  pub counted : (b : ℕ) → ref_of m.blocks b ≡ others b + count b s.block_table

module _ {F I : Type 0} (m : BlockManager I) (s : Sequence F) (others : ℕ → ℕ) where
  abbrev without_plan : BlockManager I
  without_plan = record m { pending_resume_matches = Dict.remove s.seq_id m.pending_resume_matches }

  without_plan-Consistent : Consistent m → Consistent without_plan
  without_plan-Consistent w = record { used = w.used; free = w.free; total = w.total }

  -- Giving back some blocks of the table.
  give_back :
      (bs : List ℕ)
      → Accounts m s others
      → ((c : ℕ) → count c bs ≤ count c s.block_table)
      → (m' : BlockManager I) × (release_all without_plan (reverse bs) ≡ ok m')
        × Moves without_plan m' nothing (refs_in (reverse bs))
  give_back bs a part =
      let w = without_plan-Consistent a.consistent in
      let (m', e) =
        release_all_total (reverse bs) without_plan w
          (λ c. omega (arith, count-reverse c bs, a.counted c, part c)) in
      (m', e, release_all-Moves (reverse bs) without_plan w e)

  -- Deallocating a request of an accounted pool never faults. It empties the table and both token
  -- counters, gives back every reference of the table and no other, and leaves the pool accounted
  -- and of the same size.
  pub deallocate_lem :
      Accounts m s others
      → (m' : BlockManager I) × (s' : Sequence F) × (deallocate m s ≡ ok (m', s'))
        × Accounts m' s' others
        × (s'.block_table ≡ [])
        × (s'.num_cached_tokens ≡ 0)
        × (s'.num_physical_cached_tokens ≡ 0)
        × (length m'.blocks ≡ length m.blocks)
  unfolding deallocate count
  deallocate_lem a =
      let (m', e, p) = give_back s.block_table a (λ c. omega arith) in
      (
        m',
        record s {
          num_cached_tokens = 0;
          num_physical_cached_tokens = 0;
          kv_compressed = false;
          block_table = [];
          kv_block_logical_indices = [];
        },
        rw e,
        record {
          consistent = p.consistent;
          counted = λ c. omega (arith, p.refs c, a.counted c, count-reverse c s.block_table);
        },
        refl,
        refl,
        refl,
        p.size,
      )

  -- On an accounted pool, reclaiming a suffix succeeds where the kept prefix is within the table and
  -- within the computed tokens. It keeps the first blocks of the table and leaves the pool accounted,
  -- so the references of the other blocks are given back. The number returned is how many blocks
  -- became free, at most one for each position given up.
  pub reclaim_suffix_lem :
      (keep : ℕ)
      → Accounts m s others
      → keep ≤ length s.block_table
      → keep * m.block_size ≤ s.num_cached_tokens
      → (m' : BlockManager I) × (s' : Sequence F) × (freed : ℕ) × (reclaim_suffix m s keep
          ≡ ok (m', s', freed))
        × Accounts m' s' others
        × (s'.block_table ≡ take keep s.block_table)
        × (s'.num_cached_tokens ≡ keep * m.block_size)
        × (length m.free_block_ids + freed ≡ length m'.free_block_ids)
        × (keep + freed ≤ length s.block_table)
  unfolding reclaim_suffix
  reclaim_suffix_lem keep a within computed =
      let table = s.block_table in
      let (m', e, p) =
        give_back (drop keep table) a (λ c. omega (arith, count-take-drop c keep table)) in
      (
        m',
        record s {
          block_table = take keep s.block_table;
          kv_block_logical_indices = take keep s.kv_block_logical_indices;
          num_cached_tokens = keep * m.block_size;
          num_physical_cached_tokens = keep * m.block_size;
        },
        length m'.free_block_ids - length m.free_block_ids,
        rw (le→leb _ _ within, le→leb _ _ computed, e),
        record {
          consistent = p.consistent;
          counted = λ c. omega (
            arith,
            p.refs c,
            a.counted c,
            count-reverse c (drop keep table),
            count-take-drop c keep table,
          );
        },
        refl,
        refl,
        omega (arith, release_all-free _ _ e),
        omega (
          arith,
          release_all-free _ _ e,
          length-reverse (drop keep table),
          length-drop keep table,
        ),
      )
