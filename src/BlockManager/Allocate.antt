-- ===== src/BlockManager/Allocate.antt =====
-- nanovllm/engine/block_manager.py: `can_allocate`, `planned_allocation_pages`, `allocate`,
-- `reserve_restore`, `commit_restored_prefix` and `hash_blocks`. `abort_restore` is with the releases.
use nano_vllm_qos.Prelude.{
  ℕ, zero, suc, ◌+◌, ◌-◌, ◌*◌, ◌/◌, Bool, true, false, Option, none, some, List, [], ◌∷◌, ◌++◌,
  Result, ok, Error, guard, or_raise, ◌>>=◌, ◌>>◌, if◌then◌else◌, ◌==◌, ltb, length, get_elem?, set,
  take, drop, elem, ◌||◌,
}
use nano_vllm_qos.Prelude.Dict
use nano_vllm_qos.Sequence.{Sequence, num_blocks, block}
use nano_vllm_qos.BlockManager.{BlockManager, PrefixIndex, update, range_from}
use nano_vllm_qos.BlockManager.Lookup.{lookup_cached_blocks, compute_hash, block_keys}
use nano_vllm_qos.BlockManager.Pool.{claim_all, allocate_blocks}

-- How many of the blocks are in use.
unfoldable pub num_used : List ℕ → List ℕ → ℕ
num_used used [] = 0
num_used used (b ∷ bs) = (if elem b used then 1 else 0) + num_used used bs

abbrev pub is_empty : List ℕ → Bool
is_empty [] = true
is_empty (x ∷ xs) = false

module _ {F : Type 0} (P : PrefixIndex) (xxh64 : List ℕ → ℕ) where
  -- The number of cached blocks, or `none` for -1.
  unfoldable pub can_allocate :
      BlockManager P.Index → Sequence F → Result (BlockManager P.Index × Option ℕ)
  can_allocate m s = do
    (m', cached) ← lookup_cached_blocks P xxh64 m s
    let num_new_blocks = num_blocks s - num_used m'.used_block_ids cached
    ok (
        if ltb (length m'.free_block_ids) num_new_blocks
        then (record m' { pending_matches = Dict.remove s.seq_id m'.pending_matches }, none)
        else (
          record m' { pending_matches = Dict.put s.seq_id cached m'.pending_matches },
          some (length cached),
        ))

  unfoldable pub planned_allocation_pages : BlockManager P.Index → Sequence F → Result ℕ
  planned_allocation_pages m s = do
    matched ← or_raise (Dict.get s.seq_id m.pending_matches) Error.key_error
    ok (num_blocks s - num_used m.used_block_ids matched)

  -- The plan of the last check, or a new lookup where there is none of the given length.
  unfoldable pub planned_match :
      BlockManager P.Index → Sequence F → ℕ → Result (BlockManager P.Index × List ℕ)
  planned_match m s num_cached_blocks =
      let m' = record m { pending_matches = Dict.remove s.seq_id m.pending_matches } in
      elim (Dict.get s.seq_id m.pending_matches) [
        | none ↦ lookup_cached_blocks P xxh64 m' s
        | some cached ↦
            if length cached == num_cached_blocks
            then ok (m', cached)
            else lookup_cached_blocks P xxh64 m' s
      ]

  unfoldable pub allocate :
      BlockManager P.Index → Sequence F → ℕ → Result (BlockManager P.Index × Sequence F)
  unfolding planned_match
  allocate m s num_cached_blocks = do
    guard (is_empty s.block_table) Error.assertion_error
    (m', cached) ← planned_match m s num_cached_blocks
    guard (length cached == num_cached_blocks) Error.runtime_error
    m'' ← claim_all m' cached
    (m''', fresh) ← allocate_blocks P (num_blocks s - num_cached_blocks) m''
    ok (
      m''',
      record s {
        block_table = cached ++ fresh;
        kv_block_logical_indices = range_from 0 (num_blocks s);
        num_cached_tokens = num_cached_blocks * m.block_size;
        num_physical_cached_tokens = num_cached_blocks * m.block_size;
      },
    )

  unfoldable pub reserve_restore :
      BlockManager P.Index
      → Sequence F
      → ℕ
      → ℕ
      → Result (BlockManager P.Index × Sequence F × List ℕ)
  reserve_restore m s num_local_cached_blocks num_remote_cached_blocks = do
    guard (ltb num_local_cached_blocks num_remote_cached_blocks) Error.value_error
    guard (ltb num_remote_cached_blocks (num_blocks s)) Error.value_error
    (m', s') ← allocate m s num_local_cached_blocks
    ok (
      m',
      s',
      take (num_remote_cached_blocks - num_local_cached_blocks)
          (drop num_local_cached_blocks s'.block_table),
    )

module _ {F I : Type 0} (s : Sequence F) where
  -- `block.update(-1, seq.block(i))` for `n` positions of the table from `i` on
  unfoldable pub relabel : ℕ → ℕ → BlockManager I → Result (BlockManager I)
  relabel i zero m = ok m
  relabel i (suc n) m = do
    b ← or_raise (get_elem? s.block_table i) Error.index_error
    found ← or_raise (get_elem? m.blocks b) Error.index_error
    token_ids ← block s i
    relabel (suc i) n (record m { blocks = set m.blocks b (update found none token_ids) })

  -- The same for the hash back end: each block gets the hash of the prefix that it ends.
  unfoldable pub rehash : (List ℕ → ℕ) → ℕ → ℕ → Option ℕ → BlockManager I → Result (BlockManager I)
  rehash xxh64 i zero h m = ok m
  rehash xxh64 i (suc n) h m = do
    b ← or_raise (get_elem? s.block_table i) Error.index_error
    found ← or_raise (get_elem? m.blocks b) Error.index_error
    token_ids ← block s i
    let h' = compute_hash xxh64 token_ids h
    rehash xxh64 (suc i) n (some h') (record m {
      blocks = set m.blocks b (update found (some h') token_ids);
      hash_to_block_id = Dict.put h' found.block_id m.hash_to_block_id;
    })

module _ {F : Type 0} (P : PrefixIndex) (xxh64 : List ℕ → ℕ) where
  -- Enter the first `last` blocks of the table into the radix index, those from `first` on being new.
  unfoldable pub index_blocks :
      BlockManager P.Index → Sequence F → P.Index → ℕ → ℕ → Result (BlockManager P.Index)
  index_blocks m s index first last = do
    m' ← relabel s first (last - first) m
    keys ← block_keys s 0 last
    index' ← P.insert index keys (take last s.block_table)
    ok (record m' { radix_cache = some index' })

  unfoldable pub commit_restored_prefix :
      BlockManager P.Index → Sequence F → ℕ → Result (BlockManager P.Index × Sequence F)
  commit_restored_prefix m s num_cached_blocks = do
    let current_blocks = s.num_cached_tokens / m.block_size
    guard (ltb current_blocks num_cached_blocks) Error.value_error
    guard (ltb num_cached_blocks (num_blocks s)) Error.value_error
    guard (length s.block_table == num_blocks s) Error.runtime_error
    m' ← elim m.radix_cache [
      | none ↦ rehash s xxh64 0 num_cached_blocks none m
      | some index ↦ index_blocks m s index current_blocks num_cached_blocks
    ]
    ok (
      m',
      record s {
        num_cached_tokens = num_cached_blocks * m.block_size;
        num_physical_cached_tokens = num_cached_blocks * m.block_size;
      },
    )

  -- The hash of the block before position `start`.
  unfoldable pub previous_hash : BlockManager P.Index → Sequence F → ℕ → Result (Option ℕ)
  previous_hash m s zero = ok none
  previous_hash m s (suc i) = do
    b ← or_raise (get_elem? s.block_table i) Error.index_error
    found ← or_raise (get_elem? m.blocks b) Error.index_error
    ok found.hash

  -- `hash_blocks`: the blocks that the scheduled tokens complete enter the prefix cache.
  unfoldable pub hash_blocks : BlockManager P.Index → Sequence F → Result (BlockManager P.Index)
  unfolding previous_hash
  hash_blocks m s =
      let start = s.num_cached_tokens / m.block_size in
      let end = (s.num_cached_tokens + s.num_scheduled_tokens) / m.block_size in
      if s.kv_compressed || start == end then ok m else elim m.radix_cache [
        | none ↦ do h ← previous_hash m s start; rehash s xxh64 start (end - start) h m
        | some index ↦ index_blocks m s index start end
      ]
