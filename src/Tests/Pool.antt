-- ===== src/Tests/Pool.antt =====
-- The block manager on a pool of four blocks.
use nano_vllm_qos.Prelude.{
  ◌/◌, ◌-◌, ℕ, zero, suc, ◌+◌, ◌≤◌, ◌<◌, ◌≡◌, ◌≢◌, refl, true, false, none, some, List, [], ◌∷◌,
  ◌++◌, ok, err, Error, arith, if◌then◌else◌, ◌==◌, ltb, length, count,
}
use nano_vllm_qos.Tests.Data.{request}
use nano_vllm_qos.Sequence.{Sequence, block, slice_block}
use nano_vllm_qos.BlockManager.{BlockManager, Block, PrefixIndex, Backend}
use nano_vllm_qos.BlockManager
use nano_vllm_qos.BlockManager.Invariant.{ref_of, Consistent}
use nano_vllm_qos.BlockManager.Allocate.{can_allocate, planned_allocation_pages, allocate, num_used}
use nano_vllm_qos.BlockManager.Append.{may_append_lem}
use nano_vllm_qos.BlockManager.Capacity.{InPool, Allocated, can_allocate-allocate}
use nano_vllm_qos.BlockManager.Compress.{compress_sink_recent_lem}
use nano_vllm_qos.BlockManager.Correct.{Accounts, deallocate_lem, reclaim_suffix_lem}
use nano_vllm_qos.BlockManager.Initial.{init-Consistent}
use nano_vllm_qos.BlockManager.Lookup.{
  lookup_cached_blocks, match_hashes, compute_hash, token_bytes, same_tokens,
}
use nano_vllm_qos.BlockManager.Match.{Holds, match_hashes-Holds}
use nano_vllm_qos.BlockManager.Release.{
  Compression, deallocate, reclaim_suffix, compress_sink_recent,
}
use nano_vllm_qos.BlockManager.Resume.{can_append, may_append}
use nano_vllm_qos.Prelude.Dict

abbrev no_block : (eligible : List ℕ) (b : ℕ) → none ≡ some b → 0 < count b eligible
no_block eligible b e = absurd (ground arith)

abbrev nil_bounded : (keys : List (List ℕ)) → 0 ≤ length keys
nil_bounded keys = omega arith

-- An index that holds nothing.
abbrev pub no_index : PrefixIndex
no_index = record {
  Index = Unit {0};
  empty = tt;
  is_indexed = λ i b. false;
  match_keys = λ i keys. (i, []);
  insert = λ i keys ids. ok i;
  remove_block = λ i b. (i, false);
  lru_leaf_block = λ i eligible. none;
  lru_leaf_eligible = λ i eligible b e. no_block eligible b e;
  match_bounded = λ i keys. nil_bounded keys;
}

-- A digest that tells inputs of different lengths apart.
abbrev pub digest : List ℕ → ℕ
digest bytes = length bytes

abbrev idle_block : ℕ → Block
idle_block i = record { block_id = i; ref_count = 0; hash = none; token_ids = [] }

-- Block 0 holds the first four tokens, for another request.
abbrev shared_block : ℕ → Block
shared_block refs = record {
  block_id = 0;
  ref_count = refs;
  hash = some 32;
  token_ids = 1 ∷ 2 ∷ 3 ∷ 4 ∷ [];
}

abbrev pub pool : BlockManager (Unit {0})
pool = record {
  block_size = 4;
  blocks = shared_block 1 ∷ idle_block 1 ∷ idle_block 2 ∷ idle_block 3 ∷ [];
  hash_to_block_id = (32, 0) ∷ [];
  radix_cache = none;
  free_block_ids = 1 ∷ 2 ∷ 3 ∷ [];
  used_block_ids = 0 ∷ [];
  pending_matches = [];
  pending_resume_matches = [];
  cache_lookups = 0;
  cache_queried_blocks = 0;
  cache_hit_blocks = 0;
  cache_evictions = 0;
}

abbrev pub others : ℕ → ℕ
others b = if b == 0 then 1 else 0

-- The account of the pool, block by block.
Agrees : (m : BlockManager (Unit {0})) (refs : ℕ → ℕ) (b : ℕ) → Type 0
Agrees m refs b =
    (ref_of m.blocks b ≡ refs b)
    × (count b m.used_block_ids ≡ (if ref_of m.blocks b == 0 then 0 else 1))
    × (count b m.free_block_ids
        ≡ (if ltb b (length m.blocks) then (if ref_of m.blocks b == 0 then 1 else 0) else 0))

pool-Agrees : (b : ℕ) → Agrees pool others b
unfolding Agrees count ref_of
pool-Agrees zero = (refl, refl, refl)
pool-Agrees (suc zero) = (refl, refl, refl)
pool-Agrees (suc (suc zero)) = (refl, refl, refl)
pool-Agrees (suc (suc (suc zero))) = (refl, refl, refl)
pool-Agrees (suc (suc (suc (suc b)))) = (ground arith, ground arith, ground arith)

pub pool-Accounts : Accounts pool request others
unfolding Agrees count
pool-Accounts = record {
  consistent = record {
    used = λ b. (pool-Agrees b).1;
    free = λ b. (pool-Agrees b).2;
    total = refl;
  };
  counted = λ b. omega (arith, (pool-Agrees b).0);
}

-- The pool and the request after an allocation: block 0 shared, two blocks of its own.
abbrev pub held : Sequence ℕ
held = record request {
  block_table = 0 ∷ 1 ∷ 2 ∷ [];
  kv_block_logical_indices = 0 ∷ 1 ∷ 2 ∷ [];
  num_cached_tokens = 9;
  num_physical_cached_tokens = 9;
}

abbrev owned_block : ℕ → Block
owned_block i = record { block_id = i; ref_count = 1; hash = none; token_ids = [] }

abbrev pub full_pool : BlockManager (Unit {0})
full_pool = record pool {
  blocks = shared_block 2 ∷ owned_block 1 ∷ owned_block 2 ∷ idle_block 3 ∷ [];
  free_block_ids = 3 ∷ [];
  used_block_ids = 2 ∷ 1 ∷ 0 ∷ [];
}

full_pool-Agrees : (b : ℕ) → Agrees full_pool (λ c. others c + count c (held.block_table)) b
unfolding Agrees count ref_of
full_pool-Agrees zero = (refl, refl, refl)
full_pool-Agrees (suc zero) = (refl, refl, refl)
full_pool-Agrees (suc (suc zero)) = (refl, refl, refl)
full_pool-Agrees (suc (suc (suc zero))) = (refl, refl, refl)
full_pool-Agrees (suc (suc (suc (suc b)))) = (ground arith, ground arith, ground arith)

pub full_pool-Accounts : Accounts full_pool held others
unfolding Agrees
full_pool-Accounts = record {
  consistent = record {
    used = λ b. (full_pool-Agrees b).1;
    free = λ b. (full_pool-Agrees b).2;
    total = refl;
  };
  counted = λ b. (full_pool-Agrees b).0;
}

pool-InPool : InPool no_index pool
pool-InPool index keys c none_there found = absurd (ground arith)

-- The check finds block 0 in the cache and plans two new pages.
abbrev checked : BlockManager (Unit {0})
checked = record pool {
  pending_matches = (7, 0 ∷ []) ∷ [];
  cache_lookups = 1;
  cache_queried_blocks = 2;
  cache_hit_blocks = 1;
}

can_allocate-request : can_allocate no_index digest pool request ≡ ok (checked, some 1)
unfolding can_allocate lookup_cached_blocks match_hashes compute_hash token_bytes same_tokens block
    slice_block Dict.get Dict.put num_used count
can_allocate-request = refl

can_allocate-allocate_example :
    (m' : BlockManager (Unit {0})) × (s' : Sequence ℕ) × (planned : ℕ) × (cached : List ℕ)
    × (planned_allocation_pages no_index digest checked request ≡ ok planned)
    × (planned ≤ 3)
    × ((found : BlockManager (Unit {0})) × (lookup_cached_blocks no_index digest pool request
          ≡ ok (found, cached)))
    × (length cached ≡ 1)
    × (allocate no_index digest checked request 1 ≡ ok (m', s'))
    × Allocated no_index digest checked request 1 planned cached others m' s'
can_allocate-allocate_example =
    can_allocate-allocate no_index digest pool request others checked 1 pool-Accounts pool-InPool
      refl can_allocate-request

deallocate_lem_example :
    (m' : BlockManager (Unit {0})) × (s' : Sequence ℕ) × (deallocate full_pool held ≡ ok (m', s'))
    × Accounts m' s' others
    × (s'.block_table ≡ [])
    × (s'.num_cached_tokens ≡ 0)
    × (s'.num_physical_cached_tokens ≡ 0)
    × (length m'.blocks ≡ 4)
deallocate_lem_example = deallocate_lem full_pool held others full_pool-Accounts

reclaim_suffix_lem_example :
    (m' : BlockManager (Unit {0})) × (s' : Sequence ℕ) × (freed : ℕ) × (reclaim_suffix full_pool
        held 1
      ≡ ok (m', s', freed))
    × Accounts m' s' others
    × (s'.block_table ≡ 0 ∷ [])
    × (s'.num_cached_tokens ≡ 4)
    × (1 + freed ≡ length m'.free_block_ids)
    × (1 + freed ≤ 3)
reclaim_suffix_lem_example =
    reclaim_suffix_lem full_pool held others 1 full_pool-Accounts (omega arith) (omega arith)

compress_sink_recent_lem_example :
    (m' : BlockManager (Unit {0})) × (s' : Sequence ℕ) × (c : Compression) × (compress_sink_recent
        full_pool held 1 1
      ≡ ok (m', s', c))
    × Accounts m' s' others
    × (s'.block_table ≡ 0 ∷ 2 ∷ [])
    × (1 + c.freed_blocks ≡ length m'.free_block_ids)
    × (length s'.block_table + c.dropped_blocks ≡ 3)
    × (s'.num_physical_cached_tokens + c.dropped_tokens ≡ 9)
compress_sink_recent_lem_example =
    compress_sink_recent_lem full_pool held others 1 1 (omega arith) (omega arith)
      full_pool-Accounts

can_append-held : can_append no_index full_pool held ≡ true
unfolding can_append
can_append-held = refl

may_append_lem_example :
    (m' : BlockManager (Unit {0})) × (s' : Sequence ℕ) × (pages : List ℕ) × (may_append no_index
        full_pool held
      ≡ ok (m', s'))
    × Accounts m' s' others
    × (s'.block_table ≡ (0 ∷ 1 ∷ 2 ∷ []) ++ pages)
    × (length pages + (9 - 1 + 4 - 1) / 4 ≡ (9 + 4 - 1) / 4)
    × ((b : ℕ) → 0 < count b pages → ref_of (full_pool.blocks) b ≡ 0)
may_append_lem_example =
    may_append_lem no_index full_pool held others (omega arith) (omega arith) full_pool-Accounts
      can_append-held

match_hashes-request : match_hashes digest pool request 0 2 none ≡ ok (0 ∷ [])
unfolding match_hashes compute_hash token_bytes same_tokens block slice_block Dict.get
match_hashes-request = refl

radix_known : Backend.radix ≢ Backend.unsupported
radix_known e = absurd (ground arith)

match_hashes-Holds_example : Holds pool request 0 (0 ∷ []) × (1 ≤ 2)
match_hashes-Holds_example =
    match_hashes-Holds pool request digest 0 2 none (0 ∷ []) match_hashes-request

init-Consistent_example :
    (m : BlockManager (Unit {0})) × (BlockManager.init no_index 4 256 Backend.radix ≡ ok m)
    × Consistent m
    × ((b : ℕ) → ref_of m.blocks b ≡ 0)
    × (length m.free_block_ids ≡ 4)
    × (BlockManager.init no_index 4 256 Backend.unsupported ≡ err Error.value_error)
init-Consistent_example = init-Consistent no_index 4 256 Backend.radix radix_known
