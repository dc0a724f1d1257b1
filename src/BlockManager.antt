-- ===== src/BlockManager.antt =====
-- nanovllm/engine/block_manager.py: the pool of KV blocks. The parent holds the state; the children
-- hold the operations, in the order in which the file has them, and their theorems.
--
-- The radix index (radix_cache.py) is reached through the interface `PrefixIndex`. An operation
-- returns the new manager and the new request, or the exception that it raises.
pub mod Lookup
pub mod Pool
pub mod Allocate
pub mod Release
pub mod Invariant
pub mod Accounts
pub mod Resume
pub mod Correct
pub mod Match
pub mod Capacity
pub mod Compress
pub mod Append
pub mod Initial
pub mod Keeps
pub mod Labels
pub mod QueryAware
use nano_vllm_qos.Prelude.{
  ℕ, zero, suc, ◌+◌, ◌<◌, ◌≡◌, Bool, true, false, Option, none, some, List, [], ◌∷◌, Result, ok,
  err, Error, ◌>>=◌, if◌then◌else◌, elem, count, length, ◌≤◌,
}

pub record Block : Type 0 where
  pub block_id : ℕ
  pub ref_count : ℕ
  pub hash : Option ℕ
  pub token_ids : List ℕ

-- A `hash` of -1 is `none`.
abbrev pub update : Block → Option ℕ → List ℕ → Block
update b hash token_ids = record b { hash = hash; token_ids = token_ids }

abbrev pub reset : Block → Block
reset b = record b { ref_count = 1; hash = none; token_ids = [] }

-- What the manager calls of `RadixPrefixCache`, and the two laws that it relies on: the block
-- that the index proposes for eviction is one of the eligible ones, and a match is no longer than
-- its keys.
pub record PrefixIndex : Type 1 where
  pub Index : Type 0
  pub empty : Index
  pub is_indexed : Index → ℕ → Bool
  pub match_keys : Index → List (List ℕ) → Index × List ℕ
  pub insert : Index → List (List ℕ) → List ℕ → Result Index
  pub remove_block : Index → ℕ → Index × Bool
  pub lru_leaf_block : Index → List ℕ → Option ℕ
  pub lru_leaf_eligible :
      (i : Index) (eligible : List ℕ) (b : ℕ)
      → lru_leaf_block i eligible ≡ some b
      → 0 < count b eligible
  pub match_bounded :
      (i : Index) (keys : List (List ℕ)) → length (match_keys i keys).1 ≤ length keys

-- `prefix_cache_backend` is "radix" where `radix_cache` is there, and "hash" where it is not.
pub record BlockManager (Index : Type 0) : Type 0 where
  pub block_size : ℕ
  pub blocks : List Block
  pub hash_to_block_id : List (ℕ × ℕ)
  pub radix_cache : Option Index
  pub free_block_ids : List ℕ
  pub used_block_ids : List ℕ
  pub pending_matches : List (ℕ × List ℕ)
  pub pending_resume_matches : List (ℕ × List ℕ)
  pub cache_lookups : ℕ
  pub cache_queried_blocks : ℕ
  pub cache_hit_blocks : ℕ
  pub cache_evictions : ℕ

-- `range(i, i + n)`
abbrev pub range_from : ℕ → ℕ → List ℕ
range_from i zero = []
range_from i (suc n) = i ∷ range_from (suc i) n

-- `used_block_ids.add(b)`
abbrev pub set_add : ℕ → List ℕ → List ℕ
set_add b xs = if elem b xs then xs else b ∷ xs

abbrev pub fresh_block : ℕ → Block
fresh_block i = record { block_id = i; ref_count = 0; hash = none; token_ids = [] }

abbrev pub fresh_blocks : ℕ → ℕ → List Block
fresh_blocks i zero = []
fresh_blocks i (suc n) = fresh_block i ∷ fresh_blocks (suc i) n

pub data Backend : Type 0 where
  hash radix unsupported : Backend

abbrev index_of : {Index : Type 0} → Index → Backend → Result (Option Index)
index_of empty Backend.hash = ok none
index_of empty Backend.radix = ok (some empty)
index_of empty Backend.unsupported = err Error.value_error

-- `BlockManager.__init__`
unfoldable pub init : (P : PrefixIndex) → ℕ → ℕ → Backend → Result (BlockManager P.Index)
init P num_blocks block_size backend = do
  radix_cache ← index_of P.empty backend
  ok (record {
    block_size = block_size;
    blocks = fresh_blocks 0 num_blocks;
    hash_to_block_id = [];
    radix_cache = radix_cache;
    free_block_ids = range_from 0 num_blocks;
    used_block_ids = [];
    pending_matches = [];
    pending_resume_matches = [];
    cache_lookups = 0;
    cache_queried_blocks = 0;
    cache_hit_blocks = 0;
    cache_evictions = 0;
  })
