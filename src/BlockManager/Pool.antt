-- ===== src/BlockManager/Pool.antt =====
-- `_allocate_block`, `_deallocate_block`, and the loops that take and give back references.
use nano_vllm_qos.Prelude.{
  ℕ, zero, suc, ◌+◌, ◌-◌, Bool, true, false, Option, none, some, List, [], ◌∷◌, ◌++◌, Result, ok,
  err, Error, guard, or_raise, ◌>>=◌, ◌>>◌, if◌then◌else◌, ◌==◌, ltb, get_elem?, set, elem, erase,
}
use nano_vllm_qos.Prelude.Dict
use nano_vllm_qos.BlockManager.{BlockManager, Block, PrefixIndex, reset, set_add}

-- `deque.popleft`, `deque[0]`
abbrev pub first : List ℕ → Result ℕ
first [] = err Error.index_error
first (b ∷ bs) = ok b

-- The first block that passes the test.
unfoldable pub find : (ℕ → Bool) → List ℕ → Option ℕ
find test [] = none
find test (b ∷ bs) = if test b then some b else find test bs

-- `hash_to_block_id` without the entry that still names the block.
abbrev pub forget_hash : List (ℕ × ℕ) → Option ℕ → ℕ → List (ℕ × ℕ)
forget_hash d none b = d
forget_hash d (some h) b = elim (Dict.get h d) [
  | none ↦ d
  | some c ↦ if c == b then Dict.remove h d else d
]

module _ (P : PrefixIndex) where
  -- The block to hand out next: the oldest free one. With the radix index, the oldest free one that
  -- is not indexed, else the least recently used leaf, else the oldest free one.
  unfoldable pub choose : BlockManager P.Index → Result ℕ
  unfolding find
  choose m = elim m.radix_cache [
    | none ↦ first m.free_block_ids
    | some index ↦
        elim (find (λ b. if P.is_indexed index b then false else true) m.free_block_ids) [
          | some b ↦ ok b
          | none ↦ elim (P.lru_leaf_block index m.free_block_ids) [
            | some b ↦ ok b
            | none ↦ first m.free_block_ids
          ]
        ]
  ]

  -- The block leaves the prefix cache.
  unfoldable pub evict : BlockManager P.Index → ℕ → Block → BlockManager P.Index
  evict m b found = elim m.radix_cache [
    | none ↦ record m { hash_to_block_id = forget_hash m.hash_to_block_id found.hash b }
    | some index ↦
        let (index', removed) = P.remove_block index b in
        record m {
          radix_cache = some index';
          cache_evictions = if removed then m.cache_evictions + 1 else m.cache_evictions;
        }
  ]

  -- `_allocate_block`
  unfoldable pub allocate_block : BlockManager P.Index → Result (BlockManager P.Index × ℕ)
  allocate_block m = do
    b ← choose m
    guard (elem b m.free_block_ids) Error.value_error
    found ← or_raise (get_elem? m.blocks b) Error.index_error
    guard (found.ref_count == 0) Error.assertion_error
    let m' = evict m b found
    ok (
      record m' {
        free_block_ids = erase b m.free_block_ids;
        blocks = set m.blocks b (reset found);
        used_block_ids = set_add b m.used_block_ids;
      },
      b,
    )

  -- `n` fresh blocks, in the order in which they are appended to the table
  unfoldable pub allocate_blocks : ℕ → BlockManager P.Index → Result (BlockManager P.Index × List ℕ)
  allocate_blocks zero m = ok (m, [])
  allocate_blocks (suc n) m = do
    (m', b) ← allocate_block m
    (m'', bs) ← allocate_blocks n m'
    ok (m'', b ∷ bs)

module _ {I : Type 0} where
  -- `_deallocate_block`
  unfoldable pub deallocate_block : BlockManager I → ℕ → Result (BlockManager I)
  deallocate_block m b = do
    found ← or_raise (get_elem? m.blocks b) Error.index_error
    guard (found.ref_count == 0) Error.assertion_error
    guard (elem b m.used_block_ids) Error.key_error
    ok (record m {
      used_block_ids = erase b m.used_block_ids;
      free_block_ids = m.free_block_ids ++ b ∷ [];
    })

  -- One more reference to a cached block, which leaves the free list if nobody used it.
  unfoldable pub claim : BlockManager I → ℕ → Result (BlockManager I)
  claim m b = do
    found ← or_raise (get_elem? m.blocks b) Error.index_error
    if elem b m.used_block_ids
        then ok (record m {
          blocks = set m.blocks b (record found { ref_count = found.ref_count + 1 });
        })
        else do
          guard (elem b m.free_block_ids) Error.value_error
          ok (record m {
            blocks = set m.blocks b (record found { ref_count = 1 });
            free_block_ids = erase b m.free_block_ids;
            used_block_ids = set_add b m.used_block_ids;
          })

  unfoldable pub claim_all : BlockManager I → List ℕ → Result (BlockManager I)
  claim_all m [] = ok m
  claim_all m (b ∷ bs) = do m' ← claim m b; claim_all m' bs

  -- One reference less. A count of 0 would fall to -1 in the source; the model faults there, and
  -- the theorems show that it does not happen.
  unfoldable pub release : BlockManager I → ℕ → Result (BlockManager I)
  release m b = do
    found ← or_raise (get_elem? m.blocks b) Error.index_error
    guard (ltb 0 found.ref_count) Error.assertion_error
    let m' = record m { blocks = set m.blocks b (record found { ref_count = found.ref_count - 1 }) }
    if found.ref_count == 1 then deallocate_block m' b else ok m'

  unfoldable pub release_all : BlockManager I → List ℕ → Result (BlockManager I)
  release_all m [] = ok m
  release_all m (b ∷ bs) = do m' ← release m b; release_all m' bs
