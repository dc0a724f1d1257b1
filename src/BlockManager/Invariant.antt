-- ===== src/BlockManager/Invariant.antt =====
-- The account of the pool: how the reference counts, the free list and the used set belong together,
-- and how each step on one block changes them. Everything is said block by block, as equations
-- between numbers.
use nano_vllm_qos.Prelude.{
  ℕ, zero, suc, ◌+◌, ◌-◌, ◌<◌, ◌≡◌, refl, Bool, true, false, some, List, [], ◌∷◌, ok, arith,
  if◌then◌else◌, ◌==◌, ltb, length, get_elem?, set, count, count-append, count-erase, length-append,
  length-erase, length-set, get_elem?-set_self, Option-cases, inl, inr,
}
use nano_vllm_qos.BlockManager.{BlockManager, Block, PrefixIndex, reset}
use nano_vllm_qos.BlockManager.Pool.{
  find, first, choose, evict, allocate_block, deallocate_block, claim, release,
}

-- The reference count of block `b`; 0 where there is no such block.
unfoldable pub ref_of : List Block → ℕ → ℕ
ref_of [] b = 0
ref_of (x ∷ xs) zero = x.ref_count
ref_of (x ∷ xs) (suc b) = ref_of xs b

-- How often `b` stands in a list that holds exactly the blocks in use, or exactly the idle ones.
abbrev pub used_count : ℕ → ℕ
used_count r = if r == 0 then 0 else 1

abbrev pub free_count : ℕ → ℕ → ℕ → ℕ
free_count n b r = if ltb b n then (if r == 0 then 1 else 0) else 0

-- The blocks with references are the used ones, each once; the others are the free ones, each once.
pub record Consistent {I : Type 0} (m : BlockManager I) : Type 0 where
  pub used : (b : ℕ) → count b m.used_block_ids ≡ used_count (ref_of m.blocks b)
  pub free : (b : ℕ) → count b m.free_block_ids ≡ free_count (length m.blocks) b (ref_of m.blocks b)
  pub total : length m.free_block_ids + length m.used_block_ids ≡ length m.blocks

-- Each block's reference count is the number of references that the tables hold.
abbrev pub Counts : {I : Type 0} → BlockManager I → (ℕ → ℕ) → Type 0
Counts m refs = (b : ℕ) → ref_of m.blocks b ≡ refs b

pub ref_of-get :
    (xs : List Block) (b : ℕ) {x : Block}
    → get_elem? xs b ≡ some x
    → (ref_of xs b ≡ x.ref_count) × (b < length xs)
unfolding ref_of
ref_of-get [] b e = absurd (ground arith)
ref_of-get (y ∷ ys) zero e = ground arith
ref_of-get (y ∷ ys) (suc b) e = ground (arith, ref_of-get ys b e)

pub lt-of-ref_of : (xs : List Block) (b : ℕ) → 0 < ref_of xs b → b < length xs
unfolding ref_of
lt-of-ref_of [] b h = absurd (omega arith)
lt-of-ref_of (y ∷ ys) zero h = omega arith
lt-of-ref_of (y ∷ ys) (suc b) h = omega (arith, lt-of-ref_of ys b h)

pub ref_of-set :
    (xs : List Block) (i b : ℕ) (v : Block)
    → i < length xs
    → ref_of (set xs i v) b ≡ (if i == b then v.ref_count else ref_of xs b)
unfolding ref_of
ref_of-set [] i b v h = absurd (omega arith)
ref_of-set (y ∷ ys) zero zero v h = refl
ref_of-set (y ∷ ys) zero (suc b) v h = ground arith
ref_of-set (y ∷ ys) (suc i) zero v h = ground arith
ref_of-set (y ∷ ys) (suc i) (suc b) v h = ground (arith, ref_of-set ys i b v)

pub get_of_lt : (xs : List Block) (b : ℕ) → b < length xs → (x : Block) × (get_elem? xs b ≡ some x)
get_of_lt [] b h = absurd (omega arith)
get_of_lt (y ∷ ys) zero h = (y, refl)
get_of_lt (y ∷ ys) (suc b) h = get_of_lt ys b (omega arith)

-- What `c` has in the new pool, against the old one, with `k` more references to `b`.
module _ {I : Type 0} (m : BlockManager I) (w : Consistent m) (b c : ℕ) (x : Block) where
  abbrev pub ConsistentAt : BlockManager I → Type 0
  ConsistentAt m' =
      (count c m'.used_block_ids ≡ used_count (ref_of m'.blocks c))
      × (count c m'.free_block_ids ≡ free_count (length m'.blocks) c (ref_of m'.blocks c))
      × (length m'.free_block_ids + length m'.used_block_ids ≡ length m'.blocks)
      × (length m'.blocks ≡ length m.blocks)

  pub claim_at :
      {m' : BlockManager I}
      → get_elem? m.blocks b ≡ some x
      → claim m b ≡ ok m'
      → ConsistentAt m' × (ref_of m'.blocks c ≡ ref_of m.blocks c + (if b == c then 1 else 0))
  unfolding claim count
  claim_at found e = ground (
    arith,
    w.used b,
    w.used c,
    w.free b,
    w.free c,
    w.total,
    ref_of-get m.blocks b found,
    ref_of-set m.blocks b c (record x { ref_count = x.ref_count + 1 }),
    ref_of-set m.blocks b c (record x { ref_count = 1 }),
    length-set m.blocks b (record x { ref_count = x.ref_count + 1 }),
    length-set m.blocks b (record x { ref_count = 1 }),
    count-erase c b m.free_block_ids,
    length-erase b m.free_block_ids,
  )

  pub release_at :
      {m' : BlockManager I}
      → get_elem? m.blocks b ≡ some x
      → release m b ≡ ok m'
      → ConsistentAt m' × (ref_of m.blocks c ≡ ref_of m'.blocks c + (if b == c then 1 else 0))
  unfolding release deallocate_block count
  release_at found e = ground (
    arith,
    w.used b,
    w.used c,
    w.free b,
    w.free c,
    w.total,
    ref_of-get m.blocks b found,
    ref_of-set m.blocks b c (record x { ref_count = x.ref_count - 1 }),
    length-set m.blocks b (record x { ref_count = x.ref_count - 1 }),
    get_elem?-set_self m.blocks b (record x { ref_count = x.ref_count - 1 }),
    count-erase c b m.used_block_ids,
    count-append c m.free_block_ids (b ∷ []),
    length-append m.free_block_ids (b ∷ []),
    length-erase b m.used_block_ids,
  )

first-mem : (xs : List ℕ) (b : ℕ) → first xs ≡ ok b → 0 < count b xs
unfolding count
first-mem [] b e = absurd (ground arith)
first-mem (x ∷ xs) b e = ground arith

find-mem : (test : ℕ → Bool) (xs : List ℕ) (b : ℕ) → find test xs ≡ some b → 0 < count b xs
unfolding find count
find-mem test [] b e = absurd (ground arith)
find-mem test (x ∷ xs) b e = ground (arith, find-mem test xs b)

module _ (P : PrefixIndex) where
  -- The block chosen next is a free one, with either back end.
  pub choose_free :
      (m : BlockManager P.Index) (b : ℕ) → choose P m ≡ ok b → 0 < count b m.free_block_ids
  unfolding choose
  choose_free m b e = elim (Option-cases m.radix_cache) [
    | inl hash ↦ ground (arith, first-mem m.free_block_ids b)
    | inr (index, radix) ↦ ground (
      arith,
      first-mem m.free_block_ids b,
      find-mem (λ c. if P.is_indexed index c then false else true) m.free_block_ids b,
      P.lru_leaf_eligible index m.free_block_ids b,
    )
  ]

  -- Evicting a block from the prefix cache leaves the pool's account alone.
  pub evict_frame :
      (m : BlockManager P.Index) (b : ℕ) (x : Block)
      → ((evict P m b x).blocks ≡ m.blocks)
        × ((evict P m b x).free_block_ids ≡ m.free_block_ids)
        × ((evict P m b x).used_block_ids ≡ m.used_block_ids)
  unfolding evict
  evict_frame m b x = ground arith

  module _ (m : BlockManager P.Index) (w : Consistent m) (b c : ℕ) (x : Block) where
    pub allocate_at :
        {m' : BlockManager P.Index}
        → get_elem? m.blocks b ≡ some x
        → choose P m ≡ ok b
        → allocate_block P m ≡ ok (m', b)
        → ConsistentAt m w b c x m'
          × (ref_of m.blocks b ≡ 0)
          × (ref_of m'.blocks c ≡ ref_of m.blocks c + (if b == c then 1 else 0))
          × (length m'.free_block_ids + 1 ≡ length m.free_block_ids)
    unfolding allocate_block count
    allocate_at found chosen e = ground (
      arith,
      choose_free m b chosen,
      w.used b,
      w.used c,
      w.free b,
      w.free c,
      w.total,
      ref_of-get m.blocks b found,
      ref_of-set m.blocks b c (reset x),
      length-set m.blocks b (reset x),
      count-erase c b m.free_block_ids,
      length-erase b m.free_block_ids,
    )
