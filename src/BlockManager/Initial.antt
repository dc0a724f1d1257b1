-- ===== src/BlockManager/Initial.antt =====
-- The pool that the constructor builds.
use nano_vllm_qos.Prelude.{
  ℕ, zero, suc, ◌+◌, ◌≡◌, ◌≢◌, refl, [], ok, err, Error, arith, if◌then◌else◌, ltb, leb, length,
  count,
}
use nano_vllm_qos.BlockManager.{BlockManager, Backend, PrefixIndex, init, range_from, fresh_blocks}
use nano_vllm_qos.BlockManager.Invariant.{ref_of, Consistent}

pub count-range_from :
    (b i n : ℕ)
    → count b (range_from i n) ≡ (if leb i b then (if ltb b (i + n) then 1 else 0) else 0)
unfolding count
count-range_from b i zero = ground arith
count-range_from b i (suc n) = ground (arith, count-range_from b (suc i) n)

ref_of-fresh_blocks : (i n b : ℕ) → ref_of (fresh_blocks i n) b ≡ 0
unfolding ref_of
ref_of-fresh_blocks i zero b = refl
ref_of-fresh_blocks i (suc n) zero = refl
ref_of-fresh_blocks i (suc n) (suc b) = ref_of-fresh_blocks (suc i) n b

length-fresh_blocks : (i n : ℕ) → length (fresh_blocks i n) ≡ n
length-fresh_blocks i zero = refl
length-fresh_blocks i (suc n) = omega (arith, length-fresh_blocks (suc i) n)

length-range_from : (i n : ℕ) → length (range_from i n) ≡ n
length-range_from i zero = refl
length-range_from i (suc n) = omega (arith, length-range_from (suc i) n)

fresh-Consistent :
    {I : Type 0} (n : ℕ) (m : BlockManager I)
    → m.blocks ≡ fresh_blocks 0 n
    → m.free_block_ids ≡ range_from 0 n
    → m.used_block_ids ≡ []
    → Consistent m
unfolding count
fresh-Consistent n m blocks free used = record {
  used = λ b. rw (blocks, used) (ground (arith, ref_of-fresh_blocks 0 n b));
  free = λ b.
      rw (blocks, free)
        (ground
          (arith, ref_of-fresh_blocks 0 n b, count-range_from b 0 n, length-fresh_blocks 0 n));
  total = rw (blocks, free, used) (omega (arith, length-fresh_blocks 0 n, length-range_from 0 n));
}

-- With either back end the constructor builds a consistent pool of the given number of blocks, none
-- of them referenced and all of them free; it raises for an unknown back end.
pub init-Consistent :
    (P : PrefixIndex) (num_blocks block_size : ℕ) (backend : Backend)
    → backend ≢ Backend.unsupported
    → (m : BlockManager P.Index) × (init P num_blocks block_size backend ≡ ok m)
      × Consistent m
      × ((b : ℕ) → ref_of m.blocks b ≡ 0)
      × (length m.free_block_ids ≡ num_blocks)
      × (init P num_blocks block_size Backend.unsupported ≡ err Error.value_error)
unfolding init count
init-Consistent P n size Backend.unsupported known = absurd (known refl)
init-Consistent P n size Backend.hash known = (
  _,
  refl,
  fresh-Consistent n _ refl refl refl,
  ref_of-fresh_blocks 0 n,
  length-range_from 0 n,
  refl,
)
init-Consistent P n size Backend.radix known = (
  _,
  refl,
  fresh-Consistent n _ refl refl refl,
  ref_of-fresh_blocks 0 n,
  length-range_from 0 n,
  refl,
)
