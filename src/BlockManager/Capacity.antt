-- ===== src/BlockManager/Capacity.antt =====
-- Capacity: an allocation that the check admitted goes through.
use nano_vllm_qos.Prelude.{
  ℕ, zero, suc, ◌+◌, ◌-◌, ◌*◌, ◌≤◌, ◌<◌, ◌≡◌, refl, none, some, List, [], ◌∷◌, ◌++◌, ok, arith,
  if◌then◌else◌, length, elem, count, count-append, length-erase, length-append, Option-cases, inl,
  inr, subst, take, take-append, >>=-eq-ok, Result-cases, ap,
}
use nano_vllm_qos.Prelude.Dict
use nano_vllm_qos.Sequence.{Sequence, num_blocks, block}
use nano_vllm_qos.BlockManager.{BlockManager, PrefixIndex, range_from}
use nano_vllm_qos.BlockManager.Accounts.{
  Moves, Fresh, nothing, refs_in, claim_all-Moves, claim_all_total, allocate_blocks-Fresh,
  allocate_blocks_total,
}
use nano_vllm_qos.BlockManager.Allocate.{can_allocate, planned_allocation_pages, allocate, num_used}
use nano_vllm_qos.BlockManager.Correct.{Accounts}
use nano_vllm_qos.BlockManager.Invariant.{Consistent, ref_of-get}
use nano_vllm_qos.BlockManager.Lookup.{lookup_cached_blocks, match_hashes, block_keys, counted}
use nano_vllm_qos.BlockManager.Match.{Holds, match_hashes-Holds}
use nano_vllm_qos.BlockManager.Pool.{claim, claim_all, allocate_blocks}

num_used-le : (used bs : List ℕ) → num_used used bs ≤ length bs
unfolding num_used
num_used-le used [] = omega arith
num_used-le used (b ∷ bs) = ground (arith, num_used-le used bs)

num_used_mono :
    (used used' bs : List ℕ)
    → ((c : ℕ) → 0 < count c used → 0 < count c used')
    → num_used used bs ≤ num_used used' bs
unfolding num_used
num_used_mono used used' [] h = omega arith
num_used_mono used used' (b ∷ bs) h = ground (arith, h b, num_used_mono used used' bs h)

module _ {I : Type 0} where
  claim-used :
      (m : BlockManager I) (b c : ℕ) {m' : BlockManager I}
      → claim m b ≡ ok m'
      → 0 < count c m.used_block_ids
      → 0 < count c m'.used_block_ids
  unfolding claim count
  claim-used m b c e h = ground arith

  claim-free :
      (m : BlockManager I) (b : ℕ) {m' : BlockManager I}
      → claim m b ≡ ok m'
      → length m.free_block_ids
        ≤ length m'.free_block_ids + (1 - (if elem b m.used_block_ids then 1 else 0))
  unfolding claim
  claim-free m b e = ground (arith, length-erase b m.free_block_ids)

  -- Claiming takes from the free list at most the blocks that nobody used before.
  claim_all-free :
      (bs : List ℕ) (m : BlockManager I) {m' : BlockManager I}
      → claim_all m bs ≡ ok m'
      → length m.free_block_ids + num_used m.used_block_ids bs
        ≤ length m'.free_block_ids + length bs
  unfolding claim_all num_used
  claim_all-free [] m e = ground arith
  claim_all-free (b ∷ bs) m e =
      let (n, taken, rest) = >>=-eq-ok (claim m b) (λ n. claim_all n bs) e in
      ground (
        arith,
        claim-free m b taken,
        claim_all-free bs n rest,
        num_used_mono m.used_block_ids n.used_block_ids bs (λ c. claim-used m b c taken),
      )

-- What the radix index names is in the pool. (The hash back end checks it as it goes.)
abbrev pub InPool : (P : PrefixIndex) → BlockManager P.Index → Type 0
InPool P m =
    (index : P.Index) (keys : List (List ℕ)) (c : ℕ)
    → m.radix_cache ≡ some index
    → 0 < count c (P.match_keys index keys).1
    → c < length m.blocks

count-nil : (c : ℕ) → count c [] ≡ 0
unfolding count
count-nil c = refl

Consistent-same :
    {I : Type 0} (m m' : BlockManager I)
    → m'.blocks ≡ m.blocks
    → m'.free_block_ids ≡ m.free_block_ids
    → m'.used_block_ids ≡ m.used_block_ids
    → Consistent m
    → Consistent m'
Consistent-same m m' b f u w = record {
  used = λ c. rw (b, u) (w.used c);
  free = λ c. rw (b, f) (w.free c);
  total = rw (b, f, u) w.total;
}

module _ {F : Type 0} (P : PrefixIndex) (xxh64 : List ℕ → ℕ) where
  Holds-lt :
      (m : BlockManager P.Index) (s : Sequence F) (i : ℕ) (bs : List ℕ) (c : ℕ)
      → Holds m s i bs
      → 0 < count c bs
      → c < length m.blocks
  unfolding count
  Holds-lt m s i [] c h k = absurd (omega arith)
  Holds-lt m s i (b ∷ bs) c ((x, found, same), h) k =
      ground (arith, ref_of-get m.blocks b found, Holds-lt m s (suc i) bs c h)

  length-block_keys :
      (s : Sequence F) (i n : ℕ) {keys : List (List ℕ)}
      → block_keys s i n ≡ ok keys
      → length keys ≡ n
  unfolding block_keys
  length-block_keys s i zero e = ground arith
  length-block_keys s i (suc n) {keys} e =
      let (key, _, more) = >>=-eq-ok (block s i) _ e in
      let (rest, others, last) = >>=-eq-ok (block_keys s (suc i) n) _ more in
      ground (arith, length-block_keys s (suc i) n others)

  -- A lookup leaves the pool's account alone, and finds blocks of the pool, at most all but the last
  -- of the request's.
  pub record Found (m : BlockManager P.Index) (s : Sequence F) (m' : BlockManager P.Index)
      (matched : List ℕ) : Type 0 where
    pub blocks_same : m'.blocks ≡ m.blocks
    pub free_same : m'.free_block_ids ≡ m.free_block_ids
    pub used_same : m'.used_block_ids ≡ m.used_block_ids
    pub size_same : m'.block_size ≡ m.block_size
    pub short : length matched ≤ num_blocks s - 1
    pub in_pool : (c : ℕ) → 0 < count c matched → c < length m.blocks

  pub lookup-Found :
      (m : BlockManager P.Index) (s : Sequence F) {m' : BlockManager P.Index} {matched : List ℕ}
      → InPool P m
      → lookup_cached_blocks P xxh64 m s ≡ ok (m', matched)
      → Found m s m' matched
  unfolding lookup_cached_blocks
  lookup-Found m s {m'} {matched} p e = elim (Option-cases m.radix_cache) [
    | inl hash ↦ elim (Result-cases (match_hashes xxh64 m s 0 (num_blocks s - 1) none)) [
      | inr (f, bad) ↦ absurd (ground arith)
      | inl (found, q) ↦
          let same : (counted m (num_blocks s - 1) found, found) ≡ (m', matched) = ground arith in
          let (holds, short) = match_hashes-Holds m s xxh64 0 (num_blocks s - 1) none found q in
          subst (λ (r : BlockManager P.Index × List ℕ). Found m s r.0 r.1) same
            (record {
              blocks_same = refl;
              free_same = refl;
              used_same = refl;
              size_same = refl;
              short = short;
              in_pool = λ c. Holds-lt m s 0 found c holds;
            })
    ]
    | inr (index, radix) ↦ elim (Result-cases (block_keys s 0 (num_blocks s - 1))) [
      | inr (f, bad) ↦ absurd (ground arith)
      | inl (keys, q) ↦
          let found = (P.match_keys index keys).1 in
          let after = record m { radix_cache = some (P.match_keys index keys).0 } in
          let same : (counted after (num_blocks s - 1) found, found) ≡ (m', matched) =
            ground arith in
          subst (λ (r : BlockManager P.Index × List ℕ). Found m s r.0 r.1) same
            (record {
              blocks_same = refl;
              free_same = refl;
              used_same = refl;
              size_same = refl;
              short = omega (arith, P.match_bounded index keys, length-block_keys s 0 _ q);
              in_pool = λ c. p index keys c radix;
            })
    ]
  ]

  -- What a successful allocation of `n` cached blocks gives: the account kept, the request's whole
  -- table with the cached blocks in front, and no more pages taken than planned.
  pub record Allocated (m : BlockManager P.Index) (s : Sequence F) (n planned : ℕ) (cached : List ℕ)
      (others : ℕ → ℕ) (m' : BlockManager P.Index) (s' : Sequence F) : Type 0 where
    pub accounts : Accounts m' s' others
    pub whole : length s'.block_table ≡ num_blocks s
    pub reused : take n s'.block_table ≡ cached
    pub tokens : s'.num_cached_tokens ≡ n * m.block_size
    pub cost : length m.free_block_ids ≤ length m'.free_block_ids + planned

  abbrev filled : BlockManager P.Index → Sequence F → List ℕ → List ℕ → Sequence F
  filled m s cached fresh = record s {
    block_table = cached ++ fresh;
    kv_block_logical_indices = range_from 0 (num_blocks s);
    num_cached_tokens = length cached * m.block_size;
    num_physical_cached_tokens = length cached * m.block_size;
  }

  abbrev unplanned : BlockManager P.Index → Sequence F → BlockManager P.Index
  unplanned m s = record m { pending_matches = Dict.remove s.seq_id m.pending_matches }

  allocate_steps :
      (m m₂ m₃ : BlockManager P.Index) (s : Sequence F) (cached fresh : List ℕ)
      → s.block_table ≡ []
      → Dict.get s.seq_id m.pending_matches ≡ some cached
      → claim_all (unplanned m s) cached ≡ ok m₂
      → allocate_blocks P (num_blocks s - length cached) m₂ ≡ ok (m₃, fresh)
      → allocate P xxh64 m s (length cached) ≡ ok (m₃, filled m s cached fresh)
  unfolding allocate
  allocate_steps m m₂ m₃ s cached fresh empty plan claimed handed = ground arith

  allocated :
      (m m₂ m₃ : BlockManager P.Index) (s : Sequence F) (cached fresh : List ℕ) (others : ℕ → ℕ)
      → Accounts m s others
      → s.block_table ≡ []
      → length cached ≤ num_blocks s
      → claim_all (unplanned m s) cached ≡ ok m₂
      → Moves (unplanned m s) m₂ (refs_in cached) nothing
      → Fresh P (num_blocks s - length cached) m₂ m₃ fresh
      → Allocated m s
          (length cached)
          (num_blocks s - num_used m.used_block_ids cached)
          cached
          others
          m₃
          (filled m s cached fresh)
  allocated m m₂ m₃ s cached fresh others a empty short claimed p f = record {
    accounts = record {
      consistent = f.moves.consistent;
      counted = λ c.
          let none_yet : count c s.block_table ≡ 0 = rw empty (count-nil c) in
          omega
            (arith, p.refs c, f.moves.refs c, a.counted c, count-append c cached fresh, none_yet);
    };
    whole = omega (arith, length-append cached fresh, f.many);
    reused = take-append cached fresh;
    tokens = refl;
    cost = omega (
      arith,
      claim_all-free cached (unplanned m s) claimed,
      num_used-le m.used_block_ids cached,
      f.fewer,
    );
  }

  -- A plan that names blocks of the pool, and for which there are enough free blocks, goes through.
  pub allocate_planned :
      (m : BlockManager P.Index) (s : Sequence F) (cached : List ℕ) (others : ℕ → ℕ)
      → Accounts m s others
      → s.block_table ≡ []
      → Dict.get s.seq_id m.pending_matches ≡ some cached
      → ((c : ℕ) → 0 < count c cached → c < length m.blocks)
      → length cached ≤ num_blocks s
      → num_blocks s ≤ length m.free_block_ids + num_used m.used_block_ids cached
      → (m' : BlockManager P.Index) × (s' : Sequence F) × (allocate P xxh64 m s (length cached)
          ≡ ok (m', s'))
        × Allocated m s
            (length cached)
            (num_blocks s - num_used m.used_block_ids cached)
            cached
            others
            m'
            s'
  allocate_planned m s cached others a empty plan known short room =
      let w : Consistent (unplanned m s) = record {
        used = a.consistent.used;
        free = a.consistent.free;
        total = a.consistent.total;
      } in
      let (m₂, claimed) = claim_all_total cached (unplanned m s) w known in
      let p = claim_all-Moves cached (unplanned m s) w claimed in
      let (m₃, fresh, handed) =
        allocate_blocks_total P (num_blocks s - length cached) m₂ p.consistent
          (omega (arith, claim_all-free cached (unplanned m s) claimed)) in
      (
        m₃,
        filled m s cached fresh,
        allocate_steps m m₂ m₃ s cached fresh empty plan claimed handed,
        allocated m m₂ m₃ s cached fresh others a empty short claimed p
            (allocate_blocks-Fresh P (num_blocks s - length cached) m₂ p.consistent handed),
      )

  planned_in : BlockManager P.Index → Sequence F → List ℕ → BlockManager P.Index
  planned_in m s cached = record m { pending_matches = Dict.put s.seq_id cached m.pending_matches }

  -- What a check that admits a request leaves behind.
  pub can_allocate-some :
      (m : BlockManager P.Index) (s : Sequence F) (m₁ : BlockManager P.Index) (n : ℕ)
      → InPool P m
      → can_allocate P xxh64 m s ≡ ok (m₁, some n)
      → (cached : List ℕ) × Found m s m₁ cached
        × ((found : BlockManager P.Index) × (lookup_cached_blocks P xxh64 m s ≡ ok (found, cached)))
        × (length cached ≡ n)
        × (Dict.get s.seq_id m₁.pending_matches ≡ some cached)
        × (num_blocks s ≤ length m₁.free_block_ids + num_used m₁.used_block_ids cached)
  unfolding can_allocate
  can_allocate-some m s m₁ n p e = elim (Result-cases (lookup_cached_blocks P xxh64 m s)) [
    | inr (f, bad) ↦ absurd (ground arith)
    | inl ((m', cached), q) ↦
        let f = lookup-Found m s p q in
        (
          cached,
          record {
            blocks_same = ground (arith, f.blocks_same);
            free_same = ground (arith, f.free_same);
            used_same = ground (arith, f.used_same);
            size_same = ground (arith, f.size_same);
            short = f.short;
            in_pool = f.in_pool;
          },
          (m', q),
          ground arith,
          ground (arith, Dict.get-put s.seq_id s.seq_id cached m'.pending_matches),
          ground arith,
        )
  ]

  -- Where the pool is accounted and the radix index names blocks of the pool only, a request without
  -- blocks that `can_allocate` admits is allocated: with the number of cached
  -- blocks that the check returned, `allocate` on the manager that the check left never raises. The
  -- pool stays accounted, the table is whole and its first blocks, as many as the check returned, are
  -- the cached ones that the lookup on the first manager finds, in order. The pages that leave the free
  -- list are at most those that `planned_allocation_pages` announces.
  pub can_allocate-allocate :
      (m : BlockManager P.Index) (s : Sequence F) (others : ℕ → ℕ) (m₁ : BlockManager P.Index)
      (n : ℕ)
      → Accounts m s others
      → InPool P m
      → s.block_table ≡ []
      → can_allocate P xxh64 m s ≡ ok (m₁, some n)
      → (m' : BlockManager P.Index) × (s' : Sequence F) × (planned : ℕ) × (cached : List ℕ)
        × (planned_allocation_pages P xxh64 m₁ s ≡ ok planned)
        × (planned ≤ length m.free_block_ids)
        × ((found : BlockManager P.Index) × (lookup_cached_blocks P xxh64 m s ≡ ok (found, cached)))
        × (length cached ≡ n)
        × (allocate P xxh64 m₁ s n ≡ ok (m', s'))
        × Allocated m₁ s n planned cached others m' s'
  unfolding planned_allocation_pages
  can_allocate-allocate m s others m₁ n a p empty e =
      let (cached, f, looked_up, many, plan, room) = can_allocate-some m s m₁ n p e in
      let a₁ : Accounts m₁ s others = record {
        consistent = Consistent-same m m₁ f.blocks_same f.free_same f.used_same a.consistent;
        counted = λ c. rw f.blocks_same (a.counted c);
      } in
      let (m', s', done, r) =
        allocate_planned m₁ s cached others a₁ empty plan (λ c. rw f.blocks_same (f.in_pool c))
          (omega (arith, f.short)) room in
      (
        m',
        s',
        num_blocks s - num_used m₁.used_block_ids cached,
        cached,
        rw plan,
        omega (arith, ap length f.free_same),
        looked_up,
        many,
        subst (λ k. allocate P xxh64 m₁ s k ≡ ok (m', s')) many done,
        subst
            (λ k.
              Allocated m₁ s k (num_blocks s - num_used m₁.used_block_ids cached) cached others m'
                s')
            many r,
      )
