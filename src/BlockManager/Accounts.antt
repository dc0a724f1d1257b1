-- ===== src/BlockManager/Accounts.antt =====
-- The pool's account across whole operations on references: taking, giving back and handing out.
use nano_vllm_qos.Prelude.{
  ℕ, zero, suc, ◌+◌, ◌-◌, ◌≤◌, ◌<◌, ◌≡◌, refl, some, List, [], ◌∷◌, ok, err, Error, arith,
  if◌then◌else◌, ◌==◌, length, get_elem?, count, length-append, Option-cases, inl, inr, ◌∙◌, subst,
  get_elem?-set_self, >>=-eq-ok, result_total, Result-cases,
}
use nano_vllm_qos.BlockManager.{BlockManager, Block, PrefixIndex}
use nano_vllm_qos.BlockManager.Invariant.{
  ref_of, choose_free, allocate_at, ref_of-get, Consistent, claim_at, release_at, get_of_lt,
  lt-of-ref_of,
}
use nano_vllm_qos.BlockManager.Pool.{
  choose, allocate_block, allocate_blocks, deallocate_block, claim, claim_all, release, release_all,
  first,
}

abbrev pub one : ℕ → ℕ → ℕ
one b c = if b == c then 1 else 0

abbrev pub nothing : ℕ → ℕ
nothing c = 0

-- The occurrences of a list of blocks, as a number of references to each block.
abbrev pub refs_in : List ℕ → ℕ → ℕ
refs_in bs c = count c bs

module _ {I : Type 0} where
  -- The pool after some steps: consistent, of the same size, with the references `taken` more and
  -- the references `given` less.
  pub record Moves (m m' : BlockManager I) (taken given : ℕ → ℕ) : Type 0 where
    pub consistent : Consistent m'
    pub refs : (c : ℕ) → ref_of m'.blocks c + given c ≡ ref_of m.blocks c + taken c
    pub size : length m'.blocks ≡ length m.blocks

  claim-found :
      (m : BlockManager I) (b : ℕ) {m' : BlockManager I}
      → claim m b ≡ ok m'
      → (x : Block) × (get_elem? m.blocks b ≡ some x)
  unfolding claim
  claim-found m b e = elim (Option-cases (get_elem? m.blocks b)) [
    | inl missing ↦ absurd (ground arith)
    | inr found ↦ found
  ]

  release-found :
      (m : BlockManager I) (b : ℕ) {m' : BlockManager I}
      → release m b ≡ ok m'
      → (x : Block) × (get_elem? m.blocks b ≡ some x)
  unfolding release
  release-found m b e = elim (Option-cases (get_elem? m.blocks b)) [
    | inl missing ↦ absurd (ground arith)
    | inr found ↦ found
  ]

  pub claim-Moves :
      (m : BlockManager I) (b : ℕ) {m' : BlockManager I}
      → Consistent m
      → claim m b ≡ ok m'
      → Moves m m' (one b) nothing
  claim-Moves m b {m'} w e =
      let (x, found) = claim-found m b e in
      record {
        consistent = record {
          used = λ c. (claim_at m w b c x found e).0.0;
          free = λ c. (claim_at m w b c x found e).0.1;
          total = (claim_at m w b b x found e).0.2;
        };
        refs = λ c. omega (arith, (claim_at m w b c x found e).1);
        size = (claim_at m w b b x found e).0.3;
      }

  pub release-Moves :
      (m : BlockManager I) (b : ℕ) {m' : BlockManager I}
      → Consistent m
      → release m b ≡ ok m'
      → Moves m m' nothing (one b)
  release-Moves m b {m'} w e =
      let (x, found) = release-found m b e in
      record {
        consistent = record {
          used = λ c. (release_at m w b c x found e).0.0;
          free = λ c. (release_at m w b c x found e).0.1;
          total = (release_at m w b b x found e).0.2;
        };
        refs = λ c. omega (arith, (release_at m w b c x found e).1);
        size = (release_at m w b b x found e).0.3;
      }

  release-free :
      (m : BlockManager I) (b : ℕ) {m' : BlockManager I}
      → release m b ≡ ok m'
      → (length m.free_block_ids ≤ length m'.free_block_ids)
        × (length m'.free_block_ids ≤ length m.free_block_ids + 1)
  unfolding release deallocate_block
  release-free m b e = ground (arith, length-append m.free_block_ids (b ∷ []))

  -- Giving back `n` references frees at most `n` blocks and takes none.
  pub release_all-free :
      (bs : List ℕ) (m : BlockManager I) {m' : BlockManager I}
      → release_all m bs ≡ ok m'
      → (length m.free_block_ids ≤ length m'.free_block_ids)
        × (length m'.free_block_ids ≤ length m.free_block_ids + length bs)
  unfolding release_all
  release_all-free [] m e = ground arith
  release_all-free (b ∷ bs) m {m'} e =
      let (n, given, rest) = >>=-eq-ok (release m b) (λ n. release_all n bs) e in
      omega (arith, release-free m b given, release_all-free bs n rest)

  -- Moves compose.
  pub Moves-trans :
      {m n o : BlockManager I} (t g t' g' t'' g'' : ℕ → ℕ)
      → Moves m n t g
      → Moves n o t' g'
      → ((c : ℕ) → t'' c + g c + g' c ≡ g'' c + t c + t' c)
      → Moves m o t'' g''
  Moves-trans t g t' g' t'' g'' p q h = record {
    consistent = q.consistent;
    refs = λ c. omega (arith, p.refs c, q.refs c, h c);
    size = q.size ∙ p.size;
  }

  Moves-refl : {m : BlockManager I} → Consistent m → Moves m m nothing nothing
  Moves-refl w = record { consistent = w; refs = λ c. refl; size = refl }

  pub claim_all-Moves :
      (bs : List ℕ) (m : BlockManager I) {m' : BlockManager I}
      → Consistent m
      → claim_all m bs ≡ ok m'
      → Moves m m' (refs_in bs) nothing
  unfolding claim_all count
  claim_all-Moves [] m w e = subst (λ o. Moves m o nothing nothing) (ground arith) (Moves-refl w)
  claim_all-Moves (b ∷ bs) m {m'} w e =
      let (n, taken, rest) = >>=-eq-ok (claim m b) (λ n. claim_all n bs) e in
      let p = claim-Moves m b w taken in
      Moves-trans (one b) nothing (refs_in bs) nothing (refs_in (b ∷ bs)) nothing p
        (claim_all-Moves bs n p.consistent rest) (λ c. ground arith)

  pub release_all-Moves :
      (bs : List ℕ) (m : BlockManager I) {m' : BlockManager I}
      → Consistent m
      → release_all m bs ≡ ok m'
      → Moves m m' nothing (refs_in bs)
  unfolding release_all count
  release_all-Moves [] m w e = subst (λ o. Moves m o nothing nothing) (ground arith) (Moves-refl w)
  release_all-Moves (b ∷ bs) m {m'} w e =
      let (n, given, rest) = >>=-eq-ok (release m b) (λ n. release_all n bs) e in
      let p = release-Moves m b w given in
      Moves-trans nothing (one b) nothing (refs_in bs) nothing (refs_in (b ∷ bs)) p
        (release_all-Moves bs n p.consistent rest) (λ c. ground arith)

  -- A block that is in the pool can be claimed, and one with a reference can be released.
  pub claim_total :
      (m : BlockManager I) (b : ℕ)
      → Consistent m
      → b < length m.blocks
      → (m' : BlockManager I) × (claim m b ≡ ok m')
  unfolding claim
  claim_total m b w h =
      let (x, found) = get_of_lt m.blocks b h in
      result_total (claim m b) (λ e bad. ground (arith, found, w.used b, w.free b))

  pub release_total :
      (m : BlockManager I) (b : ℕ)
      → Consistent m
      → 0 < ref_of m.blocks b
      → (m' : BlockManager I) × (release m b ≡ ok m')
  unfolding release deallocate_block
  release_total m b w h =
      let (x, found) = get_of_lt m.blocks b (lt-of-ref_of m.blocks b h) in
      result_total (release m b) (λ e bad. ground (
        arith,
        found,
        w.used b,
        ref_of-get m.blocks b found,
        get_elem?-set_self m.blocks b (record x { ref_count = x.ref_count - 1 }),
      ))

  pub claim_all_total :
      (bs : List ℕ) (m : BlockManager I)
      → Consistent m
      → ((c : ℕ) → 0 < count c bs → c < length m.blocks)
      → (m' : BlockManager I) × (claim_all m bs ≡ ok m')
  unfolding claim_all count
  claim_all_total [] m w h = (m, refl)
  claim_all_total (b ∷ bs) m w h =
      let (n, taken) = claim_total m b w (h b (ground arith)) in
      let p = claim-Moves m b w taken in
      rw taken
        (claim_all_total bs n p.consistent (λ c k. omega (arith, h c (ground arith), p.size)))

  pub release_all_total :
      (bs : List ℕ) (m : BlockManager I)
      → Consistent m
      → ((c : ℕ) → count c bs ≤ ref_of m.blocks c)
      → (m' : BlockManager I) × (release_all m bs ≡ ok m')
  unfolding release_all count
  release_all_total [] m w h = (m, refl)
  release_all_total (b ∷ bs) m w h =
      let (n, given) = release_total m b w (ground (arith, h b)) in
      let p = release-Moves m b w given in
      rw given (release_all_total bs n p.consistent (λ c. ground (arith, h c, p.refs c)))

first_total : (xs : List ℕ) → 0 < length xs → (b : ℕ) × (first xs ≡ ok b)
first_total [] h = absurd (omega arith)
first_total (x ∷ xs) h = (x, refl)

module _ (P : PrefixIndex) where
  choose_total :
      (m : BlockManager P.Index) → 0 < length m.free_block_ids → (b : ℕ) × (choose P m ≡ ok b)
  unfolding choose
  choose_total m h =
      let (b, e) = first_total m.free_block_ids h in
      result_total (choose P m) (λ f bad. ground (arith, e))

  allocate_block-found :
      (m : BlockManager P.Index) (b : ℕ) {m' : BlockManager P.Index}
      → allocate_block P m ≡ ok (m', b)
      → (choose P m ≡ ok b) × (x : Block) × (get_elem? m.blocks b ≡ some x)
  unfolding allocate_block
  allocate_block-found m b e = elim (Result-cases (choose P m)) [
    | inl (a, chosen) ↦ elim (Option-cases (get_elem? m.blocks a)) [
      | inl missing ↦ absurd (ground arith)
      | inr (x, found) ↦ (ground arith, x, ground arith)
    ]
    | inr (f, bad) ↦ absurd (ground arith)
  ]

  allocate_block-ne-err :
      (m : BlockManager P.Index) (b : ℕ) (x : Block)
      → choose P m ≡ ok b
      → 0 < count b m.free_block_ids
      → get_elem? m.blocks b ≡ some x
      → x.ref_count ≡ 0
      → (e : Error) → ¬ (allocate_block P m ≡ err e)
  unfolding allocate_block
  allocate_block-ne-err m b x chosen free found idle e bad = ground arith

  pub allocate_block-Moves :
      (m : BlockManager P.Index) (b : ℕ) {m' : BlockManager P.Index}
      → Consistent m
      → allocate_block P m ≡ ok (m', b)
      → Moves m m' (one b) nothing
        × (ref_of m.blocks b ≡ 0)
        × (length m'.free_block_ids + 1 ≡ length m.free_block_ids)
  allocate_block-Moves m b {m'} w e =
      let (chosen, x, found) = allocate_block-found m b e in
      (
        record {
          consistent = record {
            used = λ c. (allocate_at P m w b c x found chosen e).0.0;
            free = λ c. (allocate_at P m w b c x found chosen e).0.1;
            total = (allocate_at P m w b b x found chosen e).0.2;
          };
          refs = λ c. omega (arith, (allocate_at P m w b c x found chosen e).2);
          size = (allocate_at P m w b b x found chosen e).0.3;
        },
        (allocate_at P m w b b x found chosen e).1,
        (allocate_at P m w b b x found chosen e).3,
      )

  -- A block can be handed out as long as the free list is not empty.
  pub allocate_block_total :
      (m : BlockManager P.Index)
      → Consistent m
      → 0 < length m.free_block_ids
      → (m' : BlockManager P.Index) × (b : ℕ) × (allocate_block P m ≡ ok (m', b))
  allocate_block_total m w h =
      let (b, chosen) = choose_total m h in
      let free = choose_free P m b chosen in
      let (x, found) = get_of_lt m.blocks b (ground (arith, w.free b)) in
      let ((m', b'), e) = result_total (allocate_block P m) (
        allocate_block-ne-err m b x chosen free found
          (ground (arith, w.free b, ref_of-get m.blocks b found))) in
      (m', b', e)

  -- What `n` fresh blocks are: idle before, one reference each now, and `n` fewer to hand out.
  pub record Fresh (n : ℕ) (m m' : BlockManager P.Index) (bs : List ℕ) : Type 0 where
    pub moves : Moves m m' (refs_in bs) nothing
    pub many : length bs ≡ n
    pub fewer : length m'.free_block_ids + n ≡ length m.free_block_ids
    pub idle : (c : ℕ) → 0 < count c bs → ref_of m.blocks c ≡ 0

  Fresh-nil : (m : BlockManager P.Index) → Consistent m → Fresh 0 m m []
  unfolding count
  Fresh-nil m w = record {
    moves = Moves-refl w;
    many = refl;
    fewer = omega arith;
    idle = λ c h. absurd (omega arith);
  }

  Fresh-cons :
      (n : ℕ) (m o : BlockManager P.Index) {m' : BlockManager P.Index} (b : ℕ) (cs : List ℕ)
      → Moves m o (one b) nothing
      → ref_of m.blocks b ≡ 0
      → length o.free_block_ids + 1 ≡ length m.free_block_ids
      → Fresh n o m' cs
      → Fresh (suc n) m m' (b ∷ cs)
  unfolding count
  Fresh-cons n m o b cs p idle less f = record {
    moves =
        Moves-trans (one b) nothing (refs_in cs) nothing (refs_in (b ∷ cs)) nothing p f.moves
          (λ c. ground arith);
    many = omega (arith, f.many);
    fewer = omega (arith, f.fewer);
    idle = λ c h. ground (arith, f.idle c, p.refs c);
  }

  pub allocate_blocks-Fresh :
      (n : ℕ) (m : BlockManager P.Index) {m' : BlockManager P.Index} {bs : List ℕ}
      → Consistent m
      → allocate_blocks P n m ≡ ok (m', bs)
      → Fresh n m m' bs
  unfolding allocate_blocks count
  allocate_blocks-Fresh zero m {m'} {bs} w e =
      let same : (m, []) ≡ (m', bs) = ground arith in
      subst (λ (r : BlockManager P.Index × List ℕ). Fresh 0 m r.0 r.1) same (Fresh-nil m w)
  allocate_blocks-Fresh (suc n) m {m'} {bs} w e = elim (Result-cases (allocate_block P m)) [
    | inl ((o, b), one_more) ↦ elim (Result-cases (allocate_blocks P n o)) [
      | inl ((m'', cs), others) ↦
          let (p, idle, less) = allocate_block-Moves m b w one_more in
          let same : (m'', b ∷ cs) ≡ (m', bs) = ground arith in
          subst (λ (r : BlockManager P.Index × List ℕ). Fresh (suc n) m r.0 r.1) same
            (Fresh-cons n m o b cs p idle less (allocate_blocks-Fresh n o p.consistent others))
      | inr (f, bad) ↦ absurd (ground arith)
    ]
    | inr (f, bad) ↦ absurd (ground arith)
  ]

  pub allocate_blocks_total :
      (n : ℕ) (m : BlockManager P.Index)
      → Consistent m
      → n ≤ length m.free_block_ids
      → (m' : BlockManager P.Index) × (bs : List ℕ) × (allocate_blocks P n m ≡ ok (m', bs))
  unfolding allocate_blocks
  allocate_blocks_total zero m w h = (m, [], refl)
  allocate_blocks_total (suc n) m w h =
      let (m', b, e) = allocate_block_total m w (omega arith) in
      let (p, _, less) = allocate_block-Moves m b w e in
      let (m'', bs, es) = allocate_blocks_total n m' p.consistent (omega arith) in
      (m'', b ∷ bs, rw (e, es))
