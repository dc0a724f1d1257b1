-- ===== src/BlockManager/Keeps.antt =====
-- Every operation of the block manager that returns keeps the account of the pool, and leaves the
-- number of the request alone.
use nano_vllm_qos.Prelude.{
  ℕ, ◌+◌, ◌-◌, ◌*◌, ◌≡◌, refl, Bool, true, not, ◌&&◌, ◌||◌, none, List, [], ◌∷◌, ◌++◌, ok, Error,
  guard, arith, ltb, leb, ◌==◌, length, count, reverse, drop, count-reverse, count-append,
  count-take-drop, Option-cases, inl, inr,
}
use nano_vllm_qos.Prelude.Dict
use nano_vllm_qos.Prelude.Ensures.{
  Ensures, Ensures-pure, Ensures-raise, Ensures-if, Ensures-bind, Ensures-then, Ensures-pure_if,
}
use nano_vllm_qos.Sequence.{Sequence, num_blocks}
use nano_vllm_qos.BlockManager.{BlockManager, PrefixIndex}
use nano_vllm_qos.BlockManager.Accounts.{
  Moves, nothing, refs_in, release_all-Moves, claim_all-Moves, allocate_blocks-Fresh,
  allocate_block-Moves,
}
use nano_vllm_qos.BlockManager.Correct.{Accounts}
use nano_vllm_qos.BlockManager.Pool.{release_all, claim_all, allocate_blocks}
use nano_vllm_qos.BlockManager.Release.{
  deallocate, abort_restore, reclaim_suffix, compress_keep_positions, compress_sink_recent, keep_at,
  keeps_sink_recent,
}
use nano_vllm_qos.BlockManager.Compress.{count-keep_at}
use nano_vllm_qos.BlockManager.Allocate.{
  is_empty, num_used, can_allocate, allocate, planned_match, reserve_restore,
}
use nano_vllm_qos.BlockManager.Resume.{
  needs_page, may_append, cached_suffix, can_resume, resume, planned_suffix,
}
use nano_vllm_qos.BlockManager.Lookup.{lookup_cached_blocks, match_hashes, block_keys}

module _ {F I : Type 0} where
  -- A request in hand and the pool, after some blocks were taken and given.
  Accounts-Moves :
      {m m' : BlockManager I} (s s' : Sequence F) (others taken given : ℕ → ℕ)
      → Accounts m s others
      → Moves m m' taken given
      → ((b : ℕ) → count b s'.block_table + given b ≡ count b s.block_table + taken b)
      → Accounts m' s' others
  Accounts-Moves s s' others taken given a p h = record {
    consistent = p.consistent;
    counted = λ b. omega (arith, p.refs b, a.counted b, h b);
  }

  -- What matters of the pool has not changed.
  pub Accounts-same :
      {m m' : BlockManager I} (s : Sequence F) (others : ℕ → ℕ)
      → m'.blocks ≡ m.blocks
      → m'.free_block_ids ≡ m.free_block_ids
      → m'.used_block_ids ≡ m.used_block_ids
      → Accounts m s others
      → Accounts m' s others
  Accounts-same s others blocks free used a = record {
    consistent = record {
      used = λ b. rw (blocks, used) (a.consistent.used b);
      free = λ b. rw (blocks, free) (a.consistent.free b);
      total = rw (blocks, used, free) a.consistent.total;
    };
    counted = λ b. rw blocks (a.counted b);
  }

  abbrev pub Kept : Sequence F → (ℕ → ℕ) → BlockManager I → Sequence F → Type 0
  Kept s others m' s' = Accounts m' s' others × (s'.seq_id ≡ s.seq_id)

  -- Giving back the blocks `bs` of the table.
  module _ (m : BlockManager I) (s : Sequence F) (others : ℕ → ℕ) (a : Accounts m s others) where
    give_back :
        (bs : List ℕ) (n m' : BlockManager I) (s' : Sequence F)
        → Accounts n s others
        → release_all n (reverse bs) ≡ ok m'
        → ((b : ℕ) → count b s'.block_table + count b bs ≡ count b s.block_table)
        → Accounts m' s' others
    give_back bs n m' s' c e h =
        Accounts-Moves s s' others nothing (refs_in (reverse bs)) c
          (release_all-Moves (reverse bs) n c.consistent e)
          (λ b. omega (arith, h b, count-reverse b bs))

    abbrev forgotten : BlockManager I
    forgotten = record m { pending_resume_matches = Dict.remove s.seq_id m.pending_resume_matches }

    forgotten-Accounts : Accounts forgotten s others
    forgotten-Accounts = Accounts-same s others refl refl refl a

    pub deallocate-Keeps : Ensures (λ r. Kept s others r.0 r.1) (deallocate m s)
    unfolding deallocate count
    deallocate-Keeps = Ensures-bind _ _ (λ m' e.
        Ensures-pure
          (give_back s.block_table forgotten m' _ forgotten-Accounts e (λ b. omega arith), refl))

    pub abort_restore-Keeps : Ensures (λ r. Kept s others r.0 r.1) (abort_restore m s)
    unfolding abort_restore
    abort_restore-Keeps =
        Ensures-if (is_empty s.block_table) _ _ (λ _. Ensures-pure (a, refl))
          (λ _. deallocate-Keeps)

    pub reclaim_suffix-Keeps :
        (keep : ℕ) → Ensures (λ r. Kept s others r.0 r.1) (reclaim_suffix m s keep)
    unfolding reclaim_suffix
    reclaim_suffix-Keeps keep =
        Ensures-bind (guard (leb keep (length s.block_table)) Error.value_error) _ (λ _ _.
          Ensures-bind (guard (leb (keep * m.block_size) s.num_cached_tokens) Error.value_error) _
            (λ _ _.
              Ensures-bind (release_all forgotten (reverse (drop keep s.block_table))) _ (λ m' e.
                Ensures-pure (
                  Accounts-Moves s _ others nothing (refs_in (reverse (drop keep s.block_table)))
                      forgotten-Accounts
                      (release_all-Moves (reverse (drop keep s.block_table)) forgotten
                        forgotten-Accounts.consistent e)
                      (λ b. omega (
                        arith,
                        count-take-drop b keep s.block_table,
                        count-reverse b (drop keep s.block_table),
                      )),
                  refl,
                ))))

    pub compress_keep_positions-Keeps :
        (keep : ℕ → Bool) → Ensures (λ r. Kept s others r.0 r.1) (compress_keep_positions m s keep)
    unfolding compress_keep_positions
    compress_keep_positions-Keeps keep =
        let dropped = keep_at (λ i. not (keep i)) 0 s.block_table in
        Ensures-if (is_empty dropped) _ _ (λ _. Ensures-pure (a, refl))
          (λ _. Ensures-bind _ _ (λ m' e. Ensures-pure (
            give_back dropped m m' _ a e (λ b. omega (arith, count-keep_at keep b 0 s.block_table)),
            refl,
          )))

    pub compress_sink_recent-Keeps :
        (sink recent : ℕ)
        → Ensures (λ r. Kept s others r.0 r.1) (compress_sink_recent m s sink recent)
    unfolding compress_sink_recent
    compress_sink_recent-Keeps sink recent =
        let n = length s.block_table in
        Ensures-bind (guard (leb 1 sink && leb 1 recent) Error.value_error) _ (λ _ _.
          Ensures-if (leb n (sink + recent) || leb (n - recent) sink) _ _
            (λ _. Ensures-pure (a, refl))
            (λ _. compress_keep_positions-Keeps (keeps_sink_recent sink recent n)))

count-empty : (xs : List ℕ) (b : ℕ) → is_empty xs ≡ true → count b xs ≡ 0
unfolding count
count-empty [] b h = refl
count-empty (x ∷ xs) b h = absurd (ground arith)

-- The same for the operations that look into the prefix cache, or take pages.
module _ {F : Type 0} (P : PrefixIndex) (m : BlockManager P.Index) (s : Sequence F) (others : ℕ → ℕ)
    (a : Accounts m s others) where
  pub may_append-Keeps : Ensures (λ r. Kept s others r.0 r.1) (may_append P m s)
  unfolding may_append count
  may_append-Keeps =
      Ensures-if (needs_page P m s) _ _
        (λ due. Ensures-bind _ _ (λ r e.
          let (p, _, _) = allocate_block-Moves P m r.1 a.consistent e in
          Ensures-pure (
            record {
              consistent = p.consistent;
              counted = λ c.
                  ground (arith, p.refs c, a.counted c, count-append c s.block_table (r.1 ∷ []));
            },
            refl,
          )))
        (λ full. Ensures-pure (a, refl))

  module _ (xxh64 : List ℕ → ℕ) where
    pub lookup-Keeps : Ensures (λ r. Accounts r.0 s others) (lookup_cached_blocks P xxh64 m s)
    unfolding lookup_cached_blocks
    lookup-Keeps = elim (Option-cases m.radix_cache) [
      | inl hash ↦
          rw (hash, lookup_cached_blocks)
            (Ensures-bind (match_hashes xxh64 m s 0 (num_blocks s - 1) none) _
              (λ found e. Ensures-pure (Accounts-same s others refl refl refl a)))
      | inr (index, radix) ↦
          rw (radix, lookup_cached_blocks)
            (Ensures-bind (block_keys s 0 (num_blocks s - 1)) _
              (λ keys e. Ensures-pure (Accounts-same s others refl refl refl a)))
    ]

    pub can_allocate-Keeps : Ensures (λ r. Accounts r.0 s others) (can_allocate P xxh64 m s)
    unfolding can_allocate
    can_allocate-Keeps = Ensures-then _ (lookup_cached_blocks P xxh64 m s) _ lookup-Keeps (λ r h.
        Ensures-pure_if
          (ltb (length r.0.free_block_ids) (num_blocks s - num_used r.0.used_block_ids r.1)) _ _
          (Accounts-same s others refl refl refl h) (Accounts-same s others refl refl refl h))

    pub can_resume-Keeps : Ensures (λ r. Accounts r.0 s others) (can_resume P xxh64 m s)
    unfolding can_resume
    can_resume-Keeps =
        Ensures-bind (guard (leb (length s.block_table) (num_blocks s)) Error.runtime_error) _
          (λ _ _. Ensures-then _ (lookup_cached_blocks P xxh64 m s) _ lookup-Keeps (λ r h.
            Ensures-pure_if
              (ltb (length r.0.free_block_ids) (
                num_blocks s
                - length s.block_table
                - num_used r.0.used_block_ids (cached_suffix P xxh64 s r.1)))
              _ _ (Accounts-same s others refl refl refl h)
              (Accounts-same s others refl refl refl h)))

  -- Cached blocks are claimed, and fresh ones follow them in the table.
  extend :
      (n n₂ n₃ : BlockManager P.Index) (k : ℕ) (cached fresh : List ℕ) (s' : Sequence F)
      → Accounts n s others
      → claim_all n cached ≡ ok n₂
      → allocate_blocks P k n₂ ≡ ok (n₃, fresh)
      → ((b : ℕ) → count b s'.block_table ≡ count b s.block_table + count b cached + count b fresh)
      → Accounts n₃ s' others
  extend n n₂ n₃ k cached fresh s' c e e' h =
      let p = claim_all-Moves cached n c.consistent e in
      let f = allocate_blocks-Fresh P k n₂ p.consistent e' in
      record {
        consistent = f.moves.consistent;
        counted = λ b. omega (arith, p.refs b, f.moves.refs b, c.counted b, h b);
      }

  module _ (xxh64 : List ℕ → ℕ) where
    planned_suffix-Keeps : Ensures (λ r. Accounts r.0 s others) (planned_suffix P xxh64 m s)
    unfolding planned_suffix
    planned_suffix-Keeps = elim (Option-cases (Dict.get s.seq_id m.pending_resume_matches)) [
      | inr (suffix, planned) ↦
          rw (planned, planned_suffix) (Ensures-pure (Accounts-same s others refl refl refl a))
      | inl unplanned ↦
          rw (unplanned, planned_suffix)
            (Ensures-then _ (can_resume P xxh64 m s) _ (can_resume-Keeps xxh64) (λ r h.
              Ensures-bind (guard r.1 Error.runtime_error) _ (λ _ _.
                elim (Option-cases (Dict.get s.seq_id r.0.pending_resume_matches)) [
                  | inl missing ↦ rw missing Ensures-raise
                  | inr (suffix, found) ↦
                      rw found (Ensures-pure (Accounts-same s others refl refl refl h))
                ])))
    ]

    pub resume-Keeps : Ensures (λ r. Kept s others r.0 r.1) (resume P xxh64 m s)
    unfolding resume
    resume-Keeps = Ensures-then _ (planned_suffix P xxh64 m s) _ planned_suffix-Keeps (λ r h.
        Ensures-bind (claim_all r.0 r.1) _ (λ n e.
          Ensures-bind (allocate_blocks P (num_blocks s - length (s.block_table ++ r.1)) n) _
            (λ q e'. Ensures-pure (
              extend r.0 n q.0 _ r.1 q.1 _ h e e' (λ b. omega (
                arith,
                count-append b (s.block_table ++ r.1) q.1,
                count-append b s.block_table r.1,
              )),
              refl,
            ))))

module _ {F : Type 0} (P : PrefixIndex) (m : BlockManager P.Index) (s : Sequence F) (others : ℕ → ℕ)
    (a : Accounts m s others) (xxh64 : List ℕ → ℕ) where
  planned_match-Keeps : (n : ℕ) → Ensures (λ r. Accounts r.0 s others) (planned_match P xxh64 m s n)
  unfolding planned_match
  planned_match-Keeps n =
      let c : Accounts (record m { pending_matches = Dict.remove s.seq_id m.pending_matches }) s
          others =
        Accounts-same s others refl refl refl a in
      elim (Option-cases (Dict.get s.seq_id m.pending_matches)) [
        | inl unplanned ↦ rw (unplanned, planned_match) (lookup-Keeps P _ s others c xxh64)
        | inr (cached, planned) ↦
            rw (planned, planned_match)
              (Ensures-if (length cached == n) _ _ (λ _. Ensures-pure c)
                (λ _. lookup-Keeps P _ s others c xxh64))
      ]

  pub allocate-Keeps : (n : ℕ) → Ensures (λ r. Kept s others r.0 r.1) (allocate P xxh64 m s n)
  unfolding allocate count
  allocate-Keeps n =
      Ensures-bind (guard (is_empty s.block_table) Error.assertion_error) _ (λ _ empty.
        Ensures-then _ (planned_match P xxh64 m s n) _ (planned_match-Keeps n) (λ r h.
          Ensures-bind (guard (length r.1 == n) Error.runtime_error) _ (λ _ _.
            Ensures-bind (claim_all r.0 r.1) _ (λ q e.
              Ensures-bind (allocate_blocks P (num_blocks s - n) q) _ (λ f e'. Ensures-pure (
                extend P m s others a r.0 q f.0 (num_blocks s - n) r.1 f.1 _ h e e' (λ b.
                    let none_yet : count b s.block_table ≡ 0 =
                      count-empty s.block_table b (ground arith) in
                    omega (arith, count-append b r.1 f.1, none_yet)),
                refl,
              ))))))

  pub reserve_restore-Keeps :
      (n k : ℕ) → Ensures (λ r. Kept s others r.0 r.1) (reserve_restore P xxh64 m s n k)
  unfolding reserve_restore
  reserve_restore-Keeps n k = Ensures-bind (guard (ltb n k) Error.value_error) _ (λ _ _.
      Ensures-bind (guard (ltb k (num_blocks s)) Error.value_error) _ (λ _ _.
        Ensures-then _ (allocate P xxh64 m s n) _ (allocate-Keeps n) (λ r h. Ensures-pure h)))
