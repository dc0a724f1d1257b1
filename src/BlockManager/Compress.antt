-- ===== src/BlockManager/Compress.antt =====
-- Dropping KV pages from the middle of a request.
use nano_vllm_qos.Prelude.{
  ℕ, zero, suc, ◌+◌, ◌-◌, ◌*◌, ◌≤◌, ◌<◌, ◌≡◌, refl, min, max, Bool, true, not, List, [], ◌∷◌, ◌++◌,
  ok, arith, if◌then◌else◌, leb, length, reverse, count, Bool-cases, inl, inr, ◌∙◌, subst, take,
  drop, sym, count-reverse,
}
use nano_vllm_qos.Sequence.{Sequence}
use nano_vllm_qos.BlockManager.{BlockManager}
use nano_vllm_qos.BlockManager.Accounts.{release_all-Moves, release_all_total, release_all-free}
use nano_vllm_qos.BlockManager.Allocate.{is_empty}
use nano_vllm_qos.BlockManager.Correct.{Accounts}
use nano_vllm_qos.BlockManager.Release.{
  Compression, no_compression, keep_at, compress_keep_positions, compress_sink_recent,
  keeps_sink_recent,
}

-- Every position is either kept or dropped.
pub count-keep_at :
    (keep : ℕ → Bool) (c i : ℕ) (xs : List ℕ)
    → count c (keep_at keep i xs) + count c (keep_at (λ j. not (keep j)) i xs) ≡ count c xs
unfolding keep_at count
count-keep_at keep c i [] = refl
count-keep_at keep c i (x ∷ xs) = ground (arith, count-keep_at keep c (suc i) xs)

drop-nil : (k : ℕ) → drop {A = ℕ} k [] ≡ []
drop-nil zero = refl
drop-nil (suc k) = refl

length-keep_at :
    (keep : ℕ → Bool) (i : ℕ) (xs : List ℕ)
    → length (keep_at keep i xs) + length (keep_at (λ j. not (keep j)) i xs) ≡ length xs
unfolding keep_at
length-keep_at keep i [] = refl
length-keep_at keep i (x ∷ xs) = ground (arith, length-keep_at keep (suc i) xs)

module _ (sink recent n : ℕ) where
  abbrev kept : ℕ → List ℕ → List ℕ
  kept = keep_at (keeps_sink_recent sink recent n)

  kept_recent : (i : ℕ) (xs : List ℕ) → max sink (n - recent) ≤ i → kept i xs ≡ xs
  unfolding keep_at keeps_sink_recent
  kept_recent i [] h = refl
  kept_recent i (x ∷ xs) h = ground (arith, kept_recent (suc i) xs)

  kept_middle :
      (d i : ℕ) (xs : List ℕ) → sink ≤ i → i + d ≡ max sink (n - recent) → kept i xs ≡ drop d xs
  unfolding keep_at keeps_sink_recent
  kept_middle zero i xs h e = kept_recent i xs (omega arith)
  kept_middle (suc d) i [] h e = refl
  kept_middle (suc d) i (x ∷ xs) h e = ground (arith, kept_middle d (suc i) xs)

  -- The table keeps its first `sink` and its last `recent` entries, in order.
  kept_sink :
      (c d i : ℕ) (xs : List ℕ)
      → i + c ≡ sink
      → i + c + d ≡ max sink (n - recent)
      → kept i xs ≡ take c xs ++ drop (c + d) xs
  unfolding keep_at keeps_sink_recent
  kept_sink zero d i xs h e =
      let p : zero + d ≡ d = omega arith in rw p (kept_middle d i xs (omega arith) (omega arith))
  kept_sink (suc c) d i [] h e = sym (drop-nil (suc c + d))
  kept_sink (suc c) d i (x ∷ xs) h e =
      let p : suc c + d ≡ suc (c + d) = omega arith in
      rw p (ground (arith, kept_sink c d (suc i) xs))

-- The first `sink` and the last `recent` entries, where they do not meet.
abbrev pub sink_and_recent : ℕ → ℕ → List ℕ → List ℕ
sink_and_recent sink recent xs = take sink xs ++ drop (length xs - recent) xs

kept-sink_and_recent :
    (sink recent : ℕ) (xs : List ℕ)
    → sink ≤ length xs - recent
    → kept sink recent (length xs) 0 xs ≡ sink_and_recent sink recent xs
kept-sink_and_recent sink recent xs h =
    let d = length xs - recent - sink in
    let p : sink + d ≡ length xs - recent = omega arith in
    subst (λ k. kept sink recent (length xs) 0 xs ≡ take sink xs ++ drop k xs) p
      (kept_sink sink recent (length xs) sink d 0 xs (omega arith) (omega arith))

all_kept :
    (keep : ℕ → Bool) (i : ℕ) (xs : List ℕ)
    → is_empty (keep_at (λ j. not (keep j)) i xs) ≡ true
    → xs ≡ keep_at keep i xs
unfolding keep_at
all_kept keep i [] e = refl
all_kept keep i (x ∷ xs) e = ground (arith, all_kept keep (suc i) xs)

module _ {F I : Type 0} (m : BlockManager I) (s : Sequence F) (others : ℕ → ℕ) where
  -- Dropping the positions that fail a test keeps the account, with the kept entries as the table.
  keep_positions :
      (keep : ℕ → Bool)
      → Accounts m s others
      → (m' : BlockManager I) × (s' : Sequence F) × (c : Compression) × (compress_keep_positions m s
            keep
          ≡ ok (m', s', c))
        × Accounts m' s' others
        × (s'.block_table ≡ keep_at keep 0 s.block_table)
        × (length m.free_block_ids + c.freed_blocks ≡ length m'.free_block_ids)
        × (length s'.block_table + c.dropped_blocks ≡ length s.block_table)
        × (s'.num_physical_cached_tokens + c.dropped_tokens ≡ s.num_physical_cached_tokens)
  unfolding compress_keep_positions
  keep_positions keep a =
      let kept = keep_at keep 0 s.block_table in
      let dropped = keep_at (λ i. not (keep i)) 0 s.block_table in
      let tokens = min (length dropped * m.block_size) s.num_physical_cached_tokens in
      let (m', e) = release_all_total (reverse dropped) m a.consistent (λ c.
        omega
          (arith, count-reverse c dropped, count-keep_at keep c 0 s.block_table, a.counted c)) in
      let p = release_all-Moves (reverse dropped) m a.consistent e in
      elim (Bool-cases (is_empty dropped)) [
        | inl nothing_dropped ↦ (
          m,
          s,
          no_compression,
          rw nothing_dropped,
          a,
          all_kept keep 0 s.block_table nothing_dropped,
          omega arith,
          omega arith,
          omega arith,
        )
        | inr some_dropped ↦ (
          m',
          record s {
            block_table = kept;
            kv_block_logical_indices = keep_at keep 0 s.kv_block_logical_indices;
            num_physical_cached_tokens = s.num_physical_cached_tokens - tokens;
            kv_compressed = true;
          },
          record {
            dropped_blocks = length dropped;
            freed_blocks = length m'.free_block_ids - length m.free_block_ids;
            dropped_tokens = tokens;
          },
          rw (some_dropped, e),
          record {
            consistent = p.consistent;
            counted = λ c. omega (
              arith,
              p.refs c,
              a.counted c,
              count-reverse c dropped,
              count-keep_at keep c 0 s.block_table,
            );
          },
          refl,
          omega (arith, release_all-free (reverse dropped) m e),
          omega (arith, length-keep_at keep 0 s.block_table),
          omega arith,
        )
      ]

  -- `compress_sink_recent` with positive windows never raises on an accounted request. It keeps the
  -- pool accounted and leaves the first `sink` and the last `recent` entries of the table, in order,
  -- or the whole table where the two windows cover it; the blocks dropped and freed and the tokens
  -- dropped are reported exactly.
  pub compress_sink_recent_lem :
      (sink recent : ℕ)
      → 0 < sink
      → 0 < recent
      → Accounts m s others
      → (m' : BlockManager I) × (s' : Sequence F) × (c : Compression) × (compress_sink_recent m s
            sink recent
          ≡ ok (m', s', c))
        × Accounts m' s' others
        × (s'.block_table ≡ (
            if leb (length s.block_table) (sink + recent)
            then s.block_table
            else sink_and_recent sink recent s.block_table))
        × (length m.free_block_ids + c.freed_blocks ≡ length m'.free_block_ids)
        × (length s'.block_table + c.dropped_blocks ≡ length s.block_table)
        × (s'.num_physical_cached_tokens + c.dropped_tokens ≡ s.num_physical_cached_tokens)
  unfolding compress_sink_recent
  compress_sink_recent_lem sink recent hs hr a =
      let n = length s.block_table in
      elim (Bool-cases (leb n (sink + recent))) [
        | inl covered ↦ (
          m,
          s,
          no_compression,
          ground arith,
          a,
          rw covered,
          omega arith,
          omega arith,
          omega arith,
        )
        | inr longer ↦
            let (m', s', c, e, a', table, freed, dropped, tokens) =
              keep_positions (keeps_sink_recent sink recent n) a in
            (
              m',
              s',
              c,
              ground arith,
              a',
              rw longer (table ∙ kept-sink_and_recent sink recent s.block_table (ground arith)),
              freed,
              dropped,
              tokens,
            )
      ]
