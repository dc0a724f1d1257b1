-- ===== src/Radix/Reuse.antt =====
-- nanovllm/engine/radix_cache.py: `match` after `insert`.
use nano_vllm_qos.Prelude.{
  ℕ, ◌≡◌, refl, none, List, [], ◌∷◌, ◌++◌, ok, arith, length, Bool-cases, Option-cases, inl, inr,
  ap, ◌∙◌, drop,
}
use nano_vllm_qos.Radix.{
  BlockKey, Edge, Children, leaf, child, RadixPrefixCache, same_key, is_under, match_keys,
}
use nano_vllm_qos.Radix.Insert.{zip, insert}
use nano_vllm_qos.Radix.Paths.{
  Trie, along, block_at, after, longest, longest-ext, or_else, is_under-head, same_key_refl,
}
use nano_vllm_qos.Radix.Lookup.{descend-longest}
use nano_vllm_qos.Radix.Growth.{along_only, along_differs}
use nano_vllm_qos.Radix.Added.{insert-block_at}

-- Past a path that leads nowhere, no path leads anywhere.
abbrev IsClosed : Trie → Type 0
IsClosed t = (k : BlockKey) (p s : List BlockKey) → t (k ∷ p) ≡ none → t (k ∷ (p ++ s)) ≡ none

along-IsClosed : (e : Edge) (t : Trie) → IsClosed t → IsClosed (along e t)
unfolding along
along-IsClosed [] t c k p s h = c k p s h
along-IsClosed ((x, b) ∷ e) t c k [] s h = elim (Bool-cases (same_key x k)) [
  | inl same ↦ absurd (ground (arith, same))
  | inr differs ↦ along_differs x k b e t s differs
]
along-IsClosed ((x, b) ∷ e) t c k (j ∷ p) s h = elim (Bool-cases (same_key x k)) [
  | inl same ↦ rw same (along-IsClosed e t c j p s (rw same at h))
  | inr differs ↦ rw differs refl
]

block_at-IsClosed : (t : Children) → IsClosed (block_at t)
unfolding block_at
block_at-IsClosed leaf k p s h = refl
block_at-IsClosed (child e kids access rest) k p s h = elim (Bool-cases (is_under e (k ∷ p))) [
  | inl under ↦
      rw (is_under-head e k (p ++ s) p, under)
        (along-IsClosed e (block_at kids) (block_at-IsClosed kids) k p s (rw under at h))
  | inr beside ↦
      rw (is_under-head e k (p ++ s) p, beside) (block_at-IsClosed rest k p s (rw beside at h))
]

-- The trie with the new paths.
abbrev added : Trie → List BlockKey → List ℕ → Trie
added t keys ids = λ p. or_else (t p) (along_only (zip keys ids) p)

added-after :
    (t : Trie) (k : BlockKey) (b : ℕ) (keys : List BlockKey) (ids : List ℕ)
    → longest (after (added t (k ∷ keys) (b ∷ ids)) k) keys
      ≡ longest (added (after t k) keys ids) keys
unfolding longest along
added-after t k b [] ids = refl
added-after t k b (q ∷ keys) ids =
    longest-ext (after (added t (k ∷ q ∷ keys) (b ∷ ids)) k) (added (after t k) (q ∷ keys) ids) q
      keys (λ path. rw (same_key_refl k) refl)

longest-nowhere :
    (t : Trie) (keys : List BlockKey) (ids : List ℕ)
    → length keys ≡ length ids
    → ((k : BlockKey) (p : List BlockKey) → t (k ∷ p) ≡ none)
    → longest (added t keys ids) keys ≡ ids
unfolding longest along
longest-nowhere t [] [] h n = refl
longest-nowhere t [] (b ∷ ids) h n = absurd (ground arith)
longest-nowhere t (k ∷ keys) [] h n = absurd (ground arith)
longest-nowhere t (k ∷ keys) (b ∷ ids) h n =
    rw (n k [], longest, same_key_refl k, added-after t k b keys ids)
      (ap (◌∷◌ b) (longest-nowhere (after t k) keys ids (omega arith) (λ j p. n k (j ∷ p))))

longest-added :
    (t : Trie) (keys : List BlockKey) (ids : List ℕ)
    → IsClosed t
    → length keys ≡ length ids
    → longest (added t keys ids) keys ≡ longest t keys ++ drop (length (longest t keys)) ids
unfolding longest along
longest-added t [] [] c h = refl
longest-added t [] (b ∷ ids) c h = absurd (ground arith)
longest-added t (k ∷ keys) [] c h = absurd (ground arith)
longest-added t (k ∷ keys) (b ∷ ids) c h = elim (Option-cases (t (k ∷ []))) [
  | inl missing ↦
      rw (missing, longest, same_key_refl k, added-after t k b keys ids)
        (ap (◌∷◌ b)
          (longest-nowhere (after t k) keys ids (omega arith) (λ j p. c k [] (j ∷ p) missing)))
  | inr (x, held) ↦
      rw (held, longest, added-after t k b keys ids)
        (ap (◌∷◌ x) (longest-added (after t k) keys ids (λ j p s. c k (j ∷ p) s) (omega arith)))
]

pub match_keys-longest :
    (c : RadixPrefixCache) (keys : List BlockKey)
    → (match_keys c keys).1 ≡ longest (block_at c.root) keys
unfolding match_keys
match_keys-longest c keys = descend-longest c.clock c.root keys

pub longest-same :
    (t u : Trie) (keys : List BlockKey)
    → ((p : List BlockKey) → t p ≡ u p)
    → longest t keys ≡ longest u keys
unfolding longest
longest-same t u [] h = refl
longest-same t u (k ∷ keys) h = longest-ext t u k keys (λ p. h (k ∷ p))

-- Where `insert` returns, `match` then finds all of the keys: the blocks that it found before, and
-- for the rest of the keys the new blocks.
pub insert-match_keys :
    (c c' : RadixPrefixCache) (keys : List BlockKey) (ids : List ℕ)
    → insert c keys ids ≡ ok c'
    → (match_keys c' keys).1 ≡ (match_keys c keys).1 ++ drop (length (match_keys c keys).1) ids
insert-match_keys c c' keys ids h =
    rw (match_keys-longest c keys, match_keys-longest c' keys)
      (longest-same (block_at c'.root) (added (block_at c.root) keys ids) keys
          (λ p. (insert-block_at c c' keys ids p h).1)
        ∙ longest-added (block_at c.root) keys ids (block_at-IsClosed c.root)
            ((insert-block_at c c' keys ids [] h).0))
