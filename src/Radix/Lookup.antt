-- ===== src/Radix/Lookup.antt =====
-- nanovllm/engine/radix_cache.py: what `match` means for the trie of the cache.
use nano_vllm_qos.Prelude.{
  ℕ, zero, suc, ◌≤◌, ◌≡◌, refl, true, false, none, List, [], ◌∷◌, ◌++◌, arith, if◌then◌else◌, ltb,
  length, get_elem?, Bool-cases, Option-cases, ◌⊎◌, inl, inr, ap, ap₂, sym, ◌∙◌, take, drop,
  append-nil,
}
use nano_vllm_qos.Radix.{
  BlockKey, Edge, Children, leaf, child, RadixPrefixCache, same_key, block_ids, is_under,
  common_prefix_length, descend, match_keys,
}
use nano_vllm_qos.Radix.Paths.{
  Trie, along, block_at, after, longest, longest-ext, longest-along, is_under-head, is_under-nil,
}

longest-nil : (t : Trie) → longest t [] ≡ []
unfolding longest
longest-nil t = refl

longest-leaf : (q : BlockKey) (keys : List BlockKey) → longest (block_at leaf) (q ∷ keys) ≡ []
unfolding longest block_at
longest-leaf q keys = refl

-- A child is asked for the paths that begin under it, and the next child for the others.
pub block_at-under :
    (e : Edge) (kids rest : Children) (access : ℕ) (q : BlockKey) (keys path : List BlockKey)
    → is_under e (q ∷ keys) ≡ true
    → block_at (child e kids access rest) (q ∷ path) ≡ along e (block_at kids) (q ∷ path)
unfolding block_at
block_at-under e kids rest access q keys path h = rw (is_under-head e q path keys, h) refl

pub block_at-beside :
    (e : Edge) (kids rest : Children) (access : ℕ) (q : BlockKey) (keys path : List BlockKey)
    → is_under e (q ∷ keys) ≡ false
    → block_at (child e kids access rest) (q ∷ path) ≡ block_at rest (q ∷ path)
unfolding block_at
block_at-beside e kids rest access q keys path h = rw (is_under-head e q path keys, h) refl

pub descend-longest :
    (clock : ℕ) (t : Children) (keys : List BlockKey)
    → (descend clock t keys).1 ≡ longest (block_at t) keys
unfolding descend
descend-longest clock leaf [] = sym (longest-nil (block_at leaf))
descend-longest clock leaf (q ∷ keys) = sym (longest-leaf q keys)
descend-longest clock (child e kids access rest) [] =
    rw (is_under-nil e, descend)
      (descend-longest clock rest []
        ∙ longest-nil (block_at rest)
        ∙ sym (longest-nil (block_at (child e kids access rest))))
descend-longest clock (child e kids access rest) (q ∷ keys) =
    elim (Bool-cases (is_under e (q ∷ keys))) [
      | inr h ↦
          rw (h, descend)
            (descend-longest clock rest (q ∷ keys)
              ∙ longest-ext (block_at rest) (block_at (child e kids access rest)) q keys
                  (λ path. sym (block_at-beside e kids rest access q keys path h)))
      | inl h ↦
          let below =
            longest-ext (block_at (child e kids access rest)) (along e (block_at kids)) q keys
              (λ path. block_at-under e kids rest access q keys path h) in
          let whole = below ∙ longest-along e (block_at kids) (q ∷ keys) in
          elim (Bool-cases (ltb (common_prefix_length e (q ∷ keys)) (length e))) [
            | inl short ↦
                rw (h, short, descend)
                  (rw (whole, short)
                    (sym (append-nil (take (common_prefix_length e (q ∷ keys)) (block_ids e)))))
            | inr long ↦
                rw (h, long, descend)
                  (rw (whole, long)
                    (ap (◌++◌ (take (common_prefix_length e (q ∷ keys)) (block_ids e))) (
                      descend-longest (suc clock) kids
                        (drop (common_prefix_length e (q ∷ keys)) (q ∷ keys)))))
          ]
    ]

pub along-ext :
    (e : Edge) (t u : Trie) (path : List BlockKey)
    → ((p : List BlockKey) → t p ≡ u p)
    → along e t path ≡ along e u path
unfolding along
along-ext [] t u path h = h path
along-ext ((k, b) ∷ e) t u [] h = refl
along-ext ((k, b) ∷ e) t u (q ∷ []) h = refl
along-ext ((k, b) ∷ e) t u (q ∷ r ∷ path) h =
    ap (λ x. if same_key k q then x else none) (along-ext e t u (r ∷ path) h)

-- Two nodes with one edge mean the same if what is below and what is beside them does.
pub child-ext :
    (e : Edge) (kids kids' rest rest' : Children) (access access' : ℕ) (path : List BlockKey)
    → ((p : List BlockKey) → block_at kids p ≡ block_at kids' p)
    → block_at rest path ≡ block_at rest' path
    → block_at (child e kids access rest) path ≡ block_at (child e kids' access' rest') path
unfolding block_at
child-ext e kids kids' rest rest' access access' path h k =
    ap₂ (λ x y. if is_under e path then x else y)
      (along-ext e (block_at kids) (block_at kids') path h) k

-- Only the times of access change.
pub descend-block_at :
    (clock : ℕ) (t : Children) (keys path : List BlockKey)
    → block_at (descend clock t keys).0 path ≡ block_at t path
unfolding descend
descend-block_at clock leaf keys path = refl
descend-block_at clock (child e kids access rest) keys path = elim (Bool-cases (is_under e keys)) [
  | inr h ↦
      rw (h, descend)
        (child-ext e kids kids _ rest access access path (λ p. refl)
          (descend-block_at clock rest keys path))
  | inl h ↦ elim (Bool-cases (ltb (common_prefix_length e keys) (length e))) [
    | inl short ↦
        rw (h, short, descend)
          (child-ext e kids kids rest rest (suc clock) access path (λ p. refl) refl)
    | inr long ↦
        rw (h, long, descend)
          (child-ext e _ kids rest rest (suc clock) access path
            (descend-block_at (suc clock) kids (drop (common_prefix_length e keys) keys)) refl)
  ]
]

longest-at :
    (t : Trie) (keys : List BlockKey) (i : ℕ)
    → get_elem? (longest t keys) i
      ≡ (if ltb i (length (longest t keys)) then t (take (suc i) keys) else none)
unfolding longest
longest-at t [] i = ground arith
longest-at t (k ∷ keys) zero = ground arith
longest-at t (k ∷ keys) (suc i) = ground (arith, longest-at (after t k) keys i)

longest-bounded : (t : Trie) (keys : List BlockKey) → length (longest t keys) ≤ length keys
unfolding longest
longest-bounded t [] = omega arith
longest-bounded t (k ∷ keys) = ground (arith, longest-bounded (after t k) keys)

longest_maximal :
    (t : Trie) (keys : List BlockKey)
    → (length (longest t keys) ≡ length keys)
      ⊎ (t (take (suc (length (longest t keys))) keys) ≡ none)
unfolding longest
longest_maximal t [] = inl refl
longest_maximal t (k ∷ keys) = elim (Option-cases (t (k ∷ []))) [
  | inl e ↦ rw (e, longest) (inr e)
  | inr (b, e) ↦
      rw (e, longest)
        (elim (longest_maximal (after t k) keys) [
          | inl whole ↦ inl (ap suc whole)
          | inr missing ↦ inr missing
        ])
]

-- `match` answers the longest prefix of the keys that the trie holds: its i-th block is the one at
-- the end of the first i + 1 keys, it has no block past its length, which is at most that of the
-- keys, and if it is shorter then the trie does not hold the prefix with one key more. The trie is
-- as it was.
pub match_keys_lem :
    (c : RadixPrefixCache) (keys : List BlockKey) (i : ℕ) (path : List BlockKey)
    → let (c', matched) = match_keys c keys in
      (get_elem? matched i
        ≡ (if ltb i (length matched) then block_at c.root (take (suc i) keys) else none))
      × (length matched ≤ length keys)
      × ((length matched ≡ length keys)
          ⊎ (block_at c.root (take (suc (length matched)) keys) ≡ none))
      × (block_at c'.root path ≡ block_at c.root path)
unfolding match_keys
match_keys_lem c keys i path = rw (descend-longest c.clock c.root keys) (
  longest-at (block_at c.root) keys i,
  longest-bounded (block_at c.root) keys,
  longest_maximal (block_at c.root) keys,
  descend-block_at c.clock c.root keys path,
)
