-- ===== src/Radix/Index.antt =====
-- nanovllm/engine/radix_cache.py: the radix cache as the prefix index of block_manager.py.
use nano_vllm_qos.Prelude.{
  ℕ, ◌<◌, ◌≡◌, true, Option, none, some, List, [], ◌∷◌, ◌++◌, arith, elem, count, count-reverse,
  Bool-cases, Option-cases, inl, inr, reverse, subst,
}
use nano_vllm_qos.BlockManager.{PrefixIndex}
use nano_vllm_qos.Radix.{
  Edge, Children, leaf, child, RadixPrefixCache, empty_cache, block_ids, match_keys, is_indexed,
  occurrences,
}
use nano_vllm_qos.Radix.Insert.{insert}
use nano_vllm_qos.Radix.Remove.{
  remove_block, first_eligible, leaf_candidates, pair_lt, least, lru_leaf_block,
}
use nano_vllm_qos.Radix.Lookup.{match_keys_lem}

-- A block that the cache may give up: it is one of the eligible ones, and the tree holds it.
abbrev IsEvictable : List ℕ → Children → ℕ → Type 0
IsEvictable eligible t b = (0 < count b eligible) × (0 < occurrences b t)

data AllEvictable (eligible : List ℕ) (t : Children) : List (ℕ × ℕ) → Type 0 where
  none_left : AllEvictable eligible t []
  also :
      {a : ℕ × ℕ} {others : List (ℕ × ℕ)}
      → IsEvictable eligible t a.1
      → AllEvictable eligible t others
      → AllEvictable eligible t (a ∷ others)

AllEvictable-widen :
    (eligible : List ℕ) (t u : Children) (found : List (ℕ × ℕ))
    → ((b : ℕ) → 0 < occurrences b t → 0 < occurrences b u)
    → AllEvictable eligible t found
    → AllEvictable eligible u found
AllEvictable-widen eligible t u [] w h = none_left
AllEvictable-widen eligible t u (a ∷ found) w (also e h) =
    also (e.0, w a.1 e.1) (AllEvictable-widen eligible t u found w h)

AllEvictable-append :
    (eligible : List ℕ) (t : Children) (xs ys : List (ℕ × ℕ))
    → AllEvictable eligible t xs
    → AllEvictable eligible t ys
    → AllEvictable eligible t (xs ++ ys)
AllEvictable-append eligible t [] ys h k = k
AllEvictable-append eligible t (x ∷ xs) ys (also e h) k =
    also e (AllEvictable-append eligible t xs ys h k)

first_eligible-count :
    (eligible ids : List ℕ) (b : ℕ)
    → first_eligible eligible ids ≡ some b
    → (0 < count b eligible) × (0 < count b ids)
unfolding first_eligible count
first_eligible-count eligible [] b h = absurd (ground arith)
first_eligible-count eligible (c ∷ ids) b h = elim (Bool-cases (elem c eligible)) [
  | inl held ↦
      let h' : some c ≡ some b = rw held at h in
      let same : c ≡ b = ground arith in
      subst (λ x. (0 < count x eligible) × (0 < count x (c ∷ ids))) same
        (ground (arith, held), ground arith)
  | inr missing ↦
      let later = first_eligible-count eligible ids b (rw missing at h) in
      (later.0, ground (arith, later.1))
]

in_edge :
    (e : Edge) (kids rest : Children) (access b : ℕ)
    → 0 < count b (reverse (block_ids e))
    → 0 < occurrences b (child e kids access rest)
unfolding occurrences
in_edge e kids rest access b h =
    let h' : 0 < count b (block_ids e) = subst (λ n. 0 < n) (count-reverse b (block_ids e)) h in
    omega arith

in_rest :
    (e : Edge) (kids rest : Children) (access b : ℕ)
    → 0 < occurrences b rest
    → 0 < occurrences b (child e kids access rest)
unfolding occurrences
in_rest e kids rest access b h = omega arith

in_kids :
    (e : Edge) (kids rest : Children) (access b : ℕ)
    → 0 < occurrences b kids
    → 0 < occurrences b (child e kids access rest)
unfolding occurrences
in_kids e kids rest access b h = omega arith

leaf_candidates-AllEvictable :
    (eligible : List ℕ) (t : Children) → AllEvictable eligible t (leaf_candidates eligible t)
unfolding leaf_candidates
leaf_candidates-AllEvictable eligible leaf = none_left
leaf_candidates-AllEvictable eligible (child e leaf access rest) =
    let beside =
      AllEvictable-widen eligible rest (child e leaf access rest) _
        (λ b. in_rest e leaf rest access b) (leaf_candidates-AllEvictable eligible rest) in
    elim (Option-cases (first_eligible eligible (reverse (block_ids e)))) [
      | inl h ↦ rw (h, leaf_candidates) beside
      | inr (b, h) ↦
          let held = first_eligible-count eligible (reverse (block_ids e)) b h in
          rw (h, leaf_candidates) (also (held.0, in_edge e leaf rest access b held.1) beside)
    ]
leaf_candidates-AllEvictable eligible (child e (child e' kids access' rest') access rest) =
    let below = child e' kids access' rest' in
    AllEvictable-append eligible (child e below access rest) (leaf_candidates eligible below)
      (leaf_candidates eligible rest)
      (AllEvictable-widen eligible below _ _ (λ b. in_kids e below rest access b)
        (leaf_candidates-AllEvictable eligible (child e' kids access' rest')))
      (AllEvictable-widen eligible rest _ _ (λ b. in_rest e below rest access b)
        (leaf_candidates-AllEvictable eligible rest))

least-IsEvictable :
    (eligible : List ℕ) (t : Children) (a : ℕ × ℕ) (others : List (ℕ × ℕ))
    → IsEvictable eligible t a.1
    → AllEvictable eligible t others
    → IsEvictable eligible t (least a others).1
unfolding least
least-IsEvictable eligible t a [] h k = h
least-IsEvictable eligible t a (b ∷ bs) h (also e k) = elim (Bool-cases (pair_lt b a)) [
  | inl lower ↦ rw (lower, least) (least-IsEvictable eligible t b bs e k)
  | inr higher ↦ rw (higher, least) (least-IsEvictable eligible t a bs h k)
]

lowest-IsEvictable :
    (eligible : List ℕ) (t : Children) (candidates : List (ℕ × ℕ)) (b : ℕ)
    → AllEvictable eligible t candidates
    → elim candidates as (λ x. Option ℕ) [ [] ↦ none | a ∷ others ↦ some ((least a others).1) ]
      ≡ some b
    → IsEvictable eligible t b
lowest-IsEvictable eligible t [] b h e = absurd (ground arith)
lowest-IsEvictable eligible t (a ∷ others) b (also x h) e =
    let same : (least a others).1 ≡ b = ground arith in
    subst (IsEvictable eligible t) same (least-IsEvictable eligible t a others x h)

-- The block that `lru_leaf_block` proposes is one of the eligible ones and stands in the tree.
pub lru_leaf_block_lem :
    (c : RadixPrefixCache) (eligible : List ℕ) (b : ℕ)
    → lru_leaf_block c eligible ≡ some b
    → (0 < count b eligible) × (is_indexed c b ≡ true)
unfolding lru_leaf_block
lru_leaf_block_lem c eligible b h =
    let found =
      lowest-IsEvictable eligible c.root (leaf_candidates eligible c.root) b
        (leaf_candidates-AllEvictable eligible c.root) h in
    (found.0, ground (arith, found.1))

-- `BlockManager(prefix_cache_backend="radix")` makes a `RadixPrefixCache`.
abbrev pub radix_index : PrefixIndex
radix_index = record {
  Index = RadixPrefixCache;
  empty = empty_cache;
  is_indexed = is_indexed;
  match_keys = match_keys;
  insert = insert;
  remove_block = remove_block;
  lru_leaf_block = lru_leaf_block;
  lru_leaf_eligible = λ c eligible b h. (lru_leaf_block_lem c eligible b h).0;
  match_bounded = λ i keys. (match_keys_lem i keys 0 []).1;
}
