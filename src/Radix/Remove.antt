-- ===== src/Radix/Remove.antt =====
-- nanovllm/engine/radix_cache.py: `remove_block` and `lru_leaf_block`.
use nano_vllm_qos.Prelude.{
  ℕ, zero, suc, Bool, true, false, ◌&&◌, ◌||◌, Option, none, some, List, [], ◌∷◌, ◌++◌,
  if◌then◌else◌, ◌==◌, ltb, reverse, take, elem,
}
use nano_vllm_qos.Radix.{Edge, Children, leaf, child, RadixPrefixCache, block_ids}

-- The position of the block in the edge.
unfoldable pub position : ℕ → Edge → Option ℕ
position b [] = none
position b ((k, c) ∷ e) =
    if c == b then some 0 else elim (position b e) [ none ↦ none | some i ↦ some (suc i) ]

-- `_compress` of one node: while it has one child, it takes over the child's edge and children. The
-- node goes before `rest`.
unfoldable pub compress : ℕ → Edge → Children → ℕ → Children → Children × ℕ
compress clock e (child e' kids access' leaf) access rest =
    compress (suc clock) (e ++ e') kids (suc clock) rest
compress clock e kids access rest = (child e kids access rest, clock)

-- The tree without what hangs on the block, where the tree holds it, and the clock. The nodes above
-- it are compressed from below, but for the root.
unfoldable pub remove_from : ℕ → ℕ → Children → Option (Children × ℕ)
remove_from b clock leaf = none
remove_from b clock (child e kids access rest) = elim (position b e) [
  | some zero ↦ some (rest, clock)
  | some (suc i) ↦ some (child (take (suc i) e) leaf access rest, clock)
  | none ↦ elim (remove_from b clock kids) [
    | some (kids', clock') ↦ some (compress clock' e kids' access rest)
    | none ↦ elim (remove_from b clock rest) [
      | some (rest', clock') ↦ some (child e kids access rest', clock')
      | none ↦ none
    ]
  ]
]

unfoldable pub remove_block : RadixPrefixCache → ℕ → RadixPrefixCache × Bool
remove_block c b = elim (remove_from b c.clock c.root) [
  | none ↦ (c, false)
  | some (root', clock') ↦ (record c { root = root'; clock = clock' }, true)
]

-- The last of the blocks that may be evicted, in a list that is reversed already.
unfoldable pub first_eligible : List ℕ → List ℕ → Option ℕ
first_eligible eligible [] = none
first_eligible eligible (b ∷ ids) = if elem b eligible then some b else first_eligible eligible ids

-- `visit`: for each leaf, its last access and its last eligible block.
unfoldable pub leaf_candidates : List ℕ → Children → List (ℕ × ℕ)
leaf_candidates eligible leaf = []
leaf_candidates eligible (child e leaf access rest) =
    elim (first_eligible eligible (reverse (block_ids e))) [
      | none ↦ leaf_candidates eligible rest
      | some b ↦ (access, b) ∷ leaf_candidates eligible rest
    ]
leaf_candidates eligible (child e kids access rest) =
    leaf_candidates eligible kids ++ leaf_candidates eligible rest

-- `<` of two pairs
abbrev pub pair_lt : ℕ × ℕ → ℕ × ℕ → Bool
pair_lt a b = ltb a.0 b.0 || (a.0 == b.0) && ltb a.1 b.1

-- `min` of a candidate and those after it
unfoldable pub least : ℕ × ℕ → List (ℕ × ℕ) → ℕ × ℕ
least a [] = a
least a (b ∷ bs) = least (if pair_lt b a then b else a) bs

unfoldable pub lru_leaf_block : RadixPrefixCache → List ℕ → Option ℕ
lru_leaf_block c eligible = elim (leaf_candidates eligible c.root) [
  | [] ↦ none
  | a ∷ candidates ↦ some ((least a candidates).1)
]
