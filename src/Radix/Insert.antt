-- ===== src/Radix/Insert.antt =====
-- nanovllm/engine/radix_cache.py: `insert`.
use nano_vllm_qos.Prelude.{
  ℕ, suc, Bool, true, false, not, ◌&&◌, List, [], ◌∷◌, Result, ok, Error, guard, ◌>>◌,
  if◌then◌else◌, ◌==◌, ltb, length, take, drop, elem,
}
use nano_vllm_qos.Radix.{
  BlockKey, Edge, Children, leaf, child, RadixPrefixCache, edge_keys, is_under,
  common_prefix_length,
}

-- A node without children, for what is left of the path.
abbrev pub new_leaf : Edge → ℕ → Children
new_leaf path access = child path leaf access leaf

-- A node is split after the first `common` keys of its edge; the rest of the path is a second child.
abbrev pub split : Edge → Children → ℕ → Edge → ℕ → ℕ → Children → Children
split e kids access path common clock rest =
    child (take common e)
      (child (drop common e) kids access (new_leaf (drop common path) (suc (suc clock))))
      (suc clock) rest

-- The loop of `insert` for a path that is not empty: the tree, and the clock.
unfoldable pub insert_path : ℕ → Children → Edge → Children × ℕ
insert_path clock leaf path = (new_leaf path (suc clock), suc clock)
insert_path clock (child e kids access rest) path = elim (is_under e (edge_keys path)) [
  | false ↦ let (rest', clock') = insert_path clock rest path in (child e kids access rest', clock')
  | true ↦
      let common = common_prefix_length e (edge_keys path) in
      elim (ltb common (length e)) [
        | false ↦ elim (ltb common (length path)) [
          | false ↦ (child e kids (suc clock) rest, suc clock)
          | true ↦
              let (kids', clock') = insert_path (suc clock) kids (drop common path) in
              (child e kids' (suc clock) rest, clock')
        ]
        | true ↦ elim (ltb common (length path)) [
          | false ↦ (child e kids (suc clock) rest, suc clock)
          | true ↦ (split e kids access path common clock rest, suc (suc clock))
        ]
      ]
]

abbrev pub zip : List BlockKey → List ℕ → Edge
zip (k ∷ keys) (b ∷ ids) = (k, b) ∷ zip keys ids
zip _ _ = []

-- `len(set(block_ids)) == len(block_ids)`
abbrev pub all_distinct : List ℕ → Bool
all_distinct [] = true
all_distinct (b ∷ ids) = not (elem b ids) && all_distinct ids

unfoldable pub insert : RadixPrefixCache → List BlockKey → List ℕ → Result RadixPrefixCache
insert c keys ids = do
  guard (length keys == length ids) Error.value_error
  if length keys == 0 then ok c else (do
    guard (all_distinct ids) Error.value_error
    let (root', clock') = insert_path c.clock c.root (zip keys ids)
    ok (record c { root = root'; clock = clock' }))
