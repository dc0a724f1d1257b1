-- ===== src/Radix.antt =====
-- nanovllm/engine/radix_cache.py: the path-compressed index of token blocks. The children hold the
-- operations and their theorems.
--
-- A tree is one value here: a node holds its children, so `parent` is the way to it, and
-- `block_locations` is where a block stands in the tree (`validate` asserts that the two agree). The
-- tuples `edge_keys` and `block_ids` of a node have one length: they are one list of pairs.
pub mod Insert
pub mod Remove
pub mod Paths
pub mod Lookup
pub mod Growth
pub mod Added
pub mod Reuse
pub mod Cut
pub mod Tree
pub mod Compress
pub mod Pruned
pub mod Index
pub mod Validate
use nano_vllm_qos.Prelude.{
  ℕ, zero, suc, ◌+◌, ◌-◌, ◌≡◌, Bool, true, false, ◌&&◌, Option, none, some, List, [], ◌∷◌, ◌++◌,
  if◌then◌else◌, ◌==◌, ltb, length, take, drop, count,
}

-- The tokens of a block.
abbrev pub BlockKey : Type 0
BlockKey = List ℕ

abbrev pub Edge : Type 0
Edge = List (BlockKey × ℕ)

-- The children of a node, in the order of the dictionary: a child with its edge, its own children
-- and its last access, and the children after it. The dictionary's key is the first key of the edge.
pub data Children : Type 0 where
  leaf : Children
  child : Edge → Children → ℕ → Children → Children

-- The root has no edge, and is known by its children.
pub record RadixPrefixCache : Type 0 where
  pub root : Children
  pub clock : ℕ
  pub lookups : ℕ
  pub queried_blocks : ℕ
  pub hit_blocks : ℕ

abbrev pub empty_cache : RadixPrefixCache
empty_cache = record { root = leaf; clock = 0; lookups = 0; queried_blocks = 0; hit_blocks = 0 }

-- `==` of two tuples of tokens
abbrev pub same_key : BlockKey → BlockKey → Bool
same_key [] [] = true
same_key (x ∷ xs) (y ∷ ys) = x == y && same_key xs ys
same_key _ _ = false

abbrev pub edge_keys : Edge → List BlockKey
edge_keys [] = []
edge_keys ((k, b) ∷ e) = k ∷ edge_keys e

abbrev pub block_ids : Edge → List ℕ
block_ids [] = []
block_ids ((k, b) ∷ e) = b ∷ block_ids e

-- `_common_prefix_length(child.edge_keys, keys)`
unfoldable pub common_prefix_length : Edge → List BlockKey → ℕ
common_prefix_length ((k, b) ∷ e) (q ∷ keys) =
    if same_key k q then suc (common_prefix_length e keys) else 0
common_prefix_length _ _ = 0

-- Whether the dictionary finds the child under the first of the keys.
abbrev pub is_under : Edge → List BlockKey → Bool
is_under ((k, b) ∷ e) (q ∷ keys) = same_key k q
is_under _ _ = false

-- The loop of `match`: the tree with the times of access, the blocks, and the clock.
unfoldable pub descend : ℕ → Children → List BlockKey → Children × List ℕ × ℕ
descend clock leaf keys = (leaf, [], clock)
descend clock (child e kids access rest) keys = elim (is_under e keys) [
  | false ↦
      let (rest', found, clock') = descend clock rest keys in
      (child e kids access rest', found, clock')
  | true ↦
      let common = common_prefix_length e keys in
      elim (ltb common (length e)) [
        | true ↦ (child e kids (suc clock) rest, take common (block_ids e), suc clock)
        | false ↦
            let (kids', found, clock') = descend (suc clock) kids (drop common keys) in
            (child e kids' (suc clock) rest, take common (block_ids e) ++ found, clock')
      ]
]

-- `match`
unfoldable pub match_keys : RadixPrefixCache → List BlockKey → RadixPrefixCache × List ℕ
match_keys c keys =
    let (root', matched, clock') = descend c.clock c.root keys in
    (
      record {
        root = root';
        clock = clock';
        lookups = c.lookups + 1;
        queried_blocks = c.queried_blocks + length keys;
        hit_blocks = c.hit_blocks + length matched;
      },
      matched,
    )

-- How often a block stands in a tree, which is once at most where `block_locations` can hold it.
unfoldable pub occurrences : ℕ → Children → ℕ
occurrences b leaf = 0
occurrences b (child e kids access rest) =
    count b (block_ids e) + occurrences b kids + occurrences b rest

-- `block_id in block_locations`
abbrev pub is_indexed : RadixPrefixCache → ℕ → Bool
is_indexed c b = ltb 0 (occurrences b c.root)

unfoldable pub count_nodes : Children → ℕ
count_nodes leaf = 0
count_nodes (child e kids access rest) = 1 + count_nodes kids + count_nodes rest

unfoldable pub count_blocks : Children → ℕ
count_blocks leaf = 0
count_blocks (child e kids access rest) = length e + count_blocks kids + count_blocks rest
