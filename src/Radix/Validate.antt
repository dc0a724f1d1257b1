-- ===== src/Radix/Validate.antt =====
-- nanovllm/engine/radix_cache.py: `validate`. What it asserts of parents, of the dictionary's keys, of
-- the two lengths and of `block_locations` holds here by the way a tree is written down.
use nano_vllm_qos.Prelude.{ℕ, ◌+◌, Bool, true, not, ◌&&◌, List, [], ◌++◌, ◌==◌, ltb, length}
use nano_vllm_qos.Radix.{Children, leaf, child, RadixPrefixCache, block_ids}
use nano_vllm_qos.Radix.Insert.{all_distinct}

abbrev num_children : Children → ℕ
num_children leaf = 0
num_children (child e kids access rest) = 1 + num_children rest

-- A node has an edge, and not exactly one child.
unfoldable pub are_nodes_valid : Children → Bool
are_nodes_valid leaf = true
are_nodes_valid (child e kids access rest) =
    ltb 0 (length e) && not (num_children kids == 1) && are_nodes_valid kids && are_nodes_valid rest

unfoldable pub all_block_ids : Children → List ℕ
all_block_ids leaf = []
all_block_ids (child e kids access rest) = block_ids e ++ all_block_ids kids ++ all_block_ids rest

-- Whether `validate` returns.
abbrev pub validate : RadixPrefixCache → Bool
validate c = are_nodes_valid c.root && all_distinct (all_block_ids c.root)
