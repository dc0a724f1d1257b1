-- ===== src/Tests/Radix.antt =====
-- The radix cache and the tiers at concrete inputs.
use nano_vllm_qos.Prelude.{
  ℕ, zero, suc, ◌≡◌, refl, Bool, true, false, Option, none, some, List, [], ◌∷◌, ◌++◌, ok, arith,
  if◌then◌else◌, ◌≤◌, ◌<◌, ◌⊎◌, ltb, length, get_elem?, take, drop,
}
use nano_vllm_qos.Planner.{cpu, mooncake}
use nano_vllm_qos.Radix.{
  BlockKey, Edge, Children, leaf, child, RadixPrefixCache, empty_cache, match_keys, is_indexed,
}
use nano_vllm_qos.Radix
use nano_vllm_qos.Radix.Insert
use nano_vllm_qos.Radix.Insert.{insert, zip}
use nano_vllm_qos.Radix.Remove
use nano_vllm_qos.Radix.Remove.{remove_block, lru_leaf_block}
use nano_vllm_qos.Radix.Paths.{along, block_at, or_else}
use nano_vllm_qos.Radix.Cut.{passes}
use nano_vllm_qos.Radix.Lookup.{match_keys_lem}
use nano_vllm_qos.Radix.Tree.{IsTree, is_leaf, insert_lem}
use nano_vllm_qos.Radix.Validate.{validate}
use nano_vllm_qos.Radix.Reuse.{insert-match_keys}
use nano_vllm_qos.Radix.Pruned.{remove_block_lem}
use nano_vllm_qos.Tiers.{TierMatch, num_blocks, HierarchicalRadixCache, index_of, longest_match}
use nano_vllm_qos.Tiers.Longest.{IsBehind, on_tier, longest_match_lem}

abbrev keys : List BlockKey
keys = (1 ∷ []) ∷ (2 ∷ []) ∷ (3 ∷ []) ∷ []

abbrev fork : List BlockKey
fork = (1 ∷ []) ∷ (4 ∷ []) ∷ []

-- One path of three blocks.
abbrev one_path : RadixPrefixCache
one_path = record empty_cache { root = child (zip keys (10 ∷ 11 ∷ 12 ∷ [])) leaf 1 leaf; clock = 1 }

-- A second path leaves it after the first block: the node is split.
abbrev two_paths : RadixPrefixCache
two_paths = record empty_cache {
  root =
      child (((1 ∷ []), 10) ∷ [])
        (child (((2 ∷ []), 11) ∷ ((3 ∷ []), 12) ∷ []) leaf 1
          (child (((4 ∷ []), 21) ∷ []) leaf 3 leaf))
        2 leaf;
  clock = 3;
}

insert_one : insert empty_cache keys (10 ∷ 11 ∷ 12 ∷ []) ≡ ok one_path
unfolding insert nano_vllm_qos.Radix.Insert.insert_path nano_vllm_qos.Prelude.count
insert_one = refl

insert_two : insert one_path fork (20 ∷ 21 ∷ []) ≡ ok two_paths
unfolding insert nano_vllm_qos.Radix.Insert.insert_path nano_vllm_qos.Radix.common_prefix_length
    nano_vllm_qos.Prelude.count
insert_two = refl

insert_lem_example :
    (length fork ≡ length {A = ℕ} (20 ∷ 21 ∷ []))
    × IsTree two_paths.root
    × (block_at two_paths.root fork
        ≡ or_else
            (block_at one_path.root fork)
            (along (zip fork (20 ∷ 21 ∷ [])) (block_at leaf) fork))
insert_lem_example =
    insert_lem one_path two_paths fork (20 ∷ 21 ∷ []) fork insert_two
      ((insert_lem empty_cache one_path keys (10 ∷ 11 ∷ 12 ∷ []) [] insert_one is_leaf).1)

two_paths-IsTree : IsTree two_paths.root
two_paths-IsTree =
    (insert_lem one_path two_paths fork (20 ∷ 21 ∷ []) [] insert_two
      ((insert_lem empty_cache one_path keys (10 ∷ 11 ∷ 12 ∷ []) [] insert_one is_leaf).1)).1

match_keys_lem_example :
    let (c', matched) = match_keys two_paths keys in
    (get_elem? matched 1
      ≡ (if ltb 1 (length matched) then block_at two_paths.root (take 2 keys) else none))
    × (length matched ≤ length keys)
    × ((length matched ≡ length keys)
        ⊎ (block_at two_paths.root (take (suc (length matched)) keys) ≡ none))
    × (block_at c'.root fork ≡ block_at two_paths.root fork)
match_keys_lem_example = match_keys_lem two_paths keys 1 fork

-- The first block was there already.
insert-match_keys_example :
    (match_keys two_paths fork).1
    ≡ (match_keys one_path fork).1 ++ drop (length (match_keys one_path fork).1) (20 ∷ 21 ∷ [])
insert-match_keys_example = insert-match_keys one_path two_paths fork (20 ∷ 21 ∷ []) insert_two

-- Without block 11 the node of the first block has one child, which it takes over.
remove_middle :
    (remove_block two_paths 11).0.root ≡ child (((1 ∷ []), 10) ∷ ((4 ∷ []), 21) ∷ []) leaf 4 leaf
unfolding remove_block nano_vllm_qos.Radix.Remove.remove_from nano_vllm_qos.Radix.Remove.position
    nano_vllm_qos.Radix.Remove.compress
remove_middle = refl

remove_block_lem_example :
    let (c', removed) = remove_block two_paths 11 in
    (removed ≡ is_indexed two_paths 11)
    × IsTree c'.root
    × (block_at c'.root keys
        ≡ (if passes 11 (block_at two_paths.root) keys then none else block_at two_paths.root keys))
unfolding nano_vllm_qos.Radix.occurrences nano_vllm_qos.Prelude.count
remove_block_lem_example = remove_block_lem two_paths 11 keys two_paths-IsTree (omega arith)

-- The older leaf goes first, with its last block.
lru : lru_leaf_block two_paths (10 ∷ 11 ∷ 12 ∷ 21 ∷ []) ≡ some 12
unfolding lru_leaf_block Remove.leaf_candidates Remove.first_eligible nano_vllm_qos.Prelude.count
    Remove.least
lru = refl

abbrev replicas : HierarchicalRadixCache
replicas = record { gpu_index = empty_cache; cpu_index = two_paths; mooncake_index = one_path }

-- Two tiers hold three blocks: the faster one is chosen.
longest_cpu :
    (longest_match replicas keys).1 ≡ some (record { tier = cpu; handles = 10 ∷ 11 ∷ 12 ∷ [] })
unfolding longest_match nano_vllm_qos.Tiers.match_tiers match_keys nano_vllm_qos.Radix.descend
    nano_vllm_qos.Radix.common_prefix_length
longest_cpu = refl

longest_match_lem_example :
    ((10 ∷ 11 ∷ 12 ∷ []) ≡ (match_keys two_paths keys).1)
    × (0 < 3)
    × IsBehind (on_tier replicas keys mooncake) (record { tier = cpu; handles = 10 ∷ 11 ∷ 12 ∷ [] })
longest_match_lem_example =
    longest_match_lem replicas keys (record { tier = cpu; handles = 10 ∷ 11 ∷ 12 ∷ [] }) mooncake
      longest_cpu

validate_two : validate two_paths ≡ true
unfolding nano_vllm_qos.Radix.Validate.are_nodes_valid nano_vllm_qos.Radix.Validate.all_block_ids
    nano_vllm_qos.Prelude.count
validate_two = refl

-- A path that goes on past a leaf makes that leaf a node with one child.
abbrev longer_path : RadixPrefixCache
longer_path = record empty_cache {
  root = child (zip keys (10 ∷ 11 ∷ 12 ∷ [])) (child (((4 ∷ []), 13) ∷ []) leaf 3 leaf) 2 leaf;
  clock = 3;
}

insert_longer : insert one_path (keys ++ (4 ∷ []) ∷ []) (10 ∷ 11 ∷ 12 ∷ 13 ∷ []) ≡ ok longer_path
unfolding insert nano_vllm_qos.Radix.Insert.insert_path nano_vllm_qos.Radix.common_prefix_length
    nano_vllm_qos.Prelude.count
insert_longer = refl

-- `validate` does not accept it.
validate_longer : validate longer_path ≡ false
unfolding nano_vllm_qos.Radix.Validate.are_nodes_valid
validate_longer = refl
