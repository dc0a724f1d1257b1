-- ===== src/Tiers.antt =====
-- nanovllm/engine/hierarchical_cache.py: a radix index for each tier, and the tier that holds the
-- longest prefix. The dictionary `indexes` holds every tier, in the order of `CacheTier`: it is a
-- record of three.
pub mod Longest
use nano_vllm_qos.Prelude.{
  ℕ, zero, suc, ◌+◌, ◌≤◌, ◌<◌, ◌≡◌, refl, Bool, true, false, ◌&&◌, ◌||◌, Option, none, some, List,
  [], ◌∷◌, Result, ok, ◌>>=◌, arith, if◌then◌else◌, ◌==◌, ltb, length, ◌⊎◌, inl, inr, Bool-cases,
}
use nano_vllm_qos.Planner.{CacheTier, gpu, cpu, mooncake}
use nano_vllm_qos.Radix.{BlockKey, RadixPrefixCache, empty_cache, match_keys}
use nano_vllm_qos.Radix.Insert
use nano_vllm_qos.Radix.Remove.{remove_block}

pub record TierMatch : Type 0 where
  pub tier : CacheTier
  pub handles : List ℕ

abbrev pub num_blocks : TierMatch → ℕ
num_blocks m = length m.handles

pub record HierarchicalRadixCache : Type 0 where
  pub gpu_index : RadixPrefixCache
  pub cpu_index : RadixPrefixCache
  pub mooncake_index : RadixPrefixCache

abbrev pub empty_indexes : HierarchicalRadixCache
empty_indexes = record {
  gpu_index = empty_cache;
  cpu_index = empty_cache;
  mooncake_index = empty_cache;
}

abbrev pub index_of : HierarchicalRadixCache → CacheTier → RadixPrefixCache
index_of h gpu = h.gpu_index
index_of h cpu = h.cpu_index
index_of h mooncake = h.mooncake_index

abbrev pub with_index :
    HierarchicalRadixCache → CacheTier → RadixPrefixCache → HierarchicalRadixCache
with_index h gpu c = record h { gpu_index = c }
with_index h cpu c = record h { cpu_index = c }
with_index h mooncake c = record h { mooncake_index = c }

unfoldable pub insert :
    HierarchicalRadixCache → CacheTier → List BlockKey → List ℕ → Result HierarchicalRadixCache
insert h tier keys handles = do
  c ← Insert.insert (index_of h tier) keys handles
  ok (with_index h tier c)

unfoldable pub remove : HierarchicalRadixCache → CacheTier → ℕ → HierarchicalRadixCache × Bool
remove h tier handle =
    let (c, removed) = remove_block (index_of h tier) handle in (with_index h tier c, removed)

-- `match`
unfoldable pub match_tiers :
    HierarchicalRadixCache
    → List BlockKey
    → HierarchicalRadixCache × TierMatch × TierMatch × TierMatch
match_tiers h keys =
    let (gpu_index', on_gpu) = match_keys h.gpu_index keys in
    let (cpu_index', on_cpu) = match_keys h.cpu_index keys in
    let (mooncake_index', on_mooncake) = match_keys h.mooncake_index keys in
    (
      record { gpu_index = gpu_index'; cpu_index = cpu_index'; mooncake_index = mooncake_index' },
      record { tier = gpu; handles = on_gpu },
      record { tier = cpu; handles = on_cpu },
      record { tier = mooncake; handles = on_mooncake },
    )

abbrev pub tier_order : CacheTier → ℕ
tier_order gpu = 0
tier_order cpu = 1
tier_order mooncake = 2

-- `>` of the two keys of `max`
abbrev pub is_longer : TierMatch → TierMatch → Bool
is_longer a b =
    ltb (num_blocks b) (num_blocks a)
    || num_blocks a == num_blocks b && ltb (tier_order a.tier) (tier_order b.tier)

-- `max` of two, which is the first where they are alike
abbrev pub longer : TierMatch → TierMatch → TierMatch
longer a b = if is_longer b a then b else a

unfoldable pub longest_match :
    HierarchicalRadixCache → List BlockKey → HierarchicalRadixCache × Option TierMatch
longest_match h keys =
    let (h', on_gpu, on_cpu, on_mooncake) = match_tiers h keys in
    let best = longer (longer on_gpu on_cpu) on_mooncake in
    (h', if num_blocks best == 0 then none else some best)
