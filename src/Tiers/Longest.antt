-- ===== src/Tiers/Longest.antt =====
-- nanovllm/engine/hierarchical_cache.py: the choice of `longest_match`.
use nano_vllm_qos.Prelude.{
  ◌≤◌, ◌<◌, ◌≡◌, refl, none, some, List, arith, if◌then◌else◌, ◌==◌, ◌⊎◌, inl, inr, Bool-cases,
  subst,
}
use nano_vllm_qos.Planner.{CacheTier, gpu, cpu, mooncake}
use nano_vllm_qos.Radix.{BlockKey, match_keys}
use nano_vllm_qos.Tiers.{
  TierMatch, num_blocks, HierarchicalRadixCache, index_of, match_tiers, tier_order, is_longer,
  longer, longest_match,
}

-- A match of the second is shorter, or as long and on no faster a tier.
abbrev pub IsBehind : TierMatch → TierMatch → Type 0
IsBehind a b =
    (num_blocks a < num_blocks b)
    ⊎ ((num_blocks a ≡ num_blocks b) × (tier_order b.tier ≤ tier_order a.tier))

follows_self : (a : TierMatch) → IsBehind a a
follows_self a = inr (refl, ground arith)

follows_trans : (a b c : TierMatch) → IsBehind a b → IsBehind b c → IsBehind a c
follows_trans a b c h k = ground arith

longer-left : (a b : TierMatch) → IsBehind a (longer a b)
longer-left a b = elim (Bool-cases (is_longer b a)) [
  | inl e ↦ rw e (ground (arith, e))
  | inr e ↦ rw e (follows_self a)
]

longer-right : (a b : TierMatch) → IsBehind b (longer a b)
longer-right a b = elim (Bool-cases (is_longer b a)) [
  | inl e ↦ rw e (follows_self b)
  | inr e ↦ rw e (ground (arith, e))
]

-- What the index of a tier matches.
abbrev pub on_tier : HierarchicalRadixCache → List BlockKey → CacheTier → TierMatch
on_tier h keys tier = record { tier = tier; handles = (match_keys (index_of h tier) keys).1 }

abbrev IsMatch : HierarchicalRadixCache → List BlockKey → TierMatch → Type 0
IsMatch h keys m = m.handles ≡ (match_keys (index_of h m.tier) keys).1

longer-IsMatch :
    (h : HierarchicalRadixCache) (keys : List BlockKey) (a b : TierMatch)
    → IsMatch h keys a
    → IsMatch h keys b
    → IsMatch h keys (longer a b)
longer-IsMatch h keys a b p q = elim (Bool-cases (is_longer b a)) [
  | inl e ↦ rw e q
  | inr e ↦ rw e p
]

abbrev longest_of : HierarchicalRadixCache → List BlockKey → TierMatch
longest_of h keys =
    longer (longer (on_tier h keys gpu) (on_tier h keys cpu)) (on_tier h keys mooncake)

best_follows :
    (h : HierarchicalRadixCache) (keys : List BlockKey) (tier : CacheTier)
    → IsBehind (on_tier h keys tier) (longest_of h keys)
best_follows h keys gpu =
    follows_trans (on_tier h keys gpu) _ _ (longer-left (on_tier h keys gpu) (on_tier h keys cpu))
      (longer-left (longer (on_tier h keys gpu) (on_tier h keys cpu)) (on_tier h keys mooncake))
best_follows h keys cpu =
    follows_trans (on_tier h keys cpu) _ _ (longer-right (on_tier h keys gpu) (on_tier h keys cpu))
      (longer-left (longer (on_tier h keys gpu) (on_tier h keys cpu)) (on_tier h keys mooncake))
best_follows h keys mooncake =
    longer-right (longer (on_tier h keys gpu) (on_tier h keys cpu)) (on_tier h keys mooncake)

chosen :
    (best m : TierMatch)
    → (if num_blocks best == 0 then none else some best) ≡ some m
    → (best ≡ m) × (0 < num_blocks m)
chosen best m e = elim (Bool-cases (num_blocks best == 0)) [
  | inl h ↦ absurd (ground (arith, h))
  | inr h ↦
      let same : best ≡ m = ground (arith, h) in
      (same, subst (λ x. 0 < num_blocks x) same (ground (arith, h)))
]

-- The match that `longest_match` answers is that of its tier's index and has a block. The match of
-- any other tier is shorter, or as long and on a tier that comes no earlier in the order.
pub longest_match_lem :
    (h : HierarchicalRadixCache) (keys : List BlockKey) (m : TierMatch) (tier : CacheTier)
    → (longest_match h keys).1 ≡ some m
    → (m.handles ≡ (match_keys (index_of h m.tier) keys).1)
      × (0 < num_blocks m)
      × IsBehind (on_tier h keys tier) m
unfolding longest_match match_tiers
longest_match_lem h keys m tier e =
    let (same, some_blocks) = chosen (longest_of h keys) m e in
    let fast = longer-IsMatch h keys (on_tier h keys gpu) (on_tier h keys cpu) refl refl in
    (
      subst (IsMatch h keys) same (
          longer-IsMatch h keys (longer (on_tier h keys gpu) (on_tier h keys cpu))
            (on_tier h keys mooncake) fast refl),
      some_blocks,
      subst (IsBehind (on_tier h keys tier)) same (best_follows h keys tier),
    )
