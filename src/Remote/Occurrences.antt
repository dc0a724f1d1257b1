-- ===== src/Remote/Occurrences.antt =====
-- nanovllm/engine/remote_restore.py: how often a handle stands in the index of the catalog.
use nano_vllm_qos.Prelude.{
  ℕ, zero, suc, ◌+◌, ◌≤◌, ◌≡◌, List, [], ◌∷◌, arith, ltb, length, Bool-cases, inl, inr, take, drop,
  count, ok, Error, guard, ◌==◌,
}
use nano_vllm_qos.Prelude.Ensures.{Ensures, Ensures-bind, Ensures-if, Ensures-pure}
use nano_vllm_qos.Radix.{
  BlockKey, Edge, Children, leaf, child, RadixPrefixCache, edge_keys, block_ids, is_under,
  occurrences, common_prefix_length,
}
use nano_vllm_qos.Radix.Insert.{insert_path, zip, insert, all_distinct}

count-cut :
    (b n : ℕ) (e : Edge)
    → count b (block_ids e) ≡ count b (block_ids (take n e)) + count b (block_ids (drop n e))
unfolding count
count-cut b zero e = omega arith
count-cut b (suc n) [] = omega arith
count-cut b (suc n) ((k, c) ∷ e) = omega (arith, count-cut b n e)

-- A block is where it was, and may stand in one more place for each time it is among the new ones.
insert_path-occurrences :
    (b clock : ℕ) (t : Children) (path : Edge)
    → (occurrences b t ≤ occurrences b (insert_path clock t path).0)
      × (occurrences b (insert_path clock t path).0 ≤ occurrences b t + count b (block_ids path))
unfolding insert_path occurrences
insert_path-occurrences b clock leaf path = (omega arith, omega arith)
insert_path-occurrences b clock (child e kids access rest) path =
    let n = common_prefix_length e (edge_keys path) in
    elim (Bool-cases (is_under e (edge_keys path))) [
      | inr i ↦
          let beside = insert_path-occurrences b clock rest path in
          rw (i, insert_path) (omega (arith, beside.0), omega (arith, beside.1))
      | inl i ↦ elim (Bool-cases (ltb (common_prefix_length e (edge_keys path)) (length e))) [
        | inl k ↦ elim (Bool-cases (ltb (common_prefix_length e (edge_keys path)) (length path))) [
          | inl l ↦
              rw (i, k, l, insert_path)
                (
                  omega (arith, count-cut b n e, count-cut b n path),
                  omega (arith, count-cut b n e, count-cut b n path),
                )
          | inr l ↦ rw (i, k, l, insert_path) (omega arith, omega arith)
        ]
        | inr k ↦ elim (Bool-cases (ltb (common_prefix_length e (edge_keys path)) (length path))) [
          | inl l ↦
              let below =
                insert_path-occurrences b (suc clock) kids
                  (drop (common_prefix_length e (edge_keys path)) path) in
              rw (i, k, l, insert_path)
                (omega (arith, below.0), omega (arith, below.1, count-cut b n path))
          | inr l ↦ rw (i, k, l, insert_path) (omega arith, omega arith)
        ]
      ]
    ]

block_ids-zip :
    (b : ℕ) (keys : List BlockKey) (ids : List ℕ) → count b (block_ids (zip keys ids)) ≤ count b ids
unfolding count
block_ids-zip b [] ids = omega arith
block_ids-zip b (k ∷ keys) [] = omega arith
block_ids-zip b (k ∷ keys) (c ∷ ids) = omega (arith, block_ids-zip b keys ids)

bounds :
    (b : ℕ) (c : RadixPrefixCache) (keys : List BlockKey) (ids : List ℕ)
    → Ensures
        (λ c'.
          (occurrences b c.root ≤ occurrences b c'.root)
          × (occurrences b c'.root ≤ occurrences b c.root + count b ids))
        (insert c keys ids)
unfolding insert
bounds b c keys ids = Ensures-bind (guard (length keys == length ids) Error.value_error) _ (λ u e.
    Ensures-if (length keys == 0) _ _ (λ nothing. Ensures-pure (omega arith, omega arith))
      (λ more. Ensures-bind (guard (all_distinct ids) Error.value_error) _ (λ v d.
        let path = insert_path-occurrences b c.clock c.root (zip keys ids) in
        Ensures-pure (path.0, omega (arith, path.1, block_ids-zip b keys ids)))))

pub insert-occurrences :
    (b : ℕ) (c c' : RadixPrefixCache) (keys : List BlockKey) (ids : List ℕ)
    → insert c keys ids ≡ ok c'
    → (occurrences b c.root ≤ occurrences b c'.root)
      × (occurrences b c'.root ≤ occurrences b c.root + count b ids)
insert-occurrences b c c' keys ids h = (bounds b c keys ids).at c' h
