-- ===== src/Radix/Added.antt =====
-- nanovllm/engine/radix_cache.py: what `insert` means for the trie of the cache.
use nano_vllm_qos.Prelude.{
  ℕ, suc, ◌≡◌, refl, Bool, true, false, List, [], ◌∷◌, ok, Error, guard, arith, ◌==◌, ltb, length,
  Bool-cases, inl, inr, sym, take, drop,
}
use nano_vllm_qos.Prelude.Ensures.{Ensures, Ensures-bind, Ensures-if, Ensures-pure}
use nano_vllm_qos.Radix.{
  BlockKey, Edge, Children, leaf, child, RadixPrefixCache, same_key, edge_keys, is_under,
  common_prefix_length,
}
use nano_vllm_qos.Radix.Insert.{insert_path, new_leaf, split, zip, insert, all_distinct}
use nano_vllm_qos.Radix.Paths.{along, block_at, or_else}
use nano_vllm_qos.Radix.Growth.{
  along_only, or_else-none, along_differs, along_elsewhere, along_beside, along_past, along_within,
  along-split-under,
}

pub new_leaf-block_at :
    (path : Edge) (access : ℕ) (p : List BlockKey)
    → block_at (new_leaf path access) p ≡ along_only path p
unfolding block_at along
new_leaf-block_at [] access p = refl
new_leaf-block_at ((q, c) ∷ path) access [] = refl
new_leaf-block_at ((q, c) ∷ path) access (r ∷ p) = elim (Bool-cases (same_key q r)) [
  | inl h ↦ rw h refl
  | inr h ↦ rw (h, along_differs q r c path (block_at leaf) p h) refl
]

-- A node under which the new path goes, when only what is below it changes.
insert-below :
    (e path : Edge) (kids kids' rest : Children) (access access' : ℕ) (p : List BlockKey)
    → is_under e (edge_keys path) ≡ true
    → (is_under e p ≡ true
        → along e (block_at kids') p ≡ or_else (along e (block_at kids) p) (along_only path p))
    → block_at (child e kids' access' rest) p
      ≡ or_else (block_at (child e kids access rest) p) (along_only path p)
unfolding block_at
insert-below e path kids kids' rest access access' p h k = elim (Bool-cases (is_under e p)) [
  | inl i ↦ rw i (k i)
  | inr i ↦ rw (i, along_elsewhere path e p h i) (sym (or_else-none (block_at rest p)))
]

-- What is left of a split edge begins with the same key.
pub is_under-take :
    (e path : Edge) (p : List BlockKey)
    → is_under e (edge_keys path) ≡ true
    → is_under (take (common_prefix_length e (edge_keys path)) e) p ≡ is_under e p
unfolding common_prefix_length
is_under-take [] path p h = refl
is_under-take ((x, b) ∷ e) [] p h = absurd (ground arith)
is_under-take ((x, b) ∷ e) ((q, c) ∷ path) [] h = rw h refl
is_under-take ((x, b) ∷ e) ((q, c) ∷ path) (r ∷ p) h = rw h refl

insert-split :
    (clock access : ℕ) (e path : Edge) (kids rest : Children) (p : List BlockKey)
    → is_under e (edge_keys path) ≡ true
    → ltb (common_prefix_length e (edge_keys path)) (length e) ≡ true
    → ltb (common_prefix_length e (edge_keys path)) (length path) ≡ true
    → block_at (split e kids access path (common_prefix_length e (edge_keys path)) clock rest) p
      ≡ or_else (block_at (child e kids access rest) p) (along_only path p)
unfolding block_at
insert-split clock access e path kids rest p h k l = elim (Bool-cases (is_under e p)) [
  | inl i ↦ rw i (along-split-under clock access e path kids rest p h i k l)
  | inr i ↦
      rw (is_under-take e path p h, i, along_elsewhere path e p h i)
        (sym (or_else-none (block_at rest p)))
]

insert-beside :
    (e path : Edge) (kids rest rest' : Children) (access : ℕ) (p : List BlockKey)
    → is_under e (edge_keys path) ≡ false
    → block_at rest' p ≡ or_else (block_at rest p) (along_only path p)
    → block_at (child e kids access rest') p
      ≡ or_else (block_at (child e kids access rest) p) (along_only path p)
unfolding block_at
insert-beside e path kids rest rest' access p h k = elim (Bool-cases (is_under e p)) [
  | inl i ↦ rw (i, along_beside path e p h i) (sym (or_else-none (along e (block_at kids) p)))
  | inr i ↦ rw i k
]

pub insert_path-block_at :
    (clock : ℕ) (t : Children) (path : Edge) (p : List BlockKey)
    → block_at (insert_path clock t path).0 p ≡ or_else (block_at t p) (along_only path p)
unfolding insert_path block_at
insert_path-block_at clock leaf path p = new_leaf-block_at path (suc clock) p
insert_path-block_at clock (child e kids access rest) path p =
    elim (Bool-cases (is_under e (edge_keys path))) [
      | inr h ↦
          rw (h, insert_path)
            (insert-beside e path kids rest (insert_path clock rest path).0 access p h
              (insert_path-block_at clock rest path p))
      | inl h ↦ elim (Bool-cases (ltb (common_prefix_length e (edge_keys path)) (length e))) [
        | inl k ↦ elim (Bool-cases (ltb (common_prefix_length e (edge_keys path)) (length path))) [
          | inl l ↦ rw (h, k, l, insert_path) (insert-split clock access e path kids rest p h k l)
          | inr l ↦
              rw (h, k, l, insert_path)
                (insert-below e path kids kids rest access (suc clock) p h
                  (λ i. along_within e path (block_at kids) p l))
        ]
        | inr k ↦ elim (Bool-cases (ltb (common_prefix_length e (edge_keys path)) (length path))) [
          | inl l ↦
              rw (h, k, l, insert_path)
                (insert-below e path kids
                  (insert_path (suc clock) kids
                    (drop (common_prefix_length e (edge_keys path)) path)).0
                  rest access (suc clock) p h
                  (λ i.
                    along_past e path (block_at kids)
                      (block_at
                        (insert_path (suc clock) kids
                          (drop (common_prefix_length e (edge_keys path)) path)).0)
                      p k
                      (λ r.
                        insert_path-block_at (suc clock) kids
                          (drop (common_prefix_length e (edge_keys path)) path) r)))
          | inr l ↦
              rw (h, k, l, insert_path)
                (insert-below e path kids kids rest access (suc clock) p h
                  (λ i. along_within e path (block_at kids) p l))
        ]
      ]
    ]

zip-zero : (keys : List BlockKey) (ids : List ℕ) → length keys ≡ 0 → zip keys ids ≡ []
zip-zero [] ids h = refl
zip-zero (k ∷ keys) ids h = absurd (ground arith)

pub guarded : (b : Bool) (e : Error) (u : Unit) → guard b e ≡ ok u → b ≡ true
guarded true e u h = refl
guarded false e u h = absurd (ground arith)

insert-Ensures :
    (c : RadixPrefixCache) (keys : List BlockKey) (ids : List ℕ) (p : List BlockKey)
    → Ensures
        (λ c'.
          (length keys ≡ length ids)
          × (block_at c'.root p ≡ or_else (block_at c.root p) (along_only (zip keys ids) p)))
        (insert c keys ids)
unfolding insert along block_at
insert-Ensures c keys ids p =
    Ensures-bind (guard (length keys == length ids) Error.value_error) _ (λ u e.
      let same : length keys ≡ length ids =
        ground (arith, guarded (length keys == length ids) Error.value_error u e) in
      Ensures-if (length keys == 0) _ _
        (λ nothing.
          Ensures-pure (same, rw (zip-zero keys ids (ground arith)) (sym (or_else-none _))))
        (λ some_keys.
          Ensures-bind (guard (all_distinct ids) Error.value_error) _
            (λ v d. Ensures-pure (same, insert_path-block_at c.clock c.root (zip keys ids) p))))

pub insert-block_at :
    (c c' : RadixPrefixCache) (keys : List BlockKey) (ids : List ℕ) (p : List BlockKey)
    → insert c keys ids ≡ ok c'
    → (length keys ≡ length ids)
      × (block_at c'.root p ≡ or_else (block_at c.root p) (along_only (zip keys ids) p))
insert-block_at c c' keys ids p h = (insert-Ensures c keys ids p).at c' h
