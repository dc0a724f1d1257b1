-- ===== src/Radix/Tree.antt =====
-- nanovllm/engine/radix_cache.py: the shape of a tree, in which a node has an edge and no two children
-- of a node begin with the same key.
use nano_vllm_qos.Prelude.{
  ℕ, suc, ◌<◌, ◌≡◌, refl, true, false, none, List, [], ◌∷◌, arith, ltb, length, length-drop,
  Bool-cases, inl, inr, sym, ◌∙◌, take, drop, ok, Error, guard, ◌==◌,
}
use nano_vllm_qos.Prelude.Ensures.{Ensures, Ensures-bind, Ensures-if, Ensures-pure}
use nano_vllm_qos.Radix.{
  BlockKey, Edge, Children, leaf, child, RadixPrefixCache, same_key, edge_keys, is_under,
  common_prefix_length,
}
use nano_vllm_qos.Radix.Insert.{insert_path, new_leaf, split, zip, insert, all_distinct}
use nano_vllm_qos.Radix.Paths.{or_else, along, block_at, ltb-suc}
use nano_vllm_qos.Radix.Growth.{along_beside}
use nano_vllm_qos.Radix.Added.{
  guarded, insert-block_at, insert_path-block_at, is_under-take, new_leaf-block_at,
}

pub data IsTree : Children → Type 0 where
  is_leaf : IsTree leaf
  is_child :
      {e : Edge} {kids : Children} {access : ℕ} {rest : Children}
      → 0 < length e
      → ((p : List BlockKey) → is_under e p ≡ true → block_at rest p ≡ none)
      → IsTree kids
      → IsTree rest
      → IsTree (child e kids access rest)

new_leaf-IsTree : (path : Edge) (access : ℕ) → 0 < length path → IsTree (new_leaf path access)
unfolding block_at
new_leaf-IsTree path access h = is_child h (λ p under. refl) is_leaf is_leaf

pub drop-some : (n : ℕ) (e : Edge) → ltb n (length e) ≡ true → 0 < length (drop n e)
drop-some n e h = rw (length-drop n e) (ground arith)

-- What is left of a split edge has a key.
take-some :
    (e path : Edge)
    → is_under e (edge_keys path) ≡ true
    → 0 < length (take (common_prefix_length e (edge_keys path)) e)
unfolding common_prefix_length
take-some [] path h = absurd (ground arith)
take-some ((x, b) ∷ e) [] h = absurd (ground arith)
take-some ((x, b) ∷ e) ((q, c) ∷ path) h = rw h (ground arith)

-- What is beside the node stays beside it.
shut :
    (clock : ℕ) (e path : Edge) (rest : Children)
    → is_under e (edge_keys path) ≡ false
    → ((p : List BlockKey) → is_under e p ≡ true → block_at rest p ≡ none)
    → (p : List BlockKey) → is_under e p ≡ true
    → block_at (insert_path clock rest path).0 p ≡ none
shut clock e path rest h k p under =
    insert_path-block_at clock rest path p ∙ rw (k p under, along_beside path e p h under) refl

-- The two children of a split begin with different keys.
forked :
    (e path : Edge) (access : ℕ) (p : List BlockKey)
    → ltb (common_prefix_length e (edge_keys path)) (length e) ≡ true
    → ltb (common_prefix_length e (edge_keys path)) (length path) ≡ true
    → is_under (drop (common_prefix_length e (edge_keys path)) e) p ≡ true
    → block_at (new_leaf (drop (common_prefix_length e (edge_keys path)) path) access) p ≡ none
unfolding common_prefix_length
forked [] path access p k l under = absurd (ground arith)
forked (d ∷ e) [] access p k l under = absurd (ground arith)
forked ((x, b) ∷ e) ((q, c) ∷ path) access p k l under = elim (Bool-cases (same_key x q)) [
  | inl same ↦ rw same (
      forked e path access p (sym (ltb-suc _ _) ∙ rw same at k) (sym (ltb-suc _ _) ∙ rw same at l)
        (rw same at under))
  | inr differs ↦ rw differs (
      new_leaf-block_at ((q, c) ∷ path) access p
      ∙ along_beside ((q, c) ∷ path) ((x, b) ∷ e) p differs (rw differs at under))
]

split-IsTree :
    (clock access : ℕ) (e path : Edge) (kids rest : Children)
    → is_under e (edge_keys path) ≡ true
    → ltb (common_prefix_length e (edge_keys path)) (length e) ≡ true
    → ltb (common_prefix_length e (edge_keys path)) (length path) ≡ true
    → ((p : List BlockKey) → is_under e p ≡ true → block_at rest p ≡ none)
    → IsTree kids
    → IsTree rest
    → IsTree (split e kids access path (common_prefix_length e (edge_keys path)) clock rest)
split-IsTree clock access e path kids rest h k l s t u =
    is_child (take-some e path h) (λ p under. s p (sym (is_under-take e path p h) ∙ under))
      (is_child (drop-some (common_prefix_length e (edge_keys path)) e k)
        (λ p under. forked e path (suc (suc clock)) p k l under) t
        (new_leaf-IsTree _ (suc (suc clock))
          (drop-some (common_prefix_length e (edge_keys path)) path l)))
      u

insert_path-IsTree :
    (clock : ℕ) (t : Children) (path : Edge)
    → 0 < length path
    → IsTree t
    → IsTree (insert_path clock t path).0
unfolding insert_path
insert_path-IsTree clock leaf path h t = new_leaf-IsTree path (suc clock) h
insert_path-IsTree clock (child e kids access rest) path h (is_child n s t u) =
    elim (Bool-cases (is_under e (edge_keys path))) [
      | inr i ↦
          rw (i, insert_path)
            (is_child n (shut clock e path rest i s) t (insert_path-IsTree clock rest path h u))
      | inl i ↦ elim (Bool-cases (ltb (common_prefix_length e (edge_keys path)) (length e))) [
        | inl k ↦ elim (Bool-cases (ltb (common_prefix_length e (edge_keys path)) (length path))) [
          | inl l ↦
              rw (i, k, l, insert_path) (split-IsTree clock access e path kids rest i k l s t u)
          | inr l ↦ rw (i, k, l, insert_path) (is_child n s t u)
        ]
        | inr k ↦ elim (Bool-cases (ltb (common_prefix_length e (edge_keys path)) (length path))) [
          | inl l ↦
              rw (i, k, l, insert_path)
                (is_child n s
                  (insert_path-IsTree (suc clock) kids
                    (drop (common_prefix_length e (edge_keys path)) path)
                    (drop-some (common_prefix_length e (edge_keys path)) path l) t)
                  u)
          | inr l ↦ rw (i, k, l, insert_path) (is_child n s t u)
        ]
      ]
    ]

zip-some :
    (keys : List BlockKey) (ids : List ℕ)
    → length keys ≡ length ids
    → (length keys == 0) ≡ false
    → 0 < length (zip keys ids)
zip-some [] ids h k = absurd (ground arith)
zip-some (q ∷ keys) [] h k = absurd (ground arith)
zip-some (q ∷ keys) (b ∷ ids) h k = ground arith

kept :
    (c : RadixPrefixCache) (keys : List BlockKey) (ids : List ℕ)
    → IsTree c.root
    → Ensures (λ c'. IsTree c'.root) (insert c keys ids)
unfolding insert
kept c keys ids t = Ensures-bind (guard (length keys == length ids) Error.value_error) _ (λ u e.
    Ensures-if (length keys == 0) _ _ (λ nothing. Ensures-pure t)
      (λ more. Ensures-bind (guard (all_distinct ids) Error.value_error) _ (λ v d. Ensures-pure (
        insert_path-IsTree c.clock c.root (zip keys ids)
          (zip-some keys ids
            (ground (arith, guarded (length keys == length ids) Error.value_error u e)) more)
          t))))

-- Where `insert` into a tree returns, there are as many blocks as keys, what is left is a tree, and a
-- path leads to the block that it led to before, or else to the new block at the end of that path of
-- keys.
pub insert_lem :
    (c c' : RadixPrefixCache) (keys : List BlockKey) (ids : List ℕ) (p : List BlockKey)
    → insert c keys ids ≡ ok c'
    → IsTree c.root
    → (length keys ≡ length ids)
      × IsTree c'.root
      × (block_at c'.root p ≡ or_else (block_at c.root p) (along (zip keys ids) (block_at leaf) p))
insert_lem c c' keys ids p h t =
    let (same_length, meaning) = insert-block_at c c' keys ids p h in
    (same_length, (kept c keys ids t).at c' h, meaning)
