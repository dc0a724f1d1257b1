-- ===== src/Radix/Compress.antt =====
-- nanovllm/engine/radix_cache.py: `_compress`, which joins a node and its only child.
use nano_vllm_qos.Prelude.{
  ℕ, suc, ◌<◌, ◌≡◌, refl, none, List, [], ◌∷◌, ◌++◌, arith, if◌then◌else◌, length, length-append,
  Bool-cases, inl, inr, ap, sym, ◌∙◌,
}
use nano_vllm_qos.Radix.{BlockKey, Edge, Children, leaf, child, same_key, is_under}
use nano_vllm_qos.Radix.Paths.{Trie, along, block_at}
use nano_vllm_qos.Radix.Lookup.{along-ext}
use nano_vllm_qos.Radix.Growth.{along_differs}
use nano_vllm_qos.Radix.Remove.{compress}
use nano_vllm_qos.Radix.Tree.{IsTree, is_child}

is_under-append :
    (e e' : Edge) (p : List BlockKey) → 0 < length e → is_under (e ++ e') p ≡ is_under e p
is_under-append [] e' p h = absurd (omega arith)
is_under-append ((x, b) ∷ e) e' [] h = refl
is_under-append ((x, b) ∷ e) e' (q ∷ p) h = refl

-- A node without siblings.
alone :
    (e : Edge) (kids : Children) (access : ℕ) (p : List BlockKey)
    → 0 < length e
    → block_at (child e kids access leaf) p ≡ along e (block_at kids) p
unfolding block_at along
alone [] kids access p h = absurd (omega arith)
alone ((x, b) ∷ e) kids access [] h = refl
alone ((x, b) ∷ e) kids access (q ∷ p) h = elim (Bool-cases (same_key x q)) [
  | inl same ↦ rw same refl
  | inr differs ↦ rw (differs, along_differs x q b e (block_at kids) p differs) refl
]

along-append :
    (e e' : Edge) (t : Trie) (p : List BlockKey) → along (e ++ e') t p ≡ along e (along e' t) p
unfolding along
along-append [] e' t p = refl
along-append ((x, b) ∷ e) e' t [] = refl
along-append ((x, b) ∷ e) e' t (q ∷ []) = refl
along-append ((x, b) ∷ e) e' t (q ∷ r ∷ p) =
    ap (λ o. if same_key x q then o else none) (along-append e e' t (r ∷ p))

joined :
    (e e' : Edge) (kids rest : Children) (access access' access'' : ℕ) (p : List BlockKey)
    → 0 < length e
    → 0 < length e'
    → block_at (child (e ++ e') kids access rest) p
      ≡ block_at (child e (child e' kids access' leaf) access'' rest) p
unfolding block_at
joined e e' kids rest access access' access'' p h k = rw (is_under-append e e' p h) (
    ap (λ o. if is_under e p then o else block_at rest p)
      (along-append e e' (block_at kids) p
        ∙ along-ext e (along e' (block_at kids)) (block_at (child e' kids access' leaf)) p
            (λ s. sym (alone e' kids access' s k))))

pub compress-block_at :
    (clock : ℕ) (e : Edge) (kids : Children) (access : ℕ) (rest : Children) (p : List BlockKey)
    → 0 < length e
    → IsTree kids
    → block_at (compress clock e kids access rest).0 p ≡ block_at (child e kids access rest) p
unfolding compress
compress-block_at clock e leaf access rest p h t = refl
compress-block_at clock e (child e' kids access' leaf) access rest p h (is_child k s t u) =
    compress-block_at (suc clock) (e ++ e') kids (suc clock) rest p
      (rw (length-append e e') (omega arith)) t
    ∙ joined e e' kids rest (suc clock) access' access p h k
compress-block_at clock e (child e' kids access' (child e'' kids'' access'' rest'')) access rest p h
      t =
    refl

pub compress-IsTree :
    (clock : ℕ) (e : Edge) (kids : Children) (access : ℕ) (rest : Children)
    → IsTree (child e kids access rest)
    → IsTree (compress clock e kids access rest).0
unfolding compress
compress-IsTree clock e leaf access rest t = t
compress-IsTree clock e (child e' kids access' leaf) access rest
      (is_child h s (is_child k s' t u') u) =
    compress-IsTree (suc clock) (e ++ e') kids (suc clock) rest (
      is_child (rw (length-append e e') (omega arith))
        (λ p under. s p (sym (is_under-append e e' p h) ∙ under)) t u)
compress-IsTree clock e (child e' kids access' (child e'' kids'' access'' rest'')) access rest t = t
