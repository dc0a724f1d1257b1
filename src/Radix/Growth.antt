-- ===== src/Radix/Growth.antt =====
-- nanovllm/engine/radix_cache.py: the trie of an edge and of a new path, for the steps of `insert`.
use nano_vllm_qos.Prelude.{
  ℕ, suc, ◌≡◌, refl, true, false, Option, none, some, List, [], ◌∷◌, arith, if◌then◌else◌, ltb,
  length, Bool-cases, inl, inr, sym, subst, ◌∙◌, take, drop,
}
use nano_vllm_qos.Radix.{
  BlockKey, Edge, Children, leaf, child, same_key, edge_keys, is_under, common_prefix_length,
}
use nano_vllm_qos.Radix.Insert.{new_leaf, split}
use nano_vllm_qos.Radix.Paths.{Trie, along, block_at, or_else, same_key-eq, same_key_refl, ltb-suc}

-- The paths of the new blocks.
abbrev pub along_only : Edge → Trie
along_only path = along path (block_at leaf)

pub or_else-none : (o : Option ℕ) → or_else o none ≡ o
or_else-none none = refl
or_else-none (some b) = refl

-- Paths with another first key are not along the edge.
pub along_differs :
    (q r : BlockKey) (c : ℕ) (path : Edge) (t : Trie) (p : List BlockKey)
    → same_key q r ≡ false
    → along ((q, c) ∷ path) t (r ∷ p) ≡ none
unfolding along
along_differs q r c path t [] h = rw h refl
along_differs q r c path t (s ∷ p) h = rw h refl

-- A path along an edge begins with the edge's first key.
pub along_beside :
    (path e : Edge) (p : List BlockKey)
    → is_under e (edge_keys path) ≡ false
    → is_under e p ≡ true
    → along_only path p ≡ none
unfolding along block_at
along_beside [] e p h k = refl
along_beside ((q, c) ∷ path) e [] h k = refl
along_beside ((q, c) ∷ path) [] (r ∷ p) h k = absurd (ground arith)
along_beside ((q, c) ∷ path) ((x, b) ∷ e) (r ∷ p) h k = elim (Bool-cases (same_key q r)) [
  | inr differs ↦ along_differs q r c path (block_at leaf) p differs
  | inl same ↦
      let both : same_key x q ≡ true =
        rw (same_key-eq x r k, same_key-eq q r same) (same_key_refl r) in
      absurd (ground (arith, both))
]

pub along_elsewhere :
    (path e : Edge) (p : List BlockKey)
    → is_under e (edge_keys path) ≡ true
    → is_under e p ≡ false
    → along_only path p ≡ none
unfolding along block_at
along_elsewhere [] e p h k = refl
along_elsewhere ((q, c) ∷ path) e [] h k = refl
along_elsewhere ((q, c) ∷ path) [] (r ∷ p) h k = absurd (ground arith)
along_elsewhere ((q, c) ∷ path) ((x, b) ∷ e) (r ∷ p) h k =
    along_differs q r c path (block_at leaf) p
      (subst (λ y. same_key y r ≡ false) (same_key-eq x q h) k)

-- One step along two edges with the same first key.
along_step :
    (x q : BlockKey) (b c : ℕ) (e e' path : Edge) (t u v : Trie) (p : List BlockKey)
    → same_key x q ≡ true
    → ((r : BlockKey) (s : List BlockKey)
        → along e' u (r ∷ s) ≡ or_else (along e t (r ∷ s)) (along path v (r ∷ s)))
    → along ((x, b) ∷ e') u p ≡ or_else (along ((x, b) ∷ e) t p) (along ((q, c) ∷ path) v p)
unfolding along
along_step x q b c e e' path t u v [] h k = refl
along_step x q b c e e' path t u v (r ∷ []) h k = elim (Bool-cases (same_key x r)) [
  | inl at ↦ rw at refl
  | inr past ↦
      let past' : same_key q r ≡ false =
        subst (λ y. same_key y r ≡ false) (same_key-eq x q h) past in
      rw (past, past') refl
]
along_step x q b c e e' path t u v (r ∷ s ∷ p) h k = elim (Bool-cases (same_key x r)) [
  | inl at ↦
      let at' : same_key q r ≡ true = subst (λ y. same_key y r ≡ true) (same_key-eq x q h) at in
      rw (at, at') (k s p)
  | inr past ↦
      let past' : same_key q r ≡ false =
        subst (λ y. same_key y r ≡ false) (same_key-eq x q h) past in
      rw (past, past') refl
]

-- The common prefix of two edges, step by step.
common-step :
    (x q : BlockKey) (b c : ℕ) (e path : Edge)
    → common_prefix_length ((x, b) ∷ e) (edge_keys ((q, c) ∷ path))
      ≡ (if same_key x q then suc (common_prefix_length e (edge_keys path)) else 0)
unfolding common_prefix_length
common-step x q b c e path = refl

-- A new path that runs along the edge to its end, and further.
pub along_past :
    (e path : Edge) (t u : Trie) (p : List BlockKey)
    → ltb (common_prefix_length e (edge_keys path)) (length e) ≡ false
    → ((r : List BlockKey)
        → u r ≡ or_else (t r) (along_only (drop (common_prefix_length e (edge_keys path)) path) r))
    → along e u p ≡ or_else (along e t p) (along_only path p)
unfolding along common_prefix_length
along_past [] path t u p h k = k p
along_past ((x, b) ∷ e) [] t u p h k = absurd (ground arith)
along_past ((x, b) ∷ e) ((q, c) ∷ path) t u p h k = elim (Bool-cases (same_key x q)) [
  | inr differs ↦
      let h' : ltb 0 (suc (length e)) ≡ false = rw differs at h in absurd (ground (arith, h'))
  | inl same ↦
      let h' : ltb (suc (common_prefix_length e (edge_keys path))) (suc (length e)) ≡ false =
        rw same at h in
      along_step x q b c e e path t u (block_at leaf) p same
        (λ r s. along_past e path t u (r ∷ s) (sym (ltb-suc _ _) ∙ h') (rw same at k))
]

-- A new path that ends on the edge.
pub along_within :
    (e path : Edge) (t : Trie) (p : List BlockKey)
    → ltb (common_prefix_length e (edge_keys path)) (length path) ≡ false
    → along e t p ≡ or_else (along e t p) (along_only path p)
unfolding common_prefix_length along block_at
along_within e [] t p h = sym (or_else-none (along e t p))
along_within [] ((q, c) ∷ path) t p h = absurd (ground arith)
along_within ((x, b) ∷ e) ((q, c) ∷ path) t p h = elim (Bool-cases (same_key x q)) [
  | inr differs ↦
      let h' : ltb 0 (suc (length path)) ≡ false = rw differs at h in absurd (ground (arith, h'))
  | inl same ↦
      let h' : ltb (suc (common_prefix_length e (edge_keys path))) (suc (length path)) ≡ false =
        rw same at h in
      along_step x q b c e e path t t (block_at leaf) p same
        (λ r s. along_within e path t (r ∷ s) (sym (ltb-suc _ _) ∙ h'))
]

-- Two children side by side whose edges begin with different keys.
fork :
    (y r : BlockKey) (d f access new : ℕ) (e path : Edge) (kids : Children) (s : BlockKey)
    (l : List BlockKey)
    → same_key y r ≡ false
    → block_at (child ((y, d) ∷ e) kids access (new_leaf ((r, f) ∷ path) new)) (s ∷ l)
      ≡ or_else (along ((y, d) ∷ e) (block_at kids) (s ∷ l)) (along_only ((r, f) ∷ path) (s ∷ l))
unfolding block_at
fork y r d f access new e path kids s l h = elim (Bool-cases (same_key y s)) [
  | inl here ↦
      rw (here, along_beside ((r, f) ∷ path) ((y, d) ∷ e) (s ∷ l) h here) (sym (or_else-none _))
  | inr past ↦
      rw (past, along_differs y s d e (block_at kids) l past)
        (elim (Bool-cases (same_key r s)) [
          | inl under ↦ rw under refl
          | inr beside ↦ rw (beside, along_differs r s f path (block_at leaf) l beside) refl
        ])
]

-- A new path that leaves the edge after at least one key, or ends before the edge does.
along_split :
    (x q : BlockKey) (b c access new : ℕ) (e path : Edge) (kids : Children) (p : List BlockKey)
    → same_key x q ≡ true
    → ltb (common_prefix_length e (edge_keys path)) (length e) ≡ true
    → ltb (common_prefix_length e (edge_keys path)) (length path) ≡ true
    → along
        ((x, b) ∷ take (common_prefix_length e (edge_keys path)) e)
        (block_at (
          child
            (drop (common_prefix_length e (edge_keys path)) e)
            kids
            access
            (new_leaf (drop (common_prefix_length e (edge_keys path)) path) new)))
        p
      ≡ or_else (along ((x, b) ∷ e) (block_at kids) p) (along_only ((q, c) ∷ path) p)
unfolding common_prefix_length along block_at
along_split x q b c access new [] path kids p h k l = absurd (ground arith)
along_split x q b c access new (d ∷ e) [] kids p h k l = absurd (ground arith)
along_split x q b c access new ((y, d) ∷ e) ((r, f) ∷ path) kids p h k l =
    elim (Bool-cases (same_key y r)) [
      | inr differs ↦ rw differs (
          along_step x q b c ((y, d) ∷ e) [] ((r, f) ∷ path) (block_at kids)
            (block_at (child ((y, d) ∷ e) kids access (new_leaf ((r, f) ∷ path) new)))
            (block_at leaf) p h (λ s l. fork y r d f access new e path kids s l differs))
      | inl same ↦
          let k' : ltb (suc (common_prefix_length e (edge_keys path))) (suc (length e)) ≡ true =
            rw same at k in
          let l' : ltb (suc (common_prefix_length e (edge_keys path))) (suc (length path)) ≡ true =
            rw same at l in
          rw same (
            along_step x q b c ((y, d) ∷ e)
              ((y, d) ∷ take (common_prefix_length e (edge_keys path)) e) ((r, f) ∷ path)
              (block_at kids) _ (block_at leaf) p h
              (λ s m.
                along_split y r d f access new e path kids (s ∷ m) same (sym (ltb-suc _ _) ∙ k')
                  (sym (ltb-suc _ _) ∙ l')))
    ]

-- The same, for an edge and a path that begin with the same key.
pub along-split-under :
    (clock access : ℕ) (e path : Edge) (kids rest : Children) (p : List BlockKey)
    → is_under e (edge_keys path) ≡ true
    → is_under e p ≡ true
    → ltb (common_prefix_length e (edge_keys path)) (length e) ≡ true
    → ltb (common_prefix_length e (edge_keys path)) (length path) ≡ true
    → block_at (split e kids access path (common_prefix_length e (edge_keys path)) clock rest) p
      ≡ or_else (along e (block_at kids) p) (along_only path p)
unfolding common_prefix_length block_at
along-split-under clock access [] path kids rest p h i k l = absurd (ground arith)
along-split-under clock access (d ∷ e) [] kids rest p h i k l = absurd (ground arith)
along-split-under clock access ((y, d) ∷ e) ((r, f) ∷ path) kids rest [] h i k l =
    absurd (ground arith)
along-split-under clock access ((y, d) ∷ e) ((r, f) ∷ path) kids rest (s ∷ p) h i k l =
    let k' : ltb (suc (common_prefix_length e (edge_keys path))) (suc (length e)) ≡ true =
      rw h at k in
    let l' : ltb (suc (common_prefix_length e (edge_keys path))) (suc (length path)) ≡ true =
      rw h at l in
    rw (h, i)
      (along_split y r d f access (suc (suc clock)) e path kids (s ∷ p) h (sym (ltb-suc _ _) ∙ k')
        (sym (ltb-suc _ _) ∙ l'))
