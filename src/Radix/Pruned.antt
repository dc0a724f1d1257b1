-- ===== src/Radix/Pruned.antt =====
-- nanovllm/engine/radix_cache.py: what `remove_block` means for the trie of the cache.
use nano_vllm_qos.Prelude.{
  ℕ, zero, suc, ◌≤◌, ◌<◌, ◌≡◌, refl, true, Option, none, some, List, [], ◌∷◌, arith, if◌then◌else◌,
  length-take, Bool-cases, Option-cases, inl, inr, ap₂, sym, ◌∙◌, take, count,
}
use nano_vllm_qos.Radix.{
  BlockKey, Edge, Children, leaf, child, RadixPrefixCache, block_ids, is_under, occurrences,
  is_indexed,
}
use nano_vllm_qos.Radix.Paths.{Trie, along, block_at, if_same}
use nano_vllm_qos.Radix.Lookup.{along-ext}
use nano_vllm_qos.Radix.Remove.{position, remove_from, remove_block}
use nano_vllm_qos.Radix.Cut.{cut, passes, cut-along, cut-found, cut-child, cut-absent}
use nano_vllm_qos.Radix.Tree.{IsTree, is_leaf, is_child}
use nano_vllm_qos.Radix.Compress.{compress-block_at, compress-IsTree}

-- What a removal from the tree comes to.
abbrev Removed : ℕ → Children → Option (Children × ℕ) → Type 0
Removed b t none = occurrences b t ≡ 0
Removed b t (some (t', clock')) =
    (0 < occurrences b t) × IsTree t' × ((p : List BlockKey) → block_at t' p ≡ cut b (block_at t) p)

position-none : (b : ℕ) (e : Edge) → position b e ≡ none → count b (block_ids e) ≡ 0
unfolding position count
position-none b [] h = refl
position-none b ((x, c) ∷ e) h = ground (arith, position-none b e)

position-some : (b : ℕ) (e : Edge) (i : ℕ) → position b e ≡ some i → 0 < count b (block_ids e)
unfolding position count
position-some b [] i h = absurd (ground arith)
position-some b ((x, c) ∷ e) i h = elim (Option-cases (position b e)) [
  | inl missing ↦ ground (arith, missing)
  | inr (j, found) ↦ ground (arith, position-some b e j found)
]

is_under-take-suc :
    (e : Edge) (i : ℕ) (p : List BlockKey) → is_under (take (suc i) e) p ≡ is_under e p
is_under-take-suc [] i p = refl
is_under-take-suc ((x, b) ∷ e) i [] = refl
is_under-take-suc ((x, b) ∷ e) i (q ∷ p) = refl

-- The block is the first of the node.
cut_whole :
    (b : ℕ) (e : Edge) (kids rest : Children) (access : ℕ) (p : List BlockKey)
    → position b e ≡ some 0
    → ((s : List BlockKey) → is_under e s ≡ true → block_at rest s ≡ none)
    → occurrences b rest ≡ 0
    → block_at rest p ≡ cut b (block_at (child e kids access rest)) p
unfolding block_at along
cut_whole b e kids rest access p h s k = elim (Bool-cases (is_under e p)) [
  | inl under ↦
      s p under
      ∙ sym (cut-child b e kids rest access p ∙ rw under (cut-found b e (block_at kids) p 0 h))
  | inr beside ↦ sym (cut-child b e kids rest access p ∙ rw beside (cut-absent b rest p k))
]

-- The block stands further on in the node.
cut_short :
    (b : ℕ) (e : Edge) (kids rest : Children) (access i : ℕ) (p : List BlockKey)
    → position b e ≡ some (suc i)
    → occurrences b rest ≡ 0
    → block_at (child (take (suc i) e) leaf access rest) p
      ≡ cut b (block_at (child e kids access rest)) p
unfolding block_at
cut_short b e kids rest access i p h k = rw (is_under-take-suc e i p) (
    ap₂ (λ x y. if is_under e p then x else y) (sym (cut-found b e (block_at kids) p (suc i) h))
      (sym (cut-absent b rest p k))
    ∙ sym (cut-child b e kids rest access p))

-- The block stands below or beside the node.
cut_elsewhere :
    (b : ℕ) (e : Edge) (kids kids' rest rest' : Children) (access : ℕ) (p : List BlockKey)
    → count b (block_ids e) ≡ 0
    → ((s : List BlockKey) → block_at kids' s ≡ cut b (block_at kids) s)
    → block_at rest' p ≡ cut b (block_at rest) p
    → block_at (child e kids' access rest') p ≡ cut b (block_at (child e kids access rest)) p
unfolding block_at
cut_elsewhere b e kids kids' rest rest' access p h k l =
    ap₂ (λ x y. if is_under e p then x else y)
      (along-ext e (block_at kids') (cut b (block_at kids)) p k
        ∙ sym (cut-along b e (block_at kids) p h))
      l
    ∙ sym (cut-child b e kids rest access p)

-- What is cut was not there, or is not there any more.
cut-shut : (b : ℕ) (t : Trie) (p : List BlockKey) → t p ≡ none → cut b t p ≡ none
cut-shut b t p h = rw h (if_same (passes b t p) none)

remove_from-Removed :
    (b clock : ℕ) (t : Children)
    → IsTree t
    → occurrences b t ≤ 1
    → Removed b t (remove_from b clock t)
unfolding remove_from occurrences
remove_from-Removed b clock leaf t h = refl
remove_from-Removed b clock (child e kids access rest) (is_child n s t u) h =
    elim (Option-cases (position b e)) [
      | inr (zero, found) ↦
          let here = position-some b e 0 found in
          rw (found, remove_from)
            (omega arith, u, λ p. cut_whole b e kids rest access p found s (omega arith))
      | inr (suc i, found) ↦
          let here = position-some b e (suc i) found in
          rw (found, remove_from)
            (
              omega arith,
              is_child (rw (length-take (suc i) e) (omega arith))
                  (λ p under. s p (sym (is_under-take-suc e i p) ∙ under)) is_leaf u,
              λ p. cut_short b e kids rest access i p found (omega arith),
            )
      | inl missing ↦
          let nowhere = position-none b e missing in
          let below = remove_from-Removed b clock kids t (omega arith) in
          elim (Option-cases (remove_from b clock kids)) [
            | inr ((kids', clock'), removed) ↦
                let (many, t', same) : Removed b kids (some (kids', clock')) =
                  rw removed at below in
                rw (missing, removed, remove_from)
                  (
                    omega arith,
                    compress-IsTree clock' e kids' access rest (is_child n s t' u),
                    λ p.
                        compress-block_at clock' e kids' access rest p n t'
                        ∙ cut_elsewhere b e kids kids' rest rest access p nowhere same
                            (sym (cut-absent b rest p (omega arith))),
                  )
            | inl kept ↦
                let absent : Removed b kids none = rw kept at below in
                let beside = remove_from-Removed b clock rest u (omega arith) in
                elim (Option-cases (remove_from b clock rest)) [
                  | inl kept' ↦
                      let absent' : Removed b rest none = rw kept' at beside in
                      rw (missing, kept, kept', remove_from) (omega arith)
                  | inr ((rest', clock'), removed) ↦
                      let (many, u', same) : Removed b rest (some (rest', clock')) =
                        rw removed at beside in
                      rw (missing, kept, removed, remove_from)
                        (
                          omega arith,
                          is_child n (λ p under. same p ∙ cut-shut b (block_at rest) p (s p under))
                              t u',
                          λ p.
                              cut_elsewhere b e kids kids rest rest' access p nowhere
                                (λ q. sym (cut-absent b kids q absent)) (same p),
                        )
                ]
          ]
    ]

-- In a tree that holds the block once at most, `remove_block` answers whether the tree holds it. What
-- is left is a tree, in which a path leads to what it led to before, and to nothing where the path or
-- one that it goes on from led to the block.
pub remove_block_lem :
    (c : RadixPrefixCache) (b : ℕ) (path : List BlockKey)
    → IsTree c.root
    → occurrences b c.root ≤ 1
    → let (c', removed) = remove_block c b in
      (removed ≡ is_indexed c b)
      × IsTree c'.root
      × (block_at c'.root path
          ≡ (if passes b (block_at c.root) path then none else block_at c.root path))
unfolding remove_block
remove_block_lem c b path t h =
    let cuts = remove_from-Removed b c.clock c.root t h in
    elim (Option-cases (remove_from b c.clock c.root)) [
      | inl missing ↦
          let absent : Removed b c.root none = rw missing at cuts in
          rw (missing, remove_block)
            (ground (arith, absent), t, sym (cut-absent b c.root path absent))
      | inr ((root', clock'), removed) ↦
          let (many, t', same) : Removed b c.root (some (root', clock')) = rw removed at cuts in
          rw (removed, remove_block) (ground (arith, many), t', same path)
    ]
