-- ===== src/Radix/Cut.antt =====
-- nanovllm/engine/radix_cache.py: a trie without the paths that go through a block, and without that
-- block's own path, which is what `remove_block` is to leave.
use nano_vllm_qos.Prelude.{
  ℕ, suc, ◌≡◌, refl, Bool, true, false, ◌||◌, Option, none, some, List, [], ◌∷◌, arith,
  if◌then◌else◌, ◌==◌, Bool-cases, Option-cases, inl, inr, ap, ap₂, sym, ◌∙◌, take, count, subst,
}
use nano_vllm_qos.Radix.{
  BlockKey, Edge, Children, leaf, child, same_key, block_ids, is_under, occurrences,
}
use nano_vllm_qos.Radix.Paths.{Trie, along, block_at, after, if_same, is_under-nil}
use nano_vllm_qos.Radix.Lookup.{along-ext, block_at-under, block_at-beside}
use nano_vllm_qos.Radix.Remove.{position}

abbrev pub holds : ℕ → Option ℕ → Bool
holds b none = false
holds b (some c) = c == b

-- Whether the path, or a path that it goes on from, leads to the block.
unfoldable pub passes : ℕ → Trie → List BlockKey → Bool
passes b t [] = false
passes b t (k ∷ p) = holds b (t (k ∷ [])) || passes b (after t k) p

abbrev pub cut : ℕ → Trie → Trie
cut b t p = if passes b t p then none else t p

-- Only the paths that begin with a key matter for what follows it.
pub passes-ext :
    (b : ℕ) (t u : Trie) (k : BlockKey) (p : List BlockKey)
    → ((s : List BlockKey) → t (k ∷ s) ≡ u (k ∷ s))
    → passes b t (k ∷ p) ≡ passes b u (k ∷ p)
unfolding passes
passes-ext b t u k [] h = ap (λ o. holds b o || false) (h [])
passes-ext b t u k (q ∷ p) h =
    ap₂ (λ o r. holds b o || r) (h []) (passes-ext b (after t k) (after u k) q p (λ s. h (q ∷ s)))

pub cut-ext :
    (b : ℕ) (t u : Trie) (k : BlockKey) (p : List BlockKey)
    → ((s : List BlockKey) → t (k ∷ s) ≡ u (k ∷ s))
    → cut b t (k ∷ p) ≡ cut b u (k ∷ p)
cut-ext b t u k p h = ap₂ (λ x o. if x then none else o) (passes-ext b t u k p h) (h p)

cut-after :
    (b : ℕ) (t : Trie) (q r : BlockKey) (p : List BlockKey)
    → holds b (t (q ∷ [])) ≡ false
    → cut b t (q ∷ r ∷ p) ≡ cut b (after t q) (r ∷ p)
unfolding passes
cut-after b t q r p h = rw h refl

-- One step along an edge that does not begin with the block.
cut-step :
    (b c : ℕ) (x : BlockKey) (e e' : Edge) (t u : Trie) (p : List BlockKey)
    → (c == b) ≡ false
    → ((r : BlockKey) (s : List BlockKey) → cut b (along e t) (r ∷ s) ≡ along e' u (r ∷ s))
    → cut b (along ((x, c) ∷ e) t) p ≡ along ((x, c) ∷ e') u p
unfolding passes along
cut-step b c x e e' t u [] h k = refl
cut-step b c x e e' t u (q ∷ []) h k = elim (Bool-cases (same_key x q)) [
  | inl same ↦ rw (same, h) refl
  | inr differs ↦ rw differs refl
]
cut-step b c x e e' t u (q ∷ r ∷ p) h k = elim (Bool-cases (same_key x q)) [
  | inl same ↦
      let below : cut b (after (along ((x, c) ∷ e) t) q) (r ∷ p) ≡ cut b (along e t) (r ∷ p) =
        cut-ext b (after (along ((x, c) ∷ e) t) q) (along e t) r p (λ s. rw same refl) in
      cut-after b (along ((x, c) ∷ e) t) q r p (rw same h) ∙ below ∙ k r p ∙ rw same refl
  | inr differs ↦ rw differs (if_same _ none)
]

-- An edge that does not hold the block.
pub cut-along :
    (b : ℕ) (e : Edge) (t : Trie) (p : List BlockKey)
    → count b (block_ids e) ≡ 0
    → cut b (along e t) p ≡ along e (cut b t) p
unfolding passes along count
cut-along b [] t [] h = refl
cut-along b [] t (q ∷ p) h = cut-ext b (along [] t) t q p (λ s. refl)
cut-along b ((x, c) ∷ e) t p h =
    cut-step b c x e e t (cut b t) p (ground arith) (λ r s. cut-along b e t (r ∷ s) (ground arith))

-- An edge that begins with the block.
cut-here :
    (b c : ℕ) (x : BlockKey) (e : Edge) (t : Trie) (p : List BlockKey)
    → (c == b) ≡ true
    → cut b (along ((x, c) ∷ e) t) p ≡ none
unfolding passes along
cut-here b c x e t [] h = refl
cut-here b c x e t (q ∷ []) h = elim (Bool-cases (same_key x q)) [
  | inl same ↦ rw (same, h) refl
  | inr differs ↦ rw differs refl
]
cut-here b c x e t (q ∷ r ∷ p) h = elim (Bool-cases (same_key x q)) [
  | inl same ↦ rw (same, h) refl
  | inr differs ↦ rw differs (if_same _ none)
]

-- An edge that holds the block is cut there.
pub cut-found :
    (b : ℕ) (e : Edge) (t : Trie) (p : List BlockKey) (i : ℕ)
    → position b e ≡ some i
    → cut b (along e t) p ≡ along (take i e) (block_at leaf) p
unfolding passes along position block_at
cut-found b [] t p i h = absurd (ground arith)
cut-found b ((x, c) ∷ e) t p i h = elim (Bool-cases (c == b)) [
  | inl here ↦
      let first : 0 ≡ i = ground (arith, rw here at h) in
      subst (λ n. cut b (along ((x, c) ∷ e) t) p ≡ along (take n ((x, c) ∷ e)) (block_at leaf) p)
        first (cut-here b c x e t p here)
  | inr past ↦ elim (Option-cases (position b e)) [
    | inl missing ↦ absurd (ground (arith, rw (past, missing) at h))
    | inr (j, found) ↦
        let later : suc j ≡ i = ground (arith, rw (past, found) at h) in
        subst (λ n. cut b (along ((x, c) ∷ e) t) p ≡ along (take n ((x, c) ∷ e)) (block_at leaf) p)
          later
          (cut-step b c x e (take j e) t (block_at leaf) p past
            (λ r s. cut-found b e t (r ∷ s) j found))
  ]
]

cut-nil : (b : ℕ) (t : Trie) → cut b t [] ≡ t []
unfolding passes
cut-nil b t = refl

block_at-nil :
    (e : Edge) (kids rest : Children) (access : ℕ)
    → block_at (child e kids access rest) [] ≡ block_at rest []
unfolding block_at
block_at-nil e kids rest access = rw (is_under-nil e) refl

-- A node is cut where the path goes on below it, and where it goes on beside it.
pub cut-child :
    (b : ℕ) (e : Edge) (kids rest : Children) (access : ℕ) (p : List BlockKey)
    → cut b (block_at (child e kids access rest)) p
      ≡ (if is_under e p then cut b (along e (block_at kids)) p else cut b (block_at rest) p)
cut-child b e kids rest access [] =
    cut-nil b (block_at (child e kids access rest))
    ∙ block_at-nil e kids rest access
    ∙ sym (rw (is_under-nil e) (cut-nil b (block_at rest)))
cut-child b e kids rest access (q ∷ p) = elim (Bool-cases (is_under e (q ∷ p))) [
  | inl under ↦
      cut-ext b (block_at (child e kids access rest)) (along e (block_at kids)) q p
        (λ s. block_at-under e kids rest access q p s under)
      ∙ rw under refl
  | inr beside ↦
      cut-ext b (block_at (child e kids access rest)) (block_at rest) q p
        (λ s. block_at-beside e kids rest access q p s beside)
      ∙ rw beside refl
]

-- A tree without the block stays as it is.
pub cut-absent :
    (b : ℕ) (t : Children) (p : List BlockKey)
    → occurrences b t ≡ 0
    → cut b (block_at t) p ≡ block_at t p
unfolding occurrences block_at
cut-absent b leaf p h = if_same _ none
cut-absent b (child e kids access rest) p h =
    cut-child b e kids rest access p
    ∙ ap₂ (λ x y. if is_under e p then x else y)
        (cut-along b e (block_at kids) p (omega arith)
          ∙ along-ext e (cut b (block_at kids)) (block_at kids) p
              (λ s. cut-absent b kids s (omega arith)))
        (cut-absent b rest p (omega arith))
