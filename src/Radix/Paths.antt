-- ===== src/Radix/Paths.antt =====
-- nanovllm/engine/radix_cache.py: what a radix tree means, the block at the end of each path of keys,
-- without regard to how the paths are cut into edges, to the order of the children and to the times
-- of access.
use nano_vllm_qos.Prelude.{
  ℕ, suc, ◌≡◌, refl, Bool, true, false, Option, none, some, List, [], ◌∷◌, ◌++◌, arith,
  if◌then◌else◌, ltb, length, Bool-cases, inl, inr, ap, sym, ◌∙◌, take, drop,
}
use nano_vllm_qos.Radix.{
  BlockKey, Edge, Children, leaf, child, same_key, block_ids, is_under, common_prefix_length,
}

-- The block for each path of keys, if there is one.
abbrev pub Trie : Type 0
Trie = List BlockKey → Option ℕ

-- The paths along an edge, and then those of a tree.
unfoldable pub along : Edge → Trie → Trie
along [] t path = t path
along ((k, b) ∷ e) t [] = none
along ((k, b) ∷ e) t (q ∷ []) = if same_key k q then some b else none
along ((k, b) ∷ e) t (q ∷ r ∷ path) = if same_key k q then along e t (r ∷ path) else none

unfoldable pub block_at : Children → Trie
block_at leaf path = none
block_at (child e kids access rest) path =
    if is_under e path then along e (block_at kids) path else block_at rest path

-- The paths that go on from the key.
abbrev pub after : Trie → BlockKey → Trie
after t k path = t (k ∷ path)

-- The blocks of the longest prefix of the keys that the trie holds.
unfoldable pub longest : Trie → List BlockKey → List ℕ
longest t [] = []
longest t (k ∷ keys) = elim (t (k ∷ [])) [ none ↦ [] | some b ↦ b ∷ longest (after t k) keys ]

-- The first of two tries that has the path.
abbrev pub or_else : Option ℕ → Option ℕ → Option ℕ
or_else (some b) c = some b
or_else none c = c

pub same_key-eq : (xs ys : BlockKey) → same_key xs ys ≡ true → xs ≡ ys
same_key-eq [] [] h = refl
same_key-eq [] (y ∷ ys) h = absurd (ground arith)
same_key-eq (x ∷ xs) [] h = absurd (ground arith)
same_key-eq (x ∷ xs) (y ∷ ys) h = ground (arith, same_key-eq xs ys)

pub same_key_refl : (xs : BlockKey) → same_key xs xs ≡ true
same_key_refl [] = refl
same_key_refl (x ∷ xs) = ground (arith, same_key_refl xs)

-- Only the paths that begin with a key matter for what follows it.
pub longest-ext :
    (t u : Trie) (k : BlockKey) (keys : List BlockKey)
    → ((path : List BlockKey) → t (k ∷ path) ≡ u (k ∷ path))
    → longest t (k ∷ keys) ≡ longest u (k ∷ keys)
unfolding longest
longest-ext t u k [] h = rw (h [], longest) refl
longest-ext t u k (q ∷ keys) h =
    rw (h [], longest)
      (ap (λ r. elim (u (k ∷ [])) [ none ↦ [] | some b ↦ b ∷ r ])
        (longest-ext (after t k) (after u k) q keys (λ path. h (q ∷ path))))

pub if_same {ℓ} : {A : Type ℓ} (b : Bool) (x : A) → (if b then x else x) ≡ x
if_same true x = refl
if_same false x = refl

pub ltb-suc : (a b : ℕ) → ltb (suc a) (suc b) ≡ ltb a b
ltb-suc a b = ground arith

pub ltb-zero : (b : ℕ) → ltb 0 (suc b) ≡ true
ltb-zero b = ground arith

pub common-nil : (e : Edge) → common_prefix_length e [] ≡ 0
unfolding common_prefix_length
common-nil [] = refl
common-nil ((k, b) ∷ e) = refl

pub is_under-nil : (e : Edge) → is_under e [] ≡ false
is_under-nil [] = refl
is_under-nil ((k, b) ∷ e) = refl

-- Only the first key matters.
pub is_under-head :
    (e : Edge) (q : BlockKey) (keys path : List BlockKey)
    → is_under e (q ∷ keys) ≡ is_under e (q ∷ path)
is_under-head [] q keys path = refl
is_under-head ((k, b) ∷ e) q keys path = refl

-- Along an edge the longest match is a prefix of its blocks; past it, it goes on below.
pub longest-along :
    (e : Edge) (t : Trie) (keys : List BlockKey)
    → longest (along e t) keys
      ≡ take (common_prefix_length e keys) (block_ids e)
        ++ (if ltb (common_prefix_length e keys) (length e)
            then []
            else longest t (drop (common_prefix_length e keys) keys))
unfolding longest along common_prefix_length
longest-along [] t [] = refl
longest-along [] t (q ∷ keys) = longest-ext (along [] t) t q keys (λ path. refl)
longest-along ((k, b) ∷ e) t [] = rw (ltb-zero (length e)) refl
longest-along ((k, b) ∷ e) t (q ∷ []) = elim (Bool-cases (same_key k q)) [
  | inl h ↦ rw (h, common-nil e, longest) (ap (◌∷◌ b) (sym (if_same (ltb 1 (suc (length e))) [])))
  | inr h ↦ rw (h, ltb-zero (length e), longest) refl
]
longest-along ((k, b) ∷ e) t (q ∷ r ∷ keys) = elim (Bool-cases (same_key k q)) [
  | inl h ↦
      rw (h, ltb-suc, longest)
        (ap (◌∷◌ b) (
          longest-ext (after (along ((k, b) ∷ e) t) q) (along e t) r keys (λ path. rw h)
          ∙ longest-along e t (r ∷ keys)))
  | inr h ↦ rw (h, ltb-zero (length e), longest) refl
]
