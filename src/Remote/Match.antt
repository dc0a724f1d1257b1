-- ===== src/Remote/Match.antt =====
-- nanovllm/engine/remote_restore.py: `match` on the catalog.
use nano_vllm_qos.Prelude.{
  ℕ, suc, ◌+◌, ◌<◌, ◌≡◌, refl, true, some, List, [], ◌∷◌, ok, arith, ltb, length, take, drop, count,
  get_elem?, Bool-cases, Option-cases, ◌⊎◌, inl, inr, sym, ◌∙◌, ap,
}
use nano_vllm_qos.Prelude.Dict
use nano_vllm_qos.Radix.{
  BlockKey, Edge, Children, leaf, child, same_key, block_ids, is_under, occurrences,
  common_prefix_length, descend, match_keys,
}
use nano_vllm_qos.Radix.Paths.{Trie, along, block_at}
use nano_vllm_qos.Radix.Lookup.{match_keys_lem, descend-block_at}
use nano_vllm_qos.Radix.Tree.{IsTree, is_child}
use nano_vllm_qos.Remote.{RemotePageDescriptor, RemotePrefixCatalog, described_pages, match_pages}
use nano_vllm_qos.Remote.Consistent.{IsConsistent, is_some}

-- Where a path leads, the tree has the block.
along-found :
    (b : ℕ) (e : Edge) (t : Trie) (p : List BlockKey)
    → along e t p ≡ some b
    → (0 < count b (block_ids e)) ⊎ ((s : List BlockKey) × (t s ≡ some b))
unfolding along count
along-found b [] t p h = inr (p, h)
along-found b ((x, c) ∷ e) t [] h = absurd (ground arith)
along-found b ((x, c) ∷ e) t (q ∷ []) h = elim (Bool-cases (same_key x q)) [
  | inl same ↦ inl (ground (arith, rw same at h))
  | inr differs ↦ absurd (ground (arith, rw differs at h))
]
along-found b ((x, c) ∷ e) t (q ∷ r ∷ p) h = elim (Bool-cases (same_key x q)) [
  | inl same ↦ elim (along-found b e t (r ∷ p) (rw same at h)) [
    | inl here ↦ inl (ground (arith, here))
    | inr below ↦ inr below
  ]
  | inr differs ↦ absurd (ground (arith, rw differs at h))
]

pub block_at-found :
    (b : ℕ) (t : Children) (p : List BlockKey) → block_at t p ≡ some b → 0 < occurrences b t
unfolding block_at occurrences
block_at-found b leaf p h = absurd (ground arith)
block_at-found b (child e kids access rest) p h = elim (Bool-cases (is_under e p)) [
  | inl under ↦ elim (along-found b e (block_at kids) p (rw under at h)) [
    | inl here ↦ omega (arith, here)
    | inr (s, below) ↦ omega (arith, block_at-found b kids s below)
  ]
  | inr beside ↦ omega (arith, block_at-found b rest p (rw beside at h))
]

-- The times of access do not matter.
descend-occurrences :
    (b clock : ℕ) (t : Children) (keys : List BlockKey)
    → occurrences b (descend clock t keys).0 ≡ occurrences b t
unfolding descend occurrences
descend-occurrences b clock leaf keys = refl
descend-occurrences b clock (child e kids access rest) keys = elim (Bool-cases (is_under e keys)) [
  | inr i ↦ rw (i, descend) (omega (arith, descend-occurrences b clock rest keys))
  | inl i ↦ elim (Bool-cases (ltb (common_prefix_length e keys) (length e))) [
    | inl short ↦ rw (i, short, descend) refl
    | inr long ↦
        rw (i, long, descend)
          (omega (
            arith,
            descend-occurrences b (suc clock) kids (drop (common_prefix_length e keys) keys),
          ))
  ]
]

descend-IsTree :
    (clock : ℕ) (t : Children) (keys : List BlockKey) → IsTree t → IsTree (descend clock t keys).0
unfolding descend
descend-IsTree clock leaf keys t = t
descend-IsTree clock (child e kids access rest) keys (is_child n s t u) =
    elim (Bool-cases (is_under e keys)) [
      | inr i ↦
          rw (i, descend)
            (is_child n (λ p under. descend-block_at clock rest keys p ∙ s p under) t
              (descend-IsTree clock rest keys u))
      | inl i ↦ elim (Bool-cases (ltb (common_prefix_length e keys) (length e))) [
        | inl short ↦ rw (i, short, descend) (is_child n s t u)
        | inr long ↦
            rw (i, long, descend)
              (is_child n s
                (descend-IsTree (suc clock) kids (drop (common_prefix_length e keys) keys) t) u)
      ]
    ]

described_pages-ok :
    (described : List (ℕ × RemotePageDescriptor)) (handles : List ℕ)
    → ((i h : ℕ) → get_elem? handles i ≡ some h → is_some (Dict.get h described) ≡ true)
    → (pages : List RemotePageDescriptor) × (described_pages described handles ≡ ok pages)
      × (length pages ≡ length handles)
unfolding described_pages
described_pages-ok described [] k = ([], refl, refl)
described_pages-ok described (h ∷ handles) k =
    let (pages, found, many) = described_pages-ok described handles (λ i. k (suc i)) in
    elim (Option-cases (Dict.get h described)) [
      | inl missing ↦ absurd (ground (arith, missing, k 0 h refl))
      | inr (d, held) ↦ (d ∷ pages, rw (held, found) refl, ap suc many)
    ]

matched_described :
    (c : RemotePrefixCatalog) (keys : List BlockKey) (i h : ℕ)
    → IsConsistent c
    → get_elem? (match_keys c.index keys).1 i ≡ some h
    → is_some (Dict.get h c.descriptors) ≡ true
matched_described c keys i h k e =
    let (at, bounded, maximal, kept) = match_keys_lem c.index keys i [] in
    elim (Bool-cases (ltb i (length (match_keys c.index keys).1))) [
      | inr out ↦ absurd (ground (arith, e, rw out at at))
      | inl within ↦
          let found : block_at c.index.root (take (suc i) keys) ≡ some h =
            sym (rw within at at) ∙ e in
          k.described h ∙ ground (arith, block_at-found h c.index.root (take (suc i) keys) found)
    ]

match_keys-IsConsistent :
    (c : RemotePrefixCatalog) (keys : List BlockKey)
    → IsConsistent c
    → IsConsistent (record c { index = (match_keys c.index keys).0 })
unfolding match_keys
match_keys-IsConsistent c keys k = record {
  tree = descend-IsTree c.index.clock c.index.root keys k.tree;
  once = λ h. rw (descend-occurrences h c.index.clock c.index.root keys) (k.once h);
  described = λ h. rw (descend-occurrences h c.index.clock c.index.root keys) (k.described h);
  unused = λ n.
      rw (descend-occurrences (c.next_handle + n) c.index.clock c.index.root keys) (k.unused n);
}

pub match_pages-IsConsistent :
    (c : RemotePrefixCatalog) (keys : List BlockKey)
    → IsConsistent c
    → (r : RemotePrefixCatalog × List RemotePageDescriptor) × (match_pages c keys ≡ ok r)
      × (length (r.1) ≡ length (match_keys c.index keys).1)
      × IsConsistent (r.0)
unfolding match_pages
match_pages-IsConsistent c keys k =
    let (pages, found, many) =
      described_pages-ok c.descriptors (match_keys c.index keys).1
        (λ i h. matched_described c keys i h k) in
    (
      (record c { index = (match_keys c.index keys).0 }, pages),
      rw found refl,
      many,
      match_keys-IsConsistent c keys k,
    )
