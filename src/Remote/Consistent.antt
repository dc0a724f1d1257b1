-- ===== src/Remote/Consistent.antt =====
-- nanovllm/engine/remote_restore.py: the descriptors of the catalog and the handles in its index.
use Prim.Native.String.{String}
use nano_vllm_qos.Prelude.{
  ℕ, zero, suc, ◌+◌, ◌-◌, ◌≤◌, ◌<◌, ◌≡◌, refl, Bool, true, false, not, ◌&&◌, ◌||◌, Option, none,
  some, List, [], ◌∷◌, ok, Error, guard, arith, if◌then◌else◌, ◌==◌, ltb, leb, length, elem, count,
  Bool-cases, ◌⊎◌, inl, inr, subst, ◌∙◌,
}
use nano_vllm_qos.Prelude.Ensures.{Ensures, Ensures-bind, Ensures-if, Ensures-pure}
use nano_vllm_qos.Prelude.Dict.{dict_laws}
use nano_vllm_qos.Prelude.Dict
use nano_vllm_qos.BlockManager.{range_from}
use nano_vllm_qos.BlockManager.Initial.{count-range_from}
use nano_vllm_qos.Radix.{BlockKey, RadixPrefixCache, is_indexed, occurrences}
use nano_vllm_qos.Radix.Insert.{insert}
use nano_vllm_qos.Radix.Tree.{IsTree, is_leaf, insert_lem}
use nano_vllm_qos.Radix.Added.{guarded}
use nano_vllm_qos.Remote.{
  RemotePageDescriptor, RemotePrefixCatalog, empty_catalog, describe, drop_unused, enter, register,
  accepts, are_numbered, identity_of,
}
use nano_vllm_qos.Remote.Occurrences.{insert-occurrences}

abbrev pub is_some {ℓ} : {A : Type ℓ} → Option A → Bool
is_some none = false
is_some (some a) = true

-- A handle stands in the index once at most and has a descriptor just where it does, and the handles
-- from the next one on have not been used.
pub record IsConsistent (c : RemotePrefixCatalog) : Type 0 where
  pub tree : IsTree c.index.root
  pub once : (h : ℕ) → occurrences h c.index.root ≤ 1
  pub described : (h : ℕ) → is_some (Dict.get h c.descriptors) ≡ is_indexed c.index h
  pub unused : (n : ℕ) → occurrences (c.next_handle + n) c.index.root ≡ 0

pub empty-IsConsistent : IsConsistent empty_catalog
unfolding occurrences Dict.get
empty-IsConsistent = record {
  tree = is_leaf;
  once = λ h. omega arith;
  described = λ h. refl;
  unused = λ n. refl;
}

get-describe :
    (h : ℕ) (handles : List ℕ) (ds : List RemotePageDescriptor)
    (described : List (ℕ × RemotePageDescriptor))
    → length handles ≡ length ds
    → is_some (Dict.get h (describe handles ds described))
      ≡ (elem h handles || is_some (Dict.get h described))
unfolding describe count
get-describe h [] [] described e = refl
get-describe h [] (d ∷ ds) described e = absurd (ground arith)
get-describe h (i ∷ handles) [] described e = absurd (ground arith)
get-describe h (i ∷ handles) (d ∷ ds) described e =
    get-describe h handles ds (Dict.put i d described) (omega arith)
    ∙ rw (Dict.get-put i h d described) (ground arith)

not_counted :
    (h i : ℕ) (handles : List ℕ) → (i == h) ≡ false → elem h (i ∷ handles) ≡ elem h handles
unfolding count
not_counted h i handles e = ground (arith, e)

pub get-drop_unused :
    (h : ℕ) (index : RadixPrefixCache) (handles : List ℕ)
    (described : List (ℕ × RemotePageDescriptor))
    → Dict.get h (drop_unused index handles described)
      ≡ (if elem h handles && not (is_indexed index h) then none else Dict.get h described)
unfolding drop_unused count
get-drop_unused h index [] described = refl
get-drop_unused h index (i ∷ handles) described = elim (Bool-cases (is_indexed index i)) [
  | inl taken ↦
      rw (taken, drop_unused)
        (get-drop_unused h index handles described ∙ elim (Bool-cases (i == h)) [
          | inl at ↦
              let taken' : is_indexed index h ≡ true =
                subst (λ x. is_indexed index x ≡ true) (ground (arith, at)) taken in
              rw taken' (ground arith)
          | inr past ↦ rw (not_counted h i handles past) refl
        ])
  | inr spare ↦
      rw (spare, drop_unused)
        (get-drop_unused h index handles (Dict.remove i described)
          ∙ rw (Dict.get-remove i h described) (elim (Bool-cases (i == h)) [
            | inl at ↦
                let spare' : is_indexed index h ≡ false =
                  subst (λ x. is_indexed index x ≡ false) (ground (arith, at)) spare in
                rw (at, spare') (ground (arith, at))
            | inr past ↦ rw (past, not_counted h i handles past) refl
          ]))
]

pub length-range_from : (i n : ℕ) → length (range_from i n) ≡ n
length-range_from i zero = refl
length-range_from i (suc n) = omega (arith, length-range_from (suc i) n)

-- A new handle is not in the index yet.
new_or_not :
    (c : RemotePrefixCatalog) (h n : ℕ)
    → IsConsistent c
    → (count h (range_from c.next_handle n) ≡ 0)
      ⊎ ((count h (range_from c.next_handle n) ≡ 1)
          × (occurrences h c.index.root ≡ 0)
          × (c.next_handle ≤ h)
          × (h < c.next_handle + n))
new_or_not c h n k = elim (Bool-cases (leb c.next_handle h && ltb h (c.next_handle + n))) [
  | inr old ↦ inl (ground (arith, old, count-range_from h c.next_handle n))
  | inl new ↦
      let back : c.next_handle + (h - c.next_handle) ≡ h = ground (arith, new) in
      inr (
        ground (arith, new, count-range_from h c.next_handle n),
        subst (λ x. occurrences x c.index.root ≡ 0) back (k.unused (h - c.next_handle)),
        ground (arith, new),
        ground (arith, new),
      )
]

entered-described :
    (c : RemotePrefixCatalog) (block_keys : List BlockKey) (ds : List RemotePageDescriptor)
    (index' : RadixPrefixCache) (h : ℕ)
    → length block_keys ≡ length ds
    → IsConsistent c
    → insert c.index block_keys (range_from c.next_handle (length block_keys)) ≡ ok index'
    → is_some (
        Dict.get h (
          drop_unused index'
            (range_from c.next_handle (length block_keys))
            (describe (range_from c.next_handle (length block_keys)) ds c.descriptors)))
      ≡ is_indexed index' h
entered-described c block_keys ds index' h e k run =
    let handles = range_from c.next_handle (length block_keys) in
    let many : length handles ≡ length ds =
      length-range_from c.next_handle (length block_keys) ∙ e in
    let grown = insert-occurrences h c.index index' block_keys handles run in
    let given = get-describe h handles ds c.descriptors many in
    rw (get-drop_unused h index' handles (describe handles ds c.descriptors))
      (elim (Bool-cases (elem h handles)) [
        | inr old ↦
            let as_before : is_indexed c.index h ≡ is_indexed index' h =
              ground (arith, old, grown.0, grown.1) in
            rw old (given ∙ rw old (k.described h ∙ as_before))
        | inl new ↦ elim (Bool-cases (is_indexed index' h)) [
          | inl live ↦ rw (new, live) (given ∙ rw new refl)
          | inr spare ↦ rw (new, spare) refl
        ]
      ])

entered :
    (same : String → String → Bool) (c : RemotePrefixCatalog) (block_keys : List BlockKey)
    (ds : List RemotePageDescriptor) (identity : String × ℕ)
    → length block_keys ≡ length ds
    → IsConsistent c
    → Ensures IsConsistent (enter same c block_keys ds identity)
unfolding enter
entered same c block_keys ds identity e k =
    let handles = range_from c.next_handle (length block_keys) in
    Ensures-bind (insert c.index block_keys handles) _ (λ index' run. Ensures-pure (record {
      tree = (insert_lem c.index index' block_keys handles [] run k.tree).1;
      once = λ h.
          let grown = insert-occurrences h c.index index' block_keys handles run in
          elim (new_or_not c h (length block_keys) k) [
            | inl old ↦ omega (arith, grown.1, old, k.once h)
            | inr (new, absent, from, to) ↦ omega (arith, grown.1, new, absent)
          ];
      described = λ h. entered-described c block_keys ds index' h e k run;
      unused = λ n.
          let grown =
            insert-occurrences (c.next_handle + length block_keys + n) c.index index' block_keys
              handles run in
          let past : occurrences (c.next_handle + length block_keys + n) c.index.root ≡ 0 =
            subst (λ x. occurrences x c.index.root ≡ 0) (omega arith)
              (k.unused (length block_keys + n)) in
          ground (
            arith,
            grown.1,
            past,
            count-range_from (c.next_handle + length block_keys + n) c.next_handle
                (length block_keys),
          );
    }))

registered :
    (same : String → String → Bool) (c : RemotePrefixCatalog) (block_keys : List BlockKey)
    (ds : List RemotePageDescriptor)
    → IsConsistent c
    → Ensures IsConsistent (register same c block_keys ds)
unfolding register
registered same c block_keys ds k =
    Ensures-bind (guard (length block_keys == length ds) Error.value_error) _ (λ u e.
      Ensures-if (length block_keys == 0) _ _ (λ nothing. Ensures-pure k)
        (λ more. Ensures-bind (guard (are_numbered 0 ds) Error.value_error) _ (λ _ _.
          Ensures-bind (identity_of same ds) _ (λ identity _.
            Ensures-bind (guard (accepts same c.identity identity) Error.value_error) _ (λ _ _.
              entered same c block_keys ds identity
                (ground (arith, guarded (length block_keys == length ds) Error.value_error u e))
                k)))))

-- If the descriptors of the catalog are those of the handles in its index and `register` returns, they
-- are so afterwards.
pub register-IsConsistent :
    (same : String → String → Bool) (c c' : RemotePrefixCatalog) (block_keys : List BlockKey)
    (ds : List RemotePageDescriptor)
    → IsConsistent c
    → register same c block_keys ds ≡ ok c'
    → IsConsistent c'
register-IsConsistent same c c' block_keys ds k h = (registered same c block_keys ds k).at c' h
