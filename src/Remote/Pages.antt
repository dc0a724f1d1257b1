-- ===== src/Remote/Pages.antt =====
-- nanovllm/engine/remote_restore.py: which descriptors `match` answers after `register`.
use Prim.Native.String.{String}
use nano_vllm_qos.Prelude.{
  ℕ, zero, suc, ◌+◌, ◌-◌, ◌<◌, ◌≡◌, refl, Bool, true, false, not, ◌&&◌, Option, none, some, List,
  [], ◌∷◌, ◌++◌, ok, Error, guard, ◌==◌, or_raise, >>=-eq-ok, arith, if◌then◌else◌, ltb, leb,
  length, drop, take, elem, get_elem?, Bool-cases, inl, inr, sym, ◌∙◌, subst, ap, append-nil,
}
use nano_vllm_qos.Prelude.Dict
use nano_vllm_qos.Prelude.Ensures.{Ensures, Ensures-bind, Ensures-if, Ensures-pure}
use nano_vllm_qos.Radix.Added.{guarded}
use nano_vllm_qos.BlockManager.{range_from}
use nano_vllm_qos.Radix.{BlockKey, RadixPrefixCache, is_indexed, occurrences, match_keys}
use nano_vllm_qos.Radix.Insert.{insert}
use nano_vllm_qos.Radix.Lookup.{match_keys_lem}
use nano_vllm_qos.Radix.Reuse.{insert-match_keys}
use nano_vllm_qos.Remote.{
  RemotePageDescriptor, RemotePrefixCatalog, describe, drop_unused, described_pages, match_pages,
  register, enter, are_numbered, identity_of, accepts,
}
use nano_vllm_qos.Remote.Consistent.{register-IsConsistent, IsConsistent, get-drop_unused}
use nano_vllm_qos.Remote.Match.{block_at-found, match_pages-IsConsistent}

abbrev Described : Type 0
Described = List (ℕ × RemotePageDescriptor)

described_pages-ext :
    (d d' : Described) (handles : List ℕ)
    → ((i h : ℕ) → get_elem? handles i ≡ some h → Dict.get h d ≡ Dict.get h d')
    → described_pages d handles ≡ described_pages d' handles
unfolding described_pages
described_pages-ext d d' [] k = refl
described_pages-ext d d' (h ∷ handles) k =
    rw (k 0 h refl, described_pages-ext d d' handles (λ i. k (suc i))) refl

described_pages-append :
    (d : Described) (xs ys : List ℕ) (ps qs : List RemotePageDescriptor)
    → described_pages d xs ≡ ok ps
    → described_pages d ys ≡ ok qs
    → described_pages d (xs ++ ys) ≡ ok (ps ++ qs)
unfolding described_pages
described_pages-append d [] ys ps qs h k = let empty : ps ≡ [] = ground arith in rw empty k
described_pages-append d (x ∷ xs) ys ps qs h k =
    let (p, held, more) = >>=-eq-ok (or_raise (Dict.get x d) Error.key_error) _ h in
    let (rest, run, last) = >>=-eq-ok (described_pages d xs) _ more in
    let whole : p ∷ rest ≡ ps = ground arith in
    subst (λ z. described_pages d (x ∷ xs ++ ys) ≡ ok (z ++ qs)) whole
      (rw (held, described_pages-append d xs ys rest qs run k) refl)

described_pages-drop :
    (d : Described) (n : ℕ) (xs : List ℕ) (ps : List RemotePageDescriptor)
    → described_pages d xs ≡ ok ps
    → described_pages d (drop n xs) ≡ ok (drop n ps)
unfolding described_pages
described_pages-drop d zero xs ps h = h
described_pages-drop d (suc n) [] ps h = let empty : ps ≡ [] = ground arith in rw empty refl
described_pages-drop d (suc n) (x ∷ xs) ps h =
    let (p, held, more) = >>=-eq-ok (or_raise (Dict.get x d) Error.key_error) _ h in
    let (rest, run, last) = >>=-eq-ok (described_pages d xs) _ more in
    let whole : p ∷ rest ≡ ps = ground arith in
    subst (λ z. described_pages d (drop n xs) ≡ ok (drop (suc n) z)) whole
      (described_pages-drop d n xs rest run)

-- New handles do not touch the descriptors of the handles before them.
get-describe_before :
    (h i n : ℕ) (ds : List RemotePageDescriptor) (d : Described)
    → h < i
    → Dict.get h (describe (range_from i n) ds d) ≡ Dict.get h d
unfolding describe
get-describe_before h i zero ds d k = refl
get-describe_before h i (suc n) [] d k = refl
get-describe_before h i (suc n) (p ∷ ds) d k =
    get-describe_before h (suc i) n ds (Dict.put i p d) (omega arith)
    ∙ Dict.get-put i h p d
    ∙ ground arith

describe-described_pages :
    (i n : ℕ) (ds : List RemotePageDescriptor) (d : Described)
    → n ≡ length ds
    → described_pages (describe (range_from i n) ds d) (range_from i n) ≡ ok ds
unfolding described_pages describe
describe-described_pages i zero [] d e = refl
describe-described_pages i zero (p ∷ ds) d e = absurd (ground arith)
describe-described_pages i (suc n) [] d e = absurd (ground arith)
describe-described_pages i (suc n) (p ∷ ds) d e =
    let first : Dict.get i (describe (range_from (suc i) n) ds (Dict.put i p d)) ≡ some p =
      get-describe_before i (suc i) n ds (Dict.put i p d) (omega arith)
      ∙ Dict.get-put i i p d
      ∙ ground arith in
    rw (first, describe-described_pages (suc i) n ds (Dict.put i p d) (omega arith)) refl

matched_indexed :
    (index : RadixPrefixCache) (keys : List BlockKey) (i h : ℕ)
    → get_elem? (match_keys index keys).1 i ≡ some h
    → 0 < occurrences h index.root
matched_indexed index keys i h e =
    let (at, bounded, maximal, kept) = match_keys_lem index keys i [] in
    elim (Bool-cases (ltb i (length (match_keys index keys).1))) [
      | inr out ↦ absurd (ground (arith, e, rw out at at))
      | inl within ↦ block_at-found h index.root (take (suc i) keys) (sym (rw within at at) ∙ e)
    ]

unspared : {A : Type 0} (b : Bool) (o : Option A) → (if b && not true then none else o) ≡ o
unspared true o = refl
unspared false o = refl

-- A handle in the index has been given out.
indexed_before :
    (c : RemotePrefixCatalog) (h : ℕ)
    → IsConsistent c
    → 0 < occurrences h c.index.root
    → h < c.next_handle
indexed_before c h k e = elim (Bool-cases (leb c.next_handle h)) [
  | inr below ↦ ground (arith, below)
  | inl past ↦
      let back : c.next_handle + (h - c.next_handle) ≡ h = ground (arith, past) in
      let absent : occurrences h c.index.root ≡ 0 =
        subst (λ x. occurrences x c.index.root ≡ 0) back (k.unused (h - c.next_handle)) in
      absurd (omega (arith, absent, e))
]

-- The descriptors that `match` finds once the keys have been entered.
entered-described_pages :
    (c : RemotePrefixCatalog) (index' : RadixPrefixCache) (keys : List BlockKey)
    (ds old : List RemotePageDescriptor)
    → IsConsistent c
    → length keys ≡ length ds
    → insert c.index keys (range_from c.next_handle (length keys)) ≡ ok index'
    → described_pages c.descriptors (match_keys c.index keys).1 ≡ ok old
    → described_pages
        (drop_unused index'
          (range_from c.next_handle (length keys))
          (describe (range_from c.next_handle (length keys)) ds c.descriptors))
        (match_keys index' keys).1
      ≡ ok (old ++ drop (length (match_keys c.index keys).1) ds)
entered-described_pages c index' keys ds old k e run found =
    let handles = range_from c.next_handle (length keys) in
    let before = (match_keys c.index keys).1 in
    let entered = describe handles ds c.descriptors in
    let live : (i h : ℕ)
        → get_elem? (match_keys index' keys).1 i ≡ some h
        → Dict.get h (drop_unused index' handles entered) ≡ Dict.get h entered =
      λ i h at.
        let taken : is_indexed index' h ≡ true =
          ground (arith, matched_indexed index' keys i h at) in
        get-drop_unused h index' handles entered ∙ rw taken (unspared (elem h handles) _) in
    let known : (i h : ℕ)
        → get_elem? before i ≡ some h
        → Dict.get h entered ≡ Dict.get h c.descriptors =
      λ i h at.
        get-describe_before h c.next_handle (length keys) ds c.descriptors
          (indexed_before c h k (matched_indexed c.index keys i h at)) in
    described_pages-ext (drop_unused index' handles entered) entered (match_keys index' keys).1 live
    ∙ rw (insert-match_keys c.index index' keys handles run) (
        described_pages-append entered before (drop (length before) handles) old
          (drop (length before) ds) (described_pages-ext entered c.descriptors before known ∙ found)
          (described_pages-drop entered (length before) handles ds
            (describe-described_pages c.next_handle (length keys) ds c.descriptors e)))

match_pages-described_pages :
    (c : RemotePrefixCatalog) (keys : List BlockKey)
    (r : RemotePrefixCatalog × List RemotePageDescriptor)
    → match_pages c keys ≡ ok r
    → described_pages c.descriptors (match_keys c.index keys).1 ≡ ok (r.1)
unfolding match_pages
match_pages-described_pages c keys r h =
    let (pages, run, last) =
      >>=-eq-ok (described_pages c.descriptors (match_keys c.index keys).1) _ h in
    let same_pages : pages ≡ r.1 = ground (arith, last) in run ∙ ap ok same_pages

drop-nil : (n : ℕ) → drop {A = RemotePageDescriptor} n [] ≡ []
drop-nil zero = refl
drop-nil (suc n) = refl

nothing_new :
    (ds old : List RemotePageDescriptor) → length ds ≡ 0 → old ≡ old ++ drop (length old) ds
nothing_new [] old h = rw (drop-nil (length old)) (sym (append-nil old))
nothing_new (p ∷ ds) old h = absurd (ground arith)

-- What `match` is to find after `register`: the pages that it found before, and the new ones after
-- them.
abbrev Finds :
    RemotePrefixCatalog
    → List BlockKey
    → List RemotePageDescriptor
    → List RemotePageDescriptor
    → Type 0
Finds c' keys ds old =
    described_pages c'.descriptors (match_keys c'.index keys).1 ≡ ok (old ++ drop (length old) ds)

registered-Finds :
    (same : String → String → Bool) (c : RemotePrefixCatalog) (keys : List BlockKey)
    (ds old : List RemotePageDescriptor)
    → IsConsistent c
    → described_pages c.descriptors (match_keys c.index keys).1 ≡ ok old
    → length old ≡ length (match_keys c.index keys).1
    → Ensures (λ c'. Finds c' keys ds old) (register same c keys ds)
unfolding register enter
registered-Finds same c keys ds old k found many =
    Ensures-bind (guard (length keys == length ds) Error.value_error) _ (λ u e.
      let equal : length keys ≡ length ds =
        ground (arith, guarded (length keys == length ds) Error.value_error u e) in
      Ensures-if (length keys == 0) _ _
        (λ nothing. Ensures-pure (found ∙ ap ok (nothing_new ds old (ground (arith, nothing)))))
        (λ more. Ensures-bind (guard (are_numbered 0 ds) Error.value_error) _ (λ _ _.
          Ensures-bind (identity_of same ds) _ (λ identity _.
            Ensures-bind (guard (accepts same c.identity identity) Error.value_error) _ (λ _ _.
              Ensures-bind (insert c.index keys (range_from c.next_handle (length keys))) _
                (λ index' run.
                  Ensures-pure
                    (rw many (entered-described_pages c index' keys ds old k equal run found))))))))

-- If the descriptors of the catalog are those of the handles in its index and `register` returns, then
-- `match` on the same keys does not raise, before or after. It answers the pages that it answered
-- before, and for the rest of the keys the new pages, and the descriptors of the catalog that it
-- leaves are those of the handles in its index.
pub register-match_pages :
    (same : String → String → Bool) (c c' : RemotePrefixCatalog) (keys : List BlockKey)
    (ds : List RemotePageDescriptor)
    → IsConsistent c
    → register same c keys ds ≡ ok c'
    → (before : RemotePrefixCatalog × List RemotePageDescriptor) × (after : RemotePrefixCatalog
        × List RemotePageDescriptor)
      × (match_pages c keys ≡ ok before)
      × (match_pages c' keys ≡ ok after)
      × (after.1 ≡ before.1 ++ drop (length (before.1)) ds)
      × IsConsistent (after.0)
register-match_pages same c c' keys ds k h =
    let (before, run, many, kept) = match_pages-IsConsistent c keys k in
    let (after, run', many', kept') =
      match_pages-IsConsistent c' keys (register-IsConsistent same c c' keys ds k h) in
    let finds : Finds c' keys ds (before.1) =
      (registered-Finds same c keys ds (before.1) k (match_pages-described_pages c keys before run)
          many).at
        c' h in
    let found = match_pages-described_pages c' keys after run' in
    let same_pages : after.1 ≡ before.1 ++ drop (length (before.1)) ds =
      ground (arith, sym found ∙ finds) in
    (before, after, run, run', same_pages, kept')
