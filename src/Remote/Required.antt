-- ===== src/Remote/Required.antt =====
-- nanovllm/engine/remote_restore.py: `submit_writeback` after `pages_requiring_write`.
use Prim.Native.String.{String}
use nano_vllm_qos.Prelude.{
  ℕ, suc, ◌≡◌, refl, Bool, true, false, Option, none, some, List, [], ◌∷◌, ok, Error, guard,
  >>=-eq-ok, arith, ◌&&◌, ◌==◌, ltb, length, elem, count, Bool-cases, Option-cases, ◌⊎◌, inl, inr,
  sym, ◌∙◌, subst,
}
use nano_vllm_qos.Radix.{BlockKey, RadixPrefixCache, match_keys}
use nano_vllm_qos.Radix.Added.{guarded}
use nano_vllm_qos.Radix.Paths.{block_at}
use nano_vllm_qos.Radix.Lookup.{match_keys_lem}
use nano_vllm_qos.Radix.Reuse.{match_keys-longest, longest-same}
use nano_vllm_qos.Remote.{RemotePageDescriptor, RemotePrefixCatalog, described_pages, match_pages}
use nano_vllm_qos.Remote.Inflight.{require-find, settled_good}
use nano_vllm_qos.Remote.Pending.{Future}
use nano_vllm_qos.Remote.Writeback.{
  Writes, Planned, find, settled_for, require, pages_requiring_write, plan_writes, submit_writeback,
  started, start_writes, store, submit,
}

-- A second match finds what the first found.
match_keys-again :
    (c : RadixPrefixCache) (keys : List BlockKey)
    → (match_keys ((match_keys c keys).0) keys).1 ≡ (match_keys c keys).1
match_keys-again c keys =
    match_keys-longest ((match_keys c keys).0) keys
    ∙ longest-same (block_at ((match_keys c keys).0).root) (block_at c.root) keys
        (λ p. (match_keys_lem c keys 0 p).3)
    ∙ sym (match_keys-longest c keys)

match_pages-again :
    (c : RemotePrefixCatalog) (keys : List BlockKey)
    (r : RemotePrefixCatalog × List RemotePageDescriptor)
    → match_pages c keys ≡ ok r
    → (c'' : RemotePrefixCatalog) × (match_pages r.0 keys ≡ ok (c'', r.1))
unfolding match_pages
match_pages-again c keys r h =
    let (pages, run, e) =
      >>=-eq-ok (described_pages c.descriptors (match_keys c.index keys).1) _ h in
    let same_result : (record c { index = (match_keys c.index keys).0 }, pages) ≡ r =
      ground arith in
    subst (λ x. (c'' : RemotePrefixCatalog) × (match_pages x.0 keys ≡ ok (c'', x.1))) same_result
      (again pages run)
  where
    again :
        (pages : List RemotePageDescriptor)
        → described_pages c.descriptors (match_keys c.index keys).1 ≡ ok pages
        → (c'' : RemotePrefixCatalog) × (match_pages
              (record c { index = (match_keys c.index keys).0 })
              keys
            ≡ ok (c'', pages))
    again pages run = (
      record c { index = (match_keys ((match_keys c.index keys).0) keys).0 },
      rw (match_keys-again c.index keys, run) refl,
    )

elem_first : (i : ℕ) (xs : List ℕ) → elem i (i ∷ xs) ≡ true
unfolding count
elem_first i xs = ground arith

elem_later : (i j : ℕ) (xs : List ℕ) → elem j xs ≡ true → elem j (i ∷ xs) ≡ true
unfolding count
elem_later i j xs h = ground (arith, h)

module _ (same : String → String → Bool) (same_sound : (a b : String) → same a b ≡ true → a ≡ b)
    (state : ℕ → Future (Unit {0})) where
  require-skip :
      (n i : ℕ) (p : RemotePageDescriptor) (ps : List RemotePageDescriptor) (d : List (String × ℕ))
      → ltb i n ≡ true
      → require same state n i (p ∷ ps) d ≡ require same state n (suc i) ps d
  unfolding require
  require-skip n i p ps d e = rw e refl

  require-held :
      (n i : ℕ) (p : RemotePageDescriptor) (ps : List RemotePageDescriptor) (d : List (String × ℕ))
      (g : ℕ)
      → ltb i n ≡ false
      → find same p.object_key (settled_for same state p.object_key d) ≡ some g
      → require same state n i (p ∷ ps) d
        ≡ require same state n (suc i) ps (settled_for same state p.object_key d)
  unfolding require
  require-held n i p ps d g e held = rw (e, held) refl

  require-needs :
      (n i : ℕ) (p : RemotePageDescriptor) (ps : List RemotePageDescriptor) (d : List (String × ℕ))
      → ltb i n ≡ false
      → find same p.object_key (settled_for same state p.object_key d) ≡ none
      → let (d', required) =
          require same state n (suc i) ps (settled_for same state p.object_key d) in
        require same state n i (p ∷ ps) d ≡ (d', i ∷ required)
  unfolding require
  require-needs n i p ps d e missing = rw (e, missing) refl

  -- A page that is there, is being written, or has an envelope can be planned.
  plan_writes-step :
      (given : List ℕ) (n i : ℕ) (p : RemotePageDescriptor) (ps : List RemotePageDescriptor)
      (d : List (String × ℕ)) (planned : List Planned)
      → plan_writes same given n (suc i) ps d ≡ ok planned
      → (ltb i n ≡ true) ⊎ ((g : ℕ) × (find same p.object_key d ≡ some g)) ⊎ (elem i given ≡ true)
      → (all : List Planned) × (plan_writes same given n i (p ∷ ps) d ≡ ok all)
  unfolding plan_writes
  plan_writes-step given n i p ps d planned run h = elim (Bool-cases (ltb i n)) [
    | inl e ↦ (planned, rw (e, run) refl)
    | inr e ↦ elim (Option-cases (find same p.object_key d)) [
      | inr (g, held) ↦
          (record { index = i; descriptor = p; future = some g } ∷ planned, rw (e, held, run) refl)
      | inl missing ↦
          let has : elem i given ≡ true = ground (arith, h, e, missing) in
          (
            record { index = i; descriptor = p; future = none } ∷ planned,
            rw (e, missing, has, run) refl,
          )
    ]
  ]

  plan_writes-nil :
      (given : List ℕ) (n i : ℕ) (d : List (String × ℕ)) → plan_writes same given n i [] d ≡ ok []
  unfolding plan_writes
  plan_writes-nil given n i d = refl

  -- Where every required position has an envelope, the pages to write can be planned.
  plan_writes-ok :
      (given : List ℕ) (n i : ℕ) (ps : List RemotePageDescriptor) (d : List (String × ℕ))
      → ((j : ℕ) → elem j (require same state n i ps d).1 ≡ true → elem j given ≡ true)
      → (planned : List Planned) × (plan_writes same given n i ps (require same state n i ps d).0
          ≡ ok planned)
  plan_writes-ok given n i [] d k = ([], plan_writes-nil given n i _)
  plan_writes-ok given n i (p ∷ ps) d k = elim (Bool-cases (ltb i n)) [
    | inl e ↦
        let skip = require-skip n i p ps d e in
        let (planned, run) =
          plan_writes-ok given n (suc i) ps d
            (subst (λ r. (j : ℕ) → elem j r.1 ≡ true → elem j given ≡ true) skip k) in
        rw skip (plan_writes-step given n i p ps _ planned run (inl e))
    | inr e ↦
        let d' = settled_for same state p.object_key d in
        elim (Option-cases (find same p.object_key d')) [
          | inr (g, held) ↦
              let same_rest = require-held n i p ps d g e held in
              let (planned, run) =
                plan_writes-ok given n (suc i) ps d'
                  (subst (λ r. (j : ℕ) → elem j r.1 ≡ true → elem j given ≡ true) same_rest k) in
              rw same_rest (
                plan_writes-step given n i p ps _ planned run (
                  inr (
                    inl (
                      g,
                      require-find same same_sound state n (suc i) ps d' p.object_key g
                          (settled_good same same_sound state p.object_key d g held) held,
                    ))))
          | inl missing ↦
              let needs = require-needs n i p ps d e missing in
              let k' = subst (λ r. (j : ℕ) → elem j r.1 ≡ true → elem j given ≡ true) needs k in
              let (planned, run) =
                plan_writes-ok given n (suc i) ps d' (λ j h. k' j (elem_later i j _ h)) in
              rw needs
                (plan_writes-step given n i p ps _ planned run (inr (inr (k' i (elem_first i _)))))
        ]
  ]

  submit_open : (w : Writes) → w.closed ≡ false → submit w ≡ ok w.next_future
  unfolding submit
  submit_open w live = rw live refl

  -- An open service starts every write that is planned.
  start_writes_total :
      (ps : List Planned) (w : Writes)
      → w.closed ≡ false
      → (r : Writes × List ℕ) × (start_writes same ps w ≡ ok r)
  unfolding start_writes
  start_writes_total [] w live = ((w, []), refl)
  start_writes_total (p ∷ ps) w live = elim (Option-cases p.future) [
    | inr (f, held) ↦
        let ((w', futures), run) = start_writes_total ps w live in
        ((w', f ∷ futures), rw (held, run) refl)
    | inl missing ↦
        let ((w', futures), run) =
          start_writes_total ps
            (record w {
              inflight_writes = store same p.descriptor.object_key w.next_future w.inflight_writes;
              next_future = suc w.next_future;
            })
            live in
        ((w', w.next_future ∷ futures), rw (missing, submit_open w live, run) refl)
  ]

  started_total :
      (ps : List Planned) (w : Writes)
      → w.closed ≡ false
      → (r : Writes × Option (List Planned × List ℕ)) × (started same ps w ≡ ok r)
  started_total [] w live = ((w, none), refl)
  started_total (p ∷ ps) w live =
      let ((w', futures), run) = start_writes_total (p ∷ ps) w live in
      ((w', some (p ∷ ps, futures)), rw run refl)

  -- What `submit_writeback` does once the pages are matched.
  submitted :
      (w : Writes) (keys : List BlockKey) (ds : List RemotePageDescriptor) (given : List ℕ)
      (c'' : RemotePrefixCatalog) (published : List RemotePageDescriptor) (planned : List Planned)
      → (ltb 0 (length keys) && length keys == length ds) ≡ true
      → match_pages w.catalog keys ≡ ok (c'', published)
      → plan_writes same given (length published) 0 ds w.inflight_writes ≡ ok planned
      → w.closed ≡ false
      → (r : Writes × Option (List Planned × List ℕ)) × (submit_writeback same w keys ds given
          ≡ ok r)
  unfolding submit_writeback
  submitted w keys ds given c'' published planned g m p live =
      let (r, run) = started_total planned (record w { catalog = c'' }) live in
      (r, rw (g, m, p) run)

  -- If `pages_requiring_write` of a service that is not closed names the positions of the pages to
  -- write and each of them has an envelope, then `submit_writeback` on what it leaves does not raise,
  -- whatever writes are in flight, where the comparison of strings is right when it says that two are
  -- equal.
  pub pages_requiring_write-submit_writeback :
      (w w' : Writes) (keys : List BlockKey) (ds : List RemotePageDescriptor)
      (required given : List ℕ)
      → w.closed ≡ false
      → pages_requiring_write same state w keys ds ≡ ok (w', required)
      → ((j : ℕ) → elem j required ≡ true → elem j given ≡ true)
      → (r : Writes × Option (List Planned × List ℕ)) × (submit_writeback same w' keys ds given
          ≡ ok r)
  unfolding pages_requiring_write
  pages_requiring_write-submit_writeback w w' keys ds required given live h k =
      let (u, fits, rest) =
        >>=-eq-ok (guard (ltb 0 (length keys) && length keys == length ds) Error.value_error) _ h in
      let ((c', published), matched, last) = >>=-eq-ok (match_pages w.catalog keys) _ rest in
      let all = require same state (length published) 0 ds w.inflight_writes in
      let left : record w { catalog = c'; inflight_writes = all.0 } ≡ w' = ground (arith, last) in
      let named : all.1 ≡ required = ground (arith, last) in
      let (planned, run) =
        plan_writes-ok given (length published) 0 ds w.inflight_writes
          (λ j e. k j (subst (λ r. elem j r ≡ true) named e)) in
      let (c'', again) = match_pages-again w.catalog keys (c', published) matched in
      subst
        (λ x.
          (r : Writes × Option (List Planned × List ℕ)) × (submit_writeback same x keys ds given
            ≡ ok r))
        left
        (submitted (record w { catalog = c'; inflight_writes = all.0 }) keys ds given c'' published
          planned (guarded _ Error.value_error u fits) again run live)
