-- ===== src/Remote/Writeback.antt =====
-- nanovllm/engine/remote_restore.py: which pages of a prefix are written to the remote store, and the
-- writes in flight. A future is a number, and `state` says how it stands. `same` is `==` of strings.
use Prim.Native.String.{String}
use nano_vllm_qos.Prelude.{
  ℕ, suc, Bool, true, false, not, ◌&&◌, Option, none, some, List, [], ◌∷◌, Result, ok, Error, guard,
  ◌>>=◌, ◌>>◌, if◌then◌else◌, ◌==◌, ltb, length, elem,
}
use nano_vllm_qos.Radix.{BlockKey}
use nano_vllm_qos.Remote.{RemotePageDescriptor, RemotePrefixCatalog, match_pages}
use nano_vllm_qos.Remote.Pending.{Future, cancelled, failed}

-- What the service keeps for writes.
pub record Writes : Type 0 where
  pub catalog : RemotePrefixCatalog
  pub inflight_writes : List (String × ℕ)
  pub next_future : ℕ
  pub closed : Bool

-- `_submit`: the number of the new future; a closed service raises.
unfoldable pub submit : Writes → Result ℕ
submit w = do guard (not w.closed) Error.runtime_error; ok w.next_future

-- A page to write: its position, its descriptor, and the write in flight for it.
pub record Planned : Type 0 where
  pub index : ℕ
  pub descriptor : RemotePageDescriptor
  pub future : Option ℕ

abbrev pub is_bad : {A : Type 0} → Future A → Bool
is_bad cancelled = true
is_bad failed = true
is_bad _ = false

module _ (same : String → String → Bool) where
  -- `inflight_writes.get(key)`, `inflight_writes[key] = future`, `inflight_writes.pop(key, None)`
  unfoldable pub find : String → List (String × ℕ) → Option ℕ
  find key [] = none
  find key ((k, f) ∷ d) = if same k key then some f else find key d

  unfoldable pub store : String → ℕ → List (String × ℕ) → List (String × ℕ)
  store key future [] = (key, future) ∷ []
  store key future ((k, f) ∷ d) =
      if same k key then (k, future) ∷ d else (k, f) ∷ store key future d

  unfoldable pub forget : String → List (String × ℕ) → List (String × ℕ)
  forget key [] = []
  forget key ((k, f) ∷ d) = if same k key then forget key d else (k, f) ∷ forget key d

  -- A write in flight that was cancelled or failed is forgotten.
  abbrev pub settled_for : (ℕ → Future (Unit {0})) → String → List (String × ℕ) → List (String × ℕ)
  settled_for state key d = elim (find key d) [
    | none ↦ d
    | some f ↦ if is_bad (state f) then forget key d else d
  ]

  -- The loop of `pages_requiring_write`, from position `i` on: the writes in flight, and the positions.
  unfoldable pub require :
      (ℕ → Future (Unit {0}))
      → ℕ
      → ℕ
      → List RemotePageDescriptor
      → List (String × ℕ)
      → List (String × ℕ) × List ℕ
  require state published i [] d = (d, [])
  require state published i (p ∷ ps) d =
      if ltb i published
      then require state published (suc i) ps d
      else (let d' = settled_for state p.object_key d in
          let (d'', required) = require state published (suc i) ps d' in
          elim (find p.object_key d') [ none ↦ (d'', i ∷ required) | some f ↦ (d'', required) ])

  unfoldable pub pages_requiring_write :
      (ℕ → Future (Unit {0}))
      → Writes
      → List BlockKey
      → List RemotePageDescriptor
      → Result (Writes × List ℕ)
  pages_requiring_write state w keys ds = do
    guard (ltb 0 (length keys) && length keys == length ds) Error.value_error
    (c', published) ← match_pages w.catalog keys
    let (d, required) = require state (length published) 0 ds w.inflight_writes
    ok (record w { catalog = c'; inflight_writes = d }, required)

  -- The first loop of `submit_writeback`; `given` holds the positions with an envelope.
  unfoldable pub plan_writes :
      List ℕ → ℕ → ℕ → List RemotePageDescriptor → List (String × ℕ) → Result (List Planned)
  plan_writes given published i [] d = ok []
  plan_writes given published i (p ∷ ps) d =
      let rest = plan_writes given published (suc i) ps d in
      if ltb i published then rest else elim (find p.object_key d) [
        | none ↦ (do
          guard (elem i given) Error.value_error
          planned ← rest
          ok (record { index = i; descriptor = p; future = none } ∷ planned))
        | some f ↦ (do
          planned ← rest
          ok (record { index = i; descriptor = p; future = some f } ∷ planned))
      ]

  -- The second loop: a page without a write in flight gets one.
  unfoldable pub start_writes : List Planned → Writes → Result (Writes × List ℕ)
  start_writes [] w = ok (w, [])
  start_writes (p ∷ ps) w = elim p.future [
    | some f ↦ (do (w', futures) ← start_writes ps w; ok (w', f ∷ futures))
    | none ↦ (do
      f ← submit w
      (w', futures) ← start_writes ps (record w {
        inflight_writes = store p.descriptor.object_key f w.inflight_writes;
        next_future = suc w.next_future;
      })
      ok (w', f ∷ futures))
  ]

  abbrev pub started : List Planned → Writes → Result (Writes × Option (List Planned × List ℕ))
  started [] w = ok (w, none)
  started (p ∷ ps) w = do (w', futures) ← start_writes (p ∷ ps) w; ok (w', some (p ∷ ps, futures))

  -- The pages planned with their futures, or `none` where there is nothing to write.
  unfoldable pub submit_writeback :
      Writes
      → List BlockKey
      → List RemotePageDescriptor
      → List ℕ
      → Result (Writes × Option (List Planned × List ℕ))
  submit_writeback w keys ds given = do
    guard (ltb 0 (length keys) && length keys == length ds) Error.value_error
    (c', published) ← match_pages w.catalog keys
    planned ← plan_writes given (length published) 0 ds w.inflight_writes
    started planned (record w { catalog = c' })

  -- The end of `complete_writeback` and `fail_writeback`: a write in flight is forgotten, unless
  -- another has taken its place.
  unfoldable pub clear_writes : List Planned → List ℕ → List (String × ℕ) → List (String × ℕ)
  clear_writes (p ∷ ps) (f ∷ futures) d =
      clear_writes ps futures (elim (find p.descriptor.object_key d) [
        | none ↦ d
        | some g ↦ if g == f then forget p.descriptor.object_key d else d
      ])
  clear_writes _ _ d = d
