-- ===== src/Remote/Pending.antt =====
-- nanovllm/engine/remote_restore.py: the reads and writes of pages that are under way. A future waits,
-- or is done: cancelled, failed, or with a result. A read that found no page has the result `none`.
use nano_vllm_qos.Prelude.{
  ℕ, ◌+◌, ◌≡◌, refl, Bool, true, false, ◌&&◌, ◌||◌, Option, none, some, List, [], ◌∷◌, Result,
  Error, guard, arith, ◌==◌, ltb, length, Bool-cases, inl, inr, not, if◌then◌else◌, ◌∙◌, ok, ◌>>◌,
  ◌/◌,
}
use nano_vllm_qos.Radix.{BlockKey}
use nano_vllm_qos.Remote.{RemotePageDescriptor}

pub data Future (A : Type 0) : Type 0 where
  waiting cancelled failed : Future A
  finished : A → Future A

-- What a call that may wait for a future comes to.
pub data Outcome (A : Type 0) : Type 0 where
  waits was_cancelled has_failed page_missing : Outcome A
  returns : A → Outcome A

abbrev is_done : {A : Type 0} → Future A → Bool
is_done waiting = false
is_done _ = true

abbrev pub all_done : {A : Type 0} → List (Future A) → Bool
all_done [] = true
all_done (f ∷ fs) = is_done f && all_done fs

pub record PendingRemoteRestore (A : Type 0) : Type 0 where
  pub seq_id : ℕ
  pub pages : List RemotePageDescriptor
  pub block_ids : List ℕ
  pub futures : List (Future (Option A))

pub record PendingRemoteWriteback : Type 0 where
  pub block_keys : List BlockKey
  pub pages : List RemotePageDescriptor
  pub write_pages : List RemotePageDescriptor
  pub futures : List (Future (Unit {0}))

abbrev pub is_waits : {A : Type 0} → Outcome A → Bool
is_waits waits = true
is_waits _ = false

module _ {A : Type 0} where
  -- `PendingRemoteRestore.__post_init__`
  unfoldable pub check_restore : PendingRemoteRestore A → Result (Unit {0})
  check_restore r =
      guard
        (length r.pages == length r.block_ids
          && length r.pages == length r.futures
          && ltb 0 (length r.pages))
        Error.value_error

  -- The loop of `done` comes to a future that failed or found no page.
  unfoldable pub has_bad : List (Future (Option A)) → Bool
  has_bad [] = false
  has_bad (waiting ∷ fs) = has_bad fs
  has_bad (finished (some a) ∷ fs) = has_bad fs
  has_bad (_ ∷ fs) = true

  -- `PendingRemoteRestore.done`
  unfoldable pub restore_done : PendingRemoteRestore A → Bool
  restore_done r = has_bad r.futures || all_done r.futures

  -- The second loop of `result`
  unfoldable pub collect : List (Future (Option A)) → Outcome (List A)
  collect [] = returns []
  collect (waiting ∷ fs) = waits
  collect (cancelled ∷ fs) = was_cancelled
  collect (failed ∷ fs) = has_failed
  collect (finished none ∷ fs) = page_missing
  collect (finished (some a) ∷ fs) = elim (collect fs) [
    | returns more ↦ returns (a ∷ more)
    | waits ↦ waits
    | was_cancelled ↦ was_cancelled
    | has_failed ↦ has_failed
    | page_missing ↦ page_missing
  ]

  -- The first loop of `result`, which passes over the futures that wait, and then the second over all
  -- of the futures
  unfoldable pub surface : List (Future (Option A)) → List (Future (Option A)) → Outcome (List A)
  surface every [] = collect every
  surface every (waiting ∷ fs) = surface every fs
  surface every (cancelled ∷ fs) = was_cancelled
  surface every (failed ∷ fs) = has_failed
  surface every (finished none ∷ fs) = page_missing
  surface every (finished (some a) ∷ fs) = surface every fs

  -- `PendingRemoteRestore.result` without a timeout
  unfoldable pub restore_result : PendingRemoteRestore A → Outcome (List A)
  restore_result r = surface r.futures r.futures

  collect-is_waits :
      (fs : List (Future (Option A)))
      → has_bad fs ≡ false
      → is_waits (collect fs) ≡ not (all_done fs)
  unfolding collect has_bad
  collect-is_waits [] h = refl
  collect-is_waits (waiting ∷ fs) h = refl
  collect-is_waits (cancelled ∷ fs) h = absurd (ground arith)
  collect-is_waits (failed ∷ fs) h = absurd (ground arith)
  collect-is_waits (finished none ∷ fs) h = absurd (ground arith)
  collect-is_waits (finished (some a) ∷ fs) h = more (collect fs) ∙ collect-is_waits fs h
    where
      more :
          (o : Outcome (List A))
          → is_waits (elim o as (λ x. Outcome (List A)) [
            | returns others ↦ returns (a ∷ others)
            | waits ↦ waits
            | was_cancelled ↦ was_cancelled
            | has_failed ↦ has_failed
            | page_missing ↦ page_missing
          ])
            ≡ is_waits o
      more waits = refl
      more was_cancelled = refl
      more has_failed = refl
      more page_missing = refl
      more (returns others) = refl

  surface-is_waits :
      (every fs : List (Future (Option A)))
      → is_waits (surface every fs) ≡ (if has_bad fs then false else is_waits (collect every))
  unfolding surface has_bad
  surface-is_waits every [] = refl
  surface-is_waits every (waiting ∷ fs) = surface-is_waits every fs
  surface-is_waits every (cancelled ∷ fs) = refl
  surface-is_waits every (failed ∷ fs) = refl
  surface-is_waits every (finished none ∷ fs) = refl
  surface-is_waits every (finished (some a) ∷ fs) = surface-is_waits every fs

  -- `result` waits for a future just where `done` says that the restore is not done.
  pub restore_result-is_waits :
      (r : PendingRemoteRestore A) → is_waits (restore_result r) ≡ not (restore_done r)
  unfolding restore_result restore_done
  restore_result-is_waits r = elim (Bool-cases (has_bad r.futures)) [
    | inl bad ↦ surface-is_waits r.futures r.futures ∙ rw bad refl
    | inr good ↦ surface-is_waits r.futures r.futures ∙ rw good (collect-is_waits r.futures good)
  ]

-- A write has no result that could be missing.
abbrev as_reads : List (Future (Unit {0})) → List (Future (Option (Unit {0})))
as_reads [] = []
as_reads (waiting ∷ fs) = waiting ∷ as_reads fs
as_reads (cancelled ∷ fs) = cancelled ∷ as_reads fs
as_reads (failed ∷ fs) = failed ∷ as_reads fs
as_reads (finished u ∷ fs) = finished (some u) ∷ as_reads fs

-- `PendingRemoteWriteback.__post_init__`
unfoldable pub check_writeback : PendingRemoteWriteback → Result (Unit {0})
check_writeback w = do
  guard (ltb 0 (length w.block_keys) && length w.block_keys == length w.pages) Error.value_error
  guard (ltb 0 (length w.futures) && length w.write_pages == length w.futures) Error.value_error

-- `PendingRemoteWriteback.done`
unfoldable pub writeback_done : PendingRemoteWriteback → Bool
writeback_done w = has_bad (as_reads w.futures) || all_done w.futures

-- `PendingRemoteWriteback.result` without a timeout
unfoldable pub writeback_result : PendingRemoteWriteback → Outcome (List (Unit {0}))
writeback_result w = surface (as_reads w.futures) (as_reads w.futures)

-- `completed_kv_page_span`
unfoldable pub completed_kv_page_span : ℕ → ℕ → ℕ → Result (ℕ × ℕ)
completed_kv_page_span num_cached_tokens num_scheduled_tokens block_size = do
  guard (ltb 0 block_size) Error.value_error
  ok (num_cached_tokens / block_size, (num_cached_tokens + num_scheduled_tokens) / block_size)
