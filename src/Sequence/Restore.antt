-- ===== src/Sequence/Restore.antt =====
-- nanovllm/engine/sequence.py: the transitions of a request whose KV pages are fetched remotely.
use Prim.Native.String.{String}
use nano_vllm_qos.Prelude.{
  Option, ℕ, ◌+◌, Bool, true, false, none, some, Result, ok, Error, guard, or_raise, ◌>>◌, ◌>>=◌,
  ltb, ◌<◌, ◌≡◌, err, lt→ltb, refl,
}
use nano_vllm_qos.Scalar.{Scalar}
use nano_vllm_qos.Sequence.{Sequence, SequenceStatus}

abbrev pub is_waiting : SequenceStatus → Bool
is_waiting SequenceStatus.waiting = true
is_waiting _ = false

abbrev pub is_waiting_for_kv : SequenceStatus → Bool
is_waiting_for_kv SequenceStatus.waiting_for_kv = true
is_waiting_for_kv _ = false

unfoldable pub begin_remote_restore : {F : Type 0} → Sequence F → F → Result (Sequence F)
begin_remote_restore s now = do
  guard (is_waiting s.status) Error.runtime_error
  ok (record s {
    status = SequenceStatus.waiting_for_kv;
    remote_restore_attempted = true;
    remote_restore_started_time = some now;
    remote_restore_completed_time = none;
    remote_restore_error = none;
  })

module _ (S : Scalar) where
  -- `wait + (now - started) * 1000.0`; a start time of `None` raises a `TypeError`.
  pub waited : Sequence S.F → S.F → Result S.F
  waited s now = do
    started ← or_raise s.remote_restore_started_time Error.runtime_error
    ok (S.add s.remote_restore_wait_ms (S.mul (S.sub now started) (S.of_ℕ 1000)))

  unfoldable pub finish_remote_restore : Sequence S.F → S.F → ℕ → Result (Sequence S.F)
  unfolding waited
  finish_remote_restore s now restored_tokens = do
    guard (is_waiting_for_kv s.status) Error.runtime_error
    guard (ltb 0 restored_tokens) Error.value_error
    wait_ms ← waited s now
    ok (record s {
      status = SequenceStatus.waiting;
      remote_restore_completed_time = some now;
      remote_restore_wait_ms = wait_ms;
      remote_restored_tokens = s.remote_restored_tokens + restored_tokens;
    })

  -- `error` is the text `f"{type(error).__name__}: {error}"`.
  unfoldable pub fail_remote_restore : Sequence S.F → S.F → String → Result (Sequence S.F)
  unfolding waited
  fail_remote_restore s now error = do
    guard (is_waiting_for_kv s.status) Error.runtime_error
    wait_ms ← waited s now
    ok (record s {
      status = SequenceStatus.waiting;
      remote_restore_completed_time = some now;
      remote_restore_wait_ms = wait_ms;
      remote_restore_failures = s.remote_restore_failures + 1;
      remote_restore_error = some error;
    })

  abbrev pub status_of : Result (Sequence S.F) → Option SequenceStatus
  status_of (ok s) = some s.status
  status_of (err e) = none

  -- A restore that a waiting request begins ends exactly once: after `begin`, both ways of ending
  -- succeed (with at least one token restored) and bring the request back to the waiting state, and
  -- once it has ended, in either way, ending it again, in either way, raises a runtime error.
  pub restore_cycle :
      (s : Sequence S.F) (now later : S.F) (tokens : ℕ) (error : String)
      → s.status ≡ SequenceStatus.waiting
      → 0 < tokens
      → let begun = begin_remote_restore s now in
        let finished = begun >>= λ t. finish_remote_restore t later tokens in
        let failed = begun >>= λ t. fail_remote_restore t later error in
        (status_of begun ≡ some SequenceStatus.waiting_for_kv)
        × (status_of finished ≡ some SequenceStatus.waiting)
        × (status_of failed ≡ some SequenceStatus.waiting)
        × ((finished >>= λ u. finish_remote_restore u later tokens) ≡ err Error.runtime_error)
        × ((finished >>= λ u. fail_remote_restore u later error) ≡ err Error.runtime_error)
        × ((failed >>= λ v. finish_remote_restore v later tokens) ≡ err Error.runtime_error)
        × ((failed >>= λ v. fail_remote_restore v later error) ≡ err Error.runtime_error)
  unfolding begin_remote_restore finish_remote_restore fail_remote_restore
  restore_cycle s now later tokens error e h =
      simp (e, lt→ltb 0 tokens h) (refl, refl, refl, refl, refl, refl, refl)
