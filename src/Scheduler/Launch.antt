-- ===== src/Scheduler/Launch.antt =====
-- Starting a remote restore keeps the account of the scheduler.
use Prim.Native.String.{String}
use nano_vllm_qos.Prelude.{
  ℕ, ◌+◌, ◌≡◌, refl, Bool, true, false, Option, none, some, List, [], ok, arith, length, drop,
  Option-cases, inl, inr, ap, sym, subst, ◌∙◌,
}
use nano_vllm_qos.Prelude.Ensures.{Ensures, Ensures-pure, Ensures-bind, Ensures-then}
use nano_vllm_qos.Scalar.{Scalar}
use nano_vllm_qos.Sequence.{Sequence}
use nano_vllm_qos.Sequence.Restore
use nano_vllm_qos.Sequence.Restore.{begin_remote_restore}
use nano_vllm_qos.BlockManager.{BlockManager, PrefixIndex}
use nano_vllm_qos.BlockManager.Allocate.{reserve_restore}
use nano_vllm_qos.BlockManager.Correct.{Accounts}
use nano_vllm_qos.BlockManager.Keeps.{abort_restore-Keeps, reserve_restore-Keeps}
use nano_vllm_qos.BlockManager.Release.{abort_restore}
use nano_vllm_qos.Queues.{find_seq, remove_seq, total}
use nano_vllm_qos.Scheduler.{Scheduler, RestoreService, with_blocks}
use nano_vllm_qos.Scheduler.Restores.{
  pended, submitted, abandon, launch, launch_found, start_with, start_remote_restore,
}
use nano_vllm_qos.Scheduler.Cancel.{put_pending}
use nano_vllm_qos.Scheduler.Sound.{
  IsSound, everyone, table_of, is_named, total_pending, hand-Accounts, hand_over, room, waiting_on,
  without,
}
use nano_vllm_qos.Scheduler.Transfers.{Accounts-Alike, begin-Alike, fail-Alike, total-put_pending}

module _ (S : Scalar) (P : PrefixIndex) (R : RestoreService S.F) (xxh64 : List ℕ → ℕ)
    (clock : ℕ → S.F) (m : Scheduler S.F P.Index R.Service) (s : Sequence S.F)
    (there : find_seq s.seq_id m.waiting ≡ some s) (h : IsSound m []) where
  abbrev rest : Scheduler S.F P.Index R.Service
  rest = without m s there h

  abbrev others : ℕ → ℕ
  others b = everyone (table_of b) rest []

  -- No other request is pending under the number.
  not_pending : total_pending (is_named s.seq_id) m.pending_restores ≡ 0
  unfolding total
  not_pending =
      let k = (room m s there h).distinct s.seq_id in
      let own : is_named s.seq_id s ≡ 1 = ground arith in omega (arith, k, own)

  submitted-IsSound :
      (blocks : BlockManager P.Index) (v : R.Service) (t : Sequence S.F) (n k : ℕ)
      → t.seq_id ≡ s.seq_id
      → Accounts blocks t others
      → IsSound (submitted S P R xxh64 clock (with_blocks m blocks) v t n k) []
  unfolding total
  submitted-IsSound blocks v t n k id a =
      let free =
        subst (λ j. total_pending (is_named j) m.pending_restores ≡ 0) (sym id) not_pending in
      let gone : (w : Sequence S.F → ℕ)
          → total w (remove_seq t.seq_id m.waiting) ≡ total w (remove_seq s.seq_id m.waiting) =
        λ w. ap (λ j. total w (remove_seq j m.waiting)) id in
      hand_over rest _ [] [] s t (room m s there h)
        (λ w.
          let put = total-put_pending w (pended S P R xxh64 clock t n k) m.pending_restores free in
          let moved : total w (remove_seq t.seq_id m.waiting)
                + total w m.running
                + total_pending w (put_pending (pended S P R xxh64 clock t n k) m.pending_restores)
                + 0
              ≡ w t + everyone w rest [] =
            omega (arith, gone w, put) in
          moved)
        a id

  abandon-Keeps :
      (blocks : BlockManager P.Index) (v : R.Service) (t : Sequence S.F) (now : S.F)
      (error : String)
      → t.seq_id ≡ s.seq_id
      → Accounts blocks t others
      → Ensures
          (λ m'. IsSound m' [])
          (abandon S P R xxh64 clock (with_blocks m blocks) v t now error)
  unfolding abandon
  abandon-Keeps blocks v t now error id a =
      Ensures-then _ (abort_restore blocks t) _ (abort_restore-Keeps blocks t others a) (λ r k.
        Ensures-then _ (Restore.fail_remote_restore S r.1 now error) _ (fail-Alike S r.1 now error)
          (λ u same. Ensures-pure (
            waiting_on m s there h r.0 _ u (same.1 ∙ k.1 ∙ id)
              (Accounts-Alike r.0 r.1 u others same k.0) refl refl refl refl)))

  launch-Keeps :
      (v : R.Service) (n : ℕ) (candidate : List R.Page) (now : S.F)
      → Ensures (λ r. IsSound r.0 []) (launch S P R xxh64 clock m v s n candidate now)
  unfolding launch
  launch-Keeps v n candidate now =
      Ensures-then _ (reserve_restore P xxh64 m.block_manager s n (length candidate)) _
        (reserve_restore-Keeps P m.block_manager s others
          (hand-Accounts rest [] s (room m s there h)) xxh64 n (length candidate))
        (λ r k. Ensures-then _ (begin_remote_restore r.1 now) _ (begin-Alike S r.1 now) (λ t same.
          let id : t.seq_id ≡ s.seq_id = same.1 ∙ k.1 in
          let a : Accounts r.0 t others = Accounts-Alike r.0 r.1 t others same k.0 in
          let sent = R.submit_restore v s.seq_id (drop n candidate) r.2 in
          elim (Option-cases sent.1) [
            | inl e ↦ rw e (Ensures-pure (submitted-IsSound r.0 sent.0 t _ _ id a))
            | inr (error, e) ↦ rw e (
                Ensures-then _ (abandon S P R xxh64 clock (with_blocks m r.0) sent.0 t now error) _
                  (abandon-Keeps r.0 sent.0 t now error id a) (λ m' q. Ensures-pure q))
          ]))

  launch_found-Keeps :
      (v : R.Service) (candidate : Option (List R.Page)) (n : ℕ) (now : S.F)
      → Ensures (λ r. IsSound r.0 []) (launch_found S P R xxh64 clock m v candidate s n now)
  unfolding launch_found
  launch_found-Keeps v none n now =
      Ensures-pure (record { consistent = h.consistent; refs = h.refs; distinct = h.distinct })
  launch_found-Keeps v (some pages) n now = launch-Keeps v n pages now

  start_with-Keeps :
      (service : Option R.Service) (attempted : Bool) (n : ℕ) (now : S.F)
      → Ensures (λ r. IsSound r.0 []) (start_with S P R xxh64 clock m service attempted s n now)
  unfolding start_with
  start_with-Keeps none attempted n now = Ensures-pure h
  start_with-Keeps (some v) true n now = Ensures-pure h
  start_with-Keeps (some v) false n now =
      Ensures-bind (R.plan_restore v s n m.estimator.prefill_ms_per_token) _
        (λ r _. launch_found-Keeps r.0 r.1 n now)

  pub start_remote_restore-Keeps :
      (n : ℕ) (now : S.F)
      → Ensures (λ r. IsSound r.0 []) (start_remote_restore S P R xxh64 clock m s n now)
  unfolding start_remote_restore
  start_remote_restore-Keeps n now = start_with-Keeps _ _ n now

  -- If the scheduler is sound, and the start of a remote restore for a waiting request returns, then
  -- it is sound afterwards, whether the transfer was submitted, not worth its cost, or refused.
  pub start_remote_restore-IsSound :
      (n : ℕ) (now : S.F) (m' : Scheduler S.F P.Index R.Service) (started : Bool)
      → start_remote_restore S P R xxh64 clock m s n now ≡ ok (m', started)
      → IsSound m' []
  start_remote_restore-IsSound n now m' started e = (start_remote_restore-Keeps n now).at _ e
