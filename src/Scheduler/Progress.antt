-- ===== src/Scheduler/Progress.antt =====
-- nanovllm/engine/scheduler.py: the prefill loop of `_schedule_once` ends within its rounds.
use Prim.Native.String.{String}
use nano_vllm_qos.Prelude.{
  ℕ, ◌<◌, ◌≤◌, ◌≡◌, refl, Bool, true, false, Option, none, some, List, [], ok, Error, or_raise,
  arith, elem, length, drop, Bool-cases, Option-cases, inl, inr, ap, sym, subst, ◌∙◌, ◌>>=◌,
}
use nano_vllm_qos.Prelude.Ensures.{Ensures, Ensures-pure, Ensures-bind, Ensures-then, or_raise-some}
use nano_vllm_qos.Scalar.{Scalar}
use nano_vllm_qos.Sequence.{Sequence}
use nano_vllm_qos.Sequence.Restore
use nano_vllm_qos.Sequence.Restore.{begin_remote_restore}
use nano_vllm_qos.BlockManager.{BlockManager, PrefixIndex}
use nano_vllm_qos.BlockManager.Allocate.{can_allocate, reserve_restore}
use nano_vllm_qos.BlockManager.Keeps.{reserve_restore-Keeps, can_allocate-Keeps}
use nano_vllm_qos.BlockManager.Release.{abort_restore}
use nano_vllm_qos.Queues.{
  find_seq, remove_seq, has_table, total, length-remove_seq, length-update_seq, find_seq-id,
}
use nano_vllm_qos.Scheduler.{Scheduler, RestoreService, with_blocks}
use nano_vllm_qos.Scheduler.Enough.{holds, Slack}
use nano_vllm_qos.Scheduler.Prefill.{
  Prefilling, again, reserve_short, admit, start_new, without_plan, start_local, proceed,
}
use nano_vllm_qos.Scheduler.Restores.{
  abandon, launch, launch_found, start_with, start_remote_restore,
}
use nano_vllm_qos.Scheduler.Resumes.{itself}
use nano_vllm_qos.Scheduler.Rounds.{
  Less, Slack-trans, update_seq-holds, remove_seq-holds, continue_resident-Less, start_local-Less,
  defer-Less, blocked-Less,
}
use nano_vllm_qos.Scheduler.Sound.{IsSound, hand-Accounts, room, without, the_others, blocks_on}
use nano_vllm_qos.Scheduler.Transfers.{begin-Alike}

-- A restore that started takes its request out of the queue.
abbrev Launched : {F I V : Type 0} → Scheduler F I V → Scheduler F I V × Bool → Type 0
Launched m (m', true) =
    (m'.options ≡ m.options)
    × (length m'.waiting < length m.waiting)
    × (total holds m'.waiting ≤ total holds m.waiting)
Launched m (m', false) = Slack 1 m m'

module _ (S : Scalar) (P : PrefixIndex) (R : RestoreService S.F) (xxh64 : List ℕ → ℕ)
    (clock : ℕ → S.F) where
  abbrev Machine : Type 0
  Machine = Scheduler S.F P.Index R.Service

  unchanged : (m m' : Machine) → m'.options ≡ m.options → m'.waiting ≡ m.waiting → Slack 1 m m'
  unchanged m m' e q = (e, omega (arith, ap length q), omega (arith, ap (total holds) q))

  abandon-Slack :
      (m : Machine) (blocks : BlockManager P.Index) (v : R.Service) (t : Sequence S.F) (now : S.F)
      (error : String)
      → Ensures (Slack 1 m) (abandon S P R xxh64 clock (with_blocks m blocks) v t now error)
  unfolding abandon
  abandon-Slack m blocks v t now error = Ensures-bind (abort_restore blocks t) _ (λ r _.
      Ensures-bind (Restore.fail_remote_restore S r.1 now error) _ (λ u _.
        Ensures-pure
          (refl, omega (arith, length-update_seq u m.waiting), update_seq-holds u m.waiting)))

  module _ (m : Machine) (s : Sequence S.F) (there : find_seq s.seq_id m.waiting ≡ some s)
      (h : IsSound m []) where
    launch-Launched :
        (v : R.Service) (n : ℕ) (candidate : List R.Page) (now : S.F)
        → Ensures (Launched m) (launch S P R xxh64 clock m v s n candidate now)
    unfolding launch
    launch-Launched v n candidate now =
        Ensures-then _ (reserve_restore P xxh64 m.block_manager s n (length candidate)) _
          (reserve_restore-Keeps P m.block_manager s (the_others m s there h)
            (hand-Accounts (without m s there h) [] s (room m s there h)) xxh64 n
            (length candidate))
          (λ r k. Ensures-then _ (begin_remote_restore r.1 now) _ (begin-Alike S r.1 now) (λ t same.
            let id : t.seq_id ≡ s.seq_id = same.1 ∙ k.1 in
            let sent = R.submit_restore v s.seq_id (drop n candidate) r.2 in
            elim (Option-cases sent.1) [
              | inl e ↦ rw e (
                  Ensures-pure (
                    refl,
                    subst (λ j. length (remove_seq j m.waiting) < length m.waiting) (sym id)
                        (omega (arith, length-remove_seq s.seq_id m.waiting s there)),
                    remove_seq-holds t.seq_id m.waiting,
                  ))
              | inr (error, e) ↦ rw e (
                  Ensures-then _ (abandon S P R xxh64 clock (with_blocks m r.0) sent.0 t now error)
                    _ (abandon-Slack m r.0 sent.0 t now error) (λ m' q. Ensures-pure q))
            ]))

    launch_found-Launched :
        (v : R.Service) (candidate : Option (List R.Page)) (n : ℕ) (now : S.F)
        → Ensures (Launched m) (launch_found S P R xxh64 clock m v candidate s n now)
    unfolding launch_found
    launch_found-Launched v none n now = Ensures-pure (refl, omega arith, omega arith)
    launch_found-Launched v (some pages) n now = launch-Launched v n pages now

    start_with-Launched :
        (service : Option R.Service) (attempted : Bool) (n : ℕ) (now : S.F)
        → Ensures (Launched m) (start_with S P R xxh64 clock m service attempted s n now)
    unfolding start_with
    start_with-Launched none attempted n now = Ensures-pure (unchanged m m refl refl)
    start_with-Launched (some v) true n now = Ensures-pure (unchanged m m refl refl)
    start_with-Launched (some v) false n now =
        Ensures-bind (R.plan_restore v s n m.estimator.prefill_ms_per_token) _
          (λ r _. launch_found-Launched r.0 r.1 n now)

    start_remote_restore-Launched :
        (n : ℕ) (now : S.F)
        → Ensures (Launched m) (start_remote_restore S P R xxh64 clock m s n now)
    unfolding start_remote_restore
    start_remote_restore-Launched n now = start_with-Launched _ _ n now

  module _ (t : Prefilling Machine) (few : length t.scheduled < t.engine.options.max_num_seqs) where
    admit-Less :
        (m : Machine) (s : Sequence S.F) (now : S.F) (remaining n : ℕ)
        → find_seq s.seq_id m.waiting ≡ some s
        → IsSound m []
        → Slack 0 t.engine m
        → elem s.seq_id t.budget_deferred ≡ false
        → Ensures (Less S P R xxh64 clock t) (admit S P R xxh64 clock t m s now remaining n)
    unfolding admit
    admit-Less m s now remaining n there h k new =
        Ensures-bind (reserve_short S P R xxh64 clock m s) _ (λ short _. elim (Bool-cases short) [
          | inl e ↦ rw e (
              Ensures-pure (
                defer-Less S P R xxh64 clock t (without_plan S P R xxh64 clock m s.seq_id) s.seq_id
                  k new))
          | inr e ↦ rw e (
              Ensures-then _ (start_remote_restore S P R xxh64 clock m s n now) _
                (start_remote_restore-Launched m s there h n now) (λ r l. launched r.0 r.1 l))
        ])
      where
        launched :
            (m' : Machine) (started : Bool)
            → Launched m (m', started)
            → Ensures (Less S P R xxh64 clock t) (elim started [
              | true ↦ ok (again (record t { engine = m' }))
              | false ↦ or_raise (find_seq s.seq_id m'.waiting) Error.value_error >>= λ s'.
                  start_local S P R xxh64 clock t m' s' now remaining n
            ])
        launched m' true l =
            let limit = ap (λ o. o.max_num_seqs) (l.0 ∙ k.0) in
            Ensures-pure (omega (arith, k.1, k.2, l.1, l.2, limit))
        launched m' false l =
            Ensures-bind (or_raise (find_seq s.seq_id m'.waiting) Error.value_error) _ (λ u _.
              start_local-Less S P R xxh64 clock t m' u now remaining n
                (Slack-trans 0 1 t.engine m m' k l) few)

    start_new-Less :
        (m : Machine) (s : Sequence S.F) (now : S.F) (remaining : ℕ)
        → find_seq s.seq_id m.waiting ≡ some s
        → IsSound m []
        → Slack 0 t.engine m
        → elem s.seq_id t.budget_deferred ≡ false
        → (t.resident_progress_only ≡ true → total holds m.waiting < total holds t.engine.waiting)
        → Ensures (Less S P R xxh64 clock t) (start_new S P R xxh64 clock t m s now remaining)
    unfolding start_new
    start_new-Less m s now remaining there h k new eased =
        let a = hand-Accounts (without m s there h) [] s (room m s there h) in
        Ensures-then _ (can_allocate P xxh64 m.block_manager s) _
          (can_allocate-Keeps P m.block_manager s (the_others m s there h) a xxh64)
          (λ r q.
            let sound = blocks_on m s there h r.0 q in
            elim (Option-cases r.1) [
              | inl e ↦ rw e (
                  Ensures-pure
                    (blocked-Less S P R xxh64 clock t (with_blocks m r.0) s.seq_id k new eased))
              | inr (n, e) ↦
                  rw e (admit-Less (with_blocks m r.0) s now remaining n there sound k new)
            ])

    pub proceed-Less :
        (m : Machine) (i : ℕ) (now : S.F) (remaining : ℕ)
        → IsSound m []
        → Slack 0 t.engine m
        → elem i t.budget_deferred ≡ false
        → ((s : Sequence S.F)
            → find_seq i m.waiting ≡ some s
            → has_table s ≡ false
            → t.resident_progress_only ≡ true
            → total holds m.waiting < total holds t.engine.waiting)
        → Ensures (Less S P R xxh64 clock t) (proceed S P R xxh64 clock t m i now remaining)
    unfolding proceed
    proceed-Less m i now remaining h k new eased =
        Ensures-bind (or_raise (find_seq i m.waiting) Error.value_error) _ (λ s e.
          let found = or_raise-some (find_seq i m.waiting) Error.value_error e in
          let there = itself i m.waiting s found in
          let id = find_seq-id i m.waiting s found in
          elim (Bool-cases (has_table s)) [
            | inl held ↦
                rw held (continue_resident-Less S P R xxh64 clock t m s now remaining k few)
            | inr bare ↦ rw bare (
                start_new-Less m s now remaining there h k
                  (subst (λ j. elem j t.budget_deferred ≡ false) (sym id) new) (eased s found bare))
          ])
