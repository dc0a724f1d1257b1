-- ===== src/Scheduler/Transfers.antt =====
-- Cancelling a request, and starting and ending a remote restore, keep the account of the scheduler.
use Prim.Native.String.{String}
use nano_vllm_qos.Prelude.{
  ℕ, ◌+◌, ◌*◌, ◌≡◌, refl, true, Option, none, some, List, [], ◌∷◌, ◌++◌, ok, Error, guard, or_raise,
  arith, ltb, ◌==◌, reverse, count, Option-cases, Bool-cases, inl, inr, ap, subst, ◌∙◌,
}
use nano_vllm_qos.Prelude.Ensures.{
  Ensures, Ensures-and, Ensures-pure, Ensures-if, Ensures-bind, Ensures-then, or_raise-some,
}
use nano_vllm_qos.Scalar.{Scalar}
use nano_vllm_qos.Sequence
use nano_vllm_qos.Sequence.{Sequence, mark_arrived}
use nano_vllm_qos.Sequence.Restore
use nano_vllm_qos.Sequence.Restore.{
  begin_remote_restore, finish_remote_restore, waited, is_waiting, is_waiting_for_kv,
}
use nano_vllm_qos.BlockManager.{BlockManager, PrefixIndex}
use nano_vllm_qos.BlockManager.Allocate.{is_empty, commit_restored_prefix}
use nano_vllm_qos.BlockManager.Correct.{Accounts}
use nano_vllm_qos.BlockManager.Invariant.{ref_of}
use nano_vllm_qos.BlockManager.Keeps.{Accounts-same, abort_restore-Keeps}
use nano_vllm_qos.BlockManager.Labels.{commit_restored_prefix-Keeps}
use nano_vllm_qos.BlockManager.Release.{abort_restore, deallocate, forget_resume}
use nano_vllm_qos.BlockManager.Pool.{release_all}
use nano_vllm_qos.Queues.{find_seq, find_seq-id, total, total-append, total-remove_seq}
use nano_vllm_qos.Scheduler.{Scheduler, PendingRestore, RestoreService, add, tick}
use nano_vllm_qos.Scheduler.Cancel.{
  find_pending, remove_pending, put_pending, take_out, cancel_taken, cancel, forget_plans,
  cancel_transfer,
}
use nano_vllm_qos.Scheduler.Restores.{complete_remote_restore, fail_remote_restore}
use nano_vllm_qos.Scheduler.Sound.{
  IsSound, IsSound-move, everyone, table_of, is_named, total_pending, total-remove_pending,
  hand-Accounts, hand_over, take_waiting, take_running,
}

find_pending-named :
    {F : Type 0} (i : ℕ) (ps : List (PendingRestore F)) (p : PendingRestore F)
    → find_pending i ps ≡ some p
    → p.sequence.seq_id ≡ i
unfolding find_pending
find_pending-named i [] q e = absurd (ground arith)
find_pending-named i (p ∷ ps) q e = ground (arith, find_pending-named i ps q)

-- Another state of the same request, which holds the same pages.
abbrev pub Alike : {F : Type 0} → Sequence F → Sequence F → Type 0
Alike s s' = (s'.block_table ≡ s.block_table) × (s'.seq_id ≡ s.seq_id)

empty-table : (xs : List ℕ) → is_empty xs ≡ true → xs ≡ []
empty-table [] e = refl
empty-table (x ∷ xs) e = absurd (ground arith)

module _ {F I : Type 0} where
  pub Accounts-Alike :
      (m : BlockManager I) (s s' : Sequence F) (others : ℕ → ℕ)
      → Alike s s'
      → Accounts m s others
      → Accounts m s' others
  Accounts-Alike m s s' others same a = record {
    consistent = a.consistent;
    counted = λ b. rw same.0 (a.counted b);
  }

  -- What is released holds no page any more.
  pub deallocate-Frees :
      (m : BlockManager I) (s : Sequence F) → Ensures (λ r. r.1.block_table ≡ []) (deallocate m s)
  unfolding deallocate
  deallocate-Frees m s =
      Ensures-bind (release_all (forget_resume m s) (reverse s.block_table)) _
        (λ m' e. Ensures-pure refl)

  abort_restore-Frees :
      (m : BlockManager I) (s : Sequence F)
      → Ensures (λ r. r.1.block_table ≡ []) (abort_restore m s)
  unfolding abort_restore
  abort_restore-Frees m s =
      Ensures-if (is_empty s.block_table) _ _ (λ e. Ensures-pure (empty-table s.block_table e))
        (λ _. deallocate-Frees m s)

cancel-Alike : {F : Type 0} (s : Sequence F) (now : F) → Alike s (Sequence.cancel s now)
unfolding Sequence.cancel
cancel-Alike s now = (ground arith, ground arith)

module _ (S : Scalar) (s : Sequence S.F) (now : S.F) where
  pub begin-Alike : Ensures (Alike s) (begin_remote_restore s now)
  unfolding begin_remote_restore
  begin-Alike =
      Ensures-bind (guard (is_waiting s.status) Error.runtime_error) _
        (λ _ _. Ensures-pure (refl, refl))

  finish-Alike : (n : ℕ) → Ensures (Alike s) (finish_remote_restore S s now n)
  unfolding finish_remote_restore
  finish-Alike n = Ensures-bind (guard (is_waiting_for_kv s.status) Error.runtime_error) _ (λ _ _.
      Ensures-bind (guard (ltb 0 n) Error.value_error) _
        (λ _ _. Ensures-bind (waited S s now) _ (λ _ _. Ensures-pure (refl, refl))))

  pub fail-Alike : (error : String) → Ensures (Alike s) (Restore.fail_remote_restore S s now error)
  unfolding Restore.fail_remote_restore
  fail-Alike error =
      Ensures-bind (guard (is_waiting_for_kv s.status) Error.runtime_error) _
        (λ _ _. Ensures-bind (waited S s now) _ (λ _ _. Ensures-pure (refl, refl)))

-- A request that is nowhere pending joins the pending restores.
pub total-put_pending :
    {F : Type 0} (w : Sequence F → ℕ) (q : PendingRestore F) (ps : List (PendingRestore F))
    → total_pending (is_named q.sequence.seq_id) ps ≡ 0
    → total_pending w (put_pending q ps) ≡ w q.sequence + total_pending w ps
unfolding total_pending put_pending
total-put_pending w q [] h = refl
total-put_pending w q (p ∷ ps) h = ground (arith, total-put_pending w q ps)

module _ {F : Type 0} (R : RestoreService F) {I : Type 0} where
  -- `s` is the request with number `i`, and `m'` has all the others, and what they have.
  abbrev pub Without : Scheduler F I R.Service → ℕ → Sequence F → Scheduler F I R.Service → Type 0
  Without m i s m' =
      (s.seq_id ≡ i) × ((w : Sequence F → ℕ) → everyone w m [] ≡ w s + everyone w m' [])

  abbrev Taken :
      Scheduler F I R.Service → ℕ → Option (Sequence F × Scheduler F I R.Service) → Type 0
  Taken m i none = Unit {0}
  Taken m i (some (s, m')) = IsSound m' (s ∷ []) × Without m i s m'

  -- The request that is taken out is in hand.
  take_out-Taken : (m : Scheduler F I R.Service) (i : ℕ) → IsSound m [] → Taken m i (take_out R m i)
  unfolding take_out total total_pending
  take_out-Taken m i h = elim (Option-cases (find_seq i m.waiting)) [
    | inr (s, e) ↦
        rw (e, take_out)
          (
            take_waiting m [] i s e h,
            (find_seq-id i m.waiting s e, λ w. omega (arith, total-remove_seq w i m.waiting s e)),
          )
    | inl e ↦
        rw (e, take_out)
          (elim (Option-cases (find_seq i m.running)) [
            | inr (s, f) ↦
                rw (f, take_out)
                  (
                    take_running m [] i s f h,
                    (
                      find_seq-id i m.running s f,
                      λ w. omega (arith, total-remove_seq w i m.running s f),
                    ),
                  )
            | inl f ↦
                rw (f, take_out)
                  (elim (Option-cases (find_pending i m.pending_restores)) [
                    | inr (p, g) ↦
                        rw (g, take_out)
                          (
                            IsSound-move m _ [] (p.sequence ∷ []) h refl (λ w.
                                omega (arith, total-remove_pending w i m.pending_restores p g)),
                            (
                              find_pending-named i m.pending_restores p g,
                              λ w. omega (arith, total-remove_pending w i m.pending_restores p g),
                            ),
                          )
                    | inl g ↦ rw (g, take_out) tt
                  ])
          ])
  ]

  -- A request is cancelled whole: afterwards it holds no page, and the queues have all the others,
  -- as they were.
  abbrev Dropped :
      Scheduler F I R.Service → ℕ → Scheduler F I R.Service × Option (Sequence F) → Type 0
  Dropped m i (m', none) = Unit {0}
  Dropped m i (m', some s) =
      IsSound m' [] × (s.block_table ≡ []) × (s.seq_id ≡ i) × ((t : Sequence F) × Without m i t m')

  cancel_taken-Keeps :
      (clock : ℕ → F) (m : Scheduler F I R.Service) (s : Sequence F) (i : ℕ)
      → IsSound m (s ∷ [])
      → Ensures
          (λ r.
            IsSound r.0 []
            × (r.1.block_table ≡ [])
            × (r.1.seq_id ≡ s.seq_id)
            × ((w : Sequence F → ℕ) → everyone w r.0 [] ≡ everyone w m []))
          (cancel_taken R clock m s i)
  unfolding cancel_taken total count
  cancel_taken-Keeps clock m s i h =
      let others : ℕ → ℕ = λ b. everyone (table_of b) m [] in
      let plans = forget_plans R m.block_manager i in
      Ensures-then _ (abort_restore plans s) _
        (Ensures-and (abort_restore plans s)
          (abort_restore-Keeps plans s others
            (Accounts-same s others refl refl refl (hand-Accounts m [] s h)))
          (abort_restore-Frees plans s))
        (λ r k. Ensures-pure (
          record {
            consistent = k.0.0.consistent;
            refs = λ b. let c = k.0.0.counted b in omega (arith, c, ap (count b) k.1);
            distinct = λ j. let d = h.distinct j in omega (arith, d);
          },
          (cancel-Alike (record (r.1) { num_scheduled_tokens = 0 }) (clock m.ticks)).0 ∙ k.1,
          (cancel-Alike (record (r.1) { num_scheduled_tokens = 0 }) (clock m.ticks)).1 ∙ k.0.1,
          λ w. refl,
        ))

  cancel-Keeps :
      (clock : ℕ → F) (m : Scheduler F I R.Service) (i : ℕ)
      → IsSound m []
      → Ensures (Dropped m i) (cancel R clock m i)
  unfolding cancel
  cancel-Keeps clock m i h = elim (Option-cases (take_out R m i)) [
    | inl e ↦ rw (e, cancel) (Ensures-pure tt)
    | inr (t, e) ↦
        let (held, (named, parts)) = subst (Taken m i) e (take_out-Taken m i h) in
        rw (e, cancel)
          (Ensures-then _ (cancel_taken R clock t.1 t.0 i) _
            (cancel_taken-Keeps clock t.1 t.0 i held)
            (λ r k.
              Ensures-pure
                (k.0, k.1, k.2 ∙ named, (t.0, (named, λ w. omega (arith, parts w, k.3 w))))))
  ]

module _ (S : Scalar) (P : PrefixIndex) (R : RestoreService S.F) (xxh64 : List ℕ → ℕ)
    (clock : ℕ → S.F) (m : Scheduler S.F P.Index R.Service) where
  -- The request of a pending restore, in hand.
  abbrev unpended : ℕ → Scheduler S.F P.Index R.Service
  unpended i = record m { pending_restores = remove_pending i m.pending_restores }

  -- The failed request waits first, over the given pool.
  abbrev requeued : ℕ → BlockManager P.Index → Sequence S.F → Scheduler S.F P.Index R.Service
  requeued i blocks s = record (tick m) {
    block_manager = blocks;
    pending_restores = remove_pending i m.pending_restores;
    remote_restore_service = cancel_transfer R m.remote_restore_service i;
    waiting = s ∷ m.waiting;
    counters = record (m.counters) { remote_restore_failed = m.counters.remote_restore_failed + 1 };
  }

  take_pending :
      (i : ℕ) (p : PendingRestore S.F)
      → find_pending i m.pending_restores ≡ some p
      → IsSound m []
      → IsSound (unpended i) (p.sequence ∷ [])
  unfolding total
  take_pending i p e h =
      IsSound-move m (unpended i) [] (p.sequence ∷ []) h refl
        (λ w. omega (arith, total-remove_pending w i m.pending_restores p e))

  -- The request `s` with number `i`, which waits first now and without pages, was the pending one of
  -- `p`, whose references to the pool are given back; all else is where it was.
  abbrev pub Requeued :
      ℕ → PendingRestore S.F → Sequence S.F → Scheduler S.F P.Index R.Service → Type 0
  Requeued i p s m' =
      (find_pending i m.pending_restores ≡ some p)
      × (s.seq_id ≡ i)
      × (s.block_table ≡ [])
      × (m'.waiting ≡ s ∷ m.waiting)
      × (m'.running ≡ m.running)
      × (m'.pending_restores ≡ remove_pending i m.pending_restores)
      × ((b : ℕ)
          → ref_of m.block_manager.blocks b
            ≡ ref_of m'.block_manager.blocks b + count b p.sequence.block_table)

  -- What the queues say of the references.
  given_back :
      (i : ℕ) (p : PendingRestore S.F) (s : Sequence S.F) (m' : Scheduler S.F P.Index R.Service)
      → IsSound m []
      → IsSound m' []
      → find_pending i m.pending_restores ≡ some p
      → s.block_table ≡ []
      → ((w : Sequence S.F → ℕ) → everyone w m' [] ≡ w s + everyone w (unpended i) [])
      → (b : ℕ)
      → ref_of m.block_manager.blocks b
        ≡ ref_of m'.block_manager.blocks b + count b p.sequence.block_table
  unfolding total count
  given_back i p s m' h h' found bare queues b = omega (
    arith,
    h.refs b,
    h'.refs b,
    ap (count b) bare,
    queues (table_of b),
    total-remove_pending (table_of b) i m.pending_restores p found,
  )

  fail_remote_restore-Keeps :
      (i : ℕ) (error : String)
      → IsSound m []
      → Ensures
          (λ m'.
            IsSound m' [] × ((p : PendingRestore S.F) × (s : Sequence S.F) × Requeued i p s m'))
          (fail_remote_restore S P R xxh64 clock m i error)
  unfolding fail_remote_restore total
  fail_remote_restore-Keeps i error h =
      let others : ℕ → ℕ = λ b. everyone (table_of b) (unpended i) [] in
      Ensures-bind (or_raise (find_pending i m.pending_restores) Error.key_error) _ (λ p e.
        let found = or_raise-some (find_pending i m.pending_restores) Error.key_error e in
        let room = take_pending i p found h in
        let a = hand-Accounts (unpended i) [] p.sequence room in
        Ensures-then _ (abort_restore m.block_manager p.sequence) _
          (Ensures-and (abort_restore m.block_manager p.sequence)
            (abort_restore-Keeps m.block_manager p.sequence others a)
            (abort_restore-Frees m.block_manager p.sequence))
          (λ r k.
            Ensures-then _ (Restore.fail_remote_restore S r.1 (clock m.ticks) error) _
              (fail-Alike S r.1 (clock m.ticks) error)
              (λ s' same. Ensures-pure (
                let named : s'.seq_id ≡ p.sequence.seq_id = same.1 ∙ k.0.1 in
                let bare : s'.block_table ≡ [] = same.0 ∙ k.1 in
                let sound =
                  hand_over (unpended i) (requeued i r.0 s') [] [] p.sequence s' room
                    (λ w. omega arith) (Accounts-Alike r.0 r.1 s' others same k.0.0) named in
                (
                  sound,
                  (
                    p,
                    s',
                    (
                      found,
                      named ∙ find_pending-named i m.pending_restores p found,
                      bare,
                      refl,
                      refl,
                      refl,
                      given_back i p s' (requeued i r.0 s') h sound found bare (λ w. omega arith),
                    ),
                  ),
                )))))

  pub complete_remote_restore-Keeps :
      (i : ℕ)
      → IsSound m []
      → Ensures (λ m'. IsSound m' []) (complete_remote_restore S P R xxh64 clock m i)
  unfolding complete_remote_restore total
  complete_remote_restore-Keeps i h =
      let others : ℕ → ℕ = λ b. everyone (table_of b) (unpended i) [] in
      Ensures-bind (or_raise (find_pending i m.pending_restores) Error.key_error) _ (λ p e.
        let found = or_raise-some (find_pending i m.pending_restores) Error.key_error e in
        let room = take_pending i p found h in
        let a = hand-Accounts (unpended i) [] p.sequence room in
        Ensures-then _
          (commit_restored_prefix P xxh64 m.block_manager p.sequence p.total_cached_blocks) _
          (commit_restored_prefix-Keeps P xxh64 m.block_manager p.sequence others a _)
          (λ r k.
            Ensures-then _
              (finish_remote_restore S r.1 (clock m.ticks)
                (p.restored_blocks * m.options.block_size))
              _ (finish-Alike S r.1 (clock m.ticks) _)
              (λ s' same. Ensures-pure (
                hand_over (unpended i) _ [] [] p.sequence s' room
                  (λ w. omega (arith, total-append w m.waiting (s' ∷ [])))
                  (Accounts-Alike r.0 r.1 s' others same k.0) (omega (arith, same.1, k.1))))))

  -- If the scheduler is sound, and the failure of a remote restore has been handled, it is sound
  -- afterwards. The request of the pending restore with that number is the first of the waiting ones,
  -- holds no page, and every reference that it had to a block has been given back; the other waiting
  -- requests, the running ones and the other pending restores are what they were.
  pub fail_remote_restore-IsSound :
      (i : ℕ) (error : String) (m' : Scheduler S.F P.Index R.Service)
      → IsSound m []
      → fail_remote_restore S P R xxh64 clock m i error ≡ ok m'
      → IsSound m' [] × ((p : PendingRestore S.F) × (s : Sequence S.F) × Requeued i p s m')
  fail_remote_restore-IsSound i error m' h e = (fail_remote_restore-Keeps i error h).at _ e

  -- If the scheduler is sound, and a remote restore has been completed, it is sound afterwards.
  pub complete_remote_restore-IsSound :
      (i : ℕ) (m' : Scheduler S.F P.Index R.Service)
      → IsSound m []
      → complete_remote_restore S P R xxh64 clock m i ≡ ok m'
      → IsSound m' []
  complete_remote_restore-IsSound i m' h e = (complete_remote_restore-Keeps i h).at _ e

-- If the scheduler is sound and `cancel` finds the request, then the scheduler is sound without it:
-- the request that `cancel` returns has the number and holds no page, no queue has a request with that
-- number any more, and the queues have all that they had but one request `t`, which had the number.
pub cancel-IsSound :
    {F : Type 0} (R : RestoreService F) {I : Type 0} (clock : ℕ → F)
    (m m' : Scheduler F I R.Service) (i : ℕ) (s : Sequence F)
    → IsSound m []
    → cancel R clock m i ≡ ok (m', some s)
    → IsSound m' []
      × (s.block_table ≡ [])
      × (s.seq_id ≡ i)
      × (everyone (is_named i) m' [] ≡ 0)
      × ((t : Sequence F) × (t.seq_id ≡ i)
          × ((w : Sequence F → ℕ) → everyone w m [] ≡ w t + everyone w m' []))
cancel-IsSound R clock m m' i s h e =
    let (sound, bare, same, (t, (named, parts))) = (cancel-Keeps R clock m i h).at _ e in
    let one : is_named i t ≡ 1 = ground (arith, named) in
    let k = h.distinct i in
    let p = parts (is_named i) in (sound, bare, same, omega (arith, k, p, one), (t, named, parts))

-- A request without pages and with a new number keeps the account.
add-Keeps :
    {F I V : Type 0} (clock : ℕ → F) (m : Scheduler F I V) (s : Sequence F)
    → IsSound m []
    → everyone (is_named s.seq_id) m [] ≡ 0
    → s.block_table ≡ []
    → IsSound (add clock m s) []
unfolding add mark_arrived total count
add-Keeps clock m s h fresh bare = record {
  consistent = h.consistent;
  refs = λ b. omega (
    arith,
    h.refs b,
    total-append (table_of b) m.waiting (mark_arrived s m.step_id (clock m.ticks) ∷ []),
    ap (count b) bare,
  );
  distinct = λ i.
      let k = h.distinct i in
      let more =
        total-append (is_named i) m.waiting (mark_arrived s m.step_id (clock m.ticks) ∷ []) in
      elim (Bool-cases (s.seq_id == i)) [
        | inl e ↦
            let same : s.seq_id ≡ i = ground (arith, e) in
            let none_yet : everyone (is_named i) m [] ≡ 0 =
              subst (λ j. everyone (is_named j) m [] ≡ 0) same fresh in
            let one : is_named i s ≡ 1 = rw e refl in omega (arith, none_yet, more, one)
        | inr e ↦ let zero_more : is_named i s ≡ 0 = rw e refl in omega (arith, k, more, zero_more)
      ];
}

add-once :
    {F I V : Type 0} (clock : ℕ → F) (m : Scheduler F I V) (s : Sequence F)
    → everyone (is_named s.seq_id) m [] ≡ 0
    → everyone (is_named s.seq_id) (add clock m s) [] ≡ 1
unfolding add mark_arrived total
add-once clock m s fresh =
    let one : is_named s.seq_id s ≡ 1 = ground arith in
    omega (
      arith,
      fresh,
      one,
      total-append (is_named s.seq_id) m.waiting (mark_arrived s m.step_id (clock m.ticks) ∷ []),
    )

-- A request that holds no page, with a number that no other has, can be added to a sound scheduler:
-- it is then the last of the waiting ones, the only one with its number, and the others are where
-- they were.
pub add-IsSound :
    {F I V : Type 0} (clock : ℕ → F) (m : Scheduler F I V) (s : Sequence F)
    → IsSound m []
    → everyone (is_named s.seq_id) m [] ≡ 0
    → s.block_table ≡ []
    → let m' = add clock m s in
      IsSound m' []
      × (everyone (is_named s.seq_id) m' [] ≡ 1)
      × (m'.waiting ≡ m.waiting ++ mark_arrived s m.step_id (clock m.ticks) ∷ [])
      × (m'.running ≡ m.running)
      × (m'.pending_restores ≡ m.pending_restores)
unfolding add
add-IsSound clock m s h fresh bare =
    (add-Keeps clock m s h fresh bare, add-once clock m s fresh, refl, refl, refl)
