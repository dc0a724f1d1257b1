-- ===== src/Scheduler/Stepping.antt =====
-- The prefill phase, and with it a whole step of the scheduler, keeps the account of the scheduler.
use nano_vllm_qos.Prelude.{
  ℕ, zero, suc, ◌+◌, ◌-◌, ◌≡◌, Bool, true, false, not, ◌&&◌, Option, none, some, List, [], ok,
  Error, or_raise, ◌>>=◌, ltb, length, ◌==◌, Bool-cases, Option-cases, inl, inr,
}
use nano_vllm_qos.Prelude.Ensures.{
  Ensures, Ensures-pure, Ensures-bind, Ensures-then, Ensures-raise, or_raise-some,
}
use nano_vllm_qos.Scalar.{Scalar}
use nano_vllm_qos.Sequence.{Sequence}
use nano_vllm_qos.BlockManager.{PrefixIndex}
use nano_vllm_qos.Policy.Select.{should_schedule_prefill}
use nano_vllm_qos.Queues.{find_seq, has_table, no_seqs}
use nano_vllm_qos.Scheduler.{Scheduler, RestoreService, policy}
use nano_vllm_qos.Scheduler.Prefill.{
  Prefilling, Turn, again, stop, make_room, proceed, choose_waiting, eligible, prefill_round,
  prefill_loop,
}
use nano_vllm_qos.Scheduler.Resumes.{itself, ensure_resume_capacity-Keeps, Roomy}
use nano_vllm_qos.Scheduler.Room.{ensure_resume_capacity}
use nano_vllm_qos.Scheduler.Sound.{IsSound}
use nano_vllm_qos.Scheduler.{tick}
use nano_vllm_qos.Scheduler.Batch.{decode_phase-Keeps}
use nano_vllm_qos.Scheduler.Prefill.{no_ids}
use nano_vllm_qos.Scheduler.Step.{
  start_prefill, prefill_rounds, prefill_phase, schedule_once, schedule,
}
use nano_vllm_qos.Scheduler.Admits.{
  Ready, continue_resident-Keeps, start_new-Keeps, choose_waiting-Keeps,
}

module _ (S : Scalar) (P : PrefixIndex) (R : RestoreService S.F) (xxh64 : List ℕ → ℕ)
    (clock : ℕ → S.F) where
  pub make_room-Keeps :
      (m : Scheduler S.F P.Index R.Service) (now : S.F) (s : Sequence S.F)
      → IsSound m []
      → Ensures (λ r. IsSound r.0 []) (make_room S P R xxh64 clock m now s)
  unfolding make_room
  make_room-Keeps m now s h = elim (Bool-cases (has_table s)) [
    | inr bare ↦ rw (bare, make_room) (Ensures-pure h)
    | inl held ↦
        rw (held, make_room)
          (Ensures-then _
            (ensure_resume_capacity S P xxh64 (suc (suc (length m.waiting))) m now s.seq_id) _
            (ensure_resume_capacity-Keeps S P xxh64 (suc (suc (length m.waiting))) m now s.seq_id h)
            (λ done k. roomy done k))
  ]
    where
      roomy :
          (done : Option (Scheduler S.F P.Index R.Service × Bool))
          → Roomy S P xxh64 done
          → Ensures (λ r. IsSound r.0 []) (or_raise done Error.out_of_rounds)
      roomy none k = Ensures-raise
      roomy (some r) k = Ensures-pure k

  proceed-Keeps :
      (t : Prefilling (Scheduler S.F P.Index R.Service)) (m : Scheduler S.F P.Index R.Service)
      (i : ℕ) (now : S.F) (remaining : ℕ)
      → IsSound m []
      → Ensures (Ready S P R xxh64 clock) (proceed S P R xxh64 clock t m i now remaining)
  unfolding proceed
  proceed-Keeps t m i now remaining h =
      Ensures-bind (or_raise (find_seq i m.waiting) Error.value_error) _ (λ s e.
        let found = or_raise-some (find_seq i m.waiting) Error.value_error e in
        let there = itself i m.waiting s found in
        elim (Bool-cases (has_table s)) [
          | inl held ↦
              rw held (continue_resident-Keeps S P R xxh64 clock t m s now remaining there h)
          | inr bare ↦ rw bare (start_new-Keeps S P R xxh64 clock t m s now remaining there h)
        ])

  pub prefill_round-Keeps :
      (now : S.F) (t : Prefilling (Scheduler S.F P.Index R.Service))
      → IsSound t.engine []
      → Ensures (Ready S P R xxh64 clock) (prefill_round S P R xxh64 clock now t)
  unfolding prefill_round
  prefill_round-Keeps now t h = Ensures-bind (eligible S P R xxh64 clock t now) _ (λ candidates _.
      elim (Option-cases candidates) [
        | inl e ↦ rw e (Ensures-pure h)
        | inr (ss, e) ↦ rw e (
            Ensures-then _ (choose_waiting S P R xxh64 clock t.engine now ss) _
              (choose_waiting-Keeps S P R xxh64 clock t.engine now ss h)
              (λ r k.
                elim (Bool-cases (r.0.options.max_num_batched_tokens - t.num_batched_tokens == 0)) [
                  | inl full ↦ rw full (Ensures-pure k.0)
                  | inr left ↦ rw left (
                      Ensures-then _ (make_room S P R xxh64 clock r.0 now r.1) _
                        (make_room-Keeps r.0 now r.1 k.0)
                        (λ q l. elim (Bool-cases q.1) [
                          | inr none_left ↦ rw none_left (Ensures-pure l)
                          | inl fits ↦ rw fits (proceed-Keeps t q.0 r.1.seq_id now _ l)
                        ]))
                ]))
      ])

  abbrev Loaded : Option (Prefilling (Scheduler S.F P.Index R.Service)) → Type 0
  Loaded none = Unit {0}
  Loaded (some t) = IsSound t.engine []

  prefill_loop-Keeps :
      (rounds : ℕ) (now : S.F) (t : Prefilling (Scheduler S.F P.Index R.Service))
      → IsSound t.engine []
      → Ensures Loaded (prefill_loop S P R xxh64 clock rounds now t)
  unfolding prefill_loop
  prefill_loop-Keeps zero now t h = Ensures-pure tt
  prefill_loop-Keeps (suc rounds) now t h =
      elim (Bool-cases (
        not (no_seqs t.engine.waiting) && ltb (length t.scheduled) t.engine.options.max_num_seqs)) [
          | inr e ↦ rw (e, prefill_loop) (Ensures-pure h)
          | inl e ↦
              rw (e, prefill_loop)
                (Ensures-then _ (prefill_round S P R xxh64 clock now t) _
                  (prefill_round-Keeps now t h)
                  (λ turn k. after_turn turn k (λ t' l. prefill_loop-Keeps rounds now t' l)))
        ]
    where
      after_turn :
          (turn : Turn (Scheduler S.F P.Index R.Service))
          → Ready S P R xxh64 clock turn
          → ((t' : Prefilling (Scheduler S.F P.Index R.Service))
              → IsSound t'.engine []
              → Ensures Loaded (prefill_loop S P R xxh64 clock rounds now t'))
          → Ensures Loaded (elim turn [
            | stop t' ↦ ok (some t')
            | again t' ↦ prefill_loop S P R xxh64 clock rounds now t'
          ])
      after_turn (stop t') k rest = Ensures-pure k
      after_turn (again t') k rest = rest t' k

  prefill_phase-Keeps :
      (due : Bool) (now : S.F) (m : Scheduler S.F P.Index R.Service)
      → IsSound m []
      → Ensures (λ r. IsSound r.0 []) (prefill_phase S P R xxh64 clock due now m)
  unfolding prefill_phase
  prefill_phase-Keeps false now m h = Ensures-pure h
  prefill_phase-Keeps true now m h =
      Ensures-then _
        (prefill_loop S P R xxh64 clock (prefill_rounds S P R xxh64 clock m) now
          (start_prefill S P R xxh64 clock m))
        _
        (prefill_loop-Keeps (prefill_rounds S P R xxh64 clock m) now
          (start_prefill S P R xxh64 clock m) h)
        (λ done k. loaded done k)
    where
      loaded :
          (done : Option (Prefilling (Scheduler S.F P.Index R.Service)))
          → Loaded done
          → Ensures
              (λ (r : Scheduler S.F P.Index R.Service × List ℕ). IsSound r.0 [])
              (or_raise done Error.out_of_rounds >>= λ t. ok (t.engine, t.scheduled))
      loaded none k = Ensures-raise
      loaded (some t) k = Ensures-pure k

  schedule_once-Keeps :
      (m : Scheduler S.F P.Index R.Service)
      → IsSound m []
      → Ensures (λ r. IsSound r.0 []) (schedule_once S P R xxh64 clock m)
  unfolding schedule_once
  schedule_once-Keeps m h =
      let m₁ = record (tick m) { step_id = m.step_id + 1 } in
      let sound : IsSound m₁ [] = record {
        consistent = h.consistent;
        refs = h.refs;
        distinct = h.distinct;
      } in
      Ensures-bind
        (should_schedule_prefill S (policy m₁) m.waiting m.running (m.step_id + 1) (clock m.ticks))
        _
        (λ due _.
          Ensures-then _ (prefill_phase S P R xxh64 clock due (clock m.ticks) m₁) _
            (prefill_phase-Keeps due (clock m.ticks) m₁ sound)
            (λ r k. elim (Bool-cases (no_ids r.1)) [
              | inr e ↦ rw e (Ensures-pure k)
              | inl e ↦ rw e (decode_phase-Keeps S P clock (clock m.ticks) r.0 k)
            ]))

  schedule-Keeps :
      (m : Scheduler S.F P.Index R.Service)
      → IsSound m []
      → Ensures (λ r. IsSound r.0 []) (schedule S P R xxh64 clock m)
  unfolding schedule
  schedule-Keeps m h =
      Ensures-then _ (schedule_once S P R xxh64 clock m) _ (schedule_once-Keeps m h) (λ r k.
        elim (Option-cases r.1) [
          | inr (batch, e) ↦ rw e (Ensures-pure k)
          | inl e ↦ rw e (
              Ensures-then _ (schedule_once S P R xxh64 clock r.0) _ (schedule_once-Keeps r.0 k)
                (λ q l.
                  Ensures-bind (or_raise q.1 Error.runtime_error) _ (λ batch _. Ensures-pure l)))
        ])

  -- If the scheduler is sound (its pool is consistent, the references of each page are those of the
  -- tables of the queued requests, and no two requests have the same number), and `schedule` returns
  -- a batch, then the scheduler is sound after the step, whatever was admitted, resumed, restored,
  -- reclaimed, compressed or preempted in it.
  pub schedule-IsSound :
      (m m' : Scheduler S.F P.Index R.Service) (batch : List ℕ) (is_prefill : Bool)
      → IsSound m []
      → schedule S P R xxh64 clock m ≡ ok (m', batch, is_prefill)
      → IsSound m' []
  schedule-IsSound m m' batch is_prefill h e = (schedule-Keeps m h).at _ e
