-- ===== src/Scheduler/Batch.antt =====
-- The decode phase keeps the account of the scheduler, and its loops come to an end.
use nano_vllm_qos.Prelude.{
  ℕ, zero, suc, ◌≤◌, ◌<◌, ◌≡◌, refl, Bool, false, not, ◌&&◌, Option, none, some, List, [], ◌∷◌,
  ◌++◌, ok, Error, or_raise, ◌>>=◌, arith, ltb, length, Bool-cases, inl, inr, ap, sym,
}
use nano_vllm_qos.Prelude.Ensures.{
  Ensures, Ensures-map, Ensures-pure, Ensures-raise, Ensures-if, Ensures-bind, Ensures-then,
  or_raise-some,
}
use nano_vllm_qos.Scalar.{Scalar}
use nano_vllm_qos.Sequence.{Sequence}
use nano_vllm_qos.BlockManager.{PrefixIndex}
use nano_vllm_qos.BlockManager.Keeps.{may_append-Keeps}
use nano_vllm_qos.BlockManager.Resume.{can_append, may_append}
use nano_vllm_qos.Policy.Select.{select, select_preemption_victim}
use nano_vllm_qos.Queues.{find_seq, remove_seq, no_seqs, total, total-append, length-remove_seq}
use nano_vllm_qos.Scheduler.{Scheduler, policy, with_running, with_blocks, policy_budget_ms}
use nano_vllm_qos.Scheduler.Preempt.{preempt, maybe_compress}
use nano_vllm_qos.Scheduler.Decode.{
  preempt_victim, append_room, take_next, join_batch, decode_round, decode_loop, settle,
  finish_decode, decode_phase, no_pending?,
}
use nano_vllm_qos.Scheduler.Sound.{
  IsSound, IsSound-move, everyone, table_of, hand-Accounts, hand_done, take_running,
}
use nano_vllm_qos.Scheduler.Hands.{preempt-Keeps, maybe_compress-Keeps}

module _ (S : Scalar) (P : PrefixIndex) (clock : ℕ → S.F) {V : Type 0} (now : S.F) where
  -- One request less is running.
  preempt_victim-Keeps :
      (m : Scheduler S.F P.Index V) (held : List (Sequence S.F))
      → IsSound m held
      → Ensures
          (λ m'. IsSound m' held × (suc (length m'.running) ≡ length m.running))
          (preempt_victim S P clock m now)
  unfolding preempt_victim
  preempt_victim-Keeps m held h =
      Ensures-bind (select_preemption_victim S (policy m) m.running m.step_id now) _ (λ choice _.
        Ensures-bind (or_raise choice Error.runtime_error) _ (λ victim _.
          Ensures-bind (or_raise (find_seq victim.seq_id m.running) Error.value_error) _ (λ s e.
            let found = or_raise-some (find_seq victim.seq_id m.running) Error.value_error e in
            let room = take_running m held victim.seq_id s found h in
            Ensures-map (preempt S clock (with_running m (remove_seq victim.seq_id m.running)) s)
              (preempt-Keeps S clock held _ s room)
              (λ m' k. (k.0, rw k.1 (sym (length-remove_seq victim.seq_id m.running s found)))))))

  -- What is in hand after room was made for the request.
  abbrev Made :
      ℕ → List (Sequence S.F) → Option (Scheduler S.F P.Index V × Option (Sequence S.F)) → Type 0
  Made n held none = ⊥
  Made n held (some (m', none)) = IsSound m' held × (length m'.running ≤ n)
  Made n held (some (m', some s')) = IsSound m' (s' ∷ held) × (length m'.running ≤ n)

  Made-mono :
      (n n' : ℕ) (held : List (Sequence S.F))
      → n ≤ n'
      → (r : Option (Scheduler S.F P.Index V × Option (Sequence S.F))) → Made n held r
      → Made n' held r
  Made-mono n n' held le none h = h
  Made-mono n n' held le (some (m', none)) h = (h.0, omega (arith, h.1))
  Made-mono n n' held le (some (m', some s')) h = (h.0, omega (arith, h.1))

  append_room-Keeps :
      (rounds : ℕ) (m : Scheduler S.F P.Index V) (held : List (Sequence S.F)) (s : Sequence S.F)
      → IsSound m (s ∷ held)
      → length m.running < rounds
      → Ensures (Made (length m.running) held) (append_room S P clock rounds now m s)
  unfolding append_room
  append_room-Keeps zero m held s h fuel = absurd (ground arith)
  append_room-Keeps (suc rounds) m held s h fuel =
      elim (Bool-cases (can_append P m.block_manager s)) [
        | inl e ↦ rw (e, append_room) (Ensures-pure (h, omega arith))
        | inr e ↦
            rw (e, append_room)
              (elim (Bool-cases (no_seqs m.running)) [
                | inl empty ↦
                    rw (empty, append_room)
                      (Ensures-then _ (preempt S clock m s) _ (preempt-Keeps S clock held m s h)
                        (λ m' k. Ensures-pure (k.0, omega (arith, ap length k.1))))
                | inr some_run ↦
                    rw (some_run, append_room)
                      (Ensures-then _ (preempt_victim S P clock m now) _
                        (preempt_victim-Keeps m (s ∷ held) h)
                        (λ m' k.
                          Ensures-map (append_room S P clock rounds now m' s)
                            (append_room-Keeps rounds m' held s k.0 (omega (arith, k.1)))
                            (Made-mono _ _ held (omega (arith, k.1)))))
              ])
      ]

  take_next-Keeps :
      (m : Scheduler S.F P.Index V) (held : List (Sequence S.F))
      → IsSound m held
      → Ensures
          (λ r. IsSound r.0 (r.1 ∷ held) × (suc (length r.0.running) ≡ length m.running))
          (take_next S P clock now m)
  unfolding take_next total
  take_next-Keeps m held h =
      Ensures-bind (select S (policy m) m.running m.step_id now) _ (λ picked _.
        Ensures-bind (or_raise (find_seq picked.seq_id m.running) Error.value_error) _ (λ s e.
          Ensures-bind (policy_budget_ms S m s now) _ (λ budget _.
            let found = or_raise-some (find_seq picked.seq_id m.running) Error.value_error e in
            let k = take_running m held picked.seq_id s found h in
            Ensures-pure (
              record { consistent = k.consistent; refs = k.refs; distinct = k.distinct },
              sym (length-remove_seq picked.seq_id m.running s found),
            ))))

  join_batch-Keeps :
      (m : Scheduler S.F P.Index V) (scheduled : List (Sequence S.F)) (s : Sequence S.F)
      → IsSound m (s ∷ scheduled)
      → Ensures
          (λ r. IsSound r.0 r.1 × (r.0.running ≡ m.running))
          (join_batch S P clock m scheduled s)
  unfolding join_batch total
  join_batch-Keeps m scheduled s h =
      let others : ℕ → ℕ = λ b. everyone (table_of b) m scheduled in
      let a = hand-Accounts m scheduled s h in
      Ensures-then _
        (may_append P m.block_manager (record s { num_scheduled_tokens = 1; is_prefill = false })) _
        (may_append-Keeps P m.block_manager
          (record s { num_scheduled_tokens = 1; is_prefill = false }) others
          (record { consistent = a.consistent; counted = a.counted }))
        (λ r k. Ensures-pure (
          IsSound-move _ _ (r.1 ∷ scheduled) (scheduled ++ r.1 ∷ [])
              (hand_done m (with_blocks m r.0) scheduled s r.1 h (λ w. refl) k.0 k.1) refl
              (λ w. omega (arith, total-append w scheduled (r.1 ∷ []))),
          refl,
        ))

  abbrev Next : ℕ → Option (Scheduler S.F P.Index V × List (Sequence S.F) × Bool) → Type 0
  Next n none = ⊥
  Next n (some (m', scheduled', retry')) = IsSound m' scheduled' × (length m'.running < n)

  settle-Keeps :
      (n n' : ℕ) (scheduled : List (Sequence S.F)) (retry : Bool)
      → n < n'
      → (room : Option (Scheduler S.F P.Index V × Option (Sequence S.F))) → Made n scheduled room
      → Ensures (Next n') (settle S P clock scheduled retry room)
  unfolding settle
  settle-Keeps n n' scheduled retry lt none made = absurd made
  settle-Keeps n n' scheduled retry lt (some (m, none)) made =
      Ensures-pure (made.0, omega (arith, made.1))
  settle-Keeps n n' scheduled retry lt (some (m, some s)) made =
      Ensures-then _ (join_batch S P clock m scheduled s) _ (join_batch-Keeps m scheduled s made.0)
        (λ r k. Ensures-pure (k.0, omega (arith, made.1, ap length k.1)))

  decode_round-Keeps :
      (m : Scheduler S.F P.Index V) (scheduled : List (Sequence S.F)) (retry : Bool)
      → IsSound m scheduled
      → Ensures (Next (length m.running)) (decode_round S P clock now m scheduled retry)
  unfolding decode_round
  decode_round-Keeps m scheduled retry h =
      Ensures-then _ (take_next S P clock now m) _ (take_next-Keeps m scheduled h) (λ r k.
        Ensures-then _ (maybe_compress S r.0 r.1) _ (maybe_compress-Keeps S r.0 scheduled r.1 k.0)
          (λ c q.
            Ensures-then _ (append_room S P clock (suc (length c.0.running)) now c.0 c.1) _
              (append_room-Keeps (suc (length c.0.running)) c.0 scheduled c.1 q.0 (omega arith))
              (λ room made.
                settle-Keeps _ _ scheduled retry (omega (arith, k.1, ap length q.2)) room made)))

  -- With more rounds than requests running, the loop ends, and everything has an account.
  abbrev pub Ended : Option (Scheduler S.F P.Index V × List (Sequence S.F) × Bool) → Type 0
  Ended none = ⊥
  Ended (some (m', scheduled', retry')) = IsSound m' scheduled'

  pub decode_loop-Keeps :
      (rounds : ℕ) (m : Scheduler S.F P.Index V) (scheduled : List (Sequence S.F)) (retry : Bool)
      → IsSound m scheduled
      → length m.running < rounds
      → Ensures Ended (decode_loop S P clock rounds now m scheduled retry)
  unfolding decode_loop
  decode_loop-Keeps zero m scheduled retry h fuel = absurd (ground arith)
  decode_loop-Keeps (suc rounds) m scheduled retry h fuel =
      elim (Bool-cases (not (no_seqs m.running) && ltb (length scheduled) m.options.max_num_seqs)) [
        | inr e ↦ rw (e, decode_loop) (Ensures-pure h)
        | inl e ↦
            rw (e, decode_loop)
              (Ensures-then _ (decode_round S P clock now m scheduled retry) _
                (decode_round-Keeps m scheduled retry h)
                (λ after next. continue_loop after next (λ m' scheduled' retry' k less.
                  decode_loop-Keeps rounds m' scheduled' retry' k (omega (arith, less)))))
      ]
    where
      continue_loop :
          (after : Option (Scheduler S.F P.Index V × List (Sequence S.F) × Bool))
          → Next (length m.running) after
          → ((m' : Scheduler S.F P.Index V)
              → (scheduled' : List (Sequence S.F)) → (retry' : Bool) → IsSound m' scheduled'
              → length m'.running < length m.running
              → Ensures Ended (decode_loop S P clock rounds now m' scheduled' retry'))
          → Ensures Ended (elim after [
            | none ↦ ok none
            | some (m', scheduled', retry') ↦ decode_loop S P clock rounds now m' scheduled' retry'
          ])
      continue_loop none next rest = absurd next
      continue_loop (some (m', scheduled', retry')) next rest =
          rest m' scheduled' retry' next.0 next.1

  pub finish_decode-Keeps :
      (m : Scheduler S.F P.Index V) (scheduled : List (Sequence S.F)) (retry : Bool)
      → IsSound m scheduled
      → Ensures (λ r. IsSound r.0 []) (finish_decode S P clock m scheduled retry)
  unfolding finish_decode total
  finish_decode-Keeps m [] retry h =
      Ensures-if (no_pending? S P clock m) _ _
        (λ _. Ensures-if retry _ _ (λ _. Ensures-pure h) (λ _. Ensures-raise)) (λ _. Ensures-pure h)
  finish_decode-Keeps m (s ∷ ss) retry h = Ensures-pure (
      IsSound-move m (with_running m ((s ∷ ss) ++ m.running)) (s ∷ ss) [] h refl
        (λ w. omega (arith, total-append w (s ∷ ss) m.running)))

  -- The phase ends within its rounds: it never answers that they ran out.
  pub decode_phase-Keeps :
      (m : Scheduler S.F P.Index V)
      → IsSound m []
      → Ensures (λ r. IsSound r.0 []) (decode_phase S P clock now m)
  unfolding decode_phase
  decode_phase-Keeps m h =
      Ensures-then _ (decode_loop S P clock (suc (length m.running)) now m [] false) _
        (decode_loop-Keeps (suc (length m.running)) m [] false h (omega arith))
        (λ done ended. ended_phase done ended)
    where
      ended_phase :
          (done : Option (Scheduler S.F P.Index V × List (Sequence S.F) × Bool))
          → Ended done
          → Ensures
              (λ r. IsSound r.0 [])
              (or_raise done Error.out_of_rounds >>= λ r. finish_decode S P clock r.0 r.1 r.2)
      ended_phase none ended = absurd ended
      ended_phase (some (m', scheduled, retry)) ended = finish_decode-Keeps m' scheduled retry ended

  -- If the scheduler is sound (the references of each page are those of the tables of the queued
  -- requests), and the decode phase returns, then it is sound after the phase.
  pub decode_phase-IsSound :
      (m m' : Scheduler S.F P.Index V) (answer : Option (List ℕ × Bool))
      → IsSound m []
      → decode_phase S P clock now m ≡ ok (m', answer)
      → IsSound m' []
  decode_phase-IsSound m m' answer h e = (decode_phase-Keeps m h).at _ e

  -- On a sound scheduler, with more rounds than requests running, the decode loop never answers that
  -- its rounds ran out.
  pub decode_loop-returns :
      (rounds : ℕ) (m : Scheduler S.F P.Index V) (scheduled : List (Sequence S.F)) (retry : Bool)
      → IsSound m scheduled
      → length m.running < rounds
      → ¬ (decode_loop S P clock rounds now m scheduled retry ≡ ok none)
  decode_loop-returns rounds m scheduled retry h enough e =
      (decode_loop-Keeps rounds m scheduled retry h enough).at none e
