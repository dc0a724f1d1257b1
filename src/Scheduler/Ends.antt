-- ===== src/Scheduler/Ends.antt =====
-- nanovllm/engine/scheduler.py: the prefill loop of `_schedule_once` ends within its rounds.
use nano_vllm_qos.Prelude.{
  ℕ, zero, suc, ◌-◌, ◌<◌, ◌≡◌, refl, Bool, true, false, not, ◌&&◌, Option, none, some, List, [], ok,
  Error, or_raise, arith, ◌==◌, ltb, elem, length, Bool-cases, inl, inr, ap, sym, subst, ◌∙◌, ◌>>=◌,
}
use nano_vllm_qos.Prelude.Ensures.{
  Ensures, Ensures-and, Ensures-pure, Ensures-bind, Ensures-then, or_raise-some,
}
use nano_vllm_qos.Scalar.{Scalar}
use nano_vllm_qos.Sequence.{Sequence}
use nano_vllm_qos.BlockManager.{PrefixIndex}
use nano_vllm_qos.Policy.Select.{All, select}
use nano_vllm_qos.Queues.{find_seq, has_table, no_seqs, total, length-update_seq, total-update_seq}
use nano_vllm_qos.Scheduler.{RestoreService, policy, policy_budget_ms}
use nano_vllm_qos.Scheduler.Candidates.{Fit, AllOf, Machine, eligible-All, select-All}
use nano_vllm_qos.Scheduler.Step.{start_prefill, prefill_rounds}
use nano_vllm_qos.Scheduler.Enough.{ensure_resume_capacity-returns}
use nano_vllm_qos.Scheduler.Resumes.{itself}
use nano_vllm_qos.Scheduler.Admits.{Ready, choose_waiting-Keeps}
use nano_vllm_qos.Scheduler.Enough.{
  holds, Slack, Eased, holds-le, ensure_resume_capacity-Ended, Ended,
}
use nano_vllm_qos.Scheduler.Prefill.{
  Prefilling, Turn, again, stop, eligible, choose_waiting, make_room, proceed, prefill_round,
  prefill_loop,
}
use nano_vllm_qos.Scheduler.Progress.{proceed-Less}
use nano_vllm_qos.Scheduler.Room.{ensure_resume_capacity}
use nano_vllm_qos.Scheduler.Rounds.{Less, left, Slack-trans}
use nano_vllm_qos.Scheduler.Sound.{IsSound}
use nano_vllm_qos.Scheduler.Stepping.{make_room-Keeps, prefill_round-Keeps}

module _ (S : Scalar) (P : PrefixIndex) (R : RestoreService S.F) (xxh64 : List ℕ → ℕ)
    (clock : ℕ → S.F) where
  abbrev Engines : Type 0
  Engines = Machine S P R xxh64 clock

  -- What a round knows of the request that it has chosen.
  abbrev Chosen : Prefilling Engines → Engines × Sequence S.F → Type 0
  Chosen t (m, s) =
      Slack 0 t.engine m
      × (elem s.seq_id t.budget_deferred ≡ false)
      × (t.resident_progress_only ≡ true → has_table s ≡ true)

  choose_waiting-Chosen :
      (t : Prefilling Engines) (now : S.F) (ss : List (Sequence S.F))
      → All (Fit S P R xxh64 clock t) ss
      → Ensures (Chosen t) (choose_waiting S P R xxh64 clock t.engine now ss)
  unfolding choose_waiting
  choose_waiting-Chosen t now ss h =
      let m = t.engine in
      Ensures-then _ (select S (policy m) ss m.step_id now) _
        (select-All S (Fit S P R xxh64 clock t) (policy m) ss m.step_id now h)
        (λ picked fit.
          Ensures-bind (or_raise (find_seq picked.seq_id m.waiting) Error.value_error) _ (λ s e.
            Ensures-bind (policy_budget_ms S m s now) _ (λ budget _.
              let found = or_raise-some (find_seq picked.seq_id m.waiting) Error.value_error e in
              let same : picked ≡ s = ground (arith, found, fit.0) in
              let there = itself picked.seq_id m.waiting s found in
              let s' = record s { last_budget_ms = budget } in
              Ensures-pure (
                (
                  refl,
                  omega (arith, length-update_seq s' m.waiting),
                  omega (arith, total-update_seq holds s' m.waiting s there),
                ),
                subst (λ u. elem u.seq_id t.budget_deferred ≡ false) same fit.1,
                λ on. subst (λ u. has_table u ≡ true) same (fit.2 on),
              ))))

  make_room-Eased :
      (m : Engines) (now : S.F) (s : Sequence S.F)
      → IsSound m []
      → Ensures (λ r. Eased m r.0) (make_room S P R xxh64 clock m now s)
  unfolding make_room
  make_room-Eased m now s h = elim (Bool-cases (has_table s)) [
    | inr bare ↦ rw (bare, make_room) (Ensures-pure ((refl, omega arith, omega arith), inl refl))
    | inl held ↦
        rw (held, make_room)
          (Ensures-then _
            (ensure_resume_capacity S P xxh64 (suc (suc (length m.waiting))) m now s.seq_id) _
            (ensure_resume_capacity-Ended S P xxh64 (suc (suc (length m.waiting))) m now s.seq_id h
              (omega (arith, holds-le m.waiting)))
            (λ done k. roomy done k))
  ]
    where
      roomy :
          (done : Option (Engines × Bool))
          → Ended S P xxh64 m done
          → Ensures (λ r. Eased m r.0) (or_raise done Error.out_of_rounds)
      roomy none k = absurd k
      roomy (some r) k = Ensures-pure k

  -- Fewer requests hold pages where the chosen one has lost its own.
  lost_pages :
      (m m' : Engines) (s u : Sequence S.F)
      → find_seq s.seq_id m.waiting ≡ some s
      → Eased m m'
      → find_seq s.seq_id m'.waiting ≡ some u
      → has_table u ≡ false
      → has_table s ≡ true
      → total holds m'.waiting < total holds m.waiting
  lost_pages m m' s u there (slack, inr fewer) here bare held = fewer
  lost_pages m m' s u there (slack, inl same) here bare held =
      let also : find_seq s.seq_id m'.waiting ≡ some s = ap (find_seq s.seq_id) same ∙ there in
      let one : u ≡ s = ground (arith, here, also) in
      let holds_too : has_table u ≡ true = subst (λ x. has_table x ≡ true) (sym one) held in
      absurd (ground (arith, bare, holds_too))

  prefill_round-Less :
      (now : S.F) (t : Prefilling Engines)
      → IsSound t.engine []
      → length t.scheduled < t.engine.options.max_num_seqs
      → Ensures (Less S P R xxh64 clock t) (prefill_round S P R xxh64 clock now t)
  unfolding prefill_round
  prefill_round-Less now t h few =
      Ensures-then _ (eligible S P R xxh64 clock t now) _ (eligible-All S P R xxh64 clock t now h)
        (λ candidates k. turn candidates k)
    where
      at_end : Turn Engines → Type 0
      at_end = Less S P R xxh64 clock t

      turn :
          (candidates : Option (List (Sequence S.F)))
          → AllOf (Fit S P R xxh64 clock t) candidates
          → Ensures at_end (elim candidates [
            | none ↦ ok (stop t)
            | some ss ↦ choose_waiting S P R xxh64 clock t.engine now ss >>= λ r.
                let remaining = r.0.options.max_num_batched_tokens - t.num_batched_tokens in
                elim (remaining == 0) [
                  | true ↦ ok (stop (record t { engine = r.0 }))
                  | false ↦ make_room S P R xxh64 clock r.0 now r.1 >>= λ q. elim q.1 [
                    | false ↦ ok (stop (record t { engine = q.0 }))
                    | true ↦ proceed S P R xxh64 clock t q.0 r.1.seq_id now remaining
                  ]
                ]
          ])
      turn none k = Ensures-pure tt
      turn (some ss) k =
          Ensures-then _ (choose_waiting S P R xxh64 clock t.engine now ss) _
            (Ensures-and (choose_waiting S P R xxh64 clock t.engine now ss)
              (choose_waiting-Keeps S P R xxh64 clock t.engine now ss h)
              (choose_waiting-Chosen t now ss k))
            (λ r l.
              elim (Bool-cases (r.0.options.max_num_batched_tokens - t.num_batched_tokens == 0)) [
                | inl full ↦ rw full (Ensures-pure tt)
                | inr more ↦ rw more (
                    Ensures-then _ (make_room S P R xxh64 clock r.0 now r.1) _
                      (Ensures-and (make_room S P R xxh64 clock r.0 now r.1)
                        (make_room-Keeps S P R xxh64 clock r.0 now r.1 l.0.0)
                        (make_room-Eased r.0 now r.1 l.0.0))
                      (λ q n. elim (Bool-cases q.1) [
                        | inr none_left ↦ rw none_left (Ensures-pure tt)
                        | inl fits ↦ rw fits (
                            proceed-Less S P R xxh64 clock t few q.0 r.1.seq_id now _ n.0
                              (Slack-trans 0 0 t.engine r.0 q.0 l.1.0 n.1.0) l.1.1
                              (λ u here bare on.
                                let f = lost_pages r.0 q.0 r.1 u l.0.1 n.1 here bare (l.1.2 on) in
                                let g = l.1.0.2 in omega (arith, f, g)))
                      ]))
              ])

  abbrev Finished : Option (Prefilling Engines) → Type 0
  Finished none = ⊥
  Finished (some t) = Unit

  prefill_loop-Finished :
      (rounds : ℕ) (now : S.F) (t : Prefilling Engines)
      → IsSound t.engine []
      → left S P R xxh64 clock t < rounds
      → Ensures Finished (prefill_loop S P R xxh64 clock rounds now t)
  unfolding prefill_loop
  prefill_loop-Finished zero now t h fuel = absurd (omega arith)
  prefill_loop-Finished (suc rounds) now t h fuel =
      elim (Bool-cases (
        not (no_seqs t.engine.waiting) && ltb (length t.scheduled) t.engine.options.max_num_seqs)) [
          | inr e ↦ rw (e, prefill_loop) (Ensures-pure tt)
          | inl e ↦
              let few : length t.scheduled < t.engine.options.max_num_seqs = ground (arith, e) in
              rw (e, prefill_loop)
                (Ensures-then _ (prefill_round S P R xxh64 clock now t) _
                  (Ensures-and (prefill_round S P R xxh64 clock now t)
                    (prefill_round-Keeps S P R xxh64 clock now t h)
                    (prefill_round-Less now t h few))
                  (λ turn k. after_turn turn k.0 k.1 (λ t' l less.
                    prefill_loop-Finished rounds now t' l (omega (arith, less, fuel)))))
        ]
    where
      after_turn :
          (turn : Turn Engines)
          → Ready S P R xxh64 clock turn
          → Less S P R xxh64 clock t turn
          → ((t' : Prefilling Engines)
              → IsSound t'.engine []
              → left S P R xxh64 clock t' < left S P R xxh64 clock t
              → Ensures Finished (prefill_loop S P R xxh64 clock rounds now t'))
          → Ensures Finished (elim turn [
            | stop t' ↦ ok (some t')
            | again t' ↦ prefill_loop S P R xxh64 clock rounds now t'
          ])
      after_turn (stop t') k less rest = Ensures-pure tt
      after_turn (again t') k less rest = rest t' k less

  -- On a sound scheduler, the rounds that the prefill phase gives its loop, and the rounds that it
  -- gives the loop that makes room for a request that resumes, do not run out.
  pub prefill_loop-returns :
      (m : Engines) (now : S.F)
      → IsSound m []
      → ¬ (
          prefill_loop S P R xxh64 clock
            (prefill_rounds S P R xxh64 clock m)
            now
            (start_prefill S P R xxh64 clock m)
          ≡ ok none)
        × ((i : ℕ)
            → ¬ (ensure_resume_capacity S P xxh64 (suc (suc (length m.waiting))) m now i ≡ ok none))
  prefill_loop-returns m now h = (
    λ e.
        (prefill_loop-Finished (prefill_rounds S P R xxh64 clock m) now
            (start_prefill S P R xxh64 clock m) h (omega (arith, holds-le m.waiting))).at
          _ e,
    λ i.
        ensure_resume_capacity-returns S P xxh64 (suc (suc (length m.waiting))) m now i h
          (omega arith),
  )
