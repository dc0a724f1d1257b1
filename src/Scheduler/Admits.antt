-- ===== src/Scheduler/Admits.antt =====
-- A round of the prefill phase, for a request that has room, keeps the account of the scheduler.
use nano_vllm_qos.Prelude.{
  ℕ, ◌-◌, ◌*◌, ◌≡◌, refl, not, ◌&&◌, some, List, [], ◌∷◌, ◌++◌, Error, or_raise, arith, ltb, length,
  Bool-cases, Option-cases, inl, inr, ap, ◌∙◌,
}
use nano_vllm_qos.Prelude.Ensures.{
  Ensures, Ensures-pure, Ensures-if, Ensures-bind, Ensures-then, or_raise-some, if_both,
}
use nano_vllm_qos.Scalar.{Scalar}
use nano_vllm_qos.Sequence.{Sequence, SequenceStatus, record_reused_tokens, mark_scheduled}
use nano_vllm_qos.BlockManager.{PrefixIndex, set_add}
use nano_vllm_qos.BlockManager.Allocate.{can_allocate, allocate}
use nano_vllm_qos.BlockManager.Keeps.{resume-Keeps, allocate-Keeps, can_allocate-Keeps}
use nano_vllm_qos.BlockManager.Resume.{resume}
use nano_vllm_qos.Policy.Select.{select}
use nano_vllm_qos.Queues.{
  find_seq, remove_seq, update_seq, has_table, no_seqs, keep_seqs, total, total-append,
}
use nano_vllm_qos.Scheduler.{Scheduler, RestoreService, policy, with_blocks, policy_budget_ms}
use nano_vllm_qos.Scheduler.Launch.{start_remote_restore-Keeps}
use nano_vllm_qos.Scheduler.Prefill.{
  Prefilling, Turn, turn_state, placed, scheduled_part, enter, continue_resident, start_local,
  reserve_short, admit, start_new, blocked, defer, choose_waiting, does_not_fit, is_whole,
  lookahead, without_plan,
}
use nano_vllm_qos.Scheduler.Restores.{start_remote_restore}
use nano_vllm_qos.Scheduler.Resumes.{itself}
use nano_vllm_qos.Scheduler.Sound.{
  IsSound, hand-Accounts, hand_over, room, without, the_others, waiting_on, blocks_on,
}
use nano_vllm_qos.Scheduler.Transfers.{Alike, Accounts-Alike}

-- A request that was written back to the queue is found there.
find_seq-update_seq :
    {F : Type 0} (t : Sequence F) (ss : List (Sequence F)) (s : Sequence F)
    → find_seq t.seq_id ss ≡ some s
    → find_seq t.seq_id (update_seq t ss) ≡ some t
unfolding find_seq update_seq
find_seq-update_seq t [] s e = absurd (ground arith)
find_seq-update_seq t (x ∷ xs) s e = ground (arith, find_seq-update_seq t xs s)

module _ (S : Scalar) (P : PrefixIndex) (R : RestoreService S.F) (xxh64 : List ℕ → ℕ)
    (clock : ℕ → S.F) where
  abbrev pub Ready : Turn (Scheduler S.F P.Index R.Service) → Type 0
  Ready turn = IsSound (turn_state turn).engine []

  -- The request, part of which is scheduled, stays in `waiting` or moves to `running`.
  placed-IsSound :
      (m : Scheduler S.F P.Index R.Service) (s t : Sequence S.F)
      → find_seq s.seq_id m.waiting ≡ some s
      → Alike s t
      → IsSound m []
      → IsSound (placed S P R xxh64 clock m t) []
  unfolding total
  placed-IsSound m s t there same h =
      let rest = without m s there h in
      let a =
        Accounts-Alike m.block_manager s t (the_others m s there h) same
          (hand-Accounts rest [] s (room m s there h)) in
      let t' = record t { status = SequenceStatus.running } in
      let moved = record m {
        waiting = remove_seq t.seq_id m.waiting;
        running = m.running ++ t' ∷ [];
      } in
      if_both (λ x. IsSound x []) (is_whole S P R xxh64 clock t) moved _
        (hand_over rest moved [] [] s t' (room m s there h)
          (λ w.
            let gone : total w (remove_seq t.seq_id m.waiting)
                ≡ total w (remove_seq s.seq_id m.waiting) =
              ap (λ j. total w (remove_seq j m.waiting)) same.1 in
            omega (arith, gone, total-append w m.running (t' ∷ [])))
          (record { consistent = a.consistent; counted = a.counted }) same.1)
        (waiting_on m s there h m.block_manager _ t same.1 a refl refl refl refl)

  enter-Ready :
      (t : Prefilling (Scheduler S.F P.Index R.Service)) (m : Scheduler S.F P.Index R.Service)
      (s : Sequence S.F) (now : S.F) (n remaining : ℕ)
      → find_seq s.seq_id m.waiting ≡ some s
      → IsSound m []
      → Ready (enter S P R xxh64 clock t m s now n remaining)
  unfolding enter mark_scheduled
  enter-Ready t m s now n remaining there h =
      placed-IsSound m s (scheduled_part S P R xxh64 clock t s now n remaining) there (refl, refl) h

  defer-Ready :
      (t : Prefilling (Scheduler S.F P.Index R.Service)) (m : Scheduler S.F P.Index R.Service)
      (i : ℕ)
      → IsSound m []
      → Ready (defer S P R xxh64 clock t m i)
  unfolding defer
  defer-Ready t m i h =
      if_both Ready (ltb (length (set_add i t.budget_deferred)) m.options.max_num_seqs) _ _
        (record { consistent = h.consistent; refs = h.refs; distinct = h.distinct })
        (record { consistent = h.consistent; refs = h.refs; distinct = h.distinct })

  blocked-Ready :
      (t : Prefilling (Scheduler S.F P.Index R.Service)) (m : Scheduler S.F P.Index R.Service)
      (i : ℕ)
      → IsSound m []
      → Ready (blocked S P R xxh64 clock t m i)
  unfolding blocked
  blocked-Ready t m i h =
      if_both Ready (no_seqs m.running && not (no_seqs (keep_seqs has_table m.waiting))) _ _ h
        (if_both Ready (lookahead S P R xxh64 clock m) _ _ (defer-Ready t m i h) h)

  pub choose_waiting-Keeps :
      (m : Scheduler S.F P.Index R.Service) (now : S.F) (ss : List (Sequence S.F))
      → IsSound m []
      → Ensures
          (λ r. IsSound r.0 [] × (find_seq r.1.seq_id r.0.waiting ≡ some r.1))
          (choose_waiting S P R xxh64 clock m now ss)
  unfolding choose_waiting
  choose_waiting-Keeps m now ss h =
      Ensures-bind (select S (policy m) ss m.step_id now) _ (λ picked _.
        Ensures-bind (or_raise (find_seq picked.seq_id m.waiting) Error.value_error) _ (λ s e.
          Ensures-bind (policy_budget_ms S m s now) _ (λ budget _.
            let found = or_raise-some (find_seq picked.seq_id m.waiting) Error.value_error e in
            let there = itself picked.seq_id m.waiting s found in
            let s' = record s { last_budget_ms = budget } in
            let a = hand-Accounts (without m s there h) [] s (room m s there h) in
            Ensures-pure (
              waiting_on m s there h m.block_manager _ s' refl
                  (record { consistent = a.consistent; counted = a.counted }) refl refl refl refl,
              find_seq-update_seq s' m.waiting s there,
            ))))

  pub continue_resident-Keeps :
      (t : Prefilling (Scheduler S.F P.Index R.Service)) (m : Scheduler S.F P.Index R.Service)
      (s : Sequence S.F) (now : S.F) (remaining : ℕ)
      → find_seq s.seq_id m.waiting ≡ some s
      → IsSound m []
      → Ensures Ready (continue_resident S P R xxh64 clock t m s now remaining)
  unfolding continue_resident record_reused_tokens
  continue_resident-Keeps t m s now remaining there h =
      let a = hand-Accounts (without m s there h) [] s (room m s there h) in
      Ensures-then _ (resume P xxh64 m.block_manager s) _
        (resume-Keeps P m.block_manager s (the_others m s there h) a xxh64)
        (λ r k.
          let u = record_reused_tokens r.1 r.2 in
          let m' = record m { block_manager = r.0; waiting = update_seq u m.waiting } in
          let sound =
            waiting_on m s there h r.0 m' u k.1
              (record { consistent = k.0.consistent; counted = k.0.counted }) refl refl refl refl in
          let here =
            find_seq-update_seq u m.waiting s (ap (λ j. find_seq j m.waiting) k.1 ∙ there) in
          Ensures-pure (
            if_both Ready
              (does_not_fit S P R xxh64 clock t (u.num_tokens - u.num_cached_tokens) remaining) _ _
              sound (enter-Ready t m' u now _ remaining here sound)))

  start_local-Keeps :
      (t : Prefilling (Scheduler S.F P.Index R.Service)) (m : Scheduler S.F P.Index R.Service)
      (s : Sequence S.F) (now : S.F) (remaining n : ℕ)
      → find_seq s.seq_id m.waiting ≡ some s
      → IsSound m []
      → Ensures Ready (start_local S P R xxh64 clock t m s now remaining n)
  unfolding start_local record_reused_tokens
  start_local-Keeps t m s now remaining n there h =
      let a = hand-Accounts (without m s there h) [] s (room m s there h) in
      Ensures-if
        (does_not_fit S P R xxh64 clock t (s.num_tokens - n * m.options.block_size) remaining) _ _
        (λ _. Ensures-pure h)
        (λ _.
          Ensures-then _ (allocate P xxh64 m.block_manager s n) _
            (allocate-Keeps P m.block_manager s (the_others m s there h) a xxh64 n)
            (λ r k.
              let u = record_reused_tokens r.1 (r.1.num_cached_tokens - s.num_cached_tokens) in
              let m' = record m { block_manager = r.0; waiting = update_seq u m.waiting } in
              let sound =
                waiting_on m s there h r.0 m' u k.1
                  (record { consistent = k.0.consistent; counted = k.0.counted }) refl refl refl
                  refl in
              let here =
                find_seq-update_seq u m.waiting s (ap (λ j. find_seq j m.waiting) k.1 ∙ there) in
              Ensures-pure (enter-Ready t m' u now _ remaining here sound)))

  admit-Keeps :
      (t : Prefilling (Scheduler S.F P.Index R.Service)) (m : Scheduler S.F P.Index R.Service)
      (s : Sequence S.F) (now : S.F) (remaining n : ℕ)
      → find_seq s.seq_id m.waiting ≡ some s
      → IsSound m []
      → Ensures Ready (admit S P R xxh64 clock t m s now remaining n)
  unfolding admit
  admit-Keeps t m s now remaining n there h =
      Ensures-bind (reserve_short S P R xxh64 clock m s) _ (λ short _. elim (Bool-cases short) [
        | inl e ↦ rw e (
            Ensures-pure (
              defer-Ready t (without_plan S P R xxh64 clock m s.seq_id) s.seq_id (record {
                consistent = record {
                  used = h.consistent.used;
                  free = h.consistent.free;
                  total = h.consistent.total;
                };
                refs = h.refs;
                distinct = h.distinct;
              })))
        | inr e ↦ rw e (
            Ensures-then _ (start_remote_restore S P R xxh64 clock m s n now) _
              (start_remote_restore-Keeps S P R xxh64 clock m s there h n now)
              (λ r k. elim (Bool-cases r.1) [
                | inl started ↦ rw started (Ensures-pure k)
                | inr unstarted ↦ rw unstarted (
                    Ensures-bind (or_raise (find_seq s.seq_id r.0.waiting) Error.value_error) _
                      (λ u f.
                        let found =
                          or_raise-some (find_seq s.seq_id r.0.waiting) Error.value_error f in
                        start_local-Keeps t r.0 u now remaining n
                          (itself s.seq_id r.0.waiting u found) k))
              ]))
      ])

  pub start_new-Keeps :
      (t : Prefilling (Scheduler S.F P.Index R.Service)) (m : Scheduler S.F P.Index R.Service)
      (s : Sequence S.F) (now : S.F) (remaining : ℕ)
      → find_seq s.seq_id m.waiting ≡ some s
      → IsSound m []
      → Ensures Ready (start_new S P R xxh64 clock t m s now remaining)
  unfolding start_new
  start_new-Keeps t m s now remaining there h =
      let a = hand-Accounts (without m s there h) [] s (room m s there h) in
      Ensures-then _ (can_allocate P xxh64 m.block_manager s) _
        (can_allocate-Keeps P m.block_manager s (the_others m s there h) a xxh64)
        (λ r k.
          let sound = blocks_on m s there h r.0 k in
          elim (Option-cases r.1) [
            | inl e ↦ rw e (Ensures-pure (blocked-Ready t (with_blocks m r.0) s.seq_id sound))
            | inr (n, e) ↦ rw e (admit-Keeps t (with_blocks m r.0) s now remaining n there sound)
          ])
