-- ===== src/Scheduler/Resumes.antt =====
-- Making room for a request that resumes keeps the account of the scheduler.
use nano_vllm_qos.Prelude.{
  ℕ, zero, suc, ◌≡◌, refl, Bool, Option, none, some, List, [], Error, or_raise, Bool-cases, inl,
  inr, ap, ◌∙◌,
}
use nano_vllm_qos.Prelude.Ensures.{Ensures, Ensures-pure, Ensures-bind, Ensures-then, or_raise-some}
use nano_vllm_qos.Scalar.{Scalar}
use nano_vllm_qos.Sequence.{Sequence, record_kv_reclaim}
use nano_vllm_qos.BlockManager.{PrefixIndex}
use nano_vllm_qos.BlockManager.Correct.{Accounts}
use nano_vllm_qos.BlockManager.Keeps.{reclaim_suffix-Keeps, can_resume-Keeps}
use nano_vllm_qos.BlockManager.Release.{reclaim_suffix}
use nano_vllm_qos.BlockManager.Resume.{can_resume}
use nano_vllm_qos.Queues.{find_seq, update_seq, has_table, no_seqs, find_seq-id}
use nano_vllm_qos.Reclaim.{recompute_all, plan, KvReclaimDecision}
use nano_vllm_qos.Scheduler.{Scheduler, policy_budget_ms}
use nano_vllm_qos.Scheduler.Preempt.{apply_kv_reclaim}
use nano_vllm_qos.Scheduler.Room.{
  others_with_table, first_max, reclaim_keys, reclaim_waiting, reclaim_last, check_resume,
  ensure_resume_capacity,
}
use nano_vllm_qos.Scheduler.Sound.{
  IsSound, hand-Accounts, room, without, the_others, waiting_on, blocks_on,
}

-- The queue entry of a request is found again by its own number.
pub itself :
    {F : Type 0} (i : ℕ) (ss : List (Sequence F)) (s : Sequence F)
    → find_seq i ss ≡ some s
    → find_seq s.seq_id ss ≡ some s
itself i ss s e = ap (λ j. find_seq j ss) (find_seq-id i ss s e) ∙ e

module _ (S : Scalar) (P : PrefixIndex) (xxh64 : List ℕ → ℕ) {V : Type 0} where
  apply-Reclaimed :
      (m : Scheduler S.F P.Index V) (s : Sequence S.F)
      → (there : find_seq s.seq_id m.waiting ≡ some s) → (h : IsSound m [])
      → (d : KvReclaimDecision S.F)
      → Ensures
          (λ x.
            Accounts x.0.block_manager x.1 (the_others m s there h)
            × (x.1.seq_id ≡ s.seq_id)
            × (x.0.waiting ≡ m.waiting)
            × (x.0.running ≡ m.running)
            × (x.0.pending_restores ≡ m.pending_restores))
          (apply_kv_reclaim S m s d)
  unfolding apply_kv_reclaim record_kv_reclaim
  apply-Reclaimed m s there h d =
      let a = hand-Accounts (without m s there h) [] s (room m s there h) in
      Ensures-then _ (reclaim_suffix m.block_manager s d.keep_blocks) _
        (reclaim_suffix-Keeps m.block_manager s (the_others m s there h) a d.keep_blocks)
        (λ r k.
          Ensures-pure
            (record { consistent = k.0.consistent; counted = k.0.counted }, k.1, refl, refl, refl))

  pub reclaim_waiting-Keeps :
      (m : Scheduler S.F P.Index V) (now : S.F) (s : Sequence S.F)
      → find_seq s.seq_id m.waiting ≡ some s
      → IsSound m []
      → Ensures (λ m'. IsSound m' []) (reclaim_waiting S P xxh64 m now s)
  unfolding reclaim_waiting
  reclaim_waiting-Keeps m now s there h = Ensures-bind (policy_budget_ms S m s now) _ (λ budget _.
      let d : KvReclaimDecision S.F = plan S recompute_all s budget 1 in
      Ensures-then _ (apply_kv_reclaim S m s d) _ (apply-Reclaimed m s there h d) (λ x k.
        Ensures-pure (
          waiting_on m s there h x.0.block_manager _ x.1 k.1 k.0 refl (ap (update_seq x.1) k.2) k.3
            k.4)))

  pub check_resume-Keeps :
      (m : Scheduler S.F P.Index V) (s : Sequence S.F)
      → find_seq s.seq_id m.waiting ≡ some s
      → IsSound m []
      → Ensures
          (λ r. IsSound r.0 [] × (r.0.waiting ≡ m.waiting) × (r.0.running ≡ m.running))
          (check_resume S P xxh64 m s)
  unfolding check_resume
  check_resume-Keeps m s there h =
      let a = hand-Accounts (without m s there h) [] s (room m s there h) in
      Ensures-then _ (can_resume P xxh64 m.block_manager s) _
        (can_resume-Keeps P m.block_manager s (the_others m s there h) a xxh64)
        (λ r k. Ensures-pure (blocks_on m s there h r.0 k, refl, refl))

  pub reclaim_last-Keeps :
      (m : Scheduler S.F P.Index V) (now : S.F) (candidates : List (Sequence S.F))
      → IsSound m []
      → Ensures (λ m'. IsSound m' []) (reclaim_last S P xxh64 m now candidates)
  unfolding reclaim_last
  reclaim_last-Keeps m now candidates h =
      Ensures-bind (reclaim_keys S P xxh64 m now candidates) _ (λ keys _.
        Ensures-bind (or_raise (first_max S keys) Error.value_error) _ (λ victim _.
          Ensures-bind (or_raise (find_seq victim.seq_id m.waiting) Error.value_error) _ (λ s e.
            let found = or_raise-some (find_seq victim.seq_id m.waiting) Error.value_error e in
            reclaim_waiting-Keeps m now s (itself victim.seq_id m.waiting s found) h)))

  -- The account after the loop, where its rounds have not run out.
  abbrev pub Roomy : Option (Scheduler S.F P.Index V × Bool) → Type 0
  Roomy none = Unit {0}
  Roomy (some (m, fits)) = IsSound m []

  pub ensure_resume_capacity-Keeps :
      (rounds : ℕ) (m : Scheduler S.F P.Index V) (now : S.F) (i : ℕ)
      → IsSound m []
      → Ensures Roomy (ensure_resume_capacity S P xxh64 rounds m now i)
  unfolding ensure_resume_capacity
  ensure_resume_capacity-Keeps zero m now i h = Ensures-pure tt
  ensure_resume_capacity-Keeps (suc rounds) m now i h =
      Ensures-bind (or_raise (find_seq i m.waiting) Error.value_error) _ (λ s e.
        let found = or_raise-some (find_seq i m.waiting) Error.value_error e in
        let there = itself i m.waiting s found in
        elim (Bool-cases (has_table s)) [
          | inr bare ↦ rw bare (
              Ensures-then _ (check_resume S P xxh64 m s) _ (check_resume-Keeps m s there h)
                (λ r k. Ensures-pure k.0))
          | inl held ↦ rw held (
              Ensures-then _ (check_resume S P xxh64 m s) _ (check_resume-Keeps m s there h) (λ r k.
                let here = ap (find_seq s.seq_id) k.1 ∙ there in
                elim (Bool-cases r.1) [
                  | inl fits ↦ rw fits (
                      Ensures-then _ (check_resume S P xxh64 r.0 s) _
                        (check_resume-Keeps r.0 s here k.0) (λ q l. Ensures-pure l.0))
                  | inr short ↦
                      rw short (elim (Bool-cases (no_seqs (others_with_table i r.0.waiting))) [
                        | inr some_hold ↦ rw some_hold (
                            Ensures-then _
                              (reclaim_last S P xxh64 r.0 now (others_with_table i r.0.waiting)) _
                              (reclaim_last-Keeps r.0 now (others_with_table i r.0.waiting) k.0)
                              (λ m' l. ensure_resume_capacity-Keeps rounds m' now i l))
                        | inl none_hold ↦ rw none_hold (elim (Bool-cases (no_seqs r.0.running)) [
                          | inr some_run ↦ rw some_run (Ensures-pure k.0)
                          | inl none_run ↦ rw none_run (
                              Ensures-then _ (reclaim_waiting S P xxh64 r.0 now s) _
                                (reclaim_waiting-Keeps r.0 now s here k.0)
                                (λ m' l. ensure_resume_capacity-Keeps rounds m' now i l))
                        ])
                      ])
                ]))
        ])
