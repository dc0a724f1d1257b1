-- ===== src/Scheduler/Rounds.antt =====
-- nanovllm/engine/scheduler.py: a round of the prefill loop of `_schedule_once` that goes on leaves
-- less to do: it admits, starts a restore, defers, or goes over to the requests that hold pages.
use nano_vllm_qos.Prelude.{
  ℕ, suc, ◌+◌, ◌-◌, ◌*◌, ◌<◌, ◌≤◌, ◌≡◌, refl, true, false, not, ◌&&◌, List, [], ◌∷◌, ◌++◌, arith,
  if◌then◌else◌, ◌==◌, ltb, elem, length, length-append, Bool-cases, inl, inr, ap, ◌∙◌,
}
use nano_vllm_qos.Prelude.Ensures.{Ensures, Ensures-pure, Ensures-if, Ensures-bind, if_both}
use nano_vllm_qos.Scalar.{Scalar}
use nano_vllm_qos.Sequence.{Sequence, SequenceStatus, record_reused_tokens}
use nano_vllm_qos.BlockManager.{PrefixIndex, set_add}
use nano_vllm_qos.BlockManager.Allocate.{allocate}
use nano_vllm_qos.BlockManager.Resume.{resume}
use nano_vllm_qos.Queues.{
  remove_seq, update_seq, has_table, no_seqs, keep_seqs, total, length-update_seq,
}
use nano_vllm_qos.Scheduler.{Scheduler, RestoreService, with_waiting}
use nano_vllm_qos.Scheduler.Enough.{holds, Slack}
use nano_vllm_qos.Scheduler.Prefill.{
  Prefilling, Turn, again, stop, placed, scheduled_part, enter, continue_resident, start_local,
  blocked, defer, does_not_fit, is_whole, lookahead,
}

module _ {F : Type 0} where
  pub update_seq-holds :
      (t : Sequence F) (ss : List (Sequence F)) → total holds (update_seq t ss) ≤ total holds ss + 1
  unfolding total update_seq
  update_seq-holds t [] = omega arith
  update_seq-holds t (s ∷ ss) = elim (Bool-cases (s.seq_id == t.seq_id)) [
    | inl e ↦ rw e (elim (Bool-cases (has_table t)) [
      | inl k ↦ rw k (omega arith)
      | inr k ↦ rw k (omega arith)
    ])
    | inr e ↦ rw e (omega (arith, update_seq-holds t ss))
  ]

  pub remove_seq-holds :
      (i : ℕ) (ss : List (Sequence F)) → total holds (remove_seq i ss) ≤ total holds ss
  unfolding total remove_seq
  remove_seq-holds i [] = omega arith
  remove_seq-holds i (s ∷ ss) = elim (Bool-cases (s.seq_id == i)) [
    | inl e ↦ rw e (omega arith)
    | inr e ↦ rw e (omega (arith, remove_seq-holds i ss))
  ]

  length-remove_le : (i : ℕ) (ss : List (Sequence F)) → length (remove_seq i ss) ≤ length ss
  unfolding remove_seq
  length-remove_le i [] = omega arith
  length-remove_le i (s ∷ ss) = ground (arith, length-remove_le i ss)

module _ {F I V : Type 0} where
  pub Slack-trans :
      (a b : ℕ) (m n o : Scheduler F I V) → Slack a m n → Slack b n o → Slack (a + b) m o
  Slack-trans a b m n o h k = (k.0 ∙ h.0, omega (arith, h.1, k.1), omega (arith, h.2, k.2))

  pub Slack-update :
      (m m' : Scheduler F I V) (t : Sequence F)
      → m'.options ≡ m.options
      → m'.waiting ≡ update_seq t m.waiting
      → Slack 1 m m'
  Slack-update m m' t e q = (
    e,
    omega (arith, ap length q, length-update_seq t m.waiting),
    omega (arith, ap (total holds) q, update_seq-holds t m.waiting),
  )

module _ (S : Scalar) (P : PrefixIndex) (R : RestoreService S.F) (xxh64 : List ℕ → ℕ)
    (clock : ℕ → S.F) where
  abbrev pub Machine : Type 0
  Machine = Scheduler S.F P.Index R.Service

  -- What is left to do.
  abbrev pub left : Prefilling Machine → ℕ
  left t =
      length t.engine.waiting
      + total holds t.engine.waiting
      + (if t.resident_progress_only then 0 else 1)
      + 4 * (t.engine.options.max_num_seqs - length t.scheduled)
      + (t.engine.options.max_num_seqs - length t.budget_deferred)

  abbrev pub Less : Prefilling Machine → Turn Machine → Type 0
  Less t (stop u) = Unit
  Less t (again u) = left u < left t

  placed-Slack : (m : Machine) (s : Sequence S.F) → Slack 1 m (placed S P R xxh64 clock m s)
  placed-Slack m s =
      let moved = record m {
        waiting = remove_seq s.seq_id m.waiting;
        running = m.running ++ record s { status = SequenceStatus.running } ∷ [];
      } in
      let kept = with_waiting m (update_seq s m.waiting) in
      if_both (Slack 1 m) (is_whole S P R xxh64 clock s) moved kept
        (
          refl,
          length-remove_le s.seq_id m.waiting,
          omega (arith, remove_seq-holds s.seq_id m.waiting),
        )
        (Slack-update m kept s refl refl)

  enter-Less :
      (t : Prefilling Machine) (m : Machine) (s : Sequence S.F) (now : S.F) (n remaining : ℕ)
      → Slack 2 t.engine m
      → length t.scheduled < t.engine.options.max_num_seqs
      → Less t (enter S P R xxh64 clock t m s now n remaining)
  unfolding enter
  enter-Less t m s now n remaining k few =
      let s' = scheduled_part S P R xxh64 clock t s now n remaining in
      let p = Slack-trans 2 1 t.engine m (placed S P R xxh64 clock m s') k (placed-Slack m s') in
      let limit = ap (λ o. o.max_num_seqs) p.0 in
      omega (arith, p.1, p.2, limit, few, length-append t.scheduled (s'.seq_id ∷ []))

  pub continue_resident-Less :
      (t : Prefilling Machine) (m : Machine) (s : Sequence S.F) (now : S.F) (remaining : ℕ)
      → Slack 0 t.engine m
      → length t.scheduled < t.engine.options.max_num_seqs
      → Ensures (Less t) (continue_resident S P R xxh64 clock t m s now remaining)
  unfolding continue_resident
  continue_resident-Less t m s now remaining k few =
      Ensures-bind (resume P xxh64 m.block_manager s) _ (λ r _.
        let u = record_reused_tokens r.1 r.2 in
        let m' = record m { block_manager = r.0; waiting = update_seq u m.waiting } in
        let p = Slack-trans 0 1 t.engine m m' k (Slack-update m m' u refl refl) in
        Ensures-pure (
          if_both (Less t)
            (does_not_fit S P R xxh64 clock t (u.num_tokens - u.num_cached_tokens) remaining) _ _ tt
            (enter-Less t m' u now _ remaining (p.0, p.1, omega (arith, p.2)) few)))

  pub start_local-Less :
      (t : Prefilling Machine) (m : Machine) (s : Sequence S.F) (now : S.F) (remaining n : ℕ)
      → Slack 1 t.engine m
      → length t.scheduled < t.engine.options.max_num_seqs
      → Ensures (Less t) (start_local S P R xxh64 clock t m s now remaining n)
  unfolding start_local
  start_local-Less t m s now remaining n k few =
      Ensures-if
        (does_not_fit S P R xxh64 clock t (s.num_tokens - n * m.options.block_size) remaining) _ _
        (λ _. Ensures-pure tt)
        (λ _. Ensures-bind (allocate P xxh64 m.block_manager s n) _ (λ r _.
          let u = record_reused_tokens r.1 (r.1.num_cached_tokens - s.num_cached_tokens) in
          let m' = record m { block_manager = r.0; waiting = update_seq u m.waiting } in
          Ensures-pure (
            enter-Less t m' u now _ remaining
              (Slack-trans 1 1 t.engine m m' k (Slack-update m m' u refl refl)) few)))

  pub defer-Less :
      (t : Prefilling Machine) (m : Machine) (i : ℕ)
      → Slack 0 t.engine m
      → elem i t.budget_deferred ≡ false
      → Less t (defer S P R xxh64 clock t m i)
  unfolding defer
  defer-Less t m i k new =
      let limit = ap (λ o. o.max_num_seqs) k.0 in
      let more : length (set_add i t.budget_deferred) ≡ suc (length t.budget_deferred) =
        rw new refl in
      elim (Bool-cases (ltb (length (set_add i t.budget_deferred)) m.options.max_num_seqs)) [
        | inr full ↦ rw full tt
        | inl few ↦
            let below : length (set_add i t.budget_deferred) < m.options.max_num_seqs =
              ground (arith, few) in
            rw few (omega (arith, k.1, k.2, limit, more, below))
      ]

  pub blocked-Less :
      (t : Prefilling Machine) (m : Machine) (i : ℕ)
      → Slack 0 t.engine m
      → elem i t.budget_deferred ≡ false
      → (t.resident_progress_only ≡ true → total holds m.waiting < total holds t.engine.waiting)
      → Less t (blocked S P R xxh64 clock t m i)
  unfolding blocked
  blocked-Less t m i k new eased =
      let limit = ap (λ o. o.max_num_seqs) k.0 in
      if_both (Less t) (no_seqs m.running && not (no_seqs (keep_seqs has_table m.waiting))) _ _
        (elim (Bool-cases t.resident_progress_only) [
          | inl on ↦ rw on (omega (arith, k.1, limit, eased on))
          | inr off ↦ rw off (omega (arith, k.1, k.2, limit))
        ])
        (if_both (Less t) (lookahead S P R xxh64 clock m) _ _ (defer-Less t m i k new) tt)
