-- ===== src/Scheduler/Decode.antt =====
-- nanovllm/engine/scheduler.py: the decode phase of `_schedule_once`. Requests that are taken out of
-- `running` are in hand until the phase ends. The loops count their rounds: `none` says that the
-- count ran out.
use nano_vllm_qos.Prelude.{
  ℕ, zero, suc, Bool, true, false, not, ◌&&◌, Option, none, some, List, [], ◌∷◌, ◌++◌, Result, ok,
  Error, or_raise, ◌>>=◌, if◌then◌else◌, ltb, length,
}
use nano_vllm_qos.Scalar.{Scalar}
use nano_vllm_qos.Sequence.{Sequence}
use nano_vllm_qos.BlockManager.{PrefixIndex}
use nano_vllm_qos.BlockManager.Resume.{can_append, may_append}
use nano_vllm_qos.Policy.Select.{select, select_preemption_victim}
use nano_vllm_qos.Queues.{find_seq, remove_seq, no_seqs}
use nano_vllm_qos.Scheduler.{Scheduler, policy, with_running, with_blocks, policy_budget_ms}
use nano_vllm_qos.Scheduler.Preempt.{preempt, maybe_compress}

abbrev pub ids_of : {F : Type 0} → List (Sequence F) → List ℕ
ids_of [] = []
ids_of (s ∷ ss) = s.seq_id ∷ ids_of ss

module _ (S : Scalar) (P : PrefixIndex) (clock : ℕ → S.F) {V : Type 0} where
  -- The victim of the policy is taken out of `running` and preempted.
  unfoldable pub preempt_victim : Scheduler S.F P.Index V → S.F → Result (Scheduler S.F P.Index V)
  preempt_victim m now = do
    choice ← select_preemption_victim S (policy m) m.running m.step_id now
    victim ← or_raise choice Error.runtime_error
    s ← or_raise (find_seq victim.seq_id m.running) Error.value_error
    preempt S clock (with_running m (remove_seq victim.seq_id m.running)) s

  -- Room for one more token of the request in hand: it comes back, or `none` where it was itself
  -- preempted.
  unfoldable pub append_room :
      ℕ
      → S.F
      → Scheduler S.F P.Index V
      → Sequence S.F
      → Result (Option (Scheduler S.F P.Index V × Option (Sequence S.F)))
  append_room zero now m s = ok none
  append_room (suc rounds) now m s = elim (can_append P m.block_manager s) [
    | true ↦ ok (some (m, some s))
    | false ↦ elim (no_seqs m.running) [
      | true ↦ preempt S clock m s >>= λ m'. ok (some (m', none))
      | false ↦ preempt_victim m now >>= λ m'. append_room rounds now m' s
    ]
  ]

  -- The next request to decode is taken out of `running`.
  unfoldable pub take_next :
      S.F → Scheduler S.F P.Index V → Result (Scheduler S.F P.Index V × Sequence S.F)
  take_next now m = do
    picked ← select S (policy m) m.running m.step_id now
    s ← or_raise (find_seq picked.seq_id m.running) Error.value_error
    budget ← policy_budget_ms S m s now
    ok (with_running m (remove_seq picked.seq_id m.running), record s { last_budget_ms = budget })

  -- The request in hand joins the batch, with a page for its next token.
  unfoldable pub join_batch :
      Scheduler S.F P.Index V
      → List (Sequence S.F)
      → Sequence S.F
      → Result (Scheduler S.F P.Index V × List (Sequence S.F))
  join_batch m scheduled s = do
    (blocks, s') ←
        may_append P m.block_manager (record s { num_scheduled_tokens = 1; is_prefill = false })
    ok (with_blocks m blocks, scheduled ++ s' ∷ [])

  -- What is done with the request after room was made for it.
  unfoldable pub settle :
      List (Sequence S.F)
      → Bool
      → Option (Scheduler S.F P.Index V × Option (Sequence S.F))
      → Result (Option (Scheduler S.F P.Index V × List (Sequence S.F) × Bool))
  unfolding join_batch
  settle scheduled retry none = ok none
  settle scheduled retry (some (m, none)) = ok (some (m, scheduled, true))
  settle scheduled retry (some (m, some s)) =
      join_batch m scheduled s >>= λ r. ok (some (r.0, r.1, retry))

  -- One round of the loop; the flag says that a request preempted itself.
  unfoldable pub decode_round :
      S.F
      → Scheduler S.F P.Index V
      → List (Sequence S.F)
      → Bool
      → Result (Option (Scheduler S.F P.Index V × List (Sequence S.F) × Bool))
  unfolding settle
  decode_round now m scheduled retry = do
    (m₁, s) ← take_next now m
    (m₂, s', freed) ← maybe_compress S m₁ s
    room ← append_room (suc (length m₂.running)) now m₂ s'
    settle scheduled retry room

  unfoldable pub decode_loop :
      ℕ
      → S.F
      → Scheduler S.F P.Index V
      → List (Sequence S.F)
      → Bool
      → Result (Option (Scheduler S.F P.Index V × List (Sequence S.F) × Bool))
  decode_loop zero now m scheduled retry = ok none
  decode_loop (suc rounds) now m scheduled retry =
      elim (not (no_seqs m.running) && ltb (length scheduled) m.options.max_num_seqs) [
        | false ↦ ok (some (m, scheduled, retry))
        | true ↦ do
          after ← decode_round now m scheduled retry
          elim after [
            | none ↦ ok none
            | some (m', scheduled', retry') ↦ decode_loop rounds now m' scheduled' retry'
          ]
      ]

  abbrev pub no_pending? : Scheduler S.F P.Index V → Bool
  no_pending? m = elim m.pending_restores [ [] ↦ true | p ∷ ps ↦ false ]

  -- What the phase answers: the batch and `is_prefill`, or `none` for another try. The batch goes
  -- back to the front of `running`.
  unfoldable pub finish_decode :
      Scheduler S.F P.Index V
      → List (Sequence S.F)
      → Bool
      → Result (Scheduler S.F P.Index V × Option (List ℕ × Bool))
  finish_decode m [] retry =
      if no_pending? m
      then (if retry then ok (m, none) else Result.err Error.runtime_error)
      else ok (m, some ([], true))
  finish_decode m (s ∷ ss) retry =
      ok (with_running m ((s ∷ ss) ++ m.running), some (ids_of (s ∷ ss), false))

  unfoldable pub decode_phase :
      S.F → Scheduler S.F P.Index V → Result (Scheduler S.F P.Index V × Option (List ℕ × Bool))
  unfolding finish_decode
  decode_phase now m = do
    done ← decode_loop (suc (length m.running)) now m [] false
    (m', scheduled, retry) ← or_raise done Error.out_of_rounds
    finish_decode m' scheduled retry
