-- ===== src/Scheduler/Finish.antt =====
-- `postprocess` keeps the account of the scheduler.
use nano_vllm_qos.Prelude.{
  ℕ, ◌+◌, ◌≡◌, refl, Bool, true, false, ◌&&◌, none, some, List, [], ◌∷◌, ok, Error, or_raise, arith,
  ltb, count, Option-cases, inl, inr, ap, sym, subst, ◌∙◌,
}
use nano_vllm_qos.Prelude.Ensures.{
  Ensures, Ensures-and, Ensures-pure, Ensures-if, Ensures-bind, Ensures-then, or_raise-some,
}
use nano_vllm_qos.Scalar.{Scalar}
use nano_vllm_qos.Sequence.{
  Sequence, SequenceStatus, record_recomputed_tokens, append_token, mark_finished,
}
use nano_vllm_qos.Sequence.Metrics
use nano_vllm_qos.BlockManager.{BlockManager, PrefixIndex}
use nano_vllm_qos.BlockManager.Allocate.{hash_blocks}
use nano_vllm_qos.BlockManager.Correct.{Accounts}
use nano_vllm_qos.BlockManager.Keeps.{deallocate-Keeps}
use nano_vllm_qos.BlockManager.Labels.{hash_blocks-Keeps}
use nano_vllm_qos.BlockManager.Release.{deallocate}
use nano_vllm_qos.Queues.{
  find_seq, remove_seq, total, total-remove_seq, total-update_seq, find_seq-id,
}
use nano_vllm_qos.Scheduler.{
  Scheduler, RestoreService, with_waiting, with_running, with_blocks, tick,
}
use nano_vllm_qos.Scheduler.Step.{
  find_scheduled, put_scheduled, computed, ends, finish, accept, accept_all, postprocess,
}
use nano_vllm_qos.Scheduler.Sound.{
  IsSound, everyone, table_of, is_named, hand-Accounts, hand_over, take_waiting, take_running,
}
use nano_vllm_qos.Scheduler.Transfers.{Alike, deallocate-Frees, Accounts-Alike}

module _ (S : Scalar) (P : PrefixIndex) (R : RestoreService S.F) (xxh64 : List ℕ → ℕ)
    (clock : ℕ → S.F) where
  computed-Alike :
      (s : Sequence S.F) (is_prefill : Bool) → Alike s (computed S P R xxh64 clock s is_prefill)
  unfolding record_recomputed_tokens
  computed-Alike s true = (refl, refl)
  computed-Alike s false = (refl, refl)

  -- A scheduled request in hand, and how another state of it is written back.
  record InHand (m : Scheduler S.F P.Index R.Service) (s : Sequence S.F) : Type 0 where
    rest : Scheduler S.F P.Index R.Service
    room : IsSound rest (s ∷ [])
    same : rest.block_manager ≡ m.block_manager
    put :
        (blocks : BlockManager P.Index) (s' : Sequence S.F)
        → s'.seq_id ≡ s.seq_id
        → (w : Sequence S.F → ℕ)
        → everyone w (put_scheduled S P R xxh64 clock (with_blocks m blocks) s') []
          ≡ w s' + everyone w rest []
    in_place :
        (blocks : BlockManager P.Index) (s' : Sequence S.F)
        → s'.seq_id ≡ s.seq_id
        → (put_scheduled S P R xxh64 clock (with_blocks m blocks) s').block_manager ≡ blocks
    left :
        (old : Sequence S.F)
        → find_seq s.seq_id m.running ≡ some old
        → (w : Sequence S.F → ℕ)
        → everyone w (with_running m (remove_seq s.seq_id m.running)) [] ≡ everyone w rest []

  find_scheduled-InHand :
      (m : Scheduler S.F P.Index R.Service) (i : ℕ)
      → IsSound m []
      → Ensures (InHand m) (find_scheduled S P R xxh64 clock m i)
  unfolding find_scheduled total
  find_scheduled-InHand m i h = elim (Option-cases (find_seq i m.running)) [
    | inr (s, e) ↦
        rw (e, find_scheduled)
          (Ensures-pure (record {
            rest = with_running m (remove_seq i m.running);
            room = take_running m [] i s e h;
            same = refl;
            put = λ blocks s' id w.
                let at : find_seq s'.seq_id m.running ≡ some s =
                  ap (λ j. find_seq j m.running) (id ∙ find_seq-id i m.running s e) ∙ e in
                rw (at, put_scheduled)
                  (omega (
                    arith,
                    total-update_seq w s' m.running s at,
                    total-remove_seq w i m.running s e,
                  ));
            in_place = λ blocks s' id.
                let at : find_seq s'.seq_id m.running ≡ some s =
                  ap (λ j. find_seq j m.running) (id ∙ find_seq-id i m.running s e) ∙ e in
                rw (at, put_scheduled) refl;
            left = λ old f w. rw (find_seq-id i m.running s e) refl;
          }))
    | inl e ↦
        rw (e, find_scheduled)
          (record {
            at = λ s g.
                let f = or_raise-some (find_seq i m.waiting) Error.value_error g in
                record {
                  rest = with_waiting m (remove_seq i m.waiting);
                  room = take_waiting m [] i s f h;
                  same = refl;
                  put = λ blocks s' id w.
                      let at : find_seq s'.seq_id m.running ≡ none =
                        ap (λ j. find_seq j m.running) (id ∙ find_seq-id i m.waiting s f) ∙ e in
                      rw (at, put_scheduled)
                        (omega (
                          arith,
                          total-update_seq w s' m.waiting s (
                              ap (λ j. find_seq j m.waiting) (id ∙ find_seq-id i m.waiting s f)
                              ∙ f),
                          total-remove_seq w i m.waiting s f,
                        ));
                  in_place = λ blocks s' id.
                      let at : find_seq s'.seq_id m.running ≡ none =
                        ap (λ j. find_seq j m.running) (id ∙ find_seq-id i m.waiting s f) ∙ e in
                      rw (at, put_scheduled) refl;
                  left = λ old r w.
                      let id : s.seq_id ≡ i = find_seq-id i m.waiting s f in
                      let clash : none ≡ some old =
                        sym e ∙ ap (λ j. find_seq j m.running) (sym id) ∙ r in
                      absurd (ground arith);
                };
          })
  ]

  module _ (m : Scheduler S.F P.Index R.Service) (s : Sequence S.F) (k : InHand m s) where
    abbrev others : ℕ → ℕ
    others b = everyone (table_of b) k.rest []

    -- Another state of the request is written back.
    put_scheduled-Keeps :
        (blocks : BlockManager P.Index) (t : Sequence S.F)
        → Alike s t
        → Accounts blocks s others
        → IsSound (put_scheduled S P R xxh64 clock (with_blocks m blocks) t) []
    put_scheduled-Keeps blocks t same a =
        hand_over k.rest _ [] [] s t k.room (k.put blocks t same.1)
          (subst (λ x. Accounts x t others) (sym (k.in_place blocks t same.1))
            (Accounts-Alike blocks s t others same a))
          same.1

    -- A request that ends holds no page.
    finish-Keeps :
        (blocks : BlockManager P.Index) (t : Sequence S.F) (now : S.F)
        → Alike s t
        → Accounts blocks s others
        → Ensures (λ m'. IsSound m' []) (finish S P R xxh64 clock (with_blocks m blocks) t now)
    unfolding finish mark_finished total count
    finish-Keeps blocks t now same a =
        let t' = mark_finished (record t { status = SequenceStatus.finished }) now in
        Ensures-then _ (deallocate blocks t') _
          (Ensures-and (deallocate blocks t')
            (deallocate-Keeps blocks t' others (Accounts-Alike blocks s t' others same a))
            (deallocate-Frees blocks t'))
          (λ r q.
            Ensures-bind (or_raise (find_seq t.seq_id m.running) Error.value_error) _ (λ old e.
              Ensures-bind (Metrics.metrics S r.1) _ (λ metrics _.
                let there = or_raise-some (find_seq t.seq_id m.running) Error.value_error e in
                let found = ap (λ j. find_seq j m.running) (sym same.1) ∙ there in
                let moved : (w : Sequence S.F → ℕ)
                    → everyone w (with_running m (remove_seq t.seq_id m.running)) []
                      ≡ everyone w k.rest [] =
                  λ w.
                    subst
                      (λ j.
                        everyone w (with_running m (remove_seq j m.running)) []
                        ≡ everyone w k.rest [])
                      (sym same.1) (k.left old found w) in
                Ensures-pure (record {
                  consistent = q.0.0.consistent;
                  refs = λ b.
                      let c = q.0.0.counted b in
                      omega (arith, c, ap (count b) q.1, moved (table_of b));
                  distinct = λ j. let d = k.room.distinct j in omega (arith, d, moved (is_named j));
                }))))

  accept-Keeps :
      (m : Scheduler S.F P.Index R.Service) (now : S.F) (is_prefill : Bool) (i token_id : ℕ)
      → IsSound m []
      → Ensures (λ m'. IsSound m' []) (accept S P R xxh64 clock m now is_prefill i token_id)
  unfolding accept append_token
  accept-Keeps m now is_prefill i token_id h =
      Ensures-then _ (find_scheduled S P R xxh64 clock m i) _ (find_scheduled-InHand m i h) (λ s k.
        let a =
          subst (λ x. Accounts x s (others m s k)) k.same (hand-Accounts k.rest [] s k.room) in
        Ensures-then _ (hash_blocks P xxh64 m.block_manager s) _
          (hash_blocks-Keeps P xxh64 m.block_manager s (others m s k) a)
          (λ blocks c.
            let t = computed S P R xxh64 clock s is_prefill in
            let same = computed-Alike s is_prefill in
            let u = append_token t token_id now in
            Ensures-if (is_prefill && ltb t.num_cached_tokens t.num_tokens) _ _
              (λ _. Ensures-pure (put_scheduled-Keeps m s k blocks t same c))
              (λ _.
                Ensures-if (ends S P R xxh64 clock (with_blocks m blocks) u token_id) _ _
                  (λ _. finish-Keeps m s k blocks u now same c)
                  (λ _. Ensures-pure (put_scheduled-Keeps m s k blocks u same c)))))

  accept_all-Keeps :
      (m : Scheduler S.F P.Index R.Service) (now : S.F) (is_prefill : Bool) (is ts : List ℕ)
      → IsSound m []
      → Ensures (λ m'. IsSound m' []) (accept_all S P R xxh64 clock m now is_prefill is ts)
  unfolding accept_all
  accept_all-Keeps m now is_prefill [] ts h = Ensures-pure h
  accept_all-Keeps m now is_prefill (i ∷ is) [] h = Ensures-pure h
  accept_all-Keeps m now is_prefill (i ∷ is) (t ∷ ts) h =
      Ensures-then _ (accept S P R xxh64 clock m now is_prefill i t) _
        (accept-Keeps m now is_prefill i t h) (λ m' k. accept_all-Keeps m' now is_prefill is ts k)

  -- If the scheduler is sound and `postprocess` returns, it is sound afterwards: no request that
  -- ended leaves a reference to a page behind.
  pub postprocess-IsSound :
      (m m' : Scheduler S.F P.Index R.Service) (seqs token_ids : List ℕ) (is_prefill : Bool)
      → IsSound m []
      → postprocess S P R xxh64 clock m seqs token_ids is_prefill ≡ ok m'
      → IsSound m' []
  unfolding postprocess
  postprocess-IsSound m m' seqs token_ids is_prefill h e =
      (accept_all-Keeps (tick m) (clock m.ticks) is_prefill seqs token_ids
          (record { consistent = h.consistent; refs = h.refs; distinct = h.distinct })).at
        _ e
