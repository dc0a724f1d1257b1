-- ===== src/Scheduler/Hands.antt =====
-- The operations on a request in hand keep the account of the scheduler.
use nano_vllm_qos.Prelude.{ℕ, ◌≡◌, refl, List, ◌∷◌, ok, arith, ◌==◌, length}
use nano_vllm_qos.Prelude.Ensures.{
  Ensures, Ensures-pure, Ensures-pure_if, Ensures-if, Ensures-bind, Ensures-then,
}
use nano_vllm_qos.Scalar.{Scalar}
use nano_vllm_qos.Sequence.{Sequence, record_kv_reclaim, record_kv_compression}
use nano_vllm_qos.BlockManager.Keeps.{
  Kept, deallocate-Keeps, reclaim_suffix-Keeps, compress_sink_recent-Keeps,
}
use nano_vllm_qos.BlockManager.QueryAware.{compress_query_aware-Keeps}
use nano_vllm_qos.BlockManager.Release.{deallocate, reclaim_suffix}
use nano_vllm_qos.Queues.{total}
use nano_vllm_qos.Reclaim.{KvReclaimDecision}
use nano_vllm_qos.Scheduler.{
  Scheduler, CompressionPolicy, no_policy, sink_recent, query_aware, policy_budget_ms, tick,
}
use nano_vllm_qos.Scheduler.Preempt.{
  apply_kv_reclaim, sent_back, preempt_compressed, preempt_planned, preempt, compress_with,
  compress_now, compresses, maybe_compress,
}
use nano_vllm_qos.Scheduler.Sound.{IsSound, everyone, table_of, hand-Accounts, hand_done}

module _ (S : Scalar) {I V : Type 0} (m : Scheduler S.F I V) (held : List (Sequence S.F))
    (s : Sequence S.F) (h : IsSound m (s ∷ held)) where
  -- The queues as they were, and the request with the same number.
  abbrev pub Handled : Scheduler S.F I V → Sequence S.F → Type 0
  Handled m' s' =
      IsSound m' (s' ∷ held)
      × (m'.waiting ≡ m.waiting)
      × (m'.running ≡ m.running)
      × (s'.seq_id ≡ s.seq_id)

  abbrev others : ℕ → ℕ
  others b = everyone (table_of b) m held

  pub apply_kv_reclaim-Keeps :
      (d : KvReclaimDecision S.F) → Ensures (λ r. Handled r.0 r.1) (apply_kv_reclaim S m s d)
  unfolding apply_kv_reclaim record_kv_reclaim
  apply_kv_reclaim-Keeps d =
      Ensures-then _ (reclaim_suffix m.block_manager s d.keep_blocks) _
        (reclaim_suffix-Keeps m.block_manager s others (hand-Accounts m held s h) d.keep_blocks)
        (λ r k. Ensures-pure (
          hand_done m _ held s _ h (λ w. refl)
              (record { consistent = k.0.consistent; counted = k.0.counted }) k.1,
          refl,
          refl,
          k.1,
        ))

  compress_with-Keeps :
      (p : CompressionPolicy) → Ensures (λ r. Kept s others r.0 r.1) (compress_with S p m s)
  unfolding compress_with
  compress_with-Keeps query_aware =
      compress_query_aware-Keeps S m.block_manager s others _ _ _ _ (hand-Accounts m held s h)
  compress_with-Keeps sink_recent =
      compress_sink_recent-Keeps m.block_manager s others (hand-Accounts m held s h) _ _
  compress_with-Keeps no_policy =
      compress_sink_recent-Keeps m.block_manager s others (hand-Accounts m held s h) _ _

  abbrev free_ratio : S.F
  free_ratio =
      S.div (S.of_ℕ (length m.block_manager.free_block_ids))
        (S.of_ℕ (length m.block_manager.blocks))

  pub maybe_compress-Keeps : Ensures (λ r. Handled r.0 r.1) (maybe_compress S m s)
  unfolding maybe_compress compress_now record_kv_compression
  maybe_compress-Keeps =
      Ensures-if (compresses m.options.kv_compression_policy) _ _
        (λ _.
          Ensures-if (S.le free_ratio m.options.kv_compression_trigger_free_ratio) _ _
            (λ _.
              Ensures-then _ (compress_with S m.options.kv_compression_policy m s) _
                (compress_with-Keeps _)
                (λ r k.
                  Ensures-pure_if (r.2.dropped_blocks == 0) _ _
                    (
                      hand_done m _ held s _ h (λ w. refl)
                          (record { consistent = k.0.consistent; counted = k.0.counted }) k.1,
                      refl,
                      refl,
                      k.1,
                    )
                    (
                      hand_done m _ held s _ h (λ w. refl)
                          (record { consistent = k.0.consistent; counted = k.0.counted }) k.1,
                      refl,
                      refl,
                      k.1,
                    )))
            (λ _. Ensures-pure (h, refl, refl, refl)))
        (λ _. Ensures-pure (h, refl, refl, refl))

module _ (S : Scalar) {I V : Type 0} (clock : ℕ → S.F) (held : List (Sequence S.F)) where
  sent_back-IsSound :
      (m : Scheduler S.F I V) (s : Sequence S.F)
      → IsSound m (s ∷ held)
      → IsSound (sent_back S m s) held
  unfolding total
  sent_back-IsSound m s h = record {
    consistent = h.consistent;
    refs = λ b. omega (arith, h.refs b);
    distinct = λ i. let k = h.distinct i in omega (arith, k);
  }

  -- Preempting the request in hand keeps the account, and puts it into `waiting` only.
  pub preempt-Keeps :
      (m : Scheduler S.F I V) (s : Sequence S.F)
      → IsSound m (s ∷ held)
      → Ensures (λ m'. IsSound m' held × (m'.running ≡ m.running)) (preempt S clock m s)
  unfolding preempt preempt_compressed preempt_planned record_kv_reclaim
  preempt-Keeps m s h =
      let others : ℕ → ℕ = λ b. everyone (table_of b) m held in
      Ensures-if s.kv_compressed _ _
        (λ _.
          Ensures-then _ (deallocate m.block_manager s) _
            (deallocate-Keeps m.block_manager s others (hand-Accounts m held s h))
            (λ r k. Ensures-pure (
              sent_back-IsSound _ (record_kv_reclaim (r.1) _ 0 s.num_cached_tokens) (
                  hand_done m _ held s _ h (λ w. refl)
                    (record { consistent = k.0.consistent; counted = k.0.counted }) k.1),
              refl,
            )))
        (λ _. Ensures-bind (policy_budget_ms S m s (clock m.ticks)) _ (λ budget _.
          Ensures-then _ (apply_kv_reclaim S (tick m) s _) _
            (apply_kv_reclaim-Keeps S (tick m) held s
              (record { consistent = h.consistent; refs = h.refs; distinct = h.distinct }) _)
            (λ r k. Ensures-pure (sent_back-IsSound r.0 r.1 k.0, k.2))))

  -- If the scheduler is sound with the request in hand, and `preempt` returns, then it is sound with
  -- the request no longer in hand, and `running` is as it was.
  pub preempt-IsSound :
      (m m' : Scheduler S.F I V) (s : Sequence S.F)
      → IsSound m (s ∷ held)
      → preempt S clock m s ≡ ok m'
      → IsSound m' held × (m'.running ≡ m.running)
  preempt-IsSound m m' s h e = (preempt-Keeps m s h).at _ e

  -- If the scheduler is sound with the request in hand, and the compression of its pages returns,
  -- then it is sound with the request that comes back, whatever the policy and its scores are.
  pub maybe_compress-IsSound :
      (m m' : Scheduler S.F I V) (s s' : Sequence S.F) (freed : ℕ)
      → IsSound m (s ∷ held)
      → maybe_compress S m s ≡ ok (m', s', freed)
      → IsSound m' (s' ∷ held)
  maybe_compress-IsSound m m' s s' freed h e = ((maybe_compress-Keeps S m held s h).at _ e).0
