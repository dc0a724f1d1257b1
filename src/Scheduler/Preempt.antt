-- ===== src/Scheduler/Preempt.antt =====
-- nanovllm/engine/scheduler.py: `_apply_kv_reclaim`, `preempt`, `_maybe_compress`, for a request that
-- the caller has in hand.
use nano_vllm_qos.Prelude.{
  ℕ, ◌+◌, ◌-◌, Bool, true, false, max, ◌∷◌, Result, ok, ◌>>=◌, ◌==◌, if◌then◌else◌, length,
}
use nano_vllm_qos.Scalar.{Scalar}
use nano_vllm_qos.Sequence.{Sequence, SequenceStatus, record_kv_reclaim, record_kv_compression}
use nano_vllm_qos.BlockManager.{BlockManager}
use nano_vllm_qos.BlockManager.Release.{
  deallocate, reclaim_suffix, compress_sink_recent, Compression,
}
use nano_vllm_qos.BlockManager.QueryAware.{compress_query_aware}
use nano_vllm_qos.Reclaim.{KvReclaimDecision, plan}
use nano_vllm_qos.Scheduler.{
  Scheduler, CompressionPolicy, no_policy, query_aware, with_waiting, with_blocks, tick,
  policy_budget_ms,
}

abbrev pub compresses : CompressionPolicy → Bool
compresses p = elim p [ no_policy ↦ false | _ ↦ true ]

module _ (S : Scalar) {I V : Type 0} where
  -- The request without its suffix, and the number of blocks freed.
  unfoldable pub apply_kv_reclaim :
      Scheduler S.F I V
      → Sequence S.F
      → KvReclaimDecision S.F
      → Result (Scheduler S.F I V × Sequence S.F × ℕ)
  apply_kv_reclaim m s d = do
    (blocks, s', freed) ← reclaim_suffix m.block_manager s d.keep_blocks
    ok (
      record m {
        block_manager = blocks;
        counters = record (m.counters) {
          kv_reclaim_events = m.counters.kv_reclaim_events + 1;
          kv_reclaim_requested_blocks = m.counters.kv_reclaim_requested_blocks + d.reclaim_blocks;
          kv_reclaim_freed_blocks = m.counters.kv_reclaim_freed_blocks + freed;
          kv_reclaim_retained_blocks = m.counters.kv_reclaim_retained_blocks + d.keep_blocks;
          kv_reclaim_invalidated_tokens =
              m.counters.kv_reclaim_invalidated_tokens + d.invalidated_tokens;
        };
      },
      record_kv_reclaim s' freed d.keep_blocks d.invalidated_tokens,
      freed,
    )

  -- The preempted request waits again, in front of the others.
  abbrev pub sent_back : Scheduler S.F I V → Sequence S.F → Scheduler S.F I V
  sent_back m s = with_waiting m (
      record s {
        status = SequenceStatus.waiting;
        is_prefill = true;
        preemption_count = s.preemption_count + 1;
      }
      ∷ m.waiting)

  -- A compressed request cannot keep a prefix.
  unfoldable pub preempt_compressed : Scheduler S.F I V → Sequence S.F → Result (Scheduler S.F I V)
  preempt_compressed m s = do
    (blocks, s') ← deallocate m.block_manager s
    let freed = length blocks.free_block_ids - length m.block_manager.free_block_ids
    ok (
        sent_back
          (record m {
            block_manager = blocks;
            counters = record (m.counters) {
              kv_reclaim_events = m.counters.kv_reclaim_events + 1;
              kv_reclaim_requested_blocks =
                  m.counters.kv_reclaim_requested_blocks + length s.block_table;
              kv_reclaim_freed_blocks = m.counters.kv_reclaim_freed_blocks + freed;
              kv_reclaim_invalidated_tokens =
                  m.counters.kv_reclaim_invalidated_tokens + s.num_cached_tokens;
            };
          })
          (record_kv_reclaim s' freed 0 s.num_cached_tokens))

  unfoldable pub preempt_planned :
      (ℕ → S.F) → Scheduler S.F I V → Sequence S.F → Result (Scheduler S.F I V)
  preempt_planned clock m s = do
    budget_ms ← policy_budget_ms S m s (clock m.ticks)
    let target = m.options.kv_reclaim_target_free_blocks
    let min_reclaim_blocks = max 1 (target - length m.block_manager.free_block_ids)
    let d = plan S m.options.kv_reclaim_policy s budget_ms min_reclaim_blocks
    (m', s', freed) ← apply_kv_reclaim (tick m) s d
    ok (sent_back m' s')

  unfoldable pub preempt : (ℕ → S.F) → Scheduler S.F I V → Sequence S.F → Result (Scheduler S.F I V)
  unfolding preempt_compressed preempt_planned
  preempt clock m s = if s.kv_compressed then preempt_compressed m s else preempt_planned clock m s

  -- What the policy drops of a request.
  unfoldable pub compress_with :
      CompressionPolicy
      → Scheduler S.F I V
      → Sequence S.F
      → Result (BlockManager I × Sequence S.F × Compression)
  compress_with query_aware m s =
      compress_query_aware S m.block_manager s m.options.kv_compression_sink_blocks
        m.options.kv_compression_recent_blocks m.options.kv_compression_importance_blocks
        m.options.kv_compression_query_tokens
  compress_with p m s =
      compress_sink_recent m.block_manager s m.options.kv_compression_sink_blocks
        m.options.kv_compression_recent_blocks

  unfoldable pub compress_now :
      Scheduler S.F I V → Sequence S.F → Result (Scheduler S.F I V × Sequence S.F × ℕ)
  unfolding compress_with
  compress_now m s = do
    (blocks, s', c) ← compress_with m.options.kv_compression_policy m s
    ok (
        if c.dropped_blocks == 0 then (with_blocks m blocks, s', 0) else (
          record m {
            block_manager = blocks;
            counters = record (m.counters) {
              kv_compression_events = m.counters.kv_compression_events + 1;
              kv_compression_dropped_blocks =
                  m.counters.kv_compression_dropped_blocks + c.dropped_blocks;
              kv_compression_freed_blocks = m.counters.kv_compression_freed_blocks + c.freed_blocks;
              kv_compression_dropped_tokens =
                  m.counters.kv_compression_dropped_tokens + c.dropped_tokens;
            };
          },
          record_kv_compression s' c.dropped_blocks c.dropped_tokens,
          c.freed_blocks,
        ))

  -- `_maybe_compress`: only where a policy is set and few enough blocks are free.
  unfoldable pub maybe_compress :
      Scheduler S.F I V → Sequence S.F → Result (Scheduler S.F I V × Sequence S.F × ℕ)
  unfolding compress_now
  maybe_compress m s =
      let total_blocks = S.of_ℕ (length m.block_manager.blocks) in
      let free_ratio = S.div (S.of_ℕ (length m.block_manager.free_block_ids)) total_blocks in
      if compresses m.options.kv_compression_policy
      then (if S.le free_ratio m.options.kv_compression_trigger_free_ratio
          then compress_now m s
          else ok (m, s, 0))
      else ok (m, s, 0)
