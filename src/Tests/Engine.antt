-- ===== src/Tests/Engine.antt =====
-- The scheduler on the pool of four blocks, with two requests.
use nano_vllm_qos.Scheduler.Stepping.{schedule-IsSound}
use nano_vllm_qos.Scheduler.Step.{schedule_once}
use nano_vllm_qos.Scheduler.Step.{schedule}
use nano_vllm_qos.Scheduler.Step.{prefill_phase}
use nano_vllm_qos.Scheduler.Prefill.{start_new}
use nano_vllm_qos.Scheduler.Prefill.{start_local}
use nano_vllm_qos.Scheduler.Prefill.{skip_deferred}
use nano_vllm_qos.Scheduler.Prefill.{reserve_short}
use nano_vllm_qos.Scheduler.Prefill.{proceed}
use nano_vllm_qos.Scheduler.Prefill.{prefill_round}
use nano_vllm_qos.Scheduler.Prefill.{prefill_loop}
use nano_vllm_qos.Scheduler.Prefill.{make_room}
use nano_vllm_qos.Scheduler.Prefill.{keep_resident}
use nano_vllm_qos.Scheduler.Prefill.{enter}
use nano_vllm_qos.Scheduler.Prefill.{eligible}
use nano_vllm_qos.Scheduler.Prefill.{choose_waiting}
use nano_vllm_qos.Scheduler.Prefill.{admit}
use nano_vllm_qos.Queues.{update_seq}
use nano_vllm_qos.Policy.Select.{should_schedule_prefill}
use nano_vllm_qos.BlockManager.Allocate.{num_used}
use nano_vllm_qos.BlockManager.Allocate.{can_allocate}
use nano_vllm_qos.Prelude.{
  ℕ, ◌+◌, ◌≡◌, refl, Bool, true, false, Option, none, some, List, [], ◌∷◌, Result, ok, err, arith,
  count, erase,
}
use nano_vllm_qos.Scalar.{whole}
use nano_vllm_qos.Sequence.{Sequence, SequenceStatus}
use nano_vllm_qos.Policy.{fcfs_kind}
use nano_vllm_qos.Queues.{total}
use nano_vllm_qos.Reclaim.{KvReclaimPolicy}
use nano_vllm_qos.Scheduler.{
  Scheduler, SchedulerOptions, CompressionPolicy, PendingRestore, RestoreService, Counters, add,
  with_running,
}
use nano_vllm_qos.Prelude.Dict
use nano_vllm_qos.Sequence
use nano_vllm_qos.Queues.{find_seq, remove_seq}
use nano_vllm_qos.Reclaim.{plan, decision}
use nano_vllm_qos.BlockManager.Pool.{
  release, release_all, deallocate_block, allocate_block, choose, evict,
}
use nano_vllm_qos.BlockManager.Allocate.{
  reserve_restore, allocate, commit_restored_prefix, rehash, hash_blocks,
}
use nano_vllm_qos.BlockManager.Release.{
  abort_restore, deallocate, reclaim_suffix, compress_sink_recent, compress_keep_positions, keep_at,
  keeps_sink_recent,
}
use nano_vllm_qos.Scheduler.{policy_budget_ms}
use nano_vllm_qos.Scheduler.Preempt.{
  preempt, preempt_planned, apply_kv_reclaim, maybe_compress, compress_now, compress_with,
}
use nano_vllm_qos.Scheduler.Hands.{preempt-IsSound, maybe_compress-IsSound}
use nano_vllm_qos.Scheduler.Cancel.{find_pending, remove_pending, cancel, take_out, cancel_taken}
use nano_vllm_qos.Scheduler.Sound.{IsSound, everyone, is_named, total_pending}
use nano_vllm_qos.Scheduler.Transfers.{cancel-IsSound, add-IsSound, Requeued}
use nano_vllm_qos.Scheduler.Decode.{
  decode_phase, decode_loop, decode_round, take_next, append_room, settle, join_batch,
  finish_decode,
}
use nano_vllm_qos.Scheduler.Batch.{decode_phase-IsSound, decode_loop-returns}
use nano_vllm_qos.Policy.Select.{select}
use nano_vllm_qos.BlockManager.Resume.{can_append, may_append}
use nano_vllm_qos.BlockManager.Lookup.{
  lookup_cached_blocks, match_hashes, compute_hash, same_tokens,
}
use nano_vllm_qos.BlockManager.Pool.{claim_all, claim, allocate_blocks}
use nano_vllm_qos.Sequence.{slice_block}
use nano_vllm_qos.Sequence.{mark_arrived, mark_scheduled, record_reused_tokens}
use nano_vllm_qos.Scheduler.Room.{ensure_resume_capacity}
use nano_vllm_qos.Scheduler.Ends.{prefill_loop-returns}
use nano_vllm_qos.Scheduler.Step.{start_prefill, prefill_rounds}
use nano_vllm_qos.Scheduler.Launch.{start_remote_restore-IsSound}
use nano_vllm_qos.Tests.Pool.{pool, pool-Accounts}
use nano_vllm_qos.Scheduler.Restores.{
  start_remote_restore, start_with, launch_found, launch, complete_remote_restore,
  fail_remote_restore,
}
use nano_vllm_qos.Scheduler.Transfers.{complete_remote_restore-IsSound, fail_remote_restore-IsSound}
use nano_vllm_qos.Scheduler.Step.{postprocess, accept_all, accept, find_scheduled, finish}
use nano_vllm_qos.Scheduler.Finish.{postprocess-IsSound}
use nano_vllm_qos.Sequence.{record_kv_compression, append_token, mark_finished, block}
use nano_vllm_qos.Sequence.Metrics
use nano_vllm_qos.Sequence.Restore
use nano_vllm_qos.Tests.Pool.{no_index, digest}
use nano_vllm_qos.Tests.Data.{request}
use nano_vllm_qos.Tests.Pool.{held, full_pool, full_pool-Accounts}

abbrev options : SchedulerOptions ℕ
options = record {
  max_num_seqs = 4;
  max_num_active_seqs = none;
  kv_admission_lookahead = 0;
  max_num_batched_tokens = 16;
  eos = some 2;
  block_size = 4;
  policy_kind = fcfs_kind;
  budgets = record { best_effort_slo_ms = 100; priority_boost_ms = 0; aging_ms_per_step = 0 };
  kv_reclaim_policy = KvReclaimPolicy.recompute_all;
  kv_reclaim_target_free_blocks = 1;
  kv_compression_policy = CompressionPolicy.sink_recent;
  kv_compression_sink_blocks = 1;
  kv_compression_recent_blocks = 1;
  kv_compression_importance_blocks = 1;
  kv_compression_query_tokens = 1;
  kv_compression_trigger_free_ratio = 1;
}

abbrev no_counts : Counters
no_counts = record {
  kv_admission_deferred_checks = 0;
  kv_reclaim_events = 0;
  kv_reclaim_requested_blocks = 0;
  kv_reclaim_freed_blocks = 0;
  kv_reclaim_retained_blocks = 0;
  kv_reclaim_invalidated_tokens = 0;
  kv_reclaim_forced_fallbacks = 0;
  kv_compression_events = 0;
  kv_compression_dropped_blocks = 0;
  kv_compression_freed_blocks = 0;
  kv_compression_dropped_tokens = 0;
  remote_restore_started = 0;
  remote_restore_completed = 0;
  remote_restore_failed = 0;
  cancelled_requests = 0;
}

-- A service that finds nothing to restore.
abbrev idle_service : RestoreService ℕ
idle_service = record {
  Service = Unit {0};
  Page = ℕ;
  plan_restore = λ v s n cost. ok (v, none);
  submit_restore = λ v i pages blocks. (v, none);
  is_done = λ v i. true;
  cancel_waiters = λ v i. v;
}

abbrev readings : ℕ → ℕ
readings n = n

-- The other owner of block 0.
abbrev sharer : Sequence ℕ
sharer = record request {
  seq_id = 8;
  block_table = 0 ∷ [];
  kv_block_logical_indices = 0 ∷ [];
  num_cached_tokens = 4;
  num_physical_cached_tokens = 4;
}

-- Both requests run.
abbrev machine : Scheduler ℕ (Unit {0}) (Unit {0})
machine = record {
  options = options;
  block_manager = full_pool;
  waiting = [];
  running = held ∷ sharer ∷ [];
  ticks = 0;
  step_id = 0;
  estimator = record { prefill_ms_per_token = 1; decode_ms_per_token = 1; alpha = 1 };
  completed_metrics = [];
  remote_restore_service = some tt;
  pending_restores = [];
  counters = no_counts;
}

machine-IsSound : IsSound machine []
unfolding total total_pending count
machine-IsSound = record {
  consistent = full_pool-Accounts.consistent;
  refs = λ b. let k = full_pool-Accounts.counted b in ground (arith, k);
  distinct = λ i. ground arith;
}

-- The same with one request in hand.
abbrev in_hand : Scheduler ℕ (Unit {0}) (Unit {0})
in_hand = with_running machine (sharer ∷ [])

in_hand-IsSound : IsSound in_hand (held ∷ [])
unfolding total total_pending count
in_hand-IsSound = record {
  consistent = full_pool-Accounts.consistent;
  refs = λ b. let k = full_pool-Accounts.counted b in ground (arith, k);
  distinct = λ i. ground arith;
}

-- What a call returns, or else the given value.
abbrev got : {A : Type 0} → Result A → A → A
got (ok a) b = a
got (err e) b = b

abbrev one_of : Option (Sequence ℕ) → Sequence ℕ
one_of none = request
one_of (some s) = s

abbrev Machine : Type 0
Machine = Scheduler ℕ (Unit {0}) (Unit {0})

abbrev cancelled : Machine × Option (Sequence ℕ)
cancelled = got (cancel idle_service readings machine 7) (machine, none)

cancel-run : cancel idle_service readings machine 7 ≡ ok (cancelled.0, some (one_of cancelled.1))
unfolding cancel take_out cancel_taken find_seq remove_seq abort_restore deallocate release_all
    release Sequence.cancel Dict.remove deallocate_block count erase
cancel-run = refl

cancel-IsSound_example :
    IsSound cancelled.0 []
    × ((one_of cancelled.1).block_table ≡ [])
    × ((one_of cancelled.1).seq_id ≡ 7)
    × (everyone (is_named 7) cancelled.0 [] ≡ 0)
    × ((t : Sequence ℕ) × (t.seq_id ≡ 7)
        × ((w : Sequence ℕ → ℕ) → everyone w machine [] ≡ w t + everyone w cancelled.0 []))
cancel-IsSound_example =
    cancel-IsSound idle_service readings machine cancelled.0 7 (one_of cancelled.1) machine-IsSound
      cancel-run

abbrev newcomer : Sequence ℕ
newcomer = record request { seq_id = 9 }

newcomer-new : everyone (is_named newcomer.seq_id) machine [] ≡ 0
unfolding total total_pending
newcomer-new = refl

add-IsSound_example :
    let m' = add readings machine newcomer in
    IsSound m' []
    × (everyone (is_named 9) m' [] ≡ 1)
    × (m'.waiting ≡ mark_arrived newcomer 0 0 ∷ [])
    × (m'.running ≡ held ∷ sharer ∷ [])
    × (m'.pending_restores ≡ [])
add-IsSound_example = add-IsSound readings machine newcomer machine-IsSound newcomer-new refl

abbrev preempted : Machine
preempted = got (preempt whole readings in_hand held) machine

preempt-run : preempt whole readings in_hand held ≡ ok preempted
unfolding preempt preempt_planned policy_budget_ms plan decision apply_kv_reclaim reclaim_suffix
    release_all release deallocate_block count erase
preempt-run = refl

preempt-IsSound_example : IsSound preempted [] × (preempted.running ≡ sharer ∷ [])
preempt-IsSound_example =
    preempt-IsSound whole readings [] in_hand preempted held in_hand-IsSound preempt-run

abbrev compressed : Machine × Sequence ℕ × ℕ
compressed = got (maybe_compress whole in_hand held) (machine, held, 0)

maybe_compress-run :
    maybe_compress whole in_hand held ≡ ok (compressed.0, compressed.1, compressed.2)
unfolding maybe_compress compress_now compress_with compress_sink_recent compress_keep_positions
    release_all release keep_at keeps_sink_recent deallocate_block count
maybe_compress-run = refl

maybe_compress-IsSound_example : IsSound compressed.0 (compressed.1 ∷ [])
maybe_compress-IsSound_example =
    maybe_compress-IsSound whole readings [] in_hand compressed.0 held compressed.1 compressed.2
      in_hand-IsSound maybe_compress-run

-- The first request decodes on, the second one is sent back for want of a page.
abbrev decoded : Machine × Option (List ℕ × Bool)
decoded = got (decode_phase whole no_index readings 5 machine) (machine, none)

decode_phase-run : decode_phase whole no_index readings 5 machine ≡ ok (decoded.0, decoded.1)
unfolding decode_phase decode_loop decode_round take_next append_room settle join_batch
    finish_decode select find_seq remove_seq can_append may_append policy_budget_ms maybe_compress
    compress_now compress_with compress_sink_recent compress_keep_positions release_all release
    keep_at keeps_sink_recent deallocate_block count record_kv_compression allocate_block choose
    erase evict
decode_phase-run = refl

decode_phase-IsSound_example : IsSound decoded.0 []
decode_phase-IsSound_example =
    decode_phase-IsSound whole no_index readings 5 machine decoded.0 decoded.1 machine-IsSound
      decode_phase-run

decode_loop-returns_example : ¬ (decode_loop whole no_index readings 3 5 machine [] false ≡ ok none)
decode_loop-returns_example =
    decode_loop-returns whole no_index readings 5 3 machine [] false machine-IsSound (omega arith)

-- The first request waits for its second page.
abbrev restoring : Machine
restoring = record machine {
  running = sharer ∷ [];
  pending_restores =
      record {
        sequence = record held {
          status = SequenceStatus.waiting_for_kv;
          num_cached_tokens = 4;
          num_physical_cached_tokens = 4;
          remote_restore_started_time = some 0;
        };
        total_cached_blocks = 2;
        restored_blocks = 1;
      }
      ∷ [];
}

restoring-IsSound : IsSound restoring []
unfolding total total_pending count
restoring-IsSound = record {
  consistent = full_pool-Accounts.consistent;
  refs = λ b. let k = full_pool-Accounts.counted b in ground (arith, k);
  distinct = λ i. ground arith;
}

abbrev failed : Machine
failed =
    got (fail_remote_restore whole no_index idle_service digest readings restoring 7 "lost")
      restoring

fail_remote_restore-run :
    fail_remote_restore whole no_index idle_service digest readings restoring 7 "lost" ≡ ok failed
unfolding fail_remote_restore find_pending remove_pending abort_restore deallocate release_all
    release deallocate_block count erase Restore.fail_remote_restore
fail_remote_restore-run = refl

fail_remote_restore-IsSound_example :
    IsSound failed []
    × ((p : PendingRestore ℕ) × (s : Sequence ℕ) × Requeued whole no_index idle_service digest
          readings restoring 7 p s failed)
fail_remote_restore-IsSound_example =
    fail_remote_restore-IsSound whole no_index idle_service digest readings restoring 7 "lost"
      failed restoring-IsSound fail_remote_restore-run

abbrev restored : Machine
restored =
    got (complete_remote_restore whole no_index idle_service digest readings restoring 7) restoring

complete_remote_restore-run :
    complete_remote_restore whole no_index idle_service digest readings restoring 7 ≡ ok restored
unfolding complete_remote_restore find_pending remove_pending Restore.finish_remote_restore
    commit_restored_prefix rehash block
complete_remote_restore-run = refl

complete_remote_restore-IsSound_example : IsSound restored []
complete_remote_restore-IsSound_example =
    complete_remote_restore-IsSound whole no_index idle_service digest readings restoring 7 restored
      restoring-IsSound complete_remote_restore-run

-- The first request ends, the second one goes on.
abbrev accepted : Machine
accepted =
    got
      (postprocess whole no_index idle_service digest readings machine (7 ∷ 8 ∷ []) (2 ∷ 5 ∷ [])
        false)
      restoring

postprocess-run :
    postprocess whole no_index idle_service digest readings machine (7 ∷ 8 ∷ []) (2 ∷ 5 ∷ []) false
    ≡ ok accepted
unfolding postprocess accept_all accept find_scheduled finish find_seq remove_seq deallocate
    release_all release deallocate_block count erase hash_blocks append_token mark_finished
    Metrics.metrics
postprocess-run = refl

postprocess-IsSound_example : IsSound accepted []
postprocess-IsSound_example =
    postprocess-IsSound whole no_index idle_service digest readings machine accepted (7 ∷ 8 ∷ [])
      (2 ∷ 5 ∷ []) false machine-IsSound postprocess-run

-- A service that can restore two pages, where the first one is in the local cache.
abbrev remote_service : RestoreService ℕ
remote_service = record idle_service { plan_restore = λ v s n cost. ok (v, some (40 ∷ 41 ∷ [])) }

abbrev hopeful : Machine
hopeful = record machine { block_manager = pool; waiting = newcomer ∷ []; running = sharer ∷ [] }

hopeful-IsSound : IsSound hopeful []
unfolding total total_pending count
hopeful-IsSound = record {
  consistent = pool-Accounts.consistent;
  refs = λ b. let k = pool-Accounts.counted b in ground (arith, k);
  distinct = λ i. ground arith;
}

newcomer-waits : find_seq newcomer.seq_id hopeful.waiting ≡ some newcomer
unfolding find_seq
newcomer-waits = refl

abbrev launched : Machine × Bool
launched =
    got (start_remote_restore whole no_index remote_service digest readings hopeful newcomer 1 5)
      (machine, false)

start_remote_restore-run :
    start_remote_restore whole no_index remote_service digest readings hopeful newcomer 1 5
    ≡ ok (launched.0, true)
unfolding start_remote_restore start_with launch_found launch reserve_restore allocate Dict.get
    lookup_cached_blocks match_hashes block compute_hash slice_block same_tokens claim_all claim
    count allocate_blocks allocate_block choose evict erase Restore.begin_remote_restore
start_remote_restore-run = refl

start_remote_restore-IsSound_example : IsSound launched.0 []
start_remote_restore-IsSound_example =
    start_remote_restore-IsSound whole no_index remote_service digest readings hopeful newcomer
      newcomer-waits hopeful-IsSound 1 5 launched.0 true start_remote_restore-run

-- The first request waits with its pages.
abbrev waiting_on : Machine
waiting_on = record machine { waiting = held ∷ []; running = sharer ∷ [] }

waiting_on-IsSound : IsSound waiting_on []
unfolding total total_pending count
waiting_on-IsSound = record {
  consistent = full_pool-Accounts.consistent;
  refs = λ b. let k = full_pool-Accounts.counted b in ground (arith, k);
  distinct = λ i. ground arith;
}

prefill_loop-returns_example :
    ¬ (
      prefill_loop whole no_index idle_service digest readings
        (prefill_rounds whole no_index idle_service digest readings waiting_on)
        5
        (start_prefill whole no_index idle_service digest readings waiting_on)
      ≡ ok none)
    × ((i : ℕ) → ¬ (ensure_resume_capacity whole no_index digest 3 waiting_on 5 i ≡ ok none))
prefill_loop-returns_example =
    prefill_loop-returns whole no_index idle_service digest readings waiting_on 5 waiting_on-IsSound

-- A step with a new request: its prompt is admitted beside the running request.
abbrev stepped : Machine × List ℕ × Bool
stepped = got (schedule whole no_index idle_service digest readings hopeful) (machine, [], false)

schedule-run :
    schedule whole no_index idle_service digest readings hopeful ≡ ok (stepped.0, 9 ∷ [], true)
unfolding schedule schedule_once prefill_phase prefill_loop prefill_round eligible
    should_schedule_prefill choose_waiting select find_seq policy_budget_ms make_room proceed
    update_seq start_new can_allocate lookup_cached_blocks match_hashes block Dict.get compute_hash
    slice_block same_tokens Dict.put count admit reserve_short start_remote_restore start_with
    launch_found start_local allocate claim_all claim allocate_blocks allocate_block choose evict
    erase enter mark_scheduled remove_seq record_reused_tokens Dict.remove skip_deferred
    keep_resident num_used
schedule-run = refl

schedule-IsSound_example : IsSound stepped.0 []
schedule-IsSound_example =
    schedule-IsSound whole no_index idle_service digest readings hopeful stepped.0 (9 ∷ []) true
      hopeful-IsSound schedule-run
