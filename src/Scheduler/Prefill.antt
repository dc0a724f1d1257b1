-- ===== src/Scheduler/Prefill.antt =====
-- nanovllm/engine/scheduler.py: the prefill phase of `_schedule_once`. Scheduled requests are kept by
-- their numbers: the requests themselves are in `waiting` or `running`.
use nano_vllm_qos.Prelude.{
  ℕ, zero, suc, ◌+◌, ◌-◌, ◌*◌, Bool, true, false, not, ◌&&◌, Option, none, some, List, [], ◌∷◌,
  ◌++◌, Result, ok, Error, or_raise, ◌>>=◌, ◌==◌, if◌then◌else◌, ltb, leb, length, elem, min,
}
use nano_vllm_qos.Prelude.Dict
use nano_vllm_qos.Scalar.{Scalar}
use nano_vllm_qos.Sequence.{Sequence, SequenceStatus, mark_scheduled, record_reused_tokens}
use nano_vllm_qos.BlockManager.{PrefixIndex, set_add}
use nano_vllm_qos.BlockManager.Allocate.{can_allocate, planned_allocation_pages, allocate}
use nano_vllm_qos.BlockManager.Resume.{resume}
use nano_vllm_qos.Admission.{priority_reserve_pages}
use nano_vllm_qos.Policy.Select.{select, should_schedule_prefill}
use nano_vllm_qos.Queues.{find_seq, remove_seq, update_seq, keep_seqs, has_table, no_seqs}
use nano_vllm_qos.Scheduler.{
  RestoreService, policy, with_waiting, with_blocks, policy_budget_ms, resident_count,
}
use nano_vllm_qos.Scheduler.Restores.{Engine, start_remote_restore}
use nano_vllm_qos.Scheduler.Room.{ensure_resume_capacity}

-- The variables of the loop.
pub record Prefilling (E : Type 0) : Type 0 where
  pub engine : E
  pub scheduled : List ℕ
  pub num_batched_tokens : ℕ
  pub budget_deferred : List ℕ
  pub resident_progress_only : Bool

-- How a round ends: with `continue` or at the end of the body, or with `break`.
pub data Turn (E : Type 0) : Type 0 where
  again : Prefilling E → Turn E
  stop : Prefilling E → Turn E

abbrev pub turn_state : {E : Type 0} → Turn E → Prefilling E
turn_state (again t) = t
turn_state (stop t) = t

abbrev pub no_ids : List ℕ → Bool
no_ids [] = true
no_ids (i ∷ is) = false

module _ (S : Scalar) (P : PrefixIndex) (R : RestoreService S.F) (xxh64 : List ℕ → ℕ)
    (clock : ℕ → S.F) where
  abbrev State : Type 0
  State = Prefilling (Engine S P R xxh64 clock)

  abbrev pub with_engine : State → Engine S P R xxh64 clock → State
  with_engine t m = record t { engine = m }

  -- `should_schedule_prefill(eligible, running, ...)`
  abbrev prefill_due : Engine S P R xxh64 clock → List (Sequence S.F) → S.F → Result Bool
  prefill_due m eligible now = should_schedule_prefill S (policy m) eligible m.running m.step_id now

  -- Without the deferred requests; `none` stands for `break`.
  unfoldable pub skip_deferred :
      State → S.F → List (Sequence S.F) → Result (Option (List (Sequence S.F)))
  skip_deferred t now ss =
      let rest = keep_seqs (λ s. not (elem s.seq_id t.budget_deferred)) ss in
      if no_ids t.budget_deferred
      then ok (some ss)
      else (if no_seqs rest
          then ok none
          else prefill_due t.engine rest now >>= λ due. ok (if due then some rest else none))

  abbrev pub at_limit : Engine S P R xxh64 clock → Bool
  at_limit m = elim m.options.max_num_active_seqs [
    | none ↦ false
    | some limit ↦ leb limit (resident_count m)
  ]

  -- At the limit of resident requests only these may go on.
  unfoldable pub keep_resident :
      State → S.F → List (Sequence S.F) → Result (Option (List (Sequence S.F)))
  keep_resident t now ss =
      let residents = keep_seqs has_table ss in
      if at_limit t.engine
      then (prefill_due t.engine residents now >>= λ due. ok (if due then some residents else none))
      else ok (some ss)

  unfoldable pub eligible : State → S.F → Result (Option (List (Sequence S.F)))
  unfolding skip_deferred keep_resident
  eligible t now =
      let waiting = t.engine.waiting in
      let residents = keep_seqs has_table waiting in
      if t.resident_progress_only && no_seqs residents then ok none else (do
        rest ← skip_deferred t now (if t.resident_progress_only then residents else waiting)
        elim rest [ none ↦ ok none | some ss ↦ keep_resident t now ss ])

  -- A request that is not admitted now; the loop goes on while few are deferred.
  unfoldable pub defer : State → Engine S P R xxh64 clock → ℕ → Turn (Engine S P R xxh64 clock)
  defer t m i =
      let deferred = set_add i t.budget_deferred in
      let t' = record t {
        engine = record m {
          counters = record (m.counters) {
            kv_admission_deferred_checks = m.counters.kv_admission_deferred_checks + 1;
          };
        };
        budget_deferred = deferred;
      } in
      if ltb (length deferred) m.options.max_num_seqs then again t' else stop t'

  abbrev pub lookahead : Engine S P R xxh64 clock → Bool
  lookahead m = ltb 0 m.options.kv_admission_lookahead && not (no_seqs m.running)

  -- No pages for a new request.
  unfoldable pub blocked : State → Engine S P R xxh64 clock → ℕ → Turn (Engine S P R xxh64 clock)
  unfolding defer
  blocked t m i =
      if no_seqs m.running && not (no_seqs (keep_seqs has_table m.waiting))
      then again (record t { engine = m; resident_progress_only = true })
      else (if lookahead m then defer t m i else stop (with_engine t m))

  -- The request joins the batch with `num_tokens` tokens, or as many as there is room for.
  abbrev pub scheduled_part : State → Sequence S.F → S.F → ℕ → ℕ → Sequence S.F
  scheduled_part t s now num_tokens remaining = record (mark_scheduled s now) {
    num_scheduled_tokens = min num_tokens remaining;
  }

  abbrev pub is_whole : Sequence S.F → Bool
  is_whole s = s.num_cached_tokens + s.num_scheduled_tokens == s.num_tokens

  -- A request with a whole prompt moves to `running`.
  abbrev pub placed : Engine S P R xxh64 clock → Sequence S.F → Engine S P R xxh64 clock
  placed m s =
      if is_whole s
      then record m {
        waiting = remove_seq s.seq_id m.waiting;
        running = m.running ++ record s { status = SequenceStatus.running } ∷ [];
      }
      else with_waiting m (update_seq s m.waiting)

  unfoldable pub enter :
      State
      → Engine S P R xxh64 clock
      → Sequence S.F
      → S.F
      → ℕ
      → ℕ
      → Turn (Engine S P R xxh64 clock)
  enter t m s now num_tokens remaining =
      let s' = scheduled_part t s now num_tokens remaining in
      again (record t {
        engine = placed m s';
        scheduled = t.scheduled ++ s'.seq_id ∷ [];
        num_batched_tokens = t.num_batched_tokens + s'.num_scheduled_tokens;
      })

  -- Only the first request may be scheduled in part.
  abbrev pub does_not_fit : State → ℕ → ℕ → Bool
  does_not_fit t num_tokens remaining = ltb remaining num_tokens && not (no_ids t.scheduled)

  -- A request that holds pages gets the others.
  unfoldable pub continue_resident :
      State
      → Engine S P R xxh64 clock
      → Sequence S.F
      → S.F
      → ℕ
      → Result (Turn (Engine S P R xxh64 clock))
  unfolding enter
  continue_resident t m s now remaining = do
    (blocks, s', reused) ← resume P xxh64 m.block_manager s
    let s'' = record_reused_tokens s' reused
    let num_tokens = s''.num_tokens - s''.num_cached_tokens
    let m' = record m { block_manager = blocks; waiting = update_seq s'' m.waiting }
    ok (
        if does_not_fit t num_tokens remaining
        then stop (with_engine t m')
        else enter t m' s'' now num_tokens remaining)

  -- A new request is allocated after its check.
  unfoldable pub start_local :
      State
      → Engine S P R xxh64 clock
      → Sequence S.F
      → S.F
      → ℕ
      → ℕ
      → Result (Turn (Engine S P R xxh64 clock))
  unfolding enter
  start_local t m s now remaining num_cached_blocks =
      let num_tokens = s.num_tokens - num_cached_blocks * m.options.block_size in
      if does_not_fit t num_tokens remaining then ok (stop (with_engine t m)) else (do
        (blocks, s') ← allocate P xxh64 m.block_manager s num_cached_blocks
        let s'' = record_reused_tokens s' (s'.num_cached_tokens - s.num_cached_tokens)
        let m' = record m { block_manager = blocks; waiting = update_seq s'' m.waiting }
        ok (enter t m' s'' now num_tokens remaining))

  -- The pages kept back for the running requests; `true` if the new one would eat into them.
  unfoldable pub reserve_short : Engine S P R xxh64 clock → Sequence S.F → Result Bool
  reserve_short m s = elim (lookahead m) [
    | false ↦ ok false
    | true ↦ do
      required ← planned_allocation_pages P xxh64 m.block_manager s
      let reserve =
          priority_reserve_pages s m.running m.options.kv_admission_lookahead m.options.block_size
      ok (ltb (length m.block_manager.free_block_ids) (required + reserve))
  ]

  -- The plan of the check is dropped with the admission.
  abbrev pub without_plan : Engine S P R xxh64 clock → ℕ → Engine S P R xxh64 clock
  without_plan m i =
      with_blocks m (record (m.block_manager) {
        pending_matches = Dict.remove i m.block_manager.pending_matches;
      })

  unfoldable pub admit :
      State
      → Engine S P R xxh64 clock
      → Sequence S.F
      → S.F
      → ℕ
      → ℕ
      → Result (Turn (Engine S P R xxh64 clock))
  unfolding start_local
  admit t m s now remaining num_cached_blocks = do
    short ← reserve_short m s
    elim short [
      | true ↦ ok (defer t (without_plan m s.seq_id) s.seq_id)
      | false ↦ do
        (m', started) ← start_remote_restore S P R xxh64 clock m s num_cached_blocks now
        elim started [
          | true ↦ ok (again (with_engine t m'))
          | false ↦ do
            s' ← or_raise (find_seq s.seq_id m'.waiting) Error.value_error
            start_local t m' s' now remaining num_cached_blocks
        ]
    ]

  unfoldable pub start_new :
      State
      → Engine S P R xxh64 clock
      → Sequence S.F
      → S.F
      → ℕ
      → Result (Turn (Engine S P R xxh64 clock))
  start_new t m s now remaining = do
    (blocks, cached) ← can_allocate P xxh64 m.block_manager s
    elim cached [
      | none ↦ ok (blocked t (with_blocks m blocks) s.seq_id)
      | some n ↦ admit t (with_blocks m blocks) s now remaining n
    ]

  -- Room for a request that holds pages; the answer `none` stands for `break`.
  unfoldable pub make_room :
      Engine S P R xxh64 clock → S.F → Sequence S.F → Result (Engine S P R xxh64 clock × Bool)
  make_room m now s = elim (has_table s) [
    | false ↦ ok (m, true)
    | true ↦ do
      done ← ensure_resume_capacity S P xxh64 (suc (suc (length m.waiting))) m now s.seq_id
      or_raise done Error.out_of_rounds
  ]

  -- The request of number `i`, once there is room.
  unfoldable pub proceed :
      State → Engine S P R xxh64 clock → ℕ → S.F → ℕ → Result (Turn (Engine S P R xxh64 clock))
  proceed t m i now remaining = do
    s ← or_raise (find_seq i m.waiting) Error.value_error
    elim (has_table s) [
      | true ↦ continue_resident t m s now remaining
      | false ↦ start_new t m s now remaining
    ]

  -- The selected request, with its budget noted.
  unfoldable pub choose_waiting :
      Engine S P R xxh64 clock
      → S.F
      → List (Sequence S.F)
      → Result (Engine S P R xxh64 clock × Sequence S.F)
  choose_waiting m now ss = do
    picked ← select S (policy m) ss m.step_id now
    s ← or_raise (find_seq picked.seq_id m.waiting) Error.value_error
    budget ← policy_budget_ms S m s now
    let s' = record s { last_budget_ms = budget }
    ok (with_waiting m (update_seq s' m.waiting), s')

  -- One round of the loop.
  unfoldable pub prefill_round : S.F → State → Result (Turn (Engine S P R xxh64 clock))
  prefill_round now t = do
    candidates ← eligible t now
    elim candidates [
      | none ↦ ok (stop t)
      | some ss ↦ do
        (m, s) ← choose_waiting t.engine now ss
        let remaining = m.options.max_num_batched_tokens - t.num_batched_tokens
        elim (remaining == 0) [
          | true ↦ ok (stop (with_engine t m))
          | false ↦ do
            (m', room) ← make_room m now s
            elim room [
              | false ↦ ok (stop (with_engine t m'))
              | true ↦ proceed t m' s.seq_id now remaining
            ]
        ]
    ]

  unfoldable pub prefill_loop : ℕ → S.F → State → Result (Option State)
  prefill_loop zero now t = ok none
  prefill_loop (suc rounds) now t =
      elim (not (no_seqs t.engine.waiting)
        && ltb (length t.scheduled) t.engine.options.max_num_seqs) [
          | false ↦ ok (some t)
          | true ↦ do
            turn ← prefill_round now t
            elim turn [ stop t' ↦ ok (some t') | again t' ↦ prefill_loop rounds now t' ]
        ]
