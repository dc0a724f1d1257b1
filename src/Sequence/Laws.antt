-- ===== src/Sequence/Laws.antt =====
-- What holds of a request through its life: lengths, blocks, accounting of recomputation, restore
-- transitions and transport.
use nano_vllm_qos.Prelude.{
  ℕ, ◌+◌, ◌-◌, ◌*◌, ◌/◌, min, ◌≤◌, ◌<◌, ◌≡◌, refl, inl, inr, true, false, some, List, [], ◌∷◌, ◌++◌,
  ok, arith, length, take, drop, length-append, length-take, length-drop, if◌then◌else◌, Bool-cases,
}
use nano_vllm_qos.Sequence.{
  Sequence, last, num_blocks, block, slice_block, append_token, num_completion_tokens,
  record_kv_reclaim, record_recomputed_tokens, record_reused_tokens, is_terminal, cancel,
}
use nano_vllm_qos.Sequence.Transport.{get_state, set_state, WireSequence}

-- The counters agree with the tokens, and the prompt comes first.
pub record IsWellFormed {F : Type 0} (s : Sequence F) : Type 0 where
  pub sized : 0 < s.block_size
  pub counted : s.num_tokens ≡ length s.token_ids
  pub prompt_first : s.num_prompt_tokens ≤ s.num_tokens
  pub last_is_last : last s.token_ids ≡ some s.last_token

last-append : (xs : List ℕ) (x : ℕ) → last (xs ++ x ∷ []) ≡ some x
last-append [] x = refl
last-append (y ∷ []) x = refl
last-append (y ∷ z ∷ xs) x = last-append (z ∷ xs) x

block_start : (i n size : ℕ) → 0 < size → i < (n + size - 1) / size → i * size < n
block_start i n size h k = grind arith

block_end : (i n size : ℕ) → 0 < size → i + 1 < (n + size - 1) / size → i * size + size < n
block_end i n size h k = grind (arith, block_start (i + 1) n size)

slice_length :
    (size start : ℕ) (xs : List ℕ)
    → length (take size (drop start xs)) ≡ min size (length xs - start)
slice_length size start xs = omega (arith, length-take size (drop start xs), length-drop start xs)

-- Tokens whose KV was recomputed, and those still to be, were all invalidated by a reclaim.
abbrev pub IsAccounted : {F : Type 0} → Sequence F → Type 0
IsAccounted r =
    r.kv_recomputed_tokens + r.pending_preemption_recompute_tokens ≤ r.kv_invalidated_tokens

module _ {F : Type 0} (s : Sequence F) where
  -- Appending a token keeps a request well formed and adds one completion token.
  pub append_token-IsWellFormed :
      (t : ℕ) (now : F)
      → IsWellFormed s
      → IsWellFormed (append_token s t now)
        × (num_completion_tokens (append_token s t now) ≡ num_completion_tokens s + 1)
  unfolding append_token
  append_token-IsWellFormed t now w = (
    record {
      sized = w.sized;
      counted = omega (arith, length-append s.token_ids (t ∷ []));
      prompt_first = omega arith;
      last_is_last = last-append s.token_ids t;
    },
    omega arith,
  )

  -- Every block but the last is full, and the last holds what is left, at least one token.
  pub length-block :
      (i : ℕ) {b : List ℕ}
      → IsWellFormed s
      → block s i ≡ ok b
      → (i + 1 < num_blocks s → length b ≡ s.block_size)
        × (0 < length b)
        × (length b ≤ s.block_size)
  unfolding block slice_block
  length-block i {b} w e = ground (
    arith,
    slice_length s.block_size (i * s.block_size) s.token_ids,
    block_start i s.num_tokens s.block_size,
    block_end i s.num_tokens s.block_size,
  )

  -- What the other process holds: every field of the state, the tokens of a prefill step, and the
  -- last token in both modes.
  abbrev pub received : WireSequence
  received = record {
    num_tokens = s.num_tokens;
    num_prompt_tokens = s.num_prompt_tokens;
    num_cached_tokens = s.num_cached_tokens;
    num_physical_cached_tokens = s.num_physical_cached_tokens;
    num_scheduled_tokens = s.num_scheduled_tokens;
    block_table = s.block_table;
    kv_block_logical_indices = s.kv_block_logical_indices;
    kv_compressed = s.kv_compressed;
    token_ids = if s.is_prefill then s.token_ids else [];
    last_token = s.last_token;
  }

  -- Unpickling what a well-formed request pickles never raises. It restores the eight plain fields,
  -- the last token in both modes, and the token list in a prefill step (an empty list otherwise).
  pub set_state-get_state : IsWellFormed s → set_state (get_state s) ≡ ok received
  unfolding set_state get_state
  set_state-get_state w = elim (Bool-cases s.is_prefill) [
    | inl prefill ↦ simp (prefill, w.last_is_last)
    | inr decode ↦ simp decode
  ]

  -- A reclaim, a recomputation and a cache reuse keep the account: the tokens recomputed and those
  -- still owed are never more than the tokens invalidated.
  pub record-IsAccounted :
      (a b c : ℕ)
      → IsAccounted s
      → IsAccounted (record_kv_reclaim s a b c)
        × IsAccounted (record_recomputed_tokens s a)
        × IsAccounted (record_reused_tokens s a)
  unfolding record_kv_reclaim record_recomputed_tokens record_reused_tokens
  record-IsAccounted a b c h = (omega arith, omega arith, omega arith)

  -- `cancel` ends a live request at the given time, and changes nothing of a finished or cancelled
  -- one; in both cases the request is terminal afterwards.
  pub cancel_lem :
      (now : F)
      → (is_terminal (cancel s now) ≡ true)
        × (is_terminal s ≡ true → cancel s now ≡ s)
        × (is_terminal s ≡ false → (cancel s now).finished_time ≡ some now)
  unfolding cancel
  cancel_lem now = elim (Bool-cases (is_terminal s)) [
    | inl done ↦ (rw (done, cancel) done, λ _. rw done, λ e. absurd (ground arith))
    | inr live ↦ (rw live, λ e. absurd (ground arith), λ _. rw live)
  ]
