-- ===== src/BlockManager/Resume.antt =====
-- `can_resume`, `resume`, `can_append`, `may_append`.
use nano_vllm_qos.Prelude.{
  ℕ, ◌+◌, ◌-◌, ◌*◌, ◌%◌, Bool, true, false, none, some, List, [], ◌∷◌, ◌++◌, Result, ok, err, Error,
  guard, ◌>>=◌, ◌>>◌, if◌then◌else◌, ltb, leb, ◌==◌, length, take, drop,
}
use nano_vllm_qos.Prelude.Dict
use nano_vllm_qos.Sequence.{Sequence, num_blocks}
use nano_vllm_qos.BlockManager.{BlockManager, PrefixIndex, range_from}
use nano_vllm_qos.BlockManager.Allocate.{num_used}
use nano_vllm_qos.BlockManager.Lookup.{lookup_cached_blocks, same_tokens}
use nano_vllm_qos.BlockManager.Pool.{claim_all, allocate_block, allocate_blocks}

module _ {F : Type 0} (P : PrefixIndex) (xxh64 : List ℕ → ℕ) where
  -- The cached blocks behind the retained ones, if the cache agrees with what is retained.
  abbrev pub cached_suffix : Sequence F → List ℕ → List ℕ
  cached_suffix s cached =
      let retained = length s.block_table in
      if same_tokens (take retained cached) s.block_table
      then take (num_blocks s - retained) (drop retained cached)
      else []

  unfoldable pub can_resume :
      BlockManager P.Index → Sequence F → Result (BlockManager P.Index × Bool)
  can_resume m s = do
    guard (leb (length s.block_table) (num_blocks s)) Error.runtime_error
    let missing_blocks = num_blocks s - length s.block_table
    (m', cached) ← lookup_cached_blocks P xxh64 m s
    let suffix = cached_suffix s cached
    ok (
        if ltb (length m'.free_block_ids) (missing_blocks - num_used m'.used_block_ids suffix)
        then (
          record m' { pending_resume_matches = Dict.remove s.seq_id m'.pending_resume_matches },
          false,
        )
        else (
          record m' { pending_resume_matches = Dict.put s.seq_id suffix m'.pending_resume_matches },
          true,
        ))

  -- The plan of the last check, or that of a check made now.
  unfoldable pub planned_suffix :
      BlockManager P.Index → Sequence F → Result (BlockManager P.Index × List ℕ)
  planned_suffix m s =
      let pop = λ (o : BlockManager P.Index). record o {
        pending_resume_matches = Dict.remove s.seq_id o.pending_resume_matches;
      } in
      elim (Dict.get s.seq_id m.pending_resume_matches) [
        | some suffix ↦ ok (pop m, suffix)
        | none ↦ do
          (m', fits) ← can_resume m s
          guard fits Error.runtime_error
          elim (Dict.get s.seq_id m'.pending_resume_matches) [
            | none ↦ err Error.key_error
            | some suffix ↦ ok (pop m', suffix)
          ]
      ]

  -- The request with its whole table, and the number of tokens whose KV was reused.
  unfoldable pub resume :
      BlockManager P.Index → Sequence F → Result (BlockManager P.Index × Sequence F × ℕ)
  unfolding planned_suffix
  resume m s = do
    (m', suffix) ← planned_suffix m s
    m'' ← claim_all m' suffix
    let table = s.block_table ++ suffix
    let missing = num_blocks s - length table
    let reused_tokens = length suffix * m.block_size
    (m''', fresh) ← allocate_blocks P missing m''
    let n = length s.kv_block_logical_indices
    ok (
      m''',
      record s {
        block_table = table ++ fresh;
        kv_block_logical_indices =
            s.kv_block_logical_indices ++ range_from n (length suffix + missing);
        num_cached_tokens = s.num_cached_tokens + reused_tokens;
        num_physical_cached_tokens = s.num_physical_cached_tokens + reused_tokens;
      },
      reused_tokens,
    )

module _ {F : Type 0} (P : PrefixIndex) where
  -- A new page is due when the last token is the first of its block.
  abbrev pub needs_page : BlockManager P.Index → Sequence F → Bool
  needs_page m s = s.num_tokens % m.block_size == 1

  unfoldable pub can_append : BlockManager P.Index → Sequence F → Bool
  can_append m s = leb (if needs_page m s then 1 else 0) (length m.free_block_ids)

  unfoldable pub may_append :
      BlockManager P.Index → Sequence F → Result (BlockManager P.Index × Sequence F)
  may_append m s =
      if needs_page m s
      then (do
        (m', b) ← allocate_block P m
        ok (
          m',
          record s {
            block_table = s.block_table ++ b ∷ [];
            kv_block_logical_indices = s.kv_block_logical_indices ++ (num_blocks s - 1) ∷ [];
          },
        ))
      else ok (m, s)
