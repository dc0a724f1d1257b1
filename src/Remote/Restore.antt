-- ===== src/Remote/Restore.antt =====
-- nanovllm/engine/remote_restore.py: `plan_restore`, whether a request restores its prefix from the
-- remote store.
use nano_vllm_qos.Prelude.{
  ℕ, ◌-◌, ◌*◌, ◌/◌, Bool, true, false, ◌&&◌, Option, none, some, List, [], ◌∷◌, Result, ok, ◌>>=◌,
  if◌then◌else◌, leb, length, take,
}
use nano_vllm_qos.Scalar.{Scalar}
use nano_vllm_qos.Sequence.{Sequence, num_blocks}
use nano_vllm_qos.BlockManager.Lookup.{block_keys}
use nano_vllm_qos.Planner.{
  CacheTier, mooncake, Action, restore, KvAccessPlan, KvTransferPlanner, plan_access,
}
use nano_vllm_qos.Remote.{RemotePageDescriptor, RemotePrefixCatalog, match_pages}

pub record RemoteRestoreCandidate (F : Type 0) : Type 0 where
  pub pages : List RemotePageDescriptor
  pub estimated_total_ms : F
  pub estimated_transfer_bytes : ℕ

abbrev pub is_restore : Action → Bool
is_restore restore = true
is_restore _ = false

abbrev pub is_mooncake : CacheTier → Bool
is_mooncake mooncake = true
is_mooncake _ = false

-- The pages that a plan restores, and what it estimates.
abbrev pub offer :
    {F : Type 0} → KvAccessPlan F → List RemotePageDescriptor → ℕ → RemoteRestoreCandidate F
offer plan pages block_size = record {
  pages = take (plan.source_cached_tokens / block_size) pages;
  estimated_total_ms = plan.total_ms;
  estimated_transfer_bytes = plan.transfer_bytes;
}

module _ (S : Scalar) where
  -- What the planner says of the pages that the catalog has.
  unfoldable pub weigh :
      Option (KvTransferPlanner S.F)
      → Sequence S.F
      → ℕ
      → S.F
      → List RemotePageDescriptor
      → Result (Option (RemoteRestoreCandidate S.F))
  weigh none s local_cached_blocks prefill pages =
      ok (
        some
          (record { pages = pages; estimated_total_ms = S.of_ℕ 0; estimated_transfer_bytes = 0 }))
  weigh (some planner) s local_cached_blocks prefill pages = do
    plan ←
        plan_access S planner s.num_tokens (local_cached_blocks * s.block_size)
          ((mooncake, length pages * s.block_size) ∷ []) prefill
    ok (
        if is_restore plan.action && is_mooncake plan.source_tier
        then some (offer plan pages s.block_size)
        else none)

  unfoldable pub plan_restore :
      Option (KvTransferPlanner S.F)
      → RemotePrefixCatalog
      → Sequence S.F
      → ℕ
      → S.F
      → Result (RemotePrefixCatalog × Option (RemoteRestoreCandidate S.F))
  plan_restore planner c s local_cached_blocks prefill = do
    keys ← block_keys s 0 (num_blocks s - 1)
    (c', pages) ← match_pages c keys
    if leb (length pages) local_cached_blocks
        then ok (c', none)
        else (do found ← weigh planner s local_cached_blocks prefill pages; ok (c', found))
