-- ===== src/Tests/Remote.antt =====
-- The catalog of remote prefixes at concrete inputs.
use Prim.Native.String.{String}
use text.Mathlib.Text.{◌==◌}
use text.Mathlib.TextEquality.{eq_iff}
use nano_vllm_qos.Prelude.{
  ℕ, arith, Option, none, not, ◌≡◌, refl, Bool, true, false, List, [], ◌∷◌, ◌++◌, drop, leb,
  if◌then◌else◌, ok, some, length,
}
use nano_vllm_qos.Radix.{BlockKey, leaf, child, empty_cache}
use nano_vllm_qos.Scalar.{whole, whole_order}
use nano_vllm_qos.Planner.{KvTransferPlanner}
use nano_vllm_qos.Planner
use nano_vllm_qos.Remote.Restore
use nano_vllm_qos.Remote.Offer.{IsOffer, plan_restore-IsOffer}
use nano_vllm_qos.Remote.Restore.{RemoteRestoreCandidate, plan_restore}
use nano_vllm_qos.Remote.Pending.{
  Future, finished, PendingRemoteRestore, has_bad, is_waits, restore_done, restore_result,
  restore_result-is_waits,
}
use nano_vllm_qos.Remote.Writeback.{Writes, Planned, pages_requiring_write, submit_writeback}
use nano_vllm_qos.Remote.Writeback
use nano_vllm_qos.Remote.Required.{pages_requiring_write-submit_writeback}
use nano_vllm_qos.Tests.Data.{request}
use nano_vllm_qos.Radix
use nano_vllm_qos.Radix.Insert
use nano_vllm_qos.Remote.{
  RemotePageDescriptor, RemotePrefixCatalog, empty_catalog, register, match_pages,
}
use nano_vllm_qos.Remote
use nano_vllm_qos.Remote.Consistent.{IsConsistent, empty-IsConsistent, register-IsConsistent}
use nano_vllm_qos.Remote.Pages.{register-match_pages}

-- `==` of strings
abbrev same : String → String → Bool
same a b = a == b

same_sound : (a b : String) → same a b ≡ true → a ≡ b
same_sound a b = (eq_iff a b).0

abbrev keys : List BlockKey
keys = (1 ∷ 2 ∷ 3 ∷ 4 ∷ []) ∷ (5 ∷ 6 ∷ 7 ∷ 8 ∷ []) ∷ []

abbrev page : String → ℕ → RemotePageDescriptor
page key index = record {
  object_key = key;
  identity_digest = "model-a";
  tp_rank = 0;
  page_index = index;
}

abbrev pages : List RemotePageDescriptor
pages = page "page-0" 0 ∷ page "page-1" 1 ∷ []

abbrev registered : RemotePrefixCatalog
registered = record {
  index = record empty_cache {
    root = child (((1 ∷ 2 ∷ 3 ∷ 4 ∷ []), 0) ∷ ((5 ∷ 6 ∷ 7 ∷ 8 ∷ []), 1) ∷ []) leaf 1 leaf;
    clock = 1;
  };
  descriptors = (0, page "page-0" 0) ∷ (1, page "page-1" 1) ∷ [];
  next_handle = 2;
  identity = some ("model-a", 0);
}

register_first : register same empty_catalog keys pages ≡ ok registered
unfolding register Remote.enter Insert.insert nano_vllm_qos.Prelude.count Insert.insert_path
    Remote.drop_unused Radix.occurrences Remote.describe nano_vllm_qos.Prelude.Dict.put
register_first = refl

-- The pages of a prefix that is there already are dropped, and their handles are not used again.
abbrev registered_twice : RemotePrefixCatalog
registered_twice = record registered {
  index = record empty_cache {
    root = child (((1 ∷ 2 ∷ 3 ∷ 4 ∷ []), 0) ∷ ((5 ∷ 6 ∷ 7 ∷ 8 ∷ []), 1) ∷ []) leaf 2 leaf;
    clock = 2;
  };
  next_handle = 4;
}

abbrev duplicates : List RemotePageDescriptor
duplicates = page "duplicate-0" 0 ∷ page "duplicate-1" 1 ∷ []

register_second : register same registered keys duplicates ≡ ok registered_twice
unfolding register Remote.enter Insert.insert nano_vllm_qos.Prelude.count Insert.insert_path
    Remote.drop_unused Radix.common_prefix_length Radix.occurrences
    nano_vllm_qos.Prelude.Dict.remove Remote.describe nano_vllm_qos.Prelude.Dict.put
register_second = refl

-- The catalog after both.
registered_twice-IsConsistent : IsConsistent registered_twice
registered_twice-IsConsistent =
    register-IsConsistent same registered registered_twice keys duplicates
      (register-IsConsistent same empty_catalog registered keys pages empty-IsConsistent
        register_first)
      register_second

register-match_pages_example :
    (before : RemotePrefixCatalog × List RemotePageDescriptor) × (after : RemotePrefixCatalog
      × List RemotePageDescriptor)
    × (match_pages registered keys ≡ ok before)
    × (match_pages registered_twice keys ≡ ok after)
    × (after.1 ≡ before.1 ++ drop (length (before.1)) duplicates)
    × IsConsistent (after.0)
register-match_pages_example =
    register-match_pages same registered registered_twice keys duplicates
      (register-IsConsistent same empty_catalog registered keys pages empty-IsConsistent
        register_first)
      register_second

-- Two blocks of the request are in the catalog, and none on the device.
abbrev planner : KvTransferPlanner ℕ
planner = record {
  geometry = record { num_layers = 1; num_kv_heads = 1; head_dim = 1; dtype_bytes = 1 };
  tier_profiles =
      λ tier. some (record { bandwidth_gbps = 1; fixed_latency_ms = 1; congestion_multiplier = 1 });
}

plan_restore-IsOffer_example :
    (c' : RemotePrefixCatalog) × (found : Option (RemoteRestoreCandidate ℕ)) × (plan_restore whole
        (some planner)
        registered_twice
        request
        0
        5
      ≡ ok (c', found))
    × IsConsistent c'
    × IsOffer 0 request found
plan_restore-IsOffer_example =
    plan_restore-IsOffer whole whole_order (some planner) registered_twice request 0 5
      registered_twice-IsConsistent (omega arith) refl

-- The restore is worth its cost: both pages.
offered :
    (c' : RemotePrefixCatalog) × (r : RemoteRestoreCandidate ℕ) × (plan_restore whole
        (some planner)
        registered_twice
        request
        0
        5
      ≡ ok (c', some r))
    × (length r.pages ≡ 2)
unfolding plan_restore nano_vllm_qos.BlockManager.Lookup.block_keys nano_vllm_qos.Sequence.block
    match_pages Remote.described_pages Radix.match_keys Radix.descend
    nano_vllm_qos.Sequence.slice_block Radix.common_prefix_length nano_vllm_qos.Prelude.Dict.get
    Restore.weigh Planner.plan_access Planner.candidates Planner.candidate
    nano_vllm_qos.Policy.Select.select_min Planner.plan_lt Planner.recompute_plan
    Planner.restore_plan Planner.transfer_time_ms
offered = (_, _, refl, refl)

-- One read waits, and another found no page: the restore is done, and its result raises at once.
abbrev early : PendingRemoteRestore ℕ
early = record {
  seq_id = 7;
  pages = pages;
  block_ids = 4 ∷ 5 ∷ [];
  futures = Future.waiting ∷ finished none ∷ [];
}

restore_result-is_waits_example : is_waits (restore_result early) ≡ not (restore_done early)
restore_result-is_waits_example = restore_result-is_waits early

early_done : restore_done early ≡ true
unfolding restore_done has_bad
early_done = refl

-- The first page is in the catalog, the write of the second has failed, and that of the third waits.
abbrev writes : Writes
writes = record {
  catalog = registered;
  inflight_writes = ("page-2", 5) ∷ ("page-3", 6) ∷ [];
  next_future = 7;
  closed = false;
}

abbrev state : ℕ → Future (Unit {0})
state n = if leb n 5 then Future.failed else Future.waiting

abbrev new_keys : List BlockKey
new_keys = keys ++ (9 ∷ []) ∷ (10 ∷ []) ∷ []

abbrev new_pages : List RemotePageDescriptor
new_pages = pages ++ page "page-2" 2 ∷ page "page-3" 3 ∷ []

-- The failed write is forgotten, and its page is required.
abbrev left : Writes
left = record writes {
  catalog = record registered {
    index = record empty_cache {
      root = child (((1 ∷ 2 ∷ 3 ∷ 4 ∷ []), 0) ∷ ((5 ∷ 6 ∷ 7 ∷ 8 ∷ []), 1) ∷ []) leaf 2 leaf;
      clock = 2;
      lookups = 1;
      queried_blocks = 4;
      hit_blocks = 2;
    };
  };
  inflight_writes = ("page-3", 6) ∷ [];
}

one_required : pages_requiring_write same state writes new_keys new_pages ≡ ok (left, 2 ∷ [])
unfolding pages_requiring_write match_pages Remote.described_pages Radix.match_keys Radix.descend
    Radix.common_prefix_length nano_vllm_qos.Prelude.Dict.get Writeback.require Writeback.find
    Writeback.forget
one_required = refl

pages_requiring_write-submit_writeback_example :
    (r : Writes × Option (List Planned × List ℕ)) × (submit_writeback same left new_keys new_pages
        (2 ∷ [])
      ≡ ok r)
pages_requiring_write-submit_writeback_example =
    pages_requiring_write-submit_writeback same same_sound state writes left new_keys new_pages
      (2 ∷ []) (2 ∷ []) refl one_required (λ j e. e)
