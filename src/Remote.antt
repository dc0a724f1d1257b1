-- ===== src/Remote.antt =====
-- nanovllm/engine/remote_restore.py: the catalog of remote prefixes, a radix index whose blocks are
-- handles of page descriptors. `same` is `==` of strings.
pub mod Occurrences
pub mod Consistent
pub mod Match
pub mod Pages
pub mod Restore
pub mod Offer
pub mod Pending
pub mod Writeback
pub mod Inflight
pub mod Required
use Prim.Native.String.{String}
use nano_vllm_qos.Prelude.{
  ℕ, zero, suc, ◌+◌, Bool, true, false, ◌&&◌, Option, none, some, List, [], ◌∷◌, Result, ok, err,
  Error, guard, or_raise, ◌>>=◌, ◌>>◌, if◌then◌else◌, ◌==◌, length,
}
use nano_vllm_qos.Prelude.Dict
use nano_vllm_qos.Request.{nonempty}
use nano_vllm_qos.BlockManager.{range_from}
use nano_vllm_qos.Radix.{BlockKey, RadixPrefixCache, empty_cache, match_keys, is_indexed}
use nano_vllm_qos.Radix.Insert.{insert}
use nano_vllm_qos.Catalog.{CatalogPageRecord, CatalogPrefixRecord, RemoteCatalogSnapshot}

pub record RemotePageDescriptor : Type 0 where
  pub object_key : String
  pub identity_digest : String
  pub tp_rank : ℕ
  pub page_index : ℕ

-- `RemotePageDescriptor.__post_init__`
unfoldable pub check_descriptor : RemotePageDescriptor → Result (Unit {0})
check_descriptor d = guard (nonempty d.object_key && nonempty d.identity_digest) Error.value_error

pub record RemotePrefixCatalog : Type 0 where
  pub index : RadixPrefixCache
  pub descriptors : List (ℕ × RemotePageDescriptor)
  pub next_handle : ℕ
  pub identity : Option (String × ℕ)

abbrev pub empty_catalog : RemotePrefixCatalog
empty_catalog = record { index = empty_cache; descriptors = []; next_handle = 0; identity = none }

-- Each descriptor names its position.
abbrev pub are_numbered : ℕ → List RemotePageDescriptor → Bool
are_numbered i [] = true
are_numbered i (d ∷ ds) = d.page_index == i && are_numbered (suc i) ds

-- `for handle, descriptor in zip(handles, descriptors)`
unfoldable pub describe :
    List ℕ
    → List RemotePageDescriptor
    → List (ℕ × RemotePageDescriptor)
    → List (ℕ × RemotePageDescriptor)
describe (h ∷ handles) (d ∷ ds) described = describe handles ds (Dict.put h d described)
describe _ _ described = described

-- The descriptors of handles that the index did not take are dropped.
unfoldable pub drop_unused :
    RadixPrefixCache → List ℕ → List (ℕ × RemotePageDescriptor) → List (ℕ × RemotePageDescriptor)
drop_unused index [] described = described
drop_unused index (h ∷ handles) described =
    drop_unused index handles (if is_indexed index h then described else Dict.remove h described)

-- The descriptors of the handles; `self.descriptors[handle]` raises where there is none.
unfoldable pub described_pages :
    List (ℕ × RemotePageDescriptor) → List ℕ → Result (List RemotePageDescriptor)
described_pages described [] = ok []
described_pages described (h ∷ handles) = do
  d ← or_raise (Dict.get h described) Error.key_error
  ds ← described_pages described handles
  ok (d ∷ ds)

unfoldable pub match_pages :
    RemotePrefixCatalog → List BlockKey → Result (RemotePrefixCatalog × List RemotePageDescriptor)
match_pages c block_keys = do
  let (index', handles) = match_keys c.index block_keys
  pages ← described_pages c.descriptors handles
  ok (record c { index = index' }, pages)

module _ (same : String → String → Bool) where
  -- `len(identities) == 1`
  abbrev pub have_identity : String × ℕ → List RemotePageDescriptor → Bool
  have_identity identity [] = true
  have_identity identity (d ∷ ds) =
      same d.identity_digest identity.0 && d.tp_rank == identity.1 && have_identity identity ds

  abbrev pub identity_of : List RemotePageDescriptor → Result (String × ℕ)
  identity_of [] = err Error.value_error
  identity_of (d ∷ ds) = do
    guard (have_identity (d.identity_digest, d.tp_rank) ds) Error.value_error
    ok (d.identity_digest, d.tp_rank)

  -- `self._identity is not None and identity != self._identity` does not hold.
  abbrev pub accepts : Option (String × ℕ) → String × ℕ → Bool
  accepts none identity = true
  accepts (some known) identity = same identity.0 known.0 && identity.1 == known.1

  -- What `register` does once the descriptors are accepted.
  unfoldable pub enter :
      RemotePrefixCatalog
      → List BlockKey
      → List RemotePageDescriptor
      → String × ℕ
      → Result RemotePrefixCatalog
  enter c block_keys ds identity = do
    let handles = range_from c.next_handle (length block_keys)
    index' ← insert c.index block_keys handles
    ok (record {
      index = index';
      descriptors = drop_unused index' handles (describe handles ds c.descriptors);
      next_handle = c.next_handle + length block_keys;
      identity = some identity;
    })

  unfoldable pub register :
      RemotePrefixCatalog → List BlockKey → List RemotePageDescriptor → Result RemotePrefixCatalog
  register c block_keys ds = do
    guard (length block_keys == length ds) Error.value_error
    if length block_keys == 0 then ok c else (do
      guard (are_numbered 0 ds) Error.value_error
      identity ← identity_of ds
      guard (accepts c.identity identity) Error.value_error
      enter c block_keys ds identity)

  abbrev descriptors_of : List CatalogPageRecord → List RemotePageDescriptor
  descriptors_of [] = []
  descriptors_of (p ∷ ps) =
      record {
        object_key = p.object_key;
        identity_digest = p.identity_digest;
        tp_rank = p.tp_rank;
        page_index = p.page_index;
      }
      ∷ descriptors_of ps

  unfoldable pub register_all :
      RemotePrefixCatalog → List CatalogPrefixRecord → Result RemotePrefixCatalog
  register_all c [] = ok c
  register_all c (p ∷ ps) = do
    c' ← register c p.block_keys (descriptors_of p.pages)
    register_all c' ps

  unfoldable pub merge_snapshot :
      RemotePrefixCatalog → RemoteCatalogSnapshot → Result (RemotePrefixCatalog × ℕ)
  merge_snapshot c s = do
    guard (accepts c.identity (s.identity_digest, s.tp_rank)) Error.value_error
    c' ← register_all c s.prefixes
    ok (c', length s.prefixes)
