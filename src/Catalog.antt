-- ===== src/Catalog.antt =====
-- nanovllm/engine/remote_catalog.py: the records of the remote prefix catalog and their checks. The
-- fields have their types here, so the `isinstance` tests have no case; `same` is `==` of strings.
use Prim.Native.String.{String}
use nano_vllm_qos.Prelude.{
  ℕ, zero, suc, ◌+◌, ◌≡◌, Bool, true, false, ◌&&◌, List, [], ◌∷◌, ◌++◌, Result, ok, Error, guard,
  ◌>>◌, some, refl, arith, ltb, ◌==◌, length, get_elem?,
}
use nano_vllm_qos.Request.{nonempty}

pub record CatalogPageRecord : Type 0 where
  pub object_key : String
  pub identity_digest : String
  pub tp_rank : ℕ
  pub page_index : ℕ

pub record CatalogPrefixRecord : Type 0 where
  pub block_keys : List (List ℕ)
  pub pages : List CatalogPageRecord

pub record RemoteCatalogSnapshot : Type 0 where
  pub identity_digest : String
  pub tp_rank : ℕ
  pub prefixes : List CatalogPrefixRecord

-- `CatalogPageRecord.__post_init__`
unfoldable pub check_page : CatalogPageRecord → Result (Unit {0})
check_page p = guard (nonempty p.object_key && nonempty p.identity_digest) Error.value_error

-- Every block has `size` tokens.
abbrev all_sized : ℕ → List (List ℕ) → Bool
all_sized size [] = true
all_sized size (b ∷ bs) = length b == size && all_sized size bs

-- `len({len(block) for block in blocks}) == 1`
abbrev pub one_size : List (List ℕ) → Bool
one_size [] = false
one_size (b ∷ bs) = all_sized (length b) bs

-- No block is empty.
abbrev pub none_empty : List (List ℕ) → Bool
none_empty [] = true
none_empty (b ∷ bs) = ltb 0 (length b) && none_empty bs

abbrev pub fits_uint32 : List ℕ → Bool
fits_uint32 [] = true
fits_uint32 (t ∷ ts) = ltb t 4294967296 && fits_uint32 ts

-- The loop over blocks and pages, from position `i` on.
unfoldable pub check_pages : ℕ → List (List ℕ) → List CatalogPageRecord → Result (Unit {0})
check_pages i [] pages = ok tt
check_pages i (b ∷ bs) [] = ok tt
check_pages i (b ∷ bs) (p ∷ ps) = do
  guard (p.page_index == i) Error.value_error
  guard (fits_uint32 b) Error.value_error
  check_pages (suc i) bs ps

-- `CatalogPrefixRecord.__post_init__`
unfoldable pub check_prefix : CatalogPrefixRecord → Result (Unit {0})
check_prefix p = do
  guard (ltb 0 (length p.block_keys) && length p.block_keys == length p.pages) Error.value_error
  guard (one_size p.block_keys && none_empty p.block_keys) Error.value_error
  check_pages 0 p.block_keys p.pages

abbrev all_blocks : List CatalogPrefixRecord → List (List ℕ)
all_blocks [] = []
all_blocks (p ∷ ps) = p.block_keys ++ all_blocks ps

module _ (same : String → String → Bool) where
  -- The pages of a prefix carry the identity of the snapshot.
  abbrev pub pages_match : String → ℕ → List CatalogPageRecord → Bool
  pages_match digest rank [] = true
  pages_match digest rank (p ∷ ps) =
      same p.identity_digest digest && p.tp_rank == rank && pages_match digest rank ps

  abbrev pub prefixes_match : String → ℕ → List CatalogPrefixRecord → Bool
  prefixes_match digest rank [] = true
  prefixes_match digest rank (p ∷ ps) =
      pages_match digest rank p.pages && prefixes_match digest rank ps

  -- `RemoteCatalogSnapshot.__post_init__`
  unfoldable pub check_snapshot : RemoteCatalogSnapshot → Result (Unit {0})
  check_snapshot s = do
    guard (nonempty s.identity_digest) Error.value_error
    guard (ltb 0 (length s.prefixes)) Error.value_error
    guard (one_size (all_blocks s.prefixes)) Error.value_error
    guard (prefixes_match s.identity_digest s.tp_rank s.prefixes) Error.value_error

check_pages_lem :
    (i j : ℕ) (bs : List (List ℕ)) (ps : List CatalogPageRecord) (p : CatalogPageRecord)
    → length bs ≡ length ps
    → check_pages i bs ps ≡ ok tt
    → get_elem? ps j ≡ some p
    → (p.page_index ≡ i + j) × (b : List ℕ) × (get_elem? bs j ≡ some b) × (fits_uint32 b ≡ true)
unfolding check_pages
check_pages_lem i j [] [] p same_length h found = absurd (ground arith)
check_pages_lem i j [] (q ∷ ps) p same_length h found = absurd (omega arith)
check_pages_lem i j (b ∷ bs) [] p same_length h found = absurd (ground arith)
check_pages_lem i zero (b ∷ bs) (q ∷ ps) p same_length h found =
    (ground arith, b, refl, ground arith)
check_pages_lem i (suc j) (b ∷ bs) (q ∷ ps) p same_length h found =
    let rest : check_pages (suc i) bs ps ≡ ok tt = ground arith in
    let (index, c, at, fits) = check_pages_lem (suc i) j bs ps p (omega arith) rest found in
    (omega arith, c, at, fits)

-- In an accepted prefix each page stands at the position that it names, belongs to the block of
-- tokens at that position, and the tokens of that block fit in 32 bits.
pub check_prefix_lem :
    (r : CatalogPrefixRecord) (j : ℕ) (p : CatalogPageRecord)
    → check_prefix r ≡ ok tt
    → get_elem? r.pages j ≡ some p
    → (p.page_index ≡ j)
      × (b : List ℕ) × (get_elem? r.block_keys j ≡ some b)
      × (fits_uint32 b ≡ true)
unfolding check_prefix
check_prefix_lem r j p h found =
    let (index, b, at, fits) =
      check_pages_lem 0 j r.block_keys r.pages p (ground arith) (ground arith) found in
    (omega (arith, index), b, at, fits)

module _ (same : String → String → Bool)
    (same_sound : (a b : String) → same a b ≡ true → a ≡ b) where
  page_matches :
      (digest : String) (rank j : ℕ) (ps : List CatalogPageRecord) (p : CatalogPageRecord)
      → pages_match same digest rank ps ≡ true
      → get_elem? ps j ≡ some p
      → (p.identity_digest ≡ digest) × (p.tp_rank ≡ rank)
  page_matches digest rank j [] p h found = absurd (ground arith)
  page_matches digest rank zero (q ∷ ps) p h found =
      ground (arith, same_sound q.identity_digest digest)
  page_matches digest rank (suc j) (q ∷ ps) p h found =
      page_matches digest rank j ps p (ground arith) found

  prefix_matches :
      (digest : String) (rank i : ℕ) (rs : List CatalogPrefixRecord) (r : CatalogPrefixRecord)
      → prefixes_match same digest rank rs ≡ true
      → get_elem? rs i ≡ some r
      → pages_match same digest rank r.pages ≡ true
  prefix_matches digest rank i [] r h found = absurd (ground arith)
  prefix_matches digest rank zero (q ∷ rs) r h found = ground arith
  prefix_matches digest rank (suc i) (q ∷ rs) r h found =
      prefix_matches digest rank i rs r (ground arith) found

  -- Every page of an accepted snapshot carries the identity and the rank of the snapshot, where the
  -- comparison of strings is right when it says that two are equal.
  check_snapshot_lem :
      (s : RemoteCatalogSnapshot) (r : CatalogPrefixRecord) (p : CatalogPageRecord) (i j : ℕ)
      → check_snapshot same s ≡ ok tt
      → get_elem? s.prefixes i ≡ some r
      → get_elem? r.pages j ≡ some p
      → (p.identity_digest ≡ s.identity_digest) × (p.tp_rank ≡ s.tp_rank)
  unfolding check_snapshot
  check_snapshot_lem s r p i j h found at =
      page_matches s.identity_digest s.tp_rank j r.pages p
        (prefix_matches s.identity_digest s.tp_rank i s.prefixes r (ground arith) found) at
