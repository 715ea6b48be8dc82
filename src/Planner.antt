-- ===== src/Planner.antt =====
-- rust/src/s3/planner.rs: what a deployment checks of an archive's directory and entries, and the
-- plans that it makes of them. `StoredZipEntry` is a type of the crate async_zip: the record holds
-- what its accessors give, the name being `none` where it is not UTF-8.
pub mod Manifest
pub mod Entries
pub mod Offsets
pub mod Expansion
pub mod Groups
pub mod Turn
pub mod Catalog
pub mod Distinct
pub mod Files
pub mod Agreement
pub mod Apart
use shin_bucket_deployment.Prelude.{
  ℕ, ◌+◌, ◌*◌, ◌/◌, ◌%◌, List, [], ◌∷◌, map, Bool, true, false, ◌&&◌, ◌||◌, not, Option, none, some,
  Bytes, bytes, bytes_eq, slash, is_empty, ends_with, leb, ltb, ◌==◌, min, if◌then◌else◌, Result,
  ok, err, ◌>>=◌, ◌>>◌, ensure, ok_or, checked_add, get_elem?, partition_point, sort,
}
use shin_bucket_deployment.Deployment.{ArchiveExpansionLimits, TrustedEntryIntegrity}
use shin_bucket_deployment.ArchiveKey.{
  ArchiveKeyError, normalize_archive_key, split, replace_backslashes, is_skipped,
}

pub record ZipEntryPlan : Type 0 where
  pub source_index : ℕ
  pub relative_key : Bytes
  pub destination_key : Bytes
  pub size : ℕ
  pub compressed_size : ℕ
  pub compression_code : ℕ
  pub crc32 : ℕ
  pub trusted_integrity : Option TrustedEntryIntegrity
  pub source_offset : ℕ
  pub source_span_end_exclusive : ℕ

-- The methods that the source names, and the others by their codes.
pub data Compression : Type 0 where
  stored deflate : Compression
  other_method : ℕ → Compression

abbrev pub code_of : Compression → ℕ
code_of stored = 0
code_of deflate = 8
code_of (other_method code) = code

pub record StoredZipEntry : Type 0 where
  pub filename : Option Bytes
  pub compression : Compression
  pub header_offset : ℕ
  pub compressed_size : ℕ
  pub uncompressed_size : ℕ
  pub crc32 : ℕ

pub data PlanError : Type 0 where
  directory_beyond_source compressed_total_overflowed uncompressed_total_overflowed : PlanError
  header_inside_directory duplicate_header_offset invalid_utf8_path : PlanError
  invalid_path : ArchiveKeyError → PlanError
  duplicate_path unsupported_compression above_put_limit above_entry_limit : PlanError
  zero_compressed_bytes above_ratio_limit offset_outside_source empty_span : PlanError
  span_outside_source : PlanError

-- The running totals are checked for overflow.
unfoldable pub checked_archive_totals : ℕ × ℕ → ℕ → ℕ → Result PlanError (ℕ × ℕ)
checked_archive_totals current compressed_size uncompressed_size =
    ok_or (checked_add current.0 compressed_size) compressed_total_overflowed >>= λ compressed.
    ok_or (checked_add current.1 uncompressed_size) uncompressed_total_overflowed
    >>= λ uncompressed. ok (compressed, uncompressed)

-- The loop of `validate_archive_directory`.
unfoldable pub check_entries : ℕ → ℕ × ℕ → List StoredZipEntry → Result PlanError (Unit {0})
unfolding checked_archive_totals
check_entries central_directory_start totals [] = ok tt
check_entries central_directory_start totals (entry ∷ entries) =
    checked_archive_totals totals entry.compressed_size entry.uncompressed_size >>= λ next.
    ensure (ltb entry.header_offset central_directory_start) header_inside_directory
    >> check_entries central_directory_start next entries

-- The `windows(2)`.
unfoldable pub ensure_unique_source_offsets : List ℕ → Result PlanError (Unit {0})
ensure_unique_source_offsets [] = ok tt
ensure_unique_source_offsets (a ∷ []) = ok tt
ensure_unique_source_offsets (a ∷ b ∷ offsets) =
    let rest = ensure_unique_source_offsets (b ∷ offsets) in
    if a == b then err duplicate_header_offset else rest

unfoldable pub validate_archive_directory : List StoredZipEntry → ℕ → ℕ → Result PlanError (List ℕ)
unfolding check_entries ensure_unique_source_offsets
validate_archive_directory entries source_len central_directory_start =
    let source_offsets = sort leb (map (λ entry. entry.header_offset) entries) in
    ensure (leb central_directory_start source_len) directory_beyond_source
    >> check_entries central_directory_start (0, 0) entries
    >> ensure_unique_source_offsets source_offsets
    >> ok source_offsets

unfoldable pub next_source_offset : List ℕ → ℕ → Option ℕ
next_source_offset sorted_offsets offset =
    get_elem? sorted_offsets (partition_point (λ candidate. leb candidate offset) sorted_offsets)

abbrev unwrap_or : Option ℕ → ℕ → ℕ
unwrap_or none other = other
unwrap_or (some n) other = n

-- Where the span of an entry ends: at the next local header or at the central directory.
unfoldable pub source_span_end : List ℕ → ℕ → ℕ → ℕ
unfolding next_source_offset
source_span_end source_offsets central_directory_start source_offset =
    min (unwrap_or (next_source_offset source_offsets source_offset) central_directory_start)
      central_directory_start

abbrev pub s3_single_put_limit : ℕ
s3_single_put_limit = 5 * 1024 * 1024 * 1024

unfoldable pub validate_archive_expansion :
    ℕ → ℕ → ArchiveExpansionLimits → Result PlanError (Unit {0})
validate_archive_expansion uncompressed_size compressed_size limits =
    let quotient = uncompressed_size / compressed_size in
    let remainder = uncompressed_size % compressed_size in
    if ltb s3_single_put_limit uncompressed_size
    then err above_put_limit
    else if ltb limits.max_uncompressed_entry_bytes uncompressed_size
    then err above_entry_limit
    else if uncompressed_size == 0
    then ok tt
    else if compressed_size == 0
    then err zero_compressed_bytes
    else if ltb limits.max_compression_ratio quotient
        || (quotient == limits.max_compression_ratio && ltb 0 remainder)
    then err above_ratio_limit
    else ok tt

abbrev pub is_supported : Compression → Bool
is_supported stored = true
is_supported deflate = true
is_supported (other_method code) = false

unfoldable pub validate_stored_file_entry :
    StoredZipEntry → ArchiveExpansionLimits → Result PlanError (Unit {0})
unfolding validate_archive_expansion
validate_stored_file_entry entry limits =
    ensure (is_supported entry.compression) unsupported_compression
    >> validate_archive_expansion entry.uncompressed_size entry.compressed_size limits

abbrev pub embedded_catalog_path : Bytes
embedded_catalog_path = bytes ".shin/catalog.v1.json"

abbrev pub reserved_catalog_v2_path : Bytes
reserved_catalog_v2_path = bytes ".shin/catalog.v2.json"

unfoldable pub is_reserved_catalog_path : Bytes → Bool
is_reserved_catalog_path path =
    bytes_eq path embedded_catalog_path || bytes_eq path reserved_catalog_v2_path

abbrev all_skipped : List Bytes → Bool
all_skipped [] = true
all_skipped (part ∷ parts) = is_skipped part && all_skipped parts

abbrev pub as_path : {A : Type 0} → Result ArchiveKeyError A → Result PlanError A
as_path (ok a) = ok a
as_path (err e) = err (invalid_path e)

-- A name that ends in a slash is a directory: checked, and no file.
unfoldable pub raw_file_path : Bytes → Result PlanError (Option Bytes)
unfolding split normalize_archive_key
raw_file_path raw =
    if ends_with raw slash
    then if all_skipped (split (replace_backslashes raw))
      then ok none
      else (as_path (normalize_archive_key raw) >>= λ _. ok none)
    else as_path (normalize_archive_key raw) >>= λ path. ok (some path)

unfoldable pub stored_zip_file_path : StoredZipEntry → Result PlanError (Option Bytes)
unfolding raw_file_path
stored_zip_file_path entry = ok_or entry.filename invalid_utf8_path >>= raw_file_path

-- The plan of the embedded catalog's entry.
unfoldable pub zip_entry_plan : ℕ → ℕ → StoredZipEntry → Bytes → ℕ → Result PlanError ZipEntryPlan
zip_entry_plan source_len source_index entry relative_key source_span_end_exclusive =
    if leb source_len entry.header_offset
    then err offset_outside_source
    else if ltb source_len source_span_end_exclusive
        || leb source_span_end_exclusive entry.header_offset
    then err span_outside_source
    else ok (record {
      source_index = source_index;
      relative_key = relative_key;
      destination_key = relative_key;
      size = entry.uncompressed_size;
      compressed_size = entry.compressed_size;
      compression_code = code_of entry.compression;
      crc32 = entry.crc32;
      trusted_integrity = none;
      source_offset = entry.header_offset;
      source_span_end_exclusive = source_span_end_exclusive;
    })
