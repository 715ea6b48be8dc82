-- ===== src/Planner/Entries.antt =====
-- `add_archive_entries_to_manifest` of rust/src/s3/planner.rs, after the directory is read.
use shin_bucket_deployment.Prelude.{
  ℕ, List, [], ◌∷◌, Bytes, any, bytes_eq, leb, not, Option, none, some, if◌then◌else◌, Result, ok,
  err, ◌>>=◌, ◌>>◌, ensure,
}
use shin_bucket_deployment.Deployment.{
  ArchiveExpansionLimits, TrustedEntryIntegrity, DeploymentManifest, PlannedObject, zip_entry,
  Filters, should_include,
}
use shin_bucket_deployment.Planner.{
  StoredZipEntry, PlanError, duplicate_path, offset_outside_source, empty_span, code_of,
  stored_zip_file_path, is_reserved_catalog_path, validate_stored_file_entry, source_span_end,
  validate_archive_directory,
}
use shin_bucket_deployment.Planner.Manifest.{insert_manifest_object}

-- What the loop over the entries reads: the archive, the request's limits and filters, what
-- `validate_archive_directory` gave and the catalog, with its `get`.
pub record ArchiveContext : Type 0 where
  pub archive_index : ℕ
  pub source_index : ℕ
  pub source_len : ℕ
  pub central_directory_start : ℕ
  pub source_offsets : List ℕ
  pub limits : ArchiveExpansionLimits
  pub filters : Filters
  pub catalog : Bytes → Option TrustedEntryIntegrity

unfoldable pub planned_entry : ArchiveContext → StoredZipEntry → Bytes → PlannedObject
unfolding source_span_end
planned_entry context entry relative_key = record {
  relative_key = relative_key;
  expected_etag = none;
  action =
      zip_entry context.archive_index context.source_index entry.uncompressed_size
        entry.compressed_size (code_of entry.compression) entry.crc32 (context.catalog relative_key)
        entry.header_offset
        (source_span_end context.source_offsets context.central_directory_start
          entry.header_offset);
}

-- The part of the loop's body after the filters.
unfoldable pub add_included :
    ArchiveContext
    → StoredZipEntry
    → Bytes
    → DeploymentManifest
    → Result PlanError DeploymentManifest
unfolding source_span_end planned_entry insert_manifest_object
add_included context entry relative_key manifest =
    if leb context.source_len entry.header_offset
    then err offset_outside_source
    else if leb
        (source_span_end context.source_offsets context.central_directory_start entry.header_offset)
        entry.header_offset
    then err empty_span
    else ok (insert_manifest_object manifest (planned_entry context entry relative_key))

-- The body for a file: duplicates, the checks, the filters.
unfoldable pub add_file :
    ArchiveContext
    → StoredZipEntry
    → Bytes
    → List Bytes
    → DeploymentManifest
    → Result PlanError DeploymentManifest
unfolding validate_stored_file_entry should_include add_included
add_file context entry relative_key seen manifest =
    ensure (not (any (λ path. bytes_eq path relative_key) seen)) duplicate_path
    >> validate_stored_file_entry entry context.limits
    >> (if should_include context.filters relative_key
        then add_included context entry relative_key manifest
        else ok manifest)

-- One turn of the loop: directories and the catalogs themselves are passed over.
unfoldable pub file_step :
    ArchiveContext
    → StoredZipEntry
    → List Bytes × DeploymentManifest
    → Option Bytes
    → Result PlanError (List Bytes × DeploymentManifest)
unfolding is_reserved_catalog_path add_file
file_step context entry (seen, manifest) none = ok (seen, manifest)
file_step context entry (seen, manifest) (some relative_key) =
    if is_reserved_catalog_path relative_key
    then ok (seen, manifest)
    else (add_file context entry relative_key seen manifest >>= λ next.
        ok (relative_key ∷ seen, next))

-- The loop, with the set of the paths seen.
unfoldable pub entry_loop :
    ArchiveContext
    → List StoredZipEntry
    → List Bytes × DeploymentManifest
    → Result PlanError (List Bytes × DeploymentManifest)
unfolding stored_zip_file_path file_step
entry_loop context [] state = ok state
entry_loop context (entry ∷ entries) state = stored_zip_file_path entry >>= λ path.
    file_step context entry state path >>= λ next. entry_loop context entries next

-- The directory is checked, then each entry.
unfoldable pub add_archive_entries_to_manifest :
    (archive_index source_index source_len central_directory_start : ℕ)
    → ArchiveExpansionLimits
    → Filters
    → (Bytes → Option TrustedEntryIntegrity)
    → List StoredZipEntry
    → DeploymentManifest
    → Result PlanError DeploymentManifest
unfolding validate_archive_directory entry_loop
add_archive_entries_to_manifest archive_index source_index source_len central_directory_start limits
      filters catalog entries manifest =
    validate_archive_directory entries source_len central_directory_start >>= λ source_offsets.
    entry_loop
      (record {
        archive_index = archive_index;
        source_index = source_index;
        source_len = source_len;
        central_directory_start = central_directory_start;
        source_offsets = source_offsets;
        limits = limits;
        filters = filters;
        catalog = catalog;
      })
      entries ([], manifest)
    >>= λ state. ok state.1
