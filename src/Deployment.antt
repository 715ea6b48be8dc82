-- ===== src/Deployment.antt =====
-- rust/src/deployment.rs: the parsed deployment request and its parts, with every field.
-- A string is the list of its UTF-8 bytes, and a `HashMap<String, String>` an association list.
-- `Filters` holds the compiled globs as tests, since matching is the crate globset's.
use shin_bucket_deployment.Prelude.{
  ℕ, Bool, List, Option, Bytes, any, true, bytes_eq, if◌then◌else◌,
}

pub record MarkerConfig : Type 0 where
  pub json_escape : Bool

pub record ArchiveExpansionLimits : Type 0 where
  pub max_uncompressed_entry_bytes : ℕ
  pub max_compression_ratio : ℕ

pub record TrustedSourceCatalog : Type 0 where
  pub sha256 : List ℕ

pub record DeletePreviousObjectsOnChange : Type 0 where
  pub bucket_name : Bytes

pub record PreviousDestination : Type 0 where
  pub bucket_name : Bytes
  pub bucket_prefix : Bytes
  pub distribution_id : Option Bytes
  pub distribution_paths : List Bytes
  pub owner_id : Bytes

pub data PutObjectRetryJitter : Type 0 where
  full_jitter no_jitter : PutObjectRetryJitter

pub record PutObjectRetryOptions : Type 0 where
  pub max_attempts : ℕ
  pub retry_base_delay_ms : ℕ
  pub retry_max_delay_ms : ℕ
  pub slowdown_retry_base_delay_ms : ℕ
  pub slowdown_retry_max_delay_ms : ℕ
  pub jitter : PutObjectRetryJitter

pub record RuntimeOptions : Type 0 where
  pub available_memory_mb : ℕ
  pub max_parallel_transfers : ℕ
  pub source_block_bytes : ℕ
  pub source_block_merge_gap_bytes : ℕ
  pub source_get_concurrency : ℕ
  pub source_window_bytes : Option ℕ
  pub source_memory_budget_bytes : ℕ
  pub put_object_retry : PutObjectRetryOptions

pub record DeploymentRequest : Type 0 where
  pub source_bucket_names : List Bytes
  pub source_object_keys : List Bytes
  pub source_catalogs : List (Option TrustedSourceCatalog)
  pub source_markers : List (List (Bytes × Bytes))
  pub source_markers_config : List MarkerConfig
  pub dest_bucket_name : Bytes
  pub dest_bucket_prefix : Bytes
  pub extract : Bool
  pub delete_current_objects_on_delete : Bool
  pub distribution_id : Option Bytes
  pub distribution_paths : List Bytes
  pub wait_for_distribution_invalidation : Bool
  pub delete_stale_objects_on_deployment : Bool
  pub exclude : List Bytes
  pub include : List Bytes
  pub output_object_keys : Bool
  pub destination_bucket_arn : Option Bytes
  pub destination_owner_id : Bytes
  pub delete_previous_objects_on_change : Option DeletePreviousObjectsOnChange
  pub invalidate_previous_distribution_on_change : Option Bytes
  pub archive_expansion : ArchiveExpansionLimits
  pub runtime : RuntimeOptions

pub record TrustedEntryIntegrity : Type 0 where
  pub size : ℕ
  pub md5 : Bytes

pub data PlannedAction : Type 0 where
  copy_object : (source_index : ℕ) (size : Option ℕ) → PlannedAction
  zip_entry :
      (archive_index source_index size compressed_size compression_code crc32 : ℕ)
      (trusted_integrity : Option TrustedEntryIntegrity)
      (source_offset source_span_end_exclusive : ℕ)
      → PlannedAction

pub record PlannedObject : Type 0 where
  pub relative_key : Bytes
  pub expected_etag : Option Bytes
  pub action : PlannedAction

-- The `BTreeMap` of planned objects, as an association list.
abbrev pub DeploymentManifest : Type 0
DeploymentManifest = List (Bytes × PlannedObject)

-- `manifest.contains_key(key)`.
unfoldable pub contains_key : DeploymentManifest → Bytes → Bool
contains_key manifest key = any (λ e. bytes_eq e.0 key) manifest

pub record Filters : Type 0 where
  pub exclude : List (Bytes → Bool)
  pub include : List (Bytes → Bool)

-- `Filters::should_include` (rust/src/request.rs): an excluded key can be included again.
unfoldable pub should_include : Filters → Bytes → Bool
should_include filters key =
    if any (λ matches. matches key) filters.exclude
    then any (λ matches. matches key) filters.include
    else true
