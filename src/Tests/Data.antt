-- ===== src/Tests/Data.antt =====
-- The requests, destinations and listings that the runs use.
use shin_bucket_deployment.Prelude.{
  ℕ, ◌+◌, List, [], ◌∷◌, none, some, true, false, Bytes, bytes, Result, ok,
}
use shin_bucket_deployment.Deployment.{
  DeploymentManifest, DeploymentRequest, Filters, PreviousDestination, PutObjectRetryOptions,
  full_jitter, copy_object,
}
use shin_bucket_deployment.Namespace.{BucketOwnerTags}
use shin_bucket_deployment.Destination.Plan.{ListedObject}
use shin_bucket_deployment.Destination.Cleanup.{deleted}
use shin_bucket_deployment.Cloudformation.{Services}

abbrev pub the_retry : PutObjectRetryOptions
the_retry = record {
  max_attempts = 6;
  retry_base_delay_ms = 250;
  retry_max_delay_ms = 5000;
  slowdown_retry_base_delay_ms = 1000;
  slowdown_retry_max_delay_ms = 30000;
  jitter = full_jitter;
}

-- An update to the prefix `site/` of the bucket `web` that may delete the previous namespace there.
abbrev pub the_request : DeploymentRequest
the_request = record {
  source_bucket_names = bytes "assets" ∷ [];
  source_object_keys = bytes "site.zip" ∷ [];
  source_catalogs = none ∷ [];
  source_markers = [] ∷ [];
  source_markers_config = record { json_escape = false } ∷ [];
  dest_bucket_name = bytes "web";
  dest_bucket_prefix = bytes "site";
  extract = true;
  delete_current_objects_on_delete = false;
  distribution_id = some (bytes "E1");
  distribution_paths = bytes "/*" ∷ [];
  wait_for_distribution_invalidation = true;
  delete_stale_objects_on_deployment = true;
  exclude = [];
  include = [];
  output_object_keys = false;
  destination_bucket_arn = none;
  destination_owner_id = bytes "a";
  delete_previous_objects_on_change = some (record { bucket_name = bytes "web" });
  invalidate_previous_distribution_on_change = none;
  archive_expansion = record { max_uncompressed_entry_bytes = 1000; max_compression_ratio = 100 };
  runtime = record {
    available_memory_mb = 512;
    max_parallel_transfers = 8;
    source_block_bytes = 4096;
    source_block_merge_gap_bytes = 1024;
    source_get_concurrency = 2;
    source_window_bytes = none;
    source_memory_budget_bytes = 8192;
    put_object_retry = the_retry;
  };
}

-- The whole bucket, which the update leaves.
abbrev pub whole_bucket : PreviousDestination
whole_bucket = record {
  bucket_name = bytes "web";
  bucket_prefix = [];
  distribution_id = some (bytes "E1");
  distribution_paths = bytes "/old/*" ∷ [];
  owner_id = bytes "a";
}

abbrev pub no_filters : Filters
no_filters = record { exclude = []; include = [] }

abbrev pub the_manifest : DeploymentManifest
the_manifest =
    (
      bytes "new",
      record { relative_key = bytes "new"; expected_etag = none; action = copy_object 0 none },
    )
    ∷ []

abbrev listed : Bytes → ListedObject
listed key = record { key = some key; e_tag = none; size = none }

-- Two pages of a listing.
abbrev pub the_pages : List (List ListedObject)
the_pages =
    (listed (bytes "site/new") ∷ listed (bytes "site/stale") ∷ [])
    ∷ (listed (bytes "site/other/key") ∷ [])
    ∷ []

-- The bucket tags of the owners `a` of `site` and `b` of `site/other`.
abbrev pub the_tags : BucketOwnerTags
the_tags = record {
  keys = bytes "aws-cdk:cr-owned:site:a" ∷ bytes "aws-cdk:cr-owned:site/other:b" ∷ [];
}

-- Services whose world counts the calls; each answers as told.
abbrev pub answering : Result ℕ (Unit {0}) → Services ℕ ℕ
answering r = record {
  guarded_delete = λ context w. (ok (deleted 2), w + 1);
  deploy = λ overlapping w. (r, w + 1);
  create_invalidation = λ id paths wait missing_ok w. (ok none, w + 1);
  wait_both = λ p c w. (ok tt, w + 1);
}
