-- ===== src/Tests/Archives.antt =====
-- Runs of the planner and of the block store (rust/src/s3/planner.rs,
-- rust/src/s3/archive/block_store.rs): an archive of two files and a directory.
use shin_bucket_deployment.Prelude.{
  ℕ, ◌*◌, ◌≤◌, ◌<◌, List, [], ◌∷◌, Bytes, bytes, Option, none, some, true, ◌≡◌, ◌↔◌, refl, arith,
  Result, ok, err, get_elem?, In, here, All,
}
use shin_bucket_deployment.Deployment.{
  ArchiveExpansionLimits, DeploymentManifest, Filters, TrustedEntryIntegrity,
}
use shin_bucket_deployment.Planner.{
  StoredZipEntry, stored, deflate, PlanError, ZipEntryPlan, validate_archive_expansion,
  s3_single_put_limit,
}
use shin_bucket_deployment.Planner.Manifest.{collect_zip_entry_plans, group_of}
use shin_bucket_deployment.Planner.Entries.{add_archive_entries_to_manifest}
use shin_bucket_deployment.Planner.Expansion.{validate_archive_expansion_iff}
use shin_bucket_deployment.Planner.Apart.{archive_blocks_planned}
use shin_bucket_deployment.Blocks.{
  SourceBlockRange, plan_source_blocks, block_index_at, block_indices_for_span,
}
use shin_bucket_deployment.Blocks.Cut.{Laid, IsSmall}
use shin_bucket_deployment.Blocks.Lookup.{block_indices_for_span_iff}
use shin_bucket_deployment.Blocks.Cover.{plan_source_blocks_covers}
use shin_bucket_deployment.BlockStore.{
  SourceBlockState, prefetch, reserve_begin, reserve_granted, refused, finish_fetch,
  SourceBlockSlot,
}
use shin_bucket_deployment.BlockStore.Claims.{new_state, cancel}
use shin_bucket_deployment.BlockStore.Steps.{Reach, start, later, begin, grant, finish}
use shin_bucket_deployment.BlockStore.Accounts.{IsAccounted, commits}
use shin_bucket_deployment.BlockStore.Safety.{block_store-IsAccounted}
use shin_bucket_deployment.BlockStore.Failure.{cancelled_store_idle}
use shin_bucket_deployment.BlockStore.Waiting.{waiting_is_not_idle}

abbrev the_limits : ArchiveExpansionLimits
the_limits = record { max_uncompressed_entry_bytes = 1000; max_compression_ratio = 10 }

validate_archive_expansion_iff_example :
    (validate_archive_expansion 95 10 the_limits ≡ ok tt)
    ↔ ((95 ≤ s3_single_put_limit) × (95 ≤ 1000) × (95 ≤ 10 * 10))
validate_archive_expansion_iff_example = validate_archive_expansion_iff 95 10 the_limits

abbrev the_entries : List StoredZipEntry
the_entries =
    record {
      filename = some (bytes "b/page.html");
      compression = deflate;
      header_offset = 12;
      compressed_size = 20;
      uncompressed_size = 50;
      crc32 = 1;
    }
    ∷ record {
      filename = some (bytes "b/");
      compression = stored;
      header_offset = 40;
      compressed_size = 0;
      uncompressed_size = 0;
      crc32 = 0;
    }
    ∷ record {
      filename = some (bytes "a.txt");
      compression = stored;
      header_offset = 0;
      compressed_size = 8;
      uncompressed_size = 8;
      crc32 = 2;
    }
    ∷ []

abbrev the_filters : Filters
the_filters = record { exclude = []; include = [] }

abbrev no_catalog : Bytes → Option TrustedEntryIntegrity
no_catalog key = none

abbrev manifest_of : Result PlanError DeploymentManifest → DeploymentManifest
manifest_of (ok manifest) = manifest
manifest_of (err error) = []

abbrev the_manifest : DeploymentManifest
the_manifest =
    manifest_of
      (add_archive_entries_to_manifest 0 0 60 45 the_limits the_filters no_catalog the_entries [])

archive_blocks_planned_example :
    (blocks : List SourceBlockRange) × (plan_source_blocks 60
        (group_of 0 (collect_zip_entry_plans the_manifest (bytes "site")))
        16
        4
      ≡ ok blocks)
    × Laid 0 blocks
    × All (IsSmall 16 60) blocks
unfolding add_archive_entries_to_manifest
archive_blocks_planned_example =
    archive_blocks_planned 0 0 60 45 the_limits the_filters no_catalog the_entries [] the_manifest
      (bytes "site") 16 4 (omega arith) refl refl

abbrev the_plans : List ZipEntryPlan
the_plans = group_of 0 (collect_zip_entry_plans the_manifest (bytes "site"))

abbrev the_plan : ZipEntryPlan
the_plan = record {
  source_index = 0;
  relative_key = bytes "a";
  destination_key = bytes "site/a";
  size = 50;
  compressed_size = 20;
  compression_code = 8;
  crc32 = 1;
  trusted_integrity = none;
  source_offset = 12;
  source_span_end_exclusive = 40;
}

abbrev the_blocks : List SourceBlockRange
the_blocks =
    record { start = 12; end_exclusive = 28 } ∷ record { start = 28; end_exclusive = 40 } ∷ []

planned : plan_source_blocks 60 (the_plan ∷ []) 16 4 ≡ ok the_blocks
unfolding plan_source_blocks
planned = refl

plan_source_blocks_covers_example :
    (i : ℕ) × (b : SourceBlockRange) × (block_index_at the_blocks 30 ≡ some i)
    × (get_elem? the_blocks i ≡ some b)
    × (b.start ≤ 30)
    × (30 < b.end_exclusive)
plan_source_blocks_covers_example =
    plan_source_blocks_covers 60 (the_plan ∷ []) 16 4 the_blocks the_plan 30 (omega arith) planned
      (here refl) (omega arith) (omega arith)

block_indices_for_span_iff_example : In 1 (block_indices_for_span the_blocks 20 30) ↔ (
    (b : SourceBlockRange) × (get_elem? the_blocks 1 ≡ some b)
    × (b.start < 30)
    × (20 < b.end_exclusive))
block_indices_for_span_iff_example =
    block_indices_for_span_iff the_blocks 20 30 1
      (omega arith, omega arith, (omega arith, omega arith, tt)) (omega arith)

-- The first block is reserved, its permit acquired, and its bytes have come.
abbrev fresh_store : SourceBlockState
fresh_store = new_state the_blocks (the_plan ∷ [])

abbrev reserving_store : SourceBlockState
reserving_store = (reserve_begin the_blocks 16 prefetch 0 fresh_store).1

abbrev fetching_store : SourceBlockState
fetching_store = reserve_granted the_blocks 0 reserving_store

abbrev ready_store : SourceBlockState
ready_store = finish_fetch the_blocks (ok (bytes "0123456789abcdef")) 0 fetching_store

ready_store_reach : Reach the_blocks 16 fresh_store ready_store
ready_store_reach =
    later (later (later start (begin prefetch 0)) (grant 0))
      (finish (ok (bytes "0123456789abcdef")) 0)

ready_store_holds : (ready_store.window_committed_bytes ≡ 16) × (ready_store.resident_bytes ≡ 16)
unfolding new_state reserve_begin reserve_granted finish_fetch
ready_store_holds = (refl, refl)

block_store-IsAccounted_example : IsAccounted the_blocks ready_store
block_store-IsAccounted_example =
    block_store-IsAccounted 60 (the_plan ∷ []) 16 4 the_blocks 16 ready_store (omega arith) planned
      ready_store_reach

cancelled_store_idle_example :
    let cancelled = cancel (bytes "stop") ready_store in
    (cancelled.window_committed_bytes ≡ 0)
    × (cancelled.resident_bytes ≡ 0)
    × All (λ slot. slot.budget_permit ≡ none) cancelled.slots
    × ((error : Bytes) × (reserve_begin the_blocks 16 prefetch 1 cancelled
          ≡ (refused error, cancelled)))
cancelled_store_idle_example =
    cancelled_store_idle 60 (the_plan ∷ []) 16 4 the_blocks 16 ready_store _ (bytes "stop") prefetch
      1 _ (omega arith) planned ready_store_reach start refl

waiting_is_not_idle_example :
    (ready_store.failure ≡ none)
    × ((j : ℕ) × (slot : SourceBlockSlot) × (get_elem? ready_store.slots j ≡ some slot)
        × (commits slot.status ≡ true))
unfolding new_state reserve_begin reserve_granted finish_fetch
waiting_is_not_idle_example =
    waiting_is_not_idle 60 (the_plan ∷ []) 16 4 the_blocks 16 ready_store ready_store prefetch 1
      (omega arith) planned ready_store_reach refl
