-- ===== src/Cloudformation/Decisions.antt =====
-- The decisions of a request that call no service (rust/src/cloudformation.rs).
use shin_bucket_deployment.Prelude.{
  ℕ, zero, suc, List, [], ◌∷◌, ◌++◌, Option, none, some, Bool, true, false, not, ◌&&◌, ◌||◌, Bytes,
  bytes_eq, is_empty, if◌then◌else◌, any,
}
use shin_bucket_deployment.Deployment.{DeploymentRequest, PreviousDestination}
use shin_bucket_deployment.Lifecycle.{
  DestinationChangeCleanupDecision, not_needed, retain, delete, delete_namespace,
  delete_stale_within_current, option_eq, plan_destination_change_cleanup,
  previous_namespace_is_within_current, destination_namespaces_overlap,
}
use shin_bucket_deployment.Destination.Cleanup.{
  GuardedDeleteContext, GuardedDeleteOutcome, retained, deleted,
}

-- `RequestType`; `Delete` is `remove` here.
pub data RequestType : Type 0 where
  create update remove : RequestType

-- `OverlappingPreviousCleanup` of rust/src/s3.rs.
pub data OverlappingPreviousCleanup : Type 0 where
  retain_previous : Bytes → OverlappingPreviousCleanup
  delete_stale : Bytes → OverlappingPreviousCleanup

unfoldable pub non_empty : Option Bytes → Option Bytes
non_empty none = none
non_empty (some value) = if is_empty value then none else some value

-- `seen.insert(path)` keeps the first of equal paths.
unfoldable pub keep_new : List Bytes → List Bytes → List Bytes
keep_new seen [] = []
keep_new seen (p ∷ ps) = elim (any (bytes_eq p) seen) [
  | true ↦ keep_new seen ps
  | false ↦ p ∷ keep_new (p ∷ seen) ps
]

unfoldable pub merge_distribution_paths : List Bytes → List Bytes → List Bytes
unfolding keep_new
merge_distribution_paths current previous = keep_new [] (current ++ previous)

-- The decision is taken for updates only.
unfoldable pub destination_change_cleanup :
    RequestType
    → Option PreviousDestination
    → DeploymentRequest
    → Option DestinationChangeCleanupDecision
destination_change_cleanup update (some previous) request =
    some (plan_destination_change_cleanup request previous)
destination_change_cleanup update none request = none
destination_change_cleanup create previous request = none
destination_change_cleanup remove previous request = none

abbrev deletes_stale_within : Option DestinationChangeCleanupDecision → Bool
deletes_stale_within none = false
deletes_stale_within (some (not_needed r)) = false
deletes_stale_within (some (retain r)) = false
deletes_stale_within (some (delete plan)) = elim plan.strategy [
  | delete_namespace _ ↦ false
  | delete_stale_within_current ↦ true
]

unfoldable pub overlapping_previous_cleanup :
    Option PreviousDestination
    → DeploymentRequest
    → Option DestinationChangeCleanupDecision
    → Option OverlappingPreviousCleanup
overlapping_previous_cleanup none request decision = none
overlapping_previous_cleanup (some previous) request decision =
    if previous_namespace_is_within_current request previous
    then some (
        if deletes_stale_within decision
        then delete_stale previous.bucket_prefix
        else retain_previous previous.bucket_prefix)
    else none

abbrev pub current_context : DeploymentRequest → GuardedDeleteContext
current_context request = record {
  bucket = request.dest_bucket_name;
  prefix = request.dest_bucket_prefix;
  excluded_prefix = none;
  current_owner_id = request.destination_owner_id;
}

abbrev pub previous_context :
    DeploymentRequest → PreviousDestination → Option Bytes → GuardedDeleteContext
previous_context request previous excluded = record {
  bucket = previous.bucket_name;
  prefix = previous.bucket_prefix;
  excluded_prefix = excluded;
  current_owner_id = request.destination_owner_id;
}

abbrev positive : ℕ → Bool
positive zero = false
positive (suc n) = true

-- Whether a guarded deletion removed objects.
abbrev pub removed_objects : GuardedDeleteOutcome → Bool
removed_objects retained = false
removed_objects (deleted objects) = positive objects

abbrev pub is_remove : RequestType → Bool
is_remove remove = true
is_remove create = false
is_remove update = false

-- `previous_content_changed`.
unfoldable pub previous_content_changed :
    Option PreviousDestination → DeploymentRequest → Bool → Bool
previous_content_changed none request cleaned = false
previous_content_changed (some previous) request cleaned =
    cleaned || destination_namespaces_overlap request previous

-- The distribution to invalidate for the previous destination, before authorisation: its content
-- changed, it has a distribution, and that is not the current one.
unfoldable pub previous_distribution :
    Option PreviousDestination → DeploymentRequest → Bool → Option Bytes
unfolding non_empty
previous_distribution none request changed = none
previous_distribution (some previous) request changed =
    if changed && not (option_eq previous.distribution_id request.distribution_id)
    then non_empty previous.distribution_id
    else none

-- The paths of the current invalidation.
unfoldable pub current_paths : Option PreviousDestination → DeploymentRequest → Bool → List Bytes
current_paths none request changed = request.distribution_paths
current_paths (some previous) request changed =
    if changed && option_eq previous.distribution_id request.distribution_id
    then merge_distribution_paths request.distribution_paths previous.distribution_paths
    else request.distribution_paths

-- `should_invalidate_current`.
abbrev pub should_invalidate_current : RequestType → Bool → Bool
should_invalidate_current create deleted_current = true
should_invalidate_current update deleted_current = true
should_invalidate_current remove deleted_current = deleted_current
