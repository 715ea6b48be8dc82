-- ===== src/Destination/Cleanup.antt =====
-- Stale cleanup after the transfer, and the guarded deletion of a namespace
-- (rust/src/s3/destination.rs). A deletion is a value here: the keys that were retained, or a scan
-- of the listing with a predicate; `Deletion` models how the keys are sent.
pub mod Agreement
pub mod Exact
use shin_bucket_deployment.Prelude.{
  ℕ, List, [], ◌∷◌, ◌++◌, Option, none, some, Bool, true, false, not, ◌&&◌, ◌||◌, Bytes, is_empty,
  starts_with, if◌then◌else◌, Result, ok, err, ◌>>=◌,
}
use shin_bucket_deployment.Deployment.{
  DeploymentManifest, DeploymentRequest, Filters, contains_key, should_include,
}
use shin_bucket_deployment.Namespace.{
  BucketOwnerTags, has_competing_owner, key_is_excluded, namespace_list_prefix, or_empty,
}
use shin_bucket_deployment.Destination.Objects.{strip_destination_prefix}
use shin_bucket_deployment.Destination.Candidates.{
  DeletionCandidates, has_candidates, retained_keys,
}
use shin_bucket_deployment.Destination.Plan.{DestinationPlan, and_then, in_namespace}

abbrev pub filters_include : Option Filters → Bytes → Bool
filters_include none relative_key = true
filters_include (some filters) relative_key = should_include filters relative_key

unfoldable pub unplanned_destination_key :
    Bytes → Bytes → Option Bytes → Option Filters → DeploymentManifest → Bool
unplanned_destination_key key strip_prefix protected_namespace filters manifest =
    let relative_key = strip_destination_prefix strip_prefix key in
    not (is_empty relative_key)
    && not (key_is_excluded key protected_namespace)
    && not (contains_key manifest relative_key)
    && filters_include filters relative_key

-- The fields that the predicate reads, and the bucket and prefix that are listed.
pub record UnplannedDeletionContext : Type 0 where
  pub bucket : Bytes
  pub list_prefix : Option Bytes
  pub strip_prefix : Bytes
  pub protected_namespace : Option Bytes
  pub filters : Option Filters
  pub manifest : DeploymentManifest
  pub delete_current_stale : Bool
  pub previous_namespace : Option Bytes

unfoldable pub unplanned_cleanup_key : Bytes → UnplannedDeletionContext → Bool
unplanned_cleanup_key key context =
    (context.delete_current_stale
      && unplanned_destination_key key context.strip_prefix context.protected_namespace
          context.filters context.manifest)
    || (in_namespace context.previous_namespace key
        && unplanned_destination_key key context.strip_prefix none none context.manifest)

-- One deletion: of given keys, or of every listed key that the context selects.
pub data Deletion : Type 0 where
  delete_keys : Bytes → List Bytes → Deletion
  delete_unplanned : UnplannedDeletionContext → Deletion

-- The keys that a leg retained: `flag.then(|| candidates.keys()).flatten()`.
abbrev pub leg_keys : Bool → DeletionCandidates → Option (List Bytes)
leg_keys flag candidates = if flag then retained_keys candidates else none

abbrev pub is_some {ℓ} : {A : Type ℓ} → Option A → Bool
is_some none = false
is_some (some _) = true

-- The deletion of a leg's retained keys, if it has them.
abbrev pub leg_deletion : Bytes → Option (List Bytes) → List Deletion
leg_deletion bucket none = []
leg_deletion bucket (some keys) = delete_keys bucket keys ∷ []

unfoldable pub cleanup_context :
    DeploymentRequest
    → Option Bytes
    → Option Bytes
    → Bool
    → Bool
    → Filters
    → DeploymentManifest
    → UnplannedDeletionContext
cleanup_context request protected_prefix previous_cleanup_prefix current previous filters manifest =
    record {
      bucket = request.dest_bucket_name;
      list_prefix = namespace_list_prefix request.dest_bucket_prefix;
      strip_prefix = or_empty (namespace_list_prefix request.dest_bucket_prefix);
      protected_namespace = and_then protected_prefix namespace_list_prefix;
      filters = some filters;
      manifest = manifest;
      delete_current_stale = current;
      previous_namespace =
          if previous then and_then previous_cleanup_prefix namespace_list_prefix else none;
    }

-- `delete_stale_objects_with_retry`: both legs by their retained keys, or one scan for both.
unfoldable pub delete_stale_objects_with_retry :
    DeploymentRequest
    → Option Bytes
    → Option Bytes
    → Bool
    → Bool
    → Filters
    → DeploymentManifest
    → DestinationPlan
    → List Deletion
unfolding cleanup_context
delete_stale_objects_with_retry request protected_prefix previous_cleanup_prefix current previous
      filters manifest plan =
    let retained_current = leg_keys current plan.current_stale in
    let retained_previous = leg_keys previous plan.previous_stale in
    if (not current || is_some retained_current) && (not previous || is_some retained_previous)
    then leg_deletion request.dest_bucket_name retained_current
      ++ leg_deletion request.dest_bucket_name retained_previous
    else delete_unplanned (
        cleanup_context request protected_prefix previous_cleanup_prefix current previous filters
          manifest)
      ∷ []

-- Whether the leg runs and no other owner overlaps its namespace.
abbrev pub leg_authorized : Bool → BucketOwnerTags → Bytes → Option Bytes → Bytes → Bool
leg_authorized wanted tags prefix excluded owner =
    if wanted then not (has_competing_owner tags prefix excluded owner) else false

abbrev pub previous_authorized : Bool → Option Bytes → BucketOwnerTags → Bytes → Bool
previous_authorized wanted none tags owner = false
previous_authorized wanted (some prefix) tags owner = leg_authorized wanted tags prefix none owner

-- `delete_stale_objects`; `tags` is the answer of `read_bucket_owner_tags` on the destination
-- bucket, which is asked for only when a leg has candidates.
unfoldable pub delete_stale_objects {ℓ} :
    {E : Type ℓ}
    → DeploymentRequest
    → Option Bytes
    → Option Bytes
    → Filters
    → DeploymentManifest
    → DestinationPlan
    → Result E BucketOwnerTags
    → Result E (List Deletion)
unfolding delete_stale_objects_with_retry
delete_stale_objects request protected_prefix previous_cleanup_prefix filters manifest plan tags =
    let delete_current_stale =
      request.delete_stale_objects_on_deployment && has_candidates plan.current_stale in
    let delete_previous_stale =
      is_some previous_cleanup_prefix && has_candidates plan.previous_stale in
    if delete_current_stale || delete_previous_stale
    then (tags >>= λ owner_tags.
        let current =
          leg_authorized delete_current_stale owner_tags request.dest_bucket_prefix protected_prefix
            request.destination_owner_id in
        let previous =
          previous_authorized delete_previous_stale previous_cleanup_prefix owner_tags
            request.destination_owner_id in
        if not current && not previous
        then ok []
        else ok (
            delete_stale_objects_with_retry request protected_prefix previous_cleanup_prefix current
              previous filters manifest plan))
    else ok []

pub data GuardedDeleteOutcome : Type 0 where
  retained : GuardedDeleteOutcome
  deleted : ℕ → GuardedDeleteOutcome

-- The bucket, the namespace and its owner; the statistics, the retry options and the deadline are
-- left to the deletion itself.
pub record GuardedDeleteContext : Type 0 where
  pub bucket : Bytes
  pub prefix : Bytes
  pub excluded_prefix : Option Bytes
  pub current_owner_id : Bytes

-- The predicate of `delete_namespace`.
unfoldable pub namespace_selects : Option Bytes → Bytes → Bool
namespace_selects excluded_prefix key =
    not (key_is_excluded key (and_then excluded_prefix namespace_list_prefix))

-- `guarded_delete_namespace`. `delete_listed` is `delete_listed_objects`: given the bucket, the
-- list prefix and the predicate, it deletes and counts the selected keys.
unfoldable pub guarded_delete_namespace {ℓ} :
    {E : Type ℓ}
    → (Bytes → Option Bytes → (Bytes → Bool) → Result E ℕ)
    → Result E BucketOwnerTags
    → GuardedDeleteContext
    → Result E GuardedDeleteOutcome
unfolding namespace_selects
guarded_delete_namespace delete_listed tags context = do
  owner_tags ← tags
  if has_competing_owner owner_tags context.prefix context.excluded_prefix context.current_owner_id
      then ok retained
      else (do
        objects ←
            delete_listed context.bucket (namespace_list_prefix context.prefix)
              (namespace_selects context.excluded_prefix)
        ok (deleted objects))
