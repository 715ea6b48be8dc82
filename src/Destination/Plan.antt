-- ===== src/Destination/Plan.antt =====
-- `plan_destination`: one pass over the listed objects fills the metadata of planned objects and
-- the two lists of stale keys (rust/src/s3/destination.rs). The counters for diagnostics are left
-- out.
pub mod Listing
use shin_bucket_deployment.Prelude.{
  ℕ, List, [], ◌∷◌, ◌++◌, Option, none, some, Bool, true, false, not, ◌&&◌, Bytes, is_empty,
  starts_with, if◌then◌else◌, ℤ, u64_try_from,
}
use shin_bucket_deployment.Deployment.{
  DeploymentManifest, DeploymentRequest, Filters, contains_key, should_include,
}
use shin_bucket_deployment.Namespace.{key_is_excluded, namespace_list_prefix, or_empty}
use shin_bucket_deployment.Destination.Objects.{
  DestinationObject, Objects, insert, normalize_etag, strip_destination_prefix,
}
use shin_bucket_deployment.Destination.Candidates.{DeletionCandidates, default_candidates, retain}

-- An entry of a ListObjectsV2 page, with its key decoded.
pub record ListedObject : Type 0 where
  pub key : Option Bytes
  pub e_tag : Option Bytes
  pub size : Option ℤ

pub record DestinationRecordContext : Type 0 where
  pub protected_namespace : Option Bytes
  pub filters : Filters
  pub manifest : DeploymentManifest
  pub detect_stale_candidates : Bool

-- `option.and_then(f)`.
abbrev pub and_then {ℓ κ} : {A : Type ℓ} {B : Type κ} → Option A → (A → Option B) → Option B
and_then none f = none
and_then (some a) f = f a

-- `option.is_some_and(|prefix| key.starts_with(prefix))`.
abbrev pub in_namespace : Option Bytes → Bytes → Bool
in_namespace none key = false
in_namespace (some prefix) key = starts_with key prefix

unfoldable pub record_destination_object :
    Bytes → Bytes → Option Bytes → Option ℕ → DestinationRecordContext → Objects → Bool × Objects
record_destination_object key relative_key etag size context objects =
    if is_empty relative_key
    then (false, objects)
    else if not (contains_key context.manifest relative_key)
    then (
      context.detect_stale_candidates
          && not (key_is_excluded key context.protected_namespace)
          && should_include context.filters relative_key,
      objects,
    )
    else (
      false,
      insert objects relative_key (record { etag = and_then etag normalize_etag; size = size }),
    )

pub record DestinationPlan : Type 0 where
  pub objects : Objects
  pub current_stale : DeletionCandidates
  pub previous_stale : DeletionCandidates

-- What the loop of `plan_destination` reads: the prefix that it strips, the arguments of
-- `record_destination_object`, and the namespace of the previous destination.
pub record PlanContext : Type 0 where
  pub strip_prefix : Bytes
  pub recording : DestinationRecordContext
  pub previous_cleanup_namespace : Option Bytes

abbrev pub retain_if : Bool → DeletionCandidates → Bytes → DeletionCandidates
retain_if wanted c key = if wanted then retain c key else c

-- The test of the second stale list.
unfoldable pub previous_key_is_stale : PlanContext → Bytes → Bytes → Bool
previous_key_is_stale c key relative_key =
    not (is_empty relative_key)
    && in_namespace c.previous_cleanup_namespace key
    && not (contains_key c.recording.manifest relative_key)

-- The loop's body for an object that has a key.
unfoldable pub plan_key :
    PlanContext → DestinationPlan → Bytes → Option Bytes → Option ℕ → DestinationPlan
unfolding record_destination_object previous_key_is_stale
plan_key c plan key e_tag size =
    let relative_key = strip_destination_prefix c.strip_prefix key in
    let (current_key_is_stale, objects) =
      record_destination_object key relative_key e_tag size c.recording plan.objects in
    record {
      objects = objects;
      current_stale = retain_if current_key_is_stale plan.current_stale key;
      previous_stale = retain_if (previous_key_is_stale c key relative_key) plan.previous_stale key;
    }

-- `let Some(key) = object.key() else { continue }`.
unfoldable pub plan_keyed :
    PlanContext → DestinationPlan → Option Bytes → Option Bytes → Option ℕ → DestinationPlan
unfolding plan_key
plan_keyed c plan none e_tag size = plan
plan_keyed c plan (some key) e_tag size = plan_key c plan key e_tag size

unfoldable pub plan_object : PlanContext → DestinationPlan → ListedObject → DestinationPlan
unfolding plan_keyed
plan_object c plan object =
    plan_keyed c plan object.key object.e_tag (and_then object.size u64_try_from)

unfoldable pub plan_page : PlanContext → DestinationPlan → List ListedObject → DestinationPlan
plan_page c plan [] = plan
plan_page c plan (o ∷ page) = plan_page c (plan_object c plan o) page

unfoldable pub plan_pages :
    PlanContext → DestinationPlan → List (List ListedObject) → DestinationPlan
plan_pages c plan [] = plan
plan_pages c plan (page ∷ pages) = plan_pages c (plan_page c plan page) pages

abbrev pub empty_plan : DestinationPlan
empty_plan = record {
  objects = [];
  current_stale = default_candidates;
  previous_stale = default_candidates;
}

unfoldable pub plan_context :
    DeploymentRequest → Option Bytes → Option Bytes → Filters → DeploymentManifest → PlanContext
plan_context request protected_prefix previous_cleanup_prefix filters manifest = record {
  strip_prefix = or_empty (namespace_list_prefix request.dest_bucket_prefix);
  recording = record {
    protected_namespace = and_then protected_prefix namespace_list_prefix;
    filters = filters;
    manifest = manifest;
    detect_stale_candidates = request.delete_stale_objects_on_deployment;
  };
  previous_cleanup_namespace = and_then previous_cleanup_prefix namespace_list_prefix;
}

-- `plan_destination`, for the pages that the listing under the destination prefix returned.
unfoldable pub plan_destination :
    DeploymentRequest
    → Option Bytes
    → Option Bytes
    → Filters
    → DeploymentManifest
    → List (List ListedObject)
    → DestinationPlan
unfolding plan_context plan_pages
plan_destination request protected_prefix previous_cleanup_prefix filters manifest pages =
    plan_pages (plan_context request protected_prefix previous_cleanup_prefix filters manifest)
      empty_plan pages
