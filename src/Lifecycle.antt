-- ===== src/Lifecycle.antt =====
-- rust/src/lifecycle.rs: what an update may do with the destination that it leaves.
pub mod Safety
use shin_bucket_deployment.Prelude.{
  Option, none, some, Bool, true, false, not, ◌&&◌, Bytes, bytes_eq, if◌then◌else◌,
}
use shin_bucket_deployment.Deployment.{
  DeploymentRequest, PreviousDestination, DeletePreviousObjectsOnChange,
}
use shin_bucket_deployment.Namespace.{
  NamespaceRelation, same, previous_contains_current, current_contains_previous, disjoint,
  canonical_namespace, namespace_relation, namespaces_overlap,
}

pub data RetainReason : Type 0 where
  missing_authorization authorization_mismatch owner_mismatch : RetainReason

pub data NoCleanupReason : Type 0 where
  same_destination : NoCleanupReason

pub data PreviousCleanupStrategy : Type 0 where
  delete_namespace : Option Bytes → PreviousCleanupStrategy
  delete_stale_within_current : PreviousCleanupStrategy

pub record DeletePreviousDestination : Type 0 where
  pub previous : PreviousDestination
  pub strategy : PreviousCleanupStrategy

pub data DestinationChangeCleanupDecision : Type 0 where
  not_needed : NoCleanupReason → DestinationChangeCleanupDecision
  retain : RetainReason → DestinationChangeCleanupDecision
  delete : DeletePreviousDestination → DestinationChangeCleanupDecision

abbrev pub is_none {ℓ} : {A : Type ℓ} → Option A → Bool
is_none none = true
is_none (some _) = false

-- `==` on `Option<String>`.
abbrev pub option_eq : Option Bytes → Option Bytes → Bool
option_eq none none = true
option_eq none (some b) = false
option_eq (some a) none = false
option_eq (some a) (some b) = bytes_eq a b

authorizes : Option DeletePreviousObjectsOnChange → PreviousDestination → Bool
authorizes none previous = false
authorizes (some authorization) previous = bytes_eq authorization.bucket_name previous.bucket_name

unfoldable pub previous_namespace_authorized : DeploymentRequest → PreviousDestination → Bool
unfolding authorizes
previous_namespace_authorized current previous =
    authorizes current.delete_previous_objects_on_change previous

-- The checks that follow the choice of a strategy, in their order.
unfoldable pub authorize_cleanup :
    DeploymentRequest
    → PreviousDestination
    → PreviousCleanupStrategy
    → DestinationChangeCleanupDecision
unfolding previous_namespace_authorized
authorize_cleanup current previous strategy =
    if is_none current.delete_previous_objects_on_change
    then retain missing_authorization
    else if not (previous_namespace_authorized current previous)
    then retain authorization_mismatch
    else if not (bytes_eq current.destination_owner_id previous.owner_id)
    then retain owner_mismatch
    else delete (record { previous = previous; strategy = strategy })

-- The relation that the decision starts from: namespaces of two buckets are disjoint.
unfoldable pub destination_relation : DeploymentRequest → PreviousDestination → NamespaceRelation
destination_relation current previous =
    if bytes_eq current.dest_bucket_name previous.bucket_name
    then namespace_relation previous.bucket_prefix current.dest_bucket_prefix
    else disjoint

unfoldable pub cleanup_for_relation :
    DeploymentRequest → PreviousDestination → NamespaceRelation → DestinationChangeCleanupDecision
unfolding authorize_cleanup
cleanup_for_relation current previous same = not_needed same_destination
cleanup_for_relation current previous previous_contains_current =
    authorize_cleanup current previous (delete_namespace (some current.dest_bucket_prefix))
cleanup_for_relation current previous current_contains_previous =
    authorize_cleanup current previous delete_stale_within_current
cleanup_for_relation current previous disjoint =
    authorize_cleanup current previous (delete_namespace none)

unfoldable pub plan_destination_change_cleanup :
    DeploymentRequest → PreviousDestination → DestinationChangeCleanupDecision
unfolding destination_relation cleanup_for_relation
plan_destination_change_cleanup current previous =
    cleanup_for_relation current previous (destination_relation current previous)

abbrev is_current_contains_previous : NamespaceRelation → Bool
is_current_contains_previous current_contains_previous = true
is_current_contains_previous _ = false

unfoldable pub previous_namespace_is_within_current : DeploymentRequest → PreviousDestination → Bool
previous_namespace_is_within_current current previous =
    bytes_eq current.dest_bucket_name previous.bucket_name
    && is_current_contains_previous
        (namespace_relation previous.bucket_prefix current.dest_bucket_prefix)

unfoldable pub destination_namespaces_overlap : DeploymentRequest → PreviousDestination → Bool
destination_namespaces_overlap current previous =
    bytes_eq current.dest_bucket_name previous.bucket_name
    && namespaces_overlap (canonical_namespace current.dest_bucket_prefix)
        (canonical_namespace previous.bucket_prefix)

unfoldable pub previous_distribution_authorized : DeploymentRequest → PreviousDestination → Bool
previous_distribution_authorized current previous =
    not (is_none current.invalidate_previous_distribution_on_change)
    && option_eq current.invalidate_previous_distribution_on_change previous.distribution_id
