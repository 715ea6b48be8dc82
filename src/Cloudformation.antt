-- ===== src/Cloudformation.antt =====
-- rust/src/cloudformation.rs: what one custom resource request does, in which order. The services
-- (the S3 transfer and cleanup of `rust/src/s3.rs` and `rust/src/s3/destination.rs`, each under the
-- work deadline, and CloudFront) are operations on a world that the request passes through; every
-- call is kept in a log.
pub mod Decisions
pub mod Calls
pub mod Preflight
pub mod Order
pub mod Scope
pub mod Outcome
use shin_bucket_deployment.Prelude.{
  ℕ, zero, suc, List, [], ◌∷◌, ◌++◌, Option, none, some, Bool, true, false, not, ◌&&◌, ◌||◌, Bytes,
  bytes_eq, is_empty, if◌then◌else◌, any, Result, ok, err,
}
use shin_bucket_deployment.Deployment.{DeploymentRequest, PreviousDestination}
use shin_bucket_deployment.Lifecycle.{
  DestinationChangeCleanupDecision, not_needed, retain, delete, DeletePreviousDestination,
  PreviousCleanupStrategy, delete_namespace, delete_stale_within_current, option_eq,
  plan_destination_change_cleanup, previous_namespace_is_within_current,
  destination_namespaces_overlap, previous_distribution_authorized,
}
use shin_bucket_deployment.Destination.Cleanup.{
  GuardedDeleteContext, GuardedDeleteOutcome, retained, deleted,
}
use shin_bucket_deployment.Cloudfront.{CreatedInvalidation}
pub use shin_bucket_deployment.Cloudformation.Decisions.{
  RequestType, create, update, remove, OverlappingPreviousCleanup, retain_previous, delete_stale,
  current_context, previous_context, removed_objects, is_remove, should_invalidate_current,
}
unfoldable pub use shin_bucket_deployment.Cloudformation.Decisions.{
  non_empty, keep_new, merge_distribution_paths, destination_change_cleanup,
  overlapping_previous_cleanup, previous_content_changed, previous_distribution, current_paths,
}
pub use shin_bucket_deployment.Cloudformation.Calls.{
  Action, clean_current, run_deploy, clean_previous, invalidate_previous, invalidate_current,
  await_both, Services, Run, Exec, continue, ◌>>=◌, ◌>>◌, pure, perform,
}

module _ {W E : Type 0} (services : Services W E) where
  -- The cleanup of a Delete request; whether it removed objects.
  unfoldable pub delete_current : RequestType → DeploymentRequest → Exec W E Bool
  delete_current remove request =
      if request.delete_current_objects_on_delete
      then (do
        outcome ←
            perform (clean_current (current_context request))
              (services.guarded_delete (current_context request))
        pure (removed_objects outcome))
      else pure false
  delete_current create request = pure false
  delete_current update request = pure false

  unfoldable pub deploy_current :
      RequestType → Option OverlappingPreviousCleanup → Exec W E (Unit {0})
  deploy_current create overlapping = perform (run_deploy overlapping) (services.deploy overlapping)
  deploy_current update overlapping = perform (run_deploy overlapping) (services.deploy overlapping)
  deploy_current remove overlapping = pure tt

  unfoldable pub clean_by_strategy :
      DeploymentRequest → PreviousDestination → PreviousCleanupStrategy → Exec W E Bool
  clean_by_strategy request previous delete_stale_within_current = pure false
  clean_by_strategy request previous (delete_namespace excluded) = do
    outcome ←
        perform (clean_previous (previous_context request previous excluded))
          (services.guarded_delete (previous_context request previous excluded))
    pure (removed_objects outcome)

  -- The cleanup of the destination that was left; whether it removed objects.
  unfoldable pub delete_previous :
      DeploymentRequest → Option DestinationChangeCleanupDecision → Exec W E Bool
  unfolding clean_by_strategy
  delete_previous request none = pure false
  delete_previous request (some (not_needed r)) = pure false
  delete_previous request (some (retain r)) = pure false
  delete_previous request (some (delete plan)) =
      clean_by_strategy request plan.previous plan.strategy

  unfoldable pub create_current :
      RequestType
      → DeploymentRequest
      → List Bytes
      → Option Bytes
      → Exec W E (Option CreatedInvalidation)
  create_current request_type request paths none = pure none
  create_current request_type request paths (some distribution_id) =
      perform (invalidate_current distribution_id paths (is_remove request_type)) (
        services.create_invalidation distribution_id paths
          request.wait_for_distribution_invalidation (is_remove request_type))

  unfoldable pub create_previous :
      DeploymentRequest
      → Option PreviousDestination
      → Option Bytes
      → Exec W E (Option CreatedInvalidation)
  create_previous request none distribution = pure none
  create_previous request (some previous) none = pure none
  create_previous request (some previous) (some distribution_id) =
      if previous_distribution_authorized request previous
      then perform (invalidate_previous distribution_id previous.distribution_paths) (
          services.create_invalidation distribution_id previous.distribution_paths
            request.wait_for_distribution_invalidation true)
      else pure none

  -- The two waits run together; a wait for nothing returns at once.
  unfoldable pub await_created :
      Option CreatedInvalidation → Option CreatedInvalidation → Exec W E (Unit {0})
  await_created none none = pure tt
  await_created none (some current) =
      perform (await_both none (some current)) (services.wait_both none (some current))
  await_created (some previous) current =
      perform (await_both (some previous) current) (services.wait_both (some previous) current)

  unfoldable pub await_invalidations :
      DeploymentRequest
      → Option CreatedInvalidation
      → Option CreatedInvalidation
      → Exec W E (Unit {0})
  unfolding await_created
  await_invalidations request previous current =
      if request.wait_for_distribution_invalidation then await_created previous current else pure tt

  unfoldable pub invalidate_distributions :
      RequestType
      → Option PreviousDestination
      → DeploymentRequest
      → Bool
      → Bool
      → Exec W E (Unit {0})
  invalidate_distributions request_type previous request cleaned deleted_current = do
    let changed = previous_content_changed previous request cleaned
    previous_invalidation ←
        create_previous request previous (previous_distribution previous request changed)
    current_invalidation ←
        create_current request_type request (current_paths previous request changed) (
          if should_invalidate_current request_type deleted_current
          then non_empty request.distribution_id
          else none)
    await_invalidations request previous_invalidation current_invalidation

  unfoldable pub process_request_inner :
      RequestType → Option PreviousDestination → DeploymentRequest → Exec W E (Unit {0})
  process_request_inner request_type previous request = do
    let decision = destination_change_cleanup request_type previous request
    deleted_current ← delete_current request_type request
    deploy_current request_type (overlapping_previous_cleanup previous request decision)
    cleaned ← delete_previous request decision
    invalidate_distributions request_type previous request cleaned deleted_current
