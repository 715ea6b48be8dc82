-- ===== src/Cloudformation/Preflight.antt =====
-- `preflight_invalidation_requests`: the paths are validated before any work starts
-- (rust/src/cloudformation.rs).
pub mod Checks
pub mod Phases
pub mod Accepted
use shin_bucket_deployment.Prelude.{
  ℕ, ◌+◌, ◌≤◌, List, [], ◌∷◌, ◌++◌, Bool, true, false, not, ◌&&◌, ◌||◌, Option, none, some, ◌≡◌,
  ◌≢◌, refl, sym, ap, ◌∙◌, arith, if◌then◌else◌, Result, ok, err, Bytes, is_empty, Bool-cases, inl,
  inr, length, bytes_eq, bytes_eq→eq, bytes_eq_iff,
}
use shin_bucket_deployment.Deployment.{DeploymentRequest, PreviousDestination}
use shin_bucket_deployment.Lifecycle.{
  DestinationChangeCleanupDecision, not_needed, retain, delete, DeletePreviousDestination,
  PreviousCleanupStrategy, delete_namespace, delete_stale_within_current, option_eq,
  plan_destination_change_cleanup, previous_distribution_authorized, destination_namespaces_overlap,
}
use shin_bucket_deployment.Cloudfront.{
  InvalidationError, CreatedInvalidation, validate_invalidation_paths,
}
use shin_bucket_deployment.Cloudformation.{
  RequestType, create, update, remove, Action, clean_current, run_deploy, clean_previous,
  invalidate_previous, invalidate_current, await_both, Services, Run, Exec, continue, ◌>>=◌, ◌>>◌,
  pure, perform, non_empty, merge_distribution_paths, destination_change_cleanup,
  overlapping_previous_cleanup, current_context, previous_context, removed_objects, is_remove,
  previous_content_changed, previous_distribution, current_paths, should_invalidate_current,
  delete_current, deploy_current, clean_by_strategy, delete_previous, create_previous,
  create_current, await_created, await_invalidations, invalidate_distributions,
  process_request_inner,
}
use shin_bucket_deployment.Cloudformation.Order.{
  phase, Steps, Emits, Emits-pure, Emits-perform, Emits-if, Emits-bind, Yields, Emits-bind-Yields,
}

-- Which of the three lists of paths was refused.
pub data PreflightError : Type 0 where
  current_paths_invalid previous_paths_invalid merged_paths_invalid :
      InvalidationError → PreflightError

abbrev pub checked :
    (InvalidationError → PreflightError) → List Bytes → Result PreflightError (Unit {0})
checked wrap paths = elim (validate_invalidation_paths paths) [
  | ok quantity ↦ ok tt
  | err e ↦ err (wrap e)
]

abbrev then_check :
    Result PreflightError (Unit {0})
    → Result PreflightError (Unit {0})
    → Result PreflightError (Unit {0})
then_check (ok u) next = next
then_check (err e) next = err e

abbrev pub is_some {ℓ} : {A : Type ℓ} → Option A → Bool
is_some none = false
is_some (some a) = true

abbrev pub current_may_invalidate : RequestType → DeploymentRequest → Bool
current_may_invalidate create request = true
current_may_invalidate update request = true
current_may_invalidate remove request = request.delete_current_objects_on_delete

preflight_current : RequestType → DeploymentRequest → Result PreflightError (Unit {0})
preflight_current t request =
    if current_may_invalidate t request && is_some (non_empty request.distribution_id)
    then checked current_paths_invalid request.distribution_paths
    else ok tt

abbrev pub plans_delete : DestinationChangeCleanupDecision → Bool
plans_delete (not_needed r) = false
plans_delete (retain r) = false
plans_delete (delete plan) = true

-- `previous_may_change`.
abbrev pub previous_may_change : DeploymentRequest → PreviousDestination → Bool
previous_may_change request previous =
    destination_namespaces_overlap request previous
    || plans_delete (plan_destination_change_cleanup request previous)

-- The checks for a previous distribution that is not empty.
unfoldable pub preflight_distribution :
    DeploymentRequest → PreviousDestination → Bytes → Result PreflightError (Unit {0})
preflight_distribution request previous previous_distribution_id =
    let same_distribution = option_eq request.distribution_id (some previous_distribution_id) in
    if not (previous_may_change request previous)
    then ok tt
    else then_check
        (if same_distribution || previous_distribution_authorized request previous
          then checked previous_paths_invalid previous.distribution_paths
          else ok tt)
        (if same_distribution
          then checked merged_paths_invalid
              (merge_distribution_paths request.distribution_paths previous.distribution_paths)
          else ok tt)

preflight_non_empty :
    DeploymentRequest → PreviousDestination → Option Bytes → Result PreflightError (Unit {0})
unfolding preflight_distribution
preflight_non_empty request previous none = ok tt
preflight_non_empty request previous (some id) = preflight_distribution request previous id

preflight_previous :
    RequestType → DeploymentRequest → Option PreviousDestination → Result PreflightError (Unit {0})
unfolding preflight_non_empty
preflight_previous update request (some previous) =
    preflight_non_empty request previous (non_empty previous.distribution_id)
preflight_previous update request none = ok tt
preflight_previous create request previous = ok tt
preflight_previous remove request previous = ok tt

unfoldable pub preflight_invalidation_requests :
    RequestType → DeploymentRequest → Option PreviousDestination → Result PreflightError (Unit {0})
unfolding preflight_current preflight_previous
preflight_invalidation_requests t request previous =
    then_check (preflight_current t request) (preflight_previous t request previous)

-- The paths are accepted.
abbrev pub Accepted : List Bytes → Type 0
Accepted paths = (quantity : ℕ) × (validate_invalidation_paths paths ≡ ok quantity)

-- Every invalidation that is asked for has accepted paths.
abbrev pub HasAcceptedPaths : Action → Type 0
HasAcceptedPaths (invalidate_previous id paths) = Accepted paths
HasAcceptedPaths (invalidate_current id paths b) = Accepted paths
HasAcceptedPaths _ = Unit

checked→Accepted :
    (wrap : InvalidationError → PreflightError) (paths : List Bytes)
    → checked wrap paths ≡ ok tt
    → Accepted paths
checked→Accepted wrap paths h = by_result (validate_invalidation_paths paths) refl h
  where
    by_result :
        (r : Result InvalidationError ℕ)
        → validate_invalidation_paths paths ≡ r
        → (elim r as (λ _. Result PreflightError (Unit {0})) [
          | ok quantity ↦ ok tt
          | err e ↦ err (wrap e)
        ])
          ≡ ok tt
        → Accepted paths
    by_result (ok q) e k = (q, e)
    by_result (err x) e k = cc
