-- ===== src/Cloudformation/Preflight/Checks.antt =====
-- What each check of the preflight accepted (rust/src/cloudformation.rs).
use shin_bucket_deployment.Prelude.{
  Bool, true, Option, some, ◌≡◌, refl, arith, Result, ok, err, Bytes,
}
use shin_bucket_deployment.Deployment.{DeploymentRequest, PreviousDestination}
use shin_bucket_deployment.Lifecycle.{
  option_eq, plan_destination_change_cleanup, previous_distribution_authorized,
}
use shin_bucket_deployment.Cloudformation.{
  RequestType, update, non_empty, merge_distribution_paths, previous_content_changed,
}
use shin_bucket_deployment.Cloudformation.Preflight.{
  PreflightError, current_paths_invalid, previous_paths_invalid, merged_paths_invalid, then_check,
  checked→Accepted, is_some, current_may_invalidate, preflight_current, plans_delete,
  previous_may_change, preflight_distribution, preflight_non_empty, preflight_previous,
  preflight_invalidation_requests, Accepted,
}

pub then_check-eq-ok :
    (a b : Result PreflightError (Unit {0})) → then_check a b ≡ ok tt → (a ≡ ok tt) × (b ≡ ok tt)
then_check-eq-ok (ok u) b h = (refl, h)
then_check-eq-ok (err e) b h = cc

pub current_Accepted :
    (t : RequestType) (request : DeploymentRequest) (previous : Option PreviousDestination)
    → preflight_invalidation_requests t request previous ≡ ok tt
    → current_may_invalidate t request ≡ true
    → is_some (non_empty request.distribution_id) ≡ true
    → Accepted request.distribution_paths
unfolding preflight_invalidation_requests
current_Accepted t request previous h may id =
    checked→Accepted current_paths_invalid request.distribution_paths (ground arith)

module _ (request : DeploymentRequest) (p : PreviousDestination) where
  pub previous_checks :
      (id : Bytes)
      → preflight_invalidation_requests update request (some p) ≡ ok tt
      → non_empty p.distribution_id ≡ some id
      → previous_may_change request p ≡ true
      → preflight_distribution request p id ≡ ok tt
  unfolding preflight_invalidation_requests
  previous_checks id h e may =
      rw (e, preflight_non_empty) at
        (then_check-eq-ok (preflight_current update request)
          (preflight_previous update request (some p)) h).1

  pub previous_Accepted :
      (id : Bytes)
      → preflight_distribution request p id ≡ ok tt
      → previous_may_change request p ≡ true
      → previous_distribution_authorized request p ≡ true
      → Accepted p.distribution_paths
  unfolding preflight_distribution
  previous_Accepted id h may a =
      checked→Accepted previous_paths_invalid p.distribution_paths (ground arith)

  pub merged_Accepted :
      (id : Bytes)
      → preflight_distribution request p id ≡ ok tt
      → previous_may_change request p ≡ true
      → option_eq request.distribution_id (some id) ≡ true
      → Accepted (merge_distribution_paths request.distribution_paths p.distribution_paths)
  unfolding preflight_distribution
  merged_Accepted id h may s =
      checked→Accepted merged_paths_invalid
        (merge_distribution_paths request.distribution_paths p.distribution_paths) (ground arith)

  pub changed→may :
      (cleaned : Bool)
      → (cleaned ≡ true → plans_delete (plan_destination_change_cleanup request p) ≡ true)
      → previous_content_changed (some p) request cleaned ≡ true
      → previous_may_change request p ≡ true
  unfolding previous_content_changed
  changed→may cleaned h c = ground arith
