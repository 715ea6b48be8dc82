-- ===== src/Tests/Requests.antt =====
-- Runs of whole requests (rust/src/cloudformation.rs, rust/src/cloudfront.rs).
use shin_bucket_deployment.Prelude.{[], ◌∷◌, some, ◌≡◌, ◌≢◌, ◌↔◌, refl, bytes, ok, err}
use shin_bucket_deployment.Namespace.{namespaces_overlap, canonical_namespace}
use shin_bucket_deployment.Lifecycle.{destination_namespaces_overlap}
use shin_bucket_deployment.Cloudfront.{validate_invalidation_paths}
use shin_bucket_deployment.Cloudfront.Paths.{IsValidRequest, validate_invalidation_paths_iff}
use shin_bucket_deployment.Cloudformation.{
  update, remove, run_deploy, non_empty, merge_distribution_paths, process_request_inner,
  overlapping_previous_cleanup, destination_change_cleanup,
}
use shin_bucket_deployment.Cloudformation.Order.{Steps}
use shin_bucket_deployment.Cloudformation.Scope.{Allowed, process_request_inner_scope}
use shin_bucket_deployment.Cloudformation.Outcome.{failed_deploy_stops}
use shin_bucket_deployment.Cloudformation.Preflight.{
  preflight_invalidation_requests, HasAcceptedPaths,
}
use shin_bucket_deployment.Cloudformation.Preflight.Accepted.{preflight_covers_invalidations}
use shin_bucket_deployment.Tests.Data.{the_request, whole_bucket, answering}

validate_invalidation_paths_iff_example :
    (validate_invalidation_paths (bytes "/*" ∷ bytes "/a" ∷ []) ≡ ok 2)
    ↔ IsValidRequest (bytes "/*" ∷ bytes "/a" ∷ [])
validate_invalidation_paths_iff_example =
    validate_invalidation_paths_iff (bytes "/*" ∷ bytes "/a" ∷ [])

process_request_inner_scope_example :
    Steps
      (Allowed update (some whole_bucket) the_request)
      0
      6
      (process_request_inner
        (answering (ok tt))
        update
        (some whole_bucket)
        the_request
        (record { world = 0; log = [] })).1.log
process_request_inner_scope_example =
    process_request_inner_scope (answering (ok tt)) the_request update (some whole_bucket) 0

paths_pass : preflight_invalidation_requests update the_request (some whole_bucket) ≡ ok tt
unfolding preflight_invalidation_requests non_empty validate_invalidation_paths
    destination_namespaces_overlap namespaces_overlap canonical_namespace merge_distribution_paths
paths_pass = refl

preflight_covers_invalidations_example :
    Steps HasAcceptedPaths 0 6
      (process_request_inner
        (answering (ok tt))
        update
        (some whole_bucket)
        the_request
        (record { world = 0; log = [] })).1.log
preflight_covers_invalidations_example =
    preflight_covers_invalidations (answering (ok tt)) the_request update (some whole_bucket) 0 tt
      paths_pass

update_ne_remove : update ≢ remove
update_ne_remove h = cc

failed_deploy_stops_example :
    process_request_inner
      (answering (err 3))
      update
      (some whole_bucket)
      the_request
      (record { world = 0; log = [] })
    ≡ (
      err 3,
      record {
        world = 1;
        log =
            run_deploy (
              overlapping_previous_cleanup
                (some whole_bucket)
                the_request
                (destination_change_cleanup update (some whole_bucket) the_request))
            ∷ [];
      },
    )
failed_deploy_stops_example =
    failed_deploy_stops (answering (err 3)) the_request update (some whole_bucket) 0 1 3
      update_ne_remove refl
