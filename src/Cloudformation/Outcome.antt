-- ===== src/Cloudformation/Outcome.antt =====
-- How a request ends early (rust/src/cloudformation.rs).
use shin_bucket_deployment.Prelude.{[], ◌∷◌, false, Option, none, ◌≡◌, ◌≢◌, refl, arith, ok, err}
use shin_bucket_deployment.Deployment.{DeploymentRequest, PreviousDestination}
use shin_bucket_deployment.Cloudformation.{
  RequestType, create, update, remove, run_deploy, Services, destination_change_cleanup,
  overlapping_previous_cleanup, previous_distribution, delete_current, deploy_current,
  delete_previous, create_previous, create_current, await_created, await_invalidations,
  invalidate_distributions, process_request_inner,
}

module _ {W E : Type 0} (services : Services W E) (request : DeploymentRequest) where
  -- A Delete request without the destructive option makes no call, succeeds, and leaves the world.
  delete_without_option :
      (w : W)
      → request.delete_current_objects_on_delete ≡ false
      → process_request_inner services remove none request (record { world = w; log = [] })
        ≡ (ok tt, record { world = w; log = [] })
  unfolding process_request_inner delete_current deploy_current delete_previous
      invalidate_distributions create_previous create_current await_invalidations await_created
      destination_change_cleanup previous_distribution
  delete_without_option w h = grind arith

  -- If the transfer of a Create or an Update fails, its error is the result and the transfer is the
  -- only call: nothing is cleaned and nothing invalidated.
  pub failed_deploy_stops :
      (t : RequestType) (previous : Option PreviousDestination) (w w' : W) (e : E)
      → t ≢ remove
      → services.deploy
          (overlapping_previous_cleanup previous request
            (destination_change_cleanup t previous request))
          w
        ≡ (err e, w')
      → process_request_inner services t previous request (record { world = w; log = [] }) ≡ (
        err e,
        record {
          world = w';
          log =
              run_deploy (
                overlapping_previous_cleanup previous request
                  (destination_change_cleanup t previous request))
              ∷ [];
        },
      )
  unfolding process_request_inner delete_current deploy_current
  failed_deploy_stops create previous w w' e ne h = rw h
  failed_deploy_stops update previous w w' e ne h = rw h
  failed_deploy_stops remove previous w w' e ne h = absurd (ne refl)
