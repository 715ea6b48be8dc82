-- ===== src/Cloudformation/Preflight/Phases.antt =====
-- The calls of each phase of a request, and what its paths rest on (rust/src/cloudformation.rs).
use shin_bucket_deployment.Prelude.{List, true, false, Option, none, some, ◌≡◌, refl, arith, Bytes}
use shin_bucket_deployment.Deployment.{DeploymentRequest, PreviousDestination}
use shin_bucket_deployment.Lifecycle.{
  DestinationChangeCleanupDecision, not_needed, retain, delete, PreviousCleanupStrategy,
  delete_namespace, delete_stale_within_current, previous_distribution_authorized,
}
use shin_bucket_deployment.Cloudfront.{CreatedInvalidation}
use shin_bucket_deployment.Cloudformation.{
  RequestType, create, update, remove, OverlappingPreviousCleanup, Services, delete_current,
  deploy_current, clean_by_strategy, delete_previous, create_previous, create_current,
  await_created, await_invalidations,
}
use shin_bucket_deployment.Cloudformation.Order.{
  Emits, Emits-pure, Emits-perform, Emits-if, Emits-bind, Yields, Yields-if,
}
use shin_bucket_deployment.Cloudformation.Preflight.{
  is_some, current_may_invalidate, plans_delete, Accepted, HasAcceptedPaths,
}

module _ {W E : Type 0} (services : Services W E) (request : DeploymentRequest) where
  pub delete_current-Yields :
      (t : RequestType)
      → Yields
          (λ b. b ≡ true → current_may_invalidate t request ≡ true)
          (delete_current services t request)
  unfolding delete_current
  delete_current-Yields create = record { at = λ s a e h. refl }
  delete_current-Yields update = record { at = λ s a e h. refl }
  delete_current-Yields remove =
      Yields-if _ request.delete_current_objects_on_delete _ _
        (λ flag. record { at = λ s a e h. flag }) (λ flag. record { at = λ s a e h. cc })

  pub delete_current-Emits :
      (t : RequestType) → Emits HasAcceptedPaths 0 1 (delete_current services t request)
  unfolding delete_current
  delete_current-Emits create = Emits-pure _ false 0 1 (omega arith)
  delete_current-Emits update = Emits-pure _ false 0 1 (omega arith)
  delete_current-Emits remove =
      Emits-if _ request.delete_current_objects_on_delete _ _ 0 1
        (λ flag.
          Emits-bind _ _ _ 0 1 1 (omega arith)
            (Emits-perform _ _ _ 0 1 (omega arith) (omega arith) tt)
            (λ outcome. Emits-pure _ _ 1 1 (omega arith)))
        (λ flag. Emits-pure _ false 0 1 (omega arith))

  pub deploy_current-Emits :
      (t : RequestType) (o : Option OverlappingPreviousCleanup)
      → Emits HasAcceptedPaths 1 2 (deploy_current services t o)
  unfolding deploy_current
  deploy_current-Emits create o = Emits-perform _ _ _ 1 2 (omega arith) (omega arith) tt
  deploy_current-Emits update o = Emits-perform _ _ _ 1 2 (omega arith) (omega arith) tt
  deploy_current-Emits remove o = Emits-pure _ tt 1 2 (omega arith)

  pub clean_by_strategy-Emits :
      (p : PreviousDestination) (s : PreviousCleanupStrategy)
      → Emits HasAcceptedPaths 2 3 (clean_by_strategy services request p s)
  unfolding clean_by_strategy
  clean_by_strategy-Emits p delete_stale_within_current = Emits-pure _ false 2 3 (omega arith)
  clean_by_strategy-Emits p (delete_namespace excluded) =
      Emits-bind _ _ _ 2 3 3 (omega arith) (Emits-perform _ _ _ 2 3 (omega arith) (omega arith) tt)
        (λ outcome. Emits-pure _ _ 3 3 (omega arith))

  pub delete_previous-Emits :
      (d : Option DestinationChangeCleanupDecision)
      → Emits HasAcceptedPaths 2 3 (delete_previous services request d)
  unfolding delete_previous
  delete_previous-Emits none = Emits-pure _ false 2 3 (omega arith)
  delete_previous-Emits (some (not_needed r)) = Emits-pure _ false 2 3 (omega arith)
  delete_previous-Emits (some (retain r)) = Emits-pure _ false 2 3 (omega arith)
  delete_previous-Emits (some (delete plan)) = clean_by_strategy-Emits plan.previous plan.strategy

  -- Objects are removed from the previous destination only if its plan says so.
  pub delete_previous-Yields :
      (d : DestinationChangeCleanupDecision)
      → Yields (λ b. b ≡ true → plans_delete d ≡ true) (delete_previous services request (some d))
  unfolding delete_previous
  delete_previous-Yields (not_needed r) = record { at = λ s a e h. cc }
  delete_previous-Yields (retain r) = record { at = λ s a e h. cc }
  delete_previous-Yields (delete plan) = record { at = λ s a e h. refl }

  pub await_invalidations-Emits :
      (a b : Option CreatedInvalidation)
      → Emits HasAcceptedPaths 5 6 (await_invalidations services request a b)
  unfolding await_invalidations
  await_invalidations-Emits a b =
      Emits-if _ request.wait_for_distribution_invalidation _ _ 5 6 (λ h. waits a b)
        (λ _. Emits-pure _ tt 5 6 (omega arith))
    where
      waits :
          (a b : Option CreatedInvalidation)
          → Emits HasAcceptedPaths 5 6 (await_created services a b)
      waits none none = Emits-pure _ tt 5 6 (omega arith)
      waits none (some b) = Emits-perform _ _ _ 5 6 (omega arith) (omega arith) tt
      waits (some a) b = Emits-perform _ _ _ 5 6 (omega arith) (omega arith) tt

  pub create_current-Emits :
      (t : RequestType) (paths : List Bytes) (target : Option Bytes)
      → (is_some target ≡ true → Accepted paths)
      → Emits HasAcceptedPaths 4 5 (create_current services t request paths target)
  unfolding create_current
  create_current-Emits t paths none h = Emits-pure _ none 4 5 (omega arith)
  create_current-Emits t paths (some id) h =
      Emits-perform _ _ _ 4 5 (omega arith) (omega arith) (h refl)

  pub create_previous-Emits :
      (p : PreviousDestination) (target : Option Bytes)
      → (is_some target ≡ true
          → previous_distribution_authorized request p ≡ true
          → Accepted p.distribution_paths)
      → Emits HasAcceptedPaths 3 4 (create_previous services request (some p) target)
  unfolding create_previous
  create_previous-Emits p none h = Emits-pure _ none 3 4 (omega arith)
  create_previous-Emits p (some id) h =
      Emits-if _ (previous_distribution_authorized request p) _ _ 3 4
        (λ a. Emits-perform _ _ _ 3 4 (omega arith) (omega arith) (h refl a))
        (λ _. Emits-pure _ none 3 4 (omega arith))
