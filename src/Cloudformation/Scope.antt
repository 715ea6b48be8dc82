-- ===== src/Cloudformation/Scope.antt =====
-- What one request may do, for every answer of the services (rust/src/cloudformation.rs).
use shin_bucket_deployment.Prelude.{
  List, [], Bool, true, false, Option, none, some, ◌≡◌, ◌≢◌, refl, ap, arith, if◌then◌else◌, Bytes,
  is_empty,
}
use shin_bucket_deployment.Deployment.{DeploymentRequest, PreviousDestination}
use shin_bucket_deployment.Lifecycle.{
  DestinationChangeCleanupDecision, not_needed, retain, delete, DeletePreviousDestination,
  PreviousCleanupStrategy, delete_namespace, delete_stale_within_current,
  plan_destination_change_cleanup, previous_distribution_authorized,
}
use shin_bucket_deployment.Lifecycle.Safety.{plan_delete_iff}
use shin_bucket_deployment.Cloudfront.{CreatedInvalidation}
use shin_bucket_deployment.Cloudformation.{
  RequestType, create, update, remove, Action, clean_current, run_deploy, clean_previous,
  invalidate_previous, invalidate_current, await_both, Services, non_empty,
  destination_change_cleanup, overlapping_previous_cleanup, current_context, previous_context,
  is_remove, previous_content_changed, previous_distribution, current_paths,
  should_invalidate_current, delete_current, deploy_current, clean_by_strategy, delete_previous,
  create_previous, create_current, await_created, await_invalidations, invalidate_distributions,
  process_request_inner,
}
use shin_bucket_deployment.Cloudformation.Order.{
  Steps, Emits, Emits-pure, Emits-perform, Emits-if, Emits-bind,
}

-- When a request may make a call. An update cleans only the namespace of the previous destination
-- that its plan deletes, and invalidates the previous distribution only as the request authorises.
abbrev pub Allowed : RequestType → Option PreviousDestination → DeploymentRequest → Action → Type 0
Allowed t previous request (clean_current context) =
    (t ≡ remove)
    × (request.delete_current_objects_on_delete ≡ true)
    × (context ≡ current_context request)
Allowed t previous request (run_deploy overlapping) =
    (t ≢ remove)
    × (overlapping
        ≡ overlapping_previous_cleanup previous request
            (destination_change_cleanup t previous request))
Allowed t previous request (clean_previous context) =
    (t ≡ update)
    × (p : PreviousDestination) × (plan : DeletePreviousDestination) × (excluded : Option Bytes)
    × (previous ≡ some p)
    × (plan_destination_change_cleanup request p ≡ delete plan)
    × (plan.strategy ≡ delete_namespace excluded)
    × (context ≡ previous_context request p excluded)
Allowed t previous request (invalidate_previous distribution_id paths) =
    (p : PreviousDestination) × (previous ≡ some p)
    × (p.distribution_id ≡ some distribution_id)
    × (is_empty distribution_id ≡ false)
    × (previous_distribution_authorized request p ≡ true)
    × (paths ≡ p.distribution_paths)
Allowed t previous request (invalidate_current distribution_id paths missing_ok) =
    (request.distribution_id ≡ some distribution_id)
    × (is_empty distribution_id ≡ false)
    × (missing_ok ≡ is_remove t)
Allowed t previous request (await_both p c) = request.wait_for_distribution_invalidation ≡ true

non_empty-eq-some :
    (o : Option Bytes) {id : Bytes} → non_empty o ≡ some id → (o ≡ some id) × (is_empty id ≡ false)
unfolding non_empty
non_empty-eq-some none h = cc
non_empty-eq-some (some v) h = ground arith

create_ne_remove : create ≢ remove
create_ne_remove h = cc

update_ne_remove : update ≢ remove
update_ne_remove h = cc

module _ {W E : Type 0} (services : Services W E) (request : DeploymentRequest) where
  delete_current-Emits :
      (t : RequestType) (previous : Option PreviousDestination)
      → Emits (Allowed t previous request) 0 1 (delete_current services t request)
  unfolding delete_current
  delete_current-Emits create previous = Emits-pure _ false 0 1 (omega arith)
  delete_current-Emits update previous = Emits-pure _ false 0 1 (omega arith)
  delete_current-Emits remove previous =
      Emits-if _ request.delete_current_objects_on_delete _ _ 0 1
        (λ h.
          Emits-bind _ _ _ 0 1 1 (omega arith)
            (Emits-perform _ _ _ 0 1 (omega arith) (omega arith) (refl, h, refl))
            (λ outcome. Emits-pure _ _ 1 1 (omega arith)))
        (λ h. Emits-pure _ false 0 1 (omega arith))

  deploy_current-Emits :
      (t : RequestType) (previous : Option PreviousDestination)
      → Emits (Allowed t previous request) 1 2 (
          deploy_current services t (
            overlapping_previous_cleanup previous request
              (destination_change_cleanup t previous request)))
  unfolding deploy_current
  deploy_current-Emits create previous =
      Emits-perform _ _ _ 1 2 (omega arith) (omega arith) (create_ne_remove, refl)
  deploy_current-Emits update previous =
      Emits-perform _ _ _ 1 2 (omega arith) (omega arith) (update_ne_remove, refl)
  deploy_current-Emits remove previous = Emits-pure _ tt 1 2 (omega arith)

  clean_by_strategy-Emits :
      (p : PreviousDestination) (plan : DeletePreviousDestination) (s : PreviousCleanupStrategy)
      → plan_destination_change_cleanup request p ≡ delete plan
      → plan.strategy ≡ s
      → Emits
          (Allowed update (some p) request)
          2
          3
          (clean_by_strategy services request plan.previous s)
  unfolding clean_by_strategy
  clean_by_strategy-Emits p plan delete_stale_within_current h e =
      Emits-pure _ false 2 3 (omega arith)
  clean_by_strategy-Emits p plan (delete_namespace excluded) h e =
      Emits-bind _ _ _ 2 3 3 (omega arith)
        (Emits-perform _ _ _ 2 3 (omega arith) (omega arith) (
          refl,
          p,
          plan,
          excluded,
          refl,
          h,
          e,
          ap (λ q. previous_context request q excluded) ((plan_delete_iff request p plan).0 h).2,
        ))
        (λ outcome. Emits-pure _ _ 3 3 (omega arith))

  decided-Emits :
      (p : PreviousDestination) (d : DestinationChangeCleanupDecision)
      → plan_destination_change_cleanup request p ≡ d
      → Emits (Allowed update (some p) request) 2 3 (delete_previous services request (some d))
  unfolding delete_previous
  decided-Emits p (not_needed r) h = Emits-pure _ false 2 3 (omega arith)
  decided-Emits p (retain r) h = Emits-pure _ false 2 3 (omega arith)
  decided-Emits p (delete plan) h = clean_by_strategy-Emits p plan plan.strategy h refl

  delete_previous-Emits :
      (t : RequestType) (previous : Option PreviousDestination)
      → Emits
          (Allowed t previous request)
          2
          3
          (delete_previous services request (destination_change_cleanup t previous request))
  unfolding destination_change_cleanup
  delete_previous-Emits update (some p) = decided-Emits p _ refl
  delete_previous-Emits update none = unfold delete_previous in Emits-pure _ false 2 3 (omega arith)
  delete_previous-Emits create previous =
      unfold delete_previous in Emits-pure _ false 2 3 (omega arith)
  delete_previous-Emits remove previous =
      unfold delete_previous in Emits-pure _ false 2 3 (omega arith)

  create_current-Emits :
      (t : RequestType) (previous : Option PreviousDestination) (paths : List Bytes)
      (target : Option Bytes)
      → ((id : Bytes) → target ≡ some id → non_empty request.distribution_id ≡ some id)
      → Emits (Allowed t previous request) 4 5 (create_current services t request paths target)
  unfolding create_current
  create_current-Emits t previous paths none h = Emits-pure _ none 4 5 (omega arith)
  create_current-Emits t previous paths (some id) h =
      let (e, n) = non_empty-eq-some request.distribution_id (h id refl) in
      Emits-perform _ _ _ 4 5 (omega arith) (omega arith) (e, n, refl)

  previous_target :
      (p : PreviousDestination) (changed : Bool) {id : Bytes}
      → previous_distribution (some p) request changed ≡ some id
      → (p.distribution_id ≡ some id) × (is_empty id ≡ false)
  unfolding previous_distribution
  previous_target p changed h = non_empty-eq-some p.distribution_id (ground arith)

  create_for-Emits :
      (t : RequestType) (p : PreviousDestination) (target : Option Bytes)
      → ((id : Bytes) → target ≡ some id → (p.distribution_id ≡ some id) × (is_empty id ≡ false))
      → Emits (Allowed t (some p) request) 3 4 (create_previous services request (some p) target)
  unfolding create_previous
  create_for-Emits t p none h = Emits-pure _ none 3 4 (omega arith)
  create_for-Emits t p (some id) h =
      let (e, n) = h id refl in
      Emits-if _ (previous_distribution_authorized request p) _ _ 3 4
        (λ a. Emits-perform _ _ _ 3 4 (omega arith) (omega arith) (p, refl, e, n, a, refl))
        (λ _. Emits-pure _ none 3 4 (omega arith))

  create_previous-Emits :
      (t : RequestType) (previous : Option PreviousDestination) (changed : Bool)
      → Emits (Allowed t previous request) 3 4 (
          create_previous services request previous
            (previous_distribution previous request changed))
  create_previous-Emits t none changed =
      unfold create_previous in Emits-pure _ none 3 4 (omega arith)
  create_previous-Emits t (some p) changed =
      create_for-Emits t p _ (λ id e. previous_target p changed e)

  await_created-Emits :
      (t : RequestType) (previous : Option PreviousDestination) (a b : Option CreatedInvalidation)
      → request.wait_for_distribution_invalidation ≡ true
      → Emits (Allowed t previous request) 5 6 (await_created services a b)
  unfolding await_created
  await_created-Emits t previous none none h = Emits-pure _ tt 5 6 (omega arith)
  await_created-Emits t previous none (some b) h =
      Emits-perform _ _ _ 5 6 (omega arith) (omega arith) h
  await_created-Emits t previous (some a) b h =
      Emits-perform _ _ _ 5 6 (omega arith) (omega arith) h

  await_invalidations-Emits :
      (t : RequestType) (previous : Option PreviousDestination) (a b : Option CreatedInvalidation)
      → Emits (Allowed t previous request) 5 6 (await_invalidations services request a b)
  unfolding await_invalidations
  await_invalidations-Emits t previous a b =
      Emits-if _ request.wait_for_distribution_invalidation _ _ 5 6
        (λ h. await_created-Emits t previous a b h) (λ _. Emits-pure _ tt 5 6 (omega arith))

  current_target :
      (wanted : Bool) (id : Bytes)
      → (if wanted then non_empty request.distribution_id else none) ≡ some id
      → non_empty request.distribution_id ≡ some id
  current_target true id h = h
  current_target false id h = cc

  invalidate_distributions-Emits :
      (t : RequestType) (previous : Option PreviousDestination) (cleaned deleted_current : Bool)
      → Emits
          (Allowed t previous request)
          3
          6
          (invalidate_distributions services t previous request cleaned deleted_current)
  unfolding invalidate_distributions
  invalidate_distributions-Emits t previous cleaned deleted_current =
      let changed = previous_content_changed previous request cleaned in
      Emits-bind _ _ _ 3 4 6 (omega arith) (create_previous-Emits t previous changed) (λ a.
        Emits-bind _ _ _ 4 5 6 (omega arith)
          (create_current-Emits t previous (current_paths previous request changed) _
            (current_target (should_invalidate_current t deleted_current)))
          (λ b. await_invalidations-Emits t previous a b))

  process_request_inner-Emits :
      (t : RequestType) (previous : Option PreviousDestination)
      → Emits (Allowed t previous request) 0 6 (process_request_inner services t previous request)
  unfolding process_request_inner
  process_request_inner-Emits t previous =
      Emits-bind _ _ _ 0 1 6 (omega arith) (delete_current-Emits t previous) (λ deleted_current.
        Emits-bind _ _ _ 1 2 6 (omega arith) (deploy_current-Emits t previous) (λ _.
          Emits-bind _ _ _ 2 3 6 (omega arith) (delete_previous-Emits t previous)
            (λ cleaned. invalidate_distributions-Emits t previous cleaned deleted_current)))

  -- Whatever the services answer, a request's calls come at most once each and in the order: cleanup
  -- of a deleted resource, transfer, cleanup of the previous namespace, invalidation of the previous
  -- and of the current distribution, wait; and each call is one that the request allows.
  pub process_request_inner_scope :
      (t : RequestType) (previous : Option PreviousDestination) (w : W)
      → Steps
          (Allowed t previous request)
          0
          6
          (process_request_inner services t previous request (record { world = w; log = [] })).1.log
  process_request_inner_scope t previous w =
      let (xs, e, st) =
        (process_request_inner-Emits t previous).at (record { world = w; log = [] }) in
      rw e st
