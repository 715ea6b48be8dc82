-- ===== src/Cloudformation/Preflight/Accepted.antt =====
-- After the preflight no invalidation can fail for its paths (rust/src/cloudformation.rs).
use shin_bucket_deployment.Prelude.{
  [], Bool, true, false, ◌&&◌, Option, none, some, ◌≡◌, refl, arith, if◌then◌else◌, ok, Bytes,
  Bool-cases, Option-cases, inl, inr, bytes_eq→eq, bytes_eq_refl, &&_true,
}
use shin_bucket_deployment.Deployment.{DeploymentRequest, PreviousDestination}
use shin_bucket_deployment.Lifecycle.{
  option_eq, plan_destination_change_cleanup, previous_distribution_authorized,
}
use shin_bucket_deployment.Cloudformation.{
  RequestType, create, update, remove, Services, non_empty, destination_change_cleanup,
  previous_content_changed, previous_distribution, current_paths, should_invalidate_current,
  create_previous, invalidate_distributions, process_request_inner,
}
use shin_bucket_deployment.Cloudformation.Order.{
  Steps, Emits, Emits-pure, Emits-bind, Emits-bind-Yields,
}
use shin_bucket_deployment.Cloudformation.Preflight.{
  is_some, current_may_invalidate, plans_delete, previous_may_change,
  preflight_invalidation_requests, Accepted, HasAcceptedPaths,
}
use shin_bucket_deployment.Cloudformation.Preflight.Checks.{
  current_Accepted, previous_checks, previous_Accepted, merged_Accepted, changed→may,
}
use shin_bucket_deployment.Cloudformation.Preflight.Phases.{
  delete_current-Yields, delete_current-Emits, deploy_current-Emits, delete_previous-Emits,
  delete_previous-Yields, await_invalidations-Emits, create_current-Emits, create_previous-Emits,
}

-- Old properties come with updates only.
abbrev pub OnlyForUpdates : RequestType → Option PreviousDestination → Type 0
OnlyForUpdates update previous = Unit
OnlyForUpdates create previous = previous ≡ none
OnlyForUpdates remove previous = previous ≡ none

module _ {W E : Type 0} (services : Services W E) (request : DeploymentRequest) where
  wanted_target :
      (wanted : Bool)
      → is_some (if wanted then non_empty request.distribution_id else none) ≡ true
      → (wanted ≡ true) × (is_some (non_empty request.distribution_id) ≡ true)
  wanted_target true h = (refl, h)
  wanted_target false h = cc

  wanted→may :
      (t : RequestType) (deleted_current : Bool)
      → (deleted_current ≡ true → current_may_invalidate t request ≡ true)
      → should_invalidate_current t deleted_current ≡ true
      → current_may_invalidate t request ≡ true
  wanted→may create d h w = refl
  wanted→may update d h w = refl
  wanted→may remove d h w = h w

  invalidate_without_previous :
      (t : RequestType) (cleaned deleted_current : Bool)
      → preflight_invalidation_requests t request none ≡ ok tt
      → (deleted_current ≡ true → current_may_invalidate t request ≡ true)
      → Emits HasAcceptedPaths 3 6
          (invalidate_distributions services t none request cleaned deleted_current)
  unfolding invalidate_distributions create_previous current_paths
  invalidate_without_previous t cleaned deleted_current h d =
      Emits-bind _ _ _ 3 4 6 (omega arith) (Emits-pure _ none 3 4 (omega arith)) (λ a.
        Emits-bind _ _ _ 4 5 6 (omega arith)
          (create_current-Emits services request t request.distribution_paths _ (λ w.
            let (wanted, id) = wanted_target (should_invalidate_current t deleted_current) w in
            current_Accepted t request none h (wanted→may t deleted_current d wanted) id))
          (λ b. await_invalidations-Emits services request a b))

  module _ (p : PreviousDestination)
      (h : preflight_invalidation_requests update request (some p) ≡ ok tt) where
    previous_target_Accepted :
        (changed : Bool)
        → (changed ≡ true → previous_may_change request p ≡ true)
        → is_some (previous_distribution (some p) request changed) ≡ true
        → previous_distribution_authorized request p ≡ true
        → Accepted p.distribution_paths
    unfolding previous_distribution
    previous_target_Accepted changed may w a = elim (Option-cases (non_empty p.distribution_id)) [
      | inl e ↦ absurd (ground arith)
      | inr (id, e) ↦
          let m = may (ground arith) in
          previous_Accepted request p id (previous_checks request p id h e m) m a
    ]

    same_distribution :
        (o q : Option Bytes) (id : Bytes)
        → option_eq q o ≡ true
        → non_empty o ≡ some id
        → (non_empty q ≡ some id) × (option_eq o (some id) ≡ true)
    unfolding non_empty
    same_distribution none q id e n = cc
    same_distribution (some v) none id e n = cc
    same_distribution (some v) (some u) id e n =
        let x = bytes_eq→eq u v e in
        let y : v ≡ id = ground arith in (rw x n, rw y (bytes_eq_refl id))

    current_paths-Accepted :
        (changed : Bool)
        → (changed ≡ true → previous_may_change request p ≡ true)
        → is_some (non_empty request.distribution_id) ≡ true
        → Accepted (current_paths (some p) request changed)
    unfolding current_paths
    current_paths-Accepted changed may w =
        elim (Bool-cases (changed && option_eq p.distribution_id request.distribution_id)) [
          | inr e ↦ rw e (current_Accepted update request (some p) h refl w)
          | inl e ↦ elim (Option-cases (non_empty request.distribution_id)) [
            | inl n ↦ absurd (ground arith)
            | inr (id, n) ↦
                let (c, s) =
                  &&_true changed (option_eq p.distribution_id request.distribution_id) e in
                let (q, o) = same_distribution request.distribution_id p.distribution_id id s n in
                let m = may c in
                rw e (merged_Accepted request p id (previous_checks request p id h q m) m o)
          ]
        ]

    invalidate_with_previous :
        (cleaned deleted_current : Bool)
        → (cleaned ≡ true → plans_delete (plan_destination_change_cleanup request p) ≡ true)
        → Emits HasAcceptedPaths 3 6
            (invalidate_distributions services update (some p) request cleaned deleted_current)
    unfolding invalidate_distributions
    invalidate_with_previous cleaned deleted_current c =
        let may = changed→may request p cleaned c in
        let changed = previous_content_changed (some p) request cleaned in
        Emits-bind _ _ _ 3 4 6 (omega arith)
          (create_previous-Emits services request p _ (previous_target_Accepted changed may))
          (λ a.
            Emits-bind _ _ _ 4 5 6 (omega arith)
              (create_current-Emits services request update _ _
                (λ w. current_paths-Accepted changed may (wanted_target true w).1))
              (λ b. await_invalidations-Emits services request a b))

  process_without_previous :
      (t : RequestType)
      → preflight_invalidation_requests t request none ≡ ok tt
      → destination_change_cleanup t none request ≡ none
      → Emits HasAcceptedPaths 0 6 (process_request_inner services t none request)
  unfolding process_request_inner
  process_without_previous t h e = rw e (
      Emits-bind-Yields _ _ _ _ 0 1 6 (omega arith) (delete_current-Emits services request t)
        (delete_current-Yields services request t)
        (λ deleted_current d.
          Emits-bind _ _ _ 1 2 6 (omega arith) (deploy_current-Emits services request t _) (λ _.
            Emits-bind _ _ _ 2 3 6 (omega arith) (delete_previous-Emits services request none)
              (λ cleaned. invalidate_without_previous t cleaned deleted_current h d))))

  process_with_previous :
      (p : PreviousDestination)
      → preflight_invalidation_requests update request (some p) ≡ ok tt
      → Emits HasAcceptedPaths 0 6 (process_request_inner services update (some p) request)
  unfolding process_request_inner destination_change_cleanup
  process_with_previous p h =
      Emits-bind _ _ _ 0 1 6 (omega arith) (delete_current-Emits services request update)
        (λ deleted_current.
          Emits-bind _ _ _ 1 2 6 (omega arith) (deploy_current-Emits services request update _)
            (λ _.
              Emits-bind-Yields _ _ _ _ 2 3 6 (omega arith)
                (delete_previous-Emits services request _)
                (delete_previous-Yields services request
                  (plan_destination_change_cleanup request p))
                (λ cleaned c. invalidate_with_previous p h cleaned deleted_current c)))

  process-Emits :
      (t : RequestType) (previous : Option PreviousDestination)
      → OnlyForUpdates t previous
      → preflight_invalidation_requests t request previous ≡ ok tt
      → Emits HasAcceptedPaths 0 6 (process_request_inner services t previous request)
  process-Emits create none o h =
      process_without_previous create h (unfold destination_change_cleanup in refl)
  process-Emits create (some p) o h = cc
  process-Emits remove none o h =
      process_without_previous remove h (unfold destination_change_cleanup in refl)
  process-Emits remove (some p) o h = cc
  process-Emits update none o h =
      process_without_previous update h (unfold destination_change_cleanup in refl)
  process-Emits update (some p) o h = process_with_previous p h

  -- If the preflight accepts a request, then whatever the services answer, every invalidation that
  -- the request asks for has paths that `validate_invalidation_paths` accepts.
  pub preflight_covers_invalidations :
      (t : RequestType) (previous : Option PreviousDestination) (w : W)
      → OnlyForUpdates t previous
      → preflight_invalidation_requests t request previous ≡ ok tt
      → Steps HasAcceptedPaths 0 6
          (process_request_inner services t previous request (record { world = w; log = [] })).1.log
  preflight_covers_invalidations t previous w o h =
      let (xs, e, st) = (process-Emits t previous o h).at (record { world = w; log = [] }) in
      rw e st
