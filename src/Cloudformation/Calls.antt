-- ===== src/Cloudformation/Calls.antt =====
-- The calls of the services, in a log (rust/src/cloudformation.rs).
use shin_bucket_deployment.Prelude.{List, [], ◌∷◌, ◌++◌, Option, Bool, Bytes, Result, ok, err}
use shin_bucket_deployment.Destination.Cleanup.{GuardedDeleteContext, GuardedDeleteOutcome}
use shin_bucket_deployment.Cloudfront.{CreatedInvalidation}
use shin_bucket_deployment.Cloudformation.Decisions.{OverlappingPreviousCleanup}

-- What the request asks of the services.
pub data Action : Type 0 where
  clean_current : GuardedDeleteContext → Action
  run_deploy : Option OverlappingPreviousCleanup → Action
  clean_previous : GuardedDeleteContext → Action
  invalidate_previous : Bytes → List Bytes → Action
  invalidate_current : Bytes → List Bytes → Bool → Action
  await_both : Option CreatedInvalidation → Option CreatedInvalidation → Action

-- The services. `create_invalidation` takes the distribution, its paths, whether the caller will wait, and
-- whether a missing distribution is a success.
pub record Services (W E : Type 0) : Type 0 where
  pub guarded_delete : GuardedDeleteContext → W → Result E GuardedDeleteOutcome × W
  pub deploy : Option OverlappingPreviousCleanup → W → Result E (Unit {0}) × W
  pub create_invalidation :
      Bytes → List Bytes → Bool → Bool → W → Result E (Option CreatedInvalidation) × W
  pub wait_both :
      Option CreatedInvalidation → Option CreatedInvalidation → W → Result E (Unit {0}) × W

pub record Run (W : Type 0) : Type 0 where
  pub world : W
  pub log : List Action

abbrev pub Exec : Type 0 → Type 0 → Type 0 → Type 0
Exec W E A = Run W → Result E A × Run W

module _ {W E A B : Type 0} where
  abbrev pub continue : Result E A → (A → Exec W E B) → Exec W E B
  continue (ok a) f s = f a s
  continue (err e) f s = (err e, s)

  infixl 5 ◌>>=◌ ◌>>◌
  abbrev pub ◌>>=◌ : Exec W E A → (A → Exec W E B) → Exec W E B
  ◌>>=◌ m f s = continue (m s).0 f (m s).1

  abbrev pub ◌>>◌ : Exec W E A → Exec W E B → Exec W E B
  m >> n = m >>= λ _. n

module _ {W E A : Type 0} where
  abbrev pub pure : A → Exec W E A
  pure a s = (ok a, s)

  -- One call of a service.
  abbrev pub perform : Action → (W → Result E A × W) → Exec W E A
  perform action call s =
      ((call s.world).0, record { world = (call s.world).1; log = s.log ++ action ∷ [] })
