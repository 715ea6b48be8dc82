-- ===== src/Lifecycle/Safety.antt =====
-- When a destination change deletes, and that it spares the current namespace
-- (rust/src/lifecycle.rs with `delete_namespace` of rust/src/s3/destination.rs).
use mathlib.Core.Path.{subst}
use shin_bucket_deployment.Prelude.{
  [], ◌∷◌, Option, none, some, true, false, ◌≡◌, ◌≢◌, ◌↔◌, ◌⊎◌, bytes_eq, bytes_eq_iff, refl, sym,
  ap, inl, inr, arith, Bytes, bytes_eq→eq, bytes_eq_refl, starts_with_refl, ◌∙◌, starts_with,
  Bool-cases, Option-cases,
}
use shin_bucket_deployment.Deployment.{
  DeploymentRequest, PreviousDestination, DeletePreviousObjectsOnChange,
}
use shin_bucket_deployment.Destination.Cleanup.{namespace_selects}
use shin_bucket_deployment.Namespace.{
  namespace, or_empty, NamespaceRelation, same, previous_contains_current,
  current_contains_previous, disjoint, canonical_namespace, namespace_relation, key_is_excluded,
}
use shin_bucket_deployment.Namespace.Relation.{
  Classifies, Classifies-unique, Covers, Apart, namespace_relation_iff, list_prefix-eq-canonical,
}
use shin_bucket_deployment.Lifecycle.{
  PreviousCleanupStrategy, delete_namespace, delete_stale_within_current, DeletePreviousDestination,
  delete, authorize_cleanup, destination_relation, cleanup_for_relation,
  plan_destination_change_cleanup,
}

-- The strategy for a relation; the same destination has none.
abbrev pub strategy_of : DeploymentRequest → NamespaceRelation → Option PreviousCleanupStrategy
strategy_of current same = none
strategy_of current previous_contains_current =
    some (delete_namespace (some current.dest_bucket_prefix))
strategy_of current current_contains_previous = some delete_stale_within_current
strategy_of current disjoint = some (delete_namespace none)

-- The request names the previous bucket, and both destinations have one owner.
pub record IsAuthorized (current : DeploymentRequest) (previous : PreviousDestination)
    : Type 0 where
  pub authorization : DeletePreviousObjectsOnChange
  pub given : current.delete_previous_objects_on_change ≡ some authorization
  pub names_bucket : authorization.bucket_name ≡ previous.bucket_name
  pub same_owner : current.destination_owner_id ≡ previous.owner_id

authorize_cleanup_sound :
    (current : DeploymentRequest) (previous : PreviousDestination) (s : PreviousCleanupStrategy)
    {plan : DeletePreviousDestination}
    → authorize_cleanup current previous s ≡ delete plan
    → IsAuthorized current previous × (plan ≡ record { previous = previous; strategy = s })
unfolding authorize_cleanup
authorize_cleanup_sound current previous s h =
    elim (Option-cases current.delete_previous_objects_on_change) [
      | inl e ↦ absurd (ground arith)
      | inr (a, e) ↦ (
        record {
          authorization = a;
          given = e;
          names_bucket = ground (arith, bytes_eq→eq a.bucket_name previous.bucket_name);
          same_owner = ground (arith, bytes_eq→eq current.destination_owner_id previous.owner_id);
        },
        ground arith,
      )
    ]

authorize_cleanup_complete :
    (current : DeploymentRequest) (previous : PreviousDestination) (s : PreviousCleanupStrategy)
    → IsAuthorized current previous
    → authorize_cleanup current previous s ≡ delete (record { previous = previous; strategy = s })
unfolding authorize_cleanup
authorize_cleanup_complete current previous s a = rw a.given (
    rw (a.names_bucket, a.same_owner)
      (rw (bytes_eq_refl previous.bucket_name) (rw (bytes_eq_refl previous.owner_id))))

plan_relation :
    (current : DeploymentRequest) (previous : PreviousDestination) (r : NamespaceRelation)
    {plan : DeletePreviousDestination}
    → cleanup_for_relation current previous r ≡ delete plan
    → IsAuthorized current previous
      × (strategy_of current r ≡ some plan.strategy)
      × (plan.previous ≡ previous)
unfolding cleanup_for_relation
plan_relation current previous same h = cc
plan_relation current previous previous_contains_current h =
    let (a, e) = authorize_cleanup_sound current previous _ h in (a, rw e, rw e)
plan_relation current previous current_contains_previous h =
    let (a, e) = authorize_cleanup_sound current previous _ h in (a, rw e, rw e)
plan_relation current previous disjoint h =
    let (a, e) = authorize_cleanup_sound current previous _ h in (a, rw e, rw e)

relation_plan :
    (current : DeploymentRequest) (previous : PreviousDestination) (r : NamespaceRelation)
    (s : PreviousCleanupStrategy)
    → IsAuthorized current previous
    → strategy_of current r ≡ some s
    → cleanup_for_relation current previous r
      ≡ delete (record { previous = previous; strategy = s })
unfolding cleanup_for_relation
relation_plan current previous same s a e = cc
relation_plan current previous previous_contains_current s a e =
    authorize_cleanup_complete current previous _ a ∙ cc
relation_plan current previous current_contains_previous s a e =
    authorize_cleanup_complete current previous _ a ∙ cc
relation_plan current previous disjoint s a e = authorize_cleanup_complete current previous _ a ∙ cc

-- The plan follows the relation that the code reads.
plan_by_relation :
    (current : DeploymentRequest) (previous : PreviousDestination)
    (plan : DeletePreviousDestination)
    → (plan_destination_change_cleanup current previous ≡ delete plan) ↔ (
        IsAuthorized current previous
        × (strategy_of current (destination_relation current previous) ≡ some plan.strategy)
        × (plan.previous ≡ previous))
unfolding plan_destination_change_cleanup
plan_by_relation current previous plan = (
  (λ h. plan_relation current previous (destination_relation current previous) h),
  (λ w.
      relation_plan current previous (destination_relation current previous) plan.strategy w.0 w.1
      ∙ (λ i. delete (record { previous = sym w.2 i; strategy = plan.strategy }))),
)

-- What a strategy is for, by the buckets and by the keys of the two namespaces `p` and `c`.
abbrev pub Fits :
    DeploymentRequest → PreviousDestination → Bytes → Bytes → PreviousCleanupStrategy → Type 0
Fits current previous p c (delete_namespace none) =
    (current.dest_bucket_name ≢ previous.bucket_name) ⊎ Apart p c
Fits current previous p c (delete_namespace (some excluded)) =
    (current.dest_bucket_name ≡ previous.bucket_name)
    × (excluded ≡ current.dest_bucket_prefix)
    × (p ≢ c)
    × Covers p c
Fits current previous p c delete_stale_within_current =
    (current.dest_bucket_name ≡ previous.bucket_name) × (p ≢ c) × Covers c p

-- A relation that is right for the keys of one bucket has a strategy exactly when it fits.
strategy_of→Fits :
    (current : DeploymentRequest) (previous : PreviousDestination) (p c : Bytes)
    (r : NamespaceRelation) (s : PreviousCleanupStrategy)
    → current.dest_bucket_name ≡ previous.bucket_name
    → Classifies r p c
    → strategy_of current r ≡ some s
    → Fits current previous p c s
strategy_of→Fits current previous p c same s b k e = cc
strategy_of→Fits current previous p c previous_contains_current s b k e =
    let d : delete_namespace (some current.dest_bucket_prefix) ≡ s = cc in
    subst (Fits current previous p c) d (b, refl, k.0, k.1)
strategy_of→Fits current previous p c current_contains_previous s b k e =
    let d : delete_stale_within_current ≡ s = cc in
    subst (Fits current previous p c) d (b, k.0, k.1)
strategy_of→Fits current previous p c disjoint s b k e =
    let d : delete_namespace none ≡ s = cc in subst (Fits current previous p c) d (inr k)

Fits→strategy_of :
    (current : DeploymentRequest) (previous : PreviousDestination) (p c : Bytes)
    (r : NamespaceRelation) (s : PreviousCleanupStrategy)
    → current.dest_bucket_name ≡ previous.bucket_name
    → Classifies r p c
    → Fits current previous p c s
    → strategy_of current r ≡ some s
Fits→strategy_of current previous p c r (delete_namespace none) b k (inl ne) = absurd (ne b)
Fits→strategy_of current previous p c r (delete_namespace none) b k (inr apart) =
    rw (Classifies-unique r disjoint p c k apart) refl
Fits→strategy_of current previous p c r (delete_namespace (some excluded)) b k (_, x, y, z) =
    rw (Classifies-unique r previous_contains_current p c k (y, z)) (rw x refl)
Fits→strategy_of current previous p c r delete_stale_within_current b k (_, y, z) =
    rw (Classifies-unique r current_contains_previous p c k (y, z)) refl

-- Two buckets apart take the whole previous namespace.
Fits-apart :
    (current : DeploymentRequest) (previous : PreviousDestination) (p c : Bytes)
    (s : PreviousCleanupStrategy)
    → current.dest_bucket_name ≢ previous.bucket_name
    → (strategy_of current disjoint ≡ some s) ↔ Fits current previous p c s
Fits-apart current previous p c (delete_namespace none) ne = ((λ e. inl ne), (λ w. refl))
Fits-apart current previous p c (delete_namespace (some x)) ne = ((λ e. cc), (λ w. absurd (ne w.0)))
Fits-apart current previous p c delete_stale_within_current ne = ((λ e. cc), (λ w. absurd (ne w.0)))

relation-Fits :
    (current : DeploymentRequest) (previous : PreviousDestination) (s : PreviousCleanupStrategy)
    → (strategy_of current (destination_relation current previous) ≡ some s)
      ↔ Fits current previous
          (canonical_namespace previous.bucket_prefix)
          (canonical_namespace current.dest_bucket_prefix)
          s
unfolding destination_relation
relation-Fits current previous s =
    let p = canonical_namespace previous.bucket_prefix in
    let c = canonical_namespace current.dest_bucket_prefix in
    let r = namespace_relation previous.bucket_prefix current.dest_bucket_prefix in
    let k = (namespace_relation_iff r previous.bucket_prefix current.dest_bucket_prefix).0 refl in
    elim (Bool-cases (bytes_eq current.dest_bucket_name previous.bucket_name)) [
      | inl e ↦
          let b = bytes_eq→eq current.dest_bucket_name previous.bucket_name e in
          rw e (
            (λ h. strategy_of→Fits current previous p c r s b k h),
            (λ w. Fits→strategy_of current previous p c r s b k w),
          )
      | inr e ↦ rw e (
          Fits-apart current previous p c s
            (λ b. cc ((bytes_eq_iff current.dest_bucket_name previous.bucket_name).1 b)))
    ]

-- A destination change is planned to delete exactly when the request authorises the previous bucket
-- by name, both destinations have one owner, and the plan, which is for the previous destination,
-- has the strategy that fits: to delete the whole previous namespace when the buckets differ or the
-- namespaces have no key in common; to spare the current prefix when the previous namespace, which
-- is another one, holds every key of the current one; and to delete stale keys alone when the
-- current one, which is another one, holds every key of the previous one.
pub plan_delete_iff :
    (current : DeploymentRequest) (previous : PreviousDestination)
    (plan : DeletePreviousDestination)
    → (plan_destination_change_cleanup current previous ≡ delete plan) ↔ (
        IsAuthorized current previous
        × Fits current previous
            (canonical_namespace previous.bucket_prefix)
            (canonical_namespace current.dest_bucket_prefix)
            plan.strategy
        × (plan.previous ≡ previous))
plan_delete_iff current previous plan =
    let (f, g) = plan_by_relation current previous plan in
    let (i, j) = relation-Fits current previous plan.strategy in
    ((λ h. let (a, e, q) = f h in (a, i e, q)), (λ w. g (w.0, j w.1, w.2)))

-- The listing prefix of a prefix whose canonical namespace is not the root.
namespace-eq-canonical :
    (p : Bytes) → canonical_namespace p ≢ [] → namespace p ≡ canonical_namespace p
unfolding namespace
namespace-eq-canonical p h = ap or_empty (list_prefix-eq-canonical p h)

Covers-nil : (p c : Bytes) → p ≢ c → Covers p c → c ≢ []
Covers-nil [] c ne h e = ne (sym e)
Covers-nil (x ∷ p) c ne h e = cc (h [] (rw e))

Apart-nil : (p c : Bytes) → Apart p c → (p ≢ []) × (c ≢ [])
Apart-nil p c h = ((λ e. h c (rw e) (starts_with_refl c)), (λ e. h p (starts_with_refl p) (rw e)))

selected_not_current :
    (prefix key : Bytes)
    → canonical_namespace prefix ≢ []
    → namespace_selects (some prefix) key ≡ true
    → starts_with key (namespace prefix) ≡ false
unfolding namespace_selects key_is_excluded
selected_not_current prefix key ne h =
    rw (namespace-eq-canonical prefix ne)
      (ground (arith, rw (list_prefix-eq-canonical prefix ne) at h))

spares_by_relation :
    (current : DeploymentRequest) (previous : Bytes) (excluded : Option Bytes) (key : Bytes)
    (r : NamespaceRelation)
    → Classifies r (canonical_namespace previous) (canonical_namespace current.dest_bucket_prefix)
    → strategy_of current r ≡ some (delete_namespace excluded)
    → starts_with key (namespace previous) ≡ true
    → namespace_selects excluded key ≡ true
    → starts_with key (namespace current.dest_bucket_prefix) ≡ false
spares_by_relation current previous excluded key same c e k h = cc
spares_by_relation current previous excluded key current_contains_previous c e k h = cc
spares_by_relation current previous excluded key previous_contains_current c e k h =
    let x : some current.dest_bucket_prefix ≡ excluded = cc in
    selected_not_current current.dest_bucket_prefix key (Covers-nil _ _ c.0 c.1) (rw x h)
spares_by_relation current previous excluded key disjoint c e k h =
    let (np, nc) = Apart-nil _ _ c in
    elim (Bool-cases (starts_with key (namespace current.dest_bucket_prefix))) [
      | inr f ↦ f
      | inl f ↦ absurd (
          c key (rw (namespace-eq-canonical previous np) at k)
            (rw (namespace-eq-canonical current.dest_bucket_prefix nc) at f))
    ]

-- When an update cleans the namespace that it leaves, in the bucket that it deploys to, no key that
-- the cleanup lists and selects lies under the prefix that it deploys to.
pub cleanup_spares_current :
    (current : DeploymentRequest) (previous : PreviousDestination)
    (plan : DeletePreviousDestination) (excluded : Option Bytes) (key : Bytes)
    → plan_destination_change_cleanup current previous ≡ delete plan
    → plan.strategy ≡ delete_namespace excluded
    → plan.previous.bucket_name ≡ current.dest_bucket_name
    → starts_with key (namespace plan.previous.bucket_prefix) ≡ true
    → namespace_selects excluded key ≡ true
    → starts_with key (namespace current.dest_bucket_prefix) ≡ false
cleanup_spares_current current previous plan excluded key h s b k sel =
    let w = (plan_by_relation current previous plan).0 h in
    let same_bucket : previous.bucket_name ≡ current.dest_bucket_name =
      ap (λ (p : PreviousDestination). p.bucket_name) (sym w.2) ∙ b in
    let relation : destination_relation current previous
        ≡ namespace_relation previous.bucket_prefix current.dest_bucket_prefix =
      unfold destination_relation in rw same_bucket (rw (bytes_eq_refl current.dest_bucket_name)) in
    spares_by_relation current previous.bucket_prefix excluded key
      (namespace_relation previous.bucket_prefix current.dest_bucket_prefix)
      ((namespace_relation_iff _ previous.bucket_prefix current.dest_bucket_prefix).0 refl)
      (sym (ap (strategy_of current) relation) ∙ (w.1 ∙ ap some s)) (rw w.2 at k) sel
