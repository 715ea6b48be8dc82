-- ===== src/Destination/Cleanup/Agreement.antt =====
-- What the two ways of stale cleanup delete, by retained keys and by a scan, against the tests on
-- each listed key (rust/src/s3/destination.rs).
use shin_bucket_deployment.Prelude.{
  List, [], ◌∷◌, Option, none, some, Bool, true, false, ◌&&◌, ◌||◌, ◌≡◌, ◌↔◌, ◌⊎◌, refl, sym, ◌∙◌,
  inl, inr, arith, Bytes, Bool-cases, Option-cases, In, here, there,
}
use shin_bucket_deployment.Namespace.{key_is_excluded, namespace_list_prefix, or_empty}
use shin_bucket_deployment.Deployment.{DeploymentManifest, DeploymentRequest, Filters}
use shin_bucket_deployment.Destination.Candidates.{
  DeletionCandidates, complete, overflow, default_candidates, retained_keys, has_candidates,
}
use shin_bucket_deployment.Destination.Plan.{
  ListedObject, PlanContext, DestinationPlan, and_then, in_namespace, previous_key_is_stale,
  empty_plan, plan_destination, plan_context,
}
use shin_bucket_deployment.Destination.Plan.Listing.{
  listed_keys, select, retain_all, retain_all_complete, current_key_is_stale,
  listed_key_is_previous, pages_current, pages_previous,
}
use shin_bucket_deployment.Destination.Cleanup.{
  unplanned_destination_key, UnplannedDeletionContext, unplanned_cleanup_key, Deletion, delete_keys,
  delete_unplanned, cleanup_context, delete_stale_objects_with_retry,
}

-- The keys that a bucket lists under a prefix, when a scan asks for them.
abbrev pub Lister : Type 0
Lister = Bytes → Option Bytes → List Bytes

-- That one of the deletions removes a key of a bucket: a retained key, or one that the scan of a
-- bucket under a prefix lists and selects.
abbrev pub Deletes : List Deletion → Lister → Bytes → Bytes → Type 0
Deletes [] later bucket key = ⊥
Deletes (delete_keys from keys ∷ ds) later bucket key =
    ((bucket ≡ from) × In key keys) ⊎ Deletes ds later bucket key
Deletes (delete_unplanned context ∷ ds) later bucket key =
    ((bucket ≡ context.bucket)
      × In key (later context.bucket context.list_prefix)
      × (unplanned_cleanup_key key context ≡ true))
    ⊎ Deletes ds later bucket key

In-select {ℓ} :
    {A : Type ℓ} (p : A → Bool) (xs : List A) {x : A} → In x xs → p x ≡ true → In x (select p xs)
In-select p [] m h = elim m [ ]
In-select p (y ∷ xs) (here e) h = rw (rw e at h) (here e)
In-select p (y ∷ xs) (there m) h = elim (Bool-cases (p y)) [
  | inl e ↦ rw e (there (In-select p xs m h))
  | inr e ↦ rw e (In-select p xs m h)
]

select-In_first {ℓ} :
    {A : Type ℓ} (p : A → Bool) (y : A) (xs : List A) {x : A}
    → p y ≡ true
    → (In x (select p xs) → In x xs × (p x ≡ true))
    → In x (y ∷ select p xs)
    → In x (y ∷ xs) × (p x ≡ true)
select-In_first p y xs e rest (here f) = (here f, rw f e)
select-In_first p y xs e rest (there m) = let (n, h) = rest m in (there n, h)

select-In {ℓ} :
    {A : Type ℓ} (p : A → Bool) (xs : List A) {x : A} → In x (select p xs) → In x xs × (p x ≡ true)
select-In p [] m = elim m [ ]
select-In p (y ∷ xs) {x} m = elim (Bool-cases (p y)) [
  | inl e ↦ select-In_first p y xs e (select-In p xs {x = x}) (rw e at m)
  | inr e ↦ let (n, h) = select-In p xs {x = x} (rw e at m) in (there n, h)
]

-- The candidates that retaining a list from the start gives.
abbrev pub gathered : List Bytes → DeletionCandidates
gathered ks = retain_all default_candidates ks

gathered_keys : (ks out : List Bytes) → retained_keys (gathered ks) ≡ some out → out ≡ ks
gathered_keys ks out h = retain_all_complete [] 0 ks out h

has_candidates→keys :
    (d : DeletionCandidates) → has_candidates d ≡ false → retained_keys d ≡ some []
unfolding has_candidates retained_keys
has_candidates→keys (complete [] used) h = refl
has_candidates→keys (complete (k ∷ ks) used) h = absurd (ground arith)
has_candidates→keys overflow h = absurd (ground arith)

-- With no candidates no listed key passes the test that filled them.
pub none_gathered :
    (p : Bytes → Bool) (listing : List Bytes) (key : Bytes)
    → has_candidates (gathered (select p listing)) ≡ false
    → In key listing
    → p key ≡ false
none_gathered p listing key h m = elim (Bool-cases (p key)) [
  | inr e ↦ e
  | inl e ↦
      let empty = gathered_keys (select p listing) [] (has_candidates→keys _ h) in
      elim (rw (← empty) at (In-select p listing m e)) [ ]
]

-- A leg that was kept deletes, by its keys, the listed keys that pass its test.
leg_keys-In :
    (p : Bytes → Bool) (listing keys : List Bytes) (key : Bytes)
    → retained_keys (gathered (select p listing)) ≡ some keys
    → In key keys ↔ (In key listing × (p key ≡ true))
leg_keys-In p listing keys key h =
    rw (gathered_keys (select p listing) keys h)
      ((λ m. select-In p listing m), (λ w. In-select p listing w.0 w.1))

module _ (request : DeploymentRequest) (protected previous : Option Bytes) (filters : Filters)
    (manifest : DeploymentManifest) (pages : List (List ListedObject)) where
  abbrev pub ctx : PlanContext
  ctx = plan_context request protected previous filters manifest

  abbrev pub the_plan : DestinationPlan
  the_plan = plan_destination request protected previous filters manifest pages

  abbrev pub cleanup_ctx : Bool → Bool → UnplannedDeletionContext
  cleanup_ctx a b = cleanup_context request protected previous a b filters manifest

  pub current_gathered :
      the_plan.current_stale ≡ gathered (select (current_key_is_stale ctx) (listed_keys pages))
  unfolding plan_destination
  current_gathered = pages_current ctx empty_plan pages

  pub previous_gathered :
      the_plan.previous_stale ≡ gathered (select (listed_key_is_previous ctx) (listed_keys pages))
  unfolding plan_destination
  previous_gathered = pages_previous ctx empty_plan pages

  pub current_test :
      (key : Bytes)
      → current_key_is_stale ctx key ≡ (
          request.delete_stale_objects_on_deployment
          && unplanned_destination_key key
              (or_empty (namespace_list_prefix request.dest_bucket_prefix))
              (and_then protected namespace_list_prefix)
              (some filters)
              manifest)
  unfolding plan_context unplanned_destination_key
  current_test key = ground arith

  pub previous_test :
      (key : Bytes)
      → listed_key_is_previous ctx key ≡ (
          in_namespace (and_then previous namespace_list_prefix) key
          && unplanned_destination_key key
              (or_empty (namespace_list_prefix request.dest_bucket_prefix))
              none
              none
              manifest)
  unfolding plan_context unplanned_destination_key previous_key_is_stale key_is_excluded
  previous_test key = ground arith

  pub cleanup_key :
      (a b : Bool) (key : Bytes)
      → (a ≡ true → request.delete_stale_objects_on_deployment ≡ true)
      → unplanned_cleanup_key key (cleanup_ctx a b)
        ≡ ((a && current_key_is_stale ctx key) || (b && listed_key_is_previous ctx key))
  unfolding unplanned_cleanup_key cleanup_context
  cleanup_key true true key h = ground (arith, current_test key, previous_test key, h refl)
  cleanup_key true false key h = ground (arith, current_test key, h refl)
  cleanup_key false true key h = ground (arith, previous_test key)
  cleanup_key false false key h = refl

  -- The keys that the request's bucket lists under its prefix.
  abbrev pub rescanned : Lister → List Bytes
  rescanned later =
      later request.dest_bucket_name (namespace_list_prefix request.dest_bucket_prefix)

  -- A listed key of the request's bucket that the scan's predicate selects.
  abbrev pub Selected : List Bytes → Bool → Bool → Bytes → Bytes → Type 0
  Selected seen a b bucket key =
      (bucket ≡ request.dest_bucket_name)
      × In key seen
      × (unplanned_cleanup_key key (cleanup_ctx a b) ≡ true)

  scan_Deletes :
      (later : Lister) (a b : Bool) (bucket key : Bytes)
      → Deletes (delete_unplanned (cleanup_ctx a b) ∷ []) later bucket key
        ↔ Selected (rescanned later) a b bucket key
  unfolding cleanup_context
  scan_Deletes later a b bucket key = ((λ d. elim d [ inl w ↦ w | inr f ↦ absurd f ]), (λ w. inl w))

  leg_current :
      (keys : List Bytes) (key : Bytes)
      → retained_keys the_plan.current_stale ≡ some keys
      → In key keys ↔ (In key (listed_keys pages) × (current_key_is_stale ctx key ≡ true))
  leg_current keys key h =
      leg_keys-In (current_key_is_stale ctx) (listed_keys pages) keys key (rw current_gathered at h)

  leg_previous :
      (keys : List Bytes) (key : Bytes)
      → retained_keys the_plan.previous_stale ≡ some keys
      → In key keys ↔ (In key (listed_keys pages) × (listed_key_is_previous ctx key ≡ true))
  leg_previous keys key h =
      leg_keys-In (listed_key_is_previous ctx) (listed_keys pages) keys key
        (rw previous_gathered at h)

  -- One leg by its keys, or the other, or both.
  one_leg :
      (keys : List Bytes) (bucket key : Bytes) (p q : Bool)
      → In key keys ↔ (In key (listed_keys pages) × (p ≡ true))
      → q ≡ p
      → (((bucket ≡ request.dest_bucket_name) × In key keys) ⊎ ⊥)
        ↔ ((bucket ≡ request.dest_bucket_name) × In key (listed_keys pages) × (q ≡ true))
  one_leg keys bucket key p q e s = (
    (λ d. elim d [ inl (b, m) ↦ (b, (e.0 m).0, s ∙ (e.0 m).1) | inr f ↦ absurd f ]),
    (λ (b, m, h). inl (b, e.1 (m, sym s ∙ h))),
  )

  or_cases : (p q : Bool) → (p || q) ≡ true → (p ≡ true) ⊎ (q ≡ true)
  or_cases true q h = inl refl
  or_cases false q h = inr h

  two_legs :
      (xs ys : List Bytes) (bucket key : Bytes) (p q r : Bool)
      → In key xs ↔ (In key (listed_keys pages) × (p ≡ true))
      → In key ys ↔ (In key (listed_keys pages) × (q ≡ true))
      → r ≡ (p || q)
      → (((bucket ≡ request.dest_bucket_name) × In key xs)
          ⊎ (((bucket ≡ request.dest_bucket_name) × In key ys) ⊎ ⊥))
        ↔ ((bucket ≡ request.dest_bucket_name) × In key (listed_keys pages) × (r ≡ true))
  two_legs xs ys bucket key p q r e f s = (
    (λ d. elim d [
      | inl (b, m) ↦ (b, (e.0 m).0, ground (arith, (e.0 m).1))
      | inr (inl (b, m)) ↦ (b, (f.0 m).0, ground (arith, (f.0 m).1))
      | inr (inr z) ↦ absurd z
    ]),
    (λ (b, m, h). elim (or_cases p q (sym s ∙ h)) [
      | inl i ↦ inl (b, e.1 (m, i))
      | inr i ↦ inr (inl (b, f.1 (m, i)))
    ]),
  )

  abbrev pub deletions : Bool → Bool → List Deletion
  deletions a b =
      delete_stale_objects_with_retry request protected previous a b filters manifest the_plan

  -- The deletions remove what is selected of a listing: of the one that the plan was made from, or of
  -- the one that a scan reads later.
  abbrev pub Removes : Lister → Bool → Bool → List Bytes → Type 0
  Removes later a b seen =
      (bucket key : Bytes) → Deletes (deletions a b) later bucket key ↔ Selected seen a b bucket key

  pub delete_stale_objects_with_retry_exact :
      (later : Lister) (a b : Bool)
      → (a ≡ true → request.delete_stale_objects_on_deployment ≡ true)
      → Removes later a b (listed_keys pages) ⊎ Removes later a b (rescanned later)
  unfolding delete_stale_objects_with_retry cleanup_context
  delete_stale_objects_with_retry_exact later false false h = inl (λ bucket key. (
    (λ d. absurd d),
    (λ w. let n = cleanup_key false false key h in let z = w.2 in absurd (ground (arith, n, z))),
  ))
  delete_stale_objects_with_retry_exact later true false h =
      elim (Option-cases (retained_keys the_plan.current_stale)) [
        | inl e ↦ inr (λ bucket key. rw e (scan_Deletes later true false bucket key))
        | inr (ks, e) ↦ inl (λ bucket key. rw e (
            one_leg ks bucket key (current_key_is_stale ctx key) _ (leg_current ks key e)
              (cleanup_key true false key h ∙ ground arith)))
      ]
  delete_stale_objects_with_retry_exact later false true h =
      elim (Option-cases (retained_keys the_plan.previous_stale)) [
        | inl e ↦ inr (λ bucket key. rw e (scan_Deletes later false true bucket key))
        | inr (ks, e) ↦ inl (λ bucket key. rw e (
            one_leg ks bucket key (listed_key_is_previous ctx key) _ (leg_previous ks key e)
              (cleanup_key false true key h)))
      ]
  delete_stale_objects_with_retry_exact later true true h =
      elim (Option-cases (retained_keys the_plan.current_stale)) [
        | inl e ↦ inr (λ bucket key. rw e (scan_Deletes later true true bucket key))
        | inr (xs, e) ↦ elim (Option-cases (retained_keys the_plan.previous_stale)) [
          | inl f ↦ inr (λ bucket key. rw e (rw f (scan_Deletes later true true bucket key)))
          | inr (ys, f) ↦ inl (λ bucket key. rw e (
              rw f (
                two_legs xs ys bucket key (current_key_is_stale ctx key)
                  (listed_key_is_previous ctx key) _ (leg_current xs key e) (leg_previous ys key f)
                  (cleanup_key true true key h))))
        ]
      ]
