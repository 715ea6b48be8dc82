-- ===== src/Destination/Cleanup/Exact.antt =====
-- Which listed keys stale cleanup may delete, by what ownership tags the bucket has (for the tests
-- of rust/src/s3/destination.rs taken one by one, with no regard to how candidates were kept).
use mathlib.Core.Path.{ap₂}
use shin_bucket_deployment.Prelude.{
  List, [], Option, none, some, Bool, true, false, not, ◌&&◌, ◌||◌, ◌≡◌, ◌⊎◌, refl, sym, ||_false,
  ◌∙◌, inl, inr, arith, Bytes, if◌then◌else◌, Bool-cases, In, ok,
}
use shin_bucket_deployment.Namespace.{
  BucketOwnerTags, has_competing_owner, namespace_list_prefix, or_empty,
}
use shin_bucket_deployment.Deployment.{DeploymentManifest, DeploymentRequest, Filters}
use shin_bucket_deployment.Destination.Candidates.{has_candidates}
use shin_bucket_deployment.Destination.Plan.{ListedObject, and_then, in_namespace, plan_destination}
use shin_bucket_deployment.Destination.Plan.Listing.{
  listed_keys, current_key_is_stale, listed_key_is_previous,
}
use shin_bucket_deployment.Destination.Cleanup.{
  unplanned_destination_key, unplanned_cleanup_key, Deletion, is_some, previous_authorized,
  delete_stale_objects,
}
use shin_bucket_deployment.Destination.Cleanup.Agreement.{
  Lister, Deletes, Removes, none_gathered, ctx, the_plan, cleanup_ctx, current_gathered,
  previous_gathered, current_test, previous_test, cleanup_key, deletions,
  delete_stale_objects_with_retry_exact,
}

-- A key that no planned object has, under the destination prefix.
abbrev pub unplanned :
    DeploymentRequest → Option Bytes → Option Filters → DeploymentManifest → Bytes → Bool
unplanned request protected filters manifest key =
    unplanned_destination_key key (or_empty (namespace_list_prefix request.dest_bucket_prefix))
      (and_then protected namespace_list_prefix) filters manifest

-- The request asks for stale deletion, no other owner overlaps the destination, and the key is
-- unplanned, outside the protected namespace, and selected by the filters.
abbrev pub current_allows :
    DeploymentRequest → Option Bytes → Filters → DeploymentManifest → BucketOwnerTags → Bytes → Bool
current_allows request protected filters manifest tags key =
    request.delete_stale_objects_on_deployment
    && not
        (has_competing_owner tags request.dest_bucket_prefix protected request.destination_owner_id)
    && unplanned request protected (some filters) manifest key

-- A previous prefix is to be cleaned, no other owner overlaps it, and the key is unplanned and in it.
abbrev pub previous_allows :
    DeploymentRequest → Option Bytes → DeploymentManifest → BucketOwnerTags → Bytes → Bool
previous_allows request none manifest tags key = false
previous_allows request (some prefix) manifest tags key =
    not (has_competing_owner tags prefix none request.destination_owner_id)
    && (in_namespace (namespace_list_prefix prefix) key && unplanned request none none manifest key)

abbrev pub leg : Bool → Bool → Bool → Bool
leg flag kept free = if flag && kept then free else false

leg_agrees :
    (flag kept free test u : Bool)
    → (kept ≡ false → test ≡ false)
    → test ≡ (flag && u)
    → (leg flag kept free && test) ≡ (flag && free && u)
leg_agrees flag kept free test u h e = ground arith

leg_sound :
    (flag kept free test u : Bool)
    → test ≡ (flag && u)
    → (leg flag kept free && test) ≡ true
    → (flag && free && u) ≡ true
leg_sound flag kept free test u e h = ground arith

or_true :
    (a b c d : Bool)
    → (a ≡ true → c ≡ true)
    → (b ≡ true → d ≡ true)
    → (a || b) ≡ true
    → (c || d) ≡ true
or_true true b c d f g h = rw (f refl) refl
or_true false b c d f g h = let e = g h in ground (arith, e)

module _ (request : DeploymentRequest) (protected : Option Bytes) (filters : Filters)
    (manifest : DeploymentManifest) (pages : List (List ListedObject))
    (tags : BucketOwnerTags) where
  abbrev pub kept_current : Option Bytes → Bool
  kept_current previous =
      has_candidates (the_plan request protected previous filters manifest pages).current_stale

  abbrev pub kept_previous : Option Bytes → Bool
  kept_previous previous =
      has_candidates (the_plan request protected previous filters manifest pages).previous_stale

  abbrev pub runs_current : Option Bytes → Bool
  runs_current previous = leg request.delete_stale_objects_on_deployment (kept_current previous) (
      not (
        has_competing_owner tags request.dest_bucket_prefix protected request.destination_owner_id))

  abbrev pub runs_previous : Option Bytes → Bool
  runs_previous previous =
      previous_authorized (is_some previous && kept_previous previous) previous tags
        request.destination_owner_id

  current_none :
      (previous : Option Bytes) (key : Bytes)
      → In key (listed_keys pages)
      → kept_current previous ≡ false
      → current_key_is_stale (ctx request protected previous filters manifest pages) key ≡ false
  current_none previous key m h =
      none_gathered (current_key_is_stale (ctx request protected previous filters manifest pages))
        (listed_keys pages) key
        (rw (current_gathered request protected previous filters manifest pages) at h) m

  previous_none :
      (previous : Option Bytes) (key : Bytes)
      → In key (listed_keys pages)
      → kept_previous previous ≡ false
      → listed_key_is_previous (ctx request protected previous filters manifest pages) key ≡ false
  previous_none previous key m h =
      none_gathered (listed_key_is_previous (ctx request protected previous filters manifest pages))
        (listed_keys pages) key
        (rw (previous_gathered request protected previous filters manifest pages) at h) m

  runs_current_agrees :
      (previous : Option Bytes) (key : Bytes)
      → In key (listed_keys pages)
      → (runs_current previous
          && current_key_is_stale (ctx request protected previous filters manifest pages) key)
        ≡ current_allows request protected filters manifest tags key
  runs_current_agrees previous key m =
      leg_agrees request.delete_stale_objects_on_deployment (kept_current previous) _
        (current_key_is_stale (ctx request protected previous filters manifest pages) key)
        (unplanned request protected (some filters) manifest key) (current_none previous key m)
        (current_test request protected previous filters manifest pages key)

  runs_previous_agrees :
      (previous : Option Bytes) (key : Bytes)
      → In key (listed_keys pages)
      → (runs_previous previous
          && listed_key_is_previous (ctx request protected previous filters manifest pages) key)
        ≡ previous_allows request previous manifest tags key
  runs_previous_agrees none key m = refl
  runs_previous_agrees (some prefix) key m =
      leg_agrees true (kept_previous (some prefix)) _
        (listed_key_is_previous (ctx request protected (some prefix) filters manifest pages) key) _
        (previous_none (some prefix) key m)
        (previous_test request protected (some prefix) filters manifest pages key)

  runs_current→flag :
      (previous : Option Bytes)
      → runs_current previous ≡ true
      → request.delete_stale_objects_on_deployment ≡ true
  runs_current→flag previous h = ground arith

  abbrev pub allowed : Option Bytes → Bytes → Bool
  allowed previous key =
      current_allows request protected filters manifest tags key
      || previous_allows request previous manifest tags key

  scan_agrees :
      (previous : Option Bytes) (key : Bytes)
      → In key (listed_keys pages)
      → unplanned_cleanup_key key (
          cleanup_ctx request protected previous filters manifest pages
            (runs_current previous)
            (runs_previous previous))
        ≡ allowed previous key
  scan_agrees previous key m =
      cleanup_key request protected previous filters manifest pages (runs_current previous)
        (runs_previous previous) key (runs_current→flag previous)
      ∙ ap₂ (λ (a b : Bool). a || b) (runs_current_agrees previous key m)
          (runs_previous_agrees previous key m)

  runs_current_sound :
      (previous : Option Bytes) (key : Bytes)
      → (runs_current previous
          && current_key_is_stale (ctx request protected previous filters manifest pages) key)
        ≡ true
      → current_allows request protected filters manifest tags key ≡ true
  runs_current_sound previous key h =
      leg_sound request.delete_stale_objects_on_deployment (kept_current previous) _
        (current_key_is_stale (ctx request protected previous filters manifest pages) key)
        (unplanned request protected (some filters) manifest key)
        (current_test request protected previous filters manifest pages key) h

  runs_previous_sound :
      (previous : Option Bytes) (key : Bytes)
      → (runs_previous previous
          && listed_key_is_previous (ctx request protected previous filters manifest pages) key)
        ≡ true
      → previous_allows request previous manifest tags key ≡ true
  runs_previous_sound none key h = cc
  runs_previous_sound (some prefix) key h =
      leg_sound true (kept_previous (some prefix)) _
        (listed_key_is_previous (ctx request protected (some prefix) filters manifest pages) key) _
        (previous_test request protected (some prefix) filters manifest pages key) h

  -- Whatever key the scan selects, in whichever listing, is allowed.
  scan_sound :
      (previous : Option Bytes) (key : Bytes)
      → unplanned_cleanup_key key (
          cleanup_ctx request protected previous filters manifest pages
            (runs_current previous)
            (runs_previous previous))
        ≡ true
      → allowed previous key ≡ true
  scan_sound previous key h =
      or_true _ _ (current_allows request protected filters manifest tags key)
        (previous_allows request previous manifest tags key)
        (λ e. runs_current_sound previous key e) (λ e. runs_previous_sound previous key e)
        (sym (
            cleanup_key request protected previous filters manifest pages (runs_current previous)
              (runs_previous previous) key (runs_current→flag previous))
          ∙ h)

  -- The deletions remove keys of the request's bucket alone, of the listing `seen` alone, and allowed
  -- ones alone; and every allowed key of that listing which the plan's listing had.
  abbrev pub Cleans : Option Bytes → List Deletion → Lister → List Bytes → Type 0
  Cleans previous ds later seen =
      (bucket key : Bytes)
      → (Deletes ds later bucket key
          → (bucket ≡ request.dest_bucket_name) × In key seen × (allowed previous key ≡ true))
        × ((bucket ≡ request.dest_bucket_name)
              × In key seen
              × In key (listed_keys pages)
              × (allowed previous key ≡ true)
            → Deletes ds later bucket key)

  -- Deleting nothing is right when neither leg runs.
  nothing_Cleans :
      (previous : Option Bytes) (later : Lister)
      → runs_current previous ≡ false
      → runs_previous previous ≡ false
      → Cleans previous [] later (listed_keys pages)
  nothing_Cleans previous later hc hp bucket key = (
    (λ d. absurd d),
    (λ (b, m, n, h).
        absurd (
          ground (arith, runs_current_agrees previous key n, runs_previous_agrees previous key n))),
  )

  Removes-Cleans :
      (previous : Option Bytes) (later : Lister) (seen : List Bytes)
      → Removes request protected previous filters manifest pages later
          (runs_current previous)
          (runs_previous previous)
          seen
      → Cleans previous
          (deletions request protected previous filters manifest pages
            (runs_current previous)
            (runs_previous previous))
          later
          seen
  Removes-Cleans previous later seen r bucket key =
      let (f, g) = r bucket key in
      (
        (λ d. let (b, m, h) = f d in (b, m, scan_sound previous key h)),
        (λ (b, m, n, h). g (b, m, scan_agrees previous key n ∙ h)),
      )

  quiet_previous :
      (previous : Option Bytes)
      → (is_some previous && kept_previous previous) ≡ false
      → runs_previous previous ≡ false
  quiet_previous none h = refl
  quiet_previous (some prefix) h = rw h

  -- Once the ownership tags are read, stale cleanup comes back with deletions. What they remove are
  -- keys of the request's bucket alone, allowed by the request, the manifest, the filters, the
  -- protected prefix and the tags, that one listing has: the one that the plan was made from, or the
  -- one that a later scan of that bucket under the request's prefix reads, whatever it holds by then.
  -- They remove every allowed key which that listing and the plan's listing have, for every paging.
  pub delete_stale_objects_exact {ℓ} :
      {E : Type ℓ} (previous : Option Bytes) (later : Lister)
      → (ds : List Deletion) × (delete_stale_objects {E = E} request protected previous filters
            manifest
            (plan_destination request protected previous filters manifest pages)
            (ok tags)
          ≡ ok ds)
        × (Cleans previous ds later (listed_keys pages)
            ⊎ Cleans previous ds later
                (later request.dest_bucket_name (namespace_list_prefix request.dest_bucket_prefix)))
  unfolding delete_stale_objects
  delete_stale_objects_exact previous later =
      elim (Bool-cases (
        (request.delete_stale_objects_on_deployment && kept_current previous)
        || (is_some previous && kept_previous previous))) [
          | inr e ↦
              let (hc, hp) =
                ||_false (request.delete_stale_objects_on_deployment && kept_current previous)
                  (is_some previous && kept_previous previous) e in
              ([], rw e, inl (nothing_Cleans previous later (rw hc) (quiet_previous previous hp)))
          | inl e ↦
              elim (Bool-cases (not (runs_current previous) && not (runs_previous previous))) [
                | inl f ↦ (
                  [],
                  rw e (rw f),
                  inl (nothing_Cleans previous later (ground arith) (ground arith)),
                )
                | inr f ↦ (
                  deletions request protected previous filters manifest pages
                      (runs_current previous) (runs_previous previous),
                  rw e (rw f),
                  elim (delete_stale_objects_with_retry_exact request protected previous filters
                      manifest pages later (runs_current previous) (runs_previous previous)
                      (runs_current→flag previous)) [
                        | inl r ↦ inl (Removes-Cleans previous later _ r)
                        | inr r ↦ inr (Removes-Cleans previous later _ r)
                      ],
                )
              ]
        ]
