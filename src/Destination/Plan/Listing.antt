-- ===== src/Destination/Plan/Listing.antt =====
-- The plan of the destination as a function of the whole listing, however it is cut into pages
-- (rust/src/s3/destination.rs).
use mathlib.Core.List.{append_assoc, append-nil}
use shin_bucket_deployment.Prelude.{
  ℕ, List, [], ◌∷◌, ◌++◌, Option, none, some, Bool, not, ◌&&◌, ◌≡◌, refl, ap, ◌∙◌, inl, inr, arith,
  Bytes, is_empty, if◌then◌else◌, u64_try_from, Bool-cases, length, ltb, leb, min, u64_max, ◌+◌,
  ◌⊎◌,
}
use shin_bucket_deployment.Namespace.{key_is_excluded}
use shin_bucket_deployment.Deployment.{
  DeploymentManifest, DeploymentRequest, Filters, contains_key, should_include,
}
use shin_bucket_deployment.Destination.Objects.{Objects, strip_destination_prefix}
use shin_bucket_deployment.Destination.Candidates.{
  DeletionCandidates, complete, overflow, default_candidates, retain, retained_keys, IsBounded,
  retain-IsBounded,
}
use shin_bucket_deployment.Destination.Plan.{
  ListedObject, PlanContext, DestinationPlan, and_then, retain_if, record_destination_object,
  previous_key_is_stale, plan_keyed, plan_object, plan_page, plan_pages, empty_plan,
  plan_destination, plan_context,
}

abbrev pub cons_key : Option Bytes → List Bytes → List Bytes
cons_key none keys = keys
cons_key (some key) keys = key ∷ keys

-- The keys of a page, and of all pages.
abbrev pub page_keys : List ListedObject → List Bytes
page_keys [] = []
page_keys (o ∷ page) = cons_key o.key (page_keys page)

abbrev pub listed_keys : List (List ListedObject) → List Bytes
listed_keys [] = []
listed_keys (page ∷ pages) = page_keys page ++ listed_keys pages

-- The elements that pass a test.
abbrev pub select {ℓ} : {A : Type ℓ} → (A → Bool) → List A → List A
select p [] = []
select p (x ∷ xs) = if p x then x ∷ select p xs else select p xs

pub select-append {ℓ} :
    {A : Type ℓ} (p : A → Bool) (xs ys : List A) → select p (xs ++ ys) ≡ select p xs ++ select p ys
select-append p [] ys = refl
select-append p (x ∷ xs) ys = elim (Bool-cases (p x)) [
  | inl e ↦ rw e (ap (λ t. x ∷ t) (select-append p xs ys))
  | inr e ↦ rw e (select-append p xs ys)
]

-- The test by which the first stale list is filled.
abbrev pub current_key_is_stale : PlanContext → Bytes → Bool
current_key_is_stale c key =
    not (is_empty (strip_destination_prefix c.strip_prefix key))
    && not (contains_key c.recording.manifest (strip_destination_prefix c.strip_prefix key))
    && (c.recording.detect_stale_candidates
        && not (key_is_excluded key c.recording.protected_namespace)
        && should_include c.recording.filters (strip_destination_prefix c.strip_prefix key))

-- The test by which the second is filled.
abbrev pub listed_key_is_previous : PlanContext → Bytes → Bool
listed_key_is_previous c key =
    previous_key_is_stale c key (strip_destination_prefix c.strip_prefix key)

-- Retaining one key after another.
pub retain_all : DeletionCandidates → List Bytes → DeletionCandidates
retain_all c [] = c
retain_all c (k ∷ ks) = retain_all (retain c k) ks

retain_all-append :
    (c : DeletionCandidates) (xs ys : List Bytes)
    → retain_all c (xs ++ ys) ≡ retain_all (retain_all c xs) ys
unfolding retain_all
retain_all-append c [] ys = refl
retain_all-append c (x ∷ xs) ys = retain_all-append (retain c x) xs ys

pub retain_all-overflow : (ks : List Bytes) → retain_all overflow ks ≡ overflow
unfolding retain_all retain
retain_all-overflow [] = refl
retain_all-overflow (k ∷ ks) = retain_all-overflow ks

retain-cases :
    (keys : List Bytes) (used : ℕ) (k : Bytes)
    → (retain (complete keys used) k ≡ overflow)
      ⊎ ((n : ℕ) × (retain (complete keys used) k ≡ complete (keys ++ k ∷ []) n))
unfolding retain
retain-cases keys used k = elim (Bool-cases (leb (used + min (length k + 24) u64_max) u64_max)) [
  | inr e ↦ inl (rw e)
  | inl e ↦ elim (Bool-cases (ltb 4194304 (used + min (length k + 24) u64_max))) [
    | inl f ↦ inl (rw e (rw f))
    | inr f ↦ inr (used + min (length k + 24) u64_max, rw e (rw f))
  ]
]

-- Candidates that did not overflow hold every key that they were given, in order.
pub retain_all_complete :
    (keys : List Bytes) (used : ℕ) (ks out : List Bytes)
    → retained_keys (retain_all (complete keys used) ks) ≡ some out
    → out ≡ keys ++ ks
unfolding retain_all retained_keys
retain_all_complete keys used [] out h = rw append-nil (cc)
retain_all_complete keys used (k ∷ ks) out h = elim (retain-cases keys used k) [
  | inl e ↦ absurd (cc (rw (e, retain_all-overflow ks) at h))
  | inr (n, e) ↦
      retain_all_complete (keys ++ k ∷ []) n ks out (rw e at h) ∙ append_assoc keys (k ∷ []) ks
]

module _ (c : PlanContext) where
  record_destination_object_stale :
      (key : Bytes) (etag : Option Bytes) (size : Option ℕ) (objects : Objects)
      → (record_destination_object key
          (strip_destination_prefix c.strip_prefix key)
          etag
          size
          c.recording
          objects).0
        ≡ current_key_is_stale c key
  unfolding record_destination_object
  record_destination_object_stale key etag size objects = ground arith

  retain_select :
      (p : Bytes → Bool) (d : DeletionCandidates) (key : Bytes) (keys : List Bytes)
      → retain_all (retain_if (p key) d key) (select p keys) ≡ retain_all d (select p (key ∷ keys))
  unfolding retain_all
  retain_select p d key keys = elim (Bool-cases (p key)) [ inl e ↦ rw e | inr e ↦ rw e ]

  keyed_current :
      (plan : DestinationPlan) (key etag : Option Bytes) (size : Option ℕ) (keys : List Bytes)
      → retain_all
          (plan_keyed c plan key etag size).current_stale
          (select (current_key_is_stale c) keys)
        ≡ retain_all plan.current_stale (select (current_key_is_stale c) (cons_key key keys))
  unfolding plan_keyed
  keyed_current plan none etag size keys = refl
  keyed_current plan (some key) etag size keys =
      rw (record_destination_object_stale key etag size plan.objects)
        (retain_select (current_key_is_stale c) plan.current_stale key keys)

  keyed_previous :
      (plan : DestinationPlan) (key etag : Option Bytes) (size : Option ℕ) (keys : List Bytes)
      → retain_all
          (plan_keyed c plan key etag size).previous_stale
          (select (listed_key_is_previous c) keys)
        ≡ retain_all plan.previous_stale (select (listed_key_is_previous c) (cons_key key keys))
  unfolding plan_keyed
  keyed_previous plan none etag size keys = refl
  keyed_previous plan (some key) etag size keys =
      retain_select (listed_key_is_previous c) plan.previous_stale key keys

  page_current :
      (plan : DestinationPlan) (page : List ListedObject)
      → (plan_page c plan page).current_stale
        ≡ retain_all plan.current_stale (select (current_key_is_stale c) (page_keys page))
  unfolding plan_page plan_object
  page_current plan [] = unfold retain_all in refl
  page_current plan (o ∷ page) =
      page_current (plan_object c plan o) page
      ∙ keyed_current plan o.key o.e_tag (and_then o.size u64_try_from) (page_keys page)

  page_previous :
      (plan : DestinationPlan) (page : List ListedObject)
      → (plan_page c plan page).previous_stale
        ≡ retain_all plan.previous_stale (select (listed_key_is_previous c) (page_keys page))
  unfolding plan_page plan_object
  page_previous plan [] = unfold retain_all in refl
  page_previous plan (o ∷ page) =
      page_previous (plan_object c plan o) page
      ∙ keyed_previous plan o.key o.e_tag (and_then o.size u64_try_from) (page_keys page)

  -- The first stale list is what retaining the stale keys of the whole listing gives.
  pub pages_current :
      (plan : DestinationPlan) (pages : List (List ListedObject))
      → (plan_pages c plan pages).current_stale
        ≡ retain_all plan.current_stale (select (current_key_is_stale c) (listed_keys pages))
  unfolding plan_pages
  pages_current plan [] = unfold retain_all in refl
  pages_current plan (page ∷ pages) =
      rw (select-append (current_key_is_stale c) (page_keys page) (listed_keys pages)) (
        rw retain_all-append
          (pages_current (plan_page c plan page) pages ∙ rw (page_current plan page)))

  -- So is the second, for the keys of the previous namespace.
  pub pages_previous :
      (plan : DestinationPlan) (pages : List (List ListedObject))
      → (plan_pages c plan pages).previous_stale
        ≡ retain_all plan.previous_stale (select (listed_key_is_previous c) (listed_keys pages))
  unfolding plan_pages
  pages_previous plan [] = unfold retain_all in refl
  pages_previous plan (page ∷ pages) =
      rw (select-append (listed_key_is_previous c) (page_keys page) (listed_keys pages)) (
        rw retain_all-append
          (pages_previous (plan_page c plan page) pages ∙ rw (page_previous plan page)))

retain_all-IsBounded :
    (c : DeletionCandidates) (ks : List Bytes) → IsBounded c → IsBounded (retain_all c ks)
unfolding retain_all
retain_all-IsBounded c [] h = h
retain_all-IsBounded c (k ∷ ks) h = retain_all-IsBounded (retain c k) ks (retain-IsBounded c k h)

-- For every listing, however it is paged, both stale lists either overflowed or hold keys whose
-- lengths plus 24 bytes each add up to the recorded count, which is at most 4 MiB.
pub plan_destination-IsBounded :
    (request : DeploymentRequest) (protected previous : Option Bytes) (filters : Filters)
    (manifest : DeploymentManifest) (pages : List (List ListedObject))
    → IsBounded (plan_destination request protected previous filters manifest pages).current_stale
      × IsBounded
          (plan_destination request protected previous filters manifest pages).previous_stale
unfolding plan_destination
plan_destination-IsBounded request protected previous filters manifest pages =
    let c = plan_context request protected previous filters manifest in
    (
      rw (pages_current c empty_plan pages) (
          retain_all-IsBounded default_candidates
            (select (current_key_is_stale c) (listed_keys pages)) (omega arith)),
      rw (pages_previous c empty_plan pages) (
          retain_all-IsBounded default_candidates
            (select (listed_key_is_previous c) (listed_keys pages)) (omega arith)),
    )
