-- ===== src/Planner/Turn.antt =====
-- What inserting a planned object and one turn of the loop over the entries do to the plans of an
-- archive (rust/src/s3/planner.rs).
use shin_bucket_deployment.Prelude.{
  ℕ, List, [], ◌∷◌, not, any, Bytes, bytes_eq, Option, none, some, ◌≡◌, ◌⊎◌, refl, inl, inr,
  Bool-cases, leb, ◌==◌, if◌then◌else◌, Pairwise, All, ok, ◌>>◌, >>=-eq-ok, ensure,
}
use shin_bucket_deployment.Deployment.{DeploymentManifest, PlannedObject, should_include}
use shin_bucket_deployment.Planner.{
  ZipEntryPlan, duplicate_path, StoredZipEntry, source_span_end, is_reserved_catalog_path,
  validate_stored_file_entry,
}
use shin_bucket_deployment.Planner.Manifest.{bytes_ltb, insert_manifest_object, plan_of_object}
use shin_bucket_deployment.Planner.Entries.{
  ArchiveContext, planned_entry, add_included, add_file, file_step,
}
use shin_bucket_deployment.Planner.Groups.{select, plans_of, All-insert_manifest_object}
use shin_bucket_deployment.Blocks.Order.{IsApart}

pub IsApart-symm : (a b : ZipEntryPlan) → IsApart a b → IsApart b a
IsApart-symm a b (inl h) = inr h
IsApart-symm a b (inr h) = inl h

-- A selection takes the plan or leaves it.
select-cases :
    (archive : ℕ) (o : Option (ℕ × ZipEntryPlan))
    → ((rest : List ZipEntryPlan) → select archive o rest ≡ rest)
      ⊎ ((p : ZipEntryPlan) × ((rest : List ZipEntryPlan) → select archive o rest ≡ p ∷ rest))
select-cases a none = inl (λ rest. refl)
select-cases a (some p) = elim (Bool-cases (p.0 == a)) [
  | inl e ↦ inr (p.1, λ rest. rw e refl)
  | inr e ↦ inl (λ rest. rw e refl)
]

module _ (archive : ℕ) (prefix : Bytes) where
  abbrev plans : DeploymentManifest → List ZipEntryPlan
  plans = plans_of archive prefix

  pub Pairwise-insert_manifest_object :
      (manifest : DeploymentManifest) (planned : PlannedObject) (n : ZipEntryPlan)
      → ((rest : List ZipEntryPlan)
          → select archive (plan_of_object prefix planned) rest ≡ n ∷ rest)
      → All (IsApart n) (plans manifest)
      → Pairwise IsApart (plans manifest)
      → Pairwise IsApart (plans (insert_manifest_object manifest planned))
  unfolding insert_manifest_object
  Pairwise-insert_manifest_object [] planned n s h k = rw (s []) (tt, tt)
  Pairwise-insert_manifest_object (x ∷ m) planned n s h k =
      elim (select-cases archive (plan_of_object prefix x.1)) [
        | inl q ↦
            let h' : All (IsApart n) (plans m) = rw (q (plans m)) at h in
            let k' : Pairwise IsApart (plans m) = rw (q (plans m)) at k in
            elim (Bool-cases (bytes_eq planned.relative_key x.0)) [
              | inl e ↦ rw (e, s (plans m)) (h', k')
              | inr e ↦ elim (Bool-cases (bytes_ltb planned.relative_key x.0)) [
                | inl f ↦ rw (e, f, s (plans (x ∷ m))) (h, k)
                | inr f ↦
                    rw (e, f, q (plans (insert_manifest_object m planned)))
                      (Pairwise-insert_manifest_object m planned n s h' k')
              ]
            ]
        | inr (p, q) ↦
            let h' : IsApart n p × All (IsApart n) (plans m) = rw (q (plans m)) at h in
            let k' : All (IsApart p) (plans m) × Pairwise IsApart (plans m) =
              rw (q (plans m)) at k in
            elim (Bool-cases (bytes_eq planned.relative_key x.0)) [
              | inl e ↦ rw (e, s (plans m)) (h'.1, k'.1)
              | inr e ↦ elim (Bool-cases (bytes_ltb planned.relative_key x.0)) [
                | inl f ↦ rw (e, f, s (plans (x ∷ m))) (h, k)
                | inr f ↦
                    rw (e, f, q (plans (insert_manifest_object m planned)))
                      (
                        All-insert_manifest_object (IsApart p) archive prefix m planned
                            (rw (s []) (IsApart-symm n p h'.0, tt)) k'.0,
                        Pairwise-insert_manifest_object m planned n s h'.1 k'.1,
                      )
              ]
            ]
      ]

module _ (context : ArchiveContext) (entry : StoredZipEntry) (key : Bytes)
    (m : DeploymentManifest) where
  abbrev pub inserted : DeploymentManifest
  inserted = insert_manifest_object m (planned_entry context entry key)

  abbrev span_end : ℕ
  span_end =
      source_span_end context.source_offsets context.central_directory_start entry.header_offset

  add_included-inserted :
      {a : DeploymentManifest} → add_included context entry key m ≡ ok a → inserted ≡ a
  unfolding add_included
  add_included-inserted h = elim (Bool-cases (leb context.source_len entry.header_offset)) [
    | inl e ↦ let z = rw e at h in cc
    | inr e ↦ elim (Bool-cases (leb span_end entry.header_offset)) [
      | inl f ↦ let z = rw (e, f) at h in cc
      | inr f ↦ let z = rw (e, f) at h in cc
    ]
  ]

  add_file-inserted :
      (seen : List Bytes) {a : DeploymentManifest}
      → add_file context entry key seen m ≡ ok a
      → (m ≡ a) ⊎ (inserted ≡ a)
  unfolding add_file
  add_file-inserted seen {a = a} h =
      let (_, _, g) =
        >>=-eq-ok
          (ensure (not (any (λ path. bytes_eq path key) seen)) duplicate_path
            >> validate_stored_file_entry entry context.limits)
          (λ _.
            if should_include context.filters key then add_included context entry key m else ok m)
          h in
      elim (Bool-cases (should_include context.filters key)) [
        | inl e ↦ inr (add_included-inserted (rw e at g))
        | inr e ↦ let z : ok m ≡ ok a = rw e at g in inl cc
      ]

-- A turn of the loop leaves the manifest, or inserts the plan of its entry.
pub file_step-cases :
    (context : ArchiveContext) (entry : StoredZipEntry) (state : List Bytes × DeploymentManifest)
    (path : Option Bytes) {next : List Bytes × DeploymentManifest}
    → file_step context entry state path ≡ ok next
    → (state.1 ≡ next.1) ⊎ ((key : Bytes) × (inserted context entry key state.1 ≡ next.1))
unfolding file_step
file_step-cases context entry (seen, m) none h = inl cc
file_step-cases context entry (seen, m) (some key) {next = next} h =
    elim (Bool-cases (is_reserved_catalog_path key)) [
      | inl e ↦ let z : ok (seen, m) ≡ ok next = rw e at h in inl cc
      | inr e ↦
          let (a, f, g) = >>=-eq-ok (add_file context entry key seen m) _ (rw e at h) in
          elim (add_file-inserted context entry key m seen f) [
            | inl i ↦ inl cc
            | inr i ↦ inr (key, cc)
          ]
    ]
