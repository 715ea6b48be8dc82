-- ===== src/Planner/Manifest.antt =====
-- The manifest of rust/src/s3/planner.rs: the planned objects by key, and the plans of the archives'
-- entries that are taken from it.
use shin_bucket_deployment.Prelude.{
  ℕ, List, [], ◌∷◌, ◌++◌, map, Bool, true, false, ◌||◌, ◌&&◌, Bytes, bytes_eq, ltb, leb, ◌==◌,
  if◌then◌else◌, Option, none, some, sort,
}
use shin_bucket_deployment.Deployment.{DeploymentManifest, PlannedObject, copy_object, zip_entry}
use shin_bucket_deployment.Planner.{ZipEntryPlan}
use shin_bucket_deployment.Destination.Objects.{join_s3_key}

-- `a < b` on strings, byte by byte.
unfoldable pub bytes_ltb : Bytes → Bytes → Bool
bytes_ltb a [] = false
bytes_ltb [] (y ∷ b) = true
bytes_ltb (x ∷ a) (y ∷ b) = let rest = bytes_ltb a b in ltb x y || (x == y && rest)

-- `BTreeMap::insert`: in the order of the keys, in place of what had the same key.
unfoldable pub insert_manifest_object : DeploymentManifest → PlannedObject → DeploymentManifest
unfolding bytes_ltb
insert_manifest_object [] planned = (planned.relative_key, planned) ∷ []
insert_manifest_object (entry ∷ manifest) planned =
    let rest = insert_manifest_object manifest planned in
    if bytes_eq planned.relative_key entry.0
    then (planned.relative_key, planned) ∷ manifest
    else if bytes_ltb planned.relative_key entry.0
    then (planned.relative_key, planned) ∷ entry ∷ manifest
    else entry ∷ rest

-- The archive and the plan of an action on an archive's entry.
unfoldable pub plan_of_object : Bytes → PlannedObject → Option (ℕ × ZipEntryPlan)
unfolding join_s3_key
plan_of_object destination_prefix planned = elim planned.action [
  | copy_object source_index size ↦ none
  | zip_entry archive_index source_index size compressed_size compression_code crc32
        trusted_integrity source_offset source_span_end_exclusive ↦
      some (
        archive_index,
        record {
          source_index = source_index;
          relative_key = planned.relative_key;
          destination_key = join_s3_key destination_prefix planned.relative_key;
          size = size;
          compressed_size = compressed_size;
          compression_code = compression_code;
          crc32 = crc32;
          trusted_integrity = trusted_integrity;
          source_offset = source_offset;
          source_span_end_exclusive = source_span_end_exclusive;
        },
      )
]

-- The `BTreeMap` of plans, in the order of the archives.
abbrev pub Grouped : Type 0
Grouped = List (ℕ × List ZipEntryPlan)

-- `grouped.entry(archive).or_default().push(plan)`.
unfoldable pub push_grouped : ℕ → ZipEntryPlan → Grouped → Grouped
push_grouped archive plan [] = (archive, plan ∷ []) ∷ []
push_grouped archive plan (group ∷ grouped) =
    let rest = push_grouped archive plan grouped in
    if archive == group.0
    then (group.0, group.1 ++ plan ∷ []) ∷ grouped
    else if ltb archive group.0
    then (archive, plan ∷ []) ∷ group ∷ grouped
    else group ∷ rest

unfoldable pub push_object : Option (ℕ × ZipEntryPlan) → Grouped → Grouped
unfolding push_grouped
push_object none grouped = grouped
push_object (some plan) grouped = push_grouped plan.0 plan.1 grouped

unfoldable pub group_loop : Bytes → DeploymentManifest → Grouped → Grouped
unfolding plan_of_object push_object
group_loop destination_prefix [] grouped = grouped
group_loop destination_prefix (entry ∷ manifest) grouped =
    group_loop destination_prefix manifest
      (push_object (plan_of_object destination_prefix entry.1) grouped)

-- A stable sort by the offset in the archive.
unfoldable pub collect_zip_entry_plans : DeploymentManifest → Bytes → Grouped
unfolding group_loop
collect_zip_entry_plans manifest destination_prefix =
    map (λ group. (group.0, sort (λ a b. leb a.source_offset b.source_offset) group.1))
      (group_loop destination_prefix manifest [])

-- `grouped.get(archive)`, or no plans.
unfoldable pub group_of : ℕ → Grouped → List ZipEntryPlan
group_of archive [] = []
group_of archive (group ∷ grouped) =
    let rest = group_of archive grouped in if group.0 == archive then group.1 else rest
