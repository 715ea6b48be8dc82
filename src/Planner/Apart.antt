-- ===== src/Planner/Apart.antt =====
-- The plans of an archive whose directory was accepted have spans that are apart, so that planning
-- its blocks succeeds (rust/src/s3/planner.rs and rust/src/s3/archive/block_store.rs).
use mathlib.Core.Path.{subst}
use shin_bucket_deployment.Prelude.{
  ℕ, ◌≤◌, List, [], ◌∷◌, map, true, Bytes, Option, ◌≡◌, ◌≢◌, refl, sym, inl, inr, arith, leb, ◌==◌,
  sort, Pairwise, All, In, here, there, Pairwise-sort, ok, >>=-eq-ok, u64_max, max,
}
use shin_bucket_deployment.Deployment.{
  DeploymentManifest, ArchiveExpansionLimits, Filters, TrustedEntryIntegrity,
}
use shin_bucket_deployment.Destination.Objects.{join_s3_key}
use shin_bucket_deployment.Planner.{
  ZipEntryPlan, code_of, StoredZipEntry, source_span_end, validate_archive_directory,
  stored_zip_file_path,
}
use shin_bucket_deployment.Planner.Manifest.{plan_of_object, collect_zip_entry_plans, group_of}
use shin_bucket_deployment.Planner.Entries.{
  ArchiveContext, planned_entry, file_step, entry_loop, add_archive_entries_to_manifest,
}
use shin_bucket_deployment.Planner.Offsets.{IsCut, cut_apart, validate_archive_directory_unique}
use shin_bucket_deployment.Planner.Groups.{
  select, plans_of, All-insert_manifest_object, collect_zip_entry_plans-plans_of,
}
use shin_bucket_deployment.Blocks.{SourceBlockRange, plan_source_blocks}
use shin_bucket_deployment.Blocks.Order.{IsApart}
use shin_bucket_deployment.Blocks.Cut.{Laid, IsSmall, plan_source_blocks-succeeds}
use shin_bucket_deployment.Planner.Turn.{
  IsApart-symm, Pairwise-insert_manifest_object, inserted, file_step-cases,
}

-- What holds between two turns: the spans are cut at offsets that are not those of the entries to
-- come, and they are apart.
record IsReady (archive directory : ℕ) (prefix : Bytes) (offsets rest : List ℕ)
    (manifest : DeploymentManifest) : Type 0 where
  cut :
      All
        (λ p. IsCut offsets directory p.source_offset p.source_span_end_exclusive)
        (plans_of archive prefix manifest)
  fresh : All (λ p. All (λ o. p.source_offset ≢ o) rest) (plans_of archive prefix manifest)
  apart : Pairwise IsApart (plans_of archive prefix manifest)

abbrev new_plan : ArchiveContext → Bytes → StoredZipEntry → Bytes → ZipEntryPlan
new_plan context prefix entry key = record {
  source_index = context.source_index;
  relative_key = key;
  destination_key = join_s3_key prefix key;
  size = entry.uncompressed_size;
  compressed_size = entry.compressed_size;
  compression_code = code_of entry.compression;
  crc32 = entry.crc32;
  trusted_integrity = context.catalog key;
  source_offset = entry.header_offset;
  source_span_end_exclusive =
      source_span_end context.source_offsets context.central_directory_start entry.header_offset;
}

select-new_plan :
    (context : ArchiveContext) (prefix : Bytes) (entry : StoredZipEntry) (key : Bytes)
    (rest : List ZipEntryPlan)
    → select context.archive_index (plan_of_object prefix (planned_entry context entry key)) rest
      ≡ new_plan context prefix entry key ∷ rest
unfolding plan_of_object planned_entry
select-new_plan context prefix entry key rest =
    let e : (context.archive_index == context.archive_index) ≡ true = ground arith in rw e refl

-- The entry's offset is not among those to come, and its span is apart from the earlier ones.
skip_first :
    (archive : ℕ) (prefix : Bytes) (o : ℕ) (rest : List ℕ) (ps : List ZipEntryPlan)
    → All (λ p. All (λ o. p.source_offset ≢ o) (o ∷ rest)) ps
    → All (λ p. p.source_offset ≢ o) ps × All (λ p. All (λ o. p.source_offset ≢ o) rest) ps
skip_first a prefix o rest [] h = (tt, tt)
skip_first a prefix o rest (p ∷ ps) h =
    let i = skip_first a prefix o rest ps h.1 in ((h.0.0, i.0), (h.0.1, i.1))

IsApart-from :
    (offsets : List ℕ) (directory : ℕ) (n : ZipEntryPlan) (ps : List ZipEntryPlan)
    → IsCut offsets directory n.source_offset n.source_span_end_exclusive
    → All (λ p. IsCut offsets directory p.source_offset p.source_span_end_exclusive) ps
    → All (λ p. p.source_offset ≢ n.source_offset) ps
    → All (IsApart n) ps
IsApart-from offsets d n [] c h k = tt
IsApart-from offsets d n (p ∷ ps) c h k = (
  cut_apart offsets d n.source_offset n.source_span_end_exclusive p.source_offset
      p.source_span_end_exclusive c h.0 (λ e. k.0 (sym e)),
  IsApart-from offsets d n ps c h.1 k.1,
)

module _ (context : ArchiveContext) (prefix : Bytes) (offsets : List ℕ)
    (sorted : context.source_offsets ≡ sort leb offsets) where
  abbrev Ready : List ℕ → DeploymentManifest → Type 0
  Ready = IsReady context.archive_index context.central_directory_start prefix offsets

  inserted-IsReady :
      (entry : StoredZipEntry) (key : Bytes) (rest : List ℕ) (m : DeploymentManifest)
      → In entry.header_offset offsets
      → All (λ o. entry.header_offset ≢ o) rest
      → Ready (entry.header_offset ∷ rest) m
      → Ready rest (inserted context entry key m)
  inserted-IsReady entry key rest m i d r =
      let n = new_plan context prefix entry key in
      let s = select-new_plan context prefix entry key in
      let a = context.archive_index in
      let c : IsCut offsets context.central_directory_start n.source_offset
          n.source_span_end_exclusive =
        (i, rw sorted refl) in
      let (f, g) = skip_first a prefix entry.header_offset rest _ r.fresh in
      record {
        cut = All-insert_manifest_object _ a prefix m _ (rw (s []) (c, tt)) r.cut;
        fresh = All-insert_manifest_object _ a prefix m _ (rw (s []) (d, tt)) g;
        apart =
            Pairwise-insert_manifest_object a prefix m _ n s
              (IsApart-from offsets context.central_directory_start n _ c r.cut f) r.apart;
      }

  entry_loop-IsApart :
      (entries : List StoredZipEntry) (state : List Bytes × DeploymentManifest)
      {last : List Bytes × DeploymentManifest}
      → All (λ o. In o offsets) (map (λ entry. entry.header_offset) entries)
      → Pairwise (λ a b. a ≢ b) (map (λ entry. entry.header_offset) entries)
      → Ready (map (λ entry. entry.header_offset) entries) state.1
      → entry_loop context entries state ≡ ok last
      → Pairwise IsApart (plans_of context.archive_index prefix last.1)
  unfolding entry_loop
  entry_loop-IsApart [] state {last = last} i d r h =
      let e : state ≡ last = cc in
      subst (λ x. Pairwise IsApart (plans_of context.archive_index prefix x.1)) e r.apart
  entry_loop-IsApart (entry ∷ entries) state {last = last} i d r h =
      let rest = map (λ entry. entry.header_offset) entries in
      let (path, _, h1) = >>=-eq-ok (stored_zip_file_path entry) _ h in
      let (next, g, h2) = >>=-eq-ok (file_step context entry state path) _ h1 in
      entry_loop-IsApart entries next {last = last} i.1 d.1
        (elim (file_step-cases context entry state path {next = next} g) [
          | inl e ↦
              let (_, f) =
                skip_first context.archive_index prefix entry.header_offset rest _ r.fresh in
              subst (Ready rest) e (record { cut = r.cut; fresh = f; apart = r.apart })
          | inr (key, e) ↦ subst (Ready rest) e (inserted-IsReady entry key rest state.1 i.0 d.0 r)
        ])
        h2

In-cons : (x : ℕ) (xs ys : List ℕ) → All (λ o. In o ys) xs → All (λ o. In o (x ∷ ys)) xs
In-cons x [] ys h = tt
In-cons x (y ∷ xs) ys h = (there h.0, In-cons x xs ys h.1)

All-In : (xs : List ℕ) → All (λ o. In o xs) xs
All-In [] = tt
All-In (x ∷ xs) = (here refl, In-cons x xs xs (All-In xs))

no_plans_IsReady :
    (archive directory : ℕ) (prefix : Bytes) (offsets rest : List ℕ) (m : DeploymentManifest)
    → plans_of archive prefix m ≡ []
    → IsReady archive directory prefix offsets rest m
no_plans_IsReady archive directory prefix offsets rest m e = record {
  cut = rw e tt;
  fresh = rw e tt;
  apart = rw e tt;
}

-- If the entries of an archive, of which the manifest had none, are added to the manifest, then the
-- archive's plans, as they are collected from the new manifest, can be cut into blocks: planning
-- the blocks succeeds for every block size and merge gap, with blocks in order, without overlap and
-- within the source, provided that the source's length fits in 64 bits.
pub archive_blocks_planned :
    (archive_index source_index source_len central_directory_start : ℕ)
    (limits : ArchiveExpansionLimits) (filters : Filters)
    (catalog : Bytes → Option TrustedEntryIntegrity) (entries : List StoredZipEntry)
    (before after : DeploymentManifest) (prefix : Bytes) (block_bytes merge_gap_bytes : ℕ)
    → source_len ≤ u64_max
    → plans_of archive_index prefix before ≡ []
    → add_archive_entries_to_manifest archive_index source_index source_len central_directory_start
        limits filters catalog entries before
      ≡ ok after
    → (blocks : List SourceBlockRange) × (plan_source_blocks source_len
          (group_of archive_index (collect_zip_entry_plans after prefix))
          block_bytes
          merge_gap_bytes
        ≡ ok blocks)
      × Laid 0 blocks
      × All (IsSmall (max block_bytes 1) source_len) blocks
unfolding add_archive_entries_to_manifest
archive_blocks_planned archive source l directory limits filters catalog entries before after prefix
      bytes gap m none_before h =
    let offsets = map (λ entry. entry.header_offset) entries in
    let (sorted, a, h1) = >>=-eq-ok (validate_archive_directory entries l directory) _ h in
    let context : ArchiveContext = record {
      archive_index = archive;
      source_index = source;
      source_len = l;
      central_directory_start = directory;
      source_offsets = sorted;
      limits = limits;
      filters = filters;
      catalog = catalog;
    } in
    let (last, b, h2) = >>=-eq-ok (entry_loop context entries ([], before)) _ h1 in
    let (e, _, distinct) = validate_archive_directory_unique entries l directory a in
    let apart =
      entry_loop-IsApart context prefix offsets e entries ([], before) {last = last}
        (All-In offsets) distinct
        (no_plans_IsReady archive directory prefix offsets offsets before none_before) b in
    let c : last.1 ≡ after = cc in
    let p = subst (λ x. Pairwise IsApart (plans_of archive prefix x)) c apart in
    plan_source_blocks-succeeds l (group_of archive (collect_zip_entry_plans after prefix)) bytes
      gap m
      (rw (collect_zip_entry_plans-plans_of archive prefix after)
        (Pairwise-sort _ IsApart IsApart-symm _ p))
