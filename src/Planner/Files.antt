-- ===== src/Planner/Files.antt =====
-- What the loops over a catalog's and an archive's entries collect (rust/src/s3/planner.rs).
use mathlib.Core.Path.{subst}
use shin_bucket_deployment.Prelude.{
  here, bytes_eq→eq, ap, ℕ, List, [], ◌∷◌, true, false, not, Option, none, some, Bytes, bytes_eq,
  ◌≡◌, refl, ◌⊎◌, inl, inr, Bool-cases, In, there, Result, ok, err, >>=-eq-ok, ensure, ensure-eq-ok,
}
use shin_bucket_deployment.Deployment.{ArchiveExpansionLimits, TrustedEntryIntegrity}
use shin_bucket_deployment.ArchiveKey.{normalize_archive_key}
use shin_bucket_deployment.Planner.{
  StoredZipEntry, PlanError, stored_zip_file_path, is_reserved_catalog_path,
  validate_stored_file_entry, as_path,
}
use shin_bucket_deployment.Planner.Catalog.{
  EmbeddedCatalogEntry, as_entry, is_lowercase_md5, lookup, absent, catalog_loop, add_zip_file,
  zip_file_loop, non_canonical_path, reserved_path, malformed_md5, duplicate_entry, duplicate_file,
}
use shin_bucket_deployment.Planner.Distinct.{Distinct}

absent-none : {V : Type 0} (o : Option V) → absent o ≡ true → o ≡ none
absent-none none h = refl
absent-none (some v) h = cc

pub as_entry-ok : {A : Type 0} (r : Result PlanError A) {a : A} → as_entry r ≡ ok a → r ≡ ok a
as_entry-ok (ok a) h = cc
as_entry-ok (err e) h = cc

pub catalog_loop-Distinct :
    (entries : List EmbeddedCatalogEntry) (acc : List (Bytes × TrustedEntryIntegrity))
    {result : List (Bytes × TrustedEntryIntegrity)}
    → Distinct acc
    → catalog_loop entries acc ≡ ok result
    → Distinct result
unfolding catalog_loop
catalog_loop-Distinct [] acc {result = result} d h = let e : acc ≡ result = cc in subst Distinct e d
catalog_loop-Distinct (entry ∷ entries) acc {result = result} d h =
    let (path, _, h1) = >>=-eq-ok (as_entry (as_path (normalize_archive_key entry.path))) _ h in
    let (_, _, h2) = >>=-eq-ok (ensure (bytes_eq path entry.path) non_canonical_path) _ h1 in
    let (_, _, h3) = >>=-eq-ok (ensure (not (is_reserved_catalog_path path)) reserved_path) _ h2 in
    let (_, _, h4) = >>=-eq-ok (ensure (is_lowercase_md5 entry.md5) malformed_md5) _ h3 in
    let (_, a, h5) = >>=-eq-ok (ensure (absent (lookup acc path)) duplicate_entry) _ h4 in
    let n = absent-none (lookup acc path) (ensure-eq-ok (absent (lookup acc path)) _ a) in
    catalog_loop-Distinct entries ((path, record { size = entry.size; md5 = entry.md5 }) ∷ acc)
      {result = result} (n, d) h5

-- What the loop over the catalog goes through with for its first entry.
catalog_loop_first :
    (entry : EmbeddedCatalogEntry) (entries : List EmbeddedCatalogEntry)
    (acc : List (Bytes × TrustedEntryIntegrity)) {result : List (Bytes × TrustedEntryIntegrity)}
    → catalog_loop (entry ∷ entries) acc ≡ ok result
    → catalog_loop entries ((entry.path, record { size = entry.size; md5 = entry.md5 }) ∷ acc)
      ≡ ok result
unfolding catalog_loop
catalog_loop_first entry entries acc {result = result} h =
    let (path, _, h1) = >>=-eq-ok (as_entry (as_path (normalize_archive_key entry.path))) _ h in
    let (_, c, h2) = >>=-eq-ok (ensure (bytes_eq path entry.path) non_canonical_path) _ h1 in
    let (_, _, h3) = >>=-eq-ok (ensure (not (is_reserved_catalog_path path)) reserved_path) _ h2 in
    let (_, _, h4) = >>=-eq-ok (ensure (is_lowercase_md5 entry.md5) malformed_md5) _ h3 in
    let (_, _, h5) = >>=-eq-ok (ensure (absent (lookup acc path)) duplicate_entry) _ h4 in
    let e = bytes_eq→eq path entry.path (ensure-eq-ok (bytes_eq path entry.path) _ c) in
    subst
      (λ x.
        catalog_loop entries ((x, record { size = entry.size; md5 = entry.md5 }) ∷ acc) ≡ ok result)
      e h5

-- What is found was there before, or is an entry of the catalog as it stands.
pub catalog_loop_sound :
    (entries : List EmbeddedCatalogEntry) (acc : List (Bytes × TrustedEntryIntegrity))
    {result : List (Bytes × TrustedEntryIntegrity)} (path : Bytes)
    (integrity : TrustedEntryIntegrity)
    → catalog_loop entries acc ≡ ok result
    → In (path, integrity) result
    → In (path, integrity) acc
      ⊎ In (record { path = path; size = integrity.size; md5 = integrity.md5 }) entries
catalog_loop_sound [] acc {result = result} path integrity h i =
    unfold catalog_loop in let e : result ≡ acc = cc in inl (subst (In (path, integrity)) e i)
catalog_loop_sound (entry ∷ entries) acc {result = result} path integrity h i =
    elim (catalog_loop_sound entries _ {result = result} path integrity
      (catalog_loop_first entry entries acc {result = result} h) i) [
        | inr j ↦ inr (there j)
        | inl (there j) ↦ inl j
        | inl (here e) ↦
            inr (here (ap (λ x. record { path = x.0; size = x.1.size; md5 = x.1.md5 }) e))
      ]

catalog_loop-keeps :
    (entries : List EmbeddedCatalogEntry) (acc : List (Bytes × TrustedEntryIntegrity))
    {result : List (Bytes × TrustedEntryIntegrity)} {x : Bytes × TrustedEntryIntegrity}
    → In x acc
    → catalog_loop entries acc ≡ ok result
    → In x result
catalog_loop-keeps [] acc {result = result} {x = x} i h =
    unfold catalog_loop in let e : acc ≡ result = cc in subst (In x) e i
catalog_loop-keeps (entry ∷ entries) acc {result = result} i h =
    catalog_loop-keeps entries _ {result = result} (there i)
      (catalog_loop_first entry entries acc {result = result} h)

-- Every entry of the catalog is found.
pub catalog_loop_complete :
    (entries : List EmbeddedCatalogEntry) (acc : List (Bytes × TrustedEntryIntegrity))
    {result : List (Bytes × TrustedEntryIntegrity)} (entry : EmbeddedCatalogEntry)
    → catalog_loop entries acc ≡ ok result
    → In entry entries
    → In (entry.path, record { size = entry.size; md5 = entry.md5 }) result
catalog_loop_complete [] acc entry h i = elim i [ ]
catalog_loop_complete (first ∷ entries) acc {result = result} entry h (there i) =
    catalog_loop_complete entries _ {result = result} entry
      (catalog_loop_first first entries acc {result = result} h) i
catalog_loop_complete (first ∷ entries) acc {result = result} entry h (here e) =
    catalog_loop-keeps entries _ {result = result}
      (here (ap (λ x. (x.path, record { size = x.size; md5 = x.md5 })) e))
      (catalog_loop_first first entries acc {result = result} h)

-- A file that the archive holds: an entry with a path that is not reserved.
pub record IsFile (entries : List StoredZipEntry) (path : Bytes) (size : ℕ) : Type 0 where
  pub entry : StoredZipEntry
  pub listed : In entry entries
  pub named : stored_zip_file_path entry ≡ ok (some path)
  pub plain : is_reserved_catalog_path path ≡ false
  pub sized : entry.uncompressed_size ≡ size

pub later-IsFile :
    (first : StoredZipEntry) (entries : List StoredZipEntry) (path : Bytes) (size : ℕ)
    → IsFile entries path size
    → IsFile (first ∷ entries) path size
later-IsFile first entries path size f = record {
  entry = f.entry;
  listed = there f.listed;
  named = f.named;
  plain = f.plain;
  sized = f.sized;
}

-- One entry adds its file, or nothing.
abbrev pub Added : StoredZipEntry → List (Bytes × ℕ) → List (Bytes × ℕ) → Option Bytes → Type 0
Added entry files next none = next ≡ files
Added entry files next (some path) =
    ((is_reserved_catalog_path path ≡ true) × (next ≡ files))
    ⊎ ((is_reserved_catalog_path path ≡ false)
        × (lookup files path ≡ none)
        × (next ≡ (path, entry.uncompressed_size) ∷ files))

pub add_zip_file-Added :
    (entry : StoredZipEntry) (limits : ArchiveExpansionLimits) (files : List (Bytes × ℕ))
    (path : Option Bytes) {next : List (Bytes × ℕ)}
    → add_zip_file entry limits files path ≡ ok next
    → Added entry files next path
unfolding add_zip_file
add_zip_file-Added entry limits files none h = cc
add_zip_file-Added entry limits files (some path) {next = next} h =
    elim (Bool-cases (is_reserved_catalog_path path)) [
      | inl e ↦ let z : ok files ≡ ok next = rw e at h in inl (e, cc)
      | inr e ↦
          let (_, _, h1) =
            >>=-eq-ok (as_entry (validate_stored_file_entry entry limits)) _ (rw e at h) in
          let (_, a, h2) = >>=-eq-ok (ensure (absent (lookup files path)) duplicate_file) _ h1 in
          let n = absent-none (lookup files path) (ensure-eq-ok (absent (lookup files path)) _ a) in
          inr (e, n, cc)
    ]

Added-Distinct :
    (entry : StoredZipEntry) (files next : List (Bytes × ℕ)) (path : Option Bytes)
    → Added entry files next path
    → Distinct files
    → Distinct next
Added-Distinct entry files next none e d = rw e d
Added-Distinct entry files next (some path) (inl (_, e)) d = rw e d
Added-Distinct entry files next (some path) (inr (_, n, e)) d = rw e (n, d)

Added-keeps :
    (entry : StoredZipEntry) (files next : List (Bytes × ℕ)) (path : Option Bytes) {x : Bytes × ℕ}
    → Added entry files next path
    → In x files
    → In x next
Added-keeps entry files next none e i = rw e i
Added-keeps entry files next (some path) (inl (_, e)) i = rw e i
Added-keeps entry files next (some path) (inr (_, n, e)) i = rw e (there i)

pub zip_file_loop-Distinct :
    (entries : List StoredZipEntry) (limits : ArchiveExpansionLimits) (acc : List (Bytes × ℕ))
    {files : List (Bytes × ℕ)}
    → Distinct acc
    → zip_file_loop entries limits acc ≡ ok files
    → Distinct files
unfolding zip_file_loop
zip_file_loop-Distinct [] limits acc {files = files} d h =
    let e : acc ≡ files = cc in subst Distinct e d
zip_file_loop-Distinct (entry ∷ entries) limits acc {files = files} d h =
    let (path, _, h1) = >>=-eq-ok (as_entry (stored_zip_file_path entry)) _ h in
    let (next, a, h2) = >>=-eq-ok (add_zip_file entry limits acc path) _ h1 in
    zip_file_loop-Distinct entries limits next {files = files}
      (Added-Distinct entry acc next path (add_zip_file-Added entry limits acc path a) d) h2

pub zip_file_loop-keeps :
    (entries : List StoredZipEntry) (limits : ArchiveExpansionLimits) (acc : List (Bytes × ℕ))
    {files : List (Bytes × ℕ)} {x : Bytes × ℕ}
    → In x acc
    → zip_file_loop entries limits acc ≡ ok files
    → In x files
unfolding zip_file_loop
zip_file_loop-keeps [] limits acc {files = files} {x = x} i h =
    let e : acc ≡ files = cc in subst (In x) e i
zip_file_loop-keeps (entry ∷ entries) limits acc {files = files} i h =
    let (path, _, h1) = >>=-eq-ok (as_entry (stored_zip_file_path entry)) _ h in
    let (next, a, h2) = >>=-eq-ok (add_zip_file entry limits acc path) _ h1 in
    zip_file_loop-keeps entries limits next {files = files}
      (Added-keeps entry acc next path (add_zip_file-Added entry limits acc path a) i) h2
