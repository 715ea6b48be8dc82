-- ===== src/Planner/Catalog.antt =====
-- The embedded catalog of rust/src/s3/planner.rs: what is checked of its entries and of the archive's.
-- A `HashMap` is an association list with one entry for each key.
use shin_bucket_deployment.Prelude.{
  ℕ, List, [], ◌∷◌, Bool, true, false, not, ◌&&◌, ◌||◌, Option, none, some, Bytes, bytes_eq, length,
  leb, ◌==◌, if◌then◌else◌, Result, ok, err, ◌>>=◌, ensure, ok_or,
}
use shin_bucket_deployment.Deployment.{ArchiveExpansionLimits, TrustedEntryIntegrity}
use shin_bucket_deployment.ArchiveKey.{normalize_archive_key}
use shin_bucket_deployment.Planner.{
  StoredZipEntry, PlanError, stored_zip_file_path, is_reserved_catalog_path,
  validate_stored_file_entry, as_path,
}

pub record EmbeddedCatalogEntry : Type 0 where
  pub path : Bytes
  pub size : ℕ
  pub md5 : Bytes

pub record EmbeddedCatalog : Type 0 where
  pub version : ℕ
  pub entries : List EmbeddedCatalogEntry

pub data CatalogError : Type 0 where
  unsupported_version non_canonical_path reserved_path malformed_md5 duplicate_entry : CatalogError
  duplicate_file file_sets_differ size_differs : CatalogError
  invalid_entry : PlanError → CatalogError

abbrev pub as_entry : {A : Type 0} → Result PlanError A → Result CatalogError A
as_entry (ok a) = ok a
as_entry (err e) = err (invalid_entry e)

abbrev is_lowercase_hex : ℕ → Bool
is_lowercase_hex b = (leb b'0' b && leb b b'9') || (leb b'a' b && leb b b'f')

abbrev each_lowercase_hex : Bytes → Bool
each_lowercase_hex [] = true
each_lowercase_hex (b ∷ value) = is_lowercase_hex b && each_lowercase_hex value

unfoldable pub is_lowercase_md5 : Bytes → Bool
is_lowercase_md5 value = length value == 32 && each_lowercase_hex value

module _ {V : Type 0} where
  unfoldable pub lookup : List (Bytes × V) → Bytes → Option V
  lookup [] key = none
  lookup (entry ∷ entries) key =
      let rest = lookup entries key in if bytes_eq entry.0 key then some entry.1 else rest

  abbrev pub absent : Option V → Bool
  absent none = true
  absent (some v) = false

-- The loop over the catalog's entries.
unfoldable pub catalog_loop :
    List EmbeddedCatalogEntry
    → List (Bytes × TrustedEntryIntegrity)
    → Result CatalogError (List (Bytes × TrustedEntryIntegrity))
unfolding normalize_archive_key is_reserved_catalog_path is_lowercase_md5 lookup
catalog_loop [] result = ok result
catalog_loop (entry ∷ entries) result =
    as_entry (as_path (normalize_archive_key entry.path)) >>= λ path.
    ensure (bytes_eq path entry.path) non_canonical_path >>= λ _.
    ensure (not (is_reserved_catalog_path path)) reserved_path >>= λ _.
    ensure (is_lowercase_md5 entry.md5) malformed_md5 >>= λ _.
    ensure (absent (lookup result path)) duplicate_entry >>= λ _.
    catalog_loop entries ((path, record { size = entry.size; md5 = entry.md5 }) ∷ result)

-- A file of the archive: its path and its size.
unfoldable pub add_zip_file :
    StoredZipEntry
    → ArchiveExpansionLimits
    → List (Bytes × ℕ)
    → Option Bytes
    → Result CatalogError (List (Bytes × ℕ))
unfolding is_reserved_catalog_path validate_stored_file_entry lookup
add_zip_file entry limits files none = ok files
add_zip_file entry limits files (some path) =
    if is_reserved_catalog_path path
    then ok files
    else (as_entry (validate_stored_file_entry entry limits) >>= λ _.
        ensure (absent (lookup files path)) duplicate_file >>= λ _.
        ok ((path, entry.uncompressed_size) ∷ files))

-- The loop over the archive's entries.
unfoldable pub zip_file_loop :
    List StoredZipEntry
    → ArchiveExpansionLimits
    → List (Bytes × ℕ)
    → Result CatalogError (List (Bytes × ℕ))
unfolding stored_zip_file_path add_zip_file
zip_file_loop [] limits files = ok files
zip_file_loop (entry ∷ entries) limits files = as_entry (stored_zip_file_path entry) >>= λ path.
    add_zip_file entry limits files path >>= λ next. zip_file_loop entries limits next

-- The loop that compares the sizes.
unfoldable pub compare_sizes :
    List (Bytes × TrustedEntryIntegrity) → List (Bytes × ℕ) → Result CatalogError (Unit {0})
unfolding lookup
compare_sizes [] files = ok tt
compare_sizes (entry ∷ result) files = ok_or (lookup files entry.0) file_sets_differ >>= λ zip_size.
    ensure (zip_size == entry.1.size) size_differs >>= λ _. compare_sizes result files

unfoldable pub validate_catalog_entries :
    EmbeddedCatalog
    → List StoredZipEntry
    → ArchiveExpansionLimits
    → Result CatalogError (List (Bytes × TrustedEntryIntegrity))
unfolding catalog_loop zip_file_loop compare_sizes
validate_catalog_entries catalog zip_entries limits =
    ensure (catalog.version == 1) unsupported_version >>= λ _.
    catalog_loop catalog.entries [] >>= λ result. zip_file_loop zip_entries limits [] >>= λ files.
    ensure (length result == length files) file_sets_differ >>= λ _.
    compare_sizes result files >>= λ _. ok result
