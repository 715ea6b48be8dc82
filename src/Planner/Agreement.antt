-- ===== src/Planner/Agreement.antt =====
-- An accepted catalog is about exactly the files of its archive (rust/src/s3/planner.rs).
use shin_bucket_deployment.Prelude.{ℕ, List, Bytes, ◌≡◌, In}
use shin_bucket_deployment.Deployment.{TrustedEntryIntegrity}
use shin_bucket_deployment.Planner.Catalog.{EmbeddedCatalogEntry}
use shin_bucket_deployment.Planner.Distinct.{Distinct}

-- The catalog lists a path with a size.
pub record IsListed (entries : List EmbeddedCatalogEntry) (path : Bytes) (size : ℕ) : Type 0 where
  pub entry : EmbeddedCatalogEntry
  pub listed : In entry entries
  pub named : entry.path ≡ path
  pub sized : entry.size ≡ size

-- The catalog's entry of a path with what is trusted of it.
abbrev pub entry_of : Bytes → TrustedEntryIntegrity → EmbeddedCatalogEntry
entry_of path integrity = record { path = path; size = integrity.size; md5 = integrity.md5 }
