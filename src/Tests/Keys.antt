-- ===== src/Tests/Keys.antt =====
-- Runs of the normalization of archive keys (rust/src/request.rs).
use shin_bucket_deployment.Prelude.{true, ◌≡◌, ◌↔◌, refl, bytes, any, All, ok, err}
use shin_bucket_deployment.ArchiveKey.{
  path_traversal, replace_backslashes, split, is_parent, normalize_owned, normalize_archive_key,
}
use shin_bucket_deployment.ArchiveKey.Parts.{IsPlain}
use shin_bucket_deployment.ArchiveKey.Normal.{
  normalize_archive_key-eq-owned, normalize_archive_key-IsPlain, normalize_archive_key-traversal,
}

normalize_archive_key-eq-owned_example :
    normalize_archive_key (bytes "a/b.txt") ≡ normalize_owned (bytes "a/b.txt")
normalize_archive_key-eq-owned_example = normalize_archive_key-eq-owned (bytes "a/b.txt")

cleaned : normalize_archive_key (bytes "./a//b") ≡ ok (bytes "a/b")
unfolding normalize_archive_key split
cleaned = refl

normalize_archive_key-IsPlain_example : All IsPlain (split (bytes "a/b"))
normalize_archive_key-IsPlain_example =
    normalize_archive_key-IsPlain (bytes "./a//b") (bytes "a/b") cleaned

normalize_archive_key-traversal_example :
    (normalize_archive_key (bytes "a/../b") ≡ err path_traversal)
    ↔ (any is_parent (split (replace_backslashes (bytes "a/../b"))) ≡ true)
normalize_archive_key-traversal_example = normalize_archive_key-traversal (bytes "a/../b")
