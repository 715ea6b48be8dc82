-- ===== src/Directory/RoundTrip.antt =====
-- An end of central directory as it is written is parsed to its fields
-- (rust/src/s3/archive/directory.rs).
use shin_bucket_deployment.Prelude.{
  ℕ, ◌/◌, ◌%◌, ◌≤◌, [], ◌∷◌, true, Bytes, length, leb, ◌≡◌, refl, arith, ok, u16_max, u32_max,
  le→leb, ◌==◌, ==_iff,
}
use shin_bucket_deployment.Directory.Records.{EndRecord, from_le, parse_end_record}

-- `to_le_bytes` of 16 and of 32 bits.
abbrev le16 : ℕ → Bytes → Bytes
le16 n rest = n % 256 ∷ n / 256 % 256 ∷ rest

abbrev le32 : ℕ → Bytes → Bytes
le32 n rest = n % 256 ∷ n / 256 % 256 ∷ n / 65536 % 256 ∷ n / 16777216 % 256 ∷ rest

-- An end record of an archive on one disk, with its comment.
abbrev pub encode_end_record : EndRecord → Bytes → Bytes
encode_end_record r comment =
    0x50
    ∷ 0x4b
    ∷ 0x05
    ∷ 0x06
    ∷ le16 0 (
        le16 0 (
          le16 r.entries (
            le16 r.entries
              (le32 r.directory_size (le32 r.directory_start (le16 r.comment_len comment))))))

from_le-le16 : (n : ℕ) → n ≤ u16_max → from_le (le16 n []) ≡ n
unfolding from_le
from_le-le16 n h = omega arith

from_le-le32 : (n : ℕ) → n ≤ u32_max → from_le (le32 n []) ≡ n
unfolding from_le
from_le-le32 n h = omega arith

within :
    (k : ℕ) (r : EndRecord) (comment : Bytes)
    → k ≤ 22
    → leb k (length (encode_end_record r comment)) ≡ true
within k r comment h = le→leb k (length (encode_end_record r comment)) (omega arith)

-- An end record of an archive on one disk, written in 22 bytes and followed by any comment, is
-- parsed to the fields that were written, if each fits its width.
pub parse_end_record-encode_end_record :
    (r : EndRecord) (comment : Bytes)
    → r.entries ≤ u16_max
    → r.directory_size ≤ u32_max
    → r.directory_start ≤ u32_max
    → r.comment_len ≤ u16_max
    → parse_end_record (encode_end_record r comment) ≡ ok r
unfolding parse_end_record
parse_end_record-encode_end_record r comment a b c d =
    let same : (r.entries == r.entries) ≡ true = (==_iff r.entries r.entries).1 refl in
    rw
      (
        within 4 r comment (omega arith),
        within 6 r comment (omega arith),
        within 8 r comment (omega arith),
        within 10 r comment (omega arith),
        within 12 r comment (omega arith),
        within 16 r comment (omega arith),
        within 20 r comment (omega arith),
        within 22 r comment (omega arith),
        from_le-le16 r.entries a,
        from_le-le32 r.directory_size b,
        from_le-le32 r.directory_start c,
        from_le-le16 r.comment_len d,
        same,
      )
      refl
