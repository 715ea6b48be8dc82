-- ===== src/Destination/Objects.antt =====
-- Destination objects, ETags and write preconditions (rust/src/s3/destination.rs, and
-- `strip_destination_prefix` and `join_s3_key` of rust/src/request.rs).
use mathlib.Core.List.{reverse}
use shin_bucket_deployment.Prelude.{
  ℕ, zero, suc, ◌+◌, List, [], ◌∷◌, ◌++◌, Option, none, some, Bool, false, ◌&&◌, ◌||◌, ◌==◌, leb,
  Bytes, bytes_eq, strip_prefix, ends_with, slash, is_empty, length, drop, map, if◌then◌else◌,
}

pub record DestinationObject : Type 0 where
  pub etag : Option Bytes
  pub size : Option ℕ

pub data DestinationWritePrecondition : Type 0 where
  if_match : Bytes → DestinationWritePrecondition
  if_none_match : DestinationWritePrecondition

-- The `HashMap<String, DestinationObject>`.
abbrev pub Objects : Type 0
Objects = List (Bytes × DestinationObject)

unfoldable pub get : Objects → Bytes → Option DestinationObject
get [] key = none
get ((k, o) ∷ m) key = let rest = get m key in if bytes_eq k key then some o else rest

unfoldable pub insert : Objects → Bytes → DestinationObject → Objects
insert [] key o = (key, o) ∷ []
insert ((k, p) ∷ m) key o =
    let rest = insert m key o in if bytes_eq k key then (key, o) ∷ m else (k, p) ∷ rest

unfoldable pub strip_destination_prefix : Bytes → Bytes → Bytes
strip_destination_prefix prefix key =
    if is_empty prefix
    then key
    else elim (strip_prefix key prefix) [ some stripped ↦ stripped | none ↦ key ]

unfoldable pub join_s3_key : Bytes → Bytes → Bytes
join_s3_key prefix relative_key =
    if is_empty prefix
    then relative_key
    else if ends_with prefix slash
    then prefix ++ relative_key
    else prefix ++ (slash ∷ relative_key)

-- The length in bytes of the white-space character at the front of a UTF-8 text, or 0: the
-- characters with the Unicode property White_Space, which `str::trim` removes.
abbrev pub white_len : Bytes → ℕ
white_len [] = 0
white_len (a ∷ []) = if (leb 9 a && leb a 13) || (a == 32) then 1 else 0
white_len (a ∷ b ∷ []) =
    if (leb 9 a && leb a 13) || (a == 32)
    then 1
    else if (a == 0xc2) && ((b == 0x85) || (b == 0xa0))
    then 2
    else 0
white_len (a ∷ b ∷ c ∷ s) =
    if (leb 9 a && leb a 13) || (a == 32)
    then 1
    else if (a == 0xc2) && ((b == 0x85) || (b == 0xa0))
    then 2
    else if ((a == 0xe1) && (b == 0x9a) && (c == 0x80))
        || ((a == 0xe2)
            && (b == 0x80)
            && ((leb 0x80 c && leb c 0x8a) || (c == 0xa8) || (c == 0xa9) || (c == 0xaf)))
        || ((a == 0xe2) && (b == 0x81) && (c == 0x9f))
        || ((a == 0xe3) && (b == 0x80) && (c == 0x80))
    then 3
    else 0

-- The same at the end of a text whose bytes are reversed.
abbrev pub white_len_back : Bytes → ℕ
white_len_back [] = 0
white_len_back (a ∷ []) = white_len (a ∷ [])
white_len_back (b ∷ a ∷ []) =
    if 1 == white_len (b ∷ []) then 1 else if 2 == white_len (a ∷ b ∷ []) then 2 else 0
white_len_back (c ∷ b ∷ a ∷ s) =
    if 1 == white_len (c ∷ [])
    then 1
    else if 2 == white_len (b ∷ c ∷ [])
    then 2
    else if 3 == white_len (a ∷ b ∷ c ∷ [])
    then 3
    else 0

-- Drops characters from the front while the test measures one; the fuel is the text's length.
unfoldable pub trim_while : ℕ → (Bytes → ℕ) → Bytes → Bytes
trim_while zero measure s = s
trim_while (suc fuel) measure s = elim (measure s) [
  | zero ↦ s
  | suc n ↦ trim_while fuel measure (drop (suc n) s)
]

-- `s.trim()`.
unfoldable pub trim : Bytes → Bytes
unfolding trim_while
trim s =
    let front = trim_while (length s) white_len s in
    reverse (trim_while (length front) white_len_back (reverse front))

quote_len : Bytes → ℕ
quote_len [] = 0
quote_len (a ∷ s) = if a == b'"' then 1 else 0

-- `s.trim_matches('"')`.
unfoldable pub trim_quotes : Bytes → Bytes
unfolding trim_while quote_len
trim_quotes s =
    let front = trim_while (length s) quote_len s in
    reverse (trim_while (length front) quote_len (reverse front))

-- `to_ascii_lowercase`, byte by byte.
unfoldable pub ascii_lowercase : ℕ → ℕ
ascii_lowercase b = if leb b'A' b && leb b b'Z' then b + 32 else b

unfoldable pub normalize_etag : Bytes → Option Bytes
unfolding trim trim_quotes ascii_lowercase
normalize_etag etag =
    let normalized = map ascii_lowercase (trim_quotes (trim etag)) in
    if is_empty normalized then none else some normalized

-- `option.as_deref() == Some(expected)`.
abbrev pub is_some_bytes : Option Bytes → Bytes → Bool
is_some_bytes none expected = false
is_some_bytes (some s) expected = bytes_eq s expected

abbrev pub is_some_size : Option ℕ → ℕ → Bool
is_some_size none expected = false
is_some_size (some n) expected = n == expected

abbrev pub etag_of : Option DestinationObject → Option Bytes
etag_of none = none
etag_of (some o) = o.etag

unfoldable pub destination_etag_matches : Objects → Bytes → Bytes → Bool
destination_etag_matches objects relative_key expected_etag =
    is_some_bytes (etag_of (get objects relative_key)) expected_etag

unfoldable pub destination_md5_and_size_match : DestinationObject → Bytes → ℕ → Bool
destination_md5_and_size_match object expected_md5 expected_size =
    is_some_size object.size expected_size && is_some_bytes object.etag expected_md5

unfoldable pub if_match_quoted : Option Bytes → Option DestinationWritePrecondition
if_match_quoted none = none
if_match_quoted (some etag) = some (if_match (b'"' ∷ (etag ++ b'"' ∷ [])))

unfoldable pub destination_write_precondition :
    Option DestinationObject → Option DestinationWritePrecondition
unfolding if_match_quoted
destination_write_precondition none = some if_none_match
destination_write_precondition (some object) = if_match_quoted object.etag
