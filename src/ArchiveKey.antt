-- ===== src/ArchiveKey.antt =====
-- `normalize_archive_key` of rust/src/request.rs: the key of an archive entry, with its shortcut for
-- keys that are canonical already.
pub mod Parts
pub mod Normal
use shin_bucket_deployment.Prelude.{
  ℕ, List, [], ◌∷◌, ◌++◌, Bool, true, false, not, ◌&&◌, ◌||◌, ◌==◌, Bytes, bytes, bytes_eq,
  is_empty, map, slash, starts_with, ends_with, contains, if◌then◌else◌, Result, ok, err, ◌>>=◌,
}

pub data ArchiveKeyError : Type 0 where
  path_traversal empty_key : ArchiveKeyError

abbrev pub backslash : ℕ
backslash = 92

-- `raw.replace('\\', "/")`.
abbrev pub replace_backslashes : Bytes → Bytes
replace_backslashes raw = map (λ b. if b == backslash then slash else b) raw

abbrev pub onto_first : ℕ → List Bytes → List Bytes
onto_first x [] = (x ∷ []) ∷ []
onto_first x (part ∷ parts) = (x ∷ part) ∷ parts

-- `s.split('/')`: one part more than there are slashes.
unfoldable pub split : Bytes → List Bytes
split [] = [] ∷ []
split (x ∷ s) = let rest = split s in if x == slash then [] ∷ rest else onto_first x rest

-- `parts.join("/")`.
unfoldable pub join : List Bytes → Bytes
join [] = []
join (part ∷ []) = part
join (part ∷ next ∷ parts) = part ++ slash ∷ join (next ∷ parts)

abbrev pub is_skipped : Bytes → Bool
is_skipped part = is_empty part || bytes_eq part (bytes ".")

abbrev pub is_parent : Bytes → Bool
is_parent part = bytes_eq part (bytes "..")

abbrev pub push_part :
    Bytes → Result ArchiveKeyError (List Bytes) → Result ArchiveKeyError (List Bytes)
push_part part (ok parts) = ok (part ∷ parts)
push_part part (err e) = err e

-- The loop over the parts.
unfoldable pub kept_parts : List Bytes → Result ArchiveKeyError (List Bytes)
kept_parts [] = ok []
kept_parts (part ∷ parts) =
    let rest = kept_parts parts in
    if is_skipped part
    then rest
    else if is_parent part
    then err path_traversal
    else push_part part rest

abbrev pub joined : List Bytes → Result ArchiveKeyError Bytes
joined [] = err empty_key
joined (part ∷ parts) = ok (join (part ∷ parts))

-- The normalization without the shortcut.
unfoldable pub normalize_owned : Bytes → Result ArchiveKeyError Bytes
unfolding split join kept_parts
normalize_owned raw = kept_parts (split (replace_backslashes raw)) >>= joined

-- `raw.contains("//")`.
unfoldable pub contains_double_slash : Bytes → Bool
contains_double_slash [] = false
contains_double_slash (x ∷ []) = false
contains_double_slash (x ∷ y ∷ s) =
    let rest = contains_double_slash (y ∷ s) in (x == slash && y == slash) || rest

-- `parts.all(|part| part != "." && part != "..")`.
unfoldable pub no_dot_parts : List Bytes → Bool
no_dot_parts [] = true
no_dot_parts (part ∷ parts) =
    let rest = no_dot_parts parts in
    (not (bytes_eq part (bytes ".")) && not (is_parent part)) && rest

unfoldable pub is_canonical_archive_key : Bytes → Bool
unfolding split contains_double_slash no_dot_parts
is_canonical_archive_key raw =
    not (is_empty raw)
    && (not (contains raw backslash)
        && (not (starts_with raw (slash ∷ []))
            && (not (ends_with raw slash)
                && (not (contains_double_slash raw) && no_dot_parts (split raw)))))

unfoldable pub normalize_archive_key : Bytes → Result ArchiveKeyError Bytes
unfolding normalize_owned is_canonical_archive_key
normalize_archive_key raw = if is_canonical_archive_key raw then ok raw else normalize_owned raw
