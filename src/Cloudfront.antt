-- ===== src/Cloudfront.antt =====
-- rust/src/cloudfront.rs: the paths of an invalidation, its creation, and the polling of its state.
-- The CloudFront client, the clock and the random jitter are arguments.
pub mod Texts
pub mod Paths
use shin_bucket_deployment.Deadline.{instant_add, unwrap_or}
use shin_bucket_deployment.Prelude.{
  ℕ, zero, suc, ◌+◌, ◌-◌, ◌*◌, ◌^◌, List, [], ◌∷◌, Option, none, some, Bool, true, false, not, ◌&&◌,
  ◌||◌, ◌==◌, leb, ltb, Bytes, bytes, bytes_eq, starts_with, ends_with, contains, is_empty, length,
  slash, if◌then◌else◌, Result, ok, err, ◌>>=◌, ◌>>◌, ensure, min,
}

pub data PathError : Type 0 where
  no_slash too_long control_character tilde : PathError

pub data InvalidationError : Type 0 where
  no_paths too_many_paths too_many_wildcards quantity_overflow : InvalidationError
  bad_path : ℕ → PathError → InvalidationError

abbrev pub max_invalidation_path_characters : ℕ
max_invalidation_path_characters = 4000

abbrev pub max_invalidation_paths : ℕ
max_invalidation_paths = 3000

abbrev pub max_wildcard_invalidation_paths : ℕ
max_wildcard_invalidation_paths = 15

abbrev pub star : ℕ
star = b'*'

unfoldable pub wildcard_count : List Bytes → ℕ
wildcard_count [] = 0
wildcard_count (p ∷ ps) = (if ends_with p star then 1 else 0) + wildcard_count ps

-- `path.chars().count()`: the bytes that do not continue a UTF-8 character.
unfoldable pub char_count : Bytes → ℕ
char_count [] = 0
char_count (b ∷ s) = (if leb 0x80 b && ltb b 0xc0 then 0 else 1) + char_count s

-- `path.chars().any(char::is_control)`: U+0000 to U+001F, U+007F, and U+0080 to U+009F, which are
-- encoded by a byte 0xC2 and one below 0xA0.
unfoldable pub has_control : Bytes → Bool
has_control [] = false
has_control (b ∷ []) = ltb b 0x20 || (b == 0x7f)
has_control (b ∷ c ∷ s) =
    ltb b 0x20 || (b == 0x7f) || ((b == 0xc2) && ltb c 0xa0) || has_control (c ∷ s)

-- `windows(3).any(…)` for %7e and %7E.
unfoldable pub has_encoded_tilde : Bytes → Bool
has_encoded_tilde [] = false
has_encoded_tilde (a ∷ []) = false
has_encoded_tilde (a ∷ b ∷ []) = false
has_encoded_tilde (a ∷ b ∷ c ∷ s) =
    ((a == b'%') && (b == b'7') && ((c == b'e') || (c == b'E'))) || has_encoded_tilde (b ∷ c ∷ s)

unfoldable pub contains_unsupported_tilde : Bytes → Bool
unfolding has_encoded_tilde
contains_unsupported_tilde path = contains path b'~' || has_encoded_tilde path

unfoldable pub validate_path : Bytes → Result PathError (Unit {0})
unfolding char_count has_control contains_unsupported_tilde
validate_path path = do
  ensure (starts_with path (slash ∷ [])) no_slash
  ensure (leb (char_count path) max_invalidation_path_characters) too_long
  ensure (not (has_control path)) control_character
  ensure (not (contains_unsupported_tilde path)) tilde

abbrev pub at_path : ℕ → Result PathError (Unit {0}) → Result InvalidationError (Unit {0})
at_path index (ok u) = ok u
at_path index (err e) = err (bad_path index e)

-- The loop over the enumerated paths; `index` counts from 1 as the messages do.
unfoldable pub validate_each : ℕ → List Bytes → Result InvalidationError (Unit {0})
unfolding validate_path
validate_each index [] = ok tt
validate_each index (p ∷ ps) = at_path index (validate_path p) >> validate_each (index + 1) ps

-- `i32::try_from`.
unfoldable pub invalidation_quantity : ℕ → Result InvalidationError ℕ
invalidation_quantity n = if ltb n (2 ^ 31) then ok n else err quantity_overflow

unfoldable pub validate_invalidation_paths : List Bytes → Result InvalidationError ℕ
unfolding wildcard_count invalidation_quantity validate_each
validate_invalidation_paths paths = do
  ensure (not (is_empty paths)) no_paths
  ensure (leb (length paths - wildcard_count paths) max_invalidation_paths) too_many_paths
  ensure (leb (wildcard_count paths) max_wildcard_invalidation_paths) too_many_wildcards
  quantity ← invalidation_quantity (length paths)
  validate_each 1 paths
  ok quantity

pub record CreatedInvalidation : Type 0 where
  pub distribution_id : Bytes
  pub invalidation_id : Bytes
  pub missing_distribution_is_success : Bool

-- What a call to CloudFront comes back with: an answer, an error with its service code if it has
-- one, or the work deadline.
pub data Answer (A : Type 0) : Type 0 where
  answered : A → Answer A
  failed : Option Bytes → Answer A
  timed_out : Answer A

pub data CloudfrontError : Type 0 where
  invalid_paths : InvalidationError → CloudfrontError
  service_failed creation_timed_out polling_timed_out missing_id late_poll : CloudfrontError

abbrev no_such_distribution : Option Bytes → Bool
no_such_distribution none = false
no_such_distribution (some code) = bytes_eq code (bytes "NoSuchDistribution")

-- The part of `create_invalidation` that reads the answer, which holds the invalidation's id.
created :
    Bytes
    → Bool
    → Bool
    → Answer (Option Bytes)
    → Result CloudfrontError (Option CreatedInvalidation)
created distribution_id wait missing_ok timed_out = err creation_timed_out
created distribution_id wait missing_ok (failed code) =
    if missing_ok && no_such_distribution code then ok none else err service_failed
created distribution_id wait missing_ok (answered none) =
    if not wait then ok none else err missing_id
created distribution_id wait missing_ok (answered (some id)) =
    if not wait
    then ok none
    else ok (
        some (record {
          distribution_id = distribution_id;
          invalidation_id = id;
          missing_distribution_is_success = missing_ok;
        }))

-- `create_invalidation`: `send` is the CreateInvalidation call with its quantity, and it is made
-- only for valid paths.
unfoldable pub create_invalidation :
    (ℕ → Answer (Option Bytes))
    → Bytes
    → List Bytes
    → Bool
    → Bool
    → Result CloudfrontError (Option CreatedInvalidation)
unfolding validate_invalidation_paths created
create_invalidation send distribution_id paths wait missing_ok =
    elim (validate_invalidation_paths paths) [
      | err e ↦ err (invalid_paths e)
      | ok quantity ↦ created distribution_id wait missing_ok (send quantity)
    ]

abbrev pub invalidation_poll_interval_ms : ℕ
invalidation_poll_interval_ms = 20000

-- `next_poll_at`, in milliseconds of a clock whose last instant is `last`; the jitter is the sample,
-- between 0 and 5000.
unfoldable pub next_poll_at : ℕ → ℕ → ℕ → ℕ → Result CloudfrontError ℕ
next_poll_at last jitter now deadline = do
  let next_poll = unwrap_or (instant_add last now (invalidation_poll_interval_ms + jitter)) deadline
  ensure (ltb now deadline) polling_timed_out
  ensure (ltb next_poll deadline) late_poll
  ok next_poll
