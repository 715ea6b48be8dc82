-- ===== src/Destination/Candidates.antt =====
-- `DeletionCandidates`: the stale keys retained for deletion, up to 4 MiB
-- (rust/src/s3/destination.rs).
use shin_bucket_deployment.Prelude.{
  ℕ, ◌+◌, ◌*◌, ◌≤◌, List, [], ◌∷◌, ◌++◌, Option, none, some, Bool, true, not, ◌≡◌, arith, Bytes,
  length, is_empty, saturating_add, checked_add, ltb, if◌then◌else◌,
}

pub data DeletionCandidates : Type 0 where
  complete : List Bytes → ℕ → DeletionCandidates
  overflow : DeletionCandidates

abbrev pub max_retained_deletion_key_bytes : ℕ
max_retained_deletion_key_bytes = 4 * 1024 * 1024

-- `size_of::<String>()` on a 64-bit target.
abbrev pub size_of_string : ℕ
size_of_string = 24

abbrev pub default_candidates : DeletionCandidates
default_candidates = complete [] 0

abbrev retain_sized : List Bytes → Bytes → Option ℕ → DeletionCandidates
retain_sized keys key none = overflow
retain_sized keys key (some next_bytes) =
    if ltb max_retained_deletion_key_bytes next_bytes
    then overflow
    else complete (keys ++ key ∷ []) next_bytes

unfoldable pub retain : DeletionCandidates → Bytes → DeletionCandidates
retain (complete keys used) key =
    retain_sized keys key (checked_add used (saturating_add (length key) size_of_string))
retain overflow key = overflow

unfoldable pub has_candidates : DeletionCandidates → Bool
has_candidates (complete keys used) = not (is_empty keys)
has_candidates overflow = true

unfoldable pub retained_keys : DeletionCandidates → Option (List Bytes)
retained_keys (complete keys used) = some keys
retained_keys overflow = none

-- What the retained keys weigh.
abbrev pub weight : List Bytes → ℕ
weight [] = 0
weight (k ∷ ks) = length k + size_of_string + weight ks

-- The byte count is exact, and within the limit.
abbrev pub IsBounded : DeletionCandidates → Type 0
IsBounded (complete keys used) = (used ≡ weight keys) × (used ≤ max_retained_deletion_key_bytes)
IsBounded overflow = Unit

pub weight-append :
    (xs : List Bytes) (k : Bytes) → weight (xs ++ k ∷ []) ≡ weight xs + (length k + 24)
weight-append [] k = omega arith
weight-append (x ∷ xs) k = omega (arith, weight-append xs k)

-- Retaining a key keeps the byte count exact and within 4 MiB, or overflows.
pub retain-IsBounded :
    (c : DeletionCandidates) (key : Bytes) → IsBounded c → IsBounded (retain c key)
unfolding retain
retain-IsBounded (complete keys used) key h = ground (arith, weight-append keys key)
retain-IsBounded overflow key h = tt
