-- ===== src/Tests/Namespaces.antt =====
-- Runs of rust/src/namespace.rs, of the planning of rust/src/lifecycle.rs, and of key decoding.
use shin_bucket_deployment.Prelude.{
  inl, inr, ◌∷◌, [], some, true, false, ◌≡◌, ◌≢◌, ◌↔◌, refl, arith, Bytes, bytes_eq_iff, bytes,
  starts_with, here, there, ok, Bool,
}
use shin_bucket_deployment.Namespace.{
  previous_contains_current, namespace_relation, canonical_namespace, parse_owner_tag,
  has_competing_owner, namespace, key_is_excluded, namespace_list_prefix,
}
use shin_bucket_deployment.Namespace.Relation.{Classifies, namespace_relation_iff}
use shin_bucket_deployment.Namespace.Ownership.{
  owner_tag, ExcludedKey, parse_owner_tag-owner_tag, no_competing_owner_safe,
}
use shin_bucket_deployment.Lifecycle.{
  DeletePreviousDestination, delete, delete_namespace, plan_destination_change_cleanup,
}
use shin_bucket_deployment.Lifecycle.Safety.{
  IsAuthorized, Fits, plan_delete_iff, cleanup_spares_current,
}
use shin_bucket_deployment.Destination.Cleanup.{namespace_selects}
use shin_bucket_deployment.Destination.DecodeKey.{decode_destination_key}
use shin_bucket_deployment.Destination.DecodeKey.RoundTrip.{
  nothing, literal, space, escaped, decode_destination_key-IsEncoded,
}
use shin_bucket_deployment.Tests.Data.{the_request, whole_bucket, the_tags}

namespace_relation_iff_example :
    (namespace_relation [] (bytes "site") ≡ previous_contains_current)
    ↔ Classifies previous_contains_current
        (canonical_namespace [])
        (canonical_namespace (bytes "site"))
namespace_relation_iff_example = namespace_relation_iff previous_contains_current [] (bytes "site")

parse_owner_tag-owner_tag_example :
    (parse_owner_tag (owner_tag (bytes "a:b") (bytes "owner")) ≡ some (bytes "a:b", bytes "owner"))
    × (parse_owner_tag (owner_tag [] (bytes "owner")) ≡ some ([], bytes "owner"))
parse_owner_tag-owner_tag_example = (
  parse_owner_tag-owner_tag (bytes "a:b") (bytes "owner") refl refl,
  parse_owner_tag-owner_tag [] (bytes "owner") refl refl,
)

a_is_not_b : bytes "a" ≢ bytes "b"
a_is_not_b h = absurd (ground (arith, (bytes_eq_iff (bytes "a") (bytes "b")).1 h))

no_competing : has_competing_owner the_tags [] (some (bytes "site")) (bytes "a") ≡ false
unfolding has_competing_owner
no_competing = refl

other_tag :
    parse_owner_tag (bytes "aws-cdk:cr-owned:site/other:b") ≡ some (bytes "site/other", bytes "b")
unfolding parse_owner_tag
other_tag = refl

other_key : starts_with (bytes "site/other/k") (namespace (bytes "site/other")) ≡ true
unfolding namespace
other_key = refl

every_key : starts_with (bytes "site/other/k") (namespace []) ≡ true
unfolding namespace
every_key = refl

no_competing_owner_safe_example : ExcludedKey (some (bytes "site")) (bytes "site/other/k")
no_competing_owner_safe_example =
    no_competing_owner_safe the_tags [] (some (bytes "site")) (bytes "a")
      (bytes "aws-cdk:cr-owned:site/other:b") (bytes "site/other") (bytes "b")
      (bytes "site/other/k") no_competing (there (here refl)) other_tag a_is_not_b other_key
      every_key

abbrev the_plan : DeletePreviousDestination
the_plan = record { previous = whole_bucket; strategy = delete_namespace (some (bytes "site")) }

plan_delete_iff_example :
    (plan_destination_change_cleanup the_request whole_bucket ≡ delete the_plan) ↔ (
      IsAuthorized the_request whole_bucket
      × Fits the_request whole_bucket
          (canonical_namespace [])
          (canonical_namespace (bytes "site"))
          (delete_namespace (some (bytes "site")))
      × (the_plan.previous ≡ whole_bucket))
plan_delete_iff_example = plan_delete_iff the_request whole_bucket the_plan

plans_deletion : plan_destination_change_cleanup the_request whole_bucket ≡ delete the_plan
unfolding plan_destination_change_cleanup namespace_relation
plans_deletion = refl

old_key : starts_with (bytes "old/key") (namespace []) ≡ true
unfolding namespace
old_key = refl

selected : namespace_selects (some (bytes "site")) (bytes "old/key") ≡ true
unfolding namespace_selects key_is_excluded namespace_list_prefix
selected = refl

cleanup_spares_current_example : starts_with (bytes "old/key") (namespace (bytes "site")) ≡ false
cleanup_spares_current_example =
    cleanup_spares_current the_request whole_bucket the_plan (some (bytes "site")) (bytes "old/key")
      plans_deletion refl refl old_key selected

abbrev every_text : Bytes → Bool
every_text s = true

-- The text "a%2B+%c3%A9": a lower-case and an upper-case escape, and a plus for the space.
decode_destination_key-IsEncoded_example :
    decode_destination_key every_text (bytes "a%2B+%c3%A9")
    ≡ ok (b'a' ∷ b'+' ∷ 32 ∷ 0xc3 ∷ 0xa9 ∷ [])
decode_destination_key-IsEncoded_example =
    decode_destination_key-IsEncoded every_text (b'a' ∷ b'+' ∷ 32 ∷ 0xc3 ∷ 0xa9 ∷ [])
      (bytes "a%2B+%c3%A9")
      (literal (λ e. cc) (λ e. cc)
        (escaped {hi = 2} {lo = 11} (inl (omega arith, refl))
          (inr (inr (omega arith, omega arith, refl)))
          (space (
            escaped {hi = 12} {lo = 3} (inr (inl (omega arith, omega arith, refl)))
              (inl (omega arith, refl))
              (escaped {hi = 10} {lo = 9} (inr (inr (omega arith, omega arith, refl)))
                (inl (omega arith, refl)) nothing)))))
      refl
