-- ===== src/Namespace.antt =====
-- rust/src/namespace.rs: destination namespaces, and who owns them.
-- A namespace is a bucket prefix that ends in a slash; the empty one is the whole bucket.
-- The tag set of a bucket is the list of its tag keys, read by GetBucketTagging.
pub mod Relation
pub mod Ownership
use shin_bucket_deployment.Prelude.{
  ℕ, List, [], ◌∷◌, ◌++◌, Option, none, some, Bool, true, false, not, ◌||◌, Bytes, bytes, slash,
  bytes_eq, starts_with, strip_prefix, ends_with, contains, is_empty, any, ◌==◌, if◌then◌else◌,
}

pub data NamespaceRelation : Type 0 where
  same previous_contains_current current_contains_previous disjoint : NamespaceRelation

unfoldable pub canonical_namespace : Bytes → Bytes
canonical_namespace prefix =
    if is_empty prefix || bytes_eq prefix (slash ∷ [])
    then []
    else if ends_with prefix slash
    then prefix
    else prefix ++ slash ∷ []

unfoldable pub namespace_list_prefix : Bytes → Option Bytes
namespace_list_prefix prefix =
    if is_empty prefix
    then none
    else some (if ends_with prefix slash then prefix else prefix ++ slash ∷ [])

abbrev pub or_empty : Option Bytes → Bytes
or_empty none = []
or_empty (some s) = s

unfoldable pub namespace : Bytes → Bytes
unfolding namespace_list_prefix
namespace prefix = or_empty (namespace_list_prefix prefix)

unfoldable pub namespace_contains : Bytes → Bytes → Bool
namespace_contains parent child = is_empty parent || starts_with child parent

unfoldable pub namespaces_overlap : Bytes → Bytes → Bool
unfolding namespace_contains
namespaces_overlap left right = namespace_contains left right || namespace_contains right left

-- The ladder over the two canonical forms.
unfoldable pub canonical_relation : Bytes → Bytes → NamespaceRelation
canonical_relation previous current =
    if bytes_eq previous current
    then same
    else if is_empty previous || starts_with current previous
    then previous_contains_current
    else if is_empty current || starts_with previous current
    then current_contains_previous
    else disjoint

unfoldable pub namespace_relation : Bytes → Bytes → NamespaceRelation
unfolding canonical_namespace canonical_relation
namespace_relation previous current =
    canonical_relation (canonical_namespace previous) (canonical_namespace current)

unfoldable pub key_is_excluded : Bytes → Option Bytes → Bool
key_is_excluded key none = false
key_is_excluded key (some excluded) = starts_with key excluded

-- aws-cdk:cr-owned
abbrev pub owner_tag_base : Bytes
owner_tag_base = bytes "aws-cdk:cr-owned"

abbrev pub colon : ℕ
colon = b':'

-- `s.rsplit_once(c)`: the parts before and after the last `c`.
unfoldable pub rsplit_once : Bytes → ℕ → Option (Bytes × Bytes)
rsplit_once [] c = none
rsplit_once (x ∷ s) c = elim (rsplit_once s c) [
  | some (before, after) ↦ some (x ∷ before, after)
  | none ↦ if x == c then some ([], s) else none
]

-- The `match suffix.rsplit_once(':')`.
unfoldable pub parse_owner_suffix : Bytes → Option (Bytes × Bytes)
unfolding rsplit_once
parse_owner_suffix suffix = elim (rsplit_once suffix colon) [
  | some (prefix, owner_id) ↦ if is_empty owner_id then none else some (prefix, owner_id)
  | none ↦ some ([], suffix)
]

unfoldable pub parse_owner_tag : Bytes → Option (Bytes × Bytes)
unfolding parse_owner_suffix
parse_owner_tag tag_key = elim (strip_prefix tag_key (owner_tag_base ++ colon ∷ [])) [
  | none ↦ none
  | some suffix ↦ if is_empty suffix then none else parse_owner_suffix suffix
]

-- `if let Some(excluded_prefix)`: the owner lies wholly in the excluded namespace.
unfoldable pub owner_is_excluded : Option Bytes → Bytes → Bool
unfolding namespace namespace_contains
owner_is_excluded none owner_namespace = false
owner_is_excluded (some excluded) owner_namespace =
    namespace_contains (namespace excluded) owner_namespace

-- The body of `owner_tag_overlaps_cleanup` after the tag is parsed.
unfoldable pub owner_overlaps : Bytes → Bytes → Bytes → Option Bytes → Bytes → Bool
unfolding namespace namespaces_overlap owner_is_excluded
owner_overlaps owner_prefix owner_id cleanup_prefix excluded_prefix current_owner_id =
    if bytes_eq current_owner_id owner_id
    then false
    else if not (namespaces_overlap (namespace owner_prefix) (namespace cleanup_prefix))
    then false
    else not (owner_is_excluded excluded_prefix (namespace owner_prefix))

unfoldable pub owner_tag_overlaps_cleanup : Bytes → Bytes → Option Bytes → Bytes → Bool
unfolding owner_overlaps parse_owner_tag
owner_tag_overlaps_cleanup tag_key cleanup_prefix excluded_prefix current_owner_id =
    elim (parse_owner_tag tag_key) [
      | none ↦ false
      | some (owner_prefix, owner_id) ↦
          owner_overlaps owner_prefix owner_id cleanup_prefix excluded_prefix current_owner_id
    ]

pub record BucketOwnerTags : Type 0 where
  pub keys : List Bytes

unfoldable pub has_competing_owner : BucketOwnerTags → Bytes → Option Bytes → Bytes → Bool
unfolding owner_tag_overlaps_cleanup
has_competing_owner tags prefix excluded_prefix current_owner_id =
    any (λ key. owner_tag_overlaps_cleanup key prefix excluded_prefix current_owner_id) tags.keys
