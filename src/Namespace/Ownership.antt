-- ===== src/Namespace/Ownership.antt =====
-- Ownership tags: reading them back, and what a cleanup that finds no competing owner may touch
-- (rust/src/namespace.rs).
use shin_bucket_deployment.Prelude.{
  List, [], ◌∷◌, ◌++◌, Option, none, some, Bool, true, false, ◌≡◌, ◌≢◌, refl, inl, inr, arith,
  Bytes, bytes_eq→eq, starts_with, starts_with_total, starts_with_trans, contains, is_empty, any,
  In, here, there, ||_false,
}
use shin_bucket_deployment.Namespace.{
  namespace, namespace_contains, namespaces_overlap, owner_tag_base, colon, rsplit_once,
  parse_owner_suffix, parse_owner_tag, owner_is_excluded, owner_overlaps,
  owner_tag_overlaps_cleanup, BucketOwnerTags, has_competing_owner,
}
use shin_bucket_deployment.Namespace.Relation.{Covers}

rsplit_once-contains : (s : Bytes) (c : _) → contains s c ≡ false → rsplit_once s c ≡ none
unfolding rsplit_once
rsplit_once-contains [] c h = refl
rsplit_once-contains (x ∷ s) c h = ground (arith, rsplit_once-contains s c)

rsplit_once-append :
    (p s : Bytes) (c : _) → contains s c ≡ false → rsplit_once (p ++ c ∷ s) c ≡ some (p, s)
unfolding rsplit_once
rsplit_once-append [] s c h = ground (arith, rsplit_once-contains s c)
rsplit_once-append (x ∷ p) s c h = rw (rsplit_once-append p s c h, rsplit_once)

-- The tag key that the construct writes for a prefix and an owner: without a prefix, the owner id
-- follows at once (src/shin-bucket-deployment.ts).
abbrev pub owner_tag : Bytes → Bytes → Bytes
owner_tag [] owner_id = (owner_tag_base ++ colon ∷ []) ++ owner_id
owner_tag (x ∷ prefix) owner_id = (owner_tag_base ++ colon ∷ []) ++ (x ∷ prefix ++ colon ∷ owner_id)

-- Parsing the tag written for any prefix, empty or with colons, and a non-empty colon-free owner id
-- gives the two back.
pub parse_owner_tag-owner_tag :
    (prefix owner_id : Bytes)
    → contains owner_id colon ≡ false
    → is_empty owner_id ≡ false
    → parse_owner_tag (owner_tag prefix owner_id) ≡ some (prefix, owner_id)
unfolding parse_owner_tag
parse_owner_tag-owner_tag [] owner_id h e =
    rw e (rw (rsplit_once-contains owner_id colon h, parse_owner_suffix))
parse_owner_tag-owner_tag (x ∷ prefix) owner_id h e =
    rw (rsplit_once-append (x ∷ prefix) owner_id colon h, parse_owner_suffix) (rw e)

any-false {ℓ} :
    {A : Type ℓ} (p : A → Bool) (xs : List A) → any p xs ≡ false → {x : A} → In x xs → p x ≡ false
any-false p [] h m = elim m [ ]
any-false p (y ∷ xs) h (here e) = rw e (||_false (p y) (any p xs) h).0
any-false p (y ∷ xs) h (there m) = any-false p xs (||_false (p y) (any p xs) h).1 m

contains→Covers : (a b : Bytes) → namespace_contains a b ≡ true → Covers a b
unfolding namespace_contains
contains→Covers [] b h k g = refl
contains→Covers (x ∷ a) b h k g = starts_with_trans k b (x ∷ a) g h

overlap_of_common :
    (k a b : Bytes)
    → starts_with k a ≡ true
    → starts_with k b ≡ true
    → namespaces_overlap a b ≡ true
unfolding namespaces_overlap
overlap_of_common k [] b h g = refl
overlap_of_common k (x ∷ a) [] h g = ground arith
overlap_of_common k (x ∷ a) (y ∷ b) h g = elim (starts_with_total k (x ∷ a) (y ∷ b) h g) [
  | inl e ↦ ground arith
  | inr e ↦ rw e
]

-- An excluded prefix whose namespace holds the key.
abbrev pub ExcludedKey : Option Bytes → Bytes → Type 0
ExcludedKey none k = ⊥
ExcludedKey (some e) k = starts_with k (namespace e) ≡ true

owner_is_excluded→ExcludedKey :
    (excluded : Option Bytes) (ns k : Bytes)
    → owner_is_excluded excluded ns ≡ true
    → starts_with k ns ≡ true
    → ExcludedKey excluded k
unfolding owner_is_excluded
owner_is_excluded→ExcludedKey none ns k h g = cc
owner_is_excluded→ExcludedKey (some e) ns k h g = contains→Covers (namespace e) ns h k g

owner_overlaps_safe :
    (owner_prefix owner_id cleanup : Bytes) (excluded : Option Bytes) (current k : Bytes)
    → owner_overlaps owner_prefix owner_id cleanup excluded current ≡ false
    → current ≢ owner_id
    → starts_with k (namespace owner_prefix) ≡ true
    → starts_with k (namespace cleanup) ≡ true
    → ExcludedKey excluded k
unfolding owner_overlaps
owner_overlaps_safe op oid cleanup excluded current k h ne ko kc =
    owner_is_excluded→ExcludedKey excluded (namespace op) k
      (ground (
        arith,
        bytes_eq→eq current oid,
        overlap_of_common k (namespace op) (namespace cleanup) ko kc,
      ))
      ko

-- If no competing owner is found, then every key that lies both in the namespace to be cleaned and
-- in the namespace of another owner's tag on the bucket lies in the excluded namespace.
pub no_competing_owner_safe :
    (tags : BucketOwnerTags) (cleanup : Bytes) (excluded : Option Bytes) (current : Bytes)
    (tag owner_prefix owner_id k : Bytes)
    → has_competing_owner tags cleanup excluded current ≡ false
    → In tag tags.keys
    → parse_owner_tag tag ≡ some (owner_prefix, owner_id)
    → current ≢ owner_id
    → starts_with k (namespace owner_prefix) ≡ true
    → starts_with k (namespace cleanup) ≡ true
    → ExcludedKey excluded k
unfolding has_competing_owner
no_competing_owner_safe tags cleanup excluded current tag op oid k h m parsed ne ko kc =
    owner_overlaps_safe op oid cleanup excluded current k
      (rw (parsed, owner_tag_overlaps_cleanup) at
        (any-false (λ key. owner_tag_overlaps_cleanup key cleanup excluded current) tags.keys h m))
      ne ko kc
