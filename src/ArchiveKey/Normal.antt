-- ===== src/ArchiveKey/Normal.antt =====
-- What a normalized key is, and that the shortcut changes nothing (rust/src/request.rs).
use mathlib.Core.Path.{subst}
use shin_bucket_deployment.Prelude.{
  ℕ, List, [], ◌∷◌, true, false, ◌==◌, ◌≡◌, ◌↔◌, any, bytes_eq→eq, refl, sym, ap, ◌∙◌, arith, Bytes,
  bytes, is_empty, slash, ends_with, contains, ||_false, Result, ok, err, ◌>>=◌, >>=-eq-ok, All,
  Bool-cases, inl, inr,
}
use shin_bucket_deployment.ArchiveKey.{
  ArchiveKeyError, path_traversal, backslash, replace_backslashes, onto_first, split, join, joined,
  is_skipped, is_parent, push_part, kept_parts, normalize_owned, contains_double_slash,
  no_dot_parts, is_canonical_archive_key, normalize_archive_key,
}
use shin_bucket_deployment.ArchiveKey.Parts.{
  join-split, split-join, IsSolid, split-IsSolid, IsPlain, kept_parts-IsPlain, kept_parts_id,
  split_cons,
}

replace_backslashes-none : (s : Bytes) → contains s backslash ≡ false → replace_backslashes s ≡ s
replace_backslashes-none [] h = refl
replace_backslashes-none (x ∷ s) h =
    let (e, k) = ||_false (x == backslash) (contains s backslash) h in
    rw e (rw (replace_backslashes-none s k) refl)

-- Between slashes that do not stand together, and at neither end, no part is empty.
abbrev Named : Bytes → Type 0
Named part = is_empty part ≡ false

onto_first-Named : (x : ℕ) (ps : List Bytes) → All Named ps → All Named (onto_first x ps)
onto_first-Named x [] h = (refl, tt)
onto_first-Named x (p ∷ ps) h = (refl, h.1)

split-Named :
    (x : ℕ) (s : Bytes)
    → (x == slash) ≡ false
    → ends_with (x ∷ s) slash ≡ false
    → contains_double_slash (x ∷ s) ≡ false
    → All Named (split (x ∷ s))
unfolding split contains_double_slash
split-Named x [] h e d = rw h (refl, tt)
split-Named x (y ∷ []) h e d = elim (Bool-cases (y == slash)) [
  | inl k ↦ absurd (ground (arith, k))
  | inr k ↦ rw (h, k) (refl, tt)
]
split-Named x (y ∷ z ∷ s) h e d = elim (Bool-cases (y == slash)) [
  | inl k ↦ rw (h, k) (refl, split-Named z s (ground (arith, k)) e (ground arith))
  | inr k ↦ rw h (onto_first-Named x (split (y ∷ z ∷ s)) (split-Named y (z ∷ s) k e (ground arith)))
]

Named→IsPlain : (ps : List Bytes) → All Named ps → no_dot_parts ps ≡ true → All IsPlain ps
unfolding no_dot_parts
Named→IsPlain [] h d = tt
Named→IsPlain (p ∷ ps) h d = (
  record { named = ground (arith, h.0); no_parent = ground arith },
  Named→IsPlain ps h.1 (ground arith),
)

canonical-IsPlain : (s : Bytes) → is_canonical_archive_key s ≡ true → All IsPlain (split s)
unfolding is_canonical_archive_key
canonical-IsPlain [] h = cc
canonical-IsPlain (x ∷ s) h =
    Named→IsPlain (split (x ∷ s)) (split-Named x s (ground arith) (ground arith) (ground arith))
      (ground arith)

-- A key whose parts are all kept is its own normal form.
plain_normal :
    (s : Bytes) → contains s backslash ≡ false → All IsPlain (split s) → normalize_owned s ≡ ok s
unfolding normalize_owned
plain_normal s h p =
    let (part, parts, k) = split_cons s in
    rw (replace_backslashes-none s h)
      (rw (kept_parts_id (split s) p) (rw k (ap ok (ap join (sym k) ∙ join-split s))))

canonical_normal : (s : Bytes) → is_canonical_archive_key s ≡ true → normalize_owned s ≡ ok s
canonical_normal s h =
    plain_normal s (unfold is_canonical_archive_key in ground arith) (canonical-IsPlain s h)

-- The shortcut for canonical keys gives what the full normalization gives, for every key.
pub normalize_archive_key-eq-owned : (raw : Bytes) → normalize_archive_key raw ≡ normalize_owned raw
unfolding normalize_archive_key
normalize_archive_key-eq-owned raw = elim (Bool-cases (is_canonical_archive_key raw)) [
  | inl e ↦ rw e (sym (canonical_normal raw e))
  | inr e ↦ rw e refl
]

joined-IsPlain :
    (kept : List Bytes) {key : Bytes}
    → joined kept ≡ ok key
    → All IsPlain kept
    → All IsSolid kept
    → All IsPlain (split key)
joined-IsPlain [] h p s = cc
joined-IsPlain (part ∷ parts) {key = key} h p s =
    let d : join (part ∷ parts) ≡ key = cc in
    subst (λ k. All IsPlain (split k)) d (rw (split-join part parts s) p)

-- A normalized key cannot leave its destination or name it twice: none of its parts is empty, a dot
-- or two dots.
pub normalize_archive_key-IsPlain :
    (raw key : Bytes) → normalize_archive_key raw ≡ ok key → All IsPlain (split key)
normalize_archive_key-IsPlain raw key h =
    let (kept, e, k) =
      >>=-eq-ok (kept_parts (split (replace_backslashes raw))) joined {b = key}
        (unfold normalize_owned in sym (normalize_archive_key-eq-owned raw) ∙ h) in
    let (plain, solid) =
      kept_parts-IsPlain (split (replace_backslashes raw)) {kept = kept} e
        (split-IsSolid (replace_backslashes raw)) in
    joined-IsPlain kept k plain solid

parent_not_skipped : (p : Bytes) → is_parent p ≡ true → is_skipped p ≡ false
parent_not_skipped p h = rw (bytes_eq→eq p (bytes "..") h) refl

push_part-traversal :
    (p : Bytes) (r : Result ArchiveKeyError (List Bytes))
    → push_part p r ≡ err path_traversal
    → r ≡ err path_traversal
push_part-traversal p (ok ks) h = cc
push_part-traversal p (err e) h = cc

kept_parts-traversal :
    (ps : List Bytes) → kept_parts ps ≡ err path_traversal → any is_parent ps ≡ true
unfolding kept_parts
kept_parts-traversal [] h = cc
kept_parts-traversal (p ∷ ps) h = elim (Bool-cases (is_parent p)) [
  | inl f ↦ rw f refl
  | inr f ↦ rw f (elim (Bool-cases (is_skipped p)) [
    | inl e ↦ kept_parts-traversal ps (rw (e, kept_parts) at h)
    | inr e ↦
        kept_parts-traversal ps (push_part-traversal p (kept_parts ps) (rw (e, f, kept_parts) at h))
  ])
]

traversal-kept_parts :
    (ps : List Bytes) → any is_parent ps ≡ true → kept_parts ps ≡ err path_traversal
unfolding kept_parts
traversal-kept_parts [] h = cc
traversal-kept_parts (p ∷ ps) h = elim (Bool-cases (is_parent p)) [
  | inl f ↦ rw (parent_not_skipped p f) (rw f refl)
  | inr f ↦
      let k = rw f at h in
      elim (Bool-cases (is_skipped p)) [
        | inl e ↦ rw e (traversal-kept_parts ps k)
        | inr e ↦ rw e (rw f (rw (traversal-kept_parts ps k) refl))
      ]
]

joined_no_traversal :
    (kept : Result ArchiveKeyError (List Bytes))
    → (kept >>= joined) ≡ err path_traversal
    → kept ≡ err path_traversal
joined_no_traversal (ok []) h = cc
joined_no_traversal (ok (p ∷ ps)) h = cc
joined_no_traversal (err e) h = cc

-- A key is refused as a traversal exactly when two dots stand between slashes of either kind.
pub normalize_archive_key-traversal :
    (raw : Bytes)
    → (normalize_archive_key raw ≡ err path_traversal)
      ↔ (any is_parent (split (replace_backslashes raw)) ≡ true)
normalize_archive_key-traversal raw = (
  (λ h. kept_parts-traversal (split (replace_backslashes raw)) (
      joined_no_traversal (kept_parts (split (replace_backslashes raw)))
        (unfold normalize_owned in sym (normalize_archive_key-eq-owned raw) ∙ h))),
  (λ h.
      normalize_archive_key-eq-owned raw
      ∙ (unfold normalize_owned in
          rw (traversal-kept_parts (split (replace_backslashes raw)) h) refl)),
)
