-- ===== src/ArchiveKey/Parts.antt =====
-- Splitting and joining at slashes undo each other (rust/src/request.rs).
use mathlib.Core.Path.{subst}
use shin_bucket_deployment.Prelude.{
  ==_iff, ℕ, List, [], ◌∷◌, ◌++◌, false, ◌==◌, ◌≡◌, refl, sym, ap, ◌∙◌, arith, Bytes, slash,
  contains, ||_false, Result, ok, err, All, Bool-cases, inl, inr,
}
use shin_bucket_deployment.ArchiveKey.{
  ArchiveKeyError, onto_first, split, join, is_skipped, is_parent, push_part, kept_parts,
}

-- There is a first part.
pub split_cons : (s : Bytes) → (part : Bytes) × (parts : List Bytes) × (split s ≡ part ∷ parts)
unfolding split
split_cons [] = ([], [], refl)
split_cons (x ∷ s) = elim (Bool-cases (x == slash)) [
  | inl e ↦ ([], split s, rw e refl)
  | inr e ↦ let (part, parts, k) = split_cons s in (x ∷ part, parts, rw e (rw k refl))
]

join-onto_first :
    (x : ℕ) (part : Bytes) (parts : List Bytes)
    → join ((x ∷ part) ∷ parts) ≡ x ∷ join (part ∷ parts)
unfolding join
join-onto_first x part [] = refl
join-onto_first x part (next ∷ parts) = refl

pub join-split : (s : Bytes) → join (split s) ≡ s
unfolding split join
join-split [] = refl
join-split (x ∷ s) =
    let (part, parts, k) = split_cons s in
    let j : join (part ∷ parts) ≡ s = ap join (sym k) ∙ join-split s in
    elim (Bool-cases (x == slash)) [
      | inl e ↦ rw (e, k) (ap (λ t. slash ∷ t) j ∙ ap (λ b. b ∷ s) (sym ((==_iff x slash).0 e)))
      | inr e ↦ rw (e, k) (join-onto_first x part parts ∙ ap (λ t. x ∷ t) j)
    ]

-- A part without slashes.
abbrev pub IsSolid : Bytes → Type 0
IsSolid part = contains part slash ≡ false

pub split-IsSolid : (s : Bytes) → All IsSolid (split s)
unfolding split
split-IsSolid [] = (refl, tt)
split-IsSolid (x ∷ s) = elim (Bool-cases (x == slash)) [
  | inl e ↦ rw e (refl, split-IsSolid s)
  | inr e ↦ rw e (onto_first-IsSolid x (split s) e (split-IsSolid s))
]
  where
    onto_first-IsSolid :
        (x : ℕ) (parts : List Bytes)
        → (x == slash) ≡ false
        → All IsSolid parts
        → All IsSolid (onto_first x parts)
    onto_first-IsSolid x [] e h = (ground arith, tt)
    onto_first-IsSolid x (part ∷ parts) e h = (ground (arith, h.0), h.1)

-- A part without slashes is split off at the slash that follows it.
split-solid_front : (part s : Bytes) → IsSolid part → split (part ++ slash ∷ s) ≡ part ∷ split s
unfolding split
split-solid_front [] s h = refl
split-solid_front (x ∷ part) s h =
    let (e, k) = ||_false (x == slash) (contains part slash) h in
    rw e (rw (split-solid_front part s k) refl)

split-solid : (part : Bytes) → IsSolid part → split part ≡ part ∷ []
unfolding split
split-solid [] h = refl
split-solid (x ∷ part) h =
    let (e, k) = ||_false (x == slash) (contains part slash) h in
    rw e (rw (split-solid part k) refl)

pub split-join :
    (part : Bytes) (parts : List Bytes)
    → All IsSolid (part ∷ parts)
    → split (join (part ∷ parts)) ≡ part ∷ parts
unfolding join
split-join part [] h = split-solid part h.0
split-join part (next ∷ parts) h =
    split-solid_front part (join (next ∷ parts)) h.0
    ∙ ap (λ ps. part ∷ ps) (split-join next parts h.1)

-- A part that the loop keeps.
pub record IsPlain (part : Bytes) : Type 0 where
  pub named : is_skipped part ≡ false
  pub no_parent : is_parent part ≡ false

push_part-eq-ok :
    (p : Bytes) (r : Result ArchiveKeyError (List Bytes)) {kept : List Bytes}
    → push_part p r ≡ ok kept
    → (ks : List Bytes) × (r ≡ ok ks) × (p ∷ ks ≡ kept)
push_part-eq-ok p (ok ks) h = (ks, refl, cc)
push_part-eq-ok p (err e) h = cc

pub kept_parts-IsPlain :
    (ps : List Bytes) {kept : List Bytes}
    → kept_parts ps ≡ ok kept
    → All IsSolid ps
    → All IsPlain kept × All IsSolid kept
unfolding kept_parts
kept_parts-IsPlain [] {kept = kept} h s =
    let d : [] ≡ kept = cc in subst (λ ks. All IsPlain ks × All IsSolid ks) d (tt, tt)
kept_parts-IsPlain (p ∷ ps) {kept = kept} h s = elim (Bool-cases (is_skipped p)) [
  | inl e ↦ kept_parts-IsPlain ps {kept = kept} (rw (e, kept_parts) at h) s.1
  | inr e ↦ elim (Bool-cases (is_parent p)) [
    | inl f ↦ let z = rw (e, f, kept_parts) at h in cc
    | inr f ↦
        let (ks, k, d) =
          push_part-eq-ok p (kept_parts ps) {kept = kept} (rw (e, f, kept_parts) at h) in
        let (plain, solid) = kept_parts-IsPlain ps {kept = ks} k s.1 in
        subst (λ ks. All IsPlain ks × All IsSolid ks) d
          ((record { named = e; no_parent = f }, plain), (s.0, solid))
  ]
]

pub kept_parts_id : (ps : List Bytes) → All IsPlain ps → kept_parts ps ≡ ok ps
unfolding kept_parts
kept_parts_id [] h = refl
kept_parts_id (p ∷ ps) h = rw (h.0.named) (rw (h.0.no_parent) (rw (kept_parts_id ps h.1)))
