-- ===== src/Tests/Streams.antt =====
-- A run of the marker replacement (rust/src/replace.rs), with a matcher for the one marker `ab`.
use mathlib.Core.Path.{subst}
use shin_bucket_deployment.Prelude.{
  ℕ, zero, suc, ◌<◌, List, [], ◌∷◌, Option, none, some, Bool, true, false, ◌≡◌, refl, ap, arith,
  Bytes, bytes, starts_with, ok, if◌then◌else◌, In, here, there, length, drop, inl, inr, Bool-cases,
  Option-cases,
}
use shin_bucket_deployment.Replace.{
  Match, Pairs, MarkerReplacements, OutputAccounting, ReplacementResult, replace_stream, write,
  flush_staging, finish, stable_end, replacement, new_accounting,
}
use shin_bucket_deployment.Replace.Spec.{NoMatch, Replaces, IsLeftmostLongest, IsMatcher}
use shin_bucket_deployment.Replace.Accounting.{IsReported, replace_stream-IsReported}
use shin_bucket_deployment.Replace.Stream.{concat, replace_stream-Replaces}

abbrev marker : Bytes
marker = bytes "ab"

abbrev the_pairs : Pairs
the_pairs = (marker, bytes "XYZ") ∷ []

abbrev shifted : Option Match → Option Match
shifted none = none
shifted (some f) = some (record { start = suc f.start; stop = suc f.stop; pattern = f.pattern })

abbrev find_marker : Bytes → Option Match
find_marker [] = none
find_marker (x ∷ s) =
    let rest = find_marker s in
    if starts_with (x ∷ s) marker
    then some (record { start = 0; stop = 2; pattern = 0 })
    else shifted rest

abbrev one_marker : MarkerReplacements
one_marker = record { pairs = the_pairs; find = find_marker; max_pattern_bytes = 2 }

only_marker : (q t : Bytes) → In (q, t) the_pairs → q ≡ marker
only_marker q t (here e) = ap (λ (x : Bytes × Bytes). x.0) e
only_marker q t (there m) = elim m [ ]

not_here : (s : Bytes) → starts_with s marker ≡ false → NoMatch the_pairs s
not_here s h q t known st = let e = only_marker q t known in let k = rw e at st in cc

shifted-none : (o : Option Match) → shifted o ≡ none → o ≡ none
shifted-none none h = refl
shifted-none (some f) h = cc

at_place :
    (x : ℕ) (s : Bytes)
    → starts_with (x ∷ s) marker ≡ false
    → ((i : ℕ) → NoMatch the_pairs (drop i s))
    → (i : ℕ) → NoMatch the_pairs (drop i (x ∷ s))
at_place x s e k zero = not_here (x ∷ s) e
at_place x s e k (suc i) = k i

before :
    (x : ℕ) (s : Bytes) (f : Match)
    → starts_with (x ∷ s) marker ≡ false
    → IsLeftmostLongest the_pairs s f
    → (i : ℕ) → i < suc f.start
    → NoMatch the_pairs (drop i (x ∷ s))
before x s f e l zero h = not_here (x ∷ s) e
before x s f e l (suc i) h = l.leftmost i (omega arith)

finds_none : (s : Bytes) → find_marker s ≡ none → (i : ℕ) → NoMatch the_pairs (drop i s)
finds_none [] h zero = not_here [] refl
finds_none [] h (suc i) = not_here [] refl
finds_none (x ∷ s) h i = elim (Bool-cases (starts_with (x ∷ s) marker)) [
  | inl e ↦ let k = rw (e, find_marker) at h in absurd cc
  | inr e ↦
      at_place x s e (finds_none s (shifted-none (find_marker s) (rw (e, find_marker) at h))) i
]

at_front :
    (x : ℕ) (s : Bytes)
    → starts_with (x ∷ s) marker ≡ true
    → IsLeftmostLongest the_pairs (x ∷ s) (record { start = 0; stop = 2; pattern = 0 })
at_front x s e = record {
  marker = marker;
  value = bytes "XYZ";
  known = here refl;
  numbered = unfold replacement in refl;
  inside = omega arith;
  stands = e;
  stops = refl;
  leftmost = λ i h. absurd (omega arith);
  longest = λ q t known _. let k = ap length (only_marker q t known) in omega (arith, k);
}

further :
    (x : ℕ) (s : Bytes) (f : Match)
    → starts_with (x ∷ s) marker ≡ false
    → IsLeftmostLongest the_pairs s f
    → IsLeftmostLongest the_pairs
        (x ∷ s)
        (record { start = suc f.start; stop = suc f.stop; pattern = f.pattern })
further x s f e l = record {
  marker = l.marker;
  value = l.value;
  known = l.known;
  numbered = l.numbered;
  inside = let i = l.inside in omega (arith, i);
  stands = l.stands;
  stops = let i = l.stops in omega (arith, i);
  leftmost = λ i h. before x s f e l i h;
  longest = l.longest;
}

finds_some :
    (s : Bytes) (found : Match) → find_marker s ≡ some found → IsLeftmostLongest the_pairs s found
finds_some [] found h = cc
finds_some (x ∷ s) found h = elim (Bool-cases (starts_with (x ∷ s) marker)) [
  | inl e ↦
      let k = rw (e, find_marker) at h in
      let d : record { start = 0; stop = 2; pattern = 0 } ≡ found = cc in
      subst (λ y. IsLeftmostLongest the_pairs (x ∷ s) y) d (at_front x s e)
  | inr e ↦
      let k = rw (e, find_marker) at h in
      elim (Option-cases (find_marker s)) [
        | inl n ↦ let z = rw n at k in absurd cc
        | inr (f, n) ↦
            let z = rw n at k in
            let d : record { start = suc f.start; stop = suc f.stop; pattern = f.pattern } ≡ found =
              cc in
            subst (λ y. IsLeftmostLongest the_pairs (x ∷ s) y) d
              (further x s f e (finds_some s f n))
      ]
]

one_marker-IsMatcher : IsMatcher one_marker
one_marker-IsMatcher = record {
  nonempty = λ q t known. let k = ap length (only_marker q t known) in omega (arith, k);
  bounded = λ q t known. let k = ap length (only_marker q t known) in omega (arith, k);
  finds_none = finds_none;
  finds_some = finds_some;
}

abbrev accept : List Bytes → Bool
accept seen = true

abbrev the_result : ReplacementResult
the_result = record { output_bytes = 6; md5 = bytes "cXYZca" }

abbrev the_account : OutputAccounting
the_account = record {
  max_output_bytes = 100;
  output_bytes = 6;
  md5 = bytes "cXYZca";
  staging = [];
  output = bytes "cXYZca";
}

-- The marker is cut by the boundary of the two chunks.
cut_marker :
    replace_stream one_marker accept (bytes "ca" ∷ bytes "bca" ∷ []) 100
    ≡ ok (the_result, the_account)
unfolding replace_stream write flush_staging finish stable_end replacement new_accounting
cut_marker = refl

replace_stream-IsReported_example : IsReported 100 the_result the_account
replace_stream-IsReported_example =
    replace_stream-IsReported one_marker accept (bytes "ca" ∷ bytes "bca" ∷ []) 100 the_result
      the_account cut_marker

replace_stream-Replaces_example :
    Replaces the_pairs (concat (bytes "ca" ∷ bytes "bca" ∷ [])) (bytes "cXYZca")
replace_stream-Replaces_example =
    replace_stream-Replaces one_marker accept (bytes "ca" ∷ bytes "bca" ∷ []) 100 the_result
      the_account one_marker-IsMatcher cut_marker
