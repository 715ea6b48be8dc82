-- ===== src/Cloudfront/Paths.antt =====
-- What the accepted invalidation paths satisfy (rust/src/cloudfront.rs).
use mathlib.Core.Path.{subst}
use shin_bucket_deployment.Prelude.{
  ℕ, ◌+◌, ◌-◌, ◌≤◌, List, [], ◌∷◌, true, false, ◌≡◌, ◌≢◌, ◌↔◌, refl, sym, arith, Bytes, starts_with,
  is_empty, length, slash, All, ok, starts_with→append,
}
use shin_bucket_deployment.Cloudfront.{
  wildcard_count, char_count, validate_path, validate_each, validate_invalidation_paths,
}
use shin_bucket_deployment.Cloudfront.Texts.{
  Within, IsTilde, IsControl, HasCharacters, HasWildcards, contains_unsupported_tilde-Within,
  has_control-Within_iff, char_count-HasCharacters, HasCharacters-char_count,
  wildcard_count-HasWildcards, HasWildcards-wildcard_count,
}

-- A path that CloudFront takes.
pub record IsValidPath (path : Bytes) : Type 0 where
  pub rest : Bytes
  pub slashed : path ≡ slash ∷ rest
  pub characters : ℕ
  pub counted : HasCharacters characters path
  pub short : characters ≤ 4000
  pub clean : Within IsControl path → ⊥
  pub tildeless : Within IsTilde path → ⊥

-- A list of paths that fits one request.
pub record IsValidRequest (paths : List Bytes) : Type 0 where
  pub nonempty : paths ≢ []
  pub exact_paths : ℕ
  pub wildcards : ℕ
  pub counted : HasWildcards exact_paths wildcards paths
  pub few : exact_paths ≤ 3000
  pub few_wildcards : wildcards ≤ 15
  pub each : All IsValidPath paths

validate_path_sound : (p : Bytes) → validate_path p ≡ ok tt → IsValidPath p
unfolding validate_path
validate_path_sound p h =
    let (rest, e) = starts_with→append p (slash ∷ []) (ground arith) in
    record {
      rest = rest;
      slashed = e;
      characters = char_count p;
      counted = char_count-HasCharacters p;
      short = ground arith;
      clean = (has_control-Within_iff p).0 (ground arith);
      tildeless = (contains_unsupported_tilde-Within p).0 (ground arith);
    }

validate_path_complete : (p : Bytes) → IsValidPath p → validate_path p ≡ ok tt
unfolding validate_path
validate_path_complete p v =
    let s : starts_with p (slash ∷ []) ≡ true =
      subst (λ x. starts_with x (slash ∷ []) ≡ true) (sym v.slashed) refl in
    let n = HasCharacters-char_count v.characters p v.counted in
    let c = (has_control-Within_iff p).1 v.clean in
    let t = (contains_unsupported_tilde-Within p).1 v.tildeless in
    let l = v.short in ground (arith, s, n, c, t, l)

validate_each_sound : (i : ℕ) (ps : List Bytes) → validate_each i ps ≡ ok tt → All IsValidPath ps
unfolding validate_each
validate_each_sound i [] h = tt
validate_each_sound i (p ∷ ps) h =
    (validate_path_sound p (ground arith), validate_each_sound (i + 1) ps (ground arith))

validate_each_complete : (i : ℕ) (ps : List Bytes) → All IsValidPath ps → validate_each i ps ≡ ok tt
unfolding validate_each
validate_each_complete i [] v = refl
validate_each_complete i (p ∷ ps) v =
    rw (validate_path_complete p v.0) (validate_each_complete (i + 1) ps v.1)

not_empty : (paths : List Bytes) → is_empty paths ≡ false → paths ≢ []
not_empty [] h = cc
not_empty (p ∷ ps) h = λ e. cc

is_empty-false : (paths : List Bytes) → paths ≢ [] → is_empty paths ≡ false
is_empty-false [] h = absurd (h refl)
is_empty-false (p ∷ ps) h = refl

-- The paths of a request are accepted, with their number as its quantity, exactly when there is one
-- at least, at most 3000 do not end with a star, at most 15 do, and each begins with a slash, has at
-- most 4000 characters, and holds no control character, no tilde and no escaped tilde, with a hex
-- digit of either case.
pub validate_invalidation_paths_iff :
    (paths : List Bytes)
    → (validate_invalidation_paths paths ≡ ok (length paths)) ↔ IsValidRequest paths
unfolding validate_invalidation_paths
validate_invalidation_paths_iff paths = (
  (λ h. record {
    nonempty = not_empty paths (ground arith);
    exact_paths = length paths - wildcard_count paths;
    wildcards = wildcard_count paths;
    counted = wildcard_count-HasWildcards paths;
    few = ground arith;
    few_wildcards = ground arith;
    each = validate_each_sound 1 paths (ground arith);
  }),
  (λ v.
      let n = is_empty-false paths v.nonempty in
      let (w, s) = HasWildcards-wildcard_count v.exact_paths v.wildcards paths v.counted in
      let a = v.few in
      let b = v.few_wildcards in
      rw (validate_each_complete 1 paths v.each) (ground (arith, n, w, s, a, b))),
)
