-- ===== src/Cloudfront/Texts.antt =====
-- What the tests on invalidation paths look for, said by the texts themselves
-- (rust/src/cloudfront.rs).
use mathlib.Core.Path.{subst}
use shin_bucket_deployment.Prelude.{
  ℕ, suc, ◌+◌, ◌-◌, length, ◌&&◌, ◌≤◌, ◌<◌, List, [], ◌∷◌, ◌++◌, Bool, true, false, ◌≡◌, ◌≢◌, ◌↔◌,
  ◌⊎◌, inl, inr, refl, sym, arith, Bytes, ◌||◌, contains, ends_with, ltb, leb, ◌==◌, Bool-cases,
  ends_with-append, ap,
}
use shin_bucket_deployment.Cloudfront.{
  wildcard_count, char_count, has_control, has_encoded_tilde, contains_unsupported_tilde, star,
}

-- A text begins with another, or its rest holds it.
pub data Occurs (needle : Bytes) : Bytes → Type 0 where
  now : {s : Bytes} (after : Bytes) → s ≡ needle ++ after → Occurs needle s
  later : {x : ℕ} {s : Bytes} → Occurs needle s → Occurs needle (x ∷ s)

abbrev pub Within : (Bytes → Type 0) → Bytes → Type 0
Within P s = (needle : Bytes) × P needle × Occurs needle s

Within-later : (P : Bytes → Type 0) (x : ℕ) (s : Bytes) → Within P s → Within P (x ∷ s)
Within-later P x s (needle, p, o) = (needle, p, later o)

-- A tilde, or its escape with a digit of either case.
pub data IsTilde : Bytes → Type 0 where
  plain : IsTilde (b'~' ∷ [])
  lower : IsTilde (b'%' ∷ b'7' ∷ b'e' ∷ [])
  upper : IsTilde (b'%' ∷ b'7' ∷ b'E' ∷ [])

-- The UTF-8 form of a control character: U+0000 to U+001F, U+007F, and U+0080 to U+009F.
pub data IsControl : Bytes → Type 0 where
  low : {b : ℕ} → b < 0x20 → IsControl (b ∷ [])
  rubout : IsControl (0x7f ∷ [])
  high : {c : ℕ} → c < 0xa0 → IsControl (0xc2 ∷ c ∷ [])

-- A test that is right when it is true, and true when it should be, is right when it is false.
pub refutes : {P : Type 0} (b : Bool) → (b ≡ true → P) → (P → b ≡ true) → (b ≡ false) ↔ (P → ⊥)
refutes true f g = ((λ h. cc), (λ n. absurd (n (f refl))))
refutes false f g = ((λ h p. let e : false ≡ true = g p in cc), (λ n. refl))

contains-Within : (s : Bytes) → contains s b'~' ≡ true → Within IsTilde s
contains-Within [] h = cc
contains-Within (x ∷ s) h = elim (Bool-cases (x == b'~')) [
  | inl e ↦ let f : x ≡ b'~' = ground arith in (b'~' ∷ [], plain, now s (ap (λ y. y ∷ s) f))
  | inr e ↦ Within-later IsTilde x s (contains-Within s (ground (arith, h)))
]

has_encoded_tilde-Within : (s : Bytes) → has_encoded_tilde s ≡ true → Within IsTilde s
unfolding has_encoded_tilde
has_encoded_tilde-Within [] h = cc
has_encoded_tilde-Within (a ∷ []) h = cc
has_encoded_tilde-Within (a ∷ b ∷ []) h = cc
has_encoded_tilde-Within (a ∷ b ∷ c ∷ s) h = elim (Bool-cases (has_encoded_tilde (b ∷ c ∷ s))) [
  | inl e ↦ Within-later IsTilde a (b ∷ c ∷ s) (has_encoded_tilde-Within (b ∷ c ∷ s) e)
  | inr e ↦
      let x : a ≡ b'%' = ground (arith, h) in
      let y : b ≡ b'7' = ground (arith, h) in
      elim (Bool-cases (c == b'e')) [
        | inl f ↦
            let z : c ≡ b'e' = ground arith in
            (b'%' ∷ b'7' ∷ b'e' ∷ [], lower, now s (rw (x, y, z) refl))
        | inr f ↦
            let z : c ≡ b'E' = ground (arith, h) in
            (b'%' ∷ b'7' ∷ b'E' ∷ [], upper, now s (rw (x, y, z) refl))
      ]
]

later_encoded : (a : ℕ) (s : Bytes) → has_encoded_tilde s ≡ true → has_encoded_tilde (a ∷ s) ≡ true
unfolding has_encoded_tilde
later_encoded a [] h = h
later_encoded a (b ∷ []) h = h
later_encoded a (b ∷ c ∷ s) h = ground (arith, h)

tilde_found :
    (s needle : Bytes)
    → IsTilde needle
    → Occurs needle s
    → (contains s b'~' ≡ true) ⊎ (has_encoded_tilde s ≡ true)
unfolding has_encoded_tilde
tilde_found [] _ plain (now after e) = cc
tilde_found [] _ lower (now after e) = cc
tilde_found [] _ upper (now after e) = cc
tilde_found (a ∷ s) needle p (later o) = elim (tilde_found s needle p o) [
  | inl e ↦ inl (ground (arith, e))
  | inr e ↦ inr (later_encoded a s e)
]
tilde_found (a ∷ s) _ plain (now after e) = let f : a ≡ b'~' = cc in inl (ground (arith, f))
tilde_found (a ∷ s) _ lower (now after e) =
    inr (subst (λ x. has_encoded_tilde x ≡ true) (sym e) refl)
tilde_found (a ∷ s) _ upper (now after e) =
    inr (subst (λ x. has_encoded_tilde x ≡ true) (sym e) refl)

-- The test finds exactly a tilde or an escape of one.
pub contains_unsupported_tilde-Within :
    (s : Bytes) → (contains_unsupported_tilde s ≡ false) ↔ (Within IsTilde s → ⊥)
unfolding contains_unsupported_tilde
contains_unsupported_tilde-Within s =
    refutes (contains s b'~' || has_encoded_tilde s)
      (λ h. elim (Bool-cases (contains s b'~')) [
        | inl e ↦ contains-Within s e
        | inr e ↦ has_encoded_tilde-Within s (ground (arith, h))
      ])
      (λ (needle, p, o). elim (tilde_found s needle p o) [
        | inl e ↦ ground (arith, e)
        | inr e ↦ ground (arith, e)
      ])

has_control-Within : (s : Bytes) → has_control s ≡ true → Within IsControl s
unfolding has_control
has_control-Within [] h = cc
has_control-Within (b ∷ []) h = elim (Bool-cases (ltb b 0x20)) [
  | inl e ↦ (b ∷ [], low (ground arith), now [] refl)
  | inr e ↦ let f : b ≡ 0x7f = ground (arith, h) in (0x7f ∷ [], rubout, now [] (ap (λ y. y ∷ []) f))
]
has_control-Within (b ∷ c ∷ s) h = elim (Bool-cases (ltb b 0x20)) [
  | inl e ↦ (b ∷ [], low (ground arith), now (c ∷ s) refl)
  | inr e ↦ elim (Bool-cases (b == 0x7f)) [
    | inl f ↦
        let g : b ≡ 0x7f = ground arith in (0x7f ∷ [], rubout, now (c ∷ s) (ap (λ y. y ∷ c ∷ s) g))
    | inr f ↦ elim (Bool-cases (has_control (c ∷ s))) [
      | inl g ↦ Within-later IsControl b (c ∷ s) (has_control-Within (c ∷ s) g)
      | inr g ↦
          let k : b ≡ 0xc2 = ground (arith, h) in
          (0xc2 ∷ c ∷ [], high (ground (arith, h)), now s (ap (λ y. y ∷ c ∷ s) k))
    ]
  ]
]

control_found : (s needle : Bytes) → IsControl needle → Occurs needle s → has_control s ≡ true
unfolding has_control
control_found [] _ (low l) (now after e) = cc
control_found [] _ rubout (now after e) = cc
control_found [] _ (high l) (now after e) = cc
control_found (b ∷ []) needle p (later o) = let h = control_found [] needle p o in cc
control_found (b ∷ []) _ (low {b = x} l) (now after e) = let f : b ≡ x = cc in ground (arith, f, l)
control_found (b ∷ []) _ rubout (now after e) = let f : b ≡ 0x7f = cc in ground (arith, f)
control_found (b ∷ []) _ (high l) (now after e) = cc
control_found (b ∷ c ∷ s) needle p (later o) =
    let h = control_found (c ∷ s) needle p o in rw h (ground arith)
control_found (b ∷ c ∷ s) _ (low {b = x} l) (now after e) =
    let f : b ≡ x = cc in ground (arith, f, l)
control_found (b ∷ c ∷ s) _ rubout (now after e) = let f : b ≡ 0x7f = cc in ground (arith, f)
control_found (b ∷ c ∷ s) _ (high {c = x} l) (now after e) =
    let f : b ≡ 0xc2 = cc in let g : c ≡ x = cc in ground (arith, f, g, l)

-- The test finds exactly the control characters.
pub has_control-Within_iff : (s : Bytes) → (has_control s ≡ false) ↔ (Within IsControl s → ⊥)
has_control-Within_iff s =
    refutes (has_control s) (has_control-Within s) (λ (needle, p, o). control_found s needle p o)

-- A text of so many characters: bytes 0x80 to 0xBF continue one, and any other begins one.
pub data HasCharacters : ℕ → Bytes → Type 0 where
  ended : HasCharacters 0 []
  continued :
      {n b : ℕ} {s : Bytes} → 0x80 ≤ b → b < 0xc0 → HasCharacters n s → HasCharacters n (b ∷ s)
  begun :
      {n b : ℕ} {s : Bytes}
      → (b < 0x80) ⊎ (0xc0 ≤ b)
      → HasCharacters n s
      → HasCharacters (suc n) (b ∷ s)

-- Among paths, so many end with a star and so many do not.
pub data HasWildcards : ℕ → ℕ → List Bytes → Type 0 where
  none_left : HasWildcards 0 0 []
  exact :
      {n w : ℕ} {p : Bytes} {ps : List Bytes}
      → ((before : Bytes) → p ≢ before ++ star ∷ [])
      → HasWildcards n w ps
      → HasWildcards (suc n) w (p ∷ ps)
  wildcard :
      {n w : ℕ} {ps : List Bytes} (before : Bytes)
      → HasWildcards n w ps
      → HasWildcards n (suc w) ((before ++ star ∷ []) ∷ ps)

pub char_count-HasCharacters : (s : Bytes) → HasCharacters (char_count s) s
unfolding char_count
char_count-HasCharacters [] = ended
char_count-HasCharacters (b ∷ s) = elim (Bool-cases (leb 0x80 b && ltb b 0xc0)) [
  | inl e ↦
      let n : char_count s ≡ char_count (b ∷ s) = rw e (omega arith) in
      subst (λ x. HasCharacters x (b ∷ s)) n
        (continued (ground (arith, e)) (ground (arith, e)) (char_count-HasCharacters s))
  | inr e ↦
      let f : (b < 0x80) ⊎ (0xc0 ≤ b) = ground (arith, e) in
      let n : suc (char_count s) ≡ char_count (b ∷ s) = rw e (omega arith) in
      subst (λ x. HasCharacters x (b ∷ s)) n (begun f (char_count-HasCharacters s))
]

pub HasCharacters-char_count : (n : ℕ) (s : Bytes) → HasCharacters n s → n ≡ char_count s
unfolding char_count
HasCharacters-char_count _ _ ended = refl
HasCharacters-char_count _ _ (continued {n} {b} {s} l h c) =
    let r = HasCharacters-char_count n s c in ground (arith, l, h, r)
HasCharacters-char_count _ _ (begun {n} {b} {s} (inl l) c) =
    let r = HasCharacters-char_count n s c in ground (arith, l, r)
HasCharacters-char_count _ _ (begun {n} {b} {s} (inr l) c) =
    let r = HasCharacters-char_count n s c in ground (arith, l, r)

ends_with→append : (s : Bytes) (c : ℕ) → ends_with s c ≡ true → (t : Bytes) × (t ++ c ∷ [] ≡ s)
ends_with→append [] c h = cc
ends_with→append (x ∷ []) c h = let e : x ≡ c = ground arith in ([], ap (λ y. y ∷ []) (sym e))
ends_with→append (x ∷ y ∷ s) c h =
    let (t, e) = ends_with→append (y ∷ s) c h in (x ∷ t, ap (λ z. x ∷ z) e)

pub wildcard_count-le-length : (ps : List Bytes) → wildcard_count ps ≤ length ps
unfolding wildcard_count
wildcard_count-le-length [] = omega arith
wildcard_count-le-length (p ∷ ps) = ground (arith, wildcard_count-le-length ps)

placed :
    {n m w v : ℕ} {ps qs : List Bytes}
    → n ≡ m
    → w ≡ v
    → ps ≡ qs
    → HasWildcards n w ps
    → HasWildcards m v qs
placed e f g k = subst (λ x. x) (λ i. HasWildcards (e i) (f i) (g i)) k

pub wildcard_count-HasWildcards :
    (ps : List Bytes) → HasWildcards (length ps - wildcard_count ps) (wildcard_count ps) ps
unfolding wildcard_count
wildcard_count-HasWildcards [] = none_left
wildcard_count-HasWildcards (p ∷ ps) =
    let l = wildcard_count-le-length ps in
    elim (Bool-cases (ends_with p star)) [
      | inl e ↦
          let (t, f) = ends_with→append p star e in
          let c : suc (wildcard_count ps) ≡ wildcard_count (p ∷ ps) = rw e (omega arith) in
          placed (omega (arith, c)) c (ap (λ x. x ∷ ps) f)
            (wildcard t (wildcard_count-HasWildcards ps))
      | inr e ↦
          let c : wildcard_count ps ≡ wildcard_count (p ∷ ps) = rw e (omega arith) in
          placed (omega (arith, c, l)) c refl (
            exact
              (λ t f.
                let g = ends_with-append t star in let h : ends_with p star ≡ true = rw f g in cc)
              (wildcard_count-HasWildcards ps))
    ]

pub HasWildcards-wildcard_count :
    (n w : ℕ) (ps : List Bytes)
    → HasWildcards n w ps
    → (w ≡ wildcard_count ps) × (n + w ≡ length ps)
unfolding wildcard_count
HasWildcards-wildcard_count _ _ _ none_left = (refl, refl)
HasWildcards-wildcard_count _ _ _ (exact {n} {w} {p} {ps} ne k) =
    let (a, b) = HasWildcards-wildcard_count n w ps k in
    elim (Bool-cases (ends_with p star)) [
      | inl e ↦ let (t, f) = ends_with→append p star e in absurd (ne t (sym f))
      | inr e ↦ rw e (omega (arith, a), omega (arith, b))
    ]
HasWildcards-wildcard_count _ _ _ (wildcard {n} {w} {ps} before k) =
    let (a, b) = HasWildcards-wildcard_count n w ps k in
    rw (ends_with-append before star) (omega (arith, a), omega (arith, b))
