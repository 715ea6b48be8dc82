-- ===== src/Prelude/Text.antt =====
-- Texts and keys as lists of UTF-8 bytes, with the operations of `str` that the program uses.
use mathlib.Core.Path.{◌≡◌, refl}
use mathlib.Core.Logic.{◌↔◌, ◌⊎◌, inl, inr}
use mathlib.Core.Bool.{Bool, true, false, ◌&&◌, ◌||◌}
use mathlib.Core.Option.{Option, none, some}
use mathlib.Core.List.{List, [], ◌∷◌, ◌++◌}
use Prim.Native.Nat.{ℕ}
use Prim.Native.Char.{code}
use Prim.Native.String.{String}
use native.Mathlib.Omega.{arith}
use shin_bucket_deployment.Prelude.Tests.{◌==◌, ==_iff, Bool-cases, &&_true, if◌then◌else◌}

abbrev pub Bytes : Type 0
Bytes = List ℕ

-- The bytes of an ASCII literal.
abbrev pub bytes : String → Bytes
bytes String.[] = []
bytes (String.◌∷◌ c s) = code c ∷ bytes s

abbrev pub slash : ℕ
slash = b'/'

-- `a == b` on strings.
abbrev pub bytes_eq : Bytes → Bytes → Bool
bytes_eq [] [] = true
bytes_eq [] (y ∷ ys) = false
bytes_eq (x ∷ xs) [] = false
bytes_eq (x ∷ xs) (y ∷ ys) = x == y && bytes_eq xs ys

-- `s.starts_with(p)`.
abbrev pub starts_with : Bytes → Bytes → Bool
starts_with s [] = true
starts_with [] (p ∷ ps) = false
starts_with (x ∷ s) (p ∷ ps) = x == p && starts_with s ps

-- `s.strip_prefix(p)`.
abbrev pub strip_prefix : Bytes → Bytes → Option Bytes
strip_prefix s [] = some s
strip_prefix [] (p ∷ ps) = none
strip_prefix (x ∷ s) (p ∷ ps) = let rest = strip_prefix s ps in if x == p then rest else none

-- `s.ends_with(c)` for a one-byte character.
abbrev pub ends_with : Bytes → ℕ → Bool
ends_with [] c = false
ends_with (x ∷ []) c = x == c
ends_with (x ∷ y ∷ s) c = ends_with (y ∷ s) c

-- `s.contains(c)` for a one-byte character.
abbrev pub contains : Bytes → ℕ → Bool
contains [] c = false
contains (x ∷ s) c = x == c || contains s c

pub bytes_eq→eq : (a b : Bytes) → bytes_eq a b ≡ true → a ≡ b
bytes_eq→eq [] [] h = refl
bytes_eq→eq [] (y ∷ ys) h = cc
bytes_eq→eq (x ∷ xs) [] h = cc
bytes_eq→eq (x ∷ xs) (y ∷ ys) h =
    let (p, q) = &&_true (x == y) (bytes_eq xs ys) h in
    let e = (==_iff x y).0 p in let r = bytes_eq→eq xs ys q in cc

pub bytes_eq_refl : (a : Bytes) → bytes_eq a a ≡ true
bytes_eq_refl [] = refl
bytes_eq_refl (x ∷ xs) = ground (arith, bytes_eq_refl xs)

pub bytes_eq_iff : (a b : Bytes) → (bytes_eq a b ≡ true) ↔ (a ≡ b)
bytes_eq_iff a b = (bytes_eq→eq a b, λ e. rw e (bytes_eq_refl b))

pub starts_with-append : (p t : Bytes) → starts_with (p ++ t) p ≡ true
starts_with-append [] t = refl
starts_with-append (x ∷ p) t = ground (arith, starts_with-append p t)

pub starts_with→append : (s p : Bytes) → starts_with s p ≡ true → (t : Bytes) × (s ≡ p ++ t)
starts_with→append s [] h = (s, refl)
starts_with→append [] (p ∷ ps) h = absurd (ground arith)
starts_with→append (x ∷ s) (p ∷ ps) h =
    let (a, b) = &&_true (x == p) (starts_with s ps) h in
    let e = (==_iff x p).0 a in let (t, r) = starts_with→append s ps b in (t, cc)

pub starts_with_refl : (p : Bytes) → starts_with p p ≡ true
starts_with_refl [] = refl
starts_with_refl (x ∷ p) = ground (arith, starts_with_refl p)

pub starts_with_trans :
    (a b c : Bytes) → starts_with a b ≡ true → starts_with b c ≡ true → starts_with a c ≡ true
starts_with_trans a b [] h k = refl
starts_with_trans a [] (z ∷ c) h k = cc
starts_with_trans [] (y ∷ b) (z ∷ c) h k = cc
starts_with_trans (x ∷ a) (y ∷ b) (z ∷ c) h k = ground (arith, starts_with_trans a b c)

-- Two prefixes of one text are prefixes of one another.
pub starts_with_total :
    (k a b : Bytes)
    → starts_with k a ≡ true
    → starts_with k b ≡ true
    → (starts_with a b ≡ true) ⊎ (starts_with b a ≡ true)
starts_with_total k [] b h g = inr refl
starts_with_total k (x ∷ a) [] h g = inl refl
starts_with_total [] (x ∷ a) (y ∷ b) h g = absurd (ground arith)
starts_with_total (z ∷ k) (x ∷ a) (y ∷ b) h g = ground (arith, starts_with_total k a b)

pub starts_with_antisymm : (a b : Bytes) → starts_with a b ≡ true → starts_with b a ≡ true → a ≡ b
starts_with_antisymm [] [] h k = refl
starts_with_antisymm [] (y ∷ b) h k = absurd (ground arith)
starts_with_antisymm (x ∷ a) [] h k = absurd (ground arith)
starts_with_antisymm (x ∷ a) (y ∷ b) h k =
    let (p, q) = &&_true (x == y) (starts_with a b) h in
    let (_, r) = &&_true (y == x) (starts_with b a) k in
    let e = (==_iff x y).0 p in let i = starts_with_antisymm a b q r in cc

pub strip_prefix-append : (p s : Bytes) → strip_prefix (p ++ s) p ≡ some s
strip_prefix-append [] s = refl
strip_prefix-append (x ∷ p) s = ground (arith, strip_prefix-append p s)

pub strip_prefix_sound : (s p : Bytes) {t : Bytes} → strip_prefix s p ≡ some t → s ≡ p ++ t
strip_prefix_sound s [] h = ground arith
strip_prefix_sound [] (p ∷ ps) h = cc
strip_prefix_sound (x ∷ s) (p ∷ ps) {t} h = elim (Bool-cases (x == p)) [
  | inl e ↦ let r = (==_iff x p).0 e in let i = strip_prefix_sound s ps {t = t} (ground arith) in cc
  | inr e ↦ absurd (ground arith)
]

pub ends_with-append : (s : Bytes) (c : ℕ) → ends_with (s ++ c ∷ []) c ≡ true
ends_with-append [] c = ground arith
ends_with-append (x ∷ []) c = ground arith
ends_with-append (x ∷ y ∷ s) c = ends_with-append (y ∷ s) c
