-- ===== src/Replace/Spec.antt =====
-- What replacement means, with no streaming: from left to right, at each place the longest marker
-- that stands there is replaced, and what is written is not scanned again. And what the automaton of
-- the aho-corasick crate promises under `MatchKind::LeftmostLongest`.
use mathlib.Core.List.{append_assoc}
use shin_bucket_deployment.Prelude.{
  drop-append_length, ℕ, zero, suc, ◌+◌, ◌≤◌, ◌<◌, [], ◌∷◌, ◌++◌, none, some, true, ◌≡◌, refl, ap,
  ◌∙◌, arith, Bytes, length, take, drop, starts_with, In, starts_with→append,
}
use shin_bucket_deployment.Replace.{Match, Pairs, replacement, MarkerReplacements}

-- No marker stands at the front of the text.
abbrev pub NoMatch : Pairs → Bytes → Type 0
NoMatch pairs s = (q t : Bytes) → In (q, t) pairs → starts_with s q ≡ true → ⊥

-- The marker is the longest that stands at the front of the text.
abbrev pub IsLongest : Pairs → Bytes → Bytes → Type 0
IsLongest pairs s p = (q t : Bytes) → In (q, t) pairs → starts_with s q ≡ true → length q ≤ length p

pub data Replaces (pairs : Pairs) : Bytes → Bytes → Type 0 where
  done : Replaces pairs [] []
  copy :
      {x : ℕ} {s out : Bytes}
      → NoMatch pairs (x ∷ s)
      → Replaces pairs s out
      → Replaces pairs (x ∷ s) (x ∷ out)
  substitute :
      {p r s t out : Bytes}
      → In (p, r) pairs
      → s ≡ p ++ t
      → IsLongest pairs s p
      → Replaces pairs t out
      → Replaces pairs s (r ++ out)

-- A match that the automaton reports.
pub record IsLeftmostLongest (pairs : Pairs) (s : Bytes) (m : Match) : Type 0 where
  pub marker : Bytes
  pub value : Bytes
  pub known : In (marker, value) pairs
  pub numbered : replacement pairs m.pattern ≡ value
  pub inside : m.start ≤ length s
  pub stands : starts_with (drop m.start s) marker ≡ true
  pub stops : m.stop ≡ m.start + length marker
  pub leftmost : (i : ℕ) → i < m.start → NoMatch pairs (drop i s)
  pub longest : IsLongest pairs (drop m.start s) marker

-- The documented behaviour of the automaton over non-empty markers, and the length that the code
-- computes for them.
pub record IsMatcher (m : MarkerReplacements) : Type 0 where
  pub nonempty : (q t : Bytes) → In (q, t) m.pairs → 0 < length q
  pub bounded : (q t : Bytes) → In (q, t) m.pairs → length q ≤ m.max_pattern_bytes
  pub finds_none : (s : Bytes) → m.find s ≡ none → (i : ℕ) → NoMatch m.pairs (drop i s)
  pub finds_some :
      (s : Bytes) (found : Match) → m.find s ≡ some found → IsLeftmostLongest m.pairs s found

pub starts_with-extend : (s q r : Bytes) → starts_with s q ≡ true → starts_with (s ++ r) q ≡ true
starts_with-extend s [] r h = refl
starts_with-extend [] (y ∷ q) r h = absurd (ground arith)
starts_with-extend (x ∷ s) (y ∷ q) r h = ground (arith, starts_with-extend s q r)

pub starts_with-restrict :
    (s q r : Bytes) → length q ≤ length s → starts_with (s ++ r) q ≡ true → starts_with s q ≡ true
starts_with-restrict s [] r h k = refl
starts_with-restrict [] (y ∷ q) r h k = absurd (omega arith)
starts_with-restrict (x ∷ s) (y ∷ q) r h k = ground (arith, starts_with-restrict s q r)

pub drop-drop : (a b : ℕ) (s : Bytes) → drop (a + b) s ≡ drop b (drop a s)
drop-drop zero b s = let e : zero + b ≡ b = omega arith in rw e
drop-drop (suc a) zero [] = let e : suc a + 0 ≡ suc a = omega arith in rw e
drop-drop (suc a) (suc b) [] = let e : suc a + suc b ≡ suc (a + suc b) = omega arith in rw e
drop-drop (suc a) b (x ∷ s) =
    let e : suc a + b ≡ suc (a + b) = omega arith in rw e (drop-drop a b s)

-- Bytes at which nothing stands are copied.
pub Replaces-copies :
    (pairs : Pairs) (n : ℕ) (s rest out : Bytes)
    → n ≤ length s
    → ((i : ℕ) → i < n → NoMatch pairs (drop i s ++ rest))
    → Replaces pairs (drop n s ++ rest) out
    → Replaces pairs (s ++ rest) (take n s ++ out)
Replaces-copies pairs zero s rest out h nm r = r
Replaces-copies pairs (suc n) [] rest out h nm r = absurd (omega arith)
Replaces-copies pairs (suc n) (x ∷ s) rest out h nm r =
    copy (nm 0 (omega arith))
      (Replaces-copies pairs n s rest out (omega arith) (λ i k. nm (suc i) (omega arith)) r)

-- A marker at the front is replaced.
pub Replaces-front :
    (pairs : Pairs) (p v s rest out : Bytes)
    → In (p, v) pairs
    → starts_with s p ≡ true
    → IsLongest pairs (s ++ rest) p
    → Replaces pairs (drop (length p) s ++ rest) out
    → Replaces pairs (s ++ rest) (v ++ out)
Replaces-front pairs p v s rest out m h l r =
    let (t, e) = starts_with→append s p h in
    let d : drop (length p) s ≡ t = ap (drop (length p)) e ∙ drop-append_length p t in
    substitute m (ap (λ (x : Bytes). x ++ rest) e ∙ append_assoc p t rest) l (rw d at r)
