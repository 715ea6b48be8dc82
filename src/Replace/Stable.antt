-- ===== src/Replace/Stable.antt =====
-- What the loop emits from a buffer is right whatever input follows (rust/src/replace.rs).
use mathlib.Core.List.{append_assoc, append-nil}
use mathlib.Core.Path.{subst}
use shin_bucket_deployment.Prelude.{
  ℕ, zero, suc, ◌+◌, ◌-◌, ◌≤◌, ◌<◌, [], ◌∷◌, ◌++◌, true, ◌≡◌, refl, sym, ap, ◌∙◌, arith, Bytes,
  length, take, drop, starts_with, In, length-drop, inl, inr, Bool-cases, Option-cases, ltb, leb,
  Result, ok, err, ◌>>=◌, >>=-eq-ok, checked_add, ok_or,
}
use shin_bucket_deployment.Replace.{
  Match, replacement, MarkerReplacements, ReplaceError, overflowed, OutputAccounting, coalesce,
  output_coalesce_bytes, write, slice, emit_loop,
}
use shin_bucket_deployment.Replace.Spec.{
  NoMatch, Replaces, IsLeftmostLongest, IsMatcher, drop-drop, Replaces-copies, Replaces-front,
}

coalesce-md5 : (a : OutputAccounting) → (coalesce a).md5 ≡ a.md5
coalesce-md5 a = elim (Bool-cases (leb output_coalesce_bytes (length a.staging))) [
  | inl e ↦ rw e refl
  | inr e ↦ rw e refl
]

-- A write that is taken adds its bytes to those hashed.
write-md5 :
    (a : OutputAccounting) (bytes : Bytes) {b : OutputAccounting}
    → write a bytes ≡ ok b
    → b.md5 ≡ a.md5 ++ bytes
unfolding write
write-md5 a bytes {b = b} h =
    let (next, e, k) =
      >>=-eq-ok (ok_or (checked_add a.output_bytes (length bytes)) overflowed) _ {b = b} h in
    elim (Bool-cases (ltb a.max_output_bytes next)) [
      | inl f ↦ let z = rw f at k in cc
      | inr f ↦
          let t : OutputAccounting = record a {
            md5 = a.md5 ++ bytes;
            output_bytes = next;
            staging = a.staging ++ bytes;
          } in
          let q : coalesce t ≡ b = (let z = rw f at k in cc) in
          ap (λ x. x.md5) (sym q) ∙ coalesce-md5 t
    ]

ok_pair :
    (r : Result ReplaceError OutputAccounting) (n : ℕ) {p : ℕ × OutputAccounting}
    → (r >>= λ b. ok (n, b)) ≡ ok p
    → (r ≡ ok p.1) × (n ≡ p.0)
ok_pair (ok a) n h = (cc, cc)
ok_pair (err e) n h = (cc, cc)

starts_with-le-length : (s q : Bytes) → starts_with s q ≡ true → length q ≤ length s
starts_with-le-length s [] h = omega arith
starts_with-le-length [] (y ∷ q) h = absurd (ground arith)
starts_with-le-length (x ∷ s) (y ∷ q) h = ground (arith, starts_with-le-length s q)

module _ (m : MarkerReplacements) (im : IsMatcher m) (pending rest : Bytes) (end : ℕ) where
  -- A marker that stands before the end, in the buffer and what follows, lies in the buffer.
  abbrev pub LiesInside : Type 0
  LiesInside =
      (i : ℕ)
      → i < end
      → (q t : Bytes) → In (q, t) m.pairs
      → starts_with (drop i pending ++ rest) q ≡ true
      → starts_with (drop i pending) q ≡ true

  -- What the loop adds from the cursor on, and how it continues.
  abbrev pub Emitted : ℕ → OutputAccounting → ℕ × OutputAccounting → Type 0
  Emitted cursor a p =
      (text : Bytes) × (p.1.md5 ≡ a.md5 ++ text)
      × ((out : Bytes)
          → Replaces m.pairs (drop p.0 pending ++ rest) out
          → Replaces m.pairs (drop cursor pending ++ rest) (text ++ out))

  -- A stretch in which no marker stands is copied.
  copied :
      (cursor n : ℕ) (out : Bytes)
      → LiesInside
      → end ≤ length pending
      → cursor + n ≤ end
      → ((i : ℕ) → i < n → NoMatch m.pairs (drop i (drop cursor pending)))
      → Replaces m.pairs (drop (cursor + n) pending ++ rest) out
      → Replaces m.pairs (drop cursor pending ++ rest) (take n (drop cursor pending) ++ out)
  copied cursor n out w l h nm r =
      let d = length-drop cursor pending in
      Replaces-copies m.pairs n (drop cursor pending) rest out (omega (arith, d, h, l))
        (λ i k q t known s. nm i k q t known (
          rw (drop-drop cursor i pending) at
            (w (cursor + i) (omega arith) q t known (rw (sym (drop-drop cursor i pending)) at s))))
        (rw (drop-drop cursor n pending) at r)

  -- The marker that was found is replaced by its value.
  replaced :
      (cursor : ℕ) (found : Match) (out : Bytes)
      → LiesInside
      → cursor + found.start < end
      → IsLeftmostLongest m.pairs (drop cursor pending) found
      → Replaces m.pairs (drop (cursor + found.stop) pending ++ rest) out
      → Replaces m.pairs
          (drop (cursor + found.start) pending ++ rest)
          (replacement m.pairs found.pattern ++ out)
  replaced cursor found out w h f r =
      let e : drop (cursor + found.start) pending ≡ drop found.start (drop cursor pending) =
        drop-drop cursor found.start pending in
      let stops : cursor + found.stop ≡ (cursor + found.start) + length f.marker =
        (let s = f.stops in omega (arith, s)) in
      rw (f.numbered) (
        Replaces-front m.pairs f.marker f.value (drop (cursor + found.start) pending) rest out
          f.known (rw e (f.stands))
          (λ q t known s. f.longest q t known (rw e at (w (cursor + found.start) h q t known s)))
          (rw (stops, drop-drop (cursor + found.start) (length f.marker) pending) at r))

  -- A match ends in the buffer, and after its start.
  match_bounds :
      (cursor : ℕ) (found : Match)
      → cursor ≤ length pending
      → IsLeftmostLongest m.pairs (drop cursor pending) found
      → (found.start < found.stop) × (cursor + found.stop ≤ length pending)
  match_bounds cursor found h f =
      let n = im.nonempty f.marker f.value f.known in
      let s = f.stops in
      let i = f.inside in
      let l = starts_with-le-length (drop found.start (drop cursor pending)) f.marker f.stands in
      let d = length-drop found.start (drop cursor pending) in
      let c = length-drop cursor pending in
      (omega (arith, n, s), omega (arith, n, s, i, l, d, c, h))

  nothing :
      (cursor : ℕ) (a : OutputAccounting) (p : ℕ × OutputAccounting)
      → cursor ≡ p.0
      → a ≡ p.1
      → Emitted cursor a p
  nothing cursor a p e k =
      ([], ap (λ x. x.md5) (sym k) ∙ sym (append-nil a.md5), λ out r. rw (sym e) at r)

  stretch :
      (cursor : ℕ) (a : OutputAccounting) (p : ℕ × OutputAccounting)
      → LiesInside
      → end ≤ length pending
      → cursor < end
      → ((i : ℕ) → i < end - cursor → NoMatch m.pairs (drop i (drop cursor pending)))
      → (write a (slice pending cursor end) >>= λ b. ok (end, b)) ≡ ok p
      → Emitted cursor a p
  stretch cursor a p w l h nm k =
      let (e, d) = ok_pair (write a (slice pending cursor end)) end {p = p} k in
      (
        slice pending cursor end,
        write-md5 a (slice pending cursor end) e,
        λ out r.
            copied cursor (end - cursor) out w l (omega arith) nm
              (let c : cursor + (end - cursor) ≡ p.0 = omega (arith, d, h) in rw (sym c) at r),
      )

  -- One found marker, with what stands before it and what the rest of the loop adds.
  substituted :
      (cursor : ℕ) (found : Match) (a a1 a2 : OutputAccounting) (p : ℕ × OutputAccounting)
      → LiesInside
      → end ≤ length pending
      → cursor ≤ length pending
      → cursor + found.start < end
      → IsLeftmostLongest m.pairs (drop cursor pending) found
      → write a (slice pending cursor (cursor + found.start)) ≡ ok a1
      → write a1 (replacement m.pairs found.pattern) ≡ ok a2
      → (text : Bytes) → p.1.md5 ≡ a2.md5 ++ text
      → ((out : Bytes)
          → Replaces m.pairs (drop p.0 pending ++ rest) out
          → Replaces m.pairs (drop (cursor + found.stop) pending ++ rest) (text ++ out))
      → Emitted cursor a p
  substituted cursor found a a1 a2 p w l c lt lm e1 e2 text t more =
      let s : Bytes = slice pending cursor (cursor + found.start) in
      let v : Bytes = replacement m.pairs found.pattern in
      let n : (cursor + found.start) - cursor ≡ found.start = omega arith in
      (
        s ++ (v ++ text),
        t
            ∙ ap (λ x. x ++ text) (write-md5 a1 v e2 ∙ ap (λ x. x ++ v) (write-md5 a s e1))
            ∙ append_assoc (a.md5 ++ s) v text
            ∙ append_assoc a.md5 s (v ++ text),
        λ out r.
            subst (λ x. Replaces m.pairs (drop cursor pending ++ rest) x)
              (sym (
                append_assoc s (v ++ text) out
                ∙ ap (λ x. s ++ x) (append_assoc v text out)
                ∙ ap (λ x. take x (drop cursor pending) ++ (v ++ (text ++ out))) n))
              (copied cursor found.start (v ++ (text ++ out)) w l (omega (arith, lt)) lm.leftmost
                (replaced cursor found (text ++ out) w lt lm (more out r))),
      )

  -- The loop's text is right, and with enough fuel it reaches the end.
  pub emit_loop-Emitted :
      (fuel cursor : ℕ) (a : OutputAccounting) (p : ℕ × OutputAccounting)
      → LiesInside
      → end ≤ length pending
      → cursor ≤ length pending
      → end ≤ cursor + fuel
      → emit_loop m pending end fuel cursor a ≡ ok p
      → Emitted cursor a p × (end ≤ p.0)
  unfolding emit_loop
  emit_loop-Emitted zero cursor a p w l c f h =
      let e : cursor ≡ p.0 = cc in (nothing cursor a p e cc, omega (arith, e, f))
  emit_loop-Emitted (suc fuel) cursor a p w l c f h = elim (Bool-cases (ltb cursor end)) [
    | inr e ↦
        let k = rw (e, emit_loop) at h in
        let d : cursor ≡ p.0 = cc in (nothing cursor a p d cc, ground (arith, e, d))
    | inl e ↦
        let lt : cursor < end = ground (arith, e) in
        elim (Option-cases (m.find (drop cursor pending))) [
          | inl g ↦
              let k = rw (e, g, emit_loop) at h in
              let d = (ok_pair (write a (slice pending cursor end)) end {p = p} k).1 in
              (
                stretch cursor a p w l lt (λ i _. im.finds_none (drop cursor pending) g i) k,
                omega (arith, d),
              )
          | inr (found, g) ↦
              let lm = im.finds_some (drop cursor pending) found g in
              elim (Bool-cases (leb end (cursor + found.start))) [
                | inl z ↦
                    let k = rw (e, g, z, emit_loop) at h in
                    let d = (ok_pair (write a (slice pending cursor end)) end {p = p} k).1 in
                    (
                      stretch cursor a p w l lt (λ i j. lm.leftmost i (ground (arith, z, j))) k,
                      omega (arith, d),
                    )
                | inr z ↦
                    let (a1, e1, h1) =
                      >>=-eq-ok (write a (slice pending cursor (cursor + found.start))) _ {b = p}
                        (rw (e, g, z, emit_loop) at h) in
                    let (a2, e2, h2) =
                      >>=-eq-ok (write a1 (replacement m.pairs found.pattern)) _ {b = p} h1 in
                    let (lo, hi) = match_bounds cursor found c lm in
                    let ((text, t, more), reach) =
                      emit_loop-Emitted fuel (cursor + found.stop) a2 p w l hi
                        (omega (arith, lo, f)) h2 in
                    (
                      substituted cursor found a a1 a2 p w l c (ground (arith, z)) lm e1 e2 text t
                          more,
                      reach,
                    )
              ]
        ]
  ]
