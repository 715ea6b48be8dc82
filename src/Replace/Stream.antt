-- ===== src/Replace/Stream.antt =====
-- A whole stream is replaced as if it were read at once (rust/src/replace.rs).
use mathlib.Core.List.{append_assoc, append-nil}
use mathlib.Core.Path.{subst}
use shin_bucket_deployment.Prelude.{
  ℕ, zero, suc, ◌≤◌, List, [], ◌∷◌, ◌++◌, Bool, true, false, ◌≡◌, refl, sym, ap, ◌∙◌, arith, Bytes,
  length, drop, is_empty, starts_with, length-drop, inl, inr, Bool-cases, ok, >>=-eq-ok,
}
use shin_bucket_deployment.Replace.{
  MarkerReplacements, OutputAccounting, ReplacementResult, new_accounting, flush_staging, finish,
  emit_loop, stable_end, emit_stable, stream_loop, replace_stream,
}
use shin_bucket_deployment.Replace.Accounting.{replace_stream-IsReported}
use shin_bucket_deployment.Replace.Spec.{done, Replaces, IsMatcher, starts_with-restrict}
use shin_bucket_deployment.Replace.Stable.{LiesInside, emit_loop-Emitted}

drop-all : (n : ℕ) (s : Bytes) → length s ≤ n → drop n s ≡ []
drop-all zero [] h = refl
drop-all zero (x ∷ s) h = absurd (omega arith)
drop-all (suc n) [] h = refl
drop-all (suc n) (x ∷ s) h = drop-all n s (omega arith)

-- All that is read.
abbrev pub concat : List Bytes → Bytes
concat [] = []
concat (chunk ∷ chunks) = chunk ++ concat chunks

module _ (m : MarkerReplacements) (im : IsMatcher m) where
  stable_end_bound : (last : Bool) (pending : Bytes) → stable_end m last pending ≤ length pending
  unfolding stable_end
  stable_end_bound last pending = ground arith

  lies_inside :
      (last : Bool) (pending rest : Bytes)
      → (last ≡ true → rest ≡ [])
      → LiesInside m im pending rest (stable_end m last pending)
  unfolding stable_end
  lies_inside true pending rest e i h q t known s =
      subst (λ x. starts_with x q ≡ true)
        (ap (λ r. drop i pending ++ r) (e refl) ∙ append-nil (drop i pending)) s
  lies_inside false pending rest e i h q t known s =
      let lo = im.nonempty q t known in
      let hi = im.bounded q t known in
      let d = length-drop i pending in
      starts_with-restrict (drop i pending) q rest (ground (arith, lo, hi, d, h)) s

  reached :
      (last : Bool) (pending : Bytes) (n : ℕ)
      → last ≡ true
      → stable_end m last pending ≤ n
      → length pending ≤ n
  unfolding stable_end
  reached true pending n l h = h
  reached false pending n l h = cc

  emit_stable-Emitted :
      (last : Bool) (pending rest : Bytes) (a : OutputAccounting) (p : Bytes × OutputAccounting)
      → (last ≡ true → rest ≡ [])
      → emit_stable m pending last a ≡ ok p
      → (text : Bytes) × (p.1.md5 ≡ a.md5 ++ text)
        × ((out : Bytes)
            → Replaces m.pairs (p.0 ++ rest) out
            → Replaces m.pairs (pending ++ rest) (text ++ out))
        × (last ≡ true → p.0 ≡ [])
  unfolding emit_stable
  emit_stable-Emitted last pending rest a p e h =
      let (q, k, j) =
        >>=-eq-ok (emit_loop m pending (stable_end m last pending) (length pending) 0 a) _ {b = p}
          h in
      let ((text, t, more), reach) =
        emit_loop-Emitted m im pending rest (stable_end m last pending) (length pending) 0 a q
          (lies_inside last pending rest e) (stable_end_bound last pending) (omega arith)
          (let b = stable_end_bound last pending in omega (arith, b)) k in
      let d0 : drop q.0 pending ≡ p.0 = cc in
      let d1 : q.1 ≡ p.1 = cc in
      (
        text,
        ap (λ x. x.md5) (sym d1) ∙ t,
        λ out r. more out (rw (sym d0) at r),
        λ l. sym d0 ∙ drop-all q.0 pending (reached last pending q.0 l reach),
      )

  flush_md5 : (a : OutputAccounting) → (finish (flush_staging a)).md5 ≡ a.md5
  unfolding finish flush_staging
  flush_md5 a = elim (Bool-cases (is_empty a.staging)) [ inl e ↦ rw e refl | inr e ↦ rw e refl ]

  stream_loop-Replaces :
      (observe : List Bytes → Bool) (seen : List Bytes) (pending : Bytes) (chunks : List Bytes)
      (a : OutputAccounting) (p : ReplacementResult × OutputAccounting)
      → stream_loop m observe seen pending chunks a ≡ ok p
      → (text : Bytes) × (p.0.md5 ≡ a.md5 ++ text)
        × Replaces m.pairs (pending ++ concat chunks) text
  unfolding stream_loop
  stream_loop-Replaces observe seen pending [] a p h =
      let (q, k, j) = >>=-eq-ok (emit_stable m pending true a) _ {b = p} h in
      let (text, t, more, empty) = emit_stable-Emitted true pending [] a q (λ _. refl) k in
      let d : finish (flush_staging q.1) ≡ p.0 = cc in
      (
        text,
        ap (λ x. x.md5) (sym d) ∙ flush_md5 q.1 ∙ t,
        subst (λ x. Replaces m.pairs (pending ++ []) x) (append-nil text)
            (more [] (subst (λ x. Replaces m.pairs (x ++ []) []) (sym (empty refl)) done)),
      )
  stream_loop-Replaces observe seen pending (chunk ∷ chunks) a p h =
      elim (Bool-cases (observe (chunk ∷ seen))) [
        | inr e ↦ let z = rw (e, stream_loop) at h in absurd cc
        | inl e ↦
            let (q, k, j) =
              >>=-eq-ok (emit_stable m (pending ++ chunk) false a) _ {b = p}
                (rw (e, stream_loop) at h) in
            let (text, t, more, _) =
              emit_stable-Emitted false (pending ++ chunk) (concat chunks) a q (λ f. cc) k in
            let (text2, t2, r) = stream_loop-Replaces observe (chunk ∷ seen) q.0 chunks q.1 p j in
            (
              text ++ text2,
              t2 ∙ ap (λ x. x ++ text2) t ∙ append_assoc a.md5 text text2,
              subst (λ x. Replaces m.pairs x (text ++ text2))
                  (append_assoc pending chunk (concat chunks)) (more text2 r),
            )
      ]

-- When a stream succeeds, what is written to the pipe is the input with, from left to right, the
-- longest marker at each place replaced, however the input is cut into chunks and wherever markers
-- are cut by it, given a matcher that keeps the promise of `MatchKind::LeftmostLongest`.
pub replace_stream-Replaces :
    (m : MarkerReplacements) (observe : List Bytes → Bool) (chunks : List Bytes) (limit : ℕ)
    (result : ReplacementResult) (a : OutputAccounting)
    → IsMatcher m
    → replace_stream m observe chunks limit ≡ ok (result, a)
    → Replaces m.pairs (concat chunks) a.output
unfolding replace_stream new_accounting
replace_stream-Replaces m observe chunks limit result a im h =
    let (text, t, r) =
      stream_loop-Replaces m im observe [] [] chunks (new_accounting limit) (result, a) h in
    let i = replace_stream-IsReported m observe chunks limit result a h in
    subst (λ x. Replaces m.pairs (concat chunks) x) (sym t ∙ i.hashed) r
