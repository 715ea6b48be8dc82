-- ===== src/Replace/Accounting.antt =====
-- What is written, hashed and counted is the same text (rust/src/replace.rs).
use mathlib.Core.List.{append_assoc, append-nil}
use mathlib.Core.Path.{subst}
use shin_bucket_deployment.Prelude.{
  ℕ, zero, suc, ◌+◌, ◌≤◌, List, [], ◌∷◌, ◌++◌, Bool, true, false, ◌≡◌, refl, sym, ap, ◌∙◌, arith,
  Bytes, length, drop, is_empty, length-append, inl, inr, Bool-cases, Option-cases, ltb, leb,
  Result, ok, err, ◌>>=◌, >>=-eq-ok, checked_add, ok_or,
}
use shin_bucket_deployment.Replace.{
  replacement, MarkerReplacements, ReplaceError, overflowed, OutputAccounting, ReplacementResult,
  output_coalesce_bytes, new_accounting, coalesce, write, flush_staging, finish, slice, emit_loop,
  emit_stable, stable_end, stream_loop, replace_stream,
}

-- The bytes hashed are those written and those staged, they are counted, and they are not too many.
pub record IsAccounted (limit : ℕ) (a : OutputAccounting) : Type 0 where
  pub limited : a.max_output_bytes ≡ limit
  pub hashed : a.md5 ≡ a.output ++ a.staging
  pub counted : a.output_bytes ≡ length a.md5
  pub bounded : a.output_bytes ≤ limit

new_accounting-IsAccounted : (limit : ℕ) → IsAccounted limit (new_accounting limit)
unfolding new_accounting
new_accounting-IsAccounted limit = record {
  limited = refl;
  hashed = refl;
  counted = refl;
  bounded = omega arith;
}

coalesce-IsAccounted :
    (limit : ℕ) (a : OutputAccounting) → IsAccounted limit a → IsAccounted limit (coalesce a)
coalesce-IsAccounted limit a i = elim (Bool-cases (leb output_coalesce_bytes (length a.staging))) [
  | inl e ↦ rw e (record {
    limited = i.limited;
    hashed = i.hashed ∙ sym (append-nil (a.output ++ a.staging));
    counted = i.counted;
    bounded = i.bounded;
  })
  | inr e ↦ rw e i
]

-- The account after a write that is taken.
abbrev taken : OutputAccounting → Bytes → ℕ → OutputAccounting
taken a bytes next = record a {
  md5 = a.md5 ++ bytes;
  output_bytes = next;
  staging = a.staging ++ bytes;
}

taken-IsAccounted :
    (limit : ℕ) (a : OutputAccounting) (bytes : Bytes) (next : ℕ)
    → IsAccounted limit a
    → next ≡ a.output_bytes + length bytes
    → ltb a.max_output_bytes next ≡ false
    → IsAccounted limit (taken a bytes next)
taken-IsAccounted limit a bytes next i e f = record {
  limited = i.limited;
  hashed = ap (λ x. x ++ bytes) i.hashed ∙ append_assoc a.output a.staging bytes;
  counted = let l = length-append a.md5 bytes in let c = i.counted in omega (arith, l, c, e);
  bounded = let l = i.limited in ground (arith, l, f);
}

checked_sum : (m n next : ℕ) → ok_or (checked_add m n) overflowed ≡ ok next → next ≡ m + n
checked_sum m n next h = ground arith

-- One write keeps the account, or fails.
pub write-IsAccounted :
    (limit : ℕ) (a : OutputAccounting) (bytes : Bytes) {b : OutputAccounting}
    → IsAccounted limit a
    → write a bytes ≡ ok b
    → IsAccounted limit b
unfolding write
write-IsAccounted limit a bytes {b = b} i h =
    let (next, e, k) =
      >>=-eq-ok (ok_or (checked_add a.output_bytes (length bytes)) overflowed) _ h in
    elim (Bool-cases (ltb a.max_output_bytes next)) [
      | inl f ↦ let z = rw f at k in cc
      | inr f ↦
          let q : coalesce (taken a bytes next) ≡ b = (let z = rw f at k in cc) in
          rw q at (
            coalesce-IsAccounted limit (taken a bytes next) (
              taken-IsAccounted limit a bytes next i
                (checked_sum a.output_bytes (length bytes) next e) f))
    ]

ok_pair :
    {A : Type 0} (r : Result ReplaceError OutputAccounting) (x : A) {p : A × OutputAccounting}
    → (r >>= λ b. ok (x, b)) ≡ ok p
    → r ≡ ok p.1
ok_pair (ok a) x h = cc
ok_pair (err e) x h = cc

emit_loop-IsAccounted :
    (limit : ℕ) (m : MarkerReplacements) (pending : Bytes) (end fuel cursor : ℕ)
    (a : OutputAccounting) {p : ℕ × OutputAccounting}
    → IsAccounted limit a
    → emit_loop m pending end fuel cursor a ≡ ok p
    → IsAccounted limit p.1
unfolding emit_loop
emit_loop-IsAccounted limit m pending end zero cursor a {p = p} i h =
    let d : a ≡ p.1 = cc in rw d at i
emit_loop-IsAccounted limit m pending end (suc fuel) cursor a {p = p} i h =
    elim (Bool-cases (ltb cursor end)) [
      | inr e ↦ let k = rw (e, emit_loop) at h in let d : a ≡ p.1 = cc in rw d at i
      | inl e ↦ elim (Option-cases (m.find (drop cursor pending))) [
        | inl f ↦
            write-IsAccounted limit a _ i
              (ok_pair (write a (slice pending cursor end)) end {p = p} (rw (e, f, emit_loop) at h))
        | inr (found, f) ↦ elim (Bool-cases (leb end (cursor + found.start))) [
          | inl g ↦ write-IsAccounted limit a _ i (
              ok_pair (write a (slice pending cursor end)) end {p = p}
                (rw (e, f, g, emit_loop) at h))
          | inr g ↦
              let (a1, e1, h1) =
                >>=-eq-ok (write a (slice pending cursor (cursor + found.start))) _
                  (rw (e, f, g, emit_loop) at h) in
              let (a2, e2, h2) = >>=-eq-ok (write a1 (replacement m.pairs found.pattern)) _ h1 in
              emit_loop-IsAccounted limit m pending end fuel (cursor + found.stop) a2 {p = p}
                (write-IsAccounted limit a1 _ (write-IsAccounted limit a _ i e1) e2) h2
        ]
      ]
    ]

emit_stable-IsAccounted :
    (limit : ℕ) (m : MarkerReplacements) (pending : Bytes) (last : Bool) (a : OutputAccounting)
    {p : Bytes × OutputAccounting}
    → IsAccounted limit a
    → emit_stable m pending last a ≡ ok p
    → IsAccounted limit p.1
unfolding emit_stable
emit_stable-IsAccounted limit m pending last a {p = p} i h =
    let (q, e, k) =
      >>=-eq-ok (emit_loop m pending (stable_end m last pending) (length pending) 0 a) _ h in
    let d : q.1 ≡ p.1 = cc in
    rw d at (
      emit_loop-IsAccounted limit m pending (stable_end m last pending) (length pending) 0 a {p = q}
        i e)

-- The result of a stream: what is written in the end.
pub record IsReported (limit : ℕ) (result : ReplacementResult) (a : OutputAccounting) : Type 0 where
  pub hashed : result.md5 ≡ a.output
  pub counted : result.output_bytes ≡ length a.output
  pub bounded : result.output_bytes ≤ limit

empty_is_nil : (s : Bytes) → is_empty s ≡ true → s ≡ []
empty_is_nil [] h = refl
empty_is_nil (x ∷ s) h = cc

flush-IsReported :
    (limit : ℕ) (a : OutputAccounting)
    → IsAccounted limit a
    → IsReported limit (finish (flush_staging a)) (flush_staging a)
unfolding flush_staging finish
flush-IsReported limit a i = elim (Bool-cases (is_empty a.staging)) [
  | inl e ↦
      let h = i.hashed ∙ ap (λ x. a.output ++ x) (empty_is_nil a.staging e) ∙ append-nil a.output in
      rw e (record { hashed = h; counted = i.counted ∙ ap length h; bounded = i.bounded })
  | inr e ↦
      rw e (record {
        hashed = i.hashed;
        counted = i.counted ∙ ap length i.hashed;
        bounded = i.bounded;
      })
]

stream_loop-IsReported :
    (limit : ℕ) (m : MarkerReplacements) (observe : List Bytes → Bool) (seen : List Bytes)
    (pending : Bytes) (chunks : List Bytes) (a : OutputAccounting)
    {p : ReplacementResult × OutputAccounting}
    → IsAccounted limit a
    → stream_loop m observe seen pending chunks a ≡ ok p
    → IsReported limit p.0 p.1
unfolding stream_loop
stream_loop-IsReported limit m observe seen pending [] a {p = p} i h =
    let (q, e, k) = >>=-eq-ok (emit_stable m pending true a) _ h in
    let d : (finish (flush_staging q.1), flush_staging q.1) ≡ p = cc in
    subst (λ x. IsReported limit x.0 x.1) d
      (flush-IsReported limit q.1 (emit_stable-IsAccounted limit m pending true a {p = q} i e))
stream_loop-IsReported limit m observe seen pending (chunk ∷ chunks) a {p = p} i h =
    elim (Bool-cases (observe (chunk ∷ seen))) [
      | inr e ↦ let z = rw (e, stream_loop) at h in cc
      | inl e ↦
          let (q, f, k) =
            >>=-eq-ok (emit_stable m (pending ++ chunk) false a) _ (rw (e, stream_loop) at h) in
          stream_loop-IsReported limit m observe (chunk ∷ seen) q.0 chunks q.1 {p = p}
            (emit_stable-IsAccounted limit m _ false a {p = q} i f) k
    ]

-- When a stream succeeds, the digest is of exactly the bytes written to the pipe, their number is
-- the reported size, and the size is within the limit, whatever the matcher finds, however the
-- input is cut into chunks, and wherever the staging buffer is flushed.
pub replace_stream-IsReported :
    (m : MarkerReplacements) (observe : List Bytes → Bool) (chunks : List Bytes) (limit : ℕ)
    (result : ReplacementResult) (a : OutputAccounting)
    → replace_stream m observe chunks limit ≡ ok (result, a)
    → IsReported limit result a
unfolding replace_stream
replace_stream-IsReported m observe chunks limit result a h =
    stream_loop-IsReported limit m observe [] [] chunks (new_accounting limit) {p = (result, a)}
      (new_accounting-IsAccounted limit) h
