-- ===== src/Destination/DecodeKey/RoundTrip.antt =====
-- Decoding undoes the URL encoding of keys (rust/src/s3/destination.rs).
use shin_bucket_deployment.Prelude.{
  ℕ, ◌+◌, ◌*◌, ◌≤◌, ◌<◌, [], ◌∷◌, ◌≢◌, ◌⊎◌, some, Bool, true, false, ◌≡◌, refl, arith, ◌==◌, ◌||◌,
  Bytes, contains, if◌then◌else◌, ok, Bool-cases, inl, inr, ||_false,
}
use shin_bucket_deployment.Destination.DecodeKey.{
  percent, plus, hex_digit, push_byte, decode_bytes, decode_destination_key,
}

-- A hex digit of either case.
abbrev pub IsHex : ℕ → ℕ → Type 0
IsHex digit char =
    ((digit < 10) × (char ≡ b'0' + digit))
    ⊎ (((10 ≤ digit) × (digit < 16) × (char + 10 ≡ b'a' + digit))
        ⊎ ((10 ≤ digit) × (digit < 16) × (char + 10 ≡ b'A' + digit)))

-- The encoded forms of a key: byte by byte, a byte may stand for itself unless it is a percent or a
-- plus, a space may be a plus, and any byte may be escaped with digits of either case.
pub data IsEncoded : Bytes → Bytes → Type 0 where
  nothing : IsEncoded [] []
  literal :
      {b : ℕ} {key s : Bytes}
      → b ≢ percent
      → b ≢ plus
      → IsEncoded key s
      → IsEncoded (b ∷ key) (b ∷ s)
  space : {key s : Bytes} → IsEncoded key s → IsEncoded (32 ∷ key) (plus ∷ s)
  escaped :
      {hi lo h l : ℕ} {key s : Bytes}
      → IsHex hi h
      → IsHex lo l
      → IsEncoded key s
      → IsEncoded ((hi * 16 + lo) ∷ key) (percent ∷ h ∷ l ∷ s)

hex_digit-IsHex : (digit char : ℕ) → IsHex digit char → hex_digit char ≡ some digit
unfolding hex_digit
hex_digit-IsHex digit char (inl (small, e)) = ground (arith, small, e)
hex_digit-IsHex digit char (inr (inl (low, high, e))) = ground (arith, low, high, e)
hex_digit-IsHex digit char (inr (inr (low, high, e))) = ground (arith, low, high, e)

decode_plain :
    (a : ℕ) (s : Bytes)
    → (a == percent) ≡ false
    → decode_bytes (a ∷ s) ≡ push_byte (some (if a == plus then 32 else a)) (decode_bytes s)
unfolding decode_bytes
decode_plain a [] h = rw h
decode_plain a (b ∷ []) h = rw h
decode_plain a (b ∷ c ∷ s) h = rw (h, decode_bytes)

decode_escape :
    (hi lo h l : ℕ) (s : Bytes)
    → IsHex hi h
    → IsHex lo l
    → decode_bytes (percent ∷ h ∷ l ∷ s) ≡ push_byte (some (hi * 16 + lo)) (decode_bytes s)
unfolding decode_bytes
decode_escape hi lo h l s i j = rw (hex_digit-IsHex hi h i) (rw (hex_digit-IsHex lo l j))

decode_bytes-IsEncoded : (key s : Bytes) → IsEncoded key s → decode_bytes s ≡ ok key
decode_bytes-IsEncoded _ _ nothing = unfold decode_bytes in refl
decode_bytes-IsEncoded _ _ (literal {b} {key} {s} p q e) =
    let f : (b == percent) ≡ false = ground (arith, p) in
    let g : (b == plus) ≡ false = ground (arith, q) in
    rw (decode_plain b s f) (rw g (rw (decode_bytes-IsEncoded key s e)))
decode_bytes-IsEncoded _ _ (space {key} {s} e) =
    rw (decode_plain plus s refl) (rw (decode_bytes-IsEncoded key s e))
decode_bytes-IsEncoded _ _ (escaped {hi} {lo} {h} {l} {key} {s} i j e) =
    rw (decode_escape hi lo h l s i j) (rw (decode_bytes-IsEncoded key s e))

decode_nothing :
    (key : Bytes)
    → contains key percent ≡ false
    → contains key plus ≡ false
    → decode_bytes key ≡ ok key
decode_nothing [] h k = unfold decode_bytes in refl
decode_nothing (b ∷ key) h k =
    let (p, hs) = ||_false (b == percent) (contains key percent) h in
    let (q, ks) = ||_false (b == plus) (contains key plus) k in
    rw (decode_plain b key p) (rw q (rw (decode_nothing key hs ks)))

-- A listed key that encodes a UTF-8 key is decoded to that key, whichever bytes the sender escapes,
-- with hex digits of whichever case, and whether it writes a space as a plus, as itself or escaped.
pub decode_destination_key-IsEncoded :
    (is_utf8 : Bytes → Bool) (key encoded : Bytes)
    → IsEncoded key encoded
    → is_utf8 key ≡ true
    → decode_destination_key is_utf8 encoded ≡ ok key
unfolding decode_destination_key
decode_destination_key-IsEncoded is_utf8 key encoded h u =
    elim (Bool-cases (contains encoded percent || contains encoded plus)) [
      | inl e ↦ rw e (rw (decode_bytes-IsEncoded key encoded h) (rw u))
      | inr e ↦
          let (p, q) = ||_false (contains encoded percent) (contains encoded plus) e in
          let d = decode_nothing encoded p q in rw e (cc (d, decode_bytes-IsEncoded key encoded h))
    ]
