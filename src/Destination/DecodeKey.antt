-- ===== src/Destination/DecodeKey.antt =====
-- `decode_destination_key`: the S3 form-style URL encoding of listed keys
-- (rust/src/s3/destination.rs). The code writes each decoded byte over the bytes that it has read;
-- here the decoded bytes are a list of their own. The UTF-8 test of `String::from_utf8` is a
-- function of the decoded bytes.
pub mod RoundTrip
use shin_bucket_deployment.Prelude.{
  ℕ, ◌+◌, ◌-◌, ◌*◌, List, [], ◌∷◌, ◌++◌, Option, none, some, Bool, true, false, ◌==◌, ◌&&◌, ◌||◌,
  leb, Bytes, contains, if◌then◌else◌, Result, ok, err, ◌>>=◌,
}

pub data DecodeError : Type 0 where
  malformed_escape invalid_utf8 : DecodeError

abbrev pub percent : ℕ
percent = b'%'

abbrev pub plus : ℕ
plus = b'+'

unfoldable pub hex_digit : ℕ → Option ℕ
hex_digit byte =
    if leb b'0' byte && leb byte b'9'
    then some (byte - b'0')
    else if leb b'a' byte && leb byte b'f'
    then some (byte - b'a' + 10)
    else if leb b'A' byte && leb byte b'F'
    then some (byte - b'A' + 10)
    else none

-- `(hex.0 << 4) | hex.1` of two hex digits: the low four bits of the shifted one are 0.
abbrev pub from_digits : Option ℕ → Option ℕ → Option ℕ
from_digits none lo = none
from_digits (some hi) none = none
from_digits (some hi) (some lo) = some (hi * 16 + lo)

abbrev pub push_byte : Option ℕ → Result DecodeError Bytes → Result DecodeError Bytes
push_byte none rest = err malformed_escape
push_byte (some byte) (ok bytes) = ok (byte ∷ bytes)
push_byte (some byte) (err e) = err e

-- The loop from `read` on.
unfoldable pub decode_bytes : Bytes → Result DecodeError Bytes
unfolding hex_digit
decode_bytes [] = ok []
decode_bytes (a ∷ []) =
    if a == percent then err malformed_escape else ok ((if a == plus then 32 else a) ∷ [])
decode_bytes (a ∷ b ∷ []) =
    if a == percent
    then err malformed_escape
    else push_byte (some (if a == plus then 32 else a)) (decode_bytes (b ∷ []))
decode_bytes (a ∷ b ∷ c ∷ s) = elim (a == percent) [
  | true ↦ push_byte (from_digits (hex_digit b) (hex_digit c)) (decode_bytes s)
  | false ↦ push_byte (some (if a == plus then 32 else a)) (decode_bytes (b ∷ c ∷ s))
]

abbrev check_utf8 : (Bytes → Bool) → Bytes → Result DecodeError Bytes
check_utf8 is_utf8 bytes = if is_utf8 bytes then ok bytes else err invalid_utf8

-- A key with nothing to decode is returned as it is.
unfoldable pub decode_destination_key : (Bytes → Bool) → Bytes → Result DecodeError Bytes
unfolding decode_bytes
decode_destination_key is_utf8 key =
    if contains key percent || contains key plus
    then (decode_bytes key >>= check_utf8 is_utf8)
    else ok key
