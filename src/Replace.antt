-- ===== src/Replace.antt =====
-- rust/src/replace.rs: the streaming replacement of markers. The Aho-Corasick automaton is an
-- argument, `find`; the MD5 state is the list of the bytes hashed so far, and the output pipe the
-- list of the bytes written to it. Reads come as a list of chunks; reads and writes that fail, which
-- end the stream with their error, are left out.
pub mod Accounting
pub mod Spec
pub mod Stable
pub mod Stream
use shin_bucket_deployment.Prelude.{
  ℕ, zero, suc, ◌+◌, ◌-◌, ◌*◌, ◌≤◌, List, [], ◌∷◌, ◌++◌, Option, none, some, Bool, true, false,
  ◌==◌, ◌||◌, leb, ltb, min, Bytes, length, take, drop, is_empty, if◌then◌else◌, Result, ok, err,
  ◌>>=◌, ok_or, checked_add,
}

-- A match in a haystack: where it starts and ends, and the pattern's number.
pub record Match : Type 0 where
  pub start : ℕ
  pub stop : ℕ
  pub pattern : ℕ

-- The pairs of a pattern and its replacement, in the order of the automaton's patterns.
abbrev pub Pairs : Type 0
Pairs = List (Bytes × Bytes)

pub record MarkerReplacements : Type 0 where
  pub pairs : Pairs
  pub find : Bytes → Option Match
  pub max_pattern_bytes : ℕ

pub data ReplaceError : Type 0 where
  overflowed too_large observer_failed : ReplaceError

pub record OutputAccounting : Type 0 where
  pub max_output_bytes : ℕ
  pub output_bytes : ℕ
  pub md5 : Bytes
  pub staging : Bytes
  pub output : Bytes

pub record ReplacementResult : Type 0 where
  pub output_bytes : ℕ
  pub md5 : Bytes

abbrev pub output_coalesce_bytes : ℕ
output_coalesce_bytes = 8 * 1024

unfoldable pub new_accounting : ℕ → OutputAccounting
new_accounting max_output_bytes = record {
  max_output_bytes = max_output_bytes;
  output_bytes = 0;
  md5 = [];
  staging = [];
  output = [];
}

-- The full staging buffer goes to the pipe.
abbrev pub coalesce : OutputAccounting → OutputAccounting
coalesce a =
    if leb output_coalesce_bytes (length a.staging)
    then record a { output = a.output ++ a.staging; staging = [] }
    else a

-- `OutputAccounting::write`.
unfoldable pub write : OutputAccounting → Bytes → Result ReplaceError OutputAccounting
write a bytes = ok_or (checked_add a.output_bytes (length bytes)) overflowed >>= λ next.
    if ltb a.max_output_bytes next
    then err too_large
    else ok (
        coalesce
          (record a { md5 = a.md5 ++ bytes; output_bytes = next; staging = a.staging ++ bytes }))

unfoldable pub flush_staging : OutputAccounting → OutputAccounting
flush_staging a =
    if is_empty a.staging then a else record a { output = a.output ++ a.staging; staging = [] }

unfoldable pub finish : OutputAccounting → ReplacementResult
finish a = record { output_bytes = a.output_bytes; md5 = a.md5 }

-- `self.replacements[i]`.
unfoldable pub replacement : Pairs → ℕ → Bytes
replacement [] i = []
replacement ((p, r) ∷ pairs) zero = r
replacement ((p, r) ∷ pairs) (suc i) = replacement pairs i

-- `pending[from..to]`.
abbrev pub slice : Bytes → ℕ → ℕ → Bytes
slice pending from to = take (to - from) (drop from pending)

unfoldable pub stable_end : MarkerReplacements → Bool → Bytes → ℕ
stable_end m end_of_input pending =
    if end_of_input || (m.max_pattern_bytes == 0)
    then length pending
    else length pending - (m.max_pattern_bytes - 1)

-- The `while cursor < stable_end` loop. The fuel is a bound on its rounds: each moves the cursor.
unfoldable pub emit_loop :
    MarkerReplacements
    → Bytes
    → ℕ
    → ℕ
    → ℕ
    → OutputAccounting
    → Result ReplaceError (ℕ × OutputAccounting)
emit_loop m pending end zero cursor a = ok (cursor, a)
emit_loop m pending end (suc fuel) cursor a = elim (ltb cursor end) [
  | false ↦ ok (cursor, a)
  | true ↦ elim (m.find (drop cursor pending)) [
    | none ↦ write a (slice pending cursor end) >>= λ a'. ok (end, a')
    | some found ↦ elim (leb end (cursor + found.start)) [
      | true ↦ write a (slice pending cursor end) >>= λ a'. ok (end, a')
      | false ↦ write a (slice pending cursor (cursor + found.start)) >>= λ a'.
          write a' (replacement m.pairs found.pattern) >>= λ a''.
          emit_loop m pending end fuel (cursor + found.stop) a''
    ]
  ]
]

-- `emit_stable`: what is left pending, and the accounting.
unfoldable pub emit_stable :
    MarkerReplacements
    → Bytes
    → Bool
    → OutputAccounting
    → Result ReplaceError (Bytes × OutputAccounting)
unfolding emit_loop stable_end
emit_stable m pending end_of_input a =
    emit_loop m pending (stable_end m end_of_input pending) (length pending) 0 a >>= λ r.
    ok (drop r.0 pending, r.1)

-- The loop of `replace_stream`. `observe` judges the chunks read so far, latest first.
unfoldable pub stream_loop :
    MarkerReplacements
    → (List Bytes → Bool)
    → List Bytes
    → Bytes
    → List Bytes
    → OutputAccounting
    → Result ReplaceError (ReplacementResult × OutputAccounting)
unfolding emit_stable
stream_loop m observe seen pending [] a =
    emit_stable m pending true a >>= λ r. let b = flush_staging r.1 in ok (finish b, b)
stream_loop m observe seen pending (chunk ∷ chunks) a = elim (observe (chunk ∷ seen)) [
  | false ↦ err observer_failed
  | true ↦ emit_stable m (pending ++ chunk) false a >>= λ r.
      stream_loop m observe (chunk ∷ seen) r.0 chunks r.1
]

-- `replace_stream`: the result, with the accounting that holds the written output.
unfoldable pub replace_stream :
    MarkerReplacements
    → (List Bytes → Bool)
    → List Bytes
    → ℕ
    → Result ReplaceError (ReplacementResult × OutputAccounting)
unfolding stream_loop
replace_stream m observe chunks max_output_bytes =
    stream_loop m observe [] [] chunks (new_accounting max_output_bytes)
