-- ===== src/ByteArray/Text/RoundTrip.antt =====
-- A string that is not empty comes back from each of the four formats.
use cpp_server_framework.Prelude.{
  ℕ, ◌+◌, ◌%◌, ◌^◌, ◌<◌, ◌≡◌, ap, ◌∙◌, List, ◌++◌, append_assoc, length, arith,
}
use cpp_server_framework.Endians.{Endian, in_memory}
use cpp_server_framework.ByteArray.{ByteArray, Allocator, Result, ◌>>=◌, read, write}
use cpp_server_framework.ByteArray.Codec.{
  IsWritable, IsReadable, Wrote, ReadBack, write-Wrote, read-ReadBack, then-Wrote, then-ReadBack,
  round_trip,
}
use cpp_server_framework.ByteArray.Fixed.Wire.{
  length-in_memory, write_fuint16_wire, write_fuint32_wire, write_fuint64_wire, read_fuint16_wire,
  read_fuint32_wire, read_fuint64_wire,
}
use cpp_server_framework.ByteArray.Vint.RoundTrip.{
  ComesBack, write_uint64-IsGroups, read_uint64_groups, IsWritable-less,
}
use cpp_server_framework.ByteArray.Fixed.{
  write_fuint16, write_fuint32, write_fuint64, read_fuint16, read_fuint32, read_fuint64,
}
use cpp_server_framework.ByteArray.Vint.{write_uint64, read_uint64}
use cpp_server_framework.ByteArray.Text.{
  write_string_f16, write_string_f32, write_string_f64, write_string_vint, read_string_f16,
  read_string_f32, read_string_f64, read_string_vint,
}
use native.Mathlib.Nat.{mod-eq_of_lt}

-- Behind any prefix that holds the length.
text-Wrote :
    (alloc : Allocator) (a : ByteArray) (prefix value : List ℕ) (r : Result ByteArray)
    → IsWritable a (length prefix + length value)
    → Wrote a prefix r
    → Wrote a (prefix ++ value) (r >>= λ b. write alloc b value)
text-Wrote alloc a prefix value r w wrote =
    then-Wrote a prefix value r (λ b. write alloc b value) w wrote
      (λ b wb _. write-Wrote alloc b value wb)

Wrote-run :
    (a : ByteArray) (enc : List ℕ) {r r' : Result ByteArray}
    → r ≡ r'
    → Wrote a enc r'
    → Wrote a enc r
Wrote-run a enc e (b, run, v, t, seen) = (b, e ∙ run, v, t, seen)

IsReadable-prefix : (a : ByteArray) (e1 e2 : List ℕ) → IsReadable a (e1 ++ e2) → IsReadable a e1
IsReadable-prefix a e1 e2 r = record {
  valid = r.valid;
  rest = e2 ++ r.rest;
  ahead = r.ahead ∙ append_assoc e1 e2 r.rest;
}

text-ReadBack :
    (a : ByteArray) (prefix value : List ℕ) (r : Result (ℕ × ByteArray))
    → 0 < length value
    → IsReadable a (prefix ++ value)
    → ReadBack a (length prefix) (length value) r
    → ReadBack a (length (prefix ++ value)) value (r >>= λ (x : ℕ × ByteArray). read x.1 x.0)
text-ReadBack a prefix value r pos rd back =
    then-ReadBack a prefix value (length value) value r (λ x. read x.1 x.0) rd back
      (λ b rb _. read-ReadBack b value rb pos)

module _ (host : Endian) (alloc : Allocator) (a : ByteArray) (value : List ℕ) where
  -- `readStringF16` gives back a string of 1 to 65535 bytes that `writeStringF16` put at the end of
  -- a valid buffer with room for it.
  pub string_f16_round_trip :
      0 < length value
      → length value < 2 ^ 16
      → IsWritable a (2 + length value)
      → ComesBack a value (λ q. write_string_f16 host alloc q value) (read_string_f16 host)
  unfolding write_string_f16 read_string_f16
  string_f16_round_trip pos h w =
      let n = length value in
      let code = in_memory a.endian 2 n in
      let len : length code ≡ 2 = length-in_memory a.endian 2 n in
      let short : n % 2 ^ 16 ≡ n = mod-eq_of_lt h in
      let wrote : Wrote a (code ++ value) (write_string_f16 host alloc a value) = rw short (
        text-Wrote alloc a code value (write_fuint16 host alloc a n) (rw len w)
          (write_fuint16_wire host alloc a n h (IsWritable-less a 2 (2 + n) (omega arith) w))) in
      round_trip a (code ++ value) value (λ q. write_string_f16 host alloc q value)
        (read_string_f16 host) w.valid wrote
        (λ c rd e.
          let turn = ap (λ en. in_memory en 2 n) e in
          let ahead : IsReadable c (in_memory c.endian 2 n) =
            rw turn (IsReadable-prefix c code value rd) in
          text-ReadBack c code value (read_fuint16 host c) pos rd
            (rw len (read_fuint16_wire host c n h ahead)))

  -- `readStringF32` gives back a string of 1 to 2^32 - 1 bytes that `writeStringF32` put at the end
  -- of a valid buffer with room for it.
  pub string_f32_round_trip :
      0 < length value
      → length value < 2 ^ 32
      → IsWritable a (4 + length value)
      → ComesBack a value (λ q. write_string_f32 host alloc q value) (read_string_f32 host)
  unfolding write_string_f32 read_string_f32
  string_f32_round_trip pos h w =
      let n = length value in
      let code = in_memory a.endian 4 n in
      let len : length code ≡ 4 = length-in_memory a.endian 4 n in
      let short : n % 2 ^ 32 ≡ n = mod-eq_of_lt h in
      let wrote : Wrote a (code ++ value) (write_string_f32 host alloc a value) = rw short (
        text-Wrote alloc a code value (write_fuint32 host alloc a n) (rw len w)
          (write_fuint32_wire host alloc a n h (IsWritable-less a 4 (4 + n) (omega arith) w))) in
      round_trip a (code ++ value) value (λ q. write_string_f32 host alloc q value)
        (read_string_f32 host) w.valid wrote
        (λ c rd e.
          let turn = ap (λ en. in_memory en 4 n) e in
          let ahead : IsReadable c (in_memory c.endian 4 n) =
            rw turn (IsReadable-prefix c code value rd) in
          text-ReadBack c code value (read_fuint32 host c) pos rd
            (rw len (read_fuint32_wire host c n h ahead)))

  -- `readStringF64` gives back a string of 1 to 2^64 - 1 bytes that `writeStringF64` put at the end
  -- of a valid buffer with room for it.
  pub string_f64_round_trip :
      0 < length value
      → length value < 2 ^ 64
      → IsWritable a (8 + length value)
      → ComesBack a value (λ q. write_string_f64 host alloc q value) (read_string_f64 host)
  unfolding write_string_f64 read_string_f64
  string_f64_round_trip pos h w =
      let n = length value in
      let code = in_memory a.endian 8 n in
      let len : length code ≡ 8 = length-in_memory a.endian 8 n in
      let short : n % 2 ^ 64 ≡ n = mod-eq_of_lt h in
      let wrote : Wrote a (code ++ value) (write_string_f64 host alloc a value) = rw short (
        text-Wrote alloc a code value (write_fuint64 host alloc a n) (rw len w)
          (write_fuint64_wire host alloc a n h (IsWritable-less a 8 (8 + n) (omega arith) w))) in
      round_trip a (code ++ value) value (λ q. write_string_f64 host alloc q value)
        (read_string_f64 host) w.valid wrote
        (λ c rd e.
          let turn = ap (λ en. in_memory en 8 n) e in
          let ahead : IsReadable c (in_memory c.endian 8 n) =
            rw turn (IsReadable-prefix c code value rd) in
          text-ReadBack c code value (read_fuint64 host c) pos rd
            (rw len (read_fuint64_wire host c n h ahead)))

  -- `readStringVint` gives back a string of 1 to 2^64 - 1 bytes that `writeStringVint` put at the
  -- end of a valid buffer with room for it.
  pub string_vint_round_trip :
      0 < length value
      → length value < 2 ^ 64
      → IsWritable a (10 + length value)
      → ComesBack a value (λ q. write_string_vint host alloc q value) (read_string_vint host)
  unfolding write_string_vint read_string_vint
  string_vint_round_trip pos h w =
      let n = length value in
      let short : n % 2 ^ 64 ≡ n = mod-eq_of_lt h in
      let (code, g, val, len, put_code) =
        write_uint64-IsGroups alloc a n h (IsWritable-less a 10 (10 + n) (omega arith) w) in
      let room = IsWritable-less a (length code + n) (10 + n) (omega (arith, len)) w in
      let wrote : Wrote a (code ++ value) (write_string_vint host alloc a value) =
        Wrote-run a (code ++ value)
          (ap (λ k. write_uint64 alloc a k >>= λ b. write alloc b value) short)
          (text-Wrote alloc a code value (write_uint64 alloc a n) room put_code) in
      round_trip a (code ++ value) value (λ q. write_string_vint host alloc q value)
        (read_string_vint host) w.valid wrote
        (λ c rd _. text-ReadBack c code value (read_uint64 host c) pos rd (
          rw val at (
            read_uint64_groups host c code g len (omega (arith, val, h))
              (IsReadable-prefix c code value rd))))
