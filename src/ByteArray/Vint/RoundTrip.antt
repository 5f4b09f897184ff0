-- ===== src/ByteArray/Vint/RoundTrip.antt =====
-- `readUint32` and `readUint64` read what `writeUint32` and `writeUint64` wrote; so with zigzag.
use cpp_server_framework.Prelude.{ℕ, ◌+◌, ◌*◌, ◌^◌, ◌≤◌, ◌<◌, ◌≡◌, ap, ◌∙◌, List, length, arith}
use cpp_server_framework.Endians.{Endian}
use cpp_server_framework.ByteArray.{ByteArray, Allocator, Result, ok, ◌>>=◌, set_position}
use cpp_server_framework.ByteArray.Valid.{IsValid, view}
use cpp_server_framework.ByteArray.Vint.Reading.{read_groups_lem}
use cpp_server_framework.ByteArray.Codec.{
  IsWritable, IsReadable, Wrote, ReadBack, write-Wrote, round_trip,
}
use cpp_server_framework.ByteArray.Vint.{
  write_uint32, write_uint64, read_uint32, read_uint64, encode_zigzag, decode_zigzag, write_int32,
  write_int64, read_int32, read_int64,
}
use cpp_server_framework.ByteArray.Vint.Groups.{IsGroups, value_of, groups_total}
use cpp_server_framework.ByteArray.Vint.Zigzag.{
  encode_zigzag_32-lt, encode_zigzag_64-lt, zigzag_32, zigzag_64,
}

pub IsWritable-less : (a : ByteArray) (n k : ℕ) → n ≤ k → IsWritable a k → IsWritable a n
IsWritable-less a n k le w = record {
  valid = w.valid;
  tight = w.tight;
  fits = omega (arith, w.fits);
}

module _ (alloc : Allocator) (a : ByteArray) (v : ℕ) where
  -- `writeUint32` never writes behind the end of its five bytes, and puts the groups of the number
  -- into the buffer.
  pub write_uint32-IsGroups :
      v < 2 ^ 32
      → IsWritable a 5
      → (enc : List ℕ) × IsGroups enc
        × (value_of enc ≡ v)
        × (length enc ≤ 5)
        × Wrote a enc (write_uint32 alloc a v)
  unfolding write_uint32
  write_uint32-IsGroups h w =
      let (enc, run, is) = groups_total 4 v (omega arith) in
      let (g, val, pos, len) = is in
      let small = IsWritable-less a (length enc) 5 len w in
      (enc, g, val, len, rw run (write-Wrote alloc a enc small))

  -- The same of `writeUint64` and its ten bytes.
  pub write_uint64-IsGroups :
      v < 2 ^ 64
      → IsWritable a 10
      → (enc : List ℕ) × IsGroups enc
        × (value_of enc ≡ v)
        × (length enc ≤ 10)
        × Wrote a enc (write_uint64 alloc a v)
  unfolding write_uint64
  write_uint64-IsGroups h w =
      let (enc, run, is) = groups_total 9 v (omega arith) in
      let (g, val, pos, len) = is in
      let small = IsWritable-less a (length enc) 10 len w in
      (enc, g, val, len, rw run (write-Wrote alloc a enc small))

module _ (host : Endian) (a : ByteArray) (enc : List ℕ) where
  pub read_uint32_groups :
      IsGroups enc
      → length enc ≤ 5
      → value_of enc < 2 ^ 32
      → IsReadable a enc
      → ReadBack a (length enc) (value_of enc) (read_uint32 host a)
  unfolding read_uint32
  read_uint32_groups g len h r =
      let e : 0 + value_of enc * 2 ^ 0 ≡ value_of enc = omega arith in
      rw e at (read_groups_lem host 32 enc 5 0 0 a g len r (omega arith) (omega arith))

  pub read_uint64_groups :
      IsGroups enc
      → length enc ≤ 10
      → value_of enc < 2 ^ 64
      → IsReadable a enc
      → ReadBack a (length enc) (value_of enc) (read_uint64 host a)
  unfolding read_uint64
  read_uint64_groups g len h r =
      let e : 0 + value_of enc * 2 ^ 0 ≡ value_of enc = omega arith in
      rw e at (read_groups_lem host 64 enc 10 0 0 a g len r (omega arith) (omega arith))

-- The value that a writer put at the end of the buffer comes back when the reader starts there.
abbrev pub ComesBack :
    {A : Type 0}
    → ByteArray
    → A
    → (ByteArray → Result ByteArray)
    → (ByteArray → Result (A × ByteArray))
    → Type 0
ComesBack a x w r =
    (b c d : ByteArray) × (w a ≡ ok b)
    × (set_position b a.position ≡ ok c)
    × (r c ≡ ok (x, d))
    × IsValid d
    × (view d ≡ view b)

module _ (host : Endian) (alloc : Allocator) (a : ByteArray) (v : ℕ) where
  -- `readUint32` gives back every number below 2^32 that `writeUint32` put at the end of a valid
  -- buffer, when the position is set back to the start.
  pub uint32_round_trip :
      v < 2 ^ 32 → IsWritable a 5 → ComesBack a v (λ q. write_uint32 alloc q v) (read_uint32 host)
  uint32_round_trip h w =
      let (enc, g, val, len, wrote) = write_uint32-IsGroups alloc a v h w in
      round_trip a enc v (λ q. write_uint32 alloc q v) (read_uint32 host) w.valid wrote
        (λ c rd _. rw val at (read_uint32_groups host c enc g len (omega (arith, val)) rd))

  -- `readUint64` gives back every number below 2^64 that `writeUint64` put at the end of a valid
  -- buffer, when the position is set back to the start.
  pub uint64_round_trip :
      v < 2 ^ 64 → IsWritable a 10 → ComesBack a v (λ q. write_uint64 alloc q v) (read_uint64 host)
  uint64_round_trip h w =
      let (enc, g, val, len, wrote) = write_uint64-IsGroups alloc a v h w in
      round_trip a enc v (λ q. write_uint64 alloc q v) (read_uint64 host) w.valid wrote
        (λ c rd _. rw val at (read_uint64_groups host c enc g len (omega (arith, val)) rd))

module _ (host : Endian) (alloc : Allocator) (a : ByteArray) (v : ℕ) where
  -- `readInt32` gives back every int32_t, as its bit pattern, that `writeInt32` put at the end of a
  -- valid buffer.
  pub int32_round_trip :
      v < 2 ^ 32 → IsWritable a 5 → ComesBack a v (λ q. write_int32 alloc q v) (read_int32 host)
  unfolding write_int32 read_int32
  int32_round_trip h w =
      let code = encode_zigzag 32 v in
      let (b, c, d, run1, run2, run3, vd, seen) =
        uint32_round_trip host alloc a code (encode_zigzag_32-lt v h) w in
      (
        b,
        c,
        d,
        run1,
        run2,
        ap (λ q. q >>= λ (x : ℕ × ByteArray). ok (decode_zigzag 32 x.0, x.1)) run3
            ∙ ap (λ x. ok (x, d)) (zigzag_32 v h).0,
        vd,
        seen,
      )

  -- `readInt64` gives back every int64_t, as its bit pattern, that `writeInt64` put at the end of a
  -- valid buffer.
  pub int64_round_trip :
      v < 2 ^ 64 → IsWritable a 10 → ComesBack a v (λ q. write_int64 alloc q v) (read_int64 host)
  unfolding write_int64 read_int64
  int64_round_trip h w =
      let code = encode_zigzag 64 v in
      let (b, c, d, run1, run2, run3, vd, seen) =
        uint64_round_trip host alloc a code (encode_zigzag_64-lt v h) w in
      (
        b,
        c,
        d,
        run1,
        run2,
        ap (λ q. q >>= λ (x : ℕ × ByteArray). ok (decode_zigzag 64 x.0, x.1)) run3
            ∙ ap (λ x. ok (x, d)) (zigzag_64 v h).0,
        vd,
        seen,
      )
