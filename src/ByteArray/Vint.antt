-- ===== src/ByteArray/Vint.antt =====
-- src/socket/bytearray.cpp, `EncodeZigzag` to `writeUint64` and `readInt32` to `readUint64`:
-- integers in groups of seven bits. A signed integer is its bit pattern; where the arithmetic of
-- `EncodeZigzag` leaves the signed range it is taken to wrap.
pub mod Groups
pub mod Zigzag
pub mod Reading
pub mod RoundTrip
use cpp_server_framework.Prelude.{
  ℕ, zero, suc, ◌+◌, ◌-◌, ◌*◌, ◌/◌, ◌%◌, ◌^◌, Bool, List, [], ◌∷◌, ltb, leb, if◌then◌else◌, Option,
  none, some, bit_and, bit_or, bit_xor,
}
use cpp_server_framework.Endians.{Endian}
use cpp_server_framework.ByteArray.{ByteArray, Allocator, Result, ok, fault, ◌>>=◌, write}
use cpp_server_framework.ByteArray.Fixed.{read_fuint8}
use mathlib.Core.Option

-- The loop of `writeUint32` and `writeUint64` over `tmp`, of which `slots` bytes are left; none is
-- a write behind the end of `tmp`.
unfoldable pub groups : ℕ → ℕ → Option (List ℕ)
groups zero value = none
groups (suc slots) value =
    let rest = groups slots (value / 2 ^ 7) in
    if leb 0x80 value
    then Option.map (λ bytes. bit_or (bit_and value 0x7F) 0x80 % 256 ∷ bytes) rest
    else some (value % 256 ∷ [])

module _ (alloc : Allocator) where
  write_groups : Option (List ℕ) → ByteArray → Result ByteArray
  write_groups none a = fault
  write_groups (some bytes) a = write alloc a bytes

  unfoldable pub write_uint32 : ByteArray → ℕ → Result ByteArray
  unfolding write_groups
  write_uint32 a value = write_groups (groups 5 value) a

  unfoldable pub write_uint64 : ByteArray → ℕ → Result ByteArray
  unfolding write_groups
  write_uint64 a value = write_groups (groups 10 value) a

-- The loop of `readUint32` and `readUint64` on integers of w bits, from `i` on, with `rounds` left
-- of those in which `i < w`.
unfoldable pub read_groups : Endian → ℕ → ℕ → ℕ → ℕ → ByteArray → Result (ℕ × ByteArray)
read_groups host w zero i result a = ok (result, a)
read_groups host w (suc rounds) i result a = do
  (b, a') ← read_fuint8 host a
  if ltb b 0x80
      then ok (bit_or result (b * 2 ^ i % 2 ^ w), a')
      else read_groups host w rounds (i + 7) (bit_or result (bit_and b 0x7f * 2 ^ i % 2 ^ w)) a'

unfoldable pub read_uint32 : Endian → ByteArray → Result (ℕ × ByteArray)
read_uint32 host a = read_groups host 32 5 0 0 a

unfoldable pub read_uint64 : Endian → ByteArray → Result (ℕ × ByteArray)
read_uint64 host a = read_groups host 64 10 0 0 a

-- On signed integers of w bits: `v < 0` is the top bit, and -v is 2 ^ w - v.
unfoldable pub encode_zigzag : ℕ → ℕ → ℕ
encode_zigzag w v =
    if leb (2 ^ (w - 1)) v then ((2 ^ w - v) * 2 + 2 ^ w - 1) % 2 ^ w else v * 2 % 2 ^ w

-- On unsigned integers of w bits, as `readInt32` and `readInt64` call it.
unfoldable pub decode_zigzag : ℕ → ℕ → ℕ
decode_zigzag w v = bit_xor (v / 2) ((2 ^ w - bit_and v 1) % 2 ^ w)

module _ (alloc : Allocator) where
  unfoldable pub write_int32 : ByteArray → ℕ → Result ByteArray
  write_int32 a value = write_uint32 alloc a (encode_zigzag 32 value)

  unfoldable pub write_int64 : ByteArray → ℕ → Result ByteArray
  write_int64 a value = write_uint64 alloc a (encode_zigzag 64 value)

unfoldable pub read_int32 : Endian → ByteArray → Result (ℕ × ByteArray)
read_int32 host a = do (v, a') ← read_uint32 host a; ok (decode_zigzag 32 v, a')

unfoldable pub read_int64 : Endian → ByteArray → Result (ℕ × ByteArray)
read_int64 host a = do (v, a') ← read_uint64 host a; ok (decode_zigzag 64 v, a')
