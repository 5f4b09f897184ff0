-- ===== src/ByteArray/Fixed.antt =====
-- src/socket/bytearray.cpp, `writeFint8` to `writeFuint64`, `writeFloat`, `writeDouble` and their
-- readers: integers of 1, 2, 4 and 8 bytes in the byte order `m_endian`.
-- A signed integer is its bit pattern, so `writeFint16` and `writeFuint16` are one function here;
-- a float or double is the bit pattern that memcpy takes. `host` is `THIS_BYTE_ORDER`.
pub mod Wire
use cpp_server_framework.Prelude.{ℕ, List, [], ◌∷◌, if◌then◌else◌}
use cpp_server_framework.Endians.{
  Endian, is_same, in_memory, from_memory, bswap_16, bswap_32, bswap_64,
}
use cpp_server_framework.ByteArray.{ByteArray, Allocator, Result, ok, ◌>>=◌, read, write}

module _ (host : Endian) where
  -- `if (m_endian != THIS_BYTE_ORDER) value = byteswap(value);`
  unfoldable pub to_wire : Endian → (ℕ → ℕ) → ℕ → ℕ
  to_wire endian swap v = if is_same endian host then v else swap v

  module _ (alloc : Allocator) where
    unfoldable pub write_fuint8 : ByteArray → ℕ → Result ByteArray
    write_fuint8 a v = write alloc a (in_memory host 1 v)

    unfoldable pub write_fuint16 : ByteArray → ℕ → Result ByteArray
    write_fuint16 a v = write alloc a (in_memory host 2 (to_wire a.endian bswap_16 v))

    unfoldable pub write_fuint32 : ByteArray → ℕ → Result ByteArray
    write_fuint32 a v = write alloc a (in_memory host 4 (to_wire a.endian bswap_32 v))

    unfoldable pub write_fuint64 : ByteArray → ℕ → Result ByteArray
    write_fuint64 a v = write alloc a (in_memory host 8 (to_wire a.endian bswap_64 v))

    unfoldable pub write_float : ByteArray → ℕ → Result ByteArray
    write_float a bits = write_fuint32 a bits

    unfoldable pub write_double : ByteArray → ℕ → Result ByteArray
    write_double a bits = write_fuint64 a bits

  unfoldable pub read_fuint8 : ByteArray → Result (ℕ × ByteArray)
  read_fuint8 a = do (bytes, a') ← read a 1; ok (from_memory host bytes, a')

  unfoldable pub read_fuint16 : ByteArray → Result (ℕ × ByteArray)
  read_fuint16 a = do
    (bytes, a') ← read a 2
    ok (to_wire a'.endian bswap_16 (from_memory host bytes), a')

  unfoldable pub read_fuint32 : ByteArray → Result (ℕ × ByteArray)
  read_fuint32 a = do
    (bytes, a') ← read a 4
    ok (to_wire a'.endian bswap_32 (from_memory host bytes), a')

  unfoldable pub read_fuint64 : ByteArray → Result (ℕ × ByteArray)
  read_fuint64 a = do
    (bytes, a') ← read a 8
    ok (to_wire a'.endian bswap_64 (from_memory host bytes), a')

  unfoldable pub read_float : ByteArray → Result (ℕ × ByteArray)
  read_float a = read_fuint32 a

  unfoldable pub read_double : ByteArray → Result (ℕ × ByteArray)
  read_double a = read_fuint64 a
