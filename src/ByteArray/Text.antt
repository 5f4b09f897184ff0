-- ===== src/ByteArray/Text.antt =====
-- src/socket/bytearray.cpp, `writeStringF16` to `writeStringWithoutLength` and their readers: a
-- string is the list of its bytes, behind its length in 2, 4 or 8 bytes or in groups.
pub mod RoundTrip
use cpp_server_framework.Prelude.{ℕ, ◌%◌, ◌^◌, List, length}
use cpp_server_framework.Endians.{Endian}
use cpp_server_framework.ByteArray.{ByteArray, Allocator, Result, ok, ◌>>=◌, read, write}
use cpp_server_framework.ByteArray.Fixed.{
  write_fuint16, write_fuint32, write_fuint64, read_fuint16, read_fuint32, read_fuint64,
}
use cpp_server_framework.ByteArray.Vint.{write_uint64, read_uint64}

module _ (host : Endian) (alloc : Allocator) where
  -- The argument of `writeFuint16` is a uint16_t: of a longer size the low 16 bits are left.
  unfoldable pub write_string_f16 : ByteArray → List ℕ → Result ByteArray
  write_string_f16 a value = do
    a' ← write_fuint16 host alloc a (length value % 2 ^ 16)
    write alloc a' value

  unfoldable pub write_string_f32 : ByteArray → List ℕ → Result ByteArray
  write_string_f32 a value = do
    a' ← write_fuint32 host alloc a (length value % 2 ^ 32)
    write alloc a' value

  unfoldable pub write_string_f64 : ByteArray → List ℕ → Result ByteArray
  write_string_f64 a value = do
    a' ← write_fuint64 host alloc a (length value % 2 ^ 64)
    write alloc a' value

  unfoldable pub write_string_vint : ByteArray → List ℕ → Result ByteArray
  write_string_vint a value = do
    a' ← write_uint64 alloc a (length value % 2 ^ 64)
    write alloc a' value

  unfoldable pub write_string_without_length : ByteArray → List ℕ → Result ByteArray
  write_string_without_length a value = write alloc a value

module _ (host : Endian) where
  unfoldable pub read_string_f16 : ByteArray → Result (List ℕ × ByteArray)
  read_string_f16 a = do (len, a') ← read_fuint16 host a; read a' len

  unfoldable pub read_string_f32 : ByteArray → Result (List ℕ × ByteArray)
  read_string_f32 a = do (len, a') ← read_fuint32 host a; read a' len

  unfoldable pub read_string_f64 : ByteArray → Result (List ℕ × ByteArray)
  read_string_f64 a = do (len, a') ← read_fuint64 host a; read a' len

  unfoldable pub read_string_vint : ByteArray → Result (List ℕ × ByteArray)
  read_string_vint a = do (len, a') ← read_uint64 host a; read a' len
