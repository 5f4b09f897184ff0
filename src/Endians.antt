-- ===== src/Endians.antt =====
-- src/socket/endians.h: byte order. A uint16_t, uint32_t or uint64_t is a number below 2 ^ 16,
-- 2 ^ 32 or 2 ^ 64; a signed integer of the same width is its bit pattern, as the casts in
-- `byteswap` have it.
pub mod Swap
use cpp_server_framework.Prelude.{
  ℕ, zero, suc, ◌+◌, ◌*◌, ◌/◌, ◌%◌, ◌^◌, Bool, true, false, List, [], ◌∷◌, ◌++◌, bit_and, bit_or,
}

pub data Endian : Type 0 where
  little big : Endian

abbrev pub is_same : Endian → Endian → Bool
is_same little little = true
is_same big big = true
is_same little big = false
is_same big little = false

-- x >> k and x << k in a word of w bits.
abbrev pub shr : ℕ → ℕ → ℕ
shr x k = x / 2 ^ k

abbrev pub shl : ℕ → ℕ → ℕ → ℕ
shl w x k = x * 2 ^ k % 2 ^ w

unfoldable pub bswap_16 : ℕ → ℕ
bswap_16 v = bit_or (shr (bit_and v 0xFF00) 8) (shl 16 (bit_and v 0x00FF) 8)

unfoldable pub bswap_32 : ℕ → ℕ
bswap_32 v =
    bit_or
      (bit_or (bit_or (shr (bit_and v 0xFF00_0000) 24) (shr (bit_and v 0x00FF_0000) 8))
        (shl 32 (bit_and v 0x0000_FF00) 8))
      (shl 32 (bit_and v 0x0000_00FF) 24)

unfoldable pub bswap_64 : ℕ → ℕ
bswap_64 v =
    bit_or
      (bit_or
        (bit_or
          (bit_or
            (bit_or
              (bit_or
                (bit_or (shr (bit_and v 0xFF00_0000_0000_0000) 56)
                  (shr (bit_and v 0x00FF_0000_0000_0000) 40))
                (shr (bit_and v 0x0000_FF00_0000_0000) 24))
              (shr (bit_and v 0x0000_00FF_0000_0000) 8))
            (shl 64 (bit_and v 0x0000_0000_FF00_0000) 8))
          (shl 64 (bit_and v 0x0000_0000_00FF_0000) 24))
        (shl 64 (bit_and v 0x0000_0000_0000_FF00) 40))
      (shl 64 (bit_and v 0x0000_0000_0000_00FF) 56)

-- `THIS_BYTE_ORDER` is an argument.
pub byteswap_on_little_endian : Endian → (ℕ → ℕ) → ℕ → ℕ
byteswap_on_little_endian little swap v = swap v
byteswap_on_little_endian big swap v = v

pub byteswap_on_big_endian : Endian → (ℕ → ℕ) → ℕ → ℕ
byteswap_on_big_endian little swap v = v
byteswap_on_big_endian big swap v = swap v

-- The n bytes of an integer, the lowest first or last.
abbrev pub le_bytes : ℕ → ℕ → List ℕ
le_bytes zero v = []
le_bytes (suc n) v = v % 256 ∷ le_bytes n (v / 256)

abbrev pub be_bytes : ℕ → ℕ → List ℕ
be_bytes zero v = []
be_bytes (suc n) v = be_bytes n (v / 256) ++ (v % 256 ∷ [])

-- How an integer of n bytes lies in the memory of a machine of that byte order.
abbrev pub in_memory : Endian → ℕ → ℕ → List ℕ
in_memory little n v = le_bytes n v
in_memory big n v = be_bytes n v

abbrev pub from_le : List ℕ → ℕ
from_le [] = 0
from_le (b ∷ bs) = b + 256 * from_le bs

abbrev pub from_be : ℕ → List ℕ → ℕ
from_be acc [] = acc
from_be acc (b ∷ bs) = from_be (acc * 256 + b) bs

abbrev pub from_memory : Endian → List ℕ → ℕ
from_memory little bs = from_le bs
from_memory big bs = from_be 0 bs
