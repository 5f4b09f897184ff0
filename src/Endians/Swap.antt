-- ===== src/Endians/Swap.antt =====
-- The byte swaps as arithmetic: they turn the bytes round, and undo themselves.
use cpp_server_framework.Prelude.{
  ℕ, ◌+◌, ◌*◌, ◌/◌, ◌%◌, ◌^◌, ◌<◌, ◌≡◌, refl, ap, ◌∙◌, bit_and, arith,
}
use cpp_server_framework.Prelude.Bits.{bit_and_low, bit_and_shift, bit_or_comm_disjoint}
use cpp_server_framework.Endians.{bswap_16, bswap_32, bswap_64, le_bytes, be_bytes}

-- A mask of eight bits, from bit k on.
mask_byte : (k v : ℕ) → bit_and v (255 * 2 ^ k) ≡ v / 2 ^ k % 256 * 2 ^ k
mask_byte k v =
    bit_and_shift k v 255 ∙ ap (λ (t : ℕ). t * 2 ^ k) (bit_and_low 8 (v / 2 ^ k) 255 refl)

pub bswap_16_bytes : (v : ℕ) → v < 2 ^ 16 → bswap_16 v ≡ v % 256 * 256 + v / 256
unfolding bswap_16
bswap_16_bytes v h =
    let hi : bit_and v 0xFF00 / 2 ^ 8 ≡ v / 256 = omega (arith, mask_byte 8 v) in
    let lo : bit_and v 0x00FF * 2 ^ 8 % 2 ^ 16 ≡ v % 256 * 2 ^ 8 =
      omega (arith, bit_and_low 8 v 255 refl) in
    rw (hi, lo) (bit_or_comm_disjoint 8 (v % 256) (v / 256) (omega arith))

pub bswap_32_bytes :
    (v : ℕ)
    → v < 2 ^ 32
    → bswap_32 v
      ≡ v % 256 * 2 ^ 24 + (v / 256 % 256 * 2 ^ 16 + (v / 2 ^ 16 % 256 * 2 ^ 8 + v / 2 ^ 24))
unfolding bswap_32
bswap_32_bytes v h =
    let b0 : bit_and v 0xFF00_0000 / 2 ^ 24 ≡ v / 2 ^ 24 = omega (arith, mask_byte 24 v) in
    let b1 : bit_and v 0x00FF_0000 / 2 ^ 8 ≡ v / 2 ^ 16 % 256 * 2 ^ 8 =
      omega (arith, mask_byte 16 v) in
    let b2 : bit_and v 0x0000_FF00 * 2 ^ 8 % 2 ^ 32 ≡ v / 256 % 256 * 2 ^ 16 =
      omega (arith, mask_byte 8 v) in
    let b3 : bit_and v 0x0000_00FF * 2 ^ 24 % 2 ^ 32 ≡ v % 256 * 2 ^ 24 =
      omega (arith, bit_and_low 8 v 255 refl) in
    rw (
      b0,
      b1,
      b2,
      b3,
      bit_or_comm_disjoint 8 (v / 2 ^ 16 % 256) (v / 2 ^ 24) (omega arith),
      bit_or_comm_disjoint 16 (v / 256 % 256) (v / 2 ^ 16 % 256 * 2 ^ 8 + v / 2 ^ 24) (omega arith),
      bit_or_comm_disjoint 24 (v % 256)
          (v / 256 % 256 * 2 ^ 16 + (v / 2 ^ 16 % 256 * 2 ^ 8 + v / 2 ^ 24)) (omega arith),
    )

pub bswap_64_bytes :
    (v : ℕ)
    → v < 2 ^ 64
    → bswap_64 v
      ≡ v % 256 * 2 ^ 56
        + (v / 2 ^ 8 % 256 * 2 ^ 48
            + (v / 2 ^ 16 % 256 * 2 ^ 40
                + (v / 2 ^ 24 % 256 * 2 ^ 32
                    + (v / 2 ^ 32 % 256 * 2 ^ 24
                        + (v / 2 ^ 40 % 256 * 2 ^ 16 + (v / 2 ^ 48 % 256 * 2 ^ 8 + v / 2 ^ 56))))))
unfolding bswap_64
bswap_64_bytes v h =
    let b0 : bit_and v 0xFF00_0000_0000_0000 / 2 ^ 56 ≡ v / 2 ^ 56 =
      omega (arith, mask_byte 56 v) in
    let b1 : bit_and v 0x00FF_0000_0000_0000 / 2 ^ 40 ≡ v / 2 ^ 48 % 256 * 2 ^ 8 =
      omega (arith, mask_byte 48 v) in
    let b2 : bit_and v 0x0000_FF00_0000_0000 / 2 ^ 24 ≡ v / 2 ^ 40 % 256 * 2 ^ 16 =
      omega (arith, mask_byte 40 v) in
    let b3 : bit_and v 0x0000_00FF_0000_0000 / 2 ^ 8 ≡ v / 2 ^ 32 % 256 * 2 ^ 24 =
      omega (arith, mask_byte 32 v) in
    let b4 : bit_and v 0x0000_0000_FF00_0000 * 2 ^ 8 % 2 ^ 64 ≡ v / 2 ^ 24 % 256 * 2 ^ 32 =
      omega (arith, mask_byte 24 v) in
    let b5 : bit_and v 0x0000_0000_00FF_0000 * 2 ^ 24 % 2 ^ 64 ≡ v / 2 ^ 16 % 256 * 2 ^ 40 =
      omega (arith, mask_byte 16 v) in
    let b6 : bit_and v 0x0000_0000_0000_FF00 * 2 ^ 40 % 2 ^ 64 ≡ v / 2 ^ 8 % 256 * 2 ^ 48 =
      omega (arith, mask_byte 8 v) in
    let b7 : bit_and v 0x0000_0000_0000_00FF * 2 ^ 56 % 2 ^ 64 ≡ v % 256 * 2 ^ 56 =
      omega (arith, bit_and_low 8 v 255 refl) in
    let s1 = v / 2 ^ 48 % 256 * 2 ^ 8 + v / 2 ^ 56 in
    let s2 = v / 2 ^ 40 % 256 * 2 ^ 16 + s1 in
    let s3 = v / 2 ^ 32 % 256 * 2 ^ 24 + s2 in
    let s4 = v / 2 ^ 24 % 256 * 2 ^ 32 + s3 in
    let s5 = v / 2 ^ 16 % 256 * 2 ^ 40 + s4 in
    let s6 = v / 2 ^ 8 % 256 * 2 ^ 48 + s5 in
    let f0 : v / 2 ^ 56 < 2 ^ 8 = omega arith in
    let f1 : s1 < 2 ^ 16 = omega arith in
    let f2 : s2 < 2 ^ 24 = omega arith in
    let f3 : s3 < 2 ^ 32 = omega arith in
    let f4 : s4 < 2 ^ 40 = omega arith in
    let f5 : s5 < 2 ^ 48 = omega arith in
    let f6 : s6 < 2 ^ 56 = omega arith in
    rw (
      b0,
      b1,
      b2,
      b3,
      b4,
      b5,
      b6,
      b7,
      bit_or_comm_disjoint 8 (v / 2 ^ 48 % 256) (v / 2 ^ 56) f0,
      bit_or_comm_disjoint 16 (v / 2 ^ 40 % 256) s1 f1,
      bit_or_comm_disjoint 24 (v / 2 ^ 32 % 256) s2 f2,
      bit_or_comm_disjoint 32 (v / 2 ^ 24 % 256) s3 f3,
      bit_or_comm_disjoint 40 (v / 2 ^ 16 % 256) s4 f4,
      bit_or_comm_disjoint 48 (v / 2 ^ 8 % 256) s5 f5,
      bit_or_comm_disjoint 56 (v % 256) s6 f6,
    )

-- A swapped uint16_t has the bytes of the number the other way round; so swapping twice is none.
pub bswap_16_turns :
    (v : ℕ)
    → v < 2 ^ 16
    → (le_bytes 2 (bswap_16 v) ≡ be_bytes 2 v)
      × (be_bytes 2 (bswap_16 v) ≡ le_bytes 2 v)
      × (bswap_16 (bswap_16 v) ≡ v)
bswap_16_turns v h = (
  rw (bswap_16_bytes v h) (ground arith),
  rw (bswap_16_bytes v h) (ground arith),
  omega (arith, bswap_16_bytes v h, bswap_16_bytes (bswap_16 v)),
)

-- Below 2^32 the masks and shifts of `bswap_32` turn the four bytes around, in either byte order,
-- and twice gives the number back.
pub bswap_32_turns :
    (v : ℕ)
    → v < 2 ^ 32
    → (le_bytes 4 (bswap_32 v) ≡ be_bytes 4 v)
      × (be_bytes 4 (bswap_32 v) ≡ le_bytes 4 v)
      × (bswap_32 (bswap_32 v) ≡ v)
bswap_32_turns v h = (
  rw (bswap_32_bytes v h) (ground arith),
  rw (bswap_32_bytes v h) (ground arith),
  omega (arith, bswap_32_bytes v h, bswap_32_bytes (bswap_32 v)),
)

-- Below 2^64 the masks and shifts of `bswap_64` turn the eight bytes around, in either byte order,
-- and twice gives the number back.
pub bswap_64_turns :
    (v : ℕ)
    → v < 2 ^ 64
    → (le_bytes 8 (bswap_64 v) ≡ be_bytes 8 v)
      × (be_bytes 8 (bswap_64 v) ≡ le_bytes 8 v)
      × (bswap_64 (bswap_64 v) ≡ v)
bswap_64_turns v h = (
  rw (bswap_64_bytes v h) (ground arith),
  rw (bswap_64_bytes v h) (ground arith),
  omega (arith, bswap_64_bytes v h, bswap_64_bytes (bswap_64 v)),
)
