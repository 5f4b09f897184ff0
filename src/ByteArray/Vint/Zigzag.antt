-- ===== src/ByteArray/Vint/Zigzag.antt =====
-- `EncodeZigzag` and `DecodeZigzag` undo one another on all integers of 32 and of 64 bits.
use cpp_server_framework.Prelude.{
  ℕ, ◌-◌, ◌*◌, ◌/◌, ◌%◌, ◌^◌, ◌≤◌, ◌<◌, ◌≡◌, refl, bit_and, dec_le, ◌⊎◌, inl, inr, arith,
}
use cpp_server_framework.Prelude.Bits.{bit_and_low, bit_xor-zero, bit_xor_ones}
use cpp_server_framework.ByteArray.Vint.{encode_zigzag, decode_zigzag}

-- What the decoder computes, by the lowest bit.
decode_32 :
    (v : ℕ)
    → v < 2 ^ 32
    → ((v % 2 ≡ 0) × (decode_zigzag 32 v ≡ v / 2))
      ⊎ ((v % 2 ≡ 1) × (decode_zigzag 32 v ≡ 2 ^ 32 - 1 - v / 2))
unfolding decode_zigzag
decode_32 v h = elim (dec_le (v % 2) 0) [
  | yes even ↦
      let e : (2 ^ 32 - bit_and v 1) % 2 ^ 32 ≡ 0 = omega (arith, bit_and_low 1 v 1 refl) in
      inl (omega arith, rw e (bit_xor-zero (v / 2)))
  | no odd ↦
      let e : (2 ^ 32 - bit_and v 1) % 2 ^ 32 ≡ 2 ^ 32 - 1 =
        omega (arith, bit_and_low 1 v 1 refl) in
      inr (omega arith, rw e (bit_xor_ones 32 (v / 2) (2 ^ 32 - 1) refl (omega arith)))
]

decode_64 :
    (v : ℕ)
    → v < 2 ^ 64
    → ((v % 2 ≡ 0) × (decode_zigzag 64 v ≡ v / 2))
      ⊎ ((v % 2 ≡ 1) × (decode_zigzag 64 v ≡ 2 ^ 64 - 1 - v / 2))
unfolding decode_zigzag
decode_64 v h = elim (dec_le (v % 2) 0) [
  | yes even ↦
      let e : (2 ^ 64 - bit_and v 1) % 2 ^ 64 ≡ 0 = omega (arith, bit_and_low 1 v 1 refl) in
      inl (omega arith, rw e (bit_xor-zero (v / 2)))
  | no odd ↦
      let e : (2 ^ 64 - bit_and v 1) % 2 ^ 64 ≡ 2 ^ 64 - 1 =
        omega (arith, bit_and_low 1 v 1 refl) in
      inr (omega arith, rw e (bit_xor_ones 64 (v / 2) (2 ^ 64 - 1) refl (omega arith)))
]

encode_32 :
    (v : ℕ)
    → v < 2 ^ 32
    → ((v < 2 ^ 31) × (encode_zigzag 32 v ≡ v * 2))
      ⊎ ((2 ^ 31 ≤ v) × (encode_zigzag 32 v ≡ (2 ^ 32 - v) * 2 - 1))
unfolding encode_zigzag
encode_32 v h = elim (dec_le (2 ^ 31) v) [
  | yes neg ↦ inr (neg, ground arith)
  | no pos ↦ inl (omega arith, ground arith)
]

encode_64 :
    (v : ℕ)
    → v < 2 ^ 64
    → ((v < 2 ^ 63) × (encode_zigzag 64 v ≡ v * 2))
      ⊎ ((2 ^ 63 ≤ v) × (encode_zigzag 64 v ≡ (2 ^ 64 - v) * 2 - 1))
unfolding encode_zigzag
encode_64 v h = elim (dec_le (2 ^ 63) v) [
  | yes neg ↦ inr (neg, ground arith)
  | no pos ↦ inl (omega arith, ground arith)
]

pub encode_zigzag_32-lt : (v : ℕ) → v < 2 ^ 32 → encode_zigzag 32 v < 2 ^ 32
encode_zigzag_32-lt v h = omega (arith, encode_32 v h)

pub encode_zigzag_64-lt : (v : ℕ) → v < 2 ^ 64 → encode_zigzag 64 v < 2 ^ 64
encode_zigzag_64-lt v h = omega (arith, encode_64 v h)

-- Every int32_t comes back from its zigzag code, the least one included, and every uint32_t is the
-- code of its decoding.
pub zigzag_32 :
    (v : ℕ)
    → v < 2 ^ 32
    → (decode_zigzag 32 (encode_zigzag 32 v) ≡ v) × (encode_zigzag 32 (decode_zigzag 32 v) ≡ v)
zigzag_32 v h = (
  omega (arith, encode_32 v h, decode_32 (encode_zigzag 32 v) (encode_zigzag_32-lt v h)),
  omega (arith, decode_32 v h, encode_32 (decode_zigzag 32 v) (omega (arith, decode_32 v h))),
)

-- Every int64_t comes back from its zigzag code, the least one included, and every uint64_t is the
-- code of its decoding.
pub zigzag_64 :
    (v : ℕ)
    → v < 2 ^ 64
    → (decode_zigzag 64 (encode_zigzag 64 v) ≡ v) × (encode_zigzag 64 (decode_zigzag 64 v) ≡ v)
zigzag_64 v h = (
  omega (arith, encode_64 v h, decode_64 (encode_zigzag 64 v) (encode_zigzag_64-lt v h)),
  omega (arith, decode_64 v h, encode_64 (decode_zigzag 64 v) (omega (arith, decode_64 v h))),
)
