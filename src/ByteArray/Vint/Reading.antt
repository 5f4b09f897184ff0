-- ===== src/ByteArray/Vint/Reading.antt =====
-- The loop of `readUint32` and `readUint64` on well-formed groups.
use cpp_server_framework.Prelude.{
  ℕ, zero, suc, ◌+◌, ◌*◌, ◌%◌, ◌^◌, ◌≤◌, ◌<◌, ◌≡◌, ap, List, [], ◌∷◌, ◌++◌, length, ltb,
  if◌then◌else◌, bit_and, bit_or, arith,
}
use cpp_server_framework.Prelude.Bits.{bit_or_comm_disjoint}
use cpp_server_framework.Endians.{Endian}
use cpp_server_framework.ByteArray.{ByteArray, Result, ok}
use cpp_server_framework.ByteArray.Codec.{IsReadable, ReadBack, then-ReadBack}
use cpp_server_framework.ByteArray.Fixed.{read_fuint8}
use cpp_server_framework.ByteArray.Fixed.Wire.{read_fuint8_wire}
use cpp_server_framework.ByteArray.Vint.{read_groups}
use cpp_server_framework.ByteArray.Vint.Groups.{IsGroups, value_of, low_group}
use native.Mathlib.Nat.{mod-eq_of_lt, pow-suc}
use native.Mathlib.Numerals.{towards_suc}

-- `result |= g << i` where the group g and the result so far fit.
or_group :
    (w i g result : ℕ)
    → result < 2 ^ i
    → result + g * 2 ^ i < 2 ^ w
    → bit_or result (g * 2 ^ i % 2 ^ w) ≡ result + g * 2 ^ i
or_group w i g result h fits =
    let e : g * 2 ^ i % 2 ^ w ≡ g * 2 ^ i = mod-eq_of_lt (omega arith) in
    rw e (omega (arith, bit_or_comm_disjoint i g result h))

shift_seven : (i : ℕ) → 2 ^ (i + 7) ≡ 128 * 2 ^ i
shift_seven i = simp towards_suc (
    omega (
      arith,
      pow-suc 2 i,
      pow-suc 2 (suc i),
      pow-suc 2 (suc (suc i)),
      pow-suc 2 (suc (suc (suc i))),
      pow-suc 2 (suc (suc (suc (suc i)))),
      pow-suc 2 (suc (suc (suc (suc (suc i))))),
      pow-suc 2 (suc (suc (suc (suc (suc (suc i)))))),
    ))

module _ (host : Endian) (w : ℕ) where
  read_last :
      (rounds i result b : ℕ) (a : ByteArray)
      → b < 128
      → IsReadable a (b ∷ [])
      → result < 2 ^ i
      → result + b * 2 ^ i < 2 ^ w
      → ReadBack a 1 (result + b * 2 ^ i) (read_groups host w (suc rounds) i result a)
  unfolding read_groups
  read_last rounds i result b a small r h fits =
      let (a', run, v, seen) = read_fuint8_wire host a b r in
      (a', rw run (ground (arith, or_group w i b result h fits)), v, seen)

  -- What the loop does with a byte.
  take_byte : ℕ → ℕ → ℕ → ℕ × ByteArray → Result (ℕ × ByteArray)
  take_byte rounds i result (b, a) =
      if ltb b 0x80
      then ok (bit_or result (b * 2 ^ i % 2 ^ w), a)
      else read_groups host w rounds (i + 7) (bit_or result (bit_and b 0x7f * 2 ^ i % 2 ^ w)) a

  take_inner :
      (rounds i result b : ℕ) (a : ByteArray)
      → 128 ≤ b
      → result < 2 ^ i
      → result + b % 128 * 2 ^ i < 2 ^ w
      → take_byte rounds i result (b, a)
        ≡ read_groups host w rounds (i + 7) (result + b % 128 * 2 ^ i) a
  unfolding take_byte
  take_inner rounds i result b a big h fits =
      let e : bit_or result (bit_and b 0x7f * 2 ^ i % 2 ^ w) ≡ result + b % 128 * 2 ^ i =
        rw (low_group b) (or_group w i (b % 128) result h fits) in
      rw (e, take_byte) (ground arith)

  -- What is read so far, and what is to come, from seven bits higher on.
  value_split :
      (i result g rest : ℕ)
      → result + (g + 128 * rest) * 2 ^ i ≡ result + g * 2 ^ i + rest * 2 ^ (i + 7)
  value_split i result g rest = omega (arith, ap (λ (t : ℕ). rest * t) (shift_seven i))

  result_bound : (i result g : ℕ) → g < 128 → result < 2 ^ i → result + g * 2 ^ i < 2 ^ (i + 7)
  result_bound i result g hg h =
      let m : g * 2 ^ i ≤ 127 * 2 ^ i = grind arith in omega (arith, shift_seven i)

  pub read_groups_lem :
      (enc : List ℕ) (rounds i result : ℕ) (a : ByteArray)
      → IsGroups enc
      → length enc ≤ rounds
      → IsReadable a enc
      → result < 2 ^ i
      → result + value_of enc * 2 ^ i < 2 ^ w
      → ReadBack a
          (length enc)
          (result + value_of enc * 2 ^ i)
          (read_groups host w rounds i result a)
  unfolding read_groups take_byte
  read_groups_lem [] rounds i result a g len r h fits = absurd g
  read_groups_lem (b ∷ []) zero i result a g len r h fits = absurd (omega arith)
  read_groups_lem (b ∷ []) (suc rounds) i result a g len r h fits =
      let e : b % 128 + 128 * 0 ≡ b = omega arith in
      rw e (read_last rounds i result b a g r h (rw e at fits))
  read_groups_lem (b ∷ c ∷ bs) zero i result a g len r h fits = absurd (omega arith)
  read_groups_lem (b ∷ c ∷ bs) (suc rounds) i result a (big, byte, g) len r h fits =
      let rest = value_of (c ∷ bs) in
      let split = value_split i result (b % 128) rest in
      let first : IsReadable a (b ∷ []) = record {
        valid = r.valid;
        rest = (c ∷ bs) ++ r.rest;
        ahead = r.ahead;
      } in
      then-ReadBack a (b ∷ []) (c ∷ bs) b (result + (b % 128 + 128 * rest) * 2 ^ i)
        (read_fuint8 host a) (take_byte rounds i result) r (read_fuint8_wire host a b first)
        λ d rd seen.
          rw (take_inner rounds i result b d big h (omega (arith, split)), split)
            (read_groups_lem (c ∷ bs) rounds (i + 7) (result + b % 128 * 2 ^ i) d g (omega arith) rd
              (result_bound i result (b % 128) (omega arith) h) (omega (arith, split)))
