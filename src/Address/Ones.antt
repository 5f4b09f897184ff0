-- ===== src/Address/Ones.antt =====
-- CountBytes of src/socket/ipaddress.cpp.
use cpp_server_framework.Prelude.{
  ℕ, zero, suc, ◌+◌, ◌-◌, ◌*◌, ◌/◌, ◌%◌, ◌^◌, ◌≤◌, ◌<◌, ◌≡◌, refl, ap, ◌∙◌, inl, inr, Bool-cases,
  bit_and, ◌==◌, arith,
}
use cpp_server_framework.Prelude.Bits.{bit_and_step}
use cpp_server_framework.Address.{count_bytes}
use native.Mathlib.Nat.{pow-succ'}

-- The number of ones among the low w bits.
abbrev pub ones : ℕ → ℕ → ℕ
ones zero v = 0
ones (suc w) v = v % 2 + ones w (v / 2)

bit_and_self : (n a : ℕ) → a ≤ n → bit_and a a ≡ a
bit_and_self n zero h = refl
bit_and_self zero (suc a) h = absurd (omega arith)
bit_and_self (suc n) (suc a) h =
    omega (arith, bit_and_step (suc a) (suc a), bit_and_self n (suc a / 2) (omega arith))

ones_zero : (w : ℕ) → ones w 0 ≡ 0
ones_zero zero = refl
ones_zero (suc w) = omega (arith, ones_zero w)

ones_below : (w v : ℕ) → ones w v ≤ w
ones_below zero v = omega arith
ones_below (suc w) v = omega (arith, ones_below w (v / 2))

-- Without the lowest of its ones.
abbrev without_one : ℕ → ℕ
without_one v = bit_and v (v - 1)

without_one_odd : (v : ℕ) → v % 2 ≡ 1 → without_one v ≡ v / 2 * 2
without_one_odd v odd =
    let e : (v - 1) / 2 ≡ v / 2 = omega (arith, odd) in
    let d : (v - 1) % 2 ≡ 0 = omega (arith, odd) in
    let half : bit_and (v / 2) ((v - 1) / 2) ≡ v / 2 =
      ap (bit_and (v / 2)) e ∙ bit_and_self (v / 2) (v / 2) (omega arith) in
    omega (arith, bit_and_step v (v - 1), half, d)

without_one_even : (v : ℕ) → v % 2 ≡ 0 → 0 < v → without_one v ≡ without_one (v / 2) * 2
without_one_even v even pos =
    let e : (v - 1) / 2 ≡ v / 2 - 1 = omega (arith, even, pos) in
    let half : bit_and (v / 2) ((v - 1) / 2) ≡ without_one (v / 2) = ap (bit_and (v / 2)) e in
    omega (arith, bit_and_step v (v - 1), half, even)

ones_double : (w n : ℕ) → ones (suc w) (n * 2) ≡ ones w n
ones_double w n =
    let half : n * 2 / 2 ≡ n = omega arith in
    let e : ones w (n * 2 / 2) ≡ ones w n = ap (ones w) half in omega (arith, e)

ones-without_one :
    (w v : ℕ) → 0 < v → v < 2 ^ w → (ones w v ≡ suc (ones w (without_one v))) × (without_one v < v)
ones-without_one zero v pos less = absurd (omega (arith, pos, less))
ones-without_one (suc w) v pos less = elim (Bool-cases (v % 2 == 1)) [
  | inl is_odd ↦
      let odd : v % 2 ≡ 1 = ground (arith, is_odd) in
      let e = without_one_odd v odd in
      (omega (arith, ap (ones (suc w)) e, ones_double w (v / 2), odd), omega (arith, e, odd))
  | inr is_even ↦
      let even : v % 2 ≡ 0 = ground (arith, is_even) in
      let e = without_one_even v even pos in
      let ih =
        ones-without_one w (v / 2) (omega (arith, even, pos))
          (omega (arith, less, pow-succ' 2 w)) in
      (
        omega (arith, ap (ones (suc w)) e, ones_double w (without_one (v / 2)), even, ih.0),
        omega (arith, e, even, ih.1),
      )
]

count_fuel : (w fuel v : ℕ) → v < 2 ^ w → ones w v ≤ fuel → count_bytes fuel v ≡ ones w v
unfolding count_bytes
count_fuel w zero v less enough = omega (arith, enough)
count_fuel w (suc fuel) v less enough = elim (Bool-cases (v == 0)) [
  | inl none_left ↦
      let e : v ≡ 0 = ground (arith, none_left) in
      rw none_left (omega (arith, ap (ones w) e, ones_zero w))
  | inr some_left ↦
      let pos : 0 < v = ground (arith, some_left) in
      let one = ones-without_one w v pos less in
      let rest =
        count_fuel w fuel (without_one v) (omega (arith, one.1, less))
          (omega (arith, one.0, enough)) in
      rw some_left (omega (arith, rest, one.0))
]

-- For a number of w bits the loop of `CountBytes` ends after at most w rounds, and gives the number
-- of ones.
pub count_bytes-ones : (w fuel v : ℕ) → v < 2 ^ w → w ≤ fuel → count_bytes fuel v ≡ ones w v
count_bytes-ones w fuel v less enough =
    count_fuel w fuel v less (omega (arith, ones_below w v, enough))
