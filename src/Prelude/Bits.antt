-- ===== src/Prelude/Bits.antt =====
-- `&`, `|` and `^` at variables: masks and disjoint parts as arithmetic.
use Prim.Native.Nat.{
  ℕ, zero, suc, ◌+◌, ◌-◌, ◌*◌, ◌/◌, ◌%◌, ◌^◌, ◌≤◌, ◌<◌, min, max, bit_and, bit_or, digits, bitwise,
  bit_and-bitwise, bit_or-bitwise, bit_xor, bit_xor-bitwise, differ,
}
use mathlib.Core.Path.{◌≡◌, refl, ap, ◌∙◌, sym}
use native.Mathlib.Omega.{arith}
use native.Mathlib.Nat.{
  pow-succ', div-div-eq-div-mul, mul-add-mod_self_right, mod-eq_of_lt, div-add-mod', mod-lt,
}

-- What `digits` gives does not depend on its count, from the first number on; so one step of it can
-- be taken off, whatever it does with two digits.
module _ (edge : ℕ → ℕ) (join : ℕ → ℕ → ℕ) where
  steady : {n m : ℕ} (a b : ℕ) → a ≤ n → a ≤ m → digits edge join n a b ≡ digits edge join m a b
  steady {n = zero} {m = zero} a b low up = refl
  steady {n = zero} {m = suc m} zero b low up = refl
  steady {n = zero} {m = suc m} (suc a) b low up = absurd (omega arith)
  steady {n = suc n} {m = zero} zero b low up = refl
  steady {n = suc n} {m = zero} (suc a) b low up = absurd (omega arith)
  steady {n = suc n} {m = suc m} zero b low up = refl
  steady {n = suc n} {m = suc m} (suc a) b low up =
      ap (λ t. t * 2 + join (suc a % 2) (b % 2))
        (steady {n = n} {m = m} (suc a / 2) (b / 2) (omega arith) (omega arith))

  bitwise_step :
      (a b : ℕ)
      → bitwise edge join (suc a) b
        ≡ bitwise edge join (suc a / 2) (b / 2) * 2 + join (suc a % 2) (b % 2)
  bitwise_step a b =
      ap (λ t. t * 2 + join (suc a % 2) (b % 2))
        (steady {n = a} {m = suc a / 2} (suc a / 2) (b / 2) (omega arith) (omega arith))

pub bit_and_step : (a b : ℕ) → bit_and a b ≡ bit_and (a / 2) (b / 2) * 2 + min (a % 2) (b % 2)
bit_and_step zero b = omega (arith, bit_and-bitwise 0 b, bit_and-bitwise 0 (b / 2))
bit_and_step (suc a) b =
    let whole : bit_and (suc a) b ≡ bitwise (λ x. zero) min (suc a) b = bit_and-bitwise (suc a) b in
    omega (arith, whole, bitwise_step (λ x. zero) min a b, bit_and-bitwise (suc a / 2) (b / 2))

pub bit_or_step : (a b : ℕ) → bit_or a b ≡ bit_or (a / 2) (b / 2) * 2 + max (a % 2) (b % 2)
bit_or_step zero b = omega (arith, bit_or-bitwise 0 b, bit_or-bitwise 0 (b / 2))
bit_or_step (suc a) b =
    let whole : bit_or (suc a) b ≡ bitwise (λ x. x) max (suc a) b = bit_or-bitwise (suc a) b in
    omega (arith, whole, bitwise_step (λ x. x) max a b, bit_or-bitwise (suc a / 2) (b / 2))

zero-bit_or : (b : ℕ) → bit_or 0 b ≡ b
zero-bit_or b = bit_or-bitwise 0 b

pub bit_and-zero : (x : ℕ) → bit_and x 0 ≡ 0
bit_and-zero x = halving x (omega arith)
  where
    halving : {x : ℕ} (bound : ℕ) → x ≤ bound → bit_and x 0 ≡ 0
    halving {x = zero} bound le = refl
    halving {x = suc x} zero le = absurd (omega arith)
    halving {x = suc x} (suc bound) le =
        omega (arith, bit_and_step (suc x) 0, halving {x = suc x / 2} bound (omega arith))

bit_or-zero : (b : ℕ) → bit_or b 0 ≡ b
bit_or-zero b = bit_or-zero_fuel b b (omega arith)
  where
    bit_or-zero_fuel : (n a : ℕ) → a ≤ n → bit_or a 0 ≡ a
    bit_or-zero_fuel n zero h = refl
    bit_or-zero_fuel zero (suc a) h = absurd (omega arith)
    bit_or-zero_fuel (suc n) (suc a) h =
        omega (arith, bit_or_step (suc a) 0, bit_or-zero_fuel n (suc a / 2) (omega arith))

pub pow-pos : (k : ℕ) → 0 < 2 ^ k
pow-pos zero = omega arith
pow-pos (suc k) = omega (arith, pow-succ' 2 k, pow-pos k)

mod_double : (a p : ℕ) → 0 < p → a % (2 * p) ≡ a / 2 % p * 2 + a % 2
mod_double a p pos =
    let e : a ≡ a / 2 / p * (2 * p) + (a / 2 % p * 2 + a % 2) =
      omega (arith, div-add-mod' (a / 2) p) in
    ap (λ t. t % (2 * p)) e
    ∙ mul-add-mod_self_right (a / 2 / p) (2 * p) (a / 2 % p * 2 + a % 2)
    ∙ mod-eq_of_lt (omega (arith, mod-lt (a / 2) pos))

-- a & (2^k - 1) keeps the low k bits.
pub bit_and_low : (k a m : ℕ) → suc m ≡ 2 ^ k → bit_and a m ≡ a % 2 ^ k
bit_and_low zero a m e = let z : m ≡ 0 = omega arith in rw z (omega (arith, bit_and-zero a))
bit_and_low (suc k) a m e = rw (pow-succ' 2 k) (
    omega (
      arith,
      bit_and_step a m,
      bit_and_low k (a / 2) (m / 2) (omega (arith, pow-succ' 2 k)),
      mod_double a (2 ^ k) (pow-pos k),
      pow-succ' 2 k,
      pow-pos k,
    ))

-- a & (m * 2^k) masks the part of a from bit k on.
pub bit_and_shift : (k a m : ℕ) → bit_and a (m * 2 ^ k) ≡ bit_and (a / 2 ^ k) m * 2 ^ k
bit_and_shift zero a m =
    let e : m * 1 ≡ m = omega arith in let d : a / 1 ≡ a = omega arith in rw (e, d) (omega arith)
bit_and_shift (suc k) a m =
    let e : m * 2 ^ suc k / 2 ≡ m * 2 ^ k = omega (arith, ap (λ (t : ℕ). m * t) (pow-succ' 2 k)) in
    let d : a / 2 / 2 ^ k ≡ a / 2 ^ suc k =
      div-div-eq-div-mul a 2 (2 ^ k) ∙ ap (λ t. a / t) (sym (pow-succ' 2 k)) in
    let s : bit_and (a / 2) (m * 2 ^ suc k / 2) ≡ bit_and (a / 2 ^ suc k) m * 2 ^ k =
      ap (bit_and (a / 2)) e ∙ bit_and_shift k (a / 2) m ∙ ap (λ t. bit_and t m * 2 ^ k) d in
    omega (
      arith,
      bit_and_step a (m * 2 ^ suc k),
      s,
      ap (λ (t : ℕ). m * t) (pow-succ' 2 k),
      ap (λ (t : ℕ). bit_and (a / 2 ^ suc k) m * t) (pow-succ' 2 k),
    )

-- Parts that share no bit are joined by `|` as by `+`.
pub bit_or_disjoint : (k a b : ℕ) → b < 2 ^ k → bit_or (a * 2 ^ k) b ≡ a * 2 ^ k + b
bit_or_disjoint zero a b h =
    let z : b ≡ 0 = omega arith in rw z (omega (arith, bit_or-zero (a * 1)))
bit_or_disjoint (suc k) a b h =
    let e : a * 2 ^ suc k / 2 ≡ a * 2 ^ k = omega (arith, ap (λ (t : ℕ). a * t) (pow-succ' 2 k)) in
    let s : bit_or (a * 2 ^ suc k / 2) (b / 2) ≡ a * 2 ^ k + b / 2 =
      ap (λ t. bit_or t (b / 2)) e ∙ bit_or_disjoint k a (b / 2) (omega (arith, pow-succ' 2 k)) in
    omega (arith, bit_or_step (a * 2 ^ suc k) b, s, ap (λ (t : ℕ). a * t) (pow-succ' 2 k))

pub bit_or_comm_disjoint : (k a b : ℕ) → b < 2 ^ k → bit_or b (a * 2 ^ k) ≡ a * 2 ^ k + b
bit_or_comm_disjoint zero a b h =
    let z : b ≡ 0 = omega arith in rw z (omega (arith, zero-bit_or (a * 1)))
bit_or_comm_disjoint (suc k) a b h =
    let e : a * 2 ^ suc k / 2 ≡ a * 2 ^ k = omega (arith, ap (λ (t : ℕ). a * t) (pow-succ' 2 k)) in
    let s : bit_or (b / 2) (a * 2 ^ suc k / 2) ≡ a * 2 ^ k + b / 2 =
      ap (bit_or (b / 2)) e ∙ bit_or_comm_disjoint k a (b / 2) (omega (arith, pow-succ' 2 k)) in
    omega (arith, bit_or_step b (a * 2 ^ suc k), s, ap (λ (t : ℕ). a * t) (pow-succ' 2 k))

zero-bit_xor : (b : ℕ) → bit_xor 0 b ≡ b
zero-bit_xor b = bit_xor-bitwise 0 b

pub bit_xor_step : (a b : ℕ) → bit_xor a b ≡ bit_xor (a / 2) (b / 2) * 2 + differ (a % 2) (b % 2)
bit_xor_step zero b = omega (arith, zero-bit_xor b, zero-bit_xor (b / 2))
bit_xor_step (suc a) b =
    let whole : bit_xor (suc a) b ≡ bitwise (λ x. x) differ (suc a) b = bit_xor-bitwise (suc a) b in
    omega (arith, whole, bitwise_step (λ x. x) differ a b, bit_xor-bitwise (suc a / 2) (b / 2))

differ_one : (b : ℕ) → b < 2 → differ b 1 ≡ 1 - b
differ_one zero h = omega arith
differ_one (suc zero) h = omega arith
differ_one (suc (suc b)) h = absurd (omega arith)

differ_zero : (b : ℕ) → differ b 0 ≡ b
differ_zero zero = refl
differ_zero (suc b) = refl

bit_xor-zero_fuel : (n a : ℕ) → a ≤ n → bit_xor a 0 ≡ a
bit_xor-zero_fuel n zero h = refl
bit_xor-zero_fuel zero (suc a) h = absurd (omega arith)
bit_xor-zero_fuel (suc n) (suc a) h = omega (
  arith,
  bit_xor_step (suc a) 0,
  differ_zero (suc a % 2),
  bit_xor-zero_fuel n (suc a / 2) (omega arith),
)

pub bit_xor-zero : (a : ℕ) → bit_xor a 0 ≡ a
bit_xor-zero a = bit_xor-zero_fuel a a (omega arith)

-- a ^ (2^k - 1) turns the low k bits round.
pub bit_xor_ones : (k a m : ℕ) → suc m ≡ 2 ^ k → a ≤ m → bit_xor a m ≡ m - a
bit_xor_ones zero a m e h =
    let z : m ≡ 0 = omega arith in
    let y : a ≡ 0 = omega arith in rw (z, y) (omega (arith, zero-bit_xor 0))
bit_xor_ones (suc k) a m e h =
    let odd : m % 2 ≡ 1 = omega (arith, pow-succ' 2 k) in
    let d : differ (a % 2) (m % 2) ≡ 1 - a % 2 = rw odd (differ_one (a % 2) (omega arith)) in
    omega (
      arith,
      bit_xor_step a m,
      d,
      bit_xor_ones k (a / 2) (m / 2) (omega (arith, pow-succ' 2 k)) (omega arith),
    )
