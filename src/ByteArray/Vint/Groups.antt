-- ===== src/ByteArray/Vint/Groups.antt =====
-- What `writeUint32` and `writeUint64` write fits `tmp`, and holds the number seven bits a byte.
use cpp_server_framework.Prelude.{
  ℕ, zero, suc, ◌+◌, ◌*◌, ◌/◌, ◌%◌, ◌^◌, ◌≤◌, ◌<◌, ◌≡◌, refl, List, [], ◌∷◌, length, some, bit_and,
  bit_or, dec_lt, arith,
}
use cpp_server_framework.Prelude.Bits.{bit_and_low, bit_or_comm_disjoint}
use cpp_server_framework.ByteArray.Vint.{groups}
use native.Mathlib.Nat.{pow-suc}

-- The value that a list of groups stands for.
abbrev pub value_of : List ℕ → ℕ
value_of [] = 0
value_of (b ∷ bs) = b % 128 + 128 * value_of bs

-- All but the last byte have the top bit set.
abbrev pub IsGroups : List ℕ → Type 0
IsGroups [] = ⊥
IsGroups (b ∷ []) = b < 128
IsGroups (b ∷ (c ∷ bs)) = (128 ≤ b) × (b < 256) × IsGroups (c ∷ bs)

pub low_group : (v : ℕ) → bit_and v 0x7F ≡ v % 128
low_group v = bit_and_low 7 v 127 refl

inner_group : (v : ℕ) → bit_or (bit_and v 0x7F) 0x80 % 256 ≡ v % 128 + 128
inner_group v =
    let e : bit_or (v % 128) (1 * 2 ^ 7) ≡ 1 * 2 ^ 7 + v % 128 =
      bit_or_comm_disjoint 7 1 (v % 128) (omega arith) in
    rw low_group (omega (arith, e))

abbrev IsEncoded : ℕ → ℕ → List ℕ → Type 0
IsEncoded k v bytes =
    IsGroups bytes × (value_of bytes ≡ v) × (0 < length bytes) × (length bytes ≤ k)

groups_last : (k v : ℕ) → v < 128 → groups (suc k) v ≡ some (v ∷ [])
unfolding groups
groups_last k v h = let e : v % 256 ≡ v = omega arith in ground (arith, e)

groups_more :
    (k v : ℕ) (bytes : List ℕ)
    → 128 ≤ v
    → groups k (v / 128) ≡ some bytes
    → groups (suc k) v ≡ some ((v % 128 + 128) ∷ bytes)
unfolding groups
groups_more k v bytes h e = ground (arith, inner_group v)

IsEncoded-more :
    (k v : ℕ) (bytes : List ℕ)
    → IsEncoded k (v / 128) bytes
    → IsEncoded (suc k) v ((v % 128 + 128) ∷ bytes)
IsEncoded-more k v [] (g, _, _, _) = absurd g
IsEncoded-more k v (b ∷ bs) (g, val, _, len) =
    ((omega arith, omega arith, g), omega arith, omega arith, omega arith)

-- k + 1 slots are enough for a number of 7 * (k + 1) bits.
pub groups_total :
    (k v : ℕ)
    → v < 128 ^ suc k
    → (bytes : List ℕ) × (groups (suc k) v ≡ some bytes) × IsEncoded (suc k) v bytes
groups_total zero v h = (v ∷ [], groups_last 0 v h, (h, omega arith, omega arith, omega arith))
groups_total (suc k) v h = elim (dec_lt v 128) [
  | yes small ↦
      (v ∷ [], groups_last (suc k) v small, (small, omega arith, omega arith, omega arith))
  | no large ↦
      let (bytes, run, enc) = groups_total k (v / 128) (omega (arith, pow-suc 128 (suc k))) in
      (
        (v % 128 + 128) ∷ bytes,
        groups_more (suc k) v bytes (omega arith) run,
        IsEncoded-more (suc k) v bytes enc,
      )
]
