-- ===== src/Stream.antt =====
-- src/stream/stream.h and stream.cpp: transfers of a fixed size over a stream. `read` and `write`
-- are the pure virtual functions of the stream: what they give as an int, and the state of the
-- stream and the memory after it; they get the offset in the buffer and the bytes left. A size_t
-- is a number below 2 ^ 64.
pub mod Transfers
use cpp_server_framework.Prelude.{
  ℕ, zero, suc, ◌+◌, ◌-◌, ◌%◌, ◌^◌, Bool, Option, none, some, ltb, ◌==◌, if◌then◌else◌,
}

-- An int: n, or -1 - n.
pub data ℤ : Type 0 where
  pos negsuc : ℕ → ℤ

abbrev pub to_size_t : ℤ → ℕ
to_size_t (pos n) = n % 2 ^ 64
to_size_t (negsuc n) = 2 ^ 64 - 1 - n

abbrev pub to_int : ℕ → ℤ
to_int v = let low = v % 2 ^ 32 in if ltb low (2 ^ 31) then pos low else negsuc (2 ^ 32 - 1 - low)

-- left -= len
abbrev pub less_len : ℕ → ℕ → ℕ
less_len left len = (left + (2 ^ 64 - len)) % 2 ^ 64

module _ {S : Type 0} where
  -- The loop over a buffer, at an offset with so many bytes left; `none` is out of fuel.
  unfoldable pub move_loop : ℕ → (ℕ → ℕ → S → ℤ × S) → ℕ → ℕ → ℕ → S → Option (ℤ × S)
  move_loop zero move length offset left s = none
  move_loop (suc fuel) move length offset left s =
      let got = move offset left s in
      let len = to_size_t got.0 in
      let rest = move_loop fuel move length ((offset + len) % 2 ^ 64) (less_len left len) got.1 in
      if left == 0
      then some (to_int length, s)
      else if len == 0
      then some (to_int len, got.1)
      else rest

  -- The loop over a ByteArray.
  unfoldable pub move_ba_loop : ℕ → (ℕ → S → ℤ × S) → ℕ → ℕ → S → Option (ℤ × S)
  move_ba_loop zero move length left s = none
  move_ba_loop (suc fuel) move length left s =
      let got = move left s in
      let len = to_size_t got.0 in
      let rest = move_ba_loop fuel move length (less_len left len) got.1 in
      if left == 0
      then some (to_int length, s)
      else if len == 0
      then some (to_int len, got.1)
      else rest

  unfoldable pub read_fix_size : ℕ → (ℕ → ℕ → S → ℤ × S) → ℕ → S → Option (ℤ × S)
  read_fix_size fuel read length s = move_loop fuel read length 0 length s

  unfoldable pub read_fix_size_ba : ℕ → (ℕ → S → ℤ × S) → ℕ → S → Option (ℤ × S)
  read_fix_size_ba fuel read length s = move_ba_loop fuel read length length s

  unfoldable pub write_fix_size : ℕ → (ℕ → ℕ → S → ℤ × S) → ℕ → S → Option (ℤ × S)
  write_fix_size fuel write length s = move_loop fuel write length 0 length s

  unfoldable pub write_fix_size_ba : ℕ → (ℕ → S → ℤ × S) → ℕ → S → Option (ℤ × S)
  write_fix_size_ba fuel write length s = move_ba_loop fuel write length length s
