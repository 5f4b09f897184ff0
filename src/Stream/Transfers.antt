-- ===== src/Stream/Transfers.antt =====
-- The loops of src/stream/stream.cpp: all bytes are moved, and what becomes of an error.
use cpp_server_framework.Prelude.{
  ℕ, zero, suc, ◌+◌, ◌-◌, ◌%◌, ◌^◌, ◌≤◌, ◌<◌, ◌≡◌, refl, sym, ap, subst, false, Option, some, ◌==◌,
  if◌then◌else◌, arith,
}
use cpp_server_framework.Stream.{
  ℤ, pos, negsuc, to_size_t, to_int, less_len, move_loop, move_ba_loop, read_fix_size,
  read_fix_size_ba, write_fix_size, write_fix_size_ba,
}

module _ {S : Type 0} (moved : S → ℕ) where
  -- Each call of the stream moves at least one byte and at most those that are left, next to the
  -- bytes that have been moved before.
  pub record IsLive (move : ℕ → ℕ → S → ℤ × S) : Type 0 where
    pub gives :
        (left : ℕ) (s : S)
        → 0 < left
        → (n : ℕ) × (s' : S) × (move (moved s) left s ≡ (pos (suc n), s'))
          × (suc n ≤ left)
          × (moved s' ≡ moved s + suc n)

  -- The same where the stream works on a ByteArray.
  pub record IsLiveBa (move : ℕ → S → ℤ × S) : Type 0 where
    pub gives :
        (left : ℕ) (s : S)
        → 0 < left
        → (n : ℕ) × (s' : S) × (move left s ≡ (pos (suc n), s'))
          × (suc n ≤ left)
          × (moved s' ≡ moved s + suc n)

  abbrev pub IsMoved : ℕ → Option (ℤ × S) → Type 0
  IsMoved total r = (s' : S) × (r ≡ some (to_int total, s')) × (moved s' ≡ total)

  move_loop-step :
      (fuel length offset left n : ℕ) (move : ℕ → ℕ → S → ℤ × S) (s s' : S)
      → move offset left s ≡ (pos (suc n), s')
      → suc n ≤ left
      → left < 2 ^ 64
      → move_loop (suc fuel) move length offset left s
        ≡ move_loop fuel move length ((offset + suc n) % 2 ^ 64) (left - suc n) s'
  unfolding move_loop
  move_loop-step fuel length offset left n move s s' run le small =
      let nz : (left == 0) ≡ false = ground (arith, le) in
      let len : suc n % 2 ^ 64 ≡ suc n = omega (arith, le, small) in
      let nz' : (suc n == 0) ≡ false = ground arith in
      let left' : less_len left (suc n) ≡ left - suc n = omega (arith, le, small) in
      rw (run, len, nz, nz', left') refl

  move_loop-IsMoved :
      (fuel length offset left : ℕ) (move : ℕ → ℕ → S → ℤ × S) (s : S)
      → IsLive move
      → moved s ≡ offset
      → offset + left ≡ length
      → length < 2 ^ 64
      → left < fuel
      → IsMoved length (move_loop fuel move length offset left s)
  unfolding move_loop
  move_loop-IsMoved zero length offset left move s live at total small enough =
      absurd (omega (arith, enough))
  move_loop-IsMoved (suc fuel) length offset zero move s live at total small enough =
      (s, refl, omega (arith, at, total))
  move_loop-IsMoved (suc fuel) length offset (suc left) move s live at total small enough =
      let (n, s', run, le, more) = live.gives (suc left) s (omega arith) in
      let run' = subst (λ o. move o (suc left) s ≡ (pos (suc n), s')) at run in
      let after : moved s' ≡ (offset + suc n) % 2 ^ 64 =
        omega (arith, at, total, small, le, more) in
      subst (IsMoved length)
        (sym (
          move_loop-step fuel length offset (suc left) n move s s' run' le
            (omega (arith, total, small))))
        (move_loop-IsMoved fuel length ((offset + suc n) % 2 ^ 64) (suc left - suc n) move s' live
          after (omega (arith, total, small, le)) small (omega (arith, le, enough)))

  move_ba_loop-move_loop :
      (fuel length offset left : ℕ) (move : ℕ → S → ℤ × S) (s : S)
      → move_ba_loop fuel move length left s ≡ move_loop fuel (λ o. move) length offset left s
  unfolding move_loop move_ba_loop
  move_ba_loop-move_loop zero length offset left move s = refl
  move_ba_loop-move_loop (suc fuel) length offset left move s =
      let got = move left s in
      let len = to_size_t got.0 in
      ap
        (λ rest.
          if left == 0
          then some (to_int length, s)
          else if len == 0
          then some (to_int len, got.1)
          else rest)
        (move_ba_loop-move_loop fuel length ((offset + len) % 2 ^ 64) (less_len left len) move
          got.1)

  -- If each call of the stream moves at least one byte and at most those left, then readFixSize and
  -- writeFixSize, over a buffer and over a ByteArray, end within `length` rounds and one, return
  -- `length` as an int, and have moved just `length` bytes, in a buffer each next to the one
  -- before.
  pub fix_size-IsMoved :
      (fuel length : ℕ) (move : ℕ → ℕ → S → ℤ × S) (move_ba : ℕ → S → ℤ × S) (s : S)
      → IsLive move
      → IsLiveBa move_ba
      → moved s ≡ 0
      → length < 2 ^ 64
      → length < fuel
      → IsMoved length (read_fix_size fuel move length s)
        × IsMoved length (write_fix_size fuel move length s)
        × IsMoved length (read_fix_size_ba fuel move_ba length s)
        × IsMoved length (write_fix_size_ba fuel move_ba length s)
  unfolding read_fix_size write_fix_size read_fix_size_ba write_fix_size_ba
  fix_size-IsMoved fuel length move move_ba s live live_ba at small enough =
      let total : 0 + length ≡ length = omega arith in
      let one = move_loop-IsMoved fuel length 0 length move s live at total small enough in
      let any : IsLive (λ o. move_ba) = record { gives = live_ba.gives } in
      let ba =
        subst (IsMoved length) (sym (move_ba_loop-move_loop fuel length 0 length move_ba s))
          (move_loop-IsMoved fuel length 0 length (λ o. move_ba) s any at total small enough) in
      (one, one, ba, ba)

module _ {S : Type 0} where
  -- If the first call of the stream gives -1 and the next moves all that it is asked for,
  -- `readFixSize` asks it for one byte more than `length`, with an offset before the buffer, and
  -- returns `length` as an int: the error is lost.
  pub read_fix_size_error :
      (fuel length : ℕ) (read : ℕ → ℕ → S → ℤ × S) (s s1 s2 : S)
      → 0 < length
      → length + 1 < 2 ^ 64
      → read 0 length s ≡ (negsuc 0, s1)
      → read (2 ^ 64 - 1) (length + 1) s1 ≡ (pos (length + 1), s2)
      → read_fix_size (suc (suc (suc fuel))) read length s ≡ some (to_int length, s2)
  unfolding read_fix_size move_loop
  read_fix_size_error fuel length read s s1 s2 some_left small first second =
      let nz : (length == 0) ≡ false = ground (arith, some_left) in
      let nz' : (length + 1 == 0) ≡ false = ground arith in
      let more : less_len length (2 ^ 64 - 1) ≡ length + 1 = omega (arith, small) in
      let off : (0 + (2 ^ 64 - 1)) % 2 ^ 64 ≡ 2 ^ 64 - 1 = omega arith in
      let len : (length + 1) % 2 ^ 64 ≡ length + 1 = omega (arith, small) in
      let none_left : less_len (length + 1) (length + 1) ≡ 0 = omega (arith, small) in
      rw (first, nz, more, second, len, nz', none_left) refl
