-- ===== src/Examples/Transfers.antt =====
-- Streams of src/stream/stream.h, and the theorems on the transfers over them.
use cpp_server_framework.Prelude.{ℕ, zero, suc, ◌+◌, refl, arith}
use cpp_server_framework.Stream.{
  ℤ, pos, negsuc, read_fix_size, write_fix_size, read_fix_size_ba, write_fix_size_ba,
}
use cpp_server_framework.Stream.Transfers.{IsLive, IsLiveBa, IsMoved, fix_size-IsMoved}

-- A stream that moves a byte at a time and counts them.
abbrev by_bytes : ℕ → ℕ → ℕ → ℤ × ℕ
by_bytes offset left s = (pos 1, s + 1)

abbrev count : ℕ → ℕ
count s = s

by_bytes-IsLive : IsLive count by_bytes
by_bytes-IsLive = record { gives = λ left s h. (0, s + 1, refl, omega (arith, h), refl) }

by_bytes-IsLiveBa : IsLiveBa count (by_bytes 0)
by_bytes-IsLiveBa = record { gives = λ left s h. (0, s + 1, refl, omega (arith, h), refl) }

fix_size-IsMoved_example :
    IsMoved count 3 (read_fix_size 4 by_bytes 3 0)
    × IsMoved count 3 (write_fix_size 4 by_bytes 3 0)
    × IsMoved count 3 (read_fix_size_ba 4 (by_bytes 0) 3 0)
    × IsMoved count 3 (write_fix_size_ba 4 (by_bytes 0) 3 0)
fix_size-IsMoved_example =
    fix_size-IsMoved count 4 3 by_bytes (by_bytes 0) 0 by_bytes-IsLive by_bytes-IsLiveBa refl
      (omega arith) (omega arith)

-- An error, and then all that is asked for.
abbrev fails_first : ℕ → ℕ → ℕ → ℤ × ℕ
fails_first offset left zero = (negsuc 0, 1)
fails_first offset left (suc s) = (pos left, 2)
