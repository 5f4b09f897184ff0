-- ===== src/ByteArray/Fixed/Wire.antt =====
-- The fixed-width integers stand in the buffer in the order `m_endian`, whatever the machine's own.
use cpp_server_framework.Prelude.{
  ℕ, zero, suc, ◌/◌, ◌%◌, ◌^◌, ◌<◌, ◌≡◌, refl, sym, ap, subst, ◌∙◌, List, [], ◌∷◌, length,
  length-append, arith,
}
use cpp_server_framework.Endians.{
  Endian, little, big, le_bytes, be_bytes, from_le, from_be, in_memory, from_memory, bswap_16,
  bswap_32, bswap_64,
}
use cpp_server_framework.Endians.Swap.{
  bswap_16_turns, bswap_32_turns, bswap_64_turns, bswap_16_bytes, bswap_32_bytes, bswap_64_bytes,
}
use cpp_server_framework.ByteArray.{ByteArray, Allocator, ok, ◌>>=◌, read, write}
use cpp_server_framework.ByteArray.Codec.{
  IsWritable, IsReadable, Wrote, ReadBack, write-Wrote, read-ReadBack, skip-position,
}
use cpp_server_framework.ByteArray.Fixed.{
  to_wire, write_fuint8, read_fuint8, write_fuint16, write_fuint32, write_fuint64, read_fuint16,
  read_fuint32, read_fuint64,
}

length-le_bytes : (n v : ℕ) → length (le_bytes n v) ≡ n
length-le_bytes zero v = refl
length-le_bytes (suc n) v = ap suc (length-le_bytes n (v / 256))

length-be_bytes : (n v : ℕ) → length (be_bytes n v) ≡ n
length-be_bytes zero v = refl
length-be_bytes (suc n) v =
    omega (arith, length-append (be_bytes n (v / 256)) (v % 256 ∷ []), length-be_bytes n (v / 256))

one_byte : (host : Endian) (v : ℕ) → v < 2 ^ 8 → in_memory host 1 v ≡ v ∷ []
one_byte little v h = ap (λ b. b ∷ []) (omega arith)
one_byte big v h = ap (λ b. b ∷ []) (omega arith)

from_one : (host : Endian) (v : ℕ) → from_memory host (v ∷ []) ≡ v
from_one little v = omega arith
from_one big v = omega arith

-- What the proofs use of a swap of n bytes on numbers below `bound`.
record Swaps (n bound : ℕ) (swap : ℕ → ℕ) : Type 0 where
  turns :
      (v : ℕ)
      → v < bound
      → (le_bytes n (swap v) ≡ be_bytes n v)
        × (be_bytes n (swap v) ≡ le_bytes n v)
        × (swap (swap v) ≡ v)
  closed : (v : ℕ) → v < bound → swap v < bound
  from_le-le_bytes : (v : ℕ) → v < bound → from_le (le_bytes n v) ≡ v
  from_be-be_bytes : (v : ℕ) → v < bound → from_be 0 (be_bytes n v) ≡ v

module _ {n bound : ℕ} {swap : ℕ → ℕ} (s : Swaps n bound swap) where
  wire_order :
      (host endian : Endian) (v : ℕ)
      → v < bound
      → in_memory host n (to_wire host endian swap v) ≡ in_memory endian n v
  unfolding to_wire
  wire_order little little v h = refl
  wire_order little big v h = (s.turns v h).0
  wire_order big little v h = (s.turns v h).1
  wire_order big big v h = refl

  wire_value :
      (host endian : Endian) (v : ℕ)
      → v < bound
      → to_wire host endian swap (from_memory host (in_memory endian n v)) ≡ v
  unfolding to_wire
  wire_value little little v h = s.from_le-le_bytes v h
  wire_value little big v h =
      ap (λ bs. swap (from_le bs)) (sym (s.turns v h).0)
      ∙ ap swap (s.from_le-le_bytes (swap v) (s.closed v h))
      ∙ (s.turns v h).2
  wire_value big little v h =
      ap (λ bs. swap (from_be 0 bs)) (sym (s.turns v h).1)
      ∙ ap swap (s.from_be-be_bytes (swap v) (s.closed v h))
      ∙ (s.turns v h).2
  wire_value big big v h = s.from_be-be_bytes v h

bswap_16-Swaps : Swaps 2 (2 ^ 16) bswap_16
bswap_16-Swaps = record {
  turns = bswap_16_turns;
  closed = λ v h. omega (arith, bswap_16_bytes v h);
  from_le-le_bytes = λ v h. omega arith;
  from_be-be_bytes = λ v h. omega arith;
}

bswap_32-Swaps : Swaps 4 (2 ^ 32) bswap_32
bswap_32-Swaps = record {
  turns = bswap_32_turns;
  closed = λ v h. omega (arith, bswap_32_bytes v h);
  from_le-le_bytes = λ v h. omega arith;
  from_be-be_bytes = λ v h. omega arith;
}

bswap_64-Swaps : Swaps 8 (2 ^ 64) bswap_64
bswap_64-Swaps = record {
  turns = bswap_64_turns;
  closed = λ v h. omega (arith, bswap_64_bytes v h);
  from_le-le_bytes = λ v h. omega arith;
  from_be-be_bytes = λ v h. omega arith;
}

pub length-in_memory : (endian : Endian) (n v : ℕ) → length (in_memory endian n v) ≡ n
length-in_memory little n v = length-le_bytes n v
length-in_memory big n v = length-be_bytes n v

-- One writer and one reader for all widths.
module _ (host : Endian) (n : ℕ) {bound : ℕ} {swap : ℕ → ℕ} (s : Swaps n bound swap) where
  fixed-Wrote :
      (alloc : Allocator) (a : ByteArray) (v : ℕ)
      → v < bound
      → IsWritable a n
      → Wrote a
          (in_memory a.endian n v)
          (write alloc a (in_memory host n (to_wire host a.endian swap v)))
  fixed-Wrote alloc a v h w =
      let e = length-in_memory a.endian n v in
      rw (wire_order s host a.endian v h) (write-Wrote alloc a (in_memory a.endian n v) (rw e w))

  fixed-ReadBack :
      (a : ByteArray) (v : ℕ)
      → v < bound
      → 0 < n
      → IsReadable a (in_memory a.endian n v)
      → ReadBack a n v
          (do (bytes, a') ← read a n; ok (to_wire host a'.endian swap (from_memory host bytes), a'))
  fixed-ReadBack a v h pos r =
      let bytes = in_memory a.endian n v in
      let e = length-in_memory a.endian n v in
      let (b, run, v', seen) =
        subst (λ k. ReadBack a k bytes (read a k)) e (read-ReadBack a bytes r (rw e pos)) in
      let (_, en) = skip-position a b n seen in
      let value : to_wire host b.endian swap (from_memory host bytes) ≡ v =
        ap (λ endian. to_wire host endian swap (from_memory host bytes)) en
        ∙ wire_value s host a.endian v h in
      (
        b,
        ap
              (λ q. q >>= λ (x : List ℕ × ByteArray).
                ok (to_wire host x.1.endian swap (from_memory host x.0), x.1))
              run
            ∙ ap (λ x. ok (x, b)) value,
        v',
        seen,
      )

module _ (host : Endian) (alloc : Allocator) (a : ByteArray) (v : ℕ) where
  -- Whatever the machine's byte order, `writeFuint16` puts the two bytes of the number in the
  -- order that the buffer is set to.
  pub write_fuint16_wire :
      v < 2 ^ 16 → IsWritable a 2 → Wrote a (in_memory a.endian 2 v) (write_fuint16 host alloc a v)
  unfolding write_fuint16
  write_fuint16_wire h w = fixed-Wrote host 2 bswap_16-Swaps alloc a v h w

  -- On a host of either byte order `writeFuint32` puts the four bytes of the number in the byte
  -- order of the buffer, at the end of a valid buffer with room for them.
  pub write_fuint32_wire :
      v < 2 ^ 32 → IsWritable a 4 → Wrote a (in_memory a.endian 4 v) (write_fuint32 host alloc a v)
  unfolding write_fuint32
  write_fuint32_wire h w = fixed-Wrote host 4 bswap_32-Swaps alloc a v h w

  -- On a host of either byte order `writeFuint64` puts the eight bytes of the number in the byte
  -- order of the buffer, at the end of a valid buffer with room for them.
  pub write_fuint64_wire :
      v < 2 ^ 64 → IsWritable a 8 → Wrote a (in_memory a.endian 8 v) (write_fuint64 host alloc a v)
  unfolding write_fuint64
  write_fuint64_wire h w = fixed-Wrote host 8 bswap_64-Swaps alloc a v h w

  pub write_fuint8_wire :
      v < 2 ^ 8 → IsWritable a 1 → Wrote a (v ∷ []) (write_fuint8 host alloc a v)
  unfolding write_fuint8
  write_fuint8_wire h w = let e = one_byte host v h in rw e (write-Wrote alloc a (v ∷ []) w)

module _ (host : Endian) (a : ByteArray) (v : ℕ) where
  pub read_fuint16_wire :
      v < 2 ^ 16 → IsReadable a (in_memory a.endian 2 v) → ReadBack a 2 v (read_fuint16 host a)
  unfolding read_fuint16
  read_fuint16_wire h r = fixed-ReadBack host 2 bswap_16-Swaps a v h (omega arith) r

  -- On a host of either byte order `readFuint32` makes a number below 2^32 of its four bytes in the
  -- byte order of the buffer, and moves the position behind them.
  pub read_fuint32_wire :
      v < 2 ^ 32 → IsReadable a (in_memory a.endian 4 v) → ReadBack a 4 v (read_fuint32 host a)
  unfolding read_fuint32
  read_fuint32_wire h r = fixed-ReadBack host 4 bswap_32-Swaps a v h (omega arith) r

  pub read_fuint64_wire :
      v < 2 ^ 64 → IsReadable a (in_memory a.endian 8 v) → ReadBack a 8 v (read_fuint64 host a)
  unfolding read_fuint64
  read_fuint64_wire h r = fixed-ReadBack host 8 bswap_64-Swaps a v h (omega arith) r

  pub read_fuint8_wire : IsReadable a (v ∷ []) → ReadBack a 1 v (read_fuint8 host a)
  unfolding read_fuint8
  read_fuint8_wire r =
      let (b, run, v', seen) = read-ReadBack a (v ∷ []) r (omega arith) in
      (
        b,
        ap (λ q. q >>= λ (x : List ℕ × ByteArray). ok (from_memory host x.0, x.1)) run
            ∙ ap (λ x. ok (x, b)) (from_one host v),
        v',
        seen,
      )
