-- ===== src/Examples/Buffers.antt =====
-- Buffers of src/socket/bytearray.h with blocks of four bytes, and the theorems on them.
use cpp_server_framework.Prelude.{
  ℕ, ◌+◌, ◌-◌, ◌*◌, ◌^◌, ◌<◌, ◌≡◌, inl, refl, min, drop, List, [], ◌∷◌, replicate, length-replicate,
  take, arith,
}
use cpp_server_framework.Endians.{little, big}
use cpp_server_framework.ByteArray.{ByteArray, Allocator, ok, read, write, set_position}
use cpp_server_framework.ByteArray.Valid.{IsValid, IsTight, view, put, get}
use cpp_server_framework.ByteArray.Codec.{IsWritable, IsReadable}
use cpp_server_framework.ByteArray.Append.{write-put_append, write_boundary}
use cpp_server_framework.ByteArray.Read.{read-get}
use cpp_server_framework.ByteArray.RoundTrip.{read-write}
use cpp_server_framework.ByteArray.Vint.{write_uint64, read_uint64}
use cpp_server_framework.ByteArray.Vint.RoundTrip.{ComesBack, uint64_round_trip}
use cpp_server_framework.ByteArray.Iovecs.{Iovec, gather, get_read_buffers, get_read_buffers_lem}

abbrev zeros : Allocator
zeros = record { block = λ n. replicate n 0; length-block = λ n. length-replicate n 0 }

abbrev empty : ByteArray
empty = record {
  base_size = 4;
  position = 0;
  capacity = 4;
  size = 0;
  endian = big;
  nodes = (0 ∷ 0 ∷ 0 ∷ 0 ∷ []) ∷ [];
  cur = 0;
}

-- Five bytes in two blocks, the position behind the first.
abbrev five : ByteArray
five = record {
  base_size = 4;
  position = 1;
  capacity = 8;
  size = 5;
  endian = big;
  nodes = (1 ∷ 2 ∷ 3 ∷ 4 ∷ []) ∷ (5 ∷ 0 ∷ 0 ∷ 0 ∷ []) ∷ [];
  cur = 0;
}

empty-IsValid : IsValid empty
empty-IsValid = record {
  positive = omega arith;
  uniform = (refl, tt);
  counted = refl;
  rooted = omega arith;
  within = omega arith;
  bounded = omega arith;
  fits = omega arith;
  aimed = inl refl;
}

five-IsValid : IsValid five
five-IsValid = record {
  positive = omega arith;
  uniform = (refl, (refl, tt));
  counted = refl;
  rooted = omega arith;
  within = omega arith;
  bounded = omega arith;
  fits = omega arith;
  aimed = inl refl;
}

empty-IsTight : IsTight empty
empty-IsTight = omega arith

empty-IsWritable : (n : ℕ) → n < 2 ^ 63 → IsWritable empty n
empty-IsWritable n h = record {
  valid = empty-IsValid;
  tight = empty-IsTight;
  fits = omega (arith, h);
}

five-IsReadable : IsReadable five (2 ∷ 3 ∷ 4 ∷ 5 ∷ [])
unfolding view
five-IsReadable = record { valid = five-IsValid; rest = []; ahead = refl }

write-put_append_example :
    (a' : ByteArray) × (write zeros empty (7 ∷ 8 ∷ 9 ∷ 10 ∷ 11 ∷ []) ≡ ok a')
    × IsValid a'
    × IsTight a'
    × (view a' ≡ put (7 ∷ 8 ∷ 9 ∷ 10 ∷ 11 ∷ []) (view empty))
write-put_append_example =
    write-put_append zeros empty (7 ∷ 8 ∷ 9 ∷ 10 ∷ 11 ∷ []) empty-IsValid empty-IsTight
      (omega arith)

write_boundary_example :
    (a' : ByteArray) × (write zeros five (7 ∷ 8 ∷ 9 ∷ []) ≡ ok a')
    × (view a' ≡ put (7 ∷ 8 ∷ 9 ∷ []) (view five))
    × (a'.cur * a'.base_size + a'.base_size ≡ a'.position)
    × ¬ IsValid a'
write_boundary_example =
    write_boundary zeros five (7 ∷ 8 ∷ 9 ∷ []) five-IsValid (omega arith) (omega arith)
      (omega arith) refl

read-get_example :
    (a' : ByteArray) × (read five 4 ≡ ok (2 ∷ 3 ∷ 4 ∷ 5 ∷ [], a'))
    × IsValid a'
    × (view a' ≡ record (view five) { position = 5 })
unfolding view get
read-get_example =
    read-get five 4 (2 ∷ 3 ∷ 4 ∷ 5 ∷ []) (record (view five) { position = 5 }) five-IsValid
      (omega arith) refl

read-write_example :
    (a1 a2 a3 : ByteArray) × (write zeros empty (7 ∷ 8 ∷ []) ≡ ok a1)
    × (set_position a1 0 ≡ ok a2)
    × (read a2 2 ≡ ok (7 ∷ 8 ∷ [], a3))
    × IsValid a3
    × (view a3 ≡ view a1)
read-write_example =
    read-write zeros empty (7 ∷ 8 ∷ []) empty-IsValid empty-IsTight (omega arith) (omega arith)

uint64_round_trip_example : ComesBack empty 300 (λ q. write_uint64 zeros q 300) (read_uint64 little)
uint64_round_trip_example =
    uint64_round_trip little zeros empty 300 (omega arith) (empty-IsWritable 10 (omega arith))

get_read_buffers_lem_example :
    (vs : List Iovec) × (get_read_buffers five 100 ≡ ok (min 100 (five.size - five.position), vs))
    × (gather vs ≡ take 100 (drop five.position (view five).content))
get_read_buffers_lem_example = get_read_buffers_lem five 100 five-IsValid
