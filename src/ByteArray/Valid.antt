-- ===== src/ByteArray/Valid.antt =====
-- What a byte buffer promises, apart from its blocks, and the invariant under which it keeps it.
use cpp_server_framework.Prelude.{
  ℕ, ◌+◌, ◌*◌, ◌%◌, ◌^◌, ◌≤◌, ◌<◌, ◌≡◌, ◌⊎◌, inl, List, length, take, drop, leb, if◌then◌else◌,
  Option, none, some, arith,
}
use cpp_server_framework.ByteArray.{ByteArray, Allocator, overwrite, new_byte_array}
use cpp_server_framework.ByteArray.Blocks.{concat, Uniform}
use cpp_server_framework.Endians.{Endian}

-- The abstract buffer: the bytes from 0 to `m_size`, the place of the next read or write, and the
-- two settings.
pub record Buffer : Type 0 where
  pub content : List ℕ
  pub position : ℕ
  pub endian : Endian
  pub base_size : ℕ

unfoldable pub put : List ℕ → Buffer → Buffer
put bytes s = record s {
  content = overwrite s.position bytes s.content;
  position = s.position + length bytes;
}

-- The next n bytes, if there are so many.
unfoldable pub get : ℕ → Buffer → Option (List ℕ × Buffer)
get n s =
    if leb (s.position + n) (length s.content)
    then some (take n (drop s.position s.content), record s { position = s.position + n })
    else none

unfoldable pub view : ByteArray → Buffer
view a = record {
  content = take a.size (concat a.nodes);
  position = a.position;
  endian = a.endian;
  base_size = a.base_size;
}

-- `m_cur` is the block in which the byte at `m_position` stands.
abbrev pub IsAligned : ByteArray → Type 0
IsAligned a = a.cur * a.base_size + a.position % a.base_size ≡ a.position

-- At the end of the last block `m_cur` may be anything: the next write sets it.
pub record IsValid (a : ByteArray) : Type 0 where
  pub positive : 0 < a.base_size
  pub uniform : Uniform a.base_size a.nodes
  pub counted : a.capacity ≡ length a.nodes * a.base_size
  pub rooted : 0 < length a.nodes
  pub within : a.position ≤ a.size
  pub bounded : a.size ≤ a.capacity
  pub fits : a.capacity < 2 ^ 64
  pub aimed : IsAligned a ⊎ (a.position ≡ a.capacity)

-- No block is free behind the one that the position is in, as after a run of writes.
abbrev pub IsTight : ByteArray → Type 0
IsTight a = a.capacity ≤ a.position + a.base_size

pub base-le-capacity : (a : ByteArray) → IsValid a → a.base_size ≤ a.capacity
base-le-capacity a v = grind (arith, v.counted, v.rooted)

-- Inside the capacity `m_cur` is no null pointer.
pub cur-lt-length :
    (a : ByteArray) → IsValid a → IsAligned a → a.position < a.capacity → a.cur < length a.nodes
cur-lt-length a v al h = grind (arith, v.counted, v.positive)

pub new_byte_array-IsValid :
    (alloc : Allocator) (n : ℕ) → 0 < n → n < 2 ^ 64 → IsValid (new_byte_array alloc n)
unfolding new_byte_array
new_byte_array-IsValid alloc n h lt = record {
  positive = h;
  uniform = (alloc.length-block n, tt);
  counted = omega arith;
  rooted = omega arith;
  within = omega arith;
  bounded = omega arith;
  fits = lt;
  aimed = inl (omega arith);
}
