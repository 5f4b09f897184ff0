-- ===== src/ByteArray.antt =====
-- src/socket/bytearray.h and bytearray.cpp: a byte buffer kept in a chain of equal blocks.
-- The chain from `m_root` on is the list `nodes`; `m_cur` is the index `cur` in it, and the index
-- behind the last block stands for the null pointer. A block is the list of its bytes.
-- This file has the state and the operations on raw bytes; the children have the typed ones
-- (`Fixed`, `Vint`, `Text`) and the proofs.
pub mod Blocks
pub mod WriteLoop
pub mod ReadLoop
pub mod Valid
pub mod Growth
pub mod Write
pub mod Append
pub mod Read
pub mod Position
pub mod RoundTrip
pub mod Codec
pub mod Fixed
pub mod Vint
pub mod Text
pub mod Iovecs
use cpp_server_framework.Prelude.{
  ℕ, suc, ◌+◌, ◌-◌, ◌*◌, ◌/◌, ◌%◌, ◌^◌, ◌≡◌, Bool, List, [], ◌∷◌, ◌++◌, length, take, drop,
  replicate, leb, ltb, ◌==◌, if◌then◌else◌,
}
use cpp_server_framework.Endians.{Endian, little, big, is_same}

-- What the code gets from `new char[n]`: some block of n bytes.
pub record Allocator : Type 0 where
  pub block : ℕ → List ℕ
  pub length-block : (n : ℕ) → length (block n) ≡ n

-- `out_of_range` is the exception of that name; `fault` is a read through a null `m_cur`.
pub data Result {ℓ} (A : Type ℓ) : Type ℓ where
  ok : A → Result A
  out_of_range : Result A
  fault : Result A

infixl 5 ◌>>=◌
abbrev pub ◌>>=◌ {ℓ κ} : {A : Type ℓ} {B : Type κ} → Result A → (A → Result B) → Result B
ok a >>= f = f a
out_of_range >>= f = out_of_range
fault >>= f = fault

abbrev pub Node : Type 0
Node = List ℕ

pub record ByteArray : Type 0 where
  pub base_size : ℕ
  pub position : ℕ
  pub capacity : ℕ
  pub size : ℕ
  pub endian : Endian
  pub nodes : List Node
  pub cur : ℕ

-- size_t a - b.
unfoldable pub sub64 : ℕ → ℕ → ℕ
sub64 a b = (a + 2 ^ 64 - b) % 2 ^ 64

pub get_read_size : ByteArray → ℕ
get_read_size a = sub64 a.size a.position

pub get_capacity : ByteArray → ℕ
get_capacity a = sub64 a.capacity a.position

pub is_little_endian : ByteArray → Bool
is_little_endian a = is_same a.endian little

pub set_is_little_endian : ByteArray → Bool → ByteArray
set_is_little_endian a val = record a { endian = if val then little else big }

-- memcpy(dst + n, buf, length buf)
unfoldable pub overwrite : ℕ → List ℕ → List ℕ → List ℕ
overwrite n buf dst = take n dst ++ (buf ++ drop (n + length buf) dst)

-- The blocks from `m_cur` on after the loop of `write`, how far `m_cur` went, and `m_position`.
pub record Written : Type 0 where
  pub nodes : List Node
  pub steps : ℕ
  pub position : ℕ

-- One round for each block. Where the rest of the buffer fits, `size` is set to 0 before it is
-- added to `npos`, so the test compares `npos` alone.
pub write_loop : List Node → ℕ → List ℕ → ℕ → Result Written
write_loop [] npos buf position = fault
write_loop (b ∷ bs) npos buf position =
    let ncap = sub64 (length b) npos in
    let rest = write_loop bs 0 (drop ncap buf) (position + ncap) in
    if leb (length buf) ncap
    then ok (record {
      nodes = overwrite npos buf b ∷ bs;
      steps = if npos + 0 == length b then 1 else 0;
      position = position + length buf;
    })
    else do
      w ← rest
      ok (record {
        nodes = overwrite npos (take ncap buf) b ∷ w.nodes;
        steps = suc w.steps;
        position = w.position;
      })

-- What the loop of `read` copies out, how far `m_cur` went, and `m_position`.
pub record Taken : Type 0 where
  pub bytes : List ℕ
  pub steps : ℕ
  pub position : ℕ

-- `m_cur->size` is read before the loop, so a null `m_cur` is a fault also for size 0.
pub read_loop : List Node → ℕ → ℕ → ℕ → Result Taken
read_loop [] npos size position = fault
read_loop (b ∷ bs) npos size position =
    let ncap = sub64 (length b) npos in
    let rest = read_loop bs 0 (size - ncap) (position + ncap) in
    if size == 0
    then ok (record { bytes = []; steps = 0; position = position })
    else if leb size ncap
    then ok (record {
      bytes = take size (drop npos b);
      steps = if length b == npos + size then 1 else 0;
      position = position + size;
    })
    else do
      t ← rest
      ok (record {
        bytes = take ncap (drop npos b) ++ t.bytes;
        steps = suc t.steps;
        position = t.position;
      })

pub read : ByteArray → ℕ → Result (List ℕ × ByteArray)
read a n = if ltb (get_read_size a) n then out_of_range else do
  t ← read_loop (drop a.cur a.nodes) (a.position % a.base_size) n a.position
  ok (t.bytes, record a { cur = a.cur + t.steps; position = t.position })

-- The overload that takes a position and changes nothing: it starts at `m_cur` all the same.
pub read_at : ByteArray → ℕ → ℕ → Result (List ℕ)
read_at a n position =
    if ltb (sub64 a.size position) n
    then out_of_range
    else do t ← read_loop (drop a.cur a.nodes) (position % a.base_size) n position; ok t.bytes

-- The loop of `setPosition`: how many blocks to step over for the offset `v`.
pub seek : List Node → ℕ → Result ℕ
seek [] v = fault
seek (b ∷ bs) v =
    let rest = seek bs (v - length b) in
    if ltb (length b) v then (do k ← rest; ok (suc k)) else ok (if v == length b then 1 else 0)

pub set_position : ByteArray → ℕ → Result ByteArray
set_position a v = if ltb a.capacity v then out_of_range else do
  k ← seek a.nodes v
  ok (record a { position = v; size = if ltb a.size v then v else a.size; cur = k })

-- Only the root block is kept.
pub clear : ByteArray → ByteArray
clear a = record a {
  position = 0;
  size = 0;
  capacity = a.base_size;
  nodes = take 1 a.nodes;
  cur = 0;
}

pub to_string : ByteArray → Result (List ℕ)
to_string a = if get_read_size a == 0 then ok [] else read_at a (get_read_size a) a.position

module _ (alloc : Allocator) where
  pub new_byte_array : ℕ → ByteArray
  new_byte_array base_size = record {
    base_size = base_size;
    position = 0;
    capacity = base_size;
    size = 0;
    endian = big;
    nodes = alloc.block base_size ∷ [];
    cur = 0;
  }

  -- The number of blocks that hold `size` more bytes.
  pub block_count : ByteArray → ℕ → ℕ
  block_count a size = size / a.base_size + (if size % a.base_size == 0 then 0 else 1)

  pub grow : ByteArray → ℕ → ℕ → ByteArray
  grow a old_cap size = record a {
    nodes = a.nodes ++ replicate (block_count a (size - old_cap)) (alloc.block a.base_size);
    capacity = a.capacity + block_count a (size - old_cap) * a.base_size;
    cur = if old_cap == 0 then length a.nodes else a.cur;
  }

  pub add_capacity : ByteArray → ℕ → ByteArray
  add_capacity a size =
      if size == 0 then a else if leb size (get_capacity a) then a else grow a (get_capacity a) size

  -- `write` behind `addCapacity`.
  pub write_there : ByteArray → List ℕ → Result ByteArray
  write_there a buf = do
    w ← write_loop (drop a.cur a.nodes) (a.position % a.base_size) buf a.position
    ok (record a {
      nodes = take a.cur a.nodes ++ w.nodes;
      cur = a.cur + w.steps;
      position = w.position;
      size = if ltb a.size w.position then w.position else a.size;
    })

  pub write : ByteArray → List ℕ → Result ByteArray
  write a buf = if length buf == 0 then ok a else write_there (add_capacity a (length buf)) buf
