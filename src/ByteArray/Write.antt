-- ===== src/ByteArray/Write.antt =====
-- `ByteArray::write` puts the bytes into the buffer at the position.
use cpp_server_framework.Prelude.{
  ℕ, ◌+◌, ◌-◌, ◌*◌, ◌%◌, ◌≤◌, ◌<◌, ◌≡◌, refl, sym, ap, ◌∙◌, List, ◌++◌, length, take, drop,
  take-append_more, length-append, length-take, length-drop, take-take, drop-take, ltb,
  if◌then◌else◌, arith,
}
use cpp_server_framework.ByteArray.{ByteArray, Allocator, ok, overwrite, Written, write_there}
use cpp_server_framework.ByteArray.Blocks.{
  concat, Uniform, concat-append, concat_split, length-concat, Uniform-append, Uniform-take,
  Uniform-drop, overwrite-append_more,
}
use cpp_server_framework.ByteArray.WriteLoop.{IsWritten, write_loop_lem}
use cpp_server_framework.ByteArray.Valid.{IsValid, IsAligned, view, put, base-le-capacity}
use native.Mathlib.Nat.{mod-lt}

-- A copy into a long list, seen through its first bytes.
take-overwrite :
    (size size' p : ℕ) (buf flat : List ℕ)
    → p ≤ size
    → p + length buf ≤ length flat
    → p + length buf ≤ size'
    → size' - (p + length buf) ≡ size - (p + length buf)
    → take size' (overwrite p buf flat) ≡ overwrite p buf (take size flat)
unfolding overwrite
take-overwrite size size' p buf flat hp room hs same =
    let n = length buf in
    let e : size' - (p + n) ≡ size - (p + n) = same in
    rw (
      take-append_more size' (size' - p) (take p flat) (buf ++ drop (p + n) flat)
          (omega (arith, length-take p flat)),
      take-append_more (size' - p) (size' - (p + n)) buf (drop (p + n) flat) (omega arith),
      take-take p size flat hp,
      drop-take (p + n) size flat,
      same,
    )

-- Where the blocks from `m_cur` on stand in the chain.
module _ (a : ByteArray) (v : IsValid a) (al : IsAligned a) where
  cur-le-length : a.cur ≤ length a.nodes
  cur-le-length = grind (arith, v.counted, v.positive, v.within, v.bounded)

  pub length_before : length (concat (take a.cur a.nodes)) ≡ a.cur * a.base_size
  length_before =
      let e : length (take a.cur a.nodes) ≡ a.cur =
        omega (arith, length-take a.cur a.nodes, cur-le-length) in
      length-concat a.base_size (take a.cur a.nodes)
        (Uniform-take a.base_size a.cur a.nodes v.uniform)
      ∙ ap (λ (k : ℕ). k * a.base_size) e

  pub room_behind :
      (n : ℕ)
      → a.position + n ≤ a.capacity
      → a.position % a.base_size + n ≤ length (drop a.cur a.nodes) * a.base_size
  room_behind n h =
      let e : length a.nodes ≡ a.cur + length (drop a.cur a.nodes) =
        omega (arith, length-drop a.cur a.nodes, cur-le-length) in
      omega (arith, v.counted, ap (λ (k : ℕ). k * a.base_size) e)

  overwrite_chain :
      (buf : List ℕ) (w : Written)
      → IsWritten a.base_size (drop a.cur a.nodes) (a.position % a.base_size) buf a.position w
      → concat (take a.cur a.nodes ++ w.nodes) ≡ overwrite a.position buf (concat a.nodes)
  overwrite_chain buf w done =
      concat-append (take a.cur a.nodes) w.nodes
      ∙ ap (λ t. concat (take a.cur a.nodes) ++ t) done.contents
      ∙ sym (
          ap (overwrite a.position buf) (concat_split a.cur a.nodes)
          ∙ overwrite-append_more a.position (a.position % a.base_size) buf
              (concat (take a.cur a.nodes)) (concat (drop a.cur a.nodes))
              (omega (arith, length_before)))

-- The state behind a write of `buf`, but for `m_cur`: `block` is the block of the last byte.
pub record IsPut (a : ByteArray) (buf : List ℕ) (a' : ByteArray) : Type 0 where
  pub same_base : a'.base_size ≡ a.base_size
  pub same_capacity : a'.capacity ≡ a.capacity
  pub moved : a'.position ≡ a.position + length buf
  pub uniform : Uniform a'.base_size a'.nodes
  pub count : length a'.nodes ≡ length a.nodes
  pub within : a'.position ≤ a'.size
  pub bounded : a'.size ≤ a'.capacity
  pub lower : a'.cur * a'.base_size < a'.position
  pub upper : a'.position ≤ a'.cur * a'.base_size + a'.base_size
  pub seen : view a' ≡ put buf (view a)

module _ (alloc : Allocator) where
  after_write : ByteArray → Written → ByteArray
  after_write a w = record a {
    nodes = take a.cur a.nodes ++ w.nodes;
    cur = a.cur + w.steps;
    position = w.position;
    size = if ltb a.size w.position then w.position else a.size;
  }

  after_write-seen :
      (a : ByteArray) (buf : List ℕ) (w : Written)
      → IsValid a
      → IsAligned a
      → a.position + length buf ≤ a.capacity
      → IsWritten a.base_size (drop a.cur a.nodes) (a.position % a.base_size) buf a.position w
      → view (after_write a w) ≡ put buf (view a)
  unfolding after_write view put
  after_write-seen a buf w v al room done =
      let size' : ℕ = if ltb a.size w.position then w.position else a.size in
      let bytes : take size' (concat (take a.cur a.nodes ++ w.nodes))
          ≡ overwrite a.position buf (take a.size (concat a.nodes)) =
        ap (take size') (overwrite_chain a v al buf w done)
        ∙ take-overwrite a.size size' a.position buf (concat a.nodes) v.within
            (omega (arith, length-concat a.base_size a.nodes v.uniform, v.counted))
            (ground (arith, done.ended)) (ground (arith, done.ended)) in
      λ i. record (view a) { content = bytes i; position = done.ended i }

  after_write-IsPut :
      (a : ByteArray) (buf : List ℕ) (w : Written)
      → IsValid a
      → IsAligned a
      → a.position + length buf ≤ a.capacity
      → IsWritten a.base_size (drop a.cur a.nodes) (a.position % a.base_size) buf a.position w
      → IsPut a buf (after_write a w)
  unfolding after_write
  after_write-IsPut a buf w v al room done = record {
    same_base = refl;
    same_capacity = refl;
    moved = done.ended;
    uniform =
        Uniform-append a.base_size (take a.cur a.nodes) w.nodes
          (Uniform-take a.base_size a.cur a.nodes v.uniform) done.uniform;
    count = omega (
      arith,
      length-append (take a.cur a.nodes) w.nodes,
      done.count,
      length-take a.cur a.nodes,
      length-drop a.cur a.nodes,
    );
    within = ground arith;
    bounded = ground (arith, done.ended, v.bounded);
    lower = omega (arith, done.ended, done.lower);
    upper = omega (arith, done.ended, done.upper);
    seen = after_write-seen a buf w v al room done;
  }

  pub write_there_lem :
      (a : ByteArray) (buf : List ℕ)
      → IsValid a
      → IsAligned a
      → 0 < length buf
      → a.position + length buf ≤ a.capacity
      → (a' : ByteArray) × (write_there alloc a buf ≡ ok a') × IsPut a buf a'
  unfolding write_there after_write
  write_there_lem a buf v al pos room =
      let (w, run, done) =
        write_loop_lem a.base_size v.positive (omega (arith, base-le-capacity a v, v.fits))
          (drop a.cur a.nodes) (a.position % a.base_size) buf a.position
          (Uniform-drop a.base_size a.cur a.nodes v.uniform) (mod-lt a.position v.positive) pos
          (room_behind a v al (length buf) room) in
      (after_write a w, rw run, after_write-IsPut a buf w v al room done)
