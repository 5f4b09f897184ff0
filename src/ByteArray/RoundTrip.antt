-- ===== src/ByteArray/RoundTrip.antt =====
-- `ByteArray`: what was written is read back; `clear`.
use cpp_server_framework.Prelude.{
  ℕ, ◌+◌, ◌^◌, ◌≤◌, ◌<◌, ◌≡◌, inl, refl, sym, ap, ◌∙◌, List, [], ◌++◌, length, take, drop,
  take-append, drop-append_more, length-take, length-append, some, take_all, arith,
}
use cpp_server_framework.ByteArray.{
  ByteArray, Allocator, ok, overwrite, read, write, set_position, clear,
}
use cpp_server_framework.ByteArray.Blocks.{Uniform-take}
use cpp_server_framework.ByteArray.Valid.{
  Buffer, IsValid, IsTight, view, put, get, base-le-capacity,
}
use cpp_server_framework.ByteArray.Append.{write-put_append}
use cpp_server_framework.ByteArray.Read.{read-get, length-view}
use cpp_server_framework.ByteArray.Position.{set_position_inside}

abbrev pub back_to : ℕ → Buffer → Buffer
back_to p s = record s { position = p }

length-put :
    (bytes : List ℕ) (s : Buffer)
    → s.position ≤ length s.content
    → s.position + length bytes ≤ length (put bytes s).content
unfolding put overwrite
length-put bytes s h = omega (
  arith,
  length-append (take s.position s.content) (bytes ++ drop (s.position + length bytes) s.content),
  length-append bytes (drop (s.position + length bytes) s.content),
  length-take s.position s.content,
)

take-drop-put :
    (bytes : List ℕ) (s : Buffer)
    → s.position ≤ length s.content
    → take (length bytes) (drop s.position (put bytes s).content) ≡ bytes
unfolding put overwrite
take-drop-put bytes s h =
    ap (take (length bytes)) (
      drop-append_more s.position 0 (take s.position s.content)
        (bytes ++ drop (s.position + length bytes) s.content)
        (omega (arith, length-take s.position s.content)))
    ∙ take-append (length bytes) bytes (drop (s.position + length bytes) s.content) (omega arith)
    ∙ take_all (length bytes) bytes (omega arith)

-- The abstract buffer gives back what was put.
pub get-put :
    (bytes : List ℕ) (s : Buffer)
    → s.position ≤ length s.content
    → get (length bytes) (back_to s.position (put bytes s)) ≡ some (bytes, put bytes s)
unfolding get
get-put bytes s h =
    ground (arith, length-put bytes s h, take-drop-put bytes s h, position-put bytes s)
  where
    position-put :
        (bytes : List ℕ) (s : Buffer) → (put bytes s).position ≡ s.position + length bytes
    position-put bytes s = unfold put in refl

get_back :
    (a a1 a2 : ByteArray) (buf : List ℕ)
    → IsValid a
    → view a1 ≡ put buf (view a)
    → view a2 ≡ back_to a.position (view a1)
    → get (length buf) (view a2) ≡ some (buf, view a1)
get_back a a1 a2 buf v seen1 seen2 =
    let put_first : get (length buf) (back_to a.position (put buf (view a)))
        ≡ some (buf, put buf (view a)) =
      unfold view in get-put buf (view a) (omega (arith, length-view a v, v.within)) in
    ap (get (length buf)) (seen2 ∙ ap (back_to a.position) seen1)
    ∙ put_first
    ∙ ap (λ s. some (buf, s)) (sym seen1)

module _ (alloc : Allocator) where
  -- On a valid buffer with no free block behind the position, a write that is not empty and fits
  -- the address space, a `setPosition` back to the start and a read of as many bytes succeed and
  -- give the bytes back; the invariant holds and the content is as after the write.
  pub read-write :
      (a : ByteArray) (buf : List ℕ)
      → IsValid a
      → IsTight a
      → 0 < length buf
      → a.capacity + length buf + a.base_size < 2 ^ 64
      → (a1 a2 a3 : ByteArray) × (write alloc a buf ≡ ok a1)
        × (set_position a1 a.position ≡ ok a2)
        × (read a2 (length buf) ≡ ok (buf, a3))
        × IsValid a3
        × (view a3 ≡ view a1)
  read-write a buf v tight pos fits =
      let (a1, run1, v1, tight1, seen1) = write-put_append alloc a buf v tight fits in
      let at : a1.position ≡ a.position + length buf =
        unfold view put in ap (λ s. s.position) seen1 in
      let (a2, run2, v2, seen2) =
        set_position_inside a1 a.position v1 (omega (arith, at, v1.within)) in
      let (a3, run3, v3, seen3) =
        read-get a2 (length buf) buf (view a1) v2 pos (get_back a a1 a2 buf v seen1 seen2) in
      (a1, a2, a3, run1, run2, run3, v3, seen3)

-- `clear` on a valid buffer leaves a valid buffer with no free block, with no content, at position
-- 0 and with the settings unchanged.
pub clear-IsValid :
    (a : ByteArray)
    → IsValid a
    → IsValid (clear a)
      × IsTight (clear a)
      × (view (clear a) ≡ record (view a) { content = []; position = 0 })
unfolding clear view
clear-IsValid a v =
    let one : length (take 1 a.nodes) ≡ 1 = omega (arith, length-take 1 a.nodes, v.rooted) in
    let base = v.positive in
    (
      record {
        positive = v.positive;
        uniform = Uniform-take a.base_size 1 a.nodes v.uniform;
        counted = rw one (omega arith);
        rooted = omega arith;
        within = omega arith;
        bounded = omega arith;
        fits = omega (arith, base-le-capacity a v, v.fits);
        aimed = inl (omega arith);
      },
      omega arith,
      refl,
    )
