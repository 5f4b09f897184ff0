-- ===== src/ByteArray/Iovecs.antt =====
-- src/socket/bytearray.cpp, `getReadBuffers`: the bytes to read as a vector of iovec, one for each
-- block that they touch. An iovec into a block is that block, the offset of `iov_base` in it and
-- `iov_len`.
use cpp_server_framework.Prelude.{
  ℕ, suc, ◌+◌, ◌-◌, ◌/◌, ◌%◌, ◌≤◌, ◌<◌, ◌≡◌, refl, sym, ap, ◌∙◌, inl, inr, Bool-cases, false, List,
  [], ◌∷◌, ◌++◌, append-nil, length, length-drop, take_all, min, dec_le, take, drop, leb, ltb, ◌==◌,
  if◌then◌else◌, arith,
}
use cpp_server_framework.ByteArray.{
  ByteArray, Result, ok, out_of_range, fault, ◌>>=◌, Node, Taken, sub64, get_read_size, read_loop,
}
use cpp_server_framework.ByteArray.Blocks.{sub64-eq-sub}
use cpp_server_framework.ByteArray.Valid.{IsValid, view}
use cpp_server_framework.ByteArray.Read.{length-view, loop_some}

pub record Iovec : Type 0 where
  pub block : Node
  pub offset : ℕ
  pub len : ℕ

-- The memory that an iovec names.
abbrev pub bytes_of : Iovec → List ℕ
bytes_of v = take v.len (drop v.offset v.block)

abbrev pub gather : List Iovec → List ℕ
gather [] = []
gather (v ∷ vs) = bytes_of v ++ gather vs

-- The loop of `getReadBuffers`, from `cur` and `npos` on.
unfoldable pub iovec_loop : List Node → ℕ → ℕ → Result (List Iovec)
iovec_loop [] npos len = fault
iovec_loop (b ∷ bs) npos len =
    let ncap = sub64 (length b) npos in
    let rest = iovec_loop bs 0 (len - ncap) in
    if len == 0
    then ok []
    else if leb len ncap
    then ok (record { block = b; offset = npos; len = len } ∷ [])
    else do vs ← rest; ok (record { block = b; offset = npos; len = ncap } ∷ vs)

abbrev pub clip : ByteArray → ℕ → ℕ
clip a len = if ltb (get_read_size a) len then get_read_size a else len

-- The size and the vector that are given.
unfoldable pub get_read_buffers : ByteArray → ℕ → Result (ℕ × List Iovec)
get_read_buffers a len =
    let n = clip a len in
    if n == 0
    then ok (0, [])
    else do vs ← iovec_loop (drop a.cur a.nodes) (a.position % a.base_size) n; ok (n, vs)

-- The overload with a position bounds `len` by the bytes behind `m_position` too.
unfoldable pub get_read_buffers_at : ByteArray → ℕ → ℕ → Result (ℕ × List Iovec)
get_read_buffers_at a len position =
    let n = clip a len in
    if n == 0 then ok (0, []) else do
      vs ← iovec_loop (drop (position / a.base_size) a.nodes) (position % a.base_size) n
      ok (n, vs)

gathered : Result (List Iovec) → Result (List ℕ)
gathered r = r >>= λ vs. ok (gather vs)

copied : Result Taken → Result (List ℕ)
copied r = r >>= λ t. ok t.bytes

-- One more block in front, on both sides.
gathered_front :
    (v : Iovec) (r : Result (List Iovec))
    → gathered (r >>= λ vs. ok (v ∷ vs)) ≡ (gathered r >>= λ bytes. ok (bytes_of v ++ bytes))
unfolding gathered
gathered_front v (ok vs) = refl
gathered_front v out_of_range = refl
gathered_front v fault = refl

copied_front :
    (front : List ℕ) (q : Result Taken)
    → copied (
        q >>= λ t.
        ok (record { bytes = front ++ t.bytes; steps = suc t.steps; position = t.position }))
      ≡ (copied q >>= λ bytes. ok (front ++ bytes))
unfolding copied
copied_front front (ok t) = refl
copied_front front out_of_range = refl
copied_front front fault = refl

joined :
    (v : Iovec) (r : Result (List Iovec)) (q : Result Taken)
    → gathered r ≡ copied q
    → gathered (r >>= λ vs. ok (v ∷ vs))
      ≡ copied (
          q >>= λ t.
          ok (record { bytes = bytes_of v ++ t.bytes; steps = suc t.steps; position = t.position }))
joined v r q ih =
    gathered_front v r
    ∙ ap (λ u. u >>= λ bytes. ok (bytes_of v ++ bytes)) ih
    ∙ sym (copied_front (bytes_of v) q)

-- The loop names the bytes that the loop of `read` copies.
iovec_loop-read_loop :
    (bs : List Node) (npos n position : ℕ)
    → gathered (iovec_loop bs npos n) ≡ copied (read_loop bs npos n position)
unfolding iovec_loop read_loop gathered copied
iovec_loop-read_loop [] npos n position = refl
iovec_loop-read_loop (b ∷ bs) npos n position =
    let ncap = sub64 (length b) npos in
    let ih = iovec_loop-read_loop bs 0 (n - ncap) (position + ncap) in
    elim (Bool-cases (n == 0)) [
      | inl e ↦ rw e refl
      | inr ne ↦ elim (Bool-cases (leb n ncap)) [
        | inl le ↦ rw (ne, le) (ap ok (append-nil (take n (drop npos b))))
        | inr more ↦
            rw (ne, more)
              (joined (record { block = b; offset = npos; len = ncap }) (iovec_loop bs 0 (n - ncap))
                (read_loop bs 0 (n - ncap) (position + ncap)) ih)
      ]
    ]

gathered_inv :
    (r : Result (List Iovec)) (bytes : List ℕ)
    → gathered r ≡ ok bytes
    → (vs : List Iovec) × (r ≡ ok vs) × (gather vs ≡ bytes)
unfolding gathered
gathered_inv (ok vs) bytes e = (vs, refl, ground (arith, e))
gathered_inv out_of_range bytes e = absurd (ground (arith, e))
gathered_inv fault bytes e = absurd (ground (arith, e))

clip-min : (a : ByteArray) (len : ℕ) → IsValid a → clip a len ≡ min len (a.size - a.position)
unfolding get_read_size
clip-min a len v =
    let e : sub64 a.size a.position ≡ a.size - a.position =
      sub64-eq-sub a.size a.position v.within (omega (arith, v.bounded, v.fits)) in
    rw e (ground arith)

-- Cutting at more than there is.
take-min : (n : ℕ) (xs : List ℕ) → take (min n (length xs)) xs ≡ take n xs
take-min n xs = elim (dec_le n (length xs)) [
  | yes h ↦ let e : min n (length xs) ≡ n = omega arith in rw e refl
  | no h ↦
      let e : min n (length xs) ≡ length xs = omega arith in
      rw (e, take_all (length xs) xs (omega arith), take_all n xs (omega arith)) refl
]

ahead-length :
    (a : ByteArray) → IsValid a → length (drop a.position (view a).content) ≡ a.size - a.position
ahead-length a v =
    length-drop a.position (view a).content ∙ ap (λ n. n - a.position) (length-view a v)

some_buffers :
    (a : ByteArray) (n : ℕ)
    → IsValid a
    → 0 < n
    → a.position + n ≤ a.size
    → (vs : List Iovec) × (iovec_loop (drop a.cur a.nodes) (a.position % a.base_size) n ≡ ok vs)
      × (gather vs ≡ take n (drop a.position (view a).content))
some_buffers a n v pos h =
    let (t, run, done, same) = loop_some a n v pos h in
    let both = iovec_loop-read_loop (drop a.cur a.nodes) (a.position % a.base_size) n a.position in
    gathered_inv _ _
      (unfold copied in both ∙ ap (λ q. q >>= λ (u : Taken). ok u.bytes) run ∙ ap ok same)

-- On a valid buffer `getReadBuffers` never runs out of blocks; it gives as size the smaller of
-- `len` and the bytes behind the position, and the iovecs together name just the first `len` bytes
-- behind the position, or all where there are fewer.
pub get_read_buffers_lem :
    (a : ByteArray) (len : ℕ)
    → IsValid a
    → (vs : List Iovec) × (get_read_buffers a len ≡ ok (min len (a.size - a.position), vs))
      × (gather vs ≡ take len (drop a.position (view a).content))
unfolding get_read_buffers
get_read_buffers_lem a len v =
    let ahead = drop a.position (view a).content in
    let left = ahead-length a v in
    let cut : take (min len (a.size - a.position)) ahead ≡ take len ahead =
      ap (λ n. take (min len n) ahead) (sym left) ∙ take-min len ahead in
    let n = min len (a.size - a.position) in
    elim (dec_le n 0) [
      | yes h ↦
          let e : clip a len ≡ 0 = omega (arith, clip-min a len v) in
          let z : n ≡ 0 = omega arith in ([], rw (e, z) refl, ap (λ k. take k ahead) (sym z) ∙ cut)
      | no h ↦
          let (vs, run, same) = some_buffers a n v (omega arith) (omega (arith, v.within)) in
          let m = clip-min a len v in
          let busy : (n == 0) ≡ false = ground (arith, h) in
          (vs, rw (m, busy, run) refl, same ∙ cut)
    ]
