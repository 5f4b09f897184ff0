-- ===== src/ByteArray/Read.antt =====
-- `ByteArray::read`, `setPosition`, `clear` and `toString` on the bytes of the buffer.
use cpp_server_framework.Prelude.{
  ℕ, ◌+◌, ◌-◌, ◌%◌, ◌≤◌, ◌<◌, ◌≡◌, ◌≢◌, inl, refl, sym, ap, ◌∙◌, List, length, take, drop,
  take-take, drop-take, drop-append_more, length-take, some, none, dec_le, length-drop, arith,
}
use cpp_server_framework.ByteArray.{
  ByteArray, ok, out_of_range, Taken, read_loop, read, get_read_size,
}
use cpp_server_framework.ByteArray.Blocks.{
  concat, concat_split, length-concat, Uniform-drop, sub64-eq-sub,
}
use cpp_server_framework.ByteArray.ReadLoop.{IsTaken, read_loop_lem}
use cpp_server_framework.ByteArray.Valid.{
  Buffer, IsValid, IsAligned, view, get, base-le-capacity, cur-lt-length,
}
use cpp_server_framework.ByteArray.Write.{length_before, room_behind}
use cpp_server_framework.ByteArray.Append.{mod_inside}
use native.Mathlib.Nat.{mod-lt}

IsAligned-inside : (a : ByteArray) → IsValid a → a.position < a.capacity → IsAligned a
IsAligned-inside a v h = ground (arith, v.aimed)

-- The slice that the loop takes, in the view.
slice-view :
    (a : ByteArray) (n : ℕ)
    → IsValid a
    → IsAligned a
    → a.position + n ≤ a.size
    → take n (drop (a.position % a.base_size) (concat (drop a.cur a.nodes)))
      ≡ take n (drop a.position (view a).content)
unfolding view
slice-view a n v al h =
    let start =
      drop-append_more a.position (a.position % a.base_size) (concat (take a.cur a.nodes))
        (concat (drop a.cur a.nodes)) (omega (arith, length_before a v al)) in
    ap (take n) (sym (ap (drop a.position) (concat_split a.cur a.nodes) ∙ start))
    ∙ sym (
        ap (take n) (drop-take a.position a.size (concat a.nodes))
        ∙ take-take n (a.size - a.position) (drop a.position (concat a.nodes)) (omega arith))

abbrev after_read : ByteArray → Taken → ByteArray
after_read a t = record a { cur = a.cur + t.steps; position = t.position }

read_run :
    (a : ByteArray) (n : ℕ) (t : Taken)
    → IsValid a
    → a.position + n ≤ a.size
    → read_loop (drop a.cur a.nodes) (a.position % a.base_size) n a.position ≡ ok t
    → read a n ≡ ok (t.bytes, after_read a t)
unfolding read get_read_size
read_run a n t v h run = ground (arith, sub64-eq-sub a.size a.position, v.within, v.bounded, v.fits)

after_read-IsValid :
    (a : ByteArray) (n : ℕ) (t : Taken)
    → IsValid a
    → IsAligned a
    → a.position + n ≤ a.size
    → IsTaken a.base_size (drop a.cur a.nodes) (a.position % a.base_size) n a.position t
    → IsValid (after_read a t)
after_read-IsValid a n t v al h done = record {
  positive = v.positive;
  uniform = v.uniform;
  counted = v.counted;
  rooted = v.rooted;
  within = omega (arith, done.ended);
  bounded = v.bounded;
  fits = v.fits;
  aimed = inl (
      mod_inside (a.cur + t.steps) a.base_size t.position (omega (arith, done.ended, done.lower))
        (omega (arith, done.ended, done.upper)));
}

-- The loop on a valid buffer that has the bytes.
pub loop_some :
    (a : ByteArray) (n : ℕ)
    → IsValid a
    → 0 < n
    → a.position + n ≤ a.size
    → (t : Taken) × (read_loop (drop a.cur a.nodes) (a.position % a.base_size) n a.position ≡ ok t)
      × IsTaken a.base_size (drop a.cur a.nodes) (a.position % a.base_size) n a.position t
      × (t.bytes ≡ take n (drop a.position (view a).content))
loop_some a n v pos h =
    let al = IsAligned-inside a v (omega (arith, v.bounded)) in
    let here = cur-lt-length a v al (omega (arith, v.bounded)) in
    let (t, run, done) =
      read_loop_lem a.base_size v.positive (omega (arith, base-le-capacity a v, v.fits))
        (drop a.cur a.nodes) (a.position % a.base_size) n a.position
        (Uniform-drop a.base_size a.cur a.nodes v.uniform) (mod-lt a.position v.positive)
        (omega (arith, length-drop a.cur a.nodes))
        (room_behind a v al n (omega (arith, v.bounded))) in
    (t, run, done, done.contents ∙ slice-view a n v al h)

read_some :
    (a : ByteArray) (n : ℕ)
    → IsValid a
    → 0 < n
    → a.position + n ≤ a.size
    → (a' : ByteArray) × (read a n ≡ ok (take n (drop a.position (view a).content), a'))
      × IsValid a'
      × (view a' ≡ record (view a) { position = a.position + n })
unfolding view
read_some a n v pos h =
    let al = IsAligned-inside a v (omega (arith, v.bounded)) in
    let (t, run, done, same) = loop_some a n v pos h in
    (
      after_read a t,
      read_run a n t v h run ∙ ap (λ bytes. ok (bytes, after_read a t)) same,
      after_read-IsValid a n t v al h done,
      ap (λ p. record (view a) { position = p }) done.ended,
    )

get_inv :
    (a : ByteArray) (n : ℕ) (bytes : List ℕ) (s : Buffer)
    → get n (view a) ≡ some (bytes, s)
    → (take n (drop a.position (view a).content) ≡ bytes)
      × (record (view a) { position = a.position + n } ≡ s)
unfolding get view
get_inv a n bytes s e = ground arith

pub length-view : (a : ByteArray) → IsValid a → length (view a).content ≡ a.size
unfolding view
length-view a v = omega (
  arith,
  length-take a.size (concat a.nodes),
  length-concat a.base_size a.nodes v.uniform,
  v.counted,
  v.bounded,
)

position-view : (a : ByteArray) → (view a).position ≡ a.position
unfolding view
position-view a = refl

get_none :
    (a : ByteArray) (n : ℕ) (bytes : List ℕ) (s : Buffer)
    → IsValid a
    → a.size < a.position + n
    → get n (view a) ≢ some (bytes, s)
unfolding get
get_none a n bytes s v h e = ground (arith, length-view a v, position-view a)

-- On a valid buffer a read of n > 0 bytes that the abstract buffer has succeeds, gives those bytes
-- across the blocks, moves the position behind them and keeps the invariant.
pub read-get :
    (a : ByteArray) (n : ℕ) (bytes : List ℕ) (s : Buffer)
    → IsValid a
    → 0 < n
    → get n (view a) ≡ some (bytes, s)
    → (a' : ByteArray) × (read a n ≡ ok (bytes, a')) × IsValid a' × (view a' ≡ s)
read-get a n bytes s v pos e = elim (dec_le (a.position + n) a.size) [
  | yes h ↦
      let (a', run, v', seen) = read_some a n v pos h in
      let (b, moved) = get_inv a n bytes s e in (a', run ∙ ap (λ x. ok (x, a')) b, v', seen ∙ moved)
  | no h ↦ absurd (get_none a n bytes s v (omega arith) e)
]

-- On a valid buffer a read of more bytes than the abstract buffer has raises out_of_range.
pub read_out_of_range :
    (a : ByteArray) (n : ℕ) → IsValid a → get n (view a) ≡ none → read a n ≡ out_of_range
unfolding read get_read_size get
read_out_of_range a n v e = ground (
  arith,
  length-view a v,
  position-view a,
  sub64-eq-sub a.size a.position,
  v.within,
  v.bounded,
  v.fits,
)
