-- ===== src/ByteArray/Codec.antt =====
-- Writers and readers of whole values: the bytes that a writer puts, the value that a reader makes
-- of them, and how such steps follow one another.
use cpp_server_framework.Prelude.{
  ℕ, ◌+◌, ◌*◌, ◌^◌, ◌≤◌, ◌<◌, ◌≡◌, sym, ap, ◌∙◌, List, ◌++◌, append_assoc, length, take, drop,
  take-append, take-append_more, drop-append_more, length-take, length-append, length-drop, some,
  take_all, drop-drop, arith,
}
use cpp_server_framework.ByteArray.{
  ByteArray, Allocator, Result, ok, ◌>>=◌, overwrite, read, write, set_position,
}
use cpp_server_framework.ByteArray.Valid.{Buffer, IsValid, IsTight, view, put, get}
use cpp_server_framework.ByteArray.Append.{write-put_append}
use cpp_server_framework.ByteArray.Read.{read-get, length-view}
use cpp_server_framework.ByteArray.Position.{set_position_inside}
use cpp_server_framework.ByteArray.RoundTrip.{back_to}

-- A buffer that takes n more bytes at its end; two more blocks fit the address space.
pub record IsWritable (a : ByteArray) (n : ℕ) : Type 0 where
  pub valid : IsValid a
  pub tight : IsTight a
  pub fits : a.position + n + 2 * a.base_size < 2 ^ 64

-- A step has put the bytes `enc` into `a`.
abbrev pub Wrote : ByteArray → List ℕ → Result ByteArray → Type 0
Wrote a enc r =
    (a' : ByteArray) × (r ≡ ok a') × IsValid a' × IsTight a' × (view a' ≡ put enc (view a))

abbrev pub skip : ℕ → Buffer → Buffer
skip n s = record s { position = s.position + n }

-- The bytes `enc` stand at the position.
pub record IsReadable (a : ByteArray) (enc : List ℕ) : Type 0 where
  pub valid : IsValid a
  pub rest : List ℕ
  pub ahead : drop a.position (view a).content ≡ enc ++ rest

-- A step has made `x` of the next n bytes, and changed nothing else.
abbrev pub ReadBack : {A : Type 0} → ByteArray → ℕ → A → Result (A × ByteArray) → Type 0
ReadBack a n x r = (a' : ByteArray) × (r ≡ ok (x, a')) × IsValid a' × (view a' ≡ skip n (view a))

overwrite-append_next :
    (p : ℕ) (e1 e2 c : List ℕ)
    → p ≤ length c
    → overwrite p (e1 ++ e2) c ≡ overwrite (p + length e1) e2 (overwrite p e1 c)
unfolding overwrite
overwrite-append_next p e1 e2 c h =
    let n = length e1 in
    let tail = e1 ++ drop (p + n) c in
    let front : take (p + n) (take p c ++ tail) ≡ take p c ++ e1 =
      take-append_more (p + n) n (take p c) tail (omega (arith, length-take p c))
      ∙ ap (λ t. take p c ++ t)
          (take-append n e1 (drop (p + n) c) (omega arith) ∙ take_all n e1 (omega arith)) in
    let back : drop (p + n + length e2) (take p c ++ tail) ≡ drop (p + length (e1 ++ e2)) c =
      drop-append_more (p + n + length e2) (n + length e2) (take p c) tail
        (omega (arith, length-take p c))
      ∙ drop-append_more (n + length e2) (length e2) e1 (drop (p + n) c) (omega arith)
      ∙ drop-drop (length e2) (p + n) c
      ∙ (let e : p + n + length e2 ≡ p + length (e1 ++ e2) = omega (arith, length-append e1 e2) in
          ap (λ k. drop k c) e) in
    rw (front, back, append_assoc (take p c) e1 (e2 ++ drop (p + length (e1 ++ e2)) c))
      (ap (λ t. take p c ++ t) (append_assoc e1 e2 _))

put-append :
    (e1 e2 : List ℕ) (s : Buffer)
    → s.position ≤ length s.content
    → put (e1 ++ e2) s ≡ put e2 (put e1 s)
unfolding put
put-append e1 e2 s h =
    let e : s.position + length (e1 ++ e2) ≡ s.position + length e1 + length e2 =
      omega (arith, length-append e1 e2) in
    λ i. record s { content = overwrite-append_next s.position e1 e2 s.content h i; position = e i }

-- What a put does to the position, and what it leaves.
pub put-position :
    (a b : ByteArray) (enc : List ℕ)
    → view b ≡ put enc (view a)
    → (b.position ≡ a.position + length enc) × (b.base_size ≡ a.base_size) × (b.endian ≡ a.endian)
unfolding view put
put-position a b enc seen =
    (ap (λ s. s.position) seen, ap (λ s. s.base_size) seen, ap (λ s. s.endian) seen)

pub skip-position :
    (a b : ByteArray) (n : ℕ)
    → view b ≡ skip n (view a)
    → (b.position ≡ a.position + n) × (b.endian ≡ a.endian)
unfolding view
skip-position a b n seen = (ap (λ s. s.position) seen, ap (λ s. s.endian) seen)

position-le-length : (a : ByteArray) → IsValid a → (view a).position ≤ length (view a).content
position-le-length a v = unfold view in omega (arith, length-view a v, v.within)

module _ (alloc : Allocator) where
  pub write-Wrote :
      (a : ByteArray) (buf : List ℕ) → IsWritable a (length buf) → Wrote a buf (write alloc a buf)
  write-Wrote a buf w =
      write-put_append alloc a buf w.valid w.tight (omega (arith, w.tight, w.fits))

-- One writer after the other puts the bytes of both.
pub then-Wrote :
    (a : ByteArray) (e1 e2 : List ℕ) (r : Result ByteArray) (f : ByteArray → Result ByteArray)
    → IsWritable a (length e1 + length e2)
    → Wrote a e1 r
    → ((b : ByteArray) → IsWritable b (length e2) → view b ≡ put e1 (view a) → Wrote b e2 (f b))
    → Wrote a (e1 ++ e2) (r >>= f)
then-Wrote a e1 e2 r f w (b, run, v, t, seen) next =
    let (at, base, _) = put-position a b e1 seen in
    let fits : b.position + length e2 + 2 * b.base_size < 2 ^ 64 = omega (arith, w.fits) in
    let (c, run', v', t', seen') = next b (record { valid = v; tight = t; fits = fits }) seen in
    (
      c,
      ap (λ q. q >>= f) run ∙ run',
      v',
      t',
      seen' ∙ ap (put e2) seen ∙ sym (put-append e1 e2 (view a) (position-le-length a w.valid)),
    )

get_ahead :
    (a : ByteArray) (enc : List ℕ)
    → IsReadable a enc
    → get (length enc) (view a) ≡ some (enc, skip (length enc) (view a))
unfolding get view
get_ahead a enc r =
    let enough : a.position + length enc ≤ length (view a).content = omega (
      arith,
      ap length r.ahead,
      length-drop a.position (view a).content,
      length-append enc r.rest,
      length-view a r.valid,
      r.valid.within,
    ) in
    let taken : take (length enc) (drop a.position (view a).content) ≡ enc =
      ap (take (length enc)) r.ahead
      ∙ take-append (length enc) enc r.rest (omega arith)
      ∙ take_all (length enc) enc (omega arith) in
    ground (arith, enough, taken)

pub read-ReadBack :
    (a : ByteArray) (enc : List ℕ)
    → IsReadable a enc
    → 0 < length enc
    → ReadBack a (length enc) enc (read a (length enc))
read-ReadBack a enc r pos =
    read-get a (length enc) enc (skip (length enc) (view a)) r.valid pos (get_ahead a enc r)

IsReadable-skip :
    (a b : ByteArray) (e1 e2 : List ℕ)
    → IsReadable a (e1 ++ e2)
    → IsValid b
    → view b ≡ skip (length e1) (view a)
    → IsReadable b e2
unfolding view
IsReadable-skip a b e1 e2 rd v seen = record {
  valid = v;
  rest = rd.rest;
  ahead =
      ap (λ s. drop s.position s.content) seen
      ∙ sym (drop-drop (length e1) a.position (view a).content)
      ∙ ap (drop (length e1)) (rd.ahead ∙ append_assoc e1 e2 rd.rest)
      ∙ drop-append_more (length e1) 0 e1 (e2 ++ rd.rest) (omega arith);
}

skip-skip : (a : ByteArray) (n m k : ℕ) → n + m ≡ k → skip m (skip n (view a)) ≡ skip k (view a)
skip-skip a n m k e =
    let at : (view a).position + n + m ≡ (view a).position + k = omega arith in
    ap (λ p. record (view a) { position = p }) at

-- One reader after the other reads the bytes of both.
pub then-ReadBack :
    {A B : Type 0} (a : ByteArray) (e1 e2 : List ℕ) (x : A) (y : B) (r : Result (A × ByteArray))
    (f : A × ByteArray → Result (B × ByteArray))
    → IsReadable a (e1 ++ e2)
    → ReadBack a (length e1) x r
    → ((b : ByteArray)
        → IsReadable b e2
        → view b ≡ skip (length e1) (view a)
        → ReadBack b (length e2) y (f (x, b)))
    → ReadBack a (length (e1 ++ e2)) y (r >>= f)
then-ReadBack a e1 e2 x y r f rd (b, run, v, seen) next =
    let (c, run', v', seen') = next b (IsReadable-skip a b e1 e2 rd v seen) seen in
    let e : a.position + length e1 + length e2 ≡ a.position + length (e1 ++ e2) =
      omega (arith, length-append e1 e2) in
    (
      c,
      ap (λ q. q >>= f) run ∙ run',
      v',
      seen'
          ∙ ap (skip (length e2)) seen
          ∙ skip-skip a (length e1) (length e2) _ (sym (length-append e1 e2)),
    )

-- What a writer has put at the end of a buffer stands there for a reader that starts in the same
-- place.
pub IsReadable-put :
    (a b c : ByteArray) (enc : List ℕ)
    → IsValid a
    → view b ≡ put enc (view a)
    → IsValid c
    → view c ≡ back_to a.position (view b)
    → IsReadable c enc
unfolding view put overwrite
IsReadable-put a b c enc va seen vc back = record {
  valid = vc;
  rest = drop (a.position + length enc) (view a).content;
  ahead =
      ap (λ (s : Buffer). drop s.position s.content) (back ∙ ap (back_to a.position) seen)
      ∙ drop-append_more a.position 0 (take a.position (view a).content)
          (enc ++ drop (a.position + length enc) (view a).content)
          (omega (arith, length-take a.position (view a).content, length-view a va, va.within));
}

back-endian : (b c : ByteArray) (p : ℕ) → view c ≡ back_to p (view b) → c.endian ≡ b.endian
unfolding view
back-endian b c p back = ap (λ s. s.endian) back

skip-back :
    (b c : ByteArray) (p n : ℕ)
    → view c ≡ back_to p (view b)
    → b.position ≡ p + n
    → skip n (view c) ≡ view b
unfolding view
skip-back b c p n back at = ap (skip n) back ∙ ap (λ q. record (view b) { position = q }) (sym at)

-- A writer that puts `enc` and a reader that makes `x` of it: the value comes back.
pub round_trip :
    {A : Type 0} (a : ByteArray) (enc : List ℕ) (x : A) (w : ByteArray → Result ByteArray)
    (r : ByteArray → Result (A × ByteArray))
    → IsValid a
    → Wrote a enc (w a)
    → ((c : ByteArray) → IsReadable c enc → c.endian ≡ a.endian → ReadBack c (length enc) x (r c))
    → (b c d : ByteArray) × (w a ≡ ok b)
      × (set_position b a.position ≡ ok c)
      × (r c ≡ ok (x, d))
      × IsValid d
      × (view d ≡ view b)
round_trip a enc x w r va (b, run1, vb, tb, seen) reads =
    let (at, _, en) = put-position a b enc seen in
    let (c, run2, vc, back) = set_position_inside b a.position vb (omega (arith, vb.within)) in
    let en' = back-endian b c a.position back ∙ en in
    let (d, run3, vd, seen') = reads c (IsReadable-put a b c enc va seen vc back) en' in
    (b, c, d, run1, run2, run3, vd, seen' ∙ skip-back b c a.position (length enc) back at)
