-- ===== src/ByteArray/ReadLoop.antt =====
-- The loop of `ByteArray::read` over the chain takes one slice of the bytes of the chain.
use cpp_server_framework.Prelude.{
  ℕ, suc, ◌+◌, ◌-◌, ◌*◌, ◌^◌, ◌≤◌, ◌<◌, ◌≡◌, refl, sym, ap, ◌∙◌, inl, inr, List, [], ◌∷◌, ◌++◌,
  length, take, drop, length-drop, take-append, drop-append, take-append_more, take_all, ◌==◌,
  Bool-cases, arith, dec_le,
}
use cpp_server_framework.ByteArray.{Node, ok, Taken, read_loop}
use cpp_server_framework.ByteArray.Blocks.{concat, Uniform, sub64-eq-sub}

slice-append :
    (n size : ℕ) (xs ys : List ℕ)
    → n + size ≤ length xs
    → take size (drop n (xs ++ ys)) ≡ take size (drop n xs)
slice-append n size xs ys h =
    rw (drop-append n xs ys (omega arith))
      (take-append size (drop n xs) ys (omega (arith, length-drop n xs)))

slice_across :
    (n k size : ℕ) (xs ys : List ℕ)
    → length xs ≡ n + k
    → k ≤ size
    → take size (drop n (xs ++ ys)) ≡ take k (drop n xs) ++ take (size - k) ys
slice_across n k size xs ys h le =
    rw (drop-append n xs ys (omega arith), take_all k (drop n xs) (omega (arith, length-drop n xs)))
      (take-append_more size (size - k) (drop n xs) ys (omega (arith, length-drop n xs)))

-- What the loop has read from the blocks `bs` from `m_cur` on, started at offset `npos`: the
-- bytes, the position, and the block in which the next byte stands.
pub record IsTaken (base : ℕ) (bs : List Node) (npos size position : ℕ) (t : Taken) : Type 0 where
  pub contents : t.bytes ≡ take size (drop npos (concat bs))
  pub ended : t.position ≡ position + size
  pub lower : t.steps * base ≤ npos + size
  pub upper : npos + size < t.steps * base + base

module _ (base : ℕ) (pos : 0 < base) (fits : base < 2 ^ 64) where
  read_none :
      (b : Node) (bs : List Node) (npos position : ℕ)
      → npos < base
      → (t : Taken) × (read_loop (b ∷ bs) npos 0 position ≡ ok t)
        × IsTaken base (b ∷ bs) npos 0 position t
  unfolding read_loop
  read_none b bs npos position hn = (
    record { bytes = []; steps = 0; position = position },
    refl,
    record { contents = refl; ended = omega arith; lower = omega arith; upper = omega arith },
  )

  -- `m_cur` moves on where the slice ends with the block.
  read_one :
      (b : Node) (bs : List Node) (npos size position : ℕ)
      → length b ≡ base
      → npos < base
      → 0 < size
      → size ≤ base - npos
      → (t : Taken) × (read_loop (b ∷ bs) npos size position ≡ ok t)
        × IsTaken base (b ∷ bs) npos size position t
  unfolding read_loop
  read_one b bs npos size position hb hn hs le = elim (Bool-cases (length b == npos + size)) [
    | inl full ↦ (
      record { bytes = take size (drop npos b); steps = 1; position = position + size },
      ground (arith, sub64-eq-sub (length b) npos),
      record {
        contents = sym (slice-append npos size b (concat bs) (omega arith));
        ended = refl;
        lower = ground arith;
        upper = ground arith;
      },
    )
    | inr left ↦ (
      record { bytes = take size (drop npos b); steps = 0; position = position + size },
      ground (arith, sub64-eq-sub (length b) npos),
      record {
        contents = sym (slice-append npos size b (concat bs) (omega arith));
        ended = refl;
        lower = omega arith;
        upper = ground arith;
      },
    )
  ]

  read_more :
      (b : Node) (bs : List Node) (npos size position : ℕ) (t : Taken)
      → length b ≡ base
      → npos < base
      → base - npos < size
      → read_loop bs 0 (size - (base - npos)) (position + (base - npos)) ≡ ok t
      → IsTaken base bs 0 (size - (base - npos)) (position + (base - npos)) t
      → (v : Taken) × (read_loop (b ∷ bs) npos size position ≡ ok v)
        × IsTaken base (b ∷ bs) npos size position v
  unfolding read_loop
  read_more b bs npos size position t hb hn over run done = (
    record {
      bytes = take (base - npos) (drop npos b) ++ t.bytes;
      steps = suc t.steps;
      position = t.position;
    },
    ground (arith, sub64-eq-sub (length b) npos),
    record {
      contents =
          ap (λ u. take (base - npos) (drop npos b) ++ u) done.contents
          ∙ sym (slice_across npos (base - npos) size b (concat bs) (omega arith) (omega arith));
      ended = omega (arith, done.ended);
      lower = omega (arith, done.lower);
      upper = omega (arith, done.upper);
    },
  )

  pub read_loop_lem :
      (bs : List Node) (npos size position : ℕ)
      → Uniform base bs
      → npos < base
      → 0 < length bs
      → npos + size ≤ length bs * base
      → (t : Taken) × (read_loop bs npos size position ≡ ok t)
        × IsTaken base bs npos size position t
  read_loop_lem [] npos size position u hn hl room = absurd (omega arith)
  read_loop_lem (b ∷ bs) npos size position (hb, u) hn hl room = elim (dec_le (suc size) 1) [
    | yes nothing ↦ let e : size ≡ 0 = omega arith in rw e (read_none b bs npos position hn)
    | no some_bytes ↦ elim (dec_le size (base - npos)) [
      | yes fit ↦ read_one b bs npos size position hb hn (omega arith) fit
      | no more ↦
          let (t, run, done) =
            read_loop_lem bs 0 (size - (base - npos)) (position + (base - npos)) u pos (grind arith)
              (omega arith) in
          read_more b bs npos size position t hb hn (omega arith) run done
    ]
  ]
