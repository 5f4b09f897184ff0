-- ===== src/ByteArray/WriteLoop.antt =====
-- The loop of `ByteArray::write` over the chain is one memcpy on the bytes of the chain.
use cpp_server_framework.Prelude.{
  ℕ, suc, ◌+◌, ◌-◌, ◌*◌, ◌^◌, ◌≤◌, ◌<◌, ◌≡◌, refl, sym, ap, ◌∙◌, List, [], ◌∷◌, ◌++◌, length, take,
  drop, length-drop, length-take, arith, dec_le,
}
use cpp_server_framework.ByteArray.{Node, ok, overwrite, Written, write_loop}
use cpp_server_framework.ByteArray.Blocks.{
  concat, Uniform, overwrite-append, overwrite_across, length-overwrite, sub64-eq-sub,
}

-- What the loop has done to the blocks `bs` from `m_cur` on, started at offset `npos`: the copy,
-- the position, and the block in which the last byte was put.
pub record IsWritten (base : ℕ) (bs : List Node) (npos : ℕ) (buf : List ℕ) (position : ℕ)
    (w : Written) : Type 0 where
  pub contents : concat w.nodes ≡ overwrite npos buf (concat bs)
  pub uniform : Uniform base w.nodes
  pub count : length w.nodes ≡ length bs
  pub ended : w.position ≡ position + length buf
  pub lower : w.steps * base < npos + length buf
  pub upper : npos + length buf ≤ w.steps * base + base

module _ (base : ℕ) (pos : 0 < base) (fits : base < 2 ^ 64) where
  write_one :
      (b : Node) (bs : List Node) (npos : ℕ) (buf : List ℕ) (position : ℕ)
      → length b ≡ base
      → Uniform base bs
      → npos < base
      → 0 < length buf
      → length buf ≤ base - npos
      → (w : Written) × (write_loop (b ∷ bs) npos buf position ≡ ok w)
        × IsWritten base (b ∷ bs) npos buf position w
  unfolding write_loop
  write_one b bs npos buf position hb u hn hl le = (
    record { nodes = overwrite npos buf b ∷ bs; steps = 0; position = position + length buf },
    ground (arith, sub64-eq-sub (length b) npos),
    record {
      contents = sym (overwrite-append npos buf b (concat bs) (omega arith));
      uniform = (length-overwrite npos buf b (omega arith) ∙ hb, u);
      count = refl;
      ended = refl;
      lower = omega arith;
      upper = omega arith;
    },
  )

  -- The block is filled up, and the loop goes on in the next one.
  write_more :
      (b : Node) (bs : List Node) (npos : ℕ) (buf : List ℕ) (position : ℕ) (w : Written)
      → length b ≡ base
      → npos < base
      → base - npos < length buf
      → write_loop bs 0 (drop (base - npos) buf) (position + (base - npos)) ≡ ok w
      → IsWritten base bs 0 (drop (base - npos) buf) (position + (base - npos)) w
      → (v : Written) × (write_loop (b ∷ bs) npos buf position ≡ ok v)
        × IsWritten base (b ∷ bs) npos buf position v
  unfolding write_loop
  write_more b bs npos buf position w hb hn over run done = (
    record {
      nodes = overwrite npos (take (base - npos) buf) b ∷ w.nodes;
      steps = suc w.steps;
      position = w.position;
    },
    ground (arith, sub64-eq-sub (length b) npos),
    record {
      contents =
          ap (λ t. overwrite npos (take (base - npos) buf) b ++ t) done.contents
          ∙ sym (overwrite_across npos (base - npos) buf b (concat bs) (omega arith) (omega arith));
      uniform = (
        length-overwrite npos (take (base - npos) buf) b
              (omega (arith, length-take (base - npos) buf))
            ∙ hb,
        done.uniform,
      );
      count = ap suc done.count;
      ended = omega (arith, done.ended, length-drop (base - npos) buf);
      lower = omega (arith, done.lower, length-drop (base - npos) buf);
      upper = omega (arith, done.upper, length-drop (base - npos) buf);
    },
  )

  pub write_loop_lem :
      (bs : List Node) (npos : ℕ) (buf : List ℕ) (position : ℕ)
      → Uniform base bs
      → npos < base
      → 0 < length buf
      → npos + length buf ≤ length bs * base
      → (w : Written) × (write_loop bs npos buf position ≡ ok w)
        × IsWritten base bs npos buf position w
  write_loop_lem [] npos buf position u hn hl room = absurd (omega arith)
  write_loop_lem (b ∷ bs) npos buf position (hb, u) hn hl room =
      elim (dec_le (length buf) (base - npos)) [
        | yes fit ↦ write_one b bs npos buf position hb u hn hl fit
        | no more ↦
            let (w, run, done) =
              write_loop_lem bs 0 (drop (base - npos) buf) (position + (base - npos)) u pos
                (omega (arith, length-drop (base - npos) buf))
                (omega (arith, length-drop (base - npos) buf)) in
            write_more b bs npos buf position w hb hn (omega arith) run done
      ]
