-- ===== src/ByteArray/Append.antt =====
-- `ByteArray::write` keeps the invariant, but for one place where a write may end.
use cpp_server_framework.Prelude.{
  ℕ, suc, ◌+◌, ◌-◌, ◌*◌, ◌/◌, ◌%◌, ◌^◌, ◌≤◌, ◌<◌, ◌≡◌, ◌≢◌, ◌⊎◌, inl, inr, refl, sym, ap, ◌∙◌, List,
  [], ◌∷◌, ◌++◌, length, take, drop, take-append-drop, dec_lt, arith,
}
use cpp_server_framework.ByteArray.{ByteArray, Allocator, ok, overwrite, write, add_capacity}
use cpp_server_framework.ByteArray.Blocks.{concat}
use cpp_server_framework.ByteArray.Valid.{IsValid, IsTight, view, put}
use cpp_server_framework.ByteArray.Growth.{IsGrown, add_capacity-IsGrown}
use cpp_server_framework.ByteArray.Write.{IsPut, write_there_lem}
use native.Mathlib.Nat.{
  lt_of_mul-lt-mul_right, mul-add-mod_self_right, mul-mod_left, mod-eq_of_lt, mod-lt, div-add-mod',
}

pub mod_inside : (k base p : ℕ) → k * base ≤ p → p < k * base + base → k * base + p % base ≡ p
mod_inside k base p lo hi =
    let e : p ≡ k * base + (p - k * base) = omega arith in
    omega (
      arith,
      ap (λ (t : ℕ). t % base) e,
      mul-add-mod_self_right k base (p - k * base),
      mod-eq_of_lt {n = p - k * base} {m = base} (omega arith),
    )

-- Two multiples of `base` that are less than `base` apart are equal.
multiples_apart :
    (k l base : ℕ) → k * base ≤ l * base → l * base < k * base + base → k * base ≡ l * base
multiples_apart k l base le lt =
    let h : l < suc k = lt_of_mul-lt-mul_right base (omega arith) in
    let back : l * base ≤ k * base = grind arith in omega arith

put-nil : (a : ByteArray) → put [] (view a) ≡ view a
unfolding put view overwrite
put-nil a =
    let e : a.position + 0 ≡ a.position = omega arith in
    λ i. record (view a) {
      content =
          (ap
                (λ p.
                  take a.position (take a.size (concat a.nodes))
                  ++ drop p (take a.size (concat a.nodes)))
                e
              ∙ take-append-drop a.position (take a.size (concat a.nodes)))
            i;
      position = e i;
    }

IsPut-IsValid :
    (a a' : ByteArray) (buf : List ℕ)
    → IsValid a
    → IsPut a buf a'
    → (a'.position < a'.cur * a'.base_size + a'.base_size) ⊎ (a'.position ≡ a'.capacity)
    → IsValid a'
IsPut-IsValid a a' buf v p end = record {
  positive = ground (arith, v.positive, p.same_base);
  uniform = p.uniform;
  counted = rw (p.same_capacity, p.count, p.same_base) v.counted;
  rooted = omega (arith, p.count, v.rooted);
  within = p.within;
  bounded = p.bounded;
  fits = omega (arith, p.same_capacity, v.fits);
  aimed = elim end [
    | inl inside ↦ inl (mod_inside a'.cur a'.base_size a'.position (omega (arith, p.lower)) inside)
    | inr full ↦ inr full
  ];
}

ends_inside :
    (a g a' : ByteArray) (buf : List ℕ)
    → IsGrown a (length buf) g
    → IsPut g buf a'
    → (a.position + length buf) % a.base_size ≢ 0
    → a'.position < a'.cur * a'.base_size + a'.base_size
ends_inside a g a' buf grown p inside = elim (dec_lt a'.position (suc a'.cur * a'.base_size)) [
  | yes h ↦ omega arith
  | no h ↦
      let end : a.position + length buf ≡ suc a'.cur * a'.base_size =
        omega (arith, grown.same_position, p.moved, p.upper) in
      let base : a.base_size ≡ a'.base_size = omega (arith, grown.same_base, p.same_base) in
      absurd (inside (rw (end, base) (mul-mod_left (suc a'.cur) a'.base_size)))
]

ends_tight :
    (a g a' : ByteArray) (buf : List ℕ)
    → IsTight a
    → 0 < length buf
    → IsGrown a (length buf) g
    → IsPut g buf a'
    → a'.capacity < a'.position + a'.base_size
ends_tight a g a' buf tight pos grown p = omega (
  arith, grown.sparing, grown.same_position, grown.same_base, p.moved, p.same_base, p.same_capacity,
)

tight_end :
    (g a' : ByteArray) (buf : List ℕ)
    → IsValid g
    → IsPut g buf a'
    → a'.capacity < a'.position + a'.base_size
    → (a'.position < a'.cur * a'.base_size + a'.base_size) ⊎ (a'.position ≡ a'.capacity)
tight_end g a' buf v p near = elim (dec_lt a'.position (suc a'.cur * a'.base_size)) [
  | yes h ↦ inl (omega arith)
  | no h ↦
      let whole : a'.capacity ≡ length g.nodes * a'.base_size =
        rw (p.same_capacity, p.same_base) v.counted in
      let end : a'.position ≡ suc a'.cur * a'.base_size = omega (arith, p.upper) in
      let last =
        multiples_apart (suc a'.cur) (length g.nodes) a'.base_size
          (omega (arith, p.within, p.bounded)) (omega arith) in
      inr (omega arith)
]

ends_boundary :
    (a g a' : ByteArray) (buf : List ℕ)
    → IsGrown a (length buf) g
    → IsPut g buf a'
    → (a.position + length buf) % a.base_size ≡ 0
    → a'.cur * a'.base_size + a'.base_size ≡ a'.position
ends_boundary a g a' buf grown p end =
    let base : a.base_size ≡ a'.base_size = omega (arith, grown.same_base, p.same_base) in
    let at : a.position + length buf ≡ a'.position = omega (arith, grown.same_position, p.moved) in
    let last : a'.position % a'.base_size ≡ 0 = rw (at, base) at end in
    let whole : a'.position / a'.base_size * a'.base_size ≡ a'.position =
      omega (arith, div-add-mod' a'.position a'.base_size) in
    let next =
      multiples_apart (a'.position / a'.base_size) (suc a'.cur) a'.base_size
        (omega (arith, p.upper)) (omega (arith, p.lower)) in
    omega arith

boundary-not-IsValid :
    (a g a' : ByteArray) (buf : List ℕ)
    → IsGrown a (length buf) g
    → IsPut g buf a'
    → a'.cur * a'.base_size + a'.base_size ≡ a'.position
    → (a.position + length buf) % a.base_size ≡ 0
    → a.position + length buf < a.capacity
    → ¬ IsValid a'
boundary-not-IsValid a g a' buf grown p behind end room v = ground (
  arith,
  v.aimed,
  mod-lt a'.position v.positive,
  grown.same_position,
  p.moved,
  p.same_capacity,
  grown.kept,
)

module _ (alloc : Allocator) where
  write_into :
      (a : ByteArray) (buf : List ℕ)
      → IsValid a
      → 0 < length buf
      → a.capacity + length buf + a.base_size < 2 ^ 64
      → (g a' : ByteArray) × (write alloc a buf ≡ ok a') × IsGrown a (length buf) g × IsPut g buf a'
  unfolding write
  write_into a buf v pos fits =
      let g = add_capacity alloc a (length buf) in
      let grown = add_capacity-IsGrown alloc a (length buf) v pos fits in
      let (a', run, p) = write_there_lem alloc g buf grown.valid grown.aligned pos grown.room in
      (g, a', ground arith, grown, p)

  -- On a valid buffer, also with free blocks behind the position, a write that fits the address
  -- space and does not end at the end of a block refines the abstract write and keeps the
  -- invariant.
  pub write-put_inside :
      (a : ByteArray) (buf : List ℕ)
      → IsValid a
      → a.capacity + length buf + a.base_size < 2 ^ 64
      → (a.position + length buf) % a.base_size ≢ 0
      → (a' : ByteArray) × (write alloc a buf ≡ ok a') × IsValid a' × (view a' ≡ put buf (view a))
  unfolding write
  write-put_inside a [] v fits inside = (a, refl, v, sym (put-nil a))
  write-put_inside a (x ∷ buf) v fits inside =
      let (g, a', run, grown, p) = write_into a (x ∷ buf) v (omega arith) fits in
      (
        a',
        run,
        IsPut-IsValid g a' (x ∷ buf) grown.valid p
            (inl (ends_inside a g a' (x ∷ buf) grown p inside)),
        p.seen ∙ ap (put (x ∷ buf)) grown.same_view,
      )

  -- On a valid buffer with no free block behind the position, a write that fits the address space
  -- succeeds: the content is the old one overwritten from the position on, the position moves
  -- behind the bytes, and the buffer is again valid with no free block.
  pub write-put_append :
      (a : ByteArray) (buf : List ℕ)
      → IsValid a
      → IsTight a
      → a.capacity + length buf + a.base_size < 2 ^ 64
      → (a' : ByteArray) × (write alloc a buf ≡ ok a')
        × IsValid a'
        × IsTight a'
        × (view a' ≡ put buf (view a))
  unfolding write
  write-put_append a [] v tight fits = (a, refl, v, tight, sym (put-nil a))
  write-put_append a (x ∷ buf) v tight fits =
      let (g, a', run, grown, p) = write_into a (x ∷ buf) v (omega arith) fits in
      let near = ends_tight a g a' (x ∷ buf) tight (omega arith) grown p in
      (
        a',
        run,
        IsPut-IsValid g a' (x ∷ buf) grown.valid p (tight_end g a' (x ∷ buf) grown.valid p near),
        omega (arith, near),
        p.seen ∙ ap (put (x ∷ buf)) grown.same_view,
      )

  -- A write that is not empty and ends exactly at the end of a block before the last one stores the
  -- right bytes, but leaves `m_cur` at the full block, one block before the one in which the
  -- position is, and breaks the invariant.
  pub write_boundary :
      (a : ByteArray) (buf : List ℕ)
      → IsValid a
      → 0 < length buf
      → a.capacity + length buf + a.base_size < 2 ^ 64
      → a.position + length buf < a.capacity
      → (a.position + length buf) % a.base_size ≡ 0
      → (a' : ByteArray) × (write alloc a buf ≡ ok a')
        × (view a' ≡ put buf (view a))
        × (a'.cur * a'.base_size + a'.base_size ≡ a'.position)
        × ¬ IsValid a'
  write_boundary a buf v pos fits room end =
      let (g, a', run, grown, p) = write_into a buf v pos fits in
      let behind = ends_boundary a g a' buf grown p end in
      (
        a',
        run,
        p.seen ∙ ap (put buf) grown.same_view,
        behind,
        boundary-not-IsValid a g a' buf grown p behind end room,
      )
