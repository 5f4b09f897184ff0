-- ===== src/ByteArray/Growth.antt =====
-- `ByteArray::addCapacity` makes room for n more bytes and puts `m_cur` right.
use cpp_server_framework.Prelude.{
  ℕ, ◌+◌, ◌-◌, ◌*◌, ◌^◌, ◌≤◌, ◌<◌, ◌≡◌, ◌⊎◌, inl, inr, refl, ap, ◌∙◌, length, take, replicate,
  take-append, length-append, length-replicate, dec_le, arith,
}
use cpp_server_framework.ByteArray.{
  ByteArray, Allocator, get_capacity, block_count, grow, add_capacity,
}
use cpp_server_framework.ByteArray.Blocks.{
  concat, concat-append, length-concat, Uniform-append, Uniform-replicate, sub64-eq-sub,
}
use cpp_server_framework.ByteArray.Valid.{IsValid, IsAligned, view}
use native.Mathlib.Nat.{div-add-mod', mod-lt, mul-mod_left}

-- `g` is `a` with room for n more bytes behind the position, and not a block more than needed.
pub record IsGrown (a : ByteArray) (n : ℕ) (g : ByteArray) : Type 0 where
  pub valid : IsValid g
  pub aligned : IsAligned g
  pub same_view : view g ≡ view a
  pub same_base : g.base_size ≡ a.base_size
  pub same_position : g.position ≡ a.position
  pub room : g.position + n ≤ g.capacity
  pub kept : a.capacity ≤ g.capacity
  pub sparing : (g.capacity ≡ a.capacity) ⊎ (g.capacity < g.position + n + g.base_size)

module _ (alloc : Allocator) where
  block_count_lem :
      (a : ByteArray) (need : ℕ)
      → 0 < a.base_size
      → (need ≤ block_count alloc a need * a.base_size)
        × (block_count alloc a need * a.base_size < need + a.base_size)
  unfolding block_count
  block_count_lem a need pos = ground (arith, div-add-mod' need a.base_size, mod-lt need pos)

  -- Blocks behind the size are not seen.
  view-grow : (a : ByteArray) (c n : ℕ) → IsValid a → view (grow alloc a c n) ≡ view a
  unfolding view grow
  view-grow a c n v =
      ap (λ bytes. record (view a) { content = bytes })
        (ap (take a.size) (
            concat-append a.nodes
              (replicate (block_count alloc a (n - c)) (alloc.block a.base_size)))
          ∙ take-append a.size (concat a.nodes) _
              (omega (arith, length-concat a.base_size a.nodes v.uniform, v.counted, v.bounded)))

  length-nodes-grow :
      (a : ByteArray) (c n : ℕ)
      → length (grow alloc a c n).nodes ≡ length a.nodes + block_count alloc a (n - c)
  unfolding grow
  length-nodes-grow a c n = omega (
    arith,
    length-append a.nodes (replicate (block_count alloc a (n - c)) (alloc.block a.base_size)),
    length-replicate (block_count alloc a (n - c)) (alloc.block a.base_size),
  )

  grow-IsAligned :
      (a : ByteArray) (n : ℕ) → IsValid a → IsAligned (grow alloc a (a.capacity - a.position) n)
  unfolding grow
  grow-IsAligned a n v = elim (dec_le a.capacity a.position) [
    | yes full ↦ ground (arith, v.counted, mul-mod_left (length a.nodes) a.base_size)
    | no room ↦ ground (arith, v.aimed)
  ]

  grow-IsGrown :
      (a : ByteArray) (n : ℕ)
      → IsValid a
      → a.capacity - a.position < n
      → a.capacity + n + a.base_size < 2 ^ 64
      → IsGrown a n (grow alloc a (a.capacity - a.position) n)
  unfolding grow
  grow-IsGrown a n v short fits =
      let need = n - (a.capacity - a.position) in
      let c = block_count alloc a need in
      let (enough, sparing) = block_count_lem a need v.positive in
      record {
        valid = record {
          positive = v.positive;
          uniform =
              Uniform-append a.base_size a.nodes _ v.uniform
                (Uniform-replicate a.base_size c _ (alloc.length-block a.base_size));
          counted = omega (
            arith,
            v.counted,
            ap (λ (k : ℕ). k * a.base_size) (length-nodes-grow a (a.capacity - a.position) n),
          );
          rooted = omega (arith, v.rooted, length-nodes-grow a (a.capacity - a.position) n);
          within = v.within;
          bounded = omega (arith, v.bounded);
          fits = omega (arith, v.within, v.bounded);
          aimed = inl (grow-IsAligned a n v);
        };
        aligned = grow-IsAligned a n v;
        same_view = view-grow a _ n v;
        same_base = refl;
        same_position = refl;
        room = omega (arith, v.within, v.bounded);
        kept = omega arith;
        sparing = inr (omega (arith, v.within, v.bounded));
      }

  add_capacity_enough :
      (a : ByteArray) (n : ℕ) → IsValid a → n ≤ a.capacity - a.position → add_capacity alloc a n ≡ a
  unfolding add_capacity get_capacity
  add_capacity_enough a n v h =
      ground (arith, sub64-eq-sub a.capacity a.position, v.within, v.bounded, v.fits)

  add_capacity_short :
      (a : ByteArray) (n : ℕ)
      → IsValid a
      → a.capacity - a.position < n
      → add_capacity alloc a n ≡ grow alloc a (a.capacity - a.position) n
  unfolding add_capacity get_capacity
  add_capacity_short a n v h =
      ground (arith, sub64-eq-sub a.capacity a.position, v.within, v.bounded, v.fits)

  -- Whatever room there is, `addCapacity` gives the room that is asked for and changes no byte.
  pub add_capacity-IsGrown :
      (a : ByteArray) (n : ℕ)
      → IsValid a
      → 0 < n
      → a.capacity + n + a.base_size < 2 ^ 64
      → IsGrown a n (add_capacity alloc a n)
  add_capacity-IsGrown a n v pos fits = elim (dec_le n (a.capacity - a.position)) [
    | yes enough ↦ rw (add_capacity_enough a n v enough) (record {
      valid = v;
      aligned = ground (arith, v.aimed);
      same_view = refl;
      same_base = refl;
      same_position = refl;
      room = omega (arith, v.within, v.bounded);
      kept = omega arith;
      sparing = inl refl;
    })
    | no short ↦ rw (add_capacity_short a n v (omega arith)) (grow-IsGrown a n v (omega arith) fits)
  ]
