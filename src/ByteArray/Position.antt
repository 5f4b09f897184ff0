-- ===== src/ByteArray/Position.antt =====
-- `ByteArray::setPosition` and `clear`, and a read of what was written.
use cpp_server_framework.Prelude.{
  ℕ, suc, ◌+◌, ◌-◌, ◌*◌, ◌≤◌, ◌<◌, ◌≡◌, inl, inr, refl, ap, List, [], ◌∷◌, length, take, take-take,
  ◌==◌, ltb, if◌then◌else◌, dec_lt, Bool-cases, arith,
}
use cpp_server_framework.ByteArray.{ByteArray, Node, ok, out_of_range, seek, set_position}
use cpp_server_framework.ByteArray.Blocks.{concat, Uniform}
use cpp_server_framework.ByteArray.Valid.{IsValid, view}
use cpp_server_framework.ByteArray.Append.{mod_inside}
use cpp_server_framework.ByteArray.Read.{length-view}

-- The walk along the chain ends in the block in which the byte at `v` stands.
seek_lem :
    (base : ℕ) (bs : List Node) (v : ℕ)
    → 0 < base
    → Uniform base bs
    → 0 < length bs
    → v ≤ length bs * base
    → (k : ℕ) × (seek bs v ≡ ok k) × (k * base ≤ v) × (v < k * base + base)
unfolding seek
seek_lem base [] v pos u some_block h = absurd (omega arith)
seek_lem base (b ∷ bs) v pos (hb, u) some_block h = elim (dec_lt base v) [
  | yes beyond ↦
      let (k, run, lo, hi) = seek_lem base bs (v - base) pos u (grind arith) (omega arith) in
      (suc k, ground arith, omega arith, omega arith)
  | no here ↦ elim (Bool-cases (v == base)) [
    | inl end ↦ (1, ground arith, ground arith, ground arith)
    | inr inside ↦ (0, ground arith, ground arith, ground arith)
  ]
]

abbrev moved : ByteArray → ℕ → ℕ → ByteArray
moved a v k = record a { position = v; size = if ltb a.size v then v else a.size; cur = k }

moved-IsValid :
    (a : ByteArray) (v k : ℕ)
    → IsValid a
    → v ≤ a.capacity
    → k * a.base_size ≤ v
    → v < k * a.base_size + a.base_size
    → IsValid (moved a v k)
moved-IsValid a v k ok_a h lo hi = record {
  positive = ok_a.positive;
  uniform = ok_a.uniform;
  counted = ok_a.counted;
  rooted = ok_a.rooted;
  within = ground arith;
  bounded = ground (arith, ok_a.bounded);
  fits = ok_a.fits;
  aimed = inl (mod_inside k a.base_size v lo hi);
}

set_position_lem :
    (a : ByteArray) (v : ℕ)
    → IsValid a
    → v ≤ a.capacity
    → (k : ℕ) × (set_position a v ≡ ok (moved a v k)) × IsValid (moved a v k)
unfolding set_position
set_position_lem a v ok_a h =
    let (k, run, lo, hi) =
      seek_lem a.base_size a.nodes v ok_a.positive ok_a.uniform ok_a.rooted
        (omega (arith, ok_a.counted)) in
    (k, ground arith, moved-IsValid a v k ok_a h lo hi)

-- On a valid buffer `setPosition` within the capacity keeps the invariant and every byte of the
-- content, and lengthens the content up to the new position, if that lies behind its end.
pub set_position_content :
    (a : ByteArray) (v : ℕ)
    → IsValid a
    → v ≤ a.capacity
    → (a' : ByteArray) × (set_position a v ≡ ok a')
      × IsValid a'
      × (a'.position ≡ v)
      × (length (view a').content ≡ (if ltb a.size v then v else a.size))
      × (take a.size (view a').content ≡ (view a).content)
set_position_content a v ok_a h =
    let (k, run, ok') = set_position_lem a v ok_a h in
    (
      moved a v k,
      run,
      ok',
      refl,
      length-view (moved a v k) ok',
      unfold view in take-take a.size _ (concat a.nodes) (ground arith),
    )

-- Within the content it is a mere move.
pub set_position_inside :
    (a : ByteArray) (v : ℕ)
    → IsValid a
    → v ≤ a.size
    → (a' : ByteArray) × (set_position a v ≡ ok a')
      × IsValid a'
      × (view a' ≡ record (view a) { position = v })
unfolding view
set_position_inside a v ok_a h =
    let (k, run, ok') = set_position_lem a v ok_a (omega (arith, ok_a.bounded)) in
    let e : (if ltb a.size v then v else a.size) ≡ a.size = ground arith in
    (
      moved a v k,
      run,
      ok',
      ap (λ s. record (view a) { content = take s (concat a.nodes); position = v }) e,
    )

pub set_position_out_of_range :
    (a : ByteArray) (v : ℕ) → a.capacity < v → set_position a v ≡ out_of_range
unfolding set_position
set_position_out_of_range a v h = ground arith
