-- ===== src/Prelude/Bytes.antt =====
-- A std::string as the list of its bytes.
use Prim.Native.Nat.{ℕ}
use Prim.Native.Char.{code}
use Prim.Native.String.{String, [] as empty, ◌∷◌ as cons}
use mathlib.Core.Path.{◌≡◌, refl, ap}
use mathlib.Core.Logic.{inl, inr}
use mathlib.Core.Bool.{Bool, true, false, ◌&&◌}
use mathlib.Core.List.{List, [], ◌∷◌}
use native.Mathlib.Omega.{arith}
use cpp_server_framework.Prelude.Tests.{◌==◌, if◌then◌else◌, Bool-cases}

abbrev pub Text : Type 0
Text = List ℕ

-- The bytes of a literal.
abbrev pub bytes : String → Text
bytes empty = []
bytes (cons c s) = code c ∷ bytes s

-- The equality of two strings.
abbrev pub is_text : Text → Text → Bool
is_text [] [] = true
is_text [] (y ∷ ys) = false
is_text (x ∷ xs) [] = false
is_text (x ∷ xs) (y ∷ ys) = (x == y) && is_text xs ys

pub is_text_same : (u : Text) → is_text u u ≡ true
is_text_same [] = refl
is_text_same (x ∷ xs) = ground (arith, is_text_same xs)

pub is_text→≡ : (u v : Text) → is_text u v ≡ true → u ≡ v
is_text→≡ [] [] h = refl
is_text→≡ [] (y ∷ v) h = absurd (ground (arith, h))
is_text→≡ (x ∷ u) [] h = absurd (ground (arith, h))
is_text→≡ (x ∷ u) (y ∷ v) h =
    let head : x ≡ y = ground (arith, h) in
    let tail : u ≡ v = is_text→≡ u v (ground (arith, h)) in rw (head, tail) refl

pub is_text_trans : (u v w : Text) → is_text u v ≡ true → is_text u w ≡ is_text v w
is_text_trans u v w h = ap (λ t. is_text t w) (is_text→≡ u v h)

pub is_text_sym : (u v : Text) → is_text u v ≡ is_text v u
is_text_sym [] [] = refl
is_text_sym [] (y ∷ v) = refl
is_text_sym (x ∷ u) [] = refl
is_text_sym (x ∷ u) (y ∷ v) = ground (arith, is_text_sym u v)

pub is_text_cong : (u v w : Text) → is_text u v ≡ true → is_text w u ≡ is_text w v
is_text_cong u v w h = ap (is_text w) (is_text→≡ u v h)

-- An entry of another text before two ways to go on.
pub if_text_swap {ℓ} :
    {A : Type ℓ} (k u v : Text) (w x y : A)
    → is_text k u ≡ false
    → (if is_text k v then w else (if is_text u v then x else y))
      ≡ (if is_text u v then x else (if is_text k v then w else y))
if_text_swap k u v w x y other = elim (Bool-cases (is_text k v)) [
  | inl on ↦ elim (Bool-cases (is_text u v)) [
    | inl both ↦ absurd (ground (arith, other, is_text_trans k v u on, is_text_sym v u, both))
    | inr off ↦ rw (on, off) refl
  ]
  | inr off ↦ rw off refl
]
