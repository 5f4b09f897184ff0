-- ===== src/ByteArray/Blocks.antt =====
-- The chain of blocks read as one list of bytes, and memcpy on it.
use cpp_server_framework.Prelude.{
  ℕ, zero, suc, ◌+◌, ◌-◌, ◌*◌, ◌^◌, ◌≤◌, ◌<◌, ◌≡◌, refl, sym, ap, ◌∙◌, List, [], ◌∷◌, ◌++◌,
  append_assoc, length, take, drop, replicate, All, length-append, length-take, length-drop,
  take-append, drop-append, take-append_more, drop-append_more, take-append-drop, drop_all,
  append-nil, arith,
}
use cpp_server_framework.ByteArray.{Node, overwrite, sub64}

abbrev pub concat : List Node → List ℕ
concat [] = []
concat (b ∷ bs) = b ++ concat bs

-- Every block has the same size.
abbrev pub Uniform : ℕ → List Node → Type 0
Uniform base = All (λ b. length b ≡ base)

pub concat-append : (xs ys : List Node) → concat (xs ++ ys) ≡ concat xs ++ concat ys
concat-append [] ys = refl
concat-append (b ∷ xs) ys = ap (◌++◌ b) (concat-append xs ys) ∙ sym (append_assoc b _ _)

pub length-concat :
    (base : ℕ) (bs : List Node) → Uniform base bs → length (concat bs) ≡ length bs * base
length-concat base [] u = omega arith
length-concat base (b ∷ bs) (h, u) =
    omega (arith, length-append b (concat bs), length-concat base bs u)

pub Uniform-append :
    (base : ℕ) (xs ys : List Node) → Uniform base xs → Uniform base ys → Uniform base (xs ++ ys)
Uniform-append base [] ys u v = v
Uniform-append base (b ∷ xs) ys (h, u) v = (h, Uniform-append base xs ys u v)

pub Uniform-take : (base k : ℕ) (xs : List Node) → Uniform base xs → Uniform base (take k xs)
Uniform-take base zero xs u = tt
Uniform-take base (suc k) [] u = tt
Uniform-take base (suc k) (b ∷ xs) (h, u) = (h, Uniform-take base k xs u)

pub Uniform-drop : (base k : ℕ) (xs : List Node) → Uniform base xs → Uniform base (drop k xs)
Uniform-drop base zero xs u = u
Uniform-drop base (suc k) [] u = tt
Uniform-drop base (suc k) (b ∷ xs) (h, u) = Uniform-drop base k xs u

pub Uniform-replicate : (base n : ℕ) (b : Node) → length b ≡ base → Uniform base (replicate n b)
Uniform-replicate base zero b h = tt
Uniform-replicate base (suc n) b h = (h, Uniform-replicate base n b h)

pub concat_split : (k : ℕ) (xs : List Node) → concat xs ≡ concat (take k xs) ++ concat (drop k xs)
concat_split k xs = ap concat (sym (take-append-drop k xs)) ∙ concat-append (take k xs) (drop k xs)

pub length-overwrite :
    (n : ℕ) (buf dst : List ℕ)
    → n + length buf ≤ length dst
    → length (overwrite n buf dst) ≡ length dst
unfolding overwrite
length-overwrite n buf dst h = omega (
  arith,
  length-append (take n dst) (buf ++ drop (n + length buf) dst),
  length-append buf (drop (n + length buf) dst),
  length-take n dst,
  length-drop (n + length buf) dst,
)

-- A copy that ends within the first part.
pub overwrite-append :
    (n : ℕ) (buf xs ys : List ℕ)
    → n + length buf ≤ length xs
    → overwrite n buf (xs ++ ys) ≡ overwrite n buf xs ++ ys
unfolding overwrite
overwrite-append n buf xs ys h =
    rw (take-append n xs ys (omega arith), drop-append (n + length buf) xs ys h, append_assoc)
      (ap (◌++◌ (take n xs)) (sym (append_assoc buf _ ys)))

-- A copy behind the first part.
pub overwrite-append_more :
    (n m : ℕ) (buf xs ys : List ℕ)
    → n ≡ length xs + m
    → overwrite n buf (xs ++ ys) ≡ xs ++ overwrite m buf ys
unfolding overwrite
overwrite-append_more n m buf xs ys h =
    rw
      (
        take-append_more n m xs ys h,
        drop-append_more (n + length buf) (m + length buf) xs ys (omega arith),
      )
      (append_assoc xs (take m ys) _)

-- A copy that runs over the end of the first part is two copies.
pub overwrite_across :
    (n k : ℕ) (buf xs ys : List ℕ)
    → length xs ≡ n + k
    → k ≤ length buf
    → overwrite n buf (xs ++ ys) ≡ overwrite n (take k buf) xs ++ overwrite 0 (drop k buf) ys
unfolding overwrite
overwrite_across n k buf xs ys h le =
    rw
      (
        take-append n xs ys (omega arith),
        drop-append_more (n + length buf) (0 + length (drop k buf)) xs ys
            (omega (arith, length-drop k buf)),
        drop_all (n + length (take k buf)) xs (omega (arith, length-take k buf)),
        append-nil (take k buf),
        append_assoc (take n xs) (take k buf) (drop k buf ++ drop (0 + length (drop k buf)) ys),
      )
      (ap (λ t. take n xs ++ t)
        (ap (λ t. t ++ drop (0 + length (drop k buf)) ys) (sym (take-append-drop k buf))
          ∙ append_assoc (take k buf) (drop k buf) _))

-- What the code gets by `a - b` on size_t where b is not the larger.
pub sub64-eq-sub : (a b : ℕ) → b ≤ a → a < 2 ^ 64 → sub64 a b ≡ a - b
unfolding sub64
sub64-eq-sub a b h lt = omega arith
