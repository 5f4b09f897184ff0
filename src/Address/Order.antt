-- ===== src/Address/Order.antt =====
-- The order of addresses in src/socket/ipaddress.cpp.
use cpp_server_framework.Prelude.{
  ℕ, zero, suc, min, ◌≡◌, refl, ap, ◌∙◌, inl, inr, Bool, true, false, not, ◌&&◌, ◌||◌, ◌↔◌, subst,
  Bool-cases, Text, [], ◌∷◌, length, ltb, ◌==◌, if◌then◌else◌, arith,
}
use cpp_server_framework.Address.{
  Sign, below, same, above, mem_cmp, by_length, is_less, is_same, is_equal,
}

-- The lexicographic order.
abbrev lex : Text → Text → Bool
lex [] [] = false
lex [] (y ∷ b) = true
lex (x ∷ a) [] = false
lex (x ∷ a) (y ∷ b) =
    let rest = lex a b in if ltb x y then true else if ltb y x then false else rest

by_length-if :
    (p q : Bool) (s : Sign) (a b : Text)
    → by_length (if p then below else if q then above else s) a b
      ≡ (if p then true else if q then false else by_length s a b)
by_length-if true q s a b = refl
by_length-if false true s a b = refl
by_length-if false false s a b = refl

by_length-suc : (s : Sign) (x y : ℕ) (a b : Text) → by_length s (x ∷ a) (y ∷ b) ≡ by_length s a b
by_length-suc below x y a b = refl
by_length-suc above x y a b = refl
by_length-suc same x y a b = ground arith

by_length-mem_cmp :
    (n : ℕ) (a b : Text) → n ≡ min (length a) (length b) → by_length (mem_cmp n a b) a b ≡ lex a b
by_length-mem_cmp zero [] [] e = ground arith
by_length-mem_cmp zero [] (y ∷ b) e = ground arith
by_length-mem_cmp zero (x ∷ a) [] e = ground arith
by_length-mem_cmp zero (x ∷ a) (y ∷ b) e = absurd (omega (arith, e))
by_length-mem_cmp (suc n) [] b e = absurd (omega (arith, e))
by_length-mem_cmp (suc n) (x ∷ a) [] e = absurd (omega (arith, e))
by_length-mem_cmp (suc n) (x ∷ a) (y ∷ b) e =
    by_length-if (ltb x y) (ltb y x) (mem_cmp n a b) (x ∷ a) (y ∷ b)
    ∙ ap (λ t. if ltb x y then true else if ltb y x then false else t)
        (by_length-suc (mem_cmp n a b) x y a b ∙ by_length-mem_cmp n a b (omega (arith, e)))

is_less-lex : (a b : Text) → is_less a b ≡ lex a b
unfolding is_less
is_less-lex a b = by_length-mem_cmp (min (length a) (length b)) a b refl

lex_irreflexive : (a : Text) → lex a a ≡ false
lex_irreflexive [] = refl
lex_irreflexive (x ∷ a) = ground (arith, lex_irreflexive a)

lex_trans : (a b c : Text) → lex a b ≡ true → lex b c ≡ true → lex a c ≡ true
lex_trans [] [] c h k = absurd (ground (arith, h))
lex_trans [] (y ∷ b) [] h k = absurd (ground (arith, k))
lex_trans [] (y ∷ b) (z ∷ c) h k = refl
lex_trans (x ∷ a) [] c h k = absurd (ground (arith, h))
lex_trans (x ∷ a) (y ∷ b) [] h k = absurd (ground (arith, k))
lex_trans (x ∷ a) (y ∷ b) (z ∷ c) h k = ground (arith, h, k, lex_trans a b c)

lex_total : (a b : Text) → lex a b ≡ false → lex b a ≡ false → a ≡ b
lex_total [] [] h k = refl
lex_total [] (y ∷ b) h k = absurd (ground (arith, h))
lex_total (x ∷ a) [] h k = absurd (ground (arith, k))
lex_total (x ∷ a) (y ∷ b) h k =
    let head : x ≡ y = ground (arith, h, k) in
    let tail : a ≡ b = lex_total a b (ground (arith, h, k)) (ground (arith, h, k)) in
    rw (head, tail) refl

equal_same : (a : Text) → is_same (mem_cmp (length a) a a) ≡ true
equal_same [] = refl
equal_same (x ∷ a) = ground (arith, equal_same a)

same_equal : (a b : Text) → length a ≡ length b → is_same (mem_cmp (length a) a b) ≡ true → a ≡ b
same_equal [] [] e h = refl
same_equal [] (y ∷ b) e h = absurd (omega (arith, e))
same_equal (x ∷ a) [] e h = absurd (omega (arith, e))
same_equal (x ∷ a) (y ∷ b) e h =
    let head : x ≡ y = ground (arith, h) in
    let tail : a ≡ b = same_equal a b (omega (arith, e)) (ground (arith, h)) in rw (head, tail) refl

lex_asymmetric : (a b : Text) → lex a b && lex b a ≡ false
lex_asymmetric a b = elim (Bool-cases (lex a b)) [
  | inr off ↦ rw off refl
  | inl on ↦ elim (Bool-cases (lex b a)) [
    | inr off ↦ rw (on, off) refl
    | inl back ↦ absurd (ground (arith, lex_trans a b a on back, lex_irreflexive a))
  ]
]

lex_transitive : (a b c : Text) → not (lex a b && lex b c) || lex a c ≡ true
lex_transitive a b c = elim (Bool-cases (lex a b)) [
  | inr off ↦ rw off refl
  | inl on ↦ elim (Bool-cases (lex b c)) [
    | inr off ↦ rw (on, off) refl
    | inl next ↦ rw (on, next, lex_trans a b c on next) refl
  ]
]

equal_iff : (a b : Text) → (is_equal a b ≡ true) ↔ (a ≡ b)
unfolding is_equal
equal_iff a b = (
  λ h. same_equal a b (ground (arith, h)) (ground (arith, h)),
  λ e.
      subst (λ t. (length a == length t) && is_same (mem_cmp (length a) a t) ≡ true) e
        (ground (arith, equal_same a)),
)

lex_trichotomy : (a b : Text) → lex a b || (lex b a || is_equal a b) ≡ true
lex_trichotomy a b = elim (Bool-cases (lex a b)) [
  | inl on ↦ rw on refl
  | inr off ↦ elim (Bool-cases (lex b a)) [
    | inl on ↦ rw (off, on) refl
    | inr none_less ↦ rw (off, none_less, (equal_iff a b).1 (lex_total a b off none_less)) refl
  ]
]

-- `operator<` of addresses is a strict order: of two addresses it holds in one direction at most,
-- and it is transitive; of any two addresses one is less or `operator==` holds, and that holds just
-- if they are the same bytes.
pub is_less-is_equal :
    (a b c : Text)
    → (is_less a b && is_less b a ≡ false)
      × (not (is_less a b && is_less b c) || is_less a c ≡ true)
      × (is_less a b || (is_less b a || is_equal a b) ≡ true)
      × ((is_equal a b ≡ true) ↔ (a ≡ b))
is_less-is_equal a b c =
    rw (is_less-lex a b, is_less-lex b a, is_less-lex b c, is_less-lex a c)
      (lex_asymmetric a b, lex_transitive a b c, lex_trichotomy a b, equal_iff a b)
