-- ===== src/Timer/Order.antt =====
-- The order of timers, and the std::set of src/async/timer.h as a list in that order.
use cpp_server_framework.Prelude.{
  ℕ, ◌≡◌, ◌≢◌, refl, sym, ap, ◌∙◌, subst, ◌⊎◌, inl, inr, Bool, true, false, not, ◌&&◌, ◌||◌, List,
  [], ◌∷◌, ◌++◌, some, ◌==◌, Bool-cases, arith, ℕ_discrete,
}
use cpp_server_framework.Timer.{Key, comparator, less, insert, erase, split_at}

abbrev pub mem : ℕ → List ℕ → Bool
mem y [] = false
mem y (x ∷ xs) = (y == x) || mem y xs

abbrev pub IsBelow : (ℕ → ℕ) → ℕ → List ℕ → Type 0
IsBelow next x xs = (y : ℕ) → mem y xs ≡ true → less next x y ≡ true

-- No element twice, the smaller ones first.
abbrev pub IsSorted : (ℕ → ℕ) → List ℕ → Type 0
IsSorted next [] = Unit {0}
IsSorted next (x ∷ xs) = IsBelow next x xs × IsSorted next xs

module _ (next : ℕ → ℕ) where
  pub less_irrefl : (a : ℕ) → less next a a ≡ false
  less_irrefl a = ground arith

  pub less_trans : (a b c : ℕ) → less next a b ≡ true → less next b c ≡ true → less next a c ≡ true
  less_trans a b c p q = ground arith

  pub less-total : (a b : ℕ) → less next a b ≡ false → less next b a ≡ false → a ≡ b
  less-total a b p q = ground arith

  pub less-asym : (a b : ℕ) → less next a b ≡ true → less next b a ≡ false
  less-asym a b p = ground arith

  -- The elements after an insertion.
  pub mem-insert : (a y : ℕ) (xs : List ℕ) → mem y (insert next a xs) ≡ ((y == a) || mem y xs)
  unfolding insert
  mem-insert a y [] = ground arith
  mem-insert a y (x ∷ xs) = let same = less-total x a in ground (arith, mem-insert a y xs, same)

  mem-cons : (y x : ℕ) (xs : List ℕ) → mem y (x ∷ xs) ≡ true → (y ≡ x) ⊎ (mem y xs ≡ true)
  mem-cons y x xs h = elim (ℕ_discrete y x) [ yes e ↦ inl e | no ne ↦ inr (ground arith) ]

  insert-cases :
      (a y : ℕ) (xs : List ℕ) → mem y (insert next a xs) ≡ true → (y ≡ a) ⊎ (mem y xs ≡ true)
  insert-cases a y xs h = mem-cons y a xs (sym (mem-insert a y xs) ∙ h)

  IsBelow-insert :
      (x a : ℕ) (xs : List ℕ)
      → less next x a ≡ true
      → IsBelow next x xs
      → IsBelow next x (insert next a xs)
  IsBelow-insert x a xs low b y h = elim (insert-cases a y xs h) [
    | inl e ↦ subst (λ z. less next x z ≡ true) (sym e) low
    | inr m ↦ b y m
  ]

  IsBelow-cons :
      (a x : ℕ) (xs : List ℕ) → less next a x ≡ true → IsBelow next x xs → IsBelow next a (x ∷ xs)
  IsBelow-cons a x xs low b y h = elim (mem-cons y x xs h) [
    | inl e ↦ subst (λ z. less next a z ≡ true) (sym e) low
    | inr m ↦ less_trans a x y low (b y m)
  ]

  pub insert-IsSorted : (a : ℕ) (xs : List ℕ) → IsSorted next xs → IsSorted next (insert next a xs)
  unfolding insert
  insert-IsSorted a [] s = (λ y h. absurd (ground arith), tt)
  insert-IsSorted a (x ∷ xs) s = elim (Bool-cases (less next x a)) [
    | inl low ↦ rw low (IsBelow-insert x a xs low s.0, insert-IsSorted a xs s.1)
    | inr up ↦ elim (Bool-cases (less next a x)) [
      | inl low ↦ rw (up, low) (IsBelow-cons a x xs low s.0, s)
      | inr same ↦ rw (up, same) s
    ]
  ]

  pub below-absent : (x : ℕ) (xs : List ℕ) → IsBelow next x xs → mem x xs ≡ false
  below-absent x xs b = elim (Bool-cases (mem x xs)) [
    | inl h ↦ absurd (ground (arith, b x h, less_irrefl x))
    | inr h ↦ h
  ]

  abbrev IsErased : ℕ → List ℕ → Type 0
  IsErased a xs =
      (ys : List ℕ) × (erase next a xs ≡ some ys)
      × IsSorted next ys
      × ((y : ℕ) → mem y ys ≡ (mem y xs && not (y == a)))

  erase_first : (x : ℕ) (xs : List ℕ) → IsSorted next (x ∷ xs) → IsErased x (x ∷ xs)
  unfolding erase
  erase_first x xs s =
      let none_less = less_irrefl x in
      let gone = below-absent x xs s.0 in
      (
        xs,
        rw none_less refl,
        s.1,
        λ y. elim (ℕ_discrete y x) [
          | yes e ↦ let off : mem y xs ≡ false = ap (λ z. mem z xs) e ∙ gone in ground (arith, off)
          | no ne ↦ ground arith
        ],
      )

  erase_later :
      (a x : ℕ) (xs : List ℕ)
      → less next x a ≡ true
      → IsBelow next x xs
      → IsErased a xs
      → IsErased a (x ∷ xs)
  unfolding erase
  erase_later a x xs low b (ys, run, s, m) =
      let other : x ≢ a = λ (e : x ≡ a).
        let loop : less next x x ≡ true = ap (λ z. less next x z) e ∙ low in
        ground (arith, loop, less_irrefl x) in
      (
        x ∷ ys,
        rw (low, run) refl,
        (λ y h. b y (ground (arith, m y)), s),
        λ y. ground (arith, m y, other),
      )

  -- `erase` of an element finds it.
  pub erase-IsErased : (a : ℕ) (xs : List ℕ) → IsSorted next xs → mem a xs ≡ true → IsErased a xs
  erase-IsErased a [] s h = absurd (ground arith)
  erase-IsErased a (x ∷ xs) s h = elim (mem-cons a x xs h) [
    | inl e ↦ subst (λ z. IsErased z (x ∷ xs)) (sym e) (erase_first x xs s)
    | inr m ↦ erase_later a x xs (s.0 a m) s.0 (erase-IsErased a xs s.1 m)
  ]

  -- The order looks at the deadlines of the elements only.
  pub IsSorted-change :
      (next' : ℕ → ℕ) (xs : List ℕ)
      → ((y : ℕ) → mem y xs ≡ true → next' y ≡ next y)
      → IsSorted next xs
      → IsSorted next' xs
  IsSorted-change next' [] same s = tt
  IsSorted-change next' (x ∷ xs) same s = (
    λ y h.
        let ex : next' x ≡ next x = same x (ground arith) in
        let ey : next' y ≡ next y = same y (ground arith) in let old = s.0 y h in rw (ex, ey) old,
    IsSorted-change next' xs (λ y h. same y (ground arith)) s.1,
  )

  -- The two parts of the set at a key.
  pub record IsSplit (k : Key) (xs : List ℕ) (parts : List ℕ × List ℕ) : Type 0 where
    pub whole : xs ≡ parts.0 ++ parts.1
    pub before : (y : ℕ) → mem y parts.0 ≡ true → comparator (some k) (some (next y, y)) ≡ false
    pub after : (y : ℕ) → mem y parts.1 ≡ true → comparator (some k) (some (next y, y)) ≡ true

  above_key :
      (k : Key) (x : ℕ) (xs : List ℕ) (y : ℕ)
      → comparator (some k) (some (next x, x)) ≡ true
      → IsBelow next x xs
      → mem y (x ∷ xs) ≡ true
      → comparator (some k) (some (next y, y)) ≡ true
  above_key k x xs y up b h = elim (mem-cons y x xs h) [
    | inl e ↦ subst (λ z. comparator (some k) (some (next z, z)) ≡ true) (sym e) up
    | inr m ↦ let low = b y m in ground (arith, up, low)
  ]

  pub split_at-IsSplit :
      (k : Key) (xs : List ℕ) → IsSorted next xs → IsSplit k xs (split_at next k xs)
  unfolding split_at
  split_at-IsSplit k [] s = record {
    whole = refl;
    before = λ y h. absurd (ground arith);
    after = λ y h. absurd (ground arith);
  }
  split_at-IsSplit k (x ∷ xs) s = elim (Bool-cases (comparator (some k) (some (next x, x)))) [
    | inl up ↦ rw up (record {
      whole = refl;
      before = λ y h. absurd (ground arith);
      after = λ y h. above_key k x xs y up s.0 h;
    })
    | inr low ↦
        let rest = split_at-IsSplit k xs s.1 in
        rw low (record {
          whole = ap (λ t. x ∷ t) rest.whole;
          before = λ y h. elim (mem-cons y x _ h) [
            | inl e ↦ subst (λ z. comparator (some k) (some (next z, z)) ≡ false) (sym e) low
            | inr m ↦ rest.before y m
          ];
          after = rest.after;
        })
  ]

  pub mem-append : (y : ℕ) (xs ys : List ℕ) → mem y (xs ++ ys) ≡ (mem y xs || mem y ys)
  mem-append y [] ys = refl
  mem-append y (x ∷ xs) ys = ground (arith, mem-append y xs ys)

  pub IsSorted-append :
      (xs ys : List ℕ)
      → IsSorted next (xs ++ ys)
      → IsSorted next xs
        × IsSorted next ys
        × ((y : ℕ) → mem y ys ≡ (mem y (xs ++ ys) && not (mem y xs)))
  IsSorted-append [] ys s = (tt, s, λ y. ground arith)
  IsSorted-append (x ∷ xs) ys s =
      let (left, right, m) = IsSorted-append xs ys s.1 in
      (
        ((λ y h. s.0 y (ground (arith, mem-append y xs ys))), left),
        right,
        λ y. elim (ℕ_discrete y x) [
          | yes e ↦
              let off : mem y (xs ++ ys) ≡ false =
                ap (λ z. mem z (xs ++ ys)) e ∙ below-absent x (xs ++ ys) s.0 in
              ground (arith, off, m y)
          | no ne ↦ ground (arith, m y)
        ],
      )
