-- ===== src/Prelude/Options.antt =====
-- Optional results: chains of steps that may fail, and what is said of a result if there is one.
use mathlib.Core.Path.{◌≡◌, refl, subst}
use mathlib.Core.Bool.{Bool, true, false, ◌&&◌}
use mathlib.Core.Option.{Option, none, some}

module _ {ℓ} {A : Type ℓ} where
  abbrev pub is_some : Option A → Bool
  is_some none = false
  is_some (some a) = true

  abbrev pub IfSome {κ} : (A → Type κ) → Option A → Type κ
  IfSome P none = Unit {κ}
  IfSome P (some a) = P a

  pub if_some_at {κ} : (P : A → Type κ) (o : Option A) (a : A) → o ≡ some a → IfSome P o → P a
  if_some_at P o a e h = subst (IfSome P) e h

  pub IfSome-map {κ μ} :
      (P : A → Type κ) (Q : A → Type μ) (o : Option A)
      → ((a : A) → P a → Q a)
      → IfSome P o
      → IfSome Q o
  IfSome-map P Q none f h = tt
  IfSome-map P Q (some a) f h = f a h

module _ {ℓ m} {A : Type ℓ} {B : Type m} where
  abbrev pub and_then : Option A → (A → Option B) → Option B
  and_then none f = none
  and_then (some a) f = f a

  pub is_some-and_then :
      (o : Option A) (f : A → Option B) (b c : Bool)
      → is_some o ≡ b
      → ((a : A) → is_some (f a) ≡ c)
      → is_some (and_then o f) ≡ (b && c)
  is_some-and_then none f b c e h = rw⁻¹ e refl
  is_some-and_then (some a) f b c e h = rw⁻¹ e (h a)

  pub IfSome-and_then {κ μ} :
      (P : A → Type κ) (Q : B → Type μ) (o : Option A) (f : A → Option B)
      → IfSome P o
      → ((a : A) → P a → IfSome Q (f a))
      → IfSome Q (and_then o f)
  IfSome-and_then P Q none f h step = tt
  IfSome-and_then P Q (some a) f h step = step a h

  pub IfSome-any {κ} :
      (Q : B → Type κ) (o : Option A) (f : A → Option B)
      → ((a : A) → IfSome Q (f a))
      → IfSome Q (and_then o f)
  IfSome-any Q none f step = tt
  IfSome-any Q (some a) f step = step a
