-- ===== src/Config/Variables.antt =====
-- Lookups and listeners of src/config/config.h and config.cpp.
use cpp_server_framework.Prelude.{
  ℕ, ◌≡◌, refl, ap, ◌∙◌, inl, inr, Bool, true, false, Bool-cases, Text, is_text, is_text_same,
  is_text_trans, if_text_swap, List, [], ◌∷◌, Option, none, some, ◌==◌, if◌then◌else◌, arith,
}
use cpp_server_framework.Config.{
  ConfigVar, lookup_base, put, Looked, found, wrong, thrown, looked, lookup, new_var, is_name,
}

module _ {V : Type 0} where
  pub lookup_base-put :
      (name v : Text) (var : ConfigVar V) (datas : List (Text × ConfigVar V))
      → lookup_base v (put name var datas)
        ≡ (if is_text name v then some var else lookup_base v datas)
  lookup_base-put name v var [] = refl
  lookup_base-put name v var ((k, old) ∷ datas) = elim (Bool-cases (is_text k name)) [
    | inl same ↦
        let e = is_text_trans k name v same in
        rw same (elim (Bool-cases (is_text name v)) [
          | inl on ↦ rw (e, on) refl
          | inr off ↦ rw (e, off) refl
        ])
    | inr other ↦
        rw (other, lookup_base-put name v var datas)
          (if_text_swap k name v (some old) (some var) (lookup_base v datas) other)
  ]

  -- A second lookup of the name gives the same and changes nothing; no other name is touched.
  abbrev IsSettled :
      ℕ
      → Text
      → Text
      → V
      → List (Text × ConfigVar V)
      → Looked V × List (Text × ConfigVar V)
      → Type 0
  IsSettled type name other w datas r =
      (lookup type name w r.1 ≡ r) × (lookup_base other r.1 ≡ lookup_base other datas)

  new_var-IsSettled :
      (type : ℕ) (name other : Text) (v w : V) (datas : List (Text × ConfigVar V)) (b : Bool)
      → lookup_base name datas ≡ none
      → is_name name ≡ b
      → is_text name other ≡ false
      → (let var = new_var type name v in
          IsSettled type name other w datas
            (if b then (found var, put name var datas) else (thrown, datas)))
  unfolding lookup
  new_var-IsSettled type name other v w datas true absent valid differs =
      let var = new_var type name v in
      let next = put name var datas in
      let same_type : (type == type) ≡ true = ground arith in
      let there : lookup_base name next ≡ some var =
        lookup_base-put name name var datas
        ∙ ap (λ b. if b then some var else lookup_base name datas) (is_text_same name) in
      (
        ap (looked type name w next) there
            ∙ ap (λ b. (if b then found var else wrong, next)) same_type,
        lookup_base-put name other var datas
            ∙ ap (λ b. if b then some var else lookup_base other datas) differs,
      )
  new_var-IsSettled type name other v w datas false absent valid differs = (
    ap (looked type name w datas) absent
        ∙ ap
            (λ b.
              let var = new_var type name w in
              if b then (found var, put name var datas) else (thrown, datas))
            valid,
    refl,
  )

  -- A second `Lookup` of a name with a default value, of the same type and with any default, gives
  -- what the first one gave and changes nothing, whether that is a variable, a null pointer for
  -- another type or an exception; the first leaves any other name as it was.
  pub lookup_twice :
      (type : ℕ) (name other : Text) (v w : V) (datas : List (Text × ConfigVar V))
      → is_text name other ≡ false
      → (lookup type name w (lookup type name v datas).1 ≡ lookup type name v datas)
        × (lookup_base other (lookup type name v datas).1 ≡ lookup_base other datas)
  unfolding lookup
  lookup_twice type name other v w datas differs = settled (lookup_base name datas) refl
    where
      settled :
          (o : Option (ConfigVar V))
          → lookup_base name datas ≡ o
          → IsSettled type name other w datas (looked type name v datas o)
      settled none e = new_var-IsSettled type name other v w datas (is_name name) e refl differs
      settled (some var) e = (ap (looked type name w datas) e, refl)
