-- ===== src/Config/Loading.antt =====
-- What LoadFromYaml of src/config/config.cpp makes of the variables, with the listeners of config.h.
use cpp_server_framework.Prelude.{
  ℕ, ◌≡◌, refl, sym, ap, ◌∙◌, inl, inr, Bool, true, false, not, ◌&&◌, ◌||◌, leb, All, arith,
  Bool-cases, Text, is_text, is_text→≡, List, [], ◌∷◌, Option, none, some, if◌then◌else◌,
}
use cpp_server_framework.Config.{
  Node, text_of, load_node, load_nodes, load_from_yaml, list_all, ConfigVar, Call, call_all,
  set_value, from_string, lookup_base, put, lower, is_name,
}
use cpp_server_framework.Config.Variables.{lookup_base-put}
use cpp_server_framework.Config.Members.{IsIn}
use cpp_server_framework.Config.Paths.{list_all-is_name}

module _ {V : Type 0} where
  abbrev pub map_option : (ConfigVar V → ConfigVar V) → Option (ConfigVar V) → Option (ConfigVar V)
  map_option f none = none
  map_option f (some var) = some (f var)

  map_option-map_option :
      (f g : ConfigVar V → ConfigVar V) (o : Option (ConfigVar V))
      → map_option f (map_option g o) ≡ map_option (λ var. f (g var)) o
  map_option-map_option f g none = refl
  map_option-map_option f g (some var) = refl

  map_option_same : (o : Option (ConfigVar V)) → o ≡ map_option (λ var. var) o
  map_option_same none = refl
  map_option_same (some var) = refl

module _ {V : Type 0} (same : V → V → Bool) (throws : ℕ → V → V → Bool) (read : ℕ → Text → Option V)
    (print : Node → Text) where
  -- A variable after one node, and after all, by the nodes of its name alone.
  abbrev load_one : Node → ConfigVar V → ConfigVar V
  load_one node var =
      (from_string same throws (read var.type (text_of same throws read print node)) var).1

  abbrev value_after : List (Text × Node) → Text → ConfigVar V → ConfigVar V
  value_after [] name var = var
  value_after (([], node) ∷ nodes) name var = value_after nodes name var
  value_after ((c ∷ key, node) ∷ nodes) name var =
      value_after nodes name (if is_text (lower (c ∷ key)) name then load_one node var else var)

  lookup_base-load_node :
      (c : ℕ) (key name : Text) (node : Node) (datas : List (Text × ConfigVar V))
      → lookup_base name (load_node same throws read print (c ∷ key, node) datas).1
        ≡ map_option
            (λ var. if is_text (lower (c ∷ key)) name then load_one node var else var)
            (lookup_base name datas)
  lookup_base-load_node c key name node datas = by_lookup (lookup_base k datas) refl
    where
      k : Text
      k = lower (c ∷ key)

      step : ConfigVar V → ConfigVar V
      step var = if is_text k name then load_one node var else var

      loaded : Option (ConfigVar V) → List (Call V) × List (Text × ConfigVar V)
      loaded none = ([], datas)
      loaded (some var) =
          let r =
            from_string same throws (read var.type (text_of same throws read print node)) var in
          (r.0, put k r.1 datas)

      unmoved : is_text k name ≡ false → (o : Option (ConfigVar V)) → map_option step o ≡ o
      unmoved off none = refl
      unmoved off (some var) = ap (λ b. some (if b then load_one node var else var)) off

      moved :
          is_text k name ≡ true
          → (var : ConfigVar V) → lookup_base name datas ≡ some var
          → map_option step (lookup_base name datas) ≡ some (load_one node var)
      moved on var e =
          ap (map_option step) e ∙ ap (λ b. some (if b then load_one node var else var)) on

      by_lookup :
          (o : Option (ConfigVar V))
          → lookup_base k datas ≡ o
          → lookup_base name (loaded o).1 ≡ map_option step (lookup_base name datas)
      by_lookup none e = elim (Bool-cases (is_text k name)) [
        | inl on ↦
            let e' : lookup_base name datas ≡ none =
              ap (λ t. lookup_base t datas) (sym (is_text→≡ k name on)) ∙ e in
            e' ∙ sym (ap (map_option step) e')
        | inr off ↦ sym (unmoved off (lookup_base name datas))
      ]
      by_lookup (some var) e =
          lookup_base-put k name (load_one node var) datas ∙ elim (Bool-cases (is_text k name)) [
            | inl on ↦
                let e' : lookup_base name datas ≡ some var =
                  ap (λ t. lookup_base t datas) (sym (is_text→≡ k name on)) ∙ e in
                ap (λ b. if b then some (load_one node var) else lookup_base name datas) on
                ∙ sym (moved on var e')
            | inr off ↦
                ap (λ b. if b then some (load_one node var) else lookup_base name datas) off
                ∙ sym (unmoved off (lookup_base name datas))
          ]

  lookup_base-load_nodes :
      (nodes : List (Text × Node)) (name : Text) (datas : List (Text × ConfigVar V))
      → lookup_base name (load_nodes same throws read print nodes datas).1
        ≡ map_option (value_after nodes name) (lookup_base name datas)
  lookup_base-load_nodes [] name datas = map_option_same (lookup_base name datas)
  lookup_base-load_nodes (([], node) ∷ nodes) name datas = lookup_base-load_nodes nodes name datas
  lookup_base-load_nodes ((c ∷ key, node) ∷ nodes) name datas =
      lookup_base-load_nodes nodes name (load_node same throws read print (c ∷ key, node) datas).1
      ∙ ap (map_option (value_after nodes name)) (lookup_base-load_node c key name node datas)
      ∙ map_option-map_option (value_after nodes name)
          (λ var. if is_text (lower (c ∷ key)) name then load_one node var else var)
          (lookup_base name datas)

  -- A listener of the variable throws at the change.
  abbrev pub objects : List (ℕ × ℕ) → V → V → Bool
  objects [] old v = false
  objects (i ∷ cbs) old v = throws i.1 old v || objects cbs old v

  -- The last of the values at which no listener throws.
  abbrev pub last_value : List (ℕ × ℕ) → V → List V → V
  last_value cbs old [] = old
  last_value cbs old (v ∷ vs) = last_value cbs (if objects cbs old v then old else v) vs

  abbrev pub or_skip : Option V → List V → List V
  or_skip none vs = vs
  or_skip (some v) vs = v ∷ vs

  -- What the nodes of the name are read as, for those that can be read.
  abbrev pub readings : ℕ → Text → List (Text × Node) → List V
  readings type name [] = []
  readings type name (n ∷ nodes) =
      let rest = readings type name nodes in
      if is_text n.0 name
      then or_skip (read type (text_of same throws read print n.1)) rest
      else rest

  abbrev pub loaded_value : List (Text × Node) → Text → ConfigVar V → ConfigVar V
  loaded_value nodes name var = record var {
    val = last_value var.cbs var.val (readings var.type name nodes);
  }

  abbrev with_last : List V → ConfigVar V → ConfigVar V
  with_last vs var = record var { val = last_value var.cbs var.val vs }

  call_all-objects :
      (old v : V) (cbs : List (ℕ × ℕ))
      → (call_all same throws old v cbs).1 ≡ not (objects cbs old v)
  call_all-objects old v [] = refl
  call_all-objects old v (i ∷ cbs) = elim (Bool-cases (throws i.1 old v)) [
    | inl on ↦ rw on refl
    | inr off ↦ rw off (call_all-objects old v cbs)
  ]

  lower-is_name : (s : Text) → is_name s ≡ true → lower s ≡ s
  lower-is_name [] h = refl
  lower-is_name (c ∷ s) h =
      let small : leb 65 c && leb c 90 ≡ false = ground (arith, h) in
      let tail : is_name s ≡ true = ground (arith, h) in rw (small, lower-is_name s tail) refl

  All-listed :
      (P : Text × Node → Type 0) (xs : List (Text × Node))
      → ((x : Text × Node) → IsIn x xs → P x)
      → All P xs
  All-listed P [] h = tt
  All-listed P (x ∷ xs) h = (h x (inl refl), All-listed P xs (λ y is_in. h y (inr is_in)))

  module _ (same_eq : (v w : V) → same v w ≡ true → v ≡ w) where
    set_value_lem :
        (v : V) (var : ConfigVar V)
        → (set_value same throws v var).1
          ≡ record var { val = if objects var.cbs var.val v then var.val else v }
    unfolding set_value
    set_value_lem v var = elim (Bool-cases (same v var.val)) [
      | inl on ↦ elim (Bool-cases (objects var.cbs var.val v)) [
        | inl objected ↦ rw (on, objected) refl
        | inr quiet ↦ rw (on, quiet) (ap (λ w. record var { val = w }) (sym (same_eq v var.val on)))
      ]
      | inr off ↦ elim (Bool-cases (objects var.cbs var.val v)) [
        | inl objected ↦
            let stops : (call_all same throws var.val v var.cbs).1 ≡ false =
              call_all-objects var.val v var.cbs ∙ ap not objected in
            rw (off, stops, objected) refl
        | inr quiet ↦
            let goes : (call_all same throws var.val v var.cbs).1 ≡ true =
              call_all-objects var.val v var.cbs ∙ ap not quiet in
            rw (off, goes, quiet) refl
      ]
    ]

    from_string_lem :
        (o : Option V) (vs : List V) (var : ConfigVar V)
        → with_last vs (from_string same throws o var).1 ≡ with_last (or_skip o vs) var
    unfolding from_string
    from_string_lem none vs var = refl
    from_string_lem (some v) vs var = ap (with_last vs) (set_value_lem v var)

    from_string-type :
        (o : Option V) (var : ConfigVar V) → (from_string same throws o var).1.type ≡ var.type
    unfolding from_string
    from_string-type none var = refl
    from_string-type (some v) var = ap (λ next. next.type) (set_value_lem v var)

    value_after_lem :
        (nodes : List (Text × Node)) (c : ℕ) (name : Text) (var : ConfigVar V)
        → All (λ n. is_name n.0 ≡ true) nodes
        → value_after nodes (c ∷ name) var ≡ loaded_value nodes (c ∷ name) var
    value_after_lem [] c name var h = refl
    value_after_lem (([], node) ∷ nodes) c name var h = value_after_lem nodes c name var h.1
    value_after_lem ((d ∷ key, node) ∷ nodes) c name var h =
        let small = lower-is_name (d ∷ key) h.0 in
        elim (Bool-cases (is_text (d ∷ key) (c ∷ name))) [
          | inl on ↦
              let o = read var.type (text_of same throws read print node) in
              let vs = readings var.type (c ∷ name) nodes in
              let next = load_one node var in
              let on' : is_text (lower (d ∷ key)) (c ∷ name) ≡ true =
                ap (λ t. is_text t (c ∷ name)) small ∙ on in
              rw (on', on)
                (value_after_lem nodes c name next h.1
                  ∙ ap (λ type. with_last (readings type (c ∷ name) nodes) next)
                      (from_string-type o var)
                  ∙ from_string_lem o vs var)
          | inr off ↦
              let off' : is_text (lower (d ∷ key)) (c ∷ name) ≡ false =
                ap (λ t. is_text t (c ∷ name)) small ∙ off in
              rw (off', off) (value_after_lem nodes c name var h.1)
        ]

    -- If the equality of values is equality, `LoadFromYaml` makes no variable and leaves each one,
    -- its name not empty, as it was but for its value: that is in the end the last of what the
    -- nodes of its name are read as, those left out that cannot be read and those at which one of
    -- its listeners throws.
    pub load_from_yaml_lem :
        (root : Node) (c : ℕ) (name : Text) (datas : List (Text × ConfigVar V))
        → lookup_base (c ∷ name) (load_from_yaml same throws read print root datas).1
          ≡ map_option (loaded_value (list_all [] root) (c ∷ name)) (lookup_base (c ∷ name) datas)
    unfolding load_from_yaml
    load_from_yaml_lem root c name datas =
        lookup_base-load_nodes (list_all [] root) (c ∷ name) datas
        ∙ map_option_cong (lookup_base (c ∷ name) datas)
      where
        map_option_cong :
            (o : Option (ConfigVar V))
            → map_option (value_after (list_all [] root) (c ∷ name)) o
              ≡ map_option (loaded_value (list_all [] root) (c ∷ name)) o
        map_option_cong none = refl
        map_option_cong (some var) = ap some (
            value_after_lem (list_all [] root) c name var
              (All-listed (λ n. is_name n.0 ≡ true) (list_all [] root) (list_all-is_name root)))
