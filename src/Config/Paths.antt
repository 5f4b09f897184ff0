-- ===== src/Config/Paths.antt =====
-- The names that ListAllYamlMember of src/config/config.cpp gives to the nodes of a tree.
use cpp_server_framework.Prelude.{
  ℕ, ◌≤◌, ◌≡◌, ◌↔◌, ◌⊎◌, refl, sym, ap, ◌∙◌, subst, true, Text, List, [], ◌∷◌, ◌++◌, append_assoc,
  append-nil, All, arith,
}
use cpp_server_framework.Config.{Node, map, Entries, is_name_char, is_name, join, list_all}
use cpp_server_framework.Config.Members.{HasEntry, IsReached, stop, down, IsIn, list_all-IsReached}

-- A node is reached from another by keys of maps.
pub data IsPath : Node → List Text → Node → Type 0 where
  here : (node : Node) → IsPath node [] node
  below :
      (es : Entries) (key : Text) (child node : Node) (keys : List Text)
      → HasEntry es key child
      → IsPath child keys node
      → IsPath (map es) (key ∷ keys) node

abbrev pub dots : List Text → Text
dots [] = []
dots (key ∷ keys) = 46 ∷ (key ++ dots keys)

-- The keys with dots between them, without the empty keys in front.
abbrev pub dotted : List Text → Text
dotted [] = []
dotted ([] ∷ keys) = dotted keys
dotted ((c ∷ key) ∷ keys) = (c ∷ key) ++ dots keys

-- A small letter, a dot, an underscore or a digit.
abbrev pub IsNameChar : ℕ → Type 0
IsNameChar c = ((97 ≤ c) × (c ≤ 122)) ⊎ ((c ≡ 46) ⊎ ((c ≡ 95) ⊎ ((48 ≤ c) × (c ≤ 57))))

is_name_char→ : (c : ℕ) → is_name_char c ≡ true → IsNameChar c
is_name_char→ c h = ground (arith, h)

is_name_char← : (c : ℕ) → IsNameChar c → is_name_char c ≡ true
is_name_char← c h = ground (arith, h)

All-name_chars : (name : Text) → is_name name ≡ true → All IsNameChar name
All-name_chars [] h = tt
All-name_chars (c ∷ name) h =
    let head : is_name_char c ≡ true = ground (arith, h) in
    let tail : is_name name ≡ true = ground (arith, h) in
    (is_name_char→ c head, All-name_chars name tail)

name_chars-All : (name : Text) → All IsNameChar name → is_name name ≡ true
name_chars-All [] h = refl
name_chars-All (c ∷ name) h = rw (is_name_char← c h.0, name_chars-All name h.1) refl

is_name-front : (front back : Text) → is_name (front ++ back) ≡ true → is_name front ≡ true
is_name-front [] back h = refl
is_name-front (c ∷ front) back h =
    let tail : is_name (front ++ back) ≡ true = ground (arith, h) in
    ground (arith, h, is_name-front front back tail)

-- The name below a prefix.
abbrev under : Text → List Text → Text
under [] keys = dotted keys
under (c ∷ prefix) keys = (c ∷ prefix) ++ dots keys

under-nil : (prefix : Text) → under prefix [] ≡ prefix
under-nil [] = refl
under-nil (c ∷ prefix) = append-nil (c ∷ prefix)

under-join :
    (prefix key : Text) (keys : List Text)
    → under (join prefix key) keys ≡ under prefix (key ∷ keys)
under-join [] [] keys = refl
under-join [] (c ∷ key) keys = refl
under-join (c ∷ prefix) key keys = append_assoc (c ∷ prefix) (46 ∷ key) (dots keys)

is_name-under :
    (prefix : Text) (keys : List Text) → is_name (under prefix keys) ≡ true → is_name prefix ≡ true
is_name-under [] keys h = refl
is_name-under (c ∷ prefix) keys h = is_name-front (c ∷ prefix) (dots keys) h

-- A node found along keys, with its name below a prefix.
abbrev Found : Text → Node → Text → Node → Type 0
Found prefix node name m =
    (keys : List Text) × (IsPath node keys m × (name ≡ under prefix keys) × (is_name name ≡ true))

reached-Found :
    (prefix name : Text) (node m : Node) → IsReached prefix node name m → Found prefix node name m
reached-Found prefix name node m (stop p n valid) = ([], (here n, sym (under-nil p), valid))
reached-Found prefix name node m (down p key x es child k valid has r) =
    let (keys, (path, named, ok)) = reached-Found (join p key) x child k r in
    (key ∷ keys, (below es key child k keys has path, named ∙ under-join p key keys, ok))

found-IsReached :
    (prefix : Text) (keys : List Text) (node m : Node)
    → IsPath node keys m
    → is_name (under prefix keys) ≡ true
    → IsReached prefix node (under prefix keys) m
found-IsReached prefix keys node m (here n) ok =
    subst (λ name. IsReached prefix n name n) (sym (under-nil prefix))
      (stop prefix n (is_name-under prefix [] ok))
found-IsReached prefix keys node m (below es key child n rest has path) ok =
    let e = under-join prefix key rest in
    subst (λ name. IsReached prefix (map es) name n) e
      (down prefix key (under (join prefix key) rest) es child n
        (is_name-under prefix (key ∷ rest) ok) has
        (found-IsReached (join prefix key) rest child n path (ap is_name e ∙ ok)))

-- A name in the list is made of the characters that are allowed.
pub list_all-is_name :
    (root : Node) (x : Text × Node) → IsIn x (list_all [] root) → is_name x.0 ≡ true
list_all-is_name root (name, m) h =
    let (keys, (path, named, ok)) =
      reached-Found [] name root m ((list_all-IsReached [] name root m).0 h) in
    ok

-- From the root on, with an empty prefix, `ListAllYamlMember` lists a node under a name just if the
-- node is reached from the root by keys of maps, the name is these keys with dots between them, the
-- empty keys in front left out, and the name has only small letters, digits, dots and underscores.
pub list_all_lem :
    (name : Text) (root m : Node)
    → IsIn (name, m) (list_all [] root)
      ↔ (keys : List Text) × (IsPath root keys m × (name ≡ dotted keys) × All IsNameChar name)
list_all_lem name root m =
    let reached = list_all-IsReached [] name root m in
    (
      λ h.
          let (keys, (path, named, ok)) = reached-Found [] name root m (reached.0 h) in
          (keys, (path, named, All-name_chars name ok)),
      λ (keys, (path, named, ok)). reached.1 (
          subst (λ x. IsReached [] root x m) (sym named)
            (found-IsReached [] keys root m path
              (ap is_name (sym named) ∙ name_chars-All name ok))),
    )
