-- ===== src/Config/Members.antt =====
-- Which nodes ListAllYamlMember of src/config/config.cpp lists.
use cpp_server_framework.Prelude.{
  subst, ◌≡◌, ◌↔◌, refl, inl, inr, ◌⊎◌, Bool, true, false, Text, List, [], ◌∷◌, ◌++◌, if◌then◌else◌,
}
use cpp_server_framework.Config.{
  Node, leaf, map, Entries, last, entry, is_name, join, list_all, list_entries,
}

-- An entry of a map.
pub data HasEntry : Entries → Text → Node → Type 0 where
  here : (key : Text) (node : Node) (es : Entries) → HasEntry (entry key node es) key node
  there :
      (key other : Text) (node skipped : Node) (es : Entries)
      → HasEntry es key node
      → HasEntry (entry other skipped es) key node

-- A node is reached from another along keys, and every name on the way is made of the characters that
-- are allowed.
pub data IsReached : Text → Node → Text → Node → Type 0 where
  stop : (prefix : Text) (node : Node) → is_name prefix ≡ true → IsReached prefix node prefix node
  down :
      (prefix key name : Text) (es : Entries) (child node : Node)
      → is_name prefix ≡ true
      → HasEntry es key child
      → IsReached (join prefix key) child name node
      → IsReached prefix (map es) name node

-- One of the list.
abbrev pub IsIn : Text × Node → List (Text × Node) → Type 0
IsIn x [] = ⊥
IsIn x (y ∷ ys) = (y ≡ x) ⊎ IsIn x ys

IsIn-append :
    (x : Text × Node) (ys zs : List (Text × Node)) → IsIn x (ys ++ zs) → IsIn x ys ⊎ IsIn x zs
IsIn-append x [] zs h = inr h
IsIn-append x (y ∷ ys) zs (inl e) = inl (inl e)
IsIn-append x (y ∷ ys) zs (inr h) = elim (IsIn-append x ys zs h) [
  | inl a ↦ inl (inr a)
  | inr b ↦ inr b
]

IsIn-append_left : (x : Text × Node) (ys zs : List (Text × Node)) → IsIn x ys → IsIn x (ys ++ zs)
IsIn-append_left x [] zs h = absurd h
IsIn-append_left x (y ∷ ys) zs (inl e) = inl e
IsIn-append_left x (y ∷ ys) zs (inr h) = inr (IsIn-append_left x ys zs h)

IsIn-append_right : (x : Text × Node) (ys zs : List (Text × Node)) → IsIn x zs → IsIn x (ys ++ zs)
IsIn-append_right x [] zs h = h
IsIn-append_right x (y ∷ ys) zs h = inr (IsIn-append_right x ys zs h)

-- Reached through an entry.
abbrev Below : Text → Entries → Text × Node → Type 0
Below prefix es x =
    (key : Text) × (child : Node) × (HasEntry es key child
      × IsReached (join prefix key) child x.0 x.1)

Below-there :
    (prefix key : Text) (node : Node) (es : Entries) (x : Text × Node)
    → Below prefix es x
    → Below prefix (entry key node es) x
Below-there prefix key node es x b = (b.0, b.1, (there b.0 key b.1 node es b.2.0, b.2.1))

IsReached-at :
    (prefix : Text) (node : Node) (x : Text × Node)
    → is_name prefix ≡ true
    → Path (Text × Node) (prefix, node) x
    → IsReached prefix node x.0 x.1
IsReached-at prefix node x valid e =
    subst (λ y. IsReached prefix node y.0 y.1) e (stop prefix node valid)

listed_leaf :
    (prefix text : Text) (x : Text × Node) (b : Bool)
    → is_name prefix ≡ b
    → IsIn x (if b then (prefix, leaf text) ∷ [] else [])
    → IsReached prefix (leaf text) x.0 x.1
listed_leaf prefix text x true valid (inl e) = IsReached-at prefix (leaf text) x valid e
listed_leaf prefix text x true valid (inr h) = absurd h
listed_leaf prefix text x false valid h = absurd h

listed_map :
    (prefix : Text) (es : Entries) (x : Text × Node) (b : Bool)
    → is_name prefix ≡ b
    → (IsIn x (list_entries prefix es) → Below prefix es x)
    → IsIn x (if b then (prefix, map es) ∷ list_entries prefix es else [])
    → IsReached prefix (map es) x.0 x.1
listed_map prefix es x true valid below (inl e) = IsReached-at prefix (map es) x valid e
listed_map prefix es x true valid below (inr h) =
    let b = below h in down prefix b.0 x.0 es b.1 x.1 valid b.2.0 b.2.1
listed_map prefix es x false valid below h = absurd h

mutual
  list_all-IsReached_at :
      (prefix : Text) (node : Node) (x : Text × Node)
      → IsIn x (list_all prefix node)
      → IsReached prefix node x.0 x.1
  list_all-IsReached_at prefix (leaf text) x h = listed_leaf prefix text x (is_name prefix) refl h
  list_all-IsReached_at prefix (map es) x h =
      listed_map prefix es x (is_name prefix) refl (entries_reached prefix es x) h

  entries_reached :
      (prefix : Text) (es : Entries) (x : Text × Node)
      → IsIn x (list_entries prefix es)
      → Below prefix es x
  entries_reached prefix last x h = absurd h
  entries_reached prefix (entry key node es) x h =
      elim (IsIn-append x (list_all (join prefix key) node) (list_entries prefix es) h) [
        | inl first ↦
            (key, node, (here key node es, list_all-IsReached_at (join prefix key) node x first))
        | inr later ↦ Below-there prefix key node es x (entries_reached prefix es x later)
      ]

entry_listed :
    (prefix key : Text) (es : Entries) (child : Node) (x : Text × Node)
    → HasEntry es key child
    → IsIn x (list_all (join prefix key) child)
    → IsIn x (list_entries prefix es)
entry_listed prefix key es child x (here k n rest) h =
    IsIn-append_left x (list_all (join prefix k) n) (list_entries prefix rest) h
entry_listed prefix key es child x (there k other n skipped rest has) h =
    IsIn-append_right x (list_all (join prefix other) skipped) (list_entries prefix rest)
      (entry_listed prefix k rest n x has h)

reached_listed :
    (prefix name : Text) (node m : Node)
    → IsReached prefix node name m
    → IsIn (name, m) (list_all prefix node)
reached_listed prefix name node m (stop p (leaf text) valid) = rw valid (inl refl)
reached_listed prefix name node m (stop p (map es) valid) = rw valid (inl refl)
reached_listed prefix name node m (down p key n es child k valid has r) =
    rw valid
      (inr (entry_listed p key es child (n, k) has (reached_listed (join p key) n child k r)))

-- `ListAllYamlMember` lists a node under a name just if the node is reached from the root along the
-- keys of maps, the keys joined by dots to the name, and each name on the way, the first and the
-- last included, has only the characters that are allowed.
pub list_all-IsReached :
    (prefix name : Text) (node m : Node)
    → IsIn (name, m) (list_all prefix node) ↔ IsReached prefix node name m
list_all-IsReached prefix name node m =
    (list_all-IsReached_at prefix node (name, m), reached_listed prefix name node m)
