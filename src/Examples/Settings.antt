-- ===== src/Examples/Settings.antt =====
-- A tree of nodes and variables for src/config/config.cpp, and the theorems on them.
use cpp_server_framework.Prelude.{
  ℕ, ◌≡◌, ◌↔◌, refl, Bool, true, All, arith, Text, bytes, List, [], ◌∷◌, Option, none, some, ◌==◌,
}
use cpp_server_framework.Config.{
  Node, leaf, map, last, entry, list_all, ConfigVar, lookup_base, lookup, load_from_yaml, new_var,
}
use cpp_server_framework.Config.Members.{IsIn}
use cpp_server_framework.Config.Paths.{IsPath, dotted, IsNameChar, list_all_lem}
use cpp_server_framework.Config.Variables.{lookup_twice}
use cpp_server_framework.Config.Loading.{map_option, loaded_value, load_from_yaml_lem}

-- tcp: {timeout: 7}
abbrev a_tree : Node
a_tree = map (entry (bytes "tcp") (map (entry (bytes "timeout") (leaf (bytes "7")) last)) last)

abbrev timeout_name : Text
timeout_name = bytes "tcp.timeout"

list_all_lem_example :
    IsIn (timeout_name, leaf (bytes "7")) (list_all [] a_tree)
    ↔ (keys : List Text) × (IsPath a_tree keys (leaf (bytes "7"))
        × (timeout_name ≡ dotted keys)
        × All IsNameChar timeout_name)
list_all_lem_example = list_all_lem timeout_name a_tree (leaf (bytes "7"))

-- A decimal digit is read as a number.
abbrev read_digit : ℕ → Text → Option ℕ
read_digit type [] = none
read_digit type (c ∷ s) = some c

abbrev print_nothing : Node → Text
print_nothing node = []

abbrev datas : List (Text × ConfigVar ℕ)
datas = (timeout_name, new_var 1 timeout_name 5) ∷ []

abbrev port_name : Text
port_name = bytes "tcp.port"

lookup_twice_example :
    (lookup 1 port_name 9 (lookup 1 port_name 8 datas).1 ≡ lookup 1 port_name 8 datas)
    × (lookup_base timeout_name (lookup 1 port_name 8 datas).1 ≡ lookup_base timeout_name datas)
lookup_twice_example = lookup_twice 1 port_name timeout_name 8 9 datas refl

-- No callback takes the value of the character 8.
abbrev throws_at_8 : ℕ → ℕ → ℕ → Bool
throws_at_8 cb old v = v == 56

equal_numbers : (v w : ℕ) → (v == w) ≡ true → v ≡ w
equal_numbers v w h = ground (arith, h)

load_from_yaml_lem_example :
    lookup_base timeout_name
      (load_from_yaml ◌==◌ throws_at_8 read_digit print_nothing a_tree datas).1
    ≡ map_option
        (loaded_value ◌==◌ throws_at_8 read_digit print_nothing (list_all [] a_tree) timeout_name)
        (lookup_base timeout_name datas)
load_from_yaml_lem_example =
    load_from_yaml_lem ◌==◌ throws_at_8 read_digit print_nothing equal_numbers a_tree 116
      (bytes "cp.timeout") datas
