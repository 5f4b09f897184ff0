-- ===== src/Config.antt =====
-- src/config/config.h and config.cpp: configuration variables, and how they are set from a tree of
-- nodes. A string is the list of its bytes. What a string is read as, and how a node that is no map is
-- printed, is outside of the program (yaml-cpp): the values of a variable are those that its type reads.
pub mod Members
pub mod Paths
pub mod Variables
pub mod Loading
use cpp_server_framework.Prelude.{
  ℕ, suc, ◌+◌, ◌%◌, ◌^◌, Bool, true, false, not, ◌&&◌, ◌||◌, Text, bytes, is_text, List, [], ◌∷◌,
  ◌++◌, Option, none, some, leb, ◌==◌, if◌then◌else◌,
}

-- A node that is no map is known by its text: what Scalar or the print of it gives.
mutual
  pub data Node : Type 0 where
    leaf : Text → Node
    map : Entries → Node

  pub data Entries : Type 0 where
    last : Entries
    entry : Text → Node → Entries → Entries

-- A character that find_first_not_of passes over: a letter, '.', '_' or a digit.
abbrev pub is_name_char : ℕ → Bool
is_name_char c = (leb 97 c && leb c 122) || ((c == 46) || ((c == 95) || (leb 48 c && leb c 57)))

abbrev pub is_name : Text → Bool
is_name [] = true
is_name (c ∷ cs) = is_name_char c && is_name cs

abbrev pub join : Text → Text → Text
join [] key = key
join (c ∷ prefix) key = (c ∷ prefix) ++ (46 ∷ key)

-- ListAllYamlMember, and its loop over the entries of a map.
abbrev mutual
  pub list_all : Text → Node → List (Text × Node)
  list_all prefix (leaf text) = if is_name prefix then (prefix, leaf text) ∷ [] else []
  list_all prefix (map es) =
      if is_name prefix then (prefix, map es) ∷ list_entries prefix es else []

  pub list_entries : Text → Entries → List (Text × Node)
  list_entries prefix last = []
  list_entries prefix (entry key node es) =
      list_all (join prefix key) node ++ list_entries prefix es

-- ::tolower over a string, in the "C" locale.
abbrev pub lower : Text → Text
lower [] = []
lower (c ∷ s) = (if leb 65 c && leb c 90 then c + 32 else c) ∷ lower s

-- A variable, with the values of its type; `type` is what dynamic_pointer_cast tests. A listener is
-- known by the number of its callback.
pub record ConfigVar (V : Type 0) : Type 0 where
  pub name : Text
  pub type : ℕ
  pub val : V
  pub cbs : List (ℕ × ℕ)

-- A callback that is called, with the old and the new value.
abbrev pub Call : Type 0 → Type 0
Call V = ℕ × V × V

-- A callback is outside of the program: `throws` says whether it ends with a std::exception. It
-- changes no variable.
module _ {V : Type 0} (same : V → V → Bool) (throws : ℕ → V → V → Bool) where
  -- The loop over the listeners: the calls, and whether none threw.
  abbrev pub call_all : V → V → List (ℕ × ℕ) → List (Call V) × Bool
  call_all old v [] = ([], true)
  call_all old v (i ∷ cbs) =
      let rest = call_all old v cbs in
      if throws i.1 old v then ((i.1, old, v) ∷ [], false) else ((i.1, old, v) ∷ rest.0, rest.1)

  -- setValue: the calls, the variable after them, and whether it returns.
  unfoldable pub set_value : V → ConfigVar V → List (Call V) × ConfigVar V × Bool
  set_value v var =
      let r = call_all var.val v var.cbs in
      if same v var.val
      then ([], var, true)
      else if r.1
      then (r.0, record var { val = v }, true)
      else (r.0, var, false)

  -- fromString, with what FromStr gives; `none` if it throws. An exception is caught, and the result
  -- is always false.
  unfoldable pub from_string : Option V → ConfigVar V → List (Call V) × ConfigVar V × Bool
  from_string none var = ([], var, false)
  from_string (some v) var = ((set_value v var).0, (set_value v var).1, false)

abbrev pub erase : ℕ → List (ℕ × ℕ) → List (ℕ × ℕ)
erase key [] = []
erase key (i ∷ cbs) = let rest = erase key cbs in if i.0 == key then cbs else i ∷ rest

abbrev pub find_cb : ℕ → List (ℕ × ℕ) → Option ℕ
find_cb key [] = none
find_cb key (i ∷ cbs) = let rest = find_cb key cbs in if i.0 == key then some i.1 else rest

module _ {V : Type 0} where
  -- addListener, with s_fun_id before it: the new key is after all others of the map.
  unfoldable pub add_listener : ℕ → ℕ → ConfigVar V → ℕ × ConfigVar V
  add_listener fun_id cb var =
      let key = suc fun_id % 2 ^ 64 in (key, record var { cbs = var.cbs ++ ((key, cb) ∷ []) })

  unfoldable pub del_listener : ℕ → ConfigVar V → ConfigVar V
  del_listener key var = record var { cbs = erase key var.cbs }

  unfoldable pub clear_listener : ConfigVar V → ConfigVar V
  clear_listener var = record var { cbs = [] }

  unfoldable pub get_listener : ℕ → ConfigVar V → Option ℕ
  get_listener key var = find_cb key var.cbs

  -- LookupBase
  abbrev pub lookup_base : Text → List (Text × ConfigVar V) → Option (ConfigVar V)
  lookup_base name [] = none
  lookup_base name (e ∷ datas) =
      let rest = lookup_base name datas in if is_text e.0 name then some e.1 else rest

  abbrev pub put : Text → ConfigVar V → List (Text × ConfigVar V) → List (Text × ConfigVar V)
  put name var [] = (name, var) ∷ []
  put name var (e ∷ datas) =
      let rest = put name var datas in if is_text e.0 name then (e.0, var) ∷ datas else e ∷ rest

-- What Lookup gives: a variable, the null pointer for another type, or an exception.
pub data Looked (V : Type 0) : Type 0 where
  found : ConfigVar V → Looked V
  wrong : Looked V
  thrown : Looked V

module _ {V : Type 0} where
  abbrev pub new_var : ℕ → Text → V → ConfigVar V
  new_var type name default_value = record {
    name = lower name;
    type = type;
    val = default_value;
    cbs = [];
  }

  -- What follows the search.
  abbrev pub looked :
      ℕ
      → Text
      → V
      → List (Text × ConfigVar V)
      → Option (ConfigVar V)
      → Looked V × List (Text × ConfigVar V)
  looked type name default_value datas (some var) =
      (if var.type == type then found var else wrong, datas)
  looked type name default_value datas none =
      let var = new_var type name default_value in
      if is_name name then (found var, put name var datas) else (thrown, datas)

  -- Lookup with a default value, for the type of that number.
  unfoldable pub lookup :
      ℕ → Text → V → List (Text × ConfigVar V) → Looked V × List (Text × ConfigVar V)
  lookup type name default_value datas =
      looked type name default_value datas (lookup_base name datas)

module _ {V : Type 0} (same : V → V → Bool) (throws : ℕ → V → V → Bool) (read : ℕ → Text → Option V)
    (print : Node → Text) where
  -- The text that a variable is read from.
  abbrev pub text_of : Node → Text
  text_of (leaf text) = text
  text_of (map es) = print (map es)

  -- The loop of LoadFromYaml for one node: the calls of listeners, and the variables after them.
  abbrev pub load_node :
      Text × Node → List (Text × ConfigVar V) → List (Call V) × List (Text × ConfigVar V)
  load_node ([], node) datas = ([], datas)
  load_node (c ∷ key, node) datas = elim (lookup_base (lower (c ∷ key)) datas) [
    | none ↦ ([], datas)
    | some var ↦
        let r = from_string same throws (read var.type (text_of node)) var in
        (r.0, put (lower (c ∷ key)) r.1 datas)
  ]

  abbrev pub load_nodes :
      List (Text × Node) → List (Text × ConfigVar V) → List (Call V) × List (Text × ConfigVar V)
  load_nodes [] datas = ([], datas)
  load_nodes (n ∷ nodes) datas =
      let one = load_node n datas in let rest = load_nodes nodes one.1 in (one.0 ++ rest.0, rest.1)

  unfoldable pub load_from_yaml :
      Node → List (Text × ConfigVar V) → List (Call V) × List (Text × ConfigVar V)
  load_from_yaml root datas = load_nodes (list_all [] root) datas
