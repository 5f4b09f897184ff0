-- ===== src/Log/Pattern.antt =====
-- LogFormatter::init of src/log/log.cpp: how a pattern is read into format items.
use cpp_server_framework.Prelude.{
  ℕ, zero, suc, Bool, true, false, not, ◌&&◌, ◌||◌, Text, bytes, is_text, List, [], ◌∷◌, ◌++◌,
  Option, none, some, leb, ◌==◌, if◌then◌else◌,
}
use cpp_server_framework.Log.{FormatItem, new_date_time}

-- A tuple of the vector: its third part tells the two cases apart.
pub data Part : Type 0 where
  text : Text → Part
  conversion : Text → Text → Part

-- isalpha, in the "C" locale.
abbrev pub is_alpha : ℕ → Bool
is_alpha c = (leb 65 c && leb c 90) || (leb 97 c && leb c 122)

-- The test that ends a conversion which has no braces.
abbrev pub is_end : ℕ → Bool
is_end c = not (is_alpha c) && (not (c == 123) && not (c == 125))

-- The inner loop inside braces: what stands before '}', and how many characters it is with it.
abbrev pub read_fmt : Text → Option (Text × ℕ)
read_fmt [] = none
read_fmt (c ∷ cs) = elim (c == 125) [
  | true ↦ some ([], 1)
  | false ↦ elim (read_fmt cs) [ none ↦ none | some r ↦ some (c ∷ r.0, suc r.1) ]
]

-- The inner loop before them: the two strings of the conversion, and how many characters were read;
-- `none` if braces stay open.
abbrev pub read_conversion : Text → Option (Text × Text × ℕ)
read_conversion [] = some ([], [], 0)
read_conversion (c ∷ cs) = elim (is_end c) [
  | true ↦ some ([], [], 0)
  | false ↦ elim (c == 123) [
    | true ↦ elim (read_fmt cs) [ none ↦ none | some r ↦ some ([], r.0, suc r.1) ]
    | false ↦ elim (read_conversion cs) [ none ↦ none | some r ↦ some (c ∷ r.0, r.1, suc r.2) ]
  ]
]

abbrev pub flush : Text → List Part → List Part
flush [] parts = parts
flush (c ∷ nstr) parts = Part.text (c ∷ nstr) ∷ parts

-- Whether the character after a '%' is another one.
abbrev pub is_escape : Text → Bool
is_escape [] = false
is_escape (c ∷ cs) = c == 37

-- The outer loop from a position: the tuples it adds, and whether it sets m_error. The first number
-- is that of the characters which `i = n - 1` passes over.
abbrev pub scan : ℕ → Text → Text → List Part × Bool
scan skip nstr [] = (flush nstr [], false)
scan (suc skip) nstr (c ∷ cs) = scan skip nstr cs
scan zero nstr (c ∷ cs) = elim (c == 37) [
  | false ↦ scan 0 (nstr ++ (c ∷ [])) cs
  | true ↦ elim (is_escape cs) [
    | true ↦ scan 0 (nstr ++ (37 ∷ [])) cs
    | false ↦ elim (read_conversion cs) [
      | none ↦ (Part.text (bytes "<pattern_error>") ∷ (scan 0 nstr cs).0, true)
      | some r ↦
          let rest = scan r.2 [] cs in (flush nstr (Part.conversion r.0 r.1 ∷ rest.0), rest.1)
    ]
  ]
]

-- s_format_items.find, and the constructor it finds.
abbrev pub make_item : Text → Text → Option FormatItem
make_item str fmt =
    if is_text str (bytes "m")
    then some FormatItem.message
    else if is_text str (bytes "p")
    then some FormatItem.level
    else if is_text str (bytes "r")
    then some FormatItem.elapse
    else if is_text str (bytes "c")
    then some FormatItem.name
    else if is_text str (bytes "t")
    then some FormatItem.thread_id
    else if is_text str (bytes "n")
    then some FormatItem.new_line
    else if is_text str (bytes "d")
    then some (new_date_time fmt)
    else if is_text str (bytes "f")
    then some FormatItem.filename
    else if is_text str (bytes "l")
    then some FormatItem.line
    else if is_text str (bytes "T")
    then some FormatItem.tab
    else if is_text str (bytes "F")
    then some FormatItem.fiber_id
    else if is_text str (bytes "N")
    then some FormatItem.thread_name
    else none

-- The last loop: the items, and whether it sets m_error.
abbrev pub make_items : List Part → List FormatItem × Bool
make_items [] = ([], false)
make_items (Part.text str ∷ parts) =
    let rest = make_items parts in (FormatItem.string str ∷ rest.0, rest.1)
make_items (Part.conversion str fmt ∷ parts) =
    let rest = make_items parts in
    elim (make_item str fmt) [
      | none ↦ (FormatItem.string (bytes "<error_format " ++ (str ++ bytes ">")) ∷ rest.0, true)
      | some i ↦ (i ∷ rest.0, rest.1)
    ]

pub record LogFormatter : Type 0 where
  pub pattern : Text
  pub items : List FormatItem
  pub is_error : Bool

-- The constructor, with `init`.
unfoldable pub new_formatter : Text → LogFormatter
new_formatter pattern =
    let scanned = scan 0 [] pattern in
    let made = make_items scanned.0 in
    record { pattern = pattern; items = made.0; is_error = scanned.1 || made.1 }
