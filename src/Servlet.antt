-- ===== src/Servlet.antt =====
-- src/servlet/servlet.h and servlet.cpp: the dispatch of a request to a servlet by its uri. A
-- string is the list of its bytes, a servlet is known by a number, an empty pointer is `none`. The
-- std::unordered_map is an association list. `fnmatch` is outside of the program: whether the
-- pattern matches the uri.
pub mod Dispatch
use cpp_server_framework.Prelude.{
  ℕ, Bool, true, false, List, [], ◌∷◌, ◌++◌, Option, none, some, Text, is_text, if◌then◌else◌,
}
use cpp_server_framework.Http.{HttpResponse, set_response_header}
use cpp_server_framework.Stream.{ℤ}
use Prim.Native.String.{String}

abbrev pub Uri : Type 0
Uri = Text

abbrev pub Table : Type 0
Table = List (Uri × Option ℕ)

-- m_datas.find, and the search of getFuzzyServlet.
abbrev pub find : Uri → Table → Option (Option ℕ)
find u [] = none
find u ((k, slt) ∷ t) = if is_text k u then some slt else find u t

-- m_datas[uri] = slt
abbrev pub assign : Uri → Option ℕ → Table → Table
assign u slt [] = (u, slt) ∷ []
assign u slt ((k, old) ∷ t) =
    let rest = assign u slt t in if is_text k u then (k, slt) ∷ t else (k, old) ∷ rest

-- The first entry of the uri is erased: the loops over m_fuzzy, and m_datas.erase.
abbrev pub erase_first : Uri → Table → Table
erase_first u [] = []
erase_first u ((k, slt) ∷ t) =
    let rest = erase_first u t in if is_text k u then t else (k, slt) ∷ rest

pub record ServletDispatch : Type 0 where
  pub datas : Table
  pub fuzzy : Table
  pub default_servlet : Option ℕ

unfoldable pub add_matched_servlet : Uri → Option ℕ → ServletDispatch → ServletDispatch
add_matched_servlet u slt d = record d { datas = assign u slt d.datas }

unfoldable pub add_fuzzy_servlet : Uri → Option ℕ → ServletDispatch → ServletDispatch
add_fuzzy_servlet u slt d = record d { fuzzy = erase_first u d.fuzzy ++ ((u, slt) ∷ []) }

unfoldable pub del_matched_servlet : Uri → ServletDispatch → ServletDispatch
del_matched_servlet u d = record d { datas = erase_first u d.datas }

unfoldable pub del_fuzzy_servlet : Uri → ServletDispatch → ServletDispatch
del_fuzzy_servlet u d = record d { fuzzy = erase_first u d.fuzzy }

abbrev pub or_else : Option (Option ℕ) → Option ℕ → Option ℕ
or_else none other = other
or_else (some slt) other = slt

abbrev pub set_default : Option ℕ → ServletDispatch → ServletDispatch
set_default slt d = record d { default_servlet = slt }

unfoldable pub get_matched_servlet : Uri → ServletDispatch → Option ℕ
get_matched_servlet u d = or_else (find u d.datas) none

unfoldable pub get_fuzzy_servlet : Uri → ServletDispatch → Option ℕ
get_fuzzy_servlet u d = or_else (find u d.fuzzy) none

module _ (fnmatch : Uri → Uri → Bool) where
  -- The first pattern that matches.
  abbrev pub find_match : Uri → Table → Option (Option ℕ)
  find_match u [] = none
  find_match u ((k, slt) ∷ t) = let rest = find_match u t in if fnmatch k u then some slt else rest

  unfoldable pub get_servlet : Uri → ServletDispatch → Option ℕ
  get_servlet u d = or_else (find u d.datas) (or_else (find_match u d.fuzzy) d.default_servlet)

  -- `run` is what the handler of a servlet makes of the response.
  abbrev pub handle :
      (ℕ → HttpResponse → HttpResponse) → Uri → ServletDispatch → HttpResponse → HttpResponse
  handle run u d response = elim (get_servlet u d) [ none ↦ response | some slt ↦ run slt response ]

abbrev pub rsp_body : String
rsp_body =
    "<html><head><title>404 Not Found</title></head><body><center><h1>404 Not Found</h1></center><hr><center>MyServer/1.0.0</center></body></html>"

-- DefaultServlet::handle, with strcasecmp.
abbrev pub handle_not_found : (String → String → ℤ) → HttpResponse → HttpResponse
handle_not_found strcasecmp response =
    record (set_response_header strcasecmp "Content-Type" "text/html" (
      set_response_header strcasecmp "Server" "MyServer/1.0.0"
        (record response { status = 404 }))) { body = rsp_body }
