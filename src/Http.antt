-- ===== src/Http.antt =====
-- src/HTTP/http.h and http.cpp: HTTP requests and responses. A method is the number of its
-- enumerator, 34 for INVALID_METHOD, and a status its code. A std::string is a text of one-byte
-- characters. `strcasecmp` is outside of the program: the int that it gives. A std::map is
-- the list of its entries in the order of its keys, and equal keys are those of which neither is
-- before the other.
pub mod Names
pub mod Printing
pub mod Session
pub mod Heads
pub mod Receiving
pub mod Tables
use cpp_server_framework.Prelude.{
  ℕ, zero, suc, ◌-◌, ◌/◌, ◌%◌, Bool, true, false, not, ◌&&◌, ◌||◌, List, [], ◌∷◌, Option, none,
  some, get_elem?, ltb, ◌==◌, if◌then◌else◌,
}
use cpp_server_framework.Http.Tables.{
  or_else, decimal, http_method_to_string, http_status_to_string,
}
use cpp_server_framework.Stream.{ℤ, pos, negsuc}
use Prim.Native.String.{String, len, ◌++◌ as ◌<>◌}
use text.Mathlib.Text.{◌==◌ as ◌=s=◌}

abbrev pub HttpMap : Type 0
HttpMap = List (String × String)

abbrev pub is_empty : String → Bool
is_empty s = len s == 0

module _ (before : String → String → Bool) where
  -- m.find(key)
  abbrev pub find : String → HttpMap → Option String
  find k [] = none
  find k ((j, v) ∷ m) =
      let rest = find k m in if before j k then rest else if before k j then none else some v

  -- m[key] = val
  abbrev pub assign : String → String → HttpMap → HttpMap
  assign k v [] = (k, v) ∷ []
  assign k v ((j, w) ∷ m) =
      let rest = assign k v m in
      if before j k then (j, w) ∷ rest else if before k j then (k, v) ∷ ((j, w) ∷ m) else (j, v) ∷ m

  -- m.erase(key)
  abbrev pub erase : String → HttpMap → HttpMap
  erase k [] = []
  erase k ((j, w) ∷ m) =
      let rest = erase k m in
      if before j k then (j, w) ∷ rest else if before k j then (j, w) ∷ m else m

pub record HttpRequest : Type 0 where
  pub method : ℕ
  pub version : ℕ
  pub close : Bool
  pub path : String
  pub query : String
  pub fragment : String
  pub body : String
  pub headers : HttpMap
  pub params : HttpMap
  pub cookies : HttpMap

abbrev pub new_http_request : ℕ → Bool → HttpRequest
new_http_request version close = record {
  method = 1;
  version = version;
  close = close;
  path = "/";
  query = "";
  fragment = "";
  body = "";
  headers = [];
  params = [];
  cookies = [];
}

pub record HttpResponse : Type 0 where
  pub status : ℕ
  pub version : ℕ
  pub close : Bool
  pub body : String
  pub reason : String
  pub headers : HttpMap

abbrev pub new_http_response : ℕ → Bool → HttpResponse
new_http_response version close = record {
  status = 200;
  version = version;
  close = close;
  body = "";
  reason = "";
  headers = [];
}

abbrev pub version_string : ℕ → String
version_string v = decimal (v / 16) <> ("." <> decimal (v % 16))

abbrev pub connection_line : Bool → String
connection_line close = "connection: " <> ((if close then "close" else "keep-alive") <> "\r\n")

abbrev pub body_lines : String → String
body_lines body =
    if is_empty body
    then "\r\n"
    else "content-length: " <> (decimal (len body) <> ("\r\n\r\n" <> body))

abbrev pub is_negative : ℤ → Bool
is_negative (pos n) = false
is_negative (negsuc n) = true

abbrev pub is_zero : ℤ → Bool
is_zero (pos n) = n == 0
is_zero (negsuc n) = false

-- CompareNoCase
abbrev pub compare_no_case : (String → String → ℤ) → String → String → Bool
compare_no_case strcasecmp lhs rhs = is_negative (strcasecmp lhs rhs)

module _ (strcasecmp : String → String → ℤ) where
  unfoldable pub get_header : String → String → HttpRequest → String
  get_header k def r = or_else (find (compare_no_case strcasecmp) k r.headers) def

  unfoldable pub get_param : String → String → HttpRequest → String
  get_param k def r = or_else (find (compare_no_case strcasecmp) k r.params) def

  unfoldable pub get_cookie : String → String → HttpRequest → String
  get_cookie k def r = or_else (find (compare_no_case strcasecmp) k r.cookies) def

  unfoldable pub set_header : String → String → HttpRequest → HttpRequest
  set_header k v r = record r { headers = assign (compare_no_case strcasecmp) k v r.headers }

  unfoldable pub set_param : String → String → HttpRequest → HttpRequest
  set_param k v r = record r { params = assign (compare_no_case strcasecmp) k v r.params }

  unfoldable pub set_cookie : String → String → HttpRequest → HttpRequest
  set_cookie k v r = record r { cookies = assign (compare_no_case strcasecmp) k v r.cookies }

  unfoldable pub del_header : String → HttpRequest → HttpRequest
  del_header k r = record r { headers = erase (compare_no_case strcasecmp) k r.headers }

  unfoldable pub del_param : String → HttpRequest → HttpRequest
  del_param k r = record r { params = erase (compare_no_case strcasecmp) k r.params }

  unfoldable pub del_cookie : String → HttpRequest → HttpRequest
  del_cookie k r = record r { cookies = erase (compare_no_case strcasecmp) k r.cookies }

  -- Whether there is one, and what `*val` is set to.
  unfoldable pub has_header : String → HttpRequest → Option String
  has_header k r = find (compare_no_case strcasecmp) k r.headers

  unfoldable pub has_param : String → HttpRequest → Option String
  has_param k r = find (compare_no_case strcasecmp) k r.params

  unfoldable pub has_cookie : String → HttpRequest → Option String
  has_cookie k r = find (compare_no_case strcasecmp) k r.cookies

  -- The loop over the headers: those that are named connection are left out.
  abbrev pub header_lines : HttpMap → String
  header_lines [] = ""
  header_lines ((k, v) ∷ m) =
      let rest = header_lines m in
      if is_zero (strcasecmp k "connection") then rest else k <> (": " <> (v <> ("\r\n" <> rest)))

  unfoldable pub dump_request : HttpRequest → String
  dump_request r =
      http_method_to_string r.method
      <> (" "
          <> (r.path
              <> ((if is_empty r.query then "" else "?")
                  <> (r.query
                      <> ((if is_empty r.fragment then "" else "#")
                          <> (r.fragment
                              <> (" HTTP/"
                                  <> (version_string r.version
                                      <> ("\r\n"
                                          <> (connection_line r.close
                                              <> (header_lines r.headers
                                                  <> body_lines r.body)))))))))))

  unfoldable pub get_response_header : String → String → HttpResponse → String
  get_response_header k def r = or_else (find (compare_no_case strcasecmp) k r.headers) def

  unfoldable pub set_response_header : String → String → HttpResponse → HttpResponse
  set_response_header k v r = record r {
    headers = assign (compare_no_case strcasecmp) k v r.headers;
  }

  unfoldable pub del_response_header : String → HttpResponse → HttpResponse
  del_response_header k r = record r { headers = erase (compare_no_case strcasecmp) k r.headers }

  unfoldable pub dump_response : HttpResponse → String
  dump_response r =
      "HTTP/"
      <> (version_string r.version
          <> (" "
              <> (decimal r.status
                  <> (" "
                      <> ((if is_empty r.reason then http_status_to_string r.status else r.reason)
                          <> ("\r\n"
                              <> (header_lines r.headers
                                  <> (connection_line r.close <> body_lines r.body))))))))
