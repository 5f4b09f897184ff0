-- ===== src/Http/Tables.antt =====
-- The names and numbers that src/HTTP/http.h and http.cpp print: methods, statuses and decimals.
use cpp_server_framework.Prelude.{
  ℕ, zero, suc, ◌/◌, ◌%◌, List, [], ◌∷◌, Option, none, some, get_elem?, ltb, ◌==◌, if◌then◌else◌,
}
use Prim.Native.String.{String, ◌++◌ as ◌<>◌}
use text.Mathlib.Text.{starts_with, ◌==◌ as ◌=s=◌}

abbrev pub method_strings : List String
method_strings =
    "DELETE" ∷ "GET" ∷ "HEAD" ∷ "POST" ∷ "PUT" ∷ "CONNECT" ∷ "OPTIONS" ∷ "TRACE" ∷ "COPY" ∷ "LOCK"
    ∷ "MKCOL" ∷ "MOVE" ∷ "PROPFIND" ∷ "PROPPATCH" ∷ "SEARCH" ∷ "UNLOCK" ∷ "BIND" ∷ "REBIND"
    ∷ "UNBIND" ∷ "ACL" ∷ "REPORT" ∷ "MKACTIVITY" ∷ "CHECKOUT" ∷ "MERGE" ∷ "M-SEARCH" ∷ "NOTIFY"
    ∷ "SUBSCRIBE" ∷ "UNSUBSCRIBE" ∷ "PATCH" ∷ "PURGE" ∷ "MKCALENDAR" ∷ "LINK" ∷ "UNLINK" ∷ "SOURCE"
    ∷ []

abbrev pub status_strings : List (ℕ × String)
status_strings =
    (100, "Continue")
    ∷ (101, "Switching Protocols")
    ∷ (102, "Processing")
    ∷ (200, "OK")
    ∷ (201, "Created")
    ∷ (202, "Accepted")
    ∷ (203, "Non-Authoritative Information")
    ∷ (204, "No Content")
    ∷ (205, "Reset Content")
    ∷ (206, "Partial Content")
    ∷ (207, "Multi-Status")
    ∷ (208, "Already Reported")
    ∷ (226, "IM Used")
    ∷ (300, "Multiple Choices")
    ∷ (301, "Moved Permanently")
    ∷ (302, "Found")
    ∷ (303, "See Other")
    ∷ (304, "Not Modified")
    ∷ (305, "Use Proxy")
    ∷ (307, "Temporary Redirect")
    ∷ (308, "Permanent Redirect")
    ∷ (400, "Bad Request")
    ∷ (401, "Unauthorized")
    ∷ (402, "Payment Required")
    ∷ (403, "Forbidden")
    ∷ (404, "Not Found")
    ∷ (405, "Method Not Allowed")
    ∷ (406, "Not Acceptable")
    ∷ (407, "Proxy Authentication Required")
    ∷ (408, "Request Timeout")
    ∷ (409, "Conflict")
    ∷ (410, "Gone")
    ∷ (411, "Length Required")
    ∷ (412, "Precondition Failed")
    ∷ (413, "Payload Too Large")
    ∷ (414, "URI Too Long")
    ∷ (415, "Unsupported Media Type")
    ∷ (416, "Range Not Satisfiable")
    ∷ (417, "Expectation Failed")
    ∷ (421, "Misdirected Request")
    ∷ (422, "Unprocessable Entity")
    ∷ (423, "Locked")
    ∷ (424, "Failed Dependency")
    ∷ (426, "Upgrade Required")
    ∷ (428, "Precondition Required")
    ∷ (429, "Too Many Requests")
    ∷ (431, "Request Header Fields Too Large")
    ∷ (451, "Unavailable For Legal Reasons")
    ∷ (500, "Internal Server Error")
    ∷ (501, "Not Implemented")
    ∷ (502, "Bad Gateway")
    ∷ (503, "Service Unavailable")
    ∷ (504, "Gateway Timeout")
    ∷ (505, "HTTP Version Not Supported")
    ∷ (506, "Variant Also Negotiates")
    ∷ (507, "Insufficient Storage")
    ∷ (508, "Loop Detected")
    ∷ (510, "Not Extended")
    ∷ (511, "Network Authentication Required")
    ∷ []

-- The comparisons with the names, in their order.
abbrev pub index_of : String → List String → ℕ
index_of s [] = 0
index_of s (t ∷ ts) = let rest = index_of s ts in if t =s= s then 0 else suc rest

unfoldable pub string_to_http_method : String → ℕ
string_to_http_method s = index_of s method_strings

-- The comparisons with strncmp, which looks only for the name in front.
abbrev pub index_of_front : String → List String → ℕ
index_of_front s [] = 0
index_of_front s (t ∷ ts) =
    let rest = index_of_front s ts in if starts_with s t then 0 else suc rest

unfoldable pub chars_to_http_method : String → ℕ
chars_to_http_method s = index_of_front s method_strings

abbrev pub or_else : Option String → String → String
or_else none other = other
or_else (some s) other = s

unfoldable pub http_method_to_string : ℕ → String
http_method_to_string m = or_else (get_elem? method_strings m) "<unknown>"

abbrev pub message_of : ℕ → List (ℕ × String) → Option String
message_of s [] = none
message_of s ((code, msg) ∷ t) = let rest = message_of s t in if code == s then some msg else rest

unfoldable pub http_status_to_string : ℕ → String
http_status_to_string s = or_else (message_of s status_strings) "<unknown>"

-- A number in decimal; 20 digits are enough for a size_t.
abbrev pub digit_strings : List String
digit_strings = "0" ∷ "1" ∷ "2" ∷ "3" ∷ "4" ∷ "5" ∷ "6" ∷ "7" ∷ "8" ∷ "9" ∷ []

abbrev pub digits : ℕ → ℕ → String
digits zero n = ""
digits (suc fuel) n =
    let rest = digits fuel (n / 10) in
    let last = or_else (get_elem? digit_strings (n % 10)) "" in
    if ltb n 10 then last else rest <> last

abbrev pub decimal : ℕ → String
decimal n = digits 20 n
