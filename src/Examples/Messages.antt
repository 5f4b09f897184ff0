-- ===== src/Examples/Messages.antt =====
-- Messages of src/HTTP/http.h, and the theorem on them.
use cpp_server_framework.Prelude.{◌≡◌, refl, true, ltb, if◌then◌else◌, [], ◌∷◌, arith}
use cpp_server_framework.Http.{
  HttpRequest, HttpResponse, new_http_request, new_http_response, set_header, dump_request,
  set_response_header, dump_response,
}
use cpp_server_framework.Http.Printing.{IsOrder, dump-connection}
use cpp_server_framework.Stream.{ℤ, pos, negsuc}
use Prim.Native.String.{String, len}

-- Strings compared by their lengths.
abbrev by_length : String → String → ℤ
by_length k l =
    if ltb (len k) (len l) then negsuc 0 else if ltb (len l) (len k) then pos 1 else pos 0

by_length-IsOrder : IsOrder by_length
by_length-IsOrder = record { equal = λ k l. ground arith; between = λ j k l. ground arith }

abbrev request : HttpRequest
request = record (new_http_request 17 true) { headers = ("Host", "a") ∷ (("Accept", "b") ∷ []) }

abbrev response : HttpResponse
response = new_http_response 17 true

dump-connection_example :
    (dump_request by_length (set_header by_length "Connection" "close" request)
      ≡ dump_request by_length request)
    × (dump_response by_length (set_response_header by_length "Connection" "close" response)
        ≡ dump_response by_length response)
dump-connection_example =
    dump-connection by_length by_length-IsOrder "Connection" "close" request response refl
