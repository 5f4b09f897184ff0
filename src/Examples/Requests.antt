-- ===== src/Examples/Requests.antt =====
-- A request on a connection, for src/HTTP/http_session.cpp, and the theorem on it.
use cpp_server_framework.Prelude.{
  ◌≡◌, refl, Bool, true, false, Text, bytes, List, [], ◌∷◌, some, length, ltb, if◌then◌else◌,
}
use cpp_server_framework.Http.Session.{
  Call, gets, fails, Parser, Head, Received, read_head, read_body, recv_request,
}
use cpp_server_framework.Http.Heads.{IsHead}
use cpp_server_framework.Http.Receiving.{IsReceived, recv_request-IsReceived}

-- A head of four bytes, parsed as a whole, with a body of three.
abbrev four_bytes : Parser Bool
four_bytes = record {
  execute = λ s text. if ltb (length text) 4 then (false, 0) else (true, 4);
  has_error = λ s. false;
  is_finished = λ s. s;
  content_length = λ s. 3;
}

abbrev sent : Text
sent = bytes "GET abcNEXT"

-- The head comes in two calls, the second of which takes a byte of the body.
abbrev calls : List Call
calls = gets 2 ∷ (gets 3 ∷ (gets 1 ∷ (gets 9 ∷ [])))

abbrev received : Received Bool
received = record { parser = true; body = bytes "abc"; bytes = bytes "NEXT"; calls = [] }

is_received : recv_request four_bytes false 8 sent calls ≡ some received
unfolding recv_request read_body
is_received = refl

recv_request-IsReceived_example :
    (h : Head Bool) × ((read_head four_bytes 8 false [] sent calls ≡ some h)
      × (IsHead four_bytes sent h × IsReceived four_bytes h received))
recv_request-IsReceived_example =
    recv_request-IsReceived four_bytes false 8 sent calls received tt is_received

-- A call for the body that fails is not seen: the request has the body "bcN".
abbrev failing : List Call
failing = gets 2 ∷ (gets 3 ∷ (fails ∷ (gets 9 ∷ [])))

abbrev spoilt : Received Bool
spoilt = record { parser = true; body = bytes "bcN"; bytes = bytes "EXT"; calls = [] }

is_spoilt : recv_request four_bytes false 8 sent failing ≡ some spoilt
unfolding recv_request read_body
is_spoilt = refl
