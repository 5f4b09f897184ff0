-- ===== src/Http/Session.antt =====
-- HttpSession::recvRequest of src/HTTP/http_session.cpp. The state machine of the parser is generated:
-- what it makes of some bytes is a parameter. A connection is the bytes that are to come, and what
-- each call of `read` does: it can get so many bytes, or it gives -1. The size of the buffer is taken
-- to be below 2^31.
use cpp_server_framework.Prelude.{
  ℕ, suc, ◌-◌, ◌%◌, ◌^◌, min, Bool, not, ◌&&◌, ◌||◌, Text, List, [], ◌∷◌, ◌++◌, Option, none, some,
  and_then, length, take, drop, ltb, leb, ◌==◌, if◌then◌else◌,
}

-- A call of `read`.
pub data Call : Type 0 where
  gets : ℕ → Call
  fails : Call

-- HttpRequestParser: the state after `execute` and how many bytes it parsed, `hasError`, `isFinished`
-- and `getContentLength`.
pub record Parser (S : Type 0) : Type 0 where
  pub execute : S → Text → S × ℕ
  pub has_error : S → Bool
  pub is_finished : S → Bool
  pub content_length : S → ℕ

-- `buffer` has the bytes that were read and not parsed.
pub record Head (S : Type 0) : Type 0 where
  pub parser : S
  pub buffer : Text
  pub bytes : Text
  pub calls : List Call

-- `bytes` are those that are still to come after the request.
pub record Received (S : Type 0) : Type 0 where
  pub parser : S
  pub body : Text
  pub bytes : Text
  pub calls : List Call

-- The end of a text is taken off, one byte.
abbrev pub drop_last : Text → Text
drop_last t = take (length t - 1) t

-- readFixSize into the body behind `front`: the body up to the offset, and what is left of the
-- connection. The -1 of a call is made a size_t, which `len <= 0` does not see: the offset goes
-- back by one and the bytes left are one more, so that the last byte is read over. `none` when a call
-- gives 0, when all calls are over, and when the offset goes back to before the body.
abbrev pub read_fix : Text → ℕ → Text → List Call → Option (Text × Text × List Call)
read_fix front left bytes [] = none
read_fix [] left bytes (fails ∷ calls) = none
read_fix (c ∷ front) left bytes (fails ∷ calls) =
    read_fix (drop_last (c ∷ front)) (suc left) bytes calls
read_fix front left bytes (gets n ∷ calls) =
    let len = min n left in
    let got = take len bytes in
    let rest = read_fix (front ++ got) (left - length got) (drop len bytes) calls in
    if length got == 0
    then none
    else if length got == left
    then some (front ++ got, drop len bytes, calls)
    else rest

-- What readFixSize returns for so many bytes, as an int, is positive.
abbrev pub is_positive_int : ℕ → Bool
is_positive_int length = not (length % 2 ^ 32 == 0) && ltb (length % 2 ^ 32) (2 ^ 31)

module _ {S : Type 0} (p : Parser S) where
  -- The checks after `execute`; `rest` is the next round.
  abbrev pub checked : ℕ → Head S → Option (Head S) → Option (Head S)
  checked buff_size h rest =
      if p.has_error h.parser
      then none
      else if length h.buffer == buff_size
      then none
      else if p.is_finished h.parser
      then some h
      else rest

  abbrev pub parsed : S × ℕ → Text → Text → List Call → Head S
  parsed r text bytes calls = record {
    parser = r.0;
    buffer = drop r.1 text;
    bytes = bytes;
    calls = calls;
  }

  -- The loop over the head; the state, the buffer, the bytes to come and the calls.
  abbrev pub read_head : ℕ → S → Text → Text → List Call → Option (Head S)
  read_head buff_size s buffer bytes [] = none
  read_head buff_size s buffer bytes (fails ∷ calls) = none
  read_head buff_size s buffer bytes (gets n ∷ calls) =
      let len = min n (buff_size - length buffer) in
      let text = buffer ++ take len bytes in
      let h = parsed (p.execute s text) text (drop len bytes) calls in
      let rest = read_head buff_size h.parser h.buffer h.bytes calls in
      if length (take len bytes) == 0 then none else checked buff_size h rest

  abbrev pub finish : Head S → Text × Text × List Call → Option (Received S)
  finish h r = some (record { parser = h.parser; body = r.0; bytes = r.1; calls = r.2 })

  -- The part over the body. From 2^63 on the length is negative.
  unfoldable pub read_body : Head S → Option (Received S)
  read_body h =
      let len = p.content_length h.parser in
      let left = len - length h.buffer in
      if (len == 0) || leb (2 ^ 63) len
      then finish h ([], h.bytes, h.calls)
      else if leb len (length h.buffer)
      then finish h (take len h.buffer, h.bytes, h.calls)
      else if is_positive_int left
      then and_then (read_fix h.buffer left h.bytes h.calls) (finish h)
      else none

  -- recvRequest: the new parser, the size of the buffer and the connection; `none` when it closes.
  unfoldable pub recv_request : S → ℕ → Text → List Call → Option (Received S)
  recv_request s buff_size bytes calls = and_then (read_head buff_size s [] bytes calls) read_body
