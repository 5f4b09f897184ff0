-- ===== src/Http/Receiving.antt =====
-- Where the bytes of a connection go in HttpSession::recvRequest of src/HTTP/http_session.cpp.
use cpp_server_framework.Prelude.{
  ℕ, ◌-◌, ◌^◌, ◌≤◌, ◌<◌, ◌≡◌, ◌⊎◌, refl, sym, ap, ◌∙◌, inl, inr, true, false, ◌||◌, Bool-cases,
  Text, List, [], ◌++◌, Option, none, some, and_then, IfSome, IfSome-and_then, if_some_at,
  take-append, take_all, take-append_more, drop-append_more, length, take, drop, leb, length-append,
  length-take, ◌==◌, if◌then◌else◌, arith,
}
use cpp_server_framework.Http.Session.{
  Call, Parser, Head, Received, is_positive_int, read_head, read_fix, finish, read_body,
  recv_request,
}
use cpp_server_framework.Http.Heads.{AreGets, IsFix, read_fix-IsFix, IsHead, read_head-IsHead}

module _ {S : Type 0} (p : Parser S) where
  -- The length of the body.
  abbrev pub body_length : S → ℕ
  body_length s = if leb (2 ^ 63) (p.content_length s) then 0 else p.content_length s

  -- The body is what follows the head, and what is left follows the body and the buffer.
  pub record IsReceived (h : Head S) (r : Received S) : Type 0 where
    pub parser : r.parser ≡ h.parser
    pub body : r.body ≡ take (body_length h.parser) (h.buffer ++ h.bytes)
    pub exact : length r.body ≡ body_length h.parser
    pub left : r.bytes ≡ drop (body_length h.parser - length h.buffer) h.bytes

  body_length_zero :
      (len : ℕ) → (len == 0) || leb (2 ^ 63) len ≡ true → (if leb (2 ^ 63) len then 0 else len) ≡ 0
  body_length_zero len on = elim (Bool-cases (leb (2 ^ 63) len)) [
    | inl negative ↦ rw negative refl
    | inr small ↦ let zero_len : len ≡ 0 = ground (arith, on, small) in rw small zero_len
  ]

  body_length_some :
      (len : ℕ)
      → (len == 0) || leb (2 ^ 63) len ≡ false
      → (if leb (2 ^ 63) len then 0 else len) ≡ len
  body_length_some len off =
      let small : leb (2 ^ 63) len ≡ false = ground (arith, off) in rw small refl

  fix-IsReceived :
      (h : Head S) (r : Text × Text × List Call)
      → length h.buffer ≤ body_length h.parser
      → IsFix h.buffer (body_length h.parser - length h.buffer) h.bytes r
      → IfSome (IsReceived h) (finish p h r)
  fix-IsReceived h r more (got, (placed, parts, all)) =
      let n = body_length h.parser in
      let k = n - length h.buffer in
      record {
        parser = refl;
        body =
            placed
            ∙ ap (λ t. h.buffer ++ t)
                (sym (take_all k got (omega (arith, all)))
                  ∙ sym (take-append k got r.1 (omega (arith, all)))
                  ∙ ap (take k) (sym parts))
            ∙ sym (take-append_more n k h.buffer h.bytes (omega (arith, more)));
        exact = ap length placed ∙ length-append h.buffer got ∙ omega (arith, all, more);
        left = sym (drop-append_more k 0 got r.1 (omega (arith, all))) ∙ ap (drop k) (sym parts);
      }

  read_body-IsReceived : (h : Head S) → AreGets h.calls → IfSome (IsReceived h) (read_body p h)
  unfolding read_body
  read_body-IsReceived h well =
      by_tests (Bool-cases ((len == 0) || leb (2 ^ 63) len))
        (Bool-cases (leb len (length h.buffer))) (Bool-cases (is_positive_int left))
    where
      len : ℕ
      len = p.content_length h.parser

      left : ℕ
      left = len - length h.buffer

      by_tests :
          (((len == 0) || leb (2 ^ 63) len ≡ true) ⊎ ((len == 0) || leb (2 ^ 63) len ≡ false))
          → ((leb len (length h.buffer) ≡ true) ⊎ (leb len (length h.buffer) ≡ false))
          → ((is_positive_int left ≡ true) ⊎ (is_positive_int left ≡ false))
          → IfSome (IsReceived h) (
              if (len == 0) || leb (2 ^ 63) len
              then finish p h ([], h.bytes, h.calls)
              else if leb len (length h.buffer)
              then finish p h (take len h.buffer, h.bytes, h.calls)
              else if is_positive_int left
              then and_then (read_fix h.buffer left h.bytes h.calls) (finish p h)
              else none)
      by_tests (inl on) c d =
          let e : body_length h.parser ≡ 0 = body_length_zero len on in
          let zero_left : body_length h.parser - length h.buffer ≡ 0 = omega (arith, e) in
          rw on (record {
            parser = refl;
            body = ap (λ n. take n (h.buffer ++ h.bytes)) (sym e);
            exact = sym e;
            left = ap (λ n. drop n h.bytes) (sym zero_left);
          })
      by_tests (inr off) (inl fits) c =
          let e : body_length h.parser ≡ len = body_length_some len off in
          let le : len ≤ length h.buffer = ground (arith, fits) in
          let d : body_length h.parser - length h.buffer ≡ 0 = omega (arith, e, le) in
          rw (off, fits)
            (record {
              parser = refl;
              body =
                  sym (take-append len h.buffer h.bytes le)
                  ∙ ap (λ n. take n (h.buffer ++ h.bytes)) (sym e);
              exact = omega (arith, length-take len h.buffer, e, le);
              left = ap (λ n. drop n h.bytes) (sym d);
            })
      by_tests (inr off) (inr lacks) (inl positive) =
          let e : body_length h.parser ≡ len = body_length_some len off in
          let less : length h.buffer < len = ground (arith, lacks) in
          let same : left ≡ body_length h.parser - length h.buffer =
            ap (λ n. n - length h.buffer) (sym e) in
          rw (off, lacks, positive)
            (IfSome-and_then (IsFix h.buffer left h.bytes) (IsReceived h)
              (read_fix h.buffer left h.bytes h.calls) (finish p h)
              (read_fix-IsFix h.buffer left h.bytes h.calls well)
              (λ r fix.
                fix-IsReceived h r (omega (arith, e, less))
                  (fix.0, (fix.1.0, fix.1.1, fix.1.2 ∙ same))))
      by_tests (inr off) (inr lacks) (inr negative) = rw (off, lacks, negative) tt

  -- If no call of `read` fails and `recvRequest` gives a request, the loop over the head has ended,
  -- and the bytes of the connection are those that the parser took, those left in the buffer and
  -- those not read yet; the body is the first of the latter two, as many as the content length
  -- says, or none if that is 2^63 or more, and the connection goes on after the body and after the
  -- buffer, so that bytes in the buffer behind the body are lost.
  pub recv_request-IsReceived :
      (s : S) (buff_size : ℕ) (bytes : Text) (calls : List Call) (r : Received S)
      → AreGets calls
      → recv_request p s buff_size bytes calls ≡ some r
      → (h : Head S) × ((read_head p buff_size s [] bytes calls ≡ some h)
          × (IsHead p bytes h × IsReceived h r))
  unfolding recv_request
  recv_request-IsReceived s buff_size bytes calls r well done =
      found (read_head p buff_size s [] bytes calls) refl done
    where
      found :
          (o : Option (Head S))
          → read_head p buff_size s [] bytes calls ≡ o
          → and_then o (read_body p) ≡ some r
          → (h : Head S) × ((read_head p buff_size s [] bytes calls ≡ some h)
              × (IsHead p bytes h × IsReceived h r))
      found none e done = absurd (ground (arith, done))
      found (some h) e done =
          let head =
            if_some_at (IsHead p bytes) (read_head p buff_size s [] bytes calls) h e
              (read_head-IsHead p buff_size s [] bytes calls well) in
          (
            h,
            (
              e,
              (
                head,
                if_some_at (IsReceived h) (read_body p h) r done (read_body-IsReceived h head.1),
              ),
            ),
          )
