-- ===== src/Http/Heads.antt =====
-- The loops of HttpSession::recvRequest in src/HTTP/http_session.cpp and of readFixSize: which bytes
-- they take from a connection.
use cpp_server_framework.Prelude.{
  ℕ, ◌-◌, ◌≤◌, min, ◌≡◌, ◌⊎◌, refl, sym, ap, ◌∙◌, inl, inr, Bool, true, false, Bool-cases, Text,
  List, [], ◌∷◌, ◌++◌, Option, none, some, IfSome, IfSome-map, length, take, drop, length-append,
  length-take, take-append-drop, append_assoc, ◌==◌, if◌then◌else◌, arith,
}
use cpp_server_framework.Http.Session.{
  Call, gets, fails, Parser, Head, checked, parsed, read_head, read_fix,
}

-- No call fails.
abbrev pub AreGets : List Call → Type 0
AreGets [] = Unit
AreGets (gets n ∷ calls) = AreGets calls
AreGets (fails ∷ calls) = ⊥

-- Exactly the bytes asked for, behind those in front.
abbrev pub IsFix : Text → ℕ → Text → Text × Text × List Call → Type 0
IsFix front left bytes r =
    (got : Text) × ((r.0 ≡ front ++ got) × (bytes ≡ got ++ r.1) × (length got ≡ left))

IsFix-more :
    (front got later : Text) (left : ℕ) (bytes : Text) (r : Text × Text × List Call)
    → bytes ≡ got ++ later
    → length got ≤ left
    → IsFix (front ++ got) (left - length got) later r
    → IsFix front left bytes r
IsFix-more front got later left bytes r parts short h = (
  got ++ h.0,
  (
    h.1.0 ∙ append_assoc front got h.0,
    parts ∙ ap (λ t. got ++ t) h.1.1 ∙ sym (append_assoc got h.0 r.1),
    length-append got h.0 ∙ omega (arith, h.1.2, short),
  ),
)

pub read_fix-IsFix :
    (front : Text) (left : ℕ) (bytes : Text) (calls : List Call)
    → AreGets calls
    → IfSome (IsFix front left bytes) (read_fix front left bytes calls)
read_fix-IsFix front left bytes [] well = tt
read_fix-IsFix front left bytes (fails ∷ calls) well = absurd well
read_fix-IsFix front left bytes (gets n ∷ calls) well =
    by_tests (length got == 0) (Bool-cases (length got == left))
      (read_fix-IsFix (front ++ got) (left - length got) later calls well)
  where
    got : Text
    got = take (min n left) bytes

    later : Text
    later = drop (min n left) bytes

    rest : Option (Text × Text × List Call)
    rest = read_fix (front ++ got) (left - length got) later calls

    short : length got ≤ left
    short = omega (arith, length-take (min n left) bytes)

    parts : bytes ≡ got ++ later
    parts = sym (take-append-drop (min n left) bytes)

    by_tests :
        (b : Bool)
        → (((length got == left) ≡ true) ⊎ ((length got == left) ≡ false))
        → IfSome (IsFix (front ++ got) (left - length got) later) rest
        → IfSome (IsFix front left bytes) (
            if b
            then none
            else if length got == left
            then some (front ++ got, later, calls)
            else rest)
    by_tests true c more = tt
    by_tests false (inl all) more =
        let e : length got ≡ left = ground (arith, all) in rw all (got, (refl, parts, e))
    by_tests false (inr some_left) more = rw some_left (
        IfSome-map (IsFix (front ++ got) (left - length got) later) (IsFix front left bytes) rest
          (λ r h. IsFix-more front got later left bytes r parts short h) more)

module _ {S : Type 0} (p : Parser S) where
  -- The bytes are those of the head, then those in the buffer, then those to come; no call to come
  -- fails.
  abbrev pub IsHead : Text → Head S → Type 0
  IsHead bytes h = ((head : Text) × (bytes ≡ head ++ (h.buffer ++ h.bytes))) × AreGets h.calls

  checked-IfSome :
      (P : Head S → Type 0) (buff_size : ℕ) (h : Head S) (rest : Option (Head S))
      → P h
      → IfSome P rest
      → IfSome P (checked p buff_size h rest)
  checked-IfSome P buff_size h rest one more =
      by_tests (p.has_error h.parser) (length h.buffer == buff_size) (p.is_finished h.parser)
    where
      by_tests :
          (a b c : Bool)
          → IfSome P (if a then none else if b then none else if c then some h else rest)
      by_tests true b c = tt
      by_tests false true c = tt
      by_tests false false true = one
      by_tests false false false = more

  pub read_head-IsHead :
      (buff_size : ℕ) (s : S) (buffer bytes : Text) (calls : List Call)
      → AreGets calls
      → IfSome (IsHead (buffer ++ bytes)) (read_head p buff_size s buffer bytes calls)
  read_head-IsHead buff_size s buffer bytes [] well = tt
  read_head-IsHead buff_size s buffer bytes (fails ∷ calls) well = absurd well
  read_head-IsHead buff_size s buffer bytes (gets n ∷ calls) well =
      by_test (length got == 0) (read_head-IsHead buff_size h.parser h.buffer h.bytes calls well)
    where
      len : ℕ
      len = min n (buff_size - length buffer)

      got : Text
      got = take len bytes

      later : Text
      later = drop len bytes

      text : Text
      text = buffer ++ got

      r : S × ℕ
      r = p.execute s text

      h : Head S
      h = parsed p r text later calls

      parts : buffer ++ bytes ≡ take r.1 text ++ (h.buffer ++ h.bytes)
      parts =
          ap (λ t. buffer ++ t) (sym (take-append-drop len bytes))
          ∙ sym (append_assoc buffer got later)
          ∙ ap (λ t. t ++ later) (sym (take-append-drop r.1 text))
          ∙ append_assoc (take r.1 text) h.buffer later

      rest : Option (Head S)
      rest = read_head p buff_size h.parser h.buffer h.bytes calls

      by_test :
          (b : Bool)
          → IfSome (IsHead (h.buffer ++ h.bytes)) rest
          → IfSome (IsHead (buffer ++ bytes)) (if b then none else checked p buff_size h rest)
      by_test true more = tt
      by_test false more =
          checked-IfSome (IsHead (buffer ++ bytes)) buff_size h rest ((take r.1 text, parts), well)
            (IfSome-map (IsHead (h.buffer ++ h.bytes)) (IsHead (buffer ++ bytes)) rest
              (λ g e. (
                (
                  take r.1 text ++ e.0.0,
                  parts
                      ∙ ap (λ t. take r.1 text ++ t) e.0.1
                      ∙ sym (append_assoc (take r.1 text) e.0.0 (g.buffer ++ g.bytes)),
                ),
                e.1,
              ))
              more)
