-- ===== src/Http/Printing.antt =====
-- What src/HTTP/http.cpp prints of the headers.
use cpp_server_framework.Prelude.{
  ◌≡◌, refl, inl, inr, Bool, true, false, not, ◌&&◌, ◌||◌, Bool-cases, [], ◌∷◌, arith,
}
use cpp_server_framework.Http.{
  HttpMap, is_zero, compare_no_case, assign, HttpRequest, HttpResponse, header_lines, set_header,
  dump_request, dump_response, set_response_header,
}
use cpp_server_framework.Stream.{ℤ}
use Prim.Native.String.{String}

-- strcasecmp gives 0 just for strings of which neither is before the other, and what is between two
-- strings is behind the first or before the second.
pub record IsOrder (strcasecmp : String → String → ℤ) : Type 0 where
  pub equal :
      (k l : String)
      → is_zero (strcasecmp k l)
        ≡ (not (compare_no_case strcasecmp k l) && not (compare_no_case strcasecmp l k))
  pub between :
      (j k l : String)
      → (not (compare_no_case strcasecmp j l)
          || (compare_no_case strcasecmp j k || compare_no_case strcasecmp k l))
        ≡ true

module _ (strcasecmp : String → String → ℤ) (order : IsOrder strcasecmp) where
  abbrev before : String → String → Bool
  before k l = compare_no_case strcasecmp k l

  -- A string that is equal to one that is equal to a third.
  is_zero_trans :
      (j k l : String)
      → before j k ≡ false
      → before k j ≡ false
      → is_zero (strcasecmp k l) ≡ true
      → is_zero (strcasecmp j l) ≡ true
  is_zero_trans j k l jk kj same = ground (
    arith,
    jk,
    kj,
    same,
    order.equal k l,
    order.equal j l,
    order.between j k l,
    order.between l k j,
  )

  lines-assign :
      (k v : String) (m : HttpMap)
      → is_zero (strcasecmp k "connection") ≡ true
      → header_lines strcasecmp (assign before k v m) ≡ header_lines strcasecmp m
  lines-assign k v [] same = rw same refl
  lines-assign k v ((j, w) ∷ m) same = elim (Bool-cases (before j k)) [
    | inl jk ↦ elim (Bool-cases (is_zero (strcasecmp j "connection"))) [
      | inl skipped ↦ rw (jk, skipped) (lines-assign k v m same)
      | inr printed ↦ rw (jk, printed, lines-assign k v m same) refl
    ]
    | inr jk ↦ elim (Bool-cases (before k j)) [
      | inl on ↦ rw (jk, on, same) refl
      | inr off ↦
          let skipped = is_zero_trans j k "connection" jk off same in rw (jk, off, skipped) refl
    ]
  ]

  -- If strcasecmp compares by an order, setting a header whose key is "connection" in any case
  -- changes nothing in what a request or a response prints.
  pub dump-connection :
      (k v : String) (r : HttpRequest) (s : HttpResponse)
      → is_zero (strcasecmp k "connection") ≡ true
      → (dump_request strcasecmp (set_header strcasecmp k v r) ≡ dump_request strcasecmp r)
        × (dump_response strcasecmp (set_response_header strcasecmp k v s)
            ≡ dump_response strcasecmp s)
  unfolding dump_request dump_response set_header set_response_header
  dump-connection k v r s same =
      (rw (lines-assign k v r.headers same) refl, rw (lines-assign k v s.headers same) refl)
