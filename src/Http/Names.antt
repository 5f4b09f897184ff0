-- ===== src/Http/Names.antt =====
-- The names of the methods in src/HTTP/http.cpp.
use cpp_server_framework.Prelude.{
  ℕ, zero, suc, ◌<◌, ◌≡◌, refl, ap, ◌⊎◌, inl, inr, Bool, true, ◌&&◌, Bool-cases, List, [], ◌∷◌,
  get_elem?, length, ◌==◌, arith, ℕ_discrete,
}
use cpp_server_framework.Http.Tables.{
  chars_to_http_method, method_strings, index_of, or_else, string_to_http_method,
  http_method_to_string,
}
use Prim.Native.String.{String}
use text.Mathlib.Text.{◌==◌ as ◌=s=◌}
use text.Mathlib.TextEquality.{eq_iff}

-- The numbers below n come back from their names.
abbrev come_back : ℕ → Bool
come_back zero = true
come_back (suc n) =
    (string_to_http_method (http_method_to_string n) == n)
    && ((chars_to_http_method (http_method_to_string n) == n) && come_back n)

come_back-lem :
    (n m : ℕ)
    → come_back n ≡ true
    → m < n
    → (string_to_http_method (http_method_to_string m) ≡ m)
      × (chars_to_http_method (http_method_to_string m) ≡ m)
come_back-lem zero m all h = absurd (omega (arith, h))
come_back-lem (suc n) m all h = elim (ℕ_discrete m n) [
  | yes last ↦ rw last (ground (arith, all), ground (arith, all))
  | no less ↦ come_back-lem n m (ground (arith, all)) (omega (arith, h, less))
]

index_of_found :
    (s : String) (ts : List String)
    → (index_of s ts ≡ length ts) ⊎ (or_else (get_elem? ts (index_of s ts)) "<unknown>" ≡ s)
index_of_found s [] = inl refl
index_of_found s (t ∷ ts) = elim (Bool-cases (t =s= s)) [
  | inl same ↦ inr (rw same ((eq_iff t s).0 same))
  | inr other ↦ elim (index_of_found s ts) [
    | inl past ↦ inl (rw other (ap suc past))
    | inr found ↦ inr (rw other found)
  ]
]

-- The name of each of the 34 methods is read back as that method by both readers, and a std::string
-- that is read as a method is the name of that method.
pub method_round_trip :
    (m : ℕ) (s : String)
    → m < 34
    → (string_to_http_method (http_method_to_string m) ≡ m)
      × (chars_to_http_method (http_method_to_string m) ≡ m)
      × ((string_to_http_method s ≡ 34) ⊎ (http_method_to_string (string_to_http_method s) ≡ s))
unfolding string_to_http_method http_method_to_string chars_to_http_method
method_round_trip m s h =
    let both = come_back-lem 34 m refl h in (both.0, both.1, index_of_found s method_strings)
