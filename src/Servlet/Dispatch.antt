-- ===== src/Servlet/Dispatch.antt =====
-- Which servlet src/servlet/servlet.cpp finds for a uri when servlets are added and deleted.
use cpp_server_framework.Prelude.{
  ℕ, ◌≡◌, refl, sym, ap, ◌∙◌, inl, inr, Bool, true, false, not, ◌&&◌, Bool-cases, [], ◌∷◌, ◌++◌,
  Option, none, some, is_text, is_text_trans, is_text_sym, is_text_cong, if_text_swap,
  if◌then◌else◌, arith,
}
use cpp_server_framework.Servlet.{
  Uri, Table, find, assign, erase_first, ServletDispatch, add_matched_servlet, add_fuzzy_servlet,
  del_matched_servlet, del_fuzzy_servlet, or_else, get_matched_servlet, get_fuzzy_servlet,
  find_match, get_servlet,
}

-- No two entries have the same uri.
abbrev pub is_fresh : Uri → Table → Bool
is_fresh u [] = true
is_fresh u ((k, slt) ∷ t) = not (is_text k u) && is_fresh u t

abbrev pub is_distinct : Table → Bool
is_distinct [] = true
is_distinct ((k, slt) ∷ t) = is_fresh k t && is_distinct t

find_fresh : (k v : Uri) (t : Table) → is_fresh k t ≡ true → is_text k v ≡ true → find v t ≡ none
find_fresh k v [] fresh on = refl
find_fresh k v ((j, slt) ∷ t) fresh on =
    let off : is_text j k ≡ false = ground (arith, fresh) in
    let off' : is_text j v ≡ false = sym (is_text_cong k v j on) ∙ off in
    rw off' (find_fresh k v t (ground (arith, fresh)) on)

find-assign :
    (u v : Uri) (slt : Option ℕ) (t : Table)
    → find v (assign u slt t) ≡ (if is_text u v then some slt else find v t)
find-assign u v slt [] = refl
find-assign u v slt ((k, old) ∷ t) = elim (Bool-cases (is_text k u)) [
  | inl same ↦
      let e = is_text_trans k u v same in
      rw same
        (elim (Bool-cases (is_text u v)) [ inl on ↦ rw (e, on) refl | inr off ↦ rw (e, off) refl ])
  | inr other ↦
      rw other
        (rw (find-assign u v slt t) (if_text_swap k u v (some old) (some slt) (find v t) other))
]

find-erase_first :
    (u v : Uri) (t : Table)
    → is_distinct t ≡ true
    → find v (erase_first u t) ≡ (if is_text u v then none else find v t)
find-erase_first u v [] d = elim (Bool-cases (is_text u v)) [
  | inl on ↦ rw on refl
  | inr off ↦ rw off refl
]
find-erase_first u v ((k, slt) ∷ t) d = elim (Bool-cases (is_text k u)) [
  | inl same ↦
      let e = is_text_trans k u v same in
      rw same (elim (Bool-cases (is_text u v)) [
        | inl on ↦ rw on (find_fresh k v t (ground (arith, d)) (e ∙ on))
        | inr off ↦ rw (off, e, off) refl
      ])
  | inr other ↦ rw other (
      rw (find-erase_first u v t (ground (arith, d)))
        (if_text_swap k u v (some slt) none (find v t) other))
]

find-append :
    (u v : Uri) (slt : Option ℕ) (t : Table)
    → is_fresh u t ≡ true
    → find v (t ++ ((u, slt) ∷ [])) ≡ (if is_text u v then some slt else find v t)
find-append u v slt [] fresh = refl
find-append u v slt ((k, old) ∷ t) fresh =
    rw (find-append u v slt t (ground (arith, fresh)))
      (if_text_swap k u v (some old) (some slt) (find v t) (ground (arith, fresh)))

fresh-erase_first :
    (w u : Uri) (t : Table) → is_fresh w t ≡ true → is_fresh w (erase_first u t) ≡ true
fresh-erase_first w u [] fresh = refl
fresh-erase_first w u ((k, slt) ∷ t) fresh = elim (Bool-cases (is_text k u)) [
  | inl same ↦ rw same (ground (arith, fresh))
  | inr other ↦ rw other (ground (arith, fresh, fresh-erase_first w u t (ground (arith, fresh))))
]

erased-fresh : (u : Uri) (t : Table) → is_distinct t ≡ true → is_fresh u (erase_first u t) ≡ true
erased-fresh u [] d = refl
erased-fresh u ((k, slt) ∷ t) d = elim (Bool-cases (is_text k u)) [
  | inl same ↦ rw same (fresh-same k u t same (ground (arith, d)))
  | inr other ↦ rw other (rw other (erased-fresh u t (ground (arith, d))))
]
  where
    fresh-same :
        (k u : Uri) (t : Table) → is_text k u ≡ true → is_fresh k t ≡ true → is_fresh u t ≡ true
    fresh-same k u [] same fresh = refl
    fresh-same k u ((j, slt) ∷ t) same fresh =
        let e = is_text_cong k u j same in
        ground (arith, e, fresh, fresh-same k u t same (ground (arith, fresh)))

distinct-erase_first :
    (u : Uri) (t : Table) → is_distinct t ≡ true → is_distinct (erase_first u t) ≡ true
distinct-erase_first u [] d = refl
distinct-erase_first u ((k, slt) ∷ t) d = elim (Bool-cases (is_text k u)) [
  | inl same ↦ rw same (ground (arith, d))
  | inr other ↦ rw other (
      ground (
        arith,
        fresh-erase_first k u t (ground (arith, d)),
        distinct-erase_first u t (ground (arith, d)),
      ))
]

fresh-append :
    (w u : Uri) (slt : Option ℕ) (t : Table)
    → is_fresh w (t ++ ((u, slt) ∷ [])) ≡ (is_fresh w t && not (is_text u w))
fresh-append w u slt [] = ground arith
fresh-append w u slt ((k, old) ∷ t) = ground (arith, fresh-append w u slt t)

distinct-append :
    (u : Uri) (slt : Option ℕ) (t : Table)
    → is_distinct t ≡ true
    → is_fresh u t ≡ true
    → is_distinct (t ++ ((u, slt) ∷ [])) ≡ true
distinct-append u slt [] d fresh = refl
distinct-append u slt ((k, old) ∷ t) d fresh = ground (
  arith,
  fresh-append k u slt t,
  is_text_sym u k,
  fresh,
  d,
  distinct-append u slt t (ground (arith, d)) (ground (arith, fresh)),
)

fresh-assign :
    (w u : Uri) (slt : Option ℕ) (t : Table)
    → is_fresh w t ≡ true
    → is_text u w ≡ false
    → is_fresh w (assign u slt t) ≡ true
fresh-assign w u slt [] fresh other = ground (arith, other)
fresh-assign w u slt ((k, old) ∷ t) fresh other = elim (Bool-cases (is_text k u)) [
  | inl same ↦ rw same (ground (arith, fresh))
  | inr differs ↦
      rw differs (ground (arith, fresh, fresh-assign w u slt t (ground (arith, fresh)) other))
]

distinct-assign :
    (u : Uri) (slt : Option ℕ) (t : Table)
    → is_distinct t ≡ true
    → is_distinct (assign u slt t) ≡ true
distinct-assign u slt [] d = refl
distinct-assign u slt ((k, old) ∷ t) d = elim (Bool-cases (is_text k u)) [
  | inl same ↦ rw same d
  | inr other ↦ rw other (
      ground (
        arith,
        fresh-assign k u slt t (ground (arith, d)) (is_text_sym u k ∙ other),
        distinct-assign u slt t (ground (arith, d)),
      ))
]

pub record IsDistinct (d : ServletDispatch) : Type 0 where
  pub exact : is_distinct d.datas ≡ true
  pub patterns : is_distinct d.fuzzy ≡ true

or_else-if :
    (b : Bool) (x y : Option (Option ℕ)) (o : Option ℕ)
    → or_else (if b then x else y) o ≡ (if b then or_else x o else or_else y o)
or_else-if true x y o = refl
or_else-if false x y o = refl

-- If no uri stands twice in a table of the dispatcher, this holds after each of the four operations
-- that add or delete a servlet; the exact table and the list of patterns then behave as maps from
-- uris to servlets, in which the operation changes just the entry of its uri.
pub servlets-IsDistinct :
    (d : ServletDispatch) (u v : Uri) (slt : Option ℕ)
    → IsDistinct d
    → (IsDistinct (add_matched_servlet u slt d) × IsDistinct (del_matched_servlet u d))
      × (IsDistinct (add_fuzzy_servlet u slt d) × IsDistinct (del_fuzzy_servlet u d))
      × (get_matched_servlet v (add_matched_servlet u slt d)
          ≡ (if is_text u v then slt else get_matched_servlet v d))
      × (get_matched_servlet v (del_matched_servlet u d)
          ≡ (if is_text u v then none else get_matched_servlet v d))
      × (get_fuzzy_servlet v (add_fuzzy_servlet u slt d)
          ≡ (if is_text u v then slt else get_fuzzy_servlet v d))
      × (get_fuzzy_servlet v (del_fuzzy_servlet u d)
          ≡ (if is_text u v then none else get_fuzzy_servlet v d))
unfolding add_matched_servlet del_matched_servlet add_fuzzy_servlet del_fuzzy_servlet
    get_matched_servlet get_fuzzy_servlet
servlets-IsDistinct d u v slt h =
    let gone = erased-fresh u d.fuzzy h.patterns in
    let left = distinct-erase_first u d.fuzzy h.patterns in
    (
      (
        record { exact = distinct-assign u slt d.datas h.exact; patterns = h.patterns },
        record { exact = distinct-erase_first u d.datas h.exact; patterns = h.patterns },
      ),
      (
        record {
          exact = h.exact;
          patterns = distinct-append u slt (erase_first u d.fuzzy) left gone;
        },
        record { exact = h.exact; patterns = left },
      ),
      ap (λ o. or_else o none) (find-assign u v slt d.datas)
          ∙ or_else-if (is_text u v) (some slt) (find v d.datas) none,
      ap (λ o. or_else o none) (find-erase_first u v d.datas h.exact)
          ∙ or_else-if (is_text u v) none (find v d.datas) none,
      ap (λ o. or_else o none)
            (find-append u v slt (erase_first u d.fuzzy) gone
              ∙ ap (λ o. if is_text u v then some slt else o)
                  (find-erase_first u v d.fuzzy h.patterns)
              ∙ if-if (is_text u v) (some slt) (find v d.fuzzy))
          ∙ or_else-if (is_text u v) (some slt) (find v d.fuzzy) none,
      ap (λ o. or_else o none) (find-erase_first u v d.fuzzy h.patterns)
          ∙ or_else-if (is_text u v) none (find v d.fuzzy) none,
    )
  where
    if-if :
        (b : Bool) (x y : Option (Option ℕ))
        → (if b then x else (if b then none else y)) ≡ (if b then x else y)
    if-if true x y = refl
    if-if false x y = refl

module _ (fnmatch : Uri → Uri → Bool) where
  find_match-append :
      (u v : Uri) (slt other : Option ℕ) (t : Table)
      → or_else (find_match fnmatch v (t ++ ((u, slt) ∷ []))) other
        ≡ or_else (find_match fnmatch v t) (if fnmatch u v then slt else other)
  find_match-append u v slt other [] = elim (Bool-cases (fnmatch u v)) [
    | inl on ↦ rw on refl
    | inr off ↦ rw off refl
  ]
  find_match-append u v slt other ((k, old) ∷ t) = elim (Bool-cases (fnmatch k v)) [
    | inl on ↦ rw on refl
    | inr off ↦ rw off (find_match-append u v slt other t)
  ]

  -- After `addMatchedServlet` `getServlet` gives that servlet for just its uri, and for another uri
  -- what it gave before; after `addFuzzyServlet` it gives what it would give without the earlier
  -- entry of the pattern and, where the pattern matches, with the new servlet for the default one:
  -- an exact entry and all other patterns come first.
  pub get_servlet_added :
      (d : ServletDispatch) (u v : Uri) (slt : Option ℕ)
      → (get_servlet fnmatch v (add_matched_servlet u slt d)
          ≡ (if is_text u v then slt else get_servlet fnmatch v d))
        × (get_servlet fnmatch v (add_fuzzy_servlet u slt d)
            ≡ get_servlet fnmatch v (record d {
              fuzzy = erase_first u d.fuzzy;
              default_servlet = if fnmatch u v then slt else d.default_servlet;
            }))
  unfolding get_servlet add_matched_servlet add_fuzzy_servlet
  get_servlet_added d u v slt =
      let last = or_else (find_match fnmatch v d.fuzzy) d.default_servlet in
      (
        ap (λ o. or_else o last) (find-assign u v slt d.datas)
            ∙ or_else-if (is_text u v) (some slt) (find v d.datas) last,
        ap (or_else (find v d.datas))
            (find_match-append u v slt d.default_servlet (erase_first u d.fuzzy)),
      )
