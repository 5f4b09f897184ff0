-- ===== src/Log/RoundTrip.antt =====
-- Patterns that LogFormatter::init of src/log/log.cpp reads back from their print.
use cpp_server_framework.Prelude.{
  ℕ, ◌≡◌, refl, sym, ap, ◌∙◌, Bool, true, false, not, ◌&&◌, ◌||◌, Text, bytes, List, [], ◌∷◌, ◌++◌,
  some, length, ◌==◌, map, append_assoc, append-nil, arith,
}
use cpp_server_framework.Log.{FormatItem}
use cpp_server_framework.Log.Pattern.{
  make_items, new_formatter, Part, is_alpha, is_end, read_fmt, read_conversion, flush, scan,
}

-- The pattern of a part.
abbrev pub print_part : Part → Text
print_part (Part.text s) = s
print_part (Part.conversion str []) = 37 ∷ str
print_part (Part.conversion str (c ∷ fmt)) = 37 ∷ (str ++ (123 ∷ ((c ∷ fmt) ++ (125 ∷ []))))

abbrev pub print_parts : List Part → Text
print_parts [] = []
print_parts (p ∷ ps) = print_part p ++ print_parts ps

-- No character of the text is this one.
abbrev pub is_free : ℕ → Text → Bool
is_free c [] = true
is_free c (x ∷ xs) = not (x == c) && is_free c xs

abbrev pub is_letters : Text → Bool
is_letters [] = true
is_letters (x ∷ xs) = is_alpha x && is_letters xs

abbrev pub is_filled : Text → Bool
is_filled [] = false
is_filled (x ∷ xs) = true

-- Nothing that follows a conversion could belong to it.
abbrev pub is_closed : Text → Bool
is_closed [] = true
is_closed (c ∷ cs) = is_end c

-- What may follow a part.
abbrev pub is_separate : Part → List Part → Bool
is_separate (Part.text s) [] = true
is_separate (Part.text s) (Part.text t ∷ ps) = false
is_separate (Part.text s) (Part.conversion str fmt ∷ ps) = true
is_separate (Part.conversion str []) ps = is_closed (print_parts ps)
is_separate (Part.conversion str (c ∷ fmt)) ps = true

abbrev pub is_part : Part → Bool
is_part (Part.text s) = is_filled s && is_free 37 s
is_part (Part.conversion str fmt) = is_filled str && (is_letters str && is_free 125 fmt)

abbrev pub is_clear : List Part → Bool
is_clear [] = true
is_clear (p ∷ ps) = is_part p && (is_separate p ps && is_clear ps)

read_fmt_free :
    (fmt rest : Text)
    → is_free 125 fmt ≡ true
    → read_fmt (fmt ++ (125 ∷ rest)) ≡ some (fmt, length (fmt ++ (125 ∷ [])))
read_fmt_free [] rest h = refl
read_fmt_free (c ∷ fmt) rest h =
    let other : (c == 125) ≡ false = ground (arith, h) in
    rw (read_fmt, other, read_fmt_free fmt rest (ground (arith, h))) refl

alpha_not_end :
    (c : ℕ) → is_alpha c ≡ true → (is_end c ≡ false) × ((c == 123) ≡ false) × ((c == 37) ≡ false)
alpha_not_end c h = (ground (arith, h), ground (arith, h), ground (arith, h))

read_conversion_open :
    (str fmt rest : Text)
    → is_letters str ≡ true
    → is_free 125 fmt ≡ true
    → read_conversion (str ++ (123 ∷ (fmt ++ (125 ∷ rest))))
      ≡ some (str, fmt, length (str ++ (123 ∷ (fmt ++ (125 ∷ [])))))
read_conversion_open [] fmt rest h free = rw (read_conversion, read_fmt_free fmt rest free) refl
read_conversion_open (c ∷ str) fmt rest h free =
    let e = alpha_not_end c (ground (arith, h)) in
    rw (read_conversion, e.0, e.1, read_conversion_open str fmt rest (ground (arith, h)) free) refl

read_conversion_closed :
    (str rest : Text)
    → is_letters str ≡ true
    → is_closed rest ≡ true
    → read_conversion (str ++ rest) ≡ some (str, [], length str)
read_conversion_closed [] [] h closed = refl
read_conversion_closed [] (c ∷ rest) h closed = rw (read_conversion, closed) refl
read_conversion_closed (c ∷ str) rest h closed =
    let e = alpha_not_end c (ground (arith, h)) in
    rw (read_conversion, e.0, e.1, read_conversion_closed str rest (ground (arith, h)) closed) refl

scan_passed : (xs ys nstr : Text) → scan (length xs) nstr (xs ++ ys) ≡ scan 0 nstr ys
scan_passed [] ys nstr = refl
scan_passed (x ∷ xs) ys nstr = scan_passed xs ys nstr

scan_free :
    (s rest nstr : Text) → is_free 37 s ≡ true → scan 0 nstr (s ++ rest) ≡ scan 0 (nstr ++ s) rest
scan_free [] rest nstr h = ap (λ t. scan 0 t rest) (sym (append-nil nstr))
scan_free (c ∷ s) rest nstr h =
    let other : (c == 37) ≡ false = ground (arith, h) in
    rw (scan, other)
      (scan_free s rest (nstr ++ (c ∷ [])) (ground (arith, h))
        ∙ ap (λ t. scan 0 t rest) (append_assoc nstr (c ∷ []) s))

braces_append :
    (str fmt rest : Text)
    → (str ++ (123 ∷ (fmt ++ (125 ∷ [])))) ++ rest ≡ str ++ (123 ∷ (fmt ++ (125 ∷ rest)))
braces_append str fmt rest =
    append_assoc str (123 ∷ (fmt ++ (125 ∷ []))) rest
    ∙ ap (λ t. str ++ (123 ∷ t)) (append_assoc fmt (125 ∷ []) rest)

-- What the scan does at a '%' once the conversion is read.
abbrev scanned_conversion : Text → Text → Text → Text → List Part × Bool
scanned_conversion str fmt nstr rest =
    let r = scan 0 [] rest in (flush nstr (Part.conversion str fmt ∷ r.0), r.1)

scan_read :
    (c : ℕ) (str fmt nstr tail rest : Text)
    → is_alpha c ≡ true
    → read_conversion (c ∷ (tail ++ rest)) ≡ some (c ∷ str, fmt, length (c ∷ tail))
    → scan 0 nstr (37 ∷ (c ∷ (tail ++ rest))) ≡ scanned_conversion (c ∷ str) fmt nstr rest
scan_read c str fmt nstr tail rest alpha read =
    let e = alpha_not_end c alpha in rw (scan, e.2, read, scan_passed tail rest []) refl

scan_conversion :
    (str fmt nstr rest : Text)
    → is_part (Part.conversion str fmt) ≡ true
    → is_filled fmt || is_closed rest ≡ true
    → scan 0 nstr (print_part (Part.conversion str fmt) ++ rest)
      ≡ scanned_conversion str fmt nstr rest
scan_conversion [] fmt nstr rest part follow = absurd (ground (arith, part))
scan_conversion (c ∷ str) [] nstr rest part follow =
    scan_read c str [] nstr str rest (ground (arith, part))
      (read_conversion_closed (c ∷ str) rest (ground (arith, part)) follow)
scan_conversion (c ∷ str) (d ∷ fmt) nstr rest part follow =
    scan_read c str (d ∷ fmt) nstr (str ++ (123 ∷ ((d ∷ fmt) ++ (125 ∷ [])))) rest
      (ground (arith, part))
      (ap read_conversion (braces_append (c ∷ str) (d ∷ fmt) rest)
        ∙ read_conversion_open (c ∷ str) (d ∷ fmt) rest (ground (arith, part))
            (ground (arith, part)))

is_separate_follow :
    (str fmt : Text) (ps : List Part)
    → is_separate (Part.conversion str fmt) ps ≡ true
    → is_filled fmt || is_closed (print_parts ps) ≡ true
is_separate_follow str [] ps h = h
is_separate_follow str (c ∷ fmt) ps h = refl

flush_filled : (s : Text) (ps : List Part) → is_filled s ≡ true → flush s ps ≡ Part.text s ∷ ps
flush_filled [] ps h = absurd (ground (arith, h))
flush_filled (c ∷ s) ps h = refl

scanned :
    (str fmt nstr : Text) (ps : List Part)
    → scan 0 [] (print_parts ps) ≡ (ps, false)
    → scanned_conversion str fmt nstr (print_parts ps)
      ≡ (flush nstr (Part.conversion str fmt ∷ ps), false)
scanned str fmt nstr ps e = ap (λ r. (flush nstr (Part.conversion str fmt ∷ r.0), r.1)) e

scan-print_parts : (ps : List Part) → is_clear ps ≡ true → scan 0 [] (print_parts ps) ≡ (ps, false)
scan-print_parts [] h = refl
scan-print_parts (Part.text s ∷ []) h =
    scan_free s [] [] (ground (arith, h))
    ∙ ap (λ t. (t, false)) (flush_filled s [] (ground (arith, h)))
scan-print_parts (Part.text s ∷ (Part.text t ∷ ps)) h = absurd (ground (arith, h))
scan-print_parts (Part.text s ∷ (Part.conversion str fmt ∷ ps)) h =
    scan_free s (print_parts (Part.conversion str fmt ∷ ps)) [] (ground (arith, h))
    ∙ scan_conversion str fmt s (print_parts ps) (ground (arith, h))
        (is_separate_follow str fmt ps (ground (arith, h)))
    ∙ scanned str fmt s ps (scan-print_parts ps (ground (arith, h)))
    ∙ ap (λ t. (t, false)) (flush_filled s (Part.conversion str fmt ∷ ps) (ground (arith, h)))
scan-print_parts (Part.conversion str fmt ∷ ps) h =
    scan_conversion str fmt [] (print_parts ps) (ground (arith, h))
      (is_separate_follow str fmt ps (ground (arith, h)))
    ∙ scanned str fmt [] ps (scan-print_parts ps (ground (arith, h)))

-- How an item stands in a pattern.
abbrev pub part_of : FormatItem → Part
part_of FormatItem.message = Part.conversion (bytes "m") []
part_of FormatItem.level = Part.conversion (bytes "p") []
part_of FormatItem.elapse = Part.conversion (bytes "r") []
part_of FormatItem.name = Part.conversion (bytes "c") []
part_of FormatItem.thread_id = Part.conversion (bytes "t") []
part_of FormatItem.thread_name = Part.conversion (bytes "N") []
part_of FormatItem.fiber_id = Part.conversion (bytes "F") []
part_of (FormatItem.date_time fmt) = Part.conversion (bytes "d") fmt
part_of FormatItem.filename = Part.conversion (bytes "f") []
part_of FormatItem.line = Part.conversion (bytes "l") []
part_of FormatItem.new_line = Part.conversion (bytes "n") []
part_of (FormatItem.string s) = Part.text s
part_of FormatItem.tab = Part.conversion (bytes "T") []

-- DateTimeFormatItem puts a default in the place of an empty format.
abbrev pub is_item : FormatItem → Bool
is_item (FormatItem.date_time fmt) = is_filled fmt
is_item _ = true

abbrev pub is_items : List FormatItem → Bool
is_items [] = true
is_items (i ∷ is) = is_item i && is_items is

make_items_part :
    (i : FormatItem) (is : List FormatItem)
    → is_item i ≡ true
    → make_items (map part_of is) ≡ (is, false)
    → make_items (part_of i ∷ map part_of is) ≡ (i ∷ is, false)
make_items_part FormatItem.message is h e = ap (λ r. (FormatItem.message ∷ r.0, r.1)) e
make_items_part FormatItem.level is h e = ap (λ r. (FormatItem.level ∷ r.0, r.1)) e
make_items_part FormatItem.elapse is h e = ap (λ r. (FormatItem.elapse ∷ r.0, r.1)) e
make_items_part FormatItem.name is h e = ap (λ r. (FormatItem.name ∷ r.0, r.1)) e
make_items_part FormatItem.thread_id is h e = ap (λ r. (FormatItem.thread_id ∷ r.0, r.1)) e
make_items_part FormatItem.thread_name is h e = ap (λ r. (FormatItem.thread_name ∷ r.0, r.1)) e
make_items_part FormatItem.fiber_id is h e = ap (λ r. (FormatItem.fiber_id ∷ r.0, r.1)) e
make_items_part (FormatItem.date_time []) is h e = absurd (ground (arith, h))
make_items_part (FormatItem.date_time (c ∷ fmt)) is h e =
    ap (λ r. (FormatItem.date_time (c ∷ fmt) ∷ r.0, r.1)) e
make_items_part FormatItem.filename is h e = ap (λ r. (FormatItem.filename ∷ r.0, r.1)) e
make_items_part FormatItem.line is h e = ap (λ r. (FormatItem.line ∷ r.0, r.1)) e
make_items_part FormatItem.new_line is h e = ap (λ r. (FormatItem.new_line ∷ r.0, r.1)) e
make_items_part (FormatItem.string s) is h e = ap (λ r. (FormatItem.string s ∷ r.0, r.1)) e
make_items_part FormatItem.tab is h e = ap (λ r. (FormatItem.tab ∷ r.0, r.1)) e

make_items-map :
    (is : List FormatItem) → is_items is ≡ true → make_items (map part_of is) ≡ (is, false)
make_items-map [] h = refl
make_items-map (i ∷ is) h =
    make_items_part i is (ground (arith, h)) (make_items-map is (ground (arith, h)))

abbrev pub print_items : List FormatItem → Text
print_items is = print_parts (map part_of is)

-- A pattern that is printed from format items, a text as it is, a conversion as `%` and its letter,
-- with its format in braces, is read back by `LogFormatter::init` as these items without an error,
-- if no date has an empty format or one with `}`, no text is empty, has a `%` or stands next to a
-- text, and no text after a conversion without a format begins with a letter or a brace.
pub pattern_round_trip :
    (is : List FormatItem)
    → is_items is ≡ true
    → is_clear (map part_of is) ≡ true
    → new_formatter (print_items is)
      ≡ record { pattern = print_items is; items = is; is_error = false }
unfolding new_formatter
pattern_round_trip is filled clear =
    rw (scan-print_parts (map part_of is) clear) (rw (make_items-map is filled) refl)
