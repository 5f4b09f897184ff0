-- ===== src/Log/Formatters.antt =====
-- That the appenders of the loggers in src/log/log.cpp have formatters, which `log` follows.
use cpp_server_framework.Prelude.{
  is_some, and_then, ℕ, ◌<◌, ◌≤◌, ◌≡◌, refl, ap, ◌∙◌, inl, inr, Bool, true, false, Bool-cases, Text,
  List, [], ◌∷◌, ◌++◌, Option, none, some, All, ◌==◌, if◌then◌else◌, arith,
}
use cpp_server_framework.Log.{Level, LogEvent, format}
use cpp_server_framework.Log.Pattern.{LogFormatter, new_formatter}
use cpp_server_framework.Log.Loggers.{
  LogAppender, Logger, Store, put, with_default, add_appender, erase, del_appender, clear_appenders,
  inherit, inherit_all, set_formatter, set_pattern, is_at_least, write_event, log_appender, log_all,
  log_logger, write_sink,
}

-- The appenders below a bound that have a formatter in the first store have one in the second.
abbrev pub Keeps : ℕ → Store → Store → Type 0
Keeps n s t = (j : ℕ) → j < n → is_some (s j).formatter ≡ true → is_some (t j).formatter ≡ true

-- These appenders are made, and have a formatter.
abbrev pub IsReady : ℕ → Store → List ℕ → Type 0
IsReady n s is = All (λ i. (i < n) × (is_some (s i).formatter ≡ true)) is

pub Keeps-more : (n k : ℕ) (s t : Store) → k ≤ n → Keeps n s t → Keeps k s t
Keeps-more n k s t le keep j h some_j = keep j (omega arith) some_j

pub Keeps-put :
    (n i : ℕ) (a : LogAppender) (s : Store) → is_some a.formatter ≡ true → Keeps n s (put i a s)
Keeps-put n i a s h j less some_j = elim (Bool-cases (i == j)) [
  | inl same ↦ rw same h
  | inr other ↦ rw other some_j
]

pub Keeps-put_new : (n : ℕ) (a : LogAppender) (s : Store) → Keeps n s (put n a s)
Keeps-put_new n a s j less some_j = let other : (n == j) ≡ false = ground arith in rw other some_j

pub IsReady-Keeps :
    (n k : ℕ) (s t : Store) (is : List ℕ) → n ≤ k → Keeps n s t → IsReady n s is → IsReady k t is
IsReady-Keeps n k s t [] le keep h = h
IsReady-Keeps n k s t (i ∷ is) le keep h =
    ((omega (arith, h.0.0), keep i h.0.0 h.0.1), IsReady-Keeps n k s t is le keep h.1)

IsReady-append :
    (n i : ℕ) (s : Store) (is : List ℕ)
    → IsReady n s is
    → i < n
    → is_some (s i).formatter ≡ true
    → IsReady n s (is ++ (i ∷ []))
IsReady-append n i s [] h less has = ((less, has), tt)
IsReady-append n i s (j ∷ is) h less has = (h.0, IsReady-append n i s is h.1 less has)

IsReady-erase : (n i : ℕ) (s : Store) (is : List ℕ) → IsReady n s is → IsReady n s (erase i is)
IsReady-erase n i s [] h = h
IsReady-erase n i s (j ∷ is) h = elim (Bool-cases (j == i)) [
  | inl same ↦ rw same h.1
  | inr other ↦ rw other (h.0, IsReady-erase n i s is h.1)
]

with_default_some :
    (f : Option LogFormatter) (a : LogAppender)
    → is_some f ≡ true
    → is_some (with_default f a).formatter ≡ true
with_default_some f a formatted = elim (Bool-cases (is_some a.formatter)) [
  | inl has ↦ rw (has, has) refl
  | inr lacks ↦ rw lacks formatted
]

put_same : (i : ℕ) (a : LogAppender) (s : Store) → put i a s i ≡ a
put_same i a s = let same : (i == i) ≡ true = ground arith in rw same refl

inherit_some :
    (f : Option LogFormatter) (a : LogAppender)
    → is_some f ≡ true
    → is_some a.formatter ≡ true
    → is_some (inherit f a).formatter ≡ true
inherit_some f a formatted h = elim (Bool-cases a.has_formatter) [
  | inl own ↦ rw (own, h) refl
  | inr shared ↦ rw shared formatted
]

inherit_all-Keeps :
    (n : ℕ) (f : Option LogFormatter) (is : List ℕ) (s : Store)
    → is_some f ≡ true
    → IsReady n s is
    → Keeps n s (inherit_all f is s)
inherit_all-Keeps n f [] s formatted h j less some_j = some_j
inherit_all-Keeps n f (i ∷ is) s formatted h j less some_j =
    let keep : Keeps n s (put i (inherit f (s i)) s) =
      Keeps-put n i (inherit f (s i)) s (inherit_some f (s i) formatted h.0.1) in
    inherit_all-Keeps n f is (put i (inherit f (s i)) s) formatted
      (IsReady-Keeps n n s (put i (inherit f (s i)) s) is (omega arith) keep h.1) j less
      (keep j less some_j)

-- An operation on a logger keeps the formatters, and those of the appenders it leaves.
abbrev pub IsStep : ℕ → Store → Logger × Store → Type 0
IsStep n s r = Keeps n s r.1 × IsReady n r.1 r.0.appenders

pub set_formatter-IsStep :
    (n : ℕ) (f : Option LogFormatter) (l : Logger) (s : Store)
    → is_some f ≡ true
    → IsReady n s l.appenders
    → IsStep n s (set_formatter f (l, s))
unfolding set_formatter
set_formatter-IsStep n f l s formatted h =
    let keep = inherit_all-Keeps n f l.appenders s formatted h in
    (keep, IsReady-Keeps n n s (inherit_all f l.appenders s) l.appenders (omega arith) keep h)

pub set_pattern-IsStep :
    (n : ℕ) (p : Text) (l : Logger) (s : Store)
    → IsReady n s l.appenders
    → IsStep n s (set_pattern p (l, s))
unfolding set_pattern
set_pattern-IsStep n p l s h = tested (new_formatter p).is_error
  where
    tested :
        (b : Bool)
        → IsStep n s (if b then (l, s) else set_formatter (some (new_formatter p)) (l, s))
    tested true = ((λ j less has. has), h)
    tested false = set_formatter-IsStep n (some (new_formatter p)) l s refl h

pub add_appender-IsStep :
    (n i : ℕ) (l : Logger) (s : Store)
    → is_some l.formatter ≡ true
    → IsReady n s l.appenders
    → i < n
    → IsStep n s (add_appender i (l, s))
unfolding add_appender
add_appender-IsStep n i l s formatted h less =
    let a = with_default l.formatter (s i) in
    let has : is_some a.formatter ≡ true = with_default_some l.formatter (s i) formatted in
    let keep : Keeps n s (put i a s) = Keeps-put n i a s has in
    (
      keep,
      IsReady-append n i (put i a s) l.appenders
          (IsReady-Keeps n n s (put i a s) l.appenders (omega arith) keep h) less
          (ap (λ b. is_some b.formatter) (put_same i a s) ∙ has),
    )

pub del_appender-IsStep :
    (n i : ℕ) (l : Logger) (s : Store) → IsReady n s l.appenders → IsStep n s (del_appender i l, s)
unfolding del_appender
del_appender-IsStep n i l s h = ((λ j less has. has), IsReady-erase n i s l.appenders h)

pub clear_appenders-IsStep : (n : ℕ) (l : Logger) (s : Store) → IsStep n s (clear_appenders l, s)
unfolding clear_appenders
clear_appenders-IsStep n l s = ((λ j less has. has), tt)

module _ (decimal : ℕ → Text) (strftime : Text → ℕ → Text) (can_open : Bool) (now : ℕ) where
  log_appender-some :
      (level : Level) (event : LogEvent) (a : LogAppender)
      → is_some a.formatter ≡ true
      → (r : LogAppender × Text) × ((log_appender decimal strftime can_open now level event a
            ≡ some r)
          × (r.0.formatter ≡ a.formatter))
  unfolding log_appender
  log_appender-some level event a has = elim (Bool-cases (is_at_least level a.level)) [
    | inl on ↦ rw on (by_formatter a.formatter has)
    | inr off ↦ ((a, []), (rw off refl, refl))
  ]
    where
      by_formatter :
          (o : Option LogFormatter)
          → is_some o ≡ true
          → (r : LogAppender × Text) × ((and_then o
                  (write_event decimal strftime can_open now level event a)
                ≡ some r)
              × (r.0.formatter ≡ a.formatter))
      by_formatter none null = absurd (ground (arith, null))
      by_formatter (some f) some_f =
          let written =
            write_sink can_open now (format decimal strftime f.items level event) a.sink in
          ((record a { sink = written.0 }, written.1), (refl, refl))

  log_all-some :
      (n : ℕ) (level : Level) (event : LogEvent) (is : List ℕ) (s : Store)
      → IsReady n s is
      → (r : Store × Text) × ((log_all decimal strftime can_open now level event is s ≡ some r)
          × Keeps n s r.0)
  log_all-some n level event [] s h = ((s, []), (refl, λ j less has. has))
  log_all-some n level event (i ∷ is) s h =
      let one = log_appender-some level event (s i) h.0.1 in
      let a = one.0.0 in
      let keep : Keeps n s (put i a s) = Keeps-put n i a s (ap is_some one.1.1 ∙ h.0.1) in
      let more =
        log_all-some n level event is (put i a s)
          (IsReady-Keeps n n s (put i a s) is (omega arith) keep h.1) in
      (
        (more.0.0, one.0.1 ++ more.0.1),
        (rw (log_all, one.1.0, more.1.0) refl, λ j less has. more.1.1 j less (keep j less has)),
      )

  pub log_logger-some :
      (n : ℕ) (level : Level) (event : LogEvent) (log_root : Store → Option (Store × Text))
      (l : Logger) (s : Store)
      → IsReady n s l.appenders
      → ((r : Store × Text) × ((log_root s ≡ some r) × Keeps n s r.0))
      → (r : Store × Text) × ((log_logger decimal strftime can_open now level event log_root l s
            ≡ some r)
          × Keeps n s r.0)
  log_logger-some n level event log_root l s h root =
      elim (Bool-cases (is_at_least level l.level)) [
        | inl on ↦ rw on (by_appenders l.appenders l.root h)
        | inr off ↦ ((s, []), (rw off refl, λ j less has. has))
      ]
    where
      by_appenders :
          (is : List ℕ) (o : Option Text)
          → IsReady n s is
          → (r : Store × Text) × ((elim is as (λ _. Option (Store × Text)) [
            | [] ↦ elim o [ none ↦ some (s, []) | some t ↦ log_root s ]
            | i ∷ js ↦ log_all decimal strftime can_open now level event (i ∷ js) s
          ]
                ≡ some r)
              × Keeps n s r.0)
      by_appenders [] none h = ((s, []), (refl, λ j less has. has))
      by_appenders [] (some t) h = root
      by_appenders (i ∷ is) o h = log_all-some n level event (i ∷ is) s h
