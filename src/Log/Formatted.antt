-- ===== src/Log/Formatted.antt =====
-- That every logger in src/log/log.cpp has a formatter for its appenders, whatever is done with it.
use cpp_server_framework.Prelude.{
  is_some, ℕ, ◌<◌, ◌≡◌, refl, ap, ◌∙◌, if◌then◌else◌, inl, inr, Bool, true, false, Bool-cases, Text,
  is_text, List, [], ◌∷◌, Option, none, some, All,
}
use cpp_server_framework.Log.Pattern.{LogFormatter, new_formatter}
use cpp_server_framework.Log.Loggers.{
  Logger, Store, new_logger, add_appender, del_appender, clear_appenders, set_formatter,
  set_pattern,
}
use cpp_server_framework.Log.Formatters.{
  IsStep, set_formatter-IsStep, set_pattern-IsStep, add_appender-IsStep, del_appender-IsStep,
  clear_appenders-IsStep,
}
use cpp_server_framework.Log.Manager.{LoggerManager, find, assign, get_logger, save}
use cpp_server_framework.Log.Safety.{IsManager, save_lem, get_logger_lem}

-- Every logger has a formatter of its own.
abbrev pub AreFormatted : List (Text × Logger) → Type 0
AreFormatted ls = All (λ e. is_some e.1.formatter ≡ true) ls

formatted_assign :
    (name : Text) (l : Logger) (ls : List (Text × Logger))
    → is_some l.formatter ≡ true
    → AreFormatted ls
    → AreFormatted (assign name l ls)
formatted_assign name l [] one h = (one, tt)
formatted_assign name l ((k, old) ∷ ls) one h = elim (Bool-cases (is_text k name)) [
  | inl same ↦ rw same (one, h.1)
  | inr other ↦ rw other (h.0, formatted_assign name l ls one h.1)
]

abbrev IsFoundFormatted : Option Logger → Type 0
IsFoundFormatted none = Unit
IsFoundFormatted (some l) = is_some l.formatter ≡ true

formatted_find :
    (name : Text) (ls : List (Text × Logger)) → AreFormatted ls → IsFoundFormatted (find name ls)
formatted_find name [] h = tt
formatted_find name ((k, l) ∷ ls) h = elim (Bool-cases (is_text k name)) [
  | inl same ↦ rw same h.0
  | inr differs ↦ rw differs (formatted_find name ls h.1)
]

get_logger_formatted :
    (name : Text) (m : LoggerManager)
    → AreFormatted m.loggers
    → AreFormatted (get_logger name m).1.loggers × (is_some (get_logger name m).0.formatter ≡ true)
unfolding get_logger new_logger
get_logger_formatted name m h = found (find name m.loggers) (formatted_find name m.loggers h)
  where
    made : Logger
    made = record (new_logger name) { root = some m.root }

    found :
        (o : Option Logger)
        → IsFoundFormatted o
        → (let got = elim o as (λ _. Logger × LoggerManager) [
          | some l ↦ (l, m)
          | none ↦ (made, record m { loggers = assign name made m.loggers })
        ] in
            AreFormatted got.1.loggers × (is_some got.0.formatter ≡ true))
    found (some l) one = (h, one)
    found none one = (formatted_assign name made m.loggers refl h, refl)

-- The manager is in order, and every logger has a formatter.
abbrev pub IsFormatted : LoggerManager → Type 0
IsFormatted m = IsManager m × AreFormatted m.loggers

save-IsFormatted :
    (name : Text) (r : Logger × Store) (m : LoggerManager)
    → IsStep m.next m.store r
    → is_some r.0.formatter ≡ true
    → IsFormatted m
    → IsFormatted (save name r m)
save-IsFormatted name r m step one h =
    (save_lem name r m step h.0, formatted_assign name r.0 m.loggers one h.1)

set_formatter-formatter :
    (f : Option LogFormatter) (l : Logger) (s : Store) → (set_formatter f (l, s)).0.formatter ≡ f
unfolding set_formatter
set_formatter-formatter f l s = refl

set_pattern-formatted :
    (p : Text) (l : Logger) (s : Store)
    → is_some l.formatter ≡ true
    → is_some (set_pattern p (l, s)).0.formatter ≡ true
unfolding set_pattern
set_pattern-formatted p l s h = tested (new_formatter p).is_error
  where
    tested :
        (b : Bool)
        → is_some (if b then (l, s) else set_formatter (some (new_formatter p)) (l, s)).0.formatter
          ≡ true
    tested true = h
    tested false = ap is_some (set_formatter-formatter (some (new_formatter p)) l s)

appenders-formatter :
    (i : ℕ) (l : Logger) (s : Store)
    → ((add_appender i (l, s)).0.formatter ≡ l.formatter)
      × ((del_appender i l).formatter ≡ l.formatter)
      × ((clear_appenders l).formatter ≡ l.formatter)
unfolding add_appender del_appender clear_appenders
appenders-formatter i l s = (refl, refl, refl)

-- If the root is a logger, each appender of each logger is made and has a formatter, and each
-- logger has a formatter, this holds after `getLogger`, and after `addAppender` with an appender
-- that is made, `delAppender`, `clearAppenders` and `setFormatter` with a formatter that is not
-- null or with any pattern on the logger it gives.
pub operations-IsFormatted :
    (name : Text) (i : ℕ) (f : Option LogFormatter) (p : Text) (m : LoggerManager)
    → IsFormatted m
    → i < (get_logger name m).1.next
    → is_some f ≡ true
    → (let l = (get_logger name m).0 in
        let after = (get_logger name m).1 in
        IsFormatted after
        × IsFormatted (save name (add_appender i (l, after.store)) after)
        × IsFormatted (save name (del_appender i l, after.store) after)
        × IsFormatted (save name (clear_appenders l, after.store) after)
        × IsFormatted (save name (set_formatter f (l, after.store)) after)
        × IsFormatted (save name (set_pattern p (l, after.store)) after))
operations-IsFormatted name i f p m h less has =
    let l = (get_logger name m).0 in
    let after = (get_logger name m).1 in
    let got = get_logger_lem name m h.0 in
    let form = get_logger_formatted name m h.1 in
    let start : IsFormatted after = (got.0, form.0) in
    let n = after.next in
    let s = after.store in
    let kept = appenders-formatter i l s in
    (
      start,
      save-IsFormatted name (add_appender i (l, s)) after
          (add_appender-IsStep n i l s form.1 got.1 less) (ap is_some kept.0 ∙ form.1) start,
      save-IsFormatted name (del_appender i l, s) after (del_appender-IsStep n i l s got.1)
          (ap is_some kept.1 ∙ form.1) start,
      save-IsFormatted name (clear_appenders l, s) after (clear_appenders-IsStep n l s)
          (ap is_some kept.2 ∙ form.1) start,
      save-IsFormatted name (set_formatter f (l, s)) after (set_formatter-IsStep n f l s has got.1)
          (ap is_some (set_formatter-formatter f l s) ∙ has) start,
      save-IsFormatted name (set_pattern p (l, s)) after (set_pattern-IsStep n p l s got.1)
          (set_pattern-formatted p l s form.1) start,
    )
