-- ===== src/Log/Reloaded.antt =====
-- The loggers that the listener of LogIniter in src/log/log.cpp leaves, as a map from their names.
use cpp_server_framework.Prelude.{
  ℕ, suc, ◌+◌, ◌≡◌, refl, sym, ap, ◌∙◌, inl, inr, Bool, true, false, not, ◌&&◌, Bool-cases,
  Option-cases, Text, is_text, is_text→≡, if_text_swap, is_text_trans, List, [], ◌∷◌, Option, none,
  some, is_some, IfSome, if_some_at, IfSome-map, IfSome-and_then, IfSome-any, length, length-append,
  if◌then◌else◌, arith,
}
use cpp_server_framework.Log.{Level}
use cpp_server_framework.Log.Pattern.{new_formatter}
use cpp_server_framework.Log.Loggers.{
  Logger, Store, put, new_logger, add_appender, clear_appenders, set_formatter, set_pattern,
}
use cpp_server_framework.Log.Manager.{
  LoggerManager, find, assign, get_logger, save, LogAppenderDefine, LogDefine, is_changed,
  make_appender, add_appenders, set_some_pattern, apply_define, apply_defines, remove_defines,
  find_define, reload,
}

-- The level of a logger, and how many appenders it has.
abbrev pub Summary : Type 0
Summary = Option (Level × ℕ)

abbrev pub summary : Option Logger → Summary
summary none = none
summary (some l) = some (l.level, length l.appenders)

abbrev pub seen : Text → LoggerManager → Summary
seen v m = summary (find v m.loggers)

abbrev pub summary_define : LogDefine → Level × ℕ
summary_define i = (i.level, length i.appenders)

-- A removed logger keeps its level, a logger that is made for it has the default one.
abbrev pub removed : Summary → Summary
removed none = some (Level.info, 0)
removed (some s) = some (s.0, 0)

-- What the listener means a logger to be, by the new and the old definition of its name.
abbrev pub outcome : Option LogDefine → Option LogDefine → Summary → Summary
outcome (some i) old before = some (summary_define i)
outcome none (some i) before = removed before
outcome none none before = before

-- No two definitions of a std::set<LogDefine> have the same name.
abbrev pub is_set : List LogDefine → Bool
is_set [] = true
is_set (i ∷ is) = not (is_some (find_define i.name is)) && is_set is

find-assign_if :
    (name v : Text) (l : Logger) (ls : List (Text × Logger))
    → find v (assign name l ls) ≡ (if is_text name v then some l else find v ls)
find-assign_if name v l [] = refl
find-assign_if name v l ((k, old) ∷ ls) = elim (Bool-cases (is_text k name)) [
  | inl same ↦
      let e = is_text_trans k name v same in
      rw same (elim (Bool-cases (is_text name v)) [
        | inl on ↦ rw (e, on) refl
        | inr off ↦ rw (e, off) refl
      ])
  | inr other ↦
      rw (other, find-assign_if name v l ls)
        (if_text_swap k name v (some old) (some l) (find v ls) other)
]

get_logger_found :
    (name v : Text) (m : LoggerManager)
    → is_text name v ≡ false
    → find v (get_logger name m).1.loggers ≡ find v m.loggers
unfolding get_logger
get_logger_found name v m other = found (find name m.loggers)
  where
    made : Logger
    made = record (new_logger name) { root = some m.root }

    found :
        (o : Option Logger)
        → find v
            (elim o as (λ _. Logger × LoggerManager) [
              | some l ↦ (l, m)
              | none ↦ (made, record m { loggers = assign name made m.loggers })
            ]).1.loggers
          ≡ find v m.loggers
    found (some l) = refl
    found none = rw (find-assign_if name v made m.loggers, other) refl

removed-get_logger :
    (name : Text) (m : LoggerManager)
    → removed (seen name m) ≡ some ((get_logger name m).0.level, 0)
unfolding get_logger new_logger
removed-get_logger name m = found (find name m.loggers)
  where
    made : Logger
    made = record (new_logger name) { root = some m.root }

    found :
        (o : Option Logger)
        → removed (summary o)
          ≡ some (
            (elim o as (λ _. Logger × LoggerManager) [
              | some l ↦ (l, m)
              | none ↦ (made, record m { loggers = assign name made m.loggers })
            ]).0.level,
            0,
          )
    found (some l) = refl
    found none = refl

save_seen :
    (name v : Text) (r : Logger × Store) (m : LoggerManager)
    → seen v (save name r (get_logger name m).1)
      ≡ (if is_text name v then summary (some r.0) else seen v m)
save_seen name v r m =
    ap summary (find-assign_if name v r.0 (get_logger name m).1.loggers)
    ∙ elim (Bool-cases (is_text name v)) [
      | inl on ↦ rw on refl
      | inr off ↦ rw off (ap summary (get_logger_found name v m off))
    ]

set_some_pattern_level :
    (p : Text) (l : Logger) (s : Store) → (set_some_pattern p (l, s)).0.level ≡ l.level
unfolding set_pattern set_formatter
set_some_pattern_level [] l s = refl
set_some_pattern_level (c ∷ p) l s = tested (new_formatter (c ∷ p)).is_error
  where
    tested :
        (b : Bool)
        → (if b then (l, s) else set_formatter (some (new_formatter (c ∷ p))) (l, s)).0.level
          ≡ l.level
    tested true = refl
    tested false = refl

-- The level is kept, and an appender added for each definition.
abbrev Matches : Logger × Store → List LogAppenderDefine → Logger × Store × ℕ → Type 0
Matches l ds r = (r.0.level ≡ l.0.level) × (length r.0.appenders ≡ length l.0.appenders + length ds)

add_appenders_summary :
    (time : ℕ) (ds : List LogAppenderDefine) (l : Logger × Store) (next : ℕ)
    → IfSome (Matches l ds) (add_appenders time ds l next)
unfolding add_appender
add_appenders_summary time [] l next = (refl, omega arith)
add_appenders_summary time (a ∷ rest) l next =
    IfSome-any (Matches l (a ∷ rest)) (make_appender time a)
      (λ ap. add_appenders time rest (add_appender next (l.0, put next ap l.1)) (suc next))
      (λ ap.
        let added = add_appender next (l.0, put next ap l.1) in
        IfSome-map (Matches added rest) (Matches l (a ∷ rest))
          (add_appenders time rest added (suc next))
          (λ r e. (e.0, omega (arith, e.1, length-append l.0.appenders (next ∷ []))))
          (add_appenders_summary time rest added (suc next)))

apply_define_seen :
    (time : ℕ) (old : List LogDefine) (i : LogDefine) (m : LoggerManager) (v : Text)
    → IfSome
        (λ r. seen v r ≡ (if is_text i.name v then some (summary_define i) else seen v m))
        (apply_define time old i m)
unfolding apply_define clear_appenders
apply_define_seen time old i m v = elim (Bool-cases (is_changed old i)) [
  | inr off ↦ rw off tt
  | inl on ↦ rw on (
      let got = get_logger i.name m in
      let set = set_some_pattern i.formatter (record got.0 { level = i.level }, got.1.store) in
      let cleared : Logger × Store = (clear_appenders set.0, set.1) in
      IfSome-and_then (Matches cleared i.appenders)
        (λ r. seen v r ≡ (if is_text i.name v then some (summary_define i) else seen v m))
        (add_appenders time i.appenders cleared m.next)
        (λ r. some (record (save i.name (r.0, r.1) got.1) { next = r.2 }))
        (add_appenders_summary time i.appenders cleared m.next)
        (λ r e.
          save_seen i.name v (r.0, r.1) m
          ∙ ap (λ t. if is_text i.name v then t else seen v m)
              (same i.level (r.0.level) (length i.appenders) (length r.0.appenders)
                (e.0
                  ∙ set_some_pattern_level i.formatter (record got.0 { level = i.level })
                      got.1.store)
                (omega (arith, e.1)))))
]
  where
    same : (a b : Level) (n k : ℕ) → b ≡ a → k ≡ n → Path Summary (some (b, k)) (some (a, n))
    same a b n k e d = rw (e, d) refl

abbrev defined : List LogDefine → Text → Summary → Summary
defined is v before = outcome (find_define v is) none before

apply_defines_seen :
    (time : ℕ) (old is : List LogDefine) (m : LoggerManager) (v : Text)
    → is_set is ≡ true
    → IfSome (λ r. seen v r ≡ defined is v (seen v m)) (apply_defines time old is m)
apply_defines_seen time old [] m v set = refl
apply_defines_seen time old (i ∷ is) m v set =
    IfSome-and_then
      (λ r. seen v r ≡ (if is_text i.name v then some (summary_define i) else seen v m))
      (λ r. seen v r ≡ defined (i ∷ is) v (seen v m)) (apply_define time old i m)
      (apply_defines time old is) (apply_define_seen time old i m v)
      (λ r e.
        IfSome-map (λ t. seen v t ≡ defined is v (seen v r))
          (λ t. seen v t ≡ defined (i ∷ is) v (seen v m)) (apply_defines time old is r)
          (λ t d. d ∙ ap (defined is v) e ∙ first (ground (arith, set)))
          (apply_defines_seen time old is r v (ground (arith, set))))
  where
    first :
        is_some (find_define i.name is) ≡ false
        → defined is v (if is_text i.name v then some (summary_define i) else seen v m)
          ≡ defined (i ∷ is) v (seen v m)
    first alone = elim (Bool-cases (is_text i.name v)) [
      | inl on ↦
          let name : i.name ≡ v = is_text→≡ i.name v on in
          let absent : is_some (find_define v is) ≡ false =
            ap (λ t. is_some (find_define t is)) (sym name) ∙ alone in
          elim (Option-cases (find_define v is)) [
            | inl null ↦ rw (on, null) refl
            | inr d ↦ absurd (ground (arith, absent, d.1))
          ]
      | inr off ↦ rw off refl
    ]

abbrev left_by : Option LogDefine → Option LogDefine → Summary → Summary
left_by (some i) old before = before
left_by none (some i) before = removed before
left_by none none before = before

removed_again : (o : Option LogDefine) (s : Summary) → left_by none o (removed s) ≡ removed s
removed_again none s = refl
removed_again (some i) none = refl
removed_again (some i) (some s) = refl

remove_defines_seen :
    (new old : List LogDefine) (m : LoggerManager) (v : Text)
    → seen v (remove_defines new old m) ≡ left_by (find_define v new) (find_define v old) (seen v m)
unfolding clear_appenders
remove_defines_seen new [] m v = elim (Option-cases (find_define v new)) [
  | inl null ↦ rw null refl
  | inr d ↦ rw d.1 refl
]
remove_defines_seen new (i ∷ is) m v = elim (Option-cases (find_define i.name new)) [
  | inl null ↦
      let got = get_logger i.name m in
      let left = save i.name (clear_appenders got.0, got.1.store) got.1 in
      rw (remove_defines, null)
        (remove_defines_seen new is left v
          ∙ ap (left_by (find_define v new) (find_define v is))
              (save_seen i.name v (clear_appenders got.0, got.1.store) m)
          ∙ elim (Bool-cases (is_text i.name v)) [
            | inl on ↦
                let name : i.name ≡ v = is_text→≡ i.name v on in
                let null' : find_define v new ≡ none =
                  ap (λ t. find_define t new) (sym name) ∙ null in
                let e : some (got.0.level, 0) ≡ removed (seen v m) =
                  sym (removed-get_logger i.name m) ∙ ap (λ t. removed (seen t m)) name in
                rw (on, null')
                  (ap (left_by none (find_define v is)) e
                    ∙ removed_again (find_define v is) (seen v m))
            | inr off ↦ rw off refl
          ])
  | inr d ↦
      rw (remove_defines, d.1)
        (remove_defines_seen new is m v ∙ elim (Bool-cases (is_text i.name v)) [
          | inl on ↦
              let name : i.name ≡ v = is_text→≡ i.name v on in
              let e : find_define v new ≡ some d.0 = ap (λ t. find_define t new) (sym name) ∙ d.1 in
              rw (on, e) refl
          | inr off ↦ rw off refl
        ])
]

-- If no two new definitions have the same name and the listener of LogIniter follows no null
-- pointer, then after it each logger that is named by a new definition has the level of the
-- definition and as many appenders as it lists, each other logger that is named by an old
-- definition keeps its level, or has INFO if there was none, and has no appender, and all others
-- keep their level and the number of their appenders.
pub reload_lem :
    (time : ℕ) (old new : List LogDefine) (m r : LoggerManager) (v : Text)
    → is_set new ≡ true
    → reload time old new m ≡ some r
    → seen v r ≡ outcome (find_define v new) (find_define v old) (seen v m)
unfolding reload
reload_lem time old new m r v set done =
    if_some_at (λ t. seen v t ≡ outcome (find_define v new) (find_define v old) (seen v m))
      (reload time old new m) r done
      (IfSome-and_then (λ t. seen v t ≡ defined new v (seen v m))
        (λ t. seen v t ≡ outcome (find_define v new) (find_define v old) (seen v m))
        (apply_defines time old new m) (λ t. some (remove_defines new old t))
        (apply_defines_seen time old new m v set)
        (λ t e.
          remove_defines_seen new old t v
          ∙ ap (left_by (find_define v new) (find_define v old)) e
          ∙ both (find_define v new) (find_define v old) (seen v m)))
  where
    both : (n o : Option LogDefine) (s : Summary) → left_by n o (outcome n none s) ≡ outcome n o s
    both (some i) o s = refl
    both none (some i) s = refl
    both none none s = refl
