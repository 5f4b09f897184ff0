-- ===== src/Log/Reloading.antt =====
-- What the listener of LogIniter in src/log/log.cpp makes of the loggers.
use cpp_server_framework.Prelude.{
  is_some, is_some-and_then, ℕ, suc, ◌≡◌, refl, ◌∙◌, inl, inr, Bool, true, false, ◌&&◌, Bool-cases,
  List, [], ◌∷◌, some, ◌==◌, if◌then◌else◌,
}
use cpp_server_framework.Log.Loggers.{
  Logger, Store, put, new_appender, add_appender, clear_appenders,
}
use cpp_server_framework.Log.Manager.{
  LoggerManager, get_logger, save, LogAppenderDefine, LogDefine, is_changed, with_pattern,
  make_appender, make_sink, add_appenders, set_some_pattern, apply_define, apply_defines,
  remove_defines, reload,
}

-- The type of an appender's definition is one of the two that are made.
abbrev pub is_typed : LogAppenderDefine → Bool
is_typed a = if a.type == 1 then true else a.type == 2

abbrev pub are_typed : List LogAppenderDefine → Bool
are_typed [] = true
are_typed (a ∷ rest) = is_typed a && are_typed rest

abbrev pub are_applied : List LogDefine → List LogDefine → Bool
are_applied old [] = true
are_applied old (i ∷ is) = (is_changed old i && are_typed i.appenders) && are_applied old is

make_sink_some : (time : ℕ) (a : LogAppenderDefine) → is_some (make_sink time a) ≡ is_typed a
make_sink_some time a = elim (Bool-cases (a.type == 1)) [
  | inl file ↦ rw file refl
  | inr other ↦ elim (Bool-cases (a.type == 2)) [
    | inl stdout ↦ rw (other, stdout) refl
    | inr unknown ↦ rw (other, unknown) refl
  ]
]

&&-true : (b : Bool) → b && true ≡ b
&&-true true = refl
&&-true false = refl

make_appender_some :
    (time : ℕ) (a : LogAppenderDefine) → is_some (make_appender time a) ≡ is_typed a
unfolding make_appender
make_appender_some time a =
    is_some-and_then (make_sink time a)
      (λ sink. some (with_pattern a.formatter (record (new_appender sink) { level = a.level })))
      (is_typed a) true (make_sink_some time a) (λ _. refl)
    ∙ &&-true (is_typed a)

add_appenders_some :
    (time : ℕ) (ds : List LogAppenderDefine) (l : Logger × Store) (next : ℕ)
    → is_some (add_appenders time ds l next) ≡ are_typed ds
add_appenders_some time [] l next = refl
add_appenders_some time (a ∷ rest) l next =
    is_some-and_then (make_appender time a)
      (λ ap. add_appenders time rest (add_appender next (l.0, put next ap l.1)) (suc next))
      (is_typed a) (are_typed rest) (make_appender_some time a)
      (λ ap. add_appenders_some time rest (add_appender next (l.0, put next ap l.1)) (suc next))

apply_define_some :
    (time : ℕ) (old : List LogDefine) (i : LogDefine) (m : LoggerManager)
    → is_some (apply_define time old i m) ≡ is_changed old i && are_typed i.appenders
unfolding apply_define
apply_define_some time old i m = elim (Bool-cases (is_changed old i)) [
  | inl on ↦ rw on (
      let got = get_logger i.name m in
      let set = set_some_pattern i.formatter (record got.0 { level = i.level }, got.1.store) in
      let cleared : Logger × Store = (clear_appenders set.0, set.1) in
      is_some-and_then (add_appenders time i.appenders cleared m.next)
        (λ r. some (record (save i.name (r.0, r.1) got.1) { next = r.2 })) (are_typed i.appenders)
        true (add_appenders_some time i.appenders cleared m.next) (λ _. refl)
      ∙ &&-true (are_typed i.appenders))
  | inr off ↦ rw off refl
]

apply_defines_some :
    (time : ℕ) (old is : List LogDefine) (m : LoggerManager)
    → is_some (apply_defines time old is m) ≡ are_applied old is
apply_defines_some time old [] m = refl
apply_defines_some time old (i ∷ is) m =
    is_some-and_then (apply_define time old i m) (apply_defines time old is)
      (is_changed old i && are_typed i.appenders) (are_applied old is)
      (apply_define_some time old i m) (apply_defines_some time old is)

-- The listener of LogIniter follows no null pointer just if no new definition equals the old one of
-- its name and each appender in the new definitions has type 1 or 2.
pub reload_some :
    (time : ℕ) (old new : List LogDefine) (m : LoggerManager)
    → is_some (reload time old new m) ≡ are_applied old new
unfolding reload
reload_some time old new m =
    is_some-and_then (apply_defines time old new m) (λ r. some (remove_defines new old r))
      (are_applied old new) true (apply_defines_some time old new m) (λ _. refl)
    ∙ &&-true (are_applied old new)
