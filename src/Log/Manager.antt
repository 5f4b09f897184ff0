-- ===== src/Log/Manager.antt =====
-- LoggerManager, and the listener that LogIniter of src/log/log.cpp adds to the variable "logs". A
-- std::set of definitions is their list.
use cpp_server_framework.Prelude.{
  ℕ, suc, Bool, true, false, not, ◌&&◌, Text, is_text, List, [], ◌∷◌, Option, none, some, and_then,
  ◌==◌, if◌then◌else◌,
}
use cpp_server_framework.Log.{Level, number, LogEvent}
use cpp_server_framework.Log.Pattern.{new_formatter}
use cpp_server_framework.Log.Loggers.{
  Sink, new_file, LogAppender, Logger, Store, put, new_appender, new_logger, add_appender,
  clear_appenders, set_pattern, set_own_formatter, log_logger,
}

-- The appenders from `next` on are not made yet.
pub record LoggerManager : Type 0 where
  pub loggers : List (Text × Logger)
  pub root : Text
  pub store : Store
  pub next : ℕ

abbrev pub find : Text → List (Text × Logger) → Option Logger
find name [] = none
find name ((k, l) ∷ ls) = let rest = find name ls in if is_text k name then some l else rest

-- m_loggers[name] = l
abbrev pub assign : Text → Logger → List (Text × Logger) → List (Text × Logger)
assign name l [] = (name, l) ∷ []
assign name l ((k, old) ∷ ls) =
    let rest = assign name l ls in if is_text k name then (k, l) ∷ ls else (k, old) ∷ rest

-- The logger, and the manager that has it.
unfoldable pub get_logger : Text → LoggerManager → Logger × LoggerManager
get_logger name m = elim (find name m.loggers) [
  | some l ↦ (l, m)
  | none ↦
      let l = record (new_logger name) { root = some m.root } in
      (l, record m { loggers = assign name l m.loggers })
]

-- What an operation on a logger leaves.
abbrev pub save : Text → Logger × Store → LoggerManager → LoggerManager
save name r m = record m { loggers = assign name r.0 m.loggers; store = r.1 }

-- The constructor.
unfoldable pub new_manager : Text → Store → LoggerManager
new_manager root store =
    let l = add_appender 0 (new_logger root, put 0 (new_appender Sink.to_stdout) store) in
    record { loggers = (root, l.0) ∷ []; root = root; store = l.1; next = 1 }

module _ (decimal : ℕ → Text) (strftime : Text → ℕ → Text) (can_open : Bool) (now : ℕ) where
  -- Logger::log of the root, and of any logger of the manager.
  abbrev pub log_root : Level → LogEvent → LoggerManager → Store → Option (Store × Text)
  log_root level event m store =
      and_then (find m.root m.loggers)
        (λ r. log_logger decimal strftime can_open now level event (λ s. some (s, [])) r store)

  unfoldable pub log : Level → LogEvent → Logger → LoggerManager → Option (LoggerManager × Text)
  log level event l m =
      and_then
        (log_logger decimal strftime can_open now level event (log_root level event m) l m.store)
        (λ r. some (record m { store = r.0 }, r.1))

pub record LogAppenderDefine : Type 0 where
  pub type : ℕ
  pub level : Level
  pub formatter : Text
  pub file : Text

pub record LogDefine : Type 0 where
  pub name : Text
  pub level : Level
  pub formatter : Text
  pub appenders : List LogAppenderDefine

abbrev pub is_appender : LogAppenderDefine → LogAppenderDefine → Bool
is_appender a b =
    (a.type == b.type)
    && ((number a.level == number b.level)
        && (is_text a.formatter b.formatter && is_text a.file b.file))

abbrev pub are_appenders : List LogAppenderDefine → List LogAppenderDefine → Bool
are_appenders [] [] = true
are_appenders [] (b ∷ bs) = false
are_appenders (a ∷ rest) [] = false
are_appenders (a ∷ rest) (b ∷ bs) = is_appender a b && are_appenders rest bs

-- LogDefine::operator==
unfoldable pub is_define : LogDefine → LogDefine → Bool
is_define a b =
    is_text a.name b.name
    && ((number a.level == number b.level)
        && (is_text a.formatter b.formatter && are_appenders a.appenders b.appenders))

-- std::set::find, which compares names.
abbrev pub find_define : Text → List LogDefine → Option LogDefine
find_define name [] = none
find_define name (d ∷ ds) =
    let rest = find_define name ds in if is_text d.name name then some d else rest

-- The two tests on a new definition: whether the pointer to its logger is set.
abbrev pub is_changed : List LogDefine → LogDefine → Bool
is_changed old i = elim (find_define i.name old) [ none ↦ true | some d ↦ not (is_define i d) ]

-- The appender of a definition; `time` is what m_reopenTime happens to be.
abbrev pub make_sink : ℕ → LogAppenderDefine → Option Sink
make_sink time a =
    if a.type == 1
    then some (new_file a.file time)
    else if a.type == 2
    then some Sink.to_stdout
    else none

abbrev pub with_pattern : Text → LogAppender → LogAppender
with_pattern [] ap = ap
with_pattern (c ∷ pattern) ap =
    let fmt = new_formatter (c ∷ pattern) in
    if fmt.is_error then ap else set_own_formatter (some fmt) ap

unfoldable pub make_appender : ℕ → LogAppenderDefine → Option LogAppender
make_appender time a =
    and_then (make_sink time a)
      (λ sink. some (with_pattern a.formatter (record (new_appender sink) { level = a.level })))

-- The inner loop over the appenders of a definition.
abbrev pub add_appenders :
    ℕ → List LogAppenderDefine → Logger × Store → ℕ → Option (Logger × Store × ℕ)
add_appenders time [] l next = some (l.0, l.1, next)
add_appenders time (a ∷ rest) l next =
    and_then (make_appender time a)
      (λ ap. add_appenders time rest (add_appender next (l.0, put next ap l.1)) (suc next))

abbrev pub set_some_pattern : Text → Logger × Store → Logger × Store
set_some_pattern [] l = l
set_some_pattern (c ∷ pattern) l = set_pattern (c ∷ pattern) l

-- The body of the loop over the new definitions.
unfoldable pub apply_define : ℕ → List LogDefine → LogDefine → LoggerManager → Option LoggerManager
apply_define time old i m =
    if is_changed old i
    then (let got = get_logger i.name m in
        let set = set_some_pattern i.formatter (record got.0 { level = i.level }, got.1.store) in
        and_then (add_appenders time i.appenders (clear_appenders set.0, set.1) m.next)
          (λ r. some (record (save i.name (r.0, r.1) got.1) { next = r.2 })))
    else none

abbrev pub apply_defines :
    ℕ → List LogDefine → List LogDefine → LoggerManager → Option LoggerManager
apply_defines time old [] m = some m
apply_defines time old (i ∷ is) m = and_then (apply_define time old i m) (apply_defines time old is)

-- The loop over the old definitions.
abbrev pub remove_defines : List LogDefine → List LogDefine → LoggerManager → LoggerManager
remove_defines new [] m = m
remove_defines new (i ∷ is) m = elim (find_define i.name new) [
  | none ↦
      let got = get_logger i.name m in
      remove_defines new is (save i.name (clear_appenders got.0, got.1.store) got.1)
  | some d ↦ remove_defines new is m
]

-- The listener.
unfoldable pub reload : ℕ → List LogDefine → List LogDefine → LoggerManager → Option LoggerManager
reload time old new m =
    and_then (apply_defines time old new m) (λ r. some (remove_defines new old r))
