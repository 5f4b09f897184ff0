-- ===== src/Log/Loggers.antt =====
-- Logger, LogAppender and LoggerManager of src/log/log.h and log.cpp. An appender is known by a
-- number in a store, a logger by its name: only LoggerManager makes loggers that have a root. A null
-- pointer that is followed is `none`. The file system is outside of the program: whether a file can
-- be opened; opening one for output empties it. A file is written by one appender.
use cpp_server_framework.Prelude.{
  ℕ, Bool, true, false, Text, bytes, List, [], ◌∷◌, ◌++◌, Option, none, some, is_some, and_then,
  leb, ◌==◌, if◌then◌else◌,
}
use cpp_server_framework.Log.{Level, number, LogEvent, format}
use cpp_server_framework.Log.Pattern.{LogFormatter, new_formatter}

-- `content` is what the file holds.
pub record FileStream : Type 0 where
  pub filename : Text
  pub is_open : Bool
  pub reopen_time : ℕ
  pub content : Text

pub data Sink : Type 0 where
  to_stdout : Sink
  to_file : FileStream → Sink

pub record LogAppender : Type 0 where
  pub level : Level
  pub has_formatter : Bool
  pub formatter : Option LogFormatter
  pub sink : Sink

pub record Logger : Type 0 where
  pub name : Text
  pub level : Level
  pub appenders : List ℕ
  pub formatter : Option LogFormatter
  pub root : Option Text

abbrev pub Store : Type 0
Store = ℕ → LogAppender

abbrev pub put : ℕ → LogAppender → Store → Store
put i a store j = if i == j then a else store j

abbrev pub new_appender : Sink → LogAppender
new_appender sink = record {
  level = Level.debug;
  has_formatter = false;
  formatter = none;
  sink = sink;
}

-- The member m_reopenTime has no initial value: it is given.
abbrev pub new_file : Text → ℕ → Sink
new_file filename time =
    Sink.to_file (record { filename = filename; is_open = false; reopen_time = time; content = [] })

abbrev pub default_pattern : Text
default_pattern = bytes "%d{%Y-%m-%d %H:%M:%S} %T%t %T%N %T%F %T[%p]%T[%c] %T%f:%l %T%m%n"

unfoldable pub new_logger : Text → Logger
new_logger name = record {
  name = name;
  level = Level.info;
  appenders = [];
  formatter = some (new_formatter default_pattern);
  root = none;
}

abbrev pub with_default : Option LogFormatter → LogAppender → LogAppender
with_default f a = if is_some a.formatter then a else record a { formatter = f }

unfoldable pub add_appender : ℕ → Logger × Store → Logger × Store
add_appender i (l, store) = (
  record l { appenders = l.appenders ++ (i ∷ []) },
  put i (with_default l.formatter (store i)) store,
)

abbrev pub erase : ℕ → List ℕ → List ℕ
erase i [] = []
erase i (j ∷ js) = let rest = erase i js in if j == i then js else j ∷ rest

unfoldable pub del_appender : ℕ → Logger → Logger
del_appender i l = record l { appenders = erase i l.appenders }

unfoldable pub clear_appenders : Logger → Logger
clear_appenders l = record l { appenders = [] }

abbrev pub inherit : Option LogFormatter → LogAppender → LogAppender
inherit f a = if a.has_formatter then a else record a { formatter = f }

abbrev pub inherit_all : Option LogFormatter → List ℕ → Store → Store
inherit_all f [] store = store
inherit_all f (i ∷ is) store = inherit_all f is (put i (inherit f (store i)) store)

unfoldable pub set_formatter : Option LogFormatter → Logger × Store → Logger × Store
set_formatter val (l, store) = (record l { formatter = val }, inherit_all val l.appenders store)

-- The overload for a pattern.
unfoldable pub set_pattern : Text → Logger × Store → Logger × Store
set_pattern val l =
    let new_val = new_formatter val in
    if new_val.is_error then l else set_formatter (some new_val) l

-- LogAppender::setFormatter
unfoldable pub set_own_formatter : Option LogFormatter → LogAppender → LogAppender
set_own_formatter val a = record a { formatter = val; has_formatter = is_some val }

-- `level >= m_level`
abbrev pub is_at_least : Level → Level → Bool
is_at_least level least = leb (number least) (number level)

-- FileLogAppender::reopen
unfoldable pub reopen : Bool → FileStream → FileStream
reopen can_open f =
    if can_open then record f { is_open = true; content = [] } else record f { is_open = false }

abbrev pub write_file : Text → FileStream → FileStream
write_file text f = if f.is_open then record f { content = f.content ++ text } else f

abbrev pub refresh : Bool → ℕ → FileStream → FileStream
refresh can_open now f =
    if f.reopen_time == now then f else record (reopen can_open f) { reopen_time = now }

abbrev pub write_sink : Bool → ℕ → Text → Sink → Sink × Text
write_sink can_open now text Sink.to_stdout = (Sink.to_stdout, text)
write_sink can_open now text (Sink.to_file f) =
    (Sink.to_file (write_file text (refresh can_open now f)), [])

module _ (decimal : ℕ → Text) (strftime : Text → ℕ → Text) (can_open : Bool) (now : ℕ) where
  abbrev pub write_event :
      Level → LogEvent → LogAppender → LogFormatter → Option (LogAppender × Text)
  write_event level event a f =
      let written = write_sink can_open now (format decimal strftime f.items level event) a.sink in
      some (record a { sink = written.0 }, written.1)

  -- The `log` of the two classes: the appender, and what goes to the standard output. A file is
  -- refreshed before the formatter is followed, which a fault hides.
  unfoldable pub log_appender : Level → LogEvent → LogAppender → Option (LogAppender × Text)
  log_appender level event a =
      if is_at_least level a.level
      then and_then a.formatter (write_event level event a)
      else some (a, [])

  abbrev pub log_all : Level → LogEvent → List ℕ → Store → Option (Store × Text)
  log_all level event [] store = some (store, [])
  log_all level event (i ∷ is) store = and_then (log_appender level event (store i)) (λ r.
      and_then (log_all level event is (put i r.0 store)) (λ rest. some (rest.0, r.1 ++ rest.1)))

  -- Logger::log, with what the root's `log` does.
  abbrev pub log_logger :
      Level → LogEvent → (Store → Option (Store × Text)) → Logger → Store → Option (Store × Text)
  log_logger level event log_root l store =
      if is_at_least level l.level
      then elim l.appenders [
        | [] ↦ elim l.root [ none ↦ some (store, []) | some r ↦ log_root store ]
        | i ∷ is ↦ log_all level event (i ∷ is) store
      ]
      else some (store, [])
