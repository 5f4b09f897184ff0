-- ===== src/Log.antt =====
-- The levels, events and format items of src/log/log.h and log.cpp. A string is the list of its
-- bytes. The decimal print of a stream, and `localtime_r` with `strftime`, are outside of the
-- program: what they print.
pub mod Pattern
pub mod RoundTrip
pub mod Loggers
pub mod Manager
pub mod Formatters
pub mod Safety
pub mod Formatted
pub mod Reloading
pub mod Reloaded
pub mod Files
use cpp_server_framework.Prelude.{
  ℕ, ◌-◌, ◌&&◌, leb, Text, bytes, List, [], ◌∷◌, ◌++◌, Option, none, some, is_text, if◌then◌else◌,
}

pub data Level : Type 0 where
  debug : Level
  info : Level
  warn : Level
  error : Level
  fatal : Level

-- The numbers of the enumeration.
abbrev pub number : Level → ℕ
number Level.debug = 1
number Level.info = 2
number Level.warn = 3
number Level.error = 4
number Level.fatal = 5

unfoldable pub to_string : Level → Text
to_string Level.debug = bytes "DEBUG"
to_string Level.info = bytes "INFO"
to_string Level.warn = bytes "WARN"
to_string Level.error = bytes "ERROR"
to_string Level.fatal = bytes "FATAL"

-- std::toupper over a string, in the "C" locale.
abbrev pub upper : Text → Text
upper [] = []
upper (c ∷ s) = (if leb 97 c && leb c 122 then c - 32 else c) ∷ upper s

unfoldable pub from_string : Text → Level
from_string str =
    let upper_str = upper str in
    if is_text upper_str (bytes "DEBUG")
    then Level.debug
    else if is_text upper_str (bytes "INFO")
    then Level.info
    else if is_text upper_str (bytes "WARN")
    then Level.warn
    else if is_text upper_str (bytes "ERROR")
    then Level.error
    else if is_text upper_str (bytes "FATAL")
    then Level.fatal
    else Level.debug

-- `logger_name` is the name of the logger the event holds.
pub record LogEvent : Type 0 where
  pub file : Text
  pub line : ℕ
  pub elapse : ℕ
  pub thread_id : ℕ
  pub thread_name : Text
  pub fiber_id : ℕ
  pub time : ℕ
  pub content : Text
  pub logger_name : Text
  pub level : Level

pub data FormatItem : Type 0 where
  message : FormatItem
  level : FormatItem
  elapse : FormatItem
  name : FormatItem
  thread_id : FormatItem
  thread_name : FormatItem
  fiber_id : FormatItem
  date_time : Text → FormatItem
  filename : FormatItem
  line : FormatItem
  new_line : FormatItem
  string : Text → FormatItem
  tab : FormatItem

abbrev pub default_time : Text
default_time = bytes "%Y-%m-%d %H:%M:%S"

-- The constructor of DateTimeFormatItem.
abbrev pub new_date_time : Text → FormatItem
new_date_time [] = FormatItem.date_time default_time
new_date_time (c ∷ fmt) = FormatItem.date_time (c ∷ fmt)

module _ (decimal : ℕ → Text) (strftime : Text → ℕ → Text) where
  abbrev pub format_item : FormatItem → Level → LogEvent → Text
  format_item FormatItem.message severity event = event.content
  format_item FormatItem.level severity event = to_string severity
  format_item FormatItem.elapse severity event = decimal event.elapse
  format_item FormatItem.name severity event = event.logger_name
  format_item FormatItem.thread_id severity event = decimal event.thread_id
  format_item FormatItem.thread_name severity event = event.thread_name
  format_item FormatItem.fiber_id severity event = decimal event.fiber_id
  format_item (FormatItem.date_time format) severity event = strftime format event.time
  format_item FormatItem.filename severity event = event.file
  format_item FormatItem.line severity event = decimal event.line
  format_item FormatItem.new_line severity event = 10 ∷ []
  format_item (FormatItem.string str) severity event = str
  format_item FormatItem.tab severity event = 9 ∷ []

  -- LogFormatter::format, over m_items.
  abbrev pub format : List FormatItem → Level → LogEvent → Text
  format [] severity event = []
  format (i ∷ items) severity event = format_item i severity event ++ format items severity event
