-- ===== src/Examples/Logs.antt =====
-- Patterns, loggers and definitions for src/log/log.cpp, and the theorems on them.
use cpp_server_framework.Prelude.{
  ℕ, ◌<◌, ◌≡◌, refl, true, false, Text, bytes, List, [], ◌∷◌, ◌++◌, none, some, is_some, arith,
}
use cpp_server_framework.Log.{Level, LogEvent, FormatItem, default_time}
use cpp_server_framework.Log.Pattern.{new_formatter}
use cpp_server_framework.Log.RoundTrip.{print_items, pattern_round_trip}
use cpp_server_framework.Log.Loggers.{
  Sink, new_file, new_appender, FileStream, new_logger, add_appender, del_appender, clear_appenders,
  set_formatter, set_pattern, set_own_formatter, default_pattern,
}
use cpp_server_framework.Log.Manager.{
  LoggerManager, new_manager, get_logger, save, log, LogAppenderDefine, LogDefine, is_define,
  make_appender, apply_define, reload, find_define,
}
use cpp_server_framework.Log.Safety.{IsManager, log-IsManager}
use cpp_server_framework.Log.Formatted.{IsFormatted, operations-IsFormatted}
use cpp_server_framework.Log.Reloading.{are_applied, reload_some}
use cpp_server_framework.Log.Reloaded.{seen, outcome, reload_lem}
use cpp_server_framework.Log.Files.{write_all, texts, content_of, write_sink_second}

-- The items of the pattern that a new logger has.
abbrev default_items : List FormatItem
default_items =
    FormatItem.date_time default_time
    ∷ (FormatItem.string (bytes " ")
        ∷ (FormatItem.tab
            ∷ (FormatItem.thread_id
                ∷ (FormatItem.string (bytes " ")
                    ∷ (FormatItem.tab
                        ∷ (FormatItem.thread_name
                            ∷ (FormatItem.string (bytes " ")
                                ∷ (FormatItem.tab
                                    ∷ (FormatItem.fiber_id
                                        ∷ (FormatItem.string (bytes " ")
                                            ∷ (FormatItem.tab
                                                ∷ (FormatItem.string (bytes "[")
                                                    ∷ (FormatItem.level
                                                        ∷ (FormatItem.string (bytes "]")
                                                            ∷ (FormatItem.message
                                                            ∷ (FormatItem.new_line
                                                            ∷ []))))))))))))))))

pattern_round_trip_example :
    new_formatter (print_items default_items)
    ≡ record { pattern = print_items default_items; items = default_items; is_error = false }
pattern_round_trip_example = pattern_round_trip default_items refl refl

abbrev root : Text
root = bytes "root"

abbrev system : Text
system = bytes "system"

abbrev a_manager : LoggerManager
a_manager = new_manager root (λ i. new_appender (new_file (bytes "a.log") 0))

a_manager-IsManager : IsManager a_manager
unfolding new_manager add_appender new_logger
a_manager-IsManager = record { ready = (((omega arith, refl), tt), tt); rooted = refl }

root_has_appender : 0 < (get_logger root a_manager).1.next
unfolding get_logger new_manager add_appender new_logger
root_has_appender = omega arith

a_manager-IsFormatted : IsFormatted a_manager
unfolding new_manager add_appender new_logger
a_manager-IsFormatted = (a_manager-IsManager, (refl, tt))

operations-IsFormatted_example :
    let l = (get_logger root a_manager).0 in
    let after = (get_logger root a_manager).1 in
    let f = some (new_formatter default_pattern) in
    IsFormatted after
    × IsFormatted (save root (add_appender 0 (l, after.store)) after)
    × IsFormatted (save root (del_appender 0 l, after.store) after)
    × IsFormatted (save root (clear_appenders l, after.store) after)
    × IsFormatted (save root (set_formatter f (l, after.store)) after)
    × IsFormatted (save root (set_pattern (bytes "%m%n") (l, after.store)) after)
operations-IsFormatted_example =
    operations-IsFormatted root 0 (some (new_formatter default_pattern)) (bytes "%m%n") a_manager
      a_manager-IsFormatted root_has_appender refl

abbrev an_event : LogEvent
an_event = record {
  file = bytes "main.cpp";
  line = 1;
  elapse = 0;
  thread_id = 1;
  thread_name = [];
  fiber_id = 0;
  time = 0;
  content = bytes "hello";
  logger_name = system;
  level = Level.info;
}

abbrev print_nothing : ℕ → Text
print_nothing n = []

abbrev print_time : Text → ℕ → Text
print_time format time = format

log-IsManager_example :
    (r : LoggerManager × Text) × ((log print_nothing print_time true 0 Level.info an_event
          (get_logger system a_manager).0
          (get_logger system a_manager).1
        ≡ some r)
      × IsManager r.0)
log-IsManager_example =
    log-IsManager print_nothing print_time true 0 Level.info an_event system a_manager
      a_manager-IsManager

abbrev to_console : LogAppenderDefine
to_console = record { type = 2; level = Level.warn; formatter = bytes "%m%n"; file = [] }

abbrev system_define : LogDefine
system_define = record {
  name = system;
  level = Level.error;
  formatter = [];
  appenders = to_console ∷ [];
}

abbrev root_define : LogDefine
root_define = record { name = root; level = Level.debug; formatter = []; appenders = [] }

abbrev old_defines : List LogDefine
old_defines = root_define ∷ []

abbrev new_defines : List LogDefine
new_defines = system_define ∷ []

abbrev after_reload : LoggerManager
after_reload = elim (reload 0 old_defines new_defines a_manager) [ none ↦ a_manager | some r ↦ r ]

reload_done : reload 0 old_defines new_defines a_manager ≡ some after_reload
unfolding reload apply_define make_appender get_logger new_manager add_appender new_logger
    set_pattern set_formatter clear_appenders set_own_formatter new_formatter is_define
reload_done = refl

reload_lem_example :
    seen root after_reload
    ≡ outcome (find_define root new_defines) (find_define root old_defines) (seen root a_manager)
reload_lem_example =
    reload_lem 0 old_defines new_defines a_manager after_reload root refl reload_done

reload_some_example :
    is_some (reload 0 old_defines (root_define ∷ new_defines) a_manager)
    ≡ are_applied old_defines (root_define ∷ new_defines)
reload_some_example = reload_some 0 old_defines (root_define ∷ new_defines) a_manager

abbrev a_stream : FileStream
a_stream = record { filename = bytes "a.log"; is_open = false; reopen_time = 0; content = [] }

write_sink_second_example :
    content_of (
      write_all
        (([] ++ ((7, bytes "lost") ∷ [])) ++ ((8, bytes "kept") ∷ ((8, bytes "too") ∷ [])))
        (Sink.to_file a_stream))
    ≡ texts ((8, bytes "kept") ∷ ((8, bytes "too") ∷ []))
write_sink_second_example =
    write_sink_second [] ((8, bytes "too") ∷ []) 7 8 (bytes "lost") (bytes "kept") a_stream
      (λ e. omega (arith, e)) (refl, tt)
