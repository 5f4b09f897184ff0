-- ===== src/Log/Safety.antt =====
-- The invariant of LoggerManager in src/log/log.cpp under each operation, the listener's included.
use cpp_server_framework.Prelude.{
  is_some, and_then, ℕ, ◌≤◌, ◌≡◌, refl, inl, inr, Bool, true, Bool-cases, Text, is_text, List, [],
  ◌∷◌, Option, none, some, All, arith,
}
use cpp_server_framework.Log.{Level, LogEvent}
use cpp_server_framework.Log.Loggers.{Logger, Store, new_logger, log_logger}
use cpp_server_framework.Log.Formatters.{Keeps, IsReady, IsReady-Keeps, IsStep, log_logger-some}
use cpp_server_framework.Log.Manager.{LoggerManager, find, assign, get_logger, save, log, log_root}

abbrev pub AreReady : ℕ → Store → List (Text × Logger) → Type 0
AreReady n s ls = All (λ e. IsReady n s e.1.appenders) ls

-- The appenders of every logger are made and have a formatter, and the root is a logger.
pub record IsManager (m : LoggerManager) : Type 0 where
  pub ready : All (λ e. IsReady m.next m.store e.1.appenders) m.loggers
  pub rooted : is_some (find m.root m.loggers) ≡ true

pub are-Keeps :
    (n k : ℕ) (s t : Store) (ls : List (Text × Logger))
    → n ≤ k
    → Keeps n s t
    → AreReady n s ls
    → AreReady k t ls
are-Keeps n k s t [] le keep h = h
are-Keeps n k s t (e ∷ ls) le keep h =
    (IsReady-Keeps n k s t e.1.appenders le keep h.0, are-Keeps n k s t ls le keep h.1)

are_assign :
    (n : ℕ) (s : Store) (name : Text) (l : Logger) (ls : List (Text × Logger))
    → IsReady n s l.appenders
    → AreReady n s ls
    → AreReady n s (assign name l ls)
are_assign n s name l [] one h = (one, tt)
are_assign n s name l ((k, old) ∷ ls) one h = elim (Bool-cases (is_text k name)) [
  | inl same ↦ rw same (one, h.1)
  | inr other ↦ rw other (h.0, are_assign n s name l ls one h.1)
]

abbrev IsFoundReady : ℕ → Store → Option Logger → Type 0
IsFoundReady n s none = Unit
IsFoundReady n s (some l) = IsReady n s l.appenders

ready_find :
    (n : ℕ) (s : Store) (name : Text) (ls : List (Text × Logger))
    → AreReady n s ls
    → IsFoundReady n s (find name ls)
ready_find n s name [] h = tt
ready_find n s name ((k, l) ∷ ls) h = elim (Bool-cases (is_text k name)) [
  | inl same ↦ rw same h.0
  | inr differs ↦ rw differs (ready_find n s name ls h.1)
]

find-assign :
    (name v : Text) (l : Logger) (ls : List (Text × Logger))
    → is_some (find v ls) ≡ true
    → is_some (find v (assign name l ls)) ≡ true
find-assign name v l [] h = absurd (ground (arith, h))
find-assign name v l ((k, old) ∷ ls) h = elim (Bool-cases (is_text k name)) [
  | inl same ↦ rw same (ground (arith, h))
  | inr other ↦ rw other (ground (arith, h, find-assign name v l ls))
]

pub save_lem :
    (name : Text) (r : Logger × Store) (m : LoggerManager)
    → IsStep m.next m.store r
    → IsManager m
    → IsManager (save name r m)
save_lem name r m step h = record {
  ready =
      are_assign m.next r.1 name r.0 m.loggers step.1
        (are-Keeps m.next m.next m.store r.1 m.loggers (omega arith) step.0 h.ready);
  rooted = find-assign name m.root r.0 m.loggers h.rooted;
}

-- A logger that the manager gives is ready, and the manager stays so.
pub get_logger_lem :
    (name : Text) (m : LoggerManager)
    → IsManager m
    → IsManager (get_logger name m).1
      × IsReady
          (get_logger name m).1.next
          (get_logger name m).1.store
          (get_logger name m).0.appenders
unfolding get_logger new_logger
get_logger_lem name m h =
    found (find name m.loggers) (ready_find m.next m.store name m.loggers h.ready)
  where
    made : Logger
    made = record (new_logger name) { root = some m.root }

    found :
        (o : Option Logger)
        → IsFoundReady m.next m.store o
        → (let got = elim o as (λ _. Logger × LoggerManager) [
          | some l ↦ (l, m)
          | none ↦ (made, record m { loggers = assign name made m.loggers })
        ] in
            IsManager got.1 × IsReady got.1.next got.1.store got.0.appenders)
    found (some l) ready = (h, ready)
    found none ready = (
      record {
        ready = are_assign m.next m.store name made m.loggers tt h.ready;
        rooted = find-assign name m.root made m.loggers h.rooted;
      },
      tt,
    )

module _ (decimal : ℕ → Text) (strftime : Text → ℕ → Text) (can_open : Bool) (now : ℕ) where
  root_some :
      (level : Level) (event : LogEvent) (m : LoggerManager)
      → IsManager m
      → (r : Store × Text) × ((log_root decimal strftime can_open now level event m m.store
            ≡ some r)
          × Keeps m.next m.store r.0)
  root_some level event m h =
      by_root (find m.root m.loggers) h.rooted (ready_find m.next m.store m.root m.loggers h.ready)
    where
      by_root :
          (o : Option Logger)
          → is_some o ≡ true
          → IsFoundReady m.next m.store o
          → (r : Store × Text) × ((and_then o (λ l.
                  log_logger decimal strftime can_open now level event
                    (λ s. some (s, []))
                    l
                    m.store)
                ≡ some r)
              × Keeps m.next m.store r.0)
      by_root none has ready = absurd (ground (arith, has))
      by_root (some l) has ready =
          log_logger-some decimal strftime can_open now m.next level event (λ s. some (s, [])) l
            m.store ready ((m.store, []), (refl, λ j less some_j. some_j))

  -- If the root is a logger, and each appender of each logger is made and has a formatter, then
  -- `log` on a logger that `getLogger` gives follows no null pointer, and this holds after it.
  pub log-IsManager :
      (level : Level) (event : LogEvent) (name : Text) (m : LoggerManager)
      → IsManager m
      → (r : LoggerManager × Text) × ((log decimal strftime can_open now level event
              (get_logger name m).0
              (get_logger name m).1
            ≡ some r)
          × IsManager r.0)
  unfolding log
  log-IsManager level event name m h =
      let l = (get_logger name m).0 in
      let after = (get_logger name m).1 in
      let got = get_logger_lem name m h in
      let done =
        log_logger-some decimal strftime can_open now after.next level event
          (log_root decimal strftime can_open now level event after) l after.store got.1
          (root_some level event after got.0) in
      (
        (record after { store = done.0.0 }, done.0.1),
        (
          rw (log, done.1.0) refl,
          record {
            ready =
                are-Keeps after.next after.next after.store done.0.0 after.loggers (omega arith)
                  done.1.1 got.0.ready;
            rooted = got.0.rooted;
          },
        ),
      )
