-- ===== src/IoManager.antt =====
-- src/async/iomanager.h and iomanager.cpp: the events that are awaited on file descriptors.
-- `m_events` is the set of its two flags, READ and WRITE. A fiber, a callback and a scheduler are
-- known by a number; an empty std::function or pointer is `none`. epoll is outside of the program:
-- `ctl` says whether epoll_ctl gives 0 for an operation. `tasks` is what has been handed to
-- `Scheduler::schedule`, in this order. An operation holds the mutex of its FdContext.
pub mod Contexts
pub mod Room
pub mod Registering
pub mod Removing
pub mod Triggers
pub mod Waking
pub mod Cancelling
use cpp_server_framework.Prelude.{
  ℕ, zero, suc, ◌+◌, ◌-◌, ◌/◌, ◌%◌, ◌^◌, Bool, true, false, not, ◌&&◌, ◌||◌, List, [], ◌∷◌, ◌++◌,
  length, get_elem?, set, Option, none, some, is_some, ltb, leb, ◌==◌, if◌then◌else◌,
}

-- A failed ASSERT ends the program; `undefined` is a null or out-of-range access.
pub data Outcome (A : Type 0) : Type 0 where
  done : A → Outcome A
  asserted : Outcome A
  undefined : Outcome A

infixl 5 ◌>>=◌
abbrev pub ◌>>=◌ : {A B : Type 0} → Outcome A → (A → Outcome B) → Outcome B
done a >>= f = f a
asserted >>= f = asserted
undefined >>= f = undefined

pub data Event : Type 0 where
  read write : Event

pub record Events : Type 0 where
  pub reads : Bool
  pub writes : Bool

abbrev pub no_events : Events
no_events = record { reads = false; writes = false }

-- s & e, s | e and s & ~e.
abbrev pub has : Events → Event → Bool
has s read = s.reads
has s write = s.writes

abbrev pub add : Events → Event → Events
add s read = record s { reads = true }
add s write = record s { writes = true }

abbrev pub remove : Events → Event → Events
remove s read = record s { reads = false }
remove s write = record s { writes = false }

abbrev pub is_none : Events → Bool
is_none s = not (s.reads || s.writes)

pub data Task : Type 0 where
  fiber callback : ℕ → Task

pub record EventContext : Type 0 where
  pub scheduler : Option ℕ
  pub fiber : Option ℕ
  pub cb : Option ℕ

-- What `addEvent` registers: the callback, or else the fiber that runs. `self` is
-- Scheduler::GetThis(), which is null on a thread that runs for no scheduler.
abbrev pub new_context : Option ℕ → ℕ → Option ℕ → EventContext
new_context self current (some f) = record { scheduler = self; fiber = none; cb = some f }
new_context self current none = record { scheduler = self; fiber = some current; cb = none }

pub record FdContext : Type 0 where
  pub read : EventContext
  pub write : EventContext
  pub fd : ℕ
  pub events : Events

abbrev pub get_context : Event → FdContext → EventContext
get_context read c = c.read
get_context write c = c.write

abbrev pub set_context : Event → EventContext → FdContext → FdContext
set_context read x c = record c { read = x }
set_context write x c = record c { write = x }

abbrev pub empty_context : EventContext
empty_context = record { scheduler = none; fiber = none; cb = none }

abbrev pub new_fd_context : ℕ → FdContext
new_fd_context fd = record {
  read = empty_context;
  write = empty_context;
  fd = fd;
  events = no_events;
}

pub record IoManager : Type 0 where
  pub fd_contexts : List FdContext
  pub pending_event_count : ℕ
  pub tasks : List (ℕ × Task)

-- new FdContext for the descriptors fd, fd + 1 and so on, n of them.
abbrev pub new_contexts : ℕ → ℕ → List FdContext
new_contexts fd zero = []
new_contexts fd (suc n) = new_fd_context fd ∷ new_contexts (suc fd) n

abbrev pub context_resize : ℕ → List FdContext → List FdContext
context_resize size cs = cs ++ new_contexts (length cs) (size - length cs)

abbrev pub is_none_task : EventContext → Bool
is_none_task x = elim x.cb [ some c ↦ false | none ↦ elim x.fiber [ some f ↦ false | none ↦ true ] ]

abbrev pub is_empty_context : EventContext → Bool
is_empty_context x = is_none_task x && elim x.scheduler [ some s ↦ false | none ↦ true ]

-- ctx.cb or ctx.fiber is swapped out into the queue of its scheduler; a null fiber is not queued.
unfoldable pub swap_out : EventContext → Outcome (List (ℕ × Task) × EventContext)
swap_out x = elim x.scheduler [
  | none ↦ undefined
  | some s ↦ elim x.cb [
    | some f ↦ done ((s, callback f) ∷ [], record x { scheduler = none; cb = none })
    | none ↦ elim x.fiber [
      | some f ↦ done ((s, fiber f) ∷ [], record x { scheduler = none; fiber = none })
      | none ↦ done ([], record x { scheduler = none })
    ]
  ]
]

unfoldable pub trigger_event : Event → FdContext → Outcome (List (ℕ × Task) × FdContext)
trigger_event e c =
    if has c.events e
    then (do
      (ts, x) ← swap_out (get_context e c)
      done (ts, set_context e x (record c { events = remove c.events e })))
    else asserted

-- What is done with `m_fdContexts[fd]`, if there is one.
abbrev pub with_context : {A : Type 0} → Option FdContext → A → (FdContext → A) → A
with_context none out f = out
with_context (some c) out f = f c

-- The `op` of epoll_ctl.
pub data Ctl : Type 0 where
  ctl_add ctl_mod ctl_del : Ctl

-- The `op` where the events s are left.
abbrev pub op_left : Events → Ctl
op_left s = if is_none s then ctl_del else ctl_mod

abbrev pub plus_one : ℕ → ℕ
plus_one n = (n + 1) % 2 ^ 64

abbrev pub minus_one : ℕ → ℕ
minus_one n = (n + (2 ^ 64 - 1)) % 2 ^ 64

-- Events that are put back into the manager, with what was scheduled meanwhile.
abbrev pub put_back : ℕ → List (ℕ × Task) → FdContext → ℕ → IoManager → IoManager
put_back fd ts c pending m = record {
  fd_contexts = set m.fd_contexts fd c;
  pending_event_count = pending;
  tasks = m.tasks ++ ts;
}

-- One event triggered if `wanted`, in a context of which some may have been triggered before.
unfoldable pub trigger_if :
    Bool → Event → List (ℕ × Task) × (ℕ × FdContext) → Outcome (List (ℕ × Task) × (ℕ × FdContext))
trigger_if false e r = done r
trigger_if true e (ts, (pending, c)) = do
  (ts', c') ← trigger_event e c
  done (ts ++ ts', (minus_one pending, c'))

module _ (ctl : Ctl → ℕ → Events → Bool) where
  -- `addEvent` behind the choice of the FdContext: whether it gives 0. `self` and `current` are
  -- the scheduler and the fiber that run, `executes` is whether that fiber is in state EXEC.
  unfoldable pub add_to :
      Option ℕ
      → ℕ
      → Bool
      → ℕ
      → Event
      → Option ℕ
      → FdContext
      → IoManager
      → Outcome (Bool × IoManager)
  add_to self current executes fd e cb c m =
      let op = if is_none c.events then ctl_add else ctl_mod in
      let c' = set_context e (new_context self current cb) (record c { events = add c.events e }) in
      if has c.events e
      then asserted
      else if not (ctl op fd (add c.events e))
      then done (false, m)
      else if not (is_empty_context (get_context e c))
      then asserted
      else if not (is_some cb || executes)
      then asserted
      else done (true, put_back fd [] c' (plus_one m.pending_event_count) m)

  unfoldable pub add_at :
      Option ℕ → ℕ → Bool → ℕ → Event → Option ℕ → IoManager → Outcome (Bool × IoManager)
  add_at self current executes fd e cb m =
      with_context (get_elem? m.fd_contexts fd) undefined
        (λ c. add_to self current executes fd e cb c m)

  unfoldable pub add_event :
      Option ℕ → ℕ → Bool → ℕ → Event → Option ℕ → IoManager → Outcome (Bool × IoManager)
  add_event self current executes fd e cb m =
      if ltb fd (length m.fd_contexts)
      then add_at self current executes fd e cb m
      else add_at self current executes fd e cb
          (record m { fd_contexts = context_resize (fd + fd / 2) m.fd_contexts })

  unfoldable pub del_event_in : ℕ → Event → IoManager → FdContext → Bool × IoManager
  del_event_in fd e m c =
      let left = remove c.events e in
      let c' = set_context e empty_context (record c { events = left }) in
      if not (has c.events e)
      then (false, m)
      else if not (ctl (op_left left) fd left)
      then (false, m)
      else (true, put_back fd [] c' (minus_one m.pending_event_count) m)

  unfoldable pub del_event : ℕ → Event → IoManager → Bool × IoManager
  del_event fd e m =
      with_context (get_elem? m.fd_contexts fd) (false, m) (λ c. del_event_in fd e m c)

  unfoldable pub cancel_event_in : ℕ → Event → IoManager → FdContext → Outcome (Bool × IoManager)
  cancel_event_in fd e m c =
      let left = remove c.events e in
      if not (has c.events e)
      then done (false, m)
      else if not (ctl (op_left left) fd left)
      then done (false, m)
      else do
        (ts, c') ← trigger_event e c
        done (true, put_back fd ts c' (minus_one m.pending_event_count) m)

  unfoldable pub cancel_event : ℕ → Event → IoManager → Outcome (Bool × IoManager)
  cancel_event fd e m =
      with_context (get_elem? m.fd_contexts fd) (done (false, m)) (λ c. cancel_event_in fd e m c)

  unfoldable pub cancel_all_in : ℕ → IoManager → FdContext → Outcome (Bool × IoManager)
  cancel_all_in fd m c =
      if is_none c.events
      then done (false, m)
      else if not (ctl ctl_del fd no_events)
      then done (false, m)
      else do
        r ← trigger_if c.events.reads read ([], (m.pending_event_count, c))
        (ts, (pending, c')) ← trigger_if (r.1.1).events.writes write r
        if is_none c'.events then done (true, put_back fd ts c' pending m) else asserted

  unfoldable pub cancel_all : ℕ → IoManager → Outcome (Bool × IoManager)
  cancel_all fd m =
      with_context (get_elem? m.fd_contexts fd) (done (false, m)) (λ c. cancel_all_in fd m c)

  -- One round of the loop of `idle` over what epoll_wait gave for the descriptor fd: the flags
  -- EPOLLERR or EPOLLHUP, EPOLLIN and EPOLLOUT.
  unfoldable pub handle_event_in :
      ℕ → Bool → Bool → Bool → IoManager → FdContext → Outcome IoManager
  handle_event_in fd broken in_flag out_flag m c =
      let real_read = in_flag || broken in
      let real_write = out_flag || broken in
      let left : Events = record {
        reads = c.events.reads && not real_read;
        writes = c.events.writes && not real_write;
      } in
      if not ((c.events.reads && real_read) || (c.events.writes && real_write))
      then done m
      else if not (ctl (op_left left) fd left)
      then done m
      else do
        r ← trigger_if real_read read ([], (m.pending_event_count, c))
        (ts, (pending, c')) ← trigger_if real_write write r
        done (put_back fd ts c' pending m)

  unfoldable pub handle_event : ℕ → Bool → Bool → Bool → IoManager → Outcome IoManager
  handle_event fd broken in_flag out_flag m =
      with_context (get_elem? m.fd_contexts fd) undefined
        (λ c. handle_event_in fd broken in_flag out_flag m c)

-- `stopping`, where the scheduler's own test and the time of the next timer are known.
abbrev pub stopping : ℕ → Bool → IoManager → Bool
stopping next_timer scheduler_stopping m =
    (next_timer == 2 ^ 64 - 1) && ((m.pending_event_count == 0) && scheduler_stopping)
