-- ===== src/IoManager/Contexts.antt =====
-- The contexts of src/async/iomanager.cpp: which are in order, and how many events they await.
use cpp_server_framework.Prelude.{
  ℕ, zero, suc, ◌+◌, ◌%◌, ◌^◌, ◌≤◌, ◌≡◌, subst, refl, sym, ap, Bool, true, false, List, [], ◌∷◌,
  ◌++◌, length, get_elem?, set, Option, none, some, All, arith,
}
use cpp_server_framework.IoManager.{
  Event, Events, no_events, EventContext, FdContext, IoManager, read, write, has, new_contexts,
  is_empty_context, empty_context, Task, fiber, callback, set_context, get_context, remove, done,
  swap_out, trigger_event, put_back,
}

-- An event that is awaited has a scheduler and either a callback or a fiber; another has nothing.
pub data IsContext (awaits : Bool) (x : EventContext) : Type 0 where
  idle : awaits ≡ false → x ≡ empty_context → IsContext awaits x
  with_cb :
      (s c : ℕ)
      → awaits ≡ true
      → x ≡ record { scheduler = some s; fiber = none; cb = some c }
      → IsContext awaits x
  with_fiber :
      (s f : ℕ)
      → awaits ≡ true
      → x ≡ record { scheduler = some s; fiber = some f; cb = none }
      → IsContext awaits x

pub record IsFdContext (c : FdContext) : Type 0 where
  pub read_ok : IsContext c.events.reads c.read
  pub write_ok : IsContext c.events.writes c.write

-- What waits in a context, for its scheduler.
abbrev pub tasks_of : EventContext → List (ℕ × Task)
tasks_of x = elim x.scheduler [
  | none ↦ []
  | some s ↦ elim x.cb [
    | some c ↦ (s, callback c) ∷ []
    | none ↦ elim x.fiber [ some f ↦ (s, fiber f) ∷ [] | none ↦ [] ]
  ]
]

-- The context without the event and what waited for it.
abbrev pub cleared : Event → FdContext → FdContext
cleared e c = set_context e empty_context (record c { events = remove c.events e })

swap_out_lem :
    {b : Bool} (x : EventContext)
    → IsContext b x
    → b ≡ true
    → swap_out x ≡ done (tasks_of x, empty_context)
unfolding swap_out
swap_out_lem x (idle off e) on = absurd (ground (arith, off, on))
swap_out_lem x (with_cb s f _ e) on =
    subst (λ y. swap_out y ≡ done (tasks_of y, empty_context)) (sym e) refl
swap_out_lem x (with_fiber s f _ e) on =
    subst (λ y. swap_out y ≡ done (tasks_of y, empty_context)) (sym e) refl

-- No ASSERT fails where the event is awaited.
pub trigger_event_lem :
    (e : Event) (c : FdContext)
    → IsFdContext c
    → has c.events e ≡ true
    → trigger_event e c ≡ done (tasks_of (get_context e c), cleared e c)
unfolding trigger_event
trigger_event_lem read c v on = rw (on, swap_out_lem c.read v.read_ok on) refl
trigger_event_lem write c v on = rw (on, swap_out_lem c.write v.write_ok on) refl

pub cleared-IsFdContext : (e : Event) (c : FdContext) → IsFdContext c → IsFdContext (cleared e c)
cleared-IsFdContext read c v = record { read_ok = idle refl refl; write_ok = v.write_ok }
cleared-IsFdContext write c v = record { read_ok = v.read_ok; write_ok = idle refl refl }

empty_context-is_empty :
    {b : Bool} (x : EventContext) → IsContext b x → b ≡ false → is_empty_context x ≡ true
empty_context-is_empty x (idle _ e) off = rw e refl
empty_context-is_empty x (with_cb s f on e) off = absurd (ground (arith, on, off))
empty_context-is_empty x (with_fiber s f on e) off = absurd (ground (arith, on, off))

-- Where the event is not awaited, nothing waits.
pub absent-is_empty :
    (e : Event) (c : FdContext)
    → IsFdContext c
    → has c.events e ≡ false
    → is_empty_context (get_context e c) ≡ true
absent-is_empty read c v off = empty_context-is_empty c.read v.read_ok off
absent-is_empty write c v off = empty_context-is_empty c.write v.write_ok off

abbrev pub one_if : Bool → ℕ
one_if false = 0
one_if true = 1

abbrev pub awaited : FdContext → ℕ
awaited c = one_if c.events.reads + one_if c.events.writes

some_inj : {c d : FdContext} → some c ≡ some d → c ≡ d
some_inj {c} {d} e = ap (λ o. elim o as (λ _. FdContext) [ none ↦ c | some x ↦ x ]) e

abbrev awaited_at : Option FdContext → ℕ
awaited_at none = 0
awaited_at (some c) = awaited c

-- The events that are awaited on all descriptors.
abbrev pub all_awaited : List FdContext → ℕ
all_awaited [] = 0
all_awaited (c ∷ cs) = awaited c + all_awaited cs

pub all_awaited-append :
    (cs ds : List FdContext) → all_awaited (cs ++ ds) ≡ all_awaited cs + all_awaited ds
all_awaited-append [] ds = omega arith
all_awaited-append (c ∷ cs) ds = omega (arith, all_awaited-append cs ds)

pub all_awaited-set :
    (cs : List FdContext) (fd : ℕ) (c d : FdContext)
    → get_elem? cs fd ≡ some c
    → all_awaited (set cs fd d) + awaited c ≡ all_awaited cs + awaited d
all_awaited-set [] fd c d e = absurd (ground (arith, e))
all_awaited-set (x ∷ cs) zero c d e =
    let same : awaited x ≡ awaited c = ap awaited_at e in omega (arith, same)
all_awaited-set (x ∷ cs) (suc fd) c d e = omega (arith, all_awaited-set cs fd c d e)

pub all_awaited-new : (fd n : ℕ) → all_awaited (new_contexts fd n) ≡ 0
all_awaited-new fd zero = refl
all_awaited-new fd (suc n) = omega (arith, all_awaited-new (suc fd) n)

pub record IsValid (m : IoManager) : Type 0 where
  pub contexts_ok : All IsFdContext m.fd_contexts
  pub counted : m.pending_event_count ≡ all_awaited m.fd_contexts % 2 ^ 64
  pub sized : 2 ≤ length m.fd_contexts

IsFdContext-set :
    (cs : List FdContext) (fd : ℕ) (d : FdContext)
    → All IsFdContext cs
    → IsFdContext d
    → All IsFdContext (set cs fd d)
IsFdContext-set [] fd d all one = tt
IsFdContext-set (c ∷ cs) zero d all one = (one, all.1)
IsFdContext-set (c ∷ cs) (suc fd) d all one = (all.0, IsFdContext-set cs fd d all.1 one)

pub IsFdContext-get :
    (cs : List FdContext) (fd : ℕ) (c : FdContext)
    → All IsFdContext cs
    → get_elem? cs fd ≡ some c
    → IsFdContext c
IsFdContext-get [] fd c all e = absurd (ground (arith, e))
IsFdContext-get (x ∷ cs) zero c all e = subst IsFdContext (some_inj e) all.0
IsFdContext-get (x ∷ cs) (suc fd) c all e = IsFdContext-get cs fd c all.1 e

length-set : (cs : List FdContext) (fd : ℕ) (d : FdContext) → length (set cs fd d) ≡ length cs
length-set [] fd d = refl
length-set (c ∷ cs) zero d = refl
length-set (c ∷ cs) (suc fd) d = ap suc (length-set cs fd d)

-- A context in order is put back, and the count follows.
pub put_back-IsValid :
    (m : IoManager) (fd pending : ℕ) (ts : List (ℕ × Task)) (c d : FdContext)
    → IsValid m
    → get_elem? m.fd_contexts fd ≡ some c
    → IsFdContext d
    → pending ≡ all_awaited (set m.fd_contexts fd d) % 2 ^ 64
    → IsValid (put_back fd ts d pending m)
put_back-IsValid m fd pending ts c d v at one n = record {
  contexts_ok = IsFdContext-set m.fd_contexts fd d v.contexts_ok one;
  counted = n;
  sized = omega (arith, length-set m.fd_contexts fd d, v.sized);
}

-- The events that are awaited on a descriptor, and what waits for one of them.
abbrev pub events_at : Option FdContext → Events
events_at none = no_events
events_at (some c) = c.events

abbrev pub events_of : ℕ → IoManager → Events
events_of fd m = events_at (get_elem? m.fd_contexts fd)

abbrev pub waiting_at : Event → Option FdContext → List (ℕ × Task)
waiting_at e none = []
waiting_at e (some c) = tasks_of (get_context e c)

abbrev pub waiting : Event → ℕ → IoManager → List (ℕ × Task)
waiting e fd m = waiting_at e (get_elem? m.fd_contexts fd)

empty-tasks_of : {b : Bool} (x : EventContext) → IsContext b x → b ≡ false → tasks_of x ≡ []
empty-tasks_of x (idle _ e) off = rw e refl
empty-tasks_of x (with_cb s f on e) off = absurd (ground (arith, on, off))
empty-tasks_of x (with_fiber s f on e) off = absurd (ground (arith, on, off))

pub absent-tasks_of :
    (e : Event) (c : FdContext)
    → IsFdContext c
    → has c.events e ≡ false
    → tasks_of (get_context e c) ≡ []
absent-tasks_of read c v off = empty-tasks_of c.read v.read_ok off
absent-tasks_of write c v off = empty-tasks_of c.write v.write_ok off
