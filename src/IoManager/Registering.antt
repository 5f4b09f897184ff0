-- ===== src/IoManager/Registering.antt =====
-- `addEvent` of src/async/iomanager.cpp on a manager in order.
use cpp_server_framework.Prelude.{
  ℕ, zero, suc, ◌+◌, ◌-◌, ◌/◌, ◌≤◌, ◌≡◌, refl, sym, ap, ◌∙◌, inl, inr, Bool, true, false, List, [],
  ◌∷◌, length, get_elem?, set, Option, none, some, is_some, ◌||◌, ltb, lt→ltb, append-nil, dec_lt,
  Bool-cases, if◌then◌else◌, arith,
}
use cpp_server_framework.IoManager.{
  Event, Events, FdContext, IoManager, Ctl, ctl_add, ctl_mod, read, write, has, is_none,
  new_fd_context, is_empty_context, set_context, get_context, add, new_context, Outcome, done,
  undefined, with_context, put_back, plus_one, add_to, add_at, add_event,
}
use cpp_server_framework.IoManager.Contexts.{
  events_at, events_of, waiting, waiting_at, tasks_of, absent-tasks_of, IsContext, IsFdContext,
  IsValid, with_cb, with_fiber, awaited, all_awaited-set, absent-is_empty, IsFdContext-get,
  put_back-IsValid,
}
use cpp_server_framework.IoManager.Room.{
  get_elem?-new, get_elem?-some, resized, resized-IsValid, get_elem?_past, new-has,
}

abbrev pub registered_at : Event → Option FdContext → Bool
registered_at e none = false
registered_at e (some c) = has c.events e

-- Whether the event is awaited on the descriptor.
abbrev pub is_registered : Event → ℕ → IoManager → Bool
is_registered e fd m = registered_at e (get_elem? m.fd_contexts fd)

pub get_elem?-set :
    (cs : List FdContext) (fd : ℕ) (c d : FdContext)
    → get_elem? cs fd ≡ some c
    → get_elem? (set cs fd d) fd ≡ some d
get_elem?-set [] fd c d e = absurd (ground (arith, e))
get_elem?-set (x ∷ cs) zero c d e = refl
get_elem?-set (x ∷ cs) (suc fd) c d e = get_elem?-set cs fd c d e

new_context-IsContext :
    (self current : ℕ) (cb : Option ℕ) → IsContext true (new_context (some self) current cb)
new_context-IsContext self current none = with_fiber self current refl refl
new_context-IsContext self current (some f) = with_cb self f refl refl

abbrev added : ℕ → ℕ → Event → Option ℕ → FdContext → FdContext
added self current e cb c =
    set_context e (new_context (some self) current cb) (record c { events = add c.events e })

added-IsFdContext :
    (self current : ℕ) (e : Event) (cb : Option ℕ) (c : FdContext)
    → IsFdContext c
    → IsFdContext (added self current e cb c)
added-IsFdContext self current read cb c v = record {
  read_ok = new_context-IsContext self current cb;
  write_ok = v.write_ok;
}
added-IsFdContext self current write cb c v = record {
  read_ok = v.read_ok;
  write_ok = new_context-IsContext self current cb;
}

added-awaited :
    (self current : ℕ) (e : Event) (cb : Option ℕ) (c : FdContext)
    → has c.events e ≡ false
    → awaited (added self current e cb c) ≡ awaited c + 1
added-awaited self current read cb c off = rw off (omega arith)
added-awaited self current write cb c off = rw off (omega arith)

added-has :
    (self current : ℕ) (e : Event) (cb : Option ℕ) (c : FdContext)
    → has (added self current e cb c).events e ≡ true
added-has self current read cb c = refl
added-has self current write cb c = refl

module _ (ctl : Ctl → ℕ → Events → Bool) (self current : ℕ) (executes : Bool) (fd : ℕ) (e : Event)
    (cb : Option ℕ) where
  abbrev pub op_for : Events → Ctl
  op_for s = if is_none s then ctl_add else ctl_mod

  abbrev pub IsAdded : IoManager → Outcome (Bool × IoManager) → Type 0
  IsAdded m r =
      (given : Bool) × (m' : IoManager) × (r ≡ done (given, m'))
      × (given ≡ ctl (op_for (events_of fd m)) fd (add (events_of fd m) e))
      × IsValid m'
      × (is_registered e fd m' ≡ given)
      × (waiting e fd m' ≡ (if given then tasks_of (new_context (some self) current cb) else []))
      × (m'.tasks ≡ m.tasks)

  added-tasks_of :
      (x : Event) (c : FdContext)
      → tasks_of (get_context x (added self current x cb c))
        ≡ tasks_of (new_context (some self) current cb)
  added-tasks_of read c = refl
  added-tasks_of write c = refl

  add_at-add_to :
      (m : IoManager) (c : FdContext)
      → get_elem? m.fd_contexts fd ≡ some c
      → add_at ctl (some self) current executes fd e cb m
        ≡ add_to ctl (some self) current executes fd e cb c m
  unfolding add_at
  add_at-add_to m c at =
      ap (λ o. with_context o undefined (λ x. add_to ctl (some self) current executes fd e cb x m))
        at

  add_to_refused :
      (m : IoManager) (c : FdContext)
      → get_elem? m.fd_contexts fd ≡ some c
      → has c.events e ≡ false
      → ctl (op_for c.events) fd (add c.events e) ≡ false
      → add_at ctl (some self) current executes fd e cb m ≡ done (false, m)
  unfolding add_to
  add_to_refused m c at off refused = add_at-add_to m c at ∙ rw (off, refused) refl

  abbrev add_done : IoManager → FdContext → IoManager
  add_done m c = put_back fd [] (added self current e cb c) (plus_one m.pending_event_count) m

  add_to_given :
      (m : IoManager) (c : FdContext)
      → get_elem? m.fd_contexts fd ≡ some c
      → has c.events e ≡ false
      → is_empty_context (get_context e c) ≡ true
      → ctl (op_for c.events) fd (add c.events e) ≡ true
      → is_some cb || executes ≡ true
      → add_at ctl (some self) current executes fd e cb m ≡ done (true, add_done m c)
  unfolding add_to
  add_to_given m c at off empty yes_done able =
      add_at-add_to m c at ∙ rw (off, yes_done, empty, able) refl

  add_done-IsValid :
      (m : IoManager) (c : FdContext)
      → IsValid m
      → get_elem? m.fd_contexts fd ≡ some c
      → has c.events e ≡ false
      → IsValid (add_done m c)
  add_done-IsValid m c v at off =
      let d = added self current e cb c in
      let one =
        added-IsFdContext self current e cb c
          (IsFdContext-get m.fd_contexts fd c v.contexts_ok at) in
      let more = added-awaited self current e cb c off in
      put_back-IsValid m fd (plus_one m.pending_event_count) [] c d v at one
        (omega (arith, all_awaited-set m.fd_contexts fd c d at, more, v.counted))

  -- m is m0, or m0 with more room.
  add_to-IsAdded :
      (m0 m : IoManager) (c : FdContext)
      → IsValid m
      → get_elem? m.fd_contexts fd ≡ some c
      → has c.events e ≡ false
      → events_of fd m0 ≡ c.events
      → m.tasks ≡ m0.tasks
      → is_some cb || executes ≡ true
      → IsAdded m0 (add_at ctl (some self) current executes fd e cb m)
  add_to-IsAdded m0 m c v at off same tasks able =
      let one = IsFdContext-get m.fd_contexts fd c v.contexts_ok at in
      let asks : ctl (op_for (events_of fd m0)) fd (add (events_of fd m0) e)
          ≡ ctl (op_for c.events) fd (add c.events e) =
        ap (λ s. ctl (op_for s) fd (add s e)) same in
      elim (Bool-cases (ctl (op_for c.events) fd (add c.events e))) [
        | inl yes_done ↦
            let empty = absent-is_empty e c one off in
            let d = added self current e cb c in
            let put = get_elem?-set m.fd_contexts fd c d at in
            (
              true,
              add_done m c,
              add_to_given m c at off empty yes_done able,
              sym (asks ∙ yes_done),
              add_done-IsValid m c v at off,
              ap (registered_at e) put ∙ added-has self current e cb c,
              ap (waiting_at e) put ∙ added-tasks_of e c,
              append-nil m.tasks ∙ tasks,
            )
        | inr refused ↦ (
          false,
          m,
          add_to_refused m c at off refused,
          sym (asks ∙ refused),
          v,
          ap (registered_at e) at ∙ off,
          ap (waiting_at e) at ∙ absent-tasks_of e c one off,
          tasks,
        )
      ]

  add_to_resized-IsAdded :
      (m : IoManager)
      → IsValid m
      → length m.fd_contexts ≤ fd
      → is_some cb || executes ≡ true
      → IsAdded m (add_at ctl (some self) current executes fd e cb (resized fd m))
  add_to_resized-IsAdded m v far able =
      let k = length m.fd_contexts in
      let (j, at) =
        get_elem?-new m.fd_contexts k (fd + fd / 2 - k) fd far (omega (arith, v.sized)) in
      add_to-IsAdded m (resized fd m) (new_fd_context j) (resized-IsValid fd m v) at (new-has e j)
        (ap events_at (get_elem?_past m.fd_contexts fd far)) refl able

  -- On a valid manager `addEvent`, called on a thread of a scheduler, with a callback or by a fiber
  -- in state EXEC, for an event that is not awaited on the descriptor, with or without room for it
  -- in `m_fdContexts`, fails no ASSERT and reads no missing context; it returns 0 just if epoll_ctl
  -- accepts the descriptor, added or modified, with the events awaited before and this one, and
  -- just then the event is awaited and the callback, or else the running fiber, waits for it; the
  -- manager is valid again and nothing is scheduled.
  pub add_event-IsAdded :
      (m : IoManager)
      → IsValid m
      → is_registered e fd m ≡ false
      → is_some cb || executes ≡ true
      → IsAdded m (add_event ctl (some self) current executes fd e cb m)
  unfolding add_event
  add_event-IsAdded m v off able = elim (dec_lt fd (length m.fd_contexts)) [
    | yes near ↦
        let (c, at) = get_elem?-some m.fd_contexts fd near in
        let off' : has c.events e ≡ false = sym (ap (registered_at e) at) ∙ off in
        let b : ltb fd (length m.fd_contexts) ≡ true = lt→ltb fd (length m.fd_contexts) near in
        rw b (add_to-IsAdded m m c v at off' (ap events_at at) refl able)
    | no far ↦
        let b : ltb fd (length m.fd_contexts) ≡ false = ground (arith, far) in
        rw b (add_to_resized-IsAdded m v (omega arith) able)
  ]
