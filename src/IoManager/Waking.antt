-- ===== src/IoManager/Waking.antt =====
-- The loop of `idle` in src/async/iomanager.cpp over the events of epoll, on a manager in order.
use cpp_server_framework.Prelude.{
  ℕ, ◌≡◌, subst, refl, sym, ap, ◌∙◌, inl, inr, Bool, true, false, not, ◌&&◌, ◌||◌, List, [], ◌++◌,
  get_elem?, some, Bool-cases, if◌then◌else◌, arith,
}
use cpp_server_framework.IoManager.{
  Events, FdContext, IoManager, Task, Ctl, ctl_del, op_left, read, write, no_events, Outcome, done,
  asserted, undefined, ◌>>=◌, with_context, put_back, minus_one, trigger_event, trigger_if,
  handle_event_in, handle_event,
}
use cpp_server_framework.IoManager.Contexts.{
  events_at, events_of, waiting, waiting_at, IsFdContext, IsValid, IsFdContext-get,
  trigger_event_lem,
}
use cpp_server_framework.IoManager.Registering.{is_registered, registered_at, get_elem?-set}
use cpp_server_framework.IoManager.Triggers.{
  fired_both, woken, woken-IsValid, Progress, trigger_then,
}

fired_both-reads :
    (r w : Bool) (c : FdContext) → (fired_both r w c).events.reads ≡ (c.events.reads && not r)
fired_both-reads false false c = ground arith
fired_both-reads false true c = ground arith
fired_both-reads true false c = ground arith
fired_both-reads true true c = ground arith

fired_both-writes :
    (r w : Bool) (c : FdContext) → (fired_both r w c).events.writes ≡ (c.events.writes && not w)
fired_both-writes false false c = ground arith
fired_both-writes false true c = ground arith
fired_both-writes true false c = ground arith
fired_both-writes true true c = ground arith

module _ (ctl : Ctl → ℕ → Events → Bool) (fd : ℕ) (broken in_flag out_flag : Bool) where
  abbrev left_of : Events → Events
  left_of s = record {
    reads = s.reads && not (in_flag || broken);
    writes = s.writes && not (out_flag || broken);
  }

  abbrev meets : Events → Bool
  meets s = (s.reads && (in_flag || broken)) || (s.writes && (out_flag || broken))

  -- Whether the loop gets as far as to trigger.
  abbrev pub fires : Events → Bool
  fires s = meets s && ctl (op_left (left_of s)) fd (left_of s)

  handle_event-in :
      (m : IoManager) (c : FdContext)
      → get_elem? m.fd_contexts fd ≡ some c
      → handle_event ctl fd broken in_flag out_flag m
        ≡ handle_event_in ctl fd broken in_flag out_flag m c
  unfolding handle_event
  handle_event-in m c at =
      ap (λ o. with_context o undefined (λ x. handle_event_in ctl fd broken in_flag out_flag m x))
        at

  handle_event_quiet :
      (m : IoManager) (c : FdContext)
      → fires c.events ≡ false
      → handle_event_in ctl fd broken in_flag out_flag m c ≡ done m
  unfolding handle_event_in
  handle_event_quiet m c h = elim (Bool-cases (meets c.events)) [
    | inl on ↦
        let refused : ctl (op_left (left_of c.events)) fd (left_of c.events) ≡ false =
          ground (arith, h, on) in
        rw (on, refused) refl
    | inr off ↦ rw off refl
  ]

  handle_event_fires :
      (m : IoManager) (c : FdContext)
      → IsFdContext c
      → fires c.events ≡ true
      → ((in_flag || broken) && not c.events.reads) ≡ false
      → ((out_flag || broken) && not c.events.writes) ≡ false
      → handle_event_in ctl fd broken in_flag out_flag m c
        ≡ done (woken fd (in_flag || broken) (out_flag || broken) c m)
  unfolding handle_event_in
  handle_event_fires m c v h hr hw =
      let on : meets c.events ≡ true = ground (arith, h) in
      let given : ctl (op_left (left_of c.events)) fd (left_of c.events) ≡ true =
        ground (arith, h) in
      rw (on, given)
        (trigger_then (in_flag || broken) (out_flag || broken) m.pending_event_count c
          (λ (q : Progress). done (put_back fd q.0 q.1.1 q.1.0 m)) v hr hw)

  abbrev pub woken_tasks : IoManager → List (ℕ × Task)
  woken_tasks m =
      (if in_flag || broken then waiting read fd m else [])
      ++ (if out_flag || broken then waiting write fd m else [])

  abbrev pub IsHandled : IoManager → Outcome IoManager → Type 0
  IsHandled m r =
      (any : Bool) × (m' : IoManager) × (r ≡ done m')
      × (any ≡ fires (events_of fd m))
      × IsValid m'
      × (m'.tasks ≡ (if any then m.tasks ++ woken_tasks m else m.tasks))
      × (is_registered read fd m' ≡ (is_registered read fd m && not (any && (in_flag || broken))))
      × (is_registered write fd m'
          ≡ (is_registered write fd m && not (any && (out_flag || broken))))

  -- On a valid manager, if epoll reports on a descriptor nothing but events that are awaited there,
  -- the round of `idle` for it fails no ASSERT, keeps the manager valid, and if some event is
  -- reported and epoll_ctl accepts the events that are left, it schedules just what waited for the
  -- reported events, reading first, which are then no longer awaited; else it schedules nothing and
  -- the same events are awaited.
  pub handle_event-IsHandled :
      (m : IoManager) (c : FdContext)
      → IsValid m
      → get_elem? m.fd_contexts fd ≡ some c
      → ((in_flag || broken) && not c.events.reads) ≡ false
      → ((out_flag || broken) && not c.events.writes) ≡ false
      → IsHandled m (handle_event ctl fd broken in_flag out_flag m)
  handle_event-IsHandled m c v at hr hw = elim (Bool-cases (fires c.events)) [
    | inl h ↦
        let one = IsFdContext-get m.fd_contexts fd c v.contexts_ok at in
        let put =
          get_elem?-set m.fd_contexts fd c (fired_both (in_flag || broken) (out_flag || broken) c)
            at in
        let v' = woken-IsValid fd (in_flag || broken) (out_flag || broken) c m v at hr hw in
        (
          true,
          woken fd (in_flag || broken) (out_flag || broken) c m,
          handle_event-in m c at ∙ handle_event_fires m c one h hr hw,
          sym (ap (λ o. fires (events_at o)) at ∙ h),
          v',
          ap
              (λ o.
                m.tasks
                ++ ((if in_flag || broken then waiting_at read o else [])
                    ++ (if out_flag || broken then waiting_at write o else [])))
              (sym at),
          ap (registered_at read) put
              ∙ fired_both-reads (in_flag || broken) (out_flag || broken) c
              ∙ ap (λ o. registered_at read o && not (in_flag || broken)) (sym at),
          ap (registered_at write) put
              ∙ fired_both-writes (in_flag || broken) (out_flag || broken) c
              ∙ ap (λ o. registered_at write o && not (out_flag || broken)) (sym at),
        )
    | inr h ↦ (
      false,
      m,
      handle_event-in m c at ∙ handle_event_quiet m c h,
      sym (ap (λ o. fires (events_at o)) at ∙ h),
      v,
      refl,
      ground arith,
      ground arith,
    )
  ]

  -- A descriptor that is broken counts as readable and as writable.
  trigger_unawaited :
      (r : Progress → Outcome IoManager) (p : ℕ) (c : FdContext)
      → IsFdContext c
      → ((c.events.reads && not c.events.writes) || (c.events.writes && not c.events.reads)) ≡ true
      → (trigger_if true read ([], (p, c)) >>= λ q. trigger_if true write q >>= r) ≡ asserted
  unfolding trigger_if trigger_event
  trigger_unawaited r p c v one = elim (Bool-cases c.events.reads) [
    | inl on ↦
        let off : c.events.writes ≡ false = ground (arith, one, on) in
        let run = trigger_event_lem read c v on in
        ap
          (λ o.
            (o >>= λ (s : List (ℕ × Task) × FdContext). done ([] ++ s.0, (minus_one p, s.1)))
            >>= λ q. trigger_if true write q >>= r)
          run
        ∙ rw off refl
    | inr off ↦ rw off refl
  ]

  -- On a valid manager, if epoll reports an error or a hang-up on a descriptor awaited for one of
  -- reading and writing only, and epoll_ctl removes the descriptor, the round of `idle` for it
  -- fails an ASSERT.
  pub handle_event_broken :
      (m : IoManager) (c : FdContext)
      → IsValid m
      → get_elem? m.fd_contexts fd ≡ some c
      → broken ≡ true
      → ((c.events.reads && not c.events.writes) || (c.events.writes && not c.events.reads)) ≡ true
      → ctl ctl_del fd no_events ≡ true
      → handle_event ctl fd broken in_flag out_flag m ≡ asserted
  unfolding handle_event_in
  handle_event_broken m c v at b one given =
      let one_ok = IsFdContext-get m.fd_contexts fd c v.contexts_ok at in
      let r : in_flag || broken ≡ true = ground (arith, b) in
      let w : out_flag || broken ≡ true = ground (arith, b) in
      let on : meets c.events ≡ true = ground (arith, one, r, w) in
      let nr : (left_of c.events).reads ≡ false = ground (arith, r) in
      let nw : (left_of c.events).writes ≡ false = ground (arith, w) in
      let rest : ctl (op_left (left_of c.events)) fd (left_of c.events) ≡ true =
        subst (λ (s : Events). ctl (op_left s) fd s ≡ true)
          (λ i. record { reads = sym nr i; writes = sym nw i }) given in
      handle_event-in m c at
      ∙ rw (on, rest, r, w)
          (trigger_unawaited (λ q. done (put_back fd q.0 q.1.1 q.1.0 m)) m.pending_event_count c
            one_ok one)
