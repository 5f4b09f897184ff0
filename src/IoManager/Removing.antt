-- ===== src/IoManager/Removing.antt =====
-- `delEvent`, `cancelEvent` and `cancelAll` of src/async/iomanager.cpp on a manager in order.
use cpp_server_framework.Prelude.{
  ℕ, ◌+◌, ◌≡◌, subst, refl, sym, ap, ◌∙◌, inl, inr, Bool, true, false, not, ◌&&◌, List, [], ◌++◌,
  append-nil, get_elem?, none, some, Bool-cases, Option-cases, if◌then◌else◌, arith,
}
use cpp_server_framework.IoManager.{
  no_events, Event, Events, FdContext, IoManager, Task, Ctl, op_left, read, write, has, remove,
  get_context, Outcome, done, with_context, put_back, minus_one, del_event_in, del_event,
  cancel_event_in, cancel_event,
}
use cpp_server_framework.IoManager.Contexts.{
  waiting_at, events_at, events_of, waiting, IsFdContext, IsValid, awaited, all_awaited-set,
  IsFdContext-get, put_back-IsValid, tasks_of, cleared, trigger_event_lem, cleared-IsFdContext,
}
use cpp_server_framework.IoManager.Registering.{is_registered, registered_at, get_elem?-set}

cleared-awaited :
    (e : Event) (c : FdContext) → has c.events e ≡ true → awaited c ≡ awaited (cleared e c) + 1
cleared-awaited read c on = rw on (omega arith)
cleared-awaited write c on = rw on (omega arith)

cleared-has : (e : Event) (c : FdContext) → has (cleared e c).events e ≡ false
cleared-has read c = refl
cleared-has write c = refl

module _ (ctl : Ctl → ℕ → Events → Bool) (fd : ℕ) (e : Event) where
  abbrev del_done : IoManager → FdContext → IoManager
  del_done m c = put_back fd [] (cleared e c) (minus_one m.pending_event_count) m

  -- Whether `delEvent` gets as far as to remove the event.
  abbrev pub removes : Events → Bool
  removes s = has s e && ctl (op_left (remove s e)) fd (remove s e)

  del_event-cases :
      (m : IoManager) (c : FdContext)
      → get_elem? m.fd_contexts fd ≡ some c
      → del_event ctl fd e m ≡ (if removes c.events then (true, del_done m c) else (false, m))
  unfolding del_event del_event_in
  del_event-cases m c at =
      ap (λ o. with_context o (false, m) (λ x. del_event_in ctl fd e m x)) at
      ∙ (elim (Bool-cases (has c.events e)) [
        | inl on ↦ elim (Bool-cases (ctl (op_left (remove c.events e)) fd (remove c.events e))) [
          | inl given ↦ rw (on, given) refl
          | inr refused ↦ rw (on, refused) refl
        ]
        | inr off ↦ rw off refl
      ])

  del_event_missing :
      (m : IoManager) → get_elem? m.fd_contexts fd ≡ none → del_event ctl fd e m ≡ (false, m)
  unfolding del_event
  del_event_missing m at = ap (λ o. with_context o (false, m) (λ x. del_event_in ctl fd e m x)) at

  del_done-IsValid :
      (m : IoManager) (c : FdContext)
      → IsValid m
      → get_elem? m.fd_contexts fd ≡ some c
      → has c.events e ≡ true
      → IsValid (del_done m c)
  del_done-IsValid m c v at on =
      let d = cleared e c in
      let one = cleared-IsFdContext e c (IsFdContext-get m.fd_contexts fd c v.contexts_ok at) in
      let less = cleared-awaited e c on in
      put_back-IsValid m fd (minus_one m.pending_event_count) [] c d v at one
        (omega (arith, all_awaited-set m.fd_contexts fd c d at, less, v.counted))

  abbrev pub IsRemoved : IoManager → Bool × IoManager → Type 0
  IsRemoved m r =
      IsValid r.1
      × (r.0 ≡ removes (events_of fd m))
      × (is_registered e fd r.1 ≡ (is_registered e fd m && not r.0))
      × (r.1.tasks ≡ m.tasks)

  none_removed :
      (x : Event)
      → false ≡ (has no_events x && ctl (op_left (remove no_events x)) fd (remove no_events x))
  none_removed read = refl
  none_removed write = refl

  -- On a valid manager `delEvent` keeps the manager valid and schedules nothing; it returns true
  -- just if the event is awaited on the descriptor and epoll_ctl accepts the events that are left,
  -- and the event is awaited after it just if it was before and `delEvent` returned false.
  pub del_event-IsRemoved : (m : IoManager) → IsValid m → IsRemoved m (del_event ctl fd e m)
  del_event-IsRemoved m v = elim (Option-cases (get_elem? m.fd_contexts fd)) [
    | inl at ↦
        subst (IsRemoved m) (sym (del_event_missing m at))
          (v, rw at (none_removed e), rw at refl, refl)
    | inr (c, at) ↦ elim (Bool-cases (removes c.events)) [
      | inl yes_done ↦
          let on : has c.events e ≡ true = ground (arith, yes_done) in
          let run : del_event ctl fd e m ≡ (true, del_done m c) =
            del_event-cases m c at ∙ rw yes_done refl in
          let after : is_registered e fd (del_done m c) ≡ false =
            ap (registered_at e) (get_elem?-set m.fd_contexts fd c (cleared e c) at)
            ∙ cleared-has e c in
          let before : is_registered e fd m ≡ true = ap (registered_at e) at ∙ on in
          subst (IsRemoved m) (sym run) (
            del_done-IsValid m c v at on,
            sym (ap (λ o. removes (events_at o)) at ∙ yes_done),
            after ∙ rw before refl,
            append-nil m.tasks,
          )
      | inr kept ↦
          let run : del_event ctl fd e m ≡ (false, m) = del_event-cases m c at ∙ rw kept refl in
          subst (IsRemoved m) (sym run)
            (v, sym (ap (λ o. removes (events_at o)) at ∙ kept), ground arith, refl)
    ]
  ]

  -- What `cancelEvent` schedules.
  abbrev pub released : IoManager → List (ℕ × Task)
  released m = if (del_event ctl fd e m).0 then waiting e fd m else []

  abbrev cancel_done : IoManager → FdContext → IoManager
  cancel_done m c =
      put_back fd (tasks_of (get_context e c)) (cleared e c) (minus_one m.pending_event_count) m

  cancel_event-cases :
      (m : IoManager) (c : FdContext)
      → IsFdContext c
      → get_elem? m.fd_contexts fd ≡ some c
      → cancel_event ctl fd e m
        ≡ (if removes c.events then done (true, cancel_done m c) else done (false, m))
  unfolding cancel_event cancel_event_in
  cancel_event-cases m c v at =
      ap (λ o. with_context o (done (false, m)) (λ x. cancel_event_in ctl fd e m x)) at
      ∙ (elim (Bool-cases (has c.events e)) [
        | inl on ↦ elim (Bool-cases (ctl (op_left (remove c.events e)) fd (remove c.events e))) [
          | inl given ↦ let run = trigger_event_lem e c v on in rw (on, given, run) refl
          | inr refused ↦ rw (on, refused) refl
        ]
        | inr off ↦ rw off refl
      ])

  cancel_event_missing :
      (m : IoManager)
      → get_elem? m.fd_contexts fd ≡ none
      → cancel_event ctl fd e m ≡ done (false, m)
  unfolding cancel_event
  cancel_event_missing m at =
      ap (λ o. with_context o (done (false, m)) (λ x. cancel_event_in ctl fd e m x)) at

  -- The result of `cancelEvent` from that of `delEvent`.
  abbrev with_released : IoManager → Bool × IoManager → Outcome (Bool × IoManager)
  with_released m d =
      done (d.0, record d.1 { tasks = m.tasks ++ (if d.0 then waiting e fd m else []) })

  kept_released : (m : IoManager) → done (false, m) ≡ with_released m (false, m)
  kept_released m = ap (λ t. done (false, record m { tasks = t })) (sym (append-nil m.tasks))

  cancel_done_released :
      (m : IoManager) (c : FdContext)
      → get_elem? m.fd_contexts fd ≡ some c
      → done (true, cancel_done m c) ≡ with_released m (true, del_done m c)
  cancel_done_released m c at =
      ap (λ ts. done (true, record (del_done m c) { tasks = m.tasks ++ ts }))
        (sym (ap (waiting_at e) at))

  -- On a valid manager `cancelEvent` fails no ASSERT and does what `delEvent` does, with the same
  -- result, but schedules what waited for the event, on its own scheduler, if it returns true.
  pub cancel_event-del_event :
      (m : IoManager)
      → IsValid m
      → cancel_event ctl fd e m
        ≡ done (
          (del_event ctl fd e m).0,
          record (del_event ctl fd e m).1 { tasks = m.tasks ++ released m },
        )
  cancel_event-del_event m v = elim (Option-cases (get_elem? m.fd_contexts fd)) [
    | inl at ↦
        cancel_event_missing m at
        ∙ kept_released m
        ∙ ap (with_released m) (sym (del_event_missing m at))
    | inr (c, at) ↦
        let one = IsFdContext-get m.fd_contexts fd c v.contexts_ok at in
        let both = cancel_event-cases m c one at in
        let del = del_event-cases m c at in
        elim (Bool-cases (removes c.events)) [
          | inl yes_done ↦
              let run : cancel_event ctl fd e m ≡ done (true, cancel_done m c) =
                both ∙ rw yes_done refl in
              let run' : del_event ctl fd e m ≡ (true, del_done m c) = del ∙ rw yes_done refl in
              run ∙ cancel_done_released m c at ∙ ap (with_released m) (sym run')
          | inr kept ↦
              let run : cancel_event ctl fd e m ≡ done (false, m) = both ∙ rw kept refl in
              let run' : del_event ctl fd e m ≡ (false, m) = del ∙ rw kept refl in
              run ∙ kept_released m ∙ ap (with_released m) (sym run')
        ]
  ]
