-- ===== src/IoManager/Cancelling.antt =====
-- `cancelAll` of src/async/iomanager.cpp on a manager in order.
use cpp_server_framework.Prelude.{
  ℕ, ◌≡◌, refl, sym, ap, ◌∙◌, inl, inr, Bool, true, false, not, ◌&&◌, List, [], ◌++◌, get_elem?,
  none, some, Bool-cases, Option-cases, if◌then◌else◌, arith,
}
use cpp_server_framework.IoManager.{
  Events, FdContext, IoManager, Task, Ctl, ctl_del, read, write, is_none, no_events, Outcome, done,
  asserted, with_context, put_back, cancel_all_in, cancel_all,
}
use cpp_server_framework.IoManager.Contexts.{
  events_at, events_of, waiting, waiting_at, IsFdContext, IsValid, IsFdContext-get,
}
use cpp_server_framework.IoManager.Registering.{is_registered, registered_at, get_elem?-set}
use cpp_server_framework.IoManager.Triggers.{
  fired_both, woken, woken-IsValid, Progress, and_not, and_false, fired_both-none, trigger_then_own,
}

module _ (ctl : Ctl → ℕ → Events → Bool) (fd : ℕ) where
  cancel_all-in :
      (m : IoManager) (c : FdContext)
      → get_elem? m.fd_contexts fd ≡ some c
      → cancel_all ctl fd m ≡ cancel_all_in ctl fd m c
  unfolding cancel_all
  cancel_all-in m c at =
      ap (λ o. with_context o (done (false, m)) (λ x. cancel_all_in ctl fd m x)) at

  -- What `cancelAll` schedules, if it gets as far.
  abbrev pub all_waiting : IoManager → List (ℕ × Task)
  all_waiting m =
      (if is_registered read fd m then waiting read fd m else [])
      ++ (if is_registered write fd m then waiting write fd m else [])

  abbrev pub IsCancelled : IoManager → Outcome (Bool × IoManager) → Type 0
  IsCancelled m r =
      (given : Bool) × (m' : IoManager) × (r ≡ done (given, m'))
      × (given ≡ (not (is_none (events_of fd m)) && ctl ctl_del fd no_events))
      × IsValid m'
      × (m'.tasks ≡ (if given then m.tasks ++ all_waiting m else m.tasks))
      × (is_registered read fd m' ≡ (is_registered read fd m && not given))
      × (is_registered write fd m' ≡ (is_registered write fd m && not given))

  cancel_all_missing :
      (m : IoManager) → get_elem? m.fd_contexts fd ≡ none → cancel_all ctl fd m ≡ done (false, m)
  unfolding cancel_all
  cancel_all_missing m at =
      ap (λ o. with_context o (done (false, m)) (λ x. cancel_all_in ctl fd m x)) at

  cancel_all_idle :
      (m : IoManager) (c : FdContext)
      → is_none c.events ≡ true
      → cancel_all_in ctl fd m c ≡ done (false, m)
  unfolding cancel_all_in
  cancel_all_idle m c off = rw off refl

  cancel_all_refused :
      (m : IoManager) (c : FdContext)
      → is_none c.events ≡ false
      → ctl ctl_del fd no_events ≡ false
      → cancel_all_in ctl fd m c ≡ done (false, m)
  unfolding cancel_all_in
  cancel_all_refused m c on refused = rw (on, refused) refl

  cancel_all_given :
      (m : IoManager) (c : FdContext)
      → IsFdContext c
      → is_none c.events ≡ false
      → ctl ctl_del fd no_events ≡ true
      → cancel_all_in ctl fd m c ≡ done (true, woken fd c.events.reads c.events.writes c m)
  unfolding cancel_all_in
  cancel_all_given m c v on given =
      let k : Progress → Outcome (Bool × IoManager) = λ q.
        if is_none (q.1.1).events then done (true, put_back fd q.0 q.1.1 q.1.0 m) else asserted in
      let r = c.events.reads in
      let w = c.events.writes in
      let end = fired_both-none c in
      rw (on, given)
        (trigger_then_own c.events.reads m.pending_event_count c k v (and_not r) (and_not w)
          ∙ ap (λ b. if b then done (true, woken fd r w c m) else asserted) end)

  kept_IsCancelled :
      (m : IoManager)
      → IsValid m
      → cancel_all ctl fd m ≡ done (false, m)
      → (not (is_none (events_of fd m)) && ctl ctl_del fd no_events) ≡ false
      → IsCancelled m (cancel_all ctl fd m)
  kept_IsCancelled m v run kept = (false, m, run, sym kept, v, refl, ground arith, ground arith)

  given_IsCancelled :
      (m : IoManager) (c : FdContext)
      → IsValid m
      → get_elem? m.fd_contexts fd ≡ some c
      → is_none c.events ≡ false
      → ctl ctl_del fd no_events ≡ true
      → IsCancelled m (cancel_all ctl fd m)
  given_IsCancelled m c v at on given =
      let one = IsFdContext-get m.fd_contexts fd c v.contexts_ok at in
      let r = c.events.reads in
      let w = c.events.writes in
      let d = fired_both r w c in
      let none_left = fired_both-none c in
      let put = get_elem?-set m.fd_contexts fd c d at in
      let no_read : d.events.reads ≡ false = ground (arith, none_left) in
      let no_write : d.events.writes ≡ false = ground (arith, none_left) in
      (
        true,
        woken fd r w c m,
        cancel_all-in m c at ∙ cancel_all_given m c one on given,
        sym (
            ap (λ o. not (is_none (events_at o)) && ctl ctl_del fd no_events) at
            ∙ rw (on, given) refl),
        woken-IsValid fd r w c m v at (and_not r) (and_not w),
        ap
            (λ o.
              m.tasks
              ++ ((if registered_at read o then waiting_at read o else [])
                  ++ (if registered_at write o then waiting_at write o else [])))
            (sym at),
        ap (registered_at read) put ∙ no_read ∙ sym (and_false (is_registered read fd m)),
        ap (registered_at write) put ∙ no_write ∙ sym (and_false (is_registered write fd m)),
      )

  -- On a valid manager `cancelAll` fails no ASSERT and returns true just if an event is awaited on
  -- the descriptor and epoll_ctl deletes it; if it returns true, it has scheduled what waited for
  -- reading and then what waited for writing, each once, and neither is awaited any more; else it
  -- has changed nothing of these; the manager is valid again.
  pub cancel_all-IsCancelled : (m : IoManager) → IsValid m → IsCancelled m (cancel_all ctl fd m)
  cancel_all-IsCancelled m v = elim (Option-cases (get_elem? m.fd_contexts fd)) [
    | inl at ↦ (false, m, cancel_all_missing m at, rw at refl, v, refl, rw at refl, rw at refl)
    | inr (c, at) ↦ elim (Bool-cases (is_none c.events)) [
      | inl off ↦
          kept_IsCancelled m v (cancel_all-in m c at ∙ cancel_all_idle m c off)
            (ap (λ o. not (is_none (events_at o)) && ctl ctl_del fd no_events) at ∙ rw off refl)
      | inr on ↦ elim (Bool-cases (ctl ctl_del fd no_events)) [
        | inl given ↦ given_IsCancelled m c v at on given
        | inr refused ↦
            kept_IsCancelled m v (cancel_all-in m c at ∙ cancel_all_refused m c on refused) (
              ap (λ o. not (is_none (events_at o)) && ctl ctl_del fd no_events) at
              ∙ rw (on, refused) refl)
      ]
    ]
  ]
