-- ===== src/Timer/Operations.antt =====
-- `addTimer`, `cancel`, `refresh` and `reset` of src/async/timer.cpp on a valid manager.
use cpp_server_framework.Prelude.{
  ℕ, ◌≡◌, refl, sym, ap, ◌∙◌, inl, inr, Bool, true, false, not, ◌&&◌, ◌||◌, List, [], ◌∷◌, none,
  some, ◌==◌, if◌then◌else◌, Bool-cases, Option-cases, arith, ℕ_discrete,
}
use cpp_server_framework.Timer.{
  insert, erase, Timer, TimerManager, done, is_set, plus64, minus64, store, nexts, insert_timer,
  add_timer, cancel, refresh, reset,
}
use cpp_server_framework.Timer.Order.{mem, mem-insert}
use cpp_server_framework.Timer.Invariant.{
  IsValid, IsValidBut, none_out, attach-IsValidBut, drop-IsValidBut, detach, fresh-IsValidBut,
}

absent_gone : (a y : ℕ) (xs : List ℕ) → mem a xs ≡ false → mem y xs ≡ (mem y xs && not (y == a))
absent_gone a y xs off = elim (ℕ_discrete y a) [
  | yes e ↦ let off' : mem y xs ≡ false = ap (λ z. mem z xs) e ∙ off in rw off' refl
  | no ne ↦ ground (arith, ne)
]

module _ {C : Type 0} where
  -- `tickled` plays no part in the invariant.
  insert_timer-IsValid :
      (m : TimerManager C) (a : ℕ) (t : Timer C)
      → IsValidBut (a ∷ []) m
      → is_set t.cb ≡ true
      → IsValid (insert_timer a (record m { heap = store m.heap a t })).1
  unfolding insert_timer
  insert_timer-IsValid m a t v on =
      let w = none_out _ (attach-IsValidBut m a [] t v on) in
      record { ordered = w.ordered; live = w.live }

  -- On a valid manager `addTimer` at an address at which no timer with a callback stands, with a
  -- callback, keeps the invariant and brings the timer into the set.
  pub add_timer-IsValid :
      (now a ms : ℕ) (c : C) (recurring : Bool) (m : TimerManager C)
      → IsValid m
      → is_set (m.heap a).cb ≡ false
      → IsValid (add_timer now a ms (some c) recurring m).1
        × (mem a (add_timer now a ms (some c) recurring m).1.timers ≡ true)
  unfolding add_timer insert_timer
  add_timer-IsValid now a ms c recurring m v off =
      let t : Timer C = record {
        recurring = recurring;
        ms = ms;
        next = plus64 now ms;
        cb = some c;
      } in
      let next : ℕ → ℕ = λ x. (store m.heap a t x).next in
      (
        insert_timer-IsValid m a t (fresh-IsValidBut m a v off) refl,
        mem-insert next a a m.timers ∙ ground arith,
      )

  cancel_idle : (a : ℕ) (m : TimerManager C) → (m.heap a).cb ≡ none → cancel a m ≡ done (false, m)
  unfolding cancel
  cancel_idle a m e = ground arith

  cancel_live :
      (a : ℕ) (m : TimerManager C) (c : C) (ys : List ℕ)
      → (m.heap a).cb ≡ some c
      → erase (nexts m) a m.timers ≡ some ys
      → cancel a m
        ≡ done (
          true,
          record m { heap = store m.heap a (record (m.heap a) { cb = none }); timers = ys },
        )
  unfolding cancel
  cancel_live a m c ys e run = ground arith

  -- On a valid manager `cancel` finds its timer in the set whenever the timer has a callback, so
  -- that it never erases the end; it returns whether there was a callback, removes just this timer
  -- and keeps the invariant.
  pub cancel-IsValid :
      (a : ℕ) (m : TimerManager C)
      → IsValid m
      → (m' : TimerManager C) × (cancel a m ≡ done (is_set (m.heap a).cb, m'))
        × IsValid m'
        × ((y : ℕ) → mem y m'.timers ≡ (mem y m.timers && not (y == a)))
  cancel-IsValid a m v = elim (Option-cases (m.heap a).cb) [
    | inl none_set ↦
        let off : is_set (m.heap a).cb ≡ false = ap is_set none_set in
        (
          m,
          cancel_idle a m none_set ∙ ap (λ b. done (b, m)) (sym off),
          v,
          λ y. absent_gone a y m.timers (v.live a ∙ off),
        )
    | inr (c, set) ↦
        let on : is_set (m.heap a).cb ≡ true = ap is_set set in
        let (ys, run, w) = detach m a v on in
        let t : Timer C = record (m.heap a) { cb = none } in
        let m1 = record m { timers = ys } in
        let m2 = record m { heap = store m.heap a t; timers = ys } in
        (
          m2,
          cancel_live a m c ys set run ∙ ap (λ b. done (b, m2)) (sym on),
          none_out _ (drop-IsValidBut m1 a [] t w refl),
          λ y. ground (arith, w.live y, v.live y),
        )
  ]

  refresh_idle :
      (now a : ℕ) (m : TimerManager C) → (m.heap a).cb ≡ none → refresh now a m ≡ (false, m)
  unfolding refresh
  refresh_idle now a m e = ground arith

  refreshed : ℕ → ℕ → TimerManager C → List ℕ → TimerManager C
  refreshed now a m ys =
      let heap = store m.heap a (record (m.heap a) { next = plus64 now (m.heap a).ms }) in
      record m { heap = heap; timers = insert (λ x. (heap x).next) a ys }

  refresh_live :
      (now a : ℕ) (m : TimerManager C) (c : C) (ys : List ℕ)
      → (m.heap a).cb ≡ some c
      → erase (nexts m) a m.timers ≡ some ys
      → refresh now a m ≡ (true, refreshed now a m ys)
  unfolding refresh refreshed
  refresh_live now a m c ys e run = ground arith

  refreshed-IsValid :
      (now a : ℕ) (m : TimerManager C) (ys : List ℕ)
      → is_set (m.heap a).cb ≡ true
      → IsValidBut (a ∷ []) (record m { timers = ys })
      → IsValid (refreshed now a m ys)
        × ((refreshed now a m ys).heap a).next ≡ plus64 now (m.heap a).ms
  unfolding refreshed
  refreshed-IsValid now a m ys on w =
      let t : Timer C = record (m.heap a) { next = plus64 now (m.heap a).ms } in
      (none_out _ (attach-IsValidBut (record m { timers = ys }) a [] t w on), ground arith)

  -- On a valid manager `refresh` returns whether the timer has a callback; if so the deadline is
  -- the clock and the period added, else it stays; the invariant holds.
  pub refresh-IsValid :
      (now a : ℕ) (m : TimerManager C)
      → IsValid m
      → (m' : TimerManager C) × (refresh now a m ≡ (is_set (m.heap a).cb, m'))
        × IsValid m'
        × ((m'.heap a).next
            ≡ (if is_set (m.heap a).cb then plus64 now (m.heap a).ms else (m.heap a).next))
  refresh-IsValid now a m v = elim (Option-cases (m.heap a).cb) [
    | inl none_set ↦
        let off : is_set (m.heap a).cb ≡ false = ap is_set none_set in
        (m, refresh_idle now a m none_set ∙ ap (λ b. (b, m)) (sym off), v, rw off refl)
    | inr (c, set) ↦
        let on : is_set (m.heap a).cb ≡ true = ap is_set set in
        let (ys, run, w) = detach m a v on in
        let (w', e) = refreshed-IsValid now a m ys on w in
        let m' = refreshed now a m ys in
        (m', refresh_live now a m c ys set run ∙ ap (λ b. (b, m')) (sym on), w', rw on e)
  ]

  -- What `reset` makes of a timer whose erasure left `ys`.
  restarted : ℕ → ℕ → ℕ → Bool → TimerManager C → Timer C
  restarted now a ms from_now m =
      let t = m.heap a in
      let start = if from_now then now else minus64 t.next t.ms in
      record t { ms = ms; next = plus64 start ms }

  reset_same :
      (now a ms : ℕ) (from_now : Bool) (m : TimerManager C)
      → ((ms == (m.heap a).ms) && not from_now) ≡ true
      → reset now a ms from_now m ≡ (true, (false, m))
  unfolding reset
  reset_same now a ms from_now m e = rw e refl

  reset_idle :
      (now a ms : ℕ) (from_now : Bool) (m : TimerManager C)
      → ((ms == (m.heap a).ms) && not from_now) ≡ false
      → (m.heap a).cb ≡ none
      → reset now a ms from_now m ≡ (false, (false, m))
  unfolding reset
  reset_idle now a ms from_now m e off = rw e (ground (arith, off))

  reset_live :
      (now a ms : ℕ) (from_now : Bool) (m : TimerManager C) (c : C) (ys : List ℕ)
      → ((ms == (m.heap a).ms) && not from_now) ≡ false
      → (m.heap a).cb ≡ some c
      → erase (nexts m) a m.timers ≡ some ys
      → reset now a ms from_now m ≡ (
        true,
        insert_timer a
            (record m { heap = store m.heap a (restarted now a ms from_now m); timers = ys }),
      )
  unfolding reset restarted
  reset_live now a ms from_now m c ys e set run = rw e (ground (arith, set, run))

  back_again :
      (m : TimerManager C) (a y : ℕ) (ys : List ℕ) (next : ℕ → ℕ)
      → mem a m.timers ≡ true
      → ((z : ℕ) → mem z ys ≡ (mem z m.timers && not (z == a)))
      → mem y (insert next a ys) ≡ mem y m.timers
  back_again m a y ys next on left = mem-insert next a y ys ∙ elim (ℕ_discrete y a) [
    | yes e ↦
        let on' : mem y m.timers ≡ true = ap (λ z. mem z m.timers) e ∙ on in
        rw on' (ground (arith, e))
    | no ne ↦ ground (arith, ne, left y)
  ]

  abbrev pub IsRescheduled : (now a ms : ℕ) → Bool → TimerManager C → Type 0
  IsRescheduled now a ms from_now m =
      (woken : Bool) × (m' : TimerManager C) × (reset now a ms from_now m
        ≡ (((ms == (m.heap a).ms) && not from_now) || is_set (m.heap a).cb, (woken, m')))
      × IsValid m'
      × ((y : ℕ) → mem y m'.timers ≡ mem y m.timers)

  reset_armed :
      (now a ms : ℕ) (from_now : Bool) (m : TimerManager C) (c : C)
      → IsValid m
      → ((ms == (m.heap a).ms) && not from_now) ≡ false
      → (m.heap a).cb ≡ some c
      → IsRescheduled now a ms from_now m
  unfolding insert_timer restarted
  reset_armed now a ms from_now m c v e set =
      let on : is_set (m.heap a).cb ≡ true = ap is_set set in
      let (ys, run, w) = detach m a v on in
      let t = restarted now a ms from_now m in
      let next : ℕ → ℕ = λ x. (store m.heap a t x).next in
      let m1 = record m { timers = ys } in
      (
        _,
        _,
        reset_live now a ms from_now m c ys e set run
            ∙ (let both : true ≡ (((ms == (m.heap a).ms) && not from_now) || is_set (m.heap a).cb) =
                  rw (e, on) refl in
                ap (λ b. (b, insert_timer a (record m { heap = store m.heap a t; timers = ys })))
                  both),
        insert_timer-IsValid m1 a t w on,
        λ y. back_again m a y ys next (v.live a ∙ on) (λ z. ground (arith, w.live z, v.live z)),
      )

  -- On a valid manager `reset` returns true for the same period without `from_now` or for a timer
  -- with a callback; it keeps the invariant and the elements of the set.
  pub reset-IsValid :
      (now a ms : ℕ) (from_now : Bool) (m : TimerManager C)
      → IsValid m
      → IsRescheduled now a ms from_now m
  reset-IsValid now a ms from_now m v = elim (Bool-cases ((ms == (m.heap a).ms) && not from_now)) [
    | inl e ↦
        let both : true ≡ (((ms == (m.heap a).ms) && not from_now) || is_set (m.heap a).cb) =
          rw e refl in
        (false, m, reset_same now a ms from_now m e ∙ ap (λ b. (b, (false, m))) both, v, λ y. refl)
    | inr e ↦ elim (Option-cases (m.heap a).cb) [
      | inl off ↦
          let no_cb : is_set (m.heap a).cb ≡ false = ap is_set off in
          let both : false ≡ (((ms == (m.heap a).ms) && not from_now) || is_set (m.heap a).cb) =
            rw (e, no_cb) refl in
          (
            false,
            m,
            reset_idle now a ms from_now m e off ∙ ap (λ b. (b, (false, m))) both,
            v,
            λ y. refl,
          )
      | inr (c, set) ↦ reset_armed now a ms from_now m c v e set
    ]
  ]
