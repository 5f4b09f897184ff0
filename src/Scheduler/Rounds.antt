-- ===== src/Scheduler/Rounds.antt =====
-- One round of `run` in src/async/scheduler.cpp: the count of active threads and the queue.
use cpp_server_framework.Prelude.{
  is_some, not, ◌||◌, ℕ, ◌≡◌, refl, sym, ap, ◌∙◌, inl, inr, Bool, true, ◌&&◌, List, ◌++◌, Option,
  none, some, Bool-cases, Option-cases, arith,
}
use cpp_server_framework.Scheduler.{
  State, is_over, has_usable, target, is_term, FiberAndThread, Scheduler, Picked, Round, has_work,
  pick, plus_one, add_active, drop_active, run_fiber, run_idle, run_task, run_round,
}
use cpp_server_framework.Scheduler.Picking.{
  is_taken, all, as_list, IsPicked, pick-IsPicked, all-append,
}
use cpp_server_framework.Scheduler.Counting.{
  IsSwap, IsCounted, run_fiber-IsCounted, run_cb-IsCalled, run_idle-IsCounted,
}

module _ (swap_in : ℕ → Scheduler → Scheduler) (fresh : ℕ) (swaps : IsSwap swap_in) where
  abbrev IsRun : ℕ → Option Round → Type 0
  IsRun n o = (r : Round) × (o ≡ some r) × (r.goes_on ≡ true) × IsCounted n r.scheduler

  run_task-IsRun :
      (n : ℕ) (ft : FiberAndThread) (cb_fiber : Option ℕ) (s : Scheduler)
      → IsCounted n s
      → has_usable cb_fiber s.states ≡ true
      → IsRun n (run_task swap_in fresh ft cb_fiber (add_active s))
  unfolding run_task
  run_task-IsRun n ft cb_fiber s v u =
      let over = elim ft.fiber as (λ _. Bool) [ none ↦ true | some f ↦ is_over (s.states f) ] in
      elim (Bool-cases over) [
        | inr going ↦ (
          record {
            goes_on = true;
            cb_fiber = cb_fiber;
            scheduler = run_fiber swap_in fresh (target fresh ft.fiber) (add_active s);
          },
          rw going refl,
          refl,
          run_fiber-IsCounted swap_in fresh swaps n (target fresh ft.fiber) s v,
        )
        | inl e ↦ elim (Bool-cases (is_some ft.cb)) [
          | inl called ↦
              let (r, run, w) = run_cb-IsCalled swap_in fresh swaps n cb_fiber s v u in
              (
                record { goes_on = true; cb_fiber = r.0; scheduler = r.1 },
                rw (e, called, run) refl,
                refl,
                w.counted,
              )
          | inr idle ↦ (
            record { goes_on = true; cb_fiber = cb_fiber; scheduler = drop_active (add_active s) },
            rw (e, idle) refl,
            refl,
            record { work = v.work; count = omega (arith, v.count, v.small); small = v.small },
          )
        ]
      ]

  picked-all :
      (me : ℕ) (states : ℕ → State) (fts : List FiberAndThread) (p : Picked)
      → IsPicked me states fts p
      → all has_work fts ≡ true
      → all has_work p.fibers ≡ true
  picked-all me states fts p v h =
      let whole : (all has_work v.front && (all has_work (as_list p.task) && all has_work v.back))
          ≡ true =
        sym (
          ap (all has_work) v.queue
          ∙ all-append has_work v.front (as_list p.task ++ v.back)
          ∙ ap (λ b. all has_work v.front && b) (all-append has_work (as_list p.task) v.back))
        ∙ h in
      ap (all has_work) v.left ∙ all-append has_work v.front v.back ∙ ground (arith, whole)

  abbrev pub IsRound : ℕ → ℕ → ℕ → Scheduler → Option (Bool × Round) → Type 0
  IsRound n me idle_fiber s o =
      (p : Picked) × (r : Round) × (o ≡ some (p.tickle_me, r))
      × IsPicked me s.states s.fibers p
      × (r.goes_on ≡ (is_taken p.task || not (is_term (s.states idle_fiber))))
      × IsCounted n r.scheduler

  run_idle-goes_on :
      (idle_fiber : ℕ) (cb_fiber : Option ℕ) (s : Scheduler)
      → (run_idle swap_in fresh idle_fiber cb_fiber s).goes_on ≡ not (is_term (s.states idle_fiber))
  unfolding run_idle
  run_idle-goes_on idle_fiber cb_fiber s =
      let more = record s { idle_thread_count = plus_one s.idle_thread_count } in
      let s1 = swap_in idle_fiber more in
      elim (Bool-cases (is_term (s.states idle_fiber))) [
        | inl ended ↦ rw ended refl
        | inr on ↦ elim (Bool-cases (is_over (s1.states idle_fiber))) [
          | inl over ↦ rw (on, over) refl
          | inr going ↦ rw (on, going) refl
        ]
      ]

  run_round-idle :
      (me idle_fiber : ℕ) (cb_fiber : Option ℕ) (s : Scheduler) (p : Picked)
      → pick me s.states s.fibers ≡ some p
      → p.task ≡ none
      → run_round swap_in fresh me idle_fiber cb_fiber s
        ≡ some (
          p.tickle_me,
          run_idle swap_in fresh idle_fiber cb_fiber (record s { fibers = p.fibers }),
        )
  unfolding run_round
  run_round-idle me idle_fiber cb_fiber s p run e = rw (run_round, run, e) refl

  -- If fibers leave `m_activeThreadCount` as it was and queue only tasks with work to do, if each
  -- task in the queue has a fiber or a callback, and if `cb_fiber` is empty or may be reset, then a
  -- round of `run` fails no ASSERT; it takes a task as `pick-IsPicked` has it and tickles by that,
  -- and the loop goes on unless nothing is taken and the idle fiber has ended; it leaves the count
  -- of active threads as before the round, and each task in the queue has a fiber or a callback
  -- again.
  pub run_round-IsRound :
      (n me idle_fiber : ℕ) (cb_fiber : Option ℕ) (s : Scheduler)
      → IsCounted n s
      → has_usable cb_fiber s.states ≡ true
      → IsRound n me idle_fiber s (run_round swap_in fresh me idle_fiber cb_fiber s)
  unfolding run_round
  run_round-IsRound n me idle_fiber cb_fiber s v u =
      let (p, run, w) = pick-IsPicked me s.states s.fibers v.work in
      let left = record s { fibers = p.fibers } in
      let v' : IsCounted n left = record {
        work = picked-all me s.states s.fibers p w v.work;
        count = v.count;
        small = v.small;
      } in
      elim (Option-cases p.task) [
        | inl e ↦ (
          p,
          run_idle swap_in fresh idle_fiber cb_fiber left,
          run_round-idle me idle_fiber cb_fiber s p run e,
          w,
          run_idle-goes_on idle_fiber cb_fiber left
              ∙ ap (λ o. is_taken o || not (is_term (s.states idle_fiber))) (sym e),
          run_idle-IsCounted swap_in fresh swaps n idle_fiber cb_fiber left v',
        )
        | inr (ft, e) ↦
            let (r, run', on, v'') = run_task-IsRun n ft cb_fiber left v' u in
            (
              p,
              r,
              rw (run_round, run, e, run') refl,
              w,
              on ∙ ap (λ o. is_taken o || not (is_term (s.states idle_fiber))) (sym e),
              v'',
            )
      ]
