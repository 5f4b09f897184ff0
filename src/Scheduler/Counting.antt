-- ===== src/Scheduler/Counting.antt =====
-- What a round of `run` in src/async/scheduler.cpp does with a task, and the count of active threads.
use cpp_server_framework.Prelude.{
  ℕ, ◌^◌, ◌<◌, ◌≡◌, refl, ap, ◌∙◌, inl, inr, true, Option, none, some, Bool-cases, arith,
}
use cpp_server_framework.Scheduler.{
  State, init, is_over, is_ready, hold, is_usable, has_usable, target, is_term, Scheduler, has_work,
  plus_one, minus_one, set_state, schedule_fiber, fiber_task, add_active, drop_active, run_fiber,
  run_cb, run_idle,
}
use cpp_server_framework.Scheduler.Picking.{all, schedule_no_lock-all}

-- What running a fiber keeps: a fiber puts tasks with work to do into the queue, and counts no
-- threads.
pub record IsSwap (swap_in : ℕ → Scheduler → Scheduler) : Type 0 where
  pub counts_kept :
      (f : ℕ) (s : Scheduler) → (swap_in f s).active_thread_count ≡ s.active_thread_count
  pub work_kept :
      (f : ℕ) (s : Scheduler)
      → all has_work s.fibers ≡ true
      → all has_work (swap_in f s).fibers ≡ true

-- Each task in the queue has work to do, and n threads are active.
pub record IsCounted (n : ℕ) (s : Scheduler) : Type 0 where
  pub work : all has_work s.fibers ≡ true
  pub count : s.active_thread_count ≡ n
  pub small : n < 2 ^ 64

module _ (swap_in : ℕ → Scheduler → Scheduler) (fresh : ℕ) (swaps : IsSwap swap_in) where
  -- A fiber runs and the thread is no longer active.
  swapped-IsCounted :
      (n f : ℕ) (s : Scheduler)
      → IsCounted n s
      → IsCounted n (drop_active (swap_in f (add_active s)))
  swapped-IsCounted n f s v = record {
    work = swaps.work_kept f (add_active s) v.work;
    count = omega (arith, swaps.counts_kept f (add_active s), v.count, v.small);
    small = v.small;
  }

  set_state-IsCounted :
      (n f : ℕ) (st : State) (s : Scheduler) → IsCounted n s → IsCounted n (set_state f st s)
  set_state-IsCounted n f st s v = record { work = v.work; count = v.count; small = v.small }

  schedule_fiber-IsCounted :
      (n f : ℕ) (s : Scheduler) → IsCounted n s → IsCounted n (schedule_fiber f s)
  schedule_fiber-IsCounted n f s v = record {
    work = schedule_no_lock-all (fiber_task f) s.fibers v.work;
    count = v.count;
    small = v.small;
  }

  pub run_fiber-IsCounted :
      (n f : ℕ) (s : Scheduler)
      → IsCounted n s
      → IsCounted n (run_fiber swap_in fresh f (add_active s))
  unfolding run_fiber
  run_fiber-IsCounted n f s v =
      let s' = drop_active (swap_in f (add_active s)) in
      let v' = swapped-IsCounted n f s v in
      elim (Bool-cases (is_ready (s'.states f))) [
        | inl again ↦ rw again (schedule_fiber-IsCounted n f s' v')
        | inr on ↦ elim (Bool-cases (is_over (s'.states f))) [
          | inl over ↦ rw (on, over) v'
          | inr going ↦ rw (on, going) (set_state-IsCounted n f hold s' v')
        ]
      ]

  set_state-same : (f : ℕ) (st : State) (s : Scheduler) → (set_state f st s).states f ≡ st
  set_state-same f st s = ground arith

  -- The fiber is ready for the next callback, and the count is kept.
  pub record IsCalled (n : ℕ) (r : Option ℕ × Scheduler) : Type 0 where
    pub counted : IsCounted n r.1
    pub usable : has_usable r.0 r.1.states ≡ true

  pub run_cb-IsCalled :
      (n : ℕ) (cb_fiber : Option ℕ) (s : Scheduler)
      → IsCounted n s
      → has_usable cb_fiber s.states ≡ true
      → (r : Option ℕ × Scheduler) × (run_cb swap_in fresh cb_fiber (add_active s) ≡ some r)
        × IsCalled n r
  unfolding run_cb
  run_cb-IsCalled n cb_fiber s v u =
      let f = target fresh cb_fiber in
      let s1 = set_state f init s in
      let s' = drop_active (swap_in f (add_active s1)) in
      let v' = swapped-IsCounted n f s1 (set_state-IsCounted n f init s v) in
      elim (Bool-cases (is_ready (s'.states f))) [
        | inl again ↦ (
          (none, schedule_fiber f s'),
          rw (u, again) refl,
          record { counted = schedule_fiber-IsCounted n f s' v'; usable = refl },
        )
        | inr on ↦ elim (Bool-cases (is_over (s'.states f))) [
          | inl over ↦ (
            (some f, set_state f init s'),
            rw (u, on, over) refl,
            record {
              counted = set_state-IsCounted n f init s' v';
              usable = ap is_usable (set_state-same f init s');
            },
          )
          | inr going ↦ (
            (none, set_state f hold s'),
            rw (u, on, going) refl,
            record { counted = set_state-IsCounted n f hold s' v'; usable = refl },
          )
        ]
      ]

  pub run_idle-IsCounted :
      (n idle_fiber : ℕ) (cb_fiber : Option ℕ) (s : Scheduler)
      → IsCounted n s
      → IsCounted n (run_idle swap_in fresh idle_fiber cb_fiber s).scheduler
  unfolding run_idle
  run_idle-IsCounted n idle_fiber cb_fiber s v =
      let more = record s { idle_thread_count = plus_one s.idle_thread_count } in
      let s1 = swap_in idle_fiber more in
      let s2 = record s1 { idle_thread_count = minus_one s1.idle_thread_count } in
      let v2 : IsCounted n s2 = record {
        work = swaps.work_kept idle_fiber more v.work;
        count = swaps.counts_kept idle_fiber more ∙ v.count;
        small = v.small;
      } in
      elim (Bool-cases (is_term (s.states idle_fiber))) [
        | inl ended ↦ rw ended v
        | inr on ↦ elim (Bool-cases (is_over (s2.states idle_fiber))) [
          | inl over ↦ rw (on, over) v2
          | inr going ↦ rw (on, going) (set_state-IsCounted n idle_fiber hold s2 v2)
        ]
      ]
