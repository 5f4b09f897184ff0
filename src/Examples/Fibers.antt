-- ===== src/Examples/Fibers.antt =====
-- Switches of fibers for src/async/fiber.cpp, and the theorems on them.
use cpp_server_framework.Prelude.{◌≡◌, refl, false, none, some, arith}
use cpp_server_framework.Scheduler.{exec}
use cpp_server_framework.Fiber.{
  Thread, main_func_caller, new_fiber, swap_in, yield_to_hold, end_fiber, swaps_in, makes,
  yields_hold, Steps, done, then_step,
}
use cpp_server_framework.Fiber.Switching.{IsConsistent, Steps-IsConsistent, end_fiber-new_fiber}

-- The root thread of a scheduler: its own fiber is 0, that of the scheduler 1, which runs.
abbrev root_thread : Thread
root_thread = record {
  running = 1;
  this = 1;
  thread_fiber = 0;
  main_fiber = 1;
  states = λ i. exec;
  contexts = λ i. i;
  entries = λ i. main_func_caller;
}

root_thread-IsConsistent : IsConsistent root_thread
root_thread-IsConsistent = record { current = refl; own = λ i e. refl }

abbrev with_fiber : Thread
with_fiber = new_fiber 2 false root_thread

abbrev in_fiber : Thread
in_fiber = elim (swap_in 2 with_fiber) [ none ↦ with_fiber | some t ↦ t ]

is_swapped : swap_in 2 with_fiber ≡ some in_fiber
unfolding swap_in new_fiber
is_swapped = refl

runs_scheduler : with_fiber.running ≡ with_fiber.main_fiber
unfolding new_fiber
runs_scheduler = refl

-- A fiber is made, swapped in, and gives the thread back.
root_thread-Steps : Steps root_thread (yield_to_hold in_fiber)
root_thread-Steps =
    then_step root_thread with_fiber (yield_to_hold in_fiber)
      (makes 2 false root_thread (λ e. omega (arith, e)))
      (then_step with_fiber in_fiber (yield_to_hold in_fiber)
        (swaps_in 2 with_fiber in_fiber runs_scheduler is_swapped)
        (then_step in_fiber (yield_to_hold in_fiber) (yield_to_hold in_fiber) (yields_hold in_fiber)
          (done (yield_to_hold in_fiber))))

Steps-IsConsistent_example : IsConsistent (yield_to_hold in_fiber)
Steps-IsConsistent_example =
    Steps-IsConsistent root_thread (yield_to_hold in_fiber) root_thread-Steps
      root_thread-IsConsistent

in_fiber-IsConsistent : IsConsistent in_fiber
in_fiber-IsConsistent =
    Steps-IsConsistent root_thread in_fiber
      (then_step root_thread with_fiber in_fiber (makes 2 false root_thread (λ e. omega (arith, e)))
        (then_step with_fiber in_fiber in_fiber
          (swaps_in 2 with_fiber in_fiber runs_scheduler is_swapped) (done in_fiber)))
      root_thread-IsConsistent

in_fiber_entry :
    in_fiber.entries in_fiber.this ≡ (new_fiber in_fiber.this false in_fiber).entries in_fiber.this
unfolding swap_in new_fiber
in_fiber_entry = refl

-- The thread's fiber runs next, not the scheduler's.
end_fiber-new_fiber_example : (end_fiber false in_fiber).running ≡ in_fiber.thread_fiber
end_fiber-new_fiber_example =
    end_fiber-new_fiber false false in_fiber in_fiber-IsConsistent in_fiber_entry
