-- ===== src/Examples/Tasks.antt =====
-- Tasks in the queue of src/async/scheduler.cpp, and the theorems on them.
use cpp_server_framework.Prelude.{
  ℕ, ◌≡◌, refl, false, ◌==◌, if◌then◌else◌, List, [], ◌∷◌, none, some, arith,
}
use cpp_server_framework.Scheduler.{
  State, FiberAndThread, Scheduler, Picked, hold, term, exec, pick, run_round,
}
use cpp_server_framework.Scheduler.Picking.{IsPicked, pick-IsPicked}
use cpp_server_framework.Scheduler.Counting.{IsSwap}
use cpp_server_framework.Scheduler.Rounds.{IsRound, run_round-IsRound}

-- Fiber 3 runs on another thread.
abbrev states_now : ℕ → State
states_now f = if f == 3 then exec else hold

abbrev for_thread_2 : FiberAndThread
for_thread_2 = record { fiber = some 4; cb = none; thread = some 2 }

abbrev running : FiberAndThread
running = record { fiber = some 3; cb = none; thread = none }

abbrev a_callback : FiberAndThread
a_callback = record { fiber = none; cb = some 8; thread = none }

abbrev nothing : FiberAndThread
nothing = record { fiber = none; cb = none; thread = none }

abbrev queue : List FiberAndThread
queue = for_thread_2 ∷ (running ∷ (a_callback ∷ []))

pick-IsPicked_example :
    (p : Picked) × (pick 1 states_now queue ≡ some p) × IsPicked 1 states_now queue p
pick-IsPicked_example = pick-IsPicked 1 states_now queue refl

abbrev busy : Scheduler
busy = record {
  fibers = queue;
  active_thread_count = 1;
  idle_thread_count = 0;
  stopping_flag = false;
  auto_stop = false;
  states = states_now;
}

-- A fiber that ends at once.
abbrev swap_in : ℕ → Scheduler → Scheduler
swap_in f s = record s { states = λ g. term }

swap_in-IsSwap : IsSwap swap_in
swap_in-IsSwap = record { counts_kept = λ f s. refl; work_kept = λ f s h. h }

run_round-IsRound_example :
    IsRound swap_in 20 swap_in-IsSwap 1 1 6 busy (run_round swap_in 20 1 6 none busy)
run_round-IsRound_example =
    run_round-IsRound swap_in 20 swap_in-IsSwap 1 1 6 none busy
      (record { work = refl; count = refl; small = omega arith }) refl
