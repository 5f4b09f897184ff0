-- ===== src/Examples/Timers.antt =====
-- Timers of src/async/timer.h whose callbacks are numbers, and the theorems on them.
use cpp_server_framework.Prelude.{
  ℕ, ◌-◌, ◌≤◌, ◌≡◌, refl, true, false, not, ◌&&◌, [], some, none, ◌==◌,
}
use cpp_server_framework.Timer.{
  TimerManager, done, is_set, nexts, add_timer, cancel, get_next_timer, list_expired_cb,
}
use cpp_server_framework.Timer.Order.{mem}
use cpp_server_framework.Timer.Invariant.{IsValid}
use cpp_server_framework.Timer.Operations.{add_timer-IsValid, cancel-IsValid}
use cpp_server_framework.Timer.Due.{IsListed, list_expired_cb-IsListed, get_next_timer-IsLeast}

abbrev idle : TimerManager ℕ
idle = record {
  heap = λ a. record { recurring = false; ms = 0; next = 0; cb = none };
  timers = [];
  tickled = false;
  previous = 0;
}

idle-IsValid : IsValid idle
idle-IsValid = record { ordered = tt; live = λ y. refl }

-- A recurring timer at 40 that is due at 150.
abbrev busy : TimerManager ℕ
busy = (add_timer 100 40 50 (some 1) true idle).1

busy-IsValid : IsValid busy
busy-IsValid = (add_timer-IsValid 100 40 50 1 true idle idle-IsValid refl).0

cancel-IsValid_example :
    (m' : TimerManager ℕ) × (cancel 40 busy ≡ done (is_set (busy.heap 40).cb, m'))
    × IsValid m'
    × ((y : ℕ) → mem y m'.timers ≡ (mem y busy.timers && not (y == 40)))
cancel-IsValid_example = cancel-IsValid 40 busy busy-IsValid

list_expired_cb-IsListed_example : IsListed 160 8 busy (list_expired_cb 160 8 busy)
list_expired_cb-IsListed_example = list_expired_cb-IsListed 160 8 busy busy-IsValid

get_next_timer-IsLeast_example :
    ((get_next_timer 120 busy).0 ≤ nexts busy 40 - 120)
    × (x : ℕ) × (mem x busy.timers ≡ true)
    × ((get_next_timer 120 busy).0 ≡ nexts busy x - 120)
get_next_timer-IsLeast_example =
    get_next_timer-IsLeast 120 40 busy busy-IsValid
      (add_timer-IsValid 100 40 50 1 true idle idle-IsValid refl).1
