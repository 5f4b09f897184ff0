-- ===== src/Hook.antt =====
-- src/async/hook.cpp: the functions that take the place of the system calls. The system calls are
-- outside of the program: what they answer is given, a number or an errno. A descriptor is a number
-- (-1 is no number).
pub mod Waiting
pub mod Descriptors
pub mod Flags
use cpp_server_framework.Prelude.{
  ℕ, ◌+◌, ◌-◌, ◌*◌, ◌/◌, ◌%◌, ◌^◌, Bool, true, false, not, ◌&&◌, ◌||◌, List, [], ◌∷◌, ◌++◌, Option,
  none, some, is_some, ltb, ◌==◌, if◌then◌else◌,
}
use cpp_server_framework.FdManager.{
  FdCtx, FdManager, Look, found, goes_on, out_of_range, look, get, close as close_ctx, del,
  set_user_nonblock, set_timeout, get_timeout,
}

-- What a pointer that `get` gives points to.
abbrev pub ctx_at : Look → (ℕ → FdCtx) → Option FdCtx
ctx_at (found none) heap = none
ctx_at (found (some p)) heap = some (heap p)
ctx_at goes_on heap = none
ctx_at out_of_range heap = none

-- FdMgr::GetInstance()->get(fd)
unfoldable pub find_ctx : ℕ → FdManager → Option FdCtx
find_ctx fd m = ctx_at (look (some fd) false m) m.heap

-- What a call gives: its value, or -1 with errno.
pub data Answer : Type 0 where
  returned : ℕ → Answer
  failed : ℕ → Answer

abbrev pub eintr : ℕ
eintr = 4

abbrev pub ebadf : ℕ
ebadf = 9

abbrev pub eagain : ℕ
eagain = 11

abbrev pub etimedout : ℕ
etimedout = 110

abbrev pub einprogress : ℕ
einprogress = 115

-- (uint64_t)-1
abbrev pub no_timeout : ℕ
no_timeout = 2 ^ 64 - 1

-- What the functions do besides, in order.
pub data Action : Type 0 where
  calls : Action
  adds_timer : ℕ → Action
  adds_event : Action
  yields : Action
  cancels_timer : Action

-- What happens around a call: its answer, the errno if addEvent refuses, and whether the timer has
-- set `cancelled` when the fiber goes on.
pub data Try : Type 0 where
  attempt : Answer → Option ℕ → Bool → Try

-- What is done, and the result; `none` while the tries have not led to one.
abbrev pub Run : Type 0
Run = List Action × Option Answer

abbrev pub after : List Action → Run → Run
after actions r = (actions ++ r.0, r.1)

abbrev pub timer_on : ℕ → List Action
timer_on to = if to == no_timeout then [] else adds_timer to ∷ []

abbrev pub timer_off : ℕ → List Action
timer_off to = if to == no_timeout then [] else cancels_timer ∷ []

-- What follows EAGAIN in IOhook; the run given is that of the next round.
abbrev pub wait_event : ℕ → Option ℕ → Bool → Run → Run
wait_event to (some why) timed_out rest =
    (calls ∷ (timer_on to ++ (adds_event ∷ timer_off to)), some (failed why))
wait_event to none true rest =
    (calls ∷ (timer_on to ++ (adds_event ∷ (yields ∷ timer_off to))), some (failed etimedout))
wait_event to none false rest =
    after (calls ∷ (timer_on to ++ (adds_event ∷ (yields ∷ timer_off to)))) rest

-- The part of IOhook from the label `retry` on.
abbrev pub retry : ℕ → List Try → Run
retry to [] = ([], none)
retry to (attempt (returned n) refused timed_out ∷ ts) = (calls ∷ [], some (returned n))
retry to (attempt (failed e) refused timed_out ∷ ts) = elim (e == eintr) [
  | true ↦ after (calls ∷ []) (retry to ts)
  | false ↦ elim (e == eagain) [
    | true ↦ wait_event to refused timed_out (retry to ts)
    | false ↦ (calls ∷ [], some (failed e))
  ]
]

-- The original function.
abbrev pub original : List Try → Run
original [] = ([], none)
original (attempt answer refused timed_out ∷ ts) = (calls ∷ [], some answer)

-- IOhook; the flag is t_hook_enable, and `receives` whether timeout_so is SO_RCVTIMEO.
unfoldable pub io_hook : Bool → Option FdCtx → Bool → List Try → Run
io_hook false ctx receives tries = original tries
io_hook true none receives tries = original tries
io_hook true (some c) receives tries =
    if c.is_closed
    then ([], some (failed ebadf))
    else if not c.is_socket || c.user_nonblock
    then original tries
    else retry (get_timeout receives c) tries

-- The end of IOHook_connect: what getsockopt gives, an error of its own or the one of the socket.
abbrev pub connect_result : Option ℕ → ℕ → Answer
connect_result (some why) error = failed why
connect_result none error = if error == 0 then returned 0 else failed error

-- The part after the guards.
abbrev pub wait_connected : ℕ → Answer → Option ℕ → Bool → Answer → Run
wait_connected timeout_ms (returned n) refused timed_out result = (calls ∷ [], some (returned n))
wait_connected timeout_ms (failed e) refused timed_out result = elim (e == einprogress) [
  | false ↦ (calls ∷ [], some (failed e))
  | true ↦ elim refused [
    | none ↦ (
      calls ∷ (timer_on timeout_ms ++ (adds_event ∷ (yields ∷ timer_off timeout_ms))),
      some (if timed_out then failed etimedout else result),
    )
    | some why ↦ (calls ∷ (timer_on timeout_ms ++ (adds_event ∷ timer_off timeout_ms)), some result)
  ]
]

-- IOHook_connect
unfoldable pub io_hook_connect : Bool → Option FdCtx → ℕ → Try → Option ℕ → ℕ → Run
io_hook_connect false ctx timeout_ms (attempt answer refused timed_out) opt_error error =
    (calls ∷ [], some answer)
io_hook_connect true none timeout_ms t opt_error error = ([], some (failed ebadf))
io_hook_connect true (some c) timeout_ms (attempt answer refused timed_out) opt_error error =
    if c.is_closed
    then ([], some (failed ebadf))
    else if not c.is_socket
    then (calls ∷ [], some answer)
    else if c.user_nonblock
    then (calls ∷ [], some answer)
    else wait_connected timeout_ms answer refused timed_out (connect_result opt_error error)

-- The three functions that sleep: a call of the system function and what it gives while the hook is
-- off, else the time of the timer they wait for, in milliseconds; an unsigned int has 32 bits. In
-- nanosleep the sum is of longs, and the conversion to an int and to a uint64_t keeps the sign.
abbrev pub sleep_for : Bool → Answer → ℕ → Run
sleep_for false answer ms = (calls ∷ [], some answer)
sleep_for true answer ms = (adds_timer ms ∷ (yields ∷ []), some (returned 0))

unfoldable pub sleep : Bool → Answer → ℕ → Run
sleep enabled answer seconds = sleep_for enabled answer (seconds * 1000 % 2 ^ 32)

unfoldable pub usleep : Bool → Answer → ℕ → Run
usleep enabled answer usec = sleep_for enabled answer (usec / 1000)

abbrev pub int_to_uint64 : ℕ → ℕ
int_to_uint64 n = if ltb n (2 ^ 31) then n else n + (2 ^ 64 - 2 ^ 32)

unfoldable pub nanosleep : Bool → Answer → ℕ → ℕ → Run
nanosleep enabled answer tv_sec tv_nsec =
    sleep_for enabled answer (int_to_uint64 ((tv_sec * 1000 + tv_nsec / 1000 / 1000) % 2 ^ 32))
