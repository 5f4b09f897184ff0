-- ===== src/Scheduler.antt =====
-- src/async/scheduler.h and scheduler.cpp: the queue of tasks and one round of a worker thread.
-- A fiber, a callback and a thread are known by a number, `states` gives the state of each fiber
-- (src/async/fiber.h), and -1 for any thread is `none`. A switch of contexts is outside of the
-- program: `swap_in f` is all that happens until the fiber f gives the thread back. The lock of
-- the queue is held through each operation on it.
pub mod Picking
pub mod Counting
pub mod Rounds
use cpp_server_framework.Prelude.{
  ℕ, ◌+◌, ◌-◌, ◌%◌, ◌^◌, Bool, true, false, not, ◌&&◌, ◌||◌, List, [], ◌∷◌, ◌++◌, Option, none,
  some, is_some, ◌==◌, if◌then◌else◌,
}

pub data State : Type 0 where
  init hold exec term ready except : State

abbrev pub is_exec : State → Bool
is_exec exec = true
is_exec _ = false

abbrev pub is_ready : State → Bool
is_ready ready = true
is_ready _ = false

abbrev pub is_term : State → Bool
is_term term = true
is_term _ = false

-- TERM or EXCEPT.
abbrev pub is_over : State → Bool
is_over term = true
is_over except = true
is_over _ = false

pub record FiberAndThread : Type 0 where
  pub fiber : Option ℕ
  pub cb : Option ℕ
  pub thread : Option ℕ

abbrev pub has_work : FiberAndThread → Bool
has_work ft = is_some ft.fiber || is_some ft.cb

pub record Scheduler : Type 0 where
  pub fibers : List FiberAndThread
  pub active_thread_count : ℕ
  pub idle_thread_count : ℕ
  pub stopping_flag : Bool
  pub auto_stop : Bool
  pub states : ℕ → State

abbrev pub is_empty : List FiberAndThread → Bool
is_empty [] = true
is_empty (ft ∷ fts) = false

-- Whether the scheduler is to be tickled, and the queue.
unfoldable pub schedule_no_lock : FiberAndThread → List FiberAndThread → Bool × List FiberAndThread
schedule_no_lock ft fts = (is_empty fts, if has_work ft then fts ++ (ft ∷ []) else fts)

-- The batch.
unfoldable pub schedule_all : List FiberAndThread → List FiberAndThread → Bool × List FiberAndThread
schedule_all [] fts = (false, fts)
schedule_all (ft ∷ more) fts =
    let (tickles, fts') = schedule_no_lock ft fts in
    let (later, fts'') = schedule_all more fts' in (later || tickles, fts'')

-- A task that is for another thread.
abbrev pub is_elsewhere : ℕ → FiberAndThread → Bool
is_elsewhere me ft = elim ft.thread [ none ↦ false | some t ↦ not (t == me) ]

-- A fiber that runs already, on another thread.
abbrev pub is_running : (ℕ → State) → FiberAndThread → Bool
is_running states ft = elim ft.fiber [ none ↦ false | some f ↦ is_exec (states f) ]

pub record Picked : Type 0 where
  pub tickle_me : Bool
  pub task : Option FiberAndThread
  pub fibers : List FiberAndThread

-- The loop of `run` over the queue; `none` is a failed ASSERT.
unfoldable pub pick : ℕ → (ℕ → State) → List FiberAndThread → Option Picked
pick me states [] = some (record { tickle_me = false; task = none; fibers = [] })
pick me states (ft ∷ fts) =
    let rest = pick me states fts in
    if is_elsewhere me ft
    then elim rest [
      | none ↦ none
      | some p ↦ some (record p { tickle_me = true; fibers = ft ∷ p.fibers })
    ]
    else if not (has_work ft)
    then none
    else if is_running states ft
    then elim rest [ none ↦ none | some p ↦ some (record p { fibers = ft ∷ p.fibers }) ]
    else some (record { tickle_me = false; task = some ft; fibers = fts })

abbrev pub plus_one : ℕ → ℕ
plus_one n = (n + 1) % 2 ^ 64

abbrev pub minus_one : ℕ → ℕ
minus_one n = (n + (2 ^ 64 - 1)) % 2 ^ 64

abbrev pub set_state : ℕ → State → Scheduler → Scheduler
set_state f st s = record s { states = λ g. if g == f then st else s.states g }

abbrev pub fiber_task : ℕ → FiberAndThread
fiber_task f = record { fiber = some f; cb = none; thread = none }

abbrev pub schedule_fiber : ℕ → Scheduler → Scheduler
schedule_fiber f s = record s { fibers = (schedule_no_lock (fiber_task f) s.fibers).1 }

abbrev pub add_active : Scheduler → Scheduler
add_active s = record s { active_thread_count = plus_one s.active_thread_count }

abbrev pub drop_active : Scheduler → Scheduler
drop_active s = record s { active_thread_count = minus_one s.active_thread_count }

-- What the worker keeps: its `cb_fiber`, and whether its loop goes on.
pub record Round : Type 0 where
  pub goes_on : Bool
  pub cb_fiber : Option ℕ
  pub scheduler : Scheduler

-- What Fiber::reset asserts.
abbrev pub is_usable : State → Bool
is_usable init = true
is_usable st = is_over st

abbrev pub has_usable : Option ℕ → (ℕ → State) → Bool
has_usable none states = true
has_usable (some f) states = is_usable (states f)

abbrev pub target : ℕ → Option ℕ → ℕ
target fresh none = fresh
target fresh (some f) = f

-- `swap_in` runs a fiber; `fresh` is the address of the next fiber, for a callback that needs one.
module _ (swap_in : ℕ → Scheduler → Scheduler) (fresh : ℕ) where
  -- The task is a fiber f that is not over.
  unfoldable pub run_fiber : ℕ → Scheduler → Scheduler
  run_fiber f s =
      let s' = drop_active (swap_in f s) in
      if is_ready (s'.states f)
      then schedule_fiber f s'
      else if not (is_over (s'.states f))
      then set_state f hold s'
      else s'

  -- The task is a callback: it runs in `cb_fiber` or in a new fiber. `none` is a failed ASSERT of
  -- Fiber::reset.
  unfoldable pub run_cb : Option ℕ → Scheduler → Option (Option ℕ × Scheduler)
  run_cb cb_fiber s =
      let f = target fresh cb_fiber in
      let s' = drop_active (swap_in f (set_state f init s)) in
      if not (has_usable cb_fiber s.states)
      then none
      else if is_ready (s'.states f)
      then some (none, schedule_fiber f s')
      else if is_over (s'.states f)
      then some (some f, set_state f init s')
      else some (none, set_state f hold s')

  -- Nothing to do: the idle fiber runs, or the loop ends when that is over.
  unfoldable pub run_idle : ℕ → Option ℕ → Scheduler → Round
  run_idle idle_fiber cb_fiber s =
      let s1 = swap_in idle_fiber (record s { idle_thread_count = plus_one s.idle_thread_count }) in
      let s2 = record s1 { idle_thread_count = minus_one s1.idle_thread_count } in
      if is_term (s.states idle_fiber)
      then record { goes_on = false; cb_fiber = cb_fiber; scheduler = s }
      else if not (is_over (s2.states idle_fiber))
      then record { goes_on = true; cb_fiber = cb_fiber; scheduler = set_state idle_fiber hold s2 }
      else record { goes_on = true; cb_fiber = cb_fiber; scheduler = s2 }

  -- What is done with a task that was taken.
  unfoldable pub run_task : FiberAndThread → Option ℕ → Scheduler → Option Round
  run_task ft cb_fiber s =
      let over = elim ft.fiber as (λ _. Bool) [ none ↦ true | some f ↦ is_over (s.states f) ] in
      if not over
      then some (record {
        goes_on = true;
        cb_fiber = cb_fiber;
        scheduler = run_fiber (target fresh ft.fiber) s;
      })
      else if is_some ft.cb
      then elim (run_cb cb_fiber s) [
        | none ↦ none
        | some (cb_fiber', s') ↦
            some (record { goes_on = true; cb_fiber = cb_fiber'; scheduler = s' })
      ]
      else some (record { goes_on = true; cb_fiber = cb_fiber; scheduler = drop_active s })

  -- One round of the loop of `run` on the thread `me`: whether it tickles, and what it leaves.
  unfoldable pub run_round : ℕ → ℕ → Option ℕ → Scheduler → Option (Bool × Round)
  run_round me idle_fiber cb_fiber s = elim (pick me s.states s.fibers) [
    | none ↦ none
    | some p ↦
        let left = record s { fibers = p.fibers } in
        elim p.task [
          | none ↦ some (p.tickle_me, run_idle idle_fiber cb_fiber left)
          | some ft ↦ elim (run_task ft cb_fiber (add_active left)) [
            | none ↦ none
            | some r ↦ some (p.tickle_me, r)
          ]
        ]
  ]

unfoldable pub is_stopping : Scheduler → Bool
is_stopping s =
    s.auto_stop && (s.stopping_flag && (is_empty s.fibers && (s.active_thread_count == 0)))
