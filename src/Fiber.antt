-- ===== src/Fiber.antt =====
-- src/async/fiber.h and fiber.cpp: the fibers of one thread and the switch between them. A fiber is
-- known by a number, which is also that of its stack. `getcontext`, `makecontext` and `swapcontext` are
-- outside of the program: a context is the stack that goes on when it is switched to.
pub mod Switching
use cpp_server_framework.Prelude.{
  ℕ, ◌≡◌, ◌≢◌, Bool, true, false, not, Option, none, some, ◌==◌, if◌then◌else◌,
}
use cpp_server_framework.Scheduler.{State, init, exec, term, ready, except, is_exec, is_over}

pub data Entry : Type 0 where
  main_func : Entry
  main_func_caller : Entry

-- `running` is the stack that runs, `this` is t_fiber, `thread_fiber` is t_threadFiber and `main_fiber`
-- what Scheduler::GetMainFiber gives.
pub record Thread : Type 0 where
  pub running : ℕ
  pub this : ℕ
  pub thread_fiber : ℕ
  pub main_fiber : ℕ
  pub states : ℕ → State
  pub contexts : ℕ → ℕ
  pub entries : ℕ → Entry

abbrev pub put {ℓ} : {A : Type ℓ} → ℕ → A → (ℕ → A) → ℕ → A
put i a f j = if i == j then a else f j

-- swapcontext(&save->m_ctx, &load->m_ctx)
abbrev pub swap_context : ℕ → ℕ → Thread → Thread
swap_context save load t =
    let contexts = put save t.running t.contexts in
    record t { contexts = contexts; running = contexts load }

-- The constructor with a callback.
unfoldable pub new_fiber : ℕ → Bool → Thread → Thread
new_fiber f use_caller t = record t {
  states = put f init t.states;
  contexts = put f f t.contexts;
  entries = put f (if use_caller then main_func else main_func_caller) t.entries;
}

abbrev pub is_free : State → Bool
is_free init = true
is_free state = is_over state

-- The four switches and `reset`; `none` is an ASSERT that fails.
unfoldable pub reset : ℕ → Thread → Option Thread
reset f t =
    if is_free (t.states f)
    then some (record t {
      states = put f init t.states;
      contexts = put f f t.contexts;
      entries = put f main_func t.entries;
    })
    else none

unfoldable pub swap_in : ℕ → Thread → Option Thread
swap_in f t =
    if is_exec (t.states f)
    then none
    else some (swap_context t.main_fiber f (record t { this = f; states = put f exec t.states }))

unfoldable pub swap_out : ℕ → Thread → Thread
swap_out f t = swap_context f t.main_fiber (record t { this = t.main_fiber })

unfoldable pub call : ℕ → Thread → Thread
call f t = swap_context t.thread_fiber f (record t { this = f; states = put f exec t.states })

unfoldable pub uncall : ℕ → Thread → Thread
uncall f t = swap_context f t.thread_fiber (record t { this = t.thread_fiber })

unfoldable pub yield_to_ready : Thread → Thread
yield_to_ready t = swap_out t.this (record t { states = put t.this ready t.states })

unfoldable pub yield_to_hold : Thread → Thread
yield_to_hold t = swap_out t.this t

-- The end of MainFunc and of MainFuncCaller, after a callback that returns or throws.
unfoldable pub end_fiber : Bool → Thread → Thread
end_fiber throws t =
    let ended = record t { states = put t.this (if throws then except else term) t.states } in
    elim (t.entries t.this) [
      | main_func ↦ swap_out t.this ended
      | main_func_caller ↦ uncall t.this ended
    ]

-- What can happen on a thread: its scheduler's fiber swaps a fiber in, its own fiber calls one, and
-- one that runs gives the thread back or ends.
pub data Step : Thread → Thread → Type 0 where
  swaps_in : (f : ℕ) (t t' : Thread) → t.running ≡ t.main_fiber → swap_in f t ≡ some t' → Step t t'
  calls : (f : ℕ) (t : Thread) → t.running ≡ t.thread_fiber → Step t (call f t)
  yields_ready : (t : Thread) → Step t (yield_to_ready t)
  yields_hold : (t : Thread) → Step t (yield_to_hold t)
  uncalls : (t : Thread) → Step t (uncall t.this t)
  ends : (throws : Bool) (t : Thread) → Step t (end_fiber throws t)
  makes :
      (f : ℕ) (use_caller : Bool) (t : Thread) → t.running ≢ f → Step t (new_fiber f use_caller t)
  resets : (f : ℕ) (t t' : Thread) → t.running ≢ f → reset f t ≡ some t' → Step t t'

pub data Steps : Thread → Thread → Type 0 where
  done : (t : Thread) → Steps t t
  then_step : (t t' t'' : Thread) → Step t t' → Steps t' t'' → Steps t t''
