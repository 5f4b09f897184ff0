-- ===== src/Fiber/Switching.antt =====
-- Which fiber runs after the switches of src/async/fiber.cpp.
use cpp_server_framework.Prelude.{
  ℕ, ◌≡◌, ◌≢◌, refl, sym, ap, ◌∙◌, inl, inr, Bool, true, false, Bool-cases, none, some, IfSome,
  if_some_at, ◌==◌, if◌then◌else◌, arith,
}
use cpp_server_framework.Scheduler.{init, exec, term, ready, except, is_exec}
use cpp_server_framework.Fiber.{
  Thread, Entry, main_func, main_func_caller, put, swap_context, new_fiber, is_free, reset, swap_in,
  swap_out, call, uncall, yield_to_ready, yield_to_hold, end_fiber, Step, swaps_in, calls,
  yields_ready, yields_hold, uncalls, ends, makes, resets, Steps, done, then_step,
}

-- The stack that runs is that of t_fiber, and each other context goes on with its own stack.
pub record IsConsistent (t : Thread) : Type 0 where
  pub current : t.this ≡ t.running
  pub own : (i : ℕ) → t.running ≢ i → t.contexts i ≡ i

put_at : (i : ℕ) (a : ℕ) (f : ℕ → ℕ) → put i a f i ≡ a
put_at i a f = let same : (i == i) ≡ true = ground arith in rw same refl

-- A switch away from the stack that runs.
switch-IsConsistent :
    (save load : ℕ) (t : Thread)
    → t.running ≡ save
    → t.this ≡ load
    → ((i : ℕ) → t.running ≢ i → t.contexts i ≡ i)
    → IsConsistent (swap_context save load t) × ((swap_context save load t).running ≡ load)
switch-IsConsistent save load t from to own = (
  record { current = to ∙ sym loaded; own = λ i differs. kept i (λ e. differs (loaded ∙ e)) },
  loaded,
)
  where
    loaded : put save t.running t.contexts load ≡ load
    loaded = elim (Bool-cases (save == load)) [
      | inl same ↦ let e : save ≡ load = ground (arith, same) in rw same (from ∙ e)
      | inr other ↦
          let differs : t.running ≢ load = λ e. absurd (ground (arith, other, from, e)) in
          rw other (own load differs)
    ]

    kept : (i : ℕ) → load ≢ i → put save t.running t.contexts i ≡ i
    kept i differs = elim (Bool-cases (save == i)) [
      | inl same ↦ let e : save ≡ i = ground (arith, same) in rw same (from ∙ e)
      | inr other ↦
          let apart : t.running ≢ i = λ e. absurd (ground (arith, other, from, e)) in
          rw other (own i apart)
    ]

own_put :
    (f : ℕ) (t : Thread)
    → ((i : ℕ) → t.running ≢ i → t.contexts i ≡ i)
    → (i : ℕ) → t.running ≢ i
    → put f f t.contexts i ≡ i
own_put f t own i apart = elim (Bool-cases (f == i)) [
  | inl same ↦ let e : f ≡ i = ground (arith, same) in rw same e
  | inr other ↦ rw other (own i apart)
]

swap_out-IsConsistent :
    (f : ℕ) (t : Thread)
    → t.running ≡ f
    → ((i : ℕ) → t.running ≢ i → t.contexts i ≡ i)
    → IsConsistent (swap_out f t) × ((swap_out f t).running ≡ t.main_fiber)
unfolding swap_out
swap_out-IsConsistent f t from own =
    switch-IsConsistent f t.main_fiber (record t { this = t.main_fiber }) from refl own

uncall-IsConsistent :
    (f : ℕ) (t : Thread)
    → t.running ≡ f
    → ((i : ℕ) → t.running ≢ i → t.contexts i ≡ i)
    → IsConsistent (uncall f t) × ((uncall f t).running ≡ t.thread_fiber)
unfolding uncall
uncall-IsConsistent f t from own =
    switch-IsConsistent f t.thread_fiber (record t { this = t.thread_fiber }) from refl own

abbrev after_end : Entry → Thread → ℕ
after_end main_func t = t.main_fiber
after_end main_func_caller t = t.thread_fiber

end_fiber-IsConsistent :
    (throws : Bool) (t : Thread)
    → IsConsistent t
    → IsConsistent (end_fiber throws t)
      × ((end_fiber throws t).running ≡ after_end (t.entries t.this) t)
unfolding end_fiber
end_fiber-IsConsistent throws t h = by_entry (t.entries t.this)
  where
    ended : Thread
    ended = record t { states = put t.this (if throws then except else term) t.states }

    by_entry :
        (e : Entry)
        → (let t' = elim e as (λ _. Thread) [
          | main_func ↦ swap_out t.this ended
          | main_func_caller ↦ uncall t.this ended
        ] in
            IsConsistent t' × (t'.running ≡ after_end e t))
    by_entry main_func = swap_out-IsConsistent t.this ended (sym h.current) h.own
    by_entry main_func_caller = uncall-IsConsistent t.this ended (sym h.current) h.own

Step-IsConsistent : (t t' : Thread) → Step t t' → IsConsistent t → IsConsistent t'
unfolding swap_in call yield_to_ready yield_to_hold new_fiber reset
Step-IsConsistent t t' (swaps_in f a b from swapped) h =
    if_some_at IsConsistent (swap_in f a) b swapped (by_state (is_exec (a.states f)))
  where
    by_state :
        (e : Bool)
        → IfSome IsConsistent (
            if e
            then none
            else some
                (swap_context a.main_fiber f (record a { this = f; states = put f exec a.states })))
    by_state true = tt
    by_state false =
        (switch-IsConsistent a.main_fiber f (record a { this = f; states = put f exec a.states })
          from refl h.own).0
Step-IsConsistent t t' (calls f a from) h =
    (switch-IsConsistent a.thread_fiber f (record a { this = f; states = put f exec a.states }) from
      refl h.own).0
Step-IsConsistent t t' (yields_ready a) h =
    (swap_out-IsConsistent a.this (record a { states = put a.this ready a.states }) (sym h.current)
      h.own).0
Step-IsConsistent t t' (yields_hold a) h = (swap_out-IsConsistent a.this a (sym h.current) h.own).0
Step-IsConsistent t t' (uncalls a) h = (uncall-IsConsistent a.this a (sym h.current) h.own).0
Step-IsConsistent t t' (ends throws a) h = (end_fiber-IsConsistent throws a h).0
Step-IsConsistent t t' (makes f use_caller a apart) h = record {
  current = h.current;
  own = own_put f a h.own;
}
Step-IsConsistent t t' (resets f a b apart done_reset) h =
    if_some_at IsConsistent (reset f a) b done_reset (by_state (is_free (a.states f)))
  where
    by_state :
        (e : Bool)
        → IfSome IsConsistent (
            if e
            then some (record a {
              states = put f init a.states;
              contexts = put f f a.contexts;
              entries = put f main_func a.entries;
            })
            else none)
    by_state true = record { current = h.current; own = own_put f a h.own }
    by_state false = tt

-- If `t_fiber` is the fiber whose stack runs and each other context goes on with the stack of its
-- own fiber, this holds after any number of steps in which the fiber of the scheduler swaps one in,
-- that of the thread calls one, one that runs yields, is swapped out or ends, and fibers that do
-- not run are made or reset.
pub Steps-IsConsistent : (t t' : Thread) → Steps t t' → IsConsistent t → IsConsistent t'
Steps-IsConsistent t t' (done a) h = h
Steps-IsConsistent t t' (then_step a b c one more) h =
    Steps-IsConsistent b c more (Step-IsConsistent a b one h)

-- If `t_fiber` is the fiber whose stack runs, each other context goes on with the stack of its own
-- fiber and the fiber has the entry function that its constructor gives, then after its end the
-- fiber of the scheduler runs if it was made with `use_caller`, and the fiber of the thread if not.
pub end_fiber-new_fiber :
    (use_caller throws : Bool) (t : Thread)
    → IsConsistent t
    → t.entries t.this ≡ (new_fiber t.this use_caller t).entries t.this
    → (end_fiber throws t).running ≡ (if use_caller then t.main_fiber else t.thread_fiber)
unfolding new_fiber
end_fiber-new_fiber use_caller throws t h e =
    (end_fiber-IsConsistent throws t h).1 ∙ ap (λ x. after_end x t) e ∙ by_caller use_caller
  where
    same : (t.this == t.this) ≡ true
    same = ground arith

    by_caller :
        (b : Bool)
        → after_end (put t.this (if b then main_func else main_func_caller) t.entries t.this) t
          ≡ (if b then t.main_fiber else t.thread_fiber)
    by_caller true = rw same refl
    by_caller false = rw same refl
