-- ===== src/Hook/Waiting.antt =====
-- IOhook of src/async/hook.cpp against a call that blocks.
use cpp_server_framework.Prelude.{
  ℕ, suc, ◌+◌, ◌≡◌, refl, ap, ◌∙◌, ◌⊎◌, inl, inr, Bool, true, false, not, ◌&&◌, ◌||◌, Bool-cases,
  List, [], ◌∷◌, ◌++◌, Option, none, some, is_some, ◌==◌, if◌then◌else◌, arith,
}
use cpp_server_framework.FdManager.{FdCtx, get_timeout}
use cpp_server_framework.Hook.{
  Answer, returned, failed, eintr, ebadf, eagain, no_timeout, Action, calls, adds_timer, adds_event,
  yields, cancels_timer, Try, attempt, Run, timer_on, timer_off, wait_event, retry, original,
  io_hook,
}

-- The call is to be made again.
abbrev pub is_passing : Answer → Bool
is_passing (returned n) = false
is_passing (failed e) = (e == eintr) || (e == eagain)

-- What a system call that blocks until there is a result would give: the first answer that is one.
abbrev pub blocking : List Try → Option Answer
blocking [] = none
blocking (attempt a refused timed_out ∷ ts) = if is_passing a then blocking ts else some a

-- No event is refused and no timer fires.
abbrev pub is_undisturbed : List Try → Bool
is_undisturbed [] = true
is_undisturbed (attempt a refused timed_out ∷ ts) =
    (not (is_some refused) && not timed_out) && is_undisturbed ts

abbrev pub has_result : List Try → Bool
has_result [] = false
has_result (attempt a refused timed_out ∷ ts) = not (is_passing a) || has_result ts

-- How often an action of a kind is in a trace.
abbrev pub is_added : Action → Bool
is_added (adds_timer to) = true
is_added _ = false

abbrev pub is_cancelled : Action → Bool
is_cancelled cancels_timer = true
is_cancelled _ = false

abbrev pub is_event : Action → Bool
is_event adds_event = true
is_event _ = false

abbrev pub count : (Action → Bool) → List Action → ℕ
count p [] = 0
count p (a ∷ actions) = if p a then suc (count p actions) else count p actions

-- The descriptor is one the hook waits on.
abbrev pub is_hooked : FdCtx → Bool
is_hooked c = not c.is_closed && (c.is_socket && not c.user_nonblock)

retry-blocking : (to : ℕ) (ts : List Try) → is_undisturbed ts ≡ true → (retry to ts).1 ≡ blocking ts
retry-blocking to [] h = refl
retry-blocking to (attempt (returned n) r b ∷ ts) h = refl
retry-blocking to (attempt (failed e) (some why) b ∷ ts) h = absurd (ground (arith, h))
retry-blocking to (attempt (failed e) none true ∷ ts) h = absurd (ground (arith, h))
retry-blocking to (attempt (failed e) none false ∷ ts) h =
    let rest = retry-blocking to ts (ground (arith, h)) in
    elim (Bool-cases (e == eintr)) [
      | inl on ↦ rw (retry, on) rest
      | inr off ↦ elim (Bool-cases (e == eagain)) [
        | inl waits ↦ rw (retry, off, waits) rest
        | inr fails ↦ rw (retry, off, fails) refl
      ]
    ]

wait_event_some :
    (to : ℕ) (r : Option ℕ) (b : Bool) (rest : Run)
    → is_some rest.1 ≡ true
    → is_some (wait_event to r b rest).1 ≡ true
wait_event_some to (some why) b rest h = refl
wait_event_some to none true rest h = refl
wait_event_some to none false rest h = h

retry_some : (to : ℕ) (ts : List Try) → has_result ts ≡ true → is_some (retry to ts).1 ≡ true
retry_some to [] h = absurd (ground (arith, h))
retry_some to (attempt (returned n) r b ∷ ts) h = refl
retry_some to (attempt (failed e) r b ∷ ts) h = elim (Bool-cases (e == eintr)) [
  | inl on ↦ rw (retry, on) (retry_some to ts (ground (arith, h, on)))
  | inr off ↦ elim (Bool-cases (e == eagain)) [
    | inl waits ↦
        rw (retry, off, waits)
          (wait_event_some to r b (retry to ts) (retry_some to ts (ground (arith, h, waits))))
    | inr fails ↦ rw (retry, off, fails) refl
  ]
]

count-append :
    (p : Action → Bool) (xs ys : List Action) → count p (xs ++ ys) ≡ count p xs + count p ys
count-append p [] ys = omega arith
count-append p (x ∷ xs) ys = elim (Bool-cases (p x)) [
  | inl on ↦ rw on (omega (arith, count-append p xs ys))
  | inr off ↦ rw off (count-append p xs ys)
]

-- There are as many timers set, and as many cancelled, as events added; none without a timeout.
abbrev pub IsBalanced : ℕ → List Action → Type 0
IsBalanced to actions =
    (count is_added actions ≡ (if to == no_timeout then 0 else count is_event actions))
    × (count is_cancelled actions ≡ (if to == no_timeout then 0 else count is_event actions))

if_sum :
    (b : Bool) (n k : ℕ) → (if b then 0 else n) + (if b then 0 else k) ≡ (if b then 0 else n + k)
if_sum true n k = omega arith
if_sum false n k = refl

IsBalanced-append :
    (to : ℕ) (xs ys : List Action) → IsBalanced to xs → IsBalanced to ys → IsBalanced to (xs ++ ys)
IsBalanced-append to xs ys hx hy =
    rw (count-append is_added xs ys, count-append is_cancelled xs ys, count-append is_event xs ys)
      (
        ap (λ n. n + count is_added ys) hx.0
            ∙ ap (λ n. (if to == no_timeout then 0 else count is_event xs) + n) hy.0
            ∙ if_sum (to == no_timeout) (count is_event xs) (count is_event ys),
        ap (λ n. n + count is_cancelled ys) hx.1
            ∙ ap (λ n. (if to == no_timeout then 0 else count is_event xs) + n) hy.1
            ∙ if_sum (to == no_timeout) (count is_event xs) (count is_event ys),
      )

none_balanced : (n : ℕ) (b : Bool) → n ≡ (if b then n else n)
none_balanced n true = refl
none_balanced n false = refl

calls-IsBalanced : (to : ℕ) → IsBalanced to (calls ∷ [])
calls-IsBalanced to = (none_balanced 0 (to == no_timeout), none_balanced 0 (to == no_timeout))

refused-IsBalanced : (to : ℕ) → IsBalanced to (calls ∷ (timer_on to ++ (adds_event ∷ timer_off to)))
refused-IsBalanced to = elim (Bool-cases (to == no_timeout)) [
  | inl off ↦ rw (timer_on, timer_off, off) (refl, refl)
  | inr on ↦ rw (timer_on, timer_off, on) (refl, refl)
]

waited-IsBalanced :
    (to : ℕ) → IsBalanced to (calls ∷ (timer_on to ++ (adds_event ∷ (yields ∷ timer_off to))))
waited-IsBalanced to = elim (Bool-cases (to == no_timeout)) [
  | inl off ↦ rw (timer_on, timer_off, off) (refl, refl)
  | inr on ↦ rw (timer_on, timer_off, on) (refl, refl)
]

wait_event-IsBalanced :
    (to : ℕ) (r : Option ℕ) (b : Bool) (rest : Run)
    → IsBalanced to rest.0
    → IsBalanced to (wait_event to r b rest).0
wait_event-IsBalanced to (some why) b rest h = refused-IsBalanced to
wait_event-IsBalanced to none true rest h = waited-IsBalanced to
wait_event-IsBalanced to none false rest h =
    IsBalanced-append to (calls ∷ (timer_on to ++ (adds_event ∷ (yields ∷ timer_off to)))) rest.0
      (waited-IsBalanced to) h

retry-IsBalanced : (to : ℕ) (ts : List Try) → IsBalanced to (retry to ts).0
retry-IsBalanced to [] = (none_balanced 0 (to == no_timeout), none_balanced 0 (to == no_timeout))
retry-IsBalanced to (attempt (returned n) r b ∷ ts) = calls-IsBalanced to
retry-IsBalanced to (attempt (failed e) r b ∷ ts) = elim (Bool-cases (e == eintr)) [
  | inl on ↦
      rw (retry, on)
        (IsBalanced-append to (calls ∷ []) (retry to ts).0 (calls-IsBalanced to)
          (retry-IsBalanced to ts))
  | inr off ↦ elim (Bool-cases (e == eagain)) [
    | inl waits ↦
        rw (retry, off, waits) (wait_event-IsBalanced to r b (retry to ts) (retry-IsBalanced to ts))
    | inr fails ↦ rw (retry, off, fails) (calls-IsBalanced to)
  ]
]

-- The three ways through the guards.
io_hook-cases :
    (enabled : Bool) (c : FdCtx) (receives : Bool) (ts : List Try)
    → (io_hook enabled (some c) receives ts ≡ original ts)
      ⊎ ((io_hook enabled (some c) receives ts ≡ ([], some (failed ebadf)))
          ⊎ (io_hook enabled (some c) receives ts ≡ retry (get_timeout receives c) ts))
unfolding io_hook
io_hook-cases false c receives ts = inl refl
io_hook-cases true c receives ts = guarded c.is_closed (not c.is_socket || c.user_nonblock)
  where
    guards : Bool → Bool → Run
    guards closed passes =
        if closed
        then ([], some (failed ebadf))
        else if passes
        then original ts
        else retry (get_timeout receives c) ts

    guarded :
        (closed passes : Bool)
        → (guards closed passes ≡ original ts)
          ⊎ ((guards closed passes ≡ ([], some (failed ebadf)))
              ⊎ (guards closed passes ≡ retry (get_timeout receives c) ts))
    guarded true passes = inr (inl refl)
    guarded false true = inl refl
    guarded false false = inr (inr refl)

original_some : (ts : List Try) → has_result ts ≡ true → is_some (original ts).1 ≡ true
original_some [] h = absurd (ground (arith, h))
original_some (attempt a r b ∷ ts) h = refl

original-IsBalanced : (to : ℕ) (ts : List Try) → IsBalanced to (original ts).0
original-IsBalanced to [] = (none_balanced 0 (to == no_timeout), none_balanced 0 (to == no_timeout))
original-IsBalanced to (attempt a r b ∷ ts) = calls-IsBalanced to

-- On an open socket that the user has not made non-blocking, with the hook on, while no event is
-- refused and no timer fires, IOhook gives what a call that blocks would give: the first answer of
-- the system call that is neither EINTR nor EAGAIN.
pub io_hook-blocking :
    (c : FdCtx) (receives : Bool) (ts : List Try)
    → is_hooked c ≡ true
    → is_undisturbed ts ≡ true
    → (io_hook true (some c) receives ts).1 ≡ blocking ts
unfolding io_hook
io_hook-blocking c receives ts hooked h =
    let open_c : c.is_closed ≡ false = ground (arith, hooked) in
    let waits : not c.is_socket || c.user_nonblock ≡ false = ground (arith, hooked) in
    guarded c.is_closed (not c.is_socket || c.user_nonblock) open_c waits
  where
    guarded :
        (closed passes : Bool)
        → closed ≡ false
        → passes ≡ false
        → (if closed
            then ([], some (failed ebadf))
            else if passes
            then original ts
            else retry (get_timeout receives c) ts).1
          ≡ blocking ts
    guarded true passes open_c waits = absurd (ground (arith, open_c))
    guarded false true open_c waits = absurd (ground (arith, waits))
    guarded false false open_c waits = retry-blocking (get_timeout receives c) ts h

-- With any descriptor, and with the hook on or off, IOhook returns once some call of the system
-- call gives a value or an error that is neither EINTR nor EAGAIN, whether or not events are
-- refused or timers fire.
pub io_hook_some :
    (enabled : Bool) (o : Option FdCtx) (receives : Bool) (ts : List Try)
    → has_result ts ≡ true
    → is_some (io_hook enabled o receives ts).1 ≡ true
unfolding io_hook
io_hook_some false none receives ts h = original_some ts h
io_hook_some true none receives ts h = original_some ts h
io_hook_some enabled (some c) receives ts h = elim (io_hook-cases enabled c receives ts) [
  | inl passed ↦ rw passed (original_some ts h)
  | inr (inl closed) ↦ rw closed refl
  | inr (inr hooked) ↦ rw hooked (retry_some (get_timeout receives c) ts h)
]

-- With an FdCtx, after any number of rounds of IOhook, as many timers have been set, and as many
-- cancelled, as events were added if the descriptor has a timeout, and none if it has none.
pub io_hook-IsBalanced :
    (enabled : Bool) (c : FdCtx) (receives : Bool) (ts : List Try)
    → IsBalanced (get_timeout receives c) (io_hook enabled (some c) receives ts).0
io_hook-IsBalanced enabled c receives ts =
    let to = get_timeout receives c in
    elim (io_hook-cases enabled c receives ts) [
      | inl passed ↦ rw passed (original-IsBalanced to ts)
      | inr (inl closed) ↦
          rw closed (none_balanced 0 (to == no_timeout), none_balanced 0 (to == no_timeout))
      | inr (inr hooked) ↦ rw hooked (retry-IsBalanced to ts)
    ]
