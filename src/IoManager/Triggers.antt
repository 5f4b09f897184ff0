-- ===== src/IoManager/Triggers.antt =====
-- A read and then a write that are triggered in one context, as in `cancelAll` and `idle` of
-- src/async/iomanager.cpp.
use cpp_server_framework.Prelude.{
  ℕ, ◌+◌, ◌%◌, ◌^◌, ◌≡◌, refl, sym, ap, ◌∙◌, inl, inr, Bool, true, false, not, ◌&&◌, List, [], ◌++◌,
  append-nil, get_elem?, set, some, Bool-cases, if◌then◌else◌, arith,
}
use cpp_server_framework.IoManager.{
  Event, FdContext, IoManager, Task, read, write, has, is_none, get_context, Outcome, done,
  asserted, undefined, ◌>>=◌, put_back, minus_one, trigger_if,
}
use cpp_server_framework.IoManager.Contexts.{
  IsFdContext, IsValid, awaited, one_if, all_awaited, all_awaited-set, IsFdContext-get,
  put_back-IsValid, tasks_of, cleared, trigger_event_lem, cleared-IsFdContext,
}

abbrev pub fired : Bool → Event → FdContext → FdContext
fired b e c = if b then cleared e c else c

abbrev pub tasks_if : Bool → Event → FdContext → List (ℕ × Task)
tasks_if b e c = if b then tasks_of (get_context e c) else []

abbrev pub lower : Bool → ℕ → ℕ
lower b n = if b then minus_one n else n

-- No ASSERT fails where each event that is triggered is awaited.
pub trigger_if_lem :
    (b : Bool) (e : Event) (ts : List (ℕ × Task)) (p : ℕ) (c : FdContext)
    → IsFdContext c
    → (b && not (has c.events e)) ≡ false
    → trigger_if b e (ts, (p, c)) ≡ done (ts ++ tasks_if b e c, (lower b p, fired b e c))
unfolding trigger_if
trigger_if_lem false e ts p c v h = ap (λ us. done (us, (p, c))) (sym (append-nil ts))
trigger_if_lem true e ts p c v h =
    let on : has c.events e ≡ true = ground (arith, h) in
    let run = trigger_event_lem e c v on in
    ap (λ o. o >>= λ (r : List (ℕ × Task) × FdContext). done (ts ++ r.0, (minus_one p, r.1))) run

pub fired-IsFdContext :
    (b : Bool) (e : Event) (c : FdContext) → IsFdContext c → IsFdContext (fired b e c)
fired-IsFdContext false e c v = v
fired-IsFdContext true e c v = cleared-IsFdContext e c v

-- Both events.
abbrev pub fired_both : Bool → Bool → FdContext → FdContext
fired_both r w c = fired w write (fired r read c)

pub fired-writes : (r : Bool) (c : FdContext) → (fired r read c).events.writes ≡ c.events.writes
fired-writes false c = refl
fired-writes true c = refl

pub fired-tasks :
    (r w : Bool) (c : FdContext) → tasks_if w write (fired r read c) ≡ tasks_if w write c
fired-tasks false w c = refl
fired-tasks true w c = refl

pub fired_both-awaited :
    (r w : Bool) (c : FdContext)
    → (r && not c.events.reads) ≡ false
    → (w && not c.events.writes) ≡ false
    → awaited c ≡ awaited (fired_both r w c) + (one_if r + one_if w)
fired_both-awaited false false c hr hw = omega arith
fired_both-awaited true false c hr hw =
    let on : c.events.reads ≡ true = ground (arith, hr) in rw on (omega arith)
fired_both-awaited false true c hr hw =
    let on : c.events.writes ≡ true = ground (arith, hw) in rw on (omega arith)
fired_both-awaited true true c hr hw =
    let on : c.events.reads ≡ true = ground (arith, hr) in
    let on' : c.events.writes ≡ true = ground (arith, hw) in rw (on, on') (omega arith)

abbrev pub woken : ℕ → Bool → Bool → FdContext → IoManager → IoManager
woken fd r w c m =
    put_back fd (tasks_if r read c ++ tasks_if w write c) (fired_both r w c)
      (lower w (lower r m.pending_event_count)) m

pub lower-count :
    (r w : Bool) (p total rest : ℕ)
    → p ≡ total % 2 ^ 64
    → total ≡ rest + (one_if r + one_if w)
    → lower w (lower r p) ≡ rest % 2 ^ 64
lower-count false false p total rest e f = omega arith
lower-count true false p total rest e f = omega arith
lower-count false true p total rest e f = omega arith
lower-count true true p total rest e f = omega arith

pub woken-IsValid :
    (fd : ℕ) (r w : Bool) (c : FdContext) (m : IoManager)
    → IsValid m
    → get_elem? m.fd_contexts fd ≡ some c
    → (r && not c.events.reads) ≡ false
    → (w && not c.events.writes) ≡ false
    → IsValid (woken fd r w c m)
woken-IsValid fd r w c m v at hr hw =
    let one = IsFdContext-get m.fd_contexts fd c v.contexts_ok at in
    let d = fired_both r w c in
    let less = fired_both-awaited r w c hr hw in
    put_back-IsValid m fd (lower w (lower r m.pending_event_count))
      (tasks_if r read c ++ tasks_if w write c) c d v at
      (fired-IsFdContext w write (fired r read c) (fired-IsFdContext r read c one))
      (lower-count r w m.pending_event_count (all_awaited m.fd_contexts)
        (all_awaited (set m.fd_contexts fd d)) v.counted
        (omega (arith, all_awaited-set m.fd_contexts fd c d at, less)))

-- The two triggers, one behind the other.
pub both_triggers :
    (r w : Bool) (p : ℕ) (c : FdContext)
    → IsFdContext c
    → (r && not c.events.reads) ≡ false
    → (w && not c.events.writes) ≡ false
    → (trigger_if r read ([], (p, c)) >>= λ q. trigger_if w write q)
      ≡ done (tasks_if r read c ++ tasks_if w write c, (lower w (lower r p), fired_both r w c))
both_triggers r w p c v hr hw =
    let c1 = fired r read c in
    let ts = tasks_if r read c in
    let hw' : (w && not c1.events.writes) ≡ false = ap (λ b. w && not b) (fired-writes r c) ∙ hw in
    let run1 = trigger_if_lem r read [] p c v hr in
    let run2 = trigger_if_lem w write ts (lower r p) c1 (fired-IsFdContext r read c v) hw' in
    ap (λ o. o >>= λ q. trigger_if w write q) run1
    ∙ run2
    ∙ ap (λ us. done (ts ++ us, (lower w (lower r p), fired_both r w c))) (fired-tasks r w c)

>>=_assoc :
    {A B D : Type 0} (a : Outcome A) (f : A → Outcome B) (k : B → Outcome D)
    → (a >>= λ x. f x >>= k) ≡ ((a >>= f) >>= k)
>>=_assoc (done x) f k = refl
>>=_assoc asserted f k = refl
>>=_assoc undefined f k = refl

-- A state of the loops in `cancelAll` and `idle`.
abbrev pub Progress : Type 0
Progress = List (ℕ × Task) × (ℕ × FdContext)

pub trigger_then :
    {D : Type 0} (r w : Bool) (p : ℕ) (c : FdContext) (k : Progress → Outcome D)
    → IsFdContext c
    → (r && not c.events.reads) ≡ false
    → (w && not c.events.writes) ≡ false
    → (trigger_if r read ([], (p, c)) >>= λ q. trigger_if w write q >>= k)
      ≡ k (tasks_if r read c ++ tasks_if w write c, (lower w (lower r p), fired_both r w c))
trigger_then r w p c k v hr hw =
    >>=_assoc (trigger_if r read ([], (p, c))) (λ q. trigger_if w write q) k
    ∙ ap (λ o. o >>= k) (both_triggers r w p c v hr hw)

pub and_not : (b : Bool) → (b && not b) ≡ false
and_not b = ground arith

pub and_false : (b : Bool) → (b && false) ≡ false
and_false b = ground arith

pub fired_both-none :
    (c : FdContext) → is_none (fired_both c.events.reads c.events.writes c).events ≡ true
fired_both-none c = elim (Bool-cases c.events.reads) [
  | inl r ↦ elim (Bool-cases c.events.writes) [ inl w ↦ rw (r, w) refl | inr w ↦ rw (r, w) refl ]
  | inr r ↦ elim (Bool-cases c.events.writes) [ inl w ↦ rw (r, w) refl | inr w ↦ rw (r, w) refl ]
]

-- The second trigger asks the context that the first has left.
pub trigger_then_own :
    {D : Type 0} (r : Bool) (p : ℕ) (c : FdContext) (k : Progress → Outcome D)
    → IsFdContext c
    → (r && not c.events.reads) ≡ false
    → (c.events.writes && not c.events.writes) ≡ false
    → (trigger_if r read ([], (p, c)) >>= λ q. trigger_if (q.1.1).events.writes write q >>= k)
      ≡ k (
        tasks_if r read c ++ tasks_if c.events.writes write c,
        (lower c.events.writes (lower r p), fired_both r c.events.writes c),
      )
trigger_then_own r p c k v hr hw =
    let run1 = trigger_if_lem r read [] p c v hr in
    let q : Progress = (tasks_if r read c, (lower r p, fired r read c)) in
    ap (λ o. o >>= λ q. trigger_if (q.1.1).events.writes write q >>= k) run1
    ∙ ap (λ b. trigger_if b write q >>= k) (fired-writes r c)
    ∙ ap (λ o. o >>= λ q. trigger_if c.events.writes write q >>= k) (sym run1)
    ∙ trigger_then r c.events.writes p c k v hr hw
