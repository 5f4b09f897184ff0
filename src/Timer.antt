-- ===== src/Timer.antt =====
-- src/async/timer.h and timer.cpp: the timers of a manager, in the order of their deadlines.
-- A timer is known by its address; `heap` says what stands there. `m_timers`, a std::set of pointers
-- with `Timer::Comparator`, is the list of its elements in their order, and find, insert, erase and
-- upper_bound are the standard ones on such a list. The clock is an argument `now` of each operation,
-- the address that `new Timer` gives one too. An operation is one step: it holds the lock.
pub mod Order
pub mod Invariant
pub mod Operations
pub mod Expiry
pub mod Due
use cpp_server_framework.Prelude.{
  ℕ, ◌+◌, ◌-◌, ◌*◌, ◌%◌, ◌^◌, Bool, true, false, not, ◌&&◌, ◌||◌, List, [], ◌∷◌, Option, none, some,
  ltb, leb, ◌==◌, if◌then◌else◌,
}

-- A timer in the order of the set: `m_next`, and then the address.
abbrev pub Key : Type 0
Key = ℕ × ℕ

-- `none` is the null pointer.
abbrev pub comparator : Option Key → Option Key → Bool
comparator none none = false
comparator none (some r) = true
comparator (some l) none = false
comparator (some l) (some r) =
    if ltb l.0 r.0 then true else if ltb r.0 l.0 then false else ltb l.1 r.1

module _ (next : ℕ → ℕ) where
  abbrev pub key : ℕ → Key
  key a = (next a, a)

  abbrev pub less : ℕ → ℕ → Bool
  less a b = comparator (some (key a)) (some (key b))

  -- insert: nothing changes where an equivalent element is in the set.
  unfoldable pub insert : ℕ → List ℕ → List ℕ
  insert a [] = a ∷ []
  insert a (x ∷ xs) =
      let rest = insert a xs in
      if less x a then x ∷ rest else if less a x then a ∷ x ∷ xs else x ∷ xs

  -- erase of what find gives; `none` where find gives the end.
  unfoldable pub erase : ℕ → List ℕ → Option (List ℕ)
  erase a [] = none
  erase a (x ∷ xs) =
      let rest = erase a xs in
      if less x a
      then elim rest [ none ↦ none | some ys ↦ some (x ∷ ys) ]
      else if less a x
      then none
      else some xs

  -- The elements before upper_bound of a key, and those from there on.
  unfoldable pub split_at : Key → List ℕ → List ℕ × List ℕ
  split_at k [] = ([], [])
  split_at k (x ∷ xs) =
      let rest = split_at k xs in
      if comparator (some k) (some (key x)) then ([], x ∷ xs) else (x ∷ rest.0, rest.1)

-- The callbacks are values of a type C; an empty std::function is `none`.
pub record Timer (C : Type 0) : Type 0 where
  pub recurring : Bool
  pub ms : ℕ
  pub next : ℕ
  pub cb : Option C

pub record TimerManager (C : Type 0) : Type 0 where
  pub heap : ℕ → Timer C
  pub timers : List ℕ
  pub tickled : Bool
  pub previous : ℕ

-- What `cancel` does with the iterator that find gave it: erasing the end is undefined.
pub data Outcome (A : Type 0) : Type 0 where
  done : A → Outcome A
  undefined : Outcome A

abbrev pub is_set {ℓ} : {C : Type ℓ} → Option C → Bool
is_set none = false
is_set (some c) = true

-- a + b and a - b in uint64_t.
abbrev pub plus64 : ℕ → ℕ → ℕ
plus64 a b = (a + b) % 2 ^ 64

abbrev pub minus64 : ℕ → ℕ → ℕ
minus64 a b = (a + 2 ^ 64 - b) % 2 ^ 64

abbrev pub is_front : ℕ → List ℕ → Bool
is_front a [] = false
is_front a (x ∷ xs) = a == x

module _ {C : Type 0} where
  abbrev pub store : (ℕ → Timer C) → ℕ → Timer C → ℕ → Timer C
  store heap a t x = if x == a then t else heap x

  abbrev pub nexts : TimerManager C → ℕ → ℕ
  nexts m a = (m.heap a).next

  -- `addTimer` of a timer that exists: whether `onTimerInsertedAtFront` is called stands beside the
  -- new state.
  unfoldable pub insert_timer : ℕ → TimerManager C → Bool × TimerManager C
  insert_timer a m =
      let timers = insert (nexts m) a m.timers in
      let at_front = is_front a timers && not m.tickled in
      (at_front, record m { timers = timers; tickled = if at_front then true else m.tickled })

  unfoldable pub add_timer : ℕ → ℕ → ℕ → Option C → Bool → TimerManager C → Bool × TimerManager C
  add_timer now a ms cb recurring m = insert_timer a (record m {
    heap =
        store m.heap a (record { recurring = recurring; ms = ms; next = plus64 now ms; cb = cb });
  })

  unfoldable pub cancel : ℕ → TimerManager C → Outcome (Bool × TimerManager C)
  cancel a m = elim (m.heap a).cb [
    | none ↦ done (false, m)
    | some c ↦ elim (erase (nexts m) a m.timers) [
      | none ↦ undefined
      | some timers ↦ done (
        true,
        record m { heap = store m.heap a (record (m.heap a) { cb = none }); timers = timers },
      )
    ]
  ]

  unfoldable pub refresh : ℕ → ℕ → TimerManager C → Bool × TimerManager C
  refresh now a m = elim (m.heap a).cb [
    | none ↦ (false, m)
    | some c ↦ elim (erase (nexts m) a m.timers) [
      | none ↦ (false, m)
      | some timers ↦
          let heap = store m.heap a (record (m.heap a) { next = plus64 now (m.heap a).ms }) in
          (true, record m { heap = heap; timers = insert (λ x. (heap x).next) a timers })
    ]
  ]

  -- What it returns, and whether `onTimerInsertedAtFront` is called.
  unfoldable pub reset : ℕ → ℕ → ℕ → Bool → TimerManager C → Bool × (Bool × TimerManager C)
  reset now a ms from_now m =
      let t = m.heap a in
      let start = if from_now then now else minus64 t.next t.ms in
      if (ms == t.ms) && not from_now then (true, (false, m)) else elim t.cb [
        | none ↦ (false, (false, m))
        | some c ↦ elim (erase (nexts m) a m.timers) [
          | none ↦ (false, (false, m))
          | some timers ↦ (
            true,
            insert_timer a (record m {
              heap = store m.heap a (record t { ms = ms; next = plus64 start ms });
              timers = timers;
            }),
          )
        ]
      ]

  -- How long to wait, and the state after it; ~0ull is for ever.
  unfoldable pub get_next_timer : ℕ → TimerManager C → ℕ × TimerManager C
  get_next_timer now m = (
    elim m.timers [
      | [] ↦ 2 ^ 64 - 1
      | a ∷ rest ↦ if leb (nexts m a) now then 0 else nexts m a - now
    ],
    record m { tickled = false },
  )

  unfoldable pub has_timer : TimerManager C → Bool
  has_timer m = elim m.timers [ [] ↦ false | a ∷ rest ↦ true ]

  unfoldable pub detect_clock_rollover : ℕ → TimerManager C → Bool × TimerManager C
  detect_clock_rollover now m =
      (ltb now (minus64 m.previous (60 * 60 * 1000)), record m { previous = now })

  -- One round of the loop over `expired`.
  unfoldable pub expire : ℕ → ℕ → TimerManager C → TimerManager C
  expire now a m =
      let t = m.heap a in
      let again = store m.heap a (record t { next = plus64 now t.ms }) in
      if t.recurring
      then record m { heap = again; timers = insert (λ x. (again x).next) a m.timers }
      else record m { heap = store m.heap a (record t { cb = none }) }

  unfoldable pub expire_all : ℕ → List ℕ → TimerManager C → List (Option C) × TimerManager C
  expire_all now [] m = ([], m)
  expire_all now (a ∷ expired) m =
      let (cbs, m') = expire_all now expired (expire now a m) in ((m.heap a).cb ∷ cbs, m')

  -- The callbacks that are pushed; `probe` is the address of `now_timer`.
  unfoldable pub list_expired_cb : ℕ → ℕ → TimerManager C → List (Option C) × TimerManager C
  list_expired_cb now probe m = elim m.timers [
    | [] ↦ ([], m)
    | first ∷ others ↦
        let (rollover, m') = detect_clock_rollover now m in
        let parts = if rollover then (m.timers, []) else split_at (nexts m) (now, probe) m.timers in
        let quiet = not rollover && ltb now (nexts m first) in
        if quiet then ([], m') else expire_all now parts.0 (record m' { timers = parts.1 })
  ]

-- `OnTimer` and `addConditionTimer`, where a callback changes a state S: `alive` is whether
-- `weak_cond.lock()` gives a pointer in that state.
module _ {S : Type 0} where
  abbrev pub on_timer : (S → Bool) → (S → S) → S → S
  on_timer alive cb s = if alive s then cb s else s

  unfoldable pub add_condition_timer :
      ℕ → ℕ → ℕ → (S → S) → (S → Bool) → Bool → TimerManager (S → S) → Bool × TimerManager (S → S)
  add_condition_timer now a ms cb alive recurring m =
      add_timer now a ms (some (on_timer alive cb)) recurring m
