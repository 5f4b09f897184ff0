-- ===== src/Timer/Due.antt =====
-- `listExpiredCb` and `getNextTimer` of src/async/timer.cpp on a valid manager.
use cpp_server_framework.Prelude.{
  ℕ, ◌-◌, ◌≤◌, ◌≡◌, refl, sym, ap, ◌∙◌, subst, ◌⊎◌, inl, inr, Bool, true, false, not, ◌&&◌, ◌||◌,
  List, [], ◌∷◌, ◌++◌, map, append-nil, Option, some, ltb, if◌then◌else◌, Bool-cases, arith,
}
use cpp_server_framework.Timer.{
  comparator, split_at, TimerManager, nexts, expire_all, detect_clock_rollover, list_expired_cb,
  get_next_timer,
}
use cpp_server_framework.Timer.Order.{
  mem, IsSorted, IsSplit, mem-append, split_at-IsSplit, IsSorted-append, below-absent,
}
use cpp_server_framework.Timer.Invariant.{IsValid, IsValidBut, AreArmed, Distinct}
use cpp_server_framework.Timer.Expiry.{callback, expire_all-AreExpired}

sorted-Distinct : (next : ℕ → ℕ) (xs : List ℕ) → IsSorted next xs → Distinct xs
sorted-Distinct next [] s = tt
sorted-Distinct next (x ∷ xs) s = (below-absent next x xs s.0, sorted-Distinct next xs s.1)

List-cases : (xs : List ℕ) → (xs ≡ []) ⊎ ((x : ℕ) × (ys : List ℕ) × (xs ≡ x ∷ ys))
List-cases [] = inl refl
List-cases (x ∷ xs) = inr (x, xs, refl)

-- What `split_at` finds of each element.
split-mem :
    (next : ℕ → ℕ) (k : ℕ × ℕ) (xs : List ℕ) (parts : List ℕ × List ℕ) (y : ℕ)
    → IsSplit next k xs parts
    → mem y parts.0 ≡ (mem y xs && not (comparator (some k) (some (next y, y))))
split-mem next k xs parts y s =
    let whole : mem y xs ≡ (mem y parts.0 || mem y parts.1) =
      ap (mem y) s.whole ∙ mem-append next y parts.0 parts.1 in
    elim (Bool-cases (mem y parts.0)) [
      | inl on ↦ let low = s.before y on in rw (whole, on, low) refl
      | inr off ↦ elim (Bool-cases (mem y parts.1)) [
        | inl on ↦ let up = s.after y on in rw (whole, off, on, up) refl
        | inr off' ↦ rw (whole, off, off') refl
      ]
    ]

-- The test before the loop saves nothing but time: there is nothing to do.
quiet_split :
    (now probe first : ℕ) (others : List ℕ) (next : ℕ → ℕ)
    → ltb now (next first) ≡ true
    → split_at next (now, probe) (first ∷ others) ≡ ([], first ∷ others)
unfolding split_at
quiet_split now probe first others next e = ground (arith, e)

module _ {C : Type 0} where
  -- Whether a timer comes before `upper_bound(now_timer)`.
  abbrev pub is_due : ℕ → ℕ → TimerManager C → ℕ → Bool
  is_due now probe m y = not (comparator (some (now, probe)) (some (nexts m y, y)))

  parts : ℕ → ℕ → TimerManager C → List ℕ × List ℕ
  parts now probe m =
      if (detect_clock_rollover now m).0
      then (m.timers, [])
      else split_at (nexts m) (now, probe) m.timers

  parts-whole :
      (now probe : ℕ) (m : TimerManager C)
      → IsValid m
      → (m.timers ≡ (parts now probe m).0 ++ (parts now probe m).1)
        × ((y : ℕ)
            → mem y (parts now probe m).0
              ≡ (mem y m.timers && ((detect_clock_rollover now m).0 || is_due now probe m y)))
  unfolding parts
  parts-whole now probe m v = elim (Bool-cases (detect_clock_rollover now m).0) [
    | inl over ↦ rw over (sym (append-nil m.timers), λ y. ground arith)
    | inr same ↦
        let s = split_at-IsSplit (nexts m) (now, probe) m.timers v.ordered in
        rw same (s.whole, λ y. split-mem (nexts m) (now, probe) m.timers _ y s)
  ]

  list_empty :
      (now probe : ℕ) (m : TimerManager C) → m.timers ≡ [] → list_expired_cb now probe m ≡ ([], m)
  unfolding list_expired_cb
  list_empty now probe m e = ground (arith, e)

  list_run :
      (now probe first : ℕ) (others : List ℕ) (m : TimerManager C)
      → m.timers ≡ first ∷ others
      → list_expired_cb now probe m
        ≡ expire_all now
            (parts now probe m).0
            (record m { previous = now; timers = (parts now probe m).1 })
  unfolding list_expired_cb parts detect_clock_rollover expire_all
  list_run now probe first others m e = elim (Bool-cases (detect_clock_rollover now m).0) [
    | inl over ↦ ground (arith, e, over)
    | inr same ↦ elim (Bool-cases (ltb now (nexts m first))) [
      | inl quiet ↦
          let split = quiet_split now probe first others (nexts m) quiet in
          ground (arith, e, same, quiet, split)
      | inr busy ↦ ground (arith, e, same, busy)
    ]
  ]

  -- What a call of `listExpiredCb` has done, from m to the callbacks and the state r.
  pub record IsListed (now probe : ℕ) (m : TimerManager C) (r : List (Option C) × TimerManager C)
      : Type 0 where
    pub due : List ℕ
    pub rest : List ℕ
    pub whole : m.timers ≡ due ++ rest
    pub chosen :
        (y : ℕ)
        → mem y due ≡ (mem y m.timers && ((detect_clock_rollover now m).0 || is_due now probe m y))
    pub called : r.0 ≡ map (callback m) due
    pub valid : IsValid r.1
    pub members :
        (y : ℕ) → mem y r.1.timers ≡ (mem y m.timers && (not (mem y due) || (m.heap y).recurring))

  parts-IsValidBut :
      (now : ℕ) (m : TimerManager C) (due rest : List ℕ)
      → IsValid m
      → m.timers ≡ due ++ rest
      → IsValidBut due (record m { previous = now; timers = rest })
        × AreArmed due (record m { previous = now; timers = rest })
        × ((y : ℕ) → mem y rest ≡ (mem y m.timers && not (mem y due)))
  parts-IsValidBut now m due rest v whole =
      let sorted = subst (IsSorted (nexts m)) whole v.ordered in
      let (s1, s2, apart) = IsSorted-append (nexts m) due rest sorted in
      let inside : (y : ℕ) → mem y m.timers ≡ mem y (due ++ rest) = λ y. ap (mem y) whole in
      (
        record {
          ordered = s2;
          distinct = sorted-Distinct (nexts m) due s1;
          live = λ y. ground (arith, apart y, inside y, v.live y);
        },
        λ y h. ground (arith, h, inside y, v.live y, mem-append (nexts m) y due rest),
        λ y. ground (arith, apart y, inside y),
      )

  -- On a valid manager `listExpiredCb` takes a front part of the set, namely all timers after a
  -- clock rollover and else those not after the key of `now_timer`; it gives their callbacks in the
  -- order of their deadlines, keeps the invariant, and leaves in the set the timers that were not
  -- taken and, of those taken, the recurring ones.
  pub list_expired_cb-IsListed :
      (now probe : ℕ) (m : TimerManager C)
      → IsValid m
      → IsListed now probe m (list_expired_cb now probe m)
  list_expired_cb-IsListed now probe m v = elim (List-cases m.timers) [
    | inl e ↦ subst (IsListed now probe m) (sym (list_empty now probe m e)) (record {
      due = [];
      rest = [];
      whole = e;
      chosen = λ y. rw e refl;
      called = refl;
      valid = v;
      members = λ y. rw e refl;
    })
    | inr (first, others, e) ↦
        let (whole, chosen) = parts-whole now probe m v in
        let due = (parts now probe m).0 in
        let rest = (parts now probe m).1 in
        let (w, armed, apart) = parts-IsValidBut now m due rest v whole in
        let m1 = record m { previous = now; timers = rest } in
        let all = expire_all-AreExpired now due m1 w armed in
        subst (IsListed now probe m) (sym (list_run now probe first others m e)) (record {
          due = due;
          rest = rest;
          whole = whole;
          chosen = chosen;
          called = unfold callback in all.called;
          valid = all.valid;
          members = λ y. ground (arith, all.members y, apart y, chosen y);
        })
  ]

  first_least :
      (m : TimerManager C) (first y : ℕ) (others : List ℕ)
      → IsValid m
      → m.timers ≡ first ∷ others
      → mem y m.timers ≡ true
      → nexts m first ≤ nexts m y
  first_least m first y others v e h =
      let sorted = subst (IsSorted (nexts m)) e v.ordered in
      let inside : mem y (first ∷ others) ≡ true = sym (ap (mem y) e) ∙ h in
      elim (Bool-cases (mem y others)) [
        | inl later ↦ let low = sorted.0 y later in ground (arith, low)
        | inr off ↦
            let same : y ≡ first = ground (arith, inside, off) in ground (arith, ap (nexts m) same)
      ]

  -- On a valid manager with the timer y in the set, `getNextTimer` gives at most the time until the
  -- deadline of y, and it gives exactly the time until the deadline of some timer in the set, which
  -- is 0 if that has passed.
  pub get_next_timer-IsLeast :
      (now y : ℕ) (m : TimerManager C)
      → IsValid m
      → mem y m.timers ≡ true
      → ((get_next_timer now m).0 ≤ nexts m y - now)
        × (x : ℕ) × (mem x m.timers ≡ true)
        × ((get_next_timer now m).0 ≡ nexts m x - now)
  unfolding get_next_timer
  get_next_timer-IsLeast now y m v h = elim (List-cases m.timers) [
    | inl e ↦ absurd (let off : mem y m.timers ≡ false = ap (mem y) e in ground (arith, off, h))
    | inr (first, others, e) ↦
        let low = first_least m first y others v e h in
        let wait : (get_next_timer now m).0 ≡ nexts m first - now = ground (arith, e) in
        (omega (arith, wait, low), first, ap (mem first) e ∙ ground arith, wait)
  ]
