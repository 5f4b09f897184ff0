-- ===== src/Timer/Expiry.antt =====
-- `listExpiredCb` and `getNextTimer` of src/async/timer.cpp on a valid manager.
use cpp_server_framework.Prelude.{
  ℕ, ◌≡◌, ◌≢◌, refl, sym, ap, ◌∙◌, subst, inl, inr, true, false, ◌&&◌, ◌||◌, List, [], ◌∷◌, map,
  Option, none, ◌==◌, Bool-cases, arith, ℕ_discrete,
}
use cpp_server_framework.Timer.{
  insert, Timer, TimerManager, is_set, plus64, store, expire, expire_all,
}
use cpp_server_framework.Timer.Order.{mem, mem-insert}
use cpp_server_framework.Timer.Invariant.{
  IsValid, IsValidBut, AreArmed, none_out, attach-IsValidBut, drop-IsValidBut, store-AreArmed,
}

absent_differs : (a y : ℕ) (out : List ℕ) → mem a out ≡ false → mem y out ≡ true → y ≢ a
absent_differs a y out off on e =
    let on' : mem a out ≡ true = subst (λ z. mem z out ≡ true) e on in ground (arith, on', off)

module _ {C : Type 0} where
  again : ℕ → ℕ → TimerManager C → Timer C
  again now a m = record (m.heap a) { next = plus64 now (m.heap a).ms }

  expire_recurring :
      (now a : ℕ) (m : TimerManager C)
      → (m.heap a).recurring ≡ true
      → expire now a m ≡ record m {
        heap = store m.heap a (again now a m);
        timers = insert (λ x. (store m.heap a (again now a m) x).next) a m.timers;
      }
  unfolding expire again
  expire_recurring now a m e = rw e refl

  expire_once :
      (now a : ℕ) (m : TimerManager C)
      → (m.heap a).recurring ≡ false
      → expire now a m ≡ record m { heap = store m.heap a (record (m.heap a) { cb = none }) }
  unfolding expire
  expire_once now a m e = rw e refl

  -- One round of the loop, with the timers `a ∷ out` taken from the set before it.
  record IsExpired (now a : ℕ) (out : List ℕ) (m m' : TimerManager C) : Type 0 where
    valid : IsValidBut out m'
    armed : AreArmed out m'
    kept : (y : ℕ) → y ≢ a → m'.heap y ≡ m.heap y
    members : (y : ℕ) → mem y m'.timers ≡ (mem y m.timers || ((y == a) && (m.heap a).recurring))

  expire-IsExpired :
      (now a : ℕ) (out : List ℕ) (m : TimerManager C)
      → IsValidBut (a ∷ out) m
      → AreArmed (a ∷ out) m
      → IsExpired now a out m (expire now a m)
  unfolding again
  expire-IsExpired now a out m v armed =
      let on : is_set (m.heap a).cb ≡ true = armed a (ground arith) in
      elim (Bool-cases (m.heap a).recurring) [
        | inl yes_again ↦
            let t = again now a m in
            let next : ℕ → ℕ = λ x. (store m.heap a t x).next in
            subst (IsExpired now a out m) (sym (expire_recurring now a m yes_again)) (record {
              valid = attach-IsValidBut m a out t v on;
              armed = store-AreArmed m a out (insert next a m.timers) t v.distinct.0 armed;
              kept = λ y ne. ground (arith, ne);
              members = λ y. mem-insert next a y m.timers ∙ ground (arith, yes_again);
            })
        | inr once ↦
            let t : Timer C = record (m.heap a) { cb = none } in
            subst (IsExpired now a out m) (sym (expire_once now a m once)) (record {
              valid = drop-IsValidBut m a out t v refl;
              armed = store-AreArmed m a out m.timers t v.distinct.0 armed;
              kept = λ y ne. ground (arith, ne);
              members = λ y. ground (arith, once);
            })
      ]

  unfoldable pub callback : TimerManager C → ℕ → Option C
  callback m y = (m.heap y).cb

  map-kept :
      (m m' : TimerManager C) (out : List ℕ)
      → ((y : ℕ) → mem y out ≡ true → m'.heap y ≡ m.heap y)
      → map (callback m') out ≡ map (callback m) out
  unfolding callback
  map-kept m m' [] same = refl
  map-kept m m' (a ∷ out) same =
      let first : (m'.heap a).cb ≡ (m.heap a).cb =
        ap (λ (t : Timer C). t.cb) (same a (ground arith)) in
      let others = map-kept m m' out (λ y h. same y (ground arith)) in λ i. first i ∷ others i

  pub record AreExpired (now : ℕ) (out : List ℕ) (m : TimerManager C)
      (r : List (Option C) × TimerManager C) : Type 0 where
    pub valid : IsValid r.1
    pub called : r.0 ≡ map (callback m) out
    pub members :
        (y : ℕ) → mem y r.1.timers ≡ (mem y m.timers || (mem y out && (m.heap y).recurring))

  next_members :
      (now a y : ℕ) (out : List ℕ) (m m1 m2 : TimerManager C)
      → IsExpired now a out m m1
      → mem a out ≡ false
      → mem y m2.timers ≡ (mem y m1.timers || (mem y out && (m1.heap y).recurring))
      → mem y m2.timers ≡ (mem y m.timers || (mem y (a ∷ out) && (m.heap y).recurring))
  next_members now a y out m m1 m2 one off e = elim (ℕ_discrete y a) [
    | yes same ↦
        let off' : mem y out ≡ false = ap (λ z. mem z out) same ∙ off in
        let again_too : (m.heap a).recurring ≡ (m.heap y).recurring =
          ap (λ z. (m.heap z).recurring) (sym same) in
        ground (arith, e, one.members y, off', again_too)
    | no ne ↦
        let too : (m1.heap y).recurring ≡ (m.heap y).recurring =
          ap (λ (t : Timer C). t.recurring) (one.kept y ne) in
        ground (arith, e, one.members y, too, ne)
  ]

  pub expire_all-AreExpired :
      (now : ℕ) (out : List ℕ) (m : TimerManager C)
      → IsValidBut out m
      → AreArmed out m
      → AreExpired now out m (expire_all now out m)
  unfolding expire_all callback
  expire_all-AreExpired now [] m v armed = record {
    valid = none_out m v;
    called = refl;
    members = λ y. ground arith;
  }
  expire_all-AreExpired now (a ∷ out) m v armed =
      let one = expire-IsExpired now a out m v armed in
      let m1 = expire now a m in
      let all = expire_all-AreExpired now out m1 one.valid one.armed in
      let off = v.distinct.0 in
      let same = map-kept m m1 out (λ y h. one.kept y (absent_differs a y out off h)) in
      record {
        valid = all.valid;
        called = ap (λ t. (m.heap a).cb ∷ t) (all.called ∙ same);
        members =
            λ y. next_members now a y out m m1 (expire_all now out m1).1 one off (all.members y);
      }
