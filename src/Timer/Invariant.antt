-- ===== src/Timer/Invariant.antt =====
-- The set of src/async/timer.h holds exactly the timers that have a callback, in their order; each
-- operation keeps that.
use cpp_server_framework.Prelude.{
  ℕ, ◌≡◌, ◌≢◌, refl, ap, ◌∙◌, subst, true, false, not, ◌&&◌, List, [], ◌∷◌, some, arith, ℕ_discrete,
}
use cpp_server_framework.Timer.{insert, erase, Timer, TimerManager, is_set, store, nexts}
use cpp_server_framework.Timer.Order.{
  mem, IsSorted, mem-insert, insert-IsSorted, erase-IsErased, IsSorted-change,
}

abbrev pub Distinct : List ℕ → Type 0
Distinct [] = Unit {0}
Distinct (x ∷ xs) = (mem x xs ≡ false) × Distinct xs

module _ {C : Type 0} where
  pub record IsValid (m : TimerManager C) : Type 0 where
    pub ordered : IsSorted (nexts m) m.timers
    pub live : (y : ℕ) → mem y m.timers ≡ is_set (m.heap y).cb

  -- The same but for the timers `out`, which have been taken from the set.
  pub record IsValidBut (out : List ℕ) (m : TimerManager C) : Type 0 where
    pub ordered : IsSorted (nexts m) m.timers
    pub distinct : Distinct out
    pub live : (y : ℕ) → mem y m.timers ≡ (is_set (m.heap y).cb && not (mem y out))

  pub none_out : (m : TimerManager C) → IsValidBut [] m → IsValid m
  none_out m v = record { ordered = v.ordered; live = λ y. ground (arith, v.live y) }

  store-same : (heap : ℕ → Timer C) (a y : ℕ) (t : Timer C) → y ≡ a → store heap a t y ≡ t
  store-same heap a y t e = ground arith

  store-other : (heap : ℕ → Timer C) (a y : ℕ) (t : Timer C) → y ≢ a → store heap a t y ≡ heap y
  store-other heap a y t ne = ground arith

  -- Writing a timer that is not in the set leaves the order.
  store-IsSorted :
      (m : TimerManager C) (a : ℕ) (t : Timer C)
      → IsSorted (nexts m) m.timers
      → mem a m.timers ≡ false
      → IsSorted (λ x. (store m.heap a t x).next) m.timers
  store-IsSorted m a t s off =
      IsSorted-change (nexts m) (λ x. (store m.heap a t x).next) m.timers
        (λ y h.
          ap (λ (u : Timer C). u.next)
            (store-other m.heap a y t (λ e.
              let on : mem a m.timers ≡ true = subst (λ z. mem z m.timers ≡ true) e h in
              ground (arith, on, off))))
        s

  -- What a written timer does to the tests on it and on the others.
  is_set-same :
      (heap : ℕ → Timer C) (a y : ℕ) (t : Timer C)
      → y ≡ a
      → is_set (store heap a t y).cb ≡ is_set t.cb
  is_set-same heap a y t e = ap (λ (u : Timer C). is_set u.cb) (store-same heap a y t e)

  is_set-other :
      (heap : ℕ → Timer C) (a y : ℕ) (t : Timer C)
      → y ≢ a
      → is_set (store heap a t y).cb ≡ is_set (heap y).cb
  is_set-other heap a y t ne = ap (λ (u : Timer C). is_set u.cb) (store-other heap a y t ne)

  -- Each of the timers has a callback.
  abbrev pub AreArmed : List ℕ → TimerManager C → Type 0
  AreArmed out m = (y : ℕ) → mem y out ≡ true → is_set (m.heap y).cb ≡ true

  pub store-AreArmed :
      (m : TimerManager C) (a : ℕ) (out timers : List ℕ) (t : Timer C)
      → mem a out ≡ false
      → AreArmed (a ∷ out) m
      → AreArmed out (record m { heap = store m.heap a t; timers = timers })
  store-AreArmed m a out timers t off armed y h = elim (ℕ_discrete y a) [
    | yes e ↦
        let on : mem a out ≡ true = subst (λ z. mem z out ≡ true) e h in
        absurd (ground (arith, on, off))
    | no ne ↦ is_set-other m.heap a y t ne ∙ armed y (ground arith)
  ]

  first-absent :
      (m : TimerManager C) (a : ℕ) (out : List ℕ) → IsValidBut (a ∷ out) m → mem a m.timers ≡ false
  first-absent m a out v = ground (arith, v.live a)

  -- A timer comes into the set, with a callback.
  pub attach-IsValidBut :
      (m : TimerManager C) (a : ℕ) (out : List ℕ) (t : Timer C)
      → IsValidBut (a ∷ out) m
      → is_set t.cb ≡ true
      → IsValidBut out (record m {
        heap = store m.heap a t;
        timers = insert (λ x. (store m.heap a t x).next) a m.timers;
      })
  attach-IsValidBut m a out t v on =
      let next : ℕ → ℕ = λ x. (store m.heap a t x).next in
      record {
        ordered =
            insert-IsSorted next a m.timers
              (store-IsSorted m a t v.ordered (first-absent m a out v));
        distinct = v.distinct.1;
        live = λ y. mem-insert next a y m.timers ∙ elim (ℕ_discrete y a) [
          | yes e ↦
              let off : mem y out ≡ false = ap (λ z. mem z out) e ∙ v.distinct.0 in
              let set : is_set (store m.heap a t y).cb ≡ true = is_set-same m.heap a y t e ∙ on in
              rw (set, off) (ground arith)
          | no ne ↦ let same = is_set-other m.heap a y t ne in rw same (ground (arith, v.live y))
        ];
      }

  -- A timer loses its callback and stays out.
  pub drop-IsValidBut :
      (m : TimerManager C) (a : ℕ) (out : List ℕ) (t : Timer C)
      → IsValidBut (a ∷ out) m
      → is_set t.cb ≡ false
      → IsValidBut out (record m { heap = store m.heap a t })
  drop-IsValidBut m a out t v off = record {
    ordered = store-IsSorted m a t v.ordered (first-absent m a out v);
    distinct = v.distinct.1;
    live = λ y. elim (ℕ_discrete y a) [
      | yes e ↦
          let set : is_set (store m.heap a t y).cb ≡ false = is_set-same m.heap a y t e ∙ off in
          rw set (ground (arith, v.live y))
      | no ne ↦ let same = is_set-other m.heap a y t ne in rw same (ground (arith, v.live y))
    ];
  }

  -- Taking a timer out.
  pub detach :
      (m : TimerManager C) (a : ℕ)
      → IsValid m
      → is_set (m.heap a).cb ≡ true
      → (ys : List ℕ) × (erase (nexts m) a m.timers ≡ some ys)
        × IsValidBut (a ∷ []) (record m { timers = ys })
  detach m a v on =
      let (ys, run, s, mem_ys) = erase-IsErased (nexts m) a m.timers v.ordered (v.live a ∙ on) in
      (
        ys,
        run,
        record {
          ordered = s;
          distinct = (refl, tt);
          live = λ y. ground (arith, mem_ys y, v.live y);
        },
      )

  -- An address at which no timer with a callback stands is as good as taken out.
  pub fresh-IsValidBut :
      (m : TimerManager C) (a : ℕ)
      → IsValid m
      → is_set (m.heap a).cb ≡ false
      → IsValidBut (a ∷ []) m
  fresh-IsValidBut m a v off = record {
    ordered = v.ordered;
    distinct = (refl, tt);
    live = λ y. v.live y ∙ elim (ℕ_discrete y a) [
      | yes e ↦
          let off' : is_set (m.heap y).cb ≡ false = ap (λ z. is_set (m.heap z).cb) e ∙ off in
          rw off' (ground arith)
      | no ne ↦ ground (arith, ne)
    ];
  }
