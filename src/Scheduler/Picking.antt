-- ===== src/Scheduler/Picking.antt =====
-- Which task `run` in src/async/scheduler.cpp takes from the queue, and what `schedule` puts there.
use cpp_server_framework.Prelude.{
  ℕ, ◌≡◌, refl, sym, ap, ◌∙◌, inl, inr, Bool, true, false, not, ◌&&◌, ◌||◌, List, [], ◌∷◌, ◌++◌,
  append_assoc, append-nil, Option, none, some, Bool-cases, if◌then◌else◌, arith,
}
use cpp_server_framework.Scheduler.{
  State, FiberAndThread, Picked, has_work, is_empty, is_elsewhere, is_running, pick,
  schedule_no_lock, schedule_all,
}

abbrev pub any : (FiberAndThread → Bool) → List FiberAndThread → Bool
any p [] = false
any p (x ∷ xs) = p x || any p xs

abbrev pub all : (FiberAndThread → Bool) → List FiberAndThread → Bool
all p [] = true
all p (x ∷ xs) = p x && all p xs

abbrev pub is_taken : Option FiberAndThread → Bool
is_taken none = false
is_taken (some ft) = true

abbrev pub as_list : Option FiberAndThread → List FiberAndThread
as_list none = []
as_list (some ft) = ft ∷ []

module _ (me : ℕ) (states : ℕ → State) where
  abbrev pub skips : FiberAndThread → Bool
  skips ft = is_elsewhere me ft || is_running states ft

  abbrev pub fits : Option FiberAndThread → Bool
  fits none = true
  fits (some ft) = not (skips ft) && has_work ft

  -- The first task that is not passed over, the others in their order, and whether one that was
  -- passed over is for another thread; all of the queue is passed over where none is taken.
  pub record IsPicked (fts : List FiberAndThread) (p : Picked) : Type 0 where
    pub front : List FiberAndThread
    pub back : List FiberAndThread
    pub queue : fts ≡ front ++ (as_list p.task ++ back)
    pub left : p.fibers ≡ front ++ back
    pub passed : all skips front ≡ true
    pub chosen : fits p.task ≡ true
    pub ended : (is_taken p.task || is_empty back) ≡ true
    pub tickled : p.tickle_me ≡ any (is_elsewhere me) front

  passed_over :
      (ft : FiberAndThread) (fts : List FiberAndThread) (p : Picked) (t : Bool)
      → skips ft ≡ true
      → t ≡ (is_elsewhere me ft || p.tickle_me)
      → IsPicked fts p
      → IsPicked (ft ∷ fts) (record p { tickle_me = t; fibers = ft ∷ p.fibers })
  passed_over ft fts p t s e v = record {
    front = ft ∷ v.front;
    back = v.back;
    queue = ap (λ xs. ft ∷ xs) v.queue;
    left = ap (λ xs. ft ∷ xs) v.left;
    passed = ground (arith, s, v.passed);
    chosen = v.chosen;
    ended = v.ended;
    tickled = e ∙ ap (λ b. is_elsewhere me ft || b) v.tickled;
  }

  -- If each task in the queue has a fiber or a callback, the search of `run` fails no ASSERT; it
  -- takes the first task that is neither for another thread nor a fiber that runs, leaves the
  -- others in their order, takes none only if all are passed over, and tickles just if it passed
  -- over a task for another thread.
  pub pick-IsPicked :
      (fts : List FiberAndThread)
      → all has_work fts ≡ true
      → (p : Picked) × (pick me states fts ≡ some p) × IsPicked fts p
  unfolding pick
  pick-IsPicked [] h = (
    record { tickle_me = false; task = none; fibers = [] },
    refl,
    record {
      front = [];
      back = [];
      queue = refl;
      left = refl;
      passed = refl;
      chosen = refl;
      ended = refl;
      tickled = refl;
    },
  )
  pick-IsPicked (ft ∷ fts) h =
      let work : has_work ft ≡ true = ground (arith, h) in
      let (p, run, v) = pick-IsPicked fts (ground (arith, h)) in
      elim (Bool-cases (is_elsewhere me ft)) [
        | inl other ↦ (
          record p { tickle_me = true; fibers = ft ∷ p.fibers },
          rw (other, run) refl,
          passed_over ft fts p true (ground (arith, other)) (rw other refl) v,
        )
        | inr mine ↦ elim (Bool-cases (is_running states ft)) [
          | inl busy ↦ (
            record p { fibers = ft ∷ p.fibers },
            rw (mine, work, busy, run) refl,
            passed_over ft fts p p.tickle_me (ground (arith, busy)) (rw mine refl) v,
          )
          | inr free ↦ (
            record { tickle_me = false; task = some ft; fibers = fts },
            rw (mine, work, free) refl,
            record {
              front = [];
              back = fts;
              queue = refl;
              left = refl;
              passed = refl;
              chosen = rw (mine, free, work) refl;
              ended = refl;
              tickled = refl;
            },
          )
        ]
      ]

pub all-append :
    (p : FiberAndThread → Bool) (xs ys : List FiberAndThread)
    → all p (xs ++ ys) ≡ (all p xs && all p ys)
all-append p [] ys = refl
all-append p (x ∷ xs) ys = ground (arith, all-append p xs ys)

-- Every task in the queue has work to do.
pub schedule_no_lock-all :
    (ft : FiberAndThread) (fts : List FiberAndThread)
    → all has_work fts ≡ true
    → all has_work (schedule_no_lock ft fts).1 ≡ true
unfolding schedule_no_lock
schedule_no_lock-all ft fts h = elim (Bool-cases (has_work ft)) [
  | inl work ↦ rw work (all-append has_work fts (ft ∷ []) ∙ rw (h, work) refl)
  | inr none_there ↦ rw none_there h
]

abbrev pub filter : (FiberAndThread → Bool) → List FiberAndThread → List FiberAndThread
filter p [] = []
filter p (x ∷ xs) = let rest = filter p xs in if p x then x ∷ rest else rest

is_empty-append :
    (fts : List FiberAndThread) (ft : FiberAndThread) → is_empty (fts ++ (ft ∷ [])) ≡ false
is_empty-append [] ft = refl
is_empty-append (x ∷ fts) ft = refl

-- The batch form of `schedule` puts the tasks that have a fiber or a callback behind the queue in
-- their order, drops the others, and tickles just if the queue was empty and the batch is not.
pub schedule_all_lem :
    (more fts : List FiberAndThread)
    → ((schedule_all more fts).1 ≡ fts ++ filter has_work more)
      × ((schedule_all more fts).0 ≡ (is_empty fts && not (is_empty more)))
unfolding schedule_all schedule_no_lock
schedule_all_lem [] fts = (sym (append-nil fts), ground arith)
schedule_all_lem (ft ∷ more) fts = elim (Bool-cases (has_work ft)) [
  | inl work ↦
      let (queue, tickles) = schedule_all_lem more (fts ++ (ft ∷ [])) in
      rw work (
        queue ∙ append_assoc fts (ft ∷ []) (filter has_work more),
        rw tickles (ground (arith, is_empty-append fts ft)),
      )
  | inr nothing ↦
      let (queue, tickles) = schedule_all_lem more fts in
      rw nothing (queue, rw tickles (ground arith))
]
