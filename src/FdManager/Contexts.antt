-- ===== src/FdManager/Contexts.antt =====
-- What src/async/fdmanager.cpp finds for a descriptor.
use cpp_server_framework.Prelude.{
  ℕ, zero, suc, ◌+◌, ◌-◌, ◌/◌, ◌≤◌, ◌<◌, ◌≡◌, refl, ap, ◌∙◌, inl, inr, Bool, true, false,
  Bool-cases, Option-cases, List, [], ◌∷◌, ◌++◌, length, get_elem?, set, replicate, length-append,
  length-replicate, Option, none, some, ltb, leb, ◌==◌, if◌then◌else◌, arith, dec_lt,
}
use cpp_server_framework.FdManager.{
  new_fd_ctx, FdManager, resize, found, goes_on, look_at, look, create, get,
}

abbrev flat : Option (Option ℕ) → Option ℕ
flat none = none
flat (some p) = p

-- The FdCtx that is kept for the descriptor.
abbrev pub kept : ℕ → List (Option ℕ) → Option ℕ
kept fd ps = flat (get_elem? ps fd)

kept-set :
    (ps : List (Option ℕ)) (fd i : ℕ) (p : Option ℕ)
    → fd < length ps
    → kept i (set ps fd p) ≡ (if i == fd then p else kept i ps)
kept-set [] fd i p h = absurd (omega (arith, h))
kept-set (x ∷ ps) zero zero p h = refl
kept-set (x ∷ ps) zero (suc i) p h = ground arith
kept-set (x ∷ ps) (suc fd) zero p h = ground arith
kept-set (x ∷ ps) (suc fd) (suc i) p h =
    let e : (suc i == suc fd) ≡ (i == fd) = ground arith in
    rw e (kept-set ps fd i p (omega (arith, h)))

kept-replicate : (n i : ℕ) → kept i (replicate n none) ≡ none
kept-replicate zero i = refl
kept-replicate (suc n) zero = refl
kept-replicate (suc n) (suc i) = kept-replicate n i

kept-append : (ps : List (Option ℕ)) (n i : ℕ) → kept i (ps ++ replicate n none) ≡ kept i ps
kept-append [] n i = kept-replicate n i
kept-append (x ∷ ps) n zero = refl
kept-append (x ∷ ps) n (suc i) = kept-append ps n i

length-set : (ps : List (Option ℕ)) (fd : ℕ) (p : Option ℕ) → length (set ps fd p) ≡ length ps
length-set [] fd p = refl
length-set (x ∷ ps) zero p = refl
length-set (x ∷ ps) (suc fd) p = ap suc (length-set ps fd p)

get_elem?-kept :
    (ps : List (Option ℕ)) (fd : ℕ) → fd < length ps → get_elem? ps fd ≡ some (kept fd ps)
get_elem?-kept [] fd h = absurd (omega (arith, h))
get_elem?-kept (x ∷ ps) zero h = refl
get_elem?-kept (x ∷ ps) (suc fd) h = get_elem?-kept ps fd (omega (arith, h))

module _ (stat : Option Bool) (nonblock : Bool) (fd : ℕ) where
  -- The FdCtx at p is kept for fd, and those of the other descriptors are as before.
  pub record IsKept (p : ℕ) (m m' : FdManager) : Type 0 where
    pub sized : 2 ≤ length m'.datas
    pub reaches : fd < length m'.datas
    pub keeps : (i : ℕ) → kept i m'.datas ≡ (if i == fd then some p else kept i m.datas)

  abbrev create_in : (p : ℕ) (ps : List (Option ℕ)) (m : FdManager) → FdManager
  create_in p ps m = record {
    datas = set ps fd (some p);
    heap = λ q. if q == p then (new_fd_ctx stat nonblock fd).ctx else m.heap q;
  }

  create-IsKept :
      (p : ℕ) (m : FdManager)
      → 2 ≤ length m.datas
      → (m' : FdManager) × (create stat nonblock p fd m ≡ some (p, m')) × IsKept p m m'
  unfolding create
  create-IsKept p m sized = elim (Bool-cases (leb (length m.datas) fd)) [
    | inl far ↦
        let ps = resize (fd + fd / 2) m.datas in
        let len : length ps ≡ length m.datas + (fd + fd / 2 - length m.datas) =
          length-append m.datas (replicate (fd + fd / 2 - length m.datas) none)
          ∙ ap (λ k. length m.datas + k) (length-replicate (fd + fd / 2 - length m.datas) none) in
        let le : length m.datas ≤ fd = ground (arith, far) in
        let room : fd < length ps = omega (arith, len, le, sized) in
        let b : ltb fd (length ps) ≡ true = ground (arith, room) in
        (
          create_in p ps m,
          rw (far, b) refl,
          record {
            sized = omega (arith, length-set ps fd (some p), room, le, sized);
            reaches = omega (arith, length-set ps fd (some p), room);
            keeps = λ i.
                kept-set ps fd i (some p) room
                ∙ ap (λ o. if i == fd then some p else o)
                    (kept-append m.datas (fd + fd / 2 - length m.datas) i);
          },
        )
    | inr near ↦
        let room : fd < length m.datas = ground (arith, near) in
        let b : ltb fd (length m.datas) ≡ true = ground (arith, room) in
        (
          create_in p m.datas m,
          rw (near, b) refl,
          record {
            sized = omega (arith, length-set m.datas fd (some p), sized);
            reaches = omega (arith, length-set m.datas fd (some p), room);
            keeps = λ i. kept-set m.datas fd i (some p) room;
          },
        )
  ]

  look-look_at :
      (auto_create : Bool) (m : FdManager)
      → fd < length m.datas
      → look (some fd) auto_create m ≡ look_at auto_create (some (kept fd m.datas))
  unfolding look
  look-look_at auto_create m h =
      let b : leb (length m.datas) fd ≡ false = ground (arith, h) in
      rw b (ap (look_at auto_create) (get_elem?-kept m.datas fd h))

  get_known :
      (p r : ℕ) (auto_create : Bool) (m : FdManager)
      → fd < length m.datas
      → kept fd m.datas ≡ some r
      → get stat nonblock p (some fd) auto_create m ≡ some (some r, m)
  unfolding get
  get_known p r auto_create m h e =
      let seen : look (some fd) auto_create m ≡ found (some r) =
        look-look_at auto_create m h ∙ ap (λ o. look_at auto_create (some o)) e in
      rw (get, seen) refl

  get_made :
      (p : ℕ) (m m' : FdManager)
      → look (some fd) true m ≡ goes_on
      → create stat nonblock p fd m ≡ some (p, m')
      → get stat nonblock p (some fd) true m ≡ some (some p, m')
  unfolding get
  get_made p m m' on made = rw (get, on, made) refl

  same-IsKept :
      (r : ℕ) (m : FdManager)
      → 2 ≤ length m.datas
      → fd < length m.datas
      → kept fd m.datas ≡ some r
      → IsKept r m m
  same-IsKept r m sized h e = record {
    sized = sized;
    reaches = h;
    keeps = λ i. elim (Bool-cases (i == fd)) [
      | inl same ↦
          rw same (let at : i ≡ fd = ground (arith, same) in ap (λ k. kept k m.datas) at ∙ e)
      | inr other ↦ rw other refl
    ];
  }

  abbrev IsGot : ℕ → FdManager → Option (Option ℕ × FdManager) → Type 0
  IsGot p m o = (r : ℕ) × (m' : FdManager) × (o ≡ some (some r, m')) × IsKept r m m'

  get-IsGot :
      (p : ℕ) (m : FdManager)
      → 2 ≤ length m.datas
      → IsGot p m (get stat nonblock p (some fd) true m)
  unfolding look
  get-IsGot p m sized = elim (dec_lt fd (length m.datas)) [
    | yes h ↦ elim (Option-cases (kept fd m.datas)) [
      | inl none_kept ↦
          let (m', made, v) = create-IsKept p m sized in
          let on : look (some fd) true m ≡ goes_on =
            look-look_at true m h ∙ ap (λ o. look_at true (some o)) none_kept in
          (p, m', get_made p m m' on made, v)
      | inr (r, e) ↦ (r, m, get_known p r true m h e, same-IsKept r m sized h e)
    ]
    | no far ↦
        let (m', made, v) = create-IsKept p m sized in
        let b : leb (length m.datas) fd ≡ true = ground (arith, far) in
        let on : look (some fd) true m ≡ goes_on = rw b refl in (p, m', get_made p m m' on made, v)
  ]

module _ (stat stat' : Option Bool) (nonblock nonblock' auto_create : Bool) (fd : ℕ) where
  abbrev pub IsFound : ℕ → FdManager → Option (Option ℕ × FdManager) → Type 0
  IsFound q m o =
      (r : ℕ) × (m' : FdManager) × (o ≡ some (some r, m'))
      × IsKept stat nonblock fd r m m'
      × (get stat' nonblock' q (some fd) auto_create m' ≡ some (some r, m'))

  -- On a manager with room for at least two descriptors `get` with `auto_create` never reads or
  -- writes out of range; it gives an FdCtx for the descriptor, keeps those of all other
  -- descriptors, and a later `get` of the descriptor, with or without `auto_create`, gives the same
  -- FdCtx and changes nothing.
  pub get-IsFound :
      (p q : ℕ) (m : FdManager)
      → 2 ≤ length m.datas
      → IsFound q m (get stat nonblock p (some fd) true m)
  get-IsFound p q m sized =
      let (r, m', run, v) = get-IsGot stat nonblock fd p m sized in
      let same : (fd == fd) ≡ true = ground arith in
      let here : kept fd m'.datas ≡ some r = v.keeps fd ∙ rw same refl in
      (r, m', run, v, get_known stat' nonblock' fd q r auto_create m' v.reaches here)

  -- On a manager with room for at least two descriptors, two threads that have both gone on to make
  -- the FdCtx of a descriptor, one after the other, get one each, and what `get` finds from then on
  -- is the second, not the one that the first thread has.
  pub create_twice :
      (p q : ℕ) (m : FdManager)
      → 2 ≤ length m.datas
      → (m1 m2 : FdManager) × (create stat nonblock p fd m ≡ some (p, m1))
        × (create stat' nonblock' q fd m1 ≡ some (q, m2))
        × (get stat nonblock p (some fd) true m2 ≡ some (some q, m2))
  create_twice p q m sized =
      let (m1, one, v1) = create-IsKept stat nonblock fd p m sized in
      let (m2, two, v2) = create-IsKept stat' nonblock' fd q m1 v1.sized in
      let same : (fd == fd) ≡ true = ground arith in
      let here : kept fd m2.datas ≡ some q = v2.keeps fd ∙ rw same refl in
      (m1, m2, one, two, get_known stat nonblock fd p q true m2 v2.reaches here)
