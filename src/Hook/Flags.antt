-- ===== src/Hook/Flags.antt =====
-- What a user of src/async/hook.cpp sees of the flag O_NONBLOCK.
use cpp_server_framework.Prelude.{
  ℕ, ◌+◌, ◌-◌, ◌/◌, ◌%◌, ◌≡◌, refl, ap, ◌∙◌, inl, inr, Bool, true, false, Bool-cases, Option, none,
  some, ◌==◌, if◌then◌else◌, arith,
}
use cpp_server_framework.FdManager.{
  FdCtx, FdManager, Look, found, goes_on, out_of_range, look, set_user_nonblock,
}
use cpp_server_framework.Hook.{ctx_at, find_ctx}
use cpp_server_framework.Hook.Descriptors.{
  o_nonblock, has_nonblock, mask, change_heap, change_at, change_ctx, is_foreign, is_sys_nonblock,
  is_user_nonblock, fcntl_setfl, fcntl_getfl,
}

has_more : (arg : ℕ) → has_nonblock arg ≡ false → has_nonblock (arg + o_nonblock) ≡ true
has_more arg h =
    let off : arg / 2048 % 2 ≡ 0 = ground (arith, h) in
    let on : (arg + 2048) / 2048 % 2 ≡ 1 = omega (arith, off) in ground (arith, on)

has_less : (arg : ℕ) → has_nonblock arg ≡ true → has_nonblock (arg - o_nonblock) ≡ false
has_less arg h =
    let on : arg / 2048 % 2 ≡ 1 = ground (arith, h) in
    let off : (arg - 2048) / 2048 % 2 ≡ 0 = omega (arith, on) in ground (arith, off)

has_nonblock-mask : (b : Bool) (arg : ℕ) → has_nonblock (mask b arg) ≡ b
has_nonblock-mask true arg = elim (Bool-cases (has_nonblock arg)) [
  | inl on ↦ rw on on
  | inr off ↦ rw off (has_more arg off)
]
has_nonblock-mask false arg = elim (Bool-cases (has_nonblock arg)) [
  | inl on ↦ rw on (has_less arg on)
  | inr off ↦ rw off off
]

more_less : (arg : ℕ) → arg + 2048 - 2048 ≡ arg
more_less arg = omega arith

less_more : (arg : ℕ) → has_nonblock arg ≡ true → arg - 2048 + 2048 ≡ arg
less_more arg h = let on : arg / 2048 % 2 ≡ 1 = ground (arith, h) in omega (arith, on)

mask-mask : (b : Bool) (arg : ℕ) → mask (has_nonblock arg) (mask b arg) ≡ arg
mask-mask true arg = elim (Bool-cases (has_nonblock arg)) [
  | inl on ↦ rw (on, on) refl
  | inr off ↦ rw (off, has_more arg off) (more_less arg)
]
mask-mask false arg = elim (Bool-cases (has_nonblock arg)) [
  | inl on ↦ rw (on, has_less arg on) (less_more arg on)
  | inr off ↦ rw (off, off) refl
]

abbrev change_option : (FdCtx → FdCtx) → Option FdCtx → Option FdCtx
change_option f none = none
change_option f (some c) = some (f c)

-- A change is seen through the descriptor.
find_changed :
    (fd : ℕ) (f : FdCtx → FdCtx) (m : FdManager)
    → find_ctx fd (change_ctx fd f m) ≡ change_option f (find_ctx fd m)
unfolding find_ctx change_ctx look
find_changed fd f m = by_look (look (some fd) false m) refl
  where
    by_look :
        (l : Look)
        → look (some fd) false m ≡ l
        → find_ctx fd (change_at l f m) ≡ change_option f (ctx_at l m.heap)
    by_look (found none) e = ap (λ l. ctx_at l m.heap) e
    by_look (found (some p)) e =
        let same : (p == p) ≡ true = ground arith in
        ap (λ l. ctx_at l (change_heap p f m.heap)) e
        ∙ ap (λ b. some (if b then f (m.heap p) else m.heap p)) same
    by_look goes_on e = ap (λ l. ctx_at l m.heap) e
    by_look out_of_range e = ap (λ l. ctx_at l m.heap) e

setfl_own :
    (fd arg : ℕ) (c : FdCtx) (m : FdManager)
    → find_ctx fd m ≡ some c
    → is_foreign (some c) ≡ false
    → fcntl_setfl fd arg m
      ≡ (mask c.sys_nonblock arg, change_ctx fd (set_user_nonblock (has_nonblock arg)) m)
unfolding fcntl_setfl
setfl_own fd arg c m finds own =
    let changed = change_ctx fd (set_user_nonblock (has_nonblock arg)) m in
    ap (λ o. if is_foreign o then (arg, m) else (mask (is_sys_nonblock o) arg, changed)) finds
    ∙ ap (λ b. if b then (arg, m) else (mask c.sys_nonblock arg, changed)) own

getfl_own :
    (fd arg : ℕ) (c : FdCtx) (m : FdManager)
    → find_ctx fd m ≡ some c
    → is_foreign (some c) ≡ false
    → fcntl_getfl fd arg m ≡ mask c.user_nonblock arg
unfolding fcntl_getfl
getfl_own fd arg c m finds own =
    ap (λ o. if is_foreign o then arg else mask (is_user_nonblock o) arg) finds
    ∙ ap (λ b. if b then arg else mask c.user_nonblock arg) own

-- On an open socket fcntl with F_SETFL hands the system the flags with O_NONBLOCK just if the
-- framework made the socket non-blocking, and F_GETFL, where the system gives these flags back,
-- gives the flags that the user set.
pub fcntl_round_trip :
    (fd arg : ℕ) (c : FdCtx) (m : FdManager)
    → find_ctx fd m ≡ some c
    → is_foreign (some c) ≡ false
    → (has_nonblock (fcntl_setfl fd arg m).0 ≡ c.sys_nonblock)
      × (fcntl_getfl fd (fcntl_setfl fd arg m).0 (fcntl_setfl fd arg m).1 ≡ arg)
fcntl_round_trip fd arg c m finds own =
    let set = setfl_own fd arg c m finds own in
    let b = has_nonblock arg in
    let changed = change_ctx fd (set_user_nonblock b) m in
    let c' = set_user_nonblock b c in
    let finds' : find_ctx fd changed ≡ some c' =
      find_changed fd (set_user_nonblock b) m ∙ ap (change_option (set_user_nonblock b)) finds in
    (
      ap (λ r. has_nonblock r.0) set ∙ has_nonblock-mask c.sys_nonblock arg,
      ap (λ r. fcntl_getfl fd r.0 r.1) set
          ∙ getfl_own fd (mask c.sys_nonblock arg) c' changed finds' own
          ∙ mask-mask c.sys_nonblock arg,
    )
