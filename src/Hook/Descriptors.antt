-- ===== src/Hook/Descriptors.antt =====
-- The functions of src/async/hook.cpp that keep what is known about a descriptor: socket, accept,
-- close, fcntl, ioctl and setsockopt. What the system call does is given.
use cpp_server_framework.Prelude.{
  ℕ, ◌+◌, ◌-◌, ◌*◌, ◌/◌, ◌%◌, ◌^◌, Bool, true, false, not, ◌||◌, Option, none, some, ◌==◌,
  if◌then◌else◌,
}
use cpp_server_framework.FdManager.{
  FdCtx, FdManager, Look, found, goes_on, out_of_range, look, get, close as close_ctx, del,
  set_user_nonblock, set_timeout,
}
use cpp_server_framework.Hook.{find_ctx, Answer, returned, failed}

-- O_NONBLOCK, a bit.
abbrev pub o_nonblock : ℕ
o_nonblock = 2048

abbrev pub has_nonblock : ℕ → Bool
has_nonblock arg = arg / o_nonblock % 2 == 1

-- arg | O_NONBLOCK and arg & ~O_NONBLOCK
abbrev pub with_nonblock : ℕ → ℕ
with_nonblock arg = if has_nonblock arg then arg else arg + o_nonblock

abbrev pub without_nonblock : ℕ → ℕ
without_nonblock arg = if has_nonblock arg then arg - o_nonblock else arg

abbrev pub mask : Bool → ℕ → ℕ
mask nonblock arg = if nonblock then with_nonblock arg else without_nonblock arg

abbrev pub change_heap : ℕ → (FdCtx → FdCtx) → (ℕ → FdCtx) → ℕ → FdCtx
change_heap p f heap q = if q == p then f (heap p) else heap q

abbrev pub change_at : Look → (FdCtx → FdCtx) → FdManager → FdManager
change_at (found none) f m = m
change_at (found (some p)) f m = record m { heap = change_heap p f m.heap }
change_at goes_on f m = m
change_at out_of_range f m = m

-- A change of the context that `get` finds.
unfoldable pub change_ctx : ℕ → (FdCtx → FdCtx) → FdManager → FdManager
change_ctx fd f m = change_at (look (some fd) false m) f m

-- The test that hands a call on.
abbrev pub is_foreign : Option FdCtx → Bool
is_foreign none = true
is_foreign (some c) = c.is_closed || not c.is_socket

abbrev pub is_sys_nonblock : Option FdCtx → Bool
is_sys_nonblock none = false
is_sys_nonblock (some c) = c.sys_nonblock

abbrev pub is_user_nonblock : Option FdCtx → Bool
is_user_nonblock none = false
is_user_nonblock (some c) = c.user_nonblock

-- fcntl with F_SETFL: the flags that the system call gets.
unfoldable pub fcntl_setfl : ℕ → ℕ → FdManager → ℕ × FdManager
fcntl_setfl fd arg m =
    let ctx = find_ctx fd m in
    if is_foreign ctx
    then (arg, m)
    else (mask (is_sys_nonblock ctx) arg, change_ctx fd (set_user_nonblock (has_nonblock arg)) m)

-- fcntl with F_GETFL, where the system call gives `arg`.
unfoldable pub fcntl_getfl : ℕ → ℕ → FdManager → ℕ
fcntl_getfl fd arg m =
    let ctx = find_ctx fd m in if is_foreign ctx then arg else mask (is_user_nonblock ctx) arg

-- ioctl with FIONBIO; the system call gets the same argument.
unfoldable pub ioctl_fionbio : ℕ → Bool → FdManager → Bool × FdManager
ioctl_fionbio d user_nonblock m =
    if is_foreign (find_ctx d m)
    then (user_nonblock, m)
    else (user_nonblock, change_ctx d (set_user_nonblock user_nonblock) m)

-- setsockopt at SOL_SOCKET with SO_RCVTIMEO, or else SO_SNDTIMEO.
unfoldable pub setsockopt_timeout : Bool → Bool → ℕ → ℕ → ℕ → FdManager → FdManager
setsockopt_timeout enabled receives sockfd tv_sec tv_usec m =
    let ms = (tv_sec * 1000 % 2 ^ 64 + tv_usec / 1000) % 2 ^ 64 in
    if enabled then change_ctx sockfd (set_timeout receives ms) m else m

abbrev pub made : Option (Option ℕ × FdManager) → Option FdManager
made none = none
made (some r) = some r.1

-- `socket` and `accept`, with what the system call or IOhook gives, and for FdMgr::get what fstat
-- and fcntl say and the address of the new context.
module _ (stat : Option Bool) (nonblock : Bool) (p : ℕ) where
  unfoldable pub socket : Bool → Answer → FdManager → Option FdManager
  socket false fd m = some m
  socket true (failed e) m = some m
  socket true (returned fd) m = made (get stat nonblock p (some fd) true m)

  unfoldable pub accept : Answer → FdManager → Option FdManager
  accept (failed e) m = some m
  accept (returned fd) m = made (get stat nonblock p (some fd) true m)

-- close: whether the IOManager cancels the descriptor's events, if the thread has one.
unfoldable pub close : Bool → Bool → ℕ → FdManager → Bool × Option FdManager
close false has_iom fd m = (false, some m)
close true has_iom fd m = elim (find_ctx fd m) [
  | none ↦ (false, some m)
  | some c ↦ (has_iom, del (some fd) (change_ctx fd close_ctx m))
]
