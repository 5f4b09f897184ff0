-- ===== src/FdManager.antt =====
-- src/async/fdmanager.h and fdmanager.cpp: what is kept about each file descriptor. A descriptor is
-- its number, or `none` for -1; an FdCtx is known by its address, and `heap` gives what is there.
-- The system calls are outside of the program: `stat` is what fstat gives, whether the descriptor
-- is a socket, or `none` for an error, and `nonblock` is the flag O_NONBLOCK that fcntl gives.
pub mod Contexts
use cpp_server_framework.Prelude.{
  ℕ, zero, suc, ◌+◌, ◌-◌, ◌/◌, ◌^◌, Bool, true, false, not, ◌&&◌, List, [], ◌∷◌, ◌++◌, length,
  get_elem?, set, replicate, Option, none, some, ltb, leb, ◌==◌, if◌then◌else◌,
}

pub record FdCtx : Type 0 where
  pub is_init : Bool
  pub is_socket : Bool
  pub sys_nonblock : Bool
  pub user_nonblock : Bool
  pub is_closed : Bool
  pub fd : ℕ
  pub recv_timeout : ℕ
  pub send_timeout : ℕ

-- What `init` gives, whether it sets O_NONBLOCK, and the context.
pub record Init : Type 0 where
  pub result : Bool
  pub sets_nonblock : Bool
  pub ctx : FdCtx

unfoldable pub init : Option Bool → Bool → FdCtx → Init
init stat nonblock c =
    let known = elim stat as (λ _. Bool) [ none ↦ false | some b ↦ true ] in
    let socket = elim stat as (λ _. Bool) [ none ↦ false | some b ↦ b ] in
    if c.is_init then record { result = true; sets_nonblock = false; ctx = c } else record {
      result = known;
      sets_nonblock = socket && not nonblock;
      ctx = record {
        is_init = known;
        is_socket = socket;
        sys_nonblock = socket;
        user_nonblock = false;
        is_closed = false;
        fd = c.fd;
        recv_timeout = 2 ^ 64 - 1;
        send_timeout = 2 ^ 64 - 1;
      };
    }

unfoldable pub new_fd_ctx : Option Bool → Bool → ℕ → Init
new_fd_ctx stat nonblock fd = init stat nonblock (record {
  is_init = false;
  is_socket = false;
  sys_nonblock = false;
  user_nonblock = false;
  is_closed = false;
  fd = fd;
  recv_timeout = 2 ^ 64 - 1;
  send_timeout = 2 ^ 64 - 1;
})

-- Whether the type is SO_RCVTIMEO.
unfoldable pub set_timeout : Bool → ℕ → FdCtx → FdCtx
set_timeout true v c = record c { recv_timeout = v }
set_timeout false v c = record c { send_timeout = v }

unfoldable pub get_timeout : Bool → FdCtx → ℕ
get_timeout true c = c.recv_timeout
get_timeout false c = c.send_timeout

abbrev pub close : FdCtx → FdCtx
close c = record c { is_closed = true }

abbrev pub set_user_nonblock : Bool → FdCtx → FdCtx
set_user_nonblock v c = record c { user_nonblock = v }

abbrev pub set_sys_nonblock : Bool → FdCtx → FdCtx
set_sys_nonblock v c = record c { sys_nonblock = v }

pub record FdManager : Type 0 where
  pub datas : List (Option ℕ)
  pub heap : ℕ → FdCtx

abbrev pub new_fd_manager : (ℕ → FdCtx) → FdManager
new_fd_manager heap = record { datas = replicate 64 none; heap = heap }

-- m_datas[fd]; `none` is an access out of range.
abbrev pub at : List (Option ℕ) → ℕ → Option (Option ℕ)
at ps i = get_elem? ps i

abbrev pub resize : ℕ → List (Option ℕ) → List (Option ℕ)
resize n ps = ps ++ replicate (n - length ps) none

-- What `get` does under the lock for reading: what it returns, unless it goes on.
pub data Look : Type 0 where
  found : Option ℕ → Look
  goes_on : Look
  out_of_range : Look

-- A pointer that was read: it is returned unless it is empty and one is to be made.
abbrev pub look_at : Bool → Option (Option ℕ) → Look
look_at auto_create none = out_of_range
look_at auto_create (some (some p)) = found (some p)
look_at auto_create (some none) = if auto_create then goes_on else found none

unfoldable pub look : Option ℕ → Bool → FdManager → Look
look none auto_create m = found none
look (some fd) auto_create m =
    if leb (length m.datas) fd
    then (if auto_create then goes_on else found none)
    else look_at auto_create (at m.datas fd)

-- What `get` does under the lock for writing, with the address of the new FdCtx; `none` is a write
-- out of range.
unfoldable pub create : Option Bool → Bool → ℕ → ℕ → FdManager → Option (ℕ × FdManager)
create stat nonblock p fd m =
    let c = (new_fd_ctx stat nonblock fd).ctx in
    let ps = if leb (length m.datas) fd then resize (fd + fd / 2) m.datas else m.datas in
    if ltb fd (length ps)
    then some (p, record { datas = set ps fd (some p); heap = λ q. if q == p then c else m.heap q })
    else none

unfoldable pub get :
    Option Bool → Bool → ℕ → Option ℕ → Bool → FdManager → Option (Option ℕ × FdManager)
get stat nonblock p none auto_create m = some (none, m)
get stat nonblock p (some fd) auto_create m = elim (look (some fd) auto_create m) [
  | found r ↦ some (r, m)
  | out_of_range ↦ none
  | goes_on ↦ elim (create stat nonblock p fd m) [ none ↦ none | some (q, m') ↦ some (some q, m') ]
]

-- `none` is an access out of range.
unfoldable pub del : Option ℕ → FdManager → Option FdManager
del none m = none
del (some fd) m =
    if leb (length m.datas) fd then some m else some (record m { datas = set m.datas fd none })
