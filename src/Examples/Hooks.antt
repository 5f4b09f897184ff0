-- ===== src/Examples/Hooks.antt =====
-- Calls through src/async/hook.cpp, and the theorems on them.
use cpp_server_framework.Prelude.{◌≡◌, refl, true, false, List, [], ◌∷◌, none, some, is_some}
use cpp_server_framework.FdManager.{FdCtx, FdManager, get_timeout, look}
use cpp_server_framework.Hook.{
  Try, attempt, returned, failed, eintr, eagain, adds_timer, yields, sleep, io_hook, find_ctx,
}
use cpp_server_framework.Hook.Descriptors.{has_nonblock, fcntl_setfl, fcntl_getfl}
use cpp_server_framework.Hook.Waiting.{
  blocking, IsBalanced, io_hook-blocking, io_hook_some, io_hook-IsBalanced,
}
use cpp_server_framework.Hook.Flags.{fcntl_round_trip}

abbrev a_socket : FdCtx
a_socket = record {
  is_init = true;
  is_socket = true;
  sys_nonblock = true;
  user_nonblock = false;
  is_closed = false;
  fd = 0;
  recv_timeout = 5000;
  send_timeout = 5000;
}

-- Interrupted, then waiting once, then five bytes.
abbrev five_bytes : List Try
five_bytes =
    attempt (failed eintr) none false
    ∷ (attempt (failed eagain) none false ∷ (attempt (returned 5) none false ∷ []))

io_hook-blocking_example : (io_hook true (some a_socket) true five_bytes).1 ≡ blocking five_bytes
io_hook-blocking_example = io_hook-blocking a_socket true five_bytes refl refl

io_hook_some_example : is_some (io_hook true (some a_socket) true five_bytes).1 ≡ true
io_hook_some_example = io_hook_some true (some a_socket) true five_bytes refl

io_hook-IsBalanced_example :
    IsBalanced (get_timeout true a_socket) (io_hook true (some a_socket) true five_bytes).0
io_hook-IsBalanced_example = io_hook-IsBalanced true a_socket true five_bytes

abbrev one_fd : FdManager
one_fd = record { datas = some 7 ∷ []; heap = λ p. a_socket }

one_fd_finds : find_ctx 0 one_fd ≡ some a_socket
unfolding find_ctx look
one_fd_finds = refl

fcntl_round_trip_example :
    (has_nonblock (fcntl_setfl 0 2 one_fd).0 ≡ true)
    × (fcntl_getfl 0 (fcntl_setfl 0 2 one_fd).0 (fcntl_setfl 0 2 one_fd).1 ≡ 2)
fcntl_round_trip_example = fcntl_round_trip 0 2 a_socket one_fd one_fd_finds refl

-- From 4294968 seconds on the timer is too short.
long_sleep : (sleep true (failed eintr) 4294968).0 ≡ adds_timer 704 ∷ (yields ∷ [])
unfolding sleep
long_sleep = refl
