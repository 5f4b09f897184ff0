-- ===== src/Lib.antt =====
-- A model of CppServerFramework, a C++ library for network servers on coroutines, and theorems on
-- the model.
--
-- The byte buffer (src/socket/bytearray.h, bytearray.cpp) is the store of the socket streams. It is a
-- chain of equal blocks with one position for reading and writing, and it has writers and readers of
-- raw bytes, fixed-width and variable-length integers and strings. The byte order functions
-- (src/socket/endians.h) serve its fixed-width integers. The timers (src/async/timer.h, timer.cpp) are
-- an ordered set from which the IO manager takes the callbacks that are due.
-- The scheduler (src/async/scheduler.h, scheduler.cpp) has a queue of fibers and callbacks, which worker
-- threads take out and run. The IO manager (src/async/iomanager.h, iomanager.cpp) is a scheduler that
-- keeps, for each file descriptor, what waits until it can be read or written; it hands this to
-- the scheduler when epoll reports the descriptor, and the callbacks of the timers with it.
-- Descriptor contexts (src/async/fdmanager.h, fdmanager.cpp) hold what the hooked system calls need to
-- know of a descriptor. Streams (src/stream/stream.h, stream.cpp) move a fixed number of bytes. HTTP
-- messages (src/HTTP/http.h, http.cpp) are requests and responses with their headers, and the servlet
-- dispatcher (src/servlet/servlet.h, servlet.cpp) finds the handler of a request.
-- The hooks (src/async/hook.cpp) take the place of system calls and let a fiber wait, with the IO
-- manager and its timers, where the thread would block. The log (src/log/log.h, log.cpp) has loggers
-- with appenders, which print events by patterns and are made anew when their definitions change.
-- Fibers (src/async/fiber.h, fiber.cpp) switch between the stacks of a thread. The configuration
-- (src/config/config.h, config.cpp) has variables with listeners, which are loaded from a tree. An
-- HTTP session (src/HTTP/http_session.h, http_session.cpp) receives requests.
-- Addresses (src/socket/ipaddress.h, ipaddress.cpp) wrap those of the system.
-- The connection pool (src/HTTP/http_connection.h, http_connection.cpp) keeps HTTP client connections.
--
-- Files:
-- - Prelude: shared names, Boolean tests, lists over the native numbers, bit operations;
--   Prelude/Bytes: strings as lists of bytes; Prelude/Options: chains of Option.
-- - Endians, Endians/Swap: src/socket/endians.h. The byte order of the host is an argument.
-- - ByteArray: the class ByteArray. `nodes` is the chain from m_root on, `cur` the index of m_cur
--   in it (the length of the chain for null), the other fields are the members of the same names.
--   write, read, setPosition, clear, toString, addCapacity are `write`, `read`, `set_position`,
--   `clear`, `to_string`, `add_capacity`. A C++ exception is `out_of_range`, a null dereference
--   `fault`. What `new char[n]` holds is the parameter Allocator.
-- - ByteArray/Valid: the abstract buffer and the invariant. ByteArray/Blocks, WriteLoop, ReadLoop,
--   Growth, Write: lemmas. ByteArray/Append, Read, Position, RoundTrip: the operations against the
--   abstract buffer.
-- - ByteArray/Iovecs: getReadBuffers.
-- - ByteArray/Fixed, ByteArray/Vint, ByteArray/Text: the typed writers and readers, with their
--   theorems in the files below them; ByteArray/Codec has the lemmas that chain such steps.
-- - Timer: Timer and TimerManager; a timer is known by its address, the clock is an argument.
--   Timer/Order has the ordered set, Timer/Invariant the invariant and the steps that take a timer
--   out and put it in, Timer/Operations addTimer, cancel, refresh and reset, Timer/Expiry the loop
--   of listExpiredCb, Timer/Due listExpiredCb and getNextTimer.
-- - Scheduler: the queue, scheduleNoLock and schedule (`schedule_no_lock`, `schedule_all`), and one
--   round of the loop of run (`run_round`, with `pick` for the search of the queue). What a fiber
--   does until it gives the thread back is the parameter `swap_in`. Scheduler/Picking is about the
--   queue, Scheduler/Counting about a task that is run, Scheduler/Rounds about the rounds.
-- - IoManager: addEvent, delEvent, cancelEvent, cancelAll, triggerEvent and the loop of idle over
--   the reported events (`handle_event`). The result of epoll_ctl is a parameter, a failed ASSERT
--   is `asserted`. IoManager/Contexts has the invariant, IoManager/Registering, Removing,
--   Cancelling and Waking the operations, IoManager/Room and IoManager/Triggers lemmas.
-- - FdManager: FdCtx and FdManager. An FdCtx is known by its address; `look` and `create` are what
--   FdManager::get does under its two locks. FdManager/Contexts has the theorems.
-- - Stream: readFixSize and writeFixSize, with theorems in Stream/Transfers. A stream is a
--   parameter.
-- - Servlet: ServletDispatch and DefaultServlet, with theorems in Servlet/Dispatch. fnmatch is a
--   parameter.
-- - Http: HttpRequest and HttpResponse. setHeader and dump of a request are `set_header` and
--   `dump_request`, those of a response `set_response_header` and `dump_response`. strcasecmp is a
--   parameter. Http/Tables has the names of methods and statuses, Http/Names and Http/Printing the
--   theorems.
-- - Hook: IOhook (`io_hook`, with `retry` for the part from its label on), IOHook_connect and the
--   sleeping functions; whether the hook is on is an argument, and the answers of the system are
--   the list of tries, so that the loop recurses on it. Hook/Descriptors has socket, accept, close,
--   fcntl, ioctl and setsockopt; Hook/Waiting and Hook/Flags the theorems.
-- - Log: levels, events and format items; Log/Pattern has LogFormatter::init (`new_formatter`),
--   Log/Loggers Logger and LogAppender, Log/Manager LoggerManager and the listener of LogIniter
--   (`reload`). A null pointer that is followed is `none`. Log/RoundTrip is about patterns,
--   Log/Formatters, Log/Safety and Log/Formatted about formatters, Log/Reloading and Log/Reloaded
--   about the listener, Log/Files about files.
-- - Fiber: the constructor with a callback, reset, swapIn, swapOut, call, uncall, the two yields
--   and the end of a fiber (`end_fiber`), on the fibers of one thread, with `Step` for what can
--   happen. Fiber/Switching has the theorems.
-- - Config: ListAllYamlMember (`list_all`), ConfigVar, Lookup (`lookup`) and LoadFromYaml. What a
--   string is read as, and whether a listener throws, are parameters. Config/Members and
--   Config/Paths are about the listing, Config/Variables about look-ups, Config/Loading about
--   LoadFromYaml.
-- - Http/Session: recvRequest over a parser and a connection, with theorems in Http/Heads and
--   Http/Receiving; the calls of `read` are a list, on which its loops recurse.
-- - Address: the order of addresses, masks, the operations of IPv4Address and the path of a
--   UnixAddress. CountBytes is on fuel, and as many rounds as the number has bits are enough.
--   Address/Order is about the order, Address/Ones about CountBytes.
-- - ConnectionPool: HttpConnectionPool. `get_connection` and `release_ptr` are getConnection and
--   ReleasePtr; the clock, the state of the sockets and what connecting gives are arguments.
--   ConnectionPool/Accounting is about m_total, ConnectionPool/Reuse about all sequences of calls.
-- - Examples: concrete states on which the theorems are tried.
--
-- Bounds and fuel: a size_t or uint64_t is a number with its wrap-around written out; the theorems
-- on the buffer assume that the capacity and the bytes to write fit 2^64. The loops of the
-- variable-length integers run on the slots of `tmp` (5 and 10) and on the rounds in which i is
-- below the width (5 and 10), which is what the code allows; the loops over the chain recurse on
-- it. The fixed-size transfers run on fuel, and `length` and one is enough.
--
-- Not modelled: the iovec lists for writing to the buffer, its hexadecimal dump and its file input
-- and output; the start and stop of threads in src/async; the callbacks of the HTTP parsers
-- (src/HTTP/http_parser.cpp), and the machines that Ragel generates (uri.cpp,
-- httprequest_parser.cpp, httprespond_parser.cpp), whose results the session takes as arguments;
-- the sending of requests (recvResponse and DoRequest); the sockets and servers; the look-ups of
-- addresses, which go to getaddrinfo, and IPv6Address; the conversions of values from and to YAML.
-- Locks are not modelled: an operation is one step.
pub mod Prelude
pub mod Endians
pub mod ByteArray
pub mod Address
pub mod Config
pub mod ConnectionPool
pub mod FdManager
pub mod Fiber
pub mod Hook
pub mod Http
pub mod IoManager
pub mod Log
pub mod Scheduler
pub mod Servlet
pub mod Stream
pub mod Timer
pub mod Examples
