-- ===== src/Lib.antt =====
-- tag_sim: the utilities and the network back ends under src/util.
--
-- Parts. Every back end implements one event loop with callbacks (a proactor) for its platform; the
-- build takes one of them. The byte helpers, status codes, log and clock serve all of them.
--
--   Common           shared names, integers, list and bit lemmas (no code of the program)
--   Buf              src/util/buf.h: encode_uintN_le and decode_uintN_le over a list of bytes. Digits
--                    describes what they compute; Refine, RoundTrip and Bijection hold what is proved
--   Status           src/util/status.h, src/util/status.c: status_t, its classes, status_to_str
--   Channel          what the sending sides of Epoll and Kevent/Transfer promise, as the steps of an
--                    abstract channel (no code of the program)
--   Epoll            src/util/proactor_net_epoll.c. State: the static variables, the calls made so
--                    far and the steps; Heap: the blocks in use; Setup: _init, _cleanup,
--                    _start_server, _connect; Api: _send, _wake, _stop and the setters; Events: the
--                    handle_*_event functions and the body of the loop over the events; Loop: _run.
--                    Wire and Simulate relate Channel to the state. Memory, Refine, Stream, Finish,
--                    Heard, Idle, Reply, Stop, Interest, Lifecycle, Life (from _init to _cleanup,
--                    with Descriptors), Misdirected and Greeting hold what is proved, Keep, Same,
--                    Sending, Traced and Trace the rules for it. Functions fills the interface of
--                    Proactor.
--   Machine          steps over a state, how they end, and the rules for what holds at the end
--   Kevent           src/util/proactor_net_kevent.c. State: proactor_t, proactor_socket_t and the
--                    calls made so far; Lifecycle: proactor_net_create, _get_status, _stop, _wake,
--                    _dispose; Ready: process_accept_ready, process_read_ready,
--                    process_write_ready; Loop: proactor_net_run. Dispose, Accept, Create, Ticks,
--                    TickList, TickStart, Receive, Listed, Capacity, Stop, Busy and Life (from _create
--                    to _dispose) hold what is proved of them; Chain is a list of sockets in memory,
--                    Sockets and Keep have the rules.
--                    Transfer has the functions from line 719 to the end, which
--                    use variables and a type that the file does not declare: Transfer/State has
--                    these as their use shows them, Transfer/Handlers the functions, Transfer/Wire
--                    the blocks and bytes, Keep and Submit the rules, Sound and Closed what is
--                    proved of them.
--   Iocp             src/util/proactor_net_iocp.c, in the modules of Epoll: State, Setup, Api, Events and
--                    Loop. Leak, Lost, Stop, Accept, Ready and Life (from _init to _cleanup) hold what
--                    is proved of them, Keep the rules for it. Functions fills the interface of
--                    Proactor.
--   Proactor         the functions that Epoll and Iocp have in common, as a record with laws, and the
--                    programs made of them; Restart has what holds of both back ends
--   Log              src/util/debug.c and src/util/debug.h: debug_set_level, debug_get_level, the filter
--                    and prefix of debug_impl, and the rows of debug_dump_ptr over a list of bytes.
--                    Log/Text has their characters and a reader of them, Log/Message the lines of
--                    debug_impl with the macros warn and assert_error, Log/Memory debug_dump_ptr over
--                    memory, which calls ptr_before of Helpers; Dump, Read, Buffer and Warning hold what
--                    is proved of them.
--   Clock            src/util/time_utils.c: util_sleep_ms and util_time_ms on POSIX and on Windows;
--                    Clock/Sleep compares the two sleeps
--   Helpers          src/util/time_utils.h: ptr_before and is_hex
--   Shims            src/util/shims.h: the atomic operations on Windows and elsewhere, over those of the
--                    compiler; Shims/Threads: the macros for threads and mutexes, over calls
--   Platform         src/util/platform_check.h, over the macros that are defined where it is read
--   Tests            runs at concrete inputs
--
-- How the code is read. A function of C is a function of the same name in lower case. Static and
-- shared variables are a record that a step takes and returns. A machine word is a native number,
-- with its wrap-around written out; a signed result of a call is an integer. What the program calls
-- and does not contain (the operating system, the allocator, the callbacks of the application and the
-- other threads) is a record of functions of all calls made so far, so that a theorem covers each
-- behaviour of it; where a theorem needs more, it names what it needs as a hypothesis. A step ends by
-- returning, by the exit of the process, by the use of a pointer that is null or points nowhere,
-- behind its object or, in cleanup, at a block that was freed, or not yet.
--
-- What the application does. Callbacks, and other threads while a loop waits, may send, wake, stop
-- and set callbacks (in Kevent they may stop and wake; in Transfer send and set callbacks). They do
-- not call the functions that set up, run or clean up, and they leave the sockets and buffers that
-- they are handed as they are, though process_read_ready hands out a pointer to the buffer of the
-- socket. The application's own thread may call everything, in any order (Proactor). A wait of the
-- IOCP loop may last for ever.
--
-- Memory. A free in the event loop is a logged call, and Memory and Sound are about it; cleanup,
-- which may be called again, frees by free_live of Heap, which is a fault on a block that is not in
-- use.
--
-- Fuel. The event loops, which need not end, run on fuel, one unit for each round; so do the walks
-- over a list of sockets, one unit for each socket. A run whose fuel is used up is told apart from
-- one that has ended. The theorems on the event loops hold for every amount of fuel, those that say
-- that a loop ends for two units and more, that on a wait that never ends for one and more, and those
-- on a walk that must end for more fuel than there are sockets.
--
-- Not modelled: the build files; the functions that src/util/proactor_net.h declares and no file defines,
-- and the types of the callbacks; the structs eip_header and buf_t of src/util/buf.h, which no compiled
-- function uses; ATOMIC_INIT; the contents of OVERLAPPED; and the code that is commented out. What
-- vfprintf writes for a template of the caller is a parameter, and so are BUFFER_SIZE, handle_error and
-- socket_to_handle in src/util/proactor_net_kevent.c, which no file that it includes declares.
pub mod Common
pub mod Buf
pub mod Status
pub mod Machine
pub mod Channel
pub mod Epoll
pub mod Kevent
pub mod Iocp
pub mod Clock
pub mod Helpers
pub mod Shims
pub mod Log
pub mod Platform
pub mod Proactor
pub mod Restart
mod Tests
