-- ===== src/Lib.antt =====
-- A verification library for libtx, an event loop in C++ with timers, descriptors and a log.
--
-- The program. A loop (tx_loop.cpp) keeps a queue of tasks and calls them in turn. Polls
-- (tx_poll.cpp) are tasks that stay in the queue: the timer ring (tx_timer.cpp) activates the
-- tasks whose time has come, and a poller (tx_epoll.cpp on Linux, tx_kqueue.cpp on FreeBSD,
-- tx_completion_port.cpp on Windows) those whose descriptors are ready. A task waits for a
-- descriptor by the calls of tx_aiocb.cpp, which go through the table of the poller. A poll asks
-- the loop (`tx_loop_timeout`) whether it may sleep.
--
-- Common holds helpers. The C functions keep their names, take the state last, and return the new
-- one; an assertion that may fail, and so end the program, makes the result an Option. Tasks,
-- timers, descriptors and pollers are numbers, their addresses, and a list of the program is a
-- sequence; include/libtx/queue.h, where the list macros come from, is taken as it is documented.
--
-- Loop models tx_loop.cpp and tx_poll.cpp. Loop/Main is `tx_loop_main`; its rounds are counted by
-- fuel, and Loop/Whole says how much is enough. Stack models the task stacks of tx_loop.cpp
-- (`tx_task_stack_push` and the functions beside it).
--
-- Timer models tx_timer.cpp: `TimerRing` is the ring with the timers' memory, the clock and the
-- loop. `unsigned` is 32 bits wide and `size_t` 64; what wraps is written out. The `while` loops
-- of `tx_timer_polling` run on the fuel `fuel_for`, which Timer/Polling shows to be enough as
-- long as the clock is at most 2^31 - 15 ms.
--
-- Aiocb models tx_aiocb.cpp: `Net` is the loop with the memory of the descriptors and the state
-- of the poller. Epoll models tx_epoll.cpp, with `epoll_ctl` and `epoll_wait` as parameters that
-- act on a state of the kernel; Epoll/Steps puts the calls of tx_aiocb.cpp and the polls together
-- as steps. Kqueue models tx_kqueue.cpp in the same way, with `kevent` as a parameter. Port
-- models tx_completion_port.cpp: `Port` has the memory of the overlapped objects, and what the
-- system has accepted and not yet reported; Port/Calls is the table of operations and Port/Steps
-- puts them and the polls together as steps. What the system writes into `tx_cache` for an
-- AcceptEx that is in flight is a step of its own there. Providers models `tx_epoll_init`,
-- `tx_kqueue_init`, `tx_completion_port_init` and `tx_timer_ring_get`, which look for a poll of
-- theirs in the queue of the loop before they create one.
--
-- Inet models `inet_pton4` and Target `get_target_address`, both of tx_platform.cpp; `htons`,
-- `atoi`, `inet_addr`, `gethostbyname` and `inet_pton` are parameters there. Log models
-- tx_debug.cpp, with the formatting of messages as arguments. Netcat models the command line of
-- ncatutil.cpp, Netcat/Options its `get_cat_options` and Netcat/Socket its `get_cat_socket`.
-- Pipling models `tx_pipling_t::pipling` of netcat.cpp, Pipling/Both `update_netcat`,
-- Pipling/Thread the thread `pipling`, and Pipling/Windows writes by the completion port. The
-- loops of both run on fuel, and Pipling/Ending and Pipling/ThreadEnds say how much is enough.
-- Worker models netcat-win32.cpp. Url models `get_url_socket` of txget.cpp up to the socket, and
-- Stdio the tasks `update_stdio` of txcat.cpp and txget.cpp.
--
-- Not modelled: the memory behind the pointers, more than one loop, a main loop that is started
-- from inside a task, the system calls that tx_aiocb.cpp and tx_platform.cpp only wrap, the tasks
-- of txcat.cpp and txget.cpp that only count and log, and each `main`.
pub mod Aiocb
pub mod Common
pub mod Epoll
pub mod Inet
pub mod Kqueue
pub mod Log
pub mod Loop
pub mod Netcat
pub mod Pipling
pub mod Port
pub mod Providers
pub mod Stack
pub mod Stdio
pub mod Target
pub mod Timer
pub mod Url
pub mod Worker
