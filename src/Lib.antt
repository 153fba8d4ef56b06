-- ===== src/Lib.antt =====
-- pqnet, a network library for Linux after the Reactor pattern, written in C++11. An event loop waits
-- on epoll for its triggers, runs the timers that have ended, then the handlers of the triggers, then
-- the functors that other threads pushed. A server's loop (the leader) accepts connections and hands
-- each to one of a pool of loops (the followers); a connection keeps a buffer for each direction and a
-- trigger, and calls the user back. Beside this stand a thread pool, a logger and its asynchronous
-- form, times and random numbers, and a small HTTP layer.
--
-- What models what (paths from the repository's root):
-- - Common: the shared lemmas on lists, Boolean tests and machine words. Words has the arithmetic of
--   `size_t`/`uint64_t` and of `uint`, modulo 2^64 and 2^32.
-- - Kernel: read(2), write(2), epoll_ctl(2), close(2) and shutdown(2), a parameter. Its answer is a
--   function of the history of calls, which is kept, so that all a descriptor received or sent is a
--   list of bytes. It is assumed that read(2) gives at most the count asked for, and that write(2)
--   takes at most what it is offered. Log lines are events without their text.
-- - Endian: pqnet/core/endian.cpp, pqnet/core/endian.h. The byte order of the machine is an argument;
--   an integer lies in memory as its bytes.
-- - Buffer: pqnet/core/buffer.cpp, pqnet/core/buffer.h. `Defs` has the vector, its two indices and the
--   copies, `Net` has writeTo and readFrom. A copy past the end of the vector is `none`. The recursion
--   of readFrom takes fuel: every inner call doubles a capacity that is below 8192, so 8193 rounds are
--   enough, and `none` from there would mean that they are not.
-- - Trigger: pqnet/core/trigger.cpp, pqnet/core/trigger.h. The event masks are records of the bits the
--   code uses; EPOLLET is always set.
-- - Connection: pqnet/core/connection.cpp, pqnet/core/connection.h. A callback is a handle, and what
--   the user's code does is a parameter that maps the connection and the history to new ones; where a
--   theorem needs it, the callbacks are assumed to use the connection only in ways that keep it sound
--   (`IsPolite`), or not to change its status nor to make a close call (`IsReserved`).
--   `Steps` has the operations as steps, and runs of them in any order.
-- - Timers: pqnet/core/timer.h, pqnet/core/timerqueue.cpp, pqnet/core/timerqueue.h. The std::set is a
--   list in its order. The clock's reading and the address of the local variable from which addTimer
--   takes a timer's id are arguments. `handle` takes fuel for its loop; one round more than the number
--   of ended timers is enough where the callbacks touch no timer. An iterator that is used after its
--   element was erased ends in `dangling`. `Fd` is raw-examples/linux/timerqueue/timerqueue.cpp, the same
--   queue with a timer of the kernel, of which the settings are kept; `Arming` and `Overdue` are about it.
-- - Functors: pushFunctor, wake and runFunctors of pqnet/core/eventloop.cpp, where wake counts the writes
--   to the event descriptor.
-- - Scheduling: runAt, runAfter, runEvery and cancel of pqnet/core/eventloop.cpp over that queue, each
--   reading of the clock an argument.
-- - LoopPool: the round robin of pqnet/core/eventloopthreadpool.cpp.
-- - Server: pqnet/core/server.cpp, pqnet/core/server.h. The connections stand on a heap, and a shared
--   pointer is an index of it; connpool is a list of pairs in the order of the descriptors. What is
--   pushed to a loop is put in one list, with the loop it is for. `Table` has the laws of the map,
--   `Accepting` and `Removing` those of the server's operations.
-- - Sockets: pqnet/core/socket.cpp and pqnet/core/ipaddr.cpp. The calls of the kernel are a parameter,
--   over a state of any type; that a flag or an option is read as it was set, and that setting it leaves
--   the others, is assumed as fcntl(2), socket(7) and tcp(7) document it, and that bind(2) and listen(2)
--   leave a socket bound and listening where they give 0 (`Passive`). An `int` is its bit pattern.
--   `Setup` has what TcpServer::init and TcpClient::init do to their socket; `Server.Setup` is the former.
-- - Client: pqnet/core/client.cpp, pqnet/core/client.h, over Connection and Sockets.
-- - Logging: `Logger` is pqnet/util/logger.cpp and pqnet/util/logger.h, `AsyncLog`
--   pqnet/util/asynclog.cpp and pqnet/util/asynclog.h. Whether fopen(3) and fclose(3) succeed, and the
--   day that the clock shows, are a parameter, functions of the trail of calls. A close of a stream that
--   is not open, and a print to one, are faults of their own. The logger's errors are logged by itself: `log` takes fuel, one call being
--   enough where fclose(3) succeeds. The callers of AsyncLog, its thread and its destructor are steps
--   in any order; the thread falls asleep in a step of its own, since the destructor takes no mutex, and a
--   wake-up without a notification is a step that notifies.
-- - ThreadPool: pqnet/util/threadpool.cpp, pqnet/util/threadpool.h, as steps of callers and workers in
--   any order; what runs under the mutex is one step, and so is the test of `addable` before it.
-- - TimeStamp: the numbers of pqnet/util/timestamp.h and pqnet/util/timestamp.cpp.
-- - Random: pqnet/util/random.cpp; the engine's draw is an argument.
-- - Http: pqnet/core/http/request.cpp, pqnet/core/http/response.cpp, pqnet/core/http/router.cpp and their
--   headers. A string is the list of its bytes, the map of headers a list of pairs in the order of the
--   keys, a map of handlers the function that finds a key's handler. A position that std::string
--   refuses (std::out_of_range) is `none`.
-- - RingBuffer: raw-examples/cpp11/ringbuffer/ringbuffer.h, with std::strncpy and std::memcpy as the C
--   library documents them. A copy of getIntN outside its result is `none`.
-- - LockFree.Spsc: raw-examples/cpp11/lockFreeQueue/spsc/lockFreeQueue.h, one access to the shared
--   memory a step, for one producer and one consumer in any order.
-- - Locks.RwLock: raw-examples/cpp11/rwlock/rwlock.h, over any number of threads; what runs under the
--   mutex is one step.
-- - DoubleBuffered: raw-examples/cpp11/doublebufferedqueue/doublebufferedqueue.h, where other threads push
--   between the steps of a pop.
-- - Wheels.Levels: raw-examples/cpp11/timingwheel/2/timermanager.cpp, timermanager.h and list.h beside it. A list
--   is the list of its elements, a node stands at an address, and std::hash is a parameter. `handle`
--   takes as many turns as the clock is ahead, so it needs no fuel; a node that comes back to the slot
--   that is walked, before its last, is `none`.
--
-- Not modelled: the turn of an event loop (epoll_wait(2) and the order of timers, triggers and
-- functors in it); the text of dates and of log lines; the one-level timing wheel, the multi-producer
-- queue, the semaphore and the latch under raw-examples/; the programs under examples/;
-- the tests. The bindings to other languages and the Windows and Linux programs under raw-examples/ call
-- foreign libraries.
pub mod Common
pub mod Endian
pub mod Kernel
pub mod Buffer
pub mod Trigger
pub mod Connection
pub mod TimeStamp
pub mod Timers
pub mod ThreadPool
pub mod LoopPool
pub mod Random
pub mod Http
pub mod Functors
pub mod RingBuffer
pub mod LockFree
pub mod Locks
pub mod Server
pub mod Logging
pub mod Scheduling
pub mod DoubleBuffered
pub mod Wheels
pub mod Sockets
pub mod Client
