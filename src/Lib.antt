-- ===== src/Lib.antt =====
-- A verification library for xcoro, a header-only C++20 coroutine library.
--
-- The library's synchronisation primitives hand suspended coroutines from thread to thread. Each
-- waits in a queue as a shared `waiter_state`, over which the thread in `await_suspend`, a thread
-- that wakes and a cancellation callback race; the thread pool and the cancellation state have
-- critical sections under a `std::mutex` and atomic flags. What can go wrong is in the orders in
-- which these steps come, so a component is modelled twice over: its operations as functions from
-- state to state, and a system of any number of threads as a relation `Step` whose steps are those
-- functions, with the reachable states `Reach`. A critical section or an atomic operation is one
-- step. A coroutine handle is a number, and a call of `resume()` is a handle in the result. Loads
-- and stores are sequentially consistent.
--
-- Base                lists, words, options and decisions that the parts share
-- Waiter              `waiter_state` of include/xcoro/mutex.hpp, semaphore.hpp, condition_variable.hpp
--   Waiter.Handshake  the race of three threads on one waiter, one atomic operation at a time
--   Waiter.Once       its invariant
--   Waiter.Queue      which waiter a waker's loop takes
--   Waiter.Grants     holders of a lock or a permit, and what keeps their grants good
-- Mutex               include/xcoro/mutex.hpp: `mutex` and its awaiter
--   Mutex.Unlock, Mutex.Await    single operations; Mutex.System, Inv, Exclusion    the system
-- Semaphore           include/xcoro/semaphore.hpp: `counting_semaphore` and its awaiter
--   Semaphore.Release single operations, and when the assertion of `release` fails;
--   Semaphore.System, Permits    the system
-- ThreadPool          include/xcoro/thread_pool.hpp: `thread_pool`
--   ThreadPool.Counts, Take      taking and stealing; ThreadPool.System, Inv, Drain    the system
-- Cancellation        include/xcoro/cancellation_state.hpp, _token.hpp, _source.hpp, _registration.hpp
--   Cancellation.System, Inv, Once    the system
-- Buffer              include/xcoro/net/buffer.hpp: `byte_buffer`
--   Buffer.Cyclic     the bytes that a buffer holds; Buffer.Blit, Content    copies and reads
--   Buffer.Growth     moving and growing; Buffer.Free, Write, Prepare    a client's writes
-- Task                include/xcoro/task.hpp: the frames of coroutines and symmetric transfer
--   Task.Await        a task against a direct evaluation; Task.SyncWait  include/xcoro/sync_wait.hpp;
--   Task.Void         the promises of both for void
--   Task.Ownership    the objects that own frames, of task.hpp, when_all.hpp and generator.hpp
-- Generator           include/xcoro/generator.hpp; Generator.Range    a loop over a generator
-- Endpoint            include/xcoro/net/endpoint.hpp; Endpoint.RoundTrip, Brackets    its addresses
-- Resolver            include/xcoro/net/resolver.hpp, include/xcoro/net/detail/blocking_resolver.hpp
--   Resolver.System, Inv, Content, Once    the worker and its clients as a system
-- Timers              include/xcoro/net/detail/timer_queue.hpp, timers of include/xcoro/net/io_context.hpp
--   Timers.Fire       which timers are fired
-- EventLoop           the loop of include/xcoro/net/io_context.hpp in steps, its lifecycle, and the eventfd
--                     of include/xcoro/net/detail/epoll_reactor.hpp; EventLoop.System    its clients;
--   EventLoop.Seen, Wake    what it sees of them; EventLoop.Turn, Resume    a turn; EventLoop.Control, Stop
-- Event               include/xcoro/manual_reset_event.hpp; Event.Balance    who is resumed, with each
--                     turn of the loop of `set` as a step of its own
-- Sockets             include/xcoro/net/detail/fd_ops.hpp, async_connect of include/xcoro/net/socket.hpp,
--                     async_accept of include/xcoro/net/acceptor.hpp; Sockets.Kernel    what they rely on;
--   Sockets.Create, Accept, Connect    what they do; Sockets.Listen    acceptor::listen;
--   Sockets.Lifecycle, Closing   the objects of class socket
-- WhenAll             the latch of include/xcoro/when_all.hpp; WhenAll.Latch    one resumption
--   WhenAll.Gather    its promises and its awaitable; WhenAll.Slots, Results    what they come to;
--   WhenAll.Failure   the tasks with a cancellation source; WhenAll.Void    the tasks for void
-- WhenAny             the completion state of include/xcoro/when_any.hpp; WhenAny.First    the winner
--   WhenAny.Results   the coroutines of when_any; WhenAny.Storage    how a result is kept
-- ConditionVariable   include/xcoro/condition_variable.hpp, over the mutex's lock_and_resume
--   ConditionVariable.Notify     whom a notification wakes
-- Reactor             include/xcoro/net/detail/epoll_reactor.hpp, descriptor_state.hpp, operation_state.hpp
--   Reactor.System, Inv, Waits   the waits of a descriptor as a system; Reactor.Interest  epoll's side;
--   Reactor.Await, Runs, Outcome   the descriptor awaiter of include/xcoro/net/io_context.hpp;
--   Reactor.Setup     the constructor and the destructor
-- Transfer            the loops of include/xcoro/net/socket.hpp and io_context.hpp
--   Transfer.Kernel   what they rely on of the kernel; Transfer.Read, Write   what they do;
--   Transfer.NoSigpipe   include/xcoro/net/detail/no_sigpipe.hpp
-- The Examples modules apply the theorems to concrete inputs.
--
-- The two systems with waiters keep a heap of them, a function from addresses, with the next free
-- address. A token's answers are arguments. Words of 64 bits wrap around (Base.Words); the buffer's
-- growth loop has a fuel of 65 rounds, which is enough for every size up to 2 ^ 62 since each round
-- doubles. The worker's `wait` is its predicate, so spurious and lost signals are not told apart;
-- the victim that the random engine picks is an argument.
--
-- Not modelled: memory orders weaker than sequential consistency, threads other than by the steps
-- that they take, exceptions of `std::make_shared` and of the containers, and what only calls the
-- operating system. What a coroutine does is a parameter, a tree of its suspensions, where its
-- frame is modelled (Task, Generator), and left out elsewhere. The answers of system calls and of the
-- C library are parameters: those of `epoll_ctl` and `getaddrinfo` are arguments, the conversions of
-- addresses, the calls on sockets and the eventfd are records with laws, `epoll_wait` is a function
-- with laws, and read(2) and write(2) are an environment with laws. A loop over that environment has
-- a fuel of rounds, and is shown to end when there are more of them than bytes wanted and calls that
-- fail. A coroutine's steps
-- are counted by its body (Task.Await.steps), and the event loop's by the steps that lead on
-- (EventLoop.Turn).
pub mod Base
pub mod Buffer
pub mod Waiter
pub mod Mutex
pub mod Semaphore
pub mod ThreadPool
pub mod Cancellation
pub mod Reactor
pub mod Transfer
pub mod ConditionVariable
pub mod Event
pub mod EventLoop
pub mod WhenAll
pub mod WhenAny
pub mod Timers
pub mod Task
pub mod Generator
pub mod Endpoint
pub mod Resolver
pub mod Sockets
