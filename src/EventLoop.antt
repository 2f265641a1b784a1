-- ===== src/EventLoop.antt =====
-- include/xcoro/net/io_context.hpp: the event loop and its lifecycle, with the eventfd of
-- include/xcoro/net/detail/epoll_reactor.hpp that wakes it.
-- The loop is taken in steps, at each of which other threads may come in between; each step is one
-- critical section, one atomic operation or one system call. The queue of timers and the ready queue
-- are those of Timers. The eventfd, the clock and `epoll_wait` are parameters. Handles are not null.
pub mod System
mod Seen
pub mod Wake
pub mod Turn
pub mod Resume
mod Control
pub mod Stop
mod Examples
use xcoro.Base.{
  ℕ, zero, suc, ◌≡◌, ◌≢◌, Bool, true, false, Option, none, some, List, [], ◌∷◌, ◌++◌, if◌then◌else◌,
}
use xcoro.Timers.{TimerItem, IoContext, timeout_ms, enqueue_ready, drain_ready, resume_due_timers}
use xcoro.Reactor.{Events, Ctl, Descriptor, dispatch_descriptor_event}

-- An eventfd that does not block: `write` adds one, or fails without room; `read` takes what is there.
pub record EventFd (K : Type 0) : Type 0 where
  pub readable : K → Bool
  pub write : K → K
  pub read : K → Option K

-- eventfd(2)
pub record Counts {K : Type 0} (fd : EventFd K) : Type 0 where
  pub write_readable : (k : K) → fd.readable (fd.write k) ≡ true
  pub read_empties : (k k' : K) → fd.read k ≡ some k' → fd.readable k' ≡ false
  pub read_fails : (k : K) → fd.readable k ≡ false → fd.read k ≡ none

-- What `epoll_wait` tells: the tag of the eventfd, no state, or a descriptor's events, with its state
-- and the answers of `epoll_ctl` when the event is dispatched.
pub data Event : Type 0 where
  wake_tag no_state : Event
  descriptor_event : Ctl → Descriptor → Events → Event

-- A call that blocks, is interrupted, fails with `errno`, or has events.
pub data PollAnswer : Type 0 where
  blocked interrupted : PollAnswer
  failed : ℕ → PollAnswer
  events : List Event → PollAnswer

-- Where the loop stands. `last` is true behind the loop's end.
pub data Position : Type 0 where
  -- There is no loop.
  absent : Position
  -- Before the test of `stopped_`, and before the call of `timeout_ms`.
  checks reads_timeout : Position
  -- In `epoll_wait`, with the queue of which the timeout is, and the timeout.
  polls : List TimerItem → ℕ → Position
  -- Before the next event, and in `drain_wake_fd`, with the events that follow.
  handles : List Event → Position
  drains_wake_fd : List Event → Position
  resumes_due drains_ready : (last : Bool) → Position
  -- With the handles that were swapped out of the queue.
  resumes : List ℕ → (last : Bool) → Position
  exited : Position
  -- `system_error` went out of the loop.
  thrown : ℕ → Position

-- Where the thread in `stop` stands: in none, before its `wake`, or in `join`.
pub data Stopper : Type 0 where
  not_stopping before_wake in_join : Stopper

pub record World (K : Type 0) : Type 0 where
  pub io : IoContext
  pub stopped : Bool
  -- `loop_thread_.joinable()`
  pub joinable : Bool
  pub wake_fd : K
  pub position : Position
  pub stopper : Stopper
  -- How many calls have enqueued handles or pushed a timer, and have yet to call `wake`.
  pub to_wake : ℕ
  -- The coroutines that the loop resumed, in their order.
  pub resumed : List ℕ

-- The clock and `epoll_wait`, with its timeout.
pub record Surroundings (K : Type 0) : Type 0 where
  pub now : World K → ℕ
  pub poll : World K → ℕ → PollAnswer

-- The loops over `ready` behind the critical sections of the reactor.
unfoldable pub enqueue_all : IoContext → List ℕ → IoContext
unfolding enqueue_ready
enqueue_all c [] = c
enqueue_all c (h ∷ hs) = enqueue_all (enqueue_ready c h) hs

module _ {K : Type 0} where
  unfoldable pub poll_once : World K → PollAnswer → Option (World K)
  poll_once w blocked = none
  poll_once w interrupted = some (record w { position = resumes_due false })
  poll_once w (failed e) = some (record w { position = thrown e })
  poll_once w (events es) = some (record w { position = handles es })

  -- The body of the loop over the events.
  unfoldable pub handle_event : World K → Event → List Event → World K
  unfolding enqueue_all dispatch_descriptor_event
  handle_event w wake_tag es = record w { position = drains_wake_fd es }
  handle_event w no_state es = record w { position = handles es }
  handle_event w (descriptor_event ctl d e) es = record w {
    io = enqueue_all w.io (dispatch_descriptor_event ctl d e).1;
    position = handles es;
  }

  unfoldable pub run : World K → World K
  run w = if w.joinable then w else record w { stopped = false; joinable = true; position = checks }

  -- Up to the call of `event_loop`.
  unfoldable pub run_in_current_thread : World K → World K
  run_in_current_thread w =
      if w.joinable then w else record w { stopped = false; position = checks }

  -- `stop` up to its `wake`, and behind its `join`.
  unfoldable pub stop : World K → World K
  stop w = if w.stopped then w else record w { stopped = true; stopper = before_wake }

  unfoldable pub join : World K → World K
  join w = record w { joinable = false; position = absent; stopper = not_stopping }

module _ {K : Type 0} (fd : EventFd K) where
  -- `wake`
  unfoldable pub wake : World K → World K
  wake w = record w { wake_fd = fd.write w.wake_fd }

  -- `stop` from there to its `join`.
  unfoldable pub stop_wake : World K → World K
  unfolding wake
  stop_wake w = record (wake w) { stopper = if w.joinable then in_join else not_stopping }

  -- One `read` of `drain_wake_fd`.
  unfoldable pub drain_wake_fd : World K → List Event → World K
  drain_wake_fd w es = elim (fd.read w.wake_fd) [
    | none ↦ record w { position = handles es }
    | some k ↦ record w { wake_fd = k }
  ]

  -- One step of `event_loop`; `none` if the loop blocks, or there is none.
  unfoldable pub step_at : Surroundings K → World K → Position → Option (World K)
  unfolding poll_once handle_event drain_wake_fd
  step_at env w absent = none
  step_at env w checks =
      some (record w { position = if w.stopped then resumes_due true else reads_timeout })
  step_at env w reads_timeout =
      some (record w { position = polls w.io.heap (timeout_ms w.io.heap (env.now w)) })
  step_at env w (polls heap timeout) = poll_once w (env.poll w timeout)
  step_at env w (handles []) = some (record w { position = resumes_due false })
  step_at env w (handles (e ∷ es)) = some (handle_event w e es)
  step_at env w (drains_wake_fd es) = some (drain_wake_fd w es)
  step_at env w (resumes_due last) =
      some (record w { io = resume_due_timers w.io (env.now w); position = drains_ready last })
  step_at env w (drains_ready last) =
      let (io, hs) = drain_ready w.io in some (record w { io = io; position = resumes hs last })
  step_at env w (resumes (h ∷ hs) last) =
      some (record w { resumed = w.resumed ++ h ∷ []; position = resumes hs last })
  step_at env w (resumes [] last) = some (record w { position = if last then exited else checks })
  step_at env w exited = none
  step_at env w (thrown e) = none

  unfoldable pub loop_step : Surroundings K → World K → Option (World K)
  unfolding step_at
  loop_step env w = step_at env w w.position
