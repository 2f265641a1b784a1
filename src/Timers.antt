-- ===== src/Timers.antt =====
-- include/xcoro/net/detail/timer_queue.hpp, and the timers and the ready queue of
-- include/xcoro/net/io_context.hpp.
-- A time is a number of nanoseconds. The priority queue is a list with the earliest deadline first. A
-- `timer_state` is an address, and the states are kept with the queue. `wake` is left out.
pub mod Fire
mod Examples
use xcoro.Base.{
  ℕ, ◌+◌, ◌-◌, ◌/◌, ◌%◌, ◌^◌, Bool, true, false, not, ◌&&◌, List, [], ◌∷◌, ◌++◌, leb, if◌then◌else◌,
  update,
}

pub record TimerState : Type 0 where
  pub handle : ℕ
  pub completed : Bool
  pub cancelled : Bool

pub record TimerItem : Type 0 where
  pub deadline : ℕ
  pub state : ℕ

pub record IoContext : Type 0 where
  pub heap : List TimerItem
  pub timers : ℕ → TimerState
  pub ready : List ℕ

unfoldable pub heap_push : List TimerItem → TimerItem → List TimerItem
heap_push [] item = item ∷ []
heap_push (x ∷ xs) item =
    if leb x.deadline item.deadline then x ∷ heap_push xs item else item ∷ x ∷ xs

unfoldable pub push : IoContext → ℕ → ℕ → IoContext
unfolding heap_push
push c deadline state = record c {
  heap = heap_push c.heap (record { deadline = deadline; state = state });
}

-- The timeout as the 32 bits of an `int`: all ones for -1.
unfoldable pub timeout_ms : List TimerItem → ℕ → ℕ
timeout_ms [] now = 2 ^ 32 - 1
timeout_ms (item ∷ items) now =
    if leb item.deadline now then 0 else ((item.deadline - now) / 1000000) % 2 ^ 32

-- The timers that are due, in the order of their deadlines, and the others.
unfoldable pub collect_due : List TimerItem → ℕ → List ℕ × List TimerItem
collect_due [] now = ([], [])
collect_due (item ∷ items) now =
    let (due, rest) = collect_due items now in
    if leb item.deadline now then (item.state ∷ due, rest) else ([], item ∷ items)

unfoldable pub enqueue_ready : IoContext → ℕ → IoContext
enqueue_ready c handle = record c { ready = c.ready ++ handle ∷ [] }

-- The queue is taken as a whole; the handles are resumed in this order.
unfoldable pub drain_ready : IoContext → IoContext × List ℕ
drain_ready c = (record c { ready = [] }, c.ready)

-- `completed.exchange(true)`, and the handle into the ready queue if it was false.
unfoldable pub complete_timer : IoContext → ℕ → Bool → IoContext
unfolding enqueue_ready
complete_timer c p cancelled =
    let t = c.timers p in
    let marked : IoContext = record c {
      timers = update c.timers p (record t { completed = true; cancelled = cancelled });
    } in
    if t.completed then c else enqueue_ready marked t.handle

unfoldable pub complete_timers : IoContext → List ℕ → IoContext
unfolding complete_timer
complete_timers c [] = c
complete_timers c (p ∷ ps) = complete_timers (complete_timer c p (c.timers p).cancelled) ps

unfoldable pub resume_due_timers : IoContext → ℕ → IoContext
unfolding collect_due complete_timers
resume_due_timers c now =
    let (due, rest) = collect_due c.heap now in complete_timers (record c { heap = rest }) due

-- `timer_awaiter::await_suspend` with a state at the new address `p`; true if it suspends. If
-- cancellation is requested before the callback is registered (`late`), it is called at once.
unfoldable pub await_suspend : IoContext → ℕ → ℕ → ℕ → Bool → Bool → Bool → IoContext × Bool
unfolding push complete_timer
await_suspend c p handle deadline can_be_cancelled requested late =
    let made : IoContext = record c {
      timers = update c.timers p (record { handle = handle; completed = false; cancelled = false });
    } in
    let refused : IoContext = record c {
      timers = update c.timers p (record { handle = handle; completed = true; cancelled = true });
    } in
    let called = if can_be_cancelled && late then complete_timer made p true else made in
    if can_be_cancelled && requested then (refused, false) else (push called deadline p, true)

-- `~timer_awaiter`, of an awaiter that was suspended on the state at `p`.
unfoldable pub abandon : IoContext → ℕ → IoContext
abandon c p = record c { timers = update c.timers p (record (c.timers p) { completed = true }) }

-- True if it throws `operation_cancelled`.
unfoldable pub await_resume : IoContext → ℕ → Bool
await_resume c p = (c.timers p).cancelled
