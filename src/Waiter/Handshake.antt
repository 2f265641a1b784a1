-- ===== src/Waiter/Handshake.antt =====
-- One waiter, one waker and one cancellation at the grain of the atomic operations.
-- The three threads are the end of `await_suspend` (`try_mark_suspended`), a waker (the body of the
-- loop in `unlock`, `release` or `notify_one`), and the cancellation callback. A turn of a thread is
-- one atomic operation on the waiter's record; a thread that is done does nothing.
use xcoro.Base.{ℕ, ◌+◌, Bool, true, false, List, [], ◌∷◌, if◌then◌else◌}
use xcoro.Waiter.{WaiterState, new_waiter, try_mark_resumed, try_mark_suspended, should_resume_now}

-- The thread in `await_suspend`: before its compare-exchange, or returned true or false.
pub data SuspendPc : Type 0 where
  suspending parked continued : SuspendPc

-- A waker: before the exchange, beaten, before the compare-exchange, and its two results.
pub data WakePc : Type 0 where
  idle beaten claimed resuming left : WakePc

-- The callback: as the waker, with the store to `cancelled` in between.
pub data CancelPc : Type 0 where
  quiet late won marked waking passed : CancelPc

pub record Race : Type 0 where
  pub waiter : WaiterState
  pub suspender : SuspendPc
  pub waker : WakePc
  pub canceller : CancelPc

pub data Thread : Type 0 where
  suspends wakes cancels : Thread

abbrev pub start : ℕ → Race
start handle = record {
  waiter = new_waiter handle;
  suspender = suspending;
  waker = idle;
  canceller = quiet;
}

-- `return state->try_mark_suspended();`
suspend_turn : SuspendPc → Race → Race
unfolding try_mark_suspended
suspend_turn suspending r =
    let (w, ok) = try_mark_suspended r.waiter in
    record r { waiter = w; suspender = if ok then parked else continued }
suspend_turn parked r = r
suspend_turn continued r = r

-- `try_mark_resumed`, then `should_resume_now`, which says whether to call `handle.resume()`.
wake_turn : WakePc → Race → Race
unfolding try_mark_resumed should_resume_now
wake_turn idle r =
    let (w, ok) = try_mark_resumed r.waiter in
    record r { waiter = w; waker = if ok then claimed else beaten }
wake_turn claimed r =
    let (w, now) = should_resume_now r.waiter in
    record r { waiter = w; waker = if now then resuming else left }
wake_turn beaten r = r
wake_turn resuming r = r
wake_turn left r = r

cancel_turn : CancelPc → Race → Race
unfolding try_mark_resumed should_resume_now
cancel_turn quiet r =
    let (w, ok) = try_mark_resumed r.waiter in
    record r { waiter = w; canceller = if ok then won else late }
cancel_turn won r = record r { waiter = record (r.waiter) { cancelled = true }; canceller = marked }
cancel_turn marked r =
    let (w, now) = should_resume_now r.waiter in
    record r { waiter = w; canceller = if now then waking else passed }
cancel_turn late r = r
cancel_turn waking r = r
cancel_turn passed r = r

unfoldable pub turn : Race → Thread → Race
unfolding suspend_turn wake_turn cancel_turn
turn r suspends = suspend_turn r.suspender r
turn r wakes = wake_turn r.waker r
turn r cancels = cancel_turn r.canceller r

-- The threads take turns in any order.
unfoldable pub run : Race → List Thread → Race
unfolding turn
run r [] = r
run r (t ∷ ts) = run (turn r t) ts

abbrev count_if : Bool → ℕ
count_if true = 1
count_if false = 0

abbrev pub is_continued : SuspendPc → Bool
is_continued continued = true
is_continued _ = false

abbrev pub is_resuming : WakePc → Bool
is_resuming resuming = true
is_resuming _ = false

abbrev pub is_waking : CancelPc → Bool
is_waking waking = true
is_waking _ = false

-- How often the coroutine goes on: in place, since `await_suspend` returned false, or by a call of
-- `handle.resume()` from the waker or from the callback.
abbrev pub resumptions : Race → ℕ
resumptions r =
    count_if (is_continued r.suspender)
    + count_if (is_resuming r.waker)
    + count_if (is_waking r.canceller)
