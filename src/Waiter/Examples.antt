-- ===== src/Waiter/Examples.antt =====
-- The theorems on the waiters' handshake at concrete schedules.
use xcoro.Base.{◌≤◌, ◌≡◌, ◌⊎◌, false, List, [], ◌∷◌}
use xcoro.Waiter.Handshake.{
  Thread, suspends, wakes, cancels, start, run, parked, is_resuming, is_waking, resumptions,
}
use xcoro.Waiter.Once.{finish, wake_won, run-safe, run-finish}

-- The callback beats the waker before the coroutine has been suspended.
abbrev early_cancel : List Thread
early_cancel = cancels ∷ wakes ∷ cancels ∷ cancels ∷ []

run-finish_example : resumptions (run (run (start 7) early_cancel) finish) ≡ 1
run-finish_example = run-finish 7 early_cancel

-- The waker claims the coroutine, which is suspended before the waker goes on.
abbrev late_wake : List Thread
late_wake = wakes ∷ suspends ∷ cancels ∷ wakes ∷ []

run-safe_example :
    let r = run (start 7) late_wake in
    (resumptions r ≤ 1)
    × ((is_resuming r.waker ≡ false) ⊎ (r.suspender ≡ parked))
    × ((is_waking r.canceller ≡ false) ⊎ (r.suspender ≡ parked))
    × ((r.waiter.cancelled ≡ false) ⊎ (wake_won r.waker ≡ false))
run-safe_example = run-safe 7 late_wake
