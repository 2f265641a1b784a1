-- ===== src/Waiter/Once.antt =====
-- The coroutine goes on exactly once, and never while it is still in `await_suspend`.
use xcoro.Base.{
  ℕ, ◌≤◌, ◌≡◌, refl, ◌⊎◌, Bool, true, false, ◌||◌, ◌&&◌, List, [], ◌∷◌, arith, if◌then◌else◌,
}
use xcoro.Waiter.{Phase, waiting_await_suspend, suspended, wake_requested}
use xcoro.Waiter.Handshake.{
  SuspendPc, suspending, parked, continued, WakePc, idle, beaten, left, CancelPc, quiet, late,
  marked, waking, passed, Race, Thread, suspends, wakes, cancels, start, turn, run, is_resuming,
  is_waking, resumptions,
}

abbrev pub wake_won : WakePc → Bool
wake_won idle = false
wake_won beaten = false
wake_won _ = true

abbrev cancel_won : CancelPc → Bool
cancel_won quiet = false
cancel_won late = false
cancel_won _ = true

abbrev has_left : WakePc → CancelPc → Bool
has_left left c = true
has_left _ passed = true
has_left _ _ = false

abbrev cancel_marked : CancelPc → Bool
cancel_marked marked = true
cancel_marked waking = true
cancel_marked passed = true
cancel_marked _ = false

-- What the phase says of the threads.
abbrev PhaseFits : SuspendPc → WakePc → CancelPc → Phase → Type 0
PhaseFits suspending w c p =
    (p ≡ (if has_left w c then wake_requested else waiting_await_suspend))
    × (is_resuming w ≡ false)
    × (is_waking c ≡ false)
PhaseFits parked w c p = (p ≡ suspended) × (has_left w c ≡ false)
PhaseFits continued w c p =
    (p ≡ wake_requested) × (has_left w c ≡ true) × (is_resuming w ≡ false) × (is_waking c ≡ false)

-- A thread that lost the exchange lost it to the other one.
abbrev LoserFits : WakePc → CancelPc → Type 0
LoserFits beaten c = cancel_won c ≡ true
LoserFits w late = wake_won w ≡ true
LoserFits _ _ = Unit

pub record Inv (r : Race) : Type 0 where
  pub claimed_once : (wake_won r.waker && cancel_won r.canceller) ≡ false
  pub loser : LoserFits r.waker r.canceller
  pub resumed_iff : r.waiter.resumed ≡ (wake_won r.waker || cancel_won r.canceller)
  pub cancelled_iff : r.waiter.cancelled ≡ cancel_marked r.canceller
  pub fits : PhaseFits r.suspender r.waker r.canceller r.waiter.suspend_phase

start-Inv : (handle : ℕ) → Inv (start handle)
start-Inv handle = record {
  claimed_once = refl;
  loser = tt;
  resumed_iff = refl;
  cancelled_iff = refl;
  fits = (refl, refl, refl);
}

turn-Inv : (r : Race) (t : Thread) → Inv r → Inv (turn r t)
unfolding turn
turn-Inv r suspends v = ground arith
turn-Inv r wakes v = ground arith
turn-Inv r cancels v = ground arith

run-Inv : (r : Race) (ts : List Thread) → Inv r → Inv (run r ts)
unfolding run
run-Inv r [] v = v
run-Inv r (t ∷ ts) v = run-Inv (turn r t) ts (turn-Inv r t v)

safe :
    (r : Race)
    → Inv r
    → (resumptions r ≤ 1)
      × ((is_resuming r.waker ≡ false) ⊎ (r.suspender ≡ parked))
      × ((is_waking r.canceller ≡ false) ⊎ (r.suspender ≡ parked))
      × ((r.waiter.cancelled ≡ false) ⊎ (wake_won r.waker ≡ false))
safe r v = ground arith

-- In whatever order the three threads take their turns, the coroutine goes on at most once; it is
-- resumed by the waker or by the callback only after `await_suspend` has marked it as suspended; and
-- `cancelled` is set only where the waker has not claimed the coroutine.
pub run-safe :
    (handle : ℕ) (ts : List Thread)
    → let r = run (start handle) ts in
      (resumptions r ≤ 1)
      × ((is_resuming r.waker ≡ false) ⊎ (r.suspender ≡ parked))
      × ((is_waking r.canceller ≡ false) ⊎ (r.suspender ≡ parked))
      × ((r.waiter.cancelled ≡ false) ⊎ (wake_won r.waker ≡ false))
run-safe handle ts = safe (run (start handle) ts) (run-Inv (start handle) ts (start-Inv handle))

-- The rest of each thread's program.
abbrev pub finish : List Thread
finish = suspends ∷ wakes ∷ wakes ∷ cancels ∷ cancels ∷ cancels ∷ []

finish-once : (r : Race) → Inv r → resumptions (run r finish) ≡ 1
unfolding run turn
finish-once r v = ground arith

-- No wake-up is lost: however the threads have been interleaved so far, once each has run to its end
-- the coroutine has gone on exactly once.
pub run-finish :
    (handle : ℕ) (ts : List Thread) → resumptions (run (run (start handle) ts) finish) ≡ 1
run-finish handle ts =
    finish-once (run (start handle) ts) (run-Inv (start handle) ts (start-Inv handle))
