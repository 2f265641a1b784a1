-- ===== src/Waiter.antt =====
-- `waiter_state`, the record by which a suspended coroutine and the threads that may wake it agree.
-- include/xcoro/mutex.hpp, include/xcoro/semaphore.hpp and include/xcoro/condition_variable.hpp each
-- declare it with the same members; it is modelled once. A coroutine handle is a number. An atomic
-- exchange or compare-exchange is one step that returns the new record and its result.
pub mod Handshake
pub mod Once
pub mod Queue
pub mod Grants
mod Examples
use xcoro.Base.{ℕ, Bool, true, false, not, Option, none, some, List, [], ◌∷◌, if◌then◌else◌}

-- `suspend_state`
pub data Phase : Type 0 where
  waiting_await_suspend suspended wake_requested : Phase

pub record WaiterState : Type 0 where
  pub handle : ℕ
  pub resumed : Bool
  pub cancelled : Bool
  pub suspend_phase : Phase

-- `std::make_shared<waiter_state>()` with its handle set.
abbrev pub new_waiter : ℕ → WaiterState
new_waiter handle = record {
  handle = handle;
  resumed = false;
  cancelled = false;
  suspend_phase = waiting_await_suspend;
}

unfoldable pub try_mark_resumed : WaiterState → WaiterState × Bool
try_mark_resumed w = (record w { resumed = true }, not w.resumed)

mark_suspended : Phase → WaiterState → WaiterState × Bool
mark_suspended waiting_await_suspend w = (record w { suspend_phase = suspended }, true)
mark_suspended suspended w = (w, false)
mark_suspended wake_requested w = (w, false)

unfoldable pub try_mark_suspended : WaiterState → WaiterState × Bool
unfolding mark_suspended
try_mark_suspended w = mark_suspended w.suspend_phase w

resume_now : Phase → WaiterState → WaiterState × Bool
resume_now waiting_await_suspend w = (record w { suspend_phase = wake_requested }, false)
resume_now suspended w = (w, true)
resume_now wake_requested w = (w, false)

unfoldable pub should_resume_now : WaiterState → WaiterState × Bool
unfolding resume_now
should_resume_now w = resume_now w.suspend_phase w

-- The store of the shared waiter states, by address. `none` is a null pointer.
abbrev pub Store : Type 0
Store = ℕ → Option WaiterState

-- `while (!waiters_.empty())` of `unlock`, `release` and `notify_one`: pop waiters up to the first
-- that can be marked as resumed. The result is that waiter's address with its new record, and the
-- waiters behind it.
pub record Claim : Type 0 where
  pub address : ℕ
  pub waiter : WaiterState
  pub rest : List ℕ

unfoldable pub claim_next : Store → List ℕ → Option Claim
unfolding try_mark_resumed
claim_next store [] = none
claim_next store (p ∷ ps) =
    let later = claim_next store ps in
    elim (store p) [
      | none ↦ later
      | some w ↦
          let (w', won) = try_mark_resumed w in
          if won then some (record { address = p; waiter = w'; rest = ps }) else later
    ]

-- The callback that an awaiter registers with its cancellation token. The result has the handle
-- that it resumes, if it resumes one.
unfoldable pub cancel_waiter : WaiterState → WaiterState × Option ℕ
unfolding try_mark_resumed should_resume_now
cancel_waiter w =
    let (w', won) = try_mark_resumed w in
    let (w'', now) = should_resume_now (record w' { cancelled = true }) in
    if won then (w'', if now then some w.handle else none) else (w', none)
