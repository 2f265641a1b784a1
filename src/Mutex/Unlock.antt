-- ===== src/Mutex/Unlock.antt =====
-- To whom `unlock` hands the lock.
use xcoro.Base.{ℕ, ◌≡◌, false, none, some, List, [], ◌∷◌, ◌++◌, arith, update}
use xcoro.Waiter.{WaiterState, should_resume_now}
use xcoro.Waiter.Queue.{woken, wake_handle, AllSpent, claim_next-AllSpent, claim_next-live}
use xcoro.Mutex.{Mutex, unlock}

-- `unlock` passes over the waiters that were cancelled, in queue order, and gives the lock to the
-- first live one: the lock is never free in between, the later waiters keep their places, and the
-- coroutine is resumed if and only if it is suspended.
pub unlock-hands_over :
    (m : Mutex) (spent : List ℕ) (p : ℕ) (rest : List ℕ) (w : WaiterState)
    → m.waiters ≡ spent ++ p ∷ rest
    → AllSpent m.store spent
    → m.store p ≡ some w
    → w.resumed ≡ false
    → unlock m
      ≡ (record m { waiters = rest; store = update m.store p (some (woken w)) }, wake_handle w)
unfolding unlock should_resume_now
unlock-hands_over m spent p rest w q h e live =
    ground (arith, claim_next-live m.store spent p rest w h e live)

-- With no live waiter `unlock` frees the lock and leaves the queue empty.
pub unlock-frees :
    (m : Mutex)
    → AllSpent m.store m.waiters
    → unlock m ≡ (record m { locked = false; waiters = [] }, none)
unfolding unlock
unlock-frees m h = rw (claim_next-AllSpent m.store m.waiters h, unlock)
