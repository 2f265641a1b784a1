-- ===== src/Mutex/Await.antt =====
-- `co_await m.lock(token)`: what `await_suspend` does in each case, and what `await_resume` makes of
-- it.
use xcoro.Base.{
  ℕ, ◌≡◌, refl, ◌⊎◌, inl, inr, Bool, true, false, ◌&&◌, some, [], ◌∷◌, ◌++◌, arith, Bool-cases,
}
use xcoro.Waiter.{
  WaiterState, new_waiter, suspended, wake_requested, try_mark_suspended, cancel_waiter,
}
use xcoro.Waiter.Queue.{IsSpent}
use xcoro.Mutex.{Mutex, Awaiter, lock, await_suspend, await_resume}

-- Cancellation has been requested: nothing happens to the mutex, and the awaiter throws.
pub record Refused (m : Mutex) (a' : Awaiter) (m' : Mutex) (suspends : Bool) : Type 0 where
  pub unchanged : m' ≡ m
  pub goes_on : suspends ≡ false
  pub throws : await_resume a' m' ≡ true

-- The lock was free: it is taken without suspending, and the awaiter does not throw.
pub record Taken (m : Mutex) (a' : Awaiter) (m' : Mutex) (suspends : Bool) : Type 0 where
  pub was_free : m.locked ≡ false
  pub is_locked : m'.locked ≡ true
  pub queue : m'.waiters ≡ m.waiters
  pub goes_on : suspends ≡ false
  pub returns : await_resume a' m' ≡ false

-- Cancelled between the enqueueing and the registration: the coroutine goes on and throws, and what
-- it leaves in the queue is a waiter that `unlock` passes over.
pub record Withdrawn (m : Mutex) (a' : Awaiter) (m' : Mutex) (suspends : Bool) : Type 0 where
  pub was_locked : m.locked ≡ true
  pub queue : m'.waiters ≡ m.waiters ++ m.next ∷ []
  pub spent : IsSpent m'.store m.next
  pub goes_on : suspends ≡ false
  pub throws : await_resume a' m' ≡ true

-- Suspended at the end of the queue.
pub record Queued (m : Mutex) (handle : ℕ) (m' : Mutex) (suspends : Bool) : Type 0 where
  pub was_locked : m.locked ≡ true
  pub queue : m'.waiters ≡ m.waiters ++ m.next ∷ []
  pub waits : m'.store m.next ≡ some (record (new_waiter handle) { suspend_phase = suspended })
  pub stays : suspends ≡ true

abbrev withdrawn_waiter : ℕ → WaiterState
withdrawn_waiter handle = record (new_waiter handle) {
  resumed = true;
  cancelled = true;
  suspend_phase = wake_requested;
}

-- The four ways of an `await_suspend`, each with the condition under which it is taken.
-- When the token has been cancelled it is refused; when the lock is free it is taken; otherwise the
-- coroutine is queued behind all others and suspended, unless it is cancelled before it can suspend.
pub await_suspend-outcome :
    (m : Mutex) (handle : ℕ) (can requested late : Bool)
    → let (a', m', s) = await_suspend (lock can) m handle requested late in
      ((can && requested ≡ true) × Refused m a' m' s)
      ⊎ (((can && requested ≡ false) × Taken m a' m' s)
          ⊎ (((can && requested ≡ false) × (can && late ≡ true) × Withdrawn m a' m' s)
              ⊎ ((can && requested ≡ false) × (can && late ≡ false) × Queued m handle m' s)))
unfolding await_suspend await_resume try_mark_suspended cancel_waiter
await_suspend-outcome m handle can requested late = elim (Bool-cases (can && requested)) [
  | inl refused ↦
      inl (
        refused,
        record { unchanged = ground arith; goes_on = ground arith; throws = ground arith },
      )
  | inr asked ↦ elim (Bool-cases m.locked) [
    | inr free ↦ inr (
        inl (
          asked,
          record {
            was_free = free;
            is_locked = ground arith;
            queue = ground arith;
            goes_on = ground arith;
            returns = ground arith;
          },
        ))
    | inl held ↦ elim (Bool-cases (can && late)) [
      | inl withdrawn ↦ inr (
          inr (
            inl (
              asked,
              withdrawn,
              record {
                was_locked = held;
                queue = ground arith;
                spent = inr (withdrawn_waiter handle, ground arith, refl);
                goes_on = ground arith;
                throws = ground arith;
              },
            )))
      | inr queued ↦ inr (
          inr (
            inr (
              asked,
              queued,
              record {
                was_locked = held;
                queue = ground arith;
                waits = ground arith;
                stays = ground arith;
              },
            )))
    ]
  ]
]
