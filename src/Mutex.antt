-- ===== src/Mutex.antt =====
-- include/xcoro/mutex.hpp: the coroutine mutex.
-- `std::mutex` makes each critical section one step. A call of `handle.resume()` is a handle in the
-- result: the code that it runs is the coroutine's. The heap of shared waiter states is kept with
-- the mutex, `next` being the next address. What a cancellation token answers when it is asked is an
-- argument.
pub mod Unlock
pub mod System
pub mod Inv
pub mod Exclusion
pub mod Await
mod Examples
use xcoro.Base.{
  ℕ, ◌+◌, Bool, true, false, ◌&&◌, ◌||◌, Option, none, some, List, [], ◌∷◌, ◌++◌, if◌then◌else◌,
  update,
}
use xcoro.Waiter.{
  WaiterState, new_waiter, try_mark_suspended, should_resume_now, cancel_waiter, Store, Claim,
  claim_next,
}

pub record Mutex : Type 0 where
  pub locked : Bool
  pub waiters : List ℕ
  pub store : Store
  pub next : ℕ

abbrev pub init : Mutex
init = record { locked = false; waiters = []; store = λ _. none; next = 0 }

unfoldable pub try_lock : Mutex → Mutex × Bool
try_lock m = if m.locked then (m, false) else (record m { locked = true }, true)

-- True if the waiter was queued, false if the lock was free and is now taken.
unfoldable pub enqueue_waiter : Mutex → ℕ → Mutex × Bool
enqueue_waiter m p =
    if m.locked
    then (record m { waiters = m.waiters ++ p ∷ [] }, true)
    else (record m { locked = true }, false)

-- `std::make_shared<waiter_state>()`, and its handle.
unfoldable pub make_waiter : Mutex → ℕ → Mutex × ℕ
make_waiter m handle = (
  record m { store = update m.store m.next (some (new_waiter handle)); next = m.next + 1 },
  m.next,
)

-- The lock goes to the waiter that is claimed, and is free if there is none.
unfoldable pub unlock : Mutex → Mutex × Option ℕ
unlock m = elim (claim_next m.store m.waiters) [
  | none ↦ (record m { locked = false; waiters = [] }, none)
  | some c ↦
      let (w, now) = should_resume_now c.waiter in
      (
        record m { waiters = c.rest; store = update m.store c.address (some w) },
        if now then some w.handle else none,
      )
]

-- The end of `await_suspend`: does the coroutine stay suspended?
unfoldable pub suspend_waiter : Mutex → ℕ → Mutex × Bool
suspend_waiter m p = elim (m.store p) [
  | none ↦ (m, false)
  | some w ↦
      let (w', ok) = try_mark_suspended w in (record m { store = update m.store p (some w') }, ok)
]

-- The cancellation callback of a waiter.
unfoldable pub cancel : Mutex → ℕ → Mutex × Option ℕ
cancel m p = elim (m.store p) [
  | none ↦ (m, none)
  | some w ↦
      let (w', resumed) = cancel_waiter w in
      (record m { store = update m.store p (some w') }, resumed)
]

unfoldable pub lock_or_enqueue : Mutex → ℕ → Mutex × Bool
unfolding make_waiter enqueue_waiter suspend_waiter
lock_or_enqueue m handle =
    let (m₁, p) = make_waiter m handle in
    let (m₂, queued) = enqueue_waiter m₁ p in if queued then suspend_waiter m₂ p else (m₂, false)

-- The result has the handle that is resumed at once.
unfoldable pub lock_and_resume : Mutex → ℕ → Mutex × Option ℕ
unfolding lock_or_enqueue
lock_and_resume m handle =
    let (m', queued) = lock_or_enqueue m handle in (m', if queued then none else some handle)

pub record Awaiter : Type 0 where
  pub can_be_cancelled : Bool
  pub state : Option ℕ
  pub cancelled_immediate : Bool

abbrev pub lock : Bool → Awaiter
lock can_be_cancelled = record {
  can_be_cancelled = can_be_cancelled;
  state = none;
  cancelled_immediate = false;
}

-- `requested` is the token's answer.
unfoldable pub await_ready : Awaiter → Mutex → Bool → Awaiter × Mutex × Bool
unfolding try_lock
await_ready a m requested =
    if a.can_be_cancelled && requested
    then (record a { cancelled_immediate = true }, m, true)
    else let (m', got) = try_lock m in (a, m', got)

-- The part of `await_suspend` behind the enqueueing. If cancellation has been requested by the time
-- that the callback is registered (`late`), the registration calls it at once.
unfoldable pub register_and_suspend : Awaiter → Mutex → ℕ → Bool → Awaiter × Mutex × Bool
unfolding cancel suspend_waiter
register_and_suspend a m p late =
    let (m', resumed) = if a.can_be_cancelled && late then cancel m p else (m, none) in
    let (m'', suspended) = suspend_waiter m' p in (record a { state = some p }, m'', suspended)

unfoldable pub await_suspend : Awaiter → Mutex → ℕ → Bool → Bool → Awaiter × Mutex × Bool
unfolding make_waiter enqueue_waiter register_and_suspend
await_suspend a m handle requested late =
    if a.can_be_cancelled && requested
    then (record a { cancelled_immediate = true }, m, false)
    else let (m₁, p) = make_waiter m handle in
      let (m₂, queued) = enqueue_waiter m₁ p in
      if queued then register_and_suspend a m₂ p late else (a, m₂, false)

-- True if it throws `operation_cancelled`.
unfoldable pub await_resume : Awaiter → Mutex → Bool
await_resume a m = a.cancelled_immediate || elim a.state [
  | none ↦ false
  | some p ↦ elim (m.store p) [ none ↦ false | some w ↦ w.cancelled ]
]
