-- ===== src/ConditionVariable.antt =====
-- include/xcoro/condition_variable.hpp: the coroutine condition variable.
-- The mutexes that its waiters come with are in a map by address, with their operations from Mutex.
-- The critical sections of the condition variable and of the mutexes are steps. A handle in a result
-- is resumed by the code.
pub mod Notify
mod Examples
use xcoro.Base.{
  ℕ, ◌+◌, Bool, true, false, ◌&&◌, ◌||◌, Option, none, some, List, [], ◌∷◌, ◌++◌, if◌then◌else◌,
  update,
}
use xcoro.Waiter.{
  WaiterState, new_waiter, try_mark_resumed, try_mark_suspended, should_resume_now, cancel_waiter,
  Store, Claim, claim_next,
}
use xcoro.Mutex.{Mutex, unlock, lock_or_enqueue, lock_and_resume}

-- `associated_mutex` is the member of the waiter at an address.
pub record ConditionVariable : Type 0 where
  pub waiters : List ℕ
  pub store : Store
  pub associated_mutex : ℕ → Option ℕ
  pub next : ℕ
  pub mutexes : ℕ → Mutex

unfoldable pub enqueue_waiter : ConditionVariable → ℕ → ConditionVariable
enqueue_waiter cv p = record cv { waiters = cv.waiters ++ p ∷ [] }

unfoldable pub make_waiter : ConditionVariable → ℕ → ℕ → ConditionVariable × ℕ
make_waiter cv handle m = (
  record cv {
    store = update cv.store cv.next (some (new_waiter handle));
    associated_mutex = update cv.associated_mutex cv.next (some m);
    next = cv.next + 1;
  },
  cv.next,
)

-- `associated_mutex->lock_and_resume(handle)`
unfoldable pub resume_with : ConditionVariable → ℕ → ℕ → ConditionVariable × Option ℕ
resume_with cv m handle =
    let (mutex, resumed) = lock_and_resume (cv.mutexes m) handle in
    (record cv { mutexes = update cv.mutexes m mutex }, resumed)

-- What is done with a waiter that was claimed, behind the critical section.
unfoldable pub wake_claimed : ConditionVariable → ℕ → WaiterState → ConditionVariable × Option ℕ
unfolding resume_with
wake_claimed cv p w = elim (cv.associated_mutex p) [
  | none ↦ (cv, none)
  | some m ↦
      let (w', now) = should_resume_now w in
      let woken : ConditionVariable = record cv { store = update cv.store p (some w') } in
      if now then resume_with woken m w.handle else (woken, none)
]

unfoldable pub notify_one : ConditionVariable → ConditionVariable × Option ℕ
unfolding wake_claimed
notify_one cv = elim (claim_next cv.store cv.waiters) [
  | none ↦ (record cv { waiters = [] }, none)
  | some c ↦
      wake_claimed
        (record cv { waiters = c.rest; store = update cv.store c.address (some c.waiter) })
        c.address c.waiter
]

-- The loop of `notify_all` in its critical section: `to_resume`, and the store with those claimed.
unfoldable pub claim_all : Store → List ℕ → Store × List ℕ
claim_all store [] = (store, [])
claim_all store (p ∷ ps) = elim (store p) [
  | none ↦ claim_all store ps
  | some w ↦
      let (w', won) = try_mark_resumed w in
      let (store', claimed) = claim_all (update store p (some w')) ps in
      (store', if won then p ∷ claimed else claimed)
]

abbrev add_handle : Option ℕ → List ℕ → List ℕ
add_handle none hs = hs
add_handle (some h) hs = h ∷ hs

-- The loop behind it; the handles are resumed in this order.
unfoldable pub wake_all : ConditionVariable → List ℕ → ConditionVariable × List ℕ
unfolding wake_claimed
wake_all cv [] = (cv, [])
wake_all cv (p ∷ ps) =
    let (cv₁, resumed) : ConditionVariable × Option ℕ = elim (cv.store p) [
      | none ↦ (cv, none)
      | some w ↦ wake_claimed cv p w
    ] in
    let (cv₂, later) = wake_all cv₁ ps in (cv₂, add_handle resumed later)

unfoldable pub notify_all : ConditionVariable → ConditionVariable × List ℕ
unfolding claim_all wake_all
notify_all cv =
    let (store, to_resume) = claim_all cv.store cv.waiters in
    wake_all (record cv { waiters = []; store = store }) to_resume

-- The cancellation callback of a waiter.
unfoldable pub cancel : ConditionVariable → ℕ → ConditionVariable × Option ℕ
unfolding resume_with
cancel cv p = elim (cv.store p) [
  | none ↦ (cv, none)
  | some w ↦
      let (w', resumed) = cancel_waiter w in
      let marked : ConditionVariable = record cv { store = update cv.store p (some w') } in
      elim resumed [
        | none ↦ (marked, none)
        | some handle ↦ elim (cv.associated_mutex p) [
          | none ↦ (marked, none)
          | some m ↦ resume_with marked m handle
        ]
      ]
]

-- The end of `await_suspend`: the coroutine stays suspended on the condition variable, or it was
-- woken meanwhile and takes the mutex, or waits for that.
unfoldable pub suspend_waiter : ConditionVariable → ℕ → ℕ → ℕ → ConditionVariable × Bool
suspend_waiter cv p m handle = elim (cv.store p) [
  | none ↦ (cv, false)
  | some w ↦
      let (w', ok) = try_mark_suspended w in
      let marked : ConditionVariable = record cv { store = update cv.store p (some w') } in
      let (mutex, queued) = lock_or_enqueue (cv.mutexes m) handle in
      if ok then (marked, true) else (record marked { mutexes = update cv.mutexes m mutex }, queued)
]

pub record Awaiter : Type 0 where
  pub mutex : ℕ
  pub can_be_cancelled : Bool
  pub state : Option ℕ
  pub cancelled_immediate : Bool

abbrev pub wait : ℕ → Bool → Awaiter
wait m can_be_cancelled = record {
  mutex = m;
  can_be_cancelled = can_be_cancelled;
  state = none;
  cancelled_immediate = false;
}

unfoldable pub await_ready : Awaiter → Bool → Awaiter × Bool
await_ready a requested =
    if a.can_be_cancelled && requested
    then (record a { cancelled_immediate = true }, true)
    else (a, false)

-- The result has the handle that the unlock resumes, and whether the coroutine stays suspended.
-- If cancellation is requested before the callback is registered (`late`), it is called at once.
unfoldable pub await_suspend :
    Awaiter → ConditionVariable → ℕ → Bool → Bool → Awaiter × ConditionVariable × Option ℕ × Bool
unfolding make_waiter enqueue_waiter cancel suspend_waiter
await_suspend a cv handle requested late =
    let (cv₁, p) = make_waiter cv handle a.mutex in
    let cv₂ = enqueue_waiter cv₁ p in
    let (mutex, handed) = unlock (cv₂.mutexes a.mutex) in
    let cv₃ : ConditionVariable = record cv₂ { mutexes = update cv₂.mutexes a.mutex mutex } in
    let cv₄ = if a.can_be_cancelled && late then (cancel cv₃ p).0 else cv₃ in
    let (cv₅, suspended) = suspend_waiter cv₄ p a.mutex handle in
    if a.can_be_cancelled && requested
    then (record a { cancelled_immediate = true }, cv, none, false)
    else (record a { state = some p }, cv₅, handed, suspended)

-- True if it throws `operation_cancelled`.
unfoldable pub await_resume : Awaiter → ConditionVariable → Bool
await_resume a cv = a.cancelled_immediate || elim a.state [
  | none ↦ false
  | some p ↦ elim (cv.store p) [ none ↦ false | some w ↦ w.cancelled ]
]
