-- ===== src/Mutex/System.antt =====
-- Any number of coroutines on one mutex, interleaved in any order.
-- Besides the mutex the system keeps who holds the lock, which the code does not record: a caller
-- that took it itself, or a waiter that `unlock` gave it to. It is a list, so that nothing but the
-- code keeps two from holding it. A critical section, and the cancellation callback, is one step.
use xcoro.Base.{ℕ, ◌≡◌, Bool, none, some, List, [], ◌∷◌, ◌++◌, if◌then◌else◌}
use xcoro.Waiter.{claim_next}
use xcoro.Waiter.Grants.{Holder, caller, waiter}
use xcoro.Mutex.{Mutex, init, try_lock, make_waiter, enqueue_waiter, unlock, suspend_waiter, cancel}

pub record System : Type 0 where
  pub mutex : Mutex
  pub holders : List Holder

-- The holders after an unlock that left `others`: with the waiter that is claimed, if there is one.
unfoldable pub handed_to : Mutex → List Holder → List Holder
handed_to m others = elim (claim_next m.store m.waiters) [
  | none ↦ others
  | some c ↦ waiter c.address ∷ others
]

-- A waiter that is made, and queued unless the lock is free.
unfoldable pub arrive : Mutex → ℕ → Mutex × Bool
arrive m handle = let (m', p) = make_waiter m handle in enqueue_waiter m' p

-- `tries` is `try_lock`; `arrives` is the creation and the enqueueing of a waiter, by
-- `await_suspend` or by `lock_or_enqueue`; `suspends` is its `try_mark_suspended`, `cancels` its
-- cancellation callback; whoever holds the lock may unlock.
pub data Step (s : System) : System → Type 0 where
  tries : Step s (record {
    mutex = (try_lock s.mutex).0;
    holders = if (try_lock s.mutex).1 then caller ∷ s.holders else s.holders;
  })
  arrives :
      (handle : ℕ)
      → Step s (record {
        mutex = (arrive s.mutex handle).0;
        holders = if (arrive s.mutex handle).1 then s.holders else caller ∷ s.holders;
      })
  suspends : (p : ℕ) → Step s (record s { mutex = (suspend_waiter s.mutex p).0 })
  cancels : (p : ℕ) → Step s (record s { mutex = (cancel s.mutex p).0 })
  unlocks :
      (before : List Holder) (h : Holder) (after : List Holder)
      → s.holders ≡ before ++ h ∷ after
      → Step s
          (record { mutex = (unlock s.mutex).0; holders = handed_to s.mutex (before ++ after) })

pub data Reach : System → Type 0 where
  start : Reach (record { mutex = init; holders = [] })
  later : {s t : System} → Reach s → Step s t → Reach t
