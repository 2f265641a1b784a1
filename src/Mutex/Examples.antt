-- ===== src/Mutex/Examples.antt =====
-- The theorems on include/xcoro/mutex.hpp at concrete inputs.
use xcoro.Base.{◌≡◌, refl, ◌⊎◌, true, none, some, [], ◌∷◌, length, if◌then◌else◌, update}
use xcoro.Waiter.{
  WaiterState, suspended, new_waiter, try_mark_suspended, try_mark_resumed, should_resume_now,
  Store, claim_next,
}
use xcoro.Waiter.Grants.{AllFit, caller, waiter}
use xcoro.Mutex.{Mutex, try_lock, make_waiter, enqueue_waiter, unlock, suspend_waiter}
use xcoro.Mutex.System.{
  System, Reach, start, later, tries, arrives, suspends, unlocks, handed_to, arrive,
}
use xcoro.Mutex.Exclusion.{mutual_exclusion}

-- The mutex was taken, a second coroutine was queued and suspended, and the first has unlocked.
abbrev parked_waiter : WaiterState
parked_waiter = record (new_waiter 7) { suspend_phase = suspended }

abbrev handed : System
handed = record {
  mutex = record {
    locked = true;
    waiters = [];
    store =
        update (update (update (λ _. none) 0 (some (new_waiter 7))) 0 (some parked_waiter)) 0
          (some (record parked_waiter { resumed = true }));
    next = 1;
  };
  holders = waiter 0 ∷ [];
}

handed-Reach : Reach handed
unfolding try_lock arrive make_waiter enqueue_waiter suspend_waiter unlock handed_to claim_next
    try_mark_suspended try_mark_resumed should_resume_now
handed-Reach =
    later (later (later (later start tries) (arrives 7)) (suspends 0)) (unlocks [] caller [] refl)

mutual_exclusion_example :
    (length handed.holders ≡ (if handed.mutex.locked then 1 else 0))
    × AllFit handed.mutex.store handed.holders
    × ((handed.mutex.locked ≡ true) ⊎ (handed.mutex.waiters ≡ []))
mutual_exclusion_example = mutual_exclusion handed-Reach

abbrev cancelled_waiter : WaiterState
cancelled_waiter = record (new_waiter 5) { resumed = true; cancelled = true }

-- Waiter 0 was cancelled; waiter 1 is suspended; waiter 2 waits behind them.
abbrev waiting_store : Store
waiting_store =
    update (update (update (λ _. none) 0 (some cancelled_waiter)) 1 (some parked_waiter)) 2
      (some (new_waiter 9))

abbrev contended : Mutex
contended = record { locked = true; waiters = 0 ∷ 1 ∷ 2 ∷ []; store = waiting_store; next = 3 }

abbrev abandoned : Mutex
abandoned = record contended { waiters = 0 ∷ [] }
