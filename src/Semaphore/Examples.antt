-- ===== src/Semaphore/Examples.antt =====
-- The theorems on include/xcoro/semaphore.hpp at concrete inputs.
use xcoro.Base.{
  ◌+◌, ◌≤◌, ◌≡◌, refl, true, ◌⊎◌, inr, none, some, [], ◌∷◌, length, arith, min, ltb, update,
}
use xcoro.Waiter.{
  WaiterState, suspended, new_waiter, try_mark_suspended, try_mark_resumed, should_resume_now,
  Store, claim_next,
}
use xcoro.Waiter.Grants.{AllFit, caller, waiter}
use xcoro.Semaphore.{
  Semaphore, sanitize_initial_count, make, try_acquire, make_waiter, enqueue_waiter, suspend_waiter,
  release_one, asserts_fail, release,
}
use xcoro.Semaphore.Release.{release-saturates}
use xcoro.Semaphore.System.{
  System, Reach, start, later, tries, arrives, suspends, releases, arrive, release_rounds,
  release_round, granted_by, dropped_by,
}
use xcoro.Semaphore.Permits.{permits_balanced}

abbrev suspended_waiter : WaiterState
suspended_waiter = record (new_waiter 7) { suspend_phase = suspended }

-- The one permit was taken, a second coroutine was suspended, and three permits were released.
abbrev refilled : System
refilled = record {
  sem = record {
    max = 1;
    count = 1;
    waiters = [];
    store =
        update (update (update (λ _. none) 0 (some (new_waiter 7))) 0 (some suspended_waiter)) 0
          (some (record suspended_waiter { resumed = true }));
    next = 1;
  };
  granted = waiter 0 ∷ caller ∷ [];
  released = 3;
  dropped = 1;
}

refilled-Reach : Reach 1 (some 4) refilled
unfolding make sanitize_initial_count try_acquire arrive make_waiter enqueue_waiter suspend_waiter
    release_rounds release_round release_one granted_by dropped_by claim_next try_mark_suspended
    try_mark_resumed should_resume_now
refilled-Reach = later (later (later (later start tries) (arrives 7)) (suspends 0)) (releases 3)

permits_balanced_example :
    (refilled.sem.count + length refilled.granted + refilled.dropped
      ≡ sanitize_initial_count 1 (some 4) + refilled.released)
    × (refilled.sem.count ≤ 1)
    × ((refilled.sem.count ≡ 0) ⊎ (refilled.sem.waiters ≡ []))
    × AllFit refilled.sem.store refilled.granted
permits_balanced_example = permits_balanced refilled-Reach

abbrev cancelled_waiter : WaiterState
cancelled_waiter = record (new_waiter 5) { resumed = true; cancelled = true }

-- Waiter 0 was cancelled, and waiter 1 is suspended.
abbrev two_waiting : Store
two_waiting = update (update (λ _. none) 0 (some cancelled_waiter)) 1 (some suspended_waiter)

abbrev exhausted : Semaphore
exhausted = record { max = 3; count = 0; waiters = 0 ∷ 1 ∷ []; store = two_waiting; next = 2 }

abbrev all_cancelled : Semaphore
all_cancelled = record exhausted { waiters = 0 ∷ [] }

release-saturates_example :
    (asserts_fail 5 all_cancelled ≡ ltb 3 (0 + 5))
    × (release all_cancelled (some 5)
        ≡ (record all_cancelled { count = min 3 (0 + 5); waiters = [] }, []))
release-saturates_example =
    release-saturates 4 all_cancelled (inr (cancelled_waiter, refl, refl), tt) (omega arith)
