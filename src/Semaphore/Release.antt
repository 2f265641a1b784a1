-- ===== src/Semaphore/Release.antt =====
-- To whom `release` gives its permits.
use xcoro.Base.{
  ℕ, zero, suc, ◌+◌, ◌≤◌, ◌≡◌, refl, sym, subst, false, none, some, List, [], ◌∷◌, ◌++◌, arith, min,
  ltb, update,
}
use xcoro.Waiter.{WaiterState, should_resume_now}
use xcoro.Waiter.Queue.{AllSpent, woken, wake_handle, claim_next-AllSpent, claim_next-live}
use xcoro.Semaphore.{Semaphore, release_one, release_loop, asserts_fail, release}

-- One permit of a `release` passes over the waiters that were cancelled, in queue order, and goes to
-- the first live one: the count stays, the later waiters keep their places, and the coroutine is
-- resumed if and only if it is suspended.
pub release_one-hands_over :
    (s : Semaphore) (spent : List ℕ) (p : ℕ) (rest : List ℕ) (w : WaiterState)
    → s.waiters ≡ spent ++ p ∷ rest
    → AllSpent s.store spent
    → s.store p ≡ some w
    → w.resumed ≡ false
    → release_one s
      ≡ (record s { waiters = rest; store = update s.store p (some (woken w)) }, wake_handle w)
unfolding release_one should_resume_now
release_one-hands_over s spent p rest w q h e live =
    ground (arith, claim_next-live s.store spent p rest w h e live)

release_one-AllSpent :
    (s : Semaphore)
    → AllSpent s.store s.waiters
    → s.count ≤ s.max
    → release_one s ≡ (record s { count = min s.max (s.count + 1); waiters = [] }, none)
unfolding release_one
release_one-AllSpent s h le = ground (arith, claim_next-AllSpent s.store s.waiters h)

release_loop-empty :
    (n : ℕ) (s : Semaphore)
    → s.waiters ≡ []
    → s.count ≤ s.max
    → release_loop n s ≡ (record s { count = min s.max (s.count + n) }, [])
unfolding release_loop
release_loop-empty zero s e le = ground arith
release_loop-empty (suc n) s e le = ground (
  arith,
  release_one-AllSpent s (subst (AllSpent s.store) (sym e) tt) le,
  release_loop-empty n (record s { count = min s.max (s.count + 1); waiters = [] }) refl
      (omega arith),
)

asserts_fail-empty :
    (n : ℕ) (s : Semaphore)
    → AllSpent s.store s.waiters
    → s.count ≤ s.max
    → asserts_fail n s ≡ ltb s.max (s.count + n)
unfolding asserts_fail
asserts_fail-empty zero s h le = ground arith
asserts_fail-empty (suc n) s h le = ground (
  arith,
  claim_next-AllSpent s.store s.waiters h,
  release_one-AllSpent s h le,
  asserts_fail-empty n (record s { count = min s.max (s.count + 1); waiters = [] }) tt
      (omega arith),
)

-- A `release` finds no live waiter. Its assertion fails, where assertions are compiled in, if and
-- only if its permits would bring the count above the maximum; under `NDEBUG` it adds them to the
-- count, up to the maximum, and resumes nobody.
pub release-saturates :
    (n : ℕ) (s : Semaphore)
    → AllSpent s.store s.waiters
    → s.count ≤ s.max
    → (asserts_fail (suc n) s ≡ ltb s.max (s.count + suc n))
      × (release s (some (suc n))
          ≡ (record s { count = min s.max (s.count + suc n); waiters = [] }, []))
unfolding release release_loop
release-saturates n s h le = (
  asserts_fail-empty (suc n) s h le,
  ground (
    arith,
    release_one-AllSpent s h le,
    release_loop-empty n (record s { count = min s.max (s.count + 1); waiters = [] }),
  ),
)
