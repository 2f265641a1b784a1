-- ===== src/Semaphore/System.antt =====
-- Any number of coroutines on one semaphore, interleaved in any order.
-- Besides the semaphore the system counts what the code does not: the permits that were granted, to
-- whom, those that were released, and those that `release` dropped because the count was at its
-- maximum. A critical section, and the cancellation callback, is one step.
use xcoro.Base.{
  ℕ, zero, suc, ◌+◌, ◌≡◌, refl, Bool, Option, none, some, List, [], ◌∷◌, ◌==◌, if◌then◌else◌,
}
use xcoro.Waiter.{claim_next}
use xcoro.Waiter.Grants.{Holder, caller, waiter}
use xcoro.Semaphore.{
  Semaphore, make, try_acquire, make_waiter, enqueue_waiter, release_one, release, suspend_waiter,
  cancel,
}

pub record System : Type 0 where
  pub sem : Semaphore
  pub granted : List Holder
  pub released : ℕ
  pub dropped : ℕ

abbrev pub init : ℕ → Option ℕ → System
init max initial = record { sem = make max initial; granted = []; released = 0; dropped = 0 }

unfoldable pub granted_by : Semaphore → List Holder → List Holder
granted_by s gs = elim (claim_next s.store s.waiters) [ none ↦ gs | some c ↦ waiter c.address ∷ gs ]

unfoldable pub dropped_by : Semaphore → ℕ
dropped_by s = elim (claim_next s.store s.waiters) [
  | none ↦ if s.count == s.max then 1 else 0
  | some c ↦ 0
]

unfoldable pub release_round : System → System
release_round s = record {
  sem = (release_one s.sem).0;
  granted = granted_by s.sem s.granted;
  released = s.released + 1;
  dropped = s.dropped + dropped_by s.sem;
}

unfoldable pub release_rounds : ℕ → System → System
release_rounds zero s = s
release_rounds (suc n) s = release_rounds n (release_round s)

-- The rounds make the semaphore that `release` makes.
pub release_rounds-release :
    (n : ℕ) (s : System) → (release_rounds n s).sem ≡ (release s.sem (some n)).0
unfolding release_rounds release release_round
release_rounds-release zero s = refl
release_rounds-release (suc n) s = release_rounds-release n (release_round s)

unfoldable pub arrive : Semaphore → ℕ → Semaphore × Bool
arrive s handle = let (s', p) = make_waiter s handle in enqueue_waiter s' p

pub data Step (s : System) : System → Type 0 where
  tries : Step s (record s {
    sem = (try_acquire s.sem).0;
    granted = if (try_acquire s.sem).1 then caller ∷ s.granted else s.granted;
  })
  arrives :
      (handle : ℕ)
      → Step s (record s {
        sem = (arrive s.sem handle).0;
        granted = if (arrive s.sem handle).1 then s.granted else caller ∷ s.granted;
      })
  suspends : (p : ℕ) → Step s (record s { sem = (suspend_waiter s.sem p).0 })
  cancels : (p : ℕ) → Step s (record s { sem = (cancel s.sem p).0 })
  releases : (n : ℕ) → Step s (release_rounds n s)

pub data Reach (max : ℕ) (initial : Option ℕ) : System → Type 0 where
  start : Reach max initial (init max initial)
  later : {s t : System} → Reach max initial s → Step s t → Reach max initial t
