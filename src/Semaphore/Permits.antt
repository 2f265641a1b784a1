-- ===== src/Semaphore/Permits.antt =====
-- Permits are neither lost nor made up, and none lies idle while a coroutine waits for one.
use xcoro.Base.{
  ℕ, zero, suc, ◌+◌, ◌-◌, ◌≤◌, ◌<◌, ◌≡◌, refl, ◌⊎◌, inl, inr, true, false, Option, some, [], ◌∷◌,
  arith, length, ltb, if◌then◌else◌, update, Option-cases, Bool-cases,
}
use xcoro.Waiter.{WaiterState, claim_next, try_mark_suspended, should_resume_now, cancel_waiter}
use xcoro.Waiter.Queue.{claim_next-inv, claim_next-AllSpent}
use xcoro.Waiter.Grants.{
  caller, AllFit, CancelFits, IsFresh, AllFit-Keeps, update-Keeps, update-CancelFits,
  update-IsFresh, new-Keeps, new-CancelFits, new-IsFresh, try_mark_suspended-flags,
  cancel_waiter-flags, should_resume_now-flags,
}
use xcoro.Semaphore.{
  make, sanitize_initial_count, try_acquire, make_waiter, enqueue_waiter, release_one,
  suspend_waiter, cancel,
}
use xcoro.Semaphore.System.{
  System, init, granted_by, dropped_by, release_round, release_rounds, arrive, Step, tries, arrives,
  suspends, cancels, releases, Reach, start, later,
}

pub record Inv (max : ℕ) (initial : Option ℕ) (s : System) : Type 0 where
  pub same_max : s.sem.max ≡ max
  pub bounded : s.sem.count ≤ max
  pub balanced :
      s.sem.count + length s.granted + s.dropped ≡ sanitize_initial_count max initial + s.released
  pub idle : (s.sem.count ≡ 0) ⊎ (s.sem.waiters ≡ [])
  pub fit : AllFit s.sem.store s.granted
  pub cancel_fit : CancelFits s.sem.store
  pub fresh : IsFresh s.sem.store s.sem.next

module _ {max : ℕ} {initial : Option ℕ} (s : System) (v : Inv max initial s) where
  abbrev rewritten : ℕ → WaiterState → System
  rewritten p w' = record s { sem = record (s.sem) { store = update s.sem.store p (some w') } }

  rewritten-Inv :
      (p : ℕ) (w w' : WaiterState)
      → s.sem.store p ≡ some w
      → (w.resumed ≡ true → w.cancelled ≡ false → (w'.resumed ≡ true) × (w'.cancelled ≡ false))
      → (w'.resumed ≡ false → w'.cancelled ≡ false)
      → Inv max initial (rewritten p w')
  rewritten-Inv p w w' at keep fit = record {
    same_max = v.same_max;
    bounded = v.bounded;
    balanced = v.balanced;
    idle = v.idle;
    fit =
        AllFit-Keeps s.sem.store (update s.sem.store p (some w')) s.granted
          (update-Keeps s.sem.store p w w' at keep) v.fit;
    cancel_fit = update-CancelFits s.sem.store p w w' at fit v.cancel_fit;
    fresh = update-IsFresh s.sem.store p w w' at s.sem.next v.fresh;
  }

  suspend-Inv : (p : ℕ) → Inv max initial (record s { sem = (suspend_waiter s.sem p).0 })
  unfolding suspend_waiter
  suspend-Inv p = elim (Option-cases (s.sem.store p)) [
    | inl null ↦ rw (null, suspend_waiter) v
    | inr (w, at) ↦
        let flags = try_mark_suspended-flags w in
        rw (at, suspend_waiter)
          (rewritten-Inv p w (try_mark_suspended w).0 at (λ r c. ground (arith, flags))
            (λ r. ground (arith, flags, v.cancel_fit p w at)))
  ]

  cancel-Inv : (p : ℕ) → Inv max initial (record s { sem = (cancel s.sem p).0 })
  unfolding cancel
  cancel-Inv p = elim (Option-cases (s.sem.store p)) [
    | inl null ↦ rw (null, cancel) v
    | inr (w, at) ↦
        let flags = cancel_waiter-flags w in
        rw (at, cancel)
          (rewritten-Inv p w (cancel_waiter w).0 at (λ r c. ground (arith, flags))
            (λ r. ground (arith, flags)))
  ]

  make_waiter-Inv : (handle : ℕ) → Inv max initial (record s { sem = (make_waiter s.sem handle).0 })
  unfolding make_waiter
  make_waiter-Inv handle = record {
    same_max = v.same_max;
    bounded = v.bounded;
    balanced = v.balanced;
    idle = v.idle;
    fit =
        AllFit-Keeps s.sem.store (make_waiter s.sem handle).0.store s.granted
          (new-Keeps s.sem.store s.sem.next handle v.fresh) v.fit;
    cancel_fit = new-CancelFits s.sem.store s.sem.next handle v.fresh v.cancel_fit;
    fresh = new-IsFresh s.sem.store s.sem.next handle v.fresh;
  }

  -- A caller that finds a permit takes it.
  taken-Inv :
      0 < s.sem.count
      → Inv max initial (record s {
        sem = record (s.sem) { count = s.sem.count - 1 };
        granted = caller ∷ s.granted;
      })
  taken-Inv pos = record {
    same_max = v.same_max;
    bounded = omega (arith, v.bounded);
    balanced = omega (arith, v.balanced);
    idle = ground (arith, v.idle);
    fit = (tt, v.fit);
    cancel_fit = v.cancel_fit;
    fresh = v.fresh;
  }

  try_acquire-Inv : Inv max initial (record s {
    sem = (try_acquire s.sem).0;
    granted = if (try_acquire s.sem).1 then caller ∷ s.granted else s.granted;
  })
  unfolding try_acquire
  try_acquire-Inv = elim (Bool-cases (ltb 0 s.sem.count)) [
    | inl some_left ↦ rw (some_left, try_acquire) (taken-Inv (ground arith))
    | inr none_left ↦ rw (none_left, try_acquire) v
  ]

  enqueue_waiter-Inv :
      (p : ℕ)
      → Inv max initial (record s {
        sem = (enqueue_waiter s.sem p).0;
        granted = if (enqueue_waiter s.sem p).1 then s.granted else caller ∷ s.granted;
      })
  unfolding enqueue_waiter
  enqueue_waiter-Inv p = elim (Bool-cases (ltb 0 s.sem.count)) [
    | inl some_left ↦ rw (some_left, enqueue_waiter) (taken-Inv (ground arith))
    | inr none_left ↦
        rw (none_left, enqueue_waiter)
          (record {
            same_max = v.same_max;
            bounded = v.bounded;
            balanced = v.balanced;
            idle = inl (ground arith);
            fit = v.fit;
            cancel_fit = v.cancel_fit;
            fresh = v.fresh;
          })
  ]

  release_round-Inv : Inv max initial (release_round s)
  unfolding release_round release_one granted_by dropped_by
  release_round-Inv = elim (Option-cases (claim_next s.sem.store s.sem.waiters)) [
    | inl nobody ↦
        rw (nobody, release_round, release_one, granted_by, dropped_by)
          (record {
            same_max = v.same_max;
            bounded = ground (arith, v.bounded, v.same_max);
            balanced = ground (arith, v.balanced);
            idle = inr refl;
            fit = v.fit;
            cancel_fit = v.cancel_fit;
            fresh = v.fresh;
          })
    | inr (c, claimed) ↦
        let (w, spent, at, live, mark, split, done) =
          claim_next-inv s.sem.store s.sem.waiters c claimed in
        let w' : WaiterState = (should_resume_now c.waiter).0 in
        let flags : (w'.resumed ≡ true) × (w'.cancelled ≡ false) =
          ground
            (arith, should_resume_now-flags c.waiter, mark, v.cancel_fit c.address w at live) in
        rw (claimed, release_round, release_one, granted_by, dropped_by)
          (record {
            same_max = v.same_max;
            bounded = v.bounded;
            balanced = omega (arith, v.balanced);
            idle = ground (arith, v.idle, claim_next-AllSpent s.sem.store [] tt);
            fit = (
              (w', ground arith, flags.0, flags.1),
              AllFit-Keeps s.sem.store (update s.sem.store c.address (some w')) s.granted
                  (update-Keeps s.sem.store c.address w w' at (λ r k. flags)) v.fit,
            );
            cancel_fit =
                update-CancelFits s.sem.store c.address w w' at (λ r. flags.1) v.cancel_fit;
            fresh = update-IsFresh s.sem.store c.address w w' at s.sem.next v.fresh;
          })
  ]

arrive-Inv :
    {max : ℕ} {initial : Option ℕ} (s : System) (handle : ℕ)
    → Inv max initial s
    → Inv max initial (record s {
      sem = (arrive s.sem handle).0;
      granted = if (arrive s.sem handle).1 then s.granted else caller ∷ s.granted;
    })
unfolding arrive
arrive-Inv s handle v =
    enqueue_waiter-Inv (record s { sem = (make_waiter s.sem handle).0 })
      (make_waiter-Inv s v handle) (make_waiter s.sem handle).1

release_rounds-Inv :
    {max : ℕ} {initial : Option ℕ} (n : ℕ) (s : System)
    → Inv max initial s
    → Inv max initial (release_rounds n s)
unfolding release_rounds
release_rounds-Inv zero s v = v
release_rounds-Inv (suc n) s v = release_rounds-Inv n (release_round s) (release_round-Inv s v)

pub Step-Inv :
    {max : ℕ} {initial : Option ℕ} {s t : System} → Step s t → Inv max initial s → Inv max initial t
Step-Inv {s = s} tries v = try_acquire-Inv s v
Step-Inv {s = s} (arrives handle) v = arrive-Inv s handle v
Step-Inv {s = s} (suspends p) v = suspend-Inv s v p
Step-Inv {s = s} (cancels p) v = cancel-Inv s v p
Step-Inv {s = s} (releases n) v = release_rounds-Inv n s v

start-Inv : (max : ℕ) (initial : Option ℕ) → Inv max initial (init max initial)
unfolding make sanitize_initial_count
start-Inv max initial = record {
  same_max = refl;
  bounded = ground arith;
  balanced = ground arith;
  idle = inr refl;
  fit = tt;
  cancel_fit = λ p w at r. cc;
  fresh = λ p le. refl;
}

pub Reach-Inv :
    {max : ℕ} {initial : Option ℕ} {s : System} → Reach max initial s → Inv max initial s
Reach-Inv {max} {initial} start = start-Inv max initial
Reach-Inv (later r st) = Step-Inv st (Reach-Inv r)

-- In every reachable state the free permits, those granted and those dropped at the maximum are the
-- initial ones and those released; the count is at most the maximum; while a permit is free nobody
-- is in the queue; and a waiter that was granted one has been resumed and not cancelled.
pub permits_balanced :
    {max : ℕ} {initial : Option ℕ} {s : System}
    → Reach max initial s
    → (s.sem.count + length s.granted + s.dropped ≡ sanitize_initial_count max initial + s.released)
      × (s.sem.count ≤ max)
      × ((s.sem.count ≡ 0) ⊎ (s.sem.waiters ≡ []))
      × AllFit s.sem.store s.granted
permits_balanced r = let v = Reach-Inv r in (v.balanced, v.bounded, v.idle, v.fit)
