-- ===== src/Mutex/Exclusion.antt =====
-- Mutual exclusion: every step of the system keeps the invariant.
use xcoro.Base.{
  ℕ, ◌≡◌, refl, ap, ◌⊎◌, inl, inr, true, false, some, List, [], ◌∷◌, ◌++◌, arith, length,
  length-append, if◌then◌else◌, update, Option-cases, Bool-cases, subst,
}
use xcoro.Waiter.{WaiterState, claim_next, try_mark_suspended, should_resume_now, cancel_waiter}
use xcoro.Waiter.Queue.{claim_next-inv}
use xcoro.Mutex.{try_lock, make_waiter, enqueue_waiter, unlock, suspend_waiter, cancel}
use xcoro.Waiter.Grants.{
  Holder, caller, AllFit, AllFit-Keeps, AllFit-remove, update-Keeps, update-CancelFits,
  update-IsFresh, new-Keeps, new-CancelFits, new-IsFresh, try_mark_suspended-flags,
  cancel_waiter-flags, should_resume_now-flags,
}
use xcoro.Mutex.System.{
  System, handed_to, arrive, Step, tries, arrives, suspends, cancels, unlocks, Reach, start, later,
}
use xcoro.Mutex.Inv.{Inv, rewritten-Inv}

suspend-Inv : (s : System) (p : ℕ) → Inv s → Inv (record s { mutex = (suspend_waiter s.mutex p).0 })
unfolding suspend_waiter
suspend-Inv s p v = elim (Option-cases (s.mutex.store p)) [
  | inl null ↦ rw (null, suspend_waiter) v
  | inr (w, at) ↦
      let flags = try_mark_suspended-flags w in
      rw (at, suspend_waiter)
        (rewritten-Inv s p w (try_mark_suspended w).0 at (λ r c. ground (arith, flags))
          (λ r. ground (arith, flags, v.cancel_fit p w at)) v)
]

cancel-Inv : (s : System) (p : ℕ) → Inv s → Inv (record s { mutex = (cancel s.mutex p).0 })
unfolding cancel
cancel-Inv s p v = elim (Option-cases (s.mutex.store p)) [
  | inl null ↦ rw (null, cancel) v
  | inr (w, at) ↦
      let flags = cancel_waiter-flags w in
      rw (at, cancel)
        (rewritten-Inv s p w (cancel_waiter w).0 at (λ r c. ground (arith, flags))
          (λ r. ground (arith, flags)) v)
]

-- A new waiter changes no holder's.
make_waiter-Inv :
    (s : System) (handle : ℕ) → Inv s → Inv (record s { mutex = (make_waiter s.mutex handle).0 })
unfolding make_waiter
make_waiter-Inv s handle v = record {
  counted = v.counted;
  idle = v.idle;
  fit =
      AllFit-Keeps s.mutex.store (make_waiter s.mutex handle).0.store s.holders
        (new-Keeps s.mutex.store s.mutex.next handle v.fresh) v.fit;
  cancel_fit = new-CancelFits s.mutex.store s.mutex.next handle v.fresh v.cancel_fit;
  fresh = new-IsFresh s.mutex.store s.mutex.next handle v.fresh;
}

try_lock-Inv :
    (s : System)
    → Inv s
    → Inv (record {
      mutex = (try_lock s.mutex).0;
      holders = if (try_lock s.mutex).1 then caller ∷ s.holders else s.holders;
    })
unfolding try_lock
try_lock-Inv s v = elim (Bool-cases s.mutex.locked) [
  | inl taken ↦
      rw (taken, try_lock)
        (record {
          counted = ground arith;
          idle = inl refl;
          fit = v.fit;
          cancel_fit = v.cancel_fit;
          fresh = v.fresh;
        })
  | inr free ↦
      rw (free, try_lock)
        (record {
          counted = ground arith;
          idle = inl refl;
          fit = (tt, v.fit);
          cancel_fit = v.cancel_fit;
          fresh = v.fresh;
        })
]

enqueue_waiter-Inv :
    (s : System) (p : ℕ)
    → Inv s
    → Inv (record {
      mutex = (enqueue_waiter s.mutex p).0;
      holders = if (enqueue_waiter s.mutex p).1 then s.holders else caller ∷ s.holders;
    })
unfolding enqueue_waiter
enqueue_waiter-Inv s p v = elim (Bool-cases s.mutex.locked) [
  | inl taken ↦
      rw (taken, enqueue_waiter)
        (record {
          counted = ground arith;
          idle = inl refl;
          fit = v.fit;
          cancel_fit = v.cancel_fit;
          fresh = v.fresh;
        })
  | inr free ↦
      rw (free, enqueue_waiter)
        (record {
          counted = ground arith;
          idle = inl refl;
          fit = (tt, v.fit);
          cancel_fit = v.cancel_fit;
          fresh = v.fresh;
        })
]

arrive-Inv :
    (s : System) (handle : ℕ)
    → Inv s
    → Inv (record {
      mutex = (arrive s.mutex handle).0;
      holders = if (arrive s.mutex handle).1 then s.holders else caller ∷ s.holders;
    })
unfolding arrive
arrive-Inv s handle v =
    enqueue_waiter-Inv (record s { mutex = (make_waiter s.mutex handle).0 })
      (make_waiter s.mutex handle).1 (make_waiter-Inv s handle v)

-- The holder that unlocks was the only one.
others-none :
    (s : System) (before : List Holder) (h : Holder) (after : List Holder)
    → s.holders ≡ before ++ h ∷ after
    → Inv s
    → (length (before ++ after) ≡ 0) × (s.mutex.locked ≡ true)
others-none s before h after e v =
    ground
      (arith, ap length e, length-append before (h ∷ after), length-append before after, v.counted)

unlock-Inv :
    (s : System) (before : List Holder) (h : Holder) (after : List Holder)
    → s.holders ≡ before ++ h ∷ after
    → Inv s
    → Inv (record { mutex = (unlock s.mutex).0; holders = handed_to s.mutex (before ++ after) })
unfolding unlock handed_to
unlock-Inv s before h after e v = elim (Option-cases (claim_next s.mutex.store s.mutex.waiters)) [
  | inl nobody ↦
      rw (nobody, unlock, handed_to)
        (record {
          counted = alone.0;
          idle = inr refl;
          fit = left;
          cancel_fit = v.cancel_fit;
          fresh = v.fresh;
        })
  | inr (c, claimed) ↦
      let (w, spent, at, live, mark, split, done) =
        claim_next-inv s.mutex.store s.mutex.waiters c claimed in
      let w' : WaiterState = (should_resume_now c.waiter).0 in
      let flags : (w'.resumed ≡ true) × (w'.cancelled ≡ false) =
        ground (arith, should_resume_now-flags c.waiter, mark, v.cancel_fit c.address w at live) in
      rw (claimed, unlock, handed_to)
        (record {
          counted = ground (arith, alone);
          idle = inl alone.1;
          fit = (
            (w', ground arith, flags.0, flags.1),
            AllFit-Keeps s.mutex.store (update s.mutex.store c.address (some w')) (before ++ after)
                (update-Keeps s.mutex.store c.address w w' at (λ r k. flags)) left,
          );
          cancel_fit =
              update-CancelFits s.mutex.store c.address w w' at (λ r. flags.1) v.cancel_fit;
          fresh = update-IsFresh s.mutex.store c.address w w' at s.mutex.next v.fresh;
        })
]
  where
    alone : (length (before ++ after) ≡ 0) × (s.mutex.locked ≡ true)
    alone = others-none s before h after e v

    left : AllFit s.mutex.store (before ++ after)
    left = AllFit-remove s.mutex.store before h after (subst (AllFit s.mutex.store) e v.fit)

pub Step-Inv : {s t : System} → Step s t → Inv s → Inv t
Step-Inv {s} tries v = try_lock-Inv s v
Step-Inv {s} (arrives handle) v = arrive-Inv s handle v
Step-Inv {s} (suspends p) v = suspend-Inv s p v
Step-Inv {s} (cancels p) v = cancel-Inv s p v
Step-Inv {s} (unlocks before h after e) v = unlock-Inv s before h after e v

pub Reach-Inv : {s : System} → Reach s → Inv s
Reach-Inv start = record {
  counted = refl;
  idle = inr refl;
  fit = tt;
  cancel_fit = λ p w at r. cc;
  fresh = λ p le. refl;
}
Reach-Inv (later r st) = Step-Inv st (Reach-Inv r)

-- In every reachable state at most one coroutine holds the mutex: exactly one while it is locked, and
-- none while it is not. A waiter that holds it has been resumed and not cancelled, so its
-- `await_resume` does not throw. While the mutex is free nobody is in its queue.
pub mutual_exclusion :
    {s : System}
    → Reach s
    → (length s.holders ≡ (if s.mutex.locked then 1 else 0))
      × AllFit s.mutex.store s.holders
      × ((s.mutex.locked ≡ true) ⊎ (s.mutex.waiters ≡ []))
mutual_exclusion r = let v = Reach-Inv r in (v.counted, v.fit, v.idle)
