-- ===== src/ConditionVariable/Notify.antt =====
-- Whom a notification wakes, and that it takes the mutex before it goes on.
use native.Mathlib.Decide.{ℕ_discrete}
use xcoro.Base.{
  ℕ, ◌≡◌, refl, sym, subst, ◌∙◌, ◌⊎◌, inl, inr, Bool, true, false, Option, none, some, List, [],
  ◌∷◌, ◌++◌, arith, if◌then◌else◌, update, Bool-cases, Option-cases,
}
use xcoro.Waiter.{
  WaiterState, suspended, try_mark_suspended, try_mark_resumed, should_resume_now, Store,
  claim_next,
}
use xcoro.Waiter.Queue.{IsSpent, AllSpent, claim_next-live}
use xcoro.Waiter.Grants.{should_resume_now-flags}
use xcoro.Mutex.{
  Mutex, unlock, lock_or_enqueue, lock_and_resume, suspend_waiter, make_waiter, enqueue_waiter,
}
use xcoro.ConditionVariable.{
  ConditionVariable, resume_with, wake_claimed, notify_one, claim_all, wake_all, notify_all, wait,
  await_suspend,
}

-- `lock_and_resume` resumes the coroutine where the mutex is free, which is then locked; otherwise it
-- puts it behind the others in the mutex's queue.
lock_and_resume-outcome :
    (m : Mutex) (handle : ℕ)
    → let (m', resumed) = lock_and_resume m handle in
      (m'.locked ≡ true)
      × (((m.locked ≡ false) × (resumed ≡ some handle) × (m'.waiters ≡ m.waiters))
          ⊎ ((m.locked ≡ true) × (resumed ≡ none) × (m'.waiters ≡ m.waiters ++ m.next ∷ [])))
unfolding lock_and_resume lock_or_enqueue xcoro.Mutex.make_waiter xcoro.Mutex.enqueue_waiter
    xcoro.Mutex.suspend_waiter try_mark_suspended
lock_and_resume-outcome m handle = elim (Bool-cases m.locked) [
  | inl taken ↦ (ground arith, inr (ground arith))
  | inr free ↦ (ground arith, inl (ground arith))
]

-- `notify_one` passes over the waiters that were cancelled, in queue order, and wakes the first live
-- one, keeping the places of those behind it. If that coroutine is suspended, it is resumed where its
-- mutex is free, which it then holds; where it is not, it waits in the mutex's queue.
pub notify_one-wakes :
    (cv : ConditionVariable) (spent : List ℕ) (p : ℕ) (rest : List ℕ) (w : WaiterState) (m : ℕ)
    → cv.waiters ≡ spent ++ p ∷ rest
    → AllSpent cv.store spent
    → cv.store p ≡ some w
    → w.resumed ≡ false
    → w.suspend_phase ≡ suspended
    → cv.associated_mutex p ≡ some m
    → let (cv', resumed) = notify_one cv in
      let before = cv.mutexes m in
      let after = cv'.mutexes m in
      (cv'.waiters ≡ rest)
      × (cv'.store p ≡ some (record w { resumed = true }))
      × (after.locked ≡ true)
      × (((before.locked ≡ false) × (resumed ≡ some w.handle) × (after.waiters ≡ before.waiters))
          ⊎ ((before.locked ≡ true)
              × (resumed ≡ none)
              × (after.waiters ≡ before.waiters ++ before.next ∷ [])))
unfolding notify_one wake_claimed should_resume_now resume_with
notify_one-wakes cv spent p rest w m q h e live parked at = ground (
  arith,
  claim_next-live cv.store spent p rest w h e live,
  lock_and_resume-outcome (cv.mutexes m) w.handle,
)

-- A change of the store that leaves nobody live who was not.
abbrev KeepsSpent : Store → Store → Type 0
KeepsSpent store store' = (p : ℕ) → IsSpent store p → IsSpent store' p

AllSpent-KeepsSpent :
    (store store' : Store) (ps : List ℕ)
    → KeepsSpent store store'
    → AllSpent store ps
    → AllSpent store' ps
AllSpent-KeepsSpent store store' [] k h = tt
AllSpent-KeepsSpent store store' (p ∷ ps) k h = (k p h.0, AllSpent-KeepsSpent store store' ps k h.1)

update-KeepsSpent :
    (store : Store) (p : ℕ) (w w' : WaiterState)
    → store p ≡ some w
    → (w.resumed ≡ true → w'.resumed ≡ true)
    → KeepsSpent store (update store p (some w'))
update-KeepsSpent store p w w' at keep q spent = elim (ℕ_discrete p q) [
  | yes same ↦ elim spent [
    | inl gone ↦ absurd (ground arith)
    | inr (v, atq, done) ↦ inr (w', ground arith, ground (arith, keep))
  ]
  | no other ↦ elim spent [
    | inl gone ↦ inl (ground arith)
    | inr (v, atq, done) ↦ inr (v, ground arith, done)
  ]
]

try_mark_resumed-resumed :
    (w : WaiterState) → w.resumed ≡ true → (try_mark_resumed w).0.resumed ≡ true
unfolding try_mark_resumed
try_mark_resumed-resumed w h = refl

mark-IsSpent :
    (store : Store) (p : ℕ) (w : WaiterState)
    → IsSpent (update store p (some (try_mark_resumed w).0)) p
unfolding try_mark_resumed
mark-IsSpent store p w = inr (record w { resumed = true }, ground arith, refl)

-- Afterwards the queued waiters are spent, and those who were so are still.
claim_all-AllSpent :
    (store : Store) (ps : List ℕ)
    → KeepsSpent store (claim_all store ps).0 × AllSpent (claim_all store ps).0 ps
unfolding claim_all
claim_all-AllSpent store [] = (λ p h. h, tt)
claim_all-AllSpent store (p ∷ ps) =
    go (store p) refl (claim_all-AllSpent store ps)
      (λ w. claim_all-AllSpent (update store p (some (try_mark_resumed w).0)) ps)
  where
    go :
        (at : Option WaiterState)
        → store p ≡ at
        → KeepsSpent store (claim_all store ps).0 × AllSpent (claim_all store ps).0 ps
        → ((w : WaiterState)
            → let marked = update store p (some (try_mark_resumed w).0) in
              KeepsSpent marked (claim_all marked ps).0 × AllSpent (claim_all marked ps).0 ps)
        → let r : Store × List ℕ = elim at [
          | none ↦ claim_all store ps
          | some w ↦
              let (store', claimed) = claim_all (update store p (some (try_mark_resumed w).0)) ps in
              (store', if (try_mark_resumed w).1 then p ∷ claimed else claimed)
        ] in
          KeepsSpent store r.0 × AllSpent r.0 (p ∷ ps)
    go none e ih ih' = (ih.0, (ih.0 p (inl e), ih.1))
    go (some w) e ih ih' =
        let (keeps, spent) = ih' w in
        (
          λ q h. keeps q (
              update-KeepsSpent store p w (try_mark_resumed w).0 e (try_mark_resumed-resumed w) q
                h),
          (keeps p (mark-IsSpent store p w), spent),
        )

wake_claimed-store :
    (cv : ConditionVariable) (p : ℕ) (w : WaiterState)
    → ((wake_claimed cv p w).0.waiters ≡ cv.waiters)
      × (((wake_claimed cv p w).0.store ≡ cv.store)
          ⊎ ((wake_claimed cv p w).0.store ≡ update cv.store p (some (should_resume_now w).0)))
unfolding wake_claimed resume_with
wake_claimed-store cv p w = elim (Option-cases (cv.associated_mutex p)) [
  | inl empty ↦ (ground arith, inl (ground arith))
  | inr (m, found) ↦ elim (Bool-cases (should_resume_now w).1) [
    | inl now ↦ (ground arith, inr (ground arith))
    | inr left ↦ (ground arith, inr (ground arith))
  ]
]

wake_claimed-KeepsSpent :
    (cv : ConditionVariable) (p : ℕ) (w : WaiterState)
    → cv.store p ≡ some w
    → KeepsSpent cv.store (wake_claimed cv p w).0.store
wake_claimed-KeepsSpent cv p w at = elim (wake_claimed-store cv p w).1 [
  | inl same ↦ subst (KeepsSpent cv.store) (sym same) (λ q h. h)
  | inr changed ↦ subst (KeepsSpent cv.store) (sym changed) (
      update-KeepsSpent cv.store p w (should_resume_now w).0 at
        (λ h. (should_resume_now-flags w).0 ∙ h))
]

wake_all-KeepsSpent :
    (cv : ConditionVariable) (ps : List ℕ)
    → KeepsSpent cv.store (wake_all cv ps).0.store × ((wake_all cv ps).0.waiters ≡ cv.waiters)
unfolding wake_all
wake_all-KeepsSpent cv [] = ((λ q h. h), refl)
wake_all-KeepsSpent cv (p ∷ ps) = go (cv.store p) refl (λ cv'. wake_all-KeepsSpent cv' ps)
  where
    go :
        (at : Option WaiterState)
        → cv.store p ≡ at
        → ((cv' : ConditionVariable)
            → KeepsSpent cv'.store (wake_all cv' ps).0.store
              × ((wake_all cv' ps).0.waiters ≡ cv'.waiters))
        → let r : ConditionVariable × Option ℕ = elim at [
          | none ↦ (cv, none)
          | some w ↦ wake_claimed cv p w
        ] in
          KeepsSpent cv.store (wake_all r.0 ps).0.store × ((wake_all r.0 ps).0.waiters ≡ cv.waiters)
    go none e ih = ih cv
    go (some w) e ih =
        let (keeps, same) = ih (wake_claimed cv p w).0 in
        (
          (λ q h. keeps q (wake_claimed-KeepsSpent cv p w e q h)),
          same ∙ (wake_claimed-store cv p w).0,
        )

-- After `notify_all` the queue is empty, and every waiter that was in it has been claimed by this
-- notification or by an earlier cancellation: none is left that a later one would have to wake.
pub notify_all-AllSpent :
    (cv : ConditionVariable)
    → ((notify_all cv).0.waiters ≡ []) × AllSpent (notify_all cv).0.store cv.waiters
unfolding notify_all
notify_all-AllSpent cv =
    let (keeps, same) =
      wake_all-KeepsSpent (record cv { waiters = []; store = (claim_all cv.store cv.waiters).0 })
        (claim_all cv.store cv.waiters).1 in
    (
      same,
      AllSpent-KeepsSpent (claim_all cv.store cv.waiters).0 _ cv.waiters keeps
          (claim_all-AllSpent cv.store cv.waiters).1,
    )

-- A coroutine that waits on an idle condition variable, with a mutex that nobody else wants, is
-- suspended and leaves the mutex free; the next `notify_one` resumes it with the mutex locked again.
pub wait-notify :
    (cv : ConditionVariable) (m handle : ℕ) (requested late : Bool)
    → cv.waiters ≡ []
    → (cv.mutexes m).waiters ≡ []
    → let (a, cv', handed, stays) = await_suspend (wait m false) cv handle requested late in
      let (cv'', resumed) = notify_one cv' in
      (handed ≡ none)
      × (stays ≡ true)
      × ((cv'.mutexes m).locked ≡ false)
      × (resumed ≡ some handle)
      × ((cv''.mutexes m).locked ≡ true)
      × (cv''.waiters ≡ [])
unfolding await_suspend notify_one wake_claimed resume_with should_resume_now try_mark_suspended
    unlock claim_next try_mark_resumed xcoro.ConditionVariable.suspend_waiter
wait-notify cv m handle requested late idle free =
    ground (
      arith,
      lock_and_resume-outcome (record (cv.mutexes m) { locked = false; waiters = [] }) handle,
    )
