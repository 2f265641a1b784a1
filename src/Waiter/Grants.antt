-- ===== src/Waiter/Grants.antt =====
-- Who was given the lock or a permit, and what the waiters' records say of it.
use native.Mathlib.Decide.{ℕ_discrete}
use xcoro.Base.{
  ℕ, ◌+◌, ◌≤◌, ◌≡◌, true, false, none, some, List, [], ◌∷◌, ◌++◌, arith, if◌then◌else◌, update,
}
use xcoro.Waiter.{
  WaiterState, Store, new_waiter, try_mark_suspended, should_resume_now, cancel_waiter,
}

-- Who took the lock or a permit: a caller that found it free, or a waiter that it was handed to.
pub data Holder : Type 0 where
  caller : Holder
  waiter : ℕ → Holder

-- A waiter that holds the lock has been resumed, and not by its cancellation.
abbrev pub HolderFits : Store → Holder → Type 0
HolderFits store caller = Unit {0}
HolderFits store (waiter p) =
    (w : WaiterState) × (store p ≡ some w) × (w.resumed ≡ true) × (w.cancelled ≡ false)

abbrev pub AllFit : Store → List Holder → Type 0
AllFit store [] = Unit {0}
AllFit store (h ∷ hs) = HolderFits store h × AllFit store hs

-- A cancelled waiter has been resumed.
abbrev pub CancelFits : Store → Type 0
CancelFits store =
    (p : ℕ) (w : WaiterState) → store p ≡ some w → w.resumed ≡ false → w.cancelled ≡ false

abbrev pub IsFresh : Store → ℕ → Type 0
IsFresh store n = (p : ℕ) → n ≤ p → store p ≡ none

-- A change of the store that keeps the waiters that hold the lock as they were.
abbrev pub Keeps : Store → Store → Type 0
Keeps store store' =
    (p : ℕ) (w : WaiterState)
    → store p ≡ some w
    → w.resumed ≡ true
    → w.cancelled ≡ false
    → (w' : WaiterState) × (store' p ≡ some w') × (w'.resumed ≡ true) × (w'.cancelled ≡ false)

pub AllFit-Keeps :
    (store store' : Store) (hs : List Holder)
    → Keeps store store'
    → AllFit store hs
    → AllFit store' hs
AllFit-Keeps store store' [] k h = tt
AllFit-Keeps store store' (caller ∷ hs) k h = (tt, AllFit-Keeps store store' hs k h.1)
AllFit-Keeps store store' (waiter p ∷ hs) k h =
    let ((w, at, r, c), rest) = h in (k p w at r c, AllFit-Keeps store store' hs k rest)

pub AllFit-remove :
    (store : Store) (before : List Holder) (h : Holder) (after : List Holder)
    → AllFit store (before ++ h ∷ after)
    → AllFit store (before ++ after)
AllFit-remove store [] h after f = f.1
AllFit-remove store (x ∷ before) h after f = (f.0, AllFit-remove store before h after f.1)

module _ (store : Store) (p : ℕ) (w w' : WaiterState) (at : store p ≡ some w) where
  pub update-Keeps :
      (w.resumed ≡ true → w.cancelled ≡ false → (w'.resumed ≡ true) × (w'.cancelled ≡ false))
      → Keeps store (update store p (some w'))
  update-Keeps keep q v atq r c = elim (ℕ_discrete p q) [
    | yes same ↦ (w', ground arith, ground (arith, keep), ground (arith, keep))
    | no other ↦ (v, ground arith, r, c)
  ]

  pub update-CancelFits :
      (w'.resumed ≡ false → w'.cancelled ≡ false)
      → CancelFits store
      → CancelFits (update store p (some w'))
  update-CancelFits keep f q v atq r = ground (arith, keep, f q v)

  pub update-IsFresh : (n : ℕ) → IsFresh store n → IsFresh (update store p (some w')) n
  update-IsFresh n f q le = ground (arith, f q le, f p)

pub try_mark_suspended-flags :
    (w : WaiterState)
    → ((try_mark_suspended w).0.resumed ≡ w.resumed)
      × ((try_mark_suspended w).0.cancelled ≡ w.cancelled)
unfolding try_mark_suspended
try_mark_suspended-flags w = ground arith

pub cancel_waiter-flags :
    (w : WaiterState)
    → ((cancel_waiter w).0.resumed ≡ true)
      × ((cancel_waiter w).0.cancelled ≡ (if w.resumed then w.cancelled else true))
unfolding cancel_waiter
cancel_waiter-flags w = ground arith

pub should_resume_now-flags :
    (w : WaiterState)
    → ((should_resume_now w).0.resumed ≡ w.resumed)
      × ((should_resume_now w).0.cancelled ≡ w.cancelled)
unfolding should_resume_now
should_resume_now-flags w = ground arith

-- A new waiter at a fresh address changes no other.
module _ (store : Store) (next handle : ℕ) (fresh : IsFresh store next) where
  pub new-Keeps : Keeps store (update store next (some (new_waiter handle)))
  new-Keeps p w at r c = (w, ground (arith, fresh p), r, c)

  pub new-CancelFits : CancelFits store → CancelFits (update store next (some (new_waiter handle)))
  new-CancelFits f p w at r = ground (arith, f p w)

  pub new-IsFresh : IsFresh (update store next (some (new_waiter handle))) (next + 1)
  new-IsFresh p le = ground (arith, fresh p)
