-- ===== src/Mutex/Inv.antt =====
-- The invariant of the system, and a waiter's record that is replaced.
use xcoro.Base.{ℕ, ◌≡◌, ◌⊎◌, true, false, some, [], length, if◌then◌else◌, update}
use xcoro.Waiter.{WaiterState}
use xcoro.Waiter.Grants.{
  AllFit, CancelFits, IsFresh, AllFit-Keeps, update-Keeps, update-CancelFits, update-IsFresh,
}
use xcoro.Mutex.System.{System}

pub record Inv (s : System) : Type 0 where
  pub counted : length s.holders ≡ (if s.mutex.locked then 1 else 0)
  pub idle : (s.mutex.locked ≡ true) ⊎ (s.mutex.waiters ≡ [])
  pub fit : AllFit s.mutex.store s.holders
  pub cancel_fit : CancelFits s.mutex.store
  pub fresh : IsFresh s.mutex.store s.mutex.next

-- A waiter's record is replaced.
abbrev pub rewritten : System → ℕ → WaiterState → System
rewritten s p w' = record s {
  mutex = record (s.mutex) { store = update s.mutex.store p (some w') };
}

pub rewritten-Inv :
    (s : System) (p : ℕ) (w w' : WaiterState)
    → s.mutex.store p ≡ some w
    → (w.resumed ≡ true → w.cancelled ≡ false → (w'.resumed ≡ true) × (w'.cancelled ≡ false))
    → (w'.resumed ≡ false → w'.cancelled ≡ false)
    → Inv s
    → Inv (rewritten s p w')
rewritten-Inv s p w w' at keep fit v = record {
  counted = v.counted;
  idle = v.idle;
  fit =
      AllFit-Keeps s.mutex.store (update s.mutex.store p (some w')) s.holders
        (update-Keeps s.mutex.store p w w' at keep) v.fit;
  cancel_fit = update-CancelFits s.mutex.store p w w' at fit v.cancel_fit;
  fresh = update-IsFresh s.mutex.store p w w' at s.mutex.next v.fresh;
}
