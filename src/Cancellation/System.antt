-- ===== src/Cancellation/System.antt =====
-- One cancellation state, shared by any number of threads that register and deregister callbacks
-- and request cancellation, interleaved in any order.
-- A request is three kinds of steps: the compare-exchange, the swap under the lock, and a call of
-- `invoke` for each callback swapped out. Besides the state the system keeps where the requesting
-- thread stands, and which callbacks were called or taken out of the list.
use xcoro.Base.{ℕ, ◌+◌, ◌≡◌, Bool, true, false, List, [], ◌∷◌, ◌++◌, count, ltb, if◌then◌else◌}
use xcoro.Cancellation.{
  CancellationState, init, invoke, try_add_callback, remove_callback, claim_cancel, swap_callbacks,
}

pub record System : Type 0 where
  pub state : CancellationState
  -- Some thread has set the flag and not yet swapped the list.
  pub claimed : Bool
  -- The callbacks swapped out and not yet invoked.
  pub pending : List ℕ
  pub called : List ℕ
  pub removed : List ℕ
  -- The next address of `std::make_shared<callback_state>`.
  pub next : ℕ

abbrev pub start_system : System
start_system = record {
  state = init;
  claimed = false;
  pending = [];
  called = [];
  removed = [];
  next = 0;
}

-- A new callback that was added.
abbrev pub added : System → CancellationState → System
added s st = record s { state = st; next = s.next + 1 }

-- A new callback that came too late, and is invoked by the thread that registers it.
abbrev pub too_late : System → CancellationState → System
too_late s st =
    let (st', calls) = invoke st s.next in
    record s { state = st'; called = calls ++ s.called; next = s.next + 1 }

pub data Step (s : System) : System → Type 0 where
  adds :
      (st : CancellationState) → try_add_callback s.state s.next ≡ (st, true) → Step s (added s st)
  invokes_late :
      (st : CancellationState)
      → try_add_callback s.state s.next ≡ (st, false)
      → Step s (too_late s st)
  deregisters :
      (cb : ℕ)
      → Step s (record s {
        state = remove_callback s.state cb;
        removed = if ltb 0 (count cb s.state.callbacks) then cb ∷ s.removed else s.removed;
      })
  claims :
      (st : CancellationState)
      → claim_cancel s.state ≡ (st, true)
      → Step s (record s { state = st; claimed = true })
  claims_again :
      (st : CancellationState)
      → claim_cancel s.state ≡ (st, false)
      → Step s (record s { state = st })
  swaps :
      s.claimed ≡ true
      → Step s (record s {
        state = (swap_callbacks s.state).0;
        claimed = false;
        pending = (swap_callbacks s.state).1;
      })
  invokes :
      (cb : ℕ) (rest : List ℕ)
      → s.pending ≡ cb ∷ rest
      → Step s (record s {
        state = (invoke s.state cb).0;
        pending = rest;
        called = (invoke s.state cb).1 ++ s.called;
      })

pub data Reach : System → Type 0 where
  start : Reach start_system
  later : {s t : System} → Reach s → Step s t → Reach t
