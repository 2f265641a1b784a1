-- ===== src/Cancellation/Once.antt =====
-- A callback is called at most once, and a request misses none that is registered.
use xcoro.Base.{
  ℕ, ◌+◌, ◌≤◌, ◌<◌, ◌≡◌, refl, ◌⊎◌, true, false, List, [], ◌∷◌, ◌++◌, arith, count, ltb,
  if◌then◌else◌,
}
use xcoro.Cancellation.{invoke, erase_first, remove_callback}
use xcoro.Cancellation.Inv.{Inv, Reach-Inv}
use xcoro.Cancellation.System.{System, Step, deregisters, invokes, Reach}

at_most :
    (s : System) (cb : ℕ)
    → Inv s
    → (count cb s.called ≤ 1)
      × (count cb s.called + count cb s.state.callbacks ≤ 1)
      × ((s.state.cancelled ≡ true) ⊎ (s.called ≡ []))
at_most s cb v = (ground (arith, v.placed cb), ground (arith, v.placed cb), ground (arith, v.phase))

complete :
    (s : System) (cb : ℕ)
    → Inv s
    → s.state.cancelled ≡ true
    → s.claimed ≡ false
    → s.pending ≡ []
    → cb < s.next
    → count cb s.called + count cb s.removed ≡ 1
complete s cb v on past done lt = ground (arith, v.placed cb, v.phase)

-- The registration of `cb` is dropped, whatever the request is at.
abbrev pub dropped : System → ℕ → System
dropped s cb = record s {
  state = remove_callback s.state cb;
  removed = if ltb 0 (count cb s.state.callbacks) then cb ∷ s.removed else s.removed;
}

erase_first-absent : (cb : ℕ) (xs : List ℕ) → count cb xs ≡ 0 → erase_first cb xs ≡ xs
unfolding erase_first
erase_first-absent cb [] h = refl
erase_first-absent cb (x ∷ xs) h = ground (arith, erase_first-absent cb xs)

dropped_nothing : (s : System) (cb : ℕ) → count cb s.state.callbacks ≡ 0 → dropped s cb ≡ s
unfolding remove_callback
dropped_nothing s cb h = ground (arith, erase_first-absent cb s.state.callbacks h)

-- The request calls `cb`, the next one it has swapped out, after that.
abbrev pub resumed_request : System → ℕ → List ℕ → System
resumed_request s cb rest =
    let d = dropped s cb in
    record d {
      state = (invoke d.state cb).0;
      pending = rest;
      called = (invoke d.state cb).1 ++ d.called;
    }

late_call :
    (s : System) (cb : ℕ) (rest : List ℕ)
    → Inv s
    → s.pending ≡ cb ∷ rest
    → count cb (resumed_request s cb rest).called ≡ 1
unfolding invoke remove_callback
late_call s cb rest v e = ground (arith, v.placed cb, v.flagged cb)

-- In every reachable state a callback has been called at most once; one that was called is no longer
-- in the list; and before cancellation is requested none has been called.
pub called_once :
    {s : System} (cb : ℕ)
    → Reach s
    → (count cb s.called ≤ 1)
      × (count cb s.called + count cb s.state.callbacks ≤ 1)
      × ((s.state.cancelled ≡ true) ⊎ (s.called ≡ []))
called_once {s} cb r = at_most s cb (Reach-Inv r)

-- Once a request has gone through its callbacks, every callback that was ever registered has been
-- called exactly once, or has been deregistered from the list instead.
pub request_complete :
    {s : System} (cb : ℕ)
    → Reach s
    → s.state.cancelled ≡ true
    → s.claimed ≡ false
    → s.pending ≡ []
    → cb < s.next
    → count cb s.called + count cb s.removed ≡ 1
request_complete {s} cb r on past done lt = complete s cb (Reach-Inv r) on past done lt

-- A request has swapped out a callback and calls it next, when its registration is dropped. The step
-- that drops it leaves everything as it was, at which time the callback has not been called; and from
-- there the request's step calls it, once.
pub deregister-late :
    {s : System} (cb : ℕ) (rest : List ℕ)
    → Reach s
    → s.pending ≡ cb ∷ rest
    → Step s (dropped s cb)
      × (dropped s cb ≡ s)
      × (count cb (dropped s cb).called ≡ 0)
      × Step (dropped s cb) (resumed_request s cb rest)
      × (count cb (resumed_request s cb rest).called ≡ 1)
deregister-late {s} cb rest r e = (
  deregisters cb,
  dropped_nothing s cb (ground (arith, (Reach-Inv r).placed cb)),
  ground (arith, (Reach-Inv r).placed cb),
  invokes cb rest e,
  late_call s cb rest (Reach-Inv r) e,
)
