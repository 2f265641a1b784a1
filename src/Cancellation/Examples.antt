-- ===== src/Cancellation/Examples.antt =====
-- The theorems on the cancellation state at a concrete run.
use xcoro.Base.{◌+◌, ◌≤◌, ◌≡◌, refl, ◌⊎◌, true, [], ◌∷◌, arith, count, update}
use xcoro.Cancellation.{init, invoke, add_locked, try_add_callback, claim_cancel, swap_callbacks}
use xcoro.Cancellation.System.{
  System, Step, start_system, Reach, start, later, adds, claims, swaps, invokes,
}
use xcoro.Cancellation.Once.{
  called_once, request_complete, dropped, resumed_request, deregister-late,
}

-- One callback was registered, and a request has swapped it out.
abbrev swapped : System
swapped = record start_system {
  state = record init { cancelled = true };
  pending = 0 ∷ [];
  next = 1;
}

swapped-Reach : Reach swapped
unfolding try_add_callback add_locked claim_cancel swap_callbacks
swapped-Reach =
    later
      (later (later start (adds (record init { callbacks = 0 ∷ [] }) refl))
        (claims (record init { callbacks = 0 ∷ []; cancelled = true }) refl))
      (swaps refl)

abbrev done : System
done = record swapped {
  state = record (swapped.state) { invoked = update (init.invoked) 0 true };
  pending = [];
  called = 0 ∷ [];
}

done-Reach : Reach done
unfolding invoke
done-Reach = later swapped-Reach (invokes 0 [] refl)

called_once_example :
    (count 0 done.called ≤ 1)
    × (count 0 done.called + count 0 done.state.callbacks ≤ 1)
    × ((done.state.cancelled ≡ true) ⊎ (done.called ≡ []))
called_once_example = called_once 0 done-Reach

request_complete_example : count 0 done.called + count 0 done.removed ≡ 1
request_complete_example = request_complete 0 done-Reach refl refl refl (omega arith)

deregister-late_example :
    Step swapped (dropped swapped 0)
    × (dropped swapped 0 ≡ swapped)
    × (count 0 (dropped swapped 0).called ≡ 0)
    × Step (dropped swapped 0) (resumed_request swapped 0 [])
    × (count 0 (resumed_request swapped 0 []).called ≡ 1)
deregister-late_example = deregister-late 0 [] swapped-Reach refl
