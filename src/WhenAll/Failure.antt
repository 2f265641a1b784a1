-- ===== src/WhenAll/Failure.antt =====
-- include/xcoro/when_all.hpp: the tasks of `when_all` with a cancellation source.
use xcoro.Base.{
  ◌≡◌, refl, ap, Bool, true, false, List, [], ◌∷◌, ◌++◌, arith, if◌then◌else◌, ℕ, append_nil,
}
use xcoro.Task.{Outcome, value, raised}
use xcoro.Cancellation.{CancellationState, request_cancellation, invoke, invoke_all}

invoke_all-cancelled :
    (s : CancellationState) (cbs : List ℕ) → (invoke_all s cbs).0.cancelled ≡ s.cancelled
unfolding invoke_all
invoke_all-cancelled s [] = refl
invoke_all-cancelled s (cb ∷ cbs) = invoke_all-cancelled (invoke s cb).0 cbs

request_again :
    (s : CancellationState) → s.cancelled ≡ true → request_cancellation s ≡ (s, [], false)
unfolding request_cancellation
request_again s e = rw (e) refl

request-cancelled : (s : CancellationState) → (request_cancellation s).0.cancelled ≡ true
unfolding request_cancellation
request-cancelled s =
    ground (arith, invoke_all-cancelled (record s { cancelled = true; callbacks = [] }) s.callbacks)

module _ {A : Type 0} where
  -- The end of `make_when_all_task_cancel_on_failure`: how its own coroutine ends, and the callbacks
  -- that are called.
  unfoldable pub cancel_on_failure :
      CancellationState → Outcome A → CancellationState × List ℕ × Outcome A
  unfolding request_cancellation
  cancel_on_failure source (value a) = (source, [], value a)
  cancel_on_failure source (raised e) =
      let (source', called, first) = request_cancellation source in (source', called, raised e)

  -- The tasks end one behind the other.
  unfoldable pub cancel_on_failures :
      CancellationState → List (Outcome A) → CancellationState × List ℕ × List (Outcome A)
  unfolding cancel_on_failure
  cancel_on_failures source [] = (source, [], [])
  cancel_on_failures source (o ∷ os) =
      let (source₁, called, o') = cancel_on_failure source o in
      let (source₂, later, os') = cancel_on_failures source₁ os in
      (source₂, called ++ later, o' ∷ os')

  abbrev pub any_raised : List (Outcome A) → Bool
  any_raised [] = false
  any_raised (value a ∷ os) = any_raised os
  any_raised (raised e ∷ os) = true

  cancel_on_failures_again :
      (s : CancellationState) (os : List (Outcome A))
      → s.cancelled ≡ true
      → cancel_on_failures s os ≡ (s, [], os)
  unfolding cancel_on_failures
  cancel_on_failures_again s [] e = refl
  cancel_on_failures_again s (value a ∷ os) e =
      ap (λ (r : CancellationState × List ℕ × List (Outcome A)). (r.0, r.1, value a ∷ r.2))
        (cancel_on_failures_again s os e)
  cancel_on_failures_again s (raised x ∷ os) e = rw (request_again s e) (
      ap (λ (r : CancellationState × List ℕ × List (Outcome A)). (r.0, r.1, raised x ∷ r.2))
        (cancel_on_failures_again s os e))

  -- The source is cancelled by the first task that fails and by no other: its callbacks are called
  -- then, once, and if no task fails nothing is called and the source stays as it was. How the tasks
  -- end is not changed, the exception of each that failed included.
  pub cancel_on_failures-once :
      (s : CancellationState) (os : List (Outcome A))
      → let requested = request_cancellation s in
        cancel_on_failures s os
        ≡ (if any_raised os then requested.0 else s, if any_raised os then requested.1 else [], os)
  unfolding cancel_on_failures
  cancel_on_failures-once s [] = refl
  cancel_on_failures-once s (value a ∷ os) =
      ap (λ (r : CancellationState × List ℕ × List (Outcome A)). (r.0, r.1, value a ∷ r.2))
        (cancel_on_failures-once s os)
  cancel_on_failures-once s (raised e ∷ os) =
      rw (cancel_on_failures_again (request_cancellation s).0 os (request-cancelled s)) (
        ap (λ (called : List ℕ). ((request_cancellation s).0, called, raised e ∷ os))
          (append_nil (request_cancellation s).1))
