-- ===== src/WhenAll/Examples.antt =====
-- The theorems on include/xcoro/when_all.hpp at concrete orders.
use xcoro.Base.{ℕ, ◌≡◌, refl, List, [], ◌∷◌, arith}
use xcoro.Task.{Outcome, value, raised, user, monostate, value_type, exception_ptr}
use xcoro.Cancellation.{init, request_cancellation}
use xcoro.WhenAll.Void.{forget_all, complete_void, await_resume_void, void_refines}
use xcoro.WhenAll.{make}
use xcoro.WhenAll.Gather.{Awaitable, complete, await_resume, when_all}
use xcoro.WhenAll.Results.{when_all-gather}
use xcoro.WhenAll.Failure.{cancel_on_failures, cancel_on_failures-once}

-- The second task of three ends first, and throws.
abbrev three_outcomes : List (Outcome ℕ)
three_outcomes = value 1 ∷ raised (user 5) ∷ value 3 ∷ []

when_all-gather_example : when_all three_outcomes (1 ∷ []) (2 ∷ 0 ∷ []) 8 ≡ raised (user 5) ∷ []
when_all-gather_example =
    when_all-gather three_outcomes (1 ∷ []) (2 ∷ 0 ∷ []) 8 (omega arith) refl (λ j lt. ground arith)

cancel_on_failures-once_example :
    cancel_on_failures (record init { callbacks = 4 ∷ [] }) three_outcomes ≡ (
      (request_cancellation (record init { callbacks = 4 ∷ [] })).0,
      (request_cancellation (record init { callbacks = 4 ∷ [] })).1,
      three_outcomes,
    )
cancel_on_failures-once_example =
    cancel_on_failures-once (record init { callbacks = 4 ∷ [] }) three_outcomes

-- None of two tasks has ended.
abbrev both_pending : Awaitable (Unit {0})
both_pending = record { latch = make 2; results = monostate ∷ monostate ∷ [] }

-- The second one has thrown.
abbrev all_done : Awaitable (Unit {0})
all_done = record { latch = make 0; results = value_type tt ∷ exception_ptr (user 3) ∷ [] }

void_refines_example :
    (complete_void (forget_all both_pending) 0 (value tt)
      ≡ (forget_all (complete both_pending 0 (value tt)).0, (complete both_pending 0 (value tt)).1))
    × (await_resume_void (forget_all all_done) ≡ await_resume all_done)
void_refines_example =
    void_refines both_pending 0 (value tt) all_done refl
      ((λ e. ground (arith, e)), ((λ e. ground (arith, e)), tt))
