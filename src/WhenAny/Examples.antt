-- ===== src/WhenAny/Examples.antt =====
-- The theorems on `when_any` at concrete endings.
use xcoro.Base.{ℕ, ◌≡◌, [], ◌∷◌}
use xcoro.WhenAny.{result, exception}
use xcoro.WhenAny.Results.{
  returns, indexed, when_any_from_tuple, with_cancellation, when_any_from_tuple-cancels,
}
use xcoro.Cancellation.{CancellationState, init, request_cancellation}

when_any_from_tuple-cancels_example :
    let source : CancellationState = record init { callbacks = 4 ∷ [] } in
    let requested = request_cancellation source in
    (with_cancellation source
        (when_any_from_tuple {A = ℕ} ((1, result 6) ∷ []) ((0, exception 3) ∷ []) 9)
      ≡ (requested.0, requested.1, returns (record { index = 1; value = 6 }) ∷ []))
    × (with_cancellation source
          (when_any_from_tuple {A = ℕ} [] ((1, result 6) ∷ (0, exception 3) ∷ []) 9)
        ≡ (requested.0, requested.1, returns (record { index = 1; value = 6 }) ∷ []))
unfolding indexed
when_any_from_tuple-cancels_example =
    when_any_from_tuple-cancels {A = ℕ} (record init { callbacks = 4 ∷ [] }) 1 (result 6) []
      ((0, exception 3) ∷ []) 9
