-- ===== src/WhenAny/Storage.antt =====
-- include/xcoro/when_any.hpp: `when_any_storage`, in which a result is kept until the coroutine takes it,
-- and `when_any` of a range with a cancellation source, from what its tasks return to what it returns.
-- A reference is the address of what it refers to.
use xcoro.Base.{ℕ, ◌≡◌, refl, ap, List, [], ◌∷◌, map, append_nil}
use xcoro.Cancellation.{CancellationState, request_cancellation}
use xcoro.WhenAny.{Ending, result, exception}
use xcoro.WhenAny.Results.{
  Answer, returns, rethrows, no_awaitable, bad_optional_access, when_any_range, with_cancellation,
  answer_of, race-first,
}

module _ {ℓ} (A : Type ℓ) where
  -- A result of an awaited operation: a value, a reference, or nothing.
  pub data Returned : Type ℓ where
    by_value : A → Returned
    by_reference : ℕ → Returned
    by_void : Returned

  -- `when_any_storage`, for each of the three.
  pub data WhenAnyStorage : Type ℓ where
    stored : A → WhenAnyStorage
    pointer : ℕ → WhenAnyStorage
    void_value : WhenAnyStorage

module _ {ℓ} {A : Type ℓ} where
  unfoldable pub from : Returned A → WhenAnyStorage A
  from (by_value a) = stored a
  from (by_reference p) = pointer p
  from by_void = void_value

  unfoldable pub get : WhenAnyStorage A → Returned A
  get (stored a) = by_value a
  get (pointer p) = by_reference p
  get void_value = by_void

  get-from : (r : Returned A) → get (from r) ≡ r
  unfolding get from
  get-from (by_value a) = refl
  get-from (by_reference p) = refl
  get-from by_void = refl

  -- What `spawn_when_any_range_task` publishes.
  unfoldable pub ranged : Ending (Returned A) → Ending (WhenAnyStorage A)
  unfolding from
  ranged (result r) = result (from r)
  ranged (exception e) = exception e

  -- `when_any_range_result::get` on what `when_any` returns.
  unfoldable pub got : Answer (WhenAnyStorage A) → Answer (Returned A)
  unfolding get
  got (returns s) = returns (get s)
  got (rethrows e) = rethrows e
  got no_awaitable = no_awaitable
  got bad_optional_access = bad_optional_access

  -- `when_any` of a source and a range, whose tasks end in this order.
  unfoldable pub when_any_range_with_source :
      CancellationState
      → List (Ending (Returned A))
      → List (Ending (Returned A))
      → ℕ
      → CancellationState × List ℕ × List (Answer (WhenAnyStorage A))
  unfolding ranged when_any_range with_cancellation
  when_any_range_with_source source early late handle =
      with_cancellation source (when_any_range (map ranged early) (map ranged late) handle)

  got-ranged : (e : Ending (Returned A)) → got (answer_of (ranged e)) ≡ answer_of e
  unfolding got ranged
  got-ranged (result r) = ap (λ (x : Returned A). returns x) (get-from r)
  got-ranged (exception e) = refl

  -- What a caller of `when_any` with a source gets: cancellation is requested once, its callbacks are
  -- called, and the coroutine ends once, with `a`.
  abbrev pub EndsWith :
      CancellationState
      → Answer (Returned A)
      → CancellationState × List ℕ × List (Answer (WhenAnyStorage A))
      → Type ℓ
  EndsWith source a (source', called, answers) =
      (source' ≡ (request_cancellation source).0)
      × (called ≡ (request_cancellation source).1)
      × (map got answers ≡ a ∷ [])

  with_cancellation-EndsWith :
      (source : CancellationState) (a : Answer (WhenAnyStorage A)) (b : Answer (Returned A))
      → got a ≡ b
      → EndsWith source b (with_cancellation source (a ∷ []))
  unfolding with_cancellation
  with_cancellation-EndsWith source a b e =
      (refl, append_nil (request_cancellation source).1, ap (λ (x : Answer (Returned A)). x ∷ []) e)

  -- `when_any` of a source and a range ends exactly once, whether the first task ends before the event
  -- is awaited or behind that: with what the first task to end returned, be it a value, the very
  -- reference, or nothing, or with its exception. If the range is empty it ends with the
  -- exception for that. In each case cancellation is requested once, and its callbacks are called.
  pub when_any_range-ends :
      (source : CancellationState) (e : Ending (Returned A))
      (early late : List (Ending (Returned A))) (handle : ℕ)
      → EndsWith source (answer_of e) (when_any_range_with_source source (e ∷ early) late handle)
        × EndsWith source (answer_of e) (when_any_range_with_source source [] (e ∷ late) handle)
        × EndsWith source no_awaitable (when_any_range_with_source source [] [] handle)
  unfolding when_any_range_with_source when_any_range got
  when_any_range-ends source e early late handle =
      let (now, then') = race-first (ranged e) (map ranged early) (map ranged late) handle in
      let ended =
        with_cancellation-EndsWith source (answer_of (ranged e)) (answer_of e) (got-ranged e) in
      (
        rw (now) ended,
        rw (then') ended,
        with_cancellation-EndsWith source no_awaitable no_awaitable refl,
      )
