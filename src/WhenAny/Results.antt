-- ===== src/WhenAny/Results.antt =====
-- include/xcoro/when_any.hpp: the coroutines behind `when_any`, for a tuple and for a range, with and
-- without a cancellation source. The tasks are given as they end, in the order of their ends: those of
-- `early` end before the event is awaited, the others behind that.
use xcoro.Base.{
  ℕ, ◌≡◌, refl, ap, Bool, false, Option, none, some, List, [], ◌∷◌, ◌++◌, map, append_nil, ◌==◌,
  if◌then◌else◌,
}
use xcoro.Event.{State, waiting, triggered, manual_reset_event, is_set, await_suspend}
use xcoro.Cancellation.{CancellationState, request_cancellation}
use xcoro.WhenAny.{Ending, result, exception, CompletionState, fresh, finish_task}
use xcoro.WhenAny.First.{decided, finish_task-late, finish_task-fresh}

module _ {ℓ} (A : Type ℓ) where
  -- `when_any_result`: the variant's index and what it holds.
  pub record WhenAnyResult : Type ℓ where
    pub index : ℕ
    pub value : A

  -- How the coroutine ends: `co_return`, the exception of a task, `std::runtime_error`, or
  -- `std::bad_optional_access` of a result that is not there.
  pub data Answer : Type ℓ where
    returns : A → Answer
    rethrows : ℕ → Answer
    no_awaitable : Answer
    bad_optional_access : Answer

-- `co_await *notify`, with the coroutine's handle: `await_ready`, then `await_suspend`.
unfoldable pub await_notify : State → ℕ → State × Bool
unfolding is_set await_suspend
await_notify event handle =
    let (event', suspends) = await_suspend event handle in
    if is_set event then (event, false) else (event', suspends)

module _ {ℓ} {A : Type ℓ} where
  unfoldable pub active_index : WhenAnyResult A → ℕ
  active_index r = r.index

  unfoldable pub holds : ℕ → WhenAnyResult A → Bool
  holds i r = r.index == i

  -- `none` is `std::bad_variant_access`.
  unfoldable pub get : ℕ → WhenAnyResult A → Option A
  get i r = if r.index == i then some r.value else none

  -- What `spawn_when_any_task<Result, Index>` publishes.
  unfoldable pub indexed : ℕ × Ending A → Ending (WhenAnyResult A)
  indexed (i, result a) = result (record { index = i; value = a })
  indexed (i, exception e) = exception e

  unfoldable pub take_result : CompletionState A → Answer A
  take_result s = elim s.result_value [ some a ↦ returns a | none ↦ bad_optional_access ]

  -- Behind `co_await *notify`.
  unfoldable pub notified : CompletionState A → Answer A
  unfolding take_result
  notified s = elim s.exception_value [ some e ↦ rethrows e | none ↦ take_result s ]

  abbrev at_each : Answer A → List ℕ → List (Answer A)
  at_each a [] = []
  at_each a (handle ∷ handles) = a ∷ at_each a handles

  -- The tasks end; the result has how the coroutine ends, for each time that it is resumed.
  unfoldable pub end_tasks :
      CompletionState A → State → List (Ending A) → CompletionState A × State × List (Answer A)
  unfolding finish_task notified
  end_tasks s event [] = (s, event, [])
  end_tasks s event (e ∷ es) =
      let (s₁, event₁, resumed) = finish_task s event e in
      let (s₂, event₂, later) = end_tasks s₁ event₁ es in
      (s₂, event₂, at_each (notified s₁) resumed ++ later)

  -- What both kinds of `when_any` do, once a task is there.
  unfoldable pub race : List (Ending A) → List (Ending A) → ℕ → List (Answer A)
  unfolding end_tasks await_notify
  race early late handle =
      let (s₁, event₁, answers) = end_tasks fresh manual_reset_event early in
      let (event₂, suspends) = await_notify event₁ handle in
      let (s₂, event₃, answers') = end_tasks s₁ event₂ late in
      answers ++ (if suspends then [] else notified s₁ ∷ []) ++ answers'

  -- The `when_any` of a range, which has as many awaitables as tasks end.
  unfoldable pub when_any_range : List (Ending A) → List (Ending A) → ℕ → List (Answer A)
  unfolding race
  when_any_range [] [] handle = no_awaitable ∷ []
  when_any_range [] (e ∷ late) handle = race [] (e ∷ late) handle
  when_any_range (e ∷ early) late handle = race (e ∷ early) late handle

  -- `when_any_from_tuple_with_cancellation`, and the `when_any` of a range with a source, by how the
  -- coroutine that it awaits ends; with the callbacks that are called.
  unfoldable pub with_cancellation :
      CancellationState → List (Answer A) → CancellationState × List ℕ × List (Answer A)
  unfolding request_cancellation
  with_cancellation source [] = (source, [], [])
  with_cancellation source (a ∷ as') =
      let (source₁, called, first) = request_cancellation source in
      let (source₂, later, answers) = with_cancellation source₁ as' in
      (source₂, called ++ later, a ∷ answers)

-- A tuple, whose tasks are told apart by their places.
unfoldable pub when_any_from_tuple {ℓ} :
    {A : Type ℓ} → List (ℕ × Ending A) → List (ℕ × Ending A) → ℕ → List (Answer (WhenAnyResult A))
unfolding race indexed
when_any_from_tuple early late handle = race (map indexed early) (map indexed late) handle

module _ {ℓ} {A : Type ℓ} where
  -- How the one that ended first ends `when_any`.
  abbrev pub answer_of : Ending A → Answer A
  answer_of (result a) = returns a
  answer_of (exception e) = rethrows e

  notified-decided : (e : Ending A) → notified (decided e) ≡ answer_of e
  unfolding notified
  notified-decided (result a) = refl
  notified-decided (exception e) = refl

  end_tasks-late :
      (e : Ending A) (es : List (Ending A)) (event : State)
      → end_tasks (decided e) event es ≡ (decided e, event, [])
  unfolding end_tasks
  end_tasks-late e [] event = refl
  end_tasks-late e (x ∷ es) event = rw (finish_task-late e x event, end_tasks-late e es event) refl

  end_tasks-first :
      (e : Ending A) (es : List (Ending A)) (handles : List ℕ)
      → end_tasks fresh (waiting handles) (e ∷ es)
        ≡ (decided e, triggered, at_each (notified (decided e)) handles ++ [])
  unfolding end_tasks
  end_tasks-first e es handles =
      rw (finish_task-fresh e handles, end_tasks-late e es triggered) refl

  -- The coroutine of `when_any` ends exactly once, and as the task that was the first to end has it:
  -- with its result, or with its exception. This holds whether that task ends before the event is
  -- awaited or behind that, and whatever the other tasks do.
  pub race-first :
      (e : Ending A) (early late : List (Ending A)) (handle : ℕ)
      → (race (e ∷ early) late handle ≡ answer_of e ∷ [])
        × (race [] (e ∷ late) handle ≡ answer_of e ∷ [])
  unfolding race
  race-first e early late handle = (
    rw (finish_task-fresh e [], end_tasks-late e early triggered, end_tasks-late e late triggered)
        (ap (λ (x : Answer A). x ∷ []) (notified-decided e)),
    rw (finish_task-fresh e (handle ∷ []), end_tasks-late e late triggered)
        (ap (λ (x : Answer A). x ∷ []) (notified-decided e)),
  )

-- With a cancellation source, `when_any` of a tuple ends exactly once, with the result of the task
-- that was the first to end, under that task's index, or with its exception; and in both cases
-- cancellation of the source is requested once, behind which its callbacks are called.
pub when_any_from_tuple-cancels {ℓ} :
    {A : Type ℓ} (source : CancellationState) (i : ℕ) (e : Ending A)
    (early late : List (ℕ × Ending A)) (handle : ℕ)
    → let requested = request_cancellation source in
      (with_cancellation source (when_any_from_tuple ((i, e) ∷ early) late handle)
        ≡ (requested.0, requested.1, answer_of (indexed (i, e)) ∷ []))
      × (with_cancellation source (when_any_from_tuple [] ((i, e) ∷ late) handle)
          ≡ (requested.0, requested.1, answer_of (indexed (i, e)) ∷ []))
unfolding when_any_from_tuple with_cancellation
when_any_from_tuple-cancels source i e early late handle =
    let (now, then') = race-first (indexed (i, e)) (map indexed early) (map indexed late) handle in
    (
      rw (now) (
          ap
            (λ (called : List ℕ).
              ((request_cancellation source).0, called, answer_of (indexed (i, e)) ∷ []))
            (append_nil (request_cancellation source).1)),
      rw (then') (
          ap
            (λ (called : List ℕ).
              ((request_cancellation source).0, called, answer_of (indexed (i, e)) ∷ []))
            (append_nil (request_cancellation source).1)),
    )
