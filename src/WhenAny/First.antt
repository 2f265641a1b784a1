-- ===== src/WhenAny/First.antt =====
-- The first task to end decides what `when_any` returns.
use xcoro.Base.{ℕ, ◌≡◌, refl, ap, append_nil, true, none, some, List, [], ◌∷◌}
use xcoro.Event.{State, waiting, triggered, set}
use xcoro.WhenAny.{
  Ending, result, exception, CompletionState, fresh, try_publish_result, try_publish_exception,
  finish_task, finish_tasks,
}

module _ {ℓ} {A : Type ℓ} where
  -- What the state holds when `e` came first.
  abbrev pub decided : Ending A → CompletionState A
  decided (result a) = record { completed = true; result_value = some a; exception_value = none }
  decided (exception e) = record { completed = true; result_value = none; exception_value = some e }

  pub finish_task-late :
      (first e : Ending A) (event : State)
      → finish_task (decided first) event e ≡ (decided first, event, [])
  unfolding finish_task try_publish_result try_publish_exception
  finish_task-late (result a) (result b) event = refl
  finish_task-late (result a) (exception b) event = refl
  finish_task-late (exception a) (result b) event = refl
  finish_task-late (exception a) (exception b) event = refl

  finish_tasks-late :
      (first : Ending A) (es : List (Ending A)) (event : State)
      → finish_tasks (decided first) event es ≡ (decided first, event, [])
  unfolding finish_tasks
  finish_tasks-late first [] event = refl
  finish_tasks-late first (e ∷ es) event =
      rw (finish_task-late first e event, finish_tasks-late first es event)

  pub finish_task-fresh :
      (e : Ending A) (handles : List ℕ)
      → finish_task fresh (waiting handles) e ≡ (decided e, triggered, handles)
  unfolding finish_task try_publish_result try_publish_exception set
  finish_task-fresh (result a) handles = refl
  finish_task-fresh (exception e) handles = refl

  -- Whatever the tasks that end later bring, the state holds what the first one brought, result or
  -- exception, and the event is set by that one alone, which resumes its waiters once.
  pub finish_tasks-first :
      (e : Ending A) (es : List (Ending A)) (handles : List ℕ)
      → finish_tasks fresh (waiting handles) (e ∷ es) ≡ (decided e, triggered, handles)
  unfolding finish_tasks
  finish_tasks-first e es handles =
      rw (finish_task-fresh e handles, finish_tasks-late e es triggered)
        (ap (λ (hs : List ℕ). (decided e, triggered, hs)) (append_nil handles))
