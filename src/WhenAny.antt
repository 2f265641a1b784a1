-- ===== src/WhenAny.antt =====
-- include/xcoro/when_any.hpp: the state that the racing tasks of `when_any` publish to.
-- The compare-exchange of `try_claim_first` is one step with the store behind it, since only the
-- winner gets there. The event that a winner sets is Event's.
pub mod First
pub mod Results
pub mod Storage
mod Examples
use xcoro.Base.{ℕ, Bool, true, false, not, Option, none, some, List, [], ◌∷◌, ◌++◌, if◌then◌else◌}
use xcoro.Event.{State, set}

module _ {ℓ} (A : Type ℓ) where
  -- A task's end: its result, or an exception.
  pub data Ending : Type ℓ where
    result : A → Ending
    exception : ℕ → Ending

  pub record CompletionState : Type ℓ where
    pub completed : Bool
    pub result_value : Option A
    pub exception_value : Option ℕ

module _ {ℓ} {A : Type ℓ} where
  abbrev pub fresh : CompletionState A
  fresh = record { completed = false; result_value = none; exception_value = none }

  unfoldable pub try_claim_first : CompletionState A → CompletionState A × Bool
  try_claim_first s = (record s { completed = true }, not s.completed)

  unfoldable pub try_publish_result : CompletionState A → A → CompletionState A × Bool
  unfolding try_claim_first
  try_publish_result s a =
      let (s', first) = try_claim_first s in
      if first then (record s' { result_value = some a }, true) else (s', false)

  unfoldable pub try_publish_exception : CompletionState A → ℕ → CompletionState A × Bool
  unfolding try_claim_first
  try_publish_exception s e =
      let (s', first) = try_claim_first s in
      if first then (record s' { exception_value = some e }, true) else (s', false)

  -- The end of a task's coroutine: it publishes, and sets the event if it was the first. The result
  -- has the coroutines that the event resumes.
  unfoldable pub finish_task :
      CompletionState A → State → Ending A → CompletionState A × State × List ℕ
  unfolding try_publish_result try_publish_exception
  finish_task s event (result a) =
      let (s', first) = try_publish_result s a in
      let (event', resumed) = set event in if first then (s', event', resumed) else (s', event, [])
  finish_task s event (exception e) =
      let (s', first) = try_publish_exception s e in
      let (event', resumed) = set event in if first then (s', event', resumed) else (s', event, [])

  unfoldable pub finish_tasks :
      CompletionState A → State → List (Ending A) → CompletionState A × State × List ℕ
  unfolding finish_task
  finish_tasks s event [] = (s, event, [])
  finish_tasks s event (e ∷ es) =
      let (s₁, event₁, resumed) = finish_task s event e in
      let (s₂, event₂, later) = finish_tasks s₁ event₁ es in (s₂, event₂, resumed ++ later)
