-- ===== src/WhenAll/Gather.antt =====
-- include/xcoro/when_all.hpp: the promises of the tasks, and the awaitable that waits for them.
-- A task is its place in the tuple; the slot of its promise is in `results`. All values have one type.
use xcoro.Base.{
  ℕ, Bool, Option, none, some, List, [], ◌∷◌, ◌++◌, length, get_or, set, replicate, if◌then◌else◌,
}
use xcoro.Task.{
  Exception, bad_variant_access, Outcome, value, raised, ResultSlot, monostate, value_type,
  exception_ptr,
}
use xcoro.WhenAll.{
  WhenAllLatch, make, is_ready, set_awaiting_coroutine, try_await, notify_awaitable_completed,
}

module _ {ℓ} (A : Type ℓ) where
  pub record Awaitable : Type ℓ where
    pub latch : WhenAllLatch
    pub results : List (ResultSlot A)

module _ {ℓ} {A : Type ℓ} where
  -- `when_all_ready_awaitable` of new tasks.
  abbrev pub make_awaitable : ℕ → Awaitable A
  make_awaitable n = record { latch = make n; results = replicate n monostate }

  -- `return_value` and `unhandled_exception`, by how the awaited operation of a task ends.
  unfoldable pub store_result : Outcome A → ResultSlot A
  store_result (value a) = value_type a
  store_result (raised e) = exception_ptr e

  -- The end of the task at `i`, with the notification at its final suspension point. The result has
  -- the coroutine that is resumed.
  unfoldable pub complete : Awaitable A → ℕ → Outcome A → Awaitable A × Option ℕ
  unfolding store_result notify_awaitable_completed
  complete s i o =
      let (latch, resumed) = notify_awaitable_completed s.latch in
      (record { latch = latch; results = set s.results i (store_result o) }, resumed)

  unfoldable pub rethrow_if_exception : ResultSlot A → Option Exception
  rethrow_if_exception monostate = none
  rethrow_if_exception (value_type a) = none
  rethrow_if_exception (exception_ptr e) = some e

  -- `when_all_task_promise::result`
  unfoldable pub result : ResultSlot A → Outcome A
  result monostate = raised bad_variant_access
  result (value_type a) = value a
  result (exception_ptr e) = raised e

  unfoldable pub throw_if_any_exception : List (ResultSlot A) → Option Exception
  unfolding rethrow_if_exception
  throw_if_any_exception [] = none
  throw_if_any_exception (slot ∷ slots) = elim (rethrow_if_exception slot) [
    | some e ↦ some e
    | none ↦ throw_if_any_exception slots
  ]

  abbrev pub both : Outcome A → Outcome (List A) → Outcome (List A)
  both (raised e) rest = raised e
  both (value a) (raised e) = raised e
  both (value a) (value rest) = value (a ∷ rest)

  unfoldable pub collect_results : List (ResultSlot A) → Outcome (List A)
  unfolding result
  collect_results [] = value []
  collect_results (slot ∷ slots) = both (result slot) (collect_results slots)

  unfoldable pub await_resume : Awaitable A → Outcome (List A)
  unfolding throw_if_any_exception collect_results
  await_resume s = elim (throw_if_any_exception s.results) [
    | some e ↦ raised e
    | none ↦ collect_results s.results
  ]

  -- What the awaiting coroutine gets, if it is resumed.
  abbrev pub answer : Option ℕ → Outcome (List A) → List (Outcome (List A))
  answer none o = []
  answer (some handle) o = o ∷ []

  -- The tasks at the places `order` end, one behind the other, the one at `i` as `outcomes` has it.
  -- The result has what the awaiting coroutine gets each time it is resumed.
  unfoldable pub complete_all :
      List (Outcome A) → List ℕ → Awaitable A → Awaitable A × List (Outcome (List A))
  unfolding complete await_resume
  complete_all outcomes [] s = (s, [])
  complete_all outcomes (i ∷ order) s =
      let (s₁, resumed) = complete s i (get_or outcomes i (raised bad_variant_access)) in
      let (s₂, later) = complete_all outcomes order s₁ in
      (s₂, answer resumed (await_resume s₁) ++ later)

  -- `prepare_and_try_suspend`, in which the tasks `early` end while they are started or before the
  -- latch is tried; true if the coroutine stays suspended.
  unfoldable pub prepare_and_try_suspend :
      List (Outcome A) → List ℕ → Awaitable A → ℕ → Awaitable A × List (Outcome (List A)) × Bool
  unfolding complete_all try_await
  prepare_and_try_suspend outcomes early s handle =
      let s₁ = record s { latch = set_awaiting_coroutine s.latch handle } in
      let (s₂, answers) = complete_all outcomes early s₁ in
      let (latch, stays) = try_await s₂.latch in (record s₂ { latch = latch }, answers, stays)

  -- `co_await` of a new awaitable, whose tasks `late` end behind `prepare_and_try_suspend`: what the
  -- awaiting coroutine gets, each time that it goes on.
  unfoldable pub when_all : List (Outcome A) → List ℕ → List ℕ → ℕ → List (Outcome (List A))
  unfolding prepare_and_try_suspend is_ready
  when_all outcomes early late handle =
      let s = make_awaitable (length outcomes) in
      let (s₁, answers, stays) = prepare_and_try_suspend outcomes early s handle in
      let (s₂, answers') = complete_all outcomes late s₁ in
      if is_ready s.latch
      then await_resume s ∷ []
      else answers ++ (if stays then [] else await_resume s₁ ∷ []) ++ answers'
