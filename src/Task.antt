-- ===== src/Task.antt =====
-- include/xcoro/task.hpp: `task`, its promise, and how control goes from one coroutine to another.
-- The body of a coroutine is the program's: a parameter, as the tree of what it does next. It
-- returns, throws, or awaits a new task, and goes on with that task's result or exception. A
-- coroutine handle is the address of its frame. One step runs a coroutine to its next symmetric
-- transfer. Exceptions are told apart by a number; all values have one type.
pub mod Await
pub mod Ownership
pub mod SyncWait
pub mod Void
mod Examples
use xcoro.Base.{ℕ, zero, suc, ◌+◌, Option, none, some, Bool, true, false, update}

pub data Exception : Type 0 where
  user : ℕ → Exception
  -- `std::runtime_error("Task result not ready")`
  result_not_ready : Exception
  -- `std::get` of a variant that holds something else.
  bad_variant_access : Exception

-- What `final_suspend` does: a task's promise has its continuation, and the promise of
-- include/xcoro/sync_wait.hpp its event.
pub data Final : Type 0 where
  continues : Option ℕ → Final
  sets_event : Final

module _ {ℓ} (A : Type ℓ) where
  -- How a coroutine ends, seen from the one that awaits it.
  pub data Outcome : Type ℓ where
    value : A → Outcome
    raised : Exception → Outcome

  pub data Body : Type ℓ where
    co_return : A → Body
    throws : Exception → Body
    co_await : Body → (Outcome → Body) → Body

  -- `std::variant<std::monostate, value_type, std::exception_ptr>`
  pub data ResultSlot : Type ℓ where
    monostate : ResultSlot
    value_type : A → ResultSlot
    exception_ptr : Exception → ResultSlot

  -- Where the coroutine is suspended: before a part of its body, at `co_await` of the task at an
  -- address, or at its final suspension point.
  pub data Position : Type ℓ where
    before : Body → Position
    awaiting : ℕ → (Outcome → Body) → Position
    done : Position

  pub record Frame : Type ℓ where
    pub slot : ResultSlot
    pub final : Final
    pub position : Position

  -- The frames by address; `next` is the next address. `is_set` is the state of the event.
  pub record Machine : Type ℓ where
    pub frames : ℕ → Option Frame
    pub next : ℕ
    pub is_set : Bool

module _ {ℓ} {A : Type ℓ} where
  -- `get_return_object`, the coroutine being suspended at its start.
  abbrev pub new_frame : Final → Body A → Frame A
  new_frame final body = record { slot = monostate; final = final; position = before body }

  -- `emplace` of the value or of the exception.
  unfoldable pub return_value : Frame A → A → Frame A
  return_value f a = record f { slot = value_type a }

  unfoldable pub unhandled_exception : Frame A → Exception → Frame A
  unhandled_exception f e = record f { slot = exception_ptr e }

  -- `task_promise::result`
  unfoldable pub result : ResultSlot A → Outcome A
  result monostate = raised result_not_ready
  result (value_type a) = value a
  result (exception_ptr e) = raised e

  unfoldable pub set_continuation : Frame A → ℕ → Frame A
  set_continuation f continuation = record f { final = continues (some continuation) }

  abbrev pub put : Machine A → ℕ → Frame A → Machine A
  put m p f = record m { frames = update m.frames p (some f) }

  unfoldable pub destroy : Machine A → ℕ → Machine A
  destroy m p = record m { frames = update m.frames p none }

  -- `final_suspend`: the frame stays, and control goes to the continuation, or back to the resumer.
  unfoldable pub final_suspend : Machine A → ℕ → Frame A → Machine A × Option ℕ
  final_suspend m p f = elim f.final [
    | continues handle ↦ (put m p (record f { position = done }), handle)
    | sets_event ↦ (record (put m p (record f { position = done })) { is_set = true }, none)
  ]

  -- `co_await` of a new task: it is made, gets its continuation, and control goes to it.
  unfoldable pub await_suspend :
      Machine A → ℕ → Frame A → Body A → (Outcome A → Body A) → Machine A × Option ℕ
  unfolding set_continuation
  await_suspend m p f body k =
      let child = set_continuation (new_frame (continues none) body) p in
      (
        record (put (put m m.next child) p (record f { position = awaiting m.next k })) {
          next = m.next + 1;
        },
        some m.next,
      )

  -- The result is read, the awaited task is destroyed, and the coroutine goes on.
  unfoldable pub await_resume :
      Machine A → ℕ → Frame A → ℕ → (Outcome A → Body A) → Machine A × Option ℕ
  unfolding result destroy
  await_resume m p f child k = elim (m.frames child) [
    | none ↦ (m, none)
    | some c ↦
        (put (destroy m child) p (record f { position = before (k (result c.slot)) }), some p)
  ]

  -- `resume()` up to the next transfer; the result has the coroutine that is resumed next. A handle
  -- that is null or done is never resumed by the code.
  unfoldable pub resume_frame : Machine A → ℕ → Frame A → Position A → Machine A × Option ℕ
  unfolding return_value unhandled_exception final_suspend await_suspend await_resume
  resume_frame m p f (before (co_return a)) = final_suspend m p (return_value f a)
  resume_frame m p f (before (throws e)) = final_suspend m p (unhandled_exception f e)
  resume_frame m p f (before (co_await body k)) = await_suspend m p f body k
  resume_frame m p f (awaiting child k) = await_resume m p f child k
  resume_frame m p f done = (m, none)

  unfoldable pub resume : Machine A → ℕ → Machine A × Option ℕ
  unfolding resume_frame
  resume m p = elim (m.frames p) [ none ↦ (m, none) | some f ↦ resume_frame m p f f.position ]

  -- Symmetric transfer from one coroutine to the next, until control comes back to the resumer.
  unfoldable pub run : ℕ → Machine A → Option ℕ → Machine A × Option ℕ
  unfolding resume
  run rounds m none = (m, none)
  run zero m (some p) = (m, some p)
  run (suc rounds) m (some p) = let (m', next) = resume m p in run rounds m' next
