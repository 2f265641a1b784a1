-- ===== src/Task/Void.antt =====
-- `task_promise<void>` of include/xcoro/task.hpp and `sync_wait_task_promise<void>` of
-- include/xcoro/sync_wait.hpp, which keep an exception only.
use xcoro.Base.{◌≡◌, refl, Bool, true, false, Option, none, some, if◌then◌else◌}
use xcoro.Task.{Exception, Outcome, value, raised, result}
use xcoro.Task.Await.{slot_of}

pub record TaskVoid : Type 0 where
  pub exception : Option Exception

-- `return_void` and `unhandled_exception`, by how the coroutine ends.
unfoldable pub end_task : TaskVoid → Outcome (Unit {0}) → TaskVoid
end_task p (value v) = p
end_task p (raised e) = record { exception = some e }

unfoldable pub task_result : TaskVoid → Outcome (Unit {0})
task_result p = elim p.exception [ some e ↦ raised e | none ↦ value tt ]

-- The promise, with its event.
pub record SyncWaitVoid : Type 0 where
  pub exception : Option Exception
  pub is_set : Bool

-- The same, with `final_suspend`, which sets the event.
unfoldable pub end_sync_wait : SyncWaitVoid → Outcome (Unit {0}) → SyncWaitVoid
end_sync_wait p (value v) = record p { is_set = true }
end_sync_wait p (raised e) = record { exception = some e; is_set = true }

-- `none` blocks in `wait`.
unfoldable pub sync_wait_result : SyncWaitVoid → Option (Outcome (Unit {0}))
sync_wait_result p =
    if p.is_set
    then elim p.exception [ some e ↦ some (raised e) | none ↦ some (value tt) ]
    else none

-- Behind the coroutine's end the promises for `void` give what the promise of the other types gives.
pub void_agrees :
    (o : Outcome (Unit {0}))
    → (task_result (end_task (record { exception = none }) o) ≡ result (slot_of o))
      × (sync_wait_result (end_sync_wait (record { exception = none; is_set = false }) o)
          ≡ some (result (slot_of o)))
unfolding task_result end_task sync_wait_result end_sync_wait result
void_agrees (value v) = (refl, refl)
void_agrees (raised e) = (refl, refl)
