-- ===== src/Event.antt =====
-- include/xcoro/manual_reset_event.hpp: the event.
-- The atomic pointer is null, the head of a list of awaiters, or the event itself. An awaiter is its
-- coroutine's handle, and the list is what the `next_` pointers make of it. The loop around the
-- compare-exchange ends in one that finds the pointer as it was loaded: that is the step. A weak
-- compare-exchange that fails changes nothing and is left out.
pub mod Balance
mod Examples
use xcoro.Base.{ℕ, Bool, true, false, Option, none, some, List, [], ◌∷◌, ◌++◌, if◌then◌else◌}

pub data State : Type 0 where
  waiting : List ℕ → State
  triggered : State

abbrev pub manual_reset_event : State
manual_reset_event = waiting []

unfoldable pub is_set : State → Bool
is_set (waiting handles) = false
is_set triggered = true

-- True if the coroutine stays suspended, at the head of the list.
unfoldable pub await_suspend : State → ℕ → State × Bool
await_suspend (waiting handles) handle = (waiting (handle ∷ handles), true)
await_suspend triggered handle = (triggered, false)

-- The exchange of `set`, with the list that the loop behind it goes through, in this order.
unfoldable pub set : State → State × List ℕ
set (waiting handles) = (triggered, handles)
set triggered = (triggered, [])

-- One turn of that loop resumes the first of the handles; the awaiter behind it was read before.
unfoldable pub resume_next : List ℕ → List ℕ × Option ℕ
resume_next [] = ([], none)
resume_next (handle ∷ next) = (next, some handle)

-- Threads that await the event or set it, in the order of their atomic operations, and the turns of
-- the loop of the thread that set it, which may come at any time after the exchange.
pub data Call : Type 0 where
  awaits : ℕ → Call
  sets : Call
  resumes : Call

-- With the event, the handles that `set` has yet to resume, the coroutines that were suspended, and
-- those that went on: resumed, or not suspended at all.
pub record System : Type 0 where
  pub event : State
  pub pending : List ℕ
  pub suspended : List ℕ
  pub resumed : List ℕ
  pub passed : List ℕ

abbrev pub init : System
init = record {
  event = manual_reset_event;
  pending = [];
  suspended = [];
  resumed = [];
  passed = [];
}

abbrev add_handle : Option ℕ → List ℕ → List ℕ
add_handle none hs = hs
add_handle (some h) hs = h ∷ hs

unfoldable pub call : System → Call → System
call s (awaits handle) = record s {
  event = (await_suspend s.event handle).0;
  suspended = if (await_suspend s.event handle).1 then handle ∷ s.suspended else s.suspended;
  passed = if (await_suspend s.event handle).1 then s.passed else handle ∷ s.passed;
}
call s sets = record s { event = (set s.event).0; pending = s.pending ++ (set s.event).1 }
call s resumes = record s {
  pending = (resume_next s.pending).0;
  resumed = add_handle (resume_next s.pending).1 s.resumed;
}

unfoldable pub run : System → List Call → System
unfolding call
run s [] = s
run s (c ∷ cs) = run (call s c) cs
