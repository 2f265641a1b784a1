-- ===== src/Task/Examples.antt =====
-- The theorems on include/xcoro/task.hpp and include/xcoro/sync_wait.hpp at concrete coroutines.
use xcoro.Base.{ℕ, suc, ◌+◌, ◌≡◌, ◌≢◌, refl, arith, false, none, some, [], ◌∷◌, count}
use xcoro.Task.{
  value, raised, Body, co_return, throws, co_await, user, monostate, value_type, done, continues,
  sets_event, Machine, new_frame, put, run,
}
use xcoro.Task.Await.{eval, steps, frame, Ended, run-eval}
use xcoro.Task.SyncWait.{start, sync_wait, sync_wait-eval}
use xcoro.Task.Ownership.{
  constructs, moves_to_new, destructs, perform, Reach, start as begun, later, owners, owned_once,
}

-- Awaits a task that throws, catches the exception, and returns.
abbrev catches : Body ℕ
catches =
    co_await (throws (user 2)) (λ o. elim o [ value a ↦ co_return a | raised e ↦ co_return 7 ])

abbrev empty : Machine ℕ
empty = record { frames = λ _. none; next = 0; is_set = false }

abbrev one_task : Machine ℕ
one_task = record (put empty 0 (new_frame (continues none) catches)) { next = 1 }

run-eval_example :
    (m' : Machine ℕ) × (run (steps catches + 3) one_task (some 0) ≡ run 3 m' none)
    × Ended one_task m' 0 (continues none) (value 7)
unfolding eval
run-eval_example =
    run-eval catches one_task 0 monostate none 3 refl (omega arith) (λ q le. ground arith)

sync_wait-eval_example :
    (sync_wait (suc (steps catches + suc (suc 0))) empty catches ≡ some (value 7))
    × ((start (suc (steps catches + suc (suc 0))) empty catches).frames 0
        ≡ some (frame (value_type 7) sets_event done))
    × ((q : ℕ) → q ≢ 0 → (start (suc (steps catches + suc (suc 0))) empty catches).frames q ≡ none)
unfolding eval
sync_wait-eval_example = sync_wait-eval catches empty 0 (λ q le. refl)

-- A task is moved to a new object, and the object it was moved from is destroyed.
abbrev moved : Reach (
    perform
      (perform
        (perform (record { objects = []; destroyed = []; next = 0 }) constructs)
        (moves_to_new 0))
      (destructs 0))
unfolding perform
moved =
    later (destructs 0) (later (moves_to_new 0) (later constructs begun tt) (omega arith))
      (omega arith)

owned_once_example : owners (none ∷ some 0 ∷ []) 0 + count 0 [] ≡ 1
unfolding perform
owned_once_example = owned_once 0 moved
