-- ===== src/ThreadPool/Examples.antt =====
-- The theorems on include/xcoro/thread_pool.hpp at concrete runs.
use xcoro.Base.{ℕ, ◌≡◌, refl, ◌⊎◌, true, false, some, [], ◌∷◌, arith, length, count}
use xcoro.ThreadPool.{
  Pool, make, schedule, enqueue, push_bottom, try_pop_bottom, try_steal_top, steal_loop,
  try_steal_locked, try_take_task_locked, should_exit_locked, may_wake, exits, runs, take_turn,
  finish_turn, decrement, stop,
}
use xcoro.ThreadPool.Counts.{queued}
use xcoro.ThreadPool.System.{System, Step, Reach, start, later, submits, takes, finishes, stops}
use xcoro.ThreadPool.Inv.{Conserved}
use xcoro.ThreadPool.Drain.{tasks-Conserved, woken_worker-acts, exit-drained}

abbrev two_workers : Pool
two_workers = record {
  thread_count = 2;
  global_queue = [];
  local_queues = [] ∷ [] ∷ [];
  accepting = false;
  pending_tasks = 0;
  active_workers = 0;
}

-- Worker 0 has put task 5 into its own queue, and the pool has been stopped.
abbrev submitted : System
submitted = record {
  pool = record two_workers { local_queues = (5 ∷ []) ∷ [] ∷ []; pending_tasks = 1 };
  accepted = 5 ∷ [];
  running = [];
  finished = [];
}

submitted-Reach : Reach 2 submitted
unfolding make enqueue push_bottom stop
submitted-Reach = later (later start (submits (some 0) true 5 schedule (omega arith))) stops

-- Worker 1 has stolen the task.
abbrev stolen : System
stolen = record {
  pool = record two_workers { active_workers = 1 };
  accepted = 5 ∷ [];
  running = 5 ∷ [];
  finished = [];
}

steals : Step submitted stolen
unfolding may_wake take_turn should_exit_locked try_take_task_locked try_pop_bottom try_steal_locked
    steal_loop try_steal_top decrement
steals = takes 1 0 5 stolen.pool (omega arith) (omega arith) refl refl

abbrev drained : System
drained = record { pool = two_workers; accepted = 5 ∷ []; running = []; finished = 5 ∷ [] }

ends : Step stolen drained
unfolding finish_turn decrement
ends = finishes [] 5 [] refl

leaves : take_turn two_workers 0 1 ≡ exits
unfolding take_turn should_exit_locked
leaves = refl

exit-drained_example :
    (false ≡ false)
    × ([] ≡ drained.running)
    × ((t : ℕ) → count t drained.finished ≡ count t drained.accepted)
exit-drained_example = exit-drained 0 1 (later (later submitted-Reach steals) ends) leaves

tasks-Conserved_example :
    Conserved stolen
    × (stolen.pool.pending_tasks ≡ queued stolen.pool)
    × (stolen.pool.active_workers ≡ length stolen.running)
tasks-Conserved_example = tasks-Conserved (later submitted-Reach steals)

wakes : may_wake submitted.pool ≡ true
unfolding may_wake
wakes = refl

woken_worker-acts_example :
    (take_turn submitted.pool 1 0 ≡ exits)
    ⊎ ((task : ℕ) × (q : Pool) × (take_turn submitted.pool 1 0 ≡ runs task q))
woken_worker-acts_example = woken_worker-acts 1 0 submitted-Reach (omega arith) (omega arith) wakes
