-- ===== src/ThreadPool.antt =====
-- include/xcoro/thread_pool.hpp: the work-stealing thread pool.
-- `state_mutex_` makes each of its critical sections one step. A deque is a list with its front
-- first, a task is a coroutine handle, a number. The victim that the random engine picks first is an
-- argument. Signals of the condition variable are left out: a worker's `wait` is its predicate.
pub mod Counts
pub mod Take
pub mod System
pub mod Inv
pub mod Drain
mod Examples
use xcoro.Base.{
  ℕ, zero, suc, ◌+◌, ◌-◌, ◌%◌, ◌^◌, Bool, true, false, not, ◌&&◌, ◌||◌, Option, none, some, List,
  [], ◌∷◌, ◌++◌, length, get_or, set, replicate, leb, ◌==◌, if◌then◌else◌,
}

pub data EnqueueKind : Type 0 where
  schedule yield : EnqueueKind

pub record Pool : Type 0 where
  pub thread_count : ℕ
  pub global_queue : List ℕ
  pub local_queues : List (List ℕ)
  pub accepting : Bool
  pub pending_tasks : ℕ
  pub active_workers : ℕ

-- `thread_count == 0 ? 1u : thread_count`
unfoldable pub make : ℕ → Pool
make n =
    let count = if n == 0 then 1 else n in
    record {
      thread_count = count;
      global_queue = [];
      local_queues = replicate count [];
      accepting = true;
      pending_tasks = 0;
      active_workers = 0;
    }

-- `--` on a `size_t`.
unfoldable pub decrement : ℕ → ℕ
decrement zero = 2 ^ 64 - 1
decrement (suc n) = n

unfoldable pub push_bottom : List ℕ → ℕ → List ℕ
push_bottom queue handle = queue ++ handle ∷ []

-- The back of the deque, and the rest.
unfoldable pub try_pop_bottom : List ℕ → Option (ℕ × List ℕ)
try_pop_bottom [] = none
try_pop_bottom (x ∷ xs) =
    let later = try_pop_bottom xs in
    elim later [ none ↦ some (x, []) | some (y, ys) ↦ some (y, x ∷ ys) ]

-- The front of the deque, and the rest.
unfoldable pub try_steal_top : List ℕ → Option (ℕ × List ℕ)
try_steal_top [] = none
try_steal_top (x ∷ xs) = some (x, xs)

-- `worker` is `current_worker_index()`, `none` for -1; `runnable` is `handle && !handle.done()`.
unfoldable pub enqueue : Pool → Option ℕ → Bool → ℕ → EnqueueKind → Pool × Bool
unfolding push_bottom
enqueue p worker runnable handle kind =
    let queued_globally : Pool = record p {
      global_queue = p.global_queue ++ handle ∷ [];
      pending_tasks = p.pending_tasks + 1;
    } in
    let queued : Pool = elim worker [
      | none ↦ queued_globally
      | some i ↦ elim kind [
        | schedule ↦ record p {
          local_queues = set p.local_queues i (push_bottom (get_or p.local_queues i []) handle);
          pending_tasks = p.pending_tasks + 1;
        }
        | yield ↦ queued_globally
      ]
    ] in
    if not runnable then (p, false) else if not p.accepting then (p, false) else (queued, true)

-- `await_suspend` of the two operations; where it is false the coroutine goes on at once.
unfoldable pub schedule_suspend : Pool → Option ℕ → Bool → ℕ → Pool × Bool
unfolding enqueue
schedule_suspend p worker runnable handle = enqueue p worker runnable handle schedule

unfoldable pub yield_suspend : Pool → Option ℕ → Bool → ℕ → Pool × Bool
unfolding enqueue
yield_suspend p worker runnable handle = enqueue p worker runnable handle yield

-- The loop of `try_steal_locked`, with `rounds` left.
unfoldable pub steal_loop : ℕ → Pool → ℕ → ℕ → ℕ → Option (ℕ × Pool)
unfolding try_steal_top
steal_loop zero p thief start i = none
steal_loop (suc rounds) p thief start i =
    let victim = (start + i) % p.thread_count in
    let next = steal_loop rounds p thief start (i + 1) in
    if victim == thief then next else elim (try_steal_top (get_or p.local_queues victim [])) [
      | none ↦ next
      | some (task, rest) ↦ some (task, record p { local_queues = set p.local_queues victim rest })
    ]

unfoldable pub try_steal_locked : Pool → ℕ → ℕ → Option (ℕ × Pool)
try_steal_locked p thief start =
    if leb p.thread_count 1 then none else steal_loop p.thread_count p thief start 0

unfoldable pub try_take_task_locked : Pool → ℕ → ℕ → Option (ℕ × Pool)
try_take_task_locked p i start = elim (try_pop_bottom (get_or p.local_queues i [])) [
  | some (task, rest) ↦ some (task, record p { local_queues = set p.local_queues i rest })
  | none ↦ elim p.global_queue [
    | task ∷ rest ↦ some (task, record p { global_queue = rest })
    | [] ↦ try_steal_locked p i start
  ]
]

unfoldable pub should_exit_locked : Pool → Bool
should_exit_locked p = not p.accepting && p.pending_tasks == 0 && p.active_workers == 0

-- What a worker does in its first critical section, once `wait` has returned.
pub data Turn : Type 0 where
  exits : Turn
  retries : Turn
  runs : ℕ → Pool → Turn

-- The predicate that the worker waits for.
unfoldable pub may_wake : Pool → Bool
may_wake p = not (p.pending_tasks == 0) || should_exit_locked p

unfoldable pub take_turn : Pool → ℕ → ℕ → Turn
take_turn p i start =
    if should_exit_locked p then exits else elim (try_take_task_locked p i start) [
      | none ↦ retries
      | some (task, q) ↦ runs task (record q {
        pending_tasks = decrement q.pending_tasks;
        active_workers = q.active_workers + 1;
      })
    ]

-- The second critical section, and whether all workers are woken.
unfoldable pub finish_turn : Pool → Pool × Bool
finish_turn p =
    let p' : Pool = record p { active_workers = decrement p.active_workers } in
    (p', should_exit_locked p')

-- The critical section of `stop`, and whether it goes on to join the workers.
unfoldable pub stop : Pool → Pool × Bool
stop p = if not p.accepting then (p, false) else (record p { accepting = false }, true)
