-- ===== src/ThreadPool/System.antt =====
-- The pool with its workers and its clients, interleaved in any order.
-- Besides the pool the system keeps the tasks that were accepted, those that a worker is resuming
-- (outside the lock) and those whose `resume()` has returned.
use xcoro.Base.{ℕ, ◌<◌, ◌≡◌, Bool, true, Option, none, some, List, [], ◌∷◌, ◌++◌, if◌then◌else◌}
use xcoro.ThreadPool.{
  EnqueueKind, Pool, make, enqueue, runs, may_wake, take_turn, finish_turn, stop,
}

pub record System : Type 0 where
  pub pool : Pool
  pub accepted : List ℕ
  pub running : List ℕ
  pub finished : List ℕ

abbrev pub init : ℕ → System
init threads = record { pool = make threads; accepted = []; running = []; finished = [] }

-- A worker knows its own index; another thread has none.
abbrev pub WorkerFits : Pool → Option ℕ → Type 0
WorkerFits p none = Unit {0}
WorkerFits p (some i) = i < p.thread_count

pub data Step (s : System) : System → Type 0 where
  submits :
      (worker : Option ℕ) (runnable : Bool) (handle : ℕ) (kind : EnqueueKind)
      → WorkerFits s.pool worker
      → Step s (record s {
        pool = (enqueue s.pool worker runnable handle kind).0;
        accepted =
            if (enqueue s.pool worker runnable handle kind).1
            then handle ∷ s.accepted
            else s.accepted;
      })
  takes :
      (i start task : ℕ) (q : Pool)
      → i < s.pool.thread_count
      → start < s.pool.thread_count
      → may_wake s.pool ≡ true
      → take_turn s.pool i start ≡ runs task q
      → Step s (record s { pool = q; running = task ∷ s.running })
  finishes :
      (before : List ℕ) (task : ℕ) (after : List ℕ)
      → s.running ≡ before ++ task ∷ after
      → Step s (record s {
        pool = (finish_turn s.pool).0;
        running = before ++ after;
        finished = task ∷ s.finished;
      })
  stops : Step s (record s { pool = (stop s.pool).0 })

pub data Reach (threads : ℕ) : System → Type 0 where
  start : Reach threads (init threads)
  later : {s t : System} → Reach threads s → Step s t → Reach threads t
