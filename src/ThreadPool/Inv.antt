-- ===== src/ThreadPool/Inv.antt =====
-- The invariant of the pool: its counters count, and no task is lost or run twice.
use xcoro.Base.{
  length-set, count, count-append, ℕ, ◌+◌, ◌<◌, ◌≡◌, refl, ap, ◌∙◌, ◌⊎◌, inl, inr, Bool, true,
  false, not, ◌&&◌, subst, Option, none, some, List, [], ◌∷◌, ◌++◌, arith, length, get_or, set,
  length-append, length-replicate, ◌==◌, if◌then◌else◌, Option-cases, Bool-cases,
}
use xcoro.ThreadPool.{
  EnqueueKind, schedule, yield, Pool, make, decrement, enqueue, try_take_task_locked, runs,
  take_turn, finish_turn, stop,
}
use xcoro.ThreadPool.Counts.{total-set, total-replicate, occurrences}
use xcoro.ThreadPool.Take.{IsWellFormed, Removes, try_take-Removes}
use xcoro.ThreadPool.System.{
  System, init, WorkerFits, Step, submits, takes, finishes, stops, Reach, start, later,
}

-- Every accepted task is in a queue, running or finished, as often as it was accepted.
abbrev pub Conserved : System → Type 0
Conserved s =
    (t : ℕ) → occurrences t s.pool + count t s.running + count t s.finished ≡ count t s.accepted

pub record Inv (s : System) : Type 0 where
  pub formed : IsWellFormed s.pool
  pub active : s.pool.active_workers ≡ length s.running
  pub conserved : Conserved s

start-Inv : (threads : ℕ) → Inv (init threads)
unfolding make
start-Inv threads = record {
  formed = record {
    some_worker = ground arith;
    queue_each = length-replicate (if threads == 0 then 1 else threads) [];
    pending = omega (arith, total-replicate length (if threads == 0 then 1 else threads) refl);
  };
  active = refl;
  conserved =
      λ t. omega (arith, total-replicate (count t) (if threads == 0 then 1 else threads) refl);
}

-- `p` with a task at the end of the global queue, or at the bottom of a local one.
abbrev pushed_globally : Pool → ℕ → Pool
pushed_globally p handle = record p {
  global_queue = p.global_queue ++ handle ∷ [];
  pending_tasks = p.pending_tasks + 1;
}

abbrev pushed_locally : Pool → ℕ → ℕ → Pool
pushed_locally p i handle = record p {
  local_queues = set p.local_queues i (get_or p.local_queues i [] ++ handle ∷ []);
  pending_tasks = p.pending_tasks + 1;
}

-- The ways of `enqueue`.
enqueue-cases :
    (p : Pool) (worker : Option ℕ) (runnable : Bool) (handle : ℕ) (kind : EnqueueKind)
    → (enqueue p worker runnable handle kind ≡ (p, false))
      ⊎ ((enqueue p worker runnable handle kind ≡ (pushed_globally p handle, true))
          ⊎ ((i : ℕ) × (worker ≡ some i)
              × (enqueue p worker runnable handle kind ≡ (pushed_locally p i handle, true))))
unfolding enqueue
enqueue-cases p none runnable handle kind = ground arith
enqueue-cases p (some i) runnable handle schedule = elim (Bool-cases (runnable && p.accepting)) [
  | inl open_pool ↦ inr (inr (i, refl, ground arith))
  | inr shut ↦ inl (ground arith)
]
enqueue-cases p (some i) runnable handle yield = ground arith

globally-Inv :
    (s : System) (handle : ℕ)
    → Inv s
    → Inv (record s { pool = pushed_globally s.pool handle; accepted = handle ∷ s.accepted })
globally-Inv s handle v = record {
  formed = record {
    some_worker = v.formed.some_worker;
    queue_each = v.formed.queue_each;
    pending = omega (arith, v.formed.pending, length-append s.pool.global_queue (handle ∷ []));
  };
  active = v.active;
  conserved = λ t. omega (arith, v.conserved t, count-append t s.pool.global_queue (handle ∷ []));
}

locally-Inv :
    (s : System) (i handle : ℕ)
    → i < s.pool.thread_count
    → Inv s
    → Inv (record s { pool = pushed_locally s.pool i handle; accepted = handle ∷ s.accepted })
locally-Inv s i handle lt v = record {
  formed = record {
    some_worker = v.formed.some_worker;
    queue_each = length-set s.pool.local_queues i new ∙ v.formed.queue_each;
    pending = omega (
      arith,
      v.formed.pending,
      total-set length s.pool.local_queues i new within,
      length-append old (handle ∷ []),
    );
  };
  active = v.active;
  conserved = λ t. omega (
    arith,
    v.conserved t,
    total-set (count t) s.pool.local_queues i new within,
    count-append t old (handle ∷ []),
  );
}
  where
    old : List ℕ
    old = get_or s.pool.local_queues i []

    new : List ℕ
    new = old ++ handle ∷ []

    within : i < length s.pool.local_queues
    within = omega (arith, v.formed.queue_each)

submits-Inv :
    (s : System) (worker : Option ℕ) (runnable : Bool) (handle : ℕ) (kind : EnqueueKind)
    → WorkerFits s.pool worker
    → Inv s
    → Inv (record s {
      pool = (enqueue s.pool worker runnable handle kind).0;
      accepted =
          if (enqueue s.pool worker runnable handle kind).1
          then handle ∷ s.accepted
          else s.accepted;
    })
submits-Inv s worker runnable handle kind fits v =
    elim (enqueue-cases s.pool worker runnable handle kind) [
      | inl refused ↦ rw refused v
      | inr (inl globally) ↦ rw globally (globally-Inv s handle v)
      | inr (inr (i, own, locally)) ↦
          rw locally (locally-Inv s i handle (subst (WorkerFits s.pool) own fits) v)
    ]

-- What a worker takes under the lock.
take_turn-inv :
    (p : Pool) (i first task : ℕ) (q : Pool)
    → take_turn p i first ≡ runs task q
    → (r : Pool) × (try_take_task_locked p i first ≡ some (task, r))
      × (q ≡ record r {
        pending_tasks = decrement r.pending_tasks;
        active_workers = r.active_workers + 1;
      })
unfolding take_turn
take_turn-inv p i first task q e = elim (Option-cases (try_take_task_locked p i first)) [
  | inl missed ↦ absurd (ground arith)
  | inr (t, got) ↦ (t.1, ground arith, ground arith)
]

taken-Inv :
    (s : System) (i task : ℕ) (r : Pool)
    → Removes s.pool task r
    → Inv s
    → Inv (record s {
      pool = record r {
        pending_tasks = decrement r.pending_tasks;
        active_workers = r.active_workers + 1;
      };
      running = task ∷ s.running;
    })
unfolding decrement
taken-Inv s i task r out v = record {
  formed = record {
    some_worker = omega (arith, out.workers, v.formed.some_worker);
    queue_each = omega (arith, out.queues, out.workers, v.formed.queue_each);
    pending = ground (arith, out.pends, out.fewer, v.formed.pending);
  };
  active = omega (arith, out.actives, v.active);
  conserved = λ t. omega (arith, out.counted t, v.conserved t);
}

-- The queues and their count are all that it takes.
reformed :
    (p q : Pool)
    → q.thread_count ≡ p.thread_count
    → q.global_queue ≡ p.global_queue
    → q.local_queues ≡ p.local_queues
    → q.pending_tasks ≡ p.pending_tasks
    → IsWellFormed p
    → IsWellFormed q
reformed p q threads global each pending v = record {
  some_worker = omega (arith, v.some_worker);
  queue_each = rw (threads, each) v.queue_each;
  pending = rw (pending, global, each) v.pending;
}

finishes-Inv :
    (s : System) (before : List ℕ) (task : ℕ) (after : List ℕ)
    → s.running ≡ before ++ task ∷ after
    → Inv s
    → Inv (record s {
      pool = (finish_turn s.pool).0;
      running = before ++ after;
      finished = task ∷ s.finished;
    })
unfolding finish_turn decrement
finishes-Inv s before task after e v = record {
  formed = reformed s.pool (finish_turn s.pool).0 refl refl refl refl v.formed;
  active = ground (
    arith,
    v.active,
    ap length e,
    length-append before (task ∷ after),
    length-append before after,
  );
  conserved = λ t. omega (
    arith,
    v.conserved t,
    ap (count t) e,
    count-append t before (task ∷ after),
    count-append t before after,
  );
}

stops-Inv : (s : System) → Inv s → Inv (record s { pool = (stop s.pool).0 })
unfolding stop
stops-Inv s v = elim (Bool-cases (not s.pool.accepting)) [
  | inl stopped ↦ rw (stopped, stop) v
  | inr going ↦
      rw (going, stop)
        (record {
          formed =
              reformed s.pool (record (s.pool) { accepting = false }) refl refl refl refl v.formed;
          active = v.active;
          conserved = v.conserved;
        })
]

takes-Inv :
    (s : System) (i first task : ℕ) (q : Pool)
    → i < s.pool.thread_count
    → take_turn s.pool i first ≡ runs task q
    → Inv s
    → Inv (record s { pool = q; running = task ∷ s.running })
takes-Inv s i first task q lt e v =
    let (r, got, same) = take_turn-inv s.pool i first task q e in
    rw same (taken-Inv s i task r (try_take-Removes s.pool i first task r v.formed lt got) v)

pub Step-Inv : {s t : System} → Step s t → Inv s → Inv t
Step-Inv {s} (submits worker runnable handle kind fits) v =
    submits-Inv s worker runnable handle kind fits v
Step-Inv {s} (takes i first task q lt lt' wake e) v = takes-Inv s i first task q lt e v
Step-Inv {s} (finishes before task after e) v = finishes-Inv s before task after e v
Step-Inv {s} stops v = stops-Inv s v

pub Reach-Inv : {threads : ℕ} {s : System} → Reach threads s → Inv s
Reach-Inv {threads} start = start-Inv threads
Reach-Inv (later r st) = Step-Inv st (Reach-Inv r)
