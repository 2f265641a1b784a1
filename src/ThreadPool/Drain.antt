-- ===== src/ThreadPool/Drain.antt =====
-- No accepted task is lost or run twice, and the workers exit only once all have been run.
use xcoro.Base.{
  count, ℕ, ◌+◌, ◌≤◌, ◌<◌, ◌≡◌, refl, ap, ◌⊎◌, inl, inr, true, false, List, [], ◌∷◌, arith, length,
  Option-cases, Bool-cases,
}
use xcoro.ThreadPool.{
  Pool, decrement, try_take_task_locked, should_exit_locked, exits, runs, may_wake, take_turn,
}
use xcoro.ThreadPool.Counts.{total, queued}
use xcoro.ThreadPool.Take.{IsWellFormed, try_take-finds}
use xcoro.ThreadPool.System.{System, Reach}
use xcoro.ThreadPool.Inv.{Conserved, Reach-Inv}

-- In every reachable state each accepted task is queued, running or finished exactly as often as it
-- was accepted, and the counters of the pool are the numbers of queued and of running tasks.
pub tasks-Conserved :
    {threads : ℕ} {s : System}
    → Reach threads s
    → Conserved s
      × (s.pool.pending_tasks ≡ queued s.pool)
      × (s.pool.active_workers ≡ length s.running)
tasks-Conserved r = let v = Reach-Inv r in (v.conserved, v.formed.pending, v.active)

acts :
    (p : Pool) (i first : ℕ)
    → IsWellFormed p
    → i < p.thread_count
    → first < p.thread_count
    → may_wake p ≡ true
    → (take_turn p i first ≡ exits)
      ⊎ ((task : ℕ) × (q : Pool) × (take_turn p i first ≡ runs task q))
unfolding take_turn may_wake
acts p i first v lt lt' wake = elim (Bool-cases (should_exit_locked p)) [
  | inl leaves ↦ inl (ground arith)
  | inr stays ↦
      let (task, q, got) = try_take-finds p i first v lt lt' (ground arith) in
      inr (
        task,
        record q {
          pending_tasks = decrement q.pending_tasks;
          active_workers = q.active_workers + 1;
        },
        ground arith,
      )
]

-- A worker that has been woken under the lock never misses: it exits, or it gets a task.
pub woken_worker-acts :
    {threads : ℕ} {s : System} (i first : ℕ)
    → Reach threads s
    → i < s.pool.thread_count
    → first < s.pool.thread_count
    → may_wake s.pool ≡ true
    → (take_turn s.pool i first ≡ exits)
      ⊎ ((task : ℕ) × (q : Pool) × (take_turn s.pool i first ≡ runs task q))
woken_worker-acts {s = s} i first r lt lt' wake =
    acts s.pool i first (Reach-Inv r).formed lt lt' wake

count-le : (t : ℕ) (q : List ℕ) → count t q ≤ length q
count-le t [] = omega arith
count-le t (x ∷ q) = ground (arith, count-le t q)

total-le : (t : ℕ) (qs : List (List ℕ)) → total (count t) qs ≤ total length qs
total-le t [] = omega arith
total-le t (q ∷ qs) = omega (arith, count-le t q, total-le t qs)

nil_of_length : (xs : List ℕ) → length xs ≡ 0 → xs ≡ []
nil_of_length [] e = refl
nil_of_length (x ∷ xs) e = absurd (omega arith)

exits-inv :
    (p : Pool) (i first : ℕ)
    → take_turn p i first ≡ exits
    → (p.accepting ≡ false) × (p.pending_tasks ≡ 0) × (p.active_workers ≡ 0)
unfolding take_turn should_exit_locked
exits-inv p i first e = elim (Option-cases (try_take_task_locked p i first)) [
  | inl missed ↦ (ground arith, ground arith, ground arith)
  | inr (t, got) ↦ (ground arith, ground arith, ground arith)
]

-- When a worker exits, the pool has been stopped, nothing is running, and every task that was ever
-- accepted has been run to its end, as often as it was accepted.
pub exit-drained :
    {threads : ℕ} {s : System} (i first : ℕ)
    → Reach threads s
    → take_turn s.pool i first ≡ exits
    → (s.pool.accepting ≡ false)
      × (s.running ≡ [])
      × ((t : ℕ) → count t s.finished ≡ count t s.accepted)
exit-drained {s = s} i first r e =
    let v = Reach-Inv r in
    let (shut, none_pending, none_active) = exits-inv s.pool i first e in
    let idle : s.running ≡ [] = nil_of_length s.running (omega (arith, v.active)) in
    (
      shut,
      idle,
      λ t. omega (
        arith,
        v.conserved t,
        ap (count t) idle,
        v.formed.pending,
        count-le t s.pool.global_queue,
        total-le t s.pool.local_queues,
      ),
    )
