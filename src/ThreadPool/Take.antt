-- ===== src/ThreadPool/Take.antt =====
-- `try_take_task_locked`: it takes one queued task, and finds one whenever there is one.
use mathlib.Core.Path.{subst₂}
use native.Mathlib.Decide.{dec_lt}
use xcoro.Base.{
  length-set, count, count-append, length-append, ℕ, zero, suc, ◌+◌, ◌-◌, ◌%◌, ◌<◌, ◌≡◌, refl, sym,
  ap, ◌∙◌, ◌⊎◌, ◌≢◌, inl, inr, Option, none, some, List, [], ◌∷◌, ◌++◌, arith, length, get_or, set,
  ◌==◌, if◌then◌else◌, Option-cases, Bool-cases, mod_small, mod_once,
}
use xcoro.ThreadPool.{
  Pool, try_pop_bottom, try_steal_top, steal_loop, try_steal_locked, try_take_task_locked,
}
use xcoro.ThreadPool.Counts.{
  total, total-set, total-pos, queued, occurrences, try_pop_bottom-inv, try_pop_bottom-none,
}

pub record IsWellFormed (p : Pool) : Type 0 where
  pub some_worker : 0 < p.thread_count
  pub queue_each : length p.local_queues ≡ p.thread_count
  pub pending : p.pending_tasks ≡ queued p

-- `q` is `p` without one occurrence of `task` in its queues.
pub record Removes (p : Pool) (task : ℕ) (q : Pool) : Type 0 where
  pub workers : q.thread_count ≡ p.thread_count
  pub queues : length q.local_queues ≡ length p.local_queues
  pub accepts : q.accepting ≡ p.accepting
  pub pends : q.pending_tasks ≡ p.pending_tasks
  pub actives : q.active_workers ≡ p.active_workers
  pub fewer : queued p ≡ queued q + 1
  pub counted : (t : ℕ) → occurrences t p ≡ occurrences t q + (if task == t then 1 else 0)

-- A task out of one local queue.
local-Removes :
    (p : Pool) (i task : ℕ) (rest : List ℕ)
    → i < length p.local_queues
    → length (get_or p.local_queues i []) ≡ length rest + 1
    → ((t : ℕ) → count t (get_or p.local_queues i []) ≡ count t rest + (if task == t then 1 else 0))
    → Removes p task (record p { local_queues = set p.local_queues i rest })
local-Removes p i task rest lt len cnt = record {
  workers = refl;
  queues = length-set p.local_queues i rest;
  accepts = refl;
  pends = refl;
  actives = refl;
  fewer = omega (arith, total-set length p.local_queues i rest lt);
  counted = λ t. omega (arith, total-set (count t) p.local_queues i rest lt, cnt t);
}

List-cases : (xs : List ℕ) → (xs ≡ []) ⊎ ((x : ℕ) × (rest : List ℕ) × (xs ≡ x ∷ rest))
List-cases [] = inl refl
List-cases (x ∷ rest) = inr (x, rest, refl)

Removes-same :
    (p : Pool) {task task' : ℕ} {q q' : Pool}
    → ◌≡◌ {A = Option (ℕ × Pool)} (some (task, q)) (some (task', q'))
    → Removes p task q
    → Removes p task' q'
Removes-same p {task} {task'} {q} {q'} e r = subst₂ (Removes p) both.0 both.1 r
  where
    both : (task ≡ task') × (q ≡ q')
    both = (ground arith, ground arith)

global-Removes :
    (p : Pool) (x : ℕ) (rest : List ℕ)
    → p.global_queue ≡ x ∷ rest
    → Removes p x (record p { global_queue = rest })
global-Removes p x rest e = record {
  workers = refl;
  queues = refl;
  accepts = refl;
  pends = refl;
  actives = refl;
  fewer = rw e (omega arith);
  counted = λ t. rw e (omega arith);
}

-- The front of a queue, stolen.
stolen-Removes :
    (p : Pool) (i x : ℕ) (rest : List ℕ)
    → i < length p.local_queues
    → get_or p.local_queues i [] ≡ x ∷ rest
    → Removes p x (record p { local_queues = set p.local_queues i rest })
stolen-Removes p i x rest lt e =
    local-Removes p i x rest lt (rw e (omega arith)) (λ t. rw e (omega arith))

-- The back of a queue, popped.
popped-Removes :
    (p : Pool) (i x : ℕ) (rest : List ℕ)
    → i < length p.local_queues
    → try_pop_bottom (get_or p.local_queues i []) ≡ some (x, rest)
    → Removes p x (record p { local_queues = set p.local_queues i rest })
popped-Removes p i x rest lt e =
    local-Removes p i x rest lt (rw split (omega (arith, length-append rest (x ∷ []))))
      (λ t. rw split (omega (arith, count-append t rest (x ∷ []))))
  where
    split : get_or p.local_queues i [] ≡ rest ++ x ∷ []
    split = try_pop_bottom-inv (get_or p.local_queues i []) x rest e

-- One round of the loop.
steal_loop-suc :
    (rounds : ℕ) (p : Pool) (thief start i : ℕ)
    → ((steal_loop (suc rounds) p thief start i ≡ steal_loop rounds p thief start (i + 1))
        × (((start + i) % p.thread_count ≡ thief)
            ⊎ (get_or p.local_queues ((start + i) % p.thread_count) [] ≡ [])))
      ⊎ ((x : ℕ) × (rest : List ℕ) × (get_or p.local_queues ((start + i) % p.thread_count) []
            ≡ x ∷ rest)
          × (steal_loop (suc rounds) p thief start i
              ≡ some (
                x,
                record p { local_queues = set p.local_queues ((start + i) % p.thread_count) rest },
              )))
unfolding steal_loop try_steal_top
steal_loop-suc rounds p thief start i = elim (Bool-cases ((start + i) % p.thread_count == thief)) [
  | inl own ↦ inl (ground arith, inl (ground arith))
  | inr other ↦ elim (List-cases (get_or p.local_queues ((start + i) % p.thread_count) [])) [
    | inl empty ↦ inl (ground arith, inr empty)
    | inr (x, rest, e) ↦ inr (x, rest, e, ground arith)
  ]
]

steal_loop-Removes :
    (rounds : ℕ) (p : Pool) (thief start i : ℕ) (task : ℕ) (q : Pool)
    → 0 < p.thread_count
    → length p.local_queues ≡ p.thread_count
    → steal_loop rounds p thief start i ≡ some (task, q)
    → Removes p task q
steal_loop-Removes zero p thief start i task q pos len e = unfold steal_loop in cc
steal_loop-Removes (suc rounds) p thief start i task q pos len e =
    elim (steal_loop-suc rounds p thief start i) [
      | inl (skip, _) ↦
          steal_loop-Removes rounds p thief start (i + 1) task q pos len (sym skip ∙ e)
      | inr (x, rest, at, hit) ↦
          Removes-same p (sym hit ∙ e)
            (stolen-Removes p ((start + i) % p.thread_count) x rest (omega arith) at)
    ]

-- What is taken has been queued, and is taken once.
pub try_take-Removes :
    (p : Pool) (i start : ℕ) (task : ℕ) (q : Pool)
    → IsWellFormed p
    → i < p.thread_count
    → try_take_task_locked p i start ≡ some (task, q)
    → Removes p task q
unfolding try_take_task_locked try_steal_locked
try_take-Removes p i start task q v lt e =
    elim (Option-cases (try_pop_bottom (get_or p.local_queues i []))) [
      | inr (t, popped) ↦
          Removes-same p (ground arith)
            (popped-Removes p i t.0 t.1 (omega (arith, v.queue_each)) popped)
      | inl nothing ↦ elim (List-cases p.global_queue) [
        | inr (x, rest, front) ↦ Removes-same p (ground arith) (global-Removes p x rest front)
        | inl empty ↦
            steal_loop-Removes p.thread_count p i start 0 task q v.some_worker v.queue_each
              (ground arith)
      ]
    ]

-- The loop meets every queue but the thief's own: `d` rounds on it is at queue `start + i + d`.
steal_loop-finds :
    (rounds d : ℕ) (p : Pool) (thief start i : ℕ)
    → d < rounds
    → 0 < length (get_or p.local_queues ((start + (i + d)) % p.thread_count) [])
    → (start + (i + d)) % p.thread_count ≢ thief
    → steal_loop rounds p thief start i ≢ none
steal_loop-finds zero d p thief start i lt pos ne e = absurd (omega arith)
steal_loop-finds (suc rounds) zero p thief start i lt pos ne e =
    let here : start + (i + zero) ≡ start + i = omega arith in
    elim (steal_loop-suc rounds p thief start i) [
      | inl (skip, inl own) ↦ ne (rw here own)
      | inl (skip, inr empty) ↦ ground arith
      | inr (x, rest, at, hit) ↦ cc
    ]
steal_loop-finds (suc rounds) (suc d) p thief start i lt pos ne e =
    let on : start + (i + suc d) ≡ start + (i + 1 + d) = omega arith in
    elim (steal_loop-suc rounds p thief start i) [
      | inl (skip, _) ↦
          steal_loop-finds rounds d p thief start (i + 1) (omega arith) (rw on at pos)
            (λ own. ne (rw on own)) (sym skip ∙ e)
      | inr (x, rest, at, hit) ↦ cc
    ]

-- The round at which the loop meets a queue.
round_of : (start j n : ℕ) → start < n → j < n → (d : ℕ) × (d < n) × ((start + (0 + d)) % n ≡ j)
round_of start j n lt lt' = elim (dec_lt j start) [
  | yes wraps ↦
      let sum : start + (0 + (j + n - start)) ≡ j + n = omega arith in
      (
        j + n - start,
        omega arith,
        ap (λ (k : ℕ). k % n) sum ∙ (mod_once (j + n) n (omega arith) (omega arith) ∙ omega arith),
      )
  | no ahead ↦
      let sum : start + (0 + (j - start)) ≡ j = omega arith in
      (j - start, omega arith, ap (λ (k : ℕ). k % n) sum ∙ mod_small j n lt')
]

-- A worker that gets nothing has found its own queue and the global one empty, and stolen nothing.
record Empties (p : Pool) (i start : ℕ) : Type 0 where
  own : get_or p.local_queues i [] ≡ []
  global : p.global_queue ≡ []
  stolen : try_steal_locked p i start ≡ none

missed-Empties :
    (p : Pool) (i start : ℕ) → try_take_task_locked p i start ≡ none → Empties p i start
unfolding try_take_task_locked
missed-Empties p i start e = elim (Option-cases (try_pop_bottom (get_or p.local_queues i []))) [
  | inr (t, popped) ↦ absurd (ground arith)
  | inl nothing ↦ elim (List-cases p.global_queue) [
    | inr (x, rest, front) ↦ absurd (ground arith)
    | inl empty ↦ record {
      own = try_pop_bottom-none (get_or p.local_queues i []) nothing;
      global = empty;
      stolen = ground arith;
    }
  ]
]

none_left :
    (p : Pool) (i start : ℕ)
    → IsWellFormed p
    → i < p.thread_count
    → start < p.thread_count
    → try_take_task_locked p i start ≡ none
    → p.pending_tasks ≡ 0
unfolding try_steal_locked
none_left p i start v lt lt' e = elim (dec_lt 0 (total length p.local_queues)) [
  | no nothing ↦ omega (arith, v.pending, ap length m.global)
  | yes pos ↦
      let (j, below, filled) = total-pos p.local_queues pos in
      let (d, few, at) = round_of start j p.thread_count lt' (omega (arith, v.queue_each)) in
      let other : j ≢ i = λ same.
        let empty : get_or p.local_queues j [] ≡ [] = rw same m.own in
        absurd (omega (arith, ap length empty, filled)) in
      let stolen : steal_loop p.thread_count p i start 0 ≡ none =
        ground (arith, m.stolen, v.queue_each) in
      absurd (
        steal_loop-finds p.thread_count d p i start 0 few (rw at filled)
          (λ same. other (sym at ∙ same)) stolen)
]
  where
    m : Empties p i start
    m = missed-Empties p i start e

-- A worker that holds the lock while a task is queued gets one, whichever victim comes first: the
-- guard for the case that it does not is never needed.
pub try_take-finds :
    (p : Pool) (i start : ℕ)
    → IsWellFormed p
    → i < p.thread_count
    → start < p.thread_count
    → p.pending_tasks ≢ 0
    → (task : ℕ) × (q : Pool) × (try_take_task_locked p i start ≡ some (task, q))
try_take-finds p i start v lt lt' some_pending =
    elim (Option-cases (try_take_task_locked p i start)) [
      | inl missed ↦ absurd (some_pending (none_left p i start v lt lt' missed))
      | inr (t, got) ↦ (t.0, t.1, got)
    ]
