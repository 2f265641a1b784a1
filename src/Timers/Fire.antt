-- ===== src/Timers/Fire.antt =====
-- A timer that is due is fired, no other is, and none twice.
use xcoro.Base.{
  ℕ, ◌+◌, ◌-◌, ◌*◌, ◌/◌, ◌^◌, ◌≤◌, ◌<◌, ◌≡◌, refl, sym, ap, Bool, true, false, List, [], ◌∷◌, arith,
  count, count-append, leb, ltb, mod_small, ◌==◌, ◌||◌, subst, ◌∙◌, if◌then◌else◌,
}
use xcoro.Timers.{
  TimerItem, IoContext, heap_push, collect_due, enqueue_ready, complete_timer, complete_timers,
  resume_due_timers, timeout_ms,
}

-- No deadline is before `low`, and they are in order.
abbrev pub IsSorted : ℕ → List TimerItem → Type 0
IsSorted low [] = Unit {0}
IsSorted low (item ∷ items) = (low ≤ item.deadline) × IsSorted item.deadline items

IsSorted-lower :
    (low low' : ℕ) (items : List TimerItem) → low' ≤ low → IsSorted low items → IsSorted low' items
IsSorted-lower low low' [] le h = tt
IsSorted-lower low low' (item ∷ items) le h = (omega (arith, h.0), h.1)

-- A timer that is pushed keeps the queue in the order of the deadlines.
pub heap_push-IsSorted :
    (low : ℕ) (items : List TimerItem) (item : TimerItem)
    → low ≤ item.deadline
    → IsSorted low items
    → IsSorted low (heap_push items item)
unfolding heap_push
heap_push-IsSorted low [] item le h = (le, tt)
heap_push-IsSorted low (x ∷ xs) item le h =
    go (leb x.deadline item.deadline) refl
      (λ below. heap_push-IsSorted x.deadline xs item below h.1)
  where
    go :
        (b : Bool)
        → leb x.deadline item.deadline ≡ b
        → (x.deadline ≤ item.deadline → IsSorted x.deadline (heap_push xs item))
        → IsSorted low (if b then x ∷ heap_push xs item else item ∷ x ∷ xs)
    go true e ih = (h.0, ih (ground arith))
    go false e ih = (le, (ground arith, h.1))

-- All that stay are later than `now`.
abbrev pub AllLater : ℕ → List TimerItem → Type 0
AllLater now [] = Unit {0}
AllLater now (item ∷ items) = (now < item.deadline) × AllLater now items

-- The states of the items that are due.
abbrev pub due_states : ℕ → List TimerItem → List ℕ
due_states now [] = []
due_states now (item ∷ items) =
    if leb item.deadline now then item.state ∷ due_states now items else due_states now items

later_than :
    (now low : ℕ) (items : List TimerItem)
    → now < low
    → IsSorted low items
    → AllLater now items × (due_states now items ≡ [])
later_than now low [] lt h = (tt, refl)
later_than now low (item ∷ items) lt h =
    let (rest, none_due) = later_than now item.deadline items (omega (arith, h.0)) h.1 in
    ((omega (arith, h.0), rest), ground (arith, h.0))

-- `collect_due` takes just the timers that are due, in the queue's order.
pub collect_due_lem :
    (items : List TimerItem) (now low : ℕ)
    → IsSorted low items
    → ((collect_due items now).0 ≡ due_states now items) × AllLater now (collect_due items now).1
unfolding collect_due
collect_due_lem [] now low h = (refl, tt)
collect_due_lem (item ∷ items) now low h =
    go (leb item.deadline now) refl (collect_due_lem items now item.deadline h.1)
  where
    go :
        (b : Bool)
        → leb item.deadline now ≡ b
        → ((collect_due items now).0 ≡ due_states now items)
          × AllLater now (collect_due items now).1
        → let r : List ℕ × List TimerItem =
            if b
            then (item.state ∷ (collect_due items now).0, (collect_due items now).1)
            else ([], item ∷ items) in
          (r.0 ≡ (if b then item.state ∷ due_states now items else due_states now items))
          × AllLater now r.1
    go true e ih = (ap (λ (ps : List ℕ). item.state ∷ ps) ih.0, ih.1)
    go false e ih =
        let (rest, none_due) = later_than now item.deadline items (ground arith) h.1 in
        (sym none_due, (ground arith, rest))

-- Each timer's coroutine is told by its address.
abbrev pub HandlesFit : IoContext → Type 0
HandlesFit c = (p : ℕ) → (c.timers p).handle ≡ p

complete_timer-heap : (c : IoContext) (q : ℕ) (b : Bool) → (complete_timer c q b).heap ≡ c.heap
unfolding complete_timer enqueue_ready
complete_timer-heap c q b = ground arith

complete_timer-HandlesFit :
    (c : IoContext) (q : ℕ) (b : Bool) → HandlesFit c → HandlesFit (complete_timer c q b)
unfolding complete_timer enqueue_ready
complete_timer-HandlesFit c q b h p = ground (arith, h p)

complete_timer-completed :
    (c : IoContext) (q : ℕ) (b : Bool) (p : ℕ)
    → ((complete_timer c q b).timers p).completed ≡ ((c.timers p).completed || (q == p))
unfolding complete_timer enqueue_ready
complete_timer-completed c q b p = ground arith

complete_timer-ready :
    (c : IoContext) (q : ℕ) (b : Bool) (p : ℕ)
    → HandlesFit c
    → count p (complete_timer c q b).ready
      ≡ count p c.ready + (if (c.timers p).completed then 0 else if q == p then 1 else 0)
unfolding complete_timer enqueue_ready
complete_timer-ready c q b p h =
    ground (arith, h q, count-append p c.ready ((c.timers q).handle ∷ []))

-- Of the timers in a list, those that were not completed are put into the ready queue, once each,
-- even if the list holds one twice.
complete_timers_lem :
    (c : IoContext) (ps : List ℕ)
    → HandlesFit c
    → let c' = complete_timers c ps in
      (c'.heap ≡ c.heap)
      × HandlesFit c'
      × ((p : ℕ)
          → ((c'.timers p).completed ≡ ((c.timers p).completed || ltb 0 (count p ps)))
            × (count p c'.ready
                ≡ count p c.ready
                  + (if (c.timers p).completed then 0 else if ltb 0 (count p ps) then 1 else 0)))
unfolding complete_timers
complete_timers_lem c [] h = (refl, h, λ p. (ground arith, ground arith))
complete_timers_lem c (q ∷ ps) h =
    let next = complete_timer c q (c.timers q).cancelled in
    let (heap, fits, rest) =
      complete_timers_lem next ps (complete_timer-HandlesFit c q (c.timers q).cancelled h) in
    (
      heap ∙ complete_timer-heap c q (c.timers q).cancelled,
      fits,
      λ p. (
        ground (arith, rest p, complete_timer-completed c q (c.timers q).cancelled p),
        ground (
          arith,
          rest p,
          complete_timer-completed c q (c.timers q).cancelled p,
          complete_timer-ready c q (c.timers q).cancelled p h,
        ),
      ),
    )

-- A turn of the event loop fires just the timers that are due: those that stay in the queue are
-- later; each that is due and was not completed is put into the ready queue once; and no other
-- timer's coroutine is put there, nor one that was completed before, by its cancellation or otherwise.
pub resume_due_timers-fires :
    (c : IoContext) (now low : ℕ)
    → IsSorted low c.heap
    → HandlesFit c
    → let c' = resume_due_timers c now in
      AllLater now c'.heap
      × ((p : ℕ)
          → ((c'.timers p).completed
              ≡ ((c.timers p).completed || ltb 0 (count p (due_states now c.heap))))
            × (count p c'.ready
                ≡ count p c.ready
                  + (if (c.timers p).completed
                      then 0
                      else if ltb 0 (count p (due_states now c.heap))
                      then 1
                      else 0)))
unfolding resume_due_timers
resume_due_timers-fires c now low sorted h =
    let (due, later) = collect_due_lem c.heap now low sorted in
    let (heap, fits, fired) =
      complete_timers_lem (record c { heap = (collect_due c.heap now).1 })
        (collect_due c.heap now).0 h in
    (
      subst (AllLater now) (sym heap) later,
      subst
          (λ (ps : List ℕ).
            (p : ℕ)
            → (((resume_due_timers c now).timers p).completed
                ≡ ((c.timers p).completed || ltb 0 (count p ps)))
              × (count p (resume_due_timers c now).ready
                  ≡ count p c.ready
                    + (if (c.timers p).completed then 0 else if ltb 0 (count p ps) then 1 else 0)))
          due fired,
    )

complete_timer-keeps :
    (c : IoContext) (p : ℕ) (b : Bool) (h : ℕ)
    → count h c.ready ≤ count h (complete_timer c p b).ready
unfolding complete_timer enqueue_ready
complete_timer-keeps c p b h = ground (arith, count-append h c.ready ((c.timers p).handle ∷ []))

-- Firing timers takes nothing out of the ready queue.
pub complete_timers-keep :
    (c : IoContext) (ps : List ℕ) (h : ℕ) → count h c.ready ≤ count h (complete_timers c ps).ready
unfolding complete_timers enqueue_ready
complete_timers-keep c [] h = omega arith
complete_timers-keep c (p ∷ ps) h = omega (
  arith,
  complete_timer-keeps c p (c.timers p).cancelled h,
  complete_timers-keep (complete_timer c p (c.timers p).cancelled) ps h,
)

-- The timeout never lets `epoll_wait` sleep beyond the next deadline, if that is less than 2 ^ 31
-- milliseconds away.
pub timeout_ms-bounded :
    (item : TimerItem) (items : List TimerItem) (now : ℕ)
    → now < item.deadline
    → item.deadline - now < 2 ^ 31 * 1000000
    → now + timeout_ms (item ∷ items) now * 1000000 ≤ item.deadline
unfolding timeout_ms
timeout_ms-bounded item items now lt near =
    ground (arith, mod_small ((item.deadline - now) / 1000000) (2 ^ 32))
