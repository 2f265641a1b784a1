-- ===== src/Task/SyncWait.antt =====
-- include/xcoro/sync_wait.hpp: `sync_wait`, which runs a task and blocks until its event is set.
-- The awaited task is a temporary of the caller; its frame, which the caller destroys behind the call,
-- is destroyed here where its result is read.
use xcoro.Base.{
  ℕ, zero, suc, ◌+◌, ◌≡◌, ◌≢◌, refl, ap, ◌∙◌, Option, none, some, true, false, arith, if◌then◌else◌,
}
use xcoro.Task.{
  Outcome, value, raised, Body, co_return, throws, co_await, ResultSlot, monostate, before, done,
  continues, sets_event, Machine, new_frame, result, put, destroy, resume, run,
}
use xcoro.Task.Await.{
  eval, steps, frame, slot_of, IsFresh, Ended, awaited, resumed, resume-await, run-suc, run-eval,
  goes_on, result-slot_of,
}

-- `sync_wait_event`: `wait` returns once it is set.
unfoldable pub set : {A : Type 0} → Machine A → Machine A
set m = record m { is_set = true }

unfoldable pub reset : {A : Type 0} → Machine A → Machine A
reset m = record m { is_set = false }

module _ {A : Type 0} where
  -- An exception goes on out of the coroutine.
  unfoldable pub hand_on : Outcome A → Body A
  hand_on (value a) = co_return a
  hand_on (raised e) = throws e

  -- `make_sync_wait_task`
  unfoldable pub make_sync_wait_task : Body A → Body A
  unfolding hand_on
  make_sync_wait_task awaitable = co_await awaitable hand_on

  -- `sync_wait_task::start` on a task at the next address, with a new event.
  unfoldable pub start : ℕ → Machine A → Body A → Machine A
  unfolding make_sync_wait_task reset
  start rounds m awaitable =
      let made =
        record (put (reset m) m.next (new_frame sets_event (make_sync_wait_task awaitable))) {
          next = m.next + 1;
        } in
      (run rounds made (some m.next)).0

  -- `wait`, on which `none` blocks since the event is not set, and `result`.
  unfoldable pub wait_result : Machine A → ℕ → Option (Outcome A)
  wait_result m p =
      if m.is_set then elim (m.frames p) [ none ↦ none | some f ↦ some (result f.slot) ] else none

  unfoldable pub sync_wait : ℕ → Machine A → Body A → Option (Outcome A)
  unfolding start wait_result
  sync_wait rounds m awaitable = wait_result (start rounds m awaitable) m.next

  resume-hand_on :
      (m : Machine A) (p : ℕ) (slot : ResultSlot A) (o : Outcome A)
      → m.frames p ≡ some (frame slot sets_event (before (hand_on o)))
      → resume m p ≡ (set (put m p (frame (slot_of o) sets_event done)), none)
  unfolding resume hand_on set
  resume-hand_on m p slot (value a) at = rw (at, resume)
  resume-hand_on m p slot (raised e) at = rw (at, resume)

  -- The coroutine of `sync_wait` at its start, at the address `m.next`.
  abbrev made : Machine A → Body A → Machine A
  made m awaitable =
      record (put (reset m) m.next
        (frame monostate sets_event (before (co_await awaitable hand_on)))) { next = m.next + 1 }

  made-IsFresh : (m : Machine A) (awaitable : Body A) → IsFresh m → IsFresh (made m awaitable)
  unfolding reset
  made-IsFresh m awaitable fresh q le = ground (arith, fresh q)

  -- The machine after `start`.
  record Waited (m m' : Machine A) (o : Outcome A) : Type 0 where
    is_set : m'.is_set ≡ true
    own : m'.frames m.next ≡ some (frame (slot_of o) sets_event done)
    others : (q : ℕ) → q ≢ m.next → m'.frames q ≡ m.frames q

  run-none : (n : ℕ) (m : Machine A) → run n m none ≡ (m, none)
  unfolding run
  run-none zero m = refl
  run-none (suc n) m = refl

  -- The machine at the end, when the awaited task has come to `m₂`.
  abbrev finished : Machine A → Machine A → Machine A → Outcome A → Machine A
  finished m m₁ m₂ o = set (
      put (resumed m₂ m₁.next m.next monostate sets_event (hand_on o)) m.next
        (frame (slot_of o) sets_event done))

  finished-Waited :
      (m m₂ : Machine A) (awaitable : Body A) (o : Outcome A)
      → IsFresh m
      → Ended
          (awaited (made m awaitable) m.next monostate sets_event awaitable hand_on)
          m₂
          (m.next + 1)
          (continues (some m.next))
          o
      → Waited m (finished m (made m awaitable) m₂ o) o
  unfolding set reset destroy
  finished-Waited m m₂ awaitable o fresh e = record {
    is_set = refl;
    own = ground arith;
    others = λ q ne. ground (arith, ne, e.others q, fresh q);
  }

  start-Waited :
      (awaitable : Body A) (m : Machine A) (more : ℕ)
      → IsFresh m
      → (m' : Machine A) × (start (suc (steps awaitable + suc (suc more))) m awaitable ≡ m')
        × Waited m m' (eval awaitable)
  unfolding start
  start-Waited awaitable m more fresh =
      let p = m.next in
      let m₁ = made m awaitable in
      let o = eval awaitable in
      let fresh₁ = made-IsFresh m awaitable fresh in
      let (m₂, ran, e) =
        run-eval awaitable (awaited m₁ p monostate sets_event awaitable hand_on) m₁.next monostate
          (some p) (suc (suc more)) (ground arith) (omega arith)
          (λ q le. ground (arith, fresh₁ q)) in
      let m₃ = resumed m₂ m₁.next p monostate sets_event (hand_on o) in
      (
        finished m m₁ m₂ o,
        ap (λ (r : Machine A × Option ℕ). r.0)
            (run-suc (steps awaitable + suc (suc more)) m₁
                (awaited m₁ p monostate sets_event awaitable hand_on) p (some m₁.next)
                (resume-await m₁ p monostate sets_event awaitable hand_on (ground arith))
              ∙ ran
              ∙ goes_on m₁ m₂ p monostate sets_event awaitable hand_on o (omega arith) fresh₁ e
                  (suc more)
              ∙ run-suc more m₃ (finished m m₁ m₂ o) p none
                  (resume-hand_on m₃ p monostate o (ground arith))
              ∙ run-none more (finished m m₁ m₂ o)),
        finished-Waited m m₂ awaitable o fresh e,
      )

  sync_wait_lem :
      (rounds : ℕ) (m : Machine A) (awaitable : Body A)
      → sync_wait rounds m awaitable ≡ wait_result (start rounds m awaitable) m.next
  unfolding sync_wait
  sync_wait_lem rounds m awaitable = refl

  wait_result-Waited :
      (m m' : Machine A) (o : Outcome A) → Waited m m' o → wait_result m' m.next ≡ some o
  unfolding wait_result
  wait_result-Waited m m' o w =
      rw (w.is_set) (rw (w.own, wait_result) (ap (λ (x : Outcome A). some x) (result-slot_of o)))

  -- In a machine with no frame at a free address, `sync_wait` does not block on a task that comes to an end, and its result is the outcome of the
  -- task's body, the exception included. Of the frames that were made on the way, the only one that is
  -- there afterwards is that of `sync_wait`'s own coroutine, at its final suspension point.
  pub sync_wait-eval :
      (awaitable : Body A) (m : Machine A) (more : ℕ)
      → IsFresh m
      → let rounds = suc (steps awaitable + suc (suc more)) in
        (sync_wait rounds m awaitable ≡ some (eval awaitable))
        × ((start rounds m awaitable).frames m.next
            ≡ some (frame (slot_of (eval awaitable)) sets_event done))
        × ((q : ℕ) → q ≢ m.next → (start rounds m awaitable).frames q ≡ m.frames q)
  sync_wait-eval awaitable m more fresh =
      let (m', e, w) = start-Waited awaitable m more fresh in
      (
        sync_wait_lem (suc (steps awaitable + suc (suc more))) m awaitable
            ∙ ap (λ (x : Machine A). wait_result x m.next) e
            ∙ wait_result-Waited m m' (eval awaitable) w,
        ap (λ (x : Machine A). x.frames m.next) e ∙ w.own,
        λ q ne. ap (λ (x : Machine A). x.frames q) e ∙ w.others q ne,
      )
