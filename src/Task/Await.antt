-- ===== src/Task/Await.antt =====
-- What a coroutine and all that it awaits come to: the machine against a direct evaluation.
use xcoro.Base.{ℕ, suc, ◌+◌, ◌≤◌, ◌<◌, ◌≡◌, ◌≢◌, refl, ap, ◌∙◌, Option, none, some, arith}
use xcoro.Task.{
  Exception, Outcome, value, raised, Body, co_return, throws, co_await, ResultSlot, monostate,
  value_type, exception_ptr, Position, before, awaiting, done, Final, continues, Frame, Machine,
  result, put, destroy, await_resume, resume_frame, resume, run,
}

module _ {A : Type 0} where
  -- The outcome of a body, each awaited task being evaluated where it is awaited.
  unfoldable pub eval : Body A → Outcome A
  eval (co_return a) = value a
  eval (throws e) = raised e
  eval (co_await body k) = eval (k (eval body))

  -- The steps that it takes.
  unfoldable pub steps : Body A → ℕ
  unfolding eval
  steps (co_return a) = 1
  steps (throws e) = 1
  steps (co_await body k) = suc (steps body + suc (steps (k (eval body))))

  abbrev pub slot_of : Outcome A → ResultSlot A
  slot_of (value a) = value_type a
  slot_of (raised e) = exception_ptr e

  pub result-slot_of : (o : Outcome A) → result (slot_of o) ≡ o
  unfolding result
  result-slot_of (value a) = refl
  result-slot_of (raised e) = refl

  -- No frame stands at `next` or beyond.
  abbrev pub IsFresh : Machine A → Type 0
  IsFresh m = (q : ℕ) → m.next ≤ q → m.frames q ≡ none

  abbrev pub frame : ResultSlot A → Final → Position A → Frame A
  frame slot final position = record { slot = slot; final = final; position = position }

  -- The coroutine at `p` has ended in `m'`, with outcome `o`; no other frame has changed since `m`.
  pub record Ended (m m' : Machine A) (p : ℕ) (back : Final) (o : Outcome A) : Type 0 where
    pub own : m'.frames p ≡ some (frame (slot_of o) back done)
    pub others : (q : ℕ) → q ≢ p → m'.frames q ≡ m.frames q
    pub fresh : IsFresh m'
    pub grown : m.next ≤ m'.next
    pub event : m'.is_set ≡ m.is_set

  -- One step of each kind.
  resume-end :
      (m : Machine A) (p : ℕ) (slot : ResultSlot A) (back : Option ℕ) (a : A)
      → m.frames p ≡ some (frame slot (continues back) (before (co_return a)))
      → resume m p ≡ (put m p (frame (value_type a) (continues back) done), back)
  unfolding resume
  resume-end m p slot back a at = rw (at, resume)

  resume-throw :
      (m : Machine A) (p : ℕ) (slot : ResultSlot A) (back : Option ℕ) (e : Exception)
      → m.frames p ≡ some (frame slot (continues back) (before (throws e)))
      → resume m p ≡ (put m p (frame (exception_ptr e) (continues back) done), back)
  unfolding resume
  resume-throw m p slot back e at = rw (at, resume)

  -- The machine behind a `co_await`, and behind its end.
  abbrev pub awaited :
      Machine A → ℕ → ResultSlot A → Final → Body A → (Outcome A → Body A) → Machine A
  awaited m p slot back body k =
      record (put (put m m.next (frame monostate (continues (some p)) (before body))) p
        (frame slot back (awaiting m.next k))) { next = m.next + 1 }

  pub resume-await :
      (m : Machine A) (p : ℕ) (slot : ResultSlot A) (back : Final) (body : Body A)
      (k : Outcome A → Body A)
      → m.frames p ≡ some (frame slot back (before (co_await body k)))
      → resume m p ≡ (awaited m p slot back body k, some m.next)
  unfolding resume
  resume-await m p slot back body k at = rw (at, resume)

  resume-continue :
      (m : Machine A) (p child : ℕ) (slot : ResultSlot A) (back : Final) (c : Frame A)
      (k : Outcome A → Body A)
      → m.frames p ≡ some (frame slot back (awaiting child k))
      → m.frames child ≡ some c
      → resume m p
        ≡ (put (destroy m child) p (frame slot back (before (k (result c.slot)))), some p)
  unfolding resume
  resume-continue m p child slot back c k at atc =
      rw (at, resume) (rw (atc, await_resume, resume_frame))

  pub run-suc :
      (n : ℕ) (m m' : Machine A) (p : ℕ) (next : Option ℕ)
      → resume m p ≡ (m', next)
      → run (suc n) m (some p) ≡ run n m' next
  unfolding run
  run-suc n m m' p next e = ap (λ (r : Machine A × Option ℕ). run n r.0 r.1) e

  -- Where the body ends at once.
  put-Ended :
      (m : Machine A) (p : ℕ) (back : Final) (o : Outcome A)
      → p < m.next
      → IsFresh m
      → Ended m (put m p (frame (slot_of o) back done)) p back o
  put-Ended m p back o lt fresh = record {
    own = ground arith;
    others = λ q ne. ground (arith, ne);
    fresh = λ q le. ground (arith, fresh q);
    grown = omega arith;
    event = refl;
  }

  -- The machine after the coroutine at `p` has read the result of `child`.
  abbrev pub resumed : Machine A → ℕ → ℕ → ResultSlot A → Final → Body A → Machine A
  resumed m child p slot back body = put (destroy m child) p (frame slot back (before body))

  -- The coroutine at `p`, which awaits a task that has ended.
  module _ (m m₂ : Machine A) (p : ℕ) (slot : ResultSlot A) (back : Final) (body : Body A)
      (k : Outcome A → Body A) (o : Outcome A) (lt : p < m.next) (fresh : IsFresh m)
      (e : Ended (awaited m p slot back body k) m₂ m.next (continues (some p)) o) where
    pub still_waits : m₂.frames p ≡ some (frame slot back (awaiting m.next k))
    still_waits = e.others p (λ same. omega arith) ∙ ground arith

    pub resumed-at :
        (b : Body A)
        → (resumed m₂ m.next p slot back b).frames p ≡ some (frame slot back (before b))
    resumed-at b = ground arith

    pub resumed-lt : (b : Body A) → p < (resumed m₂ m.next p slot back b).next
    unfolding destroy
    resumed-lt b = omega (arith, e.grown)

    pub resumed-IsFresh : (b : Body A) → IsFresh (resumed m₂ m.next p slot back b)
    unfolding destroy
    resumed-IsFresh b q le = ground (arith, e.fresh q, e.grown)

    pub goes_on :
        (n : ℕ) → run (suc n) m₂ (some p) ≡ run n (resumed m₂ m.next p slot back (k o)) (some p)
    goes_on n = run-suc n m₂ (resumed m₂ m.next p slot back (k o)) p (some p) (
        resume-continue m₂ p m.next slot back (frame (slot_of o) (continues (some p)) done) k
          still_waits e.own
        ∙ ap (λ (x : Outcome A). (resumed m₂ m.next p slot back (k x), some p)) (result-slot_of o))

    pub goes_on-Ended :
        (m' : Machine A) (b : Body A) (o' : Outcome A)
        → Ended (resumed m₂ m.next p slot back b) m' p back o'
        → Ended m m' p back o'
    unfolding destroy
    goes_on-Ended m' b o' e' = record {
      own = e'.own;
      others = λ q ne. e'.others q ne ∙ ground (arith, ne, e.others q, fresh q);
      fresh = e'.fresh;
      grown = omega (arith, e'.grown, e.grown);
      event = e'.event ∙ e.event;
    }

  -- In a machine with no frame at a free address, a coroutine that is resumed at its start comes, after just `steps body` steps, to its
  -- continuation, and its promise has the outcome of a direct evaluation in which each awaited task
  -- is run to its end where it is awaited. All the frames that were made on the way are destroyed, and
  -- no other frame has changed.
  pub run-eval :
      (body : Body A) (m : Machine A) (p : ℕ) (slot : ResultSlot A) (back : Option ℕ) (more : ℕ)
      → m.frames p ≡ some (frame slot (continues back) (before body))
      → p < m.next
      → IsFresh m
      → (m' : Machine A) × (run (steps body + more) m (some p) ≡ run more m' back)
        × Ended m m' p (continues back) (eval body)
  unfolding steps eval
  run-eval (co_return a) m p slot back more at lt fresh =
      let m' = put m p (frame (value_type a) (continues back) done) in
      (
        m',
        ap (λ (n : ℕ). run n m (some p)) (omega arith)
            ∙ run-suc more m m' p back (resume-end m p slot back a at),
        put-Ended m p (continues back) (value a) lt fresh,
      )
  run-eval (throws e) m p slot back more at lt fresh =
      let m' = put m p (frame (exception_ptr e) (continues back) done) in
      (
        m',
        ap (λ (n : ℕ). run n m (some p)) (omega arith)
            ∙ run-suc more m m' p back (resume-throw m p slot back e at),
        put-Ended m p (continues back) (raised e) lt fresh,
      )
  run-eval (co_await body k) m p slot back more at lt fresh =
      let (m₂, ran, e) =
        run-eval body (awaited m p slot (continues back) body k) m.next monostate (some p)
          (suc (steps (k (eval body)) + more)) (ground (arith, at)) (omega arith)
          (λ q le. ground (arith, fresh q)) in
      let (m₄, ran', e') =
        run-eval (k (eval body)) (resumed m₂ m.next p slot (continues back) (k (eval body))) p slot
          back more
          (resumed-at m m₂ p slot (continues back) body k (eval body) lt fresh e (k (eval body)))
          (resumed-lt m m₂ p slot (continues back) body k (eval body) lt fresh e (k (eval body)))
          (resumed-IsFresh m m₂ p slot (continues back) body k (eval body) lt fresh e
            (k (eval body))) in
      (
        m₄,
        ap (λ (n : ℕ). run n m (some p)) (omega arith)
            ∙ run-suc (steps body + suc (steps (k (eval body)) + more)) m
                (awaited m p slot (continues back) body k) p (some m.next)
                (resume-await m p slot (continues back) body k at)
            ∙ ran
            ∙ goes_on m m₂ p slot (continues back) body k (eval body) lt fresh e
                (steps (k (eval body)) + more)
            ∙ ran',
        goes_on-Ended m m₂ p slot (continues back) body k (eval body) lt fresh e m₄ (k (eval body))
            ((eval (k (eval body)))) e',
      )
