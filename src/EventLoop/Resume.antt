-- ===== src/EventLoop/Resume.antt =====
-- When the loop resumes what was enqueued.
use xcoro.Base.{
  ℕ, ◌+◌, ◌≤◌, ◌≡◌, refl, ap, ◌∙◌, Bool, true, false, some, List, arith, count, inl, inr,
  Bool-cases, if◌then◌else◌,
}
use xcoro.Timers.{TimerItem, IoContext, timeout_ms}
use xcoro.EventLoop.{
  EventFd, Position, absent, checks, reads_timeout, polls, handles, drains_wake_fd, resumes_due,
  drains_ready, resumes, exited, thrown, Stopper, World, Surroundings, step_at, loop_step,
}
use xcoro.EventLoop.System.{loop_steps, Reach, later}
use xcoro.EventLoop.Seen.{not_taking}
use xcoro.EventLoop.Wake.{reach-Seen}
use xcoro.EventLoop.Turn.{
  owed, Turned, Works, Leads, arrived, goes_on, then_leads, step_from, resumes-Emptied,
  drains_ready-Turned, resumes_due-Turned, drains-Turned, handles-Turned, polls-Turned,
}

-- The handles that the loop has swapped out of the queue and still has to resume.
abbrev pub taken : Position → ℕ → ℕ
taken (resumes hs last) h = count h hs
taken _ h = 0

-- The loop takes the ready queue once more.
abbrev pub IsRunning : Position → Type 0
IsRunning absent = ⊥
IsRunning exited = ⊥
IsRunning (thrown e) = ⊥
IsRunning (resumes hs true) = ⊥
IsRunning _ = Unit {0}

module _ {K : Type 0} (fd : EventFd K) (env : Surroundings K) where
  -- The first steps of a turn.
  pub checks_first :
      (w : World K) (stopped : Bool)
      → w.position ≡ checks
      → w.stopped ≡ stopped
      → loop_step fd env w
        ≡ some (record w { position = if stopped then resumes_due true else reads_timeout })
  unfolding step_at
  checks_first w stopped at e = step_from fd env w checks at ∙ rw (e) refl

  pub timed_first :
      (w : World K)
      → w.position ≡ reads_timeout
      → loop_step fd env w
        ≡ some (record w { position = polls w.io.heap (timeout_ms w.io.heap (env.now w)) })
  unfolding step_at
  timed_first w at = step_from fd env w reads_timeout at

module _ {K : Type 0} (fd : EventFd K) (env : Surroundings K) (works : Works fd env) where
  -- What a world owes is resumed.
  abbrev pub Resumed : (ℕ → ℕ) → World K → Type 0
  Resumed due w' = (h : ℕ) → due h ≤ count h w'.resumed

  pub on_the_way :
      {P : World K → Type 0} {io : IoContext} {k : K} {w : World K}
      → Reach fd io k w
      → Leads fd env P w
      → Leads fd env (λ w'. Reach fd io k w' × P w') w
  on_the_way r (arrived p) = arrived (r, p)
  on_the_way r (goes_on e leads) = goes_on e (on_the_way (later r (loop_steps env _ e)) leads)

  turned :
      {last : Bool} {w : World K} (due : ℕ → ℕ)
      → ((h : ℕ) → due h ≤ owed w h)
      → Leads fd env (Turned last w) w
      → Leads fd env (Resumed due) w
  turned due le leads =
      then_leads fd env leads
        (λ w' t. arrived (λ h. omega (arith, le h, t.kept.all h, ap (count h) t.empty)))

  polls-Resumed :
      {io : IoContext} {k : K} (due : ℕ → ℕ) (w : World K) (heap : List TimerItem) (timeout : ℕ)
      → w.position ≡ polls heap timeout
      → Reach fd io k w
      → w.to_wake ≡ 0
      → ((h : ℕ) → due h ≤ owed w h)
      → Leads fd env (Resumed due) w
  polls-Resumed due w heap timeout at r idle le = elim (Bool-cases (fd.readable w.wake_fd)) [
    | inl woken ↦
        turned due le
          (polls-Turned fd env works.counts heap timeout w at (works.answers w timeout woken))
    | inr quiet ↦
        let empty =
          (reach-Seen fd works.counts r).ready_seen
            (not_taking fd w (polls heap timeout) at (λ f. ground (arith, f))) (quiet, idle) in
        arrived (λ h. omega (arith, le h, ap (count h) empty))
  ]

  reads-Resumed :
      {io : IoContext} {k : K} (due : ℕ → ℕ) (w : World K)
      → w.position ≡ reads_timeout
      → Reach fd io k w
      → w.to_wake ≡ 0
      → ((h : ℕ) → due h ≤ owed w h)
      → Leads fd env (Resumed due) w
  reads-Resumed due w at r idle le =
      let e = timed_first fd env w at in
      let t = timeout_ms w.io.heap (env.now w) in
      goes_on e (
        polls-Resumed due (record w { position = polls w.io.heap t }) w.io.heap t refl
          (later r (loop_steps env _ e)) idle le)

  checks-Resumed :
      {io : IoContext} {k : K} (due : ℕ → ℕ) (w : World K)
      → w.position ≡ checks
      → Reach fd io k w
      → w.to_wake ≡ 0
      → ((h : ℕ) → due h ≤ owed w h)
      → Leads fd env (Resumed due) w
  checks-Resumed due w at r idle le = elim (Bool-cases w.stopped) [
    | inl told ↦ goes_on (checks_first fd env w true at told) (
        turned due le
          (resumes_due-Turned fd env true (record w { position = resumes_due true }) refl))
    | inr goes ↦
        let e = checks_first fd env w false at goes in
        goes_on e (
          reads-Resumed due (record w { position = reads_timeout }) refl
            (later r (loop_steps env _ e)) idle le)
  ]

  resumes-Resumed :
      {io : IoContext} {k : K} (due : ℕ → ℕ) (hs : List ℕ) (w : World K)
      → w.position ≡ resumes hs false
      → Reach fd io k w
      → w.to_wake ≡ 0
      → ((h : ℕ) → due h ≤ owed w h + count h hs)
      → Leads fd env (Resumed due) w
  resumes-Resumed due hs w at r idle le =
      then_leads fd env (on_the_way r (resumes-Emptied fd env hs false w at)) (λ w' (r', e).
        checks-Resumed due w' e.position r' (ap (λ (f : Bool × Stopper × ℕ). f.2) e.same ∙ idle)
          (λ h. omega (arith, le h, e.all h, ap (count h) e.ready)))

  reach-Resumed :
      {io : IoContext} {k : K} (w : World K) (p : Position)
      → w.position ≡ p
      → Reach fd io k w
      → w.to_wake ≡ 0
      → IsRunning p
      → Leads fd env (Resumed (λ h. owed w h + taken p h)) w
  reach-Resumed w checks at r idle running =
      checks-Resumed (λ h. owed w h + 0) w at r idle (λ h. omega arith)
  reach-Resumed w reads_timeout at r idle running =
      reads-Resumed (λ h. owed w h + 0) w at r idle (λ h. omega arith)
  reach-Resumed w (polls heap timeout) at r idle running =
      polls-Resumed (λ h. owed w h + 0) w heap timeout at r idle (λ h. omega arith)
  reach-Resumed w (handles es) at r idle running =
      turned (λ h. owed w h + 0) (λ h. omega arith) (handles-Turned fd env works.counts es w at)
  reach-Resumed w (drains_wake_fd es) at r idle running =
      turned (λ h. owed w h + 0) (λ h. omega arith)
        (drains-Turned fd env works.counts es w at (handles-Turned fd env works.counts es))
  reach-Resumed w (resumes_due last) at r idle running =
      turned (λ h. owed w h + 0) (λ h. omega arith) (resumes_due-Turned fd env last w at)
  reach-Resumed w (drains_ready last) at r idle running =
      turned (λ h. owed w h + 0) (λ h. omega arith) (drains_ready-Turned fd env last w at)
  reach-Resumed w (resumes hs false) at r idle running =
      resumes-Resumed (λ h. owed w h + count h hs) hs w at r idle (λ h. omega arith)
  reach-Resumed w absent at r idle running = absurd running
  reach-Resumed w (resumes hs true) at r idle running = absurd running
  reach-Resumed w exited at r idle running = absurd running
  reach-Resumed w (thrown e) at r idle running = absurd running

  -- Wherever a loop stands that takes the ready queue once more, with no call on its way to `wake`, it
  -- comes by its own steps, if nothing comes in between, to a world in which all that was in the
  -- queue, and what it had swapped out of it, has been resumed. This is for an eventfd that is
  -- readable once it was written and empty once it was read, and an `epoll_wait` that neither blocks nor
  -- fails while the eventfd is readable.
  pub loop_resumes :
      {io : IoContext} {k : K} {w : World K}
      → Reach fd io k w
      → w.to_wake ≡ 0
      → IsRunning w.position
      → Leads fd env
          (λ w'.
            (h : ℕ)
            → count h w.resumed + count h w.io.ready + taken w.position h ≤ count h w'.resumed)
          w
  loop_resumes {w = w} r idle running = reach-Resumed w w.position refl r idle running
