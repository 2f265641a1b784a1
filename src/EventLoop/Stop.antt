-- ===== src/EventLoop/Stop.antt =====
-- How the `join` of `stop` comes to an end.
use xcoro.Base.{ℕ, ◌≡◌, ◌≢◌, refl, ap, ◌∙◌, Bool, true, false, List, arith, inl, inr, Bool-cases}
use xcoro.Timers.{TimerItem, IoContext, timeout_ms}
use xcoro.EventLoop.{
  EventFd, Position, absent, checks, reads_timeout, polls, handles, drains_wake_fd, resumes_due,
  drains_ready, resumes, exited, thrown, in_join, Stopper, World, Surroundings,
}
use xcoro.EventLoop.System.{loop_steps, Reach, later}
use xcoro.EventLoop.Seen.{stage}
use xcoro.EventLoop.Wake.{reach-Seen}
use xcoro.EventLoop.Turn.{
  Turned, Works, Leads, arrived, goes_on, then_leads, resumes-Emptied, drains_ready-Turned,
  resumes_due-Turned, drains-Turned, handles-Turned, polls-Turned,
}
use xcoro.EventLoop.Resume.{checks_first, timed_first}
use xcoro.EventLoop.Control.{is_absent, reach-Control}

module _ {K : Type 0} (fd : EventFd K) (env : Surroundings K) (works : Works fd env) where
  checks-Ends :
      (w : World K)
      → w.position ≡ checks
      → w.stopped ≡ true
      → Leads fd env (λ w'. w'.position ≡ exited) w
  checks-Ends w at told = goes_on (checks_first fd env w true at told) (
      then_leads fd env
        (resumes_due-Turned fd env true (record w { position = resumes_due true }) refl)
        (λ w' t. arrived t.position))

  turn-Ends :
      (last : Bool) (w : World K)
      → w.stopped ≡ true
      → Leads fd env (Turned last w) w
      → Leads fd env (λ w'. w'.position ≡ exited) w
  turn-Ends true w told leads = then_leads fd env leads (λ w' t. arrived t.position)
  turn-Ends false w told leads =
      then_leads fd env leads (λ w' t.
        checks-Ends w' t.position (ap (λ (f : Bool × Stopper × ℕ). f.0) t.kept.same ∙ told))

  -- A thread in `join` has woken the loop.
  polls-Ends :
      {io : IoContext} {k : K} (w : World K) (heap : List TimerItem) (timeout : ℕ)
      → w.position ≡ polls heap timeout
      → Reach fd io k w
      → w.stopper ≡ in_join
      → w.stopped ≡ true
      → Leads fd env (λ w'. w'.position ≡ exited) w
  polls-Ends w heap timeout at r waits told = elim (Bool-cases (fd.readable w.wake_fd)) [
    | inl woken ↦
        turn-Ends false w told
          (polls-Turned fd env works.counts heap timeout w at (works.answers w timeout woken))
    | inr quiet ↦
        let e = (reach-Seen fd works.counts r).stop_seen (ap stage at) told quiet in
        ground (arith, waits, e)
  ]

  ends_at :
      {io : IoContext} {k : K} (w : World K) (p : Position)
      → w.position ≡ p
      → Reach fd io k w
      → w.stopper ≡ in_join
      → w.stopped ≡ true
      → is_absent p ≡ false
      → ((e : ℕ) → p ≢ thrown e)
      → Leads fd env (λ w'. w'.position ≡ exited) w
  ends_at w absent at r waits told here sound = ground (arith, here)
  ends_at w checks at r waits told here sound = checks-Ends w at told
  ends_at w reads_timeout at r waits told here sound =
      let e = timed_first fd env w at in
      let t = timeout_ms w.io.heap (env.now w) in
      goes_on e (
        polls-Ends (record w { position = polls w.io.heap t }) w.io.heap t refl
          (later r (loop_steps env _ e)) waits told)
  ends_at w (polls heap timeout) at r waits told here sound =
      polls-Ends w heap timeout at r waits told
  ends_at w (handles es) at r waits told here sound =
      turn-Ends false w told (handles-Turned fd env works.counts es w at)
  ends_at w (drains_wake_fd es) at r waits told here sound =
      turn-Ends false w told
        (drains-Turned fd env works.counts es w at (handles-Turned fd env works.counts es))
  ends_at w (resumes_due last) at r waits told here sound =
      turn-Ends last w told (resumes_due-Turned fd env last w at)
  ends_at w (drains_ready last) at r waits told here sound =
      turn-Ends last w told (drains_ready-Turned fd env last w at)
  ends_at w (resumes hs true) at r waits told here sound =
      then_leads fd env (resumes-Emptied fd env hs true w at) (λ w' e. arrived e.position)
  ends_at w (resumes hs false) at r waits told here sound =
      then_leads fd env (resumes-Emptied fd env hs false w at)
        (λ w' e. checks-Ends w' e.position (ap (λ (f : Bool × Stopper × ℕ). f.0) e.same ∙ told))
  ends_at w exited at r waits told here sound = arrived at
  ends_at w (thrown e) at r waits told here sound = absurd (sound e refl)

  -- Whenever a thread waits in the `join` of `stop`, the loop's thread, wherever it stands, comes by
  -- its own steps, if nothing comes in between, to the end of the loop. This is for a loop in which
  -- `epoll_wait` has not failed, an eventfd that is readable once it was written and empty once it was
  -- read, and an `epoll_wait` that neither blocks nor fails while the eventfd is readable.
  pub stop_joins :
      {io : IoContext} {k : K} {w : World K}
      → Reach fd io k w
      → w.stopper ≡ in_join
      → ((e : ℕ) → w.position ≢ thrown e)
      → Leads fd env (λ w'. w'.position ≡ exited) w
  stop_joins {w = w} r waits sound =
      let c = reach-Control fd r in
      ends_at w w.position refl r waits (c.stopping (λ e. ground (arith, waits, e)))
        (c.present (c.in_join_joinable waits)) sound
