-- ===== src/EventLoop/Wake.antt =====
-- When the event loop may sleep in `epoll_wait`.
use xcoro.Base.{ℕ, ◌≡◌, ◌≢◌, refl, ap, false, List, [], arith, inl, inr, Bool-cases}
use xcoro.Timers.{IoContext, TimerItem, abandon, timeout_ms}
use xcoro.EventLoop.{
  EventFd, Counts, absent, polls, exited, before_wake, World, wake, loop_step, run,
  run_in_current_thread, stop, stop_wake, join,
}
use xcoro.EventLoop.System.{
  Step, calls, call_wakes, makes_timer, abandons_timer, loop_steps, runs, runs_here, returns, stops,
  stop_wakes, joins, Reach, start, later,
}
use xcoro.EventLoop.Seen.{
  stage, Seen, of_some, call-Seen, loop-Seen, loud-Seen, rests-Seen, not_taking,
}

module _ {K : Type 0} (fd : EventFd K) (counts : Counts fd) where
  written-Seen : (w w' : World K) → w'.wake_fd ≡ fd.write w.wake_fd → Seen fd w'
  written-Seen w w' e =
      loud-Seen fd w'
        (λ (quiet, none_due). ground (arith, e, quiet, counts.write_readable w.wake_fd))
        (λ at stopped quiet. ground (arith, e, quiet, counts.write_readable w.wake_fd))

  step-Seen : (w w' : World K) → Seen fd w → Step fd w w' → Seen fd w'
  unfolding wake stop_wake run run_in_current_thread stop join abandon loop_step
  step-Seen w w' seen (calls call) = call-Seen fd w call seen
  step-Seen w w' seen (call_wakes n e) = written-Seen w w' refl
  step-Seen w w' seen (makes_timer p t) = record {
    ready_seen = seen.ready_seen;
    timers_seen = seen.timers_seen;
    stop_seen = seen.stop_seen;
  }
  step-Seen w w' seen (abandons_timer p) = record {
    ready_seen = seen.ready_seen;
    timers_seen = seen.timers_seen;
    stop_seen = seen.stop_seen;
  }
  step-Seen w w' seen (loop_steps env w₁ e) =
      of_some (Seen fd) e (loop-Seen fd env w w.position refl seen)
  step-Seen w w' seen (runs e free) = elim (Bool-cases w.joinable) [
    | inl has ↦ simp (has) seen
    | inr no_thread ↦ rw (no_thread) (
        rests-Seen fd w _ refl (not_taking fd w absent (free no_thread) (λ f. ground (arith, f)))
          (λ q. q) refl seen)
  ]
  step-Seen w w' seen (runs_here e free) = elim (Bool-cases w.joinable) [
    | inl has ↦ simp (has) seen
    | inr no_thread ↦ rw (no_thread) (
        rests-Seen fd w _ refl (not_taking fd w absent (free no_thread) (λ f. ground (arith, f)))
          (λ q. q) refl seen)
  ]
  step-Seen w w' seen (returns e at) =
      rests-Seen fd w w' refl (not_taking fd w exited at (λ f. ground (arith, f))) (λ q. q) refl
        seen
  step-Seen w w' seen stops = elim (Bool-cases w.stopped) [
    | inl told ↦ simp (told) seen
    | inr goes ↦ rw (goes) (record {
      ready_seen = seen.ready_seen;
      timers_seen = seen.timers_seen;
      stop_seen = λ at told e. refl;
    })
  ]
  step-Seen w w' seen (stop_wakes e) = written-Seen w w' refl
  step-Seen w w' seen (joins e at) =
      rests-Seen fd w w' refl (not_taking fd w exited at (λ f. ground (arith, f))) (λ q. q) refl
        seen

  pub reach-Seen : {io : IoContext} {k : K} {w : World K} → Reach fd io k w → Seen fd w
  reach-Seen start = record {
    ready_seen = λ e quiet. refl;
    timers_seen = λ heap timeout e. ground (arith, e);
    stop_seen = λ e. ground (arith, e);
  }
  reach-Seen (later r s) = step-Seen _ _ (reach-Seen r) s

  -- Whenever the loop is in `epoll_wait`, the eventfd is not readable and no call is on its way to
  -- `wake`, so that the loop may sleep: the ready queue is empty, the timeout of the wait is that of
  -- the timers as they are, at the time when it was computed, and the loop was not told to stop.
  -- This holds for any interleaving of the loop with the calls of other threads, on an eventfd that is
  -- readable once it was written.
  pub sleeps-idle :
      {io : IoContext} {k : K} {w : World K}
      → Reach fd io k w
      → (seen : List TimerItem) (timeout : ℕ) → w.position ≡ polls seen timeout
      → fd.readable w.wake_fd ≡ false
      → w.to_wake ≡ 0
      → w.stopper ≢ before_wake
      → (w.io.ready ≡ [])
        × ((now : ℕ) × (seen ≡ w.io.heap) × (timeout ≡ timeout_ms seen now))
        × (w.stopped ≡ false)
  sleeps-idle {w = w} r seen timeout at quiet none_due idle =
      let inv = reach-Seen r in
      (
        inv.ready_seen (not_taking fd w (polls seen timeout) at (λ f. ground (arith, f)))
            (quiet, none_due),
        inv.timers_seen seen timeout at (quiet, none_due),
        elim (Bool-cases w.stopped) [
          | inl told ↦ absurd (idle (inv.stop_seen (ap stage at) told quiet))
          | inr goes ↦ goes
        ],
      )
