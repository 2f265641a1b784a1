-- ===== src/EventLoop/Examples.antt =====
-- The theorems on the event loop, on an eventfd that counts, at worlds that a run reaches.
use xcoro.Base.{
  ℕ, ◌+◌, ◌-◌, ◌^◌, ◌≤◌, ◌≡◌, refl, true, false, none, some, [], ◌∷◌, arith, count, ltb, ◌==◌,
  if◌then◌else◌,
}
use xcoro.Timers.{IoContext, timeout_ms}
use xcoro.EventLoop.{
  EventFd, Counts, wake_tag, PollAnswer, blocked, events, checks, reads_timeout, polls, exited,
  in_join, World, Surroundings, loop_step, run, stop, stop_wake, wake,
}
use xcoro.EventLoop.System.{
  schedules, begin_call, calls, call_wakes, loop_steps, runs, stops, stop_wakes, init, Reach, start,
  later,
}
use xcoro.EventLoop.Wake.{sleeps-idle}
use xcoro.EventLoop.Turn.{Answers, Works, has_events, Leads}
use xcoro.EventLoop.Resume.{taken, loop_resumes}
use xcoro.EventLoop.Stop.{stop_joins}

-- The counter stays below 2 ^ 64 - 1.
abbrev counter : EventFd ℕ
counter = record {
  readable = ltb 0;
  write = λ k. if k == 2 ^ 64 - 2 then k else k + 1;
  read = λ k. if k == 0 then none else some 0;
}

counter-Counts : Counts counter
counter-Counts = record {
  write_readable = λ k. ground arith;
  read_empties = λ k k' e. ground (arith, e);
  read_fails = λ k e. ground (arith, e);
}

abbrev poll_counter : World ℕ → ℕ → PollAnswer
poll_counter w timeout = if ltb 0 w.wake_fd then events (wake_tag ∷ []) else blocked

abbrev at_once : Surroundings ℕ
at_once = record { now = λ w. 0; poll = poll_counter }

at_once-Answers :
    (w : World ℕ) (timeout : ℕ) → ltb 0 w.wake_fd ≡ true → Answers (poll_counter w timeout)
at_once-Answers w timeout e = rw (e) (has_events (wake_tag ∷ []))

counter-Works : Works counter at_once
counter-Works = record { counts = counter-Counts; answers = at_once-Answers }

abbrev no_timers : IoContext
no_timers = record {
  heap = [];
  timers = λ p. record { handle = 0; completed = false; cancelled = false };
  ready = [];
}

-- The loop has gone to sleep.
abbrev asleep : World ℕ
asleep = record (init no_timers 0) { joinable = true; position = polls [] (timeout_ms [] 0) }

asleep-Reach : Reach counter no_timers 0 asleep
unfolding run loop_step timeout_ms
asleep-Reach =
    let s₁ = record (init no_timers 0) { joinable = true; position = checks } in
    let s₂ : World ℕ = record s₁ { position = reads_timeout } in
    later (later (later start (runs refl (λ e. refl))) (loop_steps at_once s₂ refl))
      (loop_steps at_once asleep refl)

abbrev scheduled : World ℕ
scheduled = record asleep { io = record no_timers { ready = 7 ∷ [] }; wake_fd = 1 }

scheduled-Reach : Reach counter no_timers 0 scheduled
unfolding begin_call wake
scheduled-Reach = later (later asleep-Reach (calls (schedules 7))) (call_wakes 0 refl)

abbrev joining : World ℕ
joining = record asleep { stopped = true; wake_fd = 1; stopper = in_join }

joining-Reach : Reach counter no_timers 0 joining
unfolding stop stop_wake wake
joining-Reach = later (later asleep-Reach stops) (stop_wakes refl)

sleeps-idle_example :
    (asleep.io.ready ≡ [])
    × ((now : ℕ) × ([] ≡ asleep.io.heap) × (timeout_ms [] 0 ≡ timeout_ms [] now))
    × (asleep.stopped ≡ false)
sleeps-idle_example =
    sleeps-idle counter counter-Counts asleep-Reach [] (timeout_ms [] 0) refl refl refl
      (λ e. ground (arith, e))

loop_resumes_example :
    Leads counter at_once
      (λ w'.
        (h : ℕ)
        → count h scheduled.resumed + count h scheduled.io.ready + taken scheduled.position h
          ≤ count h w'.resumed)
      scheduled
loop_resumes_example = loop_resumes counter at_once counter-Works scheduled-Reach refl tt

stop_joins_example : Leads counter at_once (λ w'. w'.position ≡ exited) joining
stop_joins_example =
    stop_joins counter at_once counter-Works joining-Reach refl (λ e f. ground (arith, f))
