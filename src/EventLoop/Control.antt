-- ===== src/EventLoop/Control.antt =====
-- What `run`, `stop` and the loop keep of `loop_thread_` and `stopped_`.
use xcoro.Base.{
  ℕ, ◌≡◌, ◌≢◌, refl, sym, ◌∙◌, Bool, true, false, Option, none, some, List, [], ◌∷◌, ◌++◌, arith,
  inl, inr, Bool-cases, if◌then◌else◌,
}
use xcoro.Timers.{IoContext, abandon, timeout_ms, drain_ready, resume_due_timers}
use xcoro.EventLoop.{
  EventFd, wake_tag, no_state, descriptor_event, PollAnswer, blocked, interrupted, failed, events,
  Position, absent, checks, reads_timeout, polls, handles, drains_wake_fd, resumes_due,
  drains_ready, resumes, exited, thrown, not_stopping, in_join, World, Surroundings, step_at,
  loop_step, run, run_in_current_thread, stop, stop_wake, join, wake, poll_once, handle_event,
  drain_wake_fd,
}
use xcoro.EventLoop.System.{
  begin_call, Step, calls, call_wakes, makes_timer, abandons_timer, loop_steps, runs, runs_here,
  returns, stops, stop_wakes, joins, Reach, start, later,
}
use xcoro.EventLoop.Seen.{AllSome, of_some}

abbrev pub is_absent : Position → Bool
is_absent absent = true
is_absent _ = false

module _ {K : Type 0} where
  pub record Control (w : World K) : Type 0 where
    pub stopping : w.stopper ≢ not_stopping → w.stopped ≡ true
    pub in_join_joinable : w.stopper ≡ in_join → w.joinable ≡ true
    pub present : w.joinable ≡ true → is_absent w.position ≡ false

  -- What a step of the loop leaves alone.
  record Same (w w' : World K) : Type 0 where
    stopped : w'.stopped ≡ w.stopped
    stopper : w'.stopper ≡ w.stopper
    joinable : w'.joinable ≡ w.joinable
    present : is_absent w.position ≡ false → is_absent w'.position ≡ false

  same-Control : {w w' : World K} → Control w → Same w w' → Control w'
  same-Control c s = record {
    stopping = λ e. s.stopped ∙ c.stopping (λ f. e (s.stopper ∙ f));
    in_join_joinable = λ e. s.joinable ∙ c.in_join_joinable (sym s.stopper ∙ e);
    present = λ e. s.present (c.present (sym s.joinable ∙ e));
  }

  moved :
      (w : World K) (io : IoContext) (k : K) (p : Position) (n : ℕ) (resumed : List ℕ)
      → (is_absent w.position ≡ false → is_absent p ≡ false)
      → Same w (record w { io = io; wake_fd = k; position = p; to_wake = n; resumed = resumed })
  moved w io k p n resumed e = record {
    stopped = refl;
    stopper = refl;
    joinable = refl;
    present = e;
  }

  -- A step to another position, and one that stays.
  moves : (w : World K) (p : Position) → is_absent p ≡ false → Same w (record w { position = p })
  moves w p e = moved w w.io w.wake_fd p w.to_wake w.resumed (λ f. e)

  stays :
      (w : World K) (io : IoContext) (k : K) (n : ℕ)
      → Same w (record w { io = io; wake_fd = k; to_wake = n })
  stays w io k n = moved w io k w.position n w.resumed (λ e. e)

module _ {K : Type 0} (fd : EventFd K) where
  loop-Same :
      (env : Surroundings K) (w : World K) (p : Position) → AllSome (Same w) (step_at fd env w p)
  unfolding step_at handle_event
  loop-Same env w absent = tt
  loop-Same env w exited = tt
  loop-Same env w (thrown e) = tt
  loop-Same env w checks =
      moves w (if w.stopped then resumes_due true else reads_timeout) (ground arith)
  loop-Same env w reads_timeout = moves w (polls w.io.heap (timeout_ms w.io.heap (env.now w))) refl
  loop-Same env w (polls heap timeout) = answered (env.poll w timeout)
    where
      answered : (a : PollAnswer) → AllSome (Same w) (poll_once w a)
      answered blocked = tt
      answered interrupted = moves w (resumes_due false) refl
      answered (failed e) = moves w (thrown e) refl
      answered (events es) = moves w (handles es) refl
  loop-Same env w (handles []) = moves w (resumes_due false) refl
  loop-Same env w (handles (wake_tag ∷ es)) = moves w (drains_wake_fd es) refl
  loop-Same env w (handles (no_state ∷ es)) = moves w (handles es) refl
  loop-Same env w (handles (descriptor_event ctl d e ∷ es)) =
      moved w (handle_event w (descriptor_event ctl d e) es).io w.wake_fd (handles es) w.to_wake
        w.resumed (λ f. refl)
  loop-Same env w (drains_wake_fd es) = read_once (fd.read w.wake_fd) refl
    where
      read_once : (r : Option K) → fd.read w.wake_fd ≡ r → Same w (drain_wake_fd fd w es)
      read_once none e = rw (e, drain_wake_fd) (moves w (handles es) refl)
      read_once (some k) e = rw (e, drain_wake_fd) (stays w w.io k w.to_wake)
  loop-Same env w (resumes_due last) =
      moved w (resume_due_timers w.io (env.now w)) w.wake_fd (drains_ready last) w.to_wake w.resumed
        (λ e. refl)
  loop-Same env w (drains_ready last) =
      moved w (drain_ready w.io).0 w.wake_fd (resumes (drain_ready w.io).1 last) w.to_wake w.resumed
        (λ e. refl)
  loop-Same env w (resumes (h ∷ hs) last) =
      moved w w.io w.wake_fd (resumes hs last) w.to_wake (w.resumed ++ h ∷ []) (λ e. refl)
  loop-Same env w (resumes [] last) = moves w (if last then exited else checks) (ground arith)

  step-Control : (w w' : World K) → Control w → Step fd w w' → Control w'
  unfolding begin_call wake stop_wake run run_in_current_thread stop join abandon loop_step
  step-Control w w' c (calls call) =
      same-Control c (stays w (begin_call w call).io w.wake_fd (begin_call w call).to_wake)
  step-Control w w' c (call_wakes n e) = same-Control c (stays w w.io (fd.write w.wake_fd) n)
  step-Control w w' c (makes_timer p t) = same-Control c (stays w w'.io w.wake_fd w.to_wake)
  step-Control w w' c (abandons_timer p) = same-Control c (stays w w'.io w.wake_fd w.to_wake)
  step-Control w w' c (loop_steps env w₁ e) =
      same-Control c (of_some (Same w) e (loop-Same env w w.position))
  step-Control w w' c (runs e free) = elim (Bool-cases w.joinable) [
    | inl has ↦ simp (has) c
    | inr has_not ↦
        rw (has_not) (record {
          stopping = λ f. absurd (f e);
          in_join_joinable = λ f. refl;
          present = λ f. refl;
        })
  ]
  step-Control w w' c (runs_here e free) = elim (Bool-cases w.joinable) [
    | inl has ↦ simp (has) c
    | inr has_not ↦ simp (has_not) (record {
      stopping = λ f. absurd (f e);
      in_join_joinable = λ f. ground (arith, e, f);
      present = λ f. refl;
    })
  ]
  step-Control w w' c (returns e at) = record {
    stopping = c.stopping;
    in_join_joinable = c.in_join_joinable;
    present = λ f. ground (arith, e, f);
  }
  step-Control w w' c stops = elim (Bool-cases w.stopped) [
    | inl told ↦ simp (told) c
    | inr goes ↦ rw (goes) (record {
      stopping = λ f. refl;
      in_join_joinable = λ f. ground (arith, f);
      present = c.present;
    })
  ]
  step-Control w w' c (stop_wakes e) = record {
    stopping = λ f. c.stopping (λ g. ground (arith, e, g));
    in_join_joinable = λ f. ground (arith, f);
    present = c.present;
  }
  step-Control w w' c (joins e at) = record {
    stopping = λ f. absurd (f refl);
    in_join_joinable = λ f. ground (arith, f);
    present = λ f. ground (arith, f);
  }

  pub reach-Control : {io : IoContext} {k : K} {w : World K} → Reach fd io k w → Control w
  reach-Control start = record {
    stopping = λ f. absurd (f refl);
    in_join_joinable = λ f. ground (arith, f);
    present = λ f. ground (arith, f);
  }
  reach-Control (later r s) = step-Control _ _ (reach-Control r) s
