-- ===== src/EventLoop/Seen.antt =====
-- What the event loop sees of the calls of other threads, whatever comes in between.
use xcoro.Base.{
  ℕ, ◌≡◌, ◌≢◌, refl, sym, ap, ◌∙◌, Bool, true, false, some, List, [], ◌∷◌, ◌++◌, arith, Option,
  none, inl, inr, Bool-cases, subst, if◌then◌else◌,
}
use xcoro.Timers.{TimerItem, timeout_ms, complete_timer, drain_ready, resume_due_timers}
use xcoro.EventLoop.{
  EventFd, Event, wake_tag, no_state, descriptor_event, PollAnswer, blocked, interrupted, failed,
  events, Position, absent, checks, reads_timeout, polls, handles, drains_wake_fd, resumes_due,
  drains_ready, resumes, exited, thrown, before_wake, World, Surroundings, poll_once, handle_event,
  drain_wake_fd, step_at,
}
use xcoro.EventLoop.System.{
  Call, schedules, pushes_timer, cancels_timer, readies, perform, goes_on_to_wake, begin_call,
}

-- The loop polls before it looks at `stopped_` again, takes the ready queue before it polls again, or neither.
pub data Stage : Type 0 where
  polling taking elsewhere : Stage

abbrev pub stage : Position → Stage
stage reads_timeout = polling
stage (polls heap timeout) = polling
stage (handles es) = taking
stage (drains_wake_fd es) = taking
stage (resumes_due last) = taking
stage (drains_ready last) = taking
stage _ = elsewhere

module _ {K : Type 0} where
  abbrev pub AllSome : (World K → Type 0) → Option (World K) → Type 0
  AllSome P none = Unit {0}
  AllSome P (some w) = P w

  pub of_some :
      (P : World K → Type 0) {r : Option (World K)} {w : World K} → r ≡ some w → AllSome P r → P w
  of_some P e all = subst (AllSome P) e all

module _ {K : Type 0} (fd : EventFd K) where
  -- Nothing makes `epoll_wait` return, at once or soon.
  abbrev pub IsQuiet : World K → Type 0
  IsQuiet w = (fd.readable w.wake_fd ≡ false) × (w.to_wake ≡ 0)

  abbrev StopSeen : World K → Type 0
  StopSeen w =
      stage w.position ≡ polling
      → w.stopped ≡ true
      → fd.readable w.wake_fd ≡ false
      → w.stopper ≡ before_wake

  pub record Seen (w : World K) : Type 0 where
    pub ready_seen : stage w.position ≢ taking → IsQuiet w → w.io.ready ≡ []
    -- The timeout is that of the queue as it is, at the time when it was read.
    pub timers_seen :
        (seen : List TimerItem) (timeout : ℕ)
        → w.position ≡ polls seen timeout
        → IsQuiet w
        → (now : ℕ) × (seen ≡ w.io.heap) × (timeout ≡ timeout_ms seen now)
    pub stop_seen : StopSeen w

  pub loud-Seen : (w : World K) → (IsQuiet w → ⊥) → StopSeen w → Seen w
  loud-Seen w loud stop_seen = record {
    ready_seen = λ e quiet. absurd (loud quiet);
    timers_seen = λ seen timeout e quiet. absurd (loud quiet);
    stop_seen = stop_seen;
  }

  -- Behind a poll the ready queue is taken anyway.
  takes-Seen : (w : World K) → stage w.position ≡ taking → Seen w
  takes-Seen w at = record {
    ready_seen = λ e quiet. absurd (e at);
    timers_seen = λ seen timeout e quiet. ground (arith, at, ap stage e);
    stop_seen = λ e. ground (arith, at, e);
  }

  -- From a world that is not taking the queue, to one that is not polling.
  pub rests-Seen :
      (w w' : World K)
      → stage w'.position ≡ elsewhere
      → stage w.position ≢ taking
      → (IsQuiet w' → IsQuiet w)
      → w'.io.ready ≡ w.io.ready
      → Seen w
      → Seen w'
  rests-Seen w w' at not_taking quiet same seen = record {
    ready_seen = λ e q. same ∙ seen.ready_seen not_taking (quiet q);
    timers_seen = λ heap timeout e q. ground (arith, at, ap stage e);
    stop_seen = λ e. ground (arith, at, e);
  }

  pub call-Seen : (w : World K) (call : Call) → Seen w → Seen (begin_call w call)
  unfolding begin_call goes_on_to_wake perform complete_timer
  call-Seen w call seen = elim (Bool-cases (goes_on_to_wake w.io call)) [
    | inl goes ↦
        loud-Seen (begin_call w call) (λ (quiet, none_due). ground (arith, none_due, goes))
          seen.stop_seen
    | inr no_wake ↦ silent call no_wake
  ]
    where
      silent : (call : Call) → goes_on_to_wake w.io call ≡ false → Seen (begin_call w call)
      silent (cancels_timer p) e = elim (Bool-cases (w.io.timers p).completed) [
        | inl done ↦ rw (done) seen
        | inr going ↦ ground (arith, going, e)
      ]
      silent (schedules h) e = ground (arith, e)
      silent (pushes_timer d p) e = ground (arith, e)
      silent (readies h hs) e = ground (arith, e)

  poll-Seen :
      (answer : PollAnswer) (w : World K)
      → stage w.position ≢ taking
      → Seen w
      → AllSome Seen (poll_once w answer)
  unfolding poll_once
  poll-Seen blocked w at seen = tt
  poll-Seen interrupted w at seen = takes-Seen (record w { position = resumes_due false }) refl
  poll-Seen (failed e) w at seen =
      rests-Seen w (record w { position = thrown e }) refl at (λ q. q) refl seen
  poll-Seen (events es) w at seen = takes-Seen (record w { position = handles es }) refl

  drain-taking :
      (w : World K) (es : List Event)
      → stage w.position ≡ taking
      → stage (drain_wake_fd fd w es).position ≡ taking
  unfolding drain_wake_fd
  drain-taking w es takes = ground (arith, takes)

  pub not_taking :
      (w : World K) (p : Position) → w.position ≡ p → stage p ≢ taking → stage w.position ≢ taking
  not_taking w p at e f = e (sym (ap stage at) ∙ f)

  checked-Seen :
      (w : World K) (stopped : Bool)
      → w.stopped ≡ stopped
      → w.position ≡ checks
      → Seen w
      → Seen (record w { position = if stopped then resumes_due true else reads_timeout })
  checked-Seen w true e at seen = takes-Seen (record w { position = resumes_due true }) refl
  checked-Seen w false e at seen = record {
    ready_seen = λ f. seen.ready_seen (not_taking w checks at (λ g. ground (arith, g)));
    timers_seen = λ heap timeout f. ground (arith, f);
    stop_seen = λ f told. ground (arith, e, told);
  }

  pub loop-Seen :
      (env : Surroundings K) (w : World K) (p : Position)
      → w.position ≡ p
      → Seen w
      → AllSome Seen (step_at fd env w p)
  unfolding step_at handle_event drain_ready
  loop-Seen env w absent at seen = tt
  loop-Seen env w checks at seen = checked-Seen w w.stopped refl at seen
  loop-Seen env w reads_timeout at seen = record {
    ready_seen = λ e. seen.ready_seen (not_taking w reads_timeout at (λ f. ground (arith, f)));
    timers_seen = λ heap timeout e quiet. (env.now w, ground (arith, e), ground (arith, e));
    stop_seen = λ e. seen.stop_seen (ap stage at);
  }
  loop-Seen env w (polls heap timeout) at seen =
      poll-Seen (env.poll w timeout) w
        (not_taking w (polls heap timeout) at (λ f. ground (arith, f))) seen
  loop-Seen env w (handles []) at seen = takes-Seen (record w { position = resumes_due false }) refl
  loop-Seen env w (handles (wake_tag ∷ es)) at seen = takes-Seen (handle_event w wake_tag es) refl
  loop-Seen env w (handles (no_state ∷ es)) at seen = takes-Seen (handle_event w no_state es) refl
  loop-Seen env w (handles (descriptor_event ctl d e ∷ es)) at seen =
      takes-Seen (handle_event w (descriptor_event ctl d e) es) refl
  loop-Seen env w (drains_wake_fd es) at seen =
      takes-Seen (drain_wake_fd fd w es) (drain-taking w es (ap stage at))
  loop-Seen env w (resumes_due last) at seen =
      takes-Seen
        (record w { io = resume_due_timers w.io (env.now w); position = drains_ready last }) refl
  loop-Seen env w (drains_ready last) at seen = record {
    ready_seen = λ e quiet. refl;
    timers_seen = λ heap timeout e. ground (arith, e);
    stop_seen = λ e. ground (arith, e);
  }
  loop-Seen env w (resumes [] last) at seen =
      rests-Seen w (record w { position = if last then exited else checks }) (ground arith)
        (not_taking w (resumes [] last) at (λ f. ground (arith, f))) (λ q. q) refl seen
  loop-Seen env w (resumes (h ∷ hs) last) at seen =
      rests-Seen w (record w { resumed = w.resumed ++ h ∷ []; position = resumes hs last }) refl
        (not_taking w (resumes (h ∷ hs) last) at (λ f. ground (arith, f))) (λ q. q) refl seen
  loop-Seen env w exited at seen = tt
  loop-Seen env w (thrown e) at seen = tt
