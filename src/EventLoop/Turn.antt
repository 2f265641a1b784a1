-- ===== src/EventLoop/Turn.antt =====
-- What the loop does while nothing comes in between, not even from the coroutines that it resumes: to
-- the end of a turn, or of `event_loop`.
use xcoro.Base.{
  ℕ, ◌+◌, ◌≤◌, ◌≡◌, refl, ap, ◌∙◌, Bool, true, false, Option, none, some, List, [], ◌∷◌, ◌++◌,
  arith, count, count-append, if◌then◌else◌,
}
use xcoro.Reactor.{dispatch_descriptor_event}
use xcoro.Timers.{TimerItem, IoContext, resume_due_timers, drain_ready, collect_due, enqueue_ready}
use xcoro.Timers.Fire.{complete_timers-keep}
use xcoro.EventLoop.{
  EventFd, Counts, Event, wake_tag, no_state, descriptor_event, PollAnswer, blocked, interrupted,
  failed, events, Position, checks, polls, handles, drains_wake_fd, resumes_due, drains_ready,
  resumes, exited, Stopper, World, Surroundings, step_at, loop_step, handle_event, drain_wake_fd,
  poll_once, enqueue_all,
}

abbrev pub end_of : Bool → Position
end_of true = exited
end_of false = checks

-- What `epoll_wait` answers where it neither blocks nor fails.
pub data Answers : PollAnswer → Type 0 where
  is_interrupted : Answers interrupted
  has_events : (es : List Event) → Answers (events es)

pub record Works {K : Type 0} (fd : EventFd K) (env : Surroundings K) : Type 0 where
  pub counts : Counts fd
  pub answers :
      (w : World K) (timeout : ℕ) → fd.readable w.wake_fd ≡ true → Answers (env.poll w timeout)

module _ {K : Type 0} where
  abbrev flags : World K → Bool × Stopper × ℕ
  flags w = (w.stopped, w.stopper, w.to_wake)

  abbrev pub owed : World K → ℕ → ℕ
  owed w h = count h w.resumed + count h w.io.ready

  pub record Kept (w w' : World K) : Type 0 where
    pub same : flags w' ≡ flags w
    pub all : (h : ℕ) → owed w h ≤ owed w' h

  -- The handles that were swapped out of the queue are resumed, and nothing else.
  pub record Emptied (hs : List ℕ) (last : Bool) (w w' : World K) : Type 0 where
    pub same : flags w' ≡ flags w
    pub position : w'.position ≡ end_of last
    pub ready : w'.io.ready ≡ w.io.ready
    pub all : (h : ℕ) → count h w'.resumed ≡ count h w.resumed + count h hs

  pub record Turned (last : Bool) (w w' : World K) : Type 0 where
    pub kept : Kept w w'
    pub position : w'.position ≡ end_of last
    pub empty : w'.io.ready ≡ []

  Kept-trans : {w w₁ w₂ : World K} → Kept w w₁ → Kept w₁ w₂ → Kept w w₂
  Kept-trans a b = record { same = b.same ∙ a.same; all = λ h. omega (arith, a.all h, b.all h) }

  Kept-refl : (w : World K) (p : Position) (k : K) → Kept w (record w { position = p; wake_fd = k })
  Kept-refl w p k = record { same = refl; all = λ h. omega arith }

enqueue_all-ready :
    (c : IoContext) (hs : List ℕ) (h : ℕ) → count h c.ready ≤ count h (enqueue_all c hs).ready
unfolding enqueue_all enqueue_ready
enqueue_all-ready c [] h = omega arith
enqueue_all-ready c (g ∷ hs) h =
    omega (arith, count-append h c.ready (g ∷ []), enqueue_all-ready (enqueue_ready c g) hs h)

module _ {K : Type 0} (fd : EventFd K) (env : Surroundings K) where
  -- By steps of its own the loop comes to a world of which `P` holds.
  pub data Leads (P : World K → Type 0) : World K → Type 0 where
    arrived : {w : World K} → P w → Leads P w
    goes_on : {w w' : World K} → loop_step fd env w ≡ some w' → Leads P w' → Leads P w

  pub then_leads :
      {P Q : World K → Type 0} {w : World K}
      → Leads P w
      → ((w' : World K) → P w' → Leads Q w')
      → Leads Q w
  then_leads (arrived p) next = next _ p
  then_leads (goes_on e leads) next = goes_on e (then_leads leads next)

  pub step_from :
      (w : World K) (p : Position) → w.position ≡ p → loop_step fd env w ≡ step_at fd env w p
  unfolding loop_step
  step_from w p at = ap (step_at fd env w) at

  turn_on :
      {last : Bool} {w w₁ : World K} (p : Position)
      → w.position ≡ p
      → step_at fd env w p ≡ some w₁
      → Kept w w₁
      → Leads (Turned last w₁) w₁
      → Leads (Turned last w) w
  turn_on {last} {w} {w₁} p at e kept leads = goes_on (step_from w p at ∙ e) (
      then_leads leads (λ w' t.
        arrived (record { kept = Kept-trans kept t.kept; position = t.position; empty = t.empty })))

  pub resumes-Emptied :
      (hs : List ℕ) (last : Bool) (w : World K)
      → w.position ≡ resumes hs last
      → Leads (Emptied hs last w) w
  unfolding step_at
  resumes-Emptied [] last w at = goes_on (step_from w (resumes [] last) at) (
      arrived (record { same = refl; position = ended last; ready = refl; all = λ h. omega arith }))
    where
      ended : (last : Bool) → (if last then exited else checks) ≡ end_of last
      ended true = refl
      ended false = refl
  resumes-Emptied (h ∷ hs) last w at =
      let w₁ = record w { resumed = w.resumed ++ h ∷ []; position = resumes hs last } in
      goes_on (step_from w (resumes (h ∷ hs) last) at) (
        then_leads (resumes-Emptied hs last w₁ refl) (λ w' e. arrived (record {
          same = e.same;
          position = e.position;
          ready = e.ready;
          all = λ g. omega (arith, e.all g, count-append g w.resumed (h ∷ []));
        })))

  pub drains_ready-Turned :
      (last : Bool) (w : World K) → w.position ≡ drains_ready last → Leads (Turned last w) w
  unfolding step_at drain_ready
  drains_ready-Turned last w at =
      let w₁ = record w { io = record w.io { ready = [] }; position = resumes w.io.ready last } in
      goes_on (step_from w (drains_ready last) at) (
        then_leads (resumes-Emptied w.io.ready last w₁ refl) (λ w' e. arrived (record {
          kept = record { same = e.same; all = λ h. omega (arith, e.all h) };
          position = e.position;
          empty = e.ready;
        })))

  pub resumes_due-Turned :
      (last : Bool) (w : World K) → w.position ≡ resumes_due last → Leads (Turned last w) w
  unfolding step_at resume_due_timers
  resumes_due-Turned last w at =
      let (due, rest) = collect_due w.io.heap (env.now w) in
      turn_on (resumes_due last) at refl
        (record {
          same = refl;
          all = λ h. omega (arith, complete_timers-keep (record w.io { heap = rest }) due h);
        })
        (drains_ready-Turned last
          (record w { io = resume_due_timers w.io (env.now w); position = drains_ready last }) refl)

  module _ (counts : Counts fd) where
    pub drained-Turned :
        (es : List Event) (w : World K)
        → w.position ≡ drains_wake_fd es
        → fd.readable w.wake_fd ≡ false
        → ((w₁ : World K) → w₁.position ≡ handles es → Leads (Turned false w₁) w₁)
        → Leads (Turned false w) w
    unfolding step_at drain_wake_fd
    drained-Turned es w at quiet next =
        turn_on (drains_wake_fd es) at (rw (counts.read_fails w.wake_fd quiet, drain_wake_fd) refl)
          (Kept-refl w (handles es) w.wake_fd) (next (record w { position = handles es }) refl)

    pub drains-Turned :
        (es : List Event) (w : World K)
        → w.position ≡ drains_wake_fd es
        → ((w₁ : World K) → w₁.position ≡ handles es → Leads (Turned false w₁) w₁)
        → Leads (Turned false w) w
    unfolding step_at drain_wake_fd
    drains-Turned es w at next = by_read (fd.read w.wake_fd) refl
      where
        by_read : (r : Option K) → fd.read w.wake_fd ≡ r → Leads (Turned false w) w
        by_read none e =
            turn_on (drains_wake_fd es) at (rw (e, drain_wake_fd) refl)
              (Kept-refl w (handles es) w.wake_fd) (next (record w { position = handles es }) refl)
        by_read (some k) e =
            turn_on (drains_wake_fd es) at (rw (e, drain_wake_fd) refl) (Kept-refl w w.position k) (
              drained-Turned es (record w { wake_fd = k }) at (counts.read_empties w.wake_fd k e)
                next)

    pub handles-Turned :
        (es : List Event) (w : World K) → w.position ≡ handles es → Leads (Turned false w) w
    unfolding step_at handle_event
    handles-Turned [] w at =
        turn_on (handles []) at refl (Kept-refl w (resumes_due false) w.wake_fd)
          (resumes_due-Turned false (record w { position = resumes_due false }) refl)
    handles-Turned (wake_tag ∷ es) w at =
        turn_on (handles (wake_tag ∷ es)) at refl (Kept-refl w (drains_wake_fd es) w.wake_fd)
          (drains-Turned es (record w { position = drains_wake_fd es }) refl (handles-Turned es))
    handles-Turned (no_state ∷ es) w at =
        turn_on (handles (no_state ∷ es)) at refl (Kept-refl w (handles es) w.wake_fd)
          (handles-Turned es (record w { position = handles es }) refl)
    handles-Turned (descriptor_event ctl d e ∷ es) w at =
        turn_on (handles (descriptor_event ctl d e ∷ es)) at refl
          (record {
            same = refl;
            all =
                λ h. omega (arith, enqueue_all-ready w.io (dispatch_descriptor_event ctl d e).1 h);
          })
          (handles-Turned es (handle_event w (descriptor_event ctl d e) es) refl)

    pub polls-Turned :
        (heap : List TimerItem) (timeout : ℕ) (w : World K)
        → w.position ≡ polls heap timeout
        → Answers (env.poll w timeout)
        → Leads (Turned false w) w
    unfolding step_at poll_once
    polls-Turned heap timeout w at answers = by_answer (env.poll w timeout) refl answers
      where
        by_answer : (a : PollAnswer) → env.poll w timeout ≡ a → Answers a → Leads (Turned false w) w
        by_answer interrupted e is_interrupted =
            turn_on (polls heap timeout) at (ap (poll_once w) e)
              (Kept-refl w (resumes_due false) w.wake_fd)
              (resumes_due-Turned false (record w { position = resumes_due false }) refl)
        by_answer (events es) e (has_events _) =
            turn_on (polls heap timeout) at (ap (poll_once w) e)
              (Kept-refl w (handles es) w.wake_fd)
              (handles-Turned es (record w { position = handles es }) refl)
        by_answer blocked e a = elim a [ ]
        by_answer (failed error) e a = elim a [ ]
