-- ===== src/EventLoop/System.antt =====
-- An event loop and any number of threads that give it work, one that runs and stops it among them,
-- interleaved in any order.
-- `run`, `run_in_current_thread` and `stop` work on `loop_thread_`, which no lock protects: they are
-- called while no other call of `stop` is under way, and there is one loop at a time.
use xcoro.Base.{ℕ, suc, ◌+◌, ◌≡◌, Bool, true, false, some, List, [], ◌∷◌, if◌then◌else◌, update}
use xcoro.Timers.{IoContext, TimerState, push, enqueue_ready, complete_timer, abandon}
use xcoro.EventLoop.{
  EventFd, absent, exited, not_stopping, before_wake, in_join, World, Surroundings, enqueue_all,
  wake, loop_step, run, run_in_current_thread, stop, stop_wake, join,
}

-- The calls that end in a `wake`: `schedule_awaiter::await_suspend`, `timer_awaiter::await_suspend`
-- where it pushes and in its callback, and the reactor's and the resolver's where they enqueue.
pub data Call : Type 0 where
  schedules : (handle : ℕ) → Call
  pushes_timer : (deadline p : ℕ) → Call
  cancels_timer : (p : ℕ) → Call
  readies : (h : ℕ) (hs : List ℕ) → Call

unfoldable pub perform : IoContext → Call → IoContext
unfolding enqueue_ready push complete_timer enqueue_all
perform c (schedules handle) = enqueue_ready c handle
perform c (pushes_timer deadline p) = push c deadline p
perform c (cancels_timer p) = complete_timer c p true
perform c (readies h hs) = enqueue_all c (h ∷ hs)

-- False for a callback that finds its timer completed.
unfoldable pub goes_on_to_wake : IoContext → Call → Bool
goes_on_to_wake c (schedules handle) = true
goes_on_to_wake c (pushes_timer deadline p) = true
goes_on_to_wake c (cancels_timer p) = if (c.timers p).completed then false else true
goes_on_to_wake c (readies h hs) = true

module _ {K : Type 0} where
  -- A call up to its `wake`.
  unfoldable pub begin_call : World K → Call → World K
  unfolding perform goes_on_to_wake
  begin_call w call = record w {
    io = perform w.io call;
    to_wake = if goes_on_to_wake w.io call then w.to_wake + 1 else w.to_wake;
  }

  abbrev pub init : IoContext → K → World K
  init io wake_fd = record {
    io = record io { heap = []; ready = [] };
    stopped = false;
    joinable = false;
    wake_fd = wake_fd;
    position = absent;
    stopper = not_stopping;
    to_wake = 0;
    resumed = [];
  }

module _ {K : Type 0} (fd : EventFd K) where
  pub data Step (w : World K) : World K → Type 0 where
    calls : (call : Call) → Step w (begin_call w call)
    call_wakes : (n : ℕ) → w.to_wake ≡ suc n → Step w (record (wake fd w) { to_wake = n })
    makes_timer :
        (p : ℕ) (t : TimerState)
        → Step w (record w { io = record (w.io) { timers = update w.io.timers p t } })
    abandons_timer : (p : ℕ) → Step w (record w { io = abandon w.io p })
    loop_steps : (env : Surroundings K) (w' : World K) → loop_step fd env w ≡ some w' → Step w w'
    runs : w.stopper ≡ not_stopping → (w.joinable ≡ false → w.position ≡ absent) → Step w (run w)
    runs_here :
        w.stopper ≡ not_stopping
        → (w.joinable ≡ false → w.position ≡ absent)
        → Step w (run_in_current_thread w)
    -- `run_in_current_thread` returns.
    returns : w.joinable ≡ false → w.position ≡ exited → Step w (record w { position = absent })
    stops : Step w (stop w)
    stop_wakes : w.stopper ≡ before_wake → Step w (stop_wake fd w)
    joins : w.stopper ≡ in_join → w.position ≡ exited → Step w (join w)

  pub data Reach (io : IoContext) (wake_fd : K) : World K → Type 0 where
    start : Reach io wake_fd (init io wake_fd)
    later : {w w' : World K} → Reach io wake_fd w → Step w w' → Reach io wake_fd w'
