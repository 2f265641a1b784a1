-- ===== src/Timers/Examples.antt =====
-- The theorem on the timers at a concrete queue.
use xcoro.Base.{ℕ, ◌+◌, ◌≡◌, refl, false, ◌||◌, [], ◌∷◌, arith, count, ltb, if◌then◌else◌}
use xcoro.Timers.{TimerItem, IoContext, resume_due_timers}
use xcoro.Timers.Fire.{AllLater, due_states, resume_due_timers-fires}

abbrev early_item : TimerItem
early_item = record { deadline = 5000000; state = 1 }

abbrev late_item : TimerItem
late_item = record { deadline = 9000000; state = 0 }

abbrev two_timers : IoContext
two_timers = record {
  heap = early_item ∷ late_item ∷ [];
  timers = λ p. record { handle = p; completed = false; cancelled = false };
  ready = [];
}

resume_due_timers-fires_example :
    let c' = resume_due_timers two_timers 6000000 in
    AllLater 6000000 c'.heap
    × ((p : ℕ)
        → ((c'.timers p).completed ≡ (
            (two_timers.timers p).completed
            || ltb 0 (count p (due_states 6000000 two_timers.heap))))
          × (count p c'.ready
              ≡ count p two_timers.ready
                + (if (two_timers.timers p).completed
                    then 0
                    else if ltb 0 (count p (due_states 6000000 two_timers.heap))
                    then 1
                    else 0)))
resume_due_timers-fires_example =
    resume_due_timers-fires two_timers 6000000 0 (omega arith, (omega arith, tt)) (λ p. refl)
