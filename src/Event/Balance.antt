-- ===== src/Event/Balance.antt =====
-- Who waits for the event is resumed by the thread that sets it, and by nobody before.
use xcoro.Base.{
  ℕ, ◌+◌, ◌≡◌, refl, ◌⊎◌, inl, inr, true, false, List, [], ◌∷◌, arith, length, count, count-append,
  replicate,
}
use xcoro.Event.{
  State, waiting, triggered, is_set, await_suspend, set, resume_next, Call, awaits, sets, resumes,
  System, init, call, run,
}

abbrev queued : State → List ℕ
queued (waiting handles) = handles
queued triggered = []

-- The turns that the loop of `set` has left.
abbrev pub rest_of_set : System → List Call
rest_of_set s = replicate (length s.pending) resumes

-- Nobody is resumed before the event is set.
abbrev Quiet : System → Type 0
Quiet s = ((is_set s.event ≡ false) × (s.pending ≡ []) × (s.resumed ≡ [])) ⊎ (s.event ≡ triggered)

record Inv (p : ℕ) (s : System) : Type 0 where
  balanced : count p s.resumed + count p s.pending + count p (queued s.event) ≡ count p s.suspended
  quiet : Quiet s

call-Inv : (p : ℕ) (s : System) (c : Call) → Inv p s → Inv p (call s c)
unfolding call await_suspend set resume_next is_set
call-Inv p s (awaits handle) v = record {
  balanced = ground (arith, v.balanced);
  quiet = ground (arith, v.quiet);
}
call-Inv p s sets v = record {
  balanced =
      ground
        (arith, v.balanced, count-append p s.pending (queued s.event), count-append p s.pending []);
  quiet = ground (arith, v.quiet);
}
call-Inv p s resumes v = record {
  balanced = ground (arith, v.balanced);
  quiet = ground (arith, v.quiet);
}

run-Inv : (p : ℕ) (s : System) (cs : List Call) → Inv p s → Inv p (run s cs)
unfolding run
run-Inv p s [] v = v
run-Inv p s (c ∷ cs) v = run-Inv p (call s c) cs (call-Inv p s c v)

-- The rest of the loop of `set` resumes what it has yet to resume.
run-rest :
    (p : ℕ) (s : System) (handles : List ℕ)
    → s.pending ≡ handles
    → ((run s (replicate (length handles) resumes)).pending ≡ [])
      × (count p (run s (replicate (length handles) resumes)).resumed
          ≡ count p s.resumed + count p handles)
unfolding run call resume_next
run-rest p s [] e = (e, omega arith)
run-rest p s (h ∷ hs) e =
    let (all, gone) = run-rest p (call s resumes) hs (rw e refl) in
    let first : count p (call s resumes).resumed ≡ count p (h ∷ s.resumed) = rw e refl in
    (all, omega (arith, gone, first))

-- However awaits, sets and the turns of the loop of `set` are ordered: before the event is set nobody
-- has been resumed. Once it is set, a coroutine has been resumed as often as it was suspended, but
-- for the times that the loop has yet to resume it; and when the loop goes on to its end, it has been
-- resumed exactly as often as it was suspended.
pub run_resumes :
    (p : ℕ) (cs : List Call)
    → ((is_set (run init cs).event ≡ false)
        × ((run init cs).pending ≡ [])
        × ((run init cs).resumed ≡ []))
      ⊎ ((is_set (run init cs).event ≡ true)
          × (count p (run init cs).resumed + count p (run init cs).pending
              ≡ count p (run init cs).suspended)
          × ((run (run init cs) (rest_of_set (run init cs))).pending ≡ [])
          × (count p (run (run init cs) (rest_of_set (run init cs))).resumed
              ≡ count p (run init cs).suspended))
unfolding is_set
run_resumes p cs = go (run init cs) (run-Inv p init cs before)
  where
    before : Inv p init
    before = record { balanced = refl; quiet = inl (refl, refl, refl) }

    go :
        (s : System)
        → Inv p s
        → ((is_set s.event ≡ false) × (s.pending ≡ []) × (s.resumed ≡ []))
          ⊎ ((is_set s.event ≡ true)
              × (count p s.resumed + count p s.pending ≡ count p s.suspended)
              × ((run s (rest_of_set s)).pending ≡ [])
              × (count p (run s (rest_of_set s)).resumed ≡ count p s.suspended))
    go s v = elim v.quiet [
      | inl off ↦ inl off
      | inr on ↦
          let (all, gone) = run-rest p s s.pending refl in
          let waits : count p (queued s.event) ≡ 0 = rw on refl in
          inr (
            rw on refl,
            omega (arith, v.balanced, waits),
            all,
            omega (arith, v.balanced, waits, gone),
          )
    ]
