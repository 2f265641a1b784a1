-- ===== src/Event/Examples.antt =====
-- The theorem on the event at a concrete order of calls.
use xcoro.Base.{◌+◌, ◌≡◌, ◌⊎◌, true, false, List, [], ◌∷◌, count}
use xcoro.Event.{System, Call, awaits, sets, resumes, init, run, is_set}
use xcoro.Event.Balance.{rest_of_set, run_resumes}

-- Two coroutines wait, and the event is set; one of them has been resumed when a third one comes.
abbrev calls : List Call
calls = awaits 4 ∷ awaits 5 ∷ sets ∷ resumes ∷ awaits 6 ∷ sets ∷ []

abbrev here : System
here = run init calls

run_resumes_example :
    ((is_set here.event ≡ false) × (here.pending ≡ []) × (here.resumed ≡ []))
    ⊎ ((is_set here.event ≡ true)
        × (count 4 here.resumed + count 4 here.pending ≡ count 4 here.suspended)
        × ((run here (rest_of_set here)).pending ≡ [])
        × (count 4 (run here (rest_of_set here)).resumed ≡ count 4 here.suspended))
run_resumes_example = run_resumes 4 calls
