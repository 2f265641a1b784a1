-- ===== src/Resolver/Examples.antt =====
-- The theorems on include/xcoro/net/resolver.hpp at a concrete run.
use xcoro.Base.{◌+◌, ◌≡◌, refl, false, Option, some, [], ◌∷◌, arith, count}
use xcoro.Endpoint.{String, sockaddr_in}
use xcoro.Resolver.{ResolveQuery, AddrInfo, addresses, resolve, Resolver, await_resume}
use xcoro.Resolver.System.{
  no_query, init, Turn, awaits, submits, takes, checks, finishes, resumes, cancels, perform, Reach,
  start, later,
}
use xcoro.Resolver.Inv.{one}
use xcoro.Resolver.Once.{resolve_complete, await_resume-answers}

abbrev one_address : Option String → ResolveQuery → AddrInfo
one_address host query = addresses ((some (sockaddr_in 80 7), 16) ∷ [])

-- A job is submitted, resolved and resumed, and its cancellation comes too late.
abbrev next_turn : Resolver → Turn → Resolver
next_turn s t = perform one_address s t

abbrev taken : Resolver
taken = next_turn (next_turn (next_turn init (awaits false no_query 5)) (submits 0)) takes

abbrev finished : Resolver
finished =
    next_turn (next_turn (next_turn (next_turn taken (checks 0)) (finishes 0)) (resumes 0))
      (cancels 0)

finished-Reach : Reach one_address finished
unfolding perform resolve
finished-Reach =
    later (cancels 0)
      (later (resumes 0)
        (later (finishes 0)
          (later (checks 0)
            (later takes (later (submits 0) (later (awaits false no_query 5) start tt) refl) refl)
            refl)
          refl)
        refl)
      (omega arith)

resolve_complete_example : count 0 finished.ready + one (finished.abandoned 0) ≡ 1
unfolding perform resolve
resolve_complete_example =
    resolve_complete one_address 0 finished-Reach (omega arith) refl refl refl refl

await_resume-answers_example :
    await_resume false (some (finished.job 0)) ≡ resolve one_address no_query
unfolding perform resolve
await_resume-answers_example = await_resume-answers one_address 0 finished-Reach (omega arith)
