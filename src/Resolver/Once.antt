-- ===== src/Resolver/Once.antt =====
-- Every job that was submitted is answered once, with what resolving it gives or with its
-- cancellation.
use xcoro.Base.{ℕ, ◌+◌, ◌≤◌, ◌<◌, ◌≡◌, false, Option, some, [], arith, count, if◌then◌else◌}
use xcoro.Endpoint.{String}
use xcoro.Resolver.{
  ResolveQuery, AddrInfo, operation_cancelled, resolve, waits, Resolver, await_resume,
}
use xcoro.Resolver.System.{Reach}
use xcoro.Resolver.Inv.{one, Reach-Inv}
use xcoro.Resolver.Content.{Reach-Content}

module _ (getaddrinfo : Option String → ResolveQuery → AddrInfo) where
  -- The coroutine of a job is enqueued at most once, and not at all when the destructor of its
  -- operation came before the worker and the cancellation.
  pub resumed_once :
      {s : Resolver} (j : ℕ) → Reach getaddrinfo s → count j s.ready + one (s.abandoned j) ≤ 1
  resumed_once j r = ground (arith, (Reach-Inv getaddrinfo j r).answers)

  -- Once the queue is empty, the worker is at its wait, and neither a `submit` nor a callback is
  -- under way for it, every job's coroutine has been enqueued exactly once, or its operation was
  -- destroyed before that.
  pub resolve_complete :
      {s : Resolver} (j : ℕ)
      → Reach getaddrinfo s
      → j < s.next
      → s.jobs ≡ []
      → s.worker ≡ waits
      → s.unsubmitted j ≡ false
      → s.cancelling j ≡ false
      → count j s.ready + one (s.abandoned j) ≡ 1
  resolve_complete j r lt empty idle submitted called =
      ground (arith, (Reach-Inv getaddrinfo j r).answers, (Reach-Inv getaddrinfo j r).pends)

  -- A coroutine that was enqueued gets, from `await_resume`, what resolving its query gives, be it the
  -- endpoints or the exception, unless the job was cancelled: then it gets `operation_cancelled`.
  pub await_resume-answers :
      {s : Resolver} (j : ℕ)
      → Reach getaddrinfo s
      → 0 < count j s.ready
      → await_resume false (some (s.job j)) ≡ (
          if (s.job j).cancelled
          then operation_cancelled
          else resolve getaddrinfo (s.job j).request)
  await_resume-answers {s} j r resumed =
      (Reach-Content getaddrinfo r j).answered (ground (arith, (Reach-Inv getaddrinfo j r).answers))
