-- ===== src/Resolver/System.antt =====
-- The worker, the operations that are awaited, and the threads that cancel them, interleaved in any
-- order. A turn is one block under a lock, or a call behind it.
use xcoro.Base.{ℕ, ◌<◌, ◌≡◌, Bool, true, false, Option, []}
use xcoro.Endpoint.{String}
use xcoro.Resolver.{
  ResolveQuery, AddrInfo, resolve, new_job, waits, took, resolving, resuming, Resolver,
  await_suspend, submit, take_job, check_job, finish_job, resume_job, cancel_job, enqueue_cancelled,
  abandon_job, stop,
}

-- A query with nothing in it, for the jobs that are not there.
abbrev pub no_query : ResolveQuery
no_query = record { host = []; service = []; family = 0; socktype = 0; flags = 0 }

abbrev pub init : Resolver
init = record {
  jobs = [];
  stopping = false;
  worker = waits;
  job = λ _. new_job no_query 0;
  next = 0;
  unsubmitted = λ _. false;
  cancelling = λ _. false;
  abandoned = λ _. false;
  ready = [];
}

pub data Turn : Type 0 where
  awaits : Bool → ResolveQuery → ℕ → Turn
  submits : ℕ → Turn
  takes : Turn
  checks : ℕ → Turn
  finishes : ℕ → Turn
  resumes : ℕ → Turn
  cancels : ℕ → Turn
  enqueues : ℕ → Turn
  abandons : ℕ → Turn
  stops : Turn

-- Whose turn it can be.
abbrev pub May : Resolver → Turn → Type 0
May s (awaits requested query handle) = Unit {0}
May s (submits j) = s.unsubmitted j ≡ true
May s takes = s.worker ≡ waits
May s (checks j) = s.worker ≡ took j
May s (finishes j) = s.worker ≡ resolving j
May s (resumes j) = s.worker ≡ resuming j
May s (cancels j) = j < s.next
May s (enqueues j) = s.cancelling j ≡ true
May s (abandons j) = j < s.next
May s stops = Unit {0}

module _ (getaddrinfo : Option String → ResolveQuery → AddrInfo) where
  unfoldable pub perform : Resolver → Turn → Resolver
  unfolding await_suspend submit take_job check_job finish_job resume_job cancel_job
      enqueue_cancelled abandon_job stop
  perform s (awaits requested query handle) = (await_suspend s requested query handle).0
  perform s (submits j) = submit s j
  perform s takes = take_job s
  perform s (checks j) = check_job s j
  perform s (finishes j) = finish_job s j (resolve getaddrinfo (s.job j).request)
  perform s (resumes j) = resume_job s j
  perform s (cancels j) = cancel_job s j
  perform s (enqueues j) = enqueue_cancelled s j
  perform s (abandons j) = abandon_job s j
  perform s stops = stop s

  pub data Reach : Resolver → Type 0 where
    start : Reach init
    later : {s : Resolver} (t : Turn) → Reach s → May s t → Reach (perform s t)
