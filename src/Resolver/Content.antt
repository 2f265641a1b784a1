-- ===== src/Resolver/Content.antt =====
-- What a job holds before and behind its answer.
use xcoro.Base.{
  ℕ, ◌≡◌, refl, sym, subst, Bool, true, false, Option, none, some, arith, ◌==◌, if◌then◌else◌,
  update,
}
use xcoro.Endpoint.{String}
use xcoro.Resolver.{
  new_job, cancelled_job, ResolveQuery, AddrInfo, Resolved, endpoints, gai_error, bad_sockaddr,
  operation_cancelled, resolve, ResolveJob, with_outcome, waits, resuming, Resolver, take_job,
  await_resume,
}
use xcoro.Resolver.System.{
  Turn, awaits, submits, takes, checks, finishes, resumes, cancels, enqueues, abandons, stops, May,
  perform, no_query, Reach, start, later,
}

module _ (getaddrinfo : Option String → ResolveQuery → AddrInfo) where
  -- What a job holds before and behind its answer.
  pub record Content (job : ResolveJob) : Type 0 where
    pub unanswered :
        job.completed ≡ false
        → (job.cancelled ≡ false) × (job.result ≡ none) × (job.exception ≡ none)
    pub answered :
        job.completed ≡ true
        → await_resume false (some job)
          ≡ (if job.cancelled then operation_cancelled else resolve getaddrinfo job.request)

  with_outcome-Content :
      (job : ResolveJob) (o : Resolved)
      → o ≡ resolve getaddrinfo job.request
      → job.completed ≡ false
      → Content job
      → Content (with_outcome job o)
  unfolding await_resume
  with_outcome-Content job (endpoints eps) e undone v = record {
    unanswered = ground (arith, e);
    answered = ground (arith, e, v.unanswered undone);
  }
  with_outcome-Content job (gai_error n) e undone v = record {
    unanswered = ground (arith, e);
    answered = ground (arith, e, v.unanswered undone);
  }
  with_outcome-Content job bad_sockaddr e undone v = record {
    unanswered = ground (arith, e);
    answered = ground (arith, e, v.unanswered undone);
  }
  with_outcome-Content job operation_cancelled e undone v = record {
    unanswered = ground (arith, e);
    answered = ground (arith, e, v.unanswered undone);
  }

  cancelled-Content : (job : ResolveJob) → Content (cancelled_job job)
  unfolding await_resume
  cancelled-Content job = record { unanswered = λ e. ground (arith, e); answered = λ e. refl }

  new-Content : (query : ResolveQuery) (handle : ℕ) → Content (new_job query handle)
  new-Content query handle = record {
    unanswered = λ e. (refl, refl, refl);
    answered = λ e. ground (arith, e);
  }

  if-Content : (b : Bool) (x y : ResolveJob) → Content x → Content y → Content (if b then x else y)
  if-Content true x y v w = v
  if-Content false x y v w = w

  branch-Content :
      (b : Bool) (x y : Resolver) (j : ℕ)
      → (b ≡ true → Content (x.job j))
      → (b ≡ false → Content (y.job j))
      → Content ((if b then x else y).job j)
  branch-Content true x y j v w = v refl
  branch-Content false x y j v w = w refl

  -- A job that is replaced.
  update-Content :
      (job : ℕ → ResolveJob) (i j : ℕ) (new : ResolveJob)
      → Content new
      → Content (job j)
      → Content (update job i new j)
  update-Content job i j new v w = if-Content (i == j) new (job j) v w

  take_job-job : (s : Resolver) (j : ℕ) → (take_job s).job j ≡ s.job j
  unfolding take_job
  take_job-job s j = ground arith

  step-Content :
      (s : Resolver) (t : Turn) (j : ℕ)
      → May s t
      → ((i : ℕ) → Content (s.job i))
      → Content ((perform getaddrinfo s t).job j)
  unfolding perform
  step-Content s (awaits true query handle) j may v = v j
  step-Content s (awaits false query handle) j may v =
      update-Content s.job s.next j (new_job query handle) (new-Content query handle) (v j)
  step-Content s (submits i) j may v = v j
  step-Content s takes j may v = subst Content (sym (take_job-job s j)) (v j)
  step-Content s (checks i) j may v = v j
  step-Content s (finishes i) j may v =
      let o = resolve getaddrinfo (s.job i).request in
      branch-Content (s.job i).completed (record s { worker = waits })
        (record s { worker = resuming i; job = update s.job i (with_outcome (s.job i) o) }) j
        (λ e. v j)
        (λ e.
          update-Content s.job i j (with_outcome (s.job i) o)
            (with_outcome-Content (s.job i) o refl e (v i)) (v j))
  step-Content s (resumes i) j may v = v j
  step-Content s (cancels i) j may v =
      branch-Content (s.job i).completed s
        (record s {
          job = update s.job i (cancelled_job (s.job i));
          cancelling = update s.cancelling i true;
        })
        j (λ e. v j)
        (λ e.
          update-Content s.job i j (cancelled_job (s.job i)) (cancelled-Content (s.job i)) (v j))
  step-Content s (enqueues i) j may v = v j
  step-Content s (abandons i) j may v =
      branch-Content (s.job i).completed s
        (record s {
          job = update s.job i (cancelled_job (s.job i));
          abandoned = update s.abandoned i true;
        })
        j (λ e. v j)
        (λ e.
          update-Content s.job i j (cancelled_job (s.job i)) (cancelled-Content (s.job i)) (v j))
  step-Content s stops j may v = v j

  pub Reach-Content : {s : Resolver} → Reach getaddrinfo s → (j : ℕ) → Content (s.job j)
  Reach-Content start j = new-Content no_query 0
  Reach-Content (later {s} t r may) j = step-Content s t j may (Reach-Content r)
