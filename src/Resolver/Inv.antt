-- ===== src/Resolver/Inv.antt =====
-- Who has a job, and who answers it: counts that every turn keeps.
use xcoro.Base.{
  ℕ, ◌+◌, ◌≤◌, ◌<◌, ◌≡◌, refl, Bool, true, false, Option, [], ◌∷◌, arith, count, count-append, ◌==◌,
  if◌then◌else◌,
}
use xcoro.Endpoint.{String}
use xcoro.Resolver.{
  ResolveQuery, AddrInfo, Worker, waits, took, resolving, resuming, returned, Resolver,
}
use xcoro.Resolver.System.{
  Turn, awaits, submits, takes, checks, finishes, resumes, cancels, enqueues, abandons, stops, May,
  perform, Reach, start, later,
}

abbrev pub one : Bool → ℕ
one true = 1
one false = 0

-- Whether the worker has the job in hand, before its answer and behind it.
abbrev pub handles : Worker → ℕ → ℕ
handles waits j = 0
handles (took i) j = if i == j then 1 else 0
handles (resolving i) j = if i == j then 1 else 0
handles (resuming i) j = 0
handles returned j = 0

abbrev pub resumes_next : Worker → ℕ → ℕ
resumes_next waits j = 0
resumes_next (took i) j = 0
resumes_next (resolving i) j = 0
resumes_next (resuming i) j = if i == j then 1 else 0
resumes_next returned j = 0

pub record Inv (s : Resolver) (j : ℕ) : Type 0 where
  pub answers :
      count j s.ready + resumes_next s.worker j + one (s.cancelling j) + one (s.abandoned j)
      ≡ one (s.job j).completed
  pub pends :
      j < s.next
      → 1 ≤ one (s.job j).completed + one (s.unsubmitted j) + count j s.jobs + handles s.worker j
  pub absent : s.next ≤ j → (s.job j).completed ≡ false
  pub known : 0 < one (s.unsubmitted j) + count j s.jobs + handles s.worker j → j < s.next

module _ (getaddrinfo : Option String → ResolveQuery → AddrInfo) where
  step-Inv : (s : Resolver) (t : Turn) (j : ℕ) → May s t → Inv s j → Inv (perform getaddrinfo s t) j
  unfolding perform
  step-Inv s (awaits requested query handle) j may v = record {
    answers = ground (arith, v.answers, v.answers, v.absent, v.known);
    pends = ground (arith, v.pends, v.answers, v.absent, v.known);
    absent = ground (arith, v.absent, v.answers, v.absent, v.known);
    known = ground (arith, v.known, v.answers, v.absent, v.known);
  }
  step-Inv s (submits i) j may v = record {
    answers = ground (arith, v.answers);
    pends = ground (arith, v.pends, count-append j s.jobs (i ∷ []));
    absent = v.absent;
    known = ground (arith, v.known, count-append j s.jobs (i ∷ []), may);
  }
  step-Inv s takes j may v = record {
    answers = ground (arith, v.answers, may, v.answers);
    pends = ground (arith, v.pends, may, v.answers);
    absent = ground (arith, v.absent, may, v.answers);
    known = ground (arith, v.known, may, v.answers);
  }
  step-Inv s (checks i) j may v = record {
    answers = ground (arith, v.answers, may);
    pends = ground (arith, v.pends, may);
    absent = ground (arith, v.absent, may);
    known = ground (arith, v.known, may);
  }
  step-Inv s (finishes i) j may v = record {
    answers = ground (arith, v.answers, may, v.answers, v.absent, v.known);
    pends = ground (arith, v.pends, may, v.answers, v.absent, v.known);
    absent = ground (arith, v.absent, may, v.answers, v.absent, v.known);
    known = ground (arith, v.known, may, v.answers, v.absent, v.known);
  }
  step-Inv s (resumes i) j may v = record {
    answers = ground (arith, v.answers, may, count-append j s.ready (i ∷ []));
    pends = ground (arith, v.pends, may, count-append j s.ready (i ∷ []));
    absent = ground (arith, v.absent, may, count-append j s.ready (i ∷ []));
    known = ground (arith, v.known, may, count-append j s.ready (i ∷ []));
  }
  step-Inv s (cancels i) j may v = record {
    answers = ground (arith, v.answers, may, v.answers);
    pends = ground (arith, v.pends, may, v.answers);
    absent = ground (arith, v.absent, may, v.answers);
    known = ground (arith, v.known, may, v.answers);
  }
  step-Inv s (enqueues i) j may v = record {
    answers = ground (arith, v.answers, may, v.answers, count-append j s.ready (i ∷ []));
    pends = ground (arith, v.pends, may, v.answers, count-append j s.ready (i ∷ []));
    absent = ground (arith, v.absent, may, v.answers, count-append j s.ready (i ∷ []));
    known = ground (arith, v.known, may, v.answers, count-append j s.ready (i ∷ []));
  }
  step-Inv s (abandons i) j may v = record {
    answers = ground (arith, v.answers, may, v.answers);
    pends = ground (arith, v.pends, may, v.answers);
    absent = ground (arith, v.absent, may, v.answers);
    known = ground (arith, v.known, may, v.answers);
  }
  step-Inv s stops j may v = record {
    answers = ground (arith, v.answers);
    pends = ground (arith, v.pends);
    absent = ground (arith, v.absent);
    known = ground (arith, v.known);
  }

  pub Reach-Inv : {s : Resolver} (j : ℕ) → Reach getaddrinfo s → Inv s j
  Reach-Inv j start = record {
    answers = ground arith;
    pends = ground arith;
    absent = λ le. refl;
    known = ground arith;
  }
  Reach-Inv j (later {s} t r may) = step-Inv s t j may (Reach-Inv j r)
