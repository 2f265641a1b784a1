-- ===== src/Resolver.antt =====
-- include/xcoro/net/resolver.hpp and include/xcoro/net/detail/blocking_resolver.hpp: name resolution on
-- a worker thread.
-- `getaddrinfo` is a parameter. A job is an address. In place of the io_context is the list of the
-- jobs whose coroutine was enqueued; the context and the handle of a job are never null. The worker's
-- wait on its condition variable is a turn that changes nothing.
pub mod System
pub mod Inv
pub mod Content
pub mod Once
mod Examples
use xcoro.Base.{
  ℕ, ◌+◌, Bool, true, false, ◌&&◌, Option, none, some, List, [], ◌∷◌, ◌++◌, ◌==◌, if◌then◌else◌,
  update,
}
use xcoro.Endpoint.{
  String, bracket, closing, Storage, Endpoint, Made, made, invalid_numeric_address,
  invalid_sockaddr, front_is, back_is, inner, from_sockaddr,
}

pub record ResolveQuery : Type 0 where
  pub host : String
  pub service : String
  pub family : ℕ
  pub socktype : ℕ
  pub flags : ℕ

-- What `getaddrinfo` answers: an error's number, or the list of addresses with their lengths.
pub data AddrInfo : Type 0 where
  error : ℕ → AddrInfo
  addresses : List (Option Storage × ℕ) → AddrInfo

-- How resolving ends: with endpoints, with `std::runtime_error` of an error's text or of an address
-- that is none, or with `operation_cancelled`.
pub data Resolved : Type 0 where
  endpoints : List Endpoint → Resolved
  gai_error : ℕ → Resolved
  bad_sockaddr : Resolved
  operation_cancelled : Resolved

unfoldable pub normalize_host : String → String
unfolding front_is back_is inner
normalize_host host = if front_is bracket host && back_is closing host then inner host else host

-- The loop over the list: the first address that is none ends it.
unfoldable pub collect : List (Option Storage × ℕ) → Resolved
unfolding from_sockaddr
collect [] = endpoints []
collect ((sa, len) ∷ rest) = elim (from_sockaddr sa len) [
  | made ep ↦ elim (collect rest) [
    | endpoints eps ↦ endpoints (ep ∷ eps)
    | gai_error e ↦ gai_error e
    | bad_sockaddr ↦ bad_sockaddr
    | operation_cancelled ↦ operation_cancelled
  ]
  | invalid_numeric_address s ↦ bad_sockaddr
  | invalid_sockaddr ↦ bad_sockaddr
]

-- The host is null where it is empty; the hints are the query's other fields.
unfoldable pub resolve : (Option String → ResolveQuery → AddrInfo) → ResolveQuery → Resolved
unfolding normalize_host collect
resolve getaddrinfo query =
    let host = normalize_host query.host in
    let asked : Option String = elim host [ [] ↦ none | c ∷ cs ↦ some (c ∷ cs) ] in
    elim (getaddrinfo asked query) [ error e ↦ gai_error e | addresses found ↦ collect found ]

pub record ResolveJob : Type 0 where
  pub request : ResolveQuery
  pub handle : ℕ
  pub result : Option (List Endpoint)
  pub exception : Option Resolved
  pub completed : Bool
  pub cancelled : Bool

-- Where the worker is: at its wait, with a job that it took, calling `resolve_fn`, behind the block
-- that set `should_resume`, or at its end.
pub data Worker : Type 0 where
  waits : Worker
  took : ℕ → Worker
  resolving : ℕ → Worker
  resuming : ℕ → Worker
  returned : Worker

-- Besides the queue: the jobs by address and the next address; of each job, whether its `submit` is
-- still to come, whether the callback that cancelled it has still to enqueue it, and whether the
-- destructor of its operation completed it.
pub record Resolver : Type 0 where
  pub jobs : List ℕ
  pub stopping : Bool
  pub worker : Worker
  pub job : ℕ → ResolveJob
  pub next : ℕ
  pub unsubmitted : ℕ → Bool
  pub cancelling : ℕ → Bool
  pub abandoned : ℕ → Bool
  pub ready : List ℕ

abbrev pub new_job : ResolveQuery → ℕ → ResolveJob
new_job query handle = record {
  request = query;
  handle = handle;
  result = none;
  exception = none;
  completed = false;
  cancelled = false;
}

-- `await_suspend` up to `submit`, by whether cancellation was requested. The result has the job; the
-- coroutine stays suspended if there is one.
unfoldable pub await_suspend : Resolver → Bool → ResolveQuery → ℕ → Resolver × Option ℕ
await_suspend s requested query handle = if requested then (s, none) else (
  record s {
    job = update s.job s.next (new_job query handle);
    unsubmitted = update s.unsubmitted s.next true;
    next = s.next + 1;
  },
  some s.next,
)

unfoldable pub submit : Resolver → ℕ → Resolver
submit s j = record s { jobs = s.jobs ++ j ∷ []; unsubmitted = update s.unsubmitted j false }

-- The worker's block under the queue's lock.
unfoldable pub take_job : Resolver → Resolver
take_job s = elim s.jobs [
  | [] ↦ record s { worker = if s.stopping then returned else waits }
  | j ∷ rest ↦ record s { jobs = rest; worker = took j }
]

-- The worker's first look at the job.
unfoldable pub check_job : Resolver → ℕ → Resolver
check_job s j = record s { worker = if (s.job j).completed then waits else resolving j }

-- The rest of the `try` block, or the `catch`, when `resolve_fn` has ended.
abbrev pub with_outcome : ResolveJob → Resolved → ResolveJob
with_outcome job (endpoints eps) = record job { result = some eps; completed = true }
with_outcome job (gai_error e) = record job { exception = some (gai_error e); completed = true }
with_outcome job bad_sockaddr = record job { exception = some bad_sockaddr; completed = true }
with_outcome job operation_cancelled = record job {
  exception = some operation_cancelled;
  completed = true;
}

unfoldable pub finish_job : Resolver → ℕ → Resolved → Resolver
finish_job s j outcome =
    if (s.job j).completed
    then record s { worker = waits }
    else record s { worker = resuming j; job = update s.job j (with_outcome (s.job j) outcome) }

unfoldable pub resume_job : Resolver → ℕ → Resolver
resume_job s j = record s { worker = waits; ready = s.ready ++ j ∷ [] }

abbrev pub cancelled_job : ResolveJob → ResolveJob
cancelled_job job = record job { completed = true; cancelled = true }

-- The callback of the registration: its block under the job's lock, and what it does behind it.
unfoldable pub cancel_job : Resolver → ℕ → Resolver
cancel_job s j = if (s.job j).completed then s else record s {
  job = update s.job j (cancelled_job (s.job j));
  cancelling = update s.cancelling j true;
}

unfoldable pub enqueue_cancelled : Resolver → ℕ → Resolver
enqueue_cancelled s j = record s {
  cancelling = update s.cancelling j false;
  ready = s.ready ++ j ∷ [];
}

-- The destructor of the operation.
unfoldable pub abandon_job : Resolver → ℕ → Resolver
abandon_job s j = if (s.job j).completed then s else record s {
  job = update s.job j (cancelled_job (s.job j));
  abandoned = update s.abandoned j true;
}

-- `~blocking_resolver`, up to the join.
unfoldable pub stop : Resolver → Resolver
stop s = record s { stopping = true }

-- By `cancelled_inline_` and the job, which is null before `await_suspend`.
unfoldable pub await_resume : Bool → Option ResolveJob → Resolved
await_resume true job = operation_cancelled
await_resume false none = endpoints []
await_resume false (some job) = if job.cancelled then operation_cancelled else elim job.exception [
  | some e ↦ e
  | none ↦ elim job.result [ some eps ↦ endpoints eps | none ↦ endpoints [] ]
]
