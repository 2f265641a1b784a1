-- ===== src/Semaphore.antt =====
-- include/xcoro/semaphore.hpp: `counting_semaphore`.
-- `max` is the template's `LeastMaxValue`. A `ptrdiff_t` is an integer of the model; the counts that
-- the code keeps are natural numbers, since it never counts below 0. `release` is the
-- function under `NDEBUG`, where an assertion is nothing, and `asserts_fail` says when its assertion
-- fails otherwise. The waiters are those of the mutex, with their heap beside them.
pub mod Release
pub mod Permits
pub mod System
mod Examples
use Prim.Native.Nat.{pred}
use xcoro.Base.{
  ℕ, zero, suc, ◌+◌, ◌-◌, Bool, true, false, ◌&&◌, ◌||◌, Option, none, some, List, [], ◌∷◌, ◌++◌,
  ltb, leb, ◌==◌, if◌then◌else◌, update,
}
use xcoro.Waiter.{
  WaiterState, new_waiter, try_mark_suspended, should_resume_now, cancel_waiter, Store, Claim,
  claim_next,
}

pub record Semaphore : Type 0 where
  pub max : ℕ
  pub count : ℕ
  pub waiters : List ℕ
  pub store : Store
  pub next : ℕ

-- `sanitize_initial_count`; a negative count is `none`.
unfoldable pub sanitize_initial_count : ℕ → Option ℕ → ℕ
sanitize_initial_count max none = 0
sanitize_initial_count max (some count) = if ltb max count then max else count

unfoldable pub make : ℕ → Option ℕ → Semaphore
unfolding sanitize_initial_count
make max initial_count = record {
  max = max;
  count = sanitize_initial_count max initial_count;
  waiters = [];
  store = λ _. none;
  next = 0;
}

unfoldable pub try_acquire : Semaphore → Semaphore × Bool
try_acquire s = if ltb 0 s.count then (record s { count = s.count - 1 }, true) else (s, false)

-- False if a permit was free and is now taken, true if the waiter was queued.
unfoldable pub enqueue_waiter : Semaphore → ℕ → Semaphore × Bool
enqueue_waiter s p =
    if ltb 0 s.count
    then (record s { count = s.count - 1 }, false)
    else (record s { waiters = s.waiters ++ p ∷ [] }, true)

unfoldable pub make_waiter : Semaphore → ℕ → Semaphore × ℕ
make_waiter s handle = (
  record s { store = update s.store s.next (some (new_waiter handle)); next = s.next + 1 },
  s.next,
)

-- One round of the loop of `release`: one permit goes to the first live waiter, or to the count
-- unless that is at its maximum. The result has the handle that is added to `to_resume`.
unfoldable pub release_one : Semaphore → Semaphore × Option ℕ
release_one s = elim (claim_next s.store s.waiters) [
  | none ↦
      (record s { count = if s.count == s.max then s.count else s.count + 1; waiters = [] }, none)
  | some c ↦
      let (w, now) = should_resume_now c.waiter in
      (
        record s { waiters = c.rest; store = update s.store c.address (some w) },
        if now then some w.handle else none,
      )
]

abbrev add_handle : Option ℕ → List ℕ → List ℕ
add_handle none hs = hs
add_handle (some h) hs = h ∷ hs

-- The loop; the result has `to_resume`.
unfoldable pub release_loop : ℕ → Semaphore → Semaphore × List ℕ
release_loop zero s = (s, [])
release_loop (suc n) s =
    let (s₁, h) = release_one s in let (s₂, hs) = release_loop n s₁ in (s₂, add_handle h hs)

-- Some round fails the assertion of `release` that a permit for the count finds it below its maximum.
unfoldable pub asserts_fail : ℕ → Semaphore → Bool
unfolding release_one
asserts_fail zero s = false
asserts_fail (suc n) s =
    let rest = asserts_fail n (release_one s).0 in
    elim (claim_next s.store s.waiters) [ none ↦ (s.count == s.max) || rest | some c ↦ rest ]

-- `update <= 0` is `none` or `some 0`: nothing happens. The handles are resumed in this order.
unfoldable pub release : Semaphore → Option ℕ → Semaphore × List ℕ
unfolding release_loop
release s none = (s, [])
release s (some n) = release_loop n s

unfoldable pub suspend_waiter : Semaphore → ℕ → Semaphore × Bool
suspend_waiter s p = elim (s.store p) [
  | none ↦ (s, false)
  | some w ↦
      let (w', ok) = try_mark_suspended w in (record s { store = update s.store p (some w') }, ok)
]

unfoldable pub cancel : Semaphore → ℕ → Semaphore × Option ℕ
cancel s p = elim (s.store p) [
  | none ↦ (s, none)
  | some w ↦
      let (w', resumed) = cancel_waiter w in
      (record s { store = update s.store p (some w') }, resumed)
]

pub record Awaiter : Type 0 where
  pub can_be_cancelled : Bool
  pub state : Option ℕ
  pub cancelled_immediate : Bool

abbrev pub acquire : Bool → Awaiter
acquire can_be_cancelled = record {
  can_be_cancelled = can_be_cancelled;
  state = none;
  cancelled_immediate = false;
}

unfoldable pub await_ready : Awaiter → Semaphore → Bool → Awaiter × Semaphore × Bool
unfolding try_acquire
await_ready a s requested =
    if a.can_be_cancelled && requested
    then (record a { cancelled_immediate = true }, s, true)
    else let (s', got) = try_acquire s in (a, s', got)

unfoldable pub await_suspend : Awaiter → Semaphore → ℕ → Bool → Bool → Awaiter × Semaphore × Bool
unfolding make_waiter enqueue_waiter cancel suspend_waiter
await_suspend a s handle requested late =
    if a.can_be_cancelled && requested
    then (record a { cancelled_immediate = true }, s, false)
    else let (s₁, p) = make_waiter s handle in
      let (s₂, queued) = enqueue_waiter s₁ p in
      let (s₃, resumed) = if a.can_be_cancelled && late then cancel s₂ p else (s₂, none) in
      let (s₄, suspended) = suspend_waiter s₃ p in
      if queued then (record a { state = some p }, s₄, suspended) else (a, s₂, false)

-- True if it throws `operation_cancelled`.
unfoldable pub await_resume : Awaiter → Semaphore → Bool
await_resume a s = a.cancelled_immediate || elim a.state [
  | none ↦ false
  | some p ↦ elim (s.store p) [ none ↦ false | some w ↦ w.cancelled ]
]
