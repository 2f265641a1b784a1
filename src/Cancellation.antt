-- ===== src/Cancellation.antt =====
-- include/xcoro/cancellation_state.hpp, cancellation_token.hpp, cancellation_source.hpp and
-- cancellation_registration.hpp.
-- A `callback_state` is an address; `invoked` has its flag. A call of a callback is its address in
-- the result. A `std::shared_ptr` to a state that is null is `none`.
pub mod System
pub mod Inv
pub mod Once
mod Examples
use xcoro.Base.{
  ℕ, Bool, true, false, not, ◌||◌, Option, none, some, List, [], ◌∷◌, ◌++◌, ◌==◌, if◌then◌else◌,
  update,
}

pub record CancellationState : Type 0 where
  pub cancelled : Bool
  pub callbacks : List ℕ
  pub invoked : ℕ → Bool

abbrev pub init : CancellationState
init = record { cancelled = false; callbacks = []; invoked = λ _. false }

-- `callback_state::invoke`: the callback is called unless it has been.
unfoldable pub invoke : CancellationState → ℕ → CancellationState × List ℕ
invoke s cb =
    (record s { invoked = update s.invoked cb true }, if s.invoked cb then [] else cb ∷ [])

-- The part of `try_add_callback` under the lock. The test before it changes nothing.
unfoldable pub add_locked : CancellationState → ℕ → CancellationState × Bool
add_locked s cb =
    if s.cancelled then (s, false) else (record s { callbacks = s.callbacks ++ cb ∷ [] }, true)

unfoldable pub try_add_callback : CancellationState → ℕ → CancellationState × Bool
unfolding add_locked
try_add_callback s cb = if s.cancelled then (s, false) else add_locked s cb

erase_first : ℕ → List ℕ → List ℕ
erase_first cb [] = []
erase_first cb (x ∷ xs) = if x == cb then xs else x ∷ erase_first cb xs

unfoldable pub remove_callback : CancellationState → ℕ → CancellationState
unfolding erase_first
remove_callback s cb = record s { callbacks = erase_first cb s.callbacks }

-- The compare-exchange of `request_cancellation`: true if this call set the flag.
unfoldable pub claim_cancel : CancellationState → CancellationState × Bool
claim_cancel s = if s.cancelled then (s, false) else (record s { cancelled = true }, true)

-- `callbacks.swap(callbacks_)` under the lock.
unfoldable pub swap_callbacks : CancellationState → CancellationState × List ℕ
swap_callbacks s = (record s { callbacks = [] }, s.callbacks)

unfoldable pub invoke_all : CancellationState → List ℕ → CancellationState × List ℕ
unfolding invoke
invoke_all s [] = (s, [])
invoke_all s (cb ∷ cbs) =
    let (s₁, called) = invoke s cb in let (s₂, later) = invoke_all s₁ cbs in (s₂, called ++ later)

-- The whole call, when no other thread comes in between.
unfoldable pub request_cancellation : CancellationState → CancellationState × List ℕ × Bool
unfolding claim_cancel swap_callbacks invoke_all
request_cancellation s =
    let (s₁, first) = claim_cancel s in
    let (s₂, cbs) = swap_callbacks s₁ in
    let (s₃, called) = invoke_all s₂ cbs in if first then (s₃, called, true) else (s₁, [], false)

-- A token or a source: the state that it shares, if it has one.
abbrev pub Token : Type 0
Token = Option CancellationState

unfoldable pub can_be_cancelled : Token → Bool
can_be_cancelled none = false
can_be_cancelled (some s) = true

unfoldable pub is_cancellation_requested : Token → Bool
is_cancellation_requested none = false
is_cancellation_requested (some s) = s.cancelled

-- True if it throws `operation_cancelled`.
unfoldable pub throw_if_cancellation_requested : Token → Bool
unfolding is_cancellation_requested
throw_if_cancellation_requested t = is_cancellation_requested t

-- What a `cancellation_registration` holds on to: its callback, once that is in the list.
pub record Registration : Type 0 where
  pub callback : Option ℕ

-- `register_callback`: the callback is added to the state's list, or called at once when
-- cancellation has been requested; without a state nothing happens.
unfoldable pub register_callback : Token → ℕ → Token × Registration × List ℕ
unfolding try_add_callback invoke
register_callback none cb = (none, record { callback = none }, [])
register_callback (some s) cb =
    let (s₁, added) = try_add_callback s cb in
    let (s₂, called) = invoke s₁ cb in
    if added
    then (some s₁, record { callback = some cb }, [])
    else (some s₂, record { callback = none }, called)

-- `deregister`, which the destructor calls.
unfoldable pub deregister : CancellationState → Registration → CancellationState × Registration
unfolding remove_callback
deregister s r = elim r.callback [
  | none ↦ (s, r)
  | some cb ↦ (remove_callback s cb, record { callback = none })
]

-- `cancellation_token::awaiter`: it suspends unless there is nothing to wait for. The handle that is
-- to be resumed stands for the callback.
unfoldable pub await_ready : Token → Bool
unfolding can_be_cancelled is_cancellation_requested
await_ready t = not (can_be_cancelled t) || is_cancellation_requested t
