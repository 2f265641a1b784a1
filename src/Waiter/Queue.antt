-- ===== src/Waiter/Queue.antt =====
-- The loop that `unlock`, `release` and `notify_one` share: which waiter `claim_next` takes. It is the first in the queue that is still live.
use xcoro.Base.{
  ℕ, ◌≡◌, refl, ap, ◌⊎◌, inl, inr, true, false, none, some, List, [], ◌∷◌, ◌++◌, arith, Option,
  Option-cases, Bool-cases,
}
use xcoro.Waiter.{
  waiting_await_suspend, suspended, wake_requested, WaiterState, Store, Claim, claim_next,
  try_mark_resumed,
}

-- The record of a waiter that a waker serves: a coroutine that is suspended is resumed by the
-- caller, one that is still in `await_suspend` is told not to suspend.
abbrev pub woken : WaiterState → WaiterState
woken w = record w {
  resumed = true;
  suspend_phase = elim w.suspend_phase [
    | suspended ↦ suspended
    | waiting_await_suspend ↦ wake_requested
    | wake_requested ↦ wake_requested
  ];
}

abbrev pub wake_handle : WaiterState → Option ℕ
wake_handle w = elim w.suspend_phase [ suspended ↦ some w.handle | _ ↦ none ]

-- A waiter that no waker has to serve: a null pointer, or resumed already (it was cancelled).
abbrev pub IsSpent : Store → ℕ → Type 0
IsSpent store p = (store p ≡ none) ⊎ ((w : WaiterState) × (store p ≡ some w) × (w.resumed ≡ true))

abbrev pub AllSpent : Store → List ℕ → Type 0
AllSpent store [] = Unit {0}
AllSpent store (p ∷ ps) = IsSpent store p × AllSpent store ps

pub claim_next-AllSpent :
    (store : Store) (ps : List ℕ) → AllSpent store ps → claim_next store ps ≡ none
unfolding claim_next
claim_next-AllSpent store [] h = refl
claim_next-AllSpent store (p ∷ ps) h = ground (arith, claim_next-AllSpent store ps h.1)

pub claim_next-live :
    (store : Store) (spent : List ℕ) (p : ℕ) (rest : List ℕ) (w : WaiterState)
    → AllSpent store spent
    → store p ≡ some w
    → w.resumed ≡ false
    → claim_next store (spent ++ p ∷ rest)
      ≡ some (record { address = p; waiter = record w { resumed = true }; rest = rest })
unfolding claim_next
claim_next-live store [] p rest w h e live = ground arith
claim_next-live store (q ∷ qs) p rest w h e live =
    ground (arith, claim_next-live store qs p rest w h.1 e live)

-- The waiter that is claimed was live, and the queue is split at it.
pub claim_next-inv :
    (store : Store) (ps : List ℕ) (c : Claim)
    → claim_next store ps ≡ some c
    → (w : WaiterState) × (spent : List ℕ) × (store c.address ≡ some w)
      × (w.resumed ≡ false)
      × (c.waiter ≡ record w { resumed = true })
      × (ps ≡ spent ++ c.address ∷ c.rest)
      × AllSpent store spent
unfolding claim_next try_mark_resumed
claim_next-inv store [] c e = cc
claim_next-inv store (p ∷ ps) c e = elim (Option-cases (store p)) [
  | inl null ↦
      let (w, spent, at, live, mark, split, done) = claim_next-inv store ps c (ground arith) in
      (w, p ∷ spent, at, live, mark, ap (◌∷◌ p) split, (inl null, done))
  | inr (v, here) ↦ elim (Bool-cases v.resumed) [
    | inl old ↦
        let (w, spent, at, live, mark, split, done) = claim_next-inv store ps c (ground arith) in
        (w, p ∷ spent, at, live, mark, ap (◌∷◌ p) split, (inr (v, here, old), done))
    | inr live ↦ (v, [], ground arith, live, ground arith, ground arith, tt)
  ]
]
