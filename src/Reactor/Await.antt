-- ===== src/Reactor/Await.antt =====
-- `fd_wait_awaiter` of include/xcoro/net/io_context.hpp: one wait for a descriptor, from its start to
-- what it tells the coroutine.
use xcoro.Base.{
  ℕ, ◌≡◌, ◌⊎◌, inl, inr, Bool, true, false, not, ◌||◌, Option, none, some, List, [], arith, ◌==◌,
  if◌then◌else◌, update, Bool-cases, Option-cases,
}
use xcoro.Reactor.{
  WaitKind, Ctl, Descriptor, slot_for, reset, ebadf, ArmResult, refused, armed, concurrent_wait,
  ctl_failed, arm_wait, cancel_wait,
}

-- `token_.can_be_cancelled() && token_.is_cancellation_requested()` is `requested`.
unfoldable pub await_suspend : Ctl → Descriptor → WaitKind → ℕ → ℕ → Bool → Descriptor × ArmResult
unfolding arm_wait
await_suspend ctl d kind p handle requested =
    let marked : Descriptor = record d {
      operations =
          update d.operations p (record (reset handle) { cancelled = true; completed = true });
    } in
    if requested then (marked, refused) else arm_wait ctl d kind p handle

-- `await_resume` returns, or throws `operation_cancelled` or `system_error`.
pub data WaitEnd : Type 0 where
  waited operation_cancelled : WaitEnd
  system_error : ℕ → WaitEnd

unfoldable pub await_resume : Descriptor → ℕ → WaitEnd
await_resume d p =
    let op = d.operations p in
    if op.cancelled
    then operation_cancelled
    else if op.error == 0
    then waited
    else system_error op.error

-- `~fd_wait_awaiter`; `none` if `cancel_wait` ends the process.
unfoldable pub destruct : Ctl → Descriptor → WaitKind → ℕ → Option (Descriptor × List ℕ)
unfolding cancel_wait
destruct ctl d kind p =
    if (d.operations p).completed then some (d, []) else cancel_wait ctl d kind p

-- A wait that is not started tells its coroutine why. On a requested cancellation it does not suspend
-- and throws `operation_cancelled`; on a descriptor that is closed or closing it does not suspend and
-- throws `EBADF`; where another waits already it throws at once and changes nothing; and otherwise it
-- is armed, unless `epoll_ctl` fails.
pub await_suspend-answers :
    (ctl : Ctl) (d : Descriptor) (kind : WaitKind) (p handle : ℕ) (requested : Bool)
    → let (d', r) = await_suspend ctl d kind p handle requested in
      ((requested ≡ true) × (r ≡ refused) × (await_resume d' p ≡ operation_cancelled))
      ⊎ (((requested ≡ false)
            × ((not d.is_open || d.closing) ≡ true)
            × (r ≡ refused)
            × (await_resume d' p ≡ system_error ebadf))
          ⊎ (((requested ≡ false) × (r ≡ concurrent_wait) × (d' ≡ d))
              ⊎ ((requested ≡ false)
                  × (slot_for d kind ≡ none)
                  × ((not d.is_open || d.closing) ≡ false)
                  × ((r ≡ armed) ⊎ (r ≡ ctl_failed)))))
unfolding await_suspend arm_wait await_resume
await_suspend-answers ctl d kind p handle requested = elim (Bool-cases requested) [
  | inl stop ↦ inl (ground arith)
  | inr keep ↦ elim (Bool-cases (not d.is_open || d.closing)) [
    | inl shut ↦ inr (inl (ground arith))
    | inr usable ↦ elim (Option-cases (slot_for d kind)) [
      | inl empty ↦ inr (inr (inr (ground arith)))
      | inr (q, taken) ↦ inr (inr (inl (ground arith)))
    ]
  ]
]
