-- ===== src/WhenAll/Latch.antt =====
-- The coroutine that waits for its tasks goes on once, behind the last of them.
use xcoro.Base.{
  ℕ, zero, suc, ◌+◌, ◌-◌, ◌^◌, ◌≤◌, ◌<◌, ◌≡◌, some, arith, ltb, ◌==◌, if◌then◌else◌, sub_size,
  mod_small, mod_once,
}
use xcoro.WhenAll.{
  make, set_awaiting_coroutine, try_await, notify_awaitable_completed, complete_tasks,
}

pub sub_size_one : (c : ℕ) → 0 < c → c < 2 ^ 64 → sub_size c 1 ≡ c - 1
sub_size_one c pos small = grind (arith, mod_once (c + 2 ^ 64 - 1) (2 ^ 64))

complete_tasks_lem :
    (n c handle : ℕ)
    → n ≤ c
    → c < 2 ^ 64
    → let (l, resumed) =
        complete_tasks n (record { count = c; awaiting_coroutine = some handle }) in
      (l ≡ record { count = c - n; awaiting_coroutine = some handle })
      × (resumed ≡ (if n == 0 then 0 else if n == c then 1 else 0))
unfolding complete_tasks notify_awaitable_completed
complete_tasks_lem zero c handle le small = ground arith
complete_tasks_lem (suc n) c handle le small = ground (
  arith,
  sub_size_one c (omega arith) small,
  complete_tasks_lem n (c - 1) handle (omega arith) (omega arith),
)

-- Some tasks complete before `try_await` and the others behind it. In every case the coroutine goes
-- on exactly once: at once, if all tasks are complete, since `try_await` says not to suspend; and
-- else by the last of the others. It is never resumed before it has been suspended.
pub latch_once :
    (before after handle : ℕ)
    → before + after + 1 < 2 ^ 64
    → let (l₁, early) =
        complete_tasks before (set_awaiting_coroutine (make (before + after)) handle) in
      let (l₂, stays) = try_await l₁ in
      let (l₃, late) = complete_tasks after l₂ in
      (early ≡ 0) × ((if stays then 0 else 1) + late ≡ 1) × (stays ≡ ltb 0 after) × (l₃.count ≡ 0)
unfolding make set_awaiting_coroutine try_await
latch_once before after handle small = ground (
  arith,
  mod_small (before + after + 1) (2 ^ 64) small,
  complete_tasks_lem before (before + after + 1) handle (omega arith) small,
  sub_size_one (after + 1) (omega arith) (omega arith),
  complete_tasks_lem after after handle (omega arith) (omega arith),
)
