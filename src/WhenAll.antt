-- ===== src/WhenAll.antt =====
-- include/xcoro/when_all.hpp: the latch on which `when_all` waits for its tasks.
-- Each `fetch_sub` is one step; the count is a 64-bit word.
pub mod Latch
pub mod Gather
pub mod Void
pub mod Slots
pub mod Results
pub mod Failure
mod Examples
use xcoro.Base.{
  ℕ, zero, suc, ◌+◌, Bool, Option, none, some, ltb, ◌==◌, if◌then◌else◌, add_size, sub_size,
}

pub record WhenAllLatch : Type 0 where
  pub count : ℕ
  pub awaiting_coroutine : Option ℕ

unfoldable pub make : ℕ → WhenAllLatch
make count = record { count = add_size count 1; awaiting_coroutine = none }

unfoldable pub is_ready : WhenAllLatch → Bool
is_ready l = l.count == 1

unfoldable pub set_awaiting_coroutine : WhenAllLatch → ℕ → WhenAllLatch
set_awaiting_coroutine l handle = record l { awaiting_coroutine = some handle }

-- True if the coroutine stays suspended.
unfoldable pub try_await : WhenAllLatch → WhenAllLatch × Bool
try_await l = (record l { count = sub_size l.count 1 }, ltb 1 l.count)

-- The result has the coroutine that is resumed.
unfoldable pub notify_awaitable_completed : WhenAllLatch → WhenAllLatch × Option ℕ
notify_awaitable_completed l =
    (record l { count = sub_size l.count 1 }, if l.count == 1 then l.awaiting_coroutine else none)

abbrev resumptions : Option ℕ → ℕ
resumptions none = 0
resumptions (some handle) = 1

-- `n` tasks complete, one behind the other; the number is how often the coroutine is resumed.
unfoldable pub complete_tasks : ℕ → WhenAllLatch → WhenAllLatch × ℕ
unfolding notify_awaitable_completed
complete_tasks zero l = (l, 0)
complete_tasks (suc n) l =
    let (l₁, resumed) = notify_awaitable_completed l in
    let (l₂, later) = complete_tasks n l₁ in (l₂, resumptions resumed + later)
