-- ===== src/Transfer.antt =====
-- include/xcoro/net/socket.hpp and include/xcoro/net/io_context.hpp: the loops that read and write.
-- Both files have the same loops; a socket also checks first that it is open. The kernel, the
-- token and the reactor are a parameter: what they answer, with their state.
-- `rounds` bounds the turns of a loop; a loop that goes on for longer is `pending`.
pub mod Kernel
pub mod NoSigpipe
pub mod Read
pub mod Write
mod Examples
use xcoro.Base.{
  ℕ, zero, suc, ◌+◌, Bool, List, [], ◌∷◌, ◌++◌, length, take, drop, leb, ◌==◌, if◌then◌else◌,
}
use xcoro.Base.{◌-◌}

-- `errno` as the loops tell it apart; `eagain` is also `EWOULDBLOCK`.
pub data Errno : Type 0 where
  eintr eagain : Errno
  other : ℕ → Errno

-- What `::read` answers, the bytes being those that it put into the buffer: n > 0, 0 or -1.
pub data ReadAnswer : Type 0 where
  bytes_read : ℕ → List ℕ → ReadAnswer
  end_of_file : ReadAnswer
  read_error : Errno → ReadAnswer

-- What `write_no_sigpipe` answers. A result of 0 comes with the `errno` that was there before.
pub data WriteAnswer : Type 0 where
  bytes_written : ℕ → WriteAnswer
  nothing_written : Errno → WriteAnswer
  write_error : Errno → WriteAnswer

-- What `co_await wait_readable` or `wait_writable` ends in: it resumes, or it throws
-- `operation_cancelled` or `system_error`.
pub data WaitAnswer : Type 0 where
  is_ready wait_cancelled : WaitAnswer
  wait_failed : ℕ → WaitAnswer

-- The environment of the loops, with its state. `read` gets the length of the buffer, `write` the
-- bytes that it may take.
pub record Environment {ℓ} (S : Type ℓ) : Type ℓ where
  pub cancellation_requested : S → Bool
  pub read : S → ℕ → ReadAnswer × S
  pub write : S → List ℕ → WriteAnswer × S
  pub wait : S → WaitAnswer × S

-- The coroutine returned a count (with the bytes in the buffer), threw `operation_cancelled` or
-- `system_error`, or goes on.
pub data Outcome : Type 0 where
  returned : ℕ → List ℕ → Outcome
  cancelled pending : Outcome
  failed : ℕ → Outcome

module _ {ℓ} {S : Type ℓ} (env : Environment S) where
  -- Behind `EAGAIN`: `co_await` the wait, and `continue`.
  unfoldable pub after_wait : S → (S → Outcome × S) → Outcome × S
  after_wait s continue =
      let (answer, s') = env.wait s in
      elim answer [
        | is_ready ↦ continue s'
        | wait_cancelled ↦ (cancelled, s')
        | wait_failed error ↦ (failed error, s')
      ]

  -- The tests of `errno`.
  unfoldable pub on_errno : Errno → S → (S → Outcome × S) → Outcome × S
  unfolding after_wait
  on_errno eintr s continue = continue s
  on_errno eagain s continue = after_wait s continue
  on_errno (other error) s continue = (failed error, s)

  -- `total` bytes were read, and `out` is what they are.
  unfoldable pub read_exact_loop : ℕ → S → ℕ → ℕ → List ℕ → Outcome × S
  unfolding on_errno
  read_exact_loop zero s count total out = (pending, s)
  read_exact_loop (suc rounds) s count total out =
      if leb count total
      then (returned total out, s)
      else if env.cancellation_requested s
      then (cancelled, s)
      else let (answer, s') = env.read s (count - total) in
        elim answer [
          | bytes_read n bytes ↦ read_exact_loop rounds s' count (total + n) (out ++ bytes)
          | end_of_file ↦ (returned total out, s')
          | read_error errno ↦
              on_errno errno s' (λ next. read_exact_loop rounds next count total out)
        ]

  unfoldable pub async_read_exact : ℕ → S → ℕ → Outcome × S
  unfolding read_exact_loop
  async_read_exact rounds s count =
      if count == 0 then (returned 0 [], s) else read_exact_loop rounds s count 0 []

  unfoldable pub read_some_loop : ℕ → S → ℕ → Outcome × S
  unfolding on_errno
  read_some_loop zero s count = (pending, s)
  read_some_loop (suc rounds) s count =
      if env.cancellation_requested s
      then (cancelled, s)
      else let (answer, s') = env.read s count in
        elim answer [
          | bytes_read n bytes ↦ (returned n bytes, s')
          | end_of_file ↦ (returned 0 [], s')
          | read_error errno ↦ on_errno errno s' (λ next. read_some_loop rounds next count)
        ]

  unfoldable pub async_read_some : ℕ → S → ℕ → Outcome × S
  unfolding read_some_loop
  async_read_some rounds s count =
      if count == 0 then (returned 0 [], s) else read_some_loop rounds s count

  -- `written` bytes of `src` were written.
  unfoldable pub write_all_loop : ℕ → S → List ℕ → ℕ → Outcome × S
  unfolding on_errno
  write_all_loop zero s src written = (pending, s)
  write_all_loop (suc rounds) s src written =
      if leb (length src) written
      then (returned written [], s)
      else if env.cancellation_requested s
      then (cancelled, s)
      else let (answer, s') = env.write s (drop written src) in
        elim answer [
          | bytes_written n ↦ write_all_loop rounds s' src (written + n)
          | nothing_written errno ↦
              on_errno errno s' (λ next. write_all_loop rounds next src written)
          | write_error errno ↦ on_errno errno s' (λ next. write_all_loop rounds next src written)
        ]

  unfoldable pub async_write_all : ℕ → S → List ℕ → Outcome × S
  unfolding write_all_loop
  async_write_all rounds s src =
      if length src == 0 then (returned 0 [], s) else write_all_loop rounds s src 0

  unfoldable pub write_some_loop : ℕ → S → List ℕ → Outcome × S
  unfolding on_errno
  write_some_loop zero s src = (pending, s)
  write_some_loop (suc rounds) s src =
      if env.cancellation_requested s
      then (cancelled, s)
      else let (answer, s') = env.write s src in
        elim answer [
          | bytes_written n ↦ (returned n [], s')
          | nothing_written errno ↦ (returned 0 [], s')
          | write_error errno ↦ on_errno errno s' (λ next. write_some_loop rounds next src)
        ]

  unfoldable pub async_write_some : ℕ → S → List ℕ → Outcome × S
  unfolding write_some_loop
  async_write_some rounds s src =
      if length src == 0 then (returned 0 [], s) else write_some_loop rounds s src
