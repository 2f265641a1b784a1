-- ===== src/Sockets.antt =====
-- include/xcoro/net/detail/fd_ops.hpp, and how connections are made: `socket::async_connect` of
-- include/xcoro/net/socket.hpp, `async_connection` of include/xcoro/net/io_context.hpp and
-- `acceptor::async_accept` of include/xcoro/net/acceptor.hpp.
-- The kernel, the token and the reactor are a parameter: what they answer, with their state. `errno`
-- has Linux's numbers. `rounds` bounds the turns of a loop; one that goes on for longer is `pending`.
pub mod Kernel
pub mod Create
pub mod Accept
pub mod Connect
pub mod Listen
pub mod Lifecycle
pub mod Closing
mod Examples
use xcoro.Base.{ℕ, zero, suc, Bool, true, false, ◌||◌, Option, none, some, ◌==◌, if◌then◌else◌}
use xcoro.Reactor.{WaitKind, read, write}
use xcoro.Transfer.{WaitAnswer, is_ready, wait_cancelled, wait_failed}

abbrev pub eintr : ℕ
eintr = 4

-- Also `EWOULDBLOCK`.
abbrev pub eagain : ℕ
eagain = 11

abbrev pub einval : ℕ
einval = 22

abbrev pub enosys : ℕ
enosys = 38

abbrev pub eprotonosupport : ℕ
eprotonosupport = 93

abbrev pub eisconn : ℕ
eisconn = 106

abbrev pub ealready : ℕ
ealready = 114

abbrev pub einprogress : ℕ
einprogress = 115

-- A call that opens a descriptor answers with it, or with `errno`.
pub data Opened : Type 0 where
  opened : ℕ → Opened
  refused : ℕ → Opened

-- The two words of flags: that of `F_GETFL` with `O_NONBLOCK`, and that of `F_GETFD` with
-- `FD_CLOEXEC`. The bit is apart from the rest of its word.
pub data Word : Type 0 where
  status descriptor : Word

pub record Flags : Type 0 where
  pub bit : Bool
  pub rest : ℕ

pub data Got (A : Type 0) : Type 0 where
  got : A → Got A
  error : ℕ → Got A

pub record Environment (S : Type 0) : Type 0 where
  pub cancellation_requested : S → Bool
  -- `::socket`, with or without the two flags, of a family, a type and a protocol.
  pub socket : S → Bool → ℕ → ℕ → ℕ → Opened × S
  -- `::accept4` with the two flags, and `::accept`.
  pub accept : S → Bool → ℕ → Opened × S
  pub get_flags : S → Word → ℕ → Got Flags × S
  pub set_flags : S → Word → ℕ → Flags → Got (Unit {0}) × S
  pub connect : S → ℕ → Got (Unit {0}) × S
  pub get_socket_error : S → ℕ → Got ℕ × S
  -- `wait_readable` and `wait_writable`.
  pub wait : S → WaitKind → ℕ → WaitAnswer × S

-- A call returns, throws `system_error` or `operation_cancelled`, or goes on.
pub data Outcome (A : Type 0) : Type 0 where
  returned : A → Outcome A
  system_error : ℕ → Outcome A
  cancelled pending : Outcome A

module _ {S : Type 0} (env : Environment S) where
  -- `set_nonblocking` and `set_cloexec`.
  unfoldable pub set_bit : Word → S → ℕ → Bool → Outcome (Unit {0}) × S
  set_bit word s fd on =
      let (flags, s₁) = env.get_flags s word fd in
      elim flags [
        | error e ↦ (system_error e, s₁)
        | got f ↦
            let (answer, s₂) = env.set_flags s₁ word fd (record f { bit = on }) in
            elim answer [ error e ↦ (system_error e, s₂) | got done ↦ (returned tt, s₂) ]
      ]

  -- Both, on a descriptor that was opened without the flags.
  unfoldable pub set_both : S → ℕ → Outcome ℕ × S
  unfolding set_bit
  set_both s fd =
      let (first, s₁) = set_bit status s fd true in
      let (second, s₂) = set_bit descriptor s₁ fd true in
      elim first [
        | returned done ↦ elim second [
          | returned done' ↦ (returned fd, s₂)
          | system_error e ↦ (system_error e, s₂)
          | cancelled ↦ (cancelled, s₂)
          | pending ↦ (pending, s₂)
        ]
        | system_error e ↦ (system_error e, s₁)
        | cancelled ↦ (cancelled, s₁)
        | pending ↦ (pending, s₁)
      ]

  unfoldable pub create_socket : S → ℕ → ℕ → ℕ → Outcome ℕ × S
  unfolding set_both
  create_socket s family type protocol =
      let (first, s₁) = env.socket s true family type protocol in
      let (second, s₂) = env.socket s₁ false family type protocol in
      elim first [
        | opened fd ↦ (returned fd, s₁)
        | refused e ↦
            if e == einval || e == eprotonosupport
            then elim second [ opened fd ↦ set_both s₂ fd | refused e' ↦ (system_error e', s₂) ]
            else (system_error e, s₁)
      ]

  -- What follows `::accept`. A result of -1 is `refused`.
  unfoldable pub after_accept : Opened × S → Outcome Opened × S
  unfolding set_both
  after_accept (refused e, s) = (returned (refused e), s)
  after_accept (opened fd, s) =
      let (set, s') = set_both s fd in
      elim set [
        | returned prepared ↦ (returned (opened prepared), s')
        | system_error e ↦ (system_error e, s')
        | cancelled ↦ (cancelled, s')
        | pending ↦ (pending, s')
      ]

  -- What follows `::accept4`.
  unfoldable pub after_accept4 : Opened × S → ℕ → Outcome Opened × S
  unfolding after_accept
  after_accept4 (opened fd, s) listen_fd = (returned (opened fd), s)
  after_accept4 (refused e, s) listen_fd =
      if e == enosys || e == einval
      then after_accept (env.accept s false listen_fd)
      else (returned (refused e), s)

  unfoldable pub accept_nonblocking : S → ℕ → Outcome Opened × S
  unfolding after_accept4
  accept_nonblocking s listen_fd = after_accept4 (env.accept s true listen_fd) listen_fd

  -- `co_await` the wait, and what comes behind it.
  unfoldable pub after_wait : {A : Type 0} → S → WaitKind → ℕ → (S → Outcome A × S) → Outcome A × S
  after_wait s kind fd continue =
      let (answer, s') = env.wait s kind fd in
      elim answer [
        | is_ready ↦ continue s'
        | wait_cancelled ↦ (cancelled, s')
        | wait_failed e ↦ (system_error e, s')
      ]

  -- The tests of `errno` in `async_accept` that try again.
  unfoldable pub on_errno : {A : Type 0} → ℕ → S → ℕ → (S → Outcome A × S) → Outcome A × S
  unfolding after_wait
  on_errno e s listen_fd continue =
      if e == eintr
      then continue s
      else if e == eagain
      then after_wait s read listen_fd continue
      else (system_error e, s)

  unfoldable pub accept_loop : ℕ → S → ℕ → Outcome ℕ × S
  unfolding accept_nonblocking on_errno
  accept_loop zero s listen_fd = (pending, s)
  accept_loop (suc rounds) s listen_fd =
      let (answer, s') = accept_nonblocking s listen_fd in
      if env.cancellation_requested s then (cancelled, s) else elim answer [
        | returned o ↦ elim o [
          | opened fd ↦ (returned fd, s')
          | refused e ↦ on_errno e s' listen_fd (λ next. accept_loop rounds next listen_fd)
        ]
        | system_error e ↦ (system_error e, s')
        | cancelled ↦ (cancelled, s')
        | pending ↦ (pending, s')
      ]

  -- `check_connect_result`
  unfoldable pub check_connect_result : S → ℕ → Outcome (Unit {0}) × S
  check_connect_result s fd =
      let (answer, s') = env.get_socket_error s fd in
      elim answer [
        | error e ↦ (system_error e, s')
        | got e ↦ if e == 0 then (returned tt, s') else (system_error e, s')
      ]

  -- `io_context::async_connection`, on a connection that was begun before.
  unfoldable pub async_connection : S → ℕ → Outcome (Unit {0}) × S
  unfolding after_wait check_connect_result
  async_connection s fd = after_wait s write fd (λ next. check_connect_result next fd)

  unfoldable pub connect_loop : ℕ → S → ℕ → Outcome (Unit {0}) × S
  unfolding after_wait check_connect_result
  connect_loop zero s fd = (pending, s)
  connect_loop (suc rounds) s fd =
      let (answer, s') = env.connect s fd in
      let retried = connect_loop rounds s' fd in
      let waited = after_wait s' write fd (λ next. check_connect_result next fd) in
      if env.cancellation_requested s then (cancelled, s) else elim answer [
        | got done ↦ (returned tt, s')
        | error e ↦
            if e == eisconn
            then (returned tt, s')
            else if e == eintr
            then retried
            else if e == einprogress || e == ealready
            then waited
            else (system_error e, s')
      ]
