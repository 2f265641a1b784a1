-- ===== src/Sockets/Connect.antt =====
-- `async_connect` ends, and a socket for which it returns is connected.
use xcoro.Base.{ℕ, zero, suc, ◌<◌, ◌≡◌, refl, Bool, true, false, ◌||◌, arith, ◌==◌, if◌then◌else◌}
use xcoro.Reactor.{write}
use xcoro.Transfer.{WaitAnswer, is_ready, wait_cancelled, wait_failed}
use xcoro.Sockets.{
  eintr, eisconn, einprogress, ealready, Got, got, error, Environment, Outcome, returned,
  system_error, cancelled, pending, after_wait, check_connect_result, async_connection,
  connect_loop,
}
use xcoro.Sockets.Kernel.{View, ConnectFits, ErrorFits, Serves}

module _ {S : Type 0} (env : Environment S) (view : View S) (serves : Serves view env) where
  abbrev pub Connected : ℕ → Outcome (Unit {0}) × S → Type 0
  Connected fd (returned done, s) = view.connected s fd ≡ true
  Connected fd (system_error e, s) = Unit {0}
  Connected fd (cancelled, s) = Unit {0}
  Connected fd (pending, s) = ⊥

  if-Connected :
      (fd : ℕ) (b : Bool) (x y : Outcome (Unit {0}) × S)
      → (b ≡ true → Connected fd x)
      → Connected fd y
      → Connected fd (if b then x else y)
  if-Connected fd true x y v w = v refl
  if-Connected fd false x y v w = w

  check_connect_result-Connected :
      (s : S) (fd : ℕ) → view.finished s fd ≡ true → Connected fd (check_connect_result env s fd)
  unfolding check_connect_result
  check_connect_result-Connected s fd over = behind (env.get_socket_error s fd) (serves.errors s fd)
    where
      behind :
          (r : Got ℕ × S)
          → ErrorFits view s fd r
          → let out : Outcome (Unit {0}) × S = elim (r.0) [
            | error e ↦ (system_error e, r.1)
            | got e ↦ if e == 0 then (returned tt, r.1) else (system_error e, r.1)
          ] in
            Connected fd out
      behind (error e, s') fits = tt
      behind (got e, s') fits =
          if-Connected fd (e == 0) (returned tt, s') (system_error e, s')
            (λ b. fits over (ground (arith, b))) tt

  waited-Connected :
      (s : S) (fd : ℕ)
      → view.begun s fd ≡ true
      → Connected fd (after_wait env s write fd (λ next. check_connect_result env next fd))
  unfolding after_wait
  waited-Connected s fd begun = behind (env.wait s write fd) (serves.writable s fd begun)
    where
      behind :
          (r : WaitAnswer × S)
          → (r.0 ≡ is_ready → view.finished r.1 fd ≡ true)
          → let out : Outcome (Unit {0}) × S = elim (r.0) [
            | is_ready ↦ check_connect_result env r.1 fd
            | wait_cancelled ↦ (cancelled, r.1)
            | wait_failed e ↦ (system_error e, r.1)
          ] in
            Connected fd out
      behind (is_ready, s') over = check_connect_result-Connected s' fd (over refl)
      behind (wait_cancelled, s') over = tt
      behind (wait_failed e, s') over = tt

  -- A connection that was begun is made when `async_connection` returns.
  pub async_connection-Connected :
      (s : S) (fd : ℕ) → view.begun s fd ≡ true → Connected fd (async_connection env s fd)
  unfolding async_connection
  async_connection-Connected s fd begun = waited-Connected s fd begun

  answer-Connected :
      (s : S) (fd : ℕ) (answer : Got (Unit {0}) × S) (retried : Outcome (Unit {0}) × S)
      → ConnectFits view s fd answer
      → (view.patience answer.1 < view.patience s → Connected fd retried)
      → let waited =
          after_wait env (answer.1) write fd (λ next. check_connect_result env next fd) in
        let out : Outcome (Unit {0}) × S = elim (answer.0) [
          | got done ↦ (returned tt, answer.1)
          | error e ↦
              if e == eisconn
              then (returned tt, answer.1)
              else if e == eintr
              then retried
              else if e == einprogress || e == ealready
              then waited
              else (system_error e, answer.1)
        ] in
        Connected fd out
  answer-Connected s fd (got done, s') retried fits h = fits
  answer-Connected s fd (error e, s') retried (fits, under_way, less) h =
      if-Connected fd (e == eisconn) (returned tt, s') _ (λ b. fits (ground (arith, b)))
        (if-Connected fd (e == eintr) retried _ (λ b. h less)
          (if-Connected fd (e == einprogress || e == ealready)
            (after_wait env s' write fd (λ next. check_connect_result env next fd))
            (system_error e, s') (λ b. waited-Connected s' fd (under_way (ground (arith, b)))) tt))

  -- With a kernel that behaves as documented, `async_connect` comes to an end after finitely many
  -- calls: more rounds than the calls that fail are enough. When it returns, the socket is connected,
  -- whether a call succeeded, an earlier one had, or the connection was made behind the wait, by which
  -- alone the code knows that the attempt is over.
  pub connect_loop-Connected :
      (rounds : ℕ) (s : S) (fd : ℕ)
      → view.patience s < rounds
      → Connected fd (connect_loop env rounds s fd)
  unfolding connect_loop
  connect_loop-Connected zero s fd enough = omega arith
  connect_loop-Connected (suc rounds) s fd enough =
      if-Connected fd (env.cancellation_requested s) (cancelled, s) _ (λ b. tt)
        (answer-Connected s fd (env.connect s fd) (connect_loop env rounds (env.connect s fd).1 fd)
          (serves.connects s fd)
          (λ less.
            connect_loop-Connected rounds (env.connect s fd).1 fd (omega (arith, less, enough))))
