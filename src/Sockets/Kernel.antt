-- ===== src/Sockets/Kernel.antt =====
-- What making connections relies on: the behaviour of socket(2), accept(2), fcntl(2) and connect(2).
use xcoro.Base.{ℕ, ◌≤◌, ◌<◌, ◌≡◌, ◌≢◌, ◌⊎◌, Bool, true}
use xcoro.Reactor.{WaitKind, write}
use xcoro.Transfer.{is_ready}
use xcoro.Sockets.{
  eisconn, einprogress, ealready, Opened, opened, refused, Word, status, descriptor, Flags, Got,
  got, error, Environment,
}

-- What can be seen of the kernel: the two bits of a descriptor; whether a connection of it is under
-- way, whether that attempt is over, and whether it is connected; `patience` bounds how often a call
-- may fail before it does something.
pub record View (S : Type 0) : Type 0 where
  pub bit : S → Word → ℕ → Bool
  pub begun : S → ℕ → Bool
  pub finished : S → ℕ → Bool
  pub connected : S → ℕ → Bool
  pub patience : S → ℕ

module _ {S : Type 0} (view : View S) where
  -- A descriptor that was opened with the flags has them; a call that is refused costs patience.
  abbrev pub OpenFits : S → Bool → Opened × S → Type 0
  OpenFits s with_flags (opened fd, s') =
      (with_flags ≡ true → (view.bit s' status fd ≡ true) × (view.bit s' descriptor fd ≡ true))
  OpenFits s with_flags (refused e, s') = view.patience s' < view.patience s

  -- The flags of the word are set, and the other word's are as they were.
  abbrev pub SetFits : S → Word → ℕ → Flags → Got (Unit {0}) × S → Type 0
  SetFits s word fd f (got done, s') =
      (view.bit s' word fd ≡ f.bit)
      × ((other : Word) → other ≢ word → view.bit s' other fd ≡ view.bit s other fd)
  SetFits s word fd f (error e, s') = Unit {0}

  -- A call that succeeds, or says so of an earlier one, leaves the descriptor connected; one that
  -- answers `EINPROGRESS` or `EALREADY` leaves an attempt under way.
  abbrev pub ConnectFits : S → ℕ → Got (Unit {0}) × S → Type 0
  ConnectFits s fd (got done, s') = view.connected s' fd ≡ true
  ConnectFits s fd (error e, s') =
      (e ≡ eisconn → view.connected s' fd ≡ true)
      × ((e ≡ einprogress) ⊎ (e ≡ ealready) → view.begun s' fd ≡ true)
      × (view.patience s' < view.patience s)

  -- Once the attempt is over, a socket without an error is connected.
  abbrev pub ErrorFits : S → ℕ → Got ℕ × S → Type 0
  ErrorFits s fd (got e, s') = (view.finished s fd ≡ true → e ≡ 0 → view.connected s' fd ≡ true)
  ErrorFits s fd (error e, s') = Unit {0}

pub record Serves {S : Type 0} (view : View S) (env : Environment S) : Type 0 where
  pub sockets :
      (s : S) (with_flags : Bool) (family type protocol : ℕ)
      → OpenFits view s with_flags (env.socket s with_flags family type protocol)
  pub accepts :
      (s : S) (with_flags : Bool) (fd : ℕ) → OpenFits view s with_flags (env.accept s with_flags fd)
  pub sets :
      (s : S) (word : Word) (fd : ℕ) (f : Flags)
      → SetFits view s word fd f (env.set_flags s word fd f)
  pub gets :
      (s : S) (word other : Word) (fd : ℕ)
      → view.bit (env.get_flags s word fd).1 other fd ≡ view.bit s other fd
  pub connects : (s : S) (fd : ℕ) → ConnectFits view s fd (env.connect s fd)
  pub errors : (s : S) (fd : ℕ) → ErrorFits view s fd (env.get_socket_error s fd)
  pub waits :
      (s : S) (kind : WaitKind) (fd : ℕ) → view.patience (env.wait s kind fd).1 ≤ view.patience s
  -- A socket becomes writable when the attempt that is under way is over.
  pub writable :
      (s : S) (fd : ℕ)
      → view.begun s fd ≡ true
      → (env.wait s write fd).0 ≡ is_ready
      → view.finished (env.wait s write fd).1 fd ≡ true
