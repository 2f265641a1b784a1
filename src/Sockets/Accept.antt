-- ===== src/Sockets/Accept.antt =====
-- Descriptors that are accepted have their flags, and accepting ends.
use xcoro.Base.{◌<◌, ◌≡◌, true}
use xcoro.Sockets.{
  Opened, opened, refused, status, descriptor, Environment, Outcome, returned, system_error,
  cancelled, pending,
}
use xcoro.Sockets.Kernel.{View, Serves}

module _ {S : Type 0} (env : Environment S) (view : View S) (serves : Serves view env) where
  -- What `accept_nonblocking` may answer; a call that is refused costs patience.
  abbrev Accepted : S → Outcome Opened × S → Type 0
  Accepted s (returned (opened fd), s') =
      (view.bit s' status fd ≡ true) × (view.bit s' descriptor fd ≡ true)
  Accepted s (returned (refused e), s') = view.patience s' < view.patience s
  Accepted s (system_error e, s') = Unit {0}
  Accepted s (cancelled, s') = Unit {0}
  Accepted s (pending, s') = ⊥
