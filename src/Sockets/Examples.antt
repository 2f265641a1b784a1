-- ===== src/Sockets/Examples.antt =====
-- The theorems on sockets for a kernel that refuses some calls first and connects behind a wait, and
-- for one on which a socket listens.
use xcoro.Base.{
  ◌+◌, ℕ, zero, suc, ◌≡◌, refl, Bool, true, false, Option, none, some, [], count, arith, ◌==◌,
  if◌then◌else◌,
}
use xcoro.Transfer.{is_ready}
use xcoro.Sockets.{
  eintr, einval, einprogress, Opened, opened, refused, Word, status, descriptor, Flags, Got, got,
  error, Environment, connect_loop,
}
use xcoro.Sockets.Kernel.{View, OpenFits, SetFits, ConnectFits, ErrorFits, Serves}
use xcoro.Endpoint.{Endpoint, sockaddr_in}
use xcoro.Sockets.Listen.{
  Calls, ListenOptions, SocketView, Answers, Listens, run_calls, wanted_calls, configure,
  configure-Listens,
}
use xcoro.Task.Ownership.{owners}
use xcoro.Sockets.Closing.{one, closed_once}
use xcoro.Sockets.Lifecycle.{Sockets, Reach, start, later, constructs, assigns, perform}
use xcoro.Sockets.Connect.{Connected, connect_loop-Connected}

-- How many calls are still refused, the two bits of every descriptor, and who is connected.
record Machine : Type 0 where
  refusals : ℕ
  nonblocking : Bool
  cloexec : Bool
  is_begun : Bool
  is_finished : Bool
  is_connected : Bool

abbrev bit_of : Machine → Word → Bool
bit_of m status = m.nonblocking
bit_of m descriptor = m.cloexec

abbrev with_bit : Machine → Word → Bool → Machine
with_bit m status on = record m { nonblocking = on }
with_bit m descriptor on = record m { cloexec = on }

-- A call is refused as long as calls are refused; then it opens a descriptor, with the two bits if
-- it was asked for them.
abbrev open_next : ℕ → Machine → Bool → Opened × Machine
open_next zero m with_flags =
    (opened 5, record m { nonblocking = with_flags; cloexec = with_flags })
open_next (suc n) m with_flags = (refused einval, record m { refusals = n })

abbrev refuse_connect : ℕ → Machine → Got (Unit {0}) × Machine
refuse_connect zero m = (got tt, record m { is_connected = true })
refuse_connect (suc n) m =
    (error (if n == 0 then einprogress else eintr), record m { refusals = n; is_begun = true })

abbrev kernel : Environment Machine
kernel = record {
  cancellation_requested = λ m. false;
  socket = λ m with_flags family type protocol. open_next m.refusals m with_flags;
  accept = λ m with_flags fd. open_next m.refusals m with_flags;
  get_flags = λ m word fd. (got (record { bit = bit_of m word; rest = 0 }), m);
  set_flags = λ m word fd f. (got tt, with_bit m word f.bit);
  connect = λ m fd. refuse_connect m.refusals m;
  get_socket_error =
      λ m fd. if m.is_finished then (got 0, record m { is_connected = true }) else (got 0, m);
  wait = λ m kind fd. (is_ready, record m { is_finished = true });
}

abbrev view : View Machine
view = record {
  bit = λ m word fd. bit_of m word;
  begun = λ m fd. m.is_begun;
  finished = λ m fd. m.is_finished;
  connected = λ m fd. m.is_connected;
  patience = λ m. m.refusals;
}

open_next-OpenFits :
    (n : ℕ) (m : Machine) (with_flags : Bool)
    → n ≡ m.refusals
    → OpenFits view m with_flags (open_next n m with_flags)
open_next-OpenFits zero m with_flags e = λ flags. (flags, flags)
open_next-OpenFits (suc n) m with_flags e = omega (arith, e)

with_bit-SetFits :
    (m : Machine) (word : Word) (fd : ℕ) (f : Flags)
    → SetFits view m word fd f (kernel.set_flags m word fd f)
with_bit-SetFits m status fd f = (refl, λ other ne. ground (arith, ne))
with_bit-SetFits m descriptor fd f = (refl, λ other ne. ground (arith, ne))

refuse_connect-ConnectFits :
    (n : ℕ) (m : Machine) (fd : ℕ) → n ≡ m.refusals → ConnectFits view m fd (refuse_connect n m)
refuse_connect-ConnectFits zero m fd e = refl
refuse_connect-ConnectFits (suc n) m fd e = (ground arith, λ h. refl, omega (arith, e))

get_socket_error-ErrorFits :
    (m : Machine) (fd : ℕ) → ErrorFits view m fd (kernel.get_socket_error m fd)
get_socket_error-ErrorFits m fd = by_end m.is_finished refl
  where
    by_end :
        (b : Bool)
        → m.is_finished ≡ b
        → ErrorFits view m fd (if b then (got 0, record m { is_connected = true }) else (got 0, m))
    by_end true e = λ over zeros. refl
    by_end false e = λ over zeros. absurd (ground (arith, over))

kernel-Serves : Serves view kernel
kernel-Serves = record {
  sockets = λ m with_flags family type protocol. open_next-OpenFits m.refusals m with_flags refl;
  accepts = λ m with_flags fd. open_next-OpenFits m.refusals m with_flags refl;
  sets = with_bit-SetFits;
  gets = λ m word other fd. refl;
  connects = λ m fd. refuse_connect-ConnectFits m.refusals m fd refl;
  errors = λ m fd. get_socket_error-ErrorFits m fd;
  waits = λ m kind fd. omega arith;
  writable = λ m fd begun ready. refl;
}

abbrev two_refusals : Machine
two_refusals = record {
  refusals = 2;
  nonblocking = false;
  cloexec = false;
  is_begun = false;
  is_finished = false;
  is_connected = false;
}

connect_loop-Connected_example :
    Connected kernel view kernel-Serves 5 (connect_loop kernel 3 two_refusals 5)
connect_loop-Connected_example =
    connect_loop-Connected kernel view kernel-Serves 3 two_refusals 5 (omega arith)

-- A socket whose calls all succeed, but `setsockopt` of an option that is not known.
record Listener : Type 0 where
  is_open : Bool
  bound_to : Option Endpoint
  is_listening : Bool

abbrev known_option : ℕ → Got (Unit {0})
known_option name = if name == 2 then got tt else error einval

abbrev listener_calls : Calls Listener
listener_calls = record {
  set_option = λ m fd name v. (known_option name, m);
  bind = λ m fd ep. (got tt, record m { bound_to = some ep });
  listen = λ m fd backlog. (got tt, record m { is_listening = true });
  close = λ m fd. record m { is_open = false };
}

abbrev listener_view : SocketView Listener
listener_view = record {
  opened = λ m fd. m.is_open;
  bound = λ m fd. m.bound_to;
  listens = λ m fd. m.is_listening;
}

listener-Answers : Answers listener_view listener_calls
listener-Answers = record {
  binds = λ s fd ep done. refl;
  listening = λ s fd backlog done. (refl, refl);
  closes = λ s fd. refl;
  keeps_option = λ s fd name v. refl;
  keeps_bind = λ s fd ep. refl;
  keeps_listen = λ s fd backlog. refl;
}

-- No other system call is made here.
abbrev silent : Environment Listener
silent = record {
  cancellation_requested = λ m. false;
  socket = λ m with_flags family type protocol. (opened 5, m);
  accept = λ m with_flags fd. (refused eintr, m);
  get_flags = λ m word fd. (error eintr, m);
  set_flags = λ m word fd f. (got tt, m);
  connect = λ m fd. (got tt, m);
  get_socket_error = λ m fd. (got 0, m);
  wait = λ m kind fd. (is_ready, m);
}

abbrev new_listener : Listener
new_listener = record { is_open = true; bound_to = none; is_listening = false }

abbrev some_endpoint : Endpoint
some_endpoint = record { storage = sockaddr_in 80 7; length = 16 }

abbrev only_address : ListenOptions
only_address = record { backlog = 8; reuse_address = true; reuse_port = false }

configure-Listens_example :
    Listens silent listener_calls listener_view listener-Answers 5 some_endpoint
      (run_calls silent listener_calls listener_view listener-Answers new_listener (
        wanted_calls silent listener_calls listener_view listener-Answers 5 some_endpoint
          only_address))
      (configure silent listener_calls new_listener 5 some_endpoint only_address)
configure-Listens_example =
    configure-Listens silent listener_calls listener_view listener-Answers new_listener 5
      some_endpoint only_address refl

-- Two sockets are opened and the second is moved to the first, whose own descriptor is closed by that.
abbrev assigned : Sockets
assigned =
    perform
      (perform
        (perform (record { objects = []; is_open = λ p. false; closed = []; next = 0 }) constructs)
        constructs)
      (assigns 0 1)

assigned-Reach : Reach assigned
unfolding perform
assigned-Reach =
    later (assigns 0 1) (later constructs (later constructs start tt) tt) (omega arith, omega arith)

closed_once_example :
    (count 0 assigned.closed + one (assigned.is_open 0) ≡ 1)
    × (assigned.is_open 0 ≡ true → owners assigned.objects 0 ≡ 1)
unfolding perform
closed_once_example = closed_once 0 assigned-Reach
