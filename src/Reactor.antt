-- ===== src/Reactor.antt =====
-- include/xcoro/net/detail/epoll_reactor.hpp, with descriptor_state.hpp and operation_state.hpp: the
-- waits of one descriptor.
-- `state.mutex` makes each operation one step. An event mask is a record of its bits. What
-- `epoll_ctl` answers is an argument of each operation, by the operation code that it is called
-- with. A `wait_operation_state` is an address; its registration is left out (Cancellation has it).
-- A handle in the result is one that is given to `enqueue_ready`; the calls of `wake` are left out.
pub mod System
pub mod Inv
pub mod Waits
pub mod Interest
pub mod Await
pub mod Runs
pub mod Outcome
pub mod Setup
mod Examples
use xcoro.Base.{
  ℕ, Bool, true, false, not, ◌&&◌, ◌||◌, Option, none, some, List, [], ◌∷◌, ◌++◌, ◌==◌,
  if◌then◌else◌, update,
}

pub data WaitKind : Type 0 where
  read write : WaitKind

-- The bits `EPOLLIN`, `EPOLLOUT`, `EPOLLERR`, `EPOLLHUP` and `EPOLLRDHUP`.
pub record Events : Type 0 where
  pub epollin : Bool
  pub epollout : Bool
  pub epollerr : Bool
  pub epollhup : Bool
  pub epollrdhup : Bool

abbrev pub no_events : Events
no_events = record {
  epollin = false;
  epollout = false;
  epollerr = false;
  epollhup = false;
  epollrdhup = false;
}

-- The `epoll_ctl` codes of `update_interest_locked`, and its answers there: 0, or -1 with `ENOENT`,
-- `EEXIST` or another `errno`.
pub data CtlOp : Type 0 where
  ctl_add ctl_mod : CtlOp

pub data CtlResult : Type 0 where
  succeeded enoent eexist failed : CtlResult

abbrev pub Ctl : Type 0
Ctl = CtlOp → CtlResult

-- `wait_operation_state`
pub record Operation : Type 0 where
  pub handle : ℕ
  pub completed : Bool
  pub cancelled : Bool
  pub error : ℕ

abbrev pub reset : ℕ → Operation
reset handle = record { handle = handle; completed = false; cancelled = false; error = 0 }

-- `descriptor_state`, with the operations at their addresses; `is_open` is `fd != -1`.
pub record Descriptor : Type 0 where
  pub is_open : Bool
  pub registered_events : Events
  pub registered_with_epoll : Bool
  pub closing : Bool
  pub read_waiter : Option ℕ
  pub write_waiter : Option ℕ
  pub operations : ℕ → Operation

abbrev pub make_descriptor_state : Bool → Descriptor
make_descriptor_state is_open = record {
  is_open = is_open;
  registered_events = no_events;
  registered_with_epoll = false;
  closing = false;
  read_waiter = none;
  write_waiter = none;
  operations = reset;
}

unfoldable pub slot_for : Descriptor → WaitKind → Option ℕ
slot_for d read = d.read_waiter
slot_for d write = d.write_waiter

unfoldable pub set_slot : Descriptor → WaitKind → Option ℕ → Descriptor
set_slot d read operation = record d { read_waiter = operation }
set_slot d write operation = record d { write_waiter = operation }

abbrev pub is_null : Option ℕ → Bool
is_null none = true
is_null (some p) = false

abbrev bit_eq : Bool → Bool → Bool
bit_eq true b = b
bit_eq false b = not b

abbrev pub events_eq : Events → Events → Bool
events_eq a b =
    bit_eq a.epollin b.epollin
    && bit_eq a.epollout b.epollout
    && bit_eq a.epollerr b.epollerr
    && bit_eq a.epollhup b.epollhup
    && bit_eq a.epollrdhup b.epollrdhup

-- The mask that the waiters of a descriptor want.
unfoldable pub desired_events : Descriptor → Events
desired_events d = record {
  epollin = not (is_null d.read_waiter);
  epollout = not (is_null d.write_waiter);
  epollerr = not (is_null d.read_waiter) || not (is_null d.write_waiter);
  epollhup = not (is_null d.read_waiter) || not (is_null d.write_waiter);
  epollrdhup = not (is_null d.read_waiter);
}

abbrev is_success : CtlResult → Bool
is_success succeeded = true
is_success _ = false

-- The calls of `epoll_ctl`, with the second try. False if the code throws.
unfoldable pub try_ctl : Ctl → CtlOp → Bool
try_ctl ctl ctl_mod = elim (ctl ctl_mod) [
  | succeeded ↦ true
  | enoent ↦ is_success (ctl ctl_add)
  | eexist ↦ false
  | failed ↦ false
]
try_ctl ctl ctl_add = elim (ctl ctl_add) [
  | succeeded ↦ true
  | enoent ↦ false
  | eexist ↦ is_success (ctl ctl_mod)
  | failed ↦ false
]

-- What `update_interest_locked` leaves in `registered_with_epoll` and `registered_events`, and false
-- if it throws.
unfoldable pub next_interest : Ctl → Descriptor → Bool × Events × Bool
unfolding desired_events try_ctl
next_interest ctl d =
    let desired = desired_events d in
    let done = try_ctl ctl (if d.registered_with_epoll then ctl_mod else ctl_add) in
    if is_null d.read_waiter && is_null d.write_waiter
    then (false, no_events, true)
    else if d.registered_with_epoll && events_eq d.registered_events desired
    then (d.registered_with_epoll, d.registered_events, true)
    else if done
    then (true, desired, true)
    else (d.registered_with_epoll, d.registered_events, false)

unfoldable pub update_interest_locked : Ctl → Descriptor → Descriptor × Bool
update_interest_locked ctl d = (
  record d {
    registered_with_epoll = (next_interest ctl d).0;
    registered_events = (next_interest ctl d).1;
  },
  (next_interest ctl d).2,
)

-- `complete_operation_locked` on the operation at `p`, with the handle that is pushed to `ready`.
unfoldable pub complete_operation_locked : Descriptor → ℕ → Bool → ℕ → Descriptor × List ℕ
complete_operation_locked d p cancelled error =
    let op = d.operations p in
    (
      record d {
        operations =
            update d.operations p
              (record op { cancelled = cancelled; error = error; completed = true });
      },
      if op.completed then [] else op.handle ∷ [],
    )

-- `std::exchange(slot.operation, nullptr)` and the completion of what was there.
unfoldable pub finish_wait : Descriptor → WaitKind → ℕ → Descriptor × List ℕ
unfolding slot_for set_slot complete_operation_locked
finish_wait d kind error = elim (slot_for d kind) [
  | none ↦ (d, [])
  | some p ↦ complete_operation_locked (set_slot d kind none) p false error
]

-- `arm_wait` returned false or true, or threw `logic_error` or `system_error`.
pub data ArmResult : Type 0 where
  refused armed concurrent_wait ctl_failed : ArmResult

abbrev pub ebadf : ℕ
ebadf = 9

-- `arm_wait` up to the registration of the cancellation callback.
unfoldable pub arm_wait : Ctl → Descriptor → WaitKind → ℕ → ℕ → Descriptor × ArmResult
unfolding slot_for set_slot update_interest_locked
arm_wait ctl d kind p handle =
    let put =
      set_slot (record d { operations = update d.operations p (reset handle) }) kind (some p) in
    let (d', ok) = update_interest_locked ctl put in
    if not d.is_open || d.closing
    then (
      record d {
        operations =
            update d.operations p (record (reset handle) { error = ebadf; completed = true });
      },
      refused,
    )
    else elim (slot_for d kind) [
      | some q ↦ (d, concurrent_wait)
      | none ↦ (d', if ok then armed else ctl_failed)
    ]

abbrev pub holds : Option ℕ → ℕ → Bool
holds none p = false
holds (some q) p = q == p

-- `cancel_wait`; `none` if `update_interest_locked` throws, which ends the process.
unfoldable pub cancel_wait : Ctl → Descriptor → WaitKind → ℕ → Option (Descriptor × List ℕ)
unfolding slot_for set_slot update_interest_locked complete_operation_locked
cancel_wait ctl d kind p =
    let (d', ok) = update_interest_locked ctl (set_slot d kind none) in
    if not (holds (slot_for d kind) p)
    then some (d, [])
    else if ok
    then some (complete_operation_locked d' p true 0)
    else none

unfoldable pub unregister_descriptor : Descriptor → ℕ → Descriptor × List ℕ
unfolding finish_wait
unregister_descriptor d error =
    let closed : Descriptor = record d {
      closing = true;
      registered_with_epoll = false;
      registered_events = no_events;
    } in
    let (d₁, readers) = finish_wait closed read error in
    let (d₂, writers) = finish_wait d₁ write error in (d₂, readers ++ writers)

abbrev pub read_ready : Events → Bool
read_ready e = e.epollin || e.epollerr || e.epollhup || e.epollrdhup

abbrev pub write_ready : Events → Bool
write_ready e = e.epollout || e.epollerr || e.epollhup

-- An exception of `update_interest_locked` is caught.
unfoldable pub dispatch_descriptor_event : Ctl → Descriptor → Events → Descriptor × List ℕ
unfolding finish_wait update_interest_locked
dispatch_descriptor_event ctl d e =
    let (d₁, readers) = if read_ready e then finish_wait d read 0 else (d, []) in
    let (d₂, writers) = if write_ready e then finish_wait d₁ write 0 else (d₁, []) in
    let (d₃, ok) = update_interest_locked ctl d₂ in
    if d.closing then (d, []) else (d₃, readers ++ writers)
