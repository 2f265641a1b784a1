-- ===== src/Sockets/Lifecycle.antt =====
-- include/xcoro/net/socket.hpp: the objects of class `socket` and their descriptors.
-- A socket is its place in a list; it holds the address of its `descriptor_state`, or null, which also
-- stands for an object that is gone. A descriptor is known by the state that was made for it; `is_open`
-- is whether that state's `fd` is other than -1. Taking the descriptor from the reactor is Reactor's.
use xcoro.Base.{
  ℕ, ◌+◌, ◌<◌, Bool, true, false, Option, none, some, List, [], ◌∷◌, ◌++◌, length, get_or, set,
  ◌==◌, if◌then◌else◌, update,
}

pub record Sockets : Type 0 where
  pub objects : List (Option ℕ)
  pub is_open : ℕ → Bool
  -- The descriptors on which `::close` was called, and the next state's address.
  pub closed : List ℕ
  pub next : ℕ

abbrev pub state_at : Sockets → ℕ → Option ℕ
state_at s i = get_or s.objects i none

-- A socket of a new state, with a descriptor that is open.
unfoldable pub construct : Sockets → Sockets
construct s = record s {
  objects = s.objects ++ some s.next ∷ [];
  is_open = update s.is_open s.next true;
  next = s.next + 1;
}

unfoldable pub close_state : Sockets → Option ℕ → Sockets
close_state s none = s
close_state s (some p) =
    if s.is_open p
    then record s { is_open = update s.is_open p false; closed = p ∷ s.closed }
    else s

-- `socket::close`
unfoldable pub close : Sockets → ℕ → Sockets
unfolding close_state
close s i = close_state s (state_at s i)

unfoldable pub move_construct : Sockets → ℕ → Sockets
move_construct s other = record s { objects = set s.objects other none ++ state_at s other ∷ [] }

unfoldable pub move_assign : Sockets → ℕ → ℕ → Sockets
unfolding close
move_assign s i other =
    let s₁ = close s i in
    if other == i
    then s
    else record s₁ { objects = set (set s.objects i (state_at s other)) other none }

unfoldable pub destruct : Sockets → ℕ → Sockets
unfolding close
destruct s i = let s₁ = close s i in record s₁ { objects = set s.objects i none }

pub data Use : Type 0 where
  constructs : Use
  closes : ℕ → Use
  moves_to_new : ℕ → Use
  assigns : ℕ → ℕ → Use
  destructs : ℕ → Use

-- The objects that a use names are there.
abbrev pub Names : Sockets → Use → Type 0
Names s constructs = Unit {0}
Names s (closes i) = i < length s.objects
Names s (moves_to_new other) = other < length s.objects
Names s (assigns i other) = (i < length s.objects) × (other < length s.objects)
Names s (destructs i) = i < length s.objects

unfoldable pub perform : Sockets → Use → Sockets
unfolding construct close move_construct move_assign destruct
perform s constructs = construct s
perform s (closes i) = close s i
perform s (moves_to_new other) = move_construct s other
perform s (assigns i other) = move_assign s i other
perform s (destructs i) = destruct s i

pub data Reach : Sockets → Type 0 where
  start : Reach (record { objects = []; is_open = λ p. false; closed = []; next = 0 })
  later : {s : Sockets} (u : Use) → Reach s → Names s u → Reach (perform s u)
