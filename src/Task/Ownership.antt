-- ===== src/Task/Ownership.antt =====
-- The objects that own coroutine frames: `task` of include/xcoro/task.hpp, and with the same members
-- `when_all_task` of include/xcoro/when_all.hpp and `generator` of include/xcoro/generator.hpp.
-- An object is its place in a list; it holds a handle, or null: `nullptr`, or the object is gone.
use xcoro.Base.{
  ℕ, zero, suc, ◌+◌, ◌<◌, ◌≡◌, Option, none, some, List, [], ◌∷◌, ◌++◌, arith, length, get_or, set,
  count, length-set, get_or-set_other, ltb, ◌==◌, if◌then◌else◌,
}

pub record Owners : Type 0 where
  pub objects : List (Option ℕ)
  -- The handles on which `destroy()` was called, and the next handle.
  pub destroyed : List ℕ
  pub next : ℕ

-- `if (handle_) handle_.destroy();`
unfoldable pub destroy_handle : Option ℕ → List ℕ → List ℕ
destroy_handle none destroyed = destroyed
destroy_handle (some h) destroyed = h ∷ destroyed

abbrev pub handle_at : Owners → ℕ → Option ℕ
handle_at s i = get_or s.objects i none

-- An object with a new coroutine's handle.
unfoldable pub construct : Owners → Owners
construct s = record s { objects = s.objects ++ some s.next ∷ []; next = s.next + 1 }

unfoldable pub move_construct : Owners → ℕ → Owners
move_construct s other = record s { objects = set s.objects other none ++ handle_at s other ∷ [] }

unfoldable pub move_assign : Owners → ℕ → ℕ → Owners
unfolding destroy_handle
move_assign s i other = if other == i then s else record s {
  objects = set (set s.objects i (handle_at s other)) other none;
  destroyed = destroy_handle (handle_at s i) s.destroyed;
}

-- The destructor.
unfoldable pub destruct : Owners → ℕ → Owners
unfolding destroy_handle
destruct s i = record s {
  objects = set s.objects i none;
  destroyed = destroy_handle (handle_at s i) s.destroyed;
}

pub data Use : Type 0 where
  constructs : Use
  moves_to_new : ℕ → Use
  assigns : ℕ → ℕ → Use
  destructs : ℕ → Use

-- The objects that a use names are there.
abbrev pub Names : Owners → Use → Type 0
Names s constructs = Unit {0}
Names s (moves_to_new other) = other < length s.objects
Names s (assigns i other) = (i < length s.objects) × (other < length s.objects)
Names s (destructs i) = i < length s.objects

unfoldable pub perform : Owners → Use → Owners
unfolding construct move_construct move_assign destruct
perform s constructs = construct s
perform s (moves_to_new other) = move_construct s other
perform s (assigns i other) = move_assign s i other
perform s (destructs i) = destruct s i

pub data Reach : Owners → Type 0 where
  start : Reach (record { objects = []; destroyed = []; next = 0 })
  later : {s : Owners} (u : Use) → Reach s → Names s u → Reach (perform s u)

abbrev pub holds : Option ℕ → ℕ → ℕ
holds none h = 0
holds (some g) h = if g == h then 1 else 0

-- How many objects hold `h`.
abbrev pub owners : List (Option ℕ) → ℕ → ℕ
owners [] h = 0
owners (o ∷ os) h = holds o h + owners os h

pub owners-append :
    (xs ys : List (Option ℕ)) (h : ℕ) → owners (xs ++ ys) h ≡ owners xs h + owners ys h
owners-append [] ys h = omega arith
owners-append (x ∷ xs) ys h = omega (arith, owners-append xs ys h)

pub owners-set :
    (xs : List (Option ℕ)) (i : ℕ) (o : Option ℕ) (h : ℕ)
    → i < length xs
    → owners (set xs i o) h + holds (get_or xs i none) h ≡ owners xs h + holds o h
owners-set [] i o h lt = absurd (omega arith)
owners-set (x ∷ xs) zero o h lt = omega arith
owners-set (x ∷ xs) (suc i) o h lt = omega (arith, owners-set xs i o h (omega arith))

abbrev Owned : Owners → ℕ → Type 0
Owned s h = owners s.objects h + count h s.destroyed ≡ (if ltb h s.next then 1 else 0)

count-destroy_handle :
    (o : Option ℕ) (destroyed : List ℕ) (h : ℕ)
    → count h (destroy_handle o destroyed) ≡ holds o h + count h destroyed
unfolding destroy_handle
count-destroy_handle none destroyed h = omega arith
count-destroy_handle (some g) destroyed h = omega arith

perform-Owned : (s : Owners) (u : Use) (h : ℕ) → Names s u → Owned s h → Owned (perform s u) h
unfolding perform
perform-Owned s constructs h n v = ground (arith, owners-append s.objects (some s.next ∷ []) h)
perform-Owned s (moves_to_new other) h n v = ground (
  arith,
  owners-append (set s.objects other none) (handle_at s other ∷ []) h,
  owners-set s.objects other none h n,
)
perform-Owned s (assigns i other) h (lt, lt') v = ground (
  arith,
  count-destroy_handle (handle_at s i) s.destroyed h,
  owners-set s.objects i (handle_at s other) h lt,
  length-set s.objects i (handle_at s other),
  get_or-set_other s.objects i other (handle_at s other) none,
  owners-set (set s.objects i (handle_at s other)) other none h,
)
perform-Owned s (destructs i) h n v =
    ground
      (arith, count-destroy_handle (handle_at s i) s.destroyed h, owners-set s.objects i none h n)

-- However the objects are made, moved and destroyed, every frame is owned by exactly one object, or
-- was destroyed, exactly once: none is leaked, destroyed twice, or owned after it was destroyed.
pub owned_once :
    {s : Owners} (h : ℕ)
    → Reach s
    → owners s.objects h + count h s.destroyed ≡ (if ltb h s.next then 1 else 0)
owned_once h start = ground arith
owned_once h (later {s} u r n) = perform-Owned s u h n (owned_once h r)
