-- ===== src/Sockets/Closing.antt =====
-- Every descriptor is closed once, however the objects of class `socket` are used.
use xcoro.Base.{
  ℕ, ◌+◌, ◌≤◌, ◌≡◌, refl, Bool, true, false, Option, none, some, [], ◌∷◌, arith, set, count,
  length-set, get_or-set_other, ltb, if◌then◌else◌,
}
use xcoro.Task.Ownership.{holds, owners, owners-append, owners-set}
use xcoro.Sockets.Lifecycle.{
  Sockets, state_at, close_state, Use, constructs, closes, moves_to_new, assigns, destructs, Names,
  perform, Reach, start, later,
}

abbrev pub one : Bool → ℕ
one true = 1
one false = 0

-- A state was made or not; its descriptor is open or was closed, once; and an open one has an owner.
record Inv (s : Sockets) (p : ℕ) : Type 0 where
  once : count p s.closed + one (s.is_open p) ≡ (if ltb p s.next then 1 else 0)
  owned : one (s.is_open p) ≤ owners s.objects p
  single : owners s.objects p ≤ (if ltb p s.next then 1 else 0)

-- What `close` does to a descriptor: it is closed if the object holds its state.
close_state-once :
    (s : Sockets) (o : Option ℕ) (p : ℕ)
    → count p (close_state s o).closed + one ((close_state s o).is_open p)
      ≡ count p s.closed + one (s.is_open p)
unfolding close_state
close_state-once s none p = refl
close_state-once s (some q) p = ground arith

close_state-is_open :
    (s : Sockets) (o : Option ℕ) (p : ℕ)
    → (close_state s o).is_open p ≡ (if ltb 0 (holds o p) then false else s.is_open p)
unfolding close_state
close_state-is_open s none p = refl
close_state-is_open s (some q) p = ground arith

close_state-same :
    (s : Sockets) (o : Option ℕ)
    → ((close_state s o).objects ≡ s.objects) × ((close_state s o).next ≡ s.next)
unfolding close_state
close_state-same s none = (refl, refl)
close_state-same s (some q) = ground arith

perform-Inv : (s : Sockets) (u : Use) (p : ℕ) → Names s u → Inv s p → Inv (perform s u) p
unfolding perform
perform-Inv s constructs p n v = record {
  once = ground (arith, v.once, owners-append s.objects (some s.next ∷ []) p);
  owned = ground (arith, v.owned, v.single, v.once, owners-append s.objects (some s.next ∷ []) p);
  single = ground (arith, v.single, owners-append s.objects (some s.next ∷ []) p);
}
perform-Inv s (closes i) p n v = record {
  once = ground (
    arith,
    v.once,
    close_state-once s (state_at s i) p,
    close_state-is_open s (state_at s i) p,
    close_state-same s (state_at s i),
  );
  owned = ground (
    arith,
    v.owned,
    v.single,
    v.once,
    close_state-once s (state_at s i) p,
    close_state-is_open s (state_at s i) p,
    close_state-same s (state_at s i),
  );
  single = ground (
    arith,
    v.single,
    close_state-once s (state_at s i) p,
    close_state-is_open s (state_at s i) p,
    close_state-same s (state_at s i),
  );
}
perform-Inv s (moves_to_new other) p n v = record {
  once = ground (
    arith,
    v.once,
    owners-append (set s.objects other none) (state_at s other ∷ []) p,
    owners-set s.objects other none p n,
  );
  owned = ground (
    arith,
    v.owned,
    v.single,
    v.once,
    owners-append (set s.objects other none) (state_at s other ∷ []) p,
    owners-set s.objects other none p n,
  );
  single = ground (
    arith,
    v.single,
    owners-append (set s.objects other none) (state_at s other ∷ []) p,
    owners-set s.objects other none p n,
  );
}
perform-Inv s (assigns i other) p (lt, lt') v = record {
  once = ground (
    arith,
    v.once,
    close_state-once s (state_at s i) p,
    close_state-is_open s (state_at s i) p,
    close_state-same s (state_at s i),
    owners-set s.objects i (state_at s other) p lt,
    length-set s.objects i (state_at s other),
    get_or-set_other s.objects i other (state_at s other) none,
    owners-set (set s.objects i (state_at s other)) other none p,
  );
  owned = ground (
    arith,
    v.owned,
    v.single,
    v.once,
    close_state-once s (state_at s i) p,
    close_state-is_open s (state_at s i) p,
    close_state-same s (state_at s i),
    owners-set s.objects i (state_at s other) p lt,
    length-set s.objects i (state_at s other),
    get_or-set_other s.objects i other (state_at s other) none,
    owners-set (set s.objects i (state_at s other)) other none p,
  );
  single = ground (
    arith,
    v.single,
    close_state-once s (state_at s i) p,
    close_state-is_open s (state_at s i) p,
    close_state-same s (state_at s i),
    owners-set s.objects i (state_at s other) p lt,
    length-set s.objects i (state_at s other),
    get_or-set_other s.objects i other (state_at s other) none,
    owners-set (set s.objects i (state_at s other)) other none p,
  );
}
perform-Inv s (destructs i) p n v = record {
  once = ground (
    arith,
    v.once,
    close_state-once s (state_at s i) p,
    close_state-is_open s (state_at s i) p,
    close_state-same s (state_at s i),
    owners-set s.objects i none p n,
  );
  owned = ground (
    arith,
    v.owned,
    v.single,
    v.once,
    close_state-once s (state_at s i) p,
    close_state-is_open s (state_at s i) p,
    close_state-same s (state_at s i),
    owners-set s.objects i none p n,
  );
  single = ground (
    arith,
    v.single,
    close_state-once s (state_at s i) p,
    close_state-is_open s (state_at s i) p,
    close_state-same s (state_at s i),
    owners-set s.objects i none p n,
  );
}

Reach-Inv : {s : Sockets} (p : ℕ) → Reach s → Inv s p
Reach-Inv p start = record { once = ground arith; owned = ground arith; single = ground arith }
Reach-Inv p (later {s} u r n) = perform-Inv s u p n (Reach-Inv p r)

-- However sockets are opened, moved, closed and destroyed, every descriptor is open or was closed,
-- exactly once: it is never closed twice; and while it is open just one object holds it, so that none
-- is leaked.
pub closed_once :
    {s : Sockets} (p : ℕ)
    → Reach s
    → (count p s.closed + one (s.is_open p) ≡ (if ltb p s.next then 1 else 0))
      × (s.is_open p ≡ true → owners s.objects p ≡ 1)
closed_once p r =
    let v = Reach-Inv p r in (v.once, λ e. ground (arith, v.owned, v.single, v.once, e))
