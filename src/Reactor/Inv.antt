-- ===== src/Reactor/Inv.antt =====
-- The invariant of the waits: every armed wait is in one slot or was put into the ready queue, once.
use xcoro.Base.{
  ℕ, ◌+◌, ◌≤◌, ◌≡◌, subst, sym, ◌⊎◌, inl, inr, Bool, true, false, Option, none, some, List, [], ◌∷◌,
  ◌++◌, arith, count, ◌==◌, if◌then◌else◌, update, Option-cases,
}
use xcoro.Reactor.{
  WaitKind, read, write, Operation, Descriptor, slot_for, set_slot, complete_operation_locked,
  finish_wait, reset, Ctl, update_interest_locked,
}

abbrev pub in_slot : Option ℕ → ℕ → ℕ
in_slot none p = 0
in_slot (some q) p = if q == p then 1 else 0

-- The operation that a slot points to is not completed, and its coroutine is the one that waits.
abbrev pub IsLive : (ℕ → Operation) → Option ℕ → Type 0
IsLive ops none = Unit {0}
IsLive ops (some p) = ((ops p).completed ≡ false) × ((ops p).handle ≡ p)

-- `d` with the handles that went into the ready queue, the waits armed and the next address.
pub record Inv (d : Descriptor) (ready waits : List ℕ) (next : ℕ) : Type 0 where
  pub balanced :
      (p : ℕ) → count p ready + in_slot d.read_waiter p + in_slot d.write_waiter p ≡ count p waits
  pub once : (p : ℕ) → count p waits ≤ 1
  pub fresh : (p : ℕ) → next ≤ p → count p waits ≡ 0
  pub live_read : IsLive d.operations d.read_waiter
  pub live_write : IsLive d.operations d.write_waiter

-- Once `closing` is set nobody waits.
abbrev pub IsClosed : Descriptor → Type 0
IsClosed d = (d.closing ≡ false) ⊎ ((d.read_waiter ≡ none) × (d.write_waiter ≡ none))

-- The waiter `p` leaves its slot, and its handle goes into the ready queue.
pub finish_read-Inv :
    (d : Descriptor) (ready waits : List ℕ) (next p : ℕ) (cancelled : Bool) (error : ℕ)
    → Inv d ready waits next
    → d.read_waiter ≡ some p
    → Inv
        (complete_operation_locked (record d { read_waiter = none }) p cancelled error).0
        ((complete_operation_locked (record d { read_waiter = none }) p cancelled error).1 ++ ready)
        waits
        next
unfolding complete_operation_locked
finish_read-Inv d ready waits next p cancelled error v e = record {
  balanced = λ q. ground (arith, v.balanced q, live);
  once = v.once;
  fresh = v.fresh;
  live_read = tt;
  live_write = other (Option-cases d.write_waiter);
}
  where
    live : IsLive d.operations (some p)
    live = subst (IsLive d.operations) e v.live_read

    other :
        (d.write_waiter ≡ none) ⊎ ((q : ℕ) × (d.write_waiter ≡ some q))
        → IsLive
            (update d.operations p
              (record (d.operations p) { cancelled = cancelled; error = error; completed = true }))
            d.write_waiter
    other (inl empty) = rw empty tt
    other (inr (q, at)) =
        rw at ground (arith, v.balanced p, v.once p, subst (IsLive d.operations) at v.live_write)

pub finish_write-Inv :
    (d : Descriptor) (ready waits : List ℕ) (next p : ℕ) (cancelled : Bool) (error : ℕ)
    → Inv d ready waits next
    → d.write_waiter ≡ some p
    → Inv
        (complete_operation_locked (record d { write_waiter = none }) p cancelled error).0
        ((complete_operation_locked (record d { write_waiter = none }) p cancelled error).1
          ++ ready)
        waits
        next
unfolding complete_operation_locked
finish_write-Inv d ready waits next p cancelled error v e = record {
  balanced = λ q. ground (arith, v.balanced q, live);
  once = v.once;
  fresh = v.fresh;
  live_write = tt;
  live_read = other (Option-cases d.read_waiter);
}
  where
    live : IsLive d.operations (some p)
    live = subst (IsLive d.operations) e v.live_write

    other :
        (d.read_waiter ≡ none) ⊎ ((q : ℕ) × (d.read_waiter ≡ some q))
        → IsLive
            (update d.operations p
              (record (d.operations p) { cancelled = cancelled; error = error; completed = true }))
            d.read_waiter
    other (inl empty) = rw empty tt
    other (inr (q, at)) =
        rw at ground (arith, v.balanced p, v.once p, subst (IsLive d.operations) at v.live_read)

pub complete-Inv :
    (d : Descriptor) (ready waits : List ℕ) (next p : ℕ) (kind : WaitKind) (cancelled : Bool)
    (error : ℕ)
    → Inv d ready waits next
    → slot_for d kind ≡ some p
    → Inv
        (complete_operation_locked (set_slot d kind none) p cancelled error).0
        ((complete_operation_locked (set_slot d kind none) p cancelled error).1 ++ ready)
        waits
        next
unfolding slot_for set_slot
complete-Inv d ready waits next p read cancelled error v e =
    finish_read-Inv d ready waits next p cancelled error v e
complete-Inv d ready waits next p write cancelled error v e =
    finish_write-Inv d ready waits next p cancelled error v e

finish_wait-empty :
    (d : Descriptor) (kind : WaitKind) (error : ℕ)
    → slot_for d kind ≡ none
    → finish_wait d kind error ≡ (d, [])
unfolding finish_wait
finish_wait-empty d kind error e = rw (e, finish_wait)

finish_wait-full :
    (d : Descriptor) (kind : WaitKind) (error p : ℕ)
    → slot_for d kind ≡ some p
    → finish_wait d kind error ≡ complete_operation_locked (set_slot d kind none) p false error
unfolding finish_wait
finish_wait-full d kind error p e = rw (e, finish_wait)

pub finish_wait-Inv :
    (d : Descriptor) (ready waits : List ℕ) (next : ℕ) (kind : WaitKind) (error : ℕ)
    → Inv d ready waits next
    → Inv (finish_wait d kind error).0 ((finish_wait d kind error).1 ++ ready) waits next
finish_wait-Inv d ready waits next kind error v = elim (Option-cases (slot_for d kind)) [
  | inl empty ↦ subst motive (sym (finish_wait-empty d kind error empty)) v
  | inr (p, at) ↦
      subst motive (sym (finish_wait-full d kind error p at))
        (complete-Inv d ready waits next p kind false error v at)
]
  where
    motive : Descriptor × List ℕ → Type 0
    motive r = Inv r.0 (r.1 ++ ready) waits next

pub update_interest-Inv :
    (ctl : Ctl) (d : Descriptor) (ready waits : List ℕ) (next : ℕ)
    → Inv d ready waits next
    → Inv (update_interest_locked ctl d).0 ready waits next
unfolding update_interest_locked
update_interest-Inv ctl d ready waits next v = record {
  balanced = v.balanced;
  once = v.once;
  fresh = v.fresh;
  live_read = v.live_read;
  live_write = v.live_write;
}

IsLive-other :
    (d : Descriptor) (ready waits : List ℕ) (next : ℕ) (op : Operation) (slot : Option ℕ)
    → Inv d ready waits next
    → ((p : ℕ) → in_slot slot p ≤ count p waits)
    → IsLive d.operations slot
    → IsLive (update d.operations next op) slot
IsLive-other d ready waits next op none v le live = tt
IsLive-other d ready waits next op (some q) v le live = ground (arith, le q, v.fresh q, live)

pub new_wait-Inv :
    (d : Descriptor) (ready waits : List ℕ) (next : ℕ) (kind : WaitKind)
    → Inv d ready waits next
    → slot_for d kind ≡ none
    → Inv
        (set_slot
          (record d { operations = update d.operations next (reset next) })
          kind
          (some next))
        ready
        (next ∷ waits)
        (next + 1)
unfolding slot_for set_slot
new_wait-Inv d ready waits next read v e = record {
  balanced = λ p. ground (arith, v.balanced p);
  once = λ p. ground (arith, v.once p, v.fresh p);
  fresh = λ p le. ground (arith, v.fresh p);
  live_read = ground arith;
  live_write =
      IsLive-other d ready waits next (reset next) d.write_waiter v
        (λ p. omega (arith, v.balanced p)) v.live_write;
}
new_wait-Inv d ready waits next write v e = record {
  balanced = λ p. ground (arith, v.balanced p);
  once = λ p. ground (arith, v.once p, v.fresh p);
  fresh = λ p le. ground (arith, v.fresh p);
  live_read =
      IsLive-other d ready waits next (reset next) d.read_waiter v
        (λ p. omega (arith, v.balanced p)) v.live_read;
  live_write = ground arith;
}

-- An operation at a new address that is in no slot.
pub refused-Inv :
    (d : Descriptor) (ready waits : List ℕ) (next : ℕ) (op : Operation)
    → Inv d ready waits next
    → Inv (record d { operations = update d.operations next op }) ready waits (next + 1)
refused-Inv d ready waits next op v = record {
  balanced = v.balanced;
  once = v.once;
  fresh = λ p le. v.fresh p (omega arith);
  live_read =
      IsLive-other d ready waits next op d.read_waiter v (λ p. omega (arith, v.balanced p))
        v.live_read;
  live_write =
      IsLive-other d ready waits next op d.write_waiter v (λ p. omega (arith, v.balanced p))
        v.live_write;
}

-- Only the number of times that a handle is in the ready queue matters.
pub Inv-reorder :
    (d : Descriptor) (ready ready' waits : List ℕ) (next : ℕ)
    → ((p : ℕ) → count p ready' ≡ count p ready)
    → Inv d ready waits next
    → Inv d ready' waits next
Inv-reorder d ready ready' waits next same v = record {
  balanced = λ p. omega (arith, same p, v.balanced p);
  once = v.once;
  fresh = v.fresh;
  live_read = v.live_read;
  live_write = v.live_write;
}

-- A completion does not look at the interest.
pub complete_updated-Inv :
    (ctl : Ctl) (d : Descriptor) (ready waits : List ℕ) (next p : ℕ) (cancelled : Bool) (error : ℕ)
    → Inv
        (complete_operation_locked d p cancelled error).0
        ((complete_operation_locked d p cancelled error).1 ++ ready)
        waits
        next
    → Inv
        (complete_operation_locked (update_interest_locked ctl d).0 p cancelled error).0
        ((complete_operation_locked (update_interest_locked ctl d).0 p cancelled error).1 ++ ready)
        waits
        next
unfolding complete_operation_locked update_interest_locked
complete_updated-Inv ctl d ready waits next p cancelled error v = record {
  balanced = v.balanced;
  once = v.once;
  fresh = v.fresh;
  live_read = v.live_read;
  live_write = v.live_write;
}
