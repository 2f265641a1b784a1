-- ===== src/Reactor/Outcome.antt =====
-- What an armed wait comes to, from `co_await` to the coroutine's `await_resume`.
use xcoro.Base.{
  ℕ, ap, ◌∙◌, ◌++◌, ◌≡◌, ◌≢◌, refl, Bool, true, false, Option, none, some, List, [], ◌<◌, arith,
  count, subst, inl, inr, Option-cases,
}
use xcoro.Reactor.{
  WaitKind, read, write, Events, Ctl, Operation, Descriptor, slot_for, set_slot, cancel_wait,
  unregister_descriptor, dispatch_descriptor_event, read_ready, write_ready, finish_wait,
  update_interest_locked, complete_operation_locked,
}
use xcoro.Reactor.System.{System, Step, cancels, dispatches, unregisters, Reach, later}
use xcoro.Reactor.Inv.{IsLive}
use xcoro.Reactor.Waits.{Good, Reach-Good}
use xcoro.Reactor.Runs.{Runs, Runs-keeps}
use xcoro.Reactor.Await.{await_resume, WaitEnd, waited, operation_cancelled, system_error, destruct}

abbrev other_of : WaitKind → WaitKind
other_of read = write
other_of write = read

-- The wait at `p` is the one in the direction `kind`; a wait in the other direction is another
-- coroutine's.
record Waits (d : Descriptor) (kind : WaitKind) (p : ℕ) : Type 0 where
  slot : slot_for d kind ≡ some p
  goes : d.closing ≡ false
  pending : (d.operations p).completed ≡ false
  resumes : (d.operations p).handle ≡ p
  apart : (q : ℕ) → slot_for d (other_of kind) ≡ some q → (q ≢ p) × ((d.operations q).handle ≡ q)

abbrev pub ready_for : WaitKind → Events → Bool
ready_for read = read_ready
ready_for write = write_ready

-- The coroutine is put into the ready queue, once; the slot is empty, the operation is completed, and
-- `await_resume` tells `end`.
pub record Ended (kind : WaitKind) (p : ℕ) (end : WaitEnd) (d : Descriptor) (handles : List ℕ)
    : Type 0 where
  pub told : await_resume d p ≡ end
  pub empty : slot_for d kind ≡ none
  pub enqueued : count p handles ≡ 1
  pub over : (d.operations p).completed ≡ true

IsLive-at :
    (ops : ℕ → Operation) (slot : Option ℕ) (p : ℕ)
    → IsLive ops slot
    → slot ≡ some p
    → IsLive ops (some p)
IsLive-at ops slot p h e = subst (IsLive ops) e h

Good-Waits :
    (s : System) (kind : WaitKind) (p : ℕ)
    → Good s
    → slot_for s.descriptor kind ≡ some p
    → Waits s.descriptor kind p
unfolding slot_for
Good-Waits s read p (v, shut) e =
    let ops = s.descriptor.operations in
    let live = IsLive-at ops s.descriptor.read_waiter p v.live_read e in
    record {
      slot = e;
      goes = ground (arith, shut);
      pending = live.0;
      resumes = live.1;
      apart = λ q at. (
        ground (arith, v.balanced p, v.once p),
        (IsLive-at ops s.descriptor.write_waiter q v.live_write at).1,
      );
    }
Good-Waits s write p (v, shut) e =
    let ops = s.descriptor.operations in
    let live = IsLive-at ops s.descriptor.write_waiter p v.live_write e in
    record {
      slot = e;
      goes = ground (arith, shut);
      pending = live.0;
      resumes = live.1;
      apart = λ q at. (
        ground (arith, v.balanced p, v.once p),
        (IsLive-at ops s.descriptor.read_waiter q v.live_read at).1,
      );
    }

dispatch-Ended :
    (ctl : Ctl) (d : Descriptor) (kind : WaitKind) (p : ℕ) (e : Events)
    → Waits d kind p
    → ready_for kind e ≡ true
    → let (d', handles) = dispatch_descriptor_event ctl d e in Ended kind p waited d' handles
unfolding dispatch_descriptor_event finish_wait await_resume slot_for set_slot
    update_interest_locked complete_operation_locked
dispatch-Ended ctl d read p e w ready = elim (Option-cases d.write_waiter) [
  | inl empty ↦ ground (arith, w.goes, w.slot, w.pending, w.resumes)
  | inr (q, at) ↦ ground (arith, w.goes, w.slot, w.pending, w.resumes, w.apart q at)
]
dispatch-Ended ctl d write p e w ready = elim (Option-cases d.read_waiter) [
  | inl empty ↦ ground (arith, w.goes, w.slot, w.pending, w.resumes)
  | inr (q, at) ↦ ground (arith, w.goes, w.slot, w.pending, w.resumes, w.apart q at)
]

cancel-Ended :
    (ctl : Ctl) (d d' : Descriptor) (kind : WaitKind) (p : ℕ) (handles : List ℕ)
    → Waits d kind p
    → cancel_wait ctl d kind p ≡ some (d', handles)
    → Ended kind p operation_cancelled d' handles
unfolding cancel_wait await_resume slot_for set_slot update_interest_locked
    complete_operation_locked
cancel-Ended ctl d d' read p handles w e = ground (arith, e, w.slot, w.pending, w.resumes)
cancel-Ended ctl d d' write p handles w e = ground (arith, e, w.slot, w.pending, w.resumes)

unregister-Ended :
    (d : Descriptor) (kind : WaitKind) (p error : ℕ)
    → Waits d kind p
    → error ≢ 0
    → let (d', handles) = unregister_descriptor d error in
      Ended kind p (system_error error) d' handles
unfolding unregister_descriptor finish_wait await_resume slot_for set_slot complete_operation_locked
unregister-Ended d read p error w ne = elim (Option-cases d.write_waiter) [
  | inl empty ↦ ground (arith, ne, w.slot, w.pending, w.resumes)
  | inr (q, at) ↦ ground (arith, ne, w.slot, w.pending, w.resumes, w.apart q at)
]
unregister-Ended d write p error w ne = elim (Option-cases d.read_waiter) [
  | inl empty ↦ ground (arith, ne, w.slot, w.pending, w.resumes)
  | inr (q, at) ↦ ground (arith, ne, w.slot, w.pending, w.resumes, w.apart q at)
]

-- What ends the wait at `p`, what the coroutine is told, and the descriptor and the handles enqueued
-- then.
pub data Ends (kind : WaitKind) (p : ℕ) (d : Descriptor)
    : WaitEnd → Descriptor → List ℕ → Type 0 where
  by_event :
      (ctl : Ctl) (e : Events)
      → ready_for kind e ≡ true
      → Ends kind p d waited
          (dispatch_descriptor_event ctl d e).0
          (dispatch_descriptor_event ctl d e).1
  by_token :
      (ctl : Ctl) (d' : Descriptor) (handles : List ℕ)
      → cancel_wait ctl d kind p ≡ some (d', handles)
      → Ends kind p d operation_cancelled d' handles
  by_closing :
      (error : ℕ)
      → error ≢ 0
      → Ends kind p d
          (system_error error)
          (unregister_descriptor d error).0
          (unregister_descriptor d error).1

Waits-Ended :
    {kind : WaitKind} {p : ℕ} {d d' : Descriptor} {end : WaitEnd} {handles : List ℕ}
    → Waits d kind p
    → Ends kind p d end d' handles
    → Ended kind p end d' handles
Waits-Ended {kind} {p} {d} w (by_event ctl e ready) = dispatch-Ended ctl d kind p e w ready
Waits-Ended {kind} {p} {d} w (by_token ctl d' handles e) = cancel-Ended ctl d d' kind p handles w e
Waits-Ended {kind} {p} {d} w (by_closing error ne) = unregister-Ended d kind p error w ne

-- The state in which the wait has ended.
abbrev pub ended_state : System → Descriptor → List ℕ → System
ended_state s d handles = record s { descriptor = d; ready = handles ++ s.ready }

Ends-Step :
    {s : System} {kind : WaitKind} {p : ℕ} {d : Descriptor} {end : WaitEnd} {handles : List ℕ}
    → Ends kind p s.descriptor end d handles
    → Step s (ended_state s d handles)
Ends-Step (by_event ctl e ready) = dispatches ctl e
Ends-Step {kind = kind} {p = p} (by_token ctl d handles e) = cancels ctl kind p d handles e
Ends-Step (by_closing error ne) = unregisters error

waits_low :
    (s : System) (kind : WaitKind) (p : ℕ)
    → Good s
    → slot_for s.descriptor kind ≡ some p
    → p < s.next
unfolding slot_for
waits_low s read p (v, _) e = ground (arith, v.balanced p, v.fresh p)
waits_low s write p (v, _) e = ground (arith, v.balanced p, v.fresh p)

-- A wait is in its slot, in any state that operations on the descriptor lead to, so however many of
-- them came since it was armed. An event that its direction is ready for enqueues its coroutine, which
-- goes on; a cancellation enqueues it and makes it throw `operation_cancelled`; and taking the
-- descriptor out of the reactor with an error other than 0 enqueues it and makes it throw that error.
-- Each time it is enqueued once, and the slot is free again. However many operations on the descriptor
-- come before the coroutine goes on, it is told the same then, and the awaiter's destructor has
-- nothing to cancel.
pub await-Ended :
    {is_open : Bool} {s t : System} {d : Descriptor} {end : WaitEnd} {handles : List ℕ}
    (kind : WaitKind) (p : ℕ)
    → Reach is_open s
    → slot_for s.descriptor kind ≡ some p
    → Ends kind p s.descriptor end d handles
    → Runs (ended_state s d handles) t
    → Ended kind p end d handles
      × (await_resume t.descriptor p ≡ end)
      × ((ctl : Ctl) → destruct ctl t.descriptor kind p ≡ some (t.descriptor, []))
unfolding await_resume destruct
await-Ended {s = s} {t = t} {d = d} kind p r at how path =
    let g = Reach-Good r in
    let ended = Waits-Ended (Good-Waits s kind p g at) how in
    let over = ended.over in
    let (_, same, _) = Runs-keeps p (later r (Ends-Step how)) path over (waits_low s kind p g at) in
    let over' : (t.descriptor.operations p).completed ≡ true =
      ap (λ op. op.completed) same ∙ over in
    (ended, rw same ended.told, λ ctl. rw over' refl)
