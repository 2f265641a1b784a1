-- ===== src/Reactor/System.antt =====
-- The waits on one descriptor, armed and completed in any order.
-- Each wait has an operation of its own, at a new address, and the handle of the operation at `p` is
-- `p`. Besides the descriptor the system keeps the waits that were armed and the handles that were
-- put into the ready queue.
use xcoro.Base.{ℕ, ◌+◌, ◌≡◌, Bool, some, List, [], ◌∷◌, ◌++◌}
use xcoro.Reactor.{
  WaitKind, Events, Ctl, Descriptor, make_descriptor_state, refused, armed, ctl_failed, arm_wait,
  cancel_wait, unregister_descriptor, dispatch_descriptor_event,
}

pub record System : Type 0 where
  pub descriptor : Descriptor
  pub next : ℕ
  pub waits : List ℕ
  pub ready : List ℕ

abbrev pub init : Bool → System
init is_open = record {
  descriptor = make_descriptor_state is_open;
  next = 0;
  waits = [];
  ready = [];
}

-- An armed wait stays in its slot if `epoll_ctl` fails; a refused one never gets there.
pub data Step (s : System) : System → Type 0 where
  arms :
      (ctl : Ctl) (kind : WaitKind) (d : Descriptor)
      → arm_wait ctl s.descriptor kind s.next s.next ≡ (d, armed)
      → Step s (record s { descriptor = d; next = s.next + 1; waits = s.next ∷ s.waits })
  arms_failing :
      (ctl : Ctl) (kind : WaitKind) (d : Descriptor)
      → arm_wait ctl s.descriptor kind s.next s.next ≡ (d, ctl_failed)
      → Step s (record s { descriptor = d; next = s.next + 1; waits = s.next ∷ s.waits })
  is_refused :
      (ctl : Ctl) (kind : WaitKind) (d : Descriptor)
      → arm_wait ctl s.descriptor kind s.next s.next ≡ (d, refused)
      → Step s (record s { descriptor = d; next = s.next + 1 })
  cancels :
      (ctl : Ctl) (kind : WaitKind) (p : ℕ) (d : Descriptor) (handles : List ℕ)
      → cancel_wait ctl s.descriptor kind p ≡ some (d, handles)
      → Step s (record s { descriptor = d; ready = handles ++ s.ready })
  dispatches :
      (ctl : Ctl) (e : Events)
      → Step s (record s {
        descriptor = (dispatch_descriptor_event ctl s.descriptor e).0;
        ready = (dispatch_descriptor_event ctl s.descriptor e).1 ++ s.ready;
      })
  unregisters :
      (error : ℕ)
      → Step s (record s {
        descriptor = (unregister_descriptor s.descriptor error).0;
        ready = (unregister_descriptor s.descriptor error).1 ++ s.ready;
      })

pub data Reach (is_open : Bool) : System → Type 0 where
  start : Reach is_open (init is_open)
  later : {s t : System} → Reach is_open s → Step s t → Reach is_open t
