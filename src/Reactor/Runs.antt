-- ===== src/Reactor/Runs.antt =====
-- What an operation was told when it completed stays with it.
use xcoro.Base.{ℕ, ap, ◌∙◌, ◌≡◌, refl, Bool, true, false, Option, none, some, ◌<◌, arith}
use xcoro.Reactor.{
  read, write, Operation, slot_for, set_slot, holds, arm_wait, cancel_wait, unregister_descriptor,
  dispatch_descriptor_event, finish_wait, update_interest_locked, complete_operation_locked,
}
use xcoro.Reactor.System.{
  System, Step, arms, arms_failing, is_refused, cancels, dispatches, unregisters, Reach, later,
}
use xcoro.Reactor.Inv.{IsLive}
use xcoro.Reactor.Waits.{Good, Reach-Good}

done_elsewhere :
    (ops : ℕ → Operation) (slot : Option ℕ) (p : ℕ)
    → IsLive ops slot
    → (ops p).completed ≡ true
    → holds slot p ≡ false
done_elsewhere ops none p live over = refl
done_elsewhere ops (some q) p live over = ground (arith, live)

-- A step of the descriptor leaves alone an operation that is completed.
Step-keeps :
    {s t : System} (p : ℕ)
    → Good s
    → Step s t
    → (s.descriptor.operations p).completed ≡ true
    → p < s.next
    → (t.descriptor.operations p ≡ s.descriptor.operations p) × (p < t.next)
unfolding arm_wait cancel_wait unregister_descriptor dispatch_descriptor_event finish_wait slot_for
    set_slot update_interest_locked complete_operation_locked
Step-keeps {s} p (v, _) (arms ctl read d e) over low = ground (arith, e)
Step-keeps {s} p (v, _) (arms ctl write d e) over low = ground (arith, e)
Step-keeps {s} p (v, _) (arms_failing ctl read d e) over low = ground (arith, e)
Step-keeps {s} p (v, _) (arms_failing ctl write d e) over low = ground (arith, e)
Step-keeps {s} p (v, _) (is_refused ctl read d e) over low = ground (arith, e)
Step-keeps {s} p (v, _) (is_refused ctl write d e) over low = ground (arith, e)
Step-keeps {s} p (v, _) (cancels ctl read q d handles e) over low =
    ground
      (arith, e, done_elsewhere s.descriptor.operations s.descriptor.read_waiter p v.live_read over)
Step-keeps {s} p (v, _) (cancels ctl write q d handles e) over low =
    ground (
      arith,
      e,
      done_elsewhere s.descriptor.operations s.descriptor.write_waiter p v.live_write over,
    )
Step-keeps {s} p (v, _) (dispatches ctl e) over low = ground (
  arith,
  done_elsewhere s.descriptor.operations s.descriptor.read_waiter p v.live_read over,
  done_elsewhere s.descriptor.operations s.descriptor.write_waiter p v.live_write over,
)
Step-keeps {s} p (v, _) (unregisters error) over low = ground (
  arith,
  done_elsewhere s.descriptor.operations s.descriptor.read_waiter p v.live_read over,
  done_elsewhere s.descriptor.operations s.descriptor.write_waiter p v.live_write over,
)

-- Steps of the descriptor, from one state to another.
pub data Runs (s : System) : System → Type 0 where
  stays : Runs s s
  goes_on : {t u : System} → Runs s t → Step t u → Runs s u

pub Runs-keeps :
    {is_open : Bool} {s t : System} (p : ℕ)
    → Reach is_open s
    → Runs s t
    → (s.descriptor.operations p).completed ≡ true
    → p < s.next
    → Reach is_open t × (t.descriptor.operations p ≡ s.descriptor.operations p) × (p < t.next)
Runs-keeps p r stays over low = (r, refl, low)
Runs-keeps {s = s} p r (goes_on {t} path step) over low =
    let (r', same, low') = Runs-keeps p r path over low in
    let over' : (t.descriptor.operations p).completed ≡ true =
      ap (λ op. op.completed) same ∙ over in
    let (same', low'') = Step-keeps p (Reach-Good r') step over' low' in
    (later r' step, same' ∙ same, low'')
