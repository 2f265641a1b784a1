-- ===== src/Reactor/Waits.antt =====
-- No wait is lost, and none is completed twice.
use xcoro.Base.{
  ℕ, ◌+◌, ◌≤◌, ◌≡◌, refl, subst, sym, ◌⊎◌, inl, inr, Bool, true, false, not, ◌||◌, none, some, List,
  [], ◌∷◌, ◌++◌, arith, count, count-append, if◌then◌else◌, update, Bool-cases, Option-cases,
}
use xcoro.Reactor.{
  WaitKind, read, write, Events, Ctl, Operation, Descriptor, reset, slot_for, set_slot,
  update_interest_locked, complete_operation_locked, finish_wait, ArmResult, refused, armed,
  concurrent_wait, ctl_failed, arm_wait, holds, cancel_wait, unregister_descriptor, read_ready,
  write_ready, dispatch_descriptor_event, no_events, ebadf,
}
use xcoro.Reactor.System.{
  System, Step, arms, arms_failing, is_refused, cancels, dispatches, unregisters, Reach, start,
  later,
}
use xcoro.Reactor.Inv.{
  in_slot, Inv, IsClosed, Inv-reorder, complete_updated-Inv, complete-Inv, finish_wait-Inv,
  update_interest-Inv, new_wait-Inv, refused-Inv,
}

-- What `arm_wait` returned says which way it went.
arm_wait-inv :
    (ctl : Ctl) (d d' : Descriptor) (kind : WaitKind) (p : ℕ) (r : ArmResult)
    → arm_wait ctl d kind p p ≡ (d', r)
    → ((r ≡ refused)
        × (d' ≡ record d {
          operations = update d.operations p (record (reset p) { error = ebadf; completed = true });
        }))
      ⊎ (((r ≡ concurrent_wait) × (d' ≡ d))
          ⊎ (((r ≡ armed) ⊎ (r ≡ ctl_failed))
              × (slot_for d kind ≡ none)
              × (d.closing ≡ false)
              × (d'
                  ≡ (update_interest_locked ctl (
                      set_slot
                        (record d { operations = update d.operations p (reset p) })
                        kind
                        (some p))).0)))
unfolding arm_wait
arm_wait-inv ctl d d' kind p r e = elim (Bool-cases (not d.is_open || d.closing)) [
  | inl shut ↦ inl (ground arith)
  | inr usable ↦ elim (Option-cases (slot_for d kind)) [
    | inl empty ↦ inr (inr (ground arith))
    | inr (q, taken) ↦ inr (inl (ground arith))
  ]
]

cancel_wait-inv :
    (ctl : Ctl) (d d' : Descriptor) (kind : WaitKind) (p : ℕ) (handles : List ℕ)
    → cancel_wait ctl d kind p ≡ some (d', handles)
    → ((d' ≡ d) × (handles ≡ []))
      ⊎ ((slot_for d kind ≡ some p)
          × ((d', handles)
              ≡ complete_operation_locked
                  (update_interest_locked ctl (set_slot d kind none)).0
                  p
                  true
                  0))
unfolding cancel_wait
cancel_wait-inv ctl d d' kind p handles e = elim (Option-cases (slot_for d kind)) [
  | inl empty ↦ inl (ground arith)
  | inr (q, at) ↦ elim (Bool-cases (holds (slot_for d kind) p)) [
    | inl same ↦ inr (ground arith)
    | inr other ↦ inl (ground arith)
  ]
]

-- Both directions finish, one behind the other.
both-Inv :
    (d : Descriptor) (ready waits : List ℕ) (next error : ℕ)
    → Inv d ready waits next
    → let (d₁, readers) = finish_wait d read error in
      let (d₂, writers) = finish_wait d₁ write error in
      Inv d₂ ((readers ++ writers) ++ ready) waits next
both-Inv d ready waits next error v =
    let (d₁, readers) = finish_wait d read error in
    let (d₂, writers) = finish_wait d₁ write error in
    Inv-reorder d₂ (writers ++ (readers ++ ready)) ((readers ++ writers) ++ ready) waits next
      (λ p. omega (
        arith,
        count-append p (readers ++ writers) ready,
        count-append p readers writers,
        count-append p writers (readers ++ ready),
        count-append p readers ready,
      ))
      (finish_wait-Inv d₁ (readers ++ ready) waits next write error
        (finish_wait-Inv d ready waits next read error v))

-- As `both-Inv`, for the directions that an event mask names.
chosen-Inv :
    (d : Descriptor) (ready waits : List ℕ) (next : ℕ) (reads writes : Bool)
    → Inv d ready waits next
    → let (d₁, readers) = (if reads then finish_wait d read 0 else (d, [])) in
      let (d₂, writers) = (if writes then finish_wait d₁ write 0 else (d₁, [])) in
      Inv d₂ ((readers ++ writers) ++ ready) waits next
chosen-Inv d ready waits next true true v = both-Inv d ready waits next 0 v
chosen-Inv d ready waits next true false v =
    Inv-reorder (finish_wait d read 0).0 ((finish_wait d read 0).1 ++ ready)
      (((finish_wait d read 0).1 ++ []) ++ ready) waits next
      (λ p. omega (
        arith,
        count-append p ((finish_wait d read 0).1 ++ []) ready,
        count-append p (finish_wait d read 0).1 [],
        count-append p (finish_wait d read 0).1 ready,
      ))
      (finish_wait-Inv d ready waits next read 0 v)
chosen-Inv d ready waits next false true v = finish_wait-Inv d ready waits next write 0 v
chosen-Inv d ready waits next false false v = v

dispatch-Inv :
    (ctl : Ctl) (d : Descriptor) (e : Events) (ready waits : List ℕ) (next : ℕ)
    → Inv d ready waits next
    → Inv
        (dispatch_descriptor_event ctl d e).0
        ((dispatch_descriptor_event ctl d e).1 ++ ready)
        waits
        next
unfolding dispatch_descriptor_event
dispatch-Inv ctl d e ready waits next v = go _ _ d.closing v (
    update_interest-Inv ctl _ _ waits next
      (chosen-Inv d ready waits next (read_ready e) (write_ready e) v))
  where
    go :
        (r₀ r₁ : Descriptor × List ℕ) (shut : Bool)
        → Inv r₀.0 (r₀.1 ++ ready) waits next
        → Inv r₁.0 (r₁.1 ++ ready) waits next
        → let r : Descriptor × List ℕ = if shut then r₀ else r₁ in Inv r.0 (r.1 ++ ready) waits next
    go r₀ r₁ true v w = v
    go r₀ r₁ false v w = w

dispatch-IsClosed :
    (ctl : Ctl) (d : Descriptor) (e : Events)
    → IsClosed d
    → IsClosed (dispatch_descriptor_event ctl d e).0
unfolding dispatch_descriptor_event finish_wait complete_operation_locked set_slot
    update_interest_locked
dispatch-IsClosed ctl d e h = ground (arith, h)

unregister-Inv :
    (d : Descriptor) (error : ℕ) (ready waits : List ℕ) (next : ℕ)
    → Inv d ready waits next
    → Inv (unregister_descriptor d error).0 ((unregister_descriptor d error).1 ++ ready) waits next
unfolding unregister_descriptor
unregister-Inv d error ready waits next v =
    both-Inv
      (record d { closing = true; registered_with_epoll = false; registered_events = no_events })
      ready waits next error
      (record {
        balanced = v.balanced;
        once = v.once;
        fresh = v.fresh;
        live_read = v.live_read;
        live_write = v.live_write;
      })

unregister-IsClosed : (d : Descriptor) (error : ℕ) → IsClosed (unregister_descriptor d error).0
unfolding unregister_descriptor finish_wait slot_for set_slot complete_operation_locked
unregister-IsClosed d error = ground arith

abbrev pub Good : System → Type 0
Good s = Inv s.descriptor s.ready s.waits s.next × IsClosed s.descriptor

arm-Good :
    (ctl : Ctl) (s : System) (kind : WaitKind) (d : Descriptor)
    → slot_for s.descriptor kind ≡ none
    → s.descriptor.closing ≡ false
    → d
      ≡ (update_interest_locked ctl (
          set_slot
            (record (s.descriptor) {
              operations = update s.descriptor.operations s.next (reset s.next);
            })
            kind
            (some s.next))).0
    → Good s
    → Good (record s { descriptor = d; next = s.next + 1; waits = s.next ∷ s.waits })
unfolding update_interest_locked set_slot
arm-Good ctl s kind d empty usable e g = (
  subst (λ (x : Descriptor). Inv x s.ready (s.next ∷ s.waits) (s.next + 1)) (sym e)
      (update_interest-Inv ctl _ s.ready (s.next ∷ s.waits) (s.next + 1)
        (new_wait-Inv s.descriptor s.ready s.waits s.next kind g.0 empty)),
  elim kind [ read ↦ inl (ground arith) | write ↦ inl (ground arith) ],
)

cancel-Good :
    (ctl : Ctl) (s : System) (kind : WaitKind) (p : ℕ) (d : Descriptor) (handles : List ℕ)
    → cancel_wait ctl s.descriptor kind p ≡ some (d, handles)
    → Good s
    → Good (record s { descriptor = d; ready = handles ++ s.ready })
unfolding update_interest_locked set_slot complete_operation_locked
cancel-Good ctl s kind p d handles e g =
    elim (cancel_wait-inv ctl s.descriptor d kind p handles e) [
      | inl (same, nothing) ↦
          subst
            (λ (r : Descriptor × List ℕ). Inv r.0 (r.1 ++ s.ready) s.waits s.next × IsClosed r.0)
            {x = (s.descriptor, [])} {y = (d, handles)} (cc) g
      | inr (at, done) ↦
          subst
            (λ (r : Descriptor × List ℕ). Inv r.0 (r.1 ++ s.ready) s.waits s.next × IsClosed r.0)
            (sym done)
            (
              complete_updated-Inv ctl (set_slot s.descriptor kind none) s.ready s.waits s.next p
                  true 0 (complete-Inv s.descriptor s.ready s.waits s.next p kind true 0 g.0 at),
              elim kind [ read ↦ ground (arith, g.1) | write ↦ ground (arith, g.1) ],
            )
    ]

refused-Good :
    (s : System) (op : Operation)
    → Good s
    → Good (record s {
      descriptor = record (s.descriptor) { operations = update s.descriptor.operations s.next op };
      next = s.next + 1;
    })
refused-Good s op g = (refused-Inv s.descriptor s.ready s.waits s.next op g.0, g.1)

arms-Good :
    (ctl : Ctl) (s : System) (kind : WaitKind) (d : Descriptor) (r : ArmResult)
    → arm_wait ctl s.descriptor kind s.next s.next ≡ (d, r)
    → (r ≡ armed) ⊎ (r ≡ ctl_failed)
    → Good s
    → Good (record s { descriptor = d; next = s.next + 1; waits = s.next ∷ s.waits })
arms-Good ctl s kind d r e went g = elim (arm_wait-inv ctl s.descriptor d kind s.next r e) [
  | inl (other, _) ↦ absurd (ground (arith, went))
  | inr (inl (other, _)) ↦ absurd (ground (arith, went))
  | inr (inr (_, empty, usable, same)) ↦ arm-Good ctl s kind d empty usable same g
]

refuses-Good :
    (ctl : Ctl) (s : System) (kind : WaitKind) (d : Descriptor)
    → arm_wait ctl s.descriptor kind s.next s.next ≡ (d, refused)
    → Good s
    → Good (record s { descriptor = d; next = s.next + 1 })
refuses-Good ctl s kind d e g = elim (arm_wait-inv ctl s.descriptor d kind s.next refused e) [
  | inl (_, same) ↦
      subst (λ (x : Descriptor). Good (record s { descriptor = x; next = s.next + 1 })) (sym same)
        (refused-Good s _ g)
  | inr (inl (other, _)) ↦ absurd (ground arith)
  | inr (inr (other, _, _, _)) ↦ absurd (ground (arith, other))
]

Step-Good : {s t : System} → Step s t → Good s → Good t
Step-Good {s} (arms ctl kind d e) g = arms-Good ctl s kind d armed e (inl refl) g
Step-Good {s} (arms_failing ctl kind d e) g = arms-Good ctl s kind d ctl_failed e (inr refl) g
Step-Good {s} (is_refused ctl kind d e) g = refuses-Good ctl s kind d e g
Step-Good {s} (cancels ctl kind p d handles e) g = cancel-Good ctl s kind p d handles e g
Step-Good {s} (dispatches ctl e) g = (
  dispatch-Inv ctl s.descriptor e s.ready s.waits s.next g.0,
  dispatch-IsClosed ctl s.descriptor e g.1,
)
Step-Good {s} (unregisters error) g = (
  unregister-Inv s.descriptor error s.ready s.waits s.next g.0,
  unregister-IsClosed s.descriptor error,
)

pub Reach-Good : {is_open : Bool} {s : System} → Reach is_open s → Good s
Reach-Good start = (
  record {
    balanced = λ p. refl;
    once = λ p. omega arith;
    fresh = λ p le. refl;
    live_read = tt;
    live_write = tt;
  },
  inl refl,
)
Reach-Good (later r s) = Step-Good s (Reach-Good r)

-- In every reachable state a wait that was put into a slot is there still or was put into the ready
-- queue, one or the other and once only; and a descriptor that is closing has no waiter left, so
-- unregistering it has released them all.
pub waits_balanced :
    {is_open : Bool} {s : System} (p : ℕ)
    → Reach is_open s
    → (count p s.ready + in_slot s.descriptor.read_waiter p + in_slot s.descriptor.write_waiter p
        ≡ count p s.waits)
      × (count p s.waits ≤ 1)
      × IsClosed s.descriptor
waits_balanced p r = let (v, shut) = Reach-Good r in (v.balanced p, v.once p, shut)
