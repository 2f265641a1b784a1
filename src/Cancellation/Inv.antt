-- ===== src/Cancellation/Inv.antt =====
-- Where each callback of a cancellation state is, and where the request stands.
use xcoro.Base.{
  ℕ, ◌+◌, ◌≡◌, refl, ◌⊎◌, inl, true, false, ◌&&◌, List, [], ◌∷◌, ◌++◌, arith, count, count-append,
  ltb, ◌==◌, if◌then◌else◌,
}
use xcoro.Cancellation.{
  CancellationState, invoke, add_locked, try_add_callback, erase_first, remove_callback,
  claim_cancel, swap_callbacks,
}
use xcoro.Cancellation.System.{
  System, added, too_late, Step, adds, invokes_late, deregisters, claims, claims_again, swaps,
  invokes, Reach, start, later,
}

-- Where a callback is: in the list, swapped out, called, or taken out of the list.
abbrev pub places : ℕ → System → ℕ
places cb s =
    count cb s.state.callbacks + count cb s.pending + count cb s.called + count cb s.removed

-- Where the request stands.
abbrev Phase : System → Type 0
Phase s =
    ((s.state.cancelled ≡ false) × (s.claimed ≡ false) × (s.pending ≡ []) × (s.called ≡ []))
    ⊎ (((s.state.cancelled ≡ true) × (s.claimed ≡ true) × (s.pending ≡ []))
        ⊎ ((s.state.cancelled ≡ true) × (s.claimed ≡ false) × (s.state.callbacks ≡ [])))

pub record Inv (s : System) : Type 0 where
  pub placed : (cb : ℕ) → places cb s ≡ (if ltb cb s.next then 1 else 0)
  pub flagged : (cb : ℕ) → s.state.invoked cb ≡ ltb 0 (count cb s.called)
  pub phase : Phase s

count-erase_first :
    (t cb : ℕ) (xs : List ℕ)
    → count t (erase_first cb xs) + (if cb == t && ltb 0 (count cb xs) then 1 else 0) ≡ count t xs
unfolding erase_first
count-erase_first t cb [] = ground arith
count-erase_first t cb (x ∷ xs) = ground (arith, count-erase_first t cb xs)

erase_first-nil : (cb : ℕ) → erase_first cb [] ≡ []
unfolding erase_first
erase_first-nil cb = refl

-- A new address is nowhere.
fresh_place : (s : System) → Inv s → (count s.next s.called ≡ 0) × (s.state.invoked s.next ≡ false)
fresh_place s v =
    (ground (arith, v.placed s.next), ground (arith, v.placed s.next, v.flagged s.next))

adds-Inv :
    (s : System) (st : CancellationState)
    → try_add_callback s.state s.next ≡ (st, true)
    → Inv s
    → Inv (added s st)
unfolding try_add_callback add_locked
adds-Inv s st e v = record {
  placed = λ cb. ground (arith, v.placed cb, count-append cb s.state.callbacks (s.next ∷ []));
  flagged = λ cb. ground (arith, v.flagged cb);
  phase = ground (arith, v.phase);
}

invokes_late-Inv :
    (s : System) (st : CancellationState)
    → try_add_callback s.state s.next ≡ (st, false)
    → Inv s
    → Inv (too_late s st)
unfolding try_add_callback add_locked invoke
invokes_late-Inv s st e v = record {
  placed = λ cb. ground (arith, v.placed cb, fresh_place s v);
  flagged = λ cb. ground (arith, v.flagged cb, fresh_place s v);
  phase = ground (arith, v.phase);
}

deregisters-Inv :
    (s : System) (cb : ℕ)
    → Inv s
    → Inv (record s {
      state = remove_callback s.state cb;
      removed = if ltb 0 (count cb s.state.callbacks) then cb ∷ s.removed else s.removed;
    })
unfolding remove_callback
deregisters-Inv s cb v = record {
  placed = λ t. ground (arith, v.placed t, count-erase_first t cb s.state.callbacks);
  flagged = v.flagged;
  phase = ground (arith, v.phase, erase_first-nil cb);
}

claims-Inv :
    (s : System) (st : CancellationState)
    → claim_cancel s.state ≡ (st, true)
    → Inv s
    → Inv (record s { state = st; claimed = true })
unfolding claim_cancel
claims-Inv s st e v = record {
  placed = λ cb. ground (arith, v.placed cb);
  flagged = λ cb. ground (arith, v.flagged cb);
  phase = ground (arith, v.phase);
}

claims_again-Inv :
    (s : System) (st : CancellationState)
    → claim_cancel s.state ≡ (st, false)
    → Inv s
    → Inv (record s { state = st })
unfolding claim_cancel
claims_again-Inv s st e v = record {
  placed = λ cb. ground (arith, v.placed cb);
  flagged = λ cb. ground (arith, v.flagged cb);
  phase = ground (arith, v.phase);
}

swaps-Inv :
    (s : System)
    → s.claimed ≡ true
    → Inv s
    → Inv (record s {
      state = (swap_callbacks s.state).0;
      claimed = false;
      pending = (swap_callbacks s.state).1;
    })
unfolding swap_callbacks
swaps-Inv s e v = record {
  placed = λ cb. ground (arith, v.placed cb, v.phase);
  flagged = v.flagged;
  phase = ground (arith, v.phase);
}

invokes-Inv :
    (s : System) (cb : ℕ) (rest : List ℕ)
    → s.pending ≡ cb ∷ rest
    → Inv s
    → Inv (record s {
      state = (invoke s.state cb).0;
      pending = rest;
      called = (invoke s.state cb).1 ++ s.called;
    })
unfolding invoke
invokes-Inv s cb rest e v = record {
  placed = λ t. ground (arith, v.placed t, v.placed cb, v.flagged cb);
  flagged = λ t. ground (arith, v.flagged t, v.flagged cb, v.placed cb);
  phase = ground (arith, v.phase);
}

pub Step-Inv : {s t : System} → Step s t → Inv s → Inv t
Step-Inv {s} (adds st e) v = adds-Inv s st e v
Step-Inv {s} (invokes_late st e) v = invokes_late-Inv s st e v
Step-Inv {s} (deregisters cb) v = deregisters-Inv s cb v
Step-Inv {s} (claims st e) v = claims-Inv s st e v
Step-Inv {s} (claims_again st e) v = claims_again-Inv s st e v
Step-Inv {s} (swaps e) v = swaps-Inv s e v
Step-Inv {s} (invokes cb rest e) v = invokes-Inv s cb rest e v

pub Reach-Inv : {s : System} → Reach s → Inv s
Reach-Inv start = record {
  placed = λ cb. ground arith;
  flagged = λ cb. refl;
  phase = inl (refl, refl, refl, refl);
}
Reach-Inv (later r st) = Step-Inv st (Reach-Inv r)
