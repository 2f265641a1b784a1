-- ===== src/WhenAll/Results.antt =====
-- What `when_all` comes to, in whatever order its tasks end.
use xcoro.Base.{
  ℕ, suc, ◌+◌, ◌-◌, ◌<◌, ◌^◌, ◌≡◌, refl, sym, ap, ◌∙◌, Bool, true, false, Option, some, List, [],
  ◌∷◌, ◌++◌, arith, length, get_or, set, replicate, count, length-replicate, length-append, ltb,
  if◌then◌else◌, mod_small,
}
use xcoro.Task.{bad_variant_access, Outcome, raised, ResultSlot, monostate}
use xcoro.WhenAll.{WhenAllLatch, make, is_ready, set_awaiting_coroutine}
use xcoro.WhenAll.Latch.{sub_size_one}
use xcoro.WhenAll.Gather.{
  Awaitable, make_awaitable, store_result, await_resume, complete_all, prepare_and_try_suspend,
  when_all,
}
use xcoro.WhenAll.Slots.{gather, fill, fill_all, await_resume-slots}

module _ {A : Type 0} where
  abbrev at : Option ℕ → ℕ → List (ResultSlot A) → Awaitable A
  at handle count results = record {
    latch = record { count = count; awaiting_coroutine = handle };
    results = results;
  }

  -- The tasks behind the one at `i`, when the latch counts more than that one.
  complete_all-step :
      (os : List (Outcome A)) (i : ℕ) (order : List ℕ) (ss : List (ResultSlot A))
      (handle : Option ℕ) (c : ℕ)
      → 1 < c
      → c < 2 ^ 64
      → complete_all os (i ∷ order) (at handle c ss)
        ≡ complete_all os order
            (at handle (c - 1) (set ss i (store_result (get_or os i (raised bad_variant_access)))))
  unfolding complete_all
  complete_all-step os i order ss handle c lt small =
      ground (arith, sub_size_one c (omega arith) small)

  -- Some of the tasks end, when the latch counts more than they are.
  complete_all-early :
      (os : List (Outcome A)) (order : List ℕ) (ss : List (ResultSlot A)) (handle : Option ℕ)
      (c : ℕ)
      → length order < c
      → c < 2 ^ 64
      → complete_all os order (at handle c ss)
        ≡ (at handle (c - length order) (fill os order ss), [])
  unfolding complete_all
  complete_all-early os [] ss handle c lt small = ap (λ (n : ℕ). (at handle n ss, [])) (omega arith)
  complete_all-early os (i ∷ order) ss handle c lt small =
      complete_all-step os i order ss handle c (omega arith) small
      ∙ complete_all-early os order
          (set ss i (store_result (get_or os i (raised bad_variant_access)))) handle (c - 1)
          (omega arith) (omega arith)
      ∙ ap (λ (n : ℕ). (at handle n (fill os (i ∷ order) ss), [])) (omega arith)

  -- The rest of the tasks end, as many as the latch counts: the last of them resumes the coroutine.
  complete_all-late :
      (os : List (Outcome A)) (i : ℕ) (order : List ℕ) (ss : List (ResultSlot A)) (handle : ℕ)
      → length order + 1 < 2 ^ 64
      → complete_all os (i ∷ order) (at (some handle) (length order + 1) ss) ≡ (
        at (some handle) 0 (fill os (i ∷ order) ss),
        await_resume (at (some handle) 0 (fill os (i ∷ order) ss)) ∷ [],
      )
  unfolding complete_all
  complete_all-late os i [] ss handle small = refl
  complete_all-late os i (j ∷ order) ss handle small =
      complete_all-step os i (j ∷ order) ss (some handle) (length (j ∷ order) + 1) (omega arith)
        small
      ∙ ap
          (λ (n : ℕ). complete_all os (j ∷ order) (
            at (some handle) n (set ss i (store_result (get_or os i (raised bad_variant_access))))))
          (omega arith)
      ∙ complete_all-late os j order
          (set ss i (store_result (get_or os i (raised bad_variant_access)))) handle (omega arith)

  abbrev new_slots : ℕ → List (ResultSlot A)
  new_slots n = replicate n monostate

  -- `prepare_and_try_suspend`, when the tasks `early` end in it and `left` others do not.
  prepare_lem :
      (os : List (Outcome A)) (early : List ℕ) (left handle : ℕ)
      → length os + 1 < 2 ^ 64
      → length early + left ≡ length os
      → prepare_and_try_suspend os early (make_awaitable (length os)) handle
        ≡ (at (some handle) left (fill os early (new_slots (length os))), [], ltb 0 left)
  unfolding prepare_and_try_suspend make set_awaiting_coroutine
  prepare_lem os early left handle small size = rw (mod_small (length os + 1) (2 ^ 64) small) (
      rw
        (complete_all-early os early (new_slots (length os)) (some handle) (length os + 1)
          (omega arith) small)
        (ground (arith, sub_size_one (length os + 1 - length early) (omega arith) (omega arith))))

  fill-append :
      (os : List (Outcome A)) (early late : List ℕ) (ss : List (ResultSlot A))
      → fill os (early ++ late) ss ≡ fill os late (fill os early ss)
  fill-append os [] late ss = refl
  fill-append os (i ∷ early) late ss =
      fill-append os early late (set ss i (store_result (get_or os i (raised bad_variant_access))))

  -- What the awaiting coroutine gets when every task has ended.
  ended-gather :
      (os : List (Outcome A)) (early late : List ℕ) (latch : WhenAllLatch)
      → ((j : ℕ) → j < length os → 0 < count j (early ++ late))
      → await_resume
          (record { latch = latch; results = fill os late (fill os early (new_slots (length os))) })
        ≡ gather os
  ended-gather os early late latch all =
      ap (λ (ss : List (ResultSlot A)). await_resume (record { latch = latch; results = ss }))
        (sym (fill-append os early late (new_slots (length os)))
          ∙ fill_all os (early ++ late) (new_slots (length os))
              (length-replicate (length os) monostate) all)
      ∙ await_resume-slots os latch

  -- What happens behind `prepare_and_try_suspend`.
  abbrev goes_on :
      List (Outcome A)
      → List ℕ
      → Awaitable A × List (Outcome (List A)) × Bool
      → List (Outcome (List A))
  goes_on os late (s, answers, stays) =
      answers ++ (if stays then [] else await_resume s ∷ []) ++ (complete_all os late s).1

  make-is_ready : (o : Outcome A) (n : ℕ) → suc n + 1 < 2 ^ 64 → is_ready (make (suc n)) ≡ false
  unfolding is_ready make
  make-is_ready o n small = ground (arith, mod_small (suc n + 1) (2 ^ 64) small)

  when_all-waits :
      (o : Outcome A) (os : List (Outcome A)) (early late : List ℕ) (handle : ℕ)
      → length (o ∷ os) + 1 < 2 ^ 64
      → length early + length late ≡ length (o ∷ os)
      → when_all (o ∷ os) early late handle
        ≡ goes_on (o ∷ os) late (
          at (some handle) (length late) (fill (o ∷ os) early (new_slots (length (o ∷ os)))),
          [],
          ltb 0 (length late),
        )
  unfolding when_all
  when_all-waits o os early late handle small size =
      rw (make-is_ready o (length os) small)
        (ap (goes_on (o ∷ os) late) (prepare_lem (o ∷ os) early (length late) handle small size))

  goes_on-late :
      (os : List (Outcome A)) (i : ℕ) (late : List ℕ) (ss : List (ResultSlot A)) (handle : ℕ)
      → length (i ∷ late) < 2 ^ 64
      → goes_on os
          (i ∷ late)
          (at (some handle) (length (i ∷ late)) ss, [], ltb 0 (length (i ∷ late)))
        ≡ await_resume (at (some handle) 0 (fill os (i ∷ late) ss)) ∷ []
  goes_on-late os i late ss handle small =
      let counts : suc (length late) ≡ length late + 1 = omega arith in
      let stays : ltb 0 (suc (length late)) ≡ true = ground arith in
      ap (λ (b : Bool). goes_on os (i ∷ late) (at (some handle) (length (i ∷ late)) ss, [], b))
        stays
      ∙ ap (λ (c : ℕ). (complete_all os (i ∷ late) (at (some handle) c ss)).1) counts
      ∙ ap (λ (r : Awaitable A × List (Outcome (List A))). r.1)
          (complete_all-late os i late ss handle (omega arith))

  -- However the tasks of `when_all`, fewer than 2 ^ 64 - 1, end, each of them once, some while they
  -- are started and the others behind that, the awaiting coroutine goes on exactly once, behind the last of them, and it gets the values of all
  -- tasks in the order of the tasks, or, if one failed, the exception of the first in that order.
  pub when_all-gather :
      (os : List (Outcome A)) (early late : List ℕ) (handle : ℕ)
      → length os + 1 < 2 ^ 64
      → length (early ++ late) ≡ length os
      → ((j : ℕ) → j < length os → 0 < count j (early ++ late))
      → when_all os early late handle ≡ gather os ∷ []
  unfolding when_all make complete_all
  when_all-gather [] early late handle small size all = refl
  when_all-gather (o ∷ os) early [] handle small size all =
      when_all-waits o os early [] handle small (omega (arith, size, length-append early []))
      ∙ ap (λ (x : Outcome (List A)). x ∷ [])
          (ended-gather (o ∷ os) early [] (record { count = 0; awaiting_coroutine = some handle })
            all)
  when_all-gather (o ∷ os) early (i ∷ late) handle small size all =
      when_all-waits o os early (i ∷ late) handle small
        (omega (arith, size, length-append early (i ∷ late)))
      ∙ goes_on-late (o ∷ os) i late (fill (o ∷ os) early (new_slots (length (o ∷ os)))) handle
          (omega (arith, size, length-append early (i ∷ late)))
      ∙ ap (λ (x : Outcome (List A)). x ∷ [])
          (ended-gather (o ∷ os) early (i ∷ late)
            (record { count = 0; awaiting_coroutine = some handle }) all)
