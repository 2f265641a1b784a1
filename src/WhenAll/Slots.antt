-- ===== src/WhenAll/Slots.antt =====
-- What the awaiting coroutine of `when_all` gets, in terms of how the tasks ended.
use xcoro.Base.{
  ℕ, zero, suc, ◌<◌, ◌≡◌, refl, sym, ap, ◌∙◌, Option, none, some, List, [], ◌∷◌, arith, length,
  get_or, set, length-set, get_or-set, get_or-set_other, map, count, list_ext, ltb, if◌then◌else◌,
}
use xcoro.Task.{Exception, bad_variant_access, Outcome, value, raised, ResultSlot, monostate}
use xcoro.WhenAll.{WhenAllLatch}
use xcoro.WhenAll.Gather.{store_result, throw_if_any_exception, both, collect_results, await_resume}

module _ {A : Type 0} where
  abbrev pub first_raised : List (Outcome A) → Option Exception
  first_raised [] = none
  first_raised (value a ∷ os) = first_raised os
  first_raised (raised e ∷ os) = some e

  abbrev pub values : List (Outcome A) → List A
  values [] = []
  values (value a ∷ os) = a ∷ values os
  values (raised e ∷ os) = values os

  abbrev pub all_or : Option Exception → List A → Outcome (List A)
  all_or none rest = value rest
  all_or (some e) rest = raised e

  -- The exception of the first task that has one; otherwise the values of all.
  abbrev pub gather : List (Outcome A) → Outcome (List A)
  gather os = all_or (first_raised os) (values os)

  abbrev pub slots : List (Outcome A) → List (ResultSlot A)
  slots os = map store_result os

  throw-slots : (os : List (Outcome A)) → throw_if_any_exception (slots os) ≡ first_raised os
  unfolding throw_if_any_exception store_result
  throw-slots [] = refl
  throw-slots (value a ∷ os) = throw-slots os
  throw-slots (raised e ∷ os) = refl

  both-all_or :
      (a : A) (e : Option Exception) (rest : List A)
      → both (value a) (all_or e rest) ≡ all_or e (a ∷ rest)
  both-all_or a none rest = refl
  both-all_or a (some e) rest = refl

  collect-slots : (os : List (Outcome A)) → collect_results (slots os) ≡ gather os
  unfolding collect_results store_result
  collect-slots [] = refl
  collect-slots (value a ∷ os) =
      ap (both (value a)) (collect-slots os) ∙ both-all_or a (first_raised os) (values os)
  collect-slots (raised e ∷ os) = refl

  answer_all_or :
      (e : Option Exception) (o : Outcome (List A)) (rest : List A)
      → o ≡ all_or e rest
      → Path (Outcome (List A)) (elim e [ some x ↦ raised x | none ↦ o ]) (all_or e rest)
  answer_all_or none o rest known = known
  answer_all_or (some e) o rest known = refl

  pub await_resume-slots :
      (os : List (Outcome A)) (latch : WhenAllLatch)
      → await_resume (record { latch = latch; results = slots os }) ≡ gather os
  unfolding await_resume
  await_resume-slots os latch =
      rw (throw-slots os, await_resume)
        (answer_all_or (first_raised os) (collect_results (slots os)) (values os)
          (collect-slots os))

  -- The slots when the tasks `order` have ended.
  abbrev pub fill : List (Outcome A) → List ℕ → List (ResultSlot A) → List (ResultSlot A)
  fill os [] ss = ss
  fill os (i ∷ order) ss =
      fill os order (set ss i (store_result (get_or os i (raised bad_variant_access))))

  length-fill :
      (os : List (Outcome A)) (order : List ℕ) (ss : List (ResultSlot A))
      → length (fill os order ss) ≡ length ss
  length-fill os [] ss = refl
  length-fill os (i ∷ order) ss =
      length-fill os order (set ss i (store_result (get_or os i (raised bad_variant_access))))
      ∙ length-set ss i (store_result (get_or os i (raised bad_variant_access)))

  get_or-fill :
      (os : List (Outcome A)) (order : List ℕ) (ss : List (ResultSlot A)) (j : ℕ)
      → j < length ss
      → get_or (fill os order ss) j monostate ≡ (
          if ltb 0 (count j order)
          then store_result (get_or os j (raised bad_variant_access))
          else get_or ss j monostate)
  get_or-fill os [] ss j lt = refl
  get_or-fill os (i ∷ order) ss j lt = ground (
    arith,
    get_or-fill os order (set ss i (store_result (get_or os i (raised bad_variant_access)))) j,
    length-set ss i (store_result (get_or os i (raised bad_variant_access))),
    get_or-set ss i (store_result (get_or os i (raised bad_variant_access))) monostate,
    get_or-set_other ss i j (store_result (get_or os i (raised bad_variant_access))) monostate,
  )

  get_or-slots :
      (os : List (Outcome A)) (j : ℕ)
      → j < length os
      → get_or (slots os) j monostate ≡ store_result (get_or os j (raised bad_variant_access))
  get_or-slots [] j lt = absurd (omega arith)
  get_or-slots (o ∷ os) zero lt = refl
  get_or-slots (o ∷ os) (suc j) lt = get_or-slots os j (omega arith)

  length-slots : (os : List (Outcome A)) → length (slots os) ≡ length os
  length-slots [] = refl
  length-slots (o ∷ os) = ap suc (length-slots os)

  -- When every task has ended, every slot has its outcome.
  pub fill_all :
      (os : List (Outcome A)) (order : List ℕ) (ss : List (ResultSlot A))
      → length ss ≡ length os
      → ((j : ℕ) → j < length os → 0 < count j order)
      → fill os order ss ≡ slots os
  fill_all os order ss e all =
      list_ext (fill os order ss) (slots os) monostate
        (length-fill os order ss ∙ e ∙ sym (length-slots os))
        (λ j lt.
          ground (
            arith,
            get_or-fill os order ss j,
            get_or-slots os j,
            length-fill os order ss,
            e,
            all j,
          ))
