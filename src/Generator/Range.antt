-- ===== src/Generator/Range.antt =====
-- A loop over a generator gets what the coroutine yields, and no more of the coroutine is run than
-- the loop asks for.
use xcoro.Base.{ℕ, suc, ◌+◌, ◌≡◌, refl, ap, ◌∙◌, false, none, some, List, [], ◌∷◌, arith, length}
use xcoro.Generator.{
  Body, co_yield, returns, throws, Coroutine, LoopEnd, finished, threw, make, for_loop, for_each,
}

module _ {ℓ} {A : Type ℓ} where
  abbrev pub yielded : Body A → List A
  yielded (co_yield a rest) = a ∷ yielded rest
  yielded returns = []
  yielded (throws e) = []

  abbrev pub ending : Body A → LoopEnd A
  ending (co_yield a rest) = ending rest
  ending returns = finished
  ending (throws e) = threw e

  -- The coroutine at a value that it has yielded.
  abbrev at_value : A → Body A → Coroutine A
  at_value a rest = record { rest = rest; done = false; value_pointer = some a; exception = none }

  for_loop_rounds : (m n : ℕ) (c : Coroutine A) → m ≡ n → for_loop m c ≡ for_loop n c
  for_loop_rounds m n c e = ap (λ (k : ℕ). for_loop k c) e

  for_loop-yielded :
      (rest : Body A) (a : A) (more : ℕ)
      → for_loop (suc (suc (length (yielded rest) + more))) (at_value a rest)
        ≡ (a ∷ yielded rest, ending rest)
  unfolding for_loop
  for_loop-yielded (co_yield b rest) a more =
      for_loop_rounds (suc (suc (suc (length (yielded rest)) + more)))
        (suc (suc (suc (length (yielded rest) + more)))) (at_value a (co_yield b rest))
        (omega arith)
      ∙ ap (λ (r : List A × LoopEnd A). (a ∷ r.0, r.1)) (for_loop-yielded rest b more)
  for_loop-yielded returns a more = refl
  for_loop-yielded (throws e) a more = refl

  -- A range-based `for` over a new generator gets the values that the coroutine yields, in order, and
  -- ends as the coroutine does: at its end, or with its exception after all the values before it.
  -- One round more than there are values is enough.
  pub for_each-yielded :
      (body : Body A) (more : ℕ)
      → for_each (suc (length (yielded body) + more)) (some (make body))
        ≡ (yielded body, ending body)
  unfolding for_each
  for_each-yielded (co_yield a rest) more =
      for_loop_rounds (suc (suc (length (yielded rest)) + more))
        (suc (suc (length (yielded rest) + more))) (at_value a rest) (omega arith)
      ∙ for_loop-yielded rest a more
  for_each-yielded returns more = refl
  for_each-yielded (throws e) more = refl
