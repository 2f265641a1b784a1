-- ===== src/Generator.antt =====
-- include/xcoro/generator.hpp: `generator`, its promise and its iterator.
-- The body of the coroutine is the program's: a parameter, as what it yields and how it ends. The
-- iterator refers to the coroutine that the generator owns, so both are the coroutine's state. A
-- throwing operation returns the exception beside the state. Owning the frame is Task.Ownership's.
pub mod Range
mod Examples
use xcoro.Base.{
  ℕ, zero, suc, Bool, true, false, Option, none, some, List, [], ◌∷◌, ◌||◌, if◌then◌else◌,
}
use xcoro.Task.{Exception}

module _ {ℓ} (A : Type ℓ) where
  pub data Body : Type ℓ where
    co_yield : A → Body → Body
    returns : Body
    throws : Exception → Body

  -- The coroutine behind a handle: what it has still to do, `done()`, and its promise.
  pub record Coroutine : Type ℓ where
    pub rest : Body
    pub done : Bool
    pub value_pointer : Option A
    pub exception : Option Exception

  -- How a range-based `for` over a generator ends. A read of the null `value_`, and a loop that is
  -- not at its end after the rounds given, have cases of their own.
  pub data LoopEnd : Type 0 where
    finished : LoopEnd
    threw : Exception → LoopEnd
    null_read : LoopEnd
    goes_on : LoopEnd

module _ {ℓ} {A : Type ℓ} where
  -- `get_return_object`, the coroutine being suspended at its start.
  abbrev pub make : Body A → Coroutine A
  make body = record { rest = body; done = false; value_pointer = none; exception = none }

  unfoldable pub yield_value : Coroutine A → A → Body A → Coroutine A
  yield_value c a rest = record c { rest = rest; value_pointer = some a }

  unfoldable pub unhandled_exception : Coroutine A → Exception → Coroutine A
  unhandled_exception c e = record c { exception = some e }

  -- `resume()` to the next `co_yield` or to the final suspension point.
  resume_body : Body A → Coroutine A → Coroutine A
  unfolding yield_value unhandled_exception
  resume_body (co_yield a rest) c = yield_value c a rest
  resume_body returns c = record c { done = true }
  resume_body (throws e) c = record (unhandled_exception c e) { done = true }

  unfoldable pub resume : Coroutine A → Coroutine A
  unfolding resume_body
  resume c = resume_body c.rest c

  unfoldable pub rethrow_if_exception : Coroutine A → Option Exception
  rethrow_if_exception c = c.exception

  -- `generator::begin`; `none` is a generator with a null handle.
  unfoldable pub begin : Option (Coroutine A) → Option (Coroutine A) × Option Exception
  unfolding resume rethrow_if_exception
  begin none = (none, none)
  begin (some c) = let c' = resume c in (some c', if c'.done then rethrow_if_exception c' else none)

  -- `operator==` with the sentinel.
  unfoldable pub at_end : Option (Coroutine A) → Bool
  at_end none = true
  at_end (some c) = c.done

  -- `operator++`
  unfoldable pub increment : Coroutine A → Coroutine A × Option Exception
  unfolding resume rethrow_if_exception
  increment c = let c' = resume c in (c', if c'.done then rethrow_if_exception c' else none)

  -- `operator*`
  unfoldable pub dereference : Coroutine A → Option A
  dereference c = c.value_pointer

  -- The loop behind `begin`, with the values that its body gets.
  unfoldable pub for_loop : ℕ → Coroutine A → List A × LoopEnd A
  unfolding increment dereference
  for_loop zero c = ([], goes_on)
  for_loop (suc rounds) c =
      let (c', thrown) = increment c in
      let (later, end) = for_loop rounds c' in
      let next : List A × LoopEnd A = elim thrown [
        | none ↦ (later, end)
        | some e ↦ ([], threw e)
      ] in
      if c.done
      then ([], finished)
      else elim (dereference c) [ none ↦ ([], null_read) | some a ↦ (a ∷ next.0, next.1) ]

  unfoldable pub for_each : ℕ → Option (Coroutine A) → List A × LoopEnd A
  unfolding begin for_loop
  for_each rounds g =
      let (g', thrown) = begin g in
      elim thrown [
        | some e ↦ ([], threw e)
        | none ↦ elim g' [ none ↦ ([], finished) | some c ↦ for_loop rounds c ]
      ]
