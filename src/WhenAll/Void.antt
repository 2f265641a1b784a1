-- ===== src/WhenAll/Void.antt =====
-- include/xcoro/when_all.hpp: `when_all_task_promise<void>`, beside the promise of the other types.
use xcoro.Base.{
  ℕ, ◌≡◌, ◌≢◌, refl, ap, sym, ◌∙◌, zero, suc, Option, none, some, List, [], ◌∷◌, map, get_or, set,
}
use xcoro.Task.{Exception, Outcome, value, raised, ResultSlot, monostate, value_type, exception_ptr}
use xcoro.WhenAll.{WhenAllLatch, notify_awaitable_completed}
use xcoro.WhenAll.Gather.{
  Awaitable, store_result, complete, rethrow_if_exception, result, throw_if_any_exception, both,
  collect_results, await_resume,
}

-- `void_value`
abbrev VoidValue : Type 0
VoidValue = Unit {0}

-- `when_all_task_promise<void>`; the latch is the awaitable's.
pub record VoidPromise : Type 0 where
  pub exception : Option Exception

abbrev pub new_promise : VoidPromise
new_promise = record { exception = none }

-- `return_void` and `unhandled_exception`, by how the awaited operation ends.
unfoldable pub store_void : VoidPromise → Outcome VoidValue → VoidPromise
store_void p (value v) = p
store_void p (raised e) = record { exception = some e }

unfoldable pub rethrow_if_void : VoidPromise → Option Exception
rethrow_if_void p = p.exception

unfoldable pub result_void : VoidPromise → Outcome VoidValue
unfolding rethrow_if_void
result_void p = elim (rethrow_if_void p) [ some e ↦ raised e | none ↦ value tt ]

-- `when_all_ready_awaitable` of tasks for `void`.
pub record VoidAwaitable : Type 0 where
  pub latch : WhenAllLatch
  pub promises : List VoidPromise

-- The end of the task at `i`, with the notification at its final suspension point.
unfoldable pub complete_void : VoidAwaitable → ℕ → Outcome VoidValue → VoidAwaitable × Option ℕ
unfolding store_void
complete_void s i o =
    let (latch, resumed) = notify_awaitable_completed s.latch in
    (
      record {
        latch = latch;
        promises = set s.promises i (store_void (get_or s.promises i new_promise) o);
      },
      resumed,
    )

unfoldable pub throw_if_any_void : List VoidPromise → Option Exception
unfolding rethrow_if_void
throw_if_any_void [] = none
throw_if_any_void (p ∷ ps) = elim (rethrow_if_void p) [
  | some e ↦ some e
  | none ↦ throw_if_any_void ps
]

unfoldable pub collect_void : List VoidPromise → Outcome (List VoidValue)
unfolding result_void
collect_void [] = value []
collect_void (p ∷ ps) = both (result_void p) (collect_void ps)

unfoldable pub await_resume_void : VoidAwaitable → Outcome (List VoidValue)
unfolding throw_if_any_void collect_void
await_resume_void s = elim (throw_if_any_void s.promises) [
  | some e ↦ raised e
  | none ↦ collect_void s.promises
]

-- What the promise for `void` keeps of the slot of the other promise.
abbrev pub forget : ResultSlot VoidValue → VoidPromise
forget monostate = new_promise
forget (value_type v) = new_promise
forget (exception_ptr e) = record { exception = some e }

abbrev pub forget_all : Awaitable VoidValue → VoidAwaitable
forget_all s = record { latch = s.latch; promises = map forget s.results }

map-set :
    (xs : List (ResultSlot VoidValue)) (i : ℕ) (v : ResultSlot VoidValue)
    → map forget (set xs i v) ≡ set (map forget xs) i (forget v)
map-set [] i v = refl
map-set (x ∷ xs) zero v = refl
map-set (x ∷ xs) (suc i) v = ap (λ (ps : List VoidPromise). forget x ∷ ps) (map-set xs i v)

get_or-map :
    (xs : List (ResultSlot VoidValue)) (i : ℕ)
    → get_or (map forget xs) i new_promise ≡ forget (get_or xs i monostate)
get_or-map [] i = refl
get_or-map (x ∷ xs) zero = refl
get_or-map (x ∷ xs) (suc i) = get_or-map xs i

store_void-forget : (o : Outcome VoidValue) → store_void new_promise o ≡ forget (store_result o)
unfolding store_void store_result
store_void-forget (value v) = refl
store_void-forget (raised e) = refl

complete-forget :
    (s : Awaitable VoidValue) (i : ℕ) (o : Outcome VoidValue)
    → get_or s.results i monostate ≡ monostate
    → complete_void (forget_all s) i o ≡ (forget_all (complete s i o).0, (complete s i o).1)
unfolding complete_void complete
complete-forget s i o fresh =
    let (latch, resumed) = notify_awaitable_completed s.latch in
    ap (λ (ps : List VoidPromise). (record { latch = latch; promises = ps }, resumed))
      (ap (λ (p : VoidPromise). set (map forget s.results) i (store_void p o))
          (get_or-map s.results i ∙ ap forget fresh)
        ∙ ap (set (map forget s.results) i) (store_void-forget o)
        ∙ sym (map-set s.results i (store_result o)))

-- Every task has ended.
abbrev pub AllEnded : List (ResultSlot VoidValue) → Type 0
AllEnded [] = Unit {0}
AllEnded (slot ∷ slots) = (slot ≢ monostate) × AllEnded slots

throw_if_any-forget :
    (slots : List (ResultSlot VoidValue))
    → throw_if_any_void (map forget slots) ≡ throw_if_any_exception slots
unfolding throw_if_any_void throw_if_any_exception rethrow_if_void rethrow_if_exception
throw_if_any-forget [] = refl
throw_if_any-forget (monostate ∷ slots) = throw_if_any-forget slots
throw_if_any-forget (value_type v ∷ slots) = throw_if_any-forget slots
throw_if_any-forget (exception_ptr e ∷ slots) = refl

collect-forget :
    (slots : List (ResultSlot VoidValue))
    → AllEnded slots
    → collect_void (map forget slots) ≡ collect_results slots
unfolding collect_void collect_results result_void result rethrow_if_void
collect-forget [] ended = refl
collect-forget (monostate ∷ slots) (ended, rest) = absurd (ended refl)
collect-forget (value_type v ∷ slots) (ended, rest) =
    ap (both (value tt)) (collect-forget slots rest)
collect-forget (exception_ptr e ∷ slots) (ended, rest) = refl

await_resume-forget :
    (s : Awaitable VoidValue)
    → AllEnded s.results
    → await_resume_void (forget_all s) ≡ await_resume s
unfolding await_resume_void await_resume
await_resume-forget s ended =
    ap
      (λ (t : Option Exception). elim t [
        | some e ↦ raised e
        | none ↦ collect_void (map forget s.results)
      ])
      (throw_if_any-forget s.results)
    ∙ ap
        (λ (c : Outcome (List VoidValue)). elim (throw_if_any_exception s.results) [
          | some e ↦ raised e
          | none ↦ c
        ])
        (collect-forget s.results ended)

-- The tasks for `void`, whose promise keeps an exception only, do what those of the other types do
-- with a value that says nothing. The end of a task that has not ended yet, the last one or not,
-- leaves the same behind and resumes the same coroutine; and of any awaitable whose tasks have all
-- ended the awaiting coroutine gets the same.
pub void_refines :
    (s : Awaitable VoidValue) (i : ℕ) (o : Outcome VoidValue) (t : Awaitable VoidValue)
    → get_or s.results i monostate ≡ monostate
    → AllEnded t.results
    → (complete_void (forget_all s) i o ≡ (forget_all (complete s i o).0, (complete s i o).1))
      × (await_resume_void (forget_all t) ≡ await_resume t)
void_refines s i o t fresh ended = (complete-forget s i o fresh, await_resume-forget t ended)
