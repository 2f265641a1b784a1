-- ===== src/Generator/Examples.antt =====
-- The theorem on include/xcoro/generator.hpp at a concrete coroutine.
use xcoro.Base.{ℕ, suc, ◌+◌, ◌≡◌, some, [], ◌∷◌, length}
use xcoro.Task.{user}
use xcoro.Generator.{Body, co_yield, throws, threw, make, for_each}
use xcoro.Generator.Range.{yielded, for_each-yielded}

abbrev two_then_throws : Body ℕ
two_then_throws = co_yield 4 (co_yield 5 (throws (user 9)))

for_each-yielded_example :
    for_each (suc (length (yielded two_then_throws) + 1)) (some (make two_then_throws))
    ≡ (4 ∷ 5 ∷ [], threw (user 9))
for_each-yielded_example = for_each-yielded two_then_throws 1
