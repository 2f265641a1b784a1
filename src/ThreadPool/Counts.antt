-- ===== src/ThreadPool/Counts.antt =====
-- How many tasks the queues hold, and how often each.
use xcoro.Base.{
  count, ℕ, zero, suc, ◌+◌, ◌<◌, ◌≡◌, refl, inl, inr, none, some, List, [], ◌∷◌, ◌++◌, arith,
  length, get_or, Option-cases, set, replicate,
}
use xcoro.ThreadPool.{Pool, try_pop_bottom}

-- A weight of the queues, added up.
module _ (weight : List ℕ → ℕ) where
  abbrev pub total : List (List ℕ) → ℕ
  total [] = 0
  total (q ∷ qs) = weight q + total qs

  pub total-set :
      (qs : List (List ℕ)) (i : ℕ) (q : List ℕ)
      → i < length qs
      → total (set qs i q) + weight (get_or qs i []) ≡ total qs + weight q
  total-set [] i q h = absurd (omega arith)
  total-set (x ∷ qs) zero q h = omega arith
  total-set (x ∷ qs) (suc i) q h = omega (arith, total-set qs i q (omega arith))

  pub total-replicate : (n : ℕ) → weight [] ≡ 0 → total (replicate n []) ≡ 0
  total-replicate zero e = refl
  total-replicate (suc n) e = omega (arith, total-replicate n e)

-- Some queue of a positive total is not empty.
pub total-pos :
    (qs : List (List ℕ))
    → 0 < total length qs
    → (i : ℕ) × (i < length qs) × (0 < length (get_or qs i []))
total-pos [] h = absurd (omega arith)
total-pos ([] ∷ qs) h = let (i, lt, pos) = total-pos qs (omega arith) in (suc i, omega arith, pos)
total-pos ((x ∷ q) ∷ qs) h = (0, omega arith, omega arith)

abbrev pub queued : Pool → ℕ
queued p = length p.global_queue + total length p.local_queues

-- How often a task is queued.
abbrev pub occurrences : ℕ → Pool → ℕ
occurrences t p = count t p.global_queue + total (count t) p.local_queues

-- Popping at the back takes one task out, and fails on the empty queue only.
pub try_pop_bottom-append : (xs : List ℕ) (x : ℕ) → try_pop_bottom (xs ++ x ∷ []) ≡ some (x, xs)
unfolding try_pop_bottom
try_pop_bottom-append [] x = refl
try_pop_bottom-append (y ∷ ys) x = ground (arith, try_pop_bottom-append ys x)

pub try_pop_bottom-none : (xs : List ℕ) → try_pop_bottom xs ≡ none → xs ≡ []
unfolding try_pop_bottom
try_pop_bottom-none [] e = refl
try_pop_bottom-none (y ∷ ys) e = ground arith

pub try_pop_bottom-inv :
    (xs : List ℕ) (x : ℕ) (rest : List ℕ) → try_pop_bottom xs ≡ some (x, rest) → xs ≡ rest ++ x ∷ []
unfolding try_pop_bottom
try_pop_bottom-inv [] x rest e = cc
try_pop_bottom-inv (y ∷ ys) x rest e = elim (Option-cases (try_pop_bottom ys)) [
  | inl empty ↦
      let last : (y ≡ x) × (rest ≡ []) = ground arith in
      ground (arith, last, try_pop_bottom-none ys empty)
  | inr (t, found) ↦
      let more : (t.0 ≡ x) × (rest ≡ y ∷ t.1) = ground arith in
      ground (arith, more, try_pop_bottom-inv ys x t.1 (ground arith))
]
