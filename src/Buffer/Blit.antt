-- ===== src/Buffer/Blit.antt =====
-- What a copied run of bytes leaves at each index of the destination.
use xcoro.Base.{
  ℕ, zero, suc, ◌+◌, ◌-◌, ◌≤◌, ◌<◌, ◌≡◌, refl, ap, ◌∙◌, ◌&&◌, List, [], ◌∷◌, length, get_or, set,
  drop, length-take, length-drop, get_or-take, get_or-drop, arith, ltb, leb, ◌==◌, if◌then◌else◌,
}
use xcoro.Buffer.{Span, slice, blit}

length-set : (xs : List ℕ) (i v : ℕ) → length (set xs i v) ≡ length xs
length-set [] i v = refl
length-set (x ∷ xs) zero v = refl
length-set (x ∷ xs) (suc i) v = ap suc (length-set xs i v)

get_or-set :
    (xs : List ℕ) (i v j : ℕ)
    → i < length xs
    → get_or (set xs i v) j 0 ≡ (if i == j then v else get_or xs j 0)
get_or-set [] i v j h = absurd (omega arith)
get_or-set (x ∷ xs) zero v zero h = refl
get_or-set (x ∷ xs) zero v (suc j) h = ground arith
get_or-set (x ∷ xs) (suc i) v zero h = ground arith
get_or-set (x ∷ xs) (suc i) v (suc j) h = ground (arith, get_or-set xs i v j)

get_or-cons :
    (v : ℕ) (vs : List ℕ) (n : ℕ)
    → get_or (v ∷ vs) n 0 ≡ (if n == 0 then v else get_or vs (n - 1) 0)
get_or-cons v vs zero = refl
get_or-cons v vs (suc n) = ground arith

pub length-blit : (st : List ℕ) (i : ℕ) (vs : List ℕ) → length (blit st i vs) ≡ length st
unfolding blit
length-blit st i [] = refl
length-blit st i (v ∷ vs) = length-blit (set st i v) (i + 1) vs ∙ length-set st i v

-- Inside the run stand the bytes copied, outside it the old ones.
pub get_or-blit :
    (st : List ℕ) (i : ℕ) (vs : List ℕ) (j : ℕ)
    → i + length vs ≤ length st
    → get_or (blit st i vs) j 0
      ≡ (if leb i j && ltb j (i + length vs) then get_or vs (j - i) 0 else get_or st j 0)
unfolding blit
get_or-blit st i [] j h = ground arith
get_or-blit st i (v ∷ vs) j h =
    get_or-blit (set st i v) (i + 1) vs j (omega (arith, length-set st i v)) ∙ (first ∙ later)
  where
    first :
        (if leb (i + 1) j && ltb j (i + 1 + length vs)
          then get_or vs (j - (i + 1)) 0
          else get_or (set st i v) j 0)
        ≡ (if leb (i + 1) j && ltb j (i + 1 + length vs)
            then get_or vs (j - (i + 1)) 0
            else if i == j
            then v
            else get_or st j 0)
    first = ground (arith, get_or-set st i v j)

    later :
        (if leb (i + 1) j && ltb j (i + 1 + length vs)
          then get_or vs (j - (i + 1)) 0
          else if i == j
          then v
          else get_or st j 0)
        ≡ (if leb i j && ltb j (i + length (v ∷ vs))
            then get_or (v ∷ vs) (j - i) 0
            else get_or st j 0)
    later = ground (arith, get_or-cons v vs (j - i))

pub length-slice :
    (st : List ℕ) (s : Span) → s.start + s.len ≤ length st → length (slice st s) ≡ s.len
length-slice st s h = omega (arith, length-take s.len (drop s.start st), length-drop s.start st)

pub get_or-slice :
    (st : List ℕ) (s : Span) (k : ℕ)
    → k < s.len
    → get_or (slice st s) k 0 ≡ get_or st (s.start + k) 0
get_or-slice st s k h = get_or-take s.len (drop s.start st) k 0 h ∙ get_or-drop s.start st k 0
