-- ===== src/Transfer/Read.antt =====
-- `async_read_exact` reads the stream.
use xcoro.Base.{
  append_assoc, ℕ, zero, suc, ◌+◌, ◌-◌, ◌≤◌, ◌<◌, ◌≡◌, refl, sym, ap, ◌∙◌, ◌⊎◌, inl, inr, Bool,
  true, false, List, [], ◌∷◌, ◌++◌, arith, length, take, length-append, leb, ◌==◌, if◌then◌else◌,
}
use xcoro.Transfer.{
  Errno, eintr, eagain, other, ReadAnswer, bytes_read, end_of_file, read_error, WaitAnswer,
  is_ready, wait_cancelled, wait_failed, Environment, Outcome, returned, cancelled, pending, failed,
  after_wait, on_errno, read_exact_loop, async_read_exact,
}
use xcoro.Transfer.Kernel.{Stream, ReadFits, Serves}

-- How a read of `count` bytes from `bytes` on may end: with the bytes that are there, up to `count`,
-- or with an exception; not by going on.
abbrev pub ReadEnds : List ℕ → ℕ → Outcome → Type 0
ReadEnds bytes count (returned n out) = (out ≡ take count bytes) × (n ≡ length out)
ReadEnds bytes count cancelled = Unit {0}
ReadEnds bytes count pending = ⊥
ReadEnds bytes count (failed error) = Unit {0}

take-prefix : (xs ys : List ℕ) → take (length xs) (xs ++ ys) ≡ xs
take-prefix [] ys = refl
take-prefix (x ∷ xs) ys = ap (λ (zs : List ℕ). x ∷ zs) (take-prefix xs ys)

take-all : (n : ℕ) (xs : List ℕ) → length xs ≤ n → take n (xs ++ []) ≡ xs
take-all zero [] le = refl
take-all zero (x ∷ xs) le = absurd (omega arith)
take-all (suc n) [] le = refl
take-all (suc n) (x ∷ xs) le = ap (λ (zs : List ℕ). x ∷ zs) (take-all n xs (omega arith))

module _ {ℓ} {S : Type ℓ} (env : Environment S) (stream : Stream S)
    (serves : Serves stream env) where
  -- The bytes read so far and those to come are `bytes`; the rounds left are enough.
  record Reading (bytes : List ℕ) (count rounds : ℕ) (s : S) (total : ℕ) (out : List ℕ)
      : Type 0 where
    split : out ++ stream.incoming s ≡ bytes
    counted : total ≡ length out
    bounded : total ≤ count
    enough : stream.patience s + (count - total) < rounds

  -- Where the loop returns, the bytes are those wanted.
  at_end :
      (bytes : List ℕ) (count rounds : ℕ) (s : S) (total : ℕ) (out : List ℕ)
      → Reading bytes count rounds s total out
      → (count ≡ total) ⊎ (stream.incoming s ≡ [])
      → out ≡ take count bytes
  at_end bytes count rounds s total out v (inl e) = sym (
      ap (λ (n : ℕ). take n bytes) (e ∙ v.counted)
      ∙ ap (λ (zs : List ℕ). take (length out) zs) (sym v.split)
      ∙ take-prefix out (stream.incoming s))
  at_end bytes count rounds s total out v (inr e) = sym (
      ap (λ (zs : List ℕ). take count zs) (sym v.split ∙ ap (λ (zs : List ℕ). out ++ zs) e)
      ∙ take-all count out (omega (arith, v.counted, v.bounded)))

  after_wait-ends :
      (bytes : List ℕ) (count : ℕ) (s : S) (continue : S → Outcome × S)
      → ((next : S)
          → stream.incoming next ≡ stream.incoming s
          → stream.patience next ≤ stream.patience s
          → ReadEnds bytes count (continue next).0)
      → ReadEnds bytes count (after_wait env s continue).0
  unfolding after_wait
  after_wait-ends bytes count s continue h = go (env.wait s).0
    where
      go :
          (a : WaitAnswer)
          → let r : Outcome × S = elim a [
            | is_ready ↦ continue (env.wait s).1
            | wait_cancelled ↦ (cancelled, (env.wait s).1)
            | wait_failed error ↦ (failed error, (env.wait s).1)
          ] in
            ReadEnds bytes count r.0
      go is_ready = h (env.wait s).1 (serves.waits_in s) (serves.waits s)
      go wait_cancelled = tt
      go (wait_failed error) = tt

  on_errno-ends :
      (bytes : List ℕ) (count : ℕ) (errno : Errno) (s : S) (continue : S → Outcome × S)
      → ((next : S)
          → stream.incoming next ≡ stream.incoming s
          → stream.patience next ≤ stream.patience s
          → ReadEnds bytes count (continue next).0)
      → ReadEnds bytes count (on_errno env errno s continue).0
  unfolding on_errno
  on_errno-ends bytes count eintr s continue h = h s refl (omega arith)
  on_errno-ends bytes count eagain s continue h = after_wait-ends bytes count s continue h
  on_errno-ends bytes count (other error) s continue h = tt

  read_exact_loop-ends :
      (bytes : List ℕ) (rounds : ℕ) (s : S) (count total : ℕ) (out : List ℕ)
      → Reading bytes count rounds s total out
      → ReadEnds bytes count (read_exact_loop env rounds s count total out).0
  unfolding read_exact_loop
  read_exact_loop-ends bytes zero s count total out v = absurd (omega (arith, v.enough))
  read_exact_loop-ends bytes (suc rounds) s count total out v =
      go (leb count total) (env.cancellation_requested s) (env.read s (count - total)) refl
        (λ short. serves.reads s (count - total) (ground arith))
        (λ s' total' out' v'. read_exact_loop-ends bytes rounds s' count total' out' v')
    where
      go :
          (full stop : Bool) (r : ReadAnswer × S)
          → leb count total ≡ full
          → (full ≡ false → ReadFits stream s (count - total) r)
          → ((s' : S) (total' : ℕ) (out' : List ℕ)
              → Reading bytes count rounds s' total' out'
              → ReadEnds bytes count (read_exact_loop env rounds s' count total' out').0)
          → let next : Outcome × S =
              if full then (returned total out, s) else if stop then (cancelled, s) else elim r.0 [
                | bytes_read n bs ↦ read_exact_loop env rounds r.1 count (total + n) (out ++ bs)
                | end_of_file ↦ (returned total out, r.1)
                | read_error errno ↦
                    on_errno env errno r.1 (λ t. read_exact_loop env rounds t count total out)
              ] in
            ReadEnds bytes count next.0
      go true stop r e fits ih =
          (at_end bytes count (suc rounds) s total out v (inl (ground arith)), v.counted)
      go false true r e fits ih = tt
      go false false (bytes_read n bs, s') e fits ih =
          let (long, pos, le, split, calm) = fits refl in
          ih s' (total + n) (out ++ bs) (record {
            split =
                append_assoc out bs (stream.incoming s')
                ∙ ap (λ (zs : List ℕ). out ++ zs) (sym split)
                ∙ v.split;
            counted = omega (arith, v.counted, long, length-append out bs);
            bounded = omega (arith, v.bounded, le);
            enough = omega (arith, v.enough, v.bounded, calm, pos, le);
          })
      go false false (end_of_file, s') e fits ih =
          (at_end bytes count (suc rounds) s total out v (inr (fits refl)), v.counted)
      go false false (read_error errno, s') e fits ih =
          on_errno-ends bytes count errno s' (λ t. read_exact_loop env rounds t count total out)
            (λ next same calm. ih next total out (record {
              split = ap (λ (zs : List ℕ). out ++ zs) (same ∙ (fits refl).0) ∙ v.split;
              counted = v.counted;
              bounded = v.bounded;
              enough = omega (arith, v.enough, calm, (fits refl).1);
            }))

  -- `async_read_exact` ends: it returns exactly the next `count` bytes of the stream, or all that
  -- are left if the stream ends before, with their number; or it throws.
  pub async_read_exact-ends :
      (rounds : ℕ) (s : S) (count : ℕ)
      → stream.patience s + count < rounds
      → ReadEnds (stream.incoming s) count (async_read_exact env rounds s count).0
  unfolding async_read_exact
  async_read_exact-ends rounds s count enough = go (count == 0) refl
    where
      go :
          (none_wanted : Bool)
          → (count == 0) ≡ none_wanted
          → let r : Outcome × S =
              if none_wanted then (returned 0 [], s) else read_exact_loop env rounds s count 0 [] in
            ReadEnds (stream.incoming s) count r.0
      go true e =
          let no_bytes : count ≡ 0 = ground arith in
          (ap (λ (n : ℕ). take n (stream.incoming s)) (sym no_bytes), refl)
      go false e =
          read_exact_loop-ends (stream.incoming s) rounds s count 0 []
            (record { split = refl; counted = refl; bounded = omega arith; enough = omega arith })
