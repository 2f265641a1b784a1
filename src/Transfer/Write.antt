-- ===== src/Transfer/Write.antt =====
-- `async_write_all` writes the whole buffer, in order.
use xcoro.Base.{
  append_nil, append_assoc, ℕ, zero, suc, ◌+◌, ◌-◌, ◌≤◌, ◌<◌, ◌≡◌, refl, sym, subst, ap, ◌∙◌, Bool,
  true, false, List, [], ◌∷◌, ◌++◌, arith, length, take, drop, length-drop, leb, ◌==◌,
  if◌then◌else◌,
}
use xcoro.Transfer.{
  Errno, eintr, eagain, other, WriteAnswer, bytes_written, nothing_written, write_error, WaitAnswer,
  is_ready, wait_cancelled, wait_failed, Environment, Outcome, returned, cancelled, pending, failed,
  after_wait, on_errno, write_all_loop, async_write_all,
}
use xcoro.Transfer.Kernel.{Stream, WriteFits, Serves}

take-nil : (n : ℕ) → take {A = ℕ} n [] ≡ []
take-nil zero = refl
take-nil (suc n) = refl

take-add : (w k : ℕ) (xs : List ℕ) → take w xs ++ take k (drop w xs) ≡ take (w + k) xs
take-add zero k xs = ap (λ (n : ℕ). take n xs) (omega arith)
take-add (suc w) k [] = take-nil k ∙ sym (take-nil (suc w + k))
take-add (suc w) k (x ∷ xs) =
    let e : suc (w + k) ≡ suc w + k = omega arith in
    ap (λ (zs : List ℕ). x ∷ zs) (take-add w k xs) ∙ ap (λ (n : ℕ). take n (x ∷ xs)) e

take-length : (xs : List ℕ) → take (length xs) xs ≡ xs
take-length [] = refl
take-length (x ∷ xs) = ap (λ (zs : List ℕ). x ∷ zs) (take-length xs)

module _ {ℓ} {S : Type ℓ} (env : Environment S) (stream : Stream S)
    (serves : Serves stream env) where
  -- How a write of `src` behind `before` may end: all was written, or an exception was thrown and a
  -- front part was written.
  abbrev pub WriteEnds : List ℕ → List ℕ → Outcome × S → Type 0
  WriteEnds before src (returned n out, s) = (n ≡ length src) × (stream.outgoing s ≡ before ++ src)
  WriteEnds before src (cancelled, s) = (k : ℕ) × (stream.outgoing s ≡ before ++ take k src)
  WriteEnds before src (pending, s) = ⊥
  WriteEnds before src (failed error, s) = (k : ℕ) × (stream.outgoing s ≡ before ++ take k src)

  -- The front part of `src` that was written; the rounds left are enough for the rest.
  record Writing (before src : List ℕ) (rounds : ℕ) (s : S) (written : ℕ) : Type 0 where
    sent : stream.outgoing s ≡ before ++ take written src
    bounded : written ≤ length src
    enough : stream.patience s + (length src - written) < rounds

  after_wait-ends :
      (before src : List ℕ) (written : ℕ) (s : S) (continue : S → Outcome × S)
      → stream.outgoing s ≡ before ++ take written src
      → ((next : S)
          → stream.outgoing next ≡ stream.outgoing s
          → stream.patience next ≤ stream.patience s
          → WriteEnds before src (continue next))
      → WriteEnds before src (after_wait env s continue)
  unfolding after_wait
  after_wait-ends before src written s continue sent h = go (env.wait s).0
    where
      go :
          (a : WaitAnswer)
          → let r : Outcome × S = elim a [
            | is_ready ↦ continue (env.wait s).1
            | wait_cancelled ↦ (cancelled, (env.wait s).1)
            | wait_failed error ↦ (failed error, (env.wait s).1)
          ] in
            WriteEnds before src r
      go is_ready = h (env.wait s).1 (serves.waits_out s) (serves.waits s)
      go wait_cancelled = (written, serves.waits_out s ∙ sent)
      go (wait_failed error) = (written, serves.waits_out s ∙ sent)

  on_errno-ends :
      (before src : List ℕ) (written : ℕ) (errno : Errno) (s : S) (continue : S → Outcome × S)
      → stream.outgoing s ≡ before ++ take written src
      → ((next : S)
          → stream.outgoing next ≡ stream.outgoing s
          → stream.patience next ≤ stream.patience s
          → WriteEnds before src (continue next))
      → WriteEnds before src (on_errno env errno s continue)
  unfolding on_errno
  on_errno-ends before src written eintr s continue sent h = h s refl (omega arith)
  on_errno-ends before src written eagain s continue sent h =
      after_wait-ends before src written s continue sent h
  on_errno-ends before src written (other error) s continue sent h = (written, sent)

  -- A call that wrote nothing, and what follows its `errno`.
  retry-ends :
      (before src : List ℕ) (rounds written : ℕ) (errno : Errno) (s s' : S)
      → Writing before src (suc rounds) s written
      → stream.outgoing s' ≡ stream.outgoing s
      → stream.patience s' < stream.patience s
      → ((next : S)
          → Writing before src rounds next written
          → WriteEnds before src (write_all_loop env rounds next src written))
      → WriteEnds before src
          (on_errno env errno s' (λ next. write_all_loop env rounds next src written))
  retry-ends before src rounds written errno s s' v same calm ih =
      on_errno-ends before src written errno s' (λ next. write_all_loop env rounds next src written)
        (same ∙ v.sent)
        (λ next same' calm'. ih next (record {
          sent = same' ∙ same ∙ v.sent;
          bounded = v.bounded;
          enough = omega (arith, v.enough, calm, calm');
        }))

  write_all_loop-ends :
      (before src : List ℕ) (rounds : ℕ) (s : S) (written : ℕ)
      → Writing before src rounds s written
      → WriteEnds before src (write_all_loop env rounds s src written)
  unfolding write_all_loop
  write_all_loop-ends before src zero s written v = absurd (omega (arith, v.enough))
  write_all_loop-ends before src (suc rounds) s written v =
      go (leb (length src) written) (env.cancellation_requested s) (env.write s (drop written src))
        refl (λ short. serves.writes s (drop written src) (ground (arith, length-drop written src)))
        (λ s' written' v'. write_all_loop-ends before src rounds s' written' v')
    where
      go :
          (full stop : Bool) (r : WriteAnswer × S)
          → leb (length src) written ≡ full
          → (full ≡ false → WriteFits stream s (drop written src) r)
          → ((s' : S) (written' : ℕ)
              → Writing before src rounds s' written'
              → WriteEnds before src (write_all_loop env rounds s' src written'))
          → let next : Outcome × S =
              if full then (returned written [], s) else if stop then (cancelled, s) else elim r.0 [
                | bytes_written n ↦ write_all_loop env rounds r.1 src (written + n)
                | nothing_written errno ↦
                    on_errno env errno r.1 (λ t. write_all_loop env rounds t src written)
                | write_error errno ↦
                    on_errno env errno r.1 (λ t. write_all_loop env rounds t src written)
              ] in
            WriteEnds before src next
      go true stop r e fits ih =
          let all : written ≡ length src = ground (arith, v.bounded) in
          (
            all,
            v.sent
                ∙ ap (λ (zs : List ℕ). before ++ zs)
                    (ap (λ (n : ℕ). take n src) all ∙ take-length src),
          )
      go false true r e fits ih = (written, v.sent)
      go false false (bytes_written n, s') e fits ih =
          let (pos, le, sent, calm) = fits refl in
          ih s' (written + n) (record {
            sent =
                sent
                ∙ ap (λ (zs : List ℕ). zs ++ take n (drop written src)) v.sent
                ∙ append_assoc before (take written src) (take n (drop written src))
                ∙ ap (λ (zs : List ℕ). before ++ zs) (take-add written n src);
            bounded = omega (arith, v.bounded, le, length-drop written src);
            enough = omega (arith, v.enough, calm, pos, le, length-drop written src);
          })
      go false false (nothing_written errno, s') e fits ih =
          retry-ends before src rounds written errno s s' v (fits refl).0 (fits refl).1
            (λ next. ih next written)
      go false false (write_error errno, s') e fits ih =
          retry-ends before src rounds written errno s s' v (fits refl).0 (fits refl).1
            (λ next. ih next written)

  -- `async_write_all` ends: it returns the length of the buffer, and just its bytes were written, in
  -- order; or it throws, and a front part of them was written.
  pub async_write_all-ends :
      (rounds : ℕ) (s : S) (src : List ℕ)
      → stream.patience s + length src < rounds
      → WriteEnds (stream.outgoing s) src (async_write_all env rounds s src)
  unfolding async_write_all
  async_write_all-ends rounds s src enough = go src enough
    where
      go :
          (src : List ℕ)
          → stream.patience s + length src < rounds
          → let r : Outcome × S =
              if length src == 0 then (returned 0 [], s) else write_all_loop env rounds s src 0 in
            WriteEnds (stream.outgoing s) src r
      go [] enough = (refl, sym (append_nil (stream.outgoing s)))
      go (x ∷ xs) enough =
          let some_wanted : (length (x ∷ xs) == 0) ≡ false = ground arith in
          subst
            (λ (b : Bool).
              let r : Outcome × S =
                if b then (returned 0 [], s) else write_all_loop env rounds s (x ∷ xs) 0 in
              WriteEnds (stream.outgoing s) (x ∷ xs) r)
            (sym some_wanted)
            (write_all_loop-ends (stream.outgoing s) (x ∷ xs) rounds s 0 (record {
              sent = sym (append_nil (stream.outgoing s));
              bounded = omega arith;
              enough = omega arith;
            }))
