-- ===== src/Transfer/NoSigpipe.antt =====
-- include/xcoro/net/detail/no_sigpipe.hpp: the write that the loops call.
use xcoro.Base.{
  ℕ, ◌<◌, ◌≡◌, ap, ◌∙◌, List, ◌++◌, length, take, Bool, false, ◌||◌, ◌==◌, arith, if◌then◌else◌,
  Bool-cases, inl, inr,
}
use xcoro.Transfer.{
  Errno, eintr, eagain, other, WriteAnswer, bytes_written, nothing_written, write_error,
}
use xcoro.Transfer.Kernel.{Stream, WriteFits}

abbrev eperm : ℕ
eperm = 1

abbrev enotsock : ℕ
enotsock = 88

-- `::send` with `MSG_NOSIGNAL`, and `::write`.
pub record Calls {ℓ} (S : Type ℓ) : Type ℓ where
  pub send : S → List ℕ → WriteAnswer × S
  pub write : S → List ℕ → WriteAnswer × S

abbrev pub no_socket : Errno → Bool
no_socket eintr = false
no_socket eagain = false
no_socket (other e) = e == enotsock || e == eperm

module _ {ℓ} {S : Type ℓ} (calls : Calls S) where
  -- What follows `::send`.
  unfoldable pub after_send : WriteAnswer × S → List ℕ → WriteAnswer × S
  after_send (bytes_written n, s) bytes = (bytes_written n, s)
  after_send (nothing_written errno, s) bytes = (nothing_written errno, s)
  after_send (write_error errno, s) bytes =
      let written = calls.write s bytes in
      if no_socket errno then written else (write_error errno, s)

  unfoldable pub write_no_sigpipe : S → List ℕ → WriteAnswer × S
  unfolding after_send
  write_no_sigpipe s bytes = after_send (calls.send s bytes) bytes

module _ {S : Type 0} (calls : Calls S) (stream : Stream S) where
  -- A write behind a failed call, which took nothing.
  later-WriteFits :
      (s s₁ : S) (bytes : List ℕ) (r : WriteAnswer × S)
      → stream.outgoing s₁ ≡ stream.outgoing s
      → stream.patience s₁ < stream.patience s
      → WriteFits stream s₁ bytes r
      → WriteFits stream s bytes r
  later-WriteFits s s₁ bytes (bytes_written n, s₂) same less (some_bytes, bounded, took, patient) =
      (some_bytes, bounded, took ∙ ap (λ (xs : List ℕ). xs ++ take n bytes) same, omega arith)
  later-WriteFits s s₁ bytes (nothing_written e, s₂) same less (kept, patient) =
      (kept ∙ same, omega arith)
  later-WriteFits s s₁ bytes (write_error e, s₂) same less (kept, patient) =
      (kept ∙ same, omega arith)

  -- If `send` and `write` take bytes as writes on the stream do, then so does `write_no_sigpipe`, also
  -- where it falls back on `write`: no byte is taken twice, and each failed call costs patience.
  pub write_no_sigpipe-WriteFits :
      ((s : S) (bytes : List ℕ) → 0 < length bytes → WriteFits stream s bytes (calls.send s bytes))
      → ((s : S) (bytes : List ℕ)
          → 0 < length bytes
          → WriteFits stream s bytes (calls.write s bytes))
      → (s : S) (bytes : List ℕ) → 0 < length bytes
      → WriteFits stream s bytes (write_no_sigpipe calls s bytes)
  unfolding write_no_sigpipe
  write_no_sigpipe-WriteFits sends writes s bytes more =
      behind (calls.send s bytes) (sends s bytes more)
    where
      behind :
          (r : WriteAnswer × S)
          → WriteFits stream s bytes r
          → WriteFits stream s bytes (after_send calls r bytes)
      behind (bytes_written n, s₁) fits = fits
      behind (nothing_written e, s₁) fits = fits
      behind (write_error e, s₁) (same, less) = elim (Bool-cases (no_socket e)) [
        | inl falls_back ↦
            rw (falls_back)
              (later-WriteFits s s₁ bytes (calls.write s₁ bytes) same less (writes s₁ bytes more))
        | inr fails ↦ rw (fails) (same, less)
      ]
