-- ===== src/Transfer/Kernel.antt =====
-- What the loops rely on: the behaviour of read(2) and write(2) on a stream.
use xcoro.Base.{ℕ, ◌≤◌, ◌<◌, ◌≡◌, List, [], ◌++◌, length, take}
use xcoro.Transfer.{
  ReadAnswer, bytes_read, end_of_file, read_error, WriteAnswer, bytes_written, nothing_written,
  write_error, Environment,
}

-- `incoming` is what the peer will have sent, `outgoing` what the kernel took; `patience` bounds how
-- often a call may fail before it does something.
pub record Stream {ℓ} (S : Type ℓ) : Type ℓ where
  pub incoming : S → List ℕ
  pub outgoing : S → List ℕ
  pub patience : S → ℕ

module _ {ℓ} {S : Type ℓ} (stream : Stream S) where
  -- A read takes between one and `n` bytes from the front of the stream; at its end there is no more;
  -- a failed call takes nothing.
  abbrev pub ReadFits : S → ℕ → ReadAnswer × S → Type 0
  ReadFits s n (bytes_read k bytes, s') =
      (length bytes ≡ k)
      × (0 < k)
      × (k ≤ n)
      × (stream.incoming s ≡ bytes ++ stream.incoming s')
      × (stream.patience s' ≤ stream.patience s)
  ReadFits s n (end_of_file, s') = (stream.incoming s ≡ [])
  ReadFits s n (read_error errno, s') =
      (stream.incoming s' ≡ stream.incoming s) × (stream.patience s' < stream.patience s)

  -- A write takes between one and all of the bytes, from their front.
  abbrev pub WriteFits : S → List ℕ → WriteAnswer × S → Type 0
  WriteFits s bytes (bytes_written k, s') =
      (0 < k)
      × (k ≤ length bytes)
      × (stream.outgoing s' ≡ stream.outgoing s ++ take k bytes)
      × (stream.patience s' ≤ stream.patience s)
  WriteFits s bytes (nothing_written errno, s') =
      (stream.outgoing s' ≡ stream.outgoing s) × (stream.patience s' < stream.patience s)
  WriteFits s bytes (write_error errno, s') =
      (stream.outgoing s' ≡ stream.outgoing s) × (stream.patience s' < stream.patience s)

-- The environment serves the stream.
pub record Serves {ℓ} {S : Type ℓ} (stream : Stream S) (env : Environment S) : Type ℓ where
  pub reads : (s : S) (n : ℕ) → 0 < n → ReadFits stream s n (env.read s n)
  pub writes :
      (s : S) (bytes : List ℕ) → 0 < length bytes → WriteFits stream s bytes (env.write s bytes)
  pub waits_in : (s : S) → stream.incoming (env.wait s).1 ≡ stream.incoming s
  pub waits_out : (s : S) → stream.outgoing (env.wait s).1 ≡ stream.outgoing s
  pub waits : (s : S) → stream.patience (env.wait s).1 ≤ stream.patience s
