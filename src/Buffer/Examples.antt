-- ===== src/Buffer/Examples.antt =====
-- The theorems on include/xcoro/net/buffer.hpp at concrete buffers.
use xcoro.Base.{ℕ, ◌+◌, ◌^◌, ◌≡◌, ◌≢◌, ◌⊎◌, inr, none, some, List, [], ◌∷◌, ◌++◌, arith, length}
use xcoro.Buffer.{ByteBuffer, Span, commit, double_until, writable_regions, max_size_t}
use xcoro.Buffer.Cyclic.{contents, IsValid}
use xcoro.Buffer.Growth.{double_until-diverges}
use xcoro.Buffer.Free.{fill}
use xcoro.Buffer.Write.{writable_regions-commit}

-- Three bytes that go round the end of the storage.
abbrev wrapped : ByteBuffer
wrapped = record { storage = 12 ∷ 0 ∷ 10 ∷ 11 ∷ []; read_index = 2; size = 3 }

wrapped-IsValid : IsValid wrapped
wrapped-IsValid = record {
  positive = omega arith;
  allocable = omega arith;
  fits = omega arith;
  in_range = omega arith;
}

abbrev written : List ℕ
written = 13 ∷ 14 ∷ []

writable_regions-commit_example :
    (b' : ByteBuffer) × (first : Span) × (second : Span) × (writable_regions wrapped 2
      ≡ some (b', first, second))
    × (first.len + second.len ≡ 2)
    × ((2 ≢ max_size_t) ⊎ (b' ≡ wrapped))
    × IsValid (commit (fill b' first second written) (length written))
    × (contents (commit (fill b' first second written) (length written))
        ≡ contents wrapped ++ written)
writable_regions-commit_example =
    writable_regions-commit wrapped 2 written wrapped-IsValid (inr (omega arith)) (omega arith)

double_until-diverges_example : double_until 65 (2 ^ 63) (2 ^ 63 + 1) ≡ none
double_until-diverges_example =
    double_until-diverges 65 0 (2 ^ 63) (2 ^ 63 + 1) (omega arith) (omega arith)
