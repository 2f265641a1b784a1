-- ===== src/Buffer/Free.antt =====
-- The free regions of a buffer: two spans that follow its readable bytes.
use xcoro.Base.{ℕ, ◌+◌, ◌-◌, ◌%◌, ◌≤◌, ◌<◌, ◌≡◌, ◌⊎◌, List, take, drop, arith}
use xcoro.Buffer.{ByteBuffer, Span, empty_span, capacity, write_index, blit, free_regions}
use xcoro.Buffer.Cyclic.{IsValid, place_low, place_high}

-- The bytes that a client puts into two spans, the first one first.
unfoldable pub fill : ByteBuffer → Span → Span → List ℕ → ByteBuffer
fill b first second bytes = record b {
  storage =
      blit (blit b.storage first.start (take first.len bytes)) second.start (drop first.len bytes);
}

-- Two spans that follow the readable bytes round the storage and hold none of them.
pub record IsFree (b : ByteBuffer) (first second : Span) : Type 0 where
  pub room : first.len + second.len + b.size ≤ capacity b
  pub first_in : first.start + first.len ≤ capacity b
  pub second_in : second.start + second.len ≤ capacity b
  pub first_place :
      (k : ℕ) → k < first.len → (b.read_index + (b.size + k)) % capacity b ≡ first.start + k
  pub second_place :
      (k : ℕ)
      → first.len ≤ k
      → k < first.len + second.len
      → (b.read_index + (b.size + k)) % capacity b ≡ second.start + (k - first.len)
  pub first_apart :
      (k : ℕ)
      → k < b.size
      → ((b.read_index + k) % capacity b < first.start)
        ⊎ (first.start + first.len ≤ (b.read_index + k) % capacity b)
  pub second_apart :
      (k : ℕ)
      → k < b.size
      → ((b.read_index + k) % capacity b < second.start)
        ⊎ (second.start + second.len ≤ (b.read_index + k) % capacity b)
  pub disjoint :
      (first.start + first.len ≤ second.start) ⊎ (second.start + second.len ≤ first.start)

pub free_regions-IsFree :
    (b : ByteBuffer) (m : ℕ)
    → IsValid b
    → m ≤ capacity b - b.size
    → IsFree b (free_regions b m).0 (free_regions b m).1
      × ((free_regions b m).0.len + (free_regions b m).1.len ≡ m)
unfolding free_regions write_index
free_regions-IsFree b m v le = (
  record {
    room = ground (arith, place_low b b.size, place_high b b.size v);
    first_in = ground (arith, place_low b b.size, place_high b b.size v);
    second_in = ground (arith, place_low b b.size, place_high b b.size v);
    first_place = λ k lt. ground (
      arith,
      place_low b b.size,
      place_high b b.size v,
      place_low b (b.size + k),
      place_high b (b.size + k) v,
    );
    second_place = λ k le' lt. ground (
      arith,
      place_low b b.size,
      place_high b b.size v,
      place_low b (b.size + k),
      place_high b (b.size + k) v,
    );
    first_apart = λ k lt.
        ground (arith, place_low b b.size, place_high b b.size v, place_low b k, place_high b k v);
    second_apart = λ k lt.
        ground (arith, place_low b b.size, place_high b b.size v, place_low b k, place_high b k v);
    disjoint = ground (arith, place_low b b.size, place_high b b.size v);
  },
  ground (arith, place_low b b.size, place_high b b.size v),
)

-- Two empty spans are free.
pub empty-IsFree : (b : ByteBuffer) → IsValid b → IsFree b empty_span empty_span
empty-IsFree b v = record {
  room = omega (arith, v.fits);
  first_in = omega arith;
  second_in = omega arith;
  first_place = λ k lt. absurd (omega arith);
  second_place = λ k le lt. absurd (omega arith);
  first_apart = λ k lt. omega arith;
  second_apart = λ k lt. omega arith;
  disjoint = omega arith;
}
