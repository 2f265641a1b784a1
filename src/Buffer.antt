-- ===== src/Buffer.antt =====
-- include/xcoro/net/buffer.hpp: `byte_buffer`, a growable ring of bytes.
-- A `std::span` into the storage is its offset and its length; a byte is any number, since bytes are
-- only moved. An asserted condition of the source is a hypothesis of the theorems. `none` stands for
-- a doubling loop that goes on for more than `growth_fuel` rounds.
pub mod Cyclic
pub mod Blit
pub mod Growth
pub mod Content
pub mod Free
pub mod Write
pub mod Prepare
mod Examples
use xcoro.Base.{
  ℕ, zero, suc, ◌+◌, ◌-◌, ◌%◌, ◌^◌, min, max, Option, none, some, List, [], ◌∷◌, length, set, take,
  drop, replicate, ltb, leb, ◌==◌, if◌then◌else◌, add_size, sub_size, mul_size,
}

pub record ByteBuffer : Type 0 where
  pub storage : List ℕ
  pub read_index : ℕ
  pub size : ℕ

-- A `std::span` of the storage.
pub record Span : Type 0 where
  pub start : ℕ
  pub len : ℕ

abbrev pub empty_span : Span
empty_span = record { start = 0; len = 0 }

-- `std::numeric_limits<size_t>::max()`
abbrev pub max_size_t : ℕ
max_size_t = 2 ^ 64 - 1

-- The loop doubles at most 64 times before the word is zero.
abbrev pub growth_fuel : ℕ
growth_fuel = 65

-- The bytes under a span.
abbrev pub slice : List ℕ → Span → List ℕ
slice st s = take s.len (drop s.start st)

-- `memcpy` to an offset of a destination, byte by byte.
pub blit : List ℕ → ℕ → List ℕ → List ℕ
blit st i [] = st
blit st i (v ∷ vs) = blit (set st i v) (i + 1) vs

pub make : ℕ → ByteBuffer
make initial_capacity = record {
  storage = replicate (max initial_capacity 1) 0;
  read_index = 0;
  size = 0;
}

abbrev pub capacity : ByteBuffer → ℕ
capacity b = length b.storage

pub writable_bytes : ByteBuffer → ℕ
writable_bytes b = sub_size (capacity b) b.size

pub write_index : ByteBuffer → ℕ
write_index b = add_size b.read_index b.size % capacity b

pub readable_regions : ByteBuffer → Span × Span
readable_regions b =
    if b.size == 0
    then (empty_span, empty_span)
    else let first_length = min b.size (sub_size (capacity b) b.read_index) in
      let second_length = sub_size b.size first_length in
      (
        record { start = b.read_index; len = first_length },
        record { start = 0; len = second_length },
      )

pub writable_contiguous : ByteBuffer → ℕ
writable_contiguous b =
    if b.size == capacity b
    then 0
    else let tail = write_index b in
      if ltb tail b.read_index then sub_size b.read_index tail else sub_size (capacity b) tail

pub commit : ByteBuffer → ℕ → ByteBuffer
commit b n = record b { size = add_size b.size n }

pub clear : ByteBuffer → ByteBuffer
clear b = record b { read_index = 0; size = 0 }

pub consume : ByteBuffer → ℕ → ByteBuffer
consume b n =
    if n == 0
    then b
    else let b' : ByteBuffer = record b {
      read_index = add_size b.read_index n % capacity b;
      size = sub_size b.size n;
    } in
      if b'.size == 0 then clear b' else b'

-- The first region, and the second behind it, copied to the front of a destination.
pub copy_regions : ByteBuffer → List ℕ → List ℕ
copy_regions b dst =
    let (first, second) = readable_regions b in
    blit (blit dst 0 (slice b.storage first)) first.len (slice b.storage second)

pub linearize : ByteBuffer → ByteBuffer
linearize b =
    if b.size == 0
    then record b { read_index = 0 }
    else if leb (add_size b.read_index b.size) (capacity b)
    then (if b.read_index == 0 then b else record b {
      storage = blit b.storage 0 (slice b.storage (record { start = b.read_index; len = b.size }));
      read_index = 0;
    })
    else let tmp = copy_regions b (replicate b.size 0) in
      record b { storage = blit b.storage 0 tmp; read_index = 0 }

pub grow_and_linearize : ByteBuffer → ℕ → ByteBuffer
grow_and_linearize b new_capacity = record b {
  storage = copy_regions b (replicate new_capacity 0);
  read_index = 0;
}

-- `while (new_capacity < required) new_capacity *= 2;`
pub double_until : ℕ → ℕ → ℕ → Option ℕ
double_until zero new_capacity required = none
double_until (suc fuel) new_capacity required =
    let rest = double_until fuel (mul_size new_capacity 2) required in
    if ltb new_capacity required then rest else some new_capacity

pub ensure_writable : ByteBuffer → ℕ → Option ByteBuffer
ensure_writable b n =
    if leb n (writable_bytes b)
    then some b
    else elim (double_until growth_fuel (capacity b) (add_size b.size n)) [
      | none ↦ none
      | some new_capacity ↦ some (grow_and_linearize b new_capacity)
    ]

-- The two spans that follow the readable bytes, `max_bytes` long at most.
pub free_regions : ByteBuffer → ℕ → Span × Span
free_regions b max_bytes =
    let tail = write_index b in
    if ltb tail b.read_index
    then (record { start = tail; len = min max_bytes (sub_size b.read_index tail) }, empty_span)
    else let first_length = min max_bytes (sub_size (capacity b) tail) in
      let second_length = min (sub_size max_bytes first_length) b.read_index in
      (record { start = tail; len = first_length }, record { start = 0; len = second_length })

pub writable_regions : ByteBuffer → ℕ → Option (ByteBuffer × Span × Span)
writable_regions b max_bytes =
    if max_bytes == 0
    then some (b, empty_span, empty_span)
    else if max_bytes == max_size_t
    then (let (first, second) = free_regions b (writable_bytes b) in some (b, first, second))
    else elim (ensure_writable b max_bytes) [
      | none ↦ none
      | some b' ↦ let (first, second) = free_regions b' max_bytes in some (b', first, second)
    ]

-- Room for `n` bytes in one piece, moving the bytes to the front if need be.
pub make_contiguous : ByteBuffer → ℕ → ByteBuffer
make_contiguous b n = if ltb (writable_contiguous b) n then linearize b else b

pub prepare_contiguous : ByteBuffer → ℕ → Option (ByteBuffer × Span)
prepare_contiguous b n = if n == 0 then some (b, empty_span) else elim (ensure_writable b n) [
  | none ↦ none
  | some grown ↦
      let b' = make_contiguous grown n in some (b', record { start = write_index b'; len = n })
]
