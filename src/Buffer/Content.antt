-- ===== src/Buffer/Content.antt =====
-- `readable_regions` and the copy of both regions, against the contents of the buffer.
use native.Mathlib.Nat.{mod-add-mod}
use xcoro.Base.{
  ℕ, ◌+◌, ◌-◌, ◌%◌, ◌≤◌, ◌<◌, ◌≡◌, sym, ap, ◌∙◌, List, ◌++◌, length, get_or, length-append, drop,
  length-drop, get_or-drop, get_or-append, arith,
}
use xcoro.Buffer.{
  ByteBuffer, Span, capacity, slice, blit, readable_regions, copy_regions, consume, clear,
}
use xcoro.Buffer.Cyclic.{
  length-contents, contents, IsValid, place_low, place_high, get_or-contents, contents_ext,
}
use xcoro.Buffer.Blit.{length-blit, get_or-blit, length-slice, get_or-slice}

-- Two spans of the storage that hold the readable bytes one after the other.
pub record IsSplit (b : ByteBuffer) (first second : Span) : Type 0 where
  pub total : first.len + second.len ≡ b.size
  pub first_in : first.start + first.len ≤ capacity b
  pub second_in : second.start + second.len ≤ capacity b
  pub first_place : (k : ℕ) → k < first.len → (b.read_index + k) % capacity b ≡ first.start + k
  pub second_place :
      (k : ℕ)
      → first.len ≤ k
      → k < b.size
      → (b.read_index + k) % capacity b ≡ second.start + (k - first.len)

pub readable_regions-IsSplit :
    (b : ByteBuffer) → IsValid b → IsSplit b (readable_regions b).0 (readable_regions b).1
unfolding readable_regions
readable_regions-IsSplit b v = record {
  total = ground arith;
  first_in = ground arith;
  second_in = ground arith;
  first_place = λ k lt. ground (arith, place_low b k);
  second_place = λ k le lt. ground (arith, place_high b k v);
}

module _ (b : ByteBuffer) (first second : Span) (sp : IsSplit b first second) where
  -- Byte `k` of the two slices, taken from either.
  get_or-first :
      (k : ℕ)
      → k < first.len
      → get_or (slice b.storage first) k 0 ≡ get_or b.storage ((b.read_index + k) % capacity b) 0
  get_or-first k lt =
      get_or-slice b.storage first k lt
      ∙ ap (λ (j : ℕ). get_or b.storage j 0) (sym (sp.first_place k lt))

  get_or-second :
      (k : ℕ)
      → first.len ≤ k
      → k < b.size
      → get_or (slice b.storage second) (k - first.len) 0
        ≡ get_or b.storage ((b.read_index + k) % capacity b) 0
  get_or-second k le lt =
      get_or-slice b.storage second (k - first.len) (omega (arith, sp.total))
      ∙ ap (λ (j : ℕ). get_or b.storage j 0) (sym (sp.second_place k le lt))

  pub slices-split : slice b.storage first ++ slice b.storage second ≡ contents b
  slices-split = sym (
      contents_ext b _ lengths λ k lt. ground (
        arith,
        firsts,
        get_or-append (slice b.storage first) (slice b.storage second) k 0,
        get_or-first k,
        get_or-second k,
      ))
    where
      firsts : length (slice b.storage first) ≡ first.len
      firsts = length-slice b.storage first sp.first_in

      lengths : length (slice b.storage first ++ slice b.storage second) ≡ b.size
      lengths = omega (
        arith,
        firsts,
        sp.total,
        length-slice b.storage second sp.second_in,
        length-append (slice b.storage first) (slice b.storage second),
      )

  pub get_or-blits :
      (dst : List ℕ) (k : ℕ)
      → b.size ≤ length dst
      → k < b.size
      → get_or (blit (blit dst 0 (slice b.storage first)) first.len (slice b.storage second)) k 0
        ≡ get_or (contents b) k 0
  get_or-blits dst k room lt = ground (
    arith,
    sp.total,
    length-slice b.storage first sp.first_in,
    length-slice b.storage second sp.second_in,
    length-blit dst 0 (slice b.storage first),
    get_or-blit dst 0 (slice b.storage first) k,
    get_or-blit (blit dst 0 (slice b.storage first)) first.len (slice b.storage second) k,
    get_or-first k,
    get_or-second k,
    get_or-contents b k,
  )

-- The readable bytes are those under the first region, then those under the second.
pub slices-contents :
    (b : ByteBuffer)
    → IsValid b
    → slice b.storage (readable_regions b).0 ++ slice b.storage (readable_regions b).1 ≡ contents b
slices-contents b v = slices-split b _ _ (readable_regions-IsSplit b v)

pub length-copy_regions : (b : ByteBuffer) (dst : List ℕ) → length (copy_regions b dst) ≡ length dst
unfolding copy_regions
length-copy_regions b dst =
    let (first, second) = readable_regions b in
    length-blit (blit dst 0 (slice b.storage first)) first.len (slice b.storage second)
    ∙ length-blit dst 0 (slice b.storage first)

-- A copy of the regions starts with the contents.
pub get_or-copy_regions :
    (b : ByteBuffer) (dst : List ℕ) (k : ℕ)
    → IsValid b
    → b.size ≤ length dst
    → k < b.size
    → get_or (copy_regions b dst) k 0 ≡ get_or (contents b) k 0
unfolding copy_regions
get_or-copy_regions b dst k v = get_or-blits b _ _ (readable_regions-IsSplit b v) dst k

-- `consume` drops bytes at the front, and keeps the buffer valid.
pub consume-drop :
    (b : ByteBuffer) (n : ℕ)
    → IsValid b
    → n ≤ b.size
    → IsValid (consume b n) × (contents (consume b n) ≡ drop n (contents b))
unfolding consume clear
consume-drop b n v le = (
  record {
    positive = ground arith;
    allocable = ground arith;
    fits = ground arith;
    in_range = ground arith;
  },
  contents_ext (consume b n) (drop n (contents b))
      (ground (arith, length-contents b, length-drop n (contents b)))
      λ k lt. ground (arith, shift k, get_or-drop n (contents b) k 0, get_or-contents b (n + k)),
)
  where
    shift :
        (k : ℕ)
        → ((b.read_index + n) % capacity b + k) % capacity b ≡ (b.read_index + (n + k)) % capacity b
    shift k =
        mod-add-mod (b.read_index + n) (capacity b) k ∙ ap (λ (j : ℕ). j % capacity b) (omega arith)
