-- ===== src/Buffer/Write.antt =====
-- What a client writes into the free regions and commits is appended to the contents.
use native.Mathlib.Decide.{dec_lt}
use xcoro.Base.{
  add_size, false, ℕ, ◌+◌, ◌-◌, ◌%◌, ◌^◌, ◌≤◌, ◌<◌, ◌≡◌, ◌≢◌, refl, ap, sym, ◌∙◌, true, ◌⊎◌, inl,
  inr, some, List, ◌++◌, length, get_or, min, ◌&&◌, take, drop, length-take, length-drop,
  get_or-take, get_or-drop, length-append, get_or-append, arith, ltb, leb, ◌==◌, if◌then◌else◌,
  Bool-cases,
}
use xcoro.Buffer.{
  ByteBuffer, Span, empty_span, max_size_t, capacity, blit, commit, free_regions, writable_bytes,
  writable_regions,
}
use xcoro.Buffer.Cyclic.{contents, IsValid, length-contents, get_or-contents, contents_ext}
use xcoro.Buffer.Blit.{length-blit, get_or-blit}
use xcoro.Buffer.Growth.{ensure_writable_lem}
use xcoro.Buffer.Free.{fill, IsFree, free_regions-IsFree, empty-IsFree}

module _ (b : ByteBuffer) (first second : Span) (bytes : List ℕ) (v : IsValid b)
    (free : IsFree b first second) (few : length bytes ≤ first.len + second.len) where
  abbrev filled : List ℕ
  filled = (fill b first second bytes).storage

  length-filled : length filled ≡ capacity b
  unfolding fill
  length-filled =
      length-blit (blit b.storage first.start (take first.len bytes)) second.start
        (drop first.len bytes)
      ∙ length-blit b.storage first.start (take first.len bytes)

  -- What each index of the storage holds after the write.
  get_or-filled :
      (j : ℕ)
      → get_or filled j 0 ≡ (
          if leb second.start j && ltb j (second.start + (length bytes - first.len))
          then get_or bytes (first.len + (j - second.start)) 0
          else if leb first.start j && ltb j (first.start + min first.len (length bytes))
          then get_or bytes (j - first.start) 0
          else get_or b.storage j 0)
  unfolding fill
  get_or-filled j = ground (
    arith,
    free.first_in,
    free.second_in,
    length-take first.len bytes,
    length-drop first.len bytes,
    length-blit b.storage first.start (take first.len bytes),
    get_or-blit b.storage first.start (take first.len bytes) j,
    get_or-blit (blit b.storage first.start (take first.len bytes)) second.start
        (drop first.len bytes) j,
    get_or-take first.len bytes (j - first.start) 0,
    get_or-drop first.len bytes (j - second.start) 0,
  )

  get_or-old :
      (k : ℕ)
      → k < b.size
      → get_or filled ((b.read_index + k) % capacity b) 0 ≡ get_or (contents b) k 0
  get_or-old k lt = ground (
    arith,
    free.first_apart k lt,
    free.second_apart k lt,
    get_or-filled ((b.read_index + k) % capacity b),
    get_or-contents b k,
  )

  get_or-new :
      (k : ℕ)
      → k < length bytes
      → get_or filled ((b.read_index + (b.size + k)) % capacity b) 0 ≡ get_or bytes k 0
  get_or-new k lt = ground (
    arith,
    free.disjoint,
    free.first_place k,
    free.second_place k,
    get_or-filled ((b.read_index + (b.size + k)) % capacity b),
  )

  grown : add_size b.size (length bytes) ≡ b.size + length bytes
  grown = omega (arith, free.room, v.allocable)

  get_or-both :
      (k : ℕ)
      → k < b.size + length bytes
      → get_or filled ((b.read_index + k) % capacity b) 0 ≡ get_or (contents b ++ bytes) k 0
  get_or-both k lt = elim (dec_lt k b.size) [
    | yes old ↦
        ground (arith, get_or-old k old, get_or-append (contents b) bytes k 0, length-contents b)
    | no new ↦
        let back : k ≡ b.size + (k - b.size) = omega arith in
        ap (λ (j : ℕ). get_or filled ((b.read_index + j) % capacity b) 0) back
        ∙ ground (
          arith,
          get_or-new (k - b.size),
          get_or-append (contents b) bytes k 0,
          length-contents b,
        )
  ]

  -- The write leaves the readable bytes alone, and the new ones follow them.
  pub contents-fill :
      contents (commit (fill b first second bytes) (length bytes)) ≡ contents b ++ bytes
  unfolding commit
  contents-fill =
      contents_ext (commit (fill b first second bytes) (length bytes)) (contents b ++ bytes)
        (omega (arith, sizes, grown, length-contents b, length-append (contents b) bytes))
        λ k lt. places k ∙ get_or-both k (omega (arith, sizes, grown))
    where
      sizes : (fill b first second bytes).size ≡ b.size
      sizes = unfold fill in refl

      places :
          (k : ℕ)
          → get_or filled (((fill b first second bytes).read_index + k) % length filled) 0
            ≡ get_or filled ((b.read_index + k) % capacity b) 0
      places k =
          unfold fill in ap (λ (n : ℕ). get_or filled ((b.read_index + k) % n) 0) length-filled

  pub commit-IsValid : IsValid (commit (fill b first second bytes) (length bytes))
  unfolding commit fill
  commit-IsValid = record {
    positive = omega (arith, length-filled, v.positive);
    allocable = omega (arith, length-filled, v.allocable);
    fits = omega (arith, length-filled, free.room, grown);
    in_range = omega (arith, length-filled, v.in_range);
  }

-- How many bytes a call of `writable_regions` lets its client write: the maximal `size_t` asks for
-- the room there is.
abbrev pub granted : ByteBuffer → ℕ → ℕ
granted b max_bytes = if max_bytes == max_size_t then writable_bytes b else max_bytes

-- A client's turn: it asks for room, writes into the regions that it got, and commits. The request is
-- for the maximal `size_t`, or for a number of bytes that brings the readable bytes to 2 ^ 62 at most.
-- `writable_regions` returns, with regions of `max_bytes` in total, or, for the maximal `size_t`, with
-- regions of all the room there is and the buffer unchanged; whatever is then written into them and
-- committed stands behind the old contents, in a buffer that is valid.
pub writable_regions-commit :
    (b : ByteBuffer) (max_bytes : ℕ) (bytes : List ℕ)
    → IsValid b
    → (max_bytes ≡ max_size_t) ⊎ (b.size + max_bytes ≤ 2 ^ 62)
    → length bytes ≤ granted b max_bytes
    → (b' : ByteBuffer) × (first : Span) × (second : Span) × (writable_regions b max_bytes
        ≡ some (b', first, second))
      × (first.len + second.len ≡ granted b max_bytes)
      × ((max_bytes ≢ max_size_t) ⊎ (b' ≡ b))
      × IsValid (commit (fill b' first second bytes) (length bytes))
      × (contents (commit (fill b' first second bytes) (length bytes)) ≡ contents b ++ bytes)
unfolding writable_regions writable_bytes
writable_regions-commit b max_bytes bytes v (inl all) few =
    let (free, total) = free_regions-IsFree b (writable_bytes b) v (omega arith) in
    let asked : (max_bytes == 0) ≡ false = ground arith in
    let whole : (max_bytes == max_size_t) ≡ true = ground arith in
    let room : granted b max_bytes ≡ writable_bytes b = rw whole refl in
    let (first, second) = free_regions b (writable_bytes b) in
    (
      b,
      first,
      second,
      rw (asked, whole) refl,
      total ∙ sym room,
      inr refl,
      commit-IsValid b first second bytes v free (omega (arith, total, room)),
      contents-fill b first second bytes v free (omega (arith, total, room)),
    )
writable_regions-commit b max_bytes bytes v (inr low) few =
    let small : (max_bytes == max_size_t) ≡ false = ground arith in
    let room : granted b max_bytes ≡ max_bytes = rw small refl in
    let other : max_bytes ≢ max_size_t = λ e. omega arith in
    elim (Bool-cases (max_bytes == 0)) [
      | inl nothing ↦ (
        b,
        empty_span,
        empty_span,
        rw nothing refl,
        ground (arith, room),
        inl other,
        commit-IsValid b empty_span empty_span bytes v (empty-IsFree b v) (ground (arith, room)),
        contents-fill b empty_span empty_span bytes v (empty-IsFree b v) (ground (arith, room)),
      )
      | inr asked ↦
          let (b', e, same, v', full, wide) = ensure_writable_lem b max_bytes v low in
          let (free, total) = free_regions-IsFree b' max_bytes v' (omega arith) in
          let (first, second) = free_regions b' max_bytes in
          (
            b',
            first,
            second,
            rw (asked, small, e) refl,
            total ∙ sym room,
            inl other,
            commit-IsValid b' first second bytes v' free (omega (arith, room)),
            contents-fill b' first second bytes v' free (omega (arith, room))
                ∙ ap (λ xs. xs ++ bytes) same,
          )
    ]
