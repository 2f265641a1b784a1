-- ===== src/Buffer/Prepare.antt =====
-- `prepare_contiguous`: room for a number of bytes in one piece.
use xcoro.Base.{
  ℕ, ◌+◌, ◌-◌, ◌^◌, ◌≤◌, ◌<◌, ◌≡◌, refl, ap, ◌∙◌, inl, inr, some, List, ◌++◌, length, arith, ltb,
  ◌==◌, Bool-cases,
}
use xcoro.Buffer.{
  ByteBuffer, Span, empty_span, capacity, write_index, writable_contiguous, commit, linearize,
  make_contiguous, prepare_contiguous,
}
use xcoro.Buffer.Cyclic.{contents, IsValid, place_low, place_high}
use xcoro.Buffer.Growth.{linearize-IsSettled, ensure_writable_lem}
use xcoro.Buffer.Free.{fill, IsFree, empty-IsFree}
use xcoro.Buffer.Write.{contents-fill, commit-IsValid}

abbrev next_span : ByteBuffer → ℕ → Span
next_span b n = record { start = write_index b; len = n }

-- The span behind the readable bytes is free as far as `writable_contiguous` says.
next-IsFree :
    (b : ByteBuffer) (n : ℕ)
    → IsValid b
    → 0 < n
    → n ≤ writable_contiguous b
    → IsFree b (next_span b n) empty_span
unfolding writable_contiguous write_index
next-IsFree b n v pos le = record {
  room = ground (arith, place_low b b.size, place_high b b.size v);
  first_in = ground (arith, place_low b b.size, place_high b b.size v);
  second_in = omega arith;
  first_place = λ k lt. ground (
    arith,
    place_low b b.size,
    place_high b b.size v,
    place_low b (b.size + k),
    place_high b (b.size + k) v,
  );
  second_place = λ k le' lt. absurd (omega arith);
  first_apart = λ k lt.
      ground (arith, place_low b b.size, place_high b b.size v, place_low b k, place_high b k v);
  second_apart = λ k lt. ground arith;
  disjoint = ground arith;
}

front-contiguous :
    (b : ByteBuffer)
    → IsValid b
    → b.read_index ≡ 0
    → b.size < capacity b
    → writable_contiguous b ≡ capacity b - b.size
unfolding writable_contiguous write_index
front-contiguous b v front lt = ground (arith, place_low b b.size)

-- The contents stay, and the room that there is becomes one piece.
make_contiguous_lem :
    (b : ByteBuffer) (n : ℕ)
    → IsValid b
    → 0 < n
    → b.size + n ≤ capacity b
    → (contents (make_contiguous b n) ≡ contents b)
      × IsValid (make_contiguous b n)
      × (n ≤ writable_contiguous (make_contiguous b n))
unfolding make_contiguous
make_contiguous_lem b n v pos room = elim (Bool-cases (ltb (writable_contiguous b) n)) [
  | inl split ↦
      let s = linearize-IsSettled b v in
      rw split (
        s.same,
        s.valid,
        ground (arith, s.as_large, s.as_full, front-contiguous (linearize b) s.valid s.front),
      )
  | inr whole ↦ rw whole (refl, v, ground arith)
]

-- `prepare_contiguous` returns one span of the bytes asked for, inside the storage; whatever is
-- written there and committed stands behind the old contents.
pub prepare_contiguous-commit :
    (b : ByteBuffer) (n : ℕ) (bytes : List ℕ)
    → IsValid b
    → b.size + n ≤ 2 ^ 62
    → length bytes ≤ n
    → (b' : ByteBuffer) × (span : Span) × (prepare_contiguous b n ≡ some (b', span))
      × (span.len ≡ n)
      × (span.start + span.len ≤ capacity b')
      × IsValid (commit (fill b' span empty_span bytes) (length bytes))
      × (contents (commit (fill b' span empty_span bytes) (length bytes)) ≡ contents b ++ bytes)
unfolding prepare_contiguous
prepare_contiguous-commit b n bytes v low few = elim (Bool-cases (n == 0)) [
  | inl nothing ↦ (
    b,
    empty_span,
    rw nothing refl,
    ground arith,
    omega arith,
    commit-IsValid b empty_span empty_span bytes v (empty-IsFree b v) (ground arith),
    contents-fill b empty_span empty_span bytes v (empty-IsFree b v) (ground arith),
  )
  | inr asked ↦
      let (b', e, same, v', full, room) = ensure_writable_lem b n v low in
      let (same', v'', piece) = make_contiguous_lem b' n v' (ground arith) (omega arith) in
      let b'' : ByteBuffer = make_contiguous b' n in
      let free : IsFree b'' (next_span b'' n) empty_span =
        next-IsFree b'' n v'' (ground arith) piece in
      (
        b'',
        next_span b'' n,
        rw (asked, e) refl,
        refl,
        free.first_in,
        commit-IsValid b'' (next_span b'' n) empty_span bytes v'' free (omega arith),
        contents-fill b'' (next_span b'' n) empty_span bytes v'' free (omega arith)
            ∙ ap (λ xs. xs ++ bytes) (same' ∙ same),
      )
]
