-- ===== src/Buffer/Growth.antt =====
-- `linearize`, and growth: the doubling loop and what `ensure_writable` keeps.
use native.Mathlib.Nat.{pow-suc, one-le-pow}
use native.Mathlib.Decide.{dec_lt}
use xcoro.Base.{
  ℕ, zero, suc, ◌+◌, ◌*◌, ◌%◌, ◌^◌, ◌≤◌, ◌<◌, ◌≡◌, refl, ap, ◌∙◌, inl, inr, none, some, List,
  length, get_or, replicate, length-replicate, arith, ltb, leb, ◌==◌, if◌then◌else◌, Bool-cases,
  mul_size, mod_small, add_size,
}
use xcoro.Buffer.{
  ByteBuffer, Span, capacity, writable_bytes, slice, blit, copy_regions, linearize,
  grow_and_linearize, double_until, ensure_writable,
}
use xcoro.Buffer.Cyclic.{
  contents, IsValid, place_low, length-contents, get_or-contents, contents_ext,
}
use xcoro.Buffer.Blit.{length-blit, get_or-blit, length-slice, get_or-slice}
use xcoro.Buffer.Content.{length-copy_regions, get_or-copy_regions}

double_until-suc :
    (fuel c required : ℕ)
    → double_until (suc fuel) c required
      ≡ (if ltb c required then double_until fuel (mul_size c 2) required else some c)
unfolding double_until
double_until-suc fuel c required = refl

double_until_more :
    (fuel c required : ℕ)
    → c < required
    → required ≤ 2 ^ 62
    → double_until (suc fuel) c required ≡ double_until fuel (c * 2) required
double_until_more fuel c required lt low = ground (arith, double_until-suc fuel c required)

-- Enough rounds for the ratio give a capacity that holds `required` and that a vector can have.
double_until_lem :
    (fuel c required : ℕ)
    → 0 < c
    → c < 2 ^ 63
    → required ≤ 2 ^ 62
    → required ≤ c * 2 ^ fuel
    → (c' : ℕ) × (double_until (suc fuel) c required ≡ some c')
      × (required ≤ c')
      × (c ≤ c')
      × (c' < 2 ^ 63)
double_until_lem zero c required pos small low ratio =
    (c, ground (arith, double_until-suc 0 c required), omega arith, omega arith, small)
double_until_lem (suc fuel) c required pos small low ratio = elim (dec_lt c required) [
  | yes more ↦
      let split : required ≤ c * (2 ^ fuel * 2) = rw pow-suc at ratio in
      let ratio' : required ≤ c * 2 * 2 ^ fuel = omega arith in
      let (c', e, enough, grows, fits) =
        double_until_lem fuel (c * 2) required (omega arith) (omega arith) low ratio' in
      (c', double_until_more (suc fuel) c required more low ∙ e, enough, omega arith, fits)
  | no done ↦
      (c, ground (arith, double_until-suc (suc fuel) c required), omega arith, omega arith, small)
]

-- Bytes copied to the front of a storage with room, and read from 0, are the contents.
moved :
    (b : ByteBuffer) (st : List ℕ)
    → IsValid b
    → b.size ≤ length st
    → length st < 2 ^ 63
    → ((k : ℕ) → k < b.size → get_or st k 0 ≡ get_or (contents b) k 0)
    → contents (record b { storage = st; read_index = 0 }) ≡ contents b
moved b st v room small same =
    contents_ext (record b { storage = st; read_index = 0 }) (contents b) (length-contents b)
      λ k lt. ap (λ (j : ℕ). get_or st j 0) (e k lt) ∙ same k lt
  where
    e : (k : ℕ) → k < b.size → (0 + k) % length st ≡ k
    e k lt = ap (λ (j : ℕ). j % length st) (omega arith) ∙ mod_small k (length st) (omega arith)

-- `b'` holds what `b` holds, at the front of a storage as large.
pub record IsSettled (b b' : ByteBuffer) : Type 0 where
  pub same : contents b' ≡ contents b
  pub valid : IsValid b'
  pub as_large : capacity b' ≡ capacity b
  pub as_full : b'.size ≡ b.size
  pub front : b'.read_index ≡ 0

settle :
    (b : ByteBuffer) (st : List ℕ)
    → IsValid b
    → length st ≡ capacity b
    → ((k : ℕ) → k < b.size → get_or st k 0 ≡ get_or (contents b) k 0)
    → IsSettled b (record b { storage = st; read_index = 0 })
settle b st v e same = record {
  same = moved b st v (omega arith) (omega arith) same;
  valid = omega arith;
  as_large = e;
  as_full = refl;
  front = refl;
}

at_front : (b : ByteBuffer) → IsValid b → b.read_index ≡ 0 → IsSettled b b
at_front b v e = record { same = refl; valid = v; as_large = refl; as_full = refl; front = e }

-- The `memmove` of a run that does not wrap.
slid :
    (b : ByteBuffer) (k : ℕ)
    → IsValid b
    → b.read_index + b.size ≤ capacity b
    → k < b.size
    → let run : Span = record { start = b.read_index; len = b.size } in
      get_or (blit b.storage 0 (slice b.storage run)) k 0 ≡ get_or (contents b) k 0
slid b k v fits lt = ground (
  arith,
  length-slice b.storage (record { start = b.read_index; len = b.size }),
  get_or-slice b.storage (record { start = b.read_index; len = b.size }) k,
  get_or-blit b.storage 0 (slice b.storage (record { start = b.read_index; len = b.size })) k,
  place_low b k,
  get_or-contents b k,
)

-- The detour over a temporary, for a run that wraps.
detour :
    (b : ByteBuffer) (k : ℕ)
    → IsValid b
    → k < b.size
    → get_or (blit b.storage 0 (copy_regions b (replicate b.size 0))) k 0 ≡ get_or (contents b) k 0
detour b k v lt = ground (
  arith,
  lens,
  get_or-blit b.storage 0 (copy_regions b (replicate b.size 0)) k,
  get_or-copy_regions b (replicate b.size 0) k v (omega (arith, length-replicate {A = ℕ} b.size 0)),
)
  where
    lens : length (copy_regions b (replicate b.size 0)) ≡ b.size
    lens = length-copy_regions b (replicate b.size 0) ∙ length-replicate b.size 0

-- Moving the bytes to the front changes neither them nor the capacity.
pub linearize-IsSettled : (b : ByteBuffer) → IsValid b → IsSettled b (linearize b)
unfolding linearize
linearize-IsSettled b v = elim (Bool-cases (b.size == 0)) [
  | inl empty ↦ rw empty (settle b b.storage v refl (λ k lt. absurd (ground arith)))
  | inr filled ↦ elim (Bool-cases (leb (add_size b.read_index b.size) (capacity b))) [
    | inl flat ↦ elim (Bool-cases (b.read_index == 0)) [
      | inl front ↦ rw (filled, flat, front) (at_front b v (ground arith))
      | inr away ↦
          rw (filled, flat, away)
            (settle b
              (blit b.storage 0 (slice b.storage (record { start = b.read_index; len = b.size }))) v
              (length-blit b.storage 0 _) (λ k lt. slid b k v (ground arith) lt))
    ]
    | inr wrapped ↦
        rw (filled, wrapped)
          (settle b (blit b.storage 0 (copy_regions b (replicate b.size 0))) v
            (length-blit b.storage 0 _) (λ k lt. detour b k v lt))
  ]
]

pub grow_and_linearize_lem :
    (b : ByteBuffer) (c : ℕ)
    → IsValid b
    → capacity b ≤ c
    → c < 2 ^ 63
    → (contents (grow_and_linearize b c) ≡ contents b)
      × IsValid (grow_and_linearize b c)
      × (capacity (grow_and_linearize b c) ≡ c)
      × ((grow_and_linearize b c).size ≡ b.size)
unfolding grow_and_linearize
grow_and_linearize_lem b c v le small = (
  moved b (copy_regions b (replicate c 0)) v (omega (arith, lens)) (omega (arith, lens))
      (λ k lt. get_or-copy_regions b (replicate c 0) k v (omega (arith, zeros)) lt),
  omega (arith, lens),
  lens,
  refl,
)
  where
    zeros : length (replicate {A = ℕ} c 0) ≡ c
    zeros = length-replicate c 0

    lens : length (copy_regions b (replicate c 0)) ≡ c
    lens = length-copy_regions b (replicate c 0) ∙ zeros

-- `ensure_writable` returns, with room for `n` bytes and the same contents.
pub ensure_writable_lem :
    (b : ByteBuffer) (n : ℕ)
    → IsValid b
    → b.size + n ≤ 2 ^ 62
    → (b' : ByteBuffer) × (ensure_writable b n ≡ some b')
      × (contents b' ≡ contents b)
      × IsValid b'
      × (b'.size ≡ b.size)
      × (b.size + n ≤ capacity b')
unfolding ensure_writable writable_bytes
ensure_writable_lem b n v fits = elim (Bool-cases (leb n (writable_bytes b))) [
  | inl room ↦ (b, rw room refl, refl, v, refl, ground arith)
  | inr short ↦
      let (c, e, enough, grows, small) =
        double_until_lem 64 (capacity b) (b.size + n) v.positive v.allocable fits (omega arith) in
      let wrap : add_size b.size n ≡ b.size + n = omega arith in
      let (same, valid, large, full) = grow_and_linearize_lem b c v grows small in
      (grow_and_linearize b c, rw (short, wrap, e) refl, same, valid, full, omega arith)
]

double_until-zero : (fuel required : ℕ) → 0 < required → double_until fuel 0 required ≡ none
unfolding double_until
double_until-zero zero required pos = refl
double_until-zero (suc fuel) required pos = ground (arith, double_until-zero fuel required pos)

-- When the capacity is a power of two (2 ^ (63 - j)) and more than 2 ^ 63 bytes are required, the
-- doubled word wraps to 0 and the loop ends after no number of rounds.
pub double_until-diverges :
    (fuel j c required : ℕ)
    → c * 2 ^ suc j ≡ 2 ^ 64
    → 2 ^ 63 < required
    → double_until fuel c required ≡ none
unfolding double_until
double_until-diverges zero j c required e big = refl
double_until-diverges (suc fuel) zero c required e big =
    ground (arith, double_until-zero fuel required (omega arith))
double_until-diverges (suc fuel) (suc j) c required e big =
    let split : c * (2 ^ j * 2 * 2) ≡ 2 ^ 64 = rw (pow-suc 2 (suc j), pow-suc 2 j) at e in
    let positive : 1 ≤ 2 ^ j = one-le-pow j 2 (omega arith) in
    let below : c ≤ c * 2 ^ j = grind arith in
    let next : c * 2 * 2 ^ suc j ≡ 2 ^ 64 = rw (pow-suc 2 j) (omega arith) in
    ground (arith, double_until-diverges fuel j (c * 2) required next big)
