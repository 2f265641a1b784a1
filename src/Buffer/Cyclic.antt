-- ===== src/Buffer/Cyclic.antt =====
-- What the buffer holds: the bytes read round the storage, from `read_index` on.
use xcoro.Base.{
  ℕ, zero, suc, ◌+◌, ◌-◌, ◌%◌, ◌^◌, ◌≤◌, ◌<◌, ◌≡◌, refl, sym, ap, ◌∙◌, List, [], ◌∷◌, length,
  get_or, list_ext, arith, mod_small, mod_once,
}
use xcoro.Buffer.{ByteBuffer, capacity}

pub read_cyclic : List ℕ → ℕ → ℕ → List ℕ
read_cyclic st i zero = []
read_cyclic st i (suc n) = get_or st (i % length st) 0 ∷ read_cyclic st (i + 1) n

-- The readable bytes, in order: byte `k` is `storage[(read_index + k) mod capacity]`.
pub contents : ByteBuffer → List ℕ
unfolding read_cyclic
contents b = read_cyclic b.storage b.read_index b.size

-- The indices are in range, and the capacity is one that `std::vector` can have.
pub record IsValid (b : ByteBuffer) : Type 0 where
  pub positive : 0 < capacity b
  pub allocable : capacity b < 2 ^ 63
  pub fits : b.size ≤ capacity b
  pub in_range : b.read_index < capacity b

pub length-read_cyclic : (st : List ℕ) (i n : ℕ) → length (read_cyclic st i n) ≡ n
unfolding read_cyclic
length-read_cyclic st i zero = refl
length-read_cyclic st i (suc n) = ap suc (length-read_cyclic st (i + 1) n)

pub get_or-read_cyclic :
    (st : List ℕ) (i n k : ℕ)
    → k < n
    → get_or (read_cyclic st i n) k 0 ≡ get_or st ((i + k) % length st) 0
unfolding read_cyclic
get_or-read_cyclic st i zero k h = absurd (omega arith)
get_or-read_cyclic st i (suc n) zero h = ap (λ (j : ℕ). get_or st (j % length st) 0) (omega arith)
get_or-read_cyclic st i (suc n) (suc k) h =
    get_or-read_cyclic st (i + 1) n k (omega arith)
    ∙ ap (λ (j : ℕ). get_or st (j % length st) 0) (omega arith)

-- The place of byte `k`, with the remainder worked out.
pub place_low :
    (b : ByteBuffer) (k : ℕ)
    → b.read_index + k < capacity b
    → (b.read_index + k) % capacity b ≡ b.read_index + k
place_low b k h = mod_small (b.read_index + k) (capacity b) h

pub place_high :
    (b : ByteBuffer) (k : ℕ)
    → IsValid b
    → k ≤ capacity b
    → capacity b ≤ b.read_index + k
    → (b.read_index + k) % capacity b ≡ b.read_index + k - capacity b
place_high b k v lt h = mod_once (b.read_index + k) (capacity b) h (omega arith)

pub length-contents : (b : ByteBuffer) → length (contents b) ≡ b.size
unfolding contents
length-contents b = length-read_cyclic b.storage b.read_index b.size

-- To show what a buffer holds it is enough to say so at each index.
pub contents_ext :
    (b : ByteBuffer) (xs : List ℕ)
    → length xs ≡ b.size
    → ((k : ℕ) → k < b.size → get_or b.storage ((b.read_index + k) % capacity b) 0 ≡ get_or xs k 0)
    → contents b ≡ xs
unfolding contents
contents_ext b xs e h = list_ext (contents b) xs 0 (length-contents b ∙ sym e) λ k lt.
    let below : k < b.size = omega (arith, length-contents b) in
    get_or-read_cyclic b.storage b.read_index b.size k below ∙ h k below

pub get_or-contents :
    (b : ByteBuffer) (k : ℕ)
    → k < b.size
    → get_or (contents b) k 0 ≡ get_or b.storage ((b.read_index + k) % capacity b) 0
unfolding contents
get_or-contents b k h = get_or-read_cyclic b.storage b.read_index b.size k h
