-- ===== src/Protocol/Wire.antt =====
-- The byte-order helpers of protocol/wsu_protocol.h, and reads of a receive buffer.
-- A buffer is the list of its valid bytes, so `len` is the length of the list.
use wii_sec_u.Base.{
  ℕ, ◌+◌, ◌*◌, ◌/◌, ◌%◌, ◌^◌, ◌<◌, ◌≡◌, refl, List, [], ◌∷◌, Bool, true, false, Option, none, some,
  arith, get_elem?, get_or, length, get_elem?-eq-get_or, suc, zero, take, drop, ◌≤◌, take_all,
  length-drop, ap, ◌∙◌, ◌⊎◌, inl, inr,
}
use wii_sec_u.Base.Int.{ℤ, to_u16, to_i16}

-- How a parser ends: with a value, with its -1, or with a read past the end of the buffer.
pub data Parse {ℓ} (A : Type ℓ) : Type ℓ where
  ok : A → Parse A
  reject : Parse A
  fault : Parse A

infixl 5 ◌>>=◌ ◌>>◌
abbrev pub ◌>>=◌ {ℓ κ} : {A : Type ℓ} {B : Type κ} → Parse A → (A → Parse B) → Parse B
ok a >>= f = f a
reject >>= f = reject
fault >>= f = fault

abbrev pub ◌>>◌ {ℓ} : {B : Type ℓ} → Parse (Unit {0}) → Parse B → Parse B
m >> k = m >>= λ _. k

-- `if (!b) return -1;`
abbrev pub require : Bool → Parse (Unit {0})
require true = ok tt
require false = reject

abbrev from_option {ℓ} : {A : Type ℓ} → Option A → Parse A
from_option none = fault
from_option (some a) = ok a

-- `p[i]`
unfoldable pub get_u8 : List ℕ → ℕ → Parse ℕ
get_u8 p i = from_option (get_elem? p i)

-- The bytes that the two writers put down, in order.
abbrev pub put_u16 : ℕ → List ℕ
put_u16 v = (v / 2 ^ 8 % 2 ^ 8) ∷ (v % 2 ^ 8) ∷ []

abbrev pub put_u32 : ℕ → List ℕ
put_u32 v = (v / 2 ^ 24 % 2 ^ 8) ∷ (v / 2 ^ 16 % 2 ^ 8) ∷ (v / 2 ^ 8 % 2 ^ 8) ∷ (v % 2 ^ 8) ∷ []

abbrev pub put_i16 : ℤ → List ℕ
put_i16 v = put_u16 (to_u16 v)

-- The shifted bytes do not overlap, so `|` is a sum.
unfoldable pub get_u16 : List ℕ → ℕ → Parse ℕ
unfolding get_u8
get_u16 p i = do hi ← get_u8 p i; lo ← get_u8 p (suc i); ok (hi * 2 ^ 8 + lo)

unfoldable pub get_u32 : List ℕ → ℕ → Parse ℕ
unfolding get_u8
get_u32 p i = do
  b3 ← get_u8 p i
  b2 ← get_u8 p (suc i)
  b1 ← get_u8 p (suc (suc i))
  b0 ← get_u8 p (suc (suc (suc i)))
  ok (b3 * 2 ^ 24 + b2 * 2 ^ 16 + b1 * 2 ^ 8 + b0)

unfoldable pub get_i16 : List ℕ → ℕ → Parse ℤ
unfolding get_u16
get_i16 p i = do w ← get_u16 p i; ok (to_i16 w)

-- `n` bytes from `i` on, each of them a read, as memcpy or whoever uses the payload reads them.
unfoldable pub get_bytes : List ℕ → ℕ → ℕ → Parse (List ℕ)
unfolding get_u8
get_bytes p i zero = ok []
get_bytes p i (suc n) = do b ← get_u8 p i; rest ← get_bytes p (suc i) n; ok (b ∷ rest)

-- What the reads give inside the buffer.
abbrev pub u8_at : List ℕ → ℕ → ℕ
u8_at p i = get_or p i 0

abbrev pub u16_at : List ℕ → ℕ → ℕ
u16_at p i = u8_at p i * 2 ^ 8 + u8_at p (suc i)

abbrev pub u32_at : List ℕ → ℕ → ℕ
u32_at p i =
    u8_at p i * 2 ^ 24
    + u8_at p (suc i) * 2 ^ 16
    + u8_at p (suc (suc i)) * 2 ^ 8
    + u8_at p (suc (suc (suc i)))

pub get_u8-at : (p : List ℕ) (i : ℕ) → i < length p → get_u8 p i ≡ ok (u8_at p i)
unfolding get_u8
get_u8-at p i h = rw (get_elem?-eq-get_or p i 0 h)

pub get_u16-at : (p : List ℕ) (i : ℕ) → suc i < length p → get_u16 p i ≡ ok (u16_at p i)
unfolding get_u16
get_u16-at p i h = rw (get_elem?-eq-get_or p i 0 (omega arith), get_elem?-eq-get_or p (suc i) 0 h)

pub get_u32-at : (p : List ℕ) (i : ℕ) → suc (suc (suc i)) < length p → get_u32 p i ≡ ok (u32_at p i)
unfolding get_u32
get_u32-at p i h = rw (
  get_elem?-eq-get_or p i 0 (omega arith),
  get_elem?-eq-get_or p (suc i) 0 (omega arith),
  get_elem?-eq-get_or p (suc (suc i)) 0 (omega arith),
  get_elem?-eq-get_or p (suc (suc (suc i))) 0 h,
)

pub get_i16-at : (p : List ℕ) (i : ℕ) → suc i < length p → get_i16 p i ≡ ok (to_i16 (u16_at p i))
unfolding get_i16
get_i16-at p i h = rw (get_elem?-eq-get_or p i 0 (omega arith), get_elem?-eq-get_or p (suc i) 0 h)

drop-get_or : (p : List ℕ) (i : ℕ) → i < length p → drop i p ≡ u8_at p i ∷ drop (suc i) p
drop-get_or [] i h = absurd (omega arith)
drop-get_or (b ∷ p) zero h = refl
drop-get_or (b ∷ p) (suc i) h = drop-get_or p i (omega arith)

pub get_bytes-at :
    (p : List ℕ) (i n : ℕ) → i + n ≤ length p → get_bytes p i n ≡ ok (take n (drop i p))
unfolding get_bytes
get_bytes-at p i zero h = refl
get_bytes-at p i (suc n) h = rw (
  get_elem?-eq-get_or p i 0 (omega arith),
  get_bytes-at p (suc i) n (omega arith),
  drop-get_or p i (omega arith),
)

-- The bytes behind a header of `i` bytes.
pub get_bytes-drop :
    (p : List ℕ) (i n : ℕ) (payload : List ℕ)
    → drop i p ≡ payload
    → length p ≡ i + n
    → get_bytes p i n ≡ ok payload
get_bytes-drop p i n payload e h =
    get_bytes-at p i n (omega (arith, h))
    ∙ ap ok (take_all (drop i p) n (omega (arith, length-drop i p, h)) ∙ e)

pub u16_join : (v : ℕ) → v < 2 ^ 16 → v / 2 ^ 8 % 2 ^ 8 * 2 ^ 8 + v % 2 ^ 8 ≡ v
u16_join v h = omega arith

pub u32_join :
    (v : ℕ)
    → v < 2 ^ 32
    → v / 2 ^ 24 % 2 ^ 8 * 2 ^ 24
        + v / 2 ^ 16 % 2 ^ 8 * 2 ^ 16
        + v / 2 ^ 8 % 2 ^ 8 * 2 ^ 8
        + v % 2 ^ 8
      ≡ v
u32_join v h = omega arith

pub Parse-cases {ℓ} :
    {A : Type ℓ} (r : Parse A) → ((a : A) × (r ≡ ok a)) ⊎ ((r ≡ reject) ⊎ (r ≡ fault))
Parse-cases (ok a) = inl (a, refl)
Parse-cases reject = inr (inl refl)
Parse-cases fault = inr (inr refl)
