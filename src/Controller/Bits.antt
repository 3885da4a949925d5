-- ===== src/Controller/Bits.antt =====
-- The bits of the buttons that are pressed.
use Prim.Native.Nat.{digits, max, bit_or-bitwise}
use native.Mathlib.Nat.{pow-suc}
use wii_sec_u.Base.{
  ℕ, zero, suc, ◌+◌, ◌*◌, ◌/◌, ◌%◌, ◌^◌, ◌≤◌, ◌<◌, bit_or, ◌≡◌, refl, sym, ap, ◌∙◌, Bool, true,
  false, ◌||◌, List, [], ◌∷◌, ◌==◌, if◌then◌else◌, arith,
}
use wii_sec_u.Base.All.{All}
use wii_sec_u.InputPlugin.Injection.Buttons.{has_bit}
use wii_sec_u.Controller.{press_bits}

lowest_any : (p q d : ℕ) → ((d * 2 + max (p % 2) (q % 2)) % 2 == 1) ≡ ((p % 2 == 1) || (q % 2 == 1))
lowest_any p q d = ground arith

upper_any : (p q d : ℕ) → (d * 2 + max (p % 2) (q % 2)) / 2 ≡ d
upper_any p q d = omega arith

pub has_no_bit : (i : ℕ) → has_bit i 0 ≡ false
has_no_bit zero = refl
has_no_bit (suc i) = has_no_bit i

-- With enough digits to go.
has_bit-digits :
    (n i a b : ℕ) → a ≤ n → has_bit i (digits (λ b. b) max n a b) ≡ (has_bit i a || has_bit i b)
has_bit-digits zero i zero b h = sym (ap (λ t. t || has_bit i b) (has_no_bit i))
has_bit-digits zero i (suc a) b h = absurd (omega arith)
has_bit-digits (suc n) i zero b h = sym (ap (λ t. t || has_bit i b) (has_no_bit i))
has_bit-digits (suc n) zero (suc a) b h =
    lowest_any (suc a) b (digits (λ b. b) max n (suc a / 2) (b / 2))
has_bit-digits (suc n) (suc i) (suc a) b h =
    ap (has_bit i) (upper_any (suc a) b (digits (λ b. b) max n (suc a / 2) (b / 2)))
    ∙ has_bit-digits n i (suc a / 2) (b / 2) (omega arith)

has_bit-bit_or : (i a b : ℕ) → has_bit i (bit_or a b) ≡ (has_bit i a || has_bit i b)
has_bit-bit_or i a b = ap (has_bit i) (bit_or-bitwise a b) ∙ has_bit-digits a i a b (omega arith)

digits-lt : (w n a b : ℕ) → a < 2 ^ w → b < 2 ^ w → digits (λ b. b) max n a b < 2 ^ w
digits-lt w zero a b h k = k
digits-lt w (suc n) zero b h k = k
digits-lt zero (suc n) (suc a) b h k = absurd (omega arith)
digits-lt (suc w) (suc n) (suc a) b h k =
    let double : 2 ^ suc w ≡ 2 ^ w * 2 = pow-suc 2 w in
    let r =
      digits-lt w n (suc a / 2) (b / 2) (omega (arith, h, double)) (omega (arith, k, double)) in
    omega (arith, r, double)

bit_or-lt : (w a b : ℕ) → a < 2 ^ w → b < 2 ^ w → bit_or a b < 2 ^ w
bit_or-lt w a b h k = omega (arith, bit_or-bitwise a b, digits-lt w a a b h k)

even : (p : ℕ) → (p * 2 % 2 == 1) ≡ false
even p = ground arith

halved : (p : ℕ) → p * 2 / 2 ≡ p
halved p = omega arith

has_bit-pow : (j i : ℕ) → has_bit j (2 ^ i) ≡ (i == j)
has_bit-pow zero zero = refl
has_bit-pow (suc j) zero = has_no_bit j ∙ ground arith
has_bit-pow zero (suc i) = ap (has_bit 0) (pow-suc 2 i) ∙ (even (2 ^ i) ∙ ground arith)
has_bit-pow (suc j) (suc i) =
    ap (has_bit (suc j)) (pow-suc 2 i)
    ∙ (ap (has_bit j) (halved (2 ^ i)) ∙ (has_bit-pow j i ∙ ground arith))

-- One of the buttons with a number is pressed.
abbrev pub is_pressed : ℕ → List (Bool × ℕ) → Bool
is_pressed j [] = false
is_pressed j ((pressed, i) ∷ rest) =
    let others = is_pressed j rest in if i == j then pressed || others else others

or_cond : (c r : Bool) → (c || r) ≡ (if c then true || r else r)
or_cond true r = refl
or_cond false r = refl

unpressed_if : (c r : Bool) → r ≡ (if c then false || r else r)
unpressed_if true r = refl
unpressed_if false r = refl

-- A bit that no entry has.
pub is_pressed-none :
    (w i : ℕ) (ps : List (Bool × ℕ)) → All (λ p. p.1 < w) ps → w ≤ i → is_pressed i ps ≡ false
is_pressed-none w i [] h k = refl
is_pressed-none w i ((pressed, n) ∷ ps) (h, hs) k =
    let other : (n == i) ≡ false = ground (arith, h, k) in rw other (is_pressed-none w i ps hs k)

or_assoc : (a b c : Bool) → ((a || b) || c) ≡ (a || (b || c))
or_assoc true b c = refl
or_assoc false b c = refl

pub has_bit-press_bits :
    (j : ℕ) (ps : List (Bool × ℕ)) (v : ℕ)
    → has_bit j (press_bits ps v) ≡ (has_bit j v || is_pressed j ps)
unfolding press_bits
has_bit-press_bits j [] v = ground arith
has_bit-press_bits j ((false, i) ∷ ps) v =
    has_bit-press_bits j ps v ∙ ap (λ t. has_bit j v || t) (unpressed_if (i == j) (is_pressed j ps))
has_bit-press_bits j ((true, i) ∷ ps) v =
    has_bit-press_bits j ps (bit_or v (2 ^ i))
    ∙ ap (λ t. t || is_pressed j ps)
        (has_bit-bit_or j v (2 ^ i) ∙ ap (λ t. has_bit j v || t) (has_bit-pow j i))
    ∙ or_assoc (has_bit j v) (i == j) (is_pressed j ps)
    ∙ ap (λ t. has_bit j v || t) (or_cond (i == j) (is_pressed j ps))

one_pow : (w : ℕ) → 0 < 2 ^ w
one_pow zero = omega arith
one_pow (suc w) = omega (arith, pow-suc 2 w, one_pow w)

pow-lt : (w i : ℕ) → i < w → 2 ^ i < 2 ^ w
pow-lt zero i h = absurd (omega arith)
pow-lt (suc w) zero h = omega (arith, pow-suc 2 w, one_pow w)
pow-lt (suc w) (suc i) h = omega (arith, pow-suc 2 w, pow-suc 2 i, pow-lt w i (omega arith))

pub press_bits-lt :
    (w : ℕ) (ps : List (Bool × ℕ)) (v : ℕ)
    → All (λ p. p.1 < w) ps
    → v < 2 ^ w
    → press_bits ps v < 2 ^ w
unfolding press_bits
press_bits-lt w [] v h k = k
press_bits-lt w ((false, i) ∷ ps) v (h, hs) k = press_bits-lt w ps v hs k
press_bits-lt w ((true, i) ∷ ps) v (h, hs) k =
    press_bits-lt w ps (bit_or v (2 ^ i)) hs (bit_or-lt w v (2 ^ i) k (pow-lt w i h))
