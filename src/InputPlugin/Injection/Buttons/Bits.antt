-- ===== src/InputPlugin/Injection/Buttons/Bits.antt =====
-- The bits of a conjunction and of a complement.
use Prim.Native.Nat.{digits, bit_and-bitwise}
use native.Mathlib.Nat.{pow-suc}
use wii_sec_u.Base.{
  ℕ, zero, suc, ◌+◌, ◌-◌, ◌*◌, ◌/◌, ◌%◌, ◌^◌, ◌≤◌, ◌<◌, min, bit_and, ◌≡◌, refl, sym, ap, subst,
  ◌∙◌, Bool, true, false, not, ◌&&◌, ◌==◌, arith,
}
use wii_sec_u.InputPlugin.Injection.Buttons.{has_bit, complement, trigger_of, release_of}

has_bit-zero : (i : ℕ) → has_bit i 0 ≡ false
has_bit-zero zero = refl
has_bit-zero (suc i) = has_bit-zero i

&&-false : (b : Bool) → (b && false) ≡ false
&&-false true = refl
&&-false false = refl

lowest_both :
    (p q d : ℕ) → ((d * 2 + min (p % 2) (q % 2)) % 2 == 1) ≡ ((p % 2 == 1) && (q % 2 == 1))
lowest_both p q d = ground arith

upper : (p q d : ℕ) → (d * 2 + min (p % 2) (q % 2)) / 2 ≡ d
upper p q d = omega arith

-- With enough digits to go.
has_bit-digits :
    (n i a b : ℕ) → a ≤ n → has_bit i (digits (λ b. zero) min n a b) ≡ (has_bit i a && has_bit i b)
has_bit-digits zero i zero b h = has_bit-zero i ∙ sym (ap (λ t. t && has_bit i b) (has_bit-zero i))
has_bit-digits zero i (suc a) b h = absurd (omega arith)
has_bit-digits (suc n) i zero b h =
    has_bit-zero i ∙ sym (ap (λ t. t && has_bit i b) (has_bit-zero i))
has_bit-digits (suc n) zero (suc a) b h =
    lowest_both (suc a) b (digits (λ b. zero) min n (suc a / 2) (b / 2))
has_bit-digits (suc n) (suc i) (suc a) b h =
    ap (has_bit i) (upper (suc a) b (digits (λ b. zero) min n (suc a / 2) (b / 2)))
    ∙ has_bit-digits n i (suc a / 2) (b / 2) (omega arith)

has_bit-bit_and : (i a b : ℕ) → has_bit i (bit_and a b) ≡ (has_bit i a && has_bit i b)
has_bit-bit_and i a b = ap (has_bit i) (bit_and-bitwise a b) ∙ has_bit-digits a i a b (omega arith)

flipped_low : (p n : ℕ) → n < p * 2 → ((p * 2 - 1 - n) % 2 == 1) ≡ not (n % 2 == 1)
flipped_low p n h = ground arith

flipped_high : (p n : ℕ) → n < p * 2 → (p * 2 - 1 - n) / 2 ≡ p - 1 - n / 2
flipped_high p n h = omega arith

-- Below a power of two, the bits of the difference to the number of ones are the opposite.
has_bit-flip : (w i n : ℕ) → i < w → n < 2 ^ w → has_bit i (2 ^ w - 1 - n) ≡ not (has_bit i n)
has_bit-flip zero i n h b = absurd (omega arith)
has_bit-flip (suc w) zero n h b =
    ap (λ m. has_bit 0 (m - 1 - n)) (pow-suc 2 w)
    ∙ flipped_low (2 ^ w) n (subst (λ m. n < m) (pow-suc 2 w) b)
has_bit-flip (suc w) (suc i) n h b =
    let b2 = subst (λ m. n < m) (pow-suc 2 w) b in
    ap (λ m. has_bit (suc i) (m - 1 - n)) (pow-suc 2 w)
    ∙ (ap (has_bit i) (flipped_high (2 ^ w) n b2)
        ∙ has_bit-flip w i (n / 2) (omega arith) (omega arith))

no_wrap : (n : ℕ) → n < 2 ^ 32 → n % 2 ^ 32 ≡ n
no_wrap n h = omega arith

-- A bit of the trigger word: held now and not before.
pub has_bit-trigger :
    (i hold prev : ℕ)
    → i < 32
    → prev < 2 ^ 32
    → has_bit i (trigger_of hold prev) ≡ (has_bit i hold && not (has_bit i prev))
has_bit-trigger i hold prev h b =
    has_bit-bit_and i hold (complement prev)
    ∙ ap (λ t. has_bit i hold && t)
        (ap (λ m. has_bit i (2 ^ 32 - 1 - m)) (no_wrap prev b) ∙ has_bit-flip 32 i prev h b)

-- A bit of the release word: held before and not now.
pub has_bit-release :
    (i hold prev : ℕ)
    → i < 32
    → hold < 2 ^ 32
    → has_bit i (release_of hold prev) ≡ (has_bit i prev && not (has_bit i hold))
has_bit-release i hold prev h b = has_bit-trigger i prev hold h b
