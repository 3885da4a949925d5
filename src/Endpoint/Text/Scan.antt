-- ===== src/Endpoint/Text/Scan.antt =====
-- What sscanf makes of a number that snprintf printed.
use wii_sec_u.Base.{
  ℕ, zero, suc, ◌+◌, ◌*◌, ◌-◌, ◌/◌, ◌%◌, ◌^◌, ◌≤◌, ◌<◌, ◌≡◌, refl, ap, ◌∙◌, inl, inr, true, false,
  List, [], ◌∷◌, ◌++◌, some, take, length, ltb, ◌==◌, arith, tests, Bool-cases, length-append,
  ==_refl, not_ltb→le,
}
use native.Mathlib.Numerals.{unary_clauses}
use wii_sec_u.Base.All.{All}
use wii_sec_u.Endpoint.Text.{
  decimal, print_u, is_digit, is_space, skip_space, read_digits, read_number, read_signed,
  Directive, number, exactly, scan_format,
}

pow_suc : (k : ℕ) → 10 ^ suc k ≡ 10 ^ k * 10
pow_suc k = simp unary_clauses refl

-- The number that digits stand for, after `acc`.
abbrev value : ℕ → List ℕ → ℕ
value acc [] = acc
value acc (c ∷ text) = value (acc * 10 + (c - 48)) text

abbrev pub IsDigit : ℕ → Type 0
IsDigit c = (48 ≤ c) × (c ≤ 57)

-- Where a number ends.
abbrev pub Ends : List ℕ → Type 0
Ends [] = Unit
Ends (c ∷ text) = is_digit c ≡ false

digit_test : (c : ℕ) → IsDigit c → is_digit c ≡ true
digit_test c (a, b) = ground arith

value-snoc :
    (acc : ℕ) (xs : List ℕ) (c : ℕ) → value acc (xs ++ (c ∷ [])) ≡ value acc xs * 10 + (c - 48)
value-snoc acc [] c = refl
value-snoc acc (x ∷ xs) c = value-snoc (acc * 10 + (x - 48)) xs c

All-snoc : (xs : List ℕ) (c : ℕ) → All IsDigit xs → IsDigit c → All IsDigit (xs ++ (c ∷ []))
All-snoc [] c h d = (d, tt)
All-snoc (x ∷ xs) c h d = (h.0, All-snoc xs c h.1 d)

ten_fold : (k n : ℕ) → n < 10 ^ suc k → n / 10 < 10 ^ k
ten_fold k n h = omega (arith, pow_suc k)

more_digits : (k n : ℕ) → n < 10 ^ suc k → 10 ≤ n → 0 < k
more_digits zero n h b = absurd (omega arith)
more_digits (suc k) n h b = omega arith

-- What `decimal` prints: digits of that value, and one at least.
pub record Prints (n : ℕ) (text : List ℕ) : Type 0 where
  pub digits : All IsDigit text
  pub means : value 0 text ≡ n
  pub some_digit : 0 < length text

pub decimal-Prints : (most n : ℕ) → n < 10 ^ most → 0 < most → Prints n (decimal most n)
unfolding decimal
decimal-Prints zero n h p = absurd (omega arith)
decimal-Prints (suc most) n h p = elim (Bool-cases (ltb n 10)) [
  | inl e ↦ rw e record {
    digits = ((omega arith, omega (tests, e)), tt);
    means = omega arith;
    some_digit = omega arith;
  }
  | inr e ↦
      let big = not_ltb→le n 10 e in
      let smaller = decimal-Prints most (n / 10) (ten_fold most n h) (more_digits most n h big) in
      let last = 48 + n % 10 in
      rw e record {
        digits = All-snoc (decimal most (n / 10)) last smaller.digits (omega arith, omega arith);
        means = omega (arith, value-snoc 0 (decimal most (n / 10)) last, smaller.means);
        some_digit = omega (arith, length-append (decimal most (n / 10)) (last ∷ []));
      }
]

pub length-decimal : (most k n : ℕ) → n < 10 ^ k → 0 < k → length (decimal most n) ≤ k
unfolding decimal
length-decimal zero k n h p = omega arith
length-decimal (suc most) zero n h p = absurd (omega arith)
length-decimal (suc most) (suc k) n h p = elim (Bool-cases (ltb n 10)) [
  | inl e ↦ rw e (omega arith)
  | inr e ↦
      let shorter =
        length-decimal most k (n / 10) (ten_fold k n h) (more_digits k n h (not_ltb→le n 10 e)) in
      rw e (omega (arith, length-append (decimal most (n / 10)) ((48 + n % 10) ∷ []), shorter))
]

read_digits_lem :
    (xs rest : List ℕ) (acc : ℕ)
    → All IsDigit xs
    → Ends rest
    → read_digits acc (xs ++ rest) ≡ (value acc xs, rest)
unfolding read_digits
read_digits_lem [] [] acc h e = refl
read_digits_lem [] (c ∷ t) acc h e = rw e refl
read_digits_lem (x ∷ xs) rest acc (d, h) e =
    rw (digit_test x d) (read_digits_lem xs rest (acc * 10 + (x - 48)) h e)

read_number_lem :
    (fit : ℕ → ℕ) (n : ℕ) (xs rest : List ℕ)
    → Prints n xs
    → Ends rest
    → read_number fit (xs ++ rest) ≡ some (fit n, rest)
unfolding read_number
read_number_lem fit n [] rest h e = absurd (omega (arith, h.some_digit))
read_number_lem fit n (x ∷ xs) rest h e =
    let whole : read_digits 0 (x ∷ xs ++ rest) ≡ (n, rest) =
      read_digits_lem (x ∷ xs) rest 0 h.digits e ∙ ap (λ v. (v, rest)) h.means in
    rw (digit_test x h.digits.0, read_number)
      (ap (λ r. some (fit r.0, r.1)) (rw (digit_test x h.digits.0) at whole))

no_sign : (x : ℕ) → IsDigit x → ((x == 43) ≡ false) × ((x == 45) ≡ false)
no_sign x (a, b) = (ground arith, ground arith)

no_space : (x : ℕ) → IsDigit x → is_space x ≡ false
no_space x (a, b) = ground arith

read_signed_lem :
    (fit : ℕ → ℕ) (n : ℕ) (xs rest : List ℕ)
    → Prints n xs
    → Ends rest
    → read_signed fit (xs ++ rest) ≡ some (fit n, rest)
unfolding read_signed
read_signed_lem fit n [] rest h e = absurd (omega (arith, h.some_digit))
read_signed_lem fit n (x ∷ xs) rest h e =
    let (p, m) = no_sign x h.digits.0 in rw (p, m) (read_number_lem fit n (x ∷ xs) rest h e)

skip_space_lem : (n : ℕ) (xs rest : List ℕ) → Prints n xs → skip_space (xs ++ rest) ≡ xs ++ rest
unfolding skip_space
skip_space_lem n [] rest h = absurd (omega (arith, h.some_digit))
skip_space_lem n (x ∷ xs) rest h = rw (no_space x h.digits.0) refl

-- A number of the format takes a printed number off the text.
pub number_taken :
    (fit : ℕ → ℕ) (ds : List Directive) (n : ℕ) (xs rest : List ℕ)
    → Prints n xs
    → Ends rest
    → scan_format fit (number ∷ ds) (xs ++ rest) ≡ fit n ∷ scan_format fit ds rest
unfolding scan_format
number_taken fit ds n xs rest h e =
    rw (skip_space_lem n xs rest h, read_signed_lem fit n xs rest h e, scan_format) refl

pub char_taken :
    (fit : ℕ → ℕ) (ds : List Directive) (c : ℕ) (rest : List ℕ)
    → scan_format fit (exactly c ∷ ds) (c ∷ rest) ≡ scan_format fit ds rest
unfolding scan_format
char_taken fit ds c rest = rw (==_refl c, scan_format) refl

pub byte_short : (n : ℕ) → length (print_u (n % 2 ^ 8)) ≤ 3
byte_short n = length-decimal 10 3 (n % 2 ^ 8) (omega arith) (omega arith)

pub take_whole : (n : ℕ) (xs : List ℕ) → length xs ≤ n → take n xs ≡ xs
take_whole zero [] h = refl
take_whole (suc n) [] h = refl
take_whole zero (x ∷ xs) h = absurd (omega arith)
take_whole (suc n) (x ∷ xs) h = ap (◌∷◌ x) (take_whole n xs (omega arith))
