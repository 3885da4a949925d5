-- ===== src/Base/All.antt =====
-- A predicate of every element of a list, and blocks written into a buffer.
use Prim.Native.Nat.{ℕ, zero, suc, ◌+◌, ◌≤◌, ◌<◌}
use mathlib.Core.Path.{◌≡◌, refl, ap}
use mathlib.Core.Bool.{Bool, true, false}
use mathlib.Core.List.{List, [], ◌∷◌, map}
use native.Mathlib.Omega.{arith}
use wii_sec_u.Base.Lists.{length, get_or, set, take, drop, replicate}

abbrev pub All {ℓ κ} : {A : Type ℓ} → (A → Type κ) → List A → Type κ
All P [] = Unit
All P (x ∷ xs) = P x × All P xs

module _ {ℓ κ} {A : Type ℓ} (P : A → Type κ) where
  pub All-set : (xs : List A) (i : ℕ) (v : A) → All P xs → P v → All P (set xs i v)
  All-set [] i v h p = tt
  All-set (x ∷ xs) zero v h p = (p, h.1)
  All-set (x ∷ xs) (suc i) v h p = (h.0, All-set xs i v h.1 p)

  pub All-get_or : (xs : List A) (i : ℕ) (d : A) → All P xs → P d → P (get_or xs i d)
  All-get_or [] i d h p = p
  All-get_or (x ∷ xs) zero d h p = h.0
  All-get_or (x ∷ xs) (suc i) d h p = All-get_or xs i d h.1 p

  pub All-map : (f : A → A) (xs : List A) → ((x : A) → P x → P (f x)) → All P xs → All P (map f xs)
  All-map f [] k h = tt
  All-map f (x ∷ xs) k h = (k x h.0, All-map f xs k h.1)

pub All-imp {ℓ κ μ} :
    {A : Type ℓ} {P : A → Type κ} {Q : A → Type μ} (xs : List A)
    → ((x : A) → P x → Q x)
    → All P xs
    → All Q xs
All-imp [] k h = tt
All-imp (x ∷ xs) k h = (k x h.0, All-imp xs k h.1)

-- How many entries are true.
abbrev pub count_true : List Bool → ℕ
count_true [] = 0
count_true (true ∷ bs) = suc (count_true bs)
count_true (false ∷ bs) = count_true bs

pub count_true-le : (bs : List Bool) → count_true bs ≤ length bs
count_true-le [] = omega arith
count_true-le (true ∷ bs) = omega (arith, count_true-le bs)
count_true-le (false ∷ bs) = omega (arith, count_true-le bs)

pub count_true-replicate : (n : ℕ) → count_true (replicate n false) ≡ 0
count_true-replicate zero = refl
count_true-replicate (suc n) = count_true-replicate n

pub count_true-set :
    (bs : List Bool) (i : ℕ)
    → i < length bs
    → get_or bs i false ≡ false
    → count_true (set bs i true) ≡ suc (count_true bs)
count_true-set [] i h e = absurd (omega arith)
count_true-set (true ∷ bs) zero h e = cc
count_true-set (false ∷ bs) zero h e = refl
count_true-set (true ∷ bs) (suc i) h e = ap suc (count_true-set bs i (omega arith) e)
count_true-set (false ∷ bs) (suc i) h e = count_true-set bs i (omega arith) e

pub get_or-count_true :
    (bs : List Bool) (i : ℕ) → count_true bs ≡ length bs → i < length bs → get_or bs i false ≡ true
get_or-count_true [] i e h = absurd (omega arith)
get_or-count_true (true ∷ bs) zero e h = refl
get_or-count_true (true ∷ bs) (suc i) e h = get_or-count_true bs i (omega arith) (omega arith)
get_or-count_true (false ∷ bs) i e h = absurd (omega (arith, count_true-le bs))

module _ {ℓ} {A : Type ℓ} where
  -- `memcpy(xs + i, ws, n)`, `ws` being the `n` elements; what falls outside is not written.
  abbrev pub write_at : List A → ℕ → List A → List A
  write_at [] i ws = []
  write_at (x ∷ xs) zero [] = x ∷ xs
  write_at (x ∷ xs) zero (w ∷ ws) = w ∷ write_at xs zero ws
  write_at (x ∷ xs) (suc i) ws = x ∷ write_at xs i ws

  pub length-write_at : (xs : List A) (i : ℕ) (ws : List A) → length (write_at xs i ws) ≡ length xs
  length-write_at [] i ws = refl
  length-write_at (x ∷ xs) zero [] = refl
  length-write_at (x ∷ xs) zero (w ∷ ws) = ap suc (length-write_at xs zero ws)
  length-write_at (x ∷ xs) (suc i) ws = ap suc (length-write_at xs i ws)

  pub write_at-nil : (xs : List A) (i : ℕ) → write_at xs i [] ≡ xs
  write_at-nil [] i = refl
  write_at-nil (x ∷ xs) zero = refl
  write_at-nil (x ∷ xs) (suc i) = ap (◌∷◌ x) (write_at-nil xs i)

  -- The block itself reads back,
  pub take-drop-write_at_self :
      (xs : List A) (i : ℕ) (ws : List A)
      → i + length ws ≤ length xs
      → take (length ws) (drop i (write_at xs i ws)) ≡ ws
  take-drop-write_at_self xs i [] h = refl
  take-drop-write_at_self [] i (w ∷ ws) h = absurd (omega arith)
  take-drop-write_at_self (x ∷ xs) zero (w ∷ ws) h =
      ap (◌∷◌ w) (take-drop-write_at_self xs zero ws (omega arith))
  take-drop-write_at_self (x ∷ xs) (suc i) (w ∷ ws) h =
      take-drop-write_at_self xs i (w ∷ ws) (omega arith)

  -- and what lies before it or after it is left alone.
  pub take-drop-write_at_before :
      (xs : List A) (i : ℕ) (ws : List A) (s n : ℕ)
      → s + n ≤ i
      → take n (drop s (write_at xs i ws)) ≡ take n (drop s xs)
  take-drop-write_at_before xs i ws s zero h = refl
  take-drop-write_at_before [] i ws s (suc n) h = refl
  take-drop-write_at_before (x ∷ xs) zero ws s (suc n) h = absurd (omega arith)
  take-drop-write_at_before (x ∷ xs) (suc i) ws zero (suc n) h =
      ap (◌∷◌ x) (take-drop-write_at_before xs i ws zero n (omega arith))
  take-drop-write_at_before (x ∷ xs) (suc i) ws (suc s) (suc n) h =
      take-drop-write_at_before xs i ws s (suc n) (omega arith)

  pub drop-write_at_after :
      (xs : List A) (i : ℕ) (ws : List A) (s : ℕ)
      → i + length ws ≤ s
      → drop s (write_at xs i ws) ≡ drop s xs
  drop-write_at_after [] i ws s h = refl
  drop-write_at_after (x ∷ xs) zero [] s h = refl
  drop-write_at_after (x ∷ xs) zero (w ∷ ws) zero h = absurd (omega arith)
  drop-write_at_after (x ∷ xs) zero (w ∷ ws) (suc s) h =
      drop-write_at_after xs zero ws s (omega arith)
  drop-write_at_after (x ∷ xs) (suc i) ws zero h = absurd (omega arith)
  drop-write_at_after (x ∷ xs) (suc i) ws (suc s) h = drop-write_at_after xs i ws s (omega arith)

  pub drop-cons :
      (xs : List A) (i : ℕ) (y d : A) (ys : List A)
      → drop i xs ≡ y ∷ ys
      → (i < length xs) × (get_or xs i d ≡ y) × (drop (suc i) xs ≡ ys)
  drop-cons [] zero y d ys e = cc
  drop-cons [] (suc i) y d ys e = cc
  drop-cons (x ∷ xs) zero y d ys e = (omega arith, cc, cc)
  drop-cons (x ∷ xs) (suc i) y d ys e =
      let (h, g, r) = drop-cons xs i y d ys e in (omega arith, g, r)
