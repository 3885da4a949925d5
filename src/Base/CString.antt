-- ===== src/Base/CString.antt =====
-- What the C library's functions on texts do: strchr and strcspn, as cuts of a list of characters' codes,
-- and fgets, as the lines that a file is read in.
use wii_sec_u.Base.{
  ℕ, ◌-◌, ◌<◌, ◌≡◌, refl, ap, Bool, true, false, ◌||◌, List, [], ◌∷◌, ◌++◌, Option, none, some,
  length, ◌==◌, if◌then◌else◌, arith, ne→not_==,
}
use wii_sec_u.Base.All.{All}

-- The characters before the first that passes.
abbrev pub until : (ℕ → Bool) → List ℕ → List ℕ
until p [] = []
until p (c ∷ cs) = let rest = until p cs in if p c then [] else c ∷ rest

-- A character array up to its NUL.
abbrev pub c_string : List ℕ → List ℕ
c_string = until (λ c. c == 0)

-- What is before the first `mark` and what is after it.
abbrev pub split_at : ℕ → List ℕ → Option (List ℕ × List ℕ)
split_at mark [] = none
split_at mark (c ∷ cs) =
    let later : Option (List ℕ × List ℕ) = elim (split_at mark cs) [
      | none ↦ none
      | some (before, after) ↦ some (c ∷ before, after)
    ] in
    if c == mark then some ([], cs) else later

abbrev pub onto_first : ℕ → List (List ℕ) → List (List ℕ)
onto_first c [] = (c ∷ []) ∷ []
onto_first c (l ∷ ls) = (c ∷ l) ∷ ls

-- The lines that fgets reads with room for `most` characters; the first has room for `room`.
abbrev pub fgets_lines : ℕ → ℕ → List ℕ → List (List ℕ)
fgets_lines most room [] = []
fgets_lines most room (c ∷ cs) =
    let ends = c == 10 || room == 1 in
    let rest = fgets_lines most (if ends then most else room - 1) cs in
    if ends then (c ∷ []) ∷ rest else onto_first c rest

abbrev pub IsFree : (ℕ → Bool) → List ℕ → Type 0
IsFree p cs = All (λ c. p c ≡ false) cs

pub until_free : (p : ℕ → Bool) (cs : List ℕ) → IsFree p cs → until p cs ≡ cs
until_free p [] h = refl
until_free p (c ∷ cs) (h, hs) = rw h (ap (◌∷◌ c) (until_free p cs hs))

pub until-append :
    (p : ℕ → Bool) (cs : List ℕ) (c : ℕ) (rest : List ℕ)
    → IsFree p cs
    → p c ≡ true
    → until p (cs ++ (c ∷ rest)) ≡ cs
until-append p [] c rest h e = rw e refl
until-append p (d ∷ cs) c rest (h, hs) e = rw h (ap (◌∷◌ d) (until-append p cs c rest hs e))

-- A line that ends in a newline and fits is read whole.
pub fgets_lines-line :
    (most room : ℕ) (cs rest : List ℕ)
    → IsFree (λ c. c == 10) cs
    → length cs < room
    → fgets_lines most room (cs ++ (10 ∷ rest)) ≡ (cs ++ (10 ∷ [])) ∷ fgets_lines most most rest
fgets_lines-line most room [] rest h b = refl
fgets_lines-line most room (c ∷ cs) rest (h, hs) b =
    let one : (room == 1) ≡ false = ne→not_== room 1 (λ e. omega (arith, e)) in
    rw (h, one) (ap (onto_first c) (fgets_lines-line most (room - 1) cs rest hs (omega arith)))
