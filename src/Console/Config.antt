-- ===== src/Console/Config.antt =====
-- ConfigFile: a file of `key=value` lines. A text is the list of its characters' codes, and the file the
-- list of its bytes.
use wii_sec_u.Base.{
  length, length-take, ◌≤◌, arith, if-both, Option-cases, inl, inr, ℕ, zero, suc, Bool, true, false,
  ◌&&◌, ◌||◌, List, [], ◌∷◌, Option, none, some, take, ◌==◌, if◌then◌else◌,
}
use wii_sec_u.Base.All.{All}
use wii_sec_u.Base.Text.{same_text}
use wii_sec_u.Base.CString.{c_string, split_at, fgets_lines}
use wii_sec_u.Command.{atoi}

-- A key and a value.
abbrev pub Entry : Type 0
Entry = List ℕ × List ℕ

abbrev pub is_blank : ℕ → Bool
is_blank c = c == 10 || (c == 13 || c == 32)

abbrev pub is_empty : List ℕ → Bool
is_empty [] = true
is_empty (c ∷ cs) = false

-- The loop that takes newlines, carriage returns and spaces off the end.
unfoldable pub strip_end : List ℕ → List ℕ
strip_end [] = []
strip_end (c ∷ cs) = let rest = strip_end cs in if is_blank c && is_empty rest then [] else c ∷ rest

abbrev pub is_comment : List ℕ → Bool
is_comment [] = false
is_comment (c ∷ cs) = c == 35

-- The entry of a line, if it has one.
unfoldable pub line_entry : List ℕ → Option Entry
unfolding strip_end
line_entry line =
    let text = c_string line in
    if is_comment text then none else elim (split_at 61 text) [
      | none ↦ none
      | some (key, value) ↦ some (take 31 key, take 63 (strip_end value))
    ]

abbrev pub with_entry : Option Entry → List Entry → List Entry
with_entry none es = es
with_entry (some e) es = e ∷ es

abbrev pub one_less : Option Entry → ℕ → ℕ
one_less none room = suc room
one_less (some e) room = room

-- The loop over the lines, with room for so many entries.
unfoldable pub read_entries : ℕ → List (List ℕ) → List Entry
unfolding line_entry
read_entries zero ls = []
read_entries (suc room) [] = []
read_entries (suc room) (l ∷ ls) =
    let e = line_entry l in with_entry e (read_entries (one_less e room) ls)

-- The constructor; `none` stands for a file that does not open. The result is loaded_ and the entries.
unfoldable pub config_file : Option (List ℕ) → Bool × List Entry
unfolding read_entries
config_file none = (false, [])
config_file (some file) = (true, read_entries 16 (fgets_lines 127 127 file))

-- getInt, as the 32 bits of an `int`.
unfoldable pub get_int : (ℕ → ℕ) → List Entry → List ℕ → ℕ → ℕ
unfolding atoi
get_int fit [] key fallback = fallback
get_int fit ((k, v) ∷ es) key fallback =
    let later = get_int fit es key fallback in if same_text k key then atoi fit v else later

-- An entry fits in the arrays of 32 and 64 characters, with their NUL.
abbrev pub EntryFits : Entry → Type 0
EntryFits (k, v) = (length k ≤ 31) × (length v ≤ 63)

abbrev pub MaybeFits : Option Entry → Type 0
MaybeFits none = Unit
MaybeFits (some e) = EntryFits e

take-bound : (n : ℕ) (v : List ℕ) → length (take n v) ≤ n
take-bound n v = omega (arith, length-take n v)

line_entry-MaybeFits : (line : List ℕ) → MaybeFits (line_entry line)
unfolding line_entry
line_entry-MaybeFits line = elim (Option-cases (split_at 61 (c_string line))) [
  | inl e ↦ rw (e, line_entry) (if-both MaybeFits (is_comment (c_string line)) tt tt)
  | inr ((key, value), e) ↦
      rw (e, line_entry)
        (if-both MaybeFits (is_comment (c_string line)) tt
          (take-bound 31 key, take-bound 63 (strip_end value)))
]

kept_entries :
    (e : Option Entry) (room : ℕ) (es : List Entry)
    → MaybeFits e
    → length es ≤ one_less e room
    → All EntryFits es
    → (length (with_entry e es) ≤ suc room) × All EntryFits (with_entry e es)
kept_entries none room es f b h = (b, h)
kept_entries (some e) room es f b h = (omega arith, (f, h))

-- The constructor never has more entries than there is room for, and each of them fits in its arrays.
pub read_entries-All :
    (room : ℕ) (ls : List (List ℕ))
    → (length (read_entries room ls) ≤ room) × All EntryFits (read_entries room ls)
unfolding read_entries
read_entries-All zero ls = (omega arith, tt)
read_entries-All (suc room) [] = (omega arith, tt)
read_entries-All (suc room) (l ∷ ls) =
    let e = line_entry l in
    let (b, h) = read_entries-All (one_less e room) ls in
    kept_entries e room (read_entries (one_less e room) ls) (line_entry-MaybeFits l) b h
