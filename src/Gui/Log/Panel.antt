-- ===== src/Gui/Log/Panel.antt =====
-- What the log panel holds.
use wii_sec_u.Base.{
  ℕ, suc, ◌-◌, ◌≤◌, ◌≡◌, refl, sym, ap, subst, ◌∙◌, inl, inr, Bool, true, List, [], ◌∷◌, ◌++◌,
  length, drop, ltb, if◌then◌else◌, arith, Bool-cases, tests, length-append, append-nil,
}
use mathlib.Core.List.{append_assoc}
use wii_sec_u.Gui.Log.{LogLevel, level_number, Logger, pop_old, gui_log_sink, log_line, logv}

-- A level, a tag and a message.
abbrev pub Entry : Type 0
Entry = LogLevel × (List ℕ × List ℕ)

abbrev pub log_all : List Entry → Logger → Logger
log_all [] s = s
log_all ((level, (tag, message)) ∷ es) s = log_all es (logv level tag message s)

-- The lines of the entries at the threshold or above.
abbrev pub lines_of : LogLevel → List Entry → List (List ℕ)
lines_of threshold [] = []
lines_of threshold ((level, (tag, message)) ∷ es) =
    let rest = lines_of threshold es in
    if ltb (level_number level) (level_number threshold)
    then rest
    else log_line level tag message ∷ rest

pop_old-drop {ℓ} : {A : Type ℓ} (n : ℕ) (xs : List A) → pop_old n xs ≡ drop (length xs - n) xs
unfolding pop_old
pop_old-drop n [] = ground arith
pop_old-drop n (x ∷ xs) = elim (Bool-cases (ltb n (length (x ∷ xs)))) [
  | inl e ↦
      let step : length (x ∷ xs) - n ≡ suc (length xs - n) = omega (arith, tests, e) in
      rw e (pop_old-drop n xs ∙ ap (λ k. drop k (x ∷ xs)) (sym step))
  | inr e ↦
      let none_over : length (x ∷ xs) - n ≡ 0 = omega (arith, tests, e) in
      rw e (ap (λ k. drop k (x ∷ xs)) (sym none_over))
]

pop_old-append {ℓ} :
    {A : Type ℓ} (n : ℕ) (xs ys : List A) → pop_old n (pop_old n xs ++ ys) ≡ pop_old n (xs ++ ys)
unfolding pop_old
pop_old-append n [] ys = refl
pop_old-append n (x ∷ xs) ys = elim (Bool-cases (ltb n (length (x ∷ xs)))) [
  | inl e ↦
      let longer : ltb n (suc (length (xs ++ ys))) ≡ true = rw (length-append xs ys) ground arith in
      rw (e, longer) (pop_old-append n xs ys)
  | inr e ↦ rw e refl
]

-- Each line at the threshold or above is added, and the oldest ones go.
log_all-pop_old :
    (es : List Entry) (s : Logger)
    → s.has_log_sink ≡ true
    → pop_old 200 s.panel ≡ s.panel
    → ((log_all es s).panel ≡ pop_old 200 (s.panel ++ lines_of s.threshold es))
      × ((log_all es s).printed ≡ s.printed ++ lines_of s.threshold es)
unfolding logv gui_log_sink
log_all-pop_old [] s h k =
    (sym (ap (pop_old 200) (append-nil s.panel) ∙ k), sym (append-nil s.printed))
log_all-pop_old ((level, (tag, message)) ∷ es) s h k =
    let below = ltb (level_number level) (level_number s.threshold) in
    let line = log_line level tag message in
    let rest = lines_of s.threshold es in
    let added = s.panel ++ (line ∷ []) in
    let t : Logger = record s {
      printed = s.printed ++ (line ∷ []);
      panel = if s.has_log_sink then gui_log_sink line s.panel else s.panel;
    } in
    let Logs : Bool → Type 0 = λ b.
      ((log_all es (if b then s else t)).panel
        ≡ pop_old 200 (s.panel ++ (if b then rest else line ∷ rest)))
      × ((log_all es (if b then s else t)).printed
          ≡ s.printed ++ (if b then rest else line ∷ rest)) in
    let popped : t.panel ≡ pop_old 200 added =
      ap (λ b. if b then gui_log_sink line s.panel else s.panel) h in
    let settled : pop_old 200 t.panel ≡ t.panel =
      ap (pop_old 200) popped
      ∙ ap (pop_old 200) (sym (append-nil (pop_old 200 added)))
      ∙ pop_old-append 200 added []
      ∙ ap (pop_old 200) (append-nil added)
      ∙ sym popped in
    let (shown, out) = log_all-pop_old es t h settled in
    elim (Bool-cases below) [
      | inl e ↦ subst Logs (sym e) (log_all-pop_old es s h k)
      | inr e ↦ subst Logs (sym e) (
        shown
            ∙ ap (λ p. pop_old 200 (p ++ rest)) popped
            ∙ pop_old-append 200 added rest
            ∙ ap (pop_old 200) (append_assoc s.panel (line ∷ []) rest),
        out ∙ append_assoc s.printed (line ∷ []) rest,
      )
    ]

-- With guiLogSink set and at most 200 lines in the panel, after any messages the panel holds the last 200
-- of its lines and of the lines of the messages at the threshold or above, in order, or all of them
-- if there are fewer; and each of those lines is printed, in order.
pub log_all-newest :
    (es : List Entry) (s : Logger)
    → s.has_log_sink ≡ true
    → length s.panel ≤ 200
    → let lines = s.panel ++ lines_of s.threshold es in
      ((log_all es s).panel ≡ drop (length lines - 200) lines)
      × ((log_all es s).printed ≡ s.printed ++ lines_of s.threshold es)
log_all-newest es s h k =
    let lines = s.panel ++ lines_of s.threshold es in
    let none_over : length s.panel - 200 ≡ 0 = omega arith in
    let (shown, out) =
      log_all-pop_old es s h (pop_old-drop 200 s.panel ∙ ap (λ n. drop n s.panel) none_over) in
    (shown ∙ pop_old-drop 200 lines, out)
