-- ===== src/Command/Flags.antt =====
-- The value of a flag.
use wii_sec_u.Base.{
  ℕ, ◌≡◌, refl, true, false, List, [], ◌∷◌, ◌++◌, some, ==_refl, Bool-cases, inl, inr, arith,
}
use wii_sec_u.Base.Text.{same_text}
use wii_sec_u.Command.{Args, value_after, is_among}

same_text_refl : (t : List ℕ) → same_text t t ≡ true
same_text_refl [] = refl
same_text_refl (c ∷ t) = rw (==_refl c) (same_text_refl t)

-- The first place of a flag that has a value decides: what comes before it is not the flag.
pub value_after_lem :
    (flag v : List ℕ) (before after : Args)
    → is_among flag before ≡ false
    → value_after flag (before ++ (flag ∷ v ∷ after)) ≡ some v
value_after_lem flag v [] after h = rw (same_text_refl flag) refl
value_after_lem flag v (a ∷ []) after h = elim (Bool-cases (same_text a flag)) [
  | inl e ↦ absurd (ground (arith, e, h))
  | inr e ↦ rw e (value_after_lem flag v [] after refl)
]
value_after_lem flag v (a ∷ b ∷ before) after h = elim (Bool-cases (same_text a flag)) [
  | inl e ↦ absurd (ground (arith, e, h))
  | inr e ↦ rw e (value_after_lem flag v (b ∷ before) after (rw e at h))
]
