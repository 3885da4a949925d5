-- ===== src/InputPlugin/Injection/Buttons/Edges.antt =====
-- The press and release edges of the samples that a game reads on a channel.
use wii_sec_u.Base.{
  ℕ, ◌+◌, ◌^◌, ◌<◌, ◌≡◌, refl, sym, ap, subst, Bool, true, false, not, ◌&&◌, List, [], ◌∷◌, length,
  get_or, set, if◌then◌else◌, arith, get_or-set_self, length-set,
}
use wii_sec_u.Protocol.Types.{InputState}
use wii_sec_u.InputPlugin.Injection.Buttons.{
  Floats, Sdk, ProStatus, has_bit, pro_hold_of, fill_pro_status,
}
use wii_sec_u.InputPlugin.Injection.Buttons.Bits.{has_bit-trigger, has_bit-release}

-- The samples of the states that channel `chan` is read with, and gPrevProHold after them.
abbrev pub fill_all :
    {F : Type 0} → Floats F → Sdk → ℕ → List InputState → List ℕ → List (ProStatus F) × List ℕ
fill_all fl k chan [] prevs = ([], prevs)
fill_all fl k chan (s ∷ ss) prevs =
    let (status, prevs1) = fill_pro_status fl k s chan prevs in
    let (rest, prevs2) = fill_all fl k chan ss prevs1 in (status ∷ rest, prevs2)

abbrev pub one_if : Bool → ℕ
one_if b = if b then 1 else 0

-- In how many samples the bit is a press, and a release.
abbrev pub presses : {F : Type 0} → ℕ → List (ProStatus F) → ℕ
presses i [] = 0
presses i (s ∷ ss) = one_if (has_bit i s.pro_trigger) + presses i ss

abbrev pub releases : {F : Type 0} → ℕ → List (ProStatus F) → ℕ
releases i [] = 0
releases i (s ∷ ss) = one_if (has_bit i s.pro_release) + releases i ss

one_edge :
    (held prev : Bool)
    → one_if prev + one_if (held && not prev) ≡ one_if held + one_if (prev && not held)
one_edge true true = refl
one_edge true false = refl
one_edge false true = refl
one_edge false false = refl

pro_hold_of-small :
    {F : Type 0} (fl : Floats F) (k : Sdk) (s : InputState) → pro_hold_of fl k s < 2 ^ 32
unfolding pro_hold_of
pro_hold_of-small fl k s = omega arith

-- Whatever states a channel is read with, the presses of a button that its samples report are as many as
-- the releases, one more if the button was up at first and is held at last, and one fewer if the other
-- way round: no press is reported twice and none is lost.
pub fill_all-balanced :
    {F : Type 0} (fl : Floats F) (k : Sdk) (i chan : ℕ) (ss : List InputState) (prevs : List ℕ)
    → i < 32
    → chan < length prevs
    → get_or prevs chan 0 < 2 ^ 32
    → let r = fill_all fl k chan ss prevs in
      one_if (has_bit i (get_or prevs chan 0)) + presses i r.0
      ≡ one_if (has_bit i (get_or r.1 chan 0)) + releases i r.0
unfolding fill_pro_status
fill_all-balanced fl k i chan [] prevs h c b = refl
fill_all-balanced fl k i chan (s ∷ ss) prevs h c b =
    let hold = pro_hold_of fl k s in
    let prev = get_or prevs chan 0 in
    let prevs1 = set prevs chan hold in
    let small = pro_hold_of-small fl k s in
    let now : get_or prevs1 chan 0 ≡ hold = get_or-set_self prevs chan hold 0 c in
    let rest =
      fill_all-balanced fl k i chan ss prevs1 h (omega (arith, length-set prevs chan hold))
        (subst (λ m. m < 2 ^ 32) (sym now) small) in
    let here = one_edge (has_bit i hold) (has_bit i prev) in
    let up = ap one_if (has_bit-trigger i hold prev h b) in
    let down = ap one_if (has_bit-release i hold prev h small) in
    let held = ap (λ m. one_if (has_bit i m)) now in omega (arith, rest, here, up, down, held)
