-- ===== src/InputPlugin/Injection/Buttons.antt =====
-- wiiu/input-plugin/src/injection.cpp: the button tables, the stick emulation and the sample of a Pro
-- Controller. The console SDK's constants and the arithmetic on `float` are parameters.
pub mod Bits
pub mod Edges
use wii_sec_u.Base.{
  ℕ, zero, suc, ◌-◌, ◌/◌, ◌%◌, ◌^◌, Bool, true, false, not, List, [], ◌∷◌, Option, none, some,
  get_or, set, ◌==◌, if◌then◌else◌, bit_and, bit_or,
}
use wii_sec_u.Base.Int.{ℤ, pos, negsuc}
use wii_sec_u.Protocol.Types.{InputState}

-- VPAD_BUTTON_*, or WPAD_PRO_BUTTON_* and WPAD_PRO_TRIGGER_*
pub record Buttons : Type 0 where
  pub button_a : ℕ
  pub button_b : ℕ
  pub button_x : ℕ
  pub button_y : ℕ
  pub button_up : ℕ
  pub button_down : ℕ
  pub button_left : ℕ
  pub button_right : ℕ
  pub button_l : ℕ
  pub button_r : ℕ
  pub button_zl : ℕ
  pub button_zr : ℕ
  pub button_plus : ℕ
  pub button_minus : ℕ
  pub button_home : ℕ
  pub button_stick_l : ℕ
  pub button_stick_r : ℕ

-- VPAD_STICK_*_EMULATION_*, or WPAD_PRO_STICK_*_EMULATION_*
pub record Emulation : Type 0 where
  pub l_left : ℕ
  pub l_right : ℕ
  pub l_up : ℕ
  pub l_down : ℕ
  pub r_left : ℕ
  pub r_right : ℕ
  pub r_up : ℕ
  pub r_down : ℕ

pub record Sdk : Type 0 where
  pub vpad : Buttons
  pub vpad_tv : ℕ
  pub vpad_emulation : Emulation
  pub pro : Buttons
  pub pro_emulation : Emulation

pub record Floats (F : Type 0) : Type 0 where
  pub of_int : ℤ → F
  pub over : F → F → F
  pub minus : F → F
  pub is_less : F → F → Bool
  pub zero_float : F
  pub half : F

-- Bit `i` of a number.
abbrev pub has_bit : ℕ → ℕ → Bool
has_bit zero n = n % 2 == 1
has_bit (suc i) n = has_bit i (n / 2)

-- `if (b & 1u << i) v |= constant;`, for each of a table.
unfoldable pub or_bits : List (ℕ × ℕ) → ℕ → ℕ → ℕ
or_bits [] b v = v
or_bits ((i, constant) ∷ rest) b v = or_bits rest b (if has_bit i b then bit_or v constant else v)

-- The numbers of the WSU_BTN bits.
abbrev pub button_table : Buttons → List (ℕ × ℕ)
button_table k =
    (0, k.button_a)
    ∷ (1, k.button_b)
    ∷ (2, k.button_x)
    ∷ (3, k.button_y)
    ∷ (4, k.button_up)
    ∷ (5, k.button_down)
    ∷ (6, k.button_left)
    ∷ (7, k.button_right)
    ∷ (8, k.button_l)
    ∷ (9, k.button_r)
    ∷ (10, k.button_zl)
    ∷ (11, k.button_zr)
    ∷ (12, k.button_plus)
    ∷ (13, k.button_minus)
    ∷ (14, k.button_home)
    ∷ (15, k.button_stick_l)
    ∷ (16, k.button_stick_r)
    ∷ []

unfoldable pub map_buttons_to_vpad : Sdk → ℕ → ℕ
unfolding or_bits
map_buttons_to_vpad k b = or_bits ((17, k.vpad_tv) ∷ []) b (or_bits (button_table k.vpad) b 0)

unfoldable pub map_buttons_to_pro : Sdk → ℕ → ℕ
unfolding or_bits
map_buttons_to_pro k b = or_bits (button_table k.pro) b 0

abbrev pub or_if : Bool → ℕ → ℕ → ℕ
or_if test constant v = if test then bit_or v constant else v

module _ {F : Type 0} (fl : Floats F) where
  -- `static_cast<float>(v) / static_cast<float>(WSU_STICK_MAX)`
  abbrev pub wire_to_float : ℤ → F
  wire_to_float v = fl.over (fl.of_int v) (fl.of_int (pos 32767))

  abbrev pub absf : F → F
  absf v = if fl.is_less v fl.zero_float then fl.minus v else v

  -- The body of vpadStickEmulation and of proStickEmulation, which differ in the constants.
  unfoldable pub stick_emulation : Emulation → F → F → F → F → ℕ
  stick_emulation k lx ly rx ry =
      let below : F → Bool = λ v. fl.is_less v (fl.minus fl.half) in
      let above : F → Bool = λ v. fl.is_less fl.half v in
      or_if (below ry) k.r_down (
        or_if (above ry) k.r_up (
          or_if (above rx) k.r_right (
            or_if (below rx) k.r_left (
              or_if (below ly) k.l_down (
                or_if (above ly) k.l_up
                  (or_if (above lx) k.l_right (or_if (below lx) k.l_left 0)))))))

  unfoldable pub vpad_stick_emulation : Sdk → F → F → F → F → ℕ
  unfolding stick_emulation
  vpad_stick_emulation k lx ly rx ry = stick_emulation k.vpad_emulation lx ly rx ry

  unfoldable pub pro_stick_emulation : Sdk → F → F → F → F → ℕ
  unfolding stick_emulation
  pro_stick_emulation k lx ly rx ry = stick_emulation k.pro_emulation lx ly rx ry

-- `~n` of a `uint32_t`
abbrev pub complement : ℕ → ℕ
complement n = 2 ^ 32 - 1 - n % 2 ^ 32

-- The edges of the buttons held now against the ones held before.
abbrev pub trigger_of : ℕ → ℕ → ℕ
trigger_of hold prev = bit_and hold (complement prev)

abbrev pub release_of : ℕ → ℕ → ℕ
release_of hold prev = bit_and prev (complement hold)

-- What fillProStatus writes of a KPADStatus that is not constant.
pub record ProStatus (F : Type 0) : Type 0 where
  pub pro_hold : ℕ
  pub pro_trigger : ℕ
  pub pro_release : ℕ
  pub left_x : F
  pub left_y : F
  pub right_x : F
  pub right_y : F

unfoldable pub pro_hold_of : {F : Type 0} → Floats F → Sdk → InputState → ℕ
unfolding map_buttons_to_pro pro_stick_emulation
pro_hold_of fl k s =
    bit_or (map_buttons_to_pro k s.buttons) (
      pro_stick_emulation fl k (wire_to_float fl s.lx) (wire_to_float fl s.ly)
        (wire_to_float fl s.rx) (wire_to_float fl s.ry))
    % 2 ^ 32

-- fillProStatus on gPrevProHold.
unfoldable pub fill_pro_status :
    {F : Type 0} → Floats F → Sdk → InputState → ℕ → List ℕ → ProStatus F × List ℕ
fill_pro_status fl k s chan prevs =
    let hold = pro_hold_of fl k s in
    let prev = get_or prevs chan 0 in
    (
      record {
        pro_hold = hold;
        pro_trigger = trigger_of hold prev;
        pro_release = release_of hold prev;
        left_x = wire_to_float fl s.lx;
        left_y = wire_to_float fl s.ly;
        right_x = wire_to_float fl s.rx;
        right_y = wire_to_float fl s.ry;
      },
      set prevs chan hold,
    )
