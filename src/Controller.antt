-- ===== src/Controller.antt =====
-- pc/src/input: the controllers of a player, as what their poll gives. SDL's controller is a parameter:
-- which buttons are pressed, and where the axes are.
pub mod Bits
pub mod Poll
use wii_sec_u.Base.{
  ℕ, zero, suc, ◌-◌, ◌/◌, ◌%◌, ◌^◌, Bool, true, false, not, ◌||◌, List, [], ◌∷◌, ◌++◌, Option, none,
  some, bit_or, ltb, leb, ◌==◌, if◌then◌else◌,
}
use wii_sec_u.Base.Int.{ℤ, pos, negsuc}
use wii_sec_u.Protocol.Types.{InputState, input_state_init}

-- `if (pressed) out.buttons |= 1u << i;`, for each of a list.
unfoldable pub press_bits : List (Bool × ℕ) → ℕ → ℕ
press_bits [] v = v
press_bits ((pressed, i) ∷ rest) v = press_bits rest (if pressed then bit_or v (2 ^ i) else v)

abbrev pub stick_max : ℕ
stick_max = 32767

-- The stick of SyntheticBackend at a time of its square.
abbrev pub on_square : ℕ → InputState → InputState
on_square zero s = record s { lx = pos stick_max }
on_square (suc zero) s = record s { ly = pos stick_max }
on_square (suc (suc zero)) s = record s { lx = negsuc (stick_max - 1) }
on_square (suc (suc (suc n))) s = record s { ly = negsuc (stick_max - 1) }

-- SyntheticBackend::poll at a time
unfoldable pub synthetic_poll : Bool → ℕ → InputState
unfolding press_bits input_state_init
synthetic_poll scripted t =
    let out = input_state_init 0 in
    let walked = on_square (t / 500 % 4) out in
    if not scripted
    then out
    else record walked { buttons = press_bits ((t / 1000 % 2 == 1, 0) ∷ []) walked.buttons }

-- What SDL tells of a controller; an axis is an `int16_t`.
pub record SdlPad : Type 0 where
  pub button_a : Bool
  pub button_b : Bool
  pub button_x : Bool
  pub button_y : Bool
  pub dpad_up : Bool
  pub dpad_down : Bool
  pub dpad_left : Bool
  pub dpad_right : Bool
  pub left_shoulder : Bool
  pub right_shoulder : Bool
  pub start : Bool
  pub back : Bool
  pub guide : Bool
  pub left_stick : Bool
  pub right_stick : Bool
  pub axis_left_x : ℤ
  pub axis_left_y : ℤ
  pub axis_right_x : ℤ
  pub axis_right_y : ℤ
  pub axis_trigger_left : ℤ
  pub axis_trigger_right : ℤ

-- `static_cast<int16_t>(-std::max<int>(v, -32767))`
abbrev pub upward : ℤ → ℤ
upward (pos zero) = pos 0
upward (pos (suc n)) = negsuc n
upward (negsuc n) = if leb 32767 n then pos 32767 else pos (suc n)

-- `static_cast<uint8_t>(v >> 7)`
abbrev pub trigger_byte : ℤ → ℕ
trigger_byte (pos n) = n / 2 ^ 7 % 2 ^ 8
trigger_byte (negsuc n) = 2 ^ 8 - 1 - n / 2 ^ 7 % 2 ^ 8

-- `v > 16384`
abbrev pub pulled : ℤ → Bool
pulled (pos n) = ltb 16384 n
pulled (negsuc n) = false

-- The tests of poll, with the numbers of the WSU_BTN bits.
abbrev pub sdl_table : SdlPad → List (Bool × ℕ)
sdl_table p =
    (p.button_a, 0)
    ∷ (p.button_b, 1)
    ∷ (p.button_x, 2)
    ∷ (p.button_y, 3)
    ∷ (p.dpad_up, 4)
    ∷ (p.dpad_down, 5)
    ∷ (p.dpad_left, 6)
    ∷ (p.dpad_right, 7)
    ∷ (p.left_shoulder, 8)
    ∷ (p.right_shoulder, 9)
    ∷ (p.start, 12)
    ∷ (p.back, 13)
    ∷ (p.guide, 14)
    ∷ (p.left_stick, 15)
    ∷ (p.right_stick, 16)
    ∷ (pulled p.axis_trigger_left, 10)
    ∷ (pulled p.axis_trigger_right, 11)
    ∷ []

-- SdlBackend::poll from wsu_input_state_init on.
unfoldable pub read_pad : SdlPad → InputState
unfolding press_bits input_state_init
read_pad p = record (input_state_init 0) {
  buttons = press_bits (sdl_table p) 0;
  lx = p.axis_left_x;
  ly = upward p.axis_left_y;
  rx = p.axis_right_x;
  ry = upward p.axis_right_y;
  lt = trigger_byte p.axis_trigger_left;
  rt = trigger_byte p.axis_trigger_right;
}

-- A joystick of SDL's list: whether it is a game controller, and whether it opens.
abbrev pub Joystick : Type 0
Joystick = Bool × Bool

-- The loop of openFirstController from an index on; the result is the index of what is open.
abbrev pub first_from : ℕ → List Joystick → Option ℕ
first_from i [] = none
first_from i ((game, opens) ∷ rest) =
    let later = first_from (suc i) rest in if game then if opens then some i else later else later

-- With a controller that has just been opened, or with none.
abbrev pub opened_pad : (ℕ → SdlPad) → Option ℕ → Option ℕ × Option InputState
opened_pad pad_of none = (none, none)
opened_pad pad_of (some i) = (some i, some (read_pad (pad_of i)))

-- SdlBackend::poll: the controller that is open, whether it is attached, SDL's list, and what each tells.
unfoldable pub sdl_poll :
    List Joystick → (ℕ → Bool) → (ℕ → SdlPad) → Option ℕ → Option ℕ × Option InputState
unfolding read_pad
sdl_poll sticks attached pad_of none = opened_pad pad_of (first_from 0 sticks)
sdl_poll sticks attached pad_of (some i) =
    if attached i
    then (some i, some (read_pad (pad_of i)))
    else opened_pad pad_of (first_from 0 sticks)
