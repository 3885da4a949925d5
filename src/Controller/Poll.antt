-- ===== src/Controller/Poll.antt =====
-- What a controller's state is on the wire.
use wii_sec_u.Base.{
  ℕ, zero, suc, ◌^◌, ◌≤◌, ◌<◌, ◌≡◌, refl, ap, ◌∙◌, Bool, true, false, ltb, min, ◌/◌, ◌&&◌, ◌||◌,
  List, [], ◌∷◌, arith,
}
use wii_sec_u.Base.All.{All}
use wii_sec_u.Base.Int.{ℤ, pos, negsuc, IsI16}
use wii_sec_u.Protocol.Types.{InputState, input_state_init, InputFits}
use wii_sec_u.Protocol.Pkt
use wii_sec_u.Protocol.Pack.{pack_input}
use wii_sec_u.Protocol.Parse.{parse_input}
use wii_sec_u.Protocol.Roundtrip.{Received, pack_input-Received}
use wii_sec_u.InputPlugin.Injection.Buttons.{has_bit}
use wii_sec_u.Controller.{SdlPad, sdl_table, upward, trigger_byte, pulled, read_pad}
use wii_sec_u.Controller.Bits.{
  is_pressed, is_pressed-none, has_no_bit, has_bit-press_bits, press_bits-lt,
}

-- SDL's axes are `int16_t`.
pub record IsPad (p : SdlPad) : Type 0 where
  pub left_x_range : IsI16 p.axis_left_x
  pub left_y_range : IsI16 p.axis_left_y
  pub right_x_range : IsI16 p.axis_right_x
  pub right_y_range : IsI16 p.axis_right_y

upward-IsI16 : (v : ℤ) → IsI16 v → IsI16 (upward v)
upward-IsI16 (pos zero) h = ground arith
upward-IsI16 (pos (suc n)) h = ground arith
upward-IsI16 (negsuc n) h = ground arith

trigger_byte-lt : (v : ℤ) → trigger_byte v < 2 ^ 8
trigger_byte-lt (pos n) = omega arith
trigger_byte-lt (negsuc n) = omega arith

abbrev is_below : ℕ → List (Bool × ℕ) → Bool
is_below w [] = true
is_below w ((pressed, i) ∷ ps) = ltb i w && is_below w ps

all_below : (w : ℕ) (ps : List (Bool × ℕ)) → is_below w ps ≡ true → All (λ p. p.1 < w) ps
all_below w [] h = tt
all_below w ((pressed, i) ∷ ps) h = (ground (arith, h), all_below w ps (ground (arith, h)))

read_pad-InputFits :
    (slot : ℕ) (p : SdlPad)
    → slot < 2 ^ 8
    → IsPad p
    → InputFits (record (read_pad p) { slot = slot })
unfolding read_pad input_state_init
read_pad-InputFits slot p s f = record {
  slot_fits = s;
  flags_fits = ground arith;
  buttons_fits = press_bits-lt 32 (sdl_table p) 0 (all_below 32 (sdl_table p) refl) (ground arith);
  lx_fits = f.left_x_range;
  ly_fits = upward-IsI16 p.axis_left_y f.left_y_range;
  rx_fits = f.right_x_range;
  ry_fits = upward-IsI16 p.axis_right_y f.right_y_range;
  lt_fits = trigger_byte-lt p.axis_trigger_left;
  rt_fits = trigger_byte-lt p.axis_trigger_right;
  touch_x_fits = ground arith;
  touch_y_fits = ground arith;
  gyro_pitch_fits = ground arith;
  gyro_yaw_fits = ground arith;
  gyro_roll_fits = ground arith;
}

-- A trigger counts as a button when it is pulled over 16384 of 32767.
abbrev pub IsPulled : ℤ → Bool → Type 0
IsPulled (pos n) b = b ≡ ltb 16384 n
IsPulled (negsuc n) b = b ≡ false

-- The bit of the wire for each control of the controller, by its WSU_BTN number, and the axes: SDL's Y
-- grows downward, so that it is turned, and a trigger has seven bits of its fifteen left out.
pub record ShowsPad (p : SdlPad) (s : InputState) : Type 0 where
  pub bit_a : has_bit 0 s.buttons ≡ p.button_a
  pub bit_b : has_bit 1 s.buttons ≡ p.button_b
  pub bit_x : has_bit 2 s.buttons ≡ p.button_x
  pub bit_y : has_bit 3 s.buttons ≡ p.button_y
  pub bit_up : has_bit 4 s.buttons ≡ p.dpad_up
  pub bit_down : has_bit 5 s.buttons ≡ p.dpad_down
  pub bit_left : has_bit 6 s.buttons ≡ p.dpad_left
  pub bit_right : has_bit 7 s.buttons ≡ p.dpad_right
  pub bit_l : has_bit 8 s.buttons ≡ p.left_shoulder
  pub bit_r : has_bit 9 s.buttons ≡ p.right_shoulder
  pub bit_plus : has_bit 12 s.buttons ≡ p.start
  pub bit_minus : has_bit 13 s.buttons ≡ p.back
  pub bit_home : has_bit 14 s.buttons ≡ p.guide
  pub bit_stick_l : has_bit 15 s.buttons ≡ p.left_stick
  pub bit_stick_r : has_bit 16 s.buttons ≡ p.right_stick
  pub bit_zl : IsPulled p.axis_trigger_left (has_bit 10 s.buttons)
  pub bit_zr : IsPulled p.axis_trigger_right (has_bit 11 s.buttons)
  pub bit_others : (i : ℕ) → 17 ≤ i → has_bit i s.buttons ≡ false
  pub left_x : s.lx ≡ p.axis_left_x
  pub left_y : (n : ℕ) → p.axis_left_y ≡ negsuc n → s.ly ≡ pos (min 32767 (suc n))
  pub left_y_flat : p.axis_left_y ≡ pos 0 → s.ly ≡ pos 0
  pub left_y_down : (n : ℕ) → p.axis_left_y ≡ pos (suc n) → s.ly ≡ negsuc n
  pub right_x : s.rx ≡ p.axis_right_x
  pub right_y : (n : ℕ) → p.axis_right_y ≡ negsuc n → s.ry ≡ pos (min 32767 (suc n))
  pub right_y_flat : p.axis_right_y ≡ pos 0 → s.ry ≡ pos 0
  pub right_y_down : (n : ℕ) → p.axis_right_y ≡ pos (suc n) → s.ry ≡ negsuc n
  pub trigger_left : (n : ℕ) → p.axis_trigger_left ≡ pos n → n < 2 ^ 15 → s.lt ≡ n / 128
  pub trigger_right : (n : ℕ) → p.axis_trigger_right ≡ pos n → n < 2 ^ 15 → s.rt ≡ n / 128

button_bit : (i : ℕ) (p : SdlPad) → has_bit i (read_pad p).buttons ≡ is_pressed i (sdl_table p)
unfolding read_pad
button_bit i p =
    has_bit-press_bits i (sdl_table p) 0 ∙ ap (λ t. t || is_pressed i (sdl_table p)) (has_no_bit i)

or_false : (x : Bool) → (x || false) ≡ x
or_false true = refl
or_false false = refl

is_pulled : (v : ℤ) (b : Bool) → b ≡ (pulled v || false) → IsPulled v b
is_pulled (pos n) b e = e ∙ or_false (ltb 16384 n)
is_pulled (negsuc n) b e = e

upward-negsuc : (n : ℕ) (v : ℤ) → v ≡ negsuc n → upward v ≡ pos (min 32767 (suc n))
upward-negsuc n v e = rw e (ground arith)

trigger_byte-pos : (n : ℕ) (v : ℤ) → v ≡ pos n → n < 2 ^ 15 → trigger_byte v ≡ n / 128
trigger_byte-pos n v e h = rw e (omega arith)

read_pad-ShowsPad : (p : SdlPad) → ShowsPad p (read_pad p)
unfolding read_pad
read_pad-ShowsPad p = record {
  bit_a = button_bit 0 p ∙ or_false p.button_a;
  bit_b = button_bit 1 p ∙ or_false p.button_b;
  bit_x = button_bit 2 p ∙ or_false p.button_x;
  bit_y = button_bit 3 p ∙ or_false p.button_y;
  bit_up = button_bit 4 p ∙ or_false p.dpad_up;
  bit_down = button_bit 5 p ∙ or_false p.dpad_down;
  bit_left = button_bit 6 p ∙ or_false p.dpad_left;
  bit_right = button_bit 7 p ∙ or_false p.dpad_right;
  bit_l = button_bit 8 p ∙ or_false p.left_shoulder;
  bit_r = button_bit 9 p ∙ or_false p.right_shoulder;
  bit_plus = button_bit 12 p ∙ or_false p.start;
  bit_minus = button_bit 13 p ∙ or_false p.back;
  bit_home = button_bit 14 p ∙ or_false p.guide;
  bit_stick_l = button_bit 15 p ∙ or_false p.left_stick;
  bit_stick_r = button_bit 16 p ∙ or_false p.right_stick;
  bit_zl = is_pulled p.axis_trigger_left _ (button_bit 10 p);
  bit_zr = is_pulled p.axis_trigger_right _ (button_bit 11 p);
  bit_others = λ i h.
      button_bit i p ∙ is_pressed-none 17 i (sdl_table p) (all_below 17 (sdl_table p) refl) h;
  left_x = refl;
  left_y = λ n. upward-negsuc n p.axis_left_y;
  left_y_flat = ap upward;
  left_y_down = λ n. ap upward;
  right_x = refl;
  right_y = λ n. upward-negsuc n p.axis_right_y;
  right_y_flat = ap upward;
  right_y_down = λ n. ap upward;
  trigger_left = λ n. trigger_byte-pos n p.axis_trigger_left;
  trigger_right = λ n. trigger_byte-pos n p.axis_trigger_right;
}

-- The state of a controller whose axes are in the range of `int16_t`, sent with a slot, comes back as it is:
-- no field is cut to its width. And it shows the controller: each WSU_BTN bit is the button of that place,
-- the two trigger bits are the triggers pulled over 16384, no other bit is set, and the axes are passed on,
-- with Y turned and each trigger's value divided by 128.
pub read_pad-Received :
    (cap seq timestamp_ms slot : ℕ) (p : SdlPad)
    → 38 ≤ cap
    → seq < 2 ^ 16
    → timestamp_ms < 2 ^ 32
    → slot < 2 ^ 8
    → IsPad p
    → Received cap
        (pack_input cap seq timestamp_ms (record (read_pad p) { slot = slot }))
        Pkt.input
        seq
        parse_input
        (timestamp_ms, record (read_pad p) { slot = slot })
      × ShowsPad p (read_pad p)
unfolding read_pad
read_pad-Received cap seq timestamp_ms slot p room q h s f = (
  pack_input-Received cap seq timestamp_ms (record (read_pad p) { slot = slot }) room q h
      (read_pad-InputFits slot p s f),
  read_pad-ShowsPad p,
)
