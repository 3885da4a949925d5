-- ===== src/InputPlugin/Injection/Touch.antt =====
-- The range of the touch mapping, and the agreement of probe and read.
use wii_sec_u.Base.{ℕ, ◌≤◌, ◌<◌, ◌≡◌, refl, true, false, none, some, arith}
use wii_sec_u.Base.Int.{ℤ, pos, negsuc}
use wii_sec_u.InputPlugin.RemoteInput.{RemoteInput}
use wii_sec_u.InputPlugin.NetThread.{Switches}
use wii_sec_u.InputPlugin.Injection.{touch_max, touch_to_raw, kpad_inject, wpad_probe}

-- The mapping stays between 100 and 3996, keeps the order, and takes the ends of the normalized span
-- to the ends of the raw one.
pub touch_to_raw-bounds :
    (x y : ℕ)
    → x ≤ y
    → (100 ≤ touch_to_raw x)
      × (touch_to_raw x ≤ touch_to_raw y)
      × (touch_to_raw y ≤ 3996)
      × (touch_to_raw 0 ≡ 100)
      × (touch_to_raw touch_max ≡ 3996)
unfolding touch_to_raw
touch_to_raw-bounds x y h = ground arith

-- WPADProbe reports a controller exactly where a KPAD read with room for a sample is answered.
pub wpad_probe-kpad_inject :
    (w : Switches) (r : RemoteInput) (now : ℕ) (chan : ℤ) (size : ℕ)
    → 0 < size
    → wpad_probe w r now chan
      ≡ elim (kpad_inject w r now chan true size) [ some s ↦ true | none ↦ false ]
unfolding wpad_probe kpad_inject
wpad_probe-kpad_inject w r now (negsuc n) size h = refl
wpad_probe-kpad_inject w r now (pos c) size h = ground arith
