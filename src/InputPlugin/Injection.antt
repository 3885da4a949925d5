-- ===== src/InputPlugin/Injection.antt =====
-- wiiu/input-plugin/src/injection.cpp: which reads the hooks answer, and the touch mapping.
pub mod Touch
pub mod Buttons
pub mod VpadRead
use wii_sec_u.Base.{
  ℕ, ◌+◌, ◌*◌, ◌/◌, ◌-◌, ◌%◌, ◌^◌, Bool, true, false, not, ◌&&◌, ◌||◌, Option, none, some, ltb, leb,
  ◌==◌, if◌then◌else◌,
}
use wii_sec_u.Base.Int.{ℤ, pos, negsuc}
use wii_sec_u.Protocol.Types.{InputState}
use wii_sec_u.InputPlugin.RemoteInput.{RemoteInput, remote_get}
use wii_sec_u.InputPlugin.NetThread.{Switches, slot_injection_enabled}

abbrev pub touch_max : ℕ
touch_max = 4095

unfoldable pub touch_to_raw : ℕ → ℕ
touch_to_raw normalized =
    (100 + (if ltb touch_max normalized then touch_max else normalized) * (3996 - 100) / touch_max)
    % 2 ^ 16

-- The state that fillProStatus turns into the sample of channel `chan`, or `none` for UINT32_MAX, on
-- which the hook calls the system's function. `has_data` is `data != nullptr`.
unfoldable pub kpad_inject : Switches → RemoteInput → ℕ → ℤ → Bool → ℕ → Option InputState
kpad_inject w r now (negsuc n) has_data size = none
kpad_inject w r now (pos c) has_data size =
    if ltb 2 c || not has_data || (size == 0)
    then none
    else if slot_injection_enabled w (c + 1)
    then remote_get (c + 1) now r
    else none

-- Whether WPADProbe reports a controller of its own.
unfoldable pub wpad_probe : Switches → RemoteInput → ℕ → ℤ → Bool
wpad_probe w r now (negsuc n) = false
wpad_probe w r now (pos chan) =
    if ltb 2 chan
    then false
    else if slot_injection_enabled w (chan + 1)
    then elim (remote_get (chan + 1) now r) [ some s ↦ true | none ↦ false ]
    else false
