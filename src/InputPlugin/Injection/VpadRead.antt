-- ===== src/InputPlugin/Injection/VpadRead.antt =====
-- wiiu/input-plugin/src/injection.cpp: my_VPADRead, and the hooks of the KPAD and WPAD functions with what
-- the system's functions give.
use wii_sec_u.Base.{
  ℕ, zero, suc, ◌%◌, ◌^◌, Bool, true, false, not, ◌&&◌, List, none, some, ◌==◌, if◌then◌else◌,
  bit_or,
}
use wii_sec_u.Base.Int.{ℤ, pos, negsuc}
use wii_sec_u.Protocol.Types.{InputState}
use wii_sec_u.InputPlugin.RemoteInput.{RemoteInput, remote_get}
use wii_sec_u.InputPlugin.NetThread.{Switches, slot_injection_enabled}
use wii_sec_u.InputPlugin.Injection.{touch_to_raw, kpad_inject, wpad_probe}
use wii_sec_u.InputPlugin.Injection.Buttons.{
  Floats, Sdk, ProStatus, has_bit, map_buttons_to_vpad, vpad_stick_emulation, wire_to_float, absf,
  trigger_of, release_of, fill_pro_status,
}

pub record TouchData : Type 0 where
  pub touch_x_raw : ℕ
  pub touch_y_raw : ℕ
  pub touched : ℕ
  pub validity : ℕ

-- What the hook uses of a VPADStatus.
pub record VpadStatus (F : Type 0) : Type 0 where
  pub hold : ℕ
  pub trigger : ℕ
  pub release : ℕ
  pub left_stick_x : F
  pub left_stick_y : F
  pub right_stick_x : F
  pub right_stick_y : F
  pub tp_normal : TouchData
  pub tp_filtered1 : TouchData
  pub tp_filtered2 : TouchData
  pub battery : ℕ

-- What real_VPADRead gives: its result, its error and sample 0. `read_success` and `valid` are
-- VPAD_READ_SUCCESS and VPAD_VALID.
pub record RealRead (F : Type 0) : Type 0 where
  pub result : ℤ
  pub error : ℕ
  pub sample : VpadStatus F
  pub read_success : ℕ
  pub valid : ℕ

abbrev pub is_positive : ℤ → Bool
is_positive (pos zero) = false
is_positive (pos (suc n)) = true
is_positive (negsuc n) = false

-- What the hook returns and writes; `prev_hold` is gPrevVpadHold after it.
pub record HookRead (F : Type 0) : Type 0 where
  pub hook_result : ℤ
  pub hook_error : ℕ
  pub hook_sample : VpadStatus F
  pub prev_hold : ℕ

module _ {F : Type 0} (fl : Floats F) (k : Sdk) where
  abbrev pub no_touch : TouchData
  no_touch = record { touch_x_raw = 0; touch_y_raw = 0; touched = 0; validity = 0 }

  -- The sample after the memset, with its battery.
  abbrev pub blank_sample : VpadStatus F
  blank_sample = record {
    hold = 0;
    trigger = 0;
    release = 0;
    left_stick_x = fl.zero_float;
    left_stick_y = fl.zero_float;
    right_stick_x = fl.zero_float;
    right_stick_y = fl.zero_float;
    tp_normal = no_touch;
    tp_filtered1 = no_touch;
    tp_filtered2 = no_touch;
    battery = 6;
  }

  -- `if (absf(remote) > absf(local)) local = remote;`
  abbrev pub further : F → F → F
  further remote real = if fl.is_less (absf fl real) (absf fl remote) then remote else real

  unfoldable pub touch_of : ℕ → InputState → TouchData
  unfolding touch_to_raw
  touch_of valid s = record {
    touch_x_raw = touch_to_raw s.touch_x;
    touch_y_raw = touch_to_raw s.touch_y;
    touched = 1;
    validity = valid;
  }

  unfoldable pub remote_hold : InputState → ℕ
  unfolding map_buttons_to_vpad vpad_stick_emulation
  remote_hold s = bit_or (map_buttons_to_vpad k s.buttons) (
      vpad_stick_emulation fl k (wire_to_float fl s.lx) (wire_to_float fl s.ly)
        (wire_to_float fl s.rx) (wire_to_float fl s.ry))

  -- The remote state merged over a sample that holds `real`.
  unfoldable pub merge_sample : ℕ → InputState → ℕ → ℕ → VpadStatus F → VpadStatus F
  unfolding touch_of remote_hold
  merge_sample valid s real prev st =
      let hold = bit_or real (remote_hold s) % 2 ^ 32 in
      let touching = has_bit 0 s.flags in
      let touch = touch_of valid s in
      record st {
        hold = hold;
        trigger = trigger_of hold prev;
        release = release_of hold prev;
        left_stick_x = further (wire_to_float fl s.lx) st.left_stick_x;
        left_stick_y = further (wire_to_float fl s.ly) st.left_stick_y;
        right_stick_x = further (wire_to_float fl s.rx) st.right_stick_x;
        right_stick_y = further (wire_to_float fl s.ry) st.right_stick_y;
        tp_normal = if touching then touch else st.tp_normal;
        tp_filtered1 = if touching then touch else st.tp_filtered1;
        tp_filtered2 = if touching then touch else st.tp_filtered2;
      }

  -- The part of the hook on a live remote state.
  unfoldable pub vpad_inject : RealRead F → InputState → ℕ → HookRead F
  unfolding merge_sample
  vpad_inject real s prev =
      let fresh = is_positive real.result && (real.error == real.read_success) in
      let st : VpadStatus F = if fresh then real.sample else blank_sample in
      let merged = merge_sample real.valid s (if fresh then st.hold else 0) prev st in
      record {
        hook_result = if fresh then real.result else pos 1;
        hook_error = if fresh then real.error else real.read_success;
        hook_sample = merged;
        prev_hold = merged.hold;
      }

  -- The part on no remote state.
  unfoldable pub vpad_track : RealRead F → ℕ → HookRead F
  vpad_track real prev = record {
    hook_result = real.result;
    hook_error = real.error;
    hook_sample = real.sample;
    prev_hold =
        if is_positive real.result && (real.error == real.read_success)
        then real.sample.hold
        else prev;
  }

  -- my_VPADRead. `usable` is whether the channel is VPAD_CHAN_0 and there is room for a sample.
  unfoldable pub vpad_read : Switches → RemoteInput → ℕ → Bool → RealRead F → ℕ → HookRead F
  unfolding vpad_inject vpad_track
  vpad_read w r now usable real prev =
      let untouched : HookRead F = record {
        hook_result = real.result;
        hook_error = real.error;
        hook_sample = real.sample;
        prev_hold = prev;
      } in
      if not usable
      then untouched
      else if slot_injection_enabled w 0
      then elim (remote_get 0 now r) [
        | some s ↦ vpad_inject real s prev
        | none ↦ vpad_track real prev
      ]
      else vpad_track real prev

  -- my_KPADReadEx and my_KPADRead, which differ in where the error goes: the count of samples and the
  -- first of them, from the hook or from the system's function, and gPrevProHold.
  unfoldable pub kpad_read :
      Switches
      → RemoteInput
      → ℕ
      → ℤ
      → Bool
      → ℕ
      → ℕ × ProStatus F
      → List ℕ
      → (ℕ × ProStatus F) × List ℕ
  unfolding kpad_inject fill_pro_status
  kpad_read w r now (negsuc n) has_data size real prevs = (real, prevs)
  kpad_read w r now (pos chan) has_data size real prevs =
      elim (kpad_inject w r now (pos chan) has_data size) [
        | some s ↦ let (status, prevs1) = fill_pro_status fl k s chan prevs in ((1, status), prevs1)
        | none ↦ (real, prevs)
      ]

  -- my_WPADProbe, with the result of the system's function and the extension type that it writes;
  -- `pro_controller` is WPAD_EXT_PRO_CONTROLLER.
  unfoldable pub wpad_probe_hook : Switches → RemoteInput → ℕ → ℤ → ℕ → ℤ × ℕ → ℤ × ℕ
  unfolding wpad_probe
  wpad_probe_hook w r now chan pro_controller real =
      if wpad_probe w r now chan then (pos 0, pro_controller) else real
