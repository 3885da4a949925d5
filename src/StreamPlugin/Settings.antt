-- ===== src/StreamPlugin/Settings.antt =====
-- wiiu/stream-plugin/src/main.cpp: the presets, the callbacks of the configuration menu and the settings
-- that are read when an application starts. What the storage holds is an argument.
use wii_sec_u.Base.{
  ℕ, zero, suc, ◌≤◌, ◌<◌, ◌≡◌, Bool, List, [], ◌∷◌, get_or, ltb, if◌then◌else◌, arith,
}
use wii_sec_u.Base.Int.{ℤ, pos, negsuc}
use wii_sec_u.StreamPlugin.Net.{StreamConfig, wire_config}
use wii_sec_u.StreamPlugin.Encoder.{out_size, max_out_w, max_out_h}

-- kPresets: a width and a height.
abbrev pub presets : List (ℕ × ℕ)
presets = (214, 120) ∷ (428, 240) ∷ (640, 360) ∷ (854, 480) ∷ []

abbrev pub default_preset : ℕ
default_preset = 1

-- gConfig and gPresetIndex
pub record Settings : Type 0 where
  pub config : StreamConfig
  pub preset_index : ℕ

-- The index that applyPreset takes for an `int`.
unfoldable pub preset_in_range : ℤ → ℕ
preset_in_range (negsuc n) = default_preset
preset_in_range (pos n) = if ltb n 4 then n else default_preset

unfoldable pub apply_preset : ℤ → Settings → Settings
unfolding preset_in_range
apply_preset index s =
    let i = preset_in_range index in
    let (w, h) = get_or presets i (0, 0) in
    record s { preset_index = i; config = record s.config { width = w; height = h } }

-- The settings that the menu's callbacks change; what they store is left out. Its sliders give values
-- in their range.
unfoldable pub fps_changed : ℕ → Settings → Settings
fps_changed n s = record s { config = record s.config { fps = n } }

unfoldable pub quality_changed : ℕ → Settings → Settings
quality_changed n s = record s { config = record s.config { quality = n } }

unfoldable pub audio_changed : Bool → Settings → Settings
audio_changed on s = record s { config = record s.config { audio = on } }

-- `n < low ? low : (n > high ? high : n)`
unfoldable pub clamp_int : ℕ → ℕ → ℤ → ℕ
clamp_int low high (negsuc n) = low
clamp_int low high (pos n) = if ltb n low then low else if ltb high n then high else n

-- What GetOrStoreDefault gives for the four keys.
pub record Stored : Type 0 where
  pub stored_preset : ℤ
  pub stored_fps : ℤ
  pub stored_quality : ℤ
  pub stored_audio : Bool

unfoldable pub load_settings : Stored → Settings → Settings
unfolding apply_preset clamp_int
load_settings stored s =
    let applied = apply_preset stored.stored_preset s in
    record applied {
      config = record applied.config {
        fps = clamp_int 5 30 stored.stored_fps;
        quality = clamp_int 10 95 stored.stored_quality;
        audio = stored.stored_audio;
      };
    }

-- What the rest of the plugin needs of the settings.
pub record IsUsable (c : StreamConfig) : Type 0 where
  pub width_low : 16 ≤ c.width
  pub width_high : c.width ≤ max_out_w
  pub height_low : 16 ≤ c.height
  pub height_high : c.height ≤ max_out_h
  pub fps_low : 5 ≤ c.fps
  pub fps_high : c.fps ≤ 30
  pub quality_low : 10 ≤ c.quality
  pub quality_high : c.quality ≤ 95

clamp_int-bounds :
    (low high : ℕ) (n : ℤ)
    → low ≤ high
    → (low ≤ clamp_int low high n) × (clamp_int low high n ≤ high)
unfolding clamp_int
clamp_int-bounds low high (negsuc n) h = (omega arith, h)
clamp_int-bounds low high (pos n) h = ground arith

abbrev IsPreset : ℕ → Type 0
IsPreset i =
    let (w, h) = get_or presets i (0, 0) in (16 ≤ w) × (w ≤ max_out_w) × (16 ≤ h) × (h ≤ max_out_h)

presets-IsPreset : (i : ℕ) → i < 4 → IsPreset i
presets-IsPreset zero b = (omega arith, omega arith, omega arith, omega arith)
presets-IsPreset (suc zero) b = (omega arith, omega arith, omega arith, omega arith)
presets-IsPreset (suc (suc zero)) b = (omega arith, omega arith, omega arith, omega arith)
presets-IsPreset (suc (suc (suc zero))) b = (omega arith, omega arith, omega arith, omega arith)
presets-IsPreset (suc (suc (suc (suc i)))) b = absurd (omega arith)

preset_in_range-below : (index : ℤ) → preset_in_range index < 4
unfolding preset_in_range
preset_in_range-below (negsuc n) = omega arith
preset_in_range-below (pos n) = ground arith

out_size-same : (most n : ℕ) → 16 ≤ n → n ≤ most → out_size most n ≡ n
out_size-same most n l h = ground arith

-- Whatever integers the storage holds, the settings that are loaded are usable: the picture is one of
-- the presets, which the encoder takes as it is, and the configuration that the console announces says
-- the size, the rate and the quality without loss to its 16 and 8 bits.
pub load_settings-IsUsable :
    (stored : Stored) (s : Settings)
    → let c = (load_settings stored s).config in
      IsUsable c
      × (out_size max_out_w c.width ≡ c.width)
      × (out_size max_out_h c.height ≡ c.height)
      × ((wire_config c).width ≡ c.width)
      × ((wire_config c).height ≡ c.height)
      × ((wire_config c).fps ≡ c.fps)
      × ((wire_config c).quality ≡ c.quality)
unfolding load_settings apply_preset
load_settings-IsUsable stored s =
    let (wl, wh, hl, hh) =
      presets-IsPreset (preset_in_range stored.stored_preset)
        (preset_in_range-below stored.stored_preset) in
    let (fl, fh) = clamp_int-bounds 5 30 stored.stored_fps (omega arith) in
    let (ql, qh) = clamp_int-bounds 10 95 stored.stored_quality (omega arith) in
    (
      record {
        width_low = wl;
        width_high = wh;
        height_low = hl;
        height_high = hh;
        fps_low = fl;
        fps_high = fh;
        quality_low = ql;
        quality_high = qh;
      },
      out_size-same _ _ wl wh,
      out_size-same _ _ hl hh,
      omega arith,
      omega arith,
      omega arith,
      omega arith,
    )
