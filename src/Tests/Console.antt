-- ===== src/Tests/Console.antt =====
-- The console's picture: surfaces between the capture hook and the encoder, and the downscaling.
use wii_sec_u.Base.{
  ℕ, zero, suc, ◌+◌, ◌*◌, get_or, ◌/◌, ◌<◌, ◌≤◌, ◌≡◌, refl, true, false, List, [], ◌∷◌, ◌++◌,
  Option, none, some, length, ltb, if◌then◌else◌, lt→ltb, arith,
}
use wii_sec_u.StreamPlugin.Surface.{
  Surface, CapturedSurface, Capture, System, waiting, reading, slot_at, empty_slot, no_captured,
}
use wii_sec_u.StreamPlugin.Capture.{on_tv_scanout, capture_init}
use wii_sec_u.StreamPlugin.Capture.Keep.{Keeps}
use wii_sec_u.Base.Int.{pos, negsuc}
use wii_sec_u.StreamPlugin.Net.{Net, wire_config}
use wii_sec_u.StreamPlugin.Settings.{
  Settings, Stored, IsUsable, load_settings, load_settings-IsUsable,
}
use wii_sec_u.StreamPlugin.Audio.Tap.{no_callback, foreign}
use wii_sec_u.StreamPlugin.Life.{
  Plugin, Given, application_start, application_end, application_start-Reach,
}
use wii_sec_u.StreamPlugin.Encoder.Downscale.{Readable, channel, downscale_lem}
use wii_sec_u.StreamPlugin.Encoder.{
  take_message, downscale, jpeg_cap, out_size, max_out_w, max_out_h,
}
use wii_sec_u.StreamPlugin.Encoder.Session.{owned, IsSession, HasQueue}
use wii_sec_u.StreamPlugin.Encoder.Session.Run.{
  Reach, begin, next, scanned, taken, Reach-IsSession, reading_kept,
}
use wii_sec_u.StreamPlugin.Encoder.Session.Idle.{pass, idle_passes}

abbrev console : System
console = record {
  pitch_of = λ w h f. w;
  size_of = λ w h f. 4 * w * h;
  aa_mode_1x = 0;
  format_unorm = 26;
  format_srgb = 1050;
  send_message = λ size q m. if ltb (length q) size then some (q ++ (m ∷ [])) else none;
}

console-HasQueue : HasQueue console
console-HasQueue size q m h = rw (lt→ltb (length q) size h) refl

-- The plugin has just started.
abbrev started : Capture
started = capture_init (record {
  slots = empty_slot ∷ empty_slot ∷ [];
  captured = no_captured ∷ no_captured ∷ [];
  last_capture_ms = 0;
  initialized = false;
  format_warned = false;
  queue = [];
  encoder_running = true;
  phase = waiting;
})

none_busy : (i : ℕ) → i < 2 → 0 ≡ owned (slot_at started i).state
unfolding capture_init
none_busy zero h = refl
none_busy (suc zero) h = refl
none_busy (suc (suc i)) h = absurd (omega arith)

started-IsSession : IsSession started
unfolding capture_init
started-IsSession = record {
  accounts = record { two = refl; surfaces = tt; reader = tt; accounted = none_busy };
}

abbrev picture : Surface
picture = record { width = 1280; height = 720; format = 26; pitch = 1280; image_size = 3686400 }

abbrev heap : ℕ → Option ℕ
heap size = some 4096

abbrev scan_at : ℕ → Capture → Capture
scan_at now c = on_tv_scanout console heap true 20 (some (picture, 0)) now c

-- Two scan-outs: the copy is issued at 100 and handed over at 116.
abbrev handed : Capture
handed = scan_at 116 (scan_at 100 started)

handed-Reach : Reach console started handed
handed-Reach =
    next (scan_at 100 started) handed
      (next started (scan_at 100 started) begin
        (scanned heap true 20 (some (picture, 0)) 100 started))
      (scanned heap true 20 (some (picture, 0)) 116 (scan_at 100 started))

handed-waiting : handed.phase ≡ waiting
unfolding on_tv_scanout capture_init
handed-waiting = refl

-- The encoder takes surface 0.
abbrev reader : Capture
reader = take_message handed

reader-Reach : Reach console started reader
reader-Reach = next handed reader handed-Reach (taken handed handed-waiting)

reader-phase : reader.phase ≡ reading 0
unfolding take_message on_tv_scanout capture_init
reader-phase = refl

reading_kept_example : Keeps 0 reader (scan_at 200 reader)
reading_kept_example =
    reading_kept console started reader 0 heap true 20 (some (picture, 0)) 200 console-HasQueue
      started-IsSession reader-Reach reader-phase

abbrev quiet : Net
quiet = record {
  config = record { width = 854; height = 480; fps = 20; quality = 75; audio = false };
  sock_open = false;
  host_active = false;
  host_addr = record { addr = 0; port = 0 };
  last_host_seen_ms = 0;
  tx_seq = 0;
  last_config_ms = 0;
  frame_id = 0;
  ring = record { cells = []; head = 0; tail = 0 };
}

abbrev no_bytes : List ℕ
no_bytes = []

idle_passes_example :
    let d = pass quiet no_bytes (pass quiet no_bytes handed) in
    (d.phase ≡ waiting) × (length d.queue ≡ 0) × ((i : ℕ) → i < 2 → owned (slot_at d i).state ≡ 0)
idle_passes_example =
    idle_passes console quiet no_bytes no_bytes handed console-HasQueue
      (Reach-IsSession console started handed console-HasQueue started-IsSession handed-Reach).0
      handed-waiting

-- A picture of two pixels by one.
abbrev tiny : CapturedSurface
tiny = record {
  pixels = some 4096;
  captured_width = 2;
  captured_height = 1;
  captured_pitch = 2;
  captured_format = 26;
  timestamp_ms = 100;
}

abbrev tiny_pixels : List ℕ
tiny_pixels = 4278190335 ∷ 16711935 ∷ []

tiny-Readable : Readable tiny_pixels tiny
tiny-Readable = record {
  some_width = omega arith;
  some_height = omega arith;
  width_fits = omega arith;
  height_fits = omega arith;
  row_fits = omega arith;
  whole = omega arith;
}

downscale_lem_example :
    (rgb : List ℕ) × (downscale tiny_pixels tiny 16 16 ≡ some rgb)
    × (length rgb ≡ 16 * (16 * 3))
    × (length rgb ≤ jpeg_cap)
    × ((y x c : ℕ)
        → y < 16
        → x < 16
        → c < 3
        → get_or rgb (y * (16 * 3) + (x * 3 + c)) 0
          ≡ channel (get_or tiny_pixels (y * 1 / 16 * 2 + x * 2 / 16) 0) c)
downscale_lem_example = downscale_lem tiny_pixels tiny 16 16 tiny-Readable

abbrev saved : Stored
saved = record {
  stored_preset = pos 7;
  stored_fps = negsuc 0;
  stored_quality = pos 300;
  stored_audio = true;
}

abbrev old_settings : Settings
old_settings = record { config = quiet.config; preset_index = 3 }

load_settings-IsUsable_example :
    let c = (load_settings saved old_settings).config in
    IsUsable c
    × (out_size max_out_w c.width ≡ c.width)
    × (out_size max_out_h c.height ≡ c.height)
    × ((wire_config c).width ≡ c.width)
    × ((wire_config c).height ≡ c.height)
    × ((wire_config c).fps ≡ c.fps)
    × ((wire_config c).quality ≡ c.quality)
load_settings-IsUsable_example = load_settings-IsUsable saved old_settings

-- The plugin as an application leaves it, with a surface that the encoder has.
abbrev left_behind : Plugin
left_behind = record {
  settings = old_settings;
  net = quiet;
  net_running = true;
  tap = record { enabled = false; registered = false; chained = no_callback; device = foreign 3 };
  capture = handed;
}

abbrev all_given : Given
all_given = record { socket = true; net_thread = true; encoder_thread = true }

abbrev next_start : Capture
next_start = (application_start all_given saved (application_end true left_behind)).capture

two_slots : length left_behind.capture.slots ≡ 2
unfolding on_tv_scanout capture_init
two_slots = refl

application_start-Reach_example :
    IsSession (scan_at 900 next_start) × (length (scan_at 900 next_start).queue ≤ 2)
application_start-Reach_example =
    application_start-Reach console true all_given saved left_behind (scan_at 900 next_start)
      console-HasQueue refl two_slots
      (next next_start (scan_at 900 next_start) begin
        (scanned heap true 20 (some (picture, 0)) 900 next_start))
