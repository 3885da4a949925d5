-- ===== src/Gui/App/Run.antt =====
-- The screens of GuiApp, a pass of its loop, and the session's thread beside it.
pub mod Order
pub mod Screens
pub mod Safe
use wii_sec_u.Base.{
  ℕ, ◌+◌, ◌-◌, ◌*◌, ◌%◌, ◌^◌, ◌≡◌, Bool, true, false, List, Option, none, some, leb, if◌then◌else◌,
}
use wii_sec_u.Base.Maybe.{◌>>=◌}
use wii_sec_u.Base.Word.{sub32}
use wii_sec_u.Protocol.Types.{Config, InputState}
use wii_sec_u.Assembler.{Frame}
use wii_sec_u.Display.{Stb}
use wii_sec_u.Gui.Settings.{AppSettings}
use wii_sec_u.Gui.View.{view_config, view_frame, view_audio, acquire_texture}
use wii_sec_u.Gui.App.{
  Mode, idle, hosting, joined, GuiApp, poll_pad, reap, start_hosting, start_joining, stop_session,
}

-- The button of the Home screen that is pressed; Dear ImGui has one active item at a time.
pub data Click : Type 0 where
  no_click host_click join_click : Click

-- What a pass gets from outside: the texts in the three boxes, the buttons, the time, whether the client
-- is connected, the check box of the log panel, the panel's own closing button, and whether the settings
-- file opens and SDL gives a texture.
pub record Pass : Type 0 where
  pub typed : AppSettings
  pub click : Click
  pub leaves : Bool
  pub now : ℕ
  pub connected : Bool
  pub logs : Bool
  pub logs_kept : Bool
  pub opens : Bool
  pub created : Bool

-- drawLogPanel, if the panel is shown
abbrev pub log_panel : Pass → GuiApp → GuiApp
log_panel u a = if a.show_logs then record a { show_logs = u.logs_kept } else a

abbrev pub click_host : (ℕ → ℕ) → Pass → Click → GuiApp → Option GuiApp
click_host fit u host_click a = start_hosting fit u.opens a
click_host fit u no_click a = some a
click_host fit u join_click a = some a

abbrev pub click_join : (ℕ → ℕ) → Pass → Click → GuiApp → Option GuiApp
click_join fit u join_click a = start_joining fit u.opens a
click_join fit u no_click a = some a
click_join fit u host_click a = some a

abbrev pub type_console : Pass → GuiApp → GuiApp
type_console u a = record a { settings = record a.settings { console_ip = u.typed.console_ip } }

abbrev pub type_host : Pass → GuiApp → GuiApp
type_host u a = record a {
  settings = record a.settings { host_addr = u.typed.host_addr; player_name = u.typed.player_name };
}

unfoldable pub draw_home : (ℕ → ℕ) → Pass → GuiApp → Option GuiApp
draw_home fit u a = do
  b ← click_host fit u u.click (type_console u a)
  c ← click_join fit u u.click (type_host u b)
  some (log_panel u (record c { show_logs = u.logs }))

abbrev pub draw_video : Pass → GuiApp → GuiApp
draw_video u a = record a { view = (acquire_texture u.created a.view).0 }

-- A difference of `uint64_t`
abbrev pub minus64 : ℕ → ℕ → ℕ
minus64 a b = (a % 2 ^ 64 + 2 ^ 64 - b % 2 ^ 64) % 2 ^ 64

-- The statistics of a second, of each screen; fps_ is `unsigned`.
abbrev pub refresh_hosting : ℕ → GuiApp → GuiApp
refresh_hosting now a =
    if leb 1000 (sub32 now a.stat_stamp)
    then record a {
      rate = minus64 a.view.frames a.stat_frames % 2 ^ 32;
      bits = minus64 a.view.video_total a.stat_bytes * 8;
      stat_frames = a.view.frames;
      stat_bytes = a.view.video_total;
      stat_stamp = now;
    }
    else a

abbrev pub refresh_joined : ℕ → GuiApp → GuiApp
refresh_joined now a =
    if leb 1000 (sub32 now a.stat_stamp)
    then record a {
      rate = minus64 a.view.frames a.stat_frames % 2 ^ 32;
      stat_frames = a.view.frames;
      stat_stamp = now;
    }
    else a

-- `host_->`, or `client_->`
abbrev pub following {ℓ} : {A : Type ℓ} → Option A → GuiApp → Option GuiApp
following none a = none
following (some p) a = some a

unfoldable pub draw_hosting : Pass → GuiApp → Option GuiApp
draw_hosting u a = if u.leaves then some (stop_session a) else do
  b ← following a.host (refresh_hosting u.now a)
  some (log_panel u (draw_video u (record b { show_logs = u.logs })))

unfoldable pub draw_joined : Pass → GuiApp → Option GuiApp
draw_joined u a = do
  b ← following a.client (if u.connected then refresh_joined u.now a else a)
  some (if u.leaves then stop_session b else draw_video u b)

-- drawUi, on the mode
abbrev pub draw_mode : (ℕ → ℕ) → Pass → Mode → GuiApp → Option GuiApp
draw_mode fit u idle a = draw_home fit u a
draw_mode fit u hosting a = draw_hosting u a
draw_mode fit u joined a = draw_joined u a

unfoldable pub draw_ui : (ℕ → ℕ) → Pass → GuiApp → Option GuiApp
draw_ui fit u a = draw_mode fit u a.mode a

-- A pass of the loop of run.
unfoldable pub loop_pass : (ℕ → ℕ) → Pass → Option InputState → GuiApp → Option GuiApp
loop_pass fit u polled a = draw_ui fit u (reap (poll_pad polled a))

-- The parts of a pass, and what the session's thread does while it runs.
pub data GuiStep (fit : ℕ → ℕ) (stb : Stb) : GuiApp → GuiApp → Type 0 where
  polls : {a : GuiApp} (polled : Option InputState) → GuiStep fit stb a (poll_pad polled a)
  reaps : {a : GuiApp} → GuiStep fit stb a (reap a)
  draws : {a b : GuiApp} (u : Pass) → draw_ui fit u a ≡ some b → GuiStep fit stb a b
  gets_config :
      {a : GuiApp} (c : Config)
      → a.session_alive ≡ true
      → GuiStep fit stb a (record a { view = view_config c a.view })
  gets_frame :
      {a : GuiApp} (f : Frame)
      → a.session_alive ≡ true
      → GuiStep fit stb a (record a { view = view_frame stb f a.view })
  gets_audio :
      {a : GuiApp} (opens : ℕ → Bool) (queued : ℕ) (payload : List ℕ)
      → a.session_alive ≡ true
      → GuiStep fit stb a (record a { view = (view_audio opens queued payload a.view).0 })
  ends :
      {a : GuiApp} → a.session_alive ≡ true → GuiStep fit stb a (record a { session_alive = false })

pub data Reach (fit : ℕ → ℕ) (stb : Stb) : GuiApp → GuiApp → Type 0 where
  starts : {a : GuiApp} → Reach fit stb a a
  goes_on : {a b c : GuiApp} → Reach fit stb a b → GuiStep fit stb b c → Reach fit stb a c
