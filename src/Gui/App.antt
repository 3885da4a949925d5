-- ===== src/Gui/App.antt =====
-- pc/src/gui/gui_app.{h,cpp}: the program between init, which makes the view and the controller, and
-- shutdown. A function gives `none` where the source would use a null pointer, or end the program by
-- giving a new thread to a std::thread that has one. Drawing is left out: what the user does and what
-- Dear ImGui and SDL tell in a pass is an argument.
pub mod Run
use wii_sec_u.Base.{
  ℕ, zero, ◌+◌, ◌-◌, ◌*◌, ◌%◌, ◌^◌, Bool, true, false, not, ◌&&◌, ◌||◌, List, [], ◌∷◌, Option, none,
  some, leb, ◌==◌, if◌then◌else◌,
}
use wii_sec_u.Base.Maybe.{◌>>=◌}
use wii_sec_u.Base.Text.{codes}
use wii_sec_u.Base.Word.{sub32}
use wii_sec_u.Protocol.Types.{InputState}
use wii_sec_u.Endpoint.{Endpoint}
use wii_sec_u.Endpoint.Text.{parse_endpoint}
use wii_sec_u.Host.App.{HostOptions}
use wii_sec_u.Client.{ClientOptions}
use wii_sec_u.Gui.Settings.{AppSettings, load_app_settings, save_app_settings}
use wii_sec_u.Gui.SharedInput.{SharedInput, no_input_yet, set_input, clear_input}
use wii_sec_u.Gui.View.{GuiVideoView, new_view, acquire_texture, reset_view}

pub data Mode : Type 0 where
  idle hosting joined : Mode

-- lastError_
pub data Notice : Type 0 where
  no_notice bad_console no_host session_ended : Notice

-- The members. `host` and `client` are what host_ and client_ were made with, `joinable` is whether
-- sessionThread_ has a thread, `file` is wsu-app.ini, and `bits` is mbps_ times 10^6.
pub record GuiApp : Type 0 where
  pub mode : Mode
  pub view : GuiVideoView
  pub shared : SharedInput
  pub has_pad : Bool
  pub host : Option HostOptions
  pub client : Option ClientOptions
  pub joinable : Bool
  pub stop_flag : Bool
  pub session_alive : Bool
  pub settings : AppSettings
  pub file : Option (List ℕ)
  pub last_error : Notice
  pub show_logs : Bool
  pub stat_frames : ℕ
  pub stat_bytes : ℕ
  pub stat_stamp : ℕ
  pub rate : ℕ
  pub bits : ℕ

-- After init, with what wsu-app.ini holds and whether makeSdlBackend gives a controller.
unfoldable pub new_gui : Option (List ℕ) → Bool → GuiApp
unfolding new_view load_app_settings
new_gui file pad = record {
  mode = idle;
  view = new_view;
  shared = no_input_yet;
  has_pad = pad;
  host = none;
  client = none;
  joinable = false;
  stop_flag = false;
  session_alive = false;
  settings =
      load_app_settings file
        (record { console_ip = []; host_addr = []; player_name = codes "Player" });
  file = file;
  last_error = no_notice;
  show_logs = false;
  stat_frames = 0;
  stat_bytes = 0;
  stat_stamp = 0;
  rate = 0;
  bits = 0;
}

abbrev pub is_idle : Mode → Bool
is_idle idle = true
is_idle hosting = false
is_idle joined = false

unfoldable pub poll_pad : Option InputState → GuiApp → GuiApp
unfolding set_input
poll_pad polled a =
    if is_idle a.mode || not a.has_pad
    then a
    else elim polled [ none ↦ a | some state ↦ record a { shared = set_input state a.shared } ]

-- stopSession; the thread has ended when the join returns.
unfoldable pub stop_session : GuiApp → GuiApp
unfolding clear_input reset_view
stop_session a = record a {
  stop_flag = true;
  joinable = false;
  host = none;
  client = none;
  shared = clear_input a.shared;
  view = reset_view a.view;
  session_alive = false;
  mode = idle;
  stat_frames = 0;
  stat_bytes = 0;
  rate = 0;
  bits = 0;
}

-- Of the loop of run: a session whose thread has ended by itself.
unfoldable pub reap : GuiApp → GuiApp
unfolding stop_session
reap a =
    if not (is_idle a.mode) && not a.session_alive && a.joinable
    then record (stop_session a) { last_error = session_ended; show_logs = true }
    else a

-- saveSettings; `opens` is whether the file opens.
abbrev pub saved_file : Bool → GuiApp → Option (List ℕ)
saved_file opens a = if opens then some (save_app_settings a.settings) else a.file

abbrev pub console_target : (ℕ → ℕ) → List ℕ → Option Endpoint
console_target fit [] = some (record { addr = 2 ^ 32 - 1; port = 1 })
console_target fit (c ∷ text) =
    let e = parse_endpoint fit (c ∷ text) 1 in if e.port == 0 then none else some e

abbrev pub name_or_player : List ℕ → List ℕ
name_or_player [] = codes "player"
name_or_player (c ∷ text) = c ∷ text

-- What startHosting and startJoining do alike, from saveSettings on.
abbrev pub launch : Bool → Mode → Option HostOptions → Option ClientOptions → GuiApp → Option GuiApp
launch opens mode host client a =
    if a.joinable
    then none
    else some (record a {
      file = saved_file opens a;
      view = reset_view a.view;
      host = host;
      client = client;
      stop_flag = false;
      session_alive = true;
      joinable = true;
      mode = mode;
    })

abbrev pub host_on : Bool → Option Endpoint → GuiApp → Option GuiApp
host_on opens none a = some (record a { last_error = bad_console })
host_on opens (some target) a =
    launch opens hosting
      (some (record {
        console_addr = target;
        console_input_port = 4404;
        console_stream_port = 4406;
        input_rate_hz = 120;
        has_input = true;
        has_sink = true;
      }))
      a.client (record a { last_error = no_notice })

unfoldable pub start_hosting : (ℕ → ℕ) → Bool → GuiApp → Option GuiApp
unfolding reset_view
start_hosting fit opens a = host_on opens (console_target fit a.settings.console_ip) a

abbrev pub join_on : Bool → Endpoint → GuiApp → Option GuiApp
join_on opens target a =
    if target.port == 0
    then some (record a { last_error = no_host })
    else launch opens joined a.host
        (some (record {
          host_addr = target;
          player_name = name_or_player a.settings.player_name;
          has_input = true;
          input_rate_hz = 120;
        }))
        (record a { last_error = no_notice })

unfoldable pub start_joining : (ℕ → ℕ) → Bool → GuiApp → Option GuiApp
unfolding reset_view
start_joining fit opens a = join_on opens (parse_endpoint fit a.settings.host_addr 4405) a
