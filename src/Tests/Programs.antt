-- ===== src/Tests/Programs.antt =====
-- The programs around the streams: windows, settings, controllers, sockets, and a player who joins.
use wii_sec_u.Base.{
  ℕ, ◌+◌, ◌≡◌, refl, true, false, List, [], ◌∷◌, ◌++◌, Option, none, some, drop, length, ◌-◌, arith,
}
use wii_sec_u.Base.Int.{pos, negsuc}
use wii_sec_u.Base.Text.{codes}
use wii_sec_u.Protocol.Types.{Config, InputState}
use wii_sec_u.Protocol.Pkt
use wii_sec_u.Protocol.Pack.{pack_input}
use wii_sec_u.Protocol.Parse.{parse_input}
use wii_sec_u.Protocol.Roundtrip.{Received}
use wii_sec_u.Endpoint.{Endpoint, Packet}
use wii_sec_u.Endpoint.Socket.{UdpSocket}
use wii_sec_u.Endpoint.Socket.Laws.{opens, closes, run_ops, IsHeld, run_ops-IsHeld}
use wii_sec_u.Assembler.{Frame}
use wii_sec_u.Display.{Stb, DecodedFrame, decode}
use wii_sec_u.Display.Inbox.{Inbox}
use wii_sec_u.Display.Inbox.Latest.{newest}
use wii_sec_u.Display.Window.{SdlDisplaySink, Sdl, pump}
use wii_sec_u.Display.Window.Newest.{sink_frames, pump-newest}
use wii_sec_u.Host.InputHub.{hub_get}
use wii_sec_u.Host.Session.{receive, slot_for}
use wii_sec_u.Client.{client_hello, client_input, client_receive}
use wii_sec_u.Client.Handshake.{client_input-hub_get}
use wii_sec_u.Controller.{SdlPad, read_pad}
use wii_sec_u.Controller.Poll.{ShowsPad, read_pad-Received}
use wii_sec_u.InputPlugin.RemoteInput.{update_all}
use wii_sec_u.InputPlugin.Applications.{
  InputPlugin, initialize_plugin, input_application_start, input_application_end,
  application_starts, application_ends, opens, bundle, lives_on, lives_more, begins, listens,
  net_thread_opens,
}
use wii_sec_u.InputPlugin.Life.{IsInputPlugin, Lives-IsInputPlugin}
use wii_sec_u.Gui.Settings.{AppSettings, load_app_settings, save_app_settings}
use wii_sec_u.Gui.Settings.RoundTrip.{AllFit, load_app_settings-save_app_settings}
use wii_sec_u.Gui.Log.{info, debug, warn, Logger}
use wii_sec_u.Gui.Log.Panel.{Entry, log_all, lines_of, log_all-newest}
use wii_sec_u.Gui.View.{GuiVideoView, view_frame, acquire_texture}
use wii_sec_u.Gui.View.Shown.{view_frames, acquire_texture-newest}
use wii_sec_u.Gui.App.{GuiApp, new_gui}
use wii_sec_u.Gui.App.Run.{
  Pass, host_click, draw_ui, loop_pass, Reach, starts, goes_on, polls, draws, gets_frame, ends,
  reaps,
}
use wii_sec_u.Gui.App.Run.Order.{IsGui, IsFine}
use wii_sec_u.Gui.App.Run.Safe.{loop_pass-new_gui}
use wii_sec_u.Tests.Wire.{pressed, pressed-InputFits}
use wii_sec_u.Tests.Players.{session, session-IsServer}
use wii_sec_u.Tests.Links.{options, newcomer}

abbrev player_two : Endpoint
player_two = record { addr = 7; port = 4405 }

-- The session has a client in the second of three slots; a new one gets the first.
client_input-hub_get_example :
    (hello : List ℕ) × (ack : List ℕ) × (input : List ℕ) × (more : List Packet) × ((client_hello
        options 5 newcomer).1
      ≡ (options.host_addr, hello) ∷ [])
    × ((receive 6 player_two hello session).1 ≡ (player_two, ack) ∷ more)
    × (let j =
          (client_receive options 7 options.host_addr ack (client_hello options 5 newcomer).0).0 in
        (j.connected ≡ true)
        × (j.slot ≡ 0 + 1)
        × ((client_input options 100 (some pressed) j).1 ≡ (options.host_addr, input) ∷ [])
        × (hub_get
              (0 + 1)
              (receive 101 player_two input (receive 6 player_two hello session).0).0.hub
            ≡ record pressed { slot = 0 + 1 }))
unfolding slot_for wii_sec_u.Host.Session.find_by_sender
client_input-hub_get_example =
    client_input-hub_get options newcomer session player_two 0 5 6 7 100 101 pressed
      session-IsServer refl refl (omega arith) (omega arith) refl refl refl refl (omega arith)
      pressed-InputFits

abbrev typed_in : AppSettings
typed_in = record { console_ip = codes "a=b"; host_addr = []; player_name = codes "Al" }

typed_in-AllFit : AllFit typed_in
typed_in-AllFit = record {
  console_fits = record { plain = (refl, (refl, (refl, tt))); short = omega arith };
  host_fits = record { plain = tt; short = omega arith };
  name_fits = record { plain = (refl, (refl, tt)); short = omega arith };
}

abbrev nothing_typed : AppSettings
nothing_typed = record { console_ip = []; host_addr = []; player_name = [] }

load_app_settings-save_app_settings_example :
    load_app_settings (some (save_app_settings typed_in)) nothing_typed ≡ typed_in
load_app_settings-save_app_settings_example =
    load_app_settings-save_app_settings typed_in nothing_typed typed_in-AllFit

-- A stream of raw pictures of two pixels, of which the last is broken.
abbrev raw_config : Config
raw_config = record {
  width = 2;
  height = 1;
  fps = 30;
  video_codec = 1;
  quality = 0;
  audio_codec = 0;
  audio_rate_hz = 0;
  audio_channels = 0;
  flags = 0;
}

abbrev raw_frame : ℕ → List ℕ → Frame
raw_frame id bytes = record { frame_id = id; timestamp_ms = 40; flags = 1; bytes = bytes }

abbrev raw_stream : List Frame
raw_stream =
    raw_frame 1 (1 ∷ 2 ∷ 3 ∷ 4 ∷ 5 ∷ 6 ∷ [])
    ∷ raw_frame 2 (7 ∷ 8 ∷ 9 ∷ 7 ∷ 8 ∷ 9 ∷ [])
    ∷ raw_frame 3 (7 ∷ [])
    ∷ []

abbrev second_picture : DecodedFrame
second_picture = record {
  width = 2;
  height = 1;
  rgb = 7 ∷ 8 ∷ 9 ∷ 7 ∷ 8 ∷ 9 ∷ [];
  timestamp_ms = 40;
  frame_id = 2;
}

abbrev no_stb : Stb
no_stb bytes = none

abbrev configured : Inbox
configured = record {
  config = raw_config;
  has_config = true;
  decoder = record { decoded = 0; failed = 0 };
  pending = record { width = 0; height = 0; rgb = []; timestamp_ms = 0; frame_id = 0 };
  pending_fresh = false;
}

raw_stream-newest : newest no_stb raw_config raw_stream ≡ some second_picture
unfolding decode wii_sec_u.Display.decode_raw
raw_stream-newest = refl

abbrev watching : GuiVideoView
watching = record {
  inbox = configured;
  texture = none;
  tex_w = 0;
  tex_h = 0;
  speaker = record { device = none; failed = false };
  frames = 0;
  video_total = 0;
}

acquire_texture-newest_example :
    (acquire_texture true (view_frames no_stb raw_stream watching)).1
    ≡ some (record { texture_w = 2; texture_h = 1; pixels = 7 ∷ 8 ∷ 9 ∷ 7 ∷ 8 ∷ 9 ∷ [] })
acquire_texture-newest_example =
    acquire_texture-newest no_stb raw_stream watching second_picture refl
      (λ t e. absurd (ground (arith, e))) raw_stream-newest (omega arith)

abbrev window_up : SdlDisplaySink
window_up = record {
  inbox = configured;
  has_window = true;
  has_renderer = true;
  texture = none;
  tex_w = 4;
  tex_h = 4;
  closed = false;
  speaker = record { device = none; failed = false };
  shown_frames = 9;
  last_shown = 8;
  last_title = 0;
  title = none;
}

abbrev sdl_call : Sdl
sdl_call = record {
  gives_window = true;
  accelerated = true;
  plain = true;
  gives_texture = true;
  closing = false;
  now = 2000;
}

pump-newest_example :
    let r = pump sdl_call (sink_frames no_stb raw_stream window_up) in
    (r.0.texture
      ≡ some (record { texture_w = 2; texture_h = 1; pixels = 7 ∷ 8 ∷ 9 ∷ 7 ∷ 8 ∷ 9 ∷ [] }))
    × (r.0.shown_frames ≡ 10)
    × (r.1 ≡ true)
pump-newest_example =
    pump-newest no_stb raw_stream sdl_call window_up second_picture refl refl refl refl refl
      (λ t e. absurd (ground (arith, e))) raw_stream-newest (omega arith)

abbrev quiet : Logger
quiet = record { threshold = info; has_log_sink = true; panel = codes "old" ∷ []; printed = [] }

abbrev entries : List Entry
entries = (debug, (codes "net", codes "x")) ∷ (warn, (codes "gui", codes "y")) ∷ []

log_all-newest_example :
    let lines = quiet.panel ++ lines_of quiet.threshold entries in
    ((log_all entries quiet).panel ≡ drop (length lines - 200) lines)
    × ((log_all entries quiet).printed ≡ quiet.printed ++ lines_of quiet.threshold entries)
log_all-newest_example = log_all-newest entries quiet refl (omega arith)

abbrev a_pad : SdlPad
a_pad = record {
  button_a = true;
  button_b = false;
  button_x = false;
  button_y = false;
  dpad_up = false;
  dpad_down = false;
  dpad_left = true;
  dpad_right = false;
  left_shoulder = false;
  right_shoulder = false;
  start = false;
  back = false;
  guide = false;
  left_stick = false;
  right_stick = false;
  axis_left_x = negsuc 32767;
  axis_left_y = negsuc 32767;
  axis_right_x = pos 32767;
  axis_right_y = pos 0;
  axis_trigger_left = pos 32767;
  axis_trigger_right = pos 0;
}

read_pad-Received_example :
    Received 1400
      (pack_input 1400 9 77 (record (read_pad a_pad) { slot = 2 }))
      Pkt.input
      9
      parse_input
      (77, record (read_pad a_pad) { slot = 2 })
    × ShowsPad a_pad (read_pad a_pad)
read_pad-Received_example =
    read_pad-Received 1400 9 77 2 a_pad (omega arith) (omega arith) (omega arith) (omega arith)
      (record {
        left_x_range = omega arith;
        left_y_range = omega arith;
        right_x_range = omega arith;
        right_y_range = omega arith;
      })

abbrev new_socket : UdpSocket
new_socket = record { fd = none; kernel = [] }

run_ops-IsHeld_example : IsHeld (
    run_ops
      (opens (some 3) true ∷ opens (some 4) false ∷ opens (some 4) true ∷ closes ∷ [])
      new_socket)
run_ops-IsHeld_example =
    run_ops-IsHeld (opens (some 3) true ∷ opens (some 4) false ∷ opens (some 4) true ∷ closes ∷ [])
      new_socket refl

-- "Start hosting" with no address: the console is looked for on the network.
abbrev press_host : Pass
press_host = record {
  typed = nothing_typed;
  click = host_click;
  leaves = false;
  now = 5000;
  connected = false;
  logs = false;
  logs_kept = true;
  opens = true;
  created = true;
}

abbrev same_number : ℕ → ℕ
same_number n = n

abbrev first_gui : GuiApp
first_gui = new_gui none true

abbrev gui_or_first : Option GuiApp → GuiApp
gui_or_first none = first_gui
gui_or_first (some a) = a

abbrev hosting_gui : GuiApp
hosting_gui = gui_or_first (draw_ui same_number press_host first_gui)

hosting_gui-started : draw_ui same_number press_host first_gui ≡ some hosting_gui
unfolding new_gui draw_ui wii_sec_u.Gui.App.Run.draw_home wii_sec_u.Gui.App.start_hosting
hosting_gui-started = refl

hosting_gui-alive : hosting_gui.session_alive ≡ true
unfolding new_gui draw_ui wii_sec_u.Gui.App.Run.draw_home wii_sec_u.Gui.App.start_hosting
hosting_gui-alive = refl

-- Hosting is started, a frame comes in, and the session's thread ends by itself.
abbrev ended_gui : GuiApp
ended_gui = record hosting_gui {
  view = view_frame no_stb (raw_frame 1 []) hosting_gui.view;
  session_alive = false;
}

loop_pass-new_gui_example :
    IsGui ended_gui
    × ((u : Pass) (polled : Option InputState) → IsFine (loop_pass same_number u polled ended_gui))
loop_pass-new_gui_example = loop_pass-new_gui same_number no_stb none true ended_gui (
    goes_on
      (goes_on (goes_on starts (draws press_host hosting_gui-started))
        (gets_frame (raw_frame 1 []) hosting_gui-alive))
      (ends hosting_gui-alive))

-- A thread gets its socket, reads a bundle and is joined; the next application's thread gets no socket.
abbrev playing : InputPlugin
playing = input_application_start (some 3) true initialize_plugin

playing-begins : playing.phase ≡ begins
unfolding input_application_start initialize_plugin wii_sec_u.Console.Thread.thread_start
playing-begins = refl

abbrev open_to_host : InputPlugin
open_to_host = net_thread_opens (some 7) true playing

open_to_host-listens : open_to_host.phase ≡ listens 7
unfolding net_thread_opens wii_sec_u.Console.Thread.open_udp_socket
open_to_host-listens = refl

abbrev played : InputPlugin
played =
    input_application_end
      (record open_to_host { remote = update_all (pressed ∷ []) 50 open_to_host.remote })

abbrev again : InputPlugin
again = input_application_start (some 4) true played

again-begins : again.phase ≡ begins
unfolding input_application_start input_application_end initialize_plugin net_thread_opens
    wii_sec_u.Console.Thread.thread_start wii_sec_u.Console.Thread.thread_join
again-begins = refl

Lives-IsInputPlugin_example : IsInputPlugin (net_thread_opens (some 8) false again)
Lives-IsInputPlugin_example = Lives-IsInputPlugin (net_thread_opens (some 8) false again) (
    lives_more
      (lives_more
        (lives_more
          (lives_more
            (lives_more (lives_more lives_on (application_starts (some 3) true))
              (opens (some 7) true playing-begins))
            (bundle 7 (pressed ∷ []) 50 open_to_host-listens))
          application_ends)
        (application_starts (some 4) true))
      (opens (some 8) false again-begins))
