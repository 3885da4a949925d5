-- ===== src/Tests/Links.antt =====
-- The links' timers, and the client.
use wii_sec_u.Base.{replicate, ℕ, ◌<◌, ◌≤◌, ◌≡◌, ◌⊎◌, refl, none, true, false, List, [], ◌∷◌, arith}
use wii_sec_u.Base.Int.{negsuc}
use wii_sec_u.Base.Word.{sub32}
use wii_sec_u.Protocol.Wire.{ok}
use wii_sec_u.Protocol.Types.{VideoHeader}
use wii_sec_u.Assembler.{fresh}
use wii_sec_u.StreamPlugin.Net.Slices.{video_of}
use wii_sec_u.Host.Link.{Link, stream_tick, stream_receive, hello_interval_ms, ping_interval_ms}
use wii_sec_u.Host.Link.Keepalive.{IsOne, introduction, stream_tick-recent}
use wii_sec_u.Protocol.Pkt
use wii_sec_u.Endpoint.{Endpoint}
use wii_sec_u.Endpoint.Text.{to_text, parse_endpoint}
use wii_sec_u.Endpoint.Text.RoundTrip.{parse_endpoint-to_text}
use wii_sec_u.Host.App.{HostOptions, HostApp, host_receive, dispatch_relayed, on_video}
use wii_sec_u.Host.App.Relay.{Arrival, host_run, sent_to, received, watch-host_run}
use wii_sec_u.Host.Session.{broadcast, send_all}
use wii_sec_u.Host.Link.{relayed}
use wii_sec_u.Assembler.{feed}
use wii_sec_u.Protocol.Parse.{parse_header, parse_video, parse_hello, parse_timestamp}
use wii_sec_u.Protocol.Wire.{get_u8, get_u16, get_u32, get_bytes}
use wii_sec_u.Display.{Stb, FrameDecoder}
use wii_sec_u.Assembler.{Frame}
use wii_sec_u.Base.Text.{codes}
use wii_sec_u.Command.{Machine, Args, main, runs_host, no_input, stats_sink}
use wii_sec_u.Tests.Players.{session, session-IsServer}
use wii_sec_u.Client.{ClientOptions, ClientApp}
use wii_sec_u.Client.Join.{watch}
use wii_sec_u.Sim.{SimOptions, SimInput, build_frame}
use wii_sec_u.Tests.Wire.{pressed, anna}
use wii_sec_u.Tests.Video.{home}

abbrev link_up : Link
link_up = record {
  up = true;
  peer = home;
  target = home;
  last_hello = 10;
  last_ping = 20;
  last_recv = 4000;
  seq = 7;
}

stream_tick-recent_example :
    ((stream_tick 5000 link_up).0.up ≡ true
      → sub32 5000 (stream_tick 5000 link_up).0.last_ping < ping_interval_ms)
    × (link_up.up ≡ false → sub32 5000 (stream_tick 5000 link_up).0.last_hello < hello_interval_ms)
    × (link_up.up ≡ false → (stream_tick 5000 link_up).0.up ≡ false)
    × (link_up.up ≡ true
        → 1000 ≤ sub32 5000 link_up.last_ping
        → IsOne (stream_tick 5000 link_up).1 home Pkt.ping 7 parse_timestamp 5000)
    × (link_up.up ≡ true → sub32 5000 link_up.last_ping < 1000 → (stream_tick 5000 link_up).1 ≡ [])
    × (link_up.up ≡ false
        → (link_up.last_hello ≡ 0) ⊎ (1000 ≤ sub32 5000 link_up.last_hello)
        → IsOne (stream_tick 5000 link_up).1 home Pkt.hello 7 parse_hello introduction)
    × (link_up.up ≡ false
        → ¬ (link_up.last_hello ≡ 0)
        → sub32 5000 link_up.last_hello < 1000
        → (stream_tick 5000 link_up).1 ≡ [])
stream_tick-recent_example =
    stream_tick-recent 5000 link_up (omega arith) (omega arith) (omega arith)

-- A frame of one byte, in a datagram.
abbrev one_slice : List ℕ
one_slice =
    0x57 ∷ 0x53 ∷ 0x55 ∷ 0x31 ∷ 1 ∷ 4 ∷ 0 ∷ 9 ∷ 0 ∷ 0 ∷ 0 ∷ 3 ∷ 0 ∷ 0 ∷ 0 ∷ 64 ∷ 1 ∷ 0 ∷ 0 ∷ 0 ∷ 1
    ∷ 0 ∷ 1 ∷ 42 ∷ []

abbrev one_header : VideoHeader
one_header = record {
  frame_id = 3;
  timestamp_ms = 64;
  flags = 1;
  slice_index = 0;
  slice_count = 1;
  payload_len = 1;
}

one_slice-video_of : video_of one_slice ≡ ok (one_header, 42 ∷ [])
unfolding video_of wii_sec_u.Protocol.Parse.parse_header wii_sec_u.Protocol.Parse.parse_video
    wii_sec_u.Protocol.Wire.get_u8 wii_sec_u.Protocol.Wire.get_u16 wii_sec_u.Protocol.Wire.get_u32
    wii_sec_u.Protocol.Wire.get_bytes
one_slice-video_of = refl

abbrev pub options : ClientOptions
options = record {
  host_addr = home;
  player_name = anna.name;
  has_input = true;
  input_rate_hz = 125;
}

abbrev pub newcomer : ClientApp
newcomer = record {
  connected = false;
  slot = 255;
  rtt_ms = negsuc 0;
  assembler = fresh;
  seq = 0;
  last_hello = 0;
  last_ping = 0;
  last_input = 0;
  last_recv = 0;
}

abbrev tiny : SimOptions
tiny = record { width = 4; height = 2; fps = 15 }

abbrev sim_start : SimInput
sim_start = record {
  last_input = replicate 4 pressed;
  have_input = replicate 4 false;
  bundles = 0;
  seq = 0;
}

-- 192.168.1.7:4405
abbrev console_port : Endpoint
console_port = record { addr = 3232235783; port = 4405 }

abbrev kept : ℕ → ℕ
kept n = n

parse_endpoint-to_text_example : parse_endpoint kept (to_text console_port) 4406 ≡ console_port
parse_endpoint-to_text_example =
    parse_endpoint-to_text kept console_port 4406 (λ n h. refl) (omega arith) (omega arith)
      (omega arith)

-- "10.0.0.2 x": without a port the default is taken, and what follows the address is not looked at.
abbrev with_rest : List ℕ
with_rest = 49 ∷ 48 ∷ 46 ∷ 48 ∷ 46 ∷ 48 ∷ 46 ∷ 50 ∷ 32 ∷ 120 ∷ []

without_port : parse_endpoint kept with_rest 4406 ≡ record { addr = 167772162; port = 4406 }
unfolding parse_endpoint
without_port = refl

abbrev host_options : HostOptions
host_options = record {
  console_addr = home;
  console_input_port = 4405;
  console_stream_port = 4406;
  input_rate_hz = 120;
  has_input = true;
  has_sink = true;
}

abbrev host_app : HostApp
host_app = record {
  server = session;
  link = record {
    running = true;
    input = record { link = link_up; rtt_ms = negsuc 0 };
    stream = link_up;
    bye_seq = 0;
  };
  assembler = fresh;
  seq = 0;
}

abbrev from_console : List Arrival
from_console = (5001, (home, one_slice)) ∷ []

one_slice-sent :
    received ((70, one_slice) ∷ []) ≡ sent_to home (host_run host_options from_console host_app).1.0
unfolding host_receive dispatch_relayed on_video broadcast send_all stream_receive relayed
    parse_header parse_video get_u8 get_u16 get_u32 get_bytes feed
one_slice-sent = refl

watch-host_run_example :
    (received ((70, one_slice) ∷ []) ≡ one_slice ∷ [])
    × (watch options ((70, one_slice) ∷ []) newcomer
        ≡ (host_run host_options from_console host_app).1.1)
watch-host_run_example =
    watch-host_run host_options from_console ((one_header, 42 ∷ []) ∷ []) host_app 1 options
      ((70, one_slice) ∷ []) newcomer refl refl session-IsServer refl (one_slice-video_of, tt)
      one_slice-sent refl

abbrev broken_jpeg : Stb
broken_jpeg bytes = none

abbrev tiny_frame : Frame
tiny_frame = record { frame_id = 3; timestamp_ms = 200; flags = 1; bytes = build_frame tiny 3 }

abbrev new_decoder : FrameDecoder
new_decoder = record { decoded = 0; failed = 0 }

abbrev headless : Machine
headless = record { has_sdl = false; has_display = false; fit = kept }

-- A host for one console; a port of more than 16 bits wraps.
abbrev command_line : Args
command_line =
    codes "wsu"
    ∷ codes "host"
    ∷ codes "--console"
    ∷ codes "10.0.0.2"
    ∷ codes "--input"
    ∷ codes "none"
    ∷ codes "--listen-port"
    ∷ codes "70000"
    ∷ []

host_command :
    main headless command_line
    ≡ runs_host (record {
      console_addr = record { addr = 167772162; port = 1 };
      listen_port = 4464;
      console_input_port = 4404;
      console_stream_port = 4406;
      host_input = no_input;
      host_sink = stats_sink;
    })
unfolding main parse_endpoint
host_command = refl
