-- ===== src/Host/App.antt =====
-- pc/src/host/host_app.{h,cpp}: the host program, which wires the console's links, the session server,
-- the hub and its own picture together; and start, stop and sendInputBundle of WiiULink
-- (pc/src/host/wiiu_link.cpp), which it calls.
pub mod Relay
use wii_sec_u.Base.{
  ℕ, ◌/◌, Bool, true, false, not, ◌&&◌, ◌||◌, List, [], ◌∷◌, ◌++◌, Option, none, some, ltb,
  if◌then◌else◌,
}
use wii_sec_u.Base.Word.{next16}
use wii_sec_u.Base.Int.{ℤ, negsuc}
use wii_sec_u.Protocol.Types.{max_packet, Config, InputState, VideoHeader, AudioHeader}
use wii_sec_u.Protocol.ByeReason
use wii_sec_u.Protocol.Pack.{pack_bye}
use wii_sec_u.Endpoint.{Endpoint, Packet, send}
use wii_sec_u.Assembler.{Assembler, Frame, feed}
use wii_sec_u.Host.InputHub.{hub_set, pack_bundle}
use wii_sec_u.Host.Session.{Server, broadcast, set_config}
use wii_sec_u.Host.Session
use wii_sec_u.Host.Link.{
  Link, InputLink, Relayed, relay_config, relay_video, relay_audio, stream_receive,
}
use wii_sec_u.Client.{ToSink, on_config, on_frame, on_audio}

-- What is used of HostOptions, and whether there is a controller and a sink.
pub record HostOptions : Type 0 where
  pub console_addr : Endpoint
  pub console_input_port : ℕ
  pub console_stream_port : ℕ
  pub input_rate_hz : ℕ
  pub has_input : Bool
  pub has_sink : Bool

-- Both loops of WiiULink with running_ and seq_.
pub record WiiULink : Type 0 where
  pub running : Bool
  pub input : InputLink
  pub stream : Link
  pub bye_seq : ℕ

-- The members, and the loop's `seq`.
pub record HostApp : Type 0 where
  pub server : Server
  pub link : WiiULink
  pub assembler : Assembler
  pub seq : ℕ

-- A loop's variables at its start.
abbrev pub fresh_link : Endpoint → Link
fresh_link target = record {
  up = false;
  peer = target;
  target = target;
  last_hello = 0;
  last_ping = 0;
  last_recv = 0;
  seq = 0;
}

-- `opened` is whether both sockets open. stop() leaves the flags of both links false.
unfoldable pub link_start : HostOptions → Bool → WiiULink → WiiULink × Bool
link_start o opened l = if l.running then (l, true) else if not opened then (l, false) else (
  record l {
    running = true;
    input = record l.input {
      link = fresh_link (record o.console_addr { port = o.console_input_port });
    };
    stream = fresh_link (record o.console_addr { port = o.console_stream_port });
  },
  true,
)

unfoldable pub link_stop : WiiULink → WiiULink × List Packet
link_stop l = if not l.running then (l, []) else (
  record l {
    running = false;
    input = record l.input { link = record l.input.link { up = false } };
    stream = record l.stream { up = false };
    bye_seq = next16 l.bye_seq;
  },
  if l.input.link.up then send l.input.link.peer (pack_bye 9 l.bye_seq ByeReason.shutdown) else [],
)

unfoldable pub send_input_bundle : List ℕ → WiiULink → List Packet
send_input_bundle d l =
    if not l.running || not l.input.link.up then [] else (l.input.link.peer, d) ∷ []

abbrev pub frame_to_sink : Bool → Option Frame → List ToSink
frame_to_sink has_sink none = []
frame_to_sink has_sink (some f) = if has_sink then on_frame f ∷ [] else []

-- What a callback sends and what the sink gets.
abbrev pub Shown : Type 0
Shown = HostApp × (List Packet × List ToSink)

-- onVideo; the assembler's callback gives the sink its frame.
unfoldable pub on_video : HostOptions → List ℕ → VideoHeader → List ℕ → HostApp → Shown
on_video o d v payload a =
    let (assembler, frame) = feed a.assembler v payload in
    (record a { assembler = assembler }, (broadcast d a.server, frame_to_sink o.has_sink frame))

-- onAudio
unfoldable pub host_audio : HostOptions → List ℕ → AudioHeader → List ℕ → HostApp → Shown
host_audio o d h payload a =
    (a, (broadcast d a.server, if o.has_sink then on_audio h payload ∷ [] else []))

-- onConfig
unfoldable pub host_config : HostOptions → Config → HostApp → Shown
host_config o c a =
    let (server, packets) = set_config c a.server in
    (record a { server = server }, (packets, if o.has_sink then on_config c ∷ [] else []))

-- The callback for what the link hands over, which is one thing at most.
unfoldable pub dispatch_relayed : HostOptions → List Relayed → HostApp → Shown
unfolding on_video host_audio host_config
dispatch_relayed o [] a = (a, ([], []))
dispatch_relayed o (relay_config c ∷ rs) a = host_config o c a
dispatch_relayed o (relay_video d v payload ∷ rs) a = on_video o d v payload a
dispatch_relayed o (relay_audio d h payload ∷ rs) a = host_audio o d h payload a

-- A datagram on the stream link's socket.
unfoldable pub host_receive : HostOptions → ℕ → Endpoint → List ℕ → HostApp → Shown
unfolding dispatch_relayed
host_receive o now from d a =
    let (stream, rs) = stream_receive now from d a.link.stream in
    dispatch_relayed o rs (record a { link = record a.link { stream = stream } })

-- The local controller is player 0; `polled` is what its poll gives.
unfoldable pub poll_local : HostOptions → ℕ → Option InputState → HostApp → HostApp
poll_local o now none a = a
poll_local o now (some state) a =
    if o.has_input
    then record a { server = record a.server { hub = hub_set 0 state now a.server.hub } }
    else a

-- A pass of run's loop, `none` if the window was closed; statistics are left out.
unfoldable pub host_tick :
    HostOptions → ℕ → Bool → Option InputState → HostApp → Option (HostApp × List Packet)
unfolding poll_local send_input_bundle
host_tick o now pumped polled a =
    let b = poll_local o now polled a in
    let bundle : List Packet = elim (pack_bundle max_packet b.seq now b.server.hub) [
      | none ↦ []
      | some d ↦ send_input_bundle d b.link
    ] in
    if o.has_sink && not pumped then none else some (record b { seq = next16 b.seq }, bundle)

abbrev pub host_tick_ms : HostOptions → ℕ
host_tick_ms o = if ltb 0 o.input_rate_hz then 1000 / o.input_rate_hz else 8

-- run after its loop.
unfoldable pub host_end : HostApp → HostApp × List Packet
unfolding link_stop
host_end a =
    let (link, byes) = link_stop a.link in
    let (server, others) = Session.stop a.server in
    (record a { link = link; server = server }, byes ++ others)
