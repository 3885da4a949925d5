-- ===== src/Client.antt =====
-- pc/src/client/client_app.{h,cpp}: the remote player's program. A pass of the loop of ClientApp::run is
-- `client_tick` before the receive and `client_receive` for what it gets; `finish` is its end. The
-- result of the controller's poll is an argument, and what goes to the sink is a list.
pub mod Join
pub mod Handshake
use wii_sec_u.Base.{
  ℕ, ◌/◌, ◌%◌, ◌^◌, Bool, true, false, not, ◌&&◌, ◌||◌, List, [], ◌∷◌, ◌++◌, Option, none, some,
  drop, ltb, leb, ◌==◌, if◌then◌else◌,
}
use wii_sec_u.Base.Word.{sub32, next16}
use wii_sec_u.Base.Int.{ℤ, negsuc}
use wii_sec_u.Protocol.Wire.{Parse, ok, reject, fault}
use wii_sec_u.Protocol.Types.{
  header_size, max_packet, no_slot, peer_timeout_ms, Header, Hello, Config, InputState, AudioHeader,
}
use wii_sec_u.Protocol.Pkt
use wii_sec_u.Protocol.HelloStatus
use wii_sec_u.Protocol.ByeReason
use wii_sec_u.Protocol.Pack.{pack_hello, pack_input, pack_ping, pack_bye}
use wii_sec_u.Protocol.Parse.{
  parse_header, parse_hello_ack, parse_config, parse_video, parse_audio, parse_timestamp,
}
use wii_sec_u.Endpoint.{Endpoint, same_ep, Packet, send}
use wii_sec_u.Assembler.{Assembler, Frame, feed}
use wii_sec_u.Host.Session.{role_client}
use wii_sec_u.Host.Link.{hello_interval_ms, ping_interval_ms, next_rtt}

-- What ClientOptions tells: the host's address, the name in its buffer, whether there is a controller,
-- and inputRateHz.
pub record ClientOptions : Type 0 where
  pub host_addr : Endpoint
  pub player_name : List ℕ
  pub has_input : Bool
  pub input_rate_hz : ℕ

-- The members and the loop's variables; printing of statistics is left out.
pub record ClientApp : Type 0 where
  pub connected : Bool
  pub slot : ℕ
  pub rtt_ms : ℤ
  pub assembler : Assembler
  pub seq : ℕ
  pub last_hello : ℕ
  pub last_ping : ℕ
  pub last_input : ℕ
  pub last_recv : ℕ

pub data ToSink : Type 0 where
  on_config : Config → ToSink
  on_frame : Frame → ToSink
  on_audio : AudioHeader → List ℕ → ToSink

abbrev pub tick_ms : ClientOptions → ℕ
tick_ms o = if ltb 0 o.input_rate_hz then 1000 / o.input_rate_hz else 8

unfoldable pub client_hello : ClientOptions → ℕ → ClientApp → ClientApp × List Packet
client_hello o now s =
    let hello : Hello = record { role = role_client; flags = 0; name = o.player_name } in
    if not s.connected && (s.last_hello == 0 || leb hello_interval_ms (sub32 now s.last_hello))
    then (
      record s { seq = next16 s.seq; last_hello = now },
      send o.host_addr (pack_hello max_packet s.seq hello),
    )
    else (s, [])

unfoldable pub drop_lost : ℕ → ClientApp → ClientApp
drop_lost now s =
    if not (s.last_recv == 0) && ltb peer_timeout_ms (sub32 now s.last_recv)
    then record s { connected = false; slot = no_slot; rtt_ms = negsuc 0 }
    else s

unfoldable pub client_input :
    ClientOptions → ℕ → Option InputState → ClientApp → ClientApp × List Packet
client_input o now polled s =
    if o.has_input && leb (tick_ms o) (sub32 now s.last_input)
    then elim polled [
      | none ↦ (record s { last_input = now }, [])
      | some state ↦ (
        record s { seq = next16 s.seq; last_input = now },
        send o.host_addr (pack_input max_packet s.seq now (record state { slot = s.slot })),
      )
    ]
    else (s, [])

unfoldable pub client_ping : ClientOptions → ℕ → ClientApp → ClientApp × List Packet
client_ping o now s =
    if leb ping_interval_ms (sub32 now s.last_ping)
    then (
      record s { seq = next16 s.seq; last_ping = now },
      send o.host_addr (pack_ping max_packet s.seq now),
    )
    else (s, [])

-- A pass in which the host is found lost still sends its input and ping.
unfoldable pub client_tick :
    ClientOptions → ℕ → Option InputState → ClientApp → ClientApp × List Packet
unfolding client_hello drop_lost client_input client_ping
client_tick o now polled s =
    let (s1, hellos) = client_hello o now s in
    let (s2, inputs) = client_input o now polled (drop_lost now s1) in
    let (s3, pings) = client_ping o now s2 in
    if s1.connected then (s3, hellos ++ (inputs ++ pings)) else (s1, hellos)

client_hello_ack : List ℕ → ClientApp → ClientApp
client_hello_ack p s = elim (parse_hello_ack p) [
  | ok ack ↦
      if ack.status == HelloStatus.accepted
      then record s { slot = ack.slot; connected = true }
      else record s { connected = false }
  | reject ↦ s
  | fault ↦ s
]

client_config : List ℕ → List ToSink
client_config p = elim (parse_config p) [ ok c ↦ on_config c ∷ [] | reject ↦ [] | fault ↦ [] ]

unfoldable pub client_video : List ℕ → ClientApp → ClientApp × List ToSink
client_video p s = elim (parse_video p) [
  | ok (v, payload) ↦
      let (a, frame) = feed s.assembler v payload in
      (record s { assembler = a }, elim frame [ some f ↦ on_frame f ∷ [] | none ↦ [] ])
  | reject ↦ (s, [])
  | fault ↦ (s, [])
]

client_audio : List ℕ → List ToSink
client_audio p = elim (parse_audio p) [
  | ok (a, payload) ↦ on_audio a payload ∷ []
  | reject ↦ []
  | fault ↦ []
]

client_pong : ℕ → List ℕ → ClientApp → ClientApp
unfolding next_rtt
client_pong now p s = elim (parse_timestamp p) [
  | ok echoed ↦ record s { rtt_ms = next_rtt s.rtt_ms (sub32 now echoed) }
  | reject ↦ s
  | fault ↦ s
]

unfoldable pub client_dispatch : ℕ → Header → List ℕ → ClientApp → ClientApp × List ToSink
unfolding client_hello_ack client_config client_video client_audio client_pong
client_dispatch now hdr p s =
    if hdr.type == Pkt.hello_ack
    then (client_hello_ack p s, [])
    else if hdr.type == Pkt.config
    then (s, client_config p)
    else if hdr.type == Pkt.video
    then client_video p s
    else if hdr.type == Pkt.audio
    then (s, client_audio p)
    else if hdr.type == Pkt.pong
    then (client_pong now p s, [])
    else if hdr.type == Pkt.bye
    then (record s { connected = false; slot = no_slot }, [])
    else (s, [])

unfoldable pub client_receive :
    ClientOptions → ℕ → Endpoint → List ℕ → ClientApp → ClientApp × List ToSink
unfolding client_dispatch
client_receive o now from d s =
    if not (same_ep from o.host_addr) then (s, []) else elim (parse_header d) [
      | ok hdr ↦ client_dispatch now hdr (drop header_size d) (record s { last_recv = now })
      | reject ↦ (s, [])
      | fault ↦ (s, [])
    ]

unfoldable pub finish : ClientOptions → ClientApp → List Packet
finish o s = if s.connected then send o.host_addr (pack_bye max_packet s.seq ByeReason.quit) else []
