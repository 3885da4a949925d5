-- ===== src/Sim.antt =====
-- pc/src/sim/console_sim.{h,cpp}: the console that the host is tested with. `input_receive` is a pass of
-- its input loop, `stream_tick` and `stream_receive` one of its stream loop.
pub mod Picture
use wii_sec_u.Base.{
  ℕ, zero, suc, ◌+◌, ◌*◌, ◌/◌, ◌%◌, ◌^◌, Bool, true, false, not, ◌&&◌, List, [], ◌∷◌, ◌++◌, Option,
  none, some, length, drop, get_or, set, replicate, ltb, leb, ◌==◌, if◌then◌else◌,
}
use wii_sec_u.Base.Word.{sub32, next16}
use wii_sec_u.Protocol.Wire.{ok, reject, fault}
use wii_sec_u.Protocol.Types.{
  header_size, max_packet, max_players, no_slot, peer_timeout_ms, proto_version, Header, HelloAck,
  Config, InputState, input_state_init,
}
use wii_sec_u.Protocol.Pkt
use wii_sec_u.Protocol.HelloStatus
use wii_sec_u.Protocol.Pack.{pack_hello_ack, pack_pong, pack_config, pack_video, video_slice_count}
use wii_sec_u.Protocol.Parse.{parse_header, parse_input_bundle, parse_timestamp}
use wii_sec_u.Endpoint.{Endpoint, same_ep, Packet, send}
use wii_sec_u.StreamPlugin.Net.{slice_header}

pub record SimInput : Type 0 where
  pub last_input : List InputState
  pub have_input : List Bool
  pub bundles : ℕ
  pub seq : ℕ

-- lastInput
unfoldable pub last_input_of : ℕ → SimInput → Option InputState
last_input_of slot s =
    if leb max_players slot
    then none
    else if not (get_or s.have_input slot false)
    then none
    else some (get_or s.last_input slot (input_state_init no_slot))

unfoldable pub keep : List InputState → SimInput → SimInput
keep [] s = s
keep (state ∷ states) s =
    let kept : SimInput = record s {
      last_input = set s.last_input state.slot state;
      have_input = set s.have_input state.slot true;
    } in
    keep states (if leb max_players state.slot then s else kept)

-- The answer to a HELLO, the same in both loops.
abbrev pub hello_reply : Header → HelloAck
hello_reply hdr = record {
  status =
      if hdr.version == proto_version then HelloStatus.accepted else HelloStatus.version_mismatch;
  slot = no_slot;
}

unfoldable pub on_bundle : List ℕ → SimInput → SimInput
unfolding keep
on_bundle p s = elim (parse_input_bundle p) [
  | ok (ts, states) ↦ keep states (record s { bundles = (s.bundles + 1) % 2 ^ 64 })
  | reject ↦ s
  | fault ↦ s
]

on_input_ping : Endpoint → List ℕ → SimInput → SimInput × List Packet
on_input_ping from p s = elim (parse_timestamp p) [
  | ok ts ↦ (record s { seq = next16 s.seq }, send from (pack_pong 12 s.seq ts))
  | reject ↦ (s, [])
  | fault ↦ (s, [])
]

unfoldable pub input_receive : Endpoint → List ℕ → SimInput → SimInput × List Packet
unfolding on_bundle on_input_ping
input_receive from d s = elim (parse_header d) [
  | ok hdr ↦
      let p = drop header_size d in
      if hdr.type == Pkt.hello
      then (
        record s { seq = next16 s.seq },
        send from (pack_hello_ack max_packet s.seq (hello_reply hdr)),
      )
      else if hdr.type == Pkt.input_bundle
      then (on_bundle p s, [])
      else if hdr.type == Pkt.ping
      then on_input_ping from p s
      else (s, [])
  | reject ↦ (s, [])
  | fault ↦ (s, [])
]

pub record SimOptions : Type 0 where
  pub width : ℕ
  pub height : ℕ
  pub fps : ℕ

abbrev pub nonzero : ℕ → ℕ
nonzero n = if n == 0 then 1 else n

-- One pixel of buildFrame.
abbrev pub pixel : SimOptions → ℕ → ℕ → ℕ → List ℕ
pixel o frame_id y x =
    (x * 255 / nonzero o.width % 2 ^ 8)
    ∷ (y * 255 / nonzero o.height % 2 ^ 8)
    ∷ (if x == frame_id % o.width then 255 else frame_id % 2 ^ 8)
    ∷ []

-- `n` pixels of the row from `x` on, and `n` rows from `y` on.
unfoldable pub build_row : ℕ → SimOptions → ℕ → ℕ → ℕ → List ℕ
build_row zero o frame_id y x = []
build_row (suc n) o frame_id y x = pixel o frame_id y x ++ build_row n o frame_id y (suc x)

unfoldable pub build_rows : ℕ → SimOptions → ℕ → ℕ → List ℕ
unfolding build_row
build_rows zero o frame_id y = []
build_rows (suc n) o frame_id y =
    build_row o.width o frame_id y 0 ++ build_rows n o frame_id (suc y)

unfoldable pub build_frame : SimOptions → ℕ → List ℕ
unfolding build_rows
build_frame o frame_id = build_rows o.height o frame_id 0

pub record SimStream : Type 0 where
  pub host_known : Bool
  pub host : Endpoint
  pub last_host_seen : ℕ
  pub last_frame : ℕ
  pub last_config : ℕ
  pub stream_seq : ℕ
  pub frame_id : ℕ
  pub frames_sent : ℕ

abbrev pub config_interval_ms : ℕ
config_interval_ms = 2000

abbrev pub frame_interval_ms : SimOptions → ℕ
frame_interval_ms o = if ltb 0 o.fps then 1000 / o.fps else 66

-- The codec is WSU_CODEC_RAWRGB, without sound.
abbrev pub sim_config : SimOptions → Config
sim_config o = record {
  width = o.width;
  height = o.height;
  fps = o.fps;
  video_codec = 1;
  quality = 100;
  audio_codec = 0;
  audio_rate_hz = 0;
  audio_channels = 0;
  flags = 0;
}

unfoldable pub lose_host : ℕ → SimStream → SimStream
lose_host now s =
    if s.host_known
      && (not (s.last_host_seen == 0) && ltb peer_timeout_ms (sub32 now s.last_host_seen))
    then record s { host_known = false }
    else s

unfoldable pub sim_send_config : SimOptions → ℕ → SimStream → SimStream × List Packet
sim_send_config o now s =
    if leb config_interval_ms (sub32 now s.last_config)
    then (
      record s { stream_seq = next16 s.stream_seq; last_config = now },
      send s.host (pack_config max_packet s.stream_seq (sim_config o)),
    )
    else (s, [])

-- The slices that are left, `i` being the next and `rest` the data from `off` on.
unfoldable pub sim_slices : ℕ → ℕ → ℕ → ℕ → List ℕ → SimStream → SimStream × List Packet
unfolding slice_header
sim_slices zero i slices now rest s = (s, [])
sim_slices (suc n) i slices now rest s =
    let v = slice_header s.frame_id now 1 i slices (length rest) in
    let (s', packets) =
      sim_slices n (suc i) slices now (drop v.payload_len rest)
        (record s { stream_seq = next16 s.stream_seq }) in
    (s', send s.host (pack_video max_packet s.stream_seq v rest) ++ packets)

unfoldable pub sim_send_frame : SimOptions → ℕ → SimStream → SimStream × List Packet
unfolding build_frame sim_slices
sim_send_frame o now s =
    let frame = build_frame o s.frame_id in
    let slices = video_slice_count (length frame % 2 ^ 32) in
    let (s', packets) = sim_slices slices 0 slices now frame s in
    let id = (s.frame_id + 1) % 2 ^ 32 in
    if leb (frame_interval_ms o) (sub32 now s.last_frame)
    then (record s' { frame_id = id; frames_sent = id; last_frame = now }, packets)
    else (s, [])

unfoldable pub stream_tick : SimOptions → ℕ → SimStream → SimStream × List Packet
unfolding lose_host sim_send_config sim_send_frame
stream_tick o now s =
    let s1 = lose_host now s in
    let (s2, configs) = sim_send_config o now s1 in
    let (s3, slices) = sim_send_frame o now s2 in
    if s1.host_known then (s3, configs ++ slices) else (s1, [])

on_stream_hello : ℕ → Endpoint → Header → SimStream → SimStream × List Packet
on_stream_hello now from hdr s =
    let ack = hello_reply hdr in
    let s1 : SimStream = record s { stream_seq = next16 s.stream_seq } in
    (
      if ack.status == HelloStatus.accepted
          then record s1 { host = from; last_host_seen = now; last_config = 0; host_known = true }
          else s1,
      send from (pack_hello_ack max_packet s.stream_seq ack),
    )

on_stream_ping : ℕ → Endpoint → List ℕ → SimStream → SimStream × List Packet
on_stream_ping now from p s = elim (parse_timestamp p) [
  | ok ts ↦
      let s1 : SimStream = record s { stream_seq = next16 s.stream_seq } in
      (
        if same_ep from s.host then record s1 { last_host_seen = now } else s1,
        send from (pack_pong 12 s.stream_seq ts),
      )
  | reject ↦ (s, [])
  | fault ↦ (s, [])
]

unfoldable pub stream_receive : ℕ → Endpoint → List ℕ → SimStream → SimStream × List Packet
unfolding on_stream_hello on_stream_ping
stream_receive now from d s = elim (parse_header d) [
  | ok hdr ↦
      if hdr.type == Pkt.hello
      then on_stream_hello now from hdr s
      else if hdr.type == Pkt.ping
      then on_stream_ping now from (drop header_size d) s
      else if hdr.type == Pkt.bye && same_ep from s.host
      then (record s { host_known = false }, [])
      else (s, [])
  | reject ↦ (s, [])
  | fault ↦ (s, [])
]
