-- ===== src/StreamPlugin/Net.antt =====
-- wiiu/stream-plugin/src/net.cpp: the socket of the stream plugin. One pass of netThread is `tick`,
-- what it does before the receive, and `receive`, what it does with a datagram; `netSendVideoFrame`
-- is called by the encoder thread. Each returns the new state and the datagrams sent, in order.
-- netSendVideoFrame takes the mutex for each packet, so that its function has what the network thread does
-- before each of them as an argument.
pub mod Slices
pub mod Drain
use wii_sec_u.Base.{
  ℕ, zero, suc, ◌+◌, ◌-◌, ◌*◌, ◌/◌, ◌%◌, ◌^◌, Bool, true, false, not, ◌&&◌, ◌||◌, List, [], ◌∷◌,
  ◌++◌, Option, none, some, length, drop, ltb, leb, ◌==◌, if◌then◌else◌,
}
use wii_sec_u.Base.Word.{sub32, next16}
use wii_sec_u.Protocol.Wire.{Parse, ok, reject, fault, put_i16}
use wii_sec_u.Protocol.Types.{
  header_size, max_packet, max_slice_payload, no_slot, peer_timeout_ms, proto_version, Header,
  HelloAck, Config, VideoHeader, AudioHeader,
}
use wii_sec_u.Protocol.Pkt
use wii_sec_u.Protocol.HelloStatus
use wii_sec_u.Protocol.Pack.{
  pack_config, pack_audio, pack_video, pack_hello_ack, pack_pong, video_slice_count,
}
use wii_sec_u.Protocol.Parse.{parse_header, parse_timestamp}
use wii_sec_u.Endpoint.{Endpoint, Packet, send}
use wii_sec_u.StreamPlugin.Audio.{Ring, Pair, audio_read}

-- StreamConfig of stream_state.h; its integers are not negative.
pub record StreamConfig : Type 0 where
  pub width : ℕ
  pub height : ℕ
  pub fps : ℕ
  pub quality : ℕ
  pub audio : Bool

-- The globals of net.cpp, the thread's `lastConfigMs`, the static `frameId`, and the audio ring.
-- `sock_open` is `gSock >= 0`.
pub record Net : Type 0 where
  pub config : StreamConfig
  pub sock_open : Bool
  pub host_active : Bool
  pub host_addr : Endpoint
  pub last_host_seen_ms : ℕ
  pub tx_seq : ℕ
  pub last_config_ms : ℕ
  pub frame_id : ℕ
  pub ring : Ring

abbrev pub config_interval_ms : ℕ
config_interval_ms = 2000

abbrev pub audio_chunk_pairs : ℕ
audio_chunk_pairs = 256

abbrev pub send_locked : Net → Option (List ℕ) → List Packet
send_locked s d = if s.sock_open then send s.host_addr d else []

-- `gTxSeq++`
abbrev pub bump_seq : Net → Net
bump_seq s = record s { tx_seq = next16 s.tx_seq }

abbrev pub wire_config : StreamConfig → Config
wire_config c = record {
  width = c.width % 2 ^ 16;
  height = c.height % 2 ^ 16;
  fps = c.fps % 2 ^ 8;
  video_codec = 0;
  quality = c.quality % 2 ^ 8;
  audio_codec = if c.audio then 1 else 0;
  audio_rate_hz = 48000;
  audio_channels = 2;
  flags = 0;
}

unfoldable pub send_config : Net → Net × List Packet
send_config s = (bump_seq s, send_locked s (pack_config 18 s.tx_seq (wire_config s.config)))

-- PCM16, big-endian, left before right.
unfoldable pub pcm_bytes : List Pair → List ℕ
pcm_bytes [] = []
pcm_bytes ((l, r) ∷ ps) = put_i16 l ++ (put_i16 r ++ pcm_bytes ps)

-- The rounds of drainAudio that are left; `times` gives the clock of each.
unfoldable pub drain_rounds : ℕ → (ℕ → ℕ) → Net → Net × List Packet
unfolding pcm_bytes
drain_rounds zero times s = (s, [])
drain_rounds (suc n) times s =
    let (pairs, ring) = audio_read s.ring audio_chunk_pairs in
    let popped : Net = record s { ring = ring } in
    let (s', packets) = drain_rounds n times (bump_seq popped) in
    if ltb (length pairs) audio_chunk_pairs then (popped, []) else (
      s',
      send_locked s (
            pack_audio max_packet s.tx_seq
              (record { timestamp_ms = times n; payload_len = length pairs * 4 % 2 ^ 16 })
              (pcm_bytes pairs))
          ++ packets,
    )

unfoldable pub drain_audio : (ℕ → ℕ) → Net → Net × List Packet
unfolding drain_rounds
drain_audio times s = if s.config.audio then drain_rounds 8 times s else (s, [])

-- The head of the loop up to the receive: time the host out, or repeat the configuration, and send
-- the sound. The host is still served its sound in the pass that times it out.
unfoldable pub refresh : ℕ → Net → Net × List Packet
unfolding send_config
refresh now s =
    if ltb peer_timeout_ms (sub32 now s.last_host_seen_ms)
    then (record s { host_active = false }, [])
    else if leb config_interval_ms (sub32 now s.last_config_ms)
    then (let (s', packets) = send_config s in (record s' { last_config_ms = now }, packets))
    else (s, [])

unfoldable pub tick : ℕ → (ℕ → ℕ) → Net → Net × List Packet
unfolding refresh drain_audio
tick now times s =
    let (s', packets) = refresh now s in
    let (s'', sound) = drain_audio times s' in
    if s.host_active then (s'', packets ++ sound) else (s, [])

-- `case WSU_PKT_HELLO`
unfoldable pub on_hello : ℕ → Endpoint → Header → Net → Net × List Packet
unfolding send_config
on_hello now from hdr s =
    let accepted : Bool = hdr.version == proto_version in
    let ack : HelloAck = record {
      status = if accepted then HelloStatus.accepted else HelloStatus.version_mismatch;
      slot = no_slot;
    } in
    let s1 : Net = record (bump_seq s) { host_addr = from } in
    let reply = send_locked s1 (pack_hello_ack 10 s.tx_seq ack) in
    let (s2, config) = send_config (record s1 { last_host_seen_ms = now }) in
    if accepted
    then (record s2 { last_config_ms = now; host_active = true }, reply ++ config)
    else (s1, reply)

-- `case WSU_PKT_PING`: the answer goes to the host, whoever asked.
unfoldable pub on_ping : ℕ → List ℕ → Net → Net × List Packet
on_ping now p s = elim (parse_timestamp p) [
  | ok ts ↦
      (record (bump_seq s) { last_host_seen_ms = now }, send_locked s (pack_pong 12 s.tx_seq ts))
  | reject ↦ (s, [])
  | fault ↦ (s, [])
]

dispatch : ℕ → Endpoint → Header → List ℕ → Net → Net × List Packet
unfolding on_hello on_ping
dispatch now from hdr p s =
    if hdr.type == Pkt.hello
    then on_hello now from hdr s
    else if hdr.type == Pkt.ping
    then on_ping now p s
    else if hdr.type == Pkt.bye
    then (record s { host_active = false }, [])
    else (s, [])

-- A received datagram, from the header on. `now` is the clock after the receive.
unfoldable pub receive : ℕ → Endpoint → List ℕ → Net → Net × List Packet
unfolding dispatch
receive now from d s = elim (parse_header d) [
  | ok hdr ↦ dispatch now from hdr (drop header_size d) s
  | reject ↦ (s, [])
  | fault ↦ (s, [])
]

unfoldable pub slice_header : ℕ → ℕ → ℕ → ℕ → ℕ → ℕ → VideoHeader
slice_header frame_id timestamp_ms flags i slices remain = record {
  frame_id = frame_id;
  timestamp_ms = timestamp_ms;
  flags = flags;
  slice_index = i;
  slice_count = slices;
  payload_len = if ltb remain max_slice_payload then remain else max_slice_payload;
}

-- The loop of netSendVideoFrame with `n` slices to go, `i` being the next one and `rest` the data
-- from `off` on, so that `remain` is its length. The mutex is taken for each packet: `meanwhile i` is
-- what the network thread does to the state before packet `i`.
unfoldable pub send_slices :
    (ℕ → Net → Net) → ℕ → ℕ → ℕ → ℕ → ℕ → List ℕ → ℕ → Net → Net × List Packet
unfolding slice_header
send_slices meanwhile zero i slices timestamp_ms flags rest frame_id s = (s, [])
send_slices meanwhile (suc n) i slices timestamp_ms flags rest frame_id s =
    let now = meanwhile i s in
    let v = slice_header frame_id timestamp_ms flags i slices (length rest) in
    let packet = send_locked now (pack_video max_packet now.tx_seq v rest) in
    let (s', packets) =
      send_slices meanwhile n (suc i) slices timestamp_ms flags (drop v.payload_len rest) frame_id
        (bump_seq now) in
    (s', packet ++ packets)

-- netSendVideoFrame, with what the network thread does before each packet.
unfoldable pub net_send_video_frame : (ℕ → Net → Net) → List ℕ → ℕ → Bool → Net → Net × List Packet
unfolding send_slices
net_send_video_frame meanwhile bytes timestamp_ms keyframe s =
    if not s.host_active || (length bytes == 0)
    then (s, [])
    else send_slices meanwhile slices 0 slices timestamp_ms (if keyframe then 1 else 0) bytes id
        (record s { frame_id = id })
  where
    id : ℕ
    id = (s.frame_id + 1) % 2 ^ 32

    slices : ℕ
    slices = video_slice_count (length bytes % 2 ^ 32)
