-- ===== src/Protocol/Roundtrip.antt =====
-- What one side packs, the other side parses: protocol/wsu_protocol.h against itself.
use wii_sec_u.Base.{
  ℕ, suc, ◌+◌, ◌*◌, ◌/◌, ◌%◌, ◌^◌, ◌≤◌, ◌<◌, ◌≡◌, refl, ap, ◌∙◌, List, [], ◌∷◌, ◌++◌, Option, some,
  take, drop, length, arith, le→leb, lt→ltb, take-length, ne→not_==,
}
use wii_sec_u.Base.Int.{to_i16, to_u16, to_i16-to_u16, to_u16-lt, IsI16, ℤ}
use wii_sec_u.Protocol.Wire.{
  Parse, ok, ◌>>=◌, put_u32, get_u8, get_u16, get_u32, get_i16, u16_join, u32_join, get_bytes-drop,
}
use wii_sec_u.Protocol.Types.{
  Hello, HelloAck, Config, VideoHeader, AudioHeader, InputState, InputFits, VideoFits, ConfigFits,
  header_size, proto_version, max_slice_payload, max_players,
}
use wii_sec_u.Protocol.Pack.{
  header_bytes, config_bytes, video_bytes, audio_bytes, input_state_bytes, input_states_bytes,
  pack_input_bundle, pack_video, pack_config, pack_audio, pack_input, pack_hello, pack_hello_ack,
  pack_ping, pack_pong,
}
use wii_sec_u.Protocol.Parse.{
  parse_header, parse_hello, parse_hello_ack, parse_config, parse_video, parse_audio,
  read_input_fields, read_input_state, parse_input, read_input_states, parse_input_bundle,
  parse_timestamp,
}
use wii_sec_u.Protocol.Pkt

-- A packed header comes back with its type and sequence number, whatever follows it.
pub parse_header-header_bytes :
    (type seq : ℕ) (rest : List ℕ)
    → seq < 2 ^ 16
    → parse_header (header_bytes type seq ++ rest)
      ≡ ok (record { version = proto_version; type = type; seq = seq })
unfolding parse_header header_bytes get_u8 get_u16 get_u32
parse_header-header_bytes type seq rest h =
    rw (le→leb 8 (length (header_bytes type seq ++ rest)) (omega arith), u16_join seq h)

pub drop-header_bytes :
    (type seq : ℕ) (rest : List ℕ) → drop header_size (header_bytes type seq ++ rest) ≡ rest
unfolding header_bytes
drop-header_bytes type seq rest = refl

pub length-header_bytes :
    (type seq : ℕ) (rest : List ℕ)
    → length (header_bytes type seq ++ rest) ≡ header_size + length rest
unfolding header_bytes
length-header_bytes type seq rest = omega arith

pub i16_join : (v : ℤ) → IsI16 v → to_i16 (to_u16 v / 2 ^ 8 % 2 ^ 8 * 2 ^ 8 + to_u16 v % 2 ^ 8) ≡ v
i16_join v h = rw (u16_join (to_u16 v) (to_u16-lt v)) (to_i16-to_u16 v h)

pub read_input_fields-bytes :
    (s : InputState) (rest : List ℕ)
    → InputFits s
    → read_input_fields (input_state_bytes s ++ rest) ≡ ok s
unfolding read_input_fields input_state_bytes get_u8 get_u16 get_u32 get_i16
read_input_fields-bytes s rest f = rw (
  u32_join s.buttons f.buttons_fits,
  u16_join s.touch_x f.touch_x_fits,
  u16_join s.touch_y f.touch_y_fits,
  i16_join s.lx f.lx_fits,
  i16_join s.ly f.ly_fits,
  i16_join s.rx f.rx_fits,
  i16_join s.ry f.ry_fits,
  i16_join s.gyro_pitch f.gyro_pitch_fits,
  i16_join s.gyro_yaw f.gyro_yaw_fits,
  i16_join s.gyro_roll f.gyro_roll_fits,
)

length-input_state_bytes :
    (s : InputState) (rest : List ℕ) → length (input_state_bytes s ++ rest) ≡ 26 + length rest
unfolding input_state_bytes
length-input_state_bytes s rest = omega arith

drop-input_state_bytes :
    (s : InputState) (rest : List ℕ) → drop 26 (input_state_bytes s ++ rest) ≡ rest
unfolding input_state_bytes
drop-input_state_bytes s rest = refl

-- `sent` is a datagram of at most `cap` bytes, whose header has this type and sequence number and
-- whose payload parses to `a`.
abbrev pub Received {ℓ} :
    {A : Type ℓ} → ℕ → Option (List ℕ) → ℕ → ℕ → (List ℕ → Parse A) → A → Type ℓ
Received cap sent type seq parse a =
    (d : List ℕ) × (sent ≡ some d)
    × (length d ≤ cap)
    × (parse_header d ≡ ok (record { version = proto_version; type = type; seq = seq }))
    × (parse (drop header_size d) ≡ ok a)

received {ℓ} :
    {A : Type ℓ} (cap : ℕ) (sent : Option (List ℕ)) (type seq : ℕ) (parse : List ℕ → Parse A)
    (a : A) (payload : List ℕ)
    → seq < 2 ^ 16
    → header_size + length payload ≤ cap
    → sent ≡ some (header_bytes type seq ++ payload)
    → parse payload ≡ ok a
    → Received cap sent type seq parse a
received cap sent type seq parse a payload h fits e p = (
  header_bytes type seq ++ payload,
  e,
  omega (arith, length-header_bytes type seq payload),
  parse_header-header_bytes type seq payload h,
  rw (drop-header_bytes type seq payload) p,
)

parse_input-bytes :
    (timestamp_ms : ℕ) (s : InputState)
    → timestamp_ms < 2 ^ 32
    → InputFits s
    → parse_input (put_u32 timestamp_ms ++ input_state_bytes s) ≡ ok (timestamp_ms, s)
unfolding parse_input read_input_state read_input_fields input_state_bytes get_u8 get_u16 get_u32
    get_i16
parse_input-bytes timestamp_ms s h f =
    rw (u32_join timestamp_ms h)
      (ap (λ r. r >>= λ s'. ok (timestamp_ms, s')) (read_input_fields-bytes s [] f))

-- An INPUT datagram carries its timestamp and the whole controller state.
pub pack_input-Received :
    (cap seq timestamp_ms : ℕ) (s : InputState)
    → 38 ≤ cap
    → seq < 2 ^ 16
    → timestamp_ms < 2 ^ 32
    → InputFits s
    → Received cap (pack_input cap seq timestamp_ms s) Pkt.input seq parse_input (timestamp_ms, s)
unfolding pack_input input_state_bytes
pack_input-Received cap seq timestamp_ms s room q h f =
    received cap _ Pkt.input seq parse_input (timestamp_ms, s)
      (put_u32 timestamp_ms ++ input_state_bytes s) q (omega arith) (ground arith)
      (parse_input-bytes timestamp_ms s h f)

abbrev pub AllFit : List InputState → Type 0
AllFit [] = Unit
AllFit (s ∷ states) = InputFits s × AllFit states

length-input_states_bytes :
    (states : List InputState) → length (input_states_bytes states) ≡ length states * 26
unfolding input_states_bytes
length-input_states_bytes [] = refl
length-input_states_bytes (s ∷ states) = omega (
  arith,
  length-input_state_bytes s (input_states_bytes states),
  length-input_states_bytes states,
)

read_input_states-bytes :
    (states : List InputState)
    → AllFit states
    → read_input_states (length states) (input_states_bytes states) ≡ ok states
unfolding read_input_states input_states_bytes
read_input_states-bytes [] f = refl
read_input_states-bytes (s ∷ states) f = rw (
  read_input_fields-bytes s (input_states_bytes states) f.0,
  drop-input_state_bytes s (input_states_bytes states),
  read_input_states-bytes states f.1,
)

parse_input_bundle-bytes :
    (timestamp_ms : ℕ) (states : List InputState)
    → length states ≤ max_players
    → timestamp_ms < 2 ^ 32
    → AllFit states
    → parse_input_bundle (put_u32 timestamp_ms ++ (length states ∷ input_states_bytes states))
      ≡ ok (timestamp_ms, states)
unfolding parse_input_bundle get_u8 get_u32
parse_input_bundle-bytes timestamp_ms states few h f = rw (
  u32_join timestamp_ms h,
  le→leb 5 (length (put_u32 timestamp_ms ++ (length states ∷ input_states_bytes states)))
      (omega arith),
  le→leb (length states) max_players few,
  le→leb (5 + length states * 26) (suc (suc (suc (suc (suc (length (input_states_bytes states)))))))
      (omega (arith, length-input_states_bytes states)),
  read_input_states-bytes states f,
)

-- An INPUT_BUNDLE of up to four states carries its timestamp and the states, in order.
pub pack_input_bundle-Received :
    (cap seq timestamp_ms : ℕ) (states : List InputState)
    → 117 ≤ cap
    → length states ≤ max_players
    → seq < 2 ^ 16
    → timestamp_ms < 2 ^ 32
    → AllFit states
    → Received cap
        (pack_input_bundle cap seq timestamp_ms states)
        Pkt.input_bundle
        seq
        parse_input_bundle
        (timestamp_ms, states)
unfolding pack_input_bundle
pack_input_bundle-Received cap seq timestamp_ms states room few q h f =
    received cap _ Pkt.input_bundle seq parse_input_bundle (timestamp_ms, states)
      (put_u32 timestamp_ms ++ (length states ∷ input_states_bytes states)) q
      (omega (arith, length-input_states_bytes states)) (ground arith)
      (parse_input_bundle-bytes timestamp_ms states few h f)

length-video_bytes :
    (v : VideoHeader) (payload : List ℕ) → length (video_bytes v ++ payload) ≡ 15 + length payload
unfolding video_bytes
length-video_bytes v payload = omega arith

parse_video-bytes :
    (v : VideoHeader) (payload : List ℕ)
    → VideoFits v
    → length payload ≡ v.payload_len
    → v.payload_len ≤ max_slice_payload
    → v.slice_index < v.slice_count
    → parse_video (video_bytes v ++ payload) ≡ ok (v, payload)
unfolding parse_video video_bytes get_u8 get_u16 get_u32
parse_video-bytes v payload f n small i = rw (
  u32_join v.frame_id f.frame_id_fits,
  u32_join v.timestamp_ms f.timestamp_fits,
  u16_join v.slice_index f.slice_index_fits,
  u16_join v.slice_count f.slice_count_fits,
  u16_join v.payload_len f.payload_len_fits,
  le→leb 15 (length (video_bytes v ++ payload)) (omega arith),
  le→leb v.payload_len max_slice_payload small,
  le→leb (15 + v.payload_len) (length (video_bytes v ++ payload)) (omega arith),
  ne→not_== v.slice_count 0 (omega arith),
  lt→ltb v.slice_index v.slice_count i,
  get_bytes-drop (video_bytes v ++ payload) 15 v.payload_len payload refl
      (length-video_bytes v payload ∙ omega (arith, n)),
)

-- A VIDEO datagram carries its header and its payload, if the payload is not longer than 1200 bytes
-- and the slice is one of the frame's.
pub pack_video-Received :
    (cap seq : ℕ) (v : VideoHeader) (payload : List ℕ)
    → 1223 ≤ cap
    → seq < 2 ^ 16
    → VideoFits v
    → length payload ≡ v.payload_len
    → v.payload_len ≤ max_slice_payload
    → v.slice_index < v.slice_count
    → Received cap (pack_video cap seq v payload) Pkt.video seq parse_video (v, payload)
unfolding pack_video
pack_video-Received cap seq v payload room q f n small i =
    received cap _ Pkt.video seq parse_video (v, payload) (video_bytes v ++ payload) q
      (omega (arith, length-video_bytes v payload)) (ground (arith, take-length payload))
      (parse_video-bytes v payload f n small i)

parse_audio-bytes :
    (a : AudioHeader) (payload : List ℕ)
    → a.timestamp_ms < 2 ^ 32
    → length payload ≡ a.payload_len
    → a.payload_len ≤ max_slice_payload
    → parse_audio (audio_bytes a ++ payload) ≡ ok (a, payload)
unfolding parse_audio audio_bytes get_u8 get_u16 get_u32
parse_audio-bytes a payload t n small = rw (
  u32_join a.timestamp_ms t,
  u16_join a.payload_len (omega arith),
  le→leb 6 (length (audio_bytes a ++ payload)) (omega arith),
  le→leb a.payload_len max_slice_payload small,
  le→leb (6 + a.payload_len) (length (audio_bytes a ++ payload)) (omega arith),
  get_bytes-drop (audio_bytes a ++ payload) 6 a.payload_len payload refl (omega (arith, n)),
)

-- An AUDIO datagram carries its header and its payload, if that is not longer than 1200 bytes.
pub pack_audio-Received :
    (cap seq : ℕ) (a : AudioHeader) (payload : List ℕ)
    → 1214 ≤ cap
    → seq < 2 ^ 16
    → a.timestamp_ms < 2 ^ 32
    → length payload ≡ a.payload_len
    → a.payload_len ≤ max_slice_payload
    → Received cap (pack_audio cap seq a payload) Pkt.audio seq parse_audio (a, payload)
unfolding pack_audio audio_bytes
pack_audio-Received cap seq a payload room q t n small =
    received cap _ Pkt.audio seq parse_audio (a, payload) (audio_bytes a ++ payload) q (omega arith)
      (ground (arith, take-length payload)) (parse_audio-bytes a payload t n small)

-- What a CONFIG datagram brings of a configuration: the channel count and the flags are lost.
abbrev pub without_channels : Config → Config
without_channels c = record c { audio_channels = 0; flags = 0 }

parse_config-bytes :
    (c : Config) → ConfigFits c → parse_config (config_bytes c) ≡ ok (without_channels c)
unfolding parse_config config_bytes get_u8 get_u16
parse_config-bytes c f = rw (
  u16_join c.width f.width_fits,
  u16_join c.height f.height_fits,
  u16_join c.audio_rate_hz f.audio_rate_hz_fits,
)

-- A CONFIG datagram carries all of the configuration but the channel count and the flags, which the
-- receiver reads as zero whatever the sender set.
pub pack_config-Received :
    (cap seq : ℕ) (c : Config)
    → 18 ≤ cap
    → seq < 2 ^ 16
    → ConfigFits c
    → Received cap (pack_config cap seq c) Pkt.config seq parse_config (without_channels c)
unfolding pack_config config_bytes
pack_config-Received cap seq c room q f =
    received cap _ Pkt.config seq parse_config (without_channels c) (config_bytes c) q (omega arith)
      (ground arith) (parse_config-bytes c f)

parse_hello-bytes :
    (h : Hello)
    → length h.name ≡ 16
    → parse_hello (h.role ∷ h.flags ∷ h.name) ≡ ok (record h { name = take 15 h.name ++ (0 ∷ []) })
unfolding parse_hello get_u8
parse_hello-bytes h n = rw (
  le→leb 18 (suc (suc (length h.name))) (omega arith),
  get_bytes-drop (h.role ∷ h.flags ∷ h.name) 2 16 h.name refl (omega (arith, n)),
)

-- A HELLO datagram carries the role, the flags and the first 15 bytes of the name, NUL-terminated.
pub pack_hello-Received :
    (cap seq : ℕ) (h : Hello)
    → 26 ≤ cap
    → seq < 2 ^ 16
    → length h.name ≡ 16
    → Received cap
        (pack_hello cap seq h)
        Pkt.hello
        seq
        parse_hello
        (record h { name = take 15 h.name ++ (0 ∷ []) })
unfolding pack_hello
pack_hello-Received cap seq h room q n =
    received cap _ Pkt.hello seq parse_hello _ (h.role ∷ h.flags ∷ h.name) q (omega arith)
      (ground arith) (parse_hello-bytes h n)

-- A HELLO_ACK datagram carries the status and the slot.
pub pack_hello_ack-Received :
    (cap seq : ℕ) (a : HelloAck)
    → 10 ≤ cap
    → seq < 2 ^ 16
    → Received cap (pack_hello_ack cap seq a) Pkt.hello_ack seq parse_hello_ack a
unfolding pack_hello_ack parse_hello_ack get_u8
pack_hello_ack-Received cap seq a room q =
    received cap _ Pkt.hello_ack seq parse_hello_ack a (a.status ∷ a.slot ∷ []) q (omega arith)
      (ground arith) refl

parse_timestamp-bytes : (t : ℕ) → t < 2 ^ 32 → parse_timestamp (put_u32 t) ≡ ok t
unfolding parse_timestamp get_u32
parse_timestamp-bytes t h = rw (u32_join t h)

-- PING and its PONG carry the same timestamp.
pub pack_ping-pack_pong-Received :
    (cap seq t : ℕ)
    → 12 ≤ cap
    → seq < 2 ^ 16
    → t < 2 ^ 32
    → Received cap (pack_ping cap seq t) Pkt.ping seq parse_timestamp t
      × Received cap (pack_pong cap seq t) Pkt.pong seq parse_timestamp t
unfolding pack_ping pack_pong
pack_ping-pack_pong-Received cap seq t room q h = (
  received cap _ Pkt.ping seq parse_timestamp t (put_u32 t) q (omega arith) (ground arith)
      (parse_timestamp-bytes t h),
  received cap _ Pkt.pong seq parse_timestamp t (put_u32 t) q (omega arith) (ground arith)
      (parse_timestamp-bytes t h),
)
