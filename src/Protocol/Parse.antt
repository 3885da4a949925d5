-- ===== src/Protocol/Parse.antt =====
-- The wsu_parse_* functions of protocol/wsu_protocol.h. Every read goes through `get_u8`, the bytes of a
-- name and of a payload among them, so that a read past the buffer would be a `fault`. The sizes that the parsers return on success are constants, or
-- follow from the header that is returned, and are left out.
use wii_sec_u.Base.{
  ℕ, zero, suc, ◌+◌, ◌*◌, not, List, [], ◌∷◌, ◌++◌, take, drop, length, ltb, leb, ◌==◌,
}
use wii_sec_u.Protocol.Wire.{
  Parse, ok, ◌>>=◌, ◌>>◌, require, get_u8, get_u16, get_u32, get_i16, get_bytes,
}
use wii_sec_u.Protocol.Types.{
  proto_magic, header_size, max_slice_payload, max_players, Header, Hello, HelloAck, Config,
  VideoHeader, AudioHeader, InputState,
}

unfoldable pub parse_header : List ℕ → Parse Header
parse_header buf = do
  require (leb header_size (length buf))
  magic ← get_u32 buf 0
  require (magic == proto_magic)
  version ← get_u8 buf 4
  type ← get_u8 buf 5
  seq ← get_u16 buf 6
  ok (record { version = version; type = type; seq = seq })

-- The name is cut at 15 bytes: the last is set to NUL.
unfoldable pub parse_hello : List ℕ → Parse Hello
parse_hello p = do
  require (leb 18 (length p))
  role ← get_u8 p 0
  flags ← get_u8 p 1
  name ← get_bytes p 2 16
  ok (record { role = role; flags = flags; name = take 15 name ++ (0 ∷ []) })

unfoldable pub parse_hello_ack : List ℕ → Parse HelloAck
parse_hello_ack p = do
  require (leb 2 (length p))
  status ← get_u8 p 0
  slot ← get_u8 p 1
  ok (record { status = status; slot = slot })

unfoldable pub parse_config : List ℕ → Parse Config
parse_config p = do
  require (leb 10 (length p))
  width ← get_u16 p 0
  height ← get_u16 p 2
  fps ← get_u8 p 4
  video_codec ← get_u8 p 5
  quality ← get_u8 p 6
  audio_codec ← get_u8 p 7
  audio_rate_hz ← get_u16 p 8
  ok (record {
    width = width;
    height = height;
    fps = fps;
    video_codec = video_codec;
    quality = quality;
    audio_codec = audio_codec;
    audio_rate_hz = audio_rate_hz;
    audio_channels = 0;
    flags = 0;
  })

-- The payload pointer stands for the bytes that it gives access to, `payload_len` of them, which its users
-- read.
unfoldable pub parse_video : List ℕ → Parse (VideoHeader × List ℕ)
parse_video p = do
  require (leb 15 (length p))
  frame_id ← get_u32 p 0
  timestamp_ms ← get_u32 p 4
  flags ← get_u8 p 8
  slice_index ← get_u16 p 9
  slice_count ← get_u16 p 11
  payload_len ← get_u16 p 13
  require (leb payload_len max_slice_payload)
  require (leb (15 + payload_len) (length p))
  require (not (slice_count == 0))
  require (ltb slice_index slice_count)
  payload ← get_bytes p 15 payload_len
  ok (
    record {
      frame_id = frame_id;
      timestamp_ms = timestamp_ms;
      flags = flags;
      slice_index = slice_index;
      slice_count = slice_count;
      payload_len = payload_len;
    },
    payload,
  )

unfoldable pub parse_audio : List ℕ → Parse (AudioHeader × List ℕ)
parse_audio p = do
  require (leb 6 (length p))
  timestamp_ms ← get_u32 p 0
  payload_len ← get_u16 p 4
  require (leb payload_len max_slice_payload)
  require (leb (6 + payload_len) (length p))
  payload ← get_bytes p 6 payload_len
  ok (record { timestamp_ms = timestamp_ms; payload_len = payload_len }, payload)

-- wsu_read_input_state behind its length test.
unfoldable pub read_input_fields : List ℕ → Parse InputState
read_input_fields p = do
  slot ← get_u8 p 0
  flags ← get_u8 p 1
  buttons ← get_u32 p 2
  lx ← get_i16 p 6
  ly ← get_i16 p 8
  rx ← get_i16 p 10
  ry ← get_i16 p 12
  lt ← get_u8 p 14
  rt ← get_u8 p 15
  touch_x ← get_u16 p 16
  touch_y ← get_u16 p 18
  gyro_pitch ← get_i16 p 20
  gyro_yaw ← get_i16 p 22
  gyro_roll ← get_i16 p 24
  ok (record {
    slot = slot;
    flags = flags;
    buttons = buttons;
    lx = lx;
    ly = ly;
    rx = rx;
    ry = ry;
    lt = lt;
    rt = rt;
    touch_x = touch_x;
    touch_y = touch_y;
    gyro_pitch = gyro_pitch;
    gyro_yaw = gyro_yaw;
    gyro_roll = gyro_roll;
  })

unfoldable pub read_input_state : List ℕ → Parse InputState
unfolding read_input_fields
read_input_state p = do require (leb 26 (length p)); read_input_fields p

unfoldable pub parse_input : List ℕ → Parse (ℕ × InputState)
parse_input p = do
  require (leb 30 (length p))
  timestamp_ms ← get_u32 p 0
  s ← read_input_state (drop 4 p)
  ok (timestamp_ms, s)

-- The loop over `i < n`: each round reads a body at the front of what is left. Its length argument is
-- the constant 26, so the length test inside wsu_read_input_state passes whatever the buffer holds.
unfoldable pub read_input_states : ℕ → List ℕ → Parse (List InputState)
read_input_states zero p = ok []
read_input_states (suc n) p = do
  s ← read_input_fields p
  rest ← read_input_states n (drop 26 p)
  ok (s ∷ rest)

unfoldable pub parse_input_bundle : List ℕ → Parse (ℕ × List InputState)
parse_input_bundle p = do
  require (leb 5 (length p))
  timestamp_ms ← get_u32 p 0
  n ← get_u8 p 4
  require (leb n max_players)
  require (leb (5 + n * 26) (length p))
  states ← read_input_states n (drop 5 p)
  ok (timestamp_ms, states)

unfoldable pub parse_rumble : List ℕ → Parse (ℕ × ℕ)
parse_rumble p = do
  require (leb 2 (length p))
  slot ← get_u8 p 0
  intensity ← get_u8 p 1
  ok (slot, intensity)

unfoldable pub parse_timestamp : List ℕ → Parse ℕ
parse_timestamp p = do require (leb 4 (length p)); get_u32 p 0
