-- ===== src/Protocol/Safety.antt =====
-- What the parsers of protocol/wsu_protocol.h read: never a byte outside the datagram.
use wii_sec_u.Base.{
  ℕ, zero, suc, ◌*◌, ◌≤◌, ◌≡◌, ◌≢◌, ◌&&◌, List, drop, length, leb, ◌==◌, if◌then◌else◌, arith,
  length-drop,
}
use wii_sec_u.Base.Int.{to_i16}
use wii_sec_u.Protocol.Wire.{
  ok, reject, fault, u8_at, u16_at, u32_at, get_u8-at, get_u16-at, get_u32-at, get_i16-at,
  get_bytes-at,
}
use wii_sec_u.Protocol.Types.{proto_magic, Header, InputState}
use wii_sec_u.Protocol.Parse.{
  parse_header, parse_hello, parse_hello_ack, parse_config, parse_video, parse_audio,
  read_input_fields, read_input_state, parse_input, read_input_states, parse_input_bundle,
  parse_rumble, parse_timestamp,
}

abbrev pub header_at : List ℕ → Header
header_at p = record { version = u8_at p 4; type = u8_at p 5; seq = u16_at p 6 }

-- A header is accepted exactly when eight bytes are there and begin with the magic number.
pub parse_header-eq :
    (p : List ℕ)
    → parse_header p
      ≡ (if leb 8 (length p) && (u32_at p 0 == proto_magic) then ok (header_at p) else reject)
unfolding parse_header
parse_header-eq p = ground (arith, get_u32-at p 0, get_u8-at p 4, get_u8-at p 5, get_u16-at p 6)

parse_video-ne-fault : (p : List ℕ) → parse_video p ≢ fault
unfolding parse_video
parse_video-ne-fault p = ground (
  arith,
  get_u32-at p 0,
  get_u32-at p 4,
  get_u8-at p 8,
  get_u16-at p 9,
  get_u16-at p 11,
  get_u16-at p 13,
  get_bytes-at p 15 (u16_at p 13),
)

parse_audio-ne-fault : (p : List ℕ) → parse_audio p ≢ fault
unfolding parse_audio
parse_audio-ne-fault p =
    ground (arith, get_u32-at p 0, get_u16-at p 4, get_bytes-at p 6 (u16_at p 4))

parse_config-ne-fault : (p : List ℕ) → parse_config p ≢ fault
unfolding parse_config
parse_config-ne-fault p = ground (
  arith,
  get_u16-at p 0,
  get_u16-at p 2,
  get_u8-at p 4,
  get_u8-at p 5,
  get_u8-at p 6,
  get_u8-at p 7,
  get_u16-at p 8,
)

parse_hello-ne-fault : (p : List ℕ) → parse_hello p ≢ fault
unfolding parse_hello
parse_hello-ne-fault p = ground (arith, get_u8-at p 0, get_u8-at p 1, get_bytes-at p 2 16)

parse_hello_ack-ne-fault : (p : List ℕ) → parse_hello_ack p ≢ fault
unfolding parse_hello_ack
parse_hello_ack-ne-fault p = ground (arith, get_u8-at p 0, get_u8-at p 1)

parse_rumble-ne-fault : (p : List ℕ) → parse_rumble p ≢ fault
unfolding parse_rumble
parse_rumble-ne-fault p = ground (arith, get_u8-at p 0, get_u8-at p 1)

parse_timestamp-ne-fault : (p : List ℕ) → parse_timestamp p ≢ fault
unfolding parse_timestamp
parse_timestamp-ne-fault p = ground (arith, get_u32-at p 0)

abbrev pub input_at : List ℕ → InputState
input_at p = record {
  slot = u8_at p 0;
  flags = u8_at p 1;
  buttons = u32_at p 2;
  lx = to_i16 (u16_at p 6);
  ly = to_i16 (u16_at p 8);
  rx = to_i16 (u16_at p 10);
  ry = to_i16 (u16_at p 12);
  lt = u8_at p 14;
  rt = u8_at p 15;
  touch_x = u16_at p 16;
  touch_y = u16_at p 18;
  gyro_pitch = to_i16 (u16_at p 20);
  gyro_yaw = to_i16 (u16_at p 22);
  gyro_roll = to_i16 (u16_at p 24);
}

pub read_input_fields-eq : (p : List ℕ) → 26 ≤ length p → read_input_fields p ≡ ok (input_at p)
unfolding read_input_fields
read_input_fields-eq p h = rw (
  get_u8-at p 0 (omega arith),
  get_u8-at p 1 (omega arith),
  get_u32-at p 2 (omega arith),
  get_i16-at p 6 (omega arith),
  get_i16-at p 8 (omega arith),
  get_i16-at p 10 (omega arith),
  get_i16-at p 12 (omega arith),
  get_u8-at p 14 (omega arith),
  get_u8-at p 15 (omega arith),
  get_u16-at p 16 (omega arith),
  get_u16-at p 18 (omega arith),
  get_i16-at p 20 (omega arith),
  get_i16-at p 22 (omega arith),
  get_i16-at p 24 (omega arith),
)

read_input_state-ne-fault : (p : List ℕ) → read_input_state p ≢ fault
unfolding read_input_state
read_input_state-ne-fault p = ground (arith, read_input_fields-eq p)

parse_input-ne-fault : (p : List ℕ) → parse_input p ≢ fault
unfolding parse_input
parse_input-ne-fault p = ground (arith, get_u32-at p 0, read_input_state-ne-fault (drop 4 p))

read_input_states-ne-fault :
    (n : ℕ) (p : List ℕ) → n * 26 ≤ length p → read_input_states n p ≢ fault
unfolding read_input_states
read_input_states-ne-fault zero p h = ground arith
read_input_states-ne-fault (suc n) p h =
    ground
      (arith, read_input_fields-eq p, length-drop 26 p, read_input_states-ne-fault n (drop 26 p))

parse_input_bundle-ne-fault : (p : List ℕ) → parse_input_bundle p ≢ fault
unfolding parse_input_bundle
parse_input_bundle-ne-fault p = ground (
  arith,
  get_u32-at p 0,
  get_u8-at p 4,
  length-drop 5 p,
  read_input_states-ne-fault (u8_at p 4) (drop 5 p),
)

-- Whatever bytes a datagram holds, no parser reads outside it, the copy of a HELLO's name and the payload
-- of a VIDEO or AUDIO datagram among its reads.
pub parsers-ne-fault :
    (p : List ℕ)
    → (parse_header p ≢ fault)
      × (parse_hello p ≢ fault)
      × (parse_hello_ack p ≢ fault)
      × (parse_config p ≢ fault)
      × (parse_video p ≢ fault)
      × (parse_audio p ≢ fault)
      × (parse_input p ≢ fault)
      × (parse_input_bundle p ≢ fault)
      × (parse_rumble p ≢ fault)
      × (parse_timestamp p ≢ fault)
parsers-ne-fault p = (
  ground (arith, parse_header-eq p),
  parse_hello-ne-fault p,
  parse_hello_ack-ne-fault p,
  parse_config-ne-fault p,
  parse_video-ne-fault p,
  parse_audio-ne-fault p,
  parse_input-ne-fault p,
  parse_input_bundle-ne-fault p,
  parse_rumble-ne-fault p,
  parse_timestamp-ne-fault p,
)
