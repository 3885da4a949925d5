-- ===== src/Protocol/Types.antt =====
-- The constants and structs of protocol/wsu_protocol.h. Unsigned fields are numbers, whose widths
-- the `Fits` predicates state; a name is its 16 bytes.
use wii_sec_u.Base.{ℕ, ◌^◌, ◌<◌, List}
use wii_sec_u.Base.Int.{ℤ, pos, IsI16}

abbrev pub proto_magic : ℕ
proto_magic = 0x57535531

abbrev pub proto_version : ℕ
proto_version = 1

abbrev pub header_size : ℕ
header_size = 8

abbrev pub max_packet : ℕ
max_packet = 1400

abbrev pub max_slice_payload : ℕ
max_slice_payload = 1200

abbrev pub max_players : ℕ
max_players = 4

abbrev pub no_slot : ℕ
no_slot = 0xff

abbrev pub touch_none : ℕ
touch_none = 0xffff

abbrev pub input_timeout_ms : ℕ
input_timeout_ms = 1000

abbrev pub peer_timeout_ms : ℕ
peer_timeout_ms = 5000

-- WsuHeader
pub record Header : Type 0 where
  pub version : ℕ
  pub type : ℕ
  pub seq : ℕ

-- WsuHello
pub record Hello : Type 0 where
  pub role : ℕ
  pub flags : ℕ
  pub name : List ℕ

-- WsuHelloAck
pub record HelloAck : Type 0 where
  pub status : ℕ
  pub slot : ℕ

-- WsuConfig
pub record Config : Type 0 where
  pub width : ℕ
  pub height : ℕ
  pub fps : ℕ
  pub video_codec : ℕ
  pub quality : ℕ
  pub audio_codec : ℕ
  pub audio_rate_hz : ℕ
  pub audio_channels : ℕ
  pub flags : ℕ

-- WsuVideoHeader
pub record VideoHeader : Type 0 where
  pub frame_id : ℕ
  pub timestamp_ms : ℕ
  pub flags : ℕ
  pub slice_index : ℕ
  pub slice_count : ℕ
  pub payload_len : ℕ

-- WsuAudioHeader
pub record AudioHeader : Type 0 where
  pub timestamp_ms : ℕ
  pub payload_len : ℕ

-- WsuInputState
pub record InputState : Type 0 where
  pub slot : ℕ
  pub flags : ℕ
  pub buttons : ℕ
  pub lx : ℤ
  pub ly : ℤ
  pub rx : ℤ
  pub ry : ℤ
  pub lt : ℕ
  pub rt : ℕ
  pub touch_x : ℕ
  pub touch_y : ℕ
  pub gyro_pitch : ℤ
  pub gyro_yaw : ℤ
  pub gyro_roll : ℤ

-- wsu_input_state_init
unfoldable pub input_state_init : ℕ → InputState
input_state_init slot = record {
  slot = slot;
  flags = 0;
  buttons = 0;
  lx = pos 0;
  ly = pos 0;
  rx = pos 0;
  ry = pos 0;
  lt = 0;
  rt = 0;
  touch_x = touch_none;
  touch_y = touch_none;
  gyro_pitch = pos 0;
  gyro_yaw = pos 0;
  gyro_roll = pos 0;
}

-- Each field within the width that the struct gives it.
pub record InputFits (s : InputState) : Type 0 where
  pub slot_fits : s.slot < 2 ^ 8
  pub flags_fits : s.flags < 2 ^ 8
  pub buttons_fits : s.buttons < 2 ^ 32
  pub lx_fits : IsI16 s.lx
  pub ly_fits : IsI16 s.ly
  pub rx_fits : IsI16 s.rx
  pub ry_fits : IsI16 s.ry
  pub lt_fits : s.lt < 2 ^ 8
  pub rt_fits : s.rt < 2 ^ 8
  pub touch_x_fits : s.touch_x < 2 ^ 16
  pub touch_y_fits : s.touch_y < 2 ^ 16
  pub gyro_pitch_fits : IsI16 s.gyro_pitch
  pub gyro_yaw_fits : IsI16 s.gyro_yaw
  pub gyro_roll_fits : IsI16 s.gyro_roll

pub record VideoFits (v : VideoHeader) : Type 0 where
  pub frame_id_fits : v.frame_id < 2 ^ 32
  pub timestamp_fits : v.timestamp_ms < 2 ^ 32
  pub slice_index_fits : v.slice_index < 2 ^ 16
  pub slice_count_fits : v.slice_count < 2 ^ 16
  pub payload_len_fits : v.payload_len < 2 ^ 16

pub record ConfigFits (c : Config) : Type 0 where
  pub width_fits : c.width < 2 ^ 16
  pub height_fits : c.height < 2 ^ 16
  pub audio_rate_hz_fits : c.audio_rate_hz < 2 ^ 16
