-- ===== src/Tests/Wire.antt =====
-- Datagrams of protocol/wsu_protocol.h.
use wii_sec_u.Base.{ℕ, ◌≢◌, refl, List, [], ◌∷◌, arith}
use wii_sec_u.Base.Int.{pos, negsuc}
use wii_sec_u.Protocol.Wire.{fault}
use wii_sec_u.Protocol.Types.{
  Hello, HelloAck, Config, VideoHeader, AudioHeader, InputState, InputFits, VideoFits,
}
use wii_sec_u.Protocol.Pkt
use wii_sec_u.Protocol.Pack.{pack_config, pack_video, pack_input_bundle}
use wii_sec_u.Protocol.Parse.{
  parse_header, parse_hello, parse_hello_ack, parse_config, parse_video, parse_audio, parse_input,
  parse_input_bundle, parse_rumble, parse_timestamp,
}
use wii_sec_u.Protocol.Safety.{parsers-ne-fault}
use wii_sec_u.Protocol.Roundtrip.{
  Received, without_channels, pack_config-Received, pack_video-Received, pack_input_bundle-Received,
}

-- Two bytes, too short for anything.
abbrev short_datagram : List ℕ
short_datagram = 0x57 ∷ 0x53 ∷ []

parsers-ne-fault_example :
    (parse_header short_datagram ≢ fault)
    × (parse_hello short_datagram ≢ fault)
    × (parse_hello_ack short_datagram ≢ fault)
    × (parse_config short_datagram ≢ fault)
    × (parse_video short_datagram ≢ fault)
    × (parse_audio short_datagram ≢ fault)
    × (parse_input short_datagram ≢ fault)
    × (parse_input_bundle short_datagram ≢ fault)
    × (parse_rumble short_datagram ≢ fault)
    × (parse_timestamp short_datagram ≢ fault)
parsers-ne-fault_example = parsers-ne-fault short_datagram

-- A stick to the left, A pressed, a touch.
abbrev pub pressed : InputState
pressed = record {
  slot = 2;
  flags = 1;
  buttons = 0x80000001;
  lx = negsuc 32766;
  ly = pos 5;
  rx = pos 32767;
  ry = negsuc 0;
  lt = 255;
  rt = 7;
  touch_x = 4095;
  touch_y = 300;
  gyro_pitch = pos 1;
  gyro_yaw = negsuc 99;
  gyro_roll = pos 0;
}

pub pressed-InputFits : InputFits pressed
pressed-InputFits = record {
  slot_fits = omega arith;
  flags_fits = omega arith;
  buttons_fits = omega arith;
  lx_fits = omega arith;
  ly_fits = omega arith;
  rx_fits = omega arith;
  ry_fits = omega arith;
  lt_fits = omega arith;
  rt_fits = omega arith;
  touch_x_fits = omega arith;
  touch_y_fits = omega arith;
  gyro_pitch_fits = omega arith;
  gyro_yaw_fits = omega arith;
  gyro_roll_fits = omega arith;
}

pack_input_bundle-Received_example :
    Received 1400
      (pack_input_bundle 1400 65535 9 (pressed ∷ pressed ∷ []))
      Pkt.input_bundle
      65535
      parse_input_bundle
      (9, pressed ∷ pressed ∷ [])
pack_input_bundle-Received_example =
    pack_input_bundle-Received 1400 65535 9 (pressed ∷ pressed ∷ []) (omega arith) (omega arith)
      (omega arith) (omega arith) (pressed-InputFits, (pressed-InputFits, tt))

abbrev slice_two : VideoHeader
slice_two = record {
  frame_id = 70000;
  timestamp_ms = 16;
  flags = 1;
  slice_index = 1;
  slice_count = 2;
  payload_len = 3;
}

slice_two-VideoFits : VideoFits slice_two
slice_two-VideoFits = record {
  frame_id_fits = omega arith;
  timestamp_fits = omega arith;
  slice_index_fits = omega arith;
  slice_count_fits = omega arith;
  payload_len_fits = omega arith;
}

pack_video-Received_example :
    Received 1400
      (pack_video 1400 1 slice_two (9 ∷ 8 ∷ 7 ∷ []))
      Pkt.video
      1
      parse_video
      (slice_two, 9 ∷ 8 ∷ 7 ∷ [])
pack_video-Received_example =
    pack_video-Received 1400 1 slice_two (9 ∷ 8 ∷ 7 ∷ []) (omega arith) (omega arith)
      slice_two-VideoFits refl (omega arith) (omega arith)

abbrev sound : AudioHeader
sound = record { timestamp_ms = 80; payload_len = 4 }

abbrev pub stereo : Config
stereo = record {
  width = 854;
  height = 480;
  fps = 30;
  video_codec = 0;
  quality = 80;
  audio_codec = 1;
  audio_rate_hz = 48000;
  audio_channels = 2;
  flags = 0;
}

pack_config-Received_example :
    Received 18 (pack_config 18 3 stereo) Pkt.config 3 parse_config (without_channels stereo)
pack_config-Received_example =
    pack_config-Received 18 3 stereo (omega arith) (omega arith) record {
      width_fits = omega arith;
      height_fits = omega arith;
      audio_rate_hz_fits = omega arith;
    }

abbrev pub anna : Hello
anna = record {
  role = 2;
  flags = 0;
  name = 97 ∷ 110 ∷ 110 ∷ 97 ∷ 0 ∷ 0 ∷ 0 ∷ 0 ∷ 0 ∷ 0 ∷ 0 ∷ 0 ∷ 0 ∷ 0 ∷ 0 ∷ 0 ∷ [];
}

abbrev seat : HelloAck
seat = record { status = 0; slot = 1 }
