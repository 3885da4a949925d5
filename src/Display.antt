-- ===== src/Display.antt =====
-- pc/src/video/frame_decoder.{h,cpp}, which makes pixels of an assembled frame, and the StatsSink of
-- pc/src/video/video_sink.h. stb_image is a parameter.
pub mod Picture
pub mod Sound
pub mod Inbox
pub mod Texture
pub mod Window
use wii_sec_u.Base.{
  ℕ, zero, suc, ◌+◌, ◌*◌, ◌-◌, ◌^◌, Bool, true, false, not, ◌&&◌, ◌||◌, List, Option, none, some,
  length, take, ltb, ◌==◌, if◌then◌else◌,
}
use wii_sec_u.Base.Int.{ℤ, pos, negsuc}
use wii_sec_u.Protocol.Types.{Config}
use wii_sec_u.Assembler.{Frame}

-- WSU_CODEC_MJPEG and WSU_CODEC_RAWRGB
abbrev pub codec_mjpeg : ℕ
codec_mjpeg = 0

abbrev pub codec_rawrgb : ℕ
codec_rawrgb = 1

pub record DecodedFrame : Type 0 where
  pub width : ℕ
  pub height : ℕ
  pub rgb : List ℕ
  pub timestamp_ms : ℕ
  pub frame_id : ℕ

pub record FrameDecoder : Type 0 where
  pub decoded : ℕ
  pub failed : ℕ

-- stbi_load_from_memory for three channels: the dimensions and the pixels, `none` for a null pointer.
abbrev pub Stb : Type 0
Stb = List ℕ → Option (ℤ × (ℤ × List ℕ))

-- With the frame decoded, `none` for false, on which `out` is left as it is.
abbrev pub Decoding : Type 0
Decoding = FrameDecoder × Option DecodedFrame

abbrev pub fail : FrameDecoder → Decoding
fail s = (record s { failed = suc s.failed }, none)

abbrev pub succeed : Frame → ℕ → ℕ → List ℕ → FrameDecoder → Decoding
succeed frame w h rgb s = (
  record s { decoded = suc s.decoded },
  some (record {
    width = w;
    height = h;
    rgb = rgb;
    timestamp_ms = frame.timestamp_ms;
    frame_id = frame.frame_id;
  }),
)

unfoldable pub decode_raw : ℕ → ℕ → Frame → FrameDecoder → Decoding
decode_raw width height frame s =
    if width == 0 || height == 0 || not (length frame.bytes == width * height * 3)
    then fail s
    else succeed frame width height frame.bytes s

-- The dimensions that stb gives are taken if they are positive.
abbrev pub decode_loaded : Frame → Option (ℤ × (ℤ × List ℕ)) → FrameDecoder → Decoding
decode_loaded frame none s = fail s
decode_loaded frame (some (pos (suc w), (pos (suc h), pixels))) s =
    succeed frame (suc w) (suc h) (take (suc w * suc h * 3) pixels) s
decode_loaded frame (some (pos (suc w), (pos zero, pixels))) s = fail s
decode_loaded frame (some (pos (suc w), (negsuc h, pixels))) s = fail s
decode_loaded frame (some (pos zero, (h, pixels))) s = fail s
decode_loaded frame (some (negsuc w, (h, pixels))) s = fail s

unfoldable pub decode_mjpeg : Stb → Frame → FrameDecoder → Decoding
decode_mjpeg stb frame s =
    if ltb (2 ^ 31 - 1) (length frame.bytes)
    then fail s
    else decode_loaded frame (stb frame.bytes) s

unfoldable pub decode : Stb → ℕ → ℕ → ℕ → Frame → FrameDecoder → Decoding
unfolding decode_raw decode_mjpeg
decode stb codec width height frame s =
    if codec == codec_rawrgb
    then decode_raw width height frame s
    else if codec == codec_mjpeg
    then decode_mjpeg stb frame s
    else fail s

pub record StatsSink : Type 0 where
  pub frames : ℕ
  pub video_total : ℕ
  pub audio_packets : ℕ
  pub audio_total : ℕ
  pub last_frame_id : ℕ
  pub have_config : Bool
  pub config_width : ℕ
  pub config_height : ℕ
  pub config_codec : ℕ

-- onConfig, onFrame and onAudio; the counts are 64 bits wide and are taken not to wrap.
unfoldable pub stats_config : Config → StatsSink → StatsSink
stats_config c s = record s {
  config_width = c.width;
  config_height = c.height;
  config_codec = c.video_codec;
  have_config = true;
}

unfoldable pub stats_frame : Frame → StatsSink → StatsSink
stats_frame f s = record s {
  frames = suc s.frames;
  video_total = s.video_total + length f.bytes;
  last_frame_id = f.frame_id;
}

unfoldable pub stats_audio : ℕ → StatsSink → StatsSink
stats_audio len s = record s {
  audio_packets = suc s.audio_packets;
  audio_total = s.audio_total + len;
}
