-- ===== src/Display/Inbox.antt =====
-- What a sink with a picture keeps under its mutex, as GuiVideoView (pc/src/gui/gui_video_view.cpp) and
-- SdlDisplaySink (pc/src/video/sdl_display_sink.cpp) both do: the configuration and the newest frame.
pub mod Latest
use wii_sec_u.Base.{
  ℕ, zero, suc, Bool, true, false, not, ◌&&◌, List, [], ◌∷◌, Option, none, some, if◌then◌else◌,
}
use wii_sec_u.Protocol.Types.{Config}
use wii_sec_u.Assembler.{Frame}
use wii_sec_u.Display.{Stb, FrameDecoder, DecodedFrame, decode}

pub record Inbox : Type 0 where
  pub config : Config
  pub has_config : Bool
  pub decoder : FrameDecoder
  pub pending : DecodedFrame
  pub pending_fresh : Bool

-- The members of a new sink.
unfoldable pub new_inbox : Inbox
new_inbox = record {
  config = record {
    width = 0;
    height = 0;
    fps = 0;
    video_codec = 0;
    quality = 0;
    audio_codec = 0;
    audio_rate_hz = 0;
    audio_channels = 0;
    flags = 0;
  };
  has_config = false;
  decoder = record { decoded = 0; failed = 0 };
  pending = record { width = 0; height = 0; rgb = []; timestamp_ms = 0; frame_id = 0 };
  pending_fresh = false;
}

-- onConfig
unfoldable pub inbox_config : Config → Inbox → Inbox
inbox_config c i = record i { config = c; has_config = true }

-- `decoder_.decode(config_.videoCodec, config_.width, config_.height, frame, decoded)`
abbrev pub decoding : Stb → Frame → Inbox → FrameDecoder × Option DecodedFrame
decoding stb frame i =
    decode stb i.config.video_codec i.config.width i.config.height frame i.decoder

abbrev pub keep_decoded : Option DecodedFrame → FrameDecoder → Inbox → Inbox × Bool
keep_decoded none decoder i = (record i { decoder = decoder }, false)
keep_decoded (some decoded) decoder i =
    (record i { decoder = decoder; pending = decoded; pending_fresh = true }, true)

-- onFrame, with whether the frame decodes.
unfoldable pub inbox_frame : Stb → Frame → Inbox → Inbox × Bool
unfolding decode
inbox_frame stb frame i =
    if not i.has_config
    then (i, false)
    else keep_decoded (decoding stb frame i).1 (decoding stb frame i).0 i

-- The newest frame, if it has not been taken yet.
abbrev pub waiting_frame : Inbox → Option DecodedFrame
waiting_frame i = if i.pending_fresh then some i.pending else none

unfoldable pub inbox_take : Inbox → Option DecodedFrame × Inbox
inbox_take i = (waiting_frame i, if i.pending_fresh then record i { pending_fresh = false } else i)
