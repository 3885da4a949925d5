-- ===== src/Gui/View.antt =====
-- pc/src/gui/gui_video_view.cpp: the sink of the graphical program. SDL's textures and audio device are
-- parameters; what is shown of a texture is the picture written to it last.
pub mod Shown
use wii_sec_u.Base.{
  ℕ, zero, suc, ◌+◌, Bool, true, false, not, ◌&&◌, ◌||◌, List, [], Option, none, some, length, ltb,
  ◌==◌, if◌then◌else◌,
}
use wii_sec_u.Base.Int.{ℤ}
use wii_sec_u.Protocol.Types.{Config}
use wii_sec_u.Assembler.{Frame}
use wii_sec_u.Display.{Stb, DecodedFrame}
use wii_sec_u.Display.Inbox.{Inbox, new_inbox, inbox_config, inbox_frame, inbox_take}
use wii_sec_u.Display.Texture.{Texture, blank_texture, updated}
use wii_sec_u.Display.Sound.{Speaker, play}

pub record GuiVideoView : Type 0 where
  pub inbox : Inbox
  pub texture : Option Texture
  pub tex_w : ℕ
  pub tex_h : ℕ
  pub speaker : Speaker
  pub frames : ℕ
  pub video_total : ℕ

unfoldable pub new_view : GuiVideoView
new_view = record {
  inbox = new_inbox;
  texture = none;
  tex_w = 0;
  tex_h = 0;
  speaker = record { device = none; failed = false };
  frames = 0;
  video_total = 0;
}

unfoldable pub view_config : Config → GuiVideoView → GuiVideoView
unfolding inbox_config
view_config c v = record v { inbox = inbox_config c v.inbox }

unfoldable pub view_frame : Stb → Frame → GuiVideoView → GuiVideoView
unfolding inbox_frame
view_frame stb f v =
    let (inbox, decodes) = inbox_frame stb f v.inbox in
    record v {
      inbox = inbox;
      frames = if decodes then suc v.frames else v.frames;
      video_total = if decodes then v.video_total + length f.bytes else v.video_total;
    }

unfoldable pub view_audio : (ℕ → Bool) → ℕ → List ℕ → GuiVideoView → GuiVideoView × Option (List ℤ)
unfolding play
view_audio opens queued payload v =
    let (speaker, samples) =
      play opens queued v.inbox.has_config v.inbox.config payload v.speaker in
    (record v { speaker = speaker }, samples)

-- A texture for a frame: the old one if it has the size, or a new one, if SDL gives it.
abbrev pub texture_for : Bool → ℕ → ℕ → DecodedFrame → Option Texture → Option Texture
texture_for created w h frame none =
    if created then some (blank_texture frame.width frame.height) else none
texture_for created w h frame (some t) =
    if not (frame.width == w) || not (frame.height == h)
    then if created then some (blank_texture frame.width frame.height) else none
    else some t

abbrev pub show_frame : Bool → Option DecodedFrame → GuiVideoView → GuiVideoView
show_frame created none v = v
show_frame created (some frame) v =
    if ltb 0 frame.width
    then record v {
      texture = updated frame (texture_for created v.tex_w v.tex_h frame v.texture);
      tex_w = frame.width;
      tex_h = frame.height;
    }
    else v

-- acquireTexture; `created` is whether SDL_CreateTexture succeeds.
unfoldable pub acquire_texture : Bool → GuiVideoView → GuiVideoView × Option Texture
unfolding inbox_take
acquire_texture created v =
    let (frame, inbox) = inbox_take v.inbox in
    let shown = show_frame created frame (record v { inbox = inbox }) in (shown, shown.texture)

unfoldable pub reset_view : GuiVideoView → GuiVideoView
reset_view v = record {
  inbox = record v.inbox { pending_fresh = false; has_config = false };
  texture = none;
  tex_w = 0;
  tex_h = 0;
  speaker = record { device = none; failed = false };
  frames = 0;
  video_total = 0;
}
