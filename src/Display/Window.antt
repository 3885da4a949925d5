-- ===== src/Display/Window.antt =====
-- pc/src/video/sdl_display_sink.cpp: the sink with a window of its own. SDL's window, renderer, textures,
-- events and audio device are parameters; render, which only draws, is left out.
pub mod Newest
pub mod Closing
use wii_sec_u.Base.{
  ℕ, zero, suc, ◌+◌, ◌-◌, ◌%◌, ◌^◌, Bool, true, false, not, ◌&&◌, ◌||◌, List, Option, none, some,
  ltb, leb, ◌==◌, if◌then◌else◌,
}
use wii_sec_u.Base.Int.{ℤ}
use wii_sec_u.Base.Word.{sub32}
use wii_sec_u.Protocol.Types.{Config}
use wii_sec_u.Assembler.{Frame}
use wii_sec_u.Display.{Stb, DecodedFrame}
use wii_sec_u.Display.Texture.{Texture, blank_texture, updated}
use wii_sec_u.Display.Inbox.{Inbox, inbox_config, inbox_frame, inbox_take}
use wii_sec_u.Display.Sound.{Speaker, is_none, play}

-- The members; `title` is what updateTitle last wrote: the size and the frames of a second.
pub record SdlDisplaySink : Type 0 where
  pub inbox : Inbox
  pub has_window : Bool
  pub has_renderer : Bool
  pub texture : Option Texture
  pub tex_w : ℕ
  pub tex_h : ℕ
  pub closed : Bool
  pub speaker : Speaker
  pub shown_frames : ℕ
  pub last_shown : ℕ
  pub last_title : ℕ
  pub title : Option (ℕ × (ℕ × ℕ))

-- What SDL and the clock tell in a call of pump: whether it gives a window, a renderer with and one
-- without acceleration, and a texture; whether one of the events closes the window; and the time.
pub record Sdl : Type 0 where
  pub gives_window : Bool
  pub accelerated : Bool
  pub plain : Bool
  pub gives_texture : Bool
  pub closing : Bool
  pub now : ℕ

unfoldable pub sink_config : Config → SdlDisplaySink → SdlDisplaySink
unfolding inbox_config
sink_config c s = record s { inbox = inbox_config c s.inbox }

unfoldable pub sink_frame : Stb → Frame → SdlDisplaySink → SdlDisplaySink
unfolding inbox_frame
sink_frame stb f s = record s { inbox = (inbox_frame stb f s.inbox).0 }

unfoldable pub sink_audio :
    (ℕ → Bool) → ℕ → List ℕ → SdlDisplaySink → SdlDisplaySink × Option (List ℤ)
unfolding play
sink_audio opens queued payload s =
    let (speaker, samples) =
      play opens queued s.inbox.has_config s.inbox.config payload s.speaker in
    (record s { speaker = speaker }, samples)

unfoldable pub create_window : Sdl → SdlDisplaySink → SdlDisplaySink × Bool
create_window q s = if not q.gives_window then (s, false) else (
  record s { has_window = true; has_renderer = q.accelerated || q.plain },
  q.accelerated || q.plain,
)

-- The texture's size is the wanted one.
abbrev pub has_size : ℕ → ℕ → SdlDisplaySink → Bool
has_size w h s = not (is_none s.texture) && (w == s.tex_w && h == s.tex_h)

unfoldable pub ensure_texture : Bool → ℕ → ℕ → SdlDisplaySink → SdlDisplaySink
ensure_texture created w h s =
    if has_size w h s
    then s
    else if created
    then record s { texture = some (blank_texture w h); tex_w = w; tex_h = h }
    else record s { texture = none }

-- SDL_UpdateTexture, if there is a texture.
abbrev pub upload : DecodedFrame → SdlDisplaySink → SdlDisplaySink
upload frame s = record s {
  texture = updated frame s.texture;
  shown_frames = if is_none s.texture then s.shown_frames else suc s.shown_frames;
}

unfoldable pub show_current : Bool → Option DecodedFrame → SdlDisplaySink → SdlDisplaySink
unfolding ensure_texture
show_current created none s = s
show_current created (some frame) s =
    if ltb 0 frame.width
    then upload frame (ensure_texture created frame.width frame.height s)
    else s

unfoldable pub update_title : ℕ → SdlDisplaySink → SdlDisplaySink
update_title now s = if ltb (sub32 now s.last_title) 1000 then s else record s {
  title = some (
    s.tex_w,
    (s.tex_h, (s.shown_frames % 2 ^ 64 + 2 ^ 64 - s.last_shown % 2 ^ 64) % 2 ^ 64 % 2 ^ 32),
  );
  last_shown = s.shown_frames;
  last_title = now;
}

-- pump from the events on.
abbrev pub pump_window : Sdl → SdlDisplaySink → SdlDisplaySink × Bool
pump_window q s = if q.closing then (record s { closed = true }, false) else (
  update_title q.now (
      show_current q.gives_texture (inbox_take s.inbox).0
        (record s { inbox = (inbox_take s.inbox).1 })),
  true,
)

abbrev pub pump_created : Sdl → SdlDisplaySink × Bool → SdlDisplaySink × Bool
pump_created q (s, ok) = if ok then pump_window q s else (record s { closed = true }, false)

unfoldable pub pump : Sdl → SdlDisplaySink → SdlDisplaySink × Bool
unfolding create_window inbox_take show_current update_title
pump q s =
    if s.closed
    then (s, false)
    else pump_created q (if s.has_window then (s, true) else create_window q s)
