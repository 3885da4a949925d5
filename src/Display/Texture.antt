-- ===== src/Display/Texture.antt =====
-- What the sinks keep of an SDL_Texture: its size, and the picture written to it last.
use wii_sec_u.Base.{ℕ, List, [], Option, none, some}
use wii_sec_u.Display.{DecodedFrame}

pub record Texture : Type 0 where
  pub texture_w : ℕ
  pub texture_h : ℕ
  pub pixels : List ℕ

-- SDL_CreateTexture
abbrev pub blank_texture : ℕ → ℕ → Texture
blank_texture w h = record { texture_w = w; texture_h = h; pixels = [] }

-- SDL_UpdateTexture
abbrev pub updated : DecodedFrame → Option Texture → Option Texture
updated frame none = none
updated frame (some t) = some (record t { pixels = frame.rgb })

-- The texture that shows a frame.
abbrev pub showing : DecodedFrame → Texture
showing d = record { texture_w = d.width; texture_h = d.height; pixels = d.rgb }
