-- ===== src/Gui/View/Shown.antt =====
-- What the graphical program draws of a stream.
use wii_sec_u.Base.{
  ℕ, ◌<◌, ◌≡◌, refl, sym, ap, ◌∙◌, inl, inr, true, not, ◌||◌, List, [], ◌∷◌, Option, none, some,
  ◌==◌, if◌then◌else◌, arith, lt→ltb, Bool-cases,
}
use wii_sec_u.Assembler.{Frame}
use wii_sec_u.Display.{Stb, DecodedFrame}
use wii_sec_u.Display.Inbox.{inbox_take, waiting_frame}
use wii_sec_u.Display.Inbox.Latest.{inbox_frames, newest, or_else, inbox_frames-newest}
use wii_sec_u.Display.Texture.{Texture, updated, showing}
use wii_sec_u.Gui.View.{GuiVideoView, view_frame, texture_for, show_frame, acquire_texture}

abbrev pub view_frames : Stb → List Frame → GuiVideoView → GuiVideoView
view_frames stb [] v = v
view_frames stb (f ∷ fs) v = view_frames stb fs (view_frame stb f v)

-- The texture is as large as the view says.
abbrev pub IsSized : GuiVideoView → Type 0
IsSized v = (t : Texture) → v.texture ≡ some t → (t.texture_w ≡ v.tex_w) × (t.texture_h ≡ v.tex_h)

view_frames-inbox :
    (stb : Stb) (fs : List Frame) (v : GuiVideoView)
    → ((view_frames stb fs v).inbox ≡ inbox_frames stb fs v.inbox)
      × ((view_frames stb fs v).texture ≡ v.texture)
      × ((view_frames stb fs v).tex_w ≡ v.tex_w)
      × ((view_frames stb fs v).tex_h ≡ v.tex_h)
unfolding view_frame
view_frames-inbox stb [] v = (refl, refl, refl, refl)
view_frames-inbox stb (f ∷ fs) v = view_frames-inbox stb fs (view_frame stb f v)

texture_for-showing :
    (w h : ℕ) (d : DecodedFrame) (o : Option Texture)
    → ((t : Texture) → o ≡ some t → (t.texture_w ≡ w) × (t.texture_h ≡ h))
    → updated d (texture_for true w h d o) ≡ some (showing d)
texture_for-showing w h d none k = refl
texture_for-showing w h d (some t) k =
    let (tw, th) = k t refl in
    elim (Bool-cases (not (d.width == w) || not (d.height == h))) [
      | inl e ↦ rw e refl
      | inr e ↦
          let dw : d.width ≡ w = ground (arith, e) in
          let dh : d.height ≡ h = ground (arith, e) in
          rw e (λ i.
            some
              (record { texture_w = (tw ∙ sym dw) i; texture_h = (th ∙ sym dh) i; pixels = d.rgb }))
    ]

-- After any frames of the stream, if one of them decodes to a picture, the texture that is drawn has the
-- size and the pixels of the last one that does, provided SDL gives a texture when one is needed.
pub acquire_texture-newest :
    (stb : Stb) (fs : List Frame) (v : GuiVideoView) (d : DecodedFrame)
    → v.inbox.has_config ≡ true
    → IsSized v
    → newest stb v.inbox.config fs ≡ some d
    → 0 < d.width
    → (acquire_texture true (view_frames stb fs v)).1
      ≡ some (record { texture_w = d.width; texture_h = d.height; pixels = d.rgb })
unfolding acquire_texture inbox_take
acquire_texture-newest stb fs v d on sized last wide =
    let u = view_frames stb fs v in
    let (inbox, texture, w, h) = view_frames-inbox stb fs v in
    let waits : waiting_frame u.inbox ≡ some d =
      ap waiting_frame inbox
      ∙ (inbox_frames-newest stb fs v.inbox on
          ∙ ap (λ o. or_else o (waiting_frame v.inbox)) last) in
    let kept : (t : Texture)
        → u.texture ≡ some t
        → (t.texture_w ≡ u.tex_w) × (t.texture_h ≡ u.tex_h) =
      λ t e. let (a, b) = sized t (sym texture ∙ e) in (a ∙ sym w, b ∙ sym h) in
    let rest = (inbox_take u.inbox).1 in
    ap (λ o. (show_frame true o (record u { inbox = rest })).texture) waits
    ∙ (ap
          (λ b.
            (if b
              then record u {
                inbox = rest;
                texture = updated d (texture_for true u.tex_w u.tex_h d u.texture);
                tex_w = d.width;
                tex_h = d.height;
              }
              else record u { inbox = rest }).texture)
          (lt→ltb 0 d.width wide)
        ∙ texture_for-showing u.tex_w u.tex_h d u.texture kept)
