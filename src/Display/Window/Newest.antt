-- ===== src/Display/Window/Newest.antt =====
-- What the window shows of a stream, and its closing.
use wii_sec_u.Base.{
  ℕ, suc, ◌<◌, ◌≡◌, refl, sym, ap, ◌∙◌, inl, inr, true, false, not, ◌&&◌, List, [], ◌∷◌, Option,
  none, some, ltb, ◌==◌, if◌then◌else◌, if-both, arith, lt→ltb, Bool-cases,
}
use wii_sec_u.Base.Word.{sub32}
use wii_sec_u.Assembler.{Frame}
use wii_sec_u.Display.{Stb, DecodedFrame}
use wii_sec_u.Display.Texture.{Texture, updated, showing}
use wii_sec_u.Display.Inbox.{inbox_take, waiting_frame}
use wii_sec_u.Display.Inbox.Latest.{inbox_frames, newest, or_else, inbox_frames-newest}
use wii_sec_u.Display.Sound.{is_none}
use wii_sec_u.Display.Window.{
  SdlDisplaySink, create_window, Sdl, sink_frame, has_size, ensure_texture, upload, show_current,
  update_title, pump_created, pump,
}

abbrev pub sink_frames : Stb → List Frame → SdlDisplaySink → SdlDisplaySink
sink_frames stb [] s = s
sink_frames stb (f ∷ fs) s = sink_frames stb fs (sink_frame stb f s)

-- The texture is as large as the sink says.
abbrev pub IsSizedSink : SdlDisplaySink → Type 0
IsSizedSink s =
    (t : Texture) → s.texture ≡ some t → (t.texture_w ≡ s.tex_w) × (t.texture_h ≡ s.tex_h)

-- Frames change nothing but what waits.
pub sink_frames-inbox :
    (stb : Stb) (fs : List Frame) (s : SdlDisplaySink)
    → sink_frames stb fs s ≡ record s { inbox = inbox_frames stb fs s.inbox }
unfolding sink_frame
sink_frames-inbox stb [] s = refl
sink_frames-inbox stb (f ∷ fs) s = sink_frames-inbox stb fs (sink_frame stb f s)

-- A texture of the frame's size is kept.
kept-showing :
    (o : Option Texture) (w h : ℕ) (d : DecodedFrame)
    → ((t : Texture) → o ≡ some t → (t.texture_w ≡ w) × (t.texture_h ≡ h))
    → (not (is_none o) && (d.width == w && d.height == h)) ≡ true
    → (updated d o ≡ some (showing d)) × (is_none o ≡ false)
kept-showing none w h d k e = absurd (ground (arith, e))
kept-showing (some t) w h d k e =
    let (tw, th) = k t refl in
    let dw : d.width ≡ w = ground (arith, e) in
    let dh : d.height ≡ h = ground (arith, e) in
    (
      λ i.
          some
            (record { texture_w = (tw ∙ sym dw) i; texture_h = (th ∙ sym dh) i; pixels = d.rgb }),
      refl,
    )

-- What is drawn of a frame.
upload-ensure_texture :
    (d : DecodedFrame) (s : SdlDisplaySink)
    → IsSizedSink s
    → ((upload d (ensure_texture true d.width d.height s)).texture ≡ some (showing d))
      × ((upload d (ensure_texture true d.width d.height s)).shown_frames ≡ suc s.shown_frames)
unfolding ensure_texture
upload-ensure_texture d s k = elim (Bool-cases (has_size d.width d.height s)) [
  | inr e ↦ rw e (refl, refl)
  | inl e ↦
      let (drawn, there) = kept-showing s.texture s.tex_w s.tex_h d k e in
      rw e (drawn, ap (λ b. if b then s.shown_frames else suc s.shown_frames) there)
]

update_title-texture :
    (now : ℕ) (s : SdlDisplaySink)
    → ((update_title now s).texture ≡ s.texture)
      × ((update_title now s).shown_frames ≡ s.shown_frames)
unfolding update_title
update_title-texture now s =
    let Same : SdlDisplaySink → Type 0 =
      λ t. (t.texture ≡ s.texture) × (t.shown_frames ≡ s.shown_frames) in
    if-both Same (ltb (sub32 now s.last_title) 1000) (refl, refl) (refl, refl)

-- With an open window, after any frames of the stream of which one decodes to a picture, a call of pump
-- without an event that closes the window draws a texture with the size and the pixels of the last one that does
-- and counts one frame as shown, provided SDL gives a texture when one is needed.
pub pump-newest :
    (stb : Stb) (fs : List Frame) (q : Sdl) (s : SdlDisplaySink) (d : DecodedFrame)
    → s.inbox.has_config ≡ true
    → s.closed ≡ false
    → s.has_window ≡ true
    → q.closing ≡ false
    → q.gives_texture ≡ true
    → IsSizedSink s
    → newest stb s.inbox.config fs ≡ some d
    → 0 < d.width
    → let r = pump q (sink_frames stb fs s) in
      (r.0.texture ≡ some (record { texture_w = d.width; texture_h = d.height; pixels = d.rgb }))
      × (r.0.shown_frames ≡ suc s.shown_frames)
      × (r.1 ≡ true)
unfolding pump show_current inbox_take
pump-newest stb fs q s d on alive window stays gives sized last wide =
    let i = inbox_frames stb fs s.inbox in
    let u : SdlDisplaySink = record s { inbox = i } in
    let waits : waiting_frame i ≡ some d =
      inbox_frames-newest stb fs s.inbox on ∙ ap (λ o. or_else o (waiting_frame s.inbox)) last in
    let t : SdlDisplaySink = record u { inbox = (inbox_take i).1 } in
    let (drawn, counted) = upload-ensure_texture d t sized in
    let shows : show_current q.gives_texture (waiting_frame i) t
        ≡ upload d (ensure_texture true d.width d.height t) =
      ap (λ g. show_current g (waiting_frame i) t) gives
      ∙ ap (λ o. show_current true o t) waits
      ∙ ap (λ b. if b then upload d (ensure_texture true d.width d.height t) else t)
          (lt→ltb 0 d.width wide) in
    let end = upload d (ensure_texture true d.width d.height t) in
    let pumped : pump q (sink_frames stb fs s) ≡ (update_title q.now end, true) =
      ap (pump q) (sink_frames-inbox stb fs s)
      ∙ ap
          (λ b.
            if b
            then (u, false)
            else pump_created q (if u.has_window then (u, true) else create_window q u))
          alive
      ∙ ap (λ b. pump_created q (if b then (u, true) else create_window q u)) window
      ∙ ap
          (λ b.
            if b
            then (record u { closed = true }, false)
            else (update_title q.now (show_current q.gives_texture (waiting_frame i) t), true))
          stays
      ∙ ap (λ e. (update_title q.now e, true)) shows in
    let (kept, same) = update_title-texture q.now end in
    (
      ap (λ r. r.0.texture) pumped ∙ (kept ∙ drawn),
      ap (λ r. r.0.shown_frames) pumped ∙ (same ∙ counted),
      ap (λ r. r.1) pumped,
    )
