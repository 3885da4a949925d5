-- ===== src/Display/Window/Closing.antt =====
-- A window that is closed, and the size of the texture from one call of pump to the next.
use wii_sec_u.Base.{
  ℕ, ◌≡◌, ◌⊎◌, refl, sym, ap, subst, ◌∙◌, inl, inr, Bool, true, false, not, ◌||◌, List, Option,
  none, some, ltb, if◌then◌else◌, if-both, arith, Bool-cases,
}
use wii_sec_u.Base.Word.{sub32}
use wii_sec_u.Assembler.{Frame}
use wii_sec_u.Display.{Stb, DecodedFrame}
use wii_sec_u.Display.Texture.{Texture, blank_texture, updated}
use wii_sec_u.Display.Inbox.{inbox_take}
use wii_sec_u.Display.Window.{
  SdlDisplaySink, Sdl, create_window, has_size, ensure_texture, show_current, update_title,
  pump_window, pump_created, pump,
}
use wii_sec_u.Display.Window.Newest.{sink_frames, sink_frames-inbox, IsSizedSink}

-- A result of pump: false only with a closed sink, and a texture of the sink's size.
abbrev IsPumped : SdlDisplaySink × Bool → Type 0
IsPumped (s, ok) = ((ok ≡ true) ⊎ (s.closed ≡ true)) × IsSizedSink s

upload_size :
    (o : Option Texture) (w h : ℕ) (d : DecodedFrame)
    → ((t : Texture) → o ≡ some t → (t.texture_w ≡ w) × (t.texture_h ≡ h))
    → (t : Texture) → updated d o ≡ some t
    → (t.texture_w ≡ w) × (t.texture_h ≡ h)
upload_size none w h d k t e = absurd (ground (arith, e))
upload_size (some x) w h d k t e =
    let (a, b) = k x refl in
    let same : record x { pixels = d.rgb } ≡ t = grind (arith, e) in
    (sym (ap (λ y. y.texture_w) same) ∙ a, sym (ap (λ y. y.texture_h) same) ∙ b)

ensure_texture-IsSizedSink :
    (created : Bool) (w h : ℕ) (s : SdlDisplaySink)
    → IsSizedSink s
    → IsSizedSink (ensure_texture created w h s)
unfolding ensure_texture
ensure_texture-IsSizedSink created w h s k = if-both IsSizedSink (has_size w h s) k (
    if-both IsSizedSink created
      (λ t e.
        let same : blank_texture w h ≡ t = grind (arith, e) in
        (sym (ap (λ y. y.texture_w) same), sym (ap (λ y. y.texture_h) same)))
      (λ t e. absurd (ground (arith, e))))

show_current-IsSizedSink :
    (created : Bool) (o : Option DecodedFrame) (s : SdlDisplaySink)
    → IsSizedSink s
    → IsSizedSink (show_current created o s)
unfolding show_current
show_current-IsSizedSink created none s k = k
show_current-IsSizedSink created (some d) s k =
    let r = ensure_texture created d.width d.height s in
    if-both IsSizedSink (ltb 0 d.width)
      (upload_size r.texture r.tex_w r.tex_h d
        (ensure_texture-IsSizedSink created d.width d.height s k))
      k

pump_window-IsPumped : (q : Sdl) (s : SdlDisplaySink) → IsSizedSink s → IsPumped (pump_window q s)
unfolding update_title
pump_window-IsPumped q s k =
    let t : SdlDisplaySink = record s { inbox = (inbox_take s.inbox).1 } in
    let u = show_current q.gives_texture (inbox_take s.inbox).0 t in
    let sized = show_current-IsSizedSink q.gives_texture (inbox_take s.inbox).0 t k in
    if-both IsPumped q.closing (inr refl, k)
      (inl refl, if-both IsSizedSink (ltb (sub32 q.now u.last_title) 1000) sized sized)

pump_created-IsPumped :
    (q : Sdl) (s : SdlDisplaySink) (ok : Bool) → IsSizedSink s → IsPumped (pump_created q (s, ok))
pump_created-IsPumped q s ok k = if-both IsPumped ok (pump_window-IsPumped q s k) (inr refl, k)

pump-IsPumped : (q : Sdl) (s : SdlDisplaySink) → IsSizedSink s → IsPumped (pump q s)
unfolding pump create_window
pump-IsPumped q s k =
    let windowed = record s { has_window = true; has_renderer = q.accelerated || q.plain } in
    let rest = pump_created q (if s.has_window then (s, true) else create_window q s) in
    let Fine : SdlDisplaySink × Bool → Type 0 = λ r. IsPumped (pump_created q r) in
    let opened : IsPumped rest = if-both Fine s.has_window (pump_created-IsPumped q s true k) (
      if-both Fine (not q.gives_window) (pump_created-IsPumped q s false k)
        (pump_created-IsPumped q windowed (q.accelerated || q.plain) k)) in
    elim (Bool-cases s.closed) [
      | inl e ↦ subst (λ b. IsPumped (if b then (s, false) else rest)) (sym e) (inr e, k)
      | inr e ↦ subst (λ b. IsPumped (if b then (s, false) else rest)) (sym e) opened
    ]

stays_closed : (q : Sdl) (s : SdlDisplaySink) → s.closed ≡ true → pump q s ≡ (s, false)
unfolding pump
stays_closed q s e =
    ap
      (λ b.
        if b
        then (s, false)
        else pump_created q (if s.has_window then (s, true) else create_window q s))
      e

-- A call of pump that returns false, because the window was closed or could not be made, is the last that
-- does anything: whatever frames come after it, the next call returns false and changes nothing. And the sink's
-- size stays that of its texture.
pub pump-closed :
    (q q2 : Sdl) (stb : Stb) (fs : List Frame) (s : SdlDisplaySink)
    → IsSizedSink s
    → (pump q s).1 ≡ false
    → let t = sink_frames stb fs (pump q s).0 in (pump q2 t ≡ (t, false)) × IsSizedSink (pump q s).0
pump-closed q q2 stb fs s k h =
    let (closes, sized) = pump-IsPumped q s k in
    let shut : (pump q s).0.closed ≡ true = elim closes [
      | inl e ↦ absurd (ground (arith, sym e ∙ h))
      | inr e ↦ e
    ] in
    (
      stays_closed q2 (sink_frames stb fs (pump q s).0)
          (ap (λ t. t.closed) (sink_frames-inbox stb fs (pump q s).0) ∙ shut),
      sized,
    )
