-- ===== src/Gui/App/Run/Screens.antt =====
-- The screens keep the program in order.
use wii_sec_u.Base.{
  ℕ, ◌≤◌, ◌≡◌, refl, sym, subst, Bool, true, ltb, Option, none, some, leb, if◌then◌else◌, if-both,
  arith,
}
use wii_sec_u.Base.Word.{sub32}
use wii_sec_u.Display.{DecodedFrame}
use wii_sec_u.Display.Inbox.{inbox_take}
use wii_sec_u.Gui.View.{GuiVideoView, show_frame, acquire_texture}
use wii_sec_u.Gui.App.{Mode, idle, hosting, joined, GuiApp}
use wii_sec_u.Gui.App.Run.{
  Pass, draw_home, draw_video, refresh_hosting, refresh_joined, following, draw_hosting,
  draw_joined, draw_mode, draw_ui,
}
use wii_sec_u.Gui.App.Run.Order.{
  is_some, GoesWith, IsGui, IsFine, IsFine-bind, stop_session-IsGui, log_panel-IsGui, of_mode,
  home_click-IsFine,
}

show_frame-counts :
    (created : Bool) (f : Option DecodedFrame) (v : GuiVideoView)
    → ((show_frame created f v).frames ≡ v.frames)
      × ((show_frame created f v).video_total ≡ v.video_total)
show_frame-counts created none v = (refl, refl)
show_frame-counts created (some f) v =
    let Same : GuiVideoView → Type 0 =
      λ w. (w.frames ≡ v.frames) × (w.video_total ≡ v.video_total) in
    if-both Same (ltb 0 f.width) (refl, refl) (refl, refl)

-- The picture that is drawn does not change what is counted.
acquire_texture-counts :
    (created : Bool) (v : GuiVideoView)
    → ((acquire_texture created v).0.frames ≡ v.frames)
      × ((acquire_texture created v).0.video_total ≡ v.video_total)
unfolding acquire_texture
acquire_texture-counts created v =
    show_frame-counts created (inbox_take v.inbox).0 (record v { inbox = (inbox_take v.inbox).1 })

draw_video-IsGui : (u : Pass) (a : GuiApp) → IsGui a → IsGui (draw_video u a)
draw_video-IsGui u a (g, f, b) =
    let (fs, bs) = acquire_texture-counts u.created a.view in
    let Counts : ℕ → ℕ → Type 0 = λ x y.
      GoesWith a.mode a.host a.client a.joinable a.stop_flag a.session_alive a.shared.valid x y
      × (a.stat_frames ≤ x)
      × (a.stat_bytes ≤ y) in
    subst (λ x. Counts x (acquire_texture u.created a.view).0.video_total) (sym fs)
      (subst (λ y. Counts a.view.frames y) (sym bs) (g, f, b))

refresh_hosting-IsGui : (now : ℕ) (a : GuiApp) → IsGui a → IsGui (refresh_hosting now a)
refresh_hosting-IsGui now a (g, f, b) =
    if-both IsGui (leb 1000 (sub32 now a.stat_stamp)) (g, ground arith, ground arith) (g, f, b)

refresh_joined-IsGui : (now : ℕ) (a : GuiApp) → IsGui a → IsGui (refresh_joined now a)
refresh_joined-IsGui now a (g, f, b) =
    if-both IsGui (leb 1000 (sub32 now a.stat_stamp)) (g, ground arith, b) (g, f, b)

following-IsFine {ℓ} :
    {A : Type ℓ} (o : Option A) (a : GuiApp) → is_some o ≡ true → IsGui a → IsFine (following o a)
following-IsFine none a e g = absurd (ground (arith, e))
following-IsFine (some p) a e g = g

draw_hosting-IsFine :
    (u : Pass) (a : GuiApp) → a.mode ≡ hosting → IsGui a → IsFine (draw_hosting u a)
unfolding draw_hosting
draw_hosting-IsFine u a m g = if-both IsFine u.leaves (stop_session-IsGui a) (
    IsFine-bind (following a.host (refresh_hosting u.now a)) _
      (following-IsFine a.host (refresh_hosting u.now a) (of_mode hosting a m g).0
        (refresh_hosting-IsGui u.now a g))
      (λ b h.
        let c = record b { show_logs = u.logs } in
        log_panel-IsGui u (draw_video u c) (draw_video-IsGui u c h)))

draw_joined-IsFine : (u : Pass) (a : GuiApp) → a.mode ≡ joined → IsGui a → IsFine (draw_joined u a)
unfolding draw_joined
draw_joined-IsFine u a m g =
    let b = if u.connected then refresh_joined u.now a else a in
    IsFine-bind (following a.client b) _
      (following-IsFine a.client b (of_mode joined a m g).1
        (if-both IsGui u.connected (refresh_joined-IsGui u.now a g) g))
      (λ c h. if-both IsGui u.leaves (stop_session-IsGui c) (draw_video-IsGui u c h))

draw_mode-IsFine :
    (fit : ℕ → ℕ) (u : Pass) (m : Mode) (a : GuiApp)
    → a.mode ≡ m
    → IsGui a
    → IsFine (draw_mode fit u m a)
unfolding draw_home
draw_mode-IsFine fit u idle a m g = home_click-IsFine fit u u.click a m g
draw_mode-IsFine fit u hosting a m g = draw_hosting-IsFine u a m g
draw_mode-IsFine fit u joined a m g = draw_joined-IsFine u a m g

pub draw_ui-IsFine : (fit : ℕ → ℕ) (u : Pass) (a : GuiApp) → IsGui a → IsFine (draw_ui fit u a)
unfolding draw_ui
draw_ui-IsFine fit u a g = draw_mode-IsFine fit u a.mode a refl g
