-- ===== src/Gui/App/Run/Safe.antt =====
-- The passes of the graphical program's loop, with the session's thread beside them.
use wii_sec_u.Base.{
  ℕ, ◌≤◌, ◌≡◌, refl, sym, subst, inl, inr, Bool, true, false, not, ◌||◌, List, Option, none, some,
  if◌then◌else◌, if-both, arith, Bool-cases,
}
use wii_sec_u.Protocol.Types.{InputState}
use wii_sec_u.Assembler.{Frame}
use wii_sec_u.Display.{Stb}
use wii_sec_u.Display.Inbox.{inbox_frame}
use wii_sec_u.Host.App.{HostOptions}
use wii_sec_u.Client.{ClientOptions}
use wii_sec_u.Gui.SharedInput.{set_input}
use wii_sec_u.Gui.View.{GuiVideoView, new_view, view_config, view_frame, view_audio}
use wii_sec_u.Gui.App.{Mode, idle, hosting, joined, GuiApp, new_gui, is_idle, poll_pad, reap}
use wii_sec_u.Gui.App.Run.{
  Pass, loop_pass, GuiStep, polls, reaps, draws, gets_config, gets_frame, gets_audio, ends, Reach,
  starts, goes_on,
}
use wii_sec_u.Gui.App.Run.Order.{GoesWith, IsGui, IsFine, reap-IsGui}
use wii_sec_u.Gui.App.Run.Screens.{draw_ui-IsFine}

-- A session's mode does not say what the view has counted, and Home has no session that runs.
busy_view :
    (m : Mode) (h : Option HostOptions) (c : Option ClientOptions) (thread stop valid : Bool)
    (f b f2 b2 : ℕ)
    → GoesWith m h c thread stop true valid f b
    → GoesWith m h c thread stop true valid f2 b2
busy_view idle h c thread stop valid f b f2 b2 g = absurd (ground (arith, g.3))
busy_view hosting h c thread stop valid f b f2 b2 g = g
busy_view joined h c thread stop valid f b f2 b2 g = g

view_grows-IsGui :
    (a : GuiApp) (v : GuiVideoView)
    → a.session_alive ≡ true
    → a.view.frames ≤ v.frames
    → a.view.video_total ≤ v.video_total
    → IsGui a
    → IsGui (record a { view = v })
view_grows-IsGui a v alive fs bs (g, f, b) =
    let Goes : Bool → ℕ → ℕ → Type 0 =
      λ s x y. GoesWith a.mode a.host a.client a.joinable a.stop_flag s a.shared.valid x y in
    (
      subst (λ s. Goes s v.frames v.video_total) (sym alive)
          (busy_view a.mode a.host a.client a.joinable a.stop_flag a.shared.valid a.view.frames
            a.view.video_total v.frames v.video_total
            (subst (λ s. Goes s a.view.frames a.view.video_total) alive g)),
      omega (arith, f, fs),
      omega (arith, b, bs),
    )

-- A state of the controller is kept only when there is a session.
busy_shared :
    (m : Mode) (h : Option HostOptions) (c : Option ClientOptions) (thread stop alive x y : Bool)
    (f b : ℕ)
    → is_idle m ≡ false
    → GoesWith m h c thread stop alive x f b
    → GoesWith m h c thread stop alive y f b
busy_shared idle h c thread stop alive x y f b e g = absurd (ground (arith, e))
busy_shared hosting h c thread stop alive x y f b e g = g
busy_shared joined h c thread stop alive x y f b e g = g

poll_pad-IsGui : (p : Option InputState) (a : GuiApp) → IsGui a → IsGui (poll_pad p a)
unfolding poll_pad set_input
poll_pad-IsGui none a g = if-both IsGui (is_idle a.mode || not a.has_pad) g g
poll_pad-IsGui (some state) a g = elim (Bool-cases (is_idle a.mode || not a.has_pad)) [
  | inl e ↦
      subst (λ t. IsGui (if t then a else record a { shared = set_input state a.shared })) (sym e) g
  | inr e ↦
      let busy : is_idle a.mode ≡ false = ground (arith, e) in
      subst (λ t. IsGui (if t then a else record a { shared = set_input state a.shared })) (sym e)
        (
          busy_shared a.mode a.host a.client a.joinable a.stop_flag a.session_alive a.shared.valid
              true a.view.frames a.view.video_total busy g.0,
          g.1,
          g.2,
        )
]

-- A frame is counted, or not.
view_frame-counts :
    (stb : Stb) (f : Frame) (v : GuiVideoView)
    → (v.frames ≤ (view_frame stb f v).frames) × (v.video_total ≤ (view_frame stb f v).video_total)
unfolding view_frame
view_frame-counts stb f v =
    let decodes = (inbox_frame stb f v.inbox).1 in
    (
      if-both (λ n. v.frames ≤ n) decodes (ground arith) (ground arith),
      if-both (λ n. v.video_total ≤ n) decodes (ground arith) (ground arith),
    )

ends_busy :
    (m : Mode) (h : Option HostOptions) (c : Option ClientOptions) (thread stop x valid : Bool)
    (f b : ℕ)
    → GoesWith m h c thread stop x valid f b
    → GoesWith m h c thread stop false valid f b
ends_busy idle h c thread stop x valid f b (k, l, t, alive, w, y, z) = (k, l, t, refl, w, y, z)
ends_busy hosting h c thread stop x valid f b g = g
ends_busy joined h c thread stop x valid f b g = g

step-IsGui : (fit : ℕ → ℕ) (stb : Stb) (a b : GuiApp) → GuiStep fit stb a b → IsGui a → IsGui b
unfolding view_config view_audio
step-IsGui fit stb a _ (polls p) g = poll_pad-IsGui p a g
step-IsGui fit stb a _ reaps g = reap-IsGui a g
step-IsGui fit stb a b (draws u e) g = subst IsFine e (draw_ui-IsFine fit u a g)
step-IsGui fit stb a _ (gets_config c alive) g =
    view_grows-IsGui a (view_config c a.view) alive (ground arith) (ground arith) g
step-IsGui fit stb a _ (gets_frame f alive) g =
    let (fs, bs) = view_frame-counts stb f a.view in
    view_grows-IsGui a (view_frame stb f a.view) alive fs bs g
step-IsGui fit stb a _ (gets_audio opens queued payload alive) g =
    view_grows-IsGui a (view_audio opens queued payload a.view).0 alive (ground arith)
      (ground arith) g
step-IsGui fit stb a _ (ends alive) g = (
  ends_busy a.mode a.host a.client a.joinable a.stop_flag a.session_alive a.shared.valid
      a.view.frames a.view.video_total g.0,
  g.1,
  g.2,
)

Reach-IsGui : (fit : ℕ → ℕ) (stb : Stb) (a b : GuiApp) → IsGui a → Reach fit stb a b → IsGui b
Reach-IsGui fit stb a _ g starts = g
Reach-IsGui fit stb a c g (goes_on {b = b} r s) =
    step-IsGui fit stb b c s (Reach-IsGui fit stb a b g r)

new_gui-IsGui : (file : Option (List ℕ)) (pad : Bool) → IsGui (new_gui file pad)
unfolding new_gui new_view
new_gui-IsGui file pad = ((refl, refl, refl, refl, refl, refl, refl), ground arith, ground arith)

-- From init on, whatever the passes of the loop and the session's thread do in any order: the mode says
-- which of host_ and client_ there is; a session's mode has its thread, which is not told to stop; the
-- Home screen has no program, no thread and no state of the controller; the marks of the statistics are
-- not ahead of the view's counts; and the next pass never uses a null pointer and never starts a thread
-- over another.
pub loop_pass-new_gui :
    (fit : ℕ → ℕ) (stb : Stb) (file : Option (List ℕ)) (pad : Bool) (a : GuiApp)
    → Reach fit stb (new_gui file pad) a
    → IsGui a × ((u : Pass) (polled : Option InputState) → IsFine (loop_pass fit u polled a))
unfolding loop_pass
loop_pass-new_gui fit stb file pad a r =
    let g = Reach-IsGui fit stb (new_gui file pad) a (new_gui-IsGui file pad) r in
    (
      g,
      λ u polled.
          draw_ui-IsFine fit u (reap (poll_pad polled a))
            (reap-IsGui (poll_pad polled a) (poll_pad-IsGui polled a g)),
    )
