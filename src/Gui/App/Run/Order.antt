-- ===== src/Gui/App/Run/Order.antt =====
-- The mode of the graphical program and what exists of a session; the Home screen.
use wii_sec_u.Base.{
  ℕ, ◌≤◌, ◌≡◌, refl, sym, subst, Bool, true, false, not, ◌&&◌, ◌==◌, Option, none, some,
  if◌then◌else◌, if-both, arith,
}
use wii_sec_u.Base.Maybe.{◌>>=◌}
use wii_sec_u.Endpoint.{Endpoint}
use wii_sec_u.Endpoint.Text.{parse_endpoint}
use wii_sec_u.Host.App.{HostOptions}
use wii_sec_u.Client.{ClientOptions}
use wii_sec_u.Gui.SharedInput.{clear_input}
use wii_sec_u.Gui.View.{reset_view}
use wii_sec_u.Gui.App.{
  Mode, idle, hosting, joined, GuiApp, is_idle, reap, stop_session, launch, host_on, join_on,
  name_or_player, no_notice, console_target, start_hosting, start_joining,
}
use wii_sec_u.Gui.App.Run.{
  Click, no_click, host_click, join_click, Pass, log_panel, click_host, click_join, type_console,
  type_host,
}

abbrev pub is_some {ℓ} : {A : Type ℓ} → Option A → Bool
is_some none = false
is_some (some a) = true

-- What goes with a mode: the two programs, whether there is a thread, the two flags, whether a state of
-- the controller waits, and what the view has counted.
abbrev pub GoesWith :
    Mode → Option HostOptions → Option ClientOptions → Bool → Bool → Bool → Bool → ℕ → ℕ → Type 0
GoesWith idle h c thread stop alive valid frames bytes =
    (h ≡ none)
    × (c ≡ none)
    × (thread ≡ false)
    × (alive ≡ false)
    × (valid ≡ false)
    × (frames ≡ 0)
    × (bytes ≡ 0)
GoesWith hosting h c thread stop alive valid frames bytes =
    (is_some h ≡ true) × (c ≡ none) × (thread ≡ true) × (stop ≡ false)
GoesWith joined h c thread stop alive valid frames bytes =
    (h ≡ none) × (is_some c ≡ true) × (thread ≡ true) × (stop ≡ false)

-- The mode and what there is agree, and the statistics' marks are not ahead of the view's counts.
abbrev pub IsGui : GuiApp → Type 0
IsGui a =
    GoesWith a.mode a.host a.client a.joinable a.stop_flag a.session_alive a.shared.valid
      a.view.frames a.view.video_total
    × (a.stat_frames ≤ a.view.frames)
    × (a.stat_bytes ≤ a.view.video_total)

-- There is a result, and it is in order.
abbrev pub IsFine : Option GuiApp → Type 0
IsFine none = ⊥
IsFine (some a) = IsGui a

pub IsFine-bind :
    (o : Option GuiApp) (k : GuiApp → Option GuiApp)
    → IsFine o
    → ((a : GuiApp) → IsGui a → IsFine (k a))
    → IsFine (o >>= k)
IsFine-bind none k h f = absurd h
IsFine-bind (some a) k h f = f a h

pub stop_session-IsGui : (a : GuiApp) → IsGui (stop_session a)
unfolding stop_session reset_view clear_input
stop_session-IsGui a = ((refl, refl, refl, refl, refl, refl, refl), ground arith, ground arith)

pub reap-IsGui : (a : GuiApp) → IsGui a → IsGui (reap a)
unfolding reap
reap-IsGui a g =
    if-both IsGui (not (is_idle a.mode) && not a.session_alive && a.joinable) (stop_session-IsGui a)
      g

pub log_panel-IsGui : (u : Pass) (a : GuiApp) → IsGui a → IsGui (log_panel u a)
log_panel-IsGui u a g = if-both IsGui a.show_logs g g

-- From the Home screen.
launch-IsFine :
    (opens : Bool) (m : Mode) (o : Option HostOptions) (c : Option ClientOptions) (a : GuiApp)
    → ((alive valid : Bool) (f b : ℕ) → GoesWith m o c true false alive valid f b)
    → a.joinable ≡ false
    → a.stat_frames ≤ 0
    → a.stat_bytes ≤ 0
    → IsFine (launch opens m o c a)
unfolding reset_view
launch-IsFine opens m o c a k e f b =
    subst (λ j. IsFine (if j then none else (launch opens m o c (record a { joinable = false }))))
      (sym e) (k true a.shared.valid 0 0, f, b)

-- What goes with the mode that the program is in.
pub of_mode :
    (m : Mode) (a : GuiApp)
    → a.mode ≡ m
    → IsGui a
    → GoesWith m a.host a.client a.joinable a.stop_flag a.session_alive a.shared.valid a.view.frames
        a.view.video_total
of_mode m a e g =
    subst
      (λ n.
        GoesWith n a.host a.client a.joinable a.stop_flag a.session_alive a.shared.valid
          a.view.frames a.view.video_total)
      e g.0

host_on-IsFine :
    (opens : Bool) (t : Option Endpoint) (a : GuiApp)
    → a.mode ≡ idle
    → IsGui a
    → IsFine (host_on opens t a)
host_on-IsFine opens none a m g = g
host_on-IsFine opens (some t) a m g =
    let (h, c, j, alive, valid, frames, bytes) = of_mode idle a m g in
    launch-IsFine opens hosting
      (some (record {
        console_addr = t;
        console_input_port = 4404;
        console_stream_port = 4406;
        input_rate_hz = 120;
        has_input = true;
        has_sink = true;
      }))
      a.client (record a { last_error = no_notice }) (λ x y p q. (refl, c, refl, refl)) j
      (omega (arith, g.1, frames)) (omega (arith, g.2, bytes))

join_on-IsFine :
    (opens : Bool) (t : Endpoint) (a : GuiApp)
    → a.mode ≡ idle
    → IsGui a
    → IsFine (join_on opens t a)
join_on-IsFine opens t a m g =
    let (h, c, j, alive, valid, frames, bytes) = of_mode idle a m g in
    if-both IsFine (t.port == 0) g (
      launch-IsFine opens joined a.host
        (some (record {
          host_addr = t;
          player_name = name_or_player a.settings.player_name;
          has_input = true;
          input_rate_hz = 120;
        }))
        (record a { last_error = no_notice }) (λ x y p q. (h, refl, refl, refl)) j
        (omega (arith, g.1, frames)) (omega (arith, g.2, bytes)))

pub home_click-IsFine :
    (fit : ℕ → ℕ) (u : Pass) (k : Click) (a : GuiApp)
    → a.mode ≡ idle
    → IsGui a
    → IsFine (
        click_host fit u k (type_console u a) >>= λ b. click_join fit u k (type_host u b) >>= λ c.
        some (log_panel u (record c { show_logs = u.logs })))
unfolding start_hosting start_joining
home_click-IsFine fit u no_click a m g = log_panel-IsGui u _ g
home_click-IsFine fit u host_click a m g =
    IsFine-bind (start_hosting fit u.opens (type_console u a)) _
      (host_on-IsFine u.opens (console_target fit u.typed.console_ip) (type_console u a) m g)
      (λ b h. log_panel-IsGui u (record (type_host u b) { show_logs = u.logs }) h)
home_click-IsFine fit u join_click a m g =
    let b = type_host u (type_console u a) in
    IsFine-bind (start_joining fit u.opens b) _
      (join_on-IsFine u.opens (parse_endpoint fit u.typed.host_addr 4405) b m g)
      (λ c h. log_panel-IsGui u (record c { show_logs = u.logs }) h)
