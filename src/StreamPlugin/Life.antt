-- ===== src/StreamPlugin/Life.antt =====
-- The start and the end of an application: ON_APPLICATION_START and ON_APPLICATION_ENDS of
-- wiiu/stream-plugin/src/main.cpp, with netStart and netStop of net.cpp. What the system gives (a
-- socket, the threads) is an argument.
use wii_sec_u.Base.{
  ℕ, zero, suc, ◌≤◌, ◌≡◌, refl, sym, ap, subst, ◌∙◌, Bool, true, false, not, List, [], ◌∷◌, length,
  map, get_or, if◌then◌else◌, length-map, if-both, Bool-cases, inl, inr,
}
use wii_sec_u.StreamPlugin.Audio.{audio_init}
use wii_sec_u.StreamPlugin.Audio.Tap.{Tap, tap_init, tap_shutdown}
use wii_sec_u.StreamPlugin.Net.{Net}
use wii_sec_u.StreamPlugin.Settings.{Settings, Stored, load_settings}
use wii_sec_u.StreamPlugin.Surface.{System, CaptureSlot, Capture, waiting, stopped, empty_slot}
use wii_sec_u.StreamPlugin.Capture.{capture_init, capture_shutdown, free_slot}
use wii_sec_u.StreamPlugin.Encoder.{encoder_start, post_shutdown}
use wii_sec_u.StreamPlugin.Encoder.Session.{owned, Accounts, IsSession, HasQueue}
use wii_sec_u.StreamPlugin.Encoder.Session.Run.{Reach, Reach-IsSession}

-- The plugin's globals.
pub record Plugin : Type 0 where
  pub settings : Settings
  pub net : Net
  pub net_running : Bool
  pub tap : Tap
  pub capture : Capture

-- What the system gives: a bound socket, and a thread for the network and one for the encoder.
pub record Given : Type 0 where
  pub socket : Bool
  pub net_thread : Bool
  pub encoder_thread : Bool

unfoldable pub net_start : Given → Plugin → Plugin × Bool
net_start g p =
    if p.net_running
    then (p, true)
    else if not g.socket
    then (record p { net = record p.net { sock_open = false } }, false)
    else if g.net_thread
    then (record p { net = record p.net { sock_open = true }; net_running = true }, true)
    else (record p { net = record p.net { sock_open = false } }, false)

-- The thread has ended when the join returns.
unfoldable pub net_stop : Plugin → Plugin
net_stop p = if not p.net_running then p else record p {
  net_running = false;
  net = record p.net { host_active = false; sock_open = false };
}

-- encoderStop: the join returns when the thread has ended; what is in the queue stays there.
unfoldable pub encoder_stop : Capture → Capture
unfolding post_shutdown
encoder_stop c = if c.encoder_running then record (post_shutdown c) { phase = stopped } else c

-- ON_APPLICATION_START
unfoldable pub application_start : Given → Stored → Plugin → Plugin
unfolding net_start load_settings tap_init audio_init capture_init encoder_start
application_start g stored p =
    let settings = load_settings stored p.settings in
    let (capture, on) = encoder_start g.encoder_thread (capture_init p.capture) in
    let ready : Plugin = record p {
      settings = settings;
      net = record p.net { config = settings.config; ring = audio_init p.net.ring.cells };
      tap = tap_init p.tap;
      capture = capture;
    } in
    if on then (net_start g ready).0 else ready

-- ON_APPLICATION_ENDS; `ax` is AXIsInit().
unfoldable pub application_end : Bool → Plugin → Plugin
unfolding net_stop encoder_stop capture_shutdown tap_shutdown
application_end ax p =
    let q = net_stop p in
    record q { capture = capture_shutdown (encoder_stop q.capture); tap = tap_shutdown ax q.tap }

free_slot-owned :
    (slots : List CaptureSlot) (i : ℕ) → 0 ≡ owned (get_or (map free_slot slots) i empty_slot).state
unfolding free_slot
free_slot-owned [] i = refl
free_slot-owned (s ∷ slots) zero = refl
free_slot-owned (s ∷ slots) (suc i) = free_slot-owned slots i

fresh-Accounts :
    (slots : List CaptureSlot) → length slots ≡ 2 → Accounts (map free_slot slots) [] waiting
fresh-Accounts slots two = record {
  two = length-map slots free_slot ∙ two;
  surfaces = tt;
  reader = tt;
  accounted = λ i b. free_slot-owned slots i;
}

restart-IsSession :
    (c : Capture)
    → length c.slots ≡ 2
    → IsSession (encoder_start true (capture_init (capture_shutdown (encoder_stop c)))).0
unfolding encoder_start capture_init capture_shutdown encoder_stop post_shutdown
restart-IsSession c two = elim (Bool-cases c.encoder_running) [
  | inl e ↦ rw e record { accounts = fresh-Accounts c.slots two }
  | inr e ↦ rw e record { accounts = fresh-Accounts c.slots two }
]

net_stop-capture : (p : Plugin) → (net_stop p).capture ≡ p.capture
unfolding net_stop
net_stop-capture p = if-both {A = Plugin} (λ q. q.capture ≡ p.capture) (not p.net_running) refl refl

net_start-capture : (g : Given) (p : Plugin) → (net_start g p).0.capture ≡ p.capture
unfolding net_start
net_start-capture g p =
    let Same : Plugin × Bool → Type 0 = λ q. q.0.capture ≡ p.capture in
    if-both Same p.net_running refl
      (if-both Same (not g.socket) refl (if-both Same g.net_thread refl refl))

-- Whatever an application leaves behind, in the queue and in the two slots, when it ends and the next one
-- starts the surfaces are accounted for, if the encoder gets its thread.
pub application_start-IsSession :
    (ax : Bool) (g : Given) (stored : Stored) (p : Plugin)
    → g.encoder_thread ≡ true
    → length p.capture.slots ≡ 2
    → IsSession (application_start g stored (application_end ax p)).capture
unfolding application_start application_end
application_start-IsSession ax g stored p spawned two =
    let stopped_capture = (net_stop p).capture in
    let ended = capture_shutdown (encoder_stop stopped_capture) in
    let q = application_end ax p in
    let restarted : IsSession (encoder_start g.encoder_thread (capture_init ended)).0 =
      subst (λ b. IsSession (encoder_start b (capture_init ended)).0) (sym spawned)
        (restart-IsSession stopped_capture (ap (λ c. length c.slots) (net_stop-capture p) ∙ two)) in
    let ready : Plugin = record q {
      settings = load_settings stored q.settings;
      net = record q.net {
        config = (load_settings stored q.settings).config;
        ring = audio_init q.net.ring.cells;
      };
      tap = tap_init q.tap;
      capture = (encoder_start g.encoder_thread (capture_init ended)).0;
    } in
    if-both {A = Plugin} (λ r. IsSession r.capture)
      (encoder_start g.encoder_thread (capture_init ended)).1
      (subst IsSession (sym (net_start-capture g ready)) restarted) restarted

-- From the start of an application, whatever the one before left behind, and whatever the capture hook
-- and the encoder thread do in any order: a surface is in the state ENCODING exactly while it is once in
-- the queue or being read, and the queue holds at most two messages. The encoder is to get its thread,
-- and OSSendMessage to take a message while the queue has room.
pub application_start-Reach :
    (sys : System) (ax : Bool) (g : Given) (stored : Stored) (p : Plugin) (c : Capture)
    → HasQueue sys
    → g.encoder_thread ≡ true
    → length p.capture.slots ≡ 2
    → Reach sys (application_start g stored (application_end ax p)).capture c
    → IsSession c × (length c.queue ≤ 2)
application_start-Reach sys ax g stored p c room spawned two r =
    Reach-IsSession sys (application_start g stored (application_end ax p)).capture c room
      (application_start-IsSession ax g stored p spawned two) r
