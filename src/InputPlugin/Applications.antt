-- ===== src/InputPlugin/Applications.antt =====
-- The start and the end of an application: INITIALIZE_PLUGIN, ON_APPLICATION_START and
-- ON_APPLICATION_ENDS of wiiu/input-plugin/src/main.cpp, with the thread of wiiu/common/wsu_wiiu.h.
use wii_sec_u.Base.{ℕ, ◌≡◌, Bool, true, false, List, [], Option, none, some}
use wii_sec_u.Protocol.Types.{InputState}
use wii_sec_u.Console.Thread.{PluginThread, thread_start, thread_join, open_udp_socket, freed}
use wii_sec_u.InputPlugin.RemoteInput.{RemoteInput, remote_init, deactivate_all, update_all}

-- Where netThread is: there is no thread to join; it has been made and has not asked for its socket; it is
-- in its loop, with a socket; or it has returned, as it got none.
pub data Phase : Type 0 where
  no_thread : Phase
  begins : Phase
  listens : ℕ → Phase
  returned : Phase

-- gRemoteInput, gRunning and gNetThread, with where the thread is and the descriptors that are open; the
-- switches stand in Settings.
pub record InputPlugin : Type 0 where
  pub remote : RemoteInput
  pub running : Bool
  pub net_thread : PluginThread
  pub phase : Phase
  pub fds : List ℕ

unfoldable pub initialize_plugin : InputPlugin
unfolding remote_init
initialize_plugin = record {
  remote = remote_init;
  running = false;
  net_thread = record { stack = none; running = false; heap = [] };
  phase = no_thread;
  fds = [];
}

-- After a start, by whether there was a thread, and what start says.
abbrev pub phase_started : Bool → Bool → Phase → Phase
phase_started true ok phase = phase
phase_started false true phase = begins
phase_started false false phase = no_thread

-- With what new gives, and whether OSCreateThread succeeds.
unfoldable pub input_application_start : Option ℕ → Bool → InputPlugin → InputPlugin
unfolding remote_init thread_start
input_application_start given created p =
    let (thread, ok) = thread_start given created p.net_thread in
    record p {
      remote = remote_init;
      running = ok;
      net_thread = thread;
      phase = phase_started p.net_thread.running ok p.phase;
    }

-- netThread as far as its loop: with what socket() gives, and whether bind() succeeds. Without a socket it
-- returns -1, and no one is told.
abbrev pub phase_opened : Option ℕ → Phase
phase_opened none = returned
phase_opened (some f) = listens f

unfoldable pub net_thread_opens : Option ℕ → Bool → InputPlugin → InputPlugin
unfolding open_udp_socket
net_thread_opens given binds p =
    let (sock, fds) = open_udp_socket given binds p.fds in
    record p { phase = phase_opened sock; fds = fds }

-- `close(sock)` after the loop, which the join waits for. A thread that has not begun yet opens its socket,
-- finds gRunning false and closes it.
abbrev pub fds_joined : Phase → List ℕ → List ℕ
fds_joined (listens f) fds = freed f fds
fds_joined no_thread fds = fds
fds_joined begins fds = fds
fds_joined returned fds = fds

unfoldable pub input_application_end : InputPlugin → InputPlugin
unfolding thread_join deactivate_all
input_application_end p = record p {
  running = false;
  net_thread = thread_join p.net_thread;
  remote = deactivate_all p.remote;
  phase = no_thread;
  fds = fds_joined p.phase p.fds;
}

-- The applications, and what the thread does: it asks for its socket, and while it listens it reads bundles
-- and the host's BYE.
pub data LifeStep : InputPlugin → InputPlugin → Type 0 where
  application_starts :
      {p : InputPlugin} (given : Option ℕ) (created : Bool)
      → LifeStep p (input_application_start given created p)
  application_ends : {p : InputPlugin} → LifeStep p (input_application_end p)
  opens :
      {p : InputPlugin} (given : Option ℕ) (binds : Bool)
      → p.phase ≡ begins
      → LifeStep p (net_thread_opens given binds p)
  bundle :
      {p : InputPlugin} (f : ℕ) (states : List InputState) (now : ℕ)
      → p.phase ≡ listens f
      → LifeStep p (record p { remote = update_all states now p.remote })
  bye :
      {p : InputPlugin} (f : ℕ)
      → p.phase ≡ listens f
      → LifeStep p (record p { remote = deactivate_all p.remote })

pub data Lives : InputPlugin → InputPlugin → Type 0 where
  lives_on : {p : InputPlugin} → Lives p p
  lives_more : {p q r : InputPlugin} → Lives p q → LifeStep q r → Lives p r
