-- ===== src/InputPlugin/Life.antt =====
-- What holds of the input plugin between the applications of wiiu/input-plugin/src/main.cpp.
use wii_sec_u.Base.{
  ℕ, zero, suc, ◌≡◌, refl, ap, ◌∙◌, Bool, true, false, not, ◌&&◌, List, [], Option, arith, none,
  some, ltb, leb, ◌==◌, get_or, replicate, if◌then◌else◌, if-both, subst, ◌∷◌,
}
use wii_sec_u.Base.Word.{sub32}
use wii_sec_u.Protocol.Types.{InputState, input_state_init, max_players, input_timeout_ms, no_slot}
use wii_sec_u.Console.Thread.{
  thread_start, IsThread, thread_start-IsThread, thread_join-IsThread, thread_start-running,
  thread_join-running, thread_start-again, open_udp_socket, freed_alone,
}
use wii_sec_u.InputPlugin.RemoteInput.{
  RemoteInput, remote_init, remote_get, deactivate_all, update_all,
}
use wii_sec_u.InputPlugin.Applications.{
  Phase, no_thread, begins, listens, returned, InputPlugin, initialize_plugin, phase_started,
  input_application_start, net_thread_opens, fds_joined, input_application_end, LifeStep,
  application_starts, application_ends, opens, bundle, bye, Lives, lives_on, lives_more,
}

-- No slot is active at any time.
abbrev pub IsQuiet : RemoteInput → Type 0
IsQuiet r = (slot now : ℕ) → remote_get slot now r ≡ none

never_updated : (slot : ℕ) → get_or (replicate {A = ℕ} max_players 0) slot 0 ≡ 0
never_updated zero = refl
never_updated (suc zero) = refl
never_updated (suc (suc zero)) = refl
never_updated (suc (suc (suc zero))) = refl
never_updated (suc (suc (suc (suc slot)))) = refl

quiet_times : (r : RemoteInput) → r.updated_at_ms ≡ replicate {A = ℕ} max_players 0 → IsQuiet r
unfolding remote_get
quiet_times r e slot now =
    let at : get_or r.updated_at_ms slot 0 ≡ 0 = ap (λ l. get_or l slot 0) e ∙ never_updated slot in
    let Gives : ℕ → Option InputState = λ n.
      if leb max_players slot
      then none
      else if not (n == 0) && ltb (sub32 now n) input_timeout_ms
      then some (get_or r.state slot (input_state_init no_slot))
      else none in
    ap Gives at ∙ if-both {A = Option InputState} (λ o. o ≡ none) (leb max_players slot) refl refl

abbrev pub has_thread : Phase → Bool
has_thread no_thread = false
has_thread begins = true
has_thread (listens f) = true
has_thread returned = true

abbrev pub is_listening : Phase → Bool
is_listening (listens f) = true
is_listening no_thread = false
is_listening begins = false
is_listening returned = false

-- The loop's socket is the one descriptor that is open, and without the loop none is.
abbrev pub HoldsSocket : Phase → List ℕ → Type 0
HoldsSocket (listens f) fds = fds ≡ f ∷ []
HoldsSocket no_thread fds = fds ≡ []
HoldsSocket begins fds = fds ≡ []
HoldsSocket returned fds = fds ≡ []

-- gRunning and `running_` say whether there is a thread to join, which may have returned; the thread has its
-- stack; its socket is open while it listens; and no slot is active but while it listens.
pub record IsInputPlugin (p : InputPlugin) : Type 0 where
  pub flag : p.running ≡ has_thread p.phase
  pub joinable : p.net_thread.running ≡ has_thread p.phase
  pub thread : IsThread p.net_thread
  pub socket : HoldsSocket p.phase p.fds
  pub quiet : is_listening p.phase ≡ false → IsQuiet p.remote

initialize_plugin-IsInputPlugin : IsInputPlugin initialize_plugin
unfolding initialize_plugin remote_init
initialize_plugin-IsInputPlugin = record {
  flag = refl;
  joinable = refl;
  thread = refl;
  socket = refl;
  quiet = λ _. quiet_times remote_init refl;
}

has_thread-phase_started :
    (was ok : Bool) (phase : Phase)
    → was ≡ has_thread phase
    → (was ≡ true → ok ≡ true)
    → ok ≡ has_thread (phase_started was ok phase)
has_thread-phase_started true ok phase e again = again refl ∙ e
has_thread-phase_started false true phase e again = refl
has_thread-phase_started false false phase e again = refl

HoldsSocket-phase_started :
    (was ok : Bool) (phase : Phase) (fds : List ℕ)
    → was ≡ has_thread phase
    → HoldsSocket phase fds
    → HoldsSocket (phase_started was ok phase) fds
HoldsSocket-phase_started true ok phase fds e h = h
HoldsSocket-phase_started false true no_thread fds e h = h
HoldsSocket-phase_started false false no_thread fds e h = h
HoldsSocket-phase_started false ok begins fds e h = absurd (ground (arith, e))
HoldsSocket-phase_started false ok (listens f) fds e h = absurd (ground (arith, e))
HoldsSocket-phase_started false ok returned fds e h = absurd (ground (arith, e))

fds_joined-none : (phase : Phase) (fds : List ℕ) → HoldsSocket phase fds → fds_joined phase fds ≡ []
fds_joined-none (listens f) fds h = freed_alone f fds h
fds_joined-none no_thread fds h = h
fds_joined-none begins fds h = h
fds_joined-none returned fds h = h

application_start-IsInputPlugin :
    (given : Option ℕ) (created : Bool) (p : InputPlugin)
    → IsInputPlugin p
    → IsInputPlugin (input_application_start given created p)
unfolding input_application_start remote_init
application_start-IsInputPlugin given created p k =
    let t = p.net_thread in
    let ok : Bool = (thread_start given created t).1 in
    let kept : ok ≡ has_thread (phase_started t.running ok p.phase) =
      has_thread-phase_started t.running ok p.phase k.joinable
        (thread_start-again given created t) in
    record {
      flag = kept;
      joinable = thread_start-running given created t ∙ kept;
      thread = thread_start-IsThread given created t k.thread;
      socket = HoldsSocket-phase_started t.running ok p.phase p.fds k.joinable k.socket;
      quiet = λ _. quiet_times remote_init refl;
    }

application_end-IsInputPlugin :
    (p : InputPlugin) → IsInputPlugin p → IsInputPlugin (input_application_end p)
unfolding input_application_end remote_init deactivate_all
application_end-IsInputPlugin p k = record {
  flag = refl;
  joinable = thread_join-running p.net_thread;
  thread = thread_join-IsThread p.net_thread k.thread;
  socket = fds_joined-none p.phase p.fds k.socket;
  quiet = λ _. quiet_times (deactivate_all p.remote) refl;
}

opens-IsInputPlugin :
    (given : Option ℕ) (binds : Bool) (p : InputPlugin)
    → p.phase ≡ begins
    → IsInputPlugin p
    → IsInputPlugin (net_thread_opens given binds p)
unfolding net_thread_opens open_udp_socket
opens-IsInputPlugin none binds p e k = record {
  flag = k.flag ∙ ap has_thread e;
  joinable = k.joinable ∙ ap has_thread e;
  thread = k.thread;
  socket = subst (λ ph. HoldsSocket ph p.fds) e k.socket;
  quiet = λ _. k.quiet (ap is_listening e);
}
opens-IsInputPlugin (some f) true p e k = record {
  flag = k.flag ∙ ap has_thread e;
  joinable = k.joinable ∙ ap has_thread e;
  thread = k.thread;
  socket = ap (◌∷◌ f) (subst (λ ph. HoldsSocket ph p.fds) e k.socket);
  quiet = λ off. absurd (ground (arith, off));
}
opens-IsInputPlugin (some f) false p e k = record {
  flag = k.flag ∙ ap has_thread e;
  joinable = k.joinable ∙ ap has_thread e;
  thread = k.thread;
  socket = freed_alone f (f ∷ p.fds) (ap (◌∷◌ f) (subst (λ ph. HoldsSocket ph p.fds) e k.socket));
  quiet = λ _. k.quiet (ap is_listening e);
}

-- Whatever the loop does to the slots.
loop-IsInputPlugin :
    (f : ℕ) (r : RemoteInput) (p : InputPlugin)
    → p.phase ≡ listens f
    → IsInputPlugin p
    → IsInputPlugin (record p { remote = r })
loop-IsInputPlugin f r p e k = record {
  flag = k.flag;
  joinable = k.joinable;
  thread = k.thread;
  socket = k.socket;
  quiet = λ off.
      let on : is_listening p.phase ≡ true = ap is_listening e in absurd (ground (arith, on, off));
}

LifeStep-IsInputPlugin : (p q : InputPlugin) → LifeStep p q → IsInputPlugin p → IsInputPlugin q
LifeStep-IsInputPlugin p _ (application_starts given created) k =
    application_start-IsInputPlugin given created p k
LifeStep-IsInputPlugin p _ application_ends k = application_end-IsInputPlugin p k
LifeStep-IsInputPlugin p _ (opens given binds e) k = opens-IsInputPlugin given binds p e k
LifeStep-IsInputPlugin p _ (bundle f states now e) k =
    loop-IsInputPlugin f (update_all states now p.remote) p e k
LifeStep-IsInputPlugin p _ (bye f e) k = loop-IsInputPlugin f (deactivate_all p.remote) p e k

-- From INITIALIZE_PLUGIN on, whatever applications start and end, whatever the system gives for the thread's
-- stack, the thread and its socket, and whatever bundles and BYEs come in between: gRunning and `running_`
-- say whether there is a thread to join, which may have returned for want of a socket; its stack is the only
-- one allocated; a socket is open exactly while the thread listens, and no other; and no slot is active but
-- while it listens, so that no state outlives its application.
pub Lives-IsInputPlugin : (p : InputPlugin) → Lives initialize_plugin p → IsInputPlugin p
Lives-IsInputPlugin p lives_on = initialize_plugin-IsInputPlugin
Lives-IsInputPlugin p (lives_more {q = q} l s) =
    LifeStep-IsInputPlugin q p s (Lives-IsInputPlugin q l)
