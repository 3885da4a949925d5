-- ===== src/Tests/Players.antt =====
-- Controllers: the hub, the session server and the console's read hooks.
use wii_sec_u.Base.{
  ℕ, zero, suc, ◌+◌, ◌<◌, ◌≤◌, ◌≡◌, ◌≢◌, refl, true, false, List, [], ◌∷◌, none, some, ltb,
  if◌then◌else◌, length, get_or, arith, ◌⊎◌,
}
use wii_sec_u.Base.Int.{ℤ, pos, negsuc}
use wii_sec_u.Base.Word.{sub32}
use wii_sec_u.Protocol.Types.{InputState, no_slot, max_players, input_timeout_ms}
use wii_sec_u.Protocol.Roundtrip.{AllFit}
use wii_sec_u.Endpoint.{Endpoint}
use wii_sec_u.Host.InputHub.{
  InputHub, neutral, new_hub, hub_set, active, pack_bundle, is_active, hub_get,
}
use wii_sec_u.Host.InputHub.Slots.{IsHub, latest, new_hub-IsHub, hub_set_self, latest-hub_get}
use wii_sec_u.Host.Session.{Client, Server, client, no_client, admit, receive, tick}
use wii_sec_u.Host.Session.Clients.{Distinct}
use wii_sec_u.Host.Session.Inv.{IsServer}
use wii_sec_u.Host.Session.Isolation.{IsSamePlayer, receive-isolated}
use wii_sec_u.Host.Session.Admission.{Admits, admit-lem}
use wii_sec_u.Host.Session.Sweep.{Swept, tick-Swept}
use wii_sec_u.InputPlugin.RemoteInput.{remote_init, remote_get, update_all}
use wii_sec_u.InputPlugin.RemoteInput.Updates.{remote_init-IsRemote, seen, update_all-get}
use wii_sec_u.InputPlugin.NetThread
use wii_sec_u.InputPlugin.NetThread.{InputNet, Switches}
use wii_sec_u.InputPlugin.Injection.{touch_max, touch_to_raw, kpad_inject, wpad_probe}
use wii_sec_u.InputPlugin.Injection.Touch.{touch_to_raw-bounds, wpad_probe-kpad_inject}
use wii_sec_u.InputPlugin.Injection.Buttons.{Buttons, Emulation, Sdk, Floats, has_bit}
use wii_sec_u.InputPlugin.Injection.Buttons.Edges.{
  fill_all, one_if, presses, releases, fill_all-balanced,
}
use wii_sec_u.InputPlugin.Relay.{relay}
use wii_sec_u.Tests.Wire.{pressed, pressed-InputFits, stereo, anna}
use wii_sec_u.Tests.Video.{home}

abbrev press_time : ℕ
press_time = 50

hub_set_self_example :
    (hub_get 2 (hub_set 2 pressed 50 new_hub) ≡ record pressed { slot = 2 })
    × ((later : ℕ)
        → press_time ≢ 0
        → is_active 2 later (hub_set 2 pressed 50 new_hub) ≡ ltb (sub32 later 50) input_timeout_ms)
    × ((later : ℕ) → press_time ≡ 0 → is_active 2 later (hub_set 2 pressed 50 new_hub) ≡ false)
hub_set_self_example = hub_set_self 2 pressed 50 new_hub new_hub-IsHub (omega arith)

-- The hub with one player pressing.
abbrev busy : InputHub
busy =
    neutral no_slot
    ∷ neutral no_slot
    ∷ record { wire = pressed; updated_at_ms = 50 }
    ∷ neutral no_slot
    ∷ []

busy-IsHub : IsHub busy
unfolding neutral
busy-IsHub = record {
  four = refl;
  numbered =
      (λ u. absurd (u refl), (λ u. absurd (u refl), (λ u. refl, (λ u. absurd (u refl), tt))));
}

latest-hub_get_example :
    latest 2 (active 60 busy) ≡ (if is_active 2 60 busy then some (hub_get 2 busy) else none)
latest-hub_get_example = latest-hub_get 60 busy 2 busy-IsHub (omega arith)

update_all-get_example :
    remote_get 2 90 (update_all (pressed ∷ []) 80 remote_init) ≡ seen 80 90 pressed
update_all-get_example =
    update_all-get (pressed ∷ []) 80 90 2 remote_init remote_init-IsRemote (omega arith)
      (omega arith)

abbrev idle_console : InputNet
idle_console = record {
  remote = remote_init;
  host_connected = false;
  last_host_seen_ms = 0;
  tx_seq = 0;
}

busy-AllFit : AllFit (active 60 busy)
unfolding active neutral
busy-AllFit = (pressed-InputFits, tt)

relay_example :
    ((length (active 60 busy) ≡ 0) × (pack_bundle 1400 1 60 busy ≡ none))
    ⊎ ((d : List ℕ) × (pack_bundle 1400 1 60 busy ≡ some d)
        × ((slot : ℕ)
            → slot < max_players
            → remote_get slot 90 (NetThread.receive 80 home d idle_console).0.remote ≡ (
                if is_active slot 60 busy
                then seen 80 90 (hub_get slot busy)
                else remote_get slot 90 remote_init)))
relay_example =
    relay busy 1400 1 60 80 90 home idle_console busy-IsHub busy-AllFit (omega arith) (omega arith)
      (omega arith) remote_init-IsRemote (omega arith)

touch_to_raw-bounds_example :
    (100 ≤ touch_to_raw 7)
    × (touch_to_raw 7 ≤ touch_to_raw 5000)
    × (touch_to_raw 5000 ≤ 3996)
    × (touch_to_raw 0 ≡ 100)
    × (touch_to_raw touch_max ≡ 3996)
touch_to_raw-bounds_example = touch_to_raw-bounds 7 5000 (omega arith)

abbrev all_on : Switches
all_on = record { master_enabled = true; slot_enabled = true ∷ true ∷ true ∷ true ∷ [] }

wpad_probe-kpad_inject_example :
    wpad_probe all_on remote_init 90 (pos 1)
    ≡ elim (kpad_inject all_on remote_init 90 (pos 1) true 16) [ some s ↦ true | none ↦ false ]
wpad_probe-kpad_inject_example =
    wpad_probe-kpad_inject all_on remote_init 90 (pos 1) 16 (omega arith)

-- A session with one client, as player 2 of 4.
abbrev first_client : Client
first_client = record {
  used = true;
  ep = home;
  name = anna.name;
  last_seen_ms = 50;
  rtt_ms = negsuc 0;
}

abbrev pub session : Server
session = record {
  hub = busy;
  running = true;
  clients = no_client ∷ first_client ∷ no_client ∷ [];
  config = stereo;
  have_config = true;
  seq = 65535;
  last_sweep = 0;
}

session-Distinct : Distinct session.clients
session-Distinct (suc zero) (suc zero) a b e = refl
session-Distinct zero j a b e = cc
session-Distinct (suc (suc zero)) j a b e = cc
session-Distinct (suc (suc (suc i))) j a b e = cc
session-Distinct (suc zero) zero a b e = cc
session-Distinct (suc zero) (suc (suc zero)) a b e = cc
session-Distinct (suc zero) (suc (suc (suc j))) a b e = cc

pub session-IsServer : IsServer session
session-IsServer = record { three = refl; distinct = session-Distinct; hub_ok = busy-IsHub }

abbrev stranger : Endpoint
stranger = record { addr = 167772161; port = 9 }

abbrev goodbye : List ℕ
goodbye = 0x57 ∷ 0x53 ∷ 0x55 ∷ 0x31 ∷ 1 ∷ 11 ∷ 0 ∷ 0 ∷ 0 ∷ []

receive-isolated_example :
    IsServer (receive 70 stranger goodbye session).0
    × (hub_get 0 (receive 70 stranger goodbye session).0.hub ≡ hub_get 0 busy)
    × ((later : ℕ)
        → is_active 0 later (receive 70 stranger goodbye session).0.hub ≡ is_active 0 later busy)
    × ((j : ℕ)
        → (client session j).used ≡ true
        → (client session j).ep ≢ stranger
        → IsSamePlayer session (receive 70 stranger goodbye session).0 j)
receive-isolated_example = receive-isolated 70 stranger goodbye session session-IsServer

-- The address of a client, with another port: a new player.
abbrev housemate : Endpoint
housemate = record home { port = 50000 }

admit-lem_example : Admits housemate anna session.clients (admit 70 housemate anna session.clients)
admit-lem_example = admit-lem 70 housemate anna session.clients refl refl

tick-Swept_example : Swept 6000 session (tick 6000 session) 1
tick-Swept_example = tick-Swept 6000 session 1 session-IsServer (omega arith) (omega arith)

-- Whole numbers for `float`, of which only the size is kept.
abbrev sized : ℤ → ℕ
sized (pos n) = n
sized (negsuc n) = suc n

abbrev whole : Floats ℕ
whole = record {
  of_int = sized;
  over = λ a b. a;
  minus = λ a. a;
  is_less = ltb;
  zero_float = 0;
  half = 16384;
}

abbrev in_order : Buttons
in_order = record {
  button_a = 1;
  button_b = 2;
  button_x = 4;
  button_y = 8;
  button_up = 16;
  button_down = 32;
  button_left = 64;
  button_right = 128;
  button_l = 256;
  button_r = 512;
  button_zl = 1024;
  button_zr = 2048;
  button_plus = 4096;
  button_minus = 8192;
  button_home = 16384;
  button_stick_l = 32768;
  button_stick_r = 65536;
}

abbrev no_sticks : Emulation
no_sticks = record {
  l_left = 0;
  l_right = 0;
  l_up = 0;
  l_down = 0;
  r_left = 0;
  r_right = 0;
  r_up = 0;
  r_down = 0;
}

abbrev sdk : Sdk
sdk = record {
  vpad = in_order;
  vpad_tv = 131072;
  vpad_emulation = no_sticks;
  pro = in_order;
  pro_emulation = no_sticks;
}

-- A button is pressed for two reads and released.
abbrev press_and_release : List InputState
press_and_release = pressed ∷ pressed ∷ record pressed { buttons = 0 } ∷ []

fill_all-balanced_example :
    let r = fill_all whole sdk 1 press_and_release (0 ∷ 0 ∷ 0 ∷ []) in
    one_if (has_bit 0 0) + presses 0 r.0 ≡ one_if (has_bit 0 (get_or r.1 1 0)) + releases 0 r.0
fill_all-balanced_example =
    fill_all-balanced whole sdk 0 1 press_and_release (0 ∷ 0 ∷ 0 ∷ []) (omega arith) (omega arith)
      (omega arith)
