-- ===== src/InputPlugin/Relay.antt =====
-- The host's hub and the console's read hooks together: one bundle from packBundle to RemoteInput.
use wii_sec_u.Base.{
  ℕ, ◌≤◌, ◌<◌, ◌^◌, ◌≡◌, ◌≢◌, refl, ◌∙◌, ◌⊎◌, inl, inr, Bool, true, false, List, [], ◌∷◌, Option,
  none, some, length, ◌==◌, if◌then◌else◌, arith, tests, Bool-cases,
}
use wii_sec_u.Protocol.Types.{InputState, max_players}
use wii_sec_u.Protocol.Pkt
use wii_sec_u.Protocol.Parse.{parse_input_bundle}
use wii_sec_u.Protocol.Roundtrip.{Received, AllFit, pack_input_bundle-Received}
use wii_sec_u.Endpoint.{Endpoint}
use wii_sec_u.Host.InputHub.{ControllerState, InputHub, active, pack_bundle, is_active, hub_get}
use wii_sec_u.Host.InputHub.Slots.{IsHub, latest-hub_get}
use wii_sec_u.InputPlugin.RemoteInput.{remote_get, update_all}
use wii_sec_u.InputPlugin.RemoteInput.Updates.{IsRemote, seen, update_all-get}
use wii_sec_u.InputPlugin.NetThread.{InputNet, receive, dispatch, on_bundle}

length-active : (now : ℕ) (cs : List ControllerState) → length (active now cs) ≤ length cs
unfolding active
length-active now [] = omega arith
length-active now (c ∷ cs) = let rest = length-active now cs in ground arith

-- Receiving a well-formed bundle stores its states.
receive-bundle :
    (now room seq ts : ℕ) (from : Endpoint) (sent : Option (List ℕ)) (states : List InputState)
    (s : InputNet)
    → Received room sent Pkt.input_bundle seq parse_input_bundle (ts, states)
    → (d : List ℕ) × (sent ≡ some d)
      × ((receive now from d s).0.remote ≡ update_all states now s.remote)
unfolding receive dispatch on_bundle
receive-bundle now room seq ts from sent states s (d, e, _, h, p) =
    (d, e, rw (h, p, receive, on_bundle) refl)

matched :
    (b : Bool) (x : InputState) (now later : ℕ) (o : Option InputState)
    → elim (if b then some x else none) [ some s ↦ seen now later s | none ↦ o ]
      ≡ (if b then seen now later x else o)
matched true x now later o = refl
matched false x now later o = refl

-- A hub of well-formed states packed into a buffer of 117 bytes or more, with the datagram received by the
-- console at a time other than 0: a slot that was active on the host is read as its state there, until the
-- timeout after the receive, and an inactive one is read as before. With no slot active there is no
-- datagram.
pub relay :
    (hub : InputHub) (room seq sent_at now later : ℕ) (from : Endpoint) (s : InputNet)
    → IsHub hub
    → AllFit (active sent_at hub)
    → 117 ≤ room
    → seq < 2 ^ 16
    → sent_at < 2 ^ 32
    → IsRemote s.remote
    → now ≢ 0
    → ((length (active sent_at hub) ≡ 0) × (pack_bundle room seq sent_at hub ≡ none))
      ⊎ ((d : List ℕ) × (pack_bundle room seq sent_at hub ≡ some d)
          × ((slot : ℕ)
              → slot < max_players
              → remote_get slot later (receive now from d s).0.remote ≡ (
                  if is_active slot sent_at hub
                  then seen now later (hub_get slot hub)
                  else remote_get slot later s.remote)))
unfolding pack_bundle
relay hub room seq sent_at now later from s h fit big q t r ne =
    elim (Bool-cases (length (active sent_at hub) == 0)) [
      | inl e ↦ inl (omega tests, rw e refl)
      | inr e ↦
          let (d, p, got) = receive-bundle now room seq sent_at from _ (active sent_at hub) s (
            pack_input_bundle-Received room seq sent_at (active sent_at hub) big
              (omega (arith, length-active sent_at hub, h.four)) q t fit) in
          inr (
            d,
            rw e p,
            λ slot b. rw got (
                update_all-get (active sent_at hub) now later slot s.remote r b ne
                ∙ rw (latest-hub_get sent_at hub slot h b)
                    (matched (is_active slot sent_at hub) _ _ _ _)),
          )
    ]
