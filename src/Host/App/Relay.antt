-- ===== src/Host/App/Relay.antt =====
-- The console's stream through the host program: what its own sink and a client's sink get.
use wii_sec_u.Base.{
  ℕ, zero, suc, ◌≡◌, ◌≢◌, refl, sym, ap, subst, ◌∙◌, inl, inr, true, List, [], ◌∷◌, ◌++◌, Option,
  none, some, get_or, if◌then◌else◌, arith, Bool-cases,
}
use mathlib.Core.List.{cons≢nil, head-eq_of_cons-eq, tail-eq_of_cons-eq}
use wii_sec_u.Protocol.Wire.{ok}
use wii_sec_u.Protocol.Types.{VideoHeader}
use wii_sec_u.Endpoint.{Endpoint, Packet, same_ep, same_ep→eq, same_ep_refl}
use wii_sec_u.Assembler.{Frame, feed}
use wii_sec_u.Assembler.Stream.{run, prepend}
use wii_sec_u.StreamPlugin.Net.Slices.{video_of}
use wii_sec_u.Host.Session.{Client, client, no_client, broadcast, send_all}
use wii_sec_u.Host.Session.Clients.{Distinct}
use wii_sec_u.Host.Session.Inv.{IsServer}
use wii_sec_u.Host.Link.Keepalive.{stream_receive-video}
use wii_sec_u.Host.App.{
  HostOptions, HostApp, Shown, on_video, frame_to_sink, dispatch_relayed, host_receive,
}
use wii_sec_u.Client.{ClientOptions, ClientApp}
use wii_sec_u.Client.Join.{watch, Brings, frames_of, watch-run}

-- A datagram with its sender at a time.
abbrev pub Arrival : Type 0
Arrival = ℕ × (Endpoint × List ℕ)

-- The host gets the datagrams one after another.
abbrev pub host_run : HostOptions → List Arrival → HostApp → Shown
host_run o [] a = (a, ([], []))
host_run o ((now, (from, d)) ∷ ds) a =
    let (a1, (packets, shown)) = host_receive o now from d a in
    let (a2, (packets2, shown2)) = host_run o ds a1 in (a2, (packets ++ packets2, shown ++ shown2))

-- The datagrams that go to an address.
abbrev pub sent_to : Endpoint → List Packet → List (List ℕ)
sent_to ep [] = []
sent_to ep ((to, d) ∷ ps) = let rest = sent_to ep ps in if same_ep to ep then d ∷ rest else rest

abbrev pub data_of : List Arrival → List (List ℕ)
data_of [] = []
data_of ((now, (from, d)) ∷ ds) = d ∷ data_of ds

abbrev pub received : List (ℕ × List ℕ) → List (List ℕ)
received [] = []
received ((now, d) ∷ ds) = d ∷ received ds

-- The datagrams bring these slices.
abbrev pub Carries : List Arrival → List (VideoHeader × List ℕ) → Type 0
Carries [] [] = Unit
Carries [] (x ∷ xs) = ⊥
Carries (d ∷ ds) [] = ⊥
Carries ((now, (from, d)) ∷ ds) (x ∷ xs) = (video_of d ≡ ok x) × Carries ds xs

sent_to-append :
    (ep : Endpoint) (ps qs : List Packet) → sent_to ep (ps ++ qs) ≡ sent_to ep ps ++ sent_to ep qs
sent_to-append ep [] qs = refl
sent_to-append ep ((to, d) ∷ ps) qs = elim (Bool-cases (same_ep to ep)) [
  | inl e ↦ rw (e, sent_to-append ep ps qs) refl
  | inr e ↦ rw e (sent_to-append ep ps qs)
]

-- No client of the list is at the address.
sent_to-none :
    (ep : Endpoint) (d : List ℕ) (cs : List Client)
    → ((j : ℕ) → (get_or cs j no_client).used ≡ true → (get_or cs j no_client).ep ≢ ep)
    → sent_to ep (send_all cs d) ≡ []
unfolding send_all
sent_to-none ep d [] h = refl
sent_to-none ep d (c ∷ cs) h =
    let rest = sent_to-none ep d cs (λ j. h (suc j)) in
    elim (Bool-cases c.used) [
      | inl u ↦ elim (Bool-cases (same_ep c.ep ep)) [
        | inl e ↦ absurd (h 0 u (same_ep→eq c.ep ep e))
        | inr e ↦ rw (u, e) rest
      ]
      | inr u ↦ rw u rest
    ]

tail_apart : (c : Client) (cs : List Client) → Distinct (c ∷ cs) → Distinct cs
tail_apart c cs h i j ui uj e = omega (arith, h (suc i) (suc j) ui uj e)

-- A client that takes part gets each broadcast once.
sent_to-once :
    (d : List ℕ) (cs : List Client) (j : ℕ)
    → Distinct cs
    → (get_or cs j no_client).used ≡ true
    → sent_to (get_or cs j no_client).ep (send_all cs d) ≡ d ∷ []
unfolding send_all
sent_to-once d [] j h u = absurd (ground arith)
sent_to-once d (c ∷ cs) zero h u =
    rw (u, same_ep_refl c.ep)
      (ap (◌∷◌ d) (sent_to-none c.ep d cs (λ j v e. absurd (omega (arith, h (suc j) 0 v u e)))))
sent_to-once d (c ∷ cs) (suc j) h u =
    let rest = sent_to-once d cs j (tail_apart c cs h) u in
    elim (Bool-cases c.used) [
      | inl v ↦ elim (Bool-cases (same_ep c.ep (get_or cs j no_client).ep)) [
        | inl e ↦
            absurd (omega (arith, h 0 (suc j) v u (same_ep→eq c.ep (get_or cs j no_client).ep e)))
        | inr e ↦ rw (v, e) rest
      ]
      | inr v ↦ rw v rest
    ]

host_receive-video :
    (o : HostOptions) (now : ℕ) (from : Endpoint) (d : List ℕ) (a : HostApp) (v : VideoHeader)
    (payload : List ℕ)
    → video_of d ≡ ok (v, payload)
    → let r = host_receive o now from d a in
      (r.0.server ≡ a.server)
      × (r.0.assembler ≡ (feed a.assembler v payload).0)
      × (r.1.0 ≡ broadcast d a.server)
      × (r.1.1 ≡ frame_to_sink o.has_sink (feed a.assembler v payload).1)
unfolding host_receive dispatch_relayed on_video
host_receive-video o now from d a v payload h =
    rw (stream_receive-video now from d a.link.stream v payload h, host_receive)
      (refl, refl, refl, refl)

frames_of-step :
    (f : Option Frame) (fs : List Frame)
    → frames_of (prepend f fs) ≡ frame_to_sink true f ++ frames_of fs
frames_of-step none fs = refl
frames_of-step (some f) fs = refl

-- What the host does with a stream of slices.
host_run-video :
    (o : HostOptions) (ds : List Arrival) (xs : List (VideoHeader × List ℕ)) (a : HostApp) (j : ℕ)
    → o.has_sink ≡ true
    → a.server.running ≡ true
    → Distinct a.server.clients
    → (client a.server j).used ≡ true
    → Carries ds xs
    → let r = host_run o ds a in
      (sent_to (client a.server j).ep r.1.0 ≡ data_of ds) × (r.1.1 ≡ frames_of (run a.assembler xs))
unfolding run broadcast
host_run-video o [] [] a j sink on dist u h = (refl, refl)
host_run-video o [] (x ∷ xs) a j sink on dist u h = absurd h
host_run-video o (d ∷ ds) [] a j sink on dist u h = absurd h
host_run-video o ((now, (from, d)) ∷ ds) ((v, payload) ∷ xs) a j sink on dist u (e, h) =
    let (sv, asm, out, shown) = host_receive-video o now from d a v payload e in
    let b = (host_receive o now from d a).0 in
    let (rest, rest_shown) =
      host_run-video o ds xs b j sink (ap (λ s. s.running) sv ∙ on)
        (subst (λ s. Distinct s.clients) (sym sv) dist) (ap (λ s. (client s j).used) sv ∙ u) h in
    let ep = (client a.server j).ep in
    let rest_here : sent_to ep (host_run o ds b).1.0 ≡ data_of ds =
      subst (λ s. sent_to (client s j).ep (host_run o ds b).1.0 ≡ data_of ds) sv rest in
    let once : sent_to ep (host_receive o now from d a).1.0 ≡ d ∷ [] =
      ap (sent_to ep) (out ∙ ap (λ r. if r then send_all a.server.clients d else []) on)
      ∙ sent_to-once d a.server.clients j dist u in
    (
      sent_to-append ep (host_receive o now from d a).1.0 (host_run o ds b).1.0
          ∙ (ap (λ ps. ps ++ sent_to ep (host_run o ds b).1.0) once ∙ ap (◌∷◌ d) rest_here),
      ap (λ fs. fs ++ (host_run o ds b).1.1)
            (shown ∙ ap (λ k. frame_to_sink k (feed a.assembler v payload).1) sink)
          ∙ (ap (λ fs. frame_to_sink true (feed a.assembler v payload).1 ++ fs)
                (rest_shown ∙ ap (λ m. frames_of (run m xs)) asm)
              ∙ sym (
                  frames_of-step (feed a.assembler v payload).1
                    (run (feed a.assembler v payload).0 xs))),
    )

Brings-received :
    (ds : List Arrival) (xs : List (VideoHeader × List ℕ)) (cs : List (ℕ × List ℕ))
    → received cs ≡ data_of ds
    → Carries ds xs
    → Brings cs xs
Brings-received [] [] [] e h = tt
Brings-received [] [] (c ∷ cs) e h = absurd (cons≢nil e)
Brings-received [] (x ∷ xs) cs e h = absurd h
Brings-received (d ∷ ds) [] cs e h = absurd h
Brings-received (d ∷ ds) (x ∷ xs) [] e h = absurd (cons≢nil (sym e))
Brings-received ((now, (from, d)) ∷ ds) (x ∷ xs) ((t, c) ∷ cs) e (v, h) =
    (ap video_of (head-eq_of_cons-eq e) ∙ v, Brings-received ds xs cs (tail-eq_of_cons-eq e) h)

-- While datagrams with slices come in from the console, from any address and at any times, the host
-- sends each of them as it came to a client that takes part. If the client gets what was sent to it, in
-- that order and at any times, and both assemblers start alike, then the client's sink gets the frames
-- that the host's own sink gets.
pub watch-host_run :
    (o : HostOptions) (ds : List Arrival) (xs : List (VideoHeader × List ℕ)) (a : HostApp) (j : ℕ)
    (co : ClientOptions) (cs : List (ℕ × List ℕ)) (c : ClientApp)
    → o.has_sink ≡ true
    → a.server.running ≡ true
    → IsServer a.server
    → (client a.server j).used ≡ true
    → Carries ds xs
    → received cs ≡ sent_to (client a.server j).ep (host_run o ds a).1.0
    → c.assembler ≡ a.assembler
    → (received cs ≡ data_of ds) × (watch co cs c ≡ (host_run o ds a).1.1)
watch-host_run o ds xs a j co cs c sink on k u h got same =
    let (sent, shown) = host_run-video o ds xs a j sink on k.distinct u h in
    let all = got ∙ sent in
    (
      all,
      watch-run co cs xs c (Brings-received ds xs cs all h)
          ∙ (ap (λ m. frames_of (run m xs)) same ∙ sym shown),
    )
