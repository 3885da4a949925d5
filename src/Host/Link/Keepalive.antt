-- ===== src/Host/Link/Keepalive.antt =====
-- The timers of WiiULink, its round trip time, and what it relays.
use wii_sec_u.Base.{
  ℕ, ◌+◌, ◌*◌, ◌/◌, ◌^◌, ◌≤◌, ◌<◌, ◌≡◌, refl, ap, ◌⊎◌, Option, inl, inr, true, false, List, [], ◌∷◌,
  drop, ◌==◌, if◌then◌else◌, arith, Bool-cases,
}
use wii_sec_u.Base.Word.{sub32}
use wii_sec_u.Base.Int.{pos}
use wii_sec_u.Protocol.Wire.{Parse, ok, reject, Parse-cases}
use wii_sec_u.Protocol.Types.{header_size, max_packet, proto_version, VideoHeader, Header, Hello}
use wii_sec_u.Protocol.Pkt
use wii_sec_u.Protocol.Pack.{pack_hello, pack_ping}
use wii_sec_u.Protocol.Roundtrip.{Received, pack_hello-Received, pack_ping-pack_pong-Received}
use wii_sec_u.Protocol.Parse.{parse_header, parse_video, parse_hello, parse_timestamp}
use wii_sec_u.StreamPlugin.Net.Slices.{video_of}
use wii_sec_u.Endpoint.{Endpoint, Packet, send}
use wii_sec_u.Host.Link.{
  Link, host_hello, say_hello, say_ping, is_lost, stream_tick, next_rtt, relayed, relay_video,
  stream_receive, hello_interval_ms, ping_interval_ms,
}

-- One packet to an address, which the receiver reads as of a type, with a sequence number and a payload.
abbrev pub IsOne {ℓ} :
    {A : Type ℓ} → List Packet → Endpoint → ℕ → ℕ → (List ℕ → Parse A) → A → Type ℓ
IsOne sent to type seq parse a =
    (d : List ℕ) × (sent ≡ (to, d) ∷ [])
    × (parse_header d ≡ ok (record { version = proto_version; type = type; seq = seq }))
    × (parse (drop header_size d) ≡ ok a)

-- What a host introduces itself with: role 1, and "wsu-host" in a field of sixteen bytes.
abbrev pub introduction : Hello
introduction = record {
  role = 1;
  flags = 0;
  name = 119 ∷ 115 ∷ 117 ∷ 45 ∷ 104 ∷ 111 ∷ 115 ∷ 116 ∷ 0 ∷ 0 ∷ 0 ∷ 0 ∷ 0 ∷ 0 ∷ 0 ∷ 0 ∷ [];
}

Received-IsOne {ℓ} :
    {A : Type ℓ} (packed : Option (List ℕ)) (to : Endpoint) (type seq : ℕ)
    (parse : List ℕ → Parse A) (a : A)
    → Received max_packet packed type seq parse a
    → IsOne (send to packed) to type seq parse a
Received-IsOne packed to type seq parse a (d, e, _, h, b) = (d, ap (send to) e, h, b)

stream_tick-IsOne :
    (now : ℕ) (l : Link)
    → now < 2 ^ 32
    → l.seq < 2 ^ 16
    → let sent = (stream_tick now l).1 in
      (l.up ≡ true
        → 1000 ≤ sub32 now l.last_ping
        → IsOne sent l.peer Pkt.ping l.seq parse_timestamp now)
      × (l.up ≡ true → sub32 now l.last_ping < 1000 → sent ≡ [])
      × (l.up ≡ false
          → (l.last_hello ≡ 0) ⊎ (1000 ≤ sub32 now l.last_hello)
          → IsOne sent l.target Pkt.hello l.seq parse_hello introduction)
      × (l.up ≡ false → ¬ (l.last_hello ≡ 0) → sub32 now l.last_hello < 1000 → sent ≡ [])
unfolding stream_tick say_hello say_ping
stream_tick-IsOne now l b q = (
  λ up due.
      let pinged : (stream_tick now l).1 ≡ send l.peer (pack_ping max_packet l.seq now) =
        ground (arith, up, due) in
      rw pinged (
        Received-IsOne _ l.peer Pkt.ping l.seq parse_timestamp now
          (pack_ping-pack_pong-Received max_packet l.seq now (omega arith) q b).0),
  λ up early. ground (arith, up, early),
  λ down due.
      let greeted : (stream_tick now l).1 ≡ send l.target (pack_hello max_packet l.seq host_hello) =
        ground (arith, down, due) in
      rw greeted (
        Received-IsOne _ l.target Pkt.hello l.seq parse_hello introduction
          (pack_hello-Received max_packet l.seq host_hello (omega arith) q refl)),
  λ down said early. ground (arith, down, said, early),
)

stream_tick-times :
    (now : ℕ) (l : Link)
    → 0 < now
    → now < 2 ^ 32
    → let t = (stream_tick now l).0 in
      (t.up ≡ true → sub32 now t.last_ping < ping_interval_ms)
      × (l.up ≡ false → sub32 now t.last_hello < hello_interval_ms)
      × (l.up ≡ false → t.up ≡ false)
unfolding stream_tick say_hello say_ping is_lost
stream_tick-times now l h b = ground arith

-- After the part before the receive, at a time that is not 0: a link that is still up was pinged less than
-- a second ago, one that was down when it began said HELLO less than a second ago, and a link that was down
-- stays down. And what was sent: by a link that is up when it begins, one PING to the peer, with that time
-- in it, if the last is a second old, and else nothing; by one that is down, one HELLO to the target, of a
-- host called "wsu-host", if there was none or the last is a second old, and else nothing.
pub stream_tick-recent :
    (now : ℕ) (l : Link)
    → 0 < now
    → now < 2 ^ 32
    → l.seq < 2 ^ 16
    → let (t, sent) = stream_tick now l in
      (t.up ≡ true → sub32 now t.last_ping < ping_interval_ms)
      × (l.up ≡ false → sub32 now t.last_hello < hello_interval_ms)
      × (l.up ≡ false → t.up ≡ false)
      × (l.up ≡ true
          → 1000 ≤ sub32 now l.last_ping
          → IsOne sent l.peer Pkt.ping l.seq parse_timestamp now)
      × (l.up ≡ true → sub32 now l.last_ping < 1000 → sent ≡ [])
      × (l.up ≡ false
          → (l.last_hello ≡ 0) ⊎ (1000 ≤ sub32 now l.last_hello)
          → IsOne sent l.target Pkt.hello l.seq parse_hello introduction)
      × (l.up ≡ false → ¬ (l.last_hello ≡ 0) → sub32 now l.last_hello < 1000 → sent ≡ [])
stream_tick-recent now l h b q =
    let (pinged, greeted, down) = stream_tick-times now l h b in
    let (pings, calm, hellos, silent) = stream_tick-IsOne now l b q in
    (pinged, greeted, down, pings, calm, hellos, silent)

-- The smoothed time stays within the bound that the old one and the sample obey.
pub next_rtt-bounds :
    (prev age bound : ℕ)
    → prev ≤ bound
    → age ≤ bound
    → bound < 2 ^ 31
    → (n : ℕ) × (next_rtt (pos prev) age ≡ pos n) × (n ≤ bound)
unfolding next_rtt
next_rtt-bounds prev age bound p a b = ((prev * 7 + age) / 8, ground arith, omega arith)

relayed-video :
    (hdr : Header) (d : List ℕ) (v : VideoHeader) (payload : List ℕ)
    → (if hdr.type == Pkt.video then parse_video (drop header_size d) else reject) ≡ ok (v, payload)
    → relayed hdr d ≡ relay_video d v payload ∷ []
unfolding relayed
relayed-video hdr d v payload h = elim (Bool-cases (hdr.type == Pkt.video)) [
  | inl e ↦
      let got : parse_video (drop header_size d) ≡ ok (v, payload) = rw e at h in
      let other : (hdr.type == Pkt.config) ≡ false = ground arith in rw (other, e, got) refl
  | inr e ↦ let f = rw e at h in cc
]

-- A datagram that a receiver reads as a slice goes to the video callback, as it came and with that
-- header and payload.
pub stream_receive-video :
    (now : ℕ) (from : Endpoint) (d : List ℕ) (l : Link) (v : VideoHeader) (payload : List ℕ)
    → video_of d ≡ ok (v, payload)
    → (stream_receive now from d l).1 ≡ relay_video d v payload ∷ []
unfolding stream_receive video_of
stream_receive-video now from d l v payload h = elim (Parse-cases (parse_header d)) [
  | inl (hdr, e) ↦ rw (e, stream_receive) (relayed-video hdr d v payload (rw (e, video_of) at h))
  | inr (inl e) ↦ let f = rw (e, video_of) at h in cc
  | inr (inr e) ↦ let f = rw (e, video_of) at h in cc
]
