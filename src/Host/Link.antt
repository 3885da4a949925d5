-- ===== src/Host/Link.antt =====
-- pc/src/host/wiiu_link.{h,cpp}: the host's two links to the console. A pass of each loop is a `tick`
-- before the receive and a `receive` after it; `lastHello == 0` stands for never, as in the code.
pub mod Keepalive
use wii_sec_u.Base.{
  ℕ, ◌+◌, ◌-◌, ◌*◌, ◌/◌, ◌%◌, ◌^◌, Bool, true, false, not, ◌&&◌, ◌||◌, List, [], ◌∷◌, ◌++◌, Option,
  none, some, drop, replicate, ltb, leb, ◌==◌, if◌then◌else◌,
}
use wii_sec_u.Base.Word.{sub32, next16}
use wii_sec_u.Base.Int.{ℤ, pos, negsuc}
use wii_sec_u.Protocol.Wire.{Parse, ok, reject, fault}
use wii_sec_u.Protocol.Types.{
  header_size, max_packet, peer_timeout_ms, Header, Hello, Config, VideoHeader, AudioHeader,
}
use wii_sec_u.Protocol.Pkt
use wii_sec_u.Protocol.HelloStatus
use wii_sec_u.Protocol.ByeReason
use wii_sec_u.Protocol.Pack.{pack_hello, pack_ping, pack_bye}
use wii_sec_u.Protocol.Parse.{
  parse_header, parse_hello_ack, parse_config, parse_video, parse_audio, parse_timestamp,
}
use wii_sec_u.Endpoint.{Endpoint, Packet, send}

-- kHelloIntervalMs and kPingIntervalMs
abbrev pub hello_interval_ms : ℕ
hello_interval_ms = 1000

abbrev pub ping_interval_ms : ℕ
ping_interval_ms = 1000

-- WSU_ROLE_HOST
abbrev pub role_host : ℕ
role_host = 1

-- "wsu-host", in a buffer of zeros.
abbrev pub host_hello : Hello
host_hello = record {
  role = role_host;
  flags = 0;
  name = 119 ∷ 115 ∷ 117 ∷ 45 ∷ 104 ∷ 111 ∷ 115 ∷ 116 ∷ replicate 8 0;
}

-- What both loops keep: the link's flag, the peer found, the times and the sequence number; `target`
-- is where a HELLO goes.
pub record Link : Type 0 where
  pub up : Bool
  pub peer : Endpoint
  pub target : Endpoint
  pub last_hello : ℕ
  pub last_ping : ℕ
  pub last_recv : ℕ
  pub seq : ℕ

unfoldable pub say_hello : ℕ → Link → Link × List Packet
say_hello now l =
    if not l.up && (l.last_hello == 0 || leb hello_interval_ms (sub32 now l.last_hello))
    then (
      record l { seq = next16 l.seq; last_hello = now },
      send l.target (pack_hello max_packet l.seq host_hello),
    )
    else (l, [])

unfoldable pub say_ping : ℕ → Link → Link × List Packet
say_ping now l =
    if l.up && leb ping_interval_ms (sub32 now l.last_ping)
    then (
      record l { seq = next16 l.seq; last_ping = now },
      send l.peer (pack_ping max_packet l.seq now),
    )
    else (l, [])

unfoldable pub is_lost : ℕ → Link → Bool
is_lost now l = l.up && (not (l.last_recv == 0) && ltb peer_timeout_ms (sub32 now l.last_recv))

-- The stream loop's part before the receive.
unfoldable pub stream_tick : ℕ → Link → Link × List Packet
unfolding say_hello say_ping is_lost
stream_tick now l =
    let (l1, hellos) = say_hello now l in
    let (l2, pings) = say_ping now l1 in
    let l3 : Link = if is_lost now l2 then record l2 { up = false } else l2 in (l3, hellos ++ pings)

-- The input link also measures the round trip.
pub record InputLink : Type 0 where
  pub link : Link
  pub rtt_ms : ℤ

unfoldable pub input_tick : ℕ → InputLink → InputLink × List Packet
unfolding say_hello say_ping is_lost
input_tick now s =
    let (l1, hellos) = say_hello now s.link in
    let (l2, pings) = say_ping now l1 in
    let s2 : InputLink =
      if is_lost now l2
      then record { link = record l2 { up = false }; rtt_ms = negsuc 0 }
      else record s { link = l2 } in
    (s2, hellos ++ pings)

-- `static_cast<int>` of a 32-bit number.
abbrev pub to_i32 : ℕ → ℤ
to_i32 n = if ltb n (2 ^ 31) then pos n else negsuc (2 ^ 32 - 1 - n)

-- `-m / 8`, towards zero.
abbrev pub eighth_below : ℕ → ℤ
eighth_below m = if m / 8 == 0 then pos 0 else negsuc (m / 8 - 1)

-- `prev < 0 ? sample : (prev * 7 + sample) / 8`, where no product overflows.
unfoldable pub next_rtt : ℤ → ℕ → ℤ
next_rtt (negsuc n) age = to_i32 age
next_rtt (pos prev) age =
    let owed = 2 ^ 32 - age in
    if ltb age (2 ^ 31)
    then pos ((prev * 7 + age) / 8)
    else if leb owed (prev * 7)
    then pos ((prev * 7 - owed) / 8)
    else eighth_below (owed - prev * 7)

-- `case WSU_PKT_HELLO_ACK`, the same in both loops.
unfoldable pub on_hello_ack : Endpoint → List ℕ → Link → Link
on_hello_ack from p l = elim (parse_hello_ack p) [
  | ok ack ↦ if ack.status == HelloStatus.accepted then record l { peer = from; up = true } else l
  | reject ↦ l
  | fault ↦ l
]

on_pong : ℕ → List ℕ → InputLink → InputLink
unfolding next_rtt
on_pong now p s = elim (parse_timestamp p) [
  | ok echoed ↦ record s { rtt_ms = next_rtt s.rtt_ms (sub32 now echoed) }
  | reject ↦ s
  | fault ↦ s
]

unfoldable pub input_receive : ℕ → Endpoint → List ℕ → InputLink → InputLink
unfolding on_hello_ack on_pong
input_receive now from d s = elim (parse_header d) [
  | ok hdr ↦
      let heard : InputLink = record s { link = record s.link { last_recv = now } } in
      let p = drop header_size d in
      if hdr.type == Pkt.hello_ack
      then record heard { link = on_hello_ack from p heard.link }
      else if hdr.type == Pkt.pong
      then on_pong now p heard
      else heard
  | reject ↦ s
  | fault ↦ s
]

-- What the stream loop hands to its callbacks; the datagram goes on as it came.
pub data Relayed : Type 0 where
  relay_config : Config → Relayed
  relay_video : List ℕ → VideoHeader → List ℕ → Relayed
  relay_audio : List ℕ → AudioHeader → List ℕ → Relayed

abbrev pub when_ok {ℓ} : {A : Type ℓ} → (A → Relayed) → Parse A → List Relayed
when_ok f (ok a) = f a ∷ []
when_ok f reject = []
when_ok f fault = []

unfoldable pub relayed : Header → List ℕ → List Relayed
relayed hdr d =
    let p = drop header_size d in
    if hdr.type == Pkt.config
    then when_ok relay_config (parse_config p)
    else if hdr.type == Pkt.video
    then when_ok (λ x. relay_video d x.0 x.1) (parse_video p)
    else if hdr.type == Pkt.audio
    then when_ok (λ x. relay_audio d x.0 x.1) (parse_audio p)
    else []

unfoldable pub stream_receive : ℕ → Endpoint → List ℕ → Link → Link × List Relayed
unfolding on_hello_ack relayed
stream_receive now from d l = elim (parse_header d) [
  | ok hdr ↦
      let heard : Link = record l { last_recv = now } in
      (
        if hdr.type == Pkt.hello_ack then on_hello_ack from (drop header_size d) heard else heard,
        relayed hdr d,
      )
  | reject ↦ (l, [])
  | fault ↦ (l, [])
]
