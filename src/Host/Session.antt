-- ===== src/Host/Session.antt =====
-- pc/src/host/session_server.{h,cpp}: the remote clients of the host. `tick` and `receive` make up one
-- pass of SessionServer::loop, the others are called by the link's threads; the mutex makes each one
-- step. The clock is an argument, and each step returns the datagrams sent, in order.
pub mod Clients
pub mod Inv
pub mod Isolation
pub mod Admission
pub mod Sweep
use wii_sec_u.Base.{
  ℕ, zero, suc, ◌+◌, ◌%◌, ◌^◌, Bool, true, false, not, ◌&&◌, ◌||◌, List, [], ◌∷◌, ◌++◌, Option,
  none, some, drop, get_or, set, replicate, ltb, leb, ◌==◌, if◌then◌else◌, map,
}
use wii_sec_u.Base.CString.{c_string}
use wii_sec_u.Base.Word.{sub32, next16}
use wii_sec_u.Base.Int.{ℤ, negsuc}
use wii_sec_u.Protocol.Wire.{Parse, ok, reject, fault}
use wii_sec_u.Protocol.Types.{
  header_size, max_packet, no_slot, peer_timeout_ms, proto_version, Header, Hello, HelloAck, Config,
}
use wii_sec_u.Protocol.Pkt
use wii_sec_u.Protocol.HelloStatus
use wii_sec_u.Protocol.ByeReason
use wii_sec_u.Protocol.Pack.{pack_hello_ack, pack_config, pack_pong, pack_bye}
use wii_sec_u.Protocol.Parse.{parse_header, parse_hello, parse_input, parse_timestamp}
use wii_sec_u.Endpoint.{Endpoint, same_ep, Packet, send}
use wii_sec_u.Host.InputHub.{InputHub, hub_set, hub_clear}

-- WSU_ROLE_CLIENT
abbrev pub role_client : ℕ
role_client = 2

pub record Client : Type 0 where
  pub used : Bool
  pub ep : Endpoint
  pub name : List ℕ
  pub last_seen_ms : ℕ
  pub rtt_ms : ℤ

abbrev pub no_client : Client
no_client = record {
  used = false;
  ep = record { addr = 0; port = 0 };
  name = [];
  last_seen_ms = 0;
  rtt_ms = negsuc 0;
}

-- The members, the hub, and `lastSweep` of the loop.
pub record Server : Type 0 where
  pub hub : InputHub
  pub running : Bool
  pub clients : List Client
  pub config : Config
  pub have_config : Bool
  pub seq : ℕ
  pub last_sweep : ℕ

abbrev pub client : Server → ℕ → Client
client s i = get_or s.clients i no_client

-- The first entry that passes, as both loops over the clients look for it.
abbrev pub find_index : (Client → Bool) → List Client → Option ℕ
find_index p [] = none
find_index p (c ∷ cs) =
    if p c then some 0 else elim (find_index p cs) [ some i ↦ some (suc i) | none ↦ none ]

unfoldable pub find_by_sender : List Client → Endpoint → Option ℕ
find_by_sender cs from = find_index (λ c. c.used && same_ep c.ep from) cs

unfoldable pub slot_for : List Client → Endpoint → Option ℕ
unfolding find_by_sender
slot_for cs from = elim (find_by_sender cs from) [
  | some i ↦ some i
  | none ↦ find_index (λ c. not c.used) cs
]

bump_seq : Server → Server
bump_seq s = record s { seq = next16 s.seq }

-- `n` clients to go, all with the same datagram.
unfoldable pub send_all : List Client → List ℕ → List Packet
send_all [] d = []
send_all (c ∷ cs) d = let rest = send_all cs d in if c.used then (c.ep, d) ∷ rest else rest

abbrev pub send_all_packed : List Client → Option (List ℕ) → List Packet
send_all_packed cs none = []
send_all_packed cs (some d) = send_all cs d

unfoldable pub broadcast : List ℕ → Server → List Packet
unfolding send_all
broadcast d s = if s.running then send_all s.clients d else []

-- `memcmp(&config, &config_, sizeof(config)) == 0`; the struct has no padding.
unfoldable pub same_config : Config → Config → Bool
same_config a b =
    a.width == b.width
    && (a.height == b.height)
    && (a.fps == b.fps)
    && (a.video_codec == b.video_codec)
    && (a.quality == b.quality)
    && (a.audio_codec == b.audio_codec)
    && (a.audio_rate_hz == b.audio_rate_hz)
    && (a.audio_channels == b.audio_channels)
    && (a.flags == b.flags)

unfoldable pub set_config : Config → Server → Server × List Packet
unfolding send_all same_config bump_seq
set_config config s =
    let kept : Server = record s { config = config; have_config = true } in
    if not s.have_config || not (same_config config s.config)
    then (bump_seq kept, send_all_packed s.clients (pack_config 18 s.seq config))
    else (kept, [])

unfoldable pub stop : Server → Server × List Packet
unfolding send_all
stop s = if not s.running then (s, []) else (
  record s {
    running = false;
    clients = map {A = Client} (λ c. record c { used = false }) s.clients;
    seq = next16 s.seq;
  },
  send_all_packed s.clients (pack_bye 9 s.seq ByeReason.shutdown),
)

-- `info.slot`, the name, the endpoint and the round trip time.
pub record ClientInfo : Type 0 where
  pub slot : ℕ
  pub info_name : List ℕ
  pub endpoint : Endpoint
  pub info_rtt_ms : ℤ

unfoldable pub infos_from : ℕ → List Client → List ClientInfo
infos_from i [] = []
infos_from i (c ∷ cs) =
    let rest = infos_from (suc i) cs in
    if not c.used
    then rest
    else record {
      slot = (i + 1) % 2 ^ 8;
      info_name = c.name;
      endpoint = c.ep;
      info_rtt_ms = c.rtt_ms;
    }
      ∷ rest

unfoldable pub clients_of : Server → List ClientInfo
unfolding infos_from
clients_of s = infos_from 0 s.clients

-- The acknowledgement, with the clients as it leaves them. The name ends at its NUL.
unfoldable pub admit : ℕ → Endpoint → Hello → List Client → HelloAck × List Client
unfolding slot_for
admit now from hello cs =
    if not (hello.role == role_client)
    then (record { status = HelloStatus.rejected; slot = no_slot }, cs)
    else elim (slot_for cs from) [
      | none ↦ (record { status = HelloStatus.full; slot = no_slot }, cs)
      | some i ↦ (
        record { status = HelloStatus.accepted; slot = (i + 1) % 2 ^ 8 },
        set cs i (record (get_or cs i no_client) {
          used = true;
          ep = from;
          name = c_string hello.name;
          last_seen_ms = now;
        }),
      )
    ]

unfoldable pub handle_hello : ℕ → Endpoint → Hello → Server → Server × List Packet
unfolding admit bump_seq
handle_hello now from hello s =
    let (ack, cs) = admit now from hello s.clients in
    let s1 : Server = bump_seq (record s { clients = cs }) in
    let reply = send from (pack_hello_ack max_packet s.seq ack) in
    if ack.status == HelloStatus.accepted && s.have_config
    then (bump_seq s1, reply ++ send from (pack_config max_packet s1.seq s.config))
    else (s1, reply)

unfoldable pub drop_client : ℕ → Server → Server
drop_client i s = if not (client s i).used then s else record s {
  clients = set s.clients i (record (client s i) { used = false });
  hub = hub_clear (i + 1) s.hub;
}

-- The clients from `i` on, `n` of them, at a sweep.
unfoldable pub sweep_from : ℕ → ℕ → ℕ → Server → Server
unfolding drop_client
sweep_from zero i now s = s
sweep_from (suc n) i now s =
    let late : Bool =
      (client s i).used && ltb peer_timeout_ms (sub32 now (client s i).last_seen_ms) in
    let next : Server = if late then drop_client i s else s in sweep_from n (suc i) now next

unfoldable pub tick : ℕ → Server → Server
unfolding sweep_from
tick now s =
    if leb 1000 (sub32 now s.last_sweep)
    then record (sweep_from 3 0 now s) { last_sweep = now }
    else s

-- `clients_[idx].lastSeenMs = now`
abbrev pub touch : ℕ → ℕ → Server → Server
touch i now s = record s { clients = set s.clients i (record (client s i) { last_seen_ms = now }) }

unfoldable pub on_input : ℕ → Endpoint → List ℕ → Server → Server
unfolding find_by_sender
on_input now from p s = elim (parse_input p) [
  | ok (ts, state) ↦ elim (find_by_sender s.clients from) [
    | some i ↦ record (touch i now s) { hub = hub_set (i + 1) state now s.hub }
    | none ↦ s
  ]
  | reject ↦ s
  | fault ↦ s
]

unfoldable pub on_ping : ℕ → Endpoint → List ℕ → Server → Server × List Packet
unfolding find_by_sender bump_seq
on_ping now from p s = elim (parse_timestamp p) [
  | ok ts ↦
      let s1 : Server = elim (find_by_sender s.clients from) [
        | some i ↦ touch i now s
        | none ↦ s
      ] in
      (bump_seq s1, send from (pack_pong 12 s.seq ts))
  | reject ↦ (s, [])
  | fault ↦ (s, [])
]

unfoldable pub on_bye : Endpoint → Server → Server
unfolding find_by_sender drop_client
on_bye from s = elim (find_by_sender s.clients from) [ some i ↦ drop_client i s | none ↦ s ]

unfoldable pub on_hello : ℕ → Endpoint → List ℕ → Server → Server × List Packet
unfolding handle_hello
on_hello now from p s = elim (parse_hello p) [
  | ok hello ↦ handle_hello now from hello s
  | reject ↦ (s, [])
  | fault ↦ (s, [])
]

unfoldable pub dispatch : ℕ → Endpoint → Header → List ℕ → Server → Server × List Packet
unfolding on_hello on_input on_ping on_bye bump_seq
dispatch now from hdr p s =
    if not (hdr.version == proto_version)
    then (if hdr.type == Pkt.hello
        then (
          bump_seq s,
          send from (
              pack_hello_ack max_packet s.seq
                (record { status = HelloStatus.version_mismatch; slot = no_slot })),
        )
        else (s, []))
    else if hdr.type == Pkt.hello
    then on_hello now from p s
    else if hdr.type == Pkt.input
    then (on_input now from p s, [])
    else if hdr.type == Pkt.ping
    then on_ping now from p s
    else if hdr.type == Pkt.bye
    then (on_bye from s, [])
    else (s, [])

-- A received datagram, from the header on.
unfoldable pub receive : ℕ → Endpoint → List ℕ → Server → Server × List Packet
unfolding dispatch
receive now from d s = elim (parse_header d) [
  | ok hdr ↦ dispatch now from hdr (drop header_size d) s
  | reject ↦ (s, [])
  | fault ↦ (s, [])
]
