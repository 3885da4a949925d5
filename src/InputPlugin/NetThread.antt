-- ===== src/InputPlugin/NetThread.antt =====
-- wiiu/input-plugin/src/main.cpp: netThread, whose pass is `check_host` before the receive and
-- `receive` after it, and the enable switches.
use wii_sec_u.Base.{
  ℕ, Bool, true, false, not, ◌&&◌, List, [], drop, get_or, ltb, leb, ◌==◌, if◌then◌else◌,
}
use wii_sec_u.Base.Word.{sub32, next16}
use wii_sec_u.Protocol.Wire.{ok, reject, fault}
use wii_sec_u.Protocol.Types.{
  header_size, max_players, no_slot, peer_timeout_ms, proto_version, Header, HelloAck,
}
use wii_sec_u.Protocol.Pkt
use wii_sec_u.Protocol.HelloStatus
use wii_sec_u.Protocol.Pack.{pack_hello_ack, pack_pong}
use wii_sec_u.Protocol.Parse.{parse_header, parse_input_bundle, parse_timestamp}
use wii_sec_u.Endpoint.{Endpoint, Packet, send}
use wii_sec_u.InputPlugin.RemoteInput.{RemoteInput, update_all, deactivate_all}

pub record InputNet : Type 0 where
  pub remote : RemoteInput
  pub host_connected : Bool
  pub last_host_seen_ms : ℕ
  pub tx_seq : ℕ

unfoldable pub check_host : ℕ → InputNet → InputNet
check_host now s =
    if s.host_connected
      && not (s.last_host_seen_ms == 0)
      && ltb peer_timeout_ms (sub32 now s.last_host_seen_ms)
    then record s { host_connected = false }
    else s

-- `case WSU_PKT_HELLO`
on_hello : ℕ → Endpoint → Header → InputNet → InputNet × List Packet
on_hello now from hdr s =
    let accepted : Bool = hdr.version == proto_version in
    let ack : HelloAck = record {
      status = if accepted then HelloStatus.accepted else HelloStatus.version_mismatch;
      slot = no_slot;
    } in
    let s1 : InputNet = record s { tx_seq = next16 s.tx_seq } in
    let s2 : InputNet = record s1 { host_connected = true; last_host_seen_ms = now } in
    (if accepted then s2 else s1, send from (pack_hello_ack 10 s.tx_seq ack))

-- `case WSU_PKT_INPUT_BUNDLE`
unfoldable pub on_bundle : ℕ → List ℕ → InputNet → InputNet × List Packet
on_bundle now p s = elim (parse_input_bundle p) [
  | ok (ts, states) ↦ (
    record s {
      remote = update_all states now s.remote;
      host_connected = true;
      last_host_seen_ms = now;
    },
    [],
  )
  | reject ↦ (s, [])
  | fault ↦ (s, [])
]

-- `case WSU_PKT_PING`; the parser's only result but an error is 4.
on_ping : ℕ → Endpoint → List ℕ → InputNet → InputNet × List Packet
on_ping now from p s = elim (parse_timestamp p) [
  | ok ts ↦ (
    record s { tx_seq = next16 s.tx_seq; last_host_seen_ms = now },
    send from (pack_pong 12 s.tx_seq ts),
  )
  | reject ↦ (s, [])
  | fault ↦ (s, [])
]

unfoldable pub dispatch : ℕ → Endpoint → Header → List ℕ → InputNet → InputNet × List Packet
unfolding on_hello on_bundle on_ping
dispatch now from hdr p s =
    if hdr.type == Pkt.hello
    then on_hello now from hdr s
    else if hdr.type == Pkt.input_bundle
    then on_bundle now p s
    else if hdr.type == Pkt.ping
    then on_ping now from p s
    else if hdr.type == Pkt.bye
    then (record s { remote = deactivate_all s.remote; host_connected = false }, [])
    else (s, [])

unfoldable pub receive : ℕ → Endpoint → List ℕ → InputNet → InputNet × List Packet
unfolding dispatch
receive now from d s = elim (parse_header d) [
  | ok hdr ↦ dispatch now from hdr (drop header_size d) s
  | reject ↦ (s, [])
  | fault ↦ (s, [])
]

-- gMasterEnabled and gSlotEnabled
pub record Switches : Type 0 where
  pub master_enabled : Bool
  pub slot_enabled : List Bool

unfoldable pub slot_injection_enabled : Switches → ℕ → Bool
slot_injection_enabled w slot =
    if not w.master_enabled
    then false
    else if leb max_players slot
    then false
    else get_or w.slot_enabled slot false
