-- ===== src/Client/Handshake.antt =====
-- A player joins and plays: the client's HELLO, the host's HELLO_ACK and the client's INPUT, from
-- pc/src/client/client_app.cpp to pc/src/host/session_server.cpp and back, with the wire format between.
use wii_sec_u.Base.{
  ℕ, ◌+◌, ◌%◌, ◌^◌, ◌<◌, ◌≡◌, refl, sym, ap, ◌∙◌, inl, inr, Bool, true, false, not, ◌&&◌, ◌||◌,
  List, [], ◌∷◌, ◌++◌, some, length, drop, take, set, get_or, leb, ◌==◌, if◌then◌else◌, arith,
  Bool-cases, Option-cases, get_or-set_self, append-nil,
}
use wii_sec_u.Base.Word.{sub32, next16}
use wii_sec_u.Base.CString.{c_string}
use wii_sec_u.Protocol.Wire.{ok}
use wii_sec_u.Protocol.Types.{
  header_size, max_packet, proto_version, Hello, HelloAck, InputState, InputFits,
}
use wii_sec_u.Protocol.Pkt
use wii_sec_u.Protocol.HelloStatus
use wii_sec_u.Protocol.Pack.{pack_hello, pack_hello_ack, pack_config, pack_input}
use wii_sec_u.Protocol.Parse.{parse_header, parse_hello, parse_hello_ack, parse_input}
use wii_sec_u.Protocol.Roundtrip.{pack_hello-Received, pack_hello_ack-Received, pack_input-Received}
use wii_sec_u.Endpoint.{Endpoint, Packet, send, same_ep, same_ep_refl}
use wii_sec_u.Host.InputHub.{hub_set, hub_get}
use wii_sec_u.Host.InputHub.Slots.{hub_set_self}
use wii_sec_u.Host.Session.{
  Client, no_client, Server, role_client, find_by_sender, slot_for, find_index, admit, handle_hello,
  on_hello, on_input, dispatch, receive,
}
use wii_sec_u.Host.Session.Clients.{
  find_index-Found, find_by_sender-some, find_by_sender-used, slot_for-known, slot_for-free,
}
use wii_sec_u.Host.Session.Inv.{IsServer}
use wii_sec_u.Host.Session.Isolation.{receive-isolated}
use wii_sec_u.Host.Link.{hello_interval_ms}
use wii_sec_u.Client.{
  ClientOptions, ClientApp, tick_ms, client_hello, client_hello_ack, client_input, client_dispatch,
  client_receive,
}

receive-hello :
    (now : ℕ) (from : Endpoint) (seq : ℕ) (d : List ℕ) (h : Hello) (s : Server)
    → parse_header d ≡ ok (record { version = proto_version; type = Pkt.hello; seq = seq })
    → parse_hello (drop header_size d) ≡ ok h
    → receive now from d s ≡ handle_hello now from h s
unfolding receive dispatch on_hello
receive-hello now from seq d h s e p = rw (e, p, receive, dispatch, on_hello) refl

receive-input :
    (now : ℕ) (from : Endpoint) (seq ts k : ℕ) (d : List ℕ) (state : InputState) (s : Server)
    → parse_header d ≡ ok (record { version = proto_version; type = Pkt.input; seq = seq })
    → parse_input (drop header_size d) ≡ ok (ts, state)
    → find_by_sender s.clients from ≡ some k
    → (receive now from d s).0.hub ≡ hub_set (k + 1) state now s.hub
unfolding receive dispatch on_input
receive-input now from seq ts k d state s e p f = rw (e, p, f, receive, dispatch, on_input) refl

-- What a HELLO of a client does when there is a slot.
handle_hello-slot :
    (now : ℕ) (from : Endpoint) (name : List ℕ) (s : Server) (k : ℕ)
    → slot_for s.clients from ≡ some k
    → let h : Hello = record { role = role_client; flags = 0; name = name } in
      let r = handle_hello now from h s in
      (more : List Packet) × (r.1
        ≡ send from (
            pack_hello_ack max_packet s.seq
              (record { status = HelloStatus.accepted; slot = (k + 1) % 2 ^ 8 }))
          ++ more)
      × (r.0.clients
          ≡ set s.clients k (record (get_or s.clients k no_client) {
            used = true;
            ep = from;
            name = c_string name;
            last_seen_ms = now;
          }))
      × (r.0.hub ≡ s.hub)
unfolding handle_hello admit
handle_hello-slot now from name s k e = elim (Bool-cases s.have_config) [
  | inl c ↦
      rw (e, c, handle_hello, admit)
        (send from (pack_config max_packet (next16 s.seq) s.config), refl, refl, refl)
  | inr c ↦ rw (e, c, handle_hello, admit) ([], sym (append-nil _), refl, refl)
]

slot_for-inside :
    (cs : List Client) (from : Endpoint) (k : ℕ) → slot_for cs from ≡ some k → k < length cs
slot_for-inside cs from k e = elim (Option-cases (find_by_sender cs from)) [
  | inl q ↦
      let f : find_index (λ c. not c.used) cs ≡ some k = sym (slot_for-free cs from q) ∙ e in
      let first = rw f at (find_index-Found (λ c. not c.used) cs) in first.inside
  | inr (i, q) ↦
      let same : some i ≡ some k = sym (slot_for-known cs from i q) ∙ e in
      let (b, _, _) = find_by_sender-some cs from i q in
      let at : i ≡ k = grind (arith, same) in omega (arith, b, at)
]

client_receive-accepted :
    (o : ClientOptions) (now seq slot : ℕ) (d : List ℕ) (c : ClientApp)
    → parse_header d ≡ ok (record { version = proto_version; type = Pkt.hello_ack; seq = seq })
    → parse_hello_ack (drop header_size d)
      ≡ ok (record { status = HelloStatus.accepted; slot = slot })
    → client_receive o now o.host_addr d c
      ≡ (record c { last_recv = now; slot = slot; connected = true }, [])
unfolding client_receive client_dispatch client_hello_ack
client_receive-accepted o now seq slot d c e p =
    let me : not (same_ep o.host_addr o.host_addr) ≡ false = rw (same_ep_refl o.host_addr) refl in
    rw (me, e, p, client_receive, client_dispatch, client_hello_ack) refl

with_slot :
    (s : InputState) (slot : ℕ) → slot < 2 ^ 8 → InputFits s → InputFits (record s { slot = slot })
with_slot s slot b f = record {
  slot_fits = b;
  flags_fits = f.flags_fits;
  buttons_fits = f.buttons_fits;
  lx_fits = f.lx_fits;
  ly_fits = f.ly_fits;
  rx_fits = f.rx_fits;
  ry_fits = f.ry_fits;
  lt_fits = f.lt_fits;
  rt_fits = f.rt_fits;
  touch_x_fits = f.touch_x_fits;
  touch_y_fits = f.touch_y_fits;
  gyro_pitch_fits = f.gyro_pitch_fits;
  gyro_yaw_fits = f.gyro_yaw_fits;
  gyro_roll_fits = f.gyro_roll_fits;
}

-- The entry that a HELLO has made is found again.
admitted-found :
    (now : ℕ) (from : Endpoint) (name : List ℕ) (s t : Server) (k : ℕ)
    → IsServer t
    → k < length s.clients
    → t.clients
      ≡ set s.clients k (record (get_or s.clients k no_client) {
        used = true;
        ep = from;
        name = name;
        last_seen_ms = now;
      })
    → find_by_sender t.clients from ≡ some k
admitted-found now from name s t k inv b e =
    let entry : Client = record (get_or s.clients k no_client) {
      used = true;
      ep = from;
      name = name;
      last_seen_ms = now;
    } in
    let there : get_or t.clients k no_client ≡ entry =
      ap (λ cs. get_or cs k no_client) e ∙ get_or-set_self s.clients k entry no_client b in
    find_by_sender-used t.clients from k inv.distinct (ap (λ c. c.used) there)
      (ap (λ c. c.ep) there)

-- A client that is starting sends a HELLO to the host.
client_hello-sent :
    (o : ClientOptions) (now : ℕ) (c : ClientApp) (d : List ℕ)
    → c.connected ≡ false
    → c.last_hello ≡ 0
    → pack_hello max_packet c.seq (record { role = role_client; flags = 0; name = o.player_name })
      ≡ some d
    → client_hello o now c
      ≡ (record c { seq = next16 c.seq; last_hello = now }, (o.host_addr, d) ∷ [])
unfolding client_hello
client_hello-sent o now c d off first e =
    let hello : Hello = record { role = role_client; flags = 0; name = o.player_name } in
    let after : ClientApp = record c { seq = next16 c.seq; last_hello = now } in
    let due : (not c.connected
          && (c.last_hello == 0 || leb hello_interval_ms (sub32 now c.last_hello)))
        ≡ true =
      ground (arith, off, first) in
    ap (λ b. if b then (after, send o.host_addr (pack_hello max_packet c.seq hello)) else (c, []))
      due
    ∙ ap (λ p. (after, send o.host_addr p)) e

-- A state that is due goes to the host.
client_input-sent :
    (o : ClientOptions) (now : ℕ) (state : InputState) (c : ClientApp) (d : List ℕ)
    → o.has_input ≡ true
    → leb (tick_ms o) (sub32 now c.last_input) ≡ true
    → pack_input max_packet c.seq now (record state { slot = c.slot }) ≡ some d
    → (client_input o now (some state) c).1 ≡ (o.host_addr, d) ∷ []
unfolding client_input
client_input-sent o now state c d has due e =
    let after : ClientApp = record c { seq = next16 c.seq; last_input = now } in
    let both : (o.has_input && leb (tick_ms o) (sub32 now c.last_input)) ≡ true =
      ground (arith, has, due) in
    let chosen : Bool → ClientApp × List Packet = λ b.
      if b
      then (
        after,
        send o.host_addr (pack_input max_packet c.seq now (record state { slot = c.slot })),
      )
      else (c, []) in
    ap (λ b. (chosen b).1) both ∙ ap (send o.host_addr) e

-- A client that is starting sends a HELLO; if the host has a slot for its address, it answers with
-- a HELLO_ACK, first of what it sends; that makes the client connected in that slot; and a controller state that
-- it sends when one is due is then the state of that slot in the host's hub.
pub client_input-hub_get :
    (o : ClientOptions) (c : ClientApp) (s : Server) (from : Endpoint) (k t0 t1 t2 t3 t4 : ℕ)
    (state : InputState)
    → IsServer s
    → slot_for s.clients from ≡ some k
    → length o.player_name ≡ 16
    → c.seq < 2 ^ 16
    → s.seq < 2 ^ 16
    → c.connected ≡ false
    → c.last_hello ≡ 0
    → o.has_input ≡ true
    → leb (tick_ms o) (sub32 t3 c.last_input) ≡ true
    → t3 < 2 ^ 32
    → InputFits state
    → (hello : List ℕ) × (ack : List ℕ) × (input : List ℕ) × (more : List Packet) × ((client_hello o
          t0 c).1
        ≡ (o.host_addr, hello) ∷ [])
      × ((receive t1 from hello s).1 ≡ (from, ack) ∷ more)
      × (let j = (client_receive o t2 o.host_addr ack (client_hello o t0 c).0).0 in
          (j.connected ≡ true)
          × (j.slot ≡ k + 1)
          × ((client_input o t3 (some state) j).1 ≡ (o.host_addr, input) ∷ [])
          × (hub_get (k + 1) (receive t4 from input (receive t1 from hello s).0).0.hub
              ≡ record state { slot = k + 1 }))
client_input-hub_get o c s from k t0 t1 t2 t3 t4 state inv free named cq sq off first has due time
      fits =
    let h : Hello = record { role = role_client; flags = 0; name = o.player_name } in
    let (hello, he, _, hh, hp) = pack_hello-Received max_packet c.seq h (omega arith) cq named in
    let name = take 15 o.player_name ++ (0 ∷ []) in
    let c1 : ClientApp = record c { seq = next16 c.seq; last_hello = t0 } in
    let sent = client_hello-sent o t0 c hello off first he in
    let got = receive-hello t1 from c.seq hello (record h { name = name }) s hh hp in
    let (more, out, cs, hub) = handle_hello-slot t1 from name s k free in
    let a : HelloAck = record { status = HelloStatus.accepted; slot = (k + 1) % 2 ^ 8 } in
    let (ack, ae, _, ah, ap_) = pack_hello_ack-Received max_packet s.seq a (omega arith) sq in
    let s1 = (receive t1 from hello s).0 in
    let inv1 = (receive-isolated t1 from hello s inv).0 in
    let b = slot_for-inside s.clients from k free in
    let small : k < 3 = omega (arith, b, inv.three) in
    let accepted = client_receive-accepted o t2 s.seq ((k + 1) % 2 ^ 8) ack c1 ah ap_ in
    let j : ClientApp = record c1 { last_recv = t2; slot = (k + 1) % 2 ^ 8; connected = true } in
    let joined : (client_receive o t2 o.host_addr ack (client_hello o t0 c).0).0 ≡ j =
      ap (λ r. (client_receive o t2 o.host_addr ack r.0).0) sent ∙ ap (λ r. r.0) accepted in
    let wire : InputState = record state { slot = (k + 1) % 2 ^ 8 } in
    let (input, ie, _, ih, ip) =
      pack_input-Received max_packet (next16 c.seq) t3 wire (omega arith) (omega arith) time
        (with_slot state ((k + 1) % 2 ^ 8) (omega arith) fits) in
    let found =
      admitted-found t1 from (c_string name) s s1 k inv1 b (ap (λ r. r.0.clients) got ∙ cs) in
    let landed = receive-input t4 from (next16 c.seq) t3 k input wire s1 ih ip found in
    let held = (hub_set_self (k + 1) wire t4 s1.hub inv1.hub_ok (omega (arith, small))).0 in
    (
      hello,
      ack,
      input,
      more,
      ap (λ r. r.1) sent,
      ap (λ r. r.1) got ∙ (out ∙ ap (λ p. send from p ++ more) ae),
      (
        ap (λ x. x.connected) joined,
        ap (λ x. x.slot) joined ∙ omega (arith, small),
        ap (λ x. (client_input o t3 (some state) x).1) joined
            ∙ client_input-sent o t3 state j input has due ie,
        ap (hub_get (k + 1)) landed ∙ held,
      ),
    )
