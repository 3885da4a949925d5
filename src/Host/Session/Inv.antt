-- ===== src/Host/Session/Inv.antt =====
-- What one datagram can change of the clients and the hub, and the invariant of SessionServer.
use mathlib.Core.Option.{some-injective}
use wii_sec_u.Base.{
  ℕ, ◌+◌, ◌≡◌, refl, sym, ap, subst, ◌∙◌, inl, inr, true, false, not, List, some, length, drop, set,
  ◌==◌, Bool-cases, Option-cases, if-both, length-set,
}
use wii_sec_u.Base.CString.{c_string}
use wii_sec_u.Protocol.Wire.{Parse-cases}
use wii_sec_u.Protocol.Types.{header_size, Header, Hello, InputState, proto_version}
use wii_sec_u.Protocol.Parse.{parse_header, parse_hello, parse_input, parse_timestamp}
use wii_sec_u.Protocol.Pkt
use wii_sec_u.Endpoint.{Endpoint, Packet}
use wii_sec_u.Host.InputHub.{hub_set, hub_clear}
use wii_sec_u.Host.InputHub.Slots.{IsHub, hub_set-IsHub, hub_clear-IsHub}
use wii_sec_u.Host.Session.{
  Client, Server, client, role_client, find_by_sender, slot_for, admit, handle_hello, drop_client,
  on_hello, on_input, on_ping, on_bye, dispatch, receive, bump_seq,
}
use wii_sec_u.Host.Session.Clients.{
  Distinct, Distinct-set, find_by_sender-some, find_by_sender-none, slot_for-known,
}

-- A datagram of `from` leaves clients and hub, or `from` joins in its own entry or a free one, is heard
-- of, steers the slot of its entry, or leaves it.
pub data Change (now : ℕ) (from : Endpoint) (s t : Server) : Type 0 where
  unchanged : t.clients ≡ s.clients → t.hub ≡ s.hub → Change now from s t
  joins :
      (k : ℕ) (name : List ℕ)
      → slot_for s.clients from ≡ some k
      → t.clients
        ≡ set s.clients k
            (record (client s k) { used = true; ep = from; name = name; last_seen_ms = now })
      → t.hub ≡ s.hub
      → Change now from s t
  heard :
      (k : ℕ)
      → find_by_sender s.clients from ≡ some k
      → t.clients ≡ set s.clients k (record (client s k) { last_seen_ms = now })
      → t.hub ≡ s.hub
      → Change now from s t
  steers :
      (k : ℕ) (state : InputState)
      → find_by_sender s.clients from ≡ some k
      → t.clients ≡ set s.clients k (record (client s k) { last_seen_ms = now })
      → t.hub ≡ hub_set (k + 1) state now s.hub
      → Change now from s t
  leaves :
      (k : ℕ)
      → find_by_sender s.clients from ≡ some k
      → t.clients ≡ set s.clients k (record (client s k) { used = false })
      → t.hub ≡ hub_clear (k + 1) s.hub
      → Change now from s t

handle_hello-Change :
    (now : ℕ) (from : Endpoint) (hello : Hello) (s : Server)
    → Change now from s (handle_hello now from hello s).0
unfolding handle_hello admit
handle_hello-Change now from hello s = elim (Bool-cases (not (hello.role == role_client))) [
  | inl e ↦ rw (e, handle_hello, admit) (unchanged refl refl)
  | inr e ↦ elim (Option-cases (slot_for s.clients from)) [
    | inl q ↦ rw (e, q, handle_hello, admit) (unchanged refl refl)
    | inr (k, q) ↦ elim (Bool-cases s.have_config) [
      | inl c ↦ rw (e, q, c, handle_hello, admit) (joins k (c_string hello.name) q refl refl)
      | inr c ↦ rw (e, q, c, handle_hello, admit) (joins k (c_string hello.name) q refl refl)
    ]
  ]
]

on_hello-Change :
    (now : ℕ) (from : Endpoint) (p : List ℕ) (s : Server)
    → Change now from s (on_hello now from p s).0
unfolding on_hello
on_hello-Change now from p s = elim (Parse-cases (parse_hello p)) [
  | inl (hello, e) ↦ rw (e, on_hello) (handle_hello-Change now from hello s)
  | inr (inl e) ↦ rw (e, on_hello) (unchanged refl refl)
  | inr (inr e) ↦ rw (e, on_hello) (unchanged refl refl)
]

on_input-Change :
    (now : ℕ) (from : Endpoint) (p : List ℕ) (s : Server)
    → Change now from s (on_input now from p s)
unfolding on_input
on_input-Change now from p s = elim (Parse-cases (parse_input p)) [
  | inl ((ts, state), e) ↦ elim (Option-cases (find_by_sender s.clients from)) [
    | inl q ↦ rw (e, q, on_input) (unchanged refl refl)
    | inr (k, q) ↦ rw (e, q, on_input) (steers k state q refl refl)
  ]
  | inr (inl e) ↦ rw (e, on_input) (unchanged refl refl)
  | inr (inr e) ↦ rw (e, on_input) (unchanged refl refl)
]

on_ping-Change :
    (now : ℕ) (from : Endpoint) (p : List ℕ) (s : Server)
    → Change now from s (on_ping now from p s).0
unfolding on_ping
on_ping-Change now from p s = elim (Parse-cases (parse_timestamp p)) [
  | inl (ts, e) ↦ elim (Option-cases (find_by_sender s.clients from)) [
    | inl q ↦ rw (e, q, on_ping) (unchanged refl refl)
    | inr (k, q) ↦ rw (e, q, on_ping) (heard k q refl refl)
  ]
  | inr (inl e) ↦ rw (e, on_ping) (unchanged refl refl)
  | inr (inr e) ↦ rw (e, on_ping) (unchanged refl refl)
]

drop_client-Change :
    (now : ℕ) (from : Endpoint) (s : Server) (k : ℕ)
    → find_by_sender s.clients from ≡ some k
    → (client s k).used ≡ true
    → Change now from s (drop_client k s)
unfolding drop_client
drop_client-Change now from s k q u =
    let guard : not (client s k).used ≡ false = rw u refl in rw (guard) (leaves k q refl refl)

on_bye-Change : (now : ℕ) (from : Endpoint) (s : Server) → Change now from s (on_bye from s)
unfolding on_bye
on_bye-Change now from s = elim (Option-cases (find_by_sender s.clients from)) [
  | inl q ↦ rw (q, on_bye) (unchanged refl refl)
  | inr (k, q) ↦
      let (_, u, _) = find_by_sender-some s.clients from k q in
      rw (q, on_bye) (drop_client-Change now from s k q u)
]

dispatch-Change :
    (now : ℕ) (from : Endpoint) (hdr : Header) (p : List ℕ) (s : Server)
    → Change now from s (dispatch now from hdr p s).0
unfolding dispatch bump_seq
dispatch-Change now from hdr p s =
    let same : Change now from s s = unchanged refl refl in
    let P : Server × List Packet → Type 0 = λ r. Change now from s r.0 in
    if-both P (not (hdr.version == proto_version))
      (if-both P (hdr.type == Pkt.hello) (unchanged refl refl) same)
      (if-both P (hdr.type == Pkt.hello) (on_hello-Change now from p s) (
        if-both P (hdr.type == Pkt.input) (on_input-Change now from p s) (
          if-both P (hdr.type == Pkt.ping) (on_ping-Change now from p s)
            (if-both P (hdr.type == Pkt.bye) (on_bye-Change now from s) same))))

-- Every datagram does one of these things.
pub receive-Change :
    (now : ℕ) (from : Endpoint) (d : List ℕ) (s : Server)
    → Change now from s (receive now from d s).0
unfolding receive
receive-Change now from d s = elim (Parse-cases (parse_header d)) [
  | inl (hdr, e) ↦ rw (e, receive) (dispatch-Change now from hdr (drop header_size d) s)
  | inr (inl e) ↦ rw (e, receive) (unchanged refl refl)
  | inr (inr e) ↦ rw (e, receive) (unchanged refl refl)
]

pub record IsServer (s : Server) : Type 0 where
  pub three : length s.clients ≡ 3
  pub distinct : Distinct s.clients
  pub hub_ok : IsHub s.hub

-- An entry that stays where and what it is, but for the time or for leaving.
Distinct-keep :
    (s : Server) (k : ℕ) (c : Client)
    → Distinct s.clients
    → (client s k).used ≡ true
    → c.ep ≡ (client s k).ep
    → Distinct (set s.clients k c)
Distinct-keep s k c d u same =
    Distinct-set s.clients k c d (λ _ j ne uj e. ne (d j k uj u (e ∙ same)))

Distinct-joins :
    (s : Server) (from : Endpoint) (k : ℕ) (c : Client)
    → Distinct s.clients
    → slot_for s.clients from ≡ some k
    → c.ep ≡ from
    → Distinct (set s.clients k c)
Distinct-joins s from k c d q same = elim (Option-cases (find_by_sender s.clients from)) [
  | inl missing ↦
      Distinct-set s.clients k c d
        (λ _ j ne uj e. find_by_sender-none s.clients from j missing uj (e ∙ same))
  | inr (i, known) ↦
      let (_, u, e) = find_by_sender-some s.clients from i known in
      let i_k : i ≡ k = some-injective i k (sym (slot_for-known s.clients from i known) ∙ q) in
      subst (λ n. Distinct (set s.clients n c)) i_k (Distinct-keep s i c d u (same ∙ sym e))
]

pub Change-IsServer :
    (now : ℕ) (from : Endpoint) (s t : Server) → Change now from s t → IsServer s → IsServer t
Change-IsServer now from s t (unchanged c h) k = record {
  three = ap length c ∙ k.three;
  distinct = subst Distinct (sym c) k.distinct;
  hub_ok = subst IsHub (sym h) k.hub_ok;
}
Change-IsServer now from s t (joins i name q c h) k = record {
  three = ap length c ∙ (length-set s.clients i _ ∙ k.three);
  distinct = subst Distinct (sym c) (Distinct-joins s from i _ k.distinct q refl);
  hub_ok = subst IsHub (sym h) k.hub_ok;
}
Change-IsServer now from s t (heard i q c h) k =
    let (_, u, _) = find_by_sender-some s.clients from i q in
    record {
      three = ap length c ∙ (length-set s.clients i _ ∙ k.three);
      distinct = subst Distinct (sym c) (Distinct-keep s i _ k.distinct u refl);
      hub_ok = subst IsHub (sym h) k.hub_ok;
    }
Change-IsServer now from s t (steers i state q c h) k =
    let (_, u, _) = find_by_sender-some s.clients from i q in
    record {
      three = ap length c ∙ (length-set s.clients i _ ∙ k.three);
      distinct = subst Distinct (sym c) (Distinct-keep s i _ k.distinct u refl);
      hub_ok = subst IsHub (sym h) (hub_set-IsHub (i + 1) state now s.hub k.hub_ok);
    }
Change-IsServer now from s t (leaves i q c h) k =
    let (_, u, _) = find_by_sender-some s.clients from i q in
    record {
      three = ap length c ∙ (length-set s.clients i _ ∙ k.three);
      distinct = subst Distinct (sym c) (Distinct-keep s i _ k.distinct u refl);
      hub_ok = subst IsHub (sym h) (hub_clear-IsHub (i + 1) s.hub k.hub_ok);
    }
