-- ===== src/Host/Session/Isolation.antt =====
-- A datagram cannot touch another player, nor the host's own controller.
use mathlib.Core.Option.{some-injective}
use wii_sec_u.Base.{
  ℕ, ◌+◌, ◌≡◌, ◌≢◌, sym, ap, subst, ◌∙◌, inl, inr, true, not, List, some, get_or, set, arith,
  Option-cases, get_or-set_ne,
}
use wii_sec_u.Endpoint.{Endpoint}
use wii_sec_u.Host.InputHub.{hub_get, is_active}
use wii_sec_u.Host.InputHub.Slots.{hub_set-other, hub_clear-other}
use wii_sec_u.Host.Session.{Client, Server, client, no_client, find_by_sender, slot_for, receive}
use wii_sec_u.Host.Session.Clients.{
  find_index-Found, find_by_sender-some, slot_for-known, slot_for-free,
}
use wii_sec_u.Host.Session.Inv.{
  Change, unchanged, joins, heard, steers, leaves, receive-Change, IsServer, Change-IsServer,
}

-- Player `j + 1` of the one server is as in the other: its entry, its state, and when it was updated.
pub record IsSamePlayer (s t : Server) (j : ℕ) : Type 0 where
  pub same_client : client t j ≡ client s j
  pub same_state : hub_get (j + 1) t.hub ≡ hub_get (j + 1) s.hub
  pub same_active : (later : ℕ) → is_active (j + 1) later t.hub ≡ is_active (j + 1) later s.hub

abbrev IsSameHost : Server → Server → Type 0
IsSameHost s t =
    (hub_get 0 t.hub ≡ hub_get 0 s.hub)
    × ((later : ℕ) → is_active 0 later t.hub ≡ is_active 0 later s.hub)

sender_ne :
    (s : Server) (from : Endpoint) (j k : ℕ)
    → find_by_sender s.clients from ≡ some k
    → (client s j).ep ≢ from
    → k ≢ j
sender_ne s from j k q ne e =
    let (_, _, same) = find_by_sender-some s.clients from k q in
    ne (subst (λ n. (client s n).ep ≡ from) e same)

entry_ne :
    (s : Server) (from : Endpoint) (j k : ℕ)
    → slot_for s.clients from ≡ some k
    → (client s j).used ≡ true
    → (client s j).ep ≢ from
    → k ≢ j
entry_ne s from j k q u ne e = elim (Option-cases (find_by_sender s.clients from)) [
  | inl missing ↦
      let first =
        rw (sym (slot_for-free s.clients from missing) ∙ q) at
          (find_index-Found (λ c. not c.used) s.clients) in
      let free : not (client s j).used ≡ true =
        subst (λ n. not (client s n).used ≡ true) e first.passes in
      let f = rw u at free in cc
  | inr (i, known) ↦
      let i_k : i ≡ k = some-injective i k (sym (slot_for-known s.clients from i known) ∙ q) in
      sender_ne s from j i known ne (i_k ∙ e)
]

-- Another entry changes, and the hub in the slots that are not this player's.
apart-IsSamePlayer :
    (s t : Server) (j k : ℕ) (c : Client)
    → k ≢ j
    → t.clients ≡ set s.clients k c
    → (hub_get (j + 1) t.hub ≡ hub_get (j + 1) s.hub)
      × ((later : ℕ) → is_active (j + 1) later t.hub ≡ is_active (j + 1) later s.hub)
    → IsSamePlayer s t j
apart-IsSamePlayer s t j k c ne cs (state, active) = record {
  same_client = ap (λ l. get_or l j no_client) cs ∙ get_or-set_ne s.clients k j c no_client ne;
  same_state = state;
  same_active = active;
}

Change-IsSamePlayer :
    (now : ℕ) (from : Endpoint) (s t : Server) (j : ℕ)
    → Change now from s t
    → (client s j).used ≡ true
    → (client s j).ep ≢ from
    → IsSamePlayer s t j
Change-IsSamePlayer now from s t j (unchanged c h) u ne = record {
  same_client = ap (λ l. get_or l j no_client) c;
  same_state = ap (hub_get (j + 1)) h;
  same_active = λ later. ap (is_active (j + 1) later) h;
}
Change-IsSamePlayer now from s t j (joins k name q c h) u ne =
    apart-IsSamePlayer s t j k _ (entry_ne s from j k q u ne) c
      (ap (hub_get (j + 1)) h, λ later. ap (is_active (j + 1) later) h)
Change-IsSamePlayer now from s t j (heard k q c h) u ne =
    apart-IsSamePlayer s t j k _ (sender_ne s from j k q ne) c
      (ap (hub_get (j + 1)) h, λ later. ap (is_active (j + 1) later) h)
Change-IsSamePlayer now from s t j (steers k state q c h) u ne =
    let other = sender_ne s from j k q ne in
    apart-IsSamePlayer s t j k _ other c
      (rw h (hub_set-other (k + 1) state now s.hub (j + 1) (λ e. other (omega arith))))
Change-IsSamePlayer now from s t j (leaves k q c h) u ne =
    let other = sender_ne s from j k q ne in
    apart-IsSamePlayer s t j k _ other c
      (rw h (hub_clear-other (k + 1) s.hub (j + 1) (λ e. other (omega arith))))

Change-IsSameHost :
    (now : ℕ) (from : Endpoint) (s t : Server) → Change now from s t → IsSameHost s t
Change-IsSameHost now from s t (unchanged c h) =
    (ap (hub_get 0) h, λ later. ap (is_active 0 later) h)
Change-IsSameHost now from s t (joins k name q c h) =
    (ap (hub_get 0) h, λ later. ap (is_active 0 later) h)
Change-IsSameHost now from s t (heard k q c h) =
    (ap (hub_get 0) h, λ later. ap (is_active 0 later) h)
Change-IsSameHost now from s t (steers k state q c h) =
    rw h (hub_set-other (k + 1) state now s.hub 0 (λ e. absurd (omega arith)))
Change-IsSameHost now from s t (leaves k q c h) =
    rw h (hub_clear-other (k + 1) s.hub 0 (λ e. absurd (omega arith)))

-- Whatever datagram comes from whatever address: the invariant is kept, the host's own controller is
-- untouched, and so is every player with another address.
pub receive-isolated :
    (now : ℕ) (from : Endpoint) (d : List ℕ) (s : Server)
    → IsServer s
    → let t = (receive now from d s).0 in
      IsServer t
      × (hub_get 0 t.hub ≡ hub_get 0 s.hub)
      × ((later : ℕ) → is_active 0 later t.hub ≡ is_active 0 later s.hub)
      × ((j : ℕ) → (client s j).used ≡ true → (client s j).ep ≢ from → IsSamePlayer s t j)
receive-isolated now from d s k =
    let ch = receive-Change now from d s in
    let t = (receive now from d s).0 in
    let (state, active) = Change-IsSameHost now from s t ch in
    (
      Change-IsServer now from s t ch k,
      state,
      active,
      λ j u ne. Change-IsSamePlayer now from s t j ch u ne,
    )
