-- ===== src/Endpoint.antt =====
-- pc/src/net/udp_socket.h: Endpoint, and what crosses the network: datagrams with the address that
-- they go to.
pub mod Text
pub mod Socket
use wii_sec_u.Base.{ℕ, Bool, true, ◌&&◌, List, [], ◌∷◌, Option, none, some, ◌==◌, ◌≡◌, arith}

pub record Endpoint : Type 0 where
  pub addr : ℕ
  pub port : ℕ

-- operator==
abbrev pub same_ep : Endpoint → Endpoint → Bool
same_ep a b = a.addr == b.addr && a.port == b.port

pub same_ep→eq : (a b : Endpoint) → same_ep a b ≡ true → a ≡ b
same_ep→eq a b h = ground arith

pub same_ep_refl : (a : Endpoint) → same_ep a a ≡ true
same_ep_refl a = ground arith

-- A datagram on its way.
abbrev pub Packet : Type 0
Packet = Endpoint × List ℕ

-- `if (n > 0) sendTo(to, buf, n)`
abbrev pub send : Endpoint → Option (List ℕ) → List Packet
send to none = []
send to (some d) = (to, d) ∷ []
