-- ===== src/Endpoint/Socket/Laws.antt =====
-- The descriptors of a UdpSocket, and an address on its way through the socket calls.
use wii_sec_u.Base.{
  ℕ, ◌^◌, ◌<◌, ◌≡◌, refl, sym, ap, ◌∙◌, Bool, List, [], ◌∷◌, Option, none, some, if◌then◌else◌,
  if-both, ==_refl, arith,
}
use wii_sec_u.Endpoint.{Endpoint}
use wii_sec_u.Endpoint.Socket.{
  htonl, htons, of_network, to_sockaddr, from_sockaddr, UdpSocket, released, close_fd, socket_open,
  socket_close,
}

-- A call of open, with what the system gives, or of close.
pub data SocketOp : Type 0 where
  opens : Option ℕ → Bool → SocketOp
  closes : SocketOp

abbrev pub run_op : SocketOp → UdpSocket → UdpSocket
run_op (opens given binds) s = (socket_open given binds s).0
run_op closes s = socket_close s

abbrev pub run_ops : List SocketOp → UdpSocket → UdpSocket
run_ops [] s = s
run_ops (op ∷ ops) s = run_ops ops (run_op op s)

abbrev pub held_list : Option ℕ → List ℕ
held_list none = []
held_list (some f) = f ∷ []

-- The system's descriptors are the one that the object holds.
abbrev pub IsHeld : UdpSocket → Type 0
IsHeld s = s.kernel ≡ held_list s.fd

close_fd-IsHeld :
    (o : Option ℕ) (s : UdpSocket)
    → s.kernel ≡ held_list o
    → s.fd ≡ o
    → ((close_fd o s).fd ≡ none) × ((close_fd o s).kernel ≡ [])
close_fd-IsHeld none s k e = (e, k)
close_fd-IsHeld (some f) s k e =
    (refl, ap (released f) k ∙ ap (λ b. if b then [] else f ∷ []) (==_refl f))

socket_close-empty :
    (s : UdpSocket) → IsHeld s → ((socket_close s).fd ≡ none) × ((socket_close s).kernel ≡ [])
unfolding socket_close
socket_close-empty s k = close_fd-IsHeld s.fd s k refl

run_op-IsHeld : (op : SocketOp) (s : UdpSocket) → IsHeld s → IsHeld (run_op op s)
unfolding socket_open
run_op-IsHeld closes s k = let (f, e) = socket_close-empty s k in e ∙ ap held_list (sym f)
run_op-IsHeld (opens none binds) s k =
    let (f, e) = socket_close-empty s k in e ∙ ap held_list (sym f)
run_op-IsHeld (opens (some f) binds) s k =
    let (_, e) = socket_close-empty s k in
    let opened : UdpSocket = record { fd = some f; kernel = f ∷ (socket_close s).kernel } in
    let all : IsHeld opened = ap (◌∷◌ f) e in
    let (g, h) = socket_close-empty opened all in
    if-both {A = UdpSocket × Bool} (λ r. IsHeld r.0) binds all (h ∙ ap held_list (sym g))

-- Whatever open and close are called in whatever order, and whatever the system gives, from a new socket
-- on: the descriptors that are open at the end are the one that the object holds, if any; none is
-- lost, the ones of a failing bind and of an open after an open among them.
pub run_ops-IsHeld : (ops : List SocketOp) (s : UdpSocket) → IsHeld s → IsHeld (run_ops ops s)
run_ops-IsHeld [] s k = k
run_ops-IsHeld (op ∷ ops) s k = run_ops-IsHeld ops (run_op op s) (run_op-IsHeld op s k)

pub from_sockaddr-to_sockaddr :
    (ep : Endpoint) → ep.addr < 2 ^ 32 → ep.port < 2 ^ 16 → from_sockaddr (to_sockaddr ep) ≡ ep
unfolding from_sockaddr to_sockaddr
from_sockaddr-to_sockaddr ep h k =
    let a : of_network 0 (htonl ep.addr) ≡ ep.addr = omega (arith, h) in
    let p : of_network 0 (htons ep.port) ≡ ep.port = omega (arith, k) in
    λ i. record { addr = a i; port = p i }
