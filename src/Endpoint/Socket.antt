-- ===== src/Endpoint/Socket.antt =====
-- pc/src/net/udp_socket.cpp: UdpSocket on POSIX. What the system calls return is an argument; `kernel` is
-- the descriptors that the object has from the system and has not given back.
pub mod Laws
use wii_sec_u.Base.{
  ℕ, zero, suc, ◌+◌, ◌*◌, ◌/◌, ◌%◌, ◌^◌, Bool, true, false, not, ◌||◌, List, [], ◌∷◌, Option, none,
  some, length, ◌==◌, if◌then◌else◌,
}
use wii_sec_u.Base.Int.{ℤ, pos, negsuc}
use wii_sec_u.Endpoint.{Endpoint}

-- What is used of a sockaddr_in, as the bytes in memory, which are in network order.
pub record Sockaddr : Type 0 where
  pub sin_addr : List ℕ
  pub sin_port : List ℕ

abbrev pub htonl : ℕ → List ℕ
htonl n = n / 2 ^ 24 % 2 ^ 8 ∷ n / 2 ^ 16 % 2 ^ 8 ∷ n / 2 ^ 8 % 2 ^ 8 ∷ n % 2 ^ 8 ∷ []

abbrev pub htons : ℕ → List ℕ
htons n = n / 2 ^ 8 % 2 ^ 8 ∷ n % 2 ^ 8 ∷ []

-- ntohl and ntohs: the number of which the bytes are the digits.
abbrev pub of_network : ℕ → List ℕ → ℕ
of_network acc [] = acc
of_network acc (b ∷ bs) = of_network (acc * 2 ^ 8 + b) bs

unfoldable pub to_sockaddr : Endpoint → Sockaddr
to_sockaddr ep = record { sin_addr = htonl ep.addr; sin_port = htons ep.port }

unfoldable pub from_sockaddr : Sockaddr → Endpoint
from_sockaddr sa = record { addr = of_network 0 sa.sin_addr; port = of_network 0 sa.sin_port }

-- fd_, `none` for kInvalid.
pub record UdpSocket : Type 0 where
  pub fd : Option ℕ
  pub kernel : List ℕ

abbrev pub released : ℕ → List ℕ → List ℕ
released f [] = []
released f (g ∷ gs) = let rest = released f gs in if g == f then rest else g ∷ rest

abbrev pub close_fd : Option ℕ → UdpSocket → UdpSocket
close_fd none s = s
close_fd (some f) s = record { fd = none; kernel = released f s.kernel }

unfoldable pub socket_close : UdpSocket → UdpSocket
socket_close s = close_fd s.fd s

-- With what socket() gives, `none` for -1, and whether bind() succeeds.
abbrev pub open_fd : Option ℕ → Bool → UdpSocket → UdpSocket × Bool
open_fd none binds s = (s, false)
open_fd (some f) binds s =
    let opened : UdpSocket = record { fd = some f; kernel = f ∷ s.kernel } in
    if binds then (opened, true) else (socket_close opened, false)

unfoldable pub socket_open : Option ℕ → Bool → UdpSocket → UdpSocket × Bool
unfolding socket_close
socket_open given binds s = open_fd given binds (socket_close s)

-- What getsockname() fills in, `none` if it fails.
unfoldable pub bound_port : Option Sockaddr → UdpSocket → ℕ
bound_port named s = elim s.fd [
  | none ↦ 0
  | some f ↦ elim named [ none ↦ 0 | some sa ↦ of_network 0 sa.sin_port ]
]

-- tv_sec and tv_usec, `none` for a socket that is not open.
unfoldable pub recv_timeout : ℕ → UdpSocket → Option (ℕ × ℕ)
recv_timeout ms s = elim s.fd [ none ↦ none | some f ↦ some (ms / 1000, ms % 1000 * 1000) ]

-- sendto()'s arguments, if it is called, and whether it takes the whole datagram; `sent` is its result.
unfoldable pub send_to : ℤ → Endpoint → List ℕ → UdpSocket → Option (Sockaddr × List ℕ) × Bool
unfolding to_sockaddr
send_to sent to d s = elim s.fd [
  | none ↦ (none, false)
  | some f ↦
      if to.port == 0
      then (none, false)
      else (some (to_sockaddr to, d), elim sent [ pos n ↦ n == length d | negsuc n ↦ false ])
]

-- What recvfrom() gives: a datagram and its sender, or an errno.
pub data Errno : Type 0 where
  eagain ewouldblock eintr other_errno : Errno

pub data Recvfrom : Type 0 where
  datagram : List ℕ → Sockaddr → Recvfrom
  failed : Errno → Recvfrom

-- RecvResult, with `len`, `buf` and `from` of an Ok.
pub data RecvResult : Type 0 where
  recv_ok : List ℕ → Endpoint → RecvResult
  recv_timeout_hit recv_error : RecvResult

abbrev pub of_errno : Errno → RecvResult
of_errno eagain = recv_timeout_hit
of_errno ewouldblock = recv_timeout_hit
of_errno eintr = recv_timeout_hit
of_errno other_errno = recv_error

abbrev pub of_recvfrom : Recvfrom → RecvResult
of_recvfrom (datagram d sa) = recv_ok d (from_sockaddr sa)
of_recvfrom (failed e) = of_errno e

unfoldable pub recv_from : Recvfrom → UdpSocket → RecvResult
unfolding from_sockaddr
recv_from got s = elim s.fd [ none ↦ recv_error | some f ↦ of_recvfrom got ]
