-- ===== src/Udp/Socket.antt =====
-- The `UdpSocket` of the standard library, as far as src/udp.rs uses it.
--
-- `inbox` holds what the socket gives next, in order: a datagram with its sender, or an error of the
-- system. Each is given once. An empty `inbox` is `WouldBlock`.
use carrier_pigeon.Base.{
  ℕ, List, [], ◌∷◌, ◌++◌, Bool, Option, none, some, Io, ok, err, panic, ErrorKind, length, take,
}
use carrier_pigeon.Base.Results.{would_block, not_connected}

abbrev pub Packet : Type 0
Packet = Io (ℕ × List ℕ)

pub record UdpSocket : Type 0 where
  pub inbox : List Packet
  pub sent : List (ℕ × List ℕ)
  pub fault : Option ErrorKind
  pub nonblocking : Bool
  pub peer_addr : Io ℕ
  pub local_addr : Io ℕ

unfoldable pub connect_to : UdpSocket → Option ℕ → Io UdpSocket
connect_to s none = ok s
connect_to s (some peer) = elim s.fault [
  | some e ↦ err e
  | none ↦ ok (record s { peer_addr = ok peer })
]

-- Where the system takes the datagram it takes it whole.
unfoldable pub send_to : UdpSocket → List ℕ → ℕ → UdpSocket × Io ℕ
send_to s bytes addr = elim s.fault [
  | some e ↦ (s, err e)
  | none ↦ (record s { sent = s.sent ++ (addr, bytes) ∷ [] }, ok (length bytes))
]

-- On a socket that is not connected `send` fails.
unfoldable pub send : UdpSocket → List ℕ → UdpSocket × Io ℕ
unfolding send_to
send s bytes = elim s.peer_addr [
  | ok addr ↦ send_to s bytes addr
  | err e ↦ (s, err not_connected)
  | panic ↦ (s, panic)
]

-- A datagram that is longer than the buffer is cut to its `size`. A connected socket receives from
-- its peer only; what else comes is not in its `inbox`.
take_next : UdpSocket → ℕ → List Packet → UdpSocket × Io (ℕ × List ℕ)
take_next s size [] = (s, err would_block)
take_next s size (ok (from, bytes) ∷ rest) = (record s { inbox = rest }, ok (from, take size bytes))
take_next s size (err e ∷ rest) = (record s { inbox = rest }, err e)
take_next s size (panic ∷ rest) = (record s { inbox = rest }, panic)

unfoldable pub recv_from : UdpSocket → ℕ → UdpSocket × Io (ℕ × List ℕ)
unfolding take_next
recv_from s size = take_next s size s.inbox
