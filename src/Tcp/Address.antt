-- ===== src/Tcp/Address.antt =====
-- Receiving over src/tcp.rs leaves the address of the peer as it is.
use carrier_pigeon.Base.{
  ℕ, ◌+◌, ◌≡◌, refl, ◌∙◌, List, Io, ok, err, panic, ltb, take, length, Bool-cases, Outcome-cases,
  inl, inr, arith, ◌==◌,
}
use carrier_pigeon.Header.{tcp_header_len}
use carrier_pigeon.Header.Tcp as Header
use carrier_pigeon.Tcp
use carrier_pigeon.Tcp.{TcpCon}
use carrier_pigeon.Tcp.Stream as Stream

read_exact-peer_addr :
    (s : Stream.TcpStream) (n : ℕ) → (Stream.read_exact s n).0.peer_addr ≡ s.peer_addr
unfolding Stream.read_exact
read_exact-peer_addr s n = ground arith

refuse-peer_addr : (con : TcpCon) → (Tcp.refuse con).0.tcp.peer_addr ≡ con.tcp.peer_addr
unfolding Tcp.refuse Stream.shutdown
refuse-peer_addr con = ground arith

read_message-peer_addr :
    (con : TcpCon) (header : Header.TcpHeader) (r : Stream.TcpStream × Io (List ℕ))
    → (Tcp.read_message con header r).0.tcp.peer_addr ≡ r.0.peer_addr
unfolding Tcp.read_message
read_message-peer_addr con header (tcp, ok bytes) = refl
read_message-peer_addr con header (tcp, err e) = refl
read_message-peer_addr con header (tcp, panic) = refl

recv_message-peer_addr :
    (con : TcpCon) (header : Header.TcpHeader)
    → (Tcp.recv_message con header).0.tcp.peer_addr ≡ con.tcp.peer_addr
unfolding Tcp.recv_message
recv_message-peer_addr con header = elim (Bool-cases (ltb (Tcp.max_msg_size con) header.len)) [
  | inl large ↦ rw (Tcp.recv_message, large) (refuse-peer_addr con)
  | inr fits ↦
      rw (Tcp.recv_message, fits)
        (read_message-peer_addr con header (Stream.read_exact con.tcp (header.len + tcp_header_len))
          ∙ read_exact-peer_addr con.tcp (header.len + tcp_header_len))
]

recv_header-peer_addr : (con : TcpCon) → (Tcp.recv_header con).0.tcp.peer_addr ≡ con.tcp.peer_addr
unfolding Tcp.recv_header
recv_header-peer_addr con =
    elim (Outcome-cases (Header.from_be_bytes (take tcp_header_len con.buff))) [
      | inl (header, q) ↦ rw (Tcp.recv_header, q) (recv_message-peer_addr con header)
      | inr (inl (e, q)) ↦ rw (Tcp.recv_header, q) refl
      | inr (inr q) ↦ rw (Tcp.recv_header, q) refl
    ]

-- Receiving leaves the address of the peer.
pub recv-peer_addr : (con : TcpCon) → (Tcp.recv con).0.tcp.peer_addr ≡ con.tcp.peer_addr
unfolding Tcp.recv
recv-peer_addr con = elim (Outcome-cases (Stream.peek con.tcp tcp_header_len)) [
  | inl (bytes, q) ↦ elim (Bool-cases (length bytes == tcp_header_len)) [
    | inl whole ↦ rw (Tcp.recv, q, whole) (recv_header-peer_addr _)
    | inr part ↦ elim (Bool-cases (length bytes == 0)) [
      | inl shut ↦ rw (Tcp.recv, q, part, shut) refl
      | inr some_ ↦ rw (Tcp.recv, q, part, some_) refl
    ]
  ]
  | inr (inl (e, q)) ↦ rw (Tcp.recv, q) refl
  | inr (inr q) ↦ rw (Tcp.recv, q) refl
]
