-- ===== src/Udp.antt =====
-- src/udp.rs: `UdpCon`, one message to a datagram over a `UdpSocket`.
pub mod Socket
pub mod Laws
pub mod Panics
use carrier_pigeon.Base.{
  ℕ, ◌+◌, ◌-◌, List, ◌++◌, Bool, true, Option, none, some, Io, ok, err, panic, ltb, leb, ◌==◌,
  if◌then◌else◌, length, take, drop, ◌>>=◌,
}
use carrier_pigeon.Base.Results.{invalid_data, not_connected}
use carrier_pigeon.Base.Buffer.{replicate, write_at, overwrite}
use carrier_pigeon.Net.{MId}
use carrier_pigeon.Time.{Host}
use carrier_pigeon.Header.{tcp_header_len, udp_header_len}
use carrier_pigeon.Header.Udp as Header
use Socket.{UdpSocket}

pub record UdpCon : Type 0 where
  pub buff : List ℕ
  pub udp : UdpSocket

-- `bind` is an argument, since the system makes the socket: `local` gives it or fails.
unfoldable pub new : (ℕ → Io UdpSocket) → ℕ → Option ℕ → ℕ → Io UdpCon
new bind local peer max_msg_size = do
  udp ← bind local
  connected ← Socket.connect_to udp peer
  ok (record {
    buff = replicate (max_msg_size + udp_header_len) 0;
    udp = record connected { nonblocking = true };
  })

unfoldable pub buff_size : UdpCon → ℕ
buff_size self = length self.buff

unfoldable pub max_msg_size : UdpCon → ℕ
max_msg_size self = length self.buff - tcp_header_len

-- Where the message is larger than is safe over UDP the source logs it and goes on.
unfoldable pub send_shared : Host → UdpCon → MId → List ℕ → Io (List ℕ)
unfolding buff_size
send_shared h self mid payload =
    let total_len = length payload + udp_header_len in
    if ltb (buff_size self) total_len
    then err invalid_data
    else ok (
        write_at (write_at (replicate total_len 0) 0 (Header.to_be_bytes (Header.new h mid)))
          udp_header_len payload)

-- A datagram that was sent in part is only logged.
unfoldable pub send_to : Host → UdpCon → ℕ → MId → List ℕ → UdpCon × Io (Unit {0})
send_to h self addr mid payload = elim (send_shared h self mid payload) [
  | ok buff ↦
      let (udp, result) = Socket.send_to self.udp buff addr in
      (record self { udp = udp }, result >>= λ _. ok tt)
  | err e ↦ (self, err e)
  | panic ↦ (self, panic)
]

unfoldable pub send : Host → UdpCon → MId → List ℕ → UdpCon × Io (Unit {0})
send h self mid payload = elim (send_shared h self mid payload) [
  | ok buff ↦
      let (udp, result) = Socket.send self.udp buff in
      (record self { udp = udp }, result >>= λ _. ok tt)
  | err e ↦ (self, err e)
  | panic ↦ (self, panic)
]

-- `&self.buff[from..to]`, which panics unless `from <= to <= len`.
unfoldable pub slice : List ℕ → ℕ → ℕ → Io (List ℕ)
slice buff from to =
    if leb from to
    then (if leb to (length buff) then ok (drop from (take to buff)) else panic)
    else panic

unfoldable pub recv_shared : Host → UdpCon → ℕ → Io (MId × ℕ × List ℕ)
unfolding slice
recv_shared h self n = if n == 0 then err not_connected else (do
  head ← slice self.buff 0 udp_header_len
  header ← Header.from_be_bytes h head
  bytes ← slice self.buff udp_header_len n
  ok (header.mid, header.time, bytes))

-- `recv` and `recv_from` after the system has put a datagram into the buffer.
unfoldable pub received :
    Host → UdpCon → UdpSocket × Io (ℕ × List ℕ) → UdpCon × Io (ℕ × MId × ℕ × List ℕ)
received h self (udp, ok (from, bytes)) =
    let self' : UdpCon = record { buff = overwrite bytes self.buff; udp = udp } in
    (
      self',
      recv_shared h self' (length bytes) >>= λ message. ok (from, message.0, message.1, message.2),
    )
received h self (udp, err e) = (record self { udp = udp }, err e)
received h self (udp, panic) = (record self { udp = udp }, panic)

unfoldable pub recv_from : Host → UdpCon → UdpCon × Io (ℕ × MId × ℕ × List ℕ)
unfolding received
recv_from h self = received h self (Socket.recv_from self.udp (length self.buff))

unfoldable pub recv : Host → UdpCon → UdpCon × Io (MId × ℕ × List ℕ)
unfolding received
recv h self =
    let (self', result) = received h self (Socket.recv_from self.udp (length self.buff)) in
    (self', result >>= λ message. ok (message.1, message.2, message.3))

unfoldable pub set_nonblocking : UdpCon → Bool → UdpCon × Io (Unit {0})
set_nonblocking self nonblocking =
    (record self { udp = record self.udp { nonblocking = nonblocking } }, ok tt)

unfoldable pub peer_addr : UdpCon → Io ℕ
peer_addr self = self.udp.peer_addr

unfoldable pub local_addr : UdpCon → Io ℕ
local_addr self = self.udp.local_addr
