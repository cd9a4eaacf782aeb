-- ===== src/Tcp.antt =====
-- src/tcp.rs: `TcpCon`, framed messages over a `TcpStream`.
--
-- The lock around the stream is not modelled: a call has the stream to itself.
pub mod Stream
pub mod Recv
pub mod Send
pub mod Roundtrip
pub mod Address
pub mod Partial
pub mod Progress
pub mod Letters
pub mod Panics
mod Tests
use carrier_pigeon.Base.{
  ℕ, ◌+◌, ◌-◌, List, ◌++◌, Bool, Io, ok, err, panic, ErrorKind, ltb, ◌==◌, if◌then◌else◌, length,
  take, drop, ◌>>=◌,
}
use carrier_pigeon.Base.Results.{would_block, invalid_data, connection_aborted}
use carrier_pigeon.Base.Buffer.{replicate, write_at, overwrite}
use carrier_pigeon.Net.{MId}
use carrier_pigeon.Header.{tcp_header_len}
use carrier_pigeon.Header.Tcp as Header
use carrier_pigeon.Header.Tcp.{TcpHeader}
use Stream.{TcpStream, peek, read_exact, write_all, shutdown, flush}

pub record TcpCon : Type 0 where
  pub buff : List ℕ
  pub tcp : TcpStream

unfoldable pub from_stream : TcpStream → ℕ → TcpCon
from_stream tcp max_msg_size = record {
  buff = replicate (max_msg_size + tcp_header_len) 0;
  tcp = tcp;
}

unfoldable pub buff_size : TcpCon → ℕ
buff_size self = length self.buff

unfoldable pub max_msg_size : TcpCon → ℕ
max_msg_size self = length self.buff - tcp_header_len

-- The bytes that `send` builds.
unfoldable pub frame : MId → List ℕ → List ℕ
frame mid payload =
    let total_len = length payload + tcp_header_len in
    let h_bytes = Header.to_be_bytes (Header.new mid (length payload)) in
    write_at (write_at (replicate total_len 0) 0 h_bytes) tcp_header_len payload

unfoldable pub send : TcpCon → MId → List ℕ → TcpCon × Io (Unit {0})
unfolding buff_size
send self mid payload =
    let total_len = length payload + tcp_header_len in
    if ltb (buff_size self) total_len
    then (self, err invalid_data)
    else let (tcp, result) = write_all self.tcp (frame mid payload) in
      (record self { tcp = tcp }, result)

-- `recv` where the header announces more than the buffer holds: the stream is shut down.
unfoldable pub refuse : TcpCon → TcpCon × Io (MId × List ℕ)
refuse self =
    let (tcp, result) = shutdown self.tcp in
    (record self { tcp = tcp }, result >>= λ _. err invalid_data)

-- `recv` after `read_exact` of the header and the payload. What a read that fails leaves in the
-- buffer is never read.
unfoldable pub read_message :
    TcpCon → TcpHeader → TcpStream × Io (List ℕ) → TcpCon × Io (MId × List ℕ)
read_message self header (tcp, ok bytes) =
    let buff = overwrite bytes self.buff in
    (
      record { buff = buff; tcp = tcp },
      ok (header.mid, drop tcp_header_len (take (header.len + tcp_header_len) buff)),
    )
read_message self header (tcp, err e) = (record self { tcp = tcp }, err e)
read_message self header (tcp, panic) = (record self { tcp = tcp }, panic)

-- `recv` once the header is read.
unfoldable pub recv_message : TcpCon → TcpHeader → TcpCon × Io (MId × List ℕ)
unfolding max_msg_size refuse read_message
recv_message self header =
    if ltb (max_msg_size self) header.len
    then refuse self
    else read_message self header (read_exact self.tcp (header.len + tcp_header_len))

-- `recv` once four bytes of the header are in the buffer.
unfoldable pub recv_header : TcpCon → TcpCon × Io (MId × List ℕ)
recv_header self = elim (Header.from_be_bytes (take tcp_header_len self.buff)) [
  | ok header ↦ recv_message self header
  | err e ↦ (self, err e)
  | panic ↦ (self, panic)
]

unfoldable pub recv : TcpCon → TcpCon × Io (MId × List ℕ)
recv self = elim (peek self.tcp tcp_header_len) [
  | ok bytes ↦
      let self' = record self { buff = overwrite bytes self.buff } in
      if length bytes == tcp_header_len
      then recv_header self'
      else if length bytes == 0
      then (self', err connection_aborted)
      else (self', err would_block)
  | err e ↦ (self, err e)
  | panic ↦ (self, panic)
]

unfoldable pub close : TcpCon → TcpCon × Io (Unit {0})
close self = elim (flush self.tcp) [
  | ok _ ↦ let (tcp, result) = shutdown self.tcp in (record self { tcp = tcp }, result)
  | err e ↦ (self, err e)
  | panic ↦ (self, panic)
]

unfoldable pub set_nonblocking : TcpCon → Bool → TcpCon × Io (Unit {0})
set_nonblocking self nonblocking =
    let (tcp, result) = Stream.set_nonblocking self.tcp nonblocking in
    (record self { tcp = tcp }, result)

unfoldable pub peer_addr : TcpCon → Io ℕ
peer_addr self = self.tcp.peer_addr

unfoldable pub local_addr : TcpCon → Io ℕ
local_addr self = self.tcp.local_addr
