-- ===== src/Client.antt =====
-- src/client.rs: `Client`. A method that takes `&mut self`, or sends, gives back the client.
pub mod Receive
pub mod Posts
pub mod Ends
pub mod Pending
pub mod Typed
pub mod Reach
mod Tests
use carrier_pigeon.Base.{
  ℕ, ◌+◌, List, [], ◌∷◌, ◌++◌, map, Bool, true, false, Option, none, some, Io, ok, err, panic,
  ErrorKind, if◌then◌else◌, ◌==◌, length, get_elem?, ◌>>=◌, map_err, unwrap,
}
use carrier_pigeon.Base.Results.{invalid_data, would_block}
use carrier_pigeon.Base.Buffer.{replicate, set}
use carrier_pigeon.Base.HashMap
use carrier_pigeon.Net.{MId, TypeId, Any, Transport}
use carrier_pigeon.Net.Transport.{tcp, udp}
use carrier_pigeon.Net.Config.{Config}
use carrier_pigeon.Net.Status as ConStatus
use carrier_pigeon.Net.Status.{Status}
use carrier_pigeon.Net.Msg.{ErasedNetMsg, NetMsg, to_typed}
use carrier_pigeon.Time.{Host}
use carrier_pigeon.Table.{response_type_mid, disconnect_type_mid}
use carrier_pigeon.Table.Parts.{MsgTableParts, mid_count, valid_tid}
use carrier_pigeon.Table.Parts.Codec.{encode, decode, index, mid_of}
use carrier_pigeon.Tcp
use carrier_pigeon.Tcp.{TcpCon}
use carrier_pigeon.Tcp.Stream.{TcpStream, set_read_timeout}
use carrier_pigeon.Udp
use carrier_pigeon.Udp.{UdpCon}
use carrier_pigeon.Udp.Socket.{UdpSocket}

pub record Client (V : Type 0) : Type 0 where
  pub config : Config
  pub status : Status V
  pub msg_buff : List (List (ErasedNetMsg V))
  pub tcp : TcpCon
  pub udp : UdpCon
  pub parts : MsgTableParts V

module _ {V : Type 0} where
  unfoldable pub send_tcp : Client V → MId → List ℕ → Client V × Io (Unit {0})
  send_tcp self mid payload =
      let (con, result) = Tcp.send self.tcp mid payload in (record self { tcp = con }, result)

  unfoldable pub send_udp : Host → Client V → MId → List ℕ → Client V × Io (Unit {0})
  send_udp h self mid payload =
      let (con, result) = Udp.send h self.udp mid payload in (record self { udp = con }, result)

  -- `send_tcp` or `send_udp`, as the table says.
  unfoldable pub send_over :
      Host → Client V → Io (MId × Transport × List ℕ) → Client V × Io (Unit {0})
  unfolding send_tcp send_udp
  send_over h self (ok (mid, tcp, b)) = send_tcp self mid b
  send_over h self (ok (mid, udp, b)) = send_udp h self mid b
  send_over h self (err e) = (self, err e)
  send_over h self panic = (self, panic)

  -- Each error of the first half, and so that of serializing, has the kind `InvalidData`.
  unfoldable pub send : Host → Client V → Any V → Client V × Io (Unit {0})
  unfolding send_over
  send h self msg = send_over h self (map_err (λ _. invalid_data) (encode self.parts msg))

  -- The message that is put into the buffer; a client's messages have the `CId` 0.
  abbrev pub from_server : Option ℕ → Any V → ErasedNetMsg V
  from_server time msg = record { cid = 0; time = time; msg = msg }

  unfoldable pub recv_tcp : Client V → Client V × Io (MId × ErasedNetMsg V)
  recv_tcp self =
      let (con, result) = Tcp.recv self.tcp in
      (
        record self { tcp = con },
        result >>= λ m. decode self.parts m.0 m.1 >>= λ msg. ok (m.0, from_server none msg),
      )

  unfoldable pub recv_udp : Host → Client V → Client V × Io (MId × ErasedNetMsg V)
  recv_udp h self =
      let (con, result) = Udp.recv h self.udp in
      (
        record self { udp = con },
        result >>= λ m. decode self.parts m.0 m.2 >>= λ msg. ok (m.0, from_server (some m.1) msg),
      )

  -- `new_blocking` once the client record is made: the connection message is sent, and the first
  -- message that comes has to be the response.
  unfoldable pub handshake : Host → Client V → Any V → Io (Client V × Any V)
  handshake h client con_msg =
      let (client', sent) = send h client con_msg in
      let (client'', came) = recv_tcp client' in
      sent >>= λ _. came >>= λ m.
      if m.0 == response_type_mid
      then (do
        let tcp = Tcp.set_nonblocking client''.tcp true
        let udp = Udp.set_nonblocking client''.udp true
        _ ← tcp.1
        _ ← udp.1
        ok (record client'' { tcp = tcp.0; udp = udp.0 }, m.1.msg))
      else err invalid_data

  -- `connect` and `bind` are the system's: the stream to the server, and a socket at an address.
  unfoldable pub new_blocking :
      Host
      → Io TcpStream
      → (ℕ → Io UdpSocket)
      → MsgTableParts V
      → Config
      → Any V
      → Io (Client V × Any V)
  unfolding handshake
  new_blocking h connect bind parts config con_msg = do
    stream ← connect
    _ ← set_read_timeout stream config.timeout
    let con = Tcp.from_stream stream config.max_msg_size
    local ← unwrap (Tcp.local_addr con)
    peer ← unwrap (Tcp.peer_addr con)
    socket ← Udp.new bind local (some peer) config.max_msg_size
    handshake h
        (record {
          config = config;
          status = Status.connected;
          msg_buff = replicate (mid_count parts) [];
          tcp = con;
          udp = socket;
          parts = parts;
        })
        con_msg

  -- `disconnect` once the message is sent.
  unfoldable pub close : Client V × Io (Unit {0}) → Client V × Io (Unit {0})
  close (self, ok _) =
      let (con, result) = Tcp.close self.tcp in
      elim result [
        | ok _ ↦ (record self { tcp = con; status = Status.closed }, ok tt)
        | err e ↦ (record self { tcp = con }, err e)
        | panic ↦ (record self { tcp = con }, panic)
      ]
  close (self, err e) = (self, err e)
  close (self, panic) = (self, panic)

  -- `D` is the type of the message. A type that is not registered panics.
  unfoldable pub disconnect : Host → Client V → Any V → Client V × Io (Unit {0})
  unfolding close
  disconnect h self discon_msg = elim (mid_of self.parts discon_msg.tid) [
    | ok mid ↦
        if mid == disconnect_type_mid
        then close (send h self discon_msg)
        else (self, err invalid_data)
    | err e ↦ (self, err e)
    | panic ↦ (self, panic)
  ]

  unfoldable pub is_open : Client V → Bool
  is_open self = ConStatus.connected self.status

  unfoldable local_addr : Client V → Io ℕ
  local_addr self = Tcp.local_addr self.tcp

  unfoldable peer_addr : Client V → Io ℕ
  peer_addr self = Tcp.peer_addr self.tcp
