-- ===== src/Server/Receive/Delivery.antt =====
-- A message that a client of src/client.rs sends, at a server of src/server.rs.
use carrier_pigeon.Base.{
  ℕ, ◌+◌, ◌^◌, ◌≤◌, ◌<◌, ◌≡◌, ap, ◌∙◌, List, [], ◌++◌, none, some, ok, length, arith,
}
use carrier_pigeon.Base.HashMap
use carrier_pigeon.Net.{CId, MId, Any, tcp}
use carrier_pigeon.Time.{Host}
use carrier_pigeon.Table.{Bincode, RoundTrips, Entry}
use carrier_pigeon.Table.Parts.Index.{IsIndexOf}
use carrier_pigeon.Table.Parts.Codec.{encode, decode}
use carrier_pigeon.Table.Parts.Roundtrip.{Coded, decode-encode}
use carrier_pigeon.Tcp
use carrier_pigeon.Tcp.{TcpCon, frame}
use carrier_pigeon.Tcp.Recv.{recv-frame}
use carrier_pigeon.Tcp.Roundtrip.{send-sent}
use carrier_pigeon.Client as Client
use carrier_pigeon.Client.{Client}
use carrier_pigeon.Server.{Server}
use carrier_pigeon.Server.Receive.{recv_tcp}

module _ {V : Type 0} where
  -- The bytes that a TCP `send` of a client puts on its stream.
  client_frame :
      (h : Host) (self z : Client V) (msg : Any V) (mid : MId) (b : List ℕ)
      → encode self.parts msg ≡ ok (mid, tcp, b)
      → Client.send h self msg ≡ (z, ok tt)
      → z.tcp.tcp.sent ≡ self.tcp.tcp.sent ++ frame mid b
  unfolding Client.send Client.send_tcp
  client_frame h self z msg mid b e sent =
      let way = Tcp.send self.tcp mid b in ground (arith, e, send-sent self.tcp way.0 mid b)

  -- A frame in front of a connection's stream is received as the message that it encodes.
  recv_tcp-frame :
      (self : Server V) (cid : CId) (con : TcpCon) (mid : MId) (b rest : List ℕ) (msg : Any V)
      → HashMap.get self.tcp cid ≡ some con
      → con.tcp.fault ≡ none
      → con.tcp.inbox ≡ frame mid b ++ rest
      → mid < 2 ^ 16
      → length b < 2 ^ 16
      → length b + 4 ≤ length con.buff
      → decode self.parts mid b ≡ ok msg
      → (recv_tcp self cid).1 ≡ ok (mid, record { cid = cid; time = none; msg = msg })
  unfolding recv_tcp
  recv_tcp-frame self cid con mid b rest msg held works come small short room d =
      let (buff, got, _) = recv-frame con mid b rest works come small short room in
      rw (held, recv_tcp, got, d)

  -- A message that a client sends over TCP, the first of its stream, comes out at a server with the
  -- same table as that message, under the client's `CId`: if the codec reads back what it writes,
  -- both header fields and the server's buffer hold the message, and the server's stream works.
  pub delivery :
      (bin : Bincode V) (h : Host) (client z : Client V) (server : Server V) (cid : CId)
      (con : TcpCon) (es : List (Entry V)) (msg : Any V) (mid : MId) (b rest : List ℕ)
      → RoundTrips bin
      → IsIndexOf client.parts es
      → Coded bin es
      → server.parts ≡ client.parts
      → encode client.parts msg ≡ ok (mid, tcp, b)
      → client.tcp.tcp.sent ≡ []
      → Client.send h client msg ≡ (z, ok tt)
      → HashMap.get server.tcp cid ≡ some con
      → con.tcp.fault ≡ none
      → con.tcp.inbox ≡ z.tcp.tcp.sent ++ rest
      → mid < 2 ^ 16
      → length b < 2 ^ 16
      → length b + 4 ≤ length con.buff
      → (recv_tcp server cid).1 ≡ ok (mid, record { cid = cid; time = none; msg = msg })
  delivery bin h client z server cid con es msg mid b rest codec i coded same e fresh sent held
        works come small short room =
      recv_tcp-frame server cid con mid b rest msg held works
        (come
          ∙ ap (λ s. s ++ rest)
              (client_frame h client z msg mid b e sent ∙ ap (λ s. s ++ frame mid b) fresh))
        small short room
        (ap (λ p. decode p mid b) same
          ∙ decode-encode bin client.parts es msg mid tcp b codec i coded e)
