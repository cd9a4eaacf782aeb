-- ===== src/Server/Accept/Steps.antt =====
-- The steps in which a client of src/client.rs connects to a server of src/server.rs, each where it
-- goes well.
use carrier_pigeon.Base.{
  ℕ, ◌+◌, ◌-◌, ◌^◌, ◌≤◌, ◌<◌, ◌≡◌, ◌≢◌, panic, refl, ap, ◌∙◌, List, ◌++◌, true, false, ok, none,
  length, arith, some, get_elem?, ltb, ==-refl,
}
use carrier_pigeon.Base.HashMap
use carrier_pigeon.Base.HashMap.{get-insert, insert-insert}
use carrier_pigeon.Net.{MId, CId, Any, DeserFn, tcp, downcast_ref}
use carrier_pigeon.Time.{Host}
use carrier_pigeon.Table.{connection_type_mid, response_type_mid}
use carrier_pigeon.Table.Parts.{MsgTableParts, valid_mid, mid_count}
use carrier_pigeon.Table.Parts.Codec.{encode, decode, index}
use carrier_pigeon.Table.Parts.Roundtrip.{encode_parts}
use carrier_pigeon.Udp
use carrier_pigeon.Tcp
use carrier_pigeon.Tcp.Stream as Stream
use carrier_pigeon.Tcp.{TcpCon, frame}
use carrier_pigeon.Tcp.Stream.{write_all}
use carrier_pigeon.Tcp.Recv.{recv-frame}
use carrier_pigeon.Client as Client
use carrier_pigeon.Client.Posts.{client_sends}
use carrier_pigeon.Client.{Client}
use carrier_pigeon.Client.Receive.Round.{recv_tcp-decoded}
use carrier_pigeon.Server.Send.Posts.{send_to_over}
use carrier_pigeon.Server.{Server, NewCon, add_tcp_con_cid}
use carrier_pigeon.Server.Accept.{handle_con_helper, read_con_msg, accept_incoming, reject_incoming}

-- What `send` leaves alone of a connection.
send-inbox :
    (a b : TcpCon) (mid : MId) (payload : List ℕ)
    → Tcp.send a mid payload ≡ (b, ok tt)
    → (b.tcp.inbox ≡ a.tcp.inbox) × (b.tcp.fault ≡ a.tcp.fault) × (b.buff ≡ a.buff)
unfolding Tcp.send write_all
send-inbox a b mid payload h = (ground arith, ground arith, ground arith)

send-ne-panic : (con : TcpCon) (mid : MId) (payload : List ℕ) → (Tcp.send con mid payload).1 ≢ panic
unfolding Tcp.send write_all
send-ne-panic con mid payload e = ground arith

module _ {V : Type 0} where
  -- The connection message is read by the function of the connection type.
  read_con_msg-decode :
      (p : MsgTableParts V) (f : DeserFn V) (b : List ℕ) (msg : Any V)
      → get_elem? p.deser connection_type_mid ≡ some f
      → decode p connection_type_mid b ≡ ok msg
      → read_con_msg f msg.tid (connection_type_mid, b) ≡ ok msg.value
  unfolding read_con_msg decode downcast_ref index valid_mid mid_count
  read_con_msg-decode p f b msg reads d =
      let e : f b ≡ ok msg = ground (arith, d) in ground (arith, e)

  -- A connection message whose frame has come whole in time is read.
  pub handle_con_helper-frame :
      (p : MsgTableParts V) (f : DeserFn V) (timeout now : ℕ) (new : NewCon) (b rest : List ℕ)
      (msg : Any V)
      → get_elem? p.deser connection_type_mid ≡ some f
      → decode p connection_type_mid b ≡ ok msg
      → ltb timeout (now - new.time) ≡ false
      → new.con.tcp.fault ≡ none
      → new.con.tcp.inbox ≡ frame connection_type_mid b ++ rest
      → length b < 2 ^ 16
      → length b + 4 ≤ length new.con.buff
      → (con : TcpCon) × (handle_con_helper f msg.tid timeout now new
          ≡ (record new { con = con }, ok msg.value))
        × (con.tcp ≡ record new.con.tcp { inbox = rest })
  unfolding handle_con_helper
  handle_con_helper-frame p f timeout now new b rest msg reads d early works come short room =
      let (buff, got, _) =
        recv-frame new.con connection_type_mid b rest works come (omega arith) short room in
      let con : TcpCon = record { buff = buff; tcp = record new.con.tcp { inbox = rest } } in
      (con, ground (arith, early, got, read_con_msg-decode p f b msg reads d), refl)

  -- The tables with one connection more.
  abbrev pub with_con : Server V → CId → TcpCon → ℕ → Server V
  with_con self cid con addr = record self {
    tcp = HashMap.insert self.tcp cid con;
    addr_cid = HashMap.insert self.addr_cid addr cid;
    cid_addr = HashMap.insert self.cid_addr cid addr;
  }

  -- A server adds the connection, and the response goes out on it as far as the stream takes it.
  pub accept_incoming-sends :
      (h : Host) (self : Server V) (cid : CId) (con : TcpCon) (resp : Any V) (addr : ℕ) (mid : MId)
      (b : List ℕ)
      → Tcp.peer_addr con ≡ ok addr
      → encode self.parts resp ≡ ok (mid, tcp, b)
      → accept_incoming h self cid con resp ≡ ok (with_con self cid (Tcp.send con mid b).0 addr)
  unfolding accept_incoming add_tcp_con_cid
  accept_incoming-sends h self cid con resp addr mid b peer e =
      let there : HashMap.get (HashMap.insert self.tcp cid con) cid ≡ some con =
        get-insert self.tcp cid con cid ∙ rw (==-refl cid) refl in
      let self' = with_con self cid con addr in
      ground (
        arith,
        send_to_over h self' cid con resp mid b there e,
        insert-insert self.tcp cid con (Tcp.send con mid b).0,
        send-ne-panic con mid b,
      )

  -- A server writes the response on a connection that it rejects.
  pub reject_incoming-sends :
      (self : Server V) (con : TcpCon) (resp : Any V) (addr : ℕ) (b : List ℕ)
      → Tcp.peer_addr con ≡ ok addr
      → encode self.parts resp ≡ ok (response_type_mid, tcp, b)
      → reject_incoming self con resp ≡ ok (Tcp.send con response_type_mid b).0
  unfolding reject_incoming index
  reject_incoming-sends self con resp addr b peer e =
      let (_, ser, at, wrote) = encode_parts self.parts resp response_type_mid tcp b e in
      ground (arith, at, wrote, send-ne-panic con response_type_mid b)

  -- A client whose connection message goes out, and to which the response comes, has connected.
  pub handshake-hears :
      (h : Host) (client z : Client V) (con_msg resp : Any V) (mid : MId) (b rb : List ℕ)
      (rest : List ℕ)
      → encode client.parts con_msg ≡ ok (mid, tcp, b)
      → decode client.parts response_type_mid rb ≡ ok resp
      → Client.send h client con_msg ≡ (z, ok tt)
      → client.tcp.tcp.fault ≡ none
      → client.tcp.tcp.inbox ≡ frame response_type_mid rb ++ rest
      → length rb < 2 ^ 16
      → length rb + 4 ≤ length client.tcp.buff
      → (y : Client V) × (Client.handshake h client con_msg ≡ ok (y, resp))
        × (y.status ≡ client.status)
  unfolding Client.handshake Tcp.set_nonblocking Udp.set_nonblocking Stream.set_nonblocking
  handshake-hears h client z con_msg resp mid b rb rest e d sent works come short room =
      let (out, kept) = client_sends h client z con_msg mid b e sent in
      let (inbox, fault, buff) = send-inbox client.tcp z.tcp mid b out in
      let (buff', got, _) =
        recv-frame z.tcp response_type_mid rb rest (fault ∙ works) (inbox ∙ come) (omega arith)
          short (rw buff room) in
      let came : Client V = record z {
        tcp = record { buff = buff'; tcp = record z.tcp.tcp { inbox = rest } };
      } in
      let y : Client V = record came {
        tcp = (Tcp.set_nonblocking came.tcp true).0;
        udp = (Udp.set_nonblocking came.udp true).0;
      } in
      let d' : decode z.parts response_type_mid rb ≡ ok resp =
        ap (λ (c : Client V). decode c.parts response_type_mid rb) kept ∙ d in
      let got' = recv_tcp-decoded z came.tcp response_type_mid rb resp got d' in
      (y, rw (sent, Client.handshake, got') refl, ap (λ (c : Client V). c.status) kept)
