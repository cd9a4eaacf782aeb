-- ===== src/Server/Accept/Handshake.antt =====
-- A client of src/client.rs that connects to a server of src/server.rs: the connection message, the
-- program's answer, and the response.
use mathlib.Core.List.{append-nil}
use carrier_pigeon.Base.{
  ℕ, ◌+◌, ◌-◌, ◌^◌, ◌≤◌, ◌<◌, ◌≡◌, ap, sym, ◌∙◌, List, [], ◌∷◌, ◌++◌, map, Bool, false, Io, ok,
  none, length, All, if◌then◌else◌, some, get_elem?, ltb,
}
use carrier_pigeon.Net.{Any, DeserFn, tcp}
use carrier_pigeon.Time.{Host}
use carrier_pigeon.Table.{Bincode, RoundTrips, Entry, connection_type_mid, response_type_mid}
use carrier_pigeon.Table.Parts.Codec.{encode, decode}
use carrier_pigeon.Table.Parts.Index.{IsIndexOf}
use carrier_pigeon.Table.Parts.Roundtrip.{decode-encode}
use carrier_pigeon.Table.Parts.Typed.{IsBuilt, IsBuilt-IsIndexOf}
use carrier_pigeon.Tcp
use carrier_pigeon.Tcp.{TcpCon, frame}
use carrier_pigeon.Tcp.Stream.{TcpStream}
use carrier_pigeon.Tcp.Roundtrip.{send-sent}
use carrier_pigeon.Client as Client
use carrier_pigeon.Client.Posts.{client_sends}
use carrier_pigeon.Client.{Client}
use carrier_pigeon.Server.{Server, NewCon}
use carrier_pigeon.Server.Accept.{start_incoming, handle_con_helper}
use carrier_pigeon.Server.Accept.Handle.{Hook, handle_pending}
use carrier_pigeon.Server.Accept.Pass.{Waits, asked, later}
use carrier_pigeon.Server.Accept.One.{one_answered}
use carrier_pigeon.Server.Accept.Steps.{with_con, handle_con_helper-frame, handshake-hears}

module _ {V H : Type 0} (bin : Bincode V) (es : List (Entry V)) (one : Bool) (hc h : Host) (now : ℕ)
    (hook : Hook V H) (st st' : H) (client z : Client V) (self s : Server V) (f : DeserFn V)
    (before : List NewCon) (new : NewCon) (after : List NewCon) (con_msg resp : Any V)
    (b rb : List ℕ) (con' : TcpCon) (addr : ℕ) (codec : RoundTrips bin)
    (built : IsBuilt bin es s.parts) (same : client.parts ≡ s.parts)
    (reads : get_elem? s.parts.deser connection_type_mid ≡ some f)
    (started : start_incoming h.overflow_checks now self ≡ ok s)
    (wait : s.new_cons ≡ before ++ new ∷ after)
    (waits : All (Waits f con_msg.tid s.config.timeout now) before)
    (waits' : All (Waits f con_msg.tid s.config.timeout now) after)
    (asks : encode client.parts con_msg ≡ ok (connection_type_mid, tcp, b))
    (answers : encode s.parts resp ≡ ok (response_type_mid, tcp, rb))
    (sent : Client.send hc client con_msg ≡ (z, ok tt)) (fresh : client.tcp.tcp.sent ≡ [])
    (come : new.con.tcp.inbox ≡ z.tcp.tcp.sent)
    (in_time : ltb s.config.timeout (now - new.time) ≡ false) (works : new.con.tcp.fault ≡ none)
    (short : length b < 2 ^ 16) (room : length b + 4 ≤ length new.con.buff)
    (peer : new.con.tcp.peer_addr ≡ ok addr) (fresh' : new.con.tcp.sent ≡ [])
    (sent' : Tcp.send (asked f con_msg.tid s.config.timeout now new).con response_type_mid rb
      ≡ (con', ok tt))
    (come' : client.tcp.tcp.inbox ≡ con'.tcp.sent) (works' : client.tcp.tcp.fault ≡ none)
    (short' : length rb < 2 ^ 16) (room' : length rb + 4 ≤ length client.tcp.buff) where
  abbrev it : NewCon
  it = asked f con_msg.tid s.config.timeout now new

  index_of : IsIndexOf s.parts es
  index_of = IsBuilt-IsIndexOf bin es s.parts built

  -- The connection message has come out at the server.
  it_asks :
      (handle_con_helper f con_msg.tid s.config.timeout now new).1 ≡ ok con_msg.value
      × (it.con.tcp ≡ record new.con.tcp { inbox = [] })
  it_asks =
      let (out, _) = client_sends hc client z con_msg connection_type_mid b asks sent in
      let wrote : new.con.tcp.inbox ≡ frame connection_type_mid b ++ [] =
        come
        ∙ send-sent client.tcp z.tcp connection_type_mid b out
        ∙ ap (λ bytes. bytes ++ frame connection_type_mid b) fresh
        ∙ sym (append-nil (frame connection_type_mid b)) in
      let d : decode s.parts connection_type_mid b ≡ ok con_msg =
        ap (λ p. decode p connection_type_mid b) (sym same)
        ∙ decode-encode bin client.parts es con_msg connection_type_mid tcp b codec
            (rw same index_of) built.coded asks in
      let (con, got, left) =
        handle_con_helper-frame s.parts f s.config.timeout now new b [] con_msg reads d in_time
          works wrote short room in
      (ap (λ r. r.1) got, ap (λ (r : NewCon × Io V). r.0.con.tcp) got ∙ left)

  it_comes_from : Tcp.peer_addr it.con ≡ ok addr
  unfolding Tcp.peer_addr
  it_comes_from = ap (λ (t : TcpStream). t.peer_addr) it_asks.1 ∙ peer

  -- The response has come out at the client.
  response_heard :
      (y : Client V) × (Client.handshake hc client con_msg ≡ ok (y, resp))
      × (y.status ≡ client.status)
  response_heard =
      let wrote : client.tcp.tcp.inbox ≡ frame response_type_mid rb ++ [] =
        come'
        ∙ send-sent it.con con' response_type_mid rb sent'
        ∙ ap (λ bytes. bytes ++ frame response_type_mid rb)
            (ap (λ (t : TcpStream). t.sent) it_asks.1 ∙ fresh')
        ∙ sym (append-nil (frame response_type_mid rb)) in
      let d : decode client.parts response_type_mid rb ≡ ok resp =
        ap (λ p. decode p response_type_mid rb) same
        ∙ decode-encode bin s.parts es resp response_type_mid tcp rb codec index_of built.coded
            answers in
      handshake-hears hc client z con_msg resp connection_type_mid b rb [] asks d sent works' wrote
        short' room'

  -- The server without the connection among those that wait.
  abbrev settled : Server V
  settled = record s {
    new_cons =
        map (asked f con_msg.tid s.config.timeout now) before
        ++ later f con_msg.tid s.config.timeout now one after;
  }

  -- A client sends its connection message to a server with the same table, where its connection is
  -- one of those that wait and in time, and each of the others has sent nothing that makes a message
  -- and has neither run out of time nor failed. Then the server's hook is called once, with the
  -- message as it was sent, and the count is one; the connection leaves those that wait, which keep
  -- their order. If the hook accepts, the client's connection is in the three tables of the server
  -- under its number, with the address of its peer and the response on its stream; if not, the
  -- response is on the stream of the connection that is dropped, and the tables are as before. Either
  -- way the client that gets what the server wrote ends connecting with the hook's response, and its
  -- status is what it was. The codec reads back what it writes; the connection and the response
  -- message have their types, go over TCP, and fit the length field and the buffers of both sides;
  -- both streams are new, work and take what is sent; and the address of the peer is known.
  pub connects :
      (acc : Bool)
      → hook st new.cid con_msg.value ≡ (st', acc, resp)
      → (y : Client V) × (handle_pending one h now hook con_msg.tid st self
          ≡ ok (
            (if acc then with_con settled new.cid con' addr else settled),
            st',
            1,
            (if acc then [] else con' ∷ []),
          ))
        × (Client.handshake hc client con_msg ≡ ok (y, resp))
        × (y.status ≡ client.status)
  connects acc says =
      let (y, heard, open_) = response_heard in
      let out =
        one_answered one h now hook con_msg.tid st self s f before new after started reads wait
          waits waits' acc con_msg.value resp st' addr rb it_asks.0 says it_comes_from answers in
      (
        y,
        out
            ∙ ap
                (λ (r : TcpCon × Io (Unit {0})). ok (
                  (if acc then with_con settled new.cid r.0 addr else settled),
                  st',
                  1,
                  (if acc then [] else r.0 ∷ []),
                ))
                sent',
        heard,
        open_,
      )
