-- ===== src/Server/Send/Posts.antt =====
-- What a server of src/server.rs writes to one client, for the messages that it sends over TCP.
use mathlib.Core.List.{append_assoc, append-nil}
use carrier_pigeon.Base.{
  ℕ, ◌≡◌, refl, ap, sym, ◌∙◌, List, [], ◌∷◌, ◌++◌, Io, some, ok, arith, All, Bool-cases, inl, inr,
  true, ==-refl,
}
use carrier_pigeon.Base.HashMap
use carrier_pigeon.Base.HashMap.{get-insert}
use carrier_pigeon.Net.{CId, MId, Any, tcp}
use carrier_pigeon.Time.{Host}
use carrier_pigeon.Table.{Bincode, RoundTrips, Entry, disconnect_type_mid}
use carrier_pigeon.Table.Parts.{MsgTableParts}
use carrier_pigeon.Table.Parts.Index.{IsIndexOf}
use carrier_pigeon.Table.Parts.Codec.{encode, decode}
use carrier_pigeon.Table.Parts.Roundtrip.{Coded, decode-encode}
use carrier_pigeon.Tcp
use carrier_pigeon.Tcp.{TcpCon, frame}
use carrier_pigeon.Tcp.Roundtrip.{send-sent}
use carrier_pigeon.Tcp.Letters.{
  Letter, Ending, stays, leaves, drops, letter_frames, last_frame, tcp_close-sent,
}
use carrier_pigeon.Server.{Server, alive}
use carrier_pigeon.Server.Send.{send_to, send_over, send_tcp, disconnect}
use carrier_pigeon.Server.Send.Shut.{disconnect_over, close_con_over}

module _ {V : Type 0} where
  -- A `send_to` over TCP is a `send` of the connection.
  pub send_to_over :
      (h : Host) (self : Server V) (cid : CId) (con : TcpCon) (msg : Any V) (mid : MId) (b : List ℕ)
      → HashMap.get self.tcp cid ≡ some con
      → encode self.parts msg ≡ ok (mid, tcp, b)
      → send_to h self cid msg ≡ (
        record self { tcp = HashMap.insert self.tcp cid (Tcp.send con mid b).0 },
        (Tcp.send con mid b).1,
      )
  unfolding send_to send_over send_tcp
  send_to_over h self cid con msg mid b held e = ground (arith, e, held)

  pub send_to_con :
      (h : Host) (self : Server V) (cid : CId) (con con' : TcpCon) (msg : Any V) (mid : MId)
      (b : List ℕ)
      → HashMap.get self.tcp cid ≡ some con
      → encode self.parts msg ≡ ok (mid, tcp, b)
      → Tcp.send con mid b ≡ (con', ok tt)
      → send_to h self cid msg ≡ (record self { tcp = HashMap.insert self.tcp cid con' }, ok tt)
  send_to_con h self cid con con' msg mid b held e sent =
      send_to_over h self cid con msg mid b held e
      ∙ ap (λ r. (record self { tcp = HashMap.insert self.tcp cid r.0 }, r.1)) sent

module _ {V : Type 0} (h : Host) (cid : CId) where
  -- The calls of `send_to` for the letters, one after the other, all succeed and lead from `s` to
  -- `z`.
  abbrev pub Posts : Server V → List (Letter V) → Server V → Type 0
  Posts s [] z = s ≡ z
  Posts s (l ∷ ls) z =
      (d : Server V) × (encode s.parts l.msg ≡ ok (l.mid, tcp, l.bytes))
      × (send_to h s cid l.msg ≡ (d, ok tt))
      × Posts d ls z

  -- The server ends the connection so, and that leads from `s` to `z`.
  abbrev pub Ends : Server V → Ending V → Server V → Type 0
  Ends s stays z = s ≡ z
  Ends s (leaves l) z =
      (l.mid ≡ disconnect_type_mid)
      × (encode s.parts l.msg ≡ ok (l.mid, tcp, l.bytes))
      × (disconnect h s l.msg cid ≡ (z, ok tt))
  Ends s drops z = s ≡ z

  -- What has been written to the client.
  pub record Wrote (con : TcpCon) (bytes : List ℕ) (s z : Server V) : Type 0 where
    pub con' : TcpCon
    pub held : HashMap.get z.tcp cid ≡ some con'
    pub sent : con'.tcp.sent ≡ con.tcp.sent ++ bytes
    pub same_parts : z.parts ≡ s.parts

  send_to-Wrote :
      (s z : Server V) (con : TcpCon) (l : Letter V)
      → HashMap.get s.tcp cid ≡ some con
      → encode s.parts l.msg ≡ ok (l.mid, tcp, l.bytes)
      → send_to h s cid l.msg ≡ (z, ok tt)
      → Wrote con (frame l.mid l.bytes) s z
  send_to-Wrote s z con l held e sent =
      let r = Tcp.send con l.mid l.bytes in
      let both = sym (send_to_over h s cid con l.msg l.mid l.bytes held e) ∙ sent in
      let out : r ≡ (r.0, ok tt) = ap (λ (o : Io (Unit {0})). (r.0, o)) (ap (λ x. x.1) both) in
      let at : record s { tcp = HashMap.insert s.tcp cid r.0 } ≡ z = ap (λ x. x.0) both in
      record {
        con' = r.0;
        held =
            ap (λ (x : Server V). HashMap.get x.tcp cid) (sym at)
            ∙ get-insert s.tcp cid r.0 cid
            ∙ rw (==-refl cid) refl;
        sent = send-sent con r.0 l.mid l.bytes out;
        same_parts = ap (λ (x : Server V). x.parts) (sym at);
      }

  pub Posts-Wrote :
      (s z : Server V) (con : TcpCon) (ls : List (Letter V))
      → HashMap.get s.tcp cid ≡ some con
      → Posts s ls z
      → Wrote con (letter_frames ls) s z
  Posts-Wrote s z con [] held e = record {
    con' = con;
    held = ap (λ (x : Server V). HashMap.get x.tcp cid) (sym e) ∙ held;
    sent = sym (append-nil con.tcp.sent);
    same_parts = ap (λ (x : Server V). x.parts) (sym e);
  }
  Posts-Wrote s z con (l ∷ ls) held (d, e, sent, rest) =
      let one = send_to-Wrote s d con l held e sent in
      let more = Posts-Wrote d z one.con' ls one.held rest in
      record {
        con' = more.con';
        held = more.held;
        sent =
            more.sent
            ∙ ap (λ bytes. bytes ++ letter_frames ls) one.sent
            ∙ append_assoc con.tcp.sent (frame l.mid l.bytes) (letter_frames ls);
        same_parts = more.same_parts ∙ one.same_parts;
      }

  -- A disconnection that succeeds is of a connection that is alive.
  disconnect-alive :
      (s z : Server V) (msg : Any V) → disconnect h s msg cid ≡ (z, ok tt) → alive s cid ≡ true
  unfolding disconnect
  disconnect-alive s z msg gone = elim (Bool-cases (alive s cid)) [
    | inl up ↦ up
    | inr dead ↦ absurd (ground arith)
  ]

  leaves-Wrote :
      (s z : Server V) (con : TcpCon) (l : Letter V)
      → HashMap.get s.tcp cid ≡ some con
      → encode s.parts l.msg ≡ ok (l.mid, tcp, l.bytes)
      → disconnect h s l.msg cid ≡ (z, ok tt)
      → Wrote con (frame l.mid l.bytes) s z
  leaves-Wrote s z con l held e gone =
      let r = Tcp.send con l.mid l.bytes in
      let over =
        disconnect_over h s l.msg cid l.mid l.bytes con e (disconnect-alive s z l.msg gone) held in
      let c = close_con_over s cid r.0 r.1 (ap (λ x. x.1) (sym over ∙ gone)) in
      let at = ap (λ x. x.0) (sym over ∙ gone) in
      record {
        con' = (Tcp.close r.0).0;
        held = ap (λ (x : Server V). HashMap.get x.tcp cid) (sym at) ∙ c.held;
        sent =
            tcp_close-sent r.0
            ∙ send-sent con r.0 l.mid l.bytes (ap (λ (o : Io (Unit {0})). (r.0, o)) c.sent);
        same_parts = ap (λ (x : Server V). x.parts) (sym at) ∙ c.same_parts;
      }

  pub Ends-Wrote :
      (s z : Server V) (con : TcpCon) (e : Ending V)
      → HashMap.get s.tcp cid ≡ some con
      → Ends s e z
      → Wrote con (last_frame e) s z
  Ends-Wrote s z con stays held e = record {
    con' = con;
    held = ap (λ (x : Server V). HashMap.get x.tcp cid) (sym e) ∙ held;
    sent = sym (append-nil con.tcp.sent);
    same_parts = ap (λ (x : Server V). x.parts) (sym e);
  }
  Ends-Wrote s z con (leaves l) held (_, e, gone) = leaves-Wrote s z con l held e gone
  Ends-Wrote s z con drops held e = record {
    con' = con;
    held = ap (λ (x : Server V). HashMap.get x.tcp cid) (sym e) ∙ held;
    sent = sym (append-nil con.tcp.sent);
    same_parts = ap (λ (x : Server V). x.parts) (sym e);
  }

  -- Each letter is decoded as its message, if the codec reads back what it writes.
  pub Posts-decode :
      (bin : Bincode V) (es : List (Entry V)) (p : MsgTableParts V) (s z : Server V) (con : TcpCon)
      (ls : List (Letter V))
      → RoundTrips bin
      → IsIndexOf p es
      → Coded bin es
      → s.parts ≡ p
      → HashMap.get s.tcp cid ≡ some con
      → Posts s ls z
      → All (λ l. decode p l.mid l.bytes ≡ ok l.msg) ls
  Posts-decode bin es p s z con [] codec i coded same held e = tt
  Posts-decode bin es p s z con (l ∷ ls) codec i coded same held (d, e, sent, rest) =
      let one = send_to-Wrote s d con l held e sent in
      (
        decode-encode bin p es l.msg l.mid tcp l.bytes codec i coded
            (ap (λ q. encode q l.msg) (sym same) ∙ e),
        Posts-decode bin es p d z one.con' ls codec i coded (one.same_parts ∙ same) one.held rest,
      )
