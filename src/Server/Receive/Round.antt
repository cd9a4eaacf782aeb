-- ===== src/Server/Receive/Round.antt =====
-- A round of the TCP loop of `recv_msgs` of src/server.rs, over a connection on which whole messages
-- have come, and perhaps its end.
use mathlib.Core.List.{append-nil}
use carrier_pigeon.Base.{
  ℕ, sym, ◌+◌, ◌≡◌, ◌≢◌, refl, ap, ◌∙◌, List, [], ◌∷◌, ◌++◌, none, some, ok, err, length, arith,
  ==-refl, ne→==, ◌==◌,
}
use carrier_pigeon.Base.Results.{would_block, connection_aborted}
use carrier_pigeon.Base.HashMap
use carrier_pigeon.Base.HashMap.{get-insert}
use carrier_pigeon.Base.Loop.{next, done}
use carrier_pigeon.Net.{CId, MId}
use carrier_pigeon.Net.Status.{Status}
use carrier_pigeon.Net.Msg.{ErasedNetMsg, push}
use carrier_pigeon.Net.Filed.{Filed-nil, push-Filed}
use carrier_pigeon.Table.{disconnect_type_mid}
use carrier_pigeon.Table.Parts.Codec.{decode}
use carrier_pigeon.Tcp
use carrier_pigeon.Tcp.{TcpCon, frame}
use carrier_pigeon.Tcp.Recv.{recv-frame}
use carrier_pigeon.Server.{Server}
use carrier_pigeon.Server.Receive.{recv_tcp, handle_tcp_msg, keep, tcp_round}
use carrier_pigeon.Server.Receive.Took.{arrival, departure, Took, insert-others}
use carrier_pigeon.Tcp.Letters.{
  Letter, Ending, stays, leaves, drops, last_frame, Taken, EndsBy, counted, recv-over, recv-empty,
}

module _ {V : Type 0} where
  recv_tcp-got :
      (self : Server V) (cid : CId) (con con' : TcpCon) (l : Letter V)
      → HashMap.get self.tcp cid ≡ some con
      → Tcp.recv con ≡ (con', ok (l.mid, l.bytes))
      → decode self.parts l.mid l.bytes ≡ ok l.msg
      → recv_tcp self cid
        ≡ (record self { tcp = HashMap.insert self.tcp cid con' }, ok (arrival cid l))
  unfolding recv_tcp
  recv_tcp-got self cid con con' l held got d = ground (arith, held, got, d)

  handle_tcp_msg-keeps :
      (self : Server V) (mid : MId) (m : ErasedNetMsg V) (i : ℕ) (cid : CId)
      (after : List (List (ErasedNetMsg V)))
      → mid ≢ disconnect_type_mid
      → push self.msg_buff mid m ≡ ok after
      → handle_tcp_msg (self, ok (mid, m)) i cid ≡ next (record self { msg_buff = after }, i + 1)
  unfolding handle_tcp_msg
  handle_tcp_msg-keeps self mid m i cid after other pushed =
      rw (ne→== mid disconnect_type_mid other, keep, pushed) refl

  -- A round takes the message at the front of the stream.
  pub tcp_round-letter :
      (self : Server V) (cid : CId) (con : TcpCon) (i : ℕ) (l : Letter V) (rest : List ℕ)
      → HashMap.get self.tcp cid ≡ some con
      → con.tcp.fault ≡ none
      → con.tcp.inbox ≡ frame l.mid l.bytes ++ rest
      → Taken self.parts (length self.msg_buff) (length con.buff) l
      → (z : Server V) × (con' : TcpCon) × (tcp_round cid (self, i) ≡ next (z, i + 1))
        × Took cid (arrival cid l ∷ []) [] self z
        × (HashMap.get z.tcp cid ≡ some con')
        × (con'.tcp ≡ record con.tcp { inbox = rest })
        × (length con'.buff ≡ length con.buff)
  unfolding tcp_round
  tcp_round-letter self cid con i l rest held works come t =
      let (buff, got, size) = recv-frame con l.mid l.bytes rest works come t.small t.short t.room in
      let (after, pushed, filed) = push-Filed self.msg_buff l.mid (arrival cid l).1 t.numbered in
      let con' : TcpCon = record { buff = buff; tcp = record con.tcp { inbox = rest } } in
      let z : Server V = record self { tcp = HashMap.insert self.tcp cid con'; msg_buff = after } in
      (
        z,
        con',
        ap (λ r. handle_tcp_msg r i cid) (recv_tcp-got self cid con con' l held got t.decodes)
            ∙ handle_tcp_msg-keeps (record self { tcp = HashMap.insert self.tcp cid con' }) l.mid
                (arrival cid l).1 i cid after t.kept pushed,
        record {
          filed = filed;
          queued = sym (append-nil self.disconnected);
          same_parts = refl;
          same_udp = refl;
          others = insert-others self cid con';
        },
        get-insert self.tcp cid con' cid ∙ rw (==-refl cid) refl,
        refl,
        size,
      )

  -- A server that has read from a connection, and no more than queued its end.
  over :
      (self : Server V) (cid : CId) (con : TcpCon) (ds : List (CId × Status V))
      → Took cid [] ds self (record self {
        tcp = HashMap.insert self.tcp cid con;
        disconnected = self.disconnected ++ ds;
      })
  over self cid con ds = record {
    filed = Filed-nil self.msg_buff;
    queued = refl;
    same_parts = refl;
    same_udp = refl;
    others = insert-others self cid con;
  }

  tcp_round-stays :
      (self : Server V) (cid : CId) (con : TcpCon) (i : ℕ)
      → HashMap.get self.tcp cid ≡ some con
      → Tcp.recv con ≡ (con, err would_block)
      → tcp_round cid (self, i) ≡ done (record self { tcp = HashMap.insert self.tcp cid con }, i)
  unfolding tcp_round recv_tcp handle_tcp_msg
  tcp_round-stays self cid con i held got = ground (arith, held, got)

  tcp_round-leaves :
      (self : Server V) (cid : CId) (con con' : TcpCon) (i : ℕ) (l : Letter V)
      → HashMap.get self.tcp cid ≡ some con
      → Tcp.recv con ≡ (con', ok (l.mid, l.bytes))
      → decode self.parts l.mid l.bytes ≡ ok l.msg
      → l.mid ≡ disconnect_type_mid
      → tcp_round cid (self, i)
        ≡ done (
          record self {
            tcp = HashMap.insert self.tcp cid con';
            disconnected = self.disconnected ++ (cid, Status.disconnected l.msg) ∷ [];
          },
          i + 1,
        )
  unfolding tcp_round handle_tcp_msg
  tcp_round-leaves self cid con con' i l held got d last =
      ap (λ r. handle_tcp_msg r i cid) (recv_tcp-got self cid con con' l held got d)
      ∙ rw (ap (λ mid. mid == disconnect_type_mid) last, handle_tcp_msg) refl

  tcp_round-drops :
      (self : Server V) (cid : CId) (con : TcpCon) (i : ℕ)
      → HashMap.get self.tcp cid ≡ some con
      → Tcp.recv con ≡ (con, err connection_aborted)
      → tcp_round cid (self, i)
        ≡ done (
          record self {
            tcp = HashMap.insert self.tcp cid con;
            disconnected = self.disconnected ++ (cid, Status.dropped connection_aborted) ∷ [];
          },
          i,
        )
  unfolding tcp_round recv_tcp handle_tcp_msg
  tcp_round-drops self cid con i held got = ground (arith, held, got)

  -- The last round.
  pub tcp_round-ending :
      (self : Server V) (cid : CId) (con : TcpCon) (i : ℕ) (e : Ending V)
      → HashMap.get self.tcp cid ≡ some con
      → con.tcp.inbox ≡ last_frame e
      → EndsBy self.parts (length con.buff) con.tcp e
      → (z : Server V) × (j : ℕ) × (tcp_round cid (self, i) ≡ done (z, j))
        × (j ≡ i + counted e)
        × Took cid [] (departure cid e) self z
  tcp_round-ending self cid con i stays held come o = (
    record self { tcp = HashMap.insert self.tcp cid con },
    i,
    tcp_round-stays self cid con i held (recv-empty con o come),
    omega arith,
    record {
      filed = Filed-nil self.msg_buff;
      queued = sym (append-nil self.disconnected);
      same_parts = refl;
      same_udp = refl;
      others = insert-others self cid con;
    },
  )
  tcp_round-ending self cid con i (leaves l) held come (works, last, short, room, d) =
      let (buff, got, _) =
        recv-frame con l.mid l.bytes [] works (come ∙ sym (append-nil (frame l.mid l.bytes)))
          (omega arith) short room in
      let con' : TcpCon = record { buff = buff; tcp = record con.tcp { inbox = [] } } in
      (
        _,
        i + 1,
        tcp_round-leaves self cid con con' i l held got d last,
        refl,
        over self cid con' ((cid, Status.disconnected l.msg) ∷ []),
      )
  tcp_round-ending self cid con i drops held come (works, ended) = (
    _,
    i,
    tcp_round-drops self cid con i held (recv-over con works ended come),
    omega arith,
    over self cid con ((cid, Status.dropped connection_aborted) ∷ []),
  )
